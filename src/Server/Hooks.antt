-- ===== src/Server/Hooks.antt =====
-- internal/legacy/server/hooks.go: the hooks and channels of the server with the trees that hold
-- them, and the commands that register and remove them. The goroutine of a hook, its queue and its
-- endpoints are left out, and so are the arguments of SETHOOK: a hook comes as they make it.
pub mod Store
pub mod Registry
pub mod Removed
pub mod Removal
pub mod Purged
pub mod Lapsed
pub mod Candidates
use mathlib.Core.List.{reverse}
use spatialdb_engine.Base.{
  ℕ, Bool, true, false, not, ◌&&◌, ◌||◌, Option, none, some, List, [], ◌∷◌, ◌++◌, ltb, ◌==◌, length,
  if◌then◌else◌,
}
use spatialdb_engine.Base.Text.{Str, codes, str_eq, str_lt}
use spatialdb_engine.Base.Int.{pos}
use spatialdb_engine.Geometry.{Geometry, Rect}
use spatialdb_engine.Index.{OrderedSet, SpatialIndex}
use spatialdb_engine.Index.Sorted.{find_by}
use spatialdb_engine.Collection.Walk.{Visit, each}
use spatialdb_engine.Glob.{Matcher, is_match, parse, is_empty}
use spatialdb_engine.Server.{
  OutputType, json, resp, other, invalid_number_of_arguments, hooks_and_channels_share_name, Result,
  ok, err, Reply, nothing, json_ok, integer,
}
use spatialdb_engine.Server.Group
use spatialdb_engine.Server.Group.{Groups, GroupTrees}
use spatialdb_engine.Server.Delete.{count_reply}
use spatialdb_engine.Server.Fence.{Detect, inside, outside, enter, exit, cross}

-- The keys of a `detect` map.
unfoldable pub has_detect : Detect → List Detect → Bool
has_detect d [] = false
has_detect outside (outside ∷ ds) = true
has_detect cross (cross ∷ ds) = true
has_detect inside (inside ∷ ds) = true
has_detect enter (enter ∷ ds) = true
has_detect exit (exit ∷ ds) = true
has_detect d (e ∷ ds) = has_detect d ds

abbrev pub bool_eq : Bool → Bool → Bool
bool_eq true b = b
bool_eq false b = not b

unfoldable pub strs_equal : List Str → List Str → Bool
strs_equal [] [] = true
strs_equal [] (b ∷ bs) = false
strs_equal (a ∷ l) [] = false
strs_equal (a ∷ l) (b ∷ bs) = str_eq a b && strs_equal l bs

unfoldable pub metas_equal : List (Str × Str) → List (Str × Str) → Bool
metas_equal [] [] = true
metas_equal [] (b ∷ bs) = false
metas_equal (a ∷ l) [] = false
metas_equal (a ∷ l) (b ∷ bs) = str_eq a.0 b.0 && (str_eq a.1 b.1 && metas_equal l bs)

module _ (G : Geometry) where
  -- `rect` is the box of `Fence.obj`, `args` is `Message.Args`. `expires` counts nanoseconds from the
  -- zero time on: a hook that does not expire has a 0.
  pub record Hook : Type 0 where
    pub key : Str
    pub name : Str
    pub channel : Bool
    pub endpoints : List Str
    pub args : List Str
    pub metas : List (Str × Str)
    pub expires : ℕ
    pub rect : Option (Rect G.floats)
    pub detect : Option (List Detect)

module _ {G : Geometry} where
  unfoldable pub by_hook_name : Hook G → Hook G → Bool
  by_hook_name a b = str_lt a.name b.name

  unfoldable pub by_hook_expires : Hook G → Hook G → Bool
  by_hook_expires a b =
      if ltb a.expires b.expires
      then true
      else if ltb b.expires a.expires
      then false
      else str_lt a.name b.name

  -- `&Hook{Name: name}`.
  abbrev pub named : Str → Hook G
  named name = record {
    key = [];
    name = name;
    channel = false;
    endpoints = [];
    args = [];
    metas = [];
    expires = 0;
    rect = none;
    detect = none;
  }

  -- `Equals`.
  unfoldable pub hook_equals : Hook G → Hook G → Bool
  hook_equals h k =
      str_eq h.key k.key
      && str_eq h.name k.name
      && h.expires == k.expires
      && strs_equal h.endpoints k.endpoints
      && metas_equal h.metas k.metas
      && strs_equal h.args k.args

  -- `hook.Fence.detect == nil || hook.Fence.detect["outside"]`.
  unfoldable pub detects_outside : Hook G → Bool
  detects_outside h = elim (h.detect) [ none ↦ true | some ds ↦ has_detect outside ds ]

  -- `hook.Fence.detect["cross"]`.
  unfoldable pub detects_cross : Hook G → Bool
  detects_cross h = elim (h.detect) [ none ↦ false | some ds ↦ has_detect cross ds ]

  -- `!hook.expires.IsZero()`.
  abbrev pub has_expiration : Hook G → Bool
  has_expiration h = not (h.expires == 0)

module _ (G : Geometry) where
  pub record HookTrees : Type 1 where
    pub by_name : OrderedSet (by_hook_name {G = G})
    pub by_expires : OrderedSet (by_hook_expires {G = G})
    pub spatial : SpatialIndex (Rect G.floats) (Hook G)
    pub groups : GroupTrees

module _ {G : Geometry} (T : HookTrees G) where
  -- `s.hooks`, `s.hooksOut`, `s.hookExpires`, `s.hookTree`, `s.hookCross`, and the groups.
  pub record HookStore : Type 0 where
    pub hooks : T.by_name.Tree
    pub hooks_out : T.by_name.Tree
    pub hook_expires : T.by_expires.Tree
    pub hook_tree : T.spatial.Tree
    pub hook_cross : T.spatial.Tree
    pub groups : Groups T.groups

  -- `s.hooks.Get(&Hook{Name: name})`.
  unfoldable pub get_hook : HookStore → Str → Option (Hook G)
  get_hook s name = find_by by_hook_name (named name) (T.by_name.items s.hooks)

  -- Out of the ordered trees and the groups.
  unfoldable pub unlist : Hook G → HookStore → HookStore
  unlist h s = record s {
    hooks = T.by_name.delete s.hooks h;
    hooks_out = T.by_name.delete s.hooks_out h;
    hook_expires =
        if has_expiration h then T.by_expires.delete s.hook_expires h else s.hook_expires;
    groups = Group.disconnect_hook T.groups s.groups h.name;
  }

  -- Out of the spatial trees.
  unfoldable pub unplace : Hook G → HookStore → HookStore
  unplace h s = record s {
    hook_tree = elim (h.rect) [ none ↦ s.hook_tree | some r ↦ T.spatial.delete s.hook_tree r h ];
    hook_cross = elim (h.rect) [
      | none ↦ s.hook_cross
      | some r ↦ if detects_cross h then T.spatial.delete s.hook_cross r h else s.hook_cross
    ];
  }

  -- Into the spatial trees.
  unfoldable pub place : Hook G → HookStore → HookStore
  place h s = record s {
    hook_tree = elim (h.rect) [ none ↦ s.hook_tree | some r ↦ T.spatial.insert s.hook_tree r h ];
    hook_cross = elim (h.rect) [
      | none ↦ s.hook_cross
      | some r ↦ if detects_cross h then T.spatial.insert s.hook_cross r h else s.hook_cross
    ];
  }

  -- `s.hooks.Set(hook)` and, for a hook that detects the outside, `s.hooksOut.Set(hook)`.
  unfoldable pub enlist : Hook G → HookStore → HookStore
  enlist h s = record s {
    hooks = T.by_name.set s.hooks h;
    hooks_out = if detects_outside h then T.by_name.set s.hooks_out h else s.hooks_out;
  }

  unfoldable pub set_expiration : Hook G → HookStore → HookStore
  set_expiration h s = record s {
    hook_expires = if has_expiration h then T.by_expires.set s.hook_expires h else s.hook_expires;
  }

  -- SETHOOK and SETCHAN behind their arguments.
  unfoldable pub add_hook : Hook G → HookStore → HookStore
  unfolding enlist place set_expiration
  add_hook hook s = set_expiration hook (place hook (enlist hook s))

  unfoldable pub replace : Hook G → Hook G → HookStore → HookStore
  unfolding unlist unplace enlist place set_expiration
  replace prev hook s =
      set_expiration hook (place hook (unplace prev (enlist hook (unlist prev s))))

  abbrev pub is_other : OutputType → Bool
  is_other other = true
  is_other _ = false

  -- The reply, and whether the command updated.
  abbrev pub HookOutcome : Type 0 → Type 0 → Type 0
  HookOutcome O V = HookStore × Result (Reply O V × Bool)

  module _ {O V : Type 0} where
    unfoldable pub set_over : OutputType → Hook G → Option (Hook G) → HookStore → HookOutcome O V
    unfolding add_hook replace
    set_over out hook none s = (add_hook hook s, ok (count_reply out true, true))
    set_over out hook (some prev) s =
        if not (bool_eq prev.channel hook.channel)
        then (s, err hooks_and_channels_share_name)
        else if hook_equals prev hook
        then (if is_other out
            then (replace prev hook (set_expiration hook s), ok (count_reply out true, true))
            else (set_expiration hook s, ok (count_reply out false, false)))
        else (replace prev hook s, ok (count_reply out true, true))

    unfoldable pub set_hook : OutputType → Hook G → HookStore → HookOutcome O V
    unfolding set_over
    set_hook out hook s = set_over out hook (get_hook s hook.name) s

  -- `cmdDELHOOKop`.
  unfoldable pub del_found : Bool → Option (Hook G) → HookStore → HookStore × Bool
  unfolding unlist unplace
  del_found channel none s = (s, false)
  del_found channel (some h) s =
      if not (bool_eq h.channel channel) then (s, false) else (unplace h (unlist h s), true)

  unfoldable pub del_hook_op : Str → Bool → HookStore → HookStore × Bool
  unfolding del_found get_hook
  del_hook_op name channel s = del_found channel (get_hook s name) s

  -- DELHOOK and DELCHAN: the arguments behind the command's name.
  unfoldable pub cmd_del_hook :
      {O V : Type 0} → Bool → OutputType → List Str → HookStore → HookOutcome O V
  unfolding del_hook_op
  cmd_del_hook channel out [] s = (s, err invalid_number_of_arguments)
  cmd_del_hook channel out (name ∷ []) s =
      let (s', updated) = del_hook_op name channel s in
      if is_empty name
      then (s, err invalid_number_of_arguments)
      else (s', ok (count_reply out updated, updated))
  cmd_del_hook channel out (name ∷ arg ∷ rest) s = (s, err invalid_number_of_arguments)
