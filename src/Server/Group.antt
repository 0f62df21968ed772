-- ===== src/Server/Group.antt =====
-- internal/legacy/server/group.go: the groups that tie a hook to an object of a collection, kept in
-- two trees.
use spatialdb_engine.Base.{
  Bool, true, false, ◌&&◌, Option, none, some, List, [], ◌∷◌, if◌then◌else◌,
}
use spatialdb_engine.Base.Text.{Str, str_eq, str_lt}
use spatialdb_engine.Index.{OrderedSet}
use spatialdb_engine.Index.Sorted.{find_by}

pub record GroupItem : Type 0 where
  pub hook_name : Str
  pub col_key : Str
  pub obj_id : Str
  pub group_id : Str

unfoldable pub by_group_hook : GroupItem → GroupItem → Bool
by_group_hook a b =
    if str_lt a.hook_name b.hook_name
    then true
    else if str_lt b.hook_name a.hook_name
    then false
    else if str_lt a.col_key b.col_key
    then true
    else if str_lt b.col_key a.col_key
    then false
    else str_lt a.obj_id b.obj_id

unfoldable pub by_group_object : GroupItem → GroupItem → Bool
by_group_object a b =
    if str_lt a.col_key b.col_key
    then true
    else if str_lt b.col_key a.col_key
    then false
    else if str_lt a.obj_id b.obj_id
    then true
    else if str_lt b.obj_id a.obj_id
    then false
    else str_lt a.hook_name b.hook_name

pub record GroupTrees : Type 1 where
  pub by_hook : OrderedSet by_group_hook
  pub by_object : OrderedSet by_group_object

-- The item under which a tree is searched.
abbrev pub probe : Str → Str → Str → GroupItem
probe hook_name col_key obj_id = record {
  hook_name = hook_name;
  col_key = col_key;
  obj_id = obj_id;
  group_id = [];
}

-- The items in front of the first that fails the test: an `Ascend` that stops there.
unfoldable pub run_of : (GroupItem → Bool) → List GroupItem → List GroupItem
run_of p [] = []
run_of p (g ∷ gs) = if p g then g ∷ run_of p gs else []

module _ (T : GroupTrees) where
  -- `s.groupHooks` and `s.groupObjects`.
  pub record Groups : Type 0 where
    pub hooks : T.by_hook.Tree
    pub objects : T.by_object.Tree

  -- `bsonID()` gives the group's id.
  unfoldable pub connect : Groups → Str → Str → Str → Str → Groups × Str
  connect s group_id hook_name col_key obj_id =
      let g = record (probe hook_name col_key obj_id) { group_id = group_id } in
      (record { hooks = T.by_hook.set s.hooks g; objects = T.by_object.set s.objects g }, group_id)

  unfoldable pub disconnect : Groups → Str → Str → Str → Groups
  disconnect s hook_name col_key obj_id =
      let g = probe hook_name col_key obj_id in
      record { hooks = T.by_hook.delete s.hooks g; objects = T.by_object.delete s.objects g }

  abbrev id_or_empty : Option GroupItem → Str
  id_or_empty none = []
  id_or_empty (some g) = g.group_id

  unfoldable pub group_get : Groups → Str → Str → Str → Str
  group_get s hook_name col_key obj_id =
      id_or_empty (find_by by_group_hook (probe hook_name col_key obj_id) (T.by_hook.items s.hooks))

  unfoldable pub delete_groups : Groups → List GroupItem → Groups
  delete_groups s [] = s
  delete_groups s (g ∷ gs) =
      delete_groups
        (record { hooks = T.by_hook.delete s.hooks g; objects = T.by_object.delete s.objects g }) gs

  unfoldable pub disconnect_object : Groups → Str → Str → Groups
  disconnect_object s col_key obj_id = delete_groups s (
      run_of (λ g. str_eq g.col_key col_key && str_eq g.obj_id obj_id)
        (T.by_object.ascend s.objects (probe [] col_key obj_id)))

  unfoldable pub disconnect_collection : Groups → Str → Groups
  disconnect_collection s col_key =
      delete_groups s (
        run_of (λ g. str_eq g.col_key col_key) (T.by_object.ascend s.objects (probe [] col_key [])))

  unfoldable pub disconnect_hook : Groups → Str → Groups
  disconnect_hook s hook_name = delete_groups s (
      run_of (λ g. str_eq g.hook_name hook_name) (T.by_hook.ascend s.hooks (probe hook_name [] [])))
