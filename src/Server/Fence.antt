-- ===== src/Server/Fence.antt =====
-- internal/legacy/server/fence.go: the events of a fence that does not roam. The text of an event is
-- left out, but for the text of the object in it.
pub mod Events
pub mod Regroup
pub mod Roam
use spatialdb_engine.Base.{
  ℕ, Bool, true, false, not, ◌&&◌, ◌||◌, Option, none, some, List, [], ◌∷◌, ◌++◌, ◌==◌,
  if◌then◌else◌, is_some, keep_if,
}
use spatialdb_engine.Base.Text.{Str, codes, str_eq}
use spatialdb_engine.Base.Int.{pos}
use spatialdb_engine.Geometry.{Geometry, FieldLists}
use spatialdb_engine.Object.{
  Object, Geo, shape, new_object, object_id, object_geo, is_spatial, geo_within, geo_intersects,
}
use spatialdb_engine.Field.{Numbers}
use spatialdb_engine.Server.{
  CommandName, no_command, del, drop, rename, set, fset, expire, persist, Details,
}
use spatialdb_engine.Server.Group.{Groups, GroupTrees, connect, disconnect, group_get}
use spatialdb_engine.Server.Filter.{Filters}
use spatialdb_engine.Server.Scanner.{
  Search, Found, is_counted, multi_glob_match, test_object, field_match, keep_object,
}

pub data FenceCommand : Type 0 where
  nearby within intersects : FenceCommand

pub data Detect : Type 0 where
  inside outside enter exit cross : Detect

abbrev pub is_fset : CommandName → Bool
is_fset fset = true
is_fset _ = false

abbrev pub is_del : CommandName → Bool
is_del del = true
is_del _ = false

abbrev pub is_drop : CommandName → Bool
is_drop drop = true
is_drop _ = false

abbrev pub is_within : FenceCommand → Bool
is_within within = true
is_within _ = false

-- An event, or a text that is no object.
pub data Message : Type 0 where
  dropped : Str → Message
  deleted : Str → Str → Message
  event : CommandName → Str → Detect → Str → Str → Message
  plain : Str → Message

abbrev pub name_of : CommandName → Str
name_of no_command = []
name_of del = codes "del"
name_of drop = codes "drop"
name_of rename = codes "rename"
name_of set = codes "set"
name_of fset = codes "fset"
name_of expire = codes "expire"
name_of persist = codes "persist"

-- The command that a message is read to be about; of a text that is no object, gjson reads it.
abbrev pub command_of : (Str → Str) → Message → Str
command_of read (dropped key) = codes "drop"
command_of read (deleted key id) = codes "del"
command_of read (event verb group d key tail) = name_of verb
command_of read (plain text) = read text

-- The choice of `FenceMatch` among the messages of `fenceMatch`, by the commands to accept.
unfoldable pub accepted : (Str → Str) → Option (Str → Bool) → List Message → List Message
accepted read none msgs = msgs
accepted read (some among) msgs = keep_if (λ m. among (command_of read m)) msgs

module _ (G : Geometry) where
  pub record Fence : Type 0 where
    pub cmd : FenceCommand
    pub area : G.Shape
    pub detect : Option (Detect → Bool)
    pub globs : List Str

module _ {G : Geometry} where
  abbrev pub allows : Fence G → Detect → Bool
  allows fence d = elim (fence.detect) [ none ↦ true | some among ↦ among d ]

  -- The loop over `fence.detect`: an event that is not asked for becomes another one, or none.
  unfoldable pub settle : Fence G → Detect → Option Detect
  settle fence enter =
      if allows fence enter then some enter else if allows fence inside then some inside else none
  settle fence exit =
      if allows fence exit then some exit else if allows fence outside then some outside else none
  settle fence cross =
      if allows fence cross then some cross else if allows fence outside then some outside else none
  settle fence d = if allows fence d then some d else none

  module _ {F : FieldLists} where
    unfoldable pub fence_match_object : Fence G → Option (Object G F) → Bool
    fence_match_object fence none = false
    fence_match_object fence (some o) = elim (fence.cmd) [
      | nearby ↦ geo_intersects (object_geo o) fence.area
      | within ↦ geo_within (object_geo o) fence.area
      | intersects ↦ geo_intersects (object_geo o) fence.area
    ]

abbrev pub starts_brace : Str → Bool
starts_brace [] = false
starts_brace (c ∷ s) = c == b'{'

-- `res[1:]`.
abbrev pub tail_of : Str → Str
tail_of [] = []
tail_of (c ∷ s) = s

abbrev pub is_blank : Str → Bool
is_blank [] = true
is_blank (c ∷ s) = false

module _ {N : Numbers} {G : Geometry} {F : FieldLists} (P : Filters N G F) (T : GroupTrees)
    (w : Search P) (fence : Fence G) where
  -- `geojson.NewLineString` of the two centers; what is left of the text that `writeObject` writes of an
  -- object when a comma in front is cut off, and an id alone is put into an object; and the names of
  -- the fields of a list.
  module _ (line : Geo G → Geo G → G.Shape) (text : Object G F → Str)
      (names : F.Fields → List Str) where
    abbrev pub ok_of : Option Bool → Bool
    ok_of none = false
    ok_of (some b) = b

    -- Inside the fence: in its area, and through the tests of the search.
    unfoldable pub inside_fence : Option (Object G F) → Bool
    inside_fence none = false
    inside_fence (some o) =
        if fence_match_object fence (some o) then ok_of (test_object P w o) else false

    -- `nocross`: the last of the two objects that is in the area fails the tests.
    unfoldable pub no_cross : Option (Object G F) → Option (Object G F) → Bool
    unfolding inside_fence
    no_cross old obj =
        if fence_match_object fence obj
        then not (inside_fence obj)
        else if fence_match_object fence old
        then not (inside_fence old)
        else false

    -- Whether the line from the old object to the new one meets the area.
    unfoldable pub crosses : Option (Object G F) → Object G F → Bool
    crosses none o = false
    crosses (some old) o =
        let cmd' = if is_within fence.cmd then intersects else fence.cmd in
        fence_match_object {F = F} (record fence { cmd = cmd' })
          (some (new_object [] (shape (line (object_geo old) (object_geo o))) (pos 0) F.nil))

    -- What is detected, before the fence's own choice; or `none` to say nothing.
    unfoldable pub detect : CommandName → Option (Object G F) → Object G F → Option Detect
    unfolding inside_fence no_cross crosses
    detect verb old o =
        let match1 = inside_fence old in
        let match2 = inside_fence (some o) in
        if match1 && match2
        then some inside
        else if match1 && not match2
        then some exit
        else if not match1 && match2
        then (if is_fset verb then some inside else some enter)
        else if is_fset verb
        then some outside
        else if not (ok_of (field_match P w o))
        then none
        else if not (no_cross old (some o)) && is_some old && crosses old o
        then some cross
        else some outside

    -- The group of the hook and the object; `group_id` is the next `bsonID()`.
    unfoldable pub regroup : Groups T → Str → Str → Str → Str → Detect → Groups T × Str
    regroup groups group_id hook key id enter = connect T groups group_id hook key id
    regroup groups group_id hook key id cross =
        connect T (disconnect T groups hook key id) group_id hook key id
    regroup groups group_id hook key id d =
        let group = group_get T groups hook key id in
        if is_blank group then connect T groups group_id hook key id else (groups, group)

    -- The events, once the group is known. The first is about the settled detection.
    unfoldable pub events : CommandName → Str → Str → Str → Detect → List Message
    events verb group key res d =
        let tail = tail_of res in
        let first =
          if allows fence d
          then (if starts_brace res then event verb group d key tail else plain res) ∷ []
          else [] in
        elim d [
          | enter ↦
              first ++ (if allows fence inside then event verb group inside key tail ∷ [] else [])
          | exit ↦
              first ++ (if allows fence outside then event verb group outside key tail ∷ [] else [])
          | cross ↦
              first ++ (if allows fence outside then event verb group outside key tail ∷ [] else [])
          | inside ↦ first
          | outside ↦ first
        ]

    -- `writeObject` without tests, on the writer of the hook: what it counts, and what it writes. A
    -- writer that counts writes nothing.
    unfoldable pub write_object : Object G F → Found P → Found P × Str
    write_object o r =
        let r1 = record r { full_fields = true } in
        let r2 = (keep_object P w names o r1).1 in
        (record r2 { filled = r.filled }, if is_counted w.output then [] else text o)

    -- The end of `fenceMatch`, from `writeObject` on.
    unfoldable pub fence_write :
        Groups T
        → Found P
        → Str
        → Str
        → CommandName
        → Str
        → Object G F
        → Detect
        → (Groups T × Found P) × List Message
    unfolding regroup events write_object
    fence_write groups r group_id hook verb key o d =
        let (r', res) = write_object o r in
        if is_blank res
        then ((groups, r'), [])
        else (let (groups', group) = regroup groups group_id hook key (object_id o) d in
            ((groups', r'), events verb group key res d))

    unfoldable pub fence_settled :
        Groups T
        → Found P
        → Str
        → Str
        → CommandName
        → Str
        → Object G F
        → Option Detect
        → (Groups T × Found P) × List Message
    unfolding fence_write
    fence_settled groups r group_id hook verb key o none = ((groups, r), [])
    fence_settled groups r group_id hook verb key o (some d) =
        fence_write groups r group_id hook verb key o d

    unfoldable pub fence_detected :
        Groups T
        → Found P
        → Str
        → Str
        → CommandName
        → Str
        → Object G F
        → Option Detect
        → (Groups T × Found P) × List Message
    unfolding fence_settled
    fence_detected groups r group_id hook verb key o none = ((groups, r), [])
    fence_detected groups r group_id hook verb key o (some d) =
        fence_settled groups r group_id hook verb key o (settle fence d)

    -- The tests at the start of `fenceMatch`, of an object that the details name.
    unfoldable pub fence_object :
        Groups T
        → Found P
        → Str
        → Str
        → CommandName
        → Str
        → Option (Object G F)
        → Object G F
        → (Groups T × Found P) × List Message
    unfolding fence_detected detect
    fence_object groups r group_id hook verb key old o =
        if not (multi_glob_match P.matcher fence.globs (object_id o))
        then ((groups, r), [])
        else if not (is_spatial o)
        then ((groups, r), [])
        else if is_fset verb && w.nofields
        then ((groups, r), [])
        else if is_del verb
        then ((groups, r), deleted key (object_id o) ∷ [])
        else fence_detected groups r group_id hook verb key o (detect verb old o)

    unfoldable pub fence_named :
        Groups T
        → Found P
        → Str
        → Str
        → Details (Object G F)
        → Option (Object G F)
        → (Groups T × Found P) × List Message
    unfolding fence_object
    fence_named groups r group_id hook d none = ((groups, r), [])
    fence_named groups r group_id hook d (some o) =
        fence_object groups r group_id hook d.command d.key d.old o

    -- `fenceMatch`.
    unfoldable pub fence_match :
        Groups T → Found P → Str → Str → Details (Object G F) → (Groups T × Found P) × List Message
    unfolding fence_named
    fence_match groups r group_id hook d =
        if is_drop d.command
        then ((groups, r), dropped d.key ∷ [])
        else fence_named groups r group_id hook d d.obj
