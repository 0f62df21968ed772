-- ===== src/Collection/Scan.antt =====
-- The searches of internal/legacy/collection/collection.go by id, by value and by expiration.
use mathlib.Core.List.{reverse}
use spatialdb_engine.Base.{ℕ, Bool, true, false, not, Option, List, [], map, if◌then◌else◌}
use spatialdb_engine.Base.Text.{Str, str_lt}
use spatialdb_engine.Base.Int.{pos}
use spatialdb_engine.Geometry.{Geometry, FieldLists}
use spatialdb_engine.Object.{Object, object_id, string, new_object}
use spatialdb_engine.Collection.{Trees, Collection}
use spatialdb_engine.Collection.Order.{by_value}
use spatialdb_engine.Collection.Walk.{
  Cursor, Deadline, Walk, Visit, each, visit, start_walk, offset_of,
}

module _ {G : Geometry} {F : FieldLists} (X : Trees G F) (c : Collection X) where
  abbrev pub objects_of : List (Str × Object G F) → List (Object G F)
  objects_of = map (λ e. e.1)

  -- The parameters that every search takes: the direction, the cursor, the deadline and the clock
  -- that its steps read, and the iterator with its state.
  module _ {S : Type 0} (desc : Bool) (cursor : Option Cursor) (deadline : Option Deadline)
      (now : ℕ → ℕ) (iterator : Visit (Object G F) S) (s : S) where
    unfoldable pub scan : Walk S
    scan =
        let offset = offset_of cursor in
        let w = start_walk cursor deadline s in
        let iter = visit now offset (λ o. true) iterator in
        if desc
        then each iter (objects_of (reverse (X.objs.items c.objs))) w
        else each iter (objects_of (X.objs.items c.objs)) w

    unfoldable pub scan_range : Str → Str → Walk S
    scan_range start end =
        let offset = offset_of cursor in
        let w = start_walk cursor deadline s in
        let inside = λ (o : Object G F).
          if not desc then str_lt (object_id o) end else str_lt end (object_id o) in
        let iter = visit now offset inside iterator in
        if desc
        then each iter (objects_of (X.objs.descend c.objs start)) w
        else each iter (objects_of (X.objs.ascend c.objs start)) w

    unfoldable pub search_values : Walk S
    search_values =
        let offset = offset_of cursor in
        let w = start_walk cursor deadline s in
        let iter = visit now offset (λ o. true) iterator in
        if desc
        then each iter (reverse (X.values.items c.values)) w
        else each iter (X.values.items c.values) w

    -- The bound is tested before `iter`, so it is tested of the items that the offset skips too.
    unfoldable pub search_values_range : F.Fields → Str → Str → Walk S
    search_values_range no_fields start end =
        let offset = offset_of cursor in
        let w = start_walk cursor deadline s in
        let iter = visit now offset (λ o. true) iterator in
        let pstart = new_object {G = G} {F = F} [] (string start) (pos 0) no_fields in
        let pend = new_object {G = G} {F = F} [] (string end) (pos 0) no_fields in
        if desc
        then each (λ o w'. if by_value pend o then iter o w' else (false, w'))
            (X.values.descend c.values pstart) w
        else each (λ o w'. if by_value o pend then iter o w' else (false, w'))
            (X.values.ascend c.values pstart) w

    unfoldable pub scan_greater_or_equal : Str → Walk S
    scan_greater_or_equal id =
        let offset = offset_of cursor in
        let w = start_walk cursor deadline s in
        let iter = visit now offset (λ o. true) iterator in
        if desc
        then each iter (objects_of (X.objs.descend c.objs id)) w
        else each iter (objects_of (X.objs.ascend c.objs id)) w

  unfoldable pub scan_expires : {S : Type 0} → Visit (Object G F) S → S → S
  scan_expires iter s = each iter (X.expires.items c.expires) s
