-- ===== src/Server/Ties.antt =====
-- The groups of internal/legacy/server/group.go: what `groupGet` finds after a change.
use spatialdb_engine.Base.{◌≡◌, Bool, ◌&&◌, [], arith, if◌then◌else◌}
use spatialdb_engine.Base.Text.{
  Str, str_eq, str_lt, str_eq_iff, str_lt_irrefl, str_lt_trans, str_lt_cotrans, str_lt_connex,
}
use spatialdb_engine.Index.Sorted.{IsOrder, same_place, find-insert_by, find-remove_by}
use spatialdb_engine.Collection.Order.{first_by, first_by-IsOrder}
use spatialdb_engine.Server.Group.{
  GroupItem, by_group_hook, by_group_object, GroupTrees, Groups, probe, connect, disconnect,
  group_get,
}

by_part : (GroupItem → Str) → GroupItem → GroupItem → Bool
by_part f a b = str_lt (f a) (f b)

by_part-IsOrder : (f : GroupItem → Str) → IsOrder (by_part f)
unfolding by_part
by_part-IsOrder f = record {
  less_irrefl = λ a. str_lt_irrefl (f a);
  less_trans = λ a b c. str_lt_trans (f a) (f b) (f c);
  less_cotrans = λ a b c. str_lt_cotrans (f a) (f b) (f c);
}

by_three-IsOrder :
    (f g h : GroupItem → Str) → IsOrder (first_by (by_part f) (first_by (by_part g) (by_part h)))
by_three-IsOrder f g h =
    first_by-IsOrder _ _ (by_part-IsOrder f)
      (first_by-IsOrder _ _ (by_part-IsOrder g) (by_part-IsOrder h))

pub hook_order : IsOrder by_group_hook
unfolding first_by by_part by_group_hook
hook_order = by_three-IsOrder (λ a. a.hook_name) (λ a. a.col_key) (λ a. a.obj_id)

pub object_order : IsOrder by_group_object
unfolding first_by by_part by_group_object
object_order = by_three-IsOrder (λ a. a.col_key) (λ a. a.obj_id) (λ a. a.hook_name)

same_hook_place :
    (a b : GroupItem)
    → same_place by_group_hook a b
      ≡ (str_eq a.hook_name b.hook_name && str_eq a.col_key b.col_key && str_eq a.obj_id b.obj_id)
unfolding by_group_hook
same_hook_place a b = ground (
  arith,
  str_eq_iff a.hook_name b.hook_name,
  str_eq_iff a.col_key b.col_key,
  str_eq_iff a.obj_id b.obj_id,
  str_lt_connex a.hook_name b.hook_name,
  str_lt_connex a.col_key b.col_key,
  str_lt_connex a.obj_id b.obj_id,
  str_lt_irrefl a.hook_name,
  str_lt_irrefl a.col_key,
  str_lt_irrefl a.obj_id,
)

module _ (T : GroupTrees) where
  -- `groupConnect` ties a hook to an object under a group id, `groupDisconnect` unties them, and
  -- neither touches any other tie that `groupGet` finds.
  pub group_get-connect :
      (s : Groups T) (id hook key obj : Str)
      → ((h k o : Str)
          → group_get T (connect T s id hook key obj).0 h k o
            ≡ (if str_eq hook h && str_eq key k && str_eq obj o then id else group_get T s h k o))
        × ((h k o : Str)
            → group_get T (disconnect T s hook key obj) h k o
              ≡ (if str_eq hook h && str_eq key k && str_eq obj o then [] else group_get T s h k o))
  unfolding group_get connect disconnect
  group_get-connect s id hook key obj = (
    λ h k o.
        let g = record (probe hook key obj) { group_id = id } in
        ground (
          arith,
          T.by_hook.items-set s.hooks g,
          find-insert_by by_group_hook hook_order g (probe h k o) (T.by_hook.items s.hooks),
          same_hook_place g (probe h k o),
        ),
    λ h k o.
        let g = probe hook key obj in
        ground (
          arith,
          T.by_hook.items-delete s.hooks g,
          find-remove_by by_group_hook hook_order g (probe h k o) (T.by_hook.items s.hooks)
              (T.by_hook.items_sorted s.hooks),
          same_hook_place g (probe h k o),
        ),
  )
