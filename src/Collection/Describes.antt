-- ===== src/Collection/Describes.antt =====
-- What it means that the indexes and counters of a collection describe a list of objects, and what
-- filling and unfilling do to each of them.
use spatialdb_engine.Base.{
  ℕ, ◌≡◌, refl, Bool, true, false, not, ◌&&◌, Option, none, some, List, [], ◌∷◌, arith, sum_of,
  if◌then◌else◌,
}
use spatialdb_engine.Base.Text.{Str, str_eq, str_eq_iff}
use spatialdb_engine.Base.Int.{pos, ◌+ℤ◌, ◌-ℤ◌}
use spatialdb_engine.Geometry.{Geometry, FieldLists, Box}
use spatialdb_engine.Index.{SameItems}
use spatialdb_engine.Index.Sorted.{
  lookup_key, insert_key, remove_key, KeysSorted, find_by, same_place, lookup-insert_key,
  lookup-remove_key, find-insert_by, find-remove_by, IsOrder, IsSorted, remove_by, insert_by,
}
use spatialdb_engine.Object.{
  Object, object_id, object_geo, object_expires, object_weight, is_spatial, geo_empty,
  geo_num_points,
}
use spatialdb_engine.Varint.{is_zero}
use spatialdb_engine.Collection.{Trees, Collection, rtree_box, unfill, fill}
use spatialdb_engine.Collection.Order.{by_value, by_expires}

module _ {G : Geometry} {F : FieldLists} (X : Trees G F) where
  -- The object that an index by `less` holds in the place of `y`: the one of that id, if it
  -- belongs in the index and stands in that place.
  abbrev pub held :
      (Object G F → Bool)
      → (Object G F → Object G F → Bool)
      → Option (Object G F)
      → Object G F
      → Option (Object G F)
  held p less none y = none
  held p less (some o) y = if p o && same_place less o y then some o else none

  abbrev pub has_value : Object G F → Bool
  has_value o = not (is_spatial o)

  abbrev pub has_expires : Object G F → Bool
  has_expires o = not (is_zero (object_expires o))

  -- The objects that the spatial index holds, with their boxes.
  pub indexed : List (Str × Object G F) → List (Box G.floats × Object G F)
  indexed [] = []
  indexed ((k, o) ∷ l) =
      let rest = indexed l in
      if is_spatial o && not (geo_empty (object_geo o)) then (rtree_box X o, o) ∷ rest else rest

  abbrev pub one_if : Bool → ℕ
  one_if true = 1
  one_if false = 0

  abbrev pub total : (Object G F → ℕ) → List (Str × Object G F) → ℕ
  total f = sum_of (λ (e : Str × Object G F). f e.1)

  -- `c` describes the list `l` of objects by id.
  pub record Describes (c : Collection X) (l : List (Str × Object G F)) : Type 0 where
    pub value_index :
        (y : Object G F)
        → find_by by_value y (X.values.items c.values)
          ≡ held has_value by_value (lookup_key (object_id y) l) y
    pub expires_index :
        (y : Object G F)
        → find_by by_expires y (X.expires.items c.expires)
          ≡ held has_expires by_expires (lookup_key (object_id y) l) y
    pub spatial_index : SameItems (X.spatial.entries c.spatial) (indexed l)
    pub objects_count : c.objects ≡ pos (total (λ o. one_if (is_spatial o)) l)
    pub nobjects_count : c.nobjects ≡ pos (total (λ o. one_if (has_value o)) l)
    pub points_sum : c.points ≡ pos (total (λ o. geo_num_points (object_geo o)) l)
    pub weight_sum : c.weight ≡ pos (total object_weight l)

  -- Each object stands under its own id, and everything else describes the objects.
  pub record IsConsistent (c : Collection X) : Type 0 where
    pub ids :
        (k : Str) (o : Object G F) → lookup_key k (X.objs.items c.objs) ≡ some o → object_id o ≡ k
    pub describes : Describes c (X.objs.items c.objs)

  abbrev pub spot : (Box G.floats × Object G F → ℕ) → Object G F → ℕ
  spot f o = if is_spatial o && not (geo_empty (object_geo o)) then f (rtree_box X o, o) else 0

  pub sum-indexed :
      (f : Box G.floats × Object G F → ℕ) (l : List (Str × Object G F))
      → sum_of f (indexed l) ≡ total (spot f) l
  unfolding indexed
  sum-indexed f [] = refl
  sum-indexed f ((k, o) ∷ l) = ground (arith, sum-indexed f l)

  -- One index by `less` of the objects that pass `p`, when an id is removed or written.
  module _ (p : Object G F → Bool) (less : Object G F → Object G F → Bool) (order : IsOrder less)
      (same_id : (a b : Object G F)
        → same_place less a b ≡ true
        → str_eq (object_id a) (object_id b) ≡ true)
      (items : List (Object G F)) (l : List (Str × Object G F))
      (index : (y : Object G F) → find_by less y items ≡ held p less (lookup_key (object_id y) l) y)
      (id : Str) (o : Object G F) (own : object_id o ≡ id) where
    pub held-remove :
        IsSorted less items
        → KeysSorted l
        → lookup_key id l ≡ some o
        → (y : Object G F)
        → find_by less y (if p o then remove_by less o items else items)
          ≡ held p less (lookup_key (object_id y) (remove_key id l)) y
    held-remove sorted keys here y = ground (
      arith,
      own,
      here,
      index y,
      find-remove_by less order o y items sorted,
      lookup-remove_key id (object_id y) l keys,
      same_id o y,
      str_eq_iff id (object_id y),
    )

    pub held-insert :
        lookup_key id l ≡ none
        → (y : Object G F)
        → find_by less y (if p o then insert_by less o items else items)
          ≡ held p less (lookup_key (object_id y) (insert_key id o l)) y
    held-insert free y = ground (
      arith,
      own,
      free,
      index y,
      find-insert_by less order o y items,
      lookup-insert_key id (object_id y) o l,
      same_id o y,
      str_eq_iff id (object_id y),
    )

  -- What `unfill` and `fill` leave in each field.
  module _ (c : Collection X) (o : Object G F) where
    pub unfill_values :
        (unfill X c o).values ≡ (if has_value o then X.values.delete c.values o else c.values)
    unfolding unfill
    unfill_values = ground arith

    pub unfill_expirings :
        (unfill X c o).expires ≡ (if has_expires o then X.expires.delete c.expires o else c.expires)
    unfolding unfill
    unfill_expirings = ground arith

    pub unfill_spatial : (unfill X c o).spatial ≡ (
        if is_spatial o && not (geo_empty (object_geo o))
        then X.spatial.delete c.spatial (rtree_box X o) o
        else c.spatial)
    unfolding unfill
    unfill_spatial = ground arith

    pub unfill_counts :
        ((unfill X c o).objects ≡ (if is_spatial o then c.objects -ℤ pos 1 else c.objects))
        × ((unfill X c o).nobjects ≡ (if is_spatial o then c.nobjects else c.nobjects -ℤ pos 1))
        × ((unfill X c o).points ≡ c.points -ℤ pos (geo_num_points (object_geo o)))
        × ((unfill X c o).weight ≡ c.weight -ℤ pos (object_weight o))
        × ((unfill X c o).objs ≡ c.objs)
    unfolding unfill
    unfill_counts = ground arith

    pub fill_values :
        (fill X c o).values ≡ (if has_value o then X.values.set c.values o else c.values)
    unfolding fill
    fill_values = ground arith

    pub fill_expirings :
        (fill X c o).expires ≡ (if has_expires o then X.expires.set c.expires o else c.expires)
    unfolding fill
    fill_expirings = ground arith

    pub fill_spatial : (fill X c o).spatial ≡ (
        if is_spatial o && not (geo_empty (object_geo o))
        then X.spatial.insert c.spatial (rtree_box X o) o
        else c.spatial)
    unfolding fill
    fill_spatial = ground arith

    pub fill_counts :
        ((fill X c o).objects ≡ (if is_spatial o then c.objects +ℤ pos 1 else c.objects))
        × ((fill X c o).nobjects ≡ (if is_spatial o then c.nobjects else c.nobjects +ℤ pos 1))
        × ((fill X c o).points ≡ c.points +ℤ pos (geo_num_points (object_geo o)))
        × ((fill X c o).weight ≡ c.weight +ℤ pos (object_weight o))
        × ((fill X c o).objs ≡ c.objs)
    unfolding fill
    fill_counts = ground arith
