-- ===== src/Collection/Upkeep.antt =====
-- Unfilling and filling one object keep every index and counter in step with the objects.
use spatialdb_engine.Base.{
  ℕ, ◌+◌, ◌≡◌, not, ◌&&◌, none, some, List, arith, if◌then◌else◌, Bool-cases, inl, inr, ap,
}
use spatialdb_engine.Base.Text.{Str}
use spatialdb_engine.Base.Int.{pos_part, neg_part, ℤ, pos, ◌+ℤ◌, ◌-ℤ◌, int_laws}
use spatialdb_engine.Geometry.{Geometry, FieldLists}
use spatialdb_engine.Index.{SameItems}
use spatialdb_engine.Index.Sorted.{
  lookup_key, insert_key, remove_key, KeysSorted, sum-insert_key, sum-remove_key, insert_by,
  remove_by,
}
use spatialdb_engine.Object.{
  Object, object_id, object_geo, object_weight, is_spatial, geo_empty, geo_num_points,
}
use spatialdb_engine.Collection.{Trees, Collection, rtree_box, unfill, fill, delete_prev}
use spatialdb_engine.Collection.Order.{
  by_value, by_expires, by_value-IsOrder, by_expires-IsOrder, id-same_value, id-same_expires,
}
use spatialdb_engine.Collection.Describes.{
  Describes, has_value, has_expires, indexed, one_if, total, spot, sum-indexed, held-remove,
  held-insert, unfill_values, unfill_expirings, unfill_spatial, unfill_counts, fill_values,
  fill_expirings, fill_spatial, fill_counts,
}

sub_total : (c : ℤ) (n m k : ℕ) → c ≡ pos n → m + k ≡ n → c -ℤ pos k ≡ pos m
sub_total c n m k e h = omega (int_laws, ap pos_part e, ap neg_part e)

add_total : (c : ℤ) (n m k : ℕ) → c ≡ pos n → m ≡ k + n → c +ℤ pos k ≡ pos m
add_total c n m k e h = omega (int_laws, ap pos_part e, ap neg_part e)

module _ {G : Geometry} {F : FieldLists} (X : Trees G F) (c : Collection X)
    (l : List (Str × Object G F)) (id : Str) (o : Object G F) (own : object_id o ≡ id)
    (d : Describes X c l) where
  module _ (sorted : KeysSorted l) (here : lookup_key id l ≡ some o) where
    total_removed : (f : Object G F → ℕ) → total X f (remove_key id l) + f o ≡ total X f l
    total_removed f = ground (arith, here, sum-remove_key f id l)

    spatial_removed :
        SameItems (X.spatial.entries (unfill X c o).spatial) (indexed X (remove_key id l))
    spatial_removed = elim (Bool-cases (is_spatial o && not (geo_empty (object_geo o)))) [
      | inl inside ↦
          rw (unfill_spatial X c o, inside)
            (X.spatial.entries-delete c.spatial (rtree_box X o) o (indexed X (remove_key id l))
              (λ f. ground (
                arith,
                d.spatial_index f,
                sum-indexed X f l,
                sum-indexed X f (remove_key id l),
                total_removed (spot X f),
              )))
      | inr outside ↦
          rw (unfill_spatial X c o, outside)
            (λ f. ground (
              arith,
              d.spatial_index f,
              sum-indexed X f l,
              sum-indexed X f (remove_key id l),
              total_removed (spot X f),
            ))
    ]

    values_removed : X.values.items (unfill X c o).values ≡ (
        if has_value X o
        then remove_by by_value o (X.values.items c.values)
        else X.values.items c.values)
    values_removed = ground (arith, unfill_values X c o, X.values.items-delete c.values o)

    expires_removed : X.expires.items (unfill X c o).expires ≡ (
        if has_expires X o
        then remove_by by_expires o (X.expires.items c.expires)
        else X.expires.items c.expires)
    expires_removed = ground (arith, unfill_expirings X c o, X.expires.items-delete c.expires o)

    pub Describes-unfill : Describes X (unfill X c o) (remove_key id l)
    Describes-unfill = record {
      value_index = λ y. rw values_removed (
          held-remove X (has_value X) by_value by_value-IsOrder id-same_value
            (X.values.items c.values) l d.value_index id o own (X.values.items_sorted c.values)
            sorted here y);
      expires_index = λ y. rw expires_removed (
          held-remove X (has_expires X) by_expires by_expires-IsOrder id-same_expires
            (X.expires.items c.expires) l d.expires_index id o own
            (X.expires.items_sorted c.expires) sorted here y);
      spatial_index = spatial_removed;
      objects_count = ground (
        arith,
        unfill_counts X c o,
        d.objects_count,
        total_removed (λ o. one_if X (is_spatial o)),
        sub_total c.objects _ (total X (λ o. one_if X (is_spatial o)) (remove_key id l)) 1
            d.objects_count,
      );
      nobjects_count = ground (
        arith,
        unfill_counts X c o,
        d.nobjects_count,
        total_removed (λ o. one_if X (has_value X o)),
        sub_total c.nobjects _ (total X (λ o. one_if X (has_value X o)) (remove_key id l)) 1
            d.nobjects_count,
      );
      points_sum = rw ((unfill_counts X c o).2) (
          sub_total c.points _ _ _ d.points_sum
            (total_removed (λ o. geo_num_points (object_geo o))));
      weight_sum =
          rw ((unfill_counts X c o).3)
            (sub_total c.weight _ _ _ d.weight_sum (total_removed object_weight));
    }

  module _ (free : lookup_key id l ≡ none) where
    total_added : (f : Object G F → ℕ) → total X f (insert_key id o l) ≡ f o + total X f l
    total_added f = ground (arith, free, sum-insert_key f id o l)

    spatial_added :
        SameItems (X.spatial.entries (fill X c o).spatial) (indexed X (insert_key id o l))
    spatial_added = elim (Bool-cases (is_spatial o && not (geo_empty (object_geo o)))) [
      | inl inside ↦ λ f.
          rw (fill_spatial X c o, inside)
            (ground (
              arith,
              X.spatial.entries-insert c.spatial (rtree_box X o) o f,
              d.spatial_index f,
              sum-indexed X f l,
              sum-indexed X f (insert_key id o l),
              total_added (spot X f),
            ))
      | inr outside ↦ λ f.
          rw (fill_spatial X c o, outside)
            (ground (
              arith,
              d.spatial_index f,
              sum-indexed X f l,
              sum-indexed X f (insert_key id o l),
              total_added (spot X f),
            ))
    ]

    values_added : X.values.items (fill X c o).values ≡ (
        if has_value X o
        then insert_by by_value o (X.values.items c.values)
        else X.values.items c.values)
    values_added = ground (arith, fill_values X c o, X.values.items-set c.values o)

    expires_added : X.expires.items (fill X c o).expires ≡ (
        if has_expires X o
        then insert_by by_expires o (X.expires.items c.expires)
        else X.expires.items c.expires)
    expires_added = ground (arith, fill_expirings X c o, X.expires.items-set c.expires o)

    pub Describes-fill : Describes X (fill X c o) (insert_key id o l)
    Describes-fill = record {
      value_index = λ y. rw values_added (
          held-insert X (has_value X) by_value by_value-IsOrder id-same_value
            (X.values.items c.values) l d.value_index id o own free y);
      expires_index = λ y. rw expires_added (
          held-insert X (has_expires X) by_expires by_expires-IsOrder id-same_expires
            (X.expires.items c.expires) l d.expires_index id o own free y);
      spatial_index = spatial_added;
      objects_count = ground (
        arith,
        fill_counts X c o,
        d.objects_count,
        total_added (λ o. one_if X (is_spatial o)),
        add_total c.objects _ (total X (λ o. one_if X (is_spatial o)) (insert_key id o l)) 1
            d.objects_count,
      );
      nobjects_count = ground (
        arith,
        fill_counts X c o,
        d.nobjects_count,
        total_added (λ o. one_if X (has_value X o)),
        add_total c.nobjects _ (total X (λ o. one_if X (has_value X o)) (insert_key id o l)) 1
            d.nobjects_count,
      );
      points_sum = rw ((fill_counts X c o).2) (
          add_total c.points _ _ _ d.points_sum (total_added (λ o. geo_num_points (object_geo o))));
      weight_sum =
          rw ((fill_counts X c o).3)
            (add_total c.weight _ _ _ d.weight_sum (total_added object_weight));
    }

module _ {G : Geometry} {F : FieldLists} (X : Trees G F) (c : Collection X) where
  -- The other trees and counters describe a list of objects whatever the tree of objects is.
  pub Describes-objs :
      (t : X.objs.Tree) (l : List (Str × Object G F))
      → Describes X c l
      → Describes X (record c { objs = t }) l
  Describes-objs t l d = record {
    value_index = d.value_index;
    expires_index = d.expires_index;
    spatial_index = d.spatial_index;
    objects_count = d.objects_count;
    nobjects_count = d.nobjects_count;
    points_sum = d.points_sum;
    weight_sum = d.weight_sum;
  }

  -- `Delete` tests twice whether the geometry is empty, and does what `setFill` does.
  pub delete_prev-unfill : (o : Object G F) → delete_prev X c o ≡ unfill X c o
  unfolding delete_prev unfill
  delete_prev-unfill o = ground arith

  pub objs-fill : (o : Object G F) → (fill X c o).objs ≡ c.objs
  objs-fill o = (fill_counts X c o).4

  pub objs-unfill : (o : Object G F) → (unfill X c o).objs ≡ c.objs
  objs-unfill o = (unfill_counts X c o).4
