-- ===== src/Collection.antt =====
-- internal/legacy/collection/collection.go: a collection of objects and its four indexes.
pub mod Order
pub mod Walk
pub mod Scan
pub mod Search
pub mod Visited
pub mod Matches
pub mod Describes
pub mod Upkeep
pub mod Invariant
use Order.{by_id, by_value, by_expires}
use spatialdb_engine.Base.{ℕ, Bool, true, false, not, Option, none, some, if◌then◌else◌}
use spatialdb_engine.Base.Text.{Str}
use spatialdb_engine.Base.Int.{ℤ, pos, ◌+ℤ◌, ◌-ℤ◌}
use spatialdb_engine.Geometry.{Geometry, FieldLists, Box, rtree_rect}
use spatialdb_engine.Index.{OrderedMap, OrderedSet, SpatialIndex}
use spatialdb_engine.Object.{
  Object, object_id, object_geo, object_expires, object_weight, is_spatial, geo_empty,
  geo_num_points, geo_rect,
}
use spatialdb_engine.Varint.{is_zero}

module _ (G : Geometry) (F : FieldLists) where
  -- The trees that a collection is made of.
  pub record Trees : Type 1 where
    pub objs : OrderedMap (Object G F)
    pub spatial : SpatialIndex (Box G.floats) (Object G F)
    pub values : OrderedSet (by_value {G = G} {F = F})
    pub expires : OrderedSet (by_expires {G = G} {F = F})

module _ {G : Geometry} {F : FieldLists} (X : Trees G F) where
  pub record Collection : Type 0 where
    pub objs : X.objs.Tree
    pub spatial : X.spatial.Tree
    pub values : X.values.Tree
    pub expires : X.expires.Tree
    pub weight : ℤ
    pub points : ℤ
    pub objects : ℤ
    pub nobjects : ℤ

  -- `New`.
  unfoldable pub new : Collection
  new = record {
    objs = X.objs.empty;
    spatial = X.spatial.empty;
    values = X.values.empty;
    expires = X.expires.empty;
    weight = pos 0;
    points = pos 0;
    objects = pos 0;
    nobjects = pos 0;
  }

  unfoldable pub count : Collection → ℤ
  count c = c.objects +ℤ c.nobjects

  abbrev pub string_count : Collection → ℤ
  string_count c = c.nobjects

  abbrev pub point_count : Collection → ℤ
  point_count c = c.points

  abbrev pub total_weight : Collection → ℤ
  total_weight c = c.weight

  -- The rectangle of `rtreeItem`.
  pub rtree_box : Object G F → Box G.floats
  rtree_box item = rtree_rect G.floats (geo_rect (object_geo item))

  pub index_delete : Collection → Object G F → Collection
  index_delete c item =
      if not (geo_empty (object_geo item))
      then record c { spatial = X.spatial.delete c.spatial (rtree_box item) item }
      else c

  pub index_insert : Collection → Object G F → Collection
  index_insert c item =
      if not (geo_empty (object_geo item))
      then record c { spatial = X.spatial.insert c.spatial (rtree_box item) item }
      else c

  -- The three blocks of `setFill` at the previous object, and the same at the new one.
  pub unfill_kind : Collection → Object G F → Collection
  unfolding index_delete
  unfill_kind c prev =
      if is_spatial prev
      then record (index_delete c prev) { objects = c.objects -ℤ pos 1 }
      else record c { values = X.values.delete c.values prev; nobjects = c.nobjects -ℤ pos 1 }

  pub unfill_expires : Collection → Object G F → Collection
  unfill_expires c prev =
      if not (is_zero (object_expires prev))
      then record c { expires = X.expires.delete c.expires prev }
      else c

  pub unfill_sums : Collection → Object G F → Collection
  unfill_sums c prev = record c {
    points = c.points -ℤ pos (geo_num_points (object_geo prev));
    weight = c.weight -ℤ pos (object_weight prev);
  }

  pub fill_kind : Collection → Object G F → Collection
  unfolding index_insert
  fill_kind c obj =
      if is_spatial obj
      then record (index_insert c obj) { objects = c.objects +ℤ pos 1 }
      else record c { values = X.values.set c.values obj; nobjects = c.nobjects +ℤ pos 1 }

  pub fill_expires : Collection → Object G F → Collection
  fill_expires c obj =
      if not (is_zero (object_expires obj))
      then record c { expires = X.expires.set c.expires obj }
      else c

  pub fill_sums : Collection → Object G F → Collection
  fill_sums c obj = record c {
    points = c.points +ℤ pos (geo_num_points (object_geo obj));
    weight = c.weight +ℤ pos (object_weight obj);
  }

  -- `if prev != nil { … }` of `setFill`.
  pub unfill : Collection → Object G F → Collection
  unfolding unfill_kind unfill_expires unfill_sums
  unfill c prev = unfill_sums (unfill_expires (unfill_kind c prev) prev) prev

  pub fill : Collection → Object G F → Collection
  unfolding fill_kind fill_expires fill_sums
  fill c obj = fill_sums (fill_expires (fill_kind c obj) obj) obj

  pub set_fill : Collection → Option (Object G F) → Object G F → Collection
  set_fill c none obj = fill c obj
  set_fill c (some prev) obj = fill (unfill c prev) obj

  -- `Set`: the collection and the previous object.
  unfoldable pub set : Collection → Object G F → Collection × Option (Object G F)
  unfolding set_fill
  set c obj =
      let (objs', prev) = X.objs.set c.objs (object_id obj) obj in
      (set_fill (record c { objs = objs' }) prev obj, prev)

  -- `Delete` has the block of `setFill` once more, with a second test for an empty geometry.
  pub delete_kind : Collection → Object G F → Collection
  unfolding index_delete
  delete_kind c prev =
      if is_spatial prev
      then record (if not (geo_empty (object_geo prev)) then index_delete c prev else c) {
        objects = c.objects -ℤ pos 1;
      }
      else record c { values = X.values.delete c.values prev; nobjects = c.nobjects -ℤ pos 1 }

  pub delete_prev : Collection → Object G F → Collection
  unfolding delete_kind unfill_expires unfill_sums
  delete_prev c prev = unfill_sums (unfill_expires (delete_kind c prev) prev) prev

  -- `if prev == nil { return nil }` stands in front of it.
  pub delete_found : Collection → Option (Object G F) → Collection
  delete_found c none = c
  delete_found c (some prev) = delete_prev c prev

  unfoldable pub delete : Collection → Str → Collection × Option (Object G F)
  unfolding delete_found
  delete c id =
      let (objs', prev) = X.objs.delete c.objs id in
      (delete_found (record c { objs = objs' }) prev, prev)

  unfoldable pub get : Collection → Str → Option (Object G F)
  get c id = X.objs.get c.objs id
