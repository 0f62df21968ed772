-- ===== src/Tests/Collections.antt =====
-- The theorems on objects and collections at concrete inputs.
use spatialdb_engine.Tests.Instances.{geometry, fields, trees, Obj}
use spatialdb_engine.Base.{
  ◌+◌, ◌≡◌, refl, true, false, not, ◌&&◌, none, some, [], arith, if◌then◌else◌, drop, keep_if,
  length,
}
use spatialdb_engine.Base.Text.{Str, codes, str_eq, str_lt}
use spatialdb_engine.Base.Int.{pos, negsuc}
use spatialdb_engine.Object.{string, shape, new_object, object_id, object_expires}
use spatialdb_engine.Object.Head.{new_object_id_expires}
use spatialdb_engine.Collection
use spatialdb_engine.Collection.{Trees, Collection}
use spatialdb_engine.Collection.Describes.{IsConsistent}
use spatialdb_engine.Collection.Invariant.{
  set-IsConsistent, get-set, delete-IsConsistent, get-delete, new-IsConsistent,
}
use spatialdb_engine.Collection.Search
use spatialdb_engine.Collection.Search.{all_nan}
use spatialdb_engine.Collection.Matches.{met, within_meets}
use spatialdb_engine.Collection.Describes.{total}
use spatialdb_engine.Object.{object_geo, geo_within}
use spatialdb_engine.Geometry.{rtree_rect}
use spatialdb_engine.Tests.Instances.{floats}
use spatialdb_engine.Collection.Scan.{scan, scan_range}
use spatialdb_engine.Collection.Walk.{feed, outcome}
use spatialdb_engine.Collection.Scan.{objects_of}
use spatialdb_engine.Collection.Visited.{scan_visits, scan_range_visits}
use spatialdb_engine.Varint.{varint, put_varint}
use spatialdb_engine.Varint.RoundTrip.{varint-put_varint}
use spatialdb_engine.Base.{◌++◌, length}

abbrev pub truck : Obj
truck = new_object (codes "truck") (shape 3) (pos 70000) []

abbrev note : Obj
note = new_object (codes "note") (string (codes "hello")) (pos 0) []

abbrev pub two : Collection trees
two = (Collection.set trees (Collection.set trees (Collection.new trees) truck).0 note).0

pub two-IsConsistent : IsConsistent trees two
two-IsConsistent =
    set-IsConsistent trees (Collection.set trees (Collection.new trees) truck).0 note
      (set-IsConsistent trees (Collection.new trees) truck (new-IsConsistent trees))

set-IsConsistent_example : IsConsistent trees (Collection.set trees two truck).0
set-IsConsistent_example = set-IsConsistent trees two truck two-IsConsistent

delete-IsConsistent_example : IsConsistent trees (Collection.delete trees two (codes "truck")).0
delete-IsConsistent_example = delete-IsConsistent trees two (codes "truck") two-IsConsistent

get-set_example :
    ((k : Str)
      → Collection.get trees (Collection.set trees two truck).0 k
        ≡ (if str_eq (object_id truck) k then some truck else Collection.get trees two k))
    × ((Collection.set trees two truck).1 ≡ Collection.get trees two (object_id truck))
get-set_example = get-set trees two truck

get-delete_example :
    ((k : Str)
      → Collection.get trees (Collection.delete trees two (codes "note")).0 k
        ≡ (if str_eq (codes "note") k then none else Collection.get trees two k))
    × ((Collection.delete trees two (codes "note")).1 ≡ Collection.get trees two (codes "note"))
get-delete_example = get-delete trees two (codes "note")

new_object_id_expires_example :
    (object_id (new_object {G = geometry} {F = fields} (codes "id") (shape 4) (negsuc 99) [])
      ≡ codes "id")
    × (object_expires (new_object {G = geometry} {F = fields} (codes "id") (shape 4) (negsuc 99) [])
        ≡ negsuc 99)
    × ((new_object {G = geometry} {F = fields} (codes "id") (shape 4) (negsuc 99) []).fields ≡ [])
new_object_id_expires_example =
    new_object_id_expires geometry fields (codes "id") (shape 4) (negsuc 99) [] (omega arith)

scan_visits_example :
    outcome (
      scan trees two false
        (some (record { offset = 1; number_iters = 0 }))
        none
        (λ n. n)
        (λ o n. (true, n + 1))
        0)
    ≡ feed (λ o n. (true, n + 1)) (drop 1 (objects_of trees two (trees.objs.items two.objs))) 0
scan_visits_example =
    scan_visits trees two (some (record { offset = 1; number_iters = 0 })) none (λ n. n)
      (λ o n. (true, n + 1)) 0 false tt

scan_range_visits_example :
    outcome (
      scan_range trees two false none none
        (λ n. n)
        (λ o n. (true, n + 1))
        0
        (codes "n")
        (codes "o"))
    ≡ feed
        (λ o n. (true, n + 1))
        (objects_of trees two (
          keep_if
            (λ e. not (str_lt e.0 (codes "n")) && str_lt e.0 (codes "o"))
            (trees.objs.items two.objs)))
        0
scan_range_visits_example =
    scan_range_visits trees two none none (λ n. n) (λ o n. (true, n + 1)) 0 (codes "n") (codes "o")
      two-IsConsistent tt

within_meets_example :
    (Search.within trees two 3 0 none none (λ n. n) (λ o m. (true, m + 1)) 0).1.user
    ≡ total trees
        (λ o.
          if met trees (λ x. geo_within (object_geo x) 3) (rtree_rect floats (geometry.rect 3)) o
          then 1
          else 0)
        (trees.objs.items two.objs)
unfolding all_nan
within_meets_example = within_meets trees two 3 none (λ n. n) (λ o. 1) two-IsConsistent refl tt

varint-put_varint_example :
    varint (put_varint (negsuc 299) ++ codes "truck")
    ≡ (negsuc 299, length (put_varint (negsuc 299)))
varint-put_varint_example = varint-put_varint (negsuc 299) (codes "truck") (omega arith)
