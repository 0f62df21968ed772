-- ===== src/Geometry.antt =====
-- What the engine takes from spatialdb-dev/geojson and its geometry package, the floating-point
-- numbers, and the field lists of internal/legacy/field as the objects and collections use them.
-- Shapes and floats are parameters; `rtreeRect` of internal/legacy/collection/collection.go is
-- built from them.
use spatialdb_engine.Base.{ℕ, Bool, Option, if◌then◌else◌}
use spatialdb_engine.Base.Text.{Str}

-- float64 and float32 values, with the operations and constants that the code applies to them.
pub record Floats : Type 1 where
  pub F64 : Type 0
  pub F32 : Type 0
  pub zero : F64
  pub less : F64 → F64 → Bool
  pub add : F64 → F64 → F64
  pub sub : F64 → F64 → F64
  pub mul : F64 → F64 → F64
  pub half : F64 → F64
  pub to_f32 : F64 → F32
  pub to_f64 : F32 → F64
  pub is_nan : F32 → Bool
  -- `dRNDTOWARDS` and `dRNDAWAY`.
  pub towards : F64
  pub away : F64

module _ (R : Floats) where
  -- `geometry.Rect`, and the two corners of a box of the R-tree.
  pub record Rect : Type 0 where
    pub min_x : R.F64
    pub min_y : R.F64
    pub max_x : R.F64
    pub max_y : R.F64

  pub record Box : Type 0 where
    pub min0 : R.F32
    pub min1 : R.F32
    pub max0 : R.F32
    pub max1 : R.F32

  unfoldable pub rtree_value_down : R.F64 → R.F32
  rtree_value_down d =
      let f = R.to_f32 d in
      if R.less d (R.to_f64 f)
      then (if R.less d R.zero then R.to_f32 (R.mul d R.away) else R.to_f32 (R.mul d R.towards))
      else f

  unfoldable pub rtree_value_up : R.F64 → R.F32
  rtree_value_up d =
      let f = R.to_f32 d in
      if R.less (R.to_f64 f) d
      then (if R.less d R.zero then R.to_f32 (R.mul d R.towards) else R.to_f32 (R.mul d R.away))
      else f

  unfoldable pub rtree_rect : Rect → Box
  rtree_rect r = record {
    min0 = rtree_value_down r.min_x;
    min1 = rtree_value_down r.min_y;
    max0 = rtree_value_up r.max_x;
    max1 = rtree_value_up r.max_y;
  }

-- `Shape` is a `geojson.Object` of the geojson package.
pub record Geometry : Type 1 where
  pub floats : Floats
  pub open floats use {F64, F32}
  pub Shape : Type 0
  pub Point : Type 0
  -- The `*geojson.SimplePoint`, or the simple `*geojson.Point`, that a shape is, if it is one.
  pub simple_base : Shape → Option Point
  pub of_point : Point → Shape
  -- The type assertion to `geojson.Spatial`.
  pub spatial : Shape → Bool
  pub empty : Shape → Bool
  pub num_points : Shape → ℕ
  pub rect : Shape → Rect floats
  pub text : Shape → Str
  pub within : Shape → Shape → Bool
  pub intersects : Shape → Shape → Bool

-- A field list, as its users see it. A name of a list goes with a value.
pub record FieldLists : Type 1 where
  pub Value : Type 0
  pub equals : Value → Value → Bool
  pub Fields : Type 0
  pub nil : Fields
  pub set : Fields → Str → Value → Fields
  pub get : Fields → Str → Str × Value
  pub weight : Fields → ℕ
