-- ===== src/Server/Args.antt =====
-- Arguments of commands: keywords in any case, and the parsers of other packages.
use spatialdb_engine.Base.{
  ℕ, ◌+◌, Bool, ◌&&◌, ◌||◌, Option, none, some, map, leb, ltb, if◌then◌else◌,
}
use Prim.Native.String.{String}
use spatialdb_engine.Base.Text.{Str, str_eq, codes}
use spatialdb_engine.Base.Int.{ℤ}
use spatialdb_engine.Geometry.{Geometry, FieldLists}

-- `strings.ToLower` of an ASCII text.
unfoldable pub to_lower : Str → Str
to_lower = map (λ c. if leb b'A' c && leb c b'Z' then c + 32 else c)

-- `strings.ToLower(arg) == word`.
unfoldable pub is_word : String → Str → Bool
unfolding to_lower
is_word word arg = str_eq (to_lower arg) (codes word)

unfoldable pub is_reserved_field_name : Str → Bool
is_reserved_field_name name =
    str_eq name (codes "z") || str_eq name (codes "lat") || str_eq name (codes "lon")

-- `strconv.ParseInt` gave a precision between 1 and 12.
abbrev pub valid_precision : Option ℕ → Option ℕ
valid_precision none = none
valid_precision (some n) = if ltb n 1 || ltb 12 n then none else some n

-- What other packages make of an argument: `strconv.ParseFloat` and `ParseInt`, the geometries of
-- geojson, `geohash.Decode`, and `field.Make`.
pub record Parsers (G : Geometry) (F : FieldLists) : Type 0 where
  pub parse_float : Str → Option G.F64
  -- `strconv.ParseInt(s, 10, 64)`, where it is not negative.
  pub parse_int : Str → Option ℕ
  -- `int64(float64(time.Second) * x)`.
  pub nanos : G.F64 → ℤ
  -- `int(math.Max(float64(d)/float64(time.Second), 0))`.
  pub whole_seconds : ℤ → ℤ
  pub point_xy : G.F64 → G.F64 → G.Shape
  pub point_xyz : G.F64 → G.F64 → G.F64 → G.Shape
  pub rect_of : G.F64 → G.F64 → G.F64 → G.F64 → G.Shape
  pub geohash_point : Str → G.Shape
  pub parse_geojson : Str → Option G.Shape
  pub make_field : Str → Str → Str × F.Value
