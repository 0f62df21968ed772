-- ===== src/Tests/Instances.antt =====
-- A concrete instance of every parameter of the model.
use native.Mathlib.Decide.{ℕ_discrete}
use spatialdb_engine.Tests.Containers.{map_of, set_of, index_of}
use spatialdb_engine.Base.{
  ℕ, ◌+◌, ◌*◌, true, false, none, some, List, [], ltb, ◌==◌, length, if◌then◌else◌,
}
use spatialdb_engine.Base.Text.{Str}
use spatialdb_engine.Base.Int.{pos}
use spatialdb_engine.Geometry.{Floats, Box, Geometry, FieldLists}
use spatialdb_engine.Index.Sorted.{lookup_key, insert_key}
use spatialdb_engine.Object.{Object}
use spatialdb_engine.Collection.{Trees, Collection}
use spatialdb_engine.Collection.Order.{by_value-IsOrder, by_expires-IsOrder}
use spatialdb_engine.Server.{Stores}
use spatialdb_engine.Server.Ties.{hook_order, object_order}
use spatialdb_engine.Server.Args.{Parsers}

-- Numbers in place of floats; a shape is a number, a point on the diagonal, and 0 is empty.
abbrev pub floats : Floats
floats = record {
  F64 = ℕ;
  F32 = ℕ;
  zero = 0;
  less = ltb;
  add = λ a b. a + b;
  sub = λ a b. 0;
  mul = λ a b. a;
  half = λ a. a;
  to_f32 = λ a. a;
  to_f64 = λ a. a;
  is_nan = λ a. false;
  towards = 1;
  away = 1;
}

abbrev pub geometry : Geometry
geometry = record {
  floats = floats;
  Shape = ℕ;
  Point = ℕ;
  simple_base = λ g. if ltb g 10 then some g else none;
  of_point = λ p. p;
  spatial = λ g. true;
  empty = λ g. g == 0;
  num_points = λ g. 1;
  rect = λ g. record { min_x = g; min_y = g; max_x = g; max_y = g };
  text = λ g. [];
  within = λ g h. g == h;
  intersects = λ g h. g == h;
}

abbrev pub get_field : List (Str × ℕ) → Str → Str × ℕ
get_field l name = elim (lookup_key name l) [ none ↦ (name, 0) | some v ↦ (name, v) ]

abbrev pub fields : FieldLists
fields = record {
  Value = ℕ;
  equals = λ a b. a == b;
  Fields = List (Str × ℕ);
  nil = [];
  set = λ l name v. insert_key name v l;
  get = get_field;
  weight = λ l. length l;
}

abbrev pub Obj : Type 0
Obj = Object geometry fields

pub entry_discrete : Discrete (Box floats × Obj)
entry_discrete = hlevel (ℕ_discrete)

abbrev pub trees : Trees geometry fields
trees = record {
  objs = map_of Obj;
  spatial = index_of entry_discrete (λ a b. true);
  values = set_of by_value-IsOrder;
  expires = set_of by_expires-IsOrder;
}

abbrev pub stores : Stores trees
stores = record {
  cols = map_of (Collection trees);
  groups = record { by_hook = set_of hook_order; by_object = set_of object_order };
}

abbrev pub parsers : Parsers geometry fields
parsers = record {
  parse_float = λ s. some (length s);
  parse_int = λ s. some (length s);
  nanos = λ x. pos (x * 1000000000);
  whole_seconds = λ x. x;
  point_xy = λ x y. x;
  point_xyz = λ x y z. x;
  rect_of = λ a b c d. a;
  geohash_point = λ s. length s;
  parse_geojson = λ s. some (length s);
  make_field = λ name text. (name, length text);
}
