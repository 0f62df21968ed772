-- ===== src/Server/SetArgs.antt =====
-- The arguments of SET of internal/legacy/server/crud.go, and of the RETURN option of FSET.
use spatialdb_engine.Base.{
  ℕ, zero, suc, ◌+◌, Bool, true, false, Option, none, some, List, [], ◌∷◌, ◌++◌, if◌then◌else◌,
}
use spatialdb_engine.Base.Text.{Str, codes}
use spatialdb_engine.Base.Int.{ℤ, pos}
use spatialdb_engine.Geometry.{Geometry, FieldLists}
use spatialdb_engine.Object.{Geo, string, shape}
use spatialdb_engine.Server.{
  invalid_number_of_arguments, invalid_argument, invalid_geojson, Result, ok, err, ◌>>=◌, View,
  add_int64,
}
use spatialdb_engine.Server.Args.{Parsers, is_word, is_reserved_field_name, valid_precision}

-- The words that the RETURN option looks for.
pub data RetWord : Type 0 where
  withfields hash unknown : RetWord
  kind : Str → RetWord

unfoldable pub ret_word : Str → RetWord
ret_word a =
    if is_word "withfields" a
    then withfields
    else if is_word "object" a
    then kind (codes "object")
    else if is_word "point" a
    then kind (codes "point")
    else if is_word "bounds" a
    then kind (codes "bounds")
    else if is_word "hash" a
    then hash
    else unknown

-- `for j := i; j < i+3; j++`, in which a word that is found moves `i` too. `room` is `i + 3 - j`, and
-- `skip` what `i` has moved. At `j = i` stands the word `return`, which leaves room for two more.
unfoldable pub ret_args : (Str → Option ℕ) → ℕ → List Str → View → ℕ → Result (View × ℕ)
ret_args parse_int zero args v skip = ok (v, skip)
ret_args parse_int (suc room) [] v skip = ok (v, skip)
ret_args parse_int (suc room) (a ∷ []) v skip = elim (ret_word a) [
  | withfields ↦ ok (record v { withfields = true }, skip + 1)
  | kind k ↦ ok (record v { kind = k }, skip + 1)
  | hash ↦ err invalid_number_of_arguments
  | unknown ↦ ok (v, skip)
]
ret_args parse_int (suc room) (a ∷ b ∷ rest) v skip = elim (ret_word a) [
  | withfields ↦
      ret_args parse_int (suc room) (b ∷ rest) (record v { withfields = true }) (skip + 1)
  | kind k ↦ ret_args parse_int (suc room) (b ∷ rest) (record v { kind = k }) (skip + 1)
  | hash ↦ elim (valid_precision (parse_int b)) [
    | none ↦ err (invalid_argument b)
    | some p ↦
        ret_args parse_int (suc room) rest (record v { kind = codes "hash"; precision = p })
          (skip + 2)
  ]
  | unknown ↦ ret_args parse_int room (b ∷ rest) v skip
]

abbrev pub default_view : View
default_view = record { kind = codes "object"; precision = 0; withfields = false }

-- What an argument that does not parse is answered with.
abbrev pub or_invalid : {A : Type 0} → Option A → Str → Result A
or_invalid none arg = err (invalid_argument arg)
or_invalid (some a) arg = ok a

module _ (G : Geometry) (F : FieldLists) where
  pub record Options : Type 0 where
    pub fields : List (Str × F.Value)
    pub ex : ℤ
    pub xx : Bool
    pub nx : Bool
    pub ret : Bool
    pub view : View
    pub oobj : Option (Geo G)

  abbrev pub no_options : Options
  no_options = record {
    fields = [];
    ex = pos 0;
    xx = false;
    nx = false;
    ret = false;
    view = default_view;
    oobj = none;
  }

module _ {G : Geometry} {F : FieldLists} (P : Parsers G F) (now : ℤ) where
  abbrev Next : Type 0
  Next = Result (Options G F × ℕ)

  -- The cases of the switch that take arguments: the options, and how many arguments they take.
  unfoldable pub field_arg : List Str → Options G F → Next
  field_arg (fkey ∷ fval ∷ rest) o =
      if is_reserved_field_name fkey
      then err (invalid_argument fkey)
      else ok (record o { fields = o.fields ++ P.make_field fkey fval ∷ [] }, 2)
  field_arg args o = err invalid_number_of_arguments

  unfoldable pub ex_arg : List Str → Options G F → Next
  ex_arg [] o = err invalid_number_of_arguments
  ex_arg (exval ∷ rest) o = do
    x ← or_invalid (P.parse_float exval) exval
    ok (record o { ex = add_int64 now (P.nanos x) }, 1)

  unfoldable pub string_arg : List Str → Options G F → Next
  string_arg [] o = err invalid_number_of_arguments
  string_arg (str ∷ rest) o = ok (record o { oobj = some (string str) }, 1)

  -- `probe for possible z coordinate`
  unfoldable pub probe_z : List Str → Option G.F64
  probe_z [] = none
  probe_z (a ∷ rest) = P.parse_float a

  unfoldable pub make_point : G.F64 → G.F64 → Option G.F64 → Options G F → Options G F × ℕ
  make_point x y none o = (record o { oobj = some (shape (P.point_xy x y)) }, 2)
  make_point x y (some z) o = (record o { oobj = some (shape (P.point_xyz x y z)) }, 3)

  unfoldable pub point_arg : List Str → Options G F → Next
  unfolding probe_z make_point
  point_arg (slat ∷ slon ∷ rest) o = do
    y ← or_invalid (P.parse_float slat) slat
    x ← or_invalid (P.parse_float slon) slon
    ok (make_point x y (probe_z rest) o)
  point_arg args o = err invalid_number_of_arguments

  unfoldable pub bounds_arg : List Str → Options G F → Next
  bounds_arg (a ∷ b ∷ c ∷ d ∷ rest) o = do
    v0 ← or_invalid (P.parse_float a) a
    v1 ← or_invalid (P.parse_float b) b
    v2 ← or_invalid (P.parse_float c) c
    v3 ← or_invalid (P.parse_float d) d
    ok (record o { oobj = some (shape (P.rect_of v1 v0 v3 v2)) }, 4)
  bounds_arg args o = err invalid_number_of_arguments

  unfoldable pub hash_arg : List Str → Options G F → Next
  hash_arg [] o = err invalid_number_of_arguments
  hash_arg (shash ∷ rest) o = ok (record o { oobj = some (shape (P.geohash_point shash)) }, 1)

  unfoldable pub object_arg : List Str → Options G F → Next
  object_arg [] o = err invalid_number_of_arguments
  object_arg (text ∷ rest) o = elim (P.parse_geojson text) [
    | none ↦ err invalid_geojson
    | some g ↦ ok (record o { oobj = some (shape g) }, 1)
  ]

  unfoldable pub return_arg : Str → List Str → Options G F → Next
  unfolding ret_args
  return_arg a rest o = if o.ret then err (invalid_argument a) else (do
    (v, skip) ← ret_args P.parse_int 2 rest o.view 0
    ok (record o { ret = true; view = v }, skip))

  -- The switch on one argument.
  unfoldable pub set_arg : Str → List Str → Options G F → Next
  unfolding field_arg ex_arg string_arg point_arg bounds_arg hash_arg object_arg return_arg
  set_arg a rest o =
      if is_word "field" a
      then field_arg rest o
      else if is_word "ex" a
      then ex_arg rest o
      else if is_word "nx" a
      then (if o.xx then err (invalid_argument a) else ok (record o { nx = true }, 0))
      else if is_word "xx" a
      then (if o.nx then err (invalid_argument a) else ok (record o { xx = true }, 0))
      else if is_word "return" a
      then return_arg a rest o
      else if is_word "string" a
      then string_arg rest o
      else if is_word "point" a
      then point_arg rest o
      else if is_word "bounds" a
      then bounds_arg rest o
      else if is_word "hash" a
      then hash_arg rest o
      else if is_word "object" a
      then object_arg rest o
      else err (invalid_argument a)

  -- The loop over the arguments; `skip` of them have been taken by an option.
  unfoldable pub set_args : ℕ → List Str → Options G F → Result (Options G F)
  set_args skip [] o = ok o
  set_args (suc skip) (a ∷ rest) o = set_args skip rest o
  set_args zero (a ∷ rest) o = do (o', skip) ← set_arg a rest o; set_args skip rest o'
