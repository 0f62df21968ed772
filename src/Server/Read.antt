-- ===== src/Server/Read.antt =====
-- The reading commands of internal/legacy/server/crud.go: GET, FGET, EXISTS, FEXISTS and TYPE.
use spatialdb_engine.Base.{ℕ, true, not, Option, none, some, List, [], ◌∷◌, if◌then◌else◌, is_some}
use spatialdb_engine.Base.Text.{Str, str_eq, codes}
use spatialdb_engine.Geometry.{Geometry, FieldLists}
use spatialdb_engine.Object.{Object}
use spatialdb_engine.Collection
use spatialdb_engine.Collection.{Trees, Collection}
use spatialdb_engine.Server.{
  OutputType, other, is_resp, invalid_number_of_arguments, invalid_argument, key_not_found,
  id_not_found, Result, ok, err, ◌>>=◌, View, nothing, null, simple, bool, object, value, Stores,
  Server, Answer, col_of,
}
use spatialdb_engine.Server.Args.{Parsers, is_word, valid_precision}
use spatialdb_engine.Server.SetArgs.{default_view}

-- The options of GET behind the id.
pub get_args : (Str → Option ℕ) → List Str → View → Result View
get_args parse_int [] v = ok v
get_args parse_int (a ∷ []) v =
    if is_word "withfields" a
    then ok (record v { withfields = true })
    else if is_word "object" a
    then ok (record v { kind = codes "object" })
    else if is_word "point" a
    then ok (record v { kind = codes "point" })
    else if is_word "bounds" a
    then ok (record v { kind = codes "bounds" })
    else err invalid_number_of_arguments
get_args parse_int (a ∷ b ∷ rest) v =
    let more = λ (v' : View). get_args parse_int (b ∷ rest) v' in
    let after = λ (v' : View). get_args parse_int rest v' in
    if is_word "withfields" a
    then more (record v { withfields = true })
    else if is_word "object" a
    then more (record v { kind = codes "object" })
    else if is_word "point" a
    then more (record v { kind = codes "point" })
    else if is_word "bounds" a
    then more (record v { kind = codes "bounds" })
    else if is_word "hash" a
    then elim (valid_precision (parse_int b)) [
      | none ↦ err (invalid_argument b)
      | some p ↦ after (record v { kind = codes "hash"; precision = p })
    ]
    else err invalid_number_of_arguments

module _ {G : Geometry} {F : FieldLists} {X : Trees G F} (Y : Stores X) where
  -- The object of a collection that a command names, or the error for what is missing.
  pub object_in : Option (Collection X) → Str → Result (Object G F)
  object_in none id = err key_not_found
  object_in (some c) id = elim (Collection.get X c id) [ none ↦ err id_not_found | some o ↦ ok o ]

  -- GET answers a null in RESP where something is missing.
  abbrev pub get_reply : OutputType → View → Result (Object G F) → Answer Y
  get_reply out v (err e) = if is_resp out then ok null else err e
  get_reply out v (ok o) = ok (object v o)

  unfoldable pub cmd_get : Parsers G F → OutputType → List Str → Server Y → Answer Y
  unfolding object_in
  cmd_get P out (name ∷ key ∷ id ∷ rest) s = do
    v ← get_args P.parse_int rest default_view
    get_reply out v (object_in (col_of Y s key) id)
  cmd_get P out args s = err invalid_number_of_arguments

  unfoldable pub cmd_exists : List Str → Server Y → Answer Y
  cmd_exists (name ∷ key ∷ id ∷ []) s = elim (col_of Y s key) [
    | none ↦ err key_not_found
    | some c ↦ ok (bool (is_some (Collection.get X c id)))
  ]
  cmd_exists args s = err invalid_number_of_arguments

  unfoldable pub cmd_fexists : List Str → Server Y → Answer Y
  unfolding object_in
  cmd_fexists (name ∷ key ∷ id ∷ field ∷ []) s = do
    o ← object_in (col_of Y s key) id
    ok (bool (not (str_eq (F.get o.fields field).0 [])))
  cmd_fexists args s = err invalid_number_of_arguments

  unfoldable pub cmd_fget : OutputType → List Str → Server Y → Answer Y
  unfolding object_in
  cmd_fget out (name ∷ key ∷ id ∷ field ∷ rest) s = do
    o ← object_in (col_of Y s key) id
    ok (elim out [ other ↦ nothing | _ ↦ value (F.get o.fields field).1 ])
  cmd_fget out args s = err invalid_number_of_arguments

  unfoldable pub cmd_type : OutputType → List Str → Server Y → Answer Y
  cmd_type out (name ∷ key ∷ []) s = elim (col_of Y s key) [
    | none ↦ if is_resp out then ok (simple (codes "none")) else err key_not_found
    | some c ↦ ok (simple (codes "hash"))
  ]
  cmd_type out args s = err invalid_number_of_arguments
