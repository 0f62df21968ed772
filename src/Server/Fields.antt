-- ===== src/Server/Fields.antt =====
-- FSET of internal/legacy/server/crud.go.
use spatialdb_engine.Base.{
  ℕ, zero, suc, ◌+◌, Bool, true, false, Option, none, some, List, [], ◌∷◌, ◌++◌, if◌then◌else◌, ltb,
}
use spatialdb_engine.Base.Text.{Str}
use spatialdb_engine.Base.Int.{pos}
use spatialdb_engine.Geometry.{Geometry, FieldLists}
use spatialdb_engine.Object.{Object, object_geo, object_expires, new_object}
use spatialdb_engine.Collection
use spatialdb_engine.Collection.{Trees, Collection}
use spatialdb_engine.Server.{
  OutputType, json, resp, other, invalid_number_of_arguments, invalid_argument, key_not_found,
  id_not_found, out_of_memory, panic, Result, ok, err, ◌>>=◌, View, Reply, nothing, json_ok,
  integer, object, no_details, fset, Stores, Server, Outcome, col_of, put_col,
}
use spatialdb_engine.Server.Args.{Parsers, is_word, is_reserved_field_name}
use spatialdb_engine.Server.SetArgs.{ret_args, default_view}

module _ (F : FieldLists) where
  pub record FieldOptions : Type 0 where
    pub fields : List (Str × F.Value)
    pub xx : Bool
    pub ret : Bool
    pub view : View

  abbrev pub no_field_options : FieldOptions
  no_field_options = record { fields = []; xx = false; ret = false; view = default_view }

module _ {G : Geometry} {F : FieldLists} (P : Parsers G F) where
  abbrev Next : Type 0
  Next = Result (FieldOptions F × ℕ)

  unfoldable pub fset_return : Str → List Str → FieldOptions F → Next
  fset_return a rest o = if o.ret then err (invalid_argument a) else (do
    (v, skip) ← ret_args P.parse_int 2 rest o.view 0
    ok (record o { ret = true; view = v }, skip))

  unfoldable pub fset_field : Str → List Str → FieldOptions F → Next
  fset_field fkey [] o = err invalid_number_of_arguments
  fset_field fkey (fval ∷ rest) o =
      if is_reserved_field_name fkey
      then err (invalid_argument fkey)
      else ok (record o { fields = o.fields ++ P.make_field fkey fval ∷ [] }, 1)

  unfoldable pub fset_arg : Str → List Str → FieldOptions F → Next
  unfolding fset_return fset_field
  fset_arg a rest o =
      if is_word "xx" a
      then ok (record o { xx = true }, 0)
      else if is_word "return" a
      then fset_return a rest o
      else fset_field a rest o

  unfoldable pub fset_args : ℕ → List Str → FieldOptions F → Result (FieldOptions F)
  fset_args skip [] o = ok o
  fset_args (suc skip) (a ∷ rest) o = fset_args skip rest o
  fset_args zero (a ∷ rest) o = do (o', skip) ← fset_arg a rest o; fset_args skip rest o'

module _ {G : Geometry} {F : FieldLists} {X : Trees G F} (Y : Stores X) where
  -- The loop over the fields, with `updateCount`: a field that has an equal value is left.
  unfoldable pub update_fields : List (Str × F.Value) → F.Fields → ℕ → F.Fields × ℕ
  update_fields [] l n = (l, n)
  update_fields ((name, v) ∷ fs) l n =
      let same = F.equals (F.get l name).1 v in
      update_fields fs (if same then l else F.set l name v) (if same then n else n + 1)

  -- `buildObjectResponse` of a nil object dereferences it.
  abbrev pub fset_reply :
      OutputType → FieldOptions F → Option (Object G F) → ℕ → Result (Reply (Object G F) F.Value)
  fset_reply out o obj n =
      if o.ret
      then elim obj [ none ↦ err panic | some x ↦ ok (object o.view x) ]
      else elim out [ json ↦ ok json_ok | resp ↦ ok (integer (pos n)) | other ↦ ok nothing ]

  unfoldable pub fset_found :
      OutputType → FieldOptions F → Str → Str → Collection X → Object G F → Server Y → Outcome Y
  unfolding update_fields
  fset_found out o key id c x s =
      let (flist, n) = update_fields o.fields x.fields 0 in
      let obj = new_object id (object_geo x) (object_expires x) flist in
      let d = record no_details { command = fset; key = key; obj = some obj; updated = ltb 0 n } in
      (put_col Y s key (Collection.set X c obj).0, fset_reply out o (some obj) n >>= λ r. ok (r, d))

  unfoldable pub fset_in :
      OutputType
      → FieldOptions F
      → Str
      → Str
      → Collection X
      → Option (Object G F)
      → Server Y
      → Outcome Y
  unfolding fset_found
  fset_in out o key id c (some x) s = fset_found out o key id c x s
  fset_in out o key id c none s =
      if o.xx
      then (s, fset_reply out o none 0 >>= λ r. ok (r, no_details))
      else (s, err id_not_found)

  unfoldable pub fset_op :
      OutputType → FieldOptions F → Str → Str → Option (Collection X) → Server Y → Outcome Y
  unfolding fset_in
  fset_op out o key id none s = (s, err key_not_found)
  fset_op out o key id (some c) s = fset_in out o key id c (Collection.get X c id) s

  unfoldable pub fset_parsed :
      OutputType → Str → Str → Result (FieldOptions F) → Server Y → Outcome Y
  unfolding fset_op
  fset_parsed out key id (err e) s = (s, err e)
  fset_parsed out key id (ok o) s = fset_op out o key id (col_of Y s key) s

  unfoldable pub cmd_fset : Parsers G F → OutputType → List Str → Server Y → Outcome Y
  unfolding fset_parsed
  cmd_fset P out (name ∷ key ∷ id ∷ a ∷ b ∷ rest) s =
      if s.oom
      then (s, err out_of_memory)
      else fset_parsed out key id (fset_args P 0 (a ∷ b ∷ rest) (no_field_options F)) s
  cmd_fset P out args s =
      if s.oom then (s, err out_of_memory) else (s, err invalid_number_of_arguments)
