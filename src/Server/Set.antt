-- ===== src/Server/Set.antt =====
-- The operation of SET of internal/legacy/server/crud.go.
use spatialdb_engine.Base.{
  Bool, true, not, ◌&&◌, ◌||◌, Option, none, some, List, [], ◌∷◌, if◌then◌else◌, is_some,
}
use spatialdb_engine.Base.Text.{Str, codes}
use spatialdb_engine.Base.Int.{ℤ}
use spatialdb_engine.Geometry.{Geometry, FieldLists}
use spatialdb_engine.Object.{Object, Geo, new_object}
use spatialdb_engine.Collection
use spatialdb_engine.Collection.{Trees, Collection}
use spatialdb_engine.Server.{
  OutputType, json, resp, other, is_json, invalid_number_of_arguments, id_not_found,
  id_already_exists, out_of_memory, Result, ok, err, Reply, nothing, null, json_ok, simple, object,
  no_details, set, Stores, Server, Outcome, col_of, put_col,
}
use spatialdb_engine.Server.Args.{Parsers}
use spatialdb_engine.Server.SetArgs.{Options, no_options, set_args}

module _ {G : Geometry} {F : FieldLists} {X : Trees G F} (Y : Stores X) where
  -- `nada`: excluded by XX or NX.
  unfoldable pub nada : OutputType → Bool → Server Y → Outcome Y
  nada out nx s =
      if is_json out
      then (s, err (if nx then id_already_exists else id_not_found))
      else (s, ok (null, no_details))

  unfoldable pub fields_of : Option (Object G F) → F.Fields
  fields_of none = F.nil
  fields_of (some o) = o.fields

  unfoldable pub set_fields : F.Fields → List (Str × F.Value) → F.Fields
  set_fields l [] = l
  set_fields l ((name, v) ∷ fs) = set_fields (F.set l name v) fs

  abbrev pub set_reply : OutputType → Options G F → Object G F → Reply (Object G F) F.Value
  set_reply out o obj =
      if o.ret
      then object o.view obj
      else elim out [ json ↦ json_ok | resp ↦ simple (codes "OK") | other ↦ nothing ]

  -- `col.Set(obj)` and the response.
  unfoldable pub store :
      OutputType → Options G F → Str → Str → Geo G → Collection X → Server Y → Outcome Y
  unfolding fields_of set_fields
  store out o key id oobj c s =
      let flist = set_fields (fields_of (Collection.get X c id)) o.fields in
      let obj = new_object id oobj o.ex flist in
      let (c', old) = Collection.set X c obj in
      (
        put_col Y s key c',
        ok (
          set_reply out o obj,
          record no_details { command = set; key = key; obj = some obj; old = old; updated = true },
        ),
      )

  -- The tests of XX and NX on the collection, which `s` holds.
  unfoldable pub set_in :
      OutputType → Options G F → Str → Str → Geo G → Collection X → Server Y → Outcome Y
  unfolding nada store
  set_in out o key id oobj c s =
      if (o.xx && not (is_some (Collection.get X c id)))
        || (o.nx && is_some (Collection.get X c id))
      then nada out o.nx s
      else store out o key id oobj c s

  unfoldable pub set_op :
      OutputType → Options G F → Str → Str → Geo G → Option (Collection X) → Server Y → Outcome Y
  unfolding set_in
  set_op out o key id oobj none s =
      if o.xx
      then nada out o.nx s
      else set_in out o key id oobj (Collection.new X) (put_col Y s key (Collection.new X))
  set_op out o key id oobj (some c) s = set_in out o key id oobj c s

  -- `if oobj == nil { return retwerr(errInvalidNumberOfArguments) }` and the operation.
  unfoldable pub set_geo :
      OutputType → Options G F → Str → Str → Option (Geo G) → Server Y → Outcome Y
  unfolding set_op
  set_geo out o key id none s = (s, err invalid_number_of_arguments)
  set_geo out o key id (some oobj) s = set_op out o key id oobj (col_of Y s key) s

  unfoldable pub set_parsed : OutputType → Str → Str → Result (Options G F) → Server Y → Outcome Y
  unfolding set_geo
  set_parsed out key id (err e) s = (s, err e)
  set_parsed out key id (ok o) s = set_geo out o key id o.oobj s

  unfoldable pub cmd_set : Parsers G F → ℤ → OutputType → List Str → Server Y → Outcome Y
  unfolding set_parsed
  cmd_set P now out (name ∷ key ∷ id ∷ rest) s =
      if s.oom
      then (s, err out_of_memory)
      else set_parsed out key id (set_args P now 0 rest (no_options G F)) s
  cmd_set P now out args s =
      if s.oom then (s, err out_of_memory) else (s, err invalid_number_of_arguments)
