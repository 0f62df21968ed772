-- ===== src/Server/Dispatch/Validity.antt =====
-- The invariant of the server of internal/legacy/server/server.go under every sequence of data
-- commands.
use spatialdb_engine.Base.{
  ◌≡◌, refl, Bool, Option, none, some, List, [], ◌∷◌, Option-cases, inl, inr,
}
use spatialdb_engine.Base.Text.{Str}
use spatialdb_engine.Base.Int.{ℤ}
use spatialdb_engine.Geometry.{Geometry, FieldLists}
use spatialdb_engine.Object.{object_geo, object_expires, new_object}
use spatialdb_engine.Collection
use spatialdb_engine.Collection.{Trees, Collection}
use spatialdb_engine.Server.{
  OutputType, Error, Result, ok, err, Stores, Server, Outcome, col_of, add_int64,
}
use spatialdb_engine.Server.Args.{Parsers}
use spatialdb_engine.Server.Delete.{cmd_drop, cmd_rename}
use spatialdb_engine.Server.Fields.{
  FieldOptions, no_field_options, fset_args, update_fields, fset_found, fset_in, fset_op,
  fset_parsed, cmd_fset,
}
use spatialdb_engine.Server.Expiry.{expire_parsed, cmd_expire, cmd_persist}
use spatialdb_engine.Server.Keys.{IsValid, put_col-IsValid, if-IsValid, set-IsKept}
use spatialdb_engine.Server.Writes.{cmd_set-IsValid}
use spatialdb_engine.Server.Deletes.{cmd_del-IsValid}
use spatialdb_engine.Server.Purges.{cmd_pdel-IsValid}
use spatialdb_engine.Server.Moves.{find-cmd_drop, find-cmd_rename}
use spatialdb_engine.Server.Updates.{add_int64-InInt64, expire_op-Maps, find-cmd_persist}
use spatialdb_engine.Server.Aof.{Redcon, Aof}
use spatialdb_engine.Server.Dispatch.{
  DataCommand, set_arm, fset_arm, del_arm, pdel_arm, drop_arm, rename_arm, expire_arm, persist_arm,
  Env, Config, Done, done, pdel_done_of, run_arm, refusal, logged, data_command, handle_guarded,
  handle_chosen, behind, handle_data, handle_each,
}

module _ {G : Geometry} {F : FieldLists} {X : Trees G F} (Y : Stores X) where
  fset_op-IsValid :
      (out : OutputType) (o : FieldOptions F) (key id : Str) (col : Option (Collection X))
      (s : Server Y)
      → col_of Y s key ≡ col
      → IsValid Y s
      → IsValid Y (fset_op Y out o key id col s).0
  unfolding fset_op fset_in fset_found
  fset_op-IsValid out o key id none s e v = v
  fset_op-IsValid out o key id (some c) s e v = elim (Option-cases (Collection.get X c id)) [
    | inl n ↦ rw n (if-IsValid Y o.xx _ _ v v)
    | inr (x, n) ↦
        let obj =
          new_object id (object_geo x) (object_expires x) (update_fields Y o.fields x.fields 0).0 in
        rw n (put_col-IsValid Y s key _ (set-IsKept Y c obj (v.kept key c e).consistent) v)
  ]

  fset_parsed-IsValid :
      (out : OutputType) (key id : Str) (o : Result (FieldOptions F)) (s : Server Y)
      → IsValid Y s
      → IsValid Y (fset_parsed Y out key id o s).0
  unfolding fset_parsed
  fset_parsed-IsValid out key id (err e) s v = v
  fset_parsed-IsValid out key id (ok o) s v = fset_op-IsValid out o key id (col_of Y s key) s refl v

  cmd_fset-IsValid :
      (P : Parsers G F) (out : OutputType) (args : List Str) (s : Server Y)
      → IsValid Y s
      → IsValid Y (cmd_fset Y P out args s).0
  unfolding cmd_fset
  cmd_fset-IsValid P out [] s v = if-IsValid Y s.oom _ _ v v
  cmd_fset-IsValid P out (a ∷ []) s v = if-IsValid Y s.oom _ _ v v
  cmd_fset-IsValid P out (a ∷ b ∷ []) s v = if-IsValid Y s.oom _ _ v v
  cmd_fset-IsValid P out (a ∷ b ∷ c ∷ []) s v = if-IsValid Y s.oom _ _ v v
  cmd_fset-IsValid P out (a ∷ b ∷ c ∷ d ∷ []) s v = if-IsValid Y s.oom _ _ v v
  cmd_fset-IsValid P out (name ∷ key ∷ id ∷ a ∷ b ∷ rest) s v =
      if-IsValid Y s.oom _ _ v
        (fset_parsed-IsValid out key id (fset_args P 0 (a ∷ b ∷ rest) (no_field_options F)) s v)

  cmd_drop-IsValid :
      (out : OutputType) (args : List Str) (s : Server Y)
      → IsValid Y s
      → IsValid Y (cmd_drop Y out args s).0
  unfolding cmd_drop
  cmd_drop-IsValid out [] s v = v
  cmd_drop-IsValid out (a ∷ []) s v = v
  cmd_drop-IsValid out (name ∷ key ∷ []) s v = (find-cmd_drop Y out name key s v).0
  cmd_drop-IsValid out (a ∷ b ∷ c ∷ rest) s v = v

  cmd_rename-IsValid :
      (out : OutputType) (args : List Str) (s : Server Y)
      → IsValid Y s
      → IsValid Y (cmd_rename Y out args s).0
  unfolding cmd_rename
  cmd_rename-IsValid out [] s v = v
  cmd_rename-IsValid out (a ∷ []) s v = v
  cmd_rename-IsValid out (a ∷ b ∷ []) s v = v
  cmd_rename-IsValid out (name ∷ key ∷ new_key ∷ []) s v =
      (find-cmd_rename Y out name key new_key s v).0
  cmd_rename-IsValid out (a ∷ b ∷ c ∷ d ∷ rest) s v = v

  cmd_expire-IsValid :
      (P : Parsers G F) (now : ℤ) (out : OutputType) (args : List Str) (s : Server Y)
      → IsValid Y s
      → IsValid Y (cmd_expire Y P now out args s).0
  unfolding cmd_expire expire_parsed
  cmd_expire-IsValid P now out [] s v = v
  cmd_expire-IsValid P now out (a ∷ []) s v = v
  cmd_expire-IsValid P now out (a ∷ b ∷ []) s v = v
  cmd_expire-IsValid P now out (a ∷ b ∷ c ∷ []) s v = v
  cmd_expire-IsValid P now out (name ∷ key ∷ id ∷ svalue ∷ []) s v =
      elim (Option-cases (P.parse_float svalue)) [
        | inl n ↦ rw n v
        | inr (x, n) ↦
            rw n
              (expire_op-Maps Y out key id (add_int64 now (P.nanos x))
                (add_int64-InInt64 now (P.nanos x)) (col_of Y s key) s refl v).0
      ]
  cmd_expire-IsValid P now out (a ∷ b ∷ c ∷ d ∷ x ∷ rest) s v = v

  cmd_persist-IsValid :
      (out : OutputType) (args : List Str) (s : Server Y)
      → IsValid Y s
      → IsValid Y (cmd_persist Y out args s).0
  unfolding cmd_persist
  cmd_persist-IsValid out [] s v = v
  cmd_persist-IsValid out (a ∷ []) s v = v
  cmd_persist-IsValid out (a ∷ b ∷ []) s v = v
  cmd_persist-IsValid out (name ∷ key ∷ id ∷ []) s v = (find-cmd_persist Y out name key id s v).0
  cmd_persist-IsValid out (a ∷ b ∷ c ∷ d ∷ rest) s v = v

  done-IsValid : (r : Outcome Y) → IsValid Y r.0 → IsValid Y (done Y r).0
  done-IsValid (s, ok (reply, d)) v = v
  done-IsValid (s, err e) v = v

  pdel_done_of-IsValid :
      {A : Type 0} (f : A → Bool) (r : Server Y × Result A)
      → IsValid Y r.0
      → IsValid Y (pdel_done_of Y f r).0
  pdel_done_of-IsValid f (s, ok a) v = v
  pdel_done_of-IsValid f (s, err e) v = v

  run_arm-IsValid :
      (E : Env G F) (arm : DataCommand) (args : List Str) (s : Server Y)
      → IsValid Y s
      → IsValid Y (run_arm Y E arm args s).0
  unfolding run_arm
  run_arm-IsValid E set_arm args s v =
      done-IsValid _ (cmd_set-IsValid Y E.parsers E.now E.out args s v)
  run_arm-IsValid E fset_arm args s v = done-IsValid _ (cmd_fset-IsValid E.parsers E.out args s v)
  run_arm-IsValid E del_arm args s v = done-IsValid _ (cmd_del-IsValid Y E.out args s v)
  run_arm-IsValid E pdel_arm args s v =
      pdel_done_of-IsValid _ _ (cmd_pdel-IsValid Y E.matcher E.out E.deadline E.ticks args s v)
  run_arm-IsValid E drop_arm args s v = done-IsValid _ (cmd_drop-IsValid E.out args s v)
  run_arm-IsValid E rename_arm args s v = done-IsValid _ (cmd_rename-IsValid E.out args s v)
  run_arm-IsValid E expire_arm args s v =
      done-IsValid _ (cmd_expire-IsValid E.parsers E.now E.out args s v)
  run_arm-IsValid E persist_arm args s v = done-IsValid _ (cmd_persist-IsValid E.out args s v)

  logged-IsValid :
      (R : Redcon) (args : List Str) (a : Aof) (r : Done Y)
      → IsValid Y r.0
      → IsValid Y (logged Y R args a r).0.0
  unfolding logged
  logged-IsValid R args a (s, ok b) v = v
  logged-IsValid R args a (s, err e) v = v

  handle_guarded-IsValid :
      (R : Redcon) (E : Env G F) (arm : DataCommand) (args : List Str) (s : Server Y) (a : Aof)
      (refused : Option Error)
      → IsValid Y s
      → IsValid Y (handle_guarded Y R E arm args s a refused).0.0
  unfolding handle_guarded
  handle_guarded-IsValid R E arm args s a none v =
      logged-IsValid R args a _ (run_arm-IsValid E arm args s v)
  handle_guarded-IsValid R E arm args s a (some x) v = v

  behind-IsValid :
      (R : Redcon) (C : Config) (E : Env G F) (arm : Option DataCommand) (name : Str)
      (args : List Str) (s : Server Y) (a : Aof)
      → IsValid Y s
      → IsValid Y (behind Y (s, a) (handle_chosen Y R C E arm name args s a)).0
  unfolding behind handle_chosen
  behind-IsValid R C E none name args s a v = v
  behind-IsValid R C E (some arm) name args s a v =
      handle_guarded-IsValid R E arm (name ∷ args) s a (refusal Y C E name) v

  -- Behind any sequence of messages, each with its own time, output and deadline, a valid server is
  -- valid: whatever their arguments, no data command leaves a collection inconsistent or empty.
  pub handle_each-IsValid :
      (R : Redcon) (C : Config) (msgs : List (Env G F × List Str)) (r : Server Y × Aof)
      → IsValid Y r.0
      → IsValid Y (handle_each Y R C msgs r).0
  unfolding handle_each handle_data behind
  handle_each-IsValid R C [] r v = v
  handle_each-IsValid R C ((E, []) ∷ msgs) r v = handle_each-IsValid R C msgs r v
  handle_each-IsValid R C ((E, name ∷ args) ∷ msgs) r v =
      handle_each-IsValid R C msgs _ (behind-IsValid R C E (data_command name) name args r.0 r.1 v)
