-- ===== src/Server/Dispatch/Failing.antt =====
-- Data commands of internal/legacy/server/server.go that fail: the objects and the log behind them.
pub mod Outcomes
pub mod Writes
pub mod Removals
pub mod Expiry
pub mod Purges
use mathlib.Core.Option
use mathlib.Core.Path.{subst}
use spatialdb_engine.Base.{
  ℕ, ◌≡◌, refl, sym, ap, ◌∙◌, Bool, true, false, not, ◌&&◌, ◌||◌, Option, none, some, List, [], ◌∷◌,
  arith, if◌then◌else◌, Option-cases, Bool-cases, inl, inr, is_some,
}
use spatialdb_engine.Base.Text.{Str, str_eq, str_eq_iff}
use spatialdb_engine.Base.Int.{ℤ, pos}
use spatialdb_engine.Geometry.{Geometry, FieldLists}
use spatialdb_engine.Object.{Object, Geo, object_geo, object_expires, new_object}
use spatialdb_engine.Varint.{is_zero}
use spatialdb_engine.Collection
use spatialdb_engine.Collection.{Trees, Collection}
use spatialdb_engine.Collection.Invariant.{get-delete}
use spatialdb_engine.Server.{
  OutputType, json, resp, other, is_json, is_resp, Error, key_not_found, id_not_found, add_int64,
  Reply, json_ok, integer, nothing, object, Result, ok, err, Stores, Server, Outcome, col_of,
  put_col, find,
}
use spatialdb_engine.Server.Args.{Parsers}
use spatialdb_engine.Server.SetArgs.{Options, no_options, set_args}
use spatialdb_engine.Server.Delete.{
  has_hook_on, del_flags, del_done, del_from, del_op, del_parsed, cmd_del, cmd_drop, rename_op,
  cmd_rename,
}
use spatialdb_engine.Server.Set.{nada, store, set_in, set_op, set_geo, set_parsed, cmd_set}
use spatialdb_engine.Server.Fields.{
  update_fields, FieldOptions, no_field_options, fset_args, fset_reply, fset_found, fset_in,
  fset_op, fset_parsed, cmd_fset,
}
use spatialdb_engine.Server.Expiry.{
  persist_missing, expire_in, expire_op, expire_parsed, cmd_expire, persist_in, persist_op,
  cmd_persist,
}
use spatialdb_engine.Server.Patterns.{cmd_pdel}
use spatialdb_engine.Server.Keys.{find-put_col, find_col}
use spatialdb_engine.Server.Writes.{set_op_fresh, set_in_fresh}
use spatialdb_engine.Server.Aof.{Redcon, Aof}
use spatialdb_engine.Server.Dispatch.{
  DataCommand, set_arm, fset_arm, del_arm, pdel_arm, drop_arm, rename_arm, expire_arm, persist_arm,
  Env, Config, Done, done, run_arm, refusal, logged, Handled, data_command, handle_guarded,
  handle_chosen, handle_data,
}
use spatialdb_engine.Server.Dispatch.Failing.Outcomes.{
  Quiet-Fails, Fails, Unchanged, if-Fails, ok-Fails, refused-Fails,
}
use spatialdb_engine.Server.Dispatch.Failing.Writes.{cmd_set-Quiet, cmd_fset-Fails}
use spatialdb_engine.Server.Dispatch.Failing.Removals.{
  cmd_del-Quiet, cmd_drop-Quiet, cmd_rename-Quiet,
}
use spatialdb_engine.Server.Dispatch.Failing.Expiry.{cmd_expire-Quiet, cmd_persist-Quiet}

module _ {G : Geometry} {F : FieldLists} {X : Trees G F} (Y : Stores X) where
  cmd_pdel-Unchanged :
      (E : Env G F) (args : List Str) (s : Server Y) → Unchanged Y s (run_arm Y E pdel_arm args s)
  unfolding run_arm cmd_pdel
  cmd_pdel-Unchanged E [] s = λ e h k i. refl
  cmd_pdel-Unchanged E (a ∷ []) s = λ e h k i. refl
  cmd_pdel-Unchanged E (a ∷ b ∷ []) s = λ e h k i. refl
  cmd_pdel-Unchanged E (name ∷ key ∷ pattern ∷ []) s = ok-Fails Y s _ _
  cmd_pdel-Unchanged E (a ∷ b ∷ c ∷ d ∷ rest) s = λ e h k i. refl

  done-Unchanged : (s : Server Y) (r : Outcome Y) → Fails Y s r → Unchanged Y s (done Y r)
  done-Unchanged s (s', ok (reply, d)) f e h k i = ok-Fails Y s s' d.updated e h k i
  done-Unchanged s (s', err x) f e h k i = f x refl k i

  run_arm-Unchanged :
      (E : Env G F) (arm : DataCommand) (args : List Str) (s : Server Y)
      → Unchanged Y s (run_arm Y E arm args s)
  unfolding run_arm
  run_arm-Unchanged E set_arm args s =
      done-Unchanged s _ (Quiet-Fails Y s _ (cmd_set-Quiet Y E.parsers E.now E.out args s))
  run_arm-Unchanged E fset_arm args s = done-Unchanged s _ (cmd_fset-Fails Y E.parsers E.out args s)
  run_arm-Unchanged E del_arm args s =
      done-Unchanged s _ (Quiet-Fails Y s _ (cmd_del-Quiet Y E.out args s))
  run_arm-Unchanged E pdel_arm args s = cmd_pdel-Unchanged E args s
  run_arm-Unchanged E drop_arm args s =
      done-Unchanged s _ (Quiet-Fails Y s _ (cmd_drop-Quiet Y E.out args s))
  run_arm-Unchanged E rename_arm args s =
      done-Unchanged s _ (Quiet-Fails Y s _ (cmd_rename-Quiet Y E.out args s))
  run_arm-Unchanged E expire_arm args s =
      done-Unchanged s _ (Quiet-Fails Y s _ (cmd_expire-Quiet Y E.parsers E.now E.out args s))
  run_arm-Unchanged E persist_arm args s =
      done-Unchanged s _ (Quiet-Fails Y s _ (cmd_persist-Quiet Y E.out args s))

  -- The objects and the log that an error leaves.
  abbrev pub Keeps : Server Y → Aof → Handled Y → Type 0
  Keeps s a h = ((k i : Str) → find Y h.0.0 k i ≡ find Y s k i) × (h.0.1 ≡ a)

  logged-Keeps :
      (R : Redcon) (args : List Str) (a : Aof) (s : Server Y) (r : Done Y) (e : Error)
      → Unchanged Y s r
      → (logged Y R args a r).1 ≡ some e
      → Keeps s a (logged Y R args a r)
  unfolding logged
  logged-Keeps R args a s (s', err x) e u h = (u x refl, refl)
  logged-Keeps R args a s (s', ok b) e u h = cc

  handle_guarded-Keeps :
      (R : Redcon) (E : Env G F) (arm : DataCommand) (args : List Str) (s : Server Y) (a : Aof)
      (refused : Option Error) (e : Error)
      → (handle_guarded Y R E arm args s a refused).1 ≡ some e
      → Keeps s a (handle_guarded Y R E arm args s a refused)
  unfolding handle_guarded
  handle_guarded-Keeps R E arm args s a none e =
      logged-Keeps R args a s _ e (run_arm-Unchanged E arm args s)
  handle_guarded-Keeps R E arm args s a (some x) e = λ h. ((λ k i. refl), refl)

  handle_chosen-Keeps :
      (R : Redcon) (C : Config) (E : Env G F) (arm : Option DataCommand) (name : Str)
      (args : List Str) (s : Server Y) (a : Aof) (r : Handled Y) (e : Error)
      → handle_chosen Y R C E arm name args s a ≡ some r
      → r.1 ≡ some e
      → Keeps s a r
  unfolding handle_chosen
  handle_chosen-Keeps R C E none name args s a r e n h = cc
  handle_chosen-Keeps R C E (some arm) name args s a r e n h =
      let same : handle_guarded Y R E arm (name ∷ args) s a (refusal Y C E name) ≡ r = cc in
      subst (λ x. Keeps s a x) same
        (handle_guarded-Keeps R E arm (name ∷ args) s a (refusal Y C E name) e
          (ap (λ x. x.1) same ∙ h))

  -- A data command that the server answers with an error changes no object and writes nothing to the
  -- log, whichever command, arguments and guard it is that fails.
  pub handle_data-error :
      (R : Redcon) (C : Config) (E : Env G F) (args : List Str) (s : Server Y) (a : Aof)
      (r : Handled Y) (e : Error)
      → handle_data Y R C E args s a ≡ some r
      → r.1 ≡ some e
      → ((k i : Str) → find Y r.0.0 k i ≡ find Y s k i) × (r.0.1 ≡ a)
  unfolding handle_data
  handle_data-error R C E [] s a r e n h = cc
  handle_data-error R C E (name ∷ args) s a r e n h =
      handle_chosen-Keeps R C E (data_command name) name args s a r e n h
