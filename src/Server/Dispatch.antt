-- ===== src/Server/Dispatch.antt =====
-- The data commands in `handleInputCommand` and `command` of internal/legacy/server/server.go: the
-- choice of a command by its name, the guards of a write, and the log behind it.
pub mod Failing
pub mod Unlogged
pub mod Validity
use spatialdb_engine.Base.{
  ℕ, Bool, false, not, ◌||◌, Option, none, some, List, [], ◌∷◌, if◌then◌else◌, is_some,
}
use spatialdb_engine.Base.Text.{Str}
use spatialdb_engine.Base.Int.{ℤ}
use spatialdb_engine.Geometry.{Geometry, FieldLists}
use spatialdb_engine.Collection.{Trees}
use spatialdb_engine.Collection.Walk.{Deadline}
use spatialdb_engine.Glob.{Matcher, is_empty}
use spatialdb_engine.Server.{
  OutputType, Error, not_the_leader, read_only_error, timeout_on_cmd, Result, ok, err, Stores,
  Server, Outcome,
}
use spatialdb_engine.Server.Args.{Parsers, is_word, to_lower}
use spatialdb_engine.Server.Delete.{cmd_del, cmd_drop, cmd_rename}
use spatialdb_engine.Server.Set.{cmd_set}
use spatialdb_engine.Server.Fields.{cmd_fset}
use spatialdb_engine.Server.Expiry.{cmd_expire, cmd_persist}
use spatialdb_engine.Server.Patterns.{cmd_pdel}
use spatialdb_engine.Server.Aof.{Redcon, Aof, write_aof}

-- Eight arms of `command` that change objects: those of SET, FSET, DEL, PDEL, DROP, RENAME with
-- RENAMENX, EXPIRE and PERSIST. FLUSHDB, JSET and JDEL change objects too, and are left out.
pub data DataCommand : Type 0 where
  set_arm fset_arm del_arm pdel_arm drop_arm rename_arm expire_arm persist_arm : DataCommand

-- `switch msg.Command()`, as far as those arms go.
unfoldable pub data_command : Str → Option DataCommand
data_command name =
    if is_word "set" name
    then some set_arm
    else if is_word "fset" name
    then some fset_arm
    else if is_word "del" name
    then some del_arm
    else if is_word "pdel" name
    then some pdel_arm
    else if is_word "drop" name
    then some drop_arm
    else if is_word "rename" name || is_word "renamenx" name
    then some rename_arm
    else if is_word "expire" name
    then some expire_arm
    else if is_word "persist" name
    then some persist_arm
    else none

-- What a command depends on besides its arguments: the matcher and the parsers of the other
-- packages, the time, the output type, the deadline and the clock that it is checked against.
pub record Env (G : Geometry) (F : FieldLists) : Type 0 where
  pub matcher : Matcher
  pub parsers : Parsers G F
  pub now : ℤ
  pub out : OutputType
  pub deadline : Option Deadline
  pub ticks : ℕ → ℕ

-- `s.config.followHost()` and `s.config.readOnly()`.
pub record Config : Type 0 where
  pub follow_host : Str
  pub read_only : Bool

module _ {G : Geometry} {F : FieldLists} {X : Trees G F} (Y : Stores X) where
  -- The server behind a command, and `d.updated` or the error.
  abbrev pub Done : Type 0
  Done = Server Y × Result Bool

  abbrev pub done : Outcome Y → Done
  done (s, ok (reply, d)) = (s, ok d.updated)
  done (s, err e) = (s, err e)

  abbrev pub pdel_done_of : {A : Type 0} → (A → Bool) → Server Y × Result A → Done
  pdel_done_of updated (s, ok d) = (s, ok (updated d))
  pdel_done_of updated (s, err e) = (s, err e)

  unfoldable pub run_arm : Env G F → DataCommand → List Str → Server Y → Done
  run_arm E set_arm args s = done (cmd_set Y E.parsers E.now E.out args s)
  run_arm E fset_arm args s = done (cmd_fset Y E.parsers E.out args s)
  run_arm E del_arm args s = done (cmd_del Y E.out args s)
  run_arm E pdel_arm args s =
      pdel_done_of (λ r. r.1.updated) (cmd_pdel Y E.matcher E.out E.deadline E.ticks args s)
  run_arm E drop_arm args s = done (cmd_drop Y E.out args s)
  run_arm E rename_arm args s = done (cmd_rename Y E.out args s)
  run_arm E expire_arm args s = done (cmd_expire Y E.parsers E.now E.out args s)
  run_arm E persist_arm args s = done (cmd_persist Y E.out args s)

  -- A write does not wait for a deadline.
  unfoldable pub timeout : Env G F → Str → Option Error
  timeout E name = if is_some E.deadline then some (timeout_on_cmd (to_lower name)) else none

  -- The guards of a write, in their order.
  unfoldable pub refusal : Config → Env G F → Str → Option Error
  unfolding timeout
  refusal C E name =
      if not (is_empty C.follow_host)
      then some not_the_leader
      else if C.read_only
      then some read_only_error
      else timeout E name

  -- The server and its log behind a command, and the error that the client is told.
  abbrev pub Handled : Type 0
  Handled = (Server Y × Aof) × Option Error

  -- `if res.Type() == resp.Error || err != nil { return writeErr(...) }` and
  -- `writeAOF`, of the commands whose events need no hook. A `writeAOF` that fails ends the process.
  unfoldable pub logged : Redcon → List Str → Aof → Done → Handled
  logged R args a (s, err e) = ((s, a), some e)
  logged R args a (s, ok updated) = ((s, write_aof R args updated a), none)

  -- A refused write is not run.
  unfoldable pub handle_guarded :
      Redcon → Env G F → DataCommand → List Str → Server Y → Aof → Option Error → Handled
  unfolding run_arm logged
  handle_guarded R E arm args s a (some e) = ((s, a), some e)
  handle_guarded R E arm args s a none = logged R args a (run_arm E arm args s)

  unfoldable pub handle_chosen :
      Redcon
      → Config
      → Env G F
      → Option DataCommand
      → Str
      → List Str
      → Server Y
      → Aof
      → Option Handled
  unfolding refusal handle_guarded
  handle_chosen R C E none name args s a = none
  handle_chosen R C E (some arm) name args s a =
      some (handle_guarded R E arm (name ∷ args) s a (refusal C E name))

  -- A message; there is no answer if it is none of the data commands.
  unfoldable pub handle_data :
      Redcon → Config → Env G F → List Str → Server Y → Aof → Option Handled
  unfolding data_command handle_chosen
  handle_data R C E [] s a = none
  handle_data R C E (name ∷ args) s a = handle_chosen R C E (data_command name) name args s a

  -- The server and its log behind a message; another message than a data command is left out.
  unfoldable pub behind : Server Y × Aof → Option Handled → Server Y × Aof
  behind r none = r
  behind r (some h) = h.0

  -- One message after the other, each with its own time, output and deadline.
  unfoldable pub handle_each :
      Redcon → Config → List (Env G F × List Str) → Server Y × Aof → Server Y × Aof
  unfolding handle_data behind
  handle_each R C [] r = r
  handle_each R C ((E, args) ∷ msgs) r =
      handle_each R C msgs (behind r (handle_data R C E args r.0 r.1))
