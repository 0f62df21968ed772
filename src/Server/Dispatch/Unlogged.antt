-- ===== src/Server/Dispatch/Unlogged.antt =====
-- Data commands of internal/legacy/server/server.go that write nothing to the log: the objects behind
-- them.
use mathlib.Core.Path.{subst}
use spatialdb_engine.Base.{
  ◌<◌, ◌≡◌, refl, sym, ap, ◌∙◌, Bool, true, false, Option, none, some, List, [], ◌∷◌, ◌++◌, arith,
  if◌then◌else◌, length, length-append,
}
use spatialdb_engine.Base.Text.{Str}
use spatialdb_engine.Geometry.{Geometry, FieldLists}
use spatialdb_engine.Collection.{Trees}
use spatialdb_engine.Server.{Error, Result, ok, err, Stores, Server, Outcome, col_of, find}
use spatialdb_engine.Server.Patterns.{pdel_ids, cmd_pdel}
use spatialdb_engine.Server.Keys.{IsValid}
use spatialdb_engine.Server.Aof.{Redcon, IsRedcon, Aof, Starts, encode, write_aof}
use spatialdb_engine.Server.Aof.Written.{append_command-append, encode-Starts}
use spatialdb_engine.Server.Dispatch.{
  DataCommand, set_arm, fset_arm, del_arm, pdel_arm, drop_arm, rename_arm, expire_arm, persist_arm,
  Env, Config, Done, done, run_arm, refusal, logged, Handled, data_command, handle_guarded,
  handle_chosen, handle_data,
}
use spatialdb_engine.Server.Dispatch.Failing.Outcomes.{Quiet}
use spatialdb_engine.Server.Dispatch.Failing.Writes.{cmd_set-Quiet}
use spatialdb_engine.Server.Dispatch.Failing.Removals.{
  cmd_del-Quiet, cmd_drop-Quiet, cmd_rename-Quiet,
}
use spatialdb_engine.Server.Dispatch.Failing.Expiry.{cmd_expire-Quiet, cmd_persist-Quiet}
use spatialdb_engine.Server.Dispatch.Failing.Purges.{pdel_op-quiet}

-- An FSET writes its object also where no field changes.
abbrev pub is_fset : DataCommand → Bool
is_fset fset_arm = true
is_fset _ = false

Starts-length : (d : Str) → Starts d → 0 < length d
Starts-length [] h = elim h [ ]
Starts-length (c ∷ d) h = omega arith

append-grows : (a b : Str) → 0 < length b → a ++ b ≡ a → true ≡ false
append-grows a b h e = let n = ap length e in ground (arith, length-append a b)

if_true : {A : Type 0} (b : Bool) (x y : A) → b ≡ true → (if b then x else y) ≡ x
if_true b x y h = rw h refl

module _ {G : Geometry} {F : FieldLists} {X : Trees G F} (Y : Stores X) where
  abbrev has_updated : Result Bool → Bool
  has_updated (ok b) = b
  has_updated (err e) = false

  abbrev Silent : Server Y → Done Y → Type 0
  Silent s r = has_updated r.1 ≡ false → (k i : Str) → find Y r.0 k i ≡ find Y s k i

  done-Silent : (s : Server Y) (r : Outcome Y) → Quiet Y s r → Silent s (done Y r)
  done-Silent s (s', ok (reply, d)) q = q
  done-Silent s (s', err e) q = q

  pdel-Silent :
      (E : Env G F) (args : List Str) (s : Server Y)
      → IsValid Y s
      → Silent s (run_arm Y E pdel_arm args s)
  unfolding run_arm cmd_pdel
  pdel-Silent E [] s v = λ h k i. refl
  pdel-Silent E (a ∷ []) s v = λ h k i. refl
  pdel-Silent E (a ∷ b ∷ []) s v = λ h k i. refl
  pdel-Silent E (name ∷ key ∷ pattern ∷ []) s v =
      pdel_op-quiet Y key (pdel_ids Y E.matcher pattern E.deadline E.ticks) (col_of Y s key) s refl
        v
  pdel-Silent E (a ∷ b ∷ c ∷ d ∷ rest) s v = λ h k i. refl

  run_arm-Silent :
      (E : Env G F) (arm : DataCommand) (args : List Str) (s : Server Y)
      → is_fset arm ≡ false
      → IsValid Y s
      → Silent s (run_arm Y E arm args s)
  unfolding run_arm
  run_arm-Silent E set_arm args s f v =
      done-Silent s _ (cmd_set-Quiet Y E.parsers E.now E.out args s)
  run_arm-Silent E fset_arm args s f v = λ h k i. cc
  run_arm-Silent E del_arm args s f v = done-Silent s _ (cmd_del-Quiet Y E.out args s)
  run_arm-Silent E pdel_arm args s f v = pdel-Silent E args s v
  run_arm-Silent E drop_arm args s f v = done-Silent s _ (cmd_drop-Quiet Y E.out args s)
  run_arm-Silent E rename_arm args s f v = done-Silent s _ (cmd_rename-Quiet Y E.out args s)
  run_arm-Silent E expire_arm args s f v =
      done-Silent s _ (cmd_expire-Quiet Y E.parsers E.now E.out args s)
  run_arm-Silent E persist_arm args s f v = done-Silent s _ (cmd_persist-Quiet Y E.out args s)

  module _ (R : Redcon) (law : IsRedcon R) where
    -- What updates is written.
    write_aof-grows :
        (args : List Str) (a : Aof) → a.has_file ≡ true → write_aof R args true a ≡ a → true ≡ false
    unfolding write_aof
    write_aof-grows args a o e =
        append-grows a.buf (encode R args)
          (Starts-length (encode R args) (encode-Starts R law args))
          (sym (append_command-append R law a.buf args)
            ∙ sym (if_true a.has_file _ _ o)
            ∙ ap (λ x. x.buf) e)

    -- The objects stay where the log does.
    abbrev FollowsLog : Server Y → Aof → Handled Y → Type 0
    FollowsLog s a h = a.has_file ≡ true → h.0.1 ≡ a → (k i : Str) → find Y h.0.0 k i ≡ find Y s k i

    logged-FollowsLog :
        (args : List Str) (a : Aof) (s : Server Y) (r : Done Y)
        → Silent s r
        → FollowsLog s a (logged Y R args a r)
    unfolding logged
    logged-FollowsLog args a s (s', ok true) q o e k i = let w = write_aof-grows args a o e in cc
    logged-FollowsLog args a s (s', ok false) q o e k i = q refl k i
    logged-FollowsLog args a s (s', err x) q o e k i = q refl k i

    handle_guarded-FollowsLog :
        (E : Env G F) (arm : DataCommand) (args : List Str) (s : Server Y) (a : Aof)
        (refused : Option Error)
        → is_fset arm ≡ false
        → IsValid Y s
        → FollowsLog s a (handle_guarded Y R E arm args s a refused)
    unfolding handle_guarded
    handle_guarded-FollowsLog E arm args s a none f v =
        logged-FollowsLog args a s _ (run_arm-Silent E arm args s f v)
    handle_guarded-FollowsLog E arm args s a (some x) f v = λ o e k i. refl

    -- On a valid server with a log, a SET, DEL, PDEL, DROP, RENAME, RENAMENX, EXPIRE or PERSIST that
    -- leaves the log as it was leaves every object as it was.
    pub handle_data-unlogged :
        (C : Config) (E : Env G F) (arm : DataCommand) (name : Str) (args : List Str) (s : Server Y)
        (a : Aof) (r : Handled Y)
        → data_command name ≡ some arm
        → is_fset arm ≡ false
        → IsValid Y s
        → handle_data Y R C E (name ∷ args) s a ≡ some r
        → a.has_file ≡ true
        → r.0.1 ≡ a
        → (k i : Str) → find Y r.0.0 k i ≡ find Y s k i
    unfolding handle_data handle_chosen
    handle_data-unlogged C E arm name args s a r n f v m =
        let same : handle_guarded Y R E arm (name ∷ args) s a (refusal Y C E name) ≡ r =
          (let e = ap (λ x. handle_chosen Y R C E x name args s a) (sym n) in cc) in
        subst (FollowsLog s a) same
          (handle_guarded-FollowsLog E arm (name ∷ args) s a (refusal Y C E name) f v)
