-- ===== src/Server/Dispatch/Failing/Expiry.antt =====
-- EXPIRE and PERSIST of internal/legacy/server/crud.go that fail or do not update.
use mathlib.Core.Option
use spatialdb_engine.Base.{refl, not, Option, none, some, List, [], ◌∷◌, Option-cases, inl, inr}
use spatialdb_engine.Base.Text.{Str}
use spatialdb_engine.Base.Int.{ℤ}
use spatialdb_engine.Geometry.{Geometry, FieldLists}
use spatialdb_engine.Object.{object_expires}
use spatialdb_engine.Varint.{is_zero}
use spatialdb_engine.Collection
use spatialdb_engine.Collection.{Trees, Collection}
use spatialdb_engine.Server.{
  OutputType, is_resp, Error, key_not_found, id_not_found, add_int64, Stores, Server, col_of,
}
use spatialdb_engine.Server.Args.{Parsers}
use spatialdb_engine.Server.Expiry.{
  persist_missing, expire_in, expire_op, expire_parsed, cmd_expire, persist_in, persist_op,
  cmd_persist,
}
use spatialdb_engine.Server.Dispatch.Failing.Outcomes.{Quiet, if-Quiet}

module _ {G : Geometry} {F : FieldLists} {X : Trees G F} (Y : Stores X) where
  expire_op-Quiet :
      (out : OutputType) (key id : Str) (ex : ℤ) (col : Option (Collection X)) (s : Server Y)
      → Quiet Y s (expire_op Y out key id ex col s)
  unfolding expire_op expire_in
  expire_op-Quiet out key id ex none s = λ h k i. refl
  expire_op-Quiet out key id ex (some c) s = elim (Option-cases (Collection.get X c id)) [
    | inl n ↦ rw n (λ h k i. refl)
    | inr (o, n) ↦ rw n (λ h k i. cc)
  ]

  pub cmd_expire-Quiet :
      (P : Parsers G F) (now : ℤ) (out : OutputType) (args : List Str) (s : Server Y)
      → Quiet Y s (cmd_expire Y P now out args s)
  unfolding cmd_expire expire_parsed
  cmd_expire-Quiet P now out [] s = λ h k i. refl
  cmd_expire-Quiet P now out (a ∷ []) s = λ h k i. refl
  cmd_expire-Quiet P now out (a ∷ b ∷ []) s = λ h k i. refl
  cmd_expire-Quiet P now out (a ∷ b ∷ c ∷ []) s = λ h k i. refl
  cmd_expire-Quiet P now out (name ∷ key ∷ id ∷ svalue ∷ []) s =
      elim (Option-cases (Option.map P.nanos (P.parse_float svalue))) [
        | inl n ↦ rw n (λ h k i. refl)
        | inr (v, n) ↦ rw n (expire_op-Quiet out key id (add_int64 now v) (col_of Y s key) s)
      ]
  cmd_expire-Quiet P now out (a ∷ b ∷ c ∷ d ∷ x ∷ rest) s = λ h k i. refl

  persist_missing-Quiet :
      (out : OutputType) (e : Error) (s : Server Y) → Quiet Y s (persist_missing Y out e s)
  persist_missing-Quiet out e s = if-Quiet Y (is_resp out) s _ _ (λ t h k i. refl) (λ t h k i. refl)

  persist_op-Quiet :
      (out : OutputType) (key id : Str) (col : Option (Collection X)) (s : Server Y)
      → Quiet Y s (persist_op Y out key id col s)
  unfolding persist_op persist_in
  persist_op-Quiet out key id none s = persist_missing-Quiet out key_not_found s
  persist_op-Quiet out key id (some c) s = elim (Option-cases (Collection.get X c id)) [
    | inl n ↦ rw n (persist_missing-Quiet out id_not_found s)
    | inr (o, n) ↦
        rw n (if-Quiet Y (not (is_zero (object_expires o))) s _ _ (λ t h k i. cc) (λ t h k i. refl))
  ]

  pub cmd_persist-Quiet :
      (out : OutputType) (args : List Str) (s : Server Y) → Quiet Y s (cmd_persist Y out args s)
  unfolding cmd_persist
  cmd_persist-Quiet out [] s = λ h k i. refl
  cmd_persist-Quiet out (a ∷ []) s = λ h k i. refl
  cmd_persist-Quiet out (a ∷ b ∷ []) s = λ h k i. refl
  cmd_persist-Quiet out (name ∷ key ∷ id ∷ []) s = persist_op-Quiet out key id (col_of Y s key) s
  cmd_persist-Quiet out (a ∷ b ∷ c ∷ d ∷ rest) s = λ h k i. refl
