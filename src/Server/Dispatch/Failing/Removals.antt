-- ===== src/Server/Dispatch/Failing/Removals.antt =====
-- DEL, DROP, RENAME and RENAMENX of internal/legacy/server/crud.go that fail or do not update.
use spatialdb_engine.Base.{
  ◌≡◌, refl, Bool, true, false, Option, none, some, List, [], ◌∷◌, arith, Option-cases, inl, inr,
}
use spatialdb_engine.Base.Text.{Str, str_eq_iff}
use spatialdb_engine.Geometry.{Geometry, FieldLists}
use spatialdb_engine.Object.{Object}
use spatialdb_engine.Collection
use spatialdb_engine.Collection.{Trees, Collection}
use spatialdb_engine.Collection.Invariant.{get-delete}
use spatialdb_engine.Server.{OutputType, Result, ok, err, Stores, Server, col_of, find}
use spatialdb_engine.Server.Delete.{
  has_hook_on, del_flags, del_done, del_from, del_op, del_parsed, cmd_del, cmd_drop, drop_op,
  rename_op, cmd_rename,
}
use spatialdb_engine.Server.Keys.{find-put_col, find_col}
use spatialdb_engine.Server.Dispatch.Failing.Outcomes.{Quiet, if-Quiet}

module _ {G : Geometry} {F : FieldLists} {X : Trees G F} (Y : Stores X) where
  -- A DEL fails, or does not update, only where there was nothing to delete.
  del_from-Quiet :
      (out : OutputType) (key id : Str) (erron404 : Bool) (c : Collection X)
      (old : Option (Object G F)) (s : Server Y)
      → (old ≡ none → (j : Str) → Collection.get X c j ≡ find Y s key j)
      → Quiet Y s (del_from Y out key id erron404 c old s)
  unfolding del_from del_done find
  del_from-Quiet out key id erron404 c (some o) s same = λ h k i. cc
  del_from-Quiet out key id erron404 c none s same =
      if-Quiet Y erron404 s _ _
        (λ t h k i. ground (arith, find-put_col Y s key k i c, same refl i, str_eq_iff key k))
        (λ t h k i. ground (arith, find-put_col Y s key k i c, same refl i, str_eq_iff key k))

  del_op-Quiet :
      (out : OutputType) (key id : Str) (erron404 : Bool) (col : Option (Collection X))
      (s : Server Y)
      → col_of Y s key ≡ col
      → Quiet Y s (del_op Y out key id erron404 col s)
  unfolding del_op del_done find
  del_op-Quiet out key id erron404 none s n =
      if-Quiet Y erron404 s _ _ (λ t h k i. refl) (λ t h k i. refl)
  del_op-Quiet out key id erron404 (some c) s n =
      del_from-Quiet out key id erron404 (Collection.delete X c id).0 (Collection.delete X c id).1 s
        (λ absent j. ground (
          arith,
          (get-delete X c id).0 j,
          (get-delete X c id).1,
          find_col Y s key j c n,
          str_eq_iff id j,
        ))

  del_parsed-Quiet :
      (out : OutputType) (key id : Str) (b : Result Bool) (s : Server Y)
      → Quiet Y s (del_parsed Y out key id b s)
  unfolding del_parsed
  del_parsed-Quiet out key id (err e) s = λ h k i. refl
  del_parsed-Quiet out key id (ok b) s = del_op-Quiet out key id b (col_of Y s key) s refl

  pub cmd_del-Quiet :
      (out : OutputType) (args : List Str) (s : Server Y) → Quiet Y s (cmd_del Y out args s)
  unfolding cmd_del
  cmd_del-Quiet out [] s = λ h k i. refl
  cmd_del-Quiet out (a ∷ []) s = λ h k i. refl
  cmd_del-Quiet out (a ∷ b ∷ []) s = λ h k i. refl
  cmd_del-Quiet out (name ∷ key ∷ id ∷ rest) s =
      del_parsed-Quiet out key id (del_flags rest false) s

  pub cmd_drop-Quiet :
      (out : OutputType) (args : List Str) (s : Server Y) → Quiet Y s (cmd_drop Y out args s)
  unfolding cmd_drop drop_op find
  cmd_drop-Quiet out [] s = λ h k i. refl
  cmd_drop-Quiet out (a ∷ []) s = λ h k i. refl
  cmd_drop-Quiet out (name ∷ key ∷ []) s = elim (Option-cases (col_of Y s key)) [
    | inl n ↦ rw n (λ h k i. refl)
    | inr (c, n) ↦ rw n (λ h k i. cc)
  ]
  cmd_drop-Quiet out (a ∷ b ∷ c ∷ rest) s = λ h k i. refl

  pub cmd_rename-Quiet :
      (out : OutputType) (args : List Str) (s : Server Y) → Quiet Y s (cmd_rename Y out args s)
  unfolding cmd_rename rename_op
  cmd_rename-Quiet out [] s = λ h k i. refl
  cmd_rename-Quiet out (a ∷ []) s = λ h k i. refl
  cmd_rename-Quiet out (a ∷ b ∷ []) s = λ h k i. refl
  cmd_rename-Quiet out (name ∷ key ∷ new_key ∷ []) s = elim (Option-cases (col_of Y s key)) [
    | inl n ↦ rw n (λ h k i. refl)
    | inr (c, n) ↦ rw n (
        if-Quiet Y (has_hook_on false key new_key s.hooks) s _ _ (λ t h k i. refl)
          (λ t.
            if-Quiet Y (has_hook_on true key new_key s.hooks) s _ _ (λ u h k i. refl)
              (λ u h k i. rw h refl)))
  ]
  cmd_rename-Quiet out (a ∷ b ∷ c ∷ d ∷ rest) s = λ h k i. refl
