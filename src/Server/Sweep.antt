-- ===== src/Server/Sweep.antt =====
-- The background expiration of internal/legacy/server/expire.go: what it leaves in the server.
use spatialdb_engine.Base.{◌≡◌, refl, ◌∙◌, false, none, List, [], ◌∷◌, ◌⊎◌, inl, inr}
use spatialdb_engine.Base.Text.{Str}
use spatialdb_engine.Base.Int.{ℤ}
use spatialdb_engine.Geometry.{Geometry, FieldLists}
use spatialdb_engine.Collection.{Trees}
use spatialdb_engine.Server.{OutputType, other, Stores, Server, find}
use spatialdb_engine.Server.Delete.{del_flags, cmd_del}
use spatialdb_engine.Server.Expiry.{expired_msgs, run_dels, background_expire_objects}
use spatialdb_engine.Server.Keys.{IsValid}
use spatialdb_engine.Server.Deletes.{cmd_del-IsValid, find-del_parsed}

module _ {G : Geometry} {F : FieldLists} {X : Trees G F} (Y : Stores X) where
  -- Every object that `s'` has is the one that `s` has at the same place.
  abbrev pub Shrinks : Server Y → Server Y → Type 0
  Shrinks s s' = (k i : Str) → (find Y s' k i ≡ find Y s k i) ⊎ (find Y s' k i ≡ none)

  cmd_del-Shrinks :
      (out : OutputType) (args : List Str) (s : Server Y)
      → IsValid Y s
      → Shrinks s (cmd_del Y out args s).0
  unfolding cmd_del
  cmd_del-Shrinks out [] s v k i = inl refl
  cmd_del-Shrinks out (a ∷ []) s v k i = inl refl
  cmd_del-Shrinks out (a ∷ b ∷ []) s v k i = inl refl
  cmd_del-Shrinks out (name ∷ key ∷ id ∷ rest) s v k i =
      find-del_parsed Y out key id (del_flags rest false) s v k i

  run_dels-Shrinks :
      (msgs : List (List Str)) (s : Server Y)
      → IsValid Y s
      → IsValid Y (run_dels Y msgs s) × Shrinks s (run_dels Y msgs s)
  unfolding run_dels
  run_dels-Shrinks [] s v = (v, λ k i. inl refl)
  run_dels-Shrinks (msg ∷ msgs) s v =
      let v' = cmd_del-IsValid Y other msg s v in
      let (w, after) = run_dels-Shrinks msgs (cmd_del Y other msg s).0 v' in
      (
        w,
        λ k i. elim (after k i) [
          | inr gone ↦ inr gone
          | inl same ↦ elim (cmd_del-Shrinks other msg s v k i) [
            | inl e ↦ inl (same ∙ e)
            | inr e ↦ inr (same ∙ e)
          ]
        ],
      )

  -- The background expiration keeps the server valid. Every object of every key is afterwards as it
  -- was, or gone.
  pub background_expire_objects-IsValid :
      (nano : ℤ) (s : Server Y)
      → IsValid Y s
      → IsValid Y (background_expire_objects Y nano s).0
        × Shrinks s (background_expire_objects Y nano s).0
  unfolding background_expire_objects
  background_expire_objects-IsValid nano s v =
      run_dels-Shrinks (expired_msgs Y nano (Y.cols.items s.cols) []) s v
