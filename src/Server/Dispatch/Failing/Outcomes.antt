-- ===== src/Server/Dispatch/Failing/Outcomes.antt =====
-- Outcomes of the commands of internal/legacy/server/crud.go that leave the objects alone.
use spatialdb_engine.Base.{◌≡◌, refl, Bool, true, false, if◌then◌else◌}
use spatialdb_engine.Base.Text.{Str}
use spatialdb_engine.Geometry.{Geometry, FieldLists}
use spatialdb_engine.Collection.{Trees}
use spatialdb_engine.Server.{Error, Result, ok, err, Stores, Server, Outcome, find}

module _ {G : Geometry} {F : FieldLists} {X : Trees G F} (Y : Stores X) where
  -- Behind an error every object is found as before.
  abbrev pub Unchanged : {A : Type 0} → Server Y → Server Y × Result A → Type 0
  Unchanged s r = (e : Error) → r.1 ≡ err e → (k i : Str) → find Y r.0 k i ≡ find Y s k i

  abbrev pub Fails : Server Y → Outcome Y → Type 0
  Fails s r = Unchanged s r

  pub if-Fails :
      (b : Bool) (s : Server Y) (x y : Outcome Y)
      → (b ≡ true → Fails s x)
      → (b ≡ false → Fails s y)
      → Fails s (if b then x else y)
  if-Fails true s x y p q = p refl
  if-Fails false s x y p q = q refl

  -- An answer without an error.
  pub ok-Fails : {A : Type 0} (s s' : Server Y) (a : A) → Unchanged s (s', ok a)
  ok-Fails s s' a e h k i = cc

  -- A command that the memory limit, or the number of its arguments, refuses.
  pub refused-Fails :
      (b : Bool) (d e : Error) (s : Server Y) → Fails s (if b then (s, err d) else (s, err e))
  refused-Fails b d e s = if-Fails _ s _ _ (λ t e h k i. refl) (λ t e h k i. refl)

  abbrev pub updates : Outcome Y → Bool
  updates (s, ok (reply, d)) = d.updated
  updates (s, err e) = false

  -- Behind a command that does not update, be it for an error, every object is found as before.
  abbrev pub Quiet : Server Y → Outcome Y → Type 0
  Quiet s r = updates r ≡ false → (k i : Str) → find Y r.0 k i ≡ find Y s k i

  pub Quiet-Fails : (s : Server Y) (r : Outcome Y) → Quiet s r → Fails s r
  Quiet-Fails s (s', ok a) q e h k i = cc
  Quiet-Fails s (s', err x) q e h k i = q refl k i

  pub if-Quiet :
      (b : Bool) (s : Server Y) (x y : Outcome Y)
      → (b ≡ true → Quiet s x)
      → (b ≡ false → Quiet s y)
      → Quiet s (if b then x else y)
  if-Quiet true s x y p q = p refl
  if-Quiet false s x y p q = q refl

  pub refused-Quiet :
      (b : Bool) (d e : Error) (s : Server Y) → Quiet s (if b then (s, err d) else (s, err e))
  refused-Quiet b d e s = if-Quiet _ s _ _ (λ t h k i. refl) (λ t h k i. refl)
