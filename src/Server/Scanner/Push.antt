-- ===== src/Server/Scanner/Push.antt =====
-- `pushObject` of internal/legacy/server/scanner.go: what it collects in a search.
use spatialdb_engine.Base.{
  ℕ, zero, suc, ◌+◌, ◌-◌, ◌%◌, ◌^◌, ◌==◌, ◌<◌, ◌≡◌, refl, sym, ap, ◌∙◌, Bool, true, false, not,
  none, some, List, [], ◌∷◌, ◌++◌, map, arith, keep_if, take, Bool-cases, Option-cases, inl, inr,
  is_some,
}
use mathlib.Core.List.{append_assoc, append-nil}
use spatialdb_engine.Base.Text.{Str}
use spatialdb_engine.Geometry.{Geometry, FieldLists}
use spatialdb_engine.Object.{Object}
use spatialdb_engine.Field.{Numbers}
use spatialdb_engine.Collection.Walk.{feed}
use spatialdb_engine.Server.Filter.{Filters}
use spatialdb_engine.Server.Scanner.{
  Search, Found, no_found, is_counted, test_object, keep_object, push_tested, push_object,
}

drop-step :
    {A : Type 0} (p : A → Bool) (x : A) (l : List A) → p x ≡ false → keep_if p (x ∷ l) ≡ keep_if p l
drop-step p x l h = ground arith

keep-step :
    {A : Type 0} (p : A → Bool) (x : A) (l : List A)
    → p x ≡ true
    → keep_if p (x ∷ l) ≡ x ∷ keep_if p l
keep-step p x l h = ground arith

take-nil : {A : Type 0} (n : ℕ) → take {A = A} n [] ≡ []
take-nil zero = refl
take-nil (suc n) = refl

module _ {N : Numbers} {G : Geometry} {F : FieldLists} (P : Filters N G F) (w : Search P) where
  abbrev pub passes : Object G F → Bool
  passes o = elim (test_object P w o) [ some b ↦ b | none ↦ false ]

  keep-failed :
      (o : Object G F) (l : List (Object G F))
      → test_object P w o ≡ some false
      → keep_if passes (o ∷ l) ≡ keep_if passes l
  keep-failed o l n = drop-step passes o l (ap (λ t. elim t [ some b ↦ b | none ↦ false ]) n)

  keep-passed :
      (o : Object G F) (l : List (Object G F))
      → test_object P w o ≡ some true
      → keep_if passes (o ∷ l) ≡ o ∷ keep_if passes l
  keep-passed o l n = keep-step passes o l (ap (λ t. elim t [ some b ↦ b | none ↦ false ]) n)

  abbrev pub objects_of_list : List (Str × Object G F) → List (Object G F)
  objects_of_list = map (λ (e : Str × Object G F). e.1)

  -- No script fails.
  abbrev pub Answers : Type 0
  Answers = (o : Object G F) → is_some (test_object P w o) ≡ true

  push-failed :
      (names : F.Fields → List Str) (o : Object G F) (r : Found P)
      → test_object P w o ≡ some false
      → push_object P w names o (some r) ≡ (true, some r)
  unfolding push_object push_tested
  push-failed names o r e = rw e refl

  push-passed :
      (names : F.Fields → List Str) (o : Object G F) (r : Found P)
      → test_object P w o ≡ some true
      → push_object P w names o (some r)
        ≡ ((keep_object P w names o r).0, some (keep_object P w names o r).1)
  unfolding push_object push_tested
  push-passed names o r e = rw e refl

  -- A kept object is the last of the found ones, and the limit ends the search.
  keep_object_lem :
      (names : F.Fields → List Str) (o : Object G F) (r : Found P)
      → is_counted w.output ≡ false
      → w.limit < 2 ^ 64
      → r.number_items < w.limit
      → ((keep_object P w names o r).0 ≡ not (r.number_items + 1 == w.limit))
        × ((keep_object P w names o r).1.filled ≡ r.filled ++ o ∷ [])
        × ((keep_object P w names o r).1.number_items ≡ r.number_items + 1)
  unfolding keep_object
  keep_object_lem names o r out size room =
      let wrap : (r.number_items + 1) % 2 ^ 64 ≡ r.number_items + 1 = omega arith in
      elim (Bool-cases (r.number_items + 1 == w.limit)) [
        | inl t ↦ rw (out, wrap, t) (refl, refl, refl)
        | inr f ↦ rw (out, wrap, f) (refl, refl, refl)
      ]

  -- The callback collects the objects that pass, up to the limit.
  feed-push_object :
      (names : F.Fields → List Str) (l : List (Object G F)) (r : Found P)
      → Answers
      → is_counted w.output ≡ false
      → w.limit < 2 ^ 64
      → r.number_items < w.limit
      → (r' : Found P) × ((feed (push_object P w names) l (some r)).1 ≡ some r')
        × (r'.filled ≡ r.filled ++ take (w.limit - r.number_items) (keep_if passes l))
  unfolding feed
  feed-push_object names [] r answers out size room = (
    r,
    refl,
    sym (ap (λ m. r.filled ++ m) (take-nil (w.limit - r.number_items)) ∙ append-nil r.filled),
  )
  feed-push_object names (o ∷ l) r answers out size room = elim (Option-cases (test_object P w o)) [
    | inl n ↦ absurd (ground (arith, answers o))
    | inr (false, n) ↦
        let (r', done, eq) = feed-push_object names l r answers out size room in
        (
          r',
          rw (push-failed names o r n) done,
          eq ∙ ap (λ m. r.filled ++ take (w.limit - r.number_items) m) (sym (keep-failed o l n)),
        )
    | inr (true, n) ↦
        let kept = keep_object P w names o r in
        let (go, added, number) = keep_object_lem names o r out size room in
        let left : w.limit - r.number_items ≡ suc (w.limit - (r.number_items + 1)) = omega arith in
        let goal_eq =
          ap (λ m. r.filled ++ take (w.limit - r.number_items) m) (keep-passed o l n)
          ∙ ap (λ m. r.filled ++ take m (o ∷ keep_if passes l)) left in
        elim (Bool-cases (r.number_items + 1 == w.limit)) [
          | inl t ↦
              let none_left : w.limit - (r.number_items + 1) ≡ 0 = ground arith in
              (
                kept.1,
                rw (push-passed names o r n, go, t) refl,
                added
                    ∙ sym (goal_eq ∙ ap (λ m. r.filled ++ o ∷ take m (keep_if passes l)) none_left),
              )
          | inr f ↦
              let (r', done, eq) =
                feed-push_object names l kept.1 answers out size (ground (arith, number)) in
              (
                r',
                rw (push-passed names o r n, go, f) done,
                eq
                    ∙ ap (λ m. kept.1.filled ++ take (w.limit - m) (keep_if passes l)) number
                    ∙ ap (λ m. m ++ take (w.limit - (r.number_items + 1)) (keep_if passes l)) added
                    ∙ append_assoc r.filled (o ∷ []) _
                    ∙ sym goal_eq,
              )
        ]
  ]

  -- The found objects of a search from the start.
  pub feed-no_found :
      (names : F.Fields → List Str) (l : List (Object G F))
      → Answers
      → is_counted w.output ≡ false
      → w.limit < 2 ^ 64
      → 0 < w.limit
      → (r : Found P) × ((feed (push_object P w names) l (some (no_found P))).1 ≡ some r)
        × (r.filled ≡ take w.limit (keep_if passes l))
  feed-no_found names l answers out size room =
      let (r, done, eq) = feed-push_object names l (no_found P) answers out size room in
      let whole : w.limit - 0 ≡ w.limit = omega arith in
      (r, done, eq ∙ ap (λ n. take n (keep_if passes l)) whole)
