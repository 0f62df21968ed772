-- ===== src/Index/Kept.antt =====
-- A sorted list that holds those items of another one that pass a test: an index over a part of the
-- items.
use mathlib.Core.Path.{subst}
use spatialdb_engine.Base.{
  ℕ, ◌+◌, ◌≡◌, refl, Bool, true, ◌&&◌, Option, none, some, List, [], ◌∷◌, arith, sum_of,
  if◌then◌else◌, Bool-cases, inl, inr, All,
}
use spatialdb_engine.Index.Sorted.{
  find_by, insert_by, remove_by, IsSorted, IsOrder, same_place, opt_sum, from_item, find-insert_by,
  find-remove_by,
}

abbrev pub keep {ℓ} : {A : Type ℓ} → (A → Bool) → Option A → Option A
keep p none = none
keep p (some a) = if p a then some a else none

module _ {A : Type 0} (p q r : A → Bool) where
  pub keep-keep : ((a : A) → r a ≡ (q a && p a)) → (o : Option A) → keep p (keep q o) ≡ keep r o
  keep-keep h none = refl
  keep-keep h (some a) = ground (arith, h a)

pub keep_all : {A : Type 0} (p : A → Bool) → ((a : A) → p a ≡ true) → (o : Option A) → keep p o ≡ o
keep_all p h none = refl
keep_all p h (some a) = rw (h a) refl

-- Tests that agree on what is there keep the same.
pub keep-found :
    {A : Type 0} (p q : A → Bool) (o : Option A)
    → ((a : A) → o ≡ some a → p a ≡ q a)
    → keep p o ≡ keep q o
keep-found p q none h = refl
keep-found p q (some a) h = ground (arith, h a refl)

module _ {A : Type 0} (less : A → A → Bool) where
  -- Among the items that pass `p`, the one list finds what the other does.
  abbrev pub Holds : (A → Bool) → List A → List A → Type 0
  Holds p t l = (q : A) → find_by less q t ≡ keep p (find_by less q l)

  -- Two probes of one place find the same.
  pub find_by-same_place :
      IsOrder less
      → (a q : A) (l : List A) → same_place less a q ≡ true
      → find_by less q l ≡ find_by less a l
  unfolding find_by
  find_by-same_place order a q [] h = refl
  find_by-same_place order a q (z ∷ l) h = ground (
    arith,
    find_by-same_place order a q l h,
    order.less_cotrans a z q,
    order.less_cotrans q z a,
    order.less_cotrans z a q,
    order.less_cotrans z q a,
  )

  module _ (order : IsOrder less) (p : A → Bool) (a : A) (t l : List A) where
    pub remove-Holds :
        IsSorted less t
        → IsSorted less l
        → Holds p t l
        → Holds p (remove_by less a t) (remove_by less a l)
    remove-Holds s r h q =
        ground (arith, find-remove_by less order a q t s, find-remove_by less order a q l r, h q)

    -- The item of a place that is free.
    pub insert-Holds :
        find_by less a l ≡ none
        → Holds p t l
        → Holds p (if p a then insert_by less a t else t) (insert_by less a l)
    insert-Holds free h q = ground (
      arith,
      find-insert_by less order a q t,
      find-insert_by less order a q l,
      h q,
      find_by-same_place order a q l,
    )

  pub sum-insert_by :
      (f : A → ℕ) (a : A) (l : List A)
      → sum_of f (insert_by less a l) + opt_sum f (find_by less a l) ≡ f a + sum_of f l
  unfolding find_by insert_by
  sum-insert_by f a [] = omega arith
  sum-insert_by f a (z ∷ l) = ground (arith, sum-insert_by f a l)

  pub sum-remove_by :
      (f : A → ℕ) (a : A) (l : List A)
      → sum_of f (remove_by less a l) + opt_sum f (find_by less a l) ≡ sum_of f l
  unfolding find_by remove_by
  sum-remove_by f a [] = omega arith
  sum-remove_by f a (z ∷ l) = ground (arith, sum-remove_by f a l)

  pub IsSorted-from_item :
      (a : A) (l : List A) → IsSorted less l → IsSorted less (from_item less a l)
  unfolding from_item
  IsSorted-from_item a [] s = tt
  IsSorted-from_item a (z ∷ l) s = elim (Bool-cases (less z a)) [
    | inl t ↦ rw t (IsSorted-from_item a l s.1)
    | inr f ↦ rw f s
  ]

  found-All : (P : A → Type 0) (q a : A) (l : List A) → find_by less q l ≡ some a → All P l → P a
  unfolding find_by
  found-All P q a [] e h = cc
  found-All P q a (z ∷ l) e h = elim (Bool-cases (less z q)) [
    | inl t ↦ found-All P q a l (ground arith) h.1
    | inr f ↦ subst P (ground arith) h.0
  ]

  -- What holds of each item that is found as itself holds of all items.
  pub All-found :
      (P : A → Type 0) (l : List A)
      → IsOrder less
      → IsSorted less l
      → ((a : A) → find_by less a l ≡ some a → P a)
      → All P l
  unfolding find_by
  All-found P [] order s h = tt
  All-found P (z ∷ l) order s h = (
    h z (ground (arith, order.less_irrefl z)),
    All-found P l order s.1 (λ a e.
        let above = found-All (λ y. less z y ≡ true) a a l e s.0 in
        h a (ground (arith, above, e, order.less_trans a z a, order.less_irrefl a))),
  )
