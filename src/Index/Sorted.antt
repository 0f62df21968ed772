-- ===== src/Index/Sorted.antt =====
-- Sorted lists, as the specification of the trees: maps by a string key, and sets by a `less`.
use mathlib.Core.List.{reverse}
use spatialdb_engine.Base.{
  ℕ, ◌+◌, ◌≡◌, refl, Bool, true, false, not, ◌&&◌, ◌||◌, Option, none, some, List, [], ◌∷◌, arith,
  sum_of, All, if◌then◌else◌,
}
use spatialdb_engine.Base.Text.{
  Str, str_eq, str_lt, str_eq_iff, str_lt_irrefl, str_lt_trans, str_lt_connex, str_lt_asymm,
}

module _ {V : Type 0} where
  unfoldable pub lookup_key : Str → List (Str × V) → Option V
  lookup_key k [] = none
  lookup_key k ((j, w) ∷ l) =
      if str_lt k j then none else if str_lt j k then lookup_key k l else some w

  unfoldable pub insert_key : Str → V → List (Str × V) → List (Str × V)
  insert_key k v [] = (k, v) ∷ []
  insert_key k v ((j, w) ∷ l) =
      if str_lt k j
      then (k, v) ∷ (j, w) ∷ l
      else if str_lt j k
      then (j, w) ∷ insert_key k v l
      else (k, v) ∷ l

  unfoldable pub remove_key : Str → List (Str × V) → List (Str × V)
  remove_key k [] = []
  remove_key k ((j, w) ∷ l) =
      if str_lt k j then (j, w) ∷ l else if str_lt j k then (j, w) ∷ remove_key k l else l

  -- The entries from the first key that is not below `k`.
  unfoldable pub from_key : Str → List (Str × V) → List (Str × V)
  from_key k [] = []
  from_key k ((j, w) ∷ l) = if str_lt j k then from_key k l else (j, w) ∷ l

  -- The entries up to the last key that is not above `k`.
  unfoldable pub upto_key : Str → List (Str × V) → List (Str × V)
  upto_key k [] = []
  upto_key k ((j, w) ∷ l) = if str_lt k j then [] else (j, w) ∷ upto_key k l

  abbrev pub downto_key : Str → List (Str × V) → List (Str × V)
  downto_key k l = reverse (upto_key k l)

  abbrev pub KeysSorted : List (Str × V) → Type 0
  KeysSorted [] = Unit
  KeysSorted ((k, v) ∷ l) = All (λ (e : Str × V). str_lt k e.0 ≡ true) l × KeysSorted l

  abbrev pub opt_sum : (V → ℕ) → Option V → ℕ
  opt_sum f none = 0
  opt_sum f (some v) = f v

  pub lookup-insert_key :
      (k j : Str) (v : V) (l : List (Str × V))
      → lookup_key j (insert_key k v l) ≡ (if str_eq k j then some v else lookup_key j l)
  unfolding lookup_key insert_key
  lookup-insert_key k j v [] =
      ground (arith, str_eq_iff k j, str_lt_irrefl k, str_lt_connex k j, str_lt_asymm j k)
  lookup-insert_key k j v ((i, w) ∷ l) = ground (
    arith,
    lookup-insert_key k j v l,
    str_eq_iff k j,
    str_lt_irrefl k,
    str_lt_irrefl j,
    str_lt_connex k j,
    str_lt_connex k i,
    str_lt_asymm j k,
    str_lt_asymm k j,
    str_lt_trans j k i,
    str_lt_trans i k j,
  )

  -- A key that is not above `i` is not among keys that are all above `i`.
  pub lookup_key-below :
      (k i : Str) (l : List (Str × V))
      → str_lt i k ≡ false
      → All (λ (e : Str × V). str_lt i e.0 ≡ true) l
      → lookup_key k l ≡ none
  unfolding lookup_key
  lookup_key-below k i [] n h = refl
  lookup_key-below k i ((j, w) ∷ l) n h = ground (arith, str_lt_connex k i, str_lt_trans k i j)

  pub lookup-remove_key :
      (k j : Str) (l : List (Str × V))
      → KeysSorted l
      → lookup_key j (remove_key k l) ≡ (if str_eq k j then none else lookup_key j l)
  unfolding lookup_key remove_key
  lookup-remove_key k j [] h = ground arith
  lookup-remove_key k j ((i, w) ∷ l) h = ground (
    arith,
    lookup-remove_key k j l h.1,
    lookup_key-below j i l,
    h.0,
    str_lt_asymm j i,
    str_eq_iff k j,
    str_lt_connex k i,
    str_lt_connex j i,
    str_lt_irrefl k,
  )

  pub remove_key_absent :
      (k : Str) (l : List (Str × V)) → lookup_key k l ≡ none → remove_key k l ≡ l
  unfolding lookup_key remove_key
  remove_key_absent k [] h = refl
  remove_key_absent k ((i, w) ∷ l) h = ground (arith, remove_key_absent k l)

  pub sum-insert_key :
      (f : V → ℕ) (k : Str) (v : V) (l : List (Str × V))
      → sum_of (λ (e : Str × V). f e.1) (insert_key k v l) + opt_sum f (lookup_key k l)
        ≡ f v + sum_of (λ (e : Str × V). f e.1) l
  unfolding lookup_key insert_key
  sum-insert_key f k v [] = omega arith
  sum-insert_key f k v ((i, w) ∷ l) = ground (arith, sum-insert_key f k v l)

  pub sum-remove_key :
      (f : V → ℕ) (k : Str) (l : List (Str × V))
      → sum_of (λ (e : Str × V). f e.1) (remove_key k l) + opt_sum f (lookup_key k l)
        ≡ sum_of (λ (e : Str × V). f e.1) l
  unfolding lookup_key remove_key
  sum-remove_key f k [] = omega arith
  sum-remove_key f k ((i, w) ∷ l) = ground (arith, sum-remove_key f k l)

  -- A key that is not above `i` goes in front of keys that are all above `i`.
  insert_key-below :
      (k i : Str) (v : V) (l : List (Str × V))
      → str_lt i k ≡ false
      → All (λ (e : Str × V). str_lt i e.0 ≡ true) l
      → insert_key k v l ≡ (k, v) ∷ l
  unfolding insert_key
  insert_key-below k i v [] n h = refl
  insert_key-below k i v ((j, w) ∷ l) n h = ground (arith, str_lt_connex k i, str_lt_trans k i j)

  -- A write over a removed key is a write over the key.
  pub insert-remove_key :
      (k : Str) (v : V) (l : List (Str × V))
      → KeysSorted l
      → insert_key k v (remove_key k l) ≡ insert_key k v l
  unfolding insert_key remove_key
  insert-remove_key k v [] h = refl
  insert-remove_key k v ((i, w) ∷ l) h =
      ground (arith, insert-remove_key k v l h.1, insert_key-below k i v l, h.0)

module _ {A : Type 0} (less : A → A → Bool) where
  unfoldable pub find_by : A → List A → Option A
  find_by a [] = none
  find_by a (z ∷ l) = if less a z then none else if less z a then find_by a l else some z

  unfoldable pub insert_by : A → List A → List A
  insert_by a [] = a ∷ []
  insert_by a (z ∷ l) =
      if less a z then a ∷ z ∷ l else if less z a then z ∷ insert_by a l else a ∷ l

  unfoldable pub remove_by : A → List A → List A
  remove_by a [] = []
  remove_by a (z ∷ l) = if less a z then z ∷ l else if less z a then z ∷ remove_by a l else l

  unfoldable pub from_item : A → List A → List A
  from_item a [] = []
  from_item a (z ∷ l) = if less z a then from_item a l else z ∷ l

  unfoldable pub upto_item : A → List A → List A
  upto_item a [] = []
  upto_item a (z ∷ l) = if less a z then [] else z ∷ upto_item a l

  abbrev pub downto_item : A → List A → List A
  downto_item a l = reverse (upto_item a l)

  abbrev pub IsSorted : List A → Type 0
  IsSorted [] = Unit
  IsSorted (z ∷ l) = All (λ y. less z y ≡ true) l × IsSorted l

  -- Neither is less than the other: the set holds at most one of them.
  abbrev pub same_place : A → A → Bool
  same_place a b = not (less a b) && not (less b a)

  -- A strict weak order.
  pub record IsOrder : Type 0 where
    pub less_irrefl : (a : A) → less a a ≡ false
    pub less_trans : (a b c : A) → less a b ≡ true → less b c ≡ true → less a c ≡ true
    pub less_cotrans : (a b c : A) → less a b ≡ true → (less a c || less c b) ≡ true

  pub find-insert_by :
      IsOrder
      → (a b : A) (l : List A)
      → find_by b (insert_by a l) ≡ (if same_place a b then some a else find_by b l)
  unfolding find_by insert_by
  find-insert_by o a b [] = ground arith
  find-insert_by o a b (z ∷ l) = ground (
    arith,
    find-insert_by o a b l,
    o.less_irrefl a,
    o.less_trans b a z,
    o.less_trans z a b,
    o.less_cotrans z a b,
    o.less_cotrans a z b,
    o.less_cotrans b z a,
    o.less_cotrans z b a,
    o.less_cotrans a b z,
    o.less_cotrans b a z,
    o.less_trans a b a,
  )

  find_by-below :
      IsOrder
      → (a z : A) (l : List A) → less z a ≡ false
      → All (λ y. less z y ≡ true) l
      → find_by a l ≡ none
  unfolding find_by
  find_by-below o a z [] k h = refl
  find_by-below o a z (y ∷ l) k h = ground (arith, o.less_cotrans z y a)

  pub find-remove_by :
      IsOrder
      → (a b : A) (l : List A) → IsSorted l
      → find_by b (remove_by a l) ≡ (if same_place a b then none else find_by b l)
  unfolding find_by remove_by
  find-remove_by o a b [] h = ground arith
  find-remove_by o a b (z ∷ l) h = ground (
    arith,
    find-remove_by o a b l h.1,
    find_by-below o b z l,
    h.0,
    o.less_irrefl z,
    o.less_trans z b z,
    o.less_cotrans z a b,
    o.less_cotrans a z b,
    o.less_cotrans b z a,
    o.less_cotrans z b a,
    o.less_cotrans a b z,
    o.less_cotrans b a z,
  )
