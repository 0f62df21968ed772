-- ===== src/Tests/Containers.antt =====
-- The containers as plain sorted lists: a model of each interface of Index.
use spatialdb_engine.Base.{
  ℕ, ◌+◌, ◌<◌, ◌≡◌, refl, ap, Bool, true, false, List, [], ◌∷◌, arith, All, if◌then◌else◌, sum_of,
  Bool-cases, inl, inr,
}
use spatialdb_engine.Base.Text.{Str, str_lt, str_lt_trans, str_lt_connex}
use spatialdb_engine.Index.{OrderedMap, OrderedSet, SpatialIndex, SameItems}
use spatialdb_engine.Index.Sorted.{
  lookup_key, insert_key, remove_key, from_key, downto_key, KeysSorted, insert_by, remove_by,
  from_item, downto_item, IsSorted, IsOrder,
}

module _ {V : Type 0} where
  All-insert_key :
      (k i : Str) (v : V) (l : List (Str × V))
      → str_lt i k ≡ true
      → All (λ (e : Str × V). str_lt i e.0 ≡ true) l
      → All (λ (e : Str × V). str_lt i e.0 ≡ true) (insert_key k v l)
  unfolding insert_key
  All-insert_key k i v [] p h = (p, h)
  All-insert_key k i v ((j, w) ∷ l) p h = elim (Bool-cases (str_lt k j)) [
    | inl t ↦ rw t (p, h)
    | inr f ↦ elim (Bool-cases (str_lt j k)) [
      | inl t ↦ rw (f, t) (h.0, All-insert_key k i v l p h.1)
      | inr g ↦ rw (f, g) (p, h.1)
    ]
  ]

  All-below :
      (k j : Str) (l : List (Str × V))
      → str_lt k j ≡ true
      → All (λ (e : Str × V). str_lt j e.0 ≡ true) l
      → All (λ (e : Str × V). str_lt k e.0 ≡ true) l
  All-below k j [] p h = h
  All-below k j ((i, w) ∷ l) p h = (str_lt_trans k j i p h.0, All-below k j l p h.1)

  pub insert_key-Sorted :
      (k : Str) (v : V) (l : List (Str × V)) → KeysSorted l → KeysSorted (insert_key k v l)
  unfolding insert_key
  insert_key-Sorted k v [] h = (h, h)
  insert_key-Sorted k v ((j, w) ∷ l) h = elim (Bool-cases (str_lt k j)) [
    | inl t ↦ rw t ((t, All-below k j l t h.0), h)
    | inr f ↦ elim (Bool-cases (str_lt j k)) [
      | inl t ↦ rw (f, t) (All-insert_key k j v l t h.0, insert_key-Sorted k v l h.1)
      | inr g ↦ let e : j ≡ k = ground (arith, str_lt_connex j k) in rw (f, g) (rw (← e) h.0, h.1)
    ]
  ]

  All-remove_key :
      (P : Str × V → Type 0) (k : Str) (l : List (Str × V)) → All P l → All P (remove_key k l)
  unfolding remove_key
  All-remove_key P k [] h = h
  All-remove_key P k ((j, w) ∷ l) h = elim (Bool-cases (str_lt k j)) [
    | inl t ↦ rw t h
    | inr f ↦ elim (Bool-cases (str_lt j k)) [
      | inl t ↦ rw (f, t) (h.0, All-remove_key P k l h.1)
      | inr g ↦ rw (f, g) h.1
    ]
  ]

  pub remove_key-Sorted :
      (k : Str) (l : List (Str × V)) → KeysSorted l → KeysSorted (remove_key k l)
  unfolding remove_key
  remove_key-Sorted k [] h = h
  remove_key-Sorted k ((j, w) ∷ l) h = elim (Bool-cases (str_lt k j)) [
    | inl t ↦ rw t h
    | inr f ↦ elim (Bool-cases (str_lt j k)) [
      | inl t ↦ rw (f, t) (All-remove_key _ k l h.0, remove_key-Sorted k l h.1)
      | inr g ↦ rw (f, g) h.1
    ]
  ]

abbrev pub map_of : (V : Type 0) → OrderedMap V
map_of V = record {
  Tree = (l : List (Str × V)) × KeysSorted l;
  empty = ([], tt);
  items = λ t. t.0;
  get = λ t k. lookup_key k t.0;
  set = λ t k v. ((insert_key k v t.0, insert_key-Sorted k v t.0 t.1), lookup_key k t.0);
  delete = λ t k. ((remove_key k t.0, remove_key-Sorted k t.0 t.1), lookup_key k t.0);
  ascend = λ t k. from_key k t.0;
  descend = λ t k. downto_key k t.0;
  items-empty = refl;
  items_sorted = λ t. t.1;
  get_lem = λ t k. refl;
  items-set = λ t k v. refl;
  set_prev = λ t k v. refl;
  items-delete = λ t k. refl;
  delete_prev = λ t k. refl;
  ascend_lem = λ t k. refl;
  descend_lem = λ t k. refl;
}

module _ {A : Type 0} {less : A → A → Bool} (order : IsOrder less) where
  All-insert_by : (P : A → Type 0) (a : A) (l : List A) → P a → All P l → All P (insert_by less a l)
  unfolding insert_by
  All-insert_by P a [] p h = (p, h)
  All-insert_by P a (z ∷ l) p h = elim (Bool-cases (less a z)) [
    | inl t ↦ rw t (p, h)
    | inr f ↦ elim (Bool-cases (less z a)) [
      | inl t ↦ rw (f, t) (h.0, All-insert_by P a l p h.1)
      | inr g ↦ rw (f, g) (p, h.1)
    ]
  ]

  All-remove_by : (P : A → Type 0) (a : A) (l : List A) → All P l → All P (remove_by less a l)
  unfolding remove_by
  All-remove_by P a [] h = h
  All-remove_by P a (z ∷ l) h = elim (Bool-cases (less a z)) [
    | inl t ↦ rw t h
    | inr f ↦ elim (Bool-cases (less z a)) [
      | inl t ↦ rw (f, t) (h.0, All-remove_by P a l h.1)
      | inr g ↦ rw (f, g) h.1
    ]
  ]

  -- What stands above `z` stands above what is not above `z`.
  All-above :
      (a z : A) (l : List A)
      → less z a ≡ false
      → All (λ y. less z y ≡ true) l
      → All (λ y. less a y ≡ true) l
  All-above a z [] f h = h
  All-above a z (y ∷ l) f h = (ground (arith, order.less_cotrans z y a h.0), All-above a z l f h.1)

  not_both : (a z : A) → less a z ≡ true → less z a ≡ false
  not_both a z t = ground (arith, order.less_trans a z a, order.less_irrefl a)

  pub insert_by-Sorted : (a : A) (l : List A) → IsSorted less l → IsSorted less (insert_by less a l)
  unfolding insert_by
  insert_by-Sorted a [] h = (h, h)
  insert_by-Sorted a (z ∷ l) h = elim (Bool-cases (less a z)) [
    | inl t ↦ rw t ((t, All-above a z l (not_both a z t) h.0), h)
    | inr f ↦ elim (Bool-cases (less z a)) [
      | inl t ↦ rw (f, t) (All-insert_by _ a l t h.0, insert_by-Sorted a l h.1)
      | inr g ↦ rw (f, g) (All-above a z l g h.0, h.1)
    ]
  ]

  pub remove_by-Sorted : (a : A) (l : List A) → IsSorted less l → IsSorted less (remove_by less a l)
  unfolding remove_by
  remove_by-Sorted a [] h = h
  remove_by-Sorted a (z ∷ l) h = elim (Bool-cases (less a z)) [
    | inl t ↦ rw t h
    | inr f ↦ elim (Bool-cases (less z a)) [
      | inl t ↦ rw (f, t) (All-remove_by _ a l h.0, remove_by-Sorted a l h.1)
      | inr g ↦ rw (f, g) h.1
    ]
  ]

  abbrev pub set_of : OrderedSet less
  set_of = record {
    Tree = (l : List A) × IsSorted less l;
    empty = ([], tt);
    items = λ t. t.0;
    set = λ t a. (insert_by less a t.0, insert_by-Sorted a t.0 t.1);
    delete = λ t a. (remove_by less a t.0, remove_by-Sorted a t.0 t.1);
    ascend = λ t a. from_item less a t.0;
    descend = λ t a. downto_item less a t.0;
    items-empty = refl;
    items_sorted = λ t. t.1;
    items-set = λ t a. refl;
    items-delete = λ t a. refl;
    ascend_lem = λ t a. refl;
    descend_lem = λ t a. refl;
  }

module _ {E : Type 0} (same : Discrete E) where
  unfoldable pub take_out : E → List E → List E
  take_out e [] = []
  take_out e (x ∷ l) = elim (same e x) [ yes p ↦ l | no n ↦ x ∷ take_out e l ]

  abbrev one_at : E → E → ℕ
  one_at e x = elim (same e x) [ yes p ↦ 1 | no n ↦ 0 ]

  one_at_self : (e : E) → one_at e e ≡ 1
  one_at_self e = elim (same e e) as (λ d. elim d as (λ x. ℕ) [ yes p ↦ 1 | no n ↦ 0 ] ≡ 1) [
    | yes p ↦ refl
    | no n ↦ absurd (n refl)
  ]

  sum-take_out :
      (f : E → ℕ) (e : E) (l : List E)
      → 0 < sum_of (one_at e) l
      → f e + sum_of f (take_out e l) ≡ sum_of f l
  unfolding take_out
  sum-take_out f e [] h = omega arith
  sum-take_out f e (x ∷ l) h =
      elim (same e x)
          as (λ d.
            0 < elim d as (λ x. ℕ) [ yes p ↦ 1 | no n ↦ 0 ] + sum_of (one_at e) l
            → f e + sum_of f (elim d as (λ y. List E) [ yes p ↦ l | no n ↦ x ∷ take_out e l ])
              ≡ f x + sum_of f l) [
                | yes p ↦ λ k. ap (λ y. f y + sum_of f l) p
                | no n ↦ λ k. omega (arith, sum-take_out f e l)
              ]
        h

module _ {Box A : Type 0} (same : Discrete (Box × A)) (meets : Box → Box → Bool) where
  abbrev Entries : Type 0
  Entries = List (Box × A)

  unfoldable pub found : Box → Entries → List A
  found q [] = []
  found q ((b, a) ∷ l) = if meets b q then a ∷ found q l else found q l

  pub sum-found :
      (q : Box) (f : A → ℕ) (l : Entries)
      → sum_of f (found q l) ≡ sum_of (λ (e : Box × A). if meets e.0 q then f e.1 else 0) l
  unfolding found
  sum-found q f [] = refl
  sum-found q f ((b, a) ∷ l) = ground (arith, sum-found q f l)

  pub same-take_out :
      (l rest : Entries) (e : Box × A) → SameItems l (e ∷ rest) → SameItems (take_out same e l) rest
  same-take_out l rest e h f =
      let here : 0 < sum_of (one_at same e) l =
        omega (arith, h (one_at same e), one_at_self same e) in
      omega (arith, sum-take_out same f e l here, h f)

  abbrev pub index_of : SpatialIndex Box A
  index_of = record {
    Tree = Entries;
    empty = [];
    entries = λ t. t;
    insert = λ t b a. (b, a) ∷ t;
    delete = λ t b a. take_out same (b, a) t;
    overlaps = meets;
    search = λ t q. found q t;
    entries-empty = refl;
    entries-insert = λ t b a f. refl;
    entries-delete = λ t b a rest h. same-take_out t rest (b, a) h;
    search_lem = λ t q f. sum-found q f t;
  }
