-- ===== src/Field/Binary/Names.antt =====
-- A list of fields is a map by name: what `Get` finds after a `Set`.
use spatialdb_engine.Base.{
  ◌⊎◌, ◌≡◌, refl, true, false, none, List, [], ◌∷◌, arith, if◌then◌else◌, Bool-cases, inl, inr, All,
}
use spatialdb_engine.Base.Text.{
  Str, str_eq, str_lt, str_eq_iff, str_eq_refl, str_lt_irrefl, str_lt_trans, str_lt_connex,
}
use spatialdb_engine.Field.{Numbers, Json, Field, is_zero, equals, zero_field}
use spatialdb_engine.Field.Binary.{meet}
use spatialdb_engine.Field.Binary.Encoding.{IsStored}
use spatialdb_engine.Field.Binary.Update.{insert_field}
use spatialdb_engine.Field.Binary.Reads.{find_field}

module _ {N : Numbers} where
  -- The fields stand in the order of their names, each name once.
  abbrev pub NamesSorted : List (Field N) → Type 0
  NamesSorted [] = Unit
  NamesSorted (f ∷ l) = All (λ (g : Field N). str_lt f.name g.name ≡ true) l × NamesSorted l

  abbrev pub AllStored : List (Field N) → Type 0
  AllStored l = All (λ (g : Field N). IsStored g) l

  All-insert_field :
      (P : Field N → Type 0) (f : Field N) (l : List (Field N))
      → P f
      → All P l
      → All P (insert_field f l)
  unfolding insert_field
  All-insert_field P f [] p h = elim (Bool-cases (is_zero f.value)) [
    | inl t ↦ rw t tt
    | inr n ↦ rw n (p, tt)
  ]
  All-insert_field P f (e ∷ l) p h = elim (Bool-cases (is_zero f.value)) [
    | inl z ↦ elim (Bool-cases (str_lt f.name e.name)) [
      | inl t ↦ rw (t, z) h
      | inr n ↦ elim (Bool-cases (str_eq e.name f.name)) [
        | inl t ↦ rw (n, t, z) h.1
        | inr m ↦ rw (n, m) (h.0, All-insert_field P f l p h.1)
      ]
    ]
    | inr z ↦ elim (Bool-cases (str_lt f.name e.name)) [
      | inl t ↦ rw (t, z) (p, h)
      | inr n ↦ elim (Bool-cases (str_eq e.name f.name)) [
        | inl t ↦ elim (Bool-cases (equals e.value f.value)) [
          | inl q ↦ rw (n, t, z, q) h
          | inr q ↦ rw (n, t, z, q) (p, h.1)
        ]
        | inr m ↦ rw (n, m) (h.0, All-insert_field P f l p h.1)
      ]
    ]
  ]

  All-above :
      (f e : Field N) (l : List (Field N))
      → str_lt f.name e.name ≡ true
      → All (λ (g : Field N). str_lt e.name g.name ≡ true) l
      → All (λ (g : Field N). str_lt f.name g.name ≡ true) l
  All-above f e [] t h = h
  All-above f e (g ∷ l) t h = (str_lt_trans f.name e.name g.name t h.0, All-above f e l t h.1)

  All-renamed :
      (f e : Field N) (l : List (Field N))
      → str_eq e.name f.name ≡ true
      → All (λ (g : Field N). str_lt e.name g.name ≡ true) l
      → All (λ (g : Field N). str_lt f.name g.name ≡ true) l
  All-renamed f e l t h = rw (← (str_eq_iff e.name f.name).0 t) h

  -- `Set` keeps the fields in the order of their names.
  pub insert_field-NamesSorted :
      (f : Field N) (l : List (Field N)) → NamesSorted l → NamesSorted (insert_field f l)
  unfolding insert_field
  insert_field-NamesSorted f [] h = elim (Bool-cases (is_zero f.value)) [
    | inl t ↦ rw t tt
    | inr n ↦ rw n (tt, tt)
  ]
  insert_field-NamesSorted f (e ∷ l) h = elim (Bool-cases (str_lt f.name e.name)) [
    | inl t ↦ elim (Bool-cases (is_zero f.value)) [
      | inl z ↦ rw (t, z) h
      | inr z ↦ rw (t, z) ((t, All-above f e l t h.0), h)
    ]
    | inr n ↦ elim (Bool-cases (str_eq e.name f.name)) [
      | inl t ↦ elim (Bool-cases (is_zero f.value)) [
        | inl z ↦ rw (n, t, z) h.1
        | inr z ↦ elim (Bool-cases (equals e.value f.value)) [
          | inl q ↦ rw (n, t, z, q) h
          | inr q ↦ rw (n, t, z, q) (All-renamed f e l t h.0, h.1)
        ]
      ]
      | inr m ↦
          let above : str_lt e.name f.name ≡ true =
            ground (arith, str_lt_connex e.name f.name, str_eq_iff e.name f.name) in
          rw (n, m)
            (
              All-insert_field (λ (g : Field N). str_lt e.name g.name ≡ true) f l above h.0,
              insert_field-NamesSorted f l h.1,
            )
    ]
  ]

  -- A name below every name of the list is not found.
  find_field-below :
      (S : Json) (name : Str) (l : List (Field N))
      → All (λ (g : Field N). str_lt name g.name ≡ true) l
      → find_field S none name l ≡ zero_field N
  unfolding meet
  find_field-below S name [] h = refl
  find_field-below S name (f ∷ l) h = ground (arith, h.0)

  find_field-cons :
      (S : Json) (name : Str) (f : Field N) (l : List (Field N))
      → IsStored f
      → find_field S none name (f ∷ l) ≡ (
          if str_lt name f.name
          then zero_field N
          else if str_eq f.name name
          then f
          else find_field S none name l)
  unfolding meet
  find_field-cons S name f l h = ground (arith, h.canonical, str_eq_iff f.name name)

  find_field-nil : (S : Json) (name : Str) → find_field S none name [] ≡ zero_field N
  find_field-nil S name = refl

  All-below :
      (name : Str) (e : Field N) (l : List (Field N))
      → str_lt name e.name ≡ true
      → All (λ (g : Field N). str_lt e.name g.name ≡ true) l
      → All (λ (g : Field N). str_lt name g.name ≡ true) l
  All-below name e [] t h = h
  All-below name e (g ∷ l) t h = (str_lt_trans name e.name g.name t h.0, All-below name e l t h.1)

  -- Another name is found as before.
  find-insert_other :
      (S : Json) (f : Field N) (name : Str) (l : List (Field N))
      → IsStored f
      → NamesSorted l
      → AllStored l
      → str_eq f.name name ≡ false
      → find_field S none name (insert_field f l) ≡ find_field S none name l
  unfolding insert_field
  find-insert_other S f name [] s h a d =
      ground (arith, find_field-cons S name f [] s, find_field-nil S name)
  find-insert_other S f name (e ∷ l) s h a d = elim (Bool-cases (str_lt name e.name)) [
    | inl t ↦
        let behind = find_field-below S name l (All-below name e l t h.0) in
        ground (
          arith,
          behind,
          find_field-cons S name e l a.0,
          find_field-cons S name f (e ∷ l) s,
          find_field-cons S name f l s,
          find_field-cons S name e (insert_field f l) a.0,
          str_eq_iff e.name f.name,
        )
    | inr n ↦ ground (
      arith,
      find-insert_other S f name l s h.1 a.1 d,
      find_field-cons S name e l a.0,
      find_field-cons S name f (e ∷ l) s,
      find_field-cons S name f l s,
      find_field-cons S name e (insert_field f l) a.0,
      str_eq_iff e.name f.name,
      str_lt_trans name f.name e.name,
    )
  ]

  -- What is found under the name that was written.
  abbrev pub Written : Field N → Field N → Type 0
  Written f g =
      (is_zero f.value ≡ true → g ≡ zero_field N)
      × (is_zero f.value ≡ false → (g ≡ f) ⊎ ((g.name ≡ f.name) × (equals g.value f.value ≡ true)))

  find-insert_self :
      (S : Json) (f : Field N) (l : List (Field N))
      → IsStored f
      → NamesSorted l
      → AllStored l
      → Written f (find_field S none f.name (insert_field f l))
  unfolding insert_field
  find-insert_self S f [] s h a = ground (
    arith,
    find_field-cons S f.name f [] s,
    find_field-nil S f.name,
    str_lt_irrefl f.name,
    str_eq_refl f.name,
  )
  find-insert_self S f (e ∷ l) s h a = elim (Bool-cases (str_lt f.name e.name)) [
    | inl t ↦ ground (
      arith,
      find_field-cons S f.name f (e ∷ l) s,
      find_field-cons S f.name e l a.0,
      str_lt_irrefl f.name,
      str_eq_refl f.name,
    )
    | inr n ↦ elim (Bool-cases (str_eq e.name f.name)) [
      | inl t ↦
          let behind = find_field-below S f.name l (All-renamed f e l t h.0) in
          ground (
            arith,
            behind,
            find_field-cons S f.name f l s,
            find_field-cons S f.name e l a.0,
            str_eq_iff e.name f.name,
            str_lt_irrefl f.name,
            str_eq_refl f.name,
          )
      | inr m ↦
          let ih = find-insert_self S f l s h.1 a.1 in
          ground (arith, ih, find_field-cons S f.name e (insert_field f l) a.0)
    ]
  ]

  -- `Set` is a write to a map by name. On a list in the order of its names, another name without a
  -- dot is found as before; the name itself is found without a field if the value is zero, and
  -- otherwise with the new field or with the old one if the two values are equal.
  pub find-insert_field :
      (S : Json) (f : Field N) (l : List (Field N))
      → IsStored f
      → NamesSorted l
      → AllStored l
      → Written f (find_field S none f.name (insert_field f l))
        × ((name : Str)
            → str_eq f.name name ≡ false
            → find_field S none name (insert_field f l) ≡ find_field S none name l)
  find-insert_field S f l s h a =
      (find-insert_self S f l s h a, λ name d. find-insert_other S f name l s h a d)
