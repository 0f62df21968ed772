-- ===== src/Field/Binary/Encoding.antt =====
-- The bytes of a list of fields, and what one round of the loops reads of them.
use mathlib.Core.List.{append_assoc}
use spatialdb_engine.Base.{
  ℕ, ◌+◌, ◌^◌, ◌<◌, ◌≤◌, ◌≡◌, refl, ap, false, some, List, [], ◌∷◌, ◌++◌, length, length-append,
  drop-append, take-append, take_all, arith, ◌==◌, Bool-cases, inl, inr,
}
use spatialdb_engine.Base.Text.{Str}
use spatialdb_engine.Varint.{put_uvarint}
use spatialdb_engine.Varint.RoundTrip.{uvarint-put_uvarint, put_uvarint_pos, uvarint_nil}
use spatialdb_engine.Shared.{Shared, load}
use spatialdb_engine.Field.{Numbers, Field}
use spatialdb_engine.Field.Binary.{
  datakind, ptob, with_header, finish, entry, read_data, read_kind, read_name, read_entry, bfield,
  stored_text, payload, entry_bytes,
}

-- The content that a list is made of is the content that it gives back.
pub ptob-with_header : (c : Str) → length c < 2 ^ 64 → ptob (with_header c) ≡ c
unfolding ptob with_header
ptob-with_header [] h = refl
ptob-with_header (x ∷ s) h =
    rw (uvarint-put_uvarint (length (x ∷ s)) (x ∷ s) h)
      (rw (drop-append (put_uvarint (length (x ∷ s))) (x ∷ s)) (take_all (x ∷ s)))

pub read_entry-end : (sh : Shared) → read_entry sh [] ≡ finish
unfolding read_entry
read_entry-end sh = rw uvarint_nil refl

module _ {N : Numbers} where
  -- A field that is what is read of its bytes, and whose text fits.
  pub record IsStored (f : Field N) : Type 0 where
    pub canonical : bfield f.name f.value.kind (stored_text f) ≡ f
    pub fits : length f.value.text < 2 ^ 64

  -- `b` is the content of a list of the fields `l`, over the table `sh`.
  abbrev pub Encodes : Shared → List (Field N) → Str → Type 0
  Encodes sh [] b = b ≡ []
  Encodes sh (f ∷ l) b =
      (num : ℕ) × (tail : Str) × (load sh num ≡ some f.name)
      × (num < 2 ^ 64)
      × IsStored f
      × (b ≡ entry_bytes num f ++ tail)
      × Encodes sh l tail

  pub read_payload :
      (name : Str) (used : ℕ) (f : Field N) (tail : Str)
      → length f.value.text < 2 ^ 64
      → read_kind name used (f.value.kind ∷ (payload f ++ tail))
        ≡ entry name f.value.kind (stored_text f) (used + length (f.value.kind ∷ payload f))
  unfolding read_kind read_data payload stored_text
  read_payload name used f tail h = elim (Bool-cases (datakind f.value.kind)) [
    | inr no_text ↦ rw no_text refl
    | inl has_text ↦
        let n = put_uvarint (length f.value.text) in
        let split = append_assoc n f.value.text tail in
        let read = uvarint-put_uvarint (length f.value.text) (f.value.text ++ tail) h in
        rw
          (
            has_text,
            split,
            read,
            drop-append n (f.value.text ++ tail),
            take-append f.value.text tail,
          )
          (ground (
            arith,
            length-append n (f.value.text ++ tail),
            length-append f.value.text tail,
            length-append n f.value.text,
          ))
  ]

  -- A round at a field of the list reads that field and all its bytes.
  pub read_entry-bytes :
      (sh : Shared) (num : ℕ) (f : Field N) (tail : Str)
      → load sh num ≡ some f.name
      → num < 2 ^ 64
      → length f.value.text < 2 ^ 64
      → read_entry sh (entry_bytes num f ++ tail)
        ≡ entry f.name f.value.kind (stored_text f) (length (entry_bytes num f))
  unfolding read_entry read_name entry_bytes
  read_entry-bytes sh num f tail name small h =
      let n = put_uvarint num in
      let rest = f.value.kind ∷ payload f in
      let there : (length n == 0) ≡ false = ground (arith, put_uvarint_pos num) in
      rw
        (
          append_assoc n rest tail,
          uvarint-put_uvarint num (rest ++ tail) small,
          there,
          name,
          drop-append n (rest ++ tail),
          length-append n rest,
        )
        (read_payload f.name (length n) f tail h)

  pub entry_bytes_pos : (num : ℕ) (f : Field N) → 0 < length (entry_bytes num f)
  unfolding entry_bytes
  entry_bytes_pos num f = omega (arith, length-append (put_uvarint num) (f.value.kind ∷ payload f))

  pub Encodes-length :
      (sh : Shared) (l : List (Field N)) (b : Str) → Encodes sh l b → length l ≤ length b
  Encodes-length sh [] b e = omega arith
  Encodes-length sh (f ∷ l) b (num, tail, name, small, stored, e, rest) = omega (
    arith,
    ap length e,
    length-append (entry_bytes num f) tail,
    entry_bytes_pos num f,
    Encodes-length sh l tail rest,
  )

  -- A larger table reads the same fields.
  pub Encodes-keeps :
      (sh sh' : Shared)
      → ((num : ℕ) (s : Str) → load sh num ≡ some s → load sh' num ≡ some s)
      → (l : List (Field N)) (b : Str) → Encodes sh l b
      → Encodes sh' l b
  Encodes-keeps sh sh' keeps [] b e = e
  Encodes-keeps sh sh' keeps (f ∷ l) b (num, tail, name, small, stored, e, rest) =
      (num, tail, keeps num f.name name, small, stored, e, Encodes-keeps sh sh' keeps l tail rest)
