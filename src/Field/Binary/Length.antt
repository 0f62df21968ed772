-- ===== src/Field/Binary/Length.antt =====
-- `List.Len` and `List.String` of internal/legacy/field/list_binary.go.
use mathlib.Core.List.{append_assoc}
use spatialdb_engine.Base.{
  ℕ, zero, suc, ◌+◌, ◌^◌, ◌<◌, ◌≡◌, refl, ◌∙◌, true, false, Option, none, some, List, [], ◌∷◌, ◌++◌,
  drop, length, length-append, drop-append, arith, ltb, ◌==◌, if◌then◌else◌,
}
use spatialdb_engine.Base.Text.{Str}
use spatialdb_engine.Varint.{put_uvarint, uvarint}
use spatialdb_engine.Varint.RoundTrip.{uvarint-put_uvarint, put_uvarint_pos, uvarint_nil}
use spatialdb_engine.Shared.{Shared}
use spatialdb_engine.Field.{Numbers, Json, Field, to_json}
use spatialdb_engine.Field.Binary.{
  ptob, Fields, Read, finish, fault, entry, read_kind, stored_text, payload, entry_bytes, scan,
}
use spatialdb_engine.Field.Binary.Encoding.{IsStored, Encodes, read_payload, Encodes-length}
use spatialdb_engine.Collection.Walk.{Visit}

-- A round of `List.Len`, which does not look for the name.
unfoldable pub skip_entry : Str → Read
unfolding read_kind
skip_entry rest =
    let (x, n) = uvarint rest in if n == 0 then finish else read_kind [] n (drop n rest)

unfoldable pub len_step : ℕ → ℕ → Read → (ℕ → ℕ → Option ℕ) → Option ℕ
len_step i count finish next = some count
len_step i count fault next = none
len_step i count (entry name kind text used) next = next (i + used) (count + 1)

unfoldable pub len_loop : ℕ → Str → ℕ → ℕ → Option ℕ
unfolding len_step skip_entry
len_loop zero b i count = none
len_loop (suc fuel) b i count = len_step i count (skip_entry (drop i b)) (len_loop fuel b)

-- `List.Len`.
unfoldable pub len : Fields → Option ℕ
unfolding len_loop
len l = let b = ptob l in len_loop (suc (length b)) b 0 0

module _ {N : Numbers} where
  -- The iterator of `List.String`, with its `i` and its `dst`.
  unfoldable pub print_step : Json → Visit (Field N) (ℕ × Str)
  print_step J f (i, dst) = (
    true,
    (
      i + 1,
      (if ltb 0 i then dst ++ b',' ∷ [] else dst) ++ (J.quote f.name ++ b':' ∷ to_json J f.value),
    ),
  )

module _ (N : Numbers) where
  -- `List.String`.
  unfoldable pub print_list : Json → Shared → Fields → Option Str
  unfolding print_step
  print_list J sh l = elim (scan {N = N} sh l (print_step J) (0, b'{' ∷ [])) [
    | none ↦ none
    | some (i, dst) ↦ some (J.ugly (dst ++ b'}' ∷ []))
  ]

skip_entry-end : skip_entry [] ≡ finish
unfolding skip_entry
skip_entry-end = rw uvarint_nil refl

module _ {N : Numbers} where
  skip_entry-bytes :
      (num : ℕ) (f : Field N) (tail : Str)
      → num < 2 ^ 64
      → IsStored f
      → skip_entry (entry_bytes num f ++ tail)
        ≡ entry [] f.value.kind (stored_text f) (length (entry_bytes num f))
  unfolding skip_entry entry_bytes
  skip_entry-bytes num f tail small kept =
      let n = put_uvarint num in
      let rest = f.value.kind ∷ payload f in
      let there : (length n == 0) ≡ false = ground (arith, put_uvarint_pos num) in
      rw
        (
          append_assoc n rest tail,
          uvarint-put_uvarint num (rest ++ tail) small,
          there,
          drop-append n (rest ++ tail),
          length-append n rest,
        )
        (read_payload [] (length n) f tail kept.fits)

  len_loop-Encodes :
      (sh : Shared) (l : List (Field N)) (P b : Str) (fuel count : ℕ)
      → Encodes sh l b
      → length l < fuel
      → len_loop fuel (P ++ b) (length P) count ≡ some (count + length l)
  unfolding len_loop len_step
  len_loop-Encodes sh l P b zero count e h = absurd (omega arith)
  len_loop-Encodes sh [] P b (suc fuel) count e h =
      let all : count + 0 ≡ count = omega arith in rw (drop-append P b, e, skip_entry-end, all) refl
  len_loop-Encodes sh (f ∷ l) P b (suc fuel) count (num, tail, named, small, kept, at, rest) h =
      let ih =
        len_loop-Encodes sh l (P ++ entry_bytes num f) tail fuel (count + 1) rest (omega arith) in
      let ih' : len_loop fuel (P ++ (entry_bytes num f ++ tail))
            (length P + length (entry_bytes num f)) (count + 1)
          ≡ some (count + 1 + length l) =
        rw (← append_assoc P (entry_bytes num f) tail, ← length-append P (entry_bytes num f)) ih in
      let total : count + 1 + length l ≡ count + suc (length l) = omega arith in
      rw (at, drop-append P (entry_bytes num f ++ tail), skip_entry-bytes num f tail small kept)
        (ih' ∙ rw total refl)

  -- `Len` on the bytes of a list ends without a panic, and counts its fields.
  pub len-Encodes :
      (sh : Shared) (fs : Fields) (l : List (Field N))
      → Encodes sh l (ptob fs)
      → len fs ≡ some (length l)
  unfolding len
  len-Encodes sh fs l e =
      let all : 0 + length l ≡ length l = omega arith in
      len_loop-Encodes sh l [] (ptob fs) (suc (length (ptob fs))) 0 e
        (omega (arith, Encodes-length sh l (ptob fs) e))
      ∙ rw all refl
