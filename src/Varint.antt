-- ===== src/Varint.antt =====
-- Variable-length integers, as internal/legacy/object/object_binary.go reads them (`uvarint`,
-- `varint`) and as Go's encoding/binary writes them (`PutUvarint`, `PutVarint`). A byte is a number
-- below 256.
pub mod RoundTrip
use mathlib.Core.Logic.{dite}
use mathlib.Core.WellFounded.{Acc}
use native.Mathlib.Decide.{dec_lt}
use spatialdb_engine.Base.{
  ℕ, suc, Bool, false, ◌+◌, ◌*◌, ◌/◌, ◌%◌, ◌^◌, ◌<◌, List, [], ◌∷◌, arith, ltb, ◌==◌, if◌then◌else◌,
}
use spatialdb_engine.Base.Text.{Str}
use spatialdb_engine.Base.Int.{ℤ, pos, negsuc}
use spatialdb_engine.Base.Order.{lt_wf}

shift_shrinks : (x : ℕ) → 127 < x → x / 128 < x
shift_shrinks x h = omega arith

-- `PutUvarint`: while `x >= 0x80`, the low seven bits with the high bit set.
pub put_loop : (x : ℕ) → Acc ◌<◌ x → Str
put_loop x (Acc.intro _ smaller) =
    dite (dec_lt 127 x)
      (λ h. (x % 128 + 128) ∷ put_loop (x / 128) (smaller (x / 128) (shift_shrinks x h)))
      (λ _. x ∷ [])

pub put_uvarint : ℕ → Str
put_uvarint x = put_loop x (lt_wf.apply x)

abbrev pub is_zero : ℤ → Bool
is_zero (pos n) = n == 0
is_zero (negsuc n) = false

-- `PutVarint`: `ux := uint64(x) << 1; if x < 0 { ux = ^ux }`.
pub zigzag : ℤ → ℕ
zigzag (pos n) = 2 * n
zigzag (negsuc n) = 2 * n + 1

unfoldable pub put_varint : ℤ → Str
put_varint x = put_uvarint (zigzag x)

-- `uint64(b) << (i*7)`, cut to 64 bits. It is added to an `x` whose bits all lie below it, so that
-- `|` is `+`.
abbrev pub group : ℕ → ℕ → ℕ
group b i = b * 2 ^ (i * 7) % 2 ^ 64

-- The loop of `uvarint` at index `i`: the value and the number of bytes read, or (0, 0).
pub uvarint_from : Str → ℕ → ℕ → ℕ × ℕ
uvarint_from [] i x = (0, 0)
uvarint_from (b ∷ s) i x =
    let more = uvarint_from s (i + 1) (x + group (b % 128) i) in
    if ltb b 0x80 then (x + group b i, i + 1) else more

unfoldable pub uvarint : Str → ℕ × ℕ
unfolding uvarint_from
uvarint s = uvarint_from s 0 0

-- `x := int64(ux >> 1); if ux&1 != 0 { x = ^x }`, where `^x` is -x - 1.
unfoldable pub varint : Str → ℤ × ℕ
varint s = let (ux, n) = uvarint s in (if ux % 2 == 0 then pos (ux / 2) else negsuc (ux / 2), n)
