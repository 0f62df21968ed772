-- ===== src/Varint/RoundTrip.antt =====
-- What `PutUvarint` and `PutVarint` write is what `uvarint` and `varint` read.
use mathlib.Core.Logic.{dif_pos, dif_neg}
use mathlib.Core.WellFounded.{Acc}
use native.Mathlib.Decide.{dec_lt}
use native.Mathlib.Bridge.{le_prop}
use native.Mathlib.Numerals.{towards_suc}
use spatialdb_engine.Base.{
  true, false, ℕ, ◌+◌, ◌*◌, ◌/◌, ◌%◌, ◌^◌, ◌<◌, ◌≡◌, refl, ap, [], ◌∷◌, ◌++◌, arith, ◌==◌, length,
}
use spatialdb_engine.Base.Text.{Str}
use spatialdb_engine.Base.Int.{ℤ, pos, negsuc}
use spatialdb_engine.Base.Order.{lt_wf}
use spatialdb_engine.Varint.{
  shift_shrinks, put_loop, put_uvarint, put_varint, zigzag, group, uvarint, uvarint_from, varint,
  is_zero,
}

next_group : (i : ℕ) → 2 ^ ((i + 1) * 7) ≡ 128 * 2 ^ (i * 7)
next_group i =
    let e : (i + 1) * 7 ≡ i * 7 + 7 = omega arith in rw e (simp towards_suc (omega arith))

-- One group fits the 64 bits, and leaves the rest of the number for the groups behind it.
split_group : (x p : ℕ) → x % 128 * p + x / 128 * (128 * p) ≡ x * p
split_group x p =
    let e : x % 128 + 128 * (x / 128) ≡ x = omega arith in omega (arith, ap (λ (t : ℕ). t * p) e)

mod_small : (x m : ℕ) → x < m → x % m ≡ x
mod_small x m h = grind arith

group_low :
    (x i : ℕ) → x * 2 ^ (i * 7) < 2 ^ 64 → group ((x % 128 + 128) % 128) i ≡ x % 128 * 2 ^ (i * 7)
group_low x i h =
    let e : (x % 128 + 128) % 128 ≡ x % 128 = omega arith in
    rw e (mod_small _ _ (omega (arith, split_group x (2 ^ (i * 7)))))

uvarint_from-put_loop :
    (x : ℕ) (w : Acc ◌<◌ x) (i acc : ℕ) (rest : Str)
    → acc + x * 2 ^ (i * 7) < 2 ^ 64
    → uvarint_from (put_loop x w ++ rest) i acc ≡ (acc + x * 2 ^ (i * 7), i + length (put_loop x w))
unfolding uvarint_from put_loop
uvarint_from-put_loop x (Acc.intro _ smaller) i acc rest h = elim (dec_lt 127 x) [
  | yes p ↦
      let fits : acc + x % 128 * 2 ^ (i * 7) + x / 128 * 2 ^ ((i + 1) * 7) < 2 ^ 64 =
        rw (next_group i) (omega (arith, split_group x (2 ^ (i * 7)))) in
      let rest_of =
        uvarint_from-put_loop (x / 128) (smaller (x / 128) (shift_shrinks x p)) (i + 1)
          (acc + x % 128 * 2 ^ (i * 7)) rest fits in
      rw (dif_pos _ le_prop p)
        (ground (arith, rest_of, group_low x i, next_group i, split_group x (2 ^ (i * 7))))
  | no p ↦ rw (dif_neg _ p) (ground (arith, mod_small (x * 2 ^ (i * 7)) (2 ^ 64)))
]

-- A 64-bit number is read back from what was written, whatever bytes follow.
pub uvarint-put_uvarint :
    (x : ℕ) (rest : Str)
    → x < 2 ^ 64
    → uvarint (put_uvarint x ++ rest) ≡ (x, length (put_uvarint x))
unfolding uvarint put_uvarint
uvarint-put_uvarint x rest h =
    ground (arith, uvarint_from-put_loop x (lt_wf.apply x) 0 0 rest (omega arith))

put_loop_pos : (x : ℕ) (w : Acc ◌<◌ x) → 0 < length (put_loop x w)
unfolding put_loop
put_loop_pos x (Acc.intro _ smaller) = elim (dec_lt 127 x) [
  | yes p ↦ rw (dif_pos _ le_prop p) (omega arith)
  | no p ↦ rw (dif_neg _ p) (omega arith)
]

pub put_uvarint_pos : (x : ℕ) → 0 < length (put_uvarint x)
unfolding put_uvarint
put_uvarint_pos x = put_loop_pos x (lt_wf.apply x)

put_loop_small : (x : ℕ) (acc : Acc ◌<◌ x) → x < 128 → put_loop x acc ≡ x ∷ []
unfolding put_loop
put_loop_small x (Acc.intro _ smaller) h = elim (dec_lt 127 x) [
  | yes p ↦ absurd (omega arith)
  | no p ↦ rw (dif_neg _ p) refl
]

pub put_uvarint_small : (x : ℕ) → x < 128 → put_uvarint x ≡ x ∷ []
unfolding put_uvarint
put_uvarint_small x h = put_loop_small x (lt_wf.apply x) h

pub uvarint_nil : uvarint [] ≡ (0, 0)
unfolding uvarint
uvarint_nil = refl

-- The range of an int64.
abbrev pub InInt64 : ℤ → Type 0
InInt64 (pos n) = n < 2 ^ 63
InInt64 (negsuc n) = n < 2 ^ 63

-- An int64 is read back from what PutVarint wrote, with its sign and the number of bytes, whatever
-- bytes follow.
pub varint-put_varint :
    (x : ℤ) (rest : Str) → InInt64 x → varint (put_varint x ++ rest) ≡ (x, length (put_varint x))
unfolding varint put_varint zigzag
varint-put_varint (pos n) rest h = ground (arith, uvarint-put_uvarint (2 * n) rest (omega arith))
varint-put_varint (negsuc n) rest h =
    ground (arith, uvarint-put_uvarint (2 * n + 1) rest (omega arith))

-- A varint of a number other than 0 does not begin with a zero byte.
put_loop_head :
    (x : ℕ) (w : Acc ◌<◌ x)
    → 0 < x
    → (b : ℕ) × (s : Str) × (put_loop x w ≡ b ∷ s) × ((b == 0) ≡ false)
unfolding put_loop
put_loop_head x (Acc.intro _ smaller) h = elim (dec_lt 127 x) [
  | yes p ↦ (
    x % 128 + 128,
    put_loop (x / 128) (smaller (x / 128) (shift_shrinks x p)),
    rw (dif_pos _ le_prop p),
    ground arith,
  )
  | no p ↦ (x, [], rw (dif_neg _ p), ground arith)
]

pub put_varint_head :
    (x : ℤ) → is_zero x ≡ false → (b : ℕ) × (s : Str) × (put_varint x ≡ b ∷ s) × ((b == 0) ≡ false)
unfolding put_varint put_uvarint zigzag
put_varint_head (pos n) h = put_loop_head (2 * n) (lt_wf.apply _) (ground arith)
put_varint_head (negsuc n) h = put_loop_head (2 * n + 1) (lt_wf.apply _) (omega arith)

pub zero_of_is_zero : (x : ℤ) → is_zero x ≡ true → x ≡ pos 0
zero_of_is_zero (pos n) h = ground arith
zero_of_is_zero (negsuc n) h = cc

pub varint_zero : (s : Str) → varint (0 ∷ s) ≡ (pos 0, 1)
unfolding varint uvarint
varint_zero s = refl
