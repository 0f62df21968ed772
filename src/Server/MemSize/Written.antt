-- ===== src/Server/MemSize/Written.antt =====
-- A memory size of internal/legacy/server/config.go, written and read back.
use spatialdb_engine.Base.{
  ℕ, ◌-◌, ◌*◌, ◌/◌, ◌%◌, ◌^◌, ◌<◌, ◌≤◌, ◌≡◌, refl, sym, ap, ◌∙◌, Bool, true, false, not, ◌&&◌, some,
  [], ◌∷◌, ◌++◌, ltb, leb, ◌==◌, length, take, length-append, take-append, arith, if◌then◌else◌,
  All, Bool-cases, inl, inr,
}
use spatialdb_engine.Base.Text.{Str, codes, str_eq}
use spatialdb_engine.Base.Int.{pos}
use mathlib.Core.List.{append-nil}
use spatialdb_engine.Server.Scanner.{int_of}
use spatialdb_engine.Server.MemSize.{
  Decimals, has_suffix, without_unit, scaled, parse_lower, parse_mem_size, format_positive,
  format_mem_size,
}

abbrev pub is_digit : ℕ → Bool
is_digit c = leb b'0' c && leb c b'9'

abbrev pub is_small : ℕ → Bool
is_small c = not (leb b'A' c && leb c b'Z')

-- What the Go library documents: digits, which are read back, and letters that are small already.
pub record IsDecimal (D : Decimals) : Type 0 where
  pub digits : (n : ℕ) → All (λ c. is_digit c ≡ true) (D.format_int n)
  pub some_digit : (n : ℕ) → 0 < length (D.format_int n)
  pub read_back : (n : ℕ) → n < 2 ^ 64 → D.parse_uint (D.format_int n) ≡ some n
  pub lowered : (s : Str) → All (λ c. is_small c ≡ true) s → D.lower s ≡ s

abbrev Digits : Str → Type 0
Digits = All (λ c. is_digit c ≡ true)

no_unit : (u : ℕ) (s : Str) → 57 < u → Digits s → has_suffix s (u ∷ b'b' ∷ []) ≡ false
unfolding has_suffix str_eq
no_unit u [] h d = refl
no_unit u (c ∷ s) h d = ground (arith, no_unit u s h d.1)

with_unit :
    (u v : ℕ) (s : Str)
    → 57 < v
    → Digits s
    → has_suffix (s ++ u ∷ b'b' ∷ []) (v ∷ b'b' ∷ []) ≡ (u == v)
unfolding has_suffix str_eq
with_unit u v [] h d = ground arith
with_unit u v (c ∷ s) h d = ground (arith, with_unit u v s h d.1)

without-unit : (u : ℕ) (s : Str) → without_unit (s ++ u ∷ b'b' ∷ []) ≡ s
without-unit u s =
    let e : length (s ++ u ∷ b'b' ∷ []) - 2 ≡ length s =
      omega (arith, length-append s (u ∷ b'b' ∷ [])) in
    ap (λ n. take n (s ++ u ∷ b'b' ∷ [])) e ∙ take-append s (u ∷ b'b' ∷ [])

append-Digits :
    (s t : Str) → Digits s → All (λ c. is_small c ≡ true) t → All (λ c. is_small c ≡ true) (s ++ t)
append-Digits [] t d h = h
append-Digits (c ∷ s) t d h = (ground (arith, d.0), append-Digits s t d.1 h)

-- What a size is after it has been written.
abbrev pub rounded : ℕ → ℕ
rounded sz =
    if ltb sz 1024
    then sz
    else if ltb (sz / 1024) 1024
    then sz / 1024 * 1024
    else if ltb (sz / 1024 / 1024) 1024
    then sz / 1024 / 1024 * (1024 * 1024)
    else sz / 1024 / 1024 / 1024 * (1024 * 1024 * 1024)

small_mod : (x : ℕ) → x < 2 ^ 63 → x % 2 ^ 64 ≡ x
small_mod x h = omega arith

int_of_small : (x : ℕ) → x < 2 ^ 63 → int_of x ≡ pos x
unfolding int_of
int_of_small x h = ground arith

-- The written size is not above the size, and is more than half of it.
rounded_lem : (sz : ℕ) → 0 < sz → (rounded sz ≤ sz) × (sz < 2 * rounded sz)
rounded_lem sz h = elim (Bool-cases (ltb sz 1024)) [
  | inl t ↦ rw t (omega arith, omega arith)
  | inr a ↦ elim (Bool-cases (ltb (sz / 1024) 1024)) [
    | inl t ↦ rw (a, t) (ground arith, ground arith)
    | inr b ↦ elim (Bool-cases (ltb (sz / 1024 / 1024) 1024)) [
      | inl t ↦ rw (a, b, t) (ground arith, ground arith)
      | inr c ↦ rw (a, b, c) (ground arith, ground arith)
    ]
  ]
]

module _ (D : Decimals) (decimal : IsDecimal D) where
  parse-format_int :
      (n unit : ℕ)
      → n * unit < 2 ^ 63
      → n < 2 ^ 63
      → scaled D (D.parse_uint (D.format_int n)) unit ≡ some (pos (n * unit))
  unfolding scaled
  parse-format_int n unit h k =
      rw (decimal.read_back n (omega arith), small_mod (n * unit) h, int_of_small (n * unit) h) refl

  parse_nonempty : (s : Str) → 0 < length s → parse_mem_size D s ≡ parse_lower D (D.lower s)
  unfolding parse_mem_size
  parse_nonempty [] h = absurd (omega arith)
  parse_nonempty (c ∷ s) h = refl

  parse_written :
      (n : ℕ) (tail : Str)
      → All (λ c. is_small c ≡ true) tail
      → parse_mem_size D (D.format_int n ++ tail) ≡ parse_lower D (D.format_int n ++ tail)
  parse_written n tail small =
      parse_nonempty (D.format_int n ++ tail)
        (omega (arith, length-append (D.format_int n) tail, decimal.some_digit n))
      ∙ ap (parse_lower D) (
          decimal.lowered (D.format_int n ++ tail)
            (append-Digits (D.format_int n) tail (decimal.digits n) small))

  -- What is read behind each unit, and without one.
  parse_gb :
      (n : ℕ)
      → parse_mem_size D (D.format_int n ++ codes "gb")
        ≡ scaled D (D.parse_uint (D.format_int n)) (1024 * 1024 * 1024)
  unfolding parse_lower
  parse_gb n =
      let d = decimal.digits n in
      parse_written n (codes "gb") (refl, (refl, tt))
      ∙ rw
          (with_unit b'g' b'g' (D.format_int n) (omega arith) d, without-unit b'g' (D.format_int n))
          refl

  parse_mb :
      (n : ℕ)
      → parse_mem_size D (D.format_int n ++ codes "mb")
        ≡ scaled D (D.parse_uint (D.format_int n)) (1024 * 1024)
  unfolding parse_lower
  parse_mb n =
      let d = decimal.digits n in
      parse_written n (codes "mb") (refl, (refl, tt))
      ∙ rw
          (
            with_unit b'm' b'g' (D.format_int n) (omega arith) d,
            with_unit b'm' b'm' (D.format_int n) (omega arith) d,
            without-unit b'm' (D.format_int n),
          )
          refl

  parse_kb :
      (n : ℕ)
      → parse_mem_size D (D.format_int n ++ codes "kb")
        ≡ scaled D (D.parse_uint (D.format_int n)) 1024
  unfolding parse_lower
  parse_kb n =
      let d = decimal.digits n in
      parse_written n (codes "kb") (refl, (refl, tt))
      ∙ rw
          (
            with_unit b'k' b'g' (D.format_int n) (omega arith) d,
            with_unit b'k' b'm' (D.format_int n) (omega arith) d,
            with_unit b'k' b'k' (D.format_int n) (omega arith) d,
            without-unit b'k' (D.format_int n),
          )
          refl

  parse_plain :
      (n : ℕ) → parse_mem_size D (D.format_int n) ≡ scaled D (D.parse_uint (D.format_int n)) 1
  unfolding parse_lower
  parse_plain n =
      let d = decimal.digits n in
      ap (parse_mem_size D) (sym (append-nil (D.format_int n)))
      ∙ parse_written n [] tt
      ∙ ap (parse_lower D) (append-nil (D.format_int n))
      ∙ rw
          (
            no_unit b'g' (D.format_int n) (omega arith) d,
            no_unit b'm' (D.format_int n) (omega arith) d,
            no_unit b'k' (D.format_int n) (omega arith) d,
          )
          refl

  parse-format_positive :
      (sz : ℕ)
      → 0 < sz
      → sz < 2 ^ 63
      → parse_mem_size D (format_positive D sz) ≡ some (pos (rounded sz))
  unfolding format_positive
  parse-format_positive sz h k =
      let below = (rounded_lem sz h).0 in
      elim (Bool-cases (ltb sz 1024)) [
        | inl t ↦
            let one : sz * 1 ≡ sz = omega arith in
            rw t (parse_plain sz ∙ parse-format_int sz 1 (omega arith) k ∙ rw one refl)
        | inr a ↦ elim (Bool-cases (ltb (sz / 1024) 1024)) [
          | inl t ↦
              rw (a, t)
                (parse_kb (sz / 1024)
                  ∙ parse-format_int (sz / 1024) 1024 (omega arith) (omega arith))
          | inr b ↦ elim (Bool-cases (ltb (sz / 1024 / 1024) 1024)) [
            | inl t ↦
                rw (a, b, t)
                  (parse_mb (sz / 1024 / 1024)
                    ∙ parse-format_int (sz / 1024 / 1024) (1024 * 1024) (omega arith) (omega arith))
            | inr c ↦
                rw (a, b, c)
                  (parse_gb (sz / 1024 / 1024 / 1024)
                    ∙ parse-format_int (sz / 1024 / 1024 / 1024) (1024 * 1024 * 1024) (omega arith)
                        (omega arith))
          ]
        ]
      ]

  -- If the decimals are those of the Go library, then a memory size from 1 to below 2 ^ 63 is read back
  -- as it is written, rounded down to its unit: not above the size, and more than half of it.
  pub parse-format_mem_size :
      (sz : ℕ)
      → 0 < sz
      → sz < 2 ^ 63
      → (parse_mem_size D (format_mem_size D (pos sz)) ≡ some (pos (rounded sz)))
        × (rounded sz ≤ sz)
        × (sz < 2 * rounded sz)
  unfolding format_mem_size
  parse-format_mem_size sz h k =
      let (low, high) = rounded_lem sz h in
      let some_size : ltb 0 sz ≡ true = ground arith in
      (rw some_size (parse-format_positive sz h k), low, high)
