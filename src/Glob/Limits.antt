-- ===== src/Glob/Limits.antt =====
-- The limits that Parse of internal/legacy/glob/glob.go gives bound every match.
use mathlib.Core.List.{reverse, reverse-cons, reverse-reverse, append_assoc}
use spatialdb_engine.Base.{
  ℕ, zero, suc, ◌<◌, ◌≡◌, refl, sym, ap, ◌∙◌, Bool, true, false, not, ◌&&◌, ◌||◌, [], ◌∷◌, ◌++◌,
  ◌==◌, if◌then◌else◌, arith, Bool-cases, inl, inr,
}
use spatialdb_engine.Base.Text.{Str, str_lt, str_lt_asymm, prefix-not-lt}
use spatialdb_engine.Glob.{
  Matcher, Glob, literal, raise, lower_zeros, lower_from_end, lower, starts_with_star, is_empty,
  is_match, parse, is_everything,
}

unfoldable pub ends_max : Str → Bool
ends_max [] = false
ends_max (c ∷ []) = c == 255
ends_max (c ∷ d ∷ s) = ends_max (d ∷ s)

unfoldable pub has_escape : Str → Bool
has_escape [] = false
has_escape (c ∷ s) = c == b'\\' || has_escape s

raise-above :
    (a rest : Str) → is_empty a ≡ false → ends_max a ≡ false → str_lt (a ++ rest) (raise a) ≡ true
unfolding raise ends_max str_lt
raise-above [] rest e m = ground arith
raise-above (c ∷ []) rest e m = ground arith
raise-above (c ∷ d ∷ s) rest e m = ground (arith, raise-above (d ∷ s) rest refl m)

str_lt-append : (p s t : Str) (x y : ℕ) → x < y → str_lt (p ++ x ∷ s) (p ++ y ∷ t) ≡ true
unfolding str_lt
str_lt-append [] s t x y h = ground arith
str_lt-append (c ∷ p) s t x y h = ground (arith, str_lt-append p s t x y h)

reverse-cons-append : (c : ℕ) (r rest : Str) → reverse (c ∷ r) ++ rest ≡ reverse r ++ c ∷ rest
reverse-cons-append c r rest = rw (reverse-cons c r) (append_assoc (reverse r) (c ∷ []) rest)

str_lt-nil : (p s : Str) (c : ℕ) → str_lt [] (p ++ c ∷ s) ≡ true
unfolding str_lt
str_lt-nil [] s c = refl
str_lt-nil (d ∷ p) s c = refl

lower_zeros-below :
    (r rest : Str) → str_lt (reverse (lower_zeros (0 ∷ r))) (reverse (0 ∷ r) ++ rest) ≡ true
unfolding lower_zeros str_lt
lower_zeros-below [] rest = refl
lower_zeros-below (zero ∷ r) rest =
    rw (reverse-cons-append 0 (0 ∷ r) rest) (lower_zeros-below r (0 ∷ rest))
lower_zeros-below (suc c ∷ r) rest =
    let step : lower_zeros (0 ∷ suc c ∷ r) ≡ 255 ∷ c ∷ r = ground arith in
    rw
      (
        step,
        reverse-cons-append 0 (suc c ∷ r) rest,
        reverse-cons-append (suc c) r (0 ∷ rest),
        reverse-cons 255 (c ∷ r),
        reverse-cons-append c r (255 ∷ []),
      )
      (str_lt-append (reverse r) (255 ∷ []) (0 ∷ rest) c (suc c) (omega arith))

lower_from_end-below :
    (r rest : Str)
    → is_empty r ≡ false
    → str_lt (reverse (lower_from_end r)) (reverse r ++ rest) ≡ true
unfolding lower_from_end
lower_from_end-below [] rest e = ground arith
lower_from_end-below (zero ∷ r) rest e = lower_zeros-below r rest
lower_from_end-below (suc c ∷ r) rest e =
    let step : lower_from_end (suc c ∷ r) ≡ c ∷ r = ground arith in
    rw (step, reverse-cons-append (suc c) r rest, reverse-cons c r)
      (str_lt-append (reverse r) [] rest c (suc c) (omega arith))

is_empty-append : (r : Str) (c : ℕ) → is_empty (r ++ c ∷ []) ≡ false
is_empty-append [] c = refl
is_empty-append (d ∷ r) c = refl

is_empty-reverse : (a : Str) → is_empty (reverse a) ≡ is_empty a
is_empty-reverse [] = refl
is_empty-reverse (c ∷ s) = rw (reverse-cons c s) (is_empty-append (reverse s) c)

lower-below : (a rest : Str) → is_empty a ≡ false → str_lt (lower a) (a ++ rest) ≡ true
unfolding lower
lower-below a rest e =
    let e' : is_empty (reverse a) ≡ false = is_empty-reverse a ∙ e in
    ap (λ x. str_lt (reverse (lower_from_end (reverse a))) (x ++ rest)) (sym (reverse-reverse a))
    ∙ lower_from_end-below (reverse a) rest e'

-- What the documentation of path.Match says of a pattern without an escape in its literal bytes:
-- what it matches starts with them.
abbrev pub StartsLiteral : Matcher → Type 0
StartsLiteral M =
    (pattern s : Str)
    → has_escape (literal pattern) ≡ false
    → is_match M pattern s ≡ true
    → (rest : Str) × (s ≡ literal pattern ++ rest)

-- A pattern whose limits serve: it has literal bytes at its start, without an escape and with a last
-- one below 255, or it starts with a star, or it is empty.
unfoldable pub is_bounded : Str → Bool
is_bounded pattern =
    starts_with_star pattern
    || is_empty pattern
    || (not (is_empty (literal pattern))
        && not (has_escape (literal pattern))
        && not (ends_max (literal pattern)))

-- Whether the search between the limits, in their direction, meets a string.
unfoldable pub in_limits : Glob → Str → Bool
in_limits g s =
    is_everything g
    || (if g.desc
        then not (str_lt g.limits.0 s) && str_lt g.limits.1 s
        else not (str_lt s g.limits.0) && str_lt s g.limits.1)

-- For a pattern whose limits serve, each match lies between the limits, in both directions.
pub in_limits-parse :
    (M : Matcher) (pattern s : Str) (desc : Bool)
    → StartsLiteral M
    → is_bounded pattern ≡ true
    → is_match M pattern s ≡ true
    → in_limits (parse M pattern desc) s ≡ true
unfolding is_bounded in_limits parse
in_limits-parse M pattern s desc law b m = elim (Bool-cases (starts_with_star pattern)) [
  | inl t ↦ rw t refl
  | inr f ↦ elim (Bool-cases (is_empty pattern)) [
    | inl t ↦ rw (f, t) refl
    | inr e ↦
        let (rest, at) = law pattern s (ground arith) m in
        let up = raise-above (literal pattern) rest in
        let down = lower-below (literal pattern) rest in
        let over = prefix-not-lt (literal pattern) rest in
        rw at (
          ground (
            arith,
            up,
            down,
            over,
            str_lt_asymm (literal pattern ++ rest) (raise (literal pattern)),
          ))
  ]
]

pub desc-parse : (M : Matcher) (pattern : Str) (desc : Bool) → (parse M pattern desc).desc ≡ desc
unfolding parse
desc-parse M pattern desc = ground arith

-- The bounds of an ascending search hold of each match.
pub limits-parse :
    (M : Matcher) (pattern s : Str)
    → StartsLiteral M
    → is_bounded pattern ≡ true
    → is_everything (parse M pattern false) ≡ false
    → is_match M pattern s ≡ true
    → (not (str_lt s (parse M pattern false).limits.0) && str_lt s (parse M pattern false).limits.1)
      ≡ true
unfolding in_limits
limits-parse M pattern s law b e m =
    ground (arith, in_limits-parse M pattern s false law b m, desc-parse M pattern false)
