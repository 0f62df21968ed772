-- ===== src/Server/Scanner/Ranges.antt =====
-- The limits of several patterns, as `multiGlobParse` of internal/legacy/server/search.go joins them.
use spatialdb_engine.Base.{
  ◌≡◌, Bool, true, false, not, ◌&&◌, List, [], ◌∷◌, arith, All, Bool-cases, inl, inr,
}
use spatialdb_engine.Base.Text.{Str, str_lt, str_lt_trans, str_lt_connex}
use spatialdb_engine.Glob.{Matcher, is_match, parse, is_empty, is_everything}
use spatialdb_engine.Glob.Limits.{StartsLiteral, is_bounded, limits-parse}
use spatialdb_engine.Server.Scanner.{any_match, min_str, max_str, multi_limits, multi_glob_parse}

unfoldable pub in_range : Str × Str → Str → Bool
in_range (lo, hi) s = not (str_lt s lo) && str_lt s hi

abbrev pub is_open : Str × Str → Bool
is_open limits = is_empty limits.0 && is_empty limits.1

module _ (M : Matcher) (law : StartsLiteral M) where
  in_range-wider :
      (lo hi a b s : Str)
      → in_range (lo, hi) s ≡ true
      → in_range (min_str lo a, max_str hi b) s ≡ true
  unfolding in_range
  in_range-wider lo hi a b s h = ground (arith, str_lt_trans s a lo, str_lt_trans s hi b)

  in_range-second :
      (lo hi a b s : Str)
      → in_range (a, b) s ≡ true
      → in_range (min_str lo a, max_str hi b) s ≡ true
  unfolding in_range
  in_range-second lo hi a b s h =
      ground
        (arith, str_lt_trans s lo a, str_lt_connex a lo, str_lt_connex hi b, str_lt_trans s b hi)

  -- The limits of several patterns hold each match of each, and what the first limits held.
  multi_limits-in_range :
      (gs : List Str) (lo hi s : Str)
      → All (λ g. is_bounded g ≡ true) gs
      → is_open (multi_limits M false gs (lo, hi)) ≡ false
      → (in_range (lo, hi) s ≡ true → in_range (multi_limits M false gs (lo, hi)) s ≡ true)
        × (any_match M gs s ≡ true → in_range (multi_limits M false gs (lo, hi)) s ≡ true)
  unfolding multi_limits any_match
  multi_limits-in_range [] lo hi s b e = (λ h. h, λ h. absurd (ground arith))
  multi_limits-in_range (g ∷ gs) lo hi s b e = elim (Bool-cases (is_everything (parse M g false))) [
    | inl t ↦ absurd (ground arith)
    | inr f ↦
        let p = (parse M g false).limits in
        let (first, later) =
          multi_limits-in_range gs (min_str lo p.0) (max_str hi p.1) s b.1 (ground arith) in
        (
          λ h. rw f (first (in_range-wider lo hi p.0 p.1 s h)),
          λ h. rw f (elim (Bool-cases (is_match M g s)) [
            | inl m ↦ first (
                in_range-second lo hi p.0 p.1 s (unfold in_range in limits-parse M g s law b.0 f m))
            | inr n ↦ later (ground arith)
          ]),
        )
  ]

  pub multi_glob_parse-in_range :
      (gs : List Str) (s : Str)
      → All (λ g. is_bounded g ≡ true) gs
      → is_open (multi_glob_parse M false gs) ≡ false
      → any_match M gs s ≡ true
      → in_range (multi_glob_parse M false gs) s ≡ true
  unfolding multi_glob_parse any_match
  multi_glob_parse-in_range [] s b e h = ground arith
  multi_glob_parse-in_range (g ∷ gs) s b e h = elim (Bool-cases (is_everything (parse M g false))) [
    | inl t ↦ absurd (ground arith)
    | inr f ↦
        let p = (parse M g false).limits in
        let (first, later) = multi_limits-in_range gs p.0 p.1 s b.1 (ground arith) in
        rw f (elim (Bool-cases (is_match M g s)) [
          | inl m ↦ first (unfold in_range in limits-parse M g s law b.0 f m)
          | inr n ↦ later (ground arith)
        ])
  ]
