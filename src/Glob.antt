-- ===== src/Glob.antt =====
-- internal/legacy/glob/glob.go: what Parse makes of a pattern. The matching itself, the path.Match of
-- the Go library in match.go, is a parameter.
pub mod Limits
use mathlib.Core.List.{reverse}
use spatialdb_engine.Base.{
  ℕ, ◌+◌, ◌-◌, ◌≡◌, Bool, true, false, not, ◌&&◌, ◌||◌, Option, none, some, List, [], ◌∷◌, ◌++◌,
  ◌==◌, if◌then◌else◌, is_some,
}
use spatialdb_engine.Base.Text.{Str, codes}

-- `Match`: a `none` for an invalid pattern.
pub record Matcher : Type 0 where
  pub matches : Str → Str → Option Bool

pub record Glob : Type 0 where
  pub pattern : Str
  pub desc : Bool
  pub limits : Str × Str
  pub is_glob : Bool

abbrev pub is_special : ℕ → Bool
is_special c = c == b'[' || c == b'*' || c == b'?'

-- The bytes before the first special one: the loop of `Parse` counts them.
unfoldable pub literal : Str → Str
literal [] = []
literal (c ∷ s) = if is_special c then [] else c ∷ literal s

unfoldable pub has_special : Str → Bool
has_special [] = false
has_special (c ∷ s) = is_special c || has_special s

-- The upper end for the literal bytes: the last one raised, or a 0 behind a last 255.
unfoldable pub raise : Str → Str
raise [] = []
raise (c ∷ []) = if c == 255 then c ∷ 0 ∷ [] else (c + 1) ∷ []
raise (c ∷ d ∷ s) = c ∷ raise (d ∷ s)

-- The loop that lowers a string with a 0 at its end, over the bytes from the end on.
unfoldable pub lower_zeros : Str → Str
lower_zeros [] = []
lower_zeros (z ∷ []) = if z == 0 then [] else z ∷ []
lower_zeros (z ∷ c ∷ r) =
    let rest = lower_zeros (c ∷ r) in
    if z == 0 then if c == 0 then rest else 255 ∷ (c - 1) ∷ r else z ∷ c ∷ r

unfoldable pub lower_from_end : Str → Str
unfolding lower_zeros
lower_from_end [] = []
lower_from_end (c ∷ r) = if c == 0 then lower_zeros (c ∷ r) else (c - 1) ∷ r

-- The lower end for a descending search.
unfoldable pub lower : Str → Str
unfolding lower_from_end
lower a = reverse (lower_from_end (reverse a))

abbrev pub starts_with_star : Str → Bool
starts_with_star [] = false
starts_with_star (c ∷ s) = c == b'*'

abbrev pub is_empty : Str → Bool
is_empty [] = true
is_empty (c ∷ s) = false

-- `g.Limits[0] == "" && g.Limits[1] == ""`.
abbrev pub is_everything : Glob → Bool
is_everything g = is_empty g.limits.0 && is_empty g.limits.1

module _ (M : Matcher) where
  abbrev pub is_match : Str → Str → Bool
  is_match pattern s = elim (M.matches pattern s) [ some b ↦ b | none ↦ false ]

  -- `IsGlob`.
  unfoldable pub is_glob : Str → Bool
  is_glob pattern = has_special pattern && is_some (M.matches pattern (codes "whatever"))

  -- `Parse`.
  unfoldable pub parse : Str → Bool → Glob
  parse pattern desc =
      if starts_with_star pattern
      then record { pattern = pattern; desc = desc; limits = ([], []); is_glob = true }
      else if is_empty pattern
      then record { pattern = pattern; desc = desc; limits = ([], []); is_glob = false }
      else if is_empty (literal pattern)
      then record { pattern = pattern; desc = desc; limits = (pattern, pattern); is_glob = false }
      else record {
        pattern = pattern;
        desc = desc;
        limits =
            if desc
            then (raise (literal pattern), lower (literal pattern))
            else (literal pattern, raise (literal pattern));
        is_glob = is_glob pattern;
      }
