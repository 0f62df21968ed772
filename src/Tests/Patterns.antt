-- ===== src/Tests/Patterns.antt =====
-- The theorems on patterns at concrete inputs.
use spatialdb_engine.Tests.Instances.{stores}
use spatialdb_engine.Tests.Commands.{fleet, fleet-IsValid}
use spatialdb_engine.Base.{
  ◌≡◌, refl, Bool, true, false, ◌&&◌, none, some, [], ◌∷◌, ◌++◌, arith, ◌==◌, if◌then◌else◌,
}
use spatialdb_engine.Base.Text.{Str, codes, str_eq}
use spatialdb_engine.Glob.{Matcher, literal, is_match}
use spatialdb_engine.Glob.Limits.{StartsLiteral, is_bounded, has_escape, ends_max}
use spatialdb_engine.Server.{find, resp, ok}
use spatialdb_engine.Server.Patterns.{cmd_pdel, cmd_keys}
use spatialdb_engine.Server.Purges.{find-cmd_pdel}
use spatialdb_engine.Server.Listing.{matching_keys, cmd_keys_lem}

pub starts_with : Str → Str → Bool
starts_with [] s = true
starts_with (c ∷ p) [] = false
starts_with (c ∷ p) (d ∷ s) = c == d && starts_with p s

abbrev pub matcher : Matcher
matcher = record { matches = λ pattern s. some (starts_with (literal pattern) s) }

starts_with-append : (p s : Str) → starts_with p s ≡ true → (rest : Str) × (s ≡ p ++ rest)
unfolding starts_with
starts_with-append [] s h = (s, refl)
starts_with-append (c ∷ p) [] h = ground arith
starts_with-append (c ∷ p) (d ∷ s) h =
    let (rest, e) = starts_with-append p s (ground arith) in
    let same : d ≡ c = ground arith in (rest, rw (same, e) refl)

pub matcher-StartsLiteral : StartsLiteral matcher
matcher-StartsLiteral pattern s plain m = starts_with-append (literal pattern) s m

-- tr*
abbrev pub tr_star : Str
tr_star = codes "tr*"

pub tr_star-is_bounded : is_bounded tr_star ≡ true
unfolding is_bounded literal has_escape ends_max
tr_star-is_bounded = refl

pub tr_star-matches : is_match matcher tr_star (codes "truck") ≡ true
unfolding literal starts_with
tr_star-matches = refl

find-cmd_pdel_example :
    find stores
      (cmd_pdel stores matcher resp none
        (λ i. i)
        (codes "pdel" ∷ codes "fleet" ∷ tr_star ∷ [])
        fleet).0
      (codes "fleet")
      (codes "truck")
    ≡ (if str_eq (codes "fleet") (codes "fleet") && is_match matcher tr_star (codes "truck")
        then none
        else find stores fleet (codes "fleet") (codes "truck"))
find-cmd_pdel_example =
    find-cmd_pdel stores matcher resp none (λ i. i) (codes "pdel") (codes "fleet") tr_star fleet
      matcher-StartsLiteral tr_star-is_bounded fleet-IsValid (codes "fleet") (codes "truck")

cmd_keys_lem_example :
    cmd_keys stores matcher (codes "keys" ∷ tr_star ∷ []) fleet
    ≡ ok (matching_keys matcher tr_star (stores.cols.items fleet.cols))
cmd_keys_lem_example =
    cmd_keys_lem stores matcher (codes "keys") tr_star fleet matcher-StartsLiteral
      tr_star-is_bounded
