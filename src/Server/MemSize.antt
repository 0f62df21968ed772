-- ===== src/Server/MemSize.antt =====
-- The memory sizes of internal/legacy/server/config.go: `parseMemSize` and `formatMemSize`.
pub mod Written
use spatialdb_engine.Base.{
  ℕ, ◌+◌, ◌-◌, ◌*◌, ◌/◌, ◌%◌, ◌^◌, Bool, true, false, ◌||◌, Option, none, some, List, [], ◌∷◌, ◌++◌,
  ltb, length, take, if◌then◌else◌,
}
use spatialdb_engine.Base.Text.{Str, codes, str_eq}
use spatialdb_engine.Base.Int.{ℤ, pos, negsuc}
use spatialdb_engine.Server.Scanner.{int_of}

-- `strconv.ParseUint(s, 10, 64)`, `strconv.FormatInt(n, 10)` of a number that is not negative, and
-- `strings.ToLower`.
pub record Decimals : Type 0 where
  pub parse_uint : Str → Option ℕ
  pub format_int : ℕ → Str
  pub lower : Str → Str

-- `strings.HasSuffix`.
unfoldable pub has_suffix : Str → Str → Bool
has_suffix [] suffix = str_eq [] suffix
has_suffix (c ∷ s) suffix = str_eq (c ∷ s) suffix || has_suffix s suffix

-- `s[:len(s)-2]`.
abbrev pub without_unit : Str → Str
without_unit s = take (length s - 2) s

module _ (D : Decimals) where
  -- The product of the uint64, as an int64.
  unfoldable pub scaled : Option ℕ → ℕ → Option ℤ
  scaled none unit = none
  scaled (some n) unit = some (int_of (n * unit % 2 ^ 64))

  unfoldable pub parse_lower : Str → Option ℤ
  unfolding scaled
  parse_lower s =
      if has_suffix s (codes "gb")
      then scaled (D.parse_uint (without_unit s)) (1024 * 1024 * 1024)
      else if has_suffix s (codes "mb")
      then scaled (D.parse_uint (without_unit s)) (1024 * 1024)
      else if has_suffix s (codes "kb")
      then scaled (D.parse_uint (without_unit s)) 1024
      else scaled (D.parse_uint s) 1

  unfoldable pub parse_mem_size : Str → Option ℤ
  unfolding parse_lower
  parse_mem_size [] = some (pos 0)
  parse_mem_size (c ∷ s) = parse_lower (D.lower (c ∷ s))

  -- A size above 0.
  unfoldable pub format_positive : ℕ → Str
  format_positive sz =
      if ltb sz 1024
      then D.format_int sz
      else if ltb (sz / 1024) 1024
      then D.format_int (sz / 1024) ++ codes "kb"
      else if ltb (sz / 1024 / 1024) 1024
      then D.format_int (sz / 1024 / 1024) ++ codes "mb"
      else D.format_int (sz / 1024 / 1024 / 1024) ++ codes "gb"

  unfoldable pub format_mem_size : ℤ → Str
  unfolding format_positive
  format_mem_size (negsuc n) = []
  format_mem_size (pos sz) = if ltb 0 sz then format_positive sz else []
