-- ===== src/Field/Order.antt =====
-- The order of the values of internal/legacy/field/field.go.
use spatialdb_engine.Base.{ℕ, ◌+◌, ◌≡◌, refl, ◌∙◌, true, false, [], ◌∷◌, map, arith, if◌then◌else◌}
use spatialdb_engine.Base.Text.{Str, str_lt, str_lt_irrefl, str_lt_trans}
use spatialdb_engine.Field.{
  Numbers, Value, is_upper, string_less_insensitive, less_case, less, equals,
}

-- A byte with the letters A to Z made small.
abbrev pub fold : ℕ → ℕ
fold c = if is_upper c then c + 32 else c

-- The comparison without case is the comparison of the texts with the letters A to Z made small.
pub string_less_insensitive-fold :
    (a b : Str) → string_less_insensitive a b ≡ str_lt (map fold a) (map fold b)
unfolding string_less_insensitive str_lt
string_less_insensitive-fold [] [] = refl
string_less_insensitive-fold [] (b ∷ t) = refl
string_less_insensitive-fold (a ∷ s) [] = refl
string_less_insensitive-fold (a ∷ s) (b ∷ t) = ground (arith, string_less_insensitive-fold s t)

insensitive_irrefl : (a : Str) → string_less_insensitive a a ≡ false
insensitive_irrefl a = string_less_insensitive-fold a a ∙ str_lt_irrefl (map fold a)

insensitive_trans :
    (a b c : Str)
    → string_less_insensitive a b ≡ true
    → string_less_insensitive b c ≡ true
    → string_less_insensitive a c ≡ true
insensitive_trans a b c =
    rw
      (
        string_less_insensitive-fold a b,
        string_less_insensitive-fold b c,
        string_less_insensitive-fold a c,
      )
      (str_lt_trans (map fold a) (map fold b) (map fold c))

module _ {N : Numbers} (irrefl : (x : N.F64) → N.less x x ≡ false)
    (trans : (x y z : N.F64) → N.less x y ≡ true → N.less y z ≡ true → N.less x z ≡ true) where
  -- If `<` of the floats is irreflexive and transitive, which it is with the NaNs too, so is `Less`
  -- on values of every kind.
  pub less_strict :
      ((v : Value N) → less v v ≡ false)
      × ((a b c : Value N) → less a b ≡ true → less b c ≡ true → less a c ≡ true)
  unfolding less less_case
  less_strict = (
    λ v. ground (arith, irrefl v.num, insensitive_irrefl v.text, str_lt_irrefl v.text),
    λ a b c h k. ground (
      arith,
      trans a.num b.num c.num,
      insensitive_trans a.text b.text c.text,
      str_lt_trans a.text b.text c.text,
    ),
  )

  pub equals_refl : (v : Value N) → equals v v ≡ true
  unfolding equals
  equals_refl v = ground (arith, less_strict.0 v)
