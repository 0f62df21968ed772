-- ===== src/Field.antt =====
-- internal/legacy/field/field.go: the values of fields and their order.
pub mod Order
pub mod Binary
use spatialdb_engine.Base.{
  ℕ, ◌+◌, ◌≡◌, Bool, true, false, not, ◌&&◌, ◌||◌, Option, none, some, List, [], ◌∷◌, ◌++◌, ltb,
  leb, ◌==◌, length, if◌then◌else◌,
}
use spatialdb_engine.Base.Text.{Str, codes, str_eq, str_lt}

-- float64, with the operations that the values apply to it, and what the numbers' texts parse to.
pub record Numbers : Type 1 where
  pub F64 : Type 0
  pub zero : F64
  pub less : F64 → F64 → Bool
  pub equal : F64 → F64 → Bool
  pub is_nan : F64 → Bool
  pub inf_sign : F64 → Option Bool
  pub nan : F64
  pub pinf : F64
  pub ninf : F64
  -- `strconv.ParseFloat`: a `none` for an error, and what it returns in any case.
  pub parse_float : Str → Option F64
  pub parse_float_lax : Str → F64

-- spatialdb-dev/gjson and spatialdb-dev/pretty, `strings.TrimSpace` and `strings.ToLower`.
pub record Json : Type 0 where
  pub valid : Str → Bool
  pub type_of : Str → ℕ
  pub string_of : Str → Str
  pub ugly : Str → Str
  pub quote : Str → Str
  pub trim : Str → Str
  pub lower : Str → Str
  -- `gjson.Get`: the type and the text of what a path names, if it exists.
  pub get_path : Str → Str → Option (ℕ × Str)

-- `Kind`, a byte.
abbrev pub null : ℕ
null = 0

abbrev pub false_kind : ℕ
false_kind = 1

abbrev pub number : ℕ
number = 2

abbrev pub string : ℕ
string = 3

abbrev pub true_kind : ℕ
true_kind = 4

abbrev pub json : ℕ
json = 5

module _ (N : Numbers) where
  pub record Value : Type 0 where
    pub kind : ℕ
    pub text : Str
    pub num : N.F64

  abbrev pub zero_value : Value
  zero_value = record { kind = number; text = codes "0"; num = N.zero }

  pub record Field : Type 0 where
    pub name : Str
    pub value : Value

  abbrev pub zero_field : Field
  zero_field = record { name = []; value = zero_value }

-- `stringLessInsensitive`: the bytes of A to Z stand for those of a to z.
abbrev pub is_upper : ℕ → Bool
is_upper c = leb b'A' c && leb c b'Z'

-- The four cases of a round of its loop: what the two bytes are compared as.
abbrev pub folded : ℕ → ℕ → ℕ × ℕ
folded a b =
    if is_upper a
    then if is_upper b then (a, b) else (a + 32, b)
    else if is_upper b
    then (a, b + 32)
    else (a, b)

unfoldable pub string_less_insensitive : Str → Str → Bool
string_less_insensitive [] [] = false
string_less_insensitive [] (b ∷ t) = true
string_less_insensitive (a ∷ s) [] = false
string_less_insensitive (a ∷ s) (b ∷ t) =
    let rest = string_less_insensitive s t in
    let (x, y) = folded a b in if ltb x y then true else if ltb y x then false else rest

-- `switch data[0]`.
abbrev pub starts_word : Str → Bool
starts_word [] = false
starts_word (c ∷ s) = c == b'-' || c == b'+' || c == b'I' || c == b'i' || c == b'N' || c == b'n'

module _ {N : Numbers} where
  -- `v == (Value{})` compares the fields.
  unfoldable pub is_zero : Value N → Bool
  is_zero v =
      (v.kind == number && str_eq v.text (codes "0") && N.equal v.num N.zero)
      || (v.kind == null && str_eq v.text [] && N.equal v.num N.zero)

  unfoldable pub less_case : Value N → Value N → Bool → Bool
  less_case v b case_sensitive =
      if ltb v.kind b.kind
      then true
      else if ltb b.kind v.kind
      then false
      else if v.kind == number
      then N.less v.num b.num
      else if v.kind == string
      then (if case_sensitive then str_lt v.text b.text else string_less_insensitive v.text b.text)
      else str_lt v.text b.text

  unfoldable pub less : Value N → Value N → Bool
  less v b = less_case v b false

  unfoldable pub equals : Value N → Value N → Bool
  equals v b = not (less v b) && not (less b v)

  -- `Value.JSON`.
  unfoldable pub to_json : Json → Value N → Str
  to_json J v =
      if v.kind == number
      then (if str_eq v.text (codes "NaN")
            || str_eq v.text (codes "+Inf")
            || str_eq v.text (codes "-Inf")
          then b'"' ∷ (v.text ++ b'"' ∷ [])
          else v.text)
      else if v.kind == string
      then J.quote v.text
      else if v.kind == true_kind
      then codes "true"
      else if v.kind == false_kind
      then codes "false"
      else if v.kind == null
      then (if v.kind == null && str_eq v.text [] && N.equal v.num N.zero
          then codes "0"
          else codes "null")
      else if v.kind == json
      then v.text
      else codes "0"

  abbrev pub field_weight : Field N → ℕ
  field_weight f = length f.name + 8 + length f.value.text

  abbrev number_of : Str → N.F64 → Value N
  number_of text num = record { kind = number; text = text; num = num }

  abbrev text_of : ℕ → Str → Value N
  text_of kind text = record { kind = kind; text = text; num = N.zero }

  -- The words for NaN and the infinities, and any other text, at the end of `ValueOf`.
  pub word_value : Json → Str → Value N
  word_value J text =
      let low = J.lower text in
      let is = λ (w : Str). str_eq low w in
      if leb 3 (length text) && leb (length text) 9 && starts_word text
      then (if is (codes "nan")
          then number_of (codes "NaN") N.nan
          else if is (codes "inf")
              || is (codes "+inf")
              || is (codes "infinity")
              || is (codes "+infinity")
          then number_of (codes "+Inf") N.pinf
          else if is (codes "-inf") || is (codes "-infinity")
          then number_of (codes "-Inf") N.ninf
          else text_of string text)
      else text_of string text

  -- The text is no number: a JSON value, or the text of a JSON string.
  pub json_value : Json → Str → Value N
  unfolding word_value
  json_value J data_text =
      let text = J.trim data_text in
      if not (J.valid data_text)
      then word_value J data_text
      else if J.type_of text == null
      then text_of null (codes "null")
      else if J.type_of text == json
      then text_of json (J.ugly text)
      else if J.type_of text == true_kind
      then text_of true_kind (codes "true")
      else if J.type_of text == false_kind
      then text_of false_kind (codes "false")
      else word_value J (J.string_of text)

  -- The text parses as a float.
  pub float_value : Json → Str → N.F64 → Value N
  unfolding word_value
  float_value J text num = elim (N.inf_sign num) [
    | some true ↦ number_of (codes "+Inf") N.pinf
    | some false ↦ number_of (codes "-Inf") N.ninf
    | none ↦
        if N.is_nan num
        then number_of (codes "NaN") N.nan
        else if J.valid text
        then number_of text num
        else word_value J text
  ]

  pub value_from : Json → Str → Option N.F64 → Value N
  unfolding json_value float_value
  value_from J text none = json_value J text
  value_from J text (some num) = float_value J text num

  unfoldable pub value_of : Json → Str → Value N
  unfolding value_from
  value_of J text = value_from J (J.trim text) (N.parse_float (J.trim text))

  abbrev pub make : Json → Str → Str → Field N
  make J name text = record { name = J.trim name; value = value_of J text }
