-- ===== src/Field/Binary/Found.antt =====
-- What `List.Get` of internal/legacy/field/list_binary.go finds in a list of fields, in terms of the
-- fields alone.
use spatialdb_engine.Base.{
  ℕ, ◌==◌, ◌||◌, ◌≡◌, refl, ap, ◌∙◌, Bool, false, if◌then◌else◌, Option-cases, Bool-cases, inl, inr,
  none, some, List, [], ◌∷◌, arith, All,
}
use spatialdb_engine.Base.Text.{Str, codes, str_eq, str_lt, str_eq_iff}
use spatialdb_engine.Shared.{Shared}
use spatialdb_engine.Field.{
  Numbers, Json, Field, zero_field, json, null, false_kind, true_kind, number,
}
use spatialdb_engine.Field.Binary.{ptob, Fields, stored_text, get, split_dot, bfield}
use spatialdb_engine.Field.Binary.Encoding.{IsStored, Encodes}
use spatialdb_engine.Field.Binary.Reads.{
  find_name, path_step, find_path, find_field, get-find_field,
}

abbrev pub has_dot : Str → Bool
has_dot [] = false
has_dot (c ∷ s) = c == b'.' || has_dot s

abbrev pub before_dot : Str → Str
before_dot [] = []
before_dot (c ∷ s) = if c == b'.' then [] else c ∷ before_dot s

abbrev pub behind_dot : Str → Str
behind_dot [] = []
behind_dot (c ∷ s) = if c == b'.' then s else behind_dot s

split_dot-has_dot :
    (name : Str)
    → split_dot name ≡ (if has_dot name then some (before_dot name, behind_dot name) else none)
unfolding split_dot
split_dot-has_dot [] = refl
split_dot-has_dot (c ∷ s) = elim (Bool-cases (c == b'.')) [
  | inl t ↦ rw t refl
  | inr f ↦
      rw (f, split_dot-has_dot s)
        (elim (Bool-cases (has_dot s)) [ inl t ↦ rw t refl | inr g ↦ rw g refl ])
]

module _ {N : Numbers} where
  -- The first field of a name, in front of every greater name.
  abbrev pub found_name : Str → List (Field N) → Field N
  found_name name [] = zero_field N
  found_name name (f ∷ l) =
      let rest = found_name name l in
      if str_lt name f.name then zero_field N else if str_eq f.name name then f else rest

  -- What a path gives: a field of the whole name, of the kind and the text that gjson answers, in the
  -- words of JSON for a null and for the two truth values, and with the number of a numeral.
  abbrev pub path_field : Str → ℕ → Str → Field N
  path_field name kind text = record {
    name = name;
    value = record {
      kind = kind;
      text =
          if kind == null
          then codes "null"
          else if kind == false_kind
          then codes "false"
          else if kind == true_kind
          then codes "true"
          else text;
      num = if kind == number then N.parse_float_lax text else N.zero;
    };
  }

  -- A JSON field of the name in front of the dot gives what the path behind the dot leads to, and a field
  -- of the whole name that is not JSON gives itself; a JSON field whose name is greater than the front ends
  -- the search, as does another whose name is greater than the whole.
  abbrev pub found_step : Json → Str → Str → Str → Field N → Field N → Field N
  found_step J front path name f rest =
      if f.value.kind == json
      then (if str_lt front f.name
          then zero_field N
          else if str_eq f.name front
          then (elim (J.get_path (stored_text f) path) [
            | none ↦ rest
            | some (k, s) ↦ path_field name k s
          ])
          else rest)
      else if str_lt name f.name
      then zero_field N
      else if str_eq f.name name
      then f
      else rest

  abbrev pub found_path : Json → Str → Str → Str → List (Field N) → Field N
  found_path J front path name [] = zero_field N
  found_path J front path name (f ∷ l) =
      found_step J front path name f (found_path J front path name l)

  -- By the front and the path of a name with a dot, or by the name.
  abbrev pub found_field : Json → Str → List (Field N) → Field N
  found_field J name l =
      if has_dot name
      then found_path J (before_dot name) (behind_dot name) name l
      else found_name name l

  name_step :
      (name : Str) (f rest : Field N)
      → IsStored f
      → (if str_lt name f.name
          then zero_field N
          else if str_eq f.name name
          then bfield name f.value.kind (stored_text f)
          else rest)
        ≡ (if str_lt name f.name then zero_field N else if str_eq f.name name then f else rest)
  name_step name f rest h = ground (arith, h.canonical, str_eq_iff f.name name)

  find_name-found_name :
      (name : Str) (l : List (Field N)) → All IsStored l → find_name name l ≡ found_name name l
  find_name-found_name name [] h = refl
  find_name-found_name name (f ∷ l) h =
      name_step name f (find_name name l) h.0
      ∙ ap (λ r. if str_lt name f.name then zero_field N else if str_eq f.name name then f else r)
          (find_name-found_name name l h.1)

  path_step-found_step :
      (J : Json) (front path name : Str) (f rest : Field N)
      → IsStored f
      → path_step J front path name f rest ≡ found_step J front path name f rest
  unfolding bfield
  path_step-found_step J front path name f rest h =
      elim (Option-cases (J.get_path (stored_text f) path)) [
        | inl n ↦ rw n (elim (Bool-cases (f.value.kind == json)) [
          | inl t ↦ rw t refl
          | inr k ↦ rw k (name_step name f rest h)
        ])
        | inr (r, n) ↦ rw n (elim (Bool-cases (f.value.kind == json)) [
          | inl t ↦ rw t refl
          | inr k ↦ rw k (name_step name f rest h)
        ])
      ]

  find_path-found_path :
      (J : Json) (front path name : Str) (l : List (Field N))
      → All IsStored l
      → find_path J front path name l ≡ found_path J front path name l
  find_path-found_path J front path name [] h = refl
  find_path-found_path J front path name (f ∷ l) h =
      path_step-found_step J front path name f (find_path J front path name l) h.0
      ∙ ap (found_step J front path name f) (find_path-found_path J front path name l h.1)

  find_field-found_field :
      (J : Json) (name : Str) (l : List (Field N))
      → All IsStored l
      → find_field J (split_dot name) name l ≡ found_field J name l
  find_field-found_field J name l h = elim (Bool-cases (has_dot name)) [
    | inl t ↦
        rw (split_dot-has_dot name, t)
          (find_path-found_path J (before_dot name) (behind_dot name) name l h)
    | inr f ↦ rw (split_dot-has_dot name, f) (find_name-found_name name l h)
  ]

  Encodes-IsStored : (sh : Shared) (l : List (Field N)) (b : Str) → Encodes sh l b → All IsStored l
  Encodes-IsStored sh [] b e = tt
  Encodes-IsStored sh (f ∷ l) b (num, tail, name, small, stored, at, rest) =
      (stored, Encodes-IsStored sh l tail rest)

  -- `Get` on the bytes of a list never panics. Of a name without a dot it answers the first field of
  -- that name, in front of every greater one; of a name with a dot what the path behind its first dot
  -- gives in the JSON field of the name in front of it, or a field of the whole name that is not JSON.
  pub get-Encodes :
      (J : Json) (sh : Shared) (fs : Fields) (l : List (Field N)) (name : Str)
      → Encodes sh l (ptob fs)
      → get J sh fs name ≡ some (found_field J name l)
  get-Encodes J sh fs l name e =
      get-find_field J sh fs l name e
      ∙ ap some (find_field-found_field J name l (Encodes-IsStored sh l (ptob fs) e))
