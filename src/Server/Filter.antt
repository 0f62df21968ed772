-- ===== src/Server/Filter.antt =====
-- The filters of a search: internal/legacy/server/token.go (`whereT`, `whereinT`) and the tests of
-- internal/legacy/server/scanner.go.
use spatialdb_engine.Base.{
  Bool, true, false, not, ◌&&◌, ◌||◌, Option, none, some, List, [], ◌∷◌, ◌==◌, if◌then◌else◌, drop,
}
use spatialdb_engine.Base.Text.{Str, codes, str_eq}
use spatialdb_engine.Geometry.{Geometry, FieldLists}
use spatialdb_engine.Object.{Object, Geo, object_geo}
use spatialdb_engine.Field.{Numbers, Json, Value, less, equals, value_of}
use spatialdb_engine.Glob.{Matcher}

-- What the filters take from other packages: gjson on the members of a shape, the text of a
-- Z coordinate, the expression evaluator and the scripts.
pub record Filters (N : Numbers) (G : Geometry) (F : FieldLists) : Type 1 where
  -- The values of the field lists are those of field.go.
  pub as_value : F.Value → Value N
  pub json : Json
  pub matcher : Matcher
  pub members : Geo G → Str
  -- `gjson.Get`: the raw text of what a path names, if it exists.
  pub get_raw : Str → Str → Option Str
  pub z_text : Geo G → Str
  pub match_expr : Str → Object G F → Bool
  -- A script, and its answer on an object, or a `none` for an error.
  pub Script : Type 0
  pub run_script : Script → Object G F → Option Bool

-- `strings.HasPrefix`.
unfoldable pub has_prefix : Str → Str → Bool
has_prefix s [] = true
has_prefix [] (c ∷ key) = false
has_prefix (d ∷ s) (c ∷ key) = d == c && has_prefix s key

-- What stands behind the length of a key.
unfoldable pub behind : Str → Str → Str
behind s [] = s
behind [] (c ∷ key) = []
behind (d ∷ s) (c ∷ key) = behind s key

abbrev pub starts_dot : Str → Bool
starts_dot [] = false
starts_dot (c ∷ s) = c == b'.'

unfoldable pub is_path_key : Str → Str → Bool
unfolding has_prefix behind
is_path_key s key = has_prefix s key && (str_eq s key || starts_dot (behind s key))

module _ (N : Numbers) where
  pub record Where : Type 0 where
    pub expr : Bool
    pub name : Str
    pub minx : Bool
    pub min : Value N
    pub maxx : Bool
    pub max : Value N

  pub record Wherein : Type 0 where
    pub name : Str
    pub val_arr : List (Value N)

module _ {N : Numbers} where
  abbrev pub m_lt : Value N → Value N → Bool
  m_lt a b = less a b

  abbrev pub m_lte : Value N → Value N → Bool
  m_lte a b = not (m_lt b a)

  abbrev pub m_gt : Value N → Value N → Bool
  m_gt a b = m_lt b a

  abbrev pub m_gte : Value N → Value N → Bool
  m_gte a b = not (m_lt a b)

  abbrev pub m_eq : Value N → Value N → Bool
  m_eq a b = equals a b

  -- The ends of a range.
  unfoldable pub match_range : Where N → Value N → Bool
  match_range w value =
      if (if not w.minx then m_lt value w.min else m_lte value w.min)
      then false
      else not (if not w.maxx then m_gt value w.max else m_gte value w.max)

  unfoldable pub match_field : Where N → Value N → Bool
  unfolding match_range
  match_field w value =
      let op = λ (s : Str). str_eq w.min.text s in
      if op (codes "<")
      then m_lt value w.max
      else if op (codes "<=")
      then m_lte value w.max
      else if op (codes ">")
      then m_gt value w.max
      else if op (codes ">=")
      then m_gte value w.max
      else if op (codes "==")
      then m_eq value w.max
      else if op (codes "!=")
      then not (m_eq value w.max)
      else match_range w value

  unfoldable pub match_any : List (Value N) → Value N → Bool
  match_any [] value = false
  match_any (v ∷ vs) value = m_eq v value || match_any vs value

  module _ {G : Geometry} {F : FieldLists} (P : Filters N G F) where
    -- The value under a path into the properties, if there is one.
    unfoldable pub property : Object G F → Str → Option (Value N)
    property o name =
        if is_path_key name (codes "properties")
        then elim (P.get_raw (P.members (object_geo o)) (codes "properties")) [
          | none ↦ none
          | some raw ↦
              if str_eq name (codes "properties")
              then some (value_of P.json raw)
              else elim (P.get_raw raw (drop 1 (behind name (codes "properties")))) [
                | none ↦ none
                | some inner ↦ some (value_of P.json inner)
              ]
        ]
        else none

    unfoldable pub get_field_value : Object G F → Str → Value N
    unfolding property
    get_field_value o name = elim (property o name) [
      | some v ↦ v
      | none ↦
          if str_eq name (codes "z")
          then value_of P.json (P.z_text (object_geo o))
          else P.as_value (F.get o.fields name).1
    ]

    unfoldable pub match_where : Object G F → Where N → Bool
    unfolding get_field_value match_field
    match_where o w =
        if w.expr then P.match_expr w.name o else match_field w (get_field_value o w.name)

    unfoldable pub match_wheres : Object G F → List (Where N) → Bool
    unfolding match_where
    match_wheres o [] = true
    match_wheres o (w ∷ ws) = if not (match_where o w) then false else match_wheres o ws

    unfoldable pub match_whereins : Object G F → List (Wherein N) → Bool
    unfolding get_field_value match_any
    match_whereins o [] = true
    match_whereins o (w ∷ ws) =
        if not (match_any w.val_arr (get_field_value o w.name)) then false else match_whereins o ws

    -- The scripts in turn, until one fails or says no.
    unfoldable pub run_scripts : Object G F → List P.Script → Option Bool
    run_scripts o [] = some true
    run_scripts o (w ∷ ws) =
        let rest = run_scripts o ws in
        elim (P.run_script w o) [ none ↦ none | some b ↦ if b then rest else some false ]
