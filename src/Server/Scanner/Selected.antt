-- ===== src/Server/Scanner/Selected.antt =====
-- What an object has to pass in a search of internal/legacy/server/scanner.go, said in one sentence.
use spatialdb_engine.Base.{
  ◌≡◌, refl, ap, ◌∙◌, Bool, true, false, ◌&&◌, ◌||◌, Option, none, some, List, [], ◌∷◌, arith,
  keep_if, if◌then◌else◌, is_some, All,
}
use spatialdb_engine.Base.Text.{Str, codes, str_eq}
use spatialdb_engine.Geometry.{Geometry, FieldLists}
use spatialdb_engine.Object.{Object, object_id}
use spatialdb_engine.Field.{Numbers, Value, equals}
use spatialdb_engine.Glob.{Matcher, is_match}
use spatialdb_engine.Server.Filter.{
  Filters, Wherein, match_any, match_where, match_wheres, match_whereins, get_field_value,
  run_scripts,
}
use spatialdb_engine.Server.Scanner.{
  Search, with_defaults, matches_all, any_match, field_match, glob_match, test_object,
}
use spatialdb_engine.Server.Scanner.Push.{passes, Answers}

abbrev pub all_of : {A : Type 0} → (A → Bool) → List A → Bool
all_of p [] = true
all_of p (x ∷ l) = p x && all_of p l

abbrev pub any_of : {A : Type 0} → (A → Bool) → List A → Bool
any_of p [] = false
any_of p (x ∷ l) = p x || any_of p l

-- No pattern at all, or the one that is a star.
abbrev pub is_free : List Str → Bool
is_free [] = true
is_free (g ∷ []) = str_eq g (codes "*")
is_free (g ∷ h ∷ gs) = false

matches_all-is_free : (gs : List Str) → matches_all gs ≡ is_free gs
matches_all-is_free [] = refl
matches_all-is_free (g ∷ []) = refl
matches_all-is_free (g ∷ h ∷ gs) = refl

any_match-any_of :
    (M : Matcher) (gs : List Str) (s : Str) → any_match M gs s ≡ any_of (λ g. is_match M g s) gs
unfolding any_match
any_match-any_of M [] s = refl
any_match-any_of M (g ∷ gs) s = ap (λ b. is_match M g s || b) (any_match-any_of M gs s)

pub keep_if-ext :
    {A : Type 0} (p q : A → Bool) (l : List A) → ((a : A) → p a ≡ q a) → keep_if p l ≡ keep_if q l
keep_if-ext p q [] h = refl
keep_if-ext p q (x ∷ l) h = ground (arith, h x, keep_if-ext p q l h)

abbrev pub yes : Option Bool → Bool
yes none = false
yes (some b) = b

-- The script in front, and the scripts behind it.
yes-step :
    (t rest : Option Bool)
    → yes (elim t [ none ↦ none | some b ↦ if b then rest else some false ]) ≡ (yes t && yes rest)
yes-step none rest = refl
yes-step (some true) rest = refl
yes-step (some false) rest = refl

ends-step :
    (t rest : Option Bool)
    → is_some t ≡ true
    → is_some rest ≡ true
    → is_some (elim t [ none ↦ none | some b ↦ if b then rest else some false ]) ≡ true
ends-step none rest h r = h
ends-step (some true) rest h r = r
ends-step (some false) rest h r = refl

module _ {N : Numbers} {G : Geometry} {F : FieldLists} (P : Filters N G F) where
  -- A script that says yes.
  abbrev pub accepts : Object G F → P.Script → Bool
  accepts o sc = yes (P.run_script sc o)

  -- The id matches one of the patterns, if there are any but a star, and the object passes each WHERE,
  -- has one of the values of each WHEREIN, and passes each script.
  abbrev pub selects : Search P → Object G F → Bool
  selects w o =
      (is_free w.globs || any_of (λ g. is_match P.matcher g (object_id o)) w.globs)
      && all_of (match_where P o) w.wheres
      && all_of (λ (i : Wherein N). any_of (λ v. equals v (get_field_value P o i.name)) i.val_arr)
          w.whereins
      && all_of (accepts o) w.whereevals

  module _ (o : Object G F) where
    match_wheres-all_of : (ws : List _) → match_wheres P o ws ≡ all_of (match_where P o) ws
    unfolding match_wheres
    match_wheres-all_of [] = refl
    match_wheres-all_of (w ∷ ws) = ground (arith, match_wheres-all_of ws)

    match_any-any_of :
        (v : Value N) (vs : List (Value N)) → match_any vs v ≡ any_of (λ x. equals x v) vs
    unfolding match_any
    match_any-any_of v [] = refl
    match_any-any_of v (x ∷ vs) = ap (λ b. equals x v || b) (match_any-any_of v vs)

    abbrev has_value : Wherein N → Bool
    has_value i = any_of (λ v. equals v (get_field_value P o i.name)) i.val_arr

    match_whereins-all_of : (ws : List (Wherein N)) → match_whereins P o ws ≡ all_of has_value ws
    unfolding match_whereins
    match_whereins-all_of [] = refl
    match_whereins-all_of (w ∷ ws) =
        ground
          (arith, match_any-any_of (get_field_value P o w.name) w.val_arr, match_whereins-all_of ws)

    run_scripts-all_of : (ws : List P.Script) → yes (run_scripts P o ws) ≡ all_of (accepts o) ws
    unfolding run_scripts
    run_scripts-all_of [] = refl
    run_scripts-all_of (w ∷ ws) =
        yes-step (P.run_script w o) (run_scripts P o ws)
        ∙ ap (λ b. accepts o w && b) (run_scripts-all_of ws)

    run_scripts-ends :
        (ws : List P.Script)
        → All (λ sc. is_some (P.run_script sc o) ≡ true) ws
        → is_some (run_scripts P o ws) ≡ true
    unfolding run_scripts
    run_scripts-ends [] h = refl
    run_scripts-ends (w ∷ ws) h =
        ends-step (P.run_script w o) (run_scripts P o ws) h.0 (run_scripts-ends ws h.1)

    yes-field_match :
        (w : Search P)
        → yes (field_match P w o) ≡ (
            all_of (match_where P o) w.wheres
            && all_of has_value w.whereins
            && all_of (accepts o) w.whereevals)
    unfolding field_match
    yes-field_match w = ground (
      arith,
      match_wheres-all_of w.wheres,
      match_whereins-all_of w.whereins,
      run_scripts-all_of w.whereevals,
    )

  -- No script fails.
  abbrev pub Runs : Search P → Type 0
  Runs w = (o : Object G F) → All (λ sc. is_some (P.run_script sc o) ≡ true) w.whereevals

  pub Runs-Answers : (w : Search P) → Runs w → Answers P w
  unfolding test_object field_match
  Runs-Answers w h o = ground (arith, run_scripts-ends o w.whereevals (h o))

  pub passes-selects :
      (w : Search P) (o : Object G F)
      → w.match_values ≡ false
      → passes P (with_defaults P w) o ≡ selects w o
  unfolding test_object glob_match
  passes-selects w o ids = ground (
    arith,
    ids,
    matches_all-is_free w.globs,
    any_match-any_of P.matcher w.globs (object_id o),
    yes-field_match o (with_defaults P w),
  )
