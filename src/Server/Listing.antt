-- ===== src/Server/Listing.antt =====
-- KEYS of internal/legacy/server/keys.go: the keys that it answers.
use mathlib.Core.List.{append_assoc, append-nil}
use spatialdb_engine.Base.{
  ◌≡◌, refl, sym, true, false, not, ◌&&◌, List, [], ◌∷◌, ◌++◌, map, arith, keep_if, All, Bool-cases,
  inl, inr,
}
use spatialdb_engine.Base.Text.{Str, str_lt, str_lt_trans, str_lt_asymm}
use spatialdb_engine.Geometry.{Geometry, FieldLists}
use spatialdb_engine.Index.Sorted.{KeysSorted, from_key}
use spatialdb_engine.Collection.{Trees}
use spatialdb_engine.Collection.Walk.{each}
use spatialdb_engine.Collection.Visited.{KeysSorted-from}
use spatialdb_engine.Glob.{Matcher, is_match, parse, is_everything}
use spatialdb_engine.Glob.Limits.{StartsLiteral, is_bounded, limits-parse}
use spatialdb_engine.Server.{Stores, Server, ok}
use spatialdb_engine.Server.Patterns.{key_step, key_step_to, keys_of, cmd_keys}

module _ {V : Type 0} (M : Matcher) (pattern : Str) where
  abbrev pub matching_keys : List (Str × V) → List Str
  matching_keys l = map (λ (e : Str × V). e.0) (keep_if (λ (e : Str × V). is_match M pattern e.0) l)

  each-key_step :
      (l : List (Str × V)) (keys : List Str)
      → each (key_step M pattern) l keys ≡ keys ++ matching_keys l
  unfolding each key_step
  each-key_step [] keys = sym (append-nil keys)
  each-key_step ((k, v) ∷ l) keys = ground (
    arith,
    each-key_step l keys,
    each-key_step l (keys ++ k ∷ []),
    append_assoc keys (k ∷ []) (matching_keys l),
  )

  module _ (lo hi : Str)
      (inside : (k : Str)
        → is_match M pattern k ≡ true
        → (not (str_lt k lo) && str_lt k hi) ≡ true) where
    none_above :
        (k : Str) (l : List (Str × V))
        → str_lt hi k ≡ true
        → All (λ (e : Str × V). str_lt k e.0 ≡ true) l
        → matching_keys l ≡ []
    none_above k [] h above = refl
    none_above k ((j, v) ∷ l) h above =
        ground (arith, none_above k l h above.1, inside j, str_lt_trans hi k j, str_lt_asymm hi j)

    each-key_step_to :
        (l : List (Str × V)) (keys : List Str)
        → KeysSorted l
        → each (key_step_to M pattern hi) l keys ≡ keys ++ matching_keys l
    unfolding each key_step_to key_step
    each-key_step_to [] keys s = sym (append-nil keys)
    each-key_step_to ((k, v) ∷ l) keys s = ground (
      arith,
      each-key_step_to l keys s.1,
      each-key_step_to l (keys ++ k ∷ []) s.1,
      append_assoc keys (k ∷ []) (matching_keys l),
      append-nil keys,
      none_above k l,
      s.0,
      inside k,
      str_lt_asymm hi k,
    )

    matching_keys-from : (l : List (Str × V)) → matching_keys (from_key lo l) ≡ matching_keys l
    unfolding from_key
    matching_keys-from [] = refl
    matching_keys-from ((k, v) ∷ l) = ground (arith, matching_keys-from l, inside k)

module _ {G : Geometry} {F : FieldLists} {X : Trees G F} (Y : Stores X) where
  -- If a match starts with the literal bytes of its pattern, then KEYS of a pattern whose limits serve
  -- answers exactly the keys of the server that match, in order.
  pub cmd_keys_lem :
      (M : Matcher) (name pattern : Str) (s : Server Y)
      → StartsLiteral M
      → is_bounded pattern ≡ true
      → cmd_keys Y M (name ∷ pattern ∷ []) s ≡ ok (matching_keys M pattern (Y.cols.items s.cols))
  unfolding cmd_keys keys_of
  cmd_keys_lem M name pattern s law b =
      let items = Y.cols.items s.cols in
      let sorted = Y.cols.items_sorted s.cols in
      let g = parse M pattern false in
      elim (Bool-cases (is_everything g)) [
        | inl t ↦ rw (t, each-key_step M pattern items []) refl
        | inr f ↦
            let inside =
              λ (k : Str) (m : is_match M pattern k ≡ true). limits-parse M pattern k law b f m in
            let lo = g.limits.0 in
            let hi = g.limits.1 in
            rw
              (
                f,
                Y.cols.ascend_lem s.cols lo,
                each-key_step_to M pattern lo hi inside (from_key lo items) []
                    (KeysSorted-from (λ c. true) lo items sorted),
                matching_keys-from M pattern lo hi inside items,
              )
              refl
      ]
