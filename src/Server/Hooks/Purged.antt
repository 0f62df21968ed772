-- ===== src/Server/Hooks/Purged.antt =====
-- PDELHOOK, PDELCHAN, HOOKS and CHANS of internal/legacy/server/hooks.go: the hooks that a pattern
-- finds, and what is left behind their removal.
use mathlib.Core.List.{append_assoc, append-nil}
use spatialdb_engine.Base.{
  ℕ, ◌≡◌, refl, sym, ap, ◌∙◌, Bool, true, false, not, ◌&&◌, ◌||◌, some, List, [], ◌∷◌, ◌++◌, arith,
  if◌then◌else◌, keep_if, All, Bool-cases, inl, inr,
}
use spatialdb_engine.Base.Text.{
  Str, str_eq, str_lt, str_eq_iff, str_lt_trans, str_lt_asymm, str_lt_irrefl,
}
use spatialdb_engine.Geometry.{Geometry}
use spatialdb_engine.Index.Sorted.{IsSorted, find_by, from_item}
use spatialdb_engine.Index.Kept.{keep, keep_all, keep-keep, keep-found, IsSorted-from_item}
use spatialdb_engine.Collection.Walk.{each}
use spatialdb_engine.Glob.{Matcher, is_match, parse, is_empty}
use spatialdb_engine.Glob.Limits.{StartsLiteral, is_bounded, limits-parse}
use spatialdb_engine.Server.{OutputType}
use spatialdb_engine.Server.Hooks.{
  Hook, by_hook_name, bool_eq, named, HookTrees, HookStore, get_hook, del_hook_op,
}
use spatialdb_engine.Server.Hooks.Removal.{
  is_chosen, hook_step, hooks_by_pattern, pdel_hooks, cmd_pdel_hook,
}
use spatialdb_engine.Server.Hooks.Store.{listed, IsRegistry, found_name}
use spatialdb_engine.Server.Hooks.Removed.{del_hook_op-IsRegistry, get-del_hook_op}

-- The limits of a pattern, as the search by name uses them.
within_limits :
    (lo hi k : Str)
    → ((is_empty lo && is_empty hi) ≡ false → (not (str_lt k lo) && str_lt k hi) ≡ true)
    → (not (str_lt k lo) && (is_empty hi || not (str_lt hi k))) ≡ true
unfolding str_lt
within_limits [] [] [] h = refl
within_limits [] [] (c ∷ k) h = refl
within_limits [] (d ∷ hi) k h = ground (arith, h refl, str_lt_asymm k (d ∷ hi))
within_limits (d ∷ lo) hi k h = ground (arith, h refl, str_lt_asymm k hi)

module _ {G : Geometry} (M : Matcher) (pattern : Str) (channel : Bool) where
  abbrev chosen : List (Hook G) → List (Hook G)
  chosen = keep_if (is_chosen M pattern channel)

  module _ (lo hi : Str)
      (inside : (k : Str)
        → is_match M pattern k ≡ true
        → (not (str_lt k lo) && (is_empty hi || not (str_lt hi k))) ≡ true) where
    none_above :
        (h : Hook G) (l : List (Hook G))
        → (not (is_empty hi) && str_lt hi h.name) ≡ true
        → All (λ y. by_hook_name h y ≡ true) l
        → chosen l ≡ []
    unfolding by_hook_name
    none_above h [] above all = refl
    none_above h (y ∷ l) above all =
        ground (arith, none_above h l above all.1, inside y.name, str_lt_trans hi h.name y.name)

    each-hook_step :
        (l found : List (Hook G))
        → IsSorted by_hook_name l
        → each (hook_step M pattern channel hi) l found ≡ found ++ chosen l
    unfolding each hook_step
    each-hook_step [] found s = sym (append-nil found)
    each-hook_step (h ∷ l) found s = ground (
      arith,
      each-hook_step l found s.1,
      each-hook_step l (found ++ h ∷ []) s.1,
      append_assoc found (h ∷ []) (chosen l),
      append-nil found,
      none_above h l,
      s.0,
      inside h.name,
    )

    chosen-from : (l : List (Hook G)) → chosen (from_item by_hook_name (named lo) l) ≡ chosen l
    unfolding from_item by_hook_name
    chosen-from [] = refl
    chosen-from (h ∷ l) = ground (arith, chosen-from l, inside h.name)

module _ {G : Geometry} (T : HookTrees G) (M : Matcher) (pattern : Str) (channel : Bool) where
  -- If a match starts with the literal bytes of its pattern, then a pattern whose limits serve finds
  -- exactly the hooks of the kind whose names match, in the order of the names.
  pub hooks_by_pattern_lem :
      (s : HookStore T)
      → StartsLiteral M
      → is_bounded pattern ≡ true
      → hooks_by_pattern T M pattern channel s ≡ chosen M pattern channel (listed T s)
  unfolding hooks_by_pattern
  hooks_by_pattern_lem s law b =
      let g = parse M pattern false in
      let lo = g.limits.0 in
      let hi = g.limits.1 in
      let inside = λ (k : Str) (m : is_match M pattern k ≡ true).
        within_limits lo hi k (λ f. limits-parse M pattern k law b f m) in
      rw (T.by_name.ascend_lem s.hooks (named lo)) (
        each-hook_step M pattern channel lo hi inside
          (from_item by_hook_name (named lo) (listed T s)) []
          (IsSorted-from_item by_hook_name (named lo) (listed T s) (T.by_name.items_sorted s.hooks))
        ∙ chosen-from M pattern channel lo hi inside (listed T s))

  -- Whether a removal of some hooks takes a hook.
  abbrev among : List (Hook G) → Hook G → Bool
  among [] k = false
  among (h ∷ hs) k =
      (bool_eq h.channel channel && str_eq h.name k.name && bool_eq k.channel channel) || among hs k

  pdel_one : Hook G → HookStore T → HookStore T
  pdel_one h s = if not (bool_eq h.channel channel) then s else (del_hook_op T h.name channel s).0

  pdel_one-IsRegistry :
      (h : Hook G) (s : HookStore T) → IsRegistry T s → IsRegistry T (pdel_one h s)
  unfolding pdel_one
  pdel_one-IsRegistry h s v = elim (Bool-cases (bool_eq h.channel channel)) [
    | inl t ↦ rw t (del_hook_op-IsRegistry T h.name channel s v)
    | inr f ↦ rw f v
  ]

  get-pdel_one :
      (h : Hook G) (s : HookStore T) (j : Str)
      → get_hook T (pdel_one h s) j
        ≡ keep
            (λ k.
              not (bool_eq h.channel channel && str_eq h.name k.name && bool_eq k.channel channel))
            (get_hook T s j)
  unfolding pdel_one
  get-pdel_one h s j = elim (Bool-cases (bool_eq h.channel channel)) [
    | inl t ↦ rw t (get-del_hook_op T h.name channel s j)
    | inr f ↦ rw f (sym (keep_all (λ k. true) (λ k. refl) (get_hook T s j)))
  ]

  pdel_hooks-IsRegistry :
      (hs : List (Hook G)) (count : ℕ) (s : HookStore T)
      → IsRegistry T s
      → IsRegistry T (pdel_hooks T channel hs count s).0
  unfolding pdel_hooks pdel_one
  pdel_hooks-IsRegistry [] count s v = v
  pdel_hooks-IsRegistry (h ∷ hs) count s v =
      pdel_hooks-IsRegistry hs _ (pdel_one h s) (pdel_one-IsRegistry h s v)

  get-pdel_hooks :
      (hs : List (Hook G)) (count : ℕ) (s : HookStore T) (j : Str)
      → get_hook T (pdel_hooks T channel hs count s).0 j
        ≡ keep (λ k. not (among hs k)) (get_hook T s j)
  unfolding pdel_hooks pdel_one
  get-pdel_hooks [] count s j = sym (keep_all (λ k. true) (λ k. refl) (get_hook T s j))
  get-pdel_hooks (h ∷ hs) count s j =
      get-pdel_hooks hs _ (pdel_one h s) j
      ∙ ap (keep (λ k. not (among hs k))) (get-pdel_one h s j)
      ∙ keep-keep (λ k. not (among hs k)) _ (λ k. not (among (h ∷ hs) k)) (λ k. ground arith)
          (get_hook T s j)

  not_among-above :
      (h : Hook G) (l : List (Hook G))
      → All (λ y. by_hook_name h y ≡ true) l
      → among (chosen M pattern channel l) h ≡ false
  unfolding by_hook_name
  not_among-above h [] a = refl
  not_among-above h (y ∷ l) a =
      ground (arith, not_among-above h l a.1, str_eq_iff y.name h.name, str_lt_irrefl h.name)

  -- A hook that a lookup finds is taken where it is chosen.
  among-chosen :
      (q h : Hook G) (l : List (Hook G))
      → IsSorted by_hook_name l
      → find_by by_hook_name q l ≡ some h
      → among (chosen M pattern channel l) h ≡ is_chosen M pattern channel h
  unfolding find_by by_hook_name
  among-chosen q h [] s e = ground arith
  among-chosen q h (z ∷ l) s e = ground (
    arith,
    among-chosen q h l s.1,
    not_among-above z l,
    s.0,
    found_name q h l,
    str_eq_iff q.name h.name,
    str_eq_iff z.name h.name,
    str_eq_iff z.name z.name,
    str_lt_irrefl z.name,
  )

  cmd_pdel_hook-IsRegistry :
      (O V : Type 0) (out : OutputType) (args : List Str) (s : HookStore T)
      → IsRegistry T s
      → IsRegistry T (cmd_pdel_hook T {O = O} {V = V} M channel out args s).0
  unfolding cmd_pdel_hook
  cmd_pdel_hook-IsRegistry O V out [] s v = v
  cmd_pdel_hook-IsRegistry O V out (p ∷ []) s v = elim (Bool-cases (is_empty p)) [
    | inl t ↦ rw t v
    | inr f ↦ rw f (pdel_hooks-IsRegistry (hooks_by_pattern T M p channel s) 0 s v)
  ]
  cmd_pdel_hook-IsRegistry O V out (p ∷ arg ∷ rest) s v = v

  get-cmd_pdel_hook :
      (O V : Type 0) (out : OutputType) (s : HookStore T) (j : Str)
      → StartsLiteral M
      → is_bounded pattern ≡ true
      → is_empty pattern ≡ false
      → get_hook T (cmd_pdel_hook T {O = O} {V = V} M channel out (pattern ∷ []) s).0 j
        ≡ keep (λ h. not (is_chosen M pattern channel h)) (get_hook T s j)
  unfolding cmd_pdel_hook get_hook
  get-cmd_pdel_hook O V out s j law b ne =
      rw (ne, hooks_by_pattern_lem s law b)
        (get-pdel_hooks (chosen M pattern channel (listed T s)) 0 s j
          ∙ keep-found _ (λ h. not (is_chosen M pattern channel h)) (get_hook T s j)
              (λ h e.
                ap not (among-chosen (named j) h (listed T s) (T.by_name.items_sorted s.hooks) e)))

  -- If a match starts with the literal bytes of its pattern, then PDELHOOK and PDELCHAN, of a pattern
  -- whose limits serve and that is not empty, with trees that agree, keep the trees in agreement and take exactly the hooks
  -- of their kind whose names match.
  pub cmd_pdel_hook_lem :
      (O V : Type 0) (out : OutputType) (s : HookStore T)
      → StartsLiteral M
      → is_bounded pattern ≡ true
      → is_empty pattern ≡ false
      → IsRegistry T s
      → IsRegistry T (cmd_pdel_hook T {O = O} {V = V} M channel out (pattern ∷ []) s).0
        × ((j : Str)
            → get_hook T (cmd_pdel_hook T {O = O} {V = V} M channel out (pattern ∷ []) s).0 j
              ≡ keep
                  (λ h. not (bool_eq h.channel channel && is_match M pattern h.name))
                  (get_hook T s j))
  cmd_pdel_hook_lem O V out s law b ne v = (
    cmd_pdel_hook-IsRegistry O V out (pattern ∷ []) s v,
    λ j. get-cmd_pdel_hook O V out s j law b ne,
  )
