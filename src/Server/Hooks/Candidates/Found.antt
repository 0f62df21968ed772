-- ===== src/Server/Hooks/Candidates/Found.antt =====
-- The searches of `getQueueCandidates` of internal/legacy/server/aof.go, for a hook by its name.
use spatialdb_engine.Base.{
  ℕ, ◌≡◌, refl, ap, ◌∙◌, Bool, true, false, not, ◌&&◌, ◌||◌, Option, none, some, List, [], ◌∷◌,
  ◌++◌, arith, ltb, length, sum_of, if◌then◌else◌, All, Option-cases, inl, inr,
}
use spatialdb_engine.Base.Text.{
  Str, str_eq, str_eq_iff, str_lt, str_lt_irrefl, str_lt_connex, str_lt_asymm,
}
use spatialdb_engine.Geometry.{Geometry, Rect}
use spatialdb_engine.Index.{SameItems}
use spatialdb_engine.Index.Sorted.{IsSorted, find_by, opt_sum}
use spatialdb_engine.Index.Boxes.{weigh, boxes, sum-boxes}
use spatialdb_engine.Server.Hooks.{Hook, by_hook_name, named, HookTrees}
use spatialdb_engine.Server.Hooks.Store.{found_name}
use spatialdb_engine.Server.Hooks.Candidates.{has_hook, collect}

abbrev pub on_found : {A : Type 0} → (A → Bool) → Option A → Bool
on_found p none = false
on_found p (some a) = p a

module _ {G : Geometry} (name key : Str) where
  -- A hook of the name, on the key.
  abbrev pub is_it : Hook G → Bool
  is_it h = str_eq h.name name && str_eq h.key key

  abbrev pub any_it : List (Hook G) → Bool
  any_it [] = false
  any_it (h ∷ hs) = is_it h || any_it hs

  has_hook-append :
      (a b : List (Hook G)) → has_hook name (a ++ b) ≡ (has_hook name a || has_hook name b)
  unfolding has_hook
  has_hook-append [] b = refl
  has_hook-append (h ∷ a) b = ground (arith, has_hook-append a b)

  has_at :
      (h : Hook G) (found : List (Hook G))
      → str_eq h.name name ≡ true
      → has_hook h.name found ≡ has_hook name found
  has_at h found e = ap (λ (n : Str). has_hook n found) ((str_eq_iff h.name name).0 e)

  has_hook-add :
      (h : Hook G) (found : List (Hook G))
      → has_hook name
          (if str_eq h.key key && not (has_hook h.name found) then found ++ h ∷ [] else found)
        ≡ (has_hook name found || is_it h)
  unfolding has_hook
  has_hook-add h found = ground (arith, has_hook-append found (h ∷ []), has_at h found)

  pub has_hook-collect :
      (hs found : List (Hook G))
      → has_hook name (collect key found hs) ≡ (has_hook name found || any_it hs)
  unfolding collect
  has_hook-collect [] found = ground arith
  has_hook-collect (h ∷ hs) found = has_hook-collect hs _ ∙ ground (arith, has_hook-add h found)

  any_it-above :
      (h : Hook G) (l : List (Hook G))
      → str_lt h.name name ≡ false
      → All (λ y. by_hook_name h y ≡ true) l
      → any_it l ≡ false
  unfolding by_hook_name
  any_it-above h [] e a = refl
  any_it-above h (y ∷ l) e a = ground (arith, any_it-above h l e a.1, str_eq_iff y.name name)

  sum_it-above :
      (f : Hook G → ℕ) (h : Hook G) (l : List (Hook G))
      → ((k : Hook G) → str_eq k.name name ≡ false → f k ≡ 0)
      → str_lt h.name name ≡ false
      → All (λ y. by_hook_name h y ≡ true) l
      → sum_of f l ≡ 0
  unfolding by_hook_name
  sum_it-above f h [] z e a = refl
  sum_it-above f h (y ∷ l) z e a =
      ground (arith, sum_it-above f h l z e a.1, z y, str_eq_iff y.name name)

  -- In a list by name, the hook of the name is the one that a lookup finds.
  pub any_it-sorted :
      (l : List (Hook G))
      → IsSorted by_hook_name l
      → any_it l ≡ on_found (λ h. str_eq h.key key) (find_by by_hook_name (named name) l)
  unfolding find_by by_hook_name
  any_it-sorted [] s = refl
  any_it-sorted (h ∷ l) s = ground (
    arith,
    any_it-sorted l s.1,
    any_it-above h l,
    s.0,
    str_eq_iff h.name name,
    str_lt_irrefl name,
    str_lt_connex h.name name,
    str_lt_asymm name h.name,
  )

  -- What each hook of the name weighs, over a list by name.
  sum_it-sorted :
      (f : Hook G → ℕ) (l : List (Hook G))
      → ((h : Hook G) → str_eq h.name name ≡ false → f h ≡ 0)
      → IsSorted by_hook_name l
      → sum_of f l ≡ opt_sum f (find_by by_hook_name (named name) l)
  unfolding find_by by_hook_name
  sum_it-sorted f [] z s = refl
  sum_it-sorted f (h ∷ l) z s = ground (
    arith,
    sum_it-sorted f l z s.1,
    sum_it-above f h l z,
    s.0,
    z h,
    str_eq_iff h.name name,
    str_lt_irrefl name,
    str_lt_connex h.name name,
    str_lt_asymm name h.name,
  )

  any_it-sum : (l : List (Hook G)) → any_it l ≡ ltb 0 (sum_of (λ h. if is_it h then 1 else 0) l)
  any_it-sum [] = refl
  any_it-sum (h ∷ l) = ground (arith, any_it-sum l)

module _ {G : Geometry} (T : HookTrees G) where
  -- Whether a box of a hook meets a box.
  abbrev pub meets : (Hook G → Option (Rect G.floats)) → Rect G.floats → Hook G → Bool
  meets box q h = elim (box h) [ none ↦ false | some r ↦ T.spatial.overlaps r q ]

module _ {G : Geometry} (T : HookTrees G) (name key : Str) where
  abbrev its_weight : Hook G → ℕ
  its_weight h = if is_it name key h then 1 else 0

  abbrev hit : (Hook G → Option (Rect G.floats)) → Rect G.floats → Hook G → ℕ
  hit box q = weigh box (λ e. if T.spatial.overlaps e.0 q then its_weight e.1 else 0)

  no_hit :
      (box : Hook G → Option (Rect G.floats)) (q : Rect G.floats) (h : Hook G)
      → str_eq h.name name ≡ false
      → hit box q h ≡ 0
  no_hit box q h n = elim (Option-cases (box h)) [
    | inl e ↦ ground (arith, e)
    | inr (r, e) ↦ ground (arith, e)
  ]

  found_hit :
      (box : Hook G → Option (Rect G.floats)) (q : Rect G.floats) (o : Option (Hook G))
      → ((h : Hook G) → o ≡ some h → str_eq name h.name ≡ true)
      → ltb 0 (opt_sum (hit box q) o) ≡ on_found (λ h. str_eq h.key key && meets T box q h) o
  found_hit box q none n = refl
  found_hit box q (some h) n = elim (Option-cases (box h)) [
    | inl e ↦ ground (arith, e)
    | inr (r, e) ↦ ground (arith, e, n h refl, str_eq_iff name h.name, str_eq_iff h.name name)
  ]

  -- A search of a tree over the boxes of the hooks gives the hook of the name, if its box is met.
  pub any_it-search :
      (box : Hook G → Option (Rect G.floats)) (t : T.spatial.Tree) (l : List (Hook G))
      (q : Rect G.floats)
      → SameItems (T.spatial.entries t) (boxes box l)
      → IsSorted by_hook_name l
      → any_it name key (T.spatial.search t q)
        ≡ on_found (λ h. str_eq h.key key && meets T box q h) (find_by by_hook_name (named name) l)
  any_it-search box t l q same s =
      any_it-sum name key (T.spatial.search t q)
      ∙ ap (ltb 0) (
          T.spatial.search_lem t q its_weight
          ∙ same (λ e. if T.spatial.overlaps e.0 q then its_weight e.1 else 0)
          ∙ sum-boxes box (λ e. if T.spatial.overlaps e.0 q then its_weight e.1 else 0) l
          ∙ sum_it-sorted name key (hit box q) l (λ h n. no_hit box q h n) s)
      ∙ found_hit box q (find_by by_hook_name (named name) l) (λ h e. found_name (named name) h l e)

  sum-empty :
      (f : Rect G.floats × Hook G → ℕ) (l : List (Rect G.floats × Hook G))
      → ltb 0 (length l) ≡ false
      → sum_of f l ≡ 0
  sum-empty f [] e = refl
  sum-empty f (x ∷ l) e = absurd (ground arith)

  pub any_it-empty :
      (t : T.spatial.Tree) (q : Rect G.floats)
      → ltb 0 (length (T.spatial.entries t)) ≡ false
      → any_it name key (T.spatial.search t q) ≡ false
  any_it-empty t q e =
      any_it-sum name key (T.spatial.search t q)
      ∙ ap (ltb 0) (T.spatial.search_lem t q its_weight ∙ sum-empty _ (T.spatial.entries t) e)
