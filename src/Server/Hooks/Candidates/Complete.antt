-- ===== src/Server/Hooks/Candidates/Complete.antt =====
-- Which hooks `getQueueCandidates` of internal/legacy/server/aof.go finds.
use spatialdb_engine.Base.{
  ◌≡◌, refl, ap, ◌∙◌, Bool, false, ◌&&◌, ◌||◌, Option, none, some, List, [], arith, ltb, length,
  Bool-cases, inl, inr,
}
use spatialdb_engine.Base.Text.{Str, str_eq}
use spatialdb_engine.Geometry.{Geometry, FieldLists}
use spatialdb_engine.Object.{Object}
use spatialdb_engine.Index.Kept.{keep}
use spatialdb_engine.Server.{Details}
use spatialdb_engine.Server.Hooks.{Hook, named, detects_outside, HookTrees, HookStore, get_hook}
use spatialdb_engine.Server.Hooks.Store.{listed, IsRegistry, rect_of, cross_rect}
use spatialdb_engine.Server.Hooks.Candidates.{
  has_hook, collect, rect_of_object, rect_around, collect_crossing, collect_at,
  get_queue_candidates,
}
use spatialdb_engine.Server.Hooks.Candidates.Found.{
  on_found, has_hook-collect, any_it-sorted, meets, any_it-search, any_it-empty,
}

nothing_found : {A : Type 0} (p : A → Bool) (o : Option A) → on_found (λ a. p a && false) o ≡ false
nothing_found p none = refl
nothing_found p (some a) = ground arith

-- A hook is found by one of four searches.
on_found-or :
    {A : Type 0} (k p q r t : A → Bool) (o : Option A)
    → ((on_found (λ a. k a && p a) o || on_found (λ a. k a && q a) o)
        || on_found (λ a. k a && r a) o
        || on_found (λ a. k a && t a) o)
      ≡ on_found (λ a. k a && (p a || q a || r a || t a)) o
on_found-or k p q r t none = refl
on_found-or k p q r t (some a) = ground arith

-- Where an index holds what passes a test.
on_found-keep :
    {A : Type 0} (k p : A → Bool) (o : Option A)
    → on_found k (keep p o) ≡ on_found (λ a. k a && p a) o
on_found-keep k p none = refl
on_found-keep k p (some a) = ground arith

module _ {G : Geometry} {F : FieldLists} (T : HookTrees G)
    (min max : G.floats.F64 → G.floats.F64 → G.floats.F64) where
  -- Whether the box of a hook that detects a crossing meets the box around two objects.
  abbrev pub may_cross : Option (Object G F) → Option (Object G F) → Hook G → Bool
  may_cross none new h = false
  may_cross (some old) none h = false
  may_cross (some old) (some obj) h =
      let r1 = rect_of_object old in
      let r2 = rect_of_object obj in
      meets T cross_rect
        (record {
          min_x = min r1.min_x r2.min_x;
          min_y = min r1.min_y r2.min_y;
          max_x = max r1.max_x r2.max_x;
          max_y = max r1.max_y r2.max_y;
        })
        h

  -- Whether the box of a hook meets an object.
  abbrev pub overlaps_at : Option (Object G F) → Hook G → Bool
  overlaps_at none h = false
  overlaps_at (some o) h = meets T rect_of (rect_of_object o) h

  abbrev pub concerns : Details (Object G F) → Hook G → Bool
  concerns d h =
      str_eq h.key d.key
      && (detects_outside h
          || may_cross d.old d.obj h
          || overlaps_at d.old h
          || overlaps_at d.obj h)

  module _ (name key : Str) (s : HookStore T) (v : IsRegistry T s) where
    has_hook-crossing :
        (old obj : Option (Object G F)) (found : List (Hook G))
        → has_hook name (collect_crossing T min max key old obj s found) ≡ (
            has_hook name found
            || on_found (λ h. str_eq h.key key && may_cross old obj h) (get_hook T s name))
    unfolding collect_crossing get_hook rect_around
    has_hook-crossing none obj found =
        ground (arith, nothing_found (λ h. str_eq h.key key) (get_hook T s name))
    has_hook-crossing (some old) none found =
        ground (arith, nothing_found (λ h. str_eq h.key key) (get_hook T s name))
    has_hook-crossing (some old) (some obj) found =
        let q = rect_around G.floats min max (rect_of_object old) (rect_of_object obj) in
        let met =
          any_it-search T name key cross_rect s.hook_cross (listed T s) q v.cross
            (T.by_name.items_sorted s.hooks) in
        elim (Bool-cases (ltb 0 (length (T.spatial.entries s.hook_cross)))) [
          | inl t ↦ rw t (
              has_hook-collect name key (T.spatial.search s.hook_cross q) found
              ∙ ap (λ b. has_hook name found || b) met)
          | inr f ↦ rw f (ground (arith, met, any_it-empty T name key s.hook_cross q f))
        ]

    has_hook-at :
        (o : Option (Object G F)) (found : List (Hook G))
        → has_hook name (collect_at T min max key o s found) ≡ (
            has_hook name found
            || on_found (λ h. str_eq h.key key && overlaps_at o h) (get_hook T s name))
    unfolding collect_at get_hook
    has_hook-at none found =
        ground (arith, nothing_found (λ h. str_eq h.key key) (get_hook T s name))
    has_hook-at (some o) found =
        has_hook-collect name key (T.spatial.search s.hook_tree (rect_of_object o)) found
        ∙ ap (λ b. has_hook name found || b)
            (any_it-search T name key rect_of s.hook_tree (listed T s) (rect_of_object o) v.tree
              (T.by_name.items_sorted s.hooks))

  -- With trees that agree, the candidates of a write are exactly the hooks on its key that detect the
  -- outside, whose boxes meet the old or the new object, or that detect a crossing and whose boxes
  -- meet the box of the least and the greatest coordinates of both.
  pub has_hook-get_queue_candidates :
      (d : Details (Object G F)) (s : HookStore T)
      → IsRegistry T s
      → (name : Str)
      → has_hook name (get_queue_candidates T min max d s)
        ≡ on_found (concerns d) (get_hook T s name)
  unfolding get_queue_candidates get_hook has_hook
  has_hook-get_queue_candidates d s v name =
      let l0 = collect d.key [] (T.by_name.items s.hooks_out) in
      let l1 = collect_crossing T min max d.key d.old d.obj s l0 in
      let l2 = collect_at T min max d.key d.old s l1 in
      let k = λ (h : Hook G). str_eq h.key d.key in
      let outside =
        has_hook-collect name d.key (T.by_name.items s.hooks_out) []
        ∙ any_it-sorted name d.key (T.by_name.items s.hooks_out)
            (T.by_name.items_sorted s.hooks_out)
        ∙ ap (on_found k) (v.outside (named name))
        ∙ on_found-keep k detects_outside (get_hook T s name) in
      ground (
        arith,
        outside,
        has_hook-crossing name d.key s v d.old d.obj l0,
        has_hook-at name d.key s v d.old l1,
        has_hook-at name d.key s v d.obj l2,
        on_found-or k detects_outside (may_cross d.old d.obj) (overlaps_at d.old)
            (overlaps_at d.obj) (get_hook T s name),
      )
