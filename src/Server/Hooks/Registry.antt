-- ===== src/Server/Hooks/Registry.antt =====
-- SETHOOK and SETCHAN of internal/legacy/server/hooks.go: what they do to the trees of the hooks, and
-- what a lookup by name finds behind them.
use spatialdb_engine.Base.{
  ◌≡◌, refl, sym, ap, ◌∙◌, Bool, true, false, not, ◌&&◌, Option, none, some, arith, if◌then◌else◌,
  Bool-cases, Option-cases, inl, inr, ◌||◌,
}
use spatialdb_engine.Base.Text.{Str, str_eq, str_eq_iff}
use spatialdb_engine.Geometry.{Geometry}
use spatialdb_engine.Index.Sorted.{find_by, find-insert_by, find-remove_by}
use spatialdb_engine.Index.Kept.{remove-Holds, insert-Holds}
use spatialdb_engine.Index.Boxes.{insert_box, delete_box, insert-Covers, delete-Covers}
use spatialdb_engine.Server.{OutputType}
use spatialdb_engine.Server.Hooks.{
  Hook, by_hook_name, named, bool_eq, hook_equals, detects_outside, has_expiration, HookTrees,
  HookStore, get_hook, unlist, unplace, place, enlist, set_expiration, add_hook, replace, set_over,
  set_hook, is_other,
}
use spatialdb_engine.Server.Hooks.Store.{
  by_hook_name-IsOrder, same_hook_name, found_name, find-named, remove-Queues, insert-Queues,
  touch-Queues, listed, IsRegistry, rect_of, cross_rect,
}

ap-if :
    {A B : Type 0} (f : A → B) (b : Bool) (x y : A) {z : B}
    → f x ≡ z
    → f (if b then x else y) ≡ (if b then z else f y)
ap-if f true x y e = e
ap-if f false x y e = refl

module _ {G : Geometry} (T : HookTrees G) where
  pub get_hook-find :
      (s : HookStore T) (h : Hook G) → get_hook T s h.name ≡ find_by by_hook_name h (listed T s)
  unfolding get_hook
  get_hook-find s h = find-named h (named h.name) (listed T s) ((str_eq_iff h.name h.name).1 refl)

  pub got_name :
      (s : HookStore T) (j : Str) (h : Hook G) → get_hook T s j ≡ some h → str_eq j h.name ≡ true
  unfolding get_hook
  got_name s j h e = found_name (named j) h (listed T s) e

  -- A hook that is found is found under its name.
  pub got_itself :
      (s : HookStore T) (j : Str) (h : Hook G)
      → get_hook T s j ≡ some h
      → find_by by_hook_name h (listed T s) ≡ some h
  got_itself s j h e =
      sym (get_hook-find s h)
      ∙ ap (get_hook T s) (sym ((str_eq_iff j h.name).0 (got_name s j h e)))
      ∙ e

  unplace_cross :
      (h : Hook G) (s : HookStore T)
      → (unplace T h s).hook_cross ≡ delete_box cross_rect T.spatial by_hook_name s.hook_cross h
  unfolding unplace
  unplace_cross h s = elim (Option-cases (h.rect)) [
    | inl e ↦ ground (arith, e)
    | inr (r, e) ↦ ground (arith, e)
  ]

  place_cross :
      (h : Hook G) (s : HookStore T)
      → (place T h s).hook_cross ≡ insert_box cross_rect T.spatial by_hook_name s.hook_cross h
  unfolding place
  place_cross h s = elim (Option-cases (h.rect)) [
    | inl e ↦ ground (arith, e)
    | inr (r, e) ↦ ground (arith, e)
  ]

  pub drop_hook-IsRegistry :
      (h : Hook G) (s : HookStore T)
      → find_by by_hook_name h (listed T s) ≡ some h
      → IsRegistry T s
      → IsRegistry T (unplace T h (unlist T h s))
  unfolding unplace unlist
  drop_hook-IsRegistry h s there v =
      let l = listed T s in
      record {
        outside =
            rw (T.by_name.items-delete s.hooks h, T.by_name.items-delete s.hooks_out h)
              (remove-Holds by_hook_name by_hook_name-IsOrder detects_outside h _ l
                (T.by_name.items_sorted s.hooks_out) (T.by_name.items_sorted s.hooks) v.outside);
        queued =
            rw
              (
                T.by_name.items-delete s.hooks h,
                ap-if T.by_expires.items (has_expiration h) (T.by_expires.delete s.hook_expires h)
                    s.hook_expires (T.by_expires.items-delete s.hook_expires h),
              )
              (remove-Queues h l _ v.queued (T.by_name.items_sorted s.hooks)
                (T.by_expires.items_sorted s.hook_expires) there);
        tree =
            rw (T.by_name.items-delete s.hooks h)
              (delete-Covers rect_of T.spatial by_hook_name h s.hook_tree l there v.tree);
        cross =
            rw (unplace_cross h (unlist T h s), T.by_name.items-delete s.hooks h)
              (delete-Covers cross_rect T.spatial by_hook_name h s.hook_cross l there v.cross);
      }

  add_hook-IsRegistry :
      (h : Hook G) (s : HookStore T)
      → find_by by_hook_name h (listed T s) ≡ none
      → IsRegistry T s
      → IsRegistry T (add_hook T h s)
  unfolding add_hook
  add_hook-IsRegistry h s free v =
      let l = listed T s in
      record {
        outside =
            rw
              (
                T.by_name.items-set s.hooks h,
                ap-if T.by_name.items (detects_outside h) (T.by_name.set s.hooks_out h) s.hooks_out
                    (T.by_name.items-set s.hooks_out h),
              )
              (insert-Holds by_hook_name by_hook_name-IsOrder detects_outside h _ l free v.outside);
        queued =
            rw
              (
                T.by_name.items-set s.hooks h,
                ap-if T.by_expires.items (has_expiration h) (T.by_expires.set s.hook_expires h)
                    s.hook_expires (T.by_expires.items-set s.hook_expires h),
              )
              (insert-Queues h l _ v.queued free);
        tree =
            rw (T.by_name.items-set s.hooks h)
              (insert-Covers rect_of T.spatial by_hook_name h s.hook_tree l free v.tree);
        cross =
            rw (place_cross h (enlist T h s), T.by_name.items-set s.hooks h)
              (insert-Covers cross_rect T.spatial by_hook_name h s.hook_cross l free v.cross);
      }

  -- What a lookup finds behind the removal of a hook that is there.
  pub get-drop_hook :
      (h : Hook G) (s : HookStore T) (j : Str)
      → get_hook T (unplace T h (unlist T h s)) j
        ≡ (if str_eq h.name j then none else get_hook T s j)
  unfolding get_hook unplace unlist
  get-drop_hook h s j = rw (T.by_name.items-delete s.hooks h) (
      find-remove_by by_hook_name by_hook_name-IsOrder h (named j) (listed T s)
        (T.by_name.items_sorted s.hooks)
      ∙ rw (same_hook_name h (named j)) refl)

  get-add_hook :
      (h : Hook G) (s : HookStore T) (j : Str)
      → get_hook T (add_hook T h s) j ≡ (if str_eq h.name j then some h else get_hook T s j)
  unfolding get_hook add_hook
  get-add_hook h s j = rw (T.by_name.items-set s.hooks h) (
      find-insert_by by_hook_name by_hook_name-IsOrder h (named j) (listed T s)
      ∙ rw (same_hook_name h (named j)) refl)

  drop_hook_free :
      (prev h : Hook G) (s : HookStore T)
      → str_eq prev.name h.name ≡ true
      → find_by by_hook_name h (listed T (unplace T prev (unlist T prev s))) ≡ none
  drop_hook_free prev h s e =
      sym (get_hook-find (unplace T prev (unlist T prev s)) h)
      ∙ get-drop_hook prev s h.name
      ∙ rw e refl

  -- `add_hook` in place of a hook of the same name.
  replace_lem :
      (prev h : Hook G) (s : HookStore T)
      → replace T prev h s ≡ add_hook T h (unplace T prev (unlist T prev s))
  unfolding replace add_hook
  replace_lem prev h s = refl

  prev_name :
      (prev h : Hook G) (s : HookStore T)
      → get_hook T s h.name ≡ some prev
      → str_eq prev.name h.name ≡ true
  prev_name prev h s e =
      ground
        (arith, got_name s h.name prev e, str_eq_iff h.name prev.name, str_eq_iff prev.name h.name)

  get-replace :
      (prev h : Hook G) (s : HookStore T) (j : Str)
      → get_hook T s h.name ≡ some prev
      → get_hook T (replace T prev h s) j ≡ (if str_eq h.name j then some h else get_hook T s j)
  get-replace prev h s j e = rw (replace_lem prev h s) (
      ground (
        arith,
        get-add_hook h (unplace T prev (unlist T prev s)) j,
        get-drop_hook prev s j,
        prev_name prev h s e,
        str_eq_iff prev.name h.name,
        str_eq_iff prev.name j,
        str_eq_iff h.name j,
      ))

  get-set_expiration :
      (h : Hook G) (s : HookStore T) (j : Str)
      → get_hook T (set_expiration T h s) j ≡ get_hook T s j
  unfolding get_hook set_expiration
  get-set_expiration h s j = refl

  replace-IsRegistry :
      (prev h : Hook G) (s : HookStore T)
      → get_hook T s h.name ≡ some prev
      → IsRegistry T s
      → IsRegistry T (replace T prev h s)
  replace-IsRegistry prev h s e v = rw (replace_lem prev h s) (
      add_hook-IsRegistry h (unplace T prev (unlist T prev s))
        (drop_hook_free prev h s (prev_name prev h s e))
        (drop_hook-IsRegistry prev s (got_itself s h.name prev e) v))

  touch-IsRegistry :
      (prev h : Hook G) (s : HookStore T)
      → get_hook T s h.name ≡ some prev
      → prev.expires ≡ h.expires
      → prev.channel ≡ h.channel
      → IsRegistry T s
      → IsRegistry T (set_expiration T h s)
  unfolding set_expiration
  touch-IsRegistry prev h s e ex ch v = record {
    outside = v.outside;
    queued =
        rw
          (ap-if T.by_expires.items (has_expiration h) (T.by_expires.set s.hook_expires h)
            s.hook_expires (T.by_expires.items-set s.hook_expires h))
          (touch-Queues h (listed T s) _ v.queued prev (sym (get_hook-find s h) ∙ e) ex ch);
    tree = v.tree;
    cross = v.cross;
  }

  equal_hooks : (h k : Hook G) → hook_equals h k ≡ true → h.expires ≡ k.expires
  unfolding hook_equals
  equal_hooks h k e = ground arith

  -- What SETHOOK makes of the hook that had the name.
  abbrev pub hook_set : OutputType → Hook G → Option (Hook G) → Hook G
  hook_set out hook none = hook
  hook_set out hook (some prev) =
      if not (bool_eq prev.channel hook.channel) || (hook_equals prev hook && not (is_other T out))
      then prev
      else hook

  module _ (O V : Type 0) (out : OutputType) (hook : Hook G) (s : HookStore T) where
    set_over-IsRegistry :
        (prev : Option (Hook G))
        → get_hook T s hook.name ≡ prev
        → IsRegistry T s
        → IsRegistry T (set_over T {O = O} {V = V} out hook prev s).0
    unfolding set_over
    set_over-IsRegistry none e v = add_hook-IsRegistry hook s (sym (get_hook-find s hook) ∙ e) v
    set_over-IsRegistry (some prev) e v =
        let differs = not (bool_eq prev.channel hook.channel) in
        elim (Bool-cases differs) [
          | inl t ↦ rw t v
          | inr f ↦ elim (Bool-cases (hook_equals prev hook)) [
            | inl same ↦
                let touched =
                  touch-IsRegistry prev hook s e (equal_hooks prev hook same) (ground arith) v in
                rw (f, same)
                  (elim (Bool-cases (is_other T out)) [
                    | inl o ↦ rw o (
                        replace-IsRegistry prev hook (set_expiration T hook s)
                          (get-set_expiration hook s hook.name ∙ e) touched)
                    | inr o ↦ rw o touched
                  ])
            | inr ne ↦ rw (f, ne) (replace-IsRegistry prev hook s e v)
          ]
        ]

    get-set_over :
        (prev : Option (Hook G))
        → get_hook T s hook.name ≡ prev
        → (j : Str)
        → get_hook T (set_over T {O = O} {V = V} out hook prev s).0 j
          ≡ (if str_eq hook.name j then some (hook_set out hook prev) else get_hook T s j)
    unfolding set_over
    get-set_over none e j = get-add_hook hook s j
    get-set_over (some prev) e j = ground (
      arith,
      get-replace prev hook s j e,
      get-set_expiration hook s hook.name,
      get-set_expiration hook s j,
      get-replace prev hook (set_expiration T hook s) j,
      str_eq_iff hook.name j,
      e,
    )

    set_hook-IsRegistry : IsRegistry T s → IsRegistry T (set_hook T {O = O} {V = V} out hook s).0
    unfolding set_hook
    set_hook-IsRegistry = set_over-IsRegistry (get_hook T s hook.name) refl

    get-set_hook :
        (j : Str)
        → get_hook T (set_hook T {O = O} {V = V} out hook s).0 j ≡ (
            if str_eq hook.name j
            then some (hook_set out hook (get_hook T s hook.name))
            else get_hook T s j)
    unfolding set_hook
    get-set_hook = get-set_over (get_hook T s hook.name) refl

    -- SETHOOK and SETCHAN keep the trees in agreement, whatever they find under the name. Behind them
    -- the name stands for the new hook, or for the one that it was not to replace: one of the other
    -- kind, or an equal one; every other name stands for what it did.
    pub set_hook_lem :
        IsRegistry T s
        → IsRegistry T (set_hook T {O = O} {V = V} out hook s).0
          × ((j : Str)
              → get_hook T (set_hook T {O = O} {V = V} out hook s).0 j ≡ (
                  if str_eq hook.name j
                  then some (hook_set out hook (get_hook T s hook.name))
                  else get_hook T s j))
    set_hook_lem v = (set_hook-IsRegistry v, get-set_hook)
