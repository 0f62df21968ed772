-- ===== src/Server/Hooks/Store.antt =====
-- The trees of the hooks in internal/legacy/server/hooks.go agree with each other, and what a lookup
-- by name finds after each operation.
use spatialdb_engine.Base.{
  ◌≡◌, refl, ◌∙◌, Bool, true, ◌&&◌, Option, none, some, List, [], ◌∷◌, arith, ◌==◌, ltb,
  if◌then◌else◌,
}
use spatialdb_engine.Base.Text.{
  str_eq, str_eq_iff, str_lt_irrefl, str_lt_trans, str_lt_cotrans, str_lt_connex,
}
use spatialdb_engine.Geometry.{Geometry, Rect}
use spatialdb_engine.Index.Sorted.{
  IsOrder, IsSorted, find_by, insert_by, remove_by, same_place, find-insert_by, find-remove_by,
}
use spatialdb_engine.Index.Kept.{Holds, find_by-same_place}
use spatialdb_engine.Index.Boxes.{boxes, Covers}
use spatialdb_engine.Collection.Order.{first_by, first_by-IsOrder}
use spatialdb_engine.Server.Hooks.{
  Hook, by_hook_name, by_hook_expires, detects_outside, detects_cross, has_expiration, HookTrees,
  HookStore,
}

module _ {G : Geometry} where
  pub by_hook_name-IsOrder : IsOrder (by_hook_name {G = G})
  unfolding by_hook_name
  by_hook_name-IsOrder = record {
    less_irrefl = λ a. str_lt_irrefl a.name;
    less_trans = λ a b c. str_lt_trans a.name b.name c.name;
    less_cotrans = λ a b c. str_lt_cotrans a.name b.name c.name;
  }

  by_hook_time : Hook G → Hook G → Bool
  by_hook_time a b = ltb a.expires b.expires

  by_hook_time-IsOrder : IsOrder by_hook_time
  unfolding by_hook_time
  by_hook_time-IsOrder = record {
    less_irrefl = λ a. ground arith;
    less_trans = λ a b c h k. ground arith;
    less_cotrans = λ a b c h. ground arith;
  }

  pub by_hook_expires-IsOrder : IsOrder (by_hook_expires {G = G})
  unfolding by_hook_expires by_hook_time by_hook_name first_by
  by_hook_expires-IsOrder =
      first_by-IsOrder by_hook_time by_hook_name by_hook_time-IsOrder by_hook_name-IsOrder

  pub same_hook_name : (a b : Hook G) → same_place by_hook_name a b ≡ str_eq a.name b.name
  unfolding by_hook_name
  same_hook_name a b =
      ground (arith, str_eq_iff a.name b.name, str_lt_connex a.name b.name, str_lt_irrefl a.name)

  pub same_hook_expires :
      (a b : Hook G)
      → same_place by_hook_expires a b ≡ (str_eq a.name b.name && a.expires == b.expires)
  unfolding by_hook_expires
  same_hook_expires a b =
      ground (arith, str_eq_iff a.name b.name, str_lt_connex a.name b.name, str_lt_irrefl a.name)

  -- The box of a hook that detects a crossing.
  abbrev pub cross_rect : Hook G → Option (Rect G.floats)
  cross_rect h = if detects_cross h then h.rect else none

  abbrev pub rect_of : Hook G → Option (Rect G.floats)
  rect_of h = h.rect

  abbrev pub channel_of : Option (Hook G) → Option Bool
  channel_of none = none
  channel_of (some h) = some h.channel

  -- Whether a hook expires at the time of a probe, and of which kind it is.
  abbrev pub expiring : Hook G → Option (Hook G) → Option Bool
  expiring q none = none
  expiring q (some h) = if has_expiration h && h.expires == q.expires then some h.channel else none

  -- The queue of expirations holds the hooks that expire.
  abbrev pub Queues : List (Hook G) → List (Hook G) → Type 0
  Queues l e =
      (q : Hook G)
      → channel_of (find_by by_hook_expires q e) ≡ expiring q (find_by by_hook_name q l)

  pub found_name :
      (q h : Hook G) (l : List (Hook G))
      → find_by by_hook_name q l ≡ some h
      → str_eq q.name h.name ≡ true
  unfolding find_by by_hook_name
  found_name q h [] e = ground arith
  found_name q h (z ∷ l) e =
      ground (arith, found_name q h l, str_eq_iff q.name z.name, str_lt_connex q.name z.name)

  pub find-named :
      (a q : Hook G) (l : List (Hook G))
      → str_eq a.name q.name ≡ true
      → find_by by_hook_name q l ≡ find_by by_hook_name a l
  find-named a q l e =
      find_by-same_place by_hook_name by_hook_name-IsOrder a q l (same_hook_name a q ∙ e)

  module _ (h : Hook G) (l e : List (Hook G)) (queued : Queues l e) where
    pub remove-Queues :
        IsSorted by_hook_name l
        → IsSorted by_hook_expires e
        → find_by by_hook_name h l ≡ some h
        → Queues
            (remove_by by_hook_name h l)
            (if has_expiration h then remove_by by_hook_expires h e else e)
    remove-Queues sl se there q = ground (
      arith,
      queued q,
      find-remove_by by_hook_expires by_hook_expires-IsOrder h q e se,
      find-remove_by by_hook_name by_hook_name-IsOrder h q l sl,
      same_hook_expires h q,
      same_hook_name h q,
      find-named h q l,
    )

    pub insert-Queues :
        find_by by_hook_name h l ≡ none
        → Queues
            (insert_by by_hook_name h l)
            (if has_expiration h then insert_by by_hook_expires h e else e)
    insert-Queues free q = ground (
      arith,
      queued q,
      find-insert_by by_hook_expires by_hook_expires-IsOrder h q e,
      find-insert_by by_hook_name by_hook_name-IsOrder h q l,
      same_hook_expires h q,
      same_hook_name h q,
      find-named h q l,
    )

    -- A hook in place of one of its name, its kind and its expiration.
    pub touch-Queues :
        (prev : Hook G)
        → find_by by_hook_name h l ≡ some prev
        → prev.expires ≡ h.expires
        → prev.channel ≡ h.channel
        → Queues l (if has_expiration h then insert_by by_hook_expires h e else e)
    touch-Queues prev there ex ch q = ground (
      arith,
      queued q,
      find-insert_by by_hook_expires by_hook_expires-IsOrder h q e,
      same_hook_expires h q,
      find-named h q l,
    )

  module _ (T : HookTrees G) where
    abbrev pub listed : HookStore T → List (Hook G)
    listed s = T.by_name.items s.hooks

    pub record IsRegistry (s : HookStore T) : Type 0 where
      pub outside : Holds by_hook_name detects_outside (T.by_name.items s.hooks_out) (listed s)
      pub queued : Queues (listed s) (T.by_expires.items s.hook_expires)
      pub tree : Covers rect_of T.spatial by_hook_name s.hook_tree (listed s)
      pub cross : Covers cross_rect T.spatial by_hook_name s.hook_cross (listed s)

    -- The trees of a server that starts.
    abbrev pub no_hooks : HookStore T
    no_hooks = record {
      hooks = T.by_name.empty;
      hooks_out = T.by_name.empty;
      hook_expires = T.by_expires.empty;
      hook_tree = T.spatial.empty;
      hook_cross = T.spatial.empty;
      groups = record { hooks = T.groups.by_hook.empty; objects = T.groups.by_object.empty };
    }

    pub no_hooks-IsRegistry : IsRegistry no_hooks
    unfolding find_by boxes
    no_hooks-IsRegistry = record {
      outside = λ q. rw T.by_name.items-empty refl;
      queued = λ q. rw (T.by_name.items-empty, T.by_expires.items-empty) refl;
      tree = λ f. rw (T.by_name.items-empty, T.spatial.entries-empty) refl;
      cross = λ f. rw (T.by_name.items-empty, T.spatial.entries-empty) refl;
    }
