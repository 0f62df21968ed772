-- ===== src/Server/Hooks/Lapsed.antt =====
-- `backgroundExpireHooks` of internal/legacy/server/expire.go: exactly the expired hooks go.
use mathlib.Core.List.{append_assoc, append-nil}
use spatialdb_engine.Base.{
  ℕ, ◌≡◌, refl, sym, ap, ◌∙◌, Bool, true, false, not, ◌&&◌, ◌||◌, none, some, List, [], ◌∷◌, ◌++◌,
  map, arith, ltb, if◌then◌else◌, keep_if, All, Bool-cases, Option-cases, inl, inr,
}
use spatialdb_engine.Base.Text.{Str, codes, str_eq, str_eq_iff, str_lt_connex}
use spatialdb_engine.Geometry.{Geometry}
use spatialdb_engine.Index.Sorted.{IsSorted, find_by}
use spatialdb_engine.Index.Kept.{keep, keep_all, keep-keep, keep-found, All-found}
use spatialdb_engine.Collection.Walk.{each}
use spatialdb_engine.Glob.{is_empty}
use spatialdb_engine.Server.Hooks.{
  Hook, by_hook_expires, bool_eq, has_expiration, HookTrees, HookStore, get_hook, del_hook_op,
  cmd_del_hook,
}
use spatialdb_engine.Server.Hooks.Removal.{
  expired_hook_step, expired_hook_msgs, run_del_hooks, background_expire_hooks,
}
use spatialdb_engine.Server.Hooks.Store.{IsRegistry, by_hook_expires-IsOrder}
use spatialdb_engine.Server.Hooks.Registry.{get_hook-find, got_name, got_itself}
use spatialdb_engine.Server.Hooks.Removed.{del_hook_op-IsRegistry, get-del_hook_op}

All-keep_if :
    {A : Type 0} (P : A → Type 0) (p : A → Bool) (l : List A) → All P l → All P (keep_if p l)
All-keep_if P p [] h = tt
All-keep_if P p (x ∷ l) h =
    elim (p x) as (λ b. All P (elim b [ true ↦ x ∷ keep_if p l | false ↦ keep_if p l ])) [
      | true ↦ (h.0, All-keep_if P p l h.1)
      | false ↦ All-keep_if P p l h.1
    ]

module _ {G : Geometry} where
  abbrev msg_of : Hook G → List Str
  msg_of h = (if h.channel then codes "delchan" else codes "delhook") ∷ h.name ∷ []

  module _ (now : ℕ) where
    abbrev is_due : Hook G → Bool
    is_due h = not (ltb now h.expires)

    -- What the expiration at the time `now` is to remove.
    abbrev pub has_lapsed : Hook G → Bool
    has_lapsed h = has_expiration h && is_due h

    none_due :
        (h : Hook G) (l : List (Hook G))
        → is_due h ≡ false
        → All (λ y. by_hook_expires h y ≡ true) l
        → keep_if is_due l ≡ []
    unfolding by_hook_expires
    none_due h [] n a = refl
    none_due h (y ∷ l) n a = ground (arith, none_due h l n a.1)

    each-expired_hook_step :
        (l : List (Hook G)) (msgs : List (List Str))
        → IsSorted by_hook_expires l
        → each (expired_hook_step now) l msgs ≡ msgs ++ map msg_of (keep_if is_due l)
    unfolding each expired_hook_step
    each-expired_hook_step [] msgs s = sym (append-nil msgs)
    each-expired_hook_step (h ∷ l) msgs s = ground (
      arith,
      each-expired_hook_step l (msgs ++ msg_of h ∷ []) s.1,
      append_assoc msgs (msg_of h ∷ []) (map msg_of (keep_if is_due l)),
      append-nil msgs,
      none_due h l,
      s.0,
    )

  -- Whether messages about some hooks take a hook.
  abbrev takes : List (Hook G) → Hook G → Bool
  takes [] k = false
  takes (d ∷ ds) k = (str_eq d.name k.name && bool_eq k.channel d.channel) || takes ds k

  module _ (now : ℕ) (h : Hook G) where
    -- That an entry of the queue with the name of a hook tells its expiration.
    abbrev Tells : Hook G → Type 0
    Tells d = str_eq d.name h.name ≡ true → (d.expires ≡ h.expires) × (has_expiration h ≡ true)

    takes-lapsed :
        (e : List (Hook G))
        → All Tells e
        → takes (keep_if (is_due now) e) h ≡ true
        → has_lapsed now h ≡ true
    takes-lapsed [] a t = ground arith
    takes-lapsed (d ∷ e) a t = elim (Bool-cases (str_eq d.name h.name)) [
      | inl same ↦ ground (arith, (a.0 same).0, (a.0 same).1, takes-lapsed e a.1)
      | inr n ↦ ground (arith, takes-lapsed e a.1)
    ]

    lapsed-takes :
        (q d : Hook G) (e : List (Hook G))
        → find_by by_hook_expires q e ≡ some d
        → is_due now d ≡ true
        → str_eq d.name h.name ≡ true
        → bool_eq h.channel d.channel ≡ true
        → takes (keep_if (is_due now) e) h ≡ true
    unfolding find_by
    lapsed-takes q d [] f u n c = ground arith
    lapsed-takes q d (z ∷ e) f u n c = ground (arith, lapsed-takes q d e)

module _ {G : Geometry} where
  found_entry :
      (q d : Hook G) (e : List (Hook G))
      → find_by by_hook_expires q e ≡ some d
      → (str_eq d.name q.name ≡ true) × (d.expires ≡ q.expires)
  unfolding find_by by_hook_expires
  found_entry q d [] f = absurd (ground arith)
  found_entry q d (z ∷ e) f =
      ground (arith, found_entry q d e, str_eq_iff z.name q.name, str_lt_connex z.name q.name)

bool_of_iff : (a b : Bool) → (a ≡ true → b ≡ true) → (b ≡ true → a ≡ true) → a ≡ b
bool_of_iff true b f g = sym (f refl)
bool_of_iff false true f g = g refl
bool_of_iff false false f g = refl

module _ {G : Geometry} (T : HookTrees G) (now : ℕ) where
  abbrev queue : HookStore T → List (Hook G)
  queue s = T.by_expires.items s.hook_expires

  -- An entry of the queue stands for a hook of its name, with its expiration.
  entry_lem :
      (s : HookStore T) (d : Hook G)
      → IsRegistry T s
      → find_by by_hook_expires d (queue s) ≡ some d
      → (k : Hook G) × (get_hook T s d.name ≡ some k)
        × (k.expires ≡ d.expires)
        × (has_expiration k ≡ true)
  unfolding get_hook
  entry_lem s d v e = elim (Option-cases (get_hook T s d.name)) [
    | inl n ↦ absurd (ground (arith, n, get_hook-find T s d, v.queued d, e))
    | inr (k, f) ↦ (
      k,
      f,
      ground (arith, f, get_hook-find T s d, v.queued d, e),
      ground (arith, f, get_hook-find T s d, v.queued d, e),
    )
  ]

  entry_of :
      (s : HookStore T) (j : Str) (h d : Hook G)
      → IsRegistry T s
      → get_hook T s j ≡ some h
      → find_by by_hook_expires d (queue s) ≡ some d
      → Tells now h d
  entry_of s j h d v e f n =
      let (k, g, x, y) = entry_lem s d v f in
      let same_name : d.name ≡ j =
        ground (arith, n, got_name T s j h e, str_eq_iff d.name h.name, str_eq_iff j h.name) in
      let same_hook = sym g ∙ ap (get_hook T s) same_name ∙ e in ground (arith, x, y, same_hook)

  takes_lem :
      (s : HookStore T) (j : Str) (h : Hook G)
      → IsRegistry T s
      → get_hook T s j ≡ some h
      → takes (keep_if (is_due now) (queue s)) h ≡ has_lapsed now h
  takes_lem s j h v e =
      bool_of_iff _ _
        (takes-lapsed now h (queue s) (
          All-found by_hook_expires (Tells now h) (queue s) by_hook_expires-IsOrder
            (T.by_expires.items_sorted s.hook_expires) (λ d f n. entry_of s j h d v e f n)))
        (λ p. elim (Option-cases (find_by by_hook_expires h (queue s))) [
          | inl n ↦ absurd (ground (arith, n, v.queued h, got_itself T s j h e))
          | inr (d, f) ↦
              let here = found_entry h d (queue s) f in
              lapsed-takes now h h d (queue s) f (ground (arith, here.1)) here.0
                (ground (arith, v.queued h, got_itself T s j h e, f))
        ])

  run_one :
      (channel : Bool) (name : Str) (msgs : List (List Str)) (s : HookStore T)
      → is_empty name ≡ false
      → run_del_hooks T
          (((if channel then codes "delchan" else codes "delhook") ∷ name ∷ []) ∷ msgs)
          s
        ≡ run_del_hooks T msgs (del_hook_op T name channel s).0
  unfolding run_del_hooks cmd_del_hook str_eq
  run_one channel [] msgs s e = absurd (ground arith)
  run_one true (c ∷ name) msgs s e = refl
  run_one false (c ∷ name) msgs s e = refl

  run_del_hooks_lem :
      (ds : List (Hook G)) (s : HookStore T)
      → IsRegistry T s
      → All (λ (d : Hook G). is_empty d.name ≡ false) ds
      → (s' : HookStore T) × (run_del_hooks T (map msg_of ds) s ≡ some s')
        × IsRegistry T s'
        × ((j : Str) → get_hook T s' j ≡ keep (λ h. not (takes ds h)) (get_hook T s j))
  unfolding run_del_hooks cmd_del_hook
  run_del_hooks_lem [] s v a =
      (s, refl, v, λ j. sym (keep_all (λ h. true) (λ h. refl) (get_hook T s j)))
  run_del_hooks_lem (d ∷ ds) s v a =
      let s1 = (del_hook_op T d.name d.channel s).0 in
      let v1 = del_hook_op-IsRegistry T d.name d.channel s v in
      let (s', ran, v', found) = run_del_hooks_lem ds s1 v1 a.1 in
      (
        s',
        run_one d.channel d.name (map msg_of ds) s a.0 ∙ ran,
        v',
        λ j.
            found j
            ∙ ap (keep (λ h. not (takes ds h))) (get-del_hook_op T d.name d.channel s j)
            ∙ keep-keep _ _ (λ h. not (takes (d ∷ ds) h)) (λ h. ground arith) (get_hook T s j),
      )

  named_entry :
      (s : HookStore T) (d : Hook G)
      → IsRegistry T s
      → get_hook T s [] ≡ none
      → find_by by_hook_expires d (queue s) ≡ some d
      → is_empty d.name ≡ false
  named_entry s d v n e = let (k, g, x, y) = entry_lem s d v e in no_empty d.name k g
    where
      no_empty : (name : Str) (k : Hook G) → get_hook T s name ≡ some k → is_empty name ≡ false
      no_empty [] k g = absurd (cc)
      no_empty (c ∷ name) k g = refl

  -- With trees that agree and no hook of the empty name, the expiration of the hooks ends without an
  -- error, takes exactly those whose time has come, and leaves trees that agree.
  pub get-background_expire_hooks :
      (s : HookStore T)
      → IsRegistry T s
      → get_hook T s [] ≡ none
      → (s' : HookStore T) × (background_expire_hooks T now s ≡ some s')
        × IsRegistry T s'
        × ((j : Str) → get_hook T s' j ≡ keep (λ h. not (has_lapsed now h)) (get_hook T s j))
  unfolding background_expire_hooks expired_hook_msgs
  get-background_expire_hooks s v n =
      let due = keep_if (is_due now) (queue s) in
      let sorted = T.by_expires.items_sorted s.hook_expires in
      let entries =
        All-found by_hook_expires (λ d. is_empty d.name ≡ false) (queue s) by_hook_expires-IsOrder
          sorted (λ d e. named_entry s d v n e) in
      let (s', ran, v', found) =
        run_del_hooks_lem due s v (All-keep_if _ (is_due now) (queue s) entries) in
      (
        s',
        ap (λ m. run_del_hooks T m s) (each-expired_hook_step now (queue s) [] sorted) ∙ ran,
        v',
        λ j.
            found j
            ∙ keep-found _ (λ h. not (has_lapsed now h)) (get_hook T s j)
                (λ h e. ap not (takes_lem s j h v e)),
      )
