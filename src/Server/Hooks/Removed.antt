-- ===== src/Server/Hooks/Removed.antt =====
-- DELHOOK and DELCHAN of internal/legacy/server/hooks.go: what they do to the trees of the hooks, and
-- what a lookup by name finds behind them.
use spatialdb_engine.Base.{
  ◌≡◌, refl, sym, ap, Bool, true, false, not, ◌&&◌, Option, none, some, arith, Bool-cases,
  Option-cases, inl, inr,
}
use spatialdb_engine.Base.Text.{Str, str_eq, str_eq_iff}
use spatialdb_engine.Geometry.{Geometry}
use spatialdb_engine.Index.Kept.{keep}
use spatialdb_engine.Server.Hooks.{
  Hook, bool_eq, HookTrees, HookStore, get_hook, del_found, del_hook_op,
}
use spatialdb_engine.Server.Hooks.Store.{IsRegistry}
use spatialdb_engine.Server.Hooks.Registry.{
  got_name, got_itself, drop_hook-IsRegistry, get-drop_hook,
}

module _ {G : Geometry} (T : HookTrees G) where
  get_at :
      (s : HookStore T) (name j : Str) → str_eq name j ≡ true → get_hook T s j ≡ get_hook T s name
  get_at s name j e = ap (get_hook T s) (sym ((str_eq_iff name j).0 e))

  -- `cmdDELHOOKop`.
  module _ (name : Str) (channel : Bool) (s : HookStore T) where
    del_found-lem :
        (there : Option (Hook G))
        → get_hook T s name ≡ there
        → IsRegistry T s
        → IsRegistry T (del_found T channel there s).0
    unfolding del_found
    del_found-lem none e v = v
    del_found-lem (some h) e v = elim (Bool-cases (bool_eq h.channel channel)) [
      | inl t ↦ rw t (drop_hook-IsRegistry T h s (got_itself T s name h e) v)
      | inr f ↦ rw f v
    ]

    -- The removal of one hook keeps the trees in agreement.
    pub del_hook_op-IsRegistry : IsRegistry T s → IsRegistry T (del_hook_op T name channel s).0
    unfolding del_hook_op
    del_hook_op-IsRegistry = del_found-lem (get_hook T s name) refl

    -- Whether a hook is of the name and the kind that a removal names.
    abbrev pub is_named : Hook G → Bool
    is_named h = str_eq name h.name && bool_eq h.channel channel

    abbrev pub of_kind : Option (Hook G) → Bool
    of_kind none = false
    of_kind (some h) = bool_eq h.channel channel

    -- How the names of the removal, of a hook and of a lookup compare.
    names :
        (j : Str) (k : Hook G)
        → (str_eq name k.name && str_eq j k.name) ≡ (str_eq name j && str_eq j k.name)
    names j k = ground (arith, str_eq_iff name k.name, str_eq_iff j k.name, str_eq_iff name j)

    get-del_found :
        (there : Option (Hook G))
        → get_hook T s name ≡ there
        → (j : Str)
        → get_hook T (del_found T channel there s).0 j
          ≡ keep (λ h. not (is_named h)) (get_hook T s j)
    unfolding del_found
    get-del_found none e j = elim (Option-cases (get_hook T s j)) [
      | inl absent ↦ rw absent refl
      | inr (k, f) ↦ ground (arith, f, e, got_name T s j k f, names j k, get_at s name j)
    ]
    get-del_found (some h) e j = elim (Option-cases (get_hook T s j)) [
      | inl absent ↦ ground (
        arith,
        absent,
        e,
        get_at s name j,
        get-drop_hook T h s j,
        got_name T s name h e,
        names j h,
      )
      | inr (k, f) ↦ ground (
        arith,
        f,
        e,
        got_name T s j k f,
        got_name T s name h e,
        names j k,
        str_eq_iff name h.name,
        str_eq_iff h.name j,
        str_eq_iff name j,
        get_at s name j,
        get-drop_hook T h s j,
      )
    ]

    -- The removal takes exactly the hook of its name and its kind.
    pub get-del_hook_op :
        (j : Str)
        → get_hook T (del_hook_op T name channel s).0 j
          ≡ keep (λ h. not (is_named h)) (get_hook T s j)
    unfolding del_hook_op
    get-del_hook_op = get-del_found (get_hook T s name) refl

    updated-del_found : (there : Option (Hook G)) → (del_found T channel there s).1 ≡ of_kind there
    unfolding del_found
    updated-del_found none = refl
    updated-del_found (some h) = ground arith

    -- It reports whether there was one.
    pub updated-del_hook_op : (del_hook_op T name channel s).1 ≡ of_kind (get_hook T s name)
    unfolding del_hook_op
    updated-del_hook_op = updated-del_found (get_hook T s name)

    -- `cmdDELHOOKop` keeps the trees in agreement, takes exactly the hook of its name and its kind,
    -- and reports whether there was one.
    pub del_hook_op_lem :
        IsRegistry T s
        → IsRegistry T (del_hook_op T name channel s).0
          × ((j : Str)
              → get_hook T (del_hook_op T name channel s).0 j
                ≡ keep (λ h. not (is_named h)) (get_hook T s j))
          × ((del_hook_op T name channel s).1 ≡ of_kind (get_hook T s name))
    del_hook_op_lem v = (del_hook_op-IsRegistry v, get-del_hook_op, updated-del_hook_op)
