-- ===== src/Server/Hooks/Removal.antt =====
-- The commands that remove several hooks at once: PDELHOOK and PDELCHAN of
-- internal/legacy/server/hooks.go, the expiration of internal/legacy/server/expire.go, and the listing
-- that HOOKS and CHANS answer.
use spatialdb_engine.Base.{
  ℕ, ◌+◌, Bool, true, false, not, ◌&&◌, Option, none, some, List, [], ◌∷◌, ◌++◌, ltb, if◌then◌else◌,
}
use spatialdb_engine.Base.Text.{Str, codes, str_eq, str_lt}
use spatialdb_engine.Geometry.{Geometry}
use spatialdb_engine.Collection.Walk.{Visit, each}
use spatialdb_engine.Glob.{Matcher, is_match, parse, is_empty}
use spatialdb_engine.Server.{OutputType, other, invalid_number_of_arguments, Result, ok, err}
use spatialdb_engine.Server.Patterns.{pdel_reply}
use spatialdb_engine.Server.Hooks.{
  Hook, bool_eq, named, HookTrees, HookStore, HookOutcome, del_hook_op, cmd_del_hook,
}

module _ {G : Geometry} where
  abbrev pub is_chosen : Matcher → Str → Bool → Hook G → Bool
  is_chosen M pattern channel h = bool_eq h.channel channel && is_match M pattern h.name

  -- The iterator of `forEachHookByPattern`, with one that collects.
  unfoldable pub hook_step : Matcher → Str → Bool → Str → Visit (Hook G) (List (Hook G))
  hook_step M pattern channel limit h found =
      if not (is_empty limit) && str_lt limit h.name
      then (false, found)
      else (true, if is_chosen M pattern channel h then found ++ h ∷ [] else found)

  -- The iterator of `backgroundExpireHooks`.
  unfoldable pub expired_hook_step : ℕ → Visit (Hook G) (List (List Str))
  expired_hook_step now h msgs = if ltb now h.expires then (false, msgs) else (
    true,
    msgs ++ ((if h.channel then codes "delchan" else codes "delhook") ∷ h.name ∷ []) ∷ [],
  )

module _ {G : Geometry} (T : HookTrees G) where
  unfoldable pub hooks_by_pattern : Matcher → Str → Bool → HookStore T → List (Hook G)
  unfolding hook_step
  hooks_by_pattern M pattern channel s =
      let g = parse M pattern false in
      each (hook_step M pattern channel g.limits.1) (T.by_name.ascend s.hooks (named g.limits.0)) []

  -- The hooks that HOOKS, or CHANS, answers.
  unfoldable pub cmd_hooks : Matcher → Bool → List Str → HookStore T → Result (List (Hook G))
  unfolding hooks_by_pattern
  cmd_hooks M channel [] s = err invalid_number_of_arguments
  cmd_hooks M channel (pattern ∷ []) s =
      if is_empty pattern
      then err invalid_number_of_arguments
      else ok (hooks_by_pattern M pattern channel s)
  cmd_hooks M channel (pattern ∷ arg ∷ rest) s = err invalid_number_of_arguments

  -- The loop over the hooks found, with the count.
  unfoldable pub pdel_hooks : Bool → List (Hook G) → ℕ → HookStore T → HookStore T × ℕ
  pdel_hooks channel [] count s = (s, count)
  pdel_hooks channel (h ∷ hs) count s =
      let skipped = not (bool_eq h.channel channel) in
      pdel_hooks channel hs (if skipped then count else count + 1)
        (if skipped then s else (del_hook_op T h.name channel s).0)

  unfoldable pub cmd_pdel_hook :
      {O V : Type 0} → Matcher → Bool → OutputType → List Str → HookStore T → HookOutcome T O V
  unfolding hooks_by_pattern pdel_hooks
  cmd_pdel_hook M channel out [] s = (s, err invalid_number_of_arguments)
  cmd_pdel_hook M channel out (pattern ∷ []) s =
      let (s', count) = pdel_hooks channel (hooks_by_pattern M pattern channel s) 0 s in
      if is_empty pattern
      then (s, err invalid_number_of_arguments)
      else (s', ok (pdel_reply out count, ltb 0 count))
  cmd_pdel_hook M channel out (pattern ∷ arg ∷ rest) s = (s, err invalid_number_of_arguments)

  unfoldable pub expired_hook_msgs : ℕ → HookStore T → List (List Str)
  unfolding expired_hook_step
  expired_hook_msgs now s = each (expired_hook_step now) (T.by_expires.items s.hook_expires) []

  -- The loop over the messages. A `none` is the `log.Fatal` at an error.
  unfoldable pub run_del_hooks : List (List Str) → HookStore T → Option (HookStore T)
  run_del_hooks [] s = some s
  run_del_hooks ([] ∷ msgs) s = none
  run_del_hooks ((verb ∷ args) ∷ msgs) s =
      let (s', r) =
        cmd_del_hook T {O = Unit {0}} {V = Unit {0}} (str_eq verb (codes "delchan")) other args s in
      let rest = run_del_hooks msgs s' in elim r [ ok reply ↦ rest | err e ↦ none ]

  unfoldable pub background_expire_hooks : ℕ → HookStore T → Option (HookStore T)
  unfolding expired_hook_msgs run_del_hooks
  background_expire_hooks now s = run_del_hooks (expired_hook_msgs now s) s
