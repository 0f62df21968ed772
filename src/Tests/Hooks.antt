-- ===== src/Tests/Hooks.antt =====
-- The theorems on hooks at concrete inputs.
use native.Mathlib.Decide.{ℕ_discrete}
use spatialdb_engine.Tests.Containers.{set_of, index_of}
use spatialdb_engine.Tests.Instances.{floats, geometry, fields, stores}
use spatialdb_engine.Tests.Patterns.{matcher, matcher-StartsLiteral, tr_star, tr_star-is_bounded}
use spatialdb_engine.Base.{
  ◌&&◌, ℕ, ◌≡◌, refl, true, false, not, none, some, [], ◌∷◌, ◌==◌, ◌∙◌, if◌then◌else◌,
}
use spatialdb_engine.Base.Text.{Str, codes, str_eq}
use spatialdb_engine.Base.Int.{pos}
use spatialdb_engine.Geometry.{Rect}
use spatialdb_engine.Index.Sorted.{find_by}
use spatialdb_engine.Index.Kept.{keep}
use spatialdb_engine.Object.{Object, new_object, shape}
use spatialdb_engine.Server.{resp, Details, no_details, set}
use spatialdb_engine.Server.Fence.{cross}
use spatialdb_engine.Glob.{is_match}
use spatialdb_engine.Server.Hooks.{bool_eq, Hook, HookTrees, HookStore, get_hook, set_hook}
use spatialdb_engine.Server.Hooks.Store.{
  by_hook_name-IsOrder, by_hook_expires-IsOrder, IsRegistry, no_hooks, no_hooks-IsRegistry,
}
use spatialdb_engine.Server.Hooks.Registry.{hook_set, set_hook_lem}
use spatialdb_engine.Server.Hooks.Removal.{cmd_pdel_hook, background_expire_hooks}
use spatialdb_engine.Server.Hooks.Purged.{cmd_pdel_hook_lem}
use spatialdb_engine.Server.Hooks.Lapsed.{has_lapsed, get-background_expire_hooks}
use spatialdb_engine.Server.Hooks.Candidates.{has_hook, get_queue_candidates}
use spatialdb_engine.Server.Hooks.Candidates.Found.{on_found}
use spatialdb_engine.Server.Hooks.Candidates.Complete.{concerns, has_hook-get_queue_candidates}

box_discrete : Discrete (Rect floats × Hook geometry)
box_discrete = hlevel (ℕ_discrete)

abbrev hook_trees : HookTrees geometry
hook_trees = record {
  by_name = set_of by_hook_name-IsOrder;
  by_expires = set_of by_hook_expires-IsOrder;
  spatial = index_of box_discrete (λ a b. a.min_x == b.min_x);
  groups = stores.groups;
}

-- A hook on the trucks, which expires.
abbrev truck_hook : Hook geometry
truck_hook = record {
  key = codes "fleet";
  name = codes "truck";
  channel = false;
  endpoints = codes "http" ∷ [];
  args = codes "within" ∷ [];
  metas = [];
  expires = 5;
  rect = some (record { min_x = 3; min_y = 3; max_x = 3; max_y = 3 });
  detect = some (cross ∷ []);
}

-- A channel with no end.
abbrev news : Hook geometry
news = record truck_hook {
  name = codes "news";
  channel = true;
  expires = 0;
  rect = none;
  detect = none;
}

abbrev one_hook : HookStore hook_trees
one_hook =
    (set_hook hook_trees {O = Unit {0}} {V = Unit {0}} resp truck_hook (no_hooks hook_trees)).0

abbrev two_hooks : HookStore hook_trees
two_hooks = (set_hook hook_trees {O = Unit {0}} {V = Unit {0}} resp news one_hook).0

set_hook_lem_example :
    IsRegistry hook_trees one_hook
    × ((j : Str)
        → get_hook hook_trees one_hook j ≡ (
            if str_eq (codes "truck") j
            then some (
                hook_set hook_trees resp truck_hook
                  (get_hook hook_trees (no_hooks hook_trees) (codes "truck")))
            else get_hook hook_trees (no_hooks hook_trees) j))
set_hook_lem_example =
    set_hook_lem hook_trees (Unit {0}) (Unit {0}) resp truck_hook (no_hooks hook_trees)
      (no_hooks-IsRegistry hook_trees)

two_hooks-IsRegistry : IsRegistry hook_trees two_hooks
two_hooks-IsRegistry =
    (set_hook_lem hook_trees (Unit {0}) (Unit {0}) resp news one_hook set_hook_lem_example.0).0

cmd_pdel_hook_lem_example :
    IsRegistry hook_trees
      (cmd_pdel_hook hook_trees {O = Unit {0}} {V = Unit {0}} matcher false resp
        (tr_star ∷ [])
        two_hooks).0
    × ((j : Str)
        → get_hook hook_trees
            (cmd_pdel_hook hook_trees {O = Unit {0}} {V = Unit {0}} matcher false resp
              (tr_star ∷ [])
              two_hooks).0
            j
          ≡ keep
              (λ h. not (bool_eq h.channel false && is_match matcher tr_star h.name))
              (get_hook hook_trees two_hooks j))
cmd_pdel_hook_lem_example =
    cmd_pdel_hook_lem hook_trees matcher tr_star false (Unit {0}) (Unit {0}) resp two_hooks
      matcher-StartsLiteral tr_star-is_bounded refl two_hooks-IsRegistry

none_at_first : get_hook hook_trees (no_hooks hook_trees) [] ≡ none
unfolding get_hook find_by
none_at_first = refl

no_empty_name : get_hook hook_trees two_hooks [] ≡ none
unfolding str_eq
no_empty_name =
    (set_hook_lem hook_trees (Unit {0}) (Unit {0}) resp news one_hook set_hook_lem_example.0).1 []
    ∙ set_hook_lem_example.1 []
    ∙ none_at_first

get-background_expire_hooks_example :
    (s' : HookStore hook_trees) × (background_expire_hooks hook_trees 7 two_hooks ≡ some s')
    × IsRegistry hook_trees s'
    × ((j : Str)
        → get_hook hook_trees s' j
          ≡ keep (λ h. not (has_lapsed 7 h)) (get_hook hook_trees two_hooks j))
get-background_expire_hooks_example =
    get-background_expire_hooks hook_trees 7 two_hooks two_hooks-IsRegistry no_empty_name

abbrev truck : ℕ → Object geometry fields
truck place = new_object (codes "truck") (shape place) (pos 0) []

abbrev moved : Details (Object geometry fields)
moved = record no_details {
  command = set;
  key = codes "fleet";
  old = some (truck 1);
  obj = some (truck 5);
  updated = true;
}

has_hook-get_queue_candidates_example :
    has_hook (codes "truck") (get_queue_candidates hook_trees (λ a b. a) (λ a b. b) moved two_hooks)
    ≡ on_found
        (concerns hook_trees (λ a b. a) (λ a b. b) moved)
        (get_hook hook_trees two_hooks (codes "truck"))
has_hook-get_queue_candidates_example =
    has_hook-get_queue_candidates hook_trees (λ a b. a) (λ a b. b) moved two_hooks
      two_hooks-IsRegistry (codes "truck")
