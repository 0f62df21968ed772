-- ===== src/Server/Hooks/Candidates.antt =====
-- `getQueueCandidates` of internal/legacy/server/aof.go: the hooks whose fences a write may concern.
-- A hook is known by its name, of which the trees hold one.
pub mod Found
pub mod Complete
use spatialdb_engine.Base.{
  ℕ, Bool, true, false, not, ◌&&◌, ◌||◌, Option, none, some, List, [], ◌∷◌, ◌++◌, ltb, length,
  if◌then◌else◌,
}
use spatialdb_engine.Base.Text.{Str, str_eq}
use spatialdb_engine.Geometry.{Floats, Geometry, FieldLists, Rect}
use spatialdb_engine.Object.{Object, object_geo, geo_rect}
use spatialdb_engine.Server.{Details}
use spatialdb_engine.Server.Hooks.{Hook, HookTrees, HookStore}

abbrev pub rect_of_object : {G : Geometry} {F : FieldLists} → Object G F → Rect G.floats
rect_of_object o = geo_rect (object_geo o)

module _ {G : Geometry} where
  unfoldable pub has_hook : Str → List (Hook G) → Bool
  has_hook name [] = false
  has_hook name (h ∷ hs) = str_eq h.name name || has_hook name hs

  -- The loop over hooks that a search gives: those on the key go to the candidates.
  unfoldable pub collect : Str → List (Hook G) → List (Hook G) → List (Hook G)
  unfolding has_hook
  collect key found [] = found
  collect key found (h ∷ hs) =
      collect key
        (if str_eq h.key key && not (has_hook h.name found) then found ++ h ∷ [] else found) hs

-- `math.Min` and `math.Max` are parameters.
module _ (R : Floats) (min max : R.F64 → R.F64 → R.F64) where
  -- The box around two boxes.
  unfoldable pub rect_around : Rect R → Rect R → Rect R
  rect_around r1 r2 = record {
    min_x = min r1.min_x r2.min_x;
    min_y = min r1.min_y r2.min_y;
    max_x = max r1.max_x r2.max_x;
    max_y = max r1.max_y r2.max_y;
  }

module _ {G : Geometry} {F : FieldLists} (T : HookTrees G)
    (min max : G.floats.F64 → G.floats.F64 → G.floats.F64) where
  -- The candidates that might cross a fence.
  unfoldable pub collect_crossing :
      Str → Option (Object G F) → Option (Object G F) → HookStore T → List (Hook G) → List (Hook G)
  unfolding collect rect_around
  collect_crossing key none new s found = found
  collect_crossing key (some old) none s found = found
  collect_crossing key (some old) (some obj) s found =
      if ltb 0 (length (T.spatial.entries s.hook_cross))
      then collect key found (
          T.spatial.search s.hook_cross
            (rect_around G.floats min max (rect_of_object old) (rect_of_object obj)))
      else found

  -- The candidates that overlap an object.
  unfoldable pub collect_at :
      Str → Option (Object G F) → HookStore T → List (Hook G) → List (Hook G)
  unfolding collect
  collect_at key none s found = found
  collect_at key (some o) s found =
      collect key found (T.spatial.search s.hook_tree (rect_of_object o))

  unfoldable pub get_queue_candidates : Details (Object G F) → HookStore T → List (Hook G)
  unfolding collect collect_crossing collect_at
  get_queue_candidates d s =
      let outside = collect d.key [] (T.by_name.items s.hooks_out) in
      let crossing = collect_crossing d.key d.old d.obj s outside in
      collect_at d.key d.obj s (collect_at d.key d.old s crossing)
