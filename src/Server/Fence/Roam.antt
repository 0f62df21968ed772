-- ===== src/Server/Fence/Roam.antt =====
-- The roaming objects of internal/legacy/server/fence.go: `fenceMatchNearbys` and `fenceMatchRoam`.
pub mod Dwell
use spatialdb_engine.Base.{
  ℕ, zero, suc, ◌+◌, Bool, true, false, not, ◌&&◌, ◌||◌, Option, none, some, List, [], ◌∷◌, ◌++◌,
  map, ◌==◌, if◌then◌else◌, length,
}
use spatialdb_engine.Base.Text.{Str, str_eq}
use spatialdb_engine.Geometry.{Geometry, FieldLists}
use spatialdb_engine.Object.{Object, Geo, object_id, object_geo}
use spatialdb_engine.Glob.{Matcher, is_match}
use spatialdb_engine.Collection.{Trees, Collection}
use spatialdb_engine.Collection.Walk.{Visit, Walk}
use spatialdb_engine.Collection.Search

module _ (G : Geometry) where
  pub record RoamMatch : Type 0 where
    pub id : Str
    pub obj : Geo G
    pub meters : G.floats.F64

  -- `roamSwitches`, and `nodwell` of the fence.
  pub record Roam : Type 0 where
    pub id : Str
    pub pattern : Bool
    pub meters : G.floats.F64
    pub nodwell : Bool

  -- What the roaming takes from other packages: distances, the box around a center, and the sort of
  -- the Go library, by distance and then by id.
  pub record Distances : Type 0 where
    pub distance : Geo G → Geo G → G.floats.F64
    pub around : Geo G → G.floats.F64 → G.Shape
    pub sort : List RoamMatch → List RoamMatch

module _ {G : Geometry} where
  abbrev pub has_id : Str → List (RoamMatch G) → Bool
  has_id i [] = false
  has_id i (m ∷ ms) = str_eq m.id i || has_id i ms

  -- The last element and those in front of it.
  unfoldable pub last_of : RoamMatch G → List (RoamMatch G) → RoamMatch G
  last_of x [] = x
  last_of x (y ∷ ys) = last_of y ys

  unfoldable pub init_of : RoamMatch G → List (RoamMatch G) → List (RoamMatch G)
  init_of x [] = []
  init_of x (y ∷ ys) = x ∷ init_of y ys

  -- What stands from an index on, once the last element has taken the place of the one there.
  unfoldable pub move_last : List (RoamMatch G) → List (RoamMatch G)
  unfolding last_of init_of
  move_last [] = []
  move_last (x ∷ xs) = last_of x xs ∷ init_of x xs

  unfoldable pub remove_match : Str → List (RoamMatch G) → List (RoamMatch G)
  unfolding move_last
  remove_match i [] = []
  remove_match i (m ∷ ms) =
      let rest = remove_match i ms in if str_eq m.id i then move_last ms else m ∷ rest

  -- The loop over the old ones: `kept` is what stands in front of the index. Each round takes one
  -- element off the rest, so that the length of the old ones is fuel enough.
  unfoldable pub drop_dwelling :
      Bool
      → ℕ
      → List (RoamMatch G)
      → List (RoamMatch G)
      → List (RoamMatch G)
      → List (RoamMatch G) × List (RoamMatch G)
  unfolding remove_match
  drop_dwelling nodwell fuel kept [] news = (kept, news)
  drop_dwelling nodwell zero kept (x ∷ xs) news = (kept, news)
  drop_dwelling nodwell (suc fuel) kept (x ∷ xs) news = elim (has_id x.id news) [
    | true ↦
        drop_dwelling nodwell fuel kept (move_last xs)
          (if nodwell then remove_match x.id news else news)
    | false ↦ drop_dwelling nodwell fuel (kept ++ x ∷ []) xs news
  ]

  module _ (D : Distances G) (roam : Roam G) where
    -- `fenceMatchRoam`, of what was near the old object and what is near the new one: what is near,
    -- and what has come to be far.
    unfoldable pub fence_match_roam :
        Geo G → List (RoamMatch G) → List (RoamMatch G) → List (RoamMatch G) × List (RoamMatch G)
    unfolding drop_dwelling
    fence_match_roam obj olds news =
        let (faraways, nearbys) = drop_dwelling roam.nodwell (length olds) [] olds news in
        (
          D.sort nearbys,
          D.sort (map (λ (m : RoamMatch G). record m { meters = D.distance m.obj obj }) faraways),
        )

    module _ {F : FieldLists} (M : Matcher) where
      -- The iterator of `fenceMatchNearbys`. The distance is that of the met object to itself.
      unfoldable pub roam_step : Object G F → Visit (Object G F) (List (RoamMatch G))
      roam_step obj o nearbys =
          if str_eq (object_id o) (object_id obj)
          then (true, nearbys)
          else if G.floats.less roam.meters (D.distance (object_geo o) (object_geo o))
          then (true, nearbys)
          else if not (
              if roam.pattern
              then is_match M roam.id (object_id o)
              else str_eq roam.id (object_id o))
          then (true, nearbys)
          else (
            true,
            nearbys
                ++ record {
                  id = object_id o;
                  obj = object_geo o;
                  meters = D.distance (object_geo obj) (object_geo o);
                }
                  ∷ [],
          )

      -- `fenceMatchNearbys`: no deadline is given, so the clock does not matter.
      unfoldable pub fence_match_nearbys :
          {X : Trees G F} → Option (Collection X) → Option (Object G F) → List (RoamMatch G)
      unfolding roam_step
      fence_match_nearbys col none = []
      fence_match_nearbys none (some obj) = []
      fence_match_nearbys {X} (some c) (some obj) =
          (Search.intersects X c (D.around (object_geo obj) roam.meters) 0 none none (λ i. i)
            (roam_step obj) []).1.user
