-- ===== src/Collection/Search.antt =====
-- The spatial searches of internal/legacy/collection/collection.go: `geoSearch`, `geoSparse`,
-- `Within` and `Intersects`. `Within` and `Intersects` have one text but for their test.
use spatialdb_engine.Base.{
  ℕ, zero, suc, ◌+◌, Bool, true, false, not, ◌&&◌, ◌||◌, Option, List, [], ◌∷◌, leb, ltb,
  if◌then◌else◌,
}
use spatialdb_engine.Base.Text.{Str, str_eq}
use spatialdb_engine.Geometry.{Geometry, FieldLists, Rect, Box, rtree_rect}
use spatialdb_engine.Object.{Object, object_id, object_geo, geo_within, geo_intersects}
use spatialdb_engine.Collection.{Trees, Collection}
use spatialdb_engine.Collection.Walk.{
  Cursor, Deadline, Walk, Visit, feed, next_step, start_walk, offset_of,
}

module _ (G : Geometry) where
  open G.floats use {is_nan, add, sub, half}

  unfoldable pub all_nan : Box G.floats → Bool
  all_nan b = is_nan b.min0 && is_nan b.min1 && is_nan b.max0 && is_nan b.max1

  -- The four quarters, in the order of the code.
  unfoldable pub quads : Rect G.floats → List (Rect G.floats)
  quads r =
      let w = sub r.max_x r.min_x in
      let h = sub r.max_y r.min_y in
      record {
        min_x = r.min_x;
        min_y = add r.min_y (half h);
        max_x = add r.min_x (half w);
        max_y = r.max_y;
      }
      ∷ record {
        min_x = add r.min_x (half w);
        min_y = add r.min_y (half h);
        max_x = r.max_x;
        max_y = r.max_y;
      }
      ∷ record {
        min_x = r.min_x;
        min_y = r.min_y;
        max_x = add r.min_x (half w);
        max_y = add r.min_y (half h);
      }
      ∷ record {
        min_x = add r.min_x (half w);
        min_y = r.min_y;
        max_x = r.max_x;
        max_y = add r.min_y (half h);
      }
      ∷ []

-- An iterator of the sparse search: whether the object matched, whether to go on, and its state.
abbrev pub SparseVisit : Type 0 → Type 0 → Type 0
SparseVisit A T = A → T → (Bool × Bool) × T

-- `for _, quad := range quads { if !search(quad) { return false } }; return true`
pub every : {A T : Type 0} → (A → T → Bool × T) → List A → T → Bool × T
every search [] t = (true, t)
every search (q ∷ qs) t =
    let (alive, t') = search q t in
    let rest = every search qs t' in if alive then rest else (false, t')

module _ {G : Geometry} {F : FieldLists} (X : Trees G F) (c : Collection X) where
  -- `alive` is what the iterator said last, or true.
  unfoldable pub geo_search : {T : Type 0} → Rect G.floats → Visit (Object G F) T → T → Bool × T
  unfolding all_nan
  geo_search rect iter t =
      let box = rtree_rect G.floats rect in
      if all_nan G box then (true, t) else feed iter (X.spatial.search c.spatial box) t

  -- The callback of the smallest quads, with `alive` in front of the state.
  abbrev pub leaf_visit : {T : Type 0} → SparseVisit (Object G F) T → Visit (Object G F) (Bool × T)
  leaf_visit iter o (alive, t) =
      let ((matched, ok), t') = iter o t in
      if not ok then (false, (false, t')) else (not matched, (alive, t'))

  unfoldable pub geo_sparse_inner :
      {T : Type 0} → ℕ → SparseVisit (Object G F) T → Rect G.floats → T → Bool × T
  unfolding every
  geo_sparse_inner zero iter rect t = (geo_search rect (leaf_visit iter) (true, t)).1
  geo_sparse_inner (suc sparse) iter rect t =
      every (λ quad t'. geo_sparse_inner sparse iter quad t') (quads G rect) t

  -- The map `matches`, as the ids that are true in it.
  abbrev pub matched_before : Str → List Str → Bool
  matched_before id [] = false
  matched_before id (m ∷ ms) = str_eq m id || matched_before id ms

  abbrev pub sparse_visit :
      {T : Type 0} → SparseVisit (Object G F) T → SparseVisit (Object G F) (List Str × T)
  sparse_visit iter o (ms, t) =
      let ((matched, ok), t') = iter o t in
      if matched_before (object_id o) ms
      then ((false, true), (ms, t))
      else ((matched, ok), (if matched then object_id o ∷ ms else ms, t'))

  -- It returns `alive`, which nothing sets to false, and not what the search returns.
  unfoldable pub geo_sparse :
      {T : Type 0} → ℕ → SparseVisit (Object G F) T → Rect G.floats → T → Bool × T
  geo_sparse sparse iter rect t =
      (true, (geo_sparse_inner sparse (sparse_visit iter) rect ([], t)).1.1)

  module _ {S : Type 0} (test : Object G F → Bool) (sparse : ℕ) (cursor : Option Cursor)
      (deadline : Option Deadline) (now : ℕ → ℕ) (iter : Visit (Object G F) S) (s : S) where
    -- The closure of the search with `sparse`: `ok` is false where the object does not match.
    unfoldable pub sparse_step : ℕ → SparseVisit (Object G F) (Walk S)
    sparse_step offset o w =
        let w1 = record w { count = w.count + 1 } in
        let w2 = next_step now w1 in
        let (ok, s') = iter o w2.user in
        if leb w1.count offset
        then ((false, true), w1)
        else if test o
        then ((true, ok), record w2 { user = s' })
        else ((false, false), w2)

    unfoldable pub plain_step : ℕ → Visit (Object G F) (Walk S)
    plain_step offset o w =
        let w1 = record w { count = w.count + 1 } in
        let w2 = next_step now w1 in
        let (ok, s') = iter o w2.user in
        if leb w1.count offset
        then (true, w1)
        else if test o
        then (ok, record w2 { user = s' })
        else (true, w2)

    unfoldable pub search_by : Rect G.floats → Bool × Walk S
    unfolding sparse_step plain_step
    search_by rect =
        let offset = offset_of cursor in
        let w = start_walk cursor deadline s in
        if ltb 0 sparse
        then geo_sparse sparse (sparse_step offset) rect w
        else geo_search rect (plain_step offset) w

  module _ {S : Type 0} (obj : G.Shape) (sparse : ℕ) (cursor : Option Cursor)
      (deadline : Option Deadline) (now : ℕ → ℕ) (iter : Visit (Object G F) S) (s : S) where
    unfoldable pub within : Bool × Walk S
    unfolding search_by
    within =
        search_by (λ o. geo_within (object_geo o) obj) sparse cursor deadline now iter s
          (G.rect obj)

    unfoldable pub intersects : Bool × Walk S
    unfolding search_by
    intersects =
        search_by (λ o. geo_intersects (object_geo o) obj) sparse cursor deadline now iter s
          (G.rect obj)
