-- ===== src/Collection/Matches.antt =====
-- `Within` and `Intersects` of a collection without `sparse`: what their iterator meets.
use spatialdb_engine.Base.{
  ℕ, suc, ◌+◌, ◌-◌, ◌≡◌, refl, ap, ◌∙◌, Bool, true, false, not, ◌&&◌, Option, none, List, [], ◌∷◌,
  arith, sum_of, if◌then◌else◌, Bool-cases, inl, inr, drop, ltb,
}
use spatialdb_engine.Base.Text.{Str}
use spatialdb_engine.Geometry.{Geometry, FieldLists, Rect, Box, rtree_rect}
use spatialdb_engine.Object.{Object, object_geo, is_spatial, geo_empty, geo_within}
use spatialdb_engine.Collection.{Trees, Collection, rtree_box}
use spatialdb_engine.Collection.Describes.{IsConsistent, total, sum-indexed}
use spatialdb_engine.Collection.Walk.{
  NotReached, Visit, Walk, Cursor, Deadline, feed, next_step, start_walk, offset_of,
}
use spatialdb_engine.Collection.Search.{all_nan, geo_search, plain_step, search_by, within}

-- What the iterator does where only the objects that pass the test reach it.
abbrev pub only : {A S : Type 0} → (A → Bool) → Visit A S → Visit A S
only test iter o s = let (go, s') = iter o s in if test o then (go, s') else (true, s)

-- The outcome of a search: whether it went through, and the iterator's state.
abbrev pub found : {S : Type 0} → Bool × Walk S → Bool × S
found r = (r.0, r.1.user)

module _ {G : Geometry} {F : FieldLists} (X : Trees G F) (c : Collection X) {S : Type 0}
    (test : Object G F → Bool) (cursor : Option Cursor) (deadline : Option Deadline) (now : ℕ → ℕ)
    (iter : Visit (Object G F) S) (s : S) where
  feed-past :
      (offset : ℕ) (xs : List (Object G F)) (w : Walk S)
      → ltb w.count offset ≡ false
      → found (feed (plain_step X c test 0 cursor deadline now iter s offset) xs w)
        ≡ feed (only test iter) xs w.user
  unfolding feed plain_step next_step
  feed-past offset [] w h = refl
  feed-past offset (x ∷ xs) w h =
      ground
        (arith, feed-past offset xs (plain_step X c test 0 cursor deadline now iter s offset x w).1)

  feed-plain :
      (offset : ℕ) (xs : List (Object G F)) (w : Walk S)
      → found (feed (plain_step X c test 0 cursor deadline now iter s offset) xs w)
        ≡ feed (only test iter) (drop (offset - w.count) xs) w.user
  unfolding feed plain_step next_step
  feed-plain offset [] w = elim (Bool-cases (ltb w.count offset)) [
    | inl more ↦ let e : offset - w.count ≡ suc (offset - (w.count + 1)) = ground arith in rw e refl
    | inr past ↦ let e : offset - w.count ≡ 0 = ground arith in rw e refl
  ]
  feed-plain offset (x ∷ xs) w = elim (Bool-cases (ltb w.count offset)) [
    | inl more ↦
        let e : offset - w.count ≡ suc (offset - (w.count + 1)) = ground arith in
        rw e (ground (arith, feed-plain offset xs (record w { count = w.count + 1 })))
    | inr past ↦
        let e : offset - w.count ≡ 0 = ground arith in rw e (feed-past offset (x ∷ xs) w past)
  ]

  search-plain :
      (rect : Rect G.floats)
      → all_nan G (rtree_rect G.floats rect) ≡ false
      → found (search_by X c test 0 cursor deadline now iter s rect)
        ≡ feed
            (only test iter)
            (drop (offset_of cursor) (X.spatial.search c.spatial (rtree_rect G.floats rect)))
            s
  unfolding search_by geo_search start_walk
  search-plain rect n =
      let xs = X.spatial.search c.spatial (rtree_rect G.floats rect) in
      let e : offset_of cursor - 0 ≡ offset_of cursor = ground arith in
      rw n (
        feed-plain (offset_of cursor) xs (start_walk cursor deadline s)
        ∙ ap (λ k. feed (only test iter) (drop k xs) s) e)

zero_add : (n : ℕ) → 0 + n ≡ n
zero_add n = omega arith

sum-feed :
    {A : Type 0} (test : A → Bool) (f : A → ℕ) (xs : List A) (n : ℕ)
    → (feed (only test (λ o m. (true, m + f o))) xs n).1
      ≡ n + sum_of (λ o. if test o then f o else 0) xs
unfolding feed
sum-feed test f [] n = omega arith
sum-feed test f (x ∷ xs) n = elim (Bool-cases (test x)) [
  | inl t ↦ rw t (omega (arith, sum-feed test f xs (n + f x)))
  | inr e ↦ rw e (omega (arith, sum-feed test f xs n))
]

module _ {G : Geometry} {F : FieldLists} (X : Trees G F) where
  -- Whether a search of a box meets an object that passes the test.
  abbrev pub met : (Object G F → Bool) → Box G.floats → Object G F → Bool
  met test box o =
      (is_spatial o && not (geo_empty (object_geo o)))
      && (X.spatial.overlaps (rtree_box X o) box && test o)

  total-ext :
      (f g : Object G F → ℕ) (l : List (Str × Object G F))
      → ((o : Object G F) → f o ≡ g o)
      → total X f l ≡ total X g l
  total-ext f g [] h = refl
  total-ext f g ((k, o) ∷ l) h = omega (arith, h o, total-ext f g l h)

  sum-search :
      (c : Collection X) (test : Object G F → Bool) (f : Object G F → ℕ) (box : Box G.floats)
      → IsConsistent X c
      → sum_of (λ o. if test o then f o else 0) (X.spatial.search c.spatial box)
        ≡ total X (λ o. if met test box o then f o else 0) (X.objs.items c.objs)
  sum-search c test f box h =
      let g = λ (o : Object G F). if test o then f o else 0 in
      let k = λ (e : Box G.floats × Object G F). if X.spatial.overlaps e.0 box then g e.1 else 0 in
      X.spatial.search_lem c.spatial box g
      ∙ h.describes.spatial_index k
      ∙ sum-indexed X k (X.objs.items c.objs)
      ∙ total-ext _ _ (X.objs.items c.objs) (λ o. ground arith)

  -- A WITHIN without a cursor and without `sparse`, over an area whose box is not of NaNs alone, in a
  -- consistent collection, while the deadline is not reached, with an iterator that never stops it: it
  -- meets, each once, exactly the
  -- objects that have a geometry that is not empty, whose boxes overlap the area's box, and that are
  -- within the area. The sum of any weights that the iterator adds up is the sum over those objects.
  pub within_meets :
      (c : Collection X) (obj : G.Shape) (deadline : Option Deadline) (now : ℕ → ℕ)
      (f : Object G F → ℕ)
      → IsConsistent X c
      → all_nan G (rtree_rect G.floats (G.rect obj)) ≡ false
      → NotReached deadline now
      → (within X c obj 0 none deadline now (λ o m. (true, m + f o)) 0).1.user
        ≡ total X
            (λ o.
              if met (λ x. geo_within (object_geo x) obj) (rtree_rect G.floats (G.rect obj)) o
              then f o
              else 0)
            (X.objs.items c.objs)
  unfolding within
  within_meets c obj deadline now f h n live =
      let test = λ (o : Object G F). geo_within (object_geo o) obj in
      let box = rtree_rect G.floats (G.rect obj) in
      ap (λ r. r.1)
        (search-plain X c test none deadline now (λ o m. (true, m + f o)) 0 (G.rect obj) n)
      ∙ sum-feed test f (X.spatial.search c.spatial box) 0
      ∙ zero_add _
      ∙ sum-search c test f box h
