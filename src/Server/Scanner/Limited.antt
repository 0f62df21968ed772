-- ===== src/Server/Scanner/Limited.antt =====
-- What the search of `cmdScan` in internal/legacy/server/scan.go finds.
use spatialdb_engine.Base.{
  ℕ, ◌^◌, ◌==◌, ◌<◌, ◌≡◌, refl, ap, ◌∙◌, Bool, true, false, Option, some, List, [], ◌∷◌, arith,
  if◌then◌else◌, keep_if, All, drop, take, Bool-cases, inl, inr,
}
use spatialdb_engine.Base.Text.{Str, codes, str_eq_iff}
use spatialdb_engine.Geometry.{Geometry, FieldLists}
use spatialdb_engine.Object.{Object, object_id}
use spatialdb_engine.Field.{Numbers}
use spatialdb_engine.Glob.{parse}
use spatialdb_engine.Glob.Limits.{StartsLiteral, is_bounded}
use spatialdb_engine.Collection.{Trees, Collection}
use spatialdb_engine.Collection.Walk.{Cursor, Deadline, NotReached, feed}
use spatialdb_engine.Collection.Scan.{objects_of}
use spatialdb_engine.Collection.Visited.{Owned, Owned-of_lookup, feed-scan, feed-scan_range}
use spatialdb_engine.Collection.Describes.{IsConsistent}
use spatialdb_engine.Server.Filter.{Filters}
use spatialdb_engine.Server.Scanner.{
  Search, Found, no_found, is_counted, matches_all, multi_limits, multi_glob_parse, with_defaults,
  limit_items, test_object, glob_match, push_object, scan_found,
}
use spatialdb_engine.Server.Scanner.Ranges.{in_range, is_open, multi_glob_parse-in_range}
use spatialdb_engine.Server.Scanner.Selected.{
  selects, Runs, Runs-Answers, passes-selects, keep_if-ext,
}
use spatialdb_engine.Server.Scanner.Push.{passes, Answers, objects_of_list, feed-no_found}

module _ {N : Numbers} {G : Geometry} {F : FieldLists} (P : Filters N G F) (w : Search P) where
  -- What lies outside a range that holds all that passes can be left out.
  keep-range :
      (inside : Str → Bool) (l : List (Str × Object G F))
      → ((o : Object G F) → passes P w o ≡ true → inside (object_id o) ≡ true)
      → Owned l
      → keep_if
          (passes P w)
          (objects_of_list P w (keep_if (λ (e : Str × Object G F). inside e.0) l))
        ≡ keep_if (passes P w) (objects_of_list P w l)
  keep-range inside [] all own = refl
  keep-range inside ((k, o) ∷ l) all own =
      ground (arith, keep-range inside l all own.1, all o, own.0)

  module _ {X : Trees G F} (c : Collection X) (names : F.Fields → List Str)
      (deadline : Option Deadline) (now : ℕ → ℕ) (out : is_counted w.output ≡ false) where
    abbrev start_cursor : Option Cursor
    start_cursor = some (record { offset = w.cursor; number_iters = 0 })

    scan_found-open :
        is_open (multi_glob_parse P.matcher false w.globs) ≡ true
        → scan_found P w names false deadline now c
          ≡ (feed
              (push_object P w names)
              (drop w.cursor (objects_of X c (X.objs.items c.objs)))
              (some (no_found P))).1
    unfolding scan_found
    scan_found-open t =
        let met =
          feed-scan X c start_cursor deadline now (push_object P w names) (some (no_found P))
            false in
        rw (out, t) (ap (λ (q : Bool × Option (Found P)). q.1) met)

    scan_found-range :
        is_open (multi_glob_parse P.matcher false w.globs) ≡ false
        → IsConsistent X c
        → scan_found P w names false deadline now c
          ≡ (feed
              (push_object P w names)
              (drop w.cursor (
                objects_of X c (
                  keep_if
                    (λ e. in_range (multi_glob_parse P.matcher false w.globs) e.0)
                    (X.objs.items c.objs))))
              (some (no_found P))).1
    unfolding scan_found in_range
    scan_found-range f h =
        let limits = multi_glob_parse P.matcher false w.globs in
        let met =
          feed-scan_range X c start_cursor deadline now (push_object P w names) (some (no_found P))
            limits.0 limits.1 h in
        rw (out, f) (ap (λ (q : Bool × Option (Found P)). q.1) met)

  open_limits :
      (gs : List Str) → matches_all gs ≡ true → is_open (multi_glob_parse P.matcher false gs) ≡ true
  unfolding multi_glob_parse multi_limits parse
  open_limits [] h = refl
  open_limits (g ∷ []) h = let star = (str_eq_iff g (codes "*")).0 h in rw star refl
  open_limits (g ∷ g' ∷ gs) h = ground arith

  -- What passes lies between the limits of the search.
  passes-in_range :
      StartsLiteral P.matcher
      → All (λ g. is_bounded g ≡ true) w.globs
      → w.glob_everything ≡ matches_all w.globs
      → w.match_values ≡ false
      → is_open (multi_glob_parse P.matcher false w.globs) ≡ false
      → (o : Object G F) → passes P w o ≡ true
      → in_range (multi_glob_parse P.matcher false w.globs) (object_id o) ≡ true
  unfolding test_object glob_match
  passes-in_range law bounded all ids closed o h =
      multi_glob_parse-in_range P.matcher law w.globs (object_id o) bounded closed
        (ground (arith, open_limits w.globs))

  scan_found_lem :
      {X : Trees G F} (c : Collection X) (names : F.Fields → List Str) (deadline : Option Deadline)
      (now : ℕ → ℕ)
      → StartsLiteral P.matcher
      → All (λ g. is_bounded g ≡ true) w.globs
      → IsConsistent X c
      → w.glob_everything ≡ matches_all w.globs
      → w.match_values ≡ false
      → w.cursor ≡ 0
      → is_counted w.output ≡ false
      → w.limit < 2 ^ 64
      → 0 < w.limit
      → Answers P w
      → (r : Found P) × (scan_found P w names false deadline now c ≡ some r)
        × (r.filled ≡ take w.limit (keep_if (passes P w) (objects_of X c (X.objs.items c.objs))))
  scan_found_lem {X} c names deadline now law bounded h every ids start out size room answers =
      let items = X.objs.items c.objs in
      let limits = multi_glob_parse P.matcher false w.globs in
      let from_start = λ (l : List (Object G F)).
        ap (λ n. (feed (push_object P w names) (drop n l) (some (no_found P))).1) start in
      elim (Bool-cases (is_open limits)) [
        | inl t ↦
            let l = objects_of X c items in
            let (r, done, eq) = feed-no_found P w names l answers out size room in
            (r, scan_found-open c names deadline now out t ∙ from_start l ∙ done, eq)
        | inr f ↦
            let l = objects_of X c (keep_if (λ e. in_range limits e.0) items) in
            let (r, done, eq) = feed-no_found P w names l answers out size room in
            let own = Owned-of_lookup items (X.objs.items_sorted c.objs) h.ids in
            let inside = passes-in_range law bounded every ids f in
            (
              r,
              scan_found-range c names deadline now out f h ∙ from_start l ∙ done,
              eq ∙ ap (take w.limit) (keep-range (in_range limits) items inside own),
            )
      ]

module _ {N : Numbers} {G : Geometry} {F : FieldLists} (P : Filters N G F) where
  -- A SCAN by ids in ascending order, with results, that neither counts nor has a cursor, of patterns
  -- whose limits serve, in which no script fails, over a consistent collection, while the deadline is
  -- not reached: it ends without an error, and finds the first objects by id that match a pattern and
  -- pass every filter, up to its limit, or to the default one. The limits of the patterns, between
  -- which it reads, change nothing. Matches start with the literal bytes of their pattern.
  pub scan_found-limited :
      (w : Search P) {X : Trees G F} (c : Collection X) (names : F.Fields → List Str)
      (deadline : Option Deadline) (now : ℕ → ℕ)
      → StartsLiteral P.matcher
      → All (λ g. is_bounded g ≡ true) w.globs
      → IsConsistent X c
      → NotReached deadline now
      → w.match_values ≡ false
      → w.cursor ≡ 0
      → is_counted w.output ≡ false
      → w.limit < 2 ^ 64
      → Runs P w
      → (r : Found P) × (scan_found P (with_defaults P w) names false deadline now c ≡ some r)
        × (r.filled
            ≡ take
                (if w.limit == 0 then limit_items else w.limit)
                (keep_if (selects P w) (objects_of X c (X.objs.items c.objs))))
  scan_found-limited w {X = X} c names deadline now law bounded h live ids start out size runs =
      let (r, done, eq) =
        scan_found_lem P (with_defaults P w) c names deadline now law bounded h refl ids start out
          (ground arith) (ground arith) (Runs-Answers P (with_defaults P w) runs) in
      let limit : (with_defaults P w).limit ≡ (if w.limit == 0 then limit_items else w.limit) =
        ground arith in
      let l = objects_of X c (X.objs.items c.objs) in
      (
        r,
        done,
        eq
            ∙ ap (λ n. take n (keep_if (passes P (with_defaults P w)) l)) limit
            ∙ ap (take (if w.limit == 0 then limit_items else w.limit)) (
                keep_if-ext (passes P (with_defaults P w)) (selects P w) l
                  (λ o. passes-selects P w o ids)),
      )
