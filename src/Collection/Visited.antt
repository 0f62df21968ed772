-- ===== src/Collection/Visited.antt =====
-- What the searches by id show to their iterator.
use mathlib.Core.List.{reverse}
use spatialdb_engine.Base.{
  ℕ, zero, suc, ◌≡◌, refl, ap, ◌∙◌, Bool, true, false, not, ◌&&◌, Option, some, List, [], ◌∷◌, map,
  arith, if◌then◌else◌, drop, keep_if, All, Bool-cases, inl, inr,
}
use spatialdb_engine.Base.Text.{Str, str_lt, str_lt_trans, str_lt_asymm, str_lt_irrefl}
use spatialdb_engine.Geometry.{Geometry, FieldLists}
use spatialdb_engine.Index.Sorted.{KeysSorted, from_key, lookup_key, lookup_key-below}
use spatialdb_engine.Object.{Object, object_id}
use spatialdb_engine.Collection.{Trees, Collection}
use spatialdb_engine.Collection.Describes.{IsConsistent}
use spatialdb_engine.Collection.Scan.{scan, scan_range, objects_of}
use spatialdb_engine.Collection.Walk.{
  Cursor, Deadline, NotReached, Visit, feed, take_while, outcome, each-visit_start, offset_of,
}

take_while_all : {A : Type 0} (xs : List A) → take_while (λ x. true) xs ≡ xs
unfolding take_while
take_while_all [] = refl
take_while_all (x ∷ xs) = ap (◌∷◌ x) (take_while_all xs)

drop-nil : {A : Type 0} (n : ℕ) → drop {A = A} n [] ≡ []
drop-nil zero = refl
drop-nil (suc n) = refl

module _ {V : Type 0} (p : V → Bool) where
  -- The entries of the list pass `p` exactly where their key is below `end`.
  abbrev pub Tests : Str → List (Str × V) → Type 0
  Tests end = All (λ (e : Str × V). p e.1 ≡ str_lt e.0 end)

  Tests-drop : (end : Str) (n : ℕ) (l : List (Str × V)) → Tests end l → Tests end (drop n l)
  Tests-drop end zero l h = h
  Tests-drop end (suc n) [] h = h
  Tests-drop end (suc n) (e ∷ l) h = Tests-drop end n l h.1

  Tests-from : (start end : Str) (l : List (Str × V)) → Tests end l → Tests end (from_key start l)
  unfolding from_key
  Tests-from start end [] h = h
  Tests-from start end ((k, v) ∷ l) h = elim (Bool-cases (str_lt k start)) [
    | inl b ↦ rw b (Tests-from start end l h.1)
    | inr b ↦ rw b h
  ]

  abbrev pub below : Str → List (Str × V) → List (Str × V)
  below end = keep_if (λ e. str_lt e.0 end)

  below-All :
      (start end k : Str) (l : List (Str × V))
      → str_lt k start ≡ false
      → All (λ (e : Str × V). str_lt k e.0 ≡ true) l
      → keep_if (λ e. not (str_lt e.0 start) && str_lt e.0 end) l ≡ below end l
  below-All start end k [] n h = refl
  below-All start end k ((j, v) ∷ l) n h =
      ground (arith, below-All start end k l n h.1, str_lt_trans k j start)

  -- Nothing is below `end` in a list whose keys are above one that is not.
  below-none :
      (end i : Str) (l : List (Str × V))
      → str_lt i end ≡ false
      → All (λ (e : Str × V). str_lt i e.0 ≡ true) l
      → below end l ≡ []
  below-none end i [] n h = refl
  below-none end i ((k, v) ∷ l) n h = ground (arith, below-none end i l n h.1, str_lt_trans i k end)

  take_while-below :
      (end : Str) (l : List (Str × V))
      → KeysSorted l
      → Tests end l
      → take_while p (map (λ e. e.1) l) ≡ map (λ e. e.1) (below end l)
  unfolding take_while
  take_while-below end [] s h = refl
  take_while-below end ((k, v) ∷ l) s h =
      ground (arith, take_while-below end l s.1 h.1, below-none end k l, s.0)

  take_while-drop-below :
      (end : Str) (n : ℕ) (l : List (Str × V))
      → KeysSorted l
      → Tests end l
      → take_while p (drop n (map (λ e. e.1) l)) ≡ drop n (map (λ e. e.1) (below end l))
  take_while-drop-below end zero l s h = take_while-below end l s h
  take_while-drop-below end (suc n) [] s h = unfold take_while in refl
  take_while-drop-below end (suc n) ((k, v) ∷ l) s h =
      let rest = take_while-drop-below end n l s.1 h.1 in
      ground (
        arith,
        rest,
        s.0,
        below-none end k l,
        ap (λ m. drop n (map (λ (e : Str × V). e.1) m)) {x = below end l} {y = []},
        drop-nil {A = V} n,
      )

  pub KeysSorted-from :
      (start : Str) (l : List (Str × V)) → KeysSorted l → KeysSorted (from_key start l)
  unfolding from_key
  KeysSorted-from start [] s = s
  KeysSorted-from start ((k, v) ∷ l) s = elim (Bool-cases (str_lt k start)) [
    | inl b ↦ rw b (KeysSorted-from start l s.1)
    | inr b ↦ rw b s
  ]

  -- In a sorted list the entries from `start` on are those that are not below it.
  below-from :
      (start end : Str) (l : List (Str × V))
      → KeysSorted l
      → below end (from_key start l) ≡ keep_if (λ e. not (str_lt e.0 start) && str_lt e.0 end) l
  unfolding from_key
  below-from start end [] s = refl
  below-from start end ((k, v) ∷ l) s =
      ground (arith, below-from start end l s.1, below-All start end k l, s.0)

module _ {G : Geometry} {F : FieldLists} where
  abbrev pub Owned : List (Str × Object G F) → Type 0
  Owned = All (λ (e : Str × Object G F). object_id e.1 ≡ e.0)

  pub Owned-of_lookup :
      (l : List (Str × Object G F))
      → KeysSorted l
      → ((k : Str) (o : Object G F) → lookup_key k l ≡ some o → object_id o ≡ k)
      → Owned l
  unfolding lookup_key
  Owned-of_lookup [] s h = tt
  Owned-of_lookup ((k, o) ∷ l) s h = (
    ground (arith, h k o, str_lt_irrefl k),
    Owned-of_lookup l s.1
        (λ j q e. ground (arith, h j q, s.0, lookup_key-below j k l, str_lt_asymm k j)),
  )

  Tests-of_Owned :
      (end : Str) (l : List (Str × Object G F))
      → Owned l
      → Tests (λ o. str_lt (object_id o) end) end l
  Tests-of_Owned end [] h = tt
  Tests-of_Owned end ((k, o) ∷ l) h = (rw h.0, Tests-of_Owned end l h.1)

module _ {G : Geometry} {F : FieldLists} (X : Trees G F) (c : Collection X) {S : Type 0}
    (cursor : Option Cursor) (deadline : Option Deadline) (now : ℕ → ℕ)
    (iterator : Visit (Object G F) S) (s : S) where
  -- `Scan` feeds the iterator every object in the order of the ids, or against it, but for those
  -- that the cursor's offset skips, until the iterator says no; it returns whether it never did.
  pub feed-scan :
      (desc : Bool)
      → outcome (scan X c desc cursor deadline now iterator s)
        ≡ feed iterator
            (drop (offset_of cursor) (
              objects_of X c (if desc then reverse (X.objs.items c.objs) else X.objs.items c.objs)))
            s
  unfolding scan
  feed-scan true =
      each-visit_start now (offset_of cursor) (λ o. true) iterator _ cursor deadline s
      ∙ ap (λ xs. feed iterator xs s) (take_while_all _)
  feed-scan false =
      each-visit_start now (offset_of cursor) (λ o. true) iterator _ cursor deadline s
      ∙ ap (λ xs. feed iterator xs s) (take_while_all _)

  -- In a consistent collection the ascending `ScanRange` feeds the iterator exactly the objects
  -- with `start <= id < end`, in the order of the ids, but for those that the cursor's offset skips.
  pub feed-scan_range :
      (start end : Str)
      → IsConsistent X c
      → outcome (scan_range X c false cursor deadline now iterator s start end)
        ≡ feed iterator
            (drop (offset_of cursor) (
              objects_of X c
                (keep_if (λ e. not (str_lt e.0 start) && str_lt e.0 end) (X.objs.items c.objs))))
            s
  unfolding scan_range
  feed-scan_range start end h =
      each-visit_start now (offset_of cursor) (λ o. str_lt (object_id o) end) iterator _ cursor
        deadline s
      ∙ ap (λ xs. feed iterator xs s)
          (rw (X.objs.ascend_lem c.objs start) (
            take_while-drop-below (λ o. str_lt (object_id o) end) end (offset_of cursor)
              (from_key start (X.objs.items c.objs))
              (KeysSorted-from (λ o. str_lt (object_id o) end) start _ (X.objs.items_sorted c.objs))
              (Tests-from (λ o. str_lt (object_id o) end) start end _
                (Tests-of_Owned end _ (Owned-of_lookup _ (X.objs.items_sorted c.objs) h.ids)))
            ∙ ap (λ l. drop (offset_of cursor) (map (λ (e : Str × Object G F). e.1) l))
                (below-from (λ o. str_lt (object_id o) end) start end _
                  (X.objs.items_sorted c.objs))))

  -- While the deadline is not reached, `Scan` feeds the iterator every object in the order of the
  -- ids, or against it, but for those that the cursor's offset skips, until the iterator says no; it
  -- returns whether it never did.
  pub scan_visits :
      (desc : Bool)
      → NotReached deadline now
      → outcome (scan X c desc cursor deadline now iterator s)
        ≡ feed iterator
            (drop (offset_of cursor) (
              objects_of X c (if desc then reverse (X.objs.items c.objs) else X.objs.items c.objs)))
            s
  scan_visits desc live = feed-scan desc

  -- In a consistent collection, while the deadline is not reached, the ascending `ScanRange` feeds
  -- the iterator exactly the objects with `start <= id < end`, in the order of the ids, but for those
  -- that the cursor's offset skips, until the iterator says no.
  pub scan_range_visits :
      (start end : Str)
      → IsConsistent X c
      → NotReached deadline now
      → outcome (scan_range X c false cursor deadline now iterator s start end)
        ≡ feed iterator
            (drop (offset_of cursor) (
              objects_of X c
                (keep_if (λ e. not (str_lt e.0 start) && str_lt e.0 end) (X.objs.items c.objs))))
            s
  scan_range_visits start end h live = feed-scan_range start end h
