-- ===== src/Server/Due.antt =====
-- What the background expiration of internal/legacy/server/expire.go looks for: the items that are due
-- among those of an index, and the pairs of a key and an id that its messages name.
use spatialdb_engine.Base.{
  ◌≡◌, refl, ap, Bool, true, false, not, ◌&&◌, ◌||◌, Option, none, some, List, [], ◌∷◌, ◌++◌, map,
  arith, if◌then◌else◌, keep_if, All, Bool-cases, inl, inr,
}
use spatialdb_engine.Base.Text.{Str, codes, str_eq, str_eq_iff, str_eq_refl}
use spatialdb_engine.Base.Int.{ℤ, ltb_ℤ}
use spatialdb_engine.Geometry.{Geometry, FieldLists}
use spatialdb_engine.Object.{Object, object_id, object_expires}
use spatialdb_engine.Varint.{is_zero}
use spatialdb_engine.Index.Sorted.{IsOrder, IsSorted, find_by}
use spatialdb_engine.Collection.{Trees}
use spatialdb_engine.Collection.Order.{by_expires, time-by_expires}
use spatialdb_engine.Collection.Describes.{held}
use spatialdb_engine.Server.Purges.{has_str}

abbrev pub del_msgs : List (Str × Str) → List (List Str)
del_msgs = map (λ (e : Str × Str). codes "del" ∷ e.0 ∷ e.1 ∷ [])

abbrev pub with_key : Str → List Str → List (Str × Str)
with_key key = map (λ (i : Str). (key, i))

unfoldable pub has_pair : Str → Str → List (Str × Str) → Bool
has_pair k i [] = false
has_pair k i ((k', i') ∷ l) = (str_eq k k' && str_eq i i') || has_pair k i l

pub has_pair-append :
    (k i : Str) (a b : List (Str × Str))
    → has_pair k i (a ++ b) ≡ (has_pair k i a || has_pair k i b)
unfolding has_pair
has_pair-append k i [] b = refl
has_pair-append k i ((k', i') ∷ a) b = ground (arith, has_pair-append k i a b)

pub has_pair-with_key :
    (k i key : Str) (ids : List Str)
    → has_pair k i (with_key key ids) ≡ (str_eq k key && has_str i ids)
unfolding has_pair has_str
has_pair-with_key k i key [] = ground arith
has_pair-with_key k i key (j ∷ ids) = ground (arith, has_pair-with_key k i key ids)

pub del_msgs-append : (a b : List (Str × Str)) → del_msgs (a ++ b) ≡ del_msgs a ++ del_msgs b
del_msgs-append [] b = refl
del_msgs-append ((k, i) ∷ a) b = ap (◌∷◌ (codes "del" ∷ k ∷ i ∷ [])) (del_msgs-append a b)

module _ {G : Geometry} {F : FieldLists} where
  module _ (less : Object G F → Object G F → Bool) (order : IsOrder less)
      (p : Object G F → Bool) where
    -- An id among those of the items that pass `p` is that of an item that the index finds.
    pub id_found :
        (i : Str) (l : List (Object G F))
        → IsSorted less l
        → has_str i (map object_id (keep_if p l)) ≡ true
        → (o : Object G F) × (object_id o ≡ i)
          × (p o ≡ true)
          × (find_by less o l ≡ some o)
          × ((P : Object G F → Type 0) → All P l → P o)
    unfolding has_str find_by
    id_found i [] s h = ground arith
    id_found i (x ∷ l) s h = elim (Bool-cases (p x && str_eq i (object_id x))) [
      | inl t ↦ (
        x,
        ground (arith, str_eq_iff i (object_id x)),
        ground arith,
        ground (arith, order.less_irrefl x),
        λ P a. a.0,
      )
      | inr f ↦
          let (o, e, po, found, every) = id_found i l s.1 (ground arith) in
          let above = every (λ y. less x y ≡ true) s.0 in
          (
            o,
            e,
            po,
            ground (arith, above, found, order.less_trans o x o, order.less_irrefl o),
            λ P a. every P a.1,
          )
    ]

    pub found_id :
        (y o : Object G F) (l : List (Object G F))
        → find_by less y l ≡ some o
        → p o ≡ true
        → has_str (object_id o) (map object_id (keep_if p l)) ≡ true
    unfolding has_str find_by
    found_id y o [] h t = ground arith
    found_id y o (x ∷ l) h t = ground (arith, found_id y o l, str_eq_refl (object_id o))

  pub held-some :
      (X : Trees G F) (p : Object G F → Bool) (m : Option (Object G F)) (y o : Object G F)
      → held X p by_expires m y ≡ some o
      → (m ≡ some o) × (p o ≡ true)
  held-some X p none y o h = ground arith
  held-some X p (some x) y o h = ground arith

  module _ (nano : ℤ) where
    abbrev pub is_due : Object G F → Bool
    is_due o = not (ltb_ℤ nano (object_expires o))

    -- What a sweep at the time `nano` is to remove.
    abbrev pub is_expired : Object G F → Bool
    is_expired o = not (is_zero (object_expires o)) && is_due o

    abbrev pub keep_live : Option (Object G F) → Option (Object G F)
    keep_live none = none
    keep_live (some o) = if is_expired o then none else some o

    abbrev pub due_ids : List (Object G F) → List Str
    due_ids l = map object_id (keep_if is_due l)

    pub none_due :
        (x : Object G F) (l : List (Object G F))
        → is_due x ≡ false
        → All (λ (y : Object G F). by_expires x y ≡ true) l
        → due_ids l ≡ []
    none_due x [] h a = refl
    none_due x (y ∷ l) h a = ground (arith, none_due x l h a.1, time-by_expires x y a.0)
