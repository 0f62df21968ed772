-- ===== src/Index/Boxes.antt =====
-- A spatial tree over those items of a sorted list that have a box.
use spatialdb_engine.Base.{
  ℕ, ◌+◌, ◌≡◌, refl, ap, Bool, Option, none, some, List, [], ◌∷◌, arith, sum_of, Option-cases, inl,
  inr,
}
use spatialdb_engine.Index.Sorted.{find_by, insert_by, remove_by, opt_sum}
use spatialdb_engine.Index.Kept.{sum-insert_by, sum-remove_by}
use spatialdb_engine.Index.{SpatialIndex, SameItems}

module _ {Box A : Type 0} (box : A → Option Box) where
  abbrev pub weigh : (Box × A → ℕ) → A → ℕ
  weigh f a = elim (box a) [ none ↦ 0 | some b ↦ f (b, a) ]

  unfoldable pub boxes : List A → List (Box × A)
  boxes [] = []
  boxes (a ∷ l) = elim (box a) [ none ↦ boxes l | some b ↦ (b, a) ∷ boxes l ]

  pub sum-boxes : (f : Box × A → ℕ) (l : List A) → sum_of f (boxes l) ≡ sum_of (weigh f) l
  unfolding boxes
  sum-boxes f [] = refl
  sum-boxes f (a ∷ l) = ground (arith, sum-boxes f l)

  module _ (I : SpatialIndex Box A) (less : A → A → Bool) where
    abbrev pub insert_box : I.Tree → A → I.Tree
    insert_box t a = elim (box a) [ none ↦ t | some b ↦ I.insert t b a ]

    abbrev pub delete_box : I.Tree → A → I.Tree
    delete_box t a = elim (box a) [ none ↦ t | some b ↦ I.delete t b a ]

    -- The tree holds the boxes of the list.
    abbrev pub Covers : I.Tree → List A → Type 0
    Covers t l = SameItems (I.entries t) (boxes l)

    sum-boxes_remove :
        (f : Box × A → ℕ) (a : A) (l : List A)
        → find_by less a l ≡ some a
        → sum_of f (boxes (remove_by less a l)) + weigh f a ≡ sum_of f (boxes l)
    sum-boxes_remove f a l there =
        rw
          (
            sum-boxes f (remove_by less a l),
            sum-boxes f l,
            ← sum-remove_by less (weigh f) a l,
            there,
          )
          refl

    sum-insert_box :
        (a : A) (t : I.Tree) (f : Box × A → ℕ)
        → sum_of f (I.entries (insert_box t a)) ≡ weigh f a + sum_of f (I.entries t)
    sum-insert_box a t f = elim (Option-cases (box a)) [
      | inl e ↦ ground (arith, e)
      | inr (b, e) ↦ ground (arith, I.entries-insert t b a f)
    ]

    pub insert-Covers :
        (a : A) (t : I.Tree) (l : List A)
        → find_by less a l ≡ none
        → Covers t l
        → Covers (insert_box t a) (insert_by less a l)
    insert-Covers a t l free h f = omega (
      arith,
      h f,
      sum-boxes f l,
      sum-boxes f (insert_by less a l),
      sum-insert_by less (weigh f) a l,
      ap (opt_sum (weigh f)) free,
      sum-insert_box a t f,
    )

    pub delete-Covers :
        (a : A) (t : I.Tree) (l : List A)
        → find_by less a l ≡ some a
        → Covers t l
        → Covers (delete_box t a) (remove_by less a l)
    delete-Covers a t l there h = delete_under (box a) refl
      where
        delete_under :
            (o : Option Box)
            → box a ≡ o
            → SameItems
                (I.entries (elim o [ none ↦ t | some b ↦ I.delete t b a ]))
                (boxes (remove_by less a l))
        delete_under none e = λ f. ground (arith, e, h f, sum-boxes_remove f a l there)
        delete_under (some b) e =
            I.entries-delete t b a (boxes (remove_by less a l))
              (λ g. ground (arith, e, h g, sum-boxes_remove g a l there))
