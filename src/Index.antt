-- ===== src/Index.antt =====
-- The containers that the engine takes from other packages: spatialdb-dev/btree (`btree.Map` and
-- `btree.BTreeG`) and spatialdb-dev/rtree (`rtree.RTreeGN`). They are parameters: an interface
-- gives the operations and, as laws, what their documentation says of them, in terms of the list
-- of items in iteration order.
pub mod Sorted
pub mod Kept
pub mod Boxes
use spatialdb_engine.Base.{ℕ, ◌+◌, ◌≡◌, Bool, Option, List, [], ◌∷◌, sum_of, if◌then◌else◌, keep_if}
use spatialdb_engine.Base.Text.{Str}
use Sorted.{
  lookup_key, insert_key, remove_key, from_key, downto_key, KeysSorted, find_by, insert_by,
  remove_by, from_item, downto_item, IsSorted,
}

-- `btree.Map[string, V]`: sorted by key. `Set` and `Delete` return the previous value too.
pub record OrderedMap (V : Type 0) : Type 1 where
  pub Tree : Type 0
  pub empty : Tree
  pub items : Tree → List (Str × V)
  pub get : Tree → Str → Option V
  pub set : Tree → Str → V → Tree × Option V
  pub delete : Tree → Str → Tree × Option V
  pub ascend : Tree → Str → List (Str × V)
  pub descend : Tree → Str → List (Str × V)
  pub items-empty : items empty ≡ []
  pub items_sorted : (t : Tree) → KeysSorted (items t)
  pub get_lem : (t : Tree) (k : Str) → get t k ≡ lookup_key k (items t)
  pub items-set : (t : Tree) (k : Str) (v : V) → items (set t k v).0 ≡ insert_key k v (items t)
  pub set_prev : (t : Tree) (k : Str) (v : V) → (set t k v).1 ≡ lookup_key k (items t)
  pub items-delete : (t : Tree) (k : Str) → items (delete t k).0 ≡ remove_key k (items t)
  pub delete_prev : (t : Tree) (k : Str) → (delete t k).1 ≡ lookup_key k (items t)
  pub ascend_lem : (t : Tree) (k : Str) → ascend t k ≡ from_key k (items t)
  pub descend_lem : (t : Tree) (k : Str) → descend t k ≡ downto_key k (items t)

-- `btree.BTreeG[A]`: sorted by `less`, one item for each class of items that `less` does not order.
pub record OrderedSet {A : Type 0} (less : A → A → Bool) : Type 1 where
  pub Tree : Type 0
  pub empty : Tree
  pub items : Tree → List A
  pub set : Tree → A → Tree
  pub delete : Tree → A → Tree
  pub ascend : Tree → A → List A
  pub descend : Tree → A → List A
  pub items-empty : items empty ≡ []
  pub items_sorted : (t : Tree) → IsSorted less (items t)
  pub items-set : (t : Tree) (a : A) → items (set t a) ≡ insert_by less a (items t)
  pub items-delete : (t : Tree) (a : A) → items (delete t a) ≡ remove_by less a (items t)
  pub ascend_lem : (t : Tree) (a : A) → ascend t a ≡ from_item less a (items t)
  pub descend_lem : (t : Tree) (a : A) → descend t a ≡ downto_item less a (items t)

-- The same items, each as often: every way to weigh items gives the two lists the same total.
abbrev pub SameItems : {A : Type 0} → List A → List A → Type 0
SameItems {A} xs ys = (f : A → ℕ) → sum_of f xs ≡ sum_of f ys

-- `rtree.RTreeGN[float32, A]`: items under boxes. `search` gives the items in the order in which
-- the tree meets them.
pub record SpatialIndex (Box A : Type 0) : Type 1 where
  pub Tree : Type 0
  pub empty : Tree
  pub entries : Tree → List (Box × A)
  pub insert : Tree → Box → A → Tree
  pub delete : Tree → Box → A → Tree
  pub overlaps : Box → Box → Bool
  pub search : Tree → Box → List A
  pub entries-empty : entries empty ≡ []
  pub entries-insert :
      (t : Tree) (b : Box) (a : A) → SameItems (entries (insert t b a)) ((b, a) ∷ entries t)
  pub entries-delete :
      (t : Tree) (b : Box) (a : A) (rest : List (Box × A))
      → SameItems (entries t) ((b, a) ∷ rest)
      → SameItems (entries (delete t b a)) rest
  pub search_lem :
      (t : Tree) (q : Box) (f : A → ℕ)
      → sum_of f (search t q)
        ≡ sum_of (λ (e : Box × A). if overlaps e.0 q then f e.1 else 0) (entries t)
