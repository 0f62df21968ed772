-- ===== src/Server/Dispatch/Failing/Purges.antt =====
-- PDEL of internal/legacy/server/crud.go that deletes nothing.
use spatialdb_engine.Base.{
  ◌≡◌, refl, sym, ◌∙◌, true, false, Option, none, some, List, [], ◌∷◌, ◌++◌, arith,
}
use spatialdb_engine.Base.Text.{Str, str_eq_iff}
use spatialdb_engine.Geometry.{Geometry, FieldLists}
use spatialdb_engine.Object.{Object}
use spatialdb_engine.Collection
use spatialdb_engine.Collection.{Trees, Collection}
use spatialdb_engine.Server.{Details, Stores, Server, col_of, find}
use spatialdb_engine.Server.Group.{Groups}
use spatialdb_engine.Server.Patterns.{has_any, pdel_each, pdel_done, pdel_op}
use spatialdb_engine.Server.Keys.{IsKept, IsValid, find-put_col, find_col}

has_any-append : {A : Type 0} (l : List A) (x : A) → has_any (l ++ x ∷ []) ≡ true
has_any-append [] x = refl
has_any-append (y ∷ l) x = refl

module _ {G : Geometry} {F : FieldLists} {X : Trees G F} (Y : Stores X) where
  has_any-pdel_each :
      (key : Str) (ids : List Str) (c : Collection X) (groups : Groups Y.groups)
      (children : List (Details (Object G F)))
      → has_any children ≡ true
      → has_any (pdel_each Y key ids c groups children).1.1 ≡ true
  unfolding pdel_each
  has_any-pdel_each key [] c groups children h = h
  has_any-pdel_each key (id ∷ ids) c groups children h =
      has_any-pdel_each key ids (Collection.delete X c id).0 _ _ (has_any-append children _)

  module _ (key : Str) (c : Collection X) (s : Server Y) where
    find-kept :
        IsKept Y c
        → col_of Y s key ≡ some c
        → (k i : Str) → find Y (pdel_done Y key c s.groups s) k i ≡ find Y s k i
    unfolding pdel_done find
    find-kept h e k i =
        rw h.inhabited
          (ground (arith, find-put_col Y s key k i c, find_col Y s key i c e, str_eq_iff key k))

    find-pdel_each :
        (ids : List Str)
        → IsKept Y c
        → col_of Y s key ≡ some c
        → has_any (pdel_each Y key ids c s.groups []).1.1 ≡ false
        → (k i : Str)
        → find Y
            (pdel_done Y key
              (pdel_each Y key ids c s.groups []).0
              (pdel_each Y key ids c s.groups []).1.0
              s)
            k
            i
          ≡ find Y s k i
    unfolding pdel_each
    find-pdel_each [] h e n k i = find-kept h e k i
    find-pdel_each (id ∷ ids) h e n k i =
        let t = has_any-pdel_each key ids (Collection.delete X c id).0 _ _ refl in
        let w : true ≡ false = sym t ∙ n in cc

  -- Where PDEL reports no deletion, every object is found as before.
  pub pdel_op-quiet :
      (key : Str) (ids : Collection X → List Str) (col : Option (Collection X)) (s : Server Y)
      → col_of Y s key ≡ col
      → IsValid Y s
      → has_any (pdel_op Y key ids col s).1 ≡ false
      → (k i : Str) → find Y (pdel_op Y key ids col s).0 k i ≡ find Y s k i
  unfolding pdel_op
  pdel_op-quiet key ids none s e v n k i = refl
  pdel_op-quiet key ids (some c) s e v n k i =
      find-pdel_each key c s (ids c) (v.kept key c e) e n k i
