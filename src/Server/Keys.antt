-- ===== src/Server/Keys.antt =====
-- The tree of collections of internal/legacy/server/server.go under the writes of the data
-- commands, and the validity of a server.
use spatialdb_engine.Base.{
  ◌<◌, ◌≡◌, refl, ap, ◌∙◌, Bool, true, false, ◌&&◌, none, some, List, [], ◌∷◌, arith, if◌then◌else◌,
  Bool-cases, inl, inr, length,
}
use spatialdb_engine.Base.Text.{Str, str_eq, str_eq_iff}
use spatialdb_engine.Geometry.{Geometry, FieldLists}
use spatialdb_engine.Index.Sorted.{lookup_key, insert_key, lookup-insert_key, lookup-remove_key}
use spatialdb_engine.Object.{Object, object_id}
use spatialdb_engine.Varint.{is_zero}
use spatialdb_engine.Collection
use spatialdb_engine.Collection.{Trees, Collection}
use spatialdb_engine.Collection.Describes.{IsConsistent}
use spatialdb_engine.Collection.Invariant.{set-IsConsistent, get-set, count_lem, items-set}
use spatialdb_engine.Server.{Stores, Server, col_of, put_col, drop_col, find, Outcome}

empty_of_length : {A : Type 0} (l : List A) → length l ≡ 0 → l ≡ []
empty_of_length [] h = refl
empty_of_length (x ∷ l) h = ground arith

insert_key_grows :
    {V : Type 0} (k : Str) (v : V) (l : List (Str × V)) → 0 < length (insert_key k v l)
unfolding insert_key
insert_key_grows k v [] = omega arith
insert_key_grows k v ((j, w) ∷ l) = ground (arith, insert_key_grows k v l)

module _ {G : Geometry} {F : FieldLists} {X : Trees G F} (Y : Stores X) where
  -- What holds of a collection that the server keeps: it is consistent, and `Count` is not 0.
  pub record IsKept (c : Collection X) : Type 0 where
    pub consistent : IsConsistent X c
    pub inhabited : is_zero (Collection.count X c) ≡ false

  pub record IsValid (s : Server Y) : Type 0 where
    pub kept : (key : Str) (c : Collection X) → col_of Y s key ≡ some c → IsKept c

  pub col-put_col :
      (s : Server Y) (key k : Str) (c : Collection X)
      → col_of Y (put_col Y s key c) k ≡ (if str_eq key k then some c else col_of Y s k)
  col-put_col s key k c = ground (
    arith,
    Y.cols.get_lem (Y.cols.set s.cols key c).0 k,
    Y.cols.get_lem s.cols k,
    Y.cols.items-set s.cols key c,
    lookup-insert_key key k c (Y.cols.items s.cols),
  )

  pub col-drop_col :
      (s : Server Y) (key k : Str)
      → col_of Y (drop_col Y s key) k ≡ (if str_eq key k then none else col_of Y s k)
  col-drop_col s key k = ground (
    arith,
    Y.cols.get_lem (Y.cols.delete s.cols key).0 k,
    Y.cols.get_lem s.cols k,
    Y.cols.items-delete s.cols key,
    lookup-remove_key key k (Y.cols.items s.cols) (Y.cols.items_sorted s.cols),
  )

  -- The write of a collection to keep, where what the other keys have may be kept.
  pub put_kept-IsValid :
      (s : Server Y) (key : Str) (c : Collection X)
      → IsKept c
      → ((k : Str) (c' : Collection X) → str_eq key k ≡ false → col_of Y s k ≡ some c' → IsKept c')
      → IsValid (put_col Y s key c)
  put_kept-IsValid s key c h v = record {
    kept = λ k c' e. elim (Bool-cases (str_eq key k)) [
      | inl t ↦ (let e' : c ≡ c' = ground (arith, col-put_col s key k c) in rw (← e') h)
      | inr f ↦ v k c' f (ground (arith, col-put_col s key k c))
    ];
  }

  pub put_col-IsValid :
      (s : Server Y) (key : Str) (c : Collection X)
      → IsKept c
      → IsValid s
      → IsValid (put_col Y s key c)
  put_col-IsValid s key c h v = put_kept-IsValid s key c h (λ k c' d. v.kept k c')

  pub drop_col-IsValid : (s : Server Y) (key : Str) → IsValid s → IsValid (drop_col Y s key)
  drop_col-IsValid s key v = record {
    kept = λ k c e. elim (Bool-cases (str_eq key k)) [
      | inl t ↦ ground (arith, col-drop_col s key k)
      | inr f ↦ v.kept k c (ground (arith, col-drop_col s key k))
    ];
  }

  -- A write of one object leaves a collection that the server may keep.
  pub set-IsKept :
      (c : Collection X) (o : Object G F) → IsConsistent X c → IsKept (Collection.set X c o).0
  set-IsKept c o h =
      let n = count_lem X (Collection.set X c o).0 (set-IsConsistent X c o h) in
      let grows = insert_key_grows (object_id o) o (X.objs.items c.objs) in
      record {
        consistent = set-IsConsistent X c o h;
        inhabited = rw (n, items-set X c o) (ground arith);
      }

  -- A collection whose `Count` is 0 has no object.
  pub get_count_zero :
      (c : Collection X) (id : Str)
      → IsConsistent X c
      → is_zero (Collection.count X c) ≡ true
      → Collection.get X c id ≡ none
  unfolding Collection.get lookup_key
  get_count_zero c id h z =
      let n = count_lem X c h in
      let e : X.objs.items c.objs ≡ [] = empty_of_length (X.objs.items c.objs) (ground arith) in
      X.objs.get_lem c.objs id ∙ ap (lookup_key id) e

  pub find-put_col :
      (s : Server Y) (key k i : Str) (c : Collection X)
      → find Y (put_col Y s key c) k i
        ≡ (if str_eq key k then Collection.get X c i else find Y s k i)
  unfolding find
  find-put_col s key k i c =
      rw (col-put_col s key k c) (elim (Bool-cases (str_eq key k)) [ inl t ↦ rw t | inr f ↦ rw f ])

  pub find-drop_col :
      (s : Server Y) (key k i : Str)
      → find Y (drop_col Y s key) k i ≡ (if str_eq key k then none else find Y s k i)
  unfolding find
  find-drop_col s key k i =
      rw (col-drop_col s key k) (elim (Bool-cases (str_eq key k)) [ inl t ↦ rw t | inr f ↦ rw f ])

  -- What `col.Set` of an object writes through the pointer of a collection that the server has, or
  -- that has just been made.
  pub find-put_set :
      (s : Server Y) (key k i id : Str) (c : Collection X) (o : Object G F)
      → object_id o ≡ id
      → ((j : Str) → Collection.get X c j ≡ find Y s key j)
      → find Y (put_col Y s key (Collection.set X c o).0) k i
        ≡ (if str_eq key k && str_eq id i then some o else find Y s k i)
  find-put_set s key k i id c o own same = ground (
    arith,
    find-put_col s key k i (Collection.set X c o).0,
    (get-set X c o).0 i,
    same i,
    str_eq_iff key k,
  )

  pub find_col :
      (s : Server Y) (key i : Str) (c : Collection X)
      → col_of Y s key ≡ some c
      → find Y s key i ≡ Collection.get X c i
  unfolding find
  find_col s key i c e = rw e

  pub find_no_col : (s : Server Y) (key i : Str) → col_of Y s key ≡ none → find Y s key i ≡ none
  unfolding find
  find_no_col s key i e = rw e refl

  pub if-IsValid :
      (b : Bool) (x y : Outcome Y) → IsValid x.0 → IsValid y.0 → IsValid (if b then x else y).0
  if-IsValid true x y p q = p
  if-IsValid false x y p q = q
