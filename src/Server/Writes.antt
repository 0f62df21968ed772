-- ===== src/Server/Writes.antt =====
-- SET, FSET, EXPIRE and PERSIST of internal/legacy/server/crud.go: what they leave in the server.
use mathlib.Core.List.{foldl}
use spatialdb_engine.Base.{
  ◌≡◌, refl, sym, ap, ◌∙◌, Bool, false, not, ◌&&◌, ◌||◌, Option, none, some, List, [], ◌∷◌, arith,
  if◌then◌else◌, Bool-cases, inl, inr, is_some,
}
use spatialdb_engine.Base.Text.{Str, str_eq, str_eq_iff, str_eq_refl}
use spatialdb_engine.Base.Int.{ℤ}
use spatialdb_engine.Geometry.{Geometry, FieldLists}
use spatialdb_engine.Object.{Object, Geo, new_object}
use spatialdb_engine.Object.Head.{new_object_id_expires}
use spatialdb_engine.Varint.RoundTrip.{InInt64}
use spatialdb_engine.Collection
use spatialdb_engine.Collection.{Trees, Collection}
use spatialdb_engine.Collection.Describes.{IsConsistent}
use spatialdb_engine.Collection.Invariant.{new-IsConsistent, get-new}
use spatialdb_engine.Server.{
  OutputType, is_json, Result, ok, err, Stores, Server, col_of, put_col, find,
}
use spatialdb_engine.Server.Args.{Parsers}
use spatialdb_engine.Server.SetArgs.{Options, no_options, set_args}
use spatialdb_engine.Server.Set.{
  fields_of, set_fields, nada, store, set_in, set_op, set_geo, set_parsed, cmd_set,
}
use spatialdb_engine.Server.Keys.{
  IsKept, IsValid, put_kept-IsValid, if-IsValid, set-IsKept, find-put_col, find-put_set, find_col,
  find_no_col, col-put_col,
}

if_false : {A : Type 0} (b : Bool) (x y : A) → b ≡ false → (if b then x else y) ≡ y
if_false b x y h = rw h refl

module _ {G : Geometry} {F : FieldLists} {X : Trees G F} (Y : Stores X) where
  -- XX asks for an object, NX for none.
  abbrev pub excluded : Options G F → Option (Object G F) → Bool
  excluded o obj = (o.xx && not (is_some obj)) || (o.nx && is_some obj)

  -- The object that a SET writes over `old`.
  abbrev pub written : Options G F → Str → Geo G → Option (Object G F) → Object G F
  written o id oobj old = new_object id oobj o.ex (
      foldl {B = F.Fields} (λ l f. F.set l f.0 f.1) (elim old [ none ↦ F.nil | some x ↦ x.fields ])
        o.fields)

  set_fields-foldl :
      (l : F.Fields) (fs : List (Str × F.Value))
      → set_fields Y l fs ≡ foldl {B = F.Fields} (λ l f. F.set l f.0 f.1) l fs
  unfolding set_fields
  set_fields-foldl l [] = refl
  set_fields-foldl l ((name, v) ∷ fs) = set_fields-foldl (F.set l name v) fs

  -- The object that a SET makes over `old`.
  abbrev made : Options G F → Str → Geo G → Option (Object G F) → Object G F
  made o id oobj old = new_object id oobj o.ex (set_fields Y (fields_of Y old) o.fields)

  made-written :
      (o : Options G F) (id : Str) (oobj : Geo G) (old : Option (Object G F))
      → made o id oobj old ≡ written o id oobj old
  unfolding fields_of
  made-written o id oobj none = ap (new_object id oobj o.ex) (set_fields-foldl F.nil o.fields)
  made-written o id oobj (some x) =
      ap (new_object id oobj o.ex) (set_fields-foldl x.fields o.fields)

  nada-IsValid :
      (out : OutputType) (nx : Bool) (s : Server Y) → IsValid Y s → IsValid Y (nada Y out nx s).0
  unfolding nada
  nada-IsValid out nx s v = elim (Bool-cases (is_json out)) [ inl t ↦ rw t v | inr f ↦ rw f v ]

  module _ (out : OutputType) (o : Options G F) (key id : Str) (oobj : Geo G) where
    find-set_in :
        InInt64 o.ex
        → (c : Collection X) (s : Server Y) → ((j : Str) → Collection.get X c j ≡ find Y s key j)
        → (k i : Str)
        → find Y (set_in Y out o key id oobj c s).0 k i ≡ (
            if str_eq key k && str_eq id i && not (excluded o (find Y s key id))
            then some (made o id oobj (find Y s key id))
            else find Y s k i)
    unfolding set_in store nada
    find-set_in ex c s same k i =
        let obj = made o id oobj (Collection.get X c id) in
        let own =
          (new_object_id_expires G F id oobj o.ex
            (set_fields Y (fields_of Y (Collection.get X c id)) o.fields) ex).0 in
        rw (← same id) (ground (arith, find-put_set Y s key k i id c obj own same))

    -- The tree that a SET of a missing key works on: with a new collection.
    fresh :
        (s : Server Y)
        → col_of Y s key ≡ none
        → (j : Str)
        → Collection.get X (Collection.new X) j ≡ find Y (put_col Y s key (Collection.new X)) key j
    fresh s e j = ground (arith, find-put_col Y s key key j (Collection.new X), str_eq_refl key)

    find-fresh :
        (s : Server Y) (k i : Str)
        → col_of Y s key ≡ none
        → find Y (put_col Y s key (Collection.new X)) k i ≡ find Y s k i
    find-fresh s k i e = ground (
      arith,
      find-put_col Y s key k i (Collection.new X),
      get-new X i,
      find_no_col Y s key i e,
      str_eq_iff key k,
    )

    pub set_op_fresh :
        (s : Server Y)
        → o.xx ≡ false
        → set_op Y out o key id oobj none s
          ≡ set_in Y out o key id oobj (Collection.new X) (put_col Y s key (Collection.new X))
    unfolding set_op
    set_op_fresh s f = if_false o.xx _ _ f

    -- Neither XX nor NX excludes a SET on a new collection.
    pub set_in_fresh :
        (s : Server Y)
        → o.xx ≡ false
        → set_in Y out o key id oobj (Collection.new X) s
          ≡ store Y out o key id oobj (Collection.new X) s
    unfolding set_in
    set_in_fresh s f =
        if_false (excluded o (Collection.get X (Collection.new X) id)) _ _
          (ground (arith, get-new X id))

    find-set_op :
        InInt64 o.ex
        → (col : Option (Collection X)) (s : Server Y) → col_of Y s key ≡ col
        → (k i : Str)
        → find Y (set_op Y out o key id oobj col s).0 k i ≡ (
            if str_eq key k && str_eq id i && not (excluded o (find Y s key id))
            then some (made o id oobj (find Y s key id))
            else find Y s k i)
    unfolding set_op nada
    find-set_op ex none s e k i = elim (Bool-cases o.xx) [
      | inl t ↦ ground (arith, find_no_col Y s key id e)
      | inr f ↦
          rw (set_op_fresh s f, ← find-fresh s key id e, ← find-fresh s k i e)
            (find-set_in ex (Collection.new X) (put_col Y s key (Collection.new X)) (fresh s e) k i)
    ]
    find-set_op ex (some c) s e k i = find-set_in ex c s (λ j. sym (find_col Y s key j c e)) k i

    store-IsValid :
        (c : Collection X) (s : Server Y)
        → IsConsistent X c
        → ((k : Str) (c' : Collection X)
            → str_eq key k ≡ false
            → col_of Y s k ≡ some c'
            → IsKept Y c')
        → IsValid Y (store Y out o key id oobj c s).0
    unfolding store
    store-IsValid c s h v =
        put_kept-IsValid Y s key _ (set-IsKept Y c (made o id oobj (Collection.get X c id)) h) v

    set_in-IsValid :
        (c : Collection X) (s : Server Y)
        → IsConsistent X c
        → IsValid Y s
        → IsValid Y (set_in Y out o key id oobj c s).0
    unfolding set_in nada
    set_in-IsValid c s h v = elim (Bool-cases (excluded o (Collection.get X c id))) [
      | inl t ↦ rw t (nada-IsValid out o.nx s v)
      | inr f ↦ rw f (store-IsValid c s h (λ k c' e. v.kept k c'))
    ]

    set_op-IsValid :
        (col : Option (Collection X)) (s : Server Y)
        → col_of Y s key ≡ col
        → IsValid Y s
        → IsValid Y (set_op Y out o key id oobj col s).0
    unfolding set_op
    set_op-IsValid none s e v = elim (Bool-cases o.xx) [
      | inl t ↦ rw t (nada-IsValid out o.nx s v)
      | inr f ↦
          rw (set_op_fresh s f, set_in_fresh (put_col Y s key (Collection.new X)) f)
            (store-IsValid (Collection.new X) (put_col Y s key (Collection.new X))
              (new-IsConsistent X)
              (λ k c' d g. v.kept k c' (ground (arith, col-put_col Y s key k (Collection.new X)))))
    ]
    set_op-IsValid (some c) s e v = set_in-IsValid c s (v.kept key c e).consistent v

  set_geo-IsValid :
      (out : OutputType) (o : Options G F) (key id : Str) (g : Option (Geo G)) (s : Server Y)
      → IsValid Y s
      → IsValid Y (set_geo Y out o key id g s).0
  unfolding set_geo
  set_geo-IsValid out o key id none s v = v
  set_geo-IsValid out o key id (some g) s v =
      set_op-IsValid out o key id g (col_of Y s key) s refl v

  set_parsed-IsValid :
      (out : OutputType) (key id : Str) (o : Result (Options G F)) (s : Server Y)
      → IsValid Y s
      → IsValid Y (set_parsed Y out key id o s).0
  unfolding set_parsed
  set_parsed-IsValid out key id (err e) s v = v
  set_parsed-IsValid out key id (ok o) s v = set_geo-IsValid out o key id o.oobj s v

  -- SET keeps the server valid, whatever its arguments: a SET that fails or is excluded leaves no
  -- empty collection behind.
  pub cmd_set-IsValid :
      (P : Parsers G F) (now : ℤ) (out : OutputType) (args : List Str) (s : Server Y)
      → IsValid Y s
      → IsValid Y (cmd_set Y P now out args s).0
  unfolding cmd_set
  cmd_set-IsValid P now out [] s v = if-IsValid Y s.oom _ _ v v
  cmd_set-IsValid P now out (a ∷ []) s v = if-IsValid Y s.oom _ _ v v
  cmd_set-IsValid P now out (a ∷ b ∷ []) s v = if-IsValid Y s.oom _ _ v v
  cmd_set-IsValid P now out (name ∷ key ∷ id ∷ rest) s v =
      if-IsValid Y s.oom _ _ v
        (set_parsed-IsValid out key id (set_args P now 0 rest (no_options G F)) s v)

  cmd_set-set_op :
      (P : Parsers G F) (now : ℤ) (out : OutputType) (name key id : Str) (rest : List Str)
      (s : Server Y) (o : Options G F) (g : Geo G)
      → s.oom ≡ false
      → set_args P now 0 rest (no_options G F) ≡ ok o
      → o.oobj ≡ some g
      → cmd_set Y P now out (name ∷ key ∷ id ∷ rest) s ≡ set_op Y out o key id g (col_of Y s key) s
  unfolding cmd_set set_parsed set_geo
  cmd_set-set_op P now out name key id rest s o g m e j =
      if_false s.oom _ _ m
      ∙ ap (λ r. set_parsed Y out key id r s) e
      ∙ ap (λ x. set_geo Y out o key id x s) j

  -- A SET whose arguments parse to options with a geometry, on a server that is not out of memory,
  -- writes its object unless XX or NX excludes it: made of its id, its geometry, its expiration, and the
  -- fields of the object that was there with those of the command set in them one after the other. Every other object of every key is found as before.
  pub find-cmd_set :
      (P : Parsers G F) (now : ℤ) (out : OutputType) (name key id : Str) (rest : List Str)
      (s : Server Y) (o : Options G F) (g : Geo G)
      → s.oom ≡ false
      → set_args P now 0 rest (no_options G F) ≡ ok o
      → o.oobj ≡ some g
      → InInt64 o.ex
      → (k i : Str)
      → find Y (cmd_set Y P now out (name ∷ key ∷ id ∷ rest) s).0 k i ≡ (
          if str_eq key k && str_eq id i && not (excluded o (find Y s key id))
          then some (written o id g (find Y s key id))
          else find Y s k i)
  find-cmd_set P now out name key id rest s o g m e j ex k i =
      rw (← made-written o id g (find Y s key id)) (
        ap (λ r. find Y r.0 k i) (cmd_set-set_op P now out name key id rest s o g m e j)
        ∙ find-set_op out o key id g ex (col_of Y s key) s refl k i)

  -- SET leaves the memory mark.
  pub oom-cmd_set :
      (P : Parsers G F) (now : ℤ) (out : OutputType) (args : List Str) (s : Server Y)
      → (cmd_set Y P now out args s).0.oom ≡ s.oom
  unfolding cmd_set set_parsed set_geo set_op set_in store nada
  oom-cmd_set P now out args s = ground arith
