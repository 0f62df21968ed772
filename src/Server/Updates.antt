-- ===== src/Server/Updates.antt =====
-- FSET, EXPIRE and PERSIST of internal/legacy/server/crud.go: what they leave in the server.
use mathlib.Core.Option
use mathlib.Core.List.{foldl}
use spatialdb_engine.Base.{
  ℕ, ◌-◌, ◌^◌, ltb, ◌≡◌, refl, sym, ap, ◌∙◌, Bool, false, ◌&&◌, Option, none, some, List, [], ◌∷◌,
  arith, if◌then◌else◌, Bool-cases, inl, inr,
}
use spatialdb_engine.Base.Text.{Str, str_eq, str_eq_iff}
use spatialdb_engine.Base.Int.{ℤ, pos, negsuc, ◌+ℤ◌}
use spatialdb_engine.Geometry.{Geometry, FieldLists}
use spatialdb_engine.Object.{Object, object_id, object_geo, object_expires, new_object}
use spatialdb_engine.Object.Head.{new_object_id_expires}
use spatialdb_engine.Varint.RoundTrip.{InInt64}
use spatialdb_engine.Varint.{is_zero}
use spatialdb_engine.Collection
use spatialdb_engine.Collection.{Trees, Collection}
use spatialdb_engine.Server.{
  OutputType, json, resp, other, Error, key_not_found, id_not_found, ok, Stores, Server, col_of,
  put_col, find, add_int64,
}
use spatialdb_engine.Server.Args.{Parsers}
use spatialdb_engine.Server.Fields.{
  FieldOptions, no_field_options, update_fields, fset_args, fset_found, fset_in, fset_op,
  fset_parsed, cmd_fset,
}
use spatialdb_engine.Server.Expiry.{
  with_expires, expire_in, expire_op, expire_parsed, cmd_expire, persist_missing, persist_in,
  persist_op, cmd_persist,
}
use spatialdb_engine.Server.Keys.{
  IsValid, put_col-IsValid, set-IsKept, find-put_set, find_col, find_no_col,
}

if_false : {A : Type 0} (b : Bool) (x y : A) → b ≡ false → (if b then x else y) ≡ y
if_false b x y h = rw h refl

pub add_int64-InInt64 : (a b : ℤ) → InInt64 (add_int64 a b)
unfolding add_int64
add_int64-InInt64 a b = ground arith

-- What an int64 makes of the sum of two int64.
abbrev pub wrapped : ℤ → ℤ
wrapped (pos n) = if ltb n (2 ^ 63) then pos n else negsuc (2 ^ 64 - n - 1)
wrapped (negsuc n) = if ltb n (2 ^ 63) then negsuc n else pos (2 ^ 64 - n - 1)

add_int64-wrapped : (a b : ℤ) → InInt64 a → InInt64 b → add_int64 a b ≡ wrapped (a +ℤ b)
unfolding add_int64 ◌+ℤ◌
add_int64-wrapped (pos a) (pos b) l r = ground arith
add_int64-wrapped (pos a) (negsuc b) l r = ground arith
add_int64-wrapped (negsuc a) (pos b) l r = ground arith
add_int64-wrapped (negsuc a) (negsuc b) l r = ground arith

module _ {G : Geometry} {F : FieldLists} {X : Trees G F} (Y : Stores X) where
  -- The state after a command that writes `f` of the object of `key` and `id`, if there is one.
  abbrev pub Maps : Server Y → Server Y → Str → Str → (Object G F → Object G F) → Type 0
  Maps s s' key id f =
      IsValid Y s'
      × ((k i : Str)
          → find Y s' k i ≡ (
              if str_eq key k && str_eq id i then Option.map f (find Y s key id) else find Y s k i))

  Maps-missing :
      (s : Server Y) (key id : Str) (f : Object G F → Object G F)
      → IsValid Y s
      → find Y s key id ≡ none
      → Maps s s key id f
  Maps-missing s key id f v n =
      (v, λ k i. rw n (ground (arith, n, str_eq_iff key k, str_eq_iff id i)))

  Maps-put :
      (s : Server Y) (key id : Str) (c : Collection X) (x : Object G F)
      (f : Object G F → Object G F)
      → IsValid Y s
      → col_of Y s key ≡ some c
      → Collection.get X c id ≡ some x
      → object_id (f x) ≡ id
      → Maps s (put_col Y s key (Collection.set X c (f x)).0) key id f
  Maps-put s key id c x f v e g own = (
    put_col-IsValid Y s key _ (set-IsKept Y c (f x) (v.kept key c e).consistent) v,
    λ k i.
        rw (find_col Y s key id c e, g)
          (find-put_set Y s key k i id c (f x) own (λ j. sym (find_col Y s key j c e))),
  )

  module _ (out : OutputType) (key id : Str) (ex : ℤ) (range : InInt64 ex) where
    own_id : (o : Object G F) → object_id (with_expires Y id ex o) ≡ id
    unfolding with_expires
    own_id o = (new_object_id_expires G F id (object_geo o) ex o.fields range).0

    expire_in-Maps :
        (c : Collection X) (x : Option (Object G F)) (s : Server Y)
        → col_of Y s key ≡ some c
        → Collection.get X c id ≡ x
        → IsValid Y s
        → Maps s (expire_in Y out key id ex c x s).0 key id (with_expires Y id ex)
    unfolding expire_in
    expire_in-Maps c none s e g v =
        Maps-missing s key id (with_expires Y id ex) v (find_col Y s key id c e ∙ g)
    expire_in-Maps c (some x) s e g v =
        Maps-put s key id c x (with_expires Y id ex) v e g (own_id x)

    pub expire_op-Maps :
        (col : Option (Collection X)) (s : Server Y)
        → col_of Y s key ≡ col
        → IsValid Y s
        → Maps s (expire_op Y out key id ex col s).0 key id (with_expires Y id ex)
    unfolding expire_op
    expire_op-Maps none s e v =
        Maps-missing s key id (with_expires Y id ex) v (find_no_col Y s key id e)
    expire_op-Maps (some c) s e v = expire_in-Maps c (Collection.get X c id) s e refl v

  -- EXPIRE with a number that parses, at an int64 time and of an int64 number of nanoseconds, makes the
  -- object of its key and id, if there is one, anew from its geometry and its fields, with the int64 of
  -- the sum of the two for its expiration; it changes no other object of any key. The server stays
  -- valid.
  pub find-cmd_expire :
      (P : Parsers G F) (now : ℤ) (out : OutputType) (name key id svalue : Str) (s : Server Y)
      (x : G.F64)
      → IsValid Y s
      → P.parse_float svalue ≡ some x
      → InInt64 now
      → InInt64 (P.nanos x)
      → IsValid Y (cmd_expire Y P now out (name ∷ key ∷ id ∷ svalue ∷ []) s).0
        × ((k i : Str)
            → find Y (cmd_expire Y P now out (name ∷ key ∷ id ∷ svalue ∷ []) s).0 k i ≡ (
                if str_eq key k && str_eq id i
                then Option.map
                    (λ o. new_object id (object_geo o) (wrapped (now +ℤ P.nanos x)) o.fields)
                    (find Y s key id)
                else find Y s k i))
  unfolding cmd_expire with_expires
  find-cmd_expire P now out name key id svalue s x v e l r =
      rw (cmd_expire, e, expire_parsed, ← add_int64-wrapped now (P.nanos x) l r)
        (expire_op-Maps out key id (add_int64 now (P.nanos x)) (add_int64-InInt64 now (P.nanos x))
          (col_of Y s key) s refl v)

  Maps-same :
      (s : Server Y) (key id : Str) (x : Object G F) (f : Object G F → Object G F)
      → IsValid Y s
      → find Y s key id ≡ some x
      → f x ≡ x
      → Maps s s key id f
  Maps-same s key id x f v n e =
      (v, λ k i. rw (n, Option.map, e) (ground (arith, n, str_eq_iff key k, str_eq_iff id i)))

  -- What PERSIST makes of an object: the same, made anew with a 0 for an expiration that it has.
  abbrev pub without_expires : Str → Object G F → Object G F
  without_expires id x =
      if is_zero (object_expires x) then x else new_object id (object_geo x) (pos 0) x.fields

  persist_missing-Maps :
      (out : OutputType) (e : Error) (key id : Str) (s : Server Y)
      → find Y s key id ≡ none
      → IsValid Y s
      → Maps s (persist_missing Y out e s).0 key id (without_expires id)
  persist_missing-Maps json e key id s n v = Maps-missing s key id (without_expires id) v n
  persist_missing-Maps resp e key id s n v = Maps-missing s key id (without_expires id) v n
  persist_missing-Maps other e key id s n v = Maps-missing s key id (without_expires id) v n

  persist_in-Maps :
      (out : OutputType) (key id : Str) (c : Collection X) (x : Option (Object G F)) (s : Server Y)
      → col_of Y s key ≡ some c
      → Collection.get X c id ≡ x
      → IsValid Y s
      → Maps s (persist_in Y out key id c x s).0 key id (without_expires id)
  unfolding persist_in with_expires
  persist_in-Maps out key id c none s e g v =
      persist_missing-Maps out id_not_found key id s (find_col Y s key id c e ∙ g) v
  persist_in-Maps out key id c (some x) s e g v = elim (Bool-cases (is_zero (object_expires x))) [
    | inl t ↦
        rw t (Maps-same s key id x (without_expires id) v (find_col Y s key id c e ∙ g) (rw t refl))
    | inr f ↦
        let same : without_expires id x ≡ with_expires Y id (pos 0) x = rw f refl in
        rw (f, ← same)
          (Maps-put s key id c x (without_expires id) v e g
            (rw same (own_id out key id (pos 0) (omega arith) x)))
  ]

  persist_op-Maps :
      (out : OutputType) (key id : Str) (col : Option (Collection X)) (s : Server Y)
      → col_of Y s key ≡ col
      → IsValid Y s
      → Maps s (persist_op Y out key id col s).0 key id (without_expires id)
  unfolding persist_op
  persist_op-Maps out key id none s e v =
      persist_missing-Maps out key_not_found key id s (find_no_col Y s key id e) v
  persist_op-Maps out key id (some c) s e v =
      persist_in-Maps out key id c (Collection.get X c id) s e refl v

  -- PERSIST takes the expiration from the object of its key and id, if there is one that expires, and
  -- changes neither that object's geometry and fields nor any other object of any key. The server
  -- stays valid.
  pub find-cmd_persist :
      (out : OutputType) (name key id : Str) (s : Server Y)
      → IsValid Y s
      → IsValid Y (cmd_persist Y out (name ∷ key ∷ id ∷ []) s).0
        × ((k i : Str)
            → find Y (cmd_persist Y out (name ∷ key ∷ id ∷ []) s).0 k i ≡ (
                if str_eq key k && str_eq id i
                then Option.map (without_expires id) (find Y s key id)
                else find Y s k i))
  unfolding cmd_persist
  find-cmd_persist out name key id s v = persist_op-Maps out key id (col_of Y s key) s refl v

  -- What FSET makes of an object: the same one with the fields that change written.
  abbrev pub with_fields : FieldOptions F → Str → Object G F → Object G F
  with_fields o id x = new_object id (object_geo x) (object_expires x) (
      foldl {B = F.Fields} (λ l f. if F.equals (F.get l f.0).1 f.1 then l else F.set l f.0 f.1)
        x.fields o.fields)

  fst-update_fields :
      (fs : List (Str × F.Value)) (l : F.Fields) (n : ℕ)
      → (update_fields Y fs l n).0
        ≡ foldl {B = F.Fields}
            (λ l f. if F.equals (F.get l f.0).1 f.1 then l else F.set l f.0 f.1)
            l
            fs
  unfolding update_fields
  fst-update_fields [] l n = refl
  fst-update_fields ((name, v) ∷ fs) l n = fst-update_fields fs _ _

  fset_in-Maps :
      (out : OutputType) (o : FieldOptions F) (key id : Str) (c : Collection X)
      (x : Option (Object G F)) (s : Server Y)
      → col_of Y s key ≡ some c
      → Collection.get X c id ≡ x
      → ((y : Object G F) → x ≡ some y → InInt64 (object_expires y))
      → IsValid Y s
      → Maps s (fset_in Y out o key id c x s).0 key id (with_fields o id)
  unfolding fset_in fset_found
  fset_in-Maps out o key id c none s e g r v =
      let n = Maps-missing s key id (with_fields o id) v (find_col Y s key id c e ∙ g) in
      elim (Bool-cases o.xx) [ inl t ↦ rw t n | inr f ↦ rw f n ]
  fset_in-Maps out o key id c (some x) s e g r v = rw (fst-update_fields o.fields x.fields 0) (
      Maps-put s key id c x (with_fields o id) v e g
        (new_object_id_expires G F id (object_geo x) (object_expires x) _ (r x refl)).0)

  cmd_fset-fset_op :
      (P : Parsers G F) (out : OutputType) (name key id a b : Str) (rest : List Str) (s : Server Y)
      (o : FieldOptions F)
      → s.oom ≡ false
      → fset_args P 0 (a ∷ b ∷ rest) (no_field_options F) ≡ ok o
      → cmd_fset Y P out (name ∷ key ∷ id ∷ a ∷ b ∷ rest) s
        ≡ fset_op Y out o key id (col_of Y s key) s
  unfolding cmd_fset fset_parsed
  cmd_fset-fset_op P out name key id a b rest s o m e =
      if_false s.oom _ _ m ∙ ap (λ r. fset_parsed Y out key id r s) e

  fset_op-Maps :
      (out : OutputType) (o : FieldOptions F) (key id : Str) (col : Option (Collection X))
      (s : Server Y)
      → col_of Y s key ≡ col
      → ((x : Object G F) → find Y s key id ≡ some x → InInt64 (object_expires x))
      → IsValid Y s
      → Maps s (fset_op Y out o key id col s).0 key id (with_fields o id)
  unfolding fset_op
  fset_op-Maps out o key id none s e r v =
      Maps-missing s key id (with_fields o id) v (find_no_col Y s key id e)
  fset_op-Maps out o key id (some c) s e r v =
      fset_in-Maps out o key id c (Collection.get X c id) s e refl
        (λ x h. r x (find_col Y s key id c e ∙ h)) v

  -- FSET with arguments that parse, on a server that is not out of memory, writes the fields of the
  -- object of its key and id, if there is one whose expiration is an int64: a field whose value is
  -- equal to the new one is left. That object's geometry and expiration, and every other object of
  -- every key, stay. The server stays valid.
  pub find-cmd_fset :
      (P : Parsers G F) (out : OutputType) (name key id a b : Str) (rest : List Str) (s : Server Y)
      (o : FieldOptions F)
      → IsValid Y s
      → s.oom ≡ false
      → fset_args P 0 (a ∷ b ∷ rest) (no_field_options F) ≡ ok o
      → ((x : Object G F) → find Y s key id ≡ some x → InInt64 (object_expires x))
      → IsValid Y (cmd_fset Y P out (name ∷ key ∷ id ∷ a ∷ b ∷ rest) s).0
        × ((k i : Str)
            → find Y (cmd_fset Y P out (name ∷ key ∷ id ∷ a ∷ b ∷ rest) s).0 k i ≡ (
                if str_eq key k && str_eq id i
                then Option.map (with_fields o id) (find Y s key id)
                else find Y s k i))
  find-cmd_fset P out name key id a b rest s o v m e r =
      rw (cmd_fset-fset_op P out name key id a b rest s o m e)
        (fset_op-Maps out o key id (col_of Y s key) s refl r v)
