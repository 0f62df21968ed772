-- ===== src/Server/Deletes.antt =====
-- DEL and DROP of internal/legacy/server/crud.go: what they leave in the server.
use spatialdb_engine.Base.{
  ◌⊎◌, ◌≡◌, refl, sym, ap, ◌∙◌, Bool, false, ◌&&◌, Option, none, some, List, [], ◌∷◌, arith,
  if◌then◌else◌, Option-cases, Bool-cases, inl, inr, is_some,
}
use spatialdb_engine.Base.Text.{Str, str_eq, str_eq_iff}
use spatialdb_engine.Geometry.{Geometry, FieldLists}
use spatialdb_engine.Object.{Object}
use spatialdb_engine.Varint.{is_zero}
use spatialdb_engine.Collection
use spatialdb_engine.Collection.{Trees, Collection}
use spatialdb_engine.Collection.Invariant.{
  delete-IsConsistent, get-delete, count_lem, items-delete, get_lookup,
}
use spatialdb_engine.Collection.Describes.{IsConsistent}
use spatialdb_engine.Index.Sorted.{lookup_key, remove_key_absent}
use spatialdb_engine.Base.Int.{pos}
use spatialdb_engine.Base.{length}
use spatialdb_engine.Server.{
  OutputType, no_details, del, Result, ok, err, Stores, Server, col_of, found_in, find,
}
use spatialdb_engine.Server.Delete.{
  count_reply, del_flags, del_done, del_from, del_op, del_parsed, cmd_del,
}
use spatialdb_engine.Server.Keys.{
  IsKept, IsValid, put_col-IsValid, drop_col-IsValid, get_count_zero, find-put_col, find-drop_col,
  find_col,
}

module _ {G : Geometry} {F : FieldLists} {X : Trees G F} (Y : Stores X) where
  delete_none-IsKept :
      (c : Collection X) (id : Str)
      → IsKept Y c
      → (Collection.delete X c id).1 ≡ none
      → IsKept Y (Collection.delete X c id).0
  delete_none-IsKept c id h e =
      let d = delete-IsConsistent X c id h.consistent in
      let absent : lookup_key id (X.objs.items c.objs) ≡ none =
        ground (arith, (get-delete X c id).1, get_lookup X c id) in
      let same = remove_key_absent id (X.objs.items c.objs) absent in
      let n =
        count_lem X (Collection.delete X c id).0 d
        ∙ ap (λ l. pos (length l)) (items-delete X c id ∙ same)
        ∙ sym (count_lem X c h.consistent) in
      record { consistent = d; inhabited = rw n h.inhabited }

  -- `c` is what a deletion of `id` left, of the collection of `key`.
  module _ (out : OutputType) (key id : Str) (erron404 : Bool) (c : Collection X)
      (s : Server Y) where
    del_from-IsValid :
        (old : Option (Object G F))
        → IsConsistent X c
        → (old ≡ none → IsKept Y c)
        → IsValid Y s
        → IsValid Y (del_from Y out key id erron404 c old s).0
    unfolding del_from
    del_from-IsValid none h e v =
        let v' = put_col-IsValid Y s key c (e refl) v in
        elim (Bool-cases erron404) [ inl t ↦ rw t v' | inr f ↦ rw f (record { kept = v'.kept }) ]
    del_from-IsValid (some o) h e v = elim (Bool-cases (is_zero (Collection.count X c))) [
      | inl t ↦ rw t (record { kept = (drop_col-IsValid Y s key v).kept })
      | inr f ↦
          let v' = put_col-IsValid Y s key c (record { consistent = h; inhabited = f }) v in
          rw f (record { kept = v'.kept })
    ]

    find-del_from :
        (old : Option (Object G F))
        → IsConsistent X c
        → ((j : Str) → Collection.get X c j ≡ (if str_eq id j then none else find Y s key j))
        → (k i : Str)
        → find Y (del_from Y out key id erron404 c old s).0 k i
          ≡ (if str_eq key k && str_eq id i then none else find Y s k i)
    unfolding del_from find
    find-del_from none h e k i = ground (arith, find-put_col Y s key k i c, e i, str_eq_iff key k)
    find-del_from (some o) h e k i = ground (
      arith,
      find-put_col Y s key k i c,
      find-drop_col Y s key k i,
      get_count_zero Y c i h,
      e i,
      str_eq_iff key k,
    )

  module _ (out : OutputType) (key id : Str) (erron404 : Bool) (s : Server Y) where
    del_op-IsValid :
        (col : Option (Collection X))
        → col_of Y s key ≡ col
        → IsValid Y s
        → IsValid Y (del_op Y out key id erron404 col s).0
    unfolding del_op del_done
    del_op-IsValid none e v = elim (Bool-cases erron404) [
      | inl t ↦ rw t v
      | inr f ↦ rw f (record { kept = v.kept })
    ]
    del_op-IsValid (some c) e v =
        let h = v.kept key c e in
        del_from-IsValid out key id erron404 (Collection.delete X c id).0 s
          (Collection.delete X c id).1 (delete-IsConsistent X c id h.consistent)
          (delete_none-IsKept c id h) v

    find-del_op :
        (col : Option (Collection X))
        → col_of Y s key ≡ col
        → IsValid Y s
        → (k i : Str)
        → find Y (del_op Y out key id erron404 col s).0 k i
          ≡ (if str_eq key k && str_eq id i then none else find Y s k i)
    unfolding del_op del_done find
    find-del_op none e v k i = ground (arith, str_eq_iff key k)
    find-del_op (some c) e v k i =
        let h = v.kept key c e in
        find-del_from out key id erron404 (Collection.delete X c id).0 s
          (Collection.delete X c id).1 (delete-IsConsistent X c id h.consistent)
          (λ j. (get-delete X c id).0 j ∙ ground (arith, find_col Y s key j c e)) k i

  del_reply :
      (out : OutputType) (key id : Str) (s : Server Y) (col : Option (Collection X))
      → (del_op Y out key id false col s).1
        ≡ ok (
          count_reply out (is_some (found_in Y col id)),
          record no_details {
            command = del;
            key = key;
            obj = found_in Y col id;
            updated = is_some (found_in Y col id);
          },
        )
  unfolding del_op del_done
  del_reply out key id s none = refl
  del_reply out key id s (some c) =
      let e = (get-delete X c id).1 in
      elim (Option-cases (Collection.delete X c id).1) [
        | inl n ↦ rw (← e, n) (unfold del_from del_done in refl)
        | inr (o, n) ↦ rw (← e, n) (unfold del_from del_done in refl)
      ]

  del_parsed-IsValid :
      (out : OutputType) (key id : Str) (b : Result Bool) (s : Server Y)
      → IsValid Y s
      → IsValid Y (del_parsed Y out key id b s).0
  unfolding del_parsed
  del_parsed-IsValid out key id (ok b) s v = del_op-IsValid out key id b s (col_of Y s key) refl v
  del_parsed-IsValid out key id (err e) s v = v

  -- DEL keeps the server valid, whatever its arguments: its collections stay consistent, and no
  -- collection is left empty.
  pub cmd_del-IsValid :
      (out : OutputType) (args : List Str) (s : Server Y)
      → IsValid Y s
      → IsValid Y (cmd_del Y out args s).0
  unfolding cmd_del
  cmd_del-IsValid out [] s v = v
  cmd_del-IsValid out (a ∷ []) s v = v
  cmd_del-IsValid out (a ∷ b ∷ []) s v = v
  cmd_del-IsValid out (name ∷ key ∷ id ∷ rest) s v =
      del_parsed-IsValid out key id (del_flags rest false) s v

  -- After a DEL of a key and an id, with any options that parse, in a valid server, that object is
  -- gone and every other object of every key is found as before.
  pub find-cmd_del :
      (out : OutputType) (name key id : Str) (rest : List Str) (s : Server Y) (erron404 : Bool)
      → IsValid Y s
      → del_flags rest false ≡ ok erron404
      → (k i : Str)
      → find Y (cmd_del Y out (name ∷ key ∷ id ∷ rest) s).0 k i
        ≡ (if str_eq key k && str_eq id i then none else find Y s k i)
  unfolding cmd_del
  find-cmd_del out name key id rest s b v e k i =
      rw (cmd_del, e, del_parsed) (find-del_op out key id b s (col_of Y s key) refl v k i)

  -- A DEL without ERRON404 never fails. It reports the object that was there, if any, as the one that
  -- it deleted, and its reply and its `updated` say whether there was one.
  pub cmd_del_reply :
      (out : OutputType) (name key id : Str) (s : Server Y)
      → (cmd_del Y out (name ∷ key ∷ id ∷ []) s).1
        ≡ ok (
          count_reply out (is_some (find Y s key id)),
          record no_details {
            command = del;
            key = key;
            obj = find Y s key id;
            updated = is_some (find Y s key id);
          },
        )
  unfolding cmd_del find del_flags del_parsed
  cmd_del_reply out name key id s = del_reply out key id s (col_of Y s key)

  -- Whatever the options, an object is found afterwards as before or not at all.
  pub find-del_parsed :
      (out : OutputType) (key id : Str) (b : Result Bool) (s : Server Y)
      → IsValid Y s
      → (k i : Str)
      → (find Y (del_parsed Y out key id b s).0 k i ≡ find Y s k i)
        ⊎ (find Y (del_parsed Y out key id b s).0 k i ≡ none)
  unfolding del_parsed
  find-del_parsed out key id (err e) s v k i = inl refl
  find-del_parsed out key id (ok b) s v k i =
      let e = find-del_op out key id b s (col_of Y s key) refl v k i in
      elim (Bool-cases (str_eq key k && str_eq id i)) [
        | inl t ↦ inr (e ∙ rw t refl)
        | inr f ↦ inl (e ∙ rw f refl)
      ]
