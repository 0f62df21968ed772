-- ===== src/Collection/Invariant.antt =====
-- `Set` and `Delete` of a collection: the map that it is, and the agreement of its indexes.
use spatialdb_engine.Base.{
  ◌+◌, ◌≡◌, refl, sym, ◌∙◌, Option, none, some, List, [], ◌∷◌, arith, if◌then◌else◌, ap, length,
}
use spatialdb_engine.Base.Text.{Str, str_eq, str_eq_iff, str_eq_refl}
use spatialdb_engine.Base.Int.{pos, int_laws}
use spatialdb_engine.Geometry.{Geometry, FieldLists}
use spatialdb_engine.Index.Sorted.{
  find_by, lookup_key, insert_key, remove_key, KeysSorted, lookup-insert_key, lookup-remove_key,
  insert-remove_key, remove_key_absent,
}
use spatialdb_engine.Object.{Object, object_id, is_spatial}
use spatialdb_engine.Collection.{
  Trees, Collection, new, unfill, set_fill, set, delete, delete_found, get, count,
}
use spatialdb_engine.Collection.Describes.{
  Describes, IsConsistent, total, one_if, has_value, sum-indexed,
}
use spatialdb_engine.Collection.Upkeep.{
  Describes-unfill, Describes-fill, Describes-objs, delete_prev-unfill, objs-fill, objs-unfill,
}

module _ {G : Geometry} {F : FieldLists} (X : Trees G F) where
  objs-set_fill :
      (c : Collection X) (p : Option (Object G F)) (o : Object G F)
      → (set_fill X c p o).objs ≡ c.objs
  unfolding set_fill
  objs-set_fill c none o = objs-fill X c o
  objs-set_fill c (some p) o = objs-fill X (unfill X c p) o ∙ objs-unfill X c p

  -- The entries after `Set` and after `Delete`.
  pub items-set :
      (c : Collection X) (o : Object G F)
      → X.objs.items (set X c o).0.objs ≡ insert_key (object_id o) o (X.objs.items c.objs)
  unfolding set
  items-set c o =
      ap X.objs.items
        (objs-set_fill (record c { objs = (X.objs.set c.objs (object_id o) o).0 }) _ o)
      ∙ X.objs.items-set c.objs (object_id o) o

  Describes-set_fill :
      (c : Collection X) (l : List (Str × Object G F)) (p : Option (Object G F)) (o : Object G F)
      → KeysSorted l
      → ((k : Str) (q : Object G F) → lookup_key k l ≡ some q → object_id q ≡ k)
      → lookup_key (object_id o) l ≡ p
      → Describes X c l
      → Describes X (set_fill X c p o) (insert_key (object_id o) o l)
  unfolding set_fill
  Describes-set_fill c l none o sorted ids e d = Describes-fill X c l (object_id o) o refl d e
  Describes-set_fill c l (some p) o sorted ids e d =
      let id = object_id o in
      let free : lookup_key id (remove_key id l) ≡ none =
        ground (arith, lookup-remove_key id id l sorted, str_eq_refl id) in
      rw (← insert-remove_key id o l sorted) (
        Describes-fill X (unfill X c p) (remove_key id l) id o refl
          (Describes-unfill X c l id p (ids id p e) d sorted e) free)

  -- Setting an object keeps every index and every counter in agreement with the objects.
  pub set-IsConsistent :
      (c : Collection X) (o : Object G F) → IsConsistent X c → IsConsistent X (set X c o).0
  set-IsConsistent c o h = record {
    ids = λ k q. rw (items-set c o) (
        ground (
          arith,
          lookup-insert_key (object_id o) k o (X.objs.items c.objs),
          h.ids k q,
          str_eq_iff (object_id o) k,
        ));
    describes = rw (items-set c o) (
        unfold set in
        Describes-set_fill (record c { objs = (X.objs.set c.objs (object_id o) o).0 })
          (X.objs.items c.objs) (X.objs.set c.objs (object_id o) o).1 o (X.objs.items_sorted c.objs)
          h.ids (sym (X.objs.set_prev c.objs (object_id o) o))
          (Describes-objs X c _ _ h.describes));
  }

  -- `Set` is a write to the map by id: every id is found as before but the new object's own, and
  -- the object that was there before is returned.
  pub get-set :
      (c : Collection X) (o : Object G F)
      → ((k : Str) → get X (set X c o).0 k ≡ (if str_eq (object_id o) k then some o else get X c k))
        × ((set X c o).1 ≡ get X c (object_id o))
  unfolding get
  get-set c o = (
    λ k. ground (
      arith,
      X.objs.get_lem (set X c o).0.objs k,
      X.objs.get_lem c.objs k,
      items-set c o,
      lookup-insert_key (object_id o) k o (X.objs.items c.objs),
    ),
    unfold set in
        (X.objs.set_prev c.objs (object_id o) o ∙ sym (X.objs.get_lem c.objs (object_id o))),
  )

  objs-delete_found :
      (c : Collection X) (p : Option (Object G F)) → (delete_found X c p).objs ≡ c.objs
  unfolding delete_found
  objs-delete_found c none = refl
  objs-delete_found c (some p) = rw delete_prev-unfill (objs-unfill X c p)

  pub items-delete :
      (c : Collection X) (id : Str)
      → X.objs.items (delete X c id).0.objs ≡ remove_key id (X.objs.items c.objs)
  unfolding delete
  items-delete c id =
      ap X.objs.items (objs-delete_found (record c { objs = (X.objs.delete c.objs id).0 }) _)
      ∙ X.objs.items-delete c.objs id

  Describes-delete_found :
      (c : Collection X) (l : List (Str × Object G F)) (p : Option (Object G F)) (id : Str)
      → KeysSorted l
      → ((k : Str) (q : Object G F) → lookup_key k l ≡ some q → object_id q ≡ k)
      → lookup_key id l ≡ p
      → Describes X c l
      → Describes X (delete_found X c p) (remove_key id l)
  unfolding delete_found
  Describes-delete_found c l none id sorted ids e d = rw (remove_key_absent id l e) d
  Describes-delete_found c l (some p) id sorted ids e d =
      rw delete_prev-unfill (Describes-unfill X c l id p (ids id p e) d sorted e)

  -- Deleting an id keeps every index and every counter in agreement with the objects.
  pub delete-IsConsistent :
      (c : Collection X) (id : Str) → IsConsistent X c → IsConsistent X (delete X c id).0
  delete-IsConsistent c id h = record {
    ids = λ k q. rw (items-delete c id) (
        ground (
          arith,
          lookup-remove_key id k (X.objs.items c.objs) (X.objs.items_sorted c.objs),
          h.ids k q,
        ));
    describes = rw (items-delete c id) (
        unfold delete in
        Describes-delete_found (record c { objs = (X.objs.delete c.objs id).0 })
          (X.objs.items c.objs) (X.objs.delete c.objs id).1 id (X.objs.items_sorted c.objs) h.ids
          (sym (X.objs.delete_prev c.objs id)) (Describes-objs X c _ _ h.describes));
  }

  -- `Delete` removes its id from the map, keeps every other id, and returns the object that was
  -- there.
  pub get-delete :
      (c : Collection X) (id : Str)
      → ((k : Str) → get X (delete X c id).0 k ≡ (if str_eq id k then none else get X c k))
        × ((delete X c id).1 ≡ get X c id)
  unfolding get
  get-delete c id = (
    λ k. ground (
      arith,
      X.objs.get_lem (delete X c id).0.objs k,
      X.objs.get_lem c.objs k,
      items-delete c id,
      lookup-remove_key id k (X.objs.items c.objs) (X.objs.items_sorted c.objs),
    ),
    unfold delete in (X.objs.delete_prev c.objs id ∙ sym (X.objs.get_lem c.objs id)),
  )

  -- A new collection is empty and consistent.
  pub new-IsConsistent : IsConsistent X (new X)
  unfolding new lookup_key find_by
  new-IsConsistent = record {
    ids = λ k o. rw X.objs.items-empty (λ e. cc);
    describes = rw X.objs.items-empty (record {
      value_index = λ y. rw X.values.items-empty;
      expires_index = λ y. rw X.expires.items-empty;
      spatial_index = λ f. rw X.spatial.entries-empty (sym (sum-indexed X f []));
      objects_count = refl;
      nobjects_count = refl;
      points_sum = refl;
      weight_sum = refl;
    });
  }

  total_kinds :
      (l : List (Str × Object G F))
      → total X (λ o. one_if X (is_spatial o)) l + total X (λ o. one_if X (has_value X o)) l
        ≡ length l
  total_kinds [] = refl
  total_kinds ((k, o) ∷ l) = ground (arith, total_kinds l)

  -- In a consistent collection `Count` is the number of the objects.
  pub count_lem :
      (c : Collection X) → IsConsistent X c → count X c ≡ pos (length (X.objs.items c.objs))
  unfolding count
  count_lem c h =
      rw (h.describes.objects_count, h.describes.nobjects_count)
        (omega (int_laws, total_kinds (X.objs.items c.objs)))

  pub get_lookup : (c : Collection X) (id : Str) → get X c id ≡ lookup_key id (X.objs.items c.objs)
  unfolding get
  get_lookup c id = X.objs.get_lem c.objs id

  pub get-new : (id : Str) → get X (new X) id ≡ none
  unfolding get new lookup_key
  get-new id = X.objs.get_lem X.objs.empty id ∙ ap (lookup_key id) X.objs.items-empty
