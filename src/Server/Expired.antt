-- ===== src/Server/Expired.antt =====
-- The background expiration of internal/legacy/server/expire.go: exactly the expired objects go.
use mathlib.Core.List.{append_assoc, append-nil}
use spatialdb_engine.Base.{
  ◌≡◌, refl, sym, ap, ◌∙◌, Bool, true, false, Option, none, some, List, [], ◌∷◌, ◌++◌, arith,
  if◌then◌else◌, Option-cases, Bool-cases, inl, inr,
}
use spatialdb_engine.Base.Text.{Str, codes, str_eq_iff, str_lt_irrefl, str_lt_connex, str_lt_asymm}
use spatialdb_engine.Base.Int.{ℤ}
use spatialdb_engine.Geometry.{Geometry, FieldLists}
use spatialdb_engine.Object.{Object, object_id}
use spatialdb_engine.Index.Sorted.{IsSorted, find_by, KeysSorted, lookup_key, lookup_key-below}
use spatialdb_engine.Collection
use spatialdb_engine.Collection.{Trees, Collection}
use spatialdb_engine.Collection.Order.{by_expires, by_expires-IsOrder}
use spatialdb_engine.Collection.Walk.{each}
use spatialdb_engine.Collection.Scan.{scan_expires}
use spatialdb_engine.Collection.Describes.{IsConsistent, has_expires}
use spatialdb_engine.Server.{other, Stores, Server, col_of, find}
use spatialdb_engine.Server.Delete.{del_flags, cmd_del}
use spatialdb_engine.Server.Deletes.{cmd_del-IsValid, find-cmd_del}
use spatialdb_engine.Server.Expiry.{expired_step, expired_msgs, run_dels, background_expire_objects}
use spatialdb_engine.Server.Keys.{IsValid, find_col, find_no_col}
use spatialdb_engine.Server.Purges.{has_str}
use spatialdb_engine.Server.Due.{
  del_msgs, with_key, has_pair, has_pair-append, has_pair-with_key, del_msgs-append, id_found,
  found_id, held-some, due_ids, none_due, is_due, is_expired, keep_live,
}

module _ {G : Geometry} {F : FieldLists} {X : Trees G F} (Y : Stores X) (nano : ℤ) where
  each-expired_step :
      (key : Str) (l : List (Object G F)) (msgs : List (List Str))
      → IsSorted by_expires l
      → each (expired_step Y nano key) l msgs ≡ msgs ++ del_msgs (with_key key (due_ids nano l))
  unfolding each expired_step
  each-expired_step key [] msgs s = sym (append-nil msgs)
  each-expired_step key (o ∷ l) msgs s =
      let msg = codes "del" ∷ key ∷ object_id o ∷ [] in
      ground (
        arith,
        each-expired_step key l (msgs ++ msg ∷ []) s.1,
        append_assoc msgs (msg ∷ []) (del_msgs (with_key key (due_ids nano l))),
        append-nil msgs,
        none_due nano o l,
        s.0,
      )

  -- The ids that a sweep finds in a collection.
  abbrev col_ids : Collection X → List Str
  col_ids c = due_ids nano (X.expires.items c.expires)

  expired_pairs : List (Str × Collection X) → List (Str × Str)
  expired_pairs [] = []
  expired_pairs ((key, c) ∷ cols) = with_key key (col_ids c) ++ expired_pairs cols

  expired_msgs_lem :
      (cols : List (Str × Collection X)) (msgs : List (List Str))
      → expired_msgs Y nano cols msgs ≡ msgs ++ del_msgs (expired_pairs cols)
  unfolding expired_msgs expired_pairs scan_expires
  expired_msgs_lem [] msgs = sym (append-nil msgs)
  expired_msgs_lem ((key, c) ∷ cols) msgs =
      let pairs = with_key key (col_ids c) in
      let here =
        each-expired_step key (X.expires.items c.expires) msgs (X.expires.items_sorted c.expires) in
      ap (λ m. expired_msgs Y nano cols m) here
      ∙ expired_msgs_lem cols (msgs ++ del_msgs pairs)
      ∙ append_assoc msgs (del_msgs pairs) (del_msgs (expired_pairs cols))
      ∙ ap (λ m. msgs ++ m) (sym (del_msgs-append pairs (expired_pairs cols)))

  -- The pair of a key and an id is found where the collection of the key has the id.
  abbrev found_pair : Str → Option (Collection X) → Bool
  found_pair i none = false
  found_pair i (some c) = has_str i (col_ids c)

  has_pair-expired_pairs :
      (k i : Str) (cols : List (Str × Collection X))
      → KeysSorted cols
      → has_pair k i (expired_pairs cols) ≡ found_pair i (lookup_key k cols)
  unfolding expired_pairs lookup_key has_pair
  has_pair-expired_pairs k i [] s = refl
  has_pair-expired_pairs k i ((key, c) ∷ cols) s = ground (
    arith,
    has_pair-append k i (with_key key (col_ids c)) (expired_pairs cols),
    has_pair-with_key k i key (col_ids c),
    has_pair-expired_pairs k i cols s.1,
    lookup_key-below k key cols,
    s.0,
    str_eq_iff k key,
    str_lt_connex k key,
    str_lt_irrefl k,
    str_lt_asymm k key,
  )

  find-run_dels :
      (pairs : List (Str × Str)) (s : Server Y)
      → IsValid Y s
      → (k i : Str)
      → find Y (run_dels Y (del_msgs pairs) s) k i
        ≡ (if has_pair k i pairs then none else find Y s k i)
  unfolding run_dels has_pair del_flags
  find-run_dels [] s v k i = refl
  find-run_dels ((key, id) ∷ pairs) s v k i =
      let msg = codes "del" ∷ key ∷ id ∷ [] in
      let v' = cmd_del-IsValid Y other msg s v in
      find-run_dels pairs (cmd_del Y other msg s).0 v' k i
      ∙ ground (
        arith,
        find-cmd_del Y other (codes "del") key id [] s false v refl k i,
        str_eq_iff key k,
        str_eq_iff k key,
        str_eq_iff id i,
        str_eq_iff i id,
      )

  -- In a consistent collection a sweep finds exactly the ids of the expired objects.
  found-col_ids :
      (c : Collection X) (i : Str)
      → IsConsistent X c
      → has_str i (col_ids c) ≡ true
      → keep_live nano (Collection.get X c i) ≡ none
  unfolding Collection.get
  found-col_ids c i h t =
      let items = X.expires.items c.expires in
      let (o, e, due, found, every) =
        id_found by_expires by_expires-IsOrder (is_due nano) i items
          (X.expires.items_sorted c.expires) t in
      let (here, expires) =
        held-some X (has_expires X) _ o o (sym (h.describes.expires_index o) ∙ found) in
      let got : X.objs.get c.objs i ≡ some o =
        X.objs.get_lem c.objs i ∙ ap (λ j. lookup_key j (X.objs.items c.objs)) (sym e) ∙ here in
      rw got (ground arith)

  col_ids-found :
      (c : Collection X) (i : Str) (o : Object G F)
      → IsConsistent X c
      → Collection.get X c i ≡ some o
      → is_expired nano o ≡ true
      → has_str i (col_ids c) ≡ true
  unfolding Collection.get
  col_ids-found c i o h e t =
      let here = sym (X.objs.get_lem c.objs i) ∙ e in
      let own = h.ids i o here in
      let there : lookup_key (object_id o) (X.objs.items c.objs) ≡ some o = rw own here in
      let found : find_by by_expires o (X.expires.items c.expires) ≡ some o =
        ground (arith, h.describes.expires_index o, there, by_expires-IsOrder.less_irrefl o) in
      rw (← own) (
        found_id by_expires by_expires-IsOrder (is_due nano) o o (X.expires.items c.expires) found
          (ground arith))

  find_live :
      (k i : Str) (s : Server Y) (col : Option (Collection X))
      → col_of Y s k ≡ col
      → IsValid Y s
      → (if found_pair i col then none else find Y s k i) ≡ keep_live nano (find Y s k i)
  find_live k i s none e v = rw (find_no_col Y s k i e) refl
  find_live k i s (some c) e v =
      let h = (v.kept k c e).consistent in
      rw (find_col Y s k i c e) (elim (Bool-cases (has_str i (col_ids c))) [
        | inl t ↦ rw (t, found-col_ids c i h t) refl
        | inr f ↦ elim (Option-cases (Collection.get X c i)) [
          | inl n ↦ rw (f, n) refl
          | inr (o, n) ↦ rw (f, n) (ground (arith, col_ids-found c i o h n))
        ]
      ])

  -- The background expiration at a time, on a valid server, removes every object of every key that has
  -- expired by then, and leaves every other object as it was.
  pub find-background_expire_objects :
      (s : Server Y)
      → IsValid Y s
      → (k i : Str)
      → find Y (background_expire_objects Y nano s).0 k i ≡ keep_live nano (find Y s k i)
  unfolding background_expire_objects
  find-background_expire_objects s v k i =
      let cols = Y.cols.items s.cols in
      let swept = ap (λ m. find Y (run_dels Y m s) k i) (expired_msgs_lem cols []) in
      let which = has_pair-expired_pairs k i cols (Y.cols.items_sorted s.cols) in
      swept
      ∙ find-run_dels (expired_pairs cols) s v k i
      ∙ rw (which, ← Y.cols.get_lem s.cols k) (find_live k i s (col_of Y s k) refl v)
