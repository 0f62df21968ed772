-- ===== src/Server/Purges.antt =====
-- PDEL of internal/legacy/server/crud.go and KEYS of internal/legacy/server/keys.go: what they find
-- and what they leave in the server.
use mathlib.Core.List.{append_assoc, append-nil}
use spatialdb_engine.Base.{
  ℕ, ◌≡◌, refl, sym, ap, ◌∙◌, Bool, true, false, not, ◌&&◌, ◌||◌, Option, none, some, List, [], ◌∷◌,
  ◌++◌, map, arith, if◌then◌else◌, keep_if, Bool-cases, inl, inr, is_some,
}
use spatialdb_engine.Base.Text.{
  Str, str_eq, str_lt, str_eq_iff, str_lt_asymm, str_lt_irrefl, str_lt_connex,
}
use spatialdb_engine.Geometry.{Geometry, FieldLists}
use spatialdb_engine.Object.{Object, object_id}
use spatialdb_engine.Varint.{is_zero}
use spatialdb_engine.Index.Sorted.{KeysSorted, lookup_key, lookup_key-below}
use spatialdb_engine.Collection
use spatialdb_engine.Collection.{Trees, Collection}
use spatialdb_engine.Collection.Walk.{Deadline, feed}
use spatialdb_engine.Collection.Scan.{objects_of}
use spatialdb_engine.Collection.Visited.{Owned, Owned-of_lookup, feed-scan, feed-scan_range}
use spatialdb_engine.Collection.Describes.{IsConsistent}
use spatialdb_engine.Collection.Invariant.{delete-IsConsistent, get-delete}
use spatialdb_engine.Glob.{Matcher, is_match, parse, is_everything}
use spatialdb_engine.Glob.Limits.{StartsLiteral, is_bounded, limits-parse}
use spatialdb_engine.Server.{Details, Stores, Server, OutputType, col_of, find}
use spatialdb_engine.Server.Group.{Groups}
use spatialdb_engine.Server.Keys.{
  IsValid, put_col-IsValid, drop_col-IsValid, get_count_zero, find-put_col, find-drop_col, find_col,
  find_no_col,
}
use spatialdb_engine.Server.Patterns.{id_step, pdel_ids, pdel_each, pdel_done, pdel_op, cmd_pdel}

unfoldable pub has_str : Str → List Str → Bool
has_str i [] = false
has_str i (j ∷ js) = str_eq i j || has_str i js

keep_all : {A : Type 0} (l : List A) → keep_if (λ x. true) l ≡ l
keep_all [] = refl
keep_all (x ∷ l) = ap (◌∷◌ x) (keep_all l)

module _ (M : Matcher) (pattern : Str) where
  feed-id_step :
      {G : Geometry} {F : FieldLists} (l : List (Object G F)) (ids : List Str)
      → (feed (id_step M pattern) l ids).1
        ≡ ids ++ map object_id (keep_if (λ o. is_match M pattern (object_id o)) l)
  unfolding feed id_step
  feed-id_step [] ids = sym (append-nil ids)
  feed-id_step (o ∷ l) ids = ground (
    arith,
    feed-id_step l ids,
    feed-id_step l (ids ++ object_id o ∷ []),
    append_assoc ids (object_id o ∷ [])
        (map object_id (keep_if (λ o. is_match M pattern (object_id o)) l)),
  )

  -- The ids that match among the objects in a range that holds all matches.
  has_str-found :
      {G : Geometry} {F : FieldLists} (inside : Str → Bool)
      → ((i : Str) → is_match M pattern i ≡ true → inside i ≡ true)
      → (i : Str) (l : List (Str × Object G F)) → Owned l
      → KeysSorted l
      → has_str i (
          map object_id (
            keep_if
              (λ o. is_match M pattern (object_id o))
              (map
                (λ (e : Str × Object G F). e.1)
                (keep_if (λ (e : Str × Object G F). inside e.0) l))))
        ≡ (is_some (lookup_key i l) && is_match M pattern i)
  unfolding has_str lookup_key
  has_str-found inside all i [] own sorted = refl
  has_str-found inside all i ((k, o) ∷ l) own sorted = ground (
    arith,
    own.0,
    has_str-found inside all i l own.1 sorted.1,
    all k,
    str_eq_iff i k,
    lookup_key-below i k l,
    sorted.0,
    str_lt_connex i k,
    str_lt_irrefl i,
    str_lt_asymm i k,
  )

module _ {G : Geometry} {F : FieldLists} {X : Trees G F} (Y : Stores X) where
  -- The ids that PDEL finds in a consistent collection: those of its objects that match.
  has_str-pdel_ids :
      (M : Matcher) (pattern : Str) (deadline : Option Deadline) (now : ℕ → ℕ) (c : Collection X)
      → StartsLiteral M
      → is_bounded pattern ≡ true
      → IsConsistent X c
      → (i : Str)
      → has_str i (pdel_ids Y M pattern deadline now c)
        ≡ (is_some (Collection.get X c i) && is_match M pattern i)
  unfolding pdel_ids Collection.get
  has_str-pdel_ids M pattern deadline now c law b h i =
      let items = X.objs.items c.objs in
      let sorted = X.objs.items_sorted c.objs in
      let own = Owned-of_lookup items sorted h.ids in
      let g = parse M pattern false in
      elim (Bool-cases (is_everything g)) [
        | inl t ↦
            let met =
              ap (λ (r : Bool × List Str). r.1)
                (feed-scan X c none deadline now (id_step M pattern) [] false) in
            let ids = met ∙ feed-id_step M pattern (objects_of X c items) [] in
            let found = has_str-found M pattern (λ k. true) (λ k m. refl) i items own sorted in
            rw (t, ids, ← keep_all items, X.objs.get_lem c.objs i) found
        | inr f ↦
            let inside = λ (k : Str). not (str_lt k g.limits.0) && str_lt k g.limits.1 in
            let met =
              ap (λ (r : Bool × List Str). r.1)
                (feed-scan_range X c none deadline now (id_step M pattern) [] g.limits.0 g.limits.1
                  h) in
            let ids =
              met ∙ feed-id_step M pattern (objects_of X c (keep_if (λ e. inside e.0) items)) [] in
            let all =
              λ (k : Str) (m : is_match M pattern k ≡ true). limits-parse M pattern k law b f m in
            rw (f, ids, X.objs.get_lem c.objs i)
              (has_str-found M pattern inside all i items own sorted)
      ]

  -- The loop over the ids deletes them, and only them.
  get-pdel_each :
      (key : Str) (ids : List Str) (c : Collection X) (groups : Groups Y.groups)
      (children : List (Details (Object G F))) (i : Str)
      → Collection.get X (pdel_each Y key ids c groups children).0 i
        ≡ (if has_str i ids then none else Collection.get X c i)
  unfolding pdel_each has_str
  get-pdel_each key [] c groups children i = refl
  get-pdel_each key (id ∷ ids) c groups children i =
      let ih = get-pdel_each key ids (Collection.delete X c id).0 _ _ i in
      ih ∙ ground (arith, (get-delete X c id).0 i, str_eq_iff id i, str_eq_iff i id)

  pdel_each-IsConsistent :
      (key : Str) (ids : List Str) (c : Collection X) (groups : Groups Y.groups)
      (children : List (Details (Object G F)))
      → IsConsistent X c
      → IsConsistent X (pdel_each Y key ids c groups children).0
  unfolding pdel_each
  pdel_each-IsConsistent key [] c groups children h = h
  pdel_each-IsConsistent key (id ∷ ids) c groups children h =
      pdel_each-IsConsistent key ids (Collection.delete X c id).0 _ _ (delete-IsConsistent X c id h)

  pdel_done-IsValid :
      (key : Str) (c : Collection X) (groups : Groups Y.groups) (s : Server Y)
      → IsConsistent X c
      → IsValid Y s
      → IsValid Y (pdel_done Y key c groups s)
  unfolding pdel_done
  pdel_done-IsValid key c groups s h v =
      let v' : IsValid Y (record s { groups = groups }) = record { kept = v.kept } in
      elim (Bool-cases (is_zero (Collection.count X c))) [
        | inl t ↦ rw t (drop_col-IsValid Y _ key v')
        | inr f ↦ rw f (put_col-IsValid Y _ key c (record { consistent = h; inhabited = f }) v')
      ]

  find-pdel_done :
      (key : Str) (c : Collection X) (groups : Groups Y.groups) (s : Server Y)
      → IsConsistent X c
      → (k i : Str)
      → find Y (pdel_done Y key c groups s) k i
        ≡ (if str_eq key k then Collection.get X c i else find Y s k i)
  unfolding pdel_done find
  find-pdel_done key c groups s h k i =
      let s' : Server Y = record s { groups = groups } in
      ground (
        arith,
        find-put_col Y s' key k i c,
        find-drop_col Y s' key k i,
        get_count_zero Y c i h,
        str_eq_iff key k,
      )

  -- The server that a PDEL leaves is `pdel_op` of the ids that it finds.
  module _ (key : Str) (ids : Collection X → List Str) (s : Server Y) where
    pdel_op-IsValid :
        (col : Option (Collection X))
        → col_of Y s key ≡ col
        → IsValid Y s
        → IsValid Y (pdel_op Y key ids col s).0
    unfolding pdel_op
    pdel_op-IsValid none e v = v
    pdel_op-IsValid (some c) e v =
        pdel_done-IsValid key _ _ s
          (pdel_each-IsConsistent key (ids c) c s.groups [] (v.kept key c e).consistent) v

    find-pdel_op :
        (matched : Str → Bool)
        → ((c : Collection X) (i : Str)
            → IsConsistent X c
            → has_str i (ids c) ≡ (is_some (Collection.get X c i) && matched i))
        → (col : Option (Collection X)) → col_of Y s key ≡ col
        → IsValid Y s
        → (k i : Str)
        → find Y (pdel_op Y key ids col s).0 k i
          ≡ (if str_eq key k && matched i then none else find Y s k i)
    unfolding pdel_op
    find-pdel_op matched which none e v k i =
        ground (arith, str_eq_iff key k, find_no_col Y s key i e)
    find-pdel_op matched which (some c) e v k i =
        let h = (v.kept key c e).consistent in
        let h' = pdel_each-IsConsistent key (ids c) c s.groups [] h in
        let found =
          find-pdel_done key (pdel_each Y key (ids c) c s.groups []).0
            (pdel_each Y key (ids c) c s.groups []).1.0 s h' k i in
        found
        ∙ ground (
          arith,
          get-pdel_each key (ids c) c s.groups [] i,
          which c i h,
          find_col Y s key i c e,
          str_eq_iff key k,
        )

  -- PDEL keeps the server valid, whatever its arguments, the deadline and the clock.
  pub cmd_pdel-IsValid :
      (M : Matcher) (out : OutputType) (deadline : Option Deadline) (now : ℕ → ℕ) (args : List Str)
      (s : Server Y)
      → IsValid Y s
      → IsValid Y (cmd_pdel Y M out deadline now args s).0
  unfolding cmd_pdel
  cmd_pdel-IsValid M out deadline now [] s v = v
  cmd_pdel-IsValid M out deadline now (a ∷ []) s v = v
  cmd_pdel-IsValid M out deadline now (a ∷ b ∷ []) s v = v
  cmd_pdel-IsValid M out deadline now (name ∷ key ∷ pattern ∷ []) s v =
      pdel_op-IsValid key (pdel_ids Y M pattern deadline now) s (col_of Y s key) refl v
  cmd_pdel-IsValid M out deadline now (a ∷ b ∷ c ∷ d ∷ rest) s v = v

  -- If a match starts with the literal bytes of its pattern, then after a PDEL on a valid server, of
  -- a pattern whose limits serve, the objects of the key whose ids match are gone, and every other
  -- object of every key is found as before.
  pub find-cmd_pdel :
      (M : Matcher) (out : OutputType) (deadline : Option Deadline) (now : ℕ → ℕ)
      (name key pattern : Str) (s : Server Y)
      → StartsLiteral M
      → is_bounded pattern ≡ true
      → IsValid Y s
      → (k i : Str)
      → find Y (cmd_pdel Y M out deadline now (name ∷ key ∷ pattern ∷ []) s).0 k i
        ≡ (if str_eq key k && is_match M pattern i then none else find Y s k i)
  unfolding cmd_pdel
  find-cmd_pdel M out deadline now name key pattern s law b v k i =
      find-pdel_op key (pdel_ids Y M pattern deadline now) s (is_match M pattern)
        (λ c j h. has_str-pdel_ids M pattern deadline now c law b h j) (col_of Y s key) refl v k i
