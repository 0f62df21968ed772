-- ===== src/Server/Patterns.antt =====
-- The commands that take a pattern: KEYS of internal/legacy/server/keys.go and PDEL of
-- internal/legacy/server/crud.go.
use spatialdb_engine.Base.{
  ℕ, Bool, true, false, Option, none, some, List, [], ◌∷◌, ◌++◌, if◌then◌else◌, length,
}
use spatialdb_engine.Base.Text.{Str, str_lt}
use spatialdb_engine.Base.Int.{pos}
use spatialdb_engine.Geometry.{Geometry, FieldLists}
use spatialdb_engine.Object.{Object, object_id}
use spatialdb_engine.Varint.{is_zero}
use spatialdb_engine.Collection
use spatialdb_engine.Collection.{Trees, Collection}
use spatialdb_engine.Collection.Walk.{Deadline, Visit, each}
use spatialdb_engine.Collection.Scan.{scan, scan_range}
use spatialdb_engine.Glob.{Matcher, is_match, parse, is_everything}
use spatialdb_engine.Server.{
  OutputType, json, resp, other, invalid_number_of_arguments, Result, ok, err, Reply, nothing,
  json_ok, integer, Details, no_details, del, Stores, Server, col_of, put_col, drop_col,
}
use spatialdb_engine.Server.Group
use spatialdb_engine.Server.Group.{Groups}

-- The details of a PDEL: a `del` for each object.
pub record PdelDetails (O : Type 0) : Type 0 where
  pub key : Str
  pub pattern : Str
  pub children : List (Details O)
  pub updated : Bool

abbrev pub pdel_reply : {O V : Type 0} → OutputType → ℕ → Reply O V
pdel_reply json n = json_ok
pdel_reply resp n = integer (pos n)
pdel_reply other n = nothing

abbrev pub has_any : {A : Type 0} → List A → Bool
has_any [] = false
has_any (x ∷ xs) = true

module _ (M : Matcher) (pattern : Str) where
  -- The iterators of KEYS: over all keys, and up to the upper limit.
  unfoldable pub key_step : {V : Type 0} → Visit (Str × V) (List Str)
  key_step (key, v) keys = (true, if is_match M pattern key then keys ++ key ∷ [] else keys)

  unfoldable pub key_step_to : {V : Type 0} → Str → Visit (Str × V) (List Str)
  unfolding key_step
  key_step_to limit (key, v) keys =
      if str_lt limit key then (false, keys) else key_step (key, v) keys

  -- The iterator of PDEL.
  unfoldable pub id_step : {G : Geometry} {F : FieldLists} → Visit (Object G F) (List Str)
  id_step o ids = (true, if is_match M pattern (object_id o) then ids ++ object_id o ∷ [] else ids)

module _ {G : Geometry} {F : FieldLists} {X : Trees G F} (Y : Stores X) where
  unfoldable pub keys_of : Matcher → Str → Server Y → List Str
  unfolding key_step_to
  keys_of M pattern s =
      let g = parse M pattern false in
      if is_everything g
      then each (key_step M pattern) (Y.cols.items s.cols) []
      else each (key_step_to M pattern g.limits.1) (Y.cols.ascend s.cols g.limits.0) []

  -- The keys that KEYS answers.
  unfoldable pub cmd_keys : Matcher → List Str → Server Y → Result (List Str)
  unfolding keys_of
  cmd_keys M (name ∷ pattern ∷ []) s = ok (keys_of M pattern s)
  cmd_keys M args s = err invalid_number_of_arguments

  -- The ids that a PDEL finds. `now` is the clock at each step of the search.
  unfoldable pub pdel_ids : Matcher → Str → Option Deadline → (ℕ → ℕ) → Collection X → List Str
  unfolding id_step
  pdel_ids M pattern deadline now c =
      let g = parse M pattern false in
      if is_everything g
      then (scan X c false none deadline now (id_step M pattern) []).user
      else (scan_range X c false none deadline now (id_step M pattern) [] g.limits.0
          g.limits.1).user

  -- The loop over the ids.
  unfoldable pub pdel_each :
      Str
      → List Str
      → Collection X
      → Groups Y.groups
      → List (Details (Object G F))
      → Collection X × (Groups Y.groups × List (Details (Object G F)))
  pdel_each key [] c groups children = (c, (groups, children))
  pdel_each key (id ∷ ids) c groups children =
      let (c', old) = Collection.delete X c id in
      let child = record no_details { command = del; key = key; obj = old; updated = true } in
      pdel_each key ids c' (Group.disconnect_object Y.groups groups key id) (children ++ child ∷ [])

  -- The server behind the loop, which drops an emptied collection.
  unfoldable pub pdel_done : Str → Collection X → Groups Y.groups → Server Y → Server Y
  pdel_done key c groups s =
      let s' = record s { groups = groups } in
      if is_zero (Collection.count X c) then drop_col Y s' key else put_col Y s' key c

  unfoldable pub pdel_op :
      Str
      → (Collection X → List Str)
      → Option (Collection X)
      → Server Y
      → Server Y × List (Details (Object G F))
  unfolding pdel_each pdel_done
  pdel_op key ids none s = (s, [])
  pdel_op key ids (some c) s =
      let (c', (groups, children)) = pdel_each key (ids c) c s.groups [] in
      (pdel_done key c' groups s, children)

  unfoldable pub cmd_pdel :
      Matcher
      → OutputType
      → Option Deadline
      → (ℕ → ℕ)
      → List Str
      → Server Y
      → Server Y × Result (Reply (Object G F) F.Value × PdelDetails (Object G F))
  unfolding pdel_ids pdel_op
  cmd_pdel M out deadline now (name ∷ key ∷ pattern ∷ []) s =
      let (s', children) = pdel_op key (pdel_ids M pattern deadline now) (col_of Y s key) s in
      (
        s',
        ok (
          pdel_reply out (length children),
          record { key = key; pattern = pattern; children = children; updated = has_any children },
        ),
      )
  cmd_pdel M out deadline now args s = (s, err invalid_number_of_arguments)
