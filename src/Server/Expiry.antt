-- ===== src/Server/Expiry.antt =====
-- EXPIRE, PERSIST and TTL of internal/legacy/server/crud.go, and `backgroundExpireObjects` of
-- internal/legacy/server/expire.go.
use mathlib.Core.Option
use spatialdb_engine.Base.{
  Bool, true, false, not, Option, none, some, List, [], ◌∷◌, ◌++◌, if◌then◌else◌,
}
use spatialdb_engine.Base.Text.{Str, codes}
use spatialdb_engine.Base.Int.{ℤ, pos, negsuc, ltb_ℤ}
use spatialdb_engine.Geometry.{Geometry, FieldLists}
use spatialdb_engine.Object.{Object, object_id, object_geo, object_expires, new_object}
use spatialdb_engine.Varint.{is_zero}
use spatialdb_engine.Collection
use spatialdb_engine.Collection.{Trees, Collection}
use spatialdb_engine.Collection.Scan.{scan_expires}
use spatialdb_engine.Server.{
  OutputType, json, resp, other, is_json, is_resp, Error, invalid_number_of_arguments,
  invalid_argument, key_not_found, id_not_found, ok, err, nothing, integer, no_details, expire,
  persist, Stores, Server, Outcome, Answer, col_of, put_col, add_int64, sub_int64,
}
use spatialdb_engine.Server.Args.{Parsers}
use spatialdb_engine.Server.Delete.{count_reply, cmd_del}

module _ {G : Geometry} {F : FieldLists} {X : Trees G F} (Y : Stores X) where
  -- The object with another expiration.
  unfoldable pub with_expires : Str → ℤ → Object G F → Object G F
  with_expires id ex o = new_object id (object_geo o) ex o.fields

  -- What EXPIRE answers where there is no object: an error in JSON, a 0 in RESP.
  abbrev pub expire_missing : OutputType → Error → Answer Y
  expire_missing json e = err e
  expire_missing resp e = ok (integer (pos 0))
  expire_missing other e = ok nothing

  unfoldable pub expire_in :
      OutputType → Str → Str → ℤ → Collection X → Option (Object G F) → Server Y → Outcome Y
  unfolding with_expires
  expire_in out key id ex c none s =
      (s, elim (expire_missing out id_not_found) [ ok r ↦ ok (r, no_details) | err e ↦ err e ])
  expire_in out key id ex c (some o) s =
      let obj = with_expires id ex o in
      (
        put_col Y s key (Collection.set X c obj).0,
        ok (
          count_reply out true,
          record no_details { command = expire; key = key; obj = some obj; updated = true },
        ),
      )

  unfoldable pub expire_op :
      OutputType → Str → Str → ℤ → Option (Collection X) → Server Y → Outcome Y
  unfolding expire_in
  expire_op out key id ex none s =
      (s, elim (expire_missing out key_not_found) [ ok r ↦ ok (r, no_details) | err e ↦ err e ])
  expire_op out key id ex (some c) s = expire_in out key id ex c (Collection.get X c id) s

  -- `value` is what `svalue` parses to, in nanoseconds.
  unfoldable pub expire_parsed : ℤ → OutputType → Str → Str → Str → Option ℤ → Server Y → Outcome Y
  unfolding expire_op
  expire_parsed now out key id svalue none s = (s, err (invalid_argument svalue))
  expire_parsed now out key id svalue (some value) s =
      expire_op out key id (add_int64 now value) (col_of Y s key) s

  unfoldable pub cmd_expire : Parsers G F → ℤ → OutputType → List Str → Server Y → Outcome Y
  unfolding expire_parsed
  cmd_expire P now out (name ∷ key ∷ id ∷ svalue ∷ []) s =
      expire_parsed now out key id svalue (Option.map P.nanos (P.parse_float svalue)) s
  cmd_expire P now out args s = (s, err invalid_number_of_arguments)

  abbrev pub persist_missing : OutputType → Error → Server Y → Outcome Y
  persist_missing out e s =
      if is_resp out then (s, ok (integer (pos 0), no_details)) else (s, err e)

  unfoldable pub persist_in :
      OutputType → Str → Str → Collection X → Option (Object G F) → Server Y → Outcome Y
  unfolding with_expires
  persist_in out key id c none s = persist_missing out id_not_found s
  persist_in out key id c (some o) s =
      let obj = with_expires id (pos 0) o in
      if not (is_zero (object_expires o))
      then (
        put_col Y s key (Collection.set X c obj).0,
        ok (
          count_reply out true,
          record no_details { command = persist; key = key; obj = some obj; updated = true },
        ),
      )
      else (s, ok (count_reply out false, record no_details { command = persist; key = key }))

  unfoldable pub persist_op : OutputType → Str → Str → Option (Collection X) → Server Y → Outcome Y
  unfolding persist_in
  persist_op out key id none s = persist_missing out key_not_found s
  persist_op out key id (some c) s = persist_in out key id c (Collection.get X c id) s

  unfoldable pub cmd_persist : OutputType → List Str → Server Y → Outcome Y
  unfolding persist_op
  cmd_persist out (name ∷ key ∷ id ∷ []) s = persist_op out key id (col_of Y s key) s
  cmd_persist out args s = (s, err invalid_number_of_arguments)

  abbrev ttl_missing : OutputType → Error → Answer Y
  ttl_missing out e = if is_json out then err e else ok (integer (negsuc 1))

  -- The seconds left, -1 for an object that does not expire.
  abbrev pub ttl_of : Parsers G F → ℤ → Object G F → ℤ
  ttl_of P now o =
      if is_zero (object_expires o)
      then negsuc 0
      else P.whole_seconds (sub_int64 (object_expires o) now)

  ttl_in : Parsers G F → ℤ → OutputType → Option (Object G F) → Answer Y
  ttl_in P now out none = ttl_missing out id_not_found
  ttl_in P now out (some o) = ok (integer (ttl_of P now o))

  ttl_op : Parsers G F → ℤ → OutputType → Str → Option (Collection X) → Answer Y
  unfolding ttl_in
  ttl_op P now out id none = ttl_missing out key_not_found
  ttl_op P now out id (some c) = ttl_in P now out (Collection.get X c id)

  unfoldable pub cmd_ttl : Parsers G F → ℤ → OutputType → List Str → Server Y → Answer Y
  unfolding ttl_op
  cmd_ttl P now out (name ∷ key ∷ id ∷ []) s = ttl_op P now out id (col_of Y s key)
  cmd_ttl P now out args s = err invalid_number_of_arguments

  -- The iterator of `ScanExpires`: it stops at the first object that has not expired, and collects
  -- the DEL messages.
  unfoldable pub expired_step : ℤ → Str → Object G F → List (List Str) → Bool × List (List Str)
  expired_step nano key o msgs =
      if ltb_ℤ nano (object_expires o)
      then (false, msgs)
      else (true, msgs ++ (codes "del" ∷ key ∷ object_id o ∷ []) ∷ [])

  -- `s.cols.Scan` over the collections.
  unfoldable pub expired_msgs : ℤ → List (Str × Collection X) → List (List Str) → List (List Str)
  expired_msgs nano [] msgs = msgs
  expired_msgs nano ((key, c) ∷ cols) msgs =
      expired_msgs nano cols (scan_expires X c (expired_step nano key) msgs)

  unfoldable pub run_dels : List (List Str) → Server Y → Server Y
  run_dels [] s = s
  run_dels (msg ∷ msgs) s = run_dels msgs (cmd_del Y other msg s).0

  -- The messages go to the log too: they are the second result.
  unfoldable pub background_expire_objects : ℤ → Server Y → Server Y × List (List Str)
  unfolding expired_msgs run_dels
  background_expire_objects nano s =
      let msgs = expired_msgs nano (Y.cols.items s.cols) [] in (run_dels msgs s, msgs)
