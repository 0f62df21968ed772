-- ===== src/Server/Delete.antt =====
-- DEL, DROP, RENAME and RENAMENX of internal/legacy/server/crud.go.
use spatialdb_engine.Base.{
  Bool, true, false, not, ◌&&◌, ◌||◌, Option, none, some, List, [], ◌∷◌, if◌then◌else◌, is_some,
}
use spatialdb_engine.Base.Text.{Str, str_eq, codes}
use spatialdb_engine.Base.Int.{pos}
use spatialdb_engine.Geometry.{Geometry, FieldLists}
use spatialdb_engine.Object.{Object}
use spatialdb_engine.Varint.{is_zero}
use spatialdb_engine.Collection
use spatialdb_engine.Collection.{Trees, Collection}
use spatialdb_engine.Server.{
  OutputType, json, resp, other, invalid_number_of_arguments, invalid_argument, key_not_found,
  id_not_found, key_has_hooks_set, key_has_channels_set, Result, ok, err, Reply, nothing, json_ok,
  integer, simple, no_details, del, drop, rename, Hook, Stores, Server, Outcome, col_of, put_col,
  drop_col,
}
use spatialdb_engine.Server.Group
use spatialdb_engine.Server.Args.{is_word}

-- The options of DEL behind the id.
unfoldable pub del_flags : List Str → Bool → Result Bool
del_flags [] erron404 = ok erron404
del_flags (a ∷ rest) erron404 =
    if is_word "erron404" a then del_flags rest true else err (invalid_argument a)

-- A 1 for an update and a 0 for none, in RESP.
abbrev pub count_reply : {O V : Type 0} → OutputType → Bool → Reply O V
count_reply json updated = json_ok
count_reply resp updated = if updated then integer (pos 1) else integer (pos 0)
count_reply other updated = nothing

abbrev pub rename_reply : {O V : Type 0} → OutputType → Bool → Bool → Reply O V
rename_reply json nx updated = json_ok
rename_reply resp nx updated =
    if not nx then simple (codes "OK") else if updated then integer (pos 1) else integer (pos 0)
rename_reply other nx updated = nothing

-- Whether a hook, or a channel, stands on one of two keys.
unfoldable pub has_hook_on : Bool → Str → Str → List Hook → Bool
has_hook_on channel key new_key [] = false
has_hook_on channel key new_key (h ∷ hs) =
    ((str_eq h.key key || str_eq h.key new_key) && (if channel then h.channel else not h.channel))
    || has_hook_on channel key new_key hs

module _ {G : Geometry} {F : FieldLists} {X : Trees G F} (Y : Stores X) where
  -- `s.groupDisconnectObject(key, id)` and the response.
  unfoldable pub del_done : OutputType → Str → Str → Option (Object G F) → Server Y → Outcome Y
  del_done out key id old s = (
    record s { groups = Group.disconnect_object Y.groups s.groups key id },
    ok (
      count_reply out (is_some old),
      record no_details { command = del; key = key; obj = old; updated = is_some old },
    ),
  )

  -- After `col.Delete(id)`, which gave `old` and left `c`.
  unfoldable pub del_from :
      OutputType → Str → Str → Bool → Collection X → Option (Object G F) → Server Y → Outcome Y
  unfolding del_done
  del_from out key id erron404 c (some o) s =
      del_done out key id (some o)
        (if is_zero (Collection.count X c) then drop_col Y s key else put_col Y s key c)
  del_from out key id erron404 c none s =
      if erron404
      then (put_col Y s key c, err id_not_found)
      else del_done out key id none (put_col Y s key c)

  unfoldable pub del_op :
      OutputType → Str → Str → Bool → Option (Collection X) → Server Y → Outcome Y
  unfolding del_from
  del_op out key id erron404 none s =
      if erron404 then (s, err key_not_found) else del_done out key id none s
  del_op out key id erron404 (some c) s =
      let (c', old) = Collection.delete X c id in del_from out key id erron404 c' old s

  unfoldable pub del_parsed : OutputType → Str → Str → Result Bool → Server Y → Outcome Y
  unfolding del_op
  del_parsed out key id (err e) s = (s, err e)
  del_parsed out key id (ok erron404) s = del_op out key id erron404 (col_of Y s key) s

  unfoldable pub cmd_del : OutputType → List Str → Server Y → Outcome Y
  unfolding del_parsed
  cmd_del out (name ∷ key ∷ id ∷ rest) s = del_parsed out key id (del_flags rest false) s
  cmd_del out args s = (s, err invalid_number_of_arguments)

  -- `cmdDROPop`.
  unfoldable pub drop_op : Str → Server Y → Server Y × Option (Collection X)
  drop_op key s =
      let col = col_of Y s key in
      let s' = if is_some col then drop_col Y s key else s in
      (record s' { groups = Group.disconnect_collection Y.groups s'.groups key }, col)

  unfoldable pub cmd_drop : OutputType → List Str → Server Y → Outcome Y
  unfolding drop_op
  cmd_drop out (name ∷ key ∷ []) s =
      let (s', col) = drop_op key s in
      (
        s',
        ok (
          count_reply out (is_some col),
          record no_details { command = drop; key = key; updated = is_some col },
        ),
      )
  cmd_drop out args s = (s, err invalid_number_of_arguments)

  -- The three tree operations of a RENAME that goes ahead.
  unfoldable pub rename_move : Str → Str → Collection X → Server Y → Server Y
  rename_move key new_key c s =
      let s1 = if is_some (col_of Y s new_key) then drop_col Y s new_key else s in
      put_col Y (drop_col Y s1 key) new_key c

  unfoldable pub rename_op :
      OutputType → Bool → Str → Str → Option (Collection X) → Server Y → Outcome Y
  unfolding rename_move
  rename_op out nx key new_key none s = (s, err key_not_found)
  rename_op out nx key new_key (some c) s =
      if has_hook_on false key new_key s.hooks
      then (s, err key_has_hooks_set)
      else if has_hook_on true key new_key s.hooks
      then (s, err key_has_channels_set)
      else (let updated = not (is_some (col_of Y s new_key)) || not nx in
          (
            if updated then rename_move key new_key c s else s,
            ok (
              rename_reply out nx updated,
              record no_details {
                command = rename;
                key = key;
                new_key = new_key;
                updated = updated;
              },
            ),
          ))

  unfoldable pub cmd_rename : OutputType → List Str → Server Y → Outcome Y
  unfolding rename_op
  cmd_rename out (name ∷ key ∷ new_key ∷ []) s =
      rename_op out (is_word "renamenx" name) key new_key (col_of Y s key) s
  cmd_rename out args s = (s, err invalid_number_of_arguments)
