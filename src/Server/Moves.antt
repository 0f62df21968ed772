-- ===== src/Server/Moves.antt =====
-- DROP, RENAME and RENAMENX of internal/legacy/server/crud.go: what they leave in the server.
use spatialdb_engine.Base.{
  ◌≡◌, refl, Bool, true, false, not, ◌&&◌, ◌||◌, Option, none, some, [], ◌∷◌, arith, if◌then◌else◌,
  Option-cases, Bool-cases, inl, inr, is_some,
}
use spatialdb_engine.Base.Text.{Str, str_eq, str_eq_iff}
use spatialdb_engine.Geometry.{Geometry, FieldLists}
use spatialdb_engine.Collection.{Trees, Collection}
use spatialdb_engine.Server.{OutputType, Stores, Server, col_of, drop_col, find}
use spatialdb_engine.Server.Args.{is_word}
use spatialdb_engine.Server.Delete.{
  has_hook_on, drop_op, cmd_drop, rename_move, rename_op, cmd_rename,
}
use spatialdb_engine.Server.Keys.{
  IsKept, IsValid, put_col-IsValid, drop_col-IsValid, if-IsValid, find-put_col, find-drop_col,
  find_col, find_no_col,
}

module _ {G : Geometry} {F : FieldLists} {X : Trees G F} (Y : Stores X) where
  -- DROP of a key removes every object of the key, keeps those of every other key, and keeps the
  -- server valid.
  pub find-cmd_drop :
      (out : OutputType) (name key : Str) (s : Server Y)
      → IsValid Y s
      → IsValid Y (cmd_drop Y out (name ∷ key ∷ []) s).0
        × ((k i : Str)
            → find Y (cmd_drop Y out (name ∷ key ∷ []) s).0 k i
              ≡ (if str_eq key k then none else find Y s k i))
  unfolding cmd_drop drop_op find
  find-cmd_drop out name key s v = elim (Option-cases (col_of Y s key)) [
    | inl n ↦ (
      rw n (record { kept = v.kept }),
      λ k i. rw n (ground (arith, find_no_col Y s key i n, str_eq_iff key k)),
    )
    | inr (c, n) ↦ (
      rw n (record { kept = (drop_col-IsValid Y s key v).kept }),
      λ k i. rw n (find-drop_col Y s key k i),
    )
  ]

  server_if :
      (b : Bool) (x y : Server Y) → IsValid Y x → IsValid Y y → IsValid Y (if b then x else y)
  server_if true x y p q = p
  server_if false x y p q = q

  rename_move-IsValid :
      (key new_key : Str) (c : Collection X) (s : Server Y)
      → IsKept Y c
      → IsValid Y s
      → IsValid Y (rename_move Y key new_key c s)
  unfolding rename_move
  rename_move-IsValid key new_key c s h v = elim (Bool-cases (is_some (col_of Y s new_key))) [
    | inl t ↦ rw t (
        put_col-IsValid Y (drop_col Y (drop_col Y s new_key) key) new_key c h
          (drop_col-IsValid Y (drop_col Y s new_key) key (drop_col-IsValid Y s new_key v)))
    | inr f ↦ rw f (put_col-IsValid Y (drop_col Y s key) new_key c h (drop_col-IsValid Y s key v))
  ]

  find-rename_move :
      (key new_key : Str) (c : Collection X) (s : Server Y)
      → col_of Y s key ≡ some c
      → (k i : Str)
      → find Y (rename_move Y key new_key c s) k i
        ≡ (if str_eq new_key k then find Y s key i else if str_eq key k then none else find Y s k i)
  unfolding rename_move
  find-rename_move key new_key c s e k i = elim (Bool-cases (is_some (col_of Y s new_key))) [
    | inl t ↦ rw t (
        ground (
          arith,
          find-put_col Y (drop_col Y (drop_col Y s new_key) key) new_key k i c,
          find-drop_col Y (drop_col Y s new_key) key k i,
          find-drop_col Y s new_key k i,
          find_col Y s key i c e,
        ))
    | inr f ↦ rw f (
        ground (
          arith,
          find-put_col Y (drop_col Y s key) new_key k i c,
          find-drop_col Y s key k i,
          find_col Y s key i c e,
        ))
  ]

  -- Whether a RENAME, or with `nx` a RENAMENX, goes ahead.
  abbrev pub moves : Bool → Str → Str → Server Y → Bool
  moves nx key new_key s =
      is_some (col_of Y s key)
      && not (has_hook_on false key new_key s.hooks)
      && not (has_hook_on true key new_key s.hooks)
      && (not (is_some (col_of Y s new_key)) || not nx)

  rename_op-IsValid :
      (out : OutputType) (nx : Bool) (key new_key : Str) (col : Option (Collection X))
      (s : Server Y)
      → col_of Y s key ≡ col
      → IsValid Y s
      → IsValid Y (rename_op Y out nx key new_key col s).0
  unfolding rename_op
  rename_op-IsValid out nx key new_key none s e v = v
  rename_op-IsValid out nx key new_key (some c) s e v =
      let moved = rename_move-IsValid key new_key c s (v.kept key c e) v in
      if-IsValid Y (has_hook_on false key new_key s.hooks) _ _ v (
        if-IsValid Y (has_hook_on true key new_key s.hooks) _ _ v
          (server_if (not (is_some (col_of Y s new_key)) || not nx) _ _ moved v))

  find-rename_op :
      (out : OutputType) (nx : Bool) (key new_key : Str) (col : Option (Collection X))
      (s : Server Y)
      → col_of Y s key ≡ col
      → (k i : Str)
      → find Y (rename_op Y out nx key new_key col s).0 k i ≡ (
          if moves nx key new_key s
          then (if str_eq new_key k
              then find Y s key i
              else if str_eq key k
              then none
              else find Y s k i)
          else find Y s k i)
  unfolding rename_op
  find-rename_op out nx key new_key none s e k i = ground arith
  find-rename_op out nx key new_key (some c) s e k i =
      ground (arith, find-rename_move key new_key c s e k i)

  -- RENAME and RENAMENX move the whole collection of a key, over what the new key had, exactly if the
  -- key has one, neither key has a hook or a channel and, for RENAMENX, the new key has none; every
  -- other key stays as it was. In each case the server stays valid.
  pub find-cmd_rename :
      (out : OutputType) (name key new_key : Str) (s : Server Y)
      → IsValid Y s
      → IsValid Y (cmd_rename Y out (name ∷ key ∷ new_key ∷ []) s).0
        × ((k i : Str)
            → find Y (cmd_rename Y out (name ∷ key ∷ new_key ∷ []) s).0 k i ≡ (
                if moves (is_word "renamenx" name) key new_key s
                then (if str_eq new_key k
                    then find Y s key i
                    else if str_eq key k
                    then none
                    else find Y s k i)
                else find Y s k i))
  unfolding cmd_rename
  find-cmd_rename out name key new_key s v = (
    rename_op-IsValid out (is_word "renamenx" name) key new_key (col_of Y s key) s refl v,
    find-rename_op out (is_word "renamenx" name) key new_key (col_of Y s key) s refl,
  )
