-- ===== src/Server/Dispatch/Failing/Writes.antt =====
-- SET and FSET of internal/legacy/server/crud.go that fail or do not update.
use spatialdb_engine.Base.{
  ℕ, ◌≡◌, refl, Bool, true, false, Option, none, some, List, [], ◌∷◌, if◌then◌else◌, Option-cases,
  Bool-cases, inl, inr,
}
use spatialdb_engine.Base.Text.{Str}
use spatialdb_engine.Base.Int.{ℤ, pos}
use spatialdb_engine.Geometry.{Geometry, FieldLists}
use spatialdb_engine.Object.{Object, Geo, object_geo, object_expires, new_object}
use spatialdb_engine.Collection
use spatialdb_engine.Collection.{Trees, Collection}
use spatialdb_engine.Server.{
  OutputType, json, resp, other, is_json, Reply, json_ok, integer, nothing, object, Result, ok, err,
  Stores, Server, col_of, put_col,
}
use spatialdb_engine.Server.Args.{Parsers}
use spatialdb_engine.Server.SetArgs.{Options, no_options, set_args}
use spatialdb_engine.Server.Set.{nada, store, set_in, set_op, set_geo, set_parsed, cmd_set}
use spatialdb_engine.Server.Fields.{
  update_fields, FieldOptions, no_field_options, fset_args, fset_reply, fset_found, fset_in,
  fset_op, fset_parsed, cmd_fset,
}
use spatialdb_engine.Server.Writes.{set_op_fresh, set_in_fresh}
use spatialdb_engine.Server.Dispatch.Failing.Outcomes.{
  Fails, if-Fails, ok-Fails, refused-Fails, Quiet, if-Quiet, refused-Quiet,
}

module _ {G : Geometry} {F : FieldLists} {X : Trees G F} (Y : Stores X) where
  nada-Quiet : (out : OutputType) (nx : Bool) (s : Server Y) → Quiet Y s (nada Y out nx s)
  unfolding nada
  nada-Quiet out nx s = if-Quiet Y (is_json out) s _ _ (λ t h k i. refl) (λ t h k i. refl)

  module _ (out : OutputType) (o : Options G F) (key id : Str) (oobj : Geo G) where
    store-Quiet : (c : Collection X) (s s' : Server Y) → Quiet Y s (store Y out o key id oobj c s')
    unfolding store
    store-Quiet c s s' h k i = cc

    set_op-Quiet :
        (col : Option (Collection X)) (s : Server Y) → Quiet Y s (set_op Y out o key id oobj col s)
    unfolding set_op set_in
    set_op-Quiet none s = elim (Bool-cases o.xx) [
      | inl t ↦ rw t (nada-Quiet out o.nx s)
      | inr f ↦
          let s' = put_col Y s key (Collection.new X) in
          rw (set_op_fresh Y out o key id oobj s f, set_in_fresh Y out o key id oobj s' f)
            (store-Quiet (Collection.new X) s s')
    ]
    set_op-Quiet (some c) s =
        if-Quiet Y _ s _ _ (λ t. nada-Quiet out o.nx s) (λ t. store-Quiet c s s)

  set_parsed-Quiet :
      (out : OutputType) (key id : Str) (o : Result (Options G F)) (s : Server Y)
      → Quiet Y s (set_parsed Y out key id o s)
  unfolding set_parsed set_geo
  set_parsed-Quiet out key id (err e) s = λ h k i. refl
  set_parsed-Quiet out key id (ok o) s = elim (Option-cases o.oobj) [
    | inl n ↦ rw n (λ h k i. refl)
    | inr (g, n) ↦ rw n (set_op-Quiet out o key id g (col_of Y s key) s)
  ]

  pub cmd_set-Quiet :
      (P : Parsers G F) (now : ℤ) (out : OutputType) (args : List Str) (s : Server Y)
      → Quiet Y s (cmd_set Y P now out args s)
  unfolding cmd_set
  cmd_set-Quiet P now out [] s = refused-Quiet Y s.oom _ _ s
  cmd_set-Quiet P now out (a ∷ []) s = refused-Quiet Y s.oom _ _ s
  cmd_set-Quiet P now out (a ∷ b ∷ []) s = refused-Quiet Y s.oom _ _ s
  cmd_set-Quiet P now out (name ∷ key ∷ id ∷ rest) s =
      if-Quiet Y s.oom s _ _ (λ t h k i. refl)
        (λ t. set_parsed-Quiet out key id (set_args P now 0 rest (no_options G F)) s)

  if-ok : {A : Type 0} (b : Bool) (x y : A) → (r : A) × ((if b then ok x else ok y) ≡ ok r)
  if-ok true x y = (x, refl)
  if-ok false x y = (y, refl)

  -- The reply with an object is no error.
  fset_reply-ok :
      (out : OutputType) (o : FieldOptions F) (x : Object G F) (n : ℕ)
      → (r : Reply (Object G F) F.Value) × (fset_reply Y out o (some x) n ≡ ok r)
  fset_reply-ok json o x n = if-ok o.ret (object o.view x) json_ok
  fset_reply-ok resp o x n = if-ok o.ret (object o.view x) (integer (pos n))
  fset_reply-ok other o x n = if-ok o.ret (object o.view x) nothing

  fset_found-Fails :
      (out : OutputType) (o : FieldOptions F) (key id : Str) (c : Collection X) (x : Object G F)
      (s : Server Y)
      → Fails Y s (fset_found Y out o key id c x s)
  unfolding fset_found
  fset_found-Fails out o key id c x s =
      let (flist, n) = update_fields Y o.fields x.fields 0 in
      let obj = new_object id (object_geo x) (object_expires x) flist in
      let (r, e) = fset_reply-ok out o obj n in rw e (ok-Fails Y s _ _)

  fset_op-Fails :
      (out : OutputType) (o : FieldOptions F) (key id : Str) (col : Option (Collection X))
      (s : Server Y)
      → Fails Y s (fset_op Y out o key id col s)
  unfolding fset_op fset_in
  fset_op-Fails out o key id none s = λ e h k i. refl
  fset_op-Fails out o key id (some c) s = elim (Option-cases (Collection.get X c id)) [
    | inl n ↦ rw n (if-Fails Y o.xx s _ _ (λ t e h k i. refl) (λ t e h k i. refl))
    | inr (x, n) ↦ rw n (fset_found-Fails out o key id c x s)
  ]

  fset_parsed-Fails :
      (out : OutputType) (key id : Str) (o : Result (FieldOptions F)) (s : Server Y)
      → Fails Y s (fset_parsed Y out key id o s)
  unfolding fset_parsed
  fset_parsed-Fails out key id (err e) s = λ e h k i. refl
  fset_parsed-Fails out key id (ok o) s = fset_op-Fails out o key id (col_of Y s key) s

  pub cmd_fset-Fails :
      (P : Parsers G F) (out : OutputType) (args : List Str) (s : Server Y)
      → Fails Y s (cmd_fset Y P out args s)
  unfolding cmd_fset
  cmd_fset-Fails P out [] s = refused-Fails Y s.oom _ _ s
  cmd_fset-Fails P out (a ∷ []) s = refused-Fails Y s.oom _ _ s
  cmd_fset-Fails P out (a ∷ b ∷ []) s = refused-Fails Y s.oom _ _ s
  cmd_fset-Fails P out (a ∷ b ∷ c ∷ []) s = refused-Fails Y s.oom _ _ s
  cmd_fset-Fails P out (a ∷ b ∷ c ∷ d ∷ []) s = refused-Fails Y s.oom _ _ s
  cmd_fset-Fails P out (name ∷ key ∷ id ∷ a ∷ b ∷ rest) s =
      if-Fails Y s.oom s _ _ (λ t e h k i. refl)
        (λ t. fset_parsed-Fails out key id (fset_args P 0 (a ∷ b ∷ rest) (no_field_options F)) s)
