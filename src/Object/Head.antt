-- ===== src/Object/Head.antt =====
-- The head of an object keeps the id and the expiration that it was made from.
use spatialdb_engine.Base.{drop-append, ℕ, ◌≡◌, refl, arith, Bool-cases, Option-cases, inl, inr}
use spatialdb_engine.Base.Text.{Str}
use spatialdb_engine.Base.Int.{ℤ}
use spatialdb_engine.Geometry.{Geometry, FieldLists}
use spatialdb_engine.Varint.{put_varint, is_zero}
use spatialdb_engine.Varint.RoundTrip.{
  InInt64, varint-put_varint, put_varint_head, varint_zero, zero_of_is_zero,
}
use spatialdb_engine.Object.{
  Geo, string, shape, make_head, head_id, head_expires, object_id, object_expires, new_object,
  new_shape,
}

head_id-make_head : (kind : ℕ) (id : Str) (x : ℤ) → InInt64 x → head_id (make_head kind id x) ≡ id
unfolding head_id make_head
head_id-make_head kind id x h = elim (Bool-cases (is_zero x)) [
  | inl z ↦ rw z
  | inr nz ↦
      let (b, s, e, first) = put_varint_head x nz in
      let read = varint-put_varint x id h in ground (arith, drop-append (put_varint x) id)
]

head_expires-make_head :
    (kind : ℕ) (id : Str) (x : ℤ) → InInt64 x → head_expires (make_head kind id x) ≡ x
unfolding head_expires make_head
head_expires-make_head kind id x h = elim (Bool-cases (is_zero x)) [
  | inl z ↦ ground (arith, varint_zero id, zero_of_is_zero x)
  | inr nz ↦ ground (arith, varint-put_varint x id)
]

module _ (G : Geometry) (F : FieldLists) where
  -- An object answers with the id and the expiration that it was made with, whatever its geometry,
  -- for every expiration of an int64: the two do not run into one another in the head.
  pub new_object_id_expires :
      (id : Str) (g : Geo G) (x : ℤ) (fields : F.Fields)
      → InInt64 x
      → (object_id (new_object {G = G} {F = F} id g x fields) ≡ id)
        × (object_expires (new_object {G = G} {F = F} id g x fields) ≡ x)
        × ((new_object {G = G} {F = F} id g x fields).fields ≡ fields)
  unfolding new_object object_id object_expires
  new_object_id_expires id (string s) x fields h =
      (head_id-make_head 2 id x h, head_expires-make_head 2 id x h, refl)
  new_object_id_expires id (shape g) x fields h = elim (Option-cases (G.simple_base g)) [
    | inl e ↦ rw (e, new_shape) (head_id-make_head 2 id x h, head_expires-make_head 2 id x h, refl)
    | inr (p, e) ↦
        rw (e, new_shape) (head_id-make_head 1 id x h, head_expires-make_head 1 id x h, refl)
  ]
