-- ===== src/Collection/Order.antt =====
-- The orders of the indexes: `byID`, `byValue` and `byExpires`.
use spatialdb_engine.Base.{◌≡◌, Bool, true, false, arith, if◌then◌else◌}
use spatialdb_engine.Base.Text.{
  str_eq, str_lt, str_eq_iff, str_lt_irrefl, str_lt_trans, str_lt_connex, str_lt_cotrans,
}
use spatialdb_engine.Base.Int.{ltb_ℤ}
use spatialdb_engine.Geometry.{Geometry, FieldLists}
use spatialdb_engine.Index.Sorted.{IsOrder, same_place}
use spatialdb_engine.Object.{Object, object_id, object_geo, object_expires, geo_text}

module _ {A : Type 0} (f g : A → A → Bool) where
  -- First by `f`, and by `g` where `f` does not decide.
  unfoldable pub first_by : A → A → Bool
  first_by a b = if f a b then true else if f b a then false else g a b

  pub first_by-IsOrder : IsOrder f → IsOrder g → IsOrder first_by
  unfolding first_by
  first_by-IsOrder p q = record {
    less_irrefl = λ a. ground (arith, p.less_irrefl a, q.less_irrefl a);
    less_trans = λ a b c. ground (
      arith,
      p.less_trans a b c,
      q.less_trans a b c,
      p.less_cotrans a b c,
      p.less_cotrans b c a,
      p.less_cotrans c a b,
      p.less_cotrans b a c,
      p.less_cotrans c b a,
      p.less_cotrans a c b,
    );
    less_cotrans = λ a b c. ground (
      arith,
      q.less_cotrans a b c,
      p.less_cotrans a b c,
      p.less_cotrans b a c,
      p.less_cotrans b c a,
      p.less_cotrans c a b,
      p.less_trans a b a,
      p.less_irrefl a,
    );
  }

module _ {G : Geometry} {F : FieldLists} where
  unfoldable pub by_id : Object G F → Object G F → Bool
  by_id a b = str_lt (object_id a) (object_id b)

  by_text : Object G F → Object G F → Bool
  by_text a b = str_lt (geo_text (object_geo a)) (geo_text (object_geo b))

  by_time : Object G F → Object G F → Bool
  by_time a b = ltb_ℤ (object_expires a) (object_expires b)

  -- The two comparisons of the value, and the ids where the values match.
  unfoldable pub by_value : Object G F → Object G F → Bool
  unfolding first_by by_text
  by_value = first_by by_text by_id

  unfoldable pub by_expires : Object G F → Object G F → Bool
  unfolding first_by by_time
  by_expires = first_by by_time by_id

  by_id-IsOrder : IsOrder by_id
  unfolding by_id
  by_id-IsOrder = record {
    less_irrefl = λ a. str_lt_irrefl (object_id a);
    less_trans = λ a b c. str_lt_trans (object_id a) (object_id b) (object_id c);
    less_cotrans = λ a b c. str_lt_cotrans (object_id a) (object_id b) (object_id c);
  }

  by_text-IsOrder : IsOrder by_text
  unfolding by_text
  by_text-IsOrder = record {
    less_irrefl = λ a. str_lt_irrefl (geo_text (object_geo a));
    less_trans = λ a b c.
        str_lt_trans (geo_text (object_geo a)) (geo_text (object_geo b)) (geo_text (object_geo c));
    less_cotrans = λ a b c.
        str_lt_cotrans (geo_text (object_geo a)) (geo_text (object_geo b))
          (geo_text (object_geo c));
  }

  by_time-IsOrder : IsOrder by_time
  unfolding by_time
  by_time-IsOrder = record {
    less_irrefl = λ a. ground arith;
    less_trans = λ a b c h k. ground arith;
    less_cotrans = λ a b c h. ground arith;
  }

  pub by_value-IsOrder : IsOrder by_value
  unfolding by_value
  by_value-IsOrder = first_by-IsOrder by_text by_id by_text-IsOrder by_id-IsOrder

  pub by_expires-IsOrder : IsOrder by_expires
  unfolding by_expires
  by_expires-IsOrder = first_by-IsOrder by_time by_id by_time-IsOrder by_id-IsOrder

  -- Objects that share a place in one of the two orders have one id.
  pub id-same_value :
      (a b : Object G F)
      → same_place by_value a b ≡ true
      → str_eq (object_id a) (object_id b) ≡ true
  unfolding by_value by_id
  id-same_value a b h =
      ground
        (arith, str_lt_connex (object_id a) (object_id b), str_eq_iff (object_id a) (object_id b))

  pub id-same_expires :
      (a b : Object G F)
      → same_place by_expires a b ≡ true
      → str_eq (object_id a) (object_id b) ≡ true
  unfolding by_expires by_id
  id-same_expires a b h =
      ground
        (arith, str_lt_connex (object_id a) (object_id b), str_eq_iff (object_id a) (object_id b))

  -- The index by expiration is in the order of the times.
  pub time-by_expires :
      (a b : Object G F)
      → by_expires a b ≡ true
      → ltb_ℤ (object_expires b) (object_expires a) ≡ false
  unfolding by_expires
  time-by_expires a b h = ground arith
