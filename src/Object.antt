-- ===== src/Object.antt =====
-- internal/legacy/object/object_binary.go: an object of a collection, and the string objects of
-- internal/legacy/collection/string.go.
pub mod Head
use spatialdb_engine.Base.{
  ℕ, ◌+◌, ◌*◌, Bool, true, false, Option, none, some, List, [], ◌∷◌, ◌++◌, length, drop, ◌==◌,
  if◌then◌else◌,
}
use spatialdb_engine.Base.Text.{Str}
use spatialdb_engine.Base.Int.{ℤ, pos, negsuc}
use spatialdb_engine.Geometry.{Geometry, FieldLists, Rect}
use spatialdb_engine.Varint.{put_varint, varint, is_zero}

-- `opoint` and `ogeo`.
abbrev pub opoint : ℕ
opoint = 1

abbrev pub ogeo : ℕ
ogeo = 2

-- The bytes of the expiration: `exn := 1` byte of the zeroed array if it is 0, else its varint.
pub expires_bytes : ℤ → Str
expires_bytes expires = if is_zero expires then 0 ∷ [] else put_varint expires

unfoldable pub make_head : ℕ → Str → ℤ → Str
unfolding expires_bytes
make_head kind id expires = kind ∷ (expires_bytes expires ++ id)

-- `ID` on the head. A head has at least two bytes: `make_head` is its only source.
unfoldable pub head_id : Str → Str
head_id [] = []
head_id (kind ∷ []) = []
head_id (kind ∷ b ∷ s) = if b == 0 then s else drop (varint (b ∷ s)).1 (b ∷ s)

unfoldable pub head_expires : Str → ℤ
head_expires [] = pos 0
head_expires (kind ∷ s) = (varint s).0

module _ (G : Geometry) where
  -- `collection.String`, or a shape of the geojson package.
  pub data Geo : Type 0 where
    string : Str → Geo
    shape : G.Shape → Geo

module _ {G : Geometry} where
  -- The methods of `collection.String` stand in the first clauses: it has no `Spatial` type, is
  -- empty, has no points, lies in nothing and meets nothing.
  unfoldable pub geo_spatial : Geo G → Bool
  geo_spatial (string s) = false
  geo_spatial (shape g) = G.spatial g

  unfoldable pub geo_empty : Geo G → Bool
  geo_empty (string s) = true
  geo_empty (shape g) = G.empty g

  unfoldable pub geo_num_points : Geo G → ℕ
  geo_num_points (string s) = 0
  geo_num_points (shape g) = G.num_points g

  unfoldable pub geo_rect : Geo G → Rect G.floats
  geo_rect (string s) = record {
    min_x = G.floats.zero;
    min_y = G.floats.zero;
    max_x = G.floats.zero;
    max_y = G.floats.zero;
  }
  geo_rect (shape g) = G.rect g

  unfoldable pub geo_text : Geo G → Str
  geo_text (string s) = s
  geo_text (shape g) = G.text g

  -- The searches take a geometry of the command, which is no `collection.String`.
  unfoldable pub geo_within : Geo G → G.Shape → Bool
  geo_within (string s) q = false
  geo_within (shape g) q = G.within g q

  unfoldable pub geo_intersects : Geo G → G.Shape → Bool
  geo_intersects (string s) q = false
  geo_intersects (shape g) q = G.intersects g q

module _ (G : Geometry) (F : FieldLists) where
  -- `pointObject` keeps a bare point, `geoObject` any geometry; the kind byte of the head says which.
  pub data Body : Type 0 where
    point : G.Point → Body
    geo : Geo G → Body

  pub record Object : Type 0 where
    pub head : Str
    pub fields : F.Fields
    pub body : Body

module _ {G : Geometry} {F : FieldLists} where
  unfoldable pub object_geo : Object G F → Geo G
  object_geo o = elim o.body [ point p ↦ shape (G.of_point p) | geo g ↦ g ]

  unfoldable pub object_id : Object G F → Str
  unfolding head_id
  object_id o = head_id o.head

  unfoldable pub object_expires : Object G F → ℤ
  unfolding head_expires
  object_expires o = head_expires o.head

  unfoldable pub is_spatial : Object G F → Bool
  is_spatial o = geo_spatial (object_geo o)

  unfoldable pub object_weight : Object G F → ℕ
  object_weight o =
      length (object_id o)
      + (if is_spatial o
          then geo_num_points (object_geo o) * 16
          else length (geo_text (object_geo o)))
      + F.weight o.fields

  pub new_point : Str → G.Point → ℤ → F.Fields → Object G F
  new_point id p expires fields = record {
    head = make_head opoint id expires;
    fields = fields;
    body = point p;
  }

  pub new_geo : Str → Geo G → ℤ → F.Fields → Object G F
  new_geo id g expires fields = record {
    head = make_head ogeo id expires;
    fields = fields;
    body = geo g;
  }

  new_shape : Str → (g : G.Shape) → Option G.Point → ℤ → F.Fields → Object G F
  new_shape id g (some p) expires fields = new_point id p expires fields
  new_shape id g none expires fields = new_geo id (shape g) expires fields

  unfoldable pub new_object : Str → Geo G → ℤ → F.Fields → Object G F
  unfolding new_point new_geo new_shape
  new_object id (string s) expires fields = new_geo id (string s) expires fields
  new_object id (shape g) expires fields = new_shape id g (G.simple_base g) expires fields
