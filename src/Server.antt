-- ===== src/Server.antt =====
-- internal/legacy/server: the state of the server that the data commands read and change, the
-- messages, and the results of commands.
pub mod Group
pub mod Args
pub mod Delete
pub mod SetArgs
pub mod Set
pub mod Fields
pub mod Expiry
pub mod Read
pub mod Keys
pub mod Deletes
pub mod Writes
pub mod Moves
pub mod Updates
pub mod Sweep
pub mod Ties
pub mod Patterns
pub mod Purges
pub mod Listing
pub mod Filter
pub mod Scanner
pub mod MemSize
pub mod Fence
pub mod Due
pub mod Expired
pub mod Hooks
pub mod Aof
pub mod Dispatch
use Group.{Groups, GroupTrees}
use spatialdb_engine.Base.{
  ℕ, ◌+◌, ◌-◌, ◌%◌, ◌^◌, Bool, true, false, Option, none, some, List, [], ◌∷◌, ltb, ◌==◌,
  if◌then◌else◌,
}
use spatialdb_engine.Base.Text.{Str}
use spatialdb_engine.Base.Int.{ℤ, pos, negsuc, pos_part, neg_part}
use spatialdb_engine.Geometry.{Geometry, FieldLists}
use spatialdb_engine.Index.{OrderedMap}
use spatialdb_engine.Object.{Object}
use spatialdb_engine.Collection
use spatialdb_engine.Collection.{Trees, Collection}

-- `Message.OutputType`: JSON, RESP, or one of the other types, for which the commands have no text.
pub data OutputType : Type 0 where
  json resp other : OutputType

abbrev pub is_json : OutputType → Bool
is_json json = true
is_json _ = false

abbrev pub is_resp : OutputType → Bool
is_resp resp = true
is_resp _ = false

pub data Error : Type 0 where
  invalid_number_of_arguments : Error
  invalid_argument : Str → Error
  key_not_found : Error
  id_not_found : Error
  id_already_exists : Error
  key_has_hooks_set : Error
  key_has_channels_set : Error
  out_of_memory : Error
  invalid_geojson : Error
  hooks_and_channels_share_name : Error
  not_the_leader : Error
  read_only_error : Error
  timeout_on_cmd : Str → Error
  -- No Go error: a nil object is dereferenced.
  panic : Error

pub data Result {ℓ} (A : Type ℓ) : Type ℓ where
  ok : A → Result A
  err : Error → Result A

infixl 5 ◌>>=◌
abbrev pub ◌>>=◌ {ℓ κ} : {A : Type ℓ} {B : Type κ} → Result A → (A → Result B) → Result B
ok a >>= f = f a
err e >>= f = err e

-- What a GET, or the RETURN of a SET or FSET, asks for of an object.
pub record View : Type 0 where
  pub kind : Str
  pub precision : ℕ
  pub withfields : Bool

-- `resp.Value`, without the elapsed times. `object` stands for the text that
-- `buildObjectResponse` makes of an object, `value` for the text of a field's value.
pub data Reply (O V : Type 0) : Type 0 where
  nothing : Reply O V
  null : Reply O V
  json_ok : Reply O V
  integer : ℤ → Reply O V
  simple : Str → Reply O V
  bool : Bool → Reply O V
  object : View → O → Reply O V
  value : V → Reply O V

-- The commands' names in `commandDetails`; the zero value has none.
pub data CommandName : Type 0 where
  no_command del drop rename set fset expire persist : CommandName

pub record Details (O : Type 0) : Type 0 where
  pub command : CommandName
  pub key : Str
  pub new_key : Str
  pub obj : Option O
  pub old : Option O
  pub updated : Bool

abbrev pub no_details : {O : Type 0} → Details O
no_details = record {
  command = no_command;
  key = [];
  new_key = [];
  obj = none;
  old = none;
  updated = false;
}

-- A hook or a channel, as far as the data commands look at it.
pub record Hook : Type 0 where
  pub name : Str
  pub key : Str
  pub channel : Bool

-- `a + b` of int64.
unfoldable pub add_int64 : ℤ → ℤ → ℤ
add_int64 a b =
    let u = (pos_part a + (2 ^ 64 - neg_part a) + (pos_part b + (2 ^ 64 - neg_part b))) % 2 ^ 64 in
    if ltb u (2 ^ 63) then pos u else negsuc (2 ^ 64 - u - 1)

-- `a - b` of int64.
unfoldable pub sub_int64 : ℤ → ℤ → ℤ
sub_int64 a b =
    let u = (pos_part a + (2 ^ 64 - neg_part a) + (neg_part b + (2 ^ 64 - pos_part b))) % 2 ^ 64 in
    if ltb u (2 ^ 63) then pos u else negsuc (2 ^ 64 - u - 1)

module _ {G : Geometry} {F : FieldLists} (X : Trees G F) where
  -- `s.cols`, and the trees of the groups.
  pub record Stores : Type 1 where
    pub cols : OrderedMap (Collection X)
    pub groups : GroupTrees

module _ {G : Geometry} {F : FieldLists} {X : Trees G F} (Y : Stores X) where
  -- `oom` is `s.config.maxMemory() > 0 && s.outOfMemory.Load()`.
  pub record Server : Type 0 where
    pub cols : Y.cols.Tree
    pub groups : Groups Y.groups
    pub hooks : List Hook
    pub oom : Bool

  -- A command that writes: the server after it, and its reply and details or its error.
  abbrev pub Outcome : Type 0
  Outcome = Server × Result (Reply (Object G F) F.Value × Details (Object G F))

  abbrev pub Answer : Type 0
  Answer = Result (Reply (Object G F) F.Value)

  abbrev pub col_of : Server → Str → Option (Collection X)
  col_of s key = Y.cols.get s.cols key

  -- A write through the pointer that the tree of collections holds.
  abbrev pub put_col : Server → Str → Collection X → Server
  put_col s key c = record s { cols = (Y.cols.set s.cols key c).0 }

  abbrev pub drop_col : Server → Str → Server
  drop_col s key = record s { cols = (Y.cols.delete s.cols key).0 }

  -- The object of an id in a collection of a key: the abstract content of the server.
  abbrev pub found_in : Option (Collection X) → Str → Option (Object G F)
  found_in none id = none
  found_in (some c) id = Collection.get X c id

  unfoldable pub find : Server → Str → Str → Option (Object G F)
  find s key id = found_in (col_of s key) id
