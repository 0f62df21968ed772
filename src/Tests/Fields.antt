-- ===== src/Tests/Fields.antt =====
-- The theorems on fields and on the table of shared strings at concrete inputs.
use spatialdb_engine.Base.{
  ℕ, ◌+◌, ◌-◌, ◌<◌, ◌^◌, ◌≡◌, refl, sym, ◌∙◌, true, false, none, some, [], ◌∷◌, ◌++◌, length, ltb,
  ◌==◌, arith,
}
use spatialdb_engine.Varint.RoundTrip.{put_uvarint_small}
use mathlib.Core.List.{append-nil}
use spatialdb_engine.Collection.Walk.{Visit, feed}
use spatialdb_engine.Base.Text.{Str, codes, str_eq}
use spatialdb_engine.Shared.{Shared, no_shared, load, store, IsShared, load-store}
use spatialdb_engine.Field.{Numbers, Json, Field, string}
use spatialdb_engine.Field.Binary.{
  Fields, ptob, with_header, bfield, stored_text, payload, entry_bytes, set, get, scan, split_dot,
}
use spatialdb_engine.Field.Binary.Encoding.{IsStored, Encodes, ptob-with_header}
use spatialdb_engine.Field.Binary.Update.{insert_field, set-Encodes}
use spatialdb_engine.Field.Binary.Length.{len, len-Encodes}
use spatialdb_engine.Field.Binary.Reads.{scan-Encodes}
use spatialdb_engine.Field.Binary.Found.{found_field, get-Encodes}
use spatialdb_engine.Field.Binary.Names.{NamesSorted, Written}
use spatialdb_engine.Field.Binary.Map.{IsList, get-set-Written}

pub digit : Str → ℕ
digit [] = 0
digit (c ∷ s) = c - b'0'

abbrev pub numbers : Numbers
numbers = record {
  F64 = ℕ;
  zero = 0;
  less = ltb;
  equal = λ a b. a == b;
  is_nan = λ x. false;
  inf_sign = λ x. none;
  nan = 0;
  pinf = 0;
  ninf = 0;
  parse_float = λ s. some (digit s);
  parse_float_lax = digit;
}

abbrev pub texts : Json
texts = record {
  valid = λ s. false;
  type_of = λ s. 0;
  string_of = λ s. s;
  ugly = λ s. s;
  quote = λ s. b'"' ∷ (s ++ b'"' ∷ []);
  trim = λ s. s;
  lower = λ s. s;
  get_path = λ s path. none;
}

abbrev text_field : Str → Str → Field numbers
text_field name text = record {
  name = name;
  value = record { kind = string; text = text; num = 0 };
}

abbrev owner : Field numbers
owner = text_field (codes "owner") (codes "ann")

abbrev new_owner : Field numbers
new_owner = text_field (codes "owner") (codes "bo")

owner-IsStored : IsStored owner
unfolding bfield stored_text
owner-IsStored = record { canonical = refl; fits = omega arith }

new_owner-IsStored : IsStored new_owner
unfolding bfield stored_text
new_owner-IsStored = record { canonical = refl; fits = omega arith }

no_shared-IsShared : IsShared no_shared
no_shared-IsShared = record { numbered = λ s num e. cc }

abbrev table : Shared
table = (store no_shared (codes "owner")).0

table-IsShared : IsShared table
table-IsShared = (load-store no_shared (codes "owner") no_shared-IsShared).0

load-store_example :
    IsShared table
    × (load table (store no_shared (codes "owner")).1 ≡ some (codes "owner"))
    × ((num : ℕ) (s : Str) → load no_shared num ≡ some s → load table num ≡ some s)
load-store_example = load-store no_shared (codes "owner") no_shared-IsShared

abbrev one_field : Fields
one_field = with_header (entry_bytes 0 owner)

owner-bytes : entry_bytes 0 owner ≡ 0 ∷ string ∷ 3 ∷ codes "ann"
unfolding entry_bytes payload
owner-bytes = rw (put_uvarint_small 0 (omega arith), put_uvarint_small 3 (omega arith)) refl

new_owner-bytes : entry_bytes 0 new_owner ≡ 0 ∷ string ∷ 2 ∷ codes "bo"
unfolding entry_bytes payload
new_owner-bytes = rw (put_uvarint_small 0 (omega arith), put_uvarint_small 2 (omega arith)) refl

one_field-bytes : ptob one_field ≡ entry_bytes 0 owner
one_field-bytes = ptob-with_header (entry_bytes 0 owner) (rw owner-bytes (omega arith))

one_field-Encodes : Encodes table (owner ∷ []) (ptob one_field)
unfolding store load str_eq
one_field-Encodes = (
  0,
  [],
  refl,
  omega arith,
  owner-IsStored,
  one_field-bytes ∙ sym (append-nil (entry_bytes 0 owner)),
  refl,
)

owner_num : (store table (codes "owner")).1 ≡ 0
unfolding store str_eq
owner_num = refl

owner_room : (store table (codes "owner")).1 < 2 ^ 64
owner_room = rw owner_num (omega arith)

owner_size :
    length (ptob one_field) + length (entry_bytes (store table (codes "owner")).1 new_owner)
    < 2 ^ 64
owner_size = rw (owner_num, one_field-bytes, owner-bytes, new_owner-bytes) (omega arith)

set-Encodes_example :
    (sh' : Shared) × (fs' : Fields) × (set table one_field new_owner ≡ some (sh', fs'))
    × Encodes sh' (insert_field new_owner (owner ∷ [])) (ptob fs')
    × IsShared sh'
    × ((num : ℕ) (s : Str) → load table num ≡ some s → load sh' num ≡ some s)
set-Encodes_example =
    set-Encodes table new_owner table-IsShared new_owner-IsStored owner_room one_field (owner ∷ [])
      one_field-Encodes owner_size

get-Encodes_example :
    get texts table one_field (codes "owner")
    ≡ some (found_field texts (codes "owner") (owner ∷ []))
get-Encodes_example =
    get-Encodes texts table one_field (owner ∷ []) (codes "owner") one_field-Encodes

last_name : Visit (Field numbers) Str
last_name f s = (true, f.name)

scan-Encodes_example : scan table one_field last_name [] ≡ some (feed last_name (owner ∷ []) []).1
scan-Encodes_example = scan-Encodes table one_field (owner ∷ []) last_name [] one_field-Encodes

owner-NamesSorted : NamesSorted (owner ∷ [])
owner-NamesSorted = (tt, tt)

owner-plain : split_dot (codes "owner") ≡ none
unfolding split_dot
owner-plain = refl

get-set-Written_example :
    (sh' : Shared) × (fs' : Fields) × (set table one_field new_owner ≡ some (sh', fs'))
    × IsShared sh'
    × IsList numbers sh' fs'
    × ((other : Fields) → IsList numbers table other → IsList numbers sh' other)
    × ((g : Field numbers) × (get texts sh' fs' (codes "owner") ≡ some g) × Written new_owner g)
    × ((name : Str)
        → split_dot name ≡ none
        → str_eq (codes "owner") name ≡ false
        → get {N = numbers} texts sh' fs' name ≡ get texts table one_field name)
get-set-Written_example =
    get-set-Written texts table new_owner one_field table-IsShared new_owner-IsStored
      (owner ∷ [], one_field-Encodes, owner-NamesSorted) owner-plain owner_room owner_size

len-Encodes_example : len one_field ≡ some (length (owner ∷ []))
len-Encodes_example = len-Encodes table one_field (owner ∷ []) one_field-Encodes
