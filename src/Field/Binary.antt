-- ===== src/Field/Binary.antt =====
-- internal/legacy/field/list_binary.go: a list of fields as one block of bytes, with the names of
-- the fields in the table of shared strings. `none` is the panic of an index out of range, or of a
-- number that the table does not have.
pub mod Encoding
pub mod Update
pub mod Reads
pub mod Found
pub mod Names
pub mod Map
pub mod Length
use spatialdb_engine.Base.{
  ℕ, zero, suc, ◌+◌, ◌≡◌, Bool, true, false, not, ◌&&◌, ◌||◌, Option, none, some, List, [], ◌∷◌,
  ◌++◌, take, drop, length, leb, ◌==◌, if◌then◌else◌,
}
use spatialdb_engine.Base.Text.{Str, codes, str_eq, str_lt}
use spatialdb_engine.Varint.{put_uvarint, uvarint}
use spatialdb_engine.Shared.{Shared, load, store, IsShared}
use spatialdb_engine.Field.{
  Numbers, Json, Value, Field, zero_field, is_zero, equals, null, false_kind, true_kind, number,
  string, json,
}
use spatialdb_engine.Collection.Walk.{Visit}

abbrev pub datakind : ℕ → Bool
datakind kind = kind == number || kind == string || kind == json

-- `List`: a nil pointer, or the bytes at it, the size first.
abbrev pub Fields : Type 0
Fields = Option Str

-- `ptob`. The size takes at most the ten bytes that it is read from.
unfoldable pub ptob : Fields → Str
ptob none = []
ptob (some p) = let (x, n) = uvarint p in take x (drop n p)

-- The header and the content of a new list.
unfoldable pub with_header : Str → Fields
with_header [] = none
with_header (c ∷ s) = some (put_uvarint (length (c ∷ s)) ++ c ∷ s)

-- What a round of the loops reads at its index: the end, a field with the number of its bytes, or a
-- panic.
pub data Read : Type 0 where
  finish fault : Read
  entry : Str → ℕ → Str → ℕ → Read

unfoldable pub read_data : Str → ℕ → ℕ → Str → Read
read_data name kind used rest =
    let (x, n) = uvarint rest in
    if leb (n + x) (length rest)
    then entry name kind (take x (drop n rest)) (used + (n + x))
    else fault

unfoldable pub read_kind : Str → ℕ → Str → Read
unfolding read_data
read_kind name n [] = fault
read_kind name n (kind ∷ rest) =
    if datakind kind then read_data name kind (n + 1) rest else entry name kind [] (n + 1)

unfoldable pub read_name : Option Str → ℕ → Str → Read
unfolding read_kind
read_name none n rest = fault
read_name (some name) n rest = read_kind name n rest

unfoldable pub read_entry : Shared → Str → Read
unfolding read_name
read_entry sh rest =
    let (x, n) = uvarint rest in if n == 0 then finish else read_name (load sh x) n (drop n rest)

-- What `Set` does with the bytes: nothing, `delfield(b, s, e)` or `putfield(b, field, s, e)`.
pub data Action : Type 0 where
  panic unchanged : Action
  cut put : ℕ → ℕ → Action

-- `name[:dot]` and `name[dot+1:]`.
unfoldable pub split_dot : Str → Option (Str × Str)
split_dot [] = none
split_dot (c ∷ s) =
    if c == b'.'
    then some ([], s)
    else elim (split_dot s) [ none ↦ none | some (a, b) ↦ some (c ∷ a, b) ]

abbrev pub before_path : Option (Str × Str) → Str → Bool
before_path none fname = false
before_path (some (jname, jpath)) fname = str_lt jname fname

abbrev pub is_split : Option (Str × Str) → Bool
is_split none = false
is_split (some split) = true

abbrev pub keep_header : Fields → Action → Option (Shared × Str) → Option (Shared × Fields)
keep_header l a none = none
keep_header l unchanged (some (sh, b)) = some (sh, l)
keep_header l a (some (sh, b)) = some (sh, with_header b)

module _ {N : Numbers} where
  unfoldable pub bfield : Str → ℕ → Str → Field N
  bfield name kind text = record {
    name = name;
    value = record {
      kind = kind;
      text =
          if kind == null
          then codes "null"
          else if kind == false_kind
          then codes "false"
          else if kind == true_kind
          then codes "true"
          else text;
      num = if kind == number then N.parse_float_lax text else N.zero;
    };
  }

  unfoldable pub set_same : Field N → Field N → ℕ → ℕ → Action
  set_same f prev s e =
      if is_zero f.value then cut s e else if equals prev.value f.value then unchanged else put s e

  unfoldable pub set_new : Field N → ℕ → Action
  set_new f i = if is_zero f.value then unchanged else put i i

  -- A round at index `s`, and the rounds from the index behind it.
  unfoldable pub set_step : Field N → ℕ → Read → (ℕ → Action) → Action
  unfolding set_same set_new
  set_step f s finish next = set_new f s
  set_step f s fault next = panic
  set_step f s (entry name kind text used) next =
      if str_lt f.name name
      then set_new f s
      else if str_eq name f.name
      then set_same f (bfield name kind text) s (s + used)
      else next (s + used)

  -- The loop of `Set`. Each round reads a byte at least, so that the length of the bytes, and one
  -- round for the end, is fuel enough.
  unfoldable pub set_loop : Shared → Field N → ℕ → Str → ℕ → Action
  unfolding set_step
  set_loop sh f zero b i = panic
  set_loop sh f (suc fuel) b i = set_step f i (read_entry sh (drop i b)) (set_loop sh f fuel b)

  unfoldable pub stored_text : Field N → Str
  stored_text f = if datakind f.value.kind then f.value.text else []

  unfoldable pub payload : Field N → Str
  payload f =
      if datakind f.value.kind then put_uvarint (length f.value.text) ++ f.value.text else []

  -- The bytes of a field whose name has the number `num`.
  unfoldable pub entry_bytes : ℕ → Field N → Str
  unfolding payload
  entry_bytes num f = put_uvarint num ++ (f.value.kind ∷ payload f)

  -- The table and the content after an action.
  unfoldable pub act : Shared → Field N → Str → Action → Option (Shared × Str)
  unfolding entry_bytes
  act sh f b panic = none
  act sh f b unchanged = some (sh, b)
  act sh f b (cut s e) = some (sh, take s b ++ drop e b)
  act sh f b (put s e) =
      let (sh', num) = store sh f.name in some (sh', take s b ++ (entry_bytes num f ++ drop e b))

  -- `List.Set`.
  unfoldable pub set : Shared → Fields → Field N → Option (Shared × Fields)
  unfolding set_loop act
  set sh l f =
      let b = ptob l in let a = set_loop sh f (suc (length b)) b 0 in keep_header l a (act sh f b a)

  abbrev pub path_of : Json → Option (Str × Str) → Str → Str → Str → Option (Field N)
  path_of J none name fname text = none
  path_of J (some (jname, jpath)) name fname text =
      if str_eq fname jname
      then elim (J.get_path text jpath) [ none ↦ none | some (k, s) ↦ some (bfield name k s) ]
      else none

  -- A field that `Get` meets: what it answers, or `none` to go on.
  unfoldable pub meet : Json → Option (Str × Str) → Str → Str → ℕ → Str → Option (Field N)
  meet J split name fname kind text =
      if kind == json && is_split split
      then if before_path split fname then some (zero_field N) else path_of J split name fname text
      else if str_lt name fname
      then some (zero_field N)
      else if str_eq fname name
      then some (bfield name kind text)
      else none

  unfoldable pub get_step :
      Json → Option (Str × Str) → Str → ℕ → Read → (ℕ → Option (Field N)) → Option (Field N)
  unfolding meet
  get_step J split name i finish next = some (zero_field N)
  get_step J split name i fault next = none
  get_step J split name i (entry fname kind text used) next =
      elim (meet J split name fname kind text) [ some f ↦ some f | none ↦ next (i + used) ]

  unfoldable pub get_loop :
      Json → Shared → Option (Str × Str) → Str → ℕ → Str → ℕ → Option (Field N)
  unfolding get_step
  get_loop J sh split name zero b i = none
  get_loop J sh split name (suc fuel) b i =
      get_step J split name i (read_entry sh (drop i b)) (get_loop J sh split name fuel b)

  -- `List.Get`.
  unfoldable pub get : Json → Shared → Fields → Str → Option (Field N)
  unfolding get_loop
  get J sh l name = let b = ptob l in get_loop J sh (split_dot name) name (suc (length b)) b 0

  unfoldable pub scan_step :
      {S : Type 0} → Visit (Field N) S → ℕ → S → Read → (ℕ → S → Option S) → Option S
  scan_step iter i s finish next = some s
  scan_step iter i s fault next = none
  scan_step iter i s (entry name kind text used) next =
      let (more, s') = iter (bfield name kind text) s in
      if more then next (i + used) s' else some s'

  unfoldable pub scan_loop : {S : Type 0} → Shared → Visit (Field N) S → ℕ → Str → ℕ → S → Option S
  unfolding scan_step
  scan_loop sh iter zero b i s = none
  scan_loop sh iter (suc fuel) b i s =
      scan_step iter i s (read_entry sh (drop i b)) (scan_loop sh iter fuel b)

  -- `List.Scan`, with the state of its iterator.
  unfoldable pub scan : {S : Type 0} → Shared → Fields → Visit (Field N) S → S → Option S
  unfolding scan_loop
  scan sh l iter s = let b = ptob l in scan_loop sh iter (suc (length b)) b 0 s

  -- `MakeList`.
  unfoldable pub make_list : Shared → Fields → List (Field N) → Option (Shared × Fields)
  make_list sh l [] = some (sh, l)
  make_list sh l (f ∷ fs) = elim (set sh l f) [ none ↦ none | some (sh', l') ↦ make_list sh' l' fs ]

-- `List.Weight`: the size and the bytes of the size.
unfoldable pub weight : Fields → ℕ
weight none = 0
weight (some p) = let (x, n) = uvarint p in x + n
