-- ===== src/Field/Binary/Reads.antt =====
-- `List.Get` and `List.Scan` on the bytes of a list, and what `Get` finds after a `Set`.
use mathlib.Core.List.{append_assoc}
use spatialdb_engine.Base.{
  ℕ, zero, suc, ◌+◌, ◌^◌, ◌<◌, ◌==◌, ◌≡◌, refl, ap, ◌∙◌, if◌then◌else◌, Option-cases, inl, inr,
  Option, none, some, List, [], ◌∷◌, ◌++◌, drop, length, length-append, drop-append, arith,
}
use spatialdb_engine.Base.Text.{Str, str_eq, str_lt}
use spatialdb_engine.Shared.{Shared, load}
use spatialdb_engine.Field.{Numbers, Json, Field, zero_field, json}
use spatialdb_engine.Field.Binary.{
  ptob, Fields, entry, read_entry, stored_text, entry_bytes, meet, get_step, get_loop, get,
  scan_step, scan_loop, scan, split_dot, bfield,
}
use spatialdb_engine.Field.Binary.Encoding.{
  IsStored, Encodes, read_entry-bytes, read_entry-end, Encodes-length,
}
use spatialdb_engine.Collection.Walk.{Visit, feed}

module _ {N : Numbers} where
  -- `Get` of a list of fields: the first field of the name, in front of every greater name.
  abbrev pub find_name : Str → List (Field N) → Field N
  find_name name [] = zero_field N
  find_name name (f ∷ l) =
      let rest = find_name name l in
      if str_lt name f.name
      then zero_field N
      else if str_eq f.name name
      then bfield name f.value.kind (stored_text f)
      else rest

  -- The search of a name with a dot at one field: a JSON field of the name in front of the dot gives
  -- what the path behind the dot leads to, and a field of the whole name that is not JSON gives itself;
  -- a JSON field whose name is greater than the front ends the search, as does another whose name is
  -- greater than the whole; and else the `rest` of the fields decides.
  abbrev pub path_step : Json → Str → Str → Str → Field N → Field N → Field N
  path_step J front path name f rest =
      if f.value.kind == json
      then (if str_lt front f.name
          then zero_field N
          else if str_eq f.name front
          then (elim (J.get_path (stored_text f) path) [
            | none ↦ rest
            | some (k, s) ↦ bfield name k s
          ])
          else rest)
      else if str_lt name f.name
      then zero_field N
      else if str_eq f.name name
      then bfield name f.value.kind (stored_text f)
      else rest

  abbrev pub find_path : Json → Str → Str → Str → List (Field N) → Field N
  find_path J front path name [] = zero_field N
  find_path J front path name (f ∷ l) =
      path_step J front path name f (find_path J front path name l)

  abbrev pub find_field : Json → Option (Str × Str) → Str → List (Field N) → Field N
  find_field J none name l = find_name name l
  find_field J (some (front, path)) name l = find_path J front path name l

  -- What a field that is met does to the search.
  abbrev or_rest : Option (Field N) → Field N → Field N
  or_rest none rest = rest
  or_rest (some f) rest = f

  path_step-meet :
      (J : Json) (front path name : Str) (f rest : Field N)
      → path_step J front path name f rest
        ≡ or_rest (meet J (some (front, path)) name f.name f.value.kind (stored_text f)) rest
  unfolding meet
  path_step-meet J front path name f rest = elim (Option-cases (J.get_path (stored_text f) path)) [
    | inl n ↦ rw n (ground arith)
    | inr (r, n) ↦ rw n (ground arith)
  ]

  name_step-meet :
      (J : Json) (name : Str) (f rest : Field N)
      → (if str_lt name f.name
          then zero_field N
          else if str_eq f.name name
          then bfield name f.value.kind (stored_text f)
          else rest)
        ≡ or_rest (meet J none name f.name f.value.kind (stored_text f)) rest
  unfolding meet
  name_step-meet J name f rest = ground arith

  find_field-meet :
      (J : Json) (split : Option (Str × Str)) (name : Str) (f : Field N) (l : List (Field N))
      → find_field J split name (f ∷ l)
        ≡ or_rest
            (meet J split name f.name f.value.kind (stored_text f))
            (find_field J split name l)
  find_field-meet J none name f l = name_step-meet J name f (find_name name l)
  find_field-meet J (some (front, path)) name f l =
      path_step-meet J front path name f (find_path J front path name l)

  find_field-nil :
      (J : Json) (split : Option (Str × Str)) (name : Str)
      → find_field J split name [] ≡ zero_field N
  find_field-nil J none name = refl
  find_field-nil J (some split) name = refl

  met_or_rest :
      (m : Option (Field N)) (y : Option (Field N)) (x : Field N)
      → y ≡ some x
      → elim m [ some f ↦ some f | none ↦ y ] ≡ some (or_rest m x)
  met_or_rest none y x h = h
  met_or_rest (some f) y x h = refl

  read-behind :
      (sh : Shared) (num : ℕ) (P tail : Str) (f : Field N)
      → load sh num ≡ some f.name
      → num < 2 ^ 64
      → IsStored f
      → read_entry sh (drop (length P) (P ++ (entry_bytes num f ++ tail)))
        ≡ entry f.name f.value.kind (stored_text f) (length (entry_bytes num f))
  read-behind sh num P tail f named small kept =
      ap (read_entry sh) (drop-append P (entry_bytes num f ++ tail))
      ∙ read_entry-bytes sh num f tail named small kept.fits

  get_loop-Encodes :
      (J : Json) (sh : Shared) (split : Option (Str × Str)) (name : Str) (l : List (Field N))
      (P b : Str) (fuel : ℕ)
      → Encodes sh l b
      → length l < fuel
      → get_loop J sh split name fuel (P ++ b) (length P) ≡ some (find_field J split name l)
  unfolding get_loop get_step
  get_loop-Encodes J sh split name l P b zero e h = absurd (omega arith)
  get_loop-Encodes J sh split name [] P b (suc fuel) e h =
      rw (drop-append P b, e, read_entry-end sh, find_field-nil J split name) refl
  get_loop-Encodes J sh split name (f ∷ l) P b (suc fuel) (num, tail, named, small, kept, at, rest)
        h =
      let ih =
        get_loop-Encodes J sh split name l (P ++ entry_bytes num f) tail fuel rest (omega arith) in
      let ih' : get_loop {N = N} J sh split name fuel (P ++ (entry_bytes num f ++ tail))
            (length P + length (entry_bytes num f))
          ≡ some (find_field J split name l) =
        rw (← append_assoc P (entry_bytes num f) tail, ← length-append P (entry_bytes num f)) ih in
      rw (at, read-behind sh num P tail f named small kept, find_field-meet J split name f l)
        (met_or_rest (meet {N = N} J split name f.name f.value.kind (stored_text f)) _ _ ih')

  -- `Get` in terms of the split of its name.
  pub get-find_field :
      (J : Json) (sh : Shared) (fs : Fields) (l : List (Field N)) (name : Str)
      → Encodes sh l (ptob fs)
      → get J sh fs name ≡ some (find_field J (split_dot name) name l)
  unfolding get
  get-find_field J sh fs l name e =
      get_loop-Encodes J sh (split_dot name) name l [] (ptob fs) (suc (length (ptob fs))) e
        (omega (arith, Encodes-length sh l (ptob fs) e))

  scan_loop-Encodes :
      {S : Type 0} (sh : Shared) (iter : Visit (Field N) S) (l : List (Field N)) (P b : Str)
      (fuel : ℕ) (s : S)
      → Encodes sh l b
      → length l < fuel
      → scan_loop sh iter fuel (P ++ b) (length P) s ≡ some (feed iter l s).1
  unfolding scan_loop scan_step feed
  scan_loop-Encodes sh iter l P b zero s e h = absurd (omega arith)
  scan_loop-Encodes sh iter [] P b (suc fuel) s e h =
      rw (drop-append P b, e, read_entry-end sh) refl
  scan_loop-Encodes sh iter (f ∷ l) P b (suc fuel) s (num, tail, named, small, kept, at, rest) h =
      let ih =
        scan_loop-Encodes sh iter l (P ++ entry_bytes num f) tail fuel (iter f s).1 rest
          (omega arith) in
      let ih' : scan_loop {N = N} sh iter fuel (P ++ (entry_bytes num f ++ tail))
            (length P + length (entry_bytes num f)) (iter f s).1
          ≡ some (feed iter l (iter f s).1).1 =
        rw (← append_assoc P (entry_bytes num f) tail, ← length-append P (entry_bytes num f)) ih in
      rw (at, read-behind sh num P tail f named small kept, kept.canonical) (ground (arith, ih'))

  -- `Scan` gives its iterator the fields of the list in their order, until the iterator stops it.
  pub scan-Encodes :
      {S : Type 0} (sh : Shared) (fs : Fields) (l : List (Field N)) (iter : Visit (Field N) S)
      (s : S)
      → Encodes sh l (ptob fs)
      → scan sh fs iter s ≡ some (feed iter l s).1
  unfolding scan
  scan-Encodes sh fs l iter s e =
      scan_loop-Encodes sh iter l [] (ptob fs) (suc (length (ptob fs))) s e
        (omega (arith, Encodes-length sh l (ptob fs) e))
