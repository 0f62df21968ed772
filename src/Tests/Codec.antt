-- ===== src/Tests/Codec.antt =====
-- A concrete encoding of commands: a star, the number of the arguments, and each argument with its
-- bytes raised by two and a 1 behind it.
use mathlib.Core.List.{append_assoc, append-nil}
use spatialdb_engine.Base.{
  ℕ, zero, suc, ◌+◌, ◌-◌, ◌<◌, ◌≡◌, refl, sym, ap, ◌∙◌, false, inl, inr, Option, none, some, List,
  [], ◌∷◌, ◌++◌, arith, ◌==◌, length, if◌then◌else◌, Option-cases,
}
use spatialdb_engine.Base.Text.{Str}
use spatialdb_engine.Glob.{is_empty}
use spatialdb_engine.Server.Aof.{
  Reading, failed, incomplete, complete, Redcon, IsRedcon, append_args, append_command, encode,
}
use spatialdb_engine.Server.Aof.Loaded.{cut_append}

abbrev bulk : Str → Str
bulk [] = 1 ∷ []
bulk (c ∷ arg) = (c + 2) ∷ bulk arg

abbrev bulks : List Str → Str
bulks [] = []
bulks (arg ∷ args) = bulk arg ++ bulks args

abbrev read_byte : ℕ → Option (Str × Str) → Option (Str × Str)
read_byte c none = none
read_byte c (some (arg, rest)) = some ((c - 2) ∷ arg, rest)

abbrev read_arg : Str → Option (Str × Str)
read_arg [] = none
read_arg (c ∷ d) = if c == 1 then some ([], d) else read_byte c (read_arg d)

abbrev put_arg : Str → Option (List Str × Str) → Option (List Str × Str)
put_arg arg none = none
put_arg arg (some (args, rest)) = some (arg ∷ args, rest)

abbrev read_args : ℕ → Str → Option (List Str × Str)
read_args zero d = some ([], d)
read_args (suc n) d = elim (read_arg d) [ none ↦ none | some r ↦ put_arg r.0 (read_args n r.1) ]

abbrev reading_of : Str → Option (List Str × Str) → Reading
reading_of d none = incomplete d
reading_of d (some (args, rest)) = complete args rest

abbrev read_next : Str → Reading
read_next [] = incomplete []
read_next (c ∷ []) = if c == b'*' then incomplete (c ∷ []) else failed
read_next (c ∷ n ∷ d) = if c == b'*' then reading_of (c ∷ n ∷ d) (read_args n d) else failed

abbrev pub codec : Redcon
codec = record {
  read_next = read_next;
  append_array = λ buf n. buf ++ b'*' ∷ n ∷ [];
  append_bulk_string = λ buf arg. buf ++ bulk arg;
}

read_arg-shrinks : (d arg rest : Str) → read_arg d ≡ some (arg, rest) → length rest < length d
read_arg-shrinks [] arg rest e = cc
read_arg-shrinks (c ∷ d) arg rest e = elim (Option-cases (read_arg d)) [
  | inl n ↦ ground (arith, n)
  | inr ((a, r), f) ↦ ground (arith, f, read_arg-shrinks d a r f)
]

read_arg-extends :
    (d x arg rest : Str) → read_arg d ≡ some (arg, rest) → read_arg (d ++ x) ≡ some (arg, rest ++ x)
read_arg-extends [] x arg rest e = cc
read_arg-extends (c ∷ d) x arg rest e = elim (Option-cases (read_arg d)) [
  | inl n ↦ ground (arith, n)
  | inr ((a, r), f) ↦ ground (arith, f, read_arg-extends d x a r f)
]

read_args-shrinks :
    (n : ℕ) (d rest : Str) (args : List Str)
    → read_args n d ≡ some (args, rest)
    → length rest < suc (length d)
read_args-shrinks zero d rest args e = ground arith
read_args-shrinks (suc n) d rest args e = elim (Option-cases (read_arg d)) [
  | inl m ↦ ground (arith, m)
  | inr ((a, r), f) ↦ elim (Option-cases (read_args n r)) [
    | inl m ↦ ground (arith, f, m)
    | inr ((as1, t), g) ↦
        ground (arith, f, g, read_arg-shrinks d a r f, read_args-shrinks n r t as1 g)
  ]
]

read_args-extends :
    (n : ℕ) (d x rest : Str) (args : List Str)
    → read_args n d ≡ some (args, rest)
    → read_args n (d ++ x) ≡ some (args, rest ++ x)
read_args-extends zero d x rest args e = ground arith
read_args-extends (suc n) d x rest args e = elim (Option-cases (read_arg d)) [
  | inl m ↦ ground (arith, m)
  | inr ((a, r), f) ↦ elim (Option-cases (read_args n r)) [
    | inl m ↦ ground (arith, f, m)
    | inr ((as1, t), g) ↦
        ground (arith, f, g, read_arg-extends d x a r f, read_args-extends n r x t as1 g)
  ]
]

read_arg-bulk : (arg x : Str) → read_arg (bulk arg ++ x) ≡ some (arg, x)
read_arg-bulk [] x = refl
read_arg-bulk (c ∷ arg) x = ground (arith, read_arg-bulk arg x)

read_args-bulks : (args : List Str) → read_args (length args) (bulks args) ≡ some (args, [])
read_args-bulks [] = refl
read_args-bulks (arg ∷ args) = ground (arith, read_arg-bulk arg (bulks args), read_args-bulks args)

no_end : (a e : Str) → a ++ e ≡ [] → e ≡ []
no_end [] e h = h
no_end (c ∷ a) e h = cc

read_arg-part : (arg a e : Str) → a ++ e ≡ bulk arg → is_empty e ≡ false → read_arg a ≡ none
read_arg-part arg [] e h n = refl
read_arg-part [] (c ∷ a) e h n = let nothing = no_end a e (cc) in absurd (ground (arith, nothing))
read_arg-part (d ∷ arg) (c ∷ a) e h n = ground (arith, h, read_arg-part arg a e)

read_args-part :
    (args : List Str) (a e : Str)
    → a ++ e ≡ bulks args
    → is_empty e ≡ false
    → read_args (length args) a ≡ none
read_args-part [] a e h n = let nothing = no_end a e h in absurd (ground (arith, nothing))
read_args-part (arg ∷ args) a e h n = elim (cut_append a e (bulk arg) (bulks args) h) [
  | inl (b, m, part) ↦ ground (arith, read_arg-part arg a b part m)
  | inr (b, split, left) ↦
      ground (arith, split, read_arg-bulk arg b, read_args-part args b e left n)
]

append_args-codec : (args : List Str) (buf : Str) → append_args codec buf args ≡ buf ++ bulks args
unfolding append_args
append_args-codec [] buf = sym (append-nil buf)
append_args-codec (arg ∷ args) buf =
    append_args-codec args (buf ++ bulk arg) ∙ append_assoc buf (bulk arg) (bulks args)

encode-codec : (args : List Str) → encode codec args ≡ b'*' ∷ length args ∷ bulks args
unfolding append_command
encode-codec args = append_args-codec args (b'*' ∷ length args ∷ [])

codec-shrinks :
    (d rest : Str) (args : List Str) → read_next d ≡ complete args rest → length rest < length d
codec-shrinks [] rest args e = cc
codec-shrinks (c ∷ []) rest args e = ground arith
codec-shrinks (c ∷ n ∷ d) rest args e = elim (Option-cases (read_args n d)) [
  | inl m ↦ ground (arith, m)
  | inr ((as1, t), g) ↦ ground (arith, g, read_args-shrinks n d t as1 g)
]

codec-keeps : (d rest : Str) → read_next d ≡ incomplete rest → rest ≡ d
codec-keeps [] rest e = cc
codec-keeps (c ∷ []) rest e = ground arith
codec-keeps (c ∷ n ∷ d) rest e = elim (Option-cases (read_args n d)) [
  | inl m ↦ ground (arith, m)
  | inr ((as1, t), g) ↦ ground (arith, g)
]

codec-extends :
    (d x rest : Str) (args : List Str)
    → read_next d ≡ complete args rest
    → read_next (d ++ x) ≡ complete args (rest ++ x)
codec-extends [] x rest args e = cc
codec-extends (c ∷ []) x rest args e = ground arith
codec-extends (c ∷ n ∷ d) x rest args e = elim (Option-cases (read_args n d)) [
  | inl m ↦ ground (arith, m)
  | inr ((as1, t), g) ↦ ground (arith, g, read_args-extends n d x t as1 g)
]

codec-fails : (d x : Str) → read_next d ≡ failed → read_next (d ++ x) ≡ failed
codec-fails [] x e = cc
codec-fails (c ∷ []) [] e = e
codec-fails (c ∷ []) (n ∷ x) e = ground arith
codec-fails (c ∷ n ∷ d) x e = elim (Option-cases (read_args n d)) [
  | inl m ↦ ground (arith, m)
  | inr ((as1, t), g) ↦ ground (arith, g)
]

codec-cut :
    (args : List Str) (a b : Str)
    → a ++ b ≡ b'*' ∷ length args ∷ bulks args
    → is_empty b ≡ false
    → read_next a ≡ incomplete a
codec-cut args [] b e n = refl
codec-cut args (c ∷ []) b e n = ground (arith, e)
codec-cut args (c ∷ m ∷ a) b e n =
    let counted : m ≡ length args = cc in
    rw (counted, read_args-part args a b (cc) n) (ground (arith, e))

pub codec-IsRedcon : IsRedcon codec
codec-IsRedcon = record {
  array_lem = λ buf n. refl;
  bulk_lem = λ buf arg. refl;
  star = λ n. refl;
  shrinks = codec-shrinks;
  keeps = codec-keeps;
  extends = codec-extends;
  fails = codec-fails;
  reads = λ name args.
      rw (encode-codec (name ∷ args)) (ap (reading_of _) (read_args-bulks (name ∷ args)));
  cut = λ name args a b e n. codec-cut (name ∷ args) a b (e ∙ encode-codec (name ∷ args)) n;
}
