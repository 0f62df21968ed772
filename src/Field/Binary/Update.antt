-- ===== src/Field/Binary/Update.antt =====
-- `List.Set` on the bytes is the update of a sorted list of fields.
use mathlib.Core.List.{append_assoc}
use spatialdb_engine.Base.{
  ℕ, zero, suc, ◌+◌, ◌^◌, ◌<◌, ◌≤◌, ◌≡◌, refl, ap, Option, some, List, [], ◌∷◌, ◌++◌, drop, length,
  length-append, drop-append, take-append, arith, if◌then◌else◌, Bool-cases, inl, inr,
}
use spatialdb_engine.Base.Text.{Str, str_eq, str_lt}
use spatialdb_engine.Shared.{Shared, load, store, IsShared, load-store}
use spatialdb_engine.Field.{Numbers, Field, is_zero, equals}
use spatialdb_engine.Field.Binary.{
  ptob, with_header, Fields, entry_bytes, Action, panic, unchanged, cut, put, set_same, set_new,
  set_step, set_loop, act, keep_header, set,
}
use spatialdb_engine.Field.Binary.Encoding.{
  IsStored, Encodes, ptob-with_header, read_entry-bytes, read_entry-end, Encodes-length,
  Encodes-keeps,
}

module _ {N : Numbers} where
  -- The update of a list of fields, as `Set` is meant: the fields stay in the order of their names, a
  -- zero value removes its field, and a value that equals the old one changes nothing.
  unfoldable pub insert_field : Field N → List (Field N) → List (Field N)
  insert_field f [] = if is_zero f.value then [] else f ∷ []
  insert_field f (e ∷ l) =
      if str_lt f.name e.name
      then if is_zero f.value then e ∷ l else f ∷ e ∷ l
      else if str_eq e.name f.name
      then (if is_zero f.value then l else if equals e.value f.value then e ∷ l else f ∷ l)
      else e ∷ insert_field f l

  module _ (sh : Shared) (f : Field N) (right : IsShared sh) (stored : IsStored f)
      (room : (store sh f.name).1 < 2 ^ 64) where
    -- The action is done: behind `P` stand the bytes of the fields `l`.
    -- in place of `old`.
    abbrev Done : Str → Str → List (Field N) → Option (Shared × Str) → Type 0
    Done P old l r =
        (sh' : Shared) × (b : Str) × (r ≡ some (sh', P ++ b))
        × Encodes sh' l b
        × IsShared sh'
        × ((num : ℕ) (s : Str) → load sh num ≡ some s → load sh' num ≡ some s)
        × (length b ≤ length old + length (entry_bytes (store sh f.name).1 f))

    drop-two : (P E rest : Str) → drop (length P + length E) (P ++ (E ++ rest)) ≡ rest
    drop-two P E rest =
        rw (← append_assoc P E rest, ← length-append P E) (drop-append (P ++ E) rest)

    act-put :
        (P E rest : Str)
        → act sh f (P ++ (E ++ rest)) (put (length P) (length P + length E))
          ≡ some ((store sh f.name).0, P ++ (entry_bytes (store sh f.name).1 f ++ rest))
    unfolding act
    act-put P E rest = rw (take-append P (E ++ rest), drop-two P E rest) refl

    act-cut :
        (P E rest : Str)
        → act sh f (P ++ (E ++ rest)) (cut (length P) (length P + length E)) ≡ some (sh, P ++ rest)
    unfolding act
    act-cut P E rest = rw (take-append P (E ++ rest), drop-two P E rest) refl

    Done-put :
        (P E rest : Str) (l : List (Field N)) (j : ℕ)
        → j ≡ length P + length E
        → Encodes sh l rest
        → Done P (E ++ rest) (f ∷ l) (act sh f (P ++ (E ++ rest)) (put (length P) j))
    Done-put P E rest l j here e =
        let (right', named, keeps) = load-store sh f.name right in
        (
          (store sh f.name).0,
          entry_bytes (store sh f.name).1 f ++ rest,
          rw here (act-put P E rest),
          (
            (store sh f.name).1,
            rest,
            named,
            room,
            stored,
            refl,
            Encodes-keeps sh (store sh f.name).0 keeps l rest e,
          ),
          right',
          keeps,
          omega
              (arith, length-append (entry_bytes (store sh f.name).1 f) rest, length-append E rest),
        )

    Done-same :
        (P b : Str) (l : List (Field N)) → Encodes sh l b → Done P b l (act sh f (P ++ b) unchanged)
    unfolding act
    Done-same P b l e = (sh, b, refl, e, right, λ num s h. h, omega arith)

    Done-new :
        (P b : Str) (l : List (Field N))
        → Encodes sh l b
        → Done P b (if is_zero f.value then l else f ∷ l) (act sh f (P ++ b) (set_new f (length P)))
    unfolding set_new
    Done-new P b l e = elim (Bool-cases (is_zero f.value)) [
      | inl t ↦ rw t (Done-same P b l e)
      | inr n ↦ rw n (Done-put P [] b l (length P) (omega arith) e)
    ]

    Done-set_same :
        (P E rest : Str) (e : Field N) (l : List (Field N))
        → Encodes sh (e ∷ l) (E ++ rest)
        → Encodes sh l rest
        → Done P
            (E ++ rest)
            (if is_zero f.value then l else if equals e.value f.value then e ∷ l else f ∷ l)
            (act sh f (P ++ (E ++ rest)) (set_same f e (length P) (length P + length E)))
    unfolding set_same
    Done-set_same P E rest e l all behind = elim (Bool-cases (is_zero f.value)) [
      | inl t ↦ rw t (
        sh,
        rest,
        act-cut P E rest,
        behind,
        right,
        λ num s h. h,
        omega (arith, length-append E rest),
      )
      | inr n ↦ elim (Bool-cases (equals e.value f.value)) [
        | inl t ↦ rw (n, t) (Done-same P (E ++ rest) (e ∷ l) all)
        | inr m ↦ rw (n, m) (Done-put P E rest l (length P + length E) refl behind)
      ]
    ]

    -- The round at a field `e` with the bytes `E`.
    set_loop-entry :
        (fuel num : ℕ) (P tail : Str) (e : Field N)
        → load sh num ≡ some e.name
        → num < 2 ^ 64
        → IsStored e
        → set_loop sh f (suc fuel) (P ++ (entry_bytes num e ++ tail)) (length P) ≡ (
            if str_lt f.name e.name
            then set_new f (length P)
            else if str_eq e.name f.name
            then set_same f e (length P) (length P + length (entry_bytes num e))
            else set_loop sh f fuel
                (P ++ (entry_bytes num e ++ tail))
                (length P + length (entry_bytes num e)))
    unfolding set_loop set_step
    set_loop-entry fuel num P tail e named small kept =
        rw
          (
            drop-append P (entry_bytes num e ++ tail),
            read_entry-bytes sh num e tail named small kept.fits,
            kept.canonical,
          )
          refl

    set_loop-Done :
        (l : List (Field N)) (P b : Str) (fuel : ℕ)
        → Encodes sh l b
        → length l < fuel
        → Done P b (insert_field f l) (act sh f (P ++ b) (set_loop sh f fuel (P ++ b) (length P)))
    unfolding insert_field set_loop set_step
    set_loop-Done l P b zero e h = absurd (omega arith)
    set_loop-Done [] P b (suc fuel) e h =
        rw (drop-append P b, e, read_entry-end sh) (Done-new P [] [] refl)
    set_loop-Done (e ∷ l) P b (suc fuel) (num, tail, named, small, kept, at, rest) h =
        let E = entry_bytes num e in
        let all : Encodes sh (e ∷ l) (E ++ tail) = (num, tail, named, small, kept, refl, rest) in
        rw (at, set_loop-entry fuel num P tail e named small kept)
          (elim (Bool-cases (str_lt f.name e.name)) [
            | inl t ↦ rw t (Done-new P (E ++ tail) (e ∷ l) all)
            | inr n ↦ elim (Bool-cases (str_eq e.name f.name)) [
              | inl t ↦ rw (n, t) (Done-set_same P E tail e l all rest)
              | inr m ↦
                  let (sh', b', done, enc, right', keeps, short) =
                    set_loop-Done l (P ++ E) tail fuel rest (omega arith) in
                  rw (n, m)
                    (
                      sh',
                      E ++ b',
                      rw (← append_assoc P E tail, ← length-append P E, ← append_assoc P E b') done,
                      (num, b', keeps num e.name named, small, kept, refl, enc),
                      right',
                      keeps,
                      omega (arith, length-append E b', length-append E tail, short),
                    )
            ]
          ])

    kept_header :
        (l : List (Field N)) (fs : Fields) (a : Action) (sh' : Shared) (b' : Str)
        → act sh f (ptob fs) a ≡ some (sh', b')
        → Encodes sh' l b'
        → IsShared sh'
        → ((num : ℕ) (s : Str) → load sh num ≡ some s → load sh' num ≡ some s)
        → length b' < 2 ^ 64
        → (sh2 : Shared) × (fs' : Fields) × (keep_header fs a (act sh f (ptob fs) a)
            ≡ some (sh2, fs'))
          × Encodes sh2 l (ptob fs')
          × IsShared sh2
          × ((num : ℕ) (s : Str) → load sh num ≡ some s → load sh2 num ≡ some s)
    unfolding act
    kept_header l fs panic sh' b' done enc right' keeps h = cc
    kept_header l fs unchanged sh' b' done enc right' keeps h =
        let same : b' ≡ ptob fs = cc in (sh', fs, cc, rw (← same) enc, right', keeps)
    kept_header l fs (cut i j) sh' b' done enc right' keeps h = (
      sh',
      with_header b',
      ap (keep_header fs (cut i j)) done,
      rw (ptob-with_header b' h) enc,
      right',
      keeps,
    )
    kept_header l fs (put i j) sh' b' done enc right' keeps h = (
      sh',
      with_header b',
      ap (keep_header fs (put i j)) done,
      rw (ptob-with_header b' h) enc,
      right',
      keeps,
    )

    -- `Set` on the bytes of a list never panics. It gives the bytes of the updated list of fields, over
    -- a table that is right and reads every other list as before.
    pub set-Encodes :
        (fs : Fields) (l : List (Field N))
        → Encodes sh l (ptob fs)
        → length (ptob fs) + length (entry_bytes (store sh f.name).1 f) < 2 ^ 64
        → (sh' : Shared) × (fs' : Fields) × (set sh fs f ≡ some (sh', fs'))
          × Encodes sh' (insert_field f l) (ptob fs')
          × IsShared sh'
          × ((num : ℕ) (s : Str) → load sh num ≡ some s → load sh' num ≡ some s)
    unfolding set
    set-Encodes fs l e small =
        let b = ptob fs in
        let (sh', b', done, enc, right', keeps, short) =
          set_loop-Done l [] b (suc (length b)) e (omega (arith, Encodes-length sh l b e)) in
        kept_header _ fs (set_loop sh f (suc (length b)) b 0) sh' b' done enc right' keeps
          (omega (arith, short))
