-- ===== src/Server/Aof/Chunks.antt =====
-- `loadAOF` of internal/legacy/server/aof.go does not depend on how the file comes in packets.
use mathlib.Core.List.{append_assoc, append-nil}
use spatialdb_engine.Base.{
  ℕ, zero, suc, ◌+◌, ◌<◌, ◌≡◌, refl, sym, ap, ◌∙◌, false, Option, List, [], ◌∷◌, ◌++◌, arith, ◌==◌,
  length, drop, if◌then◌else◌, length-append, Bool-cases, inl, inr,
}
use spatialdb_engine.Base.Text.{Str}
use spatialdb_engine.Server.{Error}
use spatialdb_engine.Server.Aof.{
  Reading, failed, incomplete, complete, Redcon, IsRedcon, Load, done, stopped, corrupt, ◌>>=◌,
  starts_with_zero, load_command, read_commands, read_all, load_packets, load_end, load_aof, encode,
  Starts,
}
use spatialdb_engine.Server.Aof.Written.{encode-Starts}
use spatialdb_engine.Glob.{is_empty}

pub no_empty : (d : Str) → Starts d → is_empty d ≡ false
no_empty [] h = elim h [ ]
no_empty (c ∷ d) h = refl

-- The file whose reads give the packets.
abbrev pub concat : List Str → Str
concat [] = []
concat (p ∷ ps) = p ++ concat ps

module _ {S : Type 0} (R : Redcon) (run : List Str → S → S × Option Error) where
  -- What the loop does with a reading, with the loop for the data behind it.
  abbrev round_of : (Str → S → Load (Str × S)) → S → Reading → Load (Str × S)
  round_of next s failed = stopped corrupt
  round_of next s (incomplete rest) = done (rest, s)
  round_of next s (complete args rest) = load_command R run args s >>= λ s'. next rest s'

  abbrev round : (Str → S → Load (Str × S)) → Str → S → Load (Str × S)
  round next d s = if starts_with_zero d then next (drop 1 d) s else round_of next s (R.read_next d)

  read_commands-round :
      (f : ℕ) (d : Str) (s : S)
      → read_commands R run (suc f) d s ≡ round (read_commands R run f) d s
  unfolding read_commands
  read_commands-round f d s = refl

  module _ (law : IsRedcon R) where
    round_of-agree :
        (k k' : Str → S → Load (Str × S)) (d : Str) (s : S) (r : Reading)
        → R.read_next d ≡ r
        → ((e : Str) (t : S) → length e < length d → k e t ≡ k' e t)
        → round_of k s r ≡ round_of k' s r
    round_of-agree k k' d s failed e h = refl
    round_of-agree k k' d s (incomplete rest) e h = refl
    round_of-agree k k' d s (complete args rest) e h = agree_on (load_command R run args s)
      where
        agree_on : (m : Load S) → (m >>= λ s'. k rest s') ≡ (m >>= λ s'. k' rest s')
        agree_on (done s') = h rest s' (law.shrinks d rest args e)
        agree_on (stopped x) = refl

    -- A round calls the loop for shorter data.
    round-agree :
        (k k' : Str → S → Load (Str × S)) (d : Str) (s : S)
        → ((e : Str) (t : S) → length e < length d → k e t ≡ k' e t)
        → round k d s ≡ round k' d s
    round-agree k k' [] s h = round_of-agree k k' [] s (R.read_next []) refl h
    round-agree k k' (c ∷ d) s h = elim (Bool-cases (c == 0)) [
      | inl t ↦ rw t (h d s (omega arith))
      | inr f ↦ rw f (round_of-agree k k' (c ∷ d) s (R.read_next (c ∷ d)) refl h)
    ]

    -- Fuel above the length of the data is enough.
    read_commands-fuel :
        (f g : ℕ) (d : Str) (s : S)
        → length d < f
        → length d < g
        → read_commands R run f d s ≡ read_commands R run g d s
    read_commands-fuel zero g d s hf hg = elim hf [ ]
    read_commands-fuel (suc f) zero d s hf hg = elim hg [ ]
    read_commands-fuel (suc f) (suc g) d s hf hg =
        read_commands-round f d s
        ∙ round-agree (read_commands R run f) (read_commands R run g) d s
            (λ e t h. read_commands-fuel f g e t (omega arith) (omega arith))
        ∙ sym (read_commands-round g d s)

    -- The loop of the code, with no fuel.
    pub read_all-round : (d : Str) (s : S) → read_all R run d s ≡ round (read_all R run) d s
    unfolding read_all
    read_all-round d s =
        read_commands-round (length d) d s
        ∙ round-agree (read_commands R run (length d)) (read_all R run) d s
            (λ e t h. read_commands-fuel (length d) (suc (length e)) e t h (omega arith))

    -- The loop on what is left and on data that follows.
    abbrev on_more : Str → Str × S → Load (Str × S)
    on_more x r = read_all R run (r.0 ++ x) r.1

    pub nothing_read : R.read_next [] ≡ incomplete []
    nothing_read =
        law.cut [] [] [] (encode R ([] ∷ [])) refl
          (no_empty (encode R ([] ∷ [])) (encode-Starts R law ([] ∷ [])))

    more_of :
        (c : ℕ) (e x : Str) (s : S) (r : Reading)
        → R.read_next (c ∷ e) ≡ r
        → (c == 0) ≡ false
        → ((d : Str) (t : S)
            → length d < suc (length e)
            → read_all R run (d ++ x) t ≡ (read_all R run d t >>= on_more x))
        → read_all R run (c ∷ (e ++ x)) s ≡ (round_of (read_all R run) s r >>= on_more x)
    more_of c e x s failed q z ih =
        rw (read_all-round (c ∷ (e ++ x)) s, z, law.fails (c ∷ e) x q) refl
    more_of c e x s (incomplete rest) q z ih = rw (law.keeps (c ∷ e) rest q) refl
    more_of c e x s (complete args rest) q z ih =
        rw (read_all-round (c ∷ (e ++ x)) s, z, law.extends (c ∷ e) x rest args q)
          (after (load_command R run args s))
      where
        after :
            (m : Load S)
            → (m >>= λ s'. read_all R run (rest ++ x) s')
              ≡ ((m >>= λ s'. read_all R run rest s') >>= on_more x)
        after (done s') = ih rest s' (law.shrinks (c ∷ e) rest args q)
        after (stopped y) = refl

    -- By induction on the length of the data.
    read_all-below :
        (n : ℕ) (d x : Str) (s : S)
        → length d < n
        → read_all R run (d ++ x) s ≡ (read_all R run d s >>= on_more x)
    read_all-below zero d x s h = elim h [ ]
    read_all-below (suc n) [] x s h = rw (read_all-round [] s, nothing_read) refl
    read_all-below (suc n) (c ∷ d) x s h = elim (Bool-cases (c == 0)) [
      | inl t ↦
          rw (read_all-round (c ∷ (d ++ x)) s, read_all-round (c ∷ d) s, t)
            (read_all-below n d x s (omega arith))
      | inr f ↦
          rw (read_all-round (c ∷ d) s, f)
            (more_of c d x s (R.read_next (c ∷ d)) refl f
              (λ e t k. read_all-below n e x t (omega arith)))
    ]

    -- More data is read after what the loop leaves of the data before it.
    pub read_all-more :
        (d x : Str) (s : S) → read_all R run (d ++ x) s ≡ (read_all R run d s >>= on_more x)
    read_all-more d x s = read_all-below (suc (length d)) d x s (omega arith)

    merge_packets :
        (p q buf : Str) (ps : List Str) (size : ℕ) (s : S)
        → load_packets R run (p ∷ q ∷ ps) buf size s ≡ load_packets R run ((p ++ q) ∷ ps) buf size s
    unfolding load_packets
    merge_packets p q buf ps size s =
        after (read_all R run (buf ++ p) s)
        ∙ ap
            (λ (m : Load (Str × S)).
              m >>= λ (r : Str × S). load_packets R run ps r.0 (size + length (p ++ q)) r.1)
            (sym (read_all-more (buf ++ p) q s)
              ∙ ap (λ d. read_all R run d s) (append_assoc buf p q))
      where
        after :
            (m : Load (Str × S))
            → (m >>= λ (r : Str × S). load_packets R run (q ∷ ps) r.0 (size + length p) r.1) ≡ (
                m >>= on_more q >>= λ (r : Str × S).
                load_packets R run ps r.0 (size + length (p ++ q)) r.1)
        after (done (rest, t)) =
            ap
              (λ n.
                read_all R run (rest ++ q) t >>= λ (r : Str × S). load_packets R run ps r.0 n r.1)
              (omega (arith, length-append p q))
        after (stopped y) = refl

    join_packets :
        (p buf : Str) (ps : List Str) (size : ℕ) (s : S)
        → load_packets R run (p ∷ ps) buf size s
          ≡ load_packets R run ((p ++ concat ps) ∷ []) buf size s
    join_packets p buf [] size s = rw (append-nil p) refl
    join_packets p buf (q ∷ ps) size s =
        merge_packets p q buf ps size s
        ∙ join_packets (p ++ q) buf ps size s
        ∙ ap (λ t. load_packets R run (t ∷ []) buf size s) (append_assoc p q (concat ps))

    -- Loading a file in any packets is loading it in one.
    pub load_aof-concat :
        (ps : List Str) (s : S) → load_aof R run ps s ≡ load_aof R run (concat ps ∷ []) s
    unfolding load_aof load_packets load_end
    load_aof-concat [] s = rw (read_all-round [] s, nothing_read) refl
    load_aof-concat (p ∷ ps) s = ap (λ m. m >>= load_end R run) (join_packets p [] ps 0 s)
