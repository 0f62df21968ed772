-- ===== src/Server/Aof/Loaded.antt =====
-- What `loadAOF` of internal/legacy/server/aof.go recovers from a file that was written by `writeAOF`.
use mathlib.Core.List.{append_assoc, append-nil}
use spatialdb_engine.Base.{
  ℕ, suc, ◌+◌, ◌-◌, ◌<◌, ◌≡◌, ◌⊎◌, refl, sym, ap, ◌∙◌, Bool, true, false, Option, none, some, List,
  [], ◌∷◌, ◌++◌, arith, length, take, if◌then◌else◌, length-append, All, inl, inr,
}
use spatialdb_engine.Base.Text.{Str}
use spatialdb_engine.Glob.{is_empty}
use spatialdb_engine.Server.{
  Error, invalid_number_of_arguments, invalid_argument, key_not_found, id_not_found,
  id_already_exists, key_has_hooks_set, key_has_channels_set, out_of_memory, invalid_geojson,
  hooks_and_channels_share_name, not_the_leader, read_only_error, timeout_on_cmd, panic,
}
use spatialdb_engine.Server.Aof.{
  Redcon, IsRedcon, Starts, encode, Load, done, stopped, ◌>>=◌, starts_with_zero, refused,
  command_err_is_fatal, judge, load_command, read_all, load_packets, LoadedAof, load_end, load_aof,
}
use spatialdb_engine.Server.Aof.Written.{encode_all, encode-Starts, Starts-append}
use spatialdb_engine.Server.Aof.Chunks.{concat, nothing_read, read_all-round, load_aof-concat}

-- Two ways to cut a text: the first part ends inside of the other's, or behind it.
pub cut_append :
    (a b c d : Str)
    → a ++ b ≡ c ++ d
    → ((e : Str) × (is_empty e ≡ false) × (a ++ e ≡ c)) ⊎ ((e : Str) × (a ≡ c ++ e) × (e ++ b ≡ d))
cut_append a b [] d h = inr (a, refl, h)
cut_append [] b (y ∷ c) d h = inl (y ∷ c, refl, refl)
cut_append (x ∷ a) b (y ∷ c) d h = elim (cut_append a b c d (cc)) [
  | inl (e, n, p) ↦ inl (e, n, cc)
  | inr (e, p, q) ↦ inr (e, cc, q)
]

not_zero : (a e : Str) → Starts (a ++ e) → starts_with_zero a ≡ false
not_zero [] e h = refl
not_zero (c ∷ a) e h = h

abbrev pub IsNamed : List Str → Type 0
IsNamed [] = ⊥
IsNamed (name ∷ args) = Unit {0}

not_empty : (b : Str) → is_empty b ≡ false → 0 < length b
not_empty [] e = cc
not_empty (c ∷ b) e = omega arith

no_part : (p q : Str) → p ++ q ≡ [] → p ≡ []
no_part [] q e = refl
no_part (c ∷ p) q e = cc

module _ {S : Type 0} (R : Redcon) (run : List Str → S → S × Option Error) where
  -- A start takes no offence at a key or an id that is missing; any other error ends it.
  abbrev pub is_missing : Error → Bool
  is_missing key_not_found = true
  is_missing id_not_found = true
  is_missing _ = false

  abbrev pub replayed : S × Option Error → Load S
  replayed (s, none) = done s
  replayed (s, some e) = if is_missing e then done s else stopped (refused e)

  -- The commands run, one after the other, up to the first error that is not of a missing key or id.
  abbrev pub replay : List (List Str) → S → Load S
  replay [] s = done s
  replay (args ∷ cmds) s = replayed (run args s) >>= replay cmds

  -- What a load recovers from the bytes of some commands and a part of a further one.
  abbrev pub recovered : List (List Str) → Str → S → LoadedAof S
  recovered cmds rest s = record {
    server = s;
    size = length (encode_all R cmds);
    truncated = if is_empty rest then none else some (length (encode_all R cmds));
  }

  -- A load of packets recovers the first of some commands: all those whose bytes the packets hold in
  -- whole. What is behind them is truncated.
  abbrev pub Recovers : List (List Str) → List Str → S → Type 0
  Recovers cmds packets s =
      (k : ℕ) × (rest : Str) × (concat packets ≡ encode_all R (take k cmds) ++ rest)
      × ((concat packets ≡ encode_all R cmds)
          ⊎ (length (concat packets) < length (encode_all R (take (suc k) cmds))))
      × (load_aof R run packets s
          ≡ (replay (take k cmds) s >>= λ s'. done (recovered (take k cmds) rest s')))

module _ {S : Type 0} (R : Redcon) (law : IsRedcon R) (run : List Str → S → S × Option Error) where
  judged :
      (s : S) (e : Error)
      → (if command_err_is_fatal e then stopped (refused e) else done s)
        ≡ replayed R run (s, some e)
  unfolding command_err_is_fatal
  judged s invalid_number_of_arguments = refl
  judged s (invalid_argument a) = refl
  judged s key_not_found = refl
  judged s id_not_found = refl
  judged s id_already_exists = refl
  judged s key_has_hooks_set = refl
  judged s key_has_channels_set = refl
  judged s out_of_memory = refl
  judged s invalid_geojson = refl
  judged s hooks_and_channels_share_name = refl
  judged s not_the_leader = refl
  judged s read_only_error = refl
  judged s (timeout_on_cmd name) = refl
  judged s panic = refl

  judge-replayed : (r : S × Option Error) → judge R run r ≡ replayed R run r
  judge-replayed (s, none) = refl
  judge-replayed (s, some e) = judged s e

  load_command-replayed :
      (name : Str) (args : List Str) (s : S)
      → load_command R run (name ∷ args) s ≡ replayed R run (run (name ∷ args) s)
  unfolding load_command
  load_command-replayed name args s = judge-replayed (run (name ∷ args) s)

  -- A whole command is run, and then what follows.
  read_all-encode :
      (name : Str) (args : List Str) (x : Str) (s : S)
      → read_all R run (encode R (name ∷ args) ++ x) s
        ≡ (replayed R run (run (name ∷ args) s) >>= λ s'. read_all R run x s')
  read_all-encode name args x s =
      let whole = encode R (name ∷ args) in
      let starts = Starts-append whole x (encode-Starts R law (name ∷ args)) in
      let z = not_zero (whole ++ x) [] (rw (append-nil (whole ++ x)) starts) in
      rw
        (
          read_all-round R run law (whole ++ x) s,
          z,
          law.extends whole x [] (name ∷ args) (law.reads name args),
        )
        (ap (λ m. m >>= λ s'. read_all R run x s') (load_command-replayed name args s))

  -- A part of a command is left.
  read_all-part :
      (name : Str) (args : List Str) (a e : Str) (s : S)
      → a ++ e ≡ encode R (name ∷ args)
      → is_empty e ≡ false
      → read_all R run a s ≡ done (a, s)
  read_all-part name args a e s h n =
      let z = not_zero a e (rw h (encode-Starts R law (name ∷ args))) in
      rw (read_all-round R run law a s, z, law.cut name args a e h n) refl

  after_command :
      (cmds : List (List Str)) (rest p : Str)
      → ((s : S) → read_all R run p s ≡ (replay R run cmds s >>= λ s'. done (rest, s')))
      → (m : Load S)
      → (m >>= λ s'. read_all R run p s') ≡ (m >>= replay R run cmds >>= λ s'. done (rest, s'))
  after_command cmds rest p h (done s) = h s
  after_command cmds rest p h (stopped e) = refl

  read_all-cut :
      (cmds : List (List Str)) (p q : Str)
      → All IsNamed cmds
      → p ++ q ≡ encode_all R cmds
      → (k : ℕ) × (rest : Str) × (p ≡ encode_all R (take k cmds) ++ rest)
        × ((p ≡ encode_all R cmds) ⊎ (length p < length (encode_all R (take (suc k) cmds))))
        × ((s : S) → read_all R run p s ≡ (replay R run (take k cmds) s >>= λ s'. done (rest, s')))
  read_all-cut [] p q h e = (
    0,
    p,
    refl,
    inl (no_part p q e),
    λ s. rw (no_part p q e, read_all-round R run law [] s, nothing_read R run law) refl,
  )
  read_all-cut ([] ∷ cmds) p q h e = elim h.0 [ ]
  read_all-cut ((name ∷ args) ∷ cmds) p q h e =
      let whole = encode R (name ∷ args) in
      elim (cut_append p q whole (encode_all R cmds) e) [
        | inl (b, n, part) ↦ (
          0,
          p,
          refl,
          inr (
              omega
                (arith, ap length part, length-append p b, length-append whole [], not_empty b n)),
          λ s. read_all-part name args p b s part n,
        )
        | inr (p', split, left) ↦
            let (k, rest, parts, short, read) = read_all-cut cmds p' q h.1 left in
            (
              suc k,
              rest,
              split
                  ∙ ap (λ t. whole ++ t) parts
                  ∙ sym (append_assoc whole (encode_all R (take k cmds)) rest),
              elim short [
                | inl all ↦ inl (split ∙ ap (λ t. whole ++ t) all)
                | inr less ↦ inr (
                    omega (
                      arith,
                      ap length split,
                      length-append whole p',
                      length-append whole (encode_all R (take (suc k) cmds)),
                    ))
              ],
              λ s. rw split (
                  read_all-encode name args p' s
                  ∙ after_command (take k cmds) rest p' read
                      (replayed R run (run (name ∷ args) s))),
            )
      ]

  load_end-recovered :
      (cmds : List (List Str)) (rest : Str) (s : S)
      → load_end R run (s, rest, length (encode_all R cmds ++ rest))
        ≡ done (recovered R run cmds rest s)
  unfolding load_end
  load_end-recovered cmds [] s = rw (append-nil (encode_all R cmds)) refl
  load_end-recovered cmds (c ∷ rest) s =
      let kept : length (encode_all R cmds ++ c ∷ rest) - suc (length rest)
          ≡ length (encode_all R cmds) =
        omega (arith, length-append (encode_all R cmds) (c ∷ rest)) in
      rw kept refl

  end_of :
      (cmds : List (List Str)) (rest d : Str)
      → d ≡ encode_all R cmds ++ rest
      → (m : Load S)
      → (m
          >>= (λ s'. done (rest, s'))
          >>= (λ (r : Str × S). done (r.1, r.0, 0 + length d))
          >>= load_end R run)
        ≡ (m >>= λ s'. done (recovered R run cmds rest s'))
  end_of cmds rest d e (done s) =
      let n : 0 + length d ≡ length (encode_all R cmds ++ rest) = omega (arith, ap length e) in
      rw n (load_end-recovered cmds rest s)
  end_of cmds rest d e (stopped x) = refl

  -- A file that was cut off anywhere, read in any packets, loads to the server that the first commands
  -- of the file lead to, all those that it holds in whole; a part of a command behind them is
  -- truncated, and nothing else.
  pub load_aof-cut :
      (cmds : List (List Str)) (packets : List Str) (q : Str) (s : S)
      → All IsNamed cmds
      → concat packets ++ q ≡ encode_all R cmds
      → Recovers R run cmds packets s
  unfolding load_aof load_packets
  load_aof-cut cmds packets q s h e =
      let (k, rest, parts, short, read) = read_all-cut cmds (concat packets) q h e in
      (
        k,
        rest,
        parts,
        short,
        load_aof-concat R run law packets s
            ∙ ap
                (λ (m : Load (Str × S)).
                  m
                  >>= (λ (r : Str × S). done (r.1, r.0, 0 + length (concat packets)))
                  >>= load_end R run)
                (read s)
            ∙ end_of (take k cmds) rest (concat packets) parts (replay R run (take k cmds) s),
      )
