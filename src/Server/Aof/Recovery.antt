-- ===== src/Server/Aof/Recovery.antt =====
-- `writeAOF`, `flushAOF` and `loadAOF` of internal/legacy/server/aof.go together: what a server finds
-- in the file when it starts again.
use mathlib.Core.List.{append_assoc, append-nil}
use spatialdb_engine.Base.{
  ◌+◌, ◌≡◌, refl, sym, ap, ◌∙◌, Bool, true, false, Option, List, [], ◌∷◌, ◌++◌, arith, length,
  length-append, All,
}
use spatialdb_engine.Base.Text.{Str}
use spatialdb_engine.Server.{Error}
use spatialdb_engine.Server.Aof.{Redcon, IsRedcon, encode, Aof, write_aof, flush_aof}
use spatialdb_engine.Server.Aof.Written.{append_command-append, encode_all, encode_all-append}
use spatialdb_engine.Server.Aof.Chunks.{concat}
use spatialdb_engine.Server.Aof.Loaded.{IsNamed, Recovers, load_aof-cut}

-- What the server does with its file: it writes a command, that updated or did not, or it flushes.
pub data AofStep : Type 0 where
  write : List Str → Bool → AofStep
  flush : AofStep

-- The commands that updated.
abbrev pub written : List AofStep → List (List Str)
written [] = []
written (write args true ∷ steps) = args ∷ written steps
written (write args false ∷ steps) = written steps
written (flush ∷ steps) = written steps

abbrev pub empty_aof : Aof
empty_aof = record {
  has_file = true;
  file = [];
  buf = [];
  size = 0;
  shrinking = false;
  shrinklog = [];
}

module _ (R : Redcon) where
  abbrev pub step_aof : AofStep → Aof → Aof
  step_aof (write args updated) a = write_aof R args updated a
  step_aof flush a = flush_aof R a

  abbrev pub run_aof : List AofStep → Aof → Aof
  run_aof [] a = a
  run_aof (step ∷ steps) a = run_aof steps (step_aof step a)

  module _ (law : IsRedcon R) where
    -- There is a file; the file and the buffer hold some commands, and `aofsz` is their length.
    pub record Contains (cmds : List (List Str)) (a : Aof) : Type 0 where
      pub opened : a.has_file ≡ true
      pub bytes : a.file ++ a.buf ≡ encode_all R cmds
      pub sized : a.size ≡ length a.file + length a.buf

    encode_all-one : (args : List Str) → encode_all R (args ∷ []) ≡ encode R args
    encode_all-one args = append-nil (encode R args)

    step_aof-Contains :
        (cmds : List (List Str)) (step : AofStep) (a : Aof)
        → Contains cmds a
        → Contains (cmds ++ written (step ∷ [])) (step_aof step a)
    unfolding write_aof flush_aof
    step_aof-Contains cmds (write args true) a h = rw h.opened (record {
      opened = refl;
      bytes =
          ap (λ b. a.file ++ b) (append_command-append R law a.buf args)
          ∙ sym (append_assoc a.file a.buf (encode R args))
          ∙ ap (λ d. d ++ encode R args) h.bytes
          ∙ ap (λ d. encode_all R cmds ++ d) (sym (encode_all-one args))
          ∙ sym (encode_all-append R cmds (args ∷ []));
      sized =
          let longer = ap length (append_command-append R law a.buf args) in
          omega (arith, h.sized, longer, length-append a.buf (encode R args));
    })
    step_aof-Contains cmds (write args false) a h = rw (append-nil cmds) h
    step_aof-Contains cmds flush a h = rw (append-nil cmds) (record {
      opened = h.opened;
      bytes = append-nil (a.file ++ a.buf) ∙ h.bytes;
      sized = omega (arith, h.sized, length-append a.file a.buf);
    })

    written-cons :
        (step : AofStep) (steps : List AofStep)
        → written (step ∷ []) ++ written steps ≡ written (step ∷ steps)
    written-cons (write args true) steps = refl
    written-cons (write args false) steps = refl
    written-cons flush steps = refl

    run_aof-Contains :
        (steps : List AofStep) (cmds : List (List Str)) (a : Aof)
        → Contains cmds a
        → Contains (cmds ++ written steps) (run_aof steps a)
    run_aof-Contains [] cmds a h = rw (append-nil cmds) h
    run_aof-Contains (step ∷ steps) cmds a h =
        rw (← written-cons step steps, ← append_assoc cmds (written (step ∷ [])) (written steps))
          (run_aof-Contains steps (cmds ++ written (step ∷ [])) (step_aof step a)
            (step_aof-Contains cmds step a h))

    -- Behind any writes and flushes from an empty file, the file and the buffer hold exactly the
    -- commands that updated, in order, and `aofsz` is their length.
    pub run_aof-lem : (steps : List AofStep) → Contains (written steps) (run_aof steps empty_aof)
    run_aof-lem steps =
        run_aof-Contains steps [] empty_aof (record { opened = refl; bytes = refl; sized = refl })

    -- Behind any writes and flushes from an empty file, a start from any front of the file, in any
    -- packets, leads to the server of the first commands that updated, all those that the front holds
    -- in whole.
    pub load_aof-run_aof :
        {S : Type 0} (run : List Str → S → S × Option Error) (steps : List AofStep)
        (packets : List Str) (lost : Str) (s : S)
        → All IsNamed (written steps)
        → concat packets ++ lost ≡ (run_aof steps empty_aof).file
        → Recovers R run (written steps) packets s
    load_aof-run_aof run steps packets lost s h e =
        let a = run_aof steps empty_aof in
        load_aof-cut R law run (written steps) packets (lost ++ a.buf) s h (
          sym (append_assoc (concat packets) lost a.buf)
          ∙ ap (λ d. d ++ a.buf) e
          ∙ (run_aof-lem steps).bytes)
