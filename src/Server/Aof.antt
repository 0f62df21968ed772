-- ===== src/Server/Aof.antt =====
-- The append-only file of internal/legacy/server/aof.go: what `writeAOF` and `flushAOF` put into it,
-- and how `loadAOF` reads it back. The encoding of a command and its reader are those of
-- spatialdb-dev/redcon, a parameter. The geofences that `writeAOF` goes on to are left out.
pub mod Written
pub mod Loaded
pub mod Chunks
pub mod Recovery
use spatialdb_engine.Base.{
  ℕ, zero, suc, ◌+◌, ◌-◌, ◌<◌, ◌≡◌, Bool, true, false, Option, none, some, List, [], ◌∷◌, ◌++◌,
  ◌==◌, length, drop, if◌then◌else◌,
}
use spatialdb_engine.Base.Text.{Str}
use spatialdb_engine.Glob.{is_empty}
use spatialdb_engine.Server.{Error, key_not_found, id_not_found}

-- What `redcon.ReadNextCommand` answers: an error, no whole command and the data that is left, or the
-- arguments of a command and the data behind it.
pub data Reading : Type 0 where
  failed : Reading
  incomplete : Str → Reading
  complete : List Str → Str → Reading

pub record Redcon : Type 0 where
  pub read_next : Str → Reading
  pub append_array : Str → ℕ → Str
  pub append_bulk_string : Str → Str → Str

-- Whether there is a file (`s.aof != nil`), the file, the bytes that are not flushed yet, `aofsz`, and the log that a shrink keeps.
pub record Aof : Type 0 where
  pub has_file : Bool
  pub file : Str
  pub buf : Str
  pub size : ℕ
  pub shrinking : Bool
  pub shrinklog : List (List Str)

-- A text that starts with a byte other than 0.
abbrev pub Starts : Str → Type 0
Starts [] = ⊥
Starts (c ∷ d) = (c == 0) ≡ false

module _ (R : Redcon) where
  unfoldable pub append_args : Str → List Str → Str
  append_args buf [] = buf
  append_args buf (arg ∷ args) = append_args (R.append_bulk_string buf arg) args

  -- What `writeAOF` appends for a command.
  unfoldable pub append_command : Str → List Str → Str
  unfolding append_args
  append_command buf args = append_args (R.append_array buf (length args)) args

  abbrev pub encode : List Str → Str
  encode args = append_command [] args

  -- What the code relies on: a command is a RESP array, that is appended and does not start with a 0
  -- byte; a command read is shorter than the data and is decided by the front of the data; an
  -- incomplete one leaves the data; and a command that was appended is read back, but not from a part
  -- of its bytes.
  pub record IsRedcon : Type 0 where
    pub array_lem : (buf : Str) (n : ℕ) → R.append_array buf n ≡ buf ++ R.append_array [] n
    pub bulk_lem :
        (buf arg : Str) → R.append_bulk_string buf arg ≡ buf ++ R.append_bulk_string [] arg
    pub star : (n : ℕ) → Starts (R.append_array [] n)
    pub shrinks :
        (d rest : Str) (args : List Str)
        → R.read_next d ≡ complete args rest
        → length rest < length d
    pub keeps : (d rest : Str) → R.read_next d ≡ incomplete rest → rest ≡ d
    pub extends :
        (d x rest : Str) (args : List Str)
        → R.read_next d ≡ complete args rest
        → R.read_next (d ++ x) ≡ complete args (rest ++ x)
    pub fails : (d x : Str) → R.read_next d ≡ failed → R.read_next (d ++ x) ≡ failed
    pub reads :
        (name : Str) (args : List Str)
        → R.read_next (encode (name ∷ args)) ≡ complete (name ∷ args) []
    pub cut :
        (name : Str) (args : List Str) (a b : Str)
        → a ++ b ≡ encode (name ∷ args)
        → is_empty b ≡ false
        → R.read_next a ≡ incomplete a

  -- `writeAOF`, of a command that reports whether it updated.
  unfoldable pub write_aof : List Str → Bool → Aof → Aof
  unfolding append_command
  write_aof args updated a =
      let buf = append_command a.buf args in
      if updated
      then record a {
        buf = if a.has_file then buf else a.buf;
        size = if a.has_file then a.size + (length buf - length a.buf) else a.size;
        shrinklog = if a.shrinking then a.shrinklog ++ args ∷ [] else a.shrinklog;
      }
      else a

  -- `flushAOF`.
  unfoldable pub flush_aof : Aof → Aof
  flush_aof a = record a { file = a.file ++ a.buf; buf = [] }

-- The ends of a load that are no success. Running out of fuel is none of the code's.
pub data LoadError : Type 0 where
  no_fuel : LoadError
  corrupt : LoadError
  refused : Error → LoadError

pub data Load {ℓ} (A : Type ℓ) : Type ℓ where
  done : A → Load A
  stopped : LoadError → Load A

infixl 5 ◌>>=◌
abbrev pub ◌>>=◌ {ℓ κ} : {A : Type ℓ} {B : Type κ} → Load A → (A → Load B) → Load B
done a >>= f = f a
stopped e >>= f = stopped e

-- `commandErrIsFatal`.
unfoldable pub command_err_is_fatal : Error → Bool
command_err_is_fatal key_not_found = false
command_err_is_fatal id_not_found = false
command_err_is_fatal _ = true

abbrev pub starts_with_zero : Str → Bool
starts_with_zero [] = false
starts_with_zero (c ∷ d) = c == 0

module _ (S : Type 0) where
  -- The server and `aofsz`, with the size that the file is truncated to, if it is.
  pub record LoadedAof : Type 0 where
    pub server : S
    pub size : ℕ
    pub truncated : Option ℕ

-- `run` is `s.command`: the server behind a command, and its error.
module _ {S : Type 0} (R : Redcon) (run : List Str → S → S × Option Error) where
  abbrev pub judge : S × Option Error → Load S
  judge (s, none) = done s
  judge (s, some e) = if command_err_is_fatal e then stopped (refused e) else done s

  unfoldable pub load_command : List Str → S → Load S
  unfolding command_err_is_fatal
  load_command [] s = done s
  load_command (name ∷ args) s = judge (run (name ∷ args) s)

  -- The loop over the commands in the data. It ends with the data that is left.
  unfoldable pub read_commands : ℕ → Str → S → Load (Str × S)
  read_commands zero d s = stopped no_fuel
  read_commands (suc fuel) d s =
      let skipped = read_commands fuel (drop 1 d) s in
      if starts_with_zero d then skipped else elim (R.read_next d) [
        | failed ↦ stopped corrupt
        | incomplete rest ↦ done (rest, s)
        | complete args rest ↦ load_command args s >>= λ s'. read_commands fuel rest s'
      ]

  -- Each round takes a byte at least.
  unfoldable pub read_all : Str → S → Load (Str × S)
  read_all d s = read_commands (suc (length d)) d s

  -- The server, the data that is left, and `aofsz` behind the packets that the file gives.
  unfoldable pub load_packets : List Str → Str → ℕ → S → Load (S × Str × ℕ)
  load_packets [] buf size s = done (s, buf, size)
  load_packets (packet ∷ packets) buf size s = read_all (buf ++ packet) s >>= λ (r : Str × S).
      load_packets packets r.0 (size + length packet) r.1

  unfoldable pub load_end : S × Str × ℕ → Load (LoadedAof S)
  load_end (s, buf, size) =
      if is_empty buf
      then done (record { server = s; size = size; truncated = none })
      else done
          (record { server = s; size = size - length buf; truncated = some (size - length buf) })

  -- `loadAOF`, of a file that the reads give in packets.
  unfoldable pub load_aof : List Str → S → Load (LoadedAof S)
  load_aof packets s = load_packets packets [] 0 s >>= load_end
