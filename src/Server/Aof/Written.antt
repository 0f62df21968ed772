-- ===== src/Server/Aof/Written.antt =====
-- What `writeAOF` and `flushAOF` of internal/legacy/server/aof.go leave in the file and the buffer.
use mathlib.Core.List.{append_assoc, append-nil}
use spatialdb_engine.Base.{◌≡◌, refl, sym, ap, ◌∙◌, List, [], ◌∷◌, ◌++◌, length}
use spatialdb_engine.Base.Text.{Str}
use spatialdb_engine.Server.Aof.{Redcon, IsRedcon, Starts, append_args, append_command, encode}

pub Starts-append : (a b : Str) → Starts a → Starts (a ++ b)
Starts-append [] b h = elim h [ ]
Starts-append (c ∷ a) b h = h

module _ (R : Redcon) (law : IsRedcon R) where
  append_args-append :
      (buf : Str) (args : List Str) → append_args R buf args ≡ buf ++ append_args R [] args
  unfolding append_args
  append_args-append buf [] = sym (append-nil buf)
  append_args-append buf (arg ∷ args) =
      append_args-append (R.append_bulk_string buf arg) args
      ∙ ap (λ b. b ++ append_args R [] args) (law.bulk_lem buf arg)
      ∙ append_assoc buf (R.append_bulk_string [] arg) (append_args R [] args)
      ∙ ap (λ b. buf ++ b) (sym (append_args-append (R.append_bulk_string [] arg) args))

  pub append_command-append :
      (buf : Str) (args : List Str) → append_command R buf args ≡ buf ++ encode R args
  unfolding append_command
  append_command-append buf args =
      append_args-append (R.append_array buf (length args)) args
      ∙ ap (λ b. b ++ append_args R [] args) (law.array_lem buf (length args))
      ∙ append_assoc buf (R.append_array [] (length args)) (append_args R [] args)
      ∙ ap (λ b. buf ++ b) (sym (append_args-append (R.append_array [] (length args)) args))

  pub encode-Starts : (args : List Str) → Starts (encode R args)
  unfolding append_command
  encode-Starts args = rw (append_args-append (R.append_array [] (length args)) args) (
      Starts-append (R.append_array [] (length args)) (append_args R [] args)
        (law.star (length args)))

module _ (R : Redcon) where
  -- The bytes of several commands.
  abbrev pub encode_all : List (List Str) → Str
  encode_all [] = []
  encode_all (args ∷ cmds) = encode R args ++ encode_all cmds

  pub encode_all-append :
      (a b : List (List Str)) → encode_all (a ++ b) ≡ encode_all a ++ encode_all b
  encode_all-append [] b = refl
  encode_all-append (args ∷ a) b =
      ap (λ t. encode R args ++ t) (encode_all-append a b)
      ∙ sym (append_assoc (encode R args) (encode_all a) (encode_all b))
