-- ===== src/Tests/Files.antt =====
-- The theorems on the append-only file at concrete inputs.
use spatialdb_engine.Tests.Codec.{codec, codec-IsRedcon}
use spatialdb_engine.Base.{
  ℕ, ◌+◌, ◌≡◌, refl, true, false, Option, none, List, [], ◌∷◌, ◌++◌, take, drop,
}
use spatialdb_engine.Base.Text.{Str, codes}
use spatialdb_engine.Server.{Error}
use spatialdb_engine.Server.Aof.{
  append_args, append_command, encode, write_aof, flush_aof, load_aof,
}
use spatialdb_engine.Server.Aof.Chunks.{concat, load_aof-concat}
use spatialdb_engine.Server.Aof.Loaded.{Recovers}
use spatialdb_engine.Server.Aof.Recovery.{
  AofStep, write, flush, written, empty_aof, run_aof, load_aof-run_aof,
}

-- A server that counts its commands.
abbrev count : List Str → ℕ → ℕ × Option Error
count args n = (n + 1, none)

abbrev two_writes : List AofStep
two_writes =
    write (codes "set" ∷ codes "a" ∷ []) true
    ∷ write (codes "get" ∷ []) false
    ∷ flush
    ∷ write (codes "del" ∷ codes "a" ∷ []) true
    ∷ flush
    ∷ []

abbrev both : Str
both = encode codec (codes "set" ∷ codes "a" ∷ []) ++ encode codec (codes "del" ∷ codes "a" ∷ [])

load_aof-concat_example :
    load_aof codec count (take 5 both ∷ drop 5 both ∷ []) 0
    ≡ load_aof codec count (concat (take 5 both ∷ drop 5 both ∷ []) ∷ []) 0
load_aof-concat_example =
    load_aof-concat codec count codec-IsRedcon (take 5 both ∷ drop 5 both ∷ []) 0

both_flushed :
    concat (take 5 both ∷ take 6 (drop 5 both) ∷ []) ++ drop 11 both
    ≡ (run_aof codec two_writes empty_aof).file
unfolding write_aof append_command append_args flush_aof
both_flushed = refl

load_aof-run_aof_example :
    Recovers codec count (written two_writes) (take 5 both ∷ take 6 (drop 5 both) ∷ []) 0
load_aof-run_aof_example =
    load_aof-run_aof codec codec-IsRedcon count two_writes (take 5 both ∷ take 6 (drop 5 both) ∷ [])
      (drop 11 both) 0 (tt, (tt, tt)) both_flushed
