-- ===== src/Tests/Messages.antt =====
-- The theorems on sequences of data commands at concrete inputs.
use spatialdb_engine.Tests.Instances.{geometry, fields, stores, parsers}
use spatialdb_engine.Tests.Commands.{empty_server, empty_server-IsValid, fleet, fleet-IsValid}
use spatialdb_engine.Tests.Patterns.{matcher}
use spatialdb_engine.Tests.Codec.{codec, codec-IsRedcon}
use spatialdb_engine.Base.{◌≡◌, refl, false, none, some, List, [], ◌∷◌}
use spatialdb_engine.Base.Text.{Str, codes, str_eq}
use spatialdb_engine.Base.Int.{pos}
use spatialdb_engine.Index.Sorted.{lookup_key}
use spatialdb_engine.Server.{json, find, key_not_found}
use spatialdb_engine.Server.Keys.{IsValid}
use spatialdb_engine.Server.Aof.{write_aof}
use spatialdb_engine.Server.Aof.Recovery.{empty_aof}
use spatialdb_engine.Server.Args.{is_word, to_lower}
use spatialdb_engine.Server.Delete.{cmd_del, del_parsed, del_op, del_flags, del_done}
use spatialdb_engine.Server.Dispatch.{
  Config, Env, Handled, del_arm, data_command, refusal, logged, run_arm, handle_guarded,
  handle_chosen, handle_data, handle_each,
}
use spatialdb_engine.Server.Dispatch.Failing.{handle_data-error}
use spatialdb_engine.Server.Dispatch.Unlogged.{handle_data-unlogged}
use spatialdb_engine.Server.Dispatch.Validity.{handle_each-IsValid}

abbrev leader : Config
leader = record { follow_host = []; read_only = false }

abbrev env : Env geometry fields
env = record {
  matcher = matcher;
  parsers = parsers;
  now = pos 5;
  out = json;
  deadline = none;
  ticks = λ i. i;
}

-- DEL fleet bus ERRON404
abbrev del_bus : List Str
del_bus = codes "del" ∷ codes "fleet" ∷ codes "bus" ∷ codes "ERRON404" ∷ []

abbrev bus_answer : Handled stores
bus_answer = handle_guarded stores codec env del_arm del_bus empty_server empty_aof none

bus_handled : handle_data stores codec leader env del_bus empty_server empty_aof ≡ some bus_answer
unfolding handle_data handle_chosen data_command refusal is_word to_lower str_eq
bus_handled = refl

bus_missing : bus_answer.1 ≡ some key_not_found
unfolding handle_guarded logged run_arm cmd_del del_parsed del_op del_flags is_word to_lower str_eq
    lookup_key
bus_missing = refl

handle_data-error_example :
    ((k i : Str) → find stores bus_answer.0.0 k i ≡ find stores empty_server k i)
    × (bus_answer.0.1 ≡ empty_aof)
handle_data-error_example =
    handle_data-error stores codec leader env del_bus empty_server empty_aof bus_answer
      key_not_found bus_handled bus_missing

-- DEL fleet bus
abbrev del_quietly : List Str
del_quietly = codes "fleet" ∷ codes "bus" ∷ []

abbrev quiet_answer : Handled stores
quiet_answer =
    handle_guarded stores codec env del_arm (codes "del" ∷ del_quietly) empty_server empty_aof none

del_chosen : data_command (codes "del") ≡ some del_arm
unfolding data_command is_word to_lower str_eq
del_chosen = refl

quiet_handled :
    handle_data stores codec leader env (codes "del" ∷ del_quietly) empty_server empty_aof
    ≡ some quiet_answer
unfolding handle_data handle_chosen data_command refusal is_word to_lower str_eq
quiet_handled = refl

nothing_logged : quiet_answer.0.1 ≡ empty_aof
unfolding handle_guarded logged run_arm cmd_del del_parsed del_op del_flags del_done lookup_key
    write_aof
nothing_logged = refl

handle_data-unlogged_example :
    find stores quiet_answer.0.0 (codes "fleet") (codes "truck")
    ≡ find stores empty_server (codes "fleet") (codes "truck")
handle_data-unlogged_example =
    handle_data-unlogged stores codec codec-IsRedcon leader env del_arm (codes "del") del_quietly
      empty_server empty_aof quiet_answer del_chosen refl empty_server-IsValid quiet_handled refl
      nothing_logged (codes "fleet") (codes "truck")

-- DEL fleet bus ERRON404, PDEL fleet tr*, PING
abbrev msgs : List (Env geometry fields × List Str)
msgs =
    (env, del_bus)
    ∷ (env, codes "pdel" ∷ codes "fleet" ∷ codes "tr*" ∷ [])
    ∷ (env, codes "ping" ∷ [])
    ∷ []

handle_each-IsValid_example :
    IsValid stores (handle_each stores codec leader msgs (fleet, empty_aof)).0
handle_each-IsValid_example =
    handle_each-IsValid stores codec leader msgs (fleet, empty_aof) fleet-IsValid
