-- ===== src/Tests/Commands.antt =====
-- The theorems on commands at concrete inputs.
use mathlib.Core.Option
use spatialdb_engine.Tests.Instances.{geometry, fields, stores, parsers, Obj}
use spatialdb_engine.Base.{
  sym, ◌∙◌, ◌≡◌, refl, false, ◌&&◌, none, some, List, [], ◌∷◌, arith, if◌then◌else◌, drop,
}
use spatialdb_engine.Base.Text.{Str, codes, str_eq}
use spatialdb_engine.Base.Int.{◌+ℤ◌, pos}
use spatialdb_engine.Index.Sorted.{lookup_key}
use spatialdb_engine.Object.{shape, new_object, object_geo, object_expires}
use spatialdb_engine.Object.Head.{new_object_id_expires}
use spatialdb_engine.Server.{Server, json, resp, ok, find}
use spatialdb_engine.Server.Args.{is_word, to_lower, is_reserved_field_name}
use spatialdb_engine.Server.Expiry.{cmd_expire, cmd_persist}
use spatialdb_engine.Server.Moves.{moves, find-cmd_rename}
use spatialdb_engine.Server.Expiry.{background_expire_objects}
use spatialdb_engine.Server.Due.{keep_live}
use spatialdb_engine.Server.Expired.{find-background_expire_objects}
use spatialdb_engine.Server.Group.{Groups, connect}
use spatialdb_engine.Server.Updates.{
  wrapped, find-cmd_expire, find-cmd_persist, without_expires, find-cmd_fset, with_fields,
}
use spatialdb_engine.Varint.RoundTrip.{InInt64}
use spatialdb_engine.Server.Fields.{
  FieldOptions, no_field_options, fset_args, fset_arg, fset_field, cmd_fset,
}
use spatialdb_engine.Server.SetArgs.{
  set_args, set_arg, point_arg, probe_z, make_point, no_options, Options,
}
use spatialdb_engine.Server.Set.{cmd_set}
use spatialdb_engine.Server.Delete.{cmd_del, cmd_rename, del_flags}
use spatialdb_engine.Server.Keys.{IsValid}
use spatialdb_engine.Server.Writes.{cmd_set-IsValid, find-cmd_set, oom-cmd_set, written}
use spatialdb_engine.Server.Deletes.{cmd_del-IsValid, find-cmd_del}

abbrev pub empty_server : Server stores
empty_server = record {
  cols = stores.cols.empty;
  groups = record { hooks = stores.groups.by_hook.empty; objects = stores.groups.by_object.empty };
  hooks = [];
  oom = false;
}

pub empty_server-IsValid : IsValid stores empty_server
unfolding lookup_key
empty_server-IsValid = record { kept = λ key c e. cc }

-- SET fleet truck POINT 3 4
abbrev set_point : List Str
set_point =
    codes "set" ∷ codes "fleet" ∷ codes "truck" ∷ codes "POINT" ∷ codes "abc" ∷ codes "abcd" ∷ []

abbrev pub fleet : Server stores
fleet = (cmd_set stores parsers (pos 5) resp set_point empty_server).0

cmd_set-IsValid_example : IsValid stores fleet
cmd_set-IsValid_example =
    cmd_set-IsValid stores parsers (pos 5) resp set_point empty_server empty_server-IsValid

pub fleet-IsValid : IsValid stores fleet
fleet-IsValid =
    cmd_set-IsValid stores parsers (pos 5) resp set_point empty_server empty_server-IsValid

cmd_del-IsValid_example :
    IsValid stores (cmd_del stores json (codes "del" ∷ codes "fleet" ∷ codes "truck" ∷ []) fleet).0
cmd_del-IsValid_example =
    cmd_del-IsValid stores json (codes "del" ∷ codes "fleet" ∷ codes "truck" ∷ []) fleet
      fleet-IsValid

find-cmd_del_example :
    find stores
      (cmd_del stores json (codes "del" ∷ codes "fleet" ∷ codes "truck" ∷ []) fleet).0
      (codes "fleet")
      (codes "truck")
    ≡ none
unfolding str_eq del_flags
find-cmd_del_example =
    find-cmd_del stores json (codes "del") (codes "fleet") (codes "truck") [] fleet false
      fleet-IsValid refl (codes "fleet") (codes "truck")

abbrev point_options : Options geometry fields
point_options = record (no_options geometry fields) { oobj = some (shape 4) }

point_parses :
    set_args parsers (pos 5) 0 (drop 3 set_point) (no_options geometry fields) ≡ ok point_options
unfolding set_args set_arg point_arg probe_z make_point is_word str_eq to_lower
point_parses = refl

find-cmd_set_example :
    find stores
      (cmd_set stores parsers (pos 5) resp set_point fleet).0
      (codes "fleet")
      (codes "truck")
    ≡ some (
        written stores point_options
          (codes "truck")
          (shape 4)
          (find stores fleet (codes "fleet") (codes "truck")))
unfolding str_eq
find-cmd_set_example =
    find-cmd_set stores parsers (pos 5) resp (codes "set") (codes "fleet") (codes "truck")
      (drop 3 set_point) fleet point_options (shape 4)
      (oom-cmd_set stores parsers (pos 5) resp set_point empty_server) point_parses refl
      (omega arith) (codes "fleet") (codes "truck")

abbrev rename_args : List Str
rename_args = codes "renamenx" ∷ codes "fleet" ∷ codes "cars" ∷ []

find-cmd_rename_example :
    IsValid stores (cmd_rename stores json rename_args fleet).0
    × ((k i : Str)
        → find stores (cmd_rename stores json rename_args fleet).0 k i ≡ (
            if moves stores
              (is_word "renamenx" (codes "renamenx"))
              (codes "fleet")
              (codes "cars")
              fleet
            then (if str_eq (codes "cars") k
                then find stores fleet (codes "fleet") i
                else if str_eq (codes "fleet") k
                then none
                else find stores fleet k i)
            else find stores fleet k i))
find-cmd_rename_example =
    find-cmd_rename stores json (codes "renamenx") (codes "fleet") (codes "cars") fleet
      fleet-IsValid

abbrev expire_args : List Str
expire_args = codes "expire" ∷ codes "fleet" ∷ codes "truck" ∷ codes "xx" ∷ []

find-cmd_expire_example :
    IsValid stores (cmd_expire stores parsers (pos 5) json expire_args fleet).0
    × ((k i : Str)
        → find stores (cmd_expire stores parsers (pos 5) json expire_args fleet).0 k i ≡ (
            if str_eq (codes "fleet") k && str_eq (codes "truck") i
            then Option.map
                (λ o.
                  new_object
                    (codes "truck")
                    (object_geo o)
                    (wrapped (pos 5 +ℤ pos 2000000000))
                    o.fields)
                (find stores fleet (codes "fleet") (codes "truck"))
            else find stores fleet k i))
find-cmd_expire_example =
    find-cmd_expire stores parsers (pos 5) json (codes "expire") (codes "fleet") (codes "truck")
      (codes "xx") fleet 2 fleet-IsValid refl (omega arith) (omega arith)

abbrev persist_args : List Str
persist_args = codes "persist" ∷ codes "fleet" ∷ codes "truck" ∷ []

find-cmd_persist_example :
    IsValid stores (cmd_persist stores json persist_args fleet).0
    × ((k i : Str)
        → find stores (cmd_persist stores json persist_args fleet).0 k i ≡ (
            if str_eq (codes "fleet") k && str_eq (codes "truck") i
            then Option.map
                (without_expires stores (codes "truck"))
                (find stores fleet (codes "fleet") (codes "truck"))
            else find stores fleet k i))
find-cmd_persist_example =
    find-cmd_persist stores json (codes "persist") (codes "fleet") (codes "truck") fleet
      fleet-IsValid

fleet_truck :
    find stores fleet (codes "fleet") (codes "truck")
    ≡ some (written stores point_options (codes "truck") (shape 4) none)
unfolding find lookup_key str_eq
fleet_truck =
    find-cmd_set stores parsers (pos 5) resp (codes "set") (codes "fleet") (codes "truck")
      (drop 3 set_point) empty_server point_options (shape 4) refl point_parses refl (omega arith)
      (codes "fleet") (codes "truck")

fleet_range :
    (x : Obj)
    → find stores fleet (codes "fleet") (codes "truck") ≡ some x
    → InInt64 (object_expires x)
unfolding object_expires new_object
fleet_range x h =
    let w = written stores point_options (codes "truck") (shape 4) none in
    let e : w ≡ x = Option.some-injective _ _ (sym fleet_truck ∙ h) in
    rw
      (
        ← e,
        (new_object_id_expires geometry fields (codes "truck") (shape 4) (pos 0) []
            (omega arith)).1,
      )
      (omega arith)

abbrev field_options : FieldOptions fields
field_options = record (no_field_options fields) { fields = (codes "speed", 4) ∷ [] }

field_parses :
    fset_args parsers 0 (codes "speed" ∷ codes "fast" ∷ []) (no_field_options fields)
    ≡ ok field_options
unfolding fset_args fset_arg fset_field is_word str_eq to_lower is_reserved_field_name
field_parses = refl

abbrev fset_words : List Str
fset_words = codes "fset" ∷ codes "fleet" ∷ codes "truck" ∷ codes "speed" ∷ codes "fast" ∷ []

find-cmd_fset_example :
    IsValid stores (cmd_fset stores parsers json fset_words fleet).0
    × ((k i : Str)
        → find stores (cmd_fset stores parsers json fset_words fleet).0 k i ≡ (
            if str_eq (codes "fleet") k && str_eq (codes "truck") i
            then Option.map
                (with_fields stores field_options (codes "truck"))
                (find stores fleet (codes "fleet") (codes "truck"))
            else find stores fleet k i))
find-cmd_fset_example =
    find-cmd_fset stores parsers json (codes "fset") (codes "fleet") (codes "truck") (codes "speed")
      (codes "fast") [] fleet field_options fleet-IsValid
      (oom-cmd_set stores parsers (pos 5) resp set_point empty_server) field_parses fleet_range

find-background_expire_objects_example :
    find stores (background_expire_objects stores (pos 9) fleet).0 (codes "fleet") (codes "truck")
    ≡ keep_live (pos 9) (find stores fleet (codes "fleet") (codes "truck"))
find-background_expire_objects_example =
    find-background_expire_objects stores (pos 9) fleet fleet-IsValid (codes "fleet")
      (codes "truck")

abbrev tied : Groups stores.groups
tied =
    (connect stores.groups empty_server.groups (codes "g1") (codes "hook") (codes "fleet")
      (codes "truck")).0
