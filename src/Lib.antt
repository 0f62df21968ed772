-- ===== src/Lib.antt =====
-- The spatial database engine of internal/legacy, a geospatial server in Go: its objects, its
-- collections with their indexes, its lists of fields, its commands on data, SCAN, and its fences.
--
-- The program keeps collections of objects by key, in a sorted tree. A collection keeps its objects
-- by id, and four views of the same objects: an R-tree of those with a geometry, a tree of the others
-- by value, a tree of those that expire by time, and the counters. A command reads its arguments,
-- finds its collection, and writes objects through it; an emptied collection is dropped. A hook can
-- be tied to an object by a group, and DEL and DROP untie it.
--
-- Geometry.antt and Object.antt: internal/legacy/object/object_binary.go and collection/string.go. An
-- object is its head (kind, expiration and id in one string), its fields and its body.
-- Object/Head.antt proves what the head gives back. Varint.antt: the numbers of the head.
-- Shared.antt: internal/legacy/sstring/sstring.go. Field.antt: internal/legacy/field/field.go, with the
-- order of the values in Field/Order.antt. Field/Binary.antt: internal/legacy/field/list_binary.go, a
-- list of fields in bytes. Its children relate the bytes to a list: Encoding.antt, Update.antt for
-- Set, Reads.antt and Found.antt for Get and Scan, Length.antt for Len and String, Names.antt and Map.antt for the map
-- by name.
-- Index.antt: the trees of other packages as interfaces, specified by sorted lists in
-- Index/Sorted.antt.
-- Collection.antt and Collection/Order.antt, Walk.antt, Scan.antt, Search.antt:
-- internal/legacy/collection/collection.go. `set`, `delete` and `get` are Set, Delete and Get; the
-- blocks of setFill are `unfill` and `fill`; a scan is `each` over the tree's items with a `visit` that
-- does what the callbacks share. Describes.antt, Upkeep.antt, Invariant.antt, Visited.antt and
-- Matches.antt have the theorems.
-- Server.antt and Server/Args.antt, SetArgs.antt, Set.antt, Fields.antt, Delete.antt, Expiry.antt,
-- Read.antt, Group.antt: the commands of internal/legacy/server/crud.go, group.go and expire.go.
-- `cmd_set` is cmdSET, and so on; a command takes the server and gives the server after it, with the
-- reply and the details for the log, or an error. Keys.antt has the validity of a server and the tree
-- of collections; Writes.antt, Updates.antt, Deletes.antt, Moves.antt, Sweep.antt, Due.antt,
-- Expired.antt and Ties.antt have the theorems.
-- Glob.antt: internal/legacy/glob/glob.go, with what its limits promise in Glob/Limits.antt.
-- Server/Patterns.antt: PDEL of crud.go and KEYS of internal/legacy/server/keys.go; Purges.antt and
-- Listing.antt have the theorems.
-- Server/Filter.antt: the filters of internal/legacy/server/token.go and scanner.go. Server/Scanner.antt:
-- the writer of results of scanner.go and the search of scan.go, with theorems in Scanner/Ranges.antt,
-- Push.antt, Selected.antt and Limited.antt. Server/Fence.antt: the events of internal/legacy/server/fence.go, with
-- theorems in Fence/Events.antt and Regroup.antt. Fence/Roam.antt: its roaming objects, with a theorem
-- in Roam/Dwell.antt.
-- Server/Hooks.antt: the hooks of internal/legacy/server/hooks.go in their trees. `set_hook` is what
-- cmdSetHook does behind its arguments, `del_hook_op` is cmdDELHOOKop. Hooks/Removal.antt: PDELHOOK,
-- HOOKS, and `backgroundExpireHooks` of internal/legacy/server/expire.go. Hooks/Candidates.antt:
-- `getQueueCandidates` of internal/legacy/server/aof.go. Hooks/Store.antt has the agreement of the trees;
-- Registry.antt, Removed.antt, Purged.antt, Lapsed.antt, Candidates/Found.antt and
-- Candidates/Complete.antt have the theorems, with Index/Kept.antt and Index/Boxes.antt.
-- Server/Aof.antt: `writeAOF`, `flushAOF` and `loadAOF` of internal/legacy/server/aof.go, with theorems in
-- Aof/Written.antt, Chunks.antt, Loaded.antt and Recovery.antt.
-- Server/Dispatch.antt: the choice of a data command, the guards of a write and the log behind it, of
-- `handleInputCommand` and `command` in internal/legacy/server/server.go, with theorems in
-- Dispatch/Failing.antt, Dispatch/Unlogged.antt and Dispatch/Validity.antt.
-- Server/MemSize.antt: the memory sizes of internal/legacy/server/config.go, with MemSize/Written.antt.
-- Tests.antt and Tests/ have an instance of every parameter and the theorems at concrete inputs.
--
-- Parameters: the geometries of spatialdb-dev/geojson, the trees of spatialdb-dev/btree and
-- spatialdb-dev/rtree, floating-point numbers, the parsers of numbers, geohashes and GeoJSON, the
-- matching of patterns, the JSON library, the scripts and expressions of filters, and the
-- encoding of commands in the append-only file (spatialdb-dev/redcon). A server of
-- those is a `Stores`, which takes its field lists by their operations (`FieldLists`). The clock is an
-- argument.
-- Bounds: int64 times wrap at 2 ^ 64; the groups of a varint are cut at 2 ^ 64; a cursor wraps at 2 ^ 64.
-- The counters of a collection are integers without a bound, since no collection has 2 ^ 63 points.
-- The loops over the bytes of a field list run on fuel, one more than the number of bytes: a round reads
-- a byte at least. So does the loop of `loadAOF`, with one more than the number of bytes in its data.
-- The loop over the near objects of a roaming fence runs on their number. Every other
-- loop is over a list of arguments, fields or items, or over the depth of a sparse search, or falls
-- with the number that it writes.
--
-- Not modelled: the text of replies, elapsed times and timestamps; FLUSHDB, the JSON commands JSET,
-- JDEL and JGET, BOUNDS and NEARBY; a log that cannot be written, which ends the process; the messages
-- of roaming fences, the arguments of SETHOOK and the hooks' queue; the search commands but SCAN, and
-- the parser of their arguments; the shrink of the append-only file, the configuration but its memory sizes, replication and
-- scripts; the command-line programs and adapters; the copies of other projects' libraries; the C++
-- engine.
pub mod Base
pub mod Index
pub mod Varint
pub mod Shared
pub mod Field
pub mod Glob
pub mod Geometry
pub mod Object
pub mod Collection
pub mod Server
pub mod Tests
