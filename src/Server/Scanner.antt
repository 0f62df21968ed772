-- ===== src/Server/Scanner.antt =====
-- The writer of search results of internal/legacy/server/scanner.go, `multiGlobParse` of
-- internal/legacy/server/search.go, and SCAN of internal/legacy/server/scan.go. The text of the results
-- is left out.
pub mod Ranges
pub mod Push
pub mod Selected
pub mod Limited
use spatialdb_engine.Base.{
  ℕ, ◌+◌, ◌-◌, ◌%◌, ◌^◌, Bool, true, false, not, ◌&&◌, ◌||◌, Option, none, some, List, [], ◌∷◌,
  ◌++◌, ◌==◌, ltb, if◌then◌else◌,
}
use spatialdb_engine.Base.Text.{Str, codes, str_eq, str_lt}
use spatialdb_engine.Base.Int.{ℤ, pos, negsuc, pos_part, ltb_ℤ}
use spatialdb_engine.Geometry.{Geometry, FieldLists}
use spatialdb_engine.Object.{Object, Geo, object_id, object_geo, object_expires, geo_text}
use spatialdb_engine.Field.{Numbers}
use spatialdb_engine.Glob.{Matcher, is_match, parse, is_empty, is_everything}
use spatialdb_engine.Index.Sorted.{insert_key}
use spatialdb_engine.Collection
use spatialdb_engine.Collection.{Trees, Collection}
use spatialdb_engine.Collection.Walk.{Cursor, Deadline, Visit, Walk}
use spatialdb_engine.Collection.Scan.{scan, scan_range}
use spatialdb_engine.Server.{sub_int64}
use spatialdb_engine.Server.Filter.{
  Filters, Where, Wherein, match_wheres, match_whereins, run_scripts,
}

-- `outputT`, and the limit of a search without one.
pub data OutputKind : Type 0 where
  unknown ids objects counted points hashes bounds : OutputKind

abbrev pub is_counted : OutputKind → Bool
is_counted counted = true
is_counted _ = false

abbrev pub is_unknown : OutputKind → Bool
is_unknown unknown = true
is_unknown _ = false

abbrev pub limit_items : ℕ
limit_items = 100

abbrev pub max_uint64 : ℕ
max_uint64 = 2 ^ 64 - 1

abbrev pub matches_all : List Str → Bool
matches_all [] = true
matches_all (g ∷ []) = str_eq g (codes "*")
matches_all (g ∷ h ∷ gs) = false

abbrev pub is_none : {A : Type 0} → List A → Bool
is_none [] = true
is_none (x ∷ xs) = false

unfoldable pub any_match : Matcher → List Str → Str → Bool
any_match M [] val = false
any_match M (g ∷ gs) val = is_match M g val || any_match M gs val

-- `multiGlobMatch` of fence.go.
abbrev pub multi_glob_match : Matcher → List Str → Str → Bool
multi_glob_match M globs s = if matches_all globs then true else any_match M globs s

abbrev pub min_str : Str → Str → Str
min_str a b = if str_lt b a then b else a

abbrev pub max_str : Str → Str → Str
max_str a b = if str_lt a b then b else a

-- The rounds of `multiGlobParse` behind the first.
unfoldable pub multi_limits : Matcher → Bool → List Str → Str × Str → Str × Str
multi_limits M desc [] limits = limits
multi_limits M desc (g ∷ gs) (lo, hi) =
    let p = parse M g desc in
    let rest = multi_limits M desc gs (
      if desc
      then (max_str lo p.limits.0, min_str hi p.limits.1)
      else (min_str lo p.limits.0, max_str hi p.limits.1)) in
    if is_everything p then ([], []) else rest

unfoldable pub multi_glob_parse : Matcher → Bool → List Str → Str × Str
unfolding multi_limits
multi_glob_parse M desc [] = ([], [])
multi_glob_parse M desc (g ∷ gs) =
    let p = parse M g desc in
    let rest = multi_limits M desc gs p.limits in if is_everything p then ([], []) else rest

-- `int(x)` of a uint64.
unfoldable pub int_of : ℕ → ℤ
int_of x = if ltb x (2 ^ 63) then pos x else negsuc (2 ^ 64 - x - 1)

-- The field names of the results: a sorted set.
unfoldable pub insert_names : List Str → List (Str × Unit {0}) → List (Str × Unit {0})
insert_names [] keys = keys
insert_names (name ∷ names) keys = insert_names names (insert_key name tt keys)

module _ {N : Numbers} {G : Geometry} {F : FieldLists} (P : Filters N G F) where
  -- What stays the same of a `scanWriter` while it is used.
  pub record Search : Type 0 where
    pub output : OutputKind
    pub wheres : List (Where N)
    pub whereins : List (Wherein N)
    pub whereevals : List P.Script
    pub nofields : Bool
    pub cursor : ℕ
    pub limit : ℕ
    pub globs : List Str
    pub glob_everything : Bool
    pub match_values : Bool
    pub mvt : Bool

  -- What changes, but for the steps that it counts as a cursor.
  pub record Found : Type 0 where
    pub count : ℕ
    pub number_items : ℕ
    pub hit_limit : Bool
    pub full_fields : Bool
    pub fkeys : List (Str × Unit {0})
    pub filled : List (Object G F)
    pub mvt_objs : List (Str × Geo G)

  -- `newScanWriter`: a limit of 0 stands for the default, and no search has an unknown output.
  abbrev pub with_defaults : Search → Search
  with_defaults w = record w {
    limit =
        if w.limit == 0 then (if is_counted w.output then max_uint64 else limit_items) else w.limit;
    glob_everything = matches_all w.globs;
  }

  unfoldable pub new_search : Search → Option Search
  new_search w = if is_unknown w.output then none else some (with_defaults w)

  abbrev pub no_found : Found
  no_found = record {
    count = 0;
    number_items = 0;
    hit_limit = false;
    full_fields = false;
    fkeys = [];
    filled = [];
    mvt_objs = [];
  }

  module _ (w : Search) where
    -- `fieldMatch`: a `none` for the error of a script.
    unfoldable pub field_match : Object G F → Option Bool
    field_match o =
        if not (match_wheres P o w.wheres)
        then some false
        else if not (match_whereins P o w.whereins)
        then some false
        else run_scripts P o w.whereevals

    unfoldable pub glob_match : Object G F → Bool
    glob_match o =
        if w.glob_everything
        then true
        else any_match P.matcher w.globs
            (if w.match_values then geo_text (object_geo o) else object_id o)

    -- `testObject`: it never asks to stop, but for an error.
    unfoldable pub test_object : Object G F → Option Bool
    unfolding field_match glob_match
    test_object o = if not (glob_match o) then some false else field_match o

    -- The second half of `pushObject`, of an object that passed, without a clip. The names of the
    -- fields are given by `names`.
    unfoldable pub keep_object : (F.Fields → List Str) → Object G F → Found → Bool × Found
    keep_object names o r =
        let r1 = record r { count = (r.count + 1) % 2 ^ 64 } in
        if is_counted w.output
        then (ltb r1.count w.limit, r1)
        else (let r2 = record r1 {
          mvt_objs = if w.mvt then r.mvt_objs ++ (object_id o, object_geo o) ∷ [] else r.mvt_objs;
          fkeys = if not r.full_fields then insert_names (names o.fields) r.fkeys else r.fkeys;
          filled = r.filled ++ o ∷ [];
          number_items = (r.number_items + 1) % 2 ^ 64;
        } in
            if r2.number_items == w.limit
            then (false, record r2 { hit_limit = true })
            else (true, r2))

    -- `pushObject` in a search, and the callback around it: an error is kept, and ends the search.
    unfoldable pub push_tested :
        (F.Fields → List Str) → Object G F → Option Bool → Option Found → Bool × Option Found
    unfolding keep_object
    push_tested names o test none = (false, none)
    push_tested names o none (some r) = (false, none)
    push_tested names o (some false) (some r) = (true, some r)
    push_tested names o (some true) (some r) = let (go, r') = keep_object names o r in (go, some r')

    unfoldable pub push_object : (F.Fields → List Str) → Visit (Object G F) (Option Found)
    unfolding push_tested test_object
    push_object names o r = push_tested names o (test_object o) r

    -- The search of `cmdScan` in the collection.
    unfoldable pub scan_found :
        {X : Trees G F}
        → (F.Fields → List Str)
        → Bool
        → Option Deadline
        → (ℕ → ℕ)
        → Collection X
        → Option Found
    unfolding push_object
    scan_found {X} names desc deadline now c =
        let quick =
          is_counted w.output
          && is_none w.wheres
          && is_none w.whereins
          && is_none w.whereevals
          && w.glob_everything in
        let limits = multi_glob_parse P.matcher desc w.globs in
        let cursor = some (record { offset = w.cursor; number_iters = 0 }) in
        if quick
        then (let n = sub_int64 (Collection.count X c) (int_of w.cursor) in
            some (record no_found { count = if ltb_ℤ n (pos 0) then 0 else pos_part n }))
        else if is_empty limits.0 && is_empty limits.1
        then (scan X c desc cursor deadline now (push_object names) (some no_found)).user
        else (scan_range X c desc cursor deadline now (push_object names) (some no_found) limits.0
            limits.1).user
