-- ===== src/Tests/Searches.antt =====
-- The theorems on searches and fences at concrete inputs.
use spatialdb_engine.Tests.Instances.{geometry, fields, trees, stores, Obj}
use spatialdb_engine.Tests.Commands.{empty_server}
use spatialdb_engine.Tests.Collections.{truck, two, two-IsConsistent}
use spatialdb_engine.Tests.Fields.{numbers, texts}
use spatialdb_engine.Tests.Patterns.{matcher, matcher-StartsLiteral, tr_star, tr_star-is_bounded}
use spatialdb_engine.Base.{
  ℕ, ◌≡◌, refl, true, false, ◌&&◌, none, some, List, [], ◌∷◌, arith, if◌then◌else◌, keep_if, take,
  ◌==◌,
}
use spatialdb_engine.Base.Text.{Str, codes, str_eq}
use spatialdb_engine.Base.Int.{pos}
use spatialdb_engine.Object.{shape, new_object, object_id, is_spatial, object_geo, geo_spatial}
use spatialdb_engine.Field.{Value, number}
use spatialdb_engine.Collection.Scan.{objects_of}
use spatialdb_engine.Server.{Details, no_details, set}
use spatialdb_engine.Server.Group.{Groups, group_get}
use spatialdb_engine.Server.Filter.{Filters}
use spatialdb_engine.Server.Scanner.{
  Search, Found, no_found, objects, with_defaults, limit_items, scan_found,
}
use spatialdb_engine.Server.Scanner.Selected.{selects}
use spatialdb_engine.Server.Scanner.Limited.{scan_found-limited}
use spatialdb_engine.Server.Fence.{Fence, intersects, Message, fence_match}
use spatialdb_engine.Server.Fence.Events.{detection, Speaks, detects, asked, detects-fence_match}
use spatialdb_engine.Server.Fence.Roam.{RoamMatch, Roam, Distances, has_id, fence_match_roam}
use spatialdb_engine.Server.Fence.Roam.Dwell.{times, fence_match_roam_lem}
use spatialdb_engine.Server.MemSize.{Decimals, parse_mem_size, format_mem_size}
use spatialdb_engine.Server.MemSize.Written.{is_digit, IsDecimal, rounded, parse-format_mem_size}
use spatialdb_engine.Base.{zero, suc, ◌+◌, ◌-◌, ◌*◌, ◌≤◌, ◌<◌, length, All, ap}
use spatialdb_engine.Server.Fence.Regroup.{Grouped, groups-fence_match}

abbrev speed_value : ℕ → Value numbers
speed_value n = record { kind = number; text = []; num = n }

abbrev filters : Filters numbers geometry fields
filters = record {
  as_value = speed_value;
  json = texts;
  matcher = matcher;
  members = λ g. [];
  get_raw = λ s path. none;
  z_text = λ g. codes "0";
  match_expr = λ e o. true;
  Script = ℕ;
  run_script = λ n o. some (n == 0);
}

-- SCAN key WHERE speed 0 9 MATCH tr*
abbrev search : Search filters
search = record {
  output = objects;
  wheres =
      record {
        expr = false;
        name = codes "speed";
        minx = false;
        min = speed_value 0;
        maxx = false;
        max = speed_value 9;
      }
      ∷ [];
  whereins = [];
  whereevals = 0 ∷ [];
  nofields = false;
  cursor = 0;
  limit = 0;
  globs = tr_star ∷ [];
  glob_everything = false;
  match_values = false;
  mvt = false;
}

scan_found-limited_example :
    (r : Found filters) × (scan_found filters
        (with_defaults filters search)
        (λ f. [])
        false
        none
        (λ i. i)
        two
      ≡ some r)
    × (r.filled
        ≡ take
            (if search.limit == 0 then limit_items else search.limit)
            (keep_if (selects filters search) (objects_of trees two (trees.objs.items two.objs))))
scan_found-limited_example =
    scan_found-limited filters search two (λ f. []) none (λ i. i) matcher-StartsLiteral
      (tr_star-is_bounded, tt) two-IsConsistent tt refl refl refl (omega arith) (λ o. (refl, tt))

abbrev area_fence : Fence geometry
area_fence = record { cmd = intersects; area = 3; detect = none; globs = [] }

abbrev far : Obj
far = new_object (codes "truck") (shape 7) (pos 70000) []

-- The truck comes from outside into the area.
abbrev move : Details Obj
move = record no_details {
  command = set;
  key = codes "fleet";
  obj = some truck;
  old = some far;
  updated = true;
}

abbrev line : {A : Type 0} → A → A → ℕ
line a b = 0

abbrev text : Obj → Str
text o = codes "{}"

abbrev names : List (Str × ℕ) → List Str
names f = []

abbrev moved : (Groups stores.groups × Found filters) × List Message
moved =
    fence_match filters stores.groups search area_fence line text names empty_server.groups
      (no_found filters) (codes "g1") (codes "hook") move

move-Speaks :
    Speaks filters stores.groups search area_fence line text names empty_server.groups
      (no_found filters)
      (codes "g1")
      (codes "hook")
      move
      truck
unfolding is_spatial object_geo geo_spatial new_object
move-Speaks = record {
  named = refl;
  no_drop = refl;
  no_del = refl;
  no_fset = refl;
  matched = refl;
  spatial = refl;
  writes = refl;
  braced = refl;
}

detects-fence_match_example :
    detects moved.1
    ≡ asked area_fence (
        detection filters stores.groups search area_fence line text names empty_server.groups
          (no_found filters)
          (codes "g1")
          (codes "hook")
          (some far)
          truck)
detects-fence_match_example =
    detects-fence_match filters stores.groups search area_fence line text names empty_server.groups
      (no_found filters) (codes "g1") (codes "hook") move truck move-Speaks

groups-fence_match_example :
    Grouped
      (group_get stores.groups moved.0.0 (codes "hook") (codes "fleet") (object_id truck))
      moved.1
    × ((h k i : Str)
        → (str_eq (codes "hook") h && str_eq (codes "fleet") k && str_eq (object_id truck) i)
          ≡ false
        → group_get stores.groups moved.0.0 h k i
          ≡ group_get stores.groups empty_server.groups h k i)
groups-fence_match_example =
    groups-fence_match filters stores.groups search area_fence line text names empty_server.groups
      (no_found filters) (codes "g1") (codes "hook") move truck move-Speaks

abbrev distances : Distances geometry
distances = record { distance = λ a b. 0; around = λ a m. 0; sort = λ l. l }

abbrev roam : Roam geometry
roam = record { id = tr_star; pattern = true; meters = 5; nodwell = true }

abbrev near : Str → RoamMatch geometry
near id = record { id = id; obj = shape 3; meters = 1 }

fence_match_roam_lem_example :
    (times
        (codes "a")
        (fence_match_roam distances roam
          (shape 3)
          (near (codes "a") ∷ near (codes "b") ∷ [])
          (near (codes "b") ∷ [])).0
      ≡ (if roam.nodwell && has_id (codes "a") (near (codes "a") ∷ near (codes "b") ∷ [])
          then 0
          else times (codes "a") (near (codes "b") ∷ [])))
    × (times
          (codes "a")
          (fence_match_roam distances roam
            (shape 3)
            (near (codes "a") ∷ near (codes "b") ∷ [])
            (near (codes "b") ∷ [])).1
        ≡ (if has_id (codes "a") (near (codes "b") ∷ [])
            then 0
            else times (codes "a") (near (codes "a") ∷ near (codes "b") ∷ [])))
unfolding str_eq
fence_match_roam_lem_example =
    fence_match_roam_lem distances roam (shape 3) (near (codes "a") ∷ near (codes "b") ∷ [])
      (near (codes "b") ∷ []) (codes "a") (λ i l. refl) (omega arith) (omega arith)

strokes : ℕ → Str
strokes zero = b'0' ∷ []
strokes (suc n) = b'0' ∷ strokes n

strokes-digits : (n : ℕ) → All (λ c. is_digit c ≡ true) (strokes n)
unfolding strokes
strokes-digits zero = (refl, tt)
strokes-digits (suc n) = (refl, strokes-digits n)

length-strokes : (n : ℕ) → length (strokes n) ≡ n + 1
unfolding strokes
length-strokes zero = refl
length-strokes (suc n) = omega (arith, length-strokes n)

-- Numbers as strokes.
abbrev decimals : Decimals
decimals = record { parse_uint = λ s. some (length s - 1); format_int = strokes; lower = λ s. s }

decimals-IsDecimal : IsDecimal decimals
decimals-IsDecimal = record {
  digits = strokes-digits;
  some_digit = λ n. omega (arith, length-strokes n);
  read_back = λ n h.
      let e : length (strokes n) - 1 ≡ n = omega (arith, length-strokes n) in ap (λ m. some m) e;
  lowered = λ s h. refl;
}

parse-format_mem_size_example :
    (parse_mem_size decimals (format_mem_size decimals (pos 3000)) ≡ some (pos (rounded 3000)))
    × (rounded 3000 ≤ 3000)
    × (3000 < 2 * rounded 3000)
parse-format_mem_size_example =
    parse-format_mem_size decimals decimals-IsDecimal 3000 (omega arith) (omega arith)
