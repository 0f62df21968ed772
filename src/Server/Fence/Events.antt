-- ===== src/Server/Fence/Events.antt =====
-- What `fenceMatch` of internal/legacy/server/fence.go says of an object, and what it does to the groups.
use spatialdb_engine.Base.{
  ◌≡◌, refl, sym, ap, ◌∙◌, Bool, true, false, not, ◌&&◌, if◌then◌else◌, Option-cases, inl, inr,
  Option, none, some, List, [], ◌∷◌, arith, keep_if,
}
use spatialdb_engine.Base.Text.{Str}
use spatialdb_engine.Geometry.{Geometry, FieldLists}
use spatialdb_engine.Object.{Object, Geo, object_id, is_spatial}
use spatialdb_engine.Field.{Numbers}
use spatialdb_engine.Server.{CommandName, Details}
use spatialdb_engine.Server.Group.{Groups, GroupTrees}
use spatialdb_engine.Server.Filter.{Filters}
use spatialdb_engine.Server.Scanner.{
  Search, Found, is_counted, multi_glob_match, test_object, field_match,
}
use spatialdb_engine.Server.Fence.{
  Detect, inside, outside, enter, exit, cross, Message, event, dropped, deleted, plain, Fence,
  allows, settle, fence_match_object, inside_fence, no_cross, crosses, detect, regroup, events,
  write_object, fence_write, fence_settled, fence_detected, fence_object, fence_named, fence_match,
  is_drop, is_del, is_fset, starts_brace, is_blank,
}

-- What a detection stands for, in the order in which it is told.
abbrev pub expand : Detect → List Detect
expand enter = enter ∷ inside ∷ []
expand exit = exit ∷ outside ∷ []
expand cross = cross ∷ outside ∷ []
expand inside = inside ∷ []
expand outside = outside ∷ []

abbrev pub detects : List Message → List Detect
detects [] = []
detects (event verb group d key tail ∷ msgs) = d ∷ detects msgs
detects (dropped key ∷ msgs) = detects msgs
detects (deleted key id ∷ msgs) = detects msgs
detects (plain text ∷ msgs) = detects msgs

module _ {G : Geometry} where
  abbrev pub asked : Fence G → Option Detect → List Detect
  asked fence none = []
  asked fence (some d) = keep_if (allows fence) (expand d)

module _ {N : Numbers} {G : Geometry} {F : FieldLists} (P : Filters N G F) (T : GroupTrees)
    (w : Search P) (fence : Fence G) (line : Geo G → Geo G → G.Shape) (text : Object G F → Str)
    (names : F.Fields → List Str) where
  detects-events :
      (verb : CommandName) (group key res : Str) (d : Detect)
      → starts_brace res ≡ true
      → detects (events P T w fence line text names verb group key res d)
        ≡ keep_if (allows fence) (expand d)
  unfolding events
  detects-events verb group key res enter h = ground arith
  detects-events verb group key res exit h = ground arith
  detects-events verb group key res cross h = ground arith
  detects-events verb group key res inside h = ground arith
  detects-events verb group key res outside h = ground arith

  -- The settled detection tells what was asked for, or nothing was.
  settle-asked :
      (d : Detect)
      → keep_if (allows fence) (expand d)
        ≡ elim (settle fence d) [ none ↦ [] | some d' ↦ keep_if (allows fence) (expand d') ]
  unfolding settle
  settle-asked enter = ground arith
  settle-asked exit = ground arith
  settle-asked cross = ground arith
  settle-asked inside = ground arith
  settle-asked outside = ground arith

  module _ (groups : Groups T) (r : Found P) (group_id hook : Str) where
    -- The outcome of a fence on the details.
    abbrev pub after : Details (Object G F) → (Groups T × Found P) × List Message
    after d = fence_match P T w fence line text names groups r group_id hook d

    -- The details are of an object that the fence speaks of: a command that is no DEL, DROP or FSET,
    -- on an object with a geometry, whose id the patterns let through; and the hook does not only
    -- count, and writes an object as JSON.
    pub record Speaks (d : Details (Object G F)) (o : Object G F) : Type 0 where
      pub named : d.obj ≡ some o
      pub no_drop : is_drop d.command ≡ false
      pub no_del : is_del d.command ≡ false
      pub no_fset : is_fset d.command ≡ false
      pub matched : multi_glob_match P.matcher fence.globs (object_id o) ≡ true
      pub spatial : is_spatial o ≡ true
      pub writes : is_counted w.output ≡ false
      pub braced : starts_brace (text o) ≡ true

    abbrev pub raw : Details (Object G F) → Object G F → Option Detect
    raw d o = detect P T w fence line text names d.command d.old o

    -- An object that is in the area and passes the tests of the search.
    abbrev pub is_in : Option (Object G F) → Bool
    is_in none = false
    is_in (some o) =
        fence_match_object fence (some o) && elim (test_object P w o) [ none ↦ false | some b ↦ b ]

    -- What a write of `o` over `old`, that is no FSET, says of a fence: by whether each of them is in it;
    -- of two that are not, nothing if the filters on fields stop `o`, a crossing if neither lies in the
    -- area but the line between them meets it, and else that `o` is outside.
    abbrev pub detection : Option (Object G F) → Object G F → Option Detect
    detection old o =
        if is_in old
        then some (if is_in (some o) then inside else exit)
        else if is_in (some o)
        then some enter
        else if not (elim (field_match P w o) [ none ↦ false | some b ↦ b ])
        then none
        else if not (fence_match_object fence (some o))
            && not (fence_match_object fence old)
            && crosses P T w fence line text names old o
        then some cross
        else some outside

    raw-detection :
        (d : Details (Object G F)) (o : Object G F)
        → is_fset d.command ≡ false
        → raw d o ≡ detection d.old o
    unfolding detect inside_fence no_cross crosses fence_match_object
    raw-detection d o f = elim (Option-cases d.old) [
      | inl n ↦ rw n (ground arith)
      | inr (x, n) ↦ rw n (ground arith)
    ]

    pub fence_match_lem :
        (d : Details (Object G F)) (o : Object G F)
        → Speaks d o
        → after d
          ≡ fence_detected P T w fence line text names groups r group_id hook d.command d.key o
              (raw d o)
    unfolding fence_match fence_named fence_object
    fence_match_lem d o h = rw (h.no_drop, h.named, h.matched, h.spatial, h.no_fset, h.no_del) refl

    brace_blank : (res : Str) → starts_brace res ≡ true → is_blank res ≡ false
    brace_blank [] h = ground arith
    brace_blank (c ∷ s) h = refl

    -- What is written once a detection is settled.
    pub fence_write_lem :
        (d : Details (Object G F)) (o : Object G F) (x : Detect)
        → Speaks d o
        → (r' : Found P) × (fence_write P T w fence line text names groups r group_id hook d.command
              d.key o x
            ≡ (
              (
                (regroup P T w fence line text names groups group_id hook d.key (object_id o) x).0,
                r',
              ),
              events P T w fence line text names d.command
                  (regroup P T w fence line text names groups group_id hook d.key (object_id o) x).1
                  d.key
                  (text o)
                  x,
            ))
    unfolding fence_write write_object
    fence_write_lem d o x h =
        let blank = brace_blank (text o) h.braced in
        (
          (write_object P T w fence line text names o r).0,
          unfold write_object in rw (h.writes, blank) refl,
        )

    detects-fence_settled :
        (d : Details (Object G F)) (o : Object G F) (m : Option Detect)
        → Speaks d o
        → detects
            (fence_settled P T w fence line text names groups r group_id hook d.command d.key o m).1
          ≡ elim m [ none ↦ [] | some x ↦ keep_if (allows fence) (expand x) ]
    unfolding fence_settled
    detects-fence_settled d o none h = refl
    detects-fence_settled d o (some x) h =
        let (r', e) = fence_write_lem d o x h in
        ap (λ (q : (Groups T × Found P) × List Message). detects q.1) e
        ∙ detects-events d.command _ d.key (text o) x h.braced

    detects-fence_detected :
        (d : Details (Object G F)) (o : Object G F) (m : Option Detect)
        → Speaks d o
        → detects
            (fence_detected P T w fence line text names groups r group_id hook d.command d.key o
              m).1
          ≡ asked fence m
    unfolding fence_detected
    detects-fence_detected d o none h = refl
    detects-fence_detected d o (some x) h =
        detects-fence_settled d o (settle fence x) h ∙ sym (settle-asked x)

    -- A command other than DEL, DROP and FSET wrote an object with a geometry, whose id the patterns of
    -- the fence let through, and the hook does not only count and writes an object as JSON: then the
    -- fence tells exactly those events that it asks for among what the detection stands for, in order.
    -- An enter also means inside, and an exit and a cross also mean outside.
    pub detects-fence_match :
        (d : Details (Object G F)) (o : Object G F)
        → Speaks d o
        → detects (after d).1 ≡ asked fence (detection d.old o)
    detects-fence_match d o h =
        ap (λ (q : (Groups T × Found P) × List Message). detects q.1) (fence_match_lem d o h)
        ∙ detects-fence_detected d o (raw d o) h
        ∙ ap (asked fence) (raw-detection d o h.no_fset)
