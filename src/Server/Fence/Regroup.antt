-- ===== src/Server/Fence/Regroup.antt =====
-- What `fenceMatch` of internal/legacy/server/fence.go does to the groups of its hook.
use spatialdb_engine.Base.{
  ◌≡◌, refl, sym, ◌∙◌, Bool, true, false, ◌&&◌, Option, none, some, List, [], ◌∷◌, ◌++◌, arith,
  if◌then◌else◌, All, Bool-cases, inl, inr,
}
use spatialdb_engine.Base.Text.{Str, str_eq, str_eq_refl}
use spatialdb_engine.Geometry.{Geometry, FieldLists}
use spatialdb_engine.Object.{Object, Geo, object_id}
use spatialdb_engine.Field.{Numbers}
use spatialdb_engine.Server.{CommandName, Details}
use spatialdb_engine.Server.Group.{Groups, GroupTrees, group_get, connect, disconnect}
use spatialdb_engine.Server.Ties.{group_get-connect}
use spatialdb_engine.Server.Filter.{Filters}
use spatialdb_engine.Server.Scanner.{Search, Found}
use spatialdb_engine.Server.Fence.{
  Detect, inside, outside, enter, exit, cross, Message, event, dropped, deleted, plain, Fence,
  allows, settle, regroup, events, fence_settled, fence_detected, starts_brace, is_blank,
}
use spatialdb_engine.Server.Fence.Events.{Speaks, after, raw, fence_match_lem, fence_write_lem}

-- The group that an event names.
abbrev pub group_of : Message → Option Str
group_of (event verb group d key tail) = some group
group_of (dropped key) = none
group_of (deleted key id) = none
group_of (plain text) = none

abbrev pub Grouped : Str → List Message → Type 0
Grouped group = All (λ (m : Message). group_of m ≡ some group)

Grouped-if :
    (group : Str) (m : Message) (b : Bool)
    → group_of m ≡ some group
    → Grouped group (if b then m ∷ [] else [])
Grouped-if group m true p = (p, tt)
Grouped-if group m false p = tt

Grouped-append :
    (group : Str) (xs ys : List Message)
    → Grouped group xs
    → Grouped group ys
    → Grouped group (xs ++ ys)
Grouped-append group [] ys h k = k
Grouped-append group (x ∷ xs) ys h k = (h.0, Grouped-append group xs ys h.1 k)

module _ {N : Numbers} {G : Geometry} {F : FieldLists} (P : Filters N G F) (T : GroupTrees)
    (w : Search P) (fence : Fence G) (line : Geo G → Geo G → G.Shape) (text : Object G F → Str)
    (names : F.Fields → List Str) where
  module _ (groups : Groups T) (r : Found P) (group_id hook : Str) where
    connect_id : (s : Groups T) (key id : Str) → (connect T s group_id hook key id).1 ≡ group_id
    unfolding connect
    connect_id s key id = refl

    connected :
        (s : Groups T) (key id : Str)
        → ((connect T s group_id hook key id).1
            ≡ group_get T (connect T s group_id hook key id).0 hook key id)
          × ((h k i : Str)
              → (str_eq hook h && str_eq key k && str_eq id i) ≡ false
              → group_get T (connect T s group_id hook key id).0 h k i ≡ group_get T s h k i)
    connected s key id =
        let (tied, untied) = group_get-connect T s group_id hook key id in
        (
          connect_id s key id
              ∙ sym (
                  tied hook key id
                  ∙ ground (arith, str_eq_refl hook, str_eq_refl key, str_eq_refl id)),
          λ h k i other. tied h k i ∙ rw other refl,
        )

    got :
        (key id : Str)
        → ((if is_blank (group_get T groups hook key id)
              then connect T groups group_id hook key id
              else (groups, group_get T groups hook key id)).1
            ≡ group_get T
                (if is_blank (group_get T groups hook key id)
                  then connect T groups group_id hook key id
                  else (groups, group_get T groups hook key id)).0
                hook
                key
                id)
          × ((h k i : Str)
              → (str_eq hook h && str_eq key k && str_eq id i) ≡ false
              → group_get T
                  (if is_blank (group_get T groups hook key id)
                    then connect T groups group_id hook key id
                    else (groups, group_get T groups hook key id)).0
                  h
                  k
                  i
                ≡ group_get T groups h k i)
    got key id = elim (Bool-cases (is_blank (group_get T groups hook key id))) [
      | inl t ↦ rw t (connected groups key id)
      | inr f ↦ rw f (refl, λ h k i other. refl)
    ]

    -- The group that the events are told with is the one that the object then has, and no other tie
    -- changes.
    regrouped :
        (key id : Str) (x : Detect)
        → ((regroup P T w fence line text names groups group_id hook key id x).1
            ≡ group_get T
                (regroup P T w fence line text names groups group_id hook key id x).0
                hook
                key
                id)
          × ((h k i : Str)
              → (str_eq hook h && str_eq key k && str_eq id i) ≡ false
              → group_get T
                  (regroup P T w fence line text names groups group_id hook key id x).0
                  h
                  k
                  i
                ≡ group_get T groups h k i)
    unfolding regroup
    regrouped key id enter = connected groups key id
    regrouped key id cross =
        let (same, kept) = connected (disconnect T groups hook key id) key id in
        let untied = (group_get-connect T groups group_id hook key id).1 in
        (same, λ h k i other. kept h k i other ∙ untied h k i ∙ rw other refl)
    regrouped key id exit = got key id
    regrouped key id inside = got key id
    regrouped key id outside = got key id

    groups-events :
        (verb : CommandName) (group key res : Str) (x : Detect)
        → starts_brace res ≡ true
        → Grouped group (events P T w fence line text names verb group key res x)
    unfolding events
    groups-events verb group key res enter h =
        Grouped-append group _ _ (Grouped-if group _ (allows fence enter) (rw h refl))
          (Grouped-if group _ (allows fence inside) refl)
    groups-events verb group key res exit h =
        Grouped-append group _ _ (Grouped-if group _ (allows fence exit) (rw h refl))
          (Grouped-if group _ (allows fence outside) refl)
    groups-events verb group key res cross h =
        Grouped-append group _ _ (Grouped-if group _ (allows fence cross) (rw h refl))
          (Grouped-if group _ (allows fence outside) refl)
    groups-events verb group key res inside h = Grouped-if group _ (allows fence inside) (rw h refl)
    groups-events verb group key res outside h =
        Grouped-if group _ (allows fence outside) (rw h refl)

    -- What holds of the groups and the messages after a fence.
    abbrev Ties : Str → Str → (Groups T × Found P) × List Message → Type 0
    Ties key id q =
        Grouped (group_get T q.0.0 hook key id) q.1
        × ((h k i : Str)
            → (str_eq hook h && str_eq key k && str_eq id i) ≡ false
            → group_get T q.0.0 h k i ≡ group_get T groups h k i)

    Ties-settled :
        (d : Details (Object G F)) (o : Object G F) (m : Option Detect)
        → Speaks P T w fence line text names groups r group_id hook d o
        → Ties d.key
            (object_id o)
            (fence_settled P T w fence line text names groups r group_id hook d.command d.key o m)
    unfolding fence_settled
    Ties-settled d o none h = (tt, λ k i j other. refl)
    Ties-settled d o (some x) h =
        let (r', e) = fence_write_lem P T w fence line text names groups r group_id hook d o x h in
        let (same, kept) = regrouped d.key (object_id o) x in
        rw e (rw (← same) (groups-events d.command _ d.key (text o) x h.braced), kept)

    Ties-detected :
        (d : Details (Object G F)) (o : Object G F) (m : Option Detect)
        → Speaks P T w fence line text names groups r group_id hook d o
        → Ties d.key
            (object_id o)
            (fence_detected P T w fence line text names groups r group_id hook d.command d.key o m)
    unfolding fence_detected
    Ties-detected d o none h = (tt, λ k i j other. refl)
    Ties-detected d o (some x) h = Ties-settled d o (settle fence x) h

    -- A command other than DEL, DROP and FSET wrote an object with a geometry, whose id the patterns of
    -- the fence let through, and the hook does not only count and writes an object as JSON: then each
    -- event that the fence tells names the group that the hook and the object then have, and no other tie
    -- of a hook and an object changes.
    pub groups-fence_match :
        (d : Details (Object G F)) (o : Object G F)
        → Speaks P T w fence line text names groups r group_id hook d o
        → Grouped
            (group_get T
              (after P T w fence line text names groups r group_id hook d).0.0
              hook
              d.key
              (object_id o))
            (after P T w fence line text names groups r group_id hook d).1
          × ((h k i : Str)
              → (str_eq hook h && str_eq d.key k && str_eq (object_id o) i) ≡ false
              → group_get T (after P T w fence line text names groups r group_id hook d).0.0 h k i
                ≡ group_get T groups h k i)
    groups-fence_match d o h =
        rw (fence_match_lem P T w fence line text names groups r group_id hook d o h)
          (Ties-detected d o (raw P T w fence line text names groups r group_id hook d o) h)
