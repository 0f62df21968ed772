-- ===== src/Server/Fence/Roam/Dwell.antt =====
-- What `fenceMatchRoam` of internal/legacy/server/fence.go makes of the lists of near objects.
use spatialdb_engine.Base.{
  ℕ, zero, suc, ◌+◌, ◌≤◌, ◌≡◌, refl, ◌∙◌, Bool, true, false, ◌&&◌, List, [], ◌∷◌, ◌++◌, map, ltb,
  if◌then◌else◌, length, arith, Bool-cases, inl, inr,
}
use spatialdb_engine.Base.Text.{Str, str_eq, str_eq_iff}
use spatialdb_engine.Geometry.{Geometry}
use spatialdb_engine.Object.{Geo}
use spatialdb_engine.Server.Fence.Roam.{
  RoamMatch, Roam, Distances, has_id, last_of, init_of, move_last, remove_match, drop_dwelling,
  fence_match_roam,
}

module _ {G : Geometry} where
  -- How often an id is in a list.
  abbrev pub times : Str → List (RoamMatch G) → ℕ
  times i [] = 0
  times i (m ∷ ms) = (if str_eq m.id i then 1 else 0) + times i ms

  times-has_id : (i : Str) (l : List (RoamMatch G)) → has_id i l ≡ ltb 0 (times i l)
  times-has_id i [] = refl
  times-has_id i (m ∷ ms) = ground (arith, times-has_id i ms)

  times-append : (i : Str) (a b : List (RoamMatch G)) → times i (a ++ b) ≡ times i a + times i b
  times-append i [] b = omega arith
  times-append i (m ∷ a) b = omega (arith, times-append i a b)

  times-last_of :
      (i : Str) (x : RoamMatch G) (xs : List (RoamMatch G))
      → times i (last_of x xs ∷ init_of x xs) ≡ times i (x ∷ xs)
  unfolding last_of init_of
  times-last_of i x [] = refl
  times-last_of i x (y ∷ ys) = omega (arith, times-last_of i y ys)

  length-init_of : (x : RoamMatch G) (xs : List (RoamMatch G)) → length (init_of x xs) ≡ length xs
  unfolding init_of
  length-init_of x [] = refl
  length-init_of x (y ∷ ys) = omega (arith, length-init_of y ys)

  times-move_last : (i : Str) (l : List (RoamMatch G)) → times i (move_last l) ≡ times i l
  unfolding move_last
  times-move_last i [] = refl
  times-move_last i (x ∷ xs) = times-last_of i x xs

  length-move_last : (l : List (RoamMatch G)) → length (move_last l) ≡ length l
  unfolding move_last
  length-move_last [] = refl
  length-move_last (x ∷ xs) = omega (arith, length-init_of x xs)

  times-remove_match :
      (i j : Str) (l : List (RoamMatch G))
      → times i (remove_match j l) + (if str_eq j i && has_id j l then 1 else 0) ≡ times i l
  unfolding remove_match
  times-remove_match i j [] = ground arith
  times-remove_match i j (m ∷ ms) = ground (
    arith,
    times-remove_match i j ms,
    times-move_last i ms,
    str_eq_iff m.id j,
    str_eq_iff m.id i,
    str_eq_iff j i,
  )

  -- What an id has become at the end of the loop.
  abbrev Swept :
      Str
      → Bool
      → List (RoamMatch G)
      → List (RoamMatch G)
      → List (RoamMatch G)
      → List (RoamMatch G) × List (RoamMatch G)
      → Type 0
  Swept i nodwell kept rest news q =
      (times i q.0 ≡ times i kept + (if has_id i news then 0 else times i rest))
      × (times i q.1 ≡ (if nodwell && has_id i rest then 0 else times i news))

  drop_dwelling_lem :
      (i : Str) (nodwell : Bool) (fuel : ℕ) (kept rest news : List (RoamMatch G))
      → length rest ≤ fuel
      → times i rest ≤ 1
      → times i news ≤ 1
      → Swept i nodwell kept rest news (drop_dwelling nodwell fuel kept rest news)
  unfolding drop_dwelling
  drop_dwelling_lem i nodwell fuel kept [] news room a b = (ground arith, ground arith)
  drop_dwelling_lem i nodwell zero kept (x ∷ xs) news room a b = absurd (omega arith)
  drop_dwelling_lem i nodwell (suc fuel) kept (x ∷ xs) news room a b =
      elim (Bool-cases (has_id x.id news)) [
        | inl t ↦
            let news' = if nodwell then remove_match x.id news else news in
            let step : drop_dwelling nodwell (suc fuel) kept (x ∷ xs) news
                ≡ drop_dwelling nodwell fuel kept (move_last xs) news' =
              rw (drop_dwelling, t) refl in
            let fewer = times-remove_match i x.id news in
            let moved = times-move_last i xs in
            let (far, near) =
              drop_dwelling_lem i nodwell fuel kept (move_last xs) news'
                (omega (arith, length-move_last xs)) (omega (arith, moved)) (ground arith) in
            let same : str_eq x.id i ≡ true → has_id i news ≡ true =
              λ e. rw (← (str_eq_iff x.id i).0 e) t in
            rw step (
              far ∙ ground (arith, fewer, moved, same, times-has_id i news, times-has_id i news'),
              near
                  ∙ ground (
                    arith,
                    fewer,
                    moved,
                    same,
                    t,
                    times-has_id i xs,
                    times-has_id i (move_last xs),
                    times-has_id i news,
                  ),
            )
        | inr f ↦
            let step : drop_dwelling nodwell (suc fuel) kept (x ∷ xs) news
                ≡ drop_dwelling nodwell fuel (kept ++ x ∷ []) xs news =
              rw (drop_dwelling, f) refl in
            let (far, near) =
              drop_dwelling_lem i nodwell fuel (kept ++ x ∷ []) xs news (omega arith) (omega arith)
                b in
            let differs : str_eq x.id i ≡ true → has_id i news ≡ false =
              λ e. rw (← (str_eq_iff x.id i).0 e) f in
            rw step (
              far ∙ ground (arith, times-append i kept (x ∷ []), differs),
              near ∙ ground (arith, differs, times-has_id i news),
            )
      ]

  -- The sort of the Go library moves elements only.
  abbrev pub Sorts : Distances G → Type 0
  Sorts D = (i : Str) (l : List (RoamMatch G)) → times i (D.sort l) ≡ times i l

  times-map :
      (D : Distances G) (obj : Geo G) (i : Str) (l : List (RoamMatch G))
      → times i (map (λ (m : RoamMatch G). record m { meters = D.distance m.obj obj }) l)
        ≡ times i l
  times-map D obj i [] = refl
  times-map D obj i (m ∷ l) = omega (arith, times-map D obj i l)

  -- If the sort keeps the elements, and an id is at most once near the old object and at most once
  -- near the new one, then it has come to be far exactly if it was near and is not near any more, and
  -- it is told as near exactly if it is near, and was not near before where dwelling is not told.
  pub fence_match_roam_lem :
      (D : Distances G) (roam : Roam G) (obj : Geo G) (olds news : List (RoamMatch G)) (i : Str)
      → Sorts D
      → times i olds ≤ 1
      → times i news ≤ 1
      → (times i (fence_match_roam D roam obj olds news).0
          ≡ (if roam.nodwell && has_id i olds then 0 else times i news))
        × (times i (fence_match_roam D roam obj olds news).1
            ≡ (if has_id i news then 0 else times i olds))
  unfolding fence_match_roam
  fence_match_roam_lem D roam obj olds news i sorts a b =
      let (far, near) =
        drop_dwelling_lem i roam.nodwell (length olds) [] olds news (omega arith) a b in
      (sorts i _ ∙ near, sorts i _ ∙ times-map D obj i _ ∙ far ∙ ground arith)
