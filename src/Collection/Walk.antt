-- ===== src/Collection/Walk.antt =====
-- The iteration that the searches of internal/legacy/collection/collection.go share: callbacks that
-- stop a loop, the cursor of internal/legacy/server/scanner.go, and `nextStep` with the deadline of
-- internal/legacy/deadline/deadline.go.
use spatialdb_engine.Base.{
  ℕ, ◌+◌, ◌%◌, ◌^◌, ◌≡◌, refl, Bool, true, false, not, ◌&&◌, Option, none, some, List, [], ◌∷◌,
  arith, ltb, leb, ◌==◌, if◌then◌else◌, drop, suc, ◌-◌, ◌≤◌, Bool-cases, inl, inr, ap, ◌∙◌,
}

-- `sw.cursor` is the offset that the command gave, `sw.numberIters` counts the steps.
pub record Cursor : Type 0 where
  pub offset : ℕ
  pub number_iters : ℕ

pub record Deadline : Type 0 where
  pub unix_nano : ℕ
  pub hit : Bool

-- `Check` at the time `now`. It marks the deadline; the error that it makes goes nowhere.
unfoldable pub check : ℕ → Deadline → Deadline
check now dl =
    if dl.unix_nano == 0
    then dl
    else if not dl.hit && ltb dl.unix_nano now
    then record dl { hit = true }
    else dl

abbrev pub yield_step : ℕ
yield_step = 256

abbrev pub offset_of : Option Cursor → ℕ
offset_of none = 0
offset_of (some c) = c.offset

-- `cursor.Step(n)`, of a cursor that is there. The uint64 wraps.
abbrev pub step_cursor : ℕ → Option Cursor → Option Cursor
step_cursor n none = none
step_cursor n (some c) = some (record c { number_iters = (c.number_iters + n) % 2 ^ 64 })

abbrev check_deadline : ℕ → Option Deadline → Option Deadline
check_deadline now none = none
check_deadline now (some dl) = some (check now dl)

-- The deadline is not reached at any time of the clock. Of one that is reached, `Check` says that it
-- panics, which its code does not do: no theorem on what a search visits counts on either.
abbrev pub NotReached : Option Deadline → (ℕ → ℕ) → Type 0
NotReached none now = Unit {0}
NotReached (some dl) now = (i : ℕ) → now i ≤ dl.unix_nano

-- What a search keeps while it runs: its `count` (which stays below 2^64, since no tree holds as
-- many items), its `keepon`, the cursor and the deadline, and the state of the caller's iterator.
pub record Walk (S : Type 0) : Type 0 where
  pub count : ℕ
  pub keepon : Bool
  pub cursor : Option Cursor
  pub deadline : Option Deadline
  pub user : S

-- A callback of a tree: whether to go on, and the state after it.
abbrev pub Visit : Type 0 → Type 0 → Type 0
Visit A S = A → S → Bool × S

-- The loop of a tree over its items in order, until the callback says no.
unfoldable pub each : {A S : Type 0} → Visit A S → List A → S → S
each visit [] s = s
each visit (x ∷ xs) s =
    let (go, s') = visit x s in let rest = each visit xs s' in if go then rest else s'

-- `offset = cursor.Offset(); cursor.Step(offset)`, at the start of each search.
unfoldable pub start_walk : {S : Type 0} → Option Cursor → Option Deadline → S → Walk S
start_walk cursor deadline s = record {
  count = 0;
  keepon = true;
  cursor = step_cursor (offset_of cursor) cursor;
  deadline = deadline;
  user = s;
}

module _ {S : Type 0} (now : ℕ → ℕ) where
  -- `nextStep`: `step&(yieldStep-1)` is `step % 256`. `now i` is the clock at step i.
  unfoldable pub next_step : Walk S → Walk S
  next_step w = record w {
    deadline =
        if w.count % yield_step == yield_step - 1
        then check_deadline (now w.count) w.deadline
        else w.deadline;
    cursor = step_cursor 1 w.cursor;
  }

module _ {A S : Type 0} (now : ℕ → ℕ) where
  -- The closure `iter` of the searches: what the offset skips, the step, a test that ends the
  -- search, and the caller's iterator.
  unfoldable pub visit : ℕ → (A → Bool) → Visit A S → Visit A (Walk S)
  unfolding next_step
  visit offset inside iterator o w =
      let w1 = record w { count = w.count + 1 } in
      let w2 = next_step now w1 in
      let (keepon, user) = iterator o w2.user in
      if leb w1.count offset
      then (true, w1)
      else if inside o
      then (keepon, record w2 { keepon = keepon; user = user })
      else (false, w2)

-- What an iterator does over a list, alone: whether it went through, and its state.
unfoldable pub feed : {A S : Type 0} → Visit A S → List A → S → Bool × S
feed iterator [] s = (true, s)
feed iterator (x ∷ xs) s =
    let (go, s') = iterator x s in
    let rest = feed iterator xs s' in if go then rest else (false, s')

-- The items in front of the first that fails the test.
unfoldable pub take_while : {A : Type 0} → (A → Bool) → List A → List A
take_while p [] = []
take_while p (x ∷ xs) = if p x then x ∷ take_while p xs else []

-- The outcome of a walk: `keepon` and the state of the iterator.
abbrev pub outcome : {S : Type 0} → Walk S → Bool × S
outcome w = (w.keepon, w.user)

module _ {A S : Type 0} (now : ℕ → ℕ) (offset : ℕ) (inside : A → Bool) (iterator : Visit A S) where
  each-past :
      (xs : List A) (w : Walk S)
      → w.keepon ≡ true
      → offset ≤ w.count
      → outcome (each (visit now offset inside iterator) xs w)
        ≡ feed iterator (take_while inside xs) w.user
  unfolding each visit feed take_while
  each-past [] w h past = ground arith
  each-past (x ∷ xs) w h past =
      ground (arith, each-past xs (visit now offset inside iterator x w).1)

  -- A walk that has begun feeds the iterator what is left behind the offset, up to the first item
  -- outside.
  pub each-visit :
      (xs : List A) (w : Walk S)
      → w.keepon ≡ true
      → outcome (each (visit now offset inside iterator) xs w)
        ≡ feed iterator (take_while inside (drop (offset - w.count) xs)) w.user
  unfolding each visit feed take_while
  each-visit [] w h = elim (Bool-cases (ltb w.count offset)) [
    | inl more ↦
        let e : offset - w.count ≡ suc (offset - (w.count + 1)) = ground arith in
        rw e (ground arith)
    | inr past ↦ let e : offset - w.count ≡ 0 = ground arith in rw e (ground arith)
  ]
  each-visit (x ∷ xs) w h = elim (Bool-cases (ltb w.count offset)) [
    | inl more ↦
        let e : offset - w.count ≡ suc (offset - (w.count + 1)) = ground arith in
        rw e (ground (arith, each-visit xs (record w { count = w.count + 1 })))
    | inr past ↦
        let e : offset - w.count ≡ 0 = ground arith in rw e (each-past (x ∷ xs) w h (ground arith))
  ]

  -- The same for a walk that starts.
  pub each-visit_start :
      (xs : List A) (cursor : Option Cursor) (deadline : Option Deadline) (s : S)
      → outcome (each (visit now offset inside iterator) xs (start_walk cursor deadline s))
        ≡ feed iterator (take_while inside (drop offset xs)) s
  unfolding start_walk
  each-visit_start xs cursor deadline s =
      let e : offset - 0 ≡ offset = omega arith in
      each-visit xs (start_walk cursor deadline s) refl
      ∙ ap (λ n. feed iterator (take_while inside (drop n xs)) s) e
