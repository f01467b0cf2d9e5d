-- ===== src/Locks/Ending.antt =====
-- A call with a timeout ends, whatever the other threads and processes do meanwhile.
use octet.Prelude.{
  ℕ, ◌+◌, ◌-◌, ◌<◌, ◌≡◌, refl, ◌⊎◌, inl, inr, Bool, true, false, ◌&&◌, Option, none, some, List, [],
  ◌∷◌, arith, nat_eq, list_eq, leb, Bool-cases, length,
}
use octet.Locks.{
  LockInfo, LockMap, Request, Draw, FlockAnswer, granted, would_block, failed, is_shared,
  locked_by_thread, increment_ref_count, timeout, Phase, starting, waiting, locking, ended, aborted,
  timed_out, try_flock, lock_file, opened_file, open_lock_file, start_with, wait_with, counted,
  contended, still_held, acquire_step,
}
use octet.Map.{find}

-- The steps of a call: with each comes what it draws and the map that the other threads have left.
unfoldable pub acquire_steps : List (Draw × LockMap) → Request → Phase → Phase
unfolding acquire_step
acquire_steps [] r phase = phase
acquire_steps ((w, locks) ∷ turns) r phase =
    acquire_steps turns r ((acquire_step w r phase locks).0)

-- The clock reads more at each step: `pauseLock` sleeps between two of them.
abbrev pub IsTicking : ℕ → List (Draw × LockMap) → Type 0
IsTicking last [] = Unit
IsTicking last ((w, locks) ∷ turns) = (last < w.now) × IsTicking w.now turns

abbrev pub is_over : Phase → Bool
is_over (ended result) = true
is_over aborted = true
is_over _ = false

-- A bound for the steps that are left.
unfoldable left : ℕ → ℕ → Phase → ℕ
left limit last starting = limit + limit + 2
left limit last (waiting since) = (since + limit - last) + limit + 1
left limit last (locking fd since) = since + limit - last
left limit last (ended result) = 0
left limit last aborted = 0

-- What a step at `now` has to leave: an end, or fewer than `bound` steps.
Closer : ℕ → ℕ → ℕ → Phase × LockMap → Type 0
Closer limit now bound (phase, locks) = (is_over phase ≡ true) ⊎ (left limit now phase < bound)

module _ (r : Request) (limited : r.strategy ≡ timeout) (locks : LockMap) where
  late : (since now : ℕ) → timed_out r since now ≡ leb r.limit (now - since)
  unfolding timed_out
  late since now = rw limited refl

  try_flock-Closer :
      (answer : FlockAnswer) (fd since now bound : ℕ)
      → (now < since + r.limit → since + r.limit - now < bound)
      → Closer r.limit now bound
          (try_flock answer timeout (leb r.limit (now - since)) fd since r locks)
  unfolding try_flock Closer left
  try_flock-Closer granted fd since now bound h = inl refl
  try_flock-Closer would_block fd since now bound h =
      elim (Bool-cases (leb r.limit (now - since))) [
        | inl over ↦ rw over (inl refl)
        | inr more ↦ rw more (inr (h (ground arith)))
      ]
  try_flock-Closer failed fd since now bound h = inl refl

  lock_file-Closer :
      (w : Draw) (fd since bound : ℕ)
      → (w.now < since + r.limit → since + r.limit - w.now < bound)
      → Closer r.limit w.now bound (lock_file w fd since r locks)
  unfolding lock_file
  lock_file-Closer w fd since bound h =
      simp (late since w.now, limited) (try_flock-Closer w.flock fd since w.now bound h)

  opened_file-Closer :
      (o : Option ℕ) (w : Draw) (bound : ℕ)
      → r.limit < bound
      → Closer r.limit w.now bound (opened_file o w r locks)
  unfolding opened_file Closer
  opened_file-Closer none w bound h = inl refl
  opened_file-Closer (some fd) w bound h =
      lock_file-Closer w fd w.now bound (λ less. omega (arith, h))

  contended-Closer :
      (w : Draw) (info : LockInfo) (bound : ℕ)
      → r.limit + r.limit + 1 < bound
      → Closer r.limit w.now bound (contended w r info locks)
  unfolding contended Closer left
  contended-Closer w info bound h = elim (Bool-cases (is_shared r.mode && is_shared info.mode)) [
    | inl both ↦ simp both (counted_over (increment_ref_count info r.thread_id))
    | inr differ ↦ simp differ (elim (Bool-cases (locked_by_thread info r.thread_id)) [
      | inl own ↦ simp own (inl refl)
      | inr other ↦ simp (other, limited) (inr (omega (arith, h)))
    ])
  ]
    where
      counted_over : (o : Option LockInfo) → Closer r.limit w.now bound (counted o r locks)
      counted_over none = unfold Closer in inl refl
      counted_over (some info) = unfold Closer in inl refl

  still_held-Closer :
      (w : Draw) (since bound : ℕ)
      → (w.now < since + r.limit → since + r.limit - w.now + r.limit + 1 < bound)
      → Closer r.limit w.now bound (still_held w r since locks)
  unfolding still_held Closer left
  still_held-Closer w since bound h =
      simp (late since w.now, limited)
        (elim (Bool-cases (leb r.limit (w.now - since))) [
          | inl over ↦ simp over (inl refl)
          | inr more ↦ simp more (inr (h (ground arith)))
        ])

  start_with-Closer :
      (o : Option LockInfo) (w : Draw) (bound : ℕ)
      → r.limit + r.limit + 1 < bound
      → Closer r.limit w.now bound (start_with o w r locks)
  unfolding start_with open_lock_file
  start_with-Closer none w bound h = opened_file-Closer w.opened w bound (omega (arith, h))
  start_with-Closer (some info) w bound h = contended-Closer w info bound h

  wait_with-Closer :
      (o : Option LockInfo) (w : Draw) (since bound : ℕ)
      → r.limit < bound
      → (w.now < since + r.limit → since + r.limit - w.now + r.limit + 1 < bound)
      → Closer r.limit w.now bound (wait_with o w r since locks)
  unfolding wait_with open_lock_file
  wait_with-Closer none w since bound low h = opened_file-Closer w.opened w bound low
  wait_with-Closer (some info) w since bound low h = still_held-Closer w since bound h

  acquire_step-Closer :
      (w : Draw) (phase : Phase) (last : ℕ)
      → last < w.now
      → Closer r.limit w.now (left r.limit last phase) (acquire_step w r phase locks)
  unfolding acquire_step left
  acquire_step-Closer w starting last tick =
      start_with-Closer (find r.lock_path locks) w (r.limit + r.limit + 2) (omega arith)
  acquire_step-Closer w (waiting since) last tick =
      wait_with-Closer (find r.lock_path locks) w since (since + r.limit - last + r.limit + 1)
        (omega arith) (λ less. omega (arith, tick, less))
  acquire_step-Closer w (locking fd since) last tick =
      lock_file-Closer w fd since (since + r.limit - last) (λ less. omega (arith, tick, less))
  acquire_step-Closer w (ended result) last tick = unfold Closer in inl refl
  acquire_step-Closer w aborted last tick = unfold Closer in inl refl

over_stays :
    (turns : List (Draw × LockMap)) (r : Request) (phase : Phase)
    → is_over phase ≡ true
    → is_over (acquire_steps turns r phase) ≡ true
unfolding acquire_steps acquire_step
over_stays [] r phase h = h
over_stays ((w, locks) ∷ turns) r starting h = cc
over_stays ((w, locks) ∷ turns) r (waiting since) h = cc
over_stays ((w, locks) ∷ turns) r (locking fd since) h = cc
over_stays ((w, locks) ∷ turns) r (ended result) h = over_stays turns r (ended result) h
over_stays ((w, locks) ∷ turns) r aborted h = over_stays turns r aborted h

over_or_Closer :
    (turns : List (Draw × LockMap)) (r : Request) (limit now bound : ℕ) (after : Phase × LockMap)
    → Closer limit now bound after
    → (left limit now (after.0) < bound → is_over (acquire_steps turns r (after.0)) ≡ true)
    → is_over (acquire_steps turns r (after.0)) ≡ true
unfolding Closer
over_or_Closer turns r limit now bound (phase, locks) c continued = elim c [
  | inl over ↦ over_stays turns r phase over
  | inr less ↦ continued less
]

over_or_left :
    (turns : List (Draw × LockMap)) (r : Request) (phase : Phase) (last : ℕ)
    → r.strategy ≡ timeout
    → IsTicking last turns
    → left r.limit last phase < length turns
    → is_over (acquire_steps turns r phase) ≡ true
unfolding acquire_steps
over_or_left [] r phase last limited ticks h = absurd (omega (arith, h))
over_or_left ((w, locks) ∷ turns) r phase last limited ticks h =
    over_or_Closer turns r r.limit w.now (left r.limit last phase) (acquire_step w r phase locks)
      (acquire_step-Closer r limited locks w phase last ticks.0)
      (λ less.
        over_or_left turns r ((acquire_step w r phase locks).0) w.now limited ticks.1
          (omega (arith, less, h)))

-- A call with a timeout has ended after 2 * timeout + 3 steps, whatever the other threads do to
-- the map and the system answers, if the clock in milliseconds has advanced at each step.
pub acquire_steps-ends :
    (turns : List (Draw × LockMap)) (r : Request) (last : ℕ)
    → r.strategy ≡ timeout
    → IsTicking last turns
    → r.limit + r.limit + 2 < length turns
    → is_over (acquire_steps turns r starting) ≡ true
acquire_steps-ends turns r last limited ticks h =
    over_or_left turns r starting last limited ticks (unfold left in h)
