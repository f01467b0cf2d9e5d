-- ===== src/Locks/Safety.antt =====
-- Whatever the threads do, the counters stay right and no `UNREACHABLE` is reached.
use octet.Prelude.{
  ℕ, suc, ◌+◌, ◌<◌, ◌≡◌, refl, sym, inl, inr, Bool, true, false, ◌&&◌, ◌||◌, not, Option, none,
  some, List, [], ◌∷◌, arith, nat_eq, list_eq, ltb, if◌then◌else◌, has_value, Bool-cases, length,
}
use octet.Disk.{FilePath}
use octet.Map.{find, erase}
use octet.Locks.{
  LockInfo, lock_info, locked_by_thread, is_shared, counter_limit, LockMap, Request, Draw,
  FlockAnswer, granted, would_block, failed, WaitStrategy, standard, instantly, timeout, Phase,
  starting, waiting, locking, ended, aborted, timed_out, is_instantly, try_flock, lock_file,
  opened_file, open_lock_file, start_with, wait_with, contended, still_held, acquire_step,
  release_held, release_with, release_file_lock,
}
use octet.Locks.Counts.{
  IsCounted, CountedAt, AllCounted, IsCounted-suc, lock_info-IsCounted, assign-AllCounted,
  emplace-AllCounted, erase-AllCounted, same-AllCounted, increment-IsCounted, decrement-IsCounted,
}

-- A call's step or a release, by any thread at any time.
pub data Event : Type 0 where
  step : Draw → Request → Phase → Event
  release : (unlocked : Bool) (thread_id : ℕ) (lock_path : FilePath) → Event

unfoldable pub happens : Event → LockMap → LockMap
happens (step w r phase) locks = (acquire_step w r phase locks).1
happens (release unlocked t p) locks = (release_file_lock unlocked t p locks).1

unfoldable pub all_happen : List Event → LockMap → LockMap
all_happen [] locks = locks
all_happen (e ∷ es) locks = all_happen es (happens e locks)

abbrev pub is_aborted : Phase → Bool
is_aborted aborted = true
is_aborted _ = false

-- A result that is no abort, with a map that is counted.
abbrev pub Fine : ℕ → Phase × LockMap → Type 0
Fine n (phase, locks) = (is_aborted phase ≡ false) × AllCounted n locks

-- The same of a release.
abbrev pub FineRelease : ℕ → Option Bool × LockMap → Type 0
FineRelease n (result, locks) = (has_value result ≡ true) × AllCounted n locks

module _ (n : ℕ) (r : Request) (locks : LockMap) (all : AllCounted n locks) where
  kept : AllCounted (suc n) locks
  kept = same-AllCounted n locks all

  try_flock-Fine :
      (answer : FlockAnswer) (strategy : WaitStrategy) (late : Bool) (fd since : ℕ)
      → Fine (suc n) (try_flock answer strategy late fd since r locks)
  unfolding try_flock
  try_flock-Fine granted strategy late fd since = (
    refl,
    emplace-AllCounted n r.lock_path (lock_info fd r.mode r.thread_id) locks
        (lock_info-IsCounted n fd r.thread_id r.mode) all,
  )
  try_flock-Fine would_block standard late fd since = (refl, kept)
  try_flock-Fine would_block instantly late fd since = (refl, kept)
  try_flock-Fine would_block timeout true fd since = (refl, kept)
  try_flock-Fine would_block timeout false fd since = (refl, kept)
  try_flock-Fine failed strategy late fd since = (refl, kept)

  lock_file-Fine : (w : Draw) (fd since : ℕ) → Fine (suc n) (lock_file w fd since r locks)
  unfolding lock_file
  lock_file-Fine w fd since = try_flock-Fine w.flock r.strategy (timed_out r since w.now) fd since

  opened_file-Fine : (o : Option ℕ) (w : Draw) → Fine (suc n) (opened_file o w r locks)
  unfolding opened_file
  opened_file-Fine none w = (refl, kept)
  opened_file-Fine (some fd) w = lock_file-Fine w fd w.now

  open_lock_file-Fine : (w : Draw) → Fine (suc n) (open_lock_file w r locks)
  unfolding open_lock_file
  open_lock_file-Fine w = opened_file-Fine w.opened w

  settled-Fine :
      (b c : Bool) (phase : Phase)
      → is_aborted phase ≡ false
      → Fine (suc n) (if b then (ended c, locks) else (phase, locks))
  settled-Fine true c phase e = (refl, kept)
  settled-Fine false c phase e = (e, kept)

  contended-Fine :
      (w : Draw) (info : LockInfo)
      → suc n < counter_limit
      → IsCounted n info
      → Fine (suc n) (contended w r info locks)
  unfolding contended
  contended-Fine w info small h = elim (Bool-cases (is_shared r.mode && is_shared info.mode)) [
    | inl both ↦
        (let (info', e, h') = increment-IsCounted n r.thread_id info small (ground arith) h in
          rw (both, e) (refl, assign-AllCounted n r.lock_path info' locks h' all))
    | inr differ ↦ rw differ (elim (Bool-cases (locked_by_thread info r.thread_id)) [
      | inl own ↦ rw own (refl, kept)
      | inr other ↦ rw other (settled-Fine (is_instantly r.strategy) false (waiting w.now) refl)
    ])
  ]

  still_held-Fine : (w : Draw) (since : ℕ) → Fine (suc n) (still_held w r since locks)
  unfolding still_held
  still_held-Fine w since =
      settled-Fine (timed_out r since w.now || is_instantly r.strategy) false (waiting since) refl

  start_with-Fine :
      (o : Option LockInfo) (w : Draw)
      → suc n < counter_limit
      → CountedAt n o
      → Fine (suc n) (start_with o w r locks)
  unfolding start_with
  start_with-Fine none w small h = open_lock_file-Fine w
  start_with-Fine (some info) w small h = contended-Fine w info small h

  wait_with-Fine :
      (o : Option LockInfo) (w : Draw) (since : ℕ) → Fine (suc n) (wait_with o w r since locks)
  unfolding wait_with
  wait_with-Fine none w since = open_lock_file-Fine w
  wait_with-Fine (some info) w since = still_held-Fine w since

  pub acquire_step-Fine :
      (w : Draw) (phase : Phase)
      → suc n < counter_limit
      → is_aborted phase ≡ false
      → Fine (suc n) (acquire_step w r phase locks)
  unfolding acquire_step
  acquire_step-Fine w starting small alive =
      start_with-Fine (find r.lock_path locks) w small (all r.lock_path)
  acquire_step-Fine w (waiting since) small alive = wait_with-Fine (find r.lock_path locks) w since
  acquire_step-Fine w (locking fd since) small alive = lock_file-Fine w fd since
  acquire_step-Fine w (ended result) small alive = (refl, kept)
  acquire_step-Fine w aborted small alive = cc

module _ (n : ℕ) (locks : LockMap) (all : AllCounted n locks) where
  released-Fine :
      (b : Bool) (p : FilePath)
      → FineRelease (suc n) (if not b then (some false, locks) else (some true, erase p locks))
  released-Fine true p = (refl, erase-AllCounted n p locks all)
  released-Fine false p = (refl, same-AllCounted n locks all)

  release_held-Fine :
      (unlocked : Bool) (t : ℕ) (p : FilePath) (info : LockInfo)
      → IsCounted n info
      → FineRelease (suc n) (release_held unlocked t p info locks)
  unfolding release_held
  release_held-Fine unlocked t p info h = elim (Bool-cases (locked_by_thread info t)) [
    | inr other ↦ rw other (refl, same-AllCounted n locks all)
    | inl own ↦ rw own (elim (Bool-cases (is_shared info.mode && ltb 1 info.ref_count)) [
      | inr last ↦ rw last (released-Fine unlocked p)
      | inl more ↦
          (let (info', e, h') = decrement-IsCounted n t info (ground arith) (ground arith) own h in
            rw (more, e) (refl, assign-AllCounted n p info' locks (IsCounted-suc h') all))
    ])
  ]

  release_with-Fine :
      (o : Option LockInfo) (unlocked : Bool) (t : ℕ) (p : FilePath)
      → CountedAt n o
      → FineRelease (suc n) (release_with o unlocked t p locks)
  unfolding release_with
  release_with-Fine none unlocked t p h = (refl, same-AllCounted n locks all)
  release_with-Fine (some info) unlocked t p h = release_held-Fine unlocked t p info h

  release_file_lock-Fine :
      (unlocked : Bool) (t : ℕ) (p : FilePath)
      → FineRelease (suc n) (release_file_lock unlocked t p locks)
  unfolding release_file_lock
  release_file_lock-Fine unlocked t p = release_with-Fine (find p locks) unlocked t p (all p)

happens-AllCounted :
    (n : ℕ) (e : Event) (locks : LockMap)
    → suc n < counter_limit
    → AllCounted n locks
    → AllCounted (suc n) (happens e locks)
unfolding happens
happens-AllCounted n (step w r phase) locks small all = elim (Bool-cases (is_aborted phase)) [
  | inl dead ↦ aborted-keeps n w r phase locks dead all
  | inr alive ↦ (acquire_step-Fine n r locks all w phase small alive).1
]
  where
    aborted-keeps :
        (n : ℕ) (w : Draw) (r : Request) (phase : Phase) (locks : LockMap)
        → is_aborted phase ≡ true
        → AllCounted n locks
        → AllCounted (suc n) ((acquire_step w r phase locks).1)
    aborted-keeps n w r starting locks dead all = cc
    aborted-keeps n w r (waiting since) locks dead all = cc
    aborted-keeps n w r (locking fd since) locks dead all = cc
    aborted-keeps n w r (ended result) locks dead all = cc
    aborted-keeps n w r aborted locks dead all = unfold acquire_step in same-AllCounted n locks all
happens-AllCounted n (release unlocked t p) locks small all =
    (release_file_lock-Fine n locks all unlocked t p).1

at_count : (m k : ℕ) (locks : LockMap) → m ≡ k → AllCounted m locks → AllCounted k locks
at_count m k locks e h = rw (sym e) h

all_happen-AllCounted :
    (n : ℕ) (es : List Event) (locks : LockMap)
    → length es + n < counter_limit
    → AllCounted n locks
    → AllCounted (length es + n) (all_happen es locks)
unfolding all_happen
all_happen-AllCounted n [] locks small all = at_count n (0 + n) locks (omega arith) all
all_happen-AllCounted n (e ∷ es) locks small all =
    at_count (length es + suc n) (suc (length es) + n) (all_happen es (happens e locks))
      (omega arith)
      (all_happen-AllCounted (suc n) es (happens e locks) (omega (arith, small))
        (happens-AllCounted n e locks (omega (arith, small)) all))

-- After fewer than 2^64 steps of calls and releases, by any threads in any order from an empty
-- map, the counter of every lock is the number of its threads, counted as often as they hold it;
-- there is at least one, and exactly one of an exclusive lock.
pub always_counted :
    (es : List Event) → length es < counter_limit → AllCounted (length es) (all_happen es [])
always_counted es small =
    at_count (length es + 0) (length es) (all_happen es []) (omega arith)
      (all_happen-AllCounted 0 es [] (omega (arith, small)) (λ p. unfold find in tt))

-- After fewer than 2^64 - 1 steps and releases from an empty map neither a step of a call that is
-- not already aborted nor a release, by any thread on any file, reaches one of the `UNREACHABLE`
-- lines of the counters.
pub never_aborts :
    (es : List Event) (w : Draw) (r : Request) (phase : Phase) (unlocked : Bool) (t : ℕ)
    (p : FilePath)
    → suc (length es) < counter_limit
    → is_aborted phase ≡ false
    → (is_aborted ((acquire_step w r phase (all_happen es [])).0) ≡ false)
      × (has_value ((release_file_lock unlocked t p (all_happen es [])).0) ≡ true)
never_aborts es w r phase unlocked t p small alive =
    let all = always_counted es (omega (arith, small)) in
    (
      (acquire_step-Fine (length es) r (all_happen es []) all w phase small alive).0,
      (release_file_lock-Fine (length es) (all_happen es []) all unlocked t p).0,
    )
