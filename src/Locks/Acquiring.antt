-- ===== src/Locks/Acquiring.antt =====
-- `acquireFileLock` against the view of a lock as the number of times that each thread holds it.
use octet.Prelude.{
  ℕ, ◌+◌, ◌%◌, ◌≡◌, refl, sym, ap, ◌∙◌, inl, inr, Bool, true, false, ◌&&◌, ◌||◌, Option, none, some,
  [], ◌∷◌, ◌++◌, arith, nat_eq, list_eq, nat_beq, if◌then◌else◌, Bool-cases,
}
use octet.Disk.{FilePath, LockMode, exclusive, shared}
use octet.Map.{find}
use octet.Locks.{
  LockInfo, locked_by_thread, is_shared, counter_limit, increment_ref_count, LockMap, Request, Draw,
  FlockAnswer, granted, would_block, failed, WaitStrategy, standard, instantly, timeout, Phase,
  starting, waiting, locking, ended, aborted, timed_out, is_instantly, try_flock, lock_file,
  opened_file, open_lock_file, start_with, wait_with, contended, still_held, acquire_step,
}
use octet.Locks.Holders.{
  one_if, OneMore, occurrences-shared, assign-OneMore, emplace-OneMore, holds-there,
}

-- What the caller of an acquisition sees of a step that does not wait for the file: an end with `true`
-- gives its thread one holding more, and threads that hold the lock already share it with the caller;
-- otherwise nothing is changed.
abbrev pub Acquires : Request → LockMap → Phase × LockMap → Type 0
Acquires r locks (ended true, locks') =
    OneMore r.thread_id r.lock_path locks locks'
    × ((info : LockInfo)
        → find r.lock_path locks ≡ some info
        → (r.mode ≡ shared) × (info.mode ≡ shared))
Acquires r locks (phase, locks') = locks' ≡ locks

is_shared-shared : (mode : LockMode) → is_shared mode ≡ true → mode ≡ shared
is_shared-shared shared h = refl
is_shared-shared exclusive h = cc

increment_ref_count-adds :
    (info : LockInfo) (t : ℕ)
    → is_shared info.mode ≡ true
    → (info' : LockInfo) × (increment_ref_count info t ≡ some info')
      × (info'.thread_ids ≡ info.thread_ids ++ (t ∷ []))
unfolding increment_ref_count
increment_ref_count-adds info t sh = (
  record info {
    ref_count = (info.ref_count + 1) % counter_limit;
    thread_ids = info.thread_ids ++ (t ∷ []);
  },
  rw sh refl,
  refl,
)

same_info :
    (info2 info : LockInfo) (p : FilePath) (locks : LockMap)
    → find p locks ≡ some info2
    → find p locks ≡ some info
    → info2 ≡ info
same_info info2 info p locks e f = cc

module _ (r : Request) (locks : LockMap) where
  try_flock-Acquires :
      (answer : FlockAnswer) (strategy : WaitStrategy) (late : Bool) (fd since : ℕ)
      → find r.lock_path locks ≡ none
      → Acquires r locks (try_flock answer strategy late fd since r locks)
  unfolding try_flock
  try_flock-Acquires granted strategy late fd since free =
      (emplace-OneMore r.thread_id r.lock_path locks fd r.mode free, λ info there. cc)
  try_flock-Acquires would_block standard late fd since free = refl
  try_flock-Acquires would_block instantly late fd since free = refl
  try_flock-Acquires would_block timeout true fd since free = refl
  try_flock-Acquires would_block timeout false fd since free = refl
  try_flock-Acquires failed strategy late fd since free = refl

  opened_file-Acquires :
      (o : Option ℕ) (w : Draw)
      → find r.lock_path locks ≡ none
      → Acquires r locks (opened_file o w r locks)
  unfolding opened_file lock_file
  opened_file-Acquires none w free = refl
  opened_file-Acquires (some fd) w free =
      try_flock-Acquires w.flock r.strategy (timed_out r w.now w.now) fd w.now free

  settled-Acquires :
      (b : Bool) (since : ℕ)
      → Acquires r locks (if b then (ended false, locks) else (waiting since, locks))
  settled-Acquires true since = refl
  settled-Acquires false since = refl

  contended-Acquires :
      (w : Draw) (info : LockInfo)
      → find r.lock_path locks ≡ some info
      → Acquires r locks (contended w r info locks)
  unfolding contended
  contended-Acquires w info there = elim (Bool-cases (is_shared r.mode && is_shared info.mode)) [
    | inl both ↦
        (let mine : is_shared r.mode ≡ true = ground arith in
          let theirs : is_shared info.mode ≡ true = ground arith in
          let (info', e, ids) = increment_ref_count-adds info r.thread_id theirs in
          rw (both, e)
            (
              assign-OneMore r.thread_id r.lock_path locks info' (λ u. rw ids (
                  occurrences-shared r.thread_id u info.thread_ids
                  ∙ ap (λ k. k + one_if (nat_beq r.thread_id u))
                      (sym (holds-there u r.lock_path locks info there)))),
              λ info2 there2. (
                is_shared-shared r.mode mine,
                is_shared-shared info2.mode (
                    ap (λ i. is_shared i.mode) (same_info info2 info r.lock_path locks there2 there)
                    ∙ theirs),
              ),
            ))
    | inr differ ↦ rw differ (elim (Bool-cases (locked_by_thread info r.thread_id)) [
      | inl own ↦ rw own refl
      | inr other ↦ rw other (settled-Acquires (is_instantly r.strategy) w.now)
    ])
  ]

  start_with-Acquires :
      (o : Option LockInfo) (w : Draw)
      → find r.lock_path locks ≡ o
      → Acquires r locks (start_with o w r locks)
  unfolding start_with open_lock_file
  start_with-Acquires none w there = opened_file-Acquires w.opened w there
  start_with-Acquires (some info) w there = contended-Acquires w info there

  wait_with-Acquires :
      (o : Option LockInfo) (w : Draw) (since : ℕ)
      → find r.lock_path locks ≡ o
      → Acquires r locks (wait_with o w r since locks)
  unfolding wait_with open_lock_file still_held
  wait_with-Acquires none w since there = opened_file-Acquires w.opened w there
  wait_with-Acquires (some info) w since there =
      settled-Acquires (timed_out r since w.now || is_instantly r.strategy) since

-- A phase that has no open lock file.
abbrev pub is_unopened : Phase → Bool
is_unopened starting = true
is_unopened (waiting since) = true
is_unopened _ = false

-- A step of a call that has not opened the lock file yet either ends with true, and then its
-- thread holds the lock once more, every other holding is as before, and threads that held the
-- lock share it with the caller; or it changes no holding.
pub acquire_step-Acquires :
    (w : Draw) (r : Request) (phase : Phase) (locks : LockMap)
    → is_unopened phase ≡ true
    → Acquires r locks (acquire_step w r phase locks)
unfolding acquire_step
acquire_step-Acquires w r starting locks h =
    start_with-Acquires r locks (find r.lock_path locks) w refl
acquire_step-Acquires w r (waiting since) locks h =
    wait_with-Acquires r locks (find r.lock_path locks) w since refl
acquire_step-Acquires w r (locking fd since) locks h = cc
acquire_step-Acquires w r (ended result) locks h = cc
acquire_step-Acquires w r aborted locks h = cc
