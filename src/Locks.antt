-- ===== src/Locks.antt =====
-- src/utils/file_lock_guard.cpp: the locks that the threads of one process hold, and the taking and
-- releasing of a lock, in its Unix branch. The mutex of the map is given up only in `pauseLock`, so a
-- call is a sequence of steps between these places, and what is live there is its phase. The answers of
-- `open`, `flock` and the clock are arguments; the text in the lock file is left out.
pub mod Acquiring
pub mod Counts
pub mod Ending
pub mod Guard
pub mod Holders
pub mod Releasing
pub mod Safety
use octet.Prelude.{
  ℕ, zero, suc, ◌+◌, ◌-◌, ◌*◌, ◌/◌, ◌%◌, ◌^◌, ◌≤◌, ◌<◌, String, ◌≡◌, refl, sym, ap, ◌∙◌, fun_ext,
  ◌≢◌, ◌↔◌, ◌⊎◌, inl, inr, Bool, true, false, ◌&&◌, ◌||◌, not, Option, none, some, List, [], ◌∷◌,
  ◌++◌, append_assoc, append-nil, arith, Comparable, ◌==◌, nat_eq, list_eq, list_beq, list_beq_iff,
  beq_refl, beq_ne, ltb, leb, nat_beq, nat_beq_iff, if◌then◌else◌, has_value, Bool-cases,
  Option-cases, Bytes, codes, length, take, drop, length-append, take-length-append,
  drop-length-append, length-drop, All, All-append, Lacks,
}
use octet.Disk.{
  FilePath, parent_path, filename, LockMode, exclusive, shared, Disk, Answers, exists, is_directory,
}
use octet.FileChecks.{make_directories}
use octet.Map.{Map, find, assign, erase, emplace}

pub record LockInfo : Type 0 where
  pub fd : ℕ
  pub mode : LockMode
  pub thread_ids : List ℕ
  pub ref_count : ℕ

unfoldable pub lock_info : ℕ → LockMode → ℕ → LockInfo
lock_info fd mode thread_id = record {
  fd = fd;
  mode = mode;
  thread_ids = thread_id ∷ [];
  ref_count = 1;
}

unfoldable pub is_among : ℕ → List ℕ → Bool
is_among t [] = false
is_among t (u ∷ us) = nat_beq u t || is_among t us

unfoldable pub locked_by_thread : LockInfo → ℕ → Bool
unfolding is_among
locked_by_thread info thread_id = is_among thread_id info.thread_ids

abbrev pub is_shared : LockMode → Bool
is_shared shared = true
is_shared exclusive = false

abbrev pub counter_limit : ℕ
counter_limit = 18446744073709551616

-- `refCount_` is a `size_t`. `none` is `UNREACHABLE`, which aborts the program.
unfoldable pub increment_ref_count : LockInfo → ℕ → Option LockInfo
increment_ref_count info thread_id =
    if is_shared info.mode
    then some (record info {
      ref_count = (info.ref_count + 1) % counter_limit;
      thread_ids = info.thread_ids ++ (thread_id ∷ []);
    })
    else none

-- The first occurrence of a thread is taken out; `none` if there is none.
unfoldable pub erase_first : ℕ → List ℕ → Option (List ℕ)
erase_first t [] = none
erase_first t (u ∷ us) =
    let rest = erase_first t us in
    if nat_beq u t then some us else elim rest [ none ↦ none | some vs ↦ some (u ∷ vs) ]

abbrev pub with_threads : LockInfo → Option (List ℕ) → Option LockInfo
with_threads info none = none
with_threads info (some ids) =
    some (record info { ref_count = info.ref_count - 1; thread_ids = ids })

unfoldable pub decrement_ref_count : LockInfo → ℕ → Option LockInfo
unfolding erase_first
decrement_ref_count info thread_id =
    if nat_beq info.ref_count 0
    then none
    else if is_shared info.mode
    then with_threads info (erase_first thread_id info.thread_ids)
    else none

-- `fileLockMap`, by the path of the lock file.
abbrev pub LockMap : Type 0
LockMap = Map FilePath LockInfo

unfoldable pub get_lock_file_path : FilePath → FilePath
get_lock_file_path p = (filename p ++ codes ".lock") ∷ parent_path p

unfoldable pub check_directory_exists : Answers → FilePath → Disk → Bool × Disk
unfolding make_directories
check_directory_exists a dir d =
    if not a.status_ec
    then (false, d)
    else if exists d dir
    then (is_directory d dir, d)
    else if a.create_directories
    then elim (make_directories dir d) [ none ↦ (false, d) | some d' ↦ (true, d') ]
    else (false, d)

pub data WaitStrategy : Type 0 where
  standard instantly timeout : WaitStrategy

-- The arguments of a call, with the thread that makes it; `limit` is the timeout in milliseconds.
pub record Request : Type 0 where
  pub thread_id : ℕ
  pub lock_path : FilePath
  pub mode : LockMode
  pub strategy : WaitStrategy
  pub limit : ℕ

-- `flock` returns 0, or it fails with EWOULDBLOCK, or with another error.
pub data FlockAnswer : Type 0 where
  granted would_block failed : FlockAnswer

-- What a step draws: the clock in milliseconds, the descriptor that `open` returns, and the answer of
-- `flock`.
pub record Draw : Type 0 where
  pub now : ℕ
  pub opened : Option ℕ
  pub flock : FlockAnswer

-- Where a call stands: at its beginning, in the loop that waits for the other threads, in the loop that
-- waits for the file's lock, at its end, or aborted.
pub data Phase : Type 0 where
  starting : Phase
  waiting : (since : ℕ) → Phase
  locking : (fd since : ℕ) → Phase
  ended : Bool → Phase
  aborted : Phase

-- `checkDirectoryExists` stands before the mutex.
unfoldable pub begin_acquire : Answers → FilePath → Disk → Phase × Disk
unfolding check_directory_exists
begin_acquire a file_path d =
    let (found, d') = check_directory_exists a (parent_path file_path) d in
    (if found then starting else ended false, d')

unfoldable pub timed_out : Request → ℕ → ℕ → Bool
timed_out r since now = elim r.strategy [
  | timeout ↦ leb r.limit (now - since)
  | standard ↦ false
  | instantly ↦ false
]

-- The call of `flock` on an open lock file. Only with a timeout it is tried again.
unfoldable pub try_flock :
    FlockAnswer → WaitStrategy → Bool → ℕ → ℕ → Request → LockMap → Phase × LockMap
unfolding lock_info
try_flock granted strategy late fd since r locks =
    (ended true, emplace r.lock_path (lock_info fd r.mode r.thread_id) locks)
try_flock would_block timeout late fd since r locks =
    (if late then ended false else locking fd since, locks)
try_flock answer strategy late fd since r locks = (ended false, locks)

unfoldable pub lock_file : Draw → ℕ → ℕ → Request → LockMap → Phase × LockMap
unfolding try_flock timed_out
lock_file w fd since r locks =
    try_flock w.flock r.strategy (timed_out r since w.now) fd since r locks

unfoldable pub opened_file : Option ℕ → Draw → Request → LockMap → Phase × LockMap
unfolding lock_file
opened_file none w r locks = (ended false, locks)
opened_file (some fd) w r locks = lock_file w fd w.now r locks

unfoldable pub open_lock_file : Draw → Request → LockMap → Phase × LockMap
unfolding opened_file
open_lock_file w r locks = opened_file w.opened w r locks

abbrev pub counted : Option LockInfo → Request → LockMap → Phase × LockMap
counted none r locks = (aborted, locks)
counted (some info) r locks = (ended true, assign r.lock_path info locks)

abbrev pub is_instantly : WaitStrategy → Bool
is_instantly instantly = true
is_instantly _ = false

-- A thread of the process holds the lock.
unfoldable pub contended : Draw → Request → LockInfo → LockMap → Phase × LockMap
unfolding increment_ref_count locked_by_thread
contended w r info locks =
    if is_shared r.mode && is_shared info.mode
    then counted (increment_ref_count info r.thread_id) r locks
    else if locked_by_thread info r.thread_id
    then (ended false, locks)
    else if is_instantly r.strategy
    then (ended false, locks)
    else (waiting w.now, locks)

-- A round of the loop that waits, after its pause.
unfoldable pub still_held : Draw → Request → ℕ → LockMap → Phase × LockMap
unfolding timed_out
still_held w r since locks =
    if timed_out r since w.now || is_instantly r.strategy
    then (ended false, locks)
    else (waiting since, locks)

unfoldable pub start_with : Option LockInfo → Draw → Request → LockMap → Phase × LockMap
unfolding open_lock_file contended
start_with none w r locks = open_lock_file w r locks
start_with (some info) w r locks = contended w r info locks

unfoldable pub wait_with : Option LockInfo → Draw → Request → ℕ → LockMap → Phase × LockMap
unfolding open_lock_file still_held
wait_with none w r since locks = open_lock_file w r locks
wait_with (some info) w r since locks = still_held w r since locks

unfoldable pub acquire_step : Draw → Request → Phase → LockMap → Phase × LockMap
unfolding start_with wait_with
acquire_step w r starting locks = start_with (find r.lock_path locks) w r locks
acquire_step w r (waiting since) locks = wait_with (find r.lock_path locks) w r since locks
acquire_step w r (locking fd since) locks = lock_file w fd since r locks
acquire_step w r (ended result) locks = (ended result, locks)
acquire_step w r aborted locks = (aborted, locks)

abbrev pub uncounted : FilePath → Option LockInfo → LockMap → Option Bool × LockMap
uncounted p none locks = (none, locks)
uncounted p (some info) locks = (some true, assign p info locks)

-- The entry is given up; `unlocked` says whether `flock` with LOCK_UN succeeds. What `close` and
-- `unlink` answer is only logged.
unfoldable pub release_held : Bool → ℕ → FilePath → LockInfo → LockMap → Option Bool × LockMap
unfolding locked_by_thread decrement_ref_count
release_held unlocked thread_id lock_path info locks =
    if not (locked_by_thread info thread_id)
    then (some false, locks)
    else if is_shared info.mode && ltb 1 info.ref_count
    then uncounted lock_path (decrement_ref_count info thread_id) locks
    else if not unlocked
    then (some false, locks)
    else (some true, erase lock_path locks)

unfoldable pub release_with :
    Option LockInfo → Bool → ℕ → FilePath → LockMap → Option Bool × LockMap
unfolding release_held
release_with none unlocked thread_id lock_path locks = (some false, locks)
release_with (some info) unlocked thread_id lock_path locks =
    release_held unlocked thread_id lock_path info locks

-- The result is `none` if `UNREACHABLE` is reached.
unfoldable pub release_file_lock : Bool → ℕ → FilePath → LockMap → Option Bool × LockMap
unfolding release_with
release_file_lock unlocked thread_id lock_path locks =
    release_with (find lock_path locks) unlocked thread_id lock_path locks
