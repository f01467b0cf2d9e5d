-- ===== src/Examples/Locking.antt =====
-- Examples for the locks: two readers and a writer on one file.
use octet.Prelude.{
  ℕ, ◌<◌, ◌≡◌, refl, true, false, some, List, [], ◌∷◌, arith, nat_eq, list_eq, list_beq, has_value,
  codes, length,
}
use octet.Disk.{FilePath, exclusive, shared}
use octet.Map.{find, emplace}
use octet.Locks.{
  lock_info, LockMap, get_lock_file_path, Request, Draw, granted, timeout, starting, waiting,
  locking, ended, acquire_step, release_file_lock, locked_by_thread, counter_limit, start_with,
  open_lock_file, opened_file, lock_file, try_flock,
}
use octet.Locks.Counts.{AllCounted}
use octet.Locks.Safety.{Event, step, release, all_happen, is_aborted, always_counted, never_aborts}
use octet.Locks.Holders.{holds}
use octet.Locks.Acquiring.{Acquires, acquire_step-Acquires}
use octet.Locks.Releasing.{Releases, release_file_lock-Releases}
use octet.Locks.Ending.{acquire_steps, is_over, acquire_steps-ends}
use octet.Locks.Guard.{
  FileLockGuard, guard_of, destroy_guard, release_all, GivesBackOnce, release_all-once,
  guard-restores, granted-unregistered,
}

abbrev data_file : FilePath
data_file = codes "octet.journal" ∷ codes "data" ∷ []

abbrev lock_path : FilePath
lock_path = get_lock_file_path data_file

abbrev reader : ℕ → Request
reader t = record {
  thread_id = t;
  lock_path = lock_path;
  mode = shared;
  strategy = timeout;
  limit = 1;
}

abbrev writer : Request
writer = record (reader 3) { mode = exclusive }

abbrev at : ℕ → Draw
at now = record { now = now; opened = some 4; flock = granted }

abbrev some_events : List Event
some_events =
    step (at 1) (reader 1) starting
    ∷ step (at 2) (reader 2) starting
    ∷ step (at 3) writer starting
    ∷ release true 1 lock_path
    ∷ []

abbrev some_locks : LockMap
some_locks = all_happen some_events []

few : length some_events < counter_limit
few = omega arith

some_locks-AllCounted : AllCounted (length some_events) some_locks
some_locks-AllCounted = always_counted some_events few

always_counted_example : AllCounted (length some_events) (all_happen some_events [])
always_counted_example = always_counted some_events few

never_aborts_example :
    (is_aborted (acquire_step (at 5) (reader 1) starting (all_happen some_events [])).0 ≡ false)
    × (has_value (release_file_lock true 2 lock_path (all_happen some_events [])).0 ≡ true)
never_aborts_example =
    never_aborts some_events (at 5) (reader 1) starting true 2 lock_path (omega arith) refl

acquire_step-Acquires_example :
    Acquires (reader 1) some_locks (acquire_step (at 5) (reader 1) (waiting 3) some_locks)
acquire_step-Acquires_example = acquire_step-Acquires (at 5) (reader 1) (waiting 3) some_locks refl

release_file_lock-Releases_example :
    Releases true 2 lock_path some_locks (release_file_lock true 2 lock_path some_locks)
release_file_lock-Releases_example =
    release_file_lock-Releases 2 lock_path some_locks (length some_events) true
      some_locks-AllCounted

abbrev turns : List (Draw × LockMap)
turns = (at 1, some_locks) ∷ (at 2, some_locks) ∷ (at 3, []) ∷ (at 5, []) ∷ (at 8, some_locks) ∷ []

acquire_steps-ends_example : is_over (acquire_steps turns writer starting) ≡ true
acquire_steps-ends_example =
    acquire_steps-ends turns writer 0 refl
      (omega arith, (omega arith, (omega arith, (omega arith, (omega arith, tt))))) (omega arith)

abbrev reading : FileLockGuard
reading = record { original_lock_path = data_file; locked = true }

release_all-once_example :
    GivesBackOnce 2 reading some_locks (release_all (false ∷ true ∷ true ∷ []) 2 reading some_locks)
release_all-once_example =
    release_all-once (length some_events) 2 some_locks (false ∷ true ∷ true ∷ []) reading
      some_locks-AllCounted refl

writer_takes :
    acquire_step (at 5) writer starting []
    ≡ (ended true, emplace lock_path (lock_info 4 exclusive 3) [])
unfolding acquire_step start_with open_lock_file opened_file lock_file try_flock find
writer_takes = refl

nothing_held : AllCounted 0 []
nothing_held p = unfold find in tt

guard-restores_example :
    holds 3 lock_path (
      destroy_guard true 3
        (guard_of data_file true)
        (emplace lock_path (lock_info 4 exclusive 3) []))
    ≡ holds 3 lock_path []
guard-restores_example =
    guard-restores 0 (at 5) writer starting data_file []
      (emplace lock_path (lock_info 4 exclusive 3) []) (omega arith) nothing_held refl refl
      writer_takes 3 lock_path

abbrev taken_meanwhile : LockMap
taken_meanwhile = (lock_path, lock_info 9 exclusive 7) ∷ []

granted-unregistered_example :
    (acquire_step (at 5) (reader 1) (locking 4 2) taken_meanwhile ≡ (ended true, taken_meanwhile))
    × (release_file_lock true 1 lock_path taken_meanwhile ≡ (some false, taken_meanwhile))
granted-unregistered_example =
    granted-unregistered (at 5) (reader 1) 4 2 (lock_info 9 exclusive 7) taken_meanwhile true
      (unfold find list_beq get_lock_file_path in refl) (unfold locked_by_thread lock_info in refl)
      refl
