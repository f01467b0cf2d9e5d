-- ===== src/Locks/Guard.antt =====
-- `FileLockGuard`, the object that takes a lock when it is made and gives it back when it is destroyed.
use octet.Prelude.{
  ℕ, suc, ◌+◌, ◌-◌, ◌<◌, ◌≡◌, refl, ap, subst, ◌∙◌, ◌⊎◌, inl, inr, Bool, true, false, Option, none,
  some, List, [], ◌∷◌, arith, ◌==◌, nat_eq, list_eq, beq_refl, nat_beq, if◌then◌else◌, Bool-cases,
}
use octet.Disk.{FilePath}
use octet.Map.{find, emplace}
use octet.Locks.{
  counter_limit, starting, waiting, aborted, LockInfo, LockMap, get_lock_file_path,
  release_file_lock, Phase, ended, Request, Draw, granted, locking, acquire_step, locked_by_thread,
  lock_file, try_flock, release_with, release_held,
}
use octet.Locks.Acquiring.{Acquires, is_unopened, acquire_step-Acquires}
use octet.Locks.Safety.{acquire_step-Fine, is_aborted}
use octet.Locks.Counts.{AllCounted}
use octet.Locks.Holders.{holds, one_if, OneMore, OneLess}
use octet.Locks.Releasing.{Releases, release_file_lock-Releases}

pub record FileLockGuard : Type 0 where
  pub original_lock_path : FilePath
  pub locked : Bool

-- The object after its constructor; `result` is what `acquireFileLock` said.
unfoldable pub guard_of : FilePath → Bool → FileLockGuard
guard_of file_path result = record { original_lock_path = file_path; locked = result }

abbrev pub is_locked : FileLockGuard → Bool
is_locked guard = guard.locked

abbrev pub given_back :
    FileLockGuard → Option Bool × LockMap → Option Bool × FileLockGuard × LockMap
given_back guard (some true, locks) = (some true, record guard { locked = false }, locks)
given_back guard (result, locks) = (result, guard, locks)

unfoldable pub release_guard :
    Bool → ℕ → FileLockGuard → LockMap → Option Bool × FileLockGuard × LockMap
release_guard unlocked thread_id guard locks =
    if guard.locked
    then given_back guard
        (release_file_lock unlocked thread_id (get_lock_file_path guard.original_lock_path) locks)
    else (some false, guard, locks)

-- The destructor.
unfoldable pub destroy_guard : Bool → ℕ → FileLockGuard → LockMap → LockMap
unfolding release_guard
destroy_guard unlocked thread_id guard locks =
    if guard.locked then (release_guard unlocked thread_id guard locks).2 else locks

-- Calls of `release`, one after the other; each draws whether `flock` succeeds.
unfoldable pub release_all : List Bool → ℕ → FileLockGuard → LockMap → FileLockGuard × LockMap
unfolding release_guard
release_all [] thread_id guard locks = (guard, locks)
release_all (b ∷ bs) thread_id guard locks =
    let (result, guard', locks') = release_guard b thread_id guard locks in
    release_all bs thread_id guard' locks'

-- Either the guard has its lock and nothing is changed, or it has given back one holding and has no lock.
abbrev pub GivesBackOnce : ℕ → FileLockGuard → LockMap → FileLockGuard × LockMap → Type 0
GivesBackOnce t guard locks (guard', locks') =
    ((guard'.locked ≡ true) × (locks' ≡ locks))
    ⊎ ((guard'.locked ≡ false)
        × OneLess t (get_lock_file_path guard.original_lock_path) locks locks')

release_all-unlocked :
    (bs : List Bool) (t : ℕ) (guard : FileLockGuard) (locks : LockMap)
    → guard.locked ≡ false
    → release_all bs t guard locks ≡ (guard, locks)
unfolding release_all
release_all-unlocked [] t guard locks h = refl
release_all-unlocked (b ∷ bs) t guard locks h = simp h (release_all-unlocked bs t guard locks h)

after_release :
    (b : Bool) (bs : List Bool) (t : ℕ) (guard : FileLockGuard) (locks : LockMap)
    (after : Option Bool × LockMap)
    → Releases b t (get_lock_file_path guard.original_lock_path) locks after
    → GivesBackOnce t guard locks (release_all bs t guard locks)
    → GivesBackOnce t guard locks
        (release_all bs t ((given_back guard after).1) ((given_back guard after).2))
after_release b bs t guard locks (none, locks') h later = absurd h
after_release b bs t guard locks (some false, locks') h later = rw h.0 later
after_release b bs t guard locks (some true, locks') h later =
    rw (release_all-unlocked bs t (record guard { locked = false }) locks' refl) (inr (refl, h.1))

-- However often `release` is called on a guard that has its lock, over a map whose counters are
-- right, it gives back one holding at most: the guard still has its lock and the map is unchanged,
-- or the guard has none and its thread holds the lock once less.
pub release_all-once :
    (n t : ℕ) (locks : LockMap) (bs : List Bool) (guard : FileLockGuard)
    → AllCounted n locks
    → guard.locked ≡ true
    → GivesBackOnce t guard locks (release_all bs t guard locks)
unfolding release_all
release_all-once n t locks [] guard all h = inl (h, refl)
release_all-once n t locks (b ∷ bs) guard all h = simp h (
    after_release b bs t guard locks
      (release_file_lock b t (get_lock_file_path guard.original_lock_path) locks)
      (release_file_lock-Releases t (get_lock_file_path guard.original_lock_path) locks n b all)
      (release_all-once n t locks bs guard all h))

still_locked :
    (t : ℕ) (p : FilePath) (before locks : LockMap) (after : Option Bool × LockMap)
    → 0 < holds t p locks
    → Releases true t p locks after
    → (locks' : LockMap) × (after ≡ (some true, locks')) × OneLess t p locks locks'
still_locked t p before locks (none, locks') held h = absurd h
still_locked t p before locks (some true, locks') held h = (locks', refl, h.1)
still_locked t p before locks (some false, locks') held h = elim h.1 [
  | inl idle ↦ absurd (omega (arith, held, idle))
  | inr impossible ↦ cc
]

OneMore-OneLess :
    (t : ℕ) (p : FilePath) (a b c : LockMap)
    → OneMore t p a b
    → OneLess t p b c
    → (u : ℕ) (q : FilePath) → holds u q c ≡ holds u q a
OneMore-OneLess t p a b c more less u q = elim (Bool-cases (p == q)) [
  | inr other ↦ ground (arith, other, less u q, more u q)
  | inl same ↦
      (let at_p : holds u p b ≡ holds u p a + one_if (nat_beq t u) =
          ground (arith, more u p, beq_refl p) in
        let p_is_q : p ≡ q = (list_eq.same_iff p q).0 same in
        let at_q : holds u q c ≡ holds u p b - one_if (nat_beq t u) =
          ground (arith, same, less u q) in
        let moved : holds u p a ≡ holds u q a = ap (λ x. holds u x a) p_is_q in
        omega (arith, at_p, at_q, moved))
]

unopened-alive : (phase : Phase) → is_unopened phase ≡ true → is_aborted phase ≡ false
unopened-alive starting h = refl
unopened-alive (waiting since) h = refl
unopened-alive (locking fd since) h = cc
unopened-alive (ended result) h = cc
unopened-alive aborted h = cc

holds-after :
    (t : ℕ) (p : FilePath) (locks locks' : LockMap)
    → OneMore t p locks locks'
    → 0 < holds t p locks'
holds-after t p locks locks' more = ground (arith, more t p, beq_refl p, beq_refl t)

-- If the last step of taking a lock has said true, in a map whose counters are right and without
-- waiting for the file, then the destructor of the guard, when the system unlocks the file, leaves
-- every thread with the holdings it had before that step.
pub guard-restores :
    (n : ℕ) (w : Draw) (r : Request) (phase : Phase) (file_path : FilePath) (locks locks' : LockMap)
    → suc n < counter_limit
    → AllCounted n locks
    → is_unopened phase ≡ true
    → r.lock_path ≡ get_lock_file_path file_path
    → acquire_step w r phase locks ≡ (ended true, locks')
    → (u : ℕ) (q : FilePath)
    → holds u q (destroy_guard true r.thread_id (guard_of file_path true) locks') ≡ holds u q locks
unfolding destroy_guard guard_of
guard-restores n w r phase file_path locks locks' small all early at took u q =
    let p = get_lock_file_path file_path in
    let at_r =
      (subst (λ after. Acquires r locks after) took
        (acquire_step-Acquires w r phase locks early)).0 in
    let more = subst (λ x. OneMore r.thread_id x locks locks') at at_r in
    let all' =
      subst (λ after. AllCounted (suc n) (after.1)) took
        ((acquire_step-Fine n r locks all w phase small (unopened-alive phase early)).1) in
    let (left, e, less) =
      still_locked r.thread_id p locks locks' (release_file_lock true r.thread_id p locks')
        (holds-after r.thread_id p locks locks' more)
        (release_file_lock-Releases r.thread_id p locks' (suc n) true all') in
    ap (λ after. holds u q ((given_back (guard_of file_path true) after).2)) e
    ∙ OneMore-OneLess r.thread_id p locks locks' left more less u q

-- A call that gets the file's lock after another thread has registered the path returns true
-- although its thread is not among the holders, and the release by its thread returns false and
-- changes nothing.
pub granted-unregistered :
    (w : Draw) (r : Request) (fd since : ℕ) (info : LockInfo) (locks : LockMap) (unlocked : Bool)
    → find r.lock_path locks ≡ some info
    → locked_by_thread info r.thread_id ≡ false
    → w.flock ≡ granted
    → (acquire_step w r (locking fd since) locks ≡ (ended true, locks))
      × (release_file_lock unlocked r.thread_id r.lock_path locks ≡ (some false, locks))
unfolding acquire_step lock_file try_flock emplace release_file_lock release_with release_held
granted-unregistered w r fd since info locks unlocked there other g =
    (simp (g, there) refl, simp (there, other) refl)
