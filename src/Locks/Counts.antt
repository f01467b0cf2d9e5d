-- ===== src/Locks/Counts.antt =====
-- The counter of a lock, the threads that it names, and what no run reaches.
use octet.Prelude.{
  ℕ, suc, ◌+◌, ◌-◌, ◌%◌, ◌≤◌, ◌<◌, ◌≡◌, refl, ap, ◌≢◌, inl, inr, Bool, true, false, Option, none,
  some, List, [], ◌∷◌, ◌++◌, arith, ◌==◌, nat_eq, list_eq, nat_beq, if◌then◌else◌, has_value,
  Bool-cases, length, length-append,
}
use octet.Disk.{FilePath, LockMode, exclusive}
use octet.Map.{find, assign, erase, emplace, find-assign, find-erase, find-emplace}
use octet.Locks.{
  LockInfo, lock_info, is_among, locked_by_thread, is_shared, counter_limit, increment_ref_count,
  erase_first, decrement_ref_count, LockMap,
}

-- The counter is the number of the threads, with repetitions; there is one at least, and only one of an
-- exclusive lock. No more than `n` were ever counted.
pub record IsCounted (n : ℕ) (info : LockInfo) : Type 0 where
  pub counts : info.ref_count ≡ length info.thread_ids
  pub some_thread : 0 < length info.thread_ids
  pub few : length info.thread_ids ≤ n
  pub alone : info.mode ≡ exclusive → length info.thread_ids ≡ 1

abbrev pub CountedAt : ℕ → Option LockInfo → Type 0
CountedAt n none = Unit
CountedAt n (some info) = IsCounted n info

-- So it is for every entry of the map.
abbrev pub AllCounted : ℕ → LockMap → Type 0
AllCounted n locks = (p : FilePath) → CountedAt n (find p locks)

pub lock_info-IsCounted : (n fd t : ℕ) (mode : LockMode) → IsCounted (suc n) (lock_info fd mode t)
unfolding lock_info
lock_info-IsCounted n fd t mode = record {
  counts = refl;
  some_thread = omega arith;
  few = omega arith;
  alone = λ e. refl;
}

pub IsCounted-suc : {n : ℕ} {info : LockInfo} → IsCounted n info → IsCounted (suc n) info
IsCounted-suc h = record {
  counts = h.counts;
  some_thread = h.some_thread;
  few = omega (arith, h.few);
  alone = h.alone;
}

CountedAt-suc : (n : ℕ) (o : Option LockInfo) → CountedAt n o → CountedAt (suc n) o
CountedAt-suc n none h = tt
CountedAt-suc n (some info) h = IsCounted-suc h

CountedAt-if :
    (n : ℕ) (b : Bool) (o e : Option LockInfo)
    → CountedAt n o
    → CountedAt n e
    → CountedAt n (if b then o else e)
CountedAt-if n true o e ho he = ho
CountedAt-if n false o e ho he = he

-- A map with one entry changed.
pub assign-AllCounted :
    (n : ℕ) (p : FilePath) (info : LockInfo) (locks : LockMap)
    → IsCounted (suc n) info
    → AllCounted n locks
    → AllCounted (suc n) (assign p info locks)
assign-AllCounted n p info locks h hs q = rw (find-assign p q info locks) (
    CountedAt-if (suc n) (p == q) (some info) (find q locks) h
      (CountedAt-suc n (find q locks) (hs q)))

pub emplace-AllCounted :
    (n : ℕ) (p : FilePath) (info : LockInfo) (locks : LockMap)
    → IsCounted (suc n) info
    → AllCounted n locks
    → AllCounted (suc n) (emplace p info locks)
emplace-AllCounted n p info locks h hs q = rw (find-emplace p q info locks) (
    CountedAt-if (suc n) (has_value (find q locks)) (find q locks)
      (if p == q then some info else none) (CountedAt-suc n (find q locks) (hs q))
      (CountedAt-if (suc n) (p == q) (some info) none h tt))

pub erase-AllCounted :
    (n : ℕ) (p : FilePath) (locks : LockMap)
    → AllCounted n locks
    → AllCounted (suc n) (erase p locks)
erase-AllCounted n p locks hs q =
    rw (find-erase p q locks)
      (CountedAt-if (suc n) (p == q) none (find q locks) tt (CountedAt-suc n (find q locks) (hs q)))

pub same-AllCounted : (n : ℕ) (locks : LockMap) → AllCounted n locks → AllCounted (suc n) locks
same-AllCounted n locks hs q = CountedAt-suc n (find q locks) (hs q)

-- What the erasing of a thread that is there leaves.
pub record Erased (t : ℕ) (ids : List ℕ) : Type 0 where
  pub rest : List ℕ
  pub erased : erase_first t ids ≡ some rest
  pub shorter : suc (length rest) ≡ length ids

cons-Erased : (t u : ℕ) (us : List ℕ) → u ≢ t → Erased t us → Erased t (u ∷ us)
unfolding erase_first
cons-Erased t u us other e = record {
  rest = u ∷ e.rest;
  erased = ground (arith, e.erased);
  shorter = ap suc e.shorter;
}

pub erase_first-Erased : (t : ℕ) (ids : List ℕ) → is_among t ids ≡ true → Erased t ids
unfolding erase_first is_among
erase_first-Erased t [] h = cc
erase_first-Erased t (u ∷ us) h = elim (Bool-cases (nat_beq u t)) [
  | inl same ↦ record { rest = us; erased = rw same refl; shorter = refl }
  | inr other ↦ cons-Erased t u us (ground arith) (erase_first-Erased t us (ground arith))
]

-- On an entry that is counted neither change of the counter meets its `UNREACHABLE`, and the result is
-- counted.
pub increment-IsCounted :
    (n t : ℕ) (info : LockInfo)
    → suc n < counter_limit
    → is_shared info.mode ≡ true
    → IsCounted n info
    → (info' : LockInfo) × (increment_ref_count info t ≡ some info') × IsCounted (suc n) info'
unfolding increment_ref_count
increment-IsCounted n t info small sh h = (
  record info {
    ref_count = (info.ref_count + 1) % counter_limit;
    thread_ids = info.thread_ids ++ (t ∷ []);
  },
  rw sh refl,
  record {
    counts = omega (arith, length-append info.thread_ids (t ∷ []), h.counts, h.few);
    some_thread = omega (arith, length-append info.thread_ids (t ∷ []));
    few = omega (arith, length-append info.thread_ids (t ∷ []), h.few);
    alone = λ e. cc (ap is_shared e);
  },
)

pub decrement-IsCounted :
    (n t : ℕ) (info : LockInfo)
    → 1 < info.ref_count
    → is_shared info.mode ≡ true
    → locked_by_thread info t ≡ true
    → IsCounted n info
    → (info' : LockInfo) × (decrement_ref_count info t ≡ some info') × IsCounted n info'
unfolding decrement_ref_count locked_by_thread
decrement-IsCounted n t info more sh held h =
    let e = erase_first-Erased t info.thread_ids held in
    let positive : nat_beq info.ref_count 0 ≡ false = ground arith in
    (
      record info { ref_count = info.ref_count - 1; thread_ids = e.rest },
      rw (positive, sh, e.erased) refl,
      record {
        counts = omega (arith, h.counts, e.shorter);
        some_thread = omega (arith, h.counts, e.shorter);
        few = omega (arith, h.few, e.shorter);
        alone = λ e. cc (ap is_shared e);
      },
    )
