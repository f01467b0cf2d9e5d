-- ===== src/Locks/Releasing.antt =====
-- `releaseFileLock` against the view of a lock as the number of times that each thread holds it.
use octet.Prelude.{
  ℕ, ◌-◌, ◌<◌, ◌≡◌, refl, sym, ◌∙◌, ◌⊎◌, inl, inr, Bool, true, false, ◌&&◌, not, Option, none, some,
  arith, nat_eq, list_eq, ltb, nat_beq, if◌then◌else◌, Bool-cases, length,
}
use octet.Disk.{FilePath, LockMode, exclusive, shared}
use octet.Map.{find, erase}
use octet.Locks.{
  LockInfo, locked_by_thread, is_shared, decrement_ref_count, LockMap, release_held, release_with,
  release_file_lock,
}
use octet.Locks.Counts.{IsCounted, CountedAt, AllCounted, erase_first-Erased}
use octet.Locks.Holders.{
  not_among-occurs, holds-none, one_if, occurrences, holds, OneLess, occurrences-erase,
  occurrences-only, is_among-occurs, assign-OneLess, erase-OneLess, holds-there,
}

decrement_ref_count-erases :
    (t : ℕ) (info : LockInfo)
    → 1 < info.ref_count
    → is_shared info.mode ≡ true
    → locked_by_thread info t ≡ true
    → (info' : LockInfo) × (decrement_ref_count info t ≡ some info')
      × ((u : ℕ)
          → occurrences u info'.thread_ids ≡ occurrences u info.thread_ids - one_if (nat_beq t u))
unfolding decrement_ref_count locked_by_thread
decrement_ref_count-erases t info more sh held =
    let e = erase_first-Erased t info.thread_ids held in
    let positive : nat_beq info.ref_count 0 ≡ false = ground arith in
    (
      record info { ref_count = info.ref_count - 1; thread_ids = e.rest },
      rw (positive, sh, e.erased) refl,
      λ u. omega (arith, occurrences-erase t u info.thread_ids e.rest e.erased),
    )

single :
    (mode : LockMode) (l : ℕ)
    → is_shared mode && ltb 1 l ≡ false
    → (mode ≡ exclusive → l ≡ 1)
    → 0 < l
    → l ≡ 1
single exclusive l last alone positive = alone refl
single shared l last alone positive = ground arith

only_holder :
    (n t u : ℕ) (info : LockInfo)
    → IsCounted n info
    → is_shared info.mode && ltb 1 info.ref_count ≡ false
    → locked_by_thread info t ≡ true
    → occurrences u info.thread_ids ≡ one_if (nat_beq t u)
unfolding locked_by_thread
only_holder n t u info h last own =
    let last' : is_shared info.mode && ltb 1 (length info.thread_ids) ≡ false =
      rw (sym h.counts) last in
    occurrences-only t u info.thread_ids
      (single info.mode (length info.thread_ids) last' h.alone h.some_thread) own

-- What the caller of a release sees: with `true` one holding of its thread is given back; with `false`
-- nothing is changed, and the thread does not hold the lock or `flock` has failed.
abbrev pub Releases : Bool → ℕ → FilePath → LockMap → Option Bool × LockMap → Type 0
Releases unlocked t p locks (none, locks') = ⊥
Releases unlocked t p locks (some false, locks') =
    (locks' ≡ locks) × ((holds t p locks ≡ 0) ⊎ (unlocked ≡ false))
Releases unlocked t p locks (some true, locks') = (0 < holds t p locks) × OneLess t p locks locks'

occurs :
    (t : ℕ) (info : LockInfo) → locked_by_thread info t ≡ true → 0 < occurrences t info.thread_ids
unfolding locked_by_thread
occurs t info own = is_among-occurs t info.thread_ids own

idle :
    (t : ℕ) (info : LockInfo) → locked_by_thread info t ≡ false → occurrences t info.thread_ids ≡ 0
unfolding locked_by_thread
idle t info other = not_among-occurs t info.thread_ids other

module _ (t : ℕ) (p : FilePath) (locks : LockMap) where
  unlocked-Releases :
      (b : Bool)
      → 0 < holds t p locks
      → OneLess t p locks (erase p locks)
      → Releases b t p locks (if not b then (some false, locks) else (some true, erase p locks))
  unlocked-Releases true held less = (held, less)
  unlocked-Releases false held less = (refl, inr refl)

  release_held-Releases :
      (n : ℕ) (b : Bool) (info : LockInfo)
      → find p locks ≡ some info
      → IsCounted n info
      → Releases b t p locks (release_held b t p info locks)
  unfolding release_held
  release_held-Releases n b info there h = elim (Bool-cases (locked_by_thread info t)) [
    | inr other ↦ rw other (refl, inl (holds-there t p locks info there ∙ idle t info other))
    | inl own ↦
        (let here : 0 < holds t p locks =
            omega (arith, holds-there t p locks info there, occurs t info own) in
          rw own (elim (Bool-cases (is_shared info.mode && ltb 1 info.ref_count)) [
            | inl more ↦
                (let (info', e, less) =
                    decrement_ref_count-erases t info (ground arith) (ground arith) own in
                  rw (more, e)
                    (
                      here,
                      assign-OneLess t p locks info'
                          (λ u. omega (arith, less u, holds-there u p locks info there)),
                    ))
            | inr last ↦ rw last (
                unlocked-Releases b here (
                  erase-OneLess t p locks
                    (λ u. holds-there u p locks info there ∙ only_holder n t u info h last own)))
          ]))
  ]

  release_with-Releases :
      (n : ℕ) (b : Bool) (o : Option LockInfo)
      → find p locks ≡ o
      → CountedAt n o
      → Releases b t p locks (release_with o b t p locks)
  unfolding release_with
  release_with-Releases n b none there h = (refl, inl (holds-none t p locks there))
  release_with-Releases n b (some info) there h = release_held-Releases n b info there h

  -- On a map whose counters are right a release either returns true, and then its thread had held
  -- the lock, holds it once less, and every other holding is as before; or it returns false and
  -- changes nothing, and then the thread did not hold the lock or the system has failed to unlock
  -- the file.
  pub release_file_lock-Releases :
      (n : ℕ) (unlocked : Bool)
      → AllCounted n locks
      → Releases unlocked t p locks (release_file_lock unlocked t p locks)
  unfolding release_file_lock
  release_file_lock-Releases n unlocked all =
      release_with-Releases n unlocked (find p locks) refl (all p)
