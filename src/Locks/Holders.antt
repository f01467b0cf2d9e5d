-- ===== src/Locks/Holders.antt =====
-- How often a thread holds a lock, and what the changes of the map do to that number.
use octet.Prelude.{
  ℕ, ◌+◌, ◌-◌, ◌<◌, ◌≡◌, refl, sym, inl, inr, Bool, true, false, Option, none, some, List, [], ◌∷◌,
  ◌++◌, arith, ◌==◌, nat_eq, list_eq, nat_beq, nat_beq_iff, if◌then◌else◌, has_value, Bool-cases,
  Option-cases, length,
}
use octet.Disk.{FilePath, LockMode}
use octet.Map.{find, assign, erase, emplace, find-assign, find-erase, find-emplace}
use octet.Locks.{LockInfo, lock_info, is_among, erase_first, LockMap}

abbrev pub one_if : Bool → ℕ
one_if true = 1
one_if false = 0

unfoldable pub occurrences : ℕ → List ℕ → ℕ
occurrences t [] = 0
occurrences t (u ∷ us) = one_if (nat_beq u t) + occurrences t us

abbrev pub held_by : ℕ → Option LockInfo → ℕ
held_by t none = 0
held_by t (some info) = occurrences t info.thread_ids

-- How often the thread `t` holds the lock file `p`.
unfoldable pub holds : ℕ → FilePath → LockMap → ℕ
holds t p locks = held_by t (find p locks)

-- The second map has one holding more, of `t` at `p`, and the others are the same.
abbrev pub OneMore : ℕ → FilePath → LockMap → LockMap → Type 0
OneMore t p locks locks' =
    (u : ℕ) (q : FilePath)
    → holds u q locks'
      ≡ (if p == q then holds u p locks + one_if (nat_beq t u) else holds u q locks)

-- It has one less.
abbrev pub OneLess : ℕ → FilePath → LockMap → LockMap → Type 0
OneLess t p locks locks' =
    (u : ℕ) (q : FilePath)
    → holds u q locks'
      ≡ (if p == q then holds u p locks - one_if (nat_beq t u) else holds u q locks)

pub occurrences-append :
    (t : ℕ) (us vs : List ℕ) → occurrences t (us ++ vs) ≡ occurrences t us + occurrences t vs
unfolding occurrences
occurrences-append t [] vs = omega arith
occurrences-append t (u ∷ us) vs = omega (arith, occurrences-append t us vs)

occurrences-one : (t u : ℕ) → occurrences u (t ∷ []) ≡ one_if (nat_beq t u)
unfolding occurrences
occurrences-one t u = omega arith

pub occurrences-erase :
    (t u : ℕ) (ids rest : List ℕ)
    → erase_first t ids ≡ some rest
    → occurrences u ids ≡ occurrences u rest + one_if (nat_beq t u)
unfolding occurrences erase_first
occurrences-erase t u [] rest e = cc
occurrences-erase t u (v ∷ ids) rest e = elim (Option-cases (erase_first t ids)) [
  | inl gone ↦ ground (arith, gone)
  | inr (vs, left) ↦ ground (arith, left, occurrences-erase t u ids vs left)
]

-- The only thread of a list.
pub occurrences-only :
    (t u : ℕ) (ids : List ℕ)
    → length ids ≡ 1
    → is_among t ids ≡ true
    → occurrences u ids ≡ one_if (nat_beq t u)
unfolding occurrences is_among
occurrences-only t u [] l h = cc
occurrences-only t u (v ∷ []) l h = ground (arith, nat_beq_iff v t)
occurrences-only t u (v ∷ w ∷ ids) l h = absurd (omega (arith, l))

held_by-if :
    (b : Bool) (u n : ℕ) (o e : Option LockInfo)
    → held_by u o ≡ n
    → held_by u (if b then o else e) ≡ (if b then n else held_by u e)
held_by-if true u n o e h = h
held_by-if false u n o e h = refl

-- A map with one entry changed.
module _ (t : ℕ) (p : FilePath) (locks : LockMap) where
  pub assign-OneMore :
      (info : LockInfo)
      → ((u : ℕ) → occurrences u info.thread_ids ≡ holds u p locks + one_if (nat_beq t u))
      → OneMore t p locks (assign p info locks)
  unfolding holds
  assign-OneMore info h u q = rw (find-assign p q info locks) (
      held_by-if (p == q) u (holds u p locks + one_if (nat_beq t u)) (some info) (find q locks)
        (h u))

  pub assign-OneLess :
      (info : LockInfo)
      → ((u : ℕ) → occurrences u info.thread_ids ≡ holds u p locks - one_if (nat_beq t u))
      → OneLess t p locks (assign p info locks)
  unfolding holds
  assign-OneLess info h u q = rw (find-assign p q info locks) (
      held_by-if (p == q) u (holds u p locks - one_if (nat_beq t u)) (some info) (find q locks)
        (h u))

  pub erase-OneLess :
      ((u : ℕ) → holds u p locks ≡ one_if (nat_beq t u)) → OneLess t p locks (erase p locks)
  unfolding holds
  erase-OneLess h u q = rw (find-erase p q locks) (
      held_by-if (p == q) u (holds u p locks - one_if (nat_beq t u)) none (find q locks)
        (omega (arith, h u)))

  pub emplace-OneMore :
      (fd : ℕ) (mode : LockMode)
      → find p locks ≡ none
      → OneMore t p locks (emplace p (lock_info fd mode t) locks)
  unfolding holds lock_info
  emplace-OneMore fd mode free u q =
      rw (find-emplace p q (lock_info fd mode t) locks) (elim (Bool-cases (p == q)) [
        | inl same ↦
            (let free' : find q locks ≡ none = rw (sym ((list_eq.same_iff p q).0 same)) free in
              rw (same, free', free) (omega (arith, occurrences-one t u)))
        | inr other ↦ rw other (present u (find q locks))
      ])
    where
      present :
          (u : ℕ) (o : Option LockInfo) → held_by u (if has_value o then o else none) ≡ held_by u o
      present u none = refl
      present u (some info) = refl

-- The threads of a list after one more, and after one less.
pub occurrences-shared :
    (t u : ℕ) (ids : List ℕ)
    → occurrences u (ids ++ (t ∷ [])) ≡ occurrences u ids + one_if (nat_beq t u)
occurrences-shared t u ids = omega (arith, occurrences-append u ids (t ∷ []), occurrences-one t u)

pub is_among-occurs : (t : ℕ) (ids : List ℕ) → is_among t ids ≡ true → 0 < occurrences t ids
unfolding is_among occurrences
is_among-occurs t [] h = cc
is_among-occurs t (u ∷ us) h = elim (Bool-cases (nat_beq u t)) [
  | inl same ↦ ground (arith, same)
  | inr other ↦ ground (arith, other, is_among-occurs t us)
]

pub not_among-occurs : (t : ℕ) (ids : List ℕ) → is_among t ids ≡ false → occurrences t ids ≡ 0
unfolding is_among occurrences
not_among-occurs t [] h = refl
not_among-occurs t (u ∷ us) h = elim (Bool-cases (nat_beq u t)) [
  | inl same ↦ absurd (ground (arith, same))
  | inr other ↦ ground (arith, other, not_among-occurs t us)
]

pub holds-none :
    (t : ℕ) (p : FilePath) (locks : LockMap) → find p locks ≡ none → holds t p locks ≡ 0
unfolding holds
holds-none t p locks there = rw there refl

pub holds-there :
    (u : ℕ) (p : FilePath) (locks : LockMap) (info : LockInfo)
    → find p locks ≡ some info
    → holds u p locks ≡ occurrences u info.thread_ids
unfolding holds
holds-there u p locks info there = rw there refl
