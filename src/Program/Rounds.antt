-- ===== src/Program/Rounds.antt =====
-- The rounds of the storage's thread before and behind a single command.
use octet.Prelude.{◌≡◌, refl, ◌∙◌, Bool, true, false, List, [], ◌∷◌, nat_eq, list_eq, if◌then◌else◌}
use octet.Disk.{Disk}
use octet.Storage.{Storage}
use octet.Storage.Contract.{view}
use octet.Storage.Lifecycle.{
  Round, snapshot_round, snapshot_thread, IsSoundRound, snapshot_round-IsDurable,
}
use octet.Storage.Unchanged.{snapshot_round-IsSame}
use octet.Storage.Paths.{SameFiles}
use octet.Storage.Kept.{IsKept, same-IsKeyed}

-- Each round draws sound answers for the storage that it finds.
unfoldable pub AreSoundRounds : List Round → Storage → Disk → Type 0
AreSoundRounds [] s d = Unit
AreSoundRounds (r ∷ rounds) s d =
    let (s', d') = snapshot_round r s d in IsSoundRound r s × AreSoundRounds rounds s' d'

-- Memory and disk agree, the strings are the same, and the files.
abbrev pub Undisturbed : Storage → Storage × Disk → Type 0
Undisturbed s (s', d') = IsKept s' d' × (view s' ≡ view s) × SameFiles s' s

pub snapshot_round-Undisturbed :
    (r : Round) (s : Storage) (d : Disk)
    → IsSoundRound r s
    → IsKept s d
    → Undisturbed s (snapshot_round r s d)
snapshot_round-Undisturbed r s d sound h =
    let (seen, journal, snapshot) = snapshot_round-IsSame r s d in
    (
      (snapshot_round-IsDurable r s d sound (h.0), same-IsKeyed seen (h.1)),
      seen,
      (journal, snapshot),
    )

if-Undisturbed :
    (s : Storage) (b : Bool) (x y : Storage × Disk)
    → Undisturbed s x
    → Undisturbed s y
    → Undisturbed s (if b then x else y)
if-Undisturbed s true x y hx hy = hx
if-Undisturbed s false x y hx hy = hy

-- The rounds of the thread are not to be seen.
pub snapshot_thread-Undisturbed :
    (rounds : List Round) (s : Storage) (d : Disk)
    → AreSoundRounds rounds s d
    → IsKept s d
    → Undisturbed s (snapshot_thread rounds s d)
unfolding snapshot_thread AreSoundRounds
snapshot_thread-Undisturbed [] s d sound h = (h, refl, (refl, refl))
snapshot_thread-Undisturbed (r ∷ rounds) s d (sound, sounds) h =
    let (s', d') = snapshot_round r s d in
    let (kept, seen, (journal, snapshot)) = snapshot_round-Undisturbed r s d sound h in
    let (kept', seen', (journal', snapshot')) =
      snapshot_thread-Undisturbed rounds s' d' sounds kept in
    if-Undisturbed s s.shutdown_requested (s, d) (snapshot_thread rounds s' d')
      (h, refl, (refl, refl)) (kept', seen' ∙ seen, (journal' ∙ journal, snapshot' ∙ snapshot))
