-- ===== src/Program/Thresholds.antt =====
-- The thresholds that `main` sets leave the strings and the files as they are.
use octet.Prelude.{
  ℕ, ◌≡◌, refl, ◌∙◌, Bool, true, false, ◌&&◌, Option, none, some, nat_eq, list_eq, ltb, leb,
  if◌then◌else◌,
}
use octet.Disk.{Disk}
use octet.Storage.{Storage, get, request_snapshot_async}
use octet.Storage.Kept.{IsKept}
use octet.Storage.Lifecycle.{
  set_snapshot_operations_threshold, set_snapshot_time_threshold, time_elapsed,
}
use octet.Program.{set_thresholds}

-- The strings and the files are the same.
abbrev pub IsLike : Storage → Storage → Type 0
IsLike t s =
    (t.data_store ≡ s.data_store)
    × (t.journal.path ≡ s.journal.path)
    × (t.snapshot_path ≡ s.snapshot_path)

pub IsLike-trans : (s t u : Storage) → IsLike u t → IsLike t s → IsLike u s
IsLike-trans s t u (store, journal, snapshot) (store', journal', snapshot') =
    (store ∙ store', journal ∙ journal', snapshot ∙ snapshot')

request-IsLike : (b : Bool) (s : Storage) → IsLike (if b then request_snapshot_async s else s) s
unfolding request_snapshot_async
request-IsLike true s = (refl, refl, refl)
request-IsLike false s = (refl, refl, refl)

pub operations-IsLike : (n : ℕ) (s : Storage) → IsLike (set_snapshot_operations_threshold n s) s
unfolding set_snapshot_operations_threshold
operations-IsLike n s =
    request-IsLike (leb n s.operations_since_last_snapshot)
      (record s { snapshot_operations_threshold = n })

pub minutes-IsLike : (time n : ℕ) (s : Storage) → IsLike (set_snapshot_time_threshold time n s) s
unfolding set_snapshot_time_threshold
minutes-IsLike time n s =
    let s' = record s { snapshot_time_threshold_minutes = n } in
    request-IsLike (time_elapsed time s' && ltb 0 s.operations_since_last_snapshot) s'

pub set_thresholds-IsLike :
    (time : ℕ) (operations minutes : Option ℕ) (s : Storage)
    → IsLike (set_thresholds time operations minutes s) s
unfolding set_thresholds
set_thresholds-IsLike time none none s = (refl, refl, refl)
set_thresholds-IsLike time (some n) none s = operations-IsLike n s
set_thresholds-IsLike time none (some m) s = minutes-IsLike time m s
set_thresholds-IsLike time (some n) (some m) s =
    let t = set_snapshot_operations_threshold n s in
    IsLike-trans s t (set_snapshot_time_threshold time m t) (minutes-IsLike time m t)
      (operations-IsLike n s)

pub IsLike-IsKept : (s t : Storage) (d : Disk) → IsLike t s → IsKept s d → IsKept t d
unfolding get
IsLike-IsKept s t d (store, journal, snapshot) (durable, keyed) =
    (rw (store, journal, snapshot) durable, rw store keyed)
