-- ===== src/Storage/Lifecycle.antt =====
-- The life of a `StorageManager`: the constructor, the thread that makes the snapshots, the thresholds
-- and the destructor.
use octet.Prelude.{
  ℕ, ◌-◌, ◌/◌, ◌≡◌, refl, sym, subst, inl, inr, Bool, true, false, ◌&&◌, ◌||◌, Option, none, some,
  List, [], ◌∷◌, arith, nat_eq, list_eq, ltb, leb, if◌then◌else◌, Bool-cases, Bytes,
}
use octet.Disk.{FilePath, Disk, Answers}
use octet.FileChecks.{ensure_directory_exists}
use octet.Snapshot.{Fits}
use octet.Files.Append.{IsAllOrNothing}
use octet.Journal.{Journal, open_journal}
use octet.Storage.Durable.{IsDurable, IsId, IsStamp}
use octet.Storage.Snapshots.{create_snapshot-IsDurable}
use octet.Storage.{
  Storage, fresh, journal_file_name, request_snapshot_async, create_snapshot, finish_snapshot,
  LoadAnswers, load_from_disk,
}

-- The constructor's body, over the journal it has opened.
unfoldable pub construct_over :
    Option (Journal × Disk) → Answers → LoadAnswers → Bytes → ℕ → FilePath → Option (Storage × Disk)
construct_over none b l now time data_dir = none
construct_over (some (journal, d)) b l now time data_dir =
    let (there, d') = ensure_directory_exists b data_dir true d in
    if there then some (load_from_disk l now (fresh data_dir journal time) d', d') else none

-- The constructor; `none` is the exception, of the journal or of its own.
unfoldable pub construct :
    Answers → Answers → LoadAnswers → Bytes → ℕ → FilePath → Disk → Option (Storage × Disk)
unfolding construct_over
construct a b l now time data_dir d =
    construct_over (open_journal a now (journal_file_name ∷ data_dir) d) b l now time data_dir

abbrev pub nanoseconds_per_minute : ℕ
nanoseconds_per_minute = 60000000000

-- `static_cast<int64_t>` makes a number from 2^63 on negative, and no time is below it.
unfoldable pub time_elapsed : ℕ → Storage → Bool
time_elapsed now s =
    ltb 9223372036854775807 s.snapshot_time_threshold_minutes
    || leb s.snapshot_time_threshold_minutes ((now - s.last_snapshot_time) / nanoseconds_per_minute)

unfoldable pub set_snapshot_operations_threshold : ℕ → Storage → Storage
set_snapshot_operations_threshold threshold s =
    let s' = record s { snapshot_operations_threshold = threshold } in
    if leb threshold s.operations_since_last_snapshot then request_snapshot_async s' else s'

unfoldable pub set_snapshot_time_threshold : ℕ → ℕ → Storage → Storage
unfolding time_elapsed
set_snapshot_time_threshold now minutes s =
    let s' = record s { snapshot_time_threshold_minutes = minutes } in
    if time_elapsed now s' && ltb 0 s.operations_since_last_snapshot
    then request_snapshot_async s'
    else s'

-- What a round draws from outside: the times before and after the snapshot, and what the snapshot
-- takes.
pub record Round : Type 0 where
  pub write_answers : Answers
  pub journal_answers : Answers
  pub woken_at : ℕ
  pub now : Bytes
  pub time : ℕ
  pub snapshot_id : Bytes

unfoldable pub should_create : Round → Storage → Bool
unfolding time_elapsed
should_create r s =
    s.snapshot_requested || time_elapsed r.woken_at s && ltb 0 s.operations_since_last_snapshot

-- `createSnapshot` with no call in between; nothing looks at its result.
unfoldable pub take_snapshot : Round → Storage → Disk → Storage × Disk
take_snapshot r s d =
    let (_, s', d') =
      create_snapshot r.write_answers r.journal_answers r.now r.time r.snapshot_id s d in
    (s', d')

-- The loop's body after the wait of `snapshotThreadFunction`.
unfoldable pub snapshot_round : Round → Storage → Disk → Storage × Disk
unfolding should_create take_snapshot
snapshot_round r s d =
    let s' = record s { snapshot_requested = false } in
    if should_create r s then take_snapshot r s' d else (s', d)

-- The rounds until the shutdown is requested; one is given for each time the wait ends.
unfoldable pub snapshot_thread : List Round → Storage → Disk → Storage × Disk
unfolding snapshot_round
snapshot_thread [] s d = (s, d)
snapshot_thread (r ∷ rounds) s d =
    let (s', d') = snapshot_round r s d in
    let after = snapshot_thread rounds s' d' in if s.shutdown_requested then (s, d) else after

-- What the destructor draws: the round of a thread that was waiting, which the notification ends, and
-- the last snapshot. A thread that meets the request before it waits makes no round.
pub record Closing : Type 0 where
  pub waking : Option Round
  pub last_round : Round

unfoldable pub woken : Option Round → Storage → Disk → Storage × Disk
unfolding snapshot_round
woken none s d = (s, d)
woken (some r) s d = snapshot_round r s d

-- The destructor: the shutdown is requested, the thread ends, then the last snapshot is made.
unfoldable pub destroy : Closing → Storage → Disk → Storage × Disk
unfolding take_snapshot woken
destroy c s d =
    let (s', d') = woken c.waking (record s { shutdown_requested = true }) d in
    take_snapshot c.last_round s' d'

-- A round's system calls have their whole effect or none, and what it writes can be read again.
abbrev pub IsSoundRound : Round → Storage → Type 0
IsSoundRound r s =
    IsAllOrNothing r.write_answers
    × IsAllOrNothing r.journal_answers
    × IsId r.snapshot_id
    × IsStamp r.now
    × Fits s.data_store

take_snapshot-IsDurable :
    (r : Round) (s : Storage) (d : Disk)
    → IsSoundRound r s
    → IsDurable s d
    → IsDurable (take_snapshot r s d).0 (take_snapshot r s d).1
unfolding take_snapshot
take_snapshot-IsDurable r s d (whole, whole', id, stamp, fits) h =
    create_snapshot-IsDurable r.write_answers r.journal_answers r.now r.snapshot_id r.time s d whole
      whole' id stamp fits h

-- A round of the snapshot thread keeps memory and disk in agreement, whether or not it makes a
-- snapshot and whether or not that succeeds. Conditions: no write is partial, renames and
-- directory synchronisations succeed, the snapshot's identifier and the clock's text can stand in
-- the journal, and the store's counts fit in 32 bits.
pub snapshot_round-IsDurable :
    (r : Round) (s : Storage) (d : Disk)
    → IsSoundRound r s
    → IsDurable s d
    → IsDurable (snapshot_round r s d).0 (snapshot_round r s d).1
unfolding snapshot_round
snapshot_round-IsDurable r s d sound h = elim (Bool-cases (should_create r s)) [
  | inl due ↦ rw due (take_snapshot-IsDurable r (record s { snapshot_requested = false }) d sound h)
  | inr no_need ↦ rw no_need h
]

abbrev pub IsSoundWaking : Option Round → Storage → Type 0
IsSoundWaking none s = Unit
IsSoundWaking (some r) s = IsSoundRound r s

abbrev pub IsSoundClosing : Closing → Storage → Type 0
IsSoundClosing c s = IsSoundWaking c.waking s × IsSoundRound c.last_round s

pub snapshot_round-data_store :
    (r : Round) (s : Storage) (d : Disk) → (snapshot_round r s d).0.data_store ≡ s.data_store
unfolding snapshot_round take_snapshot create_snapshot finish_snapshot
snapshot_round-data_store r s d = ground arith

woken-data_store :
    (o : Option Round) (s : Storage) (d : Disk) → (woken o s d).0.data_store ≡ s.data_store
unfolding woken
woken-data_store none s d = refl
woken-data_store (some r) s d = snapshot_round-data_store r s d

woken-IsDurable :
    (o : Option Round) (s : Storage) (d : Disk)
    → IsSoundWaking o s
    → IsDurable s d
    → IsDurable (woken o s d).0 (woken o s d).1
unfolding woken
woken-IsDurable none s d sound h = h
woken-IsDurable (some r) s d sound h = snapshot_round-IsDurable r s d sound h

closing_on :
    (r : Round) (s t : Storage) → t.data_store ≡ s.data_store → IsSoundRound r s → IsSoundRound r t
closing_on r s t same (whole, whole', id, stamp, fits) =
    (whole, whole', id, stamp, subst Fits (sym same) fits)

-- The destructor, with the thread's last round, keeps memory and disk in agreement, whether or not
-- its snapshots succeed, under the conditions of a round of the thread.
pub destroy-IsDurable :
    (c : Closing) (s : Storage) (d : Disk)
    → IsSoundClosing c s
    → IsDurable s d
    → IsDurable (destroy c s d).0 (destroy c s d).1
unfolding destroy
destroy-IsDurable c s d (waking, sound) h =
    let s0 = record s { shutdown_requested = true } in
    let (s', d') = woken c.waking s0 d in
    take_snapshot-IsDurable c.last_round s' d'
      (closing_on c.last_round s s' (woken-data_store c.waking s0 d) sound)
      (woken-IsDurable c.waking s0 d (waking_on c.waking waking) h)
  where
    waking_on :
        (o : Option Round)
        → IsSoundWaking o s
        → IsSoundWaking o (record s { shutdown_requested = true })
    waking_on none w = w
    waking_on (some r) w = w
