-- ===== src/Storage.antt =====
-- `StorageManager` of src/storage/storage_manager.cpp. A call holds its lock from its first to its
-- last access, so each public operation is one step here; only `createSnapshot` lets other calls in
-- between its copy of the data and the writing, and so it is cut in two. What the program draws from
-- outside comes as arguments: the answers of the system, the identifier that the generator returns,
-- the text of the clock for the journal and the time of the steady clock in nanoseconds.
pub mod Logged
pub mod Durable
pub mod Snapshots
pub mod Recovery
pub mod Runs
pub mod Evolution
pub mod Kept
pub mod Overtaken
pub mod Paths
pub mod Lifecycle
pub mod Lives
pub mod Thresholds
pub mod Unchanged
pub mod Contract
use octet.Prelude.{
  ℕ, zero, suc, ◌+◌, ◌-◌, ◌*◌, ◌/◌, ◌%◌, ◌^◌, ◌≤◌, ◌<◌, String, ◌≡◌, refl, sym, ap, ◌∙◌, fun_ext,
  ◌≢◌, ◌↔◌, ◌⊎◌, inl, inr, Bool, true, false, ◌&&◌, ◌||◌, not, Option, none, some, List, [], ◌∷◌,
  ◌++◌, append_assoc, append-nil, arith, Comparable, ◌==◌, nat_eq, list_eq, list_beq, list_beq_iff,
  beq_refl, beq_ne, ltb, leb, nat_beq, nat_beq_iff, if◌then◌else◌, has_value, Bool-cases,
  Option-cases, Bytes, codes, length, take, drop, length-append, take-length-append,
  drop-length-append, length-drop, All, All-append, Lacks,
}
use octet.Disk.{FilePath, Disk, Answers}
use octet.FileChecks.{is_file_readable}
use octet.Files.{safe_file_read, atomic_file_write}
use octet.Map.{find, contains, assign, erase}
use octet.Journal.{
  Store, Journal, write_insert, write_update, write_remove, write_checkpoint, replay_journal,
  get_last_checkpoint_id,
}
use octet.Snapshot.{serialize_map, deserialize_map}

pub record Storage : Type 0 where
  pub data_store : Store
  pub data_dir : FilePath
  pub snapshot_path : FilePath
  pub journal : Journal
  pub operations_since_last_snapshot : ℕ
  pub snapshot_operations_threshold : ℕ
  pub snapshot_time_threshold_minutes : ℕ
  pub shutdown_requested : Bool
  pub snapshot_requested : Bool
  pub last_snapshot_time : ℕ

abbrev pub snapshot_file_name : Bytes
snapshot_file_name = codes "octet-data.snapshot"

abbrev pub journal_file_name : Bytes
journal_file_name = codes "octet-operations.journal"

-- The members as the constructor initialises them.
unfoldable pub fresh : FilePath → Journal → ℕ → Storage
fresh data_dir journal time = record {
  data_store = [];
  data_dir = data_dir;
  snapshot_path = snapshot_file_name ∷ data_dir;
  journal = journal;
  operations_since_last_snapshot = 0;
  snapshot_operations_threshold = 100;
  snapshot_time_threshold_minutes = 10;
  shutdown_requested = false;
  snapshot_requested = false;
  last_snapshot_time = time;
}

abbrev pub size_limit : ℕ
size_limit = 18446744073709551616

unfoldable pub request_snapshot_async : Storage → Storage
request_snapshot_async s = record s { snapshot_requested = true }

-- The counter is a `size_t`.
unfoldable pub notify_operation : Storage → Storage
unfolding request_snapshot_async
notify_operation s =
    let current = (s.operations_since_last_snapshot + 1) % size_limit in
    let s' = record s { operations_since_last_snapshot = current } in
    if leb s.snapshot_operations_threshold current then request_snapshot_async s' else s'

unfoldable pub insert :
    Answers → Bytes → Bytes → Bytes → Storage → Disk → Option Bytes × Storage × Disk
unfolding notify_operation
insert a now uuid data' s d =
    let (written, j, d') = write_insert a now uuid data' s.journal d in
    if written
    then (
      some uuid,
      notify_operation (record s { journal = j; data_store = assign uuid data' s.data_store }),
      d',
    )
    else (none, record s { journal = j }, d')

unfoldable pub get : Bytes → Storage → Option Bytes
get uuid s = find uuid s.data_store

unfoldable pub update : Answers → Bytes → Bytes → Bytes → Storage → Disk → Bool × Storage × Disk
unfolding notify_operation
update a now uuid data' s d =
    if not (contains uuid s.data_store)
    then (false, s, d)
    else (let (written, j, d') = write_update a now uuid data' s.journal d in
        if written
        then (
          true,
          notify_operation (record s { journal = j; data_store = assign uuid data' s.data_store }),
          d',
        )
        else (false, record s { journal = j }, d'))

unfoldable pub remove : Answers → Bytes → Bytes → Storage → Disk → Bool × Storage × Disk
unfolding notify_operation
remove a now uuid s d =
    if not (contains uuid s.data_store)
    then (false, s, d)
    else (let (written, j, d') = write_remove a now uuid s.journal d in
        if written
        then (
          true,
          notify_operation (record s { journal = j; data_store = erase uuid s.data_store }),
          d',
        )
        else (false, record s { journal = j }, d'))

unfoldable pub get_entries_count : Storage → ℕ
get_entries_count s = length s.data_store

unfoldable pub write_snapshot_to_disk : Answers → Store → Storage → Disk → Bool × Disk
write_snapshot_to_disk a data' s d = atomic_file_write a s.snapshot_path (serialize_map data') d

-- What `createSnapshot` does with the copy of the data: the snapshot, then the checkpoint.
unfoldable pub finish_snapshot :
    Answers → Answers → Bytes → ℕ → Bytes → Store → Storage → Disk → Bool × Storage × Disk
unfolding write_snapshot_to_disk
finish_snapshot a b now time snapshot_id data_copy s d =
    let (saved, d') = write_snapshot_to_disk a data_copy s d in
    if not saved
    then (false, s, d')
    else (let (written, j, d'') = write_checkpoint b now snapshot_id s.journal d' in
        if written
        then (
          true,
          record s { journal = j; operations_since_last_snapshot = 0; last_snapshot_time = time },
          d'',
        )
        else (false, record s { journal = j }, d''))

-- With no other call in between.
unfoldable pub create_snapshot :
    Answers → Answers → Bytes → ℕ → Bytes → Storage → Disk → Bool × Storage × Disk
unfolding finish_snapshot
create_snapshot a b now time snapshot_id s d =
    finish_snapshot a b now time snapshot_id s.data_store s d

-- The answers to the four calls that `loadFromDisk` makes.
pub record LoadAnswers : Type 0 where
  pub check : Answers
  pub snapshot : Answers
  pub last : Answers
  pub replay : Answers

loaded : Option Store → Storage → Bool × Storage
loaded none s = (false, s)
loaded (some data_store) s = (true, record s { data_store = data_store })

unfoldable pub load_snapshot : Answers → Storage → Disk → Bool × Storage
unfolding loaded
load_snapshot a s d = elim (safe_file_read a s.snapshot_path d) [
  | none ↦ (false, s)
  | some content ↦ loaded (deserialize_map content) s
]

unfoldable pub restore_from_journal :
    Answers → Bytes → Option Bytes → Storage → Disk → Bool × Storage
restore_from_journal a now last s d =
    let (done, data_store) = replay_journal a now last s.data_store s.journal d in
    (done, record s { data_store = data_store })

-- The last checkpoint is asked for only if the snapshot has been loaded.
unfoldable pub checkpoint_to_start_from :
    Answers → Bytes → Bool → Storage → Disk → Option Bytes × Storage
checkpoint_to_start_from a now snapshot_loaded s d =
    if snapshot_loaded
    then (let (last, j) = get_last_checkpoint_id a now s.journal d in
        (last, record s { journal = j }))
    else (none, s)

-- The snapshot, if there is one that can be read; and whether it has been loaded.
unfoldable pub load_start : LoadAnswers → Storage → Disk → Bool × Storage
unfolding load_snapshot
load_start l s d =
    if is_file_readable l.check s.snapshot_path d then load_snapshot l.snapshot s d else (false, s)

-- The journal, from the last checkpoint on if the snapshot has been loaded.
unfoldable pub load_rest : LoadAnswers → Bytes → Bool × Storage → Disk → Storage
unfolding checkpoint_to_start_from restore_from_journal
load_rest l now (snapshot_loaded, s) d =
    let (last, s') = checkpoint_to_start_from l.last now snapshot_loaded s d in
    (restore_from_journal l.replay now last s' d).1

-- The function returns `true` whatever could be read; the state is what it leaves.
unfoldable pub load_from_disk : LoadAnswers → Bytes → Storage → Disk → Storage
unfolding load_start load_rest
load_from_disk l now s d = load_rest l now (load_start l s d) d
