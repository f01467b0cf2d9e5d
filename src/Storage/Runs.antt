-- ===== src/Storage/Runs.antt =====
-- Runs of calls, one after the other, and a restart at the end.
use octet.Prelude.{ℕ, ◌≡◌, refl, none, some, [], ◌∷◌, nat_eq, list_eq, Bytes}
use octet.Disk.{Disk, Answers, FilePath, directory, regular}
use octet.Files.Append.{IsAllOrNothing}
use octet.Journal.{journal_header}
use octet.Journal.Text.{entries_text, run_entries}
use octet.Snapshot.{Fits}
use octet.Storage
use octet.Storage.{
  Storage, insert, update, remove, create_snapshot, LoadAnswers, load_from_disk, fresh, get,
}
use octet.Storage.Durable.{
  IsId, IsStamp, IsDurable, insert-IsDurable, update-IsDurable, remove-IsDurable,
}
use octet.Storage.Snapshots.{create_snapshot-IsDurable}
use octet.Storage.Recovery.{AllReadable, IsFresh, load_from_disk_recovers}

-- A call with what it draws from outside: answers, texts of the clock, identifiers, data.
pub data Call : Type 0 where
  call_insert : Answers → Bytes → Bytes → Bytes → Call
  call_update : Answers → Bytes → Bytes → Bytes → Call
  call_remove : Answers → Bytes → Bytes → Call
  call_snapshot : Answers → Answers → Bytes → ℕ → Bytes → Call

unfoldable pub perform : Call → Storage × Disk → Storage × Disk
perform (call_insert a now uuid data') (s, d) =
    let (_, s', d') = insert a now uuid data' s d in (s', d')
perform (call_update a now uuid data') (s, d) =
    let (_, s', d') = update a now uuid data' s d in (s', d')
perform (call_remove a now uuid) (s, d) = let (_, s', d') = remove a now uuid s d in (s', d')
perform (call_snapshot a b now time id) (s, d) =
    let (_, s', d') = create_snapshot a b now time id s d in (s', d')

-- No write is partial, renames and synchronisations of directories succeed, the clock and the
-- generator give texts that the journal can hold, and a snapshot is taken of a store whose counts fit
-- in 32 bits.
abbrev pub IsSound : Call → Storage → Type 0
IsSound (call_insert a now uuid data') s = IsAllOrNothing a × IsId uuid × IsStamp now
IsSound (call_update a now uuid data') s = IsAllOrNothing a × IsId uuid × IsStamp now
IsSound (call_remove a now uuid) s = IsAllOrNothing a × IsId uuid × IsStamp now
IsSound (call_snapshot a b now time id) s =
    IsAllOrNothing a × IsAllOrNothing b × IsId id × IsStamp now × Fits s.data_store

-- The states that calls lead to.
pub data Reach (s : Storage) (d : Disk) : Storage → Disk → Type 0 where
  here : Reach s d s d
  next :
      {s' : Storage} {d' : Disk}
      → Reach s d s' d'
      → (c : Call) → IsSound c s'
      → Reach s d (perform c (s', d')).0 (perform c (s', d')).1

perform-IsDurable :
    (c : Call) (s : Storage) (d : Disk)
    → IsSound c s
    → IsDurable s d
    → IsDurable (perform c (s, d)).0 (perform c (s, d)).1
unfolding perform
perform-IsDurable (call_insert a now uuid data') s d (whole, id, stamp) h =
    insert-IsDurable a now uuid data' s d whole id stamp h
perform-IsDurable (call_update a now uuid data') s d (whole, id, stamp) h =
    update-IsDurable a now uuid data' s d whole id stamp h
perform-IsDurable (call_remove a now uuid) s d (whole, id, stamp) h =
    remove-IsDurable a now uuid s d whole id stamp h
perform-IsDurable (call_snapshot a b now time id) s d (whole, whole', ok_id, stamp, fits) h =
    create_snapshot-IsDurable a b now id time s d whole whole' ok_id stamp fits h

pub Reach-IsDurable :
    {s : Storage} {d : Disk} {t : Storage} {e : Disk}
    → Reach s d t e
    → IsDurable s d
    → IsDurable t e
Reach-IsDurable here h = h
Reach-IsDurable (next {s'} {d'} r c sound) h = perform-IsDurable c s' d' sound (Reach-IsDurable r h)

-- After any sequence of insertions, updates, removals and snapshots from a state in which memory
-- and disk agree, whether they succeed or fail, a new manager over the same files returns for
-- every identifier what the running one would return. Conditions: no write of the calls is
-- partial, their renames and directory synchronisations succeed, identifiers and clock texts have
-- no separator or newline and are not empty, snapshotted stores fit in 32-bit counts, and the
-- files are readable at the start.
pub restart_after_calls :
    (s t r : Storage) (d e : Disk) (l : LoadAnswers) (now uuid : Bytes)
    → Reach s d t e
    → IsDurable s d
    → AllReadable l
    → IsFresh r
    → r.journal.path ≡ t.journal.path
    → r.snapshot_path ≡ t.snapshot_path
    → get uuid (load_from_disk l now r e) ≡ get uuid t
unfolding get
restart_after_calls s t r d e l now uuid reach h readable new same_journal same_snapshot =
    load_from_disk_recovers l now r e t.data_store readable new
      (rw (same_journal, same_snapshot) (Reach-IsDurable reach h)) uuid

-- The files of a manager whose journal has just been created, in a directory that holds no snapshot.
pub IsDurable-created :
    (dir : FilePath) (time : ℕ) (d : Disk)
    → d.node dir ≡ some directory
    → d.node (
        (fresh dir
          (record { path = Storage.journal_file_name ∷ dir; last_checkpoint_id = none })
          time).journal.path)
      ≡ some (regular journal_header)
    → d.node (Storage.snapshot_file_name ∷ dir) ≡ none
    → IsDurable
        (fresh dir
          (record { path = Storage.journal_file_name ∷ dir; last_checkpoint_id = none })
          time)
        d
unfolding fresh
IsDurable-created dir time d there journal missing = record {
  old = [];
  tail = [];
  plain = tt;
  named = tt;
  ops_only = tt;
  journal_dir = there;
  snapshot_dir = there;
  distinct = λ e. cc;
  text = unfold entries_text in journal;
  held = λ k. unfold run_entries in refl;
  snapshot = rw missing tt;
}
