-- ===== src/Examples/Durability.antt =====
-- Examples for the storage and the recovery.
use octet.Prelude.{
  ◌≡◌, refl, sym, ◌⊎◌, true, false, none, some, arith, nat_eq, list_eq, has_value, Bytes,
}
use octet.Disk.{Disk}
use octet.Snapshot.{Fits}
use octet.Storage.{Storage, insert, update, remove, create_snapshot, get, load_from_disk, fresh}
use octet.Storage.Durable.{IsDurable, insert-IsDurable}
use octet.Storage.Snapshots.{create_snapshot-IsDurable}
use octet.Storage.Recovery.{AllReadable, IsFresh}
use octet.Storage.Runs.{call_insert, perform, Reach, here, next, restart_after_calls}
use octet.Storage.Contract.{view, put, delete, insert-refines, update-refines, remove-refines}
use octet.Storage.Paths.{insert-SameFiles}
use octet.Storage.Lifecycle.{Round, IsSoundRound}
use octet.Storage.Lifecycle.{construct}
use octet.Storage.Lives.{IsIn, construct-restores}
use octet.Examples.{
  data_dir, new_disk, new_storage, well, stamp, uuid, text, well-IsAllOrNothing, well-IsReadable,
  uuid-IsId, stamp-IsStamp, new_storage-IsDurable, readable_answers,
}

abbrev filled : Storage
filled = (insert well stamp uuid text new_storage new_disk).1

abbrev filled_disk : Disk
filled_disk = (insert well stamp uuid text new_storage new_disk).2

filled-IsDurable : IsDurable filled filled_disk
filled-IsDurable =
    insert-IsDurable well stamp uuid text new_storage new_disk well-IsAllOrNothing uuid-IsId
      stamp-IsStamp new_storage-IsDurable

pub readable : AllReadable readable_answers
readable = record {
  check = well-IsReadable;
  snapshot = well-IsReadable;
  last = well-IsReadable;
  replay = well-IsReadable;
}

pub new_storage-IsFresh : IsFresh new_storage
unfolding fresh
new_storage-IsFresh = record { empty = refl; no_cache = refl }

Reach-filled :
    Reach new_storage new_disk
      (perform (call_insert well stamp uuid text) (new_storage, new_disk)).0
      (perform (call_insert well stamp uuid text) (new_storage, new_disk)).1
Reach-filled =
    next here (call_insert well stamp uuid text) (well-IsAllOrNothing, uuid-IsId, stamp-IsStamp)

same_journal :
    new_storage.journal.path
    ≡ (perform (call_insert well stamp uuid text) (new_storage, new_disk)).0.journal.path
unfolding perform
same_journal = sym (insert-SameFiles well stamp uuid text new_storage new_disk).0

same_snapshot :
    new_storage.snapshot_path
    ≡ (perform (call_insert well stamp uuid text) (new_storage, new_disk)).0.snapshot_path
unfolding perform
same_snapshot = sym (insert-SameFiles well stamp uuid text new_storage new_disk).1

restart_after_calls_example :
    get uuid (
      load_from_disk readable_answers stamp new_storage
        (perform (call_insert well stamp uuid text) (new_storage, new_disk)).1)
    ≡ get uuid (perform (call_insert well stamp uuid text) (new_storage, new_disk)).0
restart_after_calls_example =
    restart_after_calls new_storage
      (perform (call_insert well stamp uuid text) (new_storage, new_disk)).0 new_storage new_disk
      (perform (call_insert well stamp uuid text) (new_storage, new_disk)).1 readable_answers stamp
      uuid Reach-filled new_storage-IsDurable readable new_storage-IsFresh same_journal
      same_snapshot

new_storage-IsIn : IsIn data_dir new_storage
unfolding fresh
new_storage-IsIn = (refl, refl)

construct-restores_example :
    (t : Storage) × (construct well well readable_answers stamp 5 data_dir new_disk
      ≡ some (t, new_disk))
    × IsDurable t new_disk
    × IsIn data_dir t
    × ((uuid : Bytes) → get uuid t ≡ get uuid new_storage)
construct-restores_example =
    construct-restores well well readable_answers stamp 5 data_dir new_storage new_disk
      well-IsReadable well-IsReadable readable new_storage-IsIn new_storage-IsDurable

new_storage-Fits : Fits new_storage.data_store
unfolding fresh
new_storage-Fits = record { count = omega arith; pairs = tt }

create_snapshot-IsDurable_example :
    IsDurable
      (create_snapshot well well stamp 5 uuid new_storage new_disk).1
      (create_snapshot well well stamp 5 uuid new_storage new_disk).2
create_snapshot-IsDurable_example =
    create_snapshot-IsDurable well well stamp uuid 5 new_storage new_disk well-IsAllOrNothing
      well-IsAllOrNothing uuid-IsId stamp-IsStamp new_storage-Fits new_storage-IsDurable

insert-refines_example :
    ((insert well stamp uuid text new_storage new_disk).0 ≡ some uuid)
      × (view (insert well stamp uuid text new_storage new_disk).1
          ≡ put uuid text (view new_storage))
    ⊎ ((insert well stamp uuid text new_storage new_disk).0 ≡ none)
      × (view (insert well stamp uuid text new_storage new_disk).1 ≡ view new_storage)
insert-refines_example = insert-refines well stamp uuid text new_storage new_disk

update-refines_example :
    ((update well stamp uuid stamp filled filled_disk).0 ≡ true)
      × (has_value (view filled uuid) ≡ true)
      × (view (update well stamp uuid stamp filled filled_disk).1 ≡ put uuid stamp (view filled))
    ⊎ ((update well stamp uuid stamp filled filled_disk).0 ≡ false)
      × (view (update well stamp uuid stamp filled filled_disk).1 ≡ view filled)
update-refines_example = update-refines well stamp uuid stamp filled filled_disk

remove-refines_example :
    ((remove well stamp uuid filled filled_disk).0 ≡ true)
      × (has_value (view filled uuid) ≡ true)
      × (view (remove well stamp uuid filled filled_disk).1 ≡ delete uuid (view filled))
    ⊎ ((remove well stamp uuid filled filled_disk).0 ≡ false)
      × (view (remove well stamp uuid filled filled_disk).1 ≡ view filled)
remove-refines_example = remove-refines well stamp uuid filled filled_disk

abbrev round : Round
round = record {
  write_answers = well;
  journal_answers = well;
  woken_at = 600000000000;
  now = stamp;
  time = 600000000001;
  snapshot_id = uuid;
}

round-IsSound : IsSoundRound round new_storage
round-IsSound =
    (well-IsAllOrNothing, well-IsAllOrNothing, uuid-IsId, stamp-IsStamp, new_storage-Fits)
