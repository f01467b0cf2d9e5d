-- ===== src/Examples/Overtaken.antt =====
-- An example for a snapshot that calls have overtaken: a string that had been there when the data were
-- copied, and is no longer there.
use octet.Prelude.{◌≡◌, refl, true, none, [], ◌∷◌, arith, nat_eq, list_eq, list_beq}
use octet.Disk.{set_node}
use octet.Files
use octet.FileChecks
use octet.Journal
use octet.Journal.Text.{entries_text, run_entries}
use octet.Journal.Checkpoints.{after_checkpoint}
use octet.Journal.{Store}
use octet.Map.{find}
use octet.Snapshot.{Fits}
use octet.Storage.{fresh, finish_snapshot, get, load_from_disk}
use octet.Storage.Durable.{IsDurable}
use octet.Storage.Overtaken.{finish_snapshot-restores_copy}
use octet.Uuid.{generate_uuid, set_width}
use octet.Examples.{
  new_disk, new_storage, new_storage-IsDurable, well, stamp, uuid, text, well-IsAllOrNothing,
  uuid-IsId, stamp-IsStamp, readable_answers,
}
use octet.Examples.Durability.{readable, new_storage-IsFresh}

abbrev data_copy : Store
data_copy = (uuid, text) ∷ []

data_copy-Fits : Fits data_copy
unfolding generate_uuid set_width
data_copy-Fits = record { count = omega arith; pairs = ((omega arith, omega arith), tt) }

unfoldable h : IsDurable new_storage new_disk
unfolding set_node list_beq fresh entries_text run_entries
h = record {
  old = [];
  tail = [];
  plain = tt;
  named = tt;
  ops_only = tt;
  journal_dir = refl;
  snapshot_dir = refl;
  distinct = new_storage-IsDurable.distinct;
  text = refl;
  held = λ k. refl;
  snapshot = tt;
}

saved : (finish_snapshot well well stamp 5 uuid data_copy new_storage new_disk).0 ≡ true
unfolding finish_snapshot Files.atomic_file_write set_node list_beq fresh
    FileChecks.get_temp_file_path Journal.write_checkpoint Journal.write_operation generate_uuid
    set_width Journal.do_write_operation Files.safe_file_append
saved = refl

no_checkpoint : after_checkpoint uuid [] ≡ none
unfolding after_checkpoint
no_checkpoint = refl

finish_snapshot-restores_copy_example :
    let done = finish_snapshot well well stamp 5 uuid data_copy new_storage new_disk in
    (get uuid (done.1) ≡ get uuid new_storage)
    × (get uuid (load_from_disk readable_answers stamp new_storage (done.2)) ≡ find uuid data_copy)
unfolding h
finish_snapshot-restores_copy_example =
    finish_snapshot-restores_copy well well stamp uuid 5 data_copy new_storage new_disk
      well-IsAllOrNothing well-IsAllOrNothing uuid-IsId stamp-IsStamp data_copy-Fits h
      readable_answers stamp new_storage readable new_storage-IsFresh refl refl no_checkpoint saved
      uuid
