-- ===== src/Storage/Overtaken.antt =====
-- Calls that come between the copying of the data in `createSnapshot` and its checkpoint.
use octet.Prelude.{
  ℕ, ◌≡◌, sym, ap, ◌∙◌, Bool, true, none, some, List, [], ◌∷◌, ◌++◌, arith, ◌==◌, nat_eq, list_eq,
  beq_refl, beq_ne, if◌then◌else◌, Bytes, All-append,
}
use octet.Disk.{FilePath, regular, Disk, Answers}
use octet.Files.{atomic_file_write}
use octet.Files.Append.{IsAllOrNothing}
use octet.Files.Replace.{atomic_file_write-Safe}
use octet.Files.Effects.{atomic_file_write_elsewhere, atomic_file_write_keeps_directory}
use octet.Map.{find}
use octet.Entry
use octet.Entry.{JournalEntry, IsPlain, journal_entry}
use octet.Journal.{Store, Journal, write_operation, write_checkpoint, note_checkpoint}
use octet.Journal.Text.{journal_text, run_entries, run_entries-append}
use octet.Journal.Checkpoints.{after_checkpoint, replay_of, from_checkpoint}
use octet.Journal.Recovery.{newest}
use octet.Journal.Writing.{new_entry, write_operation_node}
use octet.Snapshot.{serialize_map, deserialize_map-serialize_map, Fits}
use octet.Storage.{
  Storage, finish_snapshot, write_snapshot_to_disk, LoadAnswers, load_from_disk, get,
}
use octet.Storage.Logged.{IsNamed}
use octet.Storage.Durable.{IsId, IsStamp, IsDurable, new_entry-IsPlain, new_entry-IsNamed}
use octet.Storage.Recovery.{AllReadable, IsFresh, load_with_snapshot}

abbrev checkpoint_entry : Bytes → Bytes → JournalEntry
checkpoint_entry now id = new_entry now Entry.checkpoint id []

after_new_checkpoint :
    (now id : Bytes) (es : List JournalEntry)
    → after_checkpoint id es ≡ none
    → after_checkpoint id (es ++ checkpoint_entry now id ∷ []) ≡ some []
unfolding after_checkpoint journal_entry
after_new_checkpoint now id [] new = rw (beq_refl id)
after_new_checkpoint now id (e ∷ es) new = ground (arith, after_new_checkpoint now id es)

newest_last :
    (now id : Bytes) (es : List JournalEntry)
    → newest (es ++ checkpoint_entry now id ∷ []) ≡ some id
unfolding run_entries note_checkpoint journal_entry
newest_last now id es = run_entries-append note_checkpoint es (checkpoint_entry now id ∷ []) none

-- Behind a checkpoint at the end nothing is replayed.
replay_nothing :
    (now id : Bytes) (es : List JournalEntry) (back : Store)
    → after_checkpoint id es ≡ none
    → let es' = es ++ checkpoint_entry now id ∷ [] in (replay_of (newest es') es' back).1 ≡ back
unfolding run_entries
replay_nothing now id es back new =
    let es' = es ++ checkpoint_entry now id ∷ [] in
    ap (λ o. (replay_of o es' back).1) (newest_last now id es)
    ∙ ap (λ o. (from_checkpoint es' back o).1) (after_new_checkpoint now id es new)

module _ (a b : Answers) (now id : Bytes) (time : ℕ) (data_copy : Store) (s : Storage) (d : Disk)
    (whole : IsAllOrNothing a) (whole' : IsAllOrNothing b) (ok_id : IsId id) (stamp : IsStamp now)
    (fits : Fits data_copy) (h : IsDurable s d) where
  abbrev es : List JournalEntry
  es = h.old ++ h.tail

  -- The disk after the attempt to replace the snapshot, and after the checkpoint.
  abbrev replaced : Bool × Disk
  replaced = atomic_file_write a s.snapshot_path (serialize_map data_copy) d

  abbrev checkpointed : Bool × Journal × Disk
  checkpointed = write_operation b now Entry.checkpoint id [] s.journal replaced.1

  text_kept : replaced.1.node s.journal.path ≡ some (regular (journal_text es))
  text_kept =
      atomic_file_write_elsewhere a s.snapshot_path (serialize_map data_copy) d h.snapshot_dir whole
        s.journal.path (rw h.text) (λ e. h.distinct (sym e))
      ∙ h.text

  checkpoint_node :
      (q : FilePath)
      → checkpointed.2.node q ≡ (
          if s.journal.path == q
          then some (
              regular
                (journal_text (if checkpointed.0 then es ++ checkpoint_entry now id ∷ [] else es)))
          else replaced.1.node q)
  checkpoint_node =
      write_operation_node b now Entry.checkpoint id [] s.journal replaced.1 es
        (atomic_file_write_keeps_directory a s.snapshot_path _ (serialize_map data_copy) d
          h.snapshot_dir whole h.journal_dir)
        text_kept whole' ok_id.some

  text_after :
      checkpointed.0 ≡ true
      → checkpointed.2.node s.journal.path
        ≡ some (regular (journal_text (es ++ checkpoint_entry now id ∷ [])))
  text_after done = checkpoint_node s.journal.path ∙ rw (beq_refl s.journal.path) (rw done)

  snapshot_after :
      replaced.0 ≡ true
      → checkpointed.2.node s.snapshot_path ≡ some (regular (serialize_map data_copy))
  snapshot_after saved =
      checkpoint_node s.snapshot_path
      ∙ rw (beq_ne s.journal.path s.snapshot_path h.distinct) (
          (atomic_file_write-Safe a s.snapshot_path (serialize_map data_copy) d h.snapshot_dir).0
            saved)

  abbrev finished : Bool × Storage × Disk
  finished = finish_snapshot a b now time id data_copy s d

  finished_facts :
      finished.0 ≡ true
      → (replaced.0 ≡ true) × (checkpointed.0 ≡ true) × (finished.2 ≡ checkpointed.2)
  unfolding finish_snapshot write_snapshot_to_disk write_checkpoint
  finished_facts done = ground (arith, done)

  memory_kept : finished.1.data_store ≡ s.data_store
  unfolding finish_snapshot write_snapshot_to_disk write_checkpoint
  memory_kept = ground arith

  -- When `createSnapshot` has copied the data and then finishes with success, whatever calls have
  -- changed memory and journal since the copying, the manager goes on with what they have made,
  -- and a new manager over the files finds the copy alone: what the calls have logged between is
  -- lost. Conditions: the calls have left memory and disk in agreement; no write of the snapshot
  -- and its checkpoint is partial, renames and directory synchronisations succeed, the snapshot's
  -- identifier is new to the journal and it and the clock's text can stand there, the copy fits in
  -- 32-bit counts, and the files are readable at the start of the new manager.
  pub finish_snapshot-restores_copy :
      (l : LoadAnswers) (now' : Bytes) (r : Storage)
      → AllReadable l
      → IsFresh r
      → r.journal.path ≡ s.journal.path
      → r.snapshot_path ≡ s.snapshot_path
      → after_checkpoint id es ≡ none
      → finished.0 ≡ true
      → (uuid : Bytes)
      → (get uuid finished.1 ≡ get uuid s)
        × (get uuid (load_from_disk l now' r finished.2) ≡ find uuid data_copy)
  unfolding get
  finish_snapshot-restores_copy l now' r readable fresh same_journal same_snapshot new done uuid =
      let (saved, noted, left) = finished_facts done in
      let (back, read, sees) = deserialize_map-serialize_map data_copy fits in
      let e = checkpoint_entry now id in
      let plain = new_entry-IsPlain now id [] Entry.checkpoint ok_id stamp in
      let named = new_entry-IsNamed now id [] Entry.checkpoint ok_id in
      (
        ap (find uuid) memory_kept,
        ap (λ x. find uuid (load_from_disk l now' r x).data_store) left
            ∙ ap (find uuid) (
                load_with_snapshot l now' r checkpointed.2 (es ++ e ∷ []) readable fresh.no_cache
                  (All-append IsPlain es (e ∷ []) h.plain (plain, tt))
                  (All-append IsNamed es (e ∷ []) h.named (named, tt))
                  (rw same_journal (text_after noted)) (serialize_map data_copy) back
                  (rw same_snapshot (snapshot_after saved)) read)
            ∙ ap (find uuid) (replay_nothing now id es back new)
            ∙ sees uuid,
      )
