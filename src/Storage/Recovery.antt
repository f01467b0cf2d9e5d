-- ===== src/Storage/Recovery.antt =====
-- `loadFromDisk` after a shutdown or a crash between two calls.
use octet.Prelude.{
  ◌≡◌, refl, sym, ap, ◌∙◌, inl, inr, true, false, ◌&&◌, not, Option, none, some, List, [], ◌∷◌,
  ◌++◌, arith, nat_eq, list_eq, Option-cases, Bytes, All,
}
use octet.Disk.{Node, directory, regular, Disk, exists, is_directory}
use octet.FileChecks.{is_file_readable}
use octet.Files.Effects.{IsReadable, safe_file_read_file}
use octet.Map.{SameMap, find}
use octet.Entry.{JournalEntry, IsPlain}
use octet.Journal.{Store, apply_operation, note_checkpoint, is_checkpoint, names_nothing}
use octet.Journal.Text.{journal_text, run_entries, run_entries-append}
use octet.Journal.Effects.{apply_all, apply_all-SameMap, replay_again}
use octet.Journal.Checkpoints.{replay_of}
use octet.Journal.Recovery.{
  newest, newest-append, newest_cut, after_checkpoint-append, replay_journal-replay_of,
  get_last_checkpoint_id-newest,
}
use octet.Snapshot.{deserialize_map, deserialize_map-serialize_map}
use octet.Storage.{
  Storage, LoadAnswers, load_start, load_rest, load_snapshot, loaded, restore_from_journal,
  checkpoint_to_start_from, load_from_disk,
}
use octet.Storage.Logged.{IsLogged, IsNamed, IsSnapshotOf}

-- Replaying from anywhere inside what the snapshot covers gives the state of the whole log.
replay_over_snapshot :
    (front rest tail : List JournalEntry) (back : Store)
    → SameMap back (apply_all (front ++ rest) [])
    → SameMap (apply_all (rest ++ tail) back) (apply_all ((front ++ rest) ++ tail) [])
replay_over_snapshot front rest tail back held k =
    ap (find k) (run_entries-append (λ e s. (apply_operation e s).1) rest tail back)
    ∙ apply_all-SameMap tail (apply_all rest back) (apply_all (front ++ rest) [])
        (λ j.
          apply_all-SameMap rest back (apply_all (front ++ rest) []) held j
          ∙ replay_again front rest [] j)
        k
    ∙ ap (find k)
        (sym (run_entries-append (λ e s. (apply_operation e s).1) (front ++ rest) tail []))

newest-named :
    (es : List JournalEntry) (last : Option Bytes)
    → All IsNamed es
    → names_nothing last ≡ false
    → names_nothing (run_entries note_checkpoint es last) ≡ false
unfolding run_entries note_checkpoint
newest-named [] last h named = named
newest-named (e ∷ es) last (he, hs) named =
    newest-named es (note_checkpoint e last) hs (ground arith)

-- A replay from the last checkpoint of the journal, over what the snapshot has.
replay_newest :
    (old tail : List JournalEntry) (back : Store)
    → All (λ e. is_checkpoint e.type ≡ false) tail
    → SameMap back (apply_all old [])
    → SameMap (replay_of (newest (old ++ tail)) (old ++ tail) back).1 (apply_all (old ++ tail) [])
replay_newest old tail back ops held = elim (Option-cases (newest old)) [
  | inl e ↦ rw (newest-append old tail ops, e) (replay_over_snapshot [] old tail back held)
  | inr (c, e) ↦ elim (newest_cut c old none e) [
    | inl never ↦ cc
    | inr (front, rest, found, cut) ↦
        rw (newest-append old tail ops, e)
          (rw (after_checkpoint-append c old tail rest found)
            (rw cut (replay_over_snapshot front rest tail back (rw cut at held))))
  ]
]

-- Every call that `loadFromDisk` makes can read.
pub record AllReadable (l : LoadAnswers) : Type 0 where
  pub check : IsReadable l.check
  pub snapshot : IsReadable l.snapshot
  pub last : IsReadable l.last
  pub replay : IsReadable l.replay

-- A manager that has just been constructed.
pub record IsFresh (r : Storage) : Type 0 where
  pub empty : r.data_store ≡ []
  pub no_cache : r.journal.last_checkpoint_id ≡ none

-- A snapshot and a journal that can be read.
module _ (l : LoadAnswers) (now : Bytes) (r : Storage) (d : Disk) (es : List JournalEntry)
    (readable : AllReadable l) (no_cache : r.journal.last_checkpoint_id ≡ none)
    (plain : All IsPlain es) (named : All IsNamed es)
    (text : d.node r.journal.path ≡ some (regular (journal_text es))) where
  -- The snapshot is there and is read.
  start_with_snapshot :
      (bytes : Bytes) (back : Store)
      → d.node r.snapshot_path ≡ some (regular bytes)
      → deserialize_map bytes ≡ some back
      → load_start l r d ≡ (true, record r { data_store = back })
  unfolding load_start load_snapshot loaded is_file_readable
  start_with_snapshot bytes back file read = ground (
    arith,
    safe_file_read_file l.snapshot r.snapshot_path bytes d readable.snapshot file,
    readable.check.status_ec,
    readable.check.open_in,
  )

  -- Then the replay begins behind the last checkpoint.
  rest_with_snapshot :
      (back : Store)
      → (load_rest l now (true, record r { data_store = back }) d).data_store
        ≡ (replay_of (newest es) es back).1
  unfolding load_rest checkpoint_to_start_from restore_from_journal
  rest_with_snapshot back =
      rw (get_last_checkpoint_id-newest l.last now r.journal d es readable.last plain text no_cache)
        (ap (λ p. p.1)
          (replay_journal-replay_of l.replay now (newest es) back
            (record r.journal { last_checkpoint_id = newest es }) d es readable.replay plain text
            (newest-named es none named refl)))

  pub load_with_snapshot :
      (bytes : Bytes) (back : Store)
      → d.node r.snapshot_path ≡ some (regular bytes)
      → deserialize_map bytes ≡ some back
      → (load_from_disk l now r d).data_store ≡ (replay_of (newest es) es back).1
  unfolding load_from_disk
  load_with_snapshot bytes back file read =
      ap (λ p. (load_rest l now p d).data_store) (start_with_snapshot bytes back file read)
      ∙ rest_with_snapshot back

module _ (l : LoadAnswers) (now : Bytes) (r : Storage) (d : Disk) (store : Store)
    (readable : AllReadable l) (fresh : IsFresh r)
    (h : IsLogged store r.journal.path r.snapshot_path d) where
  abbrev es : List JournalEntry
  es = h.old ++ h.tail

  -- With no snapshot the whole journal is replayed.
  rest_without_snapshot : SameMap (load_rest l now (false, r) d).data_store store
  unfolding load_rest checkpoint_to_start_from restore_from_journal
  rest_without_snapshot k = rw fresh.empty (
      ap (λ p. find k p.1)
        (replay_journal-replay_of l.replay now none [] r.journal d es readable.replay h.plain h.text
          refl)
      ∙ sym (h.held k))

  start_without_snapshot :
      (exists d r.snapshot_path && not (is_directory d r.snapshot_path)) ≡ false
      → load_start l r d ≡ (false, r)
  unfolding load_start is_file_readable
  start_without_snapshot u = ground arith

  by_snapshot :
      (n : Option Node)
      → d.node r.snapshot_path ≡ n
      → IsSnapshotOf h.old n
      → SameMap (load_from_disk l now r d).data_store store
  unfolding load_from_disk
  by_snapshot none e held k =
      ap (λ p. find k (load_rest l now p d).data_store) (start_without_snapshot (ground arith))
      ∙ rest_without_snapshot k
  by_snapshot (some directory) e held k =
      ap (λ p. find k (load_rest l now p d).data_store) (start_without_snapshot (ground arith))
      ∙ rest_without_snapshot k
  by_snapshot (some (regular bytes)) e (saved, same, fits, covers) k =
      let (back, read, sees) = deserialize_map-serialize_map saved fits in
      ap (find k) (
        load_with_snapshot l now r d es readable fresh.no_cache h.plain h.named h.text bytes back e
          (rw same read))
      ∙ replay_newest h.old h.tail back h.ops_only (λ j. sees j ∙ covers j) k
      ∙ sym (h.held k)

  -- A manager that is constructed over readable files which hold a snapshot, or none, and a
  -- journal as the invariant says has at every key what the logged store had.
  pub load_from_disk_recovers : SameMap (load_from_disk l now r d).data_store store
  load_from_disk_recovers = by_snapshot (d.node r.snapshot_path) refl h.snapshot
