-- ===== src/Storage/Lives.antt =====
-- The constructor over the files that another manager has left.
use octet.Prelude.{
  ℕ, ◌≡◌, refl, sym, ap, ◌∙◌, inl, inr, Bool, true, false, Option, none, some, ◌∷◌, ◌++◌, arith,
  nat_eq, list_eq, Bool-cases, Bytes,
}
use octet.Disk.{FilePath, Disk, Answers, directory}
use octet.Files.{safe_file_read}
use octet.FileChecks.{is_file_readable, ensure_directory_exists}
use octet.Files.Effects.{IsReadable}
use octet.Map.{SameMap}
use octet.Snapshot.{deserialize_map}
use octet.Journal.{Store, Journal, get_last_checkpoint_id, or_search}
use octet.Journal.Opening.{open_journal-journal_text}
use octet.Storage.{
  Storage, LoadAnswers, load_from_disk, load_start, load_rest, load_snapshot, loaded,
  checkpoint_to_start_from, restore_from_journal, fresh, get, journal_file_name, snapshot_file_name,
}
use octet.Storage.Paths.{SameFiles}
use octet.Storage.Logged.{IsLogged}
use octet.Storage.Durable.{IsDurable}
use octet.Storage.Recovery.{AllReadable, load_from_disk_recovers}
use octet.Storage.Lifecycle.{construct, construct_over}

loaded-SameFiles : (o : Option Store) (s : Storage) → SameFiles (loaded o s).1 s
unfolding loaded
loaded-SameFiles none s = (refl, refl)
loaded-SameFiles (some store) s = (refl, refl)

load_snapshot-SameFiles :
    (a : Answers) (s : Storage) (d : Disk) → SameFiles (load_snapshot a s d).1 s
unfolding load_snapshot
load_snapshot-SameFiles a s d =
    elim (safe_file_read a s.snapshot_path d)
      as (λ o.
        SameFiles
          (elim o as (λ x. Bool × Storage) [
            | none ↦ (false, s)
            | some content ↦ loaded (deserialize_map content) s
          ]).1
          s) [ none ↦ (refl, refl) | some content ↦ loaded-SameFiles (deserialize_map content) s ]

or_search-path :
    (a : Answers) (now : Bytes) (j : Journal) (d : Disk) (o : Option Bytes)
    → (or_search a now j d o).1.path ≡ j.path
or_search-path a now j d (some cached) = refl
or_search-path a now j d none = ground arith

load_start-SameFiles : (l : LoadAnswers) (s : Storage) (d : Disk) → SameFiles (load_start l s d).1 s
unfolding load_start
load_start-SameFiles l s d = elim (Bool-cases (is_file_readable l.check s.snapshot_path d)) [
  | inl readable ↦ simp readable (load_snapshot-SameFiles l.snapshot s d)
  | inr unreadable ↦ simp unreadable (refl, refl)
]

load_rest-SameFiles :
    (l : LoadAnswers) (now : Bytes) (b : Bool) (s : Storage) (d : Disk)
    → SameFiles (load_rest l now (b, s) d) s
unfolding load_rest checkpoint_to_start_from restore_from_journal get_last_checkpoint_id
load_rest-SameFiles l now true s d =
    (or_search-path l.last now s.journal d s.journal.last_checkpoint_id, refl)
load_rest-SameFiles l now false s d = (refl, refl)

ensure_directory_exists-there :
    (a : Answers) (dir : FilePath) (d : Disk)
    → IsReadable a
    → d.node dir ≡ some directory
    → ensure_directory_exists a dir true d ≡ (true, d)
unfolding ensure_directory_exists
ensure_directory_exists-there a dir d h there = simp (h.locks, h.status_ec, there) refl

load_from_disk-SameFiles :
    (l : LoadAnswers) (now : Bytes) (s : Storage) (d : Disk)
    → SameFiles (load_from_disk l now s d) s
unfolding load_from_disk
load_from_disk-SameFiles l now s d =
    let (start_journal, start_snapshot) = load_start-SameFiles l s d in
    let (journal, snapshot) =
      load_rest-SameFiles l now ((load_start l s d).0) ((load_start l s d).1) d in
    (journal ∙ start_journal, snapshot ∙ start_snapshot)

-- Another map with the same values, and another manager of the same files.
IsDurable-same :
    (s t : Storage) (d : Disk)
    → IsDurable s d
    → SameFiles t s
    → SameMap t.data_store s.data_store
    → IsDurable t d
IsDurable-same s t d h (same_journal, same_snapshot) same =
    rw (same_journal, same_snapshot)
      (record {
        old = h.old;
        tail = h.tail;
        plain = h.plain;
        named = h.named;
        ops_only = h.ops_only;
        journal_dir = h.journal_dir;
        snapshot_dir = h.snapshot_dir;
        distinct = h.distinct;
        text = h.text;
        held = λ k. same k ∙ h.held k;
        snapshot = h.snapshot;
      })

construct_over-there :
    (b : Answers) (l : LoadAnswers) (now : Bytes) (time : ℕ) (data_dir : FilePath)
    (journal : Journal) (d : Disk)
    → IsReadable b
    → d.node data_dir ≡ some directory
    → construct_over (some (journal, d)) b l now time data_dir
      ≡ some (load_from_disk l now (fresh data_dir journal time) d, d)
unfolding construct_over
construct_over-there b l now time data_dir journal d hb there =
    simp (ensure_directory_exists-there b data_dir d hb there) refl

-- A manager whose files stand in a data directory under their names.
abbrev pub IsIn : FilePath → Storage → Type 0
IsIn data_dir s =
    (s.journal.path ≡ journal_file_name ∷ data_dir)
    × (s.snapshot_path ≡ snapshot_file_name ∷ data_dir)

-- The manager that the constructor makes over a journal that is there.
abbrev pub started : LoadAnswers → Bytes → ℕ → FilePath → Disk → Storage
started l now time data_dir d =
    load_from_disk l now
      (fresh data_dir (record { path = journal_file_name ∷ data_dir; last_checkpoint_id = none })
        time)
      d

module _ (l : LoadAnswers) (now : Bytes) (time : ℕ) (data_dir : FilePath) (s : Storage) (d : Disk)
    (place : IsIn data_dir s) (h : IsDurable s d) where
  moved : IsLogged s.data_store (journal_file_name ∷ data_dir) (snapshot_file_name ∷ data_dir) d
  moved = simp (sym place.0, sym place.1) h

  pub construct-started :
      (a b : Answers)
      → IsReadable a
      → IsReadable b
      → construct a b l now time data_dir d ≡ some (started l now time data_dir d, d)
  unfolding construct
  construct-started a b ha hb =
      ap (λ o. construct_over o b l now time data_dir)
        (open_journal-journal_text a now (journal_file_name ∷ data_dir) (moved.old ++ moved.tail) d
          ha moved.plain moved.text moved.journal_dir)
      ∙ construct_over-there b l now time data_dir _ d hb moved.journal_dir

  pub started-IsDurable :
      AllReadable l
      → IsDurable (started l now time data_dir d) d
        × IsIn data_dir (started l now time data_dir d)
        × ((uuid : Bytes) → get uuid (started l now time data_dir d) ≡ get uuid s)
  unfolding fresh get
  started-IsDurable hl =
      let new_journal : Journal = record {
        path = journal_file_name ∷ data_dir;
        last_checkpoint_id = none;
      } in
      let new = fresh data_dir new_journal time in
      let (same_journal, same_snapshot) = load_from_disk-SameFiles l now new d in
      let back : SameMap (started l now time data_dir d).data_store s.data_store =
        load_from_disk_recovers l now new d s.data_store hl
          (record { empty = refl; no_cache = refl }) moved in
      (
        IsDurable-same s (started l now time data_dir d) d h
            (same_journal ∙ sym place.0, same_snapshot ∙ sym place.1) back,
        (same_journal, same_snapshot),
        back,
      )

-- The constructor over the files of a manager, whose memory and disk agree and whose files stand
-- in the data directory under their names, throws nothing, changes no file, and gives a manager
-- that returns for every identifier what the other one returned, in the same files and with memory
-- and disk in agreement, if the system lets all files and directories be read.
pub construct-restores :
    (a b : Answers) (l : LoadAnswers) (now : Bytes) (time : ℕ) (data_dir : FilePath) (s : Storage)
    (d : Disk)
    → IsReadable a
    → IsReadable b
    → AllReadable l
    → IsIn data_dir s
    → IsDurable s d
    → (t : Storage) × (construct a b l now time data_dir d ≡ some (t, d))
      × IsDurable t d
      × IsIn data_dir t
      × ((uuid : Bytes) → get uuid t ≡ get uuid s)
construct-restores a b l now time data_dir s d ha hb hl place h =
    let (durable, same_place, back) = started-IsDurable l now time data_dir s d place h hl in
    (
      started l now time data_dir d,
      construct-started l now time data_dir s d place h a b ha hb,
      durable,
      same_place,
      back,
    )
