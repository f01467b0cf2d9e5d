-- ===== src/Storage/Snapshots.antt =====
-- `createSnapshot` keeps memory and disk in step: the snapshot may be there without its checkpoint,
-- but never the other way round.
use octet.Prelude.{
  ℕ, ◌≡◌, refl, sym, ap, ◌∙◌, ◌≢◌, inl, inr, Bool, true, false, Option, none, some, List, [], ◌∷◌,
  ◌++◌, append-nil, nat_eq, list_eq, Bool-cases, Bytes, All-append,
}
use octet.Disk.{FilePath, Node, directory, regular, Disk, Answers}
use octet.Files.{atomic_file_write}
use octet.Files.Append.{IsAllOrNothing}
use octet.Files.Replace.{atomic_file_write-Safe}
use octet.Files.Effects.{
  atomic_file_write_elsewhere, atomic_file_write_failed, atomic_file_write_keeps_directory,
}
use octet.Map.{find}
use octet.Entry
use octet.Entry.{JournalEntry, IsPlain, journal_entry}
use octet.Journal.{Store, Journal, apply_operation, write_operation, write_checkpoint}
use octet.Journal.Text.{journal_text}
use octet.Journal.Writing.{new_entry, write_operation_node, write_operation_path}
use octet.Snapshot.{serialize_map, Fits}
use octet.Storage.{Storage, create_snapshot, finish_snapshot, write_snapshot_to_disk}
use octet.Storage.Logged.{
  IsLogged, IsLogged-same, IsNamed, IsSnapshotOf, DiffersAt, apply_one_more, differs_here,
  differs_not_there, file-ne-directory,
}
use octet.Storage.Durable.{IsId, IsStamp, IsDurable, new_entry-IsPlain, new_entry-IsNamed}

module _ (a : Answers) (store : Store) (jp sp : FilePath) (d : Disk) (whole : IsAllOrNothing a)
    (fits : Fits store) (h : IsLogged store jp sp d) where
  -- The disk after the attempt to replace the snapshot.
  abbrev replaced : Bool × Disk
  replaced = atomic_file_write a sp (serialize_map store) d

  keeps_journal : replaced.1.node jp ≡ d.node jp
  keeps_journal =
      atomic_file_write_elsewhere a sp (serialize_map store) d h.snapshot_dir whole jp (rw h.text)
        (λ e. h.distinct (sym e))

  keeps_directory : (q : FilePath) → d.node q ≡ some directory → replaced.1.node q ≡ some directory
  keeps_directory q =
      atomic_file_write_keeps_directory a sp q (serialize_map store) d h.snapshot_dir whole

  -- A new snapshot covers every entry.
  pub replaced-IsLogged : replaced.0 ≡ true → (k : IsLogged store jp sp replaced.1) × (k.tail ≡ [])
  replaced-IsLogged saved = (
    record {
      old = h.old ++ h.tail;
      tail = [];
      plain = rw (append-nil (h.old ++ h.tail)) h.plain;
      named = rw (append-nil (h.old ++ h.tail)) h.named;
      ops_only = tt;
      journal_dir = keeps_directory _ h.journal_dir;
      snapshot_dir = keeps_directory _ h.snapshot_dir;
      distinct = h.distinct;
      text = rw (append-nil (h.old ++ h.tail)) (keeps_journal ∙ h.text);
      held = rw (append-nil (h.old ++ h.tail)) h.held;
      snapshot =
          rw ((atomic_file_write-Safe a sp (serialize_map store) d h.snapshot_dir).0 saved)
            (store, refl, fits, h.held);
    },
    refl,
  )

  -- A failed attempt changes nothing that matters.
  pub not_replaced-IsLogged : replaced.0 ≡ false → IsLogged store jp sp replaced.1
  not_replaced-IsLogged failed = record {
    old = h.old;
    tail = h.tail;
    plain = h.plain;
    named = h.named;
    ops_only = h.ops_only;
    journal_dir = keeps_directory _ h.journal_dir;
    snapshot_dir = keeps_directory _ h.snapshot_dir;
    distinct = h.distinct;
    text = keeps_journal ∙ h.text;
    held = h.held;
    snapshot =
        rw (atomic_file_write_failed a sp (serialize_map store) d h.snapshot_dir whole failed)
          h.snapshot;
  }

-- An entry that applies nothing extends what a snapshot covers.
IsSnapshotOf-inert :
    (old : List JournalEntry) (e : JournalEntry) (n : Option Node)
    → ((s : Store) → (apply_operation e s).1 ≡ s)
    → IsSnapshotOf old n
    → IsSnapshotOf (old ++ e ∷ []) n
IsSnapshotOf-inert old e none inert h = tt
IsSnapshotOf-inert old e (some directory) inert h = tt
IsSnapshotOf-inert old e (some (regular bytes)) inert (saved, same, fits, held) = (
  saved,
  same,
  fits,
  apply_one_more old e saved saved held (λ k. ap (find k) (sym (inert saved))),
)

-- A checkpoint behind a snapshot that covers everything.
module _ (store : Store) (jp sp : FilePath) (d d' : Disk) (e : JournalEntry)
    (h : IsLogged store jp sp d) (covered : h.tail ≡ []) (plain : IsPlain e) (named : IsNamed e)
    (only : DiffersAt jp (journal_text ((h.old ++ h.tail) ++ e ∷ [])) d d')
    (inert : (s : Store) → (apply_operation e s).1 ≡ s) where
  elsewhere : (q : FilePath) → jp ≢ q → d'.node q ≡ d.node q
  elsewhere = differs_not_there jp _ d d' only

  same_dir : (q : FilePath) → d.node q ≡ some directory → d'.node q ≡ some directory
  same_dir q hq = elsewhere q (file-ne-directory d jp q _ h.text hq) ∙ hq

  all_old : h.old ++ h.tail ≡ h.old
  all_old = rw covered (append-nil h.old)

  checkpoint-IsLogged : IsLogged store jp sp d'
  checkpoint-IsLogged =
      let es = (h.old ++ h.tail) ++ e ∷ [] in
      record {
        old = es;
        tail = [];
        plain =
            rw (append-nil es) (All-append IsPlain (h.old ++ h.tail) (e ∷ []) h.plain (plain, tt));
        named =
            rw (append-nil es) (All-append IsNamed (h.old ++ h.tail) (e ∷ []) h.named (named, tt));
        ops_only = tt;
        journal_dir = same_dir _ h.journal_dir;
        snapshot_dir = same_dir _ h.snapshot_dir;
        distinct = h.distinct;
        text = rw (append-nil es) (differs_here jp _ d d' only);
        held = rw (append-nil es) (
            apply_one_more (h.old ++ h.tail) e store store h.held
              (λ k. ap (find k) (sym (inert store))));
        snapshot =
            rw (elsewhere sp h.distinct, all_old)
              (IsSnapshotOf-inert h.old e (d.node sp) inert h.snapshot);
      }

checkpoint_inert :
    (now id data' : Bytes) (s : Store)
    → (apply_operation (new_entry now Entry.checkpoint id data') s).1 ≡ s
unfolding apply_operation journal_entry
checkpoint_inert now id data' s = refl

module _ (b : Answers) (now id : Bytes) (store : Store) (j : Journal) (sp : FilePath) (d : Disk)
    (whole : IsAllOrNothing b) (ok_id : IsId id) (stamp : IsStamp now)
    (h : IsLogged store j.path sp d) (covered : h.tail ≡ []) where
  -- The checkpoint is written, or it is not.
  write_checkpoint-IsLogged : IsLogged store j.path sp (write_checkpoint b now id j d).2
  unfolding write_checkpoint
  write_checkpoint-IsLogged =
      let node =
        write_operation_node b now Entry.checkpoint id [] j d (h.old ++ h.tail) h.journal_dir h.text
          whole ok_id.some in
      elim (Bool-cases (write_operation b now Entry.checkpoint id [] j d).0) [
        | inl ok ↦
            checkpoint-IsLogged store j.path sp d
              (write_operation b now Entry.checkpoint id [] j d).2
              (new_entry now Entry.checkpoint id []) h covered
              (new_entry-IsPlain now id [] Entry.checkpoint ok_id stamp)
              (new_entry-IsNamed now id [] Entry.checkpoint ok_id) (λ q. rw ok at (node q))
              (checkpoint_inert now id [])
        | inr bad ↦ IsLogged-same store j.path sp d _ h (λ q. rw bad at (node q))
      ]

  write_checkpoint-path : (write_checkpoint b now id j d).1.path ≡ j.path
  unfolding write_checkpoint
  write_checkpoint-path =
      write_operation_path b now Entry.checkpoint id [] j d (h.old ++ h.tail) h.journal_dir h.text
        whole ok_id.some

module _ (a b : Answers) (now id : Bytes) (time : ℕ) (s : Storage) (d : Disk)
    (whole : IsAllOrNothing a) (whole' : IsAllOrNothing b) (ok_id : IsId id) (stamp : IsStamp now)
    (fits : Fits s.data_store) (h : IsDurable s d) where
  abbrev after_save : Disk
  after_save = (write_snapshot_to_disk a s.data_store s d).1

  checkpointed :
      (k : IsLogged s.data_store s.journal.path s.snapshot_path after_save)
      → k.tail ≡ []
      → IsLogged s.data_store
          (write_checkpoint b now id s.journal after_save).1.path
          s.snapshot_path
          (write_checkpoint b now id s.journal after_save).2
  checkpointed k covered =
      rw
        (write_checkpoint-path b now id s.data_store s.journal s.snapshot_path after_save whole'
          ok_id stamp k covered)
        (write_checkpoint-IsLogged b now id s.data_store s.journal s.snapshot_path after_save whole'
          ok_id stamp k covered)

  after_saving :
      (write_snapshot_to_disk a s.data_store s d).0 ≡ true
      → (k : IsLogged s.data_store s.journal.path s.snapshot_path after_save) × (k.tail ≡ [])
  unfolding write_snapshot_to_disk
  after_saving saved =
      replaced-IsLogged a s.data_store s.journal.path s.snapshot_path d whole fits h saved

  -- Whether both files, one or none can be written, memory and disk agree after `createSnapshot`
  -- if they agreed before it. Conditions: no write is partial, renames and directory
  -- synchronisations succeed, the snapshot's identifier and the clock's text can stand in the
  -- journal, and the store's counts fit in 32 bits.
  pub create_snapshot-IsDurable :
      IsDurable (create_snapshot a b now time id s d).1 (create_snapshot a b now time id s d).2
  unfolding create_snapshot finish_snapshot
  create_snapshot-IsDurable = elim (Bool-cases (write_snapshot_to_disk a s.data_store s d).0) [
    | inl saved ↦
        let (k, covered) = after_saving saved in
        elim (Bool-cases (write_checkpoint b now id s.journal after_save).0) [
          | inl done ↦ rw saved (rw done (checkpointed k covered))
          | inr bad ↦ rw saved (rw bad (checkpointed k covered))
        ]
    | inr failed ↦ rw failed (
        unfold write_snapshot_to_disk in
        not_replaced-IsLogged a s.data_store s.journal.path s.snapshot_path d whole fits h failed)
  ]
