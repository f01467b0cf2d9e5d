-- ===== src/Storage/Durable.antt =====
-- `insert`, `update` and `remove` keep memory and disk in step, when the answers of the system are
-- all or nothing.
use octet.Prelude.{
  ◌≡◌, refl, ap, ◌∙◌, ◌≢◌, inl, inr, Bool, true, false, [], ◌++◌, arith, ◌==◌, nat_eq, list_eq,
  list_beq, if◌then◌else◌, Bool-cases, Bytes, Lacks,
}
use octet.Escape.{field_separator, newline}
use octet.Disk.{Disk, Answers}
use octet.Files.Append.{IsAllOrNothing}
use octet.Map.{find, assign, erase, contains}
use octet.Entry
use octet.Entry.{OperationType, JournalEntry, IsPlain, journal_entry}
use octet.Journal.{
  Store, Journal, apply_operation, write_operation, is_checkpoint, write_insert, write_update,
  write_remove,
}
use octet.Journal.Writing.{new_entry, write_operation_node, write_operation_path}
use octet.Storage.{Storage, insert, update, remove}
use octet.Storage.Logged.{IsLogged, IsLogged-append, IsLogged-same, IsNamed}

-- An identifier as the generator makes them, and a text of the clock, as far as the journal needs.
pub record IsId (uuid : Bytes) : Type 0 where
  pub some : (uuid == []) ≡ false
  pub field : Lacks field_separator uuid
  pub line : Lacks newline uuid

pub record IsStamp (now : Bytes) : Type 0 where
  pub some : now ≢ []
  pub field : Lacks field_separator now
  pub line : Lacks newline now

abbrev pub IsDurable : Storage → Disk → Type 0
IsDurable s d = IsLogged s.data_store s.journal.path s.snapshot_path d

pub new_entry-IsPlain :
    (now uuid data' : Bytes) (op : OperationType)
    → IsId uuid
    → IsStamp now
    → IsPlain (new_entry now op uuid data')
unfolding journal_entry list_beq
new_entry-IsPlain now uuid data' op id stamp = record {
  uuid_field = id.field;
  uuid_line = id.line;
  stamp_field = stamp.field;
  stamp_line = stamp.line;
  stamp_some = stamp.some;
}

pub new_entry-IsNamed :
    (now uuid data' : Bytes) (op : OperationType)
    → IsId uuid
    → IsNamed (new_entry now op uuid data')
unfolding journal_entry
new_entry-IsNamed now uuid data' op id = id.some

module _ (a : Answers) (now uuid data' : Bytes) (s : Storage) (d : Disk) (whole : IsAllOrNothing a)
    (id : IsId uuid) (stamp : IsStamp now) (h : IsDurable s d) where
  -- One write of an operation, with what memory is to be in both cases.
  write-IsLogged :
      (op : OperationType) (store' : Store)
      → is_checkpoint (new_entry now op uuid data').type ≡ false
      → ((write_operation a now op uuid data' s.journal d).0 ≡ true
          → store' ≡ (apply_operation (new_entry now op uuid data') s.data_store).1)
      → ((write_operation a now op uuid data' s.journal d).0 ≡ false → store' ≡ s.data_store)
      → IsLogged store' s.journal.path s.snapshot_path
          (write_operation a now op uuid data' s.journal d).2
  write-IsLogged op store' ordinary on_ok on_fail =
      let node =
        write_operation_node a now op uuid data' s.journal d (h.old ++ h.tail) h.journal_dir h.text
          whole id.some in
      elim (Bool-cases (write_operation a now op uuid data' s.journal d).0) [
        | inl ok ↦
            IsLogged-append s.data_store store' s.journal.path s.snapshot_path d _
              (new_entry now op uuid data') h (new_entry-IsPlain now uuid data' op id stamp)
              (new_entry-IsNamed now uuid data' op id) (λ q. rw ok at (node q))
              (λ k. ap (find k) (on_ok ok)) ordinary
        | inr bad ↦ rw (on_fail bad) (
            IsLogged-same s.data_store s.journal.path s.snapshot_path d _ h
              (λ q. rw bad at (node q)))
      ]

  abbrev written : OperationType → Bool × Journal × Disk
  written op = write_operation a now op uuid data' s.journal d

  -- A method that writes one entry and changes memory only if that has succeeded.
  pub after_write :
      (op : OperationType) (store' : Store) (r : Storage) (d' : Disk)
      → is_checkpoint (new_entry now op uuid data').type ≡ false
      → store' ≡ (apply_operation (new_entry now op uuid data') s.data_store).1
      → r.data_store ≡ (if (written op).0 then store' else s.data_store)
      → r.journal ≡ (written op).1
      → r.snapshot_path ≡ s.snapshot_path
      → d' ≡ (written op).2
      → IsDurable r d'
  after_write op store' r d' ordinary effect in_memory in_journal same_path on_disk =
      let same : r.journal.path ≡ s.journal.path =
        ap (λ j. j.path) in_journal
        ∙ write_operation_path a now op uuid data' s.journal d (h.old ++ h.tail) h.journal_dir
            h.text whole id.some in
      rw (in_memory, same, same_path, on_disk)
        (write-IsLogged op (if (written op).0 then store' else s.data_store) ordinary
          (λ ok. rw ok effect) (λ bad. rw bad))

  -- After an insertion memory and disk agree as before it, whether it succeeds or not. Conditions:
  -- no write is partial, renames and directory synchronisations succeed, and the identifier and
  -- the clock's text can stand in the journal.
  pub insert-IsDurable : IsDurable (insert a now uuid data' s d).1 (insert a now uuid data' s d).2
  unfolding insert write_insert apply_operation journal_entry
  insert-IsDurable =
      after_write Entry.insert (assign uuid data' s.data_store) (insert a now uuid data' s d).1
        (insert a now uuid data' s d).2 refl refl (ground arith) (ground arith) (ground arith)
        (ground arith)

  -- After an update, also of an identifier that is not there, memory and disk agree as before it,
  -- whether it succeeds or not. Conditions: no write is partial, renames and directory
  -- synchronisations succeed, and the identifier and the clock's text can stand in the journal.
  pub update-IsDurable : IsDurable (update a now uuid data' s d).1 (update a now uuid data' s d).2
  unfolding update write_update apply_operation journal_entry
  update-IsDurable = elim (Bool-cases (contains uuid s.data_store)) [
    | inl there ↦
        after_write Entry.update (assign uuid data' s.data_store) (update a now uuid data' s d).1
          (update a now uuid data' s d).2 refl (rw there) (ground arith) (ground arith)
          (ground arith) (ground arith)
    | inr missing ↦ rw missing h
  ]

-- After a removal memory and disk agree as before it, whether it succeeds or not. Conditions: no
-- write is partial, renames and directory synchronisations succeed, and the identifier and the
-- clock's text can stand in the journal.
pub remove-IsDurable :
    (a : Answers) (now uuid : Bytes) (s : Storage) (d : Disk)
    → IsAllOrNothing a
    → IsId uuid
    → IsStamp now
    → IsDurable s d
    → IsDurable (remove a now uuid s d).1 (remove a now uuid s d).2
unfolding remove write_remove apply_operation journal_entry
remove-IsDurable a now uuid s d whole id stamp h = elim (Bool-cases (contains uuid s.data_store)) [
  | inl there ↦
      after_write a now uuid [] s d whole id stamp h Entry.remove (erase uuid s.data_store)
        (remove a now uuid s d).1 (remove a now uuid s d).2 refl (rw there) (ground arith)
        (ground arith) (ground arith) (ground arith)
  | inr missing ↦ rw missing h
]
