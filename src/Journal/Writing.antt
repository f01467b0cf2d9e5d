-- ===== src/Journal/Writing.antt =====
-- What `writeOperation` leaves in the journal file, when the answers are all or nothing.
use octet.Prelude.{
  ◌≡◌, refl, sym, ap, ◌∙◌, Bool, true, false, some, List, [], ◌∷◌, ◌++◌, append_assoc, arith, ◌==◌,
  nat_eq, list_eq, if◌then◌else◌, Bytes,
}
use octet.Disk.{FilePath, parent_path, directory, regular, Disk, Answers}
use octet.Files.Append.{IsAllOrNothing, safe_file_append_node}
use octet.Entry.{OperationType, JournalEntry, journal_entry, serialize}
use octet.Journal.{Journal, do_write_operation, write_operation, journal_header}
use octet.Journal.Text.{journal_text, entries_text, entries_text-append}

-- The entry that a write makes: the constructor is given no timestamp.
abbrev pub new_entry : Bytes → OperationType → Bytes → Bytes → JournalEntry
new_entry now op uuid data' = journal_entry now op uuid data' []

journal_text-append :
    (es : List JournalEntry) (e : JournalEntry)
    → journal_text es ++ serialize e ≡ journal_text (es ++ e ∷ [])
journal_text-append es e =
    append_assoc journal_header (entries_text es) (serialize e)
    ∙ ap (λ t. journal_header ++ t) (sym (entries_text-append es e))

text_if :
    (ok : Bool) (es : List JournalEntry) (e : JournalEntry)
    → (if ok then journal_text es ++ serialize e else journal_text es)
      ≡ journal_text (if ok then es ++ e ∷ [] else es)
text_if true es e = journal_text-append es e
text_if false es e = refl

module _ (a : Answers) (now : Bytes) (op : OperationType) (uuid data' : Bytes) (j : Journal)
    (d : Disk) (es : List JournalEntry) (dir : d.node (parent_path j.path) ≡ some directory)
    (file : d.node j.path ≡ some (regular (journal_text es))) (whole : IsAllOrNothing a)
    (named : (uuid == []) ≡ false) where
  -- A write that succeeds adds its entry at the end, one that fails adds nothing.
  pub write_operation_node :
      (q : FilePath)
      → (write_operation a now op uuid data' j d).2.node q ≡ (
          if j.path == q
          then some (
              regular (
                journal_text (
                  if (write_operation a now op uuid data' j d).0
                  then es ++ new_entry now op uuid data' ∷ []
                  else es)))
          else d.node q)
  unfolding write_operation do_write_operation
  write_operation_node q = rw named (
      safe_file_append_node a j.path (serialize (new_entry now op uuid data')) (journal_text es) d
        dir file q whole
      ∙ ap (λ t. if j.path == q then some (regular t) else d.node q) (text_if _ es _))

  pub write_operation_path : (write_operation a now op uuid data' j d).1.path ≡ j.path
  unfolding write_operation
  write_operation_path = ground arith
