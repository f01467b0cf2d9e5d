-- ===== src/Journal/Opening.antt =====
-- The opening of a journal that is there: it is found valid and kept.
use octet.Prelude.{
  ◌≡◌, refl, ◌∙◌, Bool, true, false, ◌&&◌, none, some, List, [], ◌∷◌, append_assoc, arith, nat_eq,
  list_eq, has_value, Bytes, codes, All,
}
use octet.Escape.{newline}
use octet.Disk.{FilePath, parent_path, directory, regular, Disk, Answers}
use octet.FileChecks.{check_if_file_exists, ensure_directory_exists, is_existing_directory}
use octet.Files.Effects.{IsReadable, safe_file_read_file}
use octet.Entry.{
  JournalEntry, deserialize, line_of, IsPlain, serialize-line_of, deserialize-line_of,
  line_of-Lacks, line_of-StartsEntry,
}
use octet.Lines.{each_line, each_line_entry, each_line_comment, each_line_nil}
use octet.Journal.{valid_content, is_journal_valid, open_journal}
use octet.Journal.Text.{entries_text, journal_text}

abbrev valid_line : Bytes → Bytes → Bool → Bool
valid_line now line s = s && has_value (deserialize now line)

entries_text-valid :
    (now : Bytes) (es : List JournalEntry)
    → All IsPlain es
    → each_line (valid_line now) (entries_text es) true ≡ true
unfolding entries_text
entries_text-valid now [] h = each_line_nil (valid_line now) true
entries_text-valid now (e ∷ es) (h, hs) =
    rw (serialize-line_of e, append_assoc (line_of e) (newline ∷ []) (entries_text es))
      (each_line_entry (valid_line now) (line_of e) (entries_text es) true (line_of-Lacks e h)
          (line_of-StartsEntry e)
        ∙ rw (deserialize-line_of now e h) (entries_text-valid now es hs))

journal_text-valid :
    (now : Bytes) (es : List JournalEntry)
    → All IsPlain es
    → valid_content now (journal_text es) ≡ true
unfolding valid_content
journal_text-valid now es h =
    each_line_comment (valid_line now) (codes " OCTET Journal Format v1.0") (entries_text es) true
      (omega arith)
    ∙ entries_text-valid now es h

check_if_file_exists-there :
    (a : Answers) (p : FilePath) (bytes : Bytes) (create : Bool) (d : Disk)
    → IsReadable a
    → d.node p ≡ some (regular bytes)
    → d.node (parent_path p) ≡ some directory
    → check_if_file_exists a p create d ≡ (true, d)
unfolding check_if_file_exists ensure_directory_exists is_existing_directory
check_if_file_exists-there a p bytes create d h file dir =
    simp (h.status, file, h.locks, h.status_ec, dir, file) refl

is_journal_valid-journal_text :
    (a : Answers) (now : Bytes) (p : FilePath) (es : List JournalEntry) (d : Disk)
    → IsReadable a
    → All IsPlain es
    → d.node p ≡ some (regular (journal_text es))
    → d.node (parent_path p) ≡ some directory
    → is_journal_valid a now p d ≡ true
unfolding is_journal_valid
is_journal_valid-journal_text a now p es d h plain file dir =
    simp
      (
        check_if_file_exists-there a p (journal_text es) false d h file dir,
        safe_file_read_file a p (journal_text es) d h file,
      )
      (journal_text-valid now es plain)

pub open_journal-journal_text :
    (a : Answers) (now : Bytes) (p : FilePath) (es : List JournalEntry) (d : Disk)
    → IsReadable a
    → All IsPlain es
    → d.node p ≡ some (regular (journal_text es))
    → d.node (parent_path p) ≡ some directory
    → open_journal a now p d ≡ some (record { path = p; last_checkpoint_id = none }, d)
unfolding open_journal
open_journal-journal_text a now p es d h plain file dir =
    simp
      (
        check_if_file_exists-there a p (journal_text es) true d h file dir,
        is_journal_valid-journal_text a now p es d h plain file dir,
      )
      refl
