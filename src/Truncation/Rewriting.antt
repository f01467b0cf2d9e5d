-- ===== src/Truncation/Rewriting.antt =====
-- What the functions that shorten a journal read and write.
use octet.Prelude.{
  ◌≡◌, refl, sym, ap, ◌∙◌, inl, inr, Bool, true, false, ◌&&◌, not, some, List, [], ◌∷◌, ◌++◌,
  append_assoc, append-nil, arith, ◌==◌, nat_eq, list_eq, if◌then◌else◌, Bool-cases, Bytes, codes,
  All,
}
use octet.Disk.{Disk, Answers, regular, directory, parent_path}
use octet.Files.Replace.{atomic_file_write-Safe}
use octet.Escape.{newline}
use octet.Entry.{
  JournalEntry, deserialize, line_of, IsPlain, serialize-line_of, deserialize-line_of,
  line_of-Lacks, line_of-StartsEntry,
}
use octet.Lines.{each_line, each_line_entry, each_line_comment, each_line_blank, each_line_nil}
use octet.Files.Effects.{IsReadable, safe_file_read_file}
use octet.Journal.{Journal, journal_header, on_entry, names_nothing, is_checkpoint}
use octet.Journal.Found.{marks, LacksMark, AtMostOne}
use octet.Journal.Text.{run_entries, journal_text, each_line-journal_text}
use octet.Truncation.{
  Reading, read_entry, entries_in, rewritten, read_all_entries_from, rewrite_journal, rewrite_found,
  truncate_journal_to_checkpoint,
}

module _ {S : Type 0} (now : Bytes) (body : JournalEntry → S → S) where
  abbrev pub by_line : Bytes → S → S
  by_line line s = on_entry body (deserialize now line) s

  each_line-rewritten_entries :
      (es : List JournalEntry) (s : S)
      → All IsPlain es
      → each_line by_line (rewritten es) s ≡ run_entries body es s
  unfolding rewritten run_entries
  each_line-rewritten_entries [] s h = each_line_nil by_line s
  each_line-rewritten_entries (e ∷ es) s (h, hs) =
      rw (serialize-line_of e, append_assoc (line_of e) (newline ∷ []) (newline ∷ rewritten es))
        (each_line_entry by_line (line_of e) (newline ∷ rewritten es) s (line_of-Lacks e h)
            (line_of-StartsEntry e)
          ∙ each_line_blank by_line (rewritten es) (by_line (line_of e) s)
          ∙ rw (deserialize-line_of now e h) (each_line-rewritten_entries es (body e s) hs))

  -- A journal that `rewriteJournal` has written, with an empty line behind every entry, is read as
  -- the same entries, in the same order, if they are plain.
  pub each_line-rewritten :
      (es : List JournalEntry) (s : S)
      → All IsPlain es
      → each_line by_line (journal_header ++ rewritten es) s ≡ run_entries body es s
  each_line-rewritten es s h =
      each_line_comment by_line (codes " OCTET Journal Format v1.0") (rewritten es) s (omega arith)
      ∙ each_line-rewritten_entries es s h

-- The checkpoint itself, and the entries behind it other than checkpoints of another name.
unfoldable pub kept : Bytes → List JournalEntry → List JournalEntry
kept c [] = []
kept c (e ∷ es) =
    let rest = kept c es in if is_checkpoint e.type && not (e.uuid == c) then rest else e ∷ rest

unfoldable pub from_checkpoint_on : Bytes → List JournalEntry → List JournalEntry
unfolding kept
from_checkpoint_on c [] = []
from_checkpoint_on c (e ∷ es) =
    let rest = from_checkpoint_on c es in
    if is_checkpoint e.type && e.uuid == c then e ∷ kept c es else rest

abbrev behind : List JournalEntry → Reading
behind fs = record { found_checkpoint = true; entries = fs }

abbrev searching : Reading
searching = record { found_checkpoint = false; entries = [] }

-- What the loop makes of the entries that are left.
abbrev readings : Bytes → List JournalEntry → Reading → List JournalEntry
readings c es r = (run_entries (read_entry (some c)) es r).entries

step-kept :
    (c : Bytes) (e : JournalEntry) (es fs : List JournalEntry)
    → ((gs : List JournalEntry) → readings c es (behind gs) ≡ gs ++ kept c es)
    → (mark named : Bool)
    → readings c es (
        if mark
        then (if named then behind (fs ++ e ∷ []) else behind fs)
        else behind (fs ++ e ∷ []))
      ≡ fs ++ (if mark && not named then kept c es else e ∷ kept c es)
step-kept c e es fs h true true = h (fs ++ e ∷ []) ∙ append_assoc fs (e ∷ []) (kept c es)
step-kept c e es fs h true false = h fs
step-kept c e es fs h false named = h (fs ++ e ∷ []) ∙ append_assoc fs (e ∷ []) (kept c es)

run-kept : (c : Bytes) (es fs : List JournalEntry) → readings c es (behind fs) ≡ fs ++ kept c es
unfolding run_entries kept read_entry
run-kept c [] fs = sym (append-nil fs)
run-kept c (e ∷ es) fs = step-kept c e es fs (run-kept c es) (is_checkpoint e.type) (e.uuid == c)

step-searching :
    (c : Bytes) (e : JournalEntry) (es : List JournalEntry)
    → readings c es searching ≡ from_checkpoint_on c es
    → (mark named : Bool)
    → readings c es (if mark then (if named then behind (e ∷ []) else searching) else searching)
      ≡ (if mark && named then e ∷ kept c es else from_checkpoint_on c es)
step-searching c e es h true true = run-kept c es (e ∷ [])
step-searching c e es h true false = h
step-searching c e es h false named = h

run-searching :
    (c : Bytes) (es : List JournalEntry) → readings c es searching ≡ from_checkpoint_on c es
unfolding run_entries from_checkpoint_on read_entry
run-searching c [] = refl
run-searching c (e ∷ es) =
    step-searching c e es (run-searching c es) (is_checkpoint e.type) (e.uuid == c)

read_all_entries_from-from_checkpoint_on :
    (a : Answers) (now c : Bytes) (j : Journal) (d : Disk) (es : List JournalEntry)
    → IsReadable a
    → All IsPlain es
    → d.node j.path ≡ some (regular (journal_text es))
    → names_nothing (some c) ≡ false
    → read_all_entries_from a now (some c) j d ≡ some (from_checkpoint_on c es)
unfolding read_all_entries_from entries_in
read_all_entries_from-from_checkpoint_on a now c j d es ra plain file named =
    rw (named, safe_file_read_file a j.path (journal_text es) d ra file)
      (ap (λ r. some r.entries)
          (each_line-journal_text now (read_entry (some c)) es
            (record { found_checkpoint = false; entries = [] }) plain)
        ∙ ap some (run-searching c es))

-- The entries that are no checkpoints.
unfoldable pub operations : List JournalEntry → List JournalEntry
operations [] = []
operations (e ∷ es) = let rest = operations es in if is_checkpoint e.type then rest else e ∷ rest

-- The checkpoint of this name and the operations behind it.
unfoldable pub since : Bytes → List JournalEntry → List JournalEntry
unfolding operations
since c [] = []
since c (e ∷ es) = let rest = since c es in if marks c e then e ∷ operations es else rest

kept-operations : (c : Bytes) (es : List JournalEntry) → LacksMark c es → kept c es ≡ operations es
unfolding kept operations
kept-operations c [] lacks = refl
kept-operations c (e ∷ es) (other, lacks) =
    without (is_checkpoint e.type) (e.uuid == c) other (kept-operations c es lacks)
  where
    without :
        (mark named : Bool)
        → (mark && named) ≡ false
        → kept c es ≡ operations es
        → (if mark && not named then kept c es else e ∷ kept c es)
          ≡ (if mark then operations es else e ∷ operations es)
    without true true other same = cc
    without true false other same = same
    without false named other same = ap (λ r. e ∷ r) same

from_checkpoint_on-since :
    (c : Bytes) (es : List JournalEntry) → AtMostOne c es → from_checkpoint_on c es ≡ since c es
unfolding from_checkpoint_on since AtMostOne
from_checkpoint_on-since c [] once = refl
from_checkpoint_on-since c (e ∷ es) (alone, once) = elim (Bool-cases (marks c e)) [
  | inl here ↦ rw here (ap (λ r. e ∷ r) (kept-operations c es (alone here)))
  | inr on ↦ rw on (from_checkpoint_on-since c es once)
]

-- From a readable journal of plain entries the reading from a checkpoint takes the checkpoint and
-- the operations behind it, and no other checkpoint; nothing if there is none of that name.
-- Condition: the journal has no second checkpoint of this name, as the code asserts.
pub read_all_entries_from-journal_text :
    (a : Answers) (now c : Bytes) (j : Journal) (d : Disk) (es : List JournalEntry)
    → IsReadable a
    → All IsPlain es
    → d.node j.path ≡ some (regular (journal_text es))
    → names_nothing (some c) ≡ false
    → AtMostOne c es
    → read_all_entries_from a now (some c) j d ≡ some (since c es)
read_all_entries_from-journal_text a now c j d es ra plain file named once =
    read_all_entries_from-from_checkpoint_on a now c j d es ra plain file named
    ∙ ap some (from_checkpoint_on-since c es once)

-- The lines of the entries, each with an empty line behind it.
unfoldable pub spaced_lines : List JournalEntry → Bytes
spaced_lines [] = []
spaced_lines (e ∷ es) = line_of e ++ newline ∷ newline ∷ spaced_lines es

rewritten-spaced_lines : (es : List JournalEntry) → rewritten es ≡ spaced_lines es
unfolding rewritten spaced_lines
rewritten-spaced_lines [] = refl
rewritten-spaced_lines (e ∷ es) =
    rw
      (
        serialize-line_of e,
        append_assoc (line_of e) (newline ∷ []) (newline ∷ rewritten es),
        rewritten-spaced_lines es,
      )
      refl

rewrite_found-text :
    (a : Answers) (es : List JournalEntry) (j : Journal) (d : Disk)
    → d.node (parent_path j.path) ≡ some directory
    → (rewrite_found a (some es) j d).0 ≡ true
    → (rewrite_found a (some es) j d).2.node j.path
      ≡ some (regular (journal_header ++ rewritten es))
unfolding rewrite_found rewrite_journal
rewrite_found-text a [] j d dir done = cc
rewrite_found-text a (e ∷ es) j d dir done =
    (atomic_file_write-Safe a j.path (journal_header ++ rewritten (e ∷ es)) d dir).0 done

truncate-found :
    (a : Answers) (now c : Bytes) (j : Journal) (d : Disk) (es : List JournalEntry)
    → IsReadable a
    → All IsPlain es
    → d.node j.path ≡ some (regular (journal_text es))
    → (c == []) ≡ false
    → AtMostOne c es
    → truncate_journal_to_checkpoint a now c j d ≡ rewrite_found a (some (since c es)) j d
unfolding truncate_journal_to_checkpoint
truncate-found a now c j d es ra plain file named once =
    let read = read_all_entries_from-journal_text a now c j d es ra plain file named once in
    rw (named, ra.locks, read) refl

-- A truncation to a checkpoint that reports success, of a readable journal of plain entries in a
-- directory that is there, has replaced the file by the header and the lines of the checkpoint and
-- of the operations behind it, each line with an empty line behind it. Condition: the journal has
-- no second checkpoint of this name, as the code asserts.
pub truncate_journal_to_checkpoint-text :
    (a : Answers) (now c : Bytes) (j : Journal) (d : Disk) (es : List JournalEntry)
    → IsReadable a
    → All IsPlain es
    → d.node (parent_path j.path) ≡ some directory
    → d.node j.path ≡ some (regular (journal_text es))
    → (c == []) ≡ false
    → AtMostOne c es
    → (truncate_journal_to_checkpoint a now c j d).0 ≡ true
    → (truncate_journal_to_checkpoint a now c j d).2.node j.path
      ≡ some (regular (journal_header ++ spaced_lines (since c es)))
truncate_journal_to_checkpoint-text a now c j d es ra plain dir file named once done =
    let same = truncate-found a now c j d es ra plain file named once in
    ap (λ r. r.2.node j.path) same
    ∙ rewrite_found-text a (since c es) j d dir (sym (ap (λ r. r.0) same) ∙ done)
    ∙ ap (λ text. some (regular (journal_header ++ text))) (rewritten-spaced_lines (since c es))
