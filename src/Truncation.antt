-- ===== src/Truncation.antt =====
-- The rest of `JournalManager`: reading the entries from a checkpoint on, rewriting the journal,
-- cutting it at a checkpoint and counting what was written since.
pub mod Rewriting
use octet.Prelude.{
  ℕ, zero, suc, ◌+◌, ◌-◌, ◌*◌, ◌/◌, ◌%◌, ◌^◌, ◌≤◌, ◌<◌, String, ◌≡◌, refl, sym, ap, ◌∙◌, fun_ext,
  ◌≢◌, ◌↔◌, ◌⊎◌, inl, inr, Bool, true, false, ◌&&◌, ◌||◌, not, Option, none, some, List, [], ◌∷◌,
  ◌++◌, append_assoc, append-nil, arith, Comparable, ◌==◌, nat_eq, list_eq, list_beq, list_beq_iff,
  beq_refl, beq_ne, ltb, leb, nat_beq, nat_beq_iff, if◌then◌else◌, has_value, Bool-cases,
  Option-cases, Bytes, codes, length, take, drop, length-append, take-length-append,
  drop-length-append, length-drop, All, All-append, Lacks,
}
use octet.Disk.{FilePath, parent_path, filename, Disk, Answers, exclusive}
use octet.Files.{safe_file_read, atomic_file_write}
use octet.Entry.{JournalEntry, serialize, deserialize}
use octet.Escape.{newline}
use octet.Lines.{each_line}
use octet.Journal.{
  Journal, journal_header, is_checkpoint, on_entry, names_nothing, note_checkpoint,
  get_last_checkpoint_id,
}

-- The variables of the loop of `readAllEntriesFrom` that outlive it.
pub record Reading : Type 0 where
  pub found_checkpoint : Bool
  pub entries : List JournalEntry

-- The checkpoint that is looked for is kept, any other is dropped. The assertion that it is met once
-- is a condition of the theorems, as in the replay.
unfoldable pub read_entry : Option Bytes → JournalEntry → Reading → Reading
read_entry none e s = record s { entries = s.entries ++ e ∷ [] }
read_entry (some ckpt) e s =
    if is_checkpoint e.type
    then (if e.uuid == ckpt
        then record { found_checkpoint = true; entries = s.entries ++ e ∷ [] }
        else s)
    else if s.found_checkpoint
    then record s { entries = s.entries ++ e ∷ [] }
    else s

unfoldable pub entries_in : Bytes → Option Bytes → Bytes → List JournalEntry
entries_in now checkpoint_id content =
    (each_line (λ line s. on_entry (read_entry checkpoint_id) (deserialize now line) s) content
      (record { found_checkpoint = false; entries = [] })).entries

unfoldable pub read_all_entries_from :
    Answers → Bytes → Option Bytes → Journal → Disk → Option (List JournalEntry)
read_all_entries_from a now checkpoint_id j d =
    if names_nothing checkpoint_id then none else elim (safe_file_read a j.path d) [
      | none ↦ none
      | some content ↦ some (entries_in now checkpoint_id content)
    ]

-- `serialize` ends a line and the loop ends it once more.
unfoldable pub rewritten : List JournalEntry → Bytes
rewritten [] = []
rewritten (e ∷ entries) = serialize e ++ newline ∷ rewritten entries

unfoldable pub newest_checkpoint : List JournalEntry → Option Bytes → Option Bytes
newest_checkpoint [] last = last
newest_checkpoint (e ∷ entries) last = newest_checkpoint entries (note_checkpoint e last)

unfoldable pub rewrite_journal :
    Answers → List JournalEntry → Journal → Disk → Bool × Journal × Disk
rewrite_journal a entries j d =
    let (done, d') = atomic_file_write a j.path (journal_header ++ rewritten entries) d in
    (
      done,
      (if done then record j { last_checkpoint_id = newest_checkpoint entries none } else j),
      d',
    )

abbrev beside : FilePath → Bytes → FilePath
beside p suffix = (filename p ++ suffix) ∷ parent_path p

rewrite_found : Answers → Option (List JournalEntry) → Journal → Disk → Bool × Journal × Disk
rewrite_found a none j d = (false, j, d)
rewrite_found a (some []) j d = (false, j, d)
rewrite_found a (some (e ∷ entries)) j d = rewrite_journal a (e ∷ entries) j d

unfoldable pub truncate_journal_to_checkpoint :
    Answers → Bytes → Bytes → Journal → Disk → Bool × Journal × Disk
unfolding rewrite_found
truncate_journal_to_checkpoint a now checkpoint_id j d =
    if checkpoint_id == []
    then (false, j, d)
    else if a.lock (beside j.path (codes ".truncate")) exclusive
    then rewrite_found a (read_all_entries_from a now (some checkpoint_id) j d) j d
    else (false, j, d)

-- `return false` in a function that returns `std::optional<size_t>` is the number 0.
abbrev returned_false : Option ℕ
returned_false = some 0

count_found : Option (List JournalEntry) → Option ℕ
count_found none = returned_false
count_found (some entries) = some (length entries)

unfoldable pub count_operations_since_last_checkpoint :
    Answers → Bytes → Journal → Disk → Option ℕ × Journal
unfolding count_found
count_operations_since_last_checkpoint a now j d =
    if a.lock (beside j.path (codes ".count")) exclusive
    then (let j' = (get_last_checkpoint_id a now j d).1 in
        (count_found (read_all_entries_from a now j'.last_checkpoint_id j' d), j'))
    else (returned_false, j)
