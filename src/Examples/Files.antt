-- ===== src/Examples/Files.antt =====
-- Examples for the files, the journal and the snapshot.
use octet.Prelude.{
  ◌≡◌, refl, true, some, List, [], ◌∷◌, ◌++◌, arith, ◌==◌, nat_eq, list_eq, list_beq, if◌then◌else◌,
  codes, All,
}
use octet.Map.{SameMap}
use octet.Disk.{Disk, directory, regular, set_node}
use octet.Escape.{escape_string, unescape_string, unescape_string-escape_string}
use octet.Entry
use octet.Entry.{JournalEntry, deserialize, line_of, IsPlain, deserialize-line_of}
use octet.Files.{safe_file_append, atomic_file_write}
use octet.Files.Append.{safe_file_append_node}
use octet.Files.Replace.{Safe, atomic_file_write-Safe}
use octet.Snapshot.{Fits, serialize_map, deserialize_map, deserialize_map-serialize_map}
use octet.Journal.{Store, journal_header, replay_journal, get_last_checkpoint_id}
use octet.Journal.Text.{journal_text}
use octet.Journal.Writing.{new_entry}
use octet.Journal.Found.{
  AtMostOne, Replays, IsNewest, replay_journal-journal_text, get_last_checkpoint_id-journal_text,
}
use octet.Lines.{each_line}
use octet.Journal.Text.{run_entries}
use octet.Truncation.{rewritten, read_all_entries_from, truncate_journal_to_checkpoint}
use octet.Truncation.Rewriting.{
  since, spaced_lines, read_all_entries_from-journal_text, truncate_journal_to_checkpoint-text,
}
use octet.Storage.Durable.{new_entry-IsPlain}
use octet.Examples.{
  data_dir, journal_path, empty_disk, new_disk, new_journal, well, stamp, uuid, text,
  well-IsAllOrNothing, well-IsReadable, uuid-IsId, stamp-IsStamp,
}

unescape_string-escape_string_example : unescape_string (escape_string text) ≡ text
unescape_string-escape_string_example = unescape_string-escape_string text

abbrev inserted_entry : JournalEntry
inserted_entry = new_entry stamp Entry.insert uuid text

abbrev checkpoint_entry : JournalEntry
checkpoint_entry = new_entry stamp Entry.checkpoint uuid []

abbrev entries : List JournalEntry
entries = inserted_entry ∷ checkpoint_entry ∷ []

entries-IsPlain : All IsPlain entries
entries-IsPlain = (
  new_entry-IsPlain stamp uuid text Entry.insert uuid-IsId stamp-IsStamp,
  (new_entry-IsPlain stamp uuid [] Entry.checkpoint uuid-IsId stamp-IsStamp, tt),
)

abbrev logged_disk : Disk
logged_disk =
    set_node journal_path (some (regular (journal_text entries)))
      (set_node data_dir (some directory) empty_disk)

deserialize-line_of_example :
    deserialize (codes "later") (line_of inserted_entry) ≡ some inserted_entry
deserialize-line_of_example = deserialize-line_of (codes "later") inserted_entry entries-IsPlain.0

entries-AtMostOne : AtMostOne uuid entries
unfolding AtMostOne Entry.journal_entry
entries-AtMostOne = (λ e. cc, (λ e. tt, tt))

replay_journal-journal_text_example :
    Replays
      (some uuid)
      entries
      []
      (replay_journal well stamp (some uuid) [] new_journal logged_disk)
unfolding set_node list_beq
replay_journal-journal_text_example =
    replay_journal-journal_text well stamp (some uuid) [] new_journal logged_disk entries
      well-IsReadable entries-IsPlain refl uuid-IsId.some entries-AtMostOne

get_last_checkpoint_id-journal_text_example :
    let (found, j) = get_last_checkpoint_id well stamp new_journal logged_disk in
    IsNewest entries found × (j ≡ record new_journal { last_checkpoint_id = found })
unfolding set_node list_beq
get_last_checkpoint_id-journal_text_example =
    get_last_checkpoint_id-journal_text well stamp new_journal logged_disk entries well-IsReadable
      entries-IsPlain refl refl

atomic_file_write-Safe_example :
    Safe well journal_path text
      (new_disk.node journal_path)
      (atomic_file_write well journal_path text new_disk)
unfolding set_node list_beq
atomic_file_write-Safe_example = atomic_file_write-Safe well journal_path text new_disk refl

safe_file_append_node_example :
    (safe_file_append well journal_path text new_disk).1.node data_dir ≡ (
      if journal_path == data_dir
      then some (
          regular (
            if (safe_file_append well journal_path text new_disk).0
            then journal_header ++ text
            else journal_header))
      else new_disk.node data_dir)
unfolding set_node list_beq
safe_file_append_node_example =
    safe_file_append_node well journal_path text journal_header new_disk refl refl data_dir
      well-IsAllOrNothing

abbrev two_pairs : Store
two_pairs = (text, stamp) ∷ (stamp, []) ∷ []

two_pairs-Fits : Fits two_pairs
two_pairs-Fits = record {
  count = omega arith;
  pairs = ((omega arith, omega arith), ((omega arith, omega arith), tt));
}

deserialize_map-serialize_map_example :
    (back : Store) × (deserialize_map (serialize_map two_pairs) ≡ some back)
    × SameMap back two_pairs
deserialize_map-serialize_map_example = deserialize_map-serialize_map two_pairs two_pairs-Fits

read_all_entries_from-journal_text_example :
    read_all_entries_from well stamp (some uuid) new_journal logged_disk ≡ some (since uuid entries)
unfolding set_node list_beq
read_all_entries_from-journal_text_example =
    read_all_entries_from-journal_text well stamp uuid new_journal logged_disk entries
      well-IsReadable entries-IsPlain refl uuid-IsId.some entries-AtMostOne

abbrev short_entries : List JournalEntry
short_entries =
    record { type = Entry.insert; uuid = codes "u"; data' = codes "x"; timestamp = codes "t" }
    ∷ record { type = Entry.checkpoint; uuid = codes "k"; data' = []; timestamp = codes "t" }
    ∷ []

short_entries-IsPlain : All IsPlain short_entries
short_entries-IsPlain = (
  record {
    uuid_field = omega arith;
    uuid_line = omega arith;
    stamp_field = omega arith;
    stamp_line = omega arith;
    stamp_some = λ e. cc;
  },
  (
    record {
      uuid_field = omega arith;
      uuid_line = omega arith;
      stamp_field = omega arith;
      stamp_line = omega arith;
      stamp_some = λ e. cc;
    },
    tt,
  ),
)

abbrev short_disk : Disk
short_disk =
    set_node journal_path (some (regular (journal_text short_entries)))
      (set_node data_dir (some directory) empty_disk)

truncated : (truncate_journal_to_checkpoint well stamp (codes "k") new_journal short_disk).0 ≡ true
unfolding set_node list_beq truncate_journal_to_checkpoint read_all_entries_from
    octet.Files.safe_file_read octet.Truncation.entries_in each_line octet.Lines.read_line
    octet.Journal.Text.entries_text Entry.serialize Entry.operation_type_to_string escape_string
    deserialize octet.Truncation.read_entry octet.Truncation.rewrite_journal atomic_file_write
    octet.FileChecks.get_temp_file_path
truncated = refl

short_entries-AtMostOne : AtMostOne (codes "k") short_entries
unfolding AtMostOne
short_entries-AtMostOne = (λ e. cc, (λ e. tt, tt))

truncate_journal_to_checkpoint-text_example :
    (truncate_journal_to_checkpoint well stamp (codes "k") new_journal short_disk).2.node
      journal_path
    ≡ some (regular (journal_header ++ spaced_lines (since (codes "k") short_entries)))
unfolding set_node list_beq
truncate_journal_to_checkpoint-text_example =
    truncate_journal_to_checkpoint-text well stamp (codes "k") new_journal short_disk short_entries
      well-IsReadable short_entries-IsPlain refl refl refl short_entries-AtMostOne truncated
