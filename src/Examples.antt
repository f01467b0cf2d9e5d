-- ===== src/Examples.antt =====
-- Data for the examples: a data directory whose journal has just been created, and entries.
pub mod Durability
pub mod Files
pub mod Requests
pub mod Serving
pub mod Console
pub mod Launching
pub mod Histories
pub mod Overtaken
pub mod Locking
pub mod Logging
use octet.Prelude.{
  ℕ, zero, suc, ◌+◌, ◌-◌, ◌*◌, ◌/◌, ◌%◌, ◌^◌, ◌≤◌, ◌<◌, String, ◌≡◌, refl, sym, ap, subst, ◌∙◌,
  fun_ext, ◌≢◌, ◌↔◌, ◌⊎◌, inl, inr, Bool, true, false, ◌&&◌, ◌||◌, not, Option, none, some, List,
  [], ◌∷◌, ◌++◌, append_assoc, append-nil, arith, Comparable, ◌==◌, nat_eq, list_eq, list_beq,
  list_beq_iff, beq_refl, beq_ne, ltb, leb, nat_beq, nat_beq_iff, if◌then◌else◌, has_value,
  Bool-cases, Option-cases, Bytes, codes, length, take, drop, length-append, take-length-append,
  drop-length-append, length-drop, All, All-append, Lacks,
}
use octet.Disk.{FilePath, Disk, Answers, directory, regular, set_node, all_well}
use octet.Files.Append.{IsAllOrNothing}
use octet.Files.Effects.{IsReadable}
use octet.Journal.{Journal, journal_header}
use octet.Entry.{JournalEntry, IsPlain}
use octet.Journal.Writing.{new_entry}
use octet.Storage
use octet.Storage.{Storage, fresh, LoadAnswers}
use octet.Storage.Durable.{IsId, IsStamp, IsDurable, new_entry-IsPlain}
use octet.Storage.Runs.{IsDurable-created}
use octet.Uuid.{generate_uuid}
use octet.Uuid.Valid.{generate_uuid-valid, is_valid_uuid-IsId}

abbrev pub data_dir : FilePath
data_dir = codes "data" ∷ []

abbrev pub journal_path : FilePath
journal_path = Storage.journal_file_name ∷ data_dir

abbrev pub empty_disk : Disk
empty_disk = record { node = λ p. none }

abbrev pub new_disk : Disk
new_disk =
    set_node journal_path (some (regular journal_header))
      (set_node data_dir (some directory) empty_disk)

abbrev pub new_journal : Journal
new_journal = record { path = journal_path; last_checkpoint_id = none }

abbrev pub new_storage : Storage
new_storage = fresh data_dir new_journal 0

abbrev pub well : Answers
well = all_well (codes "a1b2c3d4" ∷ []) (codes "20250101_000000" ∷ [])

abbrev pub stamp : Bytes
stamp = codes "2025"

abbrev pub uuid : Bytes
uuid = generate_uuid 1700000000000000000 123456789123456789 7

abbrev pub text : Bytes
text = codes "a|b\nc"

pub well-IsAllOrNothing : IsAllOrNothing well
well-IsAllOrNothing = record { no_part = refl; renames = refl; syncs = refl }

pub well-IsReadable : IsReadable well
well-IsReadable = record {
  status = refl;
  status_ec = refl;
  locks = λ p m. refl;
  open_in = refl;
  size_known = refl;
  read_all = refl;
}

pub uuid-IsId : IsId uuid
uuid-IsId = is_valid_uuid-IsId uuid (generate_uuid-valid 1700000000000000000 123456789123456789 7)

pub stamp-IsStamp : IsStamp stamp
stamp-IsStamp = record { some = λ e. cc; field = omega arith; line = omega arith }

pub new_storage-IsDurable : IsDurable new_storage new_disk
unfolding set_node list_beq fresh
new_storage-IsDurable = IsDurable-created data_dir 0 new_disk refl refl refl

abbrev pub readable_answers : LoadAnswers
readable_answers = record { check = well; snapshot = well; last = well; replay = well }
