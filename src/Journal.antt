-- ===== src/Journal.antt =====
-- `JournalManager` of src/storage/journal_manager.cpp: writing, replay and the last checkpoint. The
-- manager is its path and its cache; the disk and the answers of the system are passed beside it.
-- The mutex of the journal holds no data: a call is one step here.
pub mod Text
pub mod Effects
pub mod Checkpoints
pub mod Opening
pub mod Recovery
pub mod Found
pub mod Writing
use octet.Prelude.{
  ℕ, zero, suc, ◌+◌, ◌-◌, ◌*◌, ◌/◌, ◌%◌, ◌^◌, ◌≤◌, ◌<◌, String, ◌≡◌, refl, sym, ap, ◌∙◌, fun_ext,
  ◌≢◌, ◌↔◌, ◌⊎◌, inl, inr, Bool, true, false, ◌&&◌, ◌||◌, not, Option, none, some, List, [], ◌∷◌,
  ◌++◌, append_assoc, append-nil, arith, Comparable, ◌==◌, nat_eq, list_eq, list_beq, list_beq_iff,
  beq_refl, beq_ne, ltb, leb, nat_beq, nat_beq_iff, if◌then◌else◌, has_value, Bool-cases,
  Option-cases, Bytes, codes, length, take, drop, length-append, take-length-append,
  drop-length-append, length-drop, All, All-append, Lacks,
}
use octet.Disk.{FilePath, Disk, Answers}
use octet.FileChecks.{check_if_file_exists}
use octet.Files.{create_file_backup, safe_file_read, safe_file_append, atomic_file_write}
use octet.Map.{Map, contains, assign, erase}
use octet.Entry.{
  OperationType, insert, update, remove, checkpoint, JournalEntry, journal_entry, serialize,
  deserialize,
}
use octet.Lines.{each_line}

-- `std::unordered_map<std::string, std::string>`
abbrev pub Store : Type 0
Store = Map Bytes Bytes

pub record Journal : Type 0 where
  pub path : FilePath
  pub last_checkpoint_id : Option Bytes

abbrev pub journal_header : Bytes
journal_header = codes "# OCTET Journal Format v1.0\n"

abbrev pub is_checkpoint : OperationType → Bool
is_checkpoint checkpoint = true
is_checkpoint _ = false

unfoldable pub do_write_operation :
    Answers → Bytes → OperationType → Bytes → Bytes → Journal → Disk → Bool × Disk
do_write_operation a now op uuid data' j d =
    safe_file_append a j.path (serialize (journal_entry now op uuid data' [])) d

-- An empty identifier is refused; a checkpoint that is written is cached.
unfoldable pub write_operation :
    Answers → Bytes → OperationType → Bytes → Bytes → Journal → Disk → Bool × Journal × Disk
write_operation a now op uuid data' j d =
    if uuid == []
    then (false, j, d)
    else (let (written, d') = do_write_operation a now op uuid data' j d in
        (
          written,
          (if is_checkpoint op && written then record j { last_checkpoint_id = some uuid } else j),
          d',
        ))

unfoldable pub write_insert :
    Answers → Bytes → Bytes → Bytes → Journal → Disk → Bool × Journal × Disk
write_insert a now uuid data' j d = write_operation a now insert uuid data' j d

unfoldable pub write_update :
    Answers → Bytes → Bytes → Bytes → Journal → Disk → Bool × Journal × Disk
write_update a now uuid data' j d = write_operation a now update uuid data' j d

unfoldable pub write_remove : Answers → Bytes → Bytes → Journal → Disk → Bool × Journal × Disk
write_remove a now uuid j d = write_operation a now remove uuid [] j d

unfoldable pub write_checkpoint : Answers → Bytes → Bytes → Journal → Disk → Bool × Journal × Disk
write_checkpoint a now snapshot_id j d = write_operation a now checkpoint snapshot_id [] j d

-- By type, identifier and data.
apply_typed : OperationType → Bytes → Bytes → Store → Bool × Store
apply_typed insert uuid data' store = (true, assign uuid data' store)
apply_typed update uuid data' store =
    if contains uuid store then (true, assign uuid data' store) else (false, store)
apply_typed remove uuid data' store =
    if contains uuid store then (true, erase uuid store) else (false, store)
apply_typed checkpoint uuid data' store = (true, store)

unfoldable pub apply_operation : JournalEntry → Store → Bool × Store
unfolding apply_typed
apply_operation e store = apply_typed e.type e.uuid e.data' store

-- The variables of the loop of `replayJournal` that outlive it.
pub record Replay : Type 0 where
  pub found_checkpoint : Bool
  pub data_store : Store

-- The assertion that the checkpoint is met once stops a build that has assertions: a condition of the
-- theorems, and nothing in this step.
unfoldable pub replay_entry : Option Bytes → JournalEntry → Replay → Replay
replay_entry none e s = record s { data_store = (apply_operation e s.data_store).1 }
replay_entry (some ckpt) e s =
    if is_checkpoint e.type
    then (if e.uuid == ckpt then record s { found_checkpoint = true } else s)
    else if s.found_checkpoint
    then record s { data_store = (apply_operation e s.data_store).1 }
    else s

-- A line that is no entry is skipped.
abbrev pub on_entry {ℓ} : {S : Type ℓ} → (JournalEntry → S → S) → Option JournalEntry → S → S
on_entry body none s = s
on_entry body (some e) s = body e s

unfoldable pub replay_content : Bytes → Option Bytes → Bytes → Store → Replay
replay_content now last_checkpoint content store =
    each_line (λ line s. on_entry (replay_entry last_checkpoint) (deserialize now line) s) content
      (record { found_checkpoint = false; data_store = store })

unfoldable pub replay_result : Option Bytes → Replay → Bool × Store
replay_result last_checkpoint s =
    (not (has_value last_checkpoint && not s.found_checkpoint), s.data_store)

-- A checkpoint is asked for by an empty identifier.
abbrev pub names_nothing : Option Bytes → Bool
names_nothing none = false
names_nothing (some id) = id == []

unfoldable pub replay_journal :
    Answers → Bytes → Option Bytes → Store → Journal → Disk → Bool × Store
replay_journal a now last_checkpoint store j d =
    if names_nothing last_checkpoint then (false, store) else elim (safe_file_read a j.path d) [
      | none ↦ (false, store)
      | some content ↦
          replay_result last_checkpoint (replay_content now last_checkpoint content store)
    ]

unfoldable pub note_checkpoint : JournalEntry → Option Bytes → Option Bytes
note_checkpoint e last = if is_checkpoint e.type then some e.uuid else last

unfoldable pub last_checkpoint_in : Bytes → Bytes → Option Bytes
last_checkpoint_in now content =
    each_line (λ line s. on_entry note_checkpoint (deserialize now line) s) content none

abbrev pub or_search : Answers → Bytes → Journal → Disk → Option Bytes → Option Bytes × Journal
or_search a now j d (some cached) = (some cached, j)
or_search a now j d none = elim (safe_file_read a j.path d) [
  | none ↦ (none, j)
  | some content ↦
      let found = last_checkpoint_in now content in (found, record j { last_checkpoint_id = found })
]

unfoldable pub get_last_checkpoint_id : Answers → Bytes → Journal → Disk → Option Bytes × Journal
get_last_checkpoint_id a now j d = or_search a now j d j.last_checkpoint_id

valid_content : Bytes → Bytes → Bool
valid_content now content = each_line (λ line s. s && has_value (deserialize now line)) content true

unfoldable pub is_journal_valid : Answers → Bytes → FilePath → Disk → Bool
unfolding valid_content
is_journal_valid a now path d =
    if (check_if_file_exists a path false d).0
    then elim (safe_file_read a path d) [ none ↦ false | some content ↦ valid_content now content ]
    else false

create_journal : Answers → FilePath → Disk → Option (Journal × Disk)
create_journal a path d =
    let (written, d') = atomic_file_write a path journal_header d in
    if written then some (record { path = path; last_checkpoint_id = none }, d') else none

-- The constructor; `none` is the exception. A journal that cannot be read line by line is set aside.
unfoldable pub open_journal : Answers → Bytes → FilePath → Disk → Option (Journal × Disk)
unfolding create_journal
open_journal a now path d =
    let (there, d') = check_if_file_exists a path true d in
    if not there
    then create_journal a path d'
    else if is_journal_valid a now path d'
    then some (record { path = path; last_checkpoint_id = none }, d')
    else (let (backup, d'') = create_file_backup a path d' in
        if has_value backup then create_journal a path d'' else none)
