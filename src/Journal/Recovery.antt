-- ===== src/Journal/Recovery.antt =====
-- `replayJournal` and `getLastCheckpointId` on a journal file that its writer has left.
use octet.Prelude.{
  ◌≡◌, refl, ap, ◌∙◌, ◌⊎◌, inl, inr, false, ◌&&◌, Option, none, some, List, [], ◌∷◌, ◌++◌, arith,
  ◌==◌, nat_eq, list_eq, list_beq_iff, Bool-cases, Bytes, All,
}
use octet.Disk.{Disk, Answers, regular}
use octet.Files.Effects.{IsReadable, safe_file_read_file}
use octet.Entry.{JournalEntry, IsPlain}
use octet.Journal.{
  Journal, Store, is_checkpoint, note_checkpoint, replay_journal, last_checkpoint_in,
  get_last_checkpoint_id, or_search, names_nothing,
}
use octet.Journal.Text.{run_entries, journal_text, each_line-journal_text, run_entries-append}
use octet.Journal.Checkpoints.{
  after_checkpoint, replay_of, replay_content-none, replay_content_some,
}

-- The replay in terms of where it begins.
pub replay_journal-replay_of :
    (a : Answers) (now : Bytes) (last : Option Bytes) (s : Store) (j : Journal) (d : Disk)
    (es : List JournalEntry)
    → IsReadable a
    → All IsPlain es
    → d.node j.path ≡ some (regular (journal_text es))
    → names_nothing last ≡ false
    → replay_journal a now last s j d ≡ replay_of last es s
unfolding replay_journal
replay_journal-replay_of a now none s j d es ra plain file named =
    rw (safe_file_read_file a j.path (journal_text es) d ra file, or_search)
      (replay_content-none now es s plain)
replay_journal-replay_of a now (some c) s j d es ra plain file named =
    rw (named, safe_file_read_file a j.path (journal_text es) d ra file)
      (replay_content_some now c es s plain)

abbrev pub newest : List JournalEntry → Option Bytes
newest es = run_entries note_checkpoint es none

last_checkpoint_in-journal_text :
    (now : Bytes) (es : List JournalEntry)
    → All IsPlain es
    → last_checkpoint_in now (journal_text es) ≡ newest es
unfolding last_checkpoint_in
last_checkpoint_in-journal_text now es h = each_line-journal_text now note_checkpoint es none h

pub get_last_checkpoint_id-newest :
    (a : Answers) (now : Bytes) (j : Journal) (d : Disk) (es : List JournalEntry)
    → IsReadable a
    → All IsPlain es
    → d.node j.path ≡ some (regular (journal_text es))
    → j.last_checkpoint_id ≡ none
    → get_last_checkpoint_id a now j d ≡ (newest es, record j { last_checkpoint_id = newest es })
unfolding get_last_checkpoint_id
get_last_checkpoint_id-newest a now j d es ra plain file empty =
    ap (or_search a now j d) empty
    ∙ rw (safe_file_read_file a j.path (journal_text es) d ra file, or_search)
        (rw (last_checkpoint_in-journal_text now es plain))

-- No entry is a checkpoint.
abbrev pub NoCheckpoint : List JournalEntry → Type 0
NoCheckpoint = All (λ e. is_checkpoint e.type ≡ false)

note-stays :
    (fs : List JournalEntry) (last : Option Bytes)
    → NoCheckpoint fs
    → run_entries note_checkpoint fs last ≡ last
unfolding run_entries note_checkpoint
note-stays [] last h = refl
note-stays (e ∷ fs) last (h, hs) = rw h (note-stays fs last hs)

pub newest-append : (es fs : List JournalEntry) → NoCheckpoint fs → newest (es ++ fs) ≡ newest es
newest-append es fs h = run_entries-append note_checkpoint es fs none ∙ note-stays fs (newest es) h

pub after_checkpoint-append :
    (c : Bytes) (es fs rest : List JournalEntry)
    → after_checkpoint c es ≡ some rest
    → after_checkpoint c (es ++ fs) ≡ some (rest ++ fs)
unfolding after_checkpoint
after_checkpoint-append c [] fs rest h = cc
after_checkpoint-append c (e ∷ es) fs rest h = ground (arith, after_checkpoint-append c es fs rest)

-- The last checkpoint of a journal has a first occurrence, which cuts the journal in two.
pub newest_cut :
    (c : Bytes) (es : List JournalEntry) (last : Option Bytes)
    → run_entries note_checkpoint es last ≡ some c
    → (last ≡ some c)
      ⊎ ((front : List JournalEntry) × (rest : List JournalEntry) × (after_checkpoint c es
            ≡ some rest)
          × (es ≡ front ++ rest))
unfolding run_entries after_checkpoint note_checkpoint
newest_cut c [] last h = inl h
newest_cut c (e ∷ es) last h = elim (Bool-cases (is_checkpoint e.type && e.uuid == c)) [
  | inl here ↦ inr (e ∷ [], es, rw here, refl)
  | inr on ↦ elim (newest_cut c es (note_checkpoint e last) h) [
    | inl same ↦ inl (ground (arith, list_beq_iff e.uuid c))
    | inr (front, rest, found, cut) ↦ inr (e ∷ front, rest, rw on found, ap (λ r. e ∷ r) cut)
  ]
]
