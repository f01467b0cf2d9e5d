-- ===== src/Journal/Found.antt =====
-- `replayJournal` and `getLastCheckpointId` beside the contents of a journal file: where the entries
-- that count begin, and what they do to the value under each identifier.
use octet.Prelude.{
  ◌≡◌, refl, ap, ◌∙◌, ◌⊎◌, inl, inr, Bool, true, false, ◌&&◌, Option, none, some, List, [], ◌∷◌,
  ◌++◌, ◌==◌, nat_eq, list_eq, Bool-cases, Bytes, All,
}
use octet.Disk.{Disk, Answers, regular}
use octet.Files.Effects.{IsReadable}
use octet.Map.{find}
use octet.Entry.{JournalEntry, IsPlain}
use octet.Journal.{
  Journal, Store, is_checkpoint, note_checkpoint, replay_journal, get_last_checkpoint_id,
  names_nothing,
}
use octet.Journal.Text.{run_entries, journal_text}
use octet.Journal.Effects.{run, effects, find-apply_all}
use octet.Journal.Checkpoints.{after_checkpoint, replay_of}
use octet.Journal.Recovery.{
  NoCheckpoint, newest, replay_journal-replay_of, get_last_checkpoint_id-newest,
}

-- A checkpoint of this name.
abbrev pub marks : Bytes → JournalEntry → Bool
marks c e = is_checkpoint e.type && e.uuid == c

abbrev pub LacksMark : Bytes → List JournalEntry → Type 0
LacksMark c = All (λ e. marks c e ≡ false)

-- The condition that the loops assert: a checkpoint of this name has no second one behind it.
unfoldable pub AtMostOne : Bytes → List JournalEntry → Type 0
AtMostOne c [] = Unit
AtMostOne c (e ∷ es) = (marks c e ≡ true → LacksMark c es) × AtMostOne c es

-- The entries in front of the only checkpoint of this name, the checkpoint, and the entries behind.
abbrev pub IsCut : Bytes → List JournalEntry → List JournalEntry → List JournalEntry → Type 0
IsCut c es front rest =
    (mark : JournalEntry) × (es ≡ front ++ mark ∷ rest)
    × (marks c mark ≡ true)
    × LacksMark c front
    × LacksMark c rest

after_checkpoint-IsCut :
    (c : Bytes) (es : List JournalEntry)
    → AtMostOne c es
    → ((front : List JournalEntry) × (rest : List JournalEntry) × (after_checkpoint c es
          ≡ some rest)
        × IsCut c es front rest)
      ⊎ (after_checkpoint c es ≡ none) × LacksMark c es
unfolding AtMostOne after_checkpoint
after_checkpoint-IsCut c [] once = inr (refl, tt)
after_checkpoint-IsCut c (e ∷ es) (alone, once) = elim (Bool-cases (marks c e)) [
  | inl here ↦ inl ([], es, rw here, (e, refl, here, tt, alone here))
  | inr on ↦ elim (after_checkpoint-IsCut c es once) [
    | inl (front, rest, found, (mark, cut, named, before, behind)) ↦
        inl (e ∷ front, rest, rw on found, (mark, ap (λ r. e ∷ r) cut, named, (on, before), behind))
    | inr (missing, lacks) ↦ inr (rw on missing, (on, lacks))
  ]
]

-- Under each identifier stands what the entries make of what stood there.
abbrev pub HasApplied : List JournalEntry → Store → Store → Type 0
HasApplied es s t = (k : Bytes) → find k t ≡ run (effects es k) (find k s)

abbrev pub OnceAsked : Option Bytes → List JournalEntry → Type 0
OnceAsked none es = Unit
OnceAsked (some c) es = AtMostOne c es

abbrev pub Replays : Option Bytes → List JournalEntry → Store → Bool × Store → Type 0
Replays none es s (done, t) = (done ≡ true) × HasApplied es s t
Replays (some c) es s (done, t) =
    (done ≡ true)
      × ((front : List JournalEntry) × (rest : List JournalEntry) × IsCut c es front rest
          × HasApplied rest s t)
    ⊎ (done ≡ false) × LacksMark c es × (t ≡ s)

replay_of-Replays :
    (last : Option Bytes) (es : List JournalEntry) (s : Store)
    → OnceAsked last es
    → Replays last es s (replay_of last es s)
replay_of-Replays none es s once = (refl, find-apply_all es s)
replay_of-Replays (some c) es s once = elim (after_checkpoint-IsCut c es once) [
  | inl (front, rest, found, cut) ↦ rw found (inl (refl, (front, rest, cut, find-apply_all rest s)))
  | inr (missing, lacks) ↦ rw missing (inr (refl, lacks, refl))
]

-- A replay of a readable journal of plain entries succeeds with every entry applied, in order:
-- under each identifier stands what the insertions, updates and removals of the journal make of
-- what stood there. A replay from a checkpoint that is named by an identifier that is not empty
-- applies in this way exactly the entries behind it; if the journal has no such checkpoint it
-- fails and changes nothing. Condition: the journal has no second checkpoint of this name, as the
-- code asserts.
pub replay_journal-journal_text :
    (a : Answers) (now : Bytes) (last : Option Bytes) (s : Store) (j : Journal) (d : Disk)
    (es : List JournalEntry)
    → IsReadable a
    → All IsPlain es
    → d.node j.path ≡ some (regular (journal_text es))
    → names_nothing last ≡ false
    → OnceAsked last es
    → Replays last es s (replay_journal a now last s j d)
replay_journal-journal_text a now last s j d es ra plain file named once =
    rw (replay_journal-replay_of a now last s j d es ra plain file named)
      (replay_of-Replays last es s once)

-- A last checkpoint of this name: there is none behind it.
abbrev pub IsLast : List JournalEntry → Bytes → Type 0
IsLast es c =
    (front : List JournalEntry) × (mark : JournalEntry) × (rest : List JournalEntry) × (es
      ≡ front ++ mark ∷ rest)
    × (is_checkpoint mark.type ≡ true)
    × (mark.uuid ≡ c)
    × NoCheckpoint rest

abbrev pub IsNewest : List JournalEntry → Option Bytes → Type 0
IsNewest es none = NoCheckpoint es
IsNewest es (some c) = IsLast es c

-- What the search has in hand is the last checkpoint, or there was none and it is what it was.
noted :
    (es : List JournalEntry) (last : Option Bytes)
    → ((c : Bytes) × (run_entries note_checkpoint es last ≡ some c) × IsLast es c)
      ⊎ NoCheckpoint es × (run_entries note_checkpoint es last ≡ last)
unfolding run_entries note_checkpoint
noted [] last = inr (tt, refl)
noted (e ∷ es) last = elim (noted es (note_checkpoint e last)) [
  | inl (c, found, (front, mark, rest, cut, named, name, more)) ↦
      inl (c, found, (e ∷ front, mark, rest, ap (λ r. e ∷ r) cut, named, name, more))
  | inr (no_more, same) ↦ elim (Bool-cases (is_checkpoint e.type)) [
    | inl mark ↦ inl (e.uuid, same ∙ rw mark refl, ([], e, es, refl, mark, refl, no_more))
    | inr other ↦ inr ((other, no_more), same ∙ rw other refl)
  ]
]

newest-IsNewest : (es : List JournalEntry) → IsNewest es (newest es)
newest-IsNewest es = elim (noted es none) [
  | inl (c, found, last) ↦ rw found last
  | inr (no_more, same) ↦ rw same no_more
]

-- With an empty cache and a readable journal of plain entries, the identifier that is found is
-- that of a checkpoint with no checkpoint behind it, or nothing is found and the journal has no
-- checkpoint; and what is found is cached.
pub get_last_checkpoint_id-journal_text :
    (a : Answers) (now : Bytes) (j : Journal) (d : Disk) (es : List JournalEntry)
    → IsReadable a
    → All IsPlain es
    → d.node j.path ≡ some (regular (journal_text es))
    → j.last_checkpoint_id ≡ none
    → let (found, j') = get_last_checkpoint_id a now j d in
      IsNewest es found × (j' ≡ record j { last_checkpoint_id = found })
get_last_checkpoint_id-journal_text a now j d es ra plain file empty =
    rw (get_last_checkpoint_id-newest a now j d es ra plain file empty) (newest-IsNewest es, refl)
