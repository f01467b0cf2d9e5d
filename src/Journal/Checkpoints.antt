-- ===== src/Journal/Checkpoints.antt =====
-- Where a replay begins: the entries behind the first checkpoint of a given identifier, and the
-- last checkpoint of a journal.
use octet.Prelude.{
  ◌≡◌, refl, ap, ◌∙◌, inl, inr, Bool, true, false, ◌&&◌, Option, none, some, List, [], ◌∷◌, arith,
  ◌==◌, nat_eq, list_eq, if◌then◌else◌, Bool-cases, Bytes, All,
}
use octet.Entry.{OperationType, insert, update, remove, checkpoint, JournalEntry, IsPlain}
use octet.Journal.{
  Store, Replay, apply_operation, is_checkpoint, replay_entry, replay_content, replay_result,
}
use octet.Journal.Text.{run_entries, journal_text, each_line-journal_text}
use octet.Journal.Effects.{apply_all}

unfoldable pub after_checkpoint : Bytes → List JournalEntry → Option (List JournalEntry)
after_checkpoint c [] = none
after_checkpoint c (e ∷ es) =
    if is_checkpoint e.type && e.uuid == c then some es else after_checkpoint c es

-- Behind the checkpoint every entry is applied; a checkpoint itself applies nothing.
found_typed :
    (c : Bytes) (t : OperationType) (u v ts : Bytes) (s : Store)
    → replay_entry
        (some c)
        (record { type = t; uuid = u; data' = v; timestamp = ts })
        (record { found_checkpoint = true; data_store = s })
      ≡ record {
        found_checkpoint = true;
        data_store =
            (apply_operation (record { type = t; uuid = u; data' = v; timestamp = ts }) s).1;
      }
unfolding replay_entry apply_operation
found_typed c checkpoint u v ts s = ground arith
found_typed c insert u v ts s = refl
found_typed c update u v ts s = refl
found_typed c remove u v ts s = refl

abbrev searching : Store → Replay
searching s = record { found_checkpoint = false; data_store = s }

abbrev behind : Store → List JournalEntry → Replay
behind s es = record { found_checkpoint = true; data_store = apply_all es s }

replay_found :
    (c : Bytes) (es : List JournalEntry) (s : Store)
    → run_entries (replay_entry (some c)) es (behind s []) ≡ behind s es
unfolding run_entries
replay_found c [] s = refl
replay_found c (e ∷ es) s =
    ap (run_entries (replay_entry (some c)) es) (found_typed c e.type e.uuid e.data' e.timestamp s)
    ∙ replay_found c es (apply_operation e s).1

abbrev pub replayed : Store → Option (List JournalEntry) → Replay
replayed s none = searching s
replayed s (some es) = behind s es

searching_step :
    (c : Bytes) (e : JournalEntry) (s : Store)
    → replay_entry (some c) e (searching s)
      ≡ (if is_checkpoint e.type && e.uuid == c then behind s [] else searching s)
unfolding replay_entry run_entries
searching_step c e s = ground arith

replay_searching :
    (c : Bytes) (es : List JournalEntry) (s : Store)
    → run_entries (replay_entry (some c)) es (searching s) ≡ replayed s (after_checkpoint c es)
unfolding run_entries after_checkpoint
replay_searching c [] s = refl
replay_searching c (e ∷ es) s = elim (Bool-cases (is_checkpoint e.type && e.uuid == c)) [
  | inl h ↦ rw (searching_step c e s) (rw h (replay_found c es s))
  | inr h ↦ rw (searching_step c e s) (rw h (replay_searching c es s))
]

replay_all :
    (es : List JournalEntry) (s : Store)
    → run_entries (replay_entry none) es (searching s)
      ≡ record { found_checkpoint = false; data_store = apply_all es s }
unfolding run_entries replay_entry
replay_all [] s = refl
replay_all (e ∷ es) s = replay_all es (apply_operation e s).1

-- What a replay from `last` is to make of a journal with these entries.
abbrev pub from_checkpoint : List JournalEntry → Store → Option (List JournalEntry) → Bool × Store
from_checkpoint es s none = (false, s)
from_checkpoint es s (some rest) = (true, apply_all rest s)

abbrev pub replay_of : Option Bytes → List JournalEntry → Store → Bool × Store
replay_of none es s = (true, apply_all es s)
replay_of (some c) es s = from_checkpoint es s (after_checkpoint c es)

pub replay_content-none :
    (now : Bytes) (es : List JournalEntry) (s : Store)
    → All IsPlain es
    → replay_result none (replay_content now none (journal_text es) s) ≡ replay_of none es s
unfolding replay_content replay_result
replay_content-none now es s h =
    rw (each_line-journal_text now (replay_entry none) es (searching s) h) (rw replay_all)

pub replay_content_some :
    (now c : Bytes) (es : List JournalEntry) (s : Store)
    → All IsPlain es
    → replay_result (some c) (replay_content now (some c) (journal_text es) s)
      ≡ replay_of (some c) es s
unfolding replay_content replay_result
replay_content_some now c es s h =
    rw (each_line-journal_text now (replay_entry (some c)) es (searching s) h)
      (rw replay_searching (both (after_checkpoint c es)))
  where
    both :
        (o : Option (List JournalEntry))
        → replay_result (some c) (replayed s o) ≡ from_checkpoint es s o
    both none = refl
    both (some rest) = refl
