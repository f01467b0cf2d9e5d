-- ===== src/Storage/Logged.antt =====
-- The invariant that ties what is in memory to what is on disk.
use octet.Prelude.{
  ◌≡◌, sym, ap, ◌∙◌, ◌≢◌, false, Option, some, List, [], ◌∷◌, ◌++◌, append_assoc, ◌==◌, nat_eq,
  list_eq, beq_refl, beq_ne, if◌then◌else◌, Bytes, All, All-append,
}
use octet.Disk.{FilePath, parent_path, Node, directory, regular, Disk}
use octet.Map.{SameMap, find}
use octet.Entry.{JournalEntry, IsPlain}
use octet.Journal.{Store, apply_operation, is_checkpoint}
use octet.Journal.Text.{journal_text, run_entries, run_entries-append}
use octet.Journal.Effects.{apply_all, apply_all-SameMap}
use octet.Journal.Recovery.{NoCheckpoint}
use octet.Snapshot.{serialize_map, Fits}

-- The snapshot file, if there is one, holds what the entries so far had produced.
abbrev pub IsSnapshotOf : List JournalEntry → Option Node → Type 0
IsSnapshotOf old (some (regular bytes)) =
    (saved : Store) × (bytes ≡ serialize_map saved) × Fits saved × SameMap saved (apply_all old [])
IsSnapshotOf old _ = Unit

abbrev pub IsNamed : JournalEntry → Type 0
IsNamed e = (e.uuid == []) ≡ false

-- The journal holds the entries `old`, which the snapshot covers, and then the entries `tail`; the
-- store in memory is what all of them produce.
pub record IsLogged (store : Store) (journal_path snapshot_path : FilePath) (d : Disk)
    : Type 0 where
  pub old : List JournalEntry
  pub tail : List JournalEntry
  pub plain : All IsPlain (old ++ tail)
  pub named : All IsNamed (old ++ tail)
  pub ops_only : NoCheckpoint tail
  pub journal_dir : d.node (parent_path journal_path) ≡ some directory
  pub snapshot_dir : d.node (parent_path snapshot_path) ≡ some directory
  pub distinct : journal_path ≢ snapshot_path
  pub text : d.node journal_path ≡ some (regular (journal_text (old ++ tail)))
  pub held : SameMap store (apply_all (old ++ tail) [])
  pub snapshot : IsSnapshotOf old (d.node snapshot_path)

-- A file is no directory.
pub file-ne-directory :
    (d : Disk) (p q : FilePath) (bytes : Bytes)
    → d.node p ≡ some (regular bytes)
    → d.node q ≡ some directory
    → p ≢ q
file-ne-directory d p q bytes hp hq e = cc (ap d.node e)

pub apply_one_more :
    (es : List JournalEntry) (e : JournalEntry) (store store' : Store)
    → SameMap store (apply_all es [])
    → SameMap store' (apply_operation e store).1
    → SameMap store' (apply_all (es ++ e ∷ []) [])
unfolding run_entries
apply_one_more es e store store' held new k =
    new k
    ∙ apply_all-SameMap (e ∷ []) store (apply_all es []) held k
    ∙ ap (find k) (sym (run_entries-append (λ e s. (apply_operation e s).1) es (e ∷ []) []))

-- A disk on which only the file at `p` differs.
abbrev pub DiffersAt : FilePath → Bytes → Disk → Disk → Type 0
DiffersAt p bytes d d' =
    (q : FilePath) → d'.node q ≡ (if p == q then some (regular bytes) else d.node q)

module _ (p : FilePath) (bytes : Bytes) (d d' : Disk) (only : DiffersAt p bytes d d') where
  pub differs_here : d'.node p ≡ some (regular bytes)
  differs_here = only p ∙ rw (beq_refl p)

  pub differs_not_there : (q : FilePath) → p ≢ q → d'.node q ≡ d.node q
  differs_not_there q h = only q ∙ rw (beq_ne p q h)

-- One more entry at the end of the journal, and its effect in memory, keep the invariant.
module _ (store store' : Store) (jp sp : FilePath) (d d' : Disk) (e : JournalEntry)
    (h : IsLogged store jp sp d) (plain : IsPlain e) (named : IsNamed e)
    (only : DiffersAt jp (journal_text ((h.old ++ h.tail) ++ e ∷ [])) d d')
    (new : SameMap store' (apply_operation e store).1) where
  elsewhere : (q : FilePath) → jp ≢ q → d'.node q ≡ d.node q
  elsewhere = differs_not_there jp _ d d' only

  same_dir : (q : FilePath) → d.node q ≡ some directory → d'.node q ≡ some directory
  same_dir q hq = elsewhere q (file-ne-directory d jp q _ h.text hq) ∙ hq

  pub IsLogged-append : is_checkpoint e.type ≡ false → IsLogged store' jp sp d'
  IsLogged-append op = record {
    old = h.old;
    tail = h.tail ++ e ∷ [];
    plain =
        rw (← append_assoc h.old h.tail (e ∷ []))
          (All-append IsPlain (h.old ++ h.tail) (e ∷ []) h.plain (plain, tt));
    named =
        rw (← append_assoc h.old h.tail (e ∷ []))
          (All-append IsNamed (h.old ++ h.tail) (e ∷ []) h.named (named, tt));
    ops_only = All-append _ h.tail (e ∷ []) h.ops_only (op, tt);
    journal_dir = same_dir _ h.journal_dir;
    snapshot_dir = same_dir _ h.snapshot_dir;
    distinct = h.distinct;
    text = rw (← append_assoc h.old h.tail (e ∷ [])) (differs_here jp _ d d' only);
    held =
        rw (← append_assoc h.old h.tail (e ∷ []))
          (apply_one_more (h.old ++ h.tail) e store store' h.held new);
    snapshot = rw (elsewhere sp h.distinct) h.snapshot;
  }

-- A step that leaves the journal and the snapshot alone.
pub IsLogged-same :
    (store : Store) (jp sp : FilePath) (d d' : Disk) (h : IsLogged store jp sp d)
    → DiffersAt jp (journal_text (h.old ++ h.tail)) d d'
    → IsLogged store jp sp d'
IsLogged-same store jp sp d d' h only =
    let elsewhere = differs_not_there jp _ d d' only in
    record {
      old = h.old;
      tail = h.tail;
      plain = h.plain;
      named = h.named;
      ops_only = h.ops_only;
      journal_dir = elsewhere _ (file-ne-directory d jp _ _ h.text h.journal_dir) ∙ h.journal_dir;
      snapshot_dir =
          elsewhere _ (file-ne-directory d jp _ _ h.text h.snapshot_dir) ∙ h.snapshot_dir;
      distinct = h.distinct;
      text = differs_here jp _ d d' only;
      held = h.held;
      snapshot = rw (elsewhere sp h.distinct) h.snapshot;
    }
