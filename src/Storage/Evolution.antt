-- ===== src/Storage/Evolution.antt =====
-- What sequences of calls do to the map, and what changes elsewhere on the disk do not.
use octet.Prelude.{◌≡◌, refl, sym, subst, ◌∙◌, ◌≢◌, inl, inr, Option, nat_eq, list_eq, Bytes}
use octet.Disk.{FilePath, parent_path, Disk}
use octet.Storage.{Storage}
use octet.Storage.Contract.{view, put, delete, insert-refines, update-refines, remove-refines}
use octet.Storage.Kept.{IsKept}
use octet.Storage.Paths.{SameFiles, insert-SameFiles, update-SameFiles, remove-SameFiles}
use octet.Storage.Unchanged.{create_snapshot-IsSame}
use octet.Storage.Runs.{
  Call, call_insert, call_update, call_remove, call_snapshot, perform, Reach, here, next,
}

-- The maps that strings put and removed lead to.
pub data Evolves (v : Bytes → Option Bytes) : (Bytes → Option Bytes) → Type 0 where
  as_before : Evolves v v
  with_put :
      {v' : Bytes → Option Bytes}
      → Evolves v v'
      → (uuid data' : Bytes) → Evolves v (put uuid data' v')
  with_delete :
      {v' : Bytes → Option Bytes} → Evolves v v' → (uuid : Bytes) → Evolves v (delete uuid v')

module _ (v : Bytes → Option Bytes) (s : Storage) (d : Disk) (h : Evolves v (view s)) where
  perform-Evolves : (c : Call) → Evolves v (view (perform c (s, d)).0)
  unfolding perform
  perform-Evolves (call_insert a now uuid data') = elim (insert-refines a now uuid data' s d) [
    | inl (done, new) ↦ rw new (with_put h uuid data')
    | inr (bad, old) ↦ rw old h
  ]
  perform-Evolves (call_update a now uuid data') = elim (update-refines a now uuid data' s d) [
    | inl (done, there, new) ↦ rw new (with_put h uuid data')
    | inr (bad, old) ↦ rw old h
  ]
  perform-Evolves (call_remove a now uuid) = elim (remove-refines a now uuid s d) [
    | inl (done, there, new) ↦ rw new (with_delete h uuid)
    | inr (bad, old) ↦ rw old h
  ]
  perform-Evolves (call_snapshot a b now time id) =
      subst (Evolves v) (sym (create_snapshot-IsSame a b now id time s d).0) h

perform-SameFiles : (c : Call) (s : Storage) (d : Disk) → SameFiles (perform c (s, d)).0 s
unfolding perform
perform-SameFiles (call_insert a now uuid data') s d = insert-SameFiles a now uuid data' s d
perform-SameFiles (call_update a now uuid data') s d = update-SameFiles a now uuid data' s d
perform-SameFiles (call_remove a now uuid) s d = remove-SameFiles a now uuid s d
perform-SameFiles (call_snapshot a b now time id) s d =
    let (_, journal, snapshot) = create_snapshot-IsSame a b now id time s d in (journal, snapshot)

pub Reach-Evolves :
    {s : Storage} {d : Disk} {t : Storage} {e : Disk} (v : Bytes → Option Bytes)
    → Reach s d t e
    → Evolves v (view s)
    → Evolves v (view t)
Reach-Evolves v here h = h
Reach-Evolves v (next {s'} {d'} before c _) h = perform-Evolves v s' d' (Reach-Evolves v before h) c

pub Reach-SameFiles :
    {s : Storage} {d : Disk} {t : Storage} {e : Disk} → Reach s d t e → SameFiles t s
Reach-SameFiles here = (refl, refl)
Reach-SameFiles (next {s'} {d'} before c _) =
    let (journal, snapshot) = perform-SameFiles c s' d' in
    let (journal', snapshot') = Reach-SameFiles before in (journal ∙ journal', snapshot ∙ snapshot')

-- Both disks have the same at the files of a storage and at their directories.
abbrev pub SameAt : Storage → Disk → Disk → Type 0
SameAt s d d' =
    (d'.node s.journal.path ≡ d.node s.journal.path)
    × (d'.node s.snapshot_path ≡ d.node s.snapshot_path)
    × (d'.node (parent_path s.journal.path) ≡ d.node (parent_path s.journal.path))
    × (d'.node (parent_path s.snapshot_path) ≡ d.node (parent_path s.snapshot_path))

pub IsKept-elsewhere : (s : Storage) (d d' : Disk) → SameAt s d d' → IsKept s d → IsKept s d'
IsKept-elsewhere s d d' (journal, snapshot, journal_dir, snapshot_dir) (h, keyed) = (
  record {
    old = h.old;
    tail = h.tail;
    plain = h.plain;
    named = h.named;
    ops_only = h.ops_only;
    journal_dir = journal_dir ∙ h.journal_dir;
    snapshot_dir = snapshot_dir ∙ h.snapshot_dir;
    distinct = h.distinct;
    text = journal ∙ h.text;
    held = h.held;
    snapshot = rw snapshot h.snapshot;
  },
  keyed,
)

-- A path that is none of these.
abbrev pub IsApart : FilePath → Storage → Type 0
IsApart p s =
    (p ≢ s.journal.path)
    × (p ≢ s.snapshot_path)
    × (p ≢ parent_path s.journal.path)
    × (p ≢ parent_path s.snapshot_path)

pub SameAt-except :
    (p : FilePath) (s : Storage) (d d' : Disk)
    → ((q : FilePath) → p ≢ q → d'.node q ≡ d.node q)
    → IsApart p s
    → SameAt s d d'
SameAt-except p s d d' only (journal, snapshot, journal_dir, snapshot_dir) =
    (only _ journal, only _ snapshot, only _ journal_dir, only _ snapshot_dir)
