-- ===== src/Storage/Paths.antt =====
-- The operations work on the same files all the time.
use octet.Prelude.{◌≡◌, refl, ◌∙◌, inl, inr, arith, nat_eq, list_eq, Bool-cases, Bytes}
use octet.Disk.{Disk, Answers}
use octet.Map.{contains}
use octet.Journal.{Journal, write_operation, write_insert, write_update, write_remove}
use octet.Storage.{Storage, notify_operation, insert, update, remove, request_snapshot_async}

-- Two states work on the same files.
abbrev pub SameFiles : Storage → Storage → Type 0
SameFiles s t = (s.journal.path ≡ t.journal.path) × (s.snapshot_path ≡ t.snapshot_path)

notify-SameFiles : (s : Storage) → SameFiles (notify_operation s) s
unfolding notify_operation request_snapshot_async
notify-SameFiles s = ground arith

write_insert-path :
    (a : Answers) (now uuid data' : Bytes) (j : Journal) (d : Disk)
    → (write_insert a now uuid data' j d).1.path ≡ j.path
unfolding write_insert write_operation
write_insert-path a now uuid data' j d = ground arith

write_update-path :
    (a : Answers) (now uuid data' : Bytes) (j : Journal) (d : Disk)
    → (write_update a now uuid data' j d).1.path ≡ j.path
unfolding write_update write_operation
write_update-path a now uuid data' j d = ground arith

write_remove-path :
    (a : Answers) (now uuid : Bytes) (j : Journal) (d : Disk)
    → (write_remove a now uuid j d).1.path ≡ j.path
unfolding write_remove write_operation
write_remove-path a now uuid j d = ground arith

pub insert-SameFiles :
    (a : Answers) (now uuid data' : Bytes) (s : Storage) (d : Disk)
    → SameFiles (insert a now uuid data' s d).1 s
unfolding insert
insert-SameFiles a now uuid data' s d =
    let path = write_insert-path a now uuid data' s.journal d in
    elim (Bool-cases (write_insert a now uuid data' s.journal d).0) [
      | inl e ↦ (let (p, q) = notify-SameFiles _ in rw e (p ∙ path, q))
      | inr e ↦ rw e (path, refl)
    ]

pub update-SameFiles :
    (a : Answers) (now uuid data' : Bytes) (s : Storage) (d : Disk)
    → SameFiles (update a now uuid data' s d).1 s
unfolding update
update-SameFiles a now uuid data' s d = elim (Bool-cases (contains uuid s.data_store)) [
  | inr missing ↦ rw missing (refl, refl)
  | inl there ↦
      let path = write_update-path a now uuid data' s.journal d in
      elim (Bool-cases (write_update a now uuid data' s.journal d).0) [
        | inl e ↦ (let (p, q) = notify-SameFiles _ in rw there (rw e (p ∙ path, q)))
        | inr e ↦ rw there (rw e (path, refl))
      ]
]

pub remove-SameFiles :
    (a : Answers) (now uuid : Bytes) (s : Storage) (d : Disk)
    → SameFiles (remove a now uuid s d).1 s
unfolding remove
remove-SameFiles a now uuid s d = elim (Bool-cases (contains uuid s.data_store)) [
  | inr missing ↦ rw missing (refl, refl)
  | inl there ↦
      let path = write_remove-path a now uuid s.journal d in
      elim (Bool-cases (write_remove a now uuid s.journal d).0) [
        | inl e ↦ (let (p, q) = notify-SameFiles _ in rw there (rw e (p ∙ path, q)))
        | inr e ↦ rw there (rw e (path, refl))
      ]
]
