-- ===== src/Storage/Contract.antt =====
-- The contract of the storage: its public operations are those of a finite map from identifiers to
-- texts, seen through `get`.
use octet.Prelude.{
  ◌≡◌, refl, ◌∙◌, fun_ext, ◌⊎◌, inl, inr, true, false, Option, none, some, arith, ◌==◌, nat_eq,
  list_eq, if◌then◌else◌, has_value, Bool-cases, Bytes,
}
use octet.Disk.{Disk, Answers}
use octet.Map.{contains, assign, erase, find-assign, find-erase}
use octet.Journal.{Journal, write_insert, write_update, write_remove}
use octet.Storage.{Storage, notify_operation, get, insert, update, remove, request_snapshot_async}

-- What a client sees of a storage.
abbrev pub view : Storage → Bytes → Option Bytes
view s k = get k s

abbrev pub put : Bytes → Bytes → (Bytes → Option Bytes) → Bytes → Option Bytes
put uuid data' f k = if uuid == k then some data' else f k

abbrev pub delete : Bytes → (Bytes → Option Bytes) → Bytes → Option Bytes
delete uuid f k = if uuid == k then none else f k

notify-view : (s : Storage) → view (notify_operation s) ≡ view s
unfolding notify_operation get request_snapshot_async
notify-view s = ground arith

stored :
    (s : Storage) (j : Journal) (uuid data' : Bytes)
    → view
        (notify_operation (record s { journal = j; data_store = assign uuid data' s.data_store }))
      ≡ put uuid data' (view s)
stored s j uuid data' =
    notify-view _ ∙ fun_ext (λ k. unfold get in find-assign uuid k data' s.data_store)

erased :
    (s : Storage) (j : Journal) (uuid : Bytes)
    → view (notify_operation (record s { journal = j; data_store = erase uuid s.data_store }))
      ≡ delete uuid (view s)
erased s j uuid = notify-view _ ∙ fun_ext (λ k. unfold get in find-erase uuid k s.data_store)

-- An insertion returns the identifier it was given by the generator, and then the storage holds
-- the data under it and everything else as before; or it returns nothing and the storage holds
-- what it held before.
pub insert-refines :
    (a : Answers) (now uuid data' : Bytes) (s : Storage) (d : Disk)
    → ((insert a now uuid data' s d).0 ≡ some uuid)
        × (view (insert a now uuid data' s d).1 ≡ put uuid data' (view s))
      ⊎ ((insert a now uuid data' s d).0 ≡ none) × (view (insert a now uuid data' s d).1 ≡ view s)
unfolding insert get
insert-refines a now uuid data' s d =
    elim (Bool-cases (write_insert a now uuid data' s.journal d).0) [
      | inl e ↦ rw e (inl (refl, stored s _ uuid data'))
      | inr e ↦ rw e (inr (refl, refl))
    ]

-- An update that succeeds is of an identifier that was there, and then the data under it is the
-- new one and everything else as before; in every other case it fails and the storage holds what
-- it held before.
pub update-refines :
    (a : Answers) (now uuid data' : Bytes) (s : Storage) (d : Disk)
    → ((update a now uuid data' s d).0 ≡ true)
        × (has_value (view s uuid) ≡ true)
        × (view (update a now uuid data' s d).1 ≡ put uuid data' (view s))
      ⊎ ((update a now uuid data' s d).0 ≡ false) × (view (update a now uuid data' s d).1 ≡ view s)
unfolding update get
update-refines a now uuid data' s d = elim (Bool-cases (contains uuid s.data_store)) [
  | inl there ↦ elim (Bool-cases (write_update a now uuid data' s.journal d).0) [
    | inl e ↦ rw (there, e) (inl (refl, refl, stored s _ uuid data'))
    | inr e ↦ rw (there, e) (inr (refl, refl))
  ]
  | inr missing ↦ rw missing (inr (refl, refl))
]

-- A removal that succeeds is of an identifier that was there, and then nothing is under it and
-- everything else is as before; in every other case it fails and the storage holds what it held
-- before.
pub remove-refines :
    (a : Answers) (now uuid : Bytes) (s : Storage) (d : Disk)
    → ((remove a now uuid s d).0 ≡ true)
        × (has_value (view s uuid) ≡ true)
        × (view (remove a now uuid s d).1 ≡ delete uuid (view s))
      ⊎ ((remove a now uuid s d).0 ≡ false) × (view (remove a now uuid s d).1 ≡ view s)
unfolding remove get
remove-refines a now uuid s d = elim (Bool-cases (contains uuid s.data_store)) [
  | inl there ↦ elim (Bool-cases (write_remove a now uuid s.journal d).0) [
    | inl e ↦ rw (there, e) (inl (refl, refl, erased s _ uuid))
    | inr e ↦ rw (there, e) (inr (refl, refl))
  ]
  | inr missing ↦ rw missing (inr (refl, refl))
]
