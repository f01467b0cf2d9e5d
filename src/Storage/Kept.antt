-- ===== src/Storage/Kept.antt =====
-- What a call of the storage keeps: memory and disk stay in agreement, and the journal can hold every
-- identifier of the storage.
use octet.Prelude.{
  ◌≡◌, refl, sym, subst, inl, inr, true, false, Option, ◌==◌, nat_eq, list_eq, has_value,
  Bool-cases, Bytes,
}
use octet.Disk.{Disk, Answers}
use octet.Files.Append.{IsAllOrNothing}
use octet.Storage
use octet.Storage.{Storage}
use octet.Storage.Contract.{view, put, delete, insert-refines, update-refines, remove-refines}
use octet.Storage.Durable.{IsId, IsStamp, IsDurable}
use octet.Storage.Runs.{
  call_insert, call_update, call_remove, perform, Reach, next, Reach-IsDurable,
}

-- The identifiers of the storage are such that the journal can hold them.
abbrev pub IsKeyed : (Bytes → Option Bytes) → Type 0
IsKeyed f = (uuid : Bytes) → has_value (f uuid) ≡ true → IsId uuid

-- The answers of a call, the identifier it draws, and the clock's text.
abbrev pub IsSoundFor : Answers → Bytes → Bytes → Type 0
IsSoundFor a new_uuid now = IsAllOrNothing a × IsId new_uuid × IsStamp now

-- Sound calls have led from the first storage to the second.
abbrev pub Kept : Storage → Disk → Storage → Disk → Type 0
Kept s d t e = Reach s d t e × IsKeyed (view t)

-- Memory and disk agree, and the journal can hold the identifiers.
abbrev pub IsKept : Storage → Disk → Type 0
IsKept s d = IsDurable s d × IsKeyed (view s)

pub Kept-IsKept : {s t : Storage} {d e : Disk} → Kept s d t e → IsDurable s d → IsKept t e
Kept-IsKept (reach, keyed) durable = (Reach-IsDurable reach durable, keyed)

put-IsKeyed :
    (uuid data' : Bytes) (f : Bytes → Option Bytes)
    → IsId uuid
    → IsKeyed f
    → IsKeyed (put uuid data' f)
put-IsKeyed uuid data' f id keyed k = elim (Bool-cases (uuid == k)) [
  | inl same ↦ (λ h. subst IsId ((list_eq.same_iff uuid k).0 same) id)
  | inr other ↦ rw other (keyed k)
]

delete-IsKeyed : (uuid : Bytes) (f : Bytes → Option Bytes) → IsKeyed f → IsKeyed (delete uuid f)
delete-IsKeyed uuid f keyed k = elim (Bool-cases (uuid == k)) [
  | inl same ↦ rw same (λ h. cc)
  | inr other ↦ rw other (keyed k)
]

pub same-IsKeyed : {f g : Bytes → Option Bytes} → g ≡ f → IsKeyed f → IsKeyed g
same-IsKeyed e keyed = rw e keyed

insert-IsKeyed :
    (a : Answers) (now uuid data' : Bytes) (s : Storage) (d : Disk)
    → IsId uuid
    → IsKeyed (view s)
    → IsKeyed (view (Storage.insert a now uuid data' s d).1)
insert-IsKeyed a now uuid data' s d id keyed = elim (insert-refines a now uuid data' s d) [
  | inl (ok, new) ↦ same-IsKeyed new (put-IsKeyed uuid data' (view s) id keyed)
  | inr (failed, old) ↦ same-IsKeyed old keyed
]

update-IsKeyed :
    (a : Answers) (now uuid data' : Bytes) (s : Storage) (d : Disk)
    → IsKeyed (view s)
    → IsKeyed (view (Storage.update a now uuid data' s d).1)
update-IsKeyed a now uuid data' s d keyed = elim (update-refines a now uuid data' s d) [
  | inl (ok, there, new) ↦
      same-IsKeyed new (put-IsKeyed uuid data' (view s) (keyed uuid there) keyed)
  | inr (failed, old) ↦ same-IsKeyed old keyed
]

remove-IsKeyed :
    (a : Answers) (now uuid : Bytes) (s : Storage) (d : Disk)
    → IsKeyed (view s)
    → IsKeyed (view (Storage.remove a now uuid s d).1)
remove-IsKeyed a now uuid s d keyed = elim (remove-refines a now uuid s d) [
  | inl (ok, there, new) ↦ same-IsKeyed new (delete-IsKeyed uuid (view s) keyed)
  | inr (failed, old) ↦ same-IsKeyed old keyed
]

update-missing :
    (a : Answers) (now uuid data' : Bytes) (s : Storage) (d : Disk)
    → has_value (view s uuid) ≡ false
    → Storage.update a now uuid data' s d ≡ (false, s, d)
unfolding Storage.update Storage.get
update-missing a now uuid data' s d missing = rw missing refl

remove-missing :
    (a : Answers) (now uuid : Bytes) (s : Storage) (d : Disk)
    → has_value (view s uuid) ≡ false
    → Storage.remove a now uuid s d ≡ (false, s, d)
unfolding Storage.remove Storage.get
remove-missing a now uuid s d missing = rw missing refl

module _ (s0 : Storage) (d0 : Disk) where
  pub insert-Kept :
      (a : Answers) (now new_uuid : Bytes) (data' : Bytes) (s : Storage) (d : Disk)
      → IsSoundFor a new_uuid now
      → Kept s0 d0 s d
      → Kept s0 d0
          (Storage.insert a now new_uuid data' s d).1
          (Storage.insert a now new_uuid data' s d).2
  insert-Kept a now new_uuid data' s d sound (reach, keyed) = (
    (unfold perform in next reach (call_insert a now new_uuid data') sound),
    insert-IsKeyed a now new_uuid data' s d sound.1 keyed,
  )

  pub update-Kept :
      (a : Answers) (now new_uuid : Bytes) (uuid data' : Bytes) (s : Storage) (d : Disk)
      → IsSoundFor a new_uuid now
      → Kept s0 d0 s d
      → Kept s0 d0 (Storage.update a now uuid data' s d).1 (Storage.update a now uuid data' s d).2
  update-Kept a now new_uuid uuid data' s d (whole, id, stamp) (reach, keyed) =
      elim (Bool-cases (has_value (view s uuid))) [
        | inl there ↦ (
          (unfold perform in
              next reach (call_update a now uuid data') (whole, keyed uuid there, stamp)),
          update-IsKeyed a now uuid data' s d keyed,
        )
        | inr missing ↦
            subst (λ x. Kept s0 d0 (x.1) (x.2)) (sym (update-missing a now uuid data' s d missing))
              (reach, keyed)
      ]

  pub remove-Kept :
      (a : Answers) (now new_uuid : Bytes) (uuid : Bytes) (s : Storage) (d : Disk)
      → IsSoundFor a new_uuid now
      → Kept s0 d0 s d
      → Kept s0 d0 (Storage.remove a now uuid s d).1 (Storage.remove a now uuid s d).2
  remove-Kept a now new_uuid uuid s d (whole, id, stamp) (reach, keyed) =
      elim (Bool-cases (has_value (view s uuid))) [
        | inl there ↦ (
          (unfold perform in next reach (call_remove a now uuid) (whole, keyed uuid there, stamp)),
          remove-IsKeyed a now uuid s d keyed,
        )
        | inr missing ↦
            subst (λ x. Kept s0 d0 (x.1) (x.2)) (sym (remove-missing a now uuid s d missing))
              (reach, keyed)
      ]
