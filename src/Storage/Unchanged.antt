-- ===== src/Storage/Unchanged.antt =====
-- What a snapshot leaves as it is: the strings and the paths.
use octet.Prelude.{
  ℕ, ◌≡◌, refl, ◌∙◌, inl, inr, true, false, Option, none, some, arith, nat_eq, list_eq, Bool-cases,
  Bytes,
}
use octet.Disk.{Disk, Answers}
use octet.Journal.{Journal, write_checkpoint, write_operation}
use octet.Storage.{Storage, get, create_snapshot, finish_snapshot, write_snapshot_to_disk}
use octet.Storage.Contract.{view}
use octet.Storage.Lifecycle.{
  Round, Closing, woken, take_snapshot, destroy, snapshot_round, should_create,
}

-- The strings are the same, and the files.
abbrev pub IsSame : Storage → Storage → Type 0
IsSame t s =
    (view t ≡ view s) × (t.journal.path ≡ s.journal.path) × (t.snapshot_path ≡ s.snapshot_path)

write_checkpoint-path :
    (b : Answers) (now id : Bytes) (j : Journal) (d : Disk)
    → (write_checkpoint b now id j d).1.path ≡ j.path
unfolding write_checkpoint write_operation
write_checkpoint-path b now id j d = ground arith

pub create_snapshot-IsSame :
    (a b : Answers) (now id : Bytes) (time : ℕ) (s : Storage) (d : Disk)
    → IsSame (create_snapshot a b now time id s d).1 s
unfolding create_snapshot finish_snapshot get
create_snapshot-IsSame a b now id time s d =
    let saved = write_snapshot_to_disk a s.data_store s d in
    let path = write_checkpoint-path b now id s.journal (saved.1) in
    elim (Bool-cases (saved.0)) [
      | inr missed ↦ rw missed (refl, refl, refl)
      | inl kept ↦ elim (Bool-cases (write_checkpoint b now id s.journal (saved.1)).0) [
        | inl done ↦ rw kept (rw done (refl, path, refl))
        | inr bad ↦ rw kept (rw bad (refl, path, refl))
      ]
    ]

pub snapshot_round-IsSame : (r : Round) (s : Storage) (d : Disk) → IsSame (snapshot_round r s d).0 s
unfolding snapshot_round take_snapshot
snapshot_round-IsSame r s d = elim (Bool-cases (should_create r s)) [
  | inl due ↦
      let (seen, journal, snapshot) =
        create_snapshot-IsSame r.write_answers r.journal_answers r.now r.snapshot_id r.time
          (record s { snapshot_requested = false }) d in
      rw due (seen ∙ unfold get in refl, journal, snapshot)
  | inr no_need ↦ rw no_need (unfold get in refl, refl, refl)
]

woken-IsSame :
    (o : Option Round) (s : Storage) (d : Disk)
    → IsSame (woken o (record s { shutdown_requested = true }) d).0 s
unfolding woken
woken-IsSame none s d = (unfold get in refl, refl, refl)
woken-IsSame (some r) s d =
    let (seen, journal, snapshot) =
      snapshot_round-IsSame r (record s { shutdown_requested = true }) d in
    (seen ∙ unfold get in refl, journal, snapshot)

pub destroy-IsSame : (c : Closing) (s : Storage) (d : Disk) → IsSame (destroy c s d).0 s
unfolding destroy take_snapshot
destroy-IsSame c s d =
    let r = c.last_round in
    let (s', d') = woken c.waking (record s { shutdown_requested = true }) d in
    let (seen, journal, snapshot) =
      create_snapshot-IsSame r.write_answers r.journal_answers r.now r.snapshot_id r.time s' d' in
    let (seen', journal', snapshot') = woken-IsSame c.waking s d in
    (seen ∙ seen', journal ∙ journal', snapshot ∙ snapshot')
