-- ===== src/Files/Effects.antt =====
-- What `atomicFileWrite` and `safeFileRead` do when the answers are all or nothing.
use octet.Prelude.{
  ◌≡◌, ap, ◌∙◌, ◌≢◌, inl, inr, true, false, some, arith, ◌==◌, nat_eq, list_eq, list_beq_iff,
  beq_refl, beq_ne, Bool-cases, Bytes,
}
use octet.Disk.{
  FilePath, parent_path, directory, regular, Disk, set_node, exists, content, set_node, Answers,
  LockMode, shared,
}
use octet.FileChecks.{is_existing_directory}
use octet.Files.{atomic_file_write, write_temp, replace_file, rename, safe_file_read}
use octet.Files.Append.{IsAllOrNothing}
use octet.Files.Replace.{atomic_cases, attempt}

module _ (a : Answers) (p : FilePath) (bytes : Bytes) (d : Disk)
    (dir : d.node (parent_path p) ≡ some directory) (h : IsAllOrNothing a) where
  attempt_elsewhere :
      (t q : FilePath) → t ≢ q → p ≢ q → (attempt a p bytes d dir t).1.node q ≡ d.node q
  unfolding write_temp replace_file rename set_node
  attempt_elsewhere t q tq pq = ground (arith, beq_ne t q tq, beq_ne p q pq, h.renames)

  attempt_failed :
      (t : FilePath)
      → t ≢ p
      → (attempt a p bytes d dir t).0 ≡ false
      → (attempt a p bytes d dir t).1.node p ≡ d.node p
  unfolding write_temp replace_file rename set_node
  attempt_failed t tp e = ground (arith, beq_ne t p tp, beq_refl p, h.renames, h.syncs)

  -- Another path that is in use is not touched.
  pub atomic_file_write_elsewhere :
      (q : FilePath)
      → exists d q ≡ true
      → p ≢ q
      → (atomic_file_write a p bytes d).1.node q ≡ d.node q
  atomic_file_write_elsewhere q there pq = elim (atomic_cases a p bytes d dir) [
    | inl e ↦ rw e
    | inr (t, free, tp, e) ↦ rw e (attempt_elsewhere t q (λ tq. cc (ap (exists d) tq)) pq)
  ]

  -- A call that reports failure has left the target as it was.
  pub atomic_file_write_failed :
      (atomic_file_write a p bytes d).0 ≡ false
      → (atomic_file_write a p bytes d).1.node p ≡ d.node p
  atomic_file_write_failed f = elim (atomic_cases a p bytes d dir) [
    | inl e ↦ rw e
    | inr (t, free, tp, e) ↦ rw e (attempt_failed t tp (rw e at f))
  ]

-- The answers under which a file can be read.
pub record IsReadable (a : Answers) : Type 0 where
  pub status : a.status ≡ true
  pub status_ec : a.status_ec ≡ true
  pub locks : (p : FilePath) (m : LockMode) → a.lock p m ≡ true
  pub open_in : a.open_in ≡ true
  pub size_known : a.size_known ≡ true
  pub read_all : a.read_all ≡ true

pub safe_file_read_file :
    (a : Answers) (p : FilePath) (bytes : Bytes) (d : Disk)
    → IsReadable a
    → d.node p ≡ some (regular bytes)
    → safe_file_read a p d ≡ some bytes
unfolding safe_file_read
safe_file_read_file a p bytes d h file = ground (arith, h.locks p shared)

-- What is read is what the file holds.
pub safe_file_read-content :
    (a : Answers) (p : FilePath) (bytes : Bytes) (d : Disk)
    → safe_file_read a p d ≡ some bytes
    → content d p ≡ some bytes
unfolding safe_file_read
safe_file_read-content a p bytes d h = ground arith

-- A directory is not replaced.
pub atomic_file_write_at_directory :
    (a : Answers) (p : FilePath) (bytes : Bytes) (d : Disk)
    → d.node p ≡ some directory
    → atomic_file_write a p bytes d ≡ (false, d)
unfolding atomic_file_write is_existing_directory
atomic_file_write_at_directory a p bytes d h = ground arith

-- So every directory is still there after a call.
pub atomic_file_write_keeps_directory :
    (a : Answers) (p q : FilePath) (bytes : Bytes) (d : Disk)
    → d.node (parent_path p) ≡ some directory
    → IsAllOrNothing a
    → d.node q ≡ some directory
    → (atomic_file_write a p bytes d).1.node q ≡ some directory
atomic_file_write_keeps_directory a p q bytes d dir whole h = elim (Bool-cases (p == q)) [
  | inl e ↦
      let same : p ≡ q = (list_beq_iff p q).0 e in
      rw (atomic_file_write_at_directory a p bytes d (ap d.node same ∙ h)) h
  | inr e ↦
      atomic_file_write_elsewhere a p bytes d dir whole q (rw h)
        (λ same. cc (e, (list_beq_iff p q).1 same))
      ∙ h
]
