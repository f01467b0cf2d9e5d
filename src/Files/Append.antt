-- ===== src/Files/Append.antt =====
-- What `safeFileAppend` leaves in a file that is there, in a directory that is there.
use octet.Prelude.{
  ◌≡◌, sym, ap, ◌∙◌, ◌⊎◌, inl, inr, Bool, true, false, some, ◌++◌, append-nil, arith, ◌==◌, nat_eq,
  list_eq, list_beq_iff, if◌then◌else◌, Bool-cases, Bytes,
}
use octet.Disk.{FilePath, parent_path, directory, regular, Node, Disk, set_node, Answers}
use octet.FileChecks.{is_existing_directory, ensure_directory_exists}
use octet.Files.{safe_file_append, append_to}

-- The answers under which a call has its whole effect or none: a failed write leaves no byte behind,
-- a file is replaced by its rename, and the directory can be synchronised.
pub record IsAllOrNothing (a : Answers) : Type 0 where
  pub no_part : a.written ≡ 0
  pub renames : a.rename ≡ true
  pub syncs : a.fsync_directory ≡ true

pub ensure_directory_exists_there :
    (a : Answers) (dir : FilePath) (create : Bool) (d : Disk)
    → d.node dir ≡ some directory
    → (ensure_directory_exists a dir create d).1 ≡ d
unfolding ensure_directory_exists
ensure_directory_exists_there a dir create d h = ground arith

pub same_node :
    (p q : FilePath) (v : Node) (d : Disk)
    → d.node p ≡ some v
    → d.node q ≡ (if p == q then some v else d.node q)
same_node p q v d h = elim (Bool-cases (p == q)) [
  | inl e ↦ rw e (ap d.node (sym ((list_beq_iff p q).0 e)) ∙ h)
  | inr e ↦ rw e
]

append_to_node :
    (a : Answers) (p : FilePath) (bytes old : Bytes) (d : Disk) (q : FilePath)
    → IsAllOrNothing a
    → d.node q ≡ (if p == q then some (regular old) else d.node q)
    → (append_to a p old bytes d).1.node q ≡ (
        if p == q
        then some (regular (if (append_to a p old bytes d).0 then old ++ bytes else old))
        else d.node q)
unfolding append_to set_node
append_to_node a p bytes old d q h same = rw (h.no_part, append-nil old) (ground arith)

module _ (a : Answers) (p : FilePath) (bytes old : Bytes) (d : Disk)
    (dir : d.node (parent_path p) ≡ some directory) (file : d.node p ≡ some (regular old)) where
  -- The disk is as it was, or the file has grown by some first bytes of the text: by all of them if
  -- the call reports success.
  append_cases :
      (safe_file_append a p bytes d ≡ (false, d))
      ⊎ (safe_file_append a p bytes d ≡ append_to a p old bytes d)
  unfolding safe_file_append ensure_directory_exists is_existing_directory
  append_cases = ground arith

  -- With no partial write, and renames and directory synchronisations that succeed, an append to a
  -- file in a directory that is there has appended the text if it reports success, has changed
  -- nothing if it reports failure, and touches no other path.
  pub safe_file_append_node :
      (q : FilePath)
      → IsAllOrNothing a
      → (safe_file_append a p bytes d).1.node q ≡ (
          if p == q
          then some (regular (if (safe_file_append a p bytes d).0 then old ++ bytes else old))
          else d.node q)
  safe_file_append_node q h = elim append_cases [
    | inl e ↦ rw e (same_node p q (regular old) d file)
    | inr e ↦ rw e (append_to_node a p bytes old d q h (same_node p q (regular old) d file))
  ]

-- An append to a file in a directory that cannot be synchronised is reported as a failure, whatever
-- else succeeds.
pub safe_file_append_unsynced :
    (a : Answers) (p : FilePath) (bytes old : Bytes) (d : Disk)
    → a.fsync_directory ≡ false
    → d.node (parent_path p) ≡ some directory
    → d.node p ≡ some (regular old)
    → (safe_file_append a p bytes d).0 ≡ false
unfolding append_to
safe_file_append_unsynced a p bytes old d h dir file =
    elim (append_cases a p bytes old d dir file) [ inl e ↦ rw e | inr e ↦ rw e (ground arith) ]
