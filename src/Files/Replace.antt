-- ===== src/Files/Replace.antt =====
-- `atomicFileWrite`: what stands at the target, and elsewhere, after a call.
use octet.Prelude.{
  ◌≡◌, refl, sym, ap, ◌∙◌, ◌≢◌, ◌⊎◌, inl, inr, Bool, true, false, ◌&&◌, Option, none, some, arith,
  ◌==◌, nat_eq, list_eq, beq_refl, beq_ne, if◌then◌else◌, has_value, Bool-cases, Option-cases,
  Bytes,
}
use octet.Disk.{
  FilePath, parent_path, directory, regular, Node, Disk, exists, set_node, node-set_node_self,
  node-set_node_ne, Answers,
}
use octet.FileChecks.Names.{get_temp_file_path_free, get_backup_file_path_free}
use octet.FileChecks.{
  is_existing_directory, ensure_directory_exists, get_temp_file_path, get_backup_file_path,
  do_create_file_backup, is_file_readable,
}
use octet.Files.{
  atomic_file_write, write_and_replace, write_temp, replace_file, rename, replace_by_force,
  replace_with, replace_over_backup,
}

-- What one attempt leaves at the target when it goes by `rename`, and everywhere else.
module _ (a : Answers) (p : FilePath) (bytes : Bytes) (d : Disk)
    (dir : d.node (parent_path p) ≡ some directory) where
  -- What `write_and_replace` does under the name that it found.
  abbrev pub attempt : FilePath → Bool × Disk
  attempt t =
      let (whole, d') = write_temp a t bytes d in
      if whole then replace_file a t p d' else (false, d')

  reaches :
      (atomic_file_write a p bytes d ≡ (false, d))
      ⊎ (atomic_file_write a p bytes d ≡ write_and_replace a p bytes d)
  unfolding atomic_file_write ensure_directory_exists is_existing_directory
  reaches = ground arith

  pub atomic_cases :
      (atomic_file_write a p bytes d ≡ (false, d))
      ⊎ ((t : FilePath) × (exists d t ≡ false)
          × (t ≢ p)
          × (atomic_file_write a p bytes d ≡ attempt t))
  unfolding write_and_replace
  atomic_cases = elim reaches [
    | inl e ↦ inl e
    | inr e ↦ elim (Option-cases (get_temp_file_path d p a.random_ids)) [
      | inl f ↦ inl (rw e (rw (f, write_and_replace)))
      | inr (t, f) ↦
          let (free, other) = get_temp_file_path_free d p a.random_ids t f in
          inr (t, free, other, rw e (rw (f, write_and_replace)))
    ]
  ]

-- A backup is made under a free name or not at all.
backup_cases :
    (a : Answers) (p : FilePath) (d : Disk)
    → (do_create_file_backup a p d ≡ (none, d))
      ⊎ ((b : FilePath) × (exists d b ≡ false)
          × (b ≢ p)
          × (do_create_file_backup a p d
              ≡ ((if a.fsync_directory then some b else none), set_node b (d.node p) d)))
unfolding do_create_file_backup
backup_cases a p d = elim (Option-cases (get_backup_file_path d p a.times)) [
  | inl e ↦ inl (rw e (ground arith))
  | inr (b, e) ↦ elim (Bool-cases (is_file_readable a p d && a.copy_backup)) [
    | inl h ↦
        let (free, other) = get_backup_file_path_free d p a.times b e in
        inr (b, free, other, rw e (ground arith))
    | inr h ↦ inl (rw e (ground arith))
  ]
]

-- The three ways in which a call can leave the target: it has the new text, it is as it was, or the
-- restoring failed and a backup has what was there.
module _ (a : Answers) (p : FilePath) (bytes : Bytes) (old : Option Node) where
  abbrev pub Kept : Disk → Type 0
  Kept d =
      (d.node p ≡ some (regular bytes))
      ⊎ (d.node p ≡ old)
      ⊎ ((backup : FilePath) × (a.restore ≡ false) × (d.node backup ≡ old))

  abbrev pub Safe : Bool × Disk → Type 0
  Safe r = (r.0 ≡ true → r.1.node p ≡ some (regular bytes)) × Kept r.1

  replace_over_backup-Safe :
      (t b : FilePath) (d : Disk)
      → (t == p) ≡ false
      → (t == b) ≡ false
      → (p == b) ≡ false
      → (p == t) ≡ false
      → (b == p) ≡ false
      → (p == p) ≡ true
      → d.node t ≡ some (regular bytes)
      → d.node p ≡ old
      → d.node b ≡ old
      → has_value old ≡ true
      → Safe (replace_over_backup a t p b d)
  unfolding replace_over_backup rename set_node
  replace_over_backup-Safe t b d tp tb pb pt bp pp ht hp hb ho = elim (Bool-cases a.remove_old) [
    | inl r ↦ elim (Bool-cases a.rename_again) [
      | inl g ↦ (λ _. ground arith, inl (ground arith))
      | inr g ↦ elim (Bool-cases a.restore) [
        | inl h ↦ (λ e. ground arith, inr (inl (ground arith)))
        | inr h ↦ (λ e. ground arith, inr (inr (b, h, ground arith)))
      ]
    ]
    | inr r ↦ rw r (rw (tp, hp) ((λ e. cc), inr (inl refl)))
  ]

  over_backup-Safe :
      (t b : FilePath) (d : Disk)
      → t ≢ p
      → d.node t ≡ some (regular bytes)
      → d.node p ≡ old
      → exists d p ≡ true
      → exists d b ≡ false
      → b ≢ p
      → Safe (replace_over_backup a t p b (set_node b (d.node p) d))
  over_backup-Safe t b d tp ht hp there free bp =
      let tb : t ≢ b = λ e. cc (ap d.node e) in
      replace_over_backup-Safe t b (set_node b (d.node p) d) (beq_ne t p tp) (beq_ne t b tb)
        (beq_ne p b (λ e. bp (sym e))) (beq_ne p t (λ e. tp (sym e))) (beq_ne b p bp) (beq_refl p)
        (node-set_node_ne b t (d.node p) d (λ e. tb (sym e)) ∙ ht)
        (node-set_node_ne b p (d.node p) d bp ∙ hp) (node-set_node_self b (d.node p) d ∙ hp)
        (rw (← hp) there)

  replace_by_force-Safe :
      (t : FilePath) (d : Disk)
      → t ≢ p
      → d.node t ≡ some (regular bytes)
      → d.node p ≡ old
      → Safe (replace_by_force a t p d)
  unfolding replace_by_force replace_with
  replace_by_force-Safe t d tp ht hp = elim (Bool-cases (a.status_ec && exists d p)) [
    | inl h ↦ rw h (elim (backup_cases a p d) [
      | inl e ↦ rw e ((λ f. cc), inr (inl hp))
      | inr (b, free, bp, e) ↦ rw e (elim (Bool-cases a.fsync_directory) [
        | inl f ↦ simp f (over_backup-Safe t b d tp ht hp (ground arith) free bp)
        | inr f ↦ simp f (rw (node-set_node_ne b p (d.node p) d bp) ((λ g. cc), inr (inl hp)))
      ])
    ])
    | inr h ↦ rw h (rw (node-set_node_ne t p none d tp) ((λ e. cc), inr (inl hp)))
  ]

  replace_file-Safe :
      (t : FilePath) (d : Disk)
      → t ≢ p
      → d.node t ≡ some (regular bytes)
      → d.node p ≡ old
      → Safe (replace_file a t p d)
  unfolding replace_file rename
  replace_file-Safe t d tp ht hp = elim (Bool-cases a.rename) [
    | inl h ↦
        let new : (rename t p d).node p ≡ some (regular bytes) =
          node-set_node_ne t p none (set_node p (d.node t) d) tp
          ∙ node-set_node_self p (d.node t) d
          ∙ ht in
        simp h ((λ _. new), inl new)
    | inr h ↦
        let (sure, kept) = replace_by_force-Safe t d tp ht hp in
        simp h ((λ e. sure (ground arith)), kept)
  ]

  write_temp-Safe :
      (t : FilePath) (d : Disk)
      → t ≢ p
      → d.node p ≡ old
      → Safe (
          let (whole, d') = write_temp a t bytes d in
          if whole then replace_file a t p d' else (false, d'))
  unfolding write_temp
  write_temp-Safe t d tp hp = elim (Bool-cases a.open_out) [
    | inl o ↦ elim (Bool-cases (a.write && a.flush)) [
      | inl w ↦
          simp (o, w)
            (replace_file-Safe t (set_node t (some (regular bytes)) d) tp
              (node-set_node_self t (some (regular bytes)) d)
              (node-set_node_ne t p (some (regular bytes)) d tp ∙ hp))
      | inr w ↦
          simp (o, w)
            (rw (node-set_node_ne t p none _ tp)
              (rw (node-set_node_ne t p _ d tp) ((λ e. cc), inr (inl hp))))
    ]
    | inr o ↦ simp o ((λ e. cc), inr (inl hp))
  ]

-- Whichever system calls of `atomicFileWrite` succeed or fail, in a directory that is there, the
-- target has the new text at the end, or what stood there, or, if the copying that restores it has
-- failed, anything at all, and then a backup has what stood there; and a call that reports success
-- leaves the new text. Conditions: calls of the same kind get the same answer, and none throws.
pub atomic_file_write-Safe :
    (a : Answers) (p : FilePath) (bytes : Bytes) (d : Disk)
    → d.node (parent_path p) ≡ some directory
    → Safe a p bytes (d.node p) (atomic_file_write a p bytes d)
atomic_file_write-Safe a p bytes d dir = elim (atomic_cases a p bytes d dir) [
  | inl e ↦ rw e ((λ f. cc), inr (inl refl))
  | inr (t, free, tp, e) ↦ rw e (write_temp-Safe a p bytes (d.node p) t d tp refl)
]
