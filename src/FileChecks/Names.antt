-- ===== src/FileChecks/Names.antt =====
-- The names that `getTempFilePath` and `getBackupFilePath` find are new.
use octet.Prelude.{
  ℕ, ◌≡◌, refl, ap, ◌∙◌, ◌≢◌, inl, inr, false, some, List, [], ◌∷◌, ◌++◌, arith, nat_eq, list_eq,
  Bool-cases, Bytes, codes, length, length-append,
}
use octet.Disk.{FilePath, parent_path, filename, Disk, exists}
use octet.FileChecks.{first_free, get_temp_file_path, get_backup_file_path}

append-ne : (n m : Bytes) → m ≢ [] → n ++ m ≢ n
append-ne n [] h e = h refl
append-ne n (c ∷ m) h e = absurd (omega (arith, length-append n (c ∷ m), ap length e))

candidate-ne : (p : FilePath) (c : ℕ) (m : Bytes) → (filename p ++ (c ∷ m)) ∷ parent_path p ≢ p
candidate-ne [] c m e = cc
candidate-ne (n ∷ dir) c m e = append-ne n (c ∷ m) (cc) (cc)

first_free_lem :
    (d : Disk) (p : FilePath) (c : ℕ) (m : Bytes) (ids : List Bytes) (t : FilePath)
    → first_free d p (c ∷ m) ids ≡ some t
    → (exists d t ≡ false) × (t ≢ p)
unfolding first_free
first_free_lem d p c m [] t h = cc
first_free_lem d p c m (id ∷ ids) t h =
    elim (Bool-cases (exists d ((filename p ++ (c ∷ m ++ id)) ∷ parent_path p))) [
      | inl e ↦ first_free_lem d p c m ids t (ground arith)
      | inr e ↦
          let found : (filename p ++ (c ∷ (m ++ id))) ∷ parent_path p ≡ t = ground arith in
          (rw (← found) e, λ same. candidate-ne p c (m ++ id) (found ∙ same))
    ]

-- A temporary name is free, and is not the file's own.
pub get_temp_file_path_free :
    (d : Disk) (p : FilePath) (ids : List Bytes) (t : FilePath)
    → get_temp_file_path d p ids ≡ some t
    → (exists d t ≡ false) × (t ≢ p)
unfolding get_temp_file_path
get_temp_file_path_free d p ids t h = first_free_lem d p b'.' (codes "tmp.") ids t h

-- So is the name of a backup.
pub get_backup_file_path_free :
    (d : Disk) (p : FilePath) (times : List Bytes) (t : FilePath)
    → get_backup_file_path d p times ≡ some t
    → (exists d t ≡ false) × (t ≢ p)
unfolding get_backup_file_path
get_backup_file_path_free d p times t h = first_free_lem d p b'.' (codes "backup.") times t h
