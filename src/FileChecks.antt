-- ===== src/FileChecks.antt =====
-- The checks and the searches for names of src/utils/file_utils.cpp. Each function takes the answers of the operating system to its calls
-- and the disk, and returns its result and the disk that it leaves. A `FileLockGuard` is released
-- at the end of the function that declares it, so only the answer whether it holds is modelled here.
pub mod Names
use octet.Prelude.{
  ℕ, zero, suc, ◌+◌, ◌-◌, ◌*◌, ◌/◌, ◌%◌, ◌^◌, ◌≤◌, ◌<◌, String, ◌≡◌, refl, sym, ap, ◌∙◌, fun_ext,
  ◌≢◌, ◌↔◌, ◌⊎◌, inl, inr, Bool, true, false, ◌&&◌, ◌||◌, not, Option, none, some, List, [], ◌∷◌,
  ◌++◌, append_assoc, append-nil, arith, Comparable, ◌==◌, nat_eq, list_eq, list_beq, list_beq_iff,
  beq_refl, beq_ne, ltb, leb, nat_beq, nat_beq_iff, if◌then◌else◌, has_value, Bool-cases,
  Option-cases, Bytes, codes, length, take, drop, length-append, take-length-append,
  drop-length-append, length-drop, All, All-append, Lacks,
}
use octet.Disk.{
  FilePath, parent_path, filename, directory, regular, Disk, exists, is_directory, set_node,
  exclusive, Answers,
}

unfoldable pub is_existing_directory : Answers → FilePath → Disk → Option Bool
is_existing_directory a p d = if a.status then some (exists d p && is_directory d p) else none

-- The check that opens most functions: the path is known not to be a directory.
abbrev pub not_directory : Option Bool → Bool
not_directory (some false) = true
not_directory _ = false

-- `create_directories`: every missing directory on the way. A file on the way is an error.
unfoldable pub make_directories : FilePath → Disk → Option Disk
make_directories [] d = some d
make_directories (name ∷ dir) d = elim (make_directories dir d) [
  | none ↦ none
  | some d' ↦ elim (d'.node (name ∷ dir)) [
    | none ↦ some (set_node (name ∷ dir) (some directory) d')
    | some directory ↦ some d'
    | some (regular bytes) ↦ none
  ]
]

-- The components below the root joined by `_`.
unfoldable pub path_to_filename : FilePath → Bytes
path_to_filename [] = []
path_to_filename (name ∷ dir) =
    let front = path_to_filename dir in if front == [] then name else front ++ b'_' ∷ name

abbrev temp_directory : FilePath
temp_directory = codes "tmp" ∷ []

create_missing : Answers → FilePath → Disk → Bool × Disk
create_missing a dir d =
    if a.create_directories
    then elim (make_directories dir d) [ none ↦ (false, d) | some d' ↦ (true, d') ]
    else (false, d)

unfoldable pub ensure_directory_exists : Answers → FilePath → Bool → Disk → Bool × Disk
unfolding path_to_filename create_missing make_directories
ensure_directory_exists a dir create d =
    if not (a.lock (path_to_filename dir ∷ temp_directory) exclusive)
    then (false, d)
    else if not a.status_ec
    then (false, d)
    else if exists d dir
    then (is_directory d dir, d)
    else if create
    then create_missing a dir d
    else (false, d)

unfoldable pub check_if_file_exists : Answers → FilePath → Bool → Disk → Bool × Disk
unfolding is_existing_directory ensure_directory_exists
check_if_file_exists a file create d =
    if not (not_directory (is_existing_directory a file d))
    then (false, d)
    else let (ready, d') = ensure_directory_exists a (parent_path file) create d in
      if ready then (a.status_ec && exists d' file, d') else (false, d')

-- The loops of `getTempFilePath` and `getBackupFilePath`: the first candidate at which nothing
-- stands. The sources go on drawing, so `none` only says that the given draws were too few.
first_free : Disk → FilePath → Bytes → List Bytes → Option FilePath
first_free d p infix' [] = none
first_free d p infix' (id ∷ ids) =
    let candidate = (filename p ++ (infix' ++ id)) ∷ parent_path p in
    if exists d candidate then first_free d p infix' ids else some candidate

unfoldable pub get_temp_file_path : Disk → FilePath → List Bytes → Option FilePath
unfolding first_free
get_temp_file_path d p ids = first_free d p (codes ".tmp.") ids

unfoldable pub get_backup_file_path : Disk → FilePath → List Bytes → Option FilePath
unfolding first_free
get_backup_file_path d p times = first_free d p (codes ".backup.") times

unfoldable pub is_file_readable : Answers → FilePath → Disk → Bool
is_file_readable a p d = a.status_ec && exists d p && not (is_directory d p) && a.open_in

-- The copy is made before the directory is synchronised, and stays when that fails.
unfoldable pub do_create_file_backup : Answers → FilePath → Disk → Option FilePath × Disk
unfolding is_file_readable get_backup_file_path
do_create_file_backup a p d =
    if is_file_readable a p d
    then elim (get_backup_file_path d p a.times) [
      | none ↦ (none, d)
      | some backup ↦
          if a.copy_backup
          then ((if a.fsync_directory then some backup else none), set_node backup (d.node p) d)
          else (none, d)
    ]
    else (none, d)
