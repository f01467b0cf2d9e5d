-- ===== src/Files.antt =====
-- The reading and writing functions of src/utils/file_utils.cpp.
pub mod Append
pub mod Replace
pub mod Effects
use octet.Prelude.{
  ℕ, zero, suc, ◌+◌, ◌-◌, ◌*◌, ◌/◌, ◌%◌, ◌^◌, ◌≤◌, ◌<◌, String, ◌≡◌, refl, sym, ap, subst, ◌∙◌,
  fun_ext, ◌≢◌, ◌↔◌, ◌⊎◌, inl, inr, Bool, true, false, ◌&&◌, ◌||◌, not, Option, none, some, List,
  [], ◌∷◌, ◌++◌, append_assoc, append-nil, arith, Comparable, ◌==◌, nat_eq, list_eq, list_beq,
  list_beq_iff, beq_refl, beq_ne, ltb, leb, nat_beq, nat_beq_iff, if◌then◌else◌, has_value,
  Bool-cases, Option-cases, Bytes, codes, length, take, drop, length-append, take-length-append,
  drop-length-append, length-drop, All, All-append, Lacks,
}
use octet.Disk.{
  FilePath, parent_path, filename, Node, directory, regular, Disk, exists, is_directory, content,
  set_node, exclusive, shared, Answers,
}
use octet.FileChecks.{
  is_existing_directory, not_directory, ensure_directory_exists, get_temp_file_path,
  is_file_readable, do_create_file_backup,
}

unfoldable pub create_file_backup : Answers → FilePath → Disk → Option FilePath × Disk
unfolding is_existing_directory do_create_file_backup
create_file_backup a p d =
    if not (not_directory (is_existing_directory a p d))
    then (none, d)
    else if a.lock p exclusive
    then do_create_file_backup a p d
    else (none, d)

unfoldable pub safe_file_read : Answers → FilePath → Disk → Option Bytes
unfolding is_existing_directory is_file_readable
safe_file_read a p d =
    if not (not_directory (is_existing_directory a p d))
    then none
    else if not (a.lock p shared)
    then none
    else if not (is_file_readable a p d)
    then none
    else if a.size_known && a.read_all
    then content d p
    else none

-- The temporary file after the attempt to write `bytes` to it, and whether it is whole.
pub write_temp : Answers → FilePath → Bytes → Disk → Bool × Disk
write_temp a temp bytes d =
    if not a.open_out
    then (false, d)
    else if a.write && a.flush
    then (true, set_node temp (some (regular bytes)) d)
    else (false, set_node temp none (set_node temp (some (regular (take a.written bytes))) d))

-- `rename`: the target takes the source's place in one step.
rename : FilePath → FilePath → Disk → Disk
rename from to d = set_node from none (set_node to (d.node from) d)

-- The second way to replace a file: back it up, remove it, rename again, restore on failure. A copying
-- that fails may leave anything at the target.
replace_over_backup : Answers → FilePath → FilePath → FilePath → Disk → Bool × Disk
replace_over_backup a temp p backup d =
    if not a.remove_old
    then (false, set_node temp none d)
    else let removed = set_node p none d in
      if a.rename_again
      then (true, rename temp p removed)
      else let restored =
          if not (exists removed backup)
          then removed
          else if a.restore
          then set_node backup none (set_node p (removed.node backup) removed)
          else set_node p a.restored_part removed in
        (false, set_node temp none restored)

replace_with : Answers → FilePath → FilePath → Option FilePath × Disk → Bool × Disk
replace_with a temp p (none, d) = (false, d)
replace_with a temp p (some backup, d) = replace_over_backup a temp p backup d

replace_by_force : Answers → FilePath → FilePath → Disk → Bool × Disk
replace_by_force a temp p d =
    if a.status_ec && exists d p
    then replace_with a temp p (do_create_file_backup a p d)
    else (false, set_node temp none d)

-- The file is replaced, if it can be, and then the directory is synchronised.
pub replace_file : Answers → FilePath → FilePath → Disk → Bool × Disk
replace_file a temp p d =
    let (replaced, d') =
      if a.rename then (true, rename temp p d) else replace_by_force a temp p d in
    (replaced && a.fsync_directory, d')

write_and_replace : Answers → FilePath → Bytes → Disk → Bool × Disk
write_and_replace a p bytes d = elim (get_temp_file_path d p a.random_ids) [
  | none ↦ (false, d)
  | some temp ↦
      let (whole, d') = write_temp a temp bytes d in
      if whole then replace_file a temp p d' else (false, d')
]

unfoldable pub atomic_file_write : Answers → FilePath → Bytes → Disk → Bool × Disk
unfolding is_existing_directory ensure_directory_exists write_and_replace write_temp replace_file
    rename replace_by_force replace_with replace_over_backup
atomic_file_write a p bytes d =
    if not (not_directory (is_existing_directory a p d))
    then (false, d)
    else let (ready, d') = ensure_directory_exists a (parent_path p) true d in
      if ready && a.lock p exclusive then write_and_replace a p bytes d' else (false, d')

-- A write that fails may have put the first bytes into the file, and a directory that cannot be
-- synchronised makes the call fail although the bytes are in the file.
append_to : Answers → FilePath → Bytes → Bytes → Disk → Bool × Disk
append_to a p old bytes d =
    if not a.open_out
    then (false, d)
    else if a.write && a.flush
    then (a.fsync_directory, set_node p (some (regular (old ++ bytes))) d)
    else (false, set_node p (some (regular (old ++ take a.written bytes))) d)

append_if_file : Answers → FilePath → Bytes → Disk → Option Bytes → Bool × Disk
append_if_file a p bytes d none = (false, d)
append_if_file a p bytes d (some old) = append_to a p old bytes d

unfoldable pub safe_file_append : Answers → FilePath → Bytes → Disk → Bool × Disk
unfolding is_existing_directory ensure_directory_exists append_to append_if_file
safe_file_append a p bytes d =
    if not (not_directory (is_existing_directory a p d))
    then (false, d)
    else let (ready, d') = ensure_directory_exists a (parent_path p) true d in
      if not (ready && a.lock p exclusive)
      then (false, d')
      else if not a.status_ec
      then (false, d')
      else if exists d' p
      then append_if_file a p bytes d' (content d' p)
      else atomic_file_write a p bytes d'
