-- ===== src/Disk.antt =====
-- The file system that src/utils/file_utils.cpp works on: what stands at each path, and the answers
-- that the operating system gives to the calls of one utility function.
use octet.Prelude.{
  ℕ, ◌≡◌, refl, ◌≢◌, Bool, true, false, Option, none, some, List, [], ◌∷◌, ◌==◌, nat_eq, list_eq,
  beq_refl, beq_ne, if◌then◌else◌, has_value, Bytes,
}

-- A path is the list of its components, the last one first: `dir / name` is `name ∷ dir`.
abbrev pub FilePath : Type 0
FilePath = List Bytes

abbrev pub parent_path : FilePath → FilePath
parent_path [] = []
parent_path (name ∷ dir) = dir

abbrev pub filename : FilePath → Bytes
filename [] = []
filename (name ∷ dir) = name

pub data Node : Type 0 where
  directory : Node
  regular : Bytes → Node

pub record Disk : Type 0 where
  pub node : FilePath → Option Node

abbrev pub exists : Disk → FilePath → Bool
exists d p = has_value (d.node p)

abbrev pub node_is_directory : Option Node → Bool
node_is_directory (some directory) = true
node_is_directory _ = false

abbrev pub is_directory : Disk → FilePath → Bool
is_directory d p = node_is_directory (d.node p)

abbrev pub node_content : Option Node → Option Bytes
node_content (some (regular bytes)) = some bytes
node_content _ = none

-- The bytes of a regular file.
abbrev pub content : Disk → FilePath → Option Bytes
content d p = node_content (d.node p)

-- Writing a node (`none` removes it).
unfoldable pub set_node : FilePath → Option Node → Disk → Disk
set_node p v d = record { node = λ q. if p == q then v else d.node q }

pub node-set_node :
    (p q : FilePath) (v : Option Node) (d : Disk)
    → (set_node p v d).node q ≡ (if p == q then v else d.node q)
unfolding set_node
node-set_node p q v d = refl

pub node-set_node_self : (p : FilePath) (v : Option Node) (d : Disk) → (set_node p v d).node p ≡ v
unfolding set_node
node-set_node_self p v d = rw beq_refl

pub node-set_node_ne :
    (p q : FilePath) (v : Option Node) (d : Disk) → p ≢ q → (set_node p v d).node q ≡ d.node q
unfolding set_node
node-set_node_ne p q v d h = rw (beq_ne p q h)

pub data LockMode : Type 0 where
  exclusive shared : LockMode

-- The answers to the calls that one utility function makes, in its words: `true` is success.
pub record Answers : Type 0 where
  -- `exists` and `is_directory` in `isExistingDirectory` do not throw
  pub status : Bool
  -- `exists(path, ec)` sets no error
  pub status_ec : Bool
  -- whether a `FileLockGuard` on the path holds its lock after the construction
  pub lock : FilePath → LockMode → Bool
  pub create_directories : Bool
  pub fsync_directory : Bool
  -- `std::ofstream` and `std::ifstream`; after a failed write some first bytes may be in the file
  pub open_out : Bool
  pub write : Bool
  pub written : ℕ
  pub flush : Bool
  pub open_in : Bool
  pub size_known : Bool
  pub read_all : Bool
  -- the calls of the replacement of a file, in their order
  pub rename : Bool
  pub copy_backup : Bool
  pub remove_old : Bool
  pub rename_again : Bool
  pub restore : Bool
  pub restored_part : Option Node
  -- what `generateRandomId` and `getCurrentTimeFormatted` return, call after call
  pub random_ids : List Bytes
  pub times : List Bytes

-- Every call succeeds.
abbrev pub all_well : List Bytes → List Bytes → Answers
all_well random_ids times = record {
  status = true;
  status_ec = true;
  lock = λ p m. true;
  create_directories = true;
  fsync_directory = true;
  open_out = true;
  write = true;
  written = 0;
  flush = true;
  open_in = true;
  size_known = true;
  read_all = true;
  rename = true;
  copy_backup = true;
  remove_old = true;
  rename_again = true;
  restore = true;
  restored_part = none;
  random_ids = random_ids;
  times = times;
}
