-- ===== src/Program/Runs.antt =====
-- Parts of a run: the thresholds are not to be seen, and the destructor ends it.
use octet.Prelude.{
  ℕ, ◌≡◌, refl, ◌∙◌, Bool, true, false, ◌&&◌, Option, none, some, List, nat_eq, list_eq, ltb, leb,
  if◌then◌else◌, Bytes,
}
use octet.Disk.{FilePath, Disk}
use octet.Protocol.{JsonLibrary}
use octet.Storage.{Storage, get, request_snapshot_async}
use octet.Storage.Lifecycle.{
  destroy, set_snapshot_operations_threshold, set_snapshot_time_threshold, time_elapsed,
}
use octet.Program.{Outside, set_thresholds}

request-if :
    (b : Bool) (s : Storage) (uuid : Bytes)
    → get uuid (if b then request_snapshot_async s else s) ≡ get uuid s
unfolding get request_snapshot_async
request-if true s uuid = refl
request-if false s uuid = refl

operations-get :
    (n : ℕ) (s : Storage) (uuid : Bytes)
    → get uuid (set_snapshot_operations_threshold n s) ≡ get uuid s
unfolding set_snapshot_operations_threshold
operations-get n s uuid =
    request-if (leb n s.operations_since_last_snapshot)
      (record s { snapshot_operations_threshold = n }) uuid
    ∙ unfold get in refl

time-get :
    (now n : ℕ) (s : Storage) (uuid : Bytes)
    → get uuid (set_snapshot_time_threshold now n s) ≡ get uuid s
unfolding set_snapshot_time_threshold
time-get now n s uuid =
    let s' = record s { snapshot_time_threshold_minutes = n } in
    request-if (time_elapsed now s' && ltb 0 s.operations_since_last_snapshot) s' uuid
    ∙ unfold get in refl

pub set_thresholds-get :
    (time : ℕ) (operations minutes : Option ℕ) (s : Storage) (uuid : Bytes)
    → get uuid (set_thresholds time operations minutes s) ≡ get uuid s
unfolding set_thresholds
set_thresholds-get time none none s uuid = refl
set_thresholds-get time (some n) none s uuid = operations-get n s uuid
set_thresholds-get time none (some n) s uuid = time-get time n s uuid
set_thresholds-get time (some n) (some m) s uuid =
    time-get time m (set_snapshot_operations_threshold n s) uuid ∙ operations-get n s uuid

module _ (stoul : Bytes → Option ℕ) (executable : Bytes) (json : JsonLibrary)
    (bind : FilePath → Disk → Option Disk) (to_path : Bytes → FilePath)
    (temp_directory : FilePath) where
  -- The end of a run, with the destructor.
  abbrev pub closed : Outside → ℕ × List Bytes × Storage × Disk → Option (ℕ × List Bytes × Disk)
  closed o (code, lines, s, d) = some (code, lines, (destroy o.closing s d).1)
