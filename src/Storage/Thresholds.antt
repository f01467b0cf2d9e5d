-- ===== src/Storage/Thresholds.antt =====
-- When a snapshot is requested, and when the thread makes one.
use octet.Prelude.{ℕ, ◌+◌, ◌%◌, ◌≤◌, ◌≡◌, true, arith, nat_eq, list_eq}
use octet.Storage.{Storage, size_limit, notify_operation, request_snapshot_async}
use octet.Storage.Lifecycle.{set_snapshot_operations_threshold}

-- If enough operations stand since the last snapshot, one is requested.
abbrev pub IsAsked : Storage → Type 0
IsAsked s =
    s.snapshot_operations_threshold ≤ s.operations_since_last_snapshot → s.snapshot_requested ≡ true

-- After `notifyOperation` a snapshot is requested if the operations since the last one have
-- reached the threshold, and their counter has grown by one unless it wraps around.
pub notify_operation-asks :
    (s : Storage)
    → IsAsked (notify_operation s)
      × ((notify_operation s).operations_since_last_snapshot
          ≡ (s.operations_since_last_snapshot + 1) % size_limit)
unfolding notify_operation request_snapshot_async
notify_operation-asks s = ground arith

-- After a new threshold of operations is set it is the threshold, and a snapshot is requested if
-- the operations since the last one have reached it.
pub set_snapshot_operations_threshold-asks :
    (threshold : ℕ) (s : Storage)
    → IsAsked (set_snapshot_operations_threshold threshold s)
      × ((set_snapshot_operations_threshold threshold s).snapshot_operations_threshold ≡ threshold)
unfolding set_snapshot_operations_threshold request_snapshot_async
set_snapshot_operations_threshold-asks threshold s = ground arith
