-- ===== src/Server/Restart.antt =====
-- The clients of a server and its storage: what a restart finds.
use octet.Prelude.{
  ℕ, zero, suc, ◌≡◌, subst, true, Option, List, [], ◌∷◌, nat_eq, list_eq, has_value, Bytes,
}
use octet.Disk.{Disk}
use octet.Protocol.{JsonLibrary}
use octet.Storage.{Storage, LoadAnswers, load_from_disk, get}
use octet.Storage.Durable.{IsDurable}
use octet.Storage.Unchanged.{snapshot_round-IsSame}
use octet.Storage.Contract.{view}
use octet.Storage.Recovery.{AllReadable, IsFresh, load_from_disk_recovers}
use octet.Storage.Lifecycle.{Round, snapshot_round, IsSoundRound, snapshot_round-IsDurable}
use octet.Storage.Runs.{Reach-IsDurable, here}
use octet.Connection
use octet.Connection.{Connection, on_read}
use octet.Connection.Durable.{IsSoundDraw, on_read-Kept}
use octet.Storage.Kept.{IsKeyed, Kept}
use octet.Server.{State, Server, Completion, accepted, signalled, read, written, read_at, complete}

-- No signal has come, and the reads draw sound answers.
abbrev pub IsOrdinary : Completion → Type 0
IsOrdinary (read index chunk draws) = (n : ℕ) → IsSoundDraw (draws n)
IsOrdinary (signalled failed removed) = failed ≡ true
IsOrdinary _ = Unit

module _ (json : JsonLibrary) (s0 : Storage) (d0 : Disk) where
  pub read_at-Kept :
      (n : ℕ) (chunk : Option Bytes) (w : ℕ → Connection.Draw) (cs : List Connection) (s : Storage)
      (d : Disk)
      → ((n : ℕ) → IsSoundDraw (w n))
      → Kept s0 d0 s d
      → Kept s0 d0 (read_at json n chunk w cs s d).1 (read_at json n chunk w cs s d).2
  unfolding read_at
  read_at-Kept n chunk w [] s d sound h = h
  read_at-Kept zero chunk w (c ∷ cs) s d sound h = on_read-Kept s0 d0 json chunk w c s d sound h
  read_at-Kept (suc n) chunk w (c ∷ cs) s d sound h = read_at-Kept n chunk w cs s d sound h

  complete-Kept :
      (e : Completion) (server : Server) (s : Storage) (d : Disk)
      → IsOrdinary e
      → Kept s0 d0 s d
      → Kept s0 d0 (complete json e (server, s, d)).1 (complete json e (server, s, d)).2
  unfolding complete
  complete-Kept (accepted answer leftover) server s d ordinary h = h
  complete-Kept (signalled failed removed) server s d ordinary h = rw ordinary h
  complete-Kept (read index chunk draws) server s d ordinary h =
      read_at-Kept index chunk draws server.connections s d ordinary h
  complete-Kept (written index) server s d ordinary h = h

-- The states of the loop and of the storage's thread beside it, from a first one.
pub data Serves (json : JsonLibrary) (start : State) : State → Type 0 where
  begun : Serves json start start
  completed :
      {state : State}
      → Serves json start state
      → (e : Completion) → IsOrdinary e
      → Serves json start (complete json e state)
  rounded :
      {state : State}
      → Serves json start state
      → (r : Round) → IsSoundRound r (state.1)
      → Serves json start (
        state.0,
        (snapshot_round r (state.1) (state.2)).0,
        (snapshot_round r (state.1) (state.2)).1,
      )

-- Memory and disk agree, and the journal can hold the identifiers.
abbrev pub IsKept : State → Type 0
IsKept (server, s, d) = IsDurable s d × IsKeyed (view s)

module _ (json : JsonLibrary) where
  complete-IsKept :
      (e : Completion) (server : Server) (s : Storage) (d : Disk)
      → IsOrdinary e
      → IsKept (server, s, d)
      → IsKept (complete json e (server, s, d))
  complete-IsKept e server s d ordinary (durable, keyed) =
      let (reach, keyed') = complete-Kept json s d e server s d ordinary (here, keyed) in
      (Reach-IsDurable reach durable, keyed')

  Serves-IsKept : {start state : State} → Serves json start state → IsKept start → IsKept state
  Serves-IsKept begun h = h
  Serves-IsKept (completed {state} before e ordinary) h =
      complete-IsKept e (state.0) (state.1) (state.2) ordinary (Serves-IsKept before h)
  Serves-IsKept (rounded {state} before r sound) h =
      let (durable, keyed) = Serves-IsKept before h in
      (
        snapshot_round-IsDurable r (state.1) (state.2) sound durable,
        (λ uuid there. keyed uuid (
            subst (λ f. has_value (f uuid) ≡ true) ((snapshot_round-IsSame r (state.1) (state.2)).0)
              there)),
      )

  -- Whatever the clients of a server send, in whatever order their connections are accepted, read
  -- and written, with or without an exception of the JSON library that ends a read, and whatever
  -- snapshots the storage's thread makes between these handlers, a new manager over the same files
  -- returns for every identifier what the server's manager would return, after each handler and
  -- each snapshot. Conditions: memory and disk agree at the start and the journal can hold the
  -- identifiers stored then; each snapshot is made whole between two handlers, so that no request
  -- is handled between its copy and its checkpoint; no signal has ended the loop; no call of the
  -- storage throws; no write is partial, renames and directory synchronisations succeed, generated
  -- identifiers and clock texts can stand in the journal; snapshotted stores fit in 32-bit counts;
  -- and the files are readable at the start of the new manager.
  pub restart_after_clients :
      (start state : State) (r : Storage) (l : LoadAnswers) (now uuid : Bytes)
      → Serves json start state
      → IsKept start
      → AllReadable l
      → IsFresh r
      → r.journal.path ≡ (state.1).journal.path
      → r.snapshot_path ≡ (state.1).snapshot_path
      → get uuid (load_from_disk l now r (state.2)) ≡ get uuid (state.1)
  unfolding get
  restart_after_clients start state r l now uuid serves kept readable new same_journal
        same_snapshot =
      let (durable, keyed) = Serves-IsKept serves kept in
      load_from_disk_recovers l now r (state.2) ((state.1).data_store) readable new
        (rw (same_journal, same_snapshot) durable) uuid
