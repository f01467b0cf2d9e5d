-- ===== src/Server.antt =====
-- app/cli/server/server.cpp: the server's life, the accepting of connections and the handlers that the
-- loop of Boost.Asio calls, one after the other. What the loop completes is an argument; the binding of
-- a socket is a parameter, as are the JSON texts.
pub mod Keeping
pub mod Lifetime
pub mod Restart
use octet.Prelude.{
  ℕ, zero, suc, ◌+◌, ◌-◌, ◌*◌, ◌/◌, ◌%◌, ◌^◌, ◌≤◌, ◌<◌, String, ◌≡◌, refl, sym, ap, subst, ◌∙◌,
  fun_ext, ◌≢◌, ◌↔◌, ◌⊎◌, inl, inr, Bool, true, false, ◌&&◌, ◌||◌, not, Option, none, some, List,
  [], ◌∷◌, ◌++◌, append_assoc, append-nil, arith, Comparable, ◌==◌, nat_eq, list_eq, list_beq,
  list_beq_iff, beq_refl, beq_ne, ltb, leb, nat_beq, nat_beq_iff, if◌then◌else◌, has_value,
  Bool-cases, Option-cases, Bytes, codes, length, take, drop, length-append, take-length-append,
  drop-length-append, length-drop, All, All-append, Lacks,
}
use octet.Disk.{FilePath, parent_path, Disk, Answers, exists, set_node}
use octet.FileChecks.{ensure_directory_exists}
use octet.Protocol.{JsonLibrary}
use octet.Storage.{Storage}
use octet.Connection.{Connection, create, do_write, on_read}
use octet.Connection

unfoldable pub get_socket_path : FilePath → Option FilePath → FilePath
get_socket_path temp_directory (some path) = path
get_socket_path temp_directory none = codes "octet.sock" ∷ temp_directory

-- The pointers of the class are kept as whether they point to something; `accepting` has the connection
-- that each pending accept has made, and `connections` those that were started.
pub record Server : Type 0 where
  pub socket_path : FilePath
  pub running : Bool
  pub context : Bool
  pub acceptor : Bool
  pub signal_set : Bool
  pub accepting : List Connection
  pub connections : List Connection

unfoldable pub new_server : FilePath → Option FilePath → Server
unfolding get_socket_path
new_server temp_directory socket_path = record {
  socket_path = get_socket_path temp_directory socket_path;
  running = false;
  context = false;
  acceptor = false;
  signal_set = false;
  accepting = [];
  connections = [];
}

-- `leftover` is what the memory of the new connection held.
unfoldable pub accept : Bool → Server → Server
accept leftover server =
    if server.acceptor && server.context
    then record server { accepting = server.accepting ++ (create leftover ∷ []) }
    else server

-- `removed` says whether the socket's file can be removed; the other errors are only logged.
unfoldable pub stop : Bool → Server → Disk → Server × Disk
stop removed server d =
    if server.running
    then (
      record server { running = false; acceptor = false; context = false },
      if removed then set_node server.socket_path none d else d,
    )
    else (server, d)

-- How an accept ends: with a connection, because the acceptor is closed, or with another error.
pub data Accepted : Type 0 where
  connected aborted refused : Accepted

abbrev pub start_first : Accepted → Server → List Connection → Server
start_first connected server (c ∷ cs) = record server {
  accepting = cs;
  connections = server.connections ++ (c ∷ []);
}
start_first answer server (c ∷ cs) = record server { accepting = cs }
start_first answer server [] = server

unfoldable pub accept_handler : Accepted → Bool → Server → Server
unfolding accept
accept_handler answer leftover server =
    let after = start_first answer server server.accepting in
    if server.running then accept leftover after else after

-- `stop` destroys the context inside the call of its own `run`, which is undefined behaviour: what
-- follows a signal is what the statements say.
unfoldable pub signal_handler : (failed removed : Bool) → Server → Disk → Server × Disk
unfolding stop
signal_handler failed removed server d = if failed then (server, d) else stop removed server d

-- What the loop completes: an accept, the wait for a signal, a read or a write of a connection.
pub data Completion : Type 0 where
  accepted : (answer : Accepted) (leftover : Bool) → Completion
  signalled : (failed removed : Bool) → Completion
  read : (index : ℕ) (chunk : Option Bytes) (draws : ℕ → Connection.Draw) → Completion
  written : (index : ℕ) → Completion

-- An exception has left the handler of a read.
unfoldable pub any_thrown : List Connection → Bool
any_thrown [] = false
any_thrown (c ∷ cs) = c.thrown || any_thrown cs

abbrev pub State : Type 0
State = Server × Storage × Disk

-- The server when the loop begins.
unfoldable pub opened : Bool → Server → Server
unfolding accept
opened leftover server =
    record (accept leftover (record server { context = true; acceptor = true })) {
      signal_set = true;
      running = true;
    }

module _ (json : JsonLibrary) where
  -- A read of the connection at an index.
  unfoldable pub read_at :
      ℕ
      → Option Bytes
      → (ℕ → Connection.Draw)
      → List Connection
      → Storage
      → Disk
      → List Connection × Storage × Disk
  unfolding on_read
  read_at n chunk w [] s d = ([], s, d)
  read_at zero chunk w (c ∷ cs) s d =
      let (c', s', d') = on_read json chunk w c s d in (c' ∷ cs, s', d')
  read_at (suc n) chunk w (c ∷ cs) s d =
      let (cs', s', d') = read_at n chunk w cs s d in (c ∷ cs', s', d')

  unfoldable pub write_at : ℕ → List Connection → List Connection
  unfolding do_write
  write_at n [] = []
  write_at zero (c ∷ cs) = do_write c ∷ cs
  write_at (suc n) (c ∷ cs) = c ∷ write_at n cs

  unfoldable pub complete : Completion → State → State
  unfolding accept_handler signal_handler read_at write_at
  complete (accepted answer leftover) (server, s, d) = (accept_handler answer leftover server, s, d)
  complete (signalled failed removed) (server, s, d) =
      let (server', d') = signal_handler failed removed server d in (server', s, d')
  complete (read index chunk draws) (server, s, d) =
      let (cs, s', d') = read_at index chunk draws server.connections s d in
      (record server { connections = cs }, s', d')
  complete (written index) (server, s, d) =
      (record server { connections = write_at index server.connections }, s, d)

  -- `ioCtx_->run()`: it returns when the context is stopped, and an exception of a handler leaves it.
  unfoldable pub run : List Completion → State → State
  unfolding complete any_thrown
  run [] state = state
  run (e ∷ es) (server, s, d) = elim server.context [
    | true ↦ elim (any_thrown server.connections) [
      | false ↦ run es (complete e (server, s, d))
      | true ↦ (server, s, d)
    ]
    | false ↦ (server, s, d)
  ]

  module _ (bind : FilePath → Disk → Option Disk) where
    -- The socket is bound, the first accept is made, and the loop runs; `start` catches what leaves
    -- it and returns 1.
    unfoldable pub serve : Bool → List Completion → Option Disk → State → ℕ × State
    unfolding run opened any_thrown
    serve leftover es none (server, s, d) = (1, (record server { context = true }, s, d))
    serve leftover es (some bound) (server, s, d) =
        let last = run es (opened leftover server, s, bound) in
        (if any_thrown (last.0).connections then 1 else 0, last)

    -- `return false` in this function is 0.
    unfoldable pub start : Answers → Bool → List Completion → State → ℕ × State
    unfolding serve ensure_directory_exists
    start a leftover es (server, s, d) =
        if server.running
        then (0, (server, s, d))
        else if a.status_ec && exists d server.socket_path
        then (0, (server, s, d))
        else let (ready, d') = ensure_directory_exists a (parent_path server.socket_path) true d in
          if ready
          then serve leftover es (bind server.socket_path d') (server, s, d')
          else (0, (server, s, d'))

    -- The server is made, it runs, and its destructor stops it.
    unfoldable pub start_server :
        Answers
        → Bool
        → FilePath
        → Option FilePath
        → Bool
        → List Completion
        → Storage
        → Disk
        → ℕ × State
    unfolding start stop new_server
    start_server a leftover temp_directory socket_path removed es s d =
        let (code, state) = start a leftover es (new_server temp_directory socket_path, s, d) in
        let (server, s', d') = state in
        let (server', d2) = stop removed server d' in (code, (server', s', d2))
