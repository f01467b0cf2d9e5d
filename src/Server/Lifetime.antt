-- ===== src/Server/Lifetime.antt =====
-- The states of a running server, and what it leaves when it ends.
use octet.Prelude.{
  ℕ, ◌≡◌, refl, sym, subst, ◌∙◌, ◌⊎◌, inl, inr, Bool, true, false, ◌&&◌, Option, none, some, List,
  [], ◌∷◌, arith, nat_eq, list_eq, if◌then◌else◌, Bool-cases, length, All,
}
use octet.Disk.{FilePath, parent_path, Disk, Answers, exists, set_node, node-set_node_self}
use octet.FileChecks.{ensure_directory_exists}
use octet.Protocol.{JsonLibrary}
use octet.Storage.{Storage}
use octet.Connection.{Connection}
use octet.Server.{
  Server, new_server, get_socket_path, accept, stop, Accepted, connected, aborted, refused,
  start_first, accept_handler, signal_handler, Completion, accepted, signalled, read, written,
  State, any_thrown, opened, complete, run, serve, start, start_server,
}

-- The loop runs, the acceptor is open, and exactly one accept is pending.
abbrev pub IsServing : Server → Type 0
IsServing server =
    (server.running ≡ true)
    × (server.context ≡ true)
    × (server.acceptor ≡ true)
    × (length server.accepting ≡ 1)

-- Nothing is open, and the socket's path is free.
abbrev pub IsStopped : Server → Disk → Type 0
IsStopped server d =
    (server.running ≡ false)
    × (server.context ≡ false)
    × (server.acceptor ≡ false)
    × (exists d server.socket_path ≡ false)

-- The states of the loop of the server at a path.
abbrev pub IsSound : FilePath → State → Type 0
IsSound path (server, s, d) = (server.socket_path ≡ path) × (IsServing server ⊎ IsStopped server d)

-- No wait for a signal has ended with a signal.
abbrev pub NoSignal : Completion → Type 0
NoSignal (signalled failed removed) = failed ≡ true
NoSignal _ = Unit

-- The first pending accept is taken off.
start_first-keeps :
    (answer : Accepted) (server : Server) (cs : List Connection)
    → length cs ≡ 1
    → ((start_first answer server cs).running ≡ server.running)
      × ((start_first answer server cs).context ≡ server.context)
      × ((start_first answer server cs).acceptor ≡ server.acceptor)
      × ((start_first answer server cs).accepting ≡ [])
      × ((start_first answer server cs).socket_path ≡ server.socket_path)
start_first-keeps answer server [] one = cc
start_first-keeps connected server (c ∷ []) one = (refl, refl, refl, refl, refl)
start_first-keeps aborted server (c ∷ []) one = (refl, refl, refl, refl, refl)
start_first-keeps refused server (c ∷ []) one = (refl, refl, refl, refl, refl)
start_first-keeps answer server (c ∷ c' ∷ cs) one = absurd (omega (arith, one))

-- A new accept of a server that has none pending.
accept-IsServing :
    (leftover : Bool) (server : Server)
    → server.running ≡ true
    → server.context ≡ true
    → server.acceptor ≡ true
    → server.accepting ≡ []
    → IsServing (accept leftover server)
      × ((accept leftover server).socket_path ≡ server.socket_path)
unfolding accept
accept-IsServing leftover server on live listening none_yet =
    simp (listening, live, none_yet) ((on, refl, refl, refl), refl)

accept_handler-IsServing :
    (answer : Accepted) (leftover : Bool) (server : Server)
    → IsServing server
    → IsServing (accept_handler answer leftover server)
      × ((accept_handler answer leftover server).socket_path ≡ server.socket_path)
unfolding accept_handler
accept_handler-IsServing answer leftover server (on, live, listening, one) =
    let (r, c, a, e, p) = start_first-keeps answer server server.accepting one in
    let (serving, path) =
      accept-IsServing leftover (start_first answer server server.accepting) (r ∙ on) (c ∙ live)
        (a ∙ listening) e in
    simp on (serving, path ∙ p)

exists-removed : (p : FilePath) (d : Disk) → exists (set_node p none d) p ≡ false
exists-removed p d = rw (node-set_node_self p none d) refl

stop-IsStopped :
    (server : Server) (d : Disk)
    → server.running ≡ true
    → IsStopped (stop true server d).0 (stop true server d).1
      × ((stop true server d).0.socket_path ≡ server.socket_path)
unfolding stop
stop-IsStopped server d on = simp on ((refl, refl, refl, exists-removed server.socket_path d), refl)

stop-idle : (server : Server) (d : Disk) → server.running ≡ false → stop true server d ≡ (server, d)
unfolding stop
stop-idle server d off = simp off refl

signal_handler_lem :
    (failed : Bool) (server : Server) (d : Disk)
    → IsServing server
    → ((signal_handler failed true server d).0.socket_path ≡ server.socket_path)
      × (IsServing (signal_handler failed true server d).0
          ⊎ IsStopped
              (signal_handler failed true server d).0
              (signal_handler failed true server d).1)
unfolding signal_handler
signal_handler_lem true server d serving = (refl, inl serving)
signal_handler_lem false server d serving =
    let (stopped, path) = stop-IsStopped server d serving.0 in (path, inr stopped)

module _ (json : JsonLibrary) where
  complete-IsSound :
      (e : Completion) (path : FilePath) (server : Server) (s : Storage) (d : Disk)
      → NoSignal e
      → server.socket_path ≡ path
      → IsServing server
      → IsSound path (complete json e (server, s, d))
  unfolding complete
  complete-IsSound (accepted answer leftover) path server s d can at serving =
      let (after, same) = accept_handler-IsServing answer leftover server serving in
      (same ∙ at, inl after)
  complete-IsSound (signalled failed removed) path server s d can at serving =
      rw can (at, inl serving)
  complete-IsSound (read index chunk draws) path server s d can at serving = (at, inl serving)
  complete-IsSound (written index) path server s d can at serving = (at, inl serving)

  run-ends :
      (es : List Completion) (server : Server) (s : Storage) (d : Disk)
      → server.context ≡ false
      → run json es (server, s, d) ≡ (server, s, d)
  unfolding run
  run-ends [] server s d ended = refl
  run-ends (e ∷ es) server s d ended = simp ended refl

  run-IsSound :
      (es : List Completion) (path : FilePath) (server : Server) (s : Storage) (d : Disk)
      → All NoSignal es
      → IsSound path (server, s, d)
      → IsSound path (run json es (server, s, d))
  unfolding run
  run-IsSound [] path server s d can h = h
  run-IsSound (e ∷ es) path server s d (can, cans) (at, inl serving) =
      let after = complete json e (server, s, d) in
      elim (Bool-cases (any_thrown server.connections)) [
        | inl over ↦ simp (serving.1, over) (at, inl (serving.0, refl, serving.2, serving.3))
        | inr on ↦
            simp (serving.1, on)
              (run-IsSound es path (after.0) (after.1) (after.2) cans
                (complete-IsSound e path server s d can at serving))
      ]
  run-IsSound (e ∷ es) path server s d (can, cans) (at, inr stopped) =
      subst (λ x. IsSound path x) (sym (run-ends (e ∷ es) server s d stopped.1)) (at, inr stopped)

  module _ (bind : FilePath → Disk → Option Disk) (leftover : Bool) (es : List Completion)
      (can : All NoSignal es) where
    opened-IsServing :
        (server : Server)
        → server.accepting ≡ []
        → IsServing (opened leftover server)
          × ((opened leftover server).socket_path ≡ server.socket_path)
    unfolding opened accept
    opened-IsServing server none_yet = simp none_yet ((refl, refl, refl, refl), refl)

    -- A server that is stopped at the end leaves its path free.
    stop-cleans :
        (path : FilePath) (server : Server) (s : Storage) (d : Disk)
        → IsSound path (server, s, d)
        → IsStopped (stop true server d).0 (stop true server d).1
          × (exists (stop true server d).1 path ≡ false)
    stop-cleans path server s d (at, inl serving) =
        let (stopped, same) = stop-IsStopped server d serving.0 in
        (stopped, subst (λ p. exists (stop true server d).1 p ≡ false) (same ∙ at) (stopped.3))
    stop-cleans path server s d (at, inr stopped) =
        subst (λ x. IsStopped (x.0) (x.1) × (exists (x.1) path ≡ false))
          (sym (stop-idle server d stopped.0))
          (stopped, subst (λ p. exists d p ≡ false) at stopped.3)

    start-serves :
        (a : Answers) (server : Server) (s : Storage) (d d' : Disk)
        → server.running ≡ false
        → a.status_ec && exists d server.socket_path ≡ false
        → (ensure_directory_exists a (parent_path server.socket_path) true d).0 ≡ true
        → bind server.socket_path
            (ensure_directory_exists a (parent_path server.socket_path) true d).1
          ≡ some d'
        → start json bind a leftover es (server, s, d) ≡ (
          (if any_thrown (run json es (opened leftover server, s, d')).0.connections then 1 else 0),
          run json es (opened leftover server, s, d'),
        )
    unfolding start serve
    start-serves a server s d d' off free ready bound = simp (off, free, ready, bound) refl

    -- The end of a call.
    Cleaned : FilePath → ℕ × State → Type 0
    Cleaned path (code, (server, s, d)) =
        (code ≡ 1)
        × IsStopped (stop true server d).0 (stop true server d).1
        × (exists (stop true server d).1 path ≡ false)

    -- When an exception of a read's handler leaves the loop of a server, whose socket's path was
    -- free, whose directory could be made and whose socket could be bound, the call returns 1, and
    -- the server is stopped, with no acceptor and no context, and nothing stands at the path of
    -- the socket. Conditions: no signal has come before, and the socket's file can be removed.
    pub start_server-cleans :
        (a : Answers) (temp_directory : FilePath) (socket_path : Option FilePath) (s : Storage)
        (d d' : Disk)
        → a.status_ec && exists d (get_socket_path temp_directory socket_path) ≡ false
        → (ensure_directory_exists a
            (parent_path (get_socket_path temp_directory socket_path))
            true
            d).0
          ≡ true
        → bind
            (get_socket_path temp_directory socket_path)
            (ensure_directory_exists a
              (parent_path (get_socket_path temp_directory socket_path))
              true
              d).1
          ≡ some d'
        → any_thrown
            (run json es
              (opened leftover (new_server temp_directory socket_path), s, d')).0.connections
          ≡ true
        → let r = start_server json bind a leftover temp_directory socket_path true es s d in
          (r.0 ≡ 1)
          × IsStopped (r.1.0) (r.1.2)
          × (exists (r.1.2) (get_socket_path temp_directory socket_path) ≡ false)
    unfolding start_server new_server Cleaned
    start_server-cleans a temp_directory socket_path s d d' free ready bound over =
        let path = get_socket_path temp_directory socket_path in
        let server = new_server temp_directory socket_path in
        let (serving, same) = opened-IsServing server refl in
        let last = run json es (opened leftover server, s, d') in
        let sound = run-IsSound es path (opened leftover server) s d' can (same, inl serving) in
        let cleaned = stop-cleans path (last.0) (last.1) (last.2) sound in
        subst (λ x. Cleaned path x) (sym (start-serves a server s d d' refl free ready bound))
          (rw over refl, cleaned.0, cleaned.1)
