-- ===== src/Server/Keeping.antt =====
-- What a whole run of the server keeps, with the socket and the signals.
use octet.Prelude.{
  ℕ, ◌≡◌, refl, sym, ap, subst, ◌∙◌, ◌≢◌, inl, inr, Bool, true, false, ◌&&◌, Option, none, some,
  List, [], ◌∷◌, arith, nat_eq, list_eq, if◌then◌else◌, Bool-cases,
}
use octet.Disk.{FilePath, parent_path, Disk, Answers, directory, exists, set_node, node-set_node_ne}
use octet.FileChecks.{ensure_directory_exists}
use octet.Protocol.{JsonLibrary}
use octet.Storage.{Storage}
use octet.Storage.Contract.{view}
use octet.Storage.Runs.{here, Reach-IsDurable}
use octet.Storage.Kept.{IsKept}
use octet.Storage.Paths.{SameFiles}
use octet.Storage.Evolution.{
  Evolves, as_before, Reach-Evolves, Reach-SameFiles, SameAt-except, IsKept-elsewhere, IsApart,
}
use octet.Connection.{Connection}
use octet.Connection.Durable.{IsSoundDraw}
use octet.Server.{
  State, any_thrown, Server, new_server, get_socket_path, accept, stop, Accepted, connected,
  aborted, refused, start_first, accept_handler, signal_handler, Completion, accepted, signalled,
  read, written, opened, complete, run, serve, start, start_server,
}
use octet.Server.Restart.{read_at-Kept}

-- The reads draw sound answers; signals may come.
abbrev pub IsSoundCompletion : Completion → Type 0
IsSoundCompletion (read index chunk draws) = (n : ℕ) → IsSoundDraw (draws n)
IsSoundCompletion _ = Unit

abbrev pub AreSound : List Completion → Type 0
AreSound [] = Unit
AreSound (e ∷ es) = IsSoundCompletion e × AreSound es

-- Memory and disk agree, in the same files, and the map has come from the first one by strings put and
-- removed; the server is at its socket.
abbrev pub HasKept : Storage → FilePath → State → Type 0
HasKept s0 path (server, s, d) =
    IsKept s d × SameFiles s s0 × Evolves (view s0) (view s) × (server.socket_path ≡ path)

-- To bind a socket changes the file system only at its path.
abbrev pub BindsOnly : (FilePath → Disk → Option Disk) → Type 0
BindsOnly bind = (p q : FilePath) (d d' : Disk) → bind p d ≡ some d' → p ≢ q → d'.node q ≡ d.node q

ensure_directory_exists-same :
    (a : Answers) (dir : FilePath) (d : Disk)
    → d.node dir ≡ some directory
    → (ensure_directory_exists a dir true d).1 ≡ d
unfolding ensure_directory_exists
ensure_directory_exists-same a dir d there = simp there (ground arith)

stop-path :
    (removed : Bool) (server : Server) (d : Disk)
    → (stop removed server d).0.socket_path ≡ server.socket_path
unfolding stop
stop-path removed server d = ground arith

stop-only :
    (removed : Bool) (server : Server) (d : Disk) (q : FilePath)
    → server.socket_path ≢ q
    → (stop removed server d).1.node q ≡ d.node q
unfolding stop
stop-only removed server d q other = elim (Bool-cases server.running) [
  | inr off ↦ simp off refl
  | inl on ↦ simp on (removed-only removed)
]
  where
    removed-only :
        (b : Bool) → (if b then set_node server.socket_path none d else d).node q ≡ d.node q
    removed-only true = node-set_node_ne server.socket_path q none d other
    removed-only false = refl

module _ (s0 : Storage) (path : FilePath) (apart : IsApart path s0) where
  -- Only the socket's node is changed.
  elsewhere :
      (server : Server) (s : Storage) (d d' : Disk)
      → ((q : FilePath) → path ≢ q → d'.node q ≡ d.node q)
      → HasKept s0 path (server, s, d)
      → HasKept s0 path (server, s, d')
  elsewhere server s d d' only (kept, (journal, snapshot), evolved, at) =
      let apart' : IsApart path s = rw (journal, snapshot) apart in
      (
        IsKept-elsewhere s d d' (SameAt-except path s d d' only apart') kept,
        (journal, snapshot),
        evolved,
        at,
      )

  stop-HasKept :
      (removed : Bool) (server : Server) (s : Storage) (d : Disk)
      → HasKept s0 path (server, s, d)
      → HasKept s0 path ((stop removed server d).0, s, (stop removed server d).1)
  stop-HasKept removed server s d h =
      let (kept, files, evolved, at) =
        elsewhere server s d (stop removed server d).1
          (λ q other. stop-only removed server d q (λ e. other (sym (h.3) ∙ e))) h in
      (kept, files, evolved, stop-path removed server d ∙ at)

  start_first-path :
      (answer : Accepted) (server : Server) (cs : List Connection)
      → (start_first answer server cs).socket_path ≡ server.socket_path
  start_first-path answer server [] = refl
  start_first-path connected server (c ∷ cs) = refl
  start_first-path aborted server (c ∷ cs) = refl
  start_first-path refused server (c ∷ cs) = refl

  accept-path :
      (leftover : Bool) (server : Server)
      → (accept leftover server).socket_path ≡ server.socket_path
  unfolding accept
  accept-path leftover server = ground arith

  opened-path :
      (leftover : Bool) (server : Server)
      → (opened leftover server).socket_path ≡ server.socket_path
  unfolding opened
  opened-path leftover server =
      accept-path leftover (record server { context = true; acceptor = true })

  accept_handler-path :
      (answer : Accepted) (leftover : Bool) (server : Server)
      → (accept_handler answer leftover server).socket_path ≡ server.socket_path
  unfolding accept_handler
  accept_handler-path answer leftover server =
      let first = start_first answer server server.accepting in
      let same = start_first-path answer server server.accepting in
      elim (Bool-cases server.running) [
        | inl on ↦ simp on (accept-path leftover first ∙ same)
        | inr off ↦ simp off same
      ]

  module _ (json : JsonLibrary) where
    complete-HasKept :
        (e : Completion) (server : Server) (s : Storage) (d : Disk)
        → IsSoundCompletion e
        → HasKept s0 path (server, s, d)
        → HasKept s0 path (complete json e (server, s, d))
    unfolding complete signal_handler
    complete-HasKept (accepted answer leftover) server s d sound (kept, files, evolved, at) =
        (kept, files, evolved, accept_handler-path answer leftover server ∙ at)
    complete-HasKept (signalled true removed) server s d sound h = h
    complete-HasKept (signalled false removed) server s d sound h =
        stop-HasKept removed server s d h
    complete-HasKept (written index) server s d sound h = h
    complete-HasKept (read index chunk draws) server s d sound
          (kept, (journal, snapshot), evolved, at) =
        let (reach, keyed) =
          read_at-Kept json s d index chunk draws server.connections s d sound (here, kept.1) in
        let (journal', snapshot') = Reach-SameFiles reach in
        (
          (Reach-IsDurable reach (kept.0), keyed),
          (journal' ∙ journal, snapshot' ∙ snapshot),
          Reach-Evolves (view s0) reach evolved,
          at,
        )

    run-HasKept :
        (es : List Completion) (server : Server) (s : Storage) (d : Disk)
        → AreSound es
        → HasKept s0 path (server, s, d)
        → HasKept s0 path (run json es (server, s, d))
    unfolding run
    run-HasKept [] server s d sound h = h
    run-HasKept (e ∷ es) server s d (sound, later) h =
        let (server', s', d') = complete json e (server, s, d) in
        let after = run-HasKept es server' s' d' later (complete-HasKept e server s d sound h) in
        elim (Bool-cases server.context) [
          | inl on ↦ elim (Bool-cases (any_thrown server.connections)) [
            | inl over ↦ simp (on, over) h
            | inr calm ↦ simp (on, calm) after
          ]
          | inr off ↦ simp off h
        ]

    module _ (bind : FilePath → Disk → Option Disk) (binds : BindsOnly bind) where
      serve-HasKept :
          (leftover : Bool) (es : List Completion) (o : Option Disk) (server : Server) (s : Storage)
          (d : Disk)
          → AreSound es
          → o ≡ bind path d
          → HasKept s0 path (server, s, d)
          → HasKept s0 path ((serve json bind leftover es o (server, s, d)).1)
      unfolding serve opened
      serve-HasKept leftover es none server s d sound e h = h
      serve-HasKept leftover es (some bound) server s d sound e h =
          let (kept, files, evolved, at) =
            elsewhere server s d bound (λ q other. binds path q d bound (sym e) other) h in
          run-HasKept es (opened leftover server) s bound sound
            (kept, files, evolved, opened-path leftover server ∙ at)

      start-HasKept :
          (a : Answers) (leftover : Bool) (es : List Completion) (server : Server) (s : Storage)
          (d : Disk)
          → AreSound es
          → d.node (parent_path path) ≡ some directory
          → HasKept s0 path (server, s, d)
          → HasKept s0 path ((start json bind a leftover es (server, s, d)).1)
      unfolding start
      start-HasKept a leftover es server s d sound there h =
          let (ready, d') = ensure_directory_exists a (parent_path server.socket_path) true d in
          let same : d' ≡ d =
            ensure_directory_exists-same a (parent_path server.socket_path) d
              (ap (λ p. d.node (parent_path p)) (h.3) ∙ there) in
          elim (Bool-cases server.running) [
            | inl on ↦ simp on h
            | inr off ↦ elim (Bool-cases (a.status_ec && exists d server.socket_path)) [
              | inl taken ↦ simp (off, taken) h
              | inr free ↦ simp (off, free) (chosen ready d' same)
            ]
          ]
        where
          chosen :
              (ready : Bool) (d' : Disk)
              → d' ≡ d
              → HasKept s0 path (
                  (if ready
                    then serve json bind leftover es (bind server.socket_path d') (server, s, d')
                    else (0, (server, s, d'))).1)
          chosen true d' e =
              serve-HasKept leftover es (bind server.socket_path d') server s d' sound
                (ap (λ p. bind p d') (h.3)) (subst (λ x. HasKept s0 path (server, s, x)) (sym e) h)
          chosen false d' e = subst (λ x. HasKept s0 path (server, s, x)) (sym e) h

-- A run of the server keeps the files and their agreement with memory, and changes strings only by
-- putting and removing them, whatever its clients and the signals do.
pub start_server-HasKept :
    (json : JsonLibrary) (bind : FilePath → Disk → Option Disk) (a : Answers) (leftover : Bool)
    (temp_directory : FilePath) (socket_path : Option FilePath) (removed : Bool)
    (es : List Completion) (s : Storage) (d : Disk)
    → let path = get_socket_path temp_directory socket_path in
      BindsOnly bind
      → IsApart path s
      → d.node (parent_path path) ≡ some directory
      → AreSound es
      → IsKept s d
      → HasKept s path
          ((start_server json bind a leftover temp_directory socket_path removed es s d).1)
unfolding start_server new_server
start_server-HasKept json bind a leftover temp_directory socket_path removed es s d binds apart
      there sound kept =
    let path = get_socket_path temp_directory socket_path in
    let server = new_server temp_directory socket_path in
    let (_, (server', s', d')) = start json bind a leftover es (server, s, d) in
    stop-HasKept s path apart removed server' s' d' (
      start-HasKept s path apart json bind binds a leftover es server s d sound there
        (kept, (refl, refl), as_before, refl))
