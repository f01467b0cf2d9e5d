-- ===== src/Examples/Serving.antt =====
-- Examples for the server, over a toy JSON in which every text is an insertion of itself.
use octet.Prelude.{
  ℕ, ◌≡◌, refl, true, false, ◌&&◌, Option, none, some, List, [], ◌∷◌, ◌++◌, arith, ◌==◌, nat_eq,
  list_eq, list_beq, if◌then◌else◌, Bytes, codes,
}
use octet.Disk.{FilePath, Disk, regular, set_node, exists, parent_path}
use octet.FileChecks.{ensure_directory_exists}
use octet.Protocol.{JsonLibrary, wrap_message}
use octet.Map.{find}
use octet.Storage
use octet.Storage.{Storage, fresh, load_from_disk, get}
use octet.Storage.Recovery.{AllReadable, IsFresh}
use octet.Connection
use octet.Connection.{create}
use octet.Storage.Kept.{IsKeyed}
use octet.Server.{
  run, any_thrown, State, complete, Server, new_server, get_socket_path, Completion, accepted,
  connected, read, start_server, opened,
}
use octet.Server.Lifetime.{IsStopped, start_server-cleans}
use octet.Server.Restart.{IsOrdinary, Serves, begun, completed, rounded, restart_after_clients}
use octet.Storage.Lifecycle.{Round, snapshot_round, IsSoundRound}
use octet.Storage.Contract.{view}
use octet.Examples.{
  data_dir, new_disk, new_storage, well, stamp, uuid, text, well-IsAllOrNothing, well-IsReadable,
  uuid-IsId, stamp-IsStamp, new_storage-IsDurable, readable_answers,
}

abbrev pub inserting : JsonLibrary
inserting = record {
  Json = Bytes;
  parse = λ t. some t;
  dump = λ t. some t;
  member = λ name t. some (if name == codes "command" then codes "insert" else t);
  as_string = λ t. some t;
  null = [];
  string = λ t. t;
  boolean = λ b. [];
  object = λ ms. [];
}

abbrev draw : Connection.Draw
draw = record { answers = well; now = stamp; new_uuid = uuid; thrown = none }

abbrev draws : ℕ → Connection.Draw
draws n = draw

abbrev server : Server
server = opened false (new_server data_dir none)

abbrev round : Round
round = record {
  write_answers = well;
  journal_answers = well;
  woken_at = 5;
  now = stamp;
  time = 6;
  snapshot_id = uuid;
}

round-IsSound : IsSoundRound round new_storage
unfolding fresh
round-IsSound = (
  well-IsAllOrNothing,
  well-IsAllOrNothing,
  uuid-IsId,
  stamp-IsStamp,
  record { count = omega arith; pairs = tt },
)

abbrev start : State
start = (server, new_storage, new_disk)

-- The storage's thread has woken once, and a client has come.
abbrev welcomed : State
welcomed = complete inserting (accepted connected false) (
  server,
  (snapshot_round round new_storage new_disk).0,
  (snapshot_round round new_storage new_disk).1,
)

welcomed-Serves : Serves inserting start welcomed
welcomed-Serves = completed (rounded begun round round-IsSound) (accepted connected false) tt

abbrev request : Completion
request = read 0 (some (wrap_message text ++ wrap_message stamp)) draws

request-IsOrdinary : IsOrdinary request
request-IsOrdinary n = (refl, (well-IsAllOrNothing, uuid-IsId, stamp-IsStamp))

abbrev after : State
after = complete inserting request welcomed

after-Serves : Serves inserting start after
after-Serves = completed welcomed-Serves request request-IsOrdinary

abbrev restarted : Storage
restarted = record (after.1) {
  data_store = [];
  journal = record { path = (after.1).journal.path; last_checkpoint_id = none };
}

restarted-IsFresh : IsFresh restarted
restarted-IsFresh = record { empty = refl; no_cache = refl }

readable : AllReadable readable_answers
readable = record {
  check = well-IsReadable;
  snapshot = well-IsReadable;
  last = well-IsReadable;
  replay = well-IsReadable;
}

pub no_keys : IsKeyed (view new_storage)
unfolding Storage.get fresh find
no_keys k h = cc

restart_after_clients_example :
    get uuid (load_from_disk readable_answers stamp restarted (after.2)) ≡ get uuid (after.1)
restart_after_clients_example =
    restart_after_clients inserting start after restarted readable_answers stamp uuid after-Serves
      (new_storage-IsDurable, no_keys) readable restarted-IsFresh refl refl

abbrev pub bind : FilePath → Disk → Option Disk
bind p d = some (set_node p (some (regular [])) d)

-- A JSON that can write nothing: the answer to any message throws.
abbrev mute : JsonLibrary
mute = record inserting { dump = λ t. none }

-- A client comes and sends a message.
abbrev visit : List Completion
visit = accepted connected false ∷ read 0 (some (wrap_message text)) draws ∷ []

abbrev socket : FilePath
socket = get_socket_path data_dir none

abbrev visited : State
visited = run mute visit (
  opened false (new_server data_dir none),
  new_storage,
  set_node socket (some (regular [])) new_disk,
)

left_by_exception : any_thrown (visited.0).connections ≡ true
unfolding get_socket_path any_thrown run opened new_server create wrap_message
    octet.Protocol.extract_message octet.Protocol.decode_length octet.Protocol.to_json
left_by_exception = refl

socket_free : well.status_ec && exists new_disk socket ≡ false
unfolding get_socket_path set_node list_beq
socket_free = refl

directory_ready : (ensure_directory_exists well (parent_path socket) true new_disk).0 ≡ true
unfolding ensure_directory_exists get_socket_path set_node list_beq
directory_ready = refl

start_server-cleans_example :
    let r = start_server mute bind well false data_dir none true visit new_storage new_disk in
    (r.0 ≡ 1) × IsStopped (r.1.0) (r.1.2) × (exists (r.1.2) (get_socket_path data_dir none) ≡ false)
unfolding ensure_directory_exists set_node list_beq get_socket_path
start_server-cleans_example =
    start_server-cleans mute bind false visit (tt, (tt, tt)) well data_dir none new_storage new_disk
      _ socket_free directory_ready refl left_by_exception
