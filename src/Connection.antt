-- ===== src/Connection.antt =====
-- app/cli/server/connection.cpp: the requests of one connection, the buffer they are read into and
-- the queue of the answers. The handlers that Boost.Asio calls are steps here; what it is given to
-- send is kept in `handed`, the oldest first.
pub mod Durable
pub mod Queue
pub mod Requests
pub mod Messages
pub mod Bounds
use octet.Prelude.{
  ℕ, zero, suc, ◌+◌, ◌-◌, ◌*◌, ◌/◌, ◌%◌, ◌^◌, ◌≤◌, ◌<◌, String, ◌≡◌, refl, sym, ap, subst, ◌∙◌,
  fun_ext, ◌≢◌, ◌↔◌, ◌⊎◌, inl, inr, Bool, true, false, ◌&&◌, ◌||◌, not, Option, none, some, List,
  [], ◌∷◌, ◌++◌, append_assoc, append-nil, arith, Comparable, ◌==◌, nat_eq, list_eq, list_beq,
  list_beq_iff, beq_refl, beq_ne, ltb, leb, nat_beq, nat_beq_iff, if◌then◌else◌, has_value,
  Bool-cases, Option-cases, Bytes, codes, length, take, drop, length-append, take-length-append,
  drop-length-append, length-drop, All, All-append, Lacks,
}
use octet.Disk.{Disk, Answers}
use octet.Storage
use octet.Storage.{Storage}
use octet.Protocol.{
  Request, Response, JsonLibrary, insert, get, update, remove, ping, unknown, from_json, to_json,
  wrap_message, extract_message,
}

pub record Connection : Type 0 where
  pub read_buffer : Bytes
  pub write_queue : List Bytes
  pub write_in_progress : Bool
  pub reading : Bool
  -- an exception has left the handler of a read
  pub thrown : Bool
  pub handed : List Bytes

-- The constructor gives `writeInProgress_` no value: it has what its memory held before.
unfoldable pub create : Bool → Connection
create leftover = record {
  read_buffer = [];
  write_queue = [];
  write_in_progress = leftover;
  reading = true;
  thrown = false;
  handed = [];
}

abbrev pub max_buffer_size : ℕ
max_buffer_size = 16384

-- What one request draws from outside: the answers of the system, the text of the clock and the
-- identifier of the generator; and what a call of the storage throws, if it does, with the state that
-- it leaves then.
pub record Draw : Type 0 where
  pub answers : Answers
  pub now : Bytes
  pub new_uuid : Bytes
  pub thrown : Option (Bytes × Storage × Disk)

abbrev pub answer : Bytes → Response
answer id = record { request_id = id; success = true; uuid = none; data' = none; error = none }

abbrev pub failure : Bytes → Bytes → Response
failure id text = record {
  request_id = id;
  success = false;
  uuid = none;
  data' = none;
  error = some text;
}

inserted : Bytes → Option Bytes → Response
inserted id (some uuid) = record (answer id) { uuid = some uuid }
inserted id none = failure id (codes "Failed to insert data")

found : Bytes → Option Bytes → Response
found id (some data') = record (answer id) { data' = some data' }
found id none = failure id (codes "Data not found")

-- The `catch` around the calls of the storage.
unfoldable pub caught :
    Option (Bytes × Storage × Disk) → Bytes → Response × Storage × Disk → Response × Storage × Disk
caught none id result = result
caught (some (what, s, d)) id result = (failure id (codes "Exception: " ++ what), s, d)

handle_insert : Draw → Bytes → Option Bytes → Storage → Disk → Response × Storage × Disk
unfolding inserted caught
handle_insert w id none s d = (failure id (codes "Missing data for INSERT"), s, d)
handle_insert w id (some data') s d =
    let (result, s', d') = Storage.insert w.answers w.now w.new_uuid data' s d in
    caught w.thrown id (inserted id result, s', d')

handle_get : Draw → Bytes → Option Bytes → Storage → Disk → Response × Storage × Disk
unfolding found caught
handle_get w id none s d = (failure id (codes "Missing uuid for GET"), s, d)
handle_get w id (some uuid) s d = caught w.thrown id (found id (Storage.get uuid s), s, d)

handle_update :
    Draw → Bytes → Option Bytes → Option Bytes → Storage → Disk → Response × Storage × Disk
unfolding caught
handle_update w id (some uuid) (some data') s d =
    let (result, s', d') = Storage.update w.answers w.now uuid data' s d in
    caught w.thrown id
      (if result then answer id else failure id (codes "Failed to update item"), s', d')
handle_update w id uuid data' s d = (failure id (codes "Missing UUID or data for UPDATE"), s, d)

handle_remove : Draw → Bytes → Option Bytes → Storage → Disk → Response × Storage × Disk
unfolding caught
handle_remove w id none s d = (failure id (codes "Missing uuid for REMOVE"), s, d)
handle_remove w id (some uuid) s d =
    let (result, s', d') = Storage.remove w.answers w.now uuid s d in
    caught w.thrown id
      (if result then answer id else failure id (codes "Failed to remove item"), s', d')

unfoldable pub handle_request : Draw → Request → Storage → Disk → Response × Storage × Disk
unfolding handle_insert handle_get handle_update handle_remove
handle_request w r s d = elim r.command [
  | insert ↦ handle_insert w r.request_id r.data' s d
  | get ↦ handle_get w r.request_id r.uuid s d
  | update ↦ handle_update w r.request_id r.uuid r.data' s d
  | remove ↦ handle_remove w r.request_id r.uuid s d
  | ping ↦ (answer r.request_id, s, d)
  | unknown ↦ (failure r.request_id (codes "Unknown command"), s, d)
]

-- `do_write`: the next buffer of the queue goes to the socket. It is also the handler of a write that
-- has ended, with or without an error.
unfoldable pub send_next : List Bytes → Connection → Connection
send_next [] c = record c { write_in_progress = false }
send_next (buffer ∷ queue) c = record c {
  write_in_progress = true;
  write_queue = queue;
  handed = c.handed ++ (buffer ∷ []);
}

unfoldable pub do_write : Connection → Connection
unfolding send_next
do_write c = send_next c.write_queue c

-- A write that is running starts the next one when it ends.
unfoldable pub start_unless : Bool → Connection → Connection
unfolding do_write
start_unless true c = c
start_unless false c = do_write c

unfoldable pub enqueue : Bytes → Connection → Connection
unfolding start_unless
enqueue buffer c =
    start_unless c.write_in_progress (record c { write_queue = c.write_queue ++ (buffer ∷ []) })

-- What stays in the buffer when a chunk arrives: nothing if both are more than it may hold.
unfoldable pub keep : Bytes → Bytes → Bytes
keep chunk buffer = if ltb max_buffer_size (length buffer + length chunk) then [] else buffer

-- A response without a text throws: the handler ends, and with it the reading.
unfoldable pub write_text : Option Bytes → Connection → Connection
unfolding enqueue
write_text none c = record c { thrown = true; reading = false }
write_text (some text) c = enqueue (wrap_message text) c

module _ (json : JsonLibrary) where
  unfoldable pub write : Response → Connection → Connection
  unfolding write_text
  write response c = write_text (to_json json response) c

  unfoldable pub respond : Draw → Option Request → Storage → Disk → Response × Storage × Disk
  respond w none s d = (failure (codes "error") (codes "Invalid request format"), s, d)
  respond w (some request) s d = handle_request w request s d

  -- The body of the loop for a message that has been extracted.
  unfoldable pub serve_message :
      Draw → Bytes → Connection → Storage → Disk → Connection × Storage × Disk
  unfolding respond write
  serve_message w message c s d =
      let (response, s', d') = respond w (from_json json message) s d in (write response c, s', d')

  -- One turn of the loop on what was extracted, with the turns that follow it.
  unfoldable pub turn :
      Option Bytes × Bytes
      → (Connection → Storage → Disk → Connection × Storage × Disk)
      → Draw
      → Connection
      → Storage
      → Disk
      → Connection × Storage × Disk
  unfolding serve_message
  turn (none, _) next w c s d = (c, s, d)
  turn (some message, buffer) next w c s d =
      let (c', s', d') = serve_message w message (record c { read_buffer = buffer }) s d in
      if c'.thrown then (c', s', d') else next c' s' d'

  -- The loop, on fuel: a turn takes the four bytes of a header at least, so that the length of the
  -- buffer is enough.
  unfoldable pub process_loop :
      ℕ → (ℕ → Draw) → Connection → Storage → Disk → Connection × Storage × Disk
  unfolding turn
  process_loop zero w c s d = (c, s, d)
  process_loop (suc fuel) w c s d =
      turn (extract_message c.read_buffer) (process_loop fuel (λ n. w (suc n))) (w 0) c s d

  unfoldable pub process_messages :
      (ℕ → Draw) → Connection → Storage → Disk → Connection × Storage × Disk
  unfolding process_loop
  process_messages w c s d = process_loop (suc (length c.read_buffer)) w c s d

  -- The handler of a read: `none` is an error, which ends the reading.
  unfoldable pub on_read :
      Option Bytes → (ℕ → Draw) → Connection → Storage → Disk → Connection × Storage × Disk
  unfolding process_messages keep
  on_read none w c s d = (record c { reading = false }, s, d)
  on_read (some []) w c s d = (c, s, d)
  on_read (some (b ∷ chunk)) w c s d =
      process_messages w (record c { read_buffer = keep (b ∷ chunk) c.read_buffer ++ (b ∷ chunk) })
        s d
