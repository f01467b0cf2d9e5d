-- ===== src/Examples/Requests.antt =====
-- Examples for the server's side, over a toy JSON in which a text stands for itself.
use octet.Prelude.{
  ℕ, ◌≤◌, ◌≡◌, refl, ap, true, false, Option, none, some, List, [], ◌∷◌, ◌++◌, arith, nat_eq,
  list_eq, Bytes, length,
}
use octet.Protocol.{update, Request, JsonLibrary}
use octet.Connection.{do_write, enqueue, Draw, create, max_buffer_size, handle_request, on_read}
use octet.Connection.Queue.{
  frames, WriteEvent, buffer_written, write_ended, happen, buffers, happen-frames, idle_has_sent,
  only_written, never_sent,
}
use octet.Connection.Requests.{IsAnswerTo, handle_request-consistent}
use octet.Connection.Bounds.{on_read-bounded}
use octet.Examples.{new_disk, new_storage, well, stamp, uuid, text}

-- No text is an object, so that no request is well formed; what is written is its first text.
abbrev toy : JsonLibrary
toy = record {
  Json = Bytes;
  parse = λ t. some t;
  dump = λ t. some t;
  member = λ name t. none;
  as_string = λ t. some t;
  null = [];
  string = λ t. t;
  boolean = λ b. [];
  object = λ ms. [];
}

abbrev draw : Draw
draw = record { answers = well; now = stamp; new_uuid = uuid; thrown = none }

abbrev option_length : Option Bytes → ℕ
option_length none = 0
option_length (some t) = length t

short_chunk : (bytes : Bytes) → some text ≡ some bytes → length bytes ≤ 1024
short_chunk bytes e = omega (arith, ap option_length e)

on_read-bounded_example :
    length (on_read toy (some text) (λ n. draw) (create false) new_storage new_disk).0.read_buffer
    ≤ max_buffer_size
on_read-bounded_example =
    on_read-bounded toy (some text) (λ n. draw) (create false) new_storage new_disk short_chunk
      (unfold create in omega arith)

abbrev some_events : List WriteEvent
some_events = buffer_written text ∷ buffer_written stamp ∷ write_ended ∷ write_ended ∷ []

happen-frames_example :
    frames (happen some_events (create false)) ≡ frames (create false) ++ buffers some_events
happen-frames_example = happen-frames some_events (create false)

idle_has_sent_example : (happen some_events (create false)).handed ≡ buffers some_events
idle_has_sent_example = idle_has_sent some_events (unfold happen create do_write enqueue in refl)

never_sent_example : (happen (only_written (text ∷ stamp ∷ [])) (create true)).handed ≡ []
never_sent_example = never_sent (text ∷ stamp ∷ [])

abbrev update_request : Request
update_request = record {
  request_id = stamp;
  command = update;
  uuid = some uuid;
  data' = some text;
}

handle_request-consistent_example :
    IsAnswerTo update_request.request_id (handle_request draw update_request new_storage new_disk).0
handle_request-consistent_example =
    handle_request-consistent draw update_request new_storage new_disk
