-- ===== src/Connection/Messages.antt =====
-- The loop of `processMessages` over a stream of frames.
use octet.Prelude.{
  ℕ, suc, ◌<◌, ◌≡◌, refl, Bool, true, false, Option, none, some, List, [], ◌∷◌, ◌++◌, nat_eq,
  list_eq, has_value, Bytes, length,
}
use octet.Disk.{Disk}
use octet.Storage.{Storage}
use octet.Protocol.{Response, JsonLibrary, from_json, to_json, wrap_message, extract_message}
use octet.Protocol.Frames.{frame_limit}
use octet.Connection.{
  Connection, Draw, respond, write, write_text, start_unless, do_write, send_next, enqueue,
}

unfoldable pub stream : List Bytes → Bytes
stream [] = []
stream (message ∷ messages) = wrap_message message ++ stream messages

abbrev pub IsShort : Bytes → Type 0
IsShort message = length message < frame_limit

-- No message of which a part is still missing is extracted.
abbrev pub IsPartial : Bytes → Type 0
IsPartial rest = (extract_message rest).0 ≡ none

send_next-buffer :
    (queue : List Bytes) (b : Bytes) (c : Connection)
    → send_next queue (record c { read_buffer = b })
      ≡ record (send_next queue c) { read_buffer = b }
unfolding send_next
send_next-buffer [] b c = refl
send_next-buffer (x ∷ queue) b c = refl

start_unless-buffer :
    (busy : Bool) (b : Bytes) (c : Connection)
    → start_unless busy (record c { read_buffer = b })
      ≡ record (start_unless busy c) { read_buffer = b }
unfolding start_unless do_write
start_unless-buffer true b c = refl
start_unless-buffer false b c = send_next-buffer c.write_queue b c

module _ (json : JsonLibrary) where
  -- The requests answered one after the other, each on what the one before left; no buffers.
  unfoldable pub answer_all :
      (ℕ → Draw) → List Bytes → Storage → Disk → List Response × Storage × Disk
  answer_all w [] s d = ([], s, d)
  answer_all w (message ∷ messages) s d =
      let (response, s', d') = respond json (w 0) (from_json json message) s d in
      let (responses, s'', d'') = answer_all (λ n. w (suc n)) messages s' d' in
      (response ∷ responses, s'', d'')

  unfoldable pub write_all : List Response → Connection → Connection
  write_all [] c = c
  write_all (response ∷ responses) c = write_all responses (write json response c)

  write_text-buffer :
      (text : Option Bytes) (b : Bytes) (c : Connection)
      → write_text text (record c { read_buffer = b })
        ≡ record (write_text text c) { read_buffer = b }
  unfolding write_text enqueue
  write_text-buffer none b c = refl
  write_text-buffer (some text) b c =
      start_unless-buffer c.write_in_progress b
        (record c { write_queue = c.write_queue ++ (wrap_message text ∷ []) })

  -- Its JSON text can be written.
  abbrev pub HasText : Response → Type 0
  HasText r = has_value (to_json json r) ≡ true

  pub write-buffer :
      (r : Response) (b : Bytes) (c : Connection)
      → write json r (record c { read_buffer = b }) ≡ record (write json r c) { read_buffer = b }
  unfolding write
  write-buffer r b c = write_text-buffer (to_json json r) b c
