-- ===== src/Connection/Queue.antt =====
-- The queue of the answers: order, progress, and what the value that the constructor leaves does.
use octet.Prelude.{
  ◌≡◌, refl, sym, ap, ◌∙◌, Bool, true, false, List, [], ◌∷◌, ◌++◌, append_assoc, append-nil, nat_eq,
  list_eq, Bytes,
}
use octet.Connection.{Connection, create, send_next, do_write, start_unless, enqueue}

-- Everything that was ever written, the oldest first.
abbrev pub frames : Connection → List Bytes
frames c = c.handed ++ c.write_queue

-- Nothing waits while no write is running.
abbrev pub IsFlowing : Connection → Type 0
IsFlowing c = c.write_in_progress ≡ false → c.write_queue ≡ []

-- What happens to the queue: a buffer is written, or the write of a buffer ends.
pub data WriteEvent : Type 0 where
  buffer_written : Bytes → WriteEvent
  write_ended : WriteEvent

unfoldable pub happen : List WriteEvent → Connection → Connection
happen [] c = c
happen (buffer_written b ∷ es) c = happen es (enqueue b c)
happen (write_ended ∷ es) c = happen es (do_write c)

unfoldable pub buffers : List WriteEvent → List Bytes
buffers [] = []
buffers (buffer_written b ∷ es) = b ∷ buffers es
buffers (write_ended ∷ es) = buffers es

frames-send_next :
    (queue : List Bytes) (c : Connection)
    → queue ≡ c.write_queue
    → frames (send_next queue c) ≡ frames c
unfolding send_next
frames-send_next [] c same = refl
frames-send_next (b ∷ queue) c same =
    append_assoc c.handed (b ∷ []) queue ∙ ap (λ l. c.handed ++ l) same

pub frames-do_write : (c : Connection) → frames (do_write c) ≡ frames c
unfolding do_write
frames-do_write c = frames-send_next c.write_queue c refl

frames-start_unless : (busy : Bool) (c : Connection) → frames (start_unless busy c) ≡ frames c
unfolding start_unless
frames-start_unless true c = refl
frames-start_unless false c = frames-do_write c

pub frames-enqueue : (b : Bytes) (c : Connection) → frames (enqueue b c) ≡ frames c ++ (b ∷ [])
unfolding enqueue
frames-enqueue b c =
    frames-start_unless c.write_in_progress (record c { write_queue = c.write_queue ++ (b ∷ []) })
    ∙ sym (append_assoc c.handed c.write_queue (b ∷ []))

send_next-IsFlowing :
    (queue : List Bytes) (c : Connection) → queue ≡ c.write_queue → IsFlowing (send_next queue c)
unfolding send_next
send_next-IsFlowing [] c same = λ e. sym same
send_next-IsFlowing (b ∷ queue) c same = λ e. cc

do_write-IsFlowing : (c : Connection) → IsFlowing (do_write c)
unfolding do_write
do_write-IsFlowing c = send_next-IsFlowing c.write_queue c refl

start_unless-IsFlowing :
    (busy : Bool) (c : Connection) → busy ≡ c.write_in_progress → IsFlowing (start_unless busy c)
unfolding start_unless
start_unless-IsFlowing true c same = λ e. cc
start_unless-IsFlowing false c same = do_write-IsFlowing c

enqueue-IsFlowing : (b : Bytes) (c : Connection) → IsFlowing (enqueue b c)
unfolding enqueue
enqueue-IsFlowing b c =
    start_unless-IsFlowing c.write_in_progress
      (record c { write_queue = c.write_queue ++ (b ∷ []) }) refl

-- Whatever the order in which buffers are written and writes end, the buffers handed to the socket
-- and those that wait, one after the other, are those that were there before and then the buffers
-- written since, in the order of their writing: none is lost, doubled or overtaken.
pub happen-frames :
    (es : List WriteEvent) (c : Connection) → frames (happen es c) ≡ frames c ++ buffers es
unfolding happen buffers
happen-frames [] c = sym (append-nil (frames c))
happen-frames (buffer_written b ∷ es) c =
    happen-frames es (enqueue b c)
    ∙ ap (λ l. l ++ buffers es) (frames-enqueue b c)
    ∙ append_assoc (frames c) (b ∷ []) (buffers es)
happen-frames (write_ended ∷ es) c =
    happen-frames es (do_write c) ∙ ap (λ l. l ++ buffers es) (frames-do_write c)

happen-IsFlowing : (es : List WriteEvent) (c : Connection) → IsFlowing c → IsFlowing (happen es c)
unfolding happen
happen-IsFlowing [] c flowing = flowing
happen-IsFlowing (buffer_written b ∷ es) c flowing =
    happen-IsFlowing es (enqueue b c) (enqueue-IsFlowing b c)
happen-IsFlowing (write_ended ∷ es) c flowing =
    happen-IsFlowing es (do_write c) (do_write-IsFlowing c)

-- A connection that was created with `writeInProgress_` false and on which no write is running has
-- handed over all the buffers written to it, in order, whatever happened before.
pub idle_has_sent :
    (es : List WriteEvent)
    → (happen es (create false)).write_in_progress ≡ false
    → (happen es (create false)).handed ≡ buffers es
unfolding create
idle_has_sent es idle =
    sym (append-nil (happen es (create false)).handed)
    ∙ ap (λ l. (happen es (create false)).handed ++ l)
        (sym (happen-IsFlowing es (create false) (λ e. refl) idle))
    ∙ happen-frames es (create false)

unfoldable pub only_written : List Bytes → List WriteEvent
only_written [] = []
only_written (b ∷ bs) = buffer_written b ∷ only_written bs

start_unless-true : (busy : Bool) (c : Connection) → busy ≡ true → start_unless busy c ≡ c
unfolding start_unless
start_unless-true true c e = refl
start_unless-true false c e = cc

enqueue-busy :
    (b : Bytes) (c : Connection)
    → c.write_in_progress ≡ true
    → enqueue b c ≡ record c { write_queue = c.write_queue ++ (b ∷ []) }
unfolding enqueue
enqueue-busy b c busy = start_unless-true c.write_in_progress _ busy

stuck :
    (bs : List Bytes) (c : Connection)
    → c.write_in_progress ≡ true
    → (happen (only_written bs) c).handed ≡ c.handed
unfolding happen only_written
stuck [] c busy = refl
stuck (b ∷ bs) c busy =
    ap (λ c'. (happen (only_written bs) c').handed) (enqueue-busy b c busy)
    ∙ stuck bs (record c { write_queue = c.write_queue ++ (b ∷ []) }) busy

-- A connection whose memory held `true` where the constructor leaves `writeInProgress_` unset
-- hands none of the buffers written to it to the socket, as long as no end of a write is reported
-- to it.
pub never_sent : (bs : List Bytes) → (happen (only_written bs) (create true)).handed ≡ []
unfolding create
never_sent bs = stuck bs (create true) refl
