-- ===== src/Connection/Durable.antt =====
-- What the requests of a connection do to the storage: sound calls, whatever the client sends.
use octet.Prelude.{
  ℕ, zero, suc, ◌≡◌, inl, inr, Option, none, some, [], ◌∷◌, ◌++◌, nat_eq, list_eq, Bool-cases,
  Bytes, length,
}
use octet.Disk.{Disk}
use octet.Protocol.{
  JsonLibrary, Request, CommandType, from_json, extract_message, insert, get, update, remove, ping,
  unknown,
}
use octet.Storage.{Storage}
use octet.Storage.Kept.{Kept, IsSoundFor, insert-Kept, update-Kept, remove-Kept}
use octet.Connection.{
  Connection, Draw, handle_insert, handle_get, write, handle_update, handle_remove, handle_request,
  respond, serve_message, turn, process_loop, process_messages, on_read, keep,
}

-- No call of the storage throws, and the system's answers are sound.
abbrev pub IsSoundDraw : Draw → Type 0
IsSoundDraw w = (w.thrown ≡ none) × IsSoundFor w.answers w.new_uuid w.now

module _ (s0 : Storage) (d0 : Disk) where
  -- The answer is left aside.
  abbrev KeptBy : {A : Type 0} → A × Storage × Disk → Type 0
  KeptBy (r, s, d) = Kept s0 d0 s d

  handle_insert-Kept :
      (w : Draw) (id : Bytes) (o : Option Bytes) (s : Storage) (d : Disk)
      → IsSoundDraw w
      → Kept s0 d0 s d
      → KeptBy (handle_insert w id o s d)
  unfolding handle_insert
  handle_insert-Kept w id none s d sound h = h
  handle_insert-Kept w id (some data') s d sound h =
      rw sound.0 (insert-Kept s0 d0 w.answers w.now w.new_uuid data' s d (sound.1) h)

  handle_get-Kept :
      (w : Draw) (id : Bytes) (u : Option Bytes) (s : Storage) (d : Disk)
      → IsSoundDraw w
      → Kept s0 d0 s d
      → KeptBy (handle_get w id u s d)
  unfolding handle_get
  handle_get-Kept w id none s d sound h = h
  handle_get-Kept w id (some uuid) s d sound h = rw sound.0 h

  handle_update-Kept :
      (w : Draw) (id : Bytes) (u o : Option Bytes) (s : Storage) (d : Disk)
      → IsSoundDraw w
      → Kept s0 d0 s d
      → KeptBy (handle_update w id u o s d)
  unfolding handle_update
  handle_update-Kept w id none o s d sound h = h
  handle_update-Kept w id (some uuid) none s d sound h = h
  handle_update-Kept w id (some uuid) (some data') s d sound h =
      rw sound.0 (update-Kept s0 d0 w.answers w.now w.new_uuid uuid data' s d (sound.1) h)

  handle_remove-Kept :
      (w : Draw) (id : Bytes) (u : Option Bytes) (s : Storage) (d : Disk)
      → IsSoundDraw w
      → Kept s0 d0 s d
      → KeptBy (handle_remove w id u s d)
  unfolding handle_remove
  handle_remove-Kept w id none s d sound h = h
  handle_remove-Kept w id (some uuid) s d sound h =
      rw sound.0 (remove-Kept s0 d0 w.answers w.now w.new_uuid uuid s d (sound.1) h)

  by_command-Kept :
      (c : CommandType) (w : Draw) (id : Bytes) (u o : Option Bytes) (s : Storage) (d : Disk)
      → IsSoundDraw w
      → Kept s0 d0 s d
      → KeptBy (handle_request w (record { request_id = id; command = c; uuid = u; data' = o }) s d)
  unfolding handle_request
  by_command-Kept insert w id u o s d sound h = handle_insert-Kept w id o s d sound h
  by_command-Kept get w id u o s d sound h = handle_get-Kept w id u s d sound h
  by_command-Kept update w id u o s d sound h = handle_update-Kept w id u o s d sound h
  by_command-Kept remove w id u o s d sound h = handle_remove-Kept w id u s d sound h
  by_command-Kept ping w id u o s d sound h = h
  by_command-Kept unknown w id u o s d sound h = h

  module _ (json : JsonLibrary) where
    respond-Kept :
        (w : Draw) (o : Option Request) (s : Storage) (d : Disk)
        → IsSoundDraw w
        → Kept s0 d0 s d
        → KeptBy (respond json w o s d)
    unfolding respond
    respond-Kept w none s d sound h = h
    respond-Kept w (some r) s d sound h =
        by_command-Kept r.command w r.request_id r.uuid r.data' s d sound h

    turn-Kept :
        (p : Option Bytes × Bytes) (go : Connection → Storage → Disk → Connection × Storage × Disk)
        (w : Draw) (c : Connection) (s : Storage) (d : Disk)
        → IsSoundDraw w
        → Kept s0 d0 s d
        → ((c' : Connection) (s' : Storage) (d' : Disk) → Kept s0 d0 s' d' → KeptBy (go c' s' d'))
        → KeptBy (turn json p go w c s d)
    unfolding turn serve_message
    turn-Kept (none, buffer) go w c s d sound h later = h
    turn-Kept (some message, buffer) go w c s d sound h later =
        let (response, s', d') = respond json w (from_json json message) s d in
        let c' = write json response (record c { read_buffer = buffer }) in
        let kept = respond-Kept w (from_json json message) s d sound h in
        elim (Bool-cases c'.thrown) [
          | inl over ↦ simp over kept
          | inr on ↦ simp on (later c' s' d' kept)
        ]

    process_loop-Kept :
        (fuel : ℕ) (w : ℕ → Draw) (c : Connection) (s : Storage) (d : Disk)
        → ((n : ℕ) → IsSoundDraw (w n))
        → Kept s0 d0 s d
        → KeptBy (process_loop json fuel w c s d)
    unfolding process_loop
    process_loop-Kept zero w c s d sound h = h
    process_loop-Kept (suc fuel) w c s d sound h =
        turn-Kept (extract_message c.read_buffer) (process_loop json fuel (λ n. w (suc n))) (w 0) c
          s d (sound 0) h
          (λ c' s' d' h'. process_loop-Kept fuel (λ n. w (suc n)) c' s' d' (λ n. sound (suc n)) h')

    -- Whatever arrives, a read only makes sound calls of the storage.
    pub process_messages-Kept :
        (w : ℕ → Draw) (c : Connection) (s : Storage) (d : Disk)
        → ((n : ℕ) → IsSoundDraw (w n))
        → Kept s0 d0 s d
        → Kept s0 d0 (process_messages json w c s d).1 (process_messages json w c s d).2
    unfolding process_messages
    process_messages-Kept w c s d sound h =
        process_loop-Kept (suc (length c.read_buffer)) w c s d sound h

    pub on_read-Kept :
        (chunk : Option Bytes) (w : ℕ → Draw) (c : Connection) (s : Storage) (d : Disk)
        → ((n : ℕ) → IsSoundDraw (w n))
        → Kept s0 d0 s d
        → Kept s0 d0 (on_read json chunk w c s d).1 (on_read json chunk w c s d).2
    unfolding on_read
    on_read-Kept none w c s d sound h = h
    on_read-Kept (some []) w c s d sound h = h
    on_read-Kept (some (b ∷ chunk)) w c s d sound h =
        let c' = record c { read_buffer = keep (b ∷ chunk) c.read_buffer ++ (b ∷ chunk) } in
        process_messages-Kept w c' s d sound h
