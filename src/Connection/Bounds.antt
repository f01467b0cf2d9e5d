-- ===== src/Connection/Bounds.antt =====
-- The size of the read buffer.
use octet.Prelude.{
  ℕ, zero, suc, ◌≤◌, ◌≡◌, refl, ap, inl, inr, Option, none, some, [], ◌∷◌, ◌++◌, arith, nat_eq,
  list_eq, Bool-cases, Bytes, length, length-append, length-drop,
}
use octet.Disk.{Disk}
use octet.Storage.{Storage}
use octet.Protocol.{JsonLibrary, from_json, decode_length, extract_message}
use octet.Connection.{
  Connection, Draw, max_buffer_size, respond, write, serve_message, turn, process_loop,
  process_messages, keep, on_read,
}
use octet.Connection.Messages.{write-buffer}

keep-fits :
    (chunk buffer : Bytes)
    → length chunk ≤ 1024
    → length (keep chunk buffer ++ chunk) ≤ max_buffer_size
unfolding keep
keep-fits chunk buffer less = ground (arith, length-append buffer chunk)

module _ (json : JsonLibrary) where
  extract-shrinks : (b : Bytes) → length (extract_message b).1 ≤ length b
  unfolding extract_message
  extract-shrinks [] = omega arith
  extract-shrinks (a ∷ []) = omega arith
  extract-shrinks (a ∷ b ∷ []) = omega arith
  extract-shrinks (a ∷ b ∷ c ∷ []) = omega arith
  extract-shrinks (a ∷ b ∷ c ∷ e ∷ rest) = ground (arith, length-drop (decode_length a b c e) rest)

  turn-shrinks :
      (p : Option Bytes × Bytes) (next : Connection → Storage → Disk → Connection × Storage × Disk)
      → (w : Draw) (c : Connection) (s : Storage) (d : Disk) → length p.1 ≤ length c.read_buffer
      → ((c' : Connection) (s' : Storage) (d' : Disk)
          → length (next c' s' d').0.read_buffer ≤ length c'.read_buffer)
      → length (turn json p next w c s d).0.read_buffer ≤ length c.read_buffer
  unfolding turn serve_message
  turn-shrinks (none, b) next w c s d less shrinks = omega arith
  turn-shrinks (some m, b) next w c s d less shrinks =
      let (r, s', d') = respond json w (from_json json m) s d in
      let below = shrinks (write json r (record c { read_buffer = b })) s' d' in
      let same = ap (λ c'. length c'.read_buffer) (write-buffer json r b c) in
      elim (Bool-cases ((write json r (record c { read_buffer = b })).thrown)) [
        | inl over ↦ simp over (omega arith)
        | inr on ↦ simp on (omega arith)
      ]

  process_loop-shrinks :
      (fuel : ℕ) (w : ℕ → Draw) (c : Connection) (s : Storage) (d : Disk)
      → length (process_loop json fuel w c s d).0.read_buffer ≤ length c.read_buffer
  unfolding process_loop
  process_loop-shrinks zero w c s d = omega arith
  process_loop-shrinks (suc fuel) w c s d =
      turn-shrinks (extract_message c.read_buffer) (process_loop json fuel (λ n. w (suc n))) (w 0) c
        s d (extract-shrinks c.read_buffer) (process_loop-shrinks fuel (λ n. w (suc n)))

  -- The read buffer never grows beyond 16384 bytes, if a read brings at most the 1024 bytes of the
  -- temporary buffer.
  pub on_read-bounded :
      (chunk : Option Bytes) (w : ℕ → Draw) (c : Connection) (s : Storage) (d : Disk)
      → ((bytes : Bytes) → chunk ≡ some bytes → length bytes ≤ 1024)
      → length c.read_buffer ≤ max_buffer_size
      → length (on_read json chunk w c s d).0.read_buffer ≤ max_buffer_size
  unfolding on_read process_messages
  on_read-bounded none w c s d short bounded = bounded
  on_read-bounded (some []) w c s d short bounded = bounded
  on_read-bounded (some (b ∷ chunk)) w c s d short bounded =
      let kept = keep (b ∷ chunk) c.read_buffer in
      let less = short (b ∷ chunk) refl in
      let shrinks =
        process_loop-shrinks (suc (length (kept ++ (b ∷ chunk)))) w
          (record c { read_buffer = kept ++ (b ∷ chunk) }) s d in
      let fits = keep-fits (b ∷ chunk) c.read_buffer less in omega arith
