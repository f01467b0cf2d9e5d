-- ===== src/Protocol/Frames.antt =====
-- Frames on a stream: what `wrapMessage` writes is what `extractMessage` finds.
use octet.Prelude.{
  ℕ, ◌/◌, ◌%◌, ◌<◌, ◌≡◌, some, ◌++◌, append_assoc, arith, nat_eq, list_eq, Bytes, length,
  length-append, take-length-append, drop-length-append,
}
use octet.Protocol.{encode_length, decode_length, wrap_message, extract_message}

abbrev pub frame_limit : ℕ
frame_limit = 4294967296

decode-encode_length :
    (n : ℕ)
    → n < frame_limit
    → decode_length (n % 256) (n / 256 % 256) (n / 65536 % 256) (n / 16777216 % 256) ≡ n
unfolding decode_length
decode-encode_length n h = omega arith

extract_framed :
    (n : ℕ) (message rest : Bytes)
    → n < frame_limit
    → n ≡ length message
    → extract_message (encode_length n ++ (message ++ rest)) ≡ (some message, rest)
unfolding extract_message encode_length
extract_framed n message rest small same =
    rw (decode-encode_length n small, same, take-length-append, drop-length-append) ground
      (arith, length-append message rest)

-- A frame in front of any bytes gives back its message and leaves those bytes, for messages
-- shorter than 2^32 bytes.
pub extract_message-wrap_message :
    (message rest : Bytes)
    → length message < frame_limit
    → extract_message (wrap_message message ++ rest) ≡ (some message, rest)
unfolding wrap_message
extract_message-wrap_message message rest small =
    rw (append_assoc (encode_length (length message % frame_limit)) message rest)
      (extract_framed (length message % frame_limit) message rest (omega arith) (omega arith))
