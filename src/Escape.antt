-- ===== src/Escape.antt =====
-- `escapeString` and `unescapeString` of src/storage/journal_manager.cpp. A stream that collects
-- the result is the argument `result`.
use mathlib.Core.List.{flat_map}
use octet.Prelude.{
  ℕ, ◌≡◌, refl, sym, Bool, true, false, ◌||◌, [], ◌∷◌, ◌++◌, append_assoc, append-nil, arith, ◌==◌,
  nat_eq, list_eq, if◌then◌else◌, Bytes, codes, All-append, Lacks,
}

abbrev pub field_separator : ℕ
field_separator = b'|'

abbrev pub escape_char : ℕ
escape_char = b'\\'

abbrev pub newline : ℕ
newline = 10

abbrev pub carriage_return : ℕ
carriage_return = 13

-- What one round of the loop of `escapeString` writes.
escape_byte : ℕ → Bytes
escape_byte c =
    if c == field_separator || c == escape_char
    then escape_char ∷ c ∷ []
    else if c == newline
    then escape_char ∷ b'n' ∷ []
    else if c == carriage_return
    then escape_char ∷ b'r' ∷ []
    else c ∷ []

escape_loop : Bytes → Bytes → Bytes
escape_loop [] result = result
escape_loop (c ∷ str) result = escape_loop str (result ++ escape_byte c)

unfoldable pub escape_string : Bytes → Bytes
unfolding escape_loop escape_byte
escape_string str = escape_loop str []

-- The byte that stands for an escaped one.
unescape_byte : ℕ → ℕ
unescape_byte c = if c == b'n' then newline else if c == b'r' then carriage_return else c

-- The last argument is `escaped`; an escape character at the very end writes nothing.
unescape_loop : Bytes → Bytes → Bool → Bytes
unescape_loop [] result escaped = result
unescape_loop (c ∷ str) result true = unescape_loop str (result ++ unescape_byte c ∷ []) false
unescape_loop (c ∷ str) result false = elim (c == escape_char) [
  | true ↦ unescape_loop str result true
  | false ↦ unescape_loop str (result ++ c ∷ []) false
]

unfoldable pub unescape_string : Bytes → Bytes
unfolding unescape_loop unescape_byte
unescape_string str = unescape_loop str [] false

escape_loop-flat_map :
    (str result : Bytes) → escape_loop str result ≡ result ++ flat_map escape_byte str
unfolding escape_loop flat_map
escape_loop-flat_map [] result = sym (append-nil result)
escape_loop-flat_map (c ∷ str) result = simp (escape_loop-flat_map str, append_assoc)

escape_string-flat_map : (str : Bytes) → escape_string str ≡ flat_map escape_byte str
unfolding escape_string
escape_string-flat_map str = escape_loop-flat_map str []

unescape_loop-escape_byte :
    (c : ℕ) (rest result : Bytes)
    → unescape_loop (escape_byte c ++ rest) result false
      ≡ unescape_loop rest (result ++ c ∷ []) false
unfolding unescape_loop escape_byte unescape_byte
unescape_loop-escape_byte c rest result = ground arith

unescape_loop-flat_map :
    (str result : Bytes) → unescape_loop (flat_map escape_byte str) result false ≡ result ++ str
unfolding unescape_loop flat_map
unescape_loop-flat_map [] result = sym (append-nil result)
unescape_loop-flat_map (c ∷ str) result =
    simp (unescape_loop-escape_byte, unescape_loop-flat_map str, append_assoc)

-- Unescaping an escaped text gives the text back, whatever bytes it holds.
pub unescape_string-escape_string : (str : Bytes) → unescape_string (escape_string str) ≡ str
unfolding unescape_string
unescape_string-escape_string str = rw escape_string-flat_map (unescape_loop-flat_map str [])

escape_byte-Lacks : (c : ℕ) → Lacks newline (escape_byte c) × Lacks carriage_return (escape_byte c)
unfolding escape_byte
escape_byte-Lacks c = ground arith

flat_map-Lacks :
    (str : Bytes)
    → Lacks newline (flat_map escape_byte str) × Lacks carriage_return (flat_map escape_byte str)
unfolding flat_map
flat_map-Lacks [] = (tt, tt)
flat_map-Lacks (c ∷ str) =
    let (hn, hr) = escape_byte-Lacks c in
    let (n, r) = flat_map-Lacks str in
    (All-append _ (escape_byte c) _ hn n, All-append _ (escape_byte c) _ hr r)

-- An escaped text holds no newline and no carriage return, so it stays on one line.
pub escape_string-Lacks :
    (str : Bytes) → Lacks newline (escape_string str) × Lacks carriage_return (escape_string str)
escape_string-Lacks str = rw escape_string-flat_map (flat_map-Lacks str)

escape_sample : escape_string (codes "a|b\\c\nd\re") ≡ codes "a\\|b\\\\c\\nd\\re"
unfolding escape_string
escape_sample = refl

unescape_sample : unescape_string (codes "x\\qy\\") ≡ codes "xqy"
unfolding unescape_string
unescape_sample = refl
