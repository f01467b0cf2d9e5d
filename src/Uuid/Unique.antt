-- ===== src/Uuid/Unique.antt =====
-- What two identifiers have in common when their texts are the same.
use octet.Prelude.{
  ℕ, zero, suc, ◌+◌, ◌*◌, ◌/◌, ◌%◌, ◌<◌, ◌≡◌, refl, sym, ap, ◌∙◌, [], ◌∷◌, ◌++◌, arith, nat_eq,
  list_eq, Bytes, length, length-append,
}
use octet.Uuid.{hex_digit, set_width, dash, generate_uuid}

append-same : (a b c d : Bytes) → length a ≡ length b → a ++ c ≡ b ++ d → (a ≡ b) × (c ≡ d)
append-same [] [] c d l e = (refl, e)
append-same [] (y ∷ b) c d l e = absurd (omega (arith, l))
append-same (x ∷ a) [] c d l e = absurd (omega (arith, l))
append-same (x ∷ a) (y ∷ b) c d l e =
    let same : (x ≡ y) × (a ++ c ≡ b ++ d) = (cc, cc) in
    let (same_rest, same_end) = append-same a b c d (omega (arith, l)) same.1 in (cc, same_end)

length-set_width : (width n : ℕ) → length (set_width width n) ≡ width
unfolding set_width
length-set_width zero n = refl
length-set_width (suc width) n = omega (
  arith,
  length-append (set_width width (n / 16)) (hex_digit (n % 16) ∷ []),
  length-set_width width (n / 16),
)

hex_digit-same : (m n : ℕ) → m < 16 → n < 16 → hex_digit m ≡ hex_digit n → m ≡ n
unfolding hex_digit
hex_digit-same m n hm hn e = ground (arith, e)

-- 16 ^ width
abbrev hex_limit : ℕ → ℕ
hex_limit zero = 1
hex_limit (suc width) = 16 * hex_limit width

abbrev first_byte : Bytes → ℕ
first_byte [] = 0
first_byte (b ∷ bytes) = b

set_width-same :
    (width m n : ℕ)
    → m < hex_limit width
    → n < hex_limit width
    → set_width width m ≡ set_width width n
    → m ≡ n
unfolding set_width
set_width-same zero m n hm hn e = omega (arith, hm, hn)
set_width-same (suc width) m n hm hn e =
    let (front, last) =
      append-same (set_width width (m / 16)) (set_width width (n / 16)) (hex_digit (m % 16) ∷ [])
        (hex_digit (n % 16) ∷ [])
        (length-set_width width (m / 16) ∙ sym (length-set_width width (n / 16))) e in
    let high =
      set_width-same width (m / 16) (n / 16) (omega (arith, hm)) (omega (arith, hn)) front in
    let low = hex_digit-same (m % 16) (n % 16) (omega arith) (omega arith) (ap first_byte last) in
    omega (arith, high, low)

-- A number between what stands before and behind it.
field-same :
    (width m n : ℕ) (c d : Bytes)
    → m < hex_limit width
    → n < hex_limit width
    → set_width width m ++ c ≡ set_width width n ++ d
    → (m ≡ n) × (c ≡ d)
field-same width m n c d hm hn e =
    let (front, rest) =
      append-same (set_width width m) (set_width width n) c d
        (length-set_width width m ∙ sym (length-set_width width n)) e in
    (set_width-same width m n hm hn front, rest)

-- If two identifiers of the generator are the same text, then their time stamps agree in the low
-- 48 bits, their counters in the low 12 and their random numbers in the low 62.
pub generate_uuid-same :
    (t u r s c d : ℕ)
    → generate_uuid t r c ≡ generate_uuid u s d
    → (t % 281474976710656 ≡ u % 281474976710656)
      × (c % 4096 ≡ d % 4096)
      × (r % 4611686018427387904 ≡ s % 4611686018427387904)
unfolding generate_uuid
generate_uuid-same t u r s c d e =
    let (low, e1) =
      field-same 8 (t % 4294967296) (u % 4294967296) _ _ (omega arith) (omega arith) e in
    let (high, e2) =
      field-same 4 (t / 4294967296 % 65536) (u / 4294967296 % 65536) _ _ (omega arith) (omega arith)
        (append-same (dash ∷ []) (dash ∷ []) _ _ refl e1).1 in
    let (count, e3) =
      field-same 3 (c % 4096) (d % 4096) _ _ (omega arith) (omega arith)
        (append-same (dash ∷ 52 ∷ []) (dash ∷ 52 ∷ []) _ _ refl e2).1 in
    let (kind, e4) =
      field-same 1 (8 + r % 4) (8 + s % 4) _ _ (omega arith) (omega arith)
        (append-same (dash ∷ []) (dash ∷ []) _ _ refl e3).1 in
    let (middle, e5) =
      field-same 3 (r / 4 % 4096) (s / 4 % 4096) _ _ (omega arith) (omega arith) e4 in
    let (rest, e6) =
      field-same 12 (r / 16384 % 281474976710656) (s / 16384 % 281474976710656) _ _ (omega arith)
        (omega arith) (append-same (dash ∷ []) (dash ∷ []) _ _ refl e5).1 in
    (omega (arith, low, high), count, omega (arith, kind, middle, rest))
