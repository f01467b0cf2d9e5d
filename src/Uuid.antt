-- ===== src/Uuid.antt =====
-- src/storage/uuid_generator.cpp: the text of an identifier. The clock, the random number and the value
-- of the counter are arguments.
pub mod Unique
pub mod Valid
use octet.Prelude.{
  ℕ, zero, suc, ◌+◌, ◌-◌, ◌*◌, ◌/◌, ◌%◌, ◌^◌, ◌≤◌, ◌<◌, String, ◌≡◌, refl, sym, ap, subst, ◌∙◌,
  fun_ext, ◌≢◌, ◌↔◌, ◌⊎◌, inl, inr, Bool, true, false, ◌&&◌, ◌||◌, not, Option, none, some, List,
  [], ◌∷◌, ◌++◌, append_assoc, append-nil, arith, Comparable, ◌==◌, nat_eq, list_eq, list_beq,
  list_beq_iff, beq_refl, beq_ne, ltb, leb, nat_beq, nat_beq_iff, if◌then◌else◌, has_value,
  Bool-cases, Option-cases, Bytes, codes, length, take, drop, length-append, take-length-append,
  drop-length-append, length-drop, All, All-append, Lacks,
}

unfoldable pub hex_digit : ℕ → ℕ
hex_digit n = if ltb n 10 then 48 + n else 87 + n

-- A number below 16 ^ width as `std::hex` prints it under `setw(width)` and `setfill('0')`. Every
-- number below is masked to its width, so that the padding is all that the width does.
unfoldable pub set_width : ℕ → ℕ → Bytes
unfolding hex_digit
set_width zero n = []
set_width (suc width) n = set_width width (n / 16) ++ (hex_digit (n % 16) ∷ [])

abbrev pub dash : ℕ
dash = 45

-- What is written to a stream, one piece after the other.
abbrev pub stringstream : List Bytes → Bytes
stringstream [] = []
stringstream (piece ∷ pieces) = piece ++ stringstream pieces

-- `n >> 32` and `n & 0xFFFF` are the division and the remainder by the powers of two.
unfoldable pub generate_uuid : ℕ → ℕ → ℕ → Bytes
generate_uuid timestamp random count = stringstream (
    set_width 8 (timestamp % 4294967296)
    ∷ (dash ∷ [])
    ∷ set_width 4 (timestamp / 4294967296 % 65536)
    ∷ (dash ∷ [])
    ∷ (52 ∷ [])
    ∷ set_width 3 (count % 4096)
    ∷ (dash ∷ [])
    ∷ set_width 1 (8 + random % 4)
    ∷ set_width 3 (random / 4 % 4096)
    ∷ (dash ∷ [])
    ∷ set_width 12 (random / 16384 % 281474976710656)
    ∷ [])

-- The classes of the regular expression.
pub data CharClass : Type 0 where
  hex variant : CharClass
  char : ℕ → CharClass

unfoldable pub in_class : CharClass → ℕ → Bool
in_class hex c = leb 48 c && leb c 57 || leb 97 c && leb c 102
in_class variant c = nat_beq c 56 || nat_beq c 57 || nat_beq c 97 || nat_beq c 98
in_class (char x) c = nat_beq c x

-- `[0-9a-f]{n}`
abbrev pub hexes : ℕ → List CharClass
hexes zero = []
hexes (suc n) = hex ∷ hexes n

abbrev pub sequence : List (List CharClass) → List CharClass
sequence [] = []
sequence (part ∷ parts) = part ++ sequence parts

abbrev pub uuid_regex : List CharClass
uuid_regex = sequence (
    hexes 8
    ∷ (char dash ∷ [])
    ∷ hexes 4
    ∷ (char dash ∷ [])
    ∷ (char 52 ∷ [])
    ∷ hexes 3
    ∷ (char dash ∷ [])
    ∷ (variant ∷ [])
    ∷ hexes 3
    ∷ (char dash ∷ [])
    ∷ hexes 12
    ∷ [])

unfoldable pub regex_match : List CharClass → Bytes → Bool
unfolding in_class
regex_match [] [] = true
regex_match [] (c ∷ cs) = false
regex_match (k ∷ ks) [] = false
regex_match (k ∷ ks) (c ∷ cs) = in_class k c && regex_match ks cs

unfoldable pub is_valid_uuid : Bytes → Bool
is_valid_uuid uuid = regex_match uuid_regex uuid
