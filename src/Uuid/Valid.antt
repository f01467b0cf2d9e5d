-- ===== src/Uuid/Valid.antt =====
-- The identifiers of the generator are valid, and what a valid identifier cannot hold.
use octet.Prelude.{
  ℕ, zero, suc, ◌+◌, ◌/◌, ◌%◌, ◌<◌, ◌≡◌, refl, ap, ◌≢◌, Bool, true, false, ◌&&◌, not, List, [], ◌∷◌,
  ◌++◌, arith, ◌==◌, nat_eq, list_eq, list_beq, Bytes, All, Lacks,
}
use octet.Escape.{field_separator, newline}
use octet.Storage.Durable.{IsId}
use octet.Uuid.{
  CharClass, char, hex, variant, hex_digit, set_width, dash, stringstream, generate_uuid, in_class,
  hexes, sequence, uuid_regex, regex_match, is_valid_uuid,
}

hex_digit-hex : (n : ℕ) → n < 16 → in_class hex (hex_digit n) ≡ true
unfolding hex_digit in_class
hex_digit-hex n small = ground arith

variant-digit : (n : ℕ) → in_class variant (hex_digit (8 + n % 4)) ≡ true
unfolding hex_digit in_class
variant-digit n = ground arith

regex_match-append :
    (ks ls : List CharClass) (cs ds : Bytes)
    → regex_match ks cs ≡ true
    → regex_match ls ds ≡ true
    → regex_match (ks ++ ls) (cs ++ ds) ≡ true
unfolding regex_match
regex_match-append [] ls [] ds hc hd = hd
regex_match-append [] ls (c ∷ cs) ds hc hd = cc
regex_match-append (k ∷ ks) ls [] ds hc hd = cc
regex_match-append (k ∷ ks) ls (c ∷ cs) ds hc hd = ground (arith, regex_match-append ks ls cs ds)

hexes-suc : (n : ℕ) → hexes (suc n) ≡ hexes n ++ (hex ∷ [])
hexes-suc zero = refl
hexes-suc (suc n) = ap (λ l. hex ∷ l) (hexes-suc n)

regex_match-one :
    (k : CharClass) (c : ℕ) → in_class k c ≡ true → regex_match (k ∷ []) (c ∷ []) ≡ true
unfolding regex_match
regex_match-one k c h = rw h refl

-- A text that is matched by a part of the regular expression.
abbrev IsMatched : List CharClass × Bytes → Type 0
IsMatched (ks, cs) = regex_match ks cs ≡ true

abbrev classes : List (List CharClass × Bytes) → List (List CharClass)
classes [] = []
classes ((ks, _) ∷ parts) = ks ∷ classes parts

abbrev texts : List (List CharClass × Bytes) → List Bytes
texts [] = []
texts ((_, cs) ∷ parts) = cs ∷ texts parts

regex_match-parts :
    (parts : List (List CharClass × Bytes))
    → All IsMatched parts
    → regex_match (sequence (classes parts)) (stringstream (texts parts)) ≡ true
regex_match-parts [] h = unfold regex_match in refl
regex_match-parts ((ks, cs) ∷ parts) (h, hs) =
    regex_match-append ks (sequence (classes parts)) cs (stringstream (texts parts)) h
      (regex_match-parts parts hs)

set_width-hexes : (w n : ℕ) → regex_match (hexes w) (set_width w n) ≡ true
unfolding set_width
set_width-hexes zero n = unfold regex_match in refl
set_width-hexes (suc w) n = rw (hexes-suc w) (
    regex_match-append (hexes w) (hex ∷ []) (set_width w (n / 16)) (hex_digit (n % 16) ∷ [])
      (set_width-hexes w (n / 16))
      (regex_match-one hex (hex_digit (n % 16)) (hex_digit-hex (n % 16) (omega arith))))

set_width-variant : (n : ℕ) → regex_match (variant ∷ []) (set_width 1 (8 + n % 4)) ≡ true
unfolding set_width
set_width-variant n =
    regex_match-one variant (hex_digit ((8 + n % 4) % 16)) (rw (small n) (variant-digit n))
  where
    small : (n : ℕ) → (8 + n % 4) % 16 ≡ 8 + n % 4
    small n = omega arith

char-matched : (c : ℕ) → regex_match (char c ∷ []) (c ∷ []) ≡ true
char-matched c = regex_match-one (char c) c (unfold in_class in ground arith)

-- Every identifier that the generator forms is one that `isValidUuid` accepts, whatever the clock,
-- the random number and the counter.
pub generate_uuid-valid :
    (timestamp random count : ℕ) → is_valid_uuid (generate_uuid timestamp random count) ≡ true
unfolding generate_uuid is_valid_uuid
generate_uuid-valid timestamp random count =
    regex_match-parts
      ((hexes 8, set_width 8 (timestamp % 4294967296))
        ∷ (char dash ∷ [], dash ∷ [])
        ∷ (hexes 4, set_width 4 (timestamp / 4294967296 % 65536))
        ∷ (char dash ∷ [], dash ∷ [])
        ∷ (char 52 ∷ [], 52 ∷ [])
        ∷ (hexes 3, set_width 3 (count % 4096))
        ∷ (char dash ∷ [], dash ∷ [])
        ∷ (variant ∷ [], set_width 1 (8 + random % 4))
        ∷ (hexes 3, set_width 3 (random / 4 % 4096))
        ∷ (char dash ∷ [], dash ∷ [])
        ∷ (hexes 12, set_width 12 (random / 16384 % 281474976710656))
        ∷ [])
      (
        set_width-hexes 8 _,
        (
          char-matched dash,
          (
            set_width-hexes 4 _,
            (
              char-matched dash,
              (
                char-matched 52,
                (
                  set_width-hexes 3 _,
                  (
                    char-matched dash,
                    (
                      set_width-variant random,
                      (set_width-hexes 3 _, (char-matched dash, (set_width-hexes 12 _, tt))),
                    ),
                  ),
                ),
              ),
            ),
          ),
        ),
      )

-- No class of the list has the byte.
excluded : ℕ → List CharClass → Bool
unfolding in_class
excluded b [] = true
excluded b (k ∷ ks) = not (in_class k b) && excluded b ks

in_class-ne : (k : CharClass) (b c : ℕ) → in_class k b ≡ false → in_class k c ≡ true → c ≢ b
in_class-ne k b c out inside e = cc (ap (in_class k) e)

and_true : (a b : Bool) → (a && b) ≡ true → (a ≡ true) × (b ≡ true)
and_true true true h = (refl, refl)
and_true true false h = cc
and_true false b h = cc

not-true : (a : Bool) → not a ≡ true → a ≡ false
not-true true h = cc
not-true false h = refl

regex_match-Lacks :
    (b : ℕ) (ks : List CharClass) (cs : Bytes)
    → excluded b ks ≡ true
    → regex_match ks cs ≡ true
    → Lacks b cs
unfolding regex_match excluded
regex_match-Lacks b [] [] out h = tt
regex_match-Lacks b [] (c ∷ cs) out h = cc
regex_match-Lacks b (k ∷ ks) [] out h = cc
regex_match-Lacks b (k ∷ ks) (c ∷ cs) out h =
    let (out_k, out_ks) = and_true (not (in_class k b)) (excluded b ks) out in
    let (h_k, h_ks) = and_true (in_class k c) (regex_match ks cs) h in
    (
      (λ e. in_class-ne k b c (not-true (in_class k b) out_k) h_k e),
      regex_match-Lacks b ks cs out_ks h_ks,
    )

matched_not_empty :
    (k : CharClass) (ks : List CharClass) (cs : Bytes)
    → regex_match (k ∷ ks) cs ≡ true
    → (cs == []) ≡ false
unfolding regex_match list_beq
matched_not_empty k ks [] h = cc
matched_not_empty k ks (c ∷ cs) h = refl

-- An identifier that `isValidUuid` accepts is one that the journal can hold: it is not empty and
-- has no field separator and no newline.
pub is_valid_uuid-IsId : (uuid : Bytes) → is_valid_uuid uuid ≡ true → IsId uuid
unfolding is_valid_uuid
is_valid_uuid-IsId uuid valid = record {
  some = matched_not_empty hex _ uuid valid;
  field = regex_match-Lacks field_separator uuid_regex uuid (unfold excluded in refl) valid;
  line = regex_match-Lacks newline uuid_regex uuid (unfold excluded in refl) valid;
}
