-- ===== src/Words/Parsing.antt =====
-- What the interactive mode makes of a line.
use octet.Prelude.{
  ℕ, ◌≡◌, refl, sym, ap, ◌∙◌, true, false, some, [], ◌∷◌, ◌++◌, append_assoc, arith, nat_eq,
  list_eq, list_beq, Bytes, codes, All,
}
use octet.Words.{
  is_space, is_empty, skip_spaces, split_at_space, first_word, extract_first_word, rtrim,
  arguments_of, command_and_arguments, parse_input, push_unless_empty,
}

-- A word: some characters, none of them a space.
abbrev pub IsWord : Bytes → Type 0
IsWord w = (is_empty w ≡ false) × All (λ c. is_space c ≡ false) w

-- Spaces only.
abbrev pub IsBlank : Bytes → Type 0
IsBlank = All (λ c. is_space c ≡ true)

-- A text that neither begins nor ends with a space, whatever is in between.
abbrev pub IsTrimmed : Bytes → Type 0
IsTrimmed t = (is_empty t ≡ false) × (skip_spaces t ≡ t) × (rtrim t ≡ t)

skip_spaces-blank : (b t : Bytes) → IsBlank b → skip_spaces (b ++ t) ≡ skip_spaces t
unfolding skip_spaces
skip_spaces-blank [] t h = refl
skip_spaces-blank (c ∷ b) t (hc, hb) = rw hc (skip_spaces-blank b t hb)

skip_spaces-word : (w t : Bytes) → IsWord w → skip_spaces (w ++ t) ≡ w ++ t
unfolding skip_spaces
skip_spaces-word [] t (filled, h) = cc
skip_spaces-word (c ∷ w) t (filled, (hc, hw)) = rw hc refl

split_at_space-word :
    (w t : Bytes) (c : ℕ)
    → All (λ c. is_space c ≡ false) w
    → is_space c ≡ true
    → split_at_space (w ++ c ∷ t) ≡ (w, c ∷ t)
unfolding split_at_space
split_at_space-word [] t c hw hc = rw hc refl
split_at_space-word (b ∷ w) t c (hb, hw) hc = rw (hb, split_at_space-word w t c hw hc) refl

rtrim-blank : (b : Bytes) → IsBlank b → rtrim b ≡ []
unfolding rtrim
rtrim-blank [] h = refl
rtrim-blank (c ∷ b) (hc, hb) = rw (hc, rtrim-blank b hb) refl

rtrim-append-blank : (t b : Bytes) → IsBlank b → rtrim (t ++ b) ≡ rtrim t
unfolding rtrim
rtrim-append-blank [] b h = rtrim-blank b h
rtrim-append-blank (c ∷ t) b h = rw (rtrim-append-blank t b h) refl

is_empty-append : (s t : Bytes) → is_empty t ≡ false → is_empty (s ++ t) ≡ false
is_empty-append [] [] filled = cc
is_empty-append [] (c ∷ t) filled = refl
is_empty-append (c ∷ s) t filled = refl

-- In front of a text that ends with no space everything stays.
rtrim-append : (s t : Bytes) → rtrim t ≡ t → is_empty t ≡ false → rtrim (s ++ t) ≡ s ++ t
unfolding rtrim
rtrim-append [] t h filled = h
rtrim-append (c ∷ s) t h filled =
    rw (rtrim-append s t h filled, is_empty-append s t filled) ground arith

first_word-some :
    (c : ℕ) (cs : Bytes)
    → first_word (c ∷ cs)
      ≡ (some (split_at_space (c ∷ cs)).0, skip_spaces (split_at_space (c ∷ cs)).1)
unfolding first_word
first_word-some c cs = refl

first_word-word :
    (word text : Bytes) (c : ℕ)
    → IsWord word
    → is_space c ≡ true
    → first_word (word ++ c ∷ text) ≡ (some word, skip_spaces text)
first_word-word [] text c (filled, hw) hc = cc
first_word-word (b ∷ word) text c (filled, hw) hc =
    rw (first_word-some b (word ++ c ∷ text), split_at_space-word (b ∷ word) text c hw hc)
      (ap (λ t. (some (b ∷ word), t)) (skip_spaces-blank (c ∷ []) text (hc, tt)))

-- Spaces, a word, spaces and a text that begins with no space: the word, and the text as it is.
extract_first_word-word :
    (before word : Bytes) (c : ℕ) (between text : Bytes)
    → IsBlank before
    → IsWord word
    → IsBlank (c ∷ between)
    → skip_spaces text ≡ text
    → extract_first_word (before ++ (word ++ c ∷ (between ++ text))) ≡ (some word, text)
unfolding extract_first_word
extract_first_word-word before word c between text hb hw (hc, hs) ht =
    ap first_word (
      skip_spaces-blank before (word ++ c ∷ (between ++ text)) hb
      ∙ skip_spaces-word word (c ∷ (between ++ text)) hw)
    ∙ first_word-word word (between ++ text) c hw hc
    ∙ ap (λ t. (some word, t)) (skip_spaces-blank between text hs ∙ ht)

arguments_of-insert : (text : Bytes) → arguments_of (codes "insert") text ≡ text ∷ []
unfolding arguments_of list_beq
arguments_of-insert text = refl

command_and_arguments-some :
    (command text : Bytes)
    → is_empty text ≡ false
    → command_and_arguments (some command, text) ≡ some (command, arguments_of command text)
unfolding command_and_arguments
command_and_arguments-some command [] filled = cc
command_and_arguments-some command (c ∷ text) filled = refl

rtrim-line :
    (before word : Bytes) (c : ℕ) (between text after : Bytes)
    → is_empty text ≡ false
    → rtrim text ≡ text
    → IsBlank after
    → rtrim ((before ++ (word ++ c ∷ (between ++ text))) ++ after)
      ≡ before ++ (word ++ c ∷ (between ++ text))
rtrim-line before word c between text after filled hr ha =
    let regroup =
      append_assoc (before ++ word) (c ∷ between) text
      ∙ append_assoc before word (c ∷ (between ++ text)) in
    rtrim-append-blank (before ++ (word ++ c ∷ (between ++ text))) after ha
    ∙ ap rtrim (sym regroup)
    ∙ rtrim-append ((before ++ word) ++ c ∷ between) text hr filled
    ∙ regroup

parse_input-command :
    (before word : Bytes) (c : ℕ) (between text after : Bytes)
    → IsBlank before
    → IsWord word
    → IsBlank (c ∷ between)
    → IsTrimmed text
    → IsBlank after
    → parse_input ((before ++ (word ++ c ∷ (between ++ text))) ++ after)
      ≡ some (word, arguments_of word text)
unfolding parse_input
parse_input-command before word c between text after hb hw hs (filled, ht, hr) ha =
    ap (λ t. command_and_arguments (extract_first_word t))
      (rtrim-line before word c between text after filled hr ha)
    ∙ ap command_and_arguments (extract_first_word-word before word c between text hb hw hs ht)
    ∙ command_and_arguments-some word text filled

-- The string of an `insert` line is taken as it is, without the spaces around it: whatever spaces
-- stand before the command, between it and the string and at the end of the line, the only
-- argument is the string, with the spaces in its inside.
pub parse_input-insert :
    (before : Bytes) (c : ℕ) (between text after : Bytes)
    → IsBlank before
    → IsBlank (c ∷ between)
    → IsTrimmed text
    → IsBlank after
    → parse_input ((before ++ (codes "insert" ++ c ∷ (between ++ text))) ++ after)
      ≡ some (codes "insert", text ∷ [])
parse_input-insert before c between text after hb hs ht ha =
    parse_input-command before (codes "insert") c between text after hb
      (refl, (refl, (refl, (refl, (refl, (refl, (refl, tt))))))) hs ht ha
    ∙ ap (λ l. some (codes "insert", l)) (arguments_of-insert text)

arguments_of-update :
    (uuid : Bytes) (e : ℕ) (gap text : Bytes)
    → IsWord uuid
    → IsBlank (e ∷ gap)
    → IsTrimmed text
    → arguments_of (codes "update") (uuid ++ e ∷ (gap ++ text)) ≡ uuid ∷ text ∷ []
unfolding arguments_of list_beq
arguments_of-update uuid e gap text hu hg (filled, ht, hr) =
    rw (extract_first_word-word [] uuid e gap text tt hu hg ht) (pushed text filled)
  where
    pushed : (t : Bytes) → is_empty t ≡ false → uuid ∷ push_unless_empty t ≡ uuid ∷ t ∷ []
    pushed [] h = cc
    pushed (c ∷ t) h = refl

two_parts :
    (uuid : Bytes) (e : ℕ) (gap text : Bytes)
    → IsWord uuid
    → IsTrimmed text
    → IsTrimmed (uuid ++ e ∷ (gap ++ text))
two_parts uuid e gap text hu (filled, ht, hr) =
    let regroup = append_assoc uuid (e ∷ gap) text in
    (
      is_empty-append uuid (e ∷ (gap ++ text)) refl,
      skip_spaces-word uuid (e ∷ (gap ++ text)) hu,
      ap rtrim (sym regroup) ∙ rtrim-append (uuid ++ e ∷ gap) text hr filled ∙ regroup,
    )

-- Of an `update` line the word behind the command is the identifier, and the rest, without the
-- spaces around it, is the string as it is.
pub parse_input-update :
    (before : Bytes) (c : ℕ) (between uuid : Bytes) (e : ℕ) (gap text after : Bytes)
    → IsBlank before
    → IsBlank (c ∷ between)
    → IsWord uuid
    → IsBlank (e ∷ gap)
    → IsTrimmed text
    → IsBlank after
    → parse_input
        ((before ++ (codes "update" ++ c ∷ (between ++ (uuid ++ e ∷ (gap ++ text))))) ++ after)
      ≡ some (codes "update", uuid ∷ text ∷ [])
parse_input-update before c between uuid e gap text after hb hs hu hg ht ha =
    parse_input-command before (codes "update") c between (uuid ++ e ∷ (gap ++ text)) after hb
      (refl, (refl, (refl, (refl, (refl, (refl, (refl, tt))))))) hs
      (two_parts uuid e gap text hu ht) ha
    ∙ ap (λ l. some (codes "update", l)) (arguments_of-update uuid e gap text hu hg ht)
