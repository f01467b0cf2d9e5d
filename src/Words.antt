-- ===== src/Words.antt =====
-- The first part of app/cli/interactive/commands.cpp: the text of a command and its arguments.
pub mod Parsing
use octet.Prelude.{
  ℕ, zero, suc, ◌+◌, ◌-◌, ◌*◌, ◌/◌, ◌%◌, ◌^◌, ◌≤◌, ◌<◌, String, ◌≡◌, refl, sym, ap, ◌∙◌, fun_ext,
  ◌≢◌, ◌↔◌, ◌⊎◌, inl, inr, Bool, true, false, ◌&&◌, ◌||◌, not, Option, none, some, List, [], ◌∷◌,
  ◌++◌, append_assoc, append-nil, arith, Comparable, ◌==◌, nat_eq, list_eq, list_beq, list_beq_iff,
  beq_refl, beq_ne, ltb, leb, nat_beq, nat_beq_iff, if◌then◌else◌, has_value, Bool-cases,
  Option-cases, Bytes, codes, length, take, drop, length-append, take-length-append,
  drop-length-append, length-drop, All, All-append, Lacks,
}

abbrev pub space : ℕ
space = 32

-- The characters of `spaces`: " \t\n\r\f\v".
abbrev pub is_space : ℕ → Bool
is_space c = nat_beq c space || leb 9 c && leb c 13

unfoldable pub join : Bytes → List Bytes → Bytes
join out [] = out
join out (arg ∷ args) = join (out ++ space ∷ arg) args

-- The arguments behind the one at the index are appended to it, a space before each.
unfoldable pub merge_vector : List Bytes → ℕ → List Bytes
unfolding join
merge_vector [] target_index = []
merge_vector (arg ∷ args) zero = join arg args ∷ []
merge_vector (arg ∷ args) (suc target_index) = arg ∷ merge_vector args target_index

-- From the first character on that is no space.
unfoldable pub skip_spaces : Bytes → Bytes
skip_spaces [] = []
skip_spaces (c ∷ cs) = let rest = skip_spaces cs in if is_space c then rest else c ∷ cs

-- The characters before the first space, and those from it on.
unfoldable pub split_at_space : Bytes → Bytes × Bytes
split_at_space [] = ([], [])
split_at_space (c ∷ cs) =
    let (word, rest) = split_at_space cs in if is_space c then ([], c ∷ cs) else (c ∷ word, rest)

unfoldable pub first_word : Bytes → Option Bytes × Bytes
unfolding split_at_space
first_word [] = (none, [])
first_word (c ∷ cs) = let (word, rest) = split_at_space (c ∷ cs) in (some word, skip_spaces rest)

unfoldable pub extract_first_word : Bytes → Option Bytes × Bytes
unfolding first_word skip_spaces
extract_first_word input = first_word (skip_spaces input)

abbrev pub is_empty : Bytes → Bool
is_empty [] = true
is_empty (c ∷ cs) = false

-- Up to the last character that is no space.
unfoldable pub rtrim : Bytes → Bytes
rtrim [] = []
rtrim (c ∷ cs) = let rest = rtrim cs in if is_space c && is_empty rest then [] else c ∷ rest

-- The loop over the words, on fuel: a word takes a character at least.
unfoldable pub split_words : ℕ → Bytes → List Bytes
split_words zero input = []
split_words (suc fuel) input =
    let (word, rest) = extract_first_word input in
    let words = split_words fuel rest in elim word [ none ↦ [] | some w ↦ w ∷ words ]

abbrev pub push_if_some : Option Bytes → List Bytes
push_if_some none = []
push_if_some (some word) = word ∷ []

abbrev pub push_unless_empty : Bytes → List Bytes
push_unless_empty [] = []
push_unless_empty (c ∷ cs) = (c ∷ cs) ∷ []

-- What the rest of the line, which is not empty, gives as arguments.
unfoldable pub arguments_of : Bytes → Bytes → List Bytes
unfolding extract_first_word split_words
arguments_of command input =
    let (uuid, rest) = extract_first_word input in
    if command == codes "insert"
    then input ∷ []
    else if command == codes "update"
    then push_if_some uuid ++ push_unless_empty rest
    else split_words (suc (length input)) input

command_and_arguments : Option Bytes × Bytes → Option (Bytes × List Bytes)
command_and_arguments (none, rest) = none
command_and_arguments (some command, []) = some (command, [])
command_and_arguments (some command, c ∷ rest) = some (command, arguments_of command (c ∷ rest))

-- A line of spaces only gives nothing; in any other there is a first word.
unfoldable pub parse_input : Bytes → Option (Bytes × List Bytes)
unfolding rtrim extract_first_word command_and_arguments
parse_input input = command_and_arguments (extract_first_word (rtrim input))
