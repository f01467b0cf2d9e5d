-- ===== src/Args.antt =====
-- app/cli/main.cpp: the arguments of the command line and the choice of the mode.
pub mod Flags
use octet.Prelude.{
  ℕ, Bool, true, false, ◌&&◌, ◌||◌, not, Option, none, some, List, [], ◌∷◌, ◌==◌, nat_eq, list_eq,
  nat_beq, if◌then◌else◌, Bytes, codes,
}

abbrev pub equals_sign : ℕ
equals_sign = 61

-- `arg.find('=')` with the parts before and behind it.
unfoldable pub split_option : Bytes → Option (Bytes × Bytes)
split_option [] = none
split_option (c ∷ cs) =
    let rest = split_option cs in
    if nat_beq c equals_sign
    then some ([], cs)
    else elim rest [ none ↦ none | some (name, value) ↦ some (c ∷ name, value) ]

-- The value of `--option=value`.
unfoldable pub joined_value : Bytes → Bytes → Option Bytes
unfolding split_option
joined_value option arg = elim (split_option arg) [
  | none ↦ none
  | some (name, value) ↦ if name == option then some value else none
]

-- The value of the first argument that has the option, and the other arguments.
unfoldable pub get_option_value : Bytes → List Bytes → Option Bytes × List Bytes
unfolding joined_value
get_option_value option [] = (none, [])
get_option_value option (arg ∷ []) = elim (joined_value option arg) [
  | some value ↦ (some value, [])
  | none ↦ (none, arg ∷ [])
]
get_option_value option (arg ∷ value ∷ args) =
    let (found, rest) = get_option_value option (value ∷ args) in
    elim (joined_value option arg) [
      | some joined ↦ (some joined, value ∷ args)
      | none ↦ if arg == option then (some value, args) else (found, arg ∷ rest)
    ]

unfoldable pub has_flag : Bytes → List Bytes → Bool × List Bytes
has_flag flag [] = (false, [])
has_flag flag (arg ∷ args) =
    let (found, rest) = has_flag flag args in
    if arg == flag then (true, args) else (found, arg ∷ rest)

unfoldable pub check_last_args : List Bytes → Bool
check_last_args [] = true
check_last_args (arg ∷ args) = false

-- What `main` starts: the help, an error with the help or without, or a mode over the storage.
pub data Mode : Type 0 where
  print_help : Mode
  missing_storage : Mode
  fail : Mode
  server : Option Bytes → Mode
  interactive : Mode
  single_shot : List Bytes → Mode

pub record Start : Type 0 where
  pub mode : Mode
  pub storage_path : Bytes
  pub disable_warnings : Bool
  pub operations_threshold : Option ℕ
  pub time_threshold : Option ℕ

abbrev pub only : Mode → Start
only mode = record {
  mode = mode;
  storage_path = [];
  disable_warnings = false;
  operations_threshold = none;
  time_threshold = none;
}

-- `std::stoul` on an option that may be missing; `none` is its exception.
abbrev pub parse_threshold : (Bytes → Option ℕ) → Option Bytes → Option (Option ℕ)
parse_threshold stoul none = some none
parse_threshold stoul (some text) = elim (stoul text) [ none ↦ none | some n ↦ some (some n) ]

abbrev pub chosen_mode : Bool → Bool → Option Bytes → List Bytes → Mode
chosen_mode true interactive_mode socket_path args = server socket_path
chosen_mode false true socket_path args = interactive
chosen_mode false false socket_path args = single_shot args

-- The part of `main` before the storage is opened. `--server` goes before `--interactive`.
unfoldable pub read_arguments : (Bytes → Option ℕ) → List Bytes → Start
unfolding has_flag get_option_value check_last_args
read_arguments stoul [] = only print_help
read_arguments stoul (arg ∷ more) =
    let (help, args0) = has_flag (codes "--help") (arg ∷ more) in
    let (interactive_mode, args1) = has_flag (codes "--interactive") args0 in
    let (server_mode, args2) = has_flag (codes "--server") args1 in
    let (disable, args3) = has_flag (codes "disable-warnings") args2 in
    let (socket_path, args4) = get_option_value (codes "--socket") args3 in
    let (storage_option, args5) = get_option_value (codes "--storage") args4 in
    let (operations, args6) = get_option_value (codes "--snapshot-operations") args5 in
    let (minutes, args7) = get_option_value (codes "--snapshot-minutes") args6 in
    let bad = (interactive_mode || server_mode) && not (check_last_args args7) in
    let start = start_with (chosen_mode server_mode interactive_mode socket_path args7) disable in
    if help
    then only print_help
    else start storage_option (parse_threshold stoul operations) (parse_threshold stoul minutes) bad
  where
    start_with : Mode → Bool → Option Bytes → Option (Option ℕ) → Option (Option ℕ) → Bool → Start
    start_with mode disable (some path) (some operations) (some minutes) false = record {
      mode = mode;
      storage_path = path;
      disable_warnings = disable;
      operations_threshold = operations;
      time_threshold = minutes;
    }
    start_with mode disable none _ _ _ = only missing_storage
    start_with mode disable _ _ _ _ = only fail
