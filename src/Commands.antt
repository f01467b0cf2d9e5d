-- ===== src/Commands.antt =====
-- The second part of app/cli/interactive/commands.cpp: the table of commands and their execution.
-- `std::stoul` is a parameter; what a command prints is returned.
pub mod Beside
pub mod Lines
pub mod Names
pub mod Spec
use octet.Prelude.{
  ℕ, zero, suc, ◌+◌, ◌-◌, ◌*◌, ◌/◌, ◌%◌, ◌^◌, ◌≤◌, ◌<◌, String, ◌≡◌, refl, sym, ap, subst, ◌∙◌,
  fun_ext, ◌≢◌, ◌↔◌, ◌⊎◌, inl, inr, Bool, true, false, ◌&&◌, ◌||◌, not, Option, none, some, List,
  [], ◌∷◌, ◌++◌, append_assoc, append-nil, arith, Comparable, ◌==◌, nat_eq, list_eq, list_beq,
  list_beq_iff, beq_refl, beq_ne, ltb, leb, nat_beq, nat_beq_iff, if◌then◌else◌, has_value,
  Bool-cases, Option-cases, Bytes, codes, length, take, drop, length-append, take-length-append,
  drop-length-append, length-drop, All, All-append, Lacks,
}
use octet.Disk.{Disk, Answers}
use octet.Storage
use octet.Storage.{Storage}
use octet.Storage.Lifecycle.{set_snapshot_operations_threshold, set_snapshot_time_threshold}
use octet.Help.{help_message, farewell}
use octet.Words.{merge_vector, parse_input}

pub data CommandResult : Type 0 where
  success failure exit : CommandResult

-- The keys of `commands_`.
pub data CommandName : Type 0 where
  insert get update remove snapshot set_operations set_minutes leave help : CommandName

-- `commands_.find`
unfoldable pub find_command : Bytes → Option CommandName
find_command command =
    if command == codes "insert"
    then some insert
    else if command == codes "get"
    then some get
    else if command == codes "update"
    then some update
    else if command == codes "remove"
    then some remove
    else if command == codes "snapshot"
    then some snapshot
    else if command == codes "set-snapshot-operations"
    then some set_operations
    else if command == codes "set-snapshot-minutes"
    then some set_minutes
    else if command == codes "exit"
    then some leave
    else if command == codes "help"
    then some help
    else none

unfoldable pub args_count : CommandName → ℕ
args_count insert = 1
args_count get = 1
args_count update = 2
args_count remove = 1
args_count snapshot = 0
args_count set_operations = 1
args_count set_minutes = 1
args_count leave = 0
args_count help = 0

unfoldable pub only_for_interactive : CommandName → Bool
only_for_interactive insert = false
only_for_interactive get = false
only_for_interactive update = false
only_for_interactive remove = false
only_for_interactive snapshot = true
only_for_interactive set_operations = true
only_for_interactive set_minutes = true
only_for_interactive leave = true
only_for_interactive help = true

-- What a command draws from outside: the answers of the system, the text of the clock, an identifier
-- and the time of the steady clock; a snapshot writes the journal under other answers.
pub record Draw : Type 0 where
  pub answers : Answers
  pub journal_answers : Answers
  pub now : Bytes
  pub new_uuid : Bytes
  pub time : ℕ

-- The result, the line that is printed, and the state.
abbrev pub Outcome : Type 0
Outcome = CommandResult × Option Bytes × Storage × Disk

abbrev pub result_of : Bool → CommandResult
result_of true = success
result_of false = failure

abbrev pub printed : Option Bytes → CommandResult × Option Bytes
printed none = (failure, none)
printed (some text) = (success, some text)

-- What is printed, as a list of texts.
abbrev pub listed : Option Bytes → List Bytes
listed none = []
listed (some line) = line ∷ []

-- A merge for `insert` and `update` only.
unfoldable pub merged : Bytes → List Bytes → List Bytes
merged command args =
    if command == codes "insert"
    then merge_vector args 0
    else if command == codes "update"
    then merge_vector args 1
    else args

module _ (stoul : Bytes → Option ℕ) where
  unfoldable pub set_threshold : Option ℕ → (ℕ → Storage → Storage) → Storage → Disk → Outcome
  set_threshold none set s d = (failure, none, s, d)
  set_threshold (some n) set s d = (success, none, set n s, d)

  -- `cmd.execute`; the number of the arguments has been checked, so that the last clause is not met.
  unfoldable pub execute : Draw → CommandName → List Bytes → Storage → Disk → Outcome
  unfolding set_threshold help_message
  execute w insert (text ∷ []) s d =
      let (uuid, s', d') = Storage.insert w.answers w.now w.new_uuid text s d in
      let (result, line) = printed uuid in (result, line, s', d')
  execute w get (uuid ∷ []) s d =
      let (result, line) = printed (Storage.get uuid s) in (result, line, s, d)
  execute w update (uuid ∷ text ∷ []) s d =
      let (done, s', d') = Storage.update w.answers w.now uuid text s d in
      (result_of done, none, s', d')
  execute w remove (uuid ∷ []) s d =
      let (done, s', d') = Storage.remove w.answers w.now uuid s d in (result_of done, none, s', d')
  execute w snapshot [] s d =
      let (done, s', d') =
        Storage.create_snapshot w.answers w.journal_answers w.now w.time w.new_uuid s d in
      (result_of done, none, s', d')
  execute w set_operations (n ∷ []) s d =
      set_threshold (stoul n) set_snapshot_operations_threshold s d
  execute w set_minutes (n ∷ []) s d =
      set_threshold (stoul n) (set_snapshot_time_threshold w.time) s d
  execute w leave [] s d = (exit, none, s, d)
  execute w help [] s d = (success, some help_message, s, d)
  execute w name args s d = (failure, none, s, d)

  -- A command that has been found, with its arguments merged.
  unfoldable pub run_command : Bool → Draw → CommandName → List Bytes → Storage → Disk → Outcome
  unfolding execute args_count only_for_interactive
  run_command single_shot_mode w name args s d =
      if not (nat_beq (length args) (args_count name))
      then (failure, none, s, d)
      else if single_shot_mode && only_for_interactive name
      then (failure, none, s, d)
      else execute w name args s d

  unfoldable pub do_execute : Bool → Draw → Bytes → List Bytes → Storage → Disk → Outcome
  unfolding find_command merged run_command
  do_execute single_shot_mode w command args s d = elim (find_command command) [
    | none ↦ (failure, none, s, d)
    | some name ↦ run_command single_shot_mode w name (merged command args) s d
  ]

  unfoldable pub execute_shot : Draw → List Bytes → Storage → Disk → Outcome
  unfolding do_execute
  execute_shot w [] s d = (failure, none, s, d)
  execute_shot w (command ∷ args) s d = do_execute true w command args s d

  -- Whether a command ends the loop, what is printed, and the state; `exit` itself prints nothing, and
  -- the loop takes leave of the user.
  unfoldable pub after_command : Outcome → Bool × Option Bytes × Storage × Disk
  after_command (exit, line, s, d) = (true, some farewell, s, d)
  after_command (_, line, s, d) = (false, line, s, d)

  unfoldable pub run_parsed :
      Draw → Option (Bytes × List Bytes) → Storage → Disk → Bool × Option Bytes × Storage × Disk
  unfolding after_command
  run_parsed w none s d = (false, none, s, d)
  run_parsed w (some (command, args)) s d = after_command (do_execute false w command args s d)

  -- One line of the interactive mode.
  unfoldable pub run_line : Draw → Bytes → Storage → Disk → Bool × Option Bytes × Storage × Disk
  unfolding run_parsed
  run_line w input s d = run_parsed w (parse_input input) s d

  -- `runInteractiveMode` on the lines of the input, at whose end `std::cin` fails: the code that it
  -- returns and the state.
  unfoldable pub run_interactive_mode :
      (ℕ → Draw) → List Bytes → Storage → Disk → ℕ × Storage × Disk
  unfolding run_line
  run_interactive_mode w [] s d = (1, s, d)
  run_interactive_mode w (input ∷ inputs) s d =
      let (ends, _, s', d') = run_line (w 0) input s d in
      let rest = run_interactive_mode (λ n. w (suc n)) inputs s' d' in
      if ends then (0, s', d') else rest
