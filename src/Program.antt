-- ===== src/Program.antt =====
-- app/cli/main.cpp: the program from its arguments to its exit code. The storage is opened, gets its
-- thresholds, a mode works on it, and its destructor makes the last snapshot. Of what the logger writes
-- only the texts of the level IMPORTANT are kept; the rounds of the storage's thread stand between the
-- lines of an interactive run, and before and behind a single command.
pub mod Beside
pub mod Histories
pub mod Interactive
pub mod Running
pub mod Runs
pub mod Rounds
pub mod Single
pub mod Thresholds
use octet.Prelude.{
  ℕ, zero, suc, ◌+◌, ◌-◌, ◌*◌, ◌/◌, ◌%◌, ◌^◌, ◌≤◌, ◌<◌, String, ◌≡◌, refl, sym, ap, subst, ◌∙◌,
  fun_ext, ◌≢◌, ◌↔◌, ◌⊎◌, inl, inr, Bool, true, false, ◌&&◌, ◌||◌, not, Option, none, some, List,
  [], ◌∷◌, ◌++◌, append_assoc, append-nil, arith, Comparable, ◌==◌, nat_eq, list_eq, list_beq,
  list_beq_iff, beq_refl, beq_ne, ltb, leb, nat_beq, nat_beq_iff, if◌then◌else◌, has_value,
  Bool-cases, Option-cases, Bytes, codes, length, take, drop, length-append, take-length-append,
  drop-length-append, length-drop, All, All-append, Lacks,
}
use octet.Disk.{FilePath, Disk, Answers}
use octet.Protocol.{JsonLibrary}
use octet.Storage.{Storage, LoadAnswers}
use octet.Storage.Lifecycle.{
  Closing, Round, snapshot_thread, construct, destroy, set_snapshot_operations_threshold,
  set_snapshot_time_threshold,
}
use octet.Commands
use octet.Commands.{CommandResult, success, failure, exit, listed, execute_shot}
use octet.Commands.Beside.{Event, run_session}
use octet.Help.{help_page}
use octet.Args.{
  Mode, print_help, missing_storage, fail, server, interactive, single_shot, Start, read_arguments,
}
use octet.Server.{Completion, start_server}

-- What a run draws from outside: the answers to the opening of the storage, the clocks, what the modes
-- draw, the rounds of the storage's thread before a single command and behind it, and what the
-- destructor does.
pub record Outside : Type 0 where
  pub opening : Answers
  pub ensuring : Answers
  pub loading : LoadAnswers
  pub now : Bytes
  pub time : ℕ
  pub command : Commands.Draw
  pub before : List Round
  pub behind : List Round
  pub events : List Event
  pub serving : Answers
  pub leftover : Bool
  pub removed : Bool
  pub completions : List Completion
  pub closing : Closing

unfoldable pub exit_code : CommandResult → ℕ
exit_code success = 0
exit_code failure = 1
exit_code exit = 1

unfoldable pub set_thresholds : ℕ → Option ℕ → Option ℕ → Storage → Storage
set_thresholds time none none s = s
set_thresholds time (some operations) none s = set_snapshot_operations_threshold operations s
set_thresholds time none (some minutes) s = set_snapshot_time_threshold time minutes s
set_thresholds time (some operations) (some minutes) s =
    set_snapshot_time_threshold time minutes (set_snapshot_operations_threshold operations s)

module _ (stoul : Bytes → Option ℕ) (executable : Bytes) (json : JsonLibrary)
    (bind : FilePath → Disk → Option Disk) (to_path : Bytes → FilePath)
    (temp_directory : FilePath) where
  -- The path of the socket, if one is given.
  abbrev pub socket_option : Option Bytes → Option FilePath
  socket_option none = none
  socket_option (some path) = some (to_path path)

  -- The mode's exit code, the texts that it prints, and the state it leaves.
  unfoldable pub dispatch : Outside → Mode → Storage → Disk → ℕ × List Bytes × Storage × Disk
  unfolding exit_code snapshot_thread
  dispatch o (server socket_path) s d =
      let (code, state) =
        start_server json bind o.serving o.leftover temp_directory (socket_option socket_path)
          o.removed o.completions s d in
      let (_, s', d') = state in (code, [], s', d')
  dispatch o interactive s d = run_session stoul o.events s d
  dispatch o (single_shot args) s d =
      let (s1, d1) = snapshot_thread o.before s d in
      let (result, line, s', d') = execute_shot stoul o.command args s1 d1 in
      let (s2, d2) = snapshot_thread o.behind s' d' in (exit_code result, listed line, s2, d2)
  dispatch o print_help s d = (0, help_page executable ∷ [], s, d)
  dispatch o missing_storage s d = (1, help_page executable ∷ [], s, d)
  dispatch o fail s d = (1, [], s, d)

  -- Over the storage that the constructor has given; `none` is its exception, which nothing catches.
  unfoldable pub run_over :
      Outside → Start → Option (Storage × Disk) → Option (ℕ × List Bytes × Disk)
  unfolding set_thresholds dispatch
  run_over o start none = none
  run_over o start (some (s, d)) =
      let (code, lines, s', d') =
        dispatch o start.mode
          (set_thresholds o.time start.operations_threshold start.time_threshold s) d in
      let (s2, d2) = destroy o.closing s' d' in some (code, lines, d2)

  abbrev pub is_early : Mode → Bool
  is_early print_help = true
  is_early fail = true
  is_early missing_storage = true
  is_early _ = false

  abbrev pub early_end : Mode → Disk → Option (ℕ × List Bytes × Disk)
  early_end print_help d = some (0, help_page executable ∷ [], d)
  early_end missing_storage d = some (1, help_page executable ∷ [], d)
  early_end _ d = some (1, [], d)

  unfoldable pub launch : Outside → Start → Disk → Option (ℕ × List Bytes × Disk)
  unfolding run_over
  launch o start d =
      if is_early start.mode
      then early_end start.mode d
      else run_over o start
          (construct o.opening o.ensuring o.loading o.now o.time (to_path start.storage_path) d)

  unfoldable pub main : Outside → List Bytes → Disk → Option (ℕ × List Bytes × Disk)
  unfolding launch
  main o args d = launch o (read_arguments stoul args) d
