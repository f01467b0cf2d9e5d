-- ===== src/Logger.antt =====
-- src/logger.cpp and include/logger.hpp: the logger, what it writes to the console and to the log file,
-- which Logger/Settings sets up and the macros of Logger/Macros write through. A text is the list of its characters' code points. The time, the
-- terminal and what the file system answers are arguments; `errnoToString` only calls the system.
pub mod Calls
pub mod Gates
pub mod Macros
pub mod Settings
use octet.Prelude.{
  ℕ, zero, suc, ◌+◌, ◌-◌, ◌*◌, ◌/◌, ◌%◌, ◌^◌, ◌≤◌, ◌<◌, String, ◌≡◌, refl, sym, ap, subst, ◌∙◌,
  fun_ext, ◌≢◌, ◌↔◌, ◌⊎◌, inl, inr, Bool, true, false, ◌&&◌, ◌||◌, not, Option, none, some, List,
  [], ◌∷◌, ◌++◌, append_assoc, append-nil, arith, Comparable, ◌==◌, nat_eq, list_eq, list_beq,
  list_beq_iff, beq_refl, beq_ne, ltb, leb, nat_beq, nat_beq_iff, if◌then◌else◌, has_value,
  Bool-cases, Option-cases, Bytes, codes, length, take, drop, length-append, take-length-append,
  drop-length-append, length-drop, All, All-append, Lacks,
}
use octet.Disk.{FilePath, parent_path}

pub data LogLevel : Type 0 where
  trace debug info warning error critical important : LogLevel

-- The order of the enumeration.
unfoldable pub level_rank : LogLevel → ℕ
level_rank trace = 0
level_rank debug = 1
level_rank info = 2
level_rank warning = 3
level_rank error = 4
level_rank critical = 5
level_rank important = 6

pub record Logger : Type 0 where
  pub enabled : Bool
  pub console_output : Bool
  pub color_output : Bool
  pub format_message : Bool
  pub log_file_path : Option FilePath
  pub minimum_level : LogLevel

unfoldable pub new_logger : Logger
new_logger = record {
  enabled = false;
  console_output = false;
  color_output = false;
  format_message = false;
  log_file_path = none;
  minimum_level = info;
}

-- What a call reads of the outside: the time's text, `TERM`, and whether the log file and its directory
-- can be made.
pub record Outside : Type 0 where
  pub time : Bytes
  pub term : Option Bytes
  pub file_opens : Bool
  pub directories_made : Bool

pub data Written : Type 0 where
  to_console : Bytes → Written
  to_file : FilePath → Bytes → Written

-- A call ends, or `create_directories` throws, or the thread waits for the mutex that it holds itself.
pub data Outcome : Type 0 where
  completed : List Written → Outcome
  thrown : List Written → Outcome
  deadlock : Outcome

unfoldable pub and_then : Outcome → Outcome → Outcome
and_then (completed ws) (completed vs) = completed (ws ++ vs)
and_then (completed ws) (thrown vs) = thrown (ws ++ vs)
and_then (completed ws) deadlock = deadlock
and_then (thrown ws) next = thrown ws
and_then deadlock next = deadlock

abbrev pub is_separator : ℕ → Bool
is_separator c = nat_beq c 47 || nat_beq c 92

-- The part behind the last separator; `none` if there is none.
unfoldable pub behind_separator : Bytes → Option Bytes
behind_separator [] = none
behind_separator (c ∷ cs) =
    let rest = behind_separator cs in
    elim rest [ some name ↦ some name | none ↦ if is_separator c then some cs else none ]

unfoldable pub extract_file_name : Bytes → Bytes
unfolding behind_separator
extract_file_name full_path = elim (behind_separator full_path) [
  | none ↦ full_path
  | some name ↦ name
]

unfoldable pub level_to_string : LogLevel → Bytes
level_to_string trace = codes "TRACE"
level_to_string debug = codes "DEBUG"
level_to_string info = codes "INFO"
level_to_string warning = codes "WARNING"
level_to_string error = codes "ERROR"
level_to_string critical = codes "CRITICAL"
level_to_string important = codes "IMPORTANT"

-- Where a message is written: `__FILE__` and the digits of `__LINE__`.
pub record Place : Type 0 where
  pub file : Bytes
  pub line : Bytes

abbrev pub place_text : Place → Bytes
place_text at =
    if at.file == []
    then []
    else codes "[" ++ extract_file_name at.file ++ codes ":" ++ at.line ++ codes "] "

unfoldable pub format_log_message : Outside → LogLevel → Bytes → Place → Bytes
unfolding extract_file_name level_to_string
format_log_message o level message at =
    codes "["
    ++ o.time
    ++ codes "] ["
    ++ level_to_string level
    ++ codes "] "
    ++ place_text at
    ++ message

abbrev pub escape_color : String → Bytes
escape_color digits = 27 ∷ codes "[" ++ codes digits ++ codes "m"

unfoldable pub color_code : LogLevel → Bytes
color_code trace = escape_color "36"
color_code debug = escape_color "34"
color_code info = escape_color "32"
color_code warning = escape_color "33"
color_code error = escape_color "31"
color_code critical = escape_color "35"
color_code important = escape_color "0"

abbrev pub line_end : Bytes
line_end = codes "\n"

unfoldable pub write_to_console : Logger → Bytes → LogLevel → Written
unfolding color_code
write_to_console logger formatted_message level =
    let prefix = if logger.format_message then codes "OCTET: " else [] in
    to_console (
      if logger.color_output
      then color_code level ++ prefix ++ formatted_message ++ escape_color "0" ++ line_end
      else prefix ++ formatted_message ++ line_end)

abbrev pub cannot_open : Written
cannot_open = to_console (codes "OCTET: Не удалось открыть файл для записи: ")

-- The path in the message of a file that does not open is left out.
abbrev pub append_line : Bool → Option FilePath → Bytes → Bool × List Written
append_line opened none text = (false, [])
append_line true (some path) text = (true, to_file path (text ++ line_end) ∷ [])
append_line false (some path) text = (false, cannot_open ∷ [])

unfoldable pub write_to_file : Outside → Logger → Bytes → Bool × List Written
write_to_file o logger formatted_message =
    append_line o.file_opens logger.log_file_path formatted_message

-- The level is below the minimum.
abbrev pub is_below : LogLevel → LogLevel → Bool
is_below level minimum = ltb (level_rank level) (level_rank minimum)

-- `held` says that the calling thread has the mutex.
unfoldable pub log : Outside → Bool → LogLevel → Bytes → Place → Bool → Logger → Outcome
unfolding level_rank format_log_message write_to_console write_to_file
log o held level message at use_lock logger =
    let formatted =
      if logger.format_message then format_log_message o level message at else message in
    if not logger.enabled || is_below level logger.minimum_level
    then completed []
    else if use_lock && held
    then deadlock
    else completed (
        (if logger.console_output then write_to_console logger formatted level ∷ [] else [])
        ++ (if has_value logger.log_file_path then (write_to_file o logger formatted).1 else []))
