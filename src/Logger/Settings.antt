-- ===== src/Logger/Settings.antt =====
-- The functions of src/logger.cpp that switch the logger on and off and set it up.
use octet.Prelude.{
  Bool, true, false, ◌&&◌, ◌||◌, not, Option, none, some, [], ◌∷◌, ◌++◌, ◌==◌, nat_eq, list_eq,
  if◌then◌else◌, Bytes, codes,
}
use octet.Disk.{FilePath, parent_path}
use octet.Logger.{
  LogLevel, Logger, Outcome, Outside, Place, and_then, completed, info, level_to_string, log,
  thrown, to_file, warning,
}

unfoldable pub is_color_supported_by_terminal : Outside → Bool
is_color_supported_by_terminal o = elim o.term [
  | none ↦ false
  | some term ↦ not (term == codes "dumb") && not (term == codes "unknown")
]

abbrev pub yes_or_no : Bool → Bytes
yes_or_no b = if b then codes "да" else codes "нет"

abbrev pub color_warning : Bytes
color_warning =
    codes "Включена поддержка цветного вывода, однако текущая консоль не поддерживает ANSI цвета"

-- The heading of a log file.
unfoldable pub open_log : Outside → Option FilePath → Outcome
open_log o none = completed []
open_log o (some path) =
    if parent_path path == [] || o.directories_made
    then completed (
        if o.file_opens
        then to_file path (codes "--- OCTET логирование начато в " ++ o.time ++ codes " ---\n") ∷ []
        else [])
    else thrown []

unfoldable pub configured :
    Outside → Bool → Option FilePath → LogLevel → Bool → Bool → Logger → Logger
unfolding is_color_supported_by_terminal
configured o log_to_console log_file min_level use_colors format_message logger = record {
  enabled = true;
  console_output = log_to_console;
  color_output = if use_colors then is_color_supported_by_terminal o else logger.color_output;
  format_message = format_message;
  log_file_path = log_file;
  minimum_level = min_level;
}

abbrev pub config_message : Logger → Bytes
config_message logger =
    codes "Логирование включено (минимальный уровень: "
    ++ level_to_string logger.minimum_level
    ++ codes ", вывод в консоль: "
    ++ yes_or_no logger.console_output
    ++ codes ", цветной вывод: "
    ++ yes_or_no logger.color_output
    ++ codes ")"

-- The places of the logger's own messages are the arguments `at`.
unfoldable pub enable :
    Outside → Place → Bool → Option FilePath → LogLevel → Bool → Bool → Logger → Logger × Outcome
unfolding configured open_log log and_then level_to_string
enable o at log_to_console log_file min_level use_colors format_message logger =
    let after = configured o log_to_console log_file min_level use_colors format_message logger in
    (
      after,
      and_then (open_log o log_file) (
          and_then
            (if use_colors && not (is_color_supported_by_terminal o)
              then log o false warning color_warning at true after
              else completed [])
            (log o false info (config_message after) at true after)),
    )

abbrev pub disabled_message : Bytes
disabled_message = codes "Логирование отключено"

abbrev pub level_message : LogLevel → Bytes
level_message level =
    codes "Минимальный уровень логирования установлен на " ++ level_to_string level

abbrev pub colors_message : Bool → Bytes
colors_message b =
    codes "Использование цветного вывода " ++ (if b then codes "включено" else codes "отключено")

unfoldable pub disable : Outside → Place → Logger → Logger × Outcome
unfolding log
disable o at logger =
    (record logger { enabled = false }, log o true info (disabled_message) at false logger)

unfoldable pub set_min_log_level : Outside → Place → LogLevel → Logger → Logger × Outcome
unfolding log level_to_string
set_min_log_level o at level logger =
    let after = record logger { minimum_level = level } in
    (
      after,
      if logger.enabled then log o true info (level_message level) at false after else completed [],
    )

unfoldable pub set_use_colors : Outside → Place → Bool → Logger → Logger × Outcome
unfolding log is_color_supported_by_terminal and_then
set_use_colors o at use_colors logger =
    let supported = is_color_supported_by_terminal o in
    let after = record logger { color_output = use_colors && supported } in
    (
      after,
      and_then
          (if use_colors && not supported
            then log o true warning color_warning at false logger
            else completed [])
          (log o true info (colors_message (use_colors && supported)) at false after),
    )

unfoldable pub set_format_message : Bool → Logger → Logger
set_format_message format_message logger = record logger { format_message = format_message }
