-- ===== src/Logger/Calls.antt =====
-- The public operations of the logger, one after the other.
use octet.Prelude.{
  ◌≡◌, refl, ap, ◌∙◌, Bool, true, false, ◌&&◌, ◌||◌, not, Option, none, some, List, [], ◌∷◌, ◌==◌,
  nat_eq, list_eq, if◌then◌else◌, Bytes,
}
use octet.Disk.{FilePath, parent_path}
use octet.Logger.{
  LogLevel, info, warning, Logger, Outside, Place, Outcome, completed, thrown, deadlock, and_then,
  is_below, log,
}
use octet.Logger.Settings.{
  is_color_supported_by_terminal, configured, open_log, enable, disable, set_min_log_level,
  set_use_colors, set_format_message, disabled_message, level_message, colors_message,
  config_message, color_warning,
}
use octet.Logger.Macros.{log_macro}
use octet.Logger.Gates.{log-silenced, is_silent, joined, log_macro-log}

pub data Call : Type 0 where
  turn_on :
      (log_to_console : Bool) (log_file : Option FilePath) (min_level : LogLevel)
      (use_colors format_message : Bool)
      → Call
  turn_off : Call
  choose_level : LogLevel → Call
  choose_colors choose_format : Bool → Call
  write : LogLevel → List Bytes → Call

unfoldable pub perform : Outside → Place → Call → Logger → Logger × Outcome
unfolding enable disable set_min_log_level set_use_colors set_format_message log_macro
perform o at (turn_on log_to_console log_file min_level use_colors format_message) logger =
    enable o at log_to_console log_file min_level use_colors format_message logger
perform o at turn_off logger = disable o at logger
perform o at (choose_level level) logger = set_min_log_level o at level logger
perform o at (choose_colors use_colors) logger = set_use_colors o at use_colors logger
perform o at (choose_format format_message) logger =
    (set_format_message format_message logger, completed [])
perform o at (write level vals) logger = (logger, log_macro o level at vals logger)

-- Each call comes with what it reads outside.
unfoldable pub perform_all : List (Outside × Call) → Place → Logger → Logger × Outcome
unfolding perform and_then
perform_all [] at logger = (logger, completed [])
perform_all ((o, c) ∷ cs) at logger =
    let (logger', out) = perform o at c logger in
    let (last, rest) = perform_all cs at logger' in (last, and_then out rest)

abbrev pub is_stuck : Outcome → Bool
is_stuck deadlock = true
is_stuck _ = false

and_then-free :
    (x y : Outcome) → is_stuck x ≡ false → is_stuck y ≡ false → is_stuck (and_then x y) ≡ false
unfolding and_then
and_then-free (completed ws) (completed vs) hx hy = refl
and_then-free (completed ws) (thrown vs) hx hy = refl
and_then-free (completed ws) deadlock hx hy = hy
and_then-free (thrown ws) y hx hy = refl
and_then-free deadlock y hx hy = hx

if-free :
    (b : Bool) (x y : Outcome)
    → is_stuck x ≡ false
    → is_stuck y ≡ false
    → is_stuck (if b then x else y) ≡ false
if-free true x y hx hy = hx
if-free false x y hx hy = hy

log-free :
    (o : Outside) (held : Bool) (level : LogLevel) (message : Bytes) (at : Place) (use_lock : Bool)
    (logger : Logger)
    → use_lock && held ≡ false
    → is_stuck (log o held level message at use_lock logger) ≡ false
unfolding log
log-free o held level message at use_lock logger free =
    if-free (not logger.enabled || is_below level logger.minimum_level) _ _ refl (rw free refl)

open_log-free : (o : Outside) (log_file : Option FilePath) → is_stuck (open_log o log_file) ≡ false
unfolding open_log
open_log-free o none = refl
open_log-free o (some path) = if-free (parent_path path == [] || o.directories_made) _ _ refl refl

perform-free :
    (o : Outside) (at : Place) (c : Call) (logger : Logger)
    → is_stuck ((perform o at c logger).1) ≡ false
unfolding perform enable disable set_min_log_level set_use_colors
perform-free o at (turn_on log_to_console log_file min_level use_colors format_message) logger =
    let after = configured o log_to_console log_file min_level use_colors format_message logger in
    let first = log-free o false warning color_warning at true after refl in
    let second = log-free o false info (config_message after) at true after refl in
    and_then-free (open_log o log_file) _ (open_log-free o log_file) (
      and_then-free _ _
        (if-free (use_colors && not (is_color_supported_by_terminal o)) _ _ first refl) second)
perform-free o at turn_off logger = log-free o true info disabled_message at false logger refl
perform-free o at (choose_level level) logger =
    let after = record logger { minimum_level = level } in
    if-free logger.enabled _ _ (log-free o true info (level_message level) at false after refl) refl
perform-free o at (choose_colors use_colors) logger =
    let supported = is_color_supported_by_terminal o in
    let after = record logger { color_output = use_colors && supported } in
    let first = log-free o true warning color_warning at false logger refl in
    let second =
      log-free o true info (colors_message (use_colors && supported)) at false after refl in
    and_then-free _ _ (if-free (use_colors && not supported) _ _ first refl) second
perform-free o at (choose_format format_message) logger = refl
perform-free o at (write level vals) logger =
    ap is_stuck (log_macro-log o level at logger vals)
    ∙ log-free o false level (joined vals) at true logger refl

-- No sequence of calls of the logger, by the public functions and the macros, makes a thread wait
-- for the mutex that it holds itself.
pub perform_all-free :
    (cs : List (Outside × Call)) (at : Place) (logger : Logger)
    → is_stuck ((perform_all cs at logger).1) ≡ false
unfolding perform_all
perform_all-free [] at logger = refl
perform_all-free ((o, c) ∷ cs) at logger =
    and_then-free ((perform o at c logger).1) _ (perform-free o at c logger)
      (perform_all-free cs at ((perform o at c logger).0))

abbrev pub turns_on : Call → Bool
turns_on (turn_on log_to_console log_file min_level use_colors format_message) = true
turns_on _ = false

-- What a call leaves of a disabled logger.
abbrev StaysOff : Logger × Outcome → Type 0
StaysOff (logger, out) = (logger.enabled ≡ false) × (out ≡ completed [])

off_silent :
    (level : LogLevel) (logger : Logger) → logger.enabled ≡ false → is_silent level logger ≡ true
off_silent level logger off = rw off refl

both_empty :
    (b : Bool) (x y : Outcome)
    → x ≡ completed []
    → y ≡ completed []
    → and_then (if b then x else completed []) y ≡ completed []
unfolding and_then
both_empty true x y hx hy = rw (hx, hy) refl
both_empty false x y hx hy = rw hy refl

perform-off :
    (o : Outside) (at : Place) (c : Call) (logger : Logger)
    → turns_on c ≡ false
    → logger.enabled ≡ false
    → StaysOff (perform o at c logger)
unfolding perform disable set_min_log_level set_use_colors set_format_message and_then
perform-off o at (turn_on log_to_console log_file min_level use_colors format_message) logger h
      off =
    cc
perform-off o at turn_off logger h off =
    (refl, log-silenced o info at logger true disabled_message false (off_silent info logger off))
perform-off o at (choose_level level) logger h off = (off, rw off refl)
perform-off o at (choose_colors use_colors) logger h off =
    (let supported = is_color_supported_by_terminal o in
      let after = record logger { color_output = use_colors && supported } in
      (
        off,
        both_empty (use_colors && not supported) _ _
            (log-silenced o warning at logger true color_warning false
              (off_silent warning logger off))
            (log-silenced o info at after true (colors_message (use_colors && supported)) false
              (off_silent info after off)),
      ))
perform-off o at (choose_format format_message) logger h off = (off, refl)
perform-off o at (write level vals) logger h off = (
  off,
  log_macro-log o level at logger vals
      ∙ log-silenced o level at logger false (joined vals) true (off_silent level logger off),
)

abbrev pub AllOff : List (Outside × Call) → Type 0
AllOff [] = Unit
AllOff ((o, c) ∷ cs) = (turns_on c ≡ false) × AllOff cs

-- A logger that is disabled stays disabled and writes nothing, whatever is called, until it is
-- enabled.
pub perform_all-off :
    (cs : List (Outside × Call)) (at : Place) (logger : Logger)
    → AllOff cs
    → logger.enabled ≡ false
    → StaysOff (perform_all cs at logger)
unfolding perform_all
perform_all-off [] at logger h off = (off, refl)
perform_all-off ((o, c) ∷ cs) at logger h off =
    let first = perform-off o at c logger h.0 off in
    let later = perform_all-off cs at ((perform o at c logger).0) h.1 first.0 in
    (later.0, both_empty true _ _ first.1 later.1)
