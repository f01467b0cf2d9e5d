-- ===== src/Examples/Logging.antt =====
-- Examples for the logger.
use octet.Prelude.{◌≡◌, refl, true, false, none, some, List, [], ◌∷◌, nat_eq, list_eq, Bytes, codes}
use octet.Logger.{warning, error, important, Logger, Outside, Place, log, completed}
use octet.Logger.Macros.{log_macro}
use octet.Logger.Gates.{joined, log_macro-log}
use octet.Logger.Calls.{
  Call, turn_off, choose_level, choose_colors, write, perform_all, is_stuck, perform_all-free,
  perform_all-off,
}

abbrev outside : Outside
outside = record {
  time = codes "2025-01-01 00:00:00.000";
  term = some (codes "xterm");
  file_opens = true;
  directories_made = true;
}

abbrev here : Place
here = record { file = codes "src/logger.cpp"; line = codes "172" }

abbrev console : Logger
console = record {
  enabled = true;
  console_output = true;
  color_output = true;
  format_message = true;
  log_file_path = none;
  minimum_level = warning;
}

abbrev values : List Bytes
values = codes "a" ∷ codes "bc" ∷ []

log_macro-log_example :
    log_macro outside error here values console
    ≡ log outside false error (joined values) here true console
log_macro-log_example = log_macro-log outside error here console values

abbrev calls : List (Outside × Call)
calls =
    (outside, choose_level error)
    ∷ (outside, choose_colors true)
    ∷ (outside, write important values)
    ∷ (outside, turn_off)
    ∷ []

perform_all-free_example : is_stuck (perform_all calls here console).1 ≡ false
perform_all-free_example = perform_all-free calls here console

perform_all-off_example :
    ((perform_all calls here (record console { enabled = false })).0.enabled ≡ false)
    × ((perform_all calls here (record console { enabled = false })).1 ≡ completed [])
perform_all-off_example =
    perform_all-off calls here (record console { enabled = false })
      (refl, (refl, (refl, (refl, tt)))) refl
