-- ===== src/Logger/Macros.antt =====
-- LogStream and the macros LOG_TRACE to LOG_IMPORTANT of include/logger.hpp.
use octet.Prelude.{
  Bool, true, false, ◌&&◌, not, List, [], ◌∷◌, ◌++◌, nat_eq, list_eq, leb, if◌then◌else◌, Bytes,
}
use octet.Logger.{LogLevel, Logger, Outcome, Outside, Place, completed, important, level_rank, log}

-- `LogStream`: the values that `<<` keeps, and the destructor that writes them.
unfoldable pub stream : LogLevel → List Bytes → Logger → Bytes
unfolding level_rank
stream level [] logger = []
stream level (val ∷ vals) logger =
    let rest = stream level vals logger in
    if logger.enabled && leb (level_rank logger.minimum_level) (level_rank level)
    then val ++ rest
    else rest

unfoldable pub log_stream : Outside → LogLevel → Place → List Bytes → Logger → Outcome
unfolding stream log
log_stream o level at vals logger = log o false level (stream level vals logger) at true logger

-- LOG_TRACE ... LOG_CRITICAL have a test before the stream, LOG_IMPORTANT has none.
unfoldable pub is_tested : LogLevel → Bool
is_tested important = false
is_tested _ = true

unfoldable pub log_macro : Outside → LogLevel → Place → List Bytes → Logger → Outcome
unfolding is_tested log_stream level_rank
log_macro o level at vals logger =
    if is_tested level
      && not (logger.enabled && leb (level_rank logger.minimum_level) (level_rank level))
    then completed []
    else log_stream o level at vals logger
