-- ===== src/Logger/Gates.antt =====
-- When the logger writes, and that the macros write what `log` writes.
use octet.Prelude.{
  ◌≡◌, refl, sym, ap, ◌∙◌, ◌↔◌, inl, inr, Bool, true, false, ◌&&◌, ◌||◌, not, Option, none, some,
  List, [], ◌∷◌, ◌++◌, arith, nat_eq, list_eq, leb, if◌then◌else◌, has_value, Bool-cases, Bytes,
}
use octet.Disk.{FilePath}
use octet.Logger.{
  LogLevel, level_rank, Logger, Outside, Place, Written, Outcome, completed, is_below, log,
  write_to_file, append_line,
}
use octet.Logger.Macros.{stream, log_stream, log_macro, is_tested}

-- The values of a stream, in one text.
unfoldable pub joined : List Bytes → Bytes
joined [] = []
joined (val ∷ vals) = val ++ joined vals

abbrev pub is_silent : LogLevel → Logger → Bool
is_silent level logger = not logger.enabled || is_below level logger.minimum_level

below-not : (a b : LogLevel) → leb (level_rank b) (level_rank a) ≡ not (is_below a b)
below-not a b = ground arith

pub skipped :
    (b : Bool) (x : Outcome) → x ≡ completed [] → (if b then completed [] else x) ≡ completed []
skipped true x h = refl
skipped false x h = h

passed : (t a : Bool) (x : Outcome) → a ≡ true → (if t && not a then completed [] else x) ≡ x
passed true true x h = refl
passed true false x h = cc
passed false a x h = refl

abbrev is_empty : Outcome → Bool
is_empty (completed []) = true
is_empty _ = false

-- The lines of the console and of the file, when the file's are not none.
nothing_written :
    (console file : Bool) (w : Written) (ws : List Written)
    → (file ≡ true → (v : Written) × (vs : List Written) × (ws ≡ v ∷ vs))
    → (completed ((if console then w ∷ [] else []) ++ (if file then ws else [])) ≡ completed [])
      ↔ (not (console || file) ≡ true)
nothing_written true file w ws h = (λ e. absurd (false-true (ap is_empty e)), λ e. cc)
  where
    false-true : false ≡ true → ⊥
    false-true e = cc
nothing_written false false w ws h = (λ e. refl, λ e. refl)
nothing_written false true w ws h =
    let (v, vs, e) = h refl in (λ f. absurd (nonempty v vs (ap completed (sym e) ∙ f)), λ f. cc)
  where
    nonempty : (v : Written) (vs : List Written) → completed (v ∷ vs) ≡ completed [] → ⊥
    nonempty v vs f = differ (ap is_empty f)
      where
        differ : false ≡ true → ⊥
        differ e = cc

append_line-writes :
    (opened : Bool) (path : Option FilePath) (text : Bytes)
    → has_value path ≡ true
    → (v : Written) × (vs : List Written) × ((append_line opened path text).1 ≡ v ∷ vs)
append_line-writes opened none text h = cc
append_line-writes true (some path) text h = (_, _, refl)
append_line-writes false (some path) text h = (_, _, refl)

module _ (o : Outside) (level : LogLevel) (at : Place) (logger : Logger) where
  opens :
      logger.enabled && leb (level_rank logger.minimum_level) (level_rank level)
      ≡ not (is_silent level logger)
  opens =
      rw (below-not level logger.minimum_level)
        (de_morgan logger.enabled (is_below level logger.minimum_level))
    where
      de_morgan : (a b : Bool) → (a && not b) ≡ not (not a || b)
      de_morgan true b = refl
      de_morgan false b = refl

  pub log-silenced :
      (held : Bool) (message : Bytes) (use_lock : Bool)
      → is_silent level logger ≡ true
      → log o held level message at use_lock logger ≡ completed []
  unfolding log
  log-silenced held message use_lock h = rw h refl

  stream-joined :
      (vals : List Bytes) → is_silent level logger ≡ false → stream level vals logger ≡ joined vals
  unfolding stream joined
  stream-joined [] h = refl
  stream-joined (val ∷ vals) h = rw (opens, h) (ap (λ rest. val ++ rest) (stream-joined vals h))

  -- A message that is streamed into a macro is written as one call of `log` with the joined text
  -- would write it: the tests of the macro and of each `<<` neither lose nor add anything.
  pub log_macro-log :
      (vals : List Bytes)
      → log_macro o level at vals logger ≡ log o false level (joined vals) at true logger
  unfolding log_macro log_stream
  log_macro-log vals = elim (Bool-cases (is_silent level logger)) [
    | inl silent ↦
        skipped
          (is_tested level
            && not (logger.enabled && leb (level_rank logger.minimum_level) (level_rank level)))
          (log o false level (stream level vals logger) at true logger)
          (log-silenced false (stream level vals logger) true silent)
        ∙ sym (log-silenced false (joined vals) true silent)
    | inr heard ↦
        passed (is_tested level)
          (logger.enabled && leb (level_rank logger.minimum_level) (level_rank level))
          (log o false level (stream level vals logger) at true logger) (opens ∙ ap not heard)
        ∙ ap (λ message. log o false level message at true logger) (stream-joined vals heard)
  ]

  -- A call of `log` that does not wait for its own thread writes nothing exactly if the logger is
  -- disabled, the level is below the minimum, or there is neither a console nor a file.
  pub log-silent :
      (held : Bool) (message : Bytes) (use_lock : Bool)
      → use_lock && held ≡ false
      → (log o held level message at use_lock logger ≡ completed []) ↔ (
          is_silent level logger || not (logger.console_output || has_value logger.log_file_path)
          ≡ true)
  unfolding log write_to_file
  log-silent held message use_lock free = elim (Bool-cases (is_silent level logger)) [
    | inl silent ↦ rw silent (λ e. refl, λ e. refl)
    | inr heard ↦
        rw (heard, free)
          (nothing_written logger.console_output (has_value logger.log_file_path) _ _
            (append_line-writes o.file_opens logger.log_file_path _))
  ]
