-- ===== src/Logging/Check.antt =====
-- src/Logging.h: the CHECK macros, and what a handler prints of a failed one.
use mathlib.Core.List.{append-nil}
use timer_benchmarks.Common.{
  ℕ, ◌≡◌, refl, sym, Bool, true, false, not, ◌||◌, List, [], ◌∷◌, ◌++◌, Option, none, some, Text,
  concat, if◌then◌else◌,
}
use timer_benchmarks.Logging.{
  LogMessage, LogHandler, Logger, Logged, goes_on, aborted, log_if, loglevel_fatal, check, dcheck,
  handle, set_log_handler, installed, null_log_handler,
}
use timer_benchmarks.Logging.Handler.{
  log_delivers, reported, logger_of, is_aborted, printed, printed-snoc,
}

-- what a failed CHECK tells a handler
abbrev pub failure : Text → ℕ → Text → List Text → LogMessage
failure filename line text values = record {
  level = loglevel_fatal;
  filename = filename;
  line = line;
  message = text ++ concat values;
}

-- what a handler prints of a message, nothing for NULL
abbrev pub shown : (ℕ → Text) → (ℕ → LogMessage → Text) → Option LogHandler → LogMessage → Text
shown show user none m = []
shown show user (some f) m = handle show user f m

module _ (filename : Text) (line : ℕ) (text : Text) (values : List Text) (s : Logger) where
  check_lem :
      (expression : Bool)
      → check filename line text expression values s ≡ (
          if expression
          then goes_on tt s
          else aborted (reported (failure filename line text values) s))
  unfolding check log_if
  check_lem true = refl
  check_lem false = log_delivers filename line loglevel_fatal (text ∷ values) s

  dcheck_lem :
      (ndebug expression : Bool)
      → dcheck filename line ndebug text expression values s ≡ (
          if ndebug || expression
          then goes_on tt s
          else aborted (reported (failure filename line text values) s))
  unfolding dcheck
  dcheck_lem true expression = refl
  dcheck_lem false expression = check_lem expression

handle-installed :
    (show : ℕ → Text) (user : ℕ → LogMessage → Text) (f : Option LogHandler) (m : LogMessage)
    → handle show user (installed f) m ≡ shown show user f m
unfolding handle null_log_handler
handle-installed show user none m = refl
handle-installed show user (some f) m = refl

-- After SetLogHandler(f), whether messages are silenced or not, a DCHECK ends the program if its
-- expression does not hold and NDEBUG is not defined, and lets it go on otherwise. All that the
-- handlers have printed since the start of the program grows by what `f` prints of one fatal
-- message with the file, the line, and the text followed by the values, nothing for NULL; where the
-- program goes on it does not grow. Without NDEBUG this is CHECK.
pub dcheck_reports :
    (show : ℕ → Text) (user : ℕ → LogMessage → Text) (f : Option LogHandler) (s : Logger)
    (filename : Text) (line : ℕ) (ndebug : Bool) (text : Text) (expression : Bool)
    (values : List Text)
    → let r = dcheck filename line ndebug text expression values (set_log_handler f s).1 in
      (is_aborted r ≡ not (ndebug || expression))
      × (printed show user (logger_of r).written
          ≡ printed show user s.written
            ++ (if ndebug || expression
                then []
                else shown show user f (failure filename line text values)))
unfolding set_log_handler
dcheck_reports show user f s filename line ndebug text expression values =
    rw (dcheck_lem filename line text values (set_log_handler f s).1 ndebug expression)
      (by_test (ndebug || expression))
  where
    by_test :
        (ok : Bool)
        → let r : Logged (Unit {0}) =
            if ok
            then goes_on tt (set_log_handler f s).1
            else aborted (reported (failure filename line text values) (set_log_handler f s).1) in
          (is_aborted r ≡ not ok)
          × (printed show user (logger_of r).written
              ≡ printed show user s.written
                ++ (if ok then [] else shown show user f (failure filename line text values)))
    by_test true = (refl, sym (append-nil (printed show user s.written)))
    by_test false = (
      refl,
      rw
          (
            printed-snoc show user s.written (installed f) (failure filename line text values),
            handle-installed show user f (failure filename line text values),
          )
          refl,
    )
