-- ===== src/Logging/Handler.antt =====
-- src/Logging.cpp: the handler of messages, and what reaches it.
use mathlib.Core.List.{append_assoc, append-nil}
use timer_benchmarks.Common.{
  map, ℕ, ◌≡◌, ◌≤◌, refl, List, [], ◌∷◌, ◌++◌, Option, Bool, true, false, ap, sym, ◌∙◌, Text,
  concat, length, length-take, take-all, if◌then◌else◌, ltb, Bool-cases, inl, inr,
}
use timer_benchmarks.Logging.{
  Logged, goes_on, aborted, LogLevel, LogMessage, LogHandler, Logger, default_handler, null_handler,
  user_handler, is_fatal, push_all, new_message, log_line, default_log_handler, deliver, log_finish,
  handle, set_log_handler, log, visible, installed,
}

installed-visible : (h : LogHandler) → installed (visible h) ≡ h
installed-visible default_handler = refl
installed-visible null_handler = refl
installed-visible (user_handler k) = refl

-- Set any log handler, or NULL, and later give SetLogHandler what it returned: the handler is the
-- one before, also where that was the one that ignores messages, and nothing else of the logger
-- changes by it.
pub set_log_handler-restores :
    (f : Option LogHandler) (s s' : Logger)
    → (set_log_handler (set_log_handler f s).0 s').1 ≡ record s' { log_handler = s.log_handler }
unfolding set_log_handler
set_log_handler-restores f s s' =
    ap (λ h. record s' { log_handler = h }) (installed-visible s.log_handler)

push_all-concat :
    (values : List Text) (m : LogMessage)
    → push_all values m ≡ record m { message = m.message ++ concat values }
push_all-concat [] m = rw (append-nil m.message) refl
push_all-concat (v ∷ values) m =
    rw
      (
        push_all-concat values (record m { message = m.message ++ v }),
        append_assoc m.message v (concat values),
      )
      refl

-- a logger after a message has reached the handler
abbrev pub reported : LogMessage → Logger → Logger
reported m s = record s { written = s.written ++ (s.log_handler, m) ∷ [] }

log_finish-delivers :
    (m : LogMessage) (s : Logger)
    → log_finish m s ≡ (
        if is_fatal m.level
        then aborted (reported m s)
        else if ltb 0 s.log_silencer_count
        then goes_on tt s
        else goes_on tt (reported m s))
unfolding log_finish deliver
log_finish-delivers m s = elim (Bool-cases (is_fatal m.level)) [
  | inl e ↦ rw e refl
  | inr e ↦ elim (Bool-cases (ltb 0 s.log_silencer_count)) [
    | inl q ↦ rw (e, q) refl
    | inr q ↦ rw (e, q) refl
  ]
]

pub log_delivers :
    (filename : Text) (line : ℕ) (level : LogLevel) (values : List Text) (s : Logger)
    → let m : LogMessage = record {
      level = level;
      filename = filename;
      line = line;
      message = concat values;
    } in
      log filename line level values s ≡ (
        if is_fatal level
        then aborted (reported m s)
        else if ltb 0 s.log_silencer_count
        then goes_on tt s
        else goes_on tt (reported m s))
unfolding log
log_delivers filename line level values s =
    rw (push_all-concat values (new_message level filename line))
      (log_finish-delivers (record (new_message level filename line) { message = concat values }) s)

pub default_log_handler_bound :
    (show : ℕ → Text) (level : LogLevel) (filename : Text) (line : ℕ) (message : Text)
    → let whole = log_line show level filename line message in
      let out = default_log_handler show level filename line message in
      (length out ≤ 1022) × (length whole ≤ 1022 → out ≡ whole)
unfolding default_log_handler
default_log_handler_bound show level filename line message =
    let whole = log_line show level filename line message in
    (length-take 1022 whole, take-all 1022 whole)

abbrev pub logger_of {ℓ} : {A : Type ℓ} → Logged A → Logger
logger_of (goes_on x s) = s
logger_of (aborted s) = s

abbrev pub is_aborted {ℓ} : {A : Type ℓ} → Logged A → Bool
is_aborted (goes_on x s) = false
is_aborted (aborted s) = true

module _ (show : ℕ → Text) (user : ℕ → LogMessage → Text) where
  -- all that the handlers have printed
  abbrev pub printed : List (LogHandler × LogMessage) → Text
  printed written = concat (map (λ w. handle show user w.0 w.1) written)

  pub printed-snoc :
      (written : List (LogHandler × LogMessage)) (h : LogHandler) (m : LogMessage)
      → printed (written ++ (h, m) ∷ []) ≡ printed written ++ handle show user h m
  printed-snoc [] h m = append-nil (handle show user h m)
  printed-snoc (w ∷ written) h m =
      ap (λ t. handle show user w.0 w.1 ++ t) (printed-snoc written h m)
      ∙ sym (append_assoc (handle show user w.0 w.1) (printed written) (handle show user h m))
