-- ===== src/Logging.antt =====
-- src/Logging.h and src/Logging.cpp: messages, the handler that they go to, and the CHECK macros.
-- What the handlers are given is kept in `written`. A fatal message ends the program after that.
pub mod Handler
pub mod Check
use timer_benchmarks.Common.{
  ℕ, Bool, true, false, not, List, [], ◌∷◌, ◌++◌, Option, none, some, ltb, if◌then◌else◌, Text,
  take, from_last,
}

pub data LogLevel : Type 0 where
  loglevel_info loglevel_warning loglevel_error loglevel_fatal : LogLevel

abbrev pub loglevel_dfatal : LogLevel
loglevel_dfatal = loglevel_fatal

abbrev pub is_fatal : LogLevel → Bool
is_fatal loglevel_info = false
is_fatal loglevel_warning = false
is_fatal loglevel_error = false
is_fatal loglevel_fatal = true

pub record LogMessage : Type 0 where
  pub level : LogLevel
  pub filename : Text
  pub line : ℕ
  pub message : Text

abbrev pub new_message : LogLevel → Text → ℕ → LogMessage
new_message level filename line = record {
  level = level;
  filename = filename;
  line = line;
  message = [];
}

-- `<< value`, where a number is given as the text that a stream makes of it
abbrev pub push : Text → LogMessage → LogMessage
push value m = record m { message = m.message ++ value }

abbrev pub push_all : List Text → LogMessage → LogMessage
push_all [] m = m
push_all (value ∷ values) m = push_all values (push value m)

-- `level_names`
abbrev pub level_name : LogLevel → Text
level_name loglevel_info = b'I' ∷ b'N' ∷ b'F' ∷ b'O' ∷ []
level_name loglevel_warning = b'W' ∷ b'A' ∷ b'R' ∷ b'N' ∷ b'I' ∷ b'N' ∷ b'G' ∷ []
level_name loglevel_error = b'E' ∷ b'R' ∷ b'R' ∷ b'O' ∷ b'R' ∷ []
level_name loglevel_fatal = b'F' ∷ b'A' ∷ b'T' ∷ b'A' ∷ b'L' ∷ []

abbrev pub file_name : Text → Text
file_name filename = elim (from_last b'\\' filename) [ some sep ↦ sep | none ↦ filename ]

-- the line that snprintf formats, before it is cut
unfoldable pub log_line : (ℕ → Text) → LogLevel → Text → ℕ → Text → Text
log_line show level filename line message =
    b'['
    ∷ (level_name level
        ++ (b' '
            ∷ (file_name filename
                ++ (b':' ∷ (show line ++ (b']' ∷ b' ' ∷ (message ++ b'\n' ∷ [])))))))

-- DefaultLogHandler: what goes to stderr
unfoldable pub default_log_handler : (ℕ → Text) → LogLevel → Text → ℕ → Text → Text
unfolding log_line
default_log_handler show level filename line message =
    take 1022 (log_line show level filename line message)

-- a `LogHandler*` that is not NULL
pub data LogHandler : Type 0 where
  default_handler null_handler : LogHandler
  user_handler : ℕ → LogHandler

-- NullLogHandler prints nothing
unfoldable pub null_log_handler : LogLevel → Text → ℕ → Text → Text
null_log_handler level filename line message = []

-- what a call of a handler prints, given what those of a user print
unfoldable pub handle : (ℕ → Text) → (ℕ → LogMessage → Text) → LogHandler → LogMessage → Text
unfolding default_log_handler null_log_handler
handle show user default_handler m = default_log_handler show m.level m.filename m.line m.message
handle show user null_handler m = null_log_handler m.level m.filename m.line m.message
handle show user (user_handler k) m = user k m

-- the static variables of Logging.cpp
pub record Logger : Type 0 where
  pub log_handler : LogHandler
  pub log_silencer_count : ℕ
  pub written : List (LogHandler × LogMessage)

abbrev pub first_logger : Logger
first_logger = record { log_handler = default_handler; log_silencer_count = 0; written = [] }

-- Finish up to the end of the program: the handler is called, for a fatal message too
unfoldable pub deliver : LogMessage → Logger → Logger
deliver m s =
    let suppress = if is_fatal m.level then false else ltb 0 s.log_silencer_count in
    if suppress then s else record s { written = s.written ++ (s.log_handler, m) ∷ [] }

-- what a statement comes to: the program goes on with a value, or has ended by abort()
pub data Logged {ℓ} (A : Type ℓ) : Type ℓ where
  goes_on : A → Logger → Logged A
  aborted : Logger → Logged A

-- `LogMessage::Finish`, which `LogFinisher` calls
unfoldable pub log_finish : LogMessage → Logger → Logged (Unit {0})
unfolding deliver
log_finish m s = let s' = deliver m s in if is_fatal m.level then aborted s' else goes_on tt s'

-- the handler as SetLogHandler returns it, and the one that it sets
abbrev pub visible : LogHandler → Option LogHandler
visible default_handler = some default_handler
visible null_handler = none
visible (user_handler k) = some (user_handler k)

abbrev pub installed : Option LogHandler → LogHandler
installed none = null_handler
installed (some f) = f

unfoldable pub set_log_handler : Option LogHandler → Logger → Option LogHandler × Logger
set_log_handler new_func s = (visible s.log_handler, record s { log_handler = installed new_func })

-- `LOG(level) << values`, at a line of a file
module _ (filename : Text) (line : ℕ) where
  unfoldable pub log : LogLevel → List Text → Logger → Logged (Unit {0})
  unfolding log_finish
  log level values s = log_finish (push_all values (new_message level filename line)) s

  unfoldable pub log_if : LogLevel → Bool → List Text → Logger → Logged (Unit {0})
  unfolding log
  log_if level condition values s = if not condition then goes_on tt s else log level values s

  -- `CHECK(expression) << values`; `text` is "CHECK failed: ..." with the expression
  unfoldable pub check : Text → Bool → List Text → Logger → Logged (Unit {0})
  unfolding log_if
  check text expression values s = log_if loglevel_fatal (not expression) (text ∷ values) s

  -- `CHECK_EQ(a, b)` and the like, for a test of the two values
  unfoldable pub check_that {ℓ} :
      {A : Type ℓ} → (A → A → Bool) → Text → A → A → List Text → Logger → Logged (Unit {0})
  unfolding check
  check_that test text a b values s = check text (test a b) values s

  unfoldable pub check_not_null {ℓ} : {A : Type ℓ} → Text → Option A → Logger → Logged (Option A)
  unfolding log
  check_not_null name val s = elim val [
    | none ↦ elim (log loglevel_fatal (name ∷ []) s) [
      | goes_on x s' ↦ goes_on none s'
      | aborted s' ↦ aborted s'
    ]
    | some a ↦ goes_on (some a) s
  ]

  -- the debug variants, given whether NDEBUG is defined
  unfoldable pub dlog : Bool → List Text → Logger → Logged (Unit {0})
  unfolding log_if log
  dlog ndebug values s =
      if ndebug then log_if loglevel_info false values s else log loglevel_info values s

  unfoldable pub dcheck : Bool → Text → Bool → List Text → Logger → Logged (Unit {0})
  unfolding check
  dcheck ndebug text expression values s =
      if ndebug then goes_on tt s else check text expression values s
