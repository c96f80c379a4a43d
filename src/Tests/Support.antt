-- ===== src/Tests/Support.antt =====
-- Runs of src/Clock.cpp, src/Logging.cpp and src/CmdFlag.h.
use timer_benchmarks.Common.{
  ℕ, ◌≡◌, ◌↔◌, inr, refl, true, false, List, [], ◌∷◌, ◌++◌, some, ok, fault, overflow, Text, ℤ, pos,
  negsuc, ◌+ℤ◌, arith,
}
use timer_benchmarks.Clock.{current_time_millis, time_fly}
use timer_benchmarks.Clock.Fly.{Trip, forths, backs, total, fly_all, fly_all-back}
use timer_benchmarks.Logging.{
  LogMessage, Logger, user_handler, first_logger, set_log_handler, dcheck,
}
use timer_benchmarks.Logging.Handler.{set_log_handler-restores, logger_of, is_aborted, printed}
use timer_benchmarks.Logging.Check.{failure, shown, dcheck_reports}
use timer_benchmarks.CmdFlag.{
  Environment, declare_variable, qsf_define_bool, qsf_define_int32, type_b, type_i, bool_value,
  int_value, env_to_int,
}
use timer_benchmarks.CmdFlag.Env.{IsYes, decimal, qsf_define_int32-decimal, qsf_define_bool_iff}

-- the clock goes an hour back and ten seconds forth, and returns
abbrev trips : List Trip
trips =
    record { forth = (negsuc 3599999, refl); back = (pos 3600000, refl); opposite = refl }
    ∷ record { forth = (pos 10000, refl); back = (negsuc 9999, refl); opposite = refl }
    ∷ []

abbrev flown_by : ℤ
flown_by = negsuc 3589999

trips_fly : fly_all (forths trips) (pos 0) ≡ ok flown_by
unfolding fly_all time_fly
trips_fly = refl

fly_all-back_example :
    (current_time_millis (pos 1700000000000) flown_by
      ≡ ok (pos 1700000000000 +ℤ (pos 0 +ℤ total trips)))
    × (fly_all (backs trips) flown_by ≡ ok (pos 0))
fly_all-back_example = fly_all-back trips (pos 0) (pos 1700000000000) flown_by refl refl trips_fly

-- a time that an `int64_t` cannot hold
overflow_test : time_fly (pos 9223372036854775807, refl) (pos 1) ≡ fault overflow
unfolding time_fly
overflow_test = refl

set_log_handler-restores_example :
    (set_log_handler
      (set_log_handler (some (user_handler 3)) first_logger).0
      (record first_logger { log_handler = user_handler 3 })).1
    ≡ record (record first_logger { log_handler = user_handler 3 }) {
      log_handler = first_logger.log_handler;
    }
set_log_handler-restores_example =
    set_log_handler-restores (some (user_handler 3)) first_logger
      (record first_logger { log_handler = user_handler 3 })

abbrev name : Text
name = b'n' ∷ []

-- a user's handler that prints the message; messages that are not fatal are silenced
abbrev silenced : Logger
silenced = record first_logger { log_silencer_count = 1 }

abbrev no_numbers : ℕ → Text
no_numbers n = []

abbrev echo : ℕ → LogMessage → Text
echo k m = m.message

dcheck_reports_example :
    let r =
      dcheck name 7 false name false
        (name ∷ [])
        (set_log_handler (some (user_handler 3)) silenced).1 in
    (is_aborted r ≡ true)
    × (printed no_numbers echo (logger_of r).written
        ≡ printed no_numbers echo silenced.written
          ++ shown no_numbers echo (some (user_handler 3)) (failure name 7 name (name ∷ [])))
dcheck_reports_example =
    dcheck_reports no_numbers echo (some (user_handler 3)) silenced name 7 false name false
      (name ∷ [])

-- an environment where every variable is `-12 s`
abbrev env : Environment
env envname = some (b'-' ∷ b'1' ∷ b'2' ∷ b' ' ∷ b's' ∷ [])

env_test : env_to_int env name (pos 5) ≡ negsuc 11
unfolding env_to_int
env_test = refl

-- an environment where every variable is set to the text
abbrev env_of : Text → Environment
env_of value envname = some value

qsf_define_int32-decimal_example :
    let defined_flags = qsf_define_int32 (env_of (decimal (negsuc 2019))) name (pos 5) [] in
    (declare_variable type_i name defined_flags ≡ some (int_value (negsuc 2019)))
    × (declare_variable type_b [] defined_flags ≡ declare_variable type_b [] [])
qsf_define_int32-decimal_example =
    qsf_define_int32-decimal (env_of (decimal (negsuc 2019))) name [] (pos 5) (negsuc 2019) type_b
      [] refl refl refl

qsf_define_bool_iff_example :
    (declare_variable type_b name (qsf_define_bool (env_of name) name true [])
      ≡ some (bool_value true))
    ↔ IsYes name
qsf_define_bool_iff_example =
    qsf_define_bool_iff (env_of name) name [] true name refl (inr (λ e. omega (arith, e)))
