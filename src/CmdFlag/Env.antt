-- ===== src/CmdFlag/Env.antt =====
-- src/CmdFlag.h: a flag has the environment's value where there is one.
use timer_benchmarks.Common.{
  ℕ, zero, suc, ◌+◌, ◌-◌, ◌*◌, ◌==◌, ap, ◌∙◌, ◌/◌, ◌%◌, ◌<◌, Bool-cases, ltb, leb, if◌then◌else◌,
  pos, negsuc, ◌≡◌, ◌≢◌, ◌↔◌, ◌⊎◌, inl, inr, refl, Bool, true, false, [], ◌∷◌, some, Text, ℤ, arith,
}
use timer_benchmarks.CmdFlag.{
  digits, is_digit, is_space, skip_spaces, bounded, signed, Environment, env_to_bool, env_to_int,
  env_to_string, strtol, to_int32, ShortType, FlagValue, Flags, bool_value, int_value, string_value,
  type_b, type_i, type_s, type_i64, is_flag, declare_variable, define_variable, define_bool,
  define_int32, define_string, qsf_name, qsf_define_bool, qsf_define_int32, qsf_define_string,
  same_text, first_char,
}

-- the values that EnvToBool takes for true
abbrev pub IsYes : Text → Type 0
IsYes value =
    let c = first_char value in
    (value ≡ []) ⊎ (c ≡ b't') ⊎ (c ≡ b'T') ⊎ (c ≡ b'y') ⊎ (c ≡ b'Y') ⊎ (c ≡ b'1')

pub env_to_bool_iff :
    (env : Environment) (envname : Text) (dflt : Bool) (value : Text)
    → env envname ≡ some value
    → (value ≡ []) ⊎ (first_char value ≢ 0)
    → (env_to_bool env envname dflt ≡ true) ↔ IsYes value
unfolding env_to_bool
env_to_bool_iff env envname dflt [] e text = rw (e, env_to_bool) ((λ h. inl refl), λ h. refl)
env_to_bool_iff env envname dflt (c ∷ s) e (inl q) = absurd (ground arith)
env_to_bool_iff env envname dflt (c ∷ s) e (inr proper) =
    rw (e, env_to_bool) (ground arith, ground arith)

same_text_self : (s : Text) → same_text s s ≡ true
same_text_self [] = refl
same_text_self (c ∷ s) = ground (arith, same_text_self s)

-- what a definition of flags does to one of them
module _ (env : Environment) (name : Text) (flags : Flags) where
  defined :
      (shorttype : ShortType) (v : FlagValue)
      → declare_variable shorttype name (define_variable shorttype name v flags) ≡ some v
  unfolding declare_variable define_variable
  defined type_b v = rw (same_text_self name) refl
  defined type_i v = rw (same_text_self name) refl
  defined type_i64 v = rw (same_text_self name) refl
  defined type_s v = rw (same_text_self name) refl

  kept :
      (t t' : ShortType) (name' : Text) (v : FlagValue)
      → is_flag t name t' name' ≡ false
      → declare_variable t' name' (define_variable t name v flags) ≡ declare_variable t' name' flags
  unfolding declare_variable define_variable
  kept t t' name' v other = rw other refl

-- the decimal digits of `n`, in front of a text; `fuel` is for the loop over the digits
abbrev pub digits_of : ℕ → ℕ → Text → Text
digits_of zero n rest = rest
digits_of (suc fuel) n rest =
    let more = digits_of fuel (n / 10) ((b'0' + n % 10) ∷ rest) in
    if ltb n 10 then (b'0' + n) ∷ rest else more

-- the text of an integer, as `std::to_string` writes it
abbrev pub decimal : ℤ → Text
decimal (pos n) = digits_of (suc n) n []
decimal (negsuc n) = b'-' ∷ digits_of (suc (suc n)) (suc n) []

abbrev pub is_int32 : ℤ → Bool
is_int32 (pos n) = leb n 2147483647
is_int32 (negsuc n) = leb n 2147483647

digits-front :
    (d m acc : ℕ) (rest : Text)
    → d < 10
    → 10 * acc + d ≡ m
    → digits ((b'0' + d) ∷ rest) acc ≡ digits rest m
digits-front d m acc rest h e =
    let yes_digit : is_digit (48 + d) ≡ true = ground arith in
    let value : 10 * acc + (48 + d - 48) ≡ m = omega (arith, e) in
    rw (digits, yes_digit, value) refl

digits-digits_of :
    (fuel n : ℕ) (rest : Text) → n < fuel → digits (digits_of fuel n rest) 0 ≡ digits rest n
digits-digits_of zero n rest h = absurd (omega arith)
digits-digits_of (suc fuel) n rest h = elim (Bool-cases (ltb n 10)) [
  | inl e ↦ rw (e, digits_of) (digits-front n n 0 rest (ground (arith, e)) (omega arith))
  | inr e ↦
      rw (e, digits_of)
        (digits-digits_of fuel (n / 10) ((b'0' + n % 10) ∷ rest) (ground (arith, e))
          ∙ digits-front (n % 10) n (n / 10) rest (omega arith) (omega arith))
]

-- a digit in front is no space and no sign
signed-front :
    (d : ℕ) (rest : Text)
    → d < 10
    → signed (skip_spaces ((b'0' + d) ∷ rest))
      ≡ pos (bounded 9223372036854775807 (digits ((b'0' + d) ∷ rest) 0))
signed-front d rest h =
    let no_space : is_space (48 + d) ≡ false = ground arith in
    let no_minus : (48 + d == 45) ≡ false = ground arith in
    let no_plus : (48 + d == 43) ≡ false = ground arith in rw (no_space, no_minus, no_plus) refl

signed-digits_of :
    (fuel n : ℕ) (rest : Text)
    → n < fuel
    → signed (skip_spaces (digits_of fuel n rest))
      ≡ pos (bounded 9223372036854775807 (digits (digits_of fuel n rest) 0))
signed-digits_of zero n rest h = absurd (omega arith)
signed-digits_of (suc fuel) n rest h = elim (Bool-cases (ltb n 10)) [
  | inl e ↦ rw (e, digits_of) (signed-front n rest (ground (arith, e)))
  | inr e ↦
      rw (e, digits_of)
        (signed-digits_of fuel (n / 10) ((b'0' + n % 10) ∷ rest) (ground (arith, e)))
]

strtol-decimal : (n : ℤ) → is_int32 n ≡ true → strtol (decimal n) ≡ n
unfolding strtol
strtol-decimal (pos n) h =
    signed-digits_of (suc n) n [] (omega arith)
    ∙ rw (digits-digits_of (suc n) n [] (omega arith)) (ap pos (ground (arith, h)))
strtol-decimal (negsuc n) h =
    rw (digits-digits_of (suc (suc n)) (suc n) [] (omega arith)) (ground (arith, h))

to_int32-same : (n : ℤ) → is_int32 n ≡ true → to_int32 n ≡ n
unfolding to_int32
to_int32-same (pos n) h = ground (arith, h)
to_int32-same (negsuc n) h = ground (arith, h)

-- Where the environment variable with the prefix QSF_ and the flag's name is set to the decimal
-- text of a number that an `int32_t` holds, a minus sign in front if it is negative, the flag that
-- QSF_DEFINE_int32 defines has that number, whatever its default. A flag with another name, of any
-- type, is the same as before.
pub qsf_define_int32-decimal :
    (env : Environment) (name : Text) (flags : Flags) (dflt n : ℤ) (t : ShortType) (name' : Text)
    → is_int32 n ≡ true
    → env (qsf_name name) ≡ some (decimal n)
    → same_text name name' ≡ false
    → let defined_flags = qsf_define_int32 env name dflt flags in
      (declare_variable type_i name defined_flags ≡ some (int_value n))
      × (declare_variable t name' defined_flags ≡ declare_variable t name' flags)
unfolding qsf_define_int32 define_int32
qsf_define_int32-decimal env name flags dflt n t name' fits set other = (
  rw
      (
        defined env name flags type_i (int_value (to_int32 (env_to_int env (qsf_name name) dflt))),
        env_to_int,
        set,
        strtol-decimal n fits,
        to_int32-same n fits,
      )
      refl,
  kept env name flags type_i t name' _ (ground (arith, other)),
)

pub qsf_define_string_set :
    (env : Environment) (name : Text) (flags : Flags) (dflt value : Text)
    → env (qsf_name name) ≡ some value
    → declare_variable type_s name (qsf_define_string env name dflt flags)
      ≡ some (string_value value)
unfolding qsf_define_string define_string
qsf_define_string_set env name flags dflt value set =
    rw
      (
        defined env name flags type_s (string_value (env_to_string env (qsf_name name) dflt)),
        env_to_string,
        set,
      )
      refl

flag_true : (b : Bool) → (some (bool_value b) ≡ some (bool_value true)) ↔ (b ≡ true)
flag_true true = (λ e. refl, λ e. refl)
flag_true false = (λ e. ground (arith, e), λ e. ground (arith, e))

-- Where the environment variable with the prefix QSF_ and the flag's name is set to a text without
-- a NUL in front, the flag that QSF_DEFINE_bool defines is true if and only if the text is empty or
-- its first character is t, T, y, Y or 1.
pub qsf_define_bool_iff :
    (env : Environment) (name : Text) (flags : Flags) (dflt : Bool) (value : Text)
    → env (qsf_name name) ≡ some value
    → (value ≡ []) ⊎ (first_char value ≢ 0)
    → (declare_variable type_b name (qsf_define_bool env name dflt flags) ≡ some (bool_value true))
      ↔ IsYes value
unfolding qsf_define_bool define_bool
qsf_define_bool_iff env name flags dflt value set proper =
    let (to, from) = env_to_bool_iff env (qsf_name name) dflt value set proper in
    let (out, back) = flag_true (env_to_bool env (qsf_name name) dflt) in
    rw (defined env name flags type_b (bool_value (env_to_bool env (qsf_name name) dflt)))
      ((λ e. to (out e)), λ y. back (from y))
