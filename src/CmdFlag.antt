-- ===== src/CmdFlag.antt =====
-- src/CmdFlag.h: flags that are defined with a value from the environment or a default one. The
-- environment is a function from names to values. A definition puts a variable into the namespace of
-- its type; flags of type double are left out.
pub mod Env
use timer_benchmarks.Common.{
  ℕ, ◌+◌, ◌-◌, ◌*◌, ◌%◌, ◌^◌, ◌≡◌, Bool, true, false, ◌&&◌, ◌||◌, List, [], ◌∷◌, ◌++◌, Option, none,
  some, ltb, leb, ◌==◌, if◌then◌else◌, Text, ℤ, pos, negsuc, neg,
}

abbrev pub Environment : Type 0
Environment = Text → Option Text

-- the first character, NUL at the end of a text
abbrev pub first_char : Text → ℕ
first_char [] = 0
first_char (c ∷ s) = c

-- `memchr(s, c, n) != NULL`, with the bytes listed
abbrev pub memchr : List ℕ → ℕ → Bool
memchr [] c = false
memchr (x ∷ xs) c = x == c || memchr xs c

abbrev pub is_space : ℕ → Bool
is_space c = c == b' ' || (leb 9 c && leb c 13)

abbrev pub is_digit : ℕ → Bool
is_digit c = leb b'0' c && leb c b'9'

abbrev pub skip_spaces : Text → Text
skip_spaces [] = []
skip_spaces (c ∷ s) = if is_space c then skip_spaces s else c ∷ s

-- the number that the digits at the front make, after `n`
abbrev pub digits : Text → ℕ → ℕ
digits [] n = n
digits (c ∷ s) n = elim (is_digit c) [ true ↦ digits s (10 * n + (c - b'0')) | false ↦ n ]

abbrev pub bounded : ℕ → ℕ → ℕ
bounded max n = if leb n max then n else max

abbrev pub signed : Text → ℤ
signed [] = pos 0
signed (c ∷ s) =
    if c == b'-'
    then neg (bounded 9223372036854775808 (digits s 0))
    else pos (bounded 9223372036854775807 (digits (if c == b'+' then s else c ∷ s) 0))

-- `strtol(s, NULL, 10)`, which stays within the range of a 64-bit `long`
unfoldable pub strtol : Text → ℤ
strtol s = signed (skip_spaces s)

-- a `long` as an `int32_t`
unfoldable pub to_int32 : ℤ → ℤ
to_int32 (pos n) = let r = n % 2 ^ 32 in if ltb r (2 ^ 31) then pos r else negsuc (2 ^ 32 - 1 - r)
to_int32 (negsuc n) =
    let r = n % 2 ^ 32 in if ltb r (2 ^ 31) then negsuc r else pos (2 ^ 32 - 1 - r)

unfoldable pub env_to_string : Environment → Text → Text → Text
env_to_string env envname dflt = elim (env envname) [ none ↦ dflt | some value ↦ value ]

-- the six bytes of "tTyY1\0"
abbrev pub yes_chars : List ℕ
yes_chars = b't' ∷ b'T' ∷ b'y' ∷ b'Y' ∷ b'1' ∷ 0 ∷ []

unfoldable pub env_to_bool : Environment → Text → Bool → Bool
env_to_bool env envname dflt = elim (env envname) [
  | none ↦ dflt
  | some value ↦ memchr yes_chars (first_char value)
]

unfoldable pub env_to_int : Environment → Text → ℤ → ℤ
unfolding strtol
env_to_int env envname dflt = elim (env envname) [ none ↦ dflt | some value ↦ strtol value ]

-- the namespaces fLB, fLI, fLI64 and fLS
pub data ShortType : Type 0 where
  type_b type_i type_i64 type_s : ShortType

pub data FlagValue : Type 0 where
  bool_value : Bool → FlagValue
  int_value : ℤ → FlagValue
  string_value : Text → FlagValue

abbrev pub Flags : Type 0
Flags = List (ShortType × Text × FlagValue)

abbrev type_number : ShortType → ℕ
type_number type_b = 0
type_number type_i = 1
type_number type_i64 = 2
type_number type_s = 3

abbrev pub same_text : Text → Text → Bool
same_text [] [] = true
same_text [] (d ∷ t) = false
same_text (c ∷ s) [] = false
same_text (c ∷ s) (d ∷ t) = c == d && same_text s t

abbrev pub is_flag : ShortType → Text → ShortType → Text → Bool
is_flag shorttype name shorttype' name' =
    type_number shorttype == type_number shorttype' && same_text name name'

-- what DECLARE_VARIABLE gives access to
unfoldable pub declare_variable : ShortType → Text → Flags → Option FlagValue
declare_variable shorttype name [] = none
declare_variable shorttype name ((t, n, v) ∷ flags) =
    if is_flag t n shorttype name then some v else declare_variable shorttype name flags

unfoldable pub define_variable : ShortType → Text → FlagValue → Flags → Flags
define_variable shorttype name value flags = (shorttype, name, value) ∷ flags

unfoldable pub define_bool : Text → Bool → Flags → Flags
unfolding define_variable
define_bool name val = define_variable type_b name (bool_value val)

unfoldable pub define_int32 : Text → ℤ → Flags → Flags
unfolding define_variable to_int32
define_int32 name val = define_variable type_i name (int_value (to_int32 val))

unfoldable pub define_int64 : Text → ℤ → Flags → Flags
unfolding define_variable
define_int64 name val = define_variable type_i64 name (int_value val)

unfoldable pub define_string : Text → Text → Flags → Flags
unfolding define_variable
define_string name value = define_variable type_s name (string_value value)

-- `"QSF_" #name`
abbrev pub qsf_name : Text → Text
qsf_name name = b'Q' ∷ b'S' ∷ b'F' ∷ b'_' ∷ name

unfoldable pub qsf_define_bool : Environment → Text → Bool → Flags → Flags
unfolding define_bool env_to_bool
qsf_define_bool env name value = define_bool name (env_to_bool env (qsf_name name) value)

unfoldable pub qsf_define_int32 : Environment → Text → ℤ → Flags → Flags
unfolding define_int32 env_to_int
qsf_define_int32 env name value = define_int32 name (env_to_int env (qsf_name name) value)

unfoldable pub qsf_define_string : Environment → Text → Text → Flags → Flags
unfolding define_string env_to_string
qsf_define_string env name value = define_string name (env_to_string env (qsf_name name) value)
