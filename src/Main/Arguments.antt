-- ===== src/Main/Arguments.antt =====
-- `parse_args` of src/main.cpp. `--help` ends the program.
pub mod Render
use keva_db.Base.{
  ℕ, ◌-◌, ◌%◌, Bool, true, false, ◌&&◌, ◌||◌, Option, none, some, List, [], ◌∷◌, ◌==◌, ltb, leb,
  if◌then◌else◌, Bytes, bytes_eq, codes,
}
use keva_db.Base.Decimal.{scan_digits}
use keva_db.Base.Int.{ℤ, pos, negsuc, sub_ℕ}
use keva_db.Core.ServerContext.{ServerConfig, default_config}

-- The text behind the blanks, the sign, and the digits.
abbrev is_space : ℕ → Bool
is_space c = c == b' ' || (leb b'\t' c && leb c b'\r')

unfoldable pub skip_spaces : Bytes → Bytes
skip_spaces [] = []
skip_spaces (c ∷ s) = if is_space c then skip_spaces s else c ∷ s

-- A signed number whose type ends at the given limit; `none` is one that is outside of it.
abbrev positive_below : ℕ → ℕ → Option ℤ
positive_below limit n = if ltb n limit then some (pos n) else none

abbrev negative_from : ℕ → ℕ → Option ℤ
negative_from limit n = if leb n limit then some (sub_ℕ 0 n) else none

unfoldable pub signed_number : ℕ → Bytes → Option ℤ
signed_number limit [] = some (pos 0)
signed_number limit (c ∷ s) =
    if c == b'-'
    then negative_from limit (scan_digits 0 s).0
    else if c == b'+'
    then positive_below limit (scan_digits 0 s).0
    else positive_below limit (scan_digits 0 (c ∷ s)).0

-- `std::atoi` with the limit 2^31 of `int`, and `std::atoll` with the limit 2^63 of `long long`. The
-- language leaves the result undefined for a number outside of the type, which is `none`.
unfoldable pub atoi : ℕ → Bytes → Option ℤ
atoi limit s = signed_number limit (skip_spaces s)

-- A cast to an unsigned type with this modulus.
abbrev pub to_unsigned : ℕ → ℤ → ℕ
to_unsigned modulus (pos n) = n % modulus
to_unsigned modulus (negsuc n) = modulus - 1 - n % modulus

-- An option on the command line.
pub data Flag : Type 0 where
  host_flag port_flag loglevel_flag maxmemory_flag rdb_filename_flag no_rdb_flag help_flag : Flag
  unknown : Flag

unfoldable pub flag_of : Bytes → Flag
flag_of arg =
    if bytes_eq arg (codes "--host") || bytes_eq arg (codes "-h")
    then host_flag
    else if bytes_eq arg (codes "--port") || bytes_eq arg (codes "-p")
    then port_flag
    else if bytes_eq arg (codes "--loglevel")
    then loglevel_flag
    else if bytes_eq arg (codes "--maxmemory")
    then maxmemory_flag
    else if bytes_eq arg (codes "--rdb-filename")
    then rdb_filename_flag
    else if bytes_eq arg (codes "--no-rdb")
    then no_rdb_flag
    else if bytes_eq arg (codes "--help")
    then help_flag
    else unknown

-- What an option with a value does: it sets the configuration, or it takes no value, or the number
-- is one that the language leaves undefined.
pub data Setting : Type 0 where
  sets : ServerConfig → Setting
  takes_none : Setting
  undefined_setting : Setting

unfoldable pub with_number : Option ℤ → (ℤ → ServerConfig) → Setting
with_number (some n) set = sets (set n)
with_number none set = undefined_setting

unfoldable pub with_value : Flag → Bytes → ServerConfig → Setting
with_value host_flag v cfg = sets (record cfg { host = v })
with_value port_flag v cfg =
    with_number (atoi 2147483648 v) (λ n. record cfg { port = to_unsigned 65536 n })
with_value loglevel_flag v cfg = sets (record cfg { loglevel = v })
with_value maxmemory_flag v cfg =
    with_number (atoi 9223372036854775808 v)
      (λ n. record cfg { maxmemory = to_unsigned 18446744073709551616 n })
with_value rdb_filename_flag v cfg = sets (record cfg { rdb_filename = v })
with_value no_rdb_flag v cfg = takes_none
with_value help_flag v cfg = takes_none
with_value unknown v cfg = takes_none

pub data Parsed : Type 0 where
  parsed : ServerConfig → Parsed
  help_shown : Parsed
  undefined_number : Parsed

-- An option that takes no value, before the rest is read. One that would take a value, but has none
-- behind it, is skipped like an unknown one.
unfoldable pub without_value : Flag → (ServerConfig → Parsed) → ServerConfig → Parsed
without_value no_rdb_flag rest cfg = rest (record cfg { rdb_enabled = false })
without_value help_flag rest cfg = help_shown
without_value host_flag rest cfg = rest cfg
without_value port_flag rest cfg = rest cfg
without_value loglevel_flag rest cfg = rest cfg
without_value maxmemory_flag rest cfg = rest cfg
without_value rdb_filename_flag rest cfg = rest cfg
without_value unknown rest cfg = rest cfg

-- The loop over the arguments behind the program's name.
unfoldable pub parse_loop : List Bytes → ServerConfig → Parsed
parse_loop [] cfg = parsed cfg
parse_loop (arg ∷ []) cfg = without_value (flag_of arg) parsed cfg
parse_loop (arg ∷ v ∷ rest) cfg = elim (with_value (flag_of arg) v cfg) [
  | sets cfg' ↦ parse_loop rest cfg'
  | undefined_setting ↦ undefined_number
  | takes_none ↦ without_value (flag_of arg) (parse_loop (v ∷ rest)) cfg
]

unfoldable pub parse_args : List Bytes → Parsed
parse_args args = parse_loop args default_config
