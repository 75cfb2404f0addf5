-- ===== src/Config.antt =====
-- `src/config/config.h` and `src/config/config.cpp`: the settings from the environment. An unset
-- variable is `none`.
pub mod Reading
pub mod Resolved
mod Examples
use sql_proxy_service.Prelude.{
  ℕ, ◌+◌, ◌-◌, ◌*◌, ◌%◌, ◌^◌, Bool, true, false, not, ◌&&◌, Option, none, some, [], ◌∷◌, ◌++◌, ltb,
  leb, ◌==◌, if◌then◌else◌, is_empty, Bytes, codes,
}
use sql_proxy_service.Prelude.Int.{ℤ, pos, negsuc, negated}

pub data PortSource : Type 0 where
  default environment : PortSource

pub record PortResolution : Type 0 where
  pub valid : Bool
  pub port : ℕ
  pub source : PortSource
  pub error : Bytes

abbrev pub is_digit : ℕ → Bool
is_digit c = leb b'0' c && leb c b'9'

-- The number that follows in decimal digits up to the end of the text.
unfoldable pub digits_value : ℕ → Bytes → Option ℕ
digits_value acc [] = some acc
digits_value acc (c ∷ s) =
    let rest = digits_value (10 * acc + (c - b'0')) s in if is_digit c then rest else none

abbrev pub some_digits : Bytes → Option ℕ
some_digits [] = none
some_digits (c ∷ s) = digits_value 0 (c ∷ s)

-- `std::from_chars` into an `int`, where it has no error and reads to the end of the text.
unfoldable pub whole_int : Bytes → Option ℤ
whole_int [] = none
whole_int (c ∷ s) =
    if c == b'-'
    then elim (some_digits s) [
      | none ↦ none
      | some n ↦ if leb n (2 ^ 31) then some (negated n) else none
    ]
    else elim (some_digits (c ∷ s)) [
      | none ↦ none
      | some n ↦ if ltb n (2 ^ 31) then some (pos n) else none
    ]

abbrev pub is_between : ℕ → ℕ → ℤ → Bool
is_between low high (pos n) = leb low n && leb n high
is_between low high (negsuc n) = false

abbrev pub magnitude : ℤ → ℕ
magnitude (pos n) = n
magnitude (negsuc n) = n + 1

abbrev pub bad_port : Bytes → PortResolution
bad_port error = record { valid = false; port = 0; source = PortSource.environment; error = error }

abbrev pub not_an_integer : Bytes → Bytes
not_an_integer raw = codes "PORT value '" ++ raw ++ codes "' is not a valid integer"

abbrev pub out_of_range : Bytes → Bytes
out_of_range raw = codes "PORT value '" ++ raw ++ codes "' is out of range (1-65535)"

-- The cast to `uint16_t` stands behind the range test.
unfoldable pub resolve_port : Option Bytes → ℕ → PortResolution
resolve_port none default_port = record {
  valid = true;
  port = default_port;
  source = PortSource.default;
  error = [];
}
resolve_port (some raw) default_port =
    if is_empty raw
    then bad_port (codes "PORT environment variable is set but empty")
    else elim (whole_int raw) [
      | none ↦ bad_port (not_an_integer raw)
      | some parsed ↦
          if not (is_between 1 65535 parsed) then bad_port (out_of_range raw) else record {
            valid = true;
            port = magnitude parsed % 2 ^ 16;
            source = PortSource.environment;
            error = [];
          }
    ]

pub record DatabaseConfig : Type 0 where
  pub connection_string : Bytes
  pub statement_timeout_ms : ℕ

pub record DatabaseConfigResolution : Type 0 where
  pub valid : Bool
  pub config : DatabaseConfig
  pub error : Bytes

abbrev pub default_statement_timeout_ms : ℕ
default_statement_timeout_ms = 5000

abbrev pub max_statement_timeout_ms : ℕ
max_statement_timeout_ms = 600000

abbrev pub database_config : Bytes → ℕ → DatabaseConfig
database_config url timeout = record { connection_string = url; statement_timeout_ms = timeout }

-- `out` with its error: the configuration keeps the default time limit.
abbrev pub bad_config : Bytes → Bytes → DatabaseConfigResolution
bad_config url error = record {
  valid = false;
  config = database_config url default_statement_timeout_ms;
  error = error;
}

abbrev pub good_config : Bytes → ℕ → DatabaseConfigResolution
good_config url timeout = record { valid = true; config = database_config url timeout; error = [] }

-- Behind the test of the URL.
unfoldable pub resolve_timeout : Bytes → Option Bytes → DatabaseConfigResolution
resolve_timeout url none = good_config url default_statement_timeout_ms
resolve_timeout url (some raw) =
    if is_empty raw
    then bad_config url (codes "DB_STATEMENT_TIMEOUT_MS is set but empty")
    else elim (whole_int raw) [
      | none ↦ bad_config url (codes "DB_STATEMENT_TIMEOUT_MS is not a valid integer")
      | some parsed ↦
          if not (is_between 1 max_statement_timeout_ms parsed)
          then bad_config url (codes "DB_STATEMENT_TIMEOUT_MS is out of range (1-600000)")
          else good_config url (magnitude parsed)
    ]

unfoldable pub resolve_database_config : Option Bytes → Option Bytes → DatabaseConfigResolution
resolve_database_config none timeout =
    bad_config [] (codes "DATABASE_URL environment variable is required but not set")
resolve_database_config (some url) timeout =
    if is_empty url
    then bad_config [] (codes "DATABASE_URL environment variable is required but not set")
    else resolve_timeout url timeout
