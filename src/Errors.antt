-- ===== src/Errors.antt =====
-- src/oracledb/errors.py: the errors that the modelled code raises, and results that may be errors.
-- `_raise_err` with a code and its arguments is `err` with the constructor of that code's name.
use python_oracledb.Prelude.{ℕ, List}
use python_oracledb.Prelude.Int.{ℤ}

pub data Error : Type 0 where
  unexpected_negative_integer : Error
  integer_too_large : ℕ → ℕ → Error
  unexpected_end_of_data : ℕ → ℤ → Error
  buffer_length_insufficient : ℕ → ℤ → Error
  number_string_of_zero_length : Error
  number_string_too_long : Error
  invalid_number : Error
  number_with_invalid_exponent : Error
  number_with_empty_exponent : Error
  content_invalid_after_number : Error
  oracle_number_no_repr : Error
  integer_overflow : Error
  named_timezone_not_supported : Error
  missing_quote_in_string : Error
  missing_ending_single_quote : Error
  missing_ending_double_quote : Error
  dml_returning_dup_binds : List ℕ → Error
  unexpected_data : ℕ → Error
  vector_version_not_supported : ℕ → Error
  vector_format_not_supported : ℕ → Error
  invalid_connect_descriptor : Error
  attribute_error : Error
  value_error : Error
  pool_no_connection_available : Error
  pool_not_open : Error
  pool_has_busy_connections : Error
  request_failed : Error
  not_connected : Error
  exceeded_idle_time : Error
  unsupported_inband_notification : ℕ → Error
  out_of_packets : Error
  index_error : Error
  key_error : Error

-- `stuck` is no outcome of the program: a loop was given too little fuel.
pub data Result {ℓ} (A : Type ℓ) : Type ℓ where
  stuck : Result A
  err : Error → Result A
  ok : A → Result A

-- A step, and what follows it where it succeeds.
infixl 5 ◌>>=◌
abbrev pub ◌>>=◌ {ℓ μ} : {V : Type ℓ} {W : Type μ} → Result V → (V → Result W) → Result W
stuck >>= next = stuck
err error >>= next = err error
ok value >>= next = next value
