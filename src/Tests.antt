-- ===== src/Tests.antt =====
-- The theorems at concrete values.
mod Pooling
mod Packets
mod Writing
mod Rowids
mod Statements
mod Descriptors
mod Entries
mod Vectors
use python_oracledb.Prelude.{
  ◌<◌, ◌⊎◌, ℕ, ◌+◌, ◌-◌, ◌≤◌, ◌≡◌, refl, true, List, [], ◌∷◌, ◌++◌, length, inl, arith, ◌==◌,
  if◌then◌else◌,
}
use python_oracledb.Prelude.Int.{negsuc, pos}
use python_oracledb.Buffer.Terminated.{
  read_null_terminated_bytes, read_null_terminated_bytes-Reads, read_null_terminated_bytes-end,
}
use python_oracledb.Errors.{ok}
use python_oracledb.Buffer.{Buffer, plain, growable, write_raw, round_up}
use python_oracledb.Buffer.Room.{written, CanTake, round_up_bounds}
use python_oracledb.Buffer.Raw.{write_raw_lem}
use python_oracledb.Buffer.RoundTrip.{ReadsBack}
use python_oracledb.Buffer.Integer.{read_ub4, read_ub8, write_ub4, write_ub8}
use python_oracledb.Buffer.Integer.RoundTrip.{read_ub4-write_ub4, read_ub8-write_ub8}
use python_oracledb.Number.{Decimal}
use python_oracledb.Number.RoundTrip.{IsNormal}
use python_oracledb.Number.Length.{AllBytes, number_bytes-number_length}
use python_oracledb.Number.Wire.{number_bytes, number_length, parse_decimal}
use python_oracledb.Number.Inverse.{parse_decimal-number_bytes}
use python_oracledb.Buffer.{advance, populate_from_bytes}
use python_oracledb.Buffer.Stream.{unread}
use python_oracledb.Errors.{stuck}
use python_oracledb.Buffer.Skip.{skip_raw_bytes_loop}
use python_oracledb.Buffer.Skip.Loop.{skip_raw_bytes_loop-stuck}
use python_oracledb.Temporal.{interval_ym_bytes, parse_interval_ym}
use python_oracledb.Temporal.RoundTrip.{parse_interval_ym-interval_ym_bytes}

-- A growable buffer of two bytes.
abbrev short_buffer : Buffer
short_buffer = record {
  class = growable;
  contents = 0 ∷ 0 ∷ [];
  size = 0;
  max_size = 2;
  position = 0;
}

abbrev plain_buffer : Buffer
plain_buffer = record { class = plain; contents = 0 ∷ 0 ∷ []; size = 2; max_size = 2; position = 1 }

abbrev three_bytes : List ℕ
three_bytes = 7 ∷ 8 ∷ 9 ∷ []

short_buffer-CanTake : CanTake (length three_bytes) short_buffer
short_buffer-CanTake = record {
  sized = refl;
  within = omega arith;
  room = inl (refl, omega arith, omega arith);
}

-- -12.3
abbrev minus_twelve : Decimal
minus_twelve = record { is_negative = true; digits = 1 ∷ 2 ∷ 3 ∷ []; decimal_point_index = pos 2 }

minus_twelve-IsNormal : IsNormal minus_twelve
minus_twelve-IsNormal = record {
  all_digits = (omega arith, (omega arith, (omega arith, tt)));
  no_leading_zero = λ e. omega arith;
  no_trailing_zero = λ e. omega arith;
  not_above = omega arith;
  not_below = omega arith;
}

round_up_bounds_example : (40000 ≤ round_up 40000) × (round_up 40000 ≤ 40000 + 32767)
round_up_bounds_example = round_up_bounds 40000 (omega arith)

write_raw_example :
    (b' : Buffer) × (write_raw three_bytes short_buffer ≡ ok (tt, b'))
    × (written b' ≡ written short_buffer ++ three_bytes)
    × (b'.position ≡ short_buffer.position + length three_bytes)
write_raw_example = write_raw_lem three_bytes short_buffer short_buffer-CanTake

read_ub4-write_ub4_example : ReadsBack (write_ub4 70000) read_ub4 70000 2 three_bytes
read_ub4-write_ub4_example = read_ub4-write_ub4 70000 2 three_bytes (omega arith) (omega arith)

read_ub8-write_ub8_example :
    ReadsBack (write_ub8 0x80000000) read_ub8 0xffffffff80000000 2 three_bytes
read_ub8-write_ub8_example = read_ub8-write_ub8 0x80000000 2 three_bytes (omega arith) (omega arith)

parse_decimal-number_bytes_example :
    (b : ℕ) × (bs : List ℕ) × (number_bytes minus_twelve ≡ b ∷ bs)
    × (parse_decimal b bs ≡ minus_twelve)
parse_decimal-number_bytes_example = parse_decimal-number_bytes minus_twelve minus_twelve-IsNormal

skip_raw_bytes_loop-stuck_example : skip_raw_bytes_loop 9 3 plain_buffer ≡ stuck
skip_raw_bytes_loop-stuck_example =
    skip_raw_bytes_loop-stuck 9 3 plain_buffer (omega arith) (omega arith)

parse_interval_ym-interval_ym_bytes_example :
    parse_interval_ym (interval_ym_bytes (negsuc 1, negsuc 10)) ≡ (negsuc 1, negsuc 10)
parse_interval_ym-interval_ym_bytes_example =
    parse_interval_ym-interval_ym_bytes (negsuc 1) (negsuc 10) (omega arith) (omega arith)
      (omega arith) (omega arith)

-- "ab", a zero, and one byte more.
abbrev terminated : Buffer
terminated = populate_from_bytes (97 ∷ 98 ∷ 0 ∷ 7 ∷ [])

read_null_terminated_bytes-Reads_example :
    read_null_terminated_bytes terminated ≡ ok (97 ∷ 98 ∷ 0 ∷ [], advance 3 terminated)
unfolding populate_from_bytes
read_null_terminated_bytes-Reads_example =
    read_null_terminated_bytes-Reads (97 ∷ 98 ∷ []) refl terminated (7 ∷ [])
      (record { before_end = omega arith; in_memory = omega arith }) refl

abbrev unterminated : Buffer
unterminated = populate_from_bytes (97 ∷ 98 ∷ [])

read_null_terminated_bytes-end_example :
    (bytes : List ℕ) × (read_null_terminated_bytes unterminated
      ≡ ok (bytes, record unterminated { position = unterminated.size + 1 }))
    × (length bytes ≡ length (unread unterminated) + 1)
unfolding populate_from_bytes
read_null_terminated_bytes-end_example =
    read_null_terminated_bytes-end unterminated
      (record { before_end = omega arith; in_memory = omega arith }) refl

number_bytes-number_length_example :
    (length (number_bytes minus_twelve) ≡ number_length minus_twelve)
    × AllBytes (number_bytes minus_twelve)
number_bytes-number_length_example = number_bytes-number_length minus_twelve
