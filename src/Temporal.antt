-- ===== src/Temporal.antt =====
-- src/oracledb/impl/base/buffer.pyx: dates and intervals. The constructors of Python's datetime
-- module are arguments; a timedelta and a datetime are known by their fields.
pub mod Date
pub mod RoundTrip
use python_oracledb.Prelude.{
  ℕ, ◌+◌, ◌-◌, ◌*◌, ◌/◌, ◌%◌, ◌^◌, Bool, ◌&&◌, ◌||◌, List, [], ◌∷◌, ◌++◌, length, take, drop,
  Option, none, some, ltb, leb, ◌==◌, if◌then◌else◌,
}
use python_oracledb.Prelude.Int.{ℤ, pos, negsuc, ◌+ℤ◌, ◌-ℤ◌}
use python_oracledb.Bytes.{msb, pack_uint32, unpack_uint32}
use python_oracledb.Buffer.{M, ◌>>=◌, ◌>>◌, pure, write_uint8, write_raw, machine_byte_order}
use python_oracledb.Buffer.Integer.{signed, head_byte}
use python_oracledb.Buffer.Length.{read_raw_bytes_and_length}

abbrev pub duration_mid : ℕ
duration_mid = 0x80000000

abbrev pub duration_offset : ℕ
duration_offset = 60

-- An integer converted to an unsigned type of `bits` bits.
unfoldable pub to_word : ℕ → ℤ → ℕ
to_word bits (pos n) = n % 2 ^ bits
to_word bits (negsuc n) = 2 ^ bits - 1 - n % 2 ^ bits

-- Python's `//` by a positive number.
unfoldable pub floor_div : ℤ → ℕ → ℤ
floor_div (pos n) d = pos (n / d)
floor_div (negsuc n) d = negsuc (n / d)

-- `ptr[i]`.
abbrev pub byte : ℕ → List ℕ → ℕ
byte i bytes = head_byte (drop i bytes)

-- A four-byte integer less or more the middle of its range, stored in an `int32_t` or `uint32_t`.
unfoldable pub read_duration : List ℕ → ℤ
unfolding signed
read_duration bytes =
    signed 32 ((unpack_uint32 machine_byte_order (take 4 bytes) msb + duration_mid) % 2 ^ 32)

unfoldable pub duration_bytes : ℤ → List ℕ
unfolding to_word
duration_bytes value =
    pack_uint32 machine_byte_order ((to_word 32 value + duration_mid) % 2 ^ 32) msb

abbrev pub IntervalYm : Type 0
IntervalYm = ℤ × ℤ

unfoldable pub interval_ym_bytes : IntervalYm → List ℕ
unfolding duration_bytes to_word
interval_ym_bytes (years, months) =
    duration_bytes years ++ ((to_word 8 months + duration_offset) % 256 ∷ [])

unfoldable pub parse_interval_ym : List ℕ → IntervalYm
unfolding read_duration
parse_interval_ym ptr = (read_duration ptr, pos (byte 4 ptr) -ℤ pos duration_offset)

unfoldable pub write_interval_ym : IntervalYm → Bool → M (Unit {0})
unfolding interval_ym_bytes
write_interval_ym value write_length = do
  if write_length then write_uint8 5 else pure tt
  write_raw (interval_ym_bytes value)

-- The fields that Python keeps of a timedelta: seconds below a day, microseconds below a second.
pub record Timedelta : Type 0 where
  pub days : ℤ
  pub seconds : ℕ
  pub microseconds : ℕ

unfoldable pub interval_ds_bytes : Timedelta → List ℕ
unfolding duration_bytes
interval_ds_bytes value =
    duration_bytes value.days
    ++ ((value.seconds / 3600 + duration_offset) % 256
        ∷ (value.seconds % 3600 / 60 + duration_offset) % 256
        ∷ (value.seconds % 3600 % 60 + duration_offset) % 256
        ∷ duration_bytes (pos (value.microseconds * 1000)))

unfoldable pub write_interval_ds : Timedelta → Bool → M (Unit {0})
unfolding interval_ds_bytes
write_interval_ds value write_length = do
  if write_length then write_uint8 11 else pure tt
  write_raw (interval_ds_bytes value)

-- Hours, minutes and seconds, with their offsets taken off together.
unfoldable pub total_seconds : ℕ → ℕ → ℕ → ℤ
total_seconds hours minutes seconds =
    pos (hours * 60 * 60 + minutes * 60 + seconds)
    -ℤ pos (duration_offset * 60 * 60 + duration_offset * 60 + duration_offset)

module _ {A : Type 0} (timedelta_new : ℤ → ℤ → ℤ → A) where
  unfoldable pub parse_interval_ds : List ℕ → A
  unfolding read_duration floor_div total_seconds
  parse_interval_ds ptr =
      timedelta_new (read_duration ptr) (total_seconds (byte 4 ptr) (byte 5 ptr) (byte 6 ptr))
        (floor_div (read_duration (drop 7 ptr)) 1000)

  unfoldable pub read_interval_ds : (ℕ → M (List ℕ)) → M (Option A)
  unfolding read_raw_bytes_and_length
  read_interval_ds helper = do
    ptr ← read_raw_bytes_and_length helper
    pure (elim ptr [ none ↦ none | some bytes ↦ some (parse_interval_ds bytes) ])

unfoldable pub read_interval_ym : (ℕ → M (List ℕ)) → M (Option IntervalYm)
unfolding read_raw_bytes_and_length
read_interval_ym helper = do
  ptr ← read_raw_bytes_and_length helper
  pure (elim ptr [ none ↦ none | some bytes ↦ some (parse_interval_ym bytes) ])

pub record Datetime : Type 0 where
  pub year : ℕ
  pub month : ℕ
  pub day : ℕ
  pub hour : ℕ
  pub minute : ℕ
  pub second : ℕ
  pub microsecond : ℕ

-- The length that is written: no fraction where it is zero and no time zone is asked for.
unfoldable pub date_length : Datetime → ℕ → ℕ
date_length value length =
    if ltb 7 length && value.microsecond * 1000 % 2 ^ 32 == 0 && leb length 11 then 7 else length

-- The bytes of the buffer up to the length written, which is at most 13.
unfoldable pub date_bytes : Datetime → ℕ → List ℕ
unfolding date_length
date_bytes value length = take (date_length value length) (
    (value.year / 100 + 100) % 256
    ∷ (value.year % 100 + 100) % 256
    ∷ value.month % 256
    ∷ value.day % 256
    ∷ (value.hour % 256 + 1) % 256
    ∷ (value.minute % 256 + 1) % 256
    ∷ (value.second % 256 + 1) % 256
    ∷ (pack_uint32 machine_byte_order (value.microsecond * 1000 % 2 ^ 32) msb ++ (20 ∷ 60 ∷ [])))

unfoldable pub write_oracle_date : Datetime → ℕ → Bool → M (Unit {0})
unfolding date_bytes
write_oracle_date value length write_length = do
  if write_length then write_uint8 (date_length value length) else pure tt
  write_raw (date_bytes value length)
