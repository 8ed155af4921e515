-- ===== src/Temporal/Date.antt =====
-- src/oracledb/impl/base/buffer.pyx: Buffer.parse_date and Buffer.read_date.
use python_oracledb.Prelude.{
  ℕ, suc, ◌+◌, ◌*◌, ◌/◌, ◌%◌, bit_and, Bool, not, ◌&&◌, List, drop, Option, none, some, ltb, leb,
  ◌==◌, if◌then◌else◌,
}
use python_oracledb.Prelude.Int.{ℤ, pos, negsuc, ◌-ℤ◌}
use python_oracledb.Bytes.{msb, unpack_uint32}
use python_oracledb.Errors.{named_timezone_not_supported}
use python_oracledb.Buffer.{M, ◌>>=◌, pure, fail, machine_byte_order}
use python_oracledb.Buffer.Integer.{signed}
use python_oracledb.Buffer.Length.{read_raw_bytes_and_length}
use python_oracledb.Prelude.{take, length}
use python_oracledb.Temporal.{byte}

-- The hour and the minute of the zone in an `int8_t`; together in seconds.
unfoldable pub zone_minute : ℕ → ℤ
unfolding signed
zone_minute b = signed 8 ((b + 196) % 256)

unfoldable pub zone_seconds : ℕ → ℤ → ℤ
zone_seconds b (pos m) = pos (b * 3600 + m * 60) -ℤ pos (20 * 3600)
zone_seconds b (negsuc m) = pos (b * 3600) -ℤ pos (20 * 3600 + suc m * 60)

unfoldable pub fraction : List ℕ → ℕ
fraction ptr =
    if leb 11 (length ptr)
    then unpack_uint32 machine_byte_order (take 4 (drop 7 ptr)) msb / 1000
    else 0

abbrev pub has_zone : List ℕ → Bool
has_zone ptr = ltb 11 (length ptr) && not (byte 11 ptr == 0) && not (byte 12 ptr == 0)

-- `datetime_new` and the addition of a timedelta of some seconds raise where the date is invalid:
-- each is a method that leaves the buffer alone.
module _ {D : Type 0} (datetime_new : ℤ → ℕ → ℕ → ℤ → ℤ → ℤ → ℕ → M D)
    (add_seconds : D → ℤ → M D) where
  unfoldable pub add_zone : ℕ → ℕ → D → M D
  unfolding zone_minute zone_seconds
  add_zone hour minute value =
      if bit_and hour 0x80 == 0
      then if hour == 20 && minute == 60
        then pure value
        else add_seconds value (zone_seconds hour (zone_minute minute))
      else fail named_timezone_not_supported

  unfoldable pub parse_date : List ℕ → M D
  unfolding add_zone fraction
  parse_date ptr = do
    value ←
        datetime_new (pos (byte 0 ptr * 100 + byte 1 ptr) -ℤ pos 10100) (byte 2 ptr) (byte 3 ptr)
          (pos (byte 4 ptr) -ℤ pos 1) (pos (byte 5 ptr) -ℤ pos 1) (pos (byte 6 ptr) -ℤ pos 1)
          (fraction ptr)
    if has_zone ptr then add_zone (byte 11 ptr) (byte 12 ptr) value else pure value

  unfoldable pub read_date : (ℕ → M (List ℕ)) → M (Option D)
  unfolding read_raw_bytes_and_length
  read_date helper = do
    ptr ← read_raw_bytes_and_length helper
    elim ptr [ none ↦ pure none | some bytes ↦ (do value ← parse_date bytes; pure (some value)) ]
