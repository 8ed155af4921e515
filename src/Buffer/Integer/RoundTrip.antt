-- ===== src/Buffer/Integer/RoundTrip.antt =====
-- The universal integers there and back.
use python_oracledb.Prelude.{
  ℕ, ◌+◌, ◌-◌, ◌/◌, ◌%◌, ◌^◌, ◌≤◌, ◌<◌, arith, List, length, ◌==◌, if◌then◌else◌,
}
use python_oracledb.Buffer.Append.{length-be_bytes}
use python_oracledb.Buffer.Integer.{read_ub2, read_ub4, read_ub8, write_ub2, write_ub4, write_ub8}
use python_oracledb.Buffer.Integer.Universal.{
  ub_bytes, write_ub2-Appends, write_ub4-Appends, write_ub8-Appends,
}
use python_oracledb.Buffer.Integer.Decode.{smear, read_ub2-Reads, read_ub4-Reads, read_ub8-Reads}
use python_oracledb.Buffer.RoundTrip.{ReadsBack, round_trip}

pub length-ub_bytes : (v : ℕ) → length (ub_bytes v) ≤ 9
unfolding ub_bytes
length-ub_bytes v = ground (arith, length-be_bytes 2 v, length-be_bytes 4 v, length-be_bytes 8 v)

-- For every 16-bit number `v`, every size of a growable buffer below 2 ^ 62 and all bytes that follow:
-- `write_ub2` succeeds on the new buffer, and `read_ub2` reads `v` from what it wrote, and no further.
pub read_ub2-write_ub2 :
    (v n : ℕ) (rest : List ℕ) → v < 2 ^ 16 → n < 2 ^ 62 → ReadsBack (write_ub2 v) read_ub2 v n rest
read_ub2-write_ub2 v n rest h k =
    round_trip (write_ub2 v) read_ub2 (ub_bytes v) v n rest (omega (arith, length-ub_bytes v)) k
      (write_ub2-Appends v h) (read_ub2-Reads v h)

-- For every 32-bit number `v`, every size of a growable buffer below 2 ^ 62 and all bytes that follow:
-- `write_ub4` succeeds on the new buffer, and `read_ub4` reads `v` from what it wrote, and no further.
pub read_ub4-write_ub4 :
    (v n : ℕ) (rest : List ℕ) → v < 2 ^ 32 → n < 2 ^ 62 → ReadsBack (write_ub4 v) read_ub4 v n rest
read_ub4-write_ub4 v n rest h k =
    round_trip (write_ub4 v) read_ub4 (ub_bytes v) v n rest (omega (arith, length-ub_bytes v)) k
      (write_ub4-Appends v h) (read_ub4-Reads v h)

-- For every 64-bit number `v`, every size of a growable buffer below 2 ^ 62 and all bytes that follow:
-- `write_ub8` succeeds on the new buffer, and `read_ub8` reads `v` back if bit 31 of `v` is clear;
-- if it is set, it reads the low 32 bits of `v` under 32 bits of ones. It reads no further.
pub read_ub8-write_ub8 :
    (v n : ℕ) (rest : List ℕ)
    → v < 2 ^ 64
    → n < 2 ^ 62
    → ReadsBack
        (write_ub8 v)
        read_ub8
        (if v / 2 ^ 31 % 2 == 0 then v else v % 2 ^ 32 + (2 ^ 64 - 2 ^ 32))
        n
        rest
read_ub8-write_ub8 v n rest h k =
    round_trip (write_ub8 v) read_ub8 (ub_bytes v) (smear v) n rest
      (omega (arith, length-ub_bytes v)) k (write_ub8-Appends v h) (read_ub8-Reads v h)
