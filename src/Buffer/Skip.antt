-- ===== src/Buffer/Skip.antt =====
-- src/oracledb/impl/base/buffer.pyx: the methods of Buffer that skip, and the reads and writes of
-- booleans and of bytes without a length.
pub mod Loop
use python_oracledb.Prelude.{
  ℕ, zero, suc, ◌+◌, ◌-◌, min, Bool, true, false, List, ◌∷◌, ◌==◌, ◌||◌, if◌then◌else◌,
}
use python_oracledb.Prelude.Int.{pos_part}
use python_oracledb.Bytes.{msb}
use python_oracledb.Errors.{ok, stuck}
use python_oracledb.Buffer.{M, ◌>>=◌, ◌>>◌, pure, get_raw, bytes_left, write_uint8, write_uint16}
use python_oracledb.Buffer.Integer.{get_int_length_and_sign}
use python_oracledb.Buffer.Length.{write_bytes}

-- A round takes what is left of the bytes wanted. Where nothing is left a round takes nothing, and
-- no fuel is enough: the loop of the source does not end.
unfoldable pub skip_raw_bytes_loop : ℕ → ℕ → M (Unit {0})
unfolding bytes_left
skip_raw_bytes_loop fuel zero b = ok (tt, b)
skip_raw_bytes_loop zero (suc n) b = stuck
skip_raw_bytes_loop (suc fuel) (suc n) b =
    let this_time = min (suc n) (pos_part (bytes_left b)) in
    (do _ ← get_raw this_time; skip_raw_bytes_loop fuel (suc n - this_time)) b

-- Before the end of the data one round takes all of them, which is what a fuel of 1 is for.
unfoldable pub skip_raw_bytes : ℕ → M (Unit {0})
unfolding skip_raw_bytes_loop
skip_raw_bytes n = skip_raw_bytes_loop 1 n

unfoldable pub skip_int : Bool → ℕ → M (Unit {0})
unfolding get_int_length_and_sign skip_raw_bytes
skip_int signed_allowed max_length = do
  (length, _) ← get_int_length_and_sign signed_allowed max_length
  skip_raw_bytes length

unfoldable pub skip_sb4 : M (Unit {0})
unfolding skip_int
skip_sb4 = skip_int true 4

unfoldable pub skip_ub1 : M (Unit {0})
skip_ub1 = do _ ← get_raw 1; pure tt

unfoldable pub skip_ub2 : M (Unit {0})
unfolding skip_int
skip_ub2 = skip_int false 2

unfoldable pub skip_ub4 : M (Unit {0})
unfolding skip_int
skip_ub4 = skip_int false 4

unfoldable pub skip_ub8 : M (Unit {0})
unfolding skip_int
skip_ub8 = skip_int false 8

unfoldable pub read_raw_bytes : ℕ → M (List ℕ)
read_raw_bytes num_bytes = get_raw num_bytes

unfoldable pub write_bool : Bool → M (Unit {0})
write_bool true = do write_uint8 2; write_uint16 0x0101 msb
write_bool false = write_uint16 0x0100 msb

-- `value.encode()` is the argument `encode`.
unfoldable pub write_str : {S : Type 0} → (S → List ℕ) → S → M (Unit {0})
unfolding write_bytes
write_str encode value = write_bytes (encode value)
