-- ===== src/Temporal/RoundTrip.antt =====
-- An interval is parsed back from the bytes that stand for it.
use python_oracledb.Prelude.{
  ℕ, ◌+◌, ◌-◌, ◌%◌, ◌^◌, ◌≤◌, ◌<◌, ◌≡◌, refl, ap, arith, true, false, List, [], ◌∷◌, ◌++◌, take,
  drop, ltb,
}
use python_oracledb.Prelude.Int.{ℤ, pos, negsuc, ◌-ℤ◌, pos_part, neg_part, -ℤ_parts, eq_of_parts}
use python_oracledb.Bytes.{msb, pack_uint32, be_bytes}
use python_oracledb.Bytes.Order.{order_bytes, pack_uint32_lem, unpack_uint32-pack_uint32}
use python_oracledb.Buffer.{machine_byte_order}
use python_oracledb.Buffer.Integer.{signed}
use python_oracledb.Temporal.{
  to_word, duration_mid, read_duration, duration_bytes, interval_ym_bytes, parse_interval_ym,
}

-- A word of 32 bits with its top bit inverted twice is read as the number that it stands for.
signed-to_word :
    (z : ℤ)
    → pos_part z < 2 ^ 31
    → neg_part z ≤ 2 ^ 31
    → signed 32 (((to_word 32 z + 2 ^ 31) % 2 ^ 32 + 2 ^ 31) % 2 ^ 32) ≡ z
unfolding to_word signed
signed-to_word (pos n) h k =
    let w : ((n % 2 ^ 32 + 2 ^ 31) % 2 ^ 32 + 2 ^ 31) % 2 ^ 32 ≡ n = omega arith in
    let t : ltb n (2 ^ 31) ≡ true = ground arith in rw (w, t) refl
signed-to_word (negsuc n) h k =
    let w : ((2 ^ 32 - 1 - n % 2 ^ 32 + 2 ^ 31) % 2 ^ 32 + 2 ^ 31) % 2 ^ 32 ≡ 2 ^ 32 - 1 - n =
      omega arith in
    let t : ltb (2 ^ 32 - 1 - n) (2 ^ 31) ≡ false = ground arith in
    let back : 2 ^ 32 - (2 ^ 32 - 1 - n) - 1 ≡ n = omega arith in rw (w, t, back) refl

take-pack_uint32 :
    (x : ℕ) (rest : List ℕ)
    → x < 2 ^ 32
    → take 4 (pack_uint32 machine_byte_order x msb ++ rest) ≡ pack_uint32 machine_byte_order x msb
unfolding order_bytes be_bytes
take-pack_uint32 x rest h = rw (pack_uint32_lem machine_byte_order msb x h) refl

drop-pack_uint32 :
    (x : ℕ) (rest : List ℕ)
    → x < 2 ^ 32
    → drop 4 (pack_uint32 machine_byte_order x msb ++ rest) ≡ rest
unfolding order_bytes be_bytes
drop-pack_uint32 x rest h = rw (pack_uint32_lem machine_byte_order msb x h) refl

read_duration-duration_bytes :
    (z : ℤ) (rest : List ℕ)
    → pos_part z < 2 ^ 31
    → neg_part z ≤ 2 ^ 31
    → read_duration (duration_bytes z ++ rest) ≡ z
unfolding read_duration duration_bytes
read_duration-duration_bytes z rest h k =
    let x = (to_word 32 z + duration_mid) % 2 ^ 32 in
    let small : x < 2 ^ 32 = omega arith in
    rw (take-pack_uint32 x rest small, unpack_uint32-pack_uint32 machine_byte_order msb x small)
      (signed-to_word z h k)

drop-duration_bytes : (z : ℤ) (rest : List ℕ) → drop 4 (duration_bytes z ++ rest) ≡ rest
unfolding duration_bytes
drop-duration_bytes z rest =
    drop-pack_uint32 ((to_word 32 z + duration_mid) % 2 ^ 32) rest (omega arith)

month_back :
    (m : ℤ) → pos_part m < 196 → neg_part m ≤ 60 → pos ((to_word 8 m + 60) % 256) -ℤ pos 60 ≡ m
unfolding to_word
month_back (pos n) h k =
    let w : (n % 2 ^ 8 + 60) % 256 ≡ n + 60 = omega arith in
    rw w (eq_of_parts _ _ (omega (arith, -ℤ_parts (pos (n + 60)) (pos 60))))
month_back (negsuc n) h k =
    let w : (2 ^ 8 - 1 - n % 2 ^ 8 + 60) % 256 ≡ 59 - n = omega arith in
    rw w (eq_of_parts _ _ (omega (arith, -ℤ_parts (pos (59 - n)) (pos 60))))

-- For every interval whose years are those of a 32-bit integer and whose months lie from -60 to 195:
-- the bytes that write_interval_ym writes are parsed by parse_interval_ym into the same years and
-- months.
pub parse_interval_ym-interval_ym_bytes :
    (years months : ℤ)
    → pos_part years < 2 ^ 31
    → neg_part years ≤ 2 ^ 31
    → pos_part months < 196
    → neg_part months ≤ 60
    → parse_interval_ym (interval_ym_bytes (years, months)) ≡ (years, months)
unfolding parse_interval_ym interval_ym_bytes
parse_interval_ym-interval_ym_bytes years months h k m n =
    let rest = (to_word 8 months + 60) % 256 ∷ [] in
    rw (read_duration-duration_bytes years rest h k, drop-duration_bytes years rest)
      (ap (λ z. (years, z)) (month_back months m n))
