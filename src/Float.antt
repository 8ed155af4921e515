-- ===== src/Float.antt =====
-- src/oracledb/impl/base/buffer.pyx: BINARY_FLOAT and BINARY_DOUBLE values. A C float or double is
-- the number that its bits spell; nothing is computed with it.
pub mod RoundTrip
use python_oracledb.Prelude.{
  ℕ, ◌-◌, ◌*◌, ◌/◌, ◌%◌, ◌^◌, bit_and, bit_or, Bool, List, [], ◌∷◌, Option, none, some, ◌==◌,
  if◌then◌else◌,
}
use python_oracledb.Buffer.{M, ◌>>=◌, ◌>>◌, pure, write_uint8, write_raw}
use python_oracledb.Buffer.Integer.{extend_int}
use python_oracledb.Buffer.Length.{read_raw_bytes_and_length}

-- `~b` in a `uint8_t`.
abbrev pub invert : ℕ → ℕ
invert b = 255 - b

-- The byte of `all_bits` at bit `k`.
abbrev pub byte_at : ℕ → ℕ → ℕ
byte_at all_bits k = bit_and (all_bits / 2 ^ k) 0xff

-- The canonical form of eight bytes and of four: the sign bit is set on a positive number, and every
-- bit of a negative one is inverted.
unfoldable pub canonical_eight : ℕ → ℕ → ℕ → ℕ → ℕ → ℕ → ℕ → ℕ → List ℕ
canonical_eight b0 b1 b2 b3 b4 b5 b6 b7 =
    if bit_and b0 0x80 == 0
    then bit_or b0 0x80 ∷ b1 ∷ b2 ∷ b3 ∷ b4 ∷ b5 ∷ b6 ∷ b7 ∷ []
    else invert b0
      ∷ invert b1
      ∷ invert b2
      ∷ invert b3
      ∷ invert b4
      ∷ invert b5
      ∷ invert b6
      ∷ invert b7
      ∷ []

unfoldable pub double_bytes : ℕ → List ℕ
unfolding canonical_eight
double_bytes all_bits =
    canonical_eight (byte_at all_bits 56) (byte_at all_bits 48) (byte_at all_bits 40)
      (byte_at all_bits 32) (byte_at all_bits 24) (byte_at all_bits 16) (byte_at all_bits 8)
      (bit_and all_bits 0xff)

unfoldable pub canonical_four : ℕ → ℕ → ℕ → ℕ → List ℕ
canonical_four b0 b1 b2 b3 =
    if bit_and b0 0x80 == 0
    then bit_or b0 0x80 ∷ b1 ∷ b2 ∷ b3 ∷ []
    else invert b0 ∷ invert b1 ∷ invert b2 ∷ invert b3 ∷ []

unfoldable pub float_bytes : ℕ → List ℕ
unfolding canonical_four
float_bytes all_bits =
    canonical_four (byte_at all_bits 24) (byte_at all_bits 16) (byte_at all_bits 8)
      (bit_and all_bits 0xff)

unfoldable pub write_binary_double : ℕ → Bool → M (Unit {0})
write_binary_double value write_length = do
  if write_length then write_uint8 8 else pure tt
  write_raw (double_bytes value)

unfoldable pub write_binary_float : ℕ → Bool → M (Unit {0})
write_binary_float value write_length = do
  if write_length then write_uint8 4 else pure tt
  write_raw (float_bytes value)

-- Four bytes as a C `int`, stored in a `uint64_t`.
abbrev pub int_of_four : ℕ → ℕ → ℕ → ℕ → ℕ
int_of_four a b c d = extend_int (bit_or (bit_or (bit_or (a * 2 ^ 24) (b * 2 ^ 16)) (c * 2 ^ 8)) d)

unfoldable pub double_of_bytes : ℕ → ℕ → ℕ → ℕ → ℕ → ℕ → ℕ → ℕ → ℕ
double_of_bytes b0 b1 b2 b3 b4 b5 b6 b7 =
    let high_bits = int_of_four b0 b1 b2 b3 in
    let low_bits = int_of_four b4 b5 b6 b7 in
    bit_or (high_bits * 2 ^ 32 % 2 ^ 64) (bit_and low_bits 0xffffffff)

unfoldable pub parse_binary_double : List ℕ → ℕ
parse_binary_double (b0 ∷ b1 ∷ b2 ∷ b3 ∷ b4 ∷ b5 ∷ b6 ∷ b7 ∷ _) =
    if bit_and b0 0x80 == 0
    then double_of_bytes (invert b0) (invert b1) (invert b2) (invert b3) (invert b4) (invert b5)
        (invert b6) (invert b7)
    else double_of_bytes (bit_and b0 0x7f) b1 b2 b3 b4 b5 b6 b7
parse_binary_double _ = 0

-- The low 32 bits of the number are copied into the float.
unfoldable pub parse_binary_float : List ℕ → ℕ
parse_binary_float (b0 ∷ b1 ∷ b2 ∷ b3 ∷ _) =
    if bit_and b0 0x80 == 0
    then int_of_four (invert b0) (invert b1) (invert b2) (invert b3) % 2 ^ 32
    else int_of_four (bit_and b0 0x7f) b1 b2 b3 % 2 ^ 32
parse_binary_float _ = 0

unfoldable pub read_binary_double : (ℕ → M (List ℕ)) → M (Option ℕ)
unfolding read_raw_bytes_and_length
read_binary_double helper = do
  ptr ← read_raw_bytes_and_length helper
  pure (elim ptr [ none ↦ none | some bytes ↦ some (parse_binary_double bytes) ])

unfoldable pub read_binary_float : (ℕ → M (List ℕ)) → M (Option ℕ)
unfolding read_raw_bytes_and_length
read_binary_float helper = do
  ptr ← read_raw_bytes_and_length helper
  pure (elim ptr [ none ↦ none | some bytes ↦ some (parse_binary_float bytes) ])
