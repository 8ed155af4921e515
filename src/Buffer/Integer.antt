-- ===== src/Buffer/Integer.antt =====
-- src/oracledb/impl/base/buffer.pyx: integers in the universal format (a length byte, then the
-- significant bytes), raw bytes behind their length, and the methods that skip them.

pub mod Universal
pub mod Decode
pub mod RoundTrip
use python_oracledb.Prelude.{
  ℕ, ◌+◌, ◌-◌, ◌*◌, ◌%◌, ◌^◌, bit_and, bit_or, Bool, true, false, not, ◌&&◌, List, [], ◌∷◌, length,
  ltb, leb, ◌==◌, if◌then◌else◌,
}
use python_oracledb.Prelude.Int.{ℤ, pos, negsuc, ◌-ℤ◌}
use python_oracledb.Bytes.{ByteOrder, msb, unpack_uint16, unpack_uint32}
use python_oracledb.Errors.{unexpected_negative_integer, integer_too_large}
use python_oracledb.Buffer.{
  M, ◌>>=◌, ◌>>◌, pure, fail, get_raw, write_uint8, write_uint16, write_uint32, write_uint64,
  machine_byte_order,
}

-- The first byte of a list, where the source reads `ptr[0]`.
abbrev pub head_byte : List ℕ → ℕ
head_byte [] = 0
head_byte (b ∷ bs) = b

unfoldable pub read_ub1 : M ℕ
read_ub1 = do ptr ← get_raw 1; pure (head_byte ptr)

-- `signed_allowed` says that `is_negative` is no NULL pointer.
unfoldable pub check_length : Bool → ℕ → ℕ → M (ℕ × Bool)
check_length signed_allowed max_length b =
    let negative = bit_and b 0x80 == 0x80 in
    let length = if negative then bit_and b 0x7f else b in
    if negative && not signed_allowed
    then fail unexpected_negative_integer
    else if ltb max_length length
    then fail (integer_too_large length max_length)
    else pure (length, negative)

unfoldable pub get_int_length_and_sign : Bool → ℕ → M (ℕ × Bool)
unfolding check_length
get_int_length_and_sign signed_allowed max_length = do
  ptr ← get_raw 1
  check_length signed_allowed max_length (head_byte ptr)

-- A C `int` that is converted to `uint64_t`: a set bit 31 is copied to the upper half.
unfoldable pub extend_int : ℕ → ℕ
extend_int x = if ltb x (2 ^ 31) then x else x + (2 ^ 64 - 2 ^ 32)

-- Each byte is promoted to `int` before it is shifted, but for those cast to `uint64_t`.
unfoldable pub unpack_int : List ℕ → ℕ
unfolding extend_int
unpack_int (a ∷ []) = a
unpack_int (a ∷ b ∷ []) = bit_or (a * 2 ^ 8) b
unpack_int (a ∷ b ∷ c ∷ []) = bit_or (bit_or (a * 2 ^ 16) (b * 2 ^ 8)) c
unpack_int (a ∷ b ∷ c ∷ d ∷ []) =
    extend_int (bit_or (bit_or (bit_or (a * 2 ^ 24) (b * 2 ^ 16)) (c * 2 ^ 8)) d)
unpack_int (a ∷ b ∷ c ∷ d ∷ e ∷ []) =
    bit_or
      (bit_or (bit_or (bit_or (a * 2 ^ 32) (extend_int (b * 2 ^ 24))) (c * 2 ^ 16)) (d * 2 ^ 8)) e
unpack_int (a ∷ b ∷ c ∷ d ∷ e ∷ f ∷ []) =
    bit_or
      (bit_or
        (bit_or (bit_or (bit_or (a * 2 ^ 40) (b * 2 ^ 32)) (extend_int (c * 2 ^ 24))) (d * 2 ^ 16))
        (e * 2 ^ 8))
      f
unpack_int (a ∷ b ∷ c ∷ d ∷ e ∷ f ∷ g ∷ []) =
    bit_or
      (bit_or
        (bit_or
          (bit_or (bit_or (bit_or (a * 2 ^ 48) (b * 2 ^ 40)) (c * 2 ^ 32))
            (extend_int (d * 2 ^ 24)))
          (e * 2 ^ 16))
        (f * 2 ^ 8))
      g
unpack_int (a ∷ b ∷ c ∷ d ∷ e ∷ f ∷ g ∷ h ∷ []) =
    bit_or
      (bit_or
        (bit_or
          (bit_or (bit_or (bit_or (bit_or (a * 2 ^ 56) (b * 2 ^ 48)) (c * 2 ^ 40)) (d * 2 ^ 32))
            (extend_int (e * 2 ^ 24)))
          (f * 2 ^ 16))
        (g * 2 ^ 8))
      h
unpack_int _ = 0

-- The bytes of an unsigned integer, cut to its width.
read_unsigned : ℕ → ℕ → M ℕ
unfolding get_int_length_and_sign unpack_int
read_unsigned max_length bits = do
  (length, _) ← get_int_length_and_sign false max_length
  if length == 0 then pure 0 else (do ptr ← get_raw length; pure (unpack_int ptr % 2 ^ bits))

unfoldable pub read_ub2 : M ℕ
unfolding read_unsigned
read_ub2 = read_unsigned 2 16

unfoldable pub read_ub4 : M ℕ
unfolding read_unsigned
read_ub4 = read_unsigned 4 32

unfoldable pub read_ub8 : M ℕ
unfolding read_unsigned
read_ub8 = read_unsigned 8 64

-- A two's complement word of `bits` bits, and the word of an integer.
unfoldable pub signed : ℕ → ℕ → ℤ
signed bits w = if ltb w (2 ^ (bits - 1)) then pos w else negsuc (2 ^ bits - w - 1)

unfoldable pub negate_word : ℕ → ℕ → ℕ
negate_word bits w = (2 ^ bits - w) % 2 ^ bits

read_signed : ℕ → ℕ → M ℤ
unfolding get_int_length_and_sign unpack_int signed negate_word
read_signed max_length bits = do
  (length, is_negative) ← get_int_length_and_sign true max_length
  if length == 0 then pure (pos 0) else (do
    ptr ← get_raw length
    let value = unpack_int ptr % 2 ^ bits
    pure (signed bits (if is_negative then negate_word bits value else value)))

unfoldable pub read_sb2 : M ℤ
unfolding read_signed
read_sb2 = read_signed 2 16

unfoldable pub read_sb4 : M ℤ
unfolding read_signed
read_sb4 = read_signed 4 32

unfoldable pub read_sb8 : M ℤ
unfolding read_signed
read_sb8 = read_signed 8 64

unfoldable pub read_sb1 : M ℤ
unfolding signed
read_sb1 = do ptr ← get_raw 1; pure (signed 8 (head_byte ptr))

unfoldable pub read_uint16 : ByteOrder → M ℕ
read_uint16 order = do ptr ← get_raw 2; pure (unpack_uint16 machine_byte_order ptr order)

unfoldable pub read_uint32 : ByteOrder → M ℕ
read_uint32 order = do ptr ← get_raw 4; pure (unpack_uint32 machine_byte_order ptr order)

unfoldable pub read_int32 : ByteOrder → M ℤ
unfolding signed
read_int32 order = do ptr ← get_raw 4; pure (signed 32 (unpack_uint32 machine_byte_order ptr order))

unfoldable pub write_ub2 : ℕ → M (Unit {0})
write_ub2 value =
    if value == 0
    then write_uint8 0
    else if leb value 0xff
    then (do write_uint8 1; write_uint8 value)
    else (do write_uint8 2; write_uint16 value msb)

unfoldable pub write_ub4 : ℕ → M (Unit {0})
write_ub4 value =
    if value == 0
    then write_uint8 0
    else if leb value 0xff
    then (do write_uint8 1; write_uint8 value)
    else if leb value 0xffff
    then (do write_uint8 2; write_uint16 value msb)
    else (do write_uint8 4; write_uint32 value msb)

unfoldable pub write_ub8 : ℕ → M (Unit {0})
write_ub8 value =
    if value == 0
    then write_uint8 0
    else if leb value 0xff
    then (do write_uint8 1; write_uint8 value)
    else if leb value 0xffff
    then (do write_uint8 2; write_uint16 value msb)
    else if leb value 0xffff_ffff
    then (do write_uint8 4; write_uint32 value msb)
    else (do write_uint8 8; write_uint64 value msb)
