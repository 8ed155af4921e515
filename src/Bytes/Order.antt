-- ===== src/Bytes/Order.antt =====
-- Packed integers do not depend on the machine: they are the plain byte strings of either order.
use python_oracledb.Prelude.{ℕ, ◌+◌, ◌*◌, ◌/◌, ◌%◌, ◌^◌, ◌<◌, ◌≡◌, refl, ◌∙◌, arith, List}
use python_oracledb.Prelude.Bits.{bit_and_byte, bit_and_mask, bit_or_fields}
use python_oracledb.Bytes.Or.{or_four, or_eight}
use python_oracledb.Bytes.{
  ByteOrder, msb, lsb, be_bytes, le_bytes, bswap16, bswap32, bswap64, pack_uint16, pack_uint32,
  pack_uint64, unpack_uint16, unpack_uint32,
}

bswap16_lem : (v : ℕ) → v < 2 ^ 16 → bswap16 v ≡ v % 256 * 2 ^ 8 + v / 2 ^ 8
unfolding bswap16
bswap16_lem v h =
    rw (bit_and_byte 8 (v * 2 ^ 8), bit_and_mask 8 (v / 2 ^ 8))
      (bit_or_fields 8 (v * 2 ^ 8 / 2 ^ 8 % 256) (v / 2 ^ 8 % 2 ^ 8) (omega arith) ∙ omega arith)

bswap32_lem :
    (v : ℕ)
    → v < 2 ^ 32
    → bswap32 v
      ≡ v % 256 * 2 ^ 24 + v / 2 ^ 8 % 256 * 2 ^ 16 + v / 2 ^ 16 % 256 * 2 ^ 8 + v / 2 ^ 24
unfolding bswap32
bswap32_lem v h =
    rw
      (
        bit_and_byte 24 (v * 2 ^ 24 % 2 ^ 32),
        bit_and_byte 16 (v * 2 ^ 8 % 2 ^ 32),
        bit_and_byte 8 (v / 2 ^ 8),
        bit_and_mask 8 (v / 2 ^ 24),
      )
      (or_four (v * 2 ^ 24 % 2 ^ 32 / 2 ^ 24 % 256) (v * 2 ^ 8 % 2 ^ 32 / 2 ^ 16 % 256)
          (v / 2 ^ 8 / 2 ^ 8 % 256) (v / 2 ^ 24 % 2 ^ 8) (omega arith) (omega arith) (omega arith)
        ∙ omega arith)

bswap64_lem :
    (v : ℕ)
    → v < 2 ^ 64
    → bswap64 v
      ≡ v % 256 * 2 ^ 56
        + v / 2 ^ 8 % 256 * 2 ^ 48
        + v / 2 ^ 16 % 256 * 2 ^ 40
        + v / 2 ^ 24 % 256 * 2 ^ 32
        + (v / 2 ^ 32 % 256 * 2 ^ 24
            + v / 2 ^ 40 % 256 * 2 ^ 16
            + v / 2 ^ 48 % 256 * 2 ^ 8
            + v / 2 ^ 56)
unfolding bswap64
bswap64_lem v h =
    rw
      (
        bit_and_byte 56 (v * 2 ^ 56 % 2 ^ 64),
        bit_and_byte 48 (v * 2 ^ 40 % 2 ^ 64),
        bit_and_byte 40 (v * 2 ^ 24 % 2 ^ 64),
        bit_and_byte 32 (v * 2 ^ 8 % 2 ^ 64),
        bit_and_byte 24 (v / 2 ^ 8),
        bit_and_byte 16 (v / 2 ^ 24),
        bit_and_byte 8 (v / 2 ^ 40),
        bit_and_mask 8 (v / 2 ^ 56),
      )
      (or_eight (v * 2 ^ 56 % 2 ^ 64 / 2 ^ 56 % 256) (v * 2 ^ 40 % 2 ^ 64 / 2 ^ 48 % 256)
          (v * 2 ^ 24 % 2 ^ 64 / 2 ^ 40 % 256) (v * 2 ^ 8 % 2 ^ 64 / 2 ^ 32 % 256)
          (v / 2 ^ 8 / 2 ^ 24 % 256) (v / 2 ^ 24 / 2 ^ 16 % 256) (v / 2 ^ 40 / 2 ^ 8 % 256)
          (v / 2 ^ 56 % 2 ^ 8) (omega arith) (omega arith) (omega arith) (omega arith) (omega arith)
          (omega arith) (omega arith)
        ∙ omega arith)

-- Packing writes the big-endian byte string for `msb` and the little-endian one for `lsb`.
unfoldable pub order_bytes : ByteOrder → ℕ → ℕ → List ℕ
unfolding be_bytes le_bytes
order_bytes msb n x = be_bytes n x
order_bytes lsb n x = le_bytes n x

pub pack_uint16_lem :
    (machine order : ByteOrder) (x : ℕ)
    → x < 2 ^ 16
    → pack_uint16 machine x order ≡ order_bytes order 2 x
unfolding pack_uint16 order_bytes
pack_uint16_lem msb msb x h = refl
pack_uint16_lem lsb lsb x h = refl
pack_uint16_lem msb lsb x h = ground (arith, bswap16_lem x h)
pack_uint16_lem lsb msb x h = ground (arith, bswap16_lem x h)

pub pack_uint32_lem :
    (machine order : ByteOrder) (x : ℕ)
    → x < 2 ^ 32
    → pack_uint32 machine x order ≡ order_bytes order 4 x
unfolding pack_uint32 order_bytes
pack_uint32_lem msb msb x h = refl
pack_uint32_lem lsb lsb x h = refl
pack_uint32_lem msb lsb x h = ground (arith, bswap32_lem x h)
pack_uint32_lem lsb msb x h = ground (arith, bswap32_lem x h)

pub pack_uint64_lem :
    (machine order : ByteOrder) (x : ℕ)
    → x < 2 ^ 64
    → pack_uint64 machine x order ≡ order_bytes order 8 x
unfolding pack_uint64 order_bytes
pack_uint64_lem msb msb x h = refl
pack_uint64_lem lsb lsb x h = refl
pack_uint64_lem msb lsb x h = ground (arith, bswap64_lem x h)
pack_uint64_lem lsb msb x h = ground (arith, bswap64_lem x h)

-- A 16-bit integer that is packed in some order and unpacked in the same order is unchanged,
-- whatever the byte order of the machine.
pub unpack_uint16-pack_uint16 :
    (machine order : ByteOrder) (x : ℕ)
    → x < 2 ^ 16
    → unpack_uint16 machine (pack_uint16 machine x order) order ≡ x
unfolding unpack_uint16 pack_uint16
unpack_uint16-pack_uint16 msb msb x h = omega arith
unpack_uint16-pack_uint16 lsb lsb x h = omega arith
unpack_uint16-pack_uint16 msb lsb x h = ground (arith, bswap16_lem x h, bswap16_lem (bswap16 x))
unpack_uint16-pack_uint16 lsb msb x h = ground (arith, bswap16_lem x h, bswap16_lem (bswap16 x))

-- A 32-bit integer that is packed in some order and unpacked in the same order is unchanged,
-- whatever the byte order of the machine.
pub unpack_uint32-pack_uint32 :
    (machine order : ByteOrder) (x : ℕ)
    → x < 2 ^ 32
    → unpack_uint32 machine (pack_uint32 machine x order) order ≡ x
unfolding unpack_uint32 pack_uint32
unpack_uint32-pack_uint32 msb msb x h = omega arith
unpack_uint32-pack_uint32 lsb lsb x h = omega arith
unpack_uint32-pack_uint32 msb lsb x h = ground (arith, bswap32_lem x h, bswap32_lem (bswap32 x))
unpack_uint32-pack_uint32 lsb msb x h = ground (arith, bswap32_lem x h, bswap32_lem (bswap32 x))
