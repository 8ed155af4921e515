-- ===== src/Bytes.antt =====
-- src/oracledb/impl/base/buffer.pyx: byte order, and the packing of fixed-width integers.
-- A byte is a number below 256 and a `char_type *` is the list of the bytes that it points at.
pub mod Or
pub mod Order
use python_oracledb.Prelude.{
  ℕ, zero, suc, ◌+◌, ◌*◌, ◌/◌, ◌%◌, ◌^◌, ◌<◌, bit_and, bit_or, Bool, true, false, List, [], ◌∷◌,
  ◌++◌, if◌then◌else◌,
}

pub data ByteOrder : Type 0 where
  msb lsb : ByteOrder

abbrev pub IsByte : ℕ → Type 0
IsByte b = b < 256

abbrev pub AllBytes : List ℕ → Type 0
AllBytes [] = Unit {0}
AllBytes (b ∷ bs) = IsByte b × AllBytes bs

-- The `n` low bytes of a number, most significant first and least significant first.
unfoldable pub be_bytes : ℕ → ℕ → List ℕ
be_bytes zero x = []
be_bytes (suc n) x = (x / 256 ^ n % 256) ∷ be_bytes n x

unfoldable pub le_bytes : ℕ → ℕ → List ℕ
le_bytes zero x = []
le_bytes (suc n) x = (x % 256) ∷ le_bytes n (x / 256)

unfoldable pub be_value_from : ℕ → List ℕ → ℕ
be_value_from acc [] = acc
be_value_from acc (b ∷ bs) = be_value_from (acc * 256 + b) bs

unfoldable pub be_value : List ℕ → ℕ
unfolding be_value_from
be_value bs = be_value_from 0 bs

unfoldable pub le_value : List ℕ → ℕ
le_value [] = 0
le_value (b ∷ bs) = b + 256 * le_value bs

-- `memcpy(buf, &x, n)` and `memcpy(&x, buf, n)` on a machine of the given byte order.
unfoldable pub store_int : ByteOrder → ℕ → ℕ → List ℕ
unfolding be_bytes le_bytes
store_int msb n x = be_bytes n x
store_int lsb n x = le_bytes n x

unfoldable pub load_int : ByteOrder → List ℕ → ℕ
unfolding be_value le_value
load_int msb bs = be_value bs
load_int lsb bs = le_value bs

abbrev pub same_order : ByteOrder → ByteOrder → Bool
same_order msb msb = true
same_order msb lsb = false
same_order lsb msb = false
same_order lsb lsb = true

-- A `uint16_t` is promoted to `int`, so the left shift does not wrap.
unfoldable pub bswap16 : ℕ → ℕ
bswap16 value = bit_or (bit_and (value * 2 ^ 8) 0xff00) (bit_and (value / 2 ^ 8) 0x00ff)

unfoldable pub bswap32 : ℕ → ℕ
bswap32 value =
    bit_or
      (bit_or
        (bit_or (bit_and (value * 2 ^ 24 % 2 ^ 32) 0xff000000)
          (bit_and (value * 2 ^ 8 % 2 ^ 32) 0x00ff0000))
        (bit_and (value / 2 ^ 8) 0x0000ff00))
      (bit_and (value / 2 ^ 24) 0x000000ff)

abbrev or_high_half : ℕ → ℕ
or_high_half value =
    bit_or
      (bit_or
        (bit_or (bit_and (value * 2 ^ 56 % 2 ^ 64) 0xff00000000000000)
          (bit_and (value * 2 ^ 40 % 2 ^ 64) 0x00ff000000000000))
        (bit_and (value * 2 ^ 24 % 2 ^ 64) 0x0000ff0000000000))
      (bit_and (value * 2 ^ 8 % 2 ^ 64) 0x000000ff00000000)

unfoldable pub bswap64 : ℕ → ℕ
bswap64 value =
    bit_or
      (bit_or
        (bit_or (bit_or (or_high_half value) (bit_and (value / 2 ^ 8) 0x00000000ff000000))
          (bit_and (value / 2 ^ 24) 0x0000000000ff0000))
        (bit_and (value / 2 ^ 40) 0x000000000000ff00))
      (bit_and (value / 2 ^ 56) 0x00000000000000ff)

-- The first argument is `MACHINE_BYTE_ORDER`.
unfoldable pub pack_uint16 : ByteOrder → ℕ → ByteOrder → List ℕ
unfolding store_int
pack_uint16 machine x order =
    store_int machine 2 (if same_order order machine then x else bswap16 x)

unfoldable pub pack_uint32 : ByteOrder → ℕ → ByteOrder → List ℕ
unfolding store_int
pack_uint32 machine x order =
    store_int machine 4 (if same_order order machine then x else bswap32 x)

unfoldable pub pack_uint64 : ByteOrder → ℕ → ByteOrder → List ℕ
unfolding store_int
pack_uint64 machine x order =
    store_int machine 8 (if same_order order machine then x else bswap64 x)

unfoldable pub unpack_uint16 : ByteOrder → List ℕ → ByteOrder → ℕ
unfolding load_int
unpack_uint16 machine buf order =
    let raw_value = load_int machine buf in
    if same_order order machine then raw_value else bswap16 raw_value

unfoldable pub unpack_uint32 : ByteOrder → List ℕ → ByteOrder → ℕ
unfolding load_int
unpack_uint32 machine buf order =
    let raw_value = load_int machine buf in
    if same_order order machine then raw_value else bswap32 raw_value
