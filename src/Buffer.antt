-- ===== src/Buffer.antt =====
-- src/oracledb/impl/base/buffer.pyx: class Buffer and its subclass GrowableBuffer.
-- A method takes the buffer and returns the changed one with its result; the buffer is lost when
-- it raises. The pointer that `_get_raw` returns is the list of the bytes that were asked for.
pub mod Room
pub mod Append
pub mod Raw
pub mod Stream
pub mod RoundTrip
pub mod Reserve
pub mod Integer
pub mod Length
pub mod Skip
pub mod Terminated
use python_oracledb.Prelude.{
  ℕ, zero, suc, ◌+◌, ◌-◌, ◌^◌, ◌≤◌, min, bit_and, ◌≡◌, List, [], ◌∷◌, ◌++◌, length, take, drop,
  replicate, ltb, ◌==◌, if◌then◌else◌,
}
use python_oracledb.Prelude.Int.{ℤ, sub_ℕ, pos_part, neg_part}
use python_oracledb.Bytes.{ByteOrder, lsb, pack_uint16, pack_uint32, pack_uint64}
use python_oracledb.Errors.{
  Error, Result, ok, err, stuck, unexpected_end_of_data, buffer_length_insufficient,
}

-- The classes, which differ in `_write_more_data`.
pub data BufferClass : Type 0 where
  plain growable : BufferClass

-- `contents` is the memory behind `_data`: `_max_size` bytes.
pub record Buffer : Type 0 where
  pub class : BufferClass
  pub contents : List ℕ
  pub size : ℕ
  pub max_size : ℕ
  pub position : ℕ

abbrev pub M : Type 0 → Type 0
M A = Buffer → Result (A × Buffer)

infixl 5 ◌>>=◌ ◌>>◌
abbrev pub ◌>>=◌ : {A B : Type 0} → M A → (A → M B) → M B
◌>>=◌ m f b = elim (m b) [ ok (a, b') ↦ f a b' | err e ↦ err e | stuck ↦ stuck ]

abbrev pub ◌>>◌ : {B : Type 0} → M (Unit {0}) → M B → M B
◌>>◌ m k b = elim (m b) [ ok (_, b') ↦ k b' | err e ↦ err e | stuck ↦ stuck ]

-- A first step that succeeds.
pub then_ok :
    {B : Type 0} (m : M (Unit {0})) (k : M B) (b b' : Buffer)
    → m b ≡ ok (tt, b')
    → (do m; k) b ≡ k b'
then_ok m k b b' e = rw (e, ◌>>◌)

pub bind_ok :
    {A B : Type 0} (m : M A) (f : A → M B) (b : Buffer) {a : A} {b' : Buffer}
    → m b ≡ ok (a, b')
    → (m >>= f) b ≡ f a b'
bind_ok m f b e = rw (e, ◌>>=◌)

abbrev pub pure : {A : Type 0} → A → M A
pure a b = ok (a, b)

abbrev pub fail : {A : Type 0} → Error → M A
fail e b = err e

abbrev pub tns_max_short_length : ℕ
tns_max_short_length = 252

abbrev pub tns_long_length_indicator : ℕ
tns_long_length_indicator = 254

abbrev pub tns_null_length_indicator : ℕ
tns_null_length_indicator = 255

abbrev pub tns_chunk_size : ℕ
tns_chunk_size = 32767

-- The packed bytes do not depend on it: see Bytes/Order.
abbrev pub machine_byte_order : ByteOrder
machine_byte_order = lsb

unfoldable pub initialize : BufferClass → ℕ → Buffer
initialize c max_size = record {
  class = c;
  contents = replicate max_size 0;
  size = 0;
  max_size = max_size;
  position = 0;
}

unfoldable pub populate_from_bytes : List ℕ → Buffer
populate_from_bytes bytes = record {
  class = plain;
  contents = bytes;
  size = length bytes;
  max_size = length bytes;
  position = 0;
}

abbrev pub advance : ℕ → Buffer → Buffer
advance n b = record b { position = b.position + n }

unfoldable pub bytes_left : Buffer → ℤ
bytes_left b = sub_ℕ b.size b.position

unfoldable pub get_raw : ℕ → M (List ℕ)
unfolding bytes_left
get_raw num_bytes b =
    if ltb b.size (b.position + num_bytes)
    then err (unexpected_end_of_data num_bytes (bytes_left b))
    else ok (take num_bytes (drop b.position b.contents), advance num_bytes b)

unfoldable pub skip_to : ℕ → M (Unit {0})
skip_to p b = ok (tt, record b { position = p })

-- `memcpy(data, self._data, self._max_size)` into a zeroed bytearray of the new size.
unfoldable pub resize : ℕ → Buffer → Buffer
resize new_max_size b = record b {
  contents = b.contents ++ replicate (new_max_size - b.max_size) 0;
  max_size = new_max_size;
}

-- `(x + TNS_CHUNK_SIZE - 1) & ~(TNS_CHUNK_SIZE - 1)` on 64 bits.
unfoldable pub round_up : ℕ → ℕ
round_up x = bit_and (x + tns_chunk_size - 1) (2 ^ 64 - 1 - (tns_chunk_size - 1))

-- Every caller asks for more than there is, so the difference is that of the source.
abbrev pub num_bytes_needed : ℤ → ℕ → ℕ
num_bytes_needed available wanted = wanted + neg_part available - pos_part available

unfoldable pub grow : ℤ → ℕ → Buffer → Buffer
unfolding resize round_up
grow available wanted b = resize (round_up (b.max_size + num_bytes_needed available wanted)) b

write_more_data_of : BufferClass → ℤ → ℕ → M (Unit {0})
unfolding grow
write_more_data_of plain available wanted b = err (buffer_length_insufficient wanted available)
write_more_data_of growable available wanted b = ok (tt, grow available wanted b)

unfoldable pub write_more_data : ℤ → ℕ → M (Unit {0})
unfolding write_more_data_of
write_more_data available wanted b = write_more_data_of b.class available wanted b

-- `memcpy(self._data + self._pos, bytes, n)` and `self._pos += n`.
unfoldable pub store : List ℕ → M (Unit {0})
store bytes b =
    let kept = take b.position b.contents in
    let rest = drop (b.position + length bytes) b.contents in
    ok (tt, record b { contents = kept ++ (bytes ++ rest); position = b.position + length bytes })

-- The guard at the head of each fixed-width write.
unfoldable pub ensure_room : ℕ → M (Unit {0})
unfolding write_more_data
ensure_room n b =
    if ltb b.max_size (b.position + n)
    then write_more_data (sub_ℕ b.max_size b.position) n b
    else ok (tt, b)

unfoldable pub write_uint8 : ℕ → M (Unit {0})
unfolding ensure_room store
write_uint8 value = do ensure_room 1; store (value ∷ [])

unfoldable pub write_uint16 : ℕ → ByteOrder → M (Unit {0})
unfolding ensure_room store
write_uint16 value order = do ensure_room 2; store (pack_uint16 machine_byte_order value order)

unfoldable pub write_uint32 : ℕ → ByteOrder → M (Unit {0})
unfolding ensure_room store
write_uint32 value order = do ensure_room 4; store (pack_uint32 machine_byte_order value order)

unfoldable pub write_uint64 : ℕ → ByteOrder → M (Unit {0})
unfolding ensure_room store
write_uint64 value order = do ensure_room 8; store (pack_uint64 machine_byte_order value order)

-- The end of a round that copied `n` bytes: the loop is left, or goes on when `_write_more_data`
-- has made room.
after_round : (List ℕ → M (Unit {0})) → ℕ → List ℕ → M (Unit {0})
after_round again n bytes c =
    if n == length bytes
    then ok (tt, c)
    else (do write_more_data (sub_ℕ c.max_size c.position) (length bytes); again (drop n bytes)) c

-- One round copies what fits; to copy no bytes changes nothing.
write_raw_loop : ℕ → List ℕ → M (Unit {0})
unfolding after_round
write_raw_loop zero bytes b = stuck
write_raw_loop (suc fuel) bytes b =
    let bytes_to_write = min (b.max_size - b.position) (length bytes) in
    (do store (take bytes_to_write bytes); after_round (write_raw_loop fuel) bytes_to_write bytes) b

-- A growable buffer has room after one call of `_write_more_data`, and a plain one raises.
unfoldable pub write_raw : List ℕ → M (Unit {0})
unfolding write_raw_loop
write_raw = write_raw_loop 2

unfoldable pub reserve_space : ℕ → M (Unit {0})
unfolding write_more_data
reserve_space n b =
    let b' = advance n b in
    if ltb b'.size b'.position
    then write_more_data (sub_ℕ (b'.size + n) b'.position) n b'
    else ok (tt, b')
