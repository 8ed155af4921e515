-- ===== src/Vector.antt =====
-- src/oracledb/impl/base/vector.pyx: encoding and decoding of VECTOR values. An array is the list of
-- its elements; a C float or double is the number that its bits spell.
pub mod RoundTrip
pub mod Header
pub mod Elements
pub mod Inverse
use python_oracledb.Prelude.{
  ℕ, zero, suc, ◌+◌, ◌-◌, ◌*◌, ◌/◌, ◌%◌, ◌^◌, bit_and, bit_or, Bool, false, not, ◌||◌, List, [],
  ◌∷◌, map, length, take, ltb, ◌==◌, if◌then◌else◌,
}
use python_oracledb.Prelude.Int.{ℤ, pos, negsuc}
use python_oracledb.Bytes.{msb}
use python_oracledb.Errors.{
  Error, Result, ok, err, stuck, unexpected_data, vector_version_not_supported,
  vector_format_not_supported,
}
use python_oracledb.Buffer.{
  M, ◌>>=◌, ◌>>◌, pure, fail, get_raw, populate_from_bytes, write_uint8, write_uint16, write_uint32,
  write_raw, reserve_space,
}
use python_oracledb.Buffer.Integer.{read_ub1, read_sb1, read_uint16, read_uint32}
use python_oracledb.Buffer.Skip.{skip_raw_bytes}
use python_oracledb.Float.{
  parse_binary_float, parse_binary_double, write_binary_float, write_binary_double,
}

abbrev pub tns_vector_magic_byte : ℕ
tns_vector_magic_byte = 0xdb

abbrev pub tns_vector_version_base : ℕ
tns_vector_version_base = 0

abbrev pub tns_vector_version_with_binary : ℕ
tns_vector_version_with_binary = 1

abbrev pub tns_vector_flag_norm : ℕ
tns_vector_flag_norm = 0x0002

abbrev pub tns_vector_flag_norm_reserved : ℕ
tns_vector_flag_norm_reserved = 0x0010

abbrev pub vector_format_float32 : ℕ
vector_format_float32 = 2

abbrev pub vector_format_float64 : ℕ
vector_format_float64 = 3

abbrev pub vector_format_int8 : ℕ
vector_format_int8 = 4

abbrev pub vector_format_binary : ℕ
vector_format_binary = 5

-- The arrays of type code "f", "d", "b" and "B".
pub data Vector : Type 0 where
  float_vector double_vector binary_vector : List ℕ → Vector
  int8_vector : List ℤ → Vector

-- An `int8_t` as its byte.
abbrev pub int8_byte : ℤ → ℕ
int8_byte (pos n) = n % 256
int8_byte (negsuc n) = 255 - n % 256

abbrev pub vector_format : Vector → ℕ
vector_format (float_vector xs) = vector_format_float32
vector_format (double_vector xs) = vector_format_float64
vector_format (int8_vector xs) = vector_format_int8
vector_format (binary_vector xs) = vector_format_binary

abbrev pub vector_version : Vector → ℕ
vector_version (binary_vector xs) = tns_vector_version_with_binary
vector_version _ = tns_vector_version_base

abbrev pub vector_flags : Vector → ℕ
vector_flags (binary_vector xs) = tns_vector_flag_norm_reserved
vector_flags _ = bit_or tns_vector_flag_norm_reserved tns_vector_flag_norm

-- A `uint32_t`.
abbrev pub num_elements : Vector → ℕ
num_elements (float_vector xs) = length xs % 2 ^ 32
num_elements (double_vector xs) = length xs % 2 ^ 32
num_elements (int8_vector xs) = length xs % 2 ^ 32
num_elements (binary_vector xs) = length xs % 2 ^ 32 * 8 % 2 ^ 32

unfoldable pub write_floats : List ℕ → M (Unit {0})
unfolding write_binary_float
write_floats [] = pure tt
write_floats (x ∷ xs) = do write_binary_float x false; write_floats xs

unfoldable pub write_doubles : List ℕ → M (Unit {0})
unfolding write_binary_double
write_doubles [] = pure tt
write_doubles (x ∷ xs) = do write_binary_double x false; write_doubles xs

unfoldable pub write_elements : ℕ → Vector → M (Unit {0})
unfolding write_floats write_doubles write_raw
write_elements n (float_vector xs) = write_floats (take n xs)
write_elements n (double_vector xs) = write_doubles (take n xs)
write_elements n (int8_vector xs) = write_raw (take n (map int8_byte xs))
write_elements n (binary_vector xs) = write_raw (take (n / 8) xs)

unfoldable pub write_vector_header : Vector → M (Unit {0})
unfolding write_uint8 write_uint16 write_uint32
write_vector_header value = do
  write_uint8 tns_vector_magic_byte
  write_uint8 (vector_version value)
  write_uint16 (vector_flags value) msb
  write_uint8 (vector_format value)
  write_uint32 (num_elements value) msb

unfoldable pub encode : Vector → M (Unit {0})
unfolding write_vector_header reserve_space write_elements
encode value = do
  write_vector_header value
  reserve_space 8
  write_elements (num_elements value) value

-- `n` elements, one after the other.
unfoldable pub times : {A : Type 0} → ℕ → M A → M (List A)
times zero m = pure []
times (suc n) m = do x ← m; xs ← times n m; pure (x ∷ xs)

unfoldable pub read_float_element : M ℕ
read_float_element = do ptr ← get_raw 4; pure (parse_binary_float ptr)

unfoldable pub read_double_element : M ℕ
read_double_element = do ptr ← get_raw 8; pure (parse_binary_double ptr)

unfoldable pub read_elements : ℕ → ℕ → M Vector
unfolding times read_float_element read_double_element read_sb1 read_ub1
read_elements format n =
    if format == vector_format_float32
    then (do xs ← times n read_float_element; pure (float_vector xs))
    else if format == vector_format_float64
    then (do xs ← times n read_double_element; pure (double_vector xs))
    else if format == vector_format_int8
    then (do xs ← times n read_sb1; pure (int8_vector xs))
    else (do xs ← times (n / 8) read_ub1; pure (binary_vector xs))

abbrev pub is_vector_format : ℕ → Bool
is_vector_format format =
    format == vector_format_float32
    || format == vector_format_float64
    || format == vector_format_int8
    || format == vector_format_binary

unfoldable pub check : Bool → Error → M (Unit {0})
check good e = if good then pure tt else fail e

unfoldable pub has_norm : ℕ → Bool
has_norm flags =
    not (bit_and flags tns_vector_flag_norm_reserved == 0)
    || not (bit_and flags tns_vector_flag_norm == 0)

unfoldable pub decode_buffer : M Vector
unfolding check has_norm read_ub1 read_uint16 read_uint32 skip_raw_bytes read_elements
decode_buffer = do
  magic_byte ← read_ub1
  check (magic_byte == tns_vector_magic_byte) (unexpected_data magic_byte)
  version ← read_ub1
  check (not (ltb tns_vector_version_with_binary version)) (vector_version_not_supported version)
  flags ← read_uint16 msb
  format ← read_ub1
  n ← read_uint32 msb
  check (is_vector_format format) (vector_format_not_supported format)
  if has_norm flags then skip_raw_bytes 8 else pure tt
  read_elements format n

abbrev pub value_of {ℓ} : {A B : Type ℓ} → Result (A × B) → Result A
value_of stuck = stuck
value_of (err e) = err e
value_of (ok (a, b)) = ok a

unfoldable pub decode : List ℕ → Result Vector
unfolding decode_buffer
decode data_bytes = value_of (decode_buffer (populate_from_bytes data_bytes))
