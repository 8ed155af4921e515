-- ===== src/Buffer/Length.antt =====
-- src/oracledb/impl/base/buffer.pyx: bytes behind their length, and the chunked form for long values
-- that only ReadBuffer (src/oracledb/impl/thin/packet.pyx) reads, here within one packet.
use python_oracledb.Prelude.{
  ℕ, zero, suc, ◌%◌, ◌^◌, min, Bool, List, [], ◌∷◌, ◌++◌, length, take, drop, Option, none, some,
  ltb, leb, ◌==◌, ◌||◌, if◌then◌else◌,
}
use python_oracledb.Prelude.Int.{ℤ}
use python_oracledb.Errors.{stuck, integer_too_large}
use python_oracledb.Buffer.{
  M, ◌>>=◌, ◌>>◌, pure, fail, get_raw, write_uint8, write_raw, tns_max_short_length,
  tns_long_length_indicator, tns_null_length_indicator, tns_chunk_size,
}
use python_oracledb.Buffer.Integer.{read_ub1, read_ub4, write_ub4, unpack_int, signed}

-- A chunk of at most TNS_CHUNK_SIZE bytes a round.
unfoldable pub write_chunks : ℕ → List ℕ → M (Unit {0})
write_chunks fuel [] = pure tt
write_chunks zero (x ∷ xs) = λ b. stuck
write_chunks (suc fuel) (x ∷ xs) =
    let chunk_len = min (length (x ∷ xs)) tns_chunk_size in
    do
      write_ub4 chunk_len
      write_raw (take chunk_len (x ∷ xs))
      write_chunks fuel (drop chunk_len (x ∷ xs))

-- A chunk holds a byte at least, so one round for each byte is enough.
unfoldable pub write_raw_bytes_and_length : List ℕ → M (Unit {0})
unfolding write_chunks
write_raw_bytes_and_length bytes =
    if leb (length bytes) tns_max_short_length
    then (do write_uint8 (length bytes); if ltb 0 (length bytes) then write_raw bytes else pure tt)
    else (do write_uint8 tns_long_length_indicator; write_chunks (length bytes) bytes; write_ub4 0)

unfoldable pub write_bytes : List ℕ → M (Unit {0})
write_bytes value = write_raw value

unfoldable pub write_bytes_with_length : List ℕ → M (Unit {0})
unfolding write_raw_bytes_and_length
write_bytes_with_length value = write_raw_bytes_and_length value

-- The method `_read_raw_bytes_and_length` of the buffer's class is the argument; `none` is NULL.
unfoldable pub read_raw_bytes_and_length : (ℕ → M (List ℕ)) → M (Option (List ℕ))
read_raw_bytes_and_length helper = do
  length ← read_ub1
  if length == 0 || length == tns_null_length_indicator
      then pure none
      else (do ptr ← helper length; pure (some ptr))

-- Buffer._read_raw_bytes_and_length.
unfoldable pub base_helper : ℕ → M (List ℕ)
base_helper num_bytes = get_raw num_bytes

-- The loop of ReadBuffer._read_raw_bytes_and_length: the chunks up to one of no bytes.
unfoldable pub read_chunks : ℕ → M (List ℕ)
read_chunks zero = λ b. stuck
read_chunks (suc fuel) = do
  temp_num_bytes ← read_ub4
  let more = read_chunks fuel
  if temp_num_bytes == 0
      then pure []
      else (do ptr ← get_raw temp_num_bytes; rest ← more; pure (ptr ++ rest))

-- ReadBuffer._read_raw_bytes_and_length. Each round takes a byte at least of the packet.
unfoldable pub read_buffer_helper : ℕ → M (List ℕ)
unfolding read_chunks base_helper
read_buffer_helper num_bytes b =
    if num_bytes == tns_long_length_indicator
    then read_chunks (suc b.size) b
    else base_helper num_bytes b

unfoldable pub read_bytes : (ℕ → M (List ℕ)) → M (Option (List ℕ))
unfolding read_raw_bytes_and_length
read_bytes helper = read_raw_bytes_and_length helper

last_byte : List ℕ → ℕ
last_byte [] = 0
last_byte (x ∷ []) = x
last_byte (x ∷ y ∷ ys) = last_byte (y ∷ ys)

unfoldable pub read_bool : (ℕ → M (List ℕ)) → M (Option Bool)
unfolding read_raw_bytes_and_length last_byte
read_bool helper = do
  ptr ← read_raw_bytes_and_length helper
  pure (elim ptr [ none ↦ none | some bytes ↦ some (last_byte bytes == 1) ])

unfoldable pub read_binary_integer : (ℕ → M (List ℕ)) → M (Option ℤ)
unfolding read_raw_bytes_and_length
read_binary_integer helper = do
  ptr ← read_raw_bytes_and_length helper
  elim ptr [
    | none ↦ pure none
    | some bytes ↦
        if ltb 4 (length bytes)
        then fail (integer_too_large (length bytes) 4)
        else pure (some (signed 32 (unpack_int bytes % 2 ^ 32)))
  ]
