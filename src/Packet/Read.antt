-- ===== src/Packet/Read.antt =====
-- ReadBuffer._get_raw and ReadBuffer.read_raw_bytes of src/oracledb/impl/thin/packet.pyx.
use python_oracledb.Prelude.{
  ℕ, zero, suc, ◌+◌, ◌-◌, min, Bool, true, false, not, ◌&&◌, List, ◌++◌, length, take, drop, Option,
  ltb, leb, ◌==◌, if◌then◌else◌,
}
use python_oracledb.Prelude.Int.{pos}
use python_oracledb.Errors.{Result, ok, err, stuck, ◌>>=◌, buffer_length_insufficient}
use python_oracledb.Buffer.{advance}
use python_oracledb.Packet.Chunks.{append_chunk, start_chunked_read, end_chunked_read}
use python_oracledb.Packet.{ReadBuffer, wait_for_packets_sync}

-- The bytes from the current position on, and their number.
abbrev pub here : ReadBuffer → List ℕ
here b = drop b.buffer.position b.buffer.contents

abbrev pub num_bytes_left : ReadBuffer → ℕ
num_bytes_left b = b.buffer.size - b.buffer.position

abbrev pub move : ℕ → ReadBuffer → ReadBuffer
move n b = record b { buffer = advance n b.buffer }

-- `memcpy` to the chunked bytes buffer, or to the split buffer at an offset.
unfoldable pub copy : Bool → ℕ → List ℕ → ReadBuffer → ReadBuffer
copy true offset bytes b = record b { chunked_bytes_buf = append_chunk bytes b.chunked_bytes_buf }
copy false offset bytes b = record b {
  split_data = take offset b.split_data ++ (bytes ++ drop (offset + length bytes) b.split_data);
}

-- The loop that acquires packets; every piece for the split buffer goes to the same offset. Each round
-- takes a packet, so the packets there are give rounds enough.
unfoldable pub get_rest : ℕ → Bool → ℕ → ℕ → ReadBuffer → Result ReadBuffer
unfolding wait_for_packets_sync copy
get_rest fuel in_chunked_read offset zero b = ok b
get_rest zero in_chunked_read offset (suc n) b = stuck
get_rest (suc fuel) in_chunked_read offset (suc n) b = do
  b' ← wait_for_packets_sync b
  let num_bytes_split = min (suc n) (num_bytes_left b')
  get_rest fuel in_chunked_read offset (suc n - num_bytes_split)
      (move num_bytes_split (copy in_chunked_read offset (take num_bytes_split (here b')) b'))

abbrev pub packets_left : ReadBuffer → ℕ
packets_left b = length b.saved_packets + length b.incoming

-- The bytes that are asked for are in several packets.
unfoldable pub get_split : Bool → ℕ → ReadBuffer → Result (List ℕ × ReadBuffer)
unfolding get_rest copy
get_split in_chunked_read num_bytes b =
    let left = num_bytes_left b in
    if not in_chunked_read && ltb 255 num_bytes
    then err (buffer_length_insufficient num_bytes (pos 255))
    else (do
      b' ←
          get_rest (packets_left b) in_chunked_read left (num_bytes - left)
            (copy in_chunked_read 0 (take left (here b)) b)
      ok (take num_bytes b'.split_data, b'))

unfoldable pub get_here : Bool → ℕ → ReadBuffer → Result (List ℕ × ReadBuffer)
unfolding get_split copy
get_here in_chunked_read num_bytes b =
    let bytes = take num_bytes (here b) in
    if leb num_bytes (num_bytes_left b)
    then ok (bytes, move num_bytes (if in_chunked_read then copy true 0 bytes b else b))
    else get_split in_chunked_read num_bytes b

-- _get_raw. The bytes are those at the pointer that it returns, which a chunked read ignores.
unfoldable pub get_raw : Bool → ℕ → ReadBuffer → Result (List ℕ × ReadBuffer)
unfolding get_here wait_for_packets_sync
get_raw in_chunked_read num_bytes b = do
  b' ← if b.buffer.position == b.buffer.size then wait_for_packets_sync b else ok b
  get_here in_chunked_read num_bytes b'

-- read_raw_bytes; `none` where no chunk is in use.
unfoldable pub read_raw_bytes : ℕ → ReadBuffer → Result (Option (List ℕ) × ReadBuffer)
unfolding get_raw
read_raw_bytes num_bytes b = do
  (_, b') ←
      get_raw true num_bytes
        (record b { chunked_bytes_buf = start_chunked_read b.chunked_bytes_buf })
  let (bytes, chunks) = end_chunked_read b'.chunked_bytes_buf
  ok (bytes, record b' { chunked_bytes_buf = chunks })
