-- ===== src/WriteBuffer.antt =====
-- src/oracledb/impl/thin/packet.pyx: class WriteBuffer, which sends a request in packets.
-- `sent` are the packets that were given to `self._transport.write_packet`, in their order. A header
-- is written by the methods of the plain class Buffer, since a packet is longer than its header.
pub mod Header
pub mod Payload
pub mod Transfer
use python_oracledb.Prelude.{
  ℕ, zero, suc, ◌+◌, ◌-◌, ◌^◌, ◌%◌, min, Bool, true, false, not, ◌&&◌, List, [], ◌∷◌, ◌++◌, length,
  take, drop, ltb, ◌==◌, if◌then◌else◌,
}
use python_oracledb.Bytes.{msb}
use python_oracledb.Errors.{Result, ok, err, stuck, ◌>>=◌}
use python_oracledb.Buffer.{
  Buffer, plain, M, ◌>>◌, pure, initialize, skip_to, write_uint8, write_uint16, write_uint32,
}
use python_oracledb.Packet.{tns_packet_type_data}
use python_oracledb.Packet.Control.{packet_header_size}

-- `large_sdu` says that the protocol version has four bytes for the size of a packet.
pub record WriteBuffer : Type 0 where
  pub buffer : Buffer
  pub packet_type : ℕ
  pub packet_flags : ℕ
  pub data_flags : ℕ
  pub large_sdu : Bool
  pub packet_sent : Bool
  pub sent : List (List ℕ)

unfoldable pub write_size : Bool → ℕ → M (Unit {0})
write_size true size = write_uint32 (size % 2 ^ 32) msb
write_size false size = do write_uint16 (size % 2 ^ 16) msb; write_uint16 0 msb

unfoldable pub write_data_flags : ℕ → ℕ → M (Unit {0})
write_data_flags packet_type flags =
    if packet_type == tns_packet_type_data then write_uint16 flags msb else pure tt

unfoldable pub header_fields : ℕ → WriteBuffer → M (Unit {0})
header_fields size b = do
  write_size b.large_sdu size
  write_uint8 b.packet_type
  write_uint8 b.packet_flags
  write_uint16 0 msb
  write_data_flags b.packet_type b.data_flags

unfoldable pub write_header : ℕ → WriteBuffer → M (Unit {0})
unfolding header_fields skip_to
write_header size b = do skip_to 0; header_fields size b

-- Where the next packet is written from.
abbrev pub first_position : Bool → ℕ → ℕ
first_position final_packet packet_type =
    if not final_packet && packet_type == tns_packet_type_data
    then packet_header_size + 2
    else packet_header_size

-- The packet with its header is sent, and the buffer is set up for the next one.
unfoldable pub hand_out : Bool → WriteBuffer → Result (Unit {0} × Buffer) → Result WriteBuffer
hand_out final_packet b (ok (_, c)) = ok (record b {
  buffer = record c { position = first_position final_packet b.packet_type };
  packet_sent = true;
  sent = b.sent ++ take b.buffer.position c.contents ∷ [];
})
hand_out final_packet b (err e) = err e
hand_out final_packet b stuck = stuck

unfoldable pub send_packet : Bool → WriteBuffer → Result WriteBuffer
unfolding write_header hand_out
send_packet final_packet b = hand_out final_packet b (write_header b.buffer.position b b.buffer)

-- `write_raw` of class Buffer, whose `_write_more_data` sends the packet here.
unfoldable pub put : List ℕ → WriteBuffer → WriteBuffer
put bytes b = record b {
  buffer = record b.buffer {
    contents =
        take b.buffer.position b.buffer.contents
        ++ (bytes ++ drop (b.buffer.position + length bytes) b.buffer.contents);
    position = b.buffer.position + length bytes;
  };
}

unfoldable pub write_loop : ℕ → List ℕ → WriteBuffer → Result WriteBuffer
unfolding send_packet put
write_loop zero bytes b = stuck
write_loop (suc fuel) bytes b =
    let bytes_to_write = min (b.buffer.max_size - b.buffer.position) (length bytes) in
    let b' = put (take bytes_to_write bytes) b in
    let more = write_loop fuel (drop bytes_to_write bytes) in
    if bytes_to_write == length bytes then ok b' else (send_packet false b' >>= more)

-- The first round may fill a packet with no byte, and every other one takes a byte at least.
unfoldable pub write_raw : List ℕ → WriteBuffer → Result WriteBuffer
unfolding write_loop
write_raw bytes b = write_loop (length bytes + 2) bytes b

unfoldable pub start_request : ℕ → ℕ → ℕ → WriteBuffer → WriteBuffer
start_request packet_type packet_flags data_flags b =
    let is_data = packet_type == tns_packet_type_data in
    record b {
      packet_sent = false;
      packet_type = packet_type;
      packet_flags = packet_flags;
      data_flags = if is_data then data_flags else b.data_flags;
      buffer = record b.buffer {
        position = if is_data then packet_header_size + 2 else packet_header_size;
      };
    }

unfoldable pub end_request : WriteBuffer → Result WriteBuffer
unfolding send_packet
end_request b = if ltb packet_header_size b.buffer.position then send_packet true b else ok b

unfoldable pub max_payload_bytes : WriteBuffer → ℕ
max_payload_bytes b = b.buffer.max_size - packet_header_size - 2

-- _size_for_sdu.
unfoldable pub size_for_sdu : ℕ → WriteBuffer → WriteBuffer
unfolding initialize
size_for_sdu sdu b = record b { buffer = initialize plain sdu }
