-- ===== src/Packet.antt =====
-- src/oracledb/impl/thin/packet.pyx: packets, and class ReadBuffer, which reads a response that arrives
-- in several packets.
-- `incoming` are the packets that `self._transport.read_packet()` returns, one after the other; where
-- there is none left the source waits for the server, and the model is stuck. A method that raises
-- gives up the buffer.
pub mod Control
pub mod Chunks
pub mod Await
pub mod Read
pub mod Stream
pub mod Contiguous
pub mod Split
pub mod Restart
use python_oracledb.Prelude.{
  ℕ, ◌+◌, ◌-◌, bit_and, Bool, true, false, not, ◌&&◌, ◌||◌, List, [], ◌∷◌, ◌++◌, length, take, drop,
  get_elem?, get_or, Option, none, some, ltb, leb, ◌==◌, if◌then◌else◌,
}
use python_oracledb.Bytes.{msb, unpack_uint16}
use python_oracledb.Errors.{
  Result, ok, err, stuck, ◌>>=◌, not_connected, exceeded_idle_time, unsupported_inband_notification,
  out_of_packets, index_error,
}
use python_oracledb.Buffer.{Buffer, machine_byte_order, populate_from_bytes}
use python_oracledb.Buffer.Integer.{read_uint16}
use python_oracledb.Packet.Control.{
  packet_header_size, ControlMessage, reset_oob, notification, unknown, read_control,
}
use python_oracledb.Packet.Chunks.{ChunkedBytesBuffer}

abbrev pub tns_packet_type_data : ℕ
tns_packet_type_data = 6

abbrev pub tns_packet_type_control : ℕ
tns_packet_type_control = 14

abbrev pub tns_data_flags_end_of_response : ℕ
tns_data_flags_end_of_response = 0x2000

abbrev pub tns_data_flags_eof : ℕ
tns_data_flags_eof = 0x0040

abbrev pub tns_msg_type_end_of_response : ℕ
tns_msg_type_end_of_response = 29

abbrev pub tns_err_exceeded_idle_time : ℕ
tns_err_exceeded_idle_time = 2396

abbrev pub tns_err_session_shutdown : ℕ
tns_err_session_shutdown = 12572

abbrev pub tns_err_inband_message : ℕ
tns_err_inband_message = 12573

pub record Packet : Type 0 where
  pub packet_size : ℕ
  pub packet_type : ℕ
  pub bytes : List ℕ

unfoldable pub has_end_of_response : Packet → Bool
has_end_of_response p =
    let flags = unpack_uint16 machine_byte_order (take 2 (drop packet_header_size p.bytes)) msb in
    not (bit_and flags tns_data_flags_end_of_response == 0)
    || (p.packet_size == packet_header_size + 3
        && get_or p.bytes (packet_header_size + 2) 0 == tns_msg_type_end_of_response)

-- `split_data` has 255 bytes. `buffer` are the fields of the base class.
pub record ReadBuffer : Type 0 where
  pub buffer : Buffer
  pub saved_packets : List Packet
  pub next_packet_pos : ℕ
  pub saved_packet_pos : ℕ
  pub saved_pos : ℕ
  pub chunked_bytes_buf : ChunkedBytesBuffer
  pub split_data : List ℕ
  pub pending_error_num : ℕ
  pub check_request_boundary : Bool
  pub supports_oob : Bool
  pub has_transport : Bool
  pub is_async : Bool
  pub incoming : List Packet

unfoldable pub obey : ControlMessage → ReadBuffer → ReadBuffer
obey reset_oob b = record b { supports_oob = false }
obey (notification error_num) b = record b { pending_error_num = error_num }
obey unknown b = b

unfoldable pub process_control_packet : Packet → ReadBuffer → Result ReadBuffer
unfolding read_control obey
process_control_packet p b = do
  (control, _) ← read_control (populate_from_bytes p.bytes)
  ok (obey control b)

-- _check_connected. Where it raises for a pending error, the transport is given up with the buffer.
unfoldable pub check_connected : ReadBuffer → Result ReadBuffer
check_connected b =
    let e = b.pending_error_num in
    if not (e == 0 || e == tns_err_session_shutdown || e == tns_err_inband_message)
    then (if e == tns_err_exceeded_idle_time
        then err exceeded_idle_time
        else err (unsupported_inband_notification e))
    else if b.has_transport
    then ok b
    else err not_connected

-- The answer is `notify_waiter`.
unfoldable pub process_packet : Packet → Bool → ReadBuffer → Result (Bool × ReadBuffer)
unfolding process_control_packet check_connected has_end_of_response
process_packet p check b =
    if p.packet_type == tns_packet_type_control
    then (do
      b' ← process_control_packet p b
      b'' ← if check then check_connected b' else ok b'
      ok (false, b''))
    else ok (
      not (p.packet_type == tns_packet_type_data)
          || not b.check_request_boundary
          || has_end_of_response p,
      record b { saved_packets = b.saved_packets ++ p ∷ [] },
    )

-- The flags of a data packet. Where a packet ends before them, the source reads on in the next one;
-- this is not modelled, and the model is stuck.
unfoldable pub read_flags : ReadBuffer → Result ReadBuffer
read_flags b = if ltb b.buffer.size (b.buffer.position + 2) then stuck else (do
  (data_flags, rest) ← read_uint16 msb b.buffer
  let b' = record b { buffer = rest }
  ok (
      if data_flags == tns_data_flags_eof
      then record b' { pending_error_num = tns_err_session_shutdown }
      else b'))

unfoldable pub begin_packet : Option Packet → ReadBuffer → Result ReadBuffer
unfolding read_flags
begin_packet none b = err index_error
begin_packet (some p) b =
    let b' = record b {
      next_packet_pos = b.next_packet_pos + 1;
      buffer = record (populate_from_bytes p.bytes) { position = packet_header_size };
    } in
    if p.packet_type == tns_packet_type_data then read_flags b' else ok b'

unfoldable pub start_packet : ReadBuffer → Result ReadBuffer
unfolding begin_packet
start_packet b = begin_packet (get_elem? b.saved_packets b.next_packet_pos) b

-- The loop of wait_for_packets_sync.
unfoldable pub receive : List Packet → ReadBuffer → Result ReadBuffer
unfolding process_packet start_packet
receive [] b = stuck
receive (p ∷ ps) b =
    let more = receive ps in
    do
      (notify_waiter, b') ← process_packet p true (record b { incoming = ps })
      if notify_waiter then start_packet b' else more b'

unfoldable pub wait_for_packets_sync : ReadBuffer → Result ReadBuffer
unfolding receive start_packet
wait_for_packets_sync b =
    if leb (length b.saved_packets) b.next_packet_pos
    then (if b.is_async then err out_of_packets else receive b.incoming b)
    else start_packet b

unfoldable pub check_control_packet : ReadBuffer → Result ReadBuffer
unfolding process_packet start_packet
check_control_packet b = elim b.incoming [
  | [] ↦ stuck
  | p ∷ ps ↦ (do
    (notify_waiter, b') ← process_packet p false (record b { incoming = ps })
    if notify_waiter then start_packet b' else ok b')
]

unfoldable pub reset_packets : ReadBuffer → ReadBuffer
reset_packets b = record b {
  saved_packets = [];
  next_packet_pos = 0;
  saved_packet_pos = 0;
  saved_pos = 0;
}

-- At least one packet has been started.
unfoldable pub save_point : ReadBuffer → ReadBuffer
save_point b = record b { saved_packet_pos = b.next_packet_pos - 1; saved_pos = b.buffer.position }

unfoldable pub restore_packet : Option Packet → ReadBuffer → Result ReadBuffer
restore_packet none b = err index_error
restore_packet (some p) b =
    ok (record b { buffer = populate_from_bytes p.bytes; next_packet_pos = b.saved_packet_pos + 1 })

unfoldable pub restore_point : ReadBuffer → Result ReadBuffer
unfolding restore_packet
restore_point b = do
  b' ←
      if b.saved_packet_pos == b.next_packet_pos - 1
      then ok b
      else restore_packet (get_elem? b.saved_packets b.saved_packet_pos) b
  ok (record b' { buffer = record b'.buffer { position = b'.saved_pos } })
