-- ===== src/Tests/Packets.antt =====
-- The theorems on reads over several packets at concrete packets.
use python_oracledb.Prelude.{
  ℕ, ◌+◌, ◌≡◌, refl, arith, true, false, List, [], ◌∷◌, length, take, replicate,
}
use python_oracledb.Errors.{ok}
use python_oracledb.Buffer.{plain}
use python_oracledb.Packet.{Packet, ReadBuffer, save_point, restore_point}
use python_oracledb.Packet.Read.{get_raw}
use python_oracledb.Packet.Chunks.{
  ChunkedBytesBuffer, append_chunk, Appended, append_chunk-Appended,
}
use python_oracledb.Packet.Await.{Awaits}
use python_oracledb.Packet.Stream.{stream}
use python_oracledb.Packet.Contiguous.{Returns, read_raw_bytes-stream}
use python_oracledb.Packet.Split.{get_raw-two_packets, get_raw-three_packets}
use python_oracledb.Packet.Restart.{Restored, restore_point-save_point}

abbrev data_packet : List ℕ → Packet
data_packet bytes = record {
  packet_size = 10 + length bytes;
  packet_type = 6;
  bytes = 0 ∷ 0 ∷ 0 ∷ 0 ∷ 0 ∷ 0 ∷ 0 ∷ 0 ∷ 0 ∷ 0 ∷ bytes;
}

abbrev current : Packet
current = data_packet (1 ∷ 2 ∷ 3 ∷ [])

abbrev following : List Packet
following = data_packet (4 ∷ 5 ∷ []) ∷ data_packet (6 ∷ 7 ∷ 8 ∷ []) ∷ []

abbrev no_chunks : ChunkedBytesBuffer
no_chunks = record { used = []; spare = [] }

-- Two bytes of the current packet are left.
abbrev reading : ReadBuffer
reading = record {
  buffer = record {
    class = plain;
    contents = current.bytes;
    size = 13;
    max_size = 13;
    position = 11;
  };
  saved_packets = current ∷ [];
  next_packet_pos = 1;
  saved_packet_pos = 0;
  saved_pos = 0;
  chunked_bytes_buf = no_chunks;
  split_data = replicate 255 0;
  pending_error_num = 0;
  check_request_boundary = false;
  supports_oob = true;
  has_transport = true;
  is_async = false;
  incoming = following;
}

reading-Awaits : Awaits reading following
reading-Awaits = record {
  can_read = record { before_end = omega arith; in_memory = omega arith };
  is_sync = refl;
  in_turn = refl;
  saved = omega arith;
  all_data = ((refl, omega arith), ((refl, omega arith), tt));
  coming_packets = refl;
}

read_raw_bytes-stream_example : Returns 5 reading (2 ∷ 3 ∷ 4 ∷ 5 ∷ 6 ∷ []) (7 ∷ 8 ∷ [])
read_raw_bytes-stream_example =
    read_raw_bytes-stream 5 reading following reading-Awaits (omega arith) (omega arith)

get_raw-two_packets_example :
    (d : ReadBuffer) × (get_raw false 3 reading ≡ ok (2 ∷ 3 ∷ 4 ∷ [], d))
    × Awaits d (data_packet (6 ∷ 7 ∷ 8 ∷ []) ∷ [])
    × (stream d (data_packet (6 ∷ 7 ∷ 8 ∷ []) ∷ []) ≡ 5 ∷ 6 ∷ 7 ∷ 8 ∷ [])
get_raw-two_packets_example =
    get_raw-two_packets 3 reading (data_packet (4 ∷ 5 ∷ [])) (data_packet (6 ∷ 7 ∷ 8 ∷ []) ∷ [])
      reading-Awaits (omega arith) (omega arith) (omega arith) (omega arith)

-- The source returns 2, 3, 6, 5 and a byte that was there before, where 2, 3, 4, 5, 6 were sent.
get_raw-three_packets_example :
    (bytes : List ℕ) × (d : ReadBuffer) × (get_raw false 5 reading ≡ ok (bytes, d))
    × (take 3 bytes ≡ 2 ∷ 3 ∷ 6 ∷ [])
get_raw-three_packets_example =
    get_raw-three_packets 5 reading (data_packet (4 ∷ 5 ∷ [])) (data_packet (6 ∷ 7 ∷ 8 ∷ [])) []
      reading-Awaits (omega arith) (omega arith) (omega arith) (omega arith)

abbrev later : ReadBuffer
later = record reading {
  buffer = record reading.buffer {
    contents = (data_packet (4 ∷ 5 ∷ [])).bytes;
    size = 12;
    position = 12;
  };
  saved_packets = current ∷ following;
  next_packet_pos = 2;
  saved_pos = 11;
  incoming = [];
}

restore_point-save_point_example :
    (d : ReadBuffer) × (restore_point later ≡ ok d) × Restored reading later d
unfolding save_point
restore_point-save_point_example =
    restore_point-save_point reading later current (data_packet (4 ∷ 5 ∷ [])) following
      (record { started = omega arith; saved = refl; same_contents = refl; same_size = refl })
      (record { started = omega arith; saved = refl; same_contents = refl; same_size = refl }) refl
      refl refl

append_chunk-Appended_example : Appended (7 ∷ 8 ∷ []) [] (append_chunk (7 ∷ 8 ∷ []) no_chunks).used
append_chunk-Appended_example = append_chunk-Appended (7 ∷ 8 ∷ []) no_chunks
