-- ===== src/Tests/Writing.antt =====
-- The theorem on writes over several packets at a concrete buffer.
use python_oracledb.Prelude.{ℕ, ◌≡◌, refl, arith, true, false, List, [], ◌∷◌, map, replicate}
use python_oracledb.Bytes.{pack_uint16, pack_uint32, bswap16, bswap32}
use python_oracledb.Errors.{ok}
use python_oracledb.Buffer.{plain, write_uint8, write_uint16, write_uint32}
use python_oracledb.WriteBuffer.{WriteBuffer, write_size, write_data_flags, write_raw, end_request}
use python_oracledb.Packet.{ReadBuffer}
use python_oracledb.Packet.Await.{Awaits}
use python_oracledb.Packet.Contiguous.{Returns}
use python_oracledb.WriteBuffer.Transfer.{as_packet, read_raw_bytes-write_raw}
use python_oracledb.WriteBuffer.Payload.{IsWriting, Writes, write_raw-payloads}

-- A data packet of at most 14 bytes, four of which are behind its header.
abbrev new_request : WriteBuffer
new_request = record {
  buffer = record {
    class = plain;
    contents = replicate 14 0;
    size = 0;
    max_size = 14;
    position = 10;
  };
  packet_type = 6;
  packet_flags = 0;
  data_flags = 0;
  large_sdu = true;
  packet_sent = false;
  sent = [];
}

new_request-IsWriting : IsWriting new_request
new_request-IsWriting = record {
  is_data = refl;
  is_roomy = record { sized = refl; roomy = omega arith };
  behind_header = omega arith;
  within = omega arith;
  long = tt;
}

write_raw-payloads_example :
    Writes
      (write_raw (1 ∷ 2 ∷ 3 ∷ 4 ∷ 5 ∷ 6 ∷ 7 ∷ 8 ∷ 9 ∷ []) new_request)
      new_request
      (1 ∷ 2 ∷ 3 ∷ 4 ∷ 5 ∷ 6 ∷ 7 ∷ 8 ∷ 9 ∷ [])
write_raw-payloads_example =
    write_raw-payloads (1 ∷ 2 ∷ 3 ∷ 4 ∷ 5 ∷ 6 ∷ 7 ∷ 8 ∷ 9 ∷ []) new_request new_request-IsWriting

abbrev first_packet : List ℕ
first_packet = 0 ∷ 0 ∷ 0 ∷ 14 ∷ 6 ∷ 0 ∷ 0 ∷ 0 ∷ 0 ∷ 0 ∷ 1 ∷ 2 ∷ 3 ∷ 4 ∷ []

abbrev second_packet : List ℕ
second_packet = 0 ∷ 0 ∷ 0 ∷ 14 ∷ 6 ∷ 0 ∷ 0 ∷ 0 ∷ 0 ∷ 0 ∷ 5 ∷ 6 ∷ 7 ∷ 8 ∷ []

abbrev last_packet : List ℕ
last_packet = 0 ∷ 0 ∷ 0 ∷ 11 ∷ 6 ∷ 0 ∷ 0 ∷ 0 ∷ 0 ∷ 0 ∷ 9 ∷ []

abbrev after_write : WriteBuffer
after_write = record new_request {
  buffer = record new_request.buffer {
    contents = 0 ∷ 0 ∷ 0 ∷ 14 ∷ 6 ∷ 0 ∷ 0 ∷ 0 ∷ 0 ∷ 0 ∷ 9 ∷ 6 ∷ 7 ∷ 8 ∷ [];
    position = 11;
  };
  packet_sent = true;
  sent = first_packet ∷ second_packet ∷ [];
}

abbrev after_end : WriteBuffer
after_end = record after_write {
  buffer = record new_request.buffer {
    contents = 0 ∷ 0 ∷ 0 ∷ 11 ∷ 6 ∷ 0 ∷ 0 ∷ 0 ∷ 0 ∷ 0 ∷ 9 ∷ 6 ∷ 7 ∷ 8 ∷ [];
    position = 8;
  };
  sent = first_packet ∷ second_packet ∷ last_packet ∷ [];
}

write_raw_run : write_raw (1 ∷ 2 ∷ 3 ∷ 4 ∷ 5 ∷ 6 ∷ 7 ∷ 8 ∷ 9 ∷ []) new_request ≡ ok after_write
unfolding write_raw write_size write_data_flags write_uint8 write_uint16 write_uint32 pack_uint16
    pack_uint32 bswap16 bswap32
write_raw_run = refl

end_request_run : end_request after_write ≡ ok after_end
unfolding end_request write_size write_data_flags write_uint8 write_uint16 write_uint32 pack_uint16
    pack_uint32 bswap16 bswap32
end_request_run = refl

-- A reader to which the packets come.
abbrev reader : ReadBuffer
reader = record {
  buffer = record { class = plain; contents = []; size = 0; max_size = 0; position = 0 };
  saved_packets = [];
  next_packet_pos = 0;
  saved_packet_pos = 0;
  saved_pos = 0;
  chunked_bytes_buf = record { used = []; spare = [] };
  split_data = replicate 255 0;
  pending_error_num = 0;
  check_request_boundary = false;
  supports_oob = true;
  has_transport = true;
  is_async = false;
  incoming = map as_packet after_end.sent;
}

reader-Awaits : Awaits reader (map as_packet after_end.sent)
reader-Awaits = record {
  can_read = record { before_end = omega arith; in_memory = omega arith };
  is_sync = refl;
  in_turn = refl;
  saved = omega arith;
  all_data = ((refl, omega arith), ((refl, omega arith), ((refl, omega arith), tt)));
  coming_packets = refl;
}

read_raw_bytes-write_raw_example : Returns 9 reader (1 ∷ 2 ∷ 3 ∷ 4 ∷ 5 ∷ 6 ∷ 7 ∷ 8 ∷ 9 ∷ []) []
read_raw_bytes-write_raw_example =
    read_raw_bytes-write_raw (1 ∷ 2 ∷ 3 ∷ 4 ∷ 5 ∷ 6 ∷ 7 ∷ 8 ∷ 9 ∷ []) new_request after_write
      after_end reader new_request-IsWriting refl refl (omega arith) write_raw_run end_request_run
      reader-Awaits refl
