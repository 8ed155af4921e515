-- ===== src/Packet/Await.antt =====
-- ReadBuffer.wait_for_packets_sync of src/oracledb/impl/thin/packet.pyx, where data packets arrive.
use python_oracledb.Prelude.{
  ℕ, zero, suc, ◌+◌, ◌-◌, ◌≤◌, ◌≡◌, refl, ◌∙◌, ap, arith, inl, inr, true, false, List, [], ◌∷◌,
  ◌++◌, length, take, drop, get_elem?, some, ltb, leb, ◌==◌, if◌then◌else◌, Bool-cases,
  length-append, take_all, length-drop, drop-length-append,
}
use python_oracledb.Bytes.{msb, unpack_uint16}
use python_oracledb.Errors.{ok}
use python_oracledb.Buffer.{
  Buffer, machine_byte_order, populate_from_bytes, advance, get_raw, bind_ok, pure,
}
use python_oracledb.Buffer.Integer.{read_uint16}
use python_oracledb.Buffer.Stream.{unread, CanRead}
use python_oracledb.Packet.{
  Packet, ReadBuffer, tns_data_flags_eof, tns_err_session_shutdown, read_flags, begin_packet,
  start_packet, process_packet, receive, wait_for_packets_sync,
}

-- A data packet with its header and its flags, and the bytes behind them.
abbrev pub IsData : Packet → Type 0
IsData p = (p.packet_type ≡ 6) × (10 ≤ length p.bytes)

abbrev pub payload : Packet → List ℕ
payload p = drop 10 p.bytes

abbrev pub AllData : List Packet → Type 0
AllData [] = Unit {0}
AllData (p ∷ ps) = IsData p × AllData ps

abbrev pub payloads : List Packet → List ℕ
payloads [] = []
payloads (p ∷ ps) = payload p ++ payloads ps

-- The packets that are read next, those that were saved first.
abbrev pub coming : ReadBuffer → List Packet
coming b = drop b.next_packet_pos b.saved_packets ++ b.incoming

-- The packet `p` is the current one.
abbrev opened : Packet → ReadBuffer → ReadBuffer
opened p b = record b {
  next_packet_pos = b.next_packet_pos + 1;
  buffer = record (populate_from_bytes p.bytes) { position = 10 };
  pending_error_num =
      if unpack_uint16 machine_byte_order (take 2 (drop 8 p.bytes)) msb == tns_data_flags_eof
      then tns_err_session_shutdown
      else b.pending_error_num;
}

get_raw_lem :
    (n : ℕ) (b : Buffer)
    → ltb b.size (b.position + n) ≡ false
    → get_raw n b ≡ ok (take n (drop b.position b.contents), advance n b)
unfolding get_raw
get_raw_lem n b f = rw f refl

read_uint16_lem :
    (b : Buffer)
    → ltb b.size (b.position + 2) ≡ false
    → read_uint16 msb b
      ≡ ok (unpack_uint16 machine_byte_order (take 2 (drop b.position b.contents)) msb, advance 2 b)
unfolding read_uint16
read_uint16_lem b f =
    bind_ok (get_raw 2) (λ ptr. pure (unpack_uint16 machine_byte_order ptr msb)) b
      (get_raw_lem 2 b f)

read_flags_lem :
    (b : ReadBuffer)
    → ltb b.buffer.size (b.buffer.position + 2) ≡ false
    → read_flags b
      ≡ ok (record b {
        buffer = advance 2 b.buffer;
        pending_error_num =
            if unpack_uint16 machine_byte_order
                (take 2 (drop b.buffer.position b.buffer.contents))
                msb
              == tns_data_flags_eof
            then tns_err_session_shutdown
            else b.pending_error_num;
      })
unfolding read_flags
read_flags_lem b f =
    elim (Bool-cases (
      unpack_uint16 machine_byte_order (take 2 (drop b.buffer.position b.buffer.contents)) msb
      == tns_data_flags_eof)) [
        | inl t ↦ rw (f, read_uint16_lem b.buffer f, t) refl
        | inr e ↦ rw (f, read_uint16_lem b.buffer f, e) refl
      ]

begin_packet_lem :
    (p : Packet) (b : ReadBuffer) → IsData p → begin_packet (some p) b ≡ ok (opened p b)
unfolding begin_packet populate_from_bytes
begin_packet_lem p b (t, l) =
    let b' = record b {
      next_packet_pos = b.next_packet_pos + 1;
      buffer = record (populate_from_bytes p.bytes) { position = 8 };
    } in
    rw t (read_flags_lem b' (ground (arith, l)))

get_elem-drop :
    (n : ℕ) (xs : List Packet) (p : Packet) (ps : List Packet)
    → drop n xs ≡ p ∷ ps
    → (get_elem? xs n ≡ some p) × (drop (suc n) xs ≡ ps)
get_elem-drop zero (x ∷ xs) p ps e = (cc, cc)
get_elem-drop (suc n) (x ∷ xs) p ps e = get_elem-drop n xs p ps e
get_elem-drop zero [] p ps e = cc
get_elem-drop (suc n) [] p ps e = cc

-- A buffer that waits for packets in turn, whose position is in the data that it has.
pub record Awaits (b : ReadBuffer) (ps : List Packet) : Type 0 where
  pub can_read : CanRead b.buffer
  pub is_sync : b.is_async ≡ false
  pub in_turn : b.check_request_boundary ≡ false
  pub saved : b.next_packet_pos ≤ length b.saved_packets
  pub all_data : AllData ps
  pub coming_packets : coming b ≡ ps

-- What waiting leaves: packet `p` is current, and the collected bytes are as before.
pub record Opens (b : ReadBuffer) (p : Packet) (ps : List Packet) : Type 0 where
  pub after : ReadBuffer
  pub waits : wait_for_packets_sync b ≡ ok after
  pub awaits : Awaits after ps
  pub unread_payload : unread after.buffer ≡ payload p
  pub same_chunks : after.chunked_bytes_buf ≡ b.chunked_bytes_buf
  pub same_split : after.split_data ≡ b.split_data

opened-Opens :
    (b : ReadBuffer) (c : ReadBuffer) (p : Packet) (ps : List Packet)
    → wait_for_packets_sync b ≡ begin_packet (some p) c
    → IsData p
    → AllData ps
    → c.is_async ≡ false
    → c.check_request_boundary ≡ false
    → suc c.next_packet_pos ≤ length c.saved_packets
    → drop (suc c.next_packet_pos) c.saved_packets ++ c.incoming ≡ ps
    → c.chunked_bytes_buf ≡ b.chunked_bytes_buf
    → c.split_data ≡ b.split_data
    → Opens b p ps
unfolding populate_from_bytes
opened-Opens b c p ps w d a i t n e h s = record {
  after = opened p c;
  waits = w ∙ begin_packet_lem p c d;
  awaits = record {
    can_read = record { before_end = d.1; in_memory = omega arith };
    is_sync = i;
    in_turn = t;
    saved = omega (arith, n);
    all_data = a;
    coming_packets =
        let one : c.next_packet_pos + 1 ≡ suc c.next_packet_pos = omega arith in rw one e;
  };
  unread_payload =
      take_all (length p.bytes - 10) (drop 10 p.bytes) (omega (arith, length-drop 10 p.bytes));
  same_chunks = h;
  same_split = s;
}

-- A packet that is saved already.
wait_saved :
    (b : ReadBuffer) (p : Packet) (ps rest : List Packet)
    → Awaits b (p ∷ ps)
    → drop b.next_packet_pos b.saved_packets ≡ p ∷ rest
    → rest ++ b.incoming ≡ ps
    → Opens b p ps
unfolding wait_for_packets_sync start_packet
wait_saved b p ps rest w e r =
    let found = get_elem-drop b.next_packet_pos b.saved_packets p rest e in
    let more : suc b.next_packet_pos ≤ length b.saved_packets =
      omega (arith, length-drop b.next_packet_pos b.saved_packets, ap length e) in
    let there : leb (length b.saved_packets) b.next_packet_pos ≡ false = ground (arith, more) in
    opened-Opens b b p ps (rw there (ap (λ o. begin_packet o b) found.0)) w.all_data.0 w.all_data.1
      w.is_sync w.in_turn more (ap (λ xs. xs ++ b.incoming) found.1 ∙ r) refl refl

process_packet_lem :
    (p : Packet) (b : ReadBuffer)
    → IsData p
    → b.check_request_boundary ≡ false
    → process_packet p true b ≡ ok (true, record b { saved_packets = b.saved_packets ++ p ∷ [] })
unfolding process_packet
process_packet_lem p b (t, l) r = ground (arith, t, r)

-- A packet that arrives.
receive_lem :
    (b : ReadBuffer) (p : Packet) (ps : List Packet)
    → IsData p
    → b.check_request_boundary ≡ false
    → receive (p ∷ ps) b
      ≡ start_packet (record b { incoming = ps; saved_packets = b.saved_packets ++ p ∷ [] })
unfolding receive
receive_lem b p ps d r =
    let notified = process_packet_lem p (record b { incoming = ps }) d r in rw notified refl

wait_incoming :
    (b : ReadBuffer) (p : Packet) (ps : List Packet)
    → Awaits b (p ∷ ps)
    → drop b.next_packet_pos b.saved_packets ≡ []
    → b.incoming ≡ p ∷ ps
    → Opens b p ps
unfolding wait_for_packets_sync start_packet
wait_incoming b p ps w e r =
    let c = record b { incoming = ps; saved_packets = b.saved_packets ++ p ∷ [] } in
    let last : b.next_packet_pos ≡ length b.saved_packets =
      omega (arith, length-drop b.next_packet_pos b.saved_packets, ap length e, w.saved) in
    let found =
      get_elem-drop b.next_packet_pos (b.saved_packets ++ p ∷ []) p []
        (drop-length-append b.next_packet_pos b.saved_packets (p ∷ []) last) in
    let there : leb (length b.saved_packets) b.next_packet_pos ≡ true = ground (arith, last) in
    let sync = w.is_sync in
    opened-Opens b c p ps
      (simp (there, sync) refl
        ∙ (ap (λ l. receive l b) r
            ∙ receive_lem b p ps w.all_data.0 w.in_turn
            ∙ ap (λ o. begin_packet o c) found.0))
      w.all_data.0 w.all_data.1 sync w.in_turn
      (omega (arith, last, length-append b.saved_packets (p ∷ []))) (ap (λ xs. xs ++ ps) found.1)
      refl refl

wait_cases :
    (b : ReadBuffer) (p : Packet) (ps saved : List Packet)
    → Awaits b (p ∷ ps)
    → drop b.next_packet_pos b.saved_packets ≡ saved
    → saved ++ b.incoming ≡ p ∷ ps
    → Opens b p ps
wait_cases b p ps [] w e r = wait_incoming b p ps w e r
wait_cases b p ps (x ∷ xs) w e r =
    let same : x ≡ p = cc in
    let rest : xs ++ b.incoming ≡ ps = cc in wait_saved b p ps xs w (rw (← same) e) rest

-- Where data packets come and `p` is the first of them, waiting makes `p` the current one.
pub wait_lem : (b : ReadBuffer) (p : Packet) (ps : List Packet) → Awaits b (p ∷ ps) → Opens b p ps
wait_lem b p ps w =
    wait_cases b p ps (drop b.next_packet_pos b.saved_packets) w refl w.coming_packets
