-- ===== src/Packet/Contiguous.antt =====
-- ReadBuffer._get_raw and ReadBuffer.read_raw_bytes of src/oracledb/impl/thin/packet.pyx: a chunked read
-- takes the next bytes, wherever the packets begin and end.
use python_oracledb.Prelude.{
  ℕ, suc, ◌-◌, ◌≤◌, ◌<◌, ◌≡◌, refl, sym, ◌∙◌, ap, arith, inl, inr, true, false, List, [], ◌∷◌, ◌++◌,
  length, take, drop, some, leb, ◌==◌, Bool-cases, length-append, take_all, length-drop,
  length-take, take-append_left, drop_all, ℕ_discrete,
}
use mathlib.Core.List.{append_assoc}
use python_oracledb.Errors.{Result, ok, err, stuck, ◌>>=◌}
use python_oracledb.Buffer.Stream.{unread, length-unread}
use python_oracledb.Packet.{Packet, ReadBuffer}
use python_oracledb.Packet.Read.{
  here, num_bytes_left, packets_left, move, copy, get_split, get_here, get_raw, read_raw_bytes,
}
use python_oracledb.Packet.Chunks.{
  BytesChunk, contents, contents_of, is_used, start_chunked_read, end_chunked_read,
  end_chunked_read_lem,
}
use python_oracledb.Packet.Await.{payloads, Awaits, wait_lem}
use python_oracledb.Packet.Stream.{
  stream, Collects, piece-Awaits, piece-contents, moved_unread, get_rest_lem, take-append,
  drop-append,
}

-- The buffer that a read leaves.
abbrev pub state : Result (List ℕ × ReadBuffer) → Result ReadBuffer
state r = do (_, b) ← r; ok b

pub packets_enough : (b : ReadBuffer) (ps : List Packet) → Awaits b ps → length ps ≤ packets_left b
packets_enough b ps w = omega (
  arith,
  ap length w.coming_packets,
  length-append (drop b.next_packet_pos b.saved_packets) b.incoming,
  length-drop b.next_packet_pos b.saved_packets,
)

length-zero : (xs : List ℕ) → length xs ≡ 0 → xs ≡ []
length-zero [] e = refl
length-zero (x ∷ xs) e = absurd (omega (arith, e))

copied_Awaits :
    (bytes : List ℕ) (b : ReadBuffer) (ps : List Packet)
    → Awaits b ps
    → Awaits (copy true 0 bytes b) ps
unfolding copy
copied_Awaits bytes b ps w = record {
  can_read = w.can_read;
  is_sync = w.is_sync;
  in_turn = w.in_turn;
  saved = w.saved;
  all_data = w.all_data;
  coming_packets = w.coming_packets;
}

get_here_now :
    (n : ℕ) (b : ReadBuffer) (ps : List Packet)
    → Awaits b ps
    → leb n (num_bytes_left b) ≡ true
    → Collects (state (get_here true n b)) b (take n (stream b ps)) (drop n (stream b ps))
unfolding get_here
get_here_now n b ps w e =
    let fits : n ≤ length (unread b.buffer) = ground (arith, length-unread b.buffer w.can_read) in
    let none_left : n - length (unread b.buffer) ≡ 0 = omega (arith, fits) in
    record {
      after = move n (copy true 0 (take n (here b)) b);
      left = ps;
      succeeds = rw e refl;
      awaits = piece-Awaits n b ps w fits 0;
      collected =
          piece-contents n b ps w fits 0
          ∙ ap (λ xs. contents b.chunked_bytes_buf ++ xs)
              (sym (take-append_left n (unread b.buffer) (payloads ps) fits));
      to_read =
          ap (λ xs. xs ++ payloads ps) (moved_unread n b ps w fits)
          ∙ sym (
              drop-append n (unread b.buffer) (payloads ps)
              ∙ ap (λ j. drop n (unread b.buffer) ++ drop j (payloads ps)) none_left);
    }

get_here_split :
    (n j : ℕ) (b : ReadBuffer) (ps : List Packet)
    → Awaits b ps
    → leb n (num_bytes_left b) ≡ false
    → n - num_bytes_left b ≡ suc j
    → n ≤ length (stream b ps)
    → Collects (state (get_here true n b)) b (take n (stream b ps)) (drop n (stream b ps))
unfolding get_here get_split
get_here_split n j b ps w e s h =
    let left = num_bytes_left b in
    let size = length-unread b.buffer w.can_read in
    let c = copy true 0 (take left (here b)) b in
    let rest =
      get_rest_lem (packets_left b) left (suc j) c ps (copied_Awaits (take left (here b)) b ps w)
        (packets_enough b ps w)
        (omega (arith, s, h, size, length-append (unread b.buffer) (payloads ps))) in
    let old = contents b.chunked_bytes_buf in
    let all : take left (unread b.buffer) ≡ unread b.buffer =
      take_all left (unread b.buffer) (omega (arith, size)) in
    let copied : contents c.chunked_bytes_buf ≡ old ++ unread b.buffer =
      piece-contents left b ps w (omega (arith, size)) 0 ∙ ap (λ xs. old ++ xs) all in
    let beyond : n - length (unread b.buffer) ≡ suc j = omega (arith, size, s) in
    let got : unread b.buffer ++ take (suc j) (payloads ps) ≡ take n (stream b ps) = sym (
      take-append n (unread b.buffer) (payloads ps)
      ∙ ap (λ xs. xs ++ take (n - length (unread b.buffer)) (payloads ps))
          (take_all n (unread b.buffer) (omega (arith, beyond)))
      ∙ ap (λ i. unread b.buffer ++ take i (payloads ps)) beyond) in
    let skipped : drop n (stream b ps) ≡ drop (suc j) (payloads ps) =
      drop-append n (unread b.buffer) (payloads ps)
      ∙ ap (λ xs. xs ++ drop (n - length (unread b.buffer)) (payloads ps))
          (drop_all n (unread b.buffer) (omega (arith, beyond)))
      ∙ ap (λ i. drop i (payloads ps)) beyond in
    record {
      after = rest.after;
      left = rest.left;
      succeeds = rw (e, s, rest.succeeds) refl;
      awaits = rest.awaits;
      collected =
          rest.collected
          ∙ ap (λ xs. xs ++ take (suc j) (payloads ps)) copied
          ∙ append_assoc old (unread b.buffer) (take (suc j) (payloads ps))
          ∙ ap (λ xs. old ++ xs) got;
      to_read = rest.to_read ∙ sym skipped;
    }

get_here_lem :
    (n : ℕ) (b : ReadBuffer) (ps : List Packet)
    → Awaits b ps
    → n ≤ length (stream b ps)
    → Collects (state (get_here true n b)) b (take n (stream b ps)) (drop n (stream b ps))
get_here_lem n b ps w h = elim (Bool-cases (leb n (num_bytes_left b))) [
  | inl t ↦ get_here_now n b ps w t
  | inr f ↦ get_here_split n (n - num_bytes_left b - 1) b ps w f (ground arith) h
]

-- After a wait at the end of a packet.
waited :
    (n : ℕ) (b : ReadBuffer) (ps : List Packet)
    → Awaits b ps
    → b.buffer.position ≡ b.buffer.size
    → 0 < n
    → n ≤ length (stream b ps)
    → Collects (state (get_raw true n b)) b (take n (stream b ps)) (drop n (stream b ps))
unfolding get_raw
waited n b [] w e z h =
    absurd (
      omega (arith, z, h, e, length-unread b.buffer w.can_read, length-append (unread b.buffer) []))
waited n b (p ∷ ps) w e z h =
    let here_end : (b.buffer.position == b.buffer.size) ≡ true = ground (arith, e) in
    let o = wait_lem b p ps w in
    let nothing : unread b.buffer ≡ [] =
      length-zero (unread b.buffer) (omega (arith, e, length-unread b.buffer w.can_read)) in
    let same : stream o.after ps ≡ stream b (p ∷ ps) =
      ap (λ xs. xs ++ payloads ps) o.unread_payload
      ∙ ap (λ xs. xs ++ payloads (p ∷ ps)) (sym nothing) in
    let r = get_here_lem n o.after ps o.awaits (omega (arith, h, ap length same)) in
    record {
      after = r.after;
      left = r.left;
      succeeds = rw (here_end, o.waits) r.succeeds;
      awaits = r.awaits;
      collected =
          r.collected
          ∙ ap (λ c. contents c ++ take n (stream o.after ps)) o.same_chunks
          ∙ ap (λ xs. contents b.chunked_bytes_buf ++ take n xs) same;
      to_read = r.to_read ∙ ap (drop n) same;
    }

-- Where data packets arrive in turn and have enough bytes, a chunked _get_raw of one byte at least
-- succeeds, adds the next `n` bytes to the chunked bytes buffer, and leaves what follows them to be
-- read, whichever packets they are in.
pub get_raw-stream :
    (n : ℕ) (b : ReadBuffer) (ps : List Packet)
    → Awaits b ps
    → 0 < n
    → n ≤ length (stream b ps)
    → Collects (state (get_raw true n b)) b (take n (stream b ps)) (drop n (stream b ps))
unfolding get_raw
get_raw-stream n b ps w z h = elim (ℕ_discrete b.buffer.position b.buffer.size) [
  | yes e ↦ waited n b ps w e z h
  | no d ↦
      let inside : (b.buffer.position == b.buffer.size) ≡ false = ground (arith, d) in
      rw inside (get_here_lem n b ps w h)
]

state-ok :
    (r : Result (List ℕ × ReadBuffer)) (b : ReadBuffer)
    → state r ≡ ok b
    → (bytes : List ℕ) × (r ≡ ok (bytes, b))
state-ok stuck b e = cc
state-ok (err x) b e = cc
state-ok (ok (bytes, c)) b e = (bytes, cc)

contents-used :
    (n : ℕ) (used : List BytesChunk) (bytes : List ℕ)
    → contents_of used ≡ take n bytes
    → 0 < n
    → n ≤ length bytes
    → is_used used ≡ true
unfolding contents_of
contents-used n [] bytes e z h = absurd (omega (arith, ap length e, length-take n bytes, z, h))
contents-used n (c ∷ cs) bytes e z h = refl

-- A read that returns `bytes` and leaves `rest` to be read.
pub record Returns (n : ℕ) (b : ReadBuffer) (bytes rest : List ℕ) : Type 0 where
  pub final : ReadBuffer
  pub packets : List Packet
  pub result : read_raw_bytes n b ≡ ok (some bytes, final)
  pub ready : Awaits final packets
  pub remaining : stream final packets ≡ rest

-- Where the transport is synchronous, packets are not collected up to the end of the response, and the
-- packets that are saved or arrive are data packets with enough bytes: read_raw_bytes of one byte at
-- least succeeds, returns the next `n` bytes, and leaves what follows them to be read, whichever
-- packets they are in.
pub read_raw_bytes-stream :
    (n : ℕ) (b : ReadBuffer) (ps : List Packet)
    → Awaits b ps
    → 0 < n
    → n ≤ length (stream b ps)
    → Returns n b (take n (stream b ps)) (drop n (stream b ps))
unfolding read_raw_bytes start_chunked_read contents_of
read_raw_bytes-stream n b ps w z h =
    let b0 = record b { chunked_bytes_buf = start_chunked_read b.chunked_bytes_buf } in
    let w0 : Awaits b0 ps = record {
      can_read = w.can_read;
      is_sync = w.is_sync;
      in_turn = w.in_turn;
      saved = w.saved;
      all_data = w.all_data;
      coming_packets = w.coming_packets;
    } in
    let r = get_raw-stream n b0 ps w0 z h in
    let (bytes, raw) = state-ok (get_raw true n b0) r.after r.succeeds in
    let chunks = r.after.chunked_bytes_buf in
    let used = contents-used n chunks.used (stream b ps) r.collected z h in
    let value : (end_chunked_read chunks).0 ≡ some (take n (stream b ps)) =
      end_chunked_read_lem chunks used ∙ ap some r.collected in
    record {
      final = record r.after { chunked_bytes_buf = (end_chunked_read chunks).1 };
      packets = r.left;
      result = rw (raw, value) refl;
      ready = record {
        can_read = r.awaits.can_read;
        is_sync = r.awaits.is_sync;
        in_turn = r.awaits.in_turn;
        saved = r.awaits.saved;
        all_data = r.awaits.all_data;
        coming_packets = r.awaits.coming_packets;
      };
      remaining = r.to_read;
    }
