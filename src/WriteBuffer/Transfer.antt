-- ===== src/WriteBuffer/Transfer.antt =====
-- The classes WriteBuffer and ReadBuffer of src/oracledb/impl/thin/packet.pyx agree on packets.
use python_oracledb.Prelude.{
  ℕ, ◌<◌, ◌≡◌, refl, sym, ◌∙◌, ap, arith, true, List, [], ◌∷◌, ◌++◌, length, take, drop, take_all,
  drop_all, length-take, map, ltb,
}
use mathlib.Core.Path.{subst}
use python_oracledb.Errors.{ok}
use python_oracledb.Buffer.Stream.{unread}
use python_oracledb.Packet.{Packet, ReadBuffer}
use python_oracledb.Packet.Await.{payloads, Awaits}
use python_oracledb.Packet.Stream.{stream}
use python_oracledb.Packet.Contiguous.{Returns, read_raw_bytes-stream}
use python_oracledb.WriteBuffer.{WriteBuffer, write_raw, end_request}
use python_oracledb.WriteBuffer.Header.{send_packet-Sends}
use python_oracledb.WriteBuffer.Payload.{
  bodies, bodies-append, written, pending, IsWriting, write_raw-payloads,
}

-- A data packet with these bytes, as it arrives.
abbrev pub as_packet : List ℕ → Packet
as_packet bytes = record { packet_size = length bytes; packet_type = 6; bytes = bytes }

payloads-map : (ps : List (List ℕ)) → payloads (map as_packet ps) ≡ bodies ps
payloads-map [] = refl
payloads-map (p ∷ ps) = ap (λ xs. drop 10 p ++ xs) (payloads-map ps)

ok_injective : {x y : WriteBuffer} → ok x ≡ ok y → x ≡ y
ok_injective e = cc

end_request_lem :
    (w w' : WriteBuffer) → IsWriting w → end_request w ≡ ok w' → bodies w'.sent ≡ written w
unfolding end_request
end_request_lem w w' i e =
    let s = send_packet-Sends true w i.is_data i.is_roomy i.within in
    let more : ltb 8 w.buffer.position ≡ true = ground (arith, i.behind_header) in
    let sends : end_request w ≡ ok s.after = rw more s.succeeds in
    let same : s.after ≡ w' = ok_injective (sym sends ∙ e) in
    ap (λ x. bodies x.sent) (sym same)
    ∙ ap bodies s.sent
    ∙ bodies-append w.sent s.packet
    ∙ ap (λ xs. bodies w.sent ++ xs) s.payload

-- A new data request in packets of more than 10 bytes is written with write_raw and ended, and a
-- synchronous ReadBuffer that has nothing left to read, and does not collect packets up to the end of
-- the response, waits for the packets that were sent: read_raw_bytes of as many bytes, one at least,
-- succeeds and returns the bytes written, and nothing is left to be read.
pub read_raw_bytes-write_raw :
    (bytes : List ℕ) (w w1 w2 : WriteBuffer) (b : ReadBuffer)
    → IsWriting w
    → w.sent ≡ []
    → w.buffer.position ≡ 10
    → 0 < length bytes
    → write_raw bytes w ≡ ok w1
    → end_request w1 ≡ ok w2
    → Awaits b (map as_packet w2.sent)
    → unread b.buffer ≡ []
    → Returns (length bytes) b bytes []
read_raw_bytes-write_raw bytes w w1 w2 b i n p z e f a u =
    let x = write_raw-payloads bytes w i in
    let same : x.after ≡ w1 = ok_injective (sym x.succeeds ∙ e) in
    let i1 : IsWriting w1 = subst IsWriting same x.writing in
    let c = w.buffer in
    let new : written w ≡ [] =
      ap (λ ps. bodies ps ++ pending w) n
      ∙ drop_all 10 (take c.position c.contents)
          (omega (arith, length-take c.position c.contents, p)) in
    let all : bodies w2.sent ≡ bytes =
      end_request_lem w1 w2 i1 f ∙ ap written (sym same) ∙ x.result ∙ ap (λ xs. xs ++ bytes) new in
    let whole : stream b (map as_packet w2.sent) ≡ bytes =
      ap (λ xs. xs ++ payloads (map as_packet w2.sent)) u ∙ payloads-map w2.sent ∙ all in
    let r =
      read_raw_bytes-stream (length bytes) b (map as_packet w2.sent) a z
        (omega (arith, ap length whole)) in
    let got : take (length bytes) (stream b (map as_packet w2.sent)) ≡ bytes =
      ap (take (length bytes)) whole ∙ take_all (length bytes) bytes (omega arith) in
    let left : drop (length bytes) (stream b (map as_packet w2.sent)) ≡ [] =
      ap (drop (length bytes)) whole ∙ drop_all (length bytes) bytes (omega arith) in
    subst (λ (xs : List ℕ). Returns (length bytes) b xs []) got
      (subst
        (λ (ys : List ℕ).
          Returns (length bytes) b (take (length bytes) (stream b (map as_packet w2.sent))) ys)
        left r)
