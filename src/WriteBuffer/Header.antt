-- ===== src/WriteBuffer/Header.antt =====
-- WriteBuffer._send_packet of src/oracledb/impl/thin/packet.pyx: the header leaves the payload as it is.
use python_oracledb.Prelude.{
  ℕ, ◌+◌, ◌-◌, ◌^◌, ◌%◌, ◌≤◌, ◌<◌, ◌≡◌, refl, sym, ◌∙◌, ap, arith, Bool, true, false, List, [], ◌∷◌,
  ◌++◌, length, take, drop, drop-drop, length-append, length-take, length-drop, drop_all, drop-take,
  ltb,
}
use mathlib.Core.List.{append_assoc}
use python_oracledb.Bytes.{msb, pack_uint16, pack_uint32}
use python_oracledb.Errors.{ok}
use python_oracledb.Buffer.{
  Buffer, M, ◌>>◌, then_ok, machine_byte_order, ensure_room, skip_to, store, write_uint8,
  write_uint16, write_uint32,
}
use python_oracledb.Packet.Stream.{drop-append}
use python_oracledb.WriteBuffer.{
  WriteBuffer, write_size, write_data_flags, write_header, header_fields, hand_out, first_position,
  send_packet,
}

-- A packet that is longer than a header.
pub record IsRoomy (b : Buffer) : Type 0 where
  pub sized : length b.contents ≡ b.max_size
  pub roomy : 10 < b.max_size

-- A method that writes `n` bytes of the header.
pub record Keeps (n : ℕ) (m : M (Unit {0})) (b : Buffer) : Type 0 where
  pub after : Buffer
  pub succeeds : m b ≡ ok (tt, after)
  pub moved : after.position ≡ b.position + n
  pub same_max : after.max_size ≡ b.max_size
  pub same_length : length after.contents ≡ length b.contents
  pub same_payload : drop 10 after.contents ≡ drop 10 b.contents

abbrev pub Puts : ℕ → M (Unit {0}) → Type 0
Puts n m = (b : Buffer) → IsRoomy b → b.position + n ≤ 10 → Keeps n m b

ensure_room-roomy :
    (n : ℕ) (b : Buffer) → ltb b.max_size (b.position + n) ≡ false → ensure_room n b ≡ ok (tt, b)
unfolding ensure_room
ensure_room-roomy n b f = rw f refl

store-Puts : (bytes : List ℕ) (n : ℕ) → length bytes ≡ n → Puts n (do ensure_room n; store bytes)
unfolding store
store-Puts bytes n e b r h =
    let p = b.position in
    let kept = take p b.contents in
    let rest = drop (p + length bytes) b.contents in
    let size : length (kept ++ bytes) ≡ p + n =
      omega (arith, length-append kept bytes, length-take p b.contents, r.sized, r.roomy, e, h) in
    let room : ltb b.max_size (p + n) ≡ false = ground (arith, r.roomy, h) in
    let ten : p + length bytes + (10 - length (kept ++ bytes)) ≡ 10 = omega (arith, size, e, h) in
    record {
      after = record b { contents = kept ++ (bytes ++ rest); position = p + length bytes };
      succeeds = then_ok (ensure_room n) (store bytes) b b (ensure_room-roomy n b room);
      moved = omega (arith, e);
      same_max = refl;
      same_length = omega (
        arith,
        length-append kept (bytes ++ rest),
        length-append bytes rest,
        length-take p b.contents,
        length-drop (p + length bytes) b.contents,
        r.sized,
        r.roomy,
        e,
        h,
      );
      same_payload =
          ap (drop 10) (sym (append_assoc kept bytes rest))
          ∙ drop-append 10 (kept ++ bytes) rest
          ∙ ap (λ xs. xs ++ drop (10 - length (kept ++ bytes)) rest)
              (drop_all 10 (kept ++ bytes) (omega (arith, size, h)))
          ∙ drop-drop (10 - length (kept ++ bytes)) (p + length bytes) b.contents
          ∙ ap (λ k. drop k b.contents) ten;
    }

Puts-then : (n k : ℕ) (m l : M (Unit {0})) → Puts n m → Puts k l → Puts (n + k) (do m; l)
Puts-then n k m l f g b r h =
    let x = f b r (omega (arith, h)) in
    let y =
      g x.after
        (record {
          sized = x.same_length ∙ r.sized ∙ sym x.same_max;
          roomy = omega (arith, x.same_max, r.roomy);
        })
        (omega (arith, x.moved, h)) in
    record {
      after = y.after;
      succeeds = then_ok m l b x.after x.succeeds ∙ y.succeeds;
      moved = omega (arith, x.moved, y.moved);
      same_max = y.same_max ∙ x.same_max;
      same_length = y.same_length ∙ x.same_length;
      same_payload = y.same_payload ∙ x.same_payload;
    }

uint8-Puts : (x : ℕ) → Puts 1 (write_uint8 x)
unfolding write_uint8
uint8-Puts x = store-Puts (x ∷ []) 1 refl

uint16-Puts : (x : ℕ) → Puts 2 (write_uint16 x msb)
unfolding write_uint16 pack_uint16
uint16-Puts x = store-Puts (pack_uint16 machine_byte_order x msb) 2 refl

uint32-Puts : (x : ℕ) → Puts 4 (write_uint32 x msb)
unfolding write_uint32 pack_uint32
uint32-Puts x = store-Puts (pack_uint32 machine_byte_order x msb) 4 refl

size-Puts : (large : Bool) (size : ℕ) → Puts 4 (write_size large size)
unfolding write_size
size-Puts true size = uint32-Puts (size % 2 ^ 32)
size-Puts false size =
    Puts-then 2 2 (write_uint16 (size % 2 ^ 16) msb) (write_uint16 0 msb)
      (uint16-Puts (size % 2 ^ 16)) (uint16-Puts 0)

flags-Puts : (packet_type flags : ℕ) → packet_type ≡ 6 → Puts 2 (write_data_flags packet_type flags)
unfolding write_data_flags
flags-Puts packet_type flags e = rw e (uint16-Puts flags)

header-Puts :
    (size : ℕ) (w : WriteBuffer) (b : Buffer)
    → w.packet_type ≡ 6
    → IsRoomy b
    → Keeps (4 + (1 + (1 + (2 + 2)))) (header_fields size w) (record b { position = 0 })
unfolding header_fields
header-Puts size w b t r =
    Puts-then 4 (1 + (1 + (2 + 2))) (write_size w.large_sdu size)
      (do
        write_uint8 w.packet_type
        write_uint8 w.packet_flags
        write_uint16 0 msb
        write_data_flags w.packet_type w.data_flags)
      (size-Puts w.large_sdu size)
      (Puts-then 1 (1 + (2 + 2)) (write_uint8 w.packet_type)
        (do
          write_uint8 w.packet_flags
          write_uint16 0 msb
          write_data_flags w.packet_type w.data_flags)
        (uint8-Puts w.packet_type)
        (Puts-then 1 (2 + 2) (write_uint8 w.packet_flags)
          (do write_uint16 0 msb; write_data_flags w.packet_type w.data_flags)
          (uint8-Puts w.packet_flags)
          (Puts-then 2 2 (write_uint16 0 msb) (write_data_flags w.packet_type w.data_flags)
            (uint16-Puts 0) (flags-Puts w.packet_type w.data_flags t))))
      (record b { position = 0 }) (record { sized = r.sized; roomy = r.roomy }) (omega arith)

-- A data packet is sent.
pub record Sends (final_packet : Bool) (w : WriteBuffer) : Type 0 where
  pub after : WriteBuffer
  pub packet : List ℕ
  pub succeeds : send_packet final_packet w ≡ ok after
  pub is_roomy : IsRoomy after.buffer
  pub position : after.buffer.position ≡ first_position final_packet 6
  pub same_type : after.packet_type ≡ w.packet_type
  pub sent : after.sent ≡ w.sent ++ packet ∷ []
  pub size : length packet ≡ w.buffer.position
  pub payload : drop 10 packet ≡ drop 10 (take w.buffer.position w.buffer.contents)

pub send_packet-Sends :
    (final_packet : Bool) (w : WriteBuffer)
    → w.packet_type ≡ 6
    → IsRoomy w.buffer
    → w.buffer.position ≤ w.buffer.max_size
    → Sends final_packet w
unfolding send_packet hand_out write_header skip_to
send_packet-Sends final_packet w t r h =
    let p = w.buffer.position in
    let k = header-Puts p w w.buffer t r in
    let c = k.after in
    record {
      after = record w {
        buffer = record c { position = first_position final_packet w.packet_type };
        packet_sent = true;
        sent = w.sent ++ take p c.contents ∷ [];
      };
      packet = take p c.contents;
      succeeds = ap (hand_out final_packet w) (
          then_ok (skip_to 0) (header_fields p w) w.buffer (record w.buffer { position = 0 }) refl
          ∙ k.succeeds);
      is_roomy = record {
        sized = k.same_length ∙ r.sized ∙ sym k.same_max;
        roomy = omega (arith, k.same_max, r.roomy);
      };
      position = ap (first_position final_packet) t;
      same_type = refl;
      sent = refl;
      size = omega (arith, length-take p c.contents, k.same_length, r.sized, h);
      payload =
          drop-take 10 p c.contents
          ∙ ap (take (p - 10)) k.same_payload
          ∙ sym (drop-take 10 p w.buffer.contents);
    }
