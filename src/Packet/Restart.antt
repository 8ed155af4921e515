-- ===== src/Packet/Restart.antt =====
-- ReadBuffer.save_point and ReadBuffer.restore_point of src/oracledb/impl/thin/packet.pyx.
use python_oracledb.Prelude.{
  ℕ, zero, suc, ◌+◌, ◌-◌, ◌<◌, ◌≡◌, refl, sym, ◌∙◌, ap, arith, true, false, List, [], ◌∷◌, ◌++◌,
  length, take, drop, get_elem?, some, ◌==◌, ℕ_discrete,
}
use python_oracledb.Errors.{ok}
use python_oracledb.Buffer.{Buffer, populate_from_bytes}
use python_oracledb.Buffer.Stream.{unread}
use python_oracledb.Packet.{Packet, ReadBuffer, save_point, restore_packet, restore_point}

-- The last packet that was started, and its bytes are those of the buffer.
pub record Current (b : ReadBuffer) (p : Packet) : Type 0 where
  pub started : 0 < b.next_packet_pos
  pub saved : get_elem? b.saved_packets (b.next_packet_pos - 1) ≡ some p
  pub same_contents : b.buffer.contents ≡ p.bytes
  pub same_size : b.buffer.size ≡ length p.bytes

get_elem-append :
    (i : ℕ) (xs ys : List Packet) (p : Packet)
    → get_elem? xs i ≡ some p
    → get_elem? (xs ++ ys) i ≡ some p
get_elem-append i [] ys p e = cc
get_elem-append zero (x ∷ xs) ys p e = e
get_elem-append (suc i) (x ∷ xs) ys p e = get_elem-append i xs ys p e

same_unread :
    (x y : Buffer)
    → x.contents ≡ y.contents
    → x.size ≡ y.size
    → x.position ≡ y.position
    → unread x ≡ unread y
same_unread x y c s p =
    ap (λ n. take (n - x.position) (drop x.position x.contents)) s
    ∙ ap (λ n. take (y.size - n) (drop n x.contents)) p
    ∙ ap (λ xs. take (y.size - y.position) (drop y.position xs)) c

-- What is restored: the position of `b`, with the packets that `c` has.
abbrev pub Restored : ReadBuffer → ReadBuffer → ReadBuffer → Type 0
Restored b c d =
    (unread d.buffer ≡ unread b.buffer)
    × (d.next_packet_pos ≡ b.next_packet_pos)
    × (d.saved_packets ≡ c.saved_packets)
    × (d.incoming ≡ c.incoming)

-- Buffer `c` has the point that was saved in `b`, and all packets of `b` and perhaps more: restore_point
-- succeeds on `c`, and then the bytes to be read in the current packet and the next packet are those
-- of `b`, while no packet that arrived in the meantime is lost.
pub restore_point-save_point :
    (b c : ReadBuffer) (p q : Packet) (more : List Packet)
    → Current b p
    → Current c q
    → c.saved_packets ≡ b.saved_packets ++ more
    → c.saved_packet_pos ≡ (save_point b).saved_packet_pos
    → c.saved_pos ≡ (save_point b).saved_pos
    → (d : ReadBuffer) × (restore_point c ≡ ok d) × Restored b c d
unfolding save_point restore_point restore_packet populate_from_bytes
restore_point-save_point b c p q more v w m s t =
    let found : get_elem? c.saved_packets c.saved_packet_pos ≡ some p =
      ap (λ xs. get_elem? xs c.saved_packet_pos) m
      ∙ ap (get_elem? (b.saved_packets ++ more)) s
      ∙ get_elem-append (b.next_packet_pos - 1) b.saved_packets more p v.saved in
    elim (ℕ_discrete c.saved_packet_pos (c.next_packet_pos - 1)) [
      | yes e ↦
          let same : p ≡ q = cc in
          let test : (c.saved_packet_pos == c.next_packet_pos - 1) ≡ true = ground (arith, e) in
          let d = record c { buffer = record c.buffer { position = c.saved_pos } } in
          (
            d,
            simp test refl,
            (
              same_unread d.buffer b.buffer
                  (w.same_contents ∙ ap (λ x. x.bytes) (sym same) ∙ sym v.same_contents)
                  (w.same_size ∙ ap (λ x. length x.bytes) (sym same) ∙ sym v.same_size) t,
              omega (arith, e, s, v.started, w.started),
              refl,
              refl,
            ),
          )
      | no n ↦
          let test : (c.saved_packet_pos == c.next_packet_pos - 1) ≡ false = ground (arith, n) in
          let d = record c {
            buffer = record (populate_from_bytes p.bytes) { position = c.saved_pos };
            next_packet_pos = c.saved_packet_pos + 1;
          } in
          (
            d,
            simp (test, found) refl,
            (
              same_unread d.buffer b.buffer (sym v.same_contents) (sym v.same_size) t,
              omega (arith, s, v.started),
              refl,
              refl,
            ),
          )
    ]
