-- ===== src/WriteBuffer/Payload.antt =====
-- Buffer.write_raw on the class WriteBuffer of src/oracledb/impl/thin/packet.pyx: the bytes go to
-- one packet after the other.
use python_oracledb.Prelude.{
  ℕ, zero, suc, ◌+◌, ◌-◌, ◌≤◌, ◌<◌, ◌≡◌, ◌≢◌, sym, ◌∙◌, ap, arith, ◌⊎◌, inl, inr, min, true, false,
  List, [], ◌∷◌, ◌++◌, length, take, drop, length-append, length-take, length-drop, drop_all,
  take-length-append, take-append-drop, take_all, ◌==◌, ℕ_discrete,
}
use mathlib.Core.Path.{subst}
use mathlib.Core.List.{append_assoc, append-nil}
use python_oracledb.Errors.{Result, ok}
use python_oracledb.Packet.Stream.{drop-append}
use python_oracledb.WriteBuffer.{WriteBuffer, put, send_packet, write_loop, write_raw}
use python_oracledb.WriteBuffer.Header.{IsRoomy, send_packet-Sends}

-- What the packets carry behind their headers.
abbrev pub bodies : List (List ℕ) → List ℕ
bodies [] = []
bodies (p ∷ ps) = drop 10 p ++ bodies ps

pub bodies-append :
    (ps : List (List ℕ)) (p : List ℕ) → bodies (ps ++ p ∷ []) ≡ bodies ps ++ drop 10 p
bodies-append [] p = append-nil (drop 10 p)
bodies-append (x ∷ ps) p =
    ap (λ xs. drop 10 x ++ xs) (bodies-append ps p)
    ∙ sym (append_assoc (drop 10 x) (bodies ps) (drop 10 p))

-- The bytes that are in the current packet, behind its header, and all that were written.
abbrev pub pending : WriteBuffer → List ℕ
pending w = drop 10 (take w.buffer.position w.buffer.contents)

abbrev pub written : WriteBuffer → List ℕ
written w = bodies w.sent ++ pending w

-- Every packet has a header.
abbrev pub AllLong : List (List ℕ) → Type 0
AllLong [] = Unit {0}
AllLong (p ∷ ps) = (10 ≤ length p) × AllLong ps

pub AllLong-append :
    (ps : List (List ℕ)) (p : List ℕ) → AllLong ps → 10 ≤ length p → AllLong (ps ++ p ∷ [])
AllLong-append [] p a l = (l, tt)
AllLong-append (x ∷ ps) p a l = (a.0, AllLong-append ps p a.1 l)

-- A data packet is being written.
pub record IsWriting (w : WriteBuffer) : Type 0 where
  pub is_data : w.packet_type ≡ 6
  pub is_roomy : IsRoomy w.buffer
  pub behind_header : 10 ≤ w.buffer.position
  pub within : w.buffer.position ≤ w.buffer.max_size
  pub long : AllLong w.sent

-- A step after which `bytes` are written too.
pub record Writes (r : Result WriteBuffer) (w : WriteBuffer) (bytes : List ℕ) : Type 0 where
  pub after : WriteBuffer
  pub succeeds : r ≡ ok after
  pub writing : IsWriting after
  pub result : written after ≡ written w ++ bytes

put_lem :
    (bytes : List ℕ) (w : WriteBuffer)
    → IsWriting w
    → w.buffer.position + length bytes ≤ w.buffer.max_size
    → IsWriting (put bytes w) × (written (put bytes w) ≡ written w ++ bytes)
unfolding put
put_lem bytes w i h =
    let p = w.buffer.position in
    let c = w.buffer.contents in
    let rest = drop (p + length bytes) c in
    let size : length (take p c) ≡ p = omega (arith, length-take p c, i.is_roomy.sized, i.within) in
    let filled : take (p + length bytes) (take p c ++ (bytes ++ rest)) ≡ take p c ++ bytes =
      ap (take (p + length bytes)) (sym (append_assoc (take p c) bytes rest))
      ∙ take-length-append (p + length bytes) (take p c ++ bytes) rest
          (omega (arith, length-append (take p c) bytes, size)) in
    let none : 10 - length (take p c) ≡ 0 = omega (arith, size, i.behind_header) in
    (
      record {
        is_data = i.is_data;
        is_roomy = record {
          sized = omega (
            arith,
            length-append (take p c) (bytes ++ rest),
            length-append bytes rest,
            size,
            length-drop (p + length bytes) c,
            i.is_roomy.sized,
            h,
          );
          roomy = i.is_roomy.roomy;
        };
        behind_header = omega (arith, i.behind_header);
        within = h;
        long = i.long;
      },
      ap (λ xs. bodies w.sent ++ drop 10 xs) filled
          ∙ ap (λ xs. bodies w.sent ++ xs)
              (drop-append 10 (take p c) bytes ∙ ap (λ k. drop 10 (take p c) ++ drop k bytes) none)
          ∙ sym (append_assoc (bodies w.sent) (drop 10 (take p c)) bytes),
    )

send_lem :
    (w : WriteBuffer)
    → IsWriting w
    → (x : Writes (send_packet false w) w []) × (x.after.buffer.position < x.after.buffer.max_size)
send_lem w i =
    let s = send_packet-Sends false w i.is_data i.is_roomy i.within in
    let c = s.after.buffer in
    let nothing : pending s.after ≡ [] =
      drop_all 10 (take c.position c.contents)
        (omega (arith, length-take c.position c.contents, s.position)) in
    (
      record {
        after = s.after;
        succeeds = s.succeeds;
        writing = record {
          is_data = s.same_type ∙ i.is_data;
          is_roomy = s.is_roomy;
          behind_header = omega (arith, s.position);
          within = omega (arith, s.position, s.is_roomy.roomy);
          long =
              subst AllLong (sym s.sent)
                (AllLong-append w.sent s.packet i.long (omega (arith, s.size, i.behind_header)));
        };
        result =
            ap (λ xs. bodies s.after.sent ++ xs) nothing
            ∙ append-nil (bodies s.after.sent)
            ∙ ap bodies s.sent
            ∙ bodies-append w.sent s.packet
            ∙ ap (λ xs. bodies w.sent ++ xs) s.payload
            ∙ sym (append-nil (written w));
      },
      omega (arith, s.position, s.is_roomy.roomy),
    )

-- Whether rounds enough are left to write `n` bytes.
abbrev Enough : ℕ → ℕ → WriteBuffer → Type 0
Enough fuel n w = ((w.buffer.position < w.buffer.max_size) × (n < fuel)) ⊎ (n + 1 < fuel)

-- The packet is full before all bytes are in it.
full_lem :
    (fuel : ℕ) (bytes : List ℕ) (w : WriteBuffer)
    → IsWriting w
    → Enough (suc fuel) (length bytes) w
    → min (w.buffer.max_size - w.buffer.position) (length bytes) ≢ length bytes
    → ((rest : List ℕ) (x : WriteBuffer)
        → IsWriting x
        → Enough fuel (length rest) x
        → Writes (write_loop fuel rest x) x rest)
    → Writes (write_loop (suc fuel) bytes w) w bytes
unfolding write_loop
full_lem fuel bytes w i e d again =
    let k = min (w.buffer.max_size - w.buffer.position) (length bytes) in
    let size : length (take k bytes) ≡ k = omega (arith, length-take k bytes) in
    let a = put_lem (take k bytes) w i (omega (arith, size, i.within)) in
    let b' = put (take k bytes) w in
    let (b, room) = send_lem b' a.0 in
    let left : length (drop k bytes) < fuel = ground (arith, length-drop k bytes, e, d, i.within) in
    let r = again (drop k bytes) b.after b.writing (inl (room, left)) in
    let more : (k == length bytes) ≡ false = ground (arith, d) in
    record {
      after = r.after;
      succeeds = rw (more, b.succeeds) r.succeeds;
      writing = r.writing;
      result =
          r.result
          ∙ ap (λ xs. xs ++ drop k bytes) (b.result ∙ append-nil (written b') ∙ a.1)
          ∙ append_assoc (written w) (take k bytes) (drop k bytes)
          ∙ ap (λ xs. written w ++ xs) (take-append-drop k bytes);
    }

-- The packet has room for all bytes.
last_lem :
    (fuel : ℕ) (bytes : List ℕ) (w : WriteBuffer)
    → IsWriting w
    → min (w.buffer.max_size - w.buffer.position) (length bytes) ≡ length bytes
    → Writes (write_loop (suc fuel) bytes w) w bytes
unfolding write_loop
last_lem fuel bytes w i y =
    let k = min (w.buffer.max_size - w.buffer.position) (length bytes) in
    let all : (k == length bytes) ≡ true = ground (arith, y) in
    let whole : take k bytes ≡ bytes = take_all k bytes (omega (arith, y)) in
    let a = put_lem bytes w i (omega (arith, y, i.within)) in
    record {
      after = put bytes w;
      succeeds = rw all (ap (λ xs. ok (put xs w)) whole);
      writing = a.0;
      result = a.1;
    }

write_loop_lem :
    (fuel : ℕ) (bytes : List ℕ) (w : WriteBuffer)
    → IsWriting w
    → Enough fuel (length bytes) w
    → Writes (write_loop fuel bytes w) w bytes
unfolding write_loop
write_loop_lem zero bytes w i (inl (r, f)) = absurd (omega (arith, f))
write_loop_lem zero bytes w i (inr f) = absurd (omega (arith, f))
write_loop_lem (suc fuel) bytes w i e =
    elim (ℕ_discrete (min (w.buffer.max_size - w.buffer.position) (length bytes)) (length bytes)) [
      | no d ↦ full_lem fuel bytes w i e d (λ rest x. write_loop_lem fuel rest x)
      | yes y ↦ last_lem fuel bytes w i y
    ]

-- In a data packet of a size above 10, write_raw succeeds, and the bytes behind the headers of the packets
-- that were sent, with those of the current packet, are those from before and then the bytes
-- written.
pub write_raw-payloads :
    (bytes : List ℕ) (w : WriteBuffer) → IsWriting w → Writes (write_raw bytes w) w bytes
unfolding write_raw
write_raw-payloads bytes w i = write_loop_lem (length bytes + 2) bytes w i (inr (omega arith))
