-- ===== src/Packet/Split.antt =====
-- ReadBuffer._get_raw of src/oracledb/impl/thin/packet.pyx without a chunked read: bytes in several
-- packets are put together in the split buffer.
use python_oracledb.Prelude.{
  ℕ, suc, ◌+◌, ◌-◌, ◌≤◌, ◌<◌, ◌≡◌, ◌≢◌, refl, sym, ◌∙◌, ap, arith, min, false, List, ◌∷◌, ◌++◌,
  length, take, drop, ltb, leb, ◌==◌, length-append, take_all, length-take, take-length-append,
  take-append_left, drop_all, take-take,
}
use mathlib.Core.List.{append_assoc}
use python_oracledb.Errors.{Result, ok, ◌>>=◌}
use python_oracledb.Buffer.Stream.{unread, CanRead, length-unread}
use python_oracledb.Packet.{Packet, ReadBuffer}
use python_oracledb.Packet.Read.{
  here, num_bytes_left, packets_left, move, copy, get_rest, get_split, get_here, get_raw,
}
use python_oracledb.Packet.Await.{payload, payloads, Awaits, wait_lem}
use python_oracledb.Packet.Stream.{
  stream, take-here, moved_unread, moved-CanRead, take-min, drop-min, take-append, drop-append,
}
use python_oracledb.Packet.Contiguous.{packets_enough}

-- A round of the loop that takes its bytes from packet `p`.
record SplitRound (fuel offset n : ℕ) (b : ReadBuffer) (p : Packet) (ps : List Packet)
    : Type 0 where
  after : ReadBuffer
  goes_on :
      get_rest (suc fuel) false offset (suc n) b
      ≡ get_rest fuel false offset (suc n - length (payload p)) after
  awaits : Awaits after ps
  behind_piece : unread after.buffer ≡ drop (suc n) (payload p)
  tail : List ℕ
  piece_put : after.split_data ≡ take offset b.split_data ++ (take (suc n) (payload p) ++ tail)

round_lem :
    (fuel offset n : ℕ) (b : ReadBuffer) (p : Packet) (ps : List Packet)
    → Awaits b (p ∷ ps)
    → SplitRound fuel offset n b p ps
unfolding get_rest copy
round_lem fuel offset n b p ps w =
    let o = wait_lem b p ps w in
    let b' = o.after in
    let k = min (suc n) (num_bytes_left b') in
    let size : num_bytes_left b' ≡ length (payload p) =
      sym (length-unread b'.buffer o.awaits.can_read) ∙ ap length o.unread_payload in
    let fits : k ≤ length (unread b'.buffer) =
      omega (arith, length-unread b'.buffer o.awaits.can_read) in
    let whole : k ≡ min (suc n) (length (payload p)) = ap (min (suc n)) size in
    let first : take k (here b') ≡ take (suc n) (payload p) =
      take-here k b' ps o.awaits fits
      ∙ ap (take k) o.unread_payload
      ∙ ap (λ j. take j (payload p)) whole
      ∙ take-min (suc n) (payload p) in
    let last : drop k (unread b'.buffer) ≡ drop (suc n) (payload p) =
      ap (drop k) o.unread_payload
      ∙ ap (λ j. drop j (payload p)) whole
      ∙ drop-min (suc n) (payload p) in
    let d = move k (copy false offset (take k (here b')) b') in
    record {
      after = d;
      goes_on = rw o.waits (ap (λ m. get_rest fuel false offset m d) (omega (arith, whole)));
      awaits = record {
        can_read = moved-CanRead k b' ps o.awaits fits;
        is_sync = o.awaits.is_sync;
        in_turn = o.awaits.in_turn;
        saved = o.awaits.saved;
        all_data = o.awaits.all_data;
        coming_packets = o.awaits.coming_packets;
      };
      behind_piece = moved_unread k b' ps o.awaits fits ∙ last;
      tail = drop (offset + length (take k (here b'))) b'.split_data;
      piece_put =
          let tail = drop (offset + length (take k (here b'))) b'.split_data in
          ap (λ s. take offset s ++ (take k (here b') ++ tail)) o.same_split
          ∙ ap (λ xs. take offset b.split_data ++ (xs ++ tail)) first;
    }

-- The bytes that are left in the current packet are copied to the split buffer.
started : ReadBuffer → ReadBuffer
started b = copy false 0 (unread b.buffer) b

started-Awaits : (b : ReadBuffer) (ps : List Packet) → Awaits b ps → Awaits (started b) ps
unfolding started copy
started-Awaits b ps w = record {
  can_read = w.can_read;
  is_sync = w.is_sync;
  in_turn = w.in_turn;
  saved = w.saved;
  all_data = w.all_data;
  coming_packets = w.coming_packets;
}

take-started :
    (b : ReadBuffer)
    → CanRead b.buffer
    → take (num_bytes_left b) (started b).split_data ≡ unread b.buffer
unfolding started copy
take-started b c =
    take-length-append (num_bytes_left b) (unread b.buffer) _ (sym (length-unread b.buffer c))

-- What a read over several packets returns.
abbrev split_result : ℕ → Result ReadBuffer → Result (List ℕ × ReadBuffer)
split_result n r = do b ← r; ok (take n b.split_data, b)

get_raw-split :
    (n : ℕ) (b : ReadBuffer)
    → b.buffer.position ≢ b.buffer.size
    → num_bytes_left b < n
    → n ≤ 255
    → get_raw false n b
      ≡ split_result n
          (get_rest (packets_left b) false (num_bytes_left b) (n - num_bytes_left b) (started b))
unfolding get_raw get_here get_split started
get_raw-split n b d l s =
    let inside : (b.buffer.position == b.buffer.size) ≡ false = ground (arith, d) in
    let over : leb n (num_bytes_left b) ≡ false = ground (arith, l) in
    let room : ltb 255 n ≡ false = ground (arith, s) in rw (inside, over, room) refl

no_more : (f left : ℕ) (d : ReadBuffer) → get_rest f false left 0 d ≡ ok d
unfolding get_rest
no_more f left d = refl

-- Where the transport is synchronous, packets are not collected up to the end of the response, and data
-- packets are saved or arrive: a read of at most 255 bytes, without chunks, that begins within the
-- current packet and ends within the next one
-- succeeds, returns the next `n` bytes, and leaves what follows them to be read.
pub get_raw-two_packets :
    (n : ℕ) (b : ReadBuffer) (p : Packet) (ps : List Packet)
    → Awaits b (p ∷ ps)
    → b.buffer.position ≢ b.buffer.size
    → num_bytes_left b < n
    → n ≤ 255
    → n ≤ num_bytes_left b + length (payload p)
    → (d : ReadBuffer) × (get_raw false n b ≡ ok (take n (stream b (p ∷ ps)), d))
      × Awaits d ps
      × (stream d ps ≡ drop n (stream b (p ∷ ps)))
get_raw-two_packets n b p ps w inner l s h =
    let left = num_bytes_left b in
    let j = n - left - 1 in
    let f = packets_left b - 1 in
    let some_packet : packets_left b ≡ suc f = omega (arith, packets_enough b (p ∷ ps) w) in
    let wanted : n - left ≡ suc j = omega (arith, l) in
    let r = round_lem f left j (started b) p ps (started-Awaits b (p ∷ ps) w) in
    let over : suc j - length (payload p) ≡ 0 = omega (arith, h) in
    let size = length-unread b.buffer w.can_read in
    let beyond : n - length (unread b.buffer) ≡ suc j = omega (arith, size, l) in
    let fits : suc j ≤ length (payload p) = omega (arith, h) in
    let piece = take (suc j) (payload p) in
    let put : r.after.split_data ≡ (unread b.buffer ++ piece) ++ r.tail =
      r.piece_put
      ∙ ap (λ xs. xs ++ (piece ++ r.tail)) (take-started b w.can_read)
      ∙ sym (append_assoc (unread b.buffer) piece r.tail) in
    let full : n ≡ length (unread b.buffer ++ piece) = omega (
      arith,
      length-append (unread b.buffer) piece,
      length-take (suc j) (payload p),
      size,
      l,
      fits,
    ) in
    let got : take n r.after.split_data ≡ unread b.buffer ++ piece =
      ap (take n) put ∙ take-length-append n (unread b.buffer ++ piece) r.tail full in
    let asked : take n (stream b (p ∷ ps)) ≡ unread b.buffer ++ piece =
      take-append n (unread b.buffer) (payloads (p ∷ ps))
      ∙ ap (λ xs. xs ++ take (n - length (unread b.buffer)) (payloads (p ∷ ps)))
          (take_all n (unread b.buffer) (omega (arith, beyond)))
      ∙ ap (λ i. unread b.buffer ++ take i (payloads (p ∷ ps))) beyond
      ∙ ap (λ xs. unread b.buffer ++ xs)
          (take-append_left (suc j) (payload p) (payloads ps) fits) in
    let skipped : drop n (stream b (p ∷ ps)) ≡ drop (suc j) (payload p) ++ payloads ps =
      drop-append n (unread b.buffer) (payloads (p ∷ ps))
      ∙ ap (λ xs. xs ++ drop (n - length (unread b.buffer)) (payloads (p ∷ ps)))
          (drop_all n (unread b.buffer) (omega (arith, beyond)))
      ∙ ap (λ i. drop i (payloads (p ∷ ps))) beyond
      ∙ drop-append (suc j) (payload p) (payloads ps)
      ∙ ap (λ i. drop (suc j) (payload p) ++ drop i (payloads ps)) over in
    let rounds : get_rest (packets_left b) false left (n - left) (started b) ≡ ok r.after =
      ap (λ g. get_rest g false left (n - left) (started b)) some_packet
      ∙ ap (λ k. get_rest (suc f) false left k (started b)) wanted
      ∙ r.goes_on
      ∙ ap (λ i. get_rest f false left i r.after) over
      ∙ no_more f left r.after in
    (
      r.after,
      get_raw-split n b inner l s
          ∙ ap (split_result n) rounds
          ∙ ap (λ xs. ok (xs, r.after)) (got ∙ sym asked),
      r.awaits,
      ap (λ xs. xs ++ payloads ps) r.behind_piece ∙ sym skipped,
    )

-- Where the transport is synchronous, packets are not collected up to the end of the response, and data
-- packets are saved or arrive: in a read of at most 255 bytes, without chunks, that begins within the
-- current packet, passes over the whole of packet `p`
-- and ends within packet `q`, the bytes of `q` are put where those of `p` were, directly behind
-- the bytes of the current packet.
pub get_raw-three_packets :
    (n : ℕ) (b : ReadBuffer) (p q : Packet) (ps : List Packet)
    → Awaits b (p ∷ q ∷ ps)
    → b.buffer.position ≢ b.buffer.size
    → n ≤ 255
    → num_bytes_left b + length (payload p) < n
    → n ≤ num_bytes_left b + length (payload p) + length (payload q)
    → let m = n - num_bytes_left b - length (payload p) in
      (bytes : List ℕ) × (d : ReadBuffer) × (get_raw false n b ≡ ok (bytes, d))
      × (take (num_bytes_left b + m) bytes ≡ unread b.buffer ++ take m (payload q))
get_raw-three_packets n b p q ps w inner s l h =
    let left = num_bytes_left b in
    let j = n - left - 1 in
    let i = suc j - length (payload p) - 1 in
    let f = packets_left b - 2 in
    let packets : packets_left b ≡ suc (suc f) = omega (arith, packets_enough b (p ∷ q ∷ ps) w) in
    let wanted : n - left ≡ suc j = omega (arith, l) in
    let r = round_lem (suc f) left j (started b) p (q ∷ ps) (started-Awaits b (p ∷ q ∷ ps) w) in
    let t = round_lem f left i r.after q ps r.awaits in
    let more : suc j - length (payload p) ≡ suc i = omega (arith, l) in
    let over : suc i - length (payload q) ≡ 0 = omega (arith, l, h) in
    let m = n - left - length (payload p) in
    let size = length-unread b.buffer w.can_read in
    let kept : take left r.after.split_data ≡ unread b.buffer =
      ap (take left) (
        r.piece_put
        ∙ ap (λ xs. xs ++ (take (suc j) (payload p) ++ r.tail)) (take-started b w.can_read))
      ∙ take-length-append left (unread b.buffer) _ (sym size) in
    let piece = take (suc i) (payload q) in
    let put : t.after.split_data ≡ (unread b.buffer ++ piece) ++ t.tail =
      t.piece_put
      ∙ ap (λ xs. xs ++ (piece ++ t.tail)) kept
      ∙ sym (append_assoc (unread b.buffer) piece t.tail) in
    let mi : m ≡ suc i = omega (arith, l) in
    let full : left + m ≡ length (unread b.buffer ++ piece) =
      omega (
        arith,
        length-append (unread b.buffer) piece,
        length-take (suc i) (payload q),
        size,
        l,
        h,
      ) in
    let rounds : get_rest (packets_left b) false left (n - left) (started b) ≡ ok t.after =
      ap (λ g. get_rest g false left (n - left) (started b)) packets
      ∙ ap (λ k. get_rest (suc (suc f)) false left k (started b)) wanted
      ∙ r.goes_on
      ∙ ap (λ k. get_rest (suc f) false left k r.after) more
      ∙ t.goes_on
      ∙ ap (λ k. get_rest f false left k t.after) over
      ∙ no_more f left t.after in
    (
      take n t.after.split_data,
      t.after,
      get_raw-split n b inner (omega (arith, l)) s ∙ ap (split_result n) rounds,
      take-take (left + m) n t.after.split_data (omega (arith, l))
          ∙ ap (take (left + m)) put
          ∙ take-length-append (left + m) (unread b.buffer ++ piece) t.tail full
          ∙ ap (λ k. unread b.buffer ++ take k (payload q)) (sym mi),
    )
