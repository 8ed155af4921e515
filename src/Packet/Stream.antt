-- ===== src/Packet/Stream.antt =====
-- ReadBuffer._get_raw of src/oracledb/impl/thin/packet.pyx in a chunked read: the packets are one
-- sequence of bytes.
use python_oracledb.Prelude.{
  ℕ, zero, suc, ◌-◌, ◌≤◌, ◌≡◌, refl, sym, ◌∙◌, ap, arith, min, true, List, [], ◌∷◌, ◌++◌, length,
  take, drop, length-append, length-take, drop_all, take-take, take-append-drop, take-nil, drop-nil,
}
use mathlib.Core.List.{append_assoc, append-nil}
use mathlib.Core.Path.{subst}
use python_oracledb.Errors.{Result, ok}
use python_oracledb.Buffer.{advance}
use python_oracledb.Buffer.Stream.{unread, CanRead, length-unread, unread-advance, advance-CanRead}
use python_oracledb.Packet.{Packet, ReadBuffer}
use python_oracledb.Packet.Read.{here, num_bytes_left, move, copy, get_rest}
use python_oracledb.Packet.Chunks.{contents, append_chunk-Appended}
use python_oracledb.Packet.Await.{payload, payloads, Awaits, wait_lem}

pub drop-append :
    (n : ℕ) (xs ys : List ℕ) → drop n (xs ++ ys) ≡ drop n xs ++ drop (n - length xs) ys
drop-append n [] ys = let e : n - 0 ≡ n = omega arith in rw (e, drop-nil n) refl
drop-append zero (x ∷ xs) ys = let e : 0 - suc (length xs) ≡ 0 = omega arith in rw e refl
drop-append (suc n) (x ∷ xs) ys =
    let e : suc n - suc (length xs) ≡ n - length xs = omega arith in rw e (drop-append n xs ys)

pub take-append :
    (n : ℕ) (xs ys : List ℕ) → take n (xs ++ ys) ≡ take n xs ++ take (n - length xs) ys
take-append n [] ys = let e : n - 0 ≡ n = omega arith in rw (e, take-nil n) refl
take-append zero (x ∷ xs) ys = let e : 0 - suc (length xs) ≡ 0 = omega arith in rw e refl
take-append (suc n) (x ∷ xs) ys =
    let e : suc n - suc (length xs) ≡ n - length xs = omega arith in
    rw e (ap (λ zs. x ∷ zs) (take-append n xs ys))

-- The bytes from the current position on, in this packet and those that follow.
abbrev pub stream : ReadBuffer → List Packet → List ℕ
stream b ps = unread b.buffer ++ payloads ps

-- A step that collects the bytes `got` and leaves `rest` to be read.
pub record Collects (r : Result ReadBuffer) (b : ReadBuffer) (got rest : List ℕ) : Type 0 where
  pub after : ReadBuffer
  pub left : List Packet
  pub succeeds : r ≡ ok after
  pub awaits : Awaits after left
  pub collected : contents after.chunked_bytes_buf ≡ contents b.chunked_bytes_buf ++ got
  pub to_read : stream after left ≡ rest

module _ (k : ℕ) (b : ReadBuffer) (ps : List Packet) (w : Awaits b ps)
    (h : k ≤ length (unread b.buffer)) where
  pub take-here : take k (here b) ≡ take k (unread b.buffer)
  take-here = sym (
      take-take k (b.buffer.size - b.buffer.position) (here b)
        (omega (arith, h, length-unread b.buffer w.can_read)))

  split_unread : unread b.buffer ≡ take k (unread b.buffer) ++ drop k (unread b.buffer)
  split_unread = sym (take-append-drop k (unread b.buffer))

  size_taken : length (take k (unread b.buffer)) ≡ k
  size_taken = omega (arith, length-take k (unread b.buffer), h)

  pub moved-CanRead : CanRead (advance k b.buffer)
  moved-CanRead =
      let c =
        advance-CanRead (take k (unread b.buffer)) b.buffer (drop k (unread b.buffer)) w.can_read
          split_unread in
      subst (λ (n : ℕ). CanRead (advance n b.buffer)) size_taken c

  pub moved_unread : unread (advance k b.buffer) ≡ drop k (unread b.buffer)
  moved_unread =
      let u =
        unread-advance (take k (unread b.buffer)) b.buffer (drop k (unread b.buffer)) w.can_read
          split_unread in
      subst (λ (n : ℕ). unread (advance n b.buffer) ≡ drop k (unread b.buffer)) size_taken u

  -- The buffer after a piece of the current packet.
  pub piece-Awaits : (offset : ℕ) → Awaits (move k (copy true offset (take k (here b)) b)) ps
  unfolding copy
  piece-Awaits offset = record {
    can_read = moved-CanRead;
    is_sync = w.is_sync;
    in_turn = w.in_turn;
    saved = w.saved;
    all_data = w.all_data;
    coming_packets = w.coming_packets;
  }

  pub piece-contents :
      (offset : ℕ)
      → contents (copy true offset (take k (here b)) b).chunked_bytes_buf
        ≡ contents b.chunked_bytes_buf ++ take k (unread b.buffer)
  unfolding copy
  piece-contents offset =
      (append_chunk-Appended (take k (here b)) b.chunked_bytes_buf).0
      ∙ ap (λ xs. contents b.chunked_bytes_buf ++ xs) take-here

-- What is left to read after `n` bytes of the packets `ps`; the current packet is left when a byte
-- is wanted.
abbrev pub behind : ℕ → List ℕ → List ℕ → List ℕ
behind zero current bytes = current ++ bytes
behind (suc n) current bytes = drop (suc n) bytes

behind-drop :
    (n m : ℕ) (xs ys : List ℕ)
    → m ≡ suc n - length xs
    → behind m (drop (suc n) xs) ys ≡ drop (suc n) (xs ++ ys)
behind-drop n zero xs ys e =
    let z : suc n - length xs ≡ 0 = sym e in rw (drop-append (suc n) xs ys, z) refl
behind-drop n (suc m) xs ys e =
    rw (drop-append (suc n) xs ys, ← e, drop_all (suc n) xs (omega (arith, e))) refl

pub take-min : (n : ℕ) (xs : List ℕ) → take (min n (length xs)) xs ≡ take n xs
take-min zero xs = let e : min 0 (length xs) ≡ 0 = omega arith in rw e refl
take-min (suc n) [] = let e : min (suc n) 0 ≡ 0 = omega arith in rw e refl
take-min (suc n) (x ∷ xs) =
    let e : min (suc n) (suc (length xs)) ≡ suc (min n (length xs)) = omega arith in
    rw e (ap (λ ys. x ∷ ys) (take-min n xs))

pub drop-min : (n : ℕ) (xs : List ℕ) → drop (min n (length xs)) xs ≡ drop n xs
drop-min zero xs = let e : min 0 (length xs) ≡ 0 = omega arith in rw e refl
drop-min (suc n) [] = let e : min (suc n) 0 ≡ 0 = omega arith in rw e refl
drop-min (suc n) (x ∷ xs) =
    let e : min (suc n) (suc (length xs)) ≡ suc (min n (length xs)) = omega arith in
    rw e (drop-min n xs)

pub get_rest_lem :
    (fuel offset n : ℕ) (b : ReadBuffer) (ps : List Packet)
    → Awaits b ps
    → length ps ≤ fuel
    → n ≤ length (payloads ps)
    → Collects
        (get_rest fuel true offset n b)
        b
        (take n (payloads ps))
        (behind n (unread b.buffer) (payloads ps))
unfolding get_rest
get_rest_lem fuel offset zero b ps w f h = record {
  after = b;
  left = ps;
  succeeds = refl;
  awaits = w;
  collected = sym (append-nil (contents b.chunked_bytes_buf));
  to_read = refl;
}
get_rest_lem fuel offset (suc n) b [] w f h = absurd (omega (arith, h))
get_rest_lem zero offset (suc n) b (p ∷ ps) w f h = absurd (omega (arith, f))
get_rest_lem (suc fuel) offset (suc n) b (p ∷ ps) w f h =
    let o = wait_lem b p ps w in
    let b' = o.after in
    let k = min (suc n) (num_bytes_left b') in
    let m = suc n - k in
    let size : num_bytes_left b' ≡ length (payload p) =
      sym (length-unread b'.buffer o.awaits.can_read) ∙ ap length o.unread_payload in
    let fits : k ≤ length (unread b'.buffer) =
      omega (arith, length-unread b'.buffer o.awaits.can_read) in
    let d = move k (copy true offset (take k (here b')) b') in
    let rest =
      get_rest_lem fuel offset m d ps (piece-Awaits k b' ps o.awaits fits offset) (omega (arith, f))
        (omega (arith, h, size, length-append (payload p) (payloads ps))) in
    let whole : k ≡ min (suc n) (length (payload p)) = ap (min (suc n)) size in
    let first : take k (unread b'.buffer) ≡ take (suc n) (payload p) =
      ap (take k) o.unread_payload
      ∙ ap (λ j. take j (payload p)) whole
      ∙ take-min (suc n) (payload p) in
    let last : drop k (unread b'.buffer) ≡ drop (suc n) (payload p) =
      ap (drop k) o.unread_payload
      ∙ ap (λ j. drop j (payload p)) whole
      ∙ drop-min (suc n) (payload p) in
    let short : m ≡ suc n - length (payload p) = omega (arith, whole) in
    let old = contents b.chunked_bytes_buf in
    let copied : contents d.chunked_bytes_buf ≡ old ++ take (suc n) (payload p) =
      piece-contents k b' ps o.awaits fits offset
      ∙ ap (λ c. contents c ++ take k (unread b'.buffer)) o.same_chunks
      ∙ ap (λ xs. old ++ xs) first in
    let got : take (suc n) (payload p) ++ take m (payloads ps)
        ≡ take (suc n) (payload p ++ payloads ps) =
      ap (λ j. take (suc n) (payload p) ++ take j (payloads ps)) short
      ∙ sym (take-append (suc n) (payload p) (payloads ps)) in
    record {
      after = rest.after;
      left = rest.left;
      succeeds = rw o.waits rest.succeeds;
      awaits = rest.awaits;
      collected =
          rest.collected
          ∙ ap (λ xs. xs ++ take m (payloads ps)) copied
          ∙ append_assoc old (take (suc n) (payload p)) (take m (payloads ps))
          ∙ ap (λ xs. old ++ xs) got;
      to_read =
          rest.to_read
          ∙ ap (λ xs. behind m xs (payloads ps)) (moved_unread k b' ps o.awaits fits ∙ last)
          ∙ behind-drop n m (payload p) (payloads ps) short;
    }
