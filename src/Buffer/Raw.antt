-- ===== src/Buffer/Raw.antt =====
-- Buffer.write_raw: two rounds of its loop are enough, and a plain buffer without room raises.
use python_oracledb.Prelude.{
  ℕ, suc, ◌+◌, ◌-◌, ◌*◌, ◌^◌, ◌≤◌, ◌<◌, min, ◌≡◌, refl, ap, ◌∙◌, inl, inr, arith, List, ◌++◌,
  length, take, drop, length-append, length-take, length-drop, ltb, ◌==◌, take-append-drop,
  take_all, Bool-cases, false, true,
}
use mathlib.Core.List.{append_assoc}
use python_oracledb.Prelude.Int.{sub_ℕ, pos}
use python_oracledb.Errors.{ok, err, buffer_length_insufficient}
use python_oracledb.Buffer.{
  Buffer, plain, growable, store, write_more_data, grow, write_raw, write_raw_loop, then_ok,
  write_more_data_of,
}
use python_oracledb.Buffer.Room.{written, CanTake, Roomier, grow_lem, CanTake-mono, Roomier-refl}
use python_oracledb.Buffer.Append.{Appended, Appends, store_into, store_lem}

-- A round that has room for everything is the last one.
round_fits :
    (fuel : ℕ) (bytes : List ℕ) (b c : Buffer)
    → b.position + length bytes ≤ b.max_size
    → store bytes b ≡ ok (tt, c)
    → write_raw_loop (suc fuel) bytes b ≡ ok (tt, c)
unfolding write_raw_loop
round_fits fuel bytes b c h e =
    let m : min (b.max_size - b.position) (length bytes) ≡ length bytes = omega arith in
    let t : (length bytes == length bytes) ≡ true = ground arith in
    rw (m, take_all (length bytes) bytes (omega arith)) (then_ok (store bytes) _ b c e ∙ rw t)

-- A round that fills a growable buffer up and makes more room.
round_splits :
    (fuel n : ℕ) (bytes : List ℕ) (b c : Buffer)
    → n ≡ b.max_size - b.position
    → n < length bytes
    → store (take n bytes) b ≡ ok (tt, c)
    → c.class ≡ growable
    → write_raw_loop (suc fuel) bytes b
      ≡ write_raw_loop fuel (drop n bytes) (grow (sub_ℕ c.max_size c.position) (length bytes) c)
unfolding write_raw_loop write_more_data
round_splits fuel n bytes b c en h e g =
    let m : min (b.max_size - b.position) (length bytes) ≡ n = omega arith in
    let t : (n == length bytes) ≡ false = ground arith in
    rw m (then_ok (store (take n bytes)) _ b c e ∙ rw (t, g, write_more_data_of))

-- Bytes stored before and after more room was made are stored in a row.
glue :
    (n : ℕ) (bytes : List ℕ) (b c c' d : Buffer)
    → Appended (take n bytes) b c
    → Roomier c c'
    → Appended (drop n bytes) c' d
    → d.max_size ≤ b.position + 2 * length bytes + 32767
    → Appended bytes b d
glue n bytes b c c' d a r a' l = record {
  bytes_written = rw (
    a'.bytes_written,
    r.same_written,
    a.bytes_written,
    append_assoc (written b) (take n bytes) (drop n bytes),
    take-append-drop n bytes,
  );
  moved = omega (
    arith,
    a'.moved,
    r.same_position,
    a.moved,
    length-append (take n bytes) (drop n bytes),
    ap length (take-append-drop n bytes),
  );
  kept_class = rw (a'.kept_class, r.same_class) a.kept_class;
  now_sized = a'.now_sized;
  now_within = a'.now_within;
  not_smaller = omega (arith, a.not_smaller, r.no_smaller, a'.not_smaller);
  kept_size = a'.kept_size ∙ r.same_size ∙ a.kept_size;
  bounded = inr l;
}

-- The two rounds on a growable buffer that is too short.
module _ (bytes : List ℕ) (later : ℕ) (b : Buffer) (g : b.class ≡ growable)
    (sized : length b.contents ≡ b.max_size) (within : b.position ≤ b.max_size)
    (short : b.max_size < b.position + length bytes)
    (small : b.position + 2 * (length bytes + later) + 32767 < 2 ^ 62) where
  abbrev room_left : ℕ
  room_left = b.max_size - b.position

  part_length : length (take room_left bytes) ≡ room_left
  part_length = omega (arith, length-take room_left bytes)

  rest_length : length (drop room_left bytes) ≡ length bytes - room_left
  rest_length = length-drop room_left bytes

  abbrev WritesRaw : Type 0
  WritesRaw = (d : Buffer) × (write_raw bytes b ≡ ok (tt, d)) × Appended bytes b d × CanTake later d

  second_round :
      (c c' d : Buffer)
      → store (take room_left bytes) b ≡ ok (tt, c)
      → grow (sub_ℕ c.max_size c.position) (length bytes) c ≡ c'
      → store (drop room_left bytes) c' ≡ ok (tt, d)
      → Appended (take room_left bytes) b c
      → Roomier c c'
      → Appended (drop room_left bytes) c' d
      → c'.position + length (drop room_left bytes) ≤ c'.max_size
      → d.max_size ≤ b.position + 2 * length bytes + 32767
      → WritesRaw
  unfolding write_raw
  second_round c c' d e₁ e₂ e₃ a r a' fits limit = (
    d,
    round_splits 1 room_left bytes b c refl (omega arith) e₁ (rw a.kept_class g)
        ∙ rw e₂ (round_fits 0 (drop room_left bytes) c' d fits e₃),
    whole,
    record {
      sized = a'.now_sized;
      within = a'.now_within;
      room = inl (rw whole.kept_class g, omega (arith, limit, small), omega (arith, whole.moved));
    },
  )
    where
      whole : Appended bytes b d
      whole = glue room_left bytes b c c' d a r a' limit

  first_round :
      (c : Buffer)
      → store (take room_left bytes) b ≡ ok (tt, c)
      → Appended (take room_left bytes) b c
      → c.max_size ≡ b.max_size
      → WritesRaw
  first_round c e a same =
      let full : c.position ≡ c.max_size = omega (arith, a.moved, part_length) in
      let (r, lo, hi) =
        grow_lem (sub_ℕ c.max_size c.position) (length bytes) (length bytes) c (ground arith)
          a.now_sized a.now_within (omega arith) in
      regrown c e a (grow (sub_ℕ c.max_size c.position) (length bytes) c) refl r
        (omega (arith, r.same_position, rest_length)) (omega (arith, same))
    where
      regrown :
          (c : Buffer)
          → store (take room_left bytes) b ≡ ok (tt, c)
          → Appended (take room_left bytes) b c
          → (c' : Buffer) → grow (sub_ℕ c.max_size c.position) (length bytes) c ≡ c'
          → Roomier c c'
          → c'.position + length (drop room_left bytes) ≤ c'.max_size
          → c'.max_size ≤ b.position + 2 * length bytes + 32767
          → WritesRaw
      regrown c e a c' e' r fits limit =
          let (d, e'', a', same) = store_lem (drop room_left bytes) c' r.still_sized fits in
          second_round c c' d e e' e'' a r a' fits (omega (arith, same))

  write_raw_short : WritesRaw
  write_raw_short =
      let (c, e, a, same) = store_lem (take room_left bytes) b sized (omega (arith, part_length)) in
      first_round c e a same

-- `write_raw` appends its bytes to a growable buffer of any size, and to a plain one with room.
pub write_raw-Appends : (bytes : List ℕ) → Appends (write_raw bytes) bytes
unfolding write_raw
write_raw-Appends bytes later b can =
    elim (Bool-cases (ltb b.max_size (b.position + length bytes))) [
      | inl short ↦ elim can.room [
        | inl (g, _, p) ↦ write_raw_short bytes later b g can.sized can.within (ground arith) p
        | inr enough ↦ absurd (ground arith)
      ]
      | inr long ↦
          let fits : b.position + length bytes ≤ b.max_size = ground arith in
          let (c, e, a, rest) =
            store_into bytes later b b can (Roomier-refl b can.sized) fits (inl refl) in
          (c, round_fits 1 bytes b c fits e, a, rest)
    ]

-- A plain buffer that is too short raises: it copies what fits, and none of the bytes wanted are
-- available after that.
pub write_raw_overflow :
    (bytes : List ℕ) (b : Buffer)
    → b.class ≡ plain
    → length b.contents ≡ b.max_size
    → b.position ≤ b.max_size
    → b.max_size < b.position + length bytes
    → write_raw bytes b ≡ err (buffer_length_insufficient (length bytes) (pos 0))
unfolding write_raw write_raw_loop write_more_data
write_raw_overflow bytes b p sized w h =
    let n = b.max_size - b.position in
    let part = length-take n bytes in
    let (c, e, a, same) = store_lem (take n bytes) b sized (omega (arith, part)) in
    stops c e (a.kept_class ∙ p) (omega (arith, a.moved, part))
  where
    stops :
        (c : Buffer)
        → store (take (b.max_size - b.position) bytes) b ≡ ok (tt, c)
        → c.class ≡ plain
        → c.position ≡ c.max_size
        → write_raw bytes b ≡ err (buffer_length_insufficient (length bytes) (pos 0))
    stops c e k full =
        let m : min (b.max_size - b.position) (length bytes) ≡ b.max_size - b.position =
          omega arith in
        let t : (b.max_size - b.position == length bytes) ≡ false = ground arith in
        let z : sub_ℕ c.max_size c.position ≡ pos 0 = ground arith in
        rw m (
          then_ok (store (take (b.max_size - b.position) bytes)) _ b c e
          ∙ rw t (rw (z, k, write_more_data_of)))

-- On a buffer whose memory has its maximum size, whose position is within it, and that has room for
-- the bytes or is growable and its size and position are far below 2 ^ 62: `write_raw` succeeds, the
-- bytes written before are kept and followed by the new ones, and the position moves by their number.
pub write_raw_lem :
    (bytes : List ℕ) (b : Buffer)
    → CanTake (length bytes) b
    → (b' : Buffer) × (write_raw bytes b ≡ ok (tt, b'))
      × (written b' ≡ written b ++ bytes)
      × (b'.position ≡ b.position + length bytes)
write_raw_lem bytes b can =
    let (b', e, a, _) =
      write_raw-Appends bytes 0 b
        (CanTake-mono (length bytes) (length bytes + 0) b (omega arith) can) in
    (b', e, a.bytes_written, a.moved)
