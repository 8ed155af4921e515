-- ===== src/Buffer/Room.antt =====
-- How a write makes room: GrowableBuffer._write_more_data and the sizes that it chooses.
use python_oracledb.Prelude.{
  ℕ, ◌+◌, ◌-◌, ◌*◌, ◌/◌, ◌%◌, ◌^◌, ◌≤◌, ◌<◌, ◌≡◌, refl, ◌∙◌, ◌⊎◌, inl, inr, arith, List, length,
  take, replicate, length-append, length-replicate, Bool-cases, ltb, take-append_left,
}
use python_oracledb.Prelude.Int.{ℤ, sub_ℕ}
use python_oracledb.Prelude.Bits.{bit_and_split, bit_and_mask}
use python_oracledb.Errors.{ok}
use python_oracledb.Buffer.{Buffer, growable, round_up, grow, resize, ensure_room, num_bytes_needed}

-- The bytes before the current position.
abbrev pub written : Buffer → List ℕ
written b = take b.position b.contents

-- A buffer that can take `n` more bytes: it is growable and far below the limit of a machine word,
-- or has the room already.
pub record CanTake (n : ℕ) (b : Buffer) : Type 0 where
  pub sized : length b.contents ≡ b.max_size
  pub within : b.position ≤ b.max_size
  pub room :
      ((b.class ≡ growable) × (b.max_size < 2 ^ 62) × (b.position + 2 * n + 32767 < 2 ^ 62))
      ⊎ (b.position + n ≤ b.max_size)

div_mod_split : (y : ℕ) → y ≡ y / 2 ^ 15 * 2 ^ 15 + y % 2 ^ 15
div_mod_split y = omega arith

pub CanTake-mono : (m n : ℕ) (b : Buffer) → n ≤ m → CanTake m b → CanTake n b
CanTake-mono m n b h can = record {
  sized = can.sized;
  within = can.within;
  room = elim can.room [
    | inl (g, small, p) ↦ inl (g, small, omega arith)
    | inr enough ↦ inr (omega arith)
  ];
}

-- `~(TNS_CHUNK_SIZE - 1)` keeps bit 0 and clears bits 1 to 14.
round_up_lem : (x : ℕ) → x < 2 ^ 63 → round_up x ≡ (x + 32766) / 2 ^ 15 * 2 ^ 15 + (x + 32766) % 2
unfolding round_up
round_up_lem x h = rw (div_mod_split (x + 32767 - 1)) (
    bit_and_split 15 ((x + 32767 - 1) / 2 ^ 15) ((x + 32767 - 1) % 2 ^ 15) (2 ^ 49 - 1) 1
      (omega arith) (omega arith)
    ∙ omega (
      arith,
      bit_and_mask 49 ((x + 32767 - 1) / 2 ^ 15),
      bit_and_mask 1 ((x + 32767 - 1) % 2 ^ 15),
    ))

-- Rounding up reaches at least the size asked for, although 32767 is no power of two.
pub round_up_bounds : (x : ℕ) → x < 2 ^ 63 → (x ≤ round_up x) × (round_up x ≤ x + 32767)
round_up_bounds x h = rw (round_up_lem x h) (omega arith, omega arith)

-- Making room changes none of the bytes written.
pub record Roomier (b b' : Buffer) : Type 0 where
  pub same_written : written b' ≡ written b
  pub same_position : b'.position ≡ b.position
  pub same_class : b'.class ≡ b.class
  pub same_size : b'.size ≡ b.size
  pub still_sized : length b'.contents ≡ b'.max_size
  pub no_smaller : b.max_size ≤ b'.max_size

pub Roomier-refl : (b : Buffer) → length b.contents ≡ b.max_size → Roomier b b
Roomier-refl b s = record {
  same_written = refl;
  same_position = refl;
  same_class = refl;
  same_size = refl;
  still_sized = s;
  no_smaller = omega arith;
}

resize_lem :
    (n : ℕ) (b : Buffer)
    → length b.contents ≡ b.max_size
    → b.position ≤ b.max_size
    → b.max_size ≤ n
    → Roomier b (resize n b)
unfolding resize
resize_lem n b s w r = record {
  same_written = take-append_left b.position b.contents _ (omega arith);
  same_position = refl;
  same_class = refl;
  same_size = refl;
  still_sized = omega (
    arith,
    length-append b.contents (replicate (n - b.max_size) 0),
    length-replicate {A = ℕ} (n - b.max_size) 0,
  );
  no_smaller = r;
}

pub grow_lem :
    (available : ℤ) (wanted k : ℕ) (b : Buffer)
    → num_bytes_needed available wanted ≡ k
    → length b.contents ≡ b.max_size
    → b.position ≤ b.max_size
    → b.max_size + k < 2 ^ 63
    → Roomier b (grow available wanted b)
      × (b.max_size + k ≤ (grow available wanted b).max_size)
      × ((grow available wanted b).max_size ≤ b.max_size + k + 32767)
unfolding grow
grow_lem available wanted k b e s w r =
    let (lo, hi) = round_up_bounds (b.max_size + k) r in
    rw e (resize_lem _ b s w (omega arith), lo, hi)

-- What `ensure_room` leaves.
pub record Ensured (n : ℕ) (b b' : Buffer) : Type 0 where
  pub roomier : Roomier b b'
  pub fits : b'.position + n ≤ b'.max_size
  pub limited : (b'.max_size ≡ b.max_size) ⊎ (b'.max_size ≤ b.position + 2 * n + 32767)

ensure_room_grows :
    (n : ℕ) (b : Buffer)
    → length b.contents ≡ b.max_size
    → b.position ≤ b.max_size
    → b.max_size < b.position + n
    → b.position + 2 * n + 32767 < 2 ^ 62
    → Ensured n b (grow (sub_ℕ b.max_size b.position) n b)
ensure_room_grows n b s w x r =
    let (g, lo, hi) =
      grow_lem (sub_ℕ b.max_size b.position) n (b.position + n - b.max_size) b (ground arith) s w
        (omega arith) in
    record { roomier = g; fits = omega (arith, g.same_position); limited = inr (omega arith) }

pub ensure_room_lem :
    (n : ℕ) (b : Buffer)
    → CanTake n b
    → (b' : Buffer) × (ensure_room n b ≡ ok (tt, b')) × Ensured n b b'
unfolding ensure_room
ensure_room_lem n b c = elim (Bool-cases (ltb b.max_size (b.position + n))) [
  | inl short ↦ elim c.room [
    | inl (g, _, p) ↦ (
      grow (sub_ℕ b.max_size b.position) n b,
      ground arith,
      ensure_room_grows n b c.sized c.within (ground arith) p,
    )
    | inr enough ↦ absurd (ground arith)
  ]
  | inr long ↦ (
    b,
    rw long,
    record { roomier = Roomier-refl b c.sized; fits = ground arith; limited = inl refl },
  )
]
