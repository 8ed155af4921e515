-- ===== src/Bytes/Or.antt =====
-- `|` of the bytes of a number, each shifted to its place, is their sum.
use python_oracledb.Prelude.{ℕ, ◌+◌, ◌*◌, ◌/◌, ◌%◌, ◌^◌, ◌<◌, ◌≡◌, bit_or, arith}
use python_oracledb.Prelude.Bits.{bit_or_fields}
use python_oracledb.Bytes.{IsByte}
use native.Mathlib.Nat.{div-add-mod, mul_comm}

pub or_add : (k x r : ℕ) → x % 2 ^ k ≡ 0 → r < 2 ^ k → bit_or x r ≡ x + r
or_add k x r e h =
    ground
      (arith, div-add-mod x (2 ^ k), mul_comm (2 ^ k) (x / 2 ^ k), bit_or_fields k (x / 2 ^ k) r h)

module _ (a b c d : ℕ) (hb : IsByte b) (hc : IsByte c) (hd : IsByte d) where
  pub or_four :
      bit_or (bit_or (bit_or (a * 2 ^ 24) (b * 2 ^ 16)) (c * 2 ^ 8)) d
      ≡ a * 2 ^ 24 + b * 2 ^ 16 + c * 2 ^ 8 + d
  or_four =
      let e₁ = or_add 24 (a * 2 ^ 24) (b * 2 ^ 16) (omega arith) (omega arith) in
      let e₂ = or_add 16 (a * 2 ^ 24 + b * 2 ^ 16) (c * 2 ^ 8) (omega arith) (omega arith) in
      let e₃ = or_add 8 (a * 2 ^ 24 + b * 2 ^ 16 + c * 2 ^ 8) d (omega arith) (omega arith) in
      ground arith

-- The upper half of a 64-bit number, and its lower half under any multiple of `2 ^ 24`.
pub or_high_four :
    (a b c d : ℕ)
    → IsByte b
    → IsByte c
    → IsByte d
    → bit_or (bit_or (bit_or (a * 2 ^ 56) (b * 2 ^ 48)) (c * 2 ^ 40)) (d * 2 ^ 32)
      ≡ (a * 2 ^ 24 + b * 2 ^ 16 + c * 2 ^ 8 + d) * 2 ^ 32
or_high_four a b c d hb hc hd =
    let e₁ = or_add 56 (a * 2 ^ 56) (b * 2 ^ 48) (omega arith) (omega arith) in
    let e₂ = or_add 48 (a * 2 ^ 56 + b * 2 ^ 48) (c * 2 ^ 40) (omega arith) (omega arith) in
    let e₃ =
      or_add 40 (a * 2 ^ 56 + b * 2 ^ 48 + c * 2 ^ 40) (d * 2 ^ 32) (omega arith) (omega arith) in
    ground arith

pub or_low_three :
    (x f g h : ℕ)
    → x % 2 ^ 24 ≡ 0
    → IsByte f
    → IsByte g
    → IsByte h
    → bit_or (bit_or (bit_or x (f * 2 ^ 16)) (g * 2 ^ 8)) h ≡ x + (f * 2 ^ 16 + g * 2 ^ 8 + h)
or_low_three x f g h m hf hg hh =
    let e₂ = or_add 24 x (f * 2 ^ 16) m (omega arith) in
    let e₃ = or_add 16 (x + f * 2 ^ 16) (g * 2 ^ 8) (omega arith) (omega arith) in
    let e₄ = or_add 8 (x + f * 2 ^ 16 + g * 2 ^ 8) h (omega arith) (omega arith) in ground arith

pub or_eight :
    (a b c d e f g h : ℕ)
    → IsByte b
    → IsByte c
    → IsByte d
    → IsByte e
    → IsByte f
    → IsByte g
    → IsByte h
    → bit_or
        (bit_or
          (bit_or
            (bit_or
              (bit_or (bit_or (bit_or (a * 2 ^ 56) (b * 2 ^ 48)) (c * 2 ^ 40)) (d * 2 ^ 32))
              (e * 2 ^ 24))
            (f * 2 ^ 16))
          (g * 2 ^ 8))
        h
      ≡ a * 2 ^ 56
        + b * 2 ^ 48
        + c * 2 ^ 40
        + d * 2 ^ 32
        + (e * 2 ^ 24 + f * 2 ^ 16 + g * 2 ^ 8 + h)
or_eight a b c d e f g h hb hc hd he hf hg hh =
    let high = (a * 2 ^ 24 + b * 2 ^ 16 + c * 2 ^ 8 + d) * 2 ^ 32 in
    rw
      (
        or_high_four a b c d hb hc hd,
        or_add 32 high (e * 2 ^ 24) (omega arith) (omega arith),
        or_low_three (high + e * 2 ^ 24) f g h (omega arith) hf hg hh,
      )
      (omega arith)
