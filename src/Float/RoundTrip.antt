-- ===== src/Float/RoundTrip.antt =====
-- src/oracledb/impl/base/buffer.pyx: the canonical bytes of a float or a double, and back.
use python_oracledb.Prelude.{
  ℕ, ◌+◌, ◌*◌, ◌/◌, ◌%◌, ◌^◌, ◌≤◌, ◌<◌, ◌≡◌, refl, ap, ◌∙◌, bit_and, bit_or, arith, Bool-cases, inl,
  inr, ltb,
}
use python_oracledb.Prelude.Bits.{
  bit_and_top, bit_and_low7, bit_and_mask, bit_or_split, bit_or-zero, zero-bit_or,
}
use python_oracledb.Bytes.{IsByte}
use python_oracledb.Bytes.Or.{or_four, or_add}
use python_oracledb.Buffer.Integer.{extend_int}
use python_oracledb.Float.{
  invert, byte_at, canonical_eight, canonical_four, double_bytes, float_bytes, int_of_four,
  double_of_bytes, parse_binary_double, parse_binary_float,
}

byte_at_lem : (v k : ℕ) → byte_at v k ≡ v / 2 ^ k % 256
byte_at_lem v k = bit_and_mask 8 (v / 2 ^ k)

set_top : (b : ℕ) → b < 128 → bit_or b 0x80 ≡ b + 128
set_top b h = ground (arith, bit_or_split 7 0 b 1 0 h (omega arith), bit_or-zero b, zero-bit_or 1)

-- What the canonical form does to the first byte, and what undoes it.
module _ (b : ℕ) (h : b < 128) where
  top_clear : bit_and b 0x80 ≡ 0
  top_clear = omega (arith, bit_and_top b (omega arith))

  top_set : bit_and (bit_or b 0x80) 0x80 ≡ 128
  top_set =
      ap (λ x. bit_and x 0x80) (set_top b h) ∙ omega (arith, bit_and_top (b + 128) (omega arith))

  top_removed : bit_and (bit_or b 0x80) 0x7f ≡ b
  top_removed = ap (λ x. bit_and x 0x7f) (set_top b h) ∙ omega (arith, bit_and_low7 (b + 128))

module _ (b : ℕ) (l : 128 ≤ b) (h : IsByte b) where
  top_found : bit_and b 0x80 ≡ 128
  top_found = omega (arith, bit_and_top b h)

  top_inverted : bit_and (invert b) 0x80 ≡ 0
  top_inverted = omega (arith, bit_and_top (invert b) (omega arith))

invert-invert : (b : ℕ) → IsByte b → invert (invert b) ≡ b
invert-invert b h = omega arith

-- The low 32 bits of four bytes as an `int`.
int_of_four_lem :
    (a b c d : ℕ)
    → IsByte a
    → IsByte b
    → IsByte c
    → IsByte d
    → int_of_four a b c d % 2 ^ 32 ≡ a * 2 ^ 24 + b * 2 ^ 16 + c * 2 ^ 8 + d
unfolding extend_int
int_of_four_lem a b c d ha hb hc hd = ground (arith, or_four a b c d hb hc hd)

-- Undoing the canonical form of the first byte.
pub parse_float-canonical :
    (a b c d : ℕ)
    → IsByte a
    → IsByte b
    → IsByte c
    → IsByte d
    → parse_binary_float (canonical_four a b c d) ≡ a * 2 ^ 24 + b * 2 ^ 16 + c * 2 ^ 8 + d
unfolding canonical_four parse_binary_float
parse_float-canonical a b c d ha hb hc hd = elim (Bool-cases (ltb a 128)) [
  | inl lo ↦
      let low : a < 128 = ground arith in
      rw (canonical_four, top_clear a low, parse_binary_float, top_set a low, top_removed a low)
        (int_of_four_lem a b c d ha hb hc hd)
  | inr hi ↦
      let high : 128 ≤ a = ground arith in
      rw
        (
          canonical_four,
          top_found a high ha,
          parse_binary_float,
          top_inverted a high ha,
          invert-invert a ha,
          invert-invert b hb,
          invert-invert c hc,
          invert-invert d hd,
        )
        (int_of_four_lem a b c d ha hb hc hd)
]

-- For every bit pattern of 32 bits: parsing the canonical bytes of a float gives the float back.
pub parse_binary_float-float_bytes : (v : ℕ) → v < 2 ^ 32 → parse_binary_float (float_bytes v) ≡ v
unfolding float_bytes
parse_binary_float-float_bytes v h =
    rw (byte_at_lem v 24, byte_at_lem v 16, byte_at_lem v 8, bit_and_mask 8 v)
      (parse_float-canonical (v / 2 ^ 24 % 256) (v / 2 ^ 16 % 256) (v / 2 ^ 8 % 256) (v % 256)
          (omega arith) (omega arith) (omega arith) (omega arith)
        ∙ omega (arith, h))

double_of_bytes_lem :
    (a b c d e f g h : ℕ)
    → IsByte a
    → IsByte b
    → IsByte c
    → IsByte d
    → IsByte e
    → IsByte f
    → IsByte g
    → IsByte h
    → double_of_bytes a b c d e f g h
      ≡ (a * 2 ^ 24 + b * 2 ^ 16 + c * 2 ^ 8 + d) * 2 ^ 32
        + (e * 2 ^ 24 + f * 2 ^ 16 + g * 2 ^ 8 + h)
unfolding double_of_bytes
double_of_bytes_lem a b c d e f g h ha hb hc hd he hf hg hh =
    let high = int_of_four a b c d in
    let low = int_of_four e f g h in
    let shifted : high * 2 ^ 32 % 2 ^ 64 ≡ high % 2 ^ 32 * 2 ^ 32 = omega arith in
    let masked : bit_and low 0xffffffff ≡ low % 2 ^ 32 = bit_and_mask 32 low in
    ap (λ x. bit_or x (bit_and low 0xffffffff)) shifted
    ∙ ap (bit_or (high % 2 ^ 32 * 2 ^ 32)) masked
    ∙ or_add 32 (high % 2 ^ 32 * 2 ^ 32) (low % 2 ^ 32) (omega arith) (omega arith)
    ∙ omega (arith, int_of_four_lem a b c d ha hb hc hd, int_of_four_lem e f g h he hf hg hh)

parse_double-canonical :
    (a b c d e f g h : ℕ)
    → IsByte a
    → IsByte b
    → IsByte c
    → IsByte d
    → IsByte e
    → IsByte f
    → IsByte g
    → IsByte h
    → parse_binary_double (canonical_eight a b c d e f g h) ≡ double_of_bytes a b c d e f g h
unfolding canonical_eight parse_binary_double
parse_double-canonical a b c d e f g h ha hb hc hd he hf hg hh = elim (Bool-cases (ltb a 128)) [
  | inl lo ↦
      let low : a < 128 = ground arith in
      rw (canonical_eight, top_clear a low, parse_binary_double, top_set a low, top_removed a low)
        refl
  | inr hi ↦
      let high : 128 ≤ a = ground arith in
      rw
        (
          canonical_eight,
          top_found a high ha,
          parse_binary_double,
          top_inverted a high ha,
          invert-invert a ha,
          invert-invert b hb,
          invert-invert c hc,
          invert-invert d hd,
          invert-invert e he,
          invert-invert f hf,
          invert-invert g hg,
          invert-invert h hh,
        )
        refl
]

-- For every bit pattern of 64 bits: parsing the canonical bytes of a double gives the double back.
pub parse_binary_double-double_bytes :
    (v : ℕ) → v < 2 ^ 64 → parse_binary_double (double_bytes v) ≡ v
unfolding double_bytes
parse_binary_double-double_bytes v h =
    let byte = λ (k : ℕ). v / 2 ^ k % 256 in
    rw
      (
        byte_at_lem v 56,
        byte_at_lem v 48,
        byte_at_lem v 40,
        byte_at_lem v 32,
        byte_at_lem v 24,
        byte_at_lem v 16,
        byte_at_lem v 8,
        bit_and_mask 8 v,
      )
      (parse_double-canonical (v / 2 ^ 56 % 256) (v / 2 ^ 48 % 256) (v / 2 ^ 40 % 256)
          (v / 2 ^ 32 % 256) (v / 2 ^ 24 % 256) (v / 2 ^ 16 % 256) (v / 2 ^ 8 % 256) (v % 256)
          (omega arith) (omega arith) (omega arith) (omega arith) (omega arith) (omega arith)
          (omega arith) (omega arith)
        ∙ double_of_bytes_lem (v / 2 ^ 56 % 256) (v / 2 ^ 48 % 256) (v / 2 ^ 40 % 256)
            (v / 2 ^ 32 % 256) (v / 2 ^ 24 % 256) (v / 2 ^ 16 % 256) (v / 2 ^ 8 % 256) (v % 256)
            (omega arith) (omega arith) (omega arith) (omega arith) (omega arith) (omega arith)
            (omega arith) (omega arith)
        ∙ omega (arith, h))
