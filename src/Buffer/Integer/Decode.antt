-- ===== src/Buffer/Integer/Decode.antt =====
-- Reading the universal format back. In `_unpack_int` a byte with its top bit set, shifted by 24 as
-- a C `int`, is negative: the conversion to 64 bits copies its sign to the upper half.
use python_oracledb.Prelude.{
  ℕ, suc, ◌+◌, ◌-◌, ◌*◌, ◌/◌, ◌%◌, ◌^◌, ◌≤◌, ◌<◌, ◌≡◌, refl, sym, ap, ◌∙◌, arith, Bool, true, false,
  List, [], ◌∷◌, length, ltb, leb, ◌==◌, if◌then◌else◌, Bool-cases, inl, inr, bit_and, bit_or,
}
use mathlib.Core.Path.{subst}
use python_oracledb.Prelude.Bits.{bit_and_top, bit_or_split, bit_or_ones, zero-bit_or}
use python_oracledb.Bytes.{be_bytes, IsByte}
use python_oracledb.Bytes.Or.{or_four, or_eight, or_add, or_high_four, or_low_three}
use python_oracledb.Buffer.{M, pure, get_raw}
use python_oracledb.Buffer.Append.{length-be_bytes}
use python_oracledb.Buffer.Stream.{Reads, get_raw-Reads, bind-Reads, pure-Reads, get_raw_map-Reads}
use python_oracledb.Buffer.Integer.{
  head_byte, check_length, get_int_length_and_sign, extend_int, unpack_int, read_unsigned, read_ub2,
  read_ub4, read_ub8,
}
use python_oracledb.Buffer.Integer.Universal.{ub_bytes}

check_length-ok :
    (allowed : Bool) (m n : ℕ) → n < 128 → n ≤ m → check_length allowed m n ≡ pure (n, false)
unfolding check_length
check_length-ok allowed m n h l =
    let t : (bit_and n 0x80 == 0x80) ≡ false = ground (arith, bit_and_top n) in
    let u : ltb m n ≡ false = ground arith in rw (t, u)

pub get_length-Reads :
    (allowed : Bool) (m n : ℕ)
    → n < 128
    → n ≤ m
    → Reads (get_int_length_and_sign allowed m) (n ∷ []) (n, false)
unfolding get_int_length_and_sign
get_length-Reads allowed m n h l =
    bind-Reads (get_raw 1) (λ ptr. check_length allowed m (head_byte ptr)) (n ∷ []) []
      (get_raw-Reads (n ∷ [])) (rw (check_length-ok allowed m n h l) (pure-Reads (n, false)))

read_unsigned-Reads :
    (m bits n : ℕ) (bytes : List ℕ)
    → length bytes ≡ suc n
    → suc n < 128
    → suc n ≤ m
    → Reads (read_unsigned m bits) (suc n ∷ bytes) (unpack_int bytes % 2 ^ bits)
unfolding read_unsigned
read_unsigned-Reads m bits n bytes e h l =
    bind-Reads (get_int_length_and_sign false m) _ (suc n ∷ []) bytes
      (get_length-Reads false m (suc n) h l)
      (let t : (suc n == 0) ≡ false = ground arith in
        rw t (get_raw_map-Reads (λ ptr. unpack_int ptr % 2 ^ bits) (suc n) bytes e))

unpack_two : (v : ℕ) → v < 2 ^ 16 → unpack_int (be_bytes 2 v) ≡ v
unfolding unpack_int be_bytes
unpack_two v h =
    or_add 8 (v / 256 % 256 * 2 ^ 8) (v / 1 % 256) (omega arith) (omega arith) ∙ omega arith

unpack_four : (v : ℕ) → v < 2 ^ 32 → unpack_int (be_bytes 4 v) ≡ extend_int v
unfolding unpack_int be_bytes
unpack_four v h = ap extend_int whole
  where
    whole :
        bit_or
          (bit_or
            (bit_or (v / 256 ^ 3 % 256 * 2 ^ 24) (v / 256 ^ 2 % 256 * 2 ^ 16))
            (v / 256 ^ 1 % 256 * 2 ^ 8))
          (v / 256 ^ 0 % 256)
        ≡ v
    whole =
        or_four (v / 256 ^ 3 % 256) (v / 256 ^ 2 % 256) (v / 256 % 256) (v / 1 % 256) (omega arith)
          (omega arith) (omega arith)
        ∙ omega arith

-- What `_unpack_int` makes of the eight bytes of `v`.
abbrev pub smear : ℕ → ℕ
smear v = if v / 2 ^ 31 % 2 == 0 then v else v % 2 ^ 32 + (2 ^ 64 - 2 ^ 32)

-- The upper half of a word is lost under the copies of the sign.
or_sign :
    (x e : ℕ)
    → x < 2 ^ 32
    → e < 2 ^ 32
    → bit_or (x * 2 ^ 32) ((2 ^ 32 - 1) * 2 ^ 32 + e) ≡ (2 ^ 32 - 1) * 2 ^ 32 + e
or_sign x e h k =
    let s = bit_or_split 32 x 0 (2 ^ 32 - 1) e (omega arith) k in
    ground (arith, s, bit_or_ones 32 x h, zero-bit_or e)

module _ (a b c d e f g h : ℕ) (hb : IsByte b) (hc : IsByte c) (hd : IsByte d) (he : IsByte e)
    (hf : IsByte f) (hg : IsByte g) (hh : IsByte h) where
  unpack_plain :
      e < 128
      → unpack_int (a ∷ b ∷ c ∷ d ∷ e ∷ f ∷ g ∷ h ∷ [])
        ≡ a * 2 ^ 56
          + b * 2 ^ 48
          + c * 2 ^ 40
          + d * 2 ^ 32
          + (e * 2 ^ 24 + f * 2 ^ 16 + g * 2 ^ 8 + h)
  unfolding unpack_int extend_int
  unpack_plain small =
      let t : ltb (e * 2 ^ 24) (2 ^ 31) ≡ true = ground arith in
      rw t (or_eight a b c d e f g h hb hc hd he hf hg hh)

  unpack_smeared :
      IsByte a
      → 128 ≤ e
      → unpack_int (a ∷ b ∷ c ∷ d ∷ e ∷ f ∷ g ∷ h ∷ [])
        ≡ (2 ^ 32 - 1) * 2 ^ 32 + (e * 2 ^ 24 + f * 2 ^ 16 + g * 2 ^ 8 + h)
  unfolding unpack_int extend_int
  unpack_smeared ha large =
      let t : ltb (e * 2 ^ 24) (2 ^ 31) ≡ false = ground arith in
      let high = a * 2 ^ 24 + b * 2 ^ 16 + c * 2 ^ 8 + d in
      let ext : e * 2 ^ 24 + (2 ^ 64 - 2 ^ 32) ≡ (2 ^ 32 - 1) * 2 ^ 32 + e * 2 ^ 24 = omega arith in
      rw
        (
          t,
          or_high_four a b c d hb hc hd,
          ext,
          or_sign high (e * 2 ^ 24) (omega arith) (omega arith),
          or_low_three ((2 ^ 32 - 1) * 2 ^ 32 + e * 2 ^ 24) f g h (omega arith) hf hg hh,
        )
        (omega arith)

unpack_eight : (v : ℕ) → v < 2 ^ 64 → unpack_int (be_bytes 8 v) ≡ smear v
unfolding be_bytes
unpack_eight v h = elim (Bool-cases (v / 2 ^ 31 % 2 == 0)) [
  | inl e ↦ rw e (
      unpack_plain (v / 2 ^ 56 % 256) (v / 2 ^ 48 % 256) (v / 2 ^ 40 % 256) (v / 2 ^ 32 % 256)
        (v / 2 ^ 24 % 256) (v / 2 ^ 16 % 256) (v / 256 % 256) (v / 1 % 256) (omega arith)
        (omega arith) (omega arith) (omega arith) (omega arith) (omega arith) (omega arith)
        (ground arith)
      ∙ omega arith)
  | inr e ↦ rw e (
      unpack_smeared (v / 2 ^ 56 % 256) (v / 2 ^ 48 % 256) (v / 2 ^ 40 % 256) (v / 2 ^ 32 % 256)
        (v / 2 ^ 24 % 256) (v / 2 ^ 16 % 256) (v / 256 % 256) (v / 1 % 256) (omega arith)
        (omega arith) (omega arith) (omega arith) (omega arith) (omega arith) (omega arith)
        (omega arith) (ground arith)
      ∙ ground arith)
]

-- A zero is its length byte alone.
zero-Reads : (m bits : ℕ) → Reads (read_unsigned m bits) (0 ∷ []) 0
unfolding read_unsigned
zero-Reads m bits =
    bind-Reads (get_int_length_and_sign false m) _ (0 ∷ []) []
      (get_length-Reads false m 0 (omega arith) (omega arith)) (pure-Reads 0)

-- The value in place of a computed one.
as_value :
    {A : Type 0} (f : M A) (bytes : List ℕ) {a a' : A} → a ≡ a' → Reads f bytes a → Reads f bytes a'
as_value f bytes e R = subst (Reads f bytes) e R

module _ (m bits v : ℕ) where
  Reads-zero : v ≡ 0 → Reads (read_unsigned m bits) (0 ∷ []) v
  Reads-zero e = as_value (read_unsigned m bits) (0 ∷ []) (sym e) (zero-Reads m bits)

  Reads-bytes :
      (n w : ℕ) (bytes : List ℕ)
      → length bytes ≡ suc n
      → suc n < 128
      → suc n ≤ m
      → unpack_int bytes % 2 ^ bits ≡ w
      → Reads (read_unsigned m bits) (suc n ∷ bytes) w
  Reads-bytes n w bytes e h l val =
      as_value (read_unsigned m bits) (suc n ∷ bytes) val (read_unsigned-Reads m bits n bytes e h l)

-- `read_ub2`, `read_ub4` and `read_ub8` on the universal format of a number of that width.
module _ (v : ℕ) where
  pub read_ub2-Reads : v < 2 ^ 16 → Reads read_ub2 (ub_bytes v) v
  unfolding read_ub2 ub_bytes
  read_ub2-Reads h = elim (Bool-cases (v == 0)) [
    | inl e ↦ rw e (Reads-zero 2 16 v (ground arith))
    | inr e ↦ rw e (elim (Bool-cases (leb v 0xff)) [
      | inl e₁ ↦ rw e₁ (
          unfold unpack_int in
          Reads-bytes 2 16 v 0 v (v ∷ []) refl (omega arith) (omega arith) (omega arith))
      | inr e₁ ↦
          let e₂ : leb v 0xffff ≡ true = ground arith in
          rw (e₁, e₂)
            (Reads-bytes 2 16 v 1 v (be_bytes 2 v) (length-be_bytes 2 v) (omega arith) (omega arith)
              (omega (arith, unpack_two v h)))
    ])
  ]

  pub read_ub4-Reads : v < 2 ^ 32 → Reads read_ub4 (ub_bytes v) v
  unfolding read_ub4 ub_bytes
  read_ub4-Reads h = elim (Bool-cases (v == 0)) [
    | inl e ↦ rw e (Reads-zero 4 32 v (ground arith))
    | inr e ↦ rw e (elim (Bool-cases (leb v 0xff)) [
      | inl e₁ ↦ rw e₁ (
          unfold unpack_int in
          Reads-bytes 4 32 v 0 v (v ∷ []) refl (omega arith) (omega arith) (omega arith))
      | inr e₁ ↦ rw e₁ (elim (Bool-cases (leb v 0xffff)) [
        | inl e₂ ↦ rw e₂ (
            Reads-bytes 4 32 v 1 v (be_bytes 2 v) (length-be_bytes 2 v) (omega arith) (omega arith)
              (ground (arith, unpack_two v)))
        | inr e₂ ↦
            let e₃ : leb v 0xffff_ffff ≡ true = ground arith in
            rw (e₂, e₃)
              (Reads-bytes 4 32 v 3 v (be_bytes 4 v) (length-be_bytes 4 v) (omega arith)
                (omega arith) (unfold extend_int in ground (arith, unpack_four v h)))
      ])
    ])
  ]

  -- The result is exact only where bit 31 is clear.
  pub read_ub8-Reads : v < 2 ^ 64 → Reads read_ub8 (ub_bytes v) (smear v)
  unfolding read_ub8 ub_bytes
  read_ub8-Reads h = elim (Bool-cases (v == 0)) [
    | inl e ↦ rw e (Reads-zero 8 64 (smear v) (ground arith))
    | inr e ↦ rw e (elim (Bool-cases (leb v 0xff)) [
      | inl e₁ ↦ rw e₁ (
          unfold unpack_int in
          Reads-bytes 8 64 (smear v) 0 (smear v) (v ∷ []) refl (omega arith) (omega arith)
            (ground arith))
      | inr e₁ ↦ rw e₁ (elim (Bool-cases (leb v 0xffff)) [
        | inl e₂ ↦ rw e₂ (
            Reads-bytes 8 64 (smear v) 1 (smear v) (be_bytes 2 v) (length-be_bytes 2 v)
              (omega arith) (omega arith) (ground (arith, unpack_two v)))
        | inr e₂ ↦ rw e₂ (elim (Bool-cases (leb v 0xffff_ffff)) [
          | inl e₃ ↦ rw e₃ (
              Reads-bytes 8 64 (smear v) 3 (smear v) (be_bytes 4 v) (length-be_bytes 4 v)
                (omega arith) (omega arith) (unfold extend_int in ground (arith, unpack_four v)))
          | inr e₃ ↦ rw e₃ (
              Reads-bytes 8 64 (smear v) 7 (smear v) (be_bytes 8 v) (length-be_bytes 8 v)
                (omega arith) (omega arith) (ground (arith, unpack_eight v h)))
        ])
      ])
    ])
  ]
