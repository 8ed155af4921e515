-- ===== src/Prelude/Bits.antt =====
-- `&` and `|` on the native numbers as arithmetic: on two fields at once, and on one byte.
use Prim.Native.Nat.{
  ℕ, zero, suc, ◌+◌, ◌-◌, ◌*◌, ◌/◌, ◌%◌, ◌^◌, ◌≤◌, ◌<◌, min, max, bit_and, bit_or, digits,
  bit_and-bitwise, bit_or-bitwise,
}
use mathlib.Core.Path.{◌≡◌, refl, ap}
use native.Mathlib.Omega.{arith}
use native.Mathlib.Nat.{pow-suc, one-le-pow}

-- The numbers of binary digits do not matter, as long as they are enough.
module _ (on_zero : ℕ → ℕ) (g : ℕ → ℕ → ℕ) where
  same_digits : (x y i j : ℕ) → x ≤ i → x ≤ j → digits on_zero g i x y ≡ digits on_zero g j x y
  same_digits zero y zero zero under_i under_j = refl
  same_digits zero y zero (suc j) under_i under_j = refl
  same_digits zero y (suc i) zero under_i under_j = refl
  same_digits zero y (suc i) (suc j) under_i under_j = refl
  same_digits (suc x) y zero j under_i under_j = absurd (omega arith)
  same_digits (suc x) y (suc i) zero under_i under_j = absurd (omega arith)
  same_digits (suc x) y (suc i) (suc j) under_i under_j =
      omega (arith, same_digits (suc x / 2) (y / 2) i j (omega arith) (omega arith))

pub zero-bit_or : (y : ℕ) → bit_or 0 y ≡ y
zero-bit_or y = bit_or-bitwise 0 y

zero-bit_and : (y : ℕ) → bit_and 0 y ≡ 0
zero-bit_and y = bit_and-bitwise 0 y

-- The lowest digit of `|` and of `&`, and the rest.
pub bit_or_step : (x y : ℕ) → bit_or x y ≡ bit_or (x / 2) (y / 2) * 2 + max (x % 2) (y % 2)
bit_or_step zero y = omega (arith, zero-bit_or (y / 2), zero-bit_or y)
bit_or_step (suc x) y = omega (
  arith,
  same_digits (λ d. d) max (suc x / 2) (y / 2) x (suc x / 2) (omega arith) (omega arith),
  bit_or-bitwise (suc x / 2) (y / 2),
  bit_or-bitwise (suc x) y,
)

pub bit_and_step : (x y : ℕ) → bit_and x y ≡ bit_and (x / 2) (y / 2) * 2 + min (x % 2) (y % 2)
bit_and_step zero y = omega (arith, zero-bit_and (y / 2), zero-bit_and y)
bit_and_step (suc x) y = omega (
  arith,
  same_digits (λ d. zero) min (suc x / 2) (y / 2) x (suc x / 2) (omega arith) (omega arith),
  bit_and-bitwise (suc x / 2) (y / 2),
  bit_and-bitwise (suc x) y,
)

-- Both at once, by halving.
no_bits : (bound x : ℕ) → x ≤ bound → (bit_or x 0 ≡ x) × (bit_and x 0 ≡ 0)
no_bits bound zero under = (refl, refl)
no_bits zero (suc x) under = absurd (omega arith)
no_bits (suc bound) (suc x) under =
    let (kept, gone) = no_bits bound (suc x / 2) (omega arith) in
    (omega (arith, kept, bit_or_step (suc x) 0), omega (arith, gone, bit_and_step (suc x) 0))

pub bit_or-zero : (x : ℕ) → bit_or x 0 ≡ x
bit_or-zero x = (no_bits x x (omega arith)).0

pub bit_and-zero : (x : ℕ) → bit_and x 0 ≡ 0
bit_and-zero x = (no_bits x x (omega arith)).1

mul-pow-suc : (a k : ℕ) → a * 2 ^ suc k ≡ 2 * (a * 2 ^ k)
mul-pow-suc a k = omega (arith, ap (λ (t : ℕ). a * t) (pow-suc 2 k))

-- `|` and `&` act on the part above bit `k` and the part below it separately.
pub bit_or_split :
    (k a b c d : ℕ)
    → b < 2 ^ k
    → d < 2 ^ k
    → bit_or (a * 2 ^ k + b) (c * 2 ^ k + d) ≡ bit_or a c * 2 ^ k + bit_or b d
bit_or_split zero a zero c zero p q = ground arith
bit_or_split zero a (suc b) c d p q = absurd (omega arith)
bit_or_split zero a zero c (suc d) p q = absurd (omega arith)
bit_or_split (suc k) a b c d p q = ground (
  arith,
  pow-suc 2 k,
  bit_or_step (a * 2 ^ suc k + b) (c * 2 ^ suc k + d),
  bit_or_step b d,
  mul-pow-suc a k,
  mul-pow-suc c k,
  mul-pow-suc (bit_or a c) k,
  bit_or_split k a (b / 2) c (d / 2) (omega arith) (omega arith),
)

pub bit_and_split :
    (k a b c d : ℕ)
    → b < 2 ^ k
    → d < 2 ^ k
    → bit_and (a * 2 ^ k + b) (c * 2 ^ k + d) ≡ bit_and a c * 2 ^ k + bit_and b d
bit_and_split zero a zero c zero p q = ground arith
bit_and_split zero a (suc b) c d p q = absurd (omega arith)
bit_and_split zero a zero c (suc d) p q = absurd (omega arith)
bit_and_split (suc k) a b c d p q = ground (
  arith,
  pow-suc 2 k,
  bit_and_step (a * 2 ^ suc k + b) (c * 2 ^ suc k + d),
  bit_and_step b d,
  mul-pow-suc a k,
  mul-pow-suc c k,
  mul-pow-suc (bit_and a c) k,
  bit_and_split k a (b / 2) c (d / 2) (omega arith) (omega arith),
)

-- `(q << k) | r` is a sum where `r` fits `k` bits.
pub bit_or_fields : (k q r : ℕ) → r < 2 ^ k → bit_or (q * 2 ^ k) r ≡ q * 2 ^ k + r
bit_or_fields k q r h = ground (
  arith,
  one-le-pow k 2,
  bit_or_split k q 0 0 r (omega (arith, one-le-pow k 2)) h,
  bit_or-zero q,
  zero-bit_or r,
)

bit_and_ones : (k b : ℕ) → b < 2 ^ k → bit_and b (2 ^ k - 1) ≡ b
bit_and_ones zero zero h = refl
bit_and_ones zero (suc b) h = absurd (omega arith)
bit_and_ones (suc k) b h = ground (
  arith,
  pow-suc 2 k,
  one-le-pow k 2,
  bit_and_step b (2 ^ suc k - 1),
  bit_and_ones k (b / 2) (omega arith),
)

pub bit_or_ones : (k b : ℕ) → b < 2 ^ k → bit_or b (2 ^ k - 1) ≡ 2 ^ k - 1
bit_or_ones zero zero h = refl
bit_or_ones zero (suc b) h = absurd (omega arith)
bit_or_ones (suc k) b h = ground (
  arith,
  pow-suc 2 k,
  one-le-pow k 2,
  bit_or_step b (2 ^ suc k - 1),
  bit_or_ones k (b / 2) (omega arith),
)

-- A mask of `k` low bits is the remainder by `2 ^ k`.
pub bit_and_mask : (k a : ℕ) → bit_and a (2 ^ k - 1) ≡ a % 2 ^ k
bit_and_mask k a = ground (
  arith,
  one-le-pow k 2,
  bit_and_split k (a / 2 ^ k) (a % 2 ^ k) 0 (2 ^ k - 1),
  bit_and-zero (a / 2 ^ k),
  bit_and_ones k (a % 2 ^ k),
)

-- The byte of `a` at bit `k`, where it stands.
pub bit_and_byte : (k a : ℕ) → bit_and a (255 * 2 ^ k) ≡ a / 2 ^ k % 256 * 2 ^ k
bit_and_byte k a = ground (
  arith,
  one-le-pow k 2,
  bit_and_split k (a / 2 ^ k) (a % 2 ^ k) 255 0,
  bit_and_mask 8 (a / 2 ^ k),
  bit_and-zero (a % 2 ^ k),
)

-- The top bit of a byte.
pub bit_and_top : (b : ℕ) → b < 256 → bit_and b 0x80 ≡ b / 128 * 128
bit_and_top b h = ground (
  arith,
  bit_and_split 7 (b / 128) (b % 128) 1 0,
  bit_and_mask 1 (b / 128),
  bit_and-zero (b % 128),
)

pub bit_and_low7 : (b : ℕ) → bit_and b 0x7f ≡ b % 128
bit_and_low7 b = bit_and_mask 7 b
