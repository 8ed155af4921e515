-- ===== src/Number/RoundTrip.antt =====
-- A normal decimal number is parsed back from the bytes that stand for it.
use python_oracledb.Prelude.{
  ℕ, zero, suc, ◌+◌, ◌*◌, ◌/◌, ◌%◌, ◌≤◌, ◌≡◌, ◌≢◌, refl, ap, arith, Bool, true, false, not, List,
  [], ◌∷◌, ◌++◌, length, ◌==◌, if◌then◌else◌, inl, inr, length-append, ◌⊎◌,
}
use python_oracledb.Prelude.Int.{ℤ, pos, negsuc, ◌+ℤ◌, ◌-ℤ◌, pos_part, neg_part}
use python_oracledb.Number.{Decimal}
use python_oracledb.Number.Wire.{
  wire_digit, mantissa, parse_mantissa, pad, is_odd, exponent_byte, point_index, is_positive,
}
use python_oracledb.Number.Mantissa.{AllDigits, trim, parse_first_pair, parse_single}

abbrev pub HeadNonzero : List ℕ → Type 0
HeadNonzero [] = ⊥
HeadNonzero (d ∷ ds) = d ≢ 0

abbrev pub LastNonzero : List ℕ → Type 0
LastNonzero [] = Unit {0}
LastNonzero (d ∷ []) = d ≢ 0
LastNonzero (d ∷ e ∷ ds) = LastNonzero (e ∷ ds)

-- A nonzero number in the range of Oracle numbers, without leading and trailing zeros.
pub record IsNormal (n : Decimal) : Type 0 where
  pub all_digits : AllDigits n.digits
  pub no_leading_zero : HeadNonzero n.digits
  pub no_trailing_zero : LastNonzero n.digits
  pub not_above : pos_part n.decimal_point_index ≤ 126
  pub not_below : neg_part n.decimal_point_index ≤ 129

trim-append_zero : (ds : List ℕ) → trim (ds ++ 0 ∷ []) ≡ ds
unfolding trim
trim-append_zero [] = refl
trim-append_zero (d ∷ []) = refl
trim-append_zero (d ∷ e ∷ ds) = ap (λ t. d ∷ t) (trim-append_zero (e ∷ ds))

pub trim_nonzero : (ds : List ℕ) → LastNonzero ds → trim ds ≡ ds
unfolding trim
trim_nonzero [] h = refl
trim_nonzero (d ∷ []) h = ground arith
trim_nonzero (d ∷ e ∷ ds) h = ap (λ t. d ∷ t) (trim_nonzero (e ∷ ds) h)

pub LastNonzero-tail : (d : ℕ) (ds : List ℕ) → LastNonzero (d ∷ ds) → LastNonzero ds
LastNonzero-tail d [] h = tt
LastNonzero-tail d (e ∷ ds) h = h

AllDigits-append_zero : (ds : List ℕ) → AllDigits ds → AllDigits (ds ++ 0 ∷ [])
AllDigits-append_zero [] a = (omega arith, tt)
AllDigits-append_zero (d ∷ ds) a = (a.0, AllDigits-append_zero ds a.1)

-- Digits that the pairs do not reach do not count.
mantissa_prefix :
    (n : ℕ) (negative : Bool) (xs ys : List ℕ)
    → length xs ≡ n + n
    → mantissa n false negative (xs ++ ys) ≡ mantissa n false negative xs
unfolding mantissa
mantissa_prefix zero negative xs ys h = refl
mantissa_prefix (suc n) negative [] ys h = absurd (omega arith)
mantissa_prefix (suc n) negative (x ∷ []) ys h = absurd (omega arith)
mantissa_prefix (suc n) negative (x ∷ y ∷ xs) ys h =
    ap (λ t. wire_digit negative (x * 10 + y) ∷ t) (mantissa_prefix n negative xs ys (omega arith))

mantissa_prefix_single :
    (n : ℕ) (negative : Bool) (x : ℕ) (xs ys : List ℕ)
    → length xs ≡ n + n
    → mantissa (suc n) true negative (x ∷ (xs ++ ys)) ≡ mantissa (suc n) true negative (x ∷ xs)
unfolding mantissa
mantissa_prefix_single n negative x xs ys h =
    ap (λ t. wire_digit negative x ∷ t) (mantissa_prefix n negative xs ys h)

-- The digits with their padding, by the parity of their number.
module _ (d : ℕ) (ds : List ℕ) where
  one_more : length (ds ++ 0 ∷ []) ≡ suc (length ds)
  one_more = omega (arith, length-append ds (0 ∷ []))

  pad_single_even : length ds % 2 ≡ 0 → pad true (d ∷ ds) ≡ d ∷ (ds ++ 0 ∷ [])
  unfolding pad
  pad_single_even h =
      let e : (suc (length (ds ++ 0 ∷ [])) % 2 == 1) ≡ false = ground (arith, one_more) in rw e

  pad_single_odd : length ds % 2 ≡ 1 → pad true (d ∷ ds) ≡ d ∷ ((ds ++ 0 ∷ []) ++ 0 ∷ [])
  unfolding pad
  pad_single_odd h =
      let e : (suc (length (ds ++ 0 ∷ [])) % 2 == 1) ≡ true = ground (arith, one_more) in rw e

  pad_pair_even : length ds % 2 ≡ 1 → pad false (d ∷ ds) ≡ d ∷ ds
  unfolding pad
  pad_pair_even h = let e : (suc (length ds) % 2 == 1) ≡ false = ground arith in rw e

  pad_pair_odd : length ds % 2 ≡ 0 → pad false (d ∷ ds) ≡ d ∷ (ds ++ 0 ∷ [])
  unfolding pad
  pad_pair_odd h = let e : (suc (length ds) % 2 == 1) ≡ true = ground arith in rw e

parity : (n : ℕ) → (n % 2 ≡ 0) ⊎ (n % 2 ≡ 1)
parity n = ground arith

-- What the two halves agree on: digits and the index of the decimal point.
module _ (negative : Bool) (d : ℕ) (ds : List ℕ) (index : ℤ) (h : d ≢ 0) where
  abbrev pub Body : Bool → List ℕ → Type 0
  Body prepend_zero padded =
      parse_mantissa (not negative) (mantissa (length padded / 2) prepend_zero negative padded)
        ([], index)
      ≡ (d ∷ ds, (if prepend_zero then index -ℤ pos 1 else index))

  -- A single digit `d`, then `m` pairs in `used`, and digits that no pair reaches.
  single :
      (m : ℕ) (used unused : List ℕ)
      → length used ≡ m + m
      → suc (length (used ++ unused)) / 2 ≡ suc m
      → AllDigits (d ∷ used)
      → trim used ≡ ds
      → Body true (d ∷ (used ++ unused))
  single m used unused l half a t =
      let same : mantissa (suc m) true negative (d ∷ (used ++ unused))
          ≡ mantissa (suc m) true negative (d ∷ used) =
        mantissa_prefix_single m negative d used unused l in
      rw (half, same, parse_single m negative d used index h l a, t) refl

  pub prepended : AllDigits (d ∷ ds) → LastNonzero ds → Body true (pad true (d ∷ ds))
  prepended a l = elim (parity (length ds)) [
    | inl even ↦ rw (pad_single_even d ds even) (
        single (length ds / 2) ds (0 ∷ []) (omega arith) (omega (arith, one_more d ds)) a
          (trim_nonzero ds l))
    | inr odd ↦ rw (pad_single_odd d ds odd) (
        single (suc (length ds) / 2) (ds ++ 0 ∷ []) (0 ∷ []) (omega (arith, one_more d ds))
          (omega (arith, one_more d ds, length-append (ds ++ 0 ∷ []) (0 ∷ [])))
          (a.0, AllDigits-append_zero ds a.1) (trim-append_zero ds))
  ]

  pairs :
      (m e : ℕ) (used : List ℕ)
      → length used ≡ m + m
      → AllDigits (d ∷ e ∷ used)
      → trim (d ∷ e ∷ used) ≡ d ∷ ds
      → Body false (d ∷ e ∷ used)
  pairs m e used l a t =
      let half : suc (suc (length used)) / 2 ≡ suc m = omega arith in
      rw (half, parse_first_pair m negative d e used index h l a, t) refl

pub paired :
    (negative : Bool) (d : ℕ) (ds : List ℕ) (index : ℤ) (h : d ≢ 0)
    → AllDigits (d ∷ ds)
    → LastNonzero (d ∷ ds)
    → Body negative d ds index h false (pad false (d ∷ ds))
paired negative d [] index h a l =
    rw (pad_pair_odd d [] refl)
      (pairs negative d [] index h 0 0 [] refl (a.0, (omega arith, tt)) (trim-append_zero (d ∷ [])))
paired negative d (e ∷ es) index h a l = elim (parity (length es)) [
  | inl even ↦ rw (pad_pair_even d (e ∷ es) (omega arith)) (
      pairs negative d (e ∷ es) index h (length es / 2) e es (omega arith) a
        (trim_nonzero (d ∷ e ∷ es) l))
  | inr odd ↦ rw (pad_pair_odd d (e ∷ es) (omega arith)) (
      pairs negative d (e ∷ es) index h (suc (length es) / 2) e (es ++ 0 ∷ [])
        (omega (arith, one_more d es)) (a.0, (a.1.0, AllDigits-append_zero es a.1.1))
        (trim-append_zero (d ∷ e ∷ es)))
]

-- The index of the decimal point, and with it the sign, survives the exponent byte.
pub index_back :
    (negative : Bool) (z : ℤ)
    → is_odd z ≡ false
    → pos_part z ≤ 126
    → neg_part z ≤ 129
    → (point_index (exponent_byte negative z) ≡ z)
      × (is_positive (exponent_byte negative z) ≡ not negative)
unfolding point_index is_positive exponent_byte ◌+ℤ◌ ◌-ℤ◌
index_back true (pos n) e p q = (ground arith, ground arith)
index_back true (negsuc n) e p q = (ground arith, ground arith)
index_back false (pos n) e p q = (ground arith, ground arith)
index_back false (negsuc n) e p q = (ground arith, ground arith)
