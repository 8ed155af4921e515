-- ===== src/Number/Length.antt =====
-- src/oracledb/impl/base/buffer.pyx: the length byte of Buffer.write_oracle_number.
use python_oracledb.Prelude.{
  ℕ, zero, suc, ◌+◌, ◌*◌, ◌/◌, ◌≤◌, ◌<◌, ◌≡◌, refl, ap, arith, Bool, true, false, List, [], ◌∷◌,
  ◌++◌, length, length-append, is_nil, if◌then◌else◌,
}
use python_oracledb.Prelude.Int.{ℤ}
use python_oracledb.Number.{Decimal}
use python_oracledb.Number.Wire.{
  is_odd, shifted_index, exponent_byte, wire_digit, mantissa, pad, has_sentinel, number_bytes,
  number_length,
}

abbrev pub AllBytes : List ℕ → Type 0
AllBytes [] = Unit {0}
AllBytes (b ∷ bs) = (b < 256) × AllBytes bs

AllBytes-append : (xs ys : List ℕ) → AllBytes xs → AllBytes ys → AllBytes (xs ++ ys)
AllBytes-append [] ys a b = b
AllBytes-append (x ∷ xs) ys a b = (a.0, AllBytes-append xs ys a.1 b)

wire_digit_bound : (negative : Bool) (digit : ℕ) → wire_digit negative digit < 256
unfolding wire_digit
wire_digit_bound negative digit = ground arith

exponent_byte_bound : (negative : Bool) (index : ℤ) → exponent_byte negative index < 256
unfolding exponent_byte
exponent_byte_bound negative index = ground arith

-- The digits that there are, with the zero in front.
abbrev available : Bool → List ℕ → ℕ
available prepend_zero digits = (if prepend_zero then 1 else 0) + length digits

mantissa-AllBytes :
    (k : ℕ) (p negative : Bool) (digits : List ℕ) → AllBytes (mantissa k p negative digits)
unfolding mantissa
mantissa-AllBytes zero p negative digits = tt
mantissa-AllBytes (suc k) true negative [] = tt
mantissa-AllBytes (suc k) true negative (d ∷ ds) =
    (wire_digit_bound negative d, mantissa-AllBytes k false negative ds)
mantissa-AllBytes (suc k) false negative [] = tt
mantissa-AllBytes (suc k) false negative (d ∷ []) = tt
mantissa-AllBytes (suc k) false negative (d ∷ e ∷ ds) =
    (wire_digit_bound negative (d * 10 + e), mantissa-AllBytes k false negative ds)

length-mantissa :
    (k : ℕ) (p negative : Bool) (digits : List ℕ)
    → k * 2 ≤ available p digits
    → length (mantissa k p negative digits) ≡ k
unfolding mantissa
length-mantissa zero p negative digits h = refl
length-mantissa (suc k) true negative [] h = absurd (omega (arith, h))
length-mantissa (suc k) true negative (d ∷ ds) h =
    ap suc (length-mantissa k false negative ds (omega (arith, h)))
length-mantissa (suc k) false negative [] h = absurd (omega (arith, h))
length-mantissa (suc k) false negative (d ∷ []) h = absurd (omega (arith, h))
length-mantissa (suc k) false negative (d ∷ e ∷ ds) h =
    ap suc (length-mantissa k false negative ds (omega (arith, h)))

half_available : (p : Bool) (digits : List ℕ) → length digits / 2 * 2 ≤ available p digits
half_available true digits = omega arith
half_available false digits = omega arith

abbrev sentinel : Bool → List ℕ
sentinel there = if there then 102 ∷ [] else []

abbrev sentinel_length : Bool → ℕ
sentinel_length there = if there then 1 else 0

-- The exponent and the mantissa with the byte that may follow them.
ended :
    (there : Bool) (k e : ℕ) (body : List ℕ)
    → length body ≡ k
    → e < 256
    → AllBytes body
    → (length (e ∷ (body ++ sentinel there)) ≡ k + 1 + sentinel_length there)
      × AllBytes (e ∷ (body ++ sentinel there))
ended true k e body size h a = (
  omega (arith, size, length-append body (102 ∷ [])),
  (h, AllBytes-append body (102 ∷ []) a (omega arith, tt)),
)
ended false k e body size h a =
    (omega (arith, size, length-append body []), (h, AllBytes-append body [] a tt))

number_shape :
    (negative : Bool) (padded : List ℕ) (e : ℕ) (body : List ℕ)
    → length body ≡ length padded / 2
    → e < 256
    → AllBytes body
    → (length (
          if is_nil padded then 128 ∷ [] else e ∷ (body ++ sentinel (has_sentinel negative padded)))
        ≡ length padded / 2 + 1 + sentinel_length (has_sentinel negative padded))
      × AllBytes (
          if is_nil padded then 128 ∷ [] else e ∷ (body ++ sentinel (has_sentinel negative padded)))
unfolding has_sentinel
number_shape true [] e body size h a = (omega arith, (omega arith, tt))
number_shape false [] e body size h a = (omega arith, (omega arith, tt))
number_shape negative (d ∷ ds) e body size h a =
    ended (has_sentinel negative (d ∷ ds)) (length (d ∷ ds) / 2) e body size h a

-- For every number with its sign, digits and decimal point: the bytes that write_oracle_number writes
-- behind the length byte are as many as that says, and each of them is a byte.
pub number_bytes-number_length :
    (n : Decimal) → (length (number_bytes n) ≡ number_length n) × AllBytes (number_bytes n)
unfolding number_bytes number_length
number_bytes-number_length n =
    let p = is_odd n.decimal_point_index in
    let padded = pad p n.digits in
    let k = length padded / 2 in
    number_shape n.is_negative padded (exponent_byte n.is_negative (shifted_index n))
      (mantissa k p n.is_negative padded)
      (length-mantissa k p n.is_negative padded (half_available p padded))
      (exponent_byte_bound n.is_negative (shifted_index n))
      (mantissa-AllBytes k p n.is_negative padded)
