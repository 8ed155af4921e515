-- ===== src/Number/Inverse.antt =====
-- parse_oracle_number undoes the base-100 form that write_oracle_number writes.
use python_oracledb.Prelude.{
  is_nil, ℕ, zero, suc, ◌+◌, ◌*◌, ◌/◌, ◌%◌, ◌≤◌, ◌<◌, ◌≡◌, ◌≢◌, refl, ap, ◌∙◌, arith, Bool, true,
  false, not, List, [], ◌∷◌, ◌++◌, length, ◌==◌, if◌then◌else◌, inl, inr, Bool-cases, ◌&&◌,
}
use mathlib.Core.List.{append-nil}
use python_oracledb.Prelude.Int.{ℤ, pos, negsuc, ◌+ℤ◌, ◌-ℤ◌, pos_part, neg_part}
use python_oracledb.Number.{Decimal}
use python_oracledb.Number.Wire.{
  wire_digit, mantissa, parse_mantissa, drop_sentinel, pad, is_odd, exponent_byte, point_index,
  is_positive, has_sentinel, number_bytes, parse_decimal,
}
use python_oracledb.Number.Mantissa.{AllDigits}
use python_oracledb.Number.RoundTrip.{
  IsNormal, LastNonzero, LastNonzero-tail, prepended, paired, index_back,
}

-- The mantissa of a negative number has no byte 102.
AllBelow : List ℕ → Type 0
AllBelow [] = Unit {0}
AllBelow (b ∷ bs) = (b < 102) × AllBelow bs

wire_digit-below : (d : ℕ) → d < 100 → wire_digit true d < 102
unfolding wire_digit
wire_digit-below d h = omega arith

mantissa-below :
    (n : ℕ) (prepend_zero : Bool) (ds : List ℕ)
    → AllDigits ds
    → AllBelow (mantissa n prepend_zero true ds)
unfolding mantissa AllBelow
mantissa-below zero p ds a = tt
mantissa-below (suc n) true [] a = tt
mantissa-below (suc n) true (d ∷ ds) a =
    (wire_digit-below d (omega arith), mantissa-below n false ds a.1)
mantissa-below (suc n) false [] a = tt
mantissa-below (suc n) false (d ∷ []) a = tt
mantissa-below (suc n) false (d ∷ e ∷ ds) a =
    (wire_digit-below (d * 10 + e) (omega arith), mantissa-below n false ds a.1.1)

drop_sentinel_none : (bs : List ℕ) → AllBelow bs → drop_sentinel bs ≡ bs
unfolding drop_sentinel AllBelow
drop_sentinel_none [] a = refl
drop_sentinel_none (b ∷ []) a = ground arith
drop_sentinel_none (b ∷ c ∷ bs) a = ap (λ t. b ∷ t) (drop_sentinel_none (c ∷ bs) a.1)

drop_sentinel_one : (bs : List ℕ) → drop_sentinel (bs ++ 102 ∷ []) ≡ bs
unfolding drop_sentinel
drop_sentinel_one [] = refl
drop_sentinel_one (b ∷ []) = refl
drop_sentinel_one (b ∷ c ∷ bs) = ap (λ t. b ∷ t) (drop_sentinel_one (c ∷ bs))

append_zero-AllDigits : (ds : List ℕ) → AllDigits ds → AllDigits (ds ++ 0 ∷ [])
append_zero-AllDigits [] a = (omega arith, tt)
append_zero-AllDigits (d ∷ ds) a = (a.0, append_zero-AllDigits ds a.1)

if-AllDigits :
    (t : Bool) (xs ys : List ℕ) → AllDigits xs → AllDigits ys → AllDigits (if t then xs else ys)
if-AllDigits true xs ys a b = a
if-AllDigits false xs ys a b = b

pad-AllDigits : (p : Bool) (ds : List ℕ) → AllDigits ds → AllDigits (pad p ds)
unfolding pad
pad-AllDigits p ds a =
    let shifted = if p && not (is_nil ds) then ds ++ 0 ∷ [] else ds in
    let s = if-AllDigits (p && not (is_nil ds)) (ds ++ 0 ∷ []) ds (append_zero-AllDigits ds a) a in
    if-AllDigits (length shifted % 2 == 1) (shifted ++ 0 ∷ []) shifted
      (append_zero-AllDigits shifted s) s

if-not_nil :
    (t : Bool) (xs ys : List ℕ)
    → is_nil xs ≡ false
    → is_nil ys ≡ false
    → is_nil (if t then xs else ys) ≡ false
if-not_nil true xs ys a b = a
if-not_nil false xs ys a b = b

append-not_nil : (xs ys : List ℕ) → is_nil xs ≡ false → is_nil (xs ++ ys) ≡ false
append-not_nil [] ys h = cc
append-not_nil (x ∷ xs) ys h = refl

pad-not_nil : (p : Bool) (d : ℕ) (ds : List ℕ) → is_nil (pad p (d ∷ ds)) ≡ false
unfolding pad
pad-not_nil p d ds =
    let shifted = if p && true then d ∷ (ds ++ 0 ∷ []) else d ∷ ds in
    let s = if-not_nil (p && true) (d ∷ (ds ++ 0 ∷ [])) (d ∷ ds) refl refl in
    if-not_nil (length shifted % 2 == 1) (shifted ++ 0 ∷ []) shifted
      (append-not_nil shifted (0 ∷ []) s) s

-- What parse_decimal takes for the mantissa is what number_bytes put there.
body_back :
    (negative : Bool) (n : ℕ) (p : Bool) (padded : List ℕ)
    → AllDigits padded
    → (let body = mantissa n p negative padded in
        let tail = body ++ (if has_sentinel negative padded then 102 ∷ [] else []) in
        (if not negative then tail else drop_sentinel tail) ≡ body)
body_back false n p padded a = unfold has_sentinel in append-nil (mantissa n p false padded)
body_back true n p padded a = elim (Bool-cases (has_sentinel true padded)) [
  | inl e ↦ rw e (drop_sentinel_one (mantissa n p true padded))
  | inr e ↦
      rw (e, append-nil (mantissa n p true padded))
        (drop_sentinel_none (mantissa n p true padded) (mantissa-below n p padded a))
]

not-not : (b : Bool) → not (not b) ≡ b
not-not true = refl
not-not false = refl

-- The fields of what is parsed, in terms of the parts.
parse_parts :
    (b : ℕ) (bs body digits : List ℕ) (negative : Bool) (z : ℤ)
    → is_positive b ≡ not negative
    → (if not negative then bs else drop_sentinel bs) ≡ body
    → parse_mantissa (not negative) body ([], point_index b) ≡ (digits, z)
    → parse_decimal b bs
      ≡ record { is_negative = negative; digits = digits; decimal_point_index = z }
unfolding parse_decimal
parse_parts b bs body digits negative z e₁ e₂ e₃ =
    rw (e₁, e₂, e₃)
      (ap (λ t. record { is_negative = t; digits = digits; decimal_point_index = z })
        (not-not negative))

next_index :
    (z : ℤ)
    → is_odd z ≡ true
    → pos_part z ≤ 126
    → neg_part z ≤ 129
    → (is_odd (z +ℤ pos 1) ≡ false)
      × (pos_part (z +ℤ pos 1) ≤ 126)
      × (neg_part (z +ℤ pos 1) ≤ 129)
      × (z +ℤ pos 1 -ℤ pos 1 ≡ z)
unfolding ◌+ℤ◌ ◌-ℤ◌
next_index (pos n) e p q = (ground arith, ground arith, ground arith, ground arith)
next_index (negsuc n) e p q = (ground arith, ground arith, ground arith, ground arith)

module _ (negative : Bool) (d : ℕ) (ds : List ℕ) (z : ℤ) (a : AllDigits (d ∷ ds)) (h : d ≢ 0)
    (l : LastNonzero (d ∷ ds)) (above : pos_part z ≤ 126) (below : neg_part z ≤ 129) where
  abbrev number : Decimal
  number = record { is_negative = negative; digits = d ∷ ds; decimal_point_index = z }

  abbrev Back : Type 0
  Back = (b : ℕ) × (bs : List ℕ) × (number_bytes number ≡ b ∷ bs) × (parse_decimal b bs ≡ number)

  back_odd : is_odd z ≡ true → Back
  unfolding number_bytes
  back_odd e =
      let (even, up, low, back) = next_index z e above below in
      let (index, sign) = index_back negative (z +ℤ pos 1) even up low in
      let padded = pad true (d ∷ ds) in
      let b = exponent_byte negative (z +ℤ pos 1) in
      let m = prepended negative d ds (point_index b) h a (LastNonzero-tail d ds l) in
      (
        b,
        mantissa (length padded / 2) true negative padded
            ++ (if has_sentinel negative padded then 102 ∷ [] else []),
        rw (e, pad-not_nil true d ds),
        parse_parts b _ _ (d ∷ ds) negative z sign
            (body_back negative (length padded / 2) true padded (pad-AllDigits true (d ∷ ds) a))
            (m ∙ ap (λ i. (d ∷ ds, i)) (ap (λ i. i -ℤ pos 1) index ∙ back)),
      )

  back_even : is_odd z ≡ false → Back
  unfolding number_bytes
  back_even e =
      let (index, sign) = index_back negative z e above below in
      let padded = pad false (d ∷ ds) in
      let b = exponent_byte negative z in
      let m = paired negative d ds (point_index b) h a l in
      (
        b,
        mantissa (length padded / 2) false negative padded
            ++ (if has_sentinel negative padded then 102 ∷ [] else []),
        rw (e, pad-not_nil false d ds),
        parse_parts b _ _ (d ∷ ds) negative z sign
            (body_back negative (length padded / 2) false padded (pad-AllDigits false (d ∷ ds) a))
            (m ∙ ap (λ i. (d ∷ ds, i)) index),
      )

  back_any : Back
  back_any = elim (Bool-cases (is_odd z)) [ inl e ↦ back_odd e | inr e ↦ back_even e ]

abbrev IsBack : Decimal → Type 0
IsBack n = (b : ℕ) × (bs : List ℕ) × (number_bytes n ≡ b ∷ bs) × (parse_decimal b bs ≡ n)

IsBack-digits :
    (negative : Bool) (ds : List ℕ) (z : ℤ)
    → IsNormal (record { is_negative = negative; digits = ds; decimal_point_index = z })
    → IsBack (record { is_negative = negative; digits = ds; decimal_point_index = z })
IsBack-digits negative [] z v = absurd v.no_leading_zero
IsBack-digits negative (d ∷ ds) z v =
    back_any negative d ds z v.all_digits v.no_leading_zero v.no_trailing_zero v.not_above
      v.not_below

-- For every decimal number that is not zero, whose digits are below 10 with neither a leading nor a
-- trailing zero, and whose decimal point index lies from -129 to 126, of either sign: the bytes
-- that write_oracle_number writes behind the length are an exponent byte and a mantissa, from which
-- parse_oracle_number gets the same sign, digits and decimal point index.
pub parse_decimal-number_bytes :
    (n : Decimal)
    → IsNormal n
    → (b : ℕ) × (bs : List ℕ) × (number_bytes n ≡ b ∷ bs) × (parse_decimal b bs ≡ n)
parse_decimal-number_bytes n v = IsBack-digits n.is_negative n.digits n.decimal_point_index v
