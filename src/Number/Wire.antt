-- ===== src/Number/Wire.antt =====
-- src/oracledb/impl/base/buffer.pyx: the base-100 form of an Oracle number, written and parsed.
use python_oracledb.Prelude.{
  is_nil, ℕ, zero, suc, ◌+◌, ◌-◌, ◌*◌, ◌/◌, ◌%◌, Bool, true, false, not, ◌&&◌, ◌||◌, List, [], ◌∷◌,
  ◌++◌, length, ltb, leb, ◌==◌, if◌then◌else◌,
}
use python_oracledb.Prelude.Int.{ℤ, pos, negsuc, ◌+ℤ◌, ◌-ℤ◌, pos_part}
use python_oracledb.Errors.{Result, ok, err, stuck}
use python_oracledb.Buffer.{M, ◌>>◌, pure, fail, write_uint8}
use python_oracledb.Number.{Decimal, scan_number, number_max_digits}

-- Python's `%` is not negative.
abbrev pub is_odd : ℤ → Bool
is_odd (pos n) = n % 2 == 1
is_odd (negsuc n) = n % 2 == 0

-- `(decimal_point_index / 2) + 192` as a byte, and its complement for a negative number.
unfoldable pub exponent_byte : Bool → ℤ → ℕ
exponent_byte negative index =
    let byte = pos_part (pos 384 +ℤ index) / 2 % 256 in if negative then 255 - byte else byte

-- A base-100 digit on the wire, in 8-bit arithmetic.
unfoldable pub wire_digit : Bool → ℕ → ℕ
wire_digit negative digit =
    let d = digit % 256 in if negative then (101 + 256 - d) % 256 else (d + 1) % 256

-- `num_pairs` mantissa bytes, the first from one digit alone where a zero is prepended.
unfoldable pub mantissa : ℕ → Bool → Bool → List ℕ → List ℕ
mantissa zero prepend_zero negative digits = []
mantissa (suc num_pairs) true negative (d ∷ ds) =
    wire_digit negative d ∷ mantissa num_pairs false negative ds
mantissa (suc num_pairs) false negative (d ∷ e ∷ ds) =
    wire_digit negative (d * 10 + e) ∷ mantissa num_pairs false negative ds
mantissa (suc num_pairs) _ negative _ = []

-- A zero for the digit that is prepended, and one to make the number of digits even.
unfoldable pub pad : Bool → List ℕ → List ℕ
pad prepend_zero digits =
    let shifted = if prepend_zero && not (is_nil digits) then digits ++ (0 ∷ []) else digits in
    if length shifted % 2 == 1 then shifted ++ (0 ∷ []) else shifted

abbrev pub shifted_index : Decimal → ℤ
shifted_index n =
    if is_odd n.decimal_point_index && not (is_nil n.digits)
    then n.decimal_point_index +ℤ pos 1
    else n.decimal_point_index

unfoldable pub has_sentinel : Bool → List ℕ → Bool
has_sentinel negative padded =
    negative && not (is_nil padded) && ltb (length padded) number_max_digits

-- The bytes behind the length byte.
unfoldable pub number_bytes : Decimal → List ℕ
unfolding exponent_byte mantissa pad has_sentinel
number_bytes n =
    let prepend_zero = is_odd n.decimal_point_index in
    let padded = pad prepend_zero n.digits in
    let body = mantissa (length padded / 2) prepend_zero n.is_negative padded in
    let sentinel = if has_sentinel n.is_negative padded then 102 ∷ [] else [] in
    if is_nil padded
    then 128 ∷ []
    else exponent_byte n.is_negative (shifted_index n) ∷ (body ++ sentinel)

unfoldable pub number_length : Decimal → ℕ
unfolding pad has_sentinel
number_length n =
    let padded = pad (is_odd n.decimal_point_index) n.digits in
    length padded / 2 + 1 + (if has_sentinel n.is_negative padded then 1 else 0)

unfoldable pub write_all : List ℕ → M (Unit {0})
write_all [] = pure tt
write_all (b ∷ bs) = do write_uint8 b; write_all bs

write_decimal : Result Decimal → M (Unit {0})
unfolding number_length number_bytes write_all
write_decimal (ok n) = do write_uint8 (number_length n); write_all (number_bytes n)
write_decimal (err e) = fail e
write_decimal stuck = λ b. stuck

unfoldable pub write_oracle_number : List ℕ → M (Unit {0})
unfolding write_decimal
write_oracle_number num_bytes = write_decimal (scan_number num_bytes)

-- parse_oracle_number: the exponent byte, complemented for a negative number.
unfoldable pub is_positive : ℕ → Bool
is_positive b = leb 128 b

unfoldable pub point_index : ℕ → ℤ
unfolding is_positive
point_index b =
    let exponent = pos (if is_positive b then b else 255 - b) -ℤ pos 193 in
    exponent +ℤ exponent +ℤ pos 2

unfoldable pub number_digit : Bool → ℕ → ℕ
number_digit positive byte = if positive then (byte + 255) % 256 else (101 + 256 - byte) % 256

abbrev pub Digits : Type 0
Digits = List ℕ × ℤ

-- The first digit of a mantissa byte; leading zeros move the decimal point.
unfoldable pub first_digit : ℕ → Digits → Digits
first_digit digit (digits, index) =
    if digit == 0 && is_nil digits
    then (digits, index -ℤ pos 1)
    else if digit == 10
    then (digits ++ (1 ∷ 0 ∷ []), index +ℤ pos 1)
    else (digits ++ (digit ∷ []), index)

-- The second digit; a zero is dropped at the end of the mantissa.
unfoldable pub second_digit : Bool → ℕ → Digits → Digits
second_digit is_last digit (digits, index) =
    if not (digit == 0) || not is_last then (digits ++ (digit ∷ []), index) else (digits, index)

unfoldable pub parse_mantissa : Bool → List ℕ → Digits → Digits
unfolding first_digit second_digit
parse_mantissa positive [] st = st
parse_mantissa positive (b ∷ bs) st =
    let byte = number_digit positive b in
    parse_mantissa positive bs (second_digit (is_nil bs) (byte % 10) (first_digit (byte / 10) st))

-- A trailing byte 102 of a negative number is no digit.
unfoldable pub drop_sentinel : List ℕ → List ℕ
drop_sentinel [] = []
drop_sentinel (b ∷ []) = if b == 102 then [] else b ∷ []
drop_sentinel (b ∷ c ∷ bs) = b ∷ drop_sentinel (c ∷ bs)

-- The digits of a number of two bytes or more, as `_parse` finds them before it makes a text.
unfoldable pub parse_decimal : ℕ → List ℕ → Decimal
unfolding parse_mantissa drop_sentinel
parse_decimal b bs =
    let positive = is_positive b in
    let body = if positive then bs else drop_sentinel bs in
    let (digits, index) = parse_mantissa positive body ([], point_index b) in
    record { is_negative = not positive; digits = digits; decimal_point_index = index }
