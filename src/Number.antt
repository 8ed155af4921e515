-- ===== src/Number.antt =====
-- src/oracledb/impl/base/buffer.pyx: Oracle numbers. write_oracle_number reads a decimal text and
-- writes base-100 digits; parse_oracle_number turns them back into a decimal text.
-- The text is the list of its bytes; the digits are a list in place of an array and its length.
pub mod Wire
pub mod Length
pub mod Mantissa
pub mod RoundTrip
pub mod Inverse
pub mod Text
use python_oracledb.Prelude.{
  is_nil, ℕ, ◌+◌, ◌-◌, ◌*◌, ◌/◌, ◌%◌, Bool, true, false, not, ◌&&◌, ◌||◌, List, [], ◌∷◌, ◌++◌,
  length, ltb, leb, ◌==◌, if◌then◌else◌,
}
use python_oracledb.Prelude.Int.{ℤ, pos, negsuc, ◌+ℤ◌, ◌-ℤ◌, ltb_ℤ}
use python_oracledb.Errors
use python_oracledb.Errors.{
  Result, ok, err, ◌>>=◌, invalid_number, number_with_invalid_exponent, number_with_empty_exponent,
  content_invalid_after_number, oracle_number_no_repr, number_string_of_zero_length,
  number_string_too_long, integer_overflow,
}

abbrev pub number_as_text_chars : ℕ
number_as_text_chars = 172

abbrev pub number_max_digits : ℕ
number_max_digits = 40

is_exponent_mark : ℕ → Bool
is_exponent_mark c = c == b'e' || c == b'E'

is_digit : ℕ → Bool
is_digit c = leb b'0' c && leb c b'9'

-- A leading zero is not kept.
push_digit : ℕ → List ℕ → List ℕ
push_digit digit digits = if digit == 0 && is_nil digits then digits else digits ++ (digit ∷ [])

-- The digits up to a decimal point or an exponent, and what is left of the text.
unfoldable pub scan_integer : List ℕ → List ℕ → Result (List ℕ × List ℕ)
unfolding is_exponent_mark is_digit push_digit
scan_integer [] digits = ok (digits, [])
scan_integer (c ∷ cs) digits =
    let rest = scan_integer cs (push_digit (c - b'0') digits) in
    if c == b'.' || is_exponent_mark c
    then ok (digits, c ∷ cs)
    else if not (is_digit c)
    then err invalid_number
    else rest

-- The characters after the point are not checked: any other than an exponent mark is taken for a
-- digit, by an 8-bit subtraction.
unfoldable pub scan_fraction : List ℕ → List ℕ → ℤ → List ℕ × ℤ × List ℕ
unfolding is_exponent_mark push_digit
scan_fraction [] digits index = (digits, index, [])
scan_fraction (c ∷ cs) digits index =
    let digit = (c + 256 - b'0') % 256 in
    let index' = if digit == 0 && is_nil digits then index -ℤ pos 1 else index in
    let rest = scan_fraction cs (push_digit digit digits) index' in
    if is_exponent_mark c then (digits, index, c ∷ cs) else rest

-- The value of the exponent's digits; the whole rest of the text must be digits.
scan_exponent_digits : List ℕ → ℕ → Result ℕ
unfolding is_digit
scan_exponent_digits [] value = ok value
scan_exponent_digits (c ∷ cs) value =
    let rest = scan_exponent_digits cs (value * 10 + (c - b'0')) in
    if is_digit c then rest else err number_with_invalid_exponent

-- The conversion to `int16_t` raises where the value is too large.
exponent_value : Bool → List ℕ → Result ℤ
unfolding scan_exponent_digits
exponent_value negative [] = err number_with_empty_exponent
exponent_value negative (c ∷ cs) = do
  value ← scan_exponent_digits (c ∷ cs) 0
  if ltb 32767 value
      then err integer_overflow
      else ok (if negative then pos 0 -ℤ pos value else pos value)

exponent_sign : List ℕ → Result ℤ
unfolding exponent_value
exponent_sign [] = exponent_value false []
exponent_sign (c ∷ cs) =
    if c == b'-'
    then exponent_value true cs
    else if c == b'+'
    then exponent_value false cs
    else exponent_value false (c ∷ cs)

-- The sum of two `int16_t`, as it is stored in one.
wrap_int16 : ℤ → ℤ
wrap_int16 z =
    if ltb_ℤ (pos 32767) z
    then z -ℤ pos 65536
    else if ltb_ℤ z (negsuc 32767)
    then z +ℤ pos 65536
    else z

scan_exponent : List ℕ → ℤ → Result ℤ
unfolding is_exponent_mark exponent_sign wrap_int16
scan_exponent [] index = ok index
scan_exponent (c ∷ cs) index =
    if is_exponent_mark c
    then (do exponent ← exponent_sign cs; ok (wrap_int16 (index +ℤ exponent)))
    else err content_invalid_after_number

-- Sign, digits without leading and trailing zeros, and the place of the decimal point.
pub record Decimal : Type 0 where
  pub is_negative : Bool
  pub digits : List ℕ
  pub decimal_point_index : ℤ

keep_digit : ℕ → List ℕ → List ℕ
keep_digit d [] = if d == 0 then [] else d ∷ []
keep_digit d (x ∷ xs) = d ∷ x ∷ xs

unfoldable pub strip_zeros : List ℕ → List ℕ
unfolding keep_digit
strip_zeros [] = []
strip_zeros (d ∷ ds) = keep_digit d (strip_zeros ds)

in_range : List ℕ → ℤ → Bool
in_range digits index =
    not (ltb number_max_digits (length digits) || ltb_ℤ (pos 126) index || ltb_ℤ index (negsuc 128))

scan_fraction_part : List ℕ → List ℕ → List ℕ × ℤ × List ℕ
unfolding scan_fraction
scan_fraction_part [] digits = (digits, pos (length digits), [])
scan_fraction_part (c ∷ cs) digits =
    if c == b'.'
    then scan_fraction cs digits (pos (length digits))
    else (digits, pos (length digits), c ∷ cs)

scan_unsigned : Bool → List ℕ → Result Decimal
unfolding scan_integer scan_fraction_part scan_exponent strip_zeros in_range
scan_unsigned negative text = do
  (whole, rest) ← scan_integer text []
  let (all, index, rest') = scan_fraction_part rest whole
  index' ← scan_exponent rest' index
  let digits = strip_zeros all
  if in_range digits index'
      then ok (record { is_negative = negative; digits = digits; decimal_point_index = index' })
      else err oracle_number_no_repr

scan_sign : List ℕ → Result Decimal
unfolding scan_unsigned
scan_sign [] = scan_unsigned false []
scan_sign (c ∷ cs) = if c == b'-' then scan_unsigned true cs else scan_unsigned false (c ∷ cs)

-- The first half of write_oracle_number: the checks and scans, up to the range of the number.
unfoldable pub scan_number : List ℕ → Result Decimal
unfolding scan_sign
scan_number num_bytes =
    if length num_bytes == 0
    then err number_string_of_zero_length
    else if ltb number_as_text_chars (length num_bytes)
    then err number_string_too_long
    else scan_sign num_bytes
