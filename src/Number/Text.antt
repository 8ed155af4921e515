-- ===== src/Number/Text.antt =====
-- src/oracledb/impl/base/buffer.pyx: Buffer.parse_oracle_number and the text that it makes of the
-- digits. A Python number is known by the text that its constructor is called with.
use python_oracledb.Prelude.{
  ℕ, suc, ◌+◌, ◌-◌, Bool, true, false, not, ◌&&◌, List, [], ◌∷◌, ◌++◌, length, replicate, Option,
  none, some, ltb, leb, ◌==◌, if◌then◌else◌,
}
use python_oracledb.Prelude.Int.{ℤ, pos, ltb_ℤ, pos_part, neg_part}
use python_oracledb.Buffer.{M, ◌>>=◌, pure}
use python_oracledb.Buffer.Length.{read_raw_bytes_and_length}
use python_oracledb.Number.{Decimal}
use python_oracledb.Number.Wire.{is_positive, parse_decimal}

pub data NumType : Type 0 where
  num_type_float num_type_int num_type_decimal num_type_str : NumType

pub data PyNumber : Type 0 where
  py_int py_decimal py_str py_float : List ℕ → PyNumber

-- The digits from place `i` on, with the decimal point before the digit at its index.
unfoldable pub place_digits : ℕ → ℕ → List ℕ → List ℕ
place_digits i index [] = []
place_digits i index (d ∷ ds) =
    (if ltb 0 i && i == index then b'.' ∷ (b'0' + d) ∷ [] else (b'0' + d) ∷ [])
    ++ place_digits (suc i) index ds

-- A decimal point index of 0 or less.
abbrev pub below_one : ℤ → Bool
below_one index = not (ltb_ℤ (pos 0) index)

unfoldable pub number_text : Decimal → List ℕ
unfolding place_digits
number_text n =
    let index = n.decimal_point_index in
    (if n.is_negative then b'-' ∷ [] else [])
    ++ ((if below_one index then b'0' ∷ b'.' ∷ replicate (neg_part index) b'0' else [])
        ++ (place_digits 0 (pos_part index) n.digits
            ++ replicate (pos_part index - length n.digits) b'0'))

-- No decimal point was put into the text.
unfoldable pub is_integer : Decimal → Bool
is_integer n =
    not (below_one n.decimal_point_index) && leb (length n.digits) (pos_part n.decimal_point_index)

unfoldable pub convert : NumType → Bool → List ℕ → PyNumber
convert num_type_int whole text = if whole then py_int text else py_float text
convert num_type_decimal whole text = py_decimal text
convert num_type_str whole text = py_str text
convert num_type_float whole text = py_float text

abbrev pub minus_one_e126 : List ℕ
minus_one_e126 = b'-' ∷ b'1' ∷ b'e' ∷ b'1' ∷ b'2' ∷ b'6' ∷ []

-- One byte: zero, or -1e126, which Python spells without an exponent where it is an int.
unfoldable pub no_mantissa : NumType → Bool → PyNumber
no_mantissa num_type_int true = py_int (b'0' ∷ [])
no_mantissa num_type_decimal true = py_decimal (b'0' ∷ [])
no_mantissa num_type_str true = py_str (b'0' ∷ [])
no_mantissa num_type_float true = py_float (b'0' ∷ [])
no_mantissa num_type_int false = py_int (b'-' ∷ b'1' ∷ replicate 126 b'0')
no_mantissa num_type_decimal false = py_decimal minus_one_e126
no_mantissa num_type_str false = py_str minus_one_e126
no_mantissa num_type_float false = py_float minus_one_e126

unfoldable pub parse_oracle_number : NumType → List ℕ → Option PyNumber
unfolding number_text is_integer convert no_mantissa parse_decimal is_positive
parse_oracle_number preferred [] = none
parse_oracle_number preferred (b ∷ []) = some (no_mantissa preferred (is_positive b))
parse_oracle_number preferred (b ∷ c ∷ bs) =
    let n = parse_decimal b (c ∷ bs) in some (convert preferred (is_integer n) (number_text n))

unfoldable pub read_oracle_number : (ℕ → M (List ℕ)) → NumType → M (Option PyNumber)
unfolding read_raw_bytes_and_length parse_oracle_number
read_oracle_number helper preferred = do
  ptr ← read_raw_bytes_and_length helper
  pure (elim ptr [ none ↦ none | some bytes ↦ parse_oracle_number preferred bytes ])
