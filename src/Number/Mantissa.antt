-- ===== src/Number/Mantissa.antt =====
-- The mantissa bytes of a list of digits, and the digits that are parsed from them.
use python_oracledb.Prelude.{
  is_nil, ℕ, zero, suc, ◌+◌, ◌*◌, ◌/◌, ◌%◌, ◌<◌, ◌≡◌, ◌≢◌, sym, ap, ◌∙◌, arith, Bool, true, false,
  not, List, [], ◌∷◌, ◌++◌, length, ◌==◌, if◌then◌else◌,
}
use mathlib.Core.List.{append_assoc, append-nil}
use python_oracledb.Prelude.Int.{ℤ, pos, ◌-ℤ◌}
use python_oracledb.Number.Wire.{
  wire_digit, mantissa, number_digit, first_digit, second_digit, parse_mantissa,
}

abbrev pub AllDigits : List ℕ → Type 0
AllDigits [] = Unit {0}
AllDigits (d ∷ ds) = (d < 10) × AllDigits ds

-- Without the last digit, if that is a zero.
unfoldable pub trim : List ℕ → List ℕ
trim [] = []
trim (d ∷ []) = if d == 0 then [] else d ∷ []
trim (d ∷ e ∷ ds) = d ∷ trim (e ∷ ds)

-- A base-100 digit survives the wire, for either sign.
number_digit-wire_digit :
    (negative : Bool) (d : ℕ) → d < 100 → number_digit (not negative) (wire_digit negative d) ≡ d
unfolding number_digit wire_digit
number_digit-wire_digit true d h = omega arith
number_digit-wire_digit false d h = omega arith

-- The digits of a byte that is not the last one, behind others.
pair_state :
    (negative : Bool) (d e x : ℕ) (xs : List ℕ) (index : ℤ)
    → d < 10
    → e < 10
    → (let byte = number_digit (not negative) (wire_digit negative (d * 10 + e)) in
        second_digit false (byte % 10) (first_digit (byte / 10) (x ∷ xs, index)))
      ≡ (x ∷ (xs ++ d ∷ e ∷ []), index)
unfolding first_digit second_digit
pair_state negative d e x xs index hd he =
    let w = number_digit-wire_digit negative (d * 10 + e) (omega arith) in
    let q : (d * 10 + e) / 10 ≡ d = omega arith in
    let r : (d * 10 + e) % 10 ≡ e = omega arith in
    rw (w, q, r) (ground (arith, append_assoc xs (d ∷ []) (e ∷ [])))

-- The pairs behind a first digit that is already there.
pub parse_pairs :
    (n : ℕ) (negative : Bool) (ds : List ℕ) (x : ℕ) (xs : List ℕ) (index : ℤ)
    → length ds ≡ n + n
    → AllDigits ds
    → parse_mantissa (not negative) (mantissa n false negative ds) (x ∷ xs, index)
      ≡ ((x ∷ xs) ++ trim ds, index)
unfolding parse_mantissa mantissa trim
parse_pairs zero negative [] x xs index l a = ap (λ t. (x ∷ t, index)) (sym (append-nil xs))
parse_pairs zero negative (d ∷ ds) x xs index l a = absurd (omega arith)
parse_pairs (suc n) negative [] x xs index l a = absurd (omega arith)
parse_pairs (suc n) negative (d ∷ []) x xs index l a = absurd (omega arith)
parse_pairs (suc zero) negative (d ∷ e ∷ []) x xs index l a =
    let w = number_digit-wire_digit negative (d * 10 + e) (omega arith) in
    let q : (d * 10 + e) / 10 ≡ d = omega arith in
    let r : (d * 10 + e) % 10 ≡ e = omega arith in
    rw (w, q, r) (ground (arith, append_assoc xs (d ∷ []) (e ∷ []), append-nil xs))
parse_pairs (suc zero) negative (d ∷ e ∷ f ∷ ds) x xs index l a = absurd (omega arith)
parse_pairs (suc (suc n)) negative (d ∷ e ∷ []) x xs index l a = absurd (omega arith)
parse_pairs (suc (suc n)) negative (d ∷ e ∷ f ∷ []) x xs index l a = absurd (omega arith)
parse_pairs (suc (suc n)) negative (d ∷ e ∷ f ∷ g ∷ ds) x xs index l a =
    ap (parse_mantissa (not negative) (mantissa (suc n) false negative (f ∷ g ∷ ds)))
      (pair_state negative d e x xs index a.0 a.1.0)
    ∙ parse_pairs (suc n) negative (f ∷ g ∷ ds) x (xs ++ d ∷ e ∷ []) index (omega arith) a.1.1
    ∙ ap (λ t. (x ∷ t, index)) (append_assoc xs (d ∷ e ∷ []) (trim (f ∷ g ∷ ds)))

-- A first pair whose first digit is not zero.
pub parse_first_pair :
    (n : ℕ) (negative : Bool) (d e : ℕ) (ds : List ℕ) (index : ℤ)
    → d ≢ 0
    → length ds ≡ n + n
    → AllDigits (d ∷ e ∷ ds)
    → parse_mantissa (not negative) (mantissa (suc n) false negative (d ∷ e ∷ ds)) ([], index)
      ≡ (trim (d ∷ e ∷ ds), index)
unfolding parse_mantissa mantissa trim
parse_first_pair zero negative d e [] index h l a =
    let w = number_digit-wire_digit negative (d * 10 + e) (omega arith) in
    let q : (d * 10 + e) / 10 ≡ d = omega arith in
    let r : (d * 10 + e) % 10 ≡ e = omega arith in rw (w, q, r) (ground arith)
parse_first_pair zero negative d e (f ∷ ds) index h l a = absurd (omega arith)
parse_first_pair (suc n) negative d e [] index h l a = absurd (omega arith)
parse_first_pair (suc n) negative d e (f ∷ []) index h l a = absurd (omega arith)
parse_first_pair (suc n) negative d e (f ∷ g ∷ ds) index h l a =
    ap (parse_mantissa (not negative) (mantissa (suc n) false negative (f ∷ g ∷ ds))) first
    ∙ parse_pairs (suc n) negative (f ∷ g ∷ ds) d (e ∷ []) index (omega arith) a.1.1
  where
    first :
        (let byte = number_digit (not negative) (wire_digit negative (d * 10 + e)) in
          second_digit false (byte % 10) (first_digit (byte / 10) ([], index)))
        ≡ (d ∷ e ∷ [], index)
    first =
        let w = number_digit-wire_digit negative (d * 10 + e) (omega arith) in
        let q : (d * 10 + e) / 10 ≡ d = omega arith in
        let r : (d * 10 + e) % 10 ≡ e = omega arith in rw (w, q, r) (ground arith)

-- A first byte that holds one digit, behind a zero.
pub parse_single :
    (n : ℕ) (negative : Bool) (d : ℕ) (ds : List ℕ) (index : ℤ)
    → d ≢ 0
    → length ds ≡ n + n
    → AllDigits (d ∷ ds)
    → parse_mantissa (not negative) (mantissa (suc n) true negative (d ∷ ds)) ([], index)
      ≡ (d ∷ trim ds, index -ℤ pos 1)
unfolding parse_mantissa mantissa
parse_single n negative d ds index h l a =
    ap (parse_mantissa (not negative) (mantissa n false negative ds)) first
    ∙ parse_pairs n negative ds d [] (index -ℤ pos 1) l a.1
  where
    first :
        (let byte = number_digit (not negative) (wire_digit negative d) in
          second_digit
            (is_nil (mantissa n false negative ds))
            (byte % 10)
            (first_digit (byte / 10) ([], index)))
        ≡ (d ∷ [], index -ℤ pos 1)
    first =
        let w = number_digit-wire_digit negative d (omega arith) in
        let q : d / 10 ≡ 0 = omega arith in
        let r : d % 10 ≡ d = omega arith in rw (w, q, r) (ground arith)
