-- ===== src/Rowid/Text.antt =====
-- The text of a rowid (src/oracledb/impl/thin/utils.pyx) gives the rowid back.
use python_oracledb.Prelude.{
  ℕ, zero, suc, ◌+◌, ◌-◌, ◌*◌, ◌/◌, ◌%◌, ◌^◌, ◌<◌, ◌≡◌, refl, sym, ◌∙◌, ap, arith, bit_and, Bool,
  true, not, ◌&&◌, ◌||◌, List, [], ◌∷◌, ◌++◌, length, length-append, take, drop, take-length-append,
  drop-length-append, drop-drop, take_all, get_or, some, leb, ◌==◌, if◌then◌else◌,
}
use python_oracledb.Prelude.Bits.{bit_and_mask}
use native.Mathlib.Nat.{pow-suc}
use python_oracledb.Rowid.{
  Rowid, base64_char, convert_base64, alphabet, encode_rowid, logical_chars, logical_length,
  logical_rowid,
}

-- The digit of a character in base 64: A-Z, a-z, 0-9, + and /.
abbrev pub digit : ℕ → ℕ
digit c =
    if leb 97 c
    then c - 71
    else if leb 65 c
    then c - 65
    else if leb 48 c
    then c + 4
    else if c == 43
    then 62
    else 63

-- The number with these digits behind `n`.
abbrev pub number : ℕ → List ℕ → ℕ
number n [] = n
number n (c ∷ cs) = number (n * 64 + digit c) cs

-- Rowid texts as they are read: fields of 6, 3, 6 and 3 characters.
abbrev pub decode_rowid : List ℕ → Rowid
decode_rowid text = record {
  rba = number 0 (take 6 text);
  partition_id = number 0 (take 3 (drop 6 text));
  block_num = number 0 (take 6 (drop 9 text));
  slot_num = number 0 (take 3 (drop 15 text));
}

-- The characters of the list have the digits from `k` on.
has_digits : ℕ → List ℕ → Bool
has_digits k [] = true
has_digits k (c ∷ cs) = digit c == k && has_digits (k + 1) cs

digit-get_or :
    (k i : ℕ) (cs : List ℕ) → has_digits k cs ≡ true → i < length cs → digit (get_or cs i 0) ≡ k + i
unfolding has_digits
digit-get_or k i [] t h = absurd (omega (arith, h))
digit-get_or k zero (c ∷ cs) t h = ground (arith, t)
digit-get_or k (suc i) (c ∷ cs) t h =
    digit-get_or (k + 1) i cs (ground (arith, t)) (omega (arith, h)) ∙ omega arith

digit-base64_char : (i : ℕ) → i < 64 → digit (base64_char i) ≡ i
unfolding base64_char has_digits
digit-base64_char i h = digit-get_or 0 i alphabet refl (omega (arith, h)) ∙ omega arith

number-append : (n : ℕ) (xs : List ℕ) (c : ℕ) → number n (xs ++ c ∷ []) ≡ number n xs * 64 + digit c
number-append n [] c = refl
number-append n (x ∷ xs) c = number-append (n * 64 + digit x) xs c

number-convert_base64 : (size v : ℕ) → v < 64 ^ size → number 0 (convert_base64 size v) ≡ v
unfolding convert_base64
number-convert_base64 zero v h = omega (arith, h)
number-convert_base64 (suc size) v h =
    let low : bit_and v 0x3f ≡ v % 64 = bit_and_mask 6 v in
    let high = number-convert_base64 size (v / 64) (omega (arith, h, pow-suc 64 size)) in
    number-append 0 (convert_base64 size (v / 64)) (base64_char (bit_and v 0x3f))
    ∙ omega (arith, high, low, digit-base64_char (bit_and v 0x3f) (omega (arith, low)))

length-convert_base64 : (size v : ℕ) → length (convert_base64 size v) ≡ size
unfolding convert_base64
length-convert_base64 zero v = refl
length-convert_base64 (suc size) v = omega (
  arith,
  length-append (convert_base64 size (v / 64)) (base64_char (bit_and v 0x3f) ∷ []),
  length-convert_base64 size (v / 64),
)

abbrev rowid : ℕ → ℕ → ℕ → ℕ → Rowid
rowid a b c d = record { rba = a; partition_id = b; block_num = c; slot_num = d }

same_rowid :
    {a b c d a' b' c' d' : ℕ}
    → a ≡ a'
    → b ≡ b'
    → c ≡ c'
    → d ≡ d'
    → rowid a b c d ≡ rowid a' b' c' d'
same_rowid e f g h = cc

-- Four fields one after the other.
module _ (p q u v : List ℕ) (lp : length p ≡ 6) (lq : length q ≡ 3) (lu : length u ≡ 6)
    (lv : length v ≡ 3) where
  text : List ℕ
  text = p ++ (q ++ (u ++ v))

  behind_first : drop 6 text ≡ q ++ (u ++ v)
  unfolding text
  behind_first = drop-length-append 6 p (q ++ (u ++ v)) (sym lp)

  behind_second : drop 9 text ≡ u ++ v
  behind_second =
      sym (drop-drop 3 6 text) ∙ ap (drop 3) behind_first ∙ drop-length-append 3 q (u ++ v) (sym lq)

  behind_third : drop 15 text ≡ v
  behind_third =
      sym (drop-drop 6 9 text) ∙ ap (drop 6) behind_second ∙ drop-length-append 6 u v (sym lu)

  fields : decode_rowid text ≡ rowid (number 0 p) (number 0 q) (number 0 u) (number 0 v)
  unfolding text
  fields =
      same_rowid (ap (number 0) (take-length-append 6 p (q ++ (u ++ v)) (sym lp)))
        (ap (λ xs. number 0 (take 3 xs)) behind_first
          ∙ ap (number 0) (take-length-append 3 q (u ++ v) (sym lq)))
        (ap (λ xs. number 0 (take 6 xs)) behind_second
          ∙ ap (number 0) (take-length-append 6 u v (sym lu)))
        (ap (λ xs. number 0 (take 3 xs)) behind_third
          ∙ ap (number 0) (take_all 3 v (omega (arith, lv))))

  length-text : length text ≡ 18
  unfolding text
  length-text = omega (
    arith,
    lp,
    lq,
    lu,
    lv,
    length-append p (q ++ (u ++ v)),
    length-append q (u ++ v),
    length-append u v,
  )

nonzero :
    (a b c d : ℕ)
    → 0 < a + b + c + d
    → not (a == 0) || not (b == 0) || not (c == 0) || not (d == 0) ≡ true
nonzero a b c d h = ground (arith, h)

encode_some :
    (r : Rowid)
    → 0 < r.rba + r.partition_id + r.block_num + r.slot_num
    → encode_rowid r
      ≡ some (
          convert_base64 6 r.rba
          ++ (convert_base64 3 r.partition_id
              ++ (convert_base64 6 r.block_num ++ convert_base64 3 r.slot_num)))
unfolding encode_rowid
encode_some r h = rw (nonzero r.rba r.partition_id r.block_num r.slot_num h) refl

-- A rowid whose fields fit in their types and that is not all zeros is encoded as 18 characters, from
-- which its fields are read back.
pub decode_rowid-encode_rowid :
    (r : Rowid)
    → r.rba < 2 ^ 32
    → r.partition_id < 2 ^ 16
    → r.block_num < 2 ^ 32
    → r.slot_num < 2 ^ 16
    → 0 < r.rba + r.partition_id + r.block_num + r.slot_num
    → (text : List ℕ) × (encode_rowid r ≡ some text) × (length text ≡ 18) × (decode_rowid text ≡ r)
unfolding text
decode_rowid-encode_rowid r a b c d nz =
    let l = length-convert_base64 in
    let p = convert_base64 6 r.rba in
    let q = convert_base64 3 r.partition_id in
    let u = convert_base64 6 r.block_num in
    let v = convert_base64 3 r.slot_num in
    let read =
      same_rowid (number-convert_base64 6 r.rba (omega arith))
        (number-convert_base64 3 r.partition_id (omega arith))
        (number-convert_base64 6 r.block_num (omega arith))
        (number-convert_base64 3 r.slot_num (omega arith)) in
    let lp = l 6 r.rba in
    let lq = l 3 r.partition_id in
    let lu = l 6 r.block_num in
    let lv = l 3 r.slot_num in
    (
      text p q u v lp lq lu lv,
      encode_some r nz,
      length-text p q u v lp lq lu lv,
      fields p q u v lp lq lu lv ∙ read,
    )

logical_length_step : (n : ℕ) → logical_length (n + 3) ≡ logical_length n + 4
unfolding logical_length
logical_length_step n =
    let r : (n + 3) % 3 ≡ n % 3 = omega arith in
    let q : (n + 3) / 3 ≡ n / 3 + 1 = omega arith in ground (arith, r, q)

logical_length_small : (logical_length 1 ≡ 1) × (logical_length 2 ≡ 3) × (logical_length 3 ≡ 4)
unfolding logical_length
logical_length_small = (refl, refl, refl)

length-logical_chars :
    (bytes : List ℕ) → suc (length (logical_chars bytes)) ≡ logical_length (suc (length bytes))
unfolding logical_chars
length-logical_chars [] = sym logical_length_small.0
length-logical_chars (x ∷ []) = sym logical_length_small.1
length-logical_chars (x ∷ y ∷ []) = sym logical_length_small.2
length-logical_chars (x ∷ y ∷ z ∷ rest) =
    let e : suc (suc (suc (suc (length rest)))) ≡ suc (length rest) + 3 = omega arith in
    let f : suc (suc (suc (suc (suc (length (logical_chars rest))))))
        ≡ suc (length (logical_chars rest)) + 4 =
      omega arith in
    f
    ∙ ap (λ n. n + 4) (length-logical_chars rest)
    ∙ sym (logical_length_step (suc (length rest)))
    ∙ sym (ap logical_length e)

-- The array that is made for a logical rowid has the size of its characters.
pub length-logical_rowid :
    (b : ℕ) (bytes : List ℕ)
    → length (logical_rowid (b ∷ bytes)) ≡ logical_length (length (b ∷ bytes))
unfolding logical_rowid
length-logical_rowid b bytes = length-logical_chars bytes
