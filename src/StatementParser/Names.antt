-- ===== src/StatementParser/Names.antt =====
-- StatementParser._parse_bind_name on a name that is followed by any text.
use python_oracledb.Prelude.{
  ℕ, suc, ◌+◌, ◌-◌, ◌≡◌, refl, sym, ap, ◌∙◌, arith, Bool, true, false, List, [], ◌∷◌, ◌++◌, length,
  take, drop, drop-drop, take-length-append, drop-length-append, ◌==◌,
}
use python_oracledb.Errors.{ok, ◌>>=◌}
use python_oracledb.StatementCache.Dict.{contains}
use python_oracledb.Statement.{Statement}
use python_oracledb.Statement.Binds.{add_bind}
use python_oracledb.StatementParser.Bind.{
  Characters, NameScan, slice, is_name_char, first_char, later_char, name_char, scan_bind_name,
  name_of, add_scanned, parse_bind_name, with_pos,
}
use python_oracledb.StatementParser.Tokens.{all_chars, ends_before, is_mark}
use python_oracledb.StatementParser.Scans.{and_true, negated, contains-uncons}

-- What is known of characters.
pub record Lawful (chars : Characters) : Type 0 where
  pub mark_alpha : (ch : ℕ) → is_mark ch ≡ true → chars.is_alpha ch ≡ false
  pub mark_space : (ch : ℕ) → is_mark ch ≡ true → chars.is_space ch ≡ false
  pub alpha_space : (ch : ℕ) → chars.is_alpha ch ≡ true → chars.is_space ch ≡ false
  pub alpha_digit : (ch : ℕ) → chars.is_alpha ch ≡ true → chars.is_digit ch ≡ false
  pub digit_space : (ch : ℕ) → chars.is_digit ch ≡ true → chars.is_space ch ≡ false

module _ (chars : Characters) where
  abbrev scanning : Bool → Bool → ℕ → ℕ → ℕ → NameScan
  scanning quoted digits start temp_pos pos = record {
    quoted_name = quoted;
    in_bind = true;
    digits_only = digits;
    start_pos = start;
    temp_pos = temp_pos;
    pos = pos;
  }

  pub scan_unquoted :
      (start t pos : ℕ) (name rest : List ℕ)
      → all_chars (is_name_char chars) name ≡ true
      → ends_before (is_name_char chars) rest ≡ true
      → scan_bind_name chars (scanning false false start t pos) (name ++ rest)
        ≡ scanning false false start (t + length name) (t + length name - 1)
  unfolding scan_bind_name name_char later_char
  scan_unquoted start t pos [] [] a b = cc
  scan_unquoted start t pos [] (stop ∷ rest) a b =
      let k : t ≡ t + 0 = omega arith in
      rw (negated (is_name_char chars stop) b) (ap (λ k. scanning false false start k (k - 1)) k)
  scan_unquoted start t pos (c ∷ cs) rest a b =
      let (here, later) = and_true (is_name_char chars c) (all_chars (is_name_char chars) cs) a in
      let k : suc t + length cs ≡ t + suc (length cs) = omega arith in
      rw here (
        scan_unquoted start (suc t) pos cs rest later b
        ∙ ap (λ k. scanning false false start k (k - 1)) k)

  pub scan_digits :
      (start t pos : ℕ) (name rest : List ℕ)
      → all_chars chars.is_digit name ≡ true
      → ends_before chars.is_digit rest ≡ true
      → scan_bind_name chars (scanning false true start t pos) (name ++ rest)
        ≡ scanning false true start (t + length name) (t + length name - 1)
  unfolding scan_bind_name name_char later_char
  scan_digits start t pos [] [] a b = cc
  scan_digits start t pos [] (stop ∷ rest) a b =
      let k : t ≡ t + 0 = omega arith in
      rw (negated (chars.is_digit stop) b) (ap (λ k. scanning false true start k (k - 1)) k)
  scan_digits start t pos (c ∷ cs) rest a b =
      let (here, later) = and_true (chars.is_digit c) (all_chars chars.is_digit cs) a in
      let k : suc t + length cs ≡ t + suc (length cs) = omega arith in
      rw here (
        scan_digits start (suc t) pos cs rest later b
        ∙ ap (λ k. scanning false true start k (k - 1)) k)

  pub scan_name_quoted :
      (start t pos : ℕ) (name rest : List ℕ)
      → contains b'"' name ≡ false
      → scan_bind_name chars (scanning true false start t pos) (name ++ (b'"' ∷ rest))
        ≡ scanning true false start (t + length name) (t + length name)
  unfolding scan_bind_name name_char later_char
  scan_name_quoted start t pos [] rest a =
      let k : t ≡ t + 0 = omega arith in ap (λ k. scanning true false start k k) k
  scan_name_quoted start t pos (c ∷ cs) rest a =
      let (here, later) = contains-uncons b'"' c cs a in
      let k : suc t + length cs ≡ t + suc (length cs) = omega arith in
      rw here (
        scan_name_quoted start (suc t) pos cs rest later
        ∙ ap (λ k. scanning true false start k k) k)

pub slice-drop :
    (from to : ℕ) (xs rest sql : List ℕ)
    → drop from sql ≡ xs ++ rest
    → to ≡ from + length xs
    → slice from to sql ≡ xs
slice-drop from to xs rest sql d e =
    ap (take (to - from)) d ∙ take-length-append (to - from) xs rest (omega (arith, e))

pub drop-more :
    (k pos : ℕ) (xs rest sql : List ℕ)
    → drop pos sql ≡ xs ++ rest
    → length xs ≡ k
    → drop (pos + k) sql ≡ rest
drop-more k pos xs rest sql d e =
    sym (drop-drop k pos sql) ∙ ap (drop k) d ∙ drop-length-append k xs rest (sym e)

module _ (chars : Characters) (lawful : Lawful chars) (sql : List ℕ) (pos : ℕ)
    (stmt : Statement) where
  -- What is left to do with the name that the scan found.
  abbrev pub Binds : List ℕ → ℕ → Type 0
  Binds name end =
      parse_bind_name chars sql pos stmt ≡ (add_bind name stmt >>= (λ s. ok (with_pos end s)))

  -- Where the slice of the text and the position are those of the name.
  sliced :
      (f : List ℕ → List ℕ) (from to found end : ℕ) (name rest : List ℕ)
      → drop from sql ≡ name ++ rest
      → to ≡ from + length name
      → found ≡ end
      → (add_bind (f (slice from to sql)) stmt >>= (λ s. ok (with_pos found s)))
        ≡ (add_bind (f name) stmt >>= (λ s. ok (with_pos end s)))
  sliced f from to found end name rest d t e =
      ap (λ w. add_bind (f w) stmt >>= (λ s. ok (with_pos found s)))
        (slice-drop from to name rest sql d t)
      ∙ ap (λ p. add_bind (f name) stmt >>= (λ s. ok (with_pos p s))) e

  pub parse_bind_name-unquoted :
      (ch : ℕ) (name rest : List ℕ)
      → drop (pos + 1) sql ≡ (ch ∷ name) ++ rest
      → chars.is_alpha ch ≡ true
      → (ch == b'"') ≡ false
      → all_chars (is_name_char chars) name ≡ true
      → ends_before (is_name_char chars) rest ≡ true
      → Binds (chars.upper (ch ∷ name)) (pos + 1 + length name)
  unfolding parse_bind_name scan_bind_name name_char first_char add_scanned name_of
  parse_bind_name-unquoted ch name rest d alpha unquoted all stop =
      rw
        (
          d,
          lawful.alpha_space ch alpha,
          unquoted,
          lawful.alpha_digit ch alpha,
          alpha,
          scan_unquoted chars (pos + 1) (suc (pos + 1)) pos name rest all stop,
        )
        (sliced chars.upper (pos + 1) (suc (pos + 1) + length name)
          (suc (pos + 1) + length name - 1) (pos + 1 + length name) (ch ∷ name) rest d (omega arith)
          (omega arith))

  pub parse_bind_name-number :
      (ch : ℕ) (name rest : List ℕ)
      → drop (pos + 1) sql ≡ (ch ∷ name) ++ rest
      → chars.is_digit ch ≡ true
      → (ch == b'"') ≡ false
      → all_chars chars.is_digit name ≡ true
      → ends_before chars.is_digit rest ≡ true
      → Binds (ch ∷ name) (pos + 1 + length name)
  unfolding parse_bind_name scan_bind_name name_char first_char add_scanned name_of
  parse_bind_name-number ch name rest d digit unquoted all stop =
      rw
        (
          d,
          lawful.digit_space ch digit,
          unquoted,
          digit,
          scan_digits chars (pos + 1) (suc (pos + 1)) pos name rest all stop,
        )
        (sliced (λ w. w) (pos + 1) (suc (pos + 1) + length name) (suc (pos + 1) + length name - 1)
          (pos + 1 + length name) (ch ∷ name) rest d (omega arith) (omega arith))

  pub parse_bind_name-quoted :
      (name rest : List ℕ)
      → drop (pos + 1) sql ≡ (b'"' ∷ []) ++ (name ++ (b'"' ∷ rest))
      → contains b'"' name ≡ false
      → Binds name (pos + 2 + length name)
  unfolding parse_bind_name scan_bind_name name_char first_char add_scanned name_of
  parse_bind_name-quoted name rest d plain =
      rw
        (
          d,
          lawful.mark_space b'"' refl,
          scan_name_quoted chars (pos + 1) (suc (pos + 1)) pos name rest plain,
        )
        (sliced (λ w. w) (pos + 1 + 1) (suc (pos + 1) + length name) (suc (pos + 1) + length name)
          (pos + 2 + length name) name (b'"' ∷ rest)
          (drop-more 1 (pos + 1) (b'"' ∷ []) (name ++ (b'"' ∷ rest)) sql d refl) (omega arith)
          (omega arith))
