-- ===== src/ConnectString/RoundTrip.antt =====
-- src/oracledb/impl/base/parsers.pyx: the parser of connect descriptors on the text of a tree.
use python_oracledb.Prelude.{
  ℕ, zero, suc, ◌<◌, ◌≡◌, refl, sym, ap, ◌∙◌, arith, Bool, true, false, ◌||◌, List, [], ◌∷◌, ◌++◌,
  length, none, some, ◌==◌, Bool-cases, inl, inr,
}
use mathlib.Core.List.{append_assoc, append-nil}
use python_oracledb.Errors.{ok}
use python_oracledb.StatementParser.Tokens.{all_chars}
use python_oracledb.StatementParser.Scans.{and_true}
use python_oracledb.ConnectString.{
  Args, Scan, PairParser, drop_spaces, keyword, step, value_loop, close_parenthesis, parse_value,
  after_equals, after_name, parse_pair, store_arg, scanned, is_keyword_char,
}
use python_oracledb.ConnectString.Descriptor.{is_plain, key, IsName}

or_right : (a b : Bool) → a ≡ false → (a || b) ≡ true → b ≡ true
or_right true b n e = cc
or_right false b n e = e

pub plain_char :
    (ch : ℕ)
    → is_plain ch ≡ true
    → ((ch == b'"') ≡ false) × ((ch == b'(') ≡ false) × ((ch == b')') ≡ false)
plain_char ch e = ground arith

-- What is known of characters.
pub record Lawful (is_space is_alpha : ℕ → Bool) : Type 0 where
  pub open_space : is_space b'(' ≡ false
  pub close_space : is_space b')' ≡ false
  pub equals_space : is_space b'=' ≡ false
  pub underscore_space : is_space b'_' ≡ false
  pub equals_alpha : is_alpha b'=' ≡ false
  pub alpha_space : (ch : ℕ) → is_alpha ch ≡ true → is_space ch ≡ false

module _ (is_space is_alpha : ℕ → Bool) (lower : List ℕ → List ℕ)
    (lawful : Lawful is_space is_alpha) where
  pub no_spaces :
      (ch : ℕ) (cs : List ℕ) → is_space ch ≡ false → drop_spaces is_space (ch ∷ cs) ≡ ch ∷ cs
  unfolding drop_spaces
  no_spaces ch cs e = rw e refl

  keyword_lem :
      (name rest : List ℕ)
      → all_chars (is_keyword_char is_space is_alpha lower) name ≡ true
      → keyword is_space is_alpha lower (name ++ (b'=' ∷ rest)) ≡ (name, b'=' ∷ rest)
  unfolding keyword
  keyword_lem [] rest e = rw lawful.equals_alpha refl
  keyword_lem (ch ∷ cs) rest e =
      let (here, later) = and_true (is_keyword_char is_space is_alpha lower ch) _ e in
      rw (here, keyword_lem cs rest later) refl

  keyword_char_space :
      (ch : ℕ) → is_keyword_char is_space is_alpha lower ch ≡ true → is_space ch ≡ false
  keyword_char_space ch e = elim (Bool-cases (is_alpha ch)) [
    | inl a ↦ lawful.alpha_space ch a
    | inr n ↦
        let underscore : (ch == b'_') ≡ true = or_right (is_alpha ch) (ch == b'_') n e in
        let same : ch ≡ b'_' = ground arith in ap is_space same ∙ lawful.underscore_space
  ]

  -- The characters of a text up to the closing parenthesis.
  pub text_loop :
      (pair : PairParser) (fuel : ℕ) (name acc body rest : List ℕ)
      → all_chars is_plain body ≡ true
      → length body < fuel
      → value_loop is_space is_alpha lower pair fuel name
          (record { found = none; simple = some acc })
          (body ++ (b')' ∷ rest))
        ≡ ok (record { found = none; simple = some (acc ++ body) }, b')' ∷ rest)
  unfolding value_loop step
  text_loop pair zero name acc body rest p h = absurd (omega (arith, h))
  text_loop pair (suc fuel) name acc [] rest p h =
      ap (λ xs. ok (record { found = none; simple = some xs }, b')' ∷ rest)) (sym (append-nil acc))
  text_loop pair (suc fuel) name acc (ch ∷ cs) rest p h =
      let (here, later) = and_true (is_plain ch) _ p in
      let (q, o, c) = plain_char ch here in
      rw (q, o, c)
        (text_loop pair fuel name (acc ++ (ch ∷ [])) cs rest later (omega (arith, h))
          ∙ ap (λ xs. ok (record { found = none; simple = some xs }, b')' ∷ rest))
              (append_assoc acc (ch ∷ []) cs))

  pub headed :
      (depth v : ℕ) (name vs rest : List ℕ) (args : Args)
      → IsName is_space is_alpha lower name
      → is_space v ≡ false
      → parse_pair is_space is_alpha lower (suc depth) args ((name ++ (b'=' ∷ v ∷ vs)) ++ rest)
        ≡ parse_value is_space is_alpha lower
            (parse_pair is_space is_alpha lower depth)
            (key is_space is_alpha lower name)
            args
            (v ∷ (vs ++ rest))
  unfolding parse_pair after_name after_equals
  headed depth v [] vs rest args n e = elim n [ ]
  headed depth v (c ∷ cs) vs rest args n e =
      let (first, _) = and_true (is_keyword_char is_space is_alpha lower c) _ n in
      let pair = parse_pair is_space is_alpha lower depth in
      let whole : (c ∷ cs ++ (b'=' ∷ v ∷ vs)) ++ rest ≡ (c ∷ cs) ++ (b'=' ∷ v ∷ (vs ++ rest)) =
        append_assoc (c ∷ cs) (b'=' ∷ v ∷ vs) rest in
      let read : keyword is_space is_alpha lower
            (drop_spaces is_space ((c ∷ cs ++ (b'=' ∷ v ∷ vs)) ++ rest))
          ≡ (c ∷ cs, b'=' ∷ v ∷ (vs ++ rest)) =
        ap (λ xs. keyword is_space is_alpha lower (drop_spaces is_space xs)) whole
        ∙ ap (keyword is_space is_alpha lower) (no_spaces c _ (keyword_char_space c first))
        ∙ keyword_lem (c ∷ cs) (v ∷ (vs ++ rest)) n in
      ap (λ r. after_name is_space is_alpha lower pair r.0 args r.1) read
      ∙ ap (after_equals is_space is_alpha lower pair (key is_space is_alpha lower (c ∷ cs)) args)
          (no_spaces b'=' (v ∷ (vs ++ rest)) lawful.equals_space)
      ∙ ap (parse_value is_space is_alpha lower pair (key is_space is_alpha lower (c ∷ cs)) args)
          (no_spaces v (vs ++ rest) e)

  pub ended :
      (pair : PairParser) (name cs rest : List ℕ) (args : Args) (s : Scan)
      → value_loop is_space is_alpha lower pair
          (suc (length cs))
          name
          (record { found = none; simple = none })
          cs
        ≡ ok (s, b')' ∷ rest)
      → parse_value is_space is_alpha lower pair name args cs
        ≡ ok (store_arg name (scanned is_space is_alpha lower s) args, drop_spaces is_space rest)
  unfolding parse_value close_parenthesis
  ended pair name cs rest args s e = rw (e, no_spaces b')' rest lawful.close_space) refl
