-- ===== src/StatementParser/Meaning.antt =====
-- A whole round of StatementParser.parse, with the word that ends in front of the token.
use python_oracledb.Prelude.{
  ℕ, ◌+◌, ◌≡◌, refl, sym, ap, ◌∙◌, true, false, not, ◌&&◌, List, [], ◌∷◌, ◌++◌, if◌then◌else◌,
  Bool-cases, inl, inr,
}
use python_oracledb.Errors.{ok, ◌>>=◌}
use python_oracledb.StatementCache.Dict.{contains}
use python_oracledb.StatementParser.{closing_separator}
use python_oracledb.StatementParser.Bind.{Characters}
use python_oracledb.StatementParser.Main.{
  go, parse_mark, parse_char, advance, look_for_keyword, round, go_on,
}
use python_oracledb.StatementParser.Tokens.{
  Token, json_colon, minus, divide, other, string, quoted, qstring, line_comment, block_comment,
  bind, quoted_bind, number_bind, render_token, Reading, Heard, after_q, fits, letter, act,
  behind_word, end_word, closed, open_at,
}
use python_oracledb.StatementParser.Scans.{is_mark-NoMark, and_true, negated}
use python_oracledb.StatementParser.Names.{Lawful}
use python_oracledb.StatementParser.Agrees.{
  parser_at, has_letters, Follows, Agree, Kept, end_word-Kept, look_for_word, to_round,
  letter-Follows,
}
use mathlib.Core.Path.{subst}
use python_oracledb.StatementParser.Rounds.{Takes}

has_letters-snoc : (word : List ℕ) (ch : ℕ) → has_letters (word ++ (ch ∷ [])) ≡ true
has_letters-snoc [] ch = refl
has_letters-snoc (w ∷ ws) ch = refl

module _ (chars : Characters) (lawful : Lawful chars) where
  fits-Kept :
      (t : Token) (r r' : Reading) (rest : List ℕ)
      → Kept chars r (open_at r')
      → fits chars t r rest ≡ true
      → fits chars t r' rest ≡ true
  unfolding fits
  fits-Kept (letter ch) r r' rest k h = h
  fits-Kept (other ch) r r' rest k h = h
  fits-Kept json_colon r r' rest (w, a, l) h = a ∙ h
  fits-Kept minus r r' rest k h = h
  fits-Kept divide r r' rest k h = h
  fits-Kept (string body) r r' rest (w, a, l) h =
      ap (λ ch. not (after_q ch) && not (contains b'\'' body)) l ∙ h
  fits-Kept (quoted body) r r' rest k h = h
  fits-Kept (qstring sep body) r r' rest (w, a, l) h =
      ap (λ ch. after_q ch && not (contains (closing_separator sep) body)) l ∙ h
  fits-Kept (line_comment body linebreak) r r' rest k h = h
  fits-Kept (block_comment body) r r' rest k h = h
  fits-Kept (bind ch name) r r' rest (w, a, l) h = rw a h
  fits-Kept (quoted_bind ch name) r r' rest (w, a, l) h = rw a h
  fits-Kept (number_bind ch name) r r' rest (w, a, l) h = rw a h

  module _ (sql rest : List ℕ) (pos start_pos start_ch : ℕ) where
    by_heard :
        (t : Token) (ch : ℕ) (r : Reading) (heard : Heard)
        → ((r' : Reading) → Takes chars lawful sql rest pos start_pos start_ch r' ch t)
        → Follows sql (render_token t ++ rest) r.word pos start_pos start_ch
        → fits chars t r rest ≡ true
        → Kept chars r heard
        → Agree chars sql rest
            (go_on chars sql ch (to_round chars pos start_pos start_ch heard))
            (behind_word chars t heard)
    unfolding behind_word go_on
    by_heard t ch r (closed stmt) takes f h k = refl
    by_heard t ch r (open_at r') takes f h k =
        takes r'
          (subst (λ word. Follows sql (render_token t ++ rest) word pos start_pos start_ch)
            (sym k.0) f)
          (fits-Kept t r r' rest k h)

    pub behind_round :
        (t : Token) (ch : ℕ) (r : Reading)
        → ((r' : Reading) → Takes chars lawful sql rest pos start_pos start_ch r' ch t)
        → chars.is_alpha ch ≡ false
        → Follows sql (render_token t ++ rest) r.word pos start_pos start_ch
        → fits chars t r rest ≡ true
        → Agree chars sql rest
            (round chars sql ch (parser_at pos start_pos start_ch r))
            (behind_word chars t (end_word chars r.word r))
    unfolding round
    behind_round t ch r takes o f h =
        subst
          (λ x.
            Agree chars sql rest (go_on chars sql ch x)
              (behind_word chars t (end_word chars r.word r)))
          (sym (
            look_for_word chars sql (render_token t ++ rest) r.word pos start_pos start_ch ch r refl
              f o))
          (by_heard t ch r (end_word chars r.word r) takes f h (end_word-Kept chars r.word r))

    look_for_letter :
        (ch : ℕ) (r : Reading)
        → chars.is_alpha ch ≡ true
        → look_for_keyword chars sql ch (parser_at pos start_pos start_ch r)
          ≡ go (
              parser_at pos
                (if has_letters r.word then start_pos else pos)
                (if has_letters r.word then start_ch else ch)
                r)
    unfolding look_for_keyword
    look_for_letter ch r a = elim (Bool-cases (has_letters r.word)) [
      | inl e ↦ rw (a, e) refl
      | inr e ↦ rw (a, e) refl
    ]

    pub letter_round :
        (ch : ℕ) (r : Reading)
        → Follows sql (ch ∷ rest) r.word pos start_pos start_ch
        → fits chars (letter ch) r rest ≡ true
        → Agree chars sql rest
            (round chars sql ch (parser_at pos start_pos start_ch r))
            (act chars (letter ch) r)
    unfolding round go_on act parse_char parse_mark advance fits
    letter_round ch r f h =
        let (a, no_mark) = and_true (chars.is_alpha ch) _ h in
        let n = is_mark-NoMark ch (negated _ no_mark) in
        let s = if has_letters r.word then start_pos else pos in
        let c = if has_letters r.word then start_ch else ch in
        let q = parser_at pos s c r in
        let parsed : parse_char chars sql ch q ≡ ok (record q { last_was_string = false }) =
          rw (n.no_quote, lawful.alpha_space ch a, n.no_dash, n.no_slash, n.no_double, n.no_colon)
            refl in
        let same : round chars sql ch (parser_at pos start_pos start_ch r)
            ≡ ok (go (advance chars ch (record q { last_was_string = false }))) =
          ap (go_on chars sql ch) (look_for_letter ch r a)
          ∙ ap (λ x. x >>= (λ p. ok (go (advance chars ch p)))) parsed in
        subst (λ x. Agree chars sql rest x (act chars (letter ch) r)) (sym same)
          (
            pos + 1,
            s,
            c,
            rw (a, has_letters-snoc r.word ch) refl,
            letter-Follows chars sql rest r.word pos start_pos start_ch ch f,
          )
