-- ===== src/StatementParser/Rounds.antt =====
-- A round of StatementParser.parse on each kind of token.
pub mod Binds
use python_oracledb.Prelude.{
  ℕ, suc, ◌+◌, ◌-◌, ◌≤◌, ◌<◌, ◌≡◌, refl, ap, ◌∙◌, arith, true, false, not, ◌&&◌, ◌||◌, List, [],
  ◌∷◌, ◌++◌, length, length-append, drop, ◌==◌, if◌then◌else◌, Bool-cases, inl, inr,
}
use mathlib.Core.List.{append_assoc}
use python_oracledb.Errors.{ok, ◌>>=◌}
use python_oracledb.StatementCache.Dict.{contains}
use python_oracledb.StatementParser.{
  closing_separator, parse_multiple_line_comment, scan_multiple_line, parse_qstring, start_qstring,
  parse_quoted_string, parse_single_line_comment, scan_single_line,
}
use python_oracledb.StatementParser.Bind.{Characters}
use python_oracledb.StatementParser.Main.{go, parse_string, parse_mark, parse_char, advance}
use python_oracledb.StatementParser.Tokens.{
  Token, json_colon, minus, divide, other, string, quoted, qstring, line_comment, block_comment,
  render_token, Reading, after_q, all_chars, effect, fits,
}
use python_oracledb.StatementParser.Scans.{
  is_mark-NoMark, scan_single_line-minus, scan_multiple_line-divide, and_true, negated,
  scan_quoted-close, scan_qstring-close, to_linebreak-end, scan_multiple_line-close,
}
use python_oracledb.StatementParser.Names.{Lawful, drop-more}
use python_oracledb.StatementParser.Agrees.{parser_at, Follows, drop-Follows, Agree, settled}

module _ (chars : Characters) (lawful : Lawful chars) (sql rest : List ℕ)
    (pos start_pos start_ch : ℕ) (r : Reading) where
  -- The rest of the round on a token that starts with `ch`.
  abbrev pub Takes : ℕ → Token → Type 0
  Takes ch t =
      Follows sql (render_token t ++ rest) r.word pos start_pos start_ch
      → fits chars t r rest ≡ true
      → Agree chars sql rest
          (parse_char chars sql ch (parser_at pos start_pos start_ch r)
            >>= (λ p. ok (go (advance chars ch p))))
          (effect chars t r)

  pub string_taken : (body : List ℕ) → Takes b'\'' (string body)
  unfolding parse_char parse_string parse_quoted_string effect fits
  string_taken body f h =
      let (no_q, inside) = and_true (not (after_q r.last_ch)) (not (contains b'\'' body)) h in
      let d : drop pos sql ≡ (b'\'' ∷ []) ++ (body ++ (b'\'' ∷ rest)) =
        drop-Follows f ∙ ap (λ xs. b'\'' ∷ xs) (append_assoc body (b'\'' ∷ []) rest) in
      rw
        (
          negated (after_q r.last_ch) no_q,
          drop-more 1 pos (b'\'' ∷ []) (body ++ (b'\'' ∷ rest)) sql d refl,
          scan_quoted-close b'\'' (pos + 1) body rest (negated _ inside),
        )
        (settled chars sql rest (render_token (string body)) pos start_pos start_ch r f b'\''
          (suc (pos + 1) + length body - 1) true (lawful.mark_alpha b'\'' refl)
          (omega (arith, length-append body (b'\'' ∷ []))))

  pub colon_taken : Takes b':' json_colon
  unfolding parse_char parse_mark effect fits
  colon_taken f h =
      rw (lawful.mark_space b':' refl, h)
        (settled chars sql rest (b':' ∷ []) pos start_pos start_ch r f b':' pos false
          (lawful.mark_alpha b':' refl) refl)

  pub minus_taken : Takes b'-' minus
  unfolding parse_char parse_mark parse_single_line_comment effect fits
  minus_taken f h =
      rw
        (
          lawful.mark_space b'-' refl,
          drop-more 1 pos (b'-' ∷ []) rest sql (drop-Follows f) refl,
          scan_single_line-minus chars.is_linebreak chars.is_alpha chars.is_space pos rest h,
        )
        (settled chars sql rest (b'-' ∷ []) pos start_pos start_ch r f b'-' pos false
          (lawful.mark_alpha b'-' refl) refl)

  pub divide_taken : Takes b'/' divide
  unfolding parse_char parse_mark parse_multiple_line_comment effect fits
  divide_taken f h =
      rw
        (
          lawful.mark_space b'/' refl,
          drop-more 1 pos (b'/' ∷ []) rest sql (drop-Follows f) refl,
          scan_multiple_line-divide pos (pos + 1) rest h,
        )
        (settled chars sql rest (b'/' ∷ []) pos start_pos start_ch r f b'/' pos false
          (lawful.mark_alpha b'/' refl) refl)

  pub quoted_taken : (body : List ℕ) → Takes b'"' (quoted body)
  unfolding parse_char parse_mark parse_quoted_string effect fits
  quoted_taken body f h =
      let d : drop pos sql ≡ (b'"' ∷ []) ++ (body ++ (b'"' ∷ rest)) =
        drop-Follows f ∙ ap (λ xs. b'"' ∷ xs) (append_assoc body (b'"' ∷ []) rest) in
      rw
        (
          lawful.mark_space b'"' refl,
          drop-more 1 pos (b'"' ∷ []) (body ++ (b'"' ∷ rest)) sql d refl,
          scan_quoted-close b'"' (pos + 1) body rest (negated _ h),
        )
        (settled chars sql rest (render_token (quoted body)) pos start_pos start_ch r f b'"'
          (suc (pos + 1) + length body - 1) false (lawful.mark_alpha b'"' refl)
          (omega (arith, length-append body (b'"' ∷ []))))

  pub qstring_taken : (sep : ℕ) (body : List ℕ) → Takes b'\'' (qstring sep body)
  unfolding parse_char parse_string parse_qstring start_qstring effect fits
  qstring_taken sep body f h =
      let (q, inside) = and_true (after_q r.last_ch) _ h in
      let close = closing_separator sep in
      let d : drop pos sql ≡ (b'\'' ∷ []) ++ (sep ∷ (body ++ (close ∷ b'\'' ∷ rest))) =
        drop-Follows f
        ∙ ap (λ xs. b'\'' ∷ sep ∷ xs) (append_assoc body (close ∷ b'\'' ∷ []) rest) in
      rw
        (
          q,
          drop-more 1 pos (b'\'' ∷ []) (sep ∷ (body ++ (close ∷ b'\'' ∷ rest))) sql d refl,
          scan_qstring-close close (suc (pos + 1)) body rest (negated _ inside),
        )
        (settled chars sql rest (render_token (qstring sep body)) pos start_pos start_ch r f b'\''
          (suc (suc (pos + 1)) + length body) true (lawful.mark_alpha b'\'' refl)
          (omega (arith, length-append body (close ∷ b'\'' ∷ []))))

  pub line_comment_taken : (body : List ℕ) (lb : ℕ) → Takes b'-' (line_comment body lb)
  unfolding parse_char parse_mark parse_single_line_comment scan_single_line effect fits
  line_comment_taken body lb f h =
      let (inside, breaks) = and_true (all_chars (λ ch. not (chars.is_linebreak ch)) body) _ h in
      let d : drop pos sql ≡ (b'-' ∷ []) ++ (b'-' ∷ (body ++ (lb ∷ rest))) =
        drop-Follows f ∙ ap (λ xs. b'-' ∷ b'-' ∷ xs) (append_assoc body (lb ∷ []) rest) in
      rw
        (
          lawful.mark_space b'-' refl,
          drop-more 1 pos (b'-' ∷ []) (b'-' ∷ (body ++ (lb ∷ rest))) sql d refl,
          to_linebreak-end chars.is_linebreak chars.is_alpha chars.is_space (pos + 2) lb body rest
              inside breaks,
        )
        (settled chars sql rest (render_token (line_comment body lb)) pos start_pos start_ch r f
          b'-' (pos + 2 + length body) false (lawful.mark_alpha b'-' refl)
          (omega (arith, length-append body (lb ∷ []))))

  pub block_comment_taken : (body : List ℕ) → Takes b'/' (block_comment body)
  unfolding parse_char parse_mark parse_multiple_line_comment scan_multiple_line effect fits
  block_comment_taken body f h =
      let d : drop pos sql ≡ (b'/' ∷ []) ++ (b'*' ∷ (body ++ (b'*' ∷ b'/' ∷ rest))) =
        drop-Follows f ∙ ap (λ xs. b'/' ∷ b'*' ∷ xs) (append_assoc body (b'*' ∷ b'/' ∷ []) rest) in
      rw
        (
          lawful.mark_space b'/' refl,
          drop-more 1 pos (b'/' ∷ []) (b'*' ∷ (body ++ (b'*' ∷ b'/' ∷ rest))) sql d refl,
          scan_multiple_line-close false pos (suc (pos + 1)) body rest (negated _ h),
        )
        (settled chars sql rest (render_token (block_comment body)) pos start_pos start_ch r f b'/'
          (suc (suc (pos + 1)) + length body) false (lawful.mark_alpha b'/' refl)
          (omega (arith, length-append body (b'*' ∷ b'/' ∷ []))))

  pub other_taken : (ch : ℕ) → Takes ch (other ch)
  unfolding parse_char parse_mark effect fits
  other_taken ch f h =
      let (no_letter, no_mark) = and_true (not (chars.is_alpha ch)) _ h in
      let n = is_mark-NoMark ch (negated _ no_mark) in
      elim (Bool-cases (chars.is_space ch)) [
        | inl s ↦
            rw (n.no_quote, s)
              (settled chars sql rest (ch ∷ []) pos start_pos start_ch r f ch pos r.after_string
                (negated _ no_letter) refl)
        | inr s ↦
            rw (n.no_quote, s, n.no_dash, n.no_slash, n.no_double, n.no_colon)
              (settled chars sql rest (ch ∷ []) pos start_pos start_ch r f ch pos false
                (negated _ no_letter) refl)
      ]
