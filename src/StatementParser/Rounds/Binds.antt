-- ===== src/StatementParser/Rounds/Binds.antt =====
-- A round of StatementParser.parse on each kind of bind.
use python_oracledb.Prelude.{
  ℕ, ◌+◌, ◌≡◌, refl, ap, ◌∙◌, arith, false, not, List, [], ◌∷◌, ◌++◌, length, length-append, drop,
  ◌==◌,
}
use mathlib.Core.List.{append_assoc}
use python_oracledb.Errors.{Result, stuck, err, ok, ◌>>=◌}
use python_oracledb.Statement.{Statement}
use python_oracledb.Statement.Binds.{add_bind}
use python_oracledb.StatementParser.Bind.{Characters, is_name_char, with_pos}
use python_oracledb.StatementParser.Main.{go, parse_mark, parse_char, advance}
use python_oracledb.StatementParser.Tokens.{
  bind, quoted_bind, number_bind, Reading, all_chars, ends_before, left_by, effect, with_name, fits,
}
use python_oracledb.StatementParser.Scans.{all_of, and_true, negated}
use python_oracledb.StatementParser.Names.{
  Lawful, drop-more, parse_bind_name-unquoted, parse_bind_name-number, parse_bind_name-quoted,
}
use python_oracledb.StatementParser.Agrees.{parser_at, Follows, drop-Follows, Agree, settled}
use python_oracledb.StatementParser.Rounds.{Takes}

module _ (chars : Characters) (lawful : Lawful chars) (sql rest : List ℕ)
    (pos start_pos start_ch : ℕ) (r : Reading) where
  -- The position behind a bind, whatever the name does to the statement.
  named :
      (token : List ℕ) (end : ℕ) (b : Result Statement)
      → Follows sql (token ++ rest) r.word pos start_pos start_ch
      → end + 1 ≡ pos + length token
      → Agree chars sql rest
          (((b >>= (λ s. ok (with_pos end s))) >>= (λ m.
              ok (record (parser_at pos start_pos start_ch r) {
                pos = m.0;
                stmt = m.1;
                last_was_string = false;
              })))
            >>= (λ p. ok (go (advance chars b':' p))))
          (b >>= (λ s. ok (left_by chars b':' false (record r { stmt = s }))))
  named token end stuck f e = tt
  named token end (err x) f e = refl
  named token end (ok s) f e =
      settled chars sql rest token pos start_pos start_ch (record r { stmt = s }) f b':' end false
        (lawful.mark_alpha b':' refl) e

  pub bind_taken :
      (ch : ℕ) (name : List ℕ)
      → Takes chars lawful sql rest pos start_pos start_ch r b':' (bind ch name)
  unfolding parse_char parse_mark effect with_name fits
  bind_taken ch name f h =
      let (fresh, alpha, unquoted, all, stop) =
        all_of (not r.after_string) (chars.is_alpha ch) (not (ch == b'"'))
          (all_chars (is_name_char chars) name) (ends_before (is_name_char chars) rest) h in
      rw
        (
          lawful.mark_space b':' refl,
          negated r.after_string fresh,
          parse_bind_name-unquoted chars lawful sql pos r.stmt ch name rest
              (drop-more 1 pos (b':' ∷ []) (ch ∷ (name ++ rest)) sql (drop-Follows f) refl) alpha
              (negated _ unquoted) all stop,
        )
        (named (b':' ∷ ch ∷ name) (pos + 1 + length name)
          (add_bind (chars.upper (ch ∷ name)) r.stmt) f (omega arith))

  pub number_taken :
      (ch : ℕ) (name : List ℕ)
      → Takes chars lawful sql rest pos start_pos start_ch r b':' (number_bind ch name)
  unfolding parse_char parse_mark effect with_name fits
  number_taken ch name f h =
      let (fresh, digit, unquoted, all, stop) =
        all_of (not r.after_string) (chars.is_digit ch) (not (ch == b'"'))
          (all_chars chars.is_digit name) (ends_before chars.is_digit rest) h in
      rw
        (
          lawful.mark_space b':' refl,
          negated r.after_string fresh,
          parse_bind_name-number chars lawful sql pos r.stmt ch name rest
              (drop-more 1 pos (b':' ∷ []) (ch ∷ (name ++ rest)) sql (drop-Follows f) refl) digit
              (negated _ unquoted) all stop,
        )
        (named (b':' ∷ ch ∷ name) (pos + 1 + length name) (add_bind (ch ∷ name) r.stmt) f
          (omega arith))

  pub quoted_bind_taken :
      (ch : ℕ) (name : List ℕ)
      → Takes chars lawful sql rest pos start_pos start_ch r b':' (quoted_bind ch name)
  unfolding parse_char parse_mark effect with_name fits
  quoted_bind_taken ch name f h =
      let (fresh, inside) = and_true (not r.after_string) _ h in
      let d : drop pos sql ≡ (b':' ∷ []) ++ (b'"' ∷ ((ch ∷ name) ++ (b'"' ∷ rest))) =
        drop-Follows f ∙ ap (λ xs. b':' ∷ b'"' ∷ xs) (append_assoc (ch ∷ name) (b'"' ∷ []) rest) in
      rw
        (
          lawful.mark_space b':' refl,
          negated r.after_string fresh,
          parse_bind_name-quoted chars lawful sql pos r.stmt (ch ∷ name) rest
              (drop-more 1 pos (b':' ∷ []) (b'"' ∷ ((ch ∷ name) ++ (b'"' ∷ rest))) sql d refl)
              (negated _ inside),
        )
        (named (b':' ∷ b'"' ∷ (ch ∷ name) ++ (b'"' ∷ [])) (pos + 2 + length (ch ∷ name))
          (add_bind (ch ∷ name) r.stmt) f (omega (arith, length-append (ch ∷ name) (b'"' ∷ []))))
