-- ===== src/StatementParser/Whole.antt =====
-- StatementParser.parse of src/oracledb/impl/thin/statement.pyx on the text of a list of tokens.
use python_oracledb.Prelude.{
  ℕ, zero, suc, ◌<◌, ◌≡◌, refl, sym, ap, ◌∙◌, arith, true, false, not, List, [], ◌∷◌, ◌++◌, length,
  length-append, drop, get_elem?, none,
}
use python_oracledb.Errors.{Result, stuck, err, ok, ◌>>=◌}
use python_oracledb.Statement.{Statement}
use python_oracledb.StatementParser.Bind.{Characters}
use python_oracledb.StatementParser.Main.{Round, break, go, round, parse_loop, parse}
use python_oracledb.StatementParser.Tokens.{
  Token, json_colon, minus, divide, other, string, quoted, qstring, line_comment, block_comment,
  bind, quoted_bind, number_bind, render_token, Reading, Heard, fits, letter, fit, act, behind_word,
  end_word, meaning, closed, open_at, render, opening,
}
use python_oracledb.StatementParser.Scans.{and_true, negated}
use python_oracledb.StatementParser.Names.{Lawful}
use python_oracledb.StatementParser.Agrees.{parser_at, Follows, drop-Follows, Agree, get_elem?-drop}
use python_oracledb.StatementParser.Rounds.{
  Takes, string_taken, colon_taken, minus_taken, divide_taken, quoted_taken, qstring_taken,
  line_comment_taken, block_comment_taken, other_taken,
}
use python_oracledb.StatementParser.Rounds.Binds.{bind_taken, number_taken, quoted_bind_taken}
use python_oracledb.StatementParser.Meaning.{behind_round, letter_round}

abbrev first : Token → ℕ
first (letter ch) = ch
first (other ch) = ch
first json_colon = b':'
first minus = b'-'
first divide = b'/'
first (string body) = b'\''
first (quoted body) = b'"'
first (qstring sep body) = b'\''
first (line_comment body linebreak) = b'-'
first (block_comment body) = b'/'
first (bind ch name) = b':'
first (quoted_bind ch name) = b':'
first (number_bind ch name) = b':'

first-render_token : (t : Token) → (tail : List ℕ) × (render_token t ≡ first t ∷ tail)
first-render_token (letter ch) = (_, refl)
first-render_token (other ch) = (_, refl)
first-render_token (string body) = (_, refl)
first-render_token (quoted body) = (_, refl)
first-render_token (qstring sep body) = (_, refl)
first-render_token (line_comment body lb) = (_, refl)
first-render_token (block_comment body) = (_, refl)
first-render_token (bind ch name) = (_, refl)
first-render_token (quoted_bind ch name) = (_, refl)
first-render_token (number_bind ch name) = (_, refl)
first-render_token json_colon = (_, refl)
first-render_token minus = (_, refl)
first-render_token divide = (_, refl)

get_elem?-end : (pos : ℕ) (sql : List ℕ) → drop pos sql ≡ [] → get_elem? sql pos ≡ none
get_elem?-end zero [] e = refl
get_elem?-end zero (x ∷ xs) e = cc
get_elem?-end (suc pos) [] e = refl
get_elem?-end (suc pos) (x ∷ xs) e = get_elem?-end pos xs e

module _ (chars : Characters) (lawful : Lawful chars) where
  module _ (sql rest : List ℕ) (pos start_pos start_ch : ℕ) where
    settles :
        (t : Token) (ch : ℕ) (r : Reading)
        → ((r' : Reading) → Takes chars lawful sql rest pos start_pos start_ch r' ch t)
        → chars.is_alpha ch ≡ false
        → Follows sql (render_token t ++ rest) r.word pos start_pos start_ch
        → fits chars t r rest ≡ true
        → Agree chars sql rest
            (round chars sql ch (parser_at pos start_pos start_ch r))
            (behind_word chars t (end_word chars r.word r))
    settles = behind_round chars lawful sql rest pos start_pos start_ch

    token_round :
        (t : Token) (r : Reading)
        → Follows sql (render_token t ++ rest) r.word pos start_pos start_ch
        → fits chars t r rest ≡ true
        → Agree chars sql rest
            (round chars sql (first t) (parser_at pos start_pos start_ch r))
            (act chars t r)
    unfolding act fits
    token_round (letter ch) r f h =
        letter_round chars lawful sql rest pos start_pos start_ch ch r f h
    token_round (other ch) r f h =
        settles (other ch) ch r
          (λ r'. other_taken chars lawful sql rest pos start_pos start_ch r' ch)
          (negated _ (and_true (not (chars.is_alpha ch)) _ h).0) f h
    token_round json_colon r f h =
        settles json_colon b':' r
          (λ r'. colon_taken chars lawful sql rest pos start_pos start_ch r')
          (lawful.mark_alpha b':' refl) f h
    token_round minus r f h =
        settles minus b'-' r (λ r'. minus_taken chars lawful sql rest pos start_pos start_ch r')
          (lawful.mark_alpha b'-' refl) f h
    token_round divide r f h =
        settles divide b'/' r (λ r'. divide_taken chars lawful sql rest pos start_pos start_ch r')
          (lawful.mark_alpha b'/' refl) f h
    token_round (string body) r f h =
        settles (string body) b'\'' r
          (λ r'. string_taken chars lawful sql rest pos start_pos start_ch r' body)
          (lawful.mark_alpha b'\'' refl) f h
    token_round (quoted body) r f h =
        settles (quoted body) b'"' r
          (λ r'. quoted_taken chars lawful sql rest pos start_pos start_ch r' body)
          (lawful.mark_alpha b'"' refl) f h
    token_round (qstring sep body) r f h =
        settles (qstring sep body) b'\'' r
          (λ r'. qstring_taken chars lawful sql rest pos start_pos start_ch r' sep body)
          (lawful.mark_alpha b'\'' refl) f h
    token_round (line_comment body lb) r f h =
        settles (line_comment body lb) b'-' r
          (λ r'. line_comment_taken chars lawful sql rest pos start_pos start_ch r' body lb)
          (lawful.mark_alpha b'-' refl) f h
    token_round (block_comment body) r f h =
        settles (block_comment body) b'/' r
          (λ r'. block_comment_taken chars lawful sql rest pos start_pos start_ch r' body)
          (lawful.mark_alpha b'/' refl) f h
    token_round (bind ch name) r f h =
        settles (bind ch name) b':' r
          (λ r'. bind_taken chars lawful sql rest pos start_pos start_ch r' ch name)
          (lawful.mark_alpha b':' refl) f h
    token_round (quoted_bind ch name) r f h =
        settles (quoted_bind ch name) b':' r
          (λ r'. quoted_bind_taken chars lawful sql rest pos start_pos start_ch r' ch name)
          (lawful.mark_alpha b':' refl) f h
    token_round (number_bind ch name) r f h =
        settles (number_bind ch name) b':' r
          (λ r'. number_taken chars lawful sql rest pos start_pos start_ch r' ch name)
          (lawful.mark_alpha b':' refl) f h

  parse_loop-break :
      (sql : List ℕ) (fuel : ℕ) (stmt : Statement)
      → parse_loop chars fuel sql (break stmt) ≡ ok stmt
  unfolding parse_loop
  parse_loop-break sql zero stmt = refl
  parse_loop-break sql (suc fuel) stmt = refl

  meaning-closed : (ts : List Token) (stmt : Statement) → meaning chars ts (closed stmt) ≡ ok stmt
  unfolding meaning
  meaning-closed [] stmt = refl
  meaning-closed (t ∷ ts) stmt = refl

  -- The outcome of a round, and what follows it.
  joined :
      (sql : List ℕ) (ts : List Token) (fuel : ℕ) (x : Result Round) (y : Result Heard)
      → ((pos start_pos start_ch : ℕ) (r : Reading)
          → Follows sql (render ts) r.word pos start_pos start_ch
          → fit chars ts (ok (open_at r)) ≡ true
          → parse_loop chars fuel sql (go (parser_at pos start_pos start_ch r))
            ≡ meaning chars ts (open_at r))
      → Agree chars sql (render ts) x y
      → fit chars ts y ≡ true
      → (x >>= parse_loop chars fuel sql) ≡ (y >>= meaning chars ts)
  joined sql ts fuel stuck stuck later a h = refl
  joined sql ts fuel (err e) (err e') later a h = ap err a
  joined sql ts fuel (ok (break stmt)) (ok (closed stmt')) later a h =
      parse_loop-break sql fuel stmt ∙ ap ok a ∙ sym (meaning-closed ts stmt')
  joined sql ts fuel (ok (go p)) (ok (open_at r)) later (pos, start_pos, start_ch, e, f) h =
      ap (λ p. parse_loop chars fuel sql (go p)) e ∙ later pos start_pos start_ch r f h
  joined sql ts fuel stuck (err e') later a h = elim a [ ]
  joined sql ts fuel stuck (ok _) later a h = elim a [ ]
  joined sql ts fuel (err e) stuck later a h = elim a [ ]
  joined sql ts fuel (err e) (ok _) later a h = elim a [ ]
  joined sql ts fuel (ok (break stmt)) stuck later a h = elim a [ ]
  joined sql ts fuel (ok (break stmt)) (err e') later a h = elim a [ ]
  joined sql ts fuel (ok (break stmt)) (ok (open_at r)) later a h = elim a [ ]
  joined sql ts fuel (ok (go p)) stuck later a h = elim a [ ]
  joined sql ts fuel (ok (go p)) (err e') later a h = elim a [ ]
  joined sql ts fuel (ok (go p)) (ok (closed stmt')) later a h = elim a [ ]

  reads :
      (sql : List ℕ) (ts : List Token) (fuel pos start_pos start_ch : ℕ) (r : Reading)
      → Follows sql (render ts) r.word pos start_pos start_ch
      → fit chars ts (ok (open_at r)) ≡ true
      → length (render ts) < fuel
      → parse_loop chars fuel sql (go (parser_at pos start_pos start_ch r))
        ≡ meaning chars ts (open_at r)
  unfolding parse_loop meaning fit
  reads sql ts zero pos start_pos start_ch r f h l = absurd (omega (arith, l))
  reads sql [] (suc fuel) pos start_pos start_ch r f h l =
      rw (parse_loop, get_elem?-end pos sql (drop-Follows f)) refl
  reads sql (t ∷ ts) (suc fuel) pos start_pos start_ch r f h l =
      let (fits_here, fits_later) = and_true (fits chars t r (render ts)) _ h in
      let (tail, e) = first-render_token t in
      let starts : render_token t ++ render ts ≡ first t ∷ (tail ++ render ts) =
        ap (λ xs. xs ++ render ts) e in
      let shorter : length (render (t ∷ ts)) ≡ suc (length (tail ++ render ts)) =
        ap length starts in
      rw
        (parse_loop, get_elem?-drop pos (first t) sql (tail ++ render ts) (drop-Follows f ∙ starts))
        (joined sql ts fuel (round chars sql (first t) (parser_at pos start_pos start_ch r))
          (act chars t r)
          (λ pos' start_pos' start_ch' r' f' h'.
            reads sql ts fuel pos' start_pos' start_ch' r' f' h'
              (omega (arith, l, shorter, length-append tail (render ts))))
          (token_round sql (render ts) pos start_pos start_ch t r f fits_here) fits_later)

-- On the text of tokens each of which may stand where it does: `parse` returns the statement, or raises
-- the error, that the tokens mean. So text in strings, quoted names and comments gives no keyword and
-- no bind, and every bind of the text is added with its name.
pub parse-meaning :
    (chars : Characters)
    → Lawful chars
    → (ts : List Token) (stmt : Statement) → fit chars ts (ok (open_at (opening stmt))) ≡ true
    → parse chars (render ts) stmt ≡ meaning chars ts (open_at (opening stmt))
unfolding parse
parse-meaning chars lawful ts stmt h =
    reads chars lawful (render ts) ts (suc (length (render ts))) 0 0 0 (opening stmt)
      (record { before = []; text = refl; at_pos = refl; word_start = tt }) h (omega arith)
