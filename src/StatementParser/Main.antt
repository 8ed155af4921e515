-- ===== src/StatementParser/Main.antt =====
-- src/oracledb/impl/thin/statement.pyx: StatementParser.parse and Statement._prepare.
use python_oracledb.Prelude.{
  codes, ℕ, zero, suc, ◌+◌, ◌-◌, Bool, true, false, not, ◌&&◌, ◌||◌, List, length, get_elem?, none,
  some, ◌==◌, if◌then◌else◌,
}
use python_oracledb.Errors.{Result, stuck, ok, ◌>>=◌}
use python_oracledb.StatementCache.Dict.{same_text}
use python_oracledb.Statement.{Statement, new_statement}
use python_oracledb.Statement.Binds.{determine_statement_type}
use python_oracledb.StatementParser.{
  parse_qstring, parse_quoted_string, parse_single_line_comment, parse_multiple_line_comment,
}
use python_oracledb.StatementParser.Bind.{Characters, slice, parse_bind_name}

-- The parser and the local variables of `parse`, with the statement that is parsed.
pub record Parser : Type 0 where
  pub pos : ℕ
  pub stmt : Statement
  pub returning_keyword_found : Bool
  pub initial_keyword_found : Bool
  pub last_was_string : Bool
  pub last_ch : ℕ
  pub alpha_start_ch : ℕ
  pub alpha_start_pos : ℕ
  pub last_was_alpha : Bool

-- The first half of a round: the loop breaks, or it goes on.
pub data Round : Type 0 where
  break : Statement → Round
  go : Parser → Round

abbrev pub returning_keyword : List ℕ
returning_keyword = codes "RETURNING"

abbrev pub into_keyword : List ℕ
into_keyword = codes "INTO"

module _ (chars : Characters) where
  -- A word of letters ends; `alpha_len` and `alpha_start_ch` spare a slice of most words.
  unfoldable pub initial_keyword : List ℕ → Parser → Round
  unfolding determine_statement_type
  initial_keyword keyword p =
      let stmt = determine_statement_type keyword p.stmt in
      if stmt.is_ddl
      then break stmt
      else go (record p { stmt = stmt; initial_keyword_found = true })

  unfoldable pub end_of_word : List ℕ → ℕ → Parser → Round
  unfolding initial_keyword same_text
  end_of_word word alpha_len p =
      if not p.initial_keyword_found
      then initial_keyword (chars.upper word) p
      else if p.stmt.is_dml
          && not p.returning_keyword_found
          && alpha_len == 9
          && (p.alpha_start_ch == b'r' || p.alpha_start_ch == b'R')
      then (if same_text (chars.upper word) returning_keyword
          then go (record p { returning_keyword_found = true })
          else go p)
      else if p.returning_keyword_found
          && alpha_len == 4
          && (p.alpha_start_ch == b'i' || p.alpha_start_ch == b'I')
      then (if same_text (chars.upper word) into_keyword
          then go (record p { stmt = record p.stmt { is_returning = true } })
          else go p)
      else go p

  unfoldable pub look_for_keyword : List ℕ → ℕ → Parser → Round
  unfolding end_of_word
  look_for_keyword sql ch p =
      let is_alpha = chars.is_alpha ch in
      if is_alpha && not p.last_was_alpha
      then go (record p { alpha_start_pos = p.pos; alpha_start_ch = ch })
      else if not is_alpha && p.last_was_alpha
      then end_of_word (slice p.alpha_start_pos p.pos sql) (p.pos - p.alpha_start_pos) p
      else go p

  -- A single quote.
  unfoldable pub parse_string : List ℕ → Parser → Result Parser
  unfolding parse_qstring parse_quoted_string
  parse_string sql p =
      if p.last_ch == b'q' || p.last_ch == b'Q'
      then parse_qstring sql p.pos >>= (λ pos. ok (record p { pos = pos; last_was_string = true }))
      else parse_quoted_string sql (p.pos + 1) b'\''
        >>= (λ pos. ok (record p { pos = pos - 1; last_was_string = true }))

  -- Any other character that is no space.
  unfoldable pub parse_mark : List ℕ → ℕ → Parser → Result Parser
  unfolding parse_single_line_comment parse_multiple_line_comment parse_quoted_string
      parse_bind_name
  parse_mark sql ch p =
      if ch == b'-'
      then ok (record p {
        pos = parse_single_line_comment chars.is_linebreak chars.is_alpha chars.is_space sql p.pos;
        last_was_string = false;
      })
      else if ch == b'/'
      then ok (record p { pos = parse_multiple_line_comment sql p.pos; last_was_string = false })
      else if ch == b'"'
      then parse_quoted_string sql (p.pos + 1) ch
        >>= (λ pos. ok (record p { pos = pos - 1; last_was_string = false }))
      else if ch == b':' && not p.last_was_string
      then parse_bind_name chars sql p.pos p.stmt
        >>= (λ r. ok (record p { pos = r.0; stmt = r.1; last_was_string = false }))
      else ok (record p { last_was_string = false })

  unfoldable pub parse_char : List ℕ → ℕ → Parser → Result Parser
  unfolding parse_string parse_mark
  parse_char sql ch p =
      if ch == b'\''
      then parse_string sql p
      else if not (chars.is_space ch)
      then parse_mark sql ch p
      else ok p

  unfoldable pub advance : ℕ → Parser → Parser
  advance ch p = record p { pos = p.pos + 1; last_was_alpha = chars.is_alpha ch; last_ch = ch }

  -- The second half of a round.
  unfoldable pub go_on : List ℕ → ℕ → Round → Result Round
  unfolding parse_char advance
  go_on sql ch (break stmt) = ok (break stmt)
  go_on sql ch (go p) = parse_char sql ch p >>= (λ p'. ok (go (advance ch p')))

  unfoldable pub round : List ℕ → ℕ → Parser → Result Round
  unfolding look_for_keyword go_on
  round sql ch p = go_on sql ch (look_for_keyword sql ch p)

  unfoldable pub parse_loop : ℕ → List ℕ → Round → Result Statement
  unfolding round
  parse_loop fuel sql (break stmt) = ok stmt
  parse_loop zero sql (go p) = stuck
  parse_loop (suc fuel) sql (go p) = elim (get_elem? sql p.pos) [
    | none ↦ ok p.stmt
    | some ch ↦ round sql ch p >>= parse_loop fuel sql
  ]

  abbrev pub start : Statement → Parser
  start stmt = record {
    pos = 0;
    stmt = stmt;
    returning_keyword_found = false;
    initial_keyword_found = false;
    last_was_string = false;
    last_ch = 0;
    alpha_start_ch = 0;
    alpha_start_pos = 0;
    last_was_alpha = false;
  }

  -- Every round moves the position on, so that the characters and one are fuel enough.
  unfoldable pub parse : List ℕ → Statement → Result Statement
  unfolding parse_loop
  parse sql stmt = parse_loop (suc (length sql)) sql (go (start stmt))

  unfoldable pub prepare : List ℕ → Result Statement
  unfolding parse
  prepare sql = parse sql (record new_statement { sql = some sql })
