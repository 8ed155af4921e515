-- ===== src/StatementParser.antt =====
-- src/oracledb/impl/thin/statement.pyx and src/oracledb/impl/base/parsers.pyx: how the parsers pass
-- over comments, quoted strings, spaces and words. The text is the list of its characters, and a
-- scan gets the characters from `temp_pos` on. What CPython knows of a character is an argument.
pub mod Comment
pub mod Bind
pub mod Main
pub mod Tokens
pub mod Scans
pub mod Names
pub mod Agrees
pub mod Rounds
pub mod Meaning
pub mod Whole
pub mod Progress
pub mod Ends
pub mod Grouped
use python_oracledb.Prelude.{
  ℕ, suc, ◌+◌, Bool, true, false, not, ◌&&◌, List, [], ◌∷◌, drop, ◌==◌, if◌then◌else◌,
}
use python_oracledb.Errors.{
  Error, Result, ok, err, missing_quote_in_string, missing_ending_single_quote,
  missing_ending_double_quote,
}

-- The loop of _parse_multiple_line_comment; `pos` is returned where no comment is found.
unfoldable pub scan_multiple_line : Bool → Bool → ℕ → ℕ → List ℕ → ℕ
scan_multiple_line in_comment exiting_comment pos temp_pos [] = pos
scan_multiple_line in_comment exiting_comment pos temp_pos (ch ∷ cs) =
    let goes_on = scan_multiple_line true exiting_comment pos (suc temp_pos) cs in
    let may_exit = scan_multiple_line true true pos (suc temp_pos) cs in
    let stays = scan_multiple_line true false pos (suc temp_pos) cs in
    if not in_comment
    then (if ch == b'*' then goes_on else pos)
    else if ch == b'*'
    then may_exit
    else if exiting_comment
    then (if ch == b'/' then temp_pos else stays)
    else goes_on

unfoldable pub parse_multiple_line_comment : List ℕ → ℕ → ℕ
unfolding scan_multiple_line
parse_multiple_line_comment sql_data pos =
    scan_multiple_line false false pos (pos + 1) (drop (pos + 1) sql_data)

unfoldable pub closing_separator : ℕ → ℕ
closing_separator ch =
    if ch == b'['
    then b']'
    else if ch == b'{'
    then b'}'
    else if ch == b'<'
    then b'>'
    else if ch == b'('
    then b')'
    else ch

-- The loop of _parse_qstring behind the separator that starts the string.
unfoldable pub scan_qstring : ℕ → Bool → ℕ → List ℕ → Result ℕ
scan_qstring sep exiting_qstring temp_pos [] = err missing_quote_in_string
scan_qstring sep exiting_qstring temp_pos (ch ∷ cs) =
    let exits = scan_qstring sep true (suc temp_pos) cs in
    let stays = scan_qstring sep false (suc temp_pos) cs in
    if not exiting_qstring && ch == sep
    then exits
    else if exiting_qstring
    then (if ch == b'\'' then ok temp_pos else if ch == sep then exits else stays)
    else stays

unfoldable pub start_qstring : ℕ → List ℕ → Result ℕ
unfolding closing_separator scan_qstring
start_qstring temp_pos [] = err missing_quote_in_string
start_qstring temp_pos (ch ∷ cs) = scan_qstring (closing_separator ch) false (suc temp_pos) cs

unfoldable pub parse_qstring : List ℕ → ℕ → Result ℕ
unfolding start_qstring
parse_qstring sql_data temp_pos = start_qstring (temp_pos + 1) (drop (temp_pos + 1) sql_data)

missing_ending_quote : ℕ → Error
missing_ending_quote quote_type =
    if quote_type == b'\'' then missing_ending_single_quote else missing_ending_double_quote

unfoldable pub scan_quoted : ℕ → ℕ → List ℕ → Result ℕ
unfolding missing_ending_quote
scan_quoted quote_type temp_pos [] = err (missing_ending_quote quote_type)
scan_quoted quote_type temp_pos (ch ∷ cs) =
    let rest = scan_quoted quote_type (suc temp_pos) cs in
    if ch == quote_type then ok (suc temp_pos) else rest

unfoldable pub parse_quoted_string : List ℕ → ℕ → ℕ → Result ℕ
unfolding scan_quoted
parse_quoted_string sql_data temp_pos quote_type =
    scan_quoted quote_type temp_pos (drop temp_pos sql_data)

module _ (is_linebreak is_alpha is_space : ℕ → Bool) where
  unfoldable pub to_linebreak : ℕ → List ℕ → ℕ
  to_linebreak temp_pos [] = temp_pos
  to_linebreak temp_pos (ch ∷ cs) =
      let rest = to_linebreak (suc temp_pos) cs in if is_linebreak ch then temp_pos else rest

  -- The first character must be the second dash; at the end of the sql_data the position moves, too.
  unfoldable pub scan_single_line : ℕ → List ℕ → ℕ
  unfolding to_linebreak
  scan_single_line pos [] = pos + 1
  scan_single_line pos (ch ∷ cs) = if ch == b'-' then to_linebreak (pos + 2) cs else pos

  unfoldable pub parse_single_line_comment : List ℕ → ℕ → ℕ
  unfolding scan_single_line
  parse_single_line_comment sql_data pos = scan_single_line pos (drop (pos + 1) sql_data)

  scan_while : (ℕ → Bool) → ℕ → List ℕ → ℕ
  scan_while test temp_pos [] = temp_pos
  scan_while test temp_pos (ch ∷ cs) =
      let rest = scan_while test (suc temp_pos) cs in if test ch then rest else temp_pos

  unfoldable pub parse_keyword : List ℕ → ℕ → ℕ
  unfolding scan_while
  parse_keyword sql_data temp_pos =
      scan_while (λ ch. if is_alpha ch then true else ch == b'_') temp_pos (drop temp_pos sql_data)

  unfoldable pub skip_spaces : List ℕ → ℕ → ℕ
  unfolding scan_while
  skip_spaces sql_data temp_pos = scan_while is_space temp_pos (drop temp_pos sql_data)
