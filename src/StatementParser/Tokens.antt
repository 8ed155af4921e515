-- ===== src/StatementParser/Tokens.antt =====
-- The texts that StatementParser.parse of src/oracledb/impl/thin/statement.pyx reads as a sequence of
-- tokens, and what the sequence means for the statement. No positions occur here.
use python_oracledb.Prelude.{
  ℕ, Bool, true, false, not, ◌&&◌, ◌||◌, List, [], ◌∷◌, ◌++◌, length, ◌==◌, if◌then◌else◌,
}
use python_oracledb.Errors.{Result, ok, ◌>>=◌}
use python_oracledb.StatementCache.Dict.{same_text, contains}
use python_oracledb.Statement.{Statement}
use python_oracledb.Statement.Binds.{determine_statement_type, add_bind}
use python_oracledb.StatementParser.{closing_separator}
use python_oracledb.StatementParser.Bind.{Characters, is_name_char}
use python_oracledb.StatementParser.Main.{returning_keyword, into_keyword}

-- A q-string comes behind its letter, which is a token of its own.
pub data Token : Type 0 where
  letter other : ℕ → Token
  json_colon minus divide : Token
  string quoted : List ℕ → Token
  qstring : ℕ → List ℕ → Token
  line_comment : List ℕ → ℕ → Token
  block_comment : List ℕ → Token
  bind quoted_bind number_bind : ℕ → List ℕ → Token

abbrev pub render_token : Token → List ℕ
render_token (letter ch) = ch ∷ []
render_token (other ch) = ch ∷ []
render_token json_colon = b':' ∷ []
render_token minus = b'-' ∷ []
render_token divide = b'/' ∷ []
render_token (string body) = b'\'' ∷ body ++ (b'\'' ∷ [])
render_token (quoted body) = b'"' ∷ body ++ (b'"' ∷ [])
render_token (qstring sep body) = b'\'' ∷ sep ∷ body ++ (closing_separator sep ∷ b'\'' ∷ [])
render_token (line_comment body linebreak) = b'-' ∷ b'-' ∷ body ++ (linebreak ∷ [])
render_token (block_comment body) = b'/' ∷ b'*' ∷ body ++ (b'*' ∷ b'/' ∷ [])
render_token (bind ch name) = b':' ∷ ch ∷ name
render_token (quoted_bind ch name) = b':' ∷ b'"' ∷ (ch ∷ name) ++ (b'"' ∷ [])
render_token (number_bind ch name) = b':' ∷ ch ∷ name

abbrev pub render : List Token → List ℕ
render [] = []
render (t ∷ ts) = render_token t ++ render ts

-- What has been read: the letters of the word that is not over, the keywords that were seen, and
-- what came last.
pub record Reading : Type 0 where
  pub stmt : Statement
  pub word : List ℕ
  pub initial_found : Bool
  pub returning_found : Bool
  pub after_string : Bool
  pub last_ch : ℕ

-- Behind a DDL keyword nothing is read.
pub data Heard : Type 0 where
  closed : Statement → Heard
  open_at : Reading → Heard

abbrev pub starts_with : ℕ → ℕ → List ℕ → Bool
starts_with a b [] = false
starts_with a b (ch ∷ _) = ch == a || ch == b

abbrev pub is_mark : ℕ → Bool
is_mark ch = ch == b'\'' || ch == b'"' || ch == b'-' || ch == b'/' || ch == b':'

abbrev pub after_q : ℕ → Bool
after_q ch = ch == b'q' || ch == b'Q'

-- Whether a comment in which an asterisk came last, or did not, ends in `cs`.
unfoldable pub closes : Bool → List ℕ → Bool
closes exiting [] = false
closes exiting (ch ∷ cs) =
    let behind_star = closes true cs in
    let behind_other = closes false cs in
    if ch == b'*' then behind_star else if exiting && ch == b'/' then true else behind_other

abbrev pub all_chars : (ℕ → Bool) → List ℕ → Bool
all_chars test [] = true
all_chars test (ch ∷ cs) = test ch && all_chars test cs

-- The next character is there and fails the test.
abbrev pub ends_before : (ℕ → Bool) → List ℕ → Bool
ends_before test [] = false
ends_before test (ch ∷ _) = not (test ch)

module _ (chars : Characters) where
  -- The word that is over, where there is one.
  unfoldable pub end_word : List ℕ → Reading → Heard
  unfolding determine_statement_type same_text
  end_word [] r = open_at r
  end_word (ch ∷ cs) r =
      let keyword = chars.upper (ch ∷ cs) in
      let stmt = determine_statement_type keyword r.stmt in
      if not r.initial_found
      then (if stmt.is_ddl
          then closed stmt
          else open_at (record r { stmt = stmt; initial_found = true }))
      else if r.stmt.is_dml
          && not r.returning_found
          && length (ch ∷ cs) == 9
          && (ch == b'r' || ch == b'R')
      then (if same_text keyword returning_keyword
          then open_at (record r { returning_found = true })
          else open_at r)
      else if r.returning_found && length (ch ∷ cs) == 4 && (ch == b'i' || ch == b'I')
      then (if same_text keyword into_keyword
          then open_at (record r { stmt = record r.stmt { is_returning = true } })
          else open_at r)
      else open_at r

  abbrev pub left_by : ℕ → Bool → Reading → Heard
  left_by last_ch after_string r =
      open_at (record r { word = []; after_string = after_string; last_ch = last_ch })

  unfoldable pub with_name : List ℕ → Reading → Result Heard
  unfolding add_bind
  with_name name r =
      add_bind name r.stmt >>= (λ stmt. ok (left_by b':' false (record r { stmt = stmt })))

  -- The effect of a token on the statement behind the word that it ends.
  unfoldable pub effect : Token → Reading → Result Heard
  unfolding with_name
  effect (letter ch) r = ok (open_at r)
  effect (other ch) r = ok (left_by ch (chars.is_space ch && r.after_string) r)
  effect json_colon r = ok (left_by b':' false r)
  effect minus r = ok (left_by b'-' false r)
  effect divide r = ok (left_by b'/' false r)
  effect (string body) r = ok (left_by b'\'' true r)
  effect (quoted body) r = ok (left_by b'"' false r)
  effect (qstring sep body) r = ok (left_by b'\'' true r)
  effect (line_comment body linebreak) r = ok (left_by b'-' false r)
  effect (block_comment body) r = ok (left_by b'/' false r)
  effect (bind ch name) r = with_name (chars.upper (ch ∷ name)) r
  effect (quoted_bind ch name) r = with_name (ch ∷ name) r
  effect (number_bind ch name) r = with_name (ch ∷ name) r

  unfoldable pub behind_word : Token → Heard → Result Heard
  unfolding effect
  behind_word t (closed stmt) = ok (closed stmt)
  behind_word t (open_at r) = effect t r

  unfoldable pub act : Token → Reading → Result Heard
  unfolding end_word behind_word
  act (letter ch) r =
      ok (open_at (record r { word = r.word ++ (ch ∷ []); after_string = false; last_ch = ch }))
  act t r = behind_word t (end_word r.word r)

  unfoldable pub meaning : List Token → Heard → Result Statement
  unfolding act
  meaning ts (closed stmt) = ok stmt
  meaning [] (open_at r) = ok r.stmt
  meaning (t ∷ ts) (open_at r) = act t r >>= meaning ts

  -- Where a token may stand: its characters, what came before it, and the text `rest` behind it.
  unfoldable pub fits : Token → Reading → List ℕ → Bool
  unfolding contains closes
  fits (letter ch) r rest = chars.is_alpha ch && not (is_mark ch)
  fits (other ch) r rest = not (chars.is_alpha ch) && not (is_mark ch)
  fits json_colon r rest = r.after_string
  fits minus r rest = ends_before (λ ch. ch == b'-') rest
  fits divide r rest = ends_before (λ ch. ch == b'*') rest
  fits (string body) r rest = not (after_q r.last_ch) && not (contains b'\'' body)
  fits (quoted body) r rest = not (contains b'"' body)
  fits (qstring sep body) r rest = after_q r.last_ch && not (contains (closing_separator sep) body)
  fits (line_comment body linebreak) r rest =
      all_chars (λ ch. not (chars.is_linebreak ch)) body && chars.is_linebreak linebreak
  fits (block_comment body) r rest = not (closes false body)
  fits (bind ch name) r rest =
      not r.after_string
      && chars.is_alpha ch
      && not (ch == b'"')
      && all_chars (is_name_char chars) name
      && ends_before (is_name_char chars) rest
  fits (quoted_bind ch name) r rest = not r.after_string && not (contains b'"' (ch ∷ name))
  fits (number_bind ch name) r rest =
      not r.after_string
      && chars.is_digit ch
      && not (ch == b'"')
      && all_chars chars.is_digit name
      && ends_before chars.is_digit rest

  -- Whether every token may stand where it does.
  unfoldable pub fit : List Token → Result Heard → Bool
  unfolding fits act
  fit [] _ = true
  fit (t ∷ ts) (ok (open_at r)) = fits t r (render ts) && fit ts (act t r)
  fit (t ∷ ts) _ = true

abbrev pub opening : Statement → Reading
opening stmt = record {
  stmt = stmt;
  word = [];
  initial_found = false;
  returning_found = false;
  after_string = false;
  last_ch = 0;
}
