-- ===== src/StatementParser/Ends/Step.antt =====
-- The two halves of a round of StatementParser.parse on any text.
use python_oracledb.Prelude.{
  ℕ, ◌+◌, ◌-◌, ◌≤◌, ◌<◌, ◌≡◌, refl, arith, Bool, true, false, List, length, drop, if◌then◌else◌,
  Bool-cases, inl, inr,
}
use python_oracledb.Errors.{Result, ok, ◌>>=◌}
use python_oracledb.Statement.{Statement}
use python_oracledb.Statement.Binds.{determine_statement_type, add_bind}
use python_oracledb.StatementParser.{
  parse_qstring, parse_quoted_string, parse_single_line_comment, parse_multiple_line_comment,
}
use python_oracledb.StatementParser.Comment.{parse_multiple_line_comment_lem}
use python_oracledb.StatementParser.Bind.{
  Characters, NameScan, slice, name_scan, scan_bind_name, name_of, add_scanned, parse_bind_name,
}
use python_oracledb.StatementParser.Main.{
  Parser, Round, break, go, initial_keyword, end_of_word, look_for_keyword, parse_string,
  parse_mark, parse_char,
}
use python_oracledb.StatementParser.Progress.{
  Holds, bind-Holds, parse_qstring-Holds, scan_quoted-Holds, parse_single_line_comment_bound,
  scan_bind_name-Behind,
}

-- A property of statements that each change of the parser to the statement keeps.
pub record Lasting (Good : Statement → Type 0) : Type 0 where
  pub by_type :
      (keyword : List ℕ) (s : Statement) → Good s → Good (determine_statement_type keyword s)
  pub by_into : (s : Statement) → Good s → Good (record s { is_returning = true })
  pub by_bind : (name : List ℕ) (s : Statement) → Good s → Holds Good (add_bind name s)

module _ (chars : Characters) (Good : Statement → Type 0) (lasting : Lasting Good)
    (sql : List ℕ) where
  -- The first half of a round stays where it is.
  abbrev pub Goes : ℕ → Round → Type 0
  Goes low (break stmt) = Good stmt
  Goes low (go p) = (p.pos ≡ low) × Good p.stmt

  abbrev pub At : ℕ → Parser → Type 0
  At low p = (low ≤ p.pos) × Good p.stmt

  if-Goes :
      (low : ℕ) (b : Bool) (x y : Round) → Goes low x → Goes low y → Goes low (if b then x else y)
  if-Goes low true x y h k = h
  if-Goes low false x y h k = k

  if-Holds :
      (low : ℕ) (b : Bool) (x y : Result Parser)
      → Holds (At low) x
      → Holds (At low) y
      → Holds (At low) (if b then x else y)
  if-Holds low true x y h k = h
  if-Holds low false x y h k = k

  initial_keyword-Goes :
      (keyword : List ℕ) (p : Parser) → Good p.stmt → Goes p.pos (initial_keyword chars keyword p)
  unfolding initial_keyword
  initial_keyword-Goes keyword p g =
      let typed = lasting.by_type keyword p.stmt g in
      if-Goes p.pos (determine_statement_type keyword p.stmt).is_ddl _ _ typed (refl, typed)

  end_of_word-Goes :
      (word : List ℕ) (n : ℕ) (p : Parser) → Good p.stmt → Goes p.pos (end_of_word chars word n p)
  unfolding end_of_word
  end_of_word-Goes word n p g =
      let stays : (p.pos ≡ p.pos) × Good p.stmt = (refl, g) in
      let into : (p.pos ≡ p.pos) × Good (record p.stmt { is_returning = true }) =
        (refl, lasting.by_into p.stmt g) in
      let typed = initial_keyword-Goes (chars.upper word) p g in search (if-Goes)

  pub look_for_keyword-Goes :
      (ch : ℕ) (p : Parser) → Good p.stmt → Goes p.pos (look_for_keyword chars sql ch p)
  unfolding look_for_keyword
  look_for_keyword-Goes ch p g =
      let stays : (p.pos ≡ p.pos) × Good p.stmt = (refl, g) in
      let ended =
        end_of_word-Goes (slice p.alpha_start_pos p.pos sql) (p.pos - p.alpha_start_pos) p g in
      search (if-Goes)

  quoted :
      (q : ℕ) (string : Bool) (p : Parser)
      → Good p.stmt
      → Holds (At p.pos) (
          parse_quoted_string sql (p.pos + 1) q
          >>= (λ pos. ok (record p { pos = pos - 1; last_was_string = string })))
  unfolding parse_quoted_string
  quoted q string p g =
      bind-Holds (λ pos. p.pos + 1 < pos) (At p.pos) (parse_quoted_string sql (p.pos + 1) q)
        (λ pos. ok (record p { pos = pos - 1; last_was_string = string }))
        (scan_quoted-Holds q (p.pos + 1) (p.pos + 1) (drop (p.pos + 1) sql) (omega arith))
        (λ pos h. (omega arith, g))

  parse_string-Holds : (p : Parser) → Good p.stmt → Holds (At p.pos) (parse_string chars sql p)
  unfolding parse_string
  parse_string-Holds p g =
      if-Holds p.pos _ _ _
        (bind-Holds (λ pos. p.pos ≤ pos) (At p.pos) (parse_qstring sql p.pos)
          (λ pos. ok (record p { pos = pos; last_was_string = true }))
          (parse_qstring-Holds sql p.pos) (λ pos h. (h, g)))
        (quoted b'\'' true p g)

  add_scanned-Holds :
      (low : ℕ) (n : NameScan) (s : Statement)
      → low ≤ n.pos
      → Good s
      → Holds (λ m. (low ≤ m.0) × Good m.1) (add_scanned chars sql n s)
  unfolding add_scanned
  add_scanned-Holds low n s h g = elim (Bool-cases n.in_bind) [
    | inl e ↦ rw e (
        bind-Holds Good (λ m. (low ≤ m.0) × Good m.1) (add_bind (name_of chars sql n) s) _
          (lasting.by_bind (name_of chars sql n) s g) (λ s' g'. (h, g')))
    | inr e ↦ rw e (h, g)
  ]

  parse_bind_name-Holds :
      (pos : ℕ) (s : Statement)
      → Good s
      → Holds (λ m. (pos ≤ m.0) × Good m.1) (parse_bind_name chars sql pos s)
  unfolding parse_bind_name
  parse_bind_name-Holds pos s g =
      add_scanned-Holds pos (scan_bind_name chars (name_scan chars pos) (drop (pos + 1) sql)) s
        (scan_bind_name-Behind chars pos (name_scan chars pos) (drop (pos + 1) sql)
          (omega arith, omega arith))
        g

  parse_mark-Holds :
      (ch : ℕ) (p : Parser)
      → p.pos < length sql
      → Good p.stmt
      → Holds (At p.pos) (parse_mark chars sql ch p)
  unfolding parse_mark
  parse_mark-Holds ch p l g =
      let stays : (p.pos ≤ p.pos) × Good p.stmt = (omega arith, g) in
      let line : (p.pos
            ≤ parse_single_line_comment chars.is_linebreak chars.is_alpha chars.is_space sql p.pos)
          × Good p.stmt =
        (
          parse_single_line_comment_bound chars.is_linebreak chars.is_alpha chars.is_space sql
              p.pos,
          g,
        ) in
      let block : (p.pos ≤ parse_multiple_line_comment sql p.pos) × Good p.stmt = (
        elim (parse_multiple_line_comment_lem sql p.pos l) [
          | inl e ↦ omega (arith, e)
          | inr (m, _) ↦ omega (arith, m)
        ],
        g,
      ) in
      let name = quoted ch false p g in
      let bound =
        bind-Holds (λ m. (p.pos ≤ m.0) × Good m.1) (At p.pos)
          (parse_bind_name chars sql p.pos p.stmt)
          (λ m. ok (record p { pos = m.0; stmt = m.1; last_was_string = false }))
          (parse_bind_name-Holds p.pos p.stmt g) (λ m h. h) in
      search (if-Holds)

  pub parse_char-Holds :
      (ch : ℕ) (p : Parser)
      → p.pos < length sql
      → Good p.stmt
      → Holds (At p.pos) (parse_char chars sql ch p)
  unfolding parse_char
  parse_char-Holds ch p l g =
      let stays : (p.pos ≤ p.pos) × Good p.stmt = (omega arith, g) in
      let string = parse_string-Holds p g in
      let mark = parse_mark-Holds ch p l g in search (if-Holds)
