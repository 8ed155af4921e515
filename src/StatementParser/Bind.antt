-- ===== src/StatementParser/Bind.antt =====
-- src/oracledb/impl/thin/statement.pyx: StatementParser._parse_bind_name.
use python_oracledb.Prelude.{
  ℕ, suc, ◌+◌, ◌-◌, Bool, true, false, not, ◌&&◌, ◌||◌, List, [], ◌∷◌, take, drop, ◌==◌,
  if◌then◌else◌,
}
use python_oracledb.Errors.{Result, ok, ◌>>=◌}
use python_oracledb.Statement.{Statement}
use python_oracledb.Statement.Binds.{add_bind}

-- What CPython's Unicode database and `str.upper` say of characters and texts.
pub record Characters : Type 0 where
  pub is_space : ℕ → Bool
  pub is_alpha : ℕ → Bool
  pub is_digit : ℕ → Bool
  pub is_alnum : ℕ → Bool
  pub is_linebreak : ℕ → Bool
  pub upper : List ℕ → List ℕ

-- `text[from:to]`.
abbrev pub slice : ℕ → ℕ → List ℕ → List ℕ
slice from to text = take (to - from) (drop from text)

-- The local variables of the loop, and the position of the parser.
pub record NameScan : Type 0 where
  pub quoted_name : Bool
  pub in_bind : Bool
  pub digits_only : Bool
  pub start_pos : ℕ
  pub temp_pos : ℕ
  pub pos : ℕ

abbrev pub with_pos : ℕ → Statement → ℕ × Statement
with_pos pos stmt = (pos, stmt)

module _ (chars : Characters) where
  abbrev pub is_name_char : ℕ → Bool
  is_name_char ch = chars.is_alnum ch || ch == b'_' || ch == b'$' || ch == b'#'

  -- A character in front of the name or its first one, and whether the loop goes on.
  unfoldable pub first_char : ℕ → NameScan → Bool × NameScan
  first_char ch n =
      let next = record n { in_bind = true; start_pos = n.temp_pos; temp_pos = suc n.temp_pos } in
      if chars.is_space ch
      then (true, record n { temp_pos = suc n.temp_pos })
      else if ch == b'"'
      then (true, record next { quoted_name = true })
      else if chars.is_digit ch
      then (true, record next { digits_only = true })
      else if not (chars.is_alpha ch)
      then (false, n)
      else (true, next)

  unfoldable pub later_char : ℕ → NameScan → Bool × NameScan
  later_char ch n =
      if n.digits_only && not (chars.is_digit ch)
      then (false, record n { pos = n.temp_pos - 1 })
      else if n.quoted_name && ch == b'"'
      then (false, record n { pos = n.temp_pos })
      else if not n.digits_only && not n.quoted_name && not (is_name_char ch)
      then (false, record n { pos = n.temp_pos - 1 })
      else (true, record n { temp_pos = suc n.temp_pos })

  unfoldable pub name_char : ℕ → NameScan → Bool × NameScan
  unfolding first_char later_char
  name_char ch n = if not n.in_bind then first_char ch n else later_char ch n

  unfoldable pub scan_bind_name : NameScan → List ℕ → NameScan
  unfolding name_char
  scan_bind_name n [] = n
  scan_bind_name n (ch ∷ cs) =
      let step = name_char ch n in
      let rest = scan_bind_name step.1 cs in if step.0 then rest else step.1

  unfoldable pub name_of : List ℕ → NameScan → List ℕ
  name_of sql n =
      if n.quoted_name
      then slice (n.start_pos + 1) n.temp_pos sql
      else if n.digits_only
      then slice n.start_pos n.temp_pos sql
      else chars.upper (slice n.start_pos n.temp_pos sql)

  abbrev pub name_scan : ℕ → NameScan
  name_scan pos = record {
    quoted_name = false;
    in_bind = false;
    digits_only = false;
    start_pos = 0;
    temp_pos = pos + 1;
    pos = pos;
  }

  -- The position afterwards, and the statement with the bind.
  unfoldable pub add_scanned : List ℕ → NameScan → Statement → Result (ℕ × Statement)
  unfolding name_of add_bind
  add_scanned sql n stmt =
      if n.in_bind
      then add_bind (name_of sql n) stmt >>= (λ s. ok (with_pos n.pos s))
      else ok (with_pos n.pos stmt)

  unfoldable pub parse_bind_name : List ℕ → ℕ → Statement → Result (ℕ × Statement)
  unfolding scan_bind_name add_scanned
  parse_bind_name sql pos stmt =
      add_scanned sql (scan_bind_name (name_scan pos) (drop (pos + 1) sql)) stmt
