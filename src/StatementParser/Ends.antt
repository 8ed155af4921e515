-- ===== src/StatementParser/Ends.antt =====
-- StatementParser.parse of src/oracledb/impl/thin/statement.pyx ends on every text.
pub mod Step
use python_oracledb.Prelude.{
  ℕ, zero, suc, ◌+◌, ◌-◌, ◌≤◌, ◌<◌, ◌≡◌, ◌≢◌, arith, List, length, get_elem?, Option-cases, inl,
  inr,
}
use python_oracledb.Errors.{ok, ◌>>=◌}
use python_oracledb.Statement.{Statement}
use python_oracledb.StatementParser.Bind.{Characters}
use python_oracledb.StatementParser.Main.{
  Round, break, go, look_for_keyword, parse_char, advance, go_on, round, parse_loop, start, parse,
}
use python_oracledb.StatementParser.Progress.{Holds, bind-Holds, get_elem?-length}
use python_oracledb.StatementParser.Ends.Step.{
  Lasting, Goes, At, look_for_keyword-Goes, parse_char-Holds,
}

module _ (chars : Characters) (Good : Statement → Type 0) (lasting : Lasting Good)
    (sql : List ℕ) where
  -- A round that goes on does so from `low` on.
  abbrev From : ℕ → Round → Type 0
  From low (break stmt) = Good stmt
  From low (go p) = (low ≤ p.pos) × Good p.stmt

  go_on-Holds :
      (ch pos : ℕ) (r : Round)
      → pos < length sql
      → Goes chars Good lasting sql pos r
      → Holds (From (suc pos)) (go_on chars sql ch r)
  unfolding go_on advance
  go_on-Holds ch pos (break stmt) l h = h
  go_on-Holds ch pos (go p) l (e, g) =
      bind-Holds (At chars Good lasting sql p.pos) (From (suc pos)) (parse_char chars sql ch p)
        (λ p'. ok (go (advance chars ch p')))
        (parse_char-Holds chars Good lasting sql ch p (omega (arith, e)) g)
        (λ p' h. (omega (arith, h.0, e), h.1))

  loop-Holds :
      (fuel pos : ℕ) (r : Round)
      → length sql - pos < fuel
      → From pos r
      → Holds Good (parse_loop chars fuel sql r)
  unfolding parse_loop round
  loop-Holds zero pos (break stmt) l h = h
  loop-Holds (suc fuel) pos (break stmt) l h = h
  loop-Holds zero pos (go p) l h = absurd (omega (arith, l))
  loop-Holds (suc fuel) pos (go p) l (low, g) = elim (Option-cases (get_elem? sql p.pos)) [
    | inl e ↦ rw (Holds, parse_loop, e) g
    | inr (ch, e) ↦
        let inside = get_elem?-length sql p.pos ch e in
        rw (Holds, parse_loop, e)
          (bind-Holds (From (suc p.pos)) Good (round chars sql ch p) (parse_loop chars fuel sql)
            (go_on-Holds ch p.pos (look_for_keyword chars sql ch p) inside
              (look_for_keyword-Goes chars Good lasting sql ch p g))
            (λ r h. loop-Holds fuel (suc p.pos) r (omega arith) h))
  ]

  -- Whatever the parser's changes to a statement keep true of it is true of the parsed statement; and
  -- the parser ends: it returns or it raises an error, whatever the text.
  pub parse-Holds : (stmt : Statement) → Good stmt → Holds Good (parse chars sql stmt)
  unfolding parse
  parse-Holds stmt g =
      loop-Holds (suc (length sql)) 0 (go (start chars stmt)) (omega arith) (omega arith, g)
