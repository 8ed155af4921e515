-- ===== src/StatementParser/Comment.antt =====
-- Where a comment over several lines ends.
use python_oracledb.Prelude.{
  ℕ, suc, ◌+◌, ◌≤◌, ◌<◌, ◌≡◌, refl, ◌⊎◌, inl, inr, arith, Bool, true, false, List, [], ◌∷◌, length,
  drop, length-drop, ◌==◌, if◌then◌else◌, Bool-cases,
}
use python_oracledb.StatementParser.{scan_multiple_line, parse_multiple_line_comment}

-- The end that is found in `cs` from `temp_pos` on, a character later where no asterisk came last.
abbrev Ends : Bool → ℕ → ℕ → List ℕ → ℕ → Type 0
Ends exiting pos temp_pos cs r =
    (r ≡ pos) ⊎ (((if exiting then temp_pos else suc temp_pos) ≤ r) × (r < temp_pos + length cs))

later :
    (exiting next : Bool) (pos temp_pos c r : ℕ) (cs : List ℕ)
    → Ends next pos (suc temp_pos) cs r
    → Ends exiting pos temp_pos (c ∷ cs) r
later true next pos t c r cs (inl e) = inl e
later false next pos t c r cs (inl e) = inl e
later true true pos t c r cs (inr (l, u)) = inr (omega arith, omega arith)
later true false pos t c r cs (inr (l, u)) = inr (omega arith, omega arith)
later false true pos t c r cs (inr (l, u)) = inr (omega arith, omega arith)
later false false pos t c r cs (inr (l, u)) = inr (omega arith, omega arith)

scan_ends :
    (exiting : Bool) (pos t : ℕ) (cs : List ℕ)
    → Ends exiting pos t cs (scan_multiple_line true exiting pos t cs)
unfolding scan_multiple_line
scan_ends exiting pos t [] = inl refl
scan_ends true pos t (ch ∷ cs) = elim (Bool-cases (ch == b'*')) [
  | inl s ↦ rw s (later true true pos t ch _ cs (scan_ends true pos (suc t) cs))
  | inr n ↦ elim (Bool-cases (ch == b'/')) [
    | inl d ↦ rw (n, d) (inr (omega arith, omega arith))
    | inr o ↦ rw (n, o) (later true false pos t ch _ cs (scan_ends false pos (suc t) cs))
  ]
]
scan_ends false pos t (ch ∷ cs) = elim (Bool-cases (ch == b'*')) [
  | inl s ↦ rw s (later false true pos t ch _ cs (scan_ends true pos (suc t) cs))
  | inr n ↦ rw n (later false false pos t ch _ cs (scan_ends false pos (suc t) cs))
]

first_ends :
    (pos t : ℕ) (cs : List ℕ)
    → (scan_multiple_line false false pos t cs ≡ pos)
      ⊎ ((t + 2 ≤ scan_multiple_line false false pos t cs)
          × (scan_multiple_line false false pos t cs < t + length cs))
unfolding scan_multiple_line
first_ends pos t [] = inl refl
first_ends pos t (ch ∷ cs) = elim (Bool-cases (ch == b'*')) [
  | inl s ↦ rw s (behind (scan_ends false pos (suc t) cs))
  | inr n ↦ rw n (inl refl)
]
  where
    behind :
        {r : ℕ}
        → Ends false pos (suc t) cs r
        → (r ≡ pos) ⊎ ((t + 2 ≤ r) × (r < t + length (ch ∷ cs)))
    behind (inl e) = inl e
    behind (inr (l, u)) = inr (omega arith, omega arith)

-- Where `pos` is a position in the text: `_parse_multiple_line_comment` leaves the position untouched,
-- or moves it to a later position in the text, three characters on at least.
pub parse_multiple_line_comment_lem :
    (text : List ℕ) (pos : ℕ)
    → pos < length text
    → (parse_multiple_line_comment text pos ≡ pos)
      ⊎ ((pos + 3 ≤ parse_multiple_line_comment text pos)
          × (parse_multiple_line_comment text pos < length text))
unfolding parse_multiple_line_comment
parse_multiple_line_comment_lem text pos h = elim (first_ends pos (pos + 1) (drop (pos + 1) text)) [
  | inl e ↦ inl e
  | inr (l, u) ↦ inr (omega arith, omega (arith, length-drop (pos + 1) text))
]
