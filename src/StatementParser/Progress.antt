-- ===== src/StatementParser/Progress.antt =====
-- The scanners of the statement parser never move the position back, on any text.
use python_oracledb.Prelude.{
  ℕ, zero, suc, ◌+◌, ◌≤◌, ◌<◌, ◌≡◌, ◌≢◌, arith, Bool, true, false, List, [], ◌∷◌, length, drop,
  get_elem?, some, ◌==◌, Bool-cases, inl, inr,
}
use mathlib.Core.Path.{subst}
use python_oracledb.Errors.{Result, stuck, err, ok, ◌>>=◌}
use python_oracledb.StatementParser.{
  scan_qstring, start_qstring, parse_qstring, scan_quoted, to_linebreak, scan_single_line,
  parse_single_line_comment, closing_separator,
}
use python_oracledb.StatementParser.Bind.{
  Characters, NameScan, first_char, later_char, name_char, scan_bind_name,
}

-- A result that is there or an error, and has the property where it is there.
abbrev pub Holds {ℓ} : {A : Type ℓ} → (A → Type 0) → Result A → Type 0
Holds p stuck = ⊥
Holds p (err e) = Unit {0}
Holds p (ok a) = p a

pub bind-Holds {ℓ μ} :
    {A : Type ℓ} {B : Type μ} (p : A → Type 0) (q : B → Type 0) (r : Result A) (next : A → Result B)
    → Holds p r
    → ((a : A) → p a → Holds q (next a))
    → Holds q (r >>= next)
bind-Holds p q stuck next h k = h
bind-Holds p q (err e) next h k = tt
bind-Holds p q (ok a) next h k = k a h

module _ {ℓ} {A : Type ℓ} (p : A → Type 0) {r : Result A} where
  pub Holds-returns : Holds p r → r ≢ stuck
  Holds-returns h e = subst (Holds p) e h

  pub Holds-ok : Holds p r → (a : A) → r ≡ ok a → p a
  Holds-ok h a e = subst (Holds p) e h

scan_qstring-Holds :
    (sep : ℕ) (exiting : Bool) (low t : ℕ) (cs : List ℕ)
    → low ≤ t
    → Holds (λ pos. low ≤ pos) (scan_qstring sep exiting t cs)
unfolding scan_qstring
scan_qstring-Holds sep exiting low t [] h = tt
scan_qstring-Holds sep true low t (c ∷ cs) h =
    let exits = scan_qstring-Holds sep true low (suc t) cs (omega arith) in
    let stays = scan_qstring-Holds sep false low (suc t) cs (omega arith) in
    elim (Bool-cases (c == b'\'')) [
      | inl q ↦ rw q h
      | inr n ↦ elim (Bool-cases (c == sep)) [ inl s ↦ rw (n, s) exits | inr o ↦ rw (n, o) stays ]
    ]
scan_qstring-Holds sep false low t (c ∷ cs) h =
    let exits = scan_qstring-Holds sep true low (suc t) cs (omega arith) in
    let stays = scan_qstring-Holds sep false low (suc t) cs (omega arith) in
    elim (Bool-cases (c == sep)) [ inl s ↦ rw s exits | inr o ↦ rw o stays ]

start_qstring-Holds :
    (low t : ℕ) (cs : List ℕ) → low ≤ t → Holds (λ next. low ≤ next) (start_qstring t cs)
unfolding start_qstring
start_qstring-Holds low t [] h = tt
start_qstring-Holds low t (ch ∷ cs) h =
    scan_qstring-Holds (closing_separator ch) false low (suc t) cs (omega arith)

pub parse_qstring-Holds :
    (sql : List ℕ) (pos : ℕ) → Holds (λ next. pos ≤ next) (parse_qstring sql pos)
unfolding parse_qstring
parse_qstring-Holds sql pos = start_qstring-Holds pos (pos + 1) (drop (pos + 1) sql) (omega arith)

pub scan_quoted-Holds :
    (q low t : ℕ) (cs : List ℕ) → low ≤ t → Holds (λ pos. low < pos) (scan_quoted q t cs)
unfolding scan_quoted
scan_quoted-Holds q low t [] h = tt
scan_quoted-Holds q low t (c ∷ cs) h = elim (Bool-cases (c == q)) [
  | inl e ↦ rw e (omega arith)
  | inr n ↦ rw n (scan_quoted-Holds q low (suc t) cs (omega arith))
]

to_linebreak_bound :
    (is_linebreak is_alpha is_space : ℕ → Bool) (t : ℕ) (cs : List ℕ)
    → t ≤ to_linebreak is_linebreak is_alpha is_space t cs
unfolding to_linebreak
to_linebreak_bound is_linebreak is_alpha is_space t [] = omega arith
to_linebreak_bound is_linebreak is_alpha is_space t (c ∷ cs) = elim (Bool-cases (is_linebreak c)) [
  | inl e ↦ rw e (omega arith)
  | inr n ↦ rw n (omega (arith, to_linebreak_bound is_linebreak is_alpha is_space (suc t) cs))
]

scan_single_line_bound :
    (is_linebreak is_alpha is_space : ℕ → Bool) (pos : ℕ) (cs : List ℕ)
    → pos ≤ scan_single_line is_linebreak is_alpha is_space pos cs
unfolding scan_single_line
scan_single_line_bound is_linebreak is_alpha is_space pos [] = omega arith
scan_single_line_bound is_linebreak is_alpha is_space pos (c ∷ cs) = elim (Bool-cases (c == b'-')) [
  | inl e ↦ rw e (omega (arith, to_linebreak_bound is_linebreak is_alpha is_space (pos + 2) cs))
  | inr n ↦ rw n (omega arith)
]

pub parse_single_line_comment_bound :
    (is_linebreak is_alpha is_space : ℕ → Bool) (sql : List ℕ) (pos : ℕ)
    → pos ≤ parse_single_line_comment is_linebreak is_alpha is_space sql pos
unfolding parse_single_line_comment
parse_single_line_comment_bound is_linebreak is_alpha is_space sql pos =
    scan_single_line_bound is_linebreak is_alpha is_space pos (drop (pos + 1) sql)

-- The loop is behind `low`, and so is the position that it leaves.
abbrev Behind : ℕ → NameScan → Type 0
Behind low n = (low ≤ n.pos) × (low < n.temp_pos)

module _ (chars : Characters) where
  name_char-Behind :
      (low ch : ℕ) (n : NameScan) → Behind low n → Behind low (name_char chars ch n).1
  unfolding name_char first_char later_char
  name_char-Behind low ch n h = ground arith

  pub scan_bind_name-Behind :
      (low : ℕ) (n : NameScan) (cs : List ℕ) → Behind low n → low ≤ (scan_bind_name chars n cs).pos
  unfolding scan_bind_name
  scan_bind_name-Behind low n [] h = h.0
  scan_bind_name-Behind low n (c ∷ cs) h =
      let next = name_char-Behind low c n h in
      elim (Bool-cases (name_char chars c n).0) [
        | inl e ↦ rw e (scan_bind_name-Behind low (name_char chars c n).1 cs next)
        | inr e ↦ rw e next.0
      ]

pub get_elem?-length : (sql : List ℕ) (pos ch : ℕ) → get_elem? sql pos ≡ some ch → pos < length sql
get_elem?-length [] pos ch e = cc
get_elem?-length (x ∷ xs) zero ch e = omega arith
get_elem?-length (x ∷ xs) (suc pos) ch e = omega (arith, get_elem?-length xs pos ch e)
