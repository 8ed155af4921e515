-- ===== src/StatementParser/Scans.antt =====
-- The scanners of the statement parser on a token that is followed by any text.
use python_oracledb.Prelude.{
  ℕ, suc, ◌+◌, ◌≡◌, refl, ap, ◌∙◌, arith, Bool, true, false, not, ◌&&◌, ◌||◌, List, [], ◌∷◌, ◌++◌,
  length, ◌==◌, if◌then◌else◌, ◌⊎◌, inl, inr,
}
use python_oracledb.Errors.{ok}
use python_oracledb.StatementCache.Dict.{contains}
use python_oracledb.StatementParser.{
  scan_multiple_line, scan_qstring, scan_quoted, scan_single_line, to_linebreak,
}
use python_oracledb.StatementParser.Tokens.{closes, all_chars, ends_before, is_mark}

pub ==_sym : (a b : ℕ) → (a == b) ≡ (b == a)
==_sym a b = ground arith

pub ==_refl : (a : ℕ) → (a == a) ≡ true
==_refl a = ground arith

pub or_false : (a b : Bool) → (a || b) ≡ false → (a ≡ false) × (b ≡ false)
or_false true b e = cc
or_false false b e = (refl, e)

pub and_true : (a b : Bool) → (a && b) ≡ true → (a ≡ true) × (b ≡ true)
and_true true b e = (refl, e)
and_true false b e = cc

pub negated : (a : Bool) → not a ≡ true → a ≡ false
negated true e = cc
negated false e = refl

pub contains-uncons :
    (x y : ℕ) (ys : List ℕ)
    → contains x (y ∷ ys) ≡ false
    → ((y == x) ≡ false) × (contains x ys ≡ false)
unfolding contains
contains-uncons x y ys e = let (a, b) = or_false (x == y) (contains x ys) e in (==_sym y x ∙ a, b)

pub scan_quoted-close :
    (q t : ℕ) (body rest : List ℕ)
    → contains q body ≡ false
    → scan_quoted q t (body ++ (q ∷ rest)) ≡ ok (suc t + length body)
unfolding scan_quoted
scan_quoted-close q t [] rest e =
    rw (==_refl q) (let k : suc t ≡ suc t + 0 = omega arith in ap ok k)
scan_quoted-close q t (c ∷ cs) rest e =
    let (n, m) = contains-uncons q c cs e in
    let k : suc (suc t) + length cs ≡ suc t + suc (length cs) = omega arith in
    rw n (scan_quoted-close q (suc t) cs rest m ∙ ap ok k)

pub scan_qstring-close :
    (sep t : ℕ) (body rest : List ℕ)
    → contains sep body ≡ false
    → scan_qstring sep false t (body ++ (sep ∷ b'\'' ∷ rest)) ≡ ok (suc t + length body)
unfolding scan_qstring
scan_qstring-close sep t [] rest e =
    rw (==_refl sep) (let k : suc t ≡ suc t + 0 = omega arith in ap ok k)
scan_qstring-close sep t (c ∷ cs) rest e =
    let (n, m) = contains-uncons sep c cs e in
    let k : suc (suc t) + length cs ≡ suc t + suc (length cs) = omega arith in
    rw n (scan_qstring-close sep (suc t) cs rest m ∙ ap ok k)

pub to_linebreak-end :
    (is_linebreak is_alpha is_space : ℕ → Bool) (t lb : ℕ) (body rest : List ℕ)
    → all_chars (λ ch. not (is_linebreak ch)) body ≡ true
    → is_linebreak lb ≡ true
    → to_linebreak is_linebreak is_alpha is_space t (body ++ (lb ∷ rest)) ≡ t + length body
unfolding to_linebreak
to_linebreak-end is_linebreak is_alpha is_space t lb [] rest e l = rw l (omega arith)
to_linebreak-end is_linebreak is_alpha is_space t lb (c ∷ cs) rest e l =
    let (n, m) = and_true (not (is_linebreak c)) _ e in
    rw (negated (is_linebreak c) n)
      (omega (arith, to_linebreak-end is_linebreak is_alpha is_space (suc t) lb cs rest m l))

-- A text that does not close a comment does not do so behind its first character.
closes-uncons :
    (exiting star slash : Bool) (behind_star behind_other : Bool)
    → (if star then behind_star else if exiting && slash then true else behind_other) ≡ false
    → ((star ≡ true) × (behind_star ≡ false))
      ⊎ ((star ≡ false) × ((exiting && slash) ≡ false) × (behind_other ≡ false))
closes-uncons exiting true slash behind_star behind_other e = inl (refl, e)
closes-uncons true false true behind_star behind_other e = cc
closes-uncons true false false behind_star behind_other e = inr (refl, refl, e)
closes-uncons false false slash behind_star behind_other e = inr (refl, refl, e)

-- Behind the start of a comment that its text does not close.
pub scan_multiple_line-close :
    (exiting : Bool) (pos t : ℕ) (body rest : List ℕ)
    → closes exiting body ≡ false
    → scan_multiple_line true exiting pos t (body ++ (b'*' ∷ b'/' ∷ rest)) ≡ suc t + length body
unfolding scan_multiple_line closes
scan_multiple_line-close true pos t [] rest e = omega arith
scan_multiple_line-close false pos t [] rest e = omega arith
scan_multiple_line-close true pos t (c ∷ cs) rest e =
    elim (closes-uncons true (c == b'*') (c == b'/') (closes true cs) (closes false cs) e) [
      | inl (s, m) ↦ rw s (omega (arith, scan_multiple_line-close true pos (suc t) cs rest m))
      | inr (n, o, m) ↦
          rw (n, o) (omega (arith, scan_multiple_line-close false pos (suc t) cs rest m))
    ]
scan_multiple_line-close false pos t (c ∷ cs) rest e =
    elim (closes-uncons false (c == b'*') (c == b'/') (closes true cs) (closes false cs) e) [
      | inl (s, m) ↦ rw s (omega (arith, scan_multiple_line-close true pos (suc t) cs rest m))
      | inr (n, _, m) ↦ rw n (omega (arith, scan_multiple_line-close false pos (suc t) cs rest m))
    ]

-- A dash and a slash that start no comment.
pub scan_single_line-minus :
    (is_linebreak is_alpha is_space : ℕ → Bool) (pos : ℕ) (rest : List ℕ)
    → ends_before (λ ch. ch == b'-') rest ≡ true
    → scan_single_line is_linebreak is_alpha is_space pos rest ≡ pos
unfolding scan_single_line
scan_single_line-minus is_linebreak is_alpha is_space pos [] e = cc
scan_single_line-minus is_linebreak is_alpha is_space pos (c ∷ cs) e =
    rw (negated (c == b'-') e) refl

pub scan_multiple_line-divide :
    (pos t : ℕ) (rest : List ℕ)
    → ends_before (λ ch. ch == b'*') rest ≡ true
    → scan_multiple_line false false pos t rest ≡ pos
unfolding scan_multiple_line
scan_multiple_line-divide pos t [] e = cc
scan_multiple_line-divide pos t (c ∷ cs) e = rw (negated (c == b'*') e) refl

none_of :
    (a b c d f : Bool)
    → (a || b || c || d || f) ≡ false
    → (a ≡ false) × (b ≡ false) × (c ≡ false) × (d ≡ false) × (f ≡ false)
none_of a b c d f e = ground arith

pub all_of :
    (a b c d f : Bool)
    → (a && b && c && d && f) ≡ true
    → (a ≡ true) × (b ≡ true) × (c ≡ true) × (d ≡ true) × (f ≡ true)
all_of a b c d f e = ground arith

-- A character that is no mark.
pub record NoMark (ch : ℕ) : Type 0 where
  pub no_quote : (ch == b'\'') ≡ false
  pub no_double : (ch == b'"') ≡ false
  pub no_dash : (ch == b'-') ≡ false
  pub no_slash : (ch == b'/') ≡ false
  pub no_colon : (ch == b':') ≡ false

pub is_mark-NoMark : (ch : ℕ) → is_mark ch ≡ false → NoMark ch
is_mark-NoMark ch e =
    let (a, b, c, d, f) =
      none_of (ch == b'\'') (ch == b'"') (ch == b'-') (ch == b'/') (ch == b':') e in
    record { no_quote = a; no_double = b; no_dash = c; no_slash = d; no_colon = f }
