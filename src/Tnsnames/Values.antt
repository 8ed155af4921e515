-- ===== src/Tnsnames/Values.antt =====
-- src/oracledb/impl/base/parsers.pyx: TnsnamesFileParser._parse_value on a text in parentheses.
use python_oracledb.Prelude.{
  ℕ, zero, suc, ◌+◌, ◌≡◌, refl, sym, ap, ◌∙◌, arith, Bool, true, false, List, [], ◌∷◌, ◌++◌, length,
  length-append, some, ◌==◌,
}
use mathlib.Core.List.{append_assoc, append-nil}
use python_oracledb.Errors.{ok, ◌>>=◌}
use python_oracledb.StatementParser.Bind.{Characters}
use python_oracledb.StatementParser.Tokens.{all_chars}
use python_oracledb.StatementParser.Scans.{and_true, negated}
use python_oracledb.ConnectString.{drop_spaces, strip_end, strip}
use python_oracledb.Tnsnames.{
  PartScan, stripped, first_of_part, later_in_part, part_loop, parse_value_part, parse_entry_value,
}
use python_oracledb.Tnsnames.Lines.{parenthesised, depth_after, open_after, no_hash, TextLaws}

abbrev pub within : List ℕ → ℕ → PartScan
within part depth = record { part = some part; stop_at_end_of_line = false; num_parens = depth }

later_in_part-depth :
    (ch depth next : ℕ) (part : List ℕ)
    → depth_after ch (suc depth) ≡ suc next
    → later_in_part ch (within part (suc depth)) ≡ within (part ++ (ch ∷ [])) (suc next)
unfolding later_in_part
later_in_part-depth ch depth next part e = ground arith

open_after_pos :
    (depth e : ℕ) (cs : List ℕ) → open_after depth cs ≡ suc e → (d : ℕ) × (depth ≡ suc d)
unfolding open_after
open_after_pos zero e cs h = absurd (omega (arith, h))
open_after_pos (suc d) e cs h = (d, refl)

module _ (chars : Characters) where
  -- The loop over a text that leaves parentheses open.
  part_loop-body :
      (body rest part : List ℕ) (depth e fuel k : ℕ)
      → fuel ≡ length body + k
      → all_chars no_hash body ≡ true
      → open_after (suc depth) body ≡ suc e
      → part_loop chars fuel (within part (suc depth)) (body ++ rest)
        ≡ part_loop chars k (within (part ++ body) (suc e)) rest
  unfolding part_loop open_after
  part_loop-body [] rest part depth e fuel k f n h =
      let same : fuel ≡ k = omega (arith, f) in rw (same, h, append-nil part) refl
  part_loop-body (ch ∷ cs) rest part depth e zero k f n h = absurd (omega (arith, f))
  part_loop-body (ch ∷ cs) rest part depth e (suc fuel) k f n h =
      let (here, later) = and_true (no_hash ch) _ n in
      let (d, q) = open_after_pos (depth_after ch (suc depth)) e cs h in
      let inside : open_after (suc d) cs ≡ suc e = ap (λ k. open_after k cs) (sym q) ∙ h in
      rw (negated (ch == b'#') here) (
        ap (λ s. part_loop chars fuel s (cs ++ rest)) (later_in_part-depth ch depth d part q)
        ∙ part_loop-body cs rest (part ++ (ch ∷ [])) d e fuel k (omega (arith, f)) later inside
        ∙ ap (λ p. part_loop chars k (within p (suc e)) rest) (append_assoc part (ch ∷ []) cs))

  -- The closing parenthesis, and the end of its line.
  part_loop-end :
      (laws : TextLaws chars) (k : ℕ) (part rest : List ℕ)
      → part_loop chars (suc (suc k)) (within part 1) (b')' ∷ b'\n' ∷ rest)
        ≡ ok (
          record { part = some (part ++ (b')' ∷ [])); stop_at_end_of_line = true; num_parens = 0 },
          b'\n' ∷ rest,
        )
  unfolding part_loop later_in_part
  part_loop-end laws k part rest = rw laws.newline refl

  -- The first part of a value up to where its parentheses leave off.
  pub parse_value_part-body :
      (laws : TextLaws chars) (body rest : List ℕ) (e : ℕ)
      → all_chars no_hash body ≡ true
      → open_after 1 body ≡ suc e
      → (r : PartScan × List ℕ)
      → part_loop chars (suc (length rest)) (within (b'(' ∷ body) (suc e)) rest ≡ ok r
      → parse_value_part chars 0 (b'(' ∷ (body ++ rest))
        ≡ ok (stripped chars r.0.part, r.0.num_parens, r.1)
  unfolding parse_value_part part_loop first_of_part drop_spaces
  parse_value_part-body laws body rest e n h r q =
      let size : suc (length (body ++ rest)) ≡ length body + suc (length rest) =
        omega (arith, length-append body rest) in
      rw laws.open_space (
        ap (λ m. m >>= (λ r. ok (stripped chars r.0.part, r.0.num_parens, r.1)))
          (part_loop-body body rest (b'(' ∷ []) 0 e (suc (length (body ++ rest)))
              (suc (length rest)) size n h
            ∙ q))

-- The spaces at the ends.
strip_end-cons :
    (is_space : ℕ → Bool) (c d : ℕ) (cs ds : List ℕ)
    → strip_end is_space cs ≡ d ∷ ds
    → strip_end is_space (c ∷ cs) ≡ c ∷ d ∷ ds
unfolding strip_end
strip_end-cons is_space c d cs ds e = rw e refl

strip_end-char :
    (is_space : ℕ → Bool) (cs : List ℕ) (ch : ℕ)
    → is_space ch ≡ false
    → strip_end is_space (cs ++ (ch ∷ [])) ≡ cs ++ (ch ∷ [])
unfolding strip_end
strip_end-char is_space [] ch e = rw e refl
strip_end-char is_space (c ∷ []) ch e =
    strip_end-cons is_space c ch (ch ∷ []) [] (strip_end-char is_space [] ch e)
strip_end-char is_space (c ∷ d ∷ cs) ch e =
    strip_end-cons is_space c d (d ∷ cs ++ (ch ∷ [])) (cs ++ (ch ∷ []))
      (strip_end-char is_space (d ∷ cs) ch e)

pub strip-parenthesised :
    (chars : Characters) (laws : TextLaws chars) (body : List ℕ)
    → strip chars.is_space (parenthesised body) ≡ parenthesised body
unfolding drop_spaces
strip-parenthesised chars laws body =
    ap (drop_spaces chars.is_space)
      (strip_end-char chars.is_space (b'(' ∷ body) b')' laws.close_space)
    ∙ rw laws.open_space refl

module _ (chars : Characters) (laws : TextLaws chars) where
  -- A value in parentheses that match is read up to the end of its line.
  pub parse_entry_value-parenthesised :
      (rounds : ℕ) (body rest : List ℕ)
      → all_chars no_hash body ≡ true
      → open_after 1 body ≡ 1
      → parse_entry_value chars (suc rounds) (b'(' ∷ (body ++ (b')' ∷ b'\n' ∷ rest)))
        ≡ ok (some (parenthesised body), b'\n' ∷ rest)
  unfolding parse_entry_value
  parse_entry_value-parenthesised rounds body rest n h =
      let r : PartScan × List ℕ = (
        record { part = some (parenthesised body); stop_at_end_of_line = true; num_parens = 0 },
        b'\n' ∷ rest,
      ) in
      let part =
        parse_value_part-body chars laws body (b')' ∷ b'\n' ∷ rest) 0 n h r
          (part_loop-end chars laws (suc (length rest)) (b'(' ∷ body) rest) in
      rw part (ap (λ p. ok (some p, b'\n' ∷ rest)) (strip-parenthesised chars laws body))
