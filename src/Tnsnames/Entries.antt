-- ===== src/Tnsnames/Entries.antt =====
-- src/oracledb/impl/base/parsers.pyx: the entries that TnsnamesFileParser.parse finds in a file, and
-- the files on which it does not end.
use python_oracledb.Prelude.{
  ℕ, zero, suc, ◌<◌, ◌≡◌, refl, ap, ◌∙◌, arith, sym, true, false, not, ◌==◌, List, [], ◌∷◌, ◌++◌,
  length, none, some,
}
use mathlib.Core.List.{append-nil}
use python_oracledb.Errors.{ok, stuck}
use python_oracledb.StatementParser.Bind.{Characters}
use python_oracledb.StatementParser.Tokens.{all_chars}
use python_oracledb.ConnectString.{drop_spaces}
use python_oracledb.Tnsnames.{
  Found, PartScan, append_part, first_of_part, behind_linebreak, skip_to_end_of_line, stripped,
  part_loop, parse_key, parse_entry_value, parse_value_part, value_rounds, parse_rounds,
  parse_tnsnames,
}
use python_oracledb.Tnsnames.Lines.{
  Line, comment, entry, text_of, open_after, no_hash, IsKey, TextLaws, AreLines, entries_of,
}
use python_oracledb.Tnsnames.Keys.{
  first_key, behind-comment, parse_key-lines, parse_key-newline, parse_key-entry,
}
use python_oracledb.Tnsnames.Values.{
  within, parse_value_part-body, parse_entry_value-parenthesised, strip-parenthesised,
}

module _ (chars : Characters) (laws : TextLaws chars) where
  parse_rounds-lines :
      (ls : List Line) (fuel rounds : ℕ)
      → AreLines chars ls
      → length ls < fuel
      → parse_rounds chars (suc fuel) (suc rounds) (b'\n' ∷ text_of ls) ≡ ok (entries_of chars ls)
  unfolding parse_rounds first_key entries_of
  parse_rounds-lines ls zero rounds a h = absurd (omega (arith, h))
  parse_rounds-lines [] (suc fuel) rounds a h = rw (parse_key-lines chars laws [] a) refl
  parse_rounds-lines (comment cs ∷ ls) (suc fuel) rounds a h =
      rw (parse_key-lines chars laws (comment cs ∷ ls) a, ← parse_key-lines chars laws ls a.1)
        (parse_rounds-lines ls (suc fuel) rounds a.1 (omega (arith, h)))
  parse_rounds-lines (entry [] body ∷ ls) (suc fuel) rounds a h = absurd a.0.0
  parse_rounds-lines (entry (c ∷ cs) body ∷ ls) (suc fuel) rounds a h =
      let value = parse_entry_value-parenthesised chars laws rounds body (text_of ls) a.0.2 a.0.1 in
      rw
        (
          parse_key-lines chars laws (entry (c ∷ cs) body ∷ ls) a,
          value,
          parse_rounds-lines ls fuel rounds a.1 (omega (arith, h)),
        )
        (ap (λ v. ok ((chars.upper (c ∷ cs), v) ∷ entries_of chars ls))
          (strip-parenthesised chars laws body))

  -- A line break in front changes nothing.
  parse_rounds-newline :
      (cs : List ℕ) (fuel rounds : ℕ)
      → parse_rounds chars (suc (suc fuel)) (suc rounds) cs
        ≡ parse_rounds chars (suc (suc fuel)) (suc rounds) (b'\n' ∷ cs)
  unfolding parse_rounds parse_key drop_spaces
  parse_rounds-newline [] fuel rounds = rw laws.newline_space refl
  parse_rounds-newline (c ∷ cs) fuel rounds = rw (parse_key-newline chars laws (c ∷ cs)) refl

  -- A round that leaves a parenthesis open.
  value_rounds-open :
      (rounds n e : ℕ) (parts : List (List ℕ)) (cs rest : List ℕ) (part : Found)
      → parse_value_part chars n cs ≡ ok (part, suc e, rest)
      → value_rounds chars (suc rounds) parts n cs
        ≡ value_rounds chars rounds (append_part parts part) (suc e) rest
  unfolding value_rounds
  value_rounds-open rounds n e parts cs rest part h =
      let opened : (suc e == 0) ≡ false = ground arith in rw (h, opened) refl

  -- Where nothing but spaces is left an open parenthesis is never closed.
  value_rounds-spaces :
      (rounds e : ℕ) (parts : List (List ℕ)) (cs : List ℕ)
      → drop_spaces chars.is_space cs ≡ []
      → value_rounds chars rounds parts (suc e) cs ≡ stuck
  unfolding value_rounds parse_value_part part_loop stripped drop_spaces
  value_rounds-spaces zero e parts cs h = refl
  value_rounds-spaces (suc rounds) e parts cs h =
      value_rounds-open rounds (suc e) e parts cs [] none (rw h refl)
      ∙ value_rounds-spaces rounds e parts [] refl

  parse_entry_value-open :
      (rounds e : ℕ) (body : List ℕ)
      → all_chars no_hash body ≡ true
      → open_after 1 body ≡ suc e
      → parse_entry_value chars rounds (b'(' ∷ body) ≡ stuck
  unfolding parse_entry_value value_rounds part_loop drop_spaces
  parse_entry_value-open zero e body n h = refl
  parse_entry_value-open (suc rounds) e body n h =
      let part =
        parse_value_part-body chars laws body [] e n h (within (b'(' ∷ body) (suc e), []) refl in
      value_rounds-open rounds 0 e [] (b'(' ∷ body) [] _
        (ap (λ cs. parse_value_part chars 0 (b'(' ∷ cs)) (sym (append-nil body)) ∙ part)
      ∙ value_rounds-spaces rounds e _ [] refl

  drop_spaces-closing : (cs : List ℕ) → drop_spaces chars.is_space (b')' ∷ cs) ≡ b')' ∷ cs
  unfolding drop_spaces
  drop_spaces-closing cs = rw laws.close_space refl

  parse_value_part-closing :
      parse_value_part chars 1 (b')' ∷ b'\n' ∷ [])
      ≡ ok (stripped chars (some (b')' ∷ [])), 1, b'\n' ∷ [])
  unfolding part_loop first_of_part parse_value_part
  parse_value_part-closing = rw (drop_spaces-closing (b'\n' ∷ []), laws.newline) refl

  -- A closing parenthesis that is the first character of a part is not counted.
  value_rounds-closing :
      (rounds : ℕ) (parts : List (List ℕ))
      → value_rounds chars rounds parts 1 (b')' ∷ b'\n' ∷ []) ≡ stuck
  unfolding value_rounds drop_spaces
  value_rounds-closing zero parts = refl
  value_rounds-closing (suc rounds) parts =
      let end = b')' ∷ b'\n' ∷ [] in
      value_rounds-open rounds 1 0 parts end (b'\n' ∷ []) (stripped chars (some (b')' ∷ [])))
        parse_value_part-closing
      ∙ value_rounds-spaces rounds 0 _ (b'\n' ∷ []) (rw laws.newline_space refl)

  -- The parenthesis that closes the value stands behind a comment.
  parse_entry_value-commented :
      (rounds : ℕ) (body note : List ℕ)
      → all_chars no_hash body ≡ true
      → open_after 1 body ≡ 1
      → all_chars (λ ch. not (chars.is_linebreak ch)) note ≡ true
      → parse_entry_value chars rounds
          (b'(' ∷ (body ++ (b'#' ∷ (note ++ (b'\n' ∷ b')' ∷ b'\n' ∷ [])))))
        ≡ stuck
  unfolding parse_entry_value value_rounds part_loop skip_to_end_of_line behind_linebreak
      parse_value_part first_of_part stripped drop_spaces
  parse_entry_value-commented zero body note n h a = refl
  parse_entry_value-commented (suc rounds) body note n h a =
      let end = b')' ∷ b'\n' ∷ [] in
      let r : PartScan × List ℕ = (within (b'(' ∷ body) 1, end) in
      let behind =
        parse_value_part-body chars laws body (b'#' ∷ (note ++ (b'\n' ∷ end))) 0 n h r
          (rw (laws.hash_linebreak, behind-comment chars laws note end a, laws.close_space) refl) in
      value_rounds-open rounds 0 0 [] (b'(' ∷ (body ++ (b'#' ∷ (note ++ (b'\n' ∷ end))))) end _
        behind
      ∙ value_rounds-closing rounds _

  parse_tnsnames-stuck :
      (rounds : ℕ) (name rest : List ℕ)
      → IsKey chars name
      → parse_entry_value chars rounds rest ≡ stuck
      → parse_tnsnames chars rounds (name ++ (b'=' ∷ rest)) ≡ stuck
  unfolding parse_tnsnames parse_rounds
  parse_tnsnames-stuck zero name rest k h = refl
  parse_tnsnames-stuck (suc rounds) [] rest k h = absurd k
  parse_tnsnames-stuck (suc rounds) (c ∷ cs) rest k h =
      rw (parse_key-entry chars laws (c ∷ cs) rest k, h) refl

-- On a file of lines that are comments, or entries whose name has no spaces at its ends and no
-- parenthesis, equals sign or hash sign, and whose value is a text in matching parentheses without a hash
-- sign, which may go over several lines: `parse`, with more rounds than lines, ends and has called
-- `on_add_entry` for each entry in order, with its name in upper case and its value, and for nothing else.
pub parse_tnsnames-text_of :
    (chars : Characters) (laws : TextLaws chars) (ls : List Line) (rounds : ℕ)
    → AreLines chars ls
    → length ls < rounds
    → parse_tnsnames chars (suc rounds) (text_of ls) ≡ ok (entries_of chars ls)
unfolding parse_tnsnames
parse_tnsnames-text_of chars laws ls zero a h = absurd (omega (arith, h))
parse_tnsnames-text_of chars laws ls (suc rounds) a h =
    parse_rounds-newline chars laws (text_of ls) rounds (suc rounds)
    ∙ parse_rounds-lines chars laws ls (suc rounds) (suc rounds) a h

-- On a file of one entry whose value has an opening parenthesis that is not closed, and no hash sign,
-- `parse` ends with no number of rounds: the loop of `_parse_value` goes on at the end of the file.
pub parse_tnsnames-unclosed :
    (chars : Characters) (laws : TextLaws chars) (name body : List ℕ) (e rounds : ℕ)
    → IsKey chars name
    → all_chars no_hash body ≡ true
    → open_after 1 body ≡ suc e
    → parse_tnsnames chars rounds (name ++ (b'=' ∷ b'(' ∷ body)) ≡ stuck
parse_tnsnames-unclosed chars laws name body e rounds k n h =
    parse_tnsnames-stuck chars laws rounds name (b'(' ∷ body) k
      (parse_entry_value-open chars laws rounds e body n h)

-- On a file of one entry whose parentheses match, with a comment behind all of them but the last, which
-- stands alone on the last line, `parse` ends with no number of rounds.
pub parse_tnsnames-commented :
    (chars : Characters) (laws : TextLaws chars) (name body note : List ℕ) (rounds : ℕ)
    → IsKey chars name
    → all_chars no_hash body ≡ true
    → open_after 1 body ≡ 1
    → all_chars (λ ch. not (chars.is_linebreak ch)) note ≡ true
    → parse_tnsnames chars rounds
        (name ++ (b'=' ∷ b'(' ∷ (body ++ (b'#' ∷ (note ++ (b'\n' ∷ b')' ∷ b'\n' ∷ []))))))
      ≡ stuck
parse_tnsnames-commented chars laws name body note rounds k n h a =
    parse_tnsnames-stuck chars laws rounds name _ k
      (parse_entry_value-commented chars laws rounds body note n h a)
