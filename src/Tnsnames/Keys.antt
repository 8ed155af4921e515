-- ===== src/Tnsnames/Keys.antt =====
-- src/oracledb/impl/base/parsers.pyx: TnsnamesFileParser._parse_key on the text of lines.
use python_oracledb.Prelude.{
  ℕ, zero, suc, ◌<◌, ◌≡◌, refl, sym, ap, ◌∙◌, arith, true, not, ◌||◌, List, [], ◌∷◌, ◌++◌, length,
  length-append, none, some, ◌==◌,
}
use mathlib.Core.List.{append_assoc, append-nil}
use python_oracledb.Errors.{Result, ok}
use python_oracledb.StatementParser.Bind.{Characters}
use python_oracledb.StatementParser.Tokens.{all_chars}
use python_oracledb.StatementParser.Scans.{and_true, negated}
use python_oracledb.ConnectString.{drop_spaces, strip}
use python_oracledb.Tnsnames.{Found, behind_linebreak, skip_to_end_of_line, key_loop, parse_key}
use python_oracledb.Tnsnames.Lines.{
  Line, comment, entry, text_of, is_key_char, TextLaws, IsKey, AreLines,
}

module _ (chars : Characters) (laws : TextLaws chars) where
  -- The key of the first entry, and the text behind its equals sign.
  unfoldable pub first_key : List Line → Result (Found × List ℕ)
  first_key [] = ok (none, [])
  first_key (comment cs ∷ ls) = first_key ls
  first_key (entry name body ∷ ls) = ok (some name, b'(' ∷ (body ++ (b')' ∷ b'\n' ∷ text_of ls)))

  drop_spaces-text :
      (ls : List Line) → AreLines chars ls → drop_spaces chars.is_space (text_of ls) ≡ text_of ls
  unfolding drop_spaces text_of
  drop_spaces-text [] a = refl
  drop_spaces-text (comment cs ∷ ls) a = rw laws.hash_space refl
  drop_spaces-text (entry [] body ∷ ls) a = absurd a.0.0
  drop_spaces-text (entry (c ∷ cs) body ∷ ls) a = rw a.0.0.0 refl

  pub behind-comment :
      (cs rest : List ℕ)
      → all_chars (λ ch. not (chars.is_linebreak ch)) cs ≡ true
      → behind_linebreak chars (cs ++ (b'\n' ∷ rest)) ≡ rest
  unfolding behind_linebreak
  behind-comment [] rest a = rw laws.newline refl
  behind-comment (c ∷ cs) rest a =
      let (here, later) = and_true (not (chars.is_linebreak c)) _ a in
      rw (negated (chars.is_linebreak c) here) (behind-comment cs rest later)

  key_loop-name :
      (name rest key : List ℕ) (fuel : ℕ)
      → length name < fuel
      → all_chars is_key_char name ≡ true
      → key_loop chars fuel (some key) (name ++ (b'=' ∷ rest))
        ≡ ok (some (strip chars.is_space (key ++ name)), rest)
  unfolding key_loop
  key_loop-name name rest key zero h a = absurd (omega (arith, h))
  key_loop-name [] rest key (suc fuel) h a =
      ap (λ k. ok (some (strip chars.is_space k), rest)) (sym (append-nil key))
  key_loop-name (ch ∷ cs) rest key (suc fuel) h a =
      let (here, later) = and_true (is_key_char ch) _ a in
      let (m, e) = and_true (not (ch == b'(' || ch == b')' || ch == b'#')) _ here in
      rw (negated _ m, negated (ch == b'=') e)
        (key_loop-name cs rest (key ++ (ch ∷ [])) fuel (omega (arith, h)) later
          ∙ ap (λ k. ok (some (strip chars.is_space k), rest)) (append_assoc key (ch ∷ []) cs))

  key_loop-entry :
      (name rest : List ℕ) (fuel : ℕ)
      → IsKey chars name
      → length name < fuel
      → key_loop chars fuel none (name ++ (b'=' ∷ rest)) ≡ ok (some name, rest)
  unfolding key_loop
  key_loop-entry [] rest fuel k h = absurd k
  key_loop-entry (c ∷ cs) rest zero k h = absurd (omega (arith, h))
  key_loop-entry (c ∷ cs) rest (suc fuel) k h =
      let (here, later) = and_true (is_key_char c) _ k.1 in
      let (m, e) = and_true (not (c == b'(' || c == b')' || c == b'#')) _ here in
      rw (negated _ m, negated (c == b'=') e)
        (key_loop-name cs rest (c ∷ []) fuel (omega (arith, h)) later
          ∙ ap (λ k. ok (some k, rest)) k.2)

  key_loop-lines :
      (ls : List Line) (fuel : ℕ)
      → AreLines chars ls
      → length (text_of ls) < fuel
      → key_loop chars fuel none (text_of ls) ≡ first_key ls
  unfolding key_loop first_key text_of skip_to_end_of_line behind_linebreak
  key_loop-lines ls zero a h = absurd (omega (arith, h))
  key_loop-lines [] (suc fuel) a h = refl
  key_loop-lines (comment cs ∷ ls) (suc fuel) a h =
      rw (laws.hash_linebreak, behind-comment cs (text_of ls) a.0, drop_spaces-text ls a.1)
        (key_loop-lines ls fuel a.1 (omega (arith, h, length-append cs (b'\n' ∷ text_of ls))))
  key_loop-lines (entry name body ∷ ls) (suc fuel) a h =
      let behind = b'(' ∷ (body ++ (b')' ∷ b'\n' ∷ text_of ls)) in
      key_loop-entry name behind (suc fuel) a.0.0
        (omega (arith, h, length-append name (b'=' ∷ behind)))

  -- Behind a line break the key is that of the next entry, whatever comments there are before it.
  pub parse_key-lines :
      (ls : List Line) → AreLines chars ls → parse_key chars (b'\n' ∷ text_of ls) ≡ first_key ls
  unfolding parse_key drop_spaces
  parse_key-lines ls a =
      rw (laws.newline_space, drop_spaces-text ls a)
        (key_loop-lines ls (suc (length (text_of ls))) a (omega arith))

  pub parse_key-newline : (cs : List ℕ) → parse_key chars (b'\n' ∷ cs) ≡ parse_key chars cs
  unfolding parse_key drop_spaces
  parse_key-newline cs = rw laws.newline_space refl

  pub parse_key-entry :
      (name rest : List ℕ)
      → IsKey chars name
      → parse_key chars (name ++ (b'=' ∷ rest)) ≡ ok (some name, rest)
  unfolding parse_key drop_spaces
  parse_key-entry [] rest k = absurd k
  parse_key-entry (c ∷ cs) rest k = rw k.0 (
      key_loop-entry (c ∷ cs) rest (suc (length (c ∷ cs ++ (b'=' ∷ rest)))) k
        (omega (arith, length-append cs (b'=' ∷ rest))))
