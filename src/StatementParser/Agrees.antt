-- ===== src/StatementParser/Agrees.antt =====
-- StatementParser.parse reads the tokens of a text, round by round.
use python_oracledb.Prelude.{
  ℕ, zero, suc, ◌+◌, ◌-◌, ◌≡◌, refl, sym, ap, ◌∙◌, arith, Bool, true, false, not, ◌&&◌, List, [],
  ◌∷◌, ◌++◌, length, length-append, drop, drop-length-append, get_elem?, some, if◌then◌else◌,
}
use mathlib.Core.List.{append_assoc}
use python_oracledb.Errors.{Result, stuck, err, ok}
use python_oracledb.StatementParser.Bind.{Characters, slice}
use python_oracledb.StatementParser.Main.{
  Parser, Round, break, go, initial_keyword, end_of_word, look_for_keyword, advance,
}
use python_oracledb.StatementParser.Tokens.{Reading, Heard, closed, open_at, end_word, left_by}
use python_oracledb.StatementParser.Names.{slice-drop}

abbrev pub has_letters : List ℕ → Bool
has_letters [] = false
has_letters (_ ∷ _) = true

-- The parser that has read what `r` says, at a position, with the start of the last word of letters.
abbrev pub parser_at : ℕ → ℕ → ℕ → Reading → Parser
parser_at pos start_pos start_ch r = record {
  pos = pos;
  stmt = r.stmt;
  returning_keyword_found = r.returning_found;
  initial_keyword_found = r.initial_found;
  last_was_string = r.after_string;
  last_ch = r.last_ch;
  alpha_start_ch = start_ch;
  alpha_start_pos = start_pos;
  last_was_alpha = has_letters r.word;
}

abbrev pub StartsAt : List ℕ → ℕ → ℕ → List ℕ → Type 0
StartsAt before start_pos start_ch [] = Unit {0}
StartsAt before start_pos start_ch (ch ∷ _) = (start_pos ≡ length before) × (start_ch ≡ ch)

-- The text is what was read, with the word `word` last, and then `rest`.
pub record Follows (sql rest word : List ℕ) (pos start_pos start_ch : ℕ) : Type 0 where
  pub before : List ℕ
  pub text : sql ≡ before ++ (word ++ rest)
  pub at_pos : pos ≡ length before + length word
  pub word_start : StartsAt before start_pos start_ch word

module _ {sql rest word : List ℕ} {pos start_pos start_ch : ℕ}
    (f : Follows sql rest word pos start_pos start_ch) where
  pub drop-Follows : drop pos sql ≡ rest
  drop-Follows =
      ap (drop pos) (f.text ∙ sym (append_assoc f.before word rest))
      ∙ drop-length-append pos (f.before ++ word) rest
          (omega (arith, f.at_pos, length-append f.before word))

-- Behind a token the word is over.
pub lands :
    (sql token rest word : List ℕ) (pos start_pos start_ch next a b : ℕ)
    → Follows sql (token ++ rest) word pos start_pos start_ch
    → next ≡ pos + length token
    → Follows sql rest [] next a b
lands sql token rest word pos start_pos start_ch next a b f e = record {
  before = f.before ++ (word ++ token);
  text =
      f.text
      ∙ ap (λ xs. f.before ++ xs) (sym (append_assoc word token rest))
      ∙ sym (append_assoc f.before (word ++ token) rest);
  at_pos =
      omega (arith, e, f.at_pos, length-append f.before (word ++ token), length-append word token);
  word_start = tt;
}

pub get_elem?-drop :
    (pos ch : ℕ) (sql rest : List ℕ) → drop pos sql ≡ ch ∷ rest → get_elem? sql pos ≡ some ch
get_elem?-drop zero ch [] rest e = cc
get_elem?-drop zero ch (x ∷ xs) rest e = cc
get_elem?-drop (suc pos) ch [] rest e = cc
get_elem?-drop (suc pos) ch (x ∷ xs) rest e = get_elem?-drop pos ch xs rest e

module _ (chars : Characters) where
  -- A letter goes on with the word, or starts one.
  pub letter-Follows :
      (sql rest word : List ℕ) (pos start_pos start_ch ch : ℕ)
      → Follows sql (ch ∷ rest) word pos start_pos start_ch
      → Follows sql rest
          (word ++ (ch ∷ []))
          (pos + 1)
          (if has_letters word then start_pos else pos)
          (if has_letters word then start_ch else ch)
  letter-Follows sql rest [] pos start_pos start_ch ch f = record {
    before = f.before;
    text = f.text;
    at_pos = omega (arith, f.at_pos);
    word_start = (omega (arith, f.at_pos), refl);
  }
  letter-Follows sql rest (w ∷ ws) pos start_pos start_ch ch f = record {
    before = f.before;
    text = f.text ∙ ap (λ xs. f.before ++ (w ∷ xs)) (sym (append_assoc ws (ch ∷ []) rest));
    at_pos = omega (arith, f.at_pos, length-append ws (ch ∷ []));
    word_start = f.word_start;
  }

  -- What the parser does on a character behind a word, or behind no word.
  abbrev pub to_round : ℕ → ℕ → ℕ → Heard → Round
  to_round pos start_pos start_ch (closed stmt) = break stmt
  to_round pos start_pos start_ch (open_at r) = go (parser_at pos start_pos start_ch r)

  end_of_word-end_word :
      (pos start_pos ch : ℕ) (cs : List ℕ) (r : Reading)
      → end_of_word chars (ch ∷ cs) (length (ch ∷ cs)) (parser_at pos start_pos ch r)
        ≡ to_round pos start_pos ch (end_word chars (ch ∷ cs) r)
  unfolding end_of_word end_word initial_keyword
  end_of_word-end_word pos start_pos ch cs r = ground arith

  at_end :
      (is_alpha last_was_alpha : Bool) (x y z : Round)
      → is_alpha ≡ false
      → last_was_alpha ≡ true
      → (if is_alpha && not last_was_alpha
          then x
          else if not is_alpha && last_was_alpha
          then y
          else z)
        ≡ y
  at_end true last x y z o l = cc
  at_end false true x y z o l = refl
  at_end false false x y z o l = cc

  pub look_for_word :
      (sql rest word : List ℕ) (pos start_pos start_ch ch : ℕ) (r : Reading)
      → r.word ≡ word
      → Follows sql rest word pos start_pos start_ch
      → chars.is_alpha ch ≡ false
      → look_for_keyword chars sql ch (parser_at pos start_pos start_ch r)
        ≡ to_round pos start_pos start_ch (end_word chars word r)
  unfolding look_for_keyword end_word
  look_for_word sql rest [] pos start_pos start_ch ch r e f o =
      let none_left : has_letters r.word ≡ false = ap has_letters e in rw (o, none_left) refl
  look_for_word sql rest (w ∷ ws) pos start_pos start_ch ch r e f o =
      let (at, same) = f.word_start in
      let size : pos - start_pos ≡ length (w ∷ ws) = omega (arith, f.at_pos, at) in
      let sliced : slice start_pos pos sql ≡ w ∷ ws =
        slice-drop start_pos pos (w ∷ ws) rest sql
          (ap (drop start_pos) f.text ∙ drop-length-append start_pos f.before ((w ∷ ws) ++ rest) at)
          (omega (arith, f.at_pos, at)) in
      let some_left : has_letters r.word ≡ true = ap has_letters e in
      at_end (chars.is_alpha ch) (has_letters r.word) _ _ _ o some_left
      ∙ (ap (λ xs. end_of_word chars xs (pos - start_pos) (parser_at pos start_pos start_ch r))
            sliced
          ∙ ap (λ n. end_of_word chars (w ∷ ws) n (parser_at pos start_pos start_ch r)) size
          ∙ ap (λ c. end_of_word chars (w ∷ ws) (length (w ∷ ws)) (parser_at pos start_pos c r))
              same
          ∙ end_of_word-end_word pos start_pos w ws r
          ∙ ap (λ c. to_round pos start_pos c (end_word chars (w ∷ ws) r)) (sym same))

  -- What the end of a word leaves as it was.
  abbrev pub Kept : Reading → Heard → Type 0
  Kept r (closed stmt) = Unit {0}
  Kept r (open_at r') =
      (r'.word ≡ r.word) × (r'.after_string ≡ r.after_string) × (r'.last_ch ≡ r.last_ch)

  pub end_word-Kept : (word : List ℕ) (r : Reading) → Kept r (end_word chars word r)
  unfolding end_word
  end_word-Kept [] r = (refl, refl, refl)
  end_word-Kept (ch ∷ cs) r = ground arith

  -- The same outcome of a round, and of a token.
  abbrev pub Agree : List ℕ → List ℕ → Result Round → Result Heard → Type 0
  Agree sql rest (ok (break stmt)) (ok (closed stmt')) = stmt ≡ stmt'
  Agree sql rest (ok (go p)) (ok (open_at r)) =
      (pos : ℕ) × (start_pos : ℕ) × (start_ch : ℕ) × (p ≡ parser_at pos start_pos start_ch r)
      × Follows sql rest r.word pos start_pos start_ch
  Agree sql rest (err e) (err e') = e ≡ e'
  Agree sql rest stuck stuck = Unit {0}
  Agree sql rest _ _ = ⊥

  module _ (sql rest token : List ℕ) (pos start_pos start_ch : ℕ) (r : Reading)
      (f : Follows sql (token ++ rest) r.word pos start_pos start_ch) where
    pub settled :
        (ch at : ℕ) (string : Bool)
        → chars.is_alpha ch ≡ false
        → at + 1 ≡ pos + length token
        → Agree sql rest
            (ok (
              go (
                advance chars ch (record (parser_at pos start_pos start_ch r) {
                  pos = at;
                  last_was_string = string;
                }))))
            (ok (left_by chars ch string r))
    unfolding advance
    settled ch at string o e = (
      at + 1,
      start_pos,
      start_ch,
      rw o refl,
      lands sql token rest r.word pos start_pos start_ch (at + 1) start_pos start_ch f e,
    )
