-- ===== src/Tnsnames/Lines.antt =====
-- Files of comments and entries, their text, and the entries that src/oracledb/impl/base/parsers.pyx is
-- to find in them.
use python_oracledb.Prelude.{
  ℕ, zero, suc, ◌+◌, ◌-◌, ◌≡◌, Bool, true, false, not, ◌&&◌, ◌||◌, List, [], ◌∷◌, ◌++◌, ◌==◌,
  if◌then◌else◌,
}
use python_oracledb.StatementParser.Tokens.{all_chars}
use python_oracledb.StatementParser.Bind.{Characters}
use python_oracledb.ConnectString.{strip}
use python_oracledb.Tnsnames.{Entry}

-- A comment, or a name with the text between the parentheses of its value.
pub data Line : Type 0 where
  comment : List ℕ → Line
  entry : List ℕ → List ℕ → Line

unfoldable pub text_of : List Line → List ℕ
text_of [] = []
text_of (comment cs ∷ ls) = b'#' ∷ (cs ++ (b'\n' ∷ text_of ls))
text_of (entry name body ∷ ls) = name ++ (b'=' ∷ b'(' ∷ (body ++ (b')' ∷ b'\n' ∷ text_of ls)))

abbrev pub parenthesised : List ℕ → List ℕ
parenthesised body = (b'(' ∷ body) ++ (b')' ∷ [])

-- The number of parentheses that are open behind a character.
abbrev pub depth_after : ℕ → ℕ → ℕ
depth_after ch depth = if ch == b'(' then depth + 1 else if ch == b')' then depth - 1 else depth

-- The same behind a text, or zero if the first of them is closed in it.
unfoldable pub open_after : ℕ → List ℕ → ℕ
open_after zero cs = zero
open_after (suc depth) [] = suc depth
open_after (suc depth) (ch ∷ cs) = open_after (depth_after ch (suc depth)) cs

abbrev pub no_hash : ℕ → Bool
no_hash ch = not (ch == b'#')

abbrev pub is_key_char : ℕ → Bool
is_key_char ch = not (ch == b'(' || ch == b')' || ch == b'#') && not (ch == b'=')

-- What is known of characters.
pub record TextLaws (chars : Characters) : Type 0 where
  pub open_space : chars.is_space b'(' ≡ false
  pub close_space : chars.is_space b')' ≡ false
  pub hash_space : chars.is_space b'#' ≡ false
  pub newline_space : chars.is_space b'\n' ≡ true
  pub hash_linebreak : chars.is_linebreak b'#' ≡ false
  pub newline : chars.is_linebreak b'\n' ≡ true

module _ (chars : Characters) where
  -- A name has no spaces at its ends and none of the characters that mean something.
  abbrev pub IsKey : List ℕ → Type 0
  IsKey [] = ⊥
  IsKey (ch ∷ cs) =
      (chars.is_space ch ≡ false)
      × (all_chars is_key_char (ch ∷ cs) ≡ true)
      × (strip chars.is_space (ch ∷ cs) ≡ ch ∷ cs)

  -- The parentheses of a value match, and there is no comment in it.
  abbrev pub IsLine : Line → Type 0
  IsLine (comment cs) = all_chars (λ ch. not (chars.is_linebreak ch)) cs ≡ true
  IsLine (entry name body) = IsKey name × (open_after 1 body ≡ 1) × (all_chars no_hash body ≡ true)

  abbrev pub AreLines : List Line → Type 0
  AreLines [] = Unit {0}
  AreLines (l ∷ ls) = IsLine l × AreLines ls

  unfoldable pub entries_of : List Line → List Entry
  entries_of [] = []
  entries_of (comment cs ∷ ls) = entries_of ls
  entries_of (entry name body ∷ ls) = (chars.upper name, parenthesised body) ∷ entries_of ls
