-- ===== src/Tests/Entries.antt =====
-- Files of connect descriptors by name at concrete values.
use python_oracledb.Prelude.{
  ◌+◌, codes, ℕ, ◌-◌, ◌≡◌, refl, arith, ◌&&◌, ◌||◌, List, [], ◌∷◌, ◌++◌, map, ◌==◌, leb,
  if◌then◌else◌,
}
use python_oracledb.Errors.{ok, stuck, ◌>>=◌}
use python_oracledb.Statement.Binds.{is_one_of}
use python_oracledb.ConnectString.{drop_spaces, strip_end, param_name}
use python_oracledb.ConnectString.Descriptor.{leaf, branch, no_nodes, node, IsNode, inner, closing}
use python_oracledb.Tnsnames.Aliases.{
  Alias, AliasLaws, AreAliases, body_of, closing_body, line_of, resolve, resolved,
  resolve-parse_tnsnames,
}
use python_oracledb.StatementParser.Bind.{Characters}
use python_oracledb.Tnsnames.{parse_tnsnames}
use python_oracledb.Tnsnames.Lines.{
  Line, comment, entry, text_of, entries_of, open_after, TextLaws, IsKey, AreLines,
}
use python_oracledb.Tnsnames.Entries.{
  parse_tnsnames-text_of, parse_tnsnames-unclosed, parse_tnsnames-commented,
}

abbrev ascii : Characters
ascii = record {
  is_space = λ ch. ch == 32 || leb 9 ch && leb ch 13;
  is_alpha = λ ch. leb 65 ch && leb ch 90 || leb 97 ch && leb ch 122;
  is_digit = λ ch. leb 48 ch && leb ch 57;
  is_alnum = λ ch. leb 65 ch && leb ch 90 || leb 97 ch && leb ch 122 || leb 48 ch && leb ch 57;
  is_linebreak = λ ch. leb 10 ch && leb ch 13;
  upper = map (λ ch. if leb 97 ch && leb ch 122 then ch - 32 else ch);
}

-- #c
-- a = (b=c)
-- d=(e=
--  f)
two_entries :
    parse_tnsnames ascii 9 ((codes "#c\na = (b=c)\nd=(e=\n f)\n"))
    ≡ ok ((b'A' ∷ [], (codes "(b=c)")) ∷ (b'D' ∷ [], (codes "(e=\n f)")) ∷ [])
unfolding parse_tnsnames
two_entries = refl

-- a=(b=(c=d) #x
-- )
-- e=(f=g)
swallowed : parse_tnsnames ascii 30 ((codes "a=(b=(c=d) #x\n)\ne=(f=g)\n")) ≡ stuck
unfolding parse_tnsnames
swallowed = refl

ascii-TextLaws : TextLaws ascii
ascii-TextLaws = record {
  open_space = refl;
  close_space = refl;
  hash_space = refl;
  newline_space = refl;
  hash_linebreak = refl;
  newline = refl;
}

-- #c
-- ab=(h=(p=1))
abbrev two_lines : List Line
two_lines = comment (b'c' ∷ []) ∷ entry (b'a' ∷ b'b' ∷ []) (codes "h=(p=1)") ∷ []

two_lines-AreLines : AreLines ascii two_lines
unfolding open_after drop_spaces strip_end
two_lines-AreLines = (refl, (((refl, refl, refl), refl, refl), tt))

parse_tnsnames-text_of_example :
    parse_tnsnames ascii 4 (text_of two_lines) ≡ ok (entries_of ascii two_lines)
parse_tnsnames-text_of_example =
    parse_tnsnames-text_of ascii ascii-TextLaws two_lines 3 two_lines-AreLines (omega arith)

one_letter-IsKey : IsKey ascii (b'a' ∷ [])
unfolding drop_spaces strip_end
one_letter-IsKey = (refl, refl, refl)

abbrev one_pair : List ℕ
one_pair = codes "(c=d)"

one_pair-open : open_after 1 one_pair ≡ 1
unfolding open_after
one_pair-open = refl

-- a=((c=d)
parse_tnsnames-unclosed_example : parse_tnsnames ascii 100 (b'a' ∷ b'=' ∷ b'(' ∷ one_pair) ≡ stuck
parse_tnsnames-unclosed_example =
    parse_tnsnames-unclosed ascii ascii-TextLaws (b'a' ∷ []) one_pair 0 100 one_letter-IsKey refl
      one_pair-open

-- a=((c=d)#x
-- )
parse_tnsnames-commented_example :
    parse_tnsnames ascii 100 (
      (b'a' ∷ [])
      ++ (b'=' ∷ b'(' ∷ (one_pair ++ (b'#' ∷ ((b'x' ∷ []) ++ (b'\n' ∷ b')' ∷ b'\n' ∷ []))))))
    ≡ stuck
parse_tnsnames-commented_example =
    parse_tnsnames-commented ascii ascii-TextLaws (b'a' ∷ []) one_pair (b'x' ∷ []) 100
      one_letter-IsKey refl one_pair-open refl

ascii-AliasLaws : AliasLaws ascii
ascii-AliasLaws = record {
  text_laws = ascii-TextLaws;
  lawful = record {
    open_space = refl;
    close_space = refl;
    equals_space = refl;
    underscore_space = refl;
    equals_alpha = refl;
    alpha_space = λ ch a. ground arith;
  };
  open_alpha = refl;
  close_alpha = refl;
}

abbrev lower : List ℕ → List ℕ
lower = map (λ ch. if leb 65 ch && leb ch 90 then ch + 32 else ch)

-- ab=(address=(Host=h)(port=1))
abbrev one_alias : List Alias
one_alias =
    (
      codes "ab",
      branch (codes "address") (leaf (codes "Host") b'h' [])
          (node (leaf (codes "port") b'1' []) no_nodes),
    )
    ∷ []

one_alias-AreAliases : AreAliases ascii lower one_alias
unfolding IsNode body_of closing_body inner closing drop_spaces strip_end is_one_of param_name
one_alias-AreAliases = (
  (
    (refl, refl, refl),
    (refl, (refl, refl, refl, refl, refl), ((refl, refl, refl, refl, refl), tt)),
    refl,
  ),
  tt,
)

resolve-parse_tnsnames_example :
    (parse_tnsnames ascii 3 (text_of (map line_of one_alias))
      >>= (λ es. ok (map (resolve ascii lower) es)))
    ≡ ok (map (resolved ascii lower) one_alias)
resolve-parse_tnsnames_example =
    resolve-parse_tnsnames ascii lower ascii-AliasLaws one_alias 2 one_alias-AreAliases
      (omega arith)
