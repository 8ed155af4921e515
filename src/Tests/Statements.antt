-- ===== src/Tests/Statements.antt =====
-- Statements, their parser and their cache at concrete values.
use python_oracledb.Prelude.{
  ℕ, ◌+◌, ◌-◌, ◌≤◌, ◌≡◌, ◌≢◌, refl, Bool, true, false, ◌&&◌, ◌||◌, List, [], ◌∷◌, map, length,
  arith, drop, some, ltb, leb, ◌==◌, if◌then◌else◌,
}
use python_oracledb.Errors.{ok, stuck}
use python_oracledb.StatementCache.{
  StatementCache, resize, get_copy, copy_leased, close_uncached, put, lookup, get_statement,
  return_statement,
}
use python_oracledb.StatementCache.Eviction.{resize-newest}
use python_oracledb.StatementCache.Lease.{get_statement-lease}
use python_oracledb.StatementCache.Reuse.{get_statement-return_statement}
use python_oracledb.Statement.{Statement, new_statement, lookup_binds}
use python_oracledb.StatementParser.Bind.{Characters}
use python_oracledb.StatementParser.Main.{parse, prepare}
use python_oracledb.StatementParser.Names.{Lawful}
use python_oracledb.StatementParser.Tokens.{
  Token, letter, other, bind, string, line_comment, quoted_bind, render, meaning, fit, fits, act,
  end_word, behind_word, effect, with_name, open_at, opening,
}
use python_oracledb.StatementParser.Whole.{parse-meaning}
use python_oracledb.StatementParser.Grouped.{binds_named, or_none, prepare-Grouped}

-- /*x*/y
abbrev comment_text : List ℕ
comment_text = b'/' ∷ b'*' ∷ b'x' ∷ b'*' ∷ b'/' ∷ b'y' ∷ []

abbrev between : ℕ → ℕ → ℕ → Bool
between low high ch = leb low ch && leb ch high

abbrev upper_char : ℕ → ℕ
upper_char ch = if between 97 122 ch then ch - 32 else ch

abbrev ascii : Characters
ascii = record {
  is_space = λ ch. ch == 32 || between 9 13 ch;
  is_alpha = λ ch. between 65 90 ch || between 97 122 ch;
  is_digit = between 48 57;
  is_alnum = λ ch. between 65 90 ch || between 97 122 ch || between 48 57 ch;
  is_linebreak = λ ch. ch == 10 || ch == 13;
  upper = map upper_char;
}

ascii-Lawful : Lawful ascii
ascii-Lawful = record {
  mark_alpha = λ ch m. ground arith;
  mark_space = λ ch m. ground arith;
  alpha_space = λ ch m. ground arith;
  alpha_digit = λ ch m. ground arith;
  digit_space = λ ch m. ground arith;
}

-- select :a1,':b' --:c, a line break, and :"Q"
abbrev query_tokens : List Token
query_tokens =
    letter b's'
    ∷ letter b'e'
    ∷ letter b'l'
    ∷ letter b'e'
    ∷ letter b'c'
    ∷ letter b't'
    ∷ other b' '
    ∷ bind b'a' (b'1' ∷ [])
    ∷ other b','
    ∷ string (b':' ∷ b'b' ∷ [])
    ∷ other b' '
    ∷ line_comment (b':' ∷ b'c' ∷ []) b'\n'
    ∷ quoted_bind b'Q' []
    ∷ other b' '
    ∷ []

query_fit : fit ascii query_tokens (ok (open_at (opening new_statement))) ≡ true
unfolding fit fits act end_word behind_word effect with_name
query_fit = refl

parse-meaning_example :
    parse ascii (render query_tokens) new_statement
    ≡ meaning ascii query_tokens (open_at (opening new_statement))
parse-meaning_example = parse-meaning ascii ascii-Lawful query_tokens new_statement query_fit

-- The names of the binds of a parsed statement.
abbrev names : Statement → List (List ℕ)
names s = map (λ info. info.bind_name) s.bind_info_list

query_names :
    (s : Statement) × (prepare ascii (render query_tokens) ≡ ok s)
    × (names s ≡ ((b'A' ∷ b'1' ∷ []) ∷ (b'Q' ∷ []) ∷ []))
    × (s.is_query ≡ true)
unfolding prepare
query_names = (_, refl, refl, refl)

prepare-Grouped_example :
    (prepare ascii (render query_tokens) ≢ stuck)
    × ((s : Statement)
        → prepare ascii (render query_tokens) ≡ ok s
        → (name : List ℕ)
        → or_none (lookup_binds name s.bind_info_dict) ≡ binds_named name s.bind_info_list)
prepare-Grouped_example = prepare-Grouped ascii (render query_tokens)

-- Statement 1 is in use and the newest; statement 0 is idle. Both go back to the cache.
abbrev two_cached : StatementCache
two_cached = record {
  heap = λ i.
      if ltb i 2
      then record new_statement { cursor_id = i + 4; return_to_cache = true; in_use = i == 1 }
      else new_statement;
  next = 2;
  cached_statements = (some (5 ∷ []), 0) ∷ (some (6 ∷ []), 1) ∷ [];
  max_size = 2;
  max_cursors = 8;
  cursors_to_close = [];
  open_cursors = 0 ∷ 1 ∷ [];
}

abbrev after_resize : StatementCache
after_resize = record two_cached {
  cached_statements = (some (6 ∷ []), 1) ∷ [];
  max_size = 1;
  cursors_to_close = 4 ∷ [];
  open_cursors = 1 ∷ [];
}

resize_run : resize 1 two_cached ≡ ok after_resize
unfolding resize
resize_run = refl

resize-newest_example :
    (after_resize.max_size ≡ 1)
    × (after_resize.cached_statements
        ≡ drop (length two_cached.cached_statements - 1) two_cached.cached_statements)
    × (length after_resize.cached_statements ≤ 1)
resize-newest_example = resize-newest 1 two_cached after_resize resize_run

-- The text of a statement in use: the request gets a copy with number 2.
abbrev after_get : StatementCache
after_get =
    put 2 (record new_statement { in_use = true })
      (record (put 2 new_statement two_cached) { next = 3; open_cursors = 2 ∷ 0 ∷ 1 ∷ [] })

get_run : get_statement ascii (some (6 ∷ [])) true false two_cached ≡ ok (2, after_get)
unfolding get_statement get_copy copy_leased close_uncached
get_run = refl

get_statement-lease_example :
    ((two_cached.heap 2).in_use ≡ false)
    × ((after_get.heap 1).in_use ≡ (if 1 == 2 then true else (two_cached.heap 1).in_use))
    × (length after_get.cached_statements ≤ after_get.max_size)
get_statement-lease_example =
    get_statement-lease ascii 1 2 (some (6 ∷ [])) true false two_cached after_get refl (omega arith)
      get_run

get_statement-return_statement_example :
    (c1 : StatementCache) × (return_statement 1 two_cached ≡ ok c1)
    × ((c2 : StatementCache) × (get_statement ascii (some (6 ∷ [])) true false c1 ≡ ok (1, c2)))
unfolding lookup
get_statement-return_statement_example =
    get_statement-return_statement ascii (6 ∷ []) 1 true two_cached refl refl
