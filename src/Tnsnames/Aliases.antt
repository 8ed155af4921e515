-- ===== src/Tnsnames/Aliases.antt =====
-- src/oracledb/impl/base/parsers.pyx: the connect descriptors of a tnsnames.ora file, from the file to
-- the dictionary that ConnectStringParser makes of each.
use python_oracledb.Prelude.{
  ℕ, suc, ◌≡◌, refl, sym, ap, ◌∙◌, arith, Bool, true, false, not, ◌&&◌, ◌||◌, List, [], ◌∷◌, ◌++◌,
  length, length-map, map, drop, ◌<◌, ◌+◌, ◌-◌, ◌==◌,
}
use mathlib.Core.List.{append_assoc, append-nil}
use python_oracledb.Errors.{Result, ok, ◌>>=◌}
use python_oracledb.StatementParser.Bind.{Characters}
use python_oracledb.StatementParser.Tokens.{all_chars}
use python_oracledb.StatementParser.Scans.{and_true}
use python_oracledb.ConnectString.{
  Args, no_args, drop_spaces, is_keyword_char, set_descriptor_arg, parse_descriptor,
}
use python_oracledb.ConnectString.Descriptor.{
  Node, leaf, branch, Nodes, no_nodes, node, inner, closing, is_plain, IsName, IsNode, AreNodes,
  name_of_node, value_of_node,
}
use python_oracledb.ConnectString.RoundTrip.{Lawful}
use python_oracledb.ConnectString.Trees.{parse_descriptor-inner}
use python_oracledb.Tnsnames.{Entry, parse_tnsnames}
use python_oracledb.Tnsnames.Entries.{parse_tnsnames-text_of}
use python_oracledb.Tnsnames.Lines.{
  Line, entry, text_of, depth_after, open_after, no_hash, TextLaws, IsKey, AreLines, entries_of,
}

-- A descriptor's text up to its last parenthesis.
unfoldable pub closing_body : Nodes → List ℕ
closing_body no_nodes = []
closing_body (node n ns) = b'(' ∷ (inner n ++ closing_body ns)

unfoldable pub body_of : Node → List ℕ
body_of (leaf name ch body) = name ++ (b'=' ∷ ch ∷ body)
body_of (branch name n ns) = name ++ (b'=' ∷ b'(' ∷ (inner n ++ closing_body ns))

-- A character that is no parenthesis.
abbrev is_level : ℕ → Bool
is_level ch = not (ch == b'(') && not (ch == b')')

open_after-level :
    (depth : ℕ) (cs rest : List ℕ)
    → all_chars is_level cs ≡ true
    → open_after (suc depth) (cs ++ rest) ≡ open_after (suc depth) rest
unfolding open_after
open_after-level depth [] rest a = refl
open_after-level depth (c ∷ cs) rest a =
    let (here, later) = and_true (is_level c) _ a in
    let same : depth_after c (suc depth) ≡ suc depth = ground arith in
    ap (λ d. open_after d (cs ++ rest)) same ∙ open_after-level depth cs rest later

open_after-open :
    (depth : ℕ) (cs : List ℕ) → open_after (suc depth) (b'(' ∷ cs) ≡ open_after (suc (suc depth)) cs
unfolding open_after
open_after-open depth cs =
    let deeper : suc depth + 1 ≡ suc (suc depth) = omega arith in ap (λ d. open_after d cs) deeper

open_after-close :
    (depth : ℕ) (cs : List ℕ) → open_after (suc depth) (b')' ∷ cs) ≡ open_after depth cs
unfolding open_after
open_after-close depth cs =
    let out : suc depth - 1 ≡ depth = omega arith in ap (λ d. open_after d cs) out

open_after-branch :
    (depth : ℕ) (name cs : List ℕ)
    → all_chars is_level name ≡ true
    → open_after (suc depth) (name ++ (b'=' ∷ b'(' ∷ cs)) ≡ open_after (suc (suc depth)) cs
open_after-branch depth name cs a =
    open_after-level depth name (b'=' ∷ b'(' ∷ cs) a
    ∙ open_after-level depth (b'=' ∷ []) (b'(' ∷ cs) refl
    ∙ open_after-open depth cs

closing-body : (ns : Nodes) → closing ns ≡ closing_body ns ++ (b')' ∷ [])
unfolding closing closing_body
closing-body no_nodes = refl
closing-body (node n ns) =
    ap (λ cs. b'(' ∷ (inner n ++ cs)) (closing-body ns)
    ∙ ap (λ cs. b'(' ∷ cs) (sym (append_assoc (inner n) (closing_body ns) (b')' ∷ [])))

inner-body_of : (n : Node) → inner n ≡ body_of n ++ (b')' ∷ [])
unfolding inner body_of
inner-body_of (leaf name ch body) = sym (append_assoc name (b'=' ∷ ch ∷ body) (b')' ∷ []))
inner-body_of (branch name n ns) =
    ap (λ cs. name ++ (b'=' ∷ b'(' ∷ (inner n ++ cs))) (closing-body ns)
    ∙ ap (λ cs. name ++ (b'=' ∷ b'(' ∷ cs))
        (sym (append_assoc (inner n) (closing_body ns) (b')' ∷ [])))
    ∙ sym (append_assoc name (b'=' ∷ b'(' ∷ (inner n ++ closing_body ns)) (b')' ∷ []))

module _ (is_space is_alpha : ℕ → Bool) (lower : List ℕ → List ℕ)
    (open_alpha : is_alpha b'(' ≡ false) (close_alpha : is_alpha b')' ≡ false) where
  keyword-level : (c : ℕ) → (is_alpha c || c == b'_') ≡ true → is_level c ≡ true
  keyword-level c e = ground (arith, open_alpha, close_alpha)

  name-level :
      (name : List ℕ)
      → all_chars (is_keyword_char is_space is_alpha lower) name ≡ true
      → all_chars is_level name ≡ true
  name-level [] a = refl
  name-level (c ∷ cs) a =
      let (here, later) = and_true (is_alpha c || c == b'_') _ a in
      let level : is_level c ≡ true = keyword-level c here in rw (level, name-level cs later) refl

  IsName-level :
      (name : List ℕ) → IsName is_space is_alpha lower name → all_chars is_level name ≡ true
  IsName-level [] a = refl
  IsName-level (c ∷ cs) a = name-level (c ∷ cs) a

  plain-level : (cs : List ℕ) → all_chars is_plain cs ≡ true → all_chars is_level cs ≡ true
  plain-level [] a = refl
  plain-level (c ∷ cs) a =
      let (here, later) = and_true (is_plain c) _ a in
      let level : is_level c ≡ true = ground arith in rw (level, plain-level cs later) refl

  mutual
    unfolding inner closing IsNode AreNodes

    open_after-inner :
        (n : Node) (depth : ℕ) (rest : List ℕ)
        → IsNode is_space is_alpha lower n
        → open_after (suc depth) (inner n ++ rest) ≡ open_after depth rest
    open_after-inner (leaf name ch body) depth rest (word, s, p, q, r) =
        let end = b')' ∷ [] in
        ap (open_after (suc depth)) (append_assoc name (b'=' ∷ ch ∷ (body ++ end)) rest)
        ∙ open_after-level depth name _ (IsName-level name word)
        ∙ ap (open_after (suc depth)) (append_assoc (b'=' ∷ ch ∷ body) end rest)
        ∙ open_after-level depth (b'=' ∷ ch ∷ body) (b')' ∷ rest) (plain-level (ch ∷ body) p)
        ∙ open_after-close depth rest
    open_after-inner (branch name n ns) depth rest (word, first, later) =
        ap (open_after (suc depth)) (
          append_assoc name (b'=' ∷ b'(' ∷ (inner n ++ closing ns)) rest
          ∙ ap (λ cs. name ++ (b'=' ∷ b'(' ∷ cs)) (append_assoc (inner n) (closing ns) rest))
        ∙ open_after-branch depth name (inner n ++ (closing ns ++ rest)) (IsName-level name word)
        ∙ open_after-inner n (suc depth) (closing ns ++ rest) first
        ∙ open_after-closing ns depth rest later

    open_after-closing :
        (ns : Nodes) (depth : ℕ) (rest : List ℕ)
        → AreNodes is_space is_alpha lower ns
        → open_after (suc depth) (closing ns ++ rest) ≡ open_after depth rest
    open_after-closing no_nodes depth rest a = open_after-close depth rest
    open_after-closing (node n ns) depth rest (first, later) =
        ap (open_after (suc depth)) (append_assoc (b'(' ∷ inner n) (closing ns) rest)
        ∙ open_after-open depth (inner n ++ (closing ns ++ rest))
        ∙ open_after-inner n (suc depth) (closing ns ++ rest) first
        ∙ open_after-closing ns depth rest later

  open_after-closing_body :
      (ns : Nodes) (depth : ℕ)
      → AreNodes is_space is_alpha lower ns
      → open_after (suc depth) (closing_body ns) ≡ suc depth
  unfolding closing_body open_after AreNodes
  open_after-closing_body no_nodes depth a = refl
  open_after-closing_body (node n ns) depth (first, later) =
      open_after-open depth (inner n ++ closing_body ns)
      ∙ open_after-inner n (suc depth) (closing_body ns) first
      ∙ open_after-closing_body ns depth later

  open_after-body_of : (n : Node) → IsNode is_space is_alpha lower n → open_after 1 (body_of n) ≡ 1
  unfolding body_of IsNode open_after
  open_after-body_of (leaf name ch body) (word, s, p, q, r) =
      open_after-level 0 name (b'=' ∷ ch ∷ body) (IsName-level name word)
      ∙ ap (open_after 1) (sym (append-nil (b'=' ∷ ch ∷ body)))
      ∙ open_after-level 0 (b'=' ∷ ch ∷ body) [] (plain-level (ch ∷ body) p)
  open_after-body_of (branch name n ns) (word, first, later) =
      open_after-branch 0 name (inner n ++ closing_body ns) (IsName-level name word)
      ∙ open_after-inner n 1 (closing_body ns) first
      ∙ open_after-closing_body ns 0 later

abbrev pub Alias : Type 0
Alias = List ℕ × Node

abbrev pub line_of : Alias → Line
line_of a = entry a.0 (body_of a.1)

-- A name with the text of an entry's value, parsed behind its opening parenthesis.
abbrev pub Resolved : Type 0
Resolved = List ℕ × Result (Args × List ℕ)

-- What is known of parentheses.
pub record AliasLaws (chars : Characters) : Type 0 where
  pub text_laws : TextLaws chars
  pub lawful : Lawful chars.is_space chars.is_alpha
  pub open_alpha : chars.is_alpha b'(' ≡ false
  pub close_alpha : chars.is_alpha b')' ≡ false

module _ (chars : Characters) (lower : List ℕ → List ℕ) where
  abbrev pub resolve : Entry → Resolved
  resolve e = (e.0, parse_descriptor chars.is_space chars.is_alpha lower (drop 1 e.1))

  -- The name in upper case, with the dictionary of the tree, and no text left.
  abbrev pub resolved : Alias → Resolved
  resolved a =
      let name = name_of_node chars.is_space chars.is_alpha lower a.1 in
      let value = value_of_node chars.is_space chars.is_alpha lower a.1 in
      (chars.upper a.0, ok (set_descriptor_arg name value no_args, []))

  -- A descriptor without a hash sign under a name.
  abbrev pub IsAlias : Alias → Type 0
  IsAlias a =
      IsKey chars a.0
      × IsNode chars.is_space chars.is_alpha lower a.1
      × (all_chars no_hash (body_of a.1) ≡ true)

  abbrev pub AreAliases : List Alias → Type 0
  AreAliases [] = Unit {0}
  AreAliases (a ∷ as_) = IsAlias a × AreAliases as_

module _ (chars : Characters) (lower : List ℕ → List ℕ) (laws : AliasLaws chars) where
  AreAliases-AreLines :
      (as_ : List Alias) → AreAliases chars lower as_ → AreLines chars (map line_of as_)
  AreAliases-AreLines [] h = tt
  AreAliases-AreLines (a ∷ as_) ((key, tree, hash), later) =
      let balanced =
        open_after-body_of chars.is_space chars.is_alpha lower laws.open_alpha laws.close_alpha a.1
          tree in
      ((key, balanced, hash), AreAliases-AreLines as_ later)

  resolve-entries_of :
      (as_ : List Alias)
      → AreAliases chars lower as_
      → map (resolve chars lower) (entries_of chars (map line_of as_))
        ≡ map (resolved chars lower) as_
  unfolding entries_of drop_spaces
  resolve-entries_of [] h = refl
  resolve-entries_of (a ∷ as_) ((key, tree, hash), later) =
      let parse = parse_descriptor chars.is_space chars.is_alpha lower in
      let dictionary =
        ap parse (sym (inner-body_of a.1) ∙ sym (append-nil (inner a.1)))
        ∙ parse_descriptor-inner chars.is_space chars.is_alpha lower laws.lawful a.1 [] tree in
      ap
        (λ r. (chars.upper a.0, r) ∷ map (resolve chars lower) (entries_of chars (map line_of as_)))
        dictionary
      ∙ ap (λ rs. resolved chars lower a ∷ rs) (resolve-entries_of as_ later)

-- On a file with a line for each of some names, which have no spaces at their ends and no parenthesis,
-- equals sign or hash sign, with the text of a descriptor as its value, which is a tree of pairs that
-- the parser of connect descriptors reads back and has no hash sign: `parse` of TnsnamesFileParser, with
-- more rounds than lines, finds all of them in order and nothing else, and the parser of connect
-- descriptors makes of each value, behind its opening parenthesis, the dictionary of its tree, to the end.
pub resolve-parse_tnsnames :
    (chars : Characters) (lower : List ℕ → List ℕ) (laws : AliasLaws chars) (as_ : List Alias)
    (rounds : ℕ)
    → AreAliases chars lower as_
    → length as_ < rounds
    → (parse_tnsnames chars (suc rounds) (text_of (map line_of as_))
        >>= (λ es. ok (map (resolve chars lower) es)))
      ≡ ok (map (resolved chars lower) as_)
resolve-parse_tnsnames chars lower laws as_ rounds h k =
    ap (λ r. r >>= (λ es. ok (map (resolve chars lower) es)))
      (parse_tnsnames-text_of chars laws.text_laws (map line_of as_) rounds
        (AreAliases-AreLines chars lower laws as_ h) (omega (arith, length-map as_ line_of, k)))
    ∙ ap ok (resolve-entries_of chars lower laws as_ h)
