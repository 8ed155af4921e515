-- ===== src/ConnectString/Trees.antt =====
-- ConnectStringParser._parse_descriptor_key_value_pair of src/oracledb/impl/base/parsers.pyx reads the
-- text of a tree as its dictionary.
use python_oracledb.Prelude.{
  ℕ, zero, suc, ◌≤◌, ◌<◌, ◌≡◌, refl, ap, ◌∙◌, arith, Bool, true, false, List, [], ◌∷◌, ◌++◌, length,
  length-append, Option, none, some,
}
use mathlib.Core.List.{append_assoc}
use python_oracledb.Errors.{Result, ok}
use python_oracledb.Statement.Binds.{is_one_of}
use python_oracledb.StatementParser.Tokens.{all_chars}
use python_oracledb.StatementParser.Scans.{and_true}
use python_oracledb.ConnectString.{
  Value, text, dict, Args, no_args, Scan, PairParser, drop_spaces, step, value_loop, parse_pair,
  parse_descriptor, store_arg, scanned, dict_of, set_descriptor_arg, container_param_names,
}
use python_oracledb.ConnectString.Descriptor.{
  Node, leaf, branch, Nodes, no_nodes, node, inner, closing, is_plain, key, name_of_node,
  value_of_node, fill, IsNode, AreNodes,
}
use python_oracledb.ConnectString.RoundTrip.{
  Lawful, plain_char, no_spaces, text_loop, headed, ended,
}

module _ (is_space is_alpha : ℕ → Bool) (lower : List ℕ → List ℕ)
    (lawful : Lawful is_space is_alpha) where
  abbrev Pair : ℕ → PairParser
  Pair = parse_pair is_space is_alpha lower

  abbrev Good : Node → Type 0
  Good = IsNode is_space is_alpha lower

  abbrev loop : PairParser → ℕ → List ℕ → Scan → List ℕ → Result (Scan × List ℕ)
  loop = value_loop is_space is_alpha lower

  -- The dictionary with the pair of a tree added.
  abbrev with_node : Node → Args → Args
  with_node n args =
      set_descriptor_arg (name_of_node is_space is_alpha lower n)
        (value_of_node is_space is_alpha lower n) args

  -- A parser that reads the trees with texts of at most `size` characters.
  abbrev Parses : ℕ → PairParser → Type 0
  Parses size pair =
      (n : Node) (args : Args) (rest : List ℕ)
      → Good n
      → length (inner n) ≤ size
      → pair args (inner n ++ rest) ≡ ok (with_node n args, drop_spaces is_space rest)

  closing_spaces :
      (ns : Nodes) (rest : List ℕ) → drop_spaces is_space (closing ns ++ rest) ≡ closing ns ++ rest
  unfolding closing inner
  closing_spaces no_nodes rest =
      no_spaces is_space is_alpha lower lawful b')' rest lawful.close_space
  closing_spaces (node n ns) rest =
      no_spaces is_space is_alpha lower lawful b'(' ((inner n ++ closing ns) ++ rest)
        lawful.open_space

  -- A round of the loop on a pair in parentheses.
  node_round :
      (size fuel : ℕ) (pair : PairParser) (name : List ℕ) (found : Option Value) (n : Node)
      (ns : Nodes) (rest : List ℕ)
      → Parses size pair
      → Good n
      → length (inner n) ≤ size
      → loop pair
          (suc fuel)
          name
          (record { found = found; simple = none })
          (b'(' ∷ ((inner n ++ closing ns) ++ rest))
        ≡ loop pair fuel name
            (record { found = some (dict (with_node n (dict_of found))); simple = none })
            (closing ns ++ rest)
  unfolding value_loop step
  node_round size fuel pair name found n ns rest parses good h =
      let read : pair (dict_of found) ((inner n ++ closing ns) ++ rest)
          ≡ ok (with_node n (dict_of found), closing ns ++ rest) =
        ap (pair (dict_of found)) (append_assoc (inner n) (closing ns) rest)
        ∙ parses n (dict_of found) (closing ns ++ rest) good h
        ∙ ap (λ xs. ok (with_node n (dict_of found), xs)) (closing_spaces ns rest) in
      rw read refl

  nodes_loop :
      (size fuel : ℕ) (pair : PairParser) (name : List ℕ) (args : Args) (ns : Nodes) (rest : List ℕ)
      → Parses size pair
      → AreNodes is_space is_alpha lower ns
      → length (closing ns) ≤ size
      → length (closing ns) ≤ fuel
      → loop pair fuel name
          (record { found = some (dict args); simple = none })
          (closing ns ++ rest)
        ≡ ok (
          record { found = some (dict (fill is_space is_alpha lower args ns)); simple = none },
          b')' ∷ rest,
        )
  unfolding value_loop step closing fill AreNodes
  nodes_loop size zero pair name args no_nodes rest parses good h k = absurd (omega (arith, k))
  nodes_loop size zero pair name args (node n ns) rest parses good h k = absurd (omega (arith, k))
  nodes_loop size (suc fuel) pair name args no_nodes rest parses good h k = refl
  nodes_loop size (suc fuel) pair name args (node n ns) rest parses (first, later) h k =
      let sizes = length-append (inner n) (closing ns) in
      node_round size fuel pair name (some (dict args)) n ns rest parses first
        (omega (arith, h, sizes))
      ∙ nodes_loop size fuel pair name (with_node n args) ns rest parses later
          (omega (arith, h, sizes)) (omega (arith, k, sizes))

  leaf_loop :
      (pair : PairParser) (fuel : ℕ) (name : List ℕ) (ch : ℕ) (body rest : List ℕ)
      → is_space ch ≡ false
      → all_chars is_plain (ch ∷ body) ≡ true
      → is_one_of name container_param_names ≡ false
      → length body < fuel
      → loop pair
          (suc fuel)
          name
          (record { found = none; simple = none })
          (ch ∷ (body ++ (b')' ∷ rest)))
        ≡ ok (record { found = none; simple = some (ch ∷ body) }, b')' ∷ rest)
  unfolding value_loop step
  leaf_loop pair fuel name ch body rest s p c h =
      let (here, later) = and_true (is_plain ch) _ p in
      let (quote, open_, close_) = plain_char ch here in
      rw (quote, open_, close_, s, c)
        (text_loop is_space is_alpha lower lawful pair fuel name (ch ∷ []) body rest later h)

  inner-nonempty : (n : Node) → 0 < length (inner n)
  unfolding inner
  inner-nonempty (leaf name ch body) =
      omega (arith, length-append name (b'=' ∷ ch ∷ body ++ (b')' ∷ [])))
  inner-nonempty (branch name n ns) =
      omega (arith, length-append name (b'=' ∷ b'(' ∷ inner n ++ closing ns))

  pair-Parses : (size : ℕ) → Parses size (Pair size)
  unfolding inner value_of_node IsNode scanned
  pair-Parses zero n args rest good h = absurd (omega (arith, h, inner-nonempty n))
  pair-Parses (suc size) (leaf name ch body) args rest (word, s, p, stripped, c) h =
      let k = key is_space is_alpha lower name in
      let cs = ch ∷ ((body ++ (b')' ∷ [])) ++ rest) in
      let shape : cs ≡ ch ∷ (body ++ (b')' ∷ rest)) =
        ap (λ xs. ch ∷ xs) (append_assoc body (b')' ∷ []) rest) in
      let read : loop (Pair size) (suc (length cs)) k (record { found = none; simple = none }) cs
          ≡ ok (record { found = none; simple = some (ch ∷ body) }, b')' ∷ rest) =
        ap (loop (Pair size) (suc (length cs)) k (record { found = none; simple = none })) shape
        ∙ leaf_loop (Pair size) (length cs) k ch body rest s p c (
            omega
              (arith, length-append (body ++ (b')' ∷ [])) rest, length-append body (b')' ∷ []))) in
      headed is_space is_alpha lower lawful size ch name (body ++ (b')' ∷ [])) rest args word s
      ∙ ended is_space is_alpha lower lawful (Pair size) k cs rest args
          (record { found = none; simple = some (ch ∷ body) }) read
      ∙ ap (λ v. ok (store_arg k (some (text v)) args, drop_spaces is_space rest)) stripped
  pair-Parses (suc size) (branch name n ns) args rest (word, first, later) h =
      let k = key is_space is_alpha lower name in
      let cs = b'(' ∷ ((inner n ++ closing ns) ++ rest) in
      let sizes = length-append (inner n) (closing ns) in
      let total = length-append name (b'=' ∷ b'(' ∷ inner n ++ closing ns) in
      let all = length-append (inner n ++ closing ns) rest in
      let filled = fill is_space is_alpha lower (with_node n no_args) ns in
      let read : loop (Pair size) (suc (length cs)) k (record { found = none; simple = none }) cs
          ≡ ok (record { found = some (dict filled); simple = none }, b')' ∷ rest) =
        node_round size (length cs) (Pair size) k none n ns rest (pair-Parses size) first
          (omega (arith, h, sizes, total))
        ∙ nodes_loop size (length cs) (Pair size) k (with_node n no_args) ns rest (pair-Parses size)
            later (omega (arith, h, sizes, total)) (omega (arith, sizes, all)) in
      headed is_space is_alpha lower lawful size b'(' name (inner n ++ closing ns) rest args word
        lawful.open_space
      ∙ ended is_space is_alpha lower lawful (Pair size) k cs rest args
          (record { found = some (dict filled); simple = none }) read

-- On the text of a tree of pairs, whose names are words, and whose texts have no quotes or parentheses and
-- no spaces at their ends, with any text behind it: the parser of connect descriptors returns the
-- dictionary with the tree's pair, each name in lower case and spelled as the driver's parameter, and
-- the values of the trees below it added one by one; and it stops behind the closing parenthesis and the spaces there.
pub parse_descriptor-inner :
    (is_space is_alpha : ℕ → Bool) (lower : List ℕ → List ℕ)
    → Lawful is_space is_alpha
    → (n : Node) (rest : List ℕ) → IsNode is_space is_alpha lower n
    → parse_descriptor is_space is_alpha lower (inner n ++ rest)
      ≡ ok (
        set_descriptor_arg
            (name_of_node is_space is_alpha lower n)
            (value_of_node is_space is_alpha lower n)
            no_args,
        drop_spaces is_space rest,
      )
unfolding parse_descriptor
parse_descriptor-inner is_space is_alpha lower lawful n rest good =
    pair-Parses is_space is_alpha lower lawful (suc (length (inner n ++ rest))) n no_args rest good
      (omega (arith, length-append (inner n) rest))
