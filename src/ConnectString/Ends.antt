-- ===== src/ConnectString/Ends.antt =====
-- src/oracledb/impl/base/parsers.pyx: the parser of connect descriptors ends on every text.
use python_oracledb.Prelude.{
  ℕ, zero, suc, ◌≤◌, ◌<◌, ◌≢◌, arith, Bool, true, false, ◌||◌, List, [], ◌∷◌, length, none, some,
  ◌==◌, if◌then◌else◌, Bool-cases, inl, inr,
}
use python_oracledb.Errors.{Result, stuck, err, ok}
use python_oracledb.StatementParser.Progress.{Holds, bind-Holds, Holds-returns}
use python_oracledb.ConnectString.{
  param_name, alternative_param_names, Args, no_args, Scan, Move, done, on, PairParser, drop_spaces,
  keyword, quoted, step, value_loop, follow, close_parenthesis, parse_value, after_equals,
  after_name, parse_pair, parse_descriptor, dict_of, unless_empty, dict,
}

module _ (is_space is_alpha : ℕ → Bool) (lower : List ℕ → List ℕ) where
  drop_spaces_bound : (cs : List ℕ) → length (drop_spaces is_space cs) ≤ length cs
  unfolding drop_spaces
  drop_spaces_bound [] = omega arith
  drop_spaces_bound (c ∷ cs) = elim (Bool-cases (is_space c)) [
    | inl e ↦ rw e (omega (arith, drop_spaces_bound cs))
    | inr e ↦ rw e (omega arith)
  ]

  keyword_bound : (cs : List ℕ) → length (keyword is_space is_alpha lower cs).1 ≤ length cs
  unfolding keyword
  keyword_bound [] = omega arith
  keyword_bound (c ∷ cs) = elim (Bool-cases (is_alpha c || c == b'_')) [
    | inl e ↦ rw e (omega (arith, keyword_bound cs))
    | inr e ↦ rw e (omega arith)
  ]

  quoted-Holds :
      (cs : List ℕ) → Holds (λ r. length r.1 ≤ length cs) (quoted is_space is_alpha lower cs)
  unfolding quoted
  quoted-Holds [] = tt
  quoted-Holds (c ∷ cs) = elim (Bool-cases (c == b'"')) [
    | inl e ↦ rw e (omega arith)
    | inr e ↦ rw e (
        bind-Holds (λ r. length r.1 ≤ length cs) (λ r. length r.1 ≤ suc (length cs))
          (quoted is_space is_alpha lower cs) _ (quoted-Holds cs) (λ r h. omega (arith, h)))
  ]

  -- A parser that ends on every text that is shorter than `n`, and leaves no more of it than there was.
  abbrev pub Ends : ℕ → PairParser → Type 0
  Ends n pair =
      (args : Args) (cs : List ℕ)
      → length cs < n
      → Holds (λ r. length r.1 ≤ length cs) (pair args cs)

  abbrev Moves : ℕ → Move → Type 0
  Moves n (done s rest) = length rest ≤ suc n
  Moves n (on s rest) = length rest ≤ n

  if-Moves :
      (n : ℕ) (b : Bool) (x y : Result Move)
      → Holds (Moves n) x
      → Holds (Moves n) y
      → Holds (Moves n) (if b then x else y)
  if-Moves n true x y h k = h
  if-Moves n false x y h k = k

  step-Holds :
      (n : ℕ) (pair : PairParser) (name : List ℕ) (s : Scan) (ch : ℕ) (cs : List ℕ)
      → Ends n pair
      → length cs < n
      → Holds (Moves (length cs)) (step is_space is_alpha lower pair name s ch cs)
  unfolding step
  step-Holds n pair name s ch cs ends h =
      let refused : Unit {0} = tt in
      let here : length cs ≤ length cs = omega arith in
      let closing : suc (length cs) ≤ suc (length cs) = omega arith in
      let text =
        bind-Holds (λ r. length r.1 ≤ length cs) (Moves (length cs))
          (quoted is_space is_alpha lower cs)
          (λ r. ok (done (record s { found = unless_empty r.0 s.found }) r.1)) (quoted-Holds cs)
          (λ r k. omega (arith, k)) in
      let inner =
        bind-Holds (λ r. length r.1 ≤ length cs) (Moves (length cs)) (pair (dict_of s.found) cs)
          (λ r. ok (on (record s { found = some (dict r.0) }) r.1)) (ends (dict_of s.found) cs h)
          (λ r k. k) in
      search (if-Moves) depth 9 fits 4000

  Holds-mono :
      {A : Type 0} (p q : A → Type 0) (r : Result A) → Holds p r → ((a : A) → p a → q a) → Holds q r
  Holds-mono p q stuck h k = h
  Holds-mono p q (err e) h k = tt
  Holds-mono p q (ok a) h k = k a h

  follow-Holds :
      (n : ℕ) (again : Scan → List ℕ → Result (Scan × List ℕ))
      → ((s : Scan) (rest : List ℕ)
          → length rest ≤ n
          → Holds (λ r. length r.1 ≤ length rest) (again s rest))
      → (m : Move) → Moves n m
      → Holds (λ r. length r.1 ≤ suc n) (follow again m)
  follow-Holds n again each (done s rest) j = j
  follow-Holds n again each (on s rest) j =
      Holds-mono (λ r. length r.1 ≤ length rest) (λ r. length r.1 ≤ suc n) (again s rest)
        (each s rest j) (λ r i. omega (arith, i, j))

  value_loop-Holds :
      (n fuel : ℕ) (pair : PairParser) (name : List ℕ) (s : Scan) (cs : List ℕ)
      → Ends n pair
      → length cs < fuel
      → length cs ≤ n
      → Holds (λ r. length r.1 ≤ length cs) (value_loop is_space is_alpha lower pair fuel name s cs)
  unfolding value_loop
  value_loop-Holds n zero pair name s cs ends h k = absurd (omega arith)
  value_loop-Holds n (suc fuel) pair name s [] ends h k = omega arith
  value_loop-Holds n (suc fuel) pair name s (ch ∷ cs) ends h k =
      bind-Holds (Moves (length cs)) (λ r. length r.1 ≤ suc (length cs))
        (step is_space is_alpha lower pair name s ch cs) _
        (step-Holds n pair name s ch cs ends (omega arith))
        (follow-Holds (length cs) (value_loop is_space is_alpha lower pair fuel name) (λ s' rest j.
          value_loop-Holds n fuel pair name s' rest ends (omega (arith, j, h))
            (omega (arith, j, k))))

  close_parenthesis-Holds :
      (cs : List ℕ)
      → Holds (λ rest. length rest ≤ length cs) (close_parenthesis is_space is_alpha lower cs)
  unfolding close_parenthesis
  close_parenthesis-Holds [] = omega arith
  close_parenthesis-Holds (ch ∷ cs) = elim (Bool-cases (ch == b')')) [
    | inl e ↦ rw e (omega (arith, drop_spaces_bound cs))
    | inr e ↦ rw e tt
  ]

  parse_value-Holds :
      (n : ℕ) (pair : PairParser) (name : List ℕ) (args : Args) (cs : List ℕ)
      → Ends n pair
      → length cs ≤ n
      → Holds (λ r. length r.1 ≤ length cs) (parse_value is_space is_alpha lower pair name args cs)
  unfolding parse_value
  parse_value-Holds n pair name args cs ends h =
      bind-Holds (λ r. length r.1 ≤ length cs) (λ r. length r.1 ≤ length cs)
        (value_loop is_space is_alpha lower pair (suc (length cs)) name
          (record { found = none; simple = none }) cs)
        _
        (value_loop-Holds n (suc (length cs)) pair name (record { found = none; simple = none }) cs
          ends (omega arith) h)
        (λ r i.
          bind-Holds (λ rest. length rest ≤ length (drop_spaces is_space r.1))
            (λ r. length r.1 ≤ length cs)
            (close_parenthesis is_space is_alpha lower (drop_spaces is_space r.1)) _
            (close_parenthesis-Holds (drop_spaces is_space r.1))
            (λ rest j. omega (arith, i, j, drop_spaces_bound r.1)))

  after_equals-Holds :
      (n : ℕ) (pair : PairParser) (name : List ℕ) (args : Args) (cs : List ℕ)
      → Ends n pair
      → length cs ≤ n
      → Holds (λ r. length r.1 ≤ length cs) (after_equals is_space is_alpha lower pair name args cs)
  unfolding after_equals
  after_equals-Holds n pair name args [] ends h = tt
  after_equals-Holds n pair name args (ch ∷ cs) ends h = elim (Bool-cases (ch == b'=')) [
    | inl e ↦
        let rest = drop_spaces is_space cs in
        rw e (
          Holds-mono (λ r. length r.1 ≤ length rest) (λ r. length r.1 ≤ suc (length cs))
            (parse_value is_space is_alpha lower pair name args rest)
            (parse_value-Holds n pair name args rest ends (omega (arith, h, drop_spaces_bound cs)))
            (λ r i. omega (arith, i, drop_spaces_bound cs)))
    | inr e ↦ rw e tt
  ]

  after_name-Holds :
      (n : ℕ) (pair : PairParser) (name : List ℕ) (args : Args) (cs : List ℕ)
      → Ends n pair
      → length cs ≤ n
      → Holds (λ r. length r.1 ≤ length cs) (after_name is_space is_alpha lower pair name args cs)
  unfolding after_name
  after_name-Holds n pair [] args cs ends h = tt
  after_name-Holds n pair (ch ∷ name) args cs ends h =
      let rest = drop_spaces is_space cs in
      let key = param_name alternative_param_names (lower (ch ∷ name)) in
      Holds-mono (λ r. length r.1 ≤ length rest) (λ r. length r.1 ≤ length cs)
        (after_equals is_space is_alpha lower pair key args rest)
        (after_equals-Holds n pair key args rest ends (omega (arith, h, drop_spaces_bound cs)))
        (λ r i. omega (arith, i, drop_spaces_bound cs))

  parse_pair-Ends : (depth : ℕ) → Ends depth (parse_pair is_space is_alpha lower depth)
  unfolding parse_pair
  parse_pair-Ends zero args cs h = absurd (omega arith)
  parse_pair-Ends (suc depth) args cs h =
      let start = drop_spaces is_space cs in
      let word = keyword is_space is_alpha lower start in
      Holds-mono (λ r. length r.1 ≤ length word.1) (λ r. length r.1 ≤ length cs)
        (after_name is_space is_alpha lower (parse_pair is_space is_alpha lower depth) word.0 args
          word.1)
        (after_name-Holds depth (parse_pair is_space is_alpha lower depth) word.0 args word.1
          (parse_pair-Ends depth) (omega (arith, h, keyword_bound start, drop_spaces_bound cs)))
        (λ r i. omega (arith, i, keyword_bound start, drop_spaces_bound cs))

-- On every text the parser of a descriptor ends, with a dictionary or an error, and never with too
-- little fuel: the parentheses are never deeper than the number of characters.
pub parse_descriptor_ends :
    (is_space is_alpha : ℕ → Bool) (lower : List ℕ → List ℕ) (cs : List ℕ)
    → parse_descriptor is_space is_alpha lower cs ≢ stuck
unfolding parse_descriptor
parse_descriptor_ends is_space is_alpha lower cs =
    Holds-returns (λ r. length r.1 ≤ length cs)
      (parse_pair-Ends is_space is_alpha lower (suc (length cs)) no_args cs (omega arith))
