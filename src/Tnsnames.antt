-- ===== src/Tnsnames.antt =====
-- src/oracledb/impl/base/parsers.pyx: the class TnsnamesFileParser. The characters from `temp_pos` on
-- stand for the position; the calls of `on_add_entry` are a list.
pub mod Lines
pub mod Aliases
pub mod Entries
pub mod Keys
pub mod Values
use python_oracledb.Prelude.{
  ℕ, zero, suc, ◌+◌, ◌-◌, Bool, true, false, ◌&&◌, ◌||◌, List, [], ◌∷◌, ◌++◌, length, is_nil,
  Option, none, some, ltb, ◌==◌, if◌then◌else◌,
}
use python_oracledb.Errors.{Result, stuck, ok, ◌>>=◌}
use python_oracledb.StatementParser.Bind.{Characters}
use python_oracledb.ConnectString.{drop_spaces, strip, strip_end, is_some}

-- The characters from `start_pos` to `temp_pos`, where `found_key` or `found_part` is set.
abbrev pub Found : Type 0
Found = Option (List ℕ)

abbrev pub with_char : ℕ → Found → Found
with_char ch none = some (ch ∷ [])
with_char ch (some cs) = some (cs ++ (ch ∷ []))

-- The local variables of `_parse_value_part`.
pub record PartScan : Type 0 where
  pub part : Found
  pub stop_at_end_of_line : Bool
  pub num_parens : ℕ

-- The first character of a part.
unfoldable pub first_of_part : ℕ → PartScan → PartScan
first_of_part ch s =
    if ch == b'('
    then record s { part = some (ch ∷ []); num_parens = s.num_parens + 1 }
    else record s { part = some (ch ∷ []); stop_at_end_of_line = true }

unfoldable pub later_in_part : ℕ → PartScan → PartScan
later_in_part ch s =
    let taken = record s { part = with_char ch s.part } in
    if ltb 0 s.num_parens && ch == b'('
    then record taken { num_parens = s.num_parens + 1 }
    else if ltb 0 s.num_parens && ch == b')'
    then record taken {
      num_parens = s.num_parens - 1;
      stop_at_end_of_line = s.stop_at_end_of_line || s.num_parens - 1 == 0;
    }
    else taken

abbrev pub in_part : ℕ → PartScan → PartScan
in_part ch s = if is_some s.part then later_in_part ch s else first_of_part ch s

-- `parts.append(part)` where there is one, and `"\n".join(parts)`.
abbrev pub append_part : List (List ℕ) → Found → List (List ℕ)
append_part parts none = parts
append_part parts (some part) = parts ++ (part ∷ [])

abbrev pub join_parts : List (List ℕ) → List ℕ
join_parts [] = []
join_parts (part ∷ []) = part
join_parts (part ∷ other ∷ parts) = part ++ (b'\n' ∷ join_parts (other ∷ parts))

abbrev pub value_of_parts : List (List ℕ) → Found
value_of_parts [] = none
value_of_parts (part ∷ parts) = some (join_parts (part ∷ parts))

-- A name and its value, as `on_add_entry` is called with them.
abbrev pub Entry : Type 0
Entry = List ℕ × List ℕ

module _ (chars : Characters) where
  unfoldable pub behind_linebreak : List ℕ → List ℕ
  behind_linebreak [] = []
  behind_linebreak (ch ∷ cs) =
      let rest = behind_linebreak cs in if chars.is_linebreak ch then cs else rest

  unfoldable pub skip_to_end_of_line : List ℕ → List ℕ
  unfolding behind_linebreak drop_spaces
  skip_to_end_of_line cs = drop_spaces chars.is_space (behind_linebreak cs)

  -- The loop of `_parse_key`. Every round takes a character.
  unfoldable pub key_loop : ℕ → Found → List ℕ → Result (Found × List ℕ)
  unfolding skip_to_end_of_line
  key_loop zero key cs = stuck
  key_loop (suc fuel) key [] = ok (none, [])
  key_loop (suc fuel) key (ch ∷ cs) =
      let next_line = key_loop fuel none (skip_to_end_of_line (ch ∷ cs)) in
      let more = key_loop fuel (with_char ch key) cs in
      if ch == b'(' || ch == b')' || ch == b'#'
      then next_line
      else if ch == b'='
      then elim key [ none ↦ next_line | some name ↦ ok (some (strip chars.is_space name), cs) ]
      else more

  unfoldable pub parse_key : List ℕ → Result (Found × List ℕ)
  unfolding key_loop
  parse_key cs =
      let start = drop_spaces chars.is_space cs in key_loop (suc (length start)) none start

  -- The loop of `_parse_value_part`. Every round but the last takes a character.
  unfoldable pub part_loop : ℕ → PartScan → List ℕ → Result (PartScan × List ℕ)
  unfolding skip_to_end_of_line first_of_part later_in_part
  part_loop zero s cs = stuck
  part_loop (suc fuel) s [] = ok (s, [])
  part_loop (suc fuel) s (ch ∷ cs) =
      let behind = skip_to_end_of_line (ch ∷ cs) in
      let again = part_loop fuel s behind in
      let more = part_loop fuel (in_part ch s) cs in
      if ch == b'#'
      then (if is_some s.part then ok (s, behind) else again)
      else if is_some s.part && s.stop_at_end_of_line && chars.is_linebreak ch
      then ok (s, ch ∷ cs)
      else more

  unfoldable pub stripped : Found → Found
  unfolding drop_spaces strip_end
  stripped none = none
  stripped (some part) = some (strip chars.is_space part)

  -- The part, the number of open parentheses, and the characters behind the part.
  unfoldable pub parse_value_part : ℕ → List ℕ → Result (Found × ℕ × List ℕ)
  unfolding part_loop stripped
  parse_value_part num_parens cs =
      let start = drop_spaces chars.is_space cs in
      part_loop (suc (length start))
        (record { part = none; stop_at_end_of_line = false; num_parens = num_parens }) start
      >>= (λ r. ok (stripped r.0.part, r.0.num_parens, r.1))

  -- The loop of `_parse_value`, for a number of rounds.
  unfoldable pub value_rounds : ℕ → List (List ℕ) → ℕ → List ℕ → Result (Found × List ℕ)
  unfolding parse_value_part
  value_rounds zero parts num_parens cs = stuck
  value_rounds (suc rounds) parts num_parens cs = parse_value_part num_parens cs >>= (λ r.
      let more = value_rounds rounds (append_part parts r.0) r.1 r.2 in
      if r.1 == 0 then ok (value_of_parts (append_part parts r.0), r.2) else more)

  unfoldable pub parse_entry_value : ℕ → List ℕ → Result (Found × List ℕ)
  unfolding value_rounds
  parse_entry_value rounds cs = value_rounds rounds [] 0 cs

  -- `if key and value`.
  unfoldable pub add_entry : Found → Found → List Entry → List Entry
  unfolding drop_spaces strip_end
  add_entry (some key) (some value) entries =
      if is_nil key || is_nil value
      then entries
      else (chars.upper key, strip chars.is_space value) ∷ entries
  add_entry _ _ entries = entries

  -- The rounds are those of this loop and of the loop in each value.
  unfoldable pub parse_rounds : ℕ → ℕ → List ℕ → Result (List Entry)
  unfolding parse_key parse_entry_value add_entry
  parse_rounds zero rounds cs = stuck
  parse_rounds (suc fuel) rounds [] = ok []
  parse_rounds (suc fuel) rounds (ch ∷ cs) = parse_key (ch ∷ cs) >>= (λ k.
      parse_entry_value rounds k.1
      >>= (λ v. parse_rounds fuel rounds v.1 >>= (λ entries. ok (add_entry k.0 v.0 entries))))

  unfoldable pub parse_tnsnames : ℕ → List ℕ → Result (List Entry)
  unfolding parse_rounds
  parse_tnsnames rounds cs = parse_rounds rounds rounds cs
