-- ===== src/ConnectString.antt =====
-- src/oracledb/impl/base/parsers.pyx: connect descriptors, ConnectStringParser._parse_descriptor_key_value_pair
-- and _set_descriptor_arg. The characters from `temp_pos` on stand for the position.
pub mod Ends
pub mod Descriptor
pub mod RoundTrip
pub mod Trees
use python_oracledb.Prelude.{
  codes, ℕ, zero, suc, Bool, true, false, not, ◌&&◌, ◌||◌, List, [], ◌∷◌, ◌++◌, length, Option,
  none, some, ◌==◌, if◌then◌else◌,
}
use python_oracledb.Errors.{
  Result, stuck, err, ok, ◌>>=◌, invalid_connect_descriptor, missing_ending_double_quote,
}
use python_oracledb.StatementCache.Dict.{same_text}
use python_oracledb.Statement.Binds.{is_one_of}

-- The values that the parser stores: a text, a dictionary, or the list of the values of one name.
mutual
  pub data Value : Type 0 where
    text : List ℕ → Value
    dict : Args → Value
    values : Values → Value

  pub data Args : Type 0 where
    no_args : Args
    arg : List ℕ → Value → Args → Args

  pub data Values : Type 0 where
    no_values : Values
    value : Value → Values → Values

abbrev pub alternative_param_names : List (List ℕ × List ℕ)
alternative_param_names =
    (codes "pool_connection_class", codes "cclass")
    ∷ (codes "pool_purity", codes "purity")
    ∷ (codes "server", codes "server_type")
    ∷ (codes "transport_connect_timeout", codes "tcp_connect_timeout")
    ∷ (codes "my_wallet_directory", codes "wallet_location")
    ∷ []

abbrev pub container_param_names : List (List ℕ)
container_param_names =
    (codes "address")
    ∷ (codes "address_list")
    ∷ (codes "connect_data")
    ∷ (codes "description")
    ∷ (codes "description_list")
    ∷ (codes "security")
    ∷ []

abbrev pub address_name : List ℕ
address_name = codes "address"

abbrev pub address_list_name : List ℕ
address_list_name = codes "address_list"

unfoldable pub param_name : List (List ℕ × List ℕ) → List ℕ → List ℕ
unfolding same_text
param_name [] name = name
param_name ((key, other) ∷ names) name =
    let rest = param_name names name in if same_text key name then other else rest

-- `args.get(name)`, `args[name] = value` for a new name, the same for a name that is there, and `del args[name]`.
unfoldable pub get : List ℕ → Args → Option Value
unfolding same_text
get name no_args = none
get name (arg key v args) = let rest = get name args in if same_text key name then some v else rest

abbrev pub append_arg : List ℕ → Value → Args → Args
append_arg name v no_args = arg name v no_args
append_arg name v (arg key w args) = arg key w (append_arg name v args)

unfoldable pub replace_arg : List ℕ → Value → Args → Args
unfolding same_text
replace_arg name v no_args = no_args
replace_arg name v (arg key w args) =
    let rest = replace_arg name v args in
    if same_text key name then arg key v args else arg key w rest

unfoldable pub remove_arg : List ℕ → Args → Args
unfolding same_text
remove_arg name no_args = no_args
remove_arg name (arg key w args) =
    let rest = remove_arg name args in if same_text key name then args else arg key w rest

abbrev pub append_value : Value → Values → Values
append_value v no_values = value v no_values
append_value v (value w ws) = value w (append_value v ws)

-- `dict(address=a)`.
abbrev pub address_dict : Value → Value
address_dict a = dict (arg address_name a no_args)

abbrev pub address_dicts : Values → Values
address_dicts no_values = no_values
address_dicts (value a as_) = value (address_dict a) (address_dicts as_)

-- The addresses that are there already, in a list of their own, in front of the new address list.
abbrev pub with_addresses : Value → Value → Value
with_addresses (values addresses) v = values (append_value v (address_dicts addresses))
with_addresses address v = values (value (address_dict address) (value v no_values))

-- The name has a value already.
abbrev pub add_value : List ℕ → Value → Value → Args → Args
add_value name (values vs) v args = replace_arg name (values (append_value v vs)) args
add_value name orig v args = replace_arg name (values (value orig (value v no_values))) args

-- The value of a name that may have one.
unfoldable pub set_arg : List ℕ → Value → Args → Args
unfolding get replace_arg
set_arg name v args = elim (get name args) [
  | none ↦ append_arg name v args
  | some orig ↦ add_value name orig v args
]

unfoldable pub has : List ℕ → Args → Bool
unfolding get
has name args = elim (get name args) [ none ↦ false | some _ ↦ true ]

unfoldable pub move_addresses : Value → Args → Args
unfolding get remove_arg
move_addresses v args = elim (get address_name args) [
  | none ↦ append_arg address_list_name v args
  | some addresses ↦
      append_arg address_list_name (with_addresses addresses v) (remove_arg address_name args)
]

-- In the first branch the recursive call finds the address list.
unfoldable pub set_descriptor_arg : List ℕ → Value → Args → Args
unfolding set_arg has move_addresses same_text
set_descriptor_arg name v args =
    if has name args
    then set_arg name v args
    else if same_text name address_name && has address_list_name args
    then set_arg address_list_name (address_dict v) args
    else if same_text name address_list_name
    then move_addresses v args
    else append_arg name v args

-- The local variables of the loop: the value, and the characters of a simple value.
pub record Scan : Type 0 where
  pub found : Option Value
  pub simple : Option (List ℕ)

-- The loop breaks, or goes on.
pub data Move : Type 0 where
  done on : Scan → List ℕ → Move

abbrev pub follow : (Scan → List ℕ → Result (Scan × List ℕ)) → Move → Result (Scan × List ℕ)
follow again (done s rest) = ok (s, rest)
follow again (on s rest) = again s rest

abbrev pub is_some {ℓ} : {A : Type ℓ} → Option A → Bool
is_some none = false
is_some (some _) = true

abbrev pub unless_empty : List ℕ → Option Value → Option Value
unless_empty [] old = old
unless_empty (ch ∷ cs) old = some (text (ch ∷ cs))

-- The dictionary of a container, which is new where there is no value.
abbrev pub dict_of : Option Value → Args
dict_of (some (dict args)) = args
dict_of _ = no_args

abbrev pub extend : ℕ → Option (List ℕ) → Option (List ℕ)
extend ch none = none
extend ch (some cs) = some (cs ++ (ch ∷ []))

abbrev pub store_arg : List ℕ → Option Value → Args → Args
store_arg name none args = args
store_arg name (some v) args = set_descriptor_arg name v args

-- A parser of the pair behind a parenthesis.
abbrev pub PairParser : Type 0
PairParser = Args → List ℕ → Result (Args × List ℕ)

module _ (is_space : ℕ → Bool) where
  unfoldable pub drop_spaces : List ℕ → List ℕ
  drop_spaces [] = []
  drop_spaces (ch ∷ cs) = let rest = drop_spaces cs in if is_space ch then rest else ch ∷ cs

  unfoldable pub strip_end : List ℕ → List ℕ
  strip_end [] = []
  strip_end (ch ∷ cs) =
      let rest = strip_end cs in
      elim rest [ [] ↦ if is_space ch then [] else ch ∷ [] | x ∷ xs ↦ ch ∷ x ∷ xs ]

  abbrev pub strip : List ℕ → List ℕ
  strip cs = drop_spaces (strip_end cs)

module _ (is_space is_alpha : ℕ → Bool) (lower : List ℕ → List ℕ) where
  abbrev pub is_keyword_char : ℕ → Bool
  is_keyword_char ch = is_alpha ch || ch == b'_'

  -- A keyword, and the characters behind it.
  unfoldable pub keyword : List ℕ → List ℕ × List ℕ
  keyword [] = ([], [])
  keyword (ch ∷ cs) =
      let rest = keyword cs in if is_keyword_char ch then (ch ∷ rest.0, rest.1) else ([], ch ∷ cs)

  -- The characters in front of a double quote, and those behind it.
  unfoldable pub quoted : List ℕ → Result (List ℕ × List ℕ)
  quoted [] = err missing_ending_double_quote
  quoted (ch ∷ cs) =
      let rest = quoted cs >>= (λ r. ok (ch ∷ r.0, r.1)) in if ch == b'"' then ok ([], cs) else rest

  unfoldable pub step : PairParser → List ℕ → Scan → ℕ → List ℕ → Result Move
  unfolding quoted is_one_of
  step pair name s ch cs =
      if ch == b'"'
      then (if is_some s.simple
          then err invalid_connect_descriptor
          else quoted cs >>= (λ r. ok (done (record s { found = unless_empty r.0 s.found }) r.1)))
      else if ch == b'('
      then (if is_some s.simple
          then err invalid_connect_descriptor
          else pair (dict_of s.found) cs
            >>= (λ r. ok (on (record s { found = some (dict r.0) }) r.1)))
      else if ch == b')'
      then ok (done s (ch ∷ cs))
      else if not (is_some s.simple) && not (is_space ch)
      then (if is_some s.found || is_one_of name container_param_names
          then err invalid_connect_descriptor
          else ok (on (record s { simple = some (ch ∷ []) }) cs))
      else ok (on (record s { simple = extend ch s.simple }) cs)

  unfoldable pub value_loop : PairParser → ℕ → List ℕ → Scan → List ℕ → Result (Scan × List ℕ)
  unfolding step
  value_loop pair zero name s cs = stuck
  value_loop pair (suc fuel) name s [] = ok (s, [])
  value_loop pair (suc fuel) name s (ch ∷ cs) =
      step pair name s ch cs >>= follow (value_loop pair fuel name)

  unfoldable pub scanned : Scan → Option Value
  unfolding drop_spaces strip_end
  scanned s = elim s.simple [ none ↦ s.found | some cs ↦ some (text (strip is_space cs)) ]

  unfoldable pub close_parenthesis : List ℕ → Result (List ℕ)
  unfolding drop_spaces
  close_parenthesis [] = ok []
  close_parenthesis (ch ∷ cs) =
      if ch == b')' then ok (drop_spaces is_space cs) else err invalid_connect_descriptor

  -- Every round of the loop takes a character at least, and so does every pair.
  unfoldable pub parse_value : PairParser → List ℕ → Args → List ℕ → Result (Args × List ℕ)
  unfolding value_loop scanned close_parenthesis
  parse_value pair name args cs =
      value_loop pair (suc (length cs)) name (record { found = none; simple = none }) cs >>= (λ r.
        close_parenthesis (drop_spaces is_space r.1)
        >>= (λ rest. ok (store_arg name (scanned r.0) args, rest)))

  unfoldable pub after_equals : PairParser → List ℕ → Args → List ℕ → Result (Args × List ℕ)
  unfolding parse_value
  after_equals pair name args [] = err invalid_connect_descriptor
  after_equals pair name args (ch ∷ cs) =
      if ch == b'='
      then parse_value pair name args (drop_spaces is_space cs)
      else err invalid_connect_descriptor

  unfoldable pub after_name : PairParser → List ℕ → Args → List ℕ → Result (Args × List ℕ)
  unfolding param_name after_equals
  after_name pair [] args cs = err invalid_connect_descriptor
  after_name pair (ch ∷ name) args cs =
      after_equals pair (param_name alternative_param_names (lower (ch ∷ name))) args
        (drop_spaces is_space cs)

  -- `_parse_descriptor_key_value_pair`, with fuel for the depth of the parentheses.
  unfoldable pub parse_pair : ℕ → PairParser
  unfolding keyword after_name
  parse_pair zero args cs = stuck
  parse_pair (suc depth) args cs =
      let (name, rest) = keyword (drop_spaces is_space cs) in
      after_name (parse_pair depth) name args rest

  unfoldable pub parse_descriptor : List ℕ → Result (Args × List ℕ)
  unfolding parse_pair
  parse_descriptor cs = parse_pair (suc (length cs)) no_args cs
