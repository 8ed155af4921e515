-- ===== src/Tests/Descriptors.antt =====
-- Connect descriptors at concrete values.
use python_oracledb.Prelude.{
  codes, ℕ, ◌+◌, ◌≡◌, ◌≢◌, refl, arith, Bool, ◌&&◌, ◌||◌, List, [], ◌∷◌, ◌++◌, map, ◌==◌, leb,
  if◌then◌else◌,
}
use python_oracledb.Errors.{ok, stuck}
use python_oracledb.ConnectString.{
  text, dict, arg, no_args, set_descriptor_arg, drop_spaces, strip_end, param_name,
  parse_descriptor,
}
use python_oracledb.Statement.Binds.{is_one_of}
use python_oracledb.ConnectString.Ends.{parse_descriptor_ends}
use python_oracledb.ConnectString.Descriptor.{
  Node, leaf, branch, no_nodes, node, inner, name_of_node, value_of_node, IsNode,
}
use python_oracledb.ConnectString.RoundTrip.{Lawful}
use python_oracledb.ConnectString.Trees.{parse_descriptor-inner}

abbrev space : ℕ → Bool
space ch = ch == 32 || leb 9 ch && leb ch 13

abbrev alpha : ℕ → Bool
alpha ch = leb 65 ch && leb ch 90 || leb 97 ch && leb ch 122

abbrev lower : List ℕ → List ℕ
lower = map (λ ch. if leb 65 ch && leb ch 90 then ch + 32 else ch)

ascii-Lawful : Lawful space alpha
ascii-Lawful = record {
  open_space = refl;
  close_space = refl;
  equals_space = refl;
  underscore_space = refl;
  equals_alpha = refl;
  alpha_space = λ ch a. ground arith;
}

-- address=(HOST=h 1)(server=d)), behind its opening parenthesis
abbrev one_address : Node
one_address =
    branch (codes "address") (leaf (codes "HOST") b'h' (b' ' ∷ b'1' ∷ []))
      (node (leaf (codes "server") b'd' []) no_nodes)

one_address-IsNode : IsNode space alpha lower one_address
unfolding IsNode param_name drop_spaces strip_end is_one_of
one_address-IsNode = (refl, (refl, refl, refl, refl, refl), ((refl, refl, refl, refl, refl), tt))

parse_descriptor-inner_example :
    parse_descriptor space alpha lower (inner one_address ++ (b' ' ∷ []))
    ≡ ok (
      set_descriptor_arg
          (name_of_node space alpha lower one_address)
          (value_of_node space alpha lower one_address)
          no_args,
      drop_spaces space (b' ' ∷ []),
    )
parse_descriptor-inner_example =
    parse_descriptor-inner space alpha lower ascii-Lawful one_address (b' ' ∷ []) one_address-IsNode

-- The host and the type of server, under the driver's name.
one_address_value :
    value_of_node space alpha lower one_address
    ≡ dict (
        arg
          (codes "host")
          (text (b'h' ∷ b' ' ∷ b'1' ∷ []))
          (arg (codes "server_type") (text (b'd' ∷ [])) no_args))
unfolding value_of_node set_descriptor_arg param_name
one_address_value = refl

-- a=(b=c)"x"): the pair in parentheses is lost.
lost_pair :
    parse_descriptor space alpha lower
      (b'a' ∷ b'=' ∷ b'(' ∷ b'b' ∷ b'=' ∷ b'c' ∷ b')' ∷ b'"' ∷ b'x' ∷ b'"' ∷ b')' ∷ [])
    ≡ ok (arg (b'a' ∷ []) (text (b'x' ∷ [])) no_args, [])
unfolding parse_descriptor set_descriptor_arg
lost_pair = refl

parse_descriptor_ends_example : parse_descriptor space alpha lower (b'a' ∷ b'=' ∷ b'(' ∷ []) ≢ stuck
parse_descriptor_ends_example = parse_descriptor_ends space alpha lower (b'a' ∷ b'=' ∷ b'(' ∷ [])
