-- ===== src/ConnectString/Descriptor.antt =====
-- Connect descriptors as trees, their text, and the dictionary that src/oracledb/impl/base/parsers.pyx
-- is to make of them.
use python_oracledb.Prelude.{ℕ, ◌≡◌, Bool, true, false, not, ◌&&◌, List, [], ◌∷◌, ◌++◌, ◌==◌}
use python_oracledb.Statement.Binds.{is_one_of}
use python_oracledb.StatementParser.Tokens.{all_chars}
use python_oracledb.ConnectString.{
  Value, text, dict, Args, no_args, alternative_param_names, container_param_names, param_name,
  set_descriptor_arg, is_keyword_char, strip,
}

-- A name with a text, whose first character stands apart, or with pairs, of which there is one at least.
mutual
  pub data Node : Type 0 where
    leaf : List ℕ → ℕ → List ℕ → Node
    branch : List ℕ → Node → Nodes → Node

  pub data Nodes : Type 0 where
    no_nodes : Nodes
    node : Node → Nodes → Nodes

-- The text behind the opening parenthesis.
unfoldable mutual
  pub inner : Node → List ℕ
  inner (leaf name ch body) = name ++ (b'=' ∷ ch ∷ body ++ (b')' ∷ []))
  inner (branch name n ns) = name ++ (b'=' ∷ b'(' ∷ inner n ++ closing ns)

  pub closing : Nodes → List ℕ
  closing no_nodes = b')' ∷ []
  closing (node n ns) = b'(' ∷ inner n ++ closing ns

abbrev pub is_plain : ℕ → Bool
is_plain ch = not (ch == b'"') && not (ch == b'(') && not (ch == b')')

module _ (is_space is_alpha : ℕ → Bool) (lower : List ℕ → List ℕ) where
  abbrev pub key : List ℕ → List ℕ
  key name = param_name alternative_param_names (lower name)

  abbrev pub name_of_node : Node → List ℕ
  name_of_node (leaf name ch body) = key name
  name_of_node (branch name n ns) = key name

  -- The value of a tree, and a dictionary with the pairs of `ns` added one by one.
  unfoldable mutual
    pub value_of_node : Node → Value
    value_of_node (leaf name ch body) = text (ch ∷ body)
    value_of_node (branch name n ns) =
        dict (fill (set_descriptor_arg (name_of_node n) (value_of_node n) no_args) ns)

    pub fill : Args → Nodes → Args
    fill args no_nodes = args
    fill args (node n ns) = fill (set_descriptor_arg (name_of_node n) (value_of_node n) args) ns

  abbrev pub IsName : List ℕ → Type 0
  IsName [] = ⊥
  IsName (ch ∷ cs) = all_chars (is_keyword_char is_space is_alpha lower) (ch ∷ cs) ≡ true

  -- The names are words; the text of a leaf has no quote or parenthesis, no space at its ends, and no
  -- container's name.
  unfoldable mutual
    pub IsNode : Node → Type 0
    IsNode (leaf name ch body) =
        IsName name
        × (is_space ch ≡ false)
        × (all_chars is_plain (ch ∷ body) ≡ true)
        × (strip is_space (ch ∷ body) ≡ ch ∷ body)
        × (is_one_of (key name) container_param_names ≡ false)
    IsNode (branch name n ns) = IsName name × IsNode n × AreNodes ns

    pub AreNodes : Nodes → Type 0
    AreNodes no_nodes = Unit {0}
    AreNodes (node n ns) = IsNode n × AreNodes ns
