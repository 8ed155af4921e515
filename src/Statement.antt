-- ===== src/Statement.antt =====
-- src/oracledb/impl/thin/statement.pyx: class Statement, without its variables, and class BindInfo.
pub mod Binds
use python_oracledb.Prelude.{
  ℕ, Bool, false, ◌&&◌, ◌||◌, List, [], ◌∷◌, ◌++◌, map, Option, none, some, ◌==◌, if◌then◌else◌,
}
use python_oracledb.StatementCache.Dict.{same_text}

-- The metadata of the variable that is bound, and no variable.
pub record BindInfo : Type 0 where
  pub bind_name : List ℕ
  pub is_return_bind : Bool
  pub num_elements : ℕ
  pub ora_type_num : ℕ
  pub buffer_size : ℕ
  pub precision : ℕ
  pub size : ℕ
  pub is_array : Bool
  pub scale : ℕ
  pub csfrm : ℕ

abbrev pub new_bind_info : List ℕ → Bool → BindInfo
new_bind_info name is_return_bind = record {
  bind_name = name;
  is_return_bind = is_return_bind;
  num_elements = 0;
  ora_type_num = 0;
  buffer_size = 0;
  precision = 0;
  size = 0;
  is_array = false;
  scale = 0;
  csfrm = 0;
}

abbrev pub copy_bind_info : BindInfo → BindInfo
copy_bind_info info = new_bind_info info.bind_name info.is_return_bind

-- The ordered dictionary from names to the binds of that name.
abbrev pub BindDict : Type 0
BindDict = List (List ℕ × List BindInfo)

unfoldable pub lookup_binds : List ℕ → BindDict → Option (List BindInfo)
unfolding same_text
lookup_binds name [] = none
lookup_binds name ((n, infos) ∷ dict) =
    let rest = lookup_binds name dict in if same_text n name then some infos else rest

-- `dict[name].append(info)` where the name has an entry, `dict[name] = [info]` where it has none.
unfoldable pub append_bind : BindInfo → BindDict → BindDict
unfolding same_text
append_bind info [] = (info.bind_name, info ∷ []) ∷ []
append_bind info ((n, infos) ∷ dict) =
    let rest = append_bind info dict in
    if same_text n info.bind_name then (n, infos ++ (info ∷ [])) ∷ dict else (n, infos) ∷ rest

unfoldable pub index_binds : BindDict → List BindInfo → BindDict
unfolding append_bind
index_binds dict [] = dict
index_binds dict (info ∷ infos) = index_binds (append_bind info dict) infos

-- The fields of a statement that do not depend on variables.
pub record Statement : Type 0 where
  pub sql : Option (List ℕ)
  pub is_query : Bool
  pub is_plsql : Bool
  pub is_dml : Bool
  pub is_ddl : Bool
  pub is_returning : Bool
  pub bind_info_list : List BindInfo
  pub bind_info_dict : BindDict
  pub cursor_id : ℕ
  pub executed : Bool
  pub binds_changed : Bool
  pub no_prefetch : Bool
  pub requires_define : Bool
  pub return_to_cache : Bool
  pub in_use : Bool

-- `Statement.__new__(Statement)`.
abbrev pub new_statement : Statement
new_statement = record {
  sql = none;
  is_query = false;
  is_plsql = false;
  is_dml = false;
  is_ddl = false;
  is_returning = false;
  bind_info_list = [];
  bind_info_dict = [];
  cursor_id = 0;
  executed = false;
  binds_changed = false;
  no_prefetch = false;
  requires_define = false;
  return_to_cache = false;
  in_use = false;
}

unfoldable pub copy : Statement → Statement
unfolding index_binds
copy s = record new_statement {
  sql = s.sql;
  is_query = s.is_query;
  is_plsql = s.is_plsql;
  is_dml = s.is_dml;
  is_ddl = s.is_ddl;
  is_returning = s.is_returning;
  bind_info_list = map copy_bind_info s.bind_info_list;
  bind_info_dict = index_binds [] (map copy_bind_info s.bind_info_list);
}

unfoldable pub clear_all_state : Statement → Statement
clear_all_state s = record s {
  executed = false;
  binds_changed = false;
  requires_define = false;
  no_prefetch = false;
  cursor_id = 0;
}

unfoldable pub requires_single_execute : Statement → Bool
requires_single_execute s = s.is_plsql && (s.cursor_id == 0 || s.binds_changed)
