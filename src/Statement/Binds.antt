-- ===== src/Statement/Binds.antt =====
-- src/oracledb/impl/thin/statement.pyx: Statement._add_bind, _determine_statement_type and _set_var.
use python_oracledb.Prelude.{
  codes, ℕ, Bool, true, false, not, ◌||◌, List, [], ◌∷◌, ◌++◌, Option, none, some, if◌then◌else◌,
}
use python_oracledb.Errors.{Result, ok, err, dml_returning_dup_binds, index_error}
use python_oracledb.StatementCache.Dict.{same_text}
use python_oracledb.Statement.{Statement, BindInfo, new_bind_info, lookup_binds, append_bind}

unfoldable pub is_one_of : List ℕ → List (List ℕ) → Bool
unfolding same_text
is_one_of word [] = false
is_one_of word (k ∷ ks) = same_text word k || is_one_of word ks

unfoldable pub last_bind : List BindInfo → Option BindInfo
last_bind [] = none
last_bind (info ∷ []) = some info
last_bind (_ ∷ info ∷ infos) = last_bind (info ∷ infos)

abbrev pub plsql_keywords : List (List ℕ)
plsql_keywords = (codes "DECLARE") ∷ (codes "BEGIN") ∷ (codes "CALL") ∷ []

abbrev pub query_keywords : List (List ℕ)
query_keywords = (codes "SELECT") ∷ (codes "WITH") ∷ []

abbrev pub dml_keywords : List (List ℕ)
dml_keywords = (codes "INSERT") ∷ (codes "UPDATE") ∷ (codes "DELETE") ∷ (codes "MERGE") ∷ []

abbrev pub ddl_keywords : List (List ℕ)
ddl_keywords =
    (codes "CREATE")
    ∷ (codes "ALTER")
    ∷ (codes "DROP")
    ∷ (codes "GRANT")
    ∷ (codes "REVOKE")
    ∷ (codes "ANALYZE")
    ∷ (codes "AUDIT")
    ∷ (codes "COMMENT")
    ∷ (codes "TRUNCATE")
    ∷ []

unfoldable pub determine_statement_type : List ℕ → Statement → Statement
unfolding is_one_of
determine_statement_type sql_keyword s =
    if is_one_of sql_keyword plsql_keywords
    then record s { is_plsql = true }
    else if is_one_of sql_keyword query_keywords
    then record s { is_query = true }
    else if is_one_of sql_keyword dml_keywords
    then record s { is_dml = true }
    else if is_one_of sql_keyword ddl_keywords
    then record s { is_ddl = true }
    else s

unfoldable pub with_bind : BindInfo → Statement → Statement
unfolding append_bind
with_bind info s = record s {
  bind_info_list = s.bind_info_list ++ (info ∷ []);
  bind_info_dict = append_bind info s.bind_info_dict;
}

unfoldable pub add_new_bind : List ℕ → Statement → Statement
unfolding with_bind
add_new_bind name s = with_bind (new_bind_info name s.is_returning) s

-- The name has binds already, `infos`; `[-1]` is the last of them.
unfoldable pub add_after : Option BindInfo → List ℕ → Statement → Result Statement
unfolding add_new_bind
add_after none name s = err index_error
add_after (some orig_info) name s =
    if not orig_info.is_return_bind
    then err (dml_returning_dup_binds name)
    else ok (add_new_bind name s)

unfoldable pub add_again : List BindInfo → List ℕ → Statement → Result Statement
unfolding last_bind add_new_bind add_after
add_again infos name s =
    if s.is_returning then add_after (last_bind infos) name s else ok (add_new_bind name s)

unfoldable pub add_bind : List ℕ → Statement → Result Statement
unfolding lookup_binds add_new_bind add_again
add_bind name s = elim (lookup_binds name s.bind_info_dict) [
  | none ↦ ok (add_new_bind name s)
  | some infos ↦ if s.is_plsql then ok s else add_again infos name s
]
