-- ===== src/StatementCache/Close.antt =====
-- src/oracledb/impl/thin/statement_cache.pyx: StatementCache.write_cursors_to_close.
use python_oracledb.Prelude.{ℕ, List, [], ◌∷◌, length}
use python_oracledb.Buffer.{M, ◌>>◌, pure}
use python_oracledb.Buffer.Integer.{write_ub4}
use python_oracledb.StatementCache.{StatementCache}

write_each : List ℕ → M (Unit {0})
write_each [] = pure tt
write_each (cursor_id ∷ ids) = do write_ub4 cursor_id; write_each ids

-- The cursors are written behind their number, and forgotten.
unfoldable pub write_cursors_to_close : StatementCache → M StatementCache
unfolding write_each
write_cursors_to_close c = do
  write_ub4 (length c.cursors_to_close)
  write_each c.cursors_to_close
  pure (record c { cursors_to_close = [] })
