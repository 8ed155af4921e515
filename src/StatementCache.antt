-- ===== src/StatementCache.antt =====
-- src/oracledb/impl/thin/statement_cache.pyx: class StatementCache, and what it uses of class
-- Statement.
-- Statements are shared and changed: a statement is a number, and the heap has its fields. The
-- ordered dictionary is the list of its items, the oldest first, and a set a list.
-- The variables that return_statement drops are not modelled; the lock is that of one thread.
pub mod Dict
pub mod Close
pub mod Eviction
pub mod Lease
pub mod Reuse
use python_oracledb.Prelude.{
  ℕ, suc, ◌+◌, ◌<◌, Bool, true, false, not, ◌&&◌, ◌||◌, List, [], ◌∷◌, ◌++◌, length, Option, none,
  some, ltb, ◌==◌, if◌then◌else◌,
}
use python_oracledb.Errors.{Result, ok, err, ◌>>=◌, index_error, key_error}
pub use python_oracledb.StatementParser.Bind.{Characters}
use python_oracledb.StatementParser.Main.{prepare}
use python_oracledb.Statement.{Statement, new_statement}
unfoldable pub use python_oracledb.Statement.{copy, clear_all_state, requires_single_execute}
pub use Dict.{Key, Items}
unfoldable pub use Dict.{
  same_text, same_key, lookup, assign, delete, move_to_end, contains, discard, add,
}

-- `next` is the number of the next new object. `cursors_to_close` are the first
-- `_num_cursors_to_close` entries of the array, which has room for `max_cursors`.
pub record StatementCache : Type 0 where
  pub heap : ℕ → Statement
  pub next : ℕ
  pub cached_statements : Items
  pub max_size : ℕ
  pub max_cursors : ℕ
  pub cursors_to_close : List ℕ
  pub open_cursors : List ℕ

abbrev pub put : ℕ → Statement → StatementCache → StatementCache
put i s c = record c { heap = λ j. if j == i then s else c.heap j }

unfoldable pub initialize : ℕ → ℕ → StatementCache
initialize max_size max_cursors = record {
  heap = λ i. new_statement;
  next = 0;
  cached_statements = [];
  max_size = if max_cursors == 0 then 0 else max_size;
  max_cursors = if max_cursors == 0 then 1 else max_cursors;
  cursors_to_close = [];
  open_cursors = [];
}

push_cursor : ℕ → StatementCache → Result StatementCache
push_cursor cursor_id c =
    if ltb (length c.cursors_to_close) c.max_cursors
    then ok (record c { cursors_to_close = c.cursors_to_close ++ (cursor_id ∷ []) })
    else err index_error

remove_open : ℕ → StatementCache → Result StatementCache
unfolding contains discard
remove_open i c =
    if contains i c.open_cursors
    then ok (record c { open_cursors = discard i c.open_cursors })
    else err key_error

unfoldable pub add_cursor_to_close : ℕ → StatementCache → Result StatementCache
unfolding push_cursor remove_open
add_cursor_to_close i c = do
  c' ← if (c.heap i).cursor_id == 0 then ok c else push_cursor ((c.heap i).cursor_id) c
  remove_open i c'

-- What is done with a statement that is taken from the cache.
unfoldable pub evict : ℕ → StatementCache → Result StatementCache
unfolding add_cursor_to_close
evict i c =
    if (c.heap i).in_use
    then ok (put i (record (c.heap i) { return_to_cache = false }) c)
    else add_cursor_to_close i c

-- The loop, on the items that are still cached.
unfoldable pub adjust_items : Items → StatementCache → Result StatementCache
unfolding evict
adjust_items [] c = ok (record c { cached_statements = [] })
adjust_items ((key, i) ∷ items) c =
    if ltb c.max_size (suc (length items))
    then (do c' ← evict i c; adjust_items items c')
    else ok (record c { cached_statements = (key, i) ∷ items })

unfoldable pub adjust_cache : StatementCache → Result StatementCache
unfolding adjust_items
adjust_cache c = adjust_items c.cached_statements c

unfoldable pub resize : ℕ → StatementCache → Result StatementCache
unfolding adjust_cache
resize new_size c = adjust_cache (record c { max_size = new_size })

unfoldable pub clear_cursor : ℕ → StatementCache → Result StatementCache
unfolding push_cursor
clear_cursor i c = do
  c' ← push_cursor ((c.heap i).cursor_id) c
  ok (put i (record (c.heap i) { cursor_id = 0; executed = false }) c')

-- The statements that are cleared and those of them that stay open.
clear_each : List ℕ → StatementCache → List ℕ × StatementCache
unfolding clear_all_state
clear_each [] c = ([], c)
clear_each (i ∷ is) c =
    let s = c.heap i in
    let (kept, c') = clear_each is (put i (clear_all_state s) c) in
    (if s.in_use || s.return_to_cache then i ∷ kept else kept, c')

unfoldable pub clear_open_cursors : StatementCache → StatementCache
unfolding clear_each
clear_open_cursors c =
    let (kept, c') = clear_each c.open_cursors c in
    record c' { open_cursors = kept; cursors_to_close = [] }

unfoldable pub return_statement : ℕ → StatementCache → Result StatementCache
unfolding add_cursor_to_close
return_statement i c =
    if (c.heap i).return_to_cache
    then ok (put i (record (c.heap i) { in_use = false }) c)
    else add_cursor_to_close i c

-- The end of get_statement.
lease : ℕ → StatementCache → ℕ × StatementCache
lease i c = (i, put i (record (c.heap i) { in_use = true }) c)

open_new : Statement → StatementCache → StatementCache
unfolding add
open_new s c = record (put c.next s c) {
  next = suc c.next;
  open_cursors = add c.next c.open_cursors;
}

-- `_cached_statements.get(sql)`, where there is a text.
unfoldable pub found : Key → StatementCache → Option ℕ
unfolding lookup
found none c = none
found (some sql) c = lookup (some sql) c.cached_statements

-- The new object, and its place in the cache where it is kept.
unfoldable pub add_new : Bool → Statement → Key → StatementCache → Result StatementCache
unfolding assign adjust_cache
add_new keep s sql c =
    let c1 = record (put c.next s c) { next = suc c.next } in
    let c2 = record (put c.next (record s { return_to_cache = true }) c1) {
      cached_statements = assign sql c.next c.cached_statements;
    } in
    if keep then adjust_cache c2 else ok c1

unfoldable pub open_leased : ℕ → StatementCache → Result (ℕ × StatementCache)
unfolding add lease
open_leased i c = ok (lease i (record c { open_cursors = add i c.open_cursors }))

unfoldable pub close_uncached : Bool → ℕ → StatementCache → Result StatementCache
unfolding add_cursor_to_close
close_uncached cache_statement i c = if cache_statement then ok c else add_cursor_to_close i c

unfoldable pub copy_leased : Key → ℕ → Bool → StatementCache → Result (ℕ × StatementCache)
unfolding delete copy open_new lease
copy_leased sql i cache_statement c =
    let kept = if cache_statement then c.cached_statements else delete sql c.cached_statements in
    let c' = record c { cached_statements = kept } in
    ok (lease c'.next (open_new (copy (c'.heap i)) c'))

-- The branches for a statement that is in the cache.
unfoldable pub get_copy : Key → ℕ → Bool → StatementCache → Result (ℕ × StatementCache)
unfolding close_uncached copy_leased
get_copy sql i cache_statement c =
    close_uncached cache_statement i c >>= copy_leased sql i cache_statement

unfoldable pub get_cached : Key → ℕ → Bool → StatementCache → ℕ × StatementCache
unfolding delete move_to_end lease
get_cached sql i cache_statement c =
    if cache_statement
    then lease i (record c { cached_statements = move_to_end sql i c.cached_statements })
    else lease i (record (put i (record (c.heap i) { return_to_cache = false }) c) {
      cached_statements = delete sql c.cached_statements;
    })

module _ (chars : Characters) where
  unfoldable pub prepared : Key → Result Statement
  unfolding prepare
  prepared none = ok new_statement
  prepared (some sql) = prepare chars sql

  unfoldable pub open_prepared :
      Key → Bool → StatementCache → Statement → Result (ℕ × StatementCache)
  unfolding add_new open_leased
  open_prepared sql cache_statement c s =
      add_new (cache_statement && not s.is_ddl && ltb 0 c.max_size) s sql c >>= open_leased c.next

  -- A statement that is not in the cache. The new object is added to the open cursors last.
  unfoldable pub get_new : Key → Bool → StatementCache → Result (ℕ × StatementCache)
  unfolding prepared open_prepared
  get_new sql cache_statement c = prepared sql >>= open_prepared sql cache_statement c

  unfoldable pub get_statement : Key → Bool → Bool → StatementCache → Result (ℕ × StatementCache)
  unfolding get_new get_copy get_cached found
  get_statement sql cache_statement force_new c = elim (found sql c) [
    | none ↦ get_new sql cache_statement c
    | some i ↦
        if force_new || (c.heap i).in_use
        then get_copy sql i cache_statement c
        else ok (get_cached sql i cache_statement c)
  ]
