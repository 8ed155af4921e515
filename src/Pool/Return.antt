-- ===== src/Pool/Return.antt =====
-- src/oracledb/impl/thin/pool.pyx: how connections leave the callers and the pool.
use python_oracledb.Prelude.{
  is_nil, ℕ, ◌-◌, Bool, true, false, not, ◌&&◌, ◌||◌, List, [], ◌∷◌, ◌++◌, Option, none, some, ltb,
  leb, ◌==◌, if◌then◌else◌,
}
use python_oracledb.Errors.{attribute_error, value_error, pool_has_busy_connections}
use python_oracledb.Pool.{
  Pool, is_none, set_request, set_connection, decrease, remove, contains, check_timeout,
  drop_conn_impl, Done,
}
use python_oracledb.Pool.Background.{waits_for_any}

-- The first request that waits for any connection and permits a used one.
unfoldable pub find_waiting : List ℕ → Pool → Option ℕ
unfolding waits_for_any
find_waiting [] p = none
find_waiting (r ∷ rs) p =
    let q = p.request r in
    let rest = find_waiting rs p in if waits_for_any q && not q.wants_new then some r else rest

-- `self._busy_conn_impls.remove(conn_impl)`.
unfoldable pub leave_busy : ℕ → Pool → Done
unfolding remove contains check_timeout
leave_busy i p =
    if contains i p.busy
    then (none, check_timeout (record p { busy = remove i p.busy }))
    else (some value_error, p)

-- A waiting request takes the connection, which stays busy. Where the request names a class, the
-- class of its connection, which is None, is compared with a `cclass` that the pool does not have.
unfoldable pub hand_over : Option ℕ → ℕ → Pool → Done
unfolding leave_busy remove
hand_over none i p = leave_busy i (record p { free_used = p.free_used ++ i ∷ [] })
hand_over (some r) i p =
    let q = p.request r in
    if is_none q.request_cclass
    then (
      none,
      record (set_request r (record q { conn_impl = some i; completed = true }) p) {
        requests = remove r p.requests;
      },
    )
    else (some attribute_error, p)

unfoldable pub return_open : ℕ → ℕ → Pool → Done
unfolding hand_over find_waiting
return_open now i p =
    let p' = set_connection i (record (p.connection i) { time_in_pool = now }) p in
    hand_over (find_waiting p'.requests p') i p'

unfoldable pub return_closed : ℕ → Pool → Done
unfolding leave_busy decrease
return_closed i p = leave_busy i (record p { open_count = decrease p.open_count })

-- An extra connection that is open, with the pool full: an unused new connection is dropped if the
-- pool is just full and has one, otherwise the connection itself is.
unfoldable pub return_full : ℕ → ℕ → List ℕ → Pool → Done
unfolding return_open return_closed drop_conn_impl
return_full now i [] p = return_closed i (drop_conn_impl i p)
return_full now i (oldest ∷ rest) p =
    if p.open_count == p.max_size
    then return_open now i (drop_conn_impl oldest (record p { free_new = rest }))
    else return_closed i (drop_conn_impl i p)

-- _return_connection_helper, without the cursors of the type cache, at the time `now`.
unfoldable pub return_connection : ℕ → ℕ → Pool → Done
unfolding return_full return_open return_closed
return_connection now i p =
    let c = p.connection i in
    let p' = set_connection i (record c { is_pool_extra = false }) p in
    if not c.has_transport
    then return_closed i p'
    else if c.is_pool_extra && leb p.max_size p.open_count
    then return_full now i p'.free_new p'
    else return_open now i p'

-- `drop`: the count is decreased before the connection is looked for.
unfoldable pub drop : ℕ → Pool → Done
unfolding decrease remove contains drop_conn_impl
drop i p =
    let p' = record p { open_count = decrease p.open_count } in
    if contains i p.busy
    then (none, drop_conn_impl i (record p' { busy = remove i p.busy }))
    else (some value_error, p')

unfoldable pub is_expired : ℕ → ℕ → Pool → Bool
is_expired now i p = leb p.timeout (now - (p.connection i).time_in_pool)

-- The loop of _timeout_helper on one of the lists: what is left of the list, and the pool.
unfoldable pub expire : ℕ → List ℕ → Pool → List ℕ × Pool
unfolding is_expired decrease drop_conn_impl
expire now [] p = ([], p)
expire now (i ∷ is) p =
    let dropped = drop_conn_impl i p in
    let rest = expire now is (record dropped { open_count = decrease p.open_count }) in
    if ltb p.min_size p.open_count && is_expired now i p then rest else (i ∷ is, p)

unfoldable pub expire_new : ℕ → Pool → Pool
unfolding expire
expire_new now p = let (left, p') = expire now p.free_new p in record p' { free_new = left }

unfoldable pub expire_used : ℕ → Pool → Pool
unfolding expire
expire_used now p = let (left, p') = expire now p.free_used p in record p' { free_used = left }

unfoldable pub process_timeout : ℕ → Pool → Pool
unfolding expire_new expire_used check_timeout
process_timeout now p =
    check_timeout (expire_used now (expire_new now (record p { timeout_task = false })))

unfoldable pub forget_pool : List ℕ → Pool → Pool
forget_pool [] p = p
forget_pool (i ∷ is) p =
    forget_pool is (set_connection i (record (p.connection i) { in_pool = false }) p)

-- _close_helper.
unfoldable pub close : Bool → Pool → Done
unfolding forget_pool
close force p =
    let all = p.free_used ++ (p.free_new ++ p.busy) in
    if not force && (not (is_nil p.busy) || not (is_nil p.requests))
    then (some pool_has_busy_connections, p)
    else (
      none,
      record (forget_pool all p) {
        is_open = false;
        free_new = [];
        free_used = [];
        busy = [];
        to_drop = p.to_drop ++ all;
      },
    )
