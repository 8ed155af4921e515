-- ===== src/Pool/Background.antt =====
-- src/oracledb/impl/thin/pool.pyx: what the background task does with requests and connections.
use python_oracledb.Prelude.{
  ℕ, ◌-◌, Bool, true, false, not, ◌&&◌, ◌||◌, List, [], ◌∷◌, ◌++◌, Option, none, some, ltb, leb,
  ◌==◌, if◌then◌else◌,
}
use python_oracledb.Errors.{value_error}
use python_oracledb.Pool.{
  Pool, PooledConnRequest, Connection, same_cclass, is_none, set_request, set_connection, increase,
  decrease, pred, remove, contains, Done, check_timeout,
}

-- Whether the first request can be processed now.
unfoldable pub can_process : PooledConnRequest → Pool → Bool
can_process q p =
    not q.waiting || q.requires_ping || q.is_replacing || q.is_extra || ltb p.open_count p.max_size

unfoldable pub first_request : List ℕ → Pool → Option ℕ × Pool
unfolding can_process
first_request [] p = (none, p)
first_request (r ∷ rs) p =
    let q = p.request r in
    if can_process q p
    then (some r, set_request r (record q { in_progress = q.waiting }) p)
    else (none, p)

unfoldable pub get_next_request : Pool → Option ℕ × Pool
unfolding first_request
get_next_request p = first_request p.requests p

-- _force_close, as far as the pool sees it.
unfoldable pub force_close : ℕ → Pool → Pool
force_close i p =
    set_connection i (record (p.connection i) { has_transport = false; in_pool = false }) p

abbrev pub finished : PooledConnRequest → PooledConnRequest
finished q = record q { in_progress = false; bg_processing = false }

-- _process_request, which runs without the lock. `answer` says that the ping was answered.
unfoldable pub process_ping : Bool → ℕ → Pool → Pool
unfolding force_close
process_ping answer r p =
    let q = p.request r in
    elim q.conn_impl [
      | none ↦ set_request r (record (finished q) { raised_exception = true }) p
      | some i ↦
          if answer
          then set_request r (record (finished q) { completed = true }) p
          else set_request r (record (finished q) { conn_impl = none }) (force_close i p)
    ]

unfoldable pub close_old : Option ℕ → Pool → Pool
unfolding force_close
close_old none p = p
close_old (some old) p = force_close old p

-- The connection `i` was made for the request: `c` is what _create_conn_impl returned.
unfoldable pub process_created : ℕ → Connection → ℕ → Pool → Pool
unfolding close_old
process_created i c r p =
    let q = p.request r in
    set_request r (record (finished q) { conn_impl = some i; completed = true })
      (set_connection i (record c { is_pool_extra = q.is_extra }) (close_old q.conn_impl p))

-- No connection could be made.
unfoldable pub process_failed : ℕ → Pool → Pool
process_failed r p = set_request r (record (finished (p.request r)) { raised_exception = true }) p

-- A connection that the request has and that was not in the pool before is counted.
unfoldable pub count_created : PooledConnRequest → Pool → Pool
unfolding increase
count_created q p =
    if q.is_replacing || q.requires_ping
    then p
    else record p { open_count = increase p.open_count; num_to_create = pred p.num_to_create }

-- Where the connection of a processed request goes.
unfoldable pub place : PooledConnRequest → ℕ → Pool → Pool
place q i p =
    if q.waiting
    then record p { busy = p.busy ++ i ∷ [] }
    else if (p.connection i).is_pool_extra
    then record (set_connection i (record (p.connection i) { is_pool_extra = false }) p) {
      to_drop = p.to_drop ++ i ∷ [];
    }
    else if (p.connection i).invoke_session_callback
    then record p { free_new = p.free_new ++ i ∷ [] }
    else record p { free_used = p.free_used ++ i ∷ [] }

-- A connection that did not answer the ping is gone.
unfoldable pub count_lost : Pool → Pool
unfolding decrease
count_lost p =
    let open_count = decrease p.open_count in
    record p {
      open_count = open_count;
      num_to_create =
          if p.num_to_create == 0 && ltb open_count p.min_size
          then p.min_size - open_count
          else p.num_to_create;
    }

unfoldable pub settle : PooledConnRequest → Pool → Pool
unfolding count_created place count_lost
settle q p = elim q.conn_impl [
  | some i ↦ place q i (count_created q p)
  | none ↦ if q.requires_ping then count_lost p else p
]

-- A request that is no longer in the list raises, which ends the task.
unfoldable pub post_process_request : ℕ → Pool → Done
unfolding settle remove contains
post_process_request r p =
    let p' = settle (p.request r) p in
    if contains r p.requests
    then (none, record p' { requests = remove r p'.requests })
    else (some value_error, p')

-- The request that a new connection goes to, if any.
pub data Taker : Type 0 where
  gives : ℕ → Taker
  replaces : ℕ → Taker
  nobody : Taker

unfoldable pub waits_for_any : PooledConnRequest → Bool
waits_for_any q = not q.in_progress && is_none q.conn_impl && q.waiting

unfoldable pub find_taker : List ℕ → Connection → Pool → Taker
unfolding waits_for_any
find_taker [] c p = nobody
find_taker (r ∷ rs) c p =
    let q = p.request r in
    let rest = find_taker rs c p in
    if not (waits_for_any q)
    then rest
    else if is_none q.request_cclass || same_cclass q.request_cclass c.cclass
    then gives r
    else if not q.cclass_matches && leb p.max_size p.open_count
    then replaces r
    else rest

unfoldable pub give_new : Taker → ℕ → Pool → Pool
unfolding remove
give_new (gives r) i p =
    record (set_request r (record (p.request r) { conn_impl = some i; completed = true }) p) {
      busy = p.busy ++ i ∷ [];
      requests = remove r p.requests;
    }
give_new (replaces r) i p =
    set_request r (record (p.request r) { conn_impl = some i; is_replacing = true }) p
give_new nobody i p = record p { free_new = p.free_new ++ i ∷ [] }

-- _post_create_conn_impl, with the connection that was made, if one was.
unfoldable pub post_create_conn_impl : Option ℕ → Pool → Pool
unfolding force_close increase find_taker give_new check_timeout
post_create_conn_impl none p = record p { num_to_create = 0 }
post_create_conn_impl (some i) p =
    let counted = record p {
      open_count = increase p.open_count;
      num_to_create = pred p.num_to_create;
    } in
    if p.is_open
    then check_timeout
        (give_new (find_taker counted.requests (counted.connection i) counted) i counted)
    else force_close i p

-- The task takes the connections that are to be dropped and closes them.
unfoldable pub close_each : List ℕ → Pool → Pool
unfolding force_close
close_each [] p = p
close_each (i ∷ is) p = close_each is (force_close i p)

unfoldable pub drop_conn_impls : Pool → Pool
unfolding close_each
drop_conn_impls p = close_each p.to_drop (record p { to_drop = [] })
