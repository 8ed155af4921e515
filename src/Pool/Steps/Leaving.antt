-- ===== src/Pool/Steps/Leaving.antt =====
-- What the other methods do to the counts and to the flags by which a request is counted.
use python_oracledb.Prelude.{
  ℕ, ◌-◌, ◌^◌, ◌<◌, ◌≡◌, ◌∙◌, arith, Bool, false, ◌||◌, List, [], ◌∷◌, ◌++◌, Option, none, some,
}
use python_oracledb.Pool.{
  Pool, PooledConnRequest, set_connection, decrease, check_timeout, drop_conn_impl, remove,
}
use python_oracledb.Pool.Background.{force_close, close_each, drop_conn_impls}
use python_oracledb.Pool.Return.{
  find_waiting, leave_busy, hand_over, return_open, return_closed, return_full, return_connection,
  drop, expire, expire_new, expire_used, process_timeout, forget_pool, close,
}
use python_oracledb.Pool.Steps.Counts.{SameCounts, Tame}

-- The flags that say whether the connection of a request is in the count already.
abbrev pub is_counted : PooledConnRequest → Bool
is_counted q = q.is_replacing || q.requires_ping

-- A tame change that leaves these flags alone.
abbrev pub Quiet : ℕ → Pool → Pool → Type 0
Quiet r p p' = Tame p p' × (is_counted (p'.request r) ≡ is_counted (p.request r))

decrease_lem : (n : ℕ) → 0 < n → n < 2 ^ 32 → decrease n ≡ n - 1
unfolding decrease
decrease_lem n h k = omega arith

Quiet-trans :
    (r : ℕ) (p q s : Pool)
    → SameCounts p q
    → is_counted (q.request r) ≡ is_counted (p.request r)
    → Quiet r q s
    → Quiet r p s
Quiet-trans r p q s c e (t, f) = (ground arith, f ∙ e)

check_timeout-Quiet : (r : ℕ) (p : Pool) → Quiet r p (check_timeout p)
unfolding check_timeout
check_timeout-Quiet r p = ground arith

leave_busy-Quiet : (r i : ℕ) (p : Pool) → Quiet r p (leave_busy i p).1
unfolding leave_busy
leave_busy-Quiet r i p = ground (arith, check_timeout-Quiet r (record p { busy = remove i p.busy }))

hand_over-Quiet : (r : ℕ) (o : Option ℕ) (i : ℕ) (p : Pool) → Quiet r p (hand_over o i p).1
unfolding hand_over
hand_over-Quiet r none i p = leave_busy-Quiet r i (record p { free_used = p.free_used ++ i ∷ [] })
hand_over-Quiet r (some x) i p = ground arith

return_open-Quiet : (r now i : ℕ) (p : Pool) → Quiet r p (return_open now i p).1
unfolding return_open
return_open-Quiet r now i p =
    let p' = set_connection i (record (p.connection i) { time_in_pool = now }) p in
    hand_over-Quiet r (find_waiting p'.requests p') i p'

return_closed-Quiet :
    (r i : ℕ) (p : Pool)
    → 0 < p.open_count
    → p.open_count < 2 ^ 32
    → Quiet r p (return_closed i p).1
unfolding return_closed
return_closed-Quiet r i p h k =
    let p' = record p { open_count = decrease p.open_count } in
    let l = leave_busy-Quiet r i p' in ground (arith, l, decrease_lem p.open_count)

drop_conn_impl-Quiet : (r i : ℕ) (p : Pool) → Quiet r p (drop_conn_impl i p)
unfolding drop_conn_impl
drop_conn_impl-Quiet r i p = ground arith

-- Dropping a connection changes neither the count nor a request.
pub drop_conn_impl-counts :
    (i : ℕ) (p : Pool)
    → SameCounts p (drop_conn_impl i p) × ((drop_conn_impl i p).request ≡ p.request)
unfolding drop_conn_impl
drop_conn_impl-counts i p = ground arith

return_full-Quiet :
    (r now i : ℕ) (free : List ℕ) (p : Pool)
    → 0 < p.open_count
    → p.open_count < 2 ^ 32
    → Quiet r p (return_full now i free p).1
unfolding return_full
return_full-Quiet r now i [] p h k =
    let d = drop_conn_impl i p in
    ground (arith, drop_conn_impl-counts i p, return_closed-Quiet r i d)
return_full-Quiet r now i (oldest ∷ rest) p h k =
    let d = drop_conn_impl i p in
    let left = record p { free_new = rest } in
    let q = drop_conn_impl oldest left in
    ground (
      arith,
      drop_conn_impl-counts i p,
      drop_conn_impl-counts oldest left,
      return_closed-Quiet r i d,
      return_open-Quiet r now i q,
    )

pub return_connection-Quiet :
    (r now i : ℕ) (p : Pool)
    → 0 < p.open_count
    → p.open_count < 2 ^ 32
    → Quiet r p (return_connection now i p).1
unfolding return_connection
return_connection-Quiet r now i p h k =
    let p' = set_connection i (record (p.connection i) { is_pool_extra = false }) p in
    ground (
      arith,
      return_closed-Quiet r i p',
      return_full-Quiet r now i p'.free_new p',
      return_open-Quiet r now i p',
    )

pub drop-Quiet :
    (r i : ℕ) (p : Pool) → 0 < p.open_count → p.open_count < 2 ^ 32 → Quiet r p (drop i p).1
unfolding drop
drop-Quiet r i p h k =
    let p' = record p { open_count = decrease p.open_count; busy = remove i p.busy } in
    ground (arith, decrease_lem p.open_count, drop_conn_impl-counts i p')

expire-Quiet :
    (r now : ℕ) (is : List ℕ) (p : Pool) → p.open_count < 2 ^ 32 → Quiet r p (expire now is p).1
unfolding expire
expire-Quiet r now [] p k = ground arith
expire-Quiet r now (i ∷ is) p k =
    let d = drop_conn_impl i p in
    let q = record d { open_count = decrease p.open_count } in
    ground (arith, decrease_lem p.open_count, drop_conn_impl-counts i p, expire-Quiet r now is q)

pub process_timeout-Quiet :
    (r now : ℕ) (p : Pool) → p.open_count < 2 ^ 32 → Quiet r p (process_timeout now p)
unfolding process_timeout expire_new expire_used
process_timeout-Quiet r now p k =
    let p0 = record p { timeout_task = false } in
    let p1 = expire_new now p0 in
    let p2 = expire_used now p1 in
    ground (
      arith,
      expire-Quiet r now p0.free_new p0,
      expire-Quiet r now p1.free_used p1,
      check_timeout-Quiet r p2,
    )

forget_pool-counts :
    (is : List ℕ) (p : Pool)
    → SameCounts p (forget_pool is p) × ((forget_pool is p).request ≡ p.request)
unfolding forget_pool
forget_pool-counts [] p = ground arith
forget_pool-counts (i ∷ is) p =
    forget_pool-counts is (set_connection i (record (p.connection i) { in_pool = false }) p)

pub close-Quiet : (r : ℕ) (force : Bool) (p : Pool) → Quiet r p (close force p).1
unfolding close
close-Quiet r force p = ground (arith, forget_pool-counts (p.free_used ++ (p.free_new ++ p.busy)) p)

close_each-counts :
    (is : List ℕ) (p : Pool)
    → SameCounts p (close_each is p) × ((close_each is p).request ≡ p.request)
unfolding close_each force_close
close_each-counts [] p = ground arith
close_each-counts (i ∷ is) p = close_each-counts is (force_close i p)

pub drop_conn_impls-Quiet : (r : ℕ) (p : Pool) → Quiet r p (drop_conn_impls p)
unfolding drop_conn_impls
drop_conn_impls-Quiet r p = ground (arith, close_each-counts p.to_drop (record p { to_drop = [] }))
