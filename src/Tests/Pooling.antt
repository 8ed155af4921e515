-- ===== src/Tests/Pooling.antt =====
-- The theorems on the connection pool at concrete pools.
use python_oracledb.Prelude.{
  ℕ, suc, ◌+◌, ◌≤◌, ◌≡◌, refl, inl, arith, Bool, true, false, [], ◌∷◌, length, none, some,
}
use python_oracledb.Prelude.Int.{pos}
use python_oracledb.Errors.{ok, attribute_error, pool_has_busy_connections}
use python_oracledb.Pool.{
  Pool, Connection, PooledConnRequest, timedwait, new_pool, contains, set_request,
}
use python_oracledb.Pool.Request.{
  create_request, fulfill, returned, raised, matching_used, matching_new, is_full, wants_ping,
  begin_acquire, end_acquire,
}
use python_oracledb.Pool.Background.{get_next_request, process_created, post_process_request}
use python_oracledb.Pool.Return.{find_waiting, return_connection, close}
use python_oracledb.Pool.Steps.{
  System, Reach, idle, processing, processed, after_post, ask, try, leave, pick, connect, record_it,
  here, next,
}
use python_oracledb.Pool.Steps.Runs.{open_count_bound}
use python_oracledb.Pool.Faults.{
  SameLists, abandoned_request, held_by, dead_connection, returned_extra,
}
use python_oracledb.Pool.Race.{raced_request}
use python_oracledb.Pool.Classes.{return_often, return_to_class}
use python_oracledb.Pool.Reuse.{acquire-return}
use python_oracledb.Pool.Queueing.{Queued, fulfill-Queued}
use python_oracledb.Pool.Expiry.{Expires, expire_lem}

abbrev new_connection : Connection
new_connection = record {
  cclass = none;
  time_in_pool = 0;
  is_pool_extra = false;
  invoke_session_callback = true;
  has_transport = true;
  in_pool = true;
}

abbrev quiet_request : PooledConnRequest
quiet_request = record {
  conn_impl = none;
  request_cclass = none;
  raised_exception = false;
  cclass_matches = true;
  requires_ping = false;
  wants_new = false;
  bg_processing = false;
  is_extra = false;
  is_replacing = false;
  in_progress = false;
  completed = false;
  waiting = false;
}

abbrev alive : ℕ → Bool
alive i = false

-- A pool that may have no connection.
abbrev s0 : System
s0 = record {
  pool = new_pool 0 0 1 none timedwait 0 (pos 0) (λ _. new_connection) (λ _. quiet_request);
  phase = idle;
}

abbrev s1 : System
s1 = record s0 { pool = set_request 0 (create_request none false s0.pool) s0.pool }

abbrev s2 : System
s2 = record s1 { pool = (fulfill alive 0 0 s1.pool).1 }

abbrev s3 : System
s3 = record s2 { pool = set_request 0 (record (s2.pool.request 0) { waiting = false }) s2.pool }

abbrev s4 : System
s4 = record { pool = (get_next_request s3.pool).1; phase = processing 0 }

abbrev s5 : System
s5 = record { pool = process_created 0 new_connection 0 s4.pool; phase = processed 0 }

abbrev s6 : System
s6 = record {
  pool = (post_process_request 0 s5.pool).1;
  phase = after_post (post_process_request 0 s5.pool).0;
}

run : Reach s0 1 s6
unfolding new_pool create_request fulfill get_next_request process_created
run =
    let r1 : Reach s0 0 s1 = next {k = 0} here (ask 0 none false refl refl) refl in
    let r2 : Reach s0 0 s2 = next {k = 0} r1 (try alive 0 0 refl refl) refl in
    let r3 : Reach s0 0 s3 = next {k = 0} r2 (leave 0 refl) refl in
    let r4 : Reach s0 1 s4 = next {k = 1} r3 (pick 0 refl refl refl refl) refl in
    let r5 : Reach s0 1 s5 = next {k = 0} r4 (connect 0 0 new_connection refl refl) refl in
    next {k = 0} r5 (record_it 0 refl (inl refl) refl) refl

open_count_bound_example : s6.pool.open_count + s6.pool.num_to_create ≤ 0 + 1
open_count_bound_example =
    open_count_bound 0 0 1 none timedwait 0 (pos 0) (λ _. new_connection) (λ _. quiet_request) 1 s6
      (omega arith) run

-- A pool of one connection that is full; request 0 is first in its list.
abbrev full_pool : Pool
full_pool =
    record (new_pool 0 1 1 none timedwait 0 (pos 0) (λ _. new_connection) (λ _. quiet_request)) {
      open_count = 1;
      busy = 3 ∷ [];
      requests = 0 ∷ [];
    }

abandoned_request_example :
    ((get_next_request full_pool).0 ≡ some 0)
    × ((post_process_request 0
          (process_created 5 new_connection 0 (get_next_request full_pool).1)).1.open_count
        ≡ 1 + 1)
unfolding new_pool
abandoned_request_example =
    abandoned_request full_pool 0 5 [] new_connection refl refl refl refl (omega arith)

-- Request 0 is first in the list, and connection 7 is made for it; request 5 is the next one. Now
-- connections are pinged after 60 seconds.
abbrev waiting_pool : Pool
waiting_pool = record full_pool {
  max_size = 2;
  ping_interval = pos 60;
  request = λ _. record quiet_request { bg_processing = true; in_progress = true; waiting = true };
}

raced_request_example :
    let first = fulfill alive 20 0 (process_created 7 new_connection 0 waiting_pool) in
    let left = end_acquire none 0 first.1 in
    let recorded = post_process_request 0 left.1 in
    let asked = set_request 5 (create_request none false recorded.1) recorded.1 in
    let second = fulfill alive 30 5 asked in
    (first.0 ≡ returned true)
    × (left.0 ≡ ok (some 7))
    × (recorded.0 ≡ none)
    × (begin_acquire 5 none false recorded.1 ≡ ok asked)
    × (second.0 ≡ returned true)
    × ((end_acquire none 5 second.1).0 ≡ ok (some 7))
    × (second.1.busy ≡ 3 ∷ 7 ∷ [])
unfolding new_pool contains wants_ping
raced_request_example =
    raced_request alive 20 30 0 5 7 new_connection waiting_pool refl refl refl refl refl refl refl

-- Request 4, for class 6, waits behind request 0, which wants a new session.
abbrev classed_pool : Pool
classed_pool = record full_pool {
  request = λ _. record quiet_request { wants_new = true; waiting = true };
}

return_to_class_example :
    let asked = set_request 4 (create_request (some 6) false classed_pool) classed_pool in
    let queued = fulfill alive 5 4 asked in
    let tried = return_often (9 ∷ 10 ∷ []) 3 queued.1 in
    (begin_acquire 4 (some 6) false classed_pool ≡ ok asked)
    × (queued.0 ≡ returned false)
    × ((return_connection 11 3 tried).0 ≡ some attribute_error)
    × SameLists queued.1 tried
    × (contains 3 tried.busy ≡ true)
    × ((close false tried).0 ≡ some pool_has_busy_connections)
unfolding new_pool contains find_waiting is_full
return_to_class_example =
    return_to_class alive 5 4 6 3 11 (9 ∷ 10 ∷ []) classed_pool refl refl refl refl (λ e. cc) refl
      refl refl refl refl

abbrev used_pool : Pool
used_pool = record full_pool { open_count = 2; busy = []; free_used = 8 ∷ 3 ∷ []; requests = [] }

dead_connection_example :
    let done = fulfill (λ i. true) 0 0 used_pool in
    (done.0 ≡ raised attribute_error)
    × (done.1.open_count ≡ 2)
    × (suc (held_by done.1) ≡ held_by used_pool)
unfolding new_pool matching_used matching_new
dead_connection_example = dead_connection used_pool 0 3 0 (λ i. true) refl refl refl refl refl

-- Connection 3 is an extra one, and connection 6 is new and unused.
abbrev extra_pool : Pool
extra_pool = record full_pool {
  requests = [];
  free_new = 6 ∷ [];
  max_size = 2;
  open_count = 2;
  connection = λ _. record new_connection { is_pool_extra = true };
}

returned_extra_example :
    ((return_connection 9 3 extra_pool).1.open_count ≡ 2)
    × (suc (
          length (return_connection 9 3 extra_pool).1.free_new
          + length (return_connection 9 3 extra_pool).1.free_used
          + length (return_connection 9 3 extra_pool).1.busy)
        ≡ length extra_pool.free_new + length extra_pool.free_used + length extra_pool.busy)
unfolding new_pool contains
returned_extra_example = returned_extra extra_pool 3 6 9 [] refl refl refl refl refl refl

expire_example : (k : ℕ) × Expires 9 (8 ∷ 3 ∷ []) used_pool k
expire_example = expire_lem 9 (8 ∷ 3 ∷ []) used_pool (omega arith)

-- Connection 3 is busy, and connections are pinged after 60 seconds.
abbrev busy_pool : Pool
busy_pool = record full_pool { requests = []; ping_interval = pos 60; free_used = 8 ∷ [] }

acquire-return_example :
    let back = (return_connection 9 3 busy_pool).1 in
    let asked = set_request 5 (create_request none false back) back in
    let found = fulfill alive 20 5 asked in
    (begin_acquire 5 none false back ≡ ok asked)
    × (found.0 ≡ returned true)
    × ((end_acquire none 5 found.1).0 ≡ ok (some 3))
    × (found.1.free_used ≡ 8 ∷ [])
    × (found.1.free_new ≡ [])
    × (found.1.open_count ≡ 1)
unfolding new_pool contains wants_ping
acquire-return_example =
    acquire-return alive 9 20 5 3 none busy_pool refl refl refl refl refl refl refl refl

fulfill-Queued_example : Queued 4 (fulfill alive 0 4 full_pool)
unfolding new_pool
fulfill-Queued_example = fulfill-Queued alive 0 4 full_pool (inl refl)
