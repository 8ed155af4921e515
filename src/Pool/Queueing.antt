-- ===== src/Pool/Queueing.antt =====
-- PooledConnRequest.fulfill of src/oracledb/impl/thin/pool.pyx: a request that has to wait is in the
-- list of the background task.
use python_oracledb.Prelude.{
  ℕ, ◌≡◌, ◌⊎◌, arith, Bool, true, false, List, [], ◌∷◌, ◌++◌, Option, none, some,
}
use python_oracledb.Pool.{
  Pool, GetMode, wait, nowait, forceget, timedwait, set_request, contains, pop_last, add_request,
}
use python_oracledb.Pool.Request.{
  Reply, returned, raised, check_connection, checked, matching_used, matching_new, use_used,
  use_new, search_free, fulfill, no_match, when_full, replace_new, replace_used, replace,
  full_reply, wait_or_raise, grow,
}

contains-last : (r : ℕ) (xs : List ℕ) → contains r (xs ++ r ∷ []) ≡ true
unfolding contains
contains-last r [] = ground arith
contains-last r (x ∷ xs) = ground (arith, contains-last r xs)

-- A reply that tells the caller to wait comes with the request in the list.
abbrev pub Queued : ℕ → Reply × Pool → Type 0
Queued r (returned true, p) = Unit {0}
Queued r (returned false, p) = contains r p.requests ≡ true
Queued r (raised e, p) = Unit {0}

add_request-queued : (r : ℕ) (p : Pool) → contains r ((add_request r p).requests) ≡ true
unfolding add_request
add_request-queued r p = contains-last r p.requests

check_connection-Queued :
    (is_dead : ℕ → Bool) (now r i : ℕ) (p : Pool)
    → Queued r (checked r (check_connection is_dead now r i p))
unfolding check_connection checked add_request
check_connection-Queued is_dead now r i p = ground (arith, contains-last r p.requests)

wait_or_raise-Queued : (g : GetMode) (r : ℕ) (p : Pool) → Queued r (wait_or_raise g r p)
unfolding wait_or_raise
wait_or_raise-Queued nowait r p = tt
wait_or_raise-Queued wait r p = add_request-queued r p
wait_or_raise-Queued forceget r p = add_request-queued r p
wait_or_raise-Queued timedwait r p = add_request-queued r p

full_reply-Queued : (r : ℕ) (p : Pool) → Queued r (full_reply r p)
unfolding full_reply
full_reply-Queued r p =
    let extra = set_request r (record (p.request r) { is_extra = true }) p in
    ground (arith, add_request-queued r extra, wait_or_raise-Queued p.getmode r p)

replace-queued : (r i : ℕ) (p : Pool) → contains r ((replace r i p).requests) ≡ true
unfolding replace
replace-queued r i p =
    add_request-queued r (record (set_request r (record (p.request r) { is_replacing = true }) p) {
      to_drop = p.to_drop ++ i ∷ [];
    })

replace_used-Queued : (o : Option (ℕ × List ℕ)) (r : ℕ) (p : Pool) → Queued r (replace_used o r p)
unfolding replace_used
replace_used-Queued (some (i, rest)) r p = replace-queued r i (record p { free_used = rest })
replace_used-Queued none r p = full_reply-Queued r p

replace_new-Queued : (o : Option (ℕ × List ℕ)) (r : ℕ) (p : Pool) → Queued r (replace_new o r p)
unfolding replace_new
replace_new-Queued (some (i, rest)) r p = replace-queued r i (record p { free_new = rest })
replace_new-Queued none r p = replace_used-Queued (pop_last p.free_used) r p

when_full-Queued : (r : ℕ) (p : Pool) → Queued r (when_full r p)
unfolding when_full
when_full-Queued r p = replace_new-Queued (pop_last p.free_new) r p

no_match-Queued : (r : ℕ) (p : Pool) → Queued r (no_match r p)
unfolding no_match
no_match-Queued r p =
    let p' = set_request r (record (p.request r) { requires_ping = false }) p in
    ground (arith, when_full-Queued r p', add_request-queued r (grow r p'))

use_new-Queued :
    (o : Option (ℕ × List ℕ)) (is_dead : ℕ → Bool) (now r : ℕ) (p : Pool)
    → Queued r (use_new o is_dead now r p)
unfolding use_new
use_new-Queued (some (i, rest)) is_dead now r p =
    check_connection-Queued is_dead now r i (record p { free_new = rest })
use_new-Queued none is_dead now r p = no_match-Queued r p

use_used-Queued :
    (o : Option (ℕ × List ℕ)) (is_dead : ℕ → Bool) (now r : ℕ) (p : Pool)
    → Queued r (use_used o is_dead now r p)
unfolding use_used
use_used-Queued (some (i, rest)) is_dead now r p =
    check_connection-Queued is_dead now r i (record p { free_used = rest })
use_used-Queued none is_dead now r p = use_new-Queued (matching_new r p) is_dead now r p

-- If a request that the background task is working on is in its list, then `fulfill` tells a
-- caller to wait only with its request in the list: whatever the pool is, a waiting request
-- is not lost.
pub fulfill-Queued :
    (is_dead : ℕ → Bool) (now r : ℕ) (p : Pool)
    → ((p.request r).bg_processing ≡ false) ⊎ (contains r p.requests ≡ true)
    → Queued r (fulfill is_dead now r p)
unfolding fulfill search_free
fulfill-Queued is_dead now r p h =
    ground (arith, use_used-Queued (matching_used r p) is_dead now r p)
