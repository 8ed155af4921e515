-- ===== src/Pool/Reuse.antt =====
-- A connection that goes back to the pool of src/oracledb/impl/thin/pool.pyx is acquired again.
use python_oracledb.Prelude.{
  ℕ, ◌-◌, ◌≡◌, refl, arith, Bool, true, false, ◌||◌, List, [], ◌∷◌, ◌++◌, none, some,
}
use python_oracledb.Errors.{ok}
use python_oracledb.Pool.{
  Pool, Cclass, same_cclass, set_request, is_none, check_timeout, contains, remove,
}
use python_oracledb.Pool.Request.{
  returned, create_request, wants_ping, check_connection, checked, take_matching, class_fits,
  matching_used, use_used, search_free, fulfill, begin_acquire, end_acquire,
}
use python_oracledb.Pool.Return.{
  find_waiting, leave_busy, hand_over, return_open, return_connection,
}

take_matching-last :
    (test : ℕ → Bool) (xs : List ℕ) (i : ℕ)
    → test i ≡ true
    → take_matching test (xs ++ i ∷ []) ≡ some (i, xs)
unfolding take_matching
take_matching-last test [] i t = ground arith
take_matching-last test (x ∷ xs) i t = rw (take_matching-last test xs i t) refl

-- What the return of an open connection leaves.
abbrev Returned : ℕ → ℕ → Pool → Pool → Type 0
Returned now i p p' =
    (p'.requests ≡ p.requests)
    × (p'.free_used ≡ p.free_used ++ i ∷ [])
    × (p'.free_new ≡ p.free_new)
    × (p'.open_count ≡ p.open_count)
    × (p'.is_open ≡ p.is_open)
    × (p'.ping_interval ≡ p.ping_interval)
    × ((p'.connection i).cclass ≡ (p.connection i).cclass)
    × ((p'.connection i).time_in_pool ≡ now)
    × (p'.busy ≡ remove i p.busy)

return_lem :
    (now i : ℕ) (p : Pool)
    → p.requests ≡ []
    → contains i p.busy ≡ true
    → (p.connection i).has_transport ≡ true
    → (p.connection i).is_pool_extra ≡ false
    → Returned now i p (return_connection now i p).1
unfolding return_connection return_open hand_over find_waiting leave_busy check_timeout
return_lem now i p q c t x = ground arith

-- What the search for a free connection leaves where the last used one fits and needs no ping.
pub acquire_lem :
    (is_dead : ℕ → Bool) (later r i : ℕ) (xs : List ℕ) (p : Pool)
    → p.free_used ≡ xs ++ i ∷ []
    → (p.request r).raised_exception ≡ false
    → (p.request r).completed ≡ false
    → (p.request r).bg_processing ≡ false
    → (p.request r).wants_new ≡ false
    → (p.request r).requires_ping ≡ false
    → class_fits (p.request r) p i ≡ true
    → wants_ping p.ping_interval (later - (p.connection i).time_in_pool) ≡ false
    → is_dead i ≡ false
    → let s = fulfill is_dead later r p in
      (s.0 ≡ returned true)
      × ((s.1.request r).conn_impl ≡ some i)
      × ((s.1.request r).completed ≡ true)
      × (s.1.free_used ≡ xs)
      × (s.1.free_new ≡ p.free_new)
      × (s.1.open_count ≡ p.open_count)
      × (s.1.busy ≡ p.busy ++ i ∷ [])
unfolding fulfill search_free use_used check_connection checked matching_used
acquire_lem is_dead later r i xs p f x c b w g k n d =
    let found : take_matching (class_fits (p.request r) p) p.free_used ≡ some (i, xs) =
      rw f (take_matching-last (class_fits (p.request r) p) xs i k) in
    ground (arith, found)

-- An open connection that is no extra one is returned at the time `now` while no request waits, and
-- then a caller that permits a used connection and names no class, or that of this connection,
-- acquires one at the time `later`, before a ping is due, from a pool that is open: it gets this
-- connection, and the free connections and the count are those from before the return.
pub acquire-return :
    (is_dead : ℕ → Bool) (now later r i : ℕ) (cclass : Cclass) (p : Pool)
    → p.requests ≡ []
    → contains i p.busy ≡ true
    → (p.connection i).has_transport ≡ true
    → (p.connection i).is_pool_extra ≡ false
    → p.is_open ≡ true
    → is_none cclass || same_cclass ((p.connection i).cclass) cclass ≡ true
    → wants_ping p.ping_interval (later - now) ≡ false
    → is_dead i ≡ false
    → let back = (return_connection now i p).1 in
      let asked = set_request r (create_request cclass false back) back in
      let found = fulfill is_dead later r asked in
      (begin_acquire r cclass false back ≡ ok asked)
      × (found.0 ≡ returned true)
      × ((end_acquire none r found.1).0 ≡ ok (some i))
      × (found.1.free_used ≡ p.free_used)
      × (found.1.free_new ≡ p.free_new)
      × (found.1.open_count ≡ p.open_count)
unfolding begin_acquire end_acquire create_request class_fits
acquire-return is_dead now later r i cclass p q c t x o k n d =
    let back = (return_connection now i p).1 in
    let b = return_lem now i p q c t x in
    let asked = set_request r (create_request cclass false back) back in
    let a =
      acquire_lem is_dead later r i p.free_used asked (ground (arith, b)) (ground arith)
        (ground arith) (ground arith) (ground arith) (ground arith) (ground (arith, b, k))
        (ground (arith, b, n)) d in
    ground (arith, a, b)
