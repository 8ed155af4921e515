-- ===== src/Pool/Race.antt =====
-- src/oracledb/impl/thin/pool.pyx: two callers that get one connection.
use python_oracledb.Prelude.{
  ℕ, ◌-◌, ◌≡◌, refl, arith, Bool, true, false, List, [], ◌∷◌, ◌++◌, none, some, Bool-cases, ◌⊎◌,
  inl, inr,
}
use python_oracledb.Errors.{ok}
use python_oracledb.Pool.{Pool, Connection, set_request, contains, pop_last}
use python_oracledb.Pool.Request.{
  returned, create_request, wants_ping, check_connection, checked, class_fits, matching_used,
  matching_new, use_used, use_new, search_free, fulfill, begin_acquire, end_acquire,
}
use python_oracledb.Pool.Background.{
  count_created, place, settle, post_process_request, process_created, close_old, force_close,
}
use python_oracledb.Pool.Reuse.{acquire_lem}

pop_last-append : (xs : List ℕ) (i : ℕ) → pop_last (xs ++ i ∷ []) ≡ some (i, xs)
unfolding pop_last
pop_last-append [] i = refl
pop_last-append (x ∷ xs) i = rw (pop_last-append xs i) refl

-- The search where there is no used connection and the last new one needs no ping.
acquire_new_lem :
    (is_dead : ℕ → Bool) (later r i : ℕ) (xs : List ℕ) (p : Pool)
    → p.free_used ≡ []
    → p.free_new ≡ xs ++ i ∷ []
    → (p.request r).raised_exception ≡ false
    → (p.request r).completed ≡ false
    → (p.request r).bg_processing ≡ false
    → (p.request r).requires_ping ≡ false
    → (p.request r).cclass_matches ≡ true
    → wants_ping p.ping_interval (later - (p.connection i).time_in_pool) ≡ false
    → is_dead i ≡ false
    → let s = fulfill is_dead later r p in
      (s.0 ≡ returned true)
      × ((s.1.request r).conn_impl ≡ some i)
      × ((s.1.request r).completed ≡ true)
      × (s.1.busy ≡ p.busy ++ i ∷ [])
unfolding fulfill search_free use_used use_new check_connection checked matching_used matching_new
acquire_new_lem is_dead later r i xs p u f x c b g k n d =
    let found : pop_last p.free_new ≡ some (i, xs) = rw f (pop_last-append xs i) in
    ground (arith, found)

-- The caller of request `r` leaves with the connection `i` that was made for it, and then the
-- request is recorded.
abbrev pub left_early : ℕ → ℕ → Connection → Pool → Pool
left_early r i c p = (end_acquire none r (process_created i c r p)).1

-- What the recording leaves: the connection is free, and not busy.
abbrev Freed : ℕ → Connection → Pool → Pool → Type 0
Freed i c p p' =
    (p'.busy ≡ p.busy)
    × (p'.is_open ≡ p.is_open)
    × (p'.ping_interval ≡ p.ping_interval)
    × ((p'.connection i).time_in_pool ≡ c.time_in_pool)
    × (((p'.free_used ≡ p.free_used) × (p'.free_new ≡ p.free_new ++ i ∷ []))
        ⊎ (p'.free_used ≡ p.free_used ++ i ∷ []))

left_early-Freed :
    (r i : ℕ) (c : Connection) (p : Pool)
    → contains r p.requests ≡ true
    → (p.request r).is_extra ≡ false
    → let done = post_process_request r (left_early r i c p) in (done.0 ≡ none) × Freed i c p done.1
unfolding process_created close_old force_close end_acquire post_process_request settle place
    count_created
left_early-Freed r i c p h x = elim (Bool-cases c.invoke_session_callback) [
  | inl t ↦ ground arith
  | inr t ↦ ground arith
]

made_lem :
    (is_dead : ℕ → Bool) (now r i : ℕ) (c : Connection) (p : Pool)
    → (p.request r).raised_exception ≡ false
    → let made = process_created i c r p in
      (fulfill is_dead now r made ≡ (returned true, made))
      × ((end_acquire none r made).0 ≡ ok (some i))
unfolding fulfill process_created close_old force_close end_acquire
made_lem is_dead now r i c p e = ground arith

-- The next caller gets the connection that the recording has freed.
second_lem :
    (is_dead : ℕ → Bool) (later i s : ℕ) (c : Connection) (p p' : Pool)
    → p.free_used ≡ []
    → p.is_open ≡ true
    → wants_ping p.ping_interval (later - c.time_in_pool) ≡ false
    → is_dead i ≡ false
    → Freed i c p p'
    → let asked = set_request s (create_request none false p') p' in
      let second = fulfill is_dead later s asked in
      (begin_acquire s none false p' ≡ ok asked)
      × (second.0 ≡ returned true)
      × ((end_acquire none s second.1).0 ≡ ok (some i))
      × (second.1.busy ≡ p.busy ++ i ∷ [])
unfolding begin_acquire end_acquire create_request class_fits
second_lem is_dead later i s c p p' u o n d (b, o', g, t, inl (fu, fn)) =
    let asked = set_request s (create_request none false p') p' in
    let a =
      acquire_new_lem is_dead later s i p.free_new asked (ground (arith, fu, u))
        (ground (arith, fn)) (ground arith) (ground arith) (ground arith) (ground arith)
        (ground arith) (ground (arith, g, t, n)) d in
    ground (arith, a, b, o')
second_lem is_dead later i s c p p' u o n d (b, o', g, t, inr fu) =
    let asked = set_request s (create_request none false p') p' in
    let a =
      acquire_lem is_dead later s i [] asked (ground (arith, fu, u)) (ground arith) (ground arith)
        (ground arith) (ground arith) (ground arith) (ground arith) (ground (arith, g, t, n)) d in
    ground (arith, a, b, o')

-- A connection `i` that is no extra one is made for a request that has not failed, in the list of an
-- open pool that has no free used connection, and before that is recorded, the request is tried
-- again, at the time `now`. Its caller is given the connection and leaves. Then the request is
-- recorded, without an error, and the next caller, who names no class and permits a used connection,
-- at the time `later`, before a ping is due and while the connection lives, is given the same
-- connection: two callers have it. The busy connections are those from before, and it, once.
pub raced_request :
    (is_dead : ℕ → Bool) (now later r s i : ℕ) (c : Connection) (p : Pool)
    → contains r p.requests ≡ true
    → (p.request r).raised_exception ≡ false
    → (p.request r).is_extra ≡ false
    → p.is_open ≡ true
    → p.free_used ≡ []
    → wants_ping p.ping_interval (later - c.time_in_pool) ≡ false
    → is_dead i ≡ false
    → let first = fulfill is_dead now r (process_created i c r p) in
      let left = end_acquire none r first.1 in
      let recorded = post_process_request r left.1 in
      let asked = set_request s (create_request none false recorded.1) recorded.1 in
      let second = fulfill is_dead later s asked in
      (first.0 ≡ returned true)
      × (left.0 ≡ ok (some i))
      × (recorded.0 ≡ none)
      × (begin_acquire s none false recorded.1 ≡ ok asked)
      × (second.0 ≡ returned true)
      × ((end_acquire none s second.1).0 ≡ ok (some i))
      × (second.1.busy ≡ p.busy ++ i ∷ [])
raced_request is_dead now later r s i c p h e x o u n d =
    let made = made_lem is_dead now r i c p e in
    let freed = left_early-Freed r i c p h x in
    let next =
      second_lem is_dead later i s c p (post_process_request r (left_early r i c p)).1 u o n d
        freed.1 in
    rw made.0 (refl, made.1, freed.0, next.0, next.1, next.2, next.3)
