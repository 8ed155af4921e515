-- ===== src/Pool/Classes.antt =====
-- src/oracledb/impl/thin/pool.pyx: a connection goes back while a caller waits for a class.
use python_oracledb.Prelude.{
  ℕ, ◌≡◌, ◌≢◌, refl, ◌∙◌, arith, Bool, true, false, not, ◌&&◌, List, [], ◌∷◌, ◌++◌, none, some, leb,
  ◌==◌, Bool-cases, inl, inr,
}
use python_oracledb.Errors.{ok, attribute_error, pool_has_busy_connections}
use python_oracledb.Pool.{
  Pool, GetMode, wait, nowait, forceget, timedwait, set_request, set_connection, add_request,
  contains, pop_last,
}
use python_oracledb.Pool.Request.{
  Reply, returned, create_request, take_matching, matching_used, matching_new, use_used, use_new,
  search_free, no_match, is_full, when_full, replace_new, replace_used, full_reply, wait_or_raise,
  fulfill, begin_acquire,
}
use python_oracledb.Pool.Background.{waits_for_any}
use python_oracledb.Pool.Return.{find_waiting, hand_over, return_open, return_connection, close}
use python_oracledb.Pool.Faults.{SameLists}

find_waiting-request :
    (xs : List ℕ) (p p' : Pool) → p'.request ≡ p.request → find_waiting xs p' ≡ find_waiting xs p
unfolding find_waiting
find_waiting-request [] p p' e = refl
find_waiting-request (x ∷ xs) p p' e = rw (find_waiting-request xs p p' e, e) refl

-- A request that is put behind others, none of which takes a connection, is the one that does.
find_waiting-last :
    (xs : List ℕ) (r : ℕ) (p p' : Pool)
    → ((j : ℕ) → (j == r) ≡ false → p'.request j ≡ p.request j)
    → contains r xs ≡ false
    → find_waiting xs p ≡ none
    → waits_for_any (p'.request r) && not (p'.request r).wants_new ≡ true
    → find_waiting (xs ++ r ∷ []) p' ≡ some r
unfolding find_waiting contains
find_waiting-last [] r p p' o n f w = ground arith
find_waiting-last (x ∷ xs) r p p' o n f w = elim (Bool-cases (x == r)) [
  | inl e ↦ absurd (ground (arith, e, n))
  | inr e ↦
      let rest = find_waiting-last xs r p p' o in
      let same = o x e in ground (arith, rest, same, n, f, w)
]

-- The first request that takes a connection names a class, and the connection can be returned.
abbrev Refused : ℕ → ℕ → ℕ → Pool → Type 0
Refused r k i p =
    (find_waiting p.requests p ≡ some r)
    × ((p.request r).request_cclass ≡ some k)
    × (contains i p.busy ≡ true)
    × ((p.connection i).has_transport ≡ true)
    × ((p.connection i).is_pool_extra && leb p.max_size p.open_count ≡ false)

return-Refused :
    (now r k i : ℕ) (p : Pool)
    → Refused r k i p
    → let done = return_connection now i p in
      (done.0 ≡ some attribute_error) × SameLists p done.1 × Refused r k i done.1
unfolding return_connection return_open hand_over
return-Refused now r k i p (f, c, b, t, x) =
    let p1 = set_connection i (record (p.connection i) { is_pool_extra = false }) p in
    let p2 = set_connection i (record (p1.connection i) { time_in_pool = now }) p1 in
    let f' : find_waiting p2.requests p2 ≡ some r = find_waiting-request p.requests p p2 refl ∙ f in
    ground (arith, f')

-- The pool after the connection `i` has been returned at each of the times.
pub return_often : List ℕ → ℕ → Pool → Pool
return_often [] i p = p
return_often (now ∷ times) i p = return_often times i (return_connection now i p).1

return_often-Refused :
    (times : List ℕ) (r k i : ℕ) (p : Pool)
    → Refused r k i p
    → SameLists p (return_often times i p) × Refused r k i (return_often times i p)
unfolding return_often
return_often-Refused [] r k i p f = ((refl, refl, refl, refl, refl), f)
return_often-Refused (now ∷ times) r k i p f =
    let one = return-Refused now r k i p f in
    let more = return_often-Refused times r k i (return_connection now i p).1 one.2 in
    (ground (arith, one.1, more.0), more.1)

wait_or_raise_lem :
    (g : GetMode) (r : ℕ) (p : Pool)
    → g ≢ nowait
    → wait_or_raise g r p ≡ (returned false, add_request r p)
unfolding wait_or_raise
wait_or_raise_lem wait r p n = refl
wait_or_raise_lem nowait r p n = absurd (n refl)
wait_or_raise_lem forceget r p n = refl
wait_or_raise_lem timedwait r p n = refl

-- What a request leaves that has to wait.
abbrev Waits : ℕ → Pool → Reply × Pool → Type 0
Waits r p (reply, p') =
    (reply ≡ returned false)
    × (p'.requests ≡ p.requests ++ r ∷ [])
    × ((j : ℕ) → (j == r) ≡ false → p'.request j ≡ p.request j)
    × ((p'.request r).conn_impl ≡ (p.request r).conn_impl)
    × ((p'.request r).request_cclass ≡ (p.request r).request_cclass)
    × ((p'.request r).in_progress ≡ (p.request r).in_progress)
    × ((p'.request r).waiting ≡ (p.request r).waiting)
    × ((p'.request r).wants_new ≡ (p.request r).wants_new)
    × (p'.busy ≡ p.busy)
    × (p'.connection ≡ p.connection)
    × (p'.max_size ≡ p.max_size)
    × (p'.open_count ≡ p.open_count)

full_reply-Waits : (r : ℕ) (p : Pool) → p.getmode ≢ nowait → Waits r p (full_reply r p)
unfolding full_reply add_request
full_reply-Waits r p g = elim (Bool-cases p.force_get) [
  | inl t ↦ ground arith
  | inr t ↦ ground (arith, wait_or_raise_lem p.getmode r p g)
]

-- The search of a request in a full pool that has no free connection.
fulfill_full_lem :
    (is_dead : ℕ → Bool) (now r : ℕ) (p : Pool)
    → is_full p ≡ true
    → p.free_new ≡ []
    → p.free_used ≡ []
    → (p.request r).raised_exception ≡ false
    → (p.request r).completed ≡ false
    → (p.request r).bg_processing ≡ false
    → fulfill is_dead now r p
      ≡ full_reply r (set_request r (record (p.request r) { requires_ping = false }) p)
unfolding fulfill search_free use_used use_new matching_used matching_new no_match when_full
    replace_new replace_used take_matching pop_last
fulfill_full_lem is_dead now r p m n u x c b = ground (arith, m, n, u)

-- A caller that names a class and permits a used connection has to wait in a full pool.
queue_lem :
    (is_dead : ℕ → Bool) (now r k i : ℕ) (p : Pool)
    → is_full p ≡ true
    → p.free_new ≡ []
    → p.free_used ≡ []
    → p.getmode ≢ nowait
    → contains r p.requests ≡ false
    → find_waiting p.requests p ≡ none
    → contains i p.busy ≡ true
    → (p.connection i).has_transport ≡ true
    → (p.connection i).is_pool_extra && leb p.max_size p.open_count ≡ false
    → let s = fulfill is_dead now r (set_request r (create_request (some k) false p) p) in
      (s.0 ≡ returned false) × Refused r k i s.1
unfolding create_request is_full waits_for_any
queue_lem is_dead now r k i p m n u g c f b t x =
    let asked = set_request r (create_request (some k) false p) p in
    let tried = set_request r (record (asked.request r) { requires_ping = false }) asked in
    let w = full_reply-Waits r tried g in
    let e =
      fulfill_full_lem is_dead now r asked (ground (arith, m)) n u (ground arith) (ground arith)
        (ground arith) in
    let others : (j : ℕ) → (j == r) ≡ false → (full_reply r tried).1.request j ≡ p.request j =
      λ j h. w.2 j h ∙ ground (arith, h) in
    let last =
      find_waiting-last p.requests r p (full_reply r tried).1 others c f (ground (arith, w)) in
    rw e (w.0, (rw w.1 last, w.4 ∙ ground arith, rw w.8 b, rw w.9 t, rw (w.9, w.10, w.11) x))

close_busy_lem :
    (i : ℕ) (p : Pool)
    → contains i p.busy ≡ true
    → (close false p).0 ≡ some pool_has_busy_connections
unfolding close contains
close_busy_lem i p b = ground arith

-- The pool is open, is full with the connections that are to be made, has no free connection and
-- does not refuse to wait, no request in its list takes a connection that is returned, and a caller
-- that names a class and permits a used connection asks with a new request. It has to wait. From
-- then on a busy connection that is open, and no extra one for which there is no room, cannot be
-- returned: however often that is tried, it is an AttributeError, the lists and the count are those
-- from before the first try, with the connection busy, and the pool cannot be closed without force.
pub return_to_class :
    (is_dead : ℕ → Bool) (now r k i later : ℕ) (times : List ℕ) (p : Pool)
    → p.is_open ≡ true
    → is_full p ≡ true
    → p.free_new ≡ []
    → p.free_used ≡ []
    → p.getmode ≢ nowait
    → contains r p.requests ≡ false
    → find_waiting p.requests p ≡ none
    → contains i p.busy ≡ true
    → (p.connection i).has_transport ≡ true
    → (p.connection i).is_pool_extra && leb p.max_size p.open_count ≡ false
    → let asked = set_request r (create_request (some k) false p) p in
      let queued = fulfill is_dead now r asked in
      let tried = return_often times i queued.1 in
      (begin_acquire r (some k) false p ≡ ok asked)
      × (queued.0 ≡ returned false)
      × ((return_connection later i tried).0 ≡ some attribute_error)
      × SameLists queued.1 tried
      × (contains i tried.busy ≡ true)
      × ((close false tried).0 ≡ some pool_has_busy_connections)
unfolding begin_acquire
return_to_class is_dead now r k i later times p o m n u g c f b t x =
    let q = queue_lem is_dead now r k i p m n u g c f b t x in
    let queued = fulfill is_dead now r (set_request r (create_request (some k) false p) p) in
    let again = return_often-Refused times r k i queued.1 q.1 in
    let tried = return_often times i queued.1 in
    let fails = return-Refused later r k i tried again.1 in
    (ground (arith, o), q.0, fails.0, again.0, again.1.2, close_busy_lem i tried again.1.2)
