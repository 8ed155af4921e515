-- ===== src/Pool/Faults.antt =====
-- What the pool does where its callers leave, race or return at the wrong moment.
use python_oracledb.Prelude.{
  ℕ, refl, inl, inr, Option-cases, suc, ◌+◌, ◌-◌, ◌^◌, ◌<◌, ◌≡◌, ap, arith, Bool, true, false, List,
  [], ◌∷◌, ◌++◌, length, length-append, Option, none, some,
}
use python_oracledb.Errors.{attribute_error}
use python_oracledb.Pool.{
  Pool, Connection, set_connection, increase, check_timeout, drop_conn_impl, contains, remove,
  pop_last,
}
use python_oracledb.Pool.Request.{
  raised, check_connection, checked, take_matching, class_fits, matching_used, matching_new,
  use_used, use_new, search_free, fulfill,
}
use python_oracledb.Pool.Background.{
  can_process, first_request, get_next_request, close_old, process_created, count_created, place,
  settle, post_process_request,
}
use python_oracledb.Pool.Return.{
  find_waiting, leave_busy, hand_over, return_open, return_full, return_connection,
}

-- The caller of the first request has left, and the request asks for a new connection: whatever the
-- maximum of the pool is and however many connections are open, the background task picks the
-- request, and when a connection has been made for it the count is one higher.
pub abandoned_request :
    (p : Pool) (r i : ℕ) (rs : List ℕ) (c : Connection)
    → p.requests ≡ r ∷ rs
    → (p.request r).waiting ≡ false
    → (p.request r).requires_ping ≡ false
    → (p.request r).is_replacing ≡ false
    → p.open_count < 2 ^ 32 - 1
    → ((get_next_request p).0 ≡ some r)
      × ((post_process_request r (process_created i c r (get_next_request p).1)).1.open_count
          ≡ p.open_count + 1)
unfolding get_next_request first_request can_process post_process_request settle count_created place
    process_created close_old increase
abandoned_request p r i rs c q w g l h = ground arith

length-remove :
    (x : ℕ) (xs : List ℕ) → contains x xs ≡ true → suc (length (remove x xs)) ≡ length xs
unfolding remove contains
length-remove x [] h = cc
length-remove x (y ∷ ys) h = ground (arith, length-remove x ys)

-- A list of the pool's, with one taken out of it.
length-take_matching :
    (test : ℕ → Bool) (xs : List ℕ) (i : ℕ) (rest : List ℕ)
    → take_matching test xs ≡ some (i, rest)
    → suc (length rest) ≡ length xs
unfolding take_matching
length-take_matching test [] i rest h = cc
length-take_matching test (x ∷ xs) i rest h =
    let short = length-take_matching test xs in grind (arith, short, h)

length-pop_last :
    (xs : List ℕ) (i : ℕ) (rest : List ℕ)
    → pop_last xs ≡ some (i, rest)
    → suc (length rest) ≡ length xs
unfolding pop_last
length-pop_last [] i rest h = cc
length-pop_last (x ∷ xs) i rest h = let short = length-pop_last xs in grind (arith, short, h)

-- What stays the same when a connection is dropped.
abbrev pub SameLists : Pool → Pool → Type 0
SameLists p p' =
    (p'.requests ≡ p.requests)
    × (p'.busy ≡ p.busy)
    × (p'.free_new ≡ p.free_new)
    × (p'.free_used ≡ p.free_used)
    × (p'.open_count ≡ p.open_count)

drop_lists : (i : ℕ) (p : Pool) → SameLists p (drop_conn_impl i p)
unfolding drop_conn_impl
drop_lists i p = ground arith

leave_lists :
    (i : ℕ) (p : Pool)
    → contains i p.busy ≡ true
    → let p' = (leave_busy i p).1 in
      (p'.free_new ≡ p.free_new)
      × (p'.free_used ≡ p.free_used)
      × (p'.open_count ≡ p.open_count)
      × (suc (length p'.busy) ≡ length p.busy)
unfolding leave_busy check_timeout
leave_lists i p c = ground (arith, length-remove i p.busy c)

return_open_lists :
    (now i : ℕ) (p : Pool)
    → p.requests ≡ []
    → contains i p.busy ≡ true
    → let p' = (return_open now i p).1 in
      (p'.open_count ≡ p.open_count)
      × (length p'.free_new + length p'.free_used + length p'.busy
          ≡ length p.free_new + length p.free_used + length p.busy)
unfolding return_open hand_over find_waiting
return_open_lists now i p q c =
    let p' = record (set_connection i (record (p.connection i) { time_in_pool = now }) p) {
      free_used = p.free_used ++ i ∷ [];
    } in
    ground (arith, leave_lists i p' c, length-append p.free_used (i ∷ []))

full_lists :
    (now i o : ℕ) (rest : List ℕ) (p : Pool)
    → p.requests ≡ []
    → contains i p.busy ≡ true
    → p.open_count ≡ p.max_size
    → let p' = (return_full now i (o ∷ rest) p).1 in
      (p'.open_count ≡ p.open_count)
      × (length p'.free_new + length p'.free_used + length p'.busy
          ≡ length rest + length p.free_used + length p.busy)
unfolding return_full
full_lists now i o rest p q c m =
    let d = drop_conn_impl o (record p { free_new = rest }) in
    let same = drop_lists o (record p { free_new = rest }) in
    ground (arith, return_open_lists now i d, same)

-- The connections that the pool has for its callers or with them.
abbrev pub held_by : Pool → ℕ
held_by p = length p.free_new + length p.free_used + length p.busy

length-matching_used :
    (r i : ℕ) (rest : List ℕ) (p : Pool)
    → matching_used r p ≡ some (i, rest)
    → suc (length rest) ≡ length p.free_used
unfolding matching_used
length-matching_used r i rest p m =
    let short = length-take_matching (class_fits (p.request r) p) p.free_used i rest in
    ground (arith, short, m)

length-matching_new :
    (r i : ℕ) (rest : List ℕ) (p : Pool)
    → matching_new r p ≡ some (i, rest)
    → suc (length rest) ≡ length p.free_new
unfolding matching_new
length-matching_new r i rest p m =
    let short = length-pop_last p.free_new i rest in ground (arith, short, m)

dead_used :
    (p : Pool) (r i now : ℕ) (rest : List ℕ) (is_dead : ℕ → Bool)
    → (p.request r).raised_exception ≡ false
    → (p.request r).completed ≡ false
    → (p.request r).bg_processing ≡ false
    → matching_used r p ≡ some (i, rest)
    → is_dead i ≡ true
    → fulfill is_dead now r p
      ≡ (raised attribute_error, drop_conn_impl i (record p { free_used = rest }))
unfolding fulfill search_free use_used check_connection checked
dead_used p r i now rest is_dead x c b m d = ground (arith, m)

dead_new :
    (p : Pool) (r i now : ℕ) (rest : List ℕ) (is_dead : ℕ → Bool)
    → (p.request r).raised_exception ≡ false
    → (p.request r).completed ≡ false
    → (p.request r).bg_processing ≡ false
    → matching_used r p ≡ none
    → matching_new r p ≡ some (i, rest)
    → is_dead i ≡ true
    → fulfill is_dead now r p
      ≡ (raised attribute_error, drop_conn_impl i (record p { free_new = rest }))
unfolding fulfill search_free use_used use_new check_connection checked
dead_new p r i now rest is_dead x c b m n d = ground (arith, m, n)

-- The connection that the search of a request takes from the free ones, if it finds one.
abbrev pub taken : Option (ℕ × List ℕ) → Option (ℕ × List ℕ) → Option ℕ
taken (some (i, rest)) new = some i
taken none (some (i, rest)) = some i
taken none none = none

-- A request that has not failed, and is neither fulfilled nor being processed, takes a connection,
-- used or new, that is dead: the caller gets an AttributeError, the count of open connections stays
-- as it is, and the free and the busy connections are one fewer.
pub dead_connection :
    (p : Pool) (r i now : ℕ) (is_dead : ℕ → Bool)
    → (p.request r).raised_exception ≡ false
    → (p.request r).completed ≡ false
    → (p.request r).bg_processing ≡ false
    → taken (matching_used r p) (matching_new r p) ≡ some i
    → is_dead i ≡ true
    → let done = fulfill is_dead now r p in
      (done.0 ≡ raised attribute_error)
      × (done.1.open_count ≡ p.open_count)
      × (suc (held_by done.1) ≡ held_by p)
dead_connection p r i now is_dead x c b t d = elim (Option-cases (matching_used r p)) [
  | inr ((j, rest), m) ↦
      let same = drop_lists j (record p { free_used = rest }) in
      let e : j ≡ i = ground (arith, m, t) in
      let short = length-matching_used r j rest p m in
      rw (dead_used p r j now rest is_dead x c b m (rw e d))
        (refl, same.4, ground (arith, same, short))
  | inl m ↦ elim (Option-cases (matching_new r p)) [
    | inr ((j, rest), n) ↦
        let same = drop_lists j (record p { free_new = rest }) in
        let e : j ≡ i = ground (arith, m, n, t) in
        let short = length-matching_new r j rest p n in
        rw (dead_new p r j now rest is_dead x c b m n (rw e d))
          (refl, same.4, ground (arith, same, short))
    | inl n ↦ absurd (ground (arith, m, n, t))
  ]
]

-- An extra connection is returned to a pool that is just full, with a new connection unused and no
-- request waiting: the count stays as it is, but the pool has one connection fewer than before.
pub returned_extra :
    (p : Pool) (i o now : ℕ) (rest : List ℕ)
    → p.requests ≡ []
    → p.free_new ≡ o ∷ rest
    → contains i p.busy ≡ true
    → (p.connection i).has_transport ≡ true
    → (p.connection i).is_pool_extra ≡ true
    → p.open_count ≡ p.max_size
    → let p' = (return_connection now i p).1 in
      (p'.open_count ≡ p.open_count)
      × (suc (length p'.free_new + length p'.free_used + length p'.busy)
          ≡ length p.free_new + length p.free_used + length p.busy)
unfolding return_connection
returned_extra p i o now rest q f c t x m =
    let p1 = set_connection i (record (p.connection i) { is_pool_extra = false }) p in
    let full : return_connection now i p ≡ return_full now i (o ∷ rest) p1 = ground arith in
    let lists = full_lists now i o rest p1 q c m in
    rw full (lists.0, omega (arith, lists.1, ap length f))
