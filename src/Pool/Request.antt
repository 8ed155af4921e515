-- ===== src/Pool/Request.antt =====
-- src/oracledb/impl/thin/pool.pyx: BaseThinPoolImpl._create_request and class PooledConnRequest.
use python_oracledb.Prelude.{
  ℕ, ◌+◌, ◌-◌, ◌^◌, ◌%◌, min, Bool, true, false, ◌&&◌, ◌||◌, List, [], ◌∷◌, ◌++◌, Option, none,
  some, ltb, leb, ◌==◌, if◌then◌else◌,
}
use python_oracledb.Prelude.Int.{ℤ, pos, negsuc}
use python_oracledb.Errors.{
  Error, Result, ok, err, attribute_error, pool_not_open, pool_no_connection_available,
  request_failed,
}
use python_oracledb.Pool.{
  Pool, PooledConnRequest, Cclass, GetMode, wait, nowait, forceget, timedwait, same_cclass, is_none,
  set_request, pop_last, add_request, drop_conn_impl,
}

-- `purity_new` says that the parameters ask for a new session.
unfoldable pub create_request : Cclass → Bool → Pool → PooledConnRequest
create_request cclass purity_new p = record {
  conn_impl = none;
  request_cclass = cclass;
  raised_exception = false;
  cclass_matches = is_none cclass || same_cclass cclass p.pool_cclass;
  requires_ping = false;
  wants_new = purity_new;
  bg_processing = false;
  is_extra = false;
  is_replacing = false;
  in_progress = false;
  completed = false;
  waiting = true;
}

-- The answer of `fulfill`, or the error that it raises.
pub data Reply : Type 0 where
  returned : Bool → Reply
  raised : Error → Reply

unfoldable pub wants_ping : ℤ → ℕ → Bool
wants_ping (pos n) elapsed = n == 0 || ltb n elapsed
wants_ping (negsuc n) elapsed = false

-- _check_connection at the time `now`. `is_dead` says that a control packet announced the end of the
-- connection. Then the request's own `_open_count` is decreased, an attribute that it does not have.
unfoldable pub check_connection : (ℕ → Bool) → ℕ → ℕ → ℕ → Pool → Option Error × Pool
unfolding drop_conn_impl wants_ping add_request
check_connection is_dead now r i p =
    let q = p.request r in
    let ping =
      q.requires_ping || wants_ping p.ping_interval (now - (p.connection i).time_in_pool) in
    let held = record q { conn_impl = some i; requires_ping = ping } in
    if is_dead i then (some attribute_error, drop_conn_impl i p) else (
      none,
      if ping
          then add_request r (set_request r held p)
          else record (set_request r (record held { completed = true }) p) {
            busy = p.busy ++ i ∷ [];
          },
    )

-- The answer after a check, which ends the search or raises.
unfoldable pub checked : ℕ → Option Error × Pool → Reply × Pool
checked r (some e, p) = (raised e, p)
checked r (none, p) = (returned ((p.request r).completed), p)

-- The last connection of the list whose class is wanted, and the list without it.
unfoldable pub take_matching : (ℕ → Bool) → List ℕ → Option (ℕ × List ℕ)
take_matching test [] = none
take_matching test (x ∷ xs) = elim (take_matching test xs) [
  | some (y, ys) ↦ some (y, x ∷ ys)
  | none ↦ if test x then some (x, xs) else none
]

unfoldable pub class_fits : PooledConnRequest → Pool → ℕ → Bool
class_fits q p i =
    is_none q.request_cclass || same_cclass ((p.connection i).cclass) q.request_cclass

unfoldable pub matching_used : ℕ → Pool → Option (ℕ × List ℕ)
unfolding take_matching class_fits
matching_used r p =
    if (p.request r).wants_new then none else take_matching (class_fits (p.request r) p) p.free_used

unfoldable pub matching_new : ℕ → Pool → Option (ℕ × List ℕ)
unfolding pop_last
matching_new r p = if (p.request r).cclass_matches then pop_last p.free_new else none

-- A connection that does not match is dropped, and the request asks for one in its place.
unfoldable pub replace : ℕ → ℕ → Pool → Pool
unfolding add_request
replace r i p =
    add_request r (record (set_request r (record (p.request r) { is_replacing = true }) p) {
      to_drop = p.to_drop ++ i ∷ [];
    })

unfoldable pub wait_or_raise : GetMode → ℕ → Pool → Reply × Pool
unfolding add_request
wait_or_raise nowait r p = (raised pool_no_connection_available, p)
wait_or_raise wait r p = (returned false, add_request r p)
wait_or_raise forceget r p = (returned false, add_request r p)
wait_or_raise timedwait r p = (returned false, add_request r p)

-- The pool is full, and no connection is free.
unfoldable pub full_reply : ℕ → Pool → Reply × Pool
unfolding add_request wait_or_raise
full_reply r p =
    let extra = set_request r (record (p.request r) { is_extra = true }) p in
    if p.force_get then (returned false, add_request r extra) else wait_or_raise p.getmode r p

unfoldable pub replace_used : Option (ℕ × List ℕ) → ℕ → Pool → Reply × Pool
unfolding replace full_reply
replace_used (some (i, rest)) r p = (returned false, replace r i (record p { free_used = rest }))
replace_used none r p = full_reply r p

unfoldable pub replace_new : Option (ℕ × List ℕ) → ℕ → Pool → Reply × Pool
unfolding replace replace_used pop_last
replace_new (some (i, rest)) r p = (returned false, replace r i (record p { free_new = rest }))
replace_new none r p = replace_used (pop_last p.free_used) r p

unfoldable pub when_full : ℕ → Pool → Reply × Pool
unfolding replace_new pop_last
when_full r p = replace_new (pop_last p.free_new) r p

-- The pool is asked to grow, if it is not growing.
unfoldable pub grow : ℕ → Pool → Pool
grow r p =
    if (p.request r).cclass_matches && p.num_to_create == 0
    then record p { num_to_create = min p.increment (p.max_size - p.open_count) }
    else p

unfoldable pub is_full : Pool → Bool
is_full p = leb p.max_size ((p.open_count + p.num_to_create) % 2 ^ 32)

unfoldable pub no_match : ℕ → Pool → Reply × Pool
unfolding when_full grow is_full add_request
no_match r p =
    let p' = set_request r (record (p.request r) { requires_ping = false }) p in
    if is_full p then when_full r p' else (returned false, add_request r (grow r p'))

unfoldable pub use_new : Option (ℕ × List ℕ) → (ℕ → Bool) → ℕ → ℕ → Pool → Reply × Pool
unfolding check_connection checked no_match
use_new (some (i, rest)) is_dead now r p =
    checked r (check_connection is_dead now r i (record p { free_new = rest }))
use_new none is_dead now r p = no_match r p

unfoldable pub use_used : Option (ℕ × List ℕ) → (ℕ → Bool) → ℕ → ℕ → Pool → Reply × Pool
unfolding check_connection checked use_new matching_new
use_used (some (i, rest)) is_dead now r p =
    checked r (check_connection is_dead now r i (record p { free_used = rest }))
use_used none is_dead now r p = use_new (matching_new r p) is_dead now r p

unfoldable pub search_free : (ℕ → Bool) → ℕ → ℕ → Pool → Reply × Pool
unfolding matching_used use_used
search_free is_dead now r p = use_used (matching_used r p) is_dead now r p

unfoldable pub fulfill : (ℕ → Bool) → ℕ → ℕ → Pool → Reply × Pool
unfolding search_free
fulfill is_dead now r p =
    let q = p.request r in
    if q.raised_exception
    then (raised request_failed, p)
    else if q.completed
    then (returned true, p)
    else if q.bg_processing
    then (returned false, p)
    else search_free is_dead now r p

-- The start of `acquire`, for parameters without a tag: the request is known as `r`.
unfoldable pub begin_acquire : ℕ → Cclass → Bool → Pool → Result Pool
unfolding create_request
begin_acquire r cclass purity_new p =
    if p.is_open
    then ok (set_request r (create_request cclass purity_new p) p)
    else err pool_not_open

-- The end of `acquire`, when the request is fulfilled, or the time is over, or `fulfill` has raised
-- the error `raised_error`.
unfoldable pub end_acquire : Option Error → ℕ → Pool → Result (Option ℕ) × Pool
end_acquire raised_error r p =
    let p' = set_request r (record (p.request r) { waiting = false }) p in
    elim raised_error [
      | some e ↦ (err e, p')
      | none ↦
          if (p.request r).completed
          then (ok (p.request r).conn_impl, p')
          else (err pool_no_connection_available, p')
    ]
