-- ===== src/Pool/Steps/Counts.antt =====
-- What each method does to the counts of the pool, and to the flags of a request.
use python_oracledb.Prelude.{
  ℕ, ◌+◌, ◌^◌, ◌≤◌, ◌<◌, ◌≡◌, refl, ◌∙◌, ◌⊎◌, inl, inr, arith, Bool, true, false, List, Option,
  none, some, Bool-cases,
}
use python_oracledb.Errors.{Error}
use python_oracledb.Pool.{
  Pool, PooledConnRequest, GetMode, wait, nowait, forceget, timedwait, set_request, check_timeout,
  drop_conn_impl, add_request, pop_last,
}
use python_oracledb.Pool.Request.{
  check_connection, checked, matching_used, matching_new, replace, wait_or_raise, full_reply,
  replace_used, replace_new, use_new, use_used, when_full, grow, is_full, no_match, search_free,
  fulfill,
}

-- The counts are the same.
abbrev pub SameCounts : Pool → Pool → Type 0
SameCounts p p' =
    (p'.max_size ≡ p.max_size)
    × (p'.min_size ≡ p.min_size)
    × (p'.open_count ≡ p.open_count)
    × (p'.num_to_create ≡ p.num_to_create)

-- A change of the pool after which the count has not grown, and the connections that are open or to
-- be made are no more than before or no more than the maximum; connections that are to be made are
-- still to be made.
abbrev pub Tame : Pool → Pool → Type 0
Tame p p' =
    (p'.max_size ≡ p.max_size)
    × (p'.min_size ≡ p.min_size)
    × (p'.open_count ≤ p.open_count)
    × ((p'.open_count + p'.num_to_create ≤ p.open_count + p.num_to_create)
        ⊎ (p'.open_count + p'.num_to_create ≤ p.max_size))
    × ((p.num_to_create ≡ 0) ⊎ (p'.num_to_create ≡ p.num_to_create))

pub SameCounts-Tame : (p p' : Pool) → SameCounts p p' → Tame p p'
SameCounts-Tame p p' (m, n, o, t) = (m, n, omega (arith, o), inl (omega (arith, o, t)), inr t)

pub drop_conn_impl-SameCounts : (i : ℕ) (p : Pool) → SameCounts p (drop_conn_impl i p)
unfolding drop_conn_impl
drop_conn_impl-SameCounts i p = ground arith

pub check_timeout-SameCounts : (p : Pool) → SameCounts p (check_timeout p)
unfolding check_timeout
check_timeout-SameCounts p = ground arith

check_connection-SameCounts :
    (is_dead : ℕ → Bool) (now r i : ℕ) (p : Pool)
    → SameCounts p (check_connection is_dead now r i p).1
unfolding check_connection
check_connection-SameCounts is_dead now r i p = ground (arith, drop_conn_impl-SameCounts i p)

checked-SameCounts :
    (r : ℕ) (p : Pool) (d : Option Error × Pool) → SameCounts p d.1 → SameCounts p (checked r d).1
unfolding checked
checked-SameCounts r p (none, p') c = c
checked-SameCounts r p (some e, p') c = c

add_request-SameCounts : (r : ℕ) (p : Pool) → SameCounts p (add_request r p)
unfolding add_request
add_request-SameCounts r p = (refl, refl, refl, refl)

wait_or_raise-SameCounts : (g : GetMode) (r : ℕ) (p : Pool) → SameCounts p (wait_or_raise g r p).1
unfolding wait_or_raise
wait_or_raise-SameCounts nowait r p = (refl, refl, refl, refl)
wait_or_raise-SameCounts wait r p = add_request-SameCounts r p
wait_or_raise-SameCounts forceget r p = add_request-SameCounts r p
wait_or_raise-SameCounts timedwait r p = add_request-SameCounts r p

full_reply-SameCounts : (r : ℕ) (p : Pool) → SameCounts p (full_reply r p).1
unfolding full_reply
full_reply-SameCounts r p =
    let extra = set_request r (record (p.request r) { is_extra = true }) p in
    ground (arith, wait_or_raise-SameCounts p.getmode r p, add_request-SameCounts r extra)

replace-SameCounts : (r i : ℕ) (p : Pool) → SameCounts p (replace r i p)
unfolding replace add_request
replace-SameCounts r i p = (refl, refl, refl, refl)

replace_used-SameCounts :
    (o : Option (ℕ × List ℕ)) (r : ℕ) (p : Pool) → SameCounts p (replace_used o r p).1
unfolding replace_used
replace_used-SameCounts (some (i, rest)) r p =
    replace-SameCounts r i (record p { free_used = rest })
replace_used-SameCounts none r p = full_reply-SameCounts r p

replace_new-SameCounts :
    (o : Option (ℕ × List ℕ)) (r : ℕ) (p : Pool) → SameCounts p (replace_new o r p).1
unfolding replace_new
replace_new-SameCounts (some (i, rest)) r p = replace-SameCounts r i (record p { free_new = rest })
replace_new-SameCounts none r p = replace_used-SameCounts (pop_last p.free_used) r p

when_full-SameCounts : (r : ℕ) (p : Pool) → SameCounts p (when_full r p).1
unfolding when_full
when_full-SameCounts r p = replace_new-SameCounts (pop_last p.free_new) r p

-- Only this branch asks for more connections: the pool is not full.
grow-Tame : (r : ℕ) (p : Pool) → p.open_count < 2 ^ 32 → is_full p ≡ false → Tame p (grow r p)
unfolding grow is_full
grow-Tame r p h f = ground arith

Tame-SameCounts : (p q s : Pool) → Tame p q → SameCounts q s → Tame p s
Tame-SameCounts p q s t c = ground arith

same_full : (r : ℕ) (q : PooledConnRequest) (p : Pool) → is_full (set_request r q p) ≡ is_full p
unfolding is_full
same_full r q p = refl

-- The request is tried: the pool grows only here.
no_match-Tame : (r : ℕ) (p : Pool) → p.open_count < 2 ^ 32 → Tame p (no_match r p).1
unfolding no_match
no_match-Tame r p h =
    let q = record (p.request r) { requires_ping = false } in
    let p' = set_request r q p in
    elim (Bool-cases (is_full p)) [
      | inl t ↦ rw t (SameCounts-Tame p (when_full r p').1 (when_full-SameCounts r p'))
      | inr f ↦
          let g : Tame p (grow r p') = grow-Tame r p' h (same_full r q p ∙ f) in
          rw f (
            Tame-SameCounts p (grow r p') (add_request r (grow r p')) g
              (add_request-SameCounts r (grow r p')))
    ]

use_new-Tame :
    (o : Option (ℕ × List ℕ)) (is_dead : ℕ → Bool) (now r : ℕ) (p : Pool)
    → p.open_count < 2 ^ 32
    → Tame p (use_new o is_dead now r p).1
unfolding use_new
use_new-Tame (some (i, rest)) is_dead now r p h =
    let q = record p { free_new = rest } in
    let d = check_connection is_dead now r i q in
    SameCounts-Tame p (checked r d).1
      (checked-SameCounts r q d (check_connection-SameCounts is_dead now r i q))
use_new-Tame none is_dead now r p h = no_match-Tame r p h

use_used-Tame :
    (o : Option (ℕ × List ℕ)) (is_dead : ℕ → Bool) (now r : ℕ) (p : Pool)
    → p.open_count < 2 ^ 32
    → Tame p (use_used o is_dead now r p).1
unfolding use_used
use_used-Tame (some (i, rest)) is_dead now r p h =
    let q = record p { free_used = rest } in
    let d = check_connection is_dead now r i q in
    SameCounts-Tame p (checked r d).1
      (checked-SameCounts r q d (check_connection-SameCounts is_dead now r i q))
use_used-Tame none is_dead now r p h = use_new-Tame (matching_new r p) is_dead now r p h

pub fulfill-Tame :
    (is_dead : ℕ → Bool) (now r : ℕ) (p : Pool)
    → p.open_count < 2 ^ 32
    → Tame p (fulfill is_dead now r p).1
unfolding fulfill search_free
fulfill-Tame is_dead now r p h = ground (arith, use_used-Tame (matching_used r p) is_dead now r p)
