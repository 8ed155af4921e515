-- ===== src/Pool/Steps/Bound.antt =====
-- How far the count of a pool can pass its maximum.
use python_oracledb.Prelude.{
  ℕ, ◌+◌, ◌^◌, ◌≤◌, ◌<◌, ◌≡◌, refl, sym, ap, ◌⊎◌, inl, inr, arith, Bool, true, false, List, [], ◌∷◌,
  Option, none, some, ◌==◌, Bool-cases,
}
use python_oracledb.Prelude.Int.{ℤ}
use mathlib.Core.Path.{subst}
use python_oracledb.Errors.{Error}
use python_oracledb.Pool.{
  Pool, PooledConnRequest, Connection, Cclass, GetMode, set_request, increase, decrease, pred,
  check_timeout, new_pool,
}
use python_oracledb.Pool.Request.{fulfill}
use python_oracledb.Pool.Background.{
  can_process, first_request, get_next_request, count_created, place, count_lost, settle,
  post_process_request, Taker, gives, replaces, nobody, find_taker, give_new, post_create_conn_impl,
}
use python_oracledb.Pool.Steps.{
  Phase, idle, creating, processing, processed, ended, System, is_about, beyond, raced, loses,
  after_post,
}
use python_oracledb.Pool.Steps.Counts.{SameCounts, Tame, fulfill-Tame}
use python_oracledb.Pool.Steps.Others.{fulfill_other, fulfill_waits}
use python_oracledb.Pool.Steps.Leaving.{is_counted, Quiet}

-- The request can be recorded without passing the bound.
abbrev pub CanCount : ℕ → ℕ → Pool → Type 0
CanCount n r p = (is_counted (p.request r) ≡ true) ⊎ (p.open_count < n)

abbrev pub PhaseOk : ℕ → Phase → Pool → Type 0
PhaseOk n idle p = Unit {0}
PhaseOk n creating p = 0 < p.num_to_create
PhaseOk n (processing r) p = CanCount n r p
PhaseOk n (processed r) p = CanCount n r p
PhaseOk n ended p = Unit {0}

abbrev pub PoolOk : ℕ → Pool → Type 0
PoolOk n p =
    (p.open_count + p.num_to_create ≤ n)
    × (p.open_count < 2 ^ 32)
    × (p.min_size ≤ p.max_size)
    × (p.max_size ≤ n)

abbrev pub Bounded : ℕ → System → Type 0
Bounded n s = PoolOk n s.pool × PhaseOk n s.phase s.pool

Tame-PoolOk : (n : ℕ) (p p' : Pool) → Tame p p' → PoolOk n p → PoolOk n p'
Tame-PoolOk n p p' t b = ground arith

-- A quiet change for the request that is being processed.
pub Quiet-Bounded :
    (n : ℕ) (f : Phase) (p p' : Pool)
    → ((r : ℕ) → is_about f r ≡ true → Quiet r p p')
    → Tame p p'
    → PoolOk n p
    → PhaseOk n f p
    → PoolOk n p' × PhaseOk n f p'
Quiet-Bounded n idle p p' q t b h = (Tame-PoolOk n p p' t b, tt)
Quiet-Bounded n ended p p' q t b h = (Tame-PoolOk n p p' t b, tt)
Quiet-Bounded n creating p p' q t b h = (Tame-PoolOk n p p' t b, ground arith)
Quiet-Bounded n (processing r) p p' q t b h =
    let same : (r == r) ≡ true = ground arith in (Tame-PoolOk n p p' t b, ground (arith, q r same))
Quiet-Bounded n (processed r) p p' q t b h =
    let same : (r == r) ≡ true = ground arith in (Tame-PoolOk n p p' t b, ground (arith, q r same))

-- A tame change, and a step further from the maximum.
Tame-Bounded :
    (n : ℕ) (f : Phase) (p p' : Pool)
    → Tame p p'
    → PoolOk n p
    → PhaseOk n f p
    → PoolOk (n + 1) p' × PhaseOk (n + 1) f p'
Tame-Bounded n idle p p' t b h = ground arith
Tame-Bounded n ended p p' t b h = ground arith
Tame-Bounded n creating p p' t b h = ground arith
Tame-Bounded n (processing r) p p' t b h = ground arith
Tame-Bounded n (processed r) p p' t b h = ground arith

pub apart : (f : Phase) (j r : ℕ) → is_about f j ≡ true → is_about f r ≡ false → (j == r) ≡ false
apart idle j r a b = cc
apart creating j r a b = cc
apart ended j r a b = cc
apart (processing x) j r a b = ground arith
apart (processed x) j r a b = ground arith

module _ (n : ℕ) (is_dead : ℕ → Bool) (now r : ℕ) (s : System) (ok_s : Bounded n s) where
  try_elsewhere :
      is_about s.phase r ≡ false
      → PoolOk n (fulfill is_dead now r s.pool).1
        × PhaseOk n s.phase (fulfill is_dead now r s.pool).1
  try_elsewhere other =
      let t = fulfill-Tame is_dead now r s.pool ok_s.0.1 in
      Quiet-Bounded n s.phase s.pool (fulfill is_dead now r s.pool).1
        (λ j a.
          (t, ap is_counted (fulfill_other j r (apart s.phase j r a other) is_dead now s.pool)))
        t ok_s.0 ok_s.1

  pub try-Bounded :
      PoolOk (n + raced r s) (fulfill is_dead now r s.pool).1
      × PhaseOk (n + raced r s) s.phase (fulfill is_dead now r s.pool).1
  try-Bounded = elim (Bool-cases (is_about s.phase r)) [
    | inr other ↦
        let none_raced : n + raced r s ≡ n = ground arith in rw none_raced (try_elsewhere other)
    | inl mine ↦ elim (Bool-cases (s.pool.request r).bg_processing) [
      | inl busy_bg ↦
          let none_raced : n + raced r s ≡ n = ground arith in
          rw (none_raced, fulfill_waits is_dead now r s.pool busy_bg) ok_s
      | inr free_bg ↦
          let one_raced : n + raced r s ≡ n + 1 = ground arith in
          rw one_raced (
            Tame-Bounded n s.phase s.pool (fulfill is_dead now r s.pool).1
              (fulfill-Tame is_dead now r s.pool ok_s.0.1) ok_s.0 ok_s.1)
    ]
  ]

-- What holds when a request is picked.
abbrev pub Picked : ℕ → Pool → Pool → Type 0
Picked r p p' =
    (can_process (p.request r) p ≡ true)
    × SameCounts p p'
    × (is_counted (p'.request r) ≡ is_counted (p.request r))

mark-Picked :
    (x : ℕ) (p : Pool)
    → can_process (p.request x) p ≡ true
    → Picked x p (set_request x (record (p.request x) { in_progress = (p.request x).waiting }) p)
mark-Picked x p t =
    let same : (x == x) ≡ true = ground arith in (t, (refl, refl, refl, refl), rw same refl)

pub pick_lem :
    (rs : List ℕ) (p : Pool) (r : ℕ)
    → (first_request rs p).0 ≡ some r
    → Picked r p (first_request rs p).1
unfolding first_request
pick_lem [] p r e = cc
pick_lem (x ∷ rs) p r e = elim (Bool-cases (can_process (p.request x) p)) [
  | inl t ↦
      let first : (first_request (x ∷ rs) p).0 ≡ some x = simp t refl in
      let marked = set_request x (record (p.request x) { in_progress = (p.request x).waiting }) p in
      let second : (first_request (x ∷ rs) p).1 ≡ marked = simp t refl in
      let same : x ≡ r = cc in
      subst (λ y. Picked y p (first_request (x ∷ rs) p).1) same
        (subst (Picked x p) (sym second) (mark-Picked x p t))
  | inr f ↦ let first : (first_request (x ∷ rs) p).0 ≡ none = simp f refl in cc
]

pub Picked-Bounded :
    (n r : ℕ) (p p' : Pool)
    → PoolOk n p
    → Picked r p p'
    → PoolOk (n + beyond (p.request r)) p' × CanCount (n + beyond (p.request r)) r p'
unfolding can_process
Picked-Bounded n r p p' b k = ground arith

settle-PoolOk :
    (n r : ℕ) (p : Pool)
    → PoolOk n p
    → CanCount n r p
    → (loses (p.request r) ≡ false) ⊎ (0 < p.open_count)
    → PoolOk n (settle (p.request r) p)
unfolding settle count_created place count_lost increase decrease
settle-PoolOk n r p b h l = ground arith

pub post-Bounded :
    (n r : ℕ) (p : Pool)
    → PoolOk n p
    → CanCount n r p
    → (loses (p.request r) ≡ false) ⊎ (0 < p.open_count)
    → PoolOk n (post_process_request r p).1
unfolding post_process_request
post-Bounded n r p b h l = ground (arith, settle-PoolOk n r p b h l)

pub after_post-PhaseOk : (n : ℕ) (o : Option Error) (p : Pool) → PhaseOk n (after_post o) p
after_post-PhaseOk n none p = tt
after_post-PhaseOk n (some e) p = tt

give_new-SameCounts : (k : Taker) (i : ℕ) (p : Pool) → SameCounts p (give_new k i p)
unfolding give_new
give_new-SameCounts (gives r) i p = (refl, refl, refl, refl)
give_new-SameCounts (replaces r) i p = (refl, refl, refl, refl)
give_new-SameCounts nobody i p = (refl, refl, refl, refl)

pub born-PoolOk :
    (n i : ℕ) (p : Pool)
    → PoolOk n p
    → 0 < p.num_to_create
    → PoolOk n (post_create_conn_impl (some i) p)
unfolding post_create_conn_impl check_timeout increase
born-PoolOk n i p b h =
    let counted = record p {
      open_count = increase p.open_count;
      num_to_create = pred p.num_to_create;
    } in
    let k = find_taker counted.requests (counted.connection i) counted in
    ground (arith, give_new-SameCounts k i counted)

pub stillborn-PoolOk : (n : ℕ) (p : Pool) → PoolOk n p → PoolOk n (post_create_conn_impl none p)
unfolding post_create_conn_impl
stillborn-PoolOk n p b = ground arith

pub next_lem :
    (p : Pool) (r : ℕ) → (get_next_request p).0 ≡ some r → Picked r p (get_next_request p).1
unfolding get_next_request
next_lem p r e = pick_lem p.requests p r e

pub new_pool-PoolOk :
    (min_size max_size increment : ℕ) (cclass : Cclass) (getmode : GetMode) (timeout : ℕ)
    (ping_interval : ℤ) (connection : ℕ → Connection) (request : ℕ → PooledConnRequest)
    → min_size ≤ max_size
    → PoolOk max_size (
        new_pool min_size max_size increment cclass getmode timeout ping_interval connection
          request)
unfolding new_pool
new_pool-PoolOk min_size max_size increment cclass getmode timeout ping_interval connection request
      h =
    ground arith
