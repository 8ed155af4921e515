-- ===== src/Pool/Steps/Runs.antt =====
-- Every run keeps the count within the bound.
use python_oracledb.Prelude.{ℕ, ◌+◌, ◌≤◌, ◌≡◌, refl, sym, arith, Bool, true, false, none, some}
use mathlib.Core.Path.{subst}
use python_oracledb.Prelude.Int.{ℤ}
use python_oracledb.Pool.{
  Pool, PooledConnRequest, Connection, Cclass, GetMode, set_request, set_connection, new_pool,
}
use python_oracledb.Pool.Request.{create_request}
use python_oracledb.Pool.Background.{
  get_next_request, force_close, process_ping, close_old, process_created, process_failed,
  post_process_request, post_create_conn_impl, drop_conn_impls,
}
use python_oracledb.Pool.Return.{return_connection, drop, process_timeout, close}
use python_oracledb.Pool.Steps.{
  Phase, idle, creating, processing, processed, ended, System, Step, Reach, is_about, ask, try,
  leave, pick, ping, connect, refuse, record_it, grow, born, stillborn, clean, give_back, discard,
  expire, shut, here, next,
}
use python_oracledb.Pool.Steps.Counts.{Tame, SameCounts-Tame}
use python_oracledb.Pool.Steps.Leaving.{
  Quiet, return_connection-Quiet, drop-Quiet, process_timeout-Quiet, close-Quiet,
  drop_conn_impls-Quiet,
}
use python_oracledb.Pool.Steps.Bound.{
  apart, CanCount, PhaseOk, PoolOk, Bounded, Quiet-Bounded, try-Bounded, next_lem, new_pool-PoolOk,
  Picked-Bounded, post-Bounded, after_post-PhaseOk, born-PoolOk, stillborn-PoolOk,
}

weaken_pool : (n k : ℕ) (p : Pool) → PoolOk n p → PoolOk (n + k) p
weaken_pool n k p b = omega arith

weaken : (n k : ℕ) (f : Phase) (p : Pool) → PhaseOk n f p → PhaseOk (n + k) f p
weaken n k idle p h = tt
weaken n k creating p h = h
weaken n k (processing r) p h = ground arith
weaken n k (processed r) p h = ground arith
weaken n k ended p h = tt

-- A step that leaves the phase alone and is quiet for every request.
quiet_step :
    (n k : ℕ) (s : System) (p' : Pool)
    → Bounded n s
    → ((r : ℕ) → is_about s.phase r ≡ true → Quiet r s.pool p')
    → Tame s.pool p'
    → Bounded (n + k) (record s { pool = p' })
quiet_step n k s p' b q t =
    let (a, h) = Quiet-Bounded n s.phase s.pool p' q t b.0 b.1 in
    (weaken_pool n k p' a, weaken n k s.phase p' h)

ask-Quiet :
    (f : Phase) (r j : ℕ) (q : PooledConnRequest) (p : Pool)
    → is_about f r ≡ false
    → is_about f j ≡ true
    → Quiet j p (set_request r q p)
ask-Quiet f r j q p a b = let e = apart f j r b a in ground arith

leave-Quiet :
    (r j : ℕ) (p : Pool) → Quiet j p (set_request r (record (p.request r) { waiting = false }) p)
leave-Quiet r j p = ground arith

ping-Quiet : (r j : ℕ) (answer : Bool) (p : Pool) → Quiet j p (process_ping answer r p)
unfolding process_ping force_close
ping-Quiet r j answer p = ground arith

connect-Quiet : (r j i : ℕ) (c : Connection) (p : Pool) → Quiet j p (process_created i c r p)
unfolding process_created close_old force_close
connect-Quiet r j i c p = ground arith

refuse-Quiet : (r j : ℕ) (p : Pool) → Quiet j p (process_failed r p)
unfolding process_failed
refuse-Quiet r j p = ground arith

-- One step further in the phase, for the request that is processed.
advance :
    (n k r : ℕ) (s : System) (p' : Pool)
    → s.phase ≡ processing r
    → Quiet r s.pool p'
    → Bounded n s
    → Bounded (n + k) (record { pool = p'; phase = processed r })
advance n k r s p' e q (b, h) = let here_r : CanCount n r s.pool = rw e at h in ground arith

at_phase : (n : ℕ) (s : System) (f : Phase) → s.phase ≡ f → Bounded n s → PhaseOk n f s.pool
at_phase n s f e b = subst (λ g. PhaseOk n g s.pool) e b.1

reached : (n : ℕ) (t u : System) → t ≡ u → Bounded n u → Bounded n t
reached n t u e b = subst (Bounded n) (sym e) b

Step-Bounded : (n k : ℕ) (s t : System) → Step k s t → Bounded n s → Bounded (n + k) t
Step-Bounded n k s t (ask r cclass purity a e) b =
    let q = create_request cclass purity s.pool in
    reached (n + k) t _ e (
      quiet_step n k s (set_request r q s.pool) b (λ j c. ask-Quiet s.phase r j q s.pool a c)
        (SameCounts-Tame s.pool (set_request r q s.pool) (refl, refl, refl, refl)))
Step-Bounded n k s t (try is_dead now r c e) b =
    reached (n + k) t _ e (rw c (try-Bounded n is_dead now r s b))
Step-Bounded n k s t (leave r e) b = reached (n + k) t _ e (
    quiet_step n k s (set_request r (record (s.pool.request r) { waiting = false }) s.pool) b
      (λ j _. leave-Quiet r j s.pool) ((leave-Quiet r 0 s.pool).0))
Step-Bounded n k s t (pick r f g c e) b =
    reached (n + k) t _ e
      (rw c (Picked-Bounded n r s.pool (get_next_request s.pool).1 b.0 (next_lem s.pool r g)))
Step-Bounded n k s t (ping r answer f g e) b =
    reached (n + k) t _ e
      (advance n k r s (process_ping answer r s.pool) f (ping-Quiet r r answer s.pool) b)
Step-Bounded n k s t (connect r i c f e) b =
    reached (n + k) t _ e
      (advance n k r s (process_created i c r s.pool) f (connect-Quiet r r i c s.pool) b)
Step-Bounded n k s t (refuse r f e) b =
    reached (n + k) t _ e (advance n k r s (process_failed r s.pool) f (refuse-Quiet r r s.pool) b)
Step-Bounded n k s t (record_it r f g e) b = reached (n + k) t _ e (
  weaken_pool n k (post_process_request r s.pool).1
      (post-Bounded n r s.pool b.0 (at_phase n s (processed r) f b) g),
  after_post-PhaseOk (n + k) (post_process_request r s.pool).0 (post_process_request r s.pool).1,
)
Step-Bounded n k s t (grow f g e) b = reached (n + k) t _ e (weaken_pool n k s.pool b.0, g)
Step-Bounded n k s t (born i c f e) b = reached (n + k) t _ e (
  weaken_pool n k (post_create_conn_impl (some i) (set_connection i c s.pool))
      (born-PoolOk n i (set_connection i c s.pool) b.0 (at_phase n s creating f b)),
  tt,
)
Step-Bounded n k s t (stillborn f e) b =
    reached (n + k) t _ e
      (weaken_pool n k (post_create_conn_impl none s.pool) (stillborn-PoolOk n s.pool b.0), tt)
Step-Bounded n k s t (clean e) b = reached (n + k) t _ e (
    quiet_step n k s (drop_conn_impls s.pool) b (λ j _. drop_conn_impls-Quiet j s.pool)
      ((drop_conn_impls-Quiet 0 s.pool).0))
Step-Bounded n k s t (give_back now i g e) b = reached (n + k) t _ e (
    quiet_step n k s (return_connection now i s.pool).1 b
      (λ j _. return_connection-Quiet j now i s.pool g b.0.1)
      ((return_connection-Quiet 0 now i s.pool g b.0.1).0))
Step-Bounded n k s t (discard i g e) b = reached (n + k) t _ e (
    quiet_step n k s (drop i s.pool).1 b (λ j _. drop-Quiet j i s.pool g b.0.1)
      ((drop-Quiet 0 i s.pool g b.0.1).0))
Step-Bounded n k s t (expire now e) b = reached (n + k) t _ e (
    quiet_step n k s (process_timeout now s.pool) b
      (λ j _. process_timeout-Quiet j now s.pool b.0.1)
      ((process_timeout-Quiet 0 now s.pool b.0.1).0))
Step-Bounded n k s t (shut force e) b = reached (n + k) t _ e (
    quiet_step n k s (close force s.pool).1 b (λ j _. close-Quiet j force s.pool)
      ((close-Quiet 0 force s.pool).0))

Reach-Bounded :
    (b : ℕ) (s : System) (n : ℕ) (t : System) → Bounded b s → Reach s n t → Bounded (b + n) t
Reach-Bounded b s n t h here = (weaken_pool b 0 s.pool h.0, weaken b 0 s.phase s.pool h.1)
Reach-Bounded b s m t h (next {n = n} {k = k} {t = u} r st e) =
    let total : b + m ≡ b + n + k = omega arith in
    rw total (Step-Bounded (b + n) k u t st (Reach-Bounded b s n u h r))

-- For a new pool with a minimum of at most its maximum, and every run of its background task, its
-- callers and its timer in any order, in which a connection leaves the pool only while the count is
-- not 0: the open connections and those to be made are together at most the maximum and
-- the number `n` of exceptional steps. These are the requests that the task picks after
-- their callers have left, the requests for extra connections, and the requests that are tried again
-- between their processing and its recording.
pub open_count_bound :
    (min_size max_size increment : ℕ) (cclass : Cclass) (getmode : GetMode) (timeout : ℕ)
    (ping_interval : ℤ) (connection : ℕ → Connection) (request : ℕ → PooledConnRequest) (n : ℕ)
    (t : System)
    → min_size ≤ max_size
    → Reach
        (record {
          pool =
              new_pool min_size max_size increment cclass getmode timeout ping_interval connection
                request;
          phase = idle;
        })
        n
        t
    → t.pool.open_count + t.pool.num_to_create ≤ max_size + n
open_count_bound min_size max_size increment cclass getmode timeout ping_interval connection request
      n t h r =
    let b =
      new_pool-PoolOk min_size max_size increment cclass getmode timeout ping_interval connection
        request h in
    (Reach-Bounded max_size _ n t (b, tt) r).0.0
