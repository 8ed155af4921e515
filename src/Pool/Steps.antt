-- ===== src/Pool/Steps.antt =====
-- The steps of a pool: what the background task does between two uses of the lock, and what the
-- callers and the timer do in between, in any order. A notification changes no state, so a waiting
-- request may be tried at any time; that the task stops when the pool is closed is not required.
pub mod Counts
pub mod Others
pub mod Leaving
pub mod Bound
pub mod Runs
use python_oracledb.Prelude.{
  ℕ, ◌+◌, ◌-◌, ◌<◌, ◌≡◌, ◌⊎◌, Bool, true, false, not, ◌&&◌, ◌||◌, Option, none, some, ◌==◌,
  if◌then◌else◌,
}
use python_oracledb.Errors.{Error}
use python_oracledb.Pool.{
  Pool, PooledConnRequest, Connection, Cclass, set_request, set_connection, is_none,
}
use python_oracledb.Pool.Request.{create_request, fulfill}
use python_oracledb.Pool.Background.{
  get_next_request, process_ping, process_created, process_failed, post_process_request,
  post_create_conn_impl, drop_conn_impls,
}
use python_oracledb.Pool.Return.{return_connection, drop, process_timeout, close}

-- What the background task is doing while it does not have the lock. After an error it has ended.
pub data Phase : Type 0 where
  idle : Phase
  creating : Phase
  processing : ℕ → Phase
  processed : ℕ → Phase
  ended : Phase

pub record System : Type 0 where
  pub pool : Pool
  pub phase : Phase

abbrev pub is_about : Phase → ℕ → Bool
is_about idle r = false
is_about creating r = false
is_about (processing x) r = x == r
is_about (processed x) r = x == r
is_about ended r = false

-- A request that nobody waits for, or that asks for a connection beyond the maximum.
abbrev pub beyond : PooledConnRequest → ℕ
beyond q = if not q.waiting || q.is_extra then 1 else 0

-- A request that is tried when it has been processed and its processing is not recorded.
abbrev pub raced : ℕ → System → ℕ
raced r s = if is_about s.phase r && not ((s.pool.request r).bg_processing) then 1 else 0

-- The connection of the request did not answer its ping.
abbrev pub loses : PooledConnRequest → Bool
loses q = is_none q.conn_impl && q.requires_ping

abbrev pub after_post : Option Error → Phase
after_post none = idle
after_post (some e) = ended

-- One step; `k` counts those by which the pool may pass its maximum. Where a connection leaves the
-- pool, the count includes it.
pub data Step (k : ℕ) (s t : System) : Type 0 where
  ask :
      (r : ℕ) (cclass : Cclass) (purity_new : Bool)
      → is_about s.phase r ≡ false
      → t ≡ record s { pool = set_request r (create_request cclass purity_new s.pool) s.pool }
      → Step k s t
  try :
      (is_dead : ℕ → Bool) (now r : ℕ)
      → k ≡ raced r s
      → t ≡ record s { pool = (fulfill is_dead now r s.pool).1 }
      → Step k s t
  leave :
      (r : ℕ)
      → t ≡ record s { pool = set_request r (record (s.pool.request r) { waiting = false }) s.pool }
      → Step k s t
  pick :
      (r : ℕ)
      → s.phase ≡ idle
      → (get_next_request s.pool).0 ≡ some r
      → k ≡ beyond (s.pool.request r)
      → t ≡ record { pool = (get_next_request s.pool).1; phase = processing r }
      → Step k s t
  ping :
      (r : ℕ) (answer : Bool)
      → s.phase ≡ processing r
      → (s.pool.request r).requires_ping ≡ true
      → t ≡ record { pool = process_ping answer r s.pool; phase = processed r }
      → Step k s t
  connect :
      (r i : ℕ) (c : Connection)
      → s.phase ≡ processing r
      → t ≡ record { pool = process_created i c r s.pool; phase = processed r }
      → Step k s t
  refuse :
      (r : ℕ)
      → s.phase ≡ processing r
      → t ≡ record { pool = process_failed r s.pool; phase = processed r }
      → Step k s t
  record_it :
      (r : ℕ)
      → s.phase ≡ processed r
      → (loses (s.pool.request r) ≡ false) ⊎ (0 < s.pool.open_count)
      → t ≡ record {
        pool = (post_process_request r s.pool).1;
        phase = after_post (post_process_request r s.pool).0;
      }
      → Step k s t
  grow : s.phase ≡ idle → 0 < s.pool.num_to_create → t ≡ record s { phase = creating } → Step k s t
  born :
      (i : ℕ) (c : Connection)
      → s.phase ≡ creating
      → t
        ≡ record { pool = post_create_conn_impl (some i) (set_connection i c s.pool); phase = idle }
      → Step k s t
  stillborn :
      s.phase ≡ creating
      → t ≡ record { pool = post_create_conn_impl none s.pool; phase = idle }
      → Step k s t
  clean : t ≡ record s { pool = drop_conn_impls s.pool } → Step k s t
  give_back :
      (now i : ℕ)
      → 0 < s.pool.open_count
      → t ≡ record s { pool = (return_connection now i s.pool).1 }
      → Step k s t
  discard : (i : ℕ) → 0 < s.pool.open_count → t ≡ record s { pool = (drop i s.pool).1 } → Step k s t
  expire : (now : ℕ) → t ≡ record s { pool = process_timeout now s.pool } → Step k s t
  shut : (force : Bool) → t ≡ record s { pool = (close force s.pool).1 } → Step k s t

-- Runs from `s`, with the number of steps by which the pool may pass its maximum.
pub data Reach (s : System) : ℕ → System → Type 0 where
  here : Reach s 0 s
  next : {n k m : ℕ} {t u : System} → Reach s n t → Step k t u → m ≡ n + k → Reach s m u
