-- ===== src/Pool.antt =====
-- src/oracledb/impl/thin/pool.pyx: the state of class BaseThinPoolImpl, of its connections and of
-- class PooledConnRequest, and the methods that the others call.
-- Connections and requests are shared: each is a number, and the pool has the fields of all of them.
-- Every method here runs under the lock of the pool; what happens between two of them is a step of
-- Pool/Steps. A method that raises keeps the changes that it has made.
pub mod Background
pub mod Request
pub mod Return
pub mod Steps
pub mod Faults
pub mod Expiry
pub mod Reuse
pub mod Race
pub mod Classes
pub mod Queueing
use python_oracledb.Prelude.{
  ℕ, ◌+◌, ◌-◌, ◌^◌, ◌%◌, Bool, true, false, not, ◌&&◌, ◌||◌, List, [], ◌∷◌, ◌++◌, Option, none,
  some, ltb, ◌==◌, if◌then◌else◌,
}
use python_oracledb.Prelude.Int.{ℤ}
use python_oracledb.Errors.{Error}

pub data GetMode : Type 0 where
  wait nowait forceget timedwait : GetMode

-- A connection class is known by a number.
abbrev pub Cclass : Type 0
Cclass = Option ℕ

abbrev pub same_cclass : Cclass → Cclass → Bool
same_cclass none none = true
same_cclass none (some y) = false
same_cclass (some x) none = false
same_cclass (some x) (some y) = x == y

abbrev pub is_none {ℓ} : {A : Type ℓ} → Option A → Bool
is_none none = true
is_none (some a) = false

-- `has_transport` says that the transport is not None.
pub record Connection : Type 0 where
  pub cclass : Cclass
  pub time_in_pool : ℕ
  pub is_pool_extra : Bool
  pub invoke_session_callback : Bool
  pub has_transport : Bool
  pub in_pool : Bool

pub record PooledConnRequest : Type 0 where
  pub conn_impl : Option ℕ
  pub request_cclass : Cclass
  pub raised_exception : Bool
  pub cclass_matches : Bool
  pub requires_ping : Bool
  pub wants_new : Bool
  pub bg_processing : Bool
  pub is_extra : Bool
  pub is_replacing : Bool
  pub in_progress : Bool
  pub completed : Bool
  pub waiting : Bool

pub record Pool : Type 0 where
  pub min_size : ℕ
  pub max_size : ℕ
  pub increment : ℕ
  pub pool_cclass : Cclass
  pub getmode : GetMode
  pub force_get : Bool
  pub timeout : ℕ
  pub ping_interval : ℤ
  pub is_open : Bool
  pub timeout_task : Bool
  pub open_count : ℕ
  pub num_to_create : ℕ
  pub free_new : List ℕ
  pub free_used : List ℕ
  pub busy : List ℕ
  pub to_drop : List ℕ
  pub requests : List ℕ
  pub connection : ℕ → Connection
  pub request : ℕ → PooledConnRequest

abbrev pub update {ℓ} : {A : Type ℓ} → ℕ → A → (ℕ → A) → ℕ → A
update i a f j = if j == i then a else f j

abbrev pub set_connection : ℕ → Connection → Pool → Pool
set_connection i c p = record p { connection = update i c p.connection }

abbrev pub set_request : ℕ → PooledConnRequest → Pool → Pool
set_request r q p = record p { request = update r q p.request }

-- `+= 1` and `-= 1` on a `uint32_t`.
unfoldable pub increase : ℕ → ℕ
increase n = (n + 1) % 2 ^ 32

unfoldable pub decrease : ℕ → ℕ
decrease n = (n + (2 ^ 32 - 1)) % 2 ^ 32

abbrev pub pred : ℕ → ℕ
pred n = if ltb 0 n then n - 1 else n

-- `list.remove`, where the value is in the list.
unfoldable pub remove : ℕ → List ℕ → List ℕ
remove x [] = []
remove x (y ∷ ys) = let rest = remove x ys in if y == x then ys else y ∷ rest

unfoldable pub contains : ℕ → List ℕ → Bool
contains x [] = false
contains x (y ∷ ys) = y == x || contains x ys

-- The last element, and the list without it.
unfoldable pub pop_last : List ℕ → Option (ℕ × List ℕ)
pop_last [] = none
pop_last (x ∷ xs) = elim (pop_last xs) [ none ↦ some (x, []) | some (y, ys) ↦ some (y, x ∷ ys) ]

-- What a method leaves: the error that it raised, and the pool.
abbrev pub Done : Type 0
Done = Option Error × Pool

-- _add_request. The background task is notified, which changes no state.
unfoldable pub add_request : ℕ → Pool → Pool
add_request r p =
    record (set_request r (record (p.request r) { bg_processing = true; completed = false }) p) {
      requests = p.requests ++ r ∷ [];
    }

-- _drop_conn_impl.
unfoldable pub drop_conn_impl : ℕ → Pool → Pool
drop_conn_impl i p =
    let p' = set_connection i (record (p.connection i) { in_pool = false }) p in
    if (p.connection i).has_transport then record p' { to_drop = p.to_drop ++ i ∷ [] } else p'

-- _check_timeout; the task is started.
unfoldable pub check_timeout : Pool → Pool
check_timeout p =
    if p.is_open && not p.timeout_task && ltb 0 p.timeout && ltb p.min_size p.open_count
    then record p { timeout_task = true }
    else p

-- The state that __init__ leaves, for a pool whose parameters are given; `getmode` is set by
-- set_getmode.
unfoldable pub new_pool :
    ℕ → ℕ → ℕ → Cclass → GetMode → ℕ → ℤ → (ℕ → Connection) → (ℕ → PooledConnRequest) → Pool
new_pool min_size max_size increment cclass getmode timeout ping_interval connection request =
    record {
      min_size = min_size;
      max_size = max_size;
      increment = increment;
      pool_cclass = cclass;
      getmode = getmode;
      force_get = elim getmode [ forceget ↦ true | _ ↦ false ];
      timeout = timeout;
      ping_interval = ping_interval;
      is_open = true;
      timeout_task = false;
      open_count = 0;
      num_to_create = min_size;
      free_new = [];
      free_used = [];
      busy = [];
      to_drop = [];
      requests = [];
      connection = connection;
      request = request;
    }
