-- ===== src/Pool/Steps.antt =====
-- The threads that share the HTTP/2 pool, as interleaved steps: what one thread does while it holds
-- the pool's lock is one step. crates/rsproxy-net/src/upstream_h2.rs, upstream_h2/pool.rs and
-- upstream_h2/connection.rs.
pub mod Counted
pub mod Claims
pub mod Reachable
use rsproxy.Base.{
  ℕ, ◌+◌, ◌<◌, ◌≤◌, ◌≡◌, Bool, Option, none, some, List, [], ◌∷◌, ◌++◌, ◌==◌, if◌then◌else◌,
}
use rsproxy.Pool.Activity.{active_for}
use rsproxy.Pool.Http2.{
  H2Pool, H2PoolLease, PoolEntry, WaitResult, WaitRound, found, claimed, timed_out, waits,
  empty_pool, get, insert_entry, remove_if_generation, drop_lease, reserve_stream, evict_round,
  after_wait, wait_round,
}

-- The pool, `NEXT_CONNECTOR_GENERATION`, and the leases that are held.
pub record Upstream : Type 0 where
  pub pool : H2Pool
  pub next_generation : ℕ
  pub leases : List H2PoolLease

abbrev pub initial : Upstream
initial = record { pool = empty_pool; next_generation = 1; leases = [] }

abbrev pub new_lease : ℕ → H2PoolLease
new_lease key = record { key = key; connector_generation = none }

-- The lease of a thread whose round claimed the connector has the claim.
abbrev pub lease_after : WaitResult → H2PoolLease → H2PoolLease
lease_after (found entry) lease = lease
lease_after (claimed generation) lease = record lease { connector_generation = some generation }
lease_after timed_out lease = lease
lease_after waits lease = lease

abbrev pub waited : List H2PoolLease → H2PoolLease → List H2PoolLease → WaitRound → Upstream
waited before lease after round = record {
  pool = round.pool;
  next_generation = round.next_generation;
  leases = before ++ lease_after round.result lease ∷ after;
}

-- No request has a limit above `limit`.
module _ (limit : ℕ) where
  pub data Step : Upstream → Upstream → Type 0 where
    -- `dispatch` looks for an expired connection.
    probe : (s : Upstream) (now key : ℕ) → Step s (record s { pool = (get now key s.pool).0 })
    -- `acquire_slot` finds room below the limit that its request was given.
    acquire :
        (s : Upstream) (key own : ℕ)
        → own ≤ limit
        → active_for key s.pool.activity < own
        → Step s (record s { pool = reserve_stream key s.pool; leases = new_lease key ∷ s.leases })
    -- One round of `wait_for_entry_or_connector`, and what follows its wait.
    wait :
        (s : Upstream) (before : List H2PoolLease) (lease : H2PoolLease) (after : List H2PoolLease)
        (now elapsed later timeout : ℕ)
        → s.leases ≡ before ++ lease ∷ after
        → lease.connector_generation ≡ none
        → Step s (
            waited before lease after
              (wait_round now lease.key elapsed later timeout s.next_generation s.pool))
    wake :
        (s : Upstream) (now key : ℕ) (ran_out : Bool)
        → Step s (record s { pool = (after_wait now key ran_out s.pool).0 })
    -- `connect_sender`, by the lease that claimed the connector.
    connect :
        (s : Upstream) (before : List H2PoolLease) (lease : H2PoolLease) (after : List H2PoolLease)
        (generation : ℕ) (entry : PoolEntry)
        → s.leases ≡ before ++ lease ∷ after
        → lease.connector_generation ≡ some generation
        → Step s (record s { pool = insert_entry lease.key entry s.pool })
    -- `remove_pool_entry`, and a round of the task that evicts an idle connection.
    discard :
        (s : Upstream) (key generation : ℕ)
        → Step s (record s { pool = remove_if_generation key generation s.pool })
    sweep :
        (s : Upstream) (now key generation : ℕ)
        → Step s (record s { pool = (evict_round now key generation s.pool).0 })
    -- A lease is dropped.
    finish :
        (s : Upstream) (before : List H2PoolLease) (lease : H2PoolLease) (after : List H2PoolLease)
        → s.leases ≡ before ++ lease ∷ after
        → Step s (record s { pool = drop_lease lease s.pool; leases = before ++ after })

  pub data Reach : Upstream → Type 0 where
    start : Reach initial
    step : {s s' : Upstream} → Reach s → Step s s' → Reach s'

-- The leases of a key.
abbrev pub count : ℕ → List H2PoolLease → ℕ
count key [] = 0
count key (lease ∷ leases) = (if lease.key == key then 1 else 0) + count key leases
