-- ===== src/Pool/Http2.antt =====
-- crates/rsproxy-net/src/upstream_h2/pool.rs: `H2Pool`, connections by key with the least recently
-- used first in `order`, the active streams, and the claims of connectors. Times are in nanoseconds.
-- The sender of a connection belongs to the HTTP/2 library and is known by a number.
pub mod Order
pub mod Kept
use rsproxy.Base.{
  ℕ, ◌+◌, ◌-◌, Bool, true, false, not, ◌&&◌, Option, none, some, List, [], ◌∷◌, ◌++◌, ltb, leb,
  ◌==◌, if◌then◌else◌, is_some, is_none, length, filter,
}
use rsproxy.Base.Words.{wrap_add}
use rsproxy.Base.Assoc.{lookup, insert, remove}
use rsproxy.Pool.Activity.{KeyedActivity, active_for, reserve, release}

abbrev pub h2_pool_idle_ttl : ℕ
h2_pool_idle_ttl = 60000000000

abbrev pub h2_pool_capacity : ℕ
h2_pool_capacity = 256

pub record H2PoolLease : Type 0 where
  pub key : ℕ
  pub connector_generation : Option ℕ

pub record PoolEntry : Type 0 where
  pub generation : ℕ
  pub sender : ℕ
  pub last_used : ℕ

pub record H2Pool : Type 0 where
  pub entries : List (ℕ × PoolEntry)
  pub order : List ℕ
  pub activity : KeyedActivity
  pub connecting : List (ℕ × ℕ)

abbrev pub empty_pool : H2Pool
empty_pool = record { entries = []; order = []; activity = []; connecting = [] }

-- `order.retain(|seen| seen != key)`.
abbrev pub retain_others : ℕ → List ℕ → List ℕ
retain_others key order = filter (λ seen. not (seen == key)) order

abbrev pub touch : ℕ → H2Pool → H2Pool
touch key pool = record pool { order = retain_others key pool.order ++ key ∷ [] }

-- An entry is taken out, with its place in the order.
abbrev pub take_out : ℕ → H2Pool → H2Pool
take_out key pool = record pool {
  entries = remove key pool.entries;
  order = retain_others key pool.order;
}

-- Idle for so long, and without a stream.
abbrev pub is_idle : ℕ → ℕ → PoolEntry → H2Pool → Bool
is_idle now key entry pool =
    leb h2_pool_idle_ttl (now - entry.last_used) && active_for key pool.activity == 0

unfoldable pub get : ℕ → ℕ → H2Pool → H2Pool × Option PoolEntry
unfolding lookup remove insert active_for
get now key pool = elim (lookup key pool.entries) [
  | none ↦ (pool, none)
  | some entry ↦
      if is_idle now key entry pool
      then (take_out key pool, none)
      else (let used = record entry { last_used = now } in
          (touch key (record pool { entries = insert key used pool.entries }), some used))
]

-- The loop of `insert` that makes room, on the order and the entries.
unfoldable pub make_room : List ℕ → List (ℕ × PoolEntry) → List ℕ × List (ℕ × PoolEntry)
unfolding remove
make_room [] entries = ([], entries)
make_room (oldest ∷ order) entries =
    let rest = make_room order (remove oldest entries) in
    if leb h2_pool_capacity (length entries) then rest else (oldest ∷ order, entries)

-- `insert` for a key that has no entry.
abbrev pub add_entry : ℕ → PoolEntry → H2Pool → List ℕ × List (ℕ × PoolEntry) → H2Pool
add_entry key entry pool (order, entries) = record pool {
  entries = insert key entry entries;
  order = order ++ key ∷ [];
}

-- `insert`.
unfoldable pub insert_entry : ℕ → PoolEntry → H2Pool → H2Pool
unfolding remove lookup insert make_room
insert_entry key entry pool =
    let claimed = record pool { connecting = remove key pool.connecting } in
    elim (lookup key pool.entries) [
      | some old ↦ touch key (record claimed { entries = insert key entry pool.entries })
      | none ↦ add_entry key entry claimed (make_room pool.order pool.entries)
    ]

unfoldable pub remove_if_generation : ℕ → ℕ → H2Pool → H2Pool
unfolding lookup remove
remove_if_generation key generation pool = elim (lookup key pool.entries) [
  | none ↦ pool
  | some entry ↦ if entry.generation == generation then take_out key pool else pool
]

-- `claim_connector`, with `NEXT_CONNECTOR_GENERATION`: the claim and the next generation.
unfoldable pub claim_connector : ℕ → ℕ → H2Pool → H2Pool × (ℕ × Option ℕ)
unfolding lookup insert
claim_connector key next pool = elim (lookup key pool.connecting) [
  | some generation ↦ (pool, (next, none))
  | none ↦
      (record pool { connecting = insert key next pool.connecting }, (wrap_add next 1, some next))
]

abbrev pub holds : Option ℕ → ℕ → Bool
holds none generation = false
holds (some held) generation = held == generation

unfoldable pub cancel_connector : ℕ → ℕ → H2Pool → H2Pool
unfolding lookup remove
cancel_connector key generation pool =
    if holds (lookup key pool.connecting) generation
    then (record pool { connecting = remove key pool.connecting })
    else pool

abbrev pub reserve_stream : ℕ → H2Pool → H2Pool
reserve_stream key pool = record pool { activity = reserve key pool.activity }

abbrev pub release_stream : ℕ → H2Pool → H2Pool
release_stream key pool = record pool { activity = release key pool.activity }

-- `H2PoolLease::drop`.
unfoldable pub drop_lease : H2PoolLease → H2Pool → H2Pool
unfolding release cancel_connector
drop_lease lease pool = elim lease.connector_generation [
  | none ↦ release_stream lease.key pool
  | some generation ↦ cancel_connector lease.key generation (release_stream lease.key pool)
]

-- One round of the task of `spawn_idle_eviction`, and whether it goes on.
unfoldable pub evict_round : ℕ → ℕ → ℕ → H2Pool → H2Pool × Bool
unfolding lookup active_for remove_if_generation
evict_round now key generation pool = elim (lookup key pool.entries) [
  | none ↦ (pool, false)
  | some entry ↦
      if not (entry.generation == generation)
      then (pool, false)
      else if is_idle now key entry pool
      then (remove_if_generation key generation pool, false)
      else (pool, true)
]

pub data WaitResult : Type 0 where
  found : PoolEntry → WaitResult
  claimed : ℕ → WaitResult
  timed_out waits : WaitResult

pub record WaitRound : Type 0 where
  pub pool : H2Pool
  pub next_generation : ℕ
  pub result : WaitResult

-- The end of a round, once the connector was claimed or not.
abbrev pub after_claim : ℕ → ℕ → H2Pool × (ℕ × Option ℕ) → WaitRound
after_claim later timeout (pool, (next, some generation)) = record {
  pool = pool;
  next_generation = next;
  result = claimed generation;
}
after_claim later timeout (pool, (next, none)) = record {
  pool = pool;
  next_generation = next;
  result = if ltb timeout later then timed_out else waits;
}

abbrev pub after_get : ℕ → ℕ → ℕ → ℕ → ℕ → H2Pool × Option PoolEntry → WaitRound
after_get key elapsed later timeout next (pool, some entry) = record {
  pool = pool;
  next_generation = next;
  result = found entry;
}
after_get key elapsed later timeout next (pool, none) =
    if leb timeout elapsed
    then (record { pool = pool; next_generation = next; result = timed_out })
    else after_claim later timeout (claim_connector key next pool)

-- One round of the loop of `wait_for_entry_or_connector` up to its wait. The time since the start is
-- read twice, `elapsed` and `later`.
unfoldable pub wait_round : ℕ → ℕ → ℕ → ℕ → ℕ → ℕ → H2Pool → WaitRound
unfolding get claim_connector
wait_round now key elapsed later timeout next pool =
    after_get key elapsed later timeout next (get now key pool)

abbrev pub gives_up : ℕ → H2Pool × Option PoolEntry → H2Pool × Bool
gives_up key (pool, entry) = (pool, is_none entry && is_some (lookup key pool.connecting))

-- What follows the wait, and whether it gives up.
unfoldable pub after_wait : ℕ → ℕ → Bool → H2Pool → H2Pool × Bool
unfolding get lookup
after_wait now key ran_out pool = if ran_out then gives_up key (get now key pool) else (pool, false)
