-- ===== src/Trace/Memory.antt =====
-- `MemoryStore` of crates/rsproxy-trace/src/store/memory.rs: the completed sessions that stay in
-- memory, oldest first, under a limit on their number and on the bytes that they are charged for.
-- A shared `Arc<Session>` is its value; a cloned session is the session.
pub mod Evict
pub mod Bounds
pub mod Queries
pub mod Survives
use mathlib.Core.List.{reverse}
use mathlib.Core.Option
use rsproxy.Base.{
  ℕ, zero, suc, ◌+◌, ◌<◌, min, ◌≡◌, Bool, true, false, not, ◌&&◌, ◌||◌, Option, none, some, List,
  [], ◌∷◌, ◌++◌, map, length, take, filter, find, leb, ltb, ◌==◌, if◌then◌else◌,
}
use rsproxy.Base.Words.{sat_add, sat_sub}
use rsproxy.Trace.Model.{Session}
use rsproxy.Trace.Size.{Layout, estimate_session_bytes}
use rsproxy.Trace.Event.{is_empty}

pub record StoredSession : Type 0 where
  pub session : Session
  pub bytes : ℕ

pub record MemoryStore : Type 0 where
  pub max_sessions : ℕ
  pub memory_budget_bytes : ℕ
  pub memory_bytes : ℕ
  pub evicted_sessions : ℕ
  pub sessions : List StoredSession

unfoldable pub new : ℕ → ℕ → MemoryStore
new max_sessions memory_budget_bytes = record {
  max_sessions = max_sessions;
  memory_budget_bytes = memory_budget_bytes;
  memory_bytes = 0;
  evicted_sessions = 0;
  sessions = [];
}

unfoldable pub evict_oldest : MemoryStore → MemoryStore
evict_oldest m = elim m.sessions [
  | [] ↦ m
  | stored ∷ rest ↦ record m {
    memory_bytes = sat_sub m.memory_bytes stored.bytes;
    evicted_sessions = sat_add m.evicted_sessions 1;
    sessions = rest;
  }
]

-- The test of the loop in `insert`.
unfoldable pub is_crowded : MemoryStore → ℕ → Bool
unfolding sat_add
is_crowded m bytes =
    not (is_empty m.sessions)
    && (leb m.max_sessions (length m.sessions)
        || ltb m.memory_budget_bytes (sat_add m.memory_bytes bytes))

-- The loop of `insert`, on fuel: a round takes one session out.
unfoldable pub make_room : ℕ → ℕ → MemoryStore → MemoryStore
make_room zero bytes m = m
make_room (suc fuel) bytes m = elim (is_crowded m bytes) [
  | true ↦ make_room fuel bytes (evict_oldest m)
  | false ↦ m
]

unfoldable pub insert : Layout → MemoryStore → Session → MemoryStore
insert lay m session =
    let bytes = estimate_session_bytes lay session in
    let roomy = make_room (length m.sessions) bytes m in
    if m.max_sessions == 0 || m.memory_budget_bytes == 0 || ltb m.memory_budget_bytes bytes
    then record m { evicted_sessions = sat_add m.evicted_sessions 1 }
    else record roomy {
      memory_bytes = sat_add roomy.memory_bytes bytes;
      sessions = roomy.sessions ++ record { session = session; bytes = bytes } ∷ [];
    }

-- The test of the loop in `evict_to_budget`.
unfoldable pub is_over : MemoryStore → ℕ → Bool
is_over m budget = ltb budget m.memory_bytes && not (is_empty m.sessions)

unfoldable pub evict_while_over : ℕ → ℕ → MemoryStore → MemoryStore
evict_while_over zero budget m = m
evict_while_over (suc fuel) budget m = elim (is_over m budget) [
  | true ↦ evict_while_over fuel budget (evict_oldest m)
  | false ↦ m
]

unfoldable pub evict_to_budget : MemoryStore → ℕ → MemoryStore
evict_to_budget m budget = evict_while_over (length m.sessions) budget m

unfoldable pub clear : MemoryStore → MemoryStore
clear m = record m { memory_bytes = 0; sessions = [] }

abbrev pub sessions_of : List StoredSession → List Session
sessions_of = map (λ (stored : StoredSession). stored.session)

unfoldable pub list : MemoryStore → ℕ → List Session
list m limit = sessions_of (take (min limit (length m.sessions)) (reverse m.sessions))

abbrev pub is_after : ℕ → StoredSession → Bool
is_after after stored = ltb after stored.session.id

-- `list_after`, and `list_after_shared`, which shares the sessions and does not clone them.
unfoldable pub list_after : MemoryStore → ℕ → ℕ → List Session
list_after m after limit = sessions_of (take limit (filter (is_after after) m.sessions))

unfoldable pub get : MemoryStore → ℕ → Option Session
get m id =
    Option.map (λ (stored : StoredSession). stored.session)
      (find (λ (stored : StoredSession). stored.session.id == id) m.sessions)
