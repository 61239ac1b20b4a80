-- ===== src/Trace/Config.antt =====
-- crates/rsproxy-trace/src/store/config.rs: how the total memory budget is divided.
use rsproxy.Base.{
  ℕ, ◌+◌, ◌/◌, min, max, ◌≡◌, Option, none, some, ltb, ◌==◌, if◌then◌else◌, arith, Option-cases,
  inl, inr,
}
use rsproxy.Base.Words.{sat_sub}

-- `DEFAULT_TRACE_QUEUE_CAPACITY`, `DEFAULT_TRACE_MEMORY_BUDGET`, `DEFAULT_TRACE_QUEUE_MEMORY_BUDGET`
-- and `DEFAULT_TRACE_BODY_LIMIT`.
abbrev pub default_queue_capacity : ℕ
default_queue_capacity = 8192

abbrev pub default_memory_budget : ℕ
default_memory_budget = 268435456

abbrev pub default_queue_memory_budget : ℕ
default_queue_memory_budget = 67108864

abbrev pub default_body_limit : ℕ
default_body_limit = 65536

-- The spill policy of the configuration stands with the spill files.
pub record TraceStoreConfig : Type 0 where
  pub max_sessions : ℕ
  pub queue_capacity : ℕ
  pub memory_budget_bytes : ℕ
  pub queue_memory_budget_bytes : Option ℕ
  pub body_limit : ℕ

-- `TraceStoreConfig::default`.
abbrev pub default_config : TraceStoreConfig
default_config = record {
  max_sessions = 4096;
  queue_capacity = default_queue_capacity;
  memory_budget_bytes = default_memory_budget;
  queue_memory_budget_bytes = none;
  body_limit = default_body_limit;
}

abbrev clamp : ℕ → ℕ → ℕ → ℕ
clamp x lo hi = if ltb x lo then lo else if ltb hi x then hi else x

abbrev unwrap_or : Option ℕ → ℕ → ℕ
unwrap_or none d = d
unwrap_or (some a) d = a

-- The shares of the queue and of the resident sessions.
unfoldable pub memory_partitions : TraceStoreConfig → ℕ × ℕ
memory_partitions c =
    let total = c.memory_budget_bytes in
    let automatic = if total == 0 then 0 else clamp (total / 4) 1 default_queue_memory_budget in
    let queue = min (unwrap_or c.queue_memory_budget_bytes automatic) total in
    (queue, sat_sub total queue)

-- What the queue's share is of a total. Without an explicit share it is a quarter, rounded down: at
-- least one byte, if there is one, and at most 64 MiB. An explicit one counts as far as the total
-- goes.
abbrev pub IsShare : Option ℕ → ℕ → ℕ → Type 0
IsShare none total queue = queue ≡ min 67108864 (max (min 1 total) (total / 4))
IsShare (some q) total queue = queue ≡ min q total

-- The queue has its share of the budget: what is configured, as far as the budget goes, or else a
-- quarter of it, rounded down, but at least one byte of a budget that is not 0 and at most 64 MiB. The
-- resident sessions have exactly the rest.
pub memory_partitions_lem :
    (c : TraceStoreConfig)
    → IsShare c.queue_memory_budget_bytes c.memory_budget_bytes (memory_partitions c).0
      × ((memory_partitions c).0 + (memory_partitions c).1 ≡ c.memory_budget_bytes)
unfolding memory_partitions
memory_partitions_lem c = elim (Option-cases c.queue_memory_budget_bytes) [
  | inl automatic ↦ rw (automatic, memory_partitions) (ground arith)
  | inr (q, explicit) ↦ rw (explicit, memory_partitions) (ground arith)
]
