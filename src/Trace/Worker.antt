-- ===== src/Trace/Worker.antt =====
-- crates/rsproxy-trace/src/store/worker.rs: the collector, one thread that owns the completed and
-- the pending sessions and handles the commands of the channel in order. The spill files are behind
-- an interface; a channel to a follower is its queue, its capacity and whether each end is alive.
pub mod Run
pub mod Commits
pub mod Budget
pub mod Recorded
use rsproxy.Base.{
  ℕ, ◌+◌, ◌-◌, ◌≤◌, ◌<◌, ◌≡◌, Bool, true, false, Option, none, some, List, [], ◌∷◌, ◌++◌, length,
  filter, ltb, leb, ◌==◌, if◌then◌else◌,
}
use rsproxy.Base.Words.{sat_add, sat_sub, wrap_add}
use rsproxy.Trace.Model.{Session}
use rsproxy.Trace.Size.{Layout}
use rsproxy.Trace.Event.{TraceEvent, session_id}
use rsproxy.Trace.Memory
use rsproxy.Trace.Memory.{MemoryStore, evict_to_budget}
use rsproxy.Trace.Pending
use rsproxy.Trace.Pending.{PendingSessions, abort_for_budget}
use rsproxy.Trace.Counters.{TraceCounters, release_queue_bytes}

-- What the collector uses of src/spill.rs: each operation returns the new state, and an error if
-- there was one.
pub record SpillOps : Type 1 where
  pub State : Type 0
  pub Error : Type 0
  pub append_spill : Session → State → State × Option Error
  pub clear_spill : State → State × Option Error
  pub ensure_spill_initialized : State → State × Option Error
  pub spill_read_snapshot : State → State × Option Error

-- `last_spill_error`: the text of an error, or the report of skipped records.
pub data SpillMessage (E : Type 0) : Type 0 where
  failed : E → SpillMessage E
  skipped : ℕ → SpillMessage E

pub record Follower : Type 0 where
  pub capacity : ℕ
  pub queued : List Session
  pub connected : Bool
  pub alive : Bool

pub data SendResult : Type 0 where
  sent : Follower → SendResult
  full disconnected : SendResult

-- `SyncSender::try_send`.
unfoldable pub try_send : Follower → Session → SendResult
try_send f s =
    if f.connected
    then if ltb (length f.queued) f.capacity
      then sent (record f { queued = f.queued ++ s ∷ [] })
      else full
    else disconnected

module _ (spill_ops : SpillOps) where
  open spill_ops use {
    State, Error, append_spill, clear_spill, ensure_spill_initialized, spill_read_snapshot,
  }

  pub record TraceWorker : Type 0 where
    pub memory : MemoryStore
    pub pending : PendingSessions
    pub total_memory_budget_bytes : ℕ
    pub queue_memory_budget_bytes : ℕ
    pub spill : Option State
    pub spilled : ℕ
    pub spill_errors : ℕ
    pub last_spill_error : Option (SpillMessage Error)
    pub spill_corrupt_records : ℕ
    pub spill_read_generation : ℕ
    pub followers : List Follower
    pub follow_dropped : ℕ

  unfoldable pub new : ℕ → ℕ → ℕ → ℕ → ℕ → ℕ → Option State → TraceWorker
  unfolding Memory.new Pending.new
  new now max_sessions total_budget resident_budget queue_budget body_limit spill = record {
    memory = Memory.new max_sessions resident_budget;
    pending = Pending.new now body_limit;
    total_memory_budget_bytes = total_budget;
    queue_memory_budget_bytes = queue_budget;
    spill = spill;
    spilled = 0;
    spill_errors = 0;
    last_spill_error = none;
    spill_corrupt_records = 0;
    spill_read_generation = 0;
    followers = [];
    follow_dropped = 0;
  }

  pub record_spill_error : Error → TraceWorker → TraceWorker
  record_spill_error e w = record w {
    spill_errors = sat_add w.spill_errors 1;
    last_spill_error = some (failed e);
  }

  -- The error, if there is one, is recorded.
  pub note_result : Option Error → TraceWorker → TraceWorker
  unfolding record_spill_error
  note_result none w = w
  note_result (some e) w = record_spill_error e w

  -- The loop of `publish`: the followers that stay, and how many sessions were dropped.
  unfoldable pub publish_to : Session → List Follower → List Follower × ℕ
  publish_to s [] = ([], 0)
  publish_to s (f ∷ fs) =
      let (active, dropped) = publish_to s fs in
      if f.alive
      then elim (try_send f s) [
        | sent f' ↦ (f' ∷ active, dropped)
        | full ↦ (f ∷ active, dropped + 1)
        | disconnected ↦ (active, dropped)
      ]
      else (active, dropped)

  unfoldable pub publish : Session → TraceWorker → TraceWorker
  publish s w =
      let (active, dropped) = publish_to s w.followers in
      record w { followers = active; follow_dropped = sat_add w.follow_dropped dropped }

  unfoldable pub prune_followers : TraceWorker → TraceWorker
  prune_followers w = record w { followers = filter (λ (f : Follower). f.alive) w.followers }

  -- The spilling part of `commit`.
  unfoldable pub spill_session : Session → TraceWorker → TraceWorker
  unfolding record_spill_error
  spill_session s w = elim w.spill [
    | none ↦ w
    | some state ↦
        let (state', error) = append_spill s state in
        elim error [
          | none ↦ record w {
            spill = some state';
            spilled = sat_add w.spilled 1;
            last_spill_error = none;
          }
          | some e ↦ record_spill_error e (record w { spill = some state' })
        ]
  ]

  unfoldable pub commit : Layout → Session → TraceWorker → TraceWorker
  commit lay s w =
      let spilled_w = spill_session s w in
      let stored = record spilled_w { memory = Memory.insert lay spilled_w.memory s } in
      elim stored.followers [ [] ↦ stored | _ ∷ _ ↦ publish s stored ]

  -- The pending session of the current event goes first, then the oldest completed ones.
  unfoldable pub enforce_memory_budget : Layout → Option ℕ → TraceWorker → TraceWorker
  enforce_memory_budget lay current w =
      let budget = w.memory.memory_budget_bytes in
      let trimmed : PendingSessions = elim current [
        | none ↦ w.pending
        | some id ↦
            if ltb budget w.pending.memory_bytes
            then abort_for_budget lay id w.pending
            else w.pending
      ] in
      record w {
        pending = trimmed;
        memory = evict_to_budget w.memory (sat_sub budget trimmed.memory_bytes);
      }

  unfoldable pub commit_all : Layout → Option Session → TraceWorker → TraceWorker
  commit_all lay none w = w
  commit_all lay (some s) w = commit lay s w

  unfoldable pub apply_event : Layout → ℕ → Bool → TraceEvent → TraceWorker → TraceWorker
  apply_event lay now enforce e w =
      let (pending, completed) = Pending.apply lay now e w.pending in
      let committed = commit_all lay completed (record w { pending = pending }) in
      if enforce then enforce_memory_budget lay (some (session_id e)) committed else committed

  -- The loop of `Command::Events`.
  unfoldable pub apply_events : Layout → ℕ → List TraceEvent → TraceWorker → TraceWorker
  apply_events lay now [] w = w
  apply_events lay now (e ∷ es) w = apply_events lay now es (apply_event lay now false e w)

  unfoldable pub clear : TraceWorker → TraceWorker
  unfolding note_result Memory.clear Pending.clear
  clear w =
      let emptied = record w {
        memory = Memory.clear w.memory;
        pending = Pending.clear w.pending;
        spilled = 0;
        spill_errors = 0;
        last_spill_error = none;
        spill_corrupt_records = 0;
        spill_read_generation = wrap_add w.spill_read_generation 1;
      } in
      elim w.spill [
        | none ↦ emptied
        | some state ↦
            let (state', error) = clear_spill state in
            note_result error (record emptied { spill = some state' })
      ]

  unfoldable pub ensure_spill : TraceWorker → TraceWorker
  unfolding note_result
  ensure_spill w = elim w.spill [
    | none ↦ w
    | some state ↦
        let (state', error) = ensure_spill_initialized state in
        note_result error (record w { spill = some state' })
  ]
