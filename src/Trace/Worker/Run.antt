-- ===== src/Trace/Worker/Run.antt =====
-- The loop of `TraceWorker::run` in crates/rsproxy-trace/src/store/worker.rs: what the collector
-- does with each command and what it answers.
use rsproxy.Base.{
  ℕ, Bool, true, Option, none, some, List, [], ◌∷◌, ◌++◌, length, ltb, ◌==◌, if◌then◌else◌,
}
use rsproxy.Base.Words.{sat_add}
use rsproxy.Trace.Model.{Session}
use rsproxy.Trace.Size.{Layout}
use rsproxy.Trace.Event.{TraceEvent}
use rsproxy.Trace.Memory
use rsproxy.Trace.Counters.{TraceCounters, release_queue_bytes}
use rsproxy.Trace.Worker.{
  SpillOps, skipped, Follower, TraceWorker, prune_followers, enforce_memory_budget, apply_event,
  apply_events, clear, ensure_spill,
}

-- The commands. A reply's channel is left out, but that of `follow`, where it matters whether the
-- one who asked is still there. The two queries about the spill files' paths are one, since they
-- do the same to the state.
pub data Command : Type 0 where
  event : TraceEvent → ℕ → Command
  events : List TraceEvent → ℕ → Command
  list : ℕ → Command
  list_after : ℕ → ℕ → Command
  get : ℕ → Command
  clear_all : Command
  stats : Command
  spill_path : Command
  spill_snapshot : Command
  spill_read_report : ℕ → ℕ → Command
  follow : ℕ → ℕ → Follower → Bool → Command
  shutdown : Command

-- The figures of `TraceStats` that do not come from the spill files' own state, without the text of
-- the last error.
pub record TraceStats : Type 0 where
  pub sessions : ℕ
  pub max_sessions : ℕ
  pub dropped : ℕ
  pub queue_dropped : ℕ
  pub queue_capacity : ℕ
  pub queue_bytes : ℕ
  pub queue_memory_budget_bytes : ℕ
  pub queue_memory_dropped : ℕ
  pub evicted_sessions : ℕ
  pub memory_bytes : ℕ
  pub completed_memory_bytes : ℕ
  pub pending_memory_bytes : ℕ
  pub resident_memory_budget_bytes : ℕ
  pub total_memory_bytes : ℕ
  pub memory_budget_bytes : ℕ
  pub next_id : ℕ
  pub pending_sessions : ℕ
  pub incomplete_sessions : ℕ
  pub orphan_events : ℕ
  pub follow_subscribers : ℕ
  pub follow_dropped : ℕ
  pub spilled : ℕ
  pub spill_errors : ℕ
  pub spill_corrupt_records : ℕ

pub data Reply : Type 0 where
  nothing : Reply
  sessions : List Session → Reply
  one_session : Option Session → Reply
  figures : TraceStats → Reply
  acknowledged : Reply

module _ (spill_ops : SpillOps) where
  open spill_ops use {spill_read_snapshot}

  abbrev pub read_stats : TraceCounters → ℕ → TraceWorker spill_ops → TraceStats
  read_stats c queue_capacity w =
      let memory_bytes = sat_add w.memory.memory_bytes w.pending.memory_bytes in
      record {
        sessions = length w.memory.sessions;
        max_sessions = w.memory.max_sessions;
        dropped = c.queue_dropped;
        queue_dropped = c.queue_dropped;
        queue_capacity = queue_capacity;
        queue_bytes = c.queue_bytes;
        queue_memory_budget_bytes = w.queue_memory_budget_bytes;
        queue_memory_dropped = c.queue_memory_dropped;
        evicted_sessions = w.memory.evicted_sessions;
        memory_bytes = memory_bytes;
        completed_memory_bytes = w.memory.memory_bytes;
        pending_memory_bytes = w.pending.memory_bytes;
        resident_memory_budget_bytes = w.memory.memory_budget_bytes;
        total_memory_bytes = sat_add memory_bytes c.queue_bytes;
        memory_budget_bytes = w.total_memory_budget_bytes;
        next_id = c.next_id;
        pending_sessions = length w.pending.sessions;
        incomplete_sessions = w.pending.incomplete_sessions;
        orphan_events = w.pending.orphan_events;
        follow_subscribers = length w.followers;
        follow_dropped = w.follow_dropped;
        spilled = w.spilled;
        spill_errors = w.spill_errors;
        spill_corrupt_records = w.spill_corrupt_records;
      }

  -- `stats` first looks at the spill files and at which followers are left.
  unfoldable pub take_stats :
      TraceCounters → ℕ → TraceWorker spill_ops → TraceWorker spill_ops × TraceStats
  take_stats c queue_capacity w =
      let w' = prune_followers spill_ops (ensure_spill spill_ops w) in
      (w', read_stats c queue_capacity w')

  unfoldable pub report_corrupt : ℕ → ℕ → TraceWorker spill_ops → TraceWorker spill_ops
  report_corrupt generation corrupt w =
      if generation == w.spill_read_generation
      then record w {
        spill_corrupt_records = corrupt;
        last_spill_error = if ltb 0 corrupt then some (skipped corrupt) else w.last_spill_error;
      }
      else w

  -- The files are read behind a snapshot; an error goes to the one who asked only.
  unfoldable pub take_snapshot : TraceWorker spill_ops → TraceWorker spill_ops
  take_snapshot w = elim w.spill [
    | none ↦ w
    | some state ↦ record w { spill = some (spill_read_snapshot state).0 }
  ]

  -- One round of the loop: the new state, the released counters, and the answer.
  unfoldable pub handle :
      Layout
      → ℕ
      → ℕ
      → Command
      → TraceWorker spill_ops × TraceCounters
      → TraceWorker spill_ops × TraceCounters × Reply
  unfolding take_stats report_corrupt take_snapshot
  handle lay now capacity (event e bytes) (w, c) =
      (apply_event spill_ops lay now true e w, release_queue_bytes bytes c, nothing)
  handle lay now capacity (events es bytes) (w, c) = (
    enforce_memory_budget spill_ops lay none (apply_events spill_ops lay now es w),
    release_queue_bytes bytes c,
    nothing,
  )
  handle lay now capacity (list limit) (w, c) = (w, c, sessions (Memory.list w.memory limit))
  handle lay now capacity (list_after after limit) (w, c) =
      (w, c, sessions (Memory.list_after w.memory after limit))
  handle lay now capacity (get id) (w, c) = (w, c, one_session (Memory.get w.memory id))
  handle lay now capacity clear_all (w, c) = (clear spill_ops w, c, acknowledged)
  handle lay now capacity stats (w, c) =
      let (w', figs) = take_stats c capacity w in (w', c, figures figs)
  handle lay now capacity spill_path (w, c) = (ensure_spill spill_ops w, c, acknowledged)
  handle lay now capacity spill_snapshot (w, c) = (take_snapshot w, c, acknowledged)
  handle lay now capacity (spill_read_report generation corrupt) (w, c) =
      (report_corrupt generation corrupt w, c, acknowledged)
  handle lay now capacity (follow after limit follower asks) (w, c) = (
    if asks then record w { followers = w.followers ++ follower ∷ [] } else w,
    c,
    sessions (Memory.list_after w.memory after limit),
  )
  handle lay now capacity shutdown (w, c) = (w, c, acknowledged)

  -- The loop, until the channel is closed or a shutdown is asked for. The answers are in order.
  unfoldable pub run :
      Layout
      → ℕ
      → List (ℕ × Command)
      → TraceWorker spill_ops × TraceCounters
      → (TraceWorker spill_ops × TraceCounters) × List Reply
  run lay capacity [] state = (state, [])
  run lay capacity ((now, shutdown) ∷ commands) state = (state, acknowledged ∷ [])
  run lay capacity ((now, command) ∷ commands) state =
      let (w, c, reply) = handle lay now capacity command state in
      let (final, replies) = run lay capacity commands (w, c) in (final, reply ∷ replies)
