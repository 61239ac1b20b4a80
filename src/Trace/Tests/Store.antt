-- ===== src/Trace/Tests/Store.antt =====
-- Runs of the store, its counters and its collector of crates/rsproxy-trace.
use rsproxy.Base.{
  ℕ, ◌⊎◌, ◌+◌, ◌≤◌, ◌≡◌, refl, max, inl, true, false, none, some, List, [], ◌∷◌, length, leb, ◌&&◌,
  if◌then◌else◌, arith,
}
use rsproxy.Base.Words.{wrap_add, sat_add}
use rsproxy.Trace.Event.{from_session}
use rsproxy.Trace.Config.{TraceStoreConfig, memory_partitions, IsShare, memory_partitions_lem}
use rsproxy.Trace.Counters
use rsproxy.Trace.Counters.{
  TraceCounters, Attempt, stored, IsAtomic, try_reserve_loop, try_reserve, submit,
  try_reserve_loop_lem, submit_lem,
}
use rsproxy.Trace.Counters.Channel
use rsproxy.Trace.Counters.Channel.{Channel, Reach-IsBounded, IsBounded, idle}
use rsproxy.Trace.Pending.Evolve.{apply_all}
use rsproxy.Trace.Memory
use rsproxy.Trace.Pending
use rsproxy.Trace.Worker
use rsproxy.Trace.Worker.{SpillOps, TraceWorker, apply_events}
use rsproxy.Trace.Worker.Run.{Command, one_session, TraceStats, events, handle, read_stats}
use rsproxy.Base.Assoc.{lookup}
use rsproxy.Trace.Model.{Session}
use rsproxy.Trace.Pending.{expire_stale}
use rsproxy.Trace.Pending.Rebuild.{SameRecord}
use rsproxy.Trace.Worker.Recorded.{IsTooLarge, handle-recorded}
use rsproxy.Trace.Worker.Commits.{committed, apply_events-commits}
use rsproxy.Trace.Worker.Budget.{IsWithin, handle-IsWithin}
use rsproxy.Trace.Store.{TraceStore, new_with_config, record_session, collect}
use rsproxy.Trace.Store.Reachable
use rsproxy.Trace.Store.Reachable.{Reach-stats}
use rsproxy.Trace.Memory.Bounds.{new-IsValid}
use rsproxy.Trace.Tests.{layout, session_one}

-- Spill files that only count what was appended.
abbrev spill_files : SpillOps
spill_files = record {
  State = ℕ;
  Error = Unit;
  append_spill = λ s n. (n + 1, none);
  clear_spill = λ n. (0, none);
  ensure_spill_initialized = λ n. (n, none);
  spill_read_snapshot = λ n. (n, some tt);
}

abbrev config : TraceStoreConfig
config = record {
  max_sessions = 2;
  queue_capacity = 4;
  memory_budget_bytes = 8000;
  queue_memory_budget_bytes = none;
  body_limit = 2;
}

abbrev fresh : TraceStore spill_files
fresh = new_with_config spill_files 0 config (some 0)

abbrev submitted : TraceStore spill_files
submitted = (record_session spill_files layout session_one fresh).0

abbrev collected : TraceStore spill_files
collected = (collect spill_files layout 1 submitted).0

collected-Reach : Reachable.Reach spill_files layout fresh collected
collected-Reach =
    Reachable.next (Reachable.next Reachable.here (Reachable.recorded fresh session_one))
      (Reachable.collected submitted 1)

Reach-stats_example :
    let figures : TraceStats =
      read_stats spill_files collected.counters collected.queue_capacity collected.worker in
    (figures.total_memory_bytes ≤ 8000)
    × (figures.queue_bytes ≤ (memory_partitions config).0)
    × (figures.memory_bytes ≤ (memory_partitions config).1)
    × (length collected.queue ≤ max 4 1)
Reach-stats_example =
    Reach-stats spill_files layout 0 config (some 0) collected (omega arith) collected-Reach

abbrev worker : TraceWorker spill_files
worker = Worker.new spill_files 0 2 8000 6000 2000 2 (some 0)

worker-IsWithin : IsWithin spill_files layout 6000 worker
unfolding Worker.new Memory.new Pending.new
worker-IsWithin = record {
  completed = new-IsValid layout 2 6000 (omega arith);
  same_budget = refl;
  resident = omega arith;
}

abbrev recording : Command
recording = events (from_session session_one) 408

handle-IsWithin_example :
    IsWithin spill_files layout 6000
      (handle spill_files layout 1 4 recording (worker, Counters.new)).0
handle-IsWithin_example =
    handle-IsWithin spill_files layout 6000 1 4 recording worker Counters.new
      (session_one, inl refl) worker-IsWithin

apply_events-commits_example :
    apply_events spill_files layout 1 (from_session session_one) worker
    ≡ committed spill_files layout
        (apply_all layout 1 (from_session session_one) worker.pending)
        worker
apply_events-commits_example =
    apply_events-commits spill_files layout 1 (from_session session_one) worker

memory_partitions_lem_example :
    IsShare none 8000 (memory_partitions config).0
    × ((memory_partitions config).0 + (memory_partitions config).1 ≡ 8000)
memory_partitions_lem_example = memory_partitions_lem config

-- Another thread's reservation comes between.
abbrev attempts : List Attempt
attempts = record { counter = 4; spurious = false } ∷ record { counter = 4; spurious = false } ∷ []

attempts-end : try_reserve_loop 5 10 3 attempts ≡ some (stored 9, [])
unfolding try_reserve_loop sat_add
attempts-end = refl

try_reserve_loop_lem_example :
    IsAtomic 5 10 3 attempts Counters.new (try_reserve_loop 5 10 3 attempts)
try_reserve_loop_lem_example = try_reserve_loop_lem 5 10 3 attempts Counters.new

abbrev busy_counters : TraceCounters
busy_counters = record { next_id = 3; queue_dropped = 0; queue_memory_dropped = 0; queue_bytes = 7 }

submit_lem_example :
    ((submit 5 10 true busy_counters).1 ≡ (leb 12 10 && true))
    × ((submit 5 10 true busy_counters).0.queue_bytes
        ≡ (if (submit 5 10 true busy_counters).1 then 12 else 7))
    × ((submit 5 10 true busy_counters).0.queue_dropped
        ≡ (if (submit 5 10 true busy_counters).1 then 0 else wrap_add 0 1))
    × ((submit 5 10 true busy_counters).0.queue_memory_dropped
        ≡ (if leb 12 10 then 0 else wrap_add 0 1))
submit_lem_example = submit_lem 5 10 true busy_counters (omega arith)

abbrev reserving : TraceCounters
reserving = record { next_id = 1; queue_dropped = 0; queue_memory_dropped = 0; queue_bytes = 5 }

reserving-done : try_reserve 5 10 idle.counters ≡ (reserving, true)
unfolding try_reserve sat_add
reserving-done = refl

abbrev sent : Channel
sent = record { counters = reserving; in_flight = []; queue = 5 ∷ []; busy = none }

sent-Reach : Channel.Reach 10 2 idle sent
sent-Reach =
    Channel.next (Channel.next Channel.here (Channel.reserve idle 5 reserving reserving-done)) (
      Channel.send (record { counters = reserving; in_flight = 5 ∷ []; queue = []; busy = none }) []
        5 [] refl (omega arith))

Reach-IsBounded_example : IsBounded 10 2 sent
Reach-IsBounded_example = Reach-IsBounded 10 2 (omega arith) sent-Reach

worker-absent : Memory.get worker.memory 1 ≡ none
unfolding Worker.new Memory.new Memory.get
worker-absent = refl

worker-free : lookup 1 (expire_stale layout 1 worker.pending).sessions ≡ none
unfolding Worker.new Pending.new expire_stale lookup
worker-free = refl

handle-recorded_example :
    let after = handle spill_files layout 1 4 recording (worker, Counters.new) in
    (t : Session) × SameRecord worker.pending.body_limit session_one t
    × (((handle spill_files layout 2 4 (Command.get 1) (after.0, after.1)).2 ≡ one_session (some t))
        ⊎ IsTooLarge layout worker.memory
            (apply_all layout 1 (from_session session_one) worker.pending).0
            t)
handle-recorded_example =
    handle-recorded spill_files layout 1 2 4 408 session_one worker Counters.new
      worker-IsWithin.completed worker-absent worker-free
