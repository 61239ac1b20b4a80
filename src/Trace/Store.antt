-- ===== src/Trace/Store.antt =====
-- `TraceStore` of crates/rsproxy-trace/src/store.rs: the shared handle's counters, the channel and
-- the collector behind it. A method that submits is one step here; Counters.Channel takes its steps
-- apart.
pub mod Sound
pub mod Reachable
use rsproxy.Base.{
  ℕ, ◌+◌, ◌<◌, ◌≡◌, Bool, true, false, Option, none, some, List, [], ◌∷◌, ◌++◌, length, max, ltb,
  ◌==◌, if◌then◌else◌,
}
use rsproxy.Trace.Model.{Session}
use rsproxy.Trace.Size.{Layout, estimate_session_bytes}
use rsproxy.Trace.Event.{
  TraceEvent, SessionStart, from_session, continuation_from_session, estimated_bytes,
}
use rsproxy.Trace.Config.{TraceStoreConfig, memory_partitions}
use rsproxy.Trace.Counters
use rsproxy.Trace.Counters.{TraceCounters, submit}
use rsproxy.Trace.Worker
use rsproxy.Trace.Worker.{SpillOps, Follower, TraceWorker}
use rsproxy.Trace.Worker.Run.{Command, Reply, event, events, follow, handle}

module _ (spill_ops : SpillOps) where
  open spill_ops use {State}

  pub record TraceStore : Type 0 where
    pub counters : TraceCounters
    pub queue : List Command
    pub worker : TraceWorker spill_ops
    pub queue_capacity : ℕ
    pub queue_memory_budget_bytes : ℕ

  unfoldable pub new_with_config : ℕ → TraceStoreConfig → Option State → TraceStore
  unfolding Worker.new Counters.new
  new_with_config now config spill =
      let (queue_budget, resident_budget) = memory_partitions config in
      record {
        counters = Counters.new;
        queue = [];
        worker =
            Worker.new spill_ops now config.max_sessions config.memory_budget_bytes resident_budget
              queue_budget config.body_limit spill;
        queue_capacity = max config.queue_capacity 1;
        queue_memory_budget_bytes = queue_budget;
      }

  -- `try_send` fails if the channel is full.
  unfoldable pub submit_command : Command → ℕ → TraceStore → TraceStore × Bool
  unfolding submit
  submit_command command queued_bytes st =
      let sends = ltb (length st.queue) st.queue_capacity in
      let (c, done) = submit queued_bytes st.queue_memory_budget_bytes sends st.counters in
      (
        record st { counters = c; queue = if done then st.queue ++ command ∷ [] else st.queue },
        done,
      )

  -- `record`: the session gets the next identifier.
  unfoldable pub record_session : Layout → Session → TraceStore → TraceStore × ℕ
  unfolding submit_command
  record_session lay s st =
      let (id, c) = Counters.next st.counters in
      let session = record s { id = id } in
      let queued_bytes = estimate_session_bytes lay session in
      (
        (submit_command (events (from_session session) queued_bytes) queued_bytes
            (record st { counters = c })).0,
        id,
      )

  unfoldable pub start : Layout → SessionStart → TraceStore → TraceStore × ℕ
  unfolding submit_command
  start lay opening st =
      let (id, c) = Counters.next st.counters in
      let e = TraceEvent.start id opening in
      let queued_bytes = estimated_bytes lay e in
      ((submit_command (event e queued_bytes) queued_bytes (record st { counters = c })).0, id)

  unfoldable pub finish : Layout → Session → TraceStore → TraceStore × Bool
  unfolding submit_command
  finish lay s st =
      let queued_bytes = estimate_session_bytes lay s in
      if s.id == 0
      then (st, false)
      else submit_command (events (continuation_from_session s) queued_bytes) queued_bytes st

  unfoldable pub emit : Layout → TraceEvent → TraceStore → TraceStore × Bool
  unfolding submit_command
  emit lay e st =
      let queued_bytes = estimated_bytes lay e in
      submit_command (event e queued_bytes) queued_bytes st

  unfoldable pub abort : Layout → ℕ → TraceStore → TraceStore × Bool
  unfolding emit
  abort lay id = emit lay (TraceEvent.abort id)

  -- The command of a query; the channel of `follow` has room for one session at least.
  abbrev pub follow_command : ℕ → ℕ → ℕ → Bool → Command
  follow_command after backlog_limit capacity asks =
      let follower : Follower = record {
        capacity = max capacity 1;
        queued = [];
        connected = true;
        alive = true;
      } in
      follow after backlog_limit follower asks

  -- The collector takes the oldest command, if there is one.
  unfoldable pub collect : Layout → ℕ → TraceStore → TraceStore × Option Reply
  unfolding handle
  collect lay now st = elim st.queue [
    | [] ↦ (st, none)
    | command ∷ queue ↦
        let (worker, counters, reply) =
          handle spill_ops lay now st.queue_capacity command (st.worker, st.counters) in
        (record st { worker = worker; counters = counters; queue = queue }, some reply)
  ]
