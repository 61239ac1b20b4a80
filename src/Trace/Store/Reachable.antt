-- ===== src/Trace/Store/Reachable.antt =====
-- The states that the store of crates/rsproxy-trace/src/store.rs reaches by calls of its methods and
-- rounds of its collector, in any order.
use rsproxy.Base.{
  ℕ, ◌≤◌, ◌<◌, refl, Bool-cases, ◌==◌, inl, inr, Option, [], ◌∷◌, ◌++◌, length, length-append, max,
  arith,
}
use rsproxy.Base.Words.{word_max, sat_add}
use rsproxy.Trace.Model.{Session}
use rsproxy.Trace.Size.{Layout, estimate_session_bytes}
use rsproxy.Trace.Event.{
  TraceEvent, SessionStart, from_session, continuation_from_session, estimated_bytes,
}
use rsproxy.Trace.Memory.Bounds.{new-IsValid}
use rsproxy.Trace.Config.{TraceStoreConfig, memory_partitions, memory_partitions_lem}
use rsproxy.Trace.Counters
use rsproxy.Trace.Counters.{TraceCounters, submit, try_reserve, release_queue_bytes}
use rsproxy.Trace.Worker.{SpillOps}
use rsproxy.Trace.Worker.Run.{Command, TraceStats, event, events, read_stats}
use rsproxy.Trace.Store.{TraceStore, new_with_config, record_session, start, finish, emit, collect}
use rsproxy.Trace.Store.Sound.{
  IsQuery, IsQuery-Submitted, AllSubmitted-append, sum-queue, IsSound, submit-IsSound,
  numbered-IsSound, collect-IsSound,
}

module _ (spill_ops : SpillOps) (lay : Layout) where
  open spill_ops use {State}

  -- One call of a method, or one round of the collector. A query waits for room in the channel.
  pub data Step : TraceStore spill_ops → TraceStore spill_ops → Type 0 where
    recorded :
        (st : TraceStore spill_ops) (s : Session) → Step st (record_session spill_ops lay s st).0
    started : (st : TraceStore spill_ops) (s : SessionStart) → Step st (start spill_ops lay s st).0
    finished : (st : TraceStore spill_ops) (s : Session) → Step st (finish spill_ops lay s st).0
    emitted : (st : TraceStore spill_ops) (e : TraceEvent) → Step st (emit spill_ops lay e st).0
    asked :
        (st : TraceStore spill_ops) (c : Command)
        → IsQuery c
        → length st.queue < st.queue_capacity
        → Step st (record st { queue = st.queue ++ c ∷ [] })
    collected : (st : TraceStore spill_ops) (now : ℕ) → Step st (collect spill_ops lay now st).0

  pub data Reach (first : TraceStore spill_ops) : TraceStore spill_ops → Type 0 where
    here : Reach first first
    next : {st st' : TraceStore spill_ops} → Reach first st → Step st st' → Reach first st'

  module _ (queue_budget resident capacity : ℕ) (small : queue_budget < word_max) where
    Step-IsSound :
        {st st' : TraceStore spill_ops}
        → Step st st'
        → IsSound spill_ops lay queue_budget resident capacity st
        → IsSound spill_ops lay queue_budget resident capacity st'
    unfolding record_session start finish emit Counters.next
    Step-IsSound (recorded st s) i =
        let (id, c) = Counters.next st.counters in
        let s' = record s { id = id } in
        submit-IsSound spill_ops lay queue_budget resident capacity small
          (events (from_session s') (estimate_session_bytes lay s')) (estimate_session_bytes lay s')
          (record st { counters = c }) refl (s', inl refl)
          (numbered-IsSound spill_ops lay queue_budget resident capacity small st i)
    Step-IsSound (started st s) i =
        let (id, c) = Counters.next st.counters in
        let e = TraceEvent.start id s in
        submit-IsSound spill_ops lay queue_budget resident capacity small
          (event e (estimated_bytes lay e)) (estimated_bytes lay e) (record st { counters = c })
          refl tt (numbered-IsSound spill_ops lay queue_budget resident capacity small st i)
    Step-IsSound (finished st s) i = elim (Bool-cases (s.id == 0)) [
      | inl unnumbered ↦ rw unnumbered i
      | inr numbered ↦ rw numbered (
          submit-IsSound spill_ops lay queue_budget resident capacity small
            (events (continuation_from_session s) (estimate_session_bytes lay s))
            (estimate_session_bytes lay s) st refl (s, inr refl) i)
    ]
    Step-IsSound (emitted st e) i =
        submit-IsSound spill_ops lay queue_budget resident capacity small
          (event e (estimated_bytes lay e)) (estimated_bytes lay e) st refl tt i
    Step-IsSound (asked st c q room) i =
        let (u, free) = IsQuery-Submitted c q in
        record {
          within = i.within;
          submitted = AllSubmitted-append st.queue c i.submitted u;
          charged = omega (arith, i.charged, sum-queue st.queue c, free);
          fits = i.fits;
          room = omega (arith, i.same_capacity, length-append st.queue (c ∷ []));
          same_budget = i.same_budget;
          same_capacity = i.same_capacity;
        }
    Step-IsSound (collected st now) i =
        collect-IsSound spill_ops lay queue_budget resident capacity small now st i

    Reach-IsSound :
        {first st : TraceStore spill_ops}
        → IsSound spill_ops lay queue_budget resident capacity first
        → Reach first st
        → IsSound spill_ops lay queue_budget resident capacity st
    Reach-IsSound i here = i
    Reach-IsSound i (next r step) = Step-IsSound step (Reach-IsSound i r)

  new-IsSound :
      (now : ℕ) (config : TraceStoreConfig) (spill : Option State)
      → config.memory_budget_bytes < word_max
      → IsSound spill_ops lay
          (memory_partitions config).0
          (memory_partitions config).1
          (max config.queue_capacity 1)
          (new_with_config spill_ops now config spill)
  unfolding new_with_config
  new-IsSound now config spill small = record {
    within = record {
      completed =
          new-IsValid lay config.max_sessions (memory_partitions config).1
            (omega (arith, (memory_partitions_lem config).1));
      same_budget = refl;
      resident = omega arith;
    };
    submitted = tt;
    charged = refl;
    fits = omega arith;
    room = omega arith;
    same_budget = refl;
    same_capacity = refl;
  }

  -- Whatever methods are called and however they are interleaved with the collector's rounds, the
  -- figures of `stats` keep to the configuration, if its budget is less than 2^64 - 1: completed and
  -- pending sessions and the queue together are charged at most the memory budget, the queue alone
  -- at most its share and the sessions theirs, and the channel does not exceed its capacity.
  pub Reach-stats :
      (now : ℕ) (config : TraceStoreConfig) (spill : Option State) (st : TraceStore spill_ops)
      → config.memory_budget_bytes < word_max
      → Reach (new_with_config spill_ops now config spill) st
      → let figures : TraceStats = read_stats spill_ops st.counters st.queue_capacity st.worker in
        (figures.total_memory_bytes ≤ config.memory_budget_bytes)
        × (figures.queue_bytes ≤ (memory_partitions config).0)
        × (figures.memory_bytes ≤ (memory_partitions config).1)
        × (length st.queue ≤ max config.queue_capacity 1)
  unfolding sat_add
  Reach-stats now config spill st small r =
      let (queue, resident) = memory_partitions config in
      let shares = (memory_partitions_lem config).1 in
      let i =
        Reach-IsSound queue resident (max config.queue_capacity 1) (omega (arith, shares))
          (new-IsSound now config spill small) r in
      let within = i.within.resident in
      (ground (arith, shares, within, i.fits), i.fits, ground (arith, within), i.room)
