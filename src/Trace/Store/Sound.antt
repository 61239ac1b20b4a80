-- ===== src/Trace/Store/Sound.antt =====
-- crates/rsproxy-trace/src/store.rs: the invariant of the store under a submission and a round of
-- the collector.
use rsproxy.Base.{
  ℕ, ◌+◌, ◌-◌, ◌≤◌, ◌<◌, ◌≡◌, refl, ap, Bool-cases, List-cases, subst, ◌⊎◌, ◌&&◌, leb, inl, inr,
  List, [], ◌∷◌, ◌++◌, length, length-append, ltb, arith, map,
}
use rsproxy.Base.Words.{word_max}
use rsproxy.Trace.Size.{Layout}
use rsproxy.Trace.Counters
use rsproxy.Trace.Counters.{TraceCounters, submit, try_reserve, release_queue_bytes}
use rsproxy.Trace.Counters.Channel.{sum}
use rsproxy.Trace.Worker.{SpillOps, TraceWorker}
use rsproxy.Trace.Worker.Run.{Command, event, events, handle}
use rsproxy.Trace.Worker.Budget.{IsWithin, Submitted, handle-IsWithin}
use rsproxy.Trace.Store.{TraceStore, submit_command, collect}

-- What a command is charged to the queue; a query is free.
abbrev pub queued_bytes : Command → ℕ
queued_bytes (event e bytes) = bytes
queued_bytes (events es bytes) = bytes
queued_bytes _ = 0

-- A command that `query` sends.
abbrev pub IsQuery : Command → Type 0
IsQuery (event e bytes) = ⊥
IsQuery (events es bytes) = ⊥
IsQuery Command.shutdown = ⊥
IsQuery _ = Unit

abbrev pub AllSubmitted : List Command → Type 0
AllSubmitted [] = Unit
AllSubmitted (c ∷ cs) = Submitted c × AllSubmitted cs

pub AllSubmitted-append :
    (cs : List Command) (c : Command) → AllSubmitted cs → Submitted c → AllSubmitted (cs ++ c ∷ [])
AllSubmitted-append [] c u h = (h, tt)
AllSubmitted-append (d ∷ cs) c (h, u) h' = (h, AllSubmitted-append cs c u h')

pub sum-queue :
    (cs : List Command) (c : Command)
    → sum (map queued_bytes (cs ++ c ∷ [])) ≡ sum (map queued_bytes cs) + queued_bytes c
sum-queue [] c = omega arith
sum-queue (d ∷ cs) c = omega (arith, sum-queue cs c)

pub IsQuery-Submitted : (c : Command) → IsQuery c → Submitted c × (queued_bytes c ≡ 0)
IsQuery-Submitted (event _ _) q = elim q [ ]
IsQuery-Submitted (events _ _) q = elim q [ ]
IsQuery-Submitted Command.shutdown q = elim q [ ]
IsQuery-Submitted (Command.list limit) q = (tt, refl)
IsQuery-Submitted (Command.list_after after limit) q = (tt, refl)
IsQuery-Submitted (Command.get id) q = (tt, refl)
IsQuery-Submitted Command.clear_all q = (tt, refl)
IsQuery-Submitted Command.stats q = (tt, refl)
IsQuery-Submitted Command.spill_path q = (tt, refl)
IsQuery-Submitted Command.spill_snapshot q = (tt, refl)
IsQuery-Submitted (Command.spill_read_report generation corrupt) q = (tt, refl)
IsQuery-Submitted (Command.follow after limit follower asks) q = (tt, refl)

module _ (spill_ops : SpillOps) (lay : Layout) where
  open spill_ops use {State}

  -- The invariant, for the two shares of the budget and the channel's capacity.
  pub record IsSound (queue_budget resident capacity : ℕ) (st : TraceStore spill_ops) : Type 0 where
    pub within : IsWithin spill_ops lay resident st.worker
    pub submitted : AllSubmitted st.queue
    pub charged : st.counters.queue_bytes ≡ sum (map queued_bytes st.queue)
    pub fits : st.counters.queue_bytes ≤ queue_budget
    pub room : length st.queue ≤ capacity
    pub same_budget : st.queue_memory_budget_bytes ≡ queue_budget
    pub same_capacity : st.queue_capacity ≡ capacity

  -- A round of the collector releases what its command was charged.
  handle-counters :
      (now capacity : ℕ) (command : Command) (w : TraceWorker spill_ops) (c : TraceCounters)
      → (handle spill_ops lay now capacity command (w, c)).1.queue_bytes
        ≡ c.queue_bytes - queued_bytes command
  unfolding handle release_queue_bytes
  handle-counters now capacity (event e bytes) w c = omega arith
  handle-counters now capacity (events es bytes) w c = omega arith
  handle-counters now capacity Command.clear_all w c = omega arith
  handle-counters now capacity Command.stats w c = omega arith
  handle-counters now capacity Command.spill_path w c = omega arith
  handle-counters now capacity Command.spill_snapshot w c = omega arith
  handle-counters now capacity (Command.spill_read_report g n) w c = omega arith
  handle-counters now capacity (Command.follow a l f asks) w c = omega arith
  handle-counters now capacity (Command.list l) w c = omega arith
  handle-counters now capacity (Command.list_after a l) w c = omega arith
  handle-counters now capacity (Command.get id) w c = omega arith
  handle-counters now capacity Command.shutdown w c = omega arith

  submit_command-cases :
      (c : Command) (bytes : ℕ) (st : TraceStore spill_ops)
      → st.queue_memory_budget_bytes < word_max
      → (((submit_command spill_ops c bytes st).0.queue ≡ st.queue ++ c ∷ [])
          × ((submit_command spill_ops c bytes st).0.counters.queue_bytes
              ≡ st.counters.queue_bytes + bytes)
          × (st.counters.queue_bytes + bytes ≤ st.queue_memory_budget_bytes)
          × (length st.queue < st.queue_capacity))
        ⊎ (((submit_command spill_ops c bytes st).0.queue ≡ st.queue)
            × ((submit_command spill_ops c bytes st).0.counters.queue_bytes
                ≡ st.counters.queue_bytes))
  unfolding submit_command submit
  submit_command-cases c bytes st small =
      elim (Bool-cases (
        leb (st.counters.queue_bytes + bytes) st.queue_memory_budget_bytes
        && ltb (length st.queue) st.queue_capacity)) [
          | inl taken ↦ inl (ground arith)
          | inr refused ↦ inr (ground arith)
        ]

  module _ (queue_budget resident capacity : ℕ) (small : queue_budget < word_max) where
    pub submit-IsSound :
        (c : Command) (bytes : ℕ) (st : TraceStore spill_ops)
        → queued_bytes c ≡ bytes
        → Submitted c
        → IsSound queue_budget resident capacity st
        → IsSound queue_budget resident capacity (submit_command spill_ops c bytes st).0
    unfolding submit_command
    submit-IsSound c bytes st charge h i =
        elim (submit_command-cases c bytes st (rw i.same_budget small)) [
          | inl (queue, more, fits, room) ↦ record {
            within = i.within;
            submitted = rw queue (AllSubmitted-append st.queue c i.submitted h);
            charged = rw (queue, more) (omega (arith, i.charged, charge, sum-queue st.queue c));
            fits = omega (arith, i.same_budget);
            room = rw queue (omega (arith, i.same_capacity, length-append st.queue (c ∷ [])));
            same_budget = i.same_budget;
            same_capacity = i.same_capacity;
          }
          | inr (queue, same) ↦ record {
            within = i.within;
            submitted = rw queue i.submitted;
            charged = rw (queue, same) i.charged;
            fits = rw same i.fits;
            room = rw queue i.room;
            same_budget = i.same_budget;
            same_capacity = i.same_capacity;
          }
        ]

    pub numbered-IsSound :
        (st : TraceStore spill_ops)
        → IsSound queue_budget resident capacity st
        → IsSound queue_budget resident capacity
            (record st { counters = (Counters.next st.counters).1 })
    unfolding Counters.next
    numbered-IsSound st i = record {
      within = i.within;
      submitted = i.submitted;
      charged = i.charged;
      fits = i.fits;
      room = i.room;
      same_budget = i.same_budget;
      same_capacity = i.same_capacity;
    }

    pub collect-IsSound :
        (now : ℕ) (st : TraceStore spill_ops)
        → IsSound queue_budget resident capacity st
        → IsSound queue_budget resident capacity (collect spill_ops lay now st).0
    unfolding collect
    collect-IsSound now st i = elim (List-cases st.queue) [
      | inl idle ↦ rw (idle, collect) i
      | inr (command, queue, more) ↦
          let charge : sum (map queued_bytes st.queue)
              ≡ queued_bytes command + sum (map queued_bytes queue) =
            rw more refl in
          let (h, u) : Submitted command × AllSubmitted queue =
            subst AllSubmitted more i.submitted in
          let released = handle-counters now st.queue_capacity command st.worker st.counters in
          rw (more, collect)
            (record {
              within =
                  handle-IsWithin spill_ops lay resident now st.queue_capacity command st.worker
                    st.counters h i.within;
              submitted = u;
              charged = omega (arith, released, charge, i.charged);
              fits = omega (arith, released, i.fits);
              room = omega (arith, i.room, ap (length {A = Command}) more);
              same_budget = i.same_budget;
              same_capacity = i.same_capacity;
            })
    ]
