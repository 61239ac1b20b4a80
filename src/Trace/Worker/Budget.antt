-- ===== src/Trace/Worker/Budget.antt =====
-- crates/rsproxy-trace/src/store/worker.rs: the collector's sessions, pending and completed,
-- against the resident memory budget.
use rsproxy.Base.{
  ℕ, ◌+◌, ◌-◌, ◌≤◌, ◌≡◌, refl, ap, ◌∙◌, sym, subst, ◌⊎◌, inl, inr, Option, none, some, List, [],
  ◌∷◌, true, Bool-cases, arith, ltb,
}
use rsproxy.Base.Words.{sat_sub}
use rsproxy.Trace.Model.{Session}
use rsproxy.Trace.Size.{Layout}
use rsproxy.Trace.Event.{TraceEvent, session_id, from_session, continuation_from_session}
use rsproxy.Trace.Memory
use rsproxy.Trace.Memory.{MemoryStore}
use rsproxy.Trace.Memory.Bounds
use rsproxy.Trace.Memory.Bounds.{insert_lem, insert-IsValid, evict_to_budget_lem}
use rsproxy.Trace.Pending
use rsproxy.Trace.Pending.{PendingSessions, abort_for_budget}
use rsproxy.Trace.Pending.Evolve.{apply_all}
use rsproxy.Trace.Pending.Growth.{rest, abort_for_budget-le, apply-rest}
use rsproxy.Trace.Pending.Closing.{
  Closing, from_session-Closing, continuation_from_session-Closing, apply_all-Closing,
}
use rsproxy.Trace.Counters.{TraceCounters}
use rsproxy.Trace.Worker.{
  SpillOps, TraceWorker, prune_followers, enforce_memory_budget, commit, commit_all, apply_event,
  apply_events, clear, ensure_spill, record_spill_error,
}
use rsproxy.Trace.Worker.Commits.{commits, commit-memory, apply_events-commits}
use rsproxy.Trace.Worker.Run.{
  Command, event, events, take_stats, take_snapshot, report_corrupt, handle,
}

-- A list of events is one that `record` or `finish` makes of a completed session.
abbrev pub Submitted : Command → Type 0
Submitted (events es bytes) =
    (s : Session) × ((es ≡ from_session s) ⊎ (es ≡ continuation_from_session s))
Submitted _ = Unit

module _ (spill_ops : SpillOps) (lay : Layout) (budget : ℕ) where
  -- Between the steps of a command only the completed sessions are known to be in order.
  record IsOpen (w : TraceWorker spill_ops) : Type 0 where
    completed : Bounds.IsValid lay w.memory
    same_budget : w.memory.memory_budget_bytes ≡ budget

  -- The completed sessions are within their limits, and together with the pending ones they are
  -- charged no more than the resident budget, which is `budget`.
  pub record IsWithin (w : TraceWorker spill_ops) : Type 0 where
    pub completed : Bounds.IsValid lay w.memory
    pub same_budget : w.memory.memory_budget_bytes ≡ budget
    pub resident : w.memory.memory_bytes + w.pending.memory_bytes ≤ budget

  insert-budget :
      (m : MemoryStore) (s : Session)
      → Bounds.IsValid lay m
      → (Memory.insert lay m s).memory_budget_bytes ≡ m.memory_budget_bytes
  insert-budget m s v = elim (insert_lem lay m s v) [
    | inl (r, e) ↦ ap (λ (n : MemoryStore). n.memory_budget_bytes) e
    | inr (k, i) ↦ i.same_budget
  ]

  commit-IsOpen :
      (s : Session) (w : TraceWorker spill_ops) → IsOpen w → IsOpen (commit spill_ops lay s w)
  commit-IsOpen s w o =
      let (memory, pending) = commit-memory spill_ops lay s w in
      record {
        completed = rw memory (insert-IsValid lay w.memory s o.completed);
        same_budget = rw memory (insert-budget w.memory s o.completed ∙ o.same_budget);
      }

  commits-IsOpen :
      (ss : List Session) (w : TraceWorker spill_ops)
      → IsOpen w
      → IsOpen (commits spill_ops lay ss w) × ((commits spill_ops lay ss w).pending ≡ w.pending)
  commits-IsOpen [] w o = (o, refl)
  commits-IsOpen (s ∷ ss) w o =
      let (o', same) = commits-IsOpen ss (commit spill_ops lay s w) (commit-IsOpen s w o) in
      (o', same ∙ (commit-memory spill_ops lay s w).1)

  -- Once the pending sessions fit, the budget holds after eviction.
  evict-IsWithin :
      (w : TraceWorker spill_ops) (p : PendingSessions)
      → IsOpen w
      → p.memory_bytes ≤ budget
      → IsWithin (record w {
        pending = p;
        memory =
            Memory.evict_to_budget w.memory (sat_sub w.memory.memory_budget_bytes p.memory_bytes);
      })
  evict-IsWithin w p o h =
      let (k, d, t, low, v') =
        evict_to_budget_lem lay w.memory (w.memory.memory_budget_bytes - p.memory_bytes)
          o.completed in
      record {
        completed = v';
        same_budget = d.same_budget ∙ o.same_budget;
        resident = omega (arith, o.same_budget);
      }

  enforce-none-IsWithin :
      (w : TraceWorker spill_ops)
      → IsOpen w
      → w.pending.memory_bytes ≤ budget
      → IsWithin (enforce_memory_budget spill_ops lay none w)
  unfolding enforce_memory_budget
  enforce-none-IsWithin w o h = evict-IsWithin w w.pending o h

  enforce-some-IsWithin :
      (id : ℕ) (w : TraceWorker spill_ops)
      → IsOpen w
      → rest lay id w.pending ≤ budget
      → IsWithin (enforce_memory_budget spill_ops lay (some id) w)
  unfolding enforce_memory_budget
  enforce-some-IsWithin id w o h =
      elim (Bool-cases (ltb w.memory.memory_budget_bytes w.pending.memory_bytes)) [
        | inl over ↦ rw over (
            evict-IsWithin w (abort_for_budget lay id w.pending) o
              (omega (arith, abort_for_budget-le lay 0 id w.pending)))
        | inr fits ↦ rw fits (evict-IsWithin w w.pending o (let b = o.same_budget in ground arith))
      ]

  commit_all-IsOpen :
      (found : Option Session) (w : TraceWorker spill_ops) (p : PendingSessions)
      → IsOpen w
      → IsOpen (commit_all spill_ops lay found (record w { pending = p }))
        × ((commit_all spill_ops lay found (record w { pending = p })).pending ≡ p)
  unfolding commit_all
  commit_all-IsOpen none w p o =
      (record { completed = o.completed; same_budget = o.same_budget }, refl)
  commit_all-IsOpen (some s) w p o = (
    commit-IsOpen s (record w { pending = p })
        (record { completed = o.completed; same_budget = o.same_budget }),
    (commit-memory spill_ops lay s (record w { pending = p })).1,
  )

  IsOpen-IsWithin : (w : TraceWorker spill_ops) → IsWithin w → IsOpen w
  IsOpen-IsWithin w i = record { completed = i.completed; same_budget = i.same_budget }

  event-IsWithin :
      (now : ℕ) (e : TraceEvent) (w : TraceWorker spill_ops)
      → IsWithin w
      → IsWithin (apply_event spill_ops lay now true e w)
  unfolding apply_event
  event-IsWithin now e w i =
      let step = Pending.apply lay now e w.pending in
      let (o, same) = commit_all-IsOpen step.1 w step.0 (IsOpen-IsWithin w i) in
      enforce-some-IsWithin (session_id e) _ o (
        omega
          (arith, ap (rest lay (session_id e)) same, apply-rest lay now e w.pending, i.resident))

  events-IsWithin :
      (now id : ℕ) {es : List TraceEvent} (w : TraceWorker spill_ops)
      → Closing id es
      → IsWithin w
      → IsWithin (enforce_memory_budget spill_ops lay none (apply_events spill_ops lay now es w))
  events-IsWithin now id {es} w c i =
      let run = apply_all lay now es w.pending in
      let (o, same) =
        commits-IsOpen run.1 (record w { pending = run.0 })
          (record { completed = i.completed; same_budget = i.same_budget }) in
      subst (λ w'. IsWithin (enforce_memory_budget spill_ops lay none w'))
        (sym (apply_events-commits spill_ops lay now es w))
        (enforce-none-IsWithin _ o (
          omega (
            arith,
            ap (λ (p : PendingSessions). p.memory_bytes) same,
            apply_all-Closing lay now id w.pending c,
            i.resident,
          )))

  Submitted-Closing :
      (es : List TraceEvent) (bytes : ℕ) → Submitted (events es bytes) → (id : ℕ) × Closing id es
  Submitted-Closing es bytes (s, inl e) =
      (s.id, subst (Closing s.id) (sym e) (from_session-Closing s))
  Submitted-Closing es bytes (s, inr e) =
      (s.id, subst (Closing s.id) (sym e) (continuation_from_session-Closing s))

  -- The invariant is about the sessions only.
  same-IsWithin :
      (w : TraceWorker spill_ops) {w' : TraceWorker spill_ops}
      → (w'.memory ≡ w.memory) × (w'.pending ≡ w.pending)
      → IsWithin w
      → IsWithin w'
  same-IsWithin w (memory, pending) i = record {
    completed = rw memory i.completed;
    same_budget = rw memory i.same_budget;
    resident = rw (memory, pending) i.resident;
  }

  ensure_spill-same :
      (w : TraceWorker spill_ops)
      → ((ensure_spill spill_ops w).memory ≡ w.memory)
        × ((ensure_spill spill_ops w).pending ≡ w.pending)
  unfolding ensure_spill record_spill_error
  ensure_spill-same w = ground arith

  take_stats-same :
      (c : TraceCounters) (capacity : ℕ) (w : TraceWorker spill_ops)
      → ((take_stats spill_ops c capacity w).0.memory ≡ w.memory)
        × ((take_stats spill_ops c capacity w).0.pending ≡ w.pending)
  unfolding take_stats prune_followers
  take_stats-same c capacity w = ensure_spill-same w

  report_corrupt-same :
      (generation corrupt : ℕ) (w : TraceWorker spill_ops)
      → ((report_corrupt spill_ops generation corrupt w).memory ≡ w.memory)
        × ((report_corrupt spill_ops generation corrupt w).pending ≡ w.pending)
  unfolding report_corrupt
  report_corrupt-same generation corrupt w = ground arith

  take_snapshot-same :
      (w : TraceWorker spill_ops)
      → ((take_snapshot spill_ops w).memory ≡ w.memory)
        × ((take_snapshot spill_ops w).pending ≡ w.pending)
  unfolding take_snapshot
  take_snapshot-same w = ground arith

  clear-same :
      (w : TraceWorker spill_ops)
      → ((clear spill_ops w).memory ≡ Memory.clear w.memory)
        × ((clear spill_ops w).pending ≡ Pending.clear w.pending)
  unfolding clear record_spill_error Memory.clear Pending.clear
  clear-same w = ground arith

  clear-IsWithin : (w : TraceWorker spill_ops) → IsWithin w → IsWithin (clear spill_ops w)
  unfolding Memory.clear Pending.clear
  clear-IsWithin w i =
      let (memory, pending) = clear-same w in
      record {
        completed = rw memory (record {
          counted = refl;
          bounded = omega arith;
          within = omega arith;
          budget = i.completed.budget;
          evictions = i.completed.evictions;
          charged = tt;
        });
        same_budget = rw memory i.same_budget;
        resident = rw (memory, pending) (omega arith);
      }

  -- Whatever the command, the completed and the pending sessions together are charged no more than
  -- the resident budget after it, if they were before and a list of events is one that `record` or
  -- `finish` submits. The completed sessions stay within their own limits too.
  pub handle-IsWithin :
      (now capacity : ℕ) (command : Command) (w : TraceWorker spill_ops) (c : TraceCounters)
      → Submitted command
      → IsWithin w
      → IsWithin (handle spill_ops lay now capacity command (w, c)).0
  unfolding handle
  handle-IsWithin now capacity (event e bytes) w c u i = event-IsWithin now e w i
  handle-IsWithin now capacity (events es bytes) w c u i =
      let (id, closing) = Submitted-Closing es bytes u in events-IsWithin now id w closing i
  handle-IsWithin now capacity Command.clear_all w c u i = clear-IsWithin w i
  handle-IsWithin now capacity Command.stats w c u i =
      same-IsWithin w (take_stats-same c capacity w) i
  handle-IsWithin now capacity Command.spill_path w c u i = same-IsWithin w (ensure_spill-same w) i
  handle-IsWithin now capacity Command.spill_snapshot w c u i =
      same-IsWithin w (take_snapshot-same w) i
  handle-IsWithin now capacity (Command.spill_read_report g n) w c u i =
      same-IsWithin w (report_corrupt-same g n w) i
  handle-IsWithin now capacity (Command.follow a l f asks) w c u i =
      same-IsWithin w (ground arith) i
  handle-IsWithin now capacity (Command.list l) w c u i = i
  handle-IsWithin now capacity (Command.list_after a l) w c u i = i
  handle-IsWithin now capacity (Command.get id) w c u i = i
  handle-IsWithin now capacity Command.shutdown w c u i = i
