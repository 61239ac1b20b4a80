-- ===== src/Trace/Worker/Recorded.antt =====
-- A session that `record` of crates/rsproxy-trace/src/store.rs submits, and the `get` behind it.
use rsproxy.Base.{ℕ, ◌-◌, ◌<◌, ◌≡◌, sym, ap, ◌∙◌, subst, ◌⊎◌, inl, inr, none, some, [], ◌∷◌}
use rsproxy.Base.Assoc.{lookup}
use rsproxy.Trace.Model.{Session}
use rsproxy.Trace.Size.{Layout, estimate_session_bytes}
use rsproxy.Trace.Event.{from_session}
use rsproxy.Trace.Memory
use rsproxy.Trace.Memory.{MemoryStore, evict_to_budget, insert}
use rsproxy.Trace.Memory.Bounds
use rsproxy.Trace.Memory.Bounds.{Rejected, Inserted, insert_lem}
use rsproxy.Trace.Memory.Survives.{get-evict_to_budget}
use rsproxy.Trace.Pending.{PendingSessions, expire_stale}
use rsproxy.Trace.Pending.Evolve.{apply_all}
use rsproxy.Trace.Pending.Rebuild.{SameRecord}
use rsproxy.Trace.Pending.Batch.{apply_all-from_session}
use rsproxy.Trace.Counters.{TraceCounters}
use rsproxy.Trace.Worker.{SpillOps, TraceWorker, enforce_memory_budget, commit, apply_events}
use rsproxy.Trace.Worker.Commits.{commits, commit-memory, apply_events-commits}
use rsproxy.Trace.Worker.Run.{Command, events, one_session, handle}

-- The session is too large: for the store, or for what the pending sessions leave of the budget.
abbrev pub IsTooLarge : Layout → MemoryStore → PendingSessions → Session → Type 0
IsTooLarge lay m p t =
    Rejected lay m t ⊎ (m.memory_budget_bytes - p.memory_bytes < estimate_session_bytes lay t)

-- One session goes into the store and the store down to what the pending sessions leave.
get-insert-evict :
    (lay : Layout) (m : MemoryStore) (p : PendingSessions) (t : Session) (id : ℕ)
    → Bounds.IsValid lay m
    → t.id ≡ id
    → Memory.get m id ≡ none
    → (Memory.get
          (evict_to_budget (insert lay m t) ((insert lay m t).memory_budget_bytes - p.memory_bytes))
          id
        ≡ some t)
      ⊎ IsTooLarge lay m p t
get-insert-evict lay m p t id v same absent = elim (insert_lem lay m t v) [
  | inl (r, e) ↦ inr (inl r)
  | inr (k, i) ↦
      let budget = (insert lay m t).memory_budget_bytes - p.memory_bytes in
      elim (get-evict_to_budget lay m (insert lay m t) t k budget i
        (subst (λ n. Memory.get m n ≡ none) (sym same) absent)) [
          | inl found ↦ inl (
              subst (λ n. Memory.get (evict_to_budget (insert lay m t) budget) n ≡ some t) same
                found)
          | inr large ↦ inr (
              inr (
                subst (λ b. b - p.memory_bytes < estimate_session_bytes lay t) i.same_budget large))
        ]
]

module _ (spill_ops : SpillOps) (lay : Layout) where
  -- The events of one session commit it, and then the budget is enforced.
  recorded-memory :
      (now : ℕ) (s t : Session) (w : TraceWorker spill_ops)
      → (apply_all lay now (from_session s) w.pending).1 ≡ t ∷ []
      → (enforce_memory_budget spill_ops lay none
          (apply_events spill_ops lay now (from_session s) w)).memory
        ≡ evict_to_budget (insert lay w.memory t) (
            (insert lay w.memory t).memory_budget_bytes
            - (apply_all lay now (from_session s) w.pending).0.memory_bytes)
  unfolding enforce_memory_budget
  recorded-memory now s t w completed =
      let run = apply_all lay now (from_session s) w.pending in
      let opened : TraceWorker spill_ops = record w { pending = run.0 } in
      let whole : apply_events spill_ops lay now (from_session s) w
          ≡ commit spill_ops lay t opened =
        apply_events-commits spill_ops lay now (from_session s) w
        ∙ ap (λ l. commits spill_ops lay l opened) completed in
      let (memory, pending) = commit-memory spill_ops lay t opened in
      ap
        (λ (u : TraceWorker spill_ops).
          evict_to_budget u.memory (u.memory.memory_budget_bytes - u.pending.memory_bytes))
        whole
      ∙ (ap
            (λ (m : MemoryStore).
              evict_to_budget m
                (m.memory_budget_bytes - (commit spill_ops lay t opened).pending.memory_bytes))
            memory
          ∙ ap
              (λ (p : PendingSessions).
                evict_to_budget (insert lay w.memory t)
                  ((insert lay w.memory t).memory_budget_bytes - p.memory_bytes))
              pending)

  -- A recorded session, once the collector has handled it, is what `get` answers, with its body
  -- prefixes cut at the limit, if its identifier is neither in the store nor pending; or it is too
  -- large for the budget.
  pub handle-recorded :
      (now later capacity bytes : ℕ) (s : Session) (w : TraceWorker spill_ops) (c : TraceCounters)
      → Bounds.IsValid lay w.memory
      → Memory.get w.memory s.id ≡ none
      → lookup s.id (expire_stale lay now w.pending).sessions ≡ none
      → let after = handle spill_ops lay now capacity (events (from_session s) bytes) (w, c) in
        (t : Session) × SameRecord w.pending.body_limit s t
        × (((handle spill_ops lay later capacity (Command.get s.id) (after.0, after.1)).2
              ≡ one_session (some t))
            ⊎ IsTooLarge lay w.memory (apply_all lay now (from_session s) w.pending).0 t)
  unfolding handle
  handle-recorded now later capacity bytes s w c v absent free =
      let (t, same, completed, sessions, incomplete, orphans) =
        apply_all-from_session lay now s w.pending free in
      (
        t,
        same,
        elim (get-insert-evict lay w.memory (apply_all lay now (from_session s) w.pending).0 t s.id
            v same.id absent) [
              | inr large ↦ inr large
              | inl found ↦ inl (
                  ap one_session
                    (ap (λ m. Memory.get m s.id) (recorded-memory now s t w completed) ∙ found))
            ],
      )
