-- ===== src/Trace/Worker/Commits.antt =====
-- The parts of the collector's state that a step leaves alone, and what the events of a list commit.
use rsproxy.Base.{
  ℕ, ◌≡◌, refl, ap, ◌∙◌, sym, inl, inr, none, some, List, [], ◌∷◌, false, Option-cases, arith,
}
use rsproxy.Trace.Model.{Session}
use rsproxy.Trace.Size.{Layout}
use rsproxy.Trace.Event.{TraceEvent}
use rsproxy.Trace.Memory
use rsproxy.Trace.Pending
use rsproxy.Trace.Pending.{PendingSessions}
use rsproxy.Trace.Pending.Evolve.{apply_all, collect}
use rsproxy.Trace.Worker.{
  SpillOps, TraceWorker, publish, spill_session, commit, commit_all, apply_event, apply_events,
}

module _ (spill_ops : SpillOps) (lay : Layout) where
  open spill_ops use {append_spill}

  abbrev pub commits : List Session → TraceWorker spill_ops → TraceWorker spill_ops
  commits [] w = w
  commits (s ∷ ss) w = commits ss (commit spill_ops lay s w)

  -- A commit neither reads nor changes the pending sessions.
  commit-pending :
      (s : Session) (w : TraceWorker spill_ops) (p : PendingSessions)
      → commit spill_ops lay s (record w { pending = p })
        ≡ record (commit spill_ops lay s w) { pending = p }
  unfolding commit spill_session publish
  commit-pending s w p = ground arith

  pub commit-memory :
      (s : Session) (w : TraceWorker spill_ops)
      → ((commit spill_ops lay s w).memory ≡ Memory.insert lay w.memory s)
        × ((commit spill_ops lay s w).pending ≡ w.pending)
  unfolding commit spill_session publish
  commit-memory s w = ground arith

  -- One event, and the list of sessions that it completes.
  apply_event-none :
      (now : ℕ) (e : TraceEvent) (w : TraceWorker spill_ops) (p : PendingSessions)
      → Pending.apply lay now e w.pending ≡ (p, none)
      → apply_event spill_ops lay now false e w ≡ record w { pending = p }
  unfolding apply_event commit_all
  apply_event-none now e w p h =
      ap (λ st. commit_all spill_ops lay st.1 (record w { pending = st.0 })) h

  apply_event-some :
      (now : ℕ) (e : TraceEvent) (w : TraceWorker spill_ops) (p : PendingSessions) (s : Session)
      → Pending.apply lay now e w.pending ≡ (p, some s)
      → apply_event spill_ops lay now false e w ≡ commit spill_ops lay s (record w { pending = p })
  unfolding apply_event commit_all
  apply_event-some now e w p s h =
      ap (λ st. commit_all spill_ops lay st.1 (record w { pending = st.0 })) h

  abbrev pub committed :
      PendingSessions × List Session → TraceWorker spill_ops → TraceWorker spill_ops
  committed r w = commits r.1 (record w { pending = r.0 })

  -- The loop over a list of events does what the pending sessions make of the events, and then
  -- commits the completed sessions in order.
  pub apply_events-commits :
      (now : ℕ) (es : List TraceEvent) (w : TraceWorker spill_ops)
      → apply_events spill_ops lay now es w ≡ committed (apply_all lay now es w.pending) w
  unfolding apply_events apply_all
  apply_events-commits now [] w = refl
  apply_events-commits now (e ∷ es) w =
      let p = (Pending.apply lay now e w.pending).0 in
      elim (Option-cases (Pending.apply lay now e w.pending).1) [
        | inl nothing ↦
            let h : Pending.apply lay now e w.pending ≡ (p, none) = ap (λ o. (p, o)) nothing in
            ap (apply_events spill_ops lay now es) (apply_event-none now e w p h)
            ∙ (apply_events-commits now es (record w { pending = p })
                ∙ ap (λ o. committed (collect o (apply_all lay now es p)) w) (sym nothing))
        | inr (s, some_s) ↦
            let h : Pending.apply lay now e w.pending ≡ (p, some s) = ap (λ o. (p, o)) some_s in
            let next = commit spill_ops lay s (record w { pending = p }) in
            let same : next.pending ≡ p = (commit-memory s (record w { pending = p })).1 in
            ap (apply_events spill_ops lay now es) (apply_event-some now e w p s h)
            ∙ (apply_events-commits now es next
                ∙ (ap (λ q. committed (apply_all lay now es q) next) same
                    ∙ (ap (commits (apply_all lay now es p).1) (
                          sym (
                            commit-pending s (record w { pending = p }) (apply_all lay now es p).0))
                        ∙ ap (λ o. committed (collect o (apply_all lay now es p)) w) (sym some_s))))
      ]
