-- ===== src/Trace/Pending/Accounting.antt =====
-- The byte counter of `PendingSessions` against the sessions that it holds.
use rsproxy.Base.{
  ℕ, ◌+◌, ◌-◌, ◌≤◌, min, ◌≡◌, inl, inr, not, List, [], ◌∷◌, filter, ltb, Bool-cases, Option-cases,
  arith,
}
use rsproxy.Base.Words.{word_max, sat_add, sat_add-le, sat_add-min}
use rsproxy.Base.Assoc.{
  lookup, insert, Unique, total, Unique-insert, Unique-remove, Unique-filter, total-remove,
  total-insert_new, total-insert_old, total-filter,
}
use rsproxy.Trace.Model.{Session}
use rsproxy.Trace.Size.{Layout}
use rsproxy.Trace.Event.{SessionStart, SessionEnd, TraceEvent}
use rsproxy.Trace.Pending.{
  PendingSession, PendingSessions, cleanup_interval, charge, is_live, removed_bytes, expire_stale,
  update, abort_for_budget, opened, open_session, end_session, dispatch, apply,
}

-- The keys are unique, and the counter is the sum of what the sessions are charged for.
pub record Accounted (lay : Layout) (p : PendingSessions) : Type 0 where
  pub unique : Unique p.sessions
  pub exact : p.memory_bytes ≡ total (charge lay) p.sessions
  pub small : p.memory_bytes ≤ word_max

module _ (lay : Layout) (now : ℕ) where
  removed_bytes-total :
      (acc : ℕ) (m : List (ℕ × PendingSession))
      → acc ≤ word_max
      → removed_bytes lay now acc m
        ≡ min (acc + total (charge lay) (filter (λ e. not (is_live now e)) m)) word_max
  unfolding removed_bytes total
  removed_bytes-total acc [] h = omega arith
  removed_bytes-total acc ((i, w) ∷ m) h = elim (Bool-cases (is_live now (i, w))) [
    | inl live ↦ rw live (removed_bytes-total acc m h)
    | inr dead ↦ rw dead (
        omega (
          arith,
          removed_bytes-total (sat_add acc (charge lay w)) m (sat_add-le _ _),
          sat_add-min acc (charge lay w),
        ))
  ]

  pub expire_stale-Accounted :
      (p : PendingSessions) → Accounted lay p → Accounted lay (expire_stale lay now p)
  unfolding expire_stale
  expire_stale-Accounted p a = elim (Bool-cases (ltb (now - p.last_cleanup) cleanup_interval)) [
    | inl early ↦ rw (early, expire_stale) a
    | inr late ↦
        rw (late, expire_stale)
          (record {
            unique = Unique-filter (is_live now) p.sessions a.unique;
            exact = omega (
              arith,
              removed_bytes-total 0 p.sessions (omega arith),
              total-filter (charge lay) (is_live now) p.sessions,
            );
            small = omega arith;
          })
  ]

  -- The sum of the charges stays within a machine word; on a real machine it does.
  abbrev pub Fits : PendingSessions → Type 0
  Fits p = total (charge lay) p.sessions ≤ word_max

  update-Accounted :
      (id : ℕ) (change : Session → Session) (p : PendingSessions)
      → Accounted lay p
      → Fits (update lay now id change p).0
      → Accounted lay (update lay now id change p).0
  unfolding update sat_add
  update-Accounted id change p a f = elim (Option-cases (lookup id p.sessions)) [
    | inl none_there ↦
        rw (none_there, update) (record { unique = a.unique; exact = a.exact; small = a.small })
    | inr (old, there) ↦
        let changed : PendingSession = record { session = change old.session; touched = now } in
        let fits : total (charge lay) (insert id changed p.sessions) ≤ word_max =
          rw (there, update) at f in
        rw (there, update)
          (record {
            unique = Unique-insert id changed p.sessions a.unique;
            exact = omega (
              arith,
              fits,
              total-insert_old (charge lay) id changed old p.sessions there,
              total-remove (charge lay) id old p.sessions there,
            );
            small = omega arith;
          })
  ]

  abort_for_budget-Accounted :
      (id : ℕ) (p : PendingSessions) → Accounted lay p → Accounted lay (abort_for_budget lay id p)
  unfolding abort_for_budget
  abort_for_budget-Accounted id p a = elim (Option-cases (lookup id p.sessions)) [
    | inl none_there ↦ rw (none_there, abort_for_budget) a
    | inr (old, there) ↦
        rw (there, abort_for_budget)
          (record {
            unique = Unique-remove id p.sessions a.unique;
            exact = omega (arith, total-remove (charge lay) id old p.sessions there);
            small = omega arith;
          })
  ]

  open_session-Accounted :
      (id : ℕ) (start : SessionStart) (p : PendingSessions)
      → Accounted lay p
      → Fits (open_session lay now id start p)
      → Accounted lay (open_session lay now id start p)
  unfolding open_session sat_add
  open_session-Accounted id start p a f =
      let pending : PendingSession = record { session = opened id start; touched = now } in
      elim (Option-cases (lookup id p.sessions)) [
        | inl new_there ↦
            let fits : total (charge lay) (insert id pending p.sessions) ≤ word_max =
              rw (new_there, open_session) at f in
            rw (new_there, open_session)
              (record {
                unique = Unique-insert id pending p.sessions a.unique;
                exact =
                    omega
                      (arith, fits, total-insert_new (charge lay) id pending p.sessions new_there);
                small = omega arith;
              })
        | inr (old, there) ↦
            let fits : total (charge lay) (insert id pending p.sessions) ≤ word_max =
              rw (there, open_session) at f in
            rw (there, open_session)
              (record {
                unique = Unique-insert id pending p.sessions a.unique;
                exact = omega (
                  arith,
                  fits,
                  total-insert_old (charge lay) id pending old p.sessions there,
                  total-remove (charge lay) id old p.sessions there,
                );
                small = omega arith;
              })
      ]

  end_session-Accounted :
      (id : ℕ) (e : SessionEnd) (p : PendingSessions)
      → Accounted lay p
      → Accounted lay (end_session lay id e p).0
  unfolding end_session
  end_session-Accounted id e p a = elim (Option-cases (lookup id p.sessions)) [
    | inl none_there ↦
        rw (none_there, end_session)
          (record { unique = a.unique; exact = a.exact; small = a.small })
    | inr (old, there) ↦
        rw (there, end_session)
          (record {
            unique = Unique-remove id p.sessions a.unique;
            exact = omega (arith, total-remove (charge lay) id old p.sessions there);
            small = omega arith;
          })
  ]

  dispatch-Accounted :
      (e : TraceEvent) (p : PendingSessions)
      → Accounted lay p
      → Fits (dispatch lay now e p).0
      → Accounted lay (dispatch lay now e p).0
  unfolding dispatch
  dispatch-Accounted (TraceEvent.start id s) p a f = open_session-Accounted id s p a f
  dispatch-Accounted (TraceEvent.end id e) p a f = end_session-Accounted id e p a
  dispatch-Accounted (TraceEvent.abort id) p a f = abort_for_budget-Accounted id p a
  dispatch-Accounted (TraceEvent.request id m u h t r) p a f = update-Accounted id _ p a f
  dispatch-Accounted (TraceEvent.response id s h t) p a f = update-Accounted id _ p a f
  dispatch-Accounted (TraceEvent.body_chunk id d b o) p a f = update-Accounted id _ p a f
  dispatch-Accounted (TraceEvent.body_snapshot id d b o) p a f = update-Accounted id _ p a f
  dispatch-Accounted (TraceEvent.frame id r) p a f = update-Accounted id _ p a f
  dispatch-Accounted (TraceEvent.tls id r) p a f = update-Accounted id _ p a f

  -- Whatever the event, the byte counter is again the exact sum of the charges of the sessions
  -- that are pending, if that sum is a machine word, and the keys stay unique.
  pub apply-Accounted :
      (e : TraceEvent) (p : PendingSessions)
      → Accounted lay p
      → Fits (apply lay now e p).0
      → Accounted lay (apply lay now e p).0
  unfolding apply
  apply-Accounted e p a f =
      dispatch-Accounted e (expire_stale lay now p) (expire_stale-Accounted p a) f
