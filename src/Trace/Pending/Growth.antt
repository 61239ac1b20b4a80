-- ===== src/Trace/Pending/Growth.antt =====
-- crates/rsproxy-trace/src/store/pending.rs: how far one event can move the byte counter of
-- `PendingSessions`.
use rsproxy.Base.{
  ℕ, ◌-◌, ◌≤◌, ◌≡◌, refl, ap, sym, inl, inr, Option, none, some, Option-cases, arith,
}
use rsproxy.Base.Words.{sat_add, sat_add-min}
use rsproxy.Base.Assoc.{lookup, insert, lookup-insert_self}
use rsproxy.Trace.Model.{Session}
use rsproxy.Trace.Size.{Layout}
use rsproxy.Trace.Event.{SessionStart, SessionEnd, TraceEvent, session_id}
use rsproxy.Trace.Pending.{
  PendingSession, PendingSessions, charge, expire_stale, update, abort_for_budget, opened,
  open_session, end_session, dispatch, apply,
}

-- What a session is charged for, if there is one.
abbrev pub charge_opt : Layout → Option PendingSession → ℕ
charge_opt lay none = 0
charge_opt lay (some pending) = charge lay pending

abbrev pub charge_at : Layout → ℕ → PendingSessions → ℕ
charge_at lay id p = charge_opt lay (lookup id p.sessions)

-- The counter without that session.
abbrev pub rest : Layout → ℕ → PendingSessions → ℕ
rest lay id p = p.memory_bytes - charge_at lay id p

module _ (lay : Layout) (now : ℕ) where
  pub expire_stale-le :
      (p : PendingSessions) → (expire_stale lay now p).memory_bytes ≤ p.memory_bytes
  unfolding expire_stale
  expire_stale-le p = ground arith

  -- With an entry put under the identifier, and the counter adjusted by its charge and the old one.
  charged-rest :
      (id m : ℕ) (x : PendingSession) (p : PendingSessions) (o : Option PendingSession)
      → m ≡ sat_add (p.memory_bytes - charge_opt lay o) (charge lay x)
      → m - charge_opt lay (lookup id (insert id x p.sessions)) ≤ p.memory_bytes - charge_opt lay o
  charged-rest id m x p o e = omega (
    arith,
    ap (charge_opt lay) (lookup-insert_self id x p.sessions),
    sat_add-min (p.memory_bytes - charge_opt lay o) (charge lay x),
  )

  update-rest :
      (id : ℕ) (change : Session → Session) (p : PendingSessions)
      → rest lay id (update lay now id change p).0 ≤ rest lay id p
  unfolding update
  update-rest id change p = elim (Option-cases (lookup id p.sessions)) [
    | inl gone ↦ rw (gone, update) (omega arith)
    | inr (old, there) ↦ rw (there, update) (charged-rest id _ _ p (some old) refl)
  ]

  open_session-rest :
      (id : ℕ) (s : SessionStart) (p : PendingSessions)
      → rest lay id (open_session lay now id s p) ≤ rest lay id p
  unfolding open_session
  open_session-rest id s p = elim (Option-cases (lookup id p.sessions)) [
    | inl gone ↦
        let same : p.memory_bytes - 0 ≡ p.memory_bytes = omega arith in
        rw (gone, open_session)
          (charged-rest id _ _ p none (
            ap (λ m. sat_add m (charge lay (record { session = opened id s; touched = now })))
              (sym same)))
    | inr (old, there) ↦ rw (there, open_session) (charged-rest id _ _ p (some old) refl)
  ]

  -- An aborted session is no longer counted.
  pub abort_for_budget-le :
      (id : ℕ) (p : PendingSessions) → (abort_for_budget lay id p).memory_bytes ≤ rest lay id p
  unfolding abort_for_budget
  abort_for_budget-le id p = elim (Option-cases (lookup id p.sessions)) [
    | inl gone ↦ rw (gone, abort_for_budget) (omega (arith, ap (charge_opt lay) gone))
    | inr (old, there) ↦ rw (there, abort_for_budget) (omega (arith, ap (charge_opt lay) there))
  ]

  pub end_session-le :
      (id : ℕ) (e : SessionEnd) (p : PendingSessions)
      → (end_session lay id e p).0.memory_bytes ≤ rest lay id p
  unfolding end_session
  end_session-le id e p = elim (Option-cases (lookup id p.sessions)) [
    | inl gone ↦ rw (gone, end_session) (omega (arith, ap (charge_opt lay) gone))
    | inr (old, there) ↦ rw (there, end_session) (omega (arith, ap (charge_opt lay) there))
  ]

  pub dispatch-rest :
      (e : TraceEvent) (p : PendingSessions)
      → rest lay (session_id e) (dispatch lay now e p).0 ≤ rest lay (session_id e) p
  unfolding dispatch session_id
  dispatch-rest (TraceEvent.start id s) p = open_session-rest id s p
  dispatch-rest (TraceEvent.end id e) p = omega (arith, end_session-le id e p)
  dispatch-rest (TraceEvent.abort id) p = omega (arith, abort_for_budget-le id p)
  dispatch-rest (TraceEvent.request id m u h t r) p = update-rest id _ p
  dispatch-rest (TraceEvent.response id s h t) p = update-rest id _ p
  dispatch-rest (TraceEvent.body_chunk id d b o) p = update-rest id _ p
  dispatch-rest (TraceEvent.body_snapshot id d b o) p = update-rest id _ p
  dispatch-rest (TraceEvent.frame id f) p = update-rest id _ p
  dispatch-rest (TraceEvent.tls id r) p = update-rest id _ p

  -- One event adds no more to the counter than its own session is charged for.
  pub apply-rest :
      (e : TraceEvent) (p : PendingSessions)
      → rest lay (session_id e) (apply lay now e p).0 ≤ p.memory_bytes
  unfolding apply
  apply-rest e p = omega (arith, dispatch-rest e (expire_stale lay now p), expire_stale-le p)
