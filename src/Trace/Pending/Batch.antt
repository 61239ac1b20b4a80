-- ===== src/Trace/Pending/Batch.antt =====
-- crates/rsproxy-trace/src/event.rs: the events of a completed session, applied one after the
-- other.
use rsproxy.Base.{
  ℕ, ◌-◌, ◌<◌, ◌≡◌, refl, ap, sym, subst, ◌∙◌, true, none, some, [], ◌∷◌, arith, ◌==◌,
}
use rsproxy.Base.Assoc.{lookup, lookup-insert, remove-insert, remove_absent}
use rsproxy.Trace.Model.{Session}
use rsproxy.Trace.Size.{Layout}
use rsproxy.Trace.Event.{TraceEvent, from_session, session_start, session_end}
use rsproxy.Trace.Pending.{
  PendingSession, PendingSessions, cleanup_interval, expire_stale, on_end, opened, open_session,
  end_session, dispatch, apply,
}
use rsproxy.Trace.Pending.Evolve.{
  apply_all, evolve_all, Holds, expire_stale-recent, recent-expire_stale, apply_all-none,
  apply_all-some, apply_all-Holds,
}
use rsproxy.Trace.Pending.Rebuild.{
  SameRecord, middle, middle-AllUpdates, from_session-middle, evolve-middle, rebuilt-SameRecord,
}

expire_stale-same :
    (lay : Layout) (now : ℕ) (p : PendingSessions)
    → ((expire_stale lay now p).body_limit ≡ p.body_limit)
      × ((expire_stale lay now p).orphan_events ≡ p.orphan_events)
unfolding expire_stale
expire_stale-same lay now p = ground arith

module _ (lay : Layout) (now : ℕ) where
  start-Holds :
      (s : Session) (base : PendingSessions)
      → lookup s.id base.sessions ≡ none
      → now - base.last_cleanup < cleanup_interval
      → Holds now s.id base
          (opened s.id (session_start s))
          (open_session lay now s.id (session_start s) base)
  unfolding open_session
  start-Holds s base free recent =
      rw (free, open_session)
        (record {
          held = refl;
          same_limit = refl;
          same_incomplete = refl;
          same_orphans = refl;
          recent = recent;
        })

  end-Holds :
      (id : ℕ) (base p : PendingSessions) (s t : Session)
      → lookup id base.sessions ≡ none
      → Holds now id base s p
      → ((end_session lay id (session_end t) p).1 ≡ some (on_end (session_end t) s))
        × ((end_session lay id (session_end t) p).0.sessions ≡ base.sessions)
        × ((end_session lay id (session_end t) p).0.incomplete_sessions ≡ base.incomplete_sessions)
        × ((end_session lay id (session_end t) p).0.orphan_events ≡ base.orphan_events)
  unfolding end_session
  end-Holds id base p s t free h =
      let entry : PendingSession = record { session = s; touched = now } in
      let same : (id == id) ≡ true = ground arith in
      let there : lookup id p.sessions ≡ some entry =
        ap (lookup id) h.held ∙ rw (lookup-insert id id entry base.sessions, same) refl in
      rw (there, end_session)
        (
          refl,
          rw h.held (remove-insert id entry base.sessions ∙ remove_absent id base.sessions free),
          h.same_incomplete,
          h.same_orphans,
        )

  -- Applied to a collector in which its identifier is not pending, the events of a completed
  -- session complete exactly one session, which reads like the given one with its body prefixes cut
  -- at the limit. The sessions that are pending, and the counters of orphaned events and of lost
  -- sessions, are then those that the clean-up of the first event left.
  pub apply_all-from_session :
      (s : Session) (p : PendingSessions)
      → lookup s.id (expire_stale lay now p).sessions ≡ none
      → (t : Session) × SameRecord p.body_limit s t
        × ((apply_all lay now (from_session s) p).1 ≡ t ∷ [])
        × ((apply_all lay now (from_session s) p).0.sessions ≡ (expire_stale lay now p).sessions)
        × ((apply_all lay now (from_session s) p).0.incomplete_sessions
            ≡ (expire_stale lay now p).incomplete_sessions)
        × ((apply_all lay now (from_session s) p).0.orphan_events ≡ p.orphan_events)
  unfolding apply dispatch
  apply_all-from_session s p free =
      let base = expire_stale lay now p in
      let (kept_limit, kept_orphans) = expire_stale-same lay now p in
      let opening : apply lay now (TraceEvent.start s.id (session_start s)) p
          ≡ (open_session lay now s.id (session_start s) base, none) =
        refl in
      let last = TraceEvent.end s.id (session_end s) in
      let (q, held, updates) =
        apply_all-Holds lay now s.id base (middle s) (last ∷ []) _ _ (middle-AllUpdates s)
          (start-Holds s base free (recent-expire_stale lay now p)) in
      let (completed, sessions, incomplete, orphans) = end-Holds s.id base q _ s free held in
      let closing : apply lay now last q ≡ ((end_session lay s.id (session_end s) q).0, some _) =
        rw (expire_stale-recent lay now q held.recent)
          (ap (λ o. ((end_session lay s.id (session_end s) q).0, o)) completed) in
      let whole =
        ap (λ es. apply_all lay now es p) (from_session-middle s)
        ∙ (apply_all-none lay now _ _ p _ opening
            ∙ (updates ∙ apply_all-some lay now last q _ _ closing)) in
      let result =
        on_end (session_end s)
          (evolve_all base.body_limit (middle s) (opened s.id (session_start s))) in
      (
        result,
        subst (λ l. SameRecord l s result) kept_limit
            (subst (λ t. SameRecord base.body_limit s (on_end (session_end s) t))
              (sym (evolve-middle base.body_limit s)) (rebuilt-SameRecord base.body_limit s)),
        ap (λ r. r.1) whole,
        ap (λ r. r.0.sessions) whole ∙ sessions,
        ap (λ r. r.0.incomplete_sessions) whole ∙ incomplete,
        ap (λ r. r.0.orphan_events) whole ∙ (orphans ∙ kept_orphans),
      )
