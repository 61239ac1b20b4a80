-- ===== src/Trace/Pending/Evolve.antt =====
-- What a run of events does to one pending session: the fold of the closures that `apply` hands to
-- `update`, and the entry of the session under its identifier.
use rsproxy.Base.{
  ℕ, ◌-◌, ◌<◌, ◌≡◌, refl, ap, subst, ◌∙◌, true, Option, none, some, List, [], ◌∷◌, ◌++◌, ltb, arith,
  ◌==◌,
}
use rsproxy.Base.Assoc.{lookup, insert, lookup-insert, insert_twice}
use rsproxy.Trace.Model.{Session, push}
use rsproxy.Trace.Size.{Layout}
use rsproxy.Trace.Event.{TraceEvent}
use rsproxy.Trace.Pending.{
  PendingSession, PendingSessions, cleanup_interval, expire_stale, update, on_request, on_response,
  on_chunk, on_snapshot, dispatch, apply,
}

abbrev pub collect :
    Option Session → PendingSessions × List Session → PendingSessions × List Session
collect none r = r
collect (some s) r = (r.0, s ∷ r.1)

-- `apply` for each event of a list, with the sessions that are completed.
unfoldable pub apply_all :
    Layout → ℕ → List TraceEvent → PendingSessions → PendingSessions × List Session
apply_all lay now [] p = (p, [])
apply_all lay now (e ∷ es) p =
    let step = apply lay now e p in collect step.1 (apply_all lay now es step.0)

-- The events between the start and the end of session `id`.
abbrev pub IsUpdate : ℕ → TraceEvent → Type 0
IsUpdate id (TraceEvent.start i _) = ⊥
IsUpdate id (TraceEvent.request i _ _ _ _ _) = i ≡ id
IsUpdate id (TraceEvent.response i _ _ _) = i ≡ id
IsUpdate id (TraceEvent.body_chunk i _ _ _) = i ≡ id
IsUpdate id (TraceEvent.body_snapshot i _ _ _) = i ≡ id
IsUpdate id (TraceEvent.frame i _) = i ≡ id
IsUpdate id (TraceEvent.tls i _) = i ≡ id
IsUpdate id (TraceEvent.end i _) = ⊥
IsUpdate id (TraceEvent.abort i) = ⊥

abbrev pub AllUpdates : ℕ → List TraceEvent → Type 0
AllUpdates id [] = Unit
AllUpdates id (e ∷ es) = IsUpdate id e × AllUpdates id es

pub AllUpdates-append :
    (id : ℕ) (es fs : List TraceEvent)
    → AllUpdates id es
    → AllUpdates id fs
    → AllUpdates id (es ++ fs)
AllUpdates-append id [] fs h k = k
AllUpdates-append id (e ∷ es) fs h k = (h.0, AllUpdates-append id es fs h.1 k)

-- What one such event does to the session.
abbrev pub evolve : ℕ → TraceEvent → Session → Session
evolve limit (TraceEvent.request _ m u h t r) s = on_request m u h t r s
evolve limit (TraceEvent.response _ c h t) s = on_response c h t s
evolve limit (TraceEvent.body_chunk _ d b o) s = on_chunk limit d b o s
evolve limit (TraceEvent.body_snapshot _ d b o) s = on_snapshot limit d b o s
evolve limit (TraceEvent.frame _ f) s = record s { frames = push s.frames f }
evolve limit (TraceEvent.tls _ r) s = record s { tls = push s.tls r }
evolve limit _ s = s

abbrev pub evolve_all : ℕ → List TraceEvent → Session → Session
evolve_all limit [] s = s
evolve_all limit (e ∷ es) s = evolve_all limit es (evolve limit e s)

pub evolve_all-append :
    (limit : ℕ) (es fs : List TraceEvent) (s : Session)
    → evolve_all limit (es ++ fs) s ≡ evolve_all limit fs (evolve_all limit es s)
evolve_all-append limit [] fs s = refl
evolve_all-append limit (e ∷ es) fs s = evolve_all-append limit es fs (evolve limit e s)

-- The state is the given one, with `s` pending under `id`, and no clean-up is due.
pub record Holds (now id : ℕ) (base : PendingSessions) (s : Session) (p : PendingSessions)
    : Type 0 where
  pub held : p.sessions ≡ insert id (record { session = s; touched = now }) base.sessions
  pub same_limit : p.body_limit ≡ base.body_limit
  pub same_incomplete : p.incomplete_sessions ≡ base.incomplete_sessions
  pub same_orphans : p.orphan_events ≡ base.orphan_events
  pub recent : now - p.last_cleanup < cleanup_interval

pub expire_stale-recent :
    (lay : Layout) (now : ℕ) (p : PendingSessions)
    → now - p.last_cleanup < cleanup_interval
    → expire_stale lay now p ≡ p
unfolding expire_stale
expire_stale-recent lay now p h =
    let early : ltb (now - p.last_cleanup) cleanup_interval ≡ true = ground arith in
    rw (early, expire_stale)

pub recent-expire_stale :
    (lay : Layout) (now : ℕ) (p : PendingSessions)
    → now - (expire_stale lay now p).last_cleanup < cleanup_interval
unfolding expire_stale
recent-expire_stale lay now p = ground arith

pub apply_all-none :
    (lay : Layout) (now : ℕ) (e : TraceEvent) (es : List TraceEvent) (p p' : PendingSessions)
    → apply lay now e p ≡ (p', none)
    → apply_all lay now (e ∷ es) p ≡ apply_all lay now es p'
unfolding apply_all
apply_all-none lay now e es p p' h = ap (λ st. collect st.1 (apply_all lay now es st.0)) h

pub apply_all-some :
    (lay : Layout) (now : ℕ) (e : TraceEvent) (p p' : PendingSessions) (t : Session)
    → apply lay now e p ≡ (p', some t)
    → apply_all lay now (e ∷ []) p ≡ (p', t ∷ [])
unfolding apply_all
apply_all-some lay now e p p' t h = ap (λ st. collect st.1 (st.0, [])) h

module _ (lay : Layout) (now id : ℕ) (base : PendingSessions) where
  update-Holds :
      (change : Session → Session) (s : Session) (p : PendingSessions)
      → Holds now id base s p
      → Holds now id base (change s) (update lay now id change p).0
  unfolding update
  update-Holds change s p h =
      let entry : PendingSession = record { session = s; touched = now } in
      let same : (id == id) ≡ true = ground arith in
      let there : lookup id p.sessions ≡ some entry =
        ap (lookup id) h.held ∙ rw (lookup-insert id id entry base.sessions, same) refl in
      rw (there, update)
        (record {
          held = rw (h.held, insert_twice id _ entry base.sessions) refl;
          same_limit = h.same_limit;
          same_incomplete = h.same_incomplete;
          same_orphans = h.same_orphans;
          recent = h.recent;
        })

  dispatch-Holds :
      (e : TraceEvent) (s : Session) (p : PendingSessions)
      → IsUpdate id e
      → Holds now id base s p
      → Holds now id base (evolve base.body_limit e s) (dispatch lay now e p).0
        × ((dispatch lay now e p).1 ≡ none)
  unfolding dispatch
  dispatch-Holds (TraceEvent.start i x) s p u h = absurd u
  dispatch-Holds (TraceEvent.end i x) s p u h = absurd u
  dispatch-Holds (TraceEvent.abort i) s p u h = absurd u
  dispatch-Holds (TraceEvent.request i m l hs t r) s p u h = rw u (update-Holds _ s p h, refl)
  dispatch-Holds (TraceEvent.response i c hs t) s p u h = rw u (update-Holds _ s p h, refl)
  dispatch-Holds (TraceEvent.body_chunk i d b o) s p u h = rw u (
    subst
        (λ l.
          Holds now id base (on_chunk l d b o s)
            (update lay now id (on_chunk p.body_limit d b o) p).0)
        h.same_limit (update-Holds (on_chunk p.body_limit d b o) s p h),
    refl,
  )
  dispatch-Holds (TraceEvent.body_snapshot i d b o) s p u h = rw u (
    subst
        (λ l.
          Holds now id base (on_snapshot l d b o s)
            (update lay now id (on_snapshot p.body_limit d b o) p).0)
        h.same_limit (update-Holds (on_snapshot p.body_limit d b o) s p h),
    refl,
  )
  dispatch-Holds (TraceEvent.frame i f) s p u h = rw u (update-Holds _ s p h, refl)
  dispatch-Holds (TraceEvent.tls i r) s p u h = rw u (update-Holds _ s p h, refl)

  -- A run of updates of a pending session folds their closures over it and completes nothing.
  pub apply_all-Holds :
      (es fs : List TraceEvent) (s : Session) (p : PendingSessions)
      → AllUpdates id es
      → Holds now id base s p
      → (p' : PendingSessions) × Holds now id base (evolve_all base.body_limit es s) p'
        × (apply_all lay now (es ++ fs) p ≡ apply_all lay now fs p')
  unfolding apply_all apply
  apply_all-Holds [] fs s p u h = (p, h, refl)
  apply_all-Holds (e ∷ es) fs s p u h =
      let (h', nothing) = dispatch-Holds e s p u.0 h in
      let (p', h'', run) =
        apply_all-Holds es fs (evolve base.body_limit e s) (dispatch lay now e p).0 u.1 h' in
      let step : apply lay now e p ≡ ((dispatch lay now e p).0, none) =
        rw (expire_stale-recent lay now p h.recent)
          (ap (λ o. ((dispatch lay now e p).0, o)) nothing) in
      (p', h'', apply_all-none lay now e (es ++ fs) p _ step ∙ run)
