-- ===== src/Trace/Pending/Closing.antt =====
-- crates/rsproxy-trace/src/store.rs: the lists of events that `record` and `finish` submit, and the
-- bytes that they leave pending.
use rsproxy.Base.{
  ℕ, ◌-◌, ◌≤◌, ◌<◌, ◌≡◌, refl, inl, inr, Option, none, some, List, [], ◌∷◌, ◌++◌, map, ltb, not,
  ◌||◌, Bool-cases, arith,
}
use rsproxy.Trace.Model.{Text, FrameRecord, TlsRecord, Session}
use rsproxy.Trace.Size.{Layout}
use rsproxy.Trace.Event.{
  BodyDirection, TraceEvent, session_id, from_session, continuation_from_session, snapshot_events,
  session_start, session_end, SessionEnd, request_body, response_body, is_empty,
}
use rsproxy.Trace.Pending.{
  PendingSessions, cleanup_interval, expire_stale, update, abort_for_budget, open_session,
  end_session, dispatch, apply,
}
use rsproxy.Trace.Pending.Evolve.{apply_all, collect, expire_stale-recent, recent-expire_stale}
use rsproxy.Trace.Pending.Growth.{rest, expire_stale-le, end_session-le, dispatch-rest}

-- Events of one session, the last of which ends it.
pub data Closing (id : ℕ) : List TraceEvent → Type 0 where
  last : (i : ℕ) (e : SessionEnd) → i ≡ id → Closing id (TraceEvent.end i e ∷ [])
  more :
      {es : List TraceEvent} (e : TraceEvent)
      → session_id e ≡ id
      → Closing id es
      → Closing id (e ∷ es)

snapshot-Closing :
    (id : ℕ) (d : BodyDirection) (head : Text) (bytes : ℕ) (es : List TraceEvent)
    → Closing id es
    → Closing id (snapshot_events id d head bytes ++ es)
unfolding snapshot_events session_id
snapshot-Closing id d head bytes es c =
    elim (Bool-cases (ltb 0 bytes || not (is_empty head.items))) [
      | inl seen ↦ rw seen (more _ refl c)
      | inr unseen ↦ rw unseen c
    ]

frames-Closing :
    (id : ℕ) (fs : List FrameRecord) (es : List TraceEvent)
    → Closing id es
    → Closing id (map (TraceEvent.frame id) fs ++ es)
unfolding session_id
frames-Closing id [] es c = c
frames-Closing id (f ∷ fs) es c = more _ refl (frames-Closing id fs es c)

tls-Closing :
    (id : ℕ) (rs : List TlsRecord) (es : List TraceEvent)
    → Closing id es
    → Closing id (map (TraceEvent.tls id) rs ++ es)
unfolding session_id
tls-Closing id [] es c = c
tls-Closing id (r ∷ rs) es c = more _ refl (tls-Closing id rs es c)

pub continuation_from_session-Closing : (s : Session) → Closing s.id (continuation_from_session s)
unfolding continuation_from_session session_id
continuation_from_session-Closing s =
    more (TraceEvent.request s.id none none s.req_headers s.req_trailers s.matched_rules) refl (
      snapshot-Closing s.id request_body s.req_body_head s.request_bytes _ (
        more (TraceEvent.response s.id s.status s.res_headers s.res_trailers) refl (
          snapshot-Closing s.id response_body s.res_body_head s.response_bytes _ (
            frames-Closing s.id s.frames.items _
              (tls-Closing s.id s.tls.items _ (last s.id (session_end s) refl))))))

pub from_session-Closing : (s : Session) → Closing s.id (from_session s)
unfolding continuation_from_session session_id
from_session-Closing s =
    more (TraceEvent.start s.id (session_start s)) refl (continuation_from_session-Closing s)

dispatch-last_cleanup :
    (lay : Layout) (now : ℕ) (e : TraceEvent) (p : PendingSessions)
    → (dispatch lay now e p).0.last_cleanup ≡ p.last_cleanup
unfolding dispatch update open_session end_session abort_for_budget
dispatch-last_cleanup lay now e p = ground arith

collect-fst : (o : Option Session) (r : PendingSessions × List Session) → (collect o r).0 ≡ r.0
collect-fst none r = refl
collect-fst (some s) r = refl

module _ (lay : Layout) (now bound : ℕ) where
  -- From a state where no clean-up is due.
  Closing-recent :
      (id : ℕ) {es : List TraceEvent} (p : PendingSessions)
      → Closing id es
      → rest lay id p ≤ bound
      → now - p.last_cleanup < cleanup_interval
      → (apply_all lay now es p).0.memory_bytes ≤ bound
  unfolding apply_all apply dispatch
  Closing-recent id p (last i e same) h r =
      rw (collect-fst, expire_stale-recent lay now p r, same)
        (omega (arith, end_session-le lay now id e p))
  Closing-recent id p (more {es} e same c) h r =
      rw (collect-fst, expire_stale-recent lay now p r)
        (Closing-recent id (dispatch lay now e p).0 c
          (omega (arith, rw same at (dispatch-rest lay now e p)))
          (rw (dispatch-last_cleanup lay now e p) r))

-- A closing list of events leaves no more bytes pending than there were before it.
pub apply_all-Closing :
    (lay : Layout) (now id : ℕ) {es : List TraceEvent} (p : PendingSessions)
    → Closing id es
    → (apply_all lay now es p).0.memory_bytes ≤ p.memory_bytes
unfolding apply_all apply dispatch
apply_all-Closing lay now id p (last i e same) =
    rw collect-fst (
      omega (arith, end_session-le lay now i e (expire_stale lay now p), expire_stale-le lay now p))
apply_all-Closing lay now id p (more {es} e same c) =
    let base = expire_stale lay now p in
    rw collect-fst (
      Closing-recent lay now p.memory_bytes id (dispatch lay now e base).0 c
        (omega (arith, rw same at (dispatch-rest lay now e base), expire_stale-le lay now p))
        (rw (dispatch-last_cleanup lay now e base) (recent-expire_stale lay now p)))
