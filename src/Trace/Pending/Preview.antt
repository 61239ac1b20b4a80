-- ===== src/Trace/Pending/Preview.antt =====
-- The retained prefixes of the bodies of pending sessions.
use rsproxy.Base.{
  ℕ, ◌-◌, ◌≤◌, ◌≡◌, refl, inl, inr, Option, none, some, List, ◌++◌, length, take, length-append,
  length-take, ltb, Bool-cases, Option-cases, arith,
}
use rsproxy.Base.Assoc.{
  lookup, AllValues, AllValues-lookup, AllValues-insert, AllValues-remove, AllValues-filter,
}
use rsproxy.Trace.Model.{Text, Session, new_session, clear_buf}
use rsproxy.Trace.Size.{Layout}
use rsproxy.Trace.Event.{
  SessionStart, SessionEnd, BodyDirection, request_body, response_body, TraceEvent,
}
use rsproxy.Trace.Pending.{
  PendingSession, PendingSessions, append_preview, cleanup_interval, is_live, expire_stale, update,
  abort_for_budget, on_chunk, on_snapshot, open_session, end_session, dispatch, apply,
}

-- The buffer keeps what it has and takes the beginning of the new bytes, up to the limit.
pub append_preview_lem :
    (target : Text) (bytes : List ℕ) (limit : ℕ)
    → length target.items ≤ limit
    → ((append_preview target bytes limit).items
        ≡ target.items ++ take (limit - length target.items) bytes)
      × (length (append_preview target bytes limit).items ≤ limit)
unfolding append_preview
append_preview_lem target bytes limit h = (
  refl,
  omega (arith, length-append target.items _, length-take (limit - length target.items) bytes),
)

-- Both body prefixes are within the limit.
abbrev pub IsShort : ℕ → Session → Type 0
IsShort limit s = (length s.req_body_head.items ≤ limit) × (length s.res_body_head.items ≤ limit)

abbrev pub Short : ℕ → PendingSessions → Type 0
Short limit p =
    (p.body_limit ≡ limit) × AllValues (λ (e : PendingSession). IsShort limit e.session) p.sessions

module _ (limit : ℕ) where
  on_chunk-IsShort :
      (d : BodyDirection) (bytes : List ℕ) (n : ℕ) (s : Session)
      → IsShort limit s
      → IsShort limit (on_chunk limit d bytes n s)
  unfolding on_chunk
  on_chunk-IsShort request_body bytes n s (h, k) =
      ((append_preview_lem s.req_body_head bytes limit h).1, k)
  on_chunk-IsShort response_body bytes n s (h, k) =
      (h, (append_preview_lem s.res_body_head bytes limit k).1)

  on_snapshot-IsShort :
      (d : BodyDirection) (bytes : List ℕ) (n : ℕ) (s : Session)
      → IsShort limit s
      → IsShort limit (on_snapshot limit d bytes n s)
  unfolding on_snapshot
  on_snapshot-IsShort request_body bytes n s (h, k) =
      ((append_preview_lem (clear_buf s.req_body_head) bytes limit (omega arith)).1, k)
  on_snapshot-IsShort response_body bytes n s (h, k) =
      (h, (append_preview_lem (clear_buf s.res_body_head) bytes limit (omega arith)).1)

  module _ (lay : Layout) (now : ℕ) where
    expire_stale-Short :
        (p : PendingSessions) → Short limit p → Short limit (expire_stale lay now p)
    unfolding expire_stale
    expire_stale-Short p (b, h) = elim (Bool-cases (ltb (now - p.last_cleanup) cleanup_interval)) [
      | inl early ↦ rw (early, expire_stale) (b, h)
      | inr late ↦ rw (late, expire_stale) (b, AllValues-filter _ (is_live now) p.sessions h)
    ]

    update-Short :
        (id : ℕ) (change : Session → Session) (p : PendingSessions)
        → ((s : Session) → IsShort limit s → IsShort limit (change s))
        → Short limit p
        → Short limit (update lay now id change p).0
    unfolding update
    update-Short id change p keep (b, h) = elim (Option-cases (lookup id p.sessions)) [
      | inl gone ↦ rw (gone, update) (b, h)
      | inr (old, there) ↦
          rw (there, update)
            (
              b,
              AllValues-insert _ id _ p.sessions h
                  (keep old.session (AllValues-lookup _ id old p.sessions h there)),
            )
    ]

    open_session-Short :
        (id : ℕ) (s : SessionStart) (p : PendingSessions)
        → Short limit p
        → Short limit (open_session lay now id s p)
    unfolding open_session new_session
    open_session-Short id s p (b, h) = elim (Option-cases (lookup id p.sessions)) [
      | inl gone ↦
          rw (gone, open_session)
            (b, AllValues-insert _ id _ p.sessions h (omega arith, omega arith))
      | inr (old, there) ↦
          rw (there, open_session)
            (b, AllValues-insert _ id _ p.sessions h (omega arith, omega arith))
    ]

    abort_for_budget-Short :
        (id : ℕ) (p : PendingSessions) → Short limit p → Short limit (abort_for_budget lay id p)
    unfolding abort_for_budget
    abort_for_budget-Short id p (b, h) = elim (Option-cases (lookup id p.sessions)) [
      | inl gone ↦ rw (gone, abort_for_budget) (b, h)
      | inr (old, there) ↦ rw (there, abort_for_budget) (b, AllValues-remove _ id p.sessions h)
    ]

    -- The completed session, if there is one.
    abbrev pub ShortResult : Option Session → Type 0
    ShortResult none = Unit
    ShortResult (some s) = IsShort limit s

    end_session-Short :
        (id : ℕ) (e : SessionEnd) (p : PendingSessions)
        → Short limit p
        → Short limit (end_session lay id e p).0 × ShortResult (end_session lay id e p).1
    unfolding end_session
    end_session-Short id e p (b, h) = elim (Option-cases (lookup id p.sessions)) [
      | inl gone ↦ rw (gone, end_session) ((b, h), tt)
      | inr (old, there) ↦
          rw (there, end_session)
            ((b, AllValues-remove _ id p.sessions h), AllValues-lookup _ id old p.sessions h there)
    ]

    dispatch-Short :
        (e : TraceEvent) (p : PendingSessions)
        → Short limit p
        → Short limit (dispatch lay now e p).0 × ShortResult (dispatch lay now e p).1
    unfolding dispatch
    dispatch-Short (TraceEvent.start id s) p h = (open_session-Short id s p h, tt)
    dispatch-Short (TraceEvent.end id e) p h = end_session-Short id e p h
    dispatch-Short (TraceEvent.abort id) p h = (abort_for_budget-Short id p h, tt)
    dispatch-Short (TraceEvent.request id m u hs t r) p h = (update-Short id _ p (λ s k. k) h, tt)
    dispatch-Short (TraceEvent.response id s hs t) p h = (update-Short id _ p (λ s' k. k) h, tt)
    dispatch-Short (TraceEvent.body_chunk id d b o) p h =
        (update-Short id _ p (λ s k. rw h.0 (on_chunk-IsShort d b o s k)) h, tt)
    dispatch-Short (TraceEvent.body_snapshot id d b o) p h =
        (update-Short id _ p (λ s k. rw h.0 (on_snapshot-IsShort d b o s k)) h, tt)
    dispatch-Short (TraceEvent.frame id r) p h = (update-Short id _ p (λ s k. k) h, tt)
    dispatch-Short (TraceEvent.tls id r) p h = (update-Short id _ p (λ s k. k) h, tt)

    -- Whatever the event, no session that is pending or completed by it holds more than `limit`
    -- bytes of either body, if none did before.
    pub apply-Short :
        (e : TraceEvent) (p : PendingSessions)
        → Short limit p
        → Short limit (apply lay now e p).0 × ShortResult (apply lay now e p).1
    unfolding apply
    apply-Short e p h = dispatch-Short e (expire_stale lay now p) (expire_stale-Short p h)
