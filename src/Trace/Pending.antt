-- ===== src/Trace/Pending.antt =====
-- `PendingSessions` of crates/rsproxy-trace/src/store/pending.rs: the sessions that were opened and
-- not completed. The map is a list of entries with unique keys; `now` is the reading of the
-- monotonic clock, in nanoseconds, which one call of a method takes as one.
pub mod Accounting
pub mod Preview
pub mod Evolve
pub mod Rebuild
pub mod Batch
pub mod Growth
pub mod Closing
use rsproxy.Base.{
  ℕ, ◌+◌, ◌-◌, ◌*◌, ◌≡◌, Bool, true, false, not, Option, none, some, List, [], ◌∷◌, map, length,
  take, filter, ltb, if◌then◌else◌,
}
use rsproxy.Base.Words.{sat_add, sat_sub}
use rsproxy.Base.Assoc.{lookup, insert, remove}
use rsproxy.Trace.Model.{
  Buf, Text, Headers, MatchedRule, TlsRecord, FrameRecord, Session, new_session, extend, push,
  clear_buf,
}
use rsproxy.Trace.Size.{Layout, estimate_session_bytes}
use rsproxy.Trace.Event.{
  SessionStart, SessionEnd, BodyDirection, request_body, response_body, TraceEvent,
}

-- 300 seconds and one second.
abbrev pub pending_ttl : ℕ
pending_ttl = 300000000000

abbrev pub cleanup_interval : ℕ
cleanup_interval = 1000000000

pub record PendingSession : Type 0 where
  pub session : Session
  pub touched : ℕ

pub record PendingSessions : Type 0 where
  pub sessions : List (ℕ × PendingSession)
  pub body_limit : ℕ
  pub incomplete_sessions : ℕ
  pub orphan_events : ℕ
  pub memory_bytes : ℕ
  pub last_cleanup : ℕ

unfoldable pub new : ℕ → ℕ → PendingSessions
new now body_limit = record {
  sessions = [];
  body_limit = body_limit;
  incomplete_sessions = 0;
  orphan_events = 0;
  memory_bytes = 0;
  last_cleanup = now;
}

-- `append_preview`: the buffer takes what still fits under the limit.
unfoldable pub append_preview : Text → List ℕ → ℕ → Text
append_preview target bytes body_limit =
    extend 8 target (take (sat_sub body_limit (length target.items)) bytes)

abbrev pub charge : Layout → PendingSession → ℕ
charge lay p = estimate_session_bytes lay p.session

-- `elapsed` is less than the time to live; an `Instant` in the future has elapsed by zero.
abbrev pub is_live : ℕ → ℕ × PendingSession → Bool
is_live now e = ltb (now - e.1.touched) pending_ttl

-- The sum that the closure of `retain` keeps.
unfoldable pub removed_bytes : Layout → ℕ → ℕ → List (ℕ × PendingSession) → ℕ
removed_bytes lay now acc [] = acc
removed_bytes lay now acc (e ∷ m) =
    removed_bytes lay now (if is_live now e then acc else sat_add acc (charge lay e.1)) m

unfoldable pub expire_stale : Layout → ℕ → PendingSessions → PendingSessions
expire_stale lay now p =
    let kept = filter (is_live now) p.sessions in
    if ltb (now - p.last_cleanup) cleanup_interval then p else record p {
      last_cleanup = now;
      sessions = kept;
      memory_bytes = sat_sub p.memory_bytes (removed_bytes lay now 0 p.sessions);
      incomplete_sessions =
          sat_add p.incomplete_sessions (sat_sub (length p.sessions) (length kept));
    }

-- `update`: an event of a session that is not pending is an orphan.
unfoldable pub update :
    Layout → ℕ → ℕ → (Session → Session) → PendingSessions → PendingSessions × Option (Unit {0})
update lay now id change p = elim (lookup id p.sessions) [
  | none ↦ (record p { orphan_events = sat_add p.orphan_events 1 }, none)
  | some pending ↦
      let changed = change pending.session in
      (
        record p {
          sessions = insert id (record { session = changed; touched = now }) p.sessions;
          memory_bytes =
              sat_add (sat_sub p.memory_bytes (charge lay pending))
                (estimate_session_bytes lay changed);
        },
        some tt,
      )
]

-- The end of a session that is dropped without a record.
unfoldable pub abort_for_budget : Layout → ℕ → PendingSessions → PendingSessions
abort_for_budget lay id p = elim (lookup id p.sessions) [
  | none ↦ p
  | some pending ↦ record p {
    sessions = remove id p.sessions;
    memory_bytes = sat_sub p.memory_bytes (charge lay pending);
    incomplete_sessions = sat_add p.incomplete_sessions 1;
  }
]

abbrev pub or_else {ℓ} : {A : Type ℓ} → Option A → A → A
or_else none a = a
or_else (some b) a = b

-- The closures that `apply` hands to `update`.
abbrev pub on_request :
    Option Text → Option Text → Headers → Headers → Buf MatchedRule → Session → Session
on_request method url headers trailers rules s = record s {
  method = or_else method s.method;
  url = or_else url s.url;
  req_headers = headers;
  req_trailers = trailers;
  matched_rules = rules;
}

abbrev pub on_response : Option ℕ → Headers → Headers → Session → Session
on_response status headers trailers s = record s {
  status = status;
  res_headers = headers;
  res_trailers = trailers;
}

unfoldable pub on_chunk : ℕ → BodyDirection → List ℕ → ℕ → Session → Session
on_chunk limit request_body bytes observed s = record s {
  request_bytes = sat_add s.request_bytes observed;
  req_body_head = append_preview s.req_body_head bytes limit;
}
on_chunk limit response_body bytes observed s = record s {
  response_bytes = sat_add s.response_bytes observed;
  res_body_head = append_preview s.res_body_head bytes limit;
}

unfoldable pub on_snapshot : ℕ → BodyDirection → List ℕ → ℕ → Session → Session
on_snapshot limit request_body bytes observed s = record s {
  request_bytes = observed;
  req_body_head = append_preview (clear_buf s.req_body_head) bytes limit;
}
on_snapshot limit response_body bytes observed s = record s {
  response_bytes = observed;
  res_body_head = append_preview (clear_buf s.res_body_head) bytes limit;
}

abbrev pub on_end : SessionEnd → Session → Session
on_end e s = record s {
  kind = e.kind;
  duration_ms = e.duration_ms;
  pool_wait_ms = e.pool_wait_ms;
  dns_ms = e.dns_ms;
  connect_ms = e.connect_ms;
  ttfb_ms = e.ttfb_ms;
  request_send_ms = e.request_send_ms;
  response_receive_ms = e.response_receive_ms;
  upstream = e.upstream;
  flags = e.flags;
  error = e.error;
}

-- The session of a `Start` event; the wall clock's reading in `Session::new` is overwritten.
abbrev pub opened : ℕ → SessionStart → Session
opened id s = record (new_session s.started_ms s.kind s.method s.url s.client) { id = id }

unfoldable pub open_session : Layout → ℕ → ℕ → SessionStart → PendingSessions → PendingSessions
open_session lay now id start p =
    let pending : PendingSession = record { session = opened id start; touched = now } in
    let sessions = insert id pending p.sessions in
    elim (lookup id p.sessions) [
      | none ↦ record p {
        sessions = sessions;
        memory_bytes = sat_add p.memory_bytes (charge lay pending);
      }
      | some replaced ↦ record p {
        sessions = sessions;
        memory_bytes = sat_add (sat_sub p.memory_bytes (charge lay replaced)) (charge lay pending);
        incomplete_sessions = sat_add p.incomplete_sessions 1;
      }
    ]

unfoldable pub end_session :
    Layout → ℕ → SessionEnd → PendingSessions → PendingSessions × Option Session
end_session lay id e p = elim (lookup id p.sessions) [
  | none ↦ (record p { orphan_events = sat_add p.orphan_events 1 }, none)
  | some pending ↦ (
    record p {
      sessions = remove id p.sessions;
      memory_bytes = sat_sub p.memory_bytes (charge lay pending);
    },
    some (on_end e pending.session),
  )
]

-- The `match` of `apply`, behind the clean-up.
unfoldable pub dispatch :
    Layout → ℕ → TraceEvent → PendingSessions → PendingSessions × Option Session
dispatch lay now (TraceEvent.start id s) p = (open_session lay now id s p, none)
dispatch lay now (TraceEvent.request id method url headers trailers rules) p =
    ((update lay now id (on_request method url headers trailers rules) p).0, none)
dispatch lay now (TraceEvent.response id status headers trailers) p =
    ((update lay now id (on_response status headers trailers) p).0, none)
dispatch lay now (TraceEvent.body_chunk id direction bytes observed) p =
    ((update lay now id (on_chunk p.body_limit direction bytes observed) p).0, none)
dispatch lay now (TraceEvent.body_snapshot id direction bytes observed) p =
    ((update lay now id (on_snapshot p.body_limit direction bytes observed) p).0, none)
dispatch lay now (TraceEvent.frame id f) p =
    ((update lay now id (λ s. record s { frames = push s.frames f }) p).0, none)
dispatch lay now (TraceEvent.tls id r) p =
    ((update lay now id (λ s. record s { tls = push s.tls r }) p).0, none)
dispatch lay now (TraceEvent.end id e) p = end_session lay id e p
dispatch lay now (TraceEvent.abort id) p = (abort_for_budget lay id p, none)

unfoldable pub apply : Layout → ℕ → TraceEvent → PendingSessions → PendingSessions × Option Session
apply lay now e p = dispatch lay now e (expire_stale lay now p)

unfoldable pub clear : PendingSessions → PendingSessions
clear p = record p { sessions = []; memory_bytes = 0 }
