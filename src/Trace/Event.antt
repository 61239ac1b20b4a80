-- ===== src/Trace/Event.antt =====
-- crates/rsproxy-trace/src/event.rs: the incremental events that the collector consumes, the events
-- of a completed session, and the charge of a queued event.
use rsproxy.Base.{
  ℕ, max, Bool, true, false, not, drop, Option, none, List, [], ◌∷◌, ◌++◌, map, length, ltb, ◌||◌,
  if◌then◌else◌,
}
use rsproxy.Base.Words.{sum_usize}
use rsproxy.Trace.Model.{
  Buf, Text, Headers, MatchedRule, TlsRecord, FrameRecord, SessionKind, Session,
}
use rsproxy.Trace.Size.{
  Layout, ◌⊕◌, option_string_bytes, vector_storage_bytes, headers_bytes, rules_bytes, frame_bytes,
  tls_bytes,
}

pub record SessionStart : Type 0 where
  pub kind : SessionKind
  pub started_ms : ℕ
  pub method : Text
  pub url : Text
  pub client : Text

pub data BodyDirection : Type 0 where
  request_body response_body : BodyDirection

-- The fields of `TraceEvent::End` behind its identifier.
pub record SessionEnd : Type 0 where
  pub kind : SessionKind
  pub duration_ms : ℕ
  pub pool_wait_ms : ℕ
  pub dns_ms : ℕ
  pub connect_ms : ℕ
  pub ttfb_ms : ℕ
  pub request_send_ms : Option ℕ
  pub response_receive_ms : Option ℕ
  pub upstream : Option Text
  pub flags : Buf Text
  pub error : Option Text

-- The first field of every constructor is the session's identifier.
pub data TraceEvent : Type 0 where
  start : ℕ → SessionStart → TraceEvent
  request : ℕ → Option Text → Option Text → Headers → Headers → Buf MatchedRule → TraceEvent
  response : ℕ → Option ℕ → Headers → Headers → TraceEvent
  body_chunk : ℕ → BodyDirection → List ℕ → ℕ → TraceEvent
  body_snapshot : ℕ → BodyDirection → List ℕ → ℕ → TraceEvent
  frame : ℕ → FrameRecord → TraceEvent
  tls : ℕ → TlsRecord → TraceEvent
  end : ℕ → SessionEnd → TraceEvent
  abort : ℕ → TraceEvent

unfoldable pub session_id : TraceEvent → ℕ
session_id (start id _) = id
session_id (request id _ _ _ _ _) = id
session_id (response id _ _ _) = id
session_id (body_chunk id _ _ _) = id
session_id (body_snapshot id _ _ _) = id
session_id (frame id _) = id
session_id (tls id _) = id
session_id (end id _) = id
session_id (abort id) = id

abbrev pub is_empty {ℓ} : {A : Type ℓ} → List A → Bool
is_empty [] = true
is_empty (x ∷ xs) = false

-- The snapshot event of one body, if anything of it was observed.
unfoldable pub snapshot_events : ℕ → BodyDirection → Text → ℕ → List TraceEvent
snapshot_events id direction head bytes =
    if ltb 0 bytes || not (is_empty head.items)
    then body_snapshot id direction head.items bytes ∷ []
    else []

abbrev pub session_start : Session → SessionStart
session_start s = record {
  kind = s.kind;
  started_ms = s.started_ms;
  method = s.method;
  url = s.url;
  client = s.client;
}

abbrev pub session_end : Session → SessionEnd
session_end s = record {
  kind = s.kind;
  duration_ms = s.duration_ms;
  pool_wait_ms = s.pool_wait_ms;
  dns_ms = s.dns_ms;
  connect_ms = s.connect_ms;
  ttfb_ms = s.ttfb_ms;
  request_send_ms = s.request_send_ms;
  response_receive_ms = s.response_receive_ms;
  upstream = s.upstream;
  flags = s.flags;
  error = s.error;
}

unfoldable pub from_session : Session → List TraceEvent
unfolding snapshot_events
from_session s =
    start s.id (session_start s)
    ∷ (request s.id none none s.req_headers s.req_trailers s.matched_rules
        ∷ (snapshot_events s.id request_body s.req_body_head s.request_bytes
            ++ (response s.id s.status s.res_headers s.res_trailers
                ∷ (snapshot_events s.id response_body s.res_body_head s.response_bytes
                    ++ (map (frame s.id) s.frames.items
                        ++ (map (tls s.id) s.tls.items ++ (end s.id (session_end s) ∷ [])))))))

-- The events of a session whose opening event was sent before.
unfoldable pub continuation_from_session : Session → List TraceEvent
unfolding from_session
continuation_from_session s = drop 1 (from_session s)

dynamic_bytes : Layout → TraceEvent → ℕ
dynamic_bytes lay (start _ s) = s.method.capacity ⊕ s.url.capacity ⊕ s.client.capacity
dynamic_bytes lay (request _ method url headers trailers rules) =
    option_string_bytes method
    ⊕ option_string_bytes url
    ⊕ headers_bytes lay headers
    ⊕ headers_bytes lay trailers
    ⊕ (vector_storage_bytes lay.matched_rule rules.capacity ⊕ rules_bytes rules.items)
dynamic_bytes lay (response _ _ headers trailers) =
    headers_bytes lay headers ⊕ headers_bytes lay trailers
dynamic_bytes lay (body_chunk _ _ bytes observed) = max (length bytes) observed
dynamic_bytes lay (body_snapshot _ _ bytes _) = length bytes
dynamic_bytes lay (frame _ f) = frame_bytes f
dynamic_bytes lay (tls _ r) = tls_bytes r
dynamic_bytes lay (end _ e) =
    option_string_bytes e.upstream
    ⊕ option_string_bytes e.error
    ⊕ vector_storage_bytes lay.text e.flags.capacity
    ⊕ sum_usize (map (λ (t : Text). t.capacity) e.flags.items)
dynamic_bytes lay (abort _) = 0

-- The charge of a queued event.
unfoldable pub estimated_bytes : Layout → TraceEvent → ℕ
unfolding dynamic_bytes
estimated_bytes lay e = lay.trace_event ⊕ dynamic_bytes lay e
