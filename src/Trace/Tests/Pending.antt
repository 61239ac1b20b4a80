-- ===== src/Trace/Tests/Pending.antt =====
-- Runs of the pending sessions of crates/rsproxy-trace on concrete events.
use rsproxy.Base.{◌-◌, ◌≤◌, ◌≡◌, refl, none, [], ◌∷◌, ◌++◌, length, take, arith}
use rsproxy.Base.Words.{sat_add, sat_mul, sum_usize}
use rsproxy.Base.Assoc.{lookup, insert, total}
use rsproxy.Trace.Model.{Session, new_session}
use rsproxy.Trace.Size.{
  headers_bytes, rules_bytes, frame_bytes, tls_bytes, option_string_bytes, vector_storage_bytes,
  estimate_session_bytes,
}
use rsproxy.Trace.Event.{TraceEvent, session_id, session_start, request_body, from_session}
use rsproxy.Trace.Pending.{
  PendingSessions, new, append_preview, apply, dispatch, open_session, expire_stale,
}
use rsproxy.Trace.Pending.Accounting.{Accounted, Fits, apply-Accounted}
use rsproxy.Trace.Pending.Preview.{append_preview_lem, Short, ShortResult, apply-Short}
use rsproxy.Trace.Pending.Evolve.{apply_all}
use rsproxy.Trace.Pending.Rebuild.{SameRecord}
use rsproxy.Trace.Pending.Batch.{apply_all-from_session}
use rsproxy.Trace.Pending.Growth.{rest, apply-rest}
use rsproxy.Trace.Pending.Closing.{from_session-Closing, apply_all-Closing}
use rsproxy.Trace.Tests.{layout, text_of, session_one}

abbrev pub nothing_pending : PendingSessions
nothing_pending = new 0 2

abbrev opening : TraceEvent
opening = TraceEvent.start 1 (session_start session_one)

-- One pending session.
abbrev one_pending : PendingSessions
one_pending = (apply layout 0 opening nothing_pending).0

abbrev chunk : TraceEvent
chunk = TraceEvent.body_chunk 1 request_body (7 ∷ 8 ∷ 9 ∷ []) 3

nothing_pending-Accounted : Accounted layout nothing_pending
unfolding new total
nothing_pending-Accounted = record { unique = tt; exact = refl; small = omega arith }

opening_Fits : Fits layout 0 one_pending
unfolding apply dispatch open_session expire_stale new session_start lookup insert total
    estimate_session_bytes headers_bytes rules_bytes frame_bytes tls_bytes option_string_bytes
    vector_storage_bytes new_session sat_add sat_mul sum_usize
opening_Fits = omega arith

apply-Accounted_example : Accounted layout one_pending
apply-Accounted_example =
    apply-Accounted layout 0 opening nothing_pending nothing_pending-Accounted opening_Fits

nothing_pending-Short : Short 2 nothing_pending
unfolding new
nothing_pending-Short = (refl, tt)

one_pending-Short : Short 2 one_pending
one_pending-Short = (apply-Short 2 layout 0 opening nothing_pending nothing_pending-Short).0

apply-Short_example :
    Short 2 (apply layout 0 chunk one_pending).0
    × ShortResult 2 layout 0 (apply layout 0 chunk one_pending).1
apply-Short_example = apply-Short 2 layout 0 chunk one_pending one_pending-Short

append_preview_lem_example :
    ((append_preview (text_of (1 ∷ [])) (2 ∷ 3 ∷ []) 2).items ≡ 1 ∷ [] ++ take (2 - 1) (2 ∷ 3 ∷ []))
    × (length (append_preview (text_of (1 ∷ [])) (2 ∷ 3 ∷ []) 2).items ≤ 2)
append_preview_lem_example = append_preview_lem (text_of (1 ∷ [])) (2 ∷ 3 ∷ []) 2 (omega arith)

none_pending : lookup 1 (expire_stale layout 0 nothing_pending).sessions ≡ none
unfolding expire_stale new lookup
none_pending = refl

apply_all-from_session_example :
    (t : Session) × SameRecord 2 session_one t
    × ((apply_all layout 0 (from_session session_one) nothing_pending).1 ≡ t ∷ [])
    × ((apply_all layout 0 (from_session session_one) nothing_pending).0.sessions
        ≡ (expire_stale layout 0 nothing_pending).sessions)
    × ((apply_all layout 0 (from_session session_one) nothing_pending).0.incomplete_sessions
        ≡ (expire_stale layout 0 nothing_pending).incomplete_sessions)
    × ((apply_all layout 0 (from_session session_one) nothing_pending).0.orphan_events
        ≡ nothing_pending.orphan_events)
unfolding new
apply_all-from_session_example =
    apply_all-from_session layout 0 session_one nothing_pending none_pending

apply-rest_example :
    rest layout (session_id chunk) (apply layout 0 chunk one_pending).0 ≤ one_pending.memory_bytes
apply-rest_example = apply-rest layout 0 chunk one_pending

apply_all-Closing_example :
    (apply_all layout 0 (from_session session_one) one_pending).0.memory_bytes
    ≤ one_pending.memory_bytes
apply_all-Closing_example =
    apply_all-Closing layout 0 1 one_pending (from_session-Closing session_one)
