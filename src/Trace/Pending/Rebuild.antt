-- ===== src/Trace/Pending/Rebuild.antt =====
-- crates/rsproxy-trace/src/store/pending.rs: what the events of a completed session make of a
-- pending one.
use rsproxy.Base.{
  ℕ, zero, suc, ◌-◌, ◌≡◌, refl, ap, sym, ◌∙◌, inl, inr, true, not, none, List, [], ◌∷◌, ◌++◌, map,
  append_assoc, append-nil, take, ltb, ◌||◌, Bool-cases, arith, if◌then◌else◌,
}
use rsproxy.Trace.Model.{Buf, Text, FrameRecord, TlsRecord, Session, new_session, push, new_buf}
use rsproxy.Trace.Event.{
  BodyDirection, request_body, response_body, TraceEvent, from_session, snapshot_events,
  session_start, session_end, is_empty,
}
use rsproxy.Trace.Pending.{append_preview, on_snapshot, on_end, opened}
use rsproxy.Trace.Pending.Evolve.{AllUpdates, AllUpdates-append, evolve_all, evolve_all-append}

-- The two records are alike in all that can be read from them: every field is the same, but that
-- the body prefixes are cut at the limit. Only the capacities of four buffers may differ.
pub record SameRecord (limit : ℕ) (s t : Session) : Type 0 where
  pub id : t.id ≡ s.id
  pub kind : t.kind ≡ s.kind
  pub started_ms : t.started_ms ≡ s.started_ms
  pub duration_ms : t.duration_ms ≡ s.duration_ms
  pub pool_wait_ms : t.pool_wait_ms ≡ s.pool_wait_ms
  pub dns_ms : t.dns_ms ≡ s.dns_ms
  pub connect_ms : t.connect_ms ≡ s.connect_ms
  pub ttfb_ms : t.ttfb_ms ≡ s.ttfb_ms
  pub request_send_ms : t.request_send_ms ≡ s.request_send_ms
  pub response_receive_ms : t.response_receive_ms ≡ s.response_receive_ms
  pub method : t.method ≡ s.method
  pub url : t.url ≡ s.url
  pub status : t.status ≡ s.status
  pub client : t.client ≡ s.client
  pub upstream : t.upstream ≡ s.upstream
  pub request_bytes : t.request_bytes ≡ s.request_bytes
  pub response_bytes : t.response_bytes ≡ s.response_bytes
  pub matched_rules : t.matched_rules ≡ s.matched_rules
  pub flags : t.flags ≡ s.flags
  pub error : t.error ≡ s.error
  pub req_headers : t.req_headers ≡ s.req_headers
  pub req_trailers : t.req_trailers ≡ s.req_trailers
  pub req_body_head : t.req_body_head.items ≡ take limit s.req_body_head.items
  pub res_headers : t.res_headers ≡ s.res_headers
  pub res_trailers : t.res_trailers ≡ s.res_trailers
  pub res_body_head : t.res_body_head.items ≡ take limit s.res_body_head.items
  pub frames : t.frames.items ≡ s.frames.items
  pub tls : t.tls.items ≡ s.tls.items

abbrev push_all {ℓ} : {A : Type ℓ} → List A → Buf A → Buf A
push_all [] b = b
push_all (x ∷ xs) b = push_all xs (push b x)

items-push_all {ℓ} : {A : Type ℓ} (xs : List A) (b : Buf A) → (push_all xs b).items ≡ b.items ++ xs
items-push_all [] b = sym (append-nil b.items)
items-push_all (x ∷ xs) b = items-push_all xs (push b x) ∙ append_assoc b.items (x ∷ []) xs

take-empty : (n : ℕ) (xs : List ℕ) → is_empty xs ≡ true → take n xs ≡ []
take-empty zero xs h = refl
take-empty (suc n) [] h = refl
take-empty (suc n) (x ∷ xs) h = cc

module _ (limit : ℕ) where
  evolve-frames :
      (id : ℕ) (fs : List FrameRecord) (s : Session)
      → evolve_all limit (map (TraceEvent.frame id) fs) s
        ≡ record s { frames = push_all fs s.frames }
  evolve-frames id [] s = refl
  evolve-frames id (f ∷ fs) s = evolve-frames id fs (record s { frames = push s.frames f })

  evolve-tls :
      (id : ℕ) (rs : List TlsRecord) (s : Session)
      → evolve_all limit (map (TraceEvent.tls id) rs) s ≡ record s { tls = push_all rs s.tls }
  evolve-tls id [] s = refl
  evolve-tls id (r ∷ rs) s = evolve-tls id rs (record s { tls = push s.tls r })

  -- The body after its snapshot event, which is left out where nothing was observed.
  abbrev body_after : Text → ℕ → Text
  body_after head bytes =
      if ltb 0 bytes || not (is_empty head.items)
      then append_preview new_buf head.items limit
      else new_buf

  items-body_after :
      (head : Text) (bytes : ℕ) → (body_after head bytes).items ≡ take limit head.items
  unfolding append_preview
  items-body_after head bytes = elim (Bool-cases (ltb 0 bytes || not (is_empty head.items))) [
    | inl seen ↦ rw seen (let e : limit - 0 ≡ limit = omega arith in rw e)
    | inr unseen ↦ rw unseen (sym (take-empty limit head.items (ground arith)))
  ]

  module _ (id bytes : ℕ) (head : Text) (t : Session) where
    evolve-request_snapshot :
        t.request_bytes ≡ 0
        → t.req_body_head ≡ new_buf
        → evolve_all limit (snapshot_events id request_body head bytes) t
          ≡ record t { request_bytes = bytes; req_body_head = body_after head bytes }
    unfolding snapshot_events on_snapshot
    evolve-request_snapshot b h = elim (Bool-cases (ltb 0 bytes || not (is_empty head.items))) [
      | inl seen ↦ rw seen (ground arith)
      | inr unseen ↦ rw unseen (ground arith)
    ]

    evolve-response_snapshot :
        t.response_bytes ≡ 0
        → t.res_body_head ≡ new_buf
        → evolve_all limit (snapshot_events id response_body head bytes) t
          ≡ record t { response_bytes = bytes; res_body_head = body_after head bytes }
    unfolding snapshot_events on_snapshot
    evolve-response_snapshot b h = elim (Bool-cases (ltb 0 bytes || not (is_empty head.items))) [
      | inl seen ↦ rw seen (ground arith)
      | inr unseen ↦ rw unseen (ground arith)
    ]

-- The events between the start and the end.
abbrev pub middle : Session → List TraceEvent
middle s =
    TraceEvent.request s.id none none s.req_headers s.req_trailers s.matched_rules
    ∷ (snapshot_events s.id request_body s.req_body_head s.request_bytes
        ++ (TraceEvent.response s.id s.status s.res_headers s.res_trailers
            ∷ (snapshot_events s.id response_body s.res_body_head s.response_bytes
                ++ (map (TraceEvent.frame s.id) s.frames.items
                    ++ map (TraceEvent.tls s.id) s.tls.items))))

pub from_session-middle :
    (s : Session)
    → from_session s
      ≡ TraceEvent.start s.id (session_start s)
        ∷ (middle s ++ TraceEvent.end s.id (session_end s) ∷ [])
unfolding from_session
from_session-middle s = simp append_assoc

snapshot-AllUpdates :
    (id : ℕ) (d : BodyDirection) (head : Text) (bytes : ℕ)
    → AllUpdates id (snapshot_events id d head bytes)
unfolding snapshot_events
snapshot-AllUpdates id d head bytes = elim (Bool-cases (ltb 0 bytes || not (is_empty head.items))) [
  | inl seen ↦ rw seen (refl, tt)
  | inr unseen ↦ rw unseen tt
]

frames-AllUpdates : (id : ℕ) (fs : List FrameRecord) → AllUpdates id (map (TraceEvent.frame id) fs)
frames-AllUpdates id [] = tt
frames-AllUpdates id (f ∷ fs) = (refl, frames-AllUpdates id fs)

tls-AllUpdates : (id : ℕ) (rs : List TlsRecord) → AllUpdates id (map (TraceEvent.tls id) rs)
tls-AllUpdates id [] = tt
tls-AllUpdates id (r ∷ rs) = (refl, tls-AllUpdates id rs)

pub middle-AllUpdates : (s : Session) → AllUpdates s.id (middle s)
middle-AllUpdates s = (
  refl,
  AllUpdates-append s.id _ _ (snapshot-AllUpdates s.id _ _ _) (
    refl,
    AllUpdates-append s.id _ _ (snapshot-AllUpdates s.id _ _ _) (
        AllUpdates-append s.id _ _ (frames-AllUpdates s.id s.frames.items)
          (tls-AllUpdates s.id s.tls.items)),
  ),
)

-- The session after those events.
abbrev pub rebuilt : ℕ → Session → Session
rebuilt limit s = record (opened s.id (session_start s)) {
  status = s.status;
  request_bytes = s.request_bytes;
  response_bytes = s.response_bytes;
  matched_rules = s.matched_rules;
  req_headers = s.req_headers;
  req_trailers = s.req_trailers;
  req_body_head = body_after limit s.req_body_head s.request_bytes;
  res_headers = s.res_headers;
  res_trailers = s.res_trailers;
  res_body_head = body_after limit s.res_body_head s.response_bytes;
  frames = push_all s.frames.items new_buf;
  tls = push_all s.tls.items new_buf;
}

evolve_all-seq :
    (limit : ℕ) (es fs : List TraceEvent) (s t u : Session)
    → evolve_all limit es s ≡ t
    → evolve_all limit fs t ≡ u
    → evolve_all limit (es ++ fs) s ≡ u
evolve_all-seq limit es fs s t u p q =
    evolve_all-append limit es fs s ∙ (ap (evolve_all limit fs) p ∙ q)

pub evolve-middle :
    (limit : ℕ) (s : Session)
    → evolve_all limit (middle s) (opened s.id (session_start s)) ≡ rebuilt limit s
unfolding new_session
evolve-middle limit s =
    evolve_all-seq limit (snapshot_events s.id request_body s.req_body_head s.request_bytes) _ _ _ _
      (evolve-request_snapshot limit s.id s.request_bytes s.req_body_head _ refl refl)
      (evolve_all-seq limit (snapshot_events s.id response_body s.res_body_head s.response_bytes) _
        _ _ _ (evolve-response_snapshot limit s.id s.response_bytes s.res_body_head _ refl refl)
        (evolve_all-seq limit (map (TraceEvent.frame s.id) s.frames.items) _ _ _ _
          (evolve-frames limit s.id s.frames.items _) (evolve-tls limit s.id s.tls.items _)))

pub rebuilt-SameRecord :
    (limit : ℕ) (s : Session) → SameRecord limit s (on_end (session_end s) (rebuilt limit s))
unfolding new_session
rebuilt-SameRecord limit s = record {
  id = refl;
  kind = refl;
  started_ms = refl;
  duration_ms = refl;
  pool_wait_ms = refl;
  dns_ms = refl;
  connect_ms = refl;
  ttfb_ms = refl;
  request_send_ms = refl;
  response_receive_ms = refl;
  method = refl;
  url = refl;
  status = refl;
  client = refl;
  upstream = refl;
  request_bytes = refl;
  response_bytes = refl;
  matched_rules = refl;
  flags = refl;
  error = refl;
  req_headers = refl;
  req_trailers = refl;
  req_body_head = items-body_after limit s.req_body_head s.request_bytes;
  res_headers = refl;
  res_trailers = refl;
  res_body_head = items-body_after limit s.res_body_head s.response_bytes;
  frames = items-push_all s.frames.items new_buf;
  tls = items-push_all s.tls.items new_buf;
}
