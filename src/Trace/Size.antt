-- ===== src/Trace/Size.antt =====
-- The memory accounting of crates/rsproxy-trace/src/store/memory.rs and src/event.rs: how many
-- bytes a session or an event is charged for.
use rsproxy.Base.{ℕ, ◌≤◌, Option, none, some, List, map, length}
use rsproxy.Base.Words.{word_max, sat_add, sat_mul, sat_add-le, sum_usize}
use rsproxy.Trace.Model.{Text, Headers, MatchedRule, TlsRecord, FrameRecord, Session}

-- The sizes that the compiler lays out.
pub record Layout : Type 0 where
  pub session : ℕ
  pub trace_event : ℕ
  pub text : ℕ
  pub text_pair : ℕ
  pub matched_rule : ℕ
  pub frame_record : ℕ
  pub tls_record : ℕ

infixl 65 ◌⊕◌
abbrev pub ◌⊕◌ : ℕ → ℕ → ℕ
a ⊕ b = sat_add a b

unfoldable pub option_string_bytes : Option Text → ℕ
option_string_bytes none = 0
option_string_bytes (some t) = t.capacity

-- `vector_storage_bytes::<T>`, given `size_of::<T>()`.
unfoldable pub vector_storage_bytes : ℕ → ℕ → ℕ
vector_storage_bytes size capacity = sat_mul capacity size

unfoldable pub headers_bytes : Layout → Headers → ℕ
headers_bytes lay h =
    vector_storage_bytes lay.text_pair h.capacity
    ⊕ sum_usize (map (λ (p : Text × Text). p.0.capacity ⊕ p.1.capacity) h.items)

unfoldable pub rules_bytes : List MatchedRule → ℕ
rules_bytes rules = sum_usize (map (λ (r : MatchedRule). length r.group ⊕ length r.raw) rules)

unfoldable pub frame_bytes : FrameRecord → ℕ
frame_bytes f = f.opcode.capacity ⊕ f.payload.capacity

unfoldable pub tls_bytes : TlsRecord → ℕ
tls_bytes r =
    r.phase.capacity
    ⊕ r.host.capacity
    ⊕ option_string_bytes r.protocol
    ⊕ option_string_bytes r.cipher_suite
    ⊕ option_string_bytes r.alpn
    ⊕ option_string_bytes r.error

unfoldable pub estimate_session_bytes : Layout → Session → ℕ
unfolding option_string_bytes vector_storage_bytes headers_bytes rules_bytes frame_bytes tls_bytes
    sum_usize sat_mul sat_add
estimate_session_bytes lay s =
    lay.session
    ⊕ s.method.capacity
    ⊕ s.url.capacity
    ⊕ s.client.capacity
    ⊕ option_string_bytes s.upstream
    ⊕ option_string_bytes s.error
    ⊕ headers_bytes lay s.req_headers
    ⊕ headers_bytes lay s.req_trailers
    ⊕ headers_bytes lay s.res_headers
    ⊕ headers_bytes lay s.res_trailers
    ⊕ s.req_body_head.capacity
    ⊕ s.res_body_head.capacity
    ⊕ vector_storage_bytes lay.text s.flags.capacity
    ⊕ sum_usize (map (λ (t : Text). t.capacity) s.flags.items)
    ⊕ vector_storage_bytes lay.matched_rule s.matched_rules.capacity
    ⊕ rules_bytes s.matched_rules.items
    ⊕ vector_storage_bytes lay.frame_record s.frames.capacity
    ⊕ sum_usize (map frame_bytes s.frames.items)
    ⊕ vector_storage_bytes lay.tls_record s.tls.capacity
    ⊕ sum_usize (map tls_bytes s.tls.items)

-- A charge is a machine word.
pub estimate_session_bytes-le :
    (lay : Layout) (s : Session) → estimate_session_bytes lay s ≤ word_max
unfolding estimate_session_bytes
estimate_session_bytes-le lay s = sat_add-le _ _
