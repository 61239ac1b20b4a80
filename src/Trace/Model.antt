-- ===== src/Trace/Model.antt =====
-- crates/rsproxy-trace/src/model.rs, and the growable buffers of the standard library that it is
-- built from: a session's size depends on the capacities of its buffers, so they are kept.
use rsproxy.Base.{
  ℕ, ◌+◌, ◌*◌, max, Bool, Option, none, List, [], ◌∷◌, ◌++◌, length, take, leb, ltb, if◌then◌else◌,
}

-- `Vec<T>` and `String`: the contents and the allocated capacity.
pub record Buf {ℓ} (A : Type ℓ) : Type ℓ where
  pub items : List A
  pub capacity : ℕ

abbrev pub Text : Type 0
Text = Buf ℕ

-- `Vec::new`.
abbrev pub new_buf {ℓ} : {A : Type ℓ} → Buf A
new_buf = record { items = []; capacity = 0 }

-- `Vec::clear` keeps the allocation.
abbrev pub clear_buf {ℓ} : {A : Type ℓ} → Buf A → Buf A
clear_buf b = record { items = []; capacity = b.capacity }

-- The amortised growth of `RawVec`; `least` is the smallest capacity that is allocated, 8 for
-- bytes and 4 for elements of up to 1024 bytes.
unfoldable pub grow : ℕ → ℕ → ℕ → ℕ
grow least capacity needed =
    if leb needed capacity then capacity else max least (max (2 * capacity) needed)

-- `Vec::extend_from_slice`, and `Vec::push` for one element.
abbrev pub extend {ℓ} : {A : Type ℓ} → ℕ → Buf A → List A → Buf A
extend least b xs = record {
  items = b.items ++ xs;
  capacity = grow least b.capacity (length b.items + length xs);
}

-- `collect` of an iterator that knows its length.
abbrev pub collected {ℓ} : {A : Type ℓ} → List A → Buf A
collected xs = record { items = xs; capacity = length xs }

abbrev pub push {ℓ} : {A : Type ℓ} → Buf A → A → Buf A
push b x = extend 4 b (x ∷ [])

abbrev pub Headers : Type 0
Headers = Buf (Text × Text)

pub data SessionKind : Type 0 where
  http tunnel sse web_socket : SessionKind

pub data FrameDirection : Type 0 where
  client_to_server server_to_client : FrameDirection

pub data FrameDataEncoding : Type 0 where
  utf8 hex : FrameDataEncoding

-- `rsproxy_rules::MatchedRule`; its texts are shared, so only their lengths count.
pub record MatchedRule : Type 0 where
  pub group : List ℕ
  pub line : ℕ
  pub raw : List ℕ

pub record TlsRecord : Type 0 where
  pub phase : Text
  pub host : Text
  pub handshake_ms : ℕ
  pub peer_certificates : ℕ
  pub protocol : Option Text
  pub cipher_suite : Option Text
  pub alpn : Option Text
  pub error : Option Text

pub record FrameRecord : Type 0 where
  pub direction : FrameDirection
  pub at_ms : ℕ
  pub opcode : Text
  pub fin : Bool
  pub payload_len : ℕ
  pub data_encoding : FrameDataEncoding
  pub payload : Text
  pub truncated : Bool

-- `FrameRecord::new`.
unfoldable pub new_frame :
    FrameDirection → ℕ → Text → Bool → List ℕ → ℕ → FrameDataEncoding → FrameRecord
new_frame direction at_ms opcode fin payload preview_limit data_encoding = record {
  direction = direction;
  at_ms = at_ms;
  opcode = opcode;
  fin = fin;
  payload_len = length payload;
  data_encoding = data_encoding;
  payload = collected (take preview_limit payload);
  truncated = ltb preview_limit (length payload);
}

pub record Session : Type 0 where
  pub id : ℕ
  pub kind : SessionKind
  pub started_ms : ℕ
  pub duration_ms : ℕ
  pub pool_wait_ms : ℕ
  pub dns_ms : ℕ
  pub connect_ms : ℕ
  pub ttfb_ms : ℕ
  pub request_send_ms : Option ℕ
  pub response_receive_ms : Option ℕ
  pub method : Text
  pub url : Text
  pub status : Option ℕ
  pub client : Text
  pub upstream : Option Text
  pub request_bytes : ℕ
  pub response_bytes : ℕ
  pub matched_rules : Buf MatchedRule
  pub flags : Buf Text
  pub error : Option Text
  pub req_headers : Headers
  pub req_trailers : Headers
  pub req_body_head : Text
  pub res_headers : Headers
  pub res_trailers : Headers
  pub res_body_head : Text
  pub frames : Buf FrameRecord
  pub tls : Buf TlsRecord

-- `Session::new`, at the wall clock's reading `now_ms`.
unfoldable pub new_session : ℕ → SessionKind → Text → Text → Text → Session
new_session now_ms kind method url client = record {
  id = 0;
  kind = kind;
  started_ms = now_ms;
  duration_ms = 0;
  pool_wait_ms = 0;
  dns_ms = 0;
  connect_ms = 0;
  ttfb_ms = 0;
  request_send_ms = none;
  response_receive_ms = none;
  method = method;
  url = url;
  status = none;
  client = client;
  upstream = none;
  request_bytes = 0;
  response_bytes = 0;
  matched_rules = new_buf;
  flags = new_buf;
  error = none;
  req_headers = new_buf;
  req_trailers = new_buf;
  req_body_head = new_buf;
  res_headers = new_buf;
  res_trailers = new_buf;
  res_body_head = new_buf;
  frames = new_buf;
  tls = new_buf;
}
