-- ===== src/Rules/Action.antt =====
-- crates/rsproxy-rules/src/action.rs with action/value.rs, action/delete.rs and action/host_pool.rs:
-- the typed operations that rules ask for. The rotation of a host pool, which a caller does after
-- resolution, is left out of `HostPool`, and so is the program of a replacement pattern.
use rsproxy.Base.{ℕ, Bool, true, false, Option, List}
use rsproxy.Rules.Text.{Str, any}
use rsproxy.Rules.Bits.{Bits}

pub data Phase : Type 0 where
  req res : Phase

pub data Value : Type 0 where
  inline file reference : Str → Value

pub record HostPool : Type 0 where
  pub addresses : List Value

pub record RegexReplacePattern : Type 0 where
  pub pattern : Str
  pub case_insensitive : Bool

pub data HeaderOp : Type 0 where
  set : Str → Value → HeaderOp
  remove : Str → HeaderOp
  replace : Str → RegexReplacePattern → Str → HeaderOp

pub data QueryOp : Type 0 where
  set : Str → Value → QueryOp
  remove : Str → QueryOp

-- `DeletePathSegment`: an index is an `i32`, given by its sign and its size.
pub data DeletePathSegment : Type 0 where
  index : Bool → ℕ → DeletePathSegment
  last : DeletePathSegment

pub data DeleteBodyPathSegment : Type 0 where
  key : Str → DeleteBodyPathSegment
  index : ℕ → DeleteBodyPathSegment

pub record DeleteBodyPath : Type 0 where
  pub segments : List DeleteBodyPathSegment

pub data DeleteOp : Type 0 where
  pathname : DeleteOp
  path_segment : DeletePathSegment → DeleteOp
  url_params : DeleteOp
  url_param : Str → DeleteOp
  req_header res_header : Str → DeleteOp
  req_body res_body : DeleteOp
  req_body_path res_body_path : DeleteBodyPath → DeleteOp
  req_type res_type req_charset res_charset : DeleteOp
  req_cookie res_cookie : Str → DeleteOp
  req_cookies res_cookies : DeleteOp
  trailer : Str → DeleteOp
  trailers : DeleteOp

pub record CookieAttr : Type 0 where
  pub name : Str
  pub value : Option Value

pub data CookieOp : Type 0 where
  set : Str → Value → List CookieAttr → CookieOp
  remove : Str → CookieOp

pub record MockInlineOp : Type 0 where
  pub status : Option ℕ
  pub headers : List (Str × Value)
  pub body : Option Value

pub record CorsOp : Type 0 where
  pub origin : Value
  pub methods : Option Value
  pub headers : Option Value
  pub credentials : Option Bool
  pub expose : Option Value
  pub max_age : Option Value

pub record CacheDirective : Type 0 where
  pub name : Str
  pub value : Option Value

pub data CacheOp : Type 0 where
  off : CacheOp
  directives : List CacheDirective → CacheOp

pub data TlsMinVersion : Type 0 where
  tls12 tls13 : TlsMinVersion

pub data TlsCipherSuite : Type 0 where
  tls13_aes128_gcm_sha256 tls13_aes256_gcm_sha384 tls13_chacha20_poly1305_sha256 : TlsCipherSuite
  tls12_ecdhe_ecdsa_aes128_gcm_sha256 tls12_ecdhe_ecdsa_aes256_gcm_sha384 : TlsCipherSuite
  tls12_ecdhe_ecdsa_chacha20_poly1305_sha256 tls12_ecdhe_rsa_aes128_gcm_sha256 : TlsCipherSuite
  tls12_ecdhe_rsa_aes256_gcm_sha384 tls12_ecdhe_rsa_chacha20_poly1305_sha256 : TlsCipherSuite

pub record TlsOp : Type 0 where
  pub client_cert : Option Str
  pub client_key : Option Str
  pub min_version : Option TlsMinVersion
  pub ciphers : List TlsCipherSuite

pub data BodyOp : Type 0 where
  set prepend append : Value → BodyOp
  replace : RegexReplacePattern → Str → BodyOp

pub data InjectTarget : Type 0 where
  html js css : InjectTarget

pub data InjectMode : Type 0 where
  append prepend replace : InjectMode

pub record InjectOp : Type 0 where
  pub target : InjectTarget
  pub value : Value
  pub mode : InjectMode

pub data UrlRewritePattern : Type 0 where
  plain : Value → UrlRewritePattern
  regex : RegexReplacePattern → UrlRewritePattern

-- `skip` carries an `ActionFamilySet`.
pub data Action : Type 0 where
  host : HostPool → Action
  upstream : Value → Action
  direct : Action
  mock mock_raw : Value → Action
  mock_inline : MockInlineOp → Action
  status : ℕ → Action
  redirect : Value → ℕ → Action
  req_header res_header : HeaderOp → Action
  res_status : ℕ → Action
  req_method : Value → Action
  req_cookie res_cookie : CookieOp → Action
  req_ua req_referer req_auth req_forwarded req_type req_charset : Value → Action
  res_cors : CorsOp → Action
  res_type res_charset res_merge : Value → Action
  res_trailer : HeaderOp → Action
  attachment : Option Value → Action
  cache : CacheOp → Action
  tls : TlsOp → Action
  map_remote : Value → Action
  url_rewrite : UrlRewritePattern → Value → Action
  url_query : List QueryOp → Action
  delete : List DeleteOp → Action
  req_body res_body : BodyOp → Action
  inject : InjectOp → Action
  delay throttle : Phase → ℕ → Action
  bypass hide : Action
  tag : Value → Action
  skip : Bits → Action

-- `matches!(operation, DeleteOp::ReqBody | DeleteOp::ReqBodyPath(_))`.
abbrev pub deletes_req_body : DeleteOp → Bool
deletes_req_body DeleteOp.req_body = true
deletes_req_body (DeleteOp.req_body_path _) = true
deletes_req_body _ = false

-- resolution_api.rs: `action_requires_request_body`.
unfoldable pub action_requires_request_body : Action → Bool
unfolding any
action_requires_request_body (req_body _) = true
action_requires_request_body (delete operations) = any deletes_req_body operations
action_requires_request_body _ = false
