-- ===== src/Rules/Family.antt =====
-- crates/rsproxy-rules/src/matcher/action.rs: the families of actions, and the phases and the
-- policy of each.
pub mod Laws
use rsproxy.Base.{
  ℕ, zero, suc, Bool, true, false, not, ◌&&◌, ◌||◌, Option, none, some, List, [], ◌∷◌, ◌++◌, ◌==◌,
  if◌then◌else◌,
}
use rsproxy.Rules.Text.{Str, codes, str_eq, is_empty, any, strip_prefix, starts_with}
use rsproxy.Rules.Bits.{Bits, has_bit, set_bit, union, is_zero, ones}
use rsproxy.Rules.Action.{Phase, Action, BodyOp, DeleteOp}

pub data ActionFamily : Type 0 where
  host upstream direct mock map_remote status redirect req_header res_header : ActionFamily
  res_status req_method req_cookie res_cookie req_ua req_referer req_auth : ActionFamily
  req_forwarded req_type req_charset res_cors res_type res_charset res_merge : ActionFamily
  res_trailer attachment cache tls url_rewrite url_query delete req_body_set : ActionFamily
  req_body_prepend req_body_append req_body_replace res_body_set res_body_prepend : ActionFamily
  res_body_append res_body_replace inject delay_req delay_res throttle_req : ActionFamily
  throttle_res bypass hide tag skip : ActionFamily

-- `ResolutionPolicy`.
pub data ResolutionPolicy : Type 0 where
  first_wins stackable : ResolutionPolicy

-- `self as u8`.
unfoldable pub ordinal : ActionFamily → ℕ
ordinal ActionFamily.host = 0
ordinal ActionFamily.upstream = 1
ordinal ActionFamily.direct = 2
ordinal ActionFamily.mock = 3
ordinal ActionFamily.map_remote = 4
ordinal ActionFamily.status = 5
ordinal ActionFamily.redirect = 6
ordinal ActionFamily.req_header = 7
ordinal ActionFamily.res_header = 8
ordinal ActionFamily.res_status = 9
ordinal ActionFamily.req_method = 10
ordinal ActionFamily.req_cookie = 11
ordinal ActionFamily.res_cookie = 12
ordinal ActionFamily.req_ua = 13
ordinal ActionFamily.req_referer = 14
ordinal ActionFamily.req_auth = 15
ordinal ActionFamily.req_forwarded = 16
ordinal ActionFamily.req_type = 17
ordinal ActionFamily.req_charset = 18
ordinal ActionFamily.res_cors = 19
ordinal ActionFamily.res_type = 20
ordinal ActionFamily.res_charset = 21
ordinal ActionFamily.res_merge = 22
ordinal ActionFamily.res_trailer = 23
ordinal ActionFamily.attachment = 24
ordinal ActionFamily.cache = 25
ordinal ActionFamily.tls = 26
ordinal ActionFamily.url_rewrite = 27
ordinal ActionFamily.url_query = 28
ordinal ActionFamily.delete = 29
ordinal ActionFamily.req_body_set = 30
ordinal ActionFamily.req_body_prepend = 31
ordinal ActionFamily.req_body_append = 32
ordinal ActionFamily.req_body_replace = 33
ordinal ActionFamily.res_body_set = 34
ordinal ActionFamily.res_body_prepend = 35
ordinal ActionFamily.res_body_append = 36
ordinal ActionFamily.res_body_replace = 37
ordinal ActionFamily.inject = 38
ordinal ActionFamily.delay_req = 39
ordinal ActionFamily.delay_res = 40
ordinal ActionFamily.throttle_req = 41
ordinal ActionFamily.throttle_res = 42
ordinal ActionFamily.bypass = 43
ordinal ActionFamily.hide = 44
ordinal ActionFamily.tag = 45
ordinal ActionFamily.skip = 46

-- `ActionFamily::ALL`, in the order of the discriminants.
abbrev pub all_families : List ActionFamily
all_families =
    ActionFamily.host ∷ ActionFamily.upstream ∷ ActionFamily.direct ∷ ActionFamily.mock
    ∷ ActionFamily.map_remote ∷ ActionFamily.status ∷ ActionFamily.redirect
    ∷ ActionFamily.req_header ∷ ActionFamily.res_header ∷ ActionFamily.res_status
    ∷ ActionFamily.req_method ∷ ActionFamily.req_cookie ∷ ActionFamily.res_cookie
    ∷ ActionFamily.req_ua ∷ ActionFamily.req_referer ∷ ActionFamily.req_auth
    ∷ ActionFamily.req_forwarded ∷ ActionFamily.req_type ∷ ActionFamily.req_charset
    ∷ ActionFamily.res_cors ∷ ActionFamily.res_type ∷ ActionFamily.res_charset
    ∷ ActionFamily.res_merge ∷ ActionFamily.res_trailer ∷ ActionFamily.attachment
    ∷ ActionFamily.cache ∷ ActionFamily.tls ∷ ActionFamily.url_rewrite ∷ ActionFamily.url_query
    ∷ ActionFamily.delete ∷ ActionFamily.req_body_set ∷ ActionFamily.req_body_prepend
    ∷ ActionFamily.req_body_append ∷ ActionFamily.req_body_replace ∷ ActionFamily.res_body_set
    ∷ ActionFamily.res_body_prepend ∷ ActionFamily.res_body_append ∷ ActionFamily.res_body_replace
    ∷ ActionFamily.inject ∷ ActionFamily.delay_req ∷ ActionFamily.delay_res
    ∷ ActionFamily.throttle_req ∷ ActionFamily.throttle_res ∷ ActionFamily.bypass
    ∷ ActionFamily.hide ∷ ActionFamily.tag ∷ ActionFamily.skip ∷ []

-- `as_str`.
unfoldable pub as_str : ActionFamily → Str
as_str ActionFamily.host = codes "host"
as_str ActionFamily.upstream = codes "upstream"
as_str ActionFamily.direct = codes "direct"
as_str ActionFamily.mock = codes "mock"
as_str ActionFamily.map_remote = codes "map.remote"
as_str ActionFamily.status = codes "status"
as_str ActionFamily.redirect = codes "redirect"
as_str ActionFamily.req_header = codes "req.header"
as_str ActionFamily.res_header = codes "res.header"
as_str ActionFamily.res_status = codes "res.status"
as_str ActionFamily.req_method = codes "req.method"
as_str ActionFamily.req_cookie = codes "req.cookie"
as_str ActionFamily.res_cookie = codes "res.cookie"
as_str ActionFamily.req_ua = codes "req.ua"
as_str ActionFamily.req_referer = codes "req.referer"
as_str ActionFamily.req_auth = codes "req.auth"
as_str ActionFamily.req_forwarded = codes "req.forwarded"
as_str ActionFamily.req_type = codes "req.type"
as_str ActionFamily.req_charset = codes "req.charset"
as_str ActionFamily.res_cors = codes "res.cors"
as_str ActionFamily.res_type = codes "res.type"
as_str ActionFamily.res_charset = codes "res.charset"
as_str ActionFamily.res_merge = codes "res.merge"
as_str ActionFamily.res_trailer = codes "res.trailer"
as_str ActionFamily.attachment = codes "attachment"
as_str ActionFamily.cache = codes "cache"
as_str ActionFamily.tls = codes "tls"
as_str ActionFamily.url_rewrite = codes "url.rewrite"
as_str ActionFamily.url_query = codes "url.query"
as_str ActionFamily.delete = codes "delete"
as_str ActionFamily.req_body_set = codes "req.body.set"
as_str ActionFamily.req_body_prepend = codes "req.body.prepend"
as_str ActionFamily.req_body_append = codes "req.body.append"
as_str ActionFamily.req_body_replace = codes "req.body.replace"
as_str ActionFamily.res_body_set = codes "res.body.set"
as_str ActionFamily.res_body_prepend = codes "res.body.prepend"
as_str ActionFamily.res_body_append = codes "res.body.append"
as_str ActionFamily.res_body_replace = codes "res.body.replace"
as_str ActionFamily.inject = codes "inject"
as_str ActionFamily.delay_req = codes "delay.req"
as_str ActionFamily.delay_res = codes "delay.res"
as_str ActionFamily.throttle_req = codes "throttle.req"
as_str ActionFamily.throttle_res = codes "throttle.res"
as_str ActionFamily.bypass = codes "bypass"
as_str ActionFamily.hide = codes "hide"
as_str ActionFamily.tag = codes "tag"
as_str ActionFamily.skip = codes "skip"

unfoldable pub phases : ActionFamily → List Phase
phases ActionFamily.host = Phase.req ∷ []
phases ActionFamily.upstream = Phase.req ∷ []
phases ActionFamily.direct = Phase.req ∷ []
phases ActionFamily.mock = Phase.req ∷ []
phases ActionFamily.map_remote = Phase.req ∷ []
phases ActionFamily.status = Phase.req ∷ []
phases ActionFamily.redirect = Phase.req ∷ []
phases ActionFamily.req_header = Phase.req ∷ []
phases ActionFamily.res_header = Phase.res ∷ []
phases ActionFamily.res_status = Phase.res ∷ []
phases ActionFamily.req_method = Phase.req ∷ []
phases ActionFamily.req_cookie = Phase.req ∷ []
phases ActionFamily.res_cookie = Phase.res ∷ []
phases ActionFamily.req_ua = Phase.req ∷ []
phases ActionFamily.req_referer = Phase.req ∷ []
phases ActionFamily.req_auth = Phase.req ∷ []
phases ActionFamily.req_forwarded = Phase.req ∷ []
phases ActionFamily.req_type = Phase.req ∷ []
phases ActionFamily.req_charset = Phase.req ∷ []
phases ActionFamily.res_cors = Phase.res ∷ []
phases ActionFamily.res_type = Phase.res ∷ []
phases ActionFamily.res_charset = Phase.res ∷ []
phases ActionFamily.res_merge = Phase.res ∷ []
phases ActionFamily.res_trailer = Phase.res ∷ []
phases ActionFamily.attachment = Phase.res ∷ []
phases ActionFamily.cache = Phase.res ∷ []
phases ActionFamily.tls = Phase.req ∷ []
phases ActionFamily.url_rewrite = Phase.req ∷ []
phases ActionFamily.url_query = Phase.req ∷ []
phases ActionFamily.delete = Phase.req ∷ Phase.res ∷ []
phases ActionFamily.req_body_set = Phase.req ∷ []
phases ActionFamily.req_body_prepend = Phase.req ∷ []
phases ActionFamily.req_body_append = Phase.req ∷ []
phases ActionFamily.req_body_replace = Phase.req ∷ []
phases ActionFamily.res_body_set = Phase.res ∷ []
phases ActionFamily.res_body_prepend = Phase.res ∷ []
phases ActionFamily.res_body_append = Phase.res ∷ []
phases ActionFamily.res_body_replace = Phase.res ∷ []
phases ActionFamily.inject = Phase.res ∷ []
phases ActionFamily.delay_req = Phase.req ∷ []
phases ActionFamily.delay_res = Phase.res ∷ []
phases ActionFamily.throttle_req = Phase.req ∷ []
phases ActionFamily.throttle_res = Phase.res ∷ []
phases ActionFamily.bypass = Phase.req ∷ []
phases ActionFamily.hide = Phase.req ∷ Phase.res ∷ []
phases ActionFamily.tag = Phase.req ∷ Phase.res ∷ []
phases ActionFamily.skip = Phase.req ∷ Phase.res ∷ []

unfoldable pub resolution : ActionFamily → ResolutionPolicy
resolution ActionFamily.host = ResolutionPolicy.first_wins
resolution ActionFamily.upstream = ResolutionPolicy.first_wins
resolution ActionFamily.direct = ResolutionPolicy.first_wins
resolution ActionFamily.mock = ResolutionPolicy.first_wins
resolution ActionFamily.map_remote = ResolutionPolicy.first_wins
resolution ActionFamily.status = ResolutionPolicy.first_wins
resolution ActionFamily.redirect = ResolutionPolicy.first_wins
resolution ActionFamily.req_header = ResolutionPolicy.stackable
resolution ActionFamily.res_header = ResolutionPolicy.stackable
resolution ActionFamily.res_status = ResolutionPolicy.first_wins
resolution ActionFamily.req_method = ResolutionPolicy.first_wins
resolution ActionFamily.req_cookie = ResolutionPolicy.stackable
resolution ActionFamily.res_cookie = ResolutionPolicy.stackable
resolution ActionFamily.req_ua = ResolutionPolicy.first_wins
resolution ActionFamily.req_referer = ResolutionPolicy.first_wins
resolution ActionFamily.req_auth = ResolutionPolicy.first_wins
resolution ActionFamily.req_forwarded = ResolutionPolicy.first_wins
resolution ActionFamily.req_type = ResolutionPolicy.first_wins
resolution ActionFamily.req_charset = ResolutionPolicy.first_wins
resolution ActionFamily.res_cors = ResolutionPolicy.first_wins
resolution ActionFamily.res_type = ResolutionPolicy.first_wins
resolution ActionFamily.res_charset = ResolutionPolicy.first_wins
resolution ActionFamily.res_merge = ResolutionPolicy.stackable
resolution ActionFamily.res_trailer = ResolutionPolicy.stackable
resolution ActionFamily.attachment = ResolutionPolicy.first_wins
resolution ActionFamily.cache = ResolutionPolicy.first_wins
resolution ActionFamily.tls = ResolutionPolicy.first_wins
resolution ActionFamily.url_rewrite = ResolutionPolicy.first_wins
resolution ActionFamily.url_query = ResolutionPolicy.stackable
resolution ActionFamily.delete = ResolutionPolicy.stackable
resolution ActionFamily.req_body_set = ResolutionPolicy.stackable
resolution ActionFamily.req_body_prepend = ResolutionPolicy.stackable
resolution ActionFamily.req_body_append = ResolutionPolicy.stackable
resolution ActionFamily.req_body_replace = ResolutionPolicy.stackable
resolution ActionFamily.res_body_set = ResolutionPolicy.stackable
resolution ActionFamily.res_body_prepend = ResolutionPolicy.stackable
resolution ActionFamily.res_body_append = ResolutionPolicy.stackable
resolution ActionFamily.res_body_replace = ResolutionPolicy.stackable
resolution ActionFamily.inject = ResolutionPolicy.stackable
resolution ActionFamily.delay_req = ResolutionPolicy.first_wins
resolution ActionFamily.delay_res = ResolutionPolicy.first_wins
resolution ActionFamily.throttle_req = ResolutionPolicy.first_wins
resolution ActionFamily.throttle_res = ResolutionPolicy.first_wins
resolution ActionFamily.bypass = ResolutionPolicy.first_wins
resolution ActionFamily.hide = ResolutionPolicy.first_wins
resolution ActionFamily.tag = ResolutionPolicy.stackable
resolution ActionFamily.skip = ResolutionPolicy.stackable

abbrev pub is_stackable_policy : ResolutionPolicy → Bool
is_stackable_policy ResolutionPolicy.stackable = true
is_stackable_policy ResolutionPolicy.first_wins = false

abbrev pub phase_eq : Phase → Phase → Bool
phase_eq Phase.req Phase.req = true
phase_eq Phase.res Phase.res = true
phase_eq _ _ = false

-- `family_applies_in`.
unfoldable pub family_applies_in : ActionFamily → Phase → Bool
unfolding phases any
family_applies_in family phase = any (phase_eq phase) (phases family)
