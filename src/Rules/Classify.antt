-- ===== src/Rules/Classify.antt =====
-- crates/rsproxy-rules/src/matcher/action.rs: the family of an action, whether every action of it
-- is kept, and the phases in which it has an effect.
use rsproxy.Base.{Bool, not}
use rsproxy.Rules.Text.{any}
use rsproxy.Rules.Action.{Phase, Action, BodyOp, DeleteOp}
use rsproxy.Rules.Family.{
  ActionFamily, resolution, is_stackable_policy, phase_eq, family_applies_in,
}

-- The family of a body operation, by the four that its message has.
abbrev pub body_family :
    ActionFamily → ActionFamily → ActionFamily → ActionFamily → BodyOp → ActionFamily
body_family set prepend append replace (BodyOp.set _) = set
body_family set prepend append replace (BodyOp.prepend _) = prepend
body_family set prepend append replace (BodyOp.append _) = append
body_family set prepend append replace (BodyOp.replace _ _) = replace

-- `Action::family`.
unfoldable pub family : Action → ActionFamily
family (Action.host _) = ActionFamily.host
family (Action.upstream _) = ActionFamily.upstream
family Action.direct = ActionFamily.direct
family (Action.mock _) = ActionFamily.mock
family (Action.mock_raw _) = ActionFamily.mock
family (Action.mock_inline _) = ActionFamily.mock
family (Action.status _) = ActionFamily.status
family (Action.redirect _ _) = ActionFamily.redirect
family (Action.req_header _) = ActionFamily.req_header
family (Action.res_header _) = ActionFamily.res_header
family (Action.res_status _) = ActionFamily.res_status
family (Action.req_method _) = ActionFamily.req_method
family (Action.req_cookie _) = ActionFamily.req_cookie
family (Action.res_cookie _) = ActionFamily.res_cookie
family (Action.req_ua _) = ActionFamily.req_ua
family (Action.req_referer _) = ActionFamily.req_referer
family (Action.req_auth _) = ActionFamily.req_auth
family (Action.req_forwarded _) = ActionFamily.req_forwarded
family (Action.req_type _) = ActionFamily.req_type
family (Action.req_charset _) = ActionFamily.req_charset
family (Action.res_cors _) = ActionFamily.res_cors
family (Action.res_type _) = ActionFamily.res_type
family (Action.res_charset _) = ActionFamily.res_charset
family (Action.res_merge _) = ActionFamily.res_merge
family (Action.res_trailer _) = ActionFamily.res_trailer
family (Action.attachment _) = ActionFamily.attachment
family (Action.cache _) = ActionFamily.cache
family (Action.tls _) = ActionFamily.tls
family (Action.map_remote _) = ActionFamily.map_remote
family (Action.url_rewrite _ _) = ActionFamily.url_rewrite
family (Action.url_query _) = ActionFamily.url_query
family (Action.delete _) = ActionFamily.delete
family (Action.req_body op) =
    body_family ActionFamily.req_body_set ActionFamily.req_body_prepend ActionFamily.req_body_append
      ActionFamily.req_body_replace op
family (Action.res_body op) =
    body_family ActionFamily.res_body_set ActionFamily.res_body_prepend ActionFamily.res_body_append
      ActionFamily.res_body_replace op
family (Action.inject _) = ActionFamily.inject
family (Action.delay Phase.req _) = ActionFamily.delay_req
family (Action.delay Phase.res _) = ActionFamily.delay_res
family (Action.throttle Phase.req _) = ActionFamily.throttle_req
family (Action.throttle Phase.res _) = ActionFamily.throttle_res
family Action.bypass = ActionFamily.bypass
family Action.hide = ActionFamily.hide
family (Action.tag _) = ActionFamily.tag
family (Action.skip _) = ActionFamily.skip

-- `is_stackable` and `is_single`.
unfoldable pub is_stackable : Action → Bool
unfolding family resolution
is_stackable action = is_stackable_policy (resolution (family action))

abbrev pub is_single : Action → Bool
is_single action = not (is_stackable action)

unfoldable pub delete_operation_applies_in : DeleteOp → Phase → Bool
delete_operation_applies_in DeleteOp.pathname phase = phase_eq phase Phase.req
delete_operation_applies_in (DeleteOp.path_segment _) phase = phase_eq phase Phase.req
delete_operation_applies_in DeleteOp.url_params phase = phase_eq phase Phase.req
delete_operation_applies_in (DeleteOp.url_param _) phase = phase_eq phase Phase.req
delete_operation_applies_in (DeleteOp.req_header _) phase = phase_eq phase Phase.req
delete_operation_applies_in DeleteOp.req_body phase = phase_eq phase Phase.req
delete_operation_applies_in (DeleteOp.req_body_path _) phase = phase_eq phase Phase.req
delete_operation_applies_in DeleteOp.req_type phase = phase_eq phase Phase.req
delete_operation_applies_in DeleteOp.req_charset phase = phase_eq phase Phase.req
delete_operation_applies_in (DeleteOp.req_cookie _) phase = phase_eq phase Phase.req
delete_operation_applies_in DeleteOp.req_cookies phase = phase_eq phase Phase.req
delete_operation_applies_in (DeleteOp.res_header _) phase = phase_eq phase Phase.res
delete_operation_applies_in DeleteOp.res_body phase = phase_eq phase Phase.res
delete_operation_applies_in (DeleteOp.res_body_path _) phase = phase_eq phase Phase.res
delete_operation_applies_in DeleteOp.res_type phase = phase_eq phase Phase.res
delete_operation_applies_in DeleteOp.res_charset phase = phase_eq phase Phase.res
delete_operation_applies_in (DeleteOp.res_cookie _) phase = phase_eq phase Phase.res
delete_operation_applies_in DeleteOp.res_cookies phase = phase_eq phase Phase.res
delete_operation_applies_in (DeleteOp.trailer _) phase = phase_eq phase Phase.res
delete_operation_applies_in DeleteOp.trailers phase = phase_eq phase Phase.res

-- `applies_in`.
unfoldable pub applies_in : Action → Phase → Bool
unfolding delete_operation_applies_in family_applies_in family any
applies_in (Action.delete operations) phase =
    any (λ operation. delete_operation_applies_in operation phase) operations
applies_in action phase = family_applies_in (family action) phase
