-- ===== src/Rules/Family/Laws.antt =====
-- Facts on the discriminants of families.
use rsproxy.Base.{◌≡◌, refl, sym, ap, ◌∙◌, some, get_elem?}
use rsproxy.Rules.Family.{ActionFamily, ordinal, all_families}

-- The discriminants count the families of `ALL`.
get_elem?-ordinal : (f : ActionFamily) → get_elem? all_families (ordinal f) ≡ some f
unfolding ordinal
get_elem?-ordinal ActionFamily.host = refl
get_elem?-ordinal ActionFamily.upstream = refl
get_elem?-ordinal ActionFamily.direct = refl
get_elem?-ordinal ActionFamily.mock = refl
get_elem?-ordinal ActionFamily.map_remote = refl
get_elem?-ordinal ActionFamily.status = refl
get_elem?-ordinal ActionFamily.redirect = refl
get_elem?-ordinal ActionFamily.req_header = refl
get_elem?-ordinal ActionFamily.res_header = refl
get_elem?-ordinal ActionFamily.res_status = refl
get_elem?-ordinal ActionFamily.req_method = refl
get_elem?-ordinal ActionFamily.req_cookie = refl
get_elem?-ordinal ActionFamily.res_cookie = refl
get_elem?-ordinal ActionFamily.req_ua = refl
get_elem?-ordinal ActionFamily.req_referer = refl
get_elem?-ordinal ActionFamily.req_auth = refl
get_elem?-ordinal ActionFamily.req_forwarded = refl
get_elem?-ordinal ActionFamily.req_type = refl
get_elem?-ordinal ActionFamily.req_charset = refl
get_elem?-ordinal ActionFamily.res_cors = refl
get_elem?-ordinal ActionFamily.res_type = refl
get_elem?-ordinal ActionFamily.res_charset = refl
get_elem?-ordinal ActionFamily.res_merge = refl
get_elem?-ordinal ActionFamily.res_trailer = refl
get_elem?-ordinal ActionFamily.attachment = refl
get_elem?-ordinal ActionFamily.cache = refl
get_elem?-ordinal ActionFamily.tls = refl
get_elem?-ordinal ActionFamily.url_rewrite = refl
get_elem?-ordinal ActionFamily.url_query = refl
get_elem?-ordinal ActionFamily.delete = refl
get_elem?-ordinal ActionFamily.req_body_set = refl
get_elem?-ordinal ActionFamily.req_body_prepend = refl
get_elem?-ordinal ActionFamily.req_body_append = refl
get_elem?-ordinal ActionFamily.req_body_replace = refl
get_elem?-ordinal ActionFamily.res_body_set = refl
get_elem?-ordinal ActionFamily.res_body_prepend = refl
get_elem?-ordinal ActionFamily.res_body_append = refl
get_elem?-ordinal ActionFamily.res_body_replace = refl
get_elem?-ordinal ActionFamily.inject = refl
get_elem?-ordinal ActionFamily.delay_req = refl
get_elem?-ordinal ActionFamily.delay_res = refl
get_elem?-ordinal ActionFamily.throttle_req = refl
get_elem?-ordinal ActionFamily.throttle_res = refl
get_elem?-ordinal ActionFamily.bypass = refl
get_elem?-ordinal ActionFamily.hide = refl
get_elem?-ordinal ActionFamily.tag = refl
get_elem?-ordinal ActionFamily.skip = refl

pub ordinal_injective : (f g : ActionFamily) → ordinal f ≡ ordinal g → f ≡ g
ordinal_injective f g h =
    let e : some f ≡ some g =
      sym (get_elem?-ordinal f) ∙ ap (get_elem? all_families) h ∙ get_elem?-ordinal g in
    cc
