-- ===== src/Rules/Evaluate.antt =====
-- crates/rsproxy-rules/src/matcher/condition.rs, `matches_with_compiled`, and planning.rs,
-- `may_match_before_request_body`: conditions evaluated with their compiled resources.
pub mod Early
pub mod BodyText
use rsproxy.Base.{
  ℕ, Bool, true, false, not, ◌&&◌, ◌||◌, Option, none, some, List, [], ◌∷◌, ◌==◌, if◌then◌else◌,
  is_some, is_none,
}
use rsproxy.Rules.Text.{Str, str_eq, any, eq_ignore_ascii_case}
use rsproxy.Rules.Url.{UrlParts}
use rsproxy.Rules.Model.{
  Condition, Conditions, UrlCondition, RequestMeta, ResponseMeta, CompiledConditionResources,
  ConditionResources,
}
use rsproxy.Rules.Engine.{Engines}
use rsproxy.Rules.Glob.{CompiledGlobSet, glob_syntax_is_active, normalize_ip_value}
use rsproxy.Rules.GlobMatch.{id_matches, host_matches_id, ip_matches_id}
use rsproxy.Rules.Literals.{scan, is_marked}
use rsproxy.Rules.Match.{regex_matches}
use rsproxy.Rules.Conditions.{
  Context, header, contains_ascii_case_insensitive, chance, depends_on_request_body,
  depends_on_response,
}

abbrev pub contains_value : Option Str → Str → Bool
contains_value none value = false
contains_value (some actual) value = contains_ascii_case_insensitive actual value

module _ ⦃E : Engines⦄ where
  abbrev pub ips_match : Context → List Str → List (Option ℕ) → Str → Bool
  ips_match context [] ids actual = false
  ips_match context (pattern ∷ patterns) [] actual = false
  ips_match context (pattern ∷ patterns) (id ∷ ids) actual =
      ip_matches_id context.globs pattern actual id || ips_match context patterns ids actual

  abbrev pub ip_condition : Context → List Str → List (Option ℕ) → Option Str → Bool
  ip_condition context patterns ids none = false
  ip_condition context patterns ids (some raw) =
      ips_match context patterns ids (normalize_ip_value raw)

  abbrev pub host_condition : Context → Str → Option ℕ → Option UrlParts → Bool
  host_condition context pattern id none = false
  host_condition context pattern id (some url) = host_matches_id context.globs pattern url.host id

  abbrev pub url_condition : Context → UrlCondition → CompiledConditionResources → Bool
  url_condition context (UrlCondition.glob pattern) (CompiledConditionResources.url_glob id) =
      if glob_syntax_is_active pattern
      then id_matches context.globs id context.req.url
      else str_eq pattern context.req.url
  url_condition context (UrlCondition.glob pattern) _ =
      if glob_syntax_is_active pattern then false else str_eq pattern context.req.url
  url_condition context (UrlCondition.regex regex) resources =
      is_some (regex_matches regex context.req.url)

  abbrev pub env_is : Option Str → Str → Bool
  env_is none value = false
  env_is (some actual) value = str_eq actual value

  abbrev pub on_response : Option ResponseMeta → (ResponseMeta → Bool) → Bool
  on_response none test = false
  on_response (some res) test = test res

  -- The conditions that hold no others.
  unfoldable pub leaf_matches : Condition → CompiledConditionResources → Context → Bool
  unfolding any str_eq header contains_ascii_case_insensitive chance host_matches_id ip_matches_id
      id_matches normalize_ip_value regex_matches scan is_marked
  leaf_matches (Condition.method methods) resources context =
      any (λ m. eq_ignore_ascii_case m context.req.method) methods
  leaf_matches (Condition.host pattern) (CompiledConditionResources.host id) context =
      host_condition context pattern id context.url
  leaf_matches (Condition.url condition) resources context =
      url_condition context condition resources
  leaf_matches (Condition.client_ip patterns) (CompiledConditionResources.client_ip ids) context =
      ip_condition context patterns ids context.req.client_ip
  leaf_matches (Condition.server_ip patterns) (CompiledConditionResources.server_ip ids) context =
      ip_condition context patterns ids context.req.server_ip
  leaf_matches (Condition.header_present name) resources context =
      is_some (header context.req.headers name)
  leaf_matches (Condition.header_contains name value) resources context =
      contains_value (header context.req.headers name) value
  leaf_matches (Condition.res_header_present name) resources context =
      on_response context.res (λ res. is_some (header res.headers name))
  leaf_matches (Condition.res_header_contains name value) resources context =
      on_response context.res (λ res. contains_value (header res.headers name) value)
  leaf_matches (Condition.body_contains _) (CompiledConditionResources.body_contains id) context =
      is_marked id (scan context.literals (E.from_utf8_lossy context.req.body))
  leaf_matches (Condition.body_regex regex) resources context =
      is_some (regex_matches regex (E.from_utf8_lossy context.req.body))
  leaf_matches (Condition.status statuses) resources context =
      on_response context.res (λ res. any (λ s. s == res.status) statuses)
  leaf_matches (Condition.chance_permille permille) resources context =
      chance context.req context.line permille
  leaf_matches (Condition.env_present name) resources context = is_some (E.env_var name)
  leaf_matches (Condition.env_equals name value) resources context = env_is (E.env_var name) value
  leaf_matches _ resources context = false

-- `matches_with_compiled`. Resources of another shape than the condition's never match.
unfoldable mutual
  unfolding leaf_matches depends_on_response

  pub matches_with_compiled :
      ⦃E : Engines⦄ → Condition → CompiledConditionResources → Context → Bool
  matches_with_compiled (Condition.any cs) (CompiledConditionResources.children rs) context =
      any_matches cs rs context
  matches_with_compiled (Condition.any cs) _ context = false
  matches_with_compiled (Condition.all cs) (CompiledConditionResources.children rs) context =
      all_match cs rs context
  matches_with_compiled (Condition.all cs) _ context = false
  matches_with_compiled (Condition.not c) (CompiledConditionResources.not r) context =
      if is_none context.res && depends_on_response c
      then false
      else not (matches_with_compiled c r context)
  matches_with_compiled (Condition.not c) _ context = false
  matches_with_compiled c resources context = leaf_matches c resources context

  pub any_matches : ⦃E : Engines⦄ → Conditions → ConditionResources → Context → Bool
  any_matches (Conditions.cons c cs) (ConditionResources.cons r rs) context =
      matches_with_compiled c r context || any_matches cs rs context
  any_matches (Conditions.cons c cs) ConditionResources.nil context = false
  any_matches Conditions.nil rs context = false

  pub all_match : ⦃E : Engines⦄ → Conditions → ConditionResources → Context → Bool
  all_match (Conditions.cons c cs) (ConditionResources.cons r rs) context =
      matches_with_compiled c r context && all_match cs rs context
  all_match (Conditions.cons c cs) ConditionResources.nil context = true
  all_match Conditions.nil rs context = true

unfoldable mutual
  unfolding matches_with_compiled depends_on_response depends_on_request_body

  pub may_match_before_request_body :
      ⦃E : Engines⦄ → Condition → CompiledConditionResources → Context → Bool
  may_match_before_request_body (Condition.body_contains _) resources context = true
  may_match_before_request_body (Condition.body_regex _) resources context = true
  may_match_before_request_body (Condition.res_header_present _) resources context = true
  may_match_before_request_body (Condition.res_header_contains _ _) resources context = true
  may_match_before_request_body (Condition.status _) resources context = true
  may_match_before_request_body (Condition.any cs) (CompiledConditionResources.children rs)
        context =
      any_may_match cs rs context
  may_match_before_request_body (Condition.any cs) _ context = false
  may_match_before_request_body (Condition.all cs) (CompiledConditionResources.children rs)
        context =
      all_may_match cs rs context
  may_match_before_request_body (Condition.all cs) _ context = false
  may_match_before_request_body (Condition.not c) resources context =
      depends_on_request_body c
      || depends_on_response c
      || matches_with_compiled (Condition.not c) resources context
  may_match_before_request_body c resources context = matches_with_compiled c resources context

  pub any_may_match : ⦃E : Engines⦄ → Conditions → ConditionResources → Context → Bool
  any_may_match (Conditions.cons c cs) (ConditionResources.cons r rs) context =
      may_match_before_request_body c r context || any_may_match cs rs context
  any_may_match (Conditions.cons c cs) ConditionResources.nil context = false
  any_may_match Conditions.nil rs context = false

  pub all_may_match : ⦃E : Engines⦄ → Conditions → ConditionResources → Context → Bool
  all_may_match (Conditions.cons c cs) (ConditionResources.cons r rs) context =
      may_match_before_request_body c r context && all_may_match cs rs context
  all_may_match (Conditions.cons c cs) ConditionResources.nil context = true
  all_may_match Conditions.nil rs context = true
