-- ===== src/Rules/Conditions.antt =====
-- crates/rsproxy-rules/src/matcher/condition.rs with `bind_condition_resources` of index.rs, `header`
-- and `chance` of matching.rs, and planning.rs: the conditions of a rule. The cache of a request's
-- body text, its scan and its addresses holds what a fresh computation gives, and is left out.
use rsproxy.Base.{
  ℕ, ◌*◌, ◌%◌, Bool, true, false, ◌||◌, Option, none, some, List, [], ◌∷◌, ltb, leb, ◌==◌,
  if◌then◌else◌,
}
use rsproxy.Base.Bytes.{xor_bits}
use rsproxy.Rules.Text.{Str, str_eq, to_ascii_lowercase, eq_ignore_ascii_case, occurs}
use rsproxy.Rules.Url.{UrlParts}
use rsproxy.Rules.Model.{
  Condition, Conditions, UrlCondition, RequestMeta, ResponseMeta, CompiledConditionResources,
  ConditionResources,
}
use rsproxy.Rules.Engine.{Engines}
use rsproxy.Rules.Glob.{
  CompiledGlobSet, glob_id, glob_syntax_is_active, host_pattern_uses_regex, normalize_ip_value,
}
use rsproxy.Rules.Literals.{CompiledBodyContainsSet, literal_id}

-- `header`: the first field of the name.
unfoldable pub header : List (Str × Str) → Str → Option Str
unfolding str_eq
header [] name = none
header ((k, v) ∷ headers) name = if eq_ignore_ascii_case k name then some v else header headers name

-- `contains_ascii_case_insensitive`: a window of the haystack that is the needle but for case.
unfoldable pub contains_ascii_case_insensitive : Str → Str → Bool
unfolding occurs
contains_ascii_case_insensitive haystack needle =
    occurs (to_ascii_lowercase needle) (to_ascii_lowercase haystack)

-- The hash of `chance`: FNV-1a on 64 bits.
unfoldable pub hash_bytes : ℕ → Str → ℕ
unfolding xor_bits
hash_bytes hash [] = hash
hash_bytes hash (b ∷ s) = hash_bytes (xor_bits 64 hash b * 1099511628211 % 18446744073709551616) s

unfoldable pub chance : RequestMeta → ℕ → ℕ → Bool
unfolding hash_bytes xor_bits
chance req line permille =
    if leb 1000 permille
    then true
    else if permille == 0
    then false
    else ltb
        (xor_bits 64 (hash_bytes (hash_bytes 1469598103934665603 req.url) req.method) line % 1000)
        permille

-- planning.rs: `depends_on_request_body` and `depends_on_response`.
unfoldable mutual
  pub depends_on_request_body : Condition → Bool
  depends_on_request_body (Condition.body_contains _) = true
  depends_on_request_body (Condition.body_regex _) = true
  depends_on_request_body (Condition.any cs) = any_depends_on_request_body cs
  depends_on_request_body (Condition.all cs) = any_depends_on_request_body cs
  depends_on_request_body (Condition.not c) = depends_on_request_body c
  depends_on_request_body _ = false

  pub any_depends_on_request_body : Conditions → Bool
  any_depends_on_request_body Conditions.nil = false
  any_depends_on_request_body (Conditions.cons c cs) =
      depends_on_request_body c || any_depends_on_request_body cs

unfoldable mutual
  pub depends_on_response : Condition → Bool
  depends_on_response (Condition.res_header_present _) = true
  depends_on_response (Condition.res_header_contains _ _) = true
  depends_on_response (Condition.status _) = true
  depends_on_response (Condition.any cs) = any_depends_on_response cs
  depends_on_response (Condition.all cs) = any_depends_on_response cs
  depends_on_response (Condition.not c) = depends_on_response c
  depends_on_response _ = false

  pub any_depends_on_response : Conditions → Bool
  any_depends_on_response Conditions.nil = false
  any_depends_on_response (Conditions.cons c cs) =
      depends_on_response c || any_depends_on_response cs

-- The end of a bind that may panic.
abbrev pub as_children : Option ConditionResources → Option CompiledConditionResources
as_children none = none
as_children (some children) = some (CompiledConditionResources.children children)

abbrev pub as_not : Option CompiledConditionResources → Option CompiledConditionResources
as_not none = none
as_not (some inner) = some (CompiledConditionResources.not inner)

abbrev pub as_literal : Option ℕ → Option CompiledConditionResources
as_literal none = none
as_literal (some id) = some (CompiledConditionResources.body_contains id)

abbrev pub join_children :
    Option CompiledConditionResources → Option ConditionResources → Option ConditionResources
join_children none rest = none
join_children (some first) none = none
join_children (some first) (some rest) = some (ConditionResources.cons first rest)

abbrev pub id_if : Bool → CompiledGlobSet → Str → ℕ → Option ℕ
id_if true globs pattern separator = glob_id globs pattern separator
id_if false globs pattern separator = none

module _ ⦃E : Engines⦄ where
  abbrev pub ip_ids : CompiledGlobSet → List Str → List (Option ℕ)
  ip_ids globs [] = []
  ip_ids globs (pattern ∷ patterns) =
      glob_id globs (normalize_ip_value pattern) 0 ∷ ip_ids globs patterns

unfoldable mutual
  -- `bind_condition_resources`; `none` is the panic of its `expect`.
  pub bind_condition :
      ⦃E : Engines⦄
      → CompiledGlobSet
      → CompiledBodyContainsSet
      → Condition
      → Option CompiledConditionResources
  bind_condition globs set (Condition.host pattern) = some (
      CompiledConditionResources.host
        (id_if (host_pattern_uses_regex pattern) globs (to_ascii_lowercase pattern) b'.'))
  bind_condition globs set (Condition.url (UrlCondition.glob pattern)) =
      some (
        CompiledConditionResources.url_glob (id_if (glob_syntax_is_active pattern) globs pattern 0))
  bind_condition globs set (Condition.client_ip patterns) =
      some (CompiledConditionResources.client_ip (ip_ids globs patterns))
  bind_condition globs set (Condition.server_ip patterns) =
      some (CompiledConditionResources.server_ip (ip_ids globs patterns))
  bind_condition globs set (Condition.body_contains literal) = as_literal (literal_id set literal)
  bind_condition globs set (Condition.any cs) = as_children (bind_conditions globs set cs)
  bind_condition globs set (Condition.all cs) = as_children (bind_conditions globs set cs)
  bind_condition globs set (Condition.not c) = as_not (bind_condition globs set c)
  bind_condition globs set _ = some CompiledConditionResources.none

  pub bind_conditions :
      ⦃E : Engines⦄
      → CompiledGlobSet
      → CompiledBodyContainsSet
      → Conditions
      → Option ConditionResources
  bind_conditions globs set Conditions.nil = some ConditionResources.nil
  bind_conditions globs set (Conditions.cons c cs) =
      join_children (bind_condition globs set c) (bind_conditions globs set cs)

-- `ConditionMatchContext`, with the request that its cache holds.
pub record Context : Type 0 where
  pub url : Option UrlParts
  pub res : Option ResponseMeta
  pub line : ℕ
  pub globs : CompiledGlobSet
  pub literals : CompiledBodyContainsSet
  pub req : RequestMeta
