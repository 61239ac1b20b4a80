-- ===== src/Rules/Resolve.antt =====
-- crates/rsproxy-rules/src/resolve.rs, `resolve_inner`, with resolution_api.rs: the actions that a
-- request is given, and whether its body has to be read first. A `HashSet` of rules seen is a list.
pub mod Order
pub mod Pass
pub mod Scan
pub mod Offers
pub mod Tracks
pub mod Select
pub mod Body
use rsproxy.Base.{
  ℕ, zero, suc, ◌+◌, Bool, true, false, not, ◌&&◌, ◌||◌, Option, none, some, List, [], ◌∷◌, ◌++◌,
  ltb, ◌==◌, if◌then◌else◌, is_some, length, get_elem?, filter,
}
use rsproxy.Rules.Text.{Str, str_eq, is_empty, any}
use rsproxy.Rules.Url.{UrlParts, Parsed, ok, err, parse}
use rsproxy.Rules.Bits.{Bits, has_bit}
use rsproxy.Rules.Action.{Action, DeleteOp, deletes_req_body, action_requires_request_body}
use rsproxy.Rules.Family.{ActionFamily, ordinal}
use rsproxy.Rules.Classify.{family, is_single}
use rsproxy.Rules.FamilySet.{contains, insert, observe}
use rsproxy.Rules.Model.{
  Rule, RequestMeta, ResponseMeta, Captures, MatchedRule, ResolvedAction, ResolveResult,
  CompiledRuleResources,
}
use rsproxy.Rules.Engine.{Engines}
use rsproxy.Rules.Match.{matches_compiled}
use rsproxy.Rules.Conditions.{Context, any_depends_on_request_body}
use rsproxy.Rules.Evaluate.{all_match, all_may_match}
use rsproxy.Rules.Index.{RuleIndex}
use rsproxy.Rules.Candidates.{candidate_rule_indices}

-- `Result::ok`.
abbrev pub parsed_url : Parsed UrlParts → Option UrlParts
parsed_url (ok url) = some url
parsed_url (err e) = none

-- The key of `sort_by_key`: `(!important, idx)`. Out of range the source panics; no index is.
unfoldable pub important_at : List Rule → ℕ → Bool
important_at [] i = false
important_at (rule ∷ rules) zero = rule.important
important_at (rule ∷ rules) (suc i) = important_at rules i

unfoldable pub precedes : List Rule → ℕ → ℕ → Bool
unfolding important_at
precedes rules i j =
    if important_at rules i
    then (if important_at rules j then ltb i j else true)
    else (if important_at rules j then false else ltb i j)

-- A stable sort.
unfoldable pub insert_index : List Rule → ℕ → List ℕ → List ℕ
unfolding precedes
insert_index rules i [] = i ∷ []
insert_index rules i (j ∷ js) =
    if precedes rules j i then j ∷ insert_index rules i js else i ∷ j ∷ js

unfoldable pub sort_by_priority : List Rule → List ℕ → List ℕ
unfolding insert_index
sort_by_priority rules [] = []
sort_by_priority rules (i ∷ is) = insert_index rules i (sort_by_priority rules is)

abbrev pub keep_operations : List DeleteOp → Option Action
keep_operations [] = none
keep_operations (op ∷ ops) = some (Action.delete (op ∷ ops))

-- `action_for_body_availability`.
unfoldable pub action_for_body_availability : Action → Bool → Option Action
action_for_body_availability action true = some action
action_for_body_availability (Action.req_body op) false = none
action_for_body_availability (Action.delete operations) false =
    keep_operations (filter (λ op. not (deletes_req_body op)) operations)
action_for_body_availability action false = some action

-- The variables of the loop. `seen` holds the group and the line of each rule that is matched.
pub record Resolution : Type 0 where
  pub actions : List ResolvedAction
  pub matched_rules : List MatchedRule
  pub seen : List (Str × ℕ)
  pub single_families : Bits
  pub skip : Bits

abbrev pub start : Resolution
start = record { actions = []; matched_rules = []; seen = []; single_families = []; skip = [] }

abbrev pub same_rule : Str × ℕ → Str × ℕ → Bool
same_rule (group, line) (g, l) = str_eq g group && l == line

abbrev pub note_rule : MatchedRule → Resolution → Resolution
note_rule brief st = if any (same_rule (brief.group, brief.line)) st.seen then st else (record st {
  seen = (brief.group, brief.line) ∷ st.seen;
  matched_rules = st.matched_rules ++ brief ∷ [];
})

abbrev pub resolved : Action → MatchedRule → Captures → Option ResponseMeta → ResolvedAction
resolved action brief captures response = record {
  action = action;
  rule = brief;
  captures = captures;
  response = response;
}

-- What the body of the inner loop does with an action that is neither suppressed nor taken.
abbrev pub push_action : ResolvedAction → Resolution → Resolution
push_action found st =
    let noted = note_rule found.rule st in
    record noted {
      actions = noted.actions ++ found ∷ [];
      single_families =
          if is_single found.action
          then insert noted.single_families (family found.action)
          else noted.single_families;
      skip = observe noted.skip found.action;
    }

abbrev pub is_suppressed : Action → Resolution → Bool
is_suppressed action st =
    contains st.skip (family action)
    || (is_single action && contains st.single_families (family action))

-- One round of the inner loop, for an action that the body's absence leaves.
unfoldable pub offer : ResolvedAction → Resolution → Resolution
unfolding family any str_eq
offer found st = if is_suppressed found.action st then st else push_action found st

abbrev pub offer_available :
    Option Action → MatchedRule → Captures → Option ResponseMeta → Resolution → Resolution
offer_available none brief captures response st = st
offer_available (some action) brief captures response st =
    offer (resolved action brief captures response) st

-- The inner loop.
unfoldable pub take_actions :
    List Action → Bool → MatchedRule → Captures → Option ResponseMeta → Resolution → Resolution
unfolding offer action_for_body_availability
take_actions [] body brief captures response st = st
take_actions (action ∷ actions) body brief captures response st =
    take_actions actions body brief captures response
      (offer_available (action_for_body_availability action body) brief captures response st)

abbrev pub brief_of : Rule → MatchedRule
brief_of rule = record { group = rule.group; line = rule.line; raw = rule.raw }

-- What a request is resolved against: the snapshot's index, the parsed URL, the request and the
-- response, and whether the body is there.
pub record Query : Type 0 where
  pub index : RuleIndex
  pub url : Option UrlParts
  pub req : RequestMeta
  pub res : Option ResponseMeta
  pub body : Bool

abbrev pub context_at : Query → ℕ → Context
context_at q line = record {
  url = q.url;
  res = q.res;
  line = line;
  globs = q.index.compiled_globs;
  literals = q.index.compiled_body_literals;
  req = q.req;
}

module _ ⦃E : Engines⦄ where
  abbrev pub captures_of : Rule → CompiledRuleResources → Query → Option UrlParts → Option Captures
  captures_of rule resources q none = none
  captures_of rule resources q (some url) =
      matches_compiled rule.matcher url q.req.url q.index.compiled_globs resources.matcher

  -- The captures of a rule that applies: it is enabled, its matcher and its conditions hold, and no
  -- condition of it needs a body that is missing.
  unfoldable pub applies : Rule → CompiledRuleResources → Query → Option Captures
  unfolding matches_compiled all_match any_depends_on_request_body
  applies rule resources q =
      if rule.disabled then none else elim (captures_of rule resources q q.url) [
        | none ↦ none
        | some captures ↦
            if not q.body && any_depends_on_request_body rule.conditions
            then none
            else if all_match rule.conditions resources.conditions (context_at q rule.line)
            then some captures
            else none
      ]

  abbrev pub visit_rule : Rule → Query → Option Captures → Resolution → Resolution
  visit_rule rule q none st = st
  visit_rule rule q (some captures) st =
      take_actions rule.actions q.body (brief_of rule) captures q.res st

  -- The outer loop over the sorted indices; `none` is an index out of range.
  unfoldable pub visit_all : List Rule → Query → List ℕ → Resolution → Option Resolution
  unfolding applies take_actions
  visit_all rules q [] st = some st
  visit_all rules q (i ∷ is) st = elim (get_elem? rules i) [
    | none ↦ none
    | some rule ↦ elim (get_elem? q.index.compiled_resources i) [
      | none ↦ none
      | some resources ↦ visit_all rules q is (visit_rule rule q (applies rule resources q) st)
    ]
  ]

  abbrev pub result_of : Option Resolution → Option ResolveResult
  result_of none = none
  result_of (some st) = some (record { actions = st.actions; matched_rules = st.matched_rules })

  abbrev pub query_of : RuleIndex → RequestMeta → Option ResponseMeta → Bool → Query
  query_of index req res body = record {
    index = index;
    url = parsed_url (parse E.is_ipv6 req.url);
    req = req;
    res = res;
    body = body;
  }

  -- `resolve_inner`.
  unfoldable pub resolve_inner :
      List Rule → RuleIndex → RequestMeta → Option ResponseMeta → Bool → Option ResolveResult
  unfolding visit_all sort_by_priority candidate_rule_indices parse
  resolve_inner rules index req res body =
      if is_empty rules
      then some (record { actions = []; matched_rules = [] })
      else (let q = query_of index req res body in
          result_of (
            visit_all rules q
              (sort_by_priority rules (candidate_rule_indices rules index q.url req.url)) start))

  abbrev pub needs_body : Rule → Bool
  needs_body rule =
      any_depends_on_request_body rule.conditions || any action_requires_request_body rule.actions

  abbrev pub may_apply : Rule → CompiledRuleResources → Query → Bool
  may_apply rule resources q =
      not rule.disabled
      && is_some (captures_of rule resources q q.url)
      && all_may_match rule.conditions resources.conditions (context_at q rule.line)

  -- The chain of `request_body_required` over the candidates, in order.
  unfoldable pub any_needs_body : List Rule → Query → List ℕ → Option Bool
  unfolding any_depends_on_request_body action_requires_request_body any matches_compiled
      all_may_match
  any_needs_body rules q [] = some false
  any_needs_body rules q (i ∷ is) =
      let rest = any_needs_body rules q is in
      elim (get_elem? rules i) [
        | none ↦ none
        | some rule ↦ elim (get_elem? q.index.compiled_resources i) [
          | none ↦ none
          | some resources ↦
              if may_apply rule resources q && needs_body rule then some true else rest
        ]
      ]

  unfoldable pub request_body_required : List Rule → RuleIndex → RequestMeta → Option Bool
  unfolding any_needs_body candidate_rule_indices parse
  request_body_required rules index req =
      let q = query_of index req none true in
      any_needs_body rules q (candidate_rule_indices rules index q.url req.url)
