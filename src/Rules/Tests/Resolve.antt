-- ===== src/Rules/Tests/Resolve.antt =====
-- Resolution on concrete rules: a regex with a literal, a wildcard host, an important rule for one
-- host, and a rule that looks into the body.
use rsproxy.Base.Members.{Listed}
use rsproxy.Base.{
  ℕ, ◌≡◌, refl, inl, inr, map, Bool, true, false, Option, none, some, List, [], ◌∷◌, subst, sym,
}
use rsproxy.Rules.Text.{Str, codes, any, all, lower_byte}
use rsproxy.Rules.Glob.{register_rules}
use rsproxy.Rules.Bits.{has_bit, set_bit}
use rsproxy.Rules.Family.{ordinal}
use rsproxy.Rules.Classify.{is_stackable}
use rsproxy.Rules.Action.{Action, Value}
use rsproxy.Rules.Model.{
  Rule, Matcher, CompiledRegex, Condition, Conditions, RequestMeta, ResolveResult, ResolvedAction,
  CompiledConditionResources, CompiledMatcherResources, CompiledRuleResources, ConditionResources,
}
use rsproxy.Rules.Index.{RuleIndex, build}
use rsproxy.Rules.Resolve.{resolve_inner, query_of, request_body_required}
use rsproxy.Rules.Conditions.{Context, bind_condition, contains_ascii_case_insensitive}
use rsproxy.Rules.Literals.{literal_id}
use rsproxy.Rules.Evaluate.{matches_with_compiled}
use rsproxy.Rules.Evaluate.BodyText.{matches_with_compiled-contains}
use rsproxy.Rules.Resolve.Scan.{resolve_inner_lem}
use rsproxy.Rules.Resolve.Pass.{scan_by_priority, outcome}
use rsproxy.Rules.Resolve.Select.{summary, offers_by_priority, resolve_inner-select}
use rsproxy.Rules.Resolve.Offers.{select}
use rsproxy.Rules.Resolve.Body.{deletes_nothing, resolve_inner-without_body}
use rsproxy.Rules.Tests.{literal_engines, literal_engines-Lawful, picked}

abbrev rule_for : Str → ℕ → Matcher → List Action → Conditions → Bool → Rule
rule_for raw line matcher actions conditions important = record {
  group = codes "main";
  line = line;
  raw = raw;
  matcher = matcher;
  actions = actions;
  conditions = conditions;
  important = important;
  disabled = false;
}

abbrev host_glob : Str → Matcher
host_glob host =
    Matcher.glob (record { scheme = none; host = host; port = none; path = none; query = none })

abbrev agent : Str → Action
agent name = Action.req_ua (Value.inline name)

abbrev rules : List Rule
rules =
    rule_for (codes "api") 1
      (Matcher.regex (record {
        pattern = codes "/api/";
        case_insensitive = false;
        compiled = CompiledRegex.linear;
      }))
      (agent (codes "one") ∷ Action.bypass ∷ []) Conditions.nil false
    ∷ rule_for (codes "sub") 2 (host_glob (codes "*.example.com"))
        (agent (codes "two") ∷ Action.hide ∷ []) Conditions.nil false
    ∷ rule_for (codes "top") 3 (host_glob (codes "www.example.com")) (agent (codes "three") ∷ [])
        Conditions.nil true
    ∷ rule_for (codes "body") 4 (host_glob (codes "other.org")) (Action.bypass ∷ [])
        (Conditions.cons (Condition.body_contains (codes "Hello")) Conditions.nil) false
    ∷ []

abbrev request : RequestMeta
request = record {
  method = codes "GET";
  url = codes "http://www.example.com/api/x";
  headers = [];
  body = [];
  client_ip = none;
  server_ip = none;
}

abbrev host_resources : ConditionResources → CompiledRuleResources
host_resources conditions = record {
  matcher = CompiledMatcherResources.glob none none none none;
  conditions = conditions;
}

abbrev index : RuleIndex
index = record {
  domain_exact = (codes "other.org", 3 ∷ []) ∷ (codes "www.example.com", 2 ∷ []) ∷ [];
  domain_suffix = (codes "example.com", 1 ∷ []) ∷ [];
  global = [];
  prefilter_literals = codes "/api/" ∷ [];
  prefilter_literal_rules = (0 ∷ []) ∷ [];
  prefilter_rule_ids = 0 ∷ [];
  prefilter = true;
  compiled_globs = record { ids = []; programs = [] };
  compiled_body_literals = record { literals = codes "hello" ∷ []; sources = codes "Hello" ∷ [] };
  compiled_resources =
      record { matcher = CompiledMatcherResources.none; conditions = ConditionResources.nil }
      ∷ host_resources ConditionResources.nil
      ∷ host_resources ConditionResources.nil
      ∷ host_resources (
          ConditionResources.cons (CompiledConditionResources.body_contains 0)
            ConditionResources.nil)
      ∷ [];
}

built : build rules ≡ some index
unfolding build register_rules literal_id lower_byte
built = refl

-- The important rule for the host gives its agent; the others give what is not of its family, in the
-- order of the source.
abbrev lines : Option ResolveResult → List (ℕ × Action)
lines none = []
lines (some result) = map (λ (r : ResolvedAction). (r.rule.line, r.action)) result.actions

resolves :
    lines (resolve_inner rules index request none true)
    ≡ (3, agent (codes "three")) ∷ (1, Action.bypass) ∷ (2, Action.hide) ∷ []
unfolding resolve_inner all lower_byte picked has_bit is_stackable set_bit ordinal
resolves = refl

no_body_yet : request_body_required rules index request ≡ some false
unfolding request_body_required all lower_byte picked
no_body_yet = refl

-- On the other host the body decides.
body_first :
    request_body_required rules index (record request { url = codes "http://other.org/" })
    ≡ some true
unfolding request_body_required all lower_byte picked
body_first = refl

filled : (rule : Rule) → Listed rule rules → any deletes_nothing rule.actions ≡ false
unfolding any
filled rule (inl e) = subst (λ (r : Rule). any deletes_nothing r.actions ≡ false) (sym e) refl
filled rule (inr (inl e)) = subst (λ (r : Rule). any deletes_nothing r.actions ≡ false) (sym e) refl
filled rule (inr (inr (inl e))) =
    subst (λ (r : Rule). any deletes_nothing r.actions ≡ false) (sym e) refl
filled rule (inr (inr (inr (inl e)))) =
    subst (λ (r : Rule). any deletes_nothing r.actions ≡ false) (sym e) refl
filled rule (inr (inr (inr (inr h)))) = absurd h

resolve_inner_lem_example :
    resolve_inner rules index request none true
    ≡ some (
        outcome
          (scan_by_priority rules index.compiled_resources (query_of index request none true)))
resolve_inner_lem_example =
    resolve_inner_lem literal_engines-Lawful rules index request none true built

resolve_inner-select_example :
    resolve_inner rules index request none true
    ≡ some (
        summary (
          select []
            (offers_by_priority rules index.compiled_resources (query_of index request none true))))
resolve_inner-select_example =
    resolve_inner-select literal_engines-Lawful rules index request none true built

resolve_inner-without_body_example :
    resolve_inner rules index (record request { body = codes "Hello" }) none true
    ≡ resolve_inner rules index request none false
resolve_inner-without_body_example =
    resolve_inner-without_body rules index request none (codes "Hello") filled no_body_yet

abbrev context : Context
context = record {
  url = none;
  res = none;
  line = 4;
  globs = index.compiled_globs;
  literals = index.compiled_body_literals;
  req = record request { body = codes "say HELLO" };
}

bound :
    bind_condition context.globs context.literals (Condition.body_contains (codes "Hello"))
    ≡ some (CompiledConditionResources.body_contains 0)
unfolding bind_condition literal_id lower_byte
bound = refl

matches_with_compiled-contains_example :
    matches_with_compiled
      (Condition.body_contains (codes "Hello"))
      (CompiledConditionResources.body_contains 0)
      context
    ≡ contains_ascii_case_insensitive (codes "say HELLO") (codes "Hello")
matches_with_compiled-contains_example =
    matches_with_compiled-contains literal_engines-Lawful (codes "Hello")
      (CompiledConditionResources.body_contains 0) context bound
