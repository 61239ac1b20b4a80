-- ===== src/Rules/Model.antt =====
-- crates/rsproxy-rules/src/model.rs: rules, their matchers and conditions, requests and the results
-- of resolution. A list of conditions inside a condition is a type of its own. A compiled regex is
-- the engine that was chosen: its program is that of the pattern and the flag. The values for
-- templates are left out of a request, and tags and source spans out of a rule, since resolution
-- does not read them.
use mathlib.Core.Option.{Option}
use rsproxy.Base.{ℕ, Bool, List, []}
use rsproxy.Rules.Text.{Str}
use rsproxy.Rules.Action.{Action}

pub data CompiledRegex : Type 0 where
  linear fancy : CompiledRegex

pub record RegexMatcher : Type 0 where
  pub pattern : Str
  pub case_insensitive : Bool
  pub compiled : CompiledRegex

pub record GlobMatcher : Type 0 where
  pub scheme : Option Str
  pub host : Str
  pub port : Option Str
  pub path : Option Str
  pub query : Option Str

pub data Matcher : Type 0 where
  exact_url : Str → Matcher
  glob : GlobMatcher → Matcher
  port : ℕ → Matcher
  regex : RegexMatcher → Matcher
  not : Matcher → Matcher

pub data UrlCondition : Type 0 where
  glob : Str → UrlCondition
  regex : RegexMatcher → UrlCondition

mutual
  pub data Condition : Type 0 where
    method : List Str → Condition
    host : Str → Condition
    url : UrlCondition → Condition
    client_ip server_ip : List Str → Condition
    header_present : Str → Condition
    header_contains : Str → Str → Condition
    res_header_present : Str → Condition
    res_header_contains : Str → Str → Condition
    body_contains : Str → Condition
    body_regex : RegexMatcher → Condition
    status : List ℕ → Condition
    chance_permille : ℕ → Condition
    env_present : Str → Condition
    env_equals : Str → Str → Condition
    any all : Conditions → Condition
    not : Condition → Condition

  pub data Conditions : Type 0 where
    nil : Conditions
    cons : Condition → Conditions → Conditions

pub record Rule : Type 0 where
  pub group : Str
  pub line : ℕ
  pub raw : Str
  pub matcher : Matcher
  pub actions : List Action
  pub conditions : Conditions
  pub important : Bool
  pub disabled : Bool

pub record RequestMeta : Type 0 where
  pub method : Str
  pub url : Str
  pub headers : List (Str × Str)
  pub body : List ℕ
  pub client_ip : Option Str
  pub server_ip : Option Str

pub record ResponseMeta : Type 0 where
  pub status : ℕ
  pub headers : List (Str × Str)

-- `named` is a `BTreeMap`; the entries stand in the order of insertion.
pub record Captures : Type 0 where
  pub whole : Option Str
  pub indexed : List Str
  pub named : List (Str × Str)

-- `Captures::default`.
abbrev pub no_captures : Captures
no_captures = record { whole = Option.none; indexed = []; named = [] }

pub record MatchedRule : Type 0 where
  pub group : Str
  pub line : ℕ
  pub raw : Str

pub record ResolvedAction : Type 0 where
  pub action : Action
  pub rule : MatchedRule
  pub captures : Captures
  pub response : Option ResponseMeta

pub record ResolveResult : Type 0 where
  pub actions : List ResolvedAction
  pub matched_rules : List MatchedRule

-- The identifiers of compiled programs, `GlobId` and `BodyLiteralId`, are numbers.
pub data CompiledMatcherResources : Type 0 where
  none : CompiledMatcherResources
  glob : (host port path query : Option ℕ) → CompiledMatcherResources
  not : CompiledMatcherResources → CompiledMatcherResources

mutual
  pub data CompiledConditionResources : Type 0 where
    none : CompiledConditionResources
    host url_glob : Option ℕ → CompiledConditionResources
    client_ip server_ip : List (Option ℕ) → CompiledConditionResources
    body_contains : ℕ → CompiledConditionResources
    children : ConditionResources → CompiledConditionResources
    not : CompiledConditionResources → CompiledConditionResources

  pub data ConditionResources : Type 0 where
    nil : ConditionResources
    cons : CompiledConditionResources → ConditionResources → ConditionResources

pub record CompiledRuleResources : Type 0 where
  pub matcher : CompiledMatcherResources
  pub conditions : ConditionResources
