-- ===== src/Rules/Index.antt =====
-- crates/rsproxy-rules/src/index.rs: `RuleIndex`, which finds the rules that may match a URL by its
-- host and by literals that a regex needs. A `BTreeMap` is a list of entries in ascending order, a
-- `HashSet` of rule numbers a list without repetitions, and the Aho-Corasick automaton is known by
-- the list of its patterns.
pub mod Keys
pub mod Literal
pub mod Filed
pub mod Sound
pub mod Unique
pub mod Candidates
pub mod Complete
pub mod Range
use rsproxy.Base.{
  ℕ, zero, suc, ◌+◌, Bool, true, false, not, ◌&&◌, ◌||◌, Option, none, some, List, [], ◌∷◌, ◌++◌,
  ltb, leb, ◌==◌, if◌then◌else◌, is_some, length, get_elem?, map,
}
use rsproxy.Rules.Text.{
  Str, codes, str_eq, str_lt, is_empty, any, all, has_byte, to_ascii_lowercase,
  is_ascii_alphanumeric, strip_prefix,
}
use rsproxy.Rules.Url.{UrlParts, Parsed, ok, err, parse}
use rsproxy.Rules.Model.{GlobMatcher, Matcher, RegexMatcher, Rule, CompiledRuleResources}
use rsproxy.Rules.Engine.{Engines, Hir, Hirs}
use rsproxy.Rules.Glob.{CompiledGlobSet, no_globs, build_globs, normal_host}
use rsproxy.Rules.Literals.{CompiledBodyContainsSet, build_literals}
use rsproxy.Rules.Match.{bind_matcher_resources}
use rsproxy.Rules.Conditions.{bind_conditions}
use rsproxy.Rules.IndexKey.{MatcherIndexKey, host_index_key, parsed_key, push_entry, bucket}

-- The last of the longest, as `max_by_key` gives it.
abbrev pub longer : Option Str → Option Str → Option Str
longer none best = best
longer (some s) none = some s
longer (some s) (some t) = if ltb (length t) (length s) then some s else some t

unfoldable mutual
  -- `longest_required`: a literal that every match of the pattern contains.
  pub longest_required : Hir → Option Str
  longest_required (Hir.literal bytes) = some bytes
  longest_required (Hir.capture h) = longest_required h
  longest_required (Hir.concat hs) = longest_of hs
  longest_required (Hir.repetition zero h) = none
  longest_required (Hir.repetition (suc least) h) = longest_required h
  longest_required (Hir.alternation hs) = none
  longest_required Hir.opaque = none

  pub longest_of : Hirs → Option Str
  longest_of Hirs.nil = none
  longest_of (Hirs.cons h hs) = longer (longest_required h) (longest_of hs)

pub record RuleIndex : Type 0 where
  pub domain_exact : List (Str × List ℕ)
  pub domain_suffix : List (Str × List ℕ)
  pub global : List ℕ
  pub prefilter_literals : List Str
  pub prefilter_literal_rules : List (List ℕ)
  pub prefilter_rule_ids : List ℕ
  pub prefilter : Bool
  pub compiled_globs : CompiledGlobSet
  pub compiled_body_literals : CompiledBodyContainsSet
  pub compiled_resources : List CompiledRuleResources

-- What the first loop of `build` fills: the index of hosts and the rules by their literals.
pub record Buckets : Type 0 where
  pub domain_exact : List (Str × List ℕ)
  pub domain_suffix : List (Str × List ℕ)
  pub global : List ℕ
  pub literal_rules : List (Str × List ℕ)
  pub rule_ids : List ℕ

abbrev pub empty_buckets : Buckets
empty_buckets = record {
  domain_exact = [];
  domain_suffix = [];
  global = [];
  literal_rules = [];
  rule_ids = [];
}

-- `HashSet::insert` of a number that is not in it.
abbrev pub file_key : MatcherIndexKey → ℕ → Buckets → Buckets
file_key (MatcherIndexKey.exact host) i b = record b {
  domain_exact = push_entry host i b.domain_exact;
}
file_key (MatcherIndexKey.suffix host) i b = record b {
  domain_suffix = push_entry host i b.domain_suffix;
}
file_key MatcherIndexKey.global i b = record b { global = b.global ++ i ∷ [] }

abbrev pub file_literal : Option Str → ℕ → Buckets → Buckets
file_literal (some literal) i b = record b {
  literal_rules = push_entry literal i b.literal_rules;
  rule_ids = b.rule_ids ++ i ∷ [];
}
file_literal none i b = file_key MatcherIndexKey.global i b

module _ ⦃E : Engines⦄ where
  -- What is required is kept if it is text of three bytes or more.
  abbrev pub long_enough : Option Str → Option Str
  long_enough none = none
  long_enough (some literal) =
      if E.is_utf8 literal && leb 3 (length literal) then some literal else none

  abbrev pub required_of : Option Hir → Option Str
  required_of none = none
  required_of (some hir) = long_enough (longest_required hir)

  unfoldable pub required_regex_literal : RegexMatcher → Option Str
  unfolding longest_required
  required_regex_literal regex =
      if regex.case_insensitive then none else required_of (E.regex_parse regex.pattern)

  unfoldable pub matcher_index_key : Matcher → MatcherIndexKey
  unfolding host_index_key parse
  matcher_index_key (Matcher.exact_url expected) = parsed_key (parse E.is_ipv6 expected)
  matcher_index_key (Matcher.glob glob) = host_index_key (normal_host glob.host)
  matcher_index_key (Matcher.port _) = MatcherIndexKey.global
  matcher_index_key (Matcher.regex _) = MatcherIndexKey.global
  matcher_index_key (Matcher.not _) = MatcherIndexKey.global

  -- One round of the first loop. A regex without a literal has the global key.
  unfoldable pub file_rule : Matcher → ℕ → Buckets → Buckets
  unfolding required_regex_literal matcher_index_key push_entry
  file_rule (Matcher.regex regex) i b = file_literal (required_regex_literal regex) i b
  file_rule matcher i b = file_key (matcher_index_key matcher) i b

  unfoldable pub file_rules : List Rule → ℕ → Buckets → Buckets
  unfolding file_rule
  file_rules [] i b = b
  file_rules (rule ∷ rules) i b = file_rules rules (suc i) (file_rule rule.matcher i b)

  -- `compiled_resources`.
  unfoldable pub bind_rules :
      List Rule → CompiledGlobSet → CompiledBodyContainsSet → Option (List CompiledRuleResources)
  unfolding bind_matcher_resources bind_conditions
  bind_rules [] globs literals = some []
  bind_rules (rule ∷ rules) globs literals = elim (bind_conditions globs literals rule.conditions) [
    | none ↦ none
    | some conditions ↦ elim (bind_rules rules globs literals) [
      | none ↦ none
      | some rest ↦ some (
          record { matcher = bind_matcher_resources rule.matcher globs; conditions = conditions }
          ∷ rest)
    ]
  ]

abbrev pub keys : List (Str × List ℕ) → List Str
keys [] = []
keys ((k, v) ∷ m) = k ∷ keys m

abbrev pub values : List (Str × List ℕ) → List (List ℕ)
values [] = []
values ((k, v) ∷ m) = v ∷ values m

-- `extend` with each list in turn.
abbrev pub join : List (List ℕ) → List ℕ
join [] = []
join (v ∷ vs) = v ++ join vs

-- The index once the automaton was built, or not: then its rules are global.
abbrev pub assemble :
    Bool
    → Buckets
    → CompiledGlobSet
    → CompiledBodyContainsSet
    → List CompiledRuleResources
    → RuleIndex
assemble true b globs literals resources = record {
  domain_exact = b.domain_exact;
  domain_suffix = b.domain_suffix;
  global = b.global;
  prefilter_literals = keys b.literal_rules;
  prefilter_literal_rules = values b.literal_rules;
  prefilter_rule_ids = b.rule_ids;
  prefilter = true;
  compiled_globs = globs;
  compiled_body_literals = literals;
  compiled_resources = resources;
}
assemble false b globs literals resources = record {
  domain_exact = b.domain_exact;
  domain_suffix = b.domain_suffix;
  global = b.global ++ join (values b.literal_rules);
  prefilter_literals = [];
  prefilter_literal_rules = [];
  prefilter_rule_ids = [];
  prefilter = false;
  compiled_globs = globs;
  compiled_body_literals = literals;
  compiled_resources = resources;
}

module _ ⦃E : Engines⦄ where
  -- `AhoCorasick::new` of the literals, if there are any.
  abbrev pub builds_prefilter : List Str → Bool
  builds_prefilter literals = not (is_empty literals) && E.automaton_builds literals

  -- `RuleIndex::build`; `none` is the panic of an `expect`.
  unfoldable pub build : List Rule → Option RuleIndex
  unfolding file_rules build_literals bind_rules
  build rules = elim (build_globs rules) [
    | none ↦ none
    | some globs ↦ elim (build_literals rules) [
      | none ↦ none
      | some literals ↦ elim (bind_rules rules globs literals) [
        | none ↦ none
        | some resources ↦
            let b = file_rules rules 0 empty_buckets in
            some (assemble (builds_prefilter (keys b.literal_rules)) b globs literals resources)
      ]
    ]
  ]
