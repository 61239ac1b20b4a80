-- ===== src/Rules/Match.antt =====
-- crates/rsproxy-rules/src/matcher/pattern.rs with `exact_url_matches` of matching.rs and
-- `bind_matcher_resources` of index.rs: whether a rule's matcher admits a URL, and its captures.
use rsproxy.Base.{
  ℕ, zero, suc, ◌+◌, ◌/◌, ◌%◌, Bool, true, false, not, ◌&&◌, ◌||◌, Option, none, some, List, [],
  ◌∷◌, ltb, ◌==◌, if◌then◌else◌, is_none,
}
use rsproxy.Rules.Text.{Str, str_eq, eq_ignore_ascii_case, any}
use rsproxy.Rules.Url.{UrlParts, Parsed, ok, err, parse, effective_port}
use rsproxy.Rules.Model.{
  GlobMatcher, Matcher, RegexMatcher, CompiledRegex, Captures, no_captures,
  CompiledMatcherResources,
}
use rsproxy.Rules.Engine.{Engines, Groups, FancyResult}
use rsproxy.Rules.Glob.{
  CompiledGlobSet, glob_id, glob_syntax_is_active, host_pattern_uses_regex, path_prefix_matches,
  path_is_glob, push_captures, rest_of,
}
use rsproxy.Rules.GlobMatch.{id_matches, match_with_captures, host_matches_id}

abbrev pub id_of_part : CompiledGlobSet → Option Str → ℕ → Option ℕ
id_of_part globs none separator = none
id_of_part globs (some pattern) separator = glob_id globs pattern separator

unfoldable pub bind_matcher_resources : Matcher → CompiledGlobSet → CompiledMatcherResources
bind_matcher_resources (Matcher.glob glob) globs =
    CompiledMatcherResources.glob
      (if host_pattern_uses_regex glob.host then glob_id globs glob.host b'.' else none)
      (id_of_part globs glob.port b'.')
      (if path_is_glob glob.path then id_of_part globs glob.path b'/' else none)
      (id_of_part globs glob.query b'&')
bind_matcher_resources (Matcher.not inner) globs =
    CompiledMatcherResources.not (bind_matcher_resources inner globs)
bind_matcher_resources (Matcher.exact_url _) globs = CompiledMatcherResources.none
bind_matcher_resources (Matcher.port _) globs = CompiledMatcherResources.none
bind_matcher_resources (Matcher.regex _) globs = CompiledMatcherResources.none

-- `==` on options.
abbrev pub opt_eq {ℓ} : {A : Type ℓ} → (A → A → Bool) → Option A → Option A → Bool
opt_eq eq none none = true
opt_eq eq none (some b) = false
opt_eq eq (some a) none = false
opt_eq eq (some a) (some b) = eq a b

abbrev pub same_parts : UrlParts → UrlParts → Bool
same_parts expected url =
    str_eq expected.scheme url.scheme
    && str_eq expected.host url.host
    && opt_eq ◌==◌ (effective_port expected) (effective_port url)
    && str_eq expected.path url.path
    && (is_none expected.query || opt_eq str_eq expected.query url.query)

abbrev pub matches_parsed : Parsed UrlParts → UrlParts → Bool
matches_parsed (err e) url = false
matches_parsed (ok expected) url = same_parts expected url

-- `then`.
abbrev pub when {ℓ} : {A : Type ℓ} → Bool → A → Option A
when true a = some a
when false a = none

-- `to_string` of a port.
unfoldable pub digits : ℕ → ℕ → Str → Str
digits zero n out = out
digits (suc places) n out =
    let more = digits places (n / 10) ((b'0' + n % 10) ∷ out) in
    if ltb n 10 then (b'0' + n) ∷ out else more

abbrev pub port_text : ℕ → Str
port_text port = digits 5 port []

-- `collect_captures`: the whole match, nine groups, and the groups with a name; the `BTreeMap` of
-- names is a list in the pattern's order, and the engines give every name once.
unfoldable pub named_groups : (Str → Option Str) → List Str → List (Str × Str)
named_groups by_name [] = []
named_groups by_name (name ∷ names) =
    let rest = named_groups by_name names in
    elim (by_name name) [ none ↦ rest | some value ↦ (name, value) ∷ rest ]

abbrev pub first_group : List (Option Str) → Option Str
first_group [] = none
first_group (g ∷ gs) = g

unfoldable pub collect_captures : Groups → Captures
unfolding push_captures named_groups
collect_captures groups = record (push_captures (rest_of groups.indexed) no_captures) {
  whole = first_group groups.indexed;
  named = named_groups groups.by_name groups.names;
}

module _ ⦃E : Engines⦄ where
  unfoldable pub exact_url_matches : Str → UrlParts → Bool
  unfolding str_eq effective_port
  exact_url_matches expected url = matches_parsed (parse E.is_ipv6 expected) url

  -- A fancy regex that gives up does not match.
  abbrev pub fancy_match : FancyResult → Option Captures
  fancy_match (FancyResult.found groups) = some (collect_captures groups)
  fancy_match FancyResult.absent = none
  fancy_match FancyResult.backtrack_limit = none
  fancy_match FancyResult.other_error = none

  abbrev pub linear_match : Option Groups → Option Captures
  linear_match none = none
  linear_match (some groups) = some (collect_captures groups)

  abbrev pub program_captures : CompiledRegex → Str → Bool → Str → Option Captures
  program_captures CompiledRegex.linear pattern flag url =
      linear_match (E.linear_captures pattern flag url)
  program_captures CompiledRegex.fancy pattern flag url =
      fancy_match (E.fancy_captures pattern flag url)

  unfoldable pub regex_matches : RegexMatcher → Str → Option Captures
  unfolding collect_captures
  regex_matches regex raw_url =
      program_captures regex.compiled regex.pattern regex.case_insensitive raw_url

  abbrev pub scheme_differs : Option Str → Str → Bool
  scheme_differs none scheme = false
  scheme_differs (some wanted) scheme = not (eq_ignore_ascii_case wanted scheme)

  abbrev pub port_fits : CompiledGlobSet → Option Str → Option ℕ → Option ℕ → Bool
  port_fits globs none id port = true
  port_fits globs (some pattern) id none = false
  port_fits globs (some pattern) id (some port) = id_matches globs id (port_text port)

  abbrev pub match_path : CompiledGlobSet → Option Str → Option ℕ → Str → Option Captures
  match_path globs none id path = some no_captures
  match_path globs (some pattern) id path =
      if glob_syntax_is_active pattern
      then match_with_captures globs id path no_captures
      else when (path_prefix_matches pattern path) no_captures

  abbrev pub match_query :
      CompiledGlobSet → Option Str → Option ℕ → Option Str → Captures → Option Captures
  match_query globs none id query captures = some captures
  match_query globs (some pattern) id none captures = match_with_captures globs id [] captures
  match_query globs (some pattern) id (some query) captures =
      match_with_captures globs id query captures

  abbrev pub glob_captures :
      GlobMatcher → UrlParts → CompiledGlobSet → (path_id query_id : Option ℕ) → Option Captures
  glob_captures glob url globs path_id query_id =
      elim (match_path globs glob.path path_id url.path) [
        | none ↦ none
        | some captures ↦ match_query globs glob.query query_id url.query captures
      ]

  -- `GlobMatcher::matches_compiled`, given the identifiers of its parts.
  unfoldable pub glob_matches :
      GlobMatcher
      → UrlParts
      → CompiledGlobSet
      → (host_id port_id path_id query_id : Option ℕ) → Option Captures
  unfolding str_eq host_matches_id id_matches effective_port match_with_captures path_prefix_matches
      any digits
  glob_matches glob url globs host_id port_id path_id query_id =
      if scheme_differs glob.scheme url.scheme
      then none
      else if not (host_matches_id globs glob.host url.host host_id)
      then none
      else if not (port_fits globs glob.port port_id (effective_port url))
      then none
      else glob_captures glob url globs path_id query_id

  abbrev pub glob_matches_compiled :
      GlobMatcher → UrlParts → CompiledGlobSet → CompiledMatcherResources → Option Captures
  glob_matches_compiled glob url globs (CompiledMatcherResources.glob host port path query) =
      glob_matches glob url globs host port path query
  glob_matches_compiled glob url globs CompiledMatcherResources.none = none
  glob_matches_compiled glob url globs (CompiledMatcherResources.not _) = none

  unfoldable pub matches_compiled :
      Matcher → UrlParts → Str → CompiledGlobSet → CompiledMatcherResources → Option Captures
  unfolding exact_url_matches glob_matches effective_port regex_matches
  matches_compiled (Matcher.exact_url expected) url raw_url globs resources =
      when (exact_url_matches expected url) no_captures
  matches_compiled (Matcher.glob glob) url raw_url globs resources =
      glob_matches_compiled glob url globs resources
  matches_compiled (Matcher.port port) url raw_url globs resources =
      when (opt_eq ◌==◌ (effective_port url) (some port)) no_captures
  matches_compiled (Matcher.regex regex) url raw_url globs resources = regex_matches regex raw_url
  matches_compiled (Matcher.not inner) url raw_url globs (CompiledMatcherResources.not resources) =
      when (is_none (matches_compiled inner url raw_url globs resources)) no_captures
  matches_compiled (Matcher.not inner) url raw_url globs CompiledMatcherResources.none = none
  matches_compiled (Matcher.not inner) url raw_url globs (CompiledMatcherResources.glob _ _ _ _) =
      none
