-- ===== src/Rules/Index/Complete.antt =====
-- crates/rsproxy-rules/src/index.rs: the candidates of a URL against the rules whose matchers admit
-- it.
use rsproxy.Base.Members.{Listed, Listed-append_left, Listed-append_right}
use rsproxy.Base.{
  ℕ, ◌≡◌, refl, sym, ap, subst, inl, inr, Bool, true, false, Option, some, List, [], arith,
  Option-cases, get_elem?, length,
}
use rsproxy.Rules.Text.{Str, occurs}
use rsproxy.Rules.Text.Laws.{str_eq-eq}
use rsproxy.Rules.Url.{UrlParts, Parsed, ok, err, parse}
use rsproxy.Rules.Model.{
  Matcher, GlobMatcher, Rule, Captures, no_captures, CompiledMatcherResources,
  CompiledRuleResources,
}
use rsproxy.Rules.Engine.{Engines, Lawful}
use rsproxy.Rules.Glob.{CompiledGlobSet, normal_host}
use rsproxy.Rules.GlobMatch.{host_matches_id}
use rsproxy.Rules.Literals.{CompiledBodyContainsSet}
use rsproxy.Rules.Match.{
  matches_compiled, exact_url_matches, matches_parsed, glob_matches, glob_matches_compiled, when,
}
use rsproxy.Rules.Index.{
  RuleIndex, Buckets, empty_buckets, matcher_index_key, assemble, file_rules, keys, values, join,
  required_regex_literal, builds_prefilter,
}
use rsproxy.Rules.Candidates.{host_suffixes, prefilter_matches, url_candidates}
use rsproxy.Rules.IndexKey.{MatcherIndexKey, parsed_key, bucket}
use rsproxy.Rules.Index.Keys.{Covers, host_index_key-Covers}
use rsproxy.Rules.Index.Literal.{required_regex_literal-occurs}
use rsproxy.Rules.Index.Filed.{Place, HeldAt, bucket-values}
use rsproxy.Rules.Index.Sound.{IsSound, place_of, file_rules-HeldAt, build_buckets-IsSound}
use rsproxy.Rules.Index.Unique.{extend_unique-keeps, extend_unique-adds, collect_matches_complete}
use rsproxy.Rules.Index.Candidates.{
  Built, bucket_position, extend_suffixes-keeps, extend_suffixes-adds,
}

when-true {ℓ} : {A : Type ℓ} (b : Bool) (a : A) {c : A} → when b a ≡ some c → b ≡ true
when-true true a h = refl
when-true false a h = cc

-- The maps of hosts are those of the first loop, with or without a prefilter.
pub assemble-exact :
    (flag : Bool) (b : Buckets) (globs : CompiledGlobSet) (literals : CompiledBodyContainsSet)
    (resources : List CompiledRuleResources)
    → (assemble flag b globs literals resources).domain_exact ≡ b.domain_exact
assemble-exact true b globs literals resources = refl
assemble-exact false b globs literals resources = refl

pub assemble-suffix :
    (flag : Bool) (b : Buckets) (globs : CompiledGlobSet) (literals : CompiledBodyContainsSet)
    (resources : List CompiledRuleResources)
    → (assemble flag b globs literals resources).domain_suffix ≡ b.domain_suffix
assemble-suffix true b globs literals resources = refl
assemble-suffix false b globs literals resources = refl

module _ ⦃E : Engines⦄ where
  -- The keys of matchers lead to the hosts that they match.
  parsed_key-Covers :
      (expected : Parsed UrlParts) (url : UrlParts)
      → matches_parsed expected url ≡ true
      → Covers (parsed_key expected) (normal_host url.host)
  parsed_key-Covers (err e) url h = cc
  parsed_key-Covers (ok expected) url h =
      ap normal_host (sym (str_eq-eq expected.host url.host (ground arith)))

  glob_host :
      (glob : GlobMatcher) (url : UrlParts) (globs : CompiledGlobSet)
      (resources : CompiledMatcherResources) {captures : Captures}
      → glob_matches_compiled glob url globs resources ≡ some captures
      → (id : Option ℕ) × (host_matches_id globs glob.host url.host id ≡ true)
  unfolding glob_matches
  glob_host glob url globs CompiledMatcherResources.none h = cc
  glob_host glob url globs (CompiledMatcherResources.not r) h = cc
  glob_host glob url globs (CompiledMatcherResources.glob host port path query) h =
      (host, ground arith)

  glob_key-Covers :
      (glob : GlobMatcher) (url : UrlParts) (globs : CompiledGlobSet) (id : Option ℕ)
      → host_matches_id globs glob.host url.host id ≡ true
      → Covers (matcher_index_key (Matcher.glob glob)) (normal_host url.host)
  unfolding matcher_index_key host_matches_id
  glob_key-Covers glob url globs id h =
      host_index_key-Covers globs id (normal_host glob.host) (normal_host url.host) h

  -- A rule that is held at its matcher's key is held where the host leads.
  Reached : Place → UrlParts → Str → Type 0
  Reached (Place.under key) url raw_url = Covers key (normal_host url.host)
  Reached (Place.by_literal literal) url raw_url = occurs literal raw_url ≡ true

  matches-Reached :
      Lawful E
      → (m : Matcher) (url : UrlParts) (raw_url : Str) (globs : CompiledGlobSet)
        (resources : CompiledMatcherResources) {captures : Captures}
      → matches_compiled m url raw_url globs resources ≡ some captures
      → Reached (place_of m) url raw_url
  unfolding matches_compiled Reached
  matches-Reached laws (Matcher.exact_url text) url raw_url globs resources h =
      unfold matcher_index_key exact_url_matches in
      parsed_key-Covers (parse E.is_ipv6 text) url (when-true _ no_captures h)
  matches-Reached laws (Matcher.glob glob) url raw_url globs resources h =
      let (id, fits) = glob_host glob url globs resources h in
      glob_key-Covers glob url globs id fits
  matches-Reached laws (Matcher.port port) url raw_url globs resources h =
      unfold matcher_index_key in tt
  matches-Reached laws (Matcher.not inner) url raw_url globs resources h =
      unfold matcher_index_key in tt
  matches-Reached laws (Matcher.regex regex) url raw_url globs resources h =
      elim (Option-cases (required_regex_literal regex)) [
        | inl e ↦ rw e tt
        | inr (literal, e) ↦ rw e (required_regex_literal-occurs laws regex raw_url literal e h)
      ]

  module _ (index : RuleIndex) (url : UrlParts) (raw_url : Str) (i : ℕ) where
    from_prefilter :
        Listed i (prefilter_matches index raw_url) → Listed i (url_candidates index url raw_url)
    unfolding url_candidates
    from_prefilter h = extend_unique-adds i _ (prefilter_matches index raw_url) h

    from_global : Listed i index.global → Listed i (url_candidates index url raw_url)
    unfolding url_candidates
    from_global h =
        extend_unique-keeps i _ (prefilter_matches index raw_url)
          (extend_unique-adds i _ index.global h)

    from_suffix :
        (base : Str)
        → Listed base (host_suffixes (normal_host url.host))
        → Listed i (bucket base index.domain_suffix)
        → Listed i (url_candidates index url raw_url)
    unfolding url_candidates
    from_suffix base l h = extend_unique-keeps i _ (prefilter_matches index raw_url) (
        extend_unique-keeps i _ index.global
          (extend_suffixes-adds index i base (host_suffixes (normal_host url.host)) _ l h))

    from_exact :
        Listed i (bucket (normal_host url.host) index.domain_exact)
        → Listed i (url_candidates index url raw_url)
    unfolding url_candidates
    from_exact h = extend_unique-keeps i _ (prefilter_matches index raw_url) (
        extend_unique-keeps i _ index.global (
          extend_suffixes-keeps index i (host_suffixes (normal_host url.host)) _
            (extend_unique-adds i [] (bucket (normal_host url.host) index.domain_exact) h)))

  -- A literal that occurs leads to its rules, by the automaton or among the global rules.
  assembled_literal :
      Lawful E
      → (flag : Bool) (n : ℕ) (b : Buckets) (globs : CompiledGlobSet)
        (literals : CompiledBodyContainsSet) (resources : List CompiledRuleResources)
        (url : UrlParts) (raw_url literal : Str) (i : ℕ)
      → builds_prefilter (keys b.literal_rules) ≡ flag
      → IsSound n b
      → occurs literal raw_url ≡ true
      → Listed i (bucket literal b.literal_rules)
      → Listed i (url_candidates (assemble flag b globs literals resources) url raw_url)
  unfolding prefilter_matches
  assembled_literal laws true n b globs literals resources url raw_url literal i chosen sound occ
        l =
      let index = assemble true b globs literals resources in
      let (k, v, at_key, at_value, m) = bucket_position literal i b.literal_rules l in
      from_prefilter index url raw_url i (
        collect_matches_complete index i k v (E.find_overlapping (keys b.literal_rules) raw_url) []
          tt (λ j h. absurd h) sound.literals_listed at_value m
          (laws.finds (keys b.literal_rules) raw_url k literal (ground arith) at_key occ))
  assembled_literal laws false n b globs literals resources url raw_url literal i chosen sound occ
        l =
      from_global (assemble false b globs literals resources) url raw_url i (
        Listed-append_right i b.global (join (values b.literal_rules))
          (bucket-values literal i b.literal_rules l))

  assembled_global :
      (flag : Bool) (b : Buckets) (globs : CompiledGlobSet) (literals : CompiledBodyContainsSet)
      (resources : List CompiledRuleResources) (i : ℕ)
      → Listed i b.global
      → Listed i (assemble flag b globs literals resources).global
  assembled_global true b globs literals resources i h = h
  assembled_global false b globs literals resources i h =
      Listed-append_left i b.global (join (values b.literal_rules)) h

  assembled_found :
      Lawful E
      → (flag : Bool) (n : ℕ) (b : Buckets) (globs : CompiledGlobSet)
        (literals : CompiledBodyContainsSet) (resources : List CompiledRuleResources)
        (url : UrlParts) (raw_url : Str) (i : ℕ) (p : Place)
      → builds_prefilter (keys b.literal_rules) ≡ flag
      → IsSound n b
      → Reached p url raw_url
      → HeldAt p i b
      → Listed i (url_candidates (assemble flag b globs literals resources) url raw_url)
  unfolding Reached
  assembled_found laws flag n b globs literals resources url raw_url i (Place.by_literal literal)
        chosen sound r (l, m) =
      assembled_literal laws flag n b globs literals resources url raw_url literal i chosen sound r
        l
  assembled_found laws flag n b globs literals resources url raw_url i
        (Place.under (MatcherIndexKey.exact h)) chosen sound r l =
      from_exact (assemble flag b globs literals resources) url raw_url i (
        subst (λ x. Listed i (bucket x (assemble flag b globs literals resources).domain_exact))
          (sym r)
          (subst (λ m. Listed i (bucket h m)) (sym (assemble-exact flag b globs literals resources))
            l))
  assembled_found laws flag n b globs literals resources url raw_url i
        (Place.under (MatcherIndexKey.suffix base)) chosen sound r l =
      from_suffix (assemble flag b globs literals resources) url raw_url i base r (
        subst (λ m. Listed i (bucket base m))
          (sym (assemble-suffix flag b globs literals resources)) l)
  assembled_found laws flag n b globs literals resources url raw_url i
        (Place.under MatcherIndexKey.global) chosen sound r l =
      from_global (assemble flag b globs literals resources) url raw_url i
        (assembled_global flag b globs literals resources i l)

  -- The index misses no rule.
  pub url_candidates_complete :
      Lawful E
      → (rules : List Rule) (index : RuleIndex) (built : Built rules index) (url : UrlParts)
        (raw_url : Str) (i : ℕ) (rule : Rule) (resources : CompiledMatcherResources)
        {captures : Captures}
      → get_elem? rules i ≡ some rule
      → matches_compiled rule.matcher url raw_url index.compiled_globs resources ≡ some captures
      → Listed i (url_candidates index url raw_url)
  url_candidates_complete laws rules index built url raw_url i rule resources at_i h =
      subst (λ x. Listed i (url_candidates x url raw_url)) (sym built.whole)
        (assembled_found laws built.flag (length rules) (file_rules rules 0 empty_buckets)
          built.globs built.literals built.resources url raw_url i (place_of rule.matcher)
          built.chosen (build_buckets-IsSound rules)
          (matches-Reached laws rule.matcher url raw_url index.compiled_globs resources h)
          (subst (λ k. HeldAt (place_of rule.matcher) k (file_rules rules 0 empty_buckets))
            (omega arith) (file_rules-HeldAt rules 0 i empty_buckets rule at_i)))
