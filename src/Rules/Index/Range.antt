-- ===== src/Rules/Index/Range.antt =====
-- crates/rsproxy-rules/src/resolve.rs: the candidates of a URL as numbers of rules.
use rsproxy.Base.Members.{Listed, Distinct, Listed-append_cases}
use rsproxy.Base.{
  ℕ, zero, suc, ◌+◌, ◌<◌, ◌≤◌, subst, ◌⊎◌, inl, inr, Bool, true, false, Option, none, some, List,
  [], arith, Bool-cases, length, ◌==◌, ==_iff,
}
use rsproxy.Rules.Text.{Str}
use rsproxy.Rules.Url.{UrlParts}
use rsproxy.Rules.Model.{Rule, CompiledRuleResources}
use rsproxy.Rules.Engine.{Engines}
use rsproxy.Rules.Glob.{CompiledGlobSet, normal_host}
use rsproxy.Rules.Literals.{CompiledBodyContainsSet}
use rsproxy.Rules.Index.{RuleIndex, Buckets, empty_buckets, file_rules, assemble, values, join}
use rsproxy.Rules.Candidates.{
  host_suffixes, prefilter_matches, url_candidates, candidate_rule_indices, range,
}
use rsproxy.Rules.IndexKey.{bucket}
use rsproxy.Rules.Index.Filed.{members, bucket-values}
use rsproxy.Rules.Index.Sound.{IsSound, build_buckets-IsSound}
use rsproxy.Rules.Index.Unique.{
  extend_unique-only, extend_unique-Distinct, collect_matches-Distinct, collect_matches-only,
}
use rsproxy.Rules.Index.Candidates.{Built, extend_suffixes-only, extend_suffixes-Distinct}

pub Listed-range_below : (i start n : ℕ) → Listed i (range start n) → i < start + n
unfolding range
Listed-range_below i start zero h = absurd h
Listed-range_below i start (suc n) (inl e) = rw e (omega arith)
Listed-range_below i start (suc n) (inr h) = omega (arith, Listed-range_below i (suc start) n h)

pub Listed-range_above : (i start n : ℕ) → Listed i (range start n) → start ≤ i
unfolding range
Listed-range_above i start zero h = absurd h
Listed-range_above i start (suc n) (inl e) = rw e (omega arith)
Listed-range_above i start (suc n) (inr h) = omega (arith, Listed-range_above i (suc start) n h)

pub Listed-range : (i start n : ℕ) → start ≤ i → i < start + n → Listed i (range start n)
unfolding range
Listed-range i start zero h k = absurd (omega (arith, h, k))
Listed-range i start (suc n) h k = elim (Bool-cases (i == start)) [
  | inl e ↦ inl ((==_iff i start).0 e)
  | inr e ↦ inr (Listed-range i (suc start) n (ground arith) (omega (arith, k)))
]

range-Distinct : (start n : ℕ) → Distinct (range start n)
unfolding range
range-Distinct start zero = tt
range-Distinct start (suc n) = (
  (λ h. absurd (omega (arith, Listed-range_above start (suc start) n h))),
  range-Distinct (suc start) n,
)

module _ ⦃E : Engines⦄ where
  prefilter_matches-Distinct :
      (index : RuleIndex) (raw_url : Str) → Distinct (prefilter_matches index raw_url)
  unfolding prefilter_matches
  prefilter_matches-Distinct index raw_url = elim (Bool-cases index.prefilter) [
    | inl e ↦
        rw (e, prefilter_matches)
          (collect_matches-Distinct index (E.find_overlapping index.prefilter_literals raw_url) []
            tt)
    | inr e ↦ rw (e, prefilter_matches) tt
  ]

  url_candidates-Distinct :
      (index : RuleIndex) (url : UrlParts) (raw_url : Str)
      → Distinct (url_candidates index url raw_url)
  unfolding url_candidates
  url_candidates-Distinct index url raw_url =
      extend_unique-Distinct _ (prefilter_matches index raw_url) (
        extend_unique-Distinct _ index.global (
          extend_suffixes-Distinct index (host_suffixes (normal_host url.host)) _
            (extend_unique-Distinct [] (bucket (normal_host url.host) index.domain_exact) tt)))

  prefilter_matches-only :
      (index : RuleIndex) (raw_url : Str) (i : ℕ)
      → Listed i (prefilter_matches index raw_url)
      → Listed i (join index.prefilter_literal_rules)
  unfolding prefilter_matches
  prefilter_matches-only index raw_url i h = elim (Bool-cases index.prefilter) [
    | inl e ↦
        elim (collect_matches-only index i (E.find_overlapping index.prefilter_literals raw_url) []
          (rw (e, prefilter_matches) at h)) [ inl l ↦ absurd l | inr l ↦ l ]
    | inr e ↦ absurd (rw (e, prefilter_matches) at h)
  ]

  -- A candidate is in one of the four parts of the index.
  url_candidates-only :
      (index : RuleIndex) (url : UrlParts) (raw_url : Str) (i : ℕ)
      → Listed i (url_candidates index url raw_url)
      → Listed i (members index.domain_exact)
        ⊎ Listed i (members index.domain_suffix)
        ⊎ Listed i index.global
        ⊎ Listed i (join index.prefilter_literal_rules)
  unfolding url_candidates
  url_candidates-only index url raw_url i h =
      elim (extend_unique-only i _ (prefilter_matches index raw_url) h) [
        | inr l ↦ inr (inr (inr (prefilter_matches-only index raw_url i l)))
        | inl h' ↦ elim (extend_unique-only i _ index.global h') [
          | inr l ↦ inr (inr (inl l))
          | inl h'' ↦
              elim (extend_suffixes-only index i (host_suffixes (normal_host url.host)) _ h'') [
                | inr l ↦ inr (inl l)
                | inl h3 ↦
                    elim (extend_unique-only i [] (bucket (normal_host url.host) index.domain_exact)
                      h3) [
                        | inl l ↦ absurd l
                        | inr l ↦ inl (bucket-values (normal_host url.host) i index.domain_exact l)
                      ]
              ]
        ]
      ]

  assembled_below :
      (flag : Bool) (n : ℕ) (b : Buckets) (globs : CompiledGlobSet)
      (literals : CompiledBodyContainsSet) (resources : List CompiledRuleResources) (i : ℕ)
      → IsSound n b
      → Listed i (members (assemble flag b globs literals resources).domain_exact)
        ⊎ Listed i (members (assemble flag b globs literals resources).domain_suffix)
        ⊎ Listed i (assemble flag b globs literals resources).global
        ⊎ Listed i (join (assemble flag b globs literals resources).prefilter_literal_rules)
      → i < n
  assembled_below true n b globs literals resources i s (inl l) = s.exact_below i l
  assembled_below true n b globs literals resources i s (inr (inl l)) = s.suffix_below i l
  assembled_below true n b globs literals resources i s (inr (inr (inl l))) = s.global_below i l
  assembled_below true n b globs literals resources i s (inr (inr (inr l))) =
      s.ids_below i (s.literals_listed i l)
  assembled_below false n b globs literals resources i s (inl l) = s.exact_below i l
  assembled_below false n b globs literals resources i s (inr (inl l)) = s.suffix_below i l
  assembled_below false n b globs literals resources i s (inr (inr (inl l))) =
      elim (Listed-append_cases i b.global (join (values b.literal_rules)) l) [
        | inl g ↦ s.global_below i g
        | inr g ↦ s.ids_below i (s.literals_listed i g)
      ]
  assembled_below false n b globs literals resources i s (inr (inr (inr l))) = absurd l

  pub candidates-Distinct :
      (rules : List Rule) (index : RuleIndex) (url : Option UrlParts) (raw_url : Str)
      → Distinct (candidate_rule_indices rules index url raw_url)
  unfolding candidate_rule_indices
  candidates-Distinct rules index none raw_url = range-Distinct 0 (length rules)
  candidates-Distinct rules index (some url) raw_url = url_candidates-Distinct index url raw_url

  pub candidates_below :
      (rules : List Rule) (index : RuleIndex) (built : Built rules index) (url : Option UrlParts)
      (raw_url : Str) (i : ℕ)
      → Listed i (candidate_rule_indices rules index url raw_url)
      → i < length rules
  unfolding candidate_rule_indices
  candidates_below rules index built none raw_url i h =
      omega (arith, Listed-range_below i 0 (length rules) h)
  candidates_below rules index built (some url) raw_url i h =
      assembled_below built.flag (length rules) (file_rules rules 0 empty_buckets) built.globs
        built.literals built.resources i (build_buckets-IsSound rules)
        (url_candidates-only
          (assemble built.flag (file_rules rules 0 empty_buckets) built.globs built.literals
            built.resources)
          url raw_url i (subst (λ x. Listed i (url_candidates x url raw_url)) built.whole h))
