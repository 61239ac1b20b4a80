-- ===== src/Rules/Resolve/Scan.antt =====
-- crates/rsproxy-rules/src/resolve.rs: resolution with the index against a pass over all rules.
use rsproxy.Base.Members.{Listed}
use rsproxy.Base.{
  zero_plus, none-ne-some, some-eq, false-ne-true, ℕ, zero, suc, ◌<◌, ◌≡◌, refl, sym, ap, ◌∙◌,
  subst, inl, inr, Bool, true, false, not, Option, none, some, List, [], ◌∷◌, arith, Bool-cases,
  Option-cases, get_elem?, length, filter,
}
use rsproxy.Rules.Url.{UrlParts}
use rsproxy.Rules.Model.{Rule, RequestMeta, ResponseMeta, Captures, CompiledRuleResources}
use rsproxy.Rules.Engine.{Engines, Lawful}
use rsproxy.Rules.Glob.{CompiledGlobSet}
use rsproxy.Rules.Literals.{CompiledBodyContainsSet}
use rsproxy.Rules.Conditions.{bind_conditions}
use rsproxy.Rules.Index.{RuleIndex, Buckets, assemble, empty_buckets, file_rules, build, bind_rules}
use rsproxy.Rules.Candidates.{candidate_rule_indices, range, has_number}
use rsproxy.Rules.Index.Candidates.{Built, build-Built}
use rsproxy.Rules.Index.Complete.{url_candidates_complete}
use rsproxy.Rules.Index.Unique.{Listed-has_number}
use rsproxy.Rules.Index.Range.{candidates-Distinct, candidates_below}
use rsproxy.Rules.Resolve.{
  Query, start, applies, captures_of, visit_all, result_of, query_of, important_at,
  sort_by_priority, resolve_inner,
}
use rsproxy.Rules.Resolve.Order.{prioritized, prioritized_below, sort_by_priority_lem}
use rsproxy.Rules.Resolve.Pass.{
  scan_rules, scan_by_priority, outcome, visit_all-append, visit_all-filter, visit_all-range,
}

module _ ⦃E : Engines⦄ where
  bind_rules_lem :
      (rules : List Rule) (globs : CompiledGlobSet) (literals : CompiledBodyContainsSet)
      (resources : List CompiledRuleResources)
      → bind_rules rules globs literals ≡ some resources
      → length resources ≡ length rules
  unfolding bind_rules
  bind_rules_lem [] globs literals resources h = ap length (sym (some-eq _ _ h))
  bind_rules_lem (rule ∷ rules) globs literals resources h =
      elim (Option-cases (bind_conditions globs literals rule.conditions)) [
        | inl e ↦ absurd (none-ne-some (rw (e, bind_rules) at h))
        | inr (conditions, e) ↦ elim (Option-cases (bind_rules rules globs literals)) [
          | inl f ↦ absurd (none-ne-some (rw (e, f, bind_rules) at h))
          | inr (rest, f) ↦
              ap length (sym (some-eq _ resources (rw (e, f, bind_rules) at h)))
              ∙ ap suc (bind_rules_lem rules globs literals rest f)
        ]
      ]

  assemble-resources :
      (flag : Bool) (b : Buckets) (globs : CompiledGlobSet) (literals : CompiledBodyContainsSet)
      (resources : List CompiledRuleResources)
      → (assemble flag b globs literals resources).compiled_resources ≡ resources
  assemble-resources true b globs literals resources = refl
  assemble-resources false b globs literals resources = refl

  -- There are resources for each rule.
  pub resources-length :
      (rules : List Rule) (index : RuleIndex)
      → Built rules index
      → length index.compiled_resources ≡ length rules
  resources-length rules index built =
      ap (λ (x : RuleIndex). length x.compiled_resources) built.whole
      ∙ ap length (
          assemble-resources built.flag (file_rules rules 0 empty_buckets) built.globs
            built.literals built.resources)
      ∙ bind_rules_lem rules built.globs built.literals built.resources built.bound

  captures-candidate :
      Lawful E
      → (rules : List Rule) (q : Query) (built : Built rules q.index) (i : ℕ) (rule : Rule)
        (r : CompiledRuleResources) (url : Option UrlParts) {captures : Captures}
      → get_elem? rules i ≡ some rule
      → captures_of rule r q url ≡ some captures
      → Listed i (candidate_rule_indices rules q.index url q.req.url)
  unfolding candidate_rule_indices
  captures-candidate laws rules q built i rule r none at_i h = cc
  captures-candidate laws rules q built i rule r (some url) at_i h =
      url_candidates_complete laws rules q.index built url q.req.url i rule r.matcher at_i h

  without_captures :
      (rule : Rule) (r : CompiledRuleResources) (q : Query)
      → captures_of rule r q q.url ≡ none
      → applies rule r q ≡ none
  unfolding applies
  without_captures rule r q h = elim (Bool-cases rule.disabled) [
    | inl e ↦ rw (e, applies)
    | inr e ↦ rw (e, h, applies)
  ]

  -- A rule that is no candidate does not apply.
  missed-applies :
      Lawful E
      → (rules : List Rule) (q : Query) (built : Built rules q.index) (i : ℕ) (rule : Rule)
        (r : CompiledRuleResources)
      → get_elem? rules i ≡ some rule
      → has_number i (candidate_rule_indices rules q.index q.url q.req.url) ≡ false
      → applies rule r q ≡ none
  missed-applies laws rules q built i rule r at_i missed =
      elim (Option-cases (captures_of rule r q q.url)) [
        | inl e ↦ without_captures rule r q e
        | inr (captures, e) ↦
            let found =
              Listed-has_number i (candidate_rule_indices rules q.index q.url q.req.url)
                (captures-candidate laws rules q built i rule r q.url at_i e) in
            absurd (false-ne-true (sym missed ∙ found))
      ]

  get_elem?-below {ℓ} :
      {A : Type ℓ} (xs : List A) (i : ℕ) → i < length xs → (x : A) × (get_elem? xs i ≡ some x)
  get_elem?-below [] i h = absurd (omega (arith, h))
  get_elem?-below (x ∷ xs) zero h = (x, refl)
  get_elem?-below (x ∷ xs) (suc i) h = get_elem?-below xs i (omega (arith, h))

  important_at-get :
      (rules : List Rule) (i : ℕ) (rule : Rule)
      → get_elem? rules i ≡ some rule
      → important_at rules i ≡ rule.important
  unfolding important_at
  important_at-get [] i rule h = cc
  important_at-get (r ∷ rules) zero rule h = ap (λ (x : Rule). x.important) (some-eq r rule h)
  important_at-get (r ∷ rules) (suc i) rule h = important_at-get rules i rule h

  -- The pass over all rules by priority.
  visit_all-prioritized :
      (rules : List Rule) (q : Query)
      → length q.index.compiled_resources ≡ length rules
      → visit_all rules q (prioritized rules) start
        ≡ some (scan_by_priority rules q.index.compiled_resources q)
  visit_all-prioritized rules q size =
      visit_all-append rules q (filter (important_at rules) (range 0 (length rules)))
        (filter (λ i. not (important_at rules i)) (range 0 (length rules))) start
        (visit_all-range rules q (important_at rules) (λ rule. rule.important) 0 rules
          q.index.compiled_resources start
          (λ j rule h.
            subst (λ n. (get_elem? rules n ≡ some rule) × (important_at rules n ≡ rule.important))
              (zero_plus j) (h, important_at-get rules j rule h))
          (λ j r h. subst (λ n. get_elem? q.index.compiled_resources n ≡ some r) (zero_plus j) h)
          size)
      ∙ visit_all-range rules q (λ i. not (important_at rules i)) (λ rule. not rule.important) 0
          rules q.index.compiled_resources _
          (λ j rule h.
            subst
              (λ n.
                (get_elem? rules n ≡ some rule) × (not (important_at rules n) ≡ not rule.important))
              (zero_plus j) (h, ap not (important_at-get rules j rule h)))
          (λ j r h. subst (λ n. get_elem? q.index.compiled_resources n ≡ some r) (zero_plus j) h)
          size

  visit_all-candidates :
      Lawful E
      → (rules : List Rule) (q : Query) → Built rules q.index
      → visit_all rules q
          (sort_by_priority rules (candidate_rule_indices rules q.index q.url q.req.url))
          start
        ≡ some (scan_by_priority rules q.index.compiled_resources q)
  visit_all-candidates laws rules q built =
      let cands = candidate_rule_indices rules q.index q.url q.req.url in
      let size = resources-length rules q.index built in
      ap (λ is. visit_all rules q is start)
        (sort_by_priority_lem rules cands (candidates-Distinct rules q.index q.url q.req.url)
          (candidates_below rules q.index built q.url q.req.url))
      ∙ visit_all-filter rules q (λ i. has_number i cands) (prioritized rules) start
          (λ i l.
            let fits = prioritized_below rules i l in
            let (rule, e) = get_elem?-below rules i fits in
            let (r, f) = get_elem?-below q.index.compiled_resources i (omega (arith, size, fits)) in
            (rule, r, e, f))
          (λ i rule r e f missed. missed-applies laws rules q built i rule r e missed)
      ∙ visit_all-prioritized rules q size

  -- For an index that was built from the rules, and engines that find what occurs, resolution panics
  -- nowhere and gives what a pass over all rules gives that looks up no index: first the important
  -- rules in the order of the source, then the others, each giving its actions when it applies.
  pub resolve_inner_lem :
      Lawful E
      → (rules : List Rule) (index : RuleIndex) (req : RequestMeta) (res : Option ResponseMeta)
        (body : Bool)
      → build rules ≡ some index
      → resolve_inner rules index req res body
        ≡ some (
            outcome (scan_by_priority rules index.compiled_resources (query_of index req res body)))
  unfolding resolve_inner
  resolve_inner_lem laws [] index req res body h = unfold scan_rules in refl
  resolve_inner_lem laws (rule ∷ rules) index req res body h = ap result_of (
      visit_all-candidates laws (rule ∷ rules) (query_of index req res body)
        (build-Built (rule ∷ rules) index h))
