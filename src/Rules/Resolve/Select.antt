-- ===== src/Rules/Resolve/Select.antt =====
-- crates/rsproxy-rules/src/resolve.rs: resolution against a selection from all that the rules
-- offer.
use rsproxy.Base.{
  ◌≡◌, sym, ap, ap₂, ◌∙◌, subst, inl, inr, Bool, not, Option, none, some, List, [], ◌∷◌, ◌++◌,
  if◌then◌else◌, Bool-cases,
}
use rsproxy.Rules.Model.{
  Rule, RequestMeta, ResponseMeta, Captures, MatchedRule, ResolvedAction, ResolveResult,
  CompiledRuleResources,
}
use rsproxy.Rules.Engine.{Engines, Lawful}
use rsproxy.Rules.Index.{RuleIndex, build}
use rsproxy.Rules.Resolve.{
  Query, Resolution, start, brief_of, applies, visit_rule, query_of, resolve_inner,
}
use rsproxy.Rules.Resolve.Scan.{resolve_inner_lem}
use rsproxy.Rules.Resolve.Pass.{scan_rules, scan_by_priority}
use rsproxy.Rules.Resolve.Offers.{select, rules_of, offers}
use rsproxy.Rules.Resolve.Tracks.{Tracks, start-Tracks, select-append, take_actions-Tracks}

abbrev result_with : List ResolvedAction → List MatchedRule → ResolveResult
result_with actions rules = record { actions = actions; matched_rules = rules }

-- The result that has these actions: its rules are those of the actions.
abbrev pub summary : List ResolvedAction → ResolveResult
summary actions = record { actions = actions; matched_rules = rules_of [] actions }

module _ ⦃E : Engines⦄ where
  abbrev pub rule_offers : Rule → Query → Option Captures → List ResolvedAction
  rule_offers rule q none = []
  rule_offers rule q (some captures) = offers rule.actions q.body (brief_of rule) captures q.res

  -- What the rules of which a test holds offer, in order.
  pub offers_of :
      (Rule → Bool) → List Rule → List CompiledRuleResources → Query → List ResolvedAction
  offers_of test [] resources q = []
  offers_of test (rule ∷ rules) [] q = []
  offers_of test (rule ∷ rules) (r ∷ resources) q =
      (if test rule then rule_offers rule q (applies rule r q) else [])
      ++ offers_of test rules resources q

  abbrev pub offers_by_priority :
      List Rule → List CompiledRuleResources → Query → List ResolvedAction
  offers_by_priority rules resources q =
      offers_of (λ rule. rule.important) rules resources q
      ++ offers_of (λ rule. not rule.important) rules resources q

  visit_rule-Tracks :
      (rule : Rule) (q : Query) (captures : Option Captures) (st : Resolution)
      (kept : List ResolvedAction)
      → Tracks st kept
      → Tracks (visit_rule rule q captures st) (select kept (rule_offers rule q captures))
  unfolding select
  visit_rule-Tracks rule q none st kept t = t
  visit_rule-Tracks rule q (some captures) st kept t =
      take_actions-Tracks rule.actions q.body (brief_of rule) captures q.res st kept t

  scan_rules-Tracks :
      (test : Rule → Bool) (rules : List Rule) (resources : List CompiledRuleResources) (q : Query)
      (st : Resolution) (kept : List ResolvedAction)
      → Tracks st kept
      → Tracks
          (scan_rules test rules resources q st)
          (select kept (offers_of test rules resources q))
  unfolding scan_rules offers_of select
  scan_rules-Tracks test [] resources q st kept t = t
  scan_rules-Tracks test (rule ∷ rules) [] q st kept t = t
  scan_rules-Tracks test (rule ∷ rules) (r ∷ resources) q st kept t =
      elim (Bool-cases (test rule)) [
        | inl e ↦
            let o = applies rule r q in
            rw e (
              subst (Tracks (scan_rules test rules resources q (visit_rule rule q o st)))
                (sym (select-append kept (rule_offers rule q o) (offers_of test rules resources q)))
                (scan_rules-Tracks test rules resources q (visit_rule rule q o st)
                  (select kept (rule_offers rule q o)) (visit_rule-Tracks rule q o st kept t)))
        | inr e ↦ rw e (scan_rules-Tracks test rules resources q st kept t)
      ]

  scan_by_priority-Tracks :
      (rules : List Rule) (resources : List CompiledRuleResources) (q : Query)
      → Tracks
          (scan_by_priority rules resources q)
          (select [] (offers_by_priority rules resources q))
  scan_by_priority-Tracks rules resources q =
      let first = offers_of (λ rule. rule.important) rules resources q in
      let second = offers_of (λ rule. not rule.important) rules resources q in
      subst (Tracks (scan_by_priority rules resources q)) (sym (select-append [] first second)) (
        scan_rules-Tracks (λ rule. not rule.important) rules resources q
          (scan_rules (λ rule. rule.important) rules resources q start) (select [] first)
          (scan_rules-Tracks (λ rule. rule.important) rules resources q start [] start-Tracks))

  -- For an index that was built from the rules, and engines that find what occurs, resolution gives
  -- the actions that the rules offer by priority, less those that are blocked by the ones taken
  -- before them, by a `skip` of their family or by one of the same family where the first wins; and
  -- the rules that these come from, each group and line once.
  pub resolve_inner-select :
      Lawful E
      → (rules : List Rule) (index : RuleIndex) (req : RequestMeta) (res : Option ResponseMeta)
        (body : Bool)
      → build rules ≡ some index
      → resolve_inner rules index req res body
        ≡ some (record {
          actions =
              select []
                (offers_by_priority rules index.compiled_resources (query_of index req res body));
          matched_rules = rules_of [] (
              select []
                (offers_by_priority rules index.compiled_resources (query_of index req res body)));
        })
  resolve_inner-select laws rules index req res body h =
      let q = query_of index req res body in
      let t = scan_by_priority-Tracks rules index.compiled_resources q in
      resolve_inner_lem laws rules index req res body h
      ∙ ap some (ap₂ result_with t.actions t.rules)
