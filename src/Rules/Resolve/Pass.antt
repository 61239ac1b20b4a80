-- ===== src/Rules/Resolve/Pass.antt =====
-- crates/rsproxy-rules/src/resolve.rs: a pass over all rules that consults no index, and the loop
-- on indices that are rules in order.
use rsproxy.Base.Members.{Listed}
use rsproxy.Base.{
  plus_zero, plus_suc, none-ne-some, some-eq, ℕ, suc, ◌+◌, ◌≡◌, refl, sym, ap, ◌∙◌, subst, inl, inr,
  Bool, false, not, none, some, List, [], ◌∷◌, ◌++◌, if◌then◌else◌, arith, Bool-cases, Option-cases,
  get_elem?, length, filter,
}
use rsproxy.Rules.Model.{Rule, ResolveResult, CompiledRuleResources}
use rsproxy.Rules.Engine.{Engines}
use rsproxy.Rules.Candidates.{range}
use rsproxy.Rules.Resolve.{Query, Resolution, start, applies, visit_rule, visit_all}

module _ ⦃E : Engines⦄ where
  -- One pass over the rules of which a test holds.
  unfoldable pub scan_rules :
      (Rule → Bool) → List Rule → List CompiledRuleResources → Query → Resolution → Resolution
  scan_rules test [] resources q st = st
  scan_rules test (rule ∷ rules) [] q st = st
  scan_rules test (rule ∷ rules) (r ∷ resources) q st =
      scan_rules test rules resources q
        (if test rule then visit_rule rule q (applies rule r q) st else st)

  -- Both passes.
  abbrev pub scan_by_priority : List Rule → List CompiledRuleResources → Query → Resolution
  scan_by_priority rules resources q =
      scan_rules (λ rule. not rule.important) rules resources q
        (scan_rules (λ rule. rule.important) rules resources q start)

  abbrev pub outcome : Resolution → ResolveResult
  outcome st = record { actions = st.actions; matched_rules = st.matched_rules }

  -- A rule that has its number, and its resources.
  abbrev HasRule : List Rule → Query → ℕ → Type 0
  HasRule rules q i =
      (rule : Rule) × (r : CompiledRuleResources) × (get_elem? rules i ≡ some rule)
      × (get_elem? q.index.compiled_resources i ≡ some r)

  visit_all_step :
      (rules : List Rule) (q : Query) (i : ℕ) (is : List ℕ) (st : Resolution) (rule : Rule)
      (r : CompiledRuleResources)
      → get_elem? rules i ≡ some rule
      → get_elem? q.index.compiled_resources i ≡ some r
      → visit_all rules q (i ∷ is) st
        ≡ visit_all rules q is (visit_rule rule q (applies rule r q) st)
  unfolding visit_all
  visit_all_step rules q i is st rule r e f = rw (e, f, visit_all)

  pub visit_all-append :
      (rules : List Rule) (q : Query) (xs ys : List ℕ) (st : Resolution) {st' : Resolution}
      → visit_all rules q xs st ≡ some st'
      → visit_all rules q (xs ++ ys) st ≡ visit_all rules q ys st'
  unfolding visit_all
  visit_all-append rules q [] ys st h = ap (visit_all rules q ys) (some-eq _ _ h)
  visit_all-append rules q (i ∷ xs) ys st h = elim (Option-cases (get_elem? rules i)) [
    | inl e ↦ absurd (none-ne-some (rw (e, visit_all) at h))
    | inr (rule, e) ↦ elim (Option-cases (get_elem? q.index.compiled_resources i)) [
      | inl f ↦ absurd (none-ne-some (rw (e, f, visit_all) at h))
      | inr (r, f) ↦
          rw (e, f, visit_all)
            (visit_all-append rules q xs ys (visit_rule rule q (applies rule r q) st)
              (rw (e, f, visit_all) at h))
    ]
  ]

  -- Rules that do not apply may be left out.
  pub visit_all-filter :
      (rules : List Rule) (q : Query) (p : ℕ → Bool) (is : List ℕ) (st : Resolution)
      → ((i : ℕ) → Listed i is → HasRule rules q i)
      → ((i : ℕ) (rule : Rule) (r : CompiledRuleResources)
          → get_elem? rules i ≡ some rule
          → get_elem? q.index.compiled_resources i ≡ some r
          → p i ≡ false
          → applies rule r q ≡ none)
      → visit_all rules q (filter p is) st ≡ visit_all rules q is st
  unfolding visit_all
  visit_all-filter rules q p [] st has skip = refl
  visit_all-filter rules q p (i ∷ is) st has skip =
      let (rule, r, e, f) = has i (inl refl) in
      elim (Bool-cases (p i)) [
        | inl keep ↦ rw keep (
            visit_all_step rules q i (filter p is) st rule r e f
            ∙ visit_all-filter rules q p is (visit_rule rule q (applies rule r q) st)
                (λ j l. has j (inr l)) skip
            ∙ sym (visit_all_step rules q i is st rule r e f))
        | inr drop ↦ rw drop (
            visit_all-filter rules q p is st (λ j l. has j (inr l)) skip
            ∙ ap (λ o. visit_all rules q is (visit_rule rule q o st)) (sym (skip i rule r e f drop))
            ∙ sym (visit_all_step rules q i is st rule r e f))
      ]

  -- The rules from number `k` on, of which `p` tells by the number what `test` tells by the rule.
  pub visit_all-range :
      (whole : List Rule) (q : Query) (p : ℕ → Bool) (test : Rule → Bool) (k : ℕ)
      (rules : List Rule) (resources : List CompiledRuleResources) (st : Resolution)
      → ((j : ℕ) (rule : Rule)
          → get_elem? rules j ≡ some rule
          → (get_elem? whole (k + j) ≡ some rule) × (p (k + j) ≡ test rule))
      → ((j : ℕ) (r : CompiledRuleResources)
          → get_elem? resources j ≡ some r
          → get_elem? q.index.compiled_resources (k + j) ≡ some r)
      → length resources ≡ length rules
      → visit_all whole q (filter p (range k (length rules))) st
        ≡ some (scan_rules test rules resources q st)
  unfolding range scan_rules visit_all
  visit_all-range whole q p test k [] resources st at_rule at_res size = refl
  visit_all-range whole q p test k (rule ∷ rules) [] st at_rule at_res size =
      absurd (omega (arith, size))
  visit_all-range whole q p test k (rule ∷ rules) (r ∷ resources) st at_rule at_res size =
      let here = at_rule 0 rule refl in
      let e : get_elem? whole k ≡ some rule =
        subst (λ n. get_elem? whole n ≡ some rule) (plus_zero k) here.0 in
      let t : p k ≡ test rule = subst (λ n. p n ≡ test rule) (plus_zero k) here.1 in
      let f : get_elem? q.index.compiled_resources k ≡ some r =
        subst (λ n. get_elem? q.index.compiled_resources n ≡ some r) (plus_zero k)
          (at_res 0 r refl) in
      let rest = λ (s : Resolution).
        visit_all-range whole q p test (suc k) rules resources s
          (λ j x h.
            subst (λ n. (get_elem? whole n ≡ some x) × (p n ≡ test x)) (plus_suc k j)
              (at_rule (suc j) x h))
          (λ j x h.
            subst (λ n. get_elem? q.index.compiled_resources n ≡ some x) (plus_suc k j)
              (at_res (suc j) x h))
          (omega (arith, size)) in
      elim (Bool-cases (test rule)) [
        | inl yes' ↦
            rw (t, yes')
              (visit_all_step whole q k (filter p (range (suc k) (length rules))) st rule r e f
                ∙ rest (visit_rule rule q (applies rule r q) st))
        | inr no' ↦ rw (t, no') (rest st)
      ]
