-- ===== src/Rules/Resolve/Body.antt =====
-- crates/rsproxy-rules/src/resolution_api.rs: resolution with and without a body that is not
-- required.
use rsproxy.Base.Members.{Listed}
use rsproxy.Base.{
  none-ne-some, ℕ, zero, suc, ◌≡◌, refl, sym, ap, ap₂, ◌∙◌, subst, ◌⊎◌, inl, inr, Bool, true, false,
  not, ◌&&◌, ◌||◌, Option, none, some, List, [], ◌∷◌, if◌then◌else◌, arith, Bool-cases,
  Option-cases, get_elem?, filter, is_some,
}
use rsproxy.Rules.Text.{any}
use rsproxy.Rules.Action.{Action, DeleteOp, deletes_req_body, action_requires_request_body}
use rsproxy.Rules.Model.{
  Rule, RequestMeta, ResponseMeta, Captures, MatchedRule, CompiledRuleResources,
}
use rsproxy.Rules.Engine.{Engines}
use rsproxy.Rules.Conditions.{any_depends_on_request_body}
use rsproxy.Rules.Evaluate.{all_match}
use rsproxy.Rules.Evaluate.Early.{all_match-same, all_match-may_match}
use rsproxy.Rules.Index.{RuleIndex}
use rsproxy.Rules.Candidates.{candidate_rule_indices}
use rsproxy.Rules.Resolve.Order.{sort-Listed}
use rsproxy.Rules.Resolve.{
  Query, Resolution, start, action_for_body_availability, keep_operations, offer_available,
  take_actions, brief_of, applies, captures_of, visit_rule, visit_all, context_at, query_of,
  result_of, resolve_inner, needs_body, may_apply, any_needs_body, request_body_required,
  sort_by_priority,
}

-- `delete` without an operation, which the parser refuses.
abbrev pub deletes_nothing : Action → Bool
deletes_nothing (Action.delete []) = true
deletes_nothing action = false

filter_all :
    (ops : List DeleteOp)
    → any deletes_req_body ops ≡ false
    → filter (λ op. not (deletes_req_body op)) ops ≡ ops
unfolding any
filter_all [] h = refl
filter_all (op ∷ ops) h = elim (Bool-cases (deletes_req_body op)) [
  | inl e ↦ absurd (ground arith)
  | inr e ↦ rw e (ap (◌∷◌ op) (filter_all ops (ground arith)))
]

-- An action that does not need the body is the same without it.
action_same :
    (action : Action)
    → action_requires_request_body action ≡ false
    → deletes_nothing action ≡ false
    → action_for_body_availability action false ≡ some action
unfolding action_for_body_availability action_requires_request_body
action_same (Action.req_body op) h k = cc
action_same (Action.delete []) h k = cc
action_same (Action.delete (op ∷ ops)) h k = ap keep_operations (filter_all (op ∷ ops) h)
action_same action h k = refl

action_with : (action : Action) → action_for_body_availability action true ≡ some action
unfolding action_for_body_availability
action_with (Action.req_body op) = refl
action_with action = refl

or_left : (a b : Bool) → (a || b) ≡ false → a ≡ false
or_left a b h = ground arith

or_right : (a b : Bool) → (a || b) ≡ false → b ≡ false
or_right a b h = ground arith

take_actions-same :
    (actions : List Action) (brief : MatchedRule) (captures : Captures)
    (response : Option ResponseMeta) (st : Resolution)
    → any action_requires_request_body actions ≡ false
    → any deletes_nothing actions ≡ false
    → take_actions actions true brief captures response st
      ≡ take_actions actions false brief captures response st
unfolding take_actions any
take_actions-same [] brief captures response st h k = refl
take_actions-same (action ∷ actions) brief captures response st h k =
    ap
      (λ o.
        take_actions actions true brief captures response
          (offer_available o brief captures response st))
      (action_with action ∙ sym (action_same action (or_left _ _ h) (or_left _ _ k)))
    ∙ take_actions-same actions brief captures response
        (offer_available (action_for_body_availability action false) brief captures response st)
        (or_right _ _ h) (or_right _ _ k)

-- The captures of a rule whose conditions are tested: with the body, and without it.
abbrev choose : Captures → Bool → Option Captures
choose captures holds = if holds then some captures else none

abbrev allow : Captures → Bool → Bool → Option Captures
allow captures depends holds = if depends then none else if holds then some captures else none

by_tests :
    (disabled found may needs : Bool)
    → (not disabled && found && may && needs) ≡ false
    → disabled ≡ false
    → found ≡ true
    → may ≡ true
    → needs ≡ false
by_tests disabled found may needs h e f m = ground arith

Listed-get :
    (rules : List Rule) (i : ℕ) (rule : Rule) → get_elem? rules i ≡ some rule → Listed rule rules
Listed-get [] i rule h = cc
Listed-get (r ∷ rules) zero rule h = inl (cc)
Listed-get (r ∷ rules) (suc i) rule h = inr (Listed-get rules i rule h)

true-ne-false : some true ≡ some false → ⊥
true-ne-false e = cc

module _ ⦃E : Engines⦄ where
  applies_off :
      (rule : Rule) (r : CompiledRuleResources) (q : Query)
      → (rule.disabled ≡ true) ⊎ (captures_of rule r q q.url ≡ none)
      → applies rule r q ≡ none
  unfolding applies
  applies_off rule r q (inl e) = rw (e, applies)
  applies_off rule r q (inr e) = elim (Bool-cases rule.disabled) [
    | inl f ↦ rw (f, applies)
    | inr f ↦ rw (f, e, applies)
  ]

  applies_on :
      (rule : Rule) (r : CompiledRuleResources) (q : Query) (captures : Captures)
      → rule.disabled ≡ false
      → captures_of rule r q q.url ≡ some captures
      → applies rule r q ≡ (
          if not q.body && any_depends_on_request_body rule.conditions
          then none
          else if all_match rule.conditions r.conditions (context_at q rule.line)
          then some captures
          else none)
  unfolding applies
  applies_on rule r q captures e f = rw (e, f, applies)

  module _ (index : RuleIndex) (req : RequestMeta) (res : Option ResponseMeta)
      (bytes : List ℕ) where
    -- Before the body is there, with the body, and without it.
    abbrev early : Query
    early = query_of index req none true

    abbrev full : Query
    full = query_of index (record req { body = bytes }) res true

    abbrev bare : Query
    bare = query_of index req res false

    -- A rule that may apply and needs no body.
    not_needed :
        (rule : Rule) (r : CompiledRuleResources) (captures : Captures)
        → (may_apply rule r early && needs_body rule) ≡ false
        → rule.disabled ≡ false
        → captures_of rule r early early.url ≡ some captures
        → all_match rule.conditions r.conditions (context_at full rule.line) ≡ true
        → needs_body rule ≡ false
    not_needed rule r captures h e f m =
        let may =
          all_match-may_match (context_at early rule.line) res req.body bytes rule.conditions
            r.conditions m in
        by_tests rule.disabled (is_some (captures_of rule r early early.url)) _ (needs_body rule) h
          e (ap is_some f) may

    conditions_same :
        (rule : Rule) (r : CompiledRuleResources)
        → any_depends_on_request_body rule.conditions ≡ false
        → all_match rule.conditions r.conditions (context_at full rule.line)
          ≡ all_match rule.conditions r.conditions (context_at bare rule.line)
    conditions_same rule r h =
        all_match-same (context_at early rule.line) res res bytes req.body rule.conditions
          r.conditions h (inr refl)

    denied :
        (rule : Rule) (r : CompiledRuleResources) (captures : Captures)
        → all_match rule.conditions r.conditions (context_at full rule.line) ≡ false
        → allow captures
            (any_depends_on_request_body rule.conditions)
            (all_match rule.conditions r.conditions (context_at bare rule.line))
          ≡ none
    denied rule r captures m = elim (Bool-cases (any_depends_on_request_body rule.conditions)) [
      | inl d ↦ rw d refl
      | inr d ↦ rw (d, sym (conditions_same rule r d) ∙ m) refl
    ]

    visit_rule-same :
        (rule : Rule) (r : CompiledRuleResources) (st : Resolution)
        → (may_apply rule r early && needs_body rule) ≡ false
        → any deletes_nothing rule.actions ≡ false
        → visit_rule rule full (applies rule r full) st
          ≡ visit_rule rule bare (applies rule r bare) st
    visit_rule-same rule r st h k = elim (Bool-cases rule.disabled) [
      | inl e ↦ rw (applies_off rule r full (inl e), applies_off rule r bare (inl e)) refl
      | inr e ↦ elim (Option-cases (captures_of rule r early early.url)) [
        | inl f ↦ rw (applies_off rule r full (inr f), applies_off rule r bare (inr f)) refl
        | inr (captures, f) ↦
            let on_full = applies_on rule r full captures e f in
            let on_bare = applies_on rule r bare captures e f in
            elim (Bool-cases (all_match rule.conditions r.conditions (context_at full rule.line))) [
              | inl m ↦
                  let spared = not_needed rule r captures h e f m in
                  let no_body = or_left _ _ spared in
                  let on : applies rule r full ≡ some captures = on_full ∙ ap (choose captures) m in
                  let on' : applies rule r bare ≡ some captures =
                    on_bare
                    ∙ ap₂ (allow captures) no_body (sym (conditions_same rule r no_body) ∙ m) in
                  rw (on, on')
                    (take_actions-same rule.actions (brief_of rule) captures res st
                      (or_right _ _ spared) k)
              | inr m ↦
                  let off : applies rule r full ≡ none = on_full ∙ ap (choose captures) m in
                  let off' : applies rule r bare ≡ none = on_bare ∙ denied rule r captures m in
                  rw (off, off') refl
            ]
      ]
    ]

    any_needs_body-tail :
        (rules : List Rule) (j : ℕ) (is : List ℕ)
        → any_needs_body rules early (j ∷ is) ≡ some false
        → any_needs_body rules early is ≡ some false
    unfolding any_needs_body
    any_needs_body-tail rules j is h = elim (Option-cases (get_elem? rules j)) [
      | inl e ↦ absurd (none-ne-some (rw (e, any_needs_body) at h))
      | inr (rule, e) ↦ elim (Option-cases (get_elem? index.compiled_resources j)) [
        | inl f ↦ absurd (none-ne-some (rw (e, f, any_needs_body) at h))
        | inr (r, f) ↦ elim (Bool-cases (may_apply rule r early && needs_body rule)) [
          | inl t ↦ absurd (true-ne-false (rw (e, f, t, any_needs_body) at h))
          | inr t ↦ rw (e, f, t, any_needs_body) at h
        ]
      ]
    ]

    -- What the early test says of each candidate.
    any_needs_body-false :
        (rules : List Rule) (is : List ℕ)
        → any_needs_body rules early is ≡ some false
        → (i : ℕ) (rule : Rule) (r : CompiledRuleResources) → Listed i is
        → get_elem? rules i ≡ some rule
        → get_elem? index.compiled_resources i ≡ some r
        → (may_apply rule r early && needs_body rule) ≡ false
    unfolding any_needs_body
    any_needs_body-false rules [] h i rule r l e f = absurd l
    any_needs_body-false rules (j ∷ is) h i rule r (inl same) e f =
        let e' = subst (λ n. get_elem? rules n ≡ some rule) same e in
        let f' = subst (λ n. get_elem? index.compiled_resources n ≡ some r) same f in
        elim (Bool-cases (may_apply rule r early && needs_body rule)) [
          | inl t ↦ absurd (true-ne-false (rw (e', f', t, any_needs_body) at h))
          | inr t ↦ t
        ]
    any_needs_body-false rules (j ∷ is) h i rule r (inr l) e f =
        any_needs_body-false rules is (any_needs_body-tail rules j is h) i rule r l e f

    visit_all-same :
        (rules : List Rule) (is : List ℕ) (st : Resolution)
        → ((rule : Rule) → Listed rule rules → any deletes_nothing rule.actions ≡ false)
        → ((i : ℕ) (rule : Rule) (r : CompiledRuleResources)
            → Listed i is
            → get_elem? rules i ≡ some rule
            → get_elem? index.compiled_resources i ≡ some r
            → (may_apply rule r early && needs_body rule) ≡ false)
        → visit_all rules full is st ≡ visit_all rules bare is st
    unfolding visit_all
    visit_all-same rules [] st filled spared = refl
    visit_all-same rules (i ∷ is) st filled spared = elim (Option-cases (get_elem? rules i)) [
      | inl e ↦ rw (e, visit_all)
      | inr (rule, e) ↦ elim (Option-cases (get_elem? index.compiled_resources i)) [
        | inl f ↦ rw (e, f, visit_all)
        | inr (r, f) ↦
            rw (e, f, visit_all)
              (ap (visit_all rules full is) (
                  visit_rule-same rule r st (spared i rule r (inl refl) e f)
                    (filled rule (Listed-get rules i rule e)))
                ∙ visit_all-same rules is (visit_rule rule bare (applies rule r bare) st) filled
                    (λ j x y l. spared j x y (inr l)))
      ]
    ]

  -- If no rule deletes without saying what, and the body is said not to be needed, resolution
  -- without the body gives for every response what resolution with it gives, whatever the body is.
  pub resolve_inner-without_body :
      (rules : List Rule) (index : RuleIndex) (req : RequestMeta) (res : Option ResponseMeta)
      (bytes : List ℕ)
      → ((rule : Rule) → Listed rule rules → any deletes_nothing rule.actions ≡ false)
      → request_body_required rules index req ≡ some false
      → resolve_inner rules index (record req { body = bytes }) res true
        ≡ resolve_inner rules index req res false
  unfolding resolve_inner request_body_required
  resolve_inner-without_body [] index req res bytes filled h = refl
  resolve_inner-without_body (rule ∷ rules) index req res bytes filled h =
      let cands =
        candidate_rule_indices (rule ∷ rules) index (early index req res bytes).url req.url in
      ap result_of (
        visit_all-same index req res bytes (rule ∷ rules) (sort_by_priority (rule ∷ rules) cands)
          start filled
          (λ i x r l e f.
            any_needs_body-false index req res bytes (rule ∷ rules) cands h i x r
              (sort-Listed (rule ∷ rules) i cands l) e f))
