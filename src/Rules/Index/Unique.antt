-- ===== src/Rules/Index/Unique.antt =====
-- crates/rsproxy-rules/src/index.rs: `extend_unique` and the loop over the prefilter's matches.
use rsproxy.Base.Members.{
  Listed, Distinct, Distinct-snoc, Distinct-covers, Listed-append_left, Listed-append_right,
  Listed-append_cases,
}
use rsproxy.Base.{
  false-ne-true, ℕ, zero, suc, ◌≡◌, refl, sym, ap, ◌∙◌, subst, ◌⊎◌, inl, inr, Bool, true, false,
  none, some, List, [], ◌∷◌, ◌++◌, ◌==◌, ==_iff, if◌then◌else◌, arith, Bool-cases, Option-cases,
  get_elem?, length,
}
use rsproxy.Rules.Text.{any}
use rsproxy.Rules.Index.{RuleIndex, join}
use rsproxy.Rules.Candidates.{has_number, extend_unique, collect_matches}

pub has_number-Listed : (n : ℕ) (list : List ℕ) → has_number n list ≡ true → Listed n list
unfolding any
has_number-Listed n [] h = cc
has_number-Listed n (m ∷ list) h = elim (Bool-cases (m == n)) [
  | inl e ↦ inl (sym ((==_iff m n).0 e))
  | inr e ↦ inr (has_number-Listed n list (ground arith))
]

pub Listed-has_number : (n : ℕ) (list : List ℕ) → Listed n list → has_number n list ≡ true
unfolding any
Listed-has_number n [] h = absurd h
Listed-has_number n (m ∷ list) (inl e) = ground arith
Listed-has_number n (m ∷ list) (inr h) = ground (arith, Listed-has_number n list h)

has_number_absent : (n : ℕ) (list : List ℕ) → has_number n list ≡ false → ¬ Listed n list
has_number_absent n list e h = false-ne-true (sym e ∙ Listed-has_number n list h)

-- One round.
abbrev add : List ℕ → ℕ → List ℕ
add out v = if has_number v out then out else out ++ v ∷ []

add-keeps : (i v : ℕ) (out : List ℕ) → Listed i out → Listed i (add out v)
add-keeps i v out h = split (has_number v out)
  where
    split : (b : Bool) → Listed i (if b then out else out ++ v ∷ [])
    split true = h
    split false = Listed-append_left i out (v ∷ []) h

add-adds : (v : ℕ) (out : List ℕ) → Listed v (add out v)
add-adds v out = elim (Bool-cases (has_number v out)) [
  | inl e ↦ rw e (has_number-Listed v out e)
  | inr e ↦ rw e (Listed-append_right v out (v ∷ []) (inl refl))
]

add-only : (i v : ℕ) (out : List ℕ) → Listed i (add out v) → Listed i out ⊎ (i ≡ v)
add-only i v out h = elim (Bool-cases (has_number v out)) [
  | inl e ↦ inl (rw e at h)
  | inr e ↦ elim (Listed-append_cases i out (v ∷ []) (rw e at h)) [
    | inl l ↦ inl l
    | inr (inl same) ↦ inr same
    | inr (inr l) ↦ absurd l
  ]
]

add-Distinct : (v : ℕ) (out : List ℕ) → Distinct out → Distinct (add out v)
add-Distinct v out d = elim (Bool-cases (has_number v out)) [
  | inl e ↦ rw e d
  | inr e ↦ rw e (Distinct-snoc out v d (has_number_absent v out e))
]

pub extend_unique-keeps : (i : ℕ) (out vs : List ℕ) → Listed i out → Listed i (extend_unique out vs)
unfolding extend_unique
extend_unique-keeps i out [] h = h
extend_unique-keeps i out (v ∷ vs) h = extend_unique-keeps i (add out v) vs (add-keeps i v out h)

pub extend_unique-adds : (i : ℕ) (out vs : List ℕ) → Listed i vs → Listed i (extend_unique out vs)
unfolding extend_unique
extend_unique-adds i out [] h = absurd h
extend_unique-adds i out (v ∷ vs) (inl e) =
    extend_unique-keeps i (add out v) vs
      (subst (λ t. Listed t (add out v)) (sym e) (add-adds v out))
extend_unique-adds i out (v ∷ vs) (inr h) = extend_unique-adds i (add out v) vs h

pub extend_unique-only :
    (i : ℕ) (out vs : List ℕ) → Listed i (extend_unique out vs) → Listed i out ⊎ Listed i vs
unfolding extend_unique
extend_unique-only i out [] h = inl h
extend_unique-only i out (v ∷ vs) h = elim (extend_unique-only i (add out v) vs h) [
  | inr l ↦ inr (inr l)
  | inl l ↦ elim (add-only i v out l) [ inl k ↦ inl k | inr same ↦ inr (inl same) ]
]

pub extend_unique-Distinct : (out vs : List ℕ) → Distinct out → Distinct (extend_unique out vs)
unfolding extend_unique
extend_unique-Distinct out [] d = d
extend_unique-Distinct out (v ∷ vs) d = extend_unique-Distinct (add out v) vs (add-Distinct v out d)

-- A list of lists holds what its members hold.
Listed-join :
    (i n : ℕ) (vs : List (List ℕ)) (v : List ℕ)
    → get_elem? vs n ≡ some v
    → Listed i v
    → Listed i (join vs)
Listed-join i n [] v h l = cc
Listed-join i zero (w ∷ vs) v h l =
    Listed-append_left i w (join vs) (subst (Listed i) (sym (some-eq h)) l)
  where
    some-eq : some w ≡ some v → w ≡ v
    some-eq e = cc
Listed-join i (suc n) (w ∷ vs) v h l = Listed-append_right i w (join vs) (Listed-join i n vs v h l)

module _ (index : RuleIndex) where
  pub collect_matches-Distinct :
      (found out : List ℕ) → Distinct out → Distinct (collect_matches index found out)
  unfolding collect_matches
  collect_matches-Distinct [] out d = d
  collect_matches-Distinct (f ∷ found) out d =
      elim (Option-cases (get_elem? index.prefilter_literal_rules f)) [
        | inl e ↦ rw (e, collect_matches) (collect_matches-Distinct found out d)
        | inr (rules, e) ↦
            let d' = extend_unique-Distinct out rules d in
            elim (Bool-cases
              (length (extend_unique out rules) == length index.prefilter_rule_ids)) [
                | inl stop ↦ rw (e, stop, collect_matches) d'
                | inr go ↦
                    rw (e, go, collect_matches)
                      (collect_matches-Distinct found (extend_unique out rules) d')
              ]
      ]

  pub collect_matches-keeps :
      (i : ℕ) (found out : List ℕ) → Listed i out → Listed i (collect_matches index found out)
  unfolding collect_matches
  collect_matches-keeps i [] out h = h
  collect_matches-keeps i (f ∷ found) out h =
      elim (Option-cases (get_elem? index.prefilter_literal_rules f)) [
        | inl e ↦ rw (e, collect_matches) (collect_matches-keeps i found out h)
        | inr (rules, e) ↦
            let h' = extend_unique-keeps i out rules h in
            elim (Bool-cases
              (length (extend_unique out rules) == length index.prefilter_rule_ids)) [
                | inl stop ↦ rw (e, stop, collect_matches) h'
                | inr go ↦
                    rw (e, go, collect_matches)
                      (collect_matches-keeps i found (extend_unique out rules) h')
              ]
      ]

  pub collect_matches-only :
      (i : ℕ) (found out : List ℕ)
      → Listed i (collect_matches index found out)
      → Listed i out ⊎ Listed i (join index.prefilter_literal_rules)
  unfolding collect_matches
  collect_matches-only i [] out h = inl h
  collect_matches-only i (f ∷ found) out h =
      elim (Option-cases (get_elem? index.prefilter_literal_rules f)) [
        | inl e ↦ collect_matches-only i found out (rw (e, collect_matches) at h)
        | inr (rules, e) ↦
            let back = λ (l : Listed i (extend_unique out rules)). from_rules f rules out e l in
            elim (Bool-cases
              (length (extend_unique out rules) == length index.prefilter_rule_ids)) [
                | inl stop ↦ back (rw (e, stop, collect_matches) at h)
                | inr go ↦
                    elim (collect_matches-only i found (extend_unique out rules)
                      (rw (e, go, collect_matches) at h)) [ inl l ↦ back l | inr l ↦ inr l ]
              ]
      ]
    where
      from_rules :
          (f : ℕ) (rules out : List ℕ)
          → get_elem? index.prefilter_literal_rules f ≡ some rules
          → Listed i (extend_unique out rules)
          → Listed i out ⊎ Listed i (join index.prefilter_literal_rules)
      from_rules f rules out e l = elim (extend_unique-only i out rules l) [
        | inl k ↦ inl k
        | inr k ↦ inr (Listed-join i f index.prefilter_literal_rules rules e k)
      ]

  -- A rule of a literal that was found is gathered, also when the loop stops early.
  pub collect_matches_complete :
      (i n : ℕ) (rules found out : List ℕ)
      → Distinct out
      → ((j : ℕ) → Listed j out → Listed j index.prefilter_rule_ids)
      → ((j : ℕ)
          → Listed j (join index.prefilter_literal_rules)
          → Listed j index.prefilter_rule_ids)
      → get_elem? index.prefilter_literal_rules n ≡ some rules
      → Listed i rules
      → Listed n found
      → Listed i (collect_matches index found out)
  unfolding collect_matches
  collect_matches_complete i n rules [] out d sub all e l h = absurd h
  collect_matches_complete i n rules (f ∷ found) out d sub all e l h =
      elim (Option-cases (get_elem? index.prefilter_literal_rules f)) [
        | inl g ↦
            rw (g, collect_matches)
              (elim h [
                | inl same ↦
                    absurd
                      (some-ne-none (sym e ∙ ap (get_elem? index.prefilter_literal_rules) same ∙ g))
                | inr m ↦ collect_matches_complete i n rules found out d sub all e l m
              ])
        | inr (rs, g) ↦
            let d' = extend_unique-Distinct out rs d in
            let sub' = within f rs g in
            elim (Bool-cases (length (extend_unique out rs) == length index.prefilter_rule_ids)) [
              | inl stop ↦
                  rw (g, stop, collect_matches)
                    (Distinct-covers (extend_unique out rs) index.prefilter_rule_ids d' sub'
                      (omega (arith, (==_iff _ _).0 stop)) i
                      (all i (Listed-join i n index.prefilter_literal_rules rules e l)))
              | inr go ↦
                  rw (g, go, collect_matches)
                    (elim h [
                      | inl same ↦ collect_matches-keeps i found (extend_unique out rs) (
                          extend_unique-adds i out rs (
                            subst (Listed i)
                              (some-eq
                                (sym e ∙ ap (get_elem? index.prefilter_literal_rules) same ∙ g))
                              l))
                      | inr m ↦
                          collect_matches_complete i n rules found (extend_unique out rs) d' sub'
                            all e l m
                    ])
            ]
      ]
    where
      some-ne-none : some rules ≡ none → ⊥
      some-ne-none e = cc

      some-eq : {xs ys : List ℕ} → some xs ≡ some ys → xs ≡ ys
      some-eq e = cc

      within :
          (f : ℕ) (rs : List ℕ)
          → get_elem? index.prefilter_literal_rules f ≡ some rs
          → (j : ℕ) → Listed j (extend_unique out rs)
          → Listed j index.prefilter_rule_ids
      within f rs g j k = elim (extend_unique-only j out rs k) [
        | inl o ↦ sub j o
        | inr r ↦ all j (Listed-join j f index.prefilter_literal_rules rs g r)
      ]
