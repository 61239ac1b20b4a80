-- ===== src/Rules/Index/Sound.antt =====
-- crates/rsproxy-rules/src/index.rs: the loop of `RuleIndex::build`, by the place of each rule.
use rsproxy.Base.Members.{Listed, Listed-append_cases, Listed-append_left, Listed-append_right}
use rsproxy.Base.{
  plus_zero, plus_suc, ℕ, zero, suc, ◌+◌, ◌<◌, ◌≤◌, ◌≡◌, refl, sym, subst, inl, inr, some, List, [],
  ◌∷◌, ◌++◌, arith, Option-cases, get_elem?, length,
}
use rsproxy.Rules.Text.{Str}
use rsproxy.Rules.Model.{Matcher, Rule}
use rsproxy.Rules.Engine.{Engines}
use rsproxy.Rules.Index.{
  Buckets, empty_buckets, file_rule, file_rules, matcher_index_key, required_regex_literal,
}
use rsproxy.Rules.IndexKey.{MatcherIndexKey, push_entry}
use rsproxy.Rules.Index.Filed.{
  members, members-push_entry, Place, literal_place, file_place, HeldAt, file_place-HeldAt_self,
  file_place-HeldAt,
}

-- The rules that are filed have numbers below `n`, and the prefilter's are listed as such.
pub record IsSound (n : ℕ) (b : Buckets) : Type 0 where
  pub exact_below : (j : ℕ) → Listed j (members b.domain_exact) → j < n
  pub suffix_below : (j : ℕ) → Listed j (members b.domain_suffix) → j < n
  pub global_below : (j : ℕ) → Listed j b.global → j < n
  pub ids_below : (j : ℕ) → Listed j b.rule_ids → j < n
  pub literals_listed : (j : ℕ) → Listed j (members b.literal_rules) → Listed j b.rule_ids

below_snoc :
    (n i : ℕ) (xs : List ℕ)
    → i < n
    → ((j : ℕ) → Listed j xs → j < n)
    → (j : ℕ) → Listed j (xs ++ i ∷ [])
    → j < n
below_snoc n i xs fits below j h = elim (Listed-append_cases j xs (i ∷ []) h) [
  | inl l ↦ below j l
  | inr (inl e) ↦ rw e fits
  | inr (inr l) ↦ absurd l
]

below_entry :
    (n i : ℕ) (key : Str) (m : List (Str × List ℕ))
    → i < n
    → ((j : ℕ) → Listed j (members m) → j < n)
    → (j : ℕ) → Listed j (members (push_entry key i m))
    → j < n
below_entry n i key m fits below j h = elim (members-push_entry key i j m h) [
  | inl e ↦ rw e fits
  | inr l ↦ below j l
]

file_place-IsSound :
    (n i : ℕ) (p : Place) (b : Buckets) → i < n → IsSound n b → IsSound n (file_place p i b)
file_place-IsSound n i (Place.under (MatcherIndexKey.exact h)) b fits s = record {
  exact_below = below_entry n i h b.domain_exact fits s.exact_below;
  suffix_below = s.suffix_below;
  global_below = s.global_below;
  ids_below = s.ids_below;
  literals_listed = s.literals_listed;
}
file_place-IsSound n i (Place.under (MatcherIndexKey.suffix h)) b fits s = record {
  exact_below = s.exact_below;
  suffix_below = below_entry n i h b.domain_suffix fits s.suffix_below;
  global_below = s.global_below;
  ids_below = s.ids_below;
  literals_listed = s.literals_listed;
}
file_place-IsSound n i (Place.under MatcherIndexKey.global) b fits s = record {
  exact_below = s.exact_below;
  suffix_below = s.suffix_below;
  global_below = below_snoc n i b.global fits s.global_below;
  ids_below = s.ids_below;
  literals_listed = s.literals_listed;
}
file_place-IsSound n i (Place.by_literal t) b fits s = record {
  exact_below = s.exact_below;
  suffix_below = s.suffix_below;
  global_below = s.global_below;
  ids_below = below_snoc n i b.rule_ids fits s.ids_below;
  literals_listed = λ j h. elim (members-push_entry t i j b.literal_rules h) [
    | inl e ↦ Listed-append_right j b.rule_ids (i ∷ []) (inl e)
    | inr l ↦ Listed-append_left j b.rule_ids (i ∷ []) (s.literals_listed j l)
  ];
}

module _ ⦃E : Engines⦄ where
  abbrev pub place_of : Matcher → Place
  place_of (Matcher.regex regex) = literal_place (required_regex_literal regex)
  place_of (Matcher.exact_url text) = Place.under (matcher_index_key (Matcher.exact_url text))
  place_of (Matcher.glob glob) = Place.under (matcher_index_key (Matcher.glob glob))
  place_of (Matcher.port port) = Place.under (matcher_index_key (Matcher.port port))
  place_of (Matcher.not inner) = Place.under (matcher_index_key (Matcher.not inner))

  file_rule-place :
      (m : Matcher) (i : ℕ) (b : Buckets) → file_rule m i b ≡ file_place (place_of m) i b
  unfolding file_rule
  file_rule-place (Matcher.regex regex) i b = elim (Option-cases (required_regex_literal regex)) [
    | inl e ↦ rw e refl
    | inr (literal, e) ↦ rw e refl
  ]
  file_rule-place (Matcher.exact_url text) i b = refl
  file_rule-place (Matcher.glob glob) i b = refl
  file_rule-place (Matcher.port port) i b = refl
  file_rule-place (Matcher.not inner) i b = refl

  file_rules-IsSound :
      (n i : ℕ) (rules : List Rule) (b : Buckets)
      → i + length rules ≤ n
      → IsSound n b
      → IsSound n (file_rules rules i b)
  unfolding file_rules
  file_rules-IsSound n i [] b fits s = s
  file_rules-IsSound n i (rule ∷ rules) b fits s =
      file_rules-IsSound n (suc i) rules (file_rule rule.matcher i b) (omega arith) (
        subst (IsSound n) (sym (file_rule-place rule.matcher i b))
          (file_place-IsSound n i (place_of rule.matcher) b (omega arith) s))

  file_rules-HeldAt_keep :
      (rules : List Rule) (i j : ℕ) (p : Place) (b : Buckets)
      → HeldAt p j b
      → HeldAt p j (file_rules rules i b)
  unfolding file_rules
  file_rules-HeldAt_keep [] i j p b h = h
  file_rules-HeldAt_keep (rule ∷ rules) i j p b h =
      file_rules-HeldAt_keep rules (suc i) j p (file_rule rule.matcher i b) (
        subst (HeldAt p j) (sym (file_rule-place rule.matcher i b))
          (file_place-HeldAt (place_of rule.matcher) p i j b h))

  -- Every rule is held at the place of its matcher.
  pub file_rules-HeldAt :
      (rules : List Rule) (i j : ℕ) (b : Buckets) (rule : Rule)
      → get_elem? rules j ≡ some rule
      → HeldAt (place_of rule.matcher) (i + j) (file_rules rules i b)
  unfolding file_rules
  file_rules-HeldAt [] i j b rule h = cc
  file_rules-HeldAt (r ∷ rules) i zero b rule h =
      let same : r ≡ rule = cc in
      let placed : HeldAt (place_of r.matcher) i (file_rule r.matcher i b) =
        subst (HeldAt (place_of r.matcher) i) (sym (file_rule-place r.matcher i b))
          (file_place-HeldAt_self (place_of r.matcher) i b) in
      subst
        (λ (x : Rule).
          HeldAt (place_of x.matcher) (i + 0) (file_rules rules (suc i) (file_rule r.matcher i b)))
        same
        (subst
          (λ k. HeldAt (place_of r.matcher) k (file_rules rules (suc i) (file_rule r.matcher i b)))
          (sym (plus_zero i))
          (file_rules-HeldAt_keep rules (suc i) i (place_of r.matcher) (file_rule r.matcher i b)
            placed))
  file_rules-HeldAt (r ∷ rules) i (suc j) b rule h =
      subst
        (λ k. HeldAt (place_of rule.matcher) k (file_rules rules (suc i) (file_rule r.matcher i b)))
        (sym (plus_suc i j)) (file_rules-HeldAt rules (suc i) j (file_rule r.matcher i b) rule h)

  pub build_buckets-IsSound :
      (rules : List Rule) → IsSound (length rules) (file_rules rules 0 empty_buckets)
  build_buckets-IsSound rules =
      file_rules-IsSound (length rules) 0 rules empty_buckets (omega arith) (record {
        exact_below = λ j h. absurd h;
        suffix_below = λ j h. absurd h;
        global_below = λ j h. absurd h;
        ids_below = λ j h. absurd h;
        literals_listed = λ j h. absurd h;
      })
