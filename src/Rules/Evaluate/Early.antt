-- ===== src/Rules/Evaluate/Early.antt =====
-- crates/rsproxy-rules/src/planning.rs: conditions before the body and the response of a request
-- are there.
use rsproxy.Base.{
  ℕ, ◌≡◌, refl, ap, ap₂, ◌∙◌, ◌⊎◌, inl, inr, Bool, true, false, not, ◌&&◌, ◌||◌, Option, none, List,
  if◌then◌else◌, arith, Bool-cases, is_none,
}
use rsproxy.Rules.Model.{
  Condition, Conditions, UrlCondition, ResponseMeta, CompiledConditionResources, ConditionResources,
}
use rsproxy.Rules.Engine.{Engines}
use rsproxy.Rules.Conditions.{
  Context, depends_on_request_body, any_depends_on_request_body, depends_on_response,
  any_depends_on_response,
}
use rsproxy.Rules.Evaluate.{
  leaf_matches, matches_with_compiled, any_matches, all_match, may_match_before_request_body,
  any_may_match, all_may_match,
}

-- A context with another response and another body.
abbrev pub view : Context → Option ResponseMeta → List ℕ → Context
view base res body = record base { res = res; req = record base.req { body = body } }

-- Nothing is asked of the response, or both responses are the same.
abbrev pub SameResponse : Bool → Option ResponseMeta → Option ResponseMeta → Type 0
SameResponse depends res1 res2 = (depends ≡ false) ⊎ (res1 ≡ res2)

or_left : (a b : Bool) → (a || b) ≡ false → a ≡ false
or_left a b h = ground arith

or_right : (a b : Bool) → (a || b) ≡ false → b ≡ false
or_right a b h = ground arith

either_left :
    (a b : Bool) (res1 res2 : Option ResponseMeta)
    → SameResponse (a || b) res1 res2
    → SameResponse a res1 res2
either_left a b res1 res2 (inl h) = inl (or_left a b h)
either_left a b res1 res2 (inr h) = inr h

either_right :
    (a b : Bool) (res1 res2 : Option ResponseMeta)
    → SameResponse (a || b) res1 res2
    → SameResponse b res1 res2
either_right a b res1 res2 (inl h) = inl (or_right a b h)
either_right a b res1 res2 (inr h) = inr h

module _ ⦃E : Engines⦄ (base : Context) (res1 res2 : Option ResponseMeta) (b1 b2 : List ℕ) where
  on_response-SameResponse :
      (c : Condition) (r : CompiledConditionResources)
      → SameResponse true res1 res2
      → leaf_matches c r (view base res1 b1) ≡ leaf_matches c r (view base res2 b1)
  on_response-SameResponse c r (inl h) = absurd (true-ne-false h)
    where
      true-ne-false : true ≡ false → ⊥
      true-ne-false e = cc
  on_response-SameResponse c r (inr h) = ap (λ res. leaf_matches c r (view base res b1)) h

  leaf_same :
      (c : Condition) (r : CompiledConditionResources)
      → depends_on_request_body c ≡ false
      → SameResponse (depends_on_response c) res1 res2
      → leaf_matches c r (view base res1 b1) ≡ leaf_matches c r (view base res2 b2)
  unfolding leaf_matches depends_on_request_body depends_on_response
  leaf_same (Condition.body_contains text) r h s = cc
  leaf_same (Condition.body_regex regex) r h s = cc
  leaf_same (Condition.res_header_present name) r h s =
      on_response-SameResponse (Condition.res_header_present name) r s
  leaf_same (Condition.res_header_contains name value) r h s =
      on_response-SameResponse (Condition.res_header_contains name value) r s
  leaf_same (Condition.status statuses) r h s =
      on_response-SameResponse (Condition.status statuses) r s
  leaf_same (Condition.host pattern) (CompiledConditionResources.host id) h s = refl
  leaf_same (Condition.host pattern) r h s = refl
  leaf_same (Condition.client_ip patterns) (CompiledConditionResources.client_ip ids) h s = refl
  leaf_same (Condition.client_ip patterns) r h s = refl
  leaf_same (Condition.server_ip patterns) (CompiledConditionResources.server_ip ids) h s = refl
  leaf_same (Condition.server_ip patterns) r h s = refl
  leaf_same (Condition.url (UrlCondition.glob text)) (CompiledConditionResources.url_glob id) h s =
      refl
  leaf_same (Condition.url (UrlCondition.glob text)) r h s = refl
  leaf_same c r h s = refl

not_same :
    (res1 res2 : Option ResponseMeta) (depends m1 m2 : Bool)
    → SameResponse depends res1 res2
    → m1 ≡ m2
    → (if is_none res1 && depends then false else not m1)
      ≡ (if is_none res2 && depends then false else not m2)
not_same res1 res2 depends m1 m2 (inl e) h =
    rw e (not_when_independent (is_none res1) (is_none res2) m1 m2 h)
  where
    not_when_independent :
        (a b m1 m2 : Bool)
        → m1 ≡ m2
        → (if a && false then false else not m1) ≡ (if b && false then false else not m2)
    not_when_independent a b m1 m2 h = ground arith
not_same res1 res2 depends m1 m2 (inr e) h =
    ap₂ (λ res m. if is_none res && depends then false else not m) e h

mutual
  unfolding matches_with_compiled depends_on_request_body depends_on_response

  -- A condition that does not ask for the body holds with any body alike, and if it does not ask for
  -- the response, with any response.
  pub matches-same :
      ⦃E : Engines⦄ (base : Context) (res1 res2 : Option ResponseMeta) (b1 b2 : List ℕ)
      (c : Condition) (r : CompiledConditionResources)
      → depends_on_request_body c ≡ false
      → SameResponse (depends_on_response c) res1 res2
      → matches_with_compiled c r (view base res1 b1)
        ≡ matches_with_compiled c r (view base res2 b2)
  matches-same base res1 res2 b1 b2 (Condition.any cs) (CompiledConditionResources.children rs) h
        s =
      any_matches-same base res1 res2 b1 b2 cs rs h s
  matches-same base res1 res2 b1 b2 (Condition.any cs) r h s = refl
  matches-same base res1 res2 b1 b2 (Condition.all cs) (CompiledConditionResources.children rs) h
        s =
      all_match-same base res1 res2 b1 b2 cs rs h s
  matches-same base res1 res2 b1 b2 (Condition.all cs) r h s = refl
  matches-same base res1 res2 b1 b2 (Condition.not c) (CompiledConditionResources.not r) h s =
      not_same res1 res2 (depends_on_response c) _ _ s (matches-same base res1 res2 b1 b2 c r h s)
  matches-same base res1 res2 b1 b2 (Condition.not c) r h s = refl
  matches-same base res1 res2 b1 b2 c r h s = leaf_same base res1 res2 b1 b2 c r h s

  any_matches-same :
      ⦃E : Engines⦄ (base : Context) (res1 res2 : Option ResponseMeta) (b1 b2 : List ℕ)
      (cs : Conditions) (rs : ConditionResources)
      → any_depends_on_request_body cs ≡ false
      → SameResponse (any_depends_on_response cs) res1 res2
      → any_matches cs rs (view base res1 b1) ≡ any_matches cs rs (view base res2 b2)
  any_matches-same base res1 res2 b1 b2 Conditions.nil rs h s = refl
  any_matches-same base res1 res2 b1 b2 (Conditions.cons c cs) ConditionResources.nil h s = refl
  any_matches-same base res1 res2 b1 b2 (Conditions.cons c cs) (ConditionResources.cons r rs) h s =
      ap₂ (λ a b. a || b)
        (matches-same base res1 res2 b1 b2 c r (or_left _ _ h)
          (either_left (depends_on_response c) (any_depends_on_response cs) res1 res2 s))
        (any_matches-same base res1 res2 b1 b2 cs rs (or_right _ _ h)
          (either_right (depends_on_response c) (any_depends_on_response cs) res1 res2 s))

  pub all_match-same :
      ⦃E : Engines⦄ (base : Context) (res1 res2 : Option ResponseMeta) (b1 b2 : List ℕ)
      (cs : Conditions) (rs : ConditionResources)
      → any_depends_on_request_body cs ≡ false
      → SameResponse (any_depends_on_response cs) res1 res2
      → all_match cs rs (view base res1 b1) ≡ all_match cs rs (view base res2 b2)
  all_match-same base res1 res2 b1 b2 Conditions.nil rs h s = refl
  all_match-same base res1 res2 b1 b2 (Conditions.cons c cs) ConditionResources.nil h s = refl
  all_match-same base res1 res2 b1 b2 (Conditions.cons c cs) (ConditionResources.cons r rs) h s =
      ap₂ (λ a b. a && b)
        (matches-same base res1 res2 b1 b2 c r (or_left _ _ h)
          (either_left (depends_on_response c) (any_depends_on_response cs) res1 res2 s))
        (all_match-same base res1 res2 b1 b2 cs rs (or_right _ _ h)
          (either_right (depends_on_response c) (any_depends_on_response cs) res1 res2 s))

or_mono :
    (a b c d : Bool)
    → (a ≡ true → c ≡ true)
    → (b ≡ true → d ≡ true)
    → (a || b) ≡ true
    → (c || d) ≡ true
or_mono true b c d f g h = rw (f refl) refl
or_mono false b true d f g h = refl
or_mono false b false d f g h = g h

and_mono :
    (a b c d : Bool)
    → (a ≡ true → c ≡ true)
    → (b ≡ true → d ≡ true)
    → (a && b) ≡ true
    → (c && d) ≡ true
and_mono true b c d f g h = rw (f refl) (g h)
and_mono false b c d f g h = cc

-- A condition that asks for neither, in a context without a response.
matches-early :
    ⦃E : Engines⦄ (base : Context) (res : Option ResponseMeta) (b1 b2 : List ℕ) (c : Condition)
    (r : CompiledConditionResources)
    → depends_on_request_body c ≡ false
    → depends_on_response c ≡ false
    → matches_with_compiled c r (view base res b2) ≡ true
    → matches_with_compiled c r (view base none b1) ≡ true
matches-early base res b1 b2 c r h k m = matches-same base none res b1 b2 c r h (inl k) ∙ m

mutual
  unfolding matches_with_compiled may_match_before_request_body depends_on_request_body
      depends_on_response

  -- What holds once body and response are there is admitted before.
  pub matches-may_match :
      ⦃E : Engines⦄ (base : Context) (res : Option ResponseMeta) (b1 b2 : List ℕ) (c : Condition)
      (r : CompiledConditionResources)
      → matches_with_compiled c r (view base res b2) ≡ true
      → may_match_before_request_body c r (view base none b1) ≡ true
  matches-may_match base res b1 b2 (Condition.body_contains text) r h = refl
  matches-may_match base res b1 b2 (Condition.body_regex regex) r h = refl
  matches-may_match base res b1 b2 (Condition.res_header_present name) r h = refl
  matches-may_match base res b1 b2 (Condition.res_header_contains name value) r h = refl
  matches-may_match base res b1 b2 (Condition.status statuses) r h = refl
  matches-may_match base res b1 b2 (Condition.any cs) (CompiledConditionResources.children rs) h =
      any_matches-may_match base res b1 b2 cs rs h
  matches-may_match base res b1 b2 (Condition.any cs) r h = cc
  matches-may_match base res b1 b2 (Condition.all cs) (CompiledConditionResources.children rs) h =
      all_match-may_match base res b1 b2 cs rs h
  matches-may_match base res b1 b2 (Condition.all cs) r h = cc
  matches-may_match base res b1 b2 (Condition.not c) r h =
      elim (Bool-cases (depends_on_request_body c)) [
        | inl e ↦ rw (e, ◌||◌) refl
        | inr e ↦ elim (Bool-cases (depends_on_response c)) [
          | inl f ↦ rw (e, f) refl
          | inr f ↦ rw (e, f) (matches-early base res b1 b2 (Condition.not c) r e f h)
        ]
      ]
  matches-may_match base res b1 b2 c r h = matches-early base res b1 b2 c r refl refl h

  any_matches-may_match :
      ⦃E : Engines⦄ (base : Context) (res : Option ResponseMeta) (b1 b2 : List ℕ) (cs : Conditions)
      (rs : ConditionResources)
      → any_matches cs rs (view base res b2) ≡ true
      → any_may_match cs rs (view base none b1) ≡ true
  any_matches-may_match base res b1 b2 Conditions.nil rs h = cc
  any_matches-may_match base res b1 b2 (Conditions.cons c cs) ConditionResources.nil h = cc
  any_matches-may_match base res b1 b2 (Conditions.cons c cs) (ConditionResources.cons r rs) h =
      or_mono _ _ _ _ (matches-may_match base res b1 b2 c r)
        (any_matches-may_match base res b1 b2 cs rs) h

  pub all_match-may_match :
      ⦃E : Engines⦄ (base : Context) (res : Option ResponseMeta) (b1 b2 : List ℕ) (cs : Conditions)
      (rs : ConditionResources)
      → all_match cs rs (view base res b2) ≡ true
      → all_may_match cs rs (view base none b1) ≡ true
  all_match-may_match base res b1 b2 Conditions.nil rs h = refl
  all_match-may_match base res b1 b2 (Conditions.cons c cs) ConditionResources.nil h = refl
  all_match-may_match base res b1 b2 (Conditions.cons c cs) (ConditionResources.cons r rs) h =
      and_mono _ _ _ _ (matches-may_match base res b1 b2 c r)
        (all_match-may_match base res b1 b2 cs rs) h
