-- ===== src/Rules/Resolve/Tracks.antt =====
-- crates/rsproxy-rules/src/resolve.rs: the variables of the inner loop against that look back.
use rsproxy.Base.{
  ◌≡◌, refl, sym, ap, ap₂, ◌∙◌, subst, inl, inr, Bool, true, ◌&&◌, ◌||◌, Option, none, some, List,
  [], ◌∷◌, ◌++◌, ◌==◌, if◌then◌else◌, arith, Bool-cases,
}
use rsproxy.Rules.Text.{any}
use rsproxy.Rules.Bits.{Bits, has_bit, is_zero, ones, has_bit-set_bit, has_bit-union}
use rsproxy.Rules.Action.{Action}
use rsproxy.Rules.Family.{ActionFamily, ordinal}
use rsproxy.Rules.Classify.{family, is_single}
use rsproxy.Rules.FamilySet.{contains, insert, observe, all_set}
use rsproxy.Rules.Model.{ResponseMeta, Captures, MatchedRule, ResolvedAction}
use rsproxy.Rules.Resolve.{
  Resolution, start, action_for_body_availability, same_rule, note_rule, resolved, push_action,
  is_suppressed, offer, offer_available, take_actions,
}
use rsproxy.Rules.Resolve.Offers.{
  covers, takes, blocked, select, noted, rules_of, offer_one, offers,
}

any-append {ℓ} :
    {A : Type ℓ} (p : A → Bool) (xs ys : List A) → any p (xs ++ ys) ≡ (any p xs || any p ys)
unfolding any
any-append p [] ys = refl
any-append p (x ∷ xs) ys = ground (arith, any-append p xs ys)

any-snoc {ℓ} :
    {A : Type ℓ} (p : A → Bool) (xs : List A) (y : A) → any p (xs ++ y ∷ []) ≡ (any p xs || p y)
unfolding any
any-snoc p xs y = any-append p xs (y ∷ []) ∙ ground arith

-- Every family has a flag among the first forty-seven.
all_set-contains : (f : ActionFamily) → contains all_set f ≡ true
unfolding has_bit ones ordinal
all_set-contains ActionFamily.host = refl
all_set-contains ActionFamily.upstream = refl
all_set-contains ActionFamily.direct = refl
all_set-contains ActionFamily.mock = refl
all_set-contains ActionFamily.map_remote = refl
all_set-contains ActionFamily.status = refl
all_set-contains ActionFamily.redirect = refl
all_set-contains ActionFamily.req_header = refl
all_set-contains ActionFamily.res_header = refl
all_set-contains ActionFamily.res_status = refl
all_set-contains ActionFamily.req_method = refl
all_set-contains ActionFamily.req_cookie = refl
all_set-contains ActionFamily.res_cookie = refl
all_set-contains ActionFamily.req_ua = refl
all_set-contains ActionFamily.req_referer = refl
all_set-contains ActionFamily.req_auth = refl
all_set-contains ActionFamily.req_forwarded = refl
all_set-contains ActionFamily.req_type = refl
all_set-contains ActionFamily.req_charset = refl
all_set-contains ActionFamily.res_cors = refl
all_set-contains ActionFamily.res_type = refl
all_set-contains ActionFamily.res_charset = refl
all_set-contains ActionFamily.res_merge = refl
all_set-contains ActionFamily.res_trailer = refl
all_set-contains ActionFamily.attachment = refl
all_set-contains ActionFamily.cache = refl
all_set-contains ActionFamily.tls = refl
all_set-contains ActionFamily.url_rewrite = refl
all_set-contains ActionFamily.url_query = refl
all_set-contains ActionFamily.delete = refl
all_set-contains ActionFamily.req_body_set = refl
all_set-contains ActionFamily.req_body_prepend = refl
all_set-contains ActionFamily.req_body_append = refl
all_set-contains ActionFamily.req_body_replace = refl
all_set-contains ActionFamily.res_body_set = refl
all_set-contains ActionFamily.res_body_prepend = refl
all_set-contains ActionFamily.res_body_append = refl
all_set-contains ActionFamily.res_body_replace = refl
all_set-contains ActionFamily.inject = refl
all_set-contains ActionFamily.delay_req = refl
all_set-contains ActionFamily.delay_res = refl
all_set-contains ActionFamily.throttle_req = refl
all_set-contains ActionFamily.throttle_res = refl
all_set-contains ActionFamily.bypass = refl
all_set-contains ActionFamily.hide = refl
all_set-contains ActionFamily.tag = refl
all_set-contains ActionFamily.skip = refl

-- What is observed of one action.
observe-contains :
    (families : Bits) (action : Action) (f : ActionFamily)
    → contains (observe families action) f ≡ (contains families f || covers f action)
observe-contains families (Action.skip more) f = elim (Bool-cases (is_zero more)) [
  | inl e ↦ rw e (ground (arith, all_set-contains f))
  | inr e ↦ rw e (has_bit-union families more (ordinal f))
]
observe-contains families action f = ground arith

insert-contains :
    (families : Bits) (g f : ActionFamily)
    → contains (insert families g) f ≡ (contains families f || ordinal g == ordinal f)
insert-contains families g f = ground (arith, has_bit-set_bit families (ordinal g) (ordinal f))

-- The loop's variables after some actions were kept.
pub record Tracks (st : Resolution) (kept : List ResolvedAction) : Type 0 where
  pub actions : st.actions ≡ kept
  pub skipped : (f : ActionFamily) → contains st.skip f ≡ any (λ k. covers f k.action) kept
  pub taken : (f : ActionFamily) → contains st.single_families f ≡ any (λ k. takes f k.action) kept
  pub rules : st.matched_rules ≡ rules_of [] kept
  pub seen :
      (brief : MatchedRule)
      → any (same_rule (brief.group, brief.line)) st.seen ≡ noted brief st.matched_rules

-- What is blocked for the loop is blocked by what was kept.
is_suppressed-blocked :
    (st : Resolution) (kept : List ResolvedAction) (action : Action)
    → Tracks st kept
    → is_suppressed action st ≡ blocked kept action
unfolding blocked
is_suppressed-blocked st kept action t =
    ap₂ (λ a b. a || (is_single action && b)) (t.skipped (family action)) (t.taken (family action))

rules_of-append :
    (rules : List MatchedRule) (xs ys : List ResolvedAction)
    → rules_of rules (xs ++ ys) ≡ rules_of (rules_of rules xs) ys
unfolding rules_of
rules_of-append rules [] ys = refl
rules_of-append rules (x ∷ xs) ys =
    rules_of-append (if noted x.rule rules then rules else rules ++ x.rule ∷ []) xs ys

-- The rules after one more action.
note_rule-rules :
    (brief : MatchedRule) (st : Resolution)
    → ((b : MatchedRule) → any (same_rule (b.group, b.line)) st.seen ≡ noted b st.matched_rules)
    → (note_rule brief st).matched_rules
      ≡ (if noted brief st.matched_rules then st.matched_rules else st.matched_rules ++ brief ∷ [])
note_rule-rules brief st h = elim (Bool-cases (noted brief st.matched_rules)) [
  | inl e ↦ rw (h brief ∙ e, e)
  | inr e ↦ rw (h brief ∙ e, e)
]

note_rule-seen :
    (brief : MatchedRule) (st : Resolution)
    → ((b : MatchedRule) → any (same_rule (b.group, b.line)) st.seen ≡ noted b st.matched_rules)
    → (b : MatchedRule)
    → any (same_rule (b.group, b.line)) (note_rule brief st).seen
      ≡ noted b (note_rule brief st).matched_rules
unfolding any
note_rule-seen brief st h b =
    elim (Bool-cases (any (same_rule (brief.group, brief.line)) st.seen)) [
      | inl e ↦ rw e (h b)
      | inr e ↦ rw e (
          ground (
            arith,
            h b,
            any-snoc (λ (m : MatchedRule). same_rule (b.group, b.line) (m.group, m.line))
                st.matched_rules brief,
          ))
    ]

note_rule-actions :
    (brief : MatchedRule) (st : Resolution) → (note_rule brief st).actions ≡ st.actions
note_rule-actions brief st = elim (Bool-cases (any (same_rule (brief.group, brief.line)) st.seen)) [
  | inl e ↦ rw e refl
  | inr e ↦ rw e refl
]

note_rule-skip : (brief : MatchedRule) (st : Resolution) → (note_rule brief st).skip ≡ st.skip
note_rule-skip brief st = elim (Bool-cases (any (same_rule (brief.group, brief.line)) st.seen)) [
  | inl e ↦ rw e refl
  | inr e ↦ rw e refl
]

note_rule-single :
    (brief : MatchedRule) (st : Resolution)
    → (note_rule brief st).single_families ≡ st.single_families
note_rule-single brief st = elim (Bool-cases (any (same_rule (brief.group, brief.line)) st.seen)) [
  | inl e ↦ rw e refl
  | inr e ↦ rw e refl
]

-- The flag of a single family that is taken.
mark-contains :
    (families : Bits) (action : Action) (f : ActionFamily)
    → contains (if is_single action then insert families (family action) else families) f
      ≡ (contains families f || takes f action)
mark-contains families action f = elim (Bool-cases (is_single action)) [
  | inl e ↦ rw e (insert-contains families (family action) f)
  | inr e ↦ rw e (ground arith)
]

push_action-Tracks :
    (found : ResolvedAction) (st : Resolution) (kept : List ResolvedAction)
    → Tracks st kept
    → Tracks (push_action found st) (kept ++ found ∷ [])
unfolding rules_of
push_action-Tracks found st kept t = record {
  actions = ap (λ l. l ++ found ∷ []) (note_rule-actions found.rule st ∙ t.actions);
  skipped = λ f.
      ap (λ s. contains (observe s found.action) f) (note_rule-skip found.rule st)
      ∙ observe-contains st.skip found.action f
      ∙ ap (λ b. b || covers f found.action) (t.skipped f)
      ∙ sym (any-snoc (λ (k : ResolvedAction). covers f k.action) kept found);
  taken = λ f.
      ap (λ s. contains (if is_single found.action then insert s (family found.action) else s) f)
        (note_rule-single found.rule st)
      ∙ mark-contains st.single_families found.action f
      ∙ ap (λ b. b || takes f found.action) (t.taken f)
      ∙ sym (any-snoc (λ (k : ResolvedAction). takes f k.action) kept found);
  rules =
      note_rule-rules found.rule st t.seen
      ∙ ap (λ rules. if noted found.rule rules then rules else rules ++ found.rule ∷ []) t.rules
      ∙ sym (rules_of-append [] kept (found ∷ []));
  seen = note_rule-seen found.rule st t.seen;
}

pub start-Tracks : Tracks start []
unfolding any has_bit rules_of
start-Tracks = record {
  actions = refl;
  skipped = λ f. refl;
  taken = λ f. refl;
  rules = refl;
  seen = λ brief. refl;
}

-- One round of the loop keeps what `select` keeps.
offer-Tracks :
    (found : ResolvedAction) (st : Resolution) (kept : List ResolvedAction)
    → Tracks st kept
    → Tracks (offer found st) (if blocked kept found.action then kept else kept ++ found ∷ [])
unfolding offer
offer-Tracks found st kept t =
    let same = is_suppressed-blocked st kept found.action t in
    elim (Bool-cases (blocked kept found.action)) [
      | inl e ↦ rw (same ∙ e, e) t
      | inr e ↦ rw (same ∙ e, e) (push_action-Tracks found st kept t)
    ]

pub select-append :
    (kept xs ys : List ResolvedAction) → select kept (xs ++ ys) ≡ select (select kept xs) ys
unfolding select
select-append kept [] ys = refl
select-append kept (x ∷ xs) ys =
    select-append (if blocked kept x.action then kept else kept ++ x ∷ []) xs ys

offer_available-Tracks :
    (action : Option Action) (brief : MatchedRule) (captures : Captures)
    (response : Option ResponseMeta) (st : Resolution) (kept : List ResolvedAction)
    → Tracks st kept
    → Tracks
        (offer_available action brief captures response st)
        (select kept (offer_one action brief captures response))
unfolding select
offer_available-Tracks none brief captures response st kept t = t
offer_available-Tracks (some action) brief captures response st kept t =
    offer-Tracks (resolved action brief captures response) st kept t

pub take_actions-Tracks :
    (actions : List Action) (body : Bool) (brief : MatchedRule) (captures : Captures)
    (response : Option ResponseMeta) (st : Resolution) (kept : List ResolvedAction)
    → Tracks st kept
    → Tracks
        (take_actions actions body brief captures response st)
        (select kept (offers actions body brief captures response))
unfolding take_actions offers select
take_actions-Tracks [] body brief captures response st kept t = t
take_actions-Tracks (action ∷ actions) body brief captures response st kept t =
    let available = action_for_body_availability action body in
    let here = offer_one available brief captures response in
    subst (Tracks (take_actions (action ∷ actions) body brief captures response st))
      (sym (select-append kept here (offers actions body brief captures response)))
      (take_actions-Tracks actions body brief captures response
        (offer_available available brief captures response st) (select kept here)
        (offer_available-Tracks available brief captures response st kept t))
