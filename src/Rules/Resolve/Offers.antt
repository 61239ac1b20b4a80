-- ===== src/Rules/Resolve/Offers.antt =====
-- crates/rsproxy-rules/src/resolve.rs: which actions a resolution takes, as a look back over the
-- ones that were taken before.
use rsproxy.Base.{
  Bool, false, ◌&&◌, ◌||◌, Option, none, some, List, [], ◌∷◌, ◌++◌, ◌==◌, if◌then◌else◌,
}
use rsproxy.Rules.Text.{str_eq, any}
use rsproxy.Rules.Bits.{has_bit, is_zero}
use rsproxy.Rules.Action.{Action}
use rsproxy.Rules.Family.{ActionFamily, ordinal}
use rsproxy.Rules.Classify.{family, is_single, is_stackable}
use rsproxy.Rules.FamilySet.{contains}
use rsproxy.Rules.Model.{ResponseMeta, Captures, MatchedRule, ResolvedAction}
use rsproxy.Rules.Resolve.{action_for_body_availability, same_rule, resolved}

-- A `skip` covers the families that it lists, or all of them if it lists none.
abbrev pub covers : ActionFamily → Action → Bool
covers f (Action.skip families) = is_zero families || contains families f
covers f action = false

abbrev pub takes : ActionFamily → Action → Bool
takes f action = is_single action && ordinal (family action) == ordinal f

-- An action is blocked by an earlier `skip` of its family, and, if one of its family is enough, by
-- an earlier action of the family.
unfoldable pub blocked : List ResolvedAction → Action → Bool
unfolding any family is_stackable ordinal has_bit is_zero
blocked kept action =
    any (λ k. covers (family action) k.action) kept
    || (is_single action && any (λ k. takes (family action) k.action) kept)

-- What is left of a list of actions, given those that were kept before.
unfoldable pub select : List ResolvedAction → List ResolvedAction → List ResolvedAction
unfolding blocked
select kept [] = kept
select kept (found ∷ more) =
    select (if blocked kept found.action then kept else kept ++ found ∷ []) more

abbrev pub noted : MatchedRule → List MatchedRule → Bool
noted brief rules = any (λ m. same_rule (brief.group, brief.line) (m.group, m.line)) rules

-- The rules of the actions, each at its first action, told apart by group and line.
unfoldable pub rules_of : List MatchedRule → List ResolvedAction → List MatchedRule
unfolding any str_eq
rules_of rules [] = rules
rules_of rules (found ∷ more) =
    rules_of (if noted found.rule rules then rules else rules ++ found.rule ∷ []) more

-- The actions that rules offer, in order.
abbrev pub offer_one :
    Option Action → MatchedRule → Captures → Option ResponseMeta → List ResolvedAction
offer_one none brief captures response = []
offer_one (some action) brief captures response = resolved action brief captures response ∷ []

unfoldable pub offers :
    List Action → Bool → MatchedRule → Captures → Option ResponseMeta → List ResolvedAction
unfolding action_for_body_availability
offers [] body brief captures response = []
offers (action ∷ actions) body brief captures response =
    offer_one (action_for_body_availability action body) brief captures response
    ++ offers actions body brief captures response
