-- ===== src/Rules/FamilySet.antt =====
-- crates/rsproxy-rules/src/matcher/action.rs, `ActionFamilySet`, and family.rs: sets of families,
-- and what `skip` suppresses.
use rsproxy.Base.{Bool, false, ◌||◌, Option, none, some, List, [], ◌∷◌, if◌then◌else◌}
use rsproxy.Rules.Text.{Str, codes, str_eq, is_empty, strip_prefix, starts_with}
use rsproxy.Rules.Bits.{Bits, has_bit, set_bit, union, is_zero, ones}
use rsproxy.Rules.Action.{Action}
use rsproxy.Rules.Family.{ActionFamily, ordinal, all_families, as_str}
use rsproxy.Rules.Classify.{family}

-- `ActionFamilySet`: `contains`, `insert`, `union`, `is_empty`, `ALL` and `iter`.
abbrev pub contains : Bits → ActionFamily → Bool
contains families family = has_bit families (ordinal family)

abbrev pub insert : Bits → ActionFamily → Bits
insert families family = set_bit families (ordinal family)

abbrev pub all_set : Bits
all_set = ones 47

unfoldable pub within : Bits → List ActionFamily → List ActionFamily
unfolding has_bit ordinal
within families [] = []
within families (f ∷ fs) =
    let rest = within families fs in if contains families f then f ∷ rest else rest

-- `family_within`: the family itself, or one below it.
unfoldable pub family_within : Str → Str → Bool
unfolding strip_prefix
family_within name prefix = elim (strip_prefix prefix name) [
  | none ↦ false
  | some suffix ↦ is_empty suffix || starts_with (b'.' ∷ []) suffix
]

unfoldable pub add_within : Str → Bits → List ActionFamily → Bits
unfolding family_within as_str set_bit ordinal
add_within prefix families [] = families
add_within prefix families (f ∷ fs) =
    add_within prefix (if family_within (as_str f) prefix then insert families f else families) fs

-- `from_prefix`.
unfoldable pub from_prefix : Str → Option Bits
unfolding str_eq add_within is_zero ones
from_prefix prefix =
    if str_eq prefix (codes "all") || str_eq prefix (codes "*")
    then some all_set
    else (let families = add_within prefix [] all_families in
        if is_zero families then none else some families)

-- `SkipState` is the set of its families: `suppresses` is `contains`.
abbrev pub observe : Bits → Action → Bits
observe families (Action.skip more) = if is_zero more then all_set else union families more
observe families action = families

-- `effective_actions`: the actions of a rule that its own `skip` leaves.
unfoldable pub effective_actions : Bits → List Action → List Action
unfolding family ordinal has_bit union is_zero ones
effective_actions families [] = []
effective_actions families (action ∷ actions) =
    let rest = effective_actions families actions in
    let kept = action ∷ effective_actions (observe families action) actions in
    if contains families (family action) then rest else kept
