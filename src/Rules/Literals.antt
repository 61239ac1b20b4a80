-- ===== src/Rules/Literals.antt =====
-- crates/rsproxy-rules/src/index.rs: `CompiledBodyContainsSet`, the texts that conditions look for in
-- request bodies, found in one pass that ignores the case of ASCII letters. A `BTreeSet` is a
-- list in ascending order.
pub mod Scan
use rsproxy.Base.{
  ℕ, zero, suc, ◌+◌, ◌-◌, Bool, true, false, Option, none, some, List, [], ◌∷◌, ◌++◌, map, ◌==◌,
  ◌||◌, if◌then◌else◌, length, get_elem?,
}
use rsproxy.Rules.Text.{Str, str_eq, is_empty, any, str_lt, to_ascii_lowercase}
use rsproxy.Rules.Model.{Condition, Conditions, Rule}
use rsproxy.Rules.Engine.{Engines}
use rsproxy.Rules.Glob.{for_each_node, for_each_child}

-- `BTreeSet::insert`: a new text stands before the first that is greater.
unfoldable pub insert_sorted : Str → List Str → List Str
unfolding str_lt
insert_sorted text [] = text ∷ []
insert_sorted text (t ∷ ts) = if str_lt text t then text ∷ t ∷ ts else t ∷ insert_sorted text ts

unfoldable pub insert_text : Str → List Str → List Str
unfolding any str_eq insert_sorted
insert_text text texts = if any (str_eq text) texts then texts else insert_sorted text texts

abbrev pub collect_node : Condition → List Str → Option (List Str)
collect_node (Condition.body_contains literal) literals = some (insert_text literal literals)
collect_node _ literals = some literals

unfoldable pub collect_rules : List Rule → List Str → Option (List Str)
unfolding for_each_child insert_text
collect_rules [] literals = some literals
collect_rules (rule ∷ rules) literals =
    elim (for_each_child collect_node rule.conditions literals) [
      | none ↦ none
      | some more ↦ collect_rules rules more
    ]

unfoldable pub insert_all : List Str → List Str → List Str
unfolding insert_text
insert_all [] texts = texts
insert_all (text ∷ more) texts = insert_all more (insert_text text texts)

abbrev pub next : Option ℕ → Option ℕ
next none = none
next (some i) = some (suc i)

-- The position of a text.
unfoldable pub position : Str → List Str → Option ℕ
unfolding str_eq
position text [] = none
position text (t ∷ ts) =
    let later = next (position text ts) in if str_eq t text then some 0 else later

-- The texts in lower case, and those that were written; `literal_ids` gives a text that was written
-- the position of its lower-case form. Without texts there is no automaton.
pub record CompiledBodyContainsSet : Type 0 where
  pub literals : List Str
  pub sources : List Str

unfoldable pub from_literals : List Str → CompiledBodyContainsSet
unfolding insert_all
from_literals sources = record {
  literals = insert_all (map to_ascii_lowercase sources) [];
  sources = sources;
}

-- `id`.
unfoldable pub literal_id : CompiledBodyContainsSet → Str → Option ℕ
unfolding any str_eq position
literal_id set literal =
    if any (str_eq literal) set.sources
    then position (to_ascii_lowercase literal) set.literals
    else none

-- `matched[i] = true`, and whether it was not.
unfoldable pub mark : ℕ → List Bool → List Bool
mark i [] = []
mark zero (b ∷ bs) = true ∷ bs
mark (suc i) (b ∷ bs) = b ∷ mark i bs

unfoldable pub is_marked : ℕ → List Bool → Bool
is_marked i [] = false
is_marked zero (b ∷ bs) = b
is_marked (suc i) (b ∷ bs) = is_marked i bs

-- The loop of `scan` over the matches, with so many texts not seen yet: it ends early when the last
-- one is seen.
unfoldable pub scan_loop : List ℕ → ℕ → List Bool → List Bool
unfolding mark is_marked
scan_loop [] remaining matched = matched
scan_loop (i ∷ found) remaining matched =
    let again = scan_loop found remaining matched in
    let more = scan_loop found (remaining - 1) (mark i matched) in
    if is_marked i matched then again else if remaining - 1 == 0 then mark i matched else more

abbrev pub unseen : List Str → List Bool
unseen [] = []
unseen (t ∷ ts) = false ∷ unseen ts

module _ ⦃E : Engines⦄ where
  -- `CompiledBodyContainsSet::build`; `none` is the panic of the `expect` on the automaton.
  unfoldable pub build_literals : List Rule → Option CompiledBodyContainsSet
  unfolding collect_rules from_literals
  build_literals rules = elim (collect_rules rules []) [
    | none ↦ none
    | some sources ↦
        let set = from_literals sources in
        if is_empty set.literals || E.automaton_builds_insensitive set.literals
        then some set
        else none
  ]

  unfoldable pub scan : CompiledBodyContainsSet → Str → List Bool
  unfolding scan_loop
  scan set text =
      if is_empty set.literals
      then unseen set.literals
      else scan_loop (E.find_overlapping_insensitive set.literals text) (length set.literals)
          (unseen set.literals)
