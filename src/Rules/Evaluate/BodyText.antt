-- ===== src/Rules/Evaluate/BodyText.antt =====
-- A condition on the text of the body, through the snapshot's scan.
use rsproxy.Base.{◌≡◌, refl, ap, ◌∙◌, Option, none, some, ℕ}
use rsproxy.Rules.Text.{Str}
use rsproxy.Rules.Model.{Condition, CompiledConditionResources}
use rsproxy.Rules.Engine.{Engines, Lawful}
use rsproxy.Rules.Literals.{literal_id}
use rsproxy.Rules.Literals.Scan.{scan_lem}
use rsproxy.Rules.Conditions.{Context, bind_condition, as_literal, contains_ascii_case_insensitive}
use rsproxy.Rules.Evaluate.{matches_with_compiled, leaf_matches}

as_literal-some :
    (o : Option ℕ) {r : CompiledConditionResources}
    → as_literal o ≡ some r
    → (i : ℕ) × (o ≡ some i) × (r ≡ CompiledConditionResources.body_contains i)
as_literal-some none h = cc
as_literal-some (some i) h = (i, refl, cc)

module _ ⦃E : Engines⦄ where
  -- With the resources that are bound to it, and an automaton that finds exactly what occurs, a body
  -- condition holds exactly when its text occurs in the body, read as UTF-8 with replacements, but
  -- for the case of ASCII letters: the one scan for all texts agrees with a search for the one text.
  pub matches_with_compiled-contains :
      Lawful E
      → (literal : Str) (r : CompiledConditionResources) (context : Context)
      → bind_condition context.globs context.literals (Condition.body_contains literal) ≡ some r
      → matches_with_compiled (Condition.body_contains literal) r context
        ≡ contains_ascii_case_insensitive (E.from_utf8_lossy context.req.body) literal
  unfolding bind_condition matches_with_compiled leaf_matches contains_ascii_case_insensitive
  matches_with_compiled-contains laws literal r context h =
      let (i, e, shape) = as_literal-some (literal_id context.literals literal) h in
      ap (λ x. matches_with_compiled (Condition.body_contains literal) x context) shape
      ∙ scan_lem laws context.literals literal (E.from_utf8_lossy context.req.body) i e
