-- ===== src/Rules/Index/Literal.antt =====
-- crates/rsproxy-rules/src/index.rs: `required_regex_literal` against the texts that a pattern
-- matches.
use rsproxy.Base.{
  some-eq, none-ne-some, zero, suc, ◌≡◌, refl, sym, ap, ◌∙◌, subst, ◌⊎◌, inl, inr, true, false,
  Option, none, some, [], ◌++◌, append_assoc, append-nil, arith, Bool-cases, Option-cases,
}
use rsproxy.Rules.Text.{Str, occurs}
use rsproxy.Rules.Text.Laws.{occurs-append}
use rsproxy.Rules.Model.{RegexMatcher, CompiledRegex, Captures}
use rsproxy.Rules.Engine.{
  Engines, Lawful, Hir, Hirs, Spans, SpansAll, SpansWithin, FancyResult, Groups,
}
use rsproxy.Rules.Match.{regex_matches, program_captures, fancy_match}
use rsproxy.Rules.Index.{longer, longest_required, longest_of, long_enough, required_regex_literal}

-- The text holds the literal.
abbrev pub Holds : Str → Str → Type 0
Holds literal s = (front : Str) × (back : Str) × (s ≡ front ++ (literal ++ back))

Holds-append : (literal front s back : Str) → Holds literal s → Holds literal (front ++ (s ++ back))
Holds-append literal front s back (f, b, e) = (
  front ++ f,
  b ++ back,
  ap (λ t. front ++ (t ++ back)) e
      ∙ ap (λ t. front ++ t) (append_assoc f (literal ++ b) back)
      ∙ ap (λ t. front ++ (f ++ t)) (append_assoc literal b back)
      ∙ sym (append_assoc front f (literal ++ (b ++ back))),
)

-- What is held by one part is held by the whole.
Holds-front :
    (literal s front back : Str) → s ≡ front ++ back → Holds literal front → Holds literal s
Holds-front literal s front back e h =
    subst (Holds literal) (sym e) (Holds-append literal [] front back h)

Holds-back : (literal s front back : Str) → s ≡ front ++ back → Holds literal back → Holds literal s
Holds-back literal s front back e h =
    subst (Holds literal) (sym (e ∙ ap (λ t. front ++ t) (sym (append-nil back))))
      (Holds-append literal front back [] h)

longer-cases :
    (a b : Option Str) {literal : Str}
    → longer a b ≡ some literal
    → (a ≡ some literal) ⊎ (b ≡ some literal)
longer-cases none b h = inr h
longer-cases (some s) none h = inl h
longer-cases (some s) (some t) h = ground arith

mutual
  unfolding longest_required

  pub longest_required-Spans :
      (h : Hir) (s literal : Str) → longest_required h ≡ some literal → Spans h s → Holds literal s
  longest_required-Spans (Hir.literal bytes) s literal e same =
      ([], [], same ∙ sym (append-nil bytes) ∙ ap (λ t. t ++ []) (some-eq bytes literal e))
  longest_required-Spans (Hir.capture h) s literal e sp = longest_required-Spans h s literal e sp
  longest_required-Spans (Hir.concat hs) s literal e sp = longest_of-SpansAll hs s literal e sp
  longest_required-Spans (Hir.repetition zero h) s literal e sp = cc
  longest_required-Spans (Hir.repetition (suc n) h) s literal e (front, back, split, sp) =
      Holds-front literal s front back split (longest_required-Spans h front literal e sp)
  longest_required-Spans (Hir.alternation hs) s literal e sp = cc
  longest_required-Spans Hir.opaque s literal e sp = cc

  longest_of-SpansAll :
      (hs : Hirs) (s literal : Str) → longest_of hs ≡ some literal → SpansAll hs s → Holds literal s
  longest_of-SpansAll Hirs.nil s literal e sp = cc
  longest_of-SpansAll (Hirs.cons h hs) s literal e (front, back, split, sp, more) =
      elim (longer-cases (longest_required h) (longest_of hs) e) [
        | inl here ↦
            Holds-front literal s front back split (longest_required-Spans h front literal here sp)
        | inr there ↦
            Holds-back literal s front back split (longest_of-SpansAll hs back literal there more)
      ]

Holds-occurs : (literal s : Str) → Holds literal s → occurs literal s ≡ true
Holds-occurs literal s (front, back, e) =
    subst (λ t. occurs literal t ≡ true) (sym e) (occurs-append front literal back)

-- A fancy regex finds a match, or has no captures.
Fancy-cases :
    ⦃E : Engines⦄ (result : FancyResult)
    → ((groups : Groups) × (result ≡ FancyResult.found groups)) ⊎ (fancy_match result ≡ none)
Fancy-cases (FancyResult.found groups) = inl (groups, refl)
Fancy-cases FancyResult.absent = inr refl
Fancy-cases FancyResult.backtrack_limit = inr refl
Fancy-cases FancyResult.other_error = inr refl

-- What was required of the regex, taken apart.
record Required ⦃E : Engines⦄ (regex : RegexMatcher) (literal : Str) : Type 0 where
  sensitive : regex.case_insensitive ≡ false
  hir : Hir
  parses : E.regex_parse regex.pattern ≡ some hir
  longest : longest_required hir ≡ some literal

module _ ⦃E : Engines⦄ (laws : Lawful E) where
  long_enough-some :
      (o : Option Str) {literal : Str} → long_enough o ≡ some literal → o ≡ some literal
  long_enough-some none h = cc
  long_enough-some (some s) h = ground arith

  needed_parts :
      (regex : RegexMatcher) (literal : Str)
      → required_regex_literal regex ≡ some literal
      → Required regex literal
  unfolding required_regex_literal
  needed_parts regex literal h = elim (Bool-cases regex.case_insensitive) [
    | inl e ↦ absurd (ground arith)
    | inr e ↦ elim (Option-cases (E.regex_parse regex.pattern)) [
      | inl f ↦ absurd (ground arith)
      | inr (hir, f) ↦ record {
        sensitive = e;
        hir = hir;
        parses = f;
        longest = long_enough-some (longest_required hir) (ground arith);
      }
    ]
  ]

  program_captures-SpansWithin :
      (engine : CompiledRegex) (pattern url : Str) (hir : Hir) {captures : Captures}
      → E.regex_parse pattern ≡ some hir
      → program_captures engine pattern false url ≡ some captures
      → SpansWithin hir url
  program_captures-SpansWithin CompiledRegex.linear pattern url hir f k =
      elim (Option-cases (E.linear_captures pattern false url)) [
        | inl g ↦ absurd (ground arith)
        | inr (groups, g) ↦ laws.linear_spans pattern url hir groups f g
      ]
  program_captures-SpansWithin CompiledRegex.fancy pattern url hir f k =
      elim (Fancy-cases (E.fancy_captures pattern false url)) [
        | inl (groups, g) ↦ laws.fancy_spans pattern url hir groups f g
        | inr g ↦ absurd (none-ne-some (sym g ∙ k))
      ]

  matches-SpansWithin :
      (regex : RegexMatcher) (url : Str) (hir : Hir) {captures : Captures}
      → regex.case_insensitive ≡ false
      → E.regex_parse regex.pattern ≡ some hir
      → regex_matches regex url ≡ some captures
      → SpansWithin hir url
  unfolding regex_matches
  matches-SpansWithin regex url hir {captures} e f h =
      program_captures-SpansWithin regex.compiled regex.pattern url hir f
        (subst (λ b. program_captures regex.compiled regex.pattern b url ≡ some captures) e h)

  -- The literal of a regex that matches occurs in the URL.
  pub required_regex_literal-occurs :
      (regex : RegexMatcher) (url literal : Str) {captures : Captures}
      → required_regex_literal regex ≡ some literal
      → regex_matches regex url ≡ some captures
      → occurs literal url ≡ true
  required_regex_literal-occurs regex url literal h m =
      let parts = needed_parts regex literal h in
      let (front, mid, back, e, spans) =
        matches-SpansWithin regex url parts.hir parts.sensitive parts.parses m in
      Holds-occurs literal url (
        subst (Holds literal) (sym e) (
          Holds-append literal front mid back
            (longest_required-Spans parts.hir mid literal parts.longest spans)))
