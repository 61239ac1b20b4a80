-- ===== src/Rules/Tests.antt =====
-- The rule engine on concrete inputs, with engines that treat every pattern as a literal text.
mod Resolve
use rsproxy.Base.Members.{Listed}
use rsproxy.Base.{
  plus_zero, plus_suc, zero_plus, ℕ, zero, suc, ◌+◌, ◌<◌, ◌≡◌, refl, sym, ap, ◌∙◌, subst, ◌⊎◌, inl,
  inr, Bool, true, false, Option, none, some, List, [], ◌∷◌, ◌++◌, if◌then◌else◌, arith, Bool-cases,
  Option-cases, get_elem?, length, ◌≤◌,
}
use rsproxy.Rules.Text.{Str, occurs, to_ascii_lowercase, strip_prefix, is_empty, starts_with}
use rsproxy.Rules.Text.Laws.{strip_prefix-eq}
use rsproxy.Rules.Engine.{Engines, Lawful, Groups, FancyResult, Hir, SpansWithin}

-- The numbers, from `k` on, of the patterns that a test picks.
unfoldable pub picked : (Str → Bool) → ℕ → List Str → List ℕ
picked test k [] = []
picked test k (p ∷ ps) = let rest = picked test (suc k) ps in if test p then k ∷ rest else rest

abbrev literal_groups : Str → Bool → Option Groups
literal_groups pattern true =
    some (record { indexed = some pattern ∷ []; names = []; by_name = λ name. none })
literal_groups pattern false = none

abbrev found_ignoring_case : Str → Str → Bool
found_ignoring_case text pattern = occurs (to_ascii_lowercase pattern) (to_ascii_lowercase text)

instance abbrev pub literal_engines : Engines
literal_engines = record {
  linear_builds = λ source. true;
  linear_is_match = λ program text. occurs program text;
  linear_captures = λ pattern flag text. literal_groups pattern (occurs pattern text);
  fancy_captures = λ pattern flag text. FancyResult.absent;
  is_meta_character = λ b. false;
  regex_parse = λ pattern. some (Hir.literal pattern);
  automaton_builds = λ patterns. true;
  find_overlapping = λ patterns text. picked (λ p. occurs p text) 0 patterns;
  automaton_builds_insensitive = λ patterns. true;
  find_overlapping_insensitive = λ patterns text. picked (found_ignoring_case text) 0 patterns;
  is_utf8 = λ bytes. true;
  from_utf8_lossy = λ bytes. bytes;
  env_var = λ name. none;
  socket_ip = λ text. none;
  is_ipv6 = λ text. false;
  trim = λ text. text;
}

picked_above : (test : Str → Bool) (k i : ℕ) (ps : List Str) → Listed i (picked test k ps) → k ≤ i
unfolding picked
picked_above test k i [] l = absurd l
picked_above test k i (p ∷ ps) l = elim (Bool-cases (test p)) [
  | inl e ↦ elim (rw (e, picked) at l) [
    | inl same ↦ omega (arith, same)
    | inr m ↦ omega (arith, picked_above test (suc k) i ps m)
  ]
  | inr e ↦ omega (arith, picked_above test (suc k) i ps (rw (e, picked) at l))
]

picked_below :
    (test : Str → Bool) (k i : ℕ) (ps : List Str) → Listed i (picked test k ps) → i < k + length ps
unfolding picked
picked_below test k i [] l = absurd l
picked_below test k i (p ∷ ps) l = elim (Bool-cases (test p)) [
  | inl e ↦ elim (rw (e, picked) at l) [
    | inl same ↦ omega (arith, same)
    | inr m ↦ omega (arith, picked_below test (suc k) i ps m)
  ]
  | inr e ↦ omega (arith, picked_below test (suc k) i ps (rw (e, picked) at l))
]

Listed-picked :
    (test : Str → Bool) (k i : ℕ) (ps : List Str) (p : Str)
    → get_elem? ps i ≡ some p
    → test p ≡ true
    → Listed (k + i) (picked test k ps)
unfolding picked
Listed-picked test k i [] p h t = cc
Listed-picked test k zero (q ∷ ps) p h t =
    let same : p ≡ q = cc in rw (subst (λ x. test x ≡ true) same t, picked) (inl (omega arith))
Listed-picked test k (suc i) (q ∷ ps) p h t =
    let rest =
      subst (λ n. Listed n (picked test (suc k) ps)) (sym (plus_suc k i))
        (Listed-picked test (suc k) i ps p h t) in
    elim (Bool-cases (test q)) [ inl e ↦ rw (e, picked) (inr rest) | inr e ↦ rw (e, picked) rest ]

picked-Listed :
    (test : Str → Bool) (k i : ℕ) (ps : List Str) (p : Str)
    → get_elem? ps i ≡ some p
    → Listed (k + i) (picked test k ps)
    → test p ≡ true
unfolding picked
picked-Listed test k i [] p h l = cc
picked-Listed test k zero (q ∷ ps) p h l = elim (Bool-cases (test q)) [
  | inl e ↦ let same : q ≡ p = cc in subst (λ x. test x ≡ true) same e
  | inr e ↦ absurd (omega (arith, picked_above test (suc k) (k + 0) ps (rw (e, picked) at l)))
]
picked-Listed test k (suc i) (q ∷ ps) p h l = elim (Bool-cases (test q)) [
  | inl e ↦ elim (rw (e, picked) at l) [
    | inl same ↦ absurd (omega (arith, same))
    | inr m ↦
        picked-Listed test (suc k) i ps p h
          (subst (λ n. Listed n (picked test (suc k) ps)) (plus_suc k i) m)
  ]
  | inr e ↦
      picked-Listed test (suc k) i ps p h
        (subst (λ n. Listed n (picked test (suc k) ps)) (plus_suc k i) (rw (e, picked) at l))
]

empty_lem : (p : Str) → is_empty p ≡ true → p ≡ []
empty_lem [] h = refl
empty_lem (b ∷ p) h = cc

starts_with-split : (p s : Str) → starts_with p s ≡ true → (back : Str) × (s ≡ p ++ back)
starts_with-split p s h = elim (Option-cases (strip_prefix p s)) [
  | inl e ↦ absurd (false-ne-true (rw e at h))
  | inr (back, e) ↦ (back, strip_prefix-eq p s e)
]
  where
    false-ne-true : false ≡ true → ⊥
    false-ne-true c = cc

occurs-split :
    (p s : Str) → occurs p s ≡ true → (front : Str) × (back : Str) × (s ≡ front ++ (p ++ back))
unfolding occurs
occurs-split p [] h = ([], [], ap (λ t. t ++ []) (sym (empty_lem p h)))
occurs-split p (b ∷ s) h = elim (Bool-cases (starts_with p (b ∷ s))) [
  | inl e ↦ let (back, split) = starts_with-split p (b ∷ s) e in ([], back, split)
  | inr e ↦
      let (front, back, split) = occurs-split p s (ground arith) in
      (b ∷ front, back, ap (◌∷◌ b) split)
]

literal_spans :
    (pattern text : Str) (hir : Hir) (groups : Groups)
    → some (Hir.literal pattern) ≡ some hir
    → literal_groups pattern (occurs pattern text) ≡ some groups
    → SpansWithin hir text
literal_spans pattern text hir groups h g = elim (Bool-cases (occurs pattern text)) [
  | inr e ↦ absurd (none-ne-some (rw e at g))
  | inl e ↦
      let (front, back, split) = occurs-split pattern text e in
      let same : Hir.literal pattern ≡ hir = cc in
      subst (λ x. SpansWithin x text) same (front, pattern, back, split, refl)
]
  where
    none-ne-some : none ≡ some groups → ⊥
    none-ne-some c = cc

absent-ne-found : {groups : Groups} → FancyResult.absent ≡ FancyResult.found groups → ⊥
absent-ne-found e = cc

-- What is relied on can hold.
pub literal_engines-Lawful : Lawful literal_engines
literal_engines-Lawful = record {
  finds = λ patterns text i pattern b at_i o.
      subst (λ n. Listed n (picked (λ p. occurs p text) 0 patterns)) (sym (zero_plus i))
        (Listed-picked (λ p. occurs p text) 0 i patterns pattern at_i o);
  finds_insensitive = λ patterns text i pattern at_i o.
      subst (λ n. Listed n (picked (found_ignoring_case text) 0 patterns)) (sym (zero_plus i))
        (Listed-picked (found_ignoring_case text) 0 i patterns pattern at_i o);
  finds_only = λ patterns text i pattern at_i l.
      picked-Listed (found_ignoring_case text) 0 i patterns pattern at_i
        (subst (λ n. Listed n (picked (found_ignoring_case text) 0 patterns)) (zero_plus i) l);
  finds_below =
      λ patterns text i l. omega (arith, picked_below (found_ignoring_case text) 0 i patterns l);
  linear_spans = λ pattern text hir groups h g. literal_spans pattern text hir groups h g;
  fancy_spans = λ pattern text hir groups h g. absurd (absent-ne-found g);
}
