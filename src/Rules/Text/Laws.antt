-- ===== src/Rules/Text/Laws.antt =====
-- Facts on the string methods that the rule engine calls.
use mathlib.Core.List.{reverse, reverse-append, reverse-reverse}
use rsproxy.Base.{
  ◌≡◌, refl, sym, ap, ap₂, ◌∙◌, ◌↔◌, true, none, some, [], ◌∷◌, ◌++◌, ◌==◌, ==_iff, arith,
  Bool-cases, Option-cases, inl, inr, subst,
}
use rsproxy.Rules.Text.{Str, str_eq, strip_prefix, strip_suffix, occurs}

pub str_eq-eq : (s t : Str) → str_eq s t ≡ true → s ≡ t
unfolding str_eq
str_eq-eq [] [] h = refl
str_eq-eq [] (b ∷ t) h = cc
str_eq-eq (a ∷ s) [] h = cc
str_eq-eq (a ∷ s) (b ∷ t) h = ground (arith, str_eq-eq s t)

pub str_eq_self : (s : Str) → str_eq s s ≡ true
unfolding str_eq
str_eq_self [] = refl
str_eq_self (a ∷ s) = ground (arith, str_eq_self s)

pub str_eq_iff : (s t : Str) → (str_eq s t ≡ true) ↔ (s ≡ t)
str_eq_iff s t = (str_eq-eq s t, λ e. subst (λ u. str_eq s u ≡ true) e (str_eq_self s))

-- What is stripped is what stood in front.
pub strip_prefix-eq : (p s : Str) {rest : Str} → strip_prefix p s ≡ some rest → s ≡ p ++ rest
unfolding strip_prefix
strip_prefix-eq [] s h = cc
strip_prefix-eq (a ∷ p) [] h = cc
strip_prefix-eq (a ∷ p) (b ∷ s) h = elim (Bool-cases (a == b)) [
  | inl same ↦ ap₂ ◌∷◌ (sym ((==_iff a b).0 same)) (strip_prefix-eq p s (rw (same) at h))
  | inr other ↦ absurd (none-ne-some (rw (other) at h))
]
  where
    none-ne-some : {x : Str} → none ≡ some x → ⊥
    none-ne-some e = cc

pub strip_prefix-append : (p s : Str) → strip_prefix p (p ++ s) ≡ some s
unfolding strip_prefix
strip_prefix-append [] s = refl
strip_prefix-append (a ∷ p) s = ground (arith, strip_prefix-append p s)

pub strip_suffix-eq : (p s : Str) {front : Str} → strip_suffix p s ≡ some front → s ≡ front ++ p
unfolding strip_suffix
strip_suffix-eq p s {front} h = elim (Option-cases (strip_prefix (reverse p) (reverse s))) [
  | inl e ↦ absurd (none-ne-some (rw e at h))
  | inr (r, found) ↦
      let e : reverse s ≡ reverse p ++ r = strip_prefix-eq (reverse p) (reverse s) found in
      let f : some (reverse r) ≡ some front = rw found at h in
      let g : reverse r ≡ front = cc in
      sym (reverse-reverse s)
      ∙ ap reverse e
      ∙ reverse-append (reverse p) r
      ∙ ap₂ ◌++◌ g (reverse-reverse p)
]
  where
    none-ne-some : {x : Str} → none ≡ some x → ⊥
    none-ne-some e = cc

-- A text occurs where it stands.
pub occurs-append : (front mid back : Str) → occurs mid (front ++ (mid ++ back)) ≡ true
unfolding occurs
occurs-append [] [] [] = refl
occurs-append [] [] (b ∷ back) = refl
occurs-append [] (a ∷ mid) back = ground (arith, strip_prefix-append (a ∷ mid) back)
occurs-append (a ∷ front) mid back = ground (arith, occurs-append front mid back)
