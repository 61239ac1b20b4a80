-- ===== src/Base/Members.antt =====
-- Membership in a list as a predicate by recursion, and lists without repetitions.
use Prim.Native.Nat.{suc, ◌≤◌}
use mathlib.Core.Path.{◌≡◌, refl, sym, ap, ◌∙◌, subst}
use mathlib.Core.Logic.{◌⊎◌, inl, inr}
use mathlib.Core.List.{List, [], ◌∷◌, ◌++◌}
use native.Mathlib.Omega.{arith}
use rsproxy.Base.Lists.{length}

module _ {A : Type 0} where
  abbrev pub Listed : A → List A → Type 0
  Listed x [] = ⊥
  Listed x (y ∷ ys) = (x ≡ y) ⊎ Listed x ys

  -- No element occurs twice.
  abbrev pub Distinct : List A → Type 0
  Distinct [] = Unit
  Distinct (x ∷ xs) = ¬ Listed x xs × Distinct xs

module _ {A : Type 0} where
  pub Listed-append_left : (x : A) (xs ys : List A) → Listed x xs → Listed x (xs ++ ys)
  Listed-append_left x [] ys h = absurd h
  Listed-append_left x (z ∷ xs) ys (inl e) = inl e
  Listed-append_left x (z ∷ xs) ys (inr h) = inr (Listed-append_left x xs ys h)

  pub Listed-append_right : (x : A) (xs ys : List A) → Listed x ys → Listed x (xs ++ ys)
  Listed-append_right x [] ys h = h
  Listed-append_right x (z ∷ xs) ys h = inr (Listed-append_right x xs ys h)

  pub Listed-append_cases :
      (x : A) (xs ys : List A) → Listed x (xs ++ ys) → Listed x xs ⊎ Listed x ys
  Listed-append_cases x [] ys h = inr h
  Listed-append_cases x (z ∷ xs) ys (inl e) = inl (inl e)
  Listed-append_cases x (z ∷ xs) ys (inr h) = elim (Listed-append_cases x xs ys h) [
    | inl k ↦ inl (inr k)
    | inr k ↦ inr k
  ]

  pub Distinct-snoc : (xs : List A) (x : A) → Distinct xs → ¬ Listed x xs → Distinct (xs ++ x ∷ [])
  Distinct-snoc [] x d fresh = ((λ h. h), tt)
  Distinct-snoc (y ∷ xs) x (here, d) fresh = (
    (λ h. elim (Listed-append_cases y xs (x ∷ []) h) [
      | inl k ↦ here k
      | inr (inl e) ↦ fresh (inl (sym e))
      | inr (inr k) ↦ k
    ]),
    Distinct-snoc xs x d (λ h. fresh (inr h)),
  )

  -- The list without one occurrence of a member.
  without :
      (x : A) (ys : List A)
      → Listed x ys
      → (zs : List A) × (length ys ≡ suc (length zs))
        × ((y : A) → Listed y ys → (y ≡ x) ⊎ Listed y zs)
  without x [] h = absurd h
  without x (z ∷ ys) (inl e) = (ys, refl, λ y k. elim k [ inl f ↦ inl (f ∙ sym e) | inr l ↦ inr l ])
  without x (z ∷ ys) (inr h) =
      let (zs, size, covers) = without x ys h in
      (
        z ∷ zs,
        ap suc size,
        λ y k. elim k [
          | inl f ↦ inr (inl f)
          | inr l ↦ elim (covers y l) [ inl f ↦ inl f | inr m ↦ inr (inr m) ]
        ],
      )

  -- Distinct members of a list that is no longer than they are many are all of its members.
  pub Distinct-covers :
      (xs ys : List A)
      → Distinct xs
      → ((x : A) → Listed x xs → Listed x ys)
      → length ys ≤ length xs
      → (y : A) → Listed y ys
      → Listed y xs
  Distinct-covers [] [] d within size y h = h
  Distinct-covers [] (z ∷ ys) d within size y h = absurd (omega (arith, size))
  Distinct-covers (x ∷ xs) ys (here, d) within size y h =
      let (zs, count, covers) = without x ys (within x (inl refl)) in
      elim (covers y h) [
        | inl e ↦ inl e
        | inr k ↦ inr (
            Distinct-covers xs zs d
              (λ u l. elim (covers u (within u (inr l))) [
                | inl e ↦ absurd (here (subst (λ t. Listed t xs) e l))
                | inr m ↦ m
              ])
              (omega (arith, count, size)) y k)
      ]
