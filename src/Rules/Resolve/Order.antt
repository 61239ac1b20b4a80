-- ===== src/Rules/Resolve/Order.antt =====
-- crates/rsproxy-rules/src/resolve.rs: the sorted candidates against the order of all rules by
-- priority.
use rsproxy.Base.Members.{
  Listed, Distinct, Listed-append_left, Listed-append_right, Listed-append_cases,
}
use rsproxy.Base.{
  ℕ, zero, suc, ◌<◌, ◌≡◌, ◌≢◌, refl, sym, ap, ap₂, subst, ◌⊎◌, inl, inr, Bool, true, false, not,
  List, [], ◌∷◌, ◌++◌, arith, Bool-cases, length, filter,
}
use rsproxy.Rules.Model.{Rule}
use rsproxy.Rules.Candidates.{has_number, range}
use rsproxy.Rules.Index.Unique.{has_number-Listed, Listed-has_number}
use rsproxy.Rules.Index.Range.{Listed-range, Listed-range_below, Listed-range_above}
use rsproxy.Rules.Resolve.{important_at, precedes, insert_index, sort_by_priority}

-- Every number with each that follows it.
abbrev Ascending : (ℕ → ℕ → Bool) → List ℕ → Type 0
Ascending before [] = Unit
Ascending before (x ∷ xs) = ((y : ℕ) → Listed y xs → before x y ≡ true) × Ascending before xs

module _ {A : Type 0} where
  pub Listed-filter :
      (p : A → Bool) (x : A) (xs : List A) → Listed x xs → p x ≡ true → Listed x (filter p xs)
  Listed-filter p x [] h e = absurd h
  Listed-filter p x (y ∷ xs) (inl same) e = rw (subst (λ t. p t ≡ true) same e) (inl same)
  Listed-filter p x (y ∷ xs) (inr h) e = elim (Bool-cases (p y)) [
    | inl f ↦ rw f (inr (Listed-filter p x xs h e))
    | inr f ↦ rw f (Listed-filter p x xs h e)
  ]

  pub filter-Listed :
      (p : A → Bool) (x : A) (xs : List A) → Listed x (filter p xs) → Listed x xs × (p x ≡ true)
  filter-Listed p x [] h = absurd h
  filter-Listed p x (y ∷ xs) h = elim (Bool-cases (p y)) [
    | inl f ↦ elim (rw f at h) [
      | inl same ↦ (inl same, subst (λ t. p t ≡ true) (sym same) f)
      | inr l ↦ let (k, e) = filter-Listed p x xs l in (inr k, e)
    ]
    | inr f ↦ let (k, e) = filter-Listed p x xs (rw f at h) in (inr k, e)
  ]

filter-Ascending :
    (before : ℕ → ℕ → Bool) (p : ℕ → Bool) (xs : List ℕ)
    → Ascending before xs
    → Ascending before (filter p xs)
filter-Ascending before p [] a = tt
filter-Ascending before p (x ∷ xs) (first, a) = elim (Bool-cases (p x)) [
  | inl f ↦ rw f (((λ y l. first y (filter-Listed p y xs l).0), filter-Ascending before p xs a))
  | inr f ↦ rw f (filter-Ascending before p xs a)
]

append-Ascending :
    (before : ℕ → ℕ → Bool) (xs ys : List ℕ)
    → Ascending before xs
    → Ascending before ys
    → ((x y : ℕ) → Listed x xs → Listed y ys → before x y ≡ true)
    → Ascending before (xs ++ ys)
append-Ascending before [] ys a b across = b
append-Ascending before (x ∷ xs) ys (first, a) b across = (
  (λ y l. elim (Listed-append_cases y xs ys l) [
    | inl k ↦ first y k
    | inr k ↦ across x y (inl refl) k
  ]),
  append-Ascending before xs ys a b (λ u v l m. across u v (inr l) m),
)

-- Two ascending lists with the same members are equal.
Ascending-unique :
    (before : ℕ → ℕ → Bool)
    → ((x y : ℕ) → before x y ≡ true → before y x ≡ true → ⊥)
    → (xs ys : List ℕ) → Ascending before xs
    → Ascending before ys
    → ((x : ℕ) → Listed x xs → Listed x ys)
    → ((y : ℕ) → Listed y ys → Listed y xs)
    → xs ≡ ys
Ascending-unique before asym [] [] a b sub sup = refl
Ascending-unique before asym [] (y ∷ ys) a b sub sup = absurd (sup y (inl refl))
Ascending-unique before asym (x ∷ xs) [] a b sub sup = absurd (sub x (inl refl))
Ascending-unique before asym (x ∷ xs) (y ∷ ys) (f, a) (g, b) sub sup =
    let same : x ≡ y = heads (sub x (inl refl)) (sup y (inl refl)) in
    ap₂ ◌∷◌ same (
      Ascending-unique before asym xs ys a b
        (λ u l. elim (sub u (inr l)) [
          | inl e ↦
              let uu : before x u ≡ true = f u l in
              absurd (
                asym x u uu (
                  subst (λ t. before u t ≡ true) (sym same)
                    (subst (λ t. before t y ≡ true) (sym e)
                      (subst (λ t. before t y ≡ true) same (subst (λ t. before x t ≡ true) e uu)))))
          | inr m ↦ m
        ])
        (λ u l. elim (sup u (inr l)) [
          | inl e ↦
              let uu : before y u ≡ true = g u l in
              absurd (
                asym y u uu (
                  subst (λ t. before u t ≡ true) same
                    (subst (λ t. before t x ≡ true) (sym e)
                      (subst (λ t. before t x ≡ true) (sym same)
                        (subst (λ t. before y t ≡ true) e uu)))))
          | inr m ↦ m
        ]))
  where
    heads : Listed x (y ∷ ys) → Listed y (x ∷ xs) → x ≡ y
    heads (inl e) l = e
    heads (inr l) (inl e) = sym e
    heads (inr l) (inr m) = absurd (asym x y (f y m) (g x l))

-- All the rules: the important ones, then the others.
abbrev pub prioritized : List Rule → List ℕ
prioritized rules =
    filter (important_at rules) (range 0 (length rules))
    ++ filter (λ i. not (important_at rules i)) (range 0 (length rules))

module _ (rules : List Rule) where
  precedes_asym : (x y : ℕ) → precedes rules x y ≡ true → precedes rules y x ≡ true → ⊥
  unfolding precedes
  precedes_asym x y h k = absurd (ground arith)

  precedes_total : (x y : ℕ) → x ≢ y → precedes rules x y ≡ false → precedes rules y x ≡ true
  unfolding precedes
  precedes_total x y ne h = ground arith

  precedes_trans :
      (x y z : ℕ)
      → precedes rules x y ≡ true
      → precedes rules y z ≡ true
      → precedes rules x z ≡ true
  unfolding precedes
  precedes_trans x y z h k = ground arith

  range-Ascending :
      (p : ℕ → Bool) (start n : ℕ)
      → ((x y : ℕ) → p x ≡ true → p y ≡ true → x < y → precedes rules x y ≡ true)
      → Ascending (precedes rules) (filter p (range start n))
  unfolding range
  range-Ascending p start zero order = tt
  range-Ascending p start (suc n) order = elim (Bool-cases (p start)) [
    | inl e ↦ rw e (
        (
          (λ y l.
              let (k, f) = filter-Listed p y (range (suc start) n) l in
              order start y e f (omega (arith, Listed-range_above y (suc start) n k))),
          range-Ascending p (suc start) n order,
        ))
    | inr e ↦ rw e (range-Ascending p (suc start) n order)
  ]

  prioritized-Ascending : Ascending (precedes rules) (prioritized rules)
  unfolding precedes
  prioritized-Ascending =
      append-Ascending (precedes rules) (filter (important_at rules) (range 0 (length rules)))
        (filter (λ i. not (important_at rules i)) (range 0 (length rules)))
        (range-Ascending (important_at rules) 0 (length rules) (λ x y p q lt. ground arith))
        (range-Ascending (λ i. not (important_at rules i)) 0 (length rules)
          (λ x y p q lt. ground arith))
        (λ x y l m.
          let p = (filter-Listed (important_at rules) x (range 0 (length rules)) l).1 in
          let q =
            (filter-Listed (λ i. not (important_at rules i)) y (range 0 (length rules)) m).1 in
          ground arith)

  Listed-prioritized : (i : ℕ) → i < length rules → Listed i (prioritized rules)
  Listed-prioritized i h =
      let l = Listed-range i 0 (length rules) (omega arith) (omega (arith, h)) in
      elim (Bool-cases (important_at rules i)) [
        | inl e ↦
            Listed-append_left i (filter (important_at rules) (range 0 (length rules)))
              (filter (λ j. not (important_at rules j)) (range 0 (length rules)))
              (Listed-filter (important_at rules) i (range 0 (length rules)) l e)
        | inr e ↦
            Listed-append_right i (filter (important_at rules) (range 0 (length rules)))
              (filter (λ j. not (important_at rules j)) (range 0 (length rules)))
              (Listed-filter (λ j. not (important_at rules j)) i (range 0 (length rules)) l
                (ap not e))
      ]

  pub prioritized_below : (i : ℕ) → Listed i (prioritized rules) → i < length rules
  prioritized_below i h =
      elim (Listed-append_cases i (filter (important_at rules) (range 0 (length rules)))
        (filter (λ j. not (important_at rules j)) (range 0 (length rules))) h) [
          | inl l ↦ omega (
            arith,
            Listed-range_below i 0 (length rules)
                (filter-Listed (important_at rules) i (range 0 (length rules)) l).0,
          )
          | inr l ↦ omega (
            arith,
            Listed-range_below i 0 (length rules)
                (filter-Listed (λ j. not (important_at rules j)) i (range 0 (length rules)) l).0,
          )
        ]

  Listed-insert_index :
      (i x : ℕ) (js : List ℕ) → (x ≡ i) ⊎ Listed x js → Listed x (insert_index rules i js)
  unfolding insert_index
  Listed-insert_index i x [] h = h
  Listed-insert_index i x (j ∷ js) h = elim (Bool-cases (precedes rules j i)) [
    | inl e ↦
        rw (e, insert_index)
          (elim h [
            | inl same ↦ inr (Listed-insert_index i x js (inl same))
            | inr (inl same) ↦ inl same
            | inr (inr l) ↦ inr (Listed-insert_index i x js (inr l))
          ])
    | inr e ↦ rw (e, insert_index) h
  ]

  insert_index-Listed :
      (i x : ℕ) (js : List ℕ) → Listed x (insert_index rules i js) → (x ≡ i) ⊎ Listed x js
  unfolding insert_index
  insert_index-Listed i x [] h = h
  insert_index-Listed i x (j ∷ js) h = elim (Bool-cases (precedes rules j i)) [
    | inl e ↦ elim (rw (e, insert_index) at h) [
      | inl same ↦ inr (inl same)
      | inr l ↦ elim (insert_index-Listed i x js l) [ inl same ↦ inl same | inr m ↦ inr (inr m) ]
    ]
    | inr e ↦ rw (e, insert_index) at h
  ]

  insert_index-Ascending :
      (i : ℕ) (js : List ℕ)
      → ¬ Listed i js
      → Ascending (precedes rules) js
      → Ascending (precedes rules) (insert_index rules i js)
  unfolding insert_index
  insert_index-Ascending i [] fresh a = ((λ y l. absurd l), tt)
  insert_index-Ascending i (j ∷ js) fresh (first, a) = elim (Bool-cases (precedes rules j i)) [
    | inl e ↦
        rw (e, insert_index)
          (
            (λ y l. elim (insert_index-Listed i y js l) [
              | inl same ↦ subst (λ t. precedes rules j t ≡ true) (sym same) e
              | inr m ↦ first y m
            ]),
            insert_index-Ascending i js (λ l. fresh (inr l)) a,
          )
    | inr e ↦
        let ij : precedes rules i j ≡ true = precedes_total j i (λ s. fresh (inl (sym s))) e in
        rw (e, insert_index)
          (
            (λ y l. elim l [
              | inl same ↦ subst (λ t. precedes rules i t ≡ true) (sym same) ij
              | inr m ↦ precedes_trans i j y ij (first y m)
            ]),
            (first, a),
          )
  ]

  pub sort-Listed : (x : ℕ) (is : List ℕ) → Listed x (sort_by_priority rules is) → Listed x is
  unfolding sort_by_priority
  sort-Listed x [] h = h
  sort-Listed x (i ∷ is) h = elim (insert_index-Listed i x (sort_by_priority rules is) h) [
    | inl same ↦ inl same
    | inr l ↦ inr (sort-Listed x is l)
  ]

  Listed-sort : (x : ℕ) (is : List ℕ) → Listed x is → Listed x (sort_by_priority rules is)
  unfolding sort_by_priority
  Listed-sort x [] h = h
  Listed-sort x (i ∷ is) (inl same) = Listed-insert_index i x (sort_by_priority rules is) (inl same)
  Listed-sort x (i ∷ is) (inr l) =
      Listed-insert_index i x (sort_by_priority rules is) (inr (Listed-sort x is l))

  sort-Ascending :
      (is : List ℕ) → Distinct is → Ascending (precedes rules) (sort_by_priority rules is)
  unfolding sort_by_priority
  sort-Ascending [] d = tt
  sort-Ascending (i ∷ is) (fresh, d) =
      insert_index-Ascending i (sort_by_priority rules is) (λ l. fresh (sort-Listed i is l))
        (sort-Ascending is d)

  -- The sorted candidates are the candidates among all rules by priority.
  pub sort_by_priority_lem :
      (is : List ℕ)
      → Distinct is
      → ((i : ℕ) → Listed i is → i < length rules)
      → sort_by_priority rules is ≡ filter (λ i. has_number i is) (prioritized rules)
  sort_by_priority_lem is d below =
      Ascending-unique (precedes rules) precedes_asym (sort_by_priority rules is)
        (filter (λ i. has_number i is) (prioritized rules)) (sort-Ascending is d)
        (filter-Ascending (precedes rules) (λ i. has_number i is) (prioritized rules)
          prioritized-Ascending)
        (λ x l.
          Listed-filter (λ i. has_number i is) x (prioritized rules)
            (Listed-prioritized x (below x (sort-Listed x is l)))
            (Listed-has_number x is (sort-Listed x is l)))
        (λ x l.
          Listed-sort x is (
            has_number-Listed x is
              (filter-Listed (λ i. has_number i is) x (prioritized rules) l).1))
