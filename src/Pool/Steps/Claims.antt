-- ===== src/Pool/Steps/Claims.antt =====
-- crates/rsproxy-net/src/upstream_h2/pool.rs: the claims of connectors, and the leases that hold
-- them.
use rsproxy.Base.Members.{Listed, Listed-append_left, Listed-append_right, Listed-append_cases}
use rsproxy.Base.{
  some-ne-none, ℕ, ◌≡◌, ◌≢◌, refl, sym, ◌∙◌, subst, ◌⊎◌, inl, inr, false, none, some, List, ◌∷◌,
  ◌++◌, ◌==◌, arith, Bool-cases,
}
use rsproxy.Base.Assoc.{
  lookup, insert, remove, Unique, Unique-insert, Unique-remove, lookup-insert, lookup-remove_ne,
  lookup-remove_self,
}
use rsproxy.Pool.Http2.{H2PoolLease, holds}
use rsproxy.Pool.Steps.Counted.{with_claim}

-- A lease of the key holds the claim.
abbrev pub Claimed : ℕ → ℕ → List H2PoolLease → Type 0
Claimed key generation leases =
    (lease : H2PoolLease) × Listed lease leases
    × (lease.key ≡ key)
    × (lease.connector_generation ≡ some generation)

-- Every claim of a connector is held by a lease of its key.
pub record IsClaimed (connecting : List (ℕ × ℕ)) (leases : List H2PoolLease) : Type 0 where
  pub unique : Unique connecting
  pub held :
      (key generation : ℕ) → lookup key connecting ≡ some generation → Claimed key generation leases

holds-ne : (held g : ℕ) → some held ≡ some g → holds (some g) held ≡ false → ⊥
holds-ne held g e h = ground (arith, e, h)

-- A claim is that of the lease in the middle, or another lease has it.
Claimed-middle :
    (k g : ℕ) (before : List H2PoolLease) (lease : H2PoolLease) (after : List H2PoolLease)
    → Claimed k g (before ++ lease ∷ after)
    → ((lease.key ≡ k) × (lease.connector_generation ≡ some g)) ⊎ Claimed k g (before ++ after)
Claimed-middle k g before lease after (m, l, same, gen) =
    elim (Listed-append_cases m before (lease ∷ after) l) [
      | inl b ↦ inr (m, Listed-append_left m before after b, same, gen)
      | inr (inl e) ↦ inl (
        subst (λ (x : H2PoolLease). x.key ≡ k) e same,
        subst (λ (x : H2PoolLease). x.connector_generation ≡ some g) e gen,
      )
      | inr (inr a) ↦ inr (m, Listed-append_right m before after a, same, gen)
    ]

-- Another lease in the middle takes no claim away.
Claimed-widen :
    (k g : ℕ) (before : List H2PoolLease) (lease : H2PoolLease) (after : List H2PoolLease)
    → Claimed k g (before ++ after)
    → Claimed k g (before ++ lease ∷ after)
Claimed-widen k g before lease after (m, l, same, gen) =
    elim (Listed-append_cases m before after l) [
      | inl b ↦ (m, Listed-append_left m before (lease ∷ after) b, same, gen)
      | inr a ↦ (m, Listed-append_right m before (lease ∷ after) (inr a), same, gen)
    ]

-- Removing the entry of a key takes only that key's claim away.
lookup-remove_claim :
    (key k g : ℕ) (m : List (ℕ × ℕ))
    → Unique m
    → lookup k (remove key m) ≡ some g
    → (key ≢ k) × (lookup k m ≡ some g)
lookup-remove_claim key k g m u h = elim (Bool-cases (key == k)) [
  | inl same ↦
      let s : key ≡ k = ground (arith, same) in
      absurd (
        some-ne-none g (subst (λ x. lookup x (remove key m) ≡ some g) (sym s) h)
          (lookup-remove_self key m u))
  | inr other ↦
      let ne : key ≢ k = ground (arith, other) in (ne, sym (lookup-remove_ne key k m ne) ∙ h)
]

pub remove-IsClaimed :
    (key : ℕ) (m : List (ℕ × ℕ)) (leases : List H2PoolLease)
    → IsClaimed m leases
    → IsClaimed (remove key m) leases
remove-IsClaimed key m leases h = record {
  unique = Unique-remove key m h.unique;
  held = λ k g e. h.held k g (lookup-remove_claim key k g m h.unique e).1;
}

-- A lease without a claim leaves.
pub leave-IsClaimed :
    (m : List (ℕ × ℕ)) (before : List H2PoolLease) (lease : H2PoolLease) (after : List H2PoolLease)
    → lease.connector_generation ≡ none
    → IsClaimed m (before ++ lease ∷ after)
    → IsClaimed m (before ++ after)
leave-IsClaimed m before lease after free h = record {
  unique = h.unique;
  held = λ k g e. elim (Claimed-middle k g before lease after (h.held k g e)) [
    | inl (same, gen) ↦ absurd (some-ne-none g gen free)
    | inr c ↦ c
  ];
}

-- A lease with a claim leaves, and the claim is cancelled if it stands.
pub cancelled_removed :
    (m : List (ℕ × ℕ)) (before : List H2PoolLease) (lease : H2PoolLease) (after : List H2PoolLease)
    → IsClaimed m (before ++ lease ∷ after)
    → IsClaimed (remove lease.key m) (before ++ after)
cancelled_removed m before lease after h = record {
  unique = Unique-remove lease.key m h.unique;
  held = λ k g e.
      let (ne, was) = lookup-remove_claim lease.key k g m h.unique e in
      elim (Claimed-middle k g before lease after (h.held k g was)) [
        | inl (same, gen) ↦ absurd (ne same)
        | inr c ↦ c
      ];
}

pub cancelled_kept :
    (m : List (ℕ × ℕ)) (before : List H2PoolLease) (lease : H2PoolLease) (after : List H2PoolLease)
    (generation : ℕ)
    → lease.connector_generation ≡ some generation
    → holds (lookup lease.key m) generation ≡ false
    → IsClaimed m (before ++ lease ∷ after)
    → IsClaimed m (before ++ after)
cancelled_kept m before lease after generation claim stale h = record {
  unique = h.unique;
  held = λ k g e. elim (Claimed-middle k g before lease after (h.held k g e)) [
    | inl (same, gen) ↦
        let mine : lookup lease.key m ≡ some g = subst (λ x. lookup x m ≡ some g) (sym same) e in
        absurd (holds-ne generation g (sym claim ∙ gen) (rw mine at stale))
    | inr c ↦ c
  ];
}

pub claim-IsClaimed :
    (next : ℕ) (m : List (ℕ × ℕ)) (before : List H2PoolLease) (lease : H2PoolLease)
    (after : List H2PoolLease)
    → lease.connector_generation ≡ none
    → IsClaimed m (before ++ lease ∷ after)
    → IsClaimed (insert lease.key next m) (before ++ with_claim lease next ∷ after)
claim-IsClaimed next m before lease after free h = record {
  unique = Unique-insert lease.key next m h.unique;
  held = λ k g e. elim (Bool-cases (lease.key == k)) [
    | inl same ↦ (
      with_claim lease next,
      Listed-append_right (with_claim lease next) before (with_claim lease next ∷ after) (inl refl),
      ground (arith, same),
      ground (arith, lookup-insert lease.key k next m, same, e),
    )
    | inr other ↦
        let was : lookup k m ≡ some g =
          ground (arith, lookup-insert lease.key k next m, other, e) in
        elim (Claimed-middle k g before lease after (h.held k g was)) [
          | inl (own, gen) ↦ absurd (some-ne-none g gen free)
          | inr c ↦ Claimed-widen k g before (with_claim lease next) after c
        ]
  ];
}
