-- ===== src/Pool/Steps/Counted.antt =====
-- crates/rsproxy-net/src/upstream_pool.rs: the counts of active streams, and the leases that are
-- held.
use rsproxy.Base.{
  ℕ, ◌+◌, ◌<◌, ◌≤◌, ◌≡◌, sym, ◌∙◌, subst, inl, inr, some, List, [], ◌∷◌, ◌++◌, ◌==◌, if◌then◌else◌,
  arith, Bool-cases,
}
use rsproxy.Base.Words.{word_max}
use rsproxy.Base.Assoc.{Unique}
use rsproxy.Pool.Activity.{
  active_for, reserve, release, reserve-active_for, release-active_for, reserve-Unique,
  release-Unique, KeyedActivity,
}
use rsproxy.Pool.Http2.{H2PoolLease}
use rsproxy.Pool.Steps.{count, new_lease}

-- The counts of active streams are those of the leases that are held.
pub record IsCounted (limit : ℕ) (activity : KeyedActivity) (leases : List H2PoolLease)
    : Type 0 where
  pub unique : Unique activity
  pub exact : (key : ℕ) → active_for key activity ≡ count key leases
  pub within : (key : ℕ) → count key leases ≤ limit

count-append :
    (key : ℕ) (xs ys : List H2PoolLease) → count key (xs ++ ys) ≡ count key xs + count key ys
count-append key [] ys = omega arith
count-append key (x ∷ xs) ys = omega (arith, count-append key xs ys)

pub acquire-IsCounted :
    (limit key : ℕ) (activity : KeyedActivity) (leases : List H2PoolLease)
    → limit ≤ word_max
    → active_for key activity < limit
    → IsCounted limit activity leases
    → IsCounted limit (reserve key activity) (new_lease key ∷ leases)
acquire-IsCounted limit key activity leases word room h = record {
  unique = reserve-Unique key activity h.unique;
  exact = λ k. ground (arith, reserve-active_for key k limit activity word room, h.exact k);
  within = λ k. elim (Bool-cases (key == k)) [
    | inl e ↦
        let same : key ≡ k = ground (arith, e) in
        rw e (
          omega
            (arith, subst (λ x. count x leases < limit) same (omega (arith, room, h.exact key))))
    | inr e ↦ rw e (omega (arith, h.within k))
  ];
}

count-middle :
    (k : ℕ) (before : List H2PoolLease) (lease : H2PoolLease) (after : List H2PoolLease)
    → count k (before ++ lease ∷ after)
      ≡ count k (before ++ after) + (if lease.key == k then 1 else 0)
count-middle k before lease after =
    omega (arith, count-append k before (lease ∷ after), count-append k before after)

pub release-IsCounted :
    (limit : ℕ) (activity : KeyedActivity) (before : List H2PoolLease) (lease : H2PoolLease)
    (after : List H2PoolLease)
    → IsCounted limit activity (before ++ lease ∷ after)
    → IsCounted limit (release lease.key activity) (before ++ after)
release-IsCounted limit activity before lease after h = record {
  unique = release-Unique lease.key activity h.unique;
  exact = λ k. ground (
    arith,
    release-active_for lease.key k activity h.unique,
    h.exact k,
    count-middle k before lease after,
  );
  within = λ k. omega (arith, h.within k, count-middle k before lease after);
}

abbrev pub with_claim : H2PoolLease → ℕ → H2PoolLease
with_claim lease generation = record lease { connector_generation = some generation }

count-with_claim :
    (k next : ℕ) (before : List H2PoolLease) (lease : H2PoolLease) (after : List H2PoolLease)
    → count k (before ++ with_claim lease next ∷ after) ≡ count k (before ++ lease ∷ after)
count-with_claim k next before lease after =
    count-middle k before (with_claim lease next) after ∙ sym (count-middle k before lease after)

pub claim-IsCounted :
    (limit next : ℕ) (activity : KeyedActivity) (before : List H2PoolLease) (lease : H2PoolLease)
    (after : List H2PoolLease)
    → IsCounted limit activity (before ++ lease ∷ after)
    → IsCounted limit activity (before ++ with_claim lease next ∷ after)
claim-IsCounted limit next activity before lease after h = record {
  unique = h.unique;
  exact = λ k. h.exact k ∙ sym (count-with_claim k next before lease after);
  within = λ k. omega (arith, h.within k, count-with_claim k next before lease after);
}
