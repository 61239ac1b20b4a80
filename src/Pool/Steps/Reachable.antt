-- ===== src/Pool/Steps/Reachable.antt =====
-- crates/rsproxy-net/src/upstream_h2: the states of the pool that its threads reach.
use rsproxy.Base.{
  none-ne-some, ℕ, ◌≤◌, ◌≡◌, refl, sym, subst, inl, inr, Option, none, some, List, ◌∷◌, ◌++◌, arith,
  Option-cases, Bool-cases, ltb, leb,
}
use rsproxy.Base.Words.{word_max}
use rsproxy.Base.Assoc.{lookup}
use rsproxy.Pool.Activity.{active_for}
use rsproxy.Pool.Http2.{
  H2Pool, H2PoolLease, PoolEntry, get, claim_connector, cancel_connector, holds, drop_lease,
  wait_round, remove_if_generation, evict_round, after_wait, after_get, after_claim,
}
use rsproxy.Pool.Http2.Order.{IsOrdered}
use rsproxy.Pool.Http2.Kept.{
  IsTidied, get-IsTidied, remove_if_generation-IsTidied, evict_round-IsTidied, after_wait-IsTidied,
  insert_entry-IsOrdered,
}
use rsproxy.Pool.Steps.{
  Upstream, initial, Step, Reach, probe, acquire, wait, wake, connect, discard, sweep, finish,
  start, step, waited,
}
use rsproxy.Pool.Steps.Counted.{IsCounted, acquire-IsCounted, release-IsCounted, claim-IsCounted}
use rsproxy.Pool.Steps.Claims.{
  IsClaimed, remove-IsClaimed, leave-IsClaimed, cancelled_removed, cancelled_kept, claim-IsClaimed,
}

pub record IsSound (limit : ℕ) (s : Upstream) : Type 0 where
  pub ordered : IsOrdered s.pool
  pub counted : IsCounted limit s.pool.activity s.leases
  pub claimed : IsClaimed s.pool.connecting s.leases

-- A pool that an operation on the connections tidied.
tidied-IsSound :
    (limit : ℕ) (s : Upstream) (pool : H2Pool)
    → IsSound limit s
    → IsTidied s.pool pool
    → IsSound limit (record s { pool = pool })
tidied-IsSound limit s pool h t = record {
  ordered = t.ordered;
  counted = subst (λ a. IsCounted limit a s.leases) (sym t.activity) h.counted;
  claimed = subst (λ c. IsClaimed c s.leases) (sym t.connecting) h.claimed;
}

finish-IsSound :
    (limit next : ℕ) (pool : H2Pool) (before : List H2PoolLease) (lease : H2PoolLease)
    (after : List H2PoolLease)
    → IsOrdered pool
    → IsCounted limit pool.activity (before ++ lease ∷ after)
    → IsClaimed pool.connecting (before ++ lease ∷ after)
    → IsSound limit
        (record { pool = drop_lease lease pool; next_generation = next; leases = before ++ after })
unfolding drop_lease cancel_connector
finish-IsSound limit next pool before lease after o c h =
    elim (Option-cases lease.connector_generation) [
      | inl e ↦
          rw (e, drop_lease)
            (record {
              ordered = record { matches = o.matches; small = o.small };
              counted = release-IsCounted limit pool.activity before lease after c;
              claimed = leave-IsClaimed pool.connecting before lease after e h;
            })
      | inr (g, e) ↦ elim (Bool-cases (holds (lookup lease.key pool.connecting) g)) [
        | inl mine ↦
            rw (e, mine, drop_lease, cancel_connector)
              (record {
                ordered = record { matches = o.matches; small = o.small };
                counted = release-IsCounted limit pool.activity before lease after c;
                claimed = cancelled_removed pool.connecting before lease after h;
              })
        | inr stale ↦
            rw (e, stale, drop_lease, cancel_connector)
              (record {
                ordered = record { matches = o.matches; small = o.small };
                counted = release-IsCounted limit pool.activity before lease after c;
                claimed = cancelled_kept pool.connecting before lease after g e stale h;
              })
      ]
    ]

claimed-IsSound :
    (limit next later timeout : ℕ) (pool : H2Pool) (before : List H2PoolLease) (lease : H2PoolLease)
    (after : List H2PoolLease)
    → lease.connector_generation ≡ none
    → IsOrdered pool
    → IsCounted limit pool.activity (before ++ lease ∷ after)
    → IsClaimed pool.connecting (before ++ lease ∷ after)
    → IsSound limit (
        waited before lease after (after_claim later timeout (claim_connector lease.key next pool)))
unfolding claim_connector
claimed-IsSound limit next later timeout pool before lease after free o c h =
    elim (Option-cases (lookup lease.key pool.connecting)) [
      | inr (g, e) ↦ elim (Bool-cases (ltb timeout later)) [
        | inl over ↦
            rw (e, over, claim_connector) (record { ordered = o; counted = c; claimed = h })
        | inr time ↦
            rw (e, time, claim_connector) (record { ordered = o; counted = c; claimed = h })
      ]
      | inl e ↦
          rw (e, claim_connector)
            (record {
              ordered = record { matches = o.matches; small = o.small };
              counted = claim-IsCounted limit next pool.activity before lease after c;
              claimed = claim-IsClaimed next pool.connecting before lease after free h;
            })
    ]

got-IsSound :
    (limit elapsed later timeout next : ℕ) (before : List H2PoolLease) (lease : H2PoolLease)
    (after : List H2PoolLease) (got : H2Pool × Option PoolEntry)
    → lease.connector_generation ≡ none
    → IsOrdered got.0
    → IsCounted limit got.0.activity (before ++ lease ∷ after)
    → IsClaimed got.0.connecting (before ++ lease ∷ after)
    → IsSound limit (waited before lease after (after_get lease.key elapsed later timeout next got))
got-IsSound limit elapsed later timeout next before lease after (pool, some entry) free o c h =
    record { ordered = o; counted = c; claimed = h }
got-IsSound limit elapsed later timeout next before lease after (pool, none) free o c h =
    elim (Bool-cases (leb timeout elapsed)) [
      | inl over ↦ rw over (record { ordered = o; counted = c; claimed = h })
      | inr time ↦
          rw time (claimed-IsSound limit next later timeout pool before lease after free o c h)
    ]

wait-IsSound :
    (limit now elapsed later timeout next : ℕ) (pool : H2Pool) (before : List H2PoolLease)
    (lease : H2PoolLease) (after : List H2PoolLease)
    → lease.connector_generation ≡ none
    → IsOrdered pool
    → IsCounted limit pool.activity (before ++ lease ∷ after)
    → IsClaimed pool.connecting (before ++ lease ∷ after)
    → IsSound limit
        (waited before lease after (wait_round now lease.key elapsed later timeout next pool))
unfolding wait_round
wait-IsSound limit now elapsed later timeout next pool before lease after free o c h =
    let leases = before ++ lease ∷ after in
    let t = get-IsTidied now lease.key pool o in
    got-IsSound limit elapsed later timeout next before lease after (get now lease.key pool) free
      t.ordered (subst (λ a. IsCounted limit a leases) (sym t.activity) c)
      (subst (λ m. IsClaimed m leases) (sym t.connecting) h)

module _ (limit : ℕ) (word : limit ≤ word_max) where
  Step-IsSound : {s s' : Upstream} → Step limit s s' → IsSound limit s → IsSound limit s'
  Step-IsSound (probe s now key) h =
      tidied-IsSound limit s (get now key s.pool).0 h (get-IsTidied now key s.pool h.ordered)
  Step-IsSound (acquire s key own small room) h = record {
    ordered = record { matches = h.ordered.matches; small = h.ordered.small };
    counted =
        acquire-IsCounted limit key s.pool.activity s.leases word (omega (arith, small, room))
          h.counted;
    claimed = record {
      unique = h.claimed.unique;
      held = λ k g e. let (m, l, same, gen) = h.claimed.held k g e in (m, inr l, same, gen);
    };
  }
  Step-IsSound (wait s before lease after now elapsed later timeout e free) h =
      wait-IsSound limit now elapsed later timeout s.next_generation s.pool before lease after free
        h.ordered (subst (IsCounted limit s.pool.activity) e h.counted)
        (subst (IsClaimed s.pool.connecting) e h.claimed)
  Step-IsSound (wake s now key ran_out) h =
      tidied-IsSound limit s (after_wait now key ran_out s.pool).0 h
        (after_wait-IsTidied now key ran_out s.pool h.ordered)
  Step-IsSound (connect s before lease after generation entry e claim) h =
      let (o, a, c) = insert_entry-IsOrdered lease.key entry s.pool h.ordered in
      record {
        ordered = o;
        counted = subst (λ x. IsCounted limit x s.leases) (sym a) h.counted;
        claimed =
            subst (λ x. IsClaimed x s.leases) (sym c)
              (remove-IsClaimed lease.key s.pool.connecting s.leases h.claimed);
      }
  Step-IsSound (discard s key generation) h =
      tidied-IsSound limit s (remove_if_generation key generation s.pool) h
        (remove_if_generation-IsTidied key generation s.pool h.ordered)
  Step-IsSound (sweep s now key generation) h =
      tidied-IsSound limit s (evict_round now key generation s.pool).0 h
        (evict_round-IsTidied now key generation s.pool h.ordered)
  Step-IsSound (finish s before lease after e) h =
      finish-IsSound limit s.next_generation s.pool before lease after h.ordered
        (subst (IsCounted limit s.pool.activity) e h.counted)
        (subst (IsClaimed s.pool.connecting) e h.claimed)

  initial-IsSound : IsSound limit initial
  unfolding active_for lookup
  initial-IsSound = record {
    ordered = record {
      matches = record {
        unique = tt;
        distinct = tt;
        ordered = λ k e f. absurd (none-ne-some f);
        kept = λ k l. absurd l;
      };
      small = omega arith;
    };
    counted = record { unique = tt; exact = λ k. refl; within = λ k. omega arith };
    claimed = record { unique = tt; held = λ k g f. absurd (none-ne-some f) };
  }

  -- In every state that the threads reach, with limits on active streams that are at most `limit`, a
  -- machine word: the entries of the pool and its order of use name the same keys, each once, and are
  -- at most 256; the active streams that are counted for a key are the leases of the key that are
  -- held, at most `limit`; and every claim of a connector is held by a lease of its key.
  pub Reach-IsSound : {s : Upstream} → Reach limit s → IsSound limit s
  Reach-IsSound start = initial-IsSound
  Reach-IsSound (step r t) = Step-IsSound t (Reach-IsSound r)
