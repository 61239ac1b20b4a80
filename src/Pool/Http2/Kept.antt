-- ===== src/Pool/Http2/Kept.antt =====
-- crates/rsproxy-net/src/upstream_h2/pool.rs: each operation on the connections of the pool.
use rsproxy.Base.{
  ℕ, ◌≡◌, refl, inl, inr, Bool, true, false, some, List, ◌++◌, ◌∷◌, [], ◌==◌, arith, Option-cases,
  Bool-cases,
}
use rsproxy.Base.Assoc.{lookup, insert, remove}
use rsproxy.Pool.Activity.{KeyedActivity}
use rsproxy.Pool.Http2.{
  PoolEntry, H2Pool, take_out, is_idle, get, make_room, insert_entry, remove_if_generation,
  evict_round, after_wait, retain_others,
}
use rsproxy.Pool.Http2.Order.{
  IsOrdered, Matches-take_out, Matches-renew, Matches-new, make_room_lem, length-remove,
  length-insert_old, length-insert_new,
}

-- The later pool is well formed and has the streams and the claims of the earlier one.
pub record IsTidied (pool pool' : H2Pool) : Type 0 where
  pub ordered : IsOrdered pool'
  pub activity : pool'.activity ≡ pool.activity
  pub connecting : pool'.connecting ≡ pool.connecting

IsTidied-self : (pool : H2Pool) → IsOrdered pool → IsTidied pool pool
IsTidied-self pool h = record { ordered = h; activity = refl; connecting = refl }

take_out-IsTidied :
    (key : ℕ) (pool : H2Pool) (e : PoolEntry)
    → IsOrdered pool
    → lookup key pool.entries ≡ some e
    → IsTidied pool (take_out key pool)
take_out-IsTidied key pool e h here = record {
  ordered = record {
    matches = Matches-take_out key pool.order pool.entries h.matches;
    small = omega (arith, length-remove key pool.entries e here, h.small);
  };
  activity = refl;
  connecting = refl;
}

renew-IsOrdered :
    (key : ℕ) (e old : PoolEntry) (pool : H2Pool) (activity : KeyedActivity)
    (connecting : List (ℕ × ℕ))
    → IsOrdered pool
    → lookup key pool.entries ≡ some old
    → IsOrdered (record {
      entries = insert key e pool.entries;
      order = retain_others key pool.order ++ key ∷ [];
      activity = activity;
      connecting = connecting;
    })
renew-IsOrdered key e old pool activity connecting h here = record {
  matches = Matches-renew key pool.order pool.entries e old h.matches here;
  small = omega (arith, length-insert_old key pool.entries e old here, h.small);
}

pub get-IsTidied :
    (now key : ℕ) (pool : H2Pool) → IsOrdered pool → IsTidied pool (get now key pool).0
unfolding get
get-IsTidied now key pool h = elim (Option-cases (lookup key pool.entries)) [
  | inl e ↦ rw (e, get) (IsTidied-self pool h)
  | inr (entry, e) ↦ elim (Bool-cases (is_idle now key entry pool)) [
    | inl idle ↦ rw (e, idle, get) (take_out-IsTidied key pool entry h e)
    | inr busy ↦
        rw (e, busy, get)
          (record {
            ordered =
                renew-IsOrdered key (record entry { last_used = now }) entry pool pool.activity
                  pool.connecting h e;
            activity = refl;
            connecting = refl;
          })
  ]
]

pub remove_if_generation-IsTidied :
    (key generation : ℕ) (pool : H2Pool)
    → IsOrdered pool
    → IsTidied pool (remove_if_generation key generation pool)
unfolding remove_if_generation
remove_if_generation-IsTidied key generation pool h =
    elim (Option-cases (lookup key pool.entries)) [
      | inl e ↦ rw (e, remove_if_generation) (IsTidied-self pool h)
      | inr (entry, e) ↦ elim (Bool-cases (entry.generation == generation)) [
        | inl same ↦ rw (e, same, remove_if_generation) (take_out-IsTidied key pool entry h e)
        | inr other ↦ rw (e, other, remove_if_generation) (IsTidied-self pool h)
      ]
    ]

pub evict_round-IsTidied :
    (now key generation : ℕ) (pool : H2Pool)
    → IsOrdered pool
    → IsTidied pool (evict_round now key generation pool).0
unfolding evict_round
evict_round-IsTidied now key generation pool h = elim (Option-cases (lookup key pool.entries)) [
  | inl e ↦ rw (e, evict_round) (IsTidied-self pool h)
  | inr (entry, e) ↦ elim (Bool-cases (entry.generation == generation)) [
    | inr other ↦ rw (e, other, evict_round) (IsTidied-self pool h)
    | inl same ↦ elim (Bool-cases (is_idle now key entry pool)) [
      | inl idle ↦
          rw (e, same, idle, evict_round) (remove_if_generation-IsTidied key generation pool h)
      | inr busy ↦ rw (e, same, busy, evict_round) (IsTidied-self pool h)
    ]
  ]
]

pub after_wait-IsTidied :
    (now key : ℕ) (ran_out : Bool) (pool : H2Pool)
    → IsOrdered pool
    → IsTidied pool (after_wait now key ran_out pool).0
unfolding after_wait
after_wait-IsTidied now key true pool h = get-IsTidied now key pool h
after_wait-IsTidied now key false pool h = IsTidied-self pool h

-- After an insertion the pool is well formed, has the entry, and no claim for its key.
pub insert_entry-IsOrdered :
    (key : ℕ) (entry : PoolEntry) (pool : H2Pool)
    → IsOrdered pool
    → IsOrdered (insert_entry key entry pool)
      × ((insert_entry key entry pool).activity ≡ pool.activity)
      × ((insert_entry key entry pool).connecting ≡ remove key pool.connecting)
unfolding insert_entry
insert_entry-IsOrdered key entry pool h = elim (Option-cases (lookup key pool.entries)) [
  | inr (old, e) ↦
      rw (e, insert_entry)
        (
          renew-IsOrdered key entry old pool pool.activity (remove key pool.connecting) h e,
          refl,
          refl,
        )
  | inl e ↦
      let (m, room, absent) = make_room_lem pool.order pool.entries h.matches h.small in
      let fresh = absent key e in
      rw (e, insert_entry)
        (
          record {
            matches =
                Matches-new key (make_room pool.order pool.entries).0
                  (make_room pool.order pool.entries).1 entry m fresh;
            small = omega (
              arith,
              length-insert_new key (make_room pool.order pool.entries).1 entry fresh,
              room,
            );
          },
          refl,
          refl,
        )
]
