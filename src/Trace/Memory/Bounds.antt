-- ===== src/Trace/Memory/Bounds.antt =====
-- The limits of `MemoryStore` and what its operations keep.
use rsproxy.Base.{
  ℕ, zero, suc, ◌+◌, ◌≤◌, ◌<◌, min, ◌≡◌, refl, ap, ◌⊎◌, inl, inr, ◌||◌, false, List, [], ◌∷◌, ◌++◌,
  length, drop, arith, length-append, length-drop, ltb, ◌==◌, All, All-append,
}
use rsproxy.Base.Words.{word_max, sat_add}
use rsproxy.Trace.Model.{Session}
use rsproxy.Trace.Size.{Layout, estimate_session_bytes}
use rsproxy.Trace.Memory.{
  StoredSession, MemoryStore, new, is_crowded, insert, is_over, evict_to_budget,
}
use rsproxy.Trace.Memory.Evict.{
  stored_bytes, stored_bytes-append, Dropped, Tight, make_room-Dropped, TightOver,
  evict_while_over-Dropped,
}

abbrev pub Charged : Layout → List StoredSession → Type 0
Charged lay = All (λ (s : StoredSession). s.bytes ≡ estimate_session_bytes lay s.session)

-- The store is within its limits, and its counters are right. A budget of `usize::MAX` is left
-- out: there a saturated counter would not tell an overflow.
pub record IsValid (lay : Layout) (m : MemoryStore) : Type 0 where
  pub counted : m.memory_bytes ≡ stored_bytes m.sessions
  pub bounded : length m.sessions ≤ m.max_sessions
  pub within : m.memory_bytes ≤ m.memory_budget_bytes
  pub budget : m.memory_budget_bytes < word_max
  pub evictions : m.evicted_sessions ≤ word_max
  pub charged : Charged lay m.sessions

pub new-IsValid : (lay : Layout) (max budget : ℕ) → budget < word_max → IsValid lay (new max budget)
unfolding new
new-IsValid lay max budget h = record {
  counted = refl;
  bounded = omega arith;
  within = omega arith;
  budget = h;
  evictions = omega arith;
  charged = tt;
}

Charged-drop :
    (lay : Layout) (k : ℕ) (l : List StoredSession) → Charged lay l → Charged lay (drop k l)
Charged-drop lay zero l h = h
Charged-drop lay (suc k) [] h = h
Charged-drop lay (suc k) (s ∷ l) h = Charged-drop lay k l h.1

-- The session is not kept at all: the store holds nothing, or the session alone exceeds its budget.
abbrev pub Rejected : Layout → MemoryStore → Session → Type 0
Rejected lay m session =
    (m.max_sessions ≡ 0)
    ⊎ (m.memory_budget_bytes ≡ 0)
    ⊎ (m.memory_budget_bytes < estimate_session_bytes lay session)

-- The session stands behind the sessions that are kept, and `k` sessions were evicted for it.
pub record Inserted (lay : Layout) (m m' : MemoryStore) (session : Session) (k : ℕ) : Type 0 where
  pub few : k ≤ length m.sessions
  pub kept :
      m'.sessions
      ≡ drop k m.sessions
        ++ record { session = session; bytes = estimate_session_bytes lay session } ∷ []
  pub evicted : m'.evicted_sessions ≡ min (m.evicted_sessions + k) word_max
  pub tight : Tight m (estimate_session_bytes lay session) k
  pub valid : IsValid lay m'
  pub same_max : m'.max_sessions ≡ m.max_sessions
  pub same_budget : m'.memory_budget_bytes ≡ m.memory_budget_bytes

insert-Rejected :
    (lay : Layout) (m : MemoryStore) (session : Session)
    → Rejected lay m session
    → insert lay m session ≡ record m { evicted_sessions = sat_add m.evicted_sessions 1 }
unfolding insert
insert-Rejected lay m session r = ground arith

stored_bytes-drop-le : (k : ℕ) (l : List StoredSession) → stored_bytes (drop k l) ≤ stored_bytes l
stored_bytes-drop-le zero l = omega arith
stored_bytes-drop-le (suc k) [] = omega arith
stored_bytes-drop-le (suc k) (s ∷ l) = omega (arith, stored_bytes-drop-le k l)

Dropped-IsValid :
    (lay : Layout) (m m' : MemoryStore) (k : ℕ) → IsValid lay m → Dropped m m' k → IsValid lay m'
Dropped-IsValid lay m m' k v d = record {
  counted = d.counted;
  bounded = rw (d.kept, d.same_max) (omega (arith, length-drop k m.sessions, v.bounded));
  within =
      rw (d.counted, d.kept, d.same_budget)
        (omega (arith, stored_bytes-drop-le k m.sessions, v.within, v.counted));
  budget = rw d.same_budget v.budget;
  evictions = omega (arith, d.evicted);
  charged = rw d.kept (Charged-drop lay k m.sessions v.charged);
}

-- Where the loop of `insert` stops there is room for the session.
is_crowded-false :
    (m : MemoryStore) (bytes : ℕ)
    → is_crowded m bytes ≡ false
    → m.memory_bytes ≡ stored_bytes m.sessions
    → 0 < m.max_sessions
    → bytes ≤ m.memory_budget_bytes
    → m.memory_budget_bytes < word_max
    → (length m.sessions < m.max_sessions) × (m.memory_bytes + bytes ≤ m.memory_budget_bytes)
unfolding is_crowded
is_crowded-false m bytes h c p b w = ground arith

-- The store with the session put behind what the loop kept.
abbrev place : MemoryStore → Session → ℕ → MemoryStore
place roomy session bytes = record roomy {
  memory_bytes = sat_add roomy.memory_bytes bytes;
  sessions = roomy.sessions ++ record { session = session; bytes = bytes } ∷ [];
}

module _ (lay : Layout) (m roomy : MemoryStore) (session : Session) (k : ℕ) where
  place-IsValid :
      IsValid lay m
      → Dropped m roomy k
      → length roomy.sessions < roomy.max_sessions
      → roomy.memory_bytes + estimate_session_bytes lay session ≤ roomy.memory_budget_bytes
      → IsValid lay (place roomy session (estimate_session_bytes lay session))
  unfolding sat_add
  place-IsValid v d fits within = record {
    counted =
        omega (arith, stored_bytes-append roomy.sessions _, v.budget, d.same_budget, d.counted);
    bounded = omega (arith, length-append roomy.sessions _);
    within = omega arith;
    budget = rw d.same_budget v.budget;
    evictions = omega (arith, d.evicted);
    charged =
        All-append _ roomy.sessions _ (rw d.kept (Charged-drop lay k m.sessions v.charged))
          (refl, tt);
  }

  place-Inserted :
      IsValid lay m
      → Dropped m roomy k
      → length roomy.sessions < roomy.max_sessions
      → roomy.memory_bytes + estimate_session_bytes lay session ≤ roomy.memory_budget_bytes
      → Tight m (estimate_session_bytes lay session) k
      → Inserted lay m (place roomy session (estimate_session_bytes lay session)) session k
  place-Inserted v d fits within t = record {
    few = d.few;
    kept =
        ap (λ l. l ++ record { session = session; bytes = estimate_session_bytes lay session } ∷ [])
          d.kept;
    evicted = d.evicted;
    tight = t;
    valid = place-IsValid v d fits within;
    same_max = d.same_max;
    same_budget = d.same_budget;
  }

insert_accepted :
    (lay : Layout) (m : MemoryStore) (session : Session)
    → IsValid lay m
    → 0 < m.max_sessions
    → 0 < m.memory_budget_bytes
    → estimate_session_bytes lay session ≤ m.memory_budget_bytes
    → (k : ℕ) × Inserted lay m (insert lay m session) session k
unfolding insert
insert_accepted lay m session v p q r =
    let bytes = estimate_session_bytes lay session in
    let (k, d, room, t) =
      make_room-Dropped (length m.sessions) bytes m m.sessions refl (omega arith) v.counted
        v.evictions in
    let (fits, within) =
      is_crowded-false _ bytes room d.counted (rw d.same_max p) (rw d.same_budget r)
        (rw d.same_budget v.budget) in
    let passes : (m.max_sessions == 0
          || m.memory_budget_bytes == 0
          || ltb m.memory_budget_bytes bytes)
        ≡ false =
      ground arith in
    rw (passes, insert) (k, place-Inserted lay m _ session k v d fits within t)

Rejected-cases :
    (lay : Layout) (m : MemoryStore) (session : Session)
    → Rejected lay m session
      ⊎ ((0 < m.max_sessions)
          × (0 < m.memory_budget_bytes)
          × (estimate_session_bytes lay session ≤ m.memory_budget_bytes))
Rejected-cases lay m session = grind arith

-- From a store within its limits, `insert` either keeps nothing of a session that can never fit and
-- counts it as evicted, or puts it behind the sessions left after evicting the `k` oldest. Then the
-- limits hold and the counters are right again, and `k` is the least number that makes room.
pub insert_lem :
    (lay : Layout) (m : MemoryStore) (session : Session)
    → IsValid lay m
    → (Rejected lay m session
        × (insert lay m session ≡ record m { evicted_sessions = sat_add m.evicted_sessions 1 }))
      ⊎ ((k : ℕ) × Inserted lay m (insert lay m session) session k)
insert_lem lay m session v = elim (Rejected-cases lay m session) [
  | inl r ↦ inl (r, insert-Rejected lay m session r)
  | inr (p, q, r) ↦ inr (insert_accepted lay m session v p q r)
]

pub insert-IsValid :
    (lay : Layout) (m : MemoryStore) (session : Session)
    → IsValid lay m
    → IsValid lay (insert lay m session)
unfolding sat_add
insert-IsValid lay m session v = elim (insert_lem lay m session v) [
  | inl (r, e) ↦ rw e (record {
    counted = v.counted;
    bounded = v.bounded;
    within = v.within;
    budget = v.budget;
    evictions = omega arith;
    charged = v.charged;
  })
  | inr (k, i) ↦ i.valid
]

is_over-false :
    (m : MemoryStore) (budget : ℕ)
    → is_over m budget ≡ false
    → m.memory_bytes ≡ stored_bytes m.sessions
    → m.memory_bytes ≤ budget
unfolding is_over
is_over-false m budget h c = ground arith

-- `evict_to_budget` takes out the `k` oldest sessions, for the least `k` that brings the store down
-- to the budget, and keeps the limits.
pub evict_to_budget_lem :
    (lay : Layout) (m : MemoryStore) (budget : ℕ)
    → IsValid lay m
    → (k : ℕ) × Dropped m (evict_to_budget m budget) k
      × TightOver m budget k
      × ((evict_to_budget m budget).memory_bytes ≤ budget)
      × IsValid lay (evict_to_budget m budget)
unfolding evict_to_budget
evict_to_budget_lem lay m budget v =
    let (k, d, done, t) =
      evict_while_over-Dropped (length m.sessions) budget m m.sessions refl (omega arith) v.counted
        v.evictions in
    (k, d, t, is_over-false _ budget done d.counted, Dropped-IsValid lay m _ k v d)
