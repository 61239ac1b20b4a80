-- ===== src/Trace/Memory/Evict.antt =====
-- crates/rsproxy-trace/src/store/memory.rs: what the two eviction loops of `MemoryStore` take out.
use rsproxy.Base.{
  ℕ, zero, suc, ◌+◌, ◌-◌, ◌≤◌, ◌<◌, min, ◌≡◌, refl, ◌⊎◌, inl, inr, true, false, List, [], ◌∷◌, ◌++◌,
  length, drop, Bool-cases, arith,
}
use rsproxy.Base.Words.{word_max, sat_add}
use rsproxy.Trace.Memory.{
  StoredSession, MemoryStore, evict_oldest, is_crowded, make_room, is_over, evict_while_over,
}

abbrev pub stored_bytes : List StoredSession → ℕ
stored_bytes [] = 0
stored_bytes (s ∷ l) = s.bytes + stored_bytes l

pub stored_bytes-append :
    (xs ys : List StoredSession) → stored_bytes (xs ++ ys) ≡ stored_bytes xs + stored_bytes ys
stored_bytes-append [] ys = omega arith
stored_bytes-append (x ∷ xs) ys = omega (arith, stored_bytes-append xs ys)

-- `m'` is `m` without its `k` oldest sessions, with the counters kept.
pub record Dropped (m m' : MemoryStore) (k : ℕ) : Type 0 where
  pub few : k ≤ length m.sessions
  pub kept : m'.sessions ≡ drop k m.sessions
  pub counted : m'.memory_bytes ≡ stored_bytes m'.sessions
  pub evicted : m'.evicted_sessions ≡ min (m.evicted_sessions + k) word_max
  pub same_max : m'.max_sessions ≡ m.max_sessions
  pub same_budget : m'.memory_budget_bytes ≡ m.memory_budget_bytes

Dropped-none :
    (m : MemoryStore)
    → m.memory_bytes ≡ stored_bytes m.sessions
    → m.evicted_sessions ≤ word_max
    → Dropped m m 0
Dropped-none m c e = record {
  few = omega arith;
  kept = refl;
  counted = c;
  evicted = omega arith;
  same_max = refl;
  same_budget = refl;
}

-- One eviction, then `k` more.
Dropped-suc :
    (m m' : MemoryStore) (k : ℕ) (s : StoredSession) (rest : List StoredSession)
    → m.sessions ≡ s ∷ rest
    → Dropped (evict_oldest m) m' k
    → Dropped m m' (suc k)
unfolding evict_oldest sat_add
Dropped-suc m m' k s rest e d = record {
  few = ground (arith, d.few);
  kept = ground (arith, d.kept);
  counted = d.counted;
  evicted = ground (arith, d.evicted);
  same_max = ground (arith, d.same_max);
  same_budget = ground (arith, d.same_budget);
}

-- The sessions after an eviction, and that they are still counted.
evict_oldest-counted :
    (m : MemoryStore) (s : StoredSession) (rest : List StoredSession)
    → m.sessions ≡ s ∷ rest
    → m.memory_bytes ≡ stored_bytes m.sessions
    → m.evicted_sessions ≤ word_max
    → ((evict_oldest m).sessions ≡ rest)
      × ((evict_oldest m).memory_bytes ≡ stored_bytes rest)
      × ((evict_oldest m).evicted_sessions ≤ word_max)
      × ((evict_oldest m).max_sessions ≡ m.max_sessions)
      × ((evict_oldest m).memory_budget_bytes ≡ m.memory_budget_bytes)
unfolding evict_oldest sat_add
evict_oldest-counted m s rest e c v = ground arith

-- With the session before the kept ones, there would be one too many, or too many bytes.
abbrev pub Tight : MemoryStore → ℕ → ℕ → Type 0
Tight m bytes k =
    (k ≡ 0)
    ⊎ (m.max_sessions ≤ length (drop (k - 1) m.sessions))
    ⊎ (m.memory_budget_bytes < stored_bytes (drop (k - 1) m.sessions) + bytes)

is_crowded-Tight :
    (m : MemoryStore) (bytes : ℕ)
    → is_crowded m bytes ≡ true
    → m.memory_bytes ≡ stored_bytes m.sessions
    → Tight m bytes 1
unfolding is_crowded
is_crowded-Tight m bytes h c = ground arith

Tight-suc :
    (m m' : MemoryStore) (bytes k : ℕ) (s : StoredSession) (rest : List StoredSession)
    → m.sessions ≡ s ∷ rest
    → m'.sessions ≡ rest
    → m'.max_sessions ≡ m.max_sessions
    → m'.memory_budget_bytes ≡ m.memory_budget_bytes
    → Tight m bytes 1
    → Tight m' bytes k
    → Tight m bytes (suc k)
Tight-suc m m' bytes zero s rest e e' p q one t = one
Tight-suc m m' bytes (suc k) s rest e e' p q one t = ground arith

-- The loop of `insert` stops within its fuel, and takes out no session more than it has to.
pub make_room-Dropped :
    (fuel bytes : ℕ) (m : MemoryStore) (l : List StoredSession)
    → m.sessions ≡ l
    → length l ≤ fuel
    → m.memory_bytes ≡ stored_bytes l
    → m.evicted_sessions ≤ word_max
    → (k : ℕ) × Dropped m (make_room fuel bytes m) k
      × (is_crowded (make_room fuel bytes m) bytes ≡ false)
      × Tight m bytes k
unfolding make_room
make_room-Dropped zero bytes m [] e f c v =
    (0, Dropped-none m (ground arith) v, unfold is_crowded in ground arith, inl refl)
make_room-Dropped zero bytes m (s ∷ rest) e f c v = absurd (omega arith)
make_room-Dropped (suc fuel) bytes m [] e f c v =
    let idle : is_crowded m bytes ≡ false = unfold is_crowded in ground arith in
    rw (idle, make_room) (0, Dropped-none m (ground arith) v, idle, inl refl)
make_room-Dropped (suc fuel) bytes m (s ∷ rest) e f c v = elim (Bool-cases (is_crowded m bytes)) [
  | inr idle ↦ rw (idle, make_room) (0, Dropped-none m (ground arith) v, idle, inl refl)
  | inl busy ↦
      let (es, ec, ev, ep, eq) = evict_oldest-counted m s rest e (ground arith) v in
      let (k, d, room, t) =
        make_room-Dropped fuel bytes (evict_oldest m) rest es (omega arith) ec ev in
      rw (busy, make_room)
        (
          suc k,
          Dropped-suc m _ k s rest e d,
          room,
          Tight-suc m (evict_oldest m) bytes k s rest e es ep eq
              (is_crowded-Tight m bytes busy (ground arith)) t,
        )
]

-- With the session before the kept ones, the budget is exceeded.
abbrev pub TightOver : MemoryStore → ℕ → ℕ → Type 0
TightOver m budget k = (k ≡ 0) ⊎ (budget < stored_bytes (drop (k - 1) m.sessions))

TightOver-suc :
    (m m' : MemoryStore) (budget k : ℕ) (s : StoredSession) (rest : List StoredSession)
    → m.sessions ≡ s ∷ rest
    → m'.sessions ≡ rest
    → TightOver m budget 1
    → TightOver m' budget k
    → TightOver m budget (suc k)
TightOver-suc m m' budget zero s rest e e' one t = one
TightOver-suc m m' budget (suc k) s rest e e' one t = ground arith

-- The loop of `evict_to_budget` stops within its fuel, and takes out no session more than it has to.
pub evict_while_over-Dropped :
    (fuel budget : ℕ) (m : MemoryStore) (l : List StoredSession)
    → m.sessions ≡ l
    → length l ≤ fuel
    → m.memory_bytes ≡ stored_bytes l
    → m.evicted_sessions ≤ word_max
    → (k : ℕ) × Dropped m (evict_while_over fuel budget m) k
      × (is_over (evict_while_over fuel budget m) budget ≡ false)
      × TightOver m budget k
unfolding evict_while_over
evict_while_over-Dropped zero budget m [] e f c v =
    (0, Dropped-none m (ground arith) v, unfold is_over in ground arith, inl refl)
evict_while_over-Dropped zero budget m (s ∷ rest) e f c v = absurd (omega arith)
evict_while_over-Dropped (suc fuel) budget m [] e f c v =
    let idle : is_over m budget ≡ false = unfold is_over in ground arith in
    rw (idle, evict_while_over) (0, Dropped-none m (ground arith) v, idle, inl refl)
evict_while_over-Dropped (suc fuel) budget m (s ∷ rest) e f c v =
    elim (Bool-cases (is_over m budget)) [
      | inr idle ↦ rw (idle, evict_while_over) (0, Dropped-none m (ground arith) v, idle, inl refl)
      | inl busy ↦
          let (es, ec, ev, ep, eq) = evict_oldest-counted m s rest e (ground arith) v in
          let (k, d, room, t) =
            evict_while_over-Dropped fuel budget (evict_oldest m) rest es (omega arith) ec ev in
          rw (busy, evict_while_over)
            (
              suc k,
              Dropped-suc m _ k s rest e d,
              room,
              TightOver-suc m (evict_oldest m) budget k s rest e es (unfold is_over in ground arith)
                  t,
            )
    ]
