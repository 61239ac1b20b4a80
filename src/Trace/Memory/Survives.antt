-- ===== src/Trace/Memory/Survives.antt =====
-- The session that `MemoryStore` took in last, when it is brought down to a budget.
use rsproxy.Base.{
  ℕ, ◌-◌, ◌≤◌, ◌<◌, ◌≡◌, ap, ◌∙◌, ◌⊎◌, inl, inr, Bool, true, Bool-cases, none, some, List, [], ◌∷◌,
  ◌++◌, length, drop, find, length-append, drop_append-le, drop-append, ltb, ltb→lt, ◌==◌, arith,
}
use rsproxy.Trace.Model.{Session}
use rsproxy.Trace.Size.{Layout, estimate_session_bytes}
use rsproxy.Trace.Memory.{StoredSession, MemoryStore, evict_to_budget, get}
use rsproxy.Trace.Memory.Evict.{stored_bytes, TightOver}
use rsproxy.Trace.Memory.Bounds.{Inserted, evict_to_budget_lem}
use rsproxy.Trace.Memory.Queries.{find-append, find-drop, Option-map-none}

-- A last element that fits is not dropped.
last_stays :
    (m : MemoryStore) (xs : List StoredSession) (s : StoredSession) (budget j : ℕ)
    → m.sessions ≡ xs ++ s ∷ []
    → s.bytes ≤ budget
    → j ≤ length m.sessions
    → TightOver m budget j
    → j ≤ length xs
last_stays m xs s budget j shape fits few (inl nothing) = omega (arith, nothing)
last_stays m xs s budget j shape fits few (inr more) = elim (Bool-cases (ltb (length xs) j)) [
  | inr short ↦ ground arith
  | inl long ↦
      let all : j - 1 ≡ length xs =
        omega (arith, few, ltb→lt (length xs) j long, ap length shape, length-append xs (s ∷ [])) in
      let left : drop (j - 1) m.sessions ≡ s ∷ [] =
        ap (λ l. drop (j - 1) l) shape
        ∙ (ap (λ n. drop n (xs ++ s ∷ [])) all ∙ drop-append xs (s ∷ [])) in
      absurd (omega (arith, more, ap stored_bytes left, fits))
]

-- The session kept last is still found after an eviction to a budget, unless it alone exceeds it.
pub get-evict_to_budget :
    (lay : Layout) (m m' : MemoryStore) (session : Session) (k budget : ℕ)
    → Inserted lay m m' session k
    → get m session.id ≡ none
    → (get (evict_to_budget m' budget) session.id ≡ some session)
      ⊎ (budget < estimate_session_bytes lay session)
unfolding get
get-evict_to_budget lay m m' session k budget i absent =
    elim (Bool-cases (ltb budget (estimate_session_bytes lay session))) [
      | inl large ↦ inr (ltb→lt _ _ large)
      | inr fits ↦
          let (j, d, tight, low, v) = evict_to_budget_lem lay m' budget i.valid in
          let xs = drop k m.sessions in
          let s : StoredSession = record {
            session = session;
            bytes = estimate_session_bytes lay session;
          } in
          let stays = last_stays m' xs s budget j i.kept (ground (arith, fits)) d.few tight in
          let p : StoredSession → Bool = λ s. s.session.id == session.id in
          let gone : find p (drop j xs) ≡ none =
            find-drop p j xs (find-drop p k m.sessions (Option-map-none _ _ absent)) in
          let same : (session.id == session.id) ≡ true = ground arith in
          let left : (evict_to_budget m' budget).sessions ≡ drop j xs ++ s ∷ [] =
            d.kept ∙ (ap (λ l. drop j l) i.kept ∙ drop_append-le j xs (s ∷ []) stays) in
          inl (rw (left, find-append, gone, same))
    ]
