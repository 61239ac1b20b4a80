-- ===== src/Trace/Memory/Queries.antt =====
-- What the queries of `MemoryStore` answer after an insertion.
use mathlib.Core.List.{reverse, reverse-append}
use mathlib.Core.Option
use rsproxy.Base.{
  if◌then◌else◌, ltb, ℕ, zero, suc, min, ◌≡◌, refl, ap, ◌∙◌, inl, inr, Option, none, some, true,
  Bool, List, [], ◌∷◌, ◌++◌, length, take, drop, filter, find, Bool-cases, arith, length-append,
  ◌==◌,
}
use rsproxy.Trace.Model.{Session}
use rsproxy.Trace.Size.{Layout}
use rsproxy.Trace.Memory.{StoredSession, MemoryStore, sessions_of, list, list_after, is_after, get}
use rsproxy.Trace.Memory.Bounds.{Inserted}

length-reverse : (l : List StoredSession) → length (reverse l) ≡ length l
length-reverse [] = refl
length-reverse (s ∷ l) =
    ap length (reverse-append (s ∷ []) l)
    ∙ omega (arith, length-append (reverse l) (s ∷ []), length-reverse l)

-- The limit is never more than there is, so it can be dropped.
take-min : (n : ℕ) (l : List StoredSession) → take (min n (length l)) l ≡ take n l
take-min zero l = let e : min 0 (length l) ≡ 0 = omega arith in rw e
take-min (suc n) [] = let e : min (suc n) 0 ≡ 0 = omega arith in rw e
take-min (suc n) (s ∷ l) =
    let e : min (suc n) (suc (length l)) ≡ suc (min n (length l)) = omega arith in
    rw e (ap (◌∷◌ s) (take-min n l))

list-take : (m : MemoryStore) (n : ℕ) → list m n ≡ sessions_of (take n (reverse m.sessions))
unfolding list
list-take m n = ap sessions_of (rw (← length-reverse m.sessions) (take-min n (reverse m.sessions)))

-- A session that `insert` keeps is the first of the listing; behind it stand the sessions that
-- were not evicted, the newest first.
pub list-insert :
    (lay : Layout) (m m' : MemoryStore) (session : Session) (k n : ℕ)
    → Inserted lay m m' session k
    → list m' (suc n) ≡ session ∷ sessions_of (take n (reverse (drop k m.sessions)))
list-insert lay m m' session k n i =
    list-take m' (suc n) ∙ rw (i.kept, reverse-append (drop k m.sessions)) refl

pub find-append :
    (p : StoredSession → Bool) (xs ys : List StoredSession)
    → find p (xs ++ ys) ≡ elim (find p xs) [ none ↦ find p ys | some s ↦ some s ]
find-append p [] ys = refl
find-append p (x ∷ xs) ys = ground (arith, find-append p xs ys)

pub find-drop :
    (p : StoredSession → Bool) (k : ℕ) (xs : List StoredSession)
    → find p xs ≡ none
    → find p (drop k xs) ≡ none
find-drop p zero xs h = h
find-drop p (suc k) [] h = h
find-drop p (suc k) (x ∷ xs) h = find-drop p k xs (ground arith)

pub Option-map-none {ℓ κ} :
    {A : Type ℓ} {B : Type κ} (f : A → B) (o : Option A) → Option.map f o ≡ none → o ≡ none
Option-map-none f none h = refl
Option-map-none f (some a) h = cc

-- A session whose identifier was not in the store is found under it, once kept.
pub get-insert :
    (lay : Layout) (m m' : MemoryStore) (session : Session) (k : ℕ)
    → Inserted lay m m' session k
    → get m session.id ≡ none
    → get m' session.id ≡ some session
unfolding get
get-insert lay m m' session k i h =
    let p : StoredSession → Bool = λ s. s.session.id == session.id in
    let gone : find p (drop k m.sessions) ≡ none =
      find-drop p k m.sessions (Option-map-none _ _ h) in
    let same : (session.id == session.id) ≡ true = ground arith in
    rw (i.kept, find-append, gone, same)

-- The sessions of a list that are younger than a mark, in their order.
abbrev pub younger : ℕ → List StoredSession → List Session
younger after [] = []
younger after (s ∷ l) =
    let rest = younger after l in if ltb after s.session.id then s.session ∷ rest else rest

filter-younger :
    (after : ℕ) (l : List StoredSession) (limit : ℕ)
    → sessions_of (take limit (filter (is_after after) l)) ≡ take limit (younger after l)
filter-younger after [] zero = refl
filter-younger after [] (suc n) = refl
filter-younger after (s ∷ l) zero = refl
filter-younger after (s ∷ l) (suc n) = elim (Bool-cases (ltb after s.session.id)) [
  | inl young ↦ rw young (ap (λ r. s.session ∷ r) (filter-younger after l n))
  | inr old ↦ rw old (filter-younger after l (suc n))
]

younger-append :
    (after : ℕ) (l r : List StoredSession)
    → younger after (l ++ r) ≡ younger after l ++ younger after r
younger-append after [] r = refl
younger-append after (s ∷ l) r = elim (Bool-cases (ltb after s.session.id)) [
  | inl young ↦ rw young (ap (λ q. s.session ∷ q) (younger-append after l r))
  | inr old ↦ rw old (younger-append after l r)
]

-- A follow-up listing behind an insertion that keeps its session is the first `limit` of the
-- sessions that were not evicted and are younger than the mark, in the order of their insertion, and
-- then of the new session, if it is younger than the mark too.
pub list_after-insert :
    (lay : Layout) (m m' : MemoryStore) (session : Session) (k after limit : ℕ)
    → Inserted lay m m' session k
    → list_after m' after limit
      ≡ take limit
          (younger after (drop k m.sessions) ++ (if ltb after session.id then session ∷ [] else []))
unfolding list_after
list_after-insert lay m m' session k after limit i =
    filter-younger after m'.sessions limit
    ∙ ap (take limit)
        (ap (younger after) i.kept ∙ younger-append after (drop k m.sessions) (_ ∷ []))
