-- ===== src/Pool/Http2/Order.antt =====
-- crates/rsproxy-net/src/upstream_h2/pool.rs: the entries of the pool against their order of use.
use rsproxy.Base.Members.{
  Listed, Distinct, Listed-append_left, Listed-append_right, Listed-append_cases, Distinct-snoc,
}
use rsproxy.Base.{
  some-ne-none, false, ℕ, suc, ◌≤◌, ◌≡◌, ◌≢◌, refl, sym, ◌∙◌, subst, ◌⊎◌, inl, inr, none, some,
  List, [], ◌∷◌, ◌++◌, leb, ◌==◌, arith, Option-cases, Bool-cases, length,
}
use rsproxy.Base.Assoc.{
  lookup, insert, remove, Unique, Unique-insert, Unique-remove, lookup-insert, lookup-insert_self,
  lookup-remove_ne, lookup-remove_self,
}
use rsproxy.Pool.Http2.{PoolEntry, H2Pool, h2_pool_capacity, retain_others, make_room}

pub record Matches (entries : List (ℕ × PoolEntry)) (order : List ℕ) : Type 0 where
  pub unique : Unique entries
  pub distinct : Distinct order
  pub ordered : (k : ℕ) (e : PoolEntry) → lookup k entries ≡ some e → Listed k order
  pub kept : (k : ℕ) → Listed k order → (e : PoolEntry) × (lookup k entries ≡ some e)

abbrev Entries : Type 0
Entries = List (ℕ × PoolEntry)

Listed-retain_others :
    (key k : ℕ) (order : List ℕ) → Listed k order → k ≢ key → Listed k (retain_others key order)
Listed-retain_others key k [] h ne = h
Listed-retain_others key k (j ∷ order) h ne = elim (Bool-cases (j == key)) [
  | inl e ↦ elim h [
    | inl same ↦ absurd (ne (ground (arith, same, e)))
    | inr l ↦ rw e (Listed-retain_others key k order l ne)
  ]
  | inr e ↦ elim h [
    | inl same ↦ rw e (inl same)
    | inr l ↦ rw e (inr (Listed-retain_others key k order l ne))
  ]
]

retained :
    (key k : ℕ) (order : List ℕ) → Listed k (retain_others key order) → Listed k order × (k ≢ key)
retained key k [] h = absurd h
retained key k (j ∷ order) h = elim (Bool-cases (j == key)) [
  | inl e ↦ let (l, ne) = retained key k order (rw e at h) in (inr l, ne)
  | inr e ↦ elim (rw e at h) [
    | inl same ↦ (inl same, λ f. absurd (ground (arith, e, same, f)))
    | inr l ↦ let (m, ne) = retained key k order l in (inr m, ne)
  ]
]

Distinct-retain_others :
    (key : ℕ) (order : List ℕ) → Distinct order → Distinct (retain_others key order)
Distinct-retain_others key [] d = tt
Distinct-retain_others key (j ∷ order) (fresh, d) = elim (Bool-cases (j == key)) [
  | inl e ↦ rw e (Distinct-retain_others key order d)
  | inr e ↦ rw e ((λ l. fresh (retained key j order l).0), Distinct-retain_others key order d)
]

lookup-remove :
    (k j : ℕ) (m : Entries) (e : PoolEntry)
    → Unique m
    → lookup j (remove k m) ≡ some e
    → (j ≢ k) × (lookup j m ≡ some e)
lookup-remove k j m e u h = elim (Bool-cases (k == j)) [
  | inl same ↦
      let f : j ≡ k = ground (arith, same) in
      absurd (
        some-ne-none e (subst (λ x. lookup x (remove k m) ≡ some e) f h) (lookup-remove_self k m u))
  | inr other ↦
      let ne : k ≢ j = ground (arith, other) in
      ((λ f. ne (sym f)), sym (lookup-remove_ne k j m ne) ∙ h)
]

-- The oldest entry is taken out.
Matches-pop :
    (k : ℕ) (order : List ℕ) (m : Entries) → Matches m (k ∷ order) → Matches (remove k m) order
Matches-pop k order m h = record {
  unique = Unique-remove k m h.unique;
  distinct = h.distinct.1;
  ordered = λ j e f.
      let (ne, g) = lookup-remove k j m e h.unique f in
      elim (h.ordered j e g) [ inl same ↦ absurd (ne same) | inr l ↦ l ];
  kept = λ j l.
      let (e, f) = h.kept j (inr l) in
      (
        e,
        lookup-remove_ne k j m (λ same. h.distinct.0 (subst (λ x. Listed x order) (sym same) l))
            ∙ f,
      );
}

pub Matches-take_out :
    (k : ℕ) (order : List ℕ) (m : Entries)
    → Matches m order
    → Matches (remove k m) (retain_others k order)
Matches-take_out k order m h = record {
  unique = Unique-remove k m h.unique;
  distinct = Distinct-retain_others k order h.distinct;
  ordered = λ j e f.
      let (ne, g) = lookup-remove k j m e h.unique f in
      Listed-retain_others k j order (h.ordered j e g) ne;
  kept = λ j l.
      let (was, ne) = retained k j order l in
      let (e, f) = h.kept j was in (e, lookup-remove_ne k j m (λ same. ne (sym same)) ∙ f);
}

Matches-touch :
    (k : ℕ) (order : List ℕ) (m : Entries) (e : PoolEntry)
    → Matches m order
    → lookup k m ≡ some e
    → Matches m (retain_others k order ++ k ∷ [])
Matches-touch k order m e h here = record {
  unique = h.unique;
  distinct =
      Distinct-snoc (retain_others k order) k (Distinct-retain_others k order h.distinct)
        (λ l. (retained k k order l).1 refl);
  ordered = λ j f g. elim (Bool-cases (j == k)) [
    | inl same ↦
        let s : j ≡ k = ground (arith, same) in
        Listed-append_right j (retain_others k order) (k ∷ []) (inl s)
    | inr other ↦
        let ne : j ≢ k = ground (arith, other) in
        Listed-append_left j (retain_others k order) (k ∷ [])
          (Listed-retain_others k j order (h.ordered j f g) ne)
  ];
  kept = λ j l. elim (Listed-append_cases j (retain_others k order) (k ∷ []) l) [
    | inl m' ↦ h.kept j (retained k j order m').0
    | inr (inl s) ↦ (e, subst (λ x. lookup x m ≡ some e) (sym s) here)
    | inr (inr gone) ↦ absurd gone
  ];
}

lookup-insert_ne :
    (k j : ℕ) (e : PoolEntry) (m : Entries)
    → (k == j) ≡ false
    → lookup j (insert k e m) ≡ lookup j m
lookup-insert_ne k j e m other = rw (lookup-insert k j e m, other)

-- A new value for a key, in any place of the order that has the key.
Matches-insert :
    (k : ℕ) (order order' : List ℕ) (m : Entries) (e : PoolEntry)
    → Matches m order
    → Distinct order'
    → Listed k order'
    → ((j : ℕ) → Listed j order → Listed j order')
    → ((j : ℕ) → Listed j order' → (j ≡ k) ⊎ Listed j order)
    → Matches (insert k e m) order'
Matches-insert k order order' m e h d here more back = record {
  unique = Unique-insert k e m h.unique;
  distinct = d;
  ordered = λ j f g. elim (Bool-cases (k == j)) [
    | inl same ↦ let s : k ≡ j = ground (arith, same) in subst (λ x. Listed x order') s here
    | inr other ↦ more j (h.ordered j f (sym (lookup-insert_ne k j e m other) ∙ g))
  ];
  kept = λ j l. elim (Bool-cases (k == j)) [
    | inl same ↦ (e, rw (lookup-insert k j e m, same))
    | inr other ↦ elim (back j l) [
      | inl s ↦ absurd (ground (arith, other, s))
      | inr was ↦ let (f, g) = h.kept j was in (f, lookup-insert_ne k j e m other ∙ g)
    ]
  ];
}

pub Matches-new :
    (k : ℕ) (order : List ℕ) (m : Entries) (e : PoolEntry)
    → Matches m order
    → lookup k m ≡ none
    → Matches (insert k e m) (order ++ k ∷ [])
Matches-new k order m e h absent =
    Matches-insert k order (order ++ k ∷ []) m e h
      (Distinct-snoc order k h.distinct (λ l. let (f, g) = h.kept k l in some-ne-none f g absent))
      (Listed-append_right k order (k ∷ []) (inl refl))
      (λ j l. Listed-append_left j order (k ∷ []) l)
      (λ j l. elim (Listed-append_cases j order (k ∷ []) l) [
        | inl was ↦ inr was
        | inr (inl s) ↦ inl s
        | inr (inr gone) ↦ absurd gone
      ])

-- An entry is written anew and becomes the last in the order.
pub Matches-renew :
    (k : ℕ) (order : List ℕ) (m : Entries) (e old : PoolEntry)
    → Matches m order
    → lookup k m ≡ some old
    → Matches (insert k e m) (retain_others k order ++ k ∷ [])
Matches-renew k order m e old h here =
    Matches-touch k order (insert k e m) e
      (Matches-insert k order order m e h h.distinct (h.ordered k old here) (λ j l. l)
        (λ j l. inr l))
      (lookup-insert_self k e m)

pub length-remove :
    (k : ℕ) (m : Entries) (e : PoolEntry)
    → lookup k m ≡ some e
    → suc (length (remove k m)) ≡ length m
unfolding lookup remove
length-remove k [] e h = cc
length-remove k ((j, w) ∷ m) e h = ground (arith, length-remove k m e)

pub length-insert_old :
    (k : ℕ) (m : Entries) (e old : PoolEntry)
    → lookup k m ≡ some old
    → length (insert k e m) ≡ length m
unfolding lookup insert
length-insert_old k [] e old h = cc
length-insert_old k ((j, w) ∷ m) e old h = ground (arith, length-insert_old k m e old)

pub length-insert_new :
    (k : ℕ) (m : Entries) (e : PoolEntry)
    → lookup k m ≡ none
    → length (insert k e m) ≡ suc (length m)
unfolding lookup insert
length-insert_new k [] e h = refl
length-insert_new k ((j, w) ∷ m) e h = ground (arith, length-insert_new k m e)

lookup-head : (j : ℕ) (w : PoolEntry) (m : Entries) → lookup j ((j, w) ∷ m) ≡ some w
unfolding lookup
lookup-head j w m = ground arith

-- Without an order there is no entry.
Matches-nil : (m : Entries) → Matches m [] → length m ≡ 0
Matches-nil [] h = refl
Matches-nil ((j, w) ∷ m) h = absurd (h.ordered j w (lookup-head j w m))

-- The pool is well formed: its order and its entries match, within the capacity.
pub record IsOrdered (pool : H2Pool) : Type 0 where
  pub matches : Matches pool.entries pool.order
  pub small : length pool.entries ≤ h2_pool_capacity

lookup-remove_none :
    (k j : ℕ) (m : Entries) → Unique m → lookup j m ≡ none → lookup j (remove k m) ≡ none
lookup-remove_none k j m u h = elim (Option-cases (lookup j (remove k m))) [
  | inl e ↦ e
  | inr (e, f) ↦ absurd (some-ne-none e (lookup-remove k j m e u f).1 h)
]

-- Room for one entry is made by taking out at most one of a pool that is within its capacity, and
-- no key that had no entry gets one.
pub make_room_lem :
    (order : List ℕ) (m : Entries)
    → Matches m order
    → length m ≤ h2_pool_capacity
    → Matches (make_room order m).1 (make_room order m).0
      × (suc (length (make_room order m).1) ≤ h2_pool_capacity)
      × ((k : ℕ) → lookup k m ≡ none → lookup k (make_room order m).1 ≡ none)
unfolding make_room
make_room_lem [] m h small = (h, omega (arith, Matches-nil m h), λ k e. e)
make_room_lem (oldest ∷ order) m h small = elim (Bool-cases (leb h2_pool_capacity (length m))) [
  | inl full ↦
      let (e, here) = h.kept oldest (inl refl) in
      let shorter = length-remove oldest m e here in
      let (h', room, absent) =
        make_room_lem order (remove oldest m) (Matches-pop oldest order m h)
          (omega (arith, shorter, small)) in
      rw full (h', room, λ k f. absent k (lookup-remove_none oldest k m h.unique f))
  | inr free ↦ rw free (h, ground (arith, free), λ k e. e)
]
