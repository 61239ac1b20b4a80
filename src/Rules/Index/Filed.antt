-- ===== src/Rules/Index/Filed.antt =====
-- crates/rsproxy-rules/src/index.rs: where a rule is filed, and what the maps hold once rules are
-- filed.
use rsproxy.Base.Members.{Listed, Listed-append_left, Listed-append_right, Listed-append_cases}
use rsproxy.Base.{
  ℕ, ◌≡◌, refl, ◌⊎◌, inl, inr, Bool, true, false, Option, none, some, List, [], ◌∷◌, ◌++◌,
  if◌then◌else◌, arith, Bool-cases,
}
use rsproxy.Rules.Text.{Str, str_eq, str_lt}
use rsproxy.Rules.Text.Laws.{str_eq_iff, str_eq_self}
use rsproxy.Rules.Index.{Buckets, file_key, file_literal, values, join}
use rsproxy.Rules.IndexKey.{MatcherIndexKey, has_key, insert_key, push_at, push_entry, bucket}

bucket_missing : (k : Str) (m : List (Str × List ℕ)) → has_key k m ≡ false → bucket k m ≡ []
unfolding has_key bucket
bucket_missing k [] h = refl
bucket_missing k ((j, v) ∷ m) h = ground (arith, bucket_missing k m)

bucket-insert_key :
    (key k : Str) (i : ℕ) (m : List (Str × List ℕ))
    → has_key key m ≡ false
    → bucket k (insert_key key i m) ≡ (if str_eq key k then i ∷ [] else bucket k m)
unfolding has_key bucket insert_key
bucket-insert_key key k i [] h = ground arith
bucket-insert_key key k i ((j, v) ∷ m) h =
    ground (arith, str_eq_iff j k, str_eq_iff key k, str_eq_iff j key, bucket-insert_key key k i m)

bucket-push_at :
    (key k : Str) (i : ℕ) (m : List (Str × List ℕ))
    → has_key key m ≡ true
    → bucket k (push_at key i m) ≡ (if str_eq key k then bucket k m ++ i ∷ [] else bucket k m)
unfolding has_key bucket push_at
bucket-push_at key k i [] h = cc
bucket-push_at key k i ((j, v) ∷ m) h =
    ground (arith, str_eq_iff j k, str_eq_iff key k, str_eq_iff j key, bucket-push_at key k i m)

-- A number goes to the end of its key's bucket, and the others stay as they are.
pub bucket-push_entry :
    (key k : Str) (i : ℕ) (m : List (Str × List ℕ))
    → bucket k (push_entry key i m) ≡ (if str_eq key k then bucket k m ++ i ∷ [] else bucket k m)
unfolding push_entry
bucket-push_entry key k i m = elim (Bool-cases (has_key key m)) [
  | inl e ↦ rw e (bucket-push_at key k i m e)
  | inr e ↦
      rw e (ground (arith, bucket-insert_key key k i m, bucket_missing key m, str_eq_iff key k))
]

Listed-bucket_self :
    (key : Str) (i : ℕ) (m : List (Str × List ℕ)) → Listed i (bucket key (push_entry key i m))
Listed-bucket_self key i m =
    rw (bucket-push_entry key key i m, str_eq_self key)
      (Listed-append_right i (bucket key m) (i ∷ []) (inl refl))

Listed-bucket_keep :
    (key k : Str) (i j : ℕ) (m : List (Str × List ℕ))
    → Listed j (bucket k m)
    → Listed j (bucket k (push_entry key i m))
Listed-bucket_keep key k i j m h = rw (bucket-push_entry key k i m) (split (str_eq key k))
  where
    split : (b : Bool) → Listed j (if b then bucket k m ++ i ∷ [] else bucket k m)
    split true = Listed-append_left j (bucket k m) (i ∷ []) h
    split false = h

-- What is in a bucket is in the map.
pub bucket-values :
    (k : Str) (j : ℕ) (m : List (Str × List ℕ)) → Listed j (bucket k m) → Listed j (join (values m))
unfolding bucket
bucket-values k j [] h = absurd h
bucket-values k j ((key, v) ∷ m) h = elim (Bool-cases (str_eq key k)) [
  | inl e ↦ Listed-append_left j v (join (values m)) (rw (e, bucket) at h)
  | inr e ↦ Listed-append_right j v (join (values m)) (bucket-values k j m (rw (e, bucket) at h))
]

abbrev pub members : List (Str × List ℕ) → List ℕ
members m = join (values m)

members-insert_key :
    (key : Str) (i j : ℕ) (m : List (Str × List ℕ))
    → Listed j (members (insert_key key i m))
    → (j ≡ i) ⊎ Listed j (members m)
unfolding insert_key
members-insert_key key i j [] (inl e) = inl e
members-insert_key key i j [] (inr h) = absurd h
members-insert_key key i j ((k, v) ∷ m) h = elim (Bool-cases (str_lt key k)) [
  | inl e ↦ rw (e, insert_key) at h
  | inr e ↦
      elim (Listed-append_cases j v (members (insert_key key i m)) (rw (e, insert_key) at h)) [
        | inl l ↦ inr (Listed-append_left j v (members m) l)
        | inr l ↦ elim (members-insert_key key i j m l) [
          | inl same ↦ inl same
          | inr r ↦ inr (Listed-append_right j v (members m) r)
        ]
      ]
]

members-push_at :
    (key : Str) (i j : ℕ) (m : List (Str × List ℕ))
    → Listed j (members (push_at key i m))
    → (j ≡ i) ⊎ Listed j (members m)
unfolding push_at
members-push_at key i j [] h = absurd h
members-push_at key i j ((k, v) ∷ m) h = elim (Bool-cases (str_eq k key)) [
  | inl e ↦ elim (Listed-append_cases j (v ++ i ∷ []) (members m) (rw (e, push_at) at h)) [
    | inl l ↦ elim (Listed-append_cases j v (i ∷ []) l) [
      | inl r ↦ inr (Listed-append_left j v (members m) r)
      | inr (inl same) ↦ inl same
      | inr (inr r) ↦ absurd r
    ]
    | inr l ↦ inr (Listed-append_right j v (members m) l)
  ]
  | inr e ↦ elim (Listed-append_cases j v (members (push_at key i m)) (rw (e, push_at) at h)) [
    | inl l ↦ inr (Listed-append_left j v (members m) l)
    | inr l ↦ elim (members-push_at key i j m l) [
      | inl same ↦ inl same
      | inr r ↦ inr (Listed-append_right j v (members m) r)
    ]
  ]
]

-- Nothing but the new number is added to a map.
pub members-push_entry :
    (key : Str) (i j : ℕ) (m : List (Str × List ℕ))
    → Listed j (members (push_entry key i m))
    → (j ≡ i) ⊎ Listed j (members m)
unfolding push_entry
members-push_entry key i j m h = elim (Bool-cases (has_key key m)) [
  | inl e ↦ members-push_at key i j m (rw (e, push_entry) at h)
  | inr e ↦ members-insert_key key i j m (rw (e, push_entry) at h)
]

-- Where a rule is filed: under a key, or under a literal.
pub data Place : Type 0 where
  under : MatcherIndexKey → Place
  by_literal : Str → Place

abbrev pub literal_place : Option Str → Place
literal_place none = Place.under MatcherIndexKey.global
literal_place (some literal) = Place.by_literal literal

abbrev pub file_place : Place → ℕ → Buckets → Buckets
file_place (Place.under key) i b = file_key key i b
file_place (Place.by_literal literal) i b = file_literal (some literal) i b

-- The rule is found at the place.
abbrev pub HeldAt : Place → ℕ → Buckets → Type 0
HeldAt (Place.under (MatcherIndexKey.exact host)) i b = Listed i (bucket host b.domain_exact)
HeldAt (Place.under (MatcherIndexKey.suffix base)) i b = Listed i (bucket base b.domain_suffix)
HeldAt (Place.under MatcherIndexKey.global) i b = Listed i b.global
HeldAt (Place.by_literal literal) i b =
    Listed i (bucket literal b.literal_rules) × Listed i b.rule_ids

pub file_place-HeldAt_self : (p : Place) (i : ℕ) (b : Buckets) → HeldAt p i (file_place p i b)
file_place-HeldAt_self (Place.under (MatcherIndexKey.exact host)) i b =
    Listed-bucket_self host i b.domain_exact
file_place-HeldAt_self (Place.under (MatcherIndexKey.suffix base)) i b =
    Listed-bucket_self base i b.domain_suffix
file_place-HeldAt_self (Place.under MatcherIndexKey.global) i b =
    Listed-append_right i b.global (i ∷ []) (inl refl)
file_place-HeldAt_self (Place.by_literal literal) i b = (
  Listed-bucket_self literal i b.literal_rules,
  Listed-append_right i b.rule_ids (i ∷ []) (inl refl),
)

-- What was filed stays.
pub file_place-HeldAt :
    (q p : Place) (i j : ℕ) (b : Buckets) → HeldAt p j b → HeldAt p j (file_place q i b)
file_place-HeldAt (Place.under (MatcherIndexKey.exact h)) (Place.under (MatcherIndexKey.exact host))
      i j b l =
    Listed-bucket_keep h host i j b.domain_exact l
file_place-HeldAt (Place.under (MatcherIndexKey.exact h))
      (Place.under (MatcherIndexKey.suffix base)) i j b l =
    l
file_place-HeldAt (Place.under (MatcherIndexKey.exact h)) (Place.under MatcherIndexKey.global) i j b
      l =
    l
file_place-HeldAt (Place.under (MatcherIndexKey.exact h)) (Place.by_literal literal) i j b l = l
file_place-HeldAt (Place.under (MatcherIndexKey.suffix s))
      (Place.under (MatcherIndexKey.suffix base)) i j b l =
    Listed-bucket_keep s base i j b.domain_suffix l
file_place-HeldAt (Place.under (MatcherIndexKey.suffix s))
      (Place.under (MatcherIndexKey.exact host)) i j b l =
    l
file_place-HeldAt (Place.under (MatcherIndexKey.suffix s)) (Place.under MatcherIndexKey.global) i j
      b l =
    l
file_place-HeldAt (Place.under (MatcherIndexKey.suffix s)) (Place.by_literal literal) i j b l = l
file_place-HeldAt (Place.under MatcherIndexKey.global) (Place.under MatcherIndexKey.global) i j b
      l =
    Listed-append_left j b.global (i ∷ []) l
file_place-HeldAt (Place.under MatcherIndexKey.global) (Place.under (MatcherIndexKey.exact host)) i
      j b l =
    l
file_place-HeldAt (Place.under MatcherIndexKey.global) (Place.under (MatcherIndexKey.suffix base)) i
      j b l =
    l
file_place-HeldAt (Place.under MatcherIndexKey.global) (Place.by_literal literal) i j b l = l
file_place-HeldAt (Place.by_literal t) (Place.by_literal literal) i j b (l, m) =
    (Listed-bucket_keep t literal i j b.literal_rules l, Listed-append_left j b.rule_ids (i ∷ []) m)
file_place-HeldAt (Place.by_literal t) (Place.under (MatcherIndexKey.exact host)) i j b l = l
file_place-HeldAt (Place.by_literal t) (Place.under (MatcherIndexKey.suffix base)) i j b l = l
file_place-HeldAt (Place.by_literal t) (Place.under MatcherIndexKey.global) i j b l = l
