-- ===== src/Base/Assoc.antt =====
-- `HashMap<u64, V>` as a list of entries: `insert` replaces the entry of a key that is present,
-- `remove` takes the entry of a key out. The order of the entries is that of first insertion.
use Prim.Native.Nat.{ℕ, ◌+◌}
use mathlib.Core.Path.{◌≡◌, refl, subst}
use mathlib.Core.Logic.{◌≢◌, inl, inr}
use mathlib.Core.Bool.{true, Bool, not}
use mathlib.Core.List.{List, [], ◌∷◌}
use mathlib.Core.Option.{Option, none, some}
use native.Mathlib.Omega.{arith}
use rsproxy.Base.Tests.{Bool-cases, ◌==◌, if◌then◌else◌}
use rsproxy.Base.Lists.{filter}

module _ {ℓ} {V : Type ℓ} where
  unfoldable pub lookup : ℕ → List (ℕ × V) → Option V
  lookup sought [] = none
  lookup sought ((i, v) ∷ entries) = if i == sought then some v else lookup sought entries

  unfoldable pub insert : ℕ → V → List (ℕ × V) → List (ℕ × V)
  insert k new [] = (k, new) ∷ []
  insert k new ((i, old) ∷ m) = if i == k then (k, new) ∷ m else (i, old) ∷ insert k new m

  unfoldable pub remove : ℕ → List (ℕ × V) → List (ℕ × V)
  remove k [] = []
  remove k ((j, w) ∷ m) = if j == k then m else (j, w) ∷ remove k m

  -- No entry for the key.
  abbrev pub Fresh : ℕ → List (ℕ × V) → Type 0
  Fresh k [] = Unit
  Fresh k ((j, w) ∷ m) = (j ≢ k) × Fresh k m

  -- Every key has one entry.
  abbrev pub Unique : List (ℕ × V) → Type 0
  Unique [] = Unit
  Unique ((j, w) ∷ m) = Fresh j m × Unique m

  -- The sum of a measure of the values.
  unfoldable pub total : (V → ℕ) → List (ℕ × V) → ℕ
  total size [] = 0
  total size ((j, w) ∷ m) = size w + total size m

module _ {ℓ} {V : Type ℓ} where
  pub lookup-insert :
      (k sought : ℕ) (new : V) (entries : List (ℕ × V))
      → lookup sought (insert k new entries)
        ≡ (if k == sought then some new else lookup sought entries)
  unfolding lookup insert
  lookup-insert k sought new [] = refl
  lookup-insert k sought new (entry ∷ entries) = ground (arith, lookup-insert k sought new entries)

  pub lookup-insert_self : (k : ℕ) (v : V) (m : List (ℕ × V)) → lookup k (insert k v m) ≡ some v
  lookup-insert_self k v m =
      let same : (k == k) ≡ true = ground arith in rw (lookup-insert k k v m, same)

  pub Fresh-lookup : (k : ℕ) (m : List (ℕ × V)) → Fresh k m → lookup k m ≡ none
  unfolding lookup
  Fresh-lookup k [] h = refl
  Fresh-lookup k ((j, w) ∷ m) h = ground (arith, Fresh-lookup k m h.1)

  pub lookup-remove_ne : (k j : ℕ) (m : List (ℕ × V)) → k ≢ j → lookup j (remove k m) ≡ lookup j m
  unfolding lookup remove
  lookup-remove_ne k j [] h = refl
  lookup-remove_ne k j ((i, w) ∷ m) h = ground (arith, lookup-remove_ne k j m h)

  pub lookup-remove_self : (k : ℕ) (m : List (ℕ × V)) → Unique m → lookup k (remove k m) ≡ none
  unfolding lookup remove
  lookup-remove_self k [] u = refl
  lookup-remove_self k ((i, w) ∷ m) u =
      ground (arith, lookup-remove_self k m u.1, Fresh-lookup i m u.0)

  pub remove_absent : (k : ℕ) (m : List (ℕ × V)) → lookup k m ≡ none → remove k m ≡ m
  unfolding lookup remove
  remove_absent k [] h = refl
  remove_absent k ((i, w) ∷ m) h = ground (arith, remove_absent k m)

  pub remove-insert : (k : ℕ) (v : V) (m : List (ℕ × V)) → remove k (insert k v m) ≡ remove k m
  unfolding insert remove
  remove-insert k v [] = ground arith
  remove-insert k v ((i, w) ∷ m) = ground (arith, remove-insert k v m)

  Fresh-insert : (k j : ℕ) (v : V) (m : List (ℕ × V)) → k ≢ j → Fresh j m → Fresh j (insert k v m)
  unfolding insert
  Fresh-insert k j v [] h f = (h, tt)
  Fresh-insert k j v ((i, w) ∷ m) h f = ground (arith, Fresh-insert k j v m h f.1)

  pub Unique-insert : (k : ℕ) (v : V) (m : List (ℕ × V)) → Unique m → Unique (insert k v m)
  unfolding insert
  Unique-insert k v [] u = (tt, tt)
  Unique-insert k v ((i, w) ∷ m) u = ground (arith, Unique-insert k v m u.1, Fresh-insert k i v m)

  Fresh-remove : (k j : ℕ) (m : List (ℕ × V)) → Fresh j m → Fresh j (remove k m)
  unfolding remove
  Fresh-remove k j [] f = tt
  Fresh-remove k j ((i, w) ∷ m) f = ground (arith, Fresh-remove k j m f.1)

  pub Unique-remove : (k : ℕ) (m : List (ℕ × V)) → Unique m → Unique (remove k m)
  unfolding remove
  Unique-remove k [] u = tt
  Unique-remove k ((i, w) ∷ m) u = ground (arith, Unique-remove k m u.1, Fresh-remove k i m u.0)

  Fresh-filter : (j : ℕ) (p : ℕ × V → Bool) (m : List (ℕ × V)) → Fresh j m → Fresh j (filter p m)
  Fresh-filter j p [] f = tt
  Fresh-filter j p ((i, w) ∷ m) f = ground (arith, Fresh-filter j p m f.1)

  pub Unique-filter : (p : ℕ × V → Bool) (m : List (ℕ × V)) → Unique m → Unique (filter p m)
  Unique-filter p [] u = tt
  Unique-filter p ((i, w) ∷ m) u = ground (arith, Unique-filter p m u.1, Fresh-filter i p m u.0)

module _ {ℓ} {V : Type ℓ} where
  pub insert_twice : (k : ℕ) (v w : V) (m : List (ℕ × V)) → insert k v (insert k w m) ≡ insert k v m
  unfolding insert
  insert_twice k v w [] = ground arith
  insert_twice k v w ((i, x) ∷ m) = ground (arith, insert_twice k v w m)

-- A property of every value.
module _ {ℓ κ} {V : Type ℓ} (P : V → Type κ) where
  abbrev pub AllValues : List (ℕ × V) → Type κ
  AllValues [] = Unit
  AllValues ((j, w) ∷ m) = P w × AllValues m

  pub AllValues-lookup :
      (k : ℕ) (v : V) (m : List (ℕ × V)) → AllValues m → lookup k m ≡ some v → P v
  unfolding lookup
  AllValues-lookup k v [] h e = cc
  AllValues-lookup k v ((i, w) ∷ m) h e = elim (Bool-cases (i == k)) [
    | inl here ↦ let same : w ≡ v = ground arith in subst P same h.0
    | inr there ↦ AllValues-lookup k v m h.1 (rw there at e)
  ]

  pub AllValues-insert :
      (k : ℕ) (v : V) (m : List (ℕ × V)) → AllValues m → P v → AllValues (insert k v m)
  unfolding insert
  AllValues-insert k v [] h pv = (pv, tt)
  AllValues-insert k v ((i, w) ∷ m) h pv = elim (Bool-cases (i == k)) [
    | inl here ↦ rw here (pv, h.1)
    | inr there ↦ rw there (h.0, AllValues-insert k v m h.1 pv)
  ]

  pub AllValues-remove : (k : ℕ) (m : List (ℕ × V)) → AllValues m → AllValues (remove k m)
  unfolding remove
  AllValues-remove k [] h = tt
  AllValues-remove k ((i, w) ∷ m) h = elim (Bool-cases (i == k)) [
    | inl here ↦ rw here h.1
    | inr there ↦ rw there (h.0, AllValues-remove k m h.1)
  ]

  pub AllValues-filter :
      (p : ℕ × V → Bool) (m : List (ℕ × V)) → AllValues m → AllValues (filter p m)
  AllValues-filter p [] h = tt
  AllValues-filter p ((i, w) ∷ m) h = elim (Bool-cases (p (i, w))) [
    | inl kept ↦ rw kept (h.0, AllValues-filter p m h.1)
    | inr gone ↦ rw gone (AllValues-filter p m h.1)
  ]

module _ {ℓ} {V : Type ℓ} (size : V → ℕ) where
  pub total-remove :
      (k : ℕ) (v : V) (m : List (ℕ × V))
      → lookup k m ≡ some v
      → total size (remove k m) + size v ≡ total size m
  unfolding lookup remove total
  total-remove k v [] h = cc
  total-remove k v ((i, w) ∷ m) h = ground (arith, total-remove k v m)

  pub total-insert_new :
      (k : ℕ) (v : V) (m : List (ℕ × V))
      → lookup k m ≡ none
      → total size (insert k v m) ≡ total size m + size v
  unfolding lookup insert total
  total-insert_new k v [] h = omega arith
  total-insert_new k v ((i, w) ∷ m) h = ground (arith, total-insert_new k v m)

  pub total-insert_old :
      (k : ℕ) (v w : V) (m : List (ℕ × V))
      → lookup k m ≡ some w
      → total size (insert k v m) + size w ≡ total size m + size v
  unfolding lookup insert total
  total-insert_old k v w [] h = cc
  total-insert_old k v w ((i, x) ∷ m) h = ground (arith, total-insert_old k v w m)

  -- What `retain` keeps and what it drops make up the whole.
  pub total-filter :
      (p : ℕ × V → Bool) (m : List (ℕ × V))
      → total size (filter p m) + total size (filter (λ e. not (p e)) m) ≡ total size m
  unfolding total
  total-filter p [] = omega arith
  total-filter p ((i, w) ∷ m) = ground (arith, total-filter p m)
