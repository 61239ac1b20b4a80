-- ===== src/Pool/Activity.antt =====
-- crates/rsproxy-net/src/upstream_pool.rs: `KeyedActivity` and the admission loop. A pool key is a
-- text that is compared for equality only, and is known by a number here. The time that an
-- admission took, which is reported, is left out.
use rsproxy.Base.{
  ℕ, ◌+◌, ◌-◌, ◌<◌, ◌≤◌, ◌≡◌, inl, inr, Bool, ◌&&◌, Option, none, some, List, [], ◌∷◌, ltb, leb,
  ◌==◌, if◌then◌else◌, arith, Option-cases, Bool-cases,
}
use rsproxy.Base.Words.{wrap_add, word_max}
use rsproxy.Base.Assoc.{
  lookup, insert, remove, Unique, Unique-insert, Unique-remove, lookup-insert, lookup-remove_ne,
  lookup-remove_self,
}

-- `KeyedActivity`, by its `per_key`.
abbrev pub KeyedActivity : Type 0
KeyedActivity = List (ℕ × ℕ)

abbrev pub or_zero : Option ℕ → ℕ
or_zero none = 0
or_zero (some n) = n

unfoldable pub active_for : ℕ → KeyedActivity → ℕ
unfolding lookup
active_for key activity = or_zero (lookup key activity)

unfoldable pub reserve : ℕ → KeyedActivity → KeyedActivity
unfolding active_for insert
reserve key activity = insert key (wrap_add (active_for key activity) 1) activity

unfoldable pub release : ℕ → KeyedActivity → KeyedActivity
unfolding lookup insert remove
release key activity = elim (lookup key activity) [
  | none ↦ activity
  | some active ↦ if active - 1 == 0 then remove key activity else insert key (active - 1) activity
]

pub data SlotResult : Type 0 where
  acquired timed_out waiting invalid_input : SlotResult

-- One wait on the condition variable: the time passed before it, the activity found after it, and
-- whether the wait ran out.
pub record Wake : Type 0 where
  pub elapsed : ℕ
  pub activity : KeyedActivity
  pub ran_out : Bool

-- The loop of `acquire_slot` over the waits that it makes; it is `waiting` when these are over.
unfoldable pub acquire_loop : ℕ → ℕ → ℕ → KeyedActivity → List Wake → SlotResult × KeyedActivity
unfolding active_for reserve
acquire_loop key limit timeout activity [] =
    if ltb (active_for key activity) limit
    then (acquired, reserve key activity)
    else (waiting, activity)
acquire_loop key limit timeout activity (wake ∷ wakes) =
    let again = acquire_loop key limit timeout wake.activity wakes in
    if ltb (active_for key activity) limit
    then (acquired, reserve key activity)
    else if ltb timeout wake.elapsed
    then (timed_out, activity)
    else if wake.ran_out && leb limit (active_for key wake.activity)
    then (timed_out, wake.activity)
    else again

unfoldable pub acquire_slot : ℕ → ℕ → ℕ → KeyedActivity → List Wake → SlotResult × KeyedActivity
unfolding acquire_loop
acquire_slot key limit timeout activity wakes =
    if limit == 0
    then (invalid_input, activity)
    else if timeout == 0
    then (invalid_input, activity)
    else acquire_loop key limit timeout activity wakes

pub reserve-active_for :
    (key k limit : ℕ) (activity : KeyedActivity)
    → limit ≤ word_max
    → active_for key activity < limit
    → active_for k (reserve key activity)
      ≡ (if key == k then active_for k activity + 1 else active_for k activity)
unfolding active_for reserve
reserve-active_for key k limit activity small room =
    ground (arith, lookup-insert key k (wrap_add (or_zero (lookup key activity)) 1) activity)

pub release-active_for :
    (key k : ℕ) (activity : KeyedActivity)
    → Unique activity
    → active_for k (release key activity)
      ≡ (if key == k then active_for k activity - 1 else active_for k activity)
unfolding active_for release
release-active_for key k activity u = elim (Option-cases (lookup key activity)) [
  | inl e ↦ ground (arith, e)
  | inr (active, e) ↦ ground (
    arith,
    e,
    lookup-insert key k (active - 1) activity,
    lookup-remove_self key activity u,
    lookup-remove_ne key k activity,
  )
]

pub reserve-Unique :
    (key : ℕ) (activity : KeyedActivity) → Unique activity → Unique (reserve key activity)
unfolding reserve
reserve-Unique key activity u = Unique-insert key (wrap_add (active_for key activity) 1) activity u

pub release-Unique :
    (key : ℕ) (activity : KeyedActivity) → Unique activity → Unique (release key activity)
unfolding release
release-Unique key activity u = elim (Option-cases (lookup key activity)) [
  | inl e ↦ rw (e, release) u
  | inr (active, e) ↦ elim (Bool-cases (active - 1 == 0)) [
    | inl z ↦ rw (e, z, release) (Unique-remove key activity u)
    | inr z ↦ rw (e, z, release) (Unique-insert key (active - 1) activity u)
  ]
]
