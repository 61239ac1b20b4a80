-- ===== src/Pool/Admission.antt =====
-- crates/rsproxy-net/src/upstream_pool.rs: the admission loop and the counts of active streams.
use rsproxy.Base.Members.{Listed}
use rsproxy.Base.{
  ℕ, ◌<◌, ◌≡◌, ◌≢◌, refl, ◌⊎◌, inl, inr, true, ◌&&◌, List, [], ◌∷◌, ltb, leb, ◌==◌, arith,
  Bool-cases,
}
use rsproxy.Pool.Activity.{
  KeyedActivity, SlotResult, Wake, active_for, reserve, acquire_loop, acquire_slot, acquired,
  timed_out, waiting, invalid_input,
}

-- The activities that the loop looks at.
abbrev pub seen_activities : KeyedActivity → List Wake → List KeyedActivity
seen_activities activity [] = activity ∷ []
seen_activities activity (wake ∷ wakes) = activity ∷ seen_activities wake.activity wakes

-- The outcome on an activity: a stream more where there was room, or nothing.
abbrev pub Admits : ℕ → ℕ → KeyedActivity → SlotResult × KeyedActivity → Type 0
Admits key limit seen (result, activity) =
    ((result ≡ acquired) × (active_for key seen < limit) × (activity ≡ reserve key seen))
    ⊎ ((result ≢ acquired) × (activity ≡ seen))

abbrev pub AdmitsSeen : ℕ → ℕ → List KeyedActivity → SlotResult × KeyedActivity → Type 0
AdmitsSeen key limit activities outcome =
    (seen : KeyedActivity) × Listed seen activities × Admits key limit seen outcome

timed_out-ne : timed_out ≢ acquired
timed_out-ne h = cc

waiting-ne : waiting ≢ acquired
waiting-ne h = cc

invalid_input-ne : invalid_input ≢ acquired
invalid_input-ne h = cc

room : (n limit : ℕ) → ltb n limit ≡ true → n < limit
room n limit h = ground (arith, h)

head-seen :
    (activity : KeyedActivity) (wakes : List Wake)
    → Listed activity (seen_activities activity wakes)
head-seen activity [] = inl refl
head-seen activity (wake ∷ wakes) = inl refl

acquire_loop_lem :
    (key limit timeout : ℕ) (activity : KeyedActivity) (wakes : List Wake)
    → AdmitsSeen key limit
        (seen_activities activity wakes)
        (acquire_loop key limit timeout activity wakes)
unfolding acquire_loop
acquire_loop_lem key limit timeout activity [] =
    elim (Bool-cases (ltb (active_for key activity) limit)) [
      | inl free ↦
          rw free (activity, inl refl, inl (refl, room (active_for key activity) limit free, refl))
      | inr full ↦ rw full (activity, inl refl, inr (waiting-ne, refl))
    ]
acquire_loop_lem key limit timeout activity (wake ∷ wakes) =
    elim (Bool-cases (ltb (active_for key activity) limit)) [
      | inl free ↦
          rw free (activity, inl refl, inl (refl, room (active_for key activity) limit free, refl))
      | inr full ↦ elim (Bool-cases (ltb timeout wake.elapsed)) [
        | inl over ↦ rw (full, over) (activity, inl refl, inr (timed_out-ne, refl))
        | inr time ↦ elim (Bool-cases (wake.ran_out && leb limit (active_for key wake.activity))) [
          | inl lost ↦
              rw (full, time, lost)
                (wake.activity, inr (head-seen wake.activity wakes), inr (timed_out-ne, refl))
          | inr again ↦
              let (seen, l, a) = acquire_loop_lem key limit timeout wake.activity wakes in
              rw (full, time, again) (seen, inr l, a)
        ]
      ]
    ]

-- However the waits go, the admission of a stream ends on an activity that it saw under the lock: it
-- has acquired a slot, that activity was below the limit for the key and has one stream more now, or
-- it has none and changed nothing.
pub acquire_slot_lem :
    (key limit timeout : ℕ) (activity : KeyedActivity) (wakes : List Wake)
    → AdmitsSeen key limit
        (seen_activities activity wakes)
        (acquire_slot key limit timeout activity wakes)
unfolding acquire_slot
acquire_slot_lem key limit timeout activity wakes = elim (Bool-cases (limit == 0)) [
  | inl none_allowed ↦
      rw none_allowed (activity, head-seen activity wakes, inr (invalid_input-ne, refl))
  | inr some_allowed ↦ elim (Bool-cases (timeout == 0)) [
    | inl no_time ↦
        rw (some_allowed, no_time)
          (activity, head-seen activity wakes, inr (invalid_input-ne, refl))
    | inr time ↦ rw (some_allowed, time) (acquire_loop_lem key limit timeout activity wakes)
  ]
]
