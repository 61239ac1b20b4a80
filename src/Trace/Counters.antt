-- ===== src/Trace/Counters.antt =====
-- crates/rsproxy-trace/src/store/counters.rs, and `submit` of src/store.rs: the counters that the
-- producers and the collector share, and the admission of a command to the queue.
pub mod Channel
use rsproxy.Base.{
  ℕ, ◌+◌, ◌-◌, ◌≤◌, ◌≡◌, refl, Bool, true, false, Option, none, some, List, [], ◌∷◌, ◌++◌, ltb, leb,
  ◌&&◌, not, ap, ◌==◌, Bool-cases, inl, inr, arith, if◌then◌else◌,
}
use rsproxy.Base.Words.{word_max, sat_add, sat_sub, wrap_add}

pub record TraceCounters : Type 0 where
  pub next_id : ℕ
  pub queue_dropped : ℕ
  pub queue_memory_dropped : ℕ
  pub queue_bytes : ℕ

unfoldable pub new : TraceCounters
new = record { next_id = 1; queue_dropped = 0; queue_memory_dropped = 0; queue_bytes = 0 }

-- An attempt of `compare_exchange_weak`: what the counter holds then, which other threads may have
-- changed meanwhile, and whether the attempt fails although the counter is as expected.
pub record Attempt : Type 0 where
  pub counter : ℕ
  pub spurious : Bool

-- How the loop of `try_reserve` ends: refused, or with a value that it stored in the counter.
pub data Reservation : Type 0 where
  refused : Reservation
  stored : ℕ → Reservation

-- The loop from the reading `queued`, over the attempts that are to come, with those that it leaves;
-- `none` if they end first.
unfoldable pub try_reserve_loop : ℕ → ℕ → ℕ → List Attempt → Option (Reservation × List Attempt)
unfolding sat_add
try_reserve_loop bytes budget queued [] =
    if ltb budget (sat_add queued bytes) then some (refused, []) else none
try_reserve_loop bytes budget queued (a ∷ rest) =
    let again = try_reserve_loop bytes budget a.counter rest in
    if ltb budget (sat_add queued bytes)
    then some (refused, a ∷ rest)
    else if a.counter == queued && not a.spurious
    then some (stored (sat_add queued bytes), rest)
    else again

-- The same as one atomic step on the counter.
unfoldable pub try_reserve : ℕ → ℕ → TraceCounters → TraceCounters × Bool
unfolding sat_add
try_reserve bytes budget c =
    if ltb budget (sat_add c.queue_bytes bytes)
    then (c, false)
    else (record c { queue_bytes = sat_add c.queue_bytes bytes }, true)

unfoldable pub release_queue_bytes : ℕ → TraceCounters → TraceCounters
release_queue_bytes bytes c = record c { queue_bytes = sat_sub c.queue_bytes bytes }

-- `fetch_add` wraps around.
abbrev pub count_drop : TraceCounters → TraceCounters
count_drop c = record c { queue_dropped = wrap_add c.queue_dropped 1 }

-- `submit`; `sends` tells whether `try_send` finds room in a connected channel.
unfoldable pub submit : ℕ → ℕ → Bool → TraceCounters → TraceCounters × Bool
unfolding try_reserve release_queue_bytes
submit bytes budget sends c =
    let (reserved_c, done) = try_reserve bytes budget c in
    if done
    then if sends
      then (reserved_c, true)
      else (count_drop (release_queue_bytes bytes reserved_c), false)
    else (
      record (count_drop reserved_c) {
        queue_memory_dropped = wrap_add reserved_c.queue_memory_dropped 1;
      },
      false,
    )

-- The identifier of a new session.
unfoldable pub next : TraceCounters → ℕ × TraceCounters
next c = (c.next_id, record c { next_id = wrap_add c.next_id 1 })

-- The counter as the last of some attempts met it; before the first, as the loop loaded it.
abbrev pub last_value : ℕ → List Attempt → ℕ
last_value queued [] = queued
last_value queued (a ∷ made) = last_value a.counter made

-- Every attempt failed: it met a counter that had changed since the reading before, or failed for no
-- reason.
abbrev pub Contended : ℕ → List Attempt → Type 0
Contended queued [] = Unit
Contended queued (a ∷ rest) =
    ((a.counter == queued && not a.spurious) ≡ false) × Contended a.counter rest

-- What a reservation makes of the counters, and what `try_reserve` reports.
abbrev pub outcome : Reservation → TraceCounters → TraceCounters × Bool
outcome refused c = (c, false)
outcome (stored value) c = (record c { queue_bytes = value }, true)

-- The loop does what an atomic `try_reserve` does at the last attempt that it made.
abbrev pub IsAtomic :
    ℕ → ℕ → ℕ → List Attempt → TraceCounters → Option (Reservation × List Attempt) → Type 0
IsAtomic bytes budget queued attempts c none = Contended queued attempts
IsAtomic bytes budget queued attempts c (some (r, left)) =
    (made : List Attempt) × (attempts ≡ made ++ left)
    × (try_reserve bytes budget (record c { queue_bytes = last_value queued made })
        ≡ outcome r (record c { queue_bytes = last_value queued made }))

more-IsAtomic :
    (bytes budget queued : ℕ) (a : Attempt) (rest : List Attempt) (c : TraceCounters)
    (r : Option (Reservation × List Attempt))
    → (a.counter == queued && not a.spurious) ≡ false
    → IsAtomic bytes budget a.counter rest c r
    → IsAtomic bytes budget queued (a ∷ rest) c r
more-IsAtomic bytes budget queued a rest c none fails g = (fails, g)
more-IsAtomic bytes budget queued a rest c (some (r, left)) fails (made, shape, same) =
    (a ∷ made, ap (λ l. a ∷ l) shape, same)

-- Whatever other threads do to the counter between the attempts, a loop that ends does what one
-- atomic `try_reserve` does on the counter as the last attempt that it made met it: it is refused
-- there, or it stores there the counter's value with the bytes added. A loop that does not end has
-- had every attempt fail, for a counter that changed since the reading before, or spuriously.
pub try_reserve_loop_lem :
    (bytes budget queued : ℕ) (attempts : List Attempt) (c : TraceCounters)
    → IsAtomic bytes budget queued attempts c (try_reserve_loop bytes budget queued attempts)
unfolding try_reserve_loop try_reserve
try_reserve_loop_lem bytes budget queued [] c =
    elim (Bool-cases (ltb budget (sat_add queued bytes))) [
      | inl over ↦ rw (over, try_reserve_loop) ([], refl, ground arith)
      | inr fits ↦ rw (fits, try_reserve_loop) tt
    ]
try_reserve_loop_lem bytes budget queued (a ∷ rest) c =
    elim (Bool-cases (ltb budget (sat_add queued bytes))) [
      | inl over ↦ rw (over, try_reserve_loop) ([], refl, ground arith)
      | inr fits ↦ elim (Bool-cases (a.counter == queued && not a.spurious)) [
        | inl wins ↦ rw (fits, wins, try_reserve_loop) (a ∷ [], refl, ground arith)
        | inr loses ↦
            rw (fits, loses, try_reserve_loop)
              (more-IsAtomic bytes budget queued a rest c
                (try_reserve_loop bytes budget a.counter rest) loses
                (try_reserve_loop_lem bytes budget a.counter rest c))
      ]
    ]

-- `submit` succeeds exactly if the bytes fit into the budget and the channel takes the command. A
-- refusal leaves the byte counter as it was and is counted once, and once more as a refusal for
-- want of memory exactly if the bytes did not fit.
pub submit_lem :
    (bytes budget : ℕ) (sends : Bool) (c : TraceCounters)
    → c.queue_bytes + bytes ≤ word_max
    → ((submit bytes budget sends c).1 ≡ (leb (c.queue_bytes + bytes) budget && sends))
      × ((submit bytes budget sends c).0.queue_bytes
          ≡ (if (submit bytes budget sends c).1 then c.queue_bytes + bytes else c.queue_bytes))
      × ((submit bytes budget sends c).0.queue_dropped ≡ (
          if (submit bytes budget sends c).1 then c.queue_dropped else wrap_add c.queue_dropped 1))
      × ((submit bytes budget sends c).0.queue_memory_dropped ≡ (
          if leb (c.queue_bytes + bytes) budget
          then c.queue_memory_dropped
          else wrap_add c.queue_memory_dropped 1))
unfolding submit
submit_lem bytes budget sends c h = elim (Bool-cases (leb (c.queue_bytes + bytes) budget)) [
  | inl fits ↦ ground arith
  | inr not_fits ↦ ground arith
]
