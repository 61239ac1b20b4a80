-- ===== src/Pool/Tests.antt =====
-- The pool on concrete steps: a stream is admitted, claims the connector and puts its connection in.
use rsproxy.Base.{◌≡◌, ◌<◌, refl, true, false, some, List, [], ◌∷◌, arith}
use rsproxy.Base.Assoc.{lookup, insert, remove}
use rsproxy.Pool.Activity.{
  KeyedActivity, Wake, active_for, reserve, acquire_loop, acquire_slot, acquired, timed_out,
}
use rsproxy.Pool.Admission.{AdmitsSeen, acquire_slot_lem}
use rsproxy.Pool.Http2.{
  PoolEntry, H2PoolLease, empty_pool, get, make_room, insert_entry, claim_connector, wait_round,
  reserve_stream,
}
use rsproxy.Pool.Steps.{
  Upstream, initial, new_lease, waited, Reach, acquire, wait, connect, start, step,
}
use rsproxy.Pool.Steps.Reachable.{IsSound, Reach-IsSound}

abbrev admitted : Upstream
admitted = record initial { pool = reserve_stream 7 empty_pool; leases = new_lease 7 ∷ [] }

abbrev claiming : Upstream
claiming = waited [] (new_lease 7) [] (wait_round 100 7 1 2 1000 1 admitted.pool)

abbrev connection : PoolEntry
connection = record { generation = 1; sender = 40; last_used = 200 }

abbrev holder : H2PoolLease
holder = record { key = 7; connector_generation = some 1 }

abbrev connected : Upstream
connected = record claiming { pool = insert_entry 7 connection claiming.pool }

nothing_active : active_for 7 [] < 2
unfolding active_for lookup
nothing_active = omega arith

claims : claiming.leases ≡ holder ∷ []
unfolding wait_round get claim_connector lookup insert remove
claims = refl

connected-Reach : Reach 2 connected
connected-Reach =
    step
      (step (step start (acquire initial 7 2 (omega arith) nothing_active))
        (wait admitted [] (new_lease 7) [] 100 1 2 1000 refl refl))
      (connect claiming [] holder [] 1 connection claims refl)

kept : (get 300 7 connected.pool).1 ≡ some (record connection { last_used = 300 })
unfolding get insert_entry wait_round claim_connector make_room lookup insert remove active_for
    reserve
kept = refl

Reach-IsSound_example : IsSound 2 connected
Reach-IsSound_example = Reach-IsSound 2 (omega arith) connected-Reach

-- The limit is reached; a slot is free after the second wait.
abbrev busy : KeyedActivity
busy = (7, 2) ∷ []

abbrev freed : KeyedActivity
freed = (7, 1) ∷ []

abbrev wakes : List Wake
wakes =
    record { elapsed = 5; activity = busy; ran_out = false }
    ∷ record { elapsed = 9; activity = freed; ran_out = true }
    ∷ []

waits_twice : acquire_slot 7 2 50 busy wakes ≡ (acquired, (7, 2) ∷ [])
unfolding acquire_slot acquire_loop active_for lookup reserve insert
waits_twice = refl

too_late : acquire_slot 7 2 6 busy wakes ≡ (timed_out, busy)
unfolding acquire_slot acquire_loop active_for lookup reserve insert
too_late = refl

acquire_slot_lem_example :
    AdmitsSeen 7 2 (busy ∷ busy ∷ freed ∷ []) (acquire_slot 7 2 50 busy wakes)
acquire_slot_lem_example = acquire_slot_lem 7 2 50 busy wakes
