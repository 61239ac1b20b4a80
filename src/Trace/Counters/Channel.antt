-- ===== src/Trace/Counters/Channel.antt =====
-- The bounded channel between the producers and the collector, as interleaved steps: a producer
-- reserves its bytes in one atomic step and sends in another, and the collector takes a command,
-- handles it and releases its bytes. src/store.rs and src/store/worker.rs of crates/rsproxy-trace.
use rsproxy.Base.{
  ℕ, ◌+◌, ◌≤◌, ◌<◌, ◌≡◌, refl, ap, true, false, Option, none, some, List, [], ◌∷◌, ◌++◌, length,
  length-append, arith,
}
use rsproxy.Base.Words.{word_max, wrap_add}
use rsproxy.Trace.Counters.{TraceCounters, try_reserve, release_queue_bytes, count_drop}

-- `in_flight` holds what producers have reserved and not sent yet; `queue` the charges of the
-- commands in the channel, oldest first, a query's being 0; `busy` that of the one being handled.
pub record Channel : Type 0 where
  pub counters : TraceCounters
  pub in_flight : List ℕ
  pub queue : List ℕ
  pub busy : Option ℕ

abbrev pub sum : List ℕ → ℕ
sum [] = 0
sum (x ∷ xs) = x + sum xs

abbrev pub charge_of : Option ℕ → ℕ
charge_of none = 0
charge_of (some b) = b

module _ (budget capacity : ℕ) where
  -- One step of one thread.
  pub data Step : Channel → Channel → Type 0 where
    reserve :
        (ch : Channel) (bytes : ℕ) (c : TraceCounters)
        → try_reserve bytes budget ch.counters ≡ (c, true)
        → Step ch (record ch { counters = c; in_flight = bytes ∷ ch.in_flight })
    refuse :
        (ch : Channel) (bytes : ℕ)
        → (try_reserve bytes budget ch.counters).1 ≡ false
        → Step ch (record ch {
          counters = record (count_drop ch.counters) {
            queue_memory_dropped = wrap_add ch.counters.queue_memory_dropped 1;
          };
        })
    send :
        (ch : Channel) (before : List ℕ) (bytes : ℕ) (after : List ℕ)
        → ch.in_flight ≡ before ++ bytes ∷ after
        → length ch.queue < capacity
        → Step ch (record ch { in_flight = before ++ after; queue = ch.queue ++ bytes ∷ [] })
    full :
        (ch : Channel) (before : List ℕ) (bytes : ℕ) (after : List ℕ)
        → ch.in_flight ≡ before ++ bytes ∷ after
        → Step ch (record ch {
          counters = count_drop (release_queue_bytes bytes ch.counters);
          in_flight = before ++ after;
        })
    ask :
        (ch : Channel)
        → length ch.queue < capacity
        → Step ch (record ch { queue = ch.queue ++ 0 ∷ [] })
    receive :
        (ch : Channel) (bytes : ℕ) (rest : List ℕ)
        → ch.queue ≡ bytes ∷ rest
        → ch.busy ≡ none
        → Step ch (record ch { queue = rest; busy = some bytes })
    release :
        (ch : Channel) (bytes : ℕ)
        → ch.busy ≡ some bytes
        → Step ch (record ch { counters = release_queue_bytes bytes ch.counters; busy = none })

  pub data Reach (start : Channel) : Channel → Type 0 where
    here : Reach start start
    next : {ch ch' : Channel} → Reach start ch → Step ch ch' → Reach start ch'

-- The shared counter is the sum of what is reserved and not released, it is within the budget, and
-- the channel is within its capacity.
pub record IsBounded (budget capacity : ℕ) (ch : Channel) : Type 0 where
  pub exact : ch.counters.queue_bytes ≡ sum ch.in_flight + sum ch.queue + charge_of ch.busy
  pub within : ch.counters.queue_bytes ≤ budget
  pub room : length ch.queue ≤ capacity

abbrev pub idle : Channel
idle = record {
  counters = record { next_id = 1; queue_dropped = 0; queue_memory_dropped = 0; queue_bytes = 0 };
  in_flight = [];
  queue = [];
  busy = none;
}

pub sum-append : (xs ys : List ℕ) → sum (xs ++ ys) ≡ sum xs + sum ys
sum-append [] ys = omega arith
sum-append (x ∷ xs) ys = omega (arith, sum-append xs ys)

try_reserve-reserved :
    (bytes budget : ℕ) (c c' : TraceCounters)
    → budget < word_max
    → try_reserve bytes budget c ≡ (c', true)
    → (c'.queue_bytes ≡ c.queue_bytes + bytes) × (c'.queue_bytes ≤ budget)
unfolding try_reserve
try_reserve-reserved bytes budget c c' small e = ground arith

module _ (budget capacity : ℕ) (small : budget < word_max) where
  Step-IsBounded :
      {ch ch' : Channel}
      → Step budget capacity ch ch'
      → IsBounded budget capacity ch
      → IsBounded budget capacity ch'
  unfolding release_queue_bytes
  Step-IsBounded (reserve ch bytes c e) b =
      let (more, fits) = try_reserve-reserved bytes budget ch.counters c small e in
      record { exact = omega arith; within = fits; room = b.room }
  Step-IsBounded (refuse ch bytes e) b = record {
    exact = b.exact;
    within = b.within;
    room = b.room;
  }
  Step-IsBounded (send ch before bytes after e h) b = record {
    exact = omega (
      arith,
      ap sum e,
      sum-append before (bytes ∷ after),
      sum-append before after,
      sum-append ch.queue (bytes ∷ []),
    );
    within = b.within;
    room = omega (arith, length-append ch.queue (bytes ∷ []));
  }
  Step-IsBounded (full ch before bytes after e) b = record {
    exact = omega (arith, ap sum e, sum-append before (bytes ∷ after), sum-append before after);
    within = omega arith;
    room = b.room;
  }
  Step-IsBounded (ask ch h) b = record {
    exact = omega (arith, sum-append ch.queue (0 ∷ []));
    within = b.within;
    room = omega (arith, length-append ch.queue (0 ∷ []));
  }
  Step-IsBounded (receive ch bytes rest e i) b = record {
    exact = omega (arith, ap sum e, ap charge_of i);
    within = b.within;
    room = omega (arith, ap (length {A = ℕ}) e);
  }
  Step-IsBounded (release ch bytes e) b = record {
    exact = omega (arith, ap charge_of e);
    within = omega arith;
    room = b.room;
  }

  -- Whatever the threads do, and in whatever order, the bytes of the commands that are reserved,
  -- queued or being handled add up to the shared counter, and never exceed the queue's budget; the
  -- channel never holds more commands than its capacity.
  pub Reach-IsBounded :
      {ch : Channel} → Reach budget capacity idle ch → IsBounded budget capacity ch
  Reach-IsBounded here = record { exact = refl; within = omega arith; room = omega arith }
  Reach-IsBounded (next r st) = Step-IsBounded st (Reach-IsBounded r)
