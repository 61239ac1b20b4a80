-- ===== src/WebSocket/Tunnel/Flush.antt =====
-- The writing loop of crates/rsproxy-engine/src/proxy/websocket/nonblocking.rs.
use rsproxy.Base.{
  subst, ◌⊎◌, inl, inr, Bool-cases, Option, none, some, ltb, ℕ, ◌+◌, ◌-◌, ◌≡◌, refl, sym, ap, ◌∙◌,
  ◌||◌, inl, inr, Bool-cases, List, [], ◌∷◌, ◌++◌, append-nil, append_assoc, take, drop, take-plus,
  drop-plus, length, length-drop, if◌then◌else◌, ◌==◌, true, false, arith,
}
use rsproxy.Trace.Event.{is_empty}
use rsproxy.WebSocket.Frame.{IoResult, ErrorKind, ok, err}
use rsproxy.WebSocket.Tunnel.{
  is_would_block, websocket_end_error, WriteEvent, wrote, refused, Flushing, flush_loop,
  flush_pending_nonblocking, after_flush,
}

-- How many bytes the writer takes while it is called with what waits: it is called until nothing
-- waits, or it takes nothing, or it refuses.
abbrev pub accepts : List WriteEvent → ℕ → ℕ
accepts [] waiting = 0
accepts (wrote n ∷ events) waiting =
    let more = accepts events (waiting - n) in
    if waiting == 0 then 0 else if n == 0 then 0 else n + more
accepts (refused e ∷ events) waiting = 0

-- A call that succeeds returns `count`; one that fails does so with no error that is the end of the
-- connection or tells that the socket would block.
abbrev pub IsAnswer : ℕ → IoResult ℕ → Type 0
IsAnswer count (ok n) = n ≡ count
IsAnswer count (err e) = (is_would_block e || websocket_end_error e) ≡ false

-- The bytes that the writer takes are sent and counted, the others are left.
pub record IsFlushed (events : List WriteEvent) (pending sent : List ℕ) (written : ℕ) (f : Flushing)
    : Type 0 where
  pub gone : f.sent ≡ sent ++ take (accepts events (length pending)) pending
  pub kept : f.left ≡ drop (accepts events (length pending)) pending
  pub answered : IsAnswer (written + accepts events (length pending)) f.result

accepts-stop :
    (n : ℕ) (events : List WriteEvent) (pending : List ℕ)
    → (is_empty pending || n == 0) ≡ true
    → accepts (wrote n ∷ events) (length pending) ≡ 0
accepts-stop n events [] h = refl
accepts-stop n events (b ∷ pending) h = ground (arith, h)

accepts-more :
    (n : ℕ) (events : List WriteEvent) (pending : List ℕ)
    → (is_empty pending || n == 0) ≡ false
    → accepts (wrote n ∷ events) (length pending) ≡ n + accepts events (length (drop n pending))
accepts-more n events [] h = absurd (ground (arith, h))
accepts-more n events (b ∷ pending) h = rw length-drop (ground (arith, h))

stop-IsFlushed :
    (events : List WriteEvent) (pending sent : List ℕ) (written : ℕ)
    → accepts events (length pending) ≡ 0
    → IsFlushed events pending sent written
        (record { left = pending; sent = sent; result = ok written })
stop-IsFlushed events pending sent written nothing = record {
  gone = rw nothing (sym (append-nil sent));
  kept = rw nothing refl;
  answered = omega (arith, nothing);
}

more-IsAnswer :
    (n : ℕ) (events : List WriteEvent) (pending : List ℕ) (written : ℕ) (r : IoResult ℕ)
    → accepts (wrote n ∷ events) (length pending) ≡ n + accepts events (length (drop n pending))
    → IsAnswer (written + n + accepts events (length (drop n pending))) r
    → IsAnswer (written + accepts (wrote n ∷ events) (length pending)) r
more-IsAnswer n events pending written (ok m) more g = omega (arith, more, g)
more-IsAnswer n events pending written (err e) more g = g

more-IsFlushed :
    (n : ℕ) (events : List WriteEvent) (pending sent : List ℕ) (written : ℕ) (f : Flushing)
    → accepts (wrote n ∷ events) (length pending) ≡ n + accepts events (length (drop n pending))
    → IsFlushed events (drop n pending) (sent ++ take n pending) (written + n) f
    → IsFlushed (wrote n ∷ events) pending sent written f
more-IsFlushed n events pending sent written f more g =
    let k = accepts events (length (drop n pending)) in
    record {
      gone =
          g.gone
          ∙ (append_assoc sent (take n pending) (take k (drop n pending))
              ∙ ap (λ l. sent ++ l) (sym (take-plus n k pending)))
          ∙ ap (λ m. sent ++ take m pending) (sym more);
      kept = g.kept ∙ sym (drop-plus n k pending) ∙ ap (λ m. drop m pending) (sym more);
      answered = more-IsAnswer n events pending written f.result more g.answered;
    }

flush_loop-IsFlushed :
    (events : List WriteEvent) (pending sent : List ℕ) (written : ℕ)
    → IsFlushed events pending sent written (flush_loop events pending sent written)
unfolding flush_loop
flush_loop-IsFlushed [] pending sent written = stop-IsFlushed [] pending sent written refl
flush_loop-IsFlushed (refused e ∷ events) pending sent written =
    elim (Bool-cases (is_empty pending || is_would_block e || websocket_end_error e)) [
      | inl stops ↦
          rw (stops, flush_loop) (stop-IsFlushed (refused e ∷ events) pending sent written refl)
      | inr breaks ↦
          rw (breaks, flush_loop)
            (record { gone = sym (append-nil sent); kept = refl; answered = ground arith })
    ]
flush_loop-IsFlushed (wrote n ∷ events) pending sent written =
    elim (Bool-cases (is_empty pending || n == 0)) [
      | inl stops ↦
          rw (stops, flush_loop)
            (stop-IsFlushed (wrote n ∷ events) pending sent written
              (accepts-stop n events pending stops))
      | inr goes ↦
          rw (goes, flush_loop)
            (more-IsFlushed n events pending sent written
              (flush_loop events (drop n pending) (sent ++ take n pending) (written + n))
              (accepts-more n events pending goes)
              (flush_loop-IsFlushed events (drop n pending) (sent ++ take n pending) (written + n)))
    ]

IoResult-cases : (r : IoResult ℕ) → ((n : ℕ) × (r ≡ ok n)) ⊎ ((e : ErrorKind) × (r ≡ err e))
IoResult-cases (ok n) = inl (n, refl)
IoResult-cases (err e) = inr (e, refl)

after_flush-IsAnswer :
    (flushed : Option ErrorKind) (count written : ℕ)
    → written ≡ count
    → IsAnswer count (after_flush flushed written)
after_flush-IsAnswer none count written h = h
after_flush-IsAnswer (some e) count written h =
    elim (Bool-cases (is_would_block e || websocket_end_error e)) [
      | inl passes ↦ rw passes h
      | inr breaks ↦ rw breaks breaks
    ]

-- A call of `flush_pending_nonblocking` sends what the writer accepts of the bytes that wait, in
-- order, and leaves the others: the writer is called until nothing waits, it takes nothing, or it
-- refuses. A call that succeeds returns how many bytes it sent, and no call fails for the end of the
-- connection or because the socket would block.
pub flush_pending_nonblocking_lem :
    (events : List WriteEvent) (flushed : Option ErrorKind) (pending sent : List ℕ)
    → IsFlushed events pending sent 0 (flush_pending_nonblocking events flushed pending sent)
unfolding flush_pending_nonblocking
flush_pending_nonblocking_lem events flushed pending sent =
    let f = flush_loop events pending sent 0 in
    let g = flush_loop-IsFlushed events pending sent 0 in
    elim (IoResult-cases f.result) [
      | inr (e, broken) ↦ rw (broken, flush_pending_nonblocking) g
      | inl (n, fine) ↦ elim (Bool-cases (ltb 0 n)) [
        | inl something ↦
            rw (fine, something, flush_pending_nonblocking)
              (record {
                gone = g.gone;
                kept = g.kept;
                answered =
                    after_flush-IsAnswer flushed (0 + accepts events (length pending)) n
                      (subst (IsAnswer (0 + accepts events (length pending))) fine g.answered);
              })
        | inr nothing ↦ rw (fine, nothing, flush_pending_nonblocking) g
      ]
    ]
