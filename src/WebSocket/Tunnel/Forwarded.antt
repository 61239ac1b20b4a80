-- ===== src/WebSocket/Tunnel/Forwarded.antt =====
-- One direction of the loop of crates/rsproxy-engine/src/proxy/websocket/nonblocking.rs: what it has
-- forwarded of what its source gave.
use rsproxy.Base.{
  ℕ, ◌≡◌, refl, sym, ap, ap₂, ◌∙◌, take, drop, if◌then◌else◌, subst, Bool, true, ◌⊎◌, inl, inr,
  Option, List, [], ◌++◌, append-nil, append_assoc, take-append-drop, length, arith,
}
use rsproxy.Trace.Model.{Buf, FrameDirection, FrameRecord}
use rsproxy.WebSocket.Frame.{IoResult, ErrorKind, ok, err}
use rsproxy.WebSocket.Tunnel.{
  ReadEvent, WriteEvent, flush_pending_nonblocking, Side, read_side, write_side, and_then,
  close_side,
}
use rsproxy.WebSocket.Decoder.Chunks.{IsIdle}
use rsproxy.WebSocket.Tunnel.Reads.{still_idle, taken}
use rsproxy.WebSocket.Tunnel.Flush.{accepts, flush_pending_nonblocking_lem}
use rsproxy.WebSocket.Tunnel.Flow.{can_read, Moved, Closed, IsSideRead, read_side_lem}

-- A property of what a call returns, if it returns no error.
abbrev pub Ok {ℓ κ} : {A : Type ℓ} → (A → Type κ) → IoResult A → Type κ
Ok P (ok a) = P a
Ok P (err e) = Unit

pub and_then-Ok {ℓ κ ι} :
    {A : Type ℓ} {B : Type κ} (P : A → Type ι) (Q : B → Type ι) (r : IoResult A)
    (next : A → IoResult B)
    → Ok P r
    → ((a : A) → P a → Ok Q (next a))
    → Ok Q (and_then r next)
and_then-Ok P Q (ok a) next p h = h a p
and_then-Ok P Q (err e) next p h = tt

-- `all` is what the source of a direction has given: first what the other side took, then what
-- waits for it, and then what the decoder holds, which is no whole frame, or, if an error has closed the direction, what was
-- lost with it.
pub record IsForwarded (all : List ℕ) (side : Side) : Type 0 where
  pub rest : List ℕ
  pub order : (side.sent ++ side.pending) ++ rest ≡ all
  pub known : ((rest ≡ side.decoder.buf) × IsIdle side.decoder) ⊎ (side.closed ≡ true)

-- What a round reads from the source of a direction.
abbrev pub gets : Side → List ReadEvent → List ℕ
gets side events = if can_read side then taken events else []

Moved-IsForwarded :
    (all : List ℕ) (events : List ReadEvent) (side side' : Side) (progressed : Bool)
    → Moved events side side' progressed
    → ((side.sent ++ side.pending) ++ side.decoder.buf ≡ all) × IsIdle side.decoder
    → IsForwarded (all ++ taken events) side'
Moved-IsForwarded all events side side' progressed m (h, idle) = record {
  rest = side'.decoder.buf;
  order =
      append_assoc side'.sent side'.pending side'.decoder.buf
      ∙ ap (λ l. l ++ (side'.pending ++ side'.decoder.buf)) m.unsent
      ∙ ap (λ l. side.sent ++ l) m.kept
      ∙ sym (append_assoc side.sent (side.pending ++ side.decoder.buf) (taken events))
      ∙ ap (λ l. l ++ taken events)
          (sym (append_assoc side.sent side.pending side.decoder.buf) ∙ h);
  known = inl (refl, still_idle side'.decoder side.decoder (taken events) idle m.idle);
}

Closed-IsForwarded :
    (all : List ℕ) (events : List ReadEvent) (side side' : Side) (progressed : Bool)
    → Closed events side side' progressed
    → ((side.sent ++ side.pending) ++ side.decoder.buf ≡ all) × IsIdle side.decoder
    → IsForwarded (all ++ taken events) side'
Closed-IsForwarded all events side side' progressed c (h, idle) =
    subst (IsForwarded (all ++ taken events)) (sym c.ended) (record {
      rest = side.decoder.buf ++ taken events;
      order =
          sym (append_assoc (side.sent ++ side.pending) side.decoder.buf (taken events))
          ∙ ap (λ l. l ++ taken events) h;
      known = inr refl;
    })

not_closed :
    (side : Side) (all : List ℕ)
    → can_read side ≡ true
    → IsForwarded all side
    → ((side.sent ++ side.pending) ++ side.decoder.buf ≡ all) × IsIdle side.decoder
not_closed side all reads f = elim f.known [
  | inl (same, idle) ↦ (ap (λ l. (side.sent ++ side.pending) ++ l) (sym same) ∙ f.order, idle)
  | inr closed ↦ absurd (ground arith)
]

read_with :
    (events : List ReadEvent) (side : Side) (all : List ℕ)
    (r : IoResult (Side × Buf FrameRecord × Bool))
    → IsSideRead events side r
    → IsForwarded all side
    → Ok (λ (q : Side × Buf FrameRecord × Bool). IsForwarded (all ++ gets side events) q.0) r
read_with events side all (err e) i f = tt
read_with events side all (ok (side', frames, progressed)) (inl (reads, inl m)) f =
    rw reads (Moved-IsForwarded all events side side' progressed m (not_closed side all reads f))
read_with events side all (ok (side', frames, progressed)) (inl (reads, inr c)) f =
    rw reads (Closed-IsForwarded all events side side' progressed c (not_closed side all reads f))
read_with events side all (ok (side', frames, progressed)) (inr (waits, same, p)) f =
    rw (waits, same, append-nil) f

pub read_side-IsForwarded :
    (direction : FrameDirection) (trace_limit at_ms : ℕ) (events : List ReadEvent) (side : Side)
    (frames : Buf FrameRecord) (all : List ℕ)
    → IsForwarded all side
    → Ok
        (λ (r : Side × Buf FrameRecord × Bool). IsForwarded (all ++ gets side events) r.0)
        (read_side direction trace_limit at_ms events (side, frames))
read_side-IsForwarded direction limit t events side frames all f =
    read_with events side all (read_side direction limit t events (side, frames))
      (read_side_lem direction limit t events side frames) f

wrote_with :
    (r : IoResult ℕ) (side : Side) (all : List ℕ)
    → IsForwarded all side
    → Ok (IsForwarded all) (and_then r (λ n. ok side))
wrote_with (ok n) side all f = f
wrote_with (err e) side all f = tt

pub write_side-IsForwarded :
    (events : List WriteEvent) (flushed : Option ErrorKind) (side : Side) (all : List ℕ)
    → IsForwarded all side
    → Ok (IsForwarded all) (write_side events flushed side)
unfolding write_side
write_side-IsForwarded events flushed side all f =
    let r = flush_pending_nonblocking events flushed side.pending side.sent in
    let i = flush_pending_nonblocking_lem events flushed side.pending side.sent in
    let n = accepts events (length side.pending) in
    let same : r.sent ++ r.left ≡ side.sent ++ side.pending =
      ap₂ (λ a b. a ++ b) i.gone i.kept
      ∙ append_assoc side.sent (take n side.pending) (drop n side.pending)
      ∙ ap (λ l. side.sent ++ l) (take-append-drop n side.pending) in
    wrote_with r.result (record side { pending = r.left; sent = r.sent }) all
      (record { rest = f.rest; order = ap (λ l. l ++ f.rest) same ∙ f.order; known = f.known })

pub close_side-IsForwarded :
    (side : Side) (all : List ℕ) → IsForwarded all side → IsForwarded all (close_side side)
close_side-IsForwarded side all f = record {
  rest = f.rest;
  order = f.order;
  known = elim f.known [ inl same ↦ inl same | inr closed ↦ inr (ground arith) ];
}
