-- ===== src/WebSocket/Tunnel/Flow.antt =====
-- The bytes of one direction of the tunnel in
-- crates/rsproxy-engine/src/proxy/websocket/nonblocking.rs: what was read, what waits, what was sent.
use rsproxy.Base.{
  ℕ, ◌+◌, ◌%◌, ◌≡◌, refl, sym, ap, ap₂, ◌∙◌, subst, Bool, true, false, zero_plus, not, ◌||◌, ◌&&◌,
  ◌⊎◌, inl, inr, Bool-cases, List, [], ◌∷◌, ◌++◌, append-nil, append_assoc, length, length-append,
  ltb, ◌==◌, arith,
}
use rsproxy.Base.Words.{wrap_add}
use rsproxy.Trace.Model.{Buf, FrameDirection, FrameRecord}
use rsproxy.WebSocket.Frame.{IoResult, ErrorKind, ok, err, WsFrame}
use rsproxy.WebSocket.Decoder.{WsFrameDecoder}
use rsproxy.WebSocket.Decoder.Decodes.{raws}
use rsproxy.WebSocket.Decoder.Chunks.{IsIdle}
use rsproxy.WebSocket.Record.{record_ws_frame}
use rsproxy.WebSocket.Tunnel.{
  websocket_end_error, ReadEvent, read_ws_frames_nonblocking, Side, append_frames, read_side,
}
use rsproxy.WebSocket.Tunnel.Reads.{
  taken, at_end, Broken, IsOutcome, IsRead, read_ws_frames_nonblocking_lem, outcome-cases,
}

-- The frames go to the end of what waits, byte for byte, and are counted.
pub append_frames_lem :
    (direction : FrameDirection) (trace_limit at_ms : ℕ) (fs : List WsFrame) (side : Side)
    (frames : Buf FrameRecord)
    → ((append_frames direction trace_limit at_ms fs (side, frames)).0.pending
        ≡ side.pending ++ raws fs)
      × ((append_frames direction trace_limit at_ms fs (side, frames)).0.decoder ≡ side.decoder)
      × ((append_frames direction trace_limit at_ms fs (side, frames)).0.bytes
            % 18446744073709551616
          ≡ (side.bytes + length (raws fs)) % 18446744073709551616)
unfolding append_frames
append_frames_lem direction limit t [] side frames =
    (sym (append-nil side.pending), refl, omega arith)
append_frames_lem direction limit t (f ∷ fs) side frames =
    let (frames', state) = record_ws_frame direction f limit t (frames, side.trace_state) in
    let side' : Side = record side {
      bytes = wrap_add side.bytes (length f.raw);
      pending = side.pending ++ f.raw;
      trace_state = state;
      close_seen = side.close_seen || f.opcode == 8;
    } in
    let (pending, decoder, bytes) = append_frames_lem direction limit t fs side' frames' in
    (
      pending ∙ append_assoc side.pending f.raw (raws fs),
      decoder,
      omega (arith, bytes, length-append f.raw (raws fs)),
    )

append_frames-rest :
    (direction : FrameDirection) (trace_limit at_ms : ℕ) (fs : List WsFrame) (side : Side)
    (frames : Buf FrameRecord)
    → ((append_frames direction trace_limit at_ms fs (side, frames)).0.closed ≡ side.closed)
      × ((append_frames direction trace_limit at_ms fs (side, frames)).0.sent ≡ side.sent)
unfolding append_frames
append_frames-rest direction limit t [] side frames = (refl, refl)
append_frames-rest direction limit t (f ∷ fs) side frames =
    let (frames', state) = record_ws_frame direction f limit t (frames, side.trace_state) in
    let side' : Side = record side {
      bytes = wrap_add side.bytes (length f.raw);
      pending = side.pending ++ f.raw;
      trace_state = state;
      close_seen = side.close_seen || f.opcode == 8;
    } in
    append_frames-rest direction limit t fs side' frames'

-- Whether a round reads from the source of a direction.
abbrev pub can_read : Side → Bool
can_read side = not side.closed && ltb (length side.pending) 1048576

-- The bytes of the reads stand behind those that wait or are in the decoder.
pub record Moved (events : List ReadEvent) (side side' : Side) (progressed : Bool) : Type 0 where
  pub kept : side'.pending ++ side'.decoder.buf ≡ (side.pending ++ side.decoder.buf) ++ taken events
  pub counted :
      (side'.bytes + length side.pending) % 18446744073709551616
      ≡ (side.bytes + length side'.pending) % 18446744073709551616
  pub ended : side'.closed ≡ (side.closed || at_end events)
  pub progress : progressed ≡ ltb 0 (length (taken events))
  pub unsent : side'.sent ≡ side.sent
  pub idle : IsIdle side'.decoder ⊎ ((taken events ≡ []) × (side'.decoder ≡ side.decoder))

-- An error that ends the direction, which keeps what waits.
pub record Closed (events : List ReadEvent) (side side' : Side) (progressed : Bool) : Type 0 where
  pub error : ErrorKind
  pub broken : Broken events side.decoder error
  pub ends : websocket_end_error error ≡ true
  pub ended : side' ≡ record side { decoder = side'.decoder; closed = true }
  pub progress : progressed ≡ false

abbrev pub IsSideRead : List ReadEvent → Side → IoResult (Side × Buf FrameRecord × Bool) → Type 0
IsSideRead events side (ok (side', frames, progressed)) =
    ((can_read side ≡ true)
      × (Moved events side side' progressed ⊎ Closed events side side' progressed))
    ⊎ ((can_read side ≡ false) × (side' ≡ side) × (progressed ≡ false))
IsSideRead events side (err e) =
    (can_read side ≡ true) × Broken events side.decoder e × (websocket_end_error e ≡ false)

read_side-append :
    (direction : FrameDirection) (trace_limit at_ms : ℕ) (events : List ReadEvent) (side : Side)
    (frames : Buf FrameRecord) (d : WsFrameDecoder) (n : ℕ) (out : List WsFrame) (closed : Bool)
    → IsRead events side.decoder side.decoder.buf out d 0 n closed
    → Moved events side
        (append_frames direction trace_limit at_ms out
          (record side { decoder = d; closed = side.closed || closed }, frames)).0
        (ltb 0 n)
read_side-append direction limit t events side frames d n out closed i =
    let side' : Side = record side { decoder = d; closed = side.closed || closed } in
    let (pending, decoder, bytes) = append_frames_lem direction limit t out side' frames in
    let (same_closed, same_sent) = append_frames-rest direction limit t out side' frames in
    record {
      kept =
          ap₂ (λ (p : List ℕ) (q : WsFrameDecoder). p ++ q.buf) pending decoder
          ∙ (append_assoc side.pending (raws out) d.buf
              ∙ (ap (λ l. side.pending ++ l) i.kept
                  ∙ sym (append_assoc side.pending side.decoder.buf (taken events))));
      counted =
          omega (arith, bytes, ap (length {A = ℕ}) pending, length-append side.pending (raws out));
      ended = same_closed ∙ ap (λ b. side.closed || b) i.told;
      progress = ap (ltb 0) (i.counted ∙ sym (zero_plus (length (taken events))));
      unsent = same_sent;
      idle = elim i.idle [
        | inl idle ↦ inl (subst IsIdle (sym decoder) idle)
        | inr (nothing, same) ↦ inr (nothing, decoder ∙ same)
      ];
    }

pub read_side_lem :
    (direction : FrameDirection) (trace_limit at_ms : ℕ) (events : List ReadEvent) (side : Side)
    (frames : Buf FrameRecord)
    → IsSideRead events side (read_side direction trace_limit at_ms events (side, frames))
unfolding read_side
read_side_lem direction limit t events side frames =
    let outcome = read_ws_frames_nonblocking_lem events side.decoder in
    elim (Bool-cases (can_read side)) [
      | inr waits ↦ rw (waits, read_side) (inr (waits, refl, refl))
      | inl reads ↦ elim (outcome-cases (read_ws_frames_nonblocking events side.decoder).1) [
        | inl (n, out, closed, fine) ↦
            let d = (read_ws_frames_nonblocking events side.decoder).0 in
            rw (fine, reads, read_side)
              (inl (
                reads,
                inl (
                    read_side-append direction limit t events side frames d n out closed (
                      subst (λ r. IsOutcome events side.decoder side.decoder.buf 0 (d, r)) fine
                        outcome)),
              ))
        | inr (e, broken) ↦
            let d = (read_ws_frames_nonblocking events side.decoder).0 in
            let is_broken : Broken events side.decoder e =
              subst (λ r. IsOutcome events side.decoder side.decoder.buf 0 (d, r)) broken outcome in
            elim (Bool-cases (websocket_end_error e)) [
              | inl ends ↦
                  rw (broken, reads, ends, read_side)
                    (inl (
                      reads,
                      inr (record {
                        error = e;
                        broken = is_broken;
                        ends = ends;
                        ended = refl;
                        progress = refl;
                      }),
                    ))
              | inr breaks ↦ rw (broken, reads, breaks, read_side) (reads, is_broken, breaks)
            ]
      ]
    ]
