-- ===== src/WebSocket/Tunnel.antt =====
-- crates/rsproxy-engine/src/proxy/websocket/nonblocking.rs: the tunnel that one thread runs over two
-- sockets that do not block. What the sockets answer to the calls of a round is a list of results;
-- behind its end a call would block. A call reads the wall clock once.
pub mod Reads
pub mod Flush
pub mod Flow
pub mod Stuck
pub mod Forwarded
pub mod Ends
use rsproxy.Base.{
  ℕ, ◌+◌, Bool, true, false, not, ◌&&◌, ◌||◌, Option, none, some, List, [], ◌∷◌, ◌++◌, length, take,
  drop, ltb, ◌==◌, if◌then◌else◌,
}
use rsproxy.Base.Words.{wrap_add}
use rsproxy.Trace.Model.{
  Buf, FrameDirection, client_to_server, server_to_client, FrameRecord, new_buf,
}
use rsproxy.Trace.Event.{is_empty}
use rsproxy.WebSocket.Frame.{
  IoResult, ErrorKind, ok, err, would_block, end_error, unexpected_eof, WsFrame,
}
use rsproxy.WebSocket.Decoder.{WsFrameDecoder, default_decoder, push}
use rsproxy.WebSocket.Record.{WsTraceState, default_state, record_ws_frame}

-- `would_block` of tunnel.rs, and `websocket_end_error` of websocket.rs.
abbrev pub is_would_block : ErrorKind → Bool
is_would_block would_block = true
is_would_block _ = false

abbrev pub websocket_end_error : ErrorKind → Bool
websocket_end_error unexpected_eof = true
websocket_end_error end_error = true
websocket_end_error _ = false

-- What `read` returns: bytes, none of them at the end of the stream, or an error.
pub data ReadEvent : Type 0 where
  received : List ℕ → ReadEvent
  failed : ErrorKind → ReadEvent

-- What `write` returns.
pub data WriteEvent : Type 0 where
  wrote : ℕ → WriteEvent
  refused : ErrorKind → WriteEvent

abbrev pub ReadOutcome : Type 0
ReadOutcome = IoResult (ℕ × List WsFrame × Bool)

-- The loop of `read_ws_frames_nonblocking`, with `total` and `out` so far.
unfoldable pub read_loop :
    List ReadEvent → WsFrameDecoder → ℕ → List WsFrame → WsFrameDecoder × ReadOutcome
read_loop [] d total out = (d, ok (total, out, false))
read_loop (failed e ∷ events) d total out =
    if is_would_block e then (d, ok (total, out, false)) else (d, err e)
read_loop (received bytes ∷ events) d total out =
    let (d', frames) = push d bytes in
    elim frames [
      | err e ↦ if length bytes == 0 then (d, ok (total, out, true)) else (d', err e)
      | ok fs ↦
          let more = read_loop events d' (total + length bytes) (out ++ fs) in
          if length bytes == 0
          then (d, ok (total, out, true))
          else if ltb (length bytes) 8192
          then (d', ok (total + length bytes, out ++ fs, false))
          else more
    ]

unfoldable pub read_ws_frames_nonblocking :
    List ReadEvent → WsFrameDecoder → WsFrameDecoder × ReadOutcome
unfolding read_loop
read_ws_frames_nonblocking events d = read_loop events d 0 []

-- What a call of `flush_pending_nonblocking` leaves to be sent, all that the writer has taken so
-- far, and what the call returns.
pub record Flushing : Type 0 where
  pub left : List ℕ
  pub sent : List ℕ
  pub result : IoResult ℕ

-- The loop of `flush_pending_nonblocking`. A `write` of `pending` takes as many bytes of its
-- beginning as it answers.
unfoldable pub flush_loop : List WriteEvent → List ℕ → List ℕ → ℕ → Flushing
flush_loop [] pending sent written = record { left = pending; sent = sent; result = ok written }
flush_loop (wrote n ∷ events) pending sent written =
    let more = flush_loop events (drop n pending) (sent ++ take n pending) (written + n) in
    if is_empty pending || n == 0
    then record { left = pending; sent = sent; result = ok written }
    else more
flush_loop (refused e ∷ events) pending sent written =
    if is_empty pending || is_would_block e || websocket_end_error e
    then record { left = pending; sent = sent; result = ok written }
    else record { left = pending; sent = sent; result = err e }

-- Behind the loop: `flushed` is the error of `flush`, if it has one.
abbrev pub after_flush : Option ErrorKind → ℕ → IoResult ℕ
after_flush none written = ok written
after_flush (some e) written =
    if is_would_block e || websocket_end_error e then ok written else err e

unfoldable pub flush_pending_nonblocking :
    List WriteEvent → Option ErrorKind → List ℕ → List ℕ → Flushing
unfolding flush_loop
flush_pending_nonblocking events flushed pending sent =
    let f = flush_loop events pending sent 0 in
    elim f.result [
      | err e ↦ f
      | ok written ↦ if ltb 0 written then record f { result = after_flush flushed written } else f
    ]

-- The variables of one direction: what comes from its source, what waits for the other side, and
-- what the socket of the other side has taken.
pub record Side : Type 0 where
  pub bytes : ℕ
  pub trace_state : WsTraceState
  pub decoder : WsFrameDecoder
  pub pending : List ℕ
  pub sent : List ℕ
  pub closed : Bool
  pub close_seen : Bool

unfoldable pub append_frames :
    FrameDirection → ℕ → ℕ → List WsFrame → Side × Buf FrameRecord → Side × Buf FrameRecord
append_frames direction trace_limit at_ms [] target = target
append_frames direction trace_limit at_ms (f ∷ fs) (side, frames) =
    let (frames', state) =
      record_ws_frame direction f trace_limit at_ms (frames, side.trace_state) in
    append_frames direction trace_limit at_ms fs (
      record side {
        bytes = wrap_add side.bytes (length f.raw);
        pending = side.pending ++ f.raw;
        trace_state = state;
        close_seen = side.close_seen || f.opcode == 8;
      },
      frames',
    )

-- The reading of one direction, and whether it got on.
unfoldable pub read_side :
    FrameDirection
    → ℕ
    → ℕ
    → List ReadEvent
    → Side × Buf FrameRecord
    → IoResult (Side × Buf FrameRecord × Bool)
unfolding read_ws_frames_nonblocking append_frames
read_side direction trace_limit at_ms events (side, frames) =
    let (decoder, outcome) = read_ws_frames_nonblocking events side.decoder in
    if not side.closed && ltb (length side.pending) 1048576
    then elim outcome [
      | err e ↦
          if websocket_end_error e
          then ok (record side { decoder = decoder; closed = true }, frames, false)
          else err e
      | ok (n, parsed, closed) ↦
          let (side', frames') =
            append_frames direction trace_limit at_ms parsed
              (record side { decoder = decoder; closed = side.closed || closed }, frames) in
          ok (side', frames', ltb 0 n)
    ]
    else ok (side, frames, false)

pub record Tunnel : Type 0 where
  pub c2s : Side
  pub s2c : Side
  pub frames : Buf FrameRecord

abbrev pub new_side : Side
new_side = record {
  bytes = 0;
  trace_state = default_state;
  decoder = default_decoder;
  pending = [];
  sent = [];
  closed = false;
  close_seen = false;
}

abbrev pub new_tunnel : Tunnel
new_tunnel = record { c2s = new_side; s2c = new_side; frames = new_buf }

-- What the sockets answer in one round.
pub record Answers : Type 0 where
  pub at_ms : ℕ
  pub client_reads : List ReadEvent
  pub upstream_reads : List ReadEvent
  pub upstream_writes : List WriteEvent
  pub upstream_flush : Option ErrorKind
  pub client_writes : List WriteEvent
  pub client_flush : Option ErrorKind

-- `?`.
abbrev pub and_then {ℓ κ} : {A : Type ℓ} {B : Type κ} → IoResult A → (A → IoResult B) → IoResult B
and_then (ok a) next = next a
and_then (err e) next = err e

-- A direction whose close frame was forwarded reads no more.
abbrev pub close_side : Side → Side
close_side side = record side { closed = side.closed || (side.close_seen && is_empty side.pending) }

abbrev pub is_over : Tunnel → Bool
is_over t =
    ((t.c2s.closed && t.s2c.closed) || (t.c2s.close_seen && t.s2c.close_seen))
    && is_empty t.c2s.pending
    && is_empty t.s2c.pending

-- The writing of one direction.
abbrev pub after_write : Side → Flushing → IoResult Side
after_write side f = and_then f.result (λ n. ok (record side { pending = f.left; sent = f.sent }))

unfoldable pub write_side : List WriteEvent → Option ErrorKind → Side → IoResult Side
unfolding flush_pending_nonblocking
write_side events flushed side =
    after_write side (flush_pending_nonblocking events flushed side.pending side.sent)

-- One round of the loop, and whether it was the last.
unfoldable pub round : ℕ → Answers → Tunnel → IoResult (Tunnel × Bool)
unfolding read_side write_side
round trace_limit a t =
    and_then (read_side client_to_server trace_limit a.at_ms a.client_reads (t.c2s, t.frames))
      (λ client.
        and_then (read_side server_to_client trace_limit a.at_ms a.upstream_reads (t.s2c, client.1))
          (λ upstream. and_then (write_side a.upstream_writes a.upstream_flush client.0) (λ c2s.
            and_then (write_side a.client_writes a.client_flush upstream.0) (λ s2c.
              let t' : Tunnel = record {
                c2s = close_side c2s;
                s2c = close_side s2c;
                frames = upstream.1;
              } in
              ok (t', is_over t')))))

-- The loop, for as many rounds as there are answers: it ends with a round that was the last.
unfoldable pub run_rounds : ℕ → List Answers → Tunnel → IoResult (Tunnel × Bool)
unfolding round
run_rounds trace_limit [] t = ok (t, false)
run_rounds trace_limit (a ∷ answers) t =
    and_then (round trace_limit a t)
      (λ done. if done.1 then ok (done.0, true) else run_rounds trace_limit answers done.0)
