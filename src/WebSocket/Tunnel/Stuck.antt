-- ===== src/WebSocket/Tunnel/Stuck.antt =====
-- The loop of crates/rsproxy-engine/src/proxy/websocket/nonblocking.rs when the upstream side takes
-- no more bytes.
use rsproxy.Base.{
  ℕ, ◌≡◌, refl, ap, Bool, true, false, not, ◌||◌, ◌&&◌, Option, List, [], ◌∷◌, length, ltb, arith,
}
use rsproxy.Trace.Model.{Buf, FrameDirection, FrameRecord, client_to_server, server_to_client}
use rsproxy.Trace.Event.{is_empty}
use rsproxy.WebSocket.Frame.{ErrorKind, ok}
use rsproxy.WebSocket.Tunnel.{
  websocket_end_error, ReadEvent, WriteEvent, wrote, refused, flush_loop, flush_pending_nonblocking,
  Side, read_side, write_side, after_write, close_side, Tunnel, Answers, round, run_rounds,
}

-- The other side takes nothing: it answers the first write with the end of the connection.
abbrev pub IsBroken : List WriteEvent → Type 0
IsBroken events =
    (e : ErrorKind) × (rest : List WriteEvent) × (events ≡ refused e ∷ rest)
    × (websocket_end_error e ≡ true)

flush-broken :
    (e : ErrorKind) (rest : List WriteEvent) (flushed : Option ErrorKind) (pending sent : List ℕ)
    → websocket_end_error e ≡ true
    → flush_pending_nonblocking (refused e ∷ rest) flushed pending sent
      ≡ record { left = pending; sent = sent; result = ok 0 }
unfolding flush_pending_nonblocking flush_loop
flush-broken e rest flushed pending sent ends = ground arith

flush-empty :
    (events : List WriteEvent) (flushed : Option ErrorKind) (sent : List ℕ)
    → flush_pending_nonblocking events flushed [] sent
      ≡ record { left = []; sent = sent; result = ok 0 }
unfolding flush_pending_nonblocking flush_loop
flush-empty [] flushed sent = refl
flush-empty (wrote n ∷ events) flushed sent = refl
flush-empty (refused e ∷ events) flushed sent = refl

write_side-broken :
    (events : List WriteEvent) (flushed : Option ErrorKind) (side : Side)
    → IsBroken events
    → write_side events flushed side ≡ ok side
unfolding write_side
write_side-broken events flushed side (e, rest, shape, ends) =
    let same : flush_pending_nonblocking events flushed side.pending side.sent
        ≡ record { left = side.pending; sent = side.sent; result = ok 0 } =
      rw shape (flush-broken e rest flushed side.pending side.sent ends) in
    ap (after_write side) same

write_side-empty :
    (events : List WriteEvent) (flushed : Option ErrorKind) (side : Side)
    → side.pending ≡ []
    → write_side events flushed side ≡ ok side
unfolding write_side
write_side-empty events flushed side nothing =
    let same : flush_pending_nonblocking events flushed side.pending side.sent
        ≡ record { left = side.pending; sent = side.sent; result = ok 0 } =
      rw nothing (flush-empty events flushed side.sent) in
    ap (after_write side) same

read_side-closed :
    (direction : FrameDirection) (trace_limit at_ms : ℕ) (events : List ReadEvent) (side : Side)
    (frames : Buf FrameRecord)
    → side.closed ≡ true
    → read_side direction trace_limit at_ms events (side, frames) ≡ ok (side, frames, false)
unfolding read_side
read_side-closed direction limit t events side frames h =
    let shut : (not side.closed && ltb (length side.pending) 1048576) ≡ false = ground arith in
    rw (shut, read_side) refl

close_side-closed : (side : Side) → side.closed ≡ true → close_side side ≡ side
close_side-closed side h =
    let same : (side.closed || (side.close_seen && is_empty side.pending)) ≡ side.closed =
      ground arith in
    ap (λ (b : Bool). record side { closed = b }) same

-- Both directions are closed, bytes wait for upstream, and none for the client.
pub record IsStuck (t : Tunnel) : Type 0 where
  pub client_closed : t.c2s.closed ≡ true
  pub upstream_closed : t.s2c.closed ≡ true
  pub waits : is_empty t.c2s.pending ≡ false
  pub idle : t.s2c.pending ≡ []

round-stuck :
    (trace_limit : ℕ) (a : Answers) (t : Tunnel)
    → IsBroken a.upstream_writes
    → IsStuck t
    → round trace_limit a t ≡ ok (t, false)
unfolding round
round-stuck limit a t broken h =
    let client =
      read_side-closed client_to_server limit a.at_ms a.client_reads t.c2s t.frames
        h.client_closed in
    let upstream =
      read_side-closed server_to_client limit a.at_ms a.upstream_reads t.s2c t.frames
        h.upstream_closed in
    let to_upstream = write_side-broken a.upstream_writes a.upstream_flush t.c2s broken in
    let to_client = write_side-empty a.client_writes a.client_flush t.s2c h.idle in
    let waits = h.waits in
    rw (client, upstream, to_upstream, to_client, round)
      (rw (close_side-closed t.c2s h.client_closed, close_side-closed t.s2c h.upstream_closed)
        (ap (λ (b : Bool). ok (t, b)) (ground arith)))

abbrev pub AllBroken : List Answers → Type 0
AllBroken [] = Unit
AllBroken (a ∷ answers) = IsBroken a.upstream_writes × AllBroken answers

-- Once both directions are closed and bytes wait for an upstream side that answers the first write
-- of every round with the end of the connection, and none for the client, the loop neither ends nor
-- fails nor gets on: after any number of rounds, whatever else the sockets answer, the tunnel is as
-- it was and goes on.
pub run_rounds_lem :
    (trace_limit : ℕ) (answers : List Answers) (t : Tunnel)
    → AllBroken answers
    → IsStuck t
    → run_rounds trace_limit answers t ≡ ok (t, false)
unfolding run_rounds
run_rounds_lem limit [] t b h = refl
run_rounds_lem limit (a ∷ answers) t (b, bs) h =
    rw (round-stuck limit a t b h, run_rounds) (run_rounds_lem limit answers t bs h)
