-- ===== src/WebSocket/Tests/Tunnel.antt =====
-- Runs of the tunnels of crates/rsproxy-engine/src/proxy/websocket.
use rsproxy.Base.{
  ◌⊎◌, map, some, All, ◌≡◌, refl, Bool, true, false, none, List, [], ◌∷◌, ◌++◌, arith,
}
use rsproxy.Base.Bytes.{xor_bits}
use rsproxy.Trace.Model.{client_to_server, new_buf}
use rsproxy.WebSocket.Frame.{
  IoResult, ok, err, would_block, end_error, read_len, read_mask, read_payload, read_rest,
  parse_ws_frame_prefix,
}
use rsproxy.WebSocket.Decoder.{default_decoder, push, push_loop}
use rsproxy.WebSocket.Tunnel.{
  ReadEvent, received, failed, WriteEvent, wrote, refused, read_loop, read_ws_frames_nonblocking,
  flush_loop, flush_pending_nonblocking, append_frames, read_side, write_side, Tunnel, new_side,
  new_tunnel, Answers, round, run_rounds,
}
use rsproxy.WebSocket.Tunnel.Reads.{IsOutcome, read_ws_frames_nonblocking_lem}
use rsproxy.WebSocket.Tunnel.Flush.{IsFlushed, flush_pending_nonblocking_lem}
use rsproxy.WebSocket.Tunnel.Stuck.{run_rounds_lem}
use rsproxy.WebSocket.Tunnel.Ends.{
  IsDone, input, from_client, from_upstream, run_rounds-IsForwarded,
}
use rsproxy.WebSocket.Tunnel.Forwarded.{IsForwarded}
use rsproxy.WebSocket.Decoder.Stream.{Sent, IsSent, wires, frame_of}
use rsproxy.WebSocket.Record.{default_state}
use rsproxy.WebSocket.Record.Messages.{record_frames}
use rsproxy.WebSocket.Copy.{Copy, copy_loop}
use rsproxy.WebSocket.Copy.Forwards.{copy_loop_lem}
use rsproxy.WebSocket.Tests.{hi, hi_frame, chunk}

-- Both directions are closed, two bytes wait for upstream, and upstream has reset the connection.
abbrev stuck_tunnel : Tunnel
stuck_tunnel = record new_tunnel {
  c2s = record new_side { pending = 8 ∷ 9 ∷ []; closed = true };
  s2c = record new_side { closed = true };
}

abbrev reset : Answers
reset = record {
  at_ms = 1;
  client_reads = received [] ∷ [];
  upstream_reads = failed end_error ∷ [];
  upstream_writes = refused end_error ∷ [];
  upstream_flush = none;
  client_writes = [];
  client_flush = none;
}

run_rounds_lem_example : run_rounds 4 (reset ∷ reset ∷ []) stuck_tunnel ≡ ok (stuck_tunnel, false)
run_rounds_lem_example =
    run_rounds_lem 4 (reset ∷ reset ∷ []) stuck_tunnel
      ((end_error, [], refl, refl), ((end_error, [], refl, refl), tt))
      (record { client_closed = refl; upstream_closed = refl; waits = refl; idle = refl })

-- A frame and the beginning of another come in one read.
abbrev reads : List ReadEvent
reads = received chunk ∷ failed would_block ∷ []

reads-out : (read_ws_frames_nonblocking reads default_decoder).1 ≡ ok (9, hi_frame ∷ [], false)
unfolding read_ws_frames_nonblocking read_loop push push_loop parse_ws_frame_prefix read_len
    read_rest read_mask read_payload xor_bits
reads-out = refl

read_ws_frames_nonblocking_lem_example :
    IsOutcome reads default_decoder [] 0 (read_ws_frames_nonblocking reads default_decoder)
read_ws_frames_nonblocking_lem_example = read_ws_frames_nonblocking_lem reads default_decoder

-- The first write takes one of two bytes, the second none.
abbrev writes : List WriteEvent
writes = wrote 1 ∷ refused would_block ∷ []

flush_pending_nonblocking_lem_example :
    IsFlushed writes
      (8 ∷ 9 ∷ [])
      (7 ∷ [])
      0
      (flush_pending_nonblocking writes none (8 ∷ 9 ∷ []) (7 ∷ []))
flush_pending_nonblocking_lem_example =
    flush_pending_nonblocking_lem writes none (8 ∷ 9 ∷ []) (7 ∷ [])

writes-sent : (flush_pending_nonblocking writes none (8 ∷ 9 ∷ []) (7 ∷ [])).sent ≡ 7 ∷ 8 ∷ []
unfolding flush_pending_nonblocking flush_loop
writes-sent = refl

-- A round in which the client sends a frame, of which upstream takes three bytes and then the rest.
abbrev forwarding : Answers
forwarding = record reset {
  client_reads = reads;
  upstream_reads = [];
  upstream_writes = wrote 3 ∷ wrote 5 ∷ [];
}

abbrev forwarded_run : IoResult (Tunnel × Bool)
forwarded_run = run_rounds 4 (forwarding ∷ []) new_tunnel

abbrev tunnel_of : IoResult (Tunnel × Bool) → Tunnel
tunnel_of (ok r) = r.0
tunnel_of (err e) = new_tunnel

forwarded_run-ok : forwarded_run ≡ ok (tunnel_of forwarded_run, false)
unfolding run_rounds round read_side read_ws_frames_nonblocking read_loop push push_loop
    parse_ws_frame_prefix read_len read_rest read_mask read_payload xor_bits append_frames
    write_side flush_pending_nonblocking flush_loop
forwarded_run-ok = refl

run_rounds-IsForwarded_example :
    IsForwarded (input from_client 4 (forwarding ∷ []) new_tunnel) (tunnel_of forwarded_run).c2s
    × IsForwarded (input from_upstream 4 (forwarding ∷ []) new_tunnel) (tunnel_of forwarded_run).s2c
    × ((false ≡ false) ⊎ IsDone (tunnel_of forwarded_run))
run_rounds-IsForwarded_example =
    run_rounds-IsForwarded 4 (forwarding ∷ []) (tunnel_of forwarded_run) false forwarded_run-ok

forwarded_run-sent : (tunnel_of forwarded_run).c2s.sent ≡ hi_frame.raw
unfolding run_rounds round read_side read_ws_frames_nonblocking read_loop push push_loop
    parse_ws_frame_prefix read_len read_rest read_mask read_payload xor_bits append_frames
    write_side flush_pending_nonblocking flush_loop
forwarded_run-sent = refl

-- A close frame, behind which nothing is read.
abbrev goodbye : Sent
goodbye = record { fin = true; opcode = 8; key = none; payload = [] }

abbrev talk : List Sent
talk = hi ∷ goodbye ∷ hi ∷ []

abbrev new_copy : Copy
new_copy = record { bytes = 0; trace_state = default_state; frames = new_buf; sent = [] }

hi-IsSent : IsSent hi
hi-IsSent = record {
  opcode = omega arith;
  key = refl;
  bytes = (omega arith, (omega arith, tt));
  small = omega arith;
}

talk-IsSent : All IsSent talk
talk-IsSent = (
  hi-IsSent,
  (record { opcode = omega arith; key = tt; bytes = tt; small = omega arith }, (hi-IsSent, tt)),
)

copy_loop_lem_example :
    (c' : Copy) × (copy_loop client_to_server 4 1 4 []
        (record { bytes = wires talk; fault = none })
        new_copy
      ≡ some (ok c'))
    × (c'.sent ≡ [] ++ wires (hi ∷ goodbye ∷ []))
    × ((c'.frames, c'.trace_state)
        ≡ record_frames client_to_server 4
            (map (λ m. (frame_of m, 1)) (hi ∷ goodbye ∷ []))
            (new_buf, default_state))
copy_loop_lem_example = copy_loop_lem client_to_server 4 1 4 talk new_copy (omega arith) talk-IsSent
