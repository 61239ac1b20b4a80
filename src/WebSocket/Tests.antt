-- ===== src/WebSocket/Tests.antt =====
-- Runs of the frame readers of crates/rsproxy-engine/src/proxy/websocket_frame.rs on concrete bytes.
mod Tunnel
use rsproxy.Base.{
  ℕ, ◌-◌, ◌≤◌, ◌≡◌, refl, ◌⊎◌, inl, true, false, none, some, List, [], ◌∷◌, ◌++◌, map, length, take,
  All, arith,
}
use rsproxy.Base.Bytes.{xor_bits, from_be}
use rsproxy.Trace.Model.{client_to_server, utf8, hex, new_buf}
use rsproxy.WebSocket.Frame.{
  ErrorKind, ok, err, invalid_data, WsFrame, max_frame, read_len, read_mask, read_payload,
  read_rest, parse_ws_frame_prefix,
}
use rsproxy.WebSocket.Prefix.{parse_ws_frame_prefix-append, parse_ws_frame_prefix-err}
use rsproxy.WebSocket.Parsed.{IsFrame, parse_ws_frame_prefix-IsFrame}
use rsproxy.WebSocket.Wire.{wire, parse_ws_frame_prefix-wire}
use rsproxy.WebSocket.Decoder.{default_decoder, push, push_loop, push_all}
use rsproxy.WebSocket.Decoder.Decodes.{incomplete, raws}
use rsproxy.WebSocket.Decoder.Chunks.{concat, IsIdle, push_lem}
use rsproxy.WebSocket.Decoder.Cuts.{deliver, Alike, deliver_lem}
use rsproxy.WebSocket.Decoder.Stream.{Sent, IsSent, wires, frame_of, push_all-wires}
use rsproxy.WebSocket.Read.{Reader, read_ws_frame}
use rsproxy.WebSocket.Read.Agrees.{outcome, expected, read_ws_frame_lem}
use rsproxy.WebSocket.Record.{default_state, utf8_from}
use rsproxy.WebSocket.Record.Messages.{
  record_frames, record_frames_lem, records, encodings, Fragments, inside, encodings-records,
}

-- The text "Hi" behind a masking key.
abbrev hi : Sent
hi = record { fin = true; opcode = 1; key = some (1 ∷ 2 ∷ 3 ∷ 4 ∷ []); payload = 72 ∷ 105 ∷ [] }

-- The first fragment of a text, not masked.
abbrev part : Sent
part = record { fin = false; opcode = 1; key = none; payload = 33 ∷ [] }

abbrev hi_bytes : List ℕ
hi_bytes = 129 ∷ 130 ∷ 1 ∷ 2 ∷ 3 ∷ 4 ∷ 73 ∷ 107 ∷ []

abbrev hi_frame : WsFrame
hi_frame = record { raw = hi_bytes; payload = 72 ∷ 105 ∷ []; opcode = 1; fin = true }

hi-parsed : parse_ws_frame_prefix hi_bytes ≡ ok (some (hi_frame, 8))
unfolding parse_ws_frame_prefix read_len read_rest read_mask read_payload xor_bits
hi-parsed = refl

parse_ws_frame_prefix-append_example :
    parse_ws_frame_prefix (hi_bytes ++ 5 ∷ []) ≡ ok (some (hi_frame, 8))
parse_ws_frame_prefix-append_example =
    parse_ws_frame_prefix-append hi_bytes (5 ∷ []) hi_frame 8 hi-parsed

parse_ws_frame_prefix-IsFrame_example : IsFrame hi_bytes hi_frame 8
parse_ws_frame_prefix-IsFrame_example = parse_ws_frame_prefix-IsFrame hi_bytes hi_frame 8 hi-parsed

-- A length of 2 ^ 32.
abbrev large : List ℕ
large = 130 ∷ 127 ∷ 0 ∷ 0 ∷ 0 ∷ 1 ∷ 0 ∷ 0 ∷ 0 ∷ 0 ∷ []

large-refused : parse_ws_frame_prefix large ≡ err invalid_data
unfolding parse_ws_frame_prefix read_len from_be
large-refused = refl

parse_ws_frame_prefix-err_example : parse_ws_frame_prefix (large ++ 9 ∷ []) ≡ err invalid_data
parse_ws_frame_prefix-err_example =
    parse_ws_frame_prefix-err large (9 ∷ []) invalid_data large-refused

parse_ws_frame_prefix-wire_example :
    parse_ws_frame_prefix (wire true 1 hi.key hi.payload ++ 5 ∷ [])
    ≡ ok (
        some (
          record {
            raw = wire true 1 hi.key hi.payload;
            payload = hi.payload;
            opcode = 1;
            fin = true;
          },
          length (wire true 1 hi.key hi.payload),
        ))
parse_ws_frame_prefix-wire_example =
    parse_ws_frame_prefix-wire true 1 hi.key hi.payload (5 ∷ []) (omega arith) refl
      (omega arith, (omega arith, tt)) (omega arith)

-- The two frames, cut inside the first one's key and inside the second one's header.
abbrev chunks : List (List ℕ)
chunks = (129 ∷ 130 ∷ 1 ∷ []) ∷ (2 ∷ 3 ∷ 4 ∷ 73 ∷ 107 ∷ 1 ∷ []) ∷ [] ∷ (1 ∷ 33 ∷ []) ∷ []

both-IsSent : All IsSent (hi ∷ part ∷ [])
both-IsSent = (
  record {
    opcode = omega arith;
    key = refl;
    bytes = (omega arith, (omega arith, tt));
    small = omega arith;
  },
  (record { opcode = omega arith; key = tt; bytes = (omega arith, tt); small = omega arith }, tt),
)

chunks-wires : concat chunks ≡ wires (hi ∷ part ∷ [])
unfolding xor_bits
chunks-wires = refl

push_all-wires_example :
    ((push_all default_decoder chunks).1 ≡ ok (map frame_of (hi ∷ part ∷ [])))
    × ((push_all default_decoder chunks).0 ≡ default_decoder)
push_all-wires_example = push_all-wires (hi ∷ part ∷ []) chunks both-IsSent chunks-wires

default-IsIdle : IsIdle default_decoder
unfolding parse_ws_frame_prefix
default-IsIdle = incomplete refl

deliver_lem_example :
    Alike (deliver default_decoder chunks) (deliver default_decoder (concat chunks ∷ []))
deliver_lem_example = deliver_lem default_decoder chunks (concat chunks ∷ []) default-IsIdle refl

-- A whole frame, and the first byte of another.
abbrev chunk : List ℕ
chunk = hi_bytes ++ 1 ∷ []

chunk-pushed : (push default_decoder chunk).1 ≡ ok (hi_frame ∷ [])
unfolding push push_loop parse_ws_frame_prefix read_len read_rest read_mask read_payload xor_bits
chunk-pushed = refl

push_lem_example :
    (raws (hi_frame ∷ []) ++ (push default_decoder chunk).0.buf ≡ chunk)
    × IsIdle (push default_decoder chunk).0
    × All (λ (f : WsFrame). length f.payload ≤ max_frame) (hi_frame ∷ [])
push_lem_example = push_lem default_decoder chunk (hi_frame ∷ []) chunk-pushed

abbrev stream : Reader
stream = record { bytes = chunk; fault = none }

read_ws_frame_lem_example :
    outcome (read_ws_frame stream) ≡ expected stream (parse_ws_frame_prefix chunk)
read_ws_frame_lem_example = read_ws_frame_lem stream

abbrev part_frame : WsFrame
part_frame = frame_of part

abbrev ping : WsFrame
ping = record { raw = 137 ∷ 1 ∷ 255 ∷ []; payload = 255 ∷ []; opcode = 9; fin = true }

abbrev rest : WsFrame
rest = record { raw = 128 ∷ 1 ∷ 46 ∷ []; payload = 46 ∷ []; opcode = 0; fin = true }

-- A text in two fragments, with a ping between them.
abbrev history : List (WsFrame × ℕ)
history = (part_frame, 1) ∷ (ping, 2) ∷ (rest, 3) ∷ []

record_frames_lem_example :
    (record_frames client_to_server 4 history (new_buf, default_state)).0.items
    ≡ [] ++ take (512 - 0) (records client_to_server 4 history default_state)
record_frames_lem_example = record_frames_lem client_to_server 4 history new_buf default_state

history-Fragments : Fragments none history (utf8 ∷ hex ∷ utf8 ∷ [])
unfolding utf8_from
history-Fragments = Fragments.first part_frame 1 refl (inl refl) (
    Fragments.control ping 2 (omega arith) (omega arith)
      (Fragments.last rest 3 1 refl refl (inl refl) Fragments.done))

encodings-records_example :
    encodings (records client_to_server 4 history (inside none)) ≡ utf8 ∷ hex ∷ utf8 ∷ []
encodings-records_example = encodings-records client_to_server 4 history-Fragments
