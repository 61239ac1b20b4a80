-- ===== src/WebSocket/Record.antt =====
-- `record_ws_frame` of crates/rsproxy-engine/src/proxy/websocket_frame.rs: what the trace keeps of
-- the frames of one direction.
pub mod Messages
use rsproxy.Base.{
  ℕ, ◌-◌, Bool, true, false, not, ◌&&◌, ◌||◌, Option, none, some, List, [], ◌∷◌, length, take, ltb,
  leb, ◌==◌, if◌then◌else◌,
}
use rsproxy.Trace.Model.{
  Buf, Text, FrameDirection, FrameDataEncoding, utf8, hex, FrameRecord, collected, push,
}
use rsproxy.WebSocket.Frame.{WsFrame}

pub record WsTraceState : Type 0 where
  pub fragmented_opcode : Option ℕ

abbrev pub default_state : WsTraceState
default_state = record { fragmented_opcode = none }

-- `std::str::from_utf8`, which accepts what RFC 3629 does: how many bytes a character still wants,
-- and the range of the next of them.
unfoldable pub utf8_from : ℕ → ℕ → ℕ → List ℕ → Bool
utf8_from want lo hi [] = want == 0
utf8_from want lo hi (b ∷ bs) =
    let next = utf8_from (want - 1) 128 191 bs in
    let one = utf8_from 0 128 191 bs in
    let two = utf8_from 1 128 191 bs in
    let three = utf8_from 2 128 191 bs in
    let four = utf8_from 3 128 191 bs in
    if ltb 0 want
    then leb lo b && leb b hi && next
    else if ltb b 128
    then one
    else if ltb b 194
    then false
    else if ltb b 224
    then two
    else if b == 224
    then utf8_from 2 160 191 bs
    else if b == 237
    then utf8_from 2 128 159 bs
    else if ltb b 240
    then three
    else if b == 240
    then utf8_from 3 144 191 bs
    else if ltb b 244
    then four
    else if b == 244
    then utf8_from 3 128 143 bs
    else false

abbrev pub is_utf8 : List ℕ → Bool
is_utf8 bs = utf8_from 0 128 191 bs

-- `ws_opcode_name`, as the bytes of its text: continuation, text, binary, close, ping, pong, and
-- unknown.
unfoldable pub ws_opcode_name : ℕ → List ℕ
ws_opcode_name opcode =
    if opcode == 0
    then 99 ∷ 111 ∷ 110 ∷ 116 ∷ 105 ∷ 110 ∷ 117 ∷ 97 ∷ 116 ∷ 105 ∷ 111 ∷ 110 ∷ []
    else if opcode == 1
    then 116 ∷ 101 ∷ 120 ∷ 116 ∷ []
    else if opcode == 2
    then 98 ∷ 105 ∷ 110 ∷ 97 ∷ 114 ∷ 121 ∷ []
    else if opcode == 8
    then 99 ∷ 108 ∷ 111 ∷ 115 ∷ 101 ∷ []
    else if opcode == 9
    then 112 ∷ 105 ∷ 110 ∷ 103 ∷ []
    else if opcode == 10
    then 112 ∷ 111 ∷ 110 ∷ 103 ∷ []
    else 117 ∷ 110 ∷ 107 ∷ 110 ∷ 111 ∷ 119 ∷ 110 ∷ []

unfoldable pub ws_frame_encoding : ℕ → List ℕ → FrameDataEncoding
ws_frame_encoding logical_opcode payload =
    if logical_opcode == 1
    then utf8
    else if leb 8 logical_opcode && leb logical_opcode 10 && is_utf8 payload
    then utf8
    else hex

unfoldable pub update_ws_trace_state : WsTraceState → WsFrame → WsTraceState
update_ws_trace_state state frame =
    if frame.opcode == 1 || frame.opcode == 2
    then if frame.fin
      then record { fragmented_opcode = none }
      else record { fragmented_opcode = some frame.opcode }
    else if frame.opcode == 0 && frame.fin
    then record { fragmented_opcode = none }
    else state

abbrev pub logical_opcode : WsTraceState → WsFrame → ℕ
logical_opcode state frame =
    if frame.opcode == 0
    then elim state.fragmented_opcode [ none ↦ 0 | some opcode ↦ opcode ]
    else frame.opcode

-- The record of one frame.
unfoldable pub frame_record : FrameDirection → WsFrame → ℕ → ℕ → WsTraceState → FrameRecord
unfolding ws_frame_encoding ws_opcode_name
frame_record direction frame trace_limit at_ms state = record {
  direction = direction;
  at_ms = at_ms;
  opcode = collected (ws_opcode_name frame.opcode);
  fin = frame.fin;
  payload_len = length frame.payload;
  data_encoding = ws_frame_encoding (logical_opcode state frame) frame.payload;
  payload = collected (take trace_limit frame.payload);
  truncated = ltb trace_limit (length frame.payload);
}

-- `at_ms` is the clock's reading.
unfoldable pub record_ws_frame :
    FrameDirection
    → WsFrame
    → ℕ
    → ℕ
    → Buf FrameRecord × WsTraceState
    → Buf FrameRecord × WsTraceState
unfolding frame_record update_ws_trace_state
record_ws_frame direction frame trace_limit at_ms (frames, state) =
    if leb 512 (length frames.items) then (frames, update_ws_trace_state state frame) else (
      push frames (frame_record direction frame trace_limit at_ms state),
      update_ws_trace_state state frame,
    )
