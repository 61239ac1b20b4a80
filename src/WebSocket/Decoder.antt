-- ===== src/WebSocket/Decoder.antt =====
-- `WsFrameDecoder` of crates/rsproxy-engine/src/proxy/websocket.rs: frames out of the chunks that a
-- socket delivers.
pub mod Decodes
pub mod Chunks
pub mod Cuts
pub mod Stream
use rsproxy.Base.{ℕ, zero, suc, Option, none, some, List, [], ◌∷◌, ◌++◌, length, drop}
use rsproxy.WebSocket.Frame.{IoResult, ErrorKind, ok, err, WsFrame, parse_ws_frame_prefix}

pub record WsFrameDecoder : Type 0 where
  pub buf : List ℕ

abbrev pub default_decoder : WsFrameDecoder
default_decoder = record { buf = [] }

abbrev pub and_frame : WsFrame → IoResult (List WsFrame) → IoResult (List WsFrame)
and_frame f (ok fs) = ok (f ∷ fs)
and_frame f (err e) = err e

-- The loop of `push`. On an error the frames that were found are lost, and what is left of the
-- buffer stays.
unfoldable pub push_loop : ℕ → List ℕ → List ℕ × IoResult (List WsFrame)
push_loop zero buf = (buf, ok [])
push_loop (suc fuel) buf = elim (parse_ws_frame_prefix buf) [
  | err e ↦ (buf, err e)
  | ok none ↦ (buf, ok [])
  | ok (some (frame, used)) ↦
      let (left, frames) = push_loop fuel (drop used buf) in (left, and_frame frame frames)
]

unfoldable pub push : WsFrameDecoder → List ℕ → WsFrameDecoder × IoResult (List WsFrame)
unfolding push_loop
push d chunk =
    let buf = d.buf ++ chunk in
    let (left, frames) = push_loop (suc (length buf)) buf in (record { buf = left }, frames)

-- The outcome of two pushes as one: the frames of both, or the first error without any frames.
abbrev pub join :
    WsFrameDecoder × IoResult (List WsFrame)
    → WsFrameDecoder × IoResult (List WsFrame)
    → WsFrameDecoder × IoResult (List WsFrame)
join (d, err e) _ = (d, err e)
join (d, ok fs) (d', err e) = (d', err e)
join (d, ok fs) (d', ok gs) = (d', ok (fs ++ gs))

-- The outcome of the pushes of a socket's chunks, one after another until the first error.
unfoldable pub push_all : WsFrameDecoder → List (List ℕ) → WsFrameDecoder × IoResult (List WsFrame)
push_all d [] = (d, ok [])
push_all d (chunk ∷ chunks) = let first = push d chunk in join first (push_all first.0 chunks)
