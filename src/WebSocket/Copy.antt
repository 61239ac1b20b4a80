-- ===== src/WebSocket/Copy.antt =====
-- `websocket_copy_frames_shared` of crates/rsproxy-engine/src/proxy/websocket/concurrent.rs: one
-- direction of the tunnel that two threads run. The list of records behind the lock is the one that
-- this direction sees; the wall clock reads the same throughout.
pub mod Forwards
use rsproxy.Base.{
  ℕ, zero, suc, Option, none, some, List, [], ◌∷◌, ◌++◌, length, ◌==◌, if◌then◌else◌,
}
use rsproxy.Base.Words.{wrap_add}
use rsproxy.Trace.Model.{Buf, FrameDirection, FrameRecord}
use rsproxy.WebSocket.Frame.{IoResult, ErrorKind, ok, err, WsFrame}
use rsproxy.WebSocket.Read.{Reader, Reading, read_ws_frame}
use rsproxy.WebSocket.Record.{WsTraceState, record_ws_frame}
use rsproxy.WebSocket.Tunnel.{websocket_end_error}

-- The loop's variables, and what the writer was given.
pub record Copy : Type 0 where
  pub bytes : ℕ
  pub trace_state : WsTraceState
  pub frames : Buf FrameRecord
  pub sent : List ℕ

-- The errors of `write_all` and of `flush` for one frame.
pub record Answer : Type 0 where
  pub written : Option ErrorKind
  pub flushed : Option ErrorKind

-- Behind the list no call fails.
abbrev pub next_answer : List Answer → Answer × List Answer
next_answer [] = (record { written = none; flushed = none }, [])
next_answer (a ∷ answers) = (a, answers)

-- The end of a connection ends the loop without an error.
abbrev pub stop : ErrorKind → Copy → IoResult Copy
stop e c = if websocket_end_error e then ok c else err e

module _ (direction : FrameDirection) (trace_limit at_ms : ℕ) where
  abbrev pub counted : WsFrame → Copy → Copy
  counted f c = record c { bytes = wrap_add c.bytes (length f.raw) }

  abbrev pub written : WsFrame → Copy → Copy
  written f c = record c { sent = c.sent ++ f.raw }

  abbrev pub recorded : WsFrame → Copy → Copy
  recorded f c =
      let (frames, state) =
        record_ws_frame direction f trace_limit at_ms (c.frames, c.trace_state) in
      record c { frames = frames; trace_state = state }

  -- A round of the loop behind its reading; `go` goes on.
  abbrev pub after_read :
      (List Answer → Reader → Copy → Option (IoResult Copy))
      → List Answer
      → Copy
      → Reading (Option WsFrame)
      → Option (IoResult Copy)
  after_read go answers c (err e, r) = some (stop e c)
  after_read go answers c (ok none, r) = some (ok c)
  after_read go answers c (ok (some f), r) =
      let (a, answers') = next_answer answers in
      let rest = go answers' r (recorded f (written f (counted f c))) in
      elim a.written [
        | some e ↦ some (stop e (counted f c))
        | none ↦ elim a.flushed [
          | some e ↦ some (stop e (written f (counted f c)))
          | none ↦ if f.opcode == 8 then some (ok (recorded f (written f (counted f c)))) else rest
        ]
      ]

  -- The loop, on fuel; `none` when the fuel is over before the loop ends.
  unfoldable pub copy_loop : ℕ → List Answer → Reader → Copy → Option (IoResult Copy)
  unfolding read_ws_frame
  copy_loop zero answers r c = none
  copy_loop (suc fuel) answers r c = after_read (copy_loop fuel) answers c (read_ws_frame r)
