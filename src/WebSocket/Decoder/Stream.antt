-- ===== src/WebSocket/Decoder/Stream.antt =====
-- A stream of frames in the wire format through the decoder of
-- crates/rsproxy-engine/src/proxy/websocket.rs.
use rsproxy.Base.{
  ℕ, ◌≤◌, ◌<◌, ◌≡◌, refl, sym, subst, ap, ap₂, ◌∙◌, Bool, Option, none, List, [], ◌∷◌, ◌++◌, map,
  length, drop-append, All, arith,
}
use rsproxy.WebSocket.Frame.{ok, WsFrame, max_frame, parse_ws_frame_prefix}
use rsproxy.WebSocket.Wire.{wire, IsByte, IsKey, parse_ws_frame_prefix-wire}
use rsproxy.WebSocket.Decoder.{WsFrameDecoder, default_decoder, push_all}
use rsproxy.WebSocket.Decoder.Decodes.{
  End, incomplete, Decodes, none_left, one_more, Decodes-unique, answer,
}
use rsproxy.WebSocket.Decoder.Chunks.{concat, push_all-Runs}

-- What a peer sends as one frame.
pub record Sent : Type 0 where
  pub fin : Bool
  pub opcode : ℕ
  pub key : Option (List ℕ)
  pub payload : List ℕ

abbrev pub wire_of : Sent → List ℕ
wire_of m = wire m.fin m.opcode m.key m.payload

abbrev pub wires : List Sent → List ℕ
wires [] = []
wires (m ∷ ms) = wire_of m ++ wires ms

abbrev pub frame_of : Sent → WsFrame
frame_of m = record { raw = wire_of m; payload = m.payload; opcode = m.opcode; fin = m.fin }

pub record IsSent (m : Sent) : Type 0 where
  pub opcode : m.opcode < 16
  pub key : IsKey m.key
  pub bytes : All IsByte m.payload
  pub small : length m.payload ≤ max_frame

nothing-ends : End [] none
unfolding parse_ws_frame_prefix
nothing-ends = incomplete refl

wires-Decodes : (ms : List Sent) → All IsSent ms → Decodes (wires ms) (map frame_of ms) []
wires-Decodes [] h = none_left
wires-Decodes (m ∷ ms) (h, hs) =
    one_more (frame_of m) (length (wire_of m))
      (parse_ws_frame_prefix-wire m.fin m.opcode m.key m.payload (wires ms) h.opcode h.key h.bytes
        h.small)
      (subst (λ l. Decodes l (map frame_of ms) []) (sym (drop-append (wire_of m) (wires ms)))
        (wires-Decodes ms hs))

append_nil_left : (xs ys : List ℕ) → xs ++ ys ≡ [] → xs ≡ []
append_nil_left [] ys h = refl
append_nil_left (x ∷ xs) ys h = absurd (ground (arith, h))

abbrev decoder_of : List ℕ → WsFrameDecoder
decoder_of l = record { buf = l }

-- However a stream of frames is cut into chunks, the decoder yields exactly those frames in order,
-- with their bytes as they came and their payloads unmasked, and is empty afterwards.
pub push_all-wires :
    (ms : List Sent) (chunks : List (List ℕ))
    → All IsSent ms
    → concat chunks ≡ wires ms
    → ((push_all default_decoder chunks).1 ≡ ok (map frame_of ms))
      × ((push_all default_decoder chunks).0 ≡ default_decoder)
push_all-wires ms chunks h cut =
    let run = push_all-Runs default_decoder chunks nothing-ends in
    let (frames, left, ending) =
      Decodes-unique
        (subst (λ l. Decodes l run.frames ((push_all default_decoder chunks).0.buf ++ run.unread))
          cut run.decodes)
        run.ended (wires-Decodes ms h) nothing-ends in
    (
      run.answered ∙ ap₂ answer ending frames,
      ap decoder_of (append_nil_left (push_all default_decoder chunks).0.buf run.unread left),
    )
