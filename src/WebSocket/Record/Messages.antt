-- ===== src/WebSocket/Record/Messages.antt =====
-- The records of a sequence of frames, for `record_ws_frame` of
-- crates/rsproxy-engine/src/proxy/websocket_frame.rs, and the fragmentation of RFC 6455, section 5.4.
use rsproxy.Base.{
  ℕ, ◌-◌, ◌≤◌, ◌≡◌, refl, sym, ap, ap₂, ◌∙◌, true, false, Bool-cases, ◌⊎◌, inl, inr, Option, none,
  some, List, [], ◌∷◌, ◌++◌, append-nil, append_assoc, map, length, length-append, take_nil, take,
  leb, ◌==◌, suc, if◌then◌else◌, arith,
}
use rsproxy.Trace.Model.{Buf, FrameDirection, FrameDataEncoding, utf8, hex, FrameRecord, push}
use rsproxy.WebSocket.Frame.{WsFrame}
use rsproxy.WebSocket.Record.{
  WsTraceState, logical_opcode, is_utf8, ws_frame_encoding, update_ws_trace_state, frame_record,
  record_ws_frame,
}

module _ (direction : FrameDirection) (trace_limit : ℕ) where
  -- The frames of a tunnel's direction, each with the clock's reading.
  abbrev pub record_frames :
      List (WsFrame × ℕ) → Buf FrameRecord × WsTraceState → Buf FrameRecord × WsTraceState
  record_frames [] state = state
  record_frames ((frame, at_ms) ∷ fs) state =
      record_frames fs (record_ws_frame direction frame trace_limit at_ms state)

  -- The records of all frames, if nothing limited their number.
  abbrev pub records : List (WsFrame × ℕ) → WsTraceState → List FrameRecord
  records [] state = []
  records ((frame, at_ms) ∷ fs) state =
      frame_record direction frame trace_limit at_ms state
      ∷ records fs (update_ws_trace_state state frame)

  record_ws_frame-full :
      (frame : WsFrame) (at_ms : ℕ) (frames : Buf FrameRecord) (state : WsTraceState)
      → leb 512 (length frames.items) ≡ true
      → record_ws_frame direction frame trace_limit at_ms (frames, state)
        ≡ (frames, update_ws_trace_state state frame)
  unfolding record_ws_frame
  record_ws_frame-full frame at_ms frames state full = rw full refl

  record_ws_frame-room :
      (frame : WsFrame) (at_ms : ℕ) (frames : Buf FrameRecord) (state : WsTraceState)
      → leb 512 (length frames.items) ≡ false
      → record_ws_frame direction frame trace_limit at_ms (frames, state) ≡ (
        push frames (frame_record direction frame trace_limit at_ms state),
        update_ws_trace_state state frame,
      )
  unfolding record_ws_frame
  record_ws_frame-room frame at_ms frames state room = rw room refl

  -- A list that has 512 records stays as it is; any other takes the records of the frames up to
  -- that number.
  pub record_frames_lem :
      (fs : List (WsFrame × ℕ)) (frames : Buf FrameRecord) (state : WsTraceState)
      → (record_frames fs (frames, state)).0.items
        ≡ frames.items ++ take (512 - length frames.items) (records fs state)
  record_frames_lem [] frames state =
      sym (
        ap (λ l. frames.items ++ l) (take_nil (512 - length frames.items))
        ∙ append-nil frames.items)
  record_frames_lem ((frame, at_ms) ∷ fs) frames state =
      elim (Bool-cases (leb 512 (length frames.items))) [
        | inl full ↦
            let none_left : 512 - length frames.items ≡ 0 = ground arith in
            ap (λ st. (record_frames fs st).0.items)
              (record_ws_frame-full frame at_ms frames state full)
            ∙ (record_frames_lem fs frames (update_ws_trace_state state frame)
                ∙ (ap (λ n. frames.items ++ take n (records fs (update_ws_trace_state state frame)))
                      none_left
                    ∙ ap (λ n. frames.items ++ take n (records ((frame, at_ms) ∷ fs) state))
                        (sym none_left)))
        | inr room ↦
            let state' = update_ws_trace_state state frame in
            let r = frame_record direction frame trace_limit at_ms state in
            let one_less : 512 - length frames.items ≡ suc (512 - length (frames.items ++ r ∷ [])) =
              ground (arith, length-append frames.items (r ∷ [])) in
            ap (λ st. (record_frames fs st).0.items)
              (record_ws_frame-room frame at_ms frames state room)
            ∙ (record_frames_lem fs (push frames r) state'
                ∙ (append_assoc frames.items (r ∷ [])
                      (take (512 - length (frames.items ++ r ∷ [])) (records fs state'))
                    ∙ ap (λ n. frames.items ++ take n (r ∷ records fs state')) (sym one_less)))
      ]

-- A data frame is text or binary.
abbrev pub IsData : ℕ → Type 0
IsData opcode = (opcode ≡ 1) ⊎ (opcode ≡ 2)

abbrev pub encoding_of : ℕ → FrameDataEncoding
encoding_of opcode = if opcode == 1 then utf8 else hex

-- The frames of messages, one after another, from inside a message of the given opcode or between
-- two, with the encodings that their data wants. Control frames may stand between the fragments.
pub data Fragments : Option ℕ → List (WsFrame × ℕ) → List FrameDataEncoding → Type 0 where
  done : {o : Option ℕ} → Fragments o [] []
  control :
      {o : Option ℕ} {fs : List (WsFrame × ℕ)} {es : List FrameDataEncoding} (f : WsFrame) (t : ℕ)
      → 8 ≤ f.opcode
      → f.opcode ≤ 10
      → Fragments o fs es
      → Fragments o ((f, t) ∷ fs) ((if is_utf8 f.payload then utf8 else hex) ∷ es)
  whole :
      {fs : List (WsFrame × ℕ)} {es : List FrameDataEncoding} (f : WsFrame) (t : ℕ)
      → f.fin ≡ true
      → IsData f.opcode
      → Fragments none fs es
      → Fragments none ((f, t) ∷ fs) (encoding_of f.opcode ∷ es)
  first :
      {fs : List (WsFrame × ℕ)} {es : List FrameDataEncoding} (f : WsFrame) (t : ℕ)
      → f.fin ≡ false
      → IsData f.opcode
      → Fragments (some f.opcode) fs es
      → Fragments none ((f, t) ∷ fs) (encoding_of f.opcode ∷ es)
  middle :
      {fs : List (WsFrame × ℕ)} {es : List FrameDataEncoding} (f : WsFrame) (t opcode : ℕ)
      → f.fin ≡ false
      → f.opcode ≡ 0
      → IsData opcode
      → Fragments (some opcode) fs es
      → Fragments (some opcode) ((f, t) ∷ fs) (encoding_of opcode ∷ es)
  last :
      {fs : List (WsFrame × ℕ)} {es : List FrameDataEncoding} (f : WsFrame) (t opcode : ℕ)
      → f.fin ≡ true
      → f.opcode ≡ 0
      → IsData opcode
      → Fragments none fs es
      → Fragments (some opcode) ((f, t) ∷ fs) (encoding_of opcode ∷ es)

abbrev pub inside : Option ℕ → WsTraceState
inside o = record { fragmented_opcode = o }

abbrev pub encodings : List FrameRecord → List FrameDataEncoding
encodings = map (λ (r : FrameRecord). r.data_encoding)

logical_own : (o : Option ℕ) (f : WsFrame) → 1 ≤ f.opcode → logical_opcode (inside o) f ≡ f.opcode
logical_own o f h = ground arith

logical_message :
    (opcode : ℕ) (f : WsFrame) → f.opcode ≡ 0 → logical_opcode (inside (some opcode)) f ≡ opcode
logical_message opcode f h = ground arith

data_encoding_of :
    (opcode : ℕ) (payload : List ℕ)
    → IsData opcode
    → ws_frame_encoding opcode payload ≡ encoding_of opcode
unfolding ws_frame_encoding
data_encoding_of opcode payload (inl text) = ground arith
data_encoding_of opcode payload (inr binary) = ground arith

control_encoding :
    (opcode : ℕ) (payload : List ℕ)
    → 8 ≤ opcode
    → opcode ≤ 10
    → ws_frame_encoding opcode payload ≡ (if is_utf8 payload then utf8 else hex)
unfolding ws_frame_encoding
control_encoding opcode payload lo hi = ground arith

-- One frame: its own encoding, and the state behind it.
step :
    (o : Option ℕ) {o' : Option ℕ} (fs : List (WsFrame × ℕ)) {es : List FrameDataEncoding}
    {e : FrameDataEncoding} (direction : FrameDirection) (trace_limit : ℕ) (f : WsFrame) (t : ℕ)
    → ws_frame_encoding (logical_opcode (inside o) f) f.payload ≡ e
    → update_ws_trace_state (inside o) f ≡ inside o'
    → encodings (records direction trace_limit fs (inside o')) ≡ es
    → encodings (records direction trace_limit ((f, t) ∷ fs) (inside o)) ≡ e ∷ es
unfolding frame_record
step o fs direction limit f t head state rest =
    ap₂ (λ (a : FrameDataEncoding) l. a ∷ l) head
      (ap (λ st. encodings (records direction limit fs st)) state ∙ rest)

-- The records of well-formed messages have the encoding of their message's kind: a text message's
-- fragments are text, a binary one's are not, and a control frame between them changes nothing.
pub encodings-records :
    {o : Option ℕ} {fs : List (WsFrame × ℕ)} {es : List FrameDataEncoding}
    (direction : FrameDirection) (trace_limit : ℕ)
    → Fragments o fs es
    → encodings (records direction trace_limit fs (inside o)) ≡ es
unfolding update_ws_trace_state
encodings-records direction limit done = refl
encodings-records {o} direction limit (control f t lo hi r) =
    step _ _ direction limit f t
      (ap (λ c. ws_frame_encoding c f.payload) (logical_own o f (omega arith))
        ∙ control_encoding f.opcode f.payload lo hi)
      (ground arith) (encodings-records direction limit r)
encodings-records direction limit (whole f t fin kind r) =
    step _ _ direction limit f t
      (ap (λ c. ws_frame_encoding c f.payload) (logical_own none f (omega (arith, kind)))
        ∙ data_encoding_of f.opcode f.payload kind)
      (ground arith) (encodings-records direction limit r)
encodings-records direction limit (first f t fin kind r) =
    step _ _ direction limit f t
      (ap (λ c. ws_frame_encoding c f.payload) (logical_own none f (omega (arith, kind)))
        ∙ data_encoding_of f.opcode f.payload kind)
      (ground arith) (encodings-records direction limit r)
encodings-records direction limit (middle f t opcode fin cont kind r) =
    step _ _ direction limit f t
      (ap (λ c. ws_frame_encoding c f.payload) (logical_message opcode f cont)
        ∙ data_encoding_of opcode f.payload kind)
      (ground arith) (encodings-records direction limit r)
encodings-records direction limit (last f t opcode fin cont kind r) =
    step _ _ direction limit f t
      (ap (λ c. ws_frame_encoding c f.payload) (logical_message opcode f cont)
        ∙ data_encoding_of opcode f.payload kind)
      (ground arith) (encodings-records direction limit r)
