-- ===== src/WebSocket/Copy/Forwards.antt =====
-- What the copying loop of crates/rsproxy-engine/src/proxy/websocket/concurrent.rs forwards.
use rsproxy.Base.{
  ℕ, zero, suc, ◌<◌, ◌≡◌, refl, sym, ap, ap₂, ◌∙◌, Bool-cases, inl, inr, Option, none, some, List,
  [], ◌∷◌, ◌++◌, append-nil, append_assoc, map, length, drop-append, All, ◌==◌, if◌then◌else◌,
  arith, ltb,
}
use rsproxy.Trace.Model.{FrameDirection}
use rsproxy.WebSocket.Frame.{IoResult, ErrorKind, ok, err, WsFrame, short_len, masked_of, max_frame}
use rsproxy.WebSocket.Wire.{parse_ws_frame_prefix-wire}
use rsproxy.WebSocket.Read.{
  Reader, Reading, and_then, is_eof, after_first, read_ws_frame, read_exact, read_length, read_key,
  read_body, read_checked,
}
use rsproxy.WebSocket.Read.Agrees.{outcome, expected, read_ws_frame_lem}
use rsproxy.WebSocket.Decoder.Stream.{Sent, IsSent, wire_of, wires, frame_of}
use rsproxy.WebSocket.Record.Messages.{record_frames}
use rsproxy.WebSocket.Copy.{Copy, counted, written, recorded, after_read, copy_loop}

-- No reading changes how the stream ends.
and_then-fault {ℓ κ} :
    {A : Type ℓ} {B : Type κ} (fault : Option ErrorKind) (x : Reading A)
    (next : A → Reader → Reading B)
    → x.1.fault ≡ fault
    → ((a : A) (r : Reader) → r.fault ≡ fault → (next a r).1.fault ≡ fault)
    → (and_then x next).1.fault ≡ fault
and_then-fault fault (ok a, r) next h step = step a r h
and_then-fault fault (err e, r) next h step = h

read_exact-fault : (n : ℕ) (r : Reader) → (read_exact n r).1.fault ≡ r.fault
unfolding read_exact
read_exact-fault n r = ground arith

read_length-fault : (first : List ℕ) (r : Reader) → (read_length first r).1.fault ≡ r.fault
unfolding read_length
read_length-fault first r = elim (Bool-cases (short_len first == 126)) [
  | inl two ↦
      rw (two, read_length)
        (and_then-fault r.fault (read_exact 2 r) _ (read_exact-fault 2 r) (λ a r' h. h))
  | inr not_two ↦ elim (Bool-cases (short_len first == 127)) [
    | inl eight ↦
        rw (not_two, eight, read_length)
          (and_then-fault r.fault (read_exact 8 r) _ (read_exact-fault 8 r) (λ a r' h. h))
    | inr one ↦ rw (not_two, one, read_length) refl
  ]
]

read_key-fault : (first raw : List ℕ) (r : Reader) → (read_key first raw r).1.fault ≡ r.fault
unfolding read_key
read_key-fault first raw r = elim (Bool-cases (masked_of first)) [
  | inl masked ↦
      rw (masked, read_key)
        (and_then-fault r.fault (read_exact 4 r) _ (read_exact-fault 4 r) (λ a r' h. h))
  | inr plain ↦ rw (plain, read_key) refl
]

read_body-fault :
    (first : List ℕ) (len : ℕ) (raw : List ℕ) (r : Reader)
    → (read_body first len raw r).1.fault ≡ r.fault
unfolding read_body
read_body-fault first len raw r =
    and_then-fault r.fault (read_key first raw r) _ (read_key-fault first raw r) (λ keyed r' h.
      and_then-fault r.fault (read_exact len r') _ (read_exact-fault len r' ∙ h)
        (λ payload r'' h'. h'))

read_checked-fault :
    (first : List ℕ) (measured : ℕ × List ℕ) (r : Reader)
    → (read_checked first measured r).1.fault ≡ r.fault
unfolding read_checked
read_checked-fault first (len, raw) r = elim (Bool-cases (ltb max_frame len)) [
  | inl large ↦ rw (large, read_checked) refl
  | inr small ↦
      rw (small, read_checked)
        (and_then-fault r.fault (read_body first len raw r) _ (read_body-fault first len raw r)
          (λ f r' h. h))
]

after_first-fault :
    (fault : Option ErrorKind) (x : Reading (List ℕ))
    → x.1.fault ≡ fault
    → (after_first x).1.fault ≡ fault
after_first-fault fault (err e, r) h = elim (Bool-cases (is_eof e)) [
  | inl ends ↦ rw ends h
  | inr breaks ↦ rw breaks h
]
after_first-fault fault (ok first, r) h =
    and_then-fault fault (read_length first r) (read_checked first) (read_length-fault first r ∙ h)
      (λ measured r' h'. read_checked-fault first measured r' ∙ h')

read_ws_frame-fault : (r : Reader) → (read_ws_frame r).1.fault ≡ r.fault
unfolding read_ws_frame
read_ws_frame-fault r = after_first-fault r.fault (read_exact 2 r) (read_exact-fault 2 r)

abbrev found_with : Option ErrorKind → WsFrame → List ℕ → Reading (Option WsFrame)
found_with fault f rest = (ok (some f), record { bytes = rest; fault = fault })

abbrev frame_in : WsFrame × List ℕ → IoResult (Option (WsFrame × List ℕ)) → WsFrame × List ℕ
frame_in d (ok (some p)) = p
frame_in d _ = d

-- What was read, from its outcome.
found_frame :
    (x : Reading (Option WsFrame)) (f : WsFrame) (rest : List ℕ)
    → outcome x ≡ ok (some (f, rest))
    → x ≡ found_with x.1.fault f rest
found_frame (err e, r) f rest h = absurd (ground (arith, h))
found_frame (ok none, r) f rest h = absurd (ground (arith, h))
found_frame (ok (some g), r) f rest h =
    let same = ap (frame_in (f, rest)) h in
    ap₂ (λ (a : WsFrame) (b : List ℕ). found_with r.fault a b) (ap (λ q. q.0) same)
      (ap (λ q. q.1) same)

-- At the beginning of a frame in the wire format.
read-wire :
    (m : Sent) (ms : List Sent) (fault : Option ErrorKind)
    → IsSent m
    → read_ws_frame (record { bytes = wires (m ∷ ms); fault = fault })
      ≡ found_with fault (frame_of m) (wires ms)
read-wire m ms fault h =
    let r : Reader = record { bytes = wires (m ∷ ms); fault = fault } in
    let parsed =
      parse_ws_frame_prefix-wire m.fin m.opcode m.key m.payload (wires ms) h.opcode h.key h.bytes
        h.small in
    found_frame (read_ws_frame r) (frame_of m) (wires ms) (
      read_ws_frame_lem r
      ∙ (ap (expected r) parsed
          ∙ ap (λ l. ok (some (frame_of m, l))) (drop-append (wire_of m) (wires ms))))
    ∙ ap (λ e. found_with e (frame_of m) (wires ms)) (read_ws_frame-fault r)

-- The frames up to the first close frame.
abbrev pub until_close : List Sent → List Sent
until_close [] = []
until_close (m ∷ ms) = let rest = until_close ms in m ∷ (if m.opcode == 8 then [] else rest)

module _ (direction : FrameDirection) (trace_limit at_ms : ℕ) where
  abbrev forwarded : WsFrame → Copy → Copy
  forwarded f c =
      recorded direction trace_limit at_ms f
        (written direction trace_limit at_ms f (counted direction trace_limit at_ms f c))

  abbrev copied : List Sent → Copy → Copy
  copied [] c = c
  copied (m ∷ ms) c = copied ms (forwarded (frame_of m) c)

  copied-sent : (ms : List Sent) (c : Copy) → (copied ms c).sent ≡ c.sent ++ wires ms
  copied-sent [] c = sym (append-nil c.sent)
  copied-sent (m ∷ ms) c =
      copied-sent ms (forwarded (frame_of m) c) ∙ append_assoc c.sent (wire_of m) (wires ms)

  copied-frames :
      (ms : List Sent) (c : Copy)
      → ((copied ms c).frames, (copied ms c).trace_state)
        ≡ record_frames direction trace_limit
            (map (λ m. (frame_of m, at_ms)) ms)
            (c.frames, c.trace_state)
  copied-frames [] c = refl
  copied-frames (m ∷ ms) c = copied-frames ms (forwarded (frame_of m) c)

  copy_loop-copied :
      (fuel : ℕ) (ms : List Sent) (c : Copy)
      → length ms < fuel
      → All IsSent ms
      → copy_loop direction trace_limit at_ms fuel [] (record { bytes = wires ms; fault = none }) c
        ≡ some (ok (copied (until_close ms) c))
  unfolding copy_loop
  copy_loop-copied zero ms c h a = absurd (omega (arith, h))
  copy_loop-copied (suc fuel) [] c h a = refl
  copy_loop-copied (suc fuel) (m ∷ ms) c h (sent, a) =
      ap (after_read direction trace_limit at_ms (copy_loop direction trace_limit at_ms fuel) [] c)
        (read-wire m ms none sent)
      ∙ (elim (Bool-cases (m.opcode == 8)) [
        | inl close ↦ rw close refl
        | inr goes ↦
            rw goes (copy_loop-copied fuel ms (forwarded (frame_of m) c) (omega (arith, h)) a)
      ])

  -- With a writer that does not fail, the loop over a stream of frames in the wire format ends
  -- before its fuel, for any fuel above their number, and without an error. Then it has written
  -- exactly the bytes of the frames up to and with the first close frame, and recorded these.
  pub copy_loop_lem :
      (fuel : ℕ) (ms : List Sent) (c : Copy)
      → length ms < fuel
      → All IsSent ms
      → (c' : Copy) × (copy_loop direction trace_limit at_ms fuel []
            (record { bytes = wires ms; fault = none })
            c
          ≡ some (ok c'))
        × (c'.sent ≡ c.sent ++ wires (until_close ms))
        × ((c'.frames, c'.trace_state)
            ≡ record_frames direction trace_limit
                (map (λ m. (frame_of m, at_ms)) (until_close ms))
                (c.frames, c.trace_state))
  copy_loop_lem fuel ms c h a =
      let last = until_close ms in
      (copied last c, copy_loop-copied fuel ms c h a, copied-sent last c, copied-frames last c)
