-- ===== src/WebSocket/Parsed.antt =====
-- What a frame of `parse_ws_frame_prefix` of crates/rsproxy-engine/src/proxy/websocket_frame.rs is.
use rsproxy.Base.{
  ℕ, suc, ◌+◌, ◌≤◌, ◌≡◌, refl, subst, ap, Bool-cases, Option-cases, Option, none, some, List, [],
  ◌∷◌, length, take, drop, length-take, length-drop, ltb, inl, inr, arith,
}
use rsproxy.WebSocket.Frame.{
  ok, WsFrame, max_frame, read_len, read_mask, read_payload, read_rest, parse_ws_frame_prefix,
  unmask, unmask_from, fin_of, opcode_of,
}

length-unmask_from :
    (key : List ℕ) (i : ℕ) (bs : List ℕ) → length (unmask_from key i bs) ≡ length bs
length-unmask_from key i [] = refl
length-unmask_from key i (b ∷ bs) = ap suc (length-unmask_from key (suc i) bs)

pub length-unmask : (key : Option (List ℕ)) (bs : List ℕ) → length (unmask key bs) ≡ length bs
length-unmask none bs = refl
length-unmask (some key) bs = length-unmask_from key 0 bs

-- The frame is the first `used` bytes of the buffer; it has a header of 2 to 14 bytes and a payload
-- of at most 16 MiB.
pub record IsFrame (buf : List ℕ) (f : WsFrame) (used : ℕ) : Type 0 where
  pub fits : used ≤ length buf
  pub raw : f.raw ≡ take used buf
  pub small : length f.payload ≤ max_frame
  pub header : 2 + length f.payload ≤ used
  pub overhead : used ≤ 14 + length f.payload
  pub opcode : f.opcode ≡ opcode_of buf
  pub fin : f.fin ≡ fin_of buf

read_len-pos :
    (buf : List ℕ) (len pos : ℕ) → read_len buf ≡ some (len, pos) → (2 ≤ pos) × (pos ≤ 10)
unfolding read_len
read_len-pos buf len pos e = ground arith

read_mask-pos :
    (buf : List ℕ) (pos start : ℕ) (mask : Option (List ℕ))
    → read_mask buf pos ≡ some (mask, start)
    → (pos ≤ start) × (start ≤ pos + 4)
unfolding read_mask
read_mask-pos buf pos start mask e = ground arith

abbrev frame_or : WsFrame × ℕ → Option (WsFrame × ℕ) → WsFrame × ℕ
frame_or d none = d
frame_or d (some p) = p

read_payload-IsFrame :
    (buf : List ℕ) (len pos used : ℕ) (mask : Option (List ℕ)) (f : WsFrame)
    → len ≤ max_frame
    → 2 ≤ pos
    → pos ≤ 14
    → read_payload buf len mask pos ≡ some (f, used)
    → IsFrame buf f used
unfolding read_payload
read_payload-IsFrame buf len pos used mask f small lo hi e =
    elim (Bool-cases (ltb (length buf) (pos + len))) [
      | inl short ↦ absurd (ground (arith, short, e))
      | inr there ↦
          let enough : pos + len ≤ length buf = ground arith in
          let measure : length (unmask mask (take len (drop pos buf))) ≡ len = omega (
            arith,
            enough,
            length-unmask mask (take len (drop pos buf)),
            length-take len (drop pos buf),
            length-drop pos buf,
          ) in
          subst (λ p. IsFrame buf p.0 p.1) (ap (frame_or (f, used)) (rw (there, read_payload) at e))
            (record {
              fits = enough;
              raw = refl;
              small = omega (arith, measure);
              header = omega (arith, measure);
              overhead = omega (arith, measure);
              opcode = refl;
              fin = refl;
            })
    ]

-- Every frame that is read is a frame the buffer begins with.
pub parse_ws_frame_prefix-IsFrame :
    (buf : List ℕ) (f : WsFrame) (used : ℕ)
    → parse_ws_frame_prefix buf ≡ ok (some (f, used))
    → IsFrame buf f used
unfolding parse_ws_frame_prefix read_rest
parse_ws_frame_prefix-IsFrame buf f used e = elim (Option-cases (read_len buf)) [
  | inl none_yet ↦ absurd (ground (arith, none_yet, e))
  | inr ((len, pos), have) ↦
      let (lo, hi) = read_len-pos buf len pos have in
      elim (Option-cases (read_mask buf pos)) [
        | inl none_yet ↦ absurd (ground (arith, have, none_yet, e))
        | inr ((mask, start), have') ↦
            let (lo', hi') = read_mask-pos buf pos start mask have' in
            read_payload-IsFrame buf len start used mask f (ground (arith, have, e)) (omega arith)
              (omega arith) (ground (arith, have, have', e))
      ]
]
