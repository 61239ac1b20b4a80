-- ===== src/WebSocket/Prefix.antt =====
-- What `parse_ws_frame_prefix` of crates/rsproxy-engine/src/proxy/websocket_frame.rs makes of a
-- buffer does not change when more bytes arrive, once it has made something of it.
use rsproxy.Base.{
  ℕ, ◌+◌, ◌%◌, ◌≤◌, ◌≡◌, ap, ◌∙◌, Bool-cases, Option-cases, Option, some, List, [], ◌∷◌, ◌++◌,
  length, take, drop, length-append, length-drop, take_append-le, drop_append-le, ltb, ◌==◌, inl,
  inr, arith,
}
use rsproxy.WebSocket.Frame.{
  ErrorKind, ok, err, WsFrame, max_frame, read_len, read_mask, read_payload, read_rest,
  parse_ws_frame_prefix,
}

-- A field of a fixed size stays where it is.
field-append :
    (n pos : ℕ) (buf more : List ℕ)
    → pos + n ≤ length buf
    → take n (drop pos (buf ++ more)) ≡ take n (drop pos buf)
field-append n pos buf more h =
    ap (take n) (drop_append-le pos buf more (omega arith))
    ∙ take_append-le n (drop pos buf) more (omega (arith, length-drop pos buf))

read_len-append :
    (x y : ℕ) (buf more : List ℕ) (h : ℕ × ℕ)
    → read_len (x ∷ y ∷ buf) ≡ some h
    → read_len (x ∷ y ∷ (buf ++ more)) ≡ some h
unfolding read_len
read_len-append x y buf more h e = elim (Bool-cases (y % 128 == 126)) [
  | inl two ↦ ground (arith, length-append buf more, take_append-le 2 buf more)
  | inr not_two ↦ ground (arith, length-append buf more, take_append-le 8 buf more)
]

read_mask-append :
    (x y pos : ℕ) (buf more : List ℕ) (h : Option (List ℕ) × ℕ)
    → read_mask (x ∷ y ∷ buf) pos ≡ some h
    → read_mask (x ∷ y ∷ (buf ++ more)) pos ≡ some h
unfolding read_mask
read_mask-append x y pos buf more h e =
    ground (arith, length-append buf more, field-append 4 pos (x ∷ y ∷ buf) more)

read_payload-append :
    (x y len pos : ℕ) (mask : Option (List ℕ)) (buf more : List ℕ) (h : WsFrame × ℕ)
    → read_payload (x ∷ y ∷ buf) len mask pos ≡ some h
    → read_payload (x ∷ y ∷ (buf ++ more)) len mask pos ≡ some h
unfolding read_payload
read_payload-append x y len pos mask buf more h e = ground (
  arith,
  length-append buf more,
  take_append-le (pos + len) (x ∷ y ∷ buf) more,
  field-append len pos (x ∷ y ∷ buf) more,
)

read_rest-append :
    (x y len pos : ℕ) (buf more : List ℕ) (h : WsFrame × ℕ)
    → read_rest (x ∷ y ∷ buf) len pos ≡ some h
    → read_rest (x ∷ y ∷ (buf ++ more)) len pos ≡ some h
unfolding read_rest
read_rest-append x y len pos buf more h e = elim (Option-cases (read_mask (x ∷ y ∷ buf) pos)) [
  | inl none_yet ↦ ground (arith, none_yet)
  | inr ((mask, start), have) ↦
      rw (read_mask-append x y pos buf more (mask, start) have, read_rest)
        (read_payload-append x y len start mask buf more h (rw (have, read_rest) at e))
]

-- A frame that the buffer begins with is the same, with the same number of bytes, however many bytes
-- follow.
pub parse_ws_frame_prefix-append :
    (buf more : List ℕ) (f : WsFrame) (used : ℕ)
    → parse_ws_frame_prefix buf ≡ ok (some (f, used))
    → parse_ws_frame_prefix (buf ++ more) ≡ ok (some (f, used))
unfolding parse_ws_frame_prefix
parse_ws_frame_prefix-append [] more f used e = ground arith
parse_ws_frame_prefix-append (x ∷ []) more f used e = ground arith
parse_ws_frame_prefix-append (x ∷ y ∷ buf) more f used e =
    elim (Option-cases (read_len (x ∷ y ∷ buf))) [
      | inl none_yet ↦ absurd (ground (arith, none_yet, e))
      | inr ((len, pos), have) ↦ elim (Bool-cases (ltb max_frame len)) [
        | inl large ↦ absurd (ground (arith, have, large, e))
        | inr small ↦ ground (
          arith,
          length-append buf more,
          have,
          small,
          e,
          read_len-append x y buf more (len, pos) have,
          read_rest-append x y len pos buf more (f, used),
        )
      ]
    ]

-- So is a refusal.
pub parse_ws_frame_prefix-err :
    (buf more : List ℕ) (kind : ErrorKind)
    → parse_ws_frame_prefix buf ≡ err kind
    → parse_ws_frame_prefix (buf ++ more) ≡ err kind
unfolding parse_ws_frame_prefix
parse_ws_frame_prefix-err [] more kind e = ground arith
parse_ws_frame_prefix-err (x ∷ []) more kind e = ground arith
parse_ws_frame_prefix-err (x ∷ y ∷ buf) more kind e = elim (Option-cases (read_len (x ∷ y ∷ buf))) [
  | inl none_yet ↦ absurd (ground (arith, none_yet, e))
  | inr ((len, pos), have) ↦
      ground (arith, length-append buf more, have, e, read_len-append x y buf more (len, pos) have)
]
