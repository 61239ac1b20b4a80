-- ===== src/WebSocket/Read/Agrees.antt =====
-- The two readers of crates/rsproxy-engine/src/proxy/websocket_frame.rs against each other.
use rsproxy.Base.{
  ℕ, ◌%◌, ◌≤◌, ◌≡◌, refl, ap, ◌∙◌, sym, false, Bool-cases, Option-cases, inl, inr, Option, none,
  some, List, [], ◌∷◌, length, length-drop, take, drop, ltb, ◌==◌, ◌&&◌, if◌then◌else◌, arith,
  take-plus, drop-plus, drop-length,
}
use rsproxy.WebSocket.Frame.{
  IoResult, ErrorKind, ok, err, unexpected_eof, WsFrame, max_frame, read_len, read_mask,
  read_payload, read_rest, parse_ws_frame_prefix,
}
use rsproxy.WebSocket.Read.{
  Reader, Reading, fault_kind, is_eof, and_then, found, read_exact, read_length, read_key,
  read_body, read_checked, read_ws_frame,
}

-- A reader with the rest of a buffer.
abbrev at : ℕ → List ℕ → Option ErrorKind → Reader
at pos buf fault = record { bytes = drop pos buf; fault = fault }

read_length-some :
    (x y : ℕ) (buf : List ℕ) (fault : Option ErrorKind) (len pos : ℕ)
    → read_len (x ∷ y ∷ buf) ≡ some (len, pos)
    → (read_length (x ∷ y ∷ []) (at 2 (x ∷ y ∷ buf) fault)
        ≡ (ok (len, take pos (x ∷ y ∷ buf)), at pos (x ∷ y ∷ buf) fault))
      × (2 ≤ pos)
      × (pos ≤ length (x ∷ y ∷ buf))
unfolding read_length read_len
read_length-some x y buf fault len pos e = elim (Bool-cases (y % 128 == 126)) [
  | inl two ↦ ground arith
  | inr not_two ↦ ground arith
]

read_length-none :
    (x y : ℕ) (buf : List ℕ) (fault : Option ErrorKind)
    → read_len (x ∷ y ∷ buf) ≡ none
    → (read_length (x ∷ y ∷ []) (at 2 (x ∷ y ∷ buf) fault)).0 ≡ err (fault_kind fault)
unfolding read_length read_len
read_length-none x y buf fault e = ground arith

read_key-some :
    (x y pos : ℕ) (buf : List ℕ) (fault : Option ErrorKind) (mask : Option (List ℕ)) (start : ℕ)
    → pos ≤ length (x ∷ y ∷ buf)
    → read_mask (x ∷ y ∷ buf) pos ≡ some (mask, start)
    → (read_key (x ∷ y ∷ []) (take pos (x ∷ y ∷ buf)) (at pos (x ∷ y ∷ buf) fault)
        ≡ (ok (mask, take start (x ∷ y ∷ buf)), at start (x ∷ y ∷ buf) fault))
      × (start ≤ length (x ∷ y ∷ buf))
unfolding read_key read_mask
read_key-some x y pos buf fault mask start h e = ground (
  arith,
  length-drop pos (x ∷ y ∷ buf),
  take-plus pos 4 (x ∷ y ∷ buf),
  drop-plus pos 4 (x ∷ y ∷ buf),
)

read_key-none :
    (x y pos : ℕ) (buf : List ℕ) (fault : Option ErrorKind)
    → read_mask (x ∷ y ∷ buf) pos ≡ none
    → (read_key (x ∷ y ∷ []) (take pos (x ∷ y ∷ buf)) (at pos (x ∷ y ∷ buf) fault)).0
      ≡ err (fault_kind fault)
unfolding read_key read_mask
read_key-none x y pos buf fault e = ground (arith, length-drop pos (x ∷ y ∷ buf))

-- The payload, behind the masking key.
read_body-payload :
    (x y len pos : ℕ) (buf : List ℕ) (fault : Option ErrorKind) (mask : Option (List ℕ)) (start : ℕ)
    → pos ≤ length (x ∷ y ∷ buf)
    → read_mask (x ∷ y ∷ buf) pos ≡ some (mask, start)
    → read_body (x ∷ y ∷ []) len (take pos (x ∷ y ∷ buf)) (at pos (x ∷ y ∷ buf) fault)
      ≡ (elim (read_payload (x ∷ y ∷ buf) len mask start) [
        | none ↦ (err (fault_kind fault), at (length (x ∷ y ∷ buf)) (x ∷ y ∷ buf) fault)
        | some (f, used) ↦ (ok f, at used (x ∷ y ∷ buf) fault)
      ])
unfolding read_body read_payload
read_body-payload x y len pos buf fault mask start h e =
    let (key, enough) = read_key-some x y pos buf fault mask start h e in
    rw (key, read_body)
      (ground (
        arith,
        enough,
        length-drop start (x ∷ y ∷ buf),
        take-plus start len (x ∷ y ∷ buf),
        drop-plus start len (x ∷ y ∷ buf),
        drop-length (x ∷ y ∷ buf),
      ))

read_body-waits :
    (x y len pos : ℕ) (buf : List ℕ) (fault : Option ErrorKind)
    → read_mask (x ∷ y ∷ buf) pos ≡ none
    → (read_body (x ∷ y ∷ []) len (take pos (x ∷ y ∷ buf)) (at pos (x ∷ y ∷ buf) fault)).0
      ≡ err (fault_kind fault)
unfolding read_body
read_body-waits x y len pos buf fault e = ground (arith, read_key-none x y pos buf fault e)

-- What a blocking read makes of the parser's answer: where the parser waits for more bytes, the
-- reader meets the end of the stream, which is fine before the second byte of a frame.
abbrev pub expected :
    Reader → IoResult (Option (WsFrame × ℕ)) → IoResult (Option (WsFrame × List ℕ))
expected r (err e) = err e
expected r (ok (some (f, used))) = ok (some (f, drop used r.bytes))
expected r (ok none) =
    if ltb (length r.bytes) 2 && is_eof (fault_kind r.fault)
    then ok none
    else err (fault_kind r.fault)

-- The frame that was read and the bytes that are still to come.
abbrev pub outcome : Reading (Option WsFrame) → IoResult (Option (WsFrame × List ℕ))
outcome (err e, r) = err e
outcome (ok none, r) = ok none
outcome (ok (some f), r) = ok (some (f, r.bytes))

not_short : (x y : ℕ) (buf : List ℕ) → ltb (length (x ∷ y ∷ buf)) 2 ≡ false
not_short x y buf = ground arith

and_then-err {ℓ} :
    {A : Type ℓ} (r : Reading A) (next : A → Reader → Reading (Option WsFrame)) (e : ErrorKind)
    → r.0 ≡ err e
    → outcome (and_then r next) ≡ err e
and_then-err r next e h = ap (λ a. outcome (and_then (a, r.1) next)) h

-- Where the parser waits, a reader that has begun a frame fails.
expected-waits :
    (x y : ℕ) (buf : List ℕ) (fault : Option ErrorKind)
    → expected (at 0 (x ∷ y ∷ buf) fault) (ok none) ≡ err (fault_kind fault)
expected-waits x y buf fault = ground arith

read_checked-lem :
    (x y len pos : ℕ) (buf : List ℕ) (fault : Option ErrorKind)
    → pos ≤ length (x ∷ y ∷ buf)
    → ltb max_frame len ≡ false
    → outcome (read_checked (x ∷ y ∷ []) (len, take pos (x ∷ y ∷ buf)) (at pos (x ∷ y ∷ buf) fault))
      ≡ expected (at 0 (x ∷ y ∷ buf) fault) (ok (read_rest (x ∷ y ∷ buf) len pos))
unfolding read_checked read_rest
read_checked-lem x y len pos buf fault enough small =
    elim (Option-cases (read_mask (x ∷ y ∷ buf) pos)) [
      | inl waits ↦
          rw (small, waits, read_checked, read_rest)
            (and_then-err
                (read_body (x ∷ y ∷ []) len (take pos (x ∷ y ∷ buf)) (at pos (x ∷ y ∷ buf) fault))
                found (fault_kind fault) (read_body-waits x y len pos buf fault waits)
              ∙ sym (expected-waits x y buf fault))
      | inr ((mask, start), have) ↦
          let body = read_body-payload x y len pos buf fault mask start enough have in
          elim (Option-cases (read_payload (x ∷ y ∷ buf) len mask start)) [
            | inl waits ↦
                rw (small, body, have, waits, read_checked, read_rest)
                  (sym (expected-waits x y buf fault))
            | inr ((f, used), done) ↦ rw (small, body, have, done, read_checked, read_rest) refl
          ]
    ]

read_ws_frame-first :
    (x y : ℕ) (buf : List ℕ) (fault : Option ErrorKind)
    → read_ws_frame (at 0 (x ∷ y ∷ buf) fault)
      ≡ and_then (read_length (x ∷ y ∷ []) (at 2 (x ∷ y ∷ buf) fault)) (read_checked (x ∷ y ∷ []))
unfolding read_ws_frame read_exact
read_ws_frame-first x y buf fault = ground arith

read_ws_frame-full :
    (x y : ℕ) (buf : List ℕ) (fault : Option ErrorKind)
    → outcome (read_ws_frame (at 0 (x ∷ y ∷ buf) fault))
      ≡ expected (at 0 (x ∷ y ∷ buf) fault) (parse_ws_frame_prefix (x ∷ y ∷ buf))
unfolding parse_ws_frame_prefix read_checked
read_ws_frame-full x y buf fault =
    ap outcome (read_ws_frame-first x y buf fault) ∙ (elim (Option-cases (read_len (x ∷ y ∷ buf))) [
      | inl waits ↦
          and_then-err (read_length (x ∷ y ∷ []) (at 2 (x ∷ y ∷ buf) fault))
            (read_checked (x ∷ y ∷ [])) (fault_kind fault) (read_length-none x y buf fault waits)
          ∙ rw (not_short x y buf, waits, parse_ws_frame_prefix)
              (sym (expected-waits x y buf fault))
      | inr ((len, pos), have) ↦
          let (measured, lo, enough) = read_length-some x y buf fault len pos have in
          ap (λ r. outcome (and_then r (read_checked (x ∷ y ∷ [])))) measured
          ∙ (elim (Bool-cases (ltb max_frame len)) [
            | inl large ↦ ground (arith, large, not_short x y buf, have)
            | inr small ↦
                read_checked-lem x y len pos buf fault enough small
                ∙ rw (not_short x y buf, have, small, parse_ws_frame_prefix) refl
          ])
    ])

read_ws_frame-empty :
    (fault : Option ErrorKind)
    → outcome (read_ws_frame (at 0 [] fault)) ≡ expected (at 0 [] fault) (parse_ws_frame_prefix [])
unfolding read_ws_frame read_exact parse_ws_frame_prefix
read_ws_frame-empty none = refl
read_ws_frame-empty (some unexpected_eof) = refl
read_ws_frame-empty (some ErrorKind.invalid_data) = refl
read_ws_frame-empty (some ErrorKind.would_block) = refl
read_ws_frame-empty (some ErrorKind.end_error) = refl
read_ws_frame-empty (some ErrorKind.other) = refl

read_ws_frame-byte :
    (x : ℕ) (fault : Option ErrorKind)
    → outcome (read_ws_frame (at 0 (x ∷ []) fault))
      ≡ expected (at 0 (x ∷ []) fault) (parse_ws_frame_prefix (x ∷ []))
unfolding read_ws_frame read_exact parse_ws_frame_prefix
read_ws_frame-byte x none = refl
read_ws_frame-byte x (some unexpected_eof) = refl
read_ws_frame-byte x (some ErrorKind.invalid_data) = refl
read_ws_frame-byte x (some ErrorKind.would_block) = refl
read_ws_frame-byte x (some ErrorKind.end_error) = refl
read_ws_frame-byte x (some ErrorKind.other) = refl

read_ws_frame-bytes :
    (bytes : List ℕ) (fault : Option ErrorKind)
    → outcome (read_ws_frame (at 0 bytes fault))
      ≡ expected (at 0 bytes fault) (parse_ws_frame_prefix bytes)
read_ws_frame-bytes [] fault = read_ws_frame-empty fault
read_ws_frame-bytes (x ∷ []) fault = read_ws_frame-byte x fault
read_ws_frame-bytes (x ∷ y ∷ buf) fault = read_ws_frame-full x y buf fault

-- A blocking read returns what the incremental parser finds at the beginning of the stream: the same
-- frame, with the same bytes left, or the same refusal. Where the parser would wait for more, it
-- fails with the stream's error, `UnexpectedEof` at its end, but for an end before the second byte
-- of a frame, which is no error.
pub read_ws_frame_lem :
    (r : Reader) → outcome (read_ws_frame r) ≡ expected r (parse_ws_frame_prefix r.bytes)
read_ws_frame_lem r = read_ws_frame-bytes r.bytes r.fault
