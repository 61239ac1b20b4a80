-- ===== src/WebSocket/Read.antt =====
-- `read_ws_frame` of crates/rsproxy-engine/src/proxy/websocket_frame.rs, which reads a frame from a
-- blocking stream.
pub mod Agrees
use rsproxy.Base.{
  ℕ, ◌+◌, ◌%◌, ◌≡◌, refl, ap, ◌∙◌, sym, Bool, true, false, Bool-cases, Option-cases, inl, inr,
  Option, none, some, List, [], ◌∷◌, ◌++◌, length, take, drop, ltb, leb, ◌==◌, if◌then◌else◌, arith,
}
use rsproxy.Base.Bytes.{from_be}
use rsproxy.WebSocket.Frame.{
  IoResult, ErrorKind, ok, err, invalid_data, unexpected_eof, WsFrame, max_frame, fin_of, opcode_of,
  masked_of, short_len, unmask, parse_ws_frame_prefix,
}

-- `Read`: the bytes that will come, and the error behind them, if it is not the end of the stream.
pub record Reader : Type 0 where
  pub bytes : List ℕ
  pub fault : Option ErrorKind

abbrev pub Reading {ℓ} : Type ℓ → Type ℓ
Reading A = IoResult A × Reader

abbrev pub fault_kind : Option ErrorKind → ErrorKind
fault_kind none = unexpected_eof
fault_kind (some e) = e

-- `read_exact`.
unfoldable pub read_exact : ℕ → Reader → Reading (List ℕ)
read_exact n r =
    if leb n (length r.bytes)
    then (ok (take n r.bytes), record r { bytes = drop n r.bytes })
    else (err (fault_kind r.fault), record r { bytes = [] })

abbrev pub is_eof : ErrorKind → Bool
is_eof unexpected_eof = true
is_eof _ = false

-- `?` on what was read.
abbrev pub and_then {ℓ κ} :
    {A : Type ℓ} {B : Type κ} → Reading A → (A → Reader → Reading B) → Reading B
and_then (ok a, r) next = next a r
and_then (err e, r) next = (err e, r)

-- The payload's length, and `raw` so far.
unfoldable pub read_length : List ℕ → Reader → Reading (ℕ × List ℕ)
unfolding read_exact
read_length first r =
    if short_len first == 126
    then and_then (read_exact 2 r) (λ ext r'. (ok (from_be 0 ext, first ++ ext), r'))
    else if short_len first == 127
    then and_then (read_exact 8 r) (λ ext r'. (ok (from_be 0 ext, first ++ ext), r'))
    else (ok (short_len first, first), r)

-- The masking key, and `raw` so far.
unfoldable pub read_key : List ℕ → List ℕ → Reader → Reading (Option (List ℕ) × List ℕ)
unfolding read_exact
read_key first raw r =
    if masked_of first
    then and_then (read_exact 4 r) (λ key r'. (ok (some key, raw ++ key), r'))
    else (ok (none, raw), r)

-- What follows a length that is not too large.
unfoldable pub read_body : List ℕ → ℕ → List ℕ → Reader → Reading WsFrame
unfolding read_key read_exact
read_body first len raw r = and_then (read_key first raw r) (λ keyed r'.
    and_then (read_exact len r') (λ payload r''. (
      ok (record {
        raw = keyed.1 ++ payload;
        payload = unmask keyed.0 payload;
        opcode = opcode_of first;
        fin = fin_of first;
      }),
      r'',
    )))

abbrev pub found : WsFrame → Reader → Reading (Option WsFrame)
found f r = (ok (some f), r)

-- What follows the first two bytes, behind the length.
unfoldable pub read_checked : List ℕ → ℕ × List ℕ → Reader → Reading (Option WsFrame)
unfolding read_body
read_checked first (len, raw) r =
    if ltb max_frame len then (err invalid_data, r) else and_then (read_body first len raw r) found

-- What follows the reading of the first two bytes; their lack is the end of the stream.
abbrev pub after_first : Reading (List ℕ) → Reading (Option WsFrame)
after_first (err e, r) = if is_eof e then (ok none, r) else (err e, r)
after_first (ok first, r) = and_then (read_length first r) (read_checked first)

unfoldable pub read_ws_frame : Reader → Reading (Option WsFrame)
unfolding read_exact read_length read_checked
read_ws_frame r = after_first (read_exact 2 r)
