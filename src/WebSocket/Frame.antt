-- ===== src/WebSocket/Frame.antt =====
-- `WsFrame` and `parse_ws_frame_prefix` of crates/rsproxy-engine/src/proxy/websocket_frame.rs.
use rsproxy.Base.{
  ℕ, suc, ◌+◌, ◌%◌, Bool, Option, none, some, List, [], ◌∷◌, length, take, drop, get_elem?, ltb,
  leb, ◌==◌, if◌then◌else◌,
}
use rsproxy.Base.Bytes.{xor_byte, from_be}

-- `io::ErrorKind`, as far as it is told apart.
pub data ErrorKind : Type 0 where
  invalid_data unexpected_eof would_block end_error other : ErrorKind

-- `io::Result`.
pub data IoResult {ℓ} (A : Type ℓ) : Type ℓ where
  ok : A → IoResult A
  err : ErrorKind → IoResult A

pub record WsFrame : Type 0 where
  pub raw : List ℕ
  pub payload : List ℕ
  pub opcode : ℕ
  pub fin : Bool

-- 16 MiB.
abbrev pub max_frame : ℕ
max_frame = 16777216

-- A byte that is read behind a test of the length.
abbrev pub byte_at : List ℕ → ℕ → ℕ
byte_at buf i = elim (get_elem? buf i) [ none ↦ 0 | some b ↦ b ]

-- The two bytes that every frame begins with.
abbrev pub fin_of : List ℕ → Bool
fin_of buf = leb 128 (byte_at buf 0)

abbrev pub opcode_of : List ℕ → ℕ
opcode_of buf = byte_at buf 0 % 16

abbrev pub masked_of : List ℕ → Bool
masked_of buf = leb 128 (byte_at buf 1)

abbrev pub short_len : List ℕ → ℕ
short_len buf = byte_at buf 1 % 128

-- `*byte ^= mask[idx % 4]` over the payload.
abbrev pub unmask_from : List ℕ → ℕ → List ℕ → List ℕ
unmask_from key idx [] = []
unmask_from key idx (b ∷ bs) = xor_byte b (byte_at key (idx % 4)) ∷ unmask_from key (suc idx) bs

abbrev pub unmask : Option (List ℕ) → List ℕ → List ℕ
unmask none payload = payload
unmask (some key) payload = unmask_from key 0 payload

-- The payload's length and the position behind it, if the buffer has them.
unfoldable pub read_len : List ℕ → Option (ℕ × ℕ)
read_len buf =
    if short_len buf == 126
    then if ltb (length buf) 4 then none else some (from_be 0 (take 2 (drop 2 buf)), 4)
    else if short_len buf == 127
    then if ltb (length buf) 10 then none else some (from_be 0 (take 8 (drop 2 buf)), 10)
    else some (short_len buf, 2)

-- The masking key and the position behind it.
unfoldable pub read_mask : List ℕ → ℕ → Option (Option (List ℕ) × ℕ)
read_mask buf pos =
    if masked_of buf
    then if ltb (length buf) (pos + 4) then none else some (some (take 4 (drop pos buf)), pos + 4)
    else some (none, pos)

unfoldable pub read_payload : List ℕ → ℕ → Option (List ℕ) → ℕ → Option (WsFrame × ℕ)
read_payload buf len mask pos =
    if ltb (length buf) (pos + len)
    then none
    else some (
      record {
        raw = take (pos + len) buf;
        payload = unmask mask (take len (drop pos buf));
        opcode = opcode_of buf;
        fin = fin_of buf;
      },
      pos + len,
    )

-- What follows a length that is not too large.
unfoldable pub read_rest : List ℕ → ℕ → ℕ → Option (WsFrame × ℕ)
read_rest buf len pos = elim (read_mask buf pos) [
  | none ↦ none
  | some (mask, start) ↦ read_payload buf len mask start
]

unfoldable pub parse_ws_frame_prefix : List ℕ → IoResult (Option (WsFrame × ℕ))
parse_ws_frame_prefix buf = if ltb (length buf) 2 then ok none else elim (read_len buf) [
  | none ↦ ok none
  | some (len, pos) ↦ if ltb max_frame len then err invalid_data else ok (read_rest buf len pos)
]
