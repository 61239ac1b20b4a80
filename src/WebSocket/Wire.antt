-- ===== src/WebSocket/Wire.antt =====
-- The wire format of RFC 6455, section 5.2, written independently of the parser in
-- crates/rsproxy-engine/src/proxy/websocket_frame.rs, which reads it.
use rsproxy.Base.{
  ℕ, suc, ◌+◌, ◌%◌, ◌≤◌, ◌<◌, ◌≡◌, refl, ap, ap₂, ◌∙◌, sym, subst, Bool, true, false, Bool-cases,
  inl, inr, Option, none, some, List, [], ◌∷◌, ◌++◌, append_assoc, length, length-append, take,
  drop, take-append, drop-append, take_of_length-le, All, ltb, leb, if◌then◌else◌, arith, is_some,
}
use rsproxy.Base.Bytes.{from_be, to_be, from_be-to_be, xor_bits_self}
use rsproxy.WebSocket.Frame.{
  ok, WsFrame, max_frame, byte_at, fin_of, opcode_of, masked_of, unmask, unmask_from, read_len,
  read_mask, read_payload, read_rest, parse_ws_frame_prefix,
}
use rsproxy.WebSocket.Parsed.{length-unmask}
use rsproxy.WebSocket.Prefix.{parse_ws_frame_prefix-append}

-- The seven bits of the length, and the extended length.
abbrev pub short_of : ℕ → ℕ
short_of n = if ltb n 126 then n else if ltb n 65536 then 126 else 127

abbrev pub extended : ℕ → List ℕ
extended n = if ltb n 126 then [] else if ltb n 65536 then to_be 2 n else to_be 8 n

abbrev pub mask_bit : Option (List ℕ) → ℕ
mask_bit none = 0
mask_bit (some key) = 128

abbrev pub key_bytes : Option (List ℕ) → List ℕ
key_bytes none = []
key_bytes (some key) = key

-- Masking and unmasking are the same operation.
abbrev pub wire : Bool → ℕ → Option (List ℕ) → List ℕ → List ℕ
wire fin opcode key payload =
    ((if fin then 128 else 0) + opcode)
    ∷ (mask_bit key + short_of (length payload))
    ∷ (extended (length payload) ++ (key_bytes key ++ unmask key payload))

abbrev pub IsByte : ℕ → Type 0
IsByte b = b < 256

abbrev pub IsKey : Option (List ℕ) → Type 0
IsKey none = Unit
IsKey (some key) = length key ≡ 4

unmask_from_self :
    (key : List ℕ) (i : ℕ) (bs : List ℕ)
    → All IsByte bs
    → unmask_from key i (unmask_from key i bs) ≡ bs
unmask_from_self key i [] h = refl
unmask_from_self key i (b ∷ bs) (h, hs) =
    ap₂ (λ (a : ℕ) l. a ∷ l) (xor_bits_self 8 b (byte_at key (i % 4)) (omega (arith, h)))
      (unmask_from_self key (suc i) bs hs)

pub unmask_self :
    (key : Option (List ℕ)) (bs : List ℕ) → All IsByte bs → unmask key (unmask key bs) ≡ bs
unmask_self none bs h = refl
unmask_self (some key) bs h = unmask_from_self key 0 bs h

short_len-wire : (n : ℕ) (key : Option (List ℕ)) → (mask_bit key + short_of n) % 128 ≡ short_of n
short_len-wire n none = ground arith
short_len-wire n (some key) = ground arith

read_len-one :
    (x y : ℕ) (rest : List ℕ) → y % 128 < 126 → read_len (x ∷ y ∷ rest) ≡ some (y % 128, 2)
unfolding read_len
read_len-one x y rest h = ground arith

read_len-two :
    (x y a b : ℕ) (rest : List ℕ)
    → y % 128 ≡ 126
    → read_len (x ∷ y ∷ a ∷ b ∷ rest) ≡ some (from_be 0 (a ∷ b ∷ []), 4)
unfolding read_len
read_len-two x y a b rest h = ground arith

read_len-eight :
    (x y a b c d e f g i : ℕ) (rest : List ℕ)
    → y % 128 ≡ 127
    → read_len (x ∷ y ∷ a ∷ b ∷ c ∷ d ∷ e ∷ f ∷ g ∷ i ∷ rest)
      ≡ some (from_be 0 (a ∷ b ∷ c ∷ d ∷ e ∷ f ∷ g ∷ i ∷ []), 10)
unfolding read_len
read_len-eight x y a b c d e f g i rest h = ground arith

read_len-wire :
    (x n : ℕ) (key : Option (List ℕ)) (rest : List ℕ)
    → n ≤ max_frame
    → read_len (x ∷ (mask_bit key + short_of n) ∷ (extended n ++ rest))
      ≡ some (n, 2 + length (extended n))
unfolding to_be
read_len-wire x n key rest h =
    let y = mask_bit key + short_of n in
    let short = short_len-wire n key in
    elim (Bool-cases (ltb n 126)) [
      | inl one ↦
          let value : y % 128 ≡ n = short ∙ ground arith in
          let shape : extended n ≡ [] = rw one refl in
          rw shape (read_len-one x y rest (ground (arith, value)) ∙ ap (λ v. some (v, 2)) value)
      | inr more ↦ elim (Bool-cases (ltb n 65536)) [
        | inl two ↦
            let shape : extended n ≡ to_be 2 n = rw (more, two) refl in
            let value : y % 128 ≡ 126 = short ∙ ground arith in
            rw shape (
              read_len-two x y _ _ rest value
              ∙ ap (λ v. some (v, 4)) (from_be-to_be 2 n (ground (arith, two))))
        | inr eight ↦
            let shape : extended n ≡ to_be 8 n = rw (more, eight) refl in
            let value : y % 128 ≡ 127 = short ∙ ground arith in
            rw shape (
              read_len-eight x y _ _ _ _ _ _ _ _ rest value
              ∙ ap (λ v. some (v, 10)) (from_be-to_be 8 n (omega (arith, h))))
      ]
    ]

read_mask-at :
    (head rest : List ℕ) (key : Option (List ℕ))
    → masked_of (head ++ (key_bytes key ++ rest)) ≡ is_some key
    → IsKey key
    → read_mask (head ++ (key_bytes key ++ rest)) (length head)
      ≡ some (key, length (head ++ key_bytes key))
unfolding read_mask
read_mask-at head rest none m h =
    rw m (ap (λ n. some (none, n)) (omega (arith, length-append head (key_bytes none))))
read_mask-at head rest (some key) m h =
    let enough : ltb (length (head ++ (key ++ rest))) (length head + 4) ≡ false =
      ground (arith, h, length-append head (key ++ rest), length-append key rest) in
    let field : take 4 (drop (length head) (head ++ (key ++ rest))) ≡ key =
      ap (take 4) (drop-append head (key ++ rest))
      ∙ (ap (λ n. take n (key ++ rest)) (sym h) ∙ take-append key rest) in
    let end : length head + 4 ≡ length (head ++ key) = omega (arith, h, length-append head key) in
    rw (m, enough) (ap₂ (λ k n. some (some k, n)) field end)

read_payload-at :
    (head body : List ℕ) (key : Option (List ℕ))
    → read_payload (head ++ body) (length body) key (length head)
      ≡ some (
        record {
          raw = head ++ body;
          payload = unmask key body;
          opcode = opcode_of (head ++ body);
          fin = fin_of (head ++ body);
        },
        length (head ++ body),
      )
unfolding read_payload
read_payload-at head body key =
    let all : length head + length body ≡ length (head ++ body) =
      omega (arith, length-append head body) in
    let enough : ltb (length (head ++ body)) (length (head ++ body)) ≡ false = ground arith in
    let field : take (length body) (drop (length head) (head ++ body)) ≡ body =
      ap (take (length body)) (drop-append head body)
      ∙ take_of_length-le (length body) body (omega arith) in
    rw (all, enough)
      (ap₂
        (λ r p. some (
          record {
            raw = r;
            payload = unmask key p;
            opcode = opcode_of (head ++ body);
            fin = fin_of (head ++ body);
          },
          length (head ++ body),
        ))
        (take_of_length-le (length (head ++ body)) (head ++ body) (omega arith)) field)

-- The stages, one behind the other.
parse-stages :
    (x y len pos start used : ℕ) (rest : List ℕ) (mask : Option (List ℕ)) (f : WsFrame)
    → read_len (x ∷ y ∷ rest) ≡ some (len, pos)
    → len ≤ max_frame
    → read_mask (x ∷ y ∷ rest) pos ≡ some (mask, start)
    → read_payload (x ∷ y ∷ rest) len mask start ≡ some (f, used)
    → parse_ws_frame_prefix (x ∷ y ∷ rest) ≡ ok (some (f, used))
unfolding parse_ws_frame_prefix read_rest
parse-stages x y len pos start used rest mask f e small e' e'' = ground arith

fin_of-wire :
    (fin : Bool) (opcode : ℕ) → opcode < 16 → leb 128 ((if fin then 128 else 0) + opcode) ≡ fin
fin_of-wire true opcode h = ground arith
fin_of-wire false opcode h = ground arith

opcode_of-wire :
    (fin : Bool) (opcode : ℕ) → opcode < 16 → ((if fin then 128 else 0) + opcode) % 16 ≡ opcode
opcode_of-wire true opcode h = omega (arith, h)
opcode_of-wire false opcode h = omega (arith, h)

masked_of-wire : (n : ℕ) (key : Option (List ℕ)) → leb 128 (mask_bit key + short_of n) ≡ is_some key
masked_of-wire n none = ground arith
masked_of-wire n (some key) = ground arith

wire-alone :
    (fin : Bool) (opcode : ℕ) (key : Option (List ℕ)) (payload : List ℕ)
    → opcode < 16
    → IsKey key
    → All IsByte payload
    → length payload ≤ max_frame
    → parse_ws_frame_prefix (wire fin opcode key payload)
      ≡ ok (
          some (
            record {
              raw = wire fin opcode key payload;
              payload = payload;
              opcode = opcode;
              fin = fin;
            },
            length (wire fin opcode key payload),
          ))
wire-alone fin opcode key payload o k bytes small =
    let x = (if fin then 128 else 0) + opcode in
    let y = mask_bit key + short_of (length payload) in
    let ext = extended (length payload) in
    let head = x ∷ y ∷ ext in
    let body = unmask key payload in
    let buf = wire fin opcode key payload in
    let split : (head ++ key_bytes key) ++ body ≡ buf = append_assoc head (key_bytes key) body in
    let measure : length body ≡ length payload = length-unmask key payload in
    let mk : List ℕ → ℕ → Bool → Option (WsFrame × ℕ) =
      λ p a b. some (record { raw = buf; payload = p; opcode = a; fin = b }, length buf) in
    let pos : 2 + length ext ≡ length head = omega arith in
    let read =
      subst
        (λ (b : List ℕ).
          read_payload b (length body) key (length (head ++ key_bytes key))
          ≡ some (
            record { raw = b; payload = unmask key body; opcode = opcode_of b; fin = fin_of b },
            length b,
          ))
        split (read_payload-at (head ++ key_bytes key) body key) in
    parse-stages x y (length payload) (length head) (length (head ++ key_bytes key)) (length buf)
      (ext ++ (key_bytes key ++ body)) key
      (record { raw = buf; payload = payload; opcode = opcode; fin = fin })
      (read_len-wire x (length payload) key (key_bytes key ++ body) small
        ∙ ap (λ n. some (length payload, n)) pos)
      small (read_mask-at head body key (masked_of-wire (length payload) key) k)
      (ap (λ n. read_payload buf n key (length (head ++ key_bytes key))) (sym measure)
        ∙ (read
            ∙ (ap (λ p. mk p (opcode_of buf) (fin_of buf)) (unmask_self key payload bytes)
                ∙ ap₂ (mk payload) (opcode_of-wire fin opcode o) (fin_of-wire fin opcode o))))

-- A frame in the wire format, masked or not, is read back as what it carries, together with its
-- bytes as they are, whatever follows it, if its opcode has four bits, its key four bytes, and its
-- payload at most 16 MiB.
pub parse_ws_frame_prefix-wire :
    (fin : Bool) (opcode : ℕ) (key : Option (List ℕ)) (payload more : List ℕ)
    → opcode < 16
    → IsKey key
    → All IsByte payload
    → length payload ≤ max_frame
    → parse_ws_frame_prefix (wire fin opcode key payload ++ more)
      ≡ ok (
          some (
            record {
              raw = wire fin opcode key payload;
              payload = payload;
              opcode = opcode;
              fin = fin;
            },
            length (wire fin opcode key payload),
          ))
parse_ws_frame_prefix-wire fin opcode key payload more o k bytes small =
    parse_ws_frame_prefix-append (wire fin opcode key payload) more _ _
      (wire-alone fin opcode key payload o k bytes small)
