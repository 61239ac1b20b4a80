-- ===== src/WebSocket/Tunnel/Reads.antt =====
-- The reading loop of crates/rsproxy-engine/src/proxy/websocket/nonblocking.rs, by the bytes that
-- it reads.
use rsproxy.Base.{
  ℕ, ◌+◌, ◌≡◌, refl, sym, ap, ◌∙◌, subst, Bool, true, false, if◌then◌else◌, ◌⊎◌, inl, inr,
  Bool-cases, List, [], ◌∷◌, ◌++◌, append-nil, append_assoc, length, length-append, ltb, ◌==◌,
  arith,
}
use rsproxy.WebSocket.Frame.{IoResult, ErrorKind, ok, err, WsFrame}
use rsproxy.WebSocket.Decoder.{WsFrameDecoder, push}
use rsproxy.WebSocket.Decoder.Decodes.{raws}
use rsproxy.WebSocket.Decoder.Chunks.{IsIdle, push_lem}
use rsproxy.WebSocket.Tunnel.{
  ReadOutcome, is_would_block, ReadEvent, received, failed, read_loop, read_ws_frames_nonblocking,
}

-- What the reads of one call give. The call reads on while a read fills its 8,192 bytes, and a read
-- that fails or that would block gives none.
abbrev pub taken : List ReadEvent → List ℕ
taken [] = []
taken (failed e ∷ events) = []
taken (received bytes ∷ events) =
    let more = taken events in if ltb (length bytes) 8192 then bytes else bytes ++ more

-- Whether these reads come to the end of the stream.
abbrev pub at_end : List ReadEvent → Bool
at_end [] = false
at_end (failed e ∷ events) = false
at_end (received bytes ∷ events) =
    let more = at_end events in
    if length bytes == 0 then true else if ltb (length bytes) 8192 then false else more

-- The reads come to an error: one of them fails with it, or gives bytes that the decoder refuses.
pub data Broken : List ReadEvent → WsFrameDecoder → ErrorKind → Type 0 where
  read_failed :
      (e : ErrorKind) (events : List ReadEvent) (d : WsFrameDecoder)
      → is_would_block e ≡ false
      → Broken (failed e ∷ events) d e
  malformed :
      (e : ErrorKind) (bytes : List ℕ) (events : List ReadEvent) (d : WsFrameDecoder)
      → (length bytes == 0) ≡ false
      → (push d bytes).1 ≡ err e
      → Broken (received bytes ∷ events) d e
  later :
      (e : ErrorKind) (bytes : List ℕ) (events : List ReadEvent) (d : WsFrameDecoder)
      (fs : List WsFrame)
      → ltb (length bytes) 8192 ≡ false
      → (push d bytes).1 ≡ ok fs
      → Broken events (push d bytes).0 e
      → Broken (received bytes ∷ events) d e

pub raws-append : (fs gs : List WsFrame) → raws (fs ++ gs) ≡ raws fs ++ raws gs
raws-append [] gs = refl
raws-append (f ∷ fs) gs =
    ap (λ l. f.raw ++ l) (raws-append fs gs) ∙ sym (append_assoc f.raw (raws fs) (raws gs))

-- What came of the reads of a call that succeeds.
pub record IsRead (events : List ReadEvent) (from : WsFrameDecoder) (before : List ℕ)
    (out : List WsFrame) (d : WsFrameDecoder) (total n : ℕ) (closed : Bool) : Type 0 where
  pub counted : n ≡ total + length (taken events)
  pub kept : raws out ++ d.buf ≡ before ++ taken events
  pub told : closed ≡ at_end events
  pub idle : IsIdle d ⊎ ((taken events ≡ []) × (d ≡ from))

-- Behind a push the frames and the buffer have one chunk more.
push-raws :
    (d : WsFrameDecoder) (bytes : List ℕ) (out fs : List WsFrame)
    → (push d bytes).1 ≡ ok fs
    → raws (out ++ fs) ++ (push d bytes).0.buf ≡ (raws out ++ d.buf) ++ bytes
push-raws d bytes out fs h =
    ap (λ l. l ++ (push d bytes).0.buf) (raws-append out fs)
    ∙ (append_assoc (raws out) (raws fs) (push d bytes).0.buf
        ∙ (ap (λ l. raws out ++ l) (push_lem d bytes fs h).0
            ∙ sym (append_assoc (raws out) d.buf bytes)))

abbrev pub IsOutcome :
    List ReadEvent → WsFrameDecoder → List ℕ → ℕ → WsFrameDecoder × ReadOutcome → Type 0
IsOutcome events from before total (d, ok (n, out, closed)) =
    IsRead events from before out d total n closed
IsOutcome events from before total (d, err e) = Broken events from e

pub still_idle :
    (d from : WsFrameDecoder) (bytes : List ℕ)
    → IsIdle from
    → IsIdle d ⊎ ((bytes ≡ []) × (d ≡ from))
    → IsIdle d
still_idle d from bytes h (inl idle) = idle
still_idle d from bytes h (inr (nothing, same)) = subst IsIdle (sym same) h

-- Behind a full read.
more-IsOutcome :
    (events : List ReadEvent) (bytes before : List ℕ) (total : ℕ) (from : WsFrameDecoder)
    (fs : List WsFrame) (r : WsFrameDecoder × ReadOutcome)
    → ltb (length bytes) 8192 ≡ false
    → (push from bytes).1 ≡ ok fs
    → IsOutcome events (push from bytes).0 (before ++ bytes) (total + length bytes) r
    → IsOutcome (received bytes ∷ events) from before total r
more-IsOutcome events bytes before total from fs (d, err e) full fine g =
    later e bytes events from fs full fine g
more-IsOutcome events bytes before total from fs (d, ok (n, out, closed)) full fine g =
    let some_bytes : (length bytes == 0) ≡ false = ground arith in
    record {
      counted = rw full (omega (arith, g.counted, length-append bytes (taken events)));
      kept = rw full (g.kept ∙ append_assoc before bytes (taken events));
      told = rw (some_bytes, full) g.told;
      idle =
          inl (
            still_idle d (push from bytes).0 (taken events) (push_lem from bytes fs fine).1 g.idle);
    }

empty : (bytes : List ℕ) → (length bytes == 0) ≡ true → bytes ≡ []
empty [] h = refl
empty (b ∷ bytes) h = absurd (ground (arith, h))

-- A read at the end of the stream.
end-IsRead :
    (events : List ReadEvent) (bytes : List ℕ) (d : WsFrameDecoder) (total : ℕ) (out : List WsFrame)
    → (length bytes == 0) ≡ true
    → IsRead (received bytes ∷ events) d (raws out ++ d.buf) out d total total true
end-IsRead events bytes d total out ended = rw (empty bytes ended) (record {
  counted = omega arith;
  kept = sym (append-nil (raws out ++ d.buf));
  told = refl;
  idle = inr (refl, refl);
})

-- No read gives bytes.
stop-IsRead :
    (events : List ReadEvent) (d : WsFrameDecoder) (total : ℕ) (out : List WsFrame)
    → taken events ≡ []
    → at_end events ≡ false
    → IsRead events d (raws out ++ d.buf) out d total total false
stop-IsRead events d total out nothing not_end = record {
  counted = rw nothing (omega arith);
  kept = rw nothing (sym (append-nil (raws out ++ d.buf)));
  told = sym not_end;
  idle = inr (nothing, refl);
}

-- A short read is the last.
short-IsRead :
    (events : List ReadEvent) (bytes : List ℕ) (d : WsFrameDecoder) (total : ℕ)
    (out fs : List WsFrame)
    → (push d bytes).1 ≡ ok fs
    → (length bytes == 0) ≡ false
    → ltb (length bytes) 8192 ≡ true
    → IsRead
        (received bytes ∷ events)
        d
        (raws out ++ d.buf)
        (out ++ fs)
        (push d bytes).0
        total
        (total + length bytes)
        false
short-IsRead events bytes d total out fs h some_bytes short = record {
  counted = rw short refl;
  kept = rw short (push-raws d bytes out fs h);
  told = rw (some_bytes, short) refl;
  idle = inl (push_lem d bytes fs h).1;
}

IoResult-cases :
    (r : IoResult (List WsFrame))
    → ((fs : List WsFrame) × (r ≡ ok fs)) ⊎ ((e : ErrorKind) × (r ≡ err e))
IoResult-cases (ok fs) = inl (fs, refl)
IoResult-cases (err e) = inr (e, refl)

read_loop-IsOutcome :
    (events : List ReadEvent) (d : WsFrameDecoder) (total : ℕ) (out : List WsFrame)
    → IsOutcome events d (raws out ++ d.buf) total (read_loop events d total out)
unfolding read_loop
read_loop-IsOutcome [] d total out = stop-IsRead [] d total out refl refl
read_loop-IsOutcome (failed e ∷ events) d total out = elim (Bool-cases (is_would_block e)) [
  | inl waits ↦ rw (waits, read_loop) (stop-IsRead (failed e ∷ events) d total out refl refl)
  | inr breaks ↦ rw (breaks, read_loop) (read_failed e events d breaks)
]
read_loop-IsOutcome (received bytes ∷ events) d total out = elim (Bool-cases (length bytes == 0)) [
  | inl ended ↦ elim (IoResult-cases (push d bytes).1) [
    | inl (fs, fine) ↦ rw (fine, ended, read_loop) (end-IsRead events bytes d total out ended)
    | inr (e, broken) ↦ rw (broken, ended, read_loop) (end-IsRead events bytes d total out ended)
  ]
  | inr some_bytes ↦ elim (IoResult-cases (push d bytes).1) [
    | inr (e, broken) ↦
        rw (broken, some_bytes, read_loop) (malformed e bytes events d some_bytes broken)
    | inl (fs, fine) ↦ elim (Bool-cases (ltb (length bytes) 8192)) [
      | inl short ↦
          rw (fine, some_bytes, short, read_loop)
            (short-IsRead events bytes d total out fs fine some_bytes short)
      | inr full ↦
          rw (fine, some_bytes, full, read_loop)
            (more-IsOutcome events bytes (raws out ++ d.buf) total d fs
              (read_loop events (push d bytes).0 (total + length bytes) (out ++ fs)) full fine
              (subst
                (λ l.
                  IsOutcome events (push d bytes).0 l (total + length bytes)
                    (read_loop events (push d bytes).0 (total + length bytes) (out ++ fs)))
                (push-raws d bytes out fs fine)
                (read_loop-IsOutcome events (push d bytes).0 (total + length bytes) (out ++ fs))))
    ]
  ]
]

-- A call of `read_ws_frames_nonblocking` reads while its reads are full. If it succeeds, it counts
-- the bytes of these reads and loses and changes none of them: the raw bytes of its frames, and then
-- what the decoder keeps, are what the decoder held and those bytes. If there are such bytes, it
-- keeps no whole frame back in the decoder. It tells whether the reads came to the end of the stream. If it fails, the error is that of the read that failed, or the decoder's
-- for the bytes of the last read.
pub read_ws_frames_nonblocking_lem :
    (events : List ReadEvent) (d : WsFrameDecoder)
    → IsOutcome events d d.buf 0 (read_ws_frames_nonblocking events d)
unfolding read_ws_frames_nonblocking
read_ws_frames_nonblocking_lem events d = read_loop-IsOutcome events d 0 []

pub outcome-cases :
    (r : ReadOutcome)
    → ((n : ℕ) × (out : List WsFrame) × (closed : Bool) × (r ≡ ok (n, out, closed)))
      ⊎ ((e : ErrorKind) × (r ≡ err e))
outcome-cases (ok (n, out, closed)) = inl (n, out, closed, refl)
outcome-cases (err e) = inr (e, refl)
