-- ===== src/WebSocket/Decoder/Cuts.antt =====
-- What a caller of the decoder of crates/rsproxy-engine/src/proxy/websocket.rs has after the chunks of
-- a byte sequence, push by push, and that it depends on how the bytes were cut only at an error.
use rsproxy.Base.{
  ℕ, ◌≡◌, refl, sym, ap, ◌∙◌, subst, ◌⊎◌, Option-cases, inl, inr, Option, none, some, List, [], ◌∷◌,
  ◌++◌, append_assoc, append-nil, arith,
}
use rsproxy.WebSocket.Frame.{IoResult, ErrorKind, ok, err, WsFrame}
use rsproxy.WebSocket.Decoder.{WsFrameDecoder, push}
use rsproxy.WebSocket.Decoder.Decodes.{
  End, Decodes, none_left, Run, answer, Decodes-append, Decodes-trans, Decodes-unique, End-append,
}
use rsproxy.WebSocket.Decoder.Chunks.{concat, IsIdle, push-Run}

-- The decoder, the frames of the pushes that succeeded, and the error of the one that did not,
-- behind which the caller pushes no more.
pub record Delivered : Type 0 where
  pub decoder : WsFrameDecoder
  pub frames : List WsFrame
  pub error : Option ErrorKind

abbrev pub after_push : WsFrameDecoder × IoResult (List WsFrame) → Delivered → Delivered
after_push (d, ok fs) more = record more { frames = fs ++ more.frames }
after_push (d, err e) more = record { decoder = d; frames = []; error = some e }

unfoldable pub deliver : WsFrameDecoder → List (List ℕ) → Delivered
deliver d [] = record { decoder = d; frames = []; error = none }
deliver d (chunk ∷ chunks) = let first = push d chunk in after_push first (deliver first.0 chunks)

-- `frames` are those of all the bytes; `lost` stood in the chunk of the error before it.
record Cut (buf : List ℕ) (r : Delivered) : Type 0 where
  frames : List WsFrame
  lost : List WsFrame
  unread : List ℕ
  decodes : Decodes buf frames (r.decoder.buf ++ unread)
  ended : End (r.decoder.buf ++ unread) r.error
  kept : r.frames ++ lost ≡ frames
  whole : r.error ≡ none → (unread ≡ []) × (lost ≡ [])

after_push-Cut :
    (buf rest : List ℕ) (d : WsFrameDecoder) (r : IoResult (List WsFrame)) (more : Delivered)
    → Run buf (d.buf, r)
    → (IsIdle d → Cut (d.buf ++ rest) more)
    → Cut (buf ++ rest) (after_push (d, r) more)
after_push-Cut buf rest d r more one next = elim (Option-cases one.ending) [
  | inl idle ↦
      let two = next (subst (End d.buf) idle one.ended) in
      let fine : r ≡ ok one.frames = one.answered ∙ ap (λ e. answer e one.frames) idle in
      rw fine (record {
        frames = one.frames ++ two.frames;
        lost = two.lost;
        unread = two.unread;
        decodes = Decodes-trans (Decodes-append rest one.decodes) two.decodes;
        ended = two.ended;
        kept = append_assoc one.frames more.frames two.lost ∙ ap (λ l. one.frames ++ l) two.kept;
        whole = two.whole;
      })
  | inr (e, broken) ↦
      let failed : r ≡ err e = one.answered ∙ ap (λ e'. answer e' one.frames) broken in
      rw failed (record {
        frames = one.frames;
        lost = one.frames;
        unread = rest;
        decodes = Decodes-append rest one.decodes;
        ended = End-append rest (subst (End d.buf) broken one.ended);
        kept = refl;
        whole = λ h. absurd (ground (arith, h));
      })
]

deliver-Cut :
    (d : WsFrameDecoder) (chunks : List (List ℕ))
    → IsIdle d
    → Cut (d.buf ++ concat chunks) (deliver d chunks)
unfolding deliver
deliver-Cut d [] h = record {
  frames = [];
  lost = [];
  unread = [];
  decodes = subst (Decodes (d.buf ++ []) []) refl none_left;
  ended = subst (λ l. End l none) (sym (append-nil d.buf)) h;
  kept = refl;
  whole = λ e. (refl, refl);
}
deliver-Cut d (chunk ∷ chunks) h =
    let (d', r) = push d chunk in
    subst (λ l. Cut l (deliver d (chunk ∷ chunks))) (append_assoc d.buf chunk (concat chunks))
      (after_push-Cut (d.buf ++ chunk) (concat chunks) d' r (deliver d' chunks) (push-Run d chunk)
        (deliver-Cut d' chunks))

-- Two callers have the same error, if one has one; then each has the first of the same frames.
-- Without an error both have all of them, and the same decoder.
pub record Alike (a b : Delivered) : Type 0 where
  pub error : a.error ≡ b.error
  pub frames : List WsFrame
  pub lost : List WsFrame
  pub lost' : List WsFrame
  pub first : a.frames ++ lost ≡ frames
  pub second : b.frames ++ lost' ≡ frames
  pub whole :
      ((e : ErrorKind) × (a.error ≡ some e))
      ⊎ ((lost ≡ []) × (lost' ≡ []) × (a.decoder ≡ b.decoder))

abbrev decoder_of : List ℕ → WsFrameDecoder
decoder_of l = record { buf = l }

all_buf : (d : WsFrameDecoder) (unread : List ℕ) → unread ≡ [] → d ≡ decoder_of (d.buf ++ unread)
all_buf d unread h = rw h (ap decoder_of (sym (append-nil d.buf)))

-- From a decoder that holds no whole frame, two cuttings of the same bytes into chunks come to the
-- same error, or to none. Without an error the pushes yield the same frames and leave the same
-- decoder. With one, each yields a first part of the same frames: those of the chunk of the error
-- are lost.
pub deliver_lem :
    (d : WsFrameDecoder) (chunks chunks' : List (List ℕ))
    → IsIdle d
    → concat chunks ≡ concat chunks'
    → Alike (deliver d chunks) (deliver d chunks')
deliver_lem d chunks chunks' h same =
    let one = deliver-Cut d chunks h in
    let two =
      subst (λ l. Cut (d.buf ++ l) (deliver d chunks')) (sym same) (deliver-Cut d chunks' h) in
    let (frames, left, ending) = Decodes-unique one.decodes one.ended two.decodes two.ended in
    record {
      error = ending;
      frames = two.frames;
      lost = one.lost;
      lost' = two.lost;
      first = one.kept ∙ frames;
      second = two.kept;
      whole = elim (Option-cases (deliver d chunks).error) [
        | inr broken ↦ inl broken
        | inl fine ↦
            let (read, none_lost) = one.whole fine in
            let (read', none_lost') = two.whole (sym ending ∙ fine) in
            inr (
              none_lost,
              none_lost',
              all_buf (deliver d chunks).decoder one.unread read
                  ∙ ap decoder_of left
                  ∙ sym (all_buf (deliver d chunks').decoder two.unread read'),
            )
      ];
    }
