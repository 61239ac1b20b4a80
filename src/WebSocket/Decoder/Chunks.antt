-- ===== src/WebSocket/Decoder/Chunks.antt =====
-- What the decoder of crates/rsproxy-engine/src/proxy/websocket.rs yields for a chunk, and for the
-- chunks of a byte sequence.
use rsproxy.Base.{
  ℕ, suc, ◌≤◌, ◌≡◌, refl, sym, ap, ap₂, ◌∙◌, subst, Option-cases, inl, inr, Option, none, some,
  List, [], ◌∷◌, ◌++◌, append_assoc, append-nil, length, arith, All,
}
use rsproxy.WebSocket.Frame.{IoResult, ErrorKind, ok, err, WsFrame, max_frame}
use rsproxy.WebSocket.Decoder.{WsFrameDecoder, push, join, push_all}
use rsproxy.WebSocket.Decoder.Decodes.{
  End, Decodes, none_left, Run, answer, push_loop-Run, Decodes-append, Decodes-trans, End-append,
  raws, Decodes-raws, Decodes-small,
}

abbrev pub concat : List (List ℕ) → List ℕ
concat [] = []
concat (chunk ∷ chunks) = chunk ++ concat chunks

-- A decoder between two chunks: what it holds is not a whole frame.
abbrev pub IsIdle : WsFrameDecoder → Type 0
IsIdle d = End d.buf none

-- A run over several chunks. After an error the rest of the bytes is unread.
pub record Runs (buf : List ℕ) (result : WsFrameDecoder × IoResult (List WsFrame)) : Type 0 where
  pub frames : List WsFrame
  pub ending : Option ErrorKind
  pub unread : List ℕ
  pub decodes : Decodes buf frames (result.0.buf ++ unread)
  pub ended : End (result.0.buf ++ unread) ending
  pub all_read : ending ≡ none → unread ≡ []
  pub answered : result.1 ≡ answer ending frames

pub push-Run :
    (d : WsFrameDecoder) (chunk : List ℕ)
    → Run (d.buf ++ chunk) ((push d chunk).0.buf, (push d chunk).1)
unfolding push
push-Run d chunk = push_loop-Run (suc (length (d.buf ++ chunk))) (d.buf ++ chunk) (omega arith)

join-answer :
    (d d' : WsFrameDecoder) (fs gs : List WsFrame) (e : Option ErrorKind)
    → join (d, ok fs) (d', answer e gs) ≡ (d', answer e (fs ++ gs))
join-answer d d' fs gs none = refl
join-answer d d' fs gs (some e) = refl

join-Runs :
    (buf rest : List ℕ) (d : WsFrameDecoder) (r : IoResult (List WsFrame))
    (second : WsFrameDecoder × IoResult (List WsFrame))
    → Run buf (d.buf, r)
    → (IsIdle d → Runs (d.buf ++ rest) second)
    → Runs (buf ++ rest) (join (d, r) second)
join-Runs buf rest d r second one more = elim (Option-cases one.ending) [
  | inl idle ↦
      let two = more (subst (End d.buf) idle one.ended) in
      let ok_r : r ≡ ok one.frames = one.answered ∙ ap (λ e. answer e one.frames) idle in
      let joined : join (d, r) second ≡ (second.0, answer two.ending (one.frames ++ two.frames)) =
        ap₂ (λ a b. join (d, a) (second.0, b)) ok_r two.answered
        ∙ join-answer d second.0 one.frames two.frames two.ending in
      subst (Runs (buf ++ rest)) (sym joined) (record {
        frames = one.frames ++ two.frames;
        ending = two.ending;
        unread = two.unread;
        decodes = Decodes-trans (Decodes-append rest one.decodes) two.decodes;
        ended = two.ended;
        all_read = two.all_read;
        answered = refl;
      })
  | inr (e, broken) ↦
      let joined : join (d, r) second ≡ (d, err e) =
        ap (λ a. join (d, a) second) (one.answered ∙ ap (λ e'. answer e' one.frames) broken) in
      subst (Runs (buf ++ rest)) (sym joined) (record {
        frames = one.frames;
        ending = some e;
        unread = rest;
        decodes = Decodes-append rest one.decodes;
        ended = End-append rest (subst (End d.buf) broken one.ended);
        all_read = λ h. absurd (ground (arith, h));
        answered = refl;
      })
]

pub push_all-Runs :
    (d : WsFrameDecoder) (chunks : List (List ℕ))
    → IsIdle d
    → Runs (d.buf ++ concat chunks) (push_all d chunks)
unfolding push_all
push_all-Runs d [] h = record {
  frames = [];
  ending = none;
  unread = [];
  decodes = subst (Decodes (d.buf ++ []) []) refl none_left;
  ended = subst (λ l. End l none) (sym (append-nil d.buf)) h;
  all_read = λ e. refl;
  answered = refl;
}
push_all-Runs d (chunk ∷ chunks) h =
    let (d', r) = push d chunk in
    subst (λ l. Runs l (push_all d (chunk ∷ chunks))) (append_assoc d.buf chunk (concat chunks))
      (join-Runs (d.buf ++ chunk) (concat chunks) d' r (push_all d' chunks) (push-Run d chunk)
        (push_all-Runs d' chunks))

answer-ok :
    (e : Option ErrorKind) (fs gs : List WsFrame) → answer e fs ≡ ok gs → (fs ≡ gs) × (e ≡ none)
answer-ok none fs gs h = (ground (arith, h), refl)
answer-ok (some e) fs gs h = absurd (ground (arith, h))

-- A push that yields frames takes in every byte and changes none: the raw bytes of the frames, and
-- then what the decoder keeps, are what it held and the chunk. It keeps no whole frame back, and no
-- frame has a payload of more than 16 MiB.
pub push_lem :
    (d : WsFrameDecoder) (chunk : List ℕ) (fs : List WsFrame)
    → (push d chunk).1 ≡ ok fs
    → (raws fs ++ (push d chunk).0.buf ≡ d.buf ++ chunk)
      × IsIdle (push d chunk).0
      × All (λ (f : WsFrame). length f.payload ≤ max_frame) fs
push_lem d chunk fs h =
    let run = push-Run d chunk in
    let (same, fine) = answer-ok run.ending run.frames fs (sym run.answered ∙ h) in
    let decodes : Decodes (d.buf ++ chunk) fs (push d chunk).0.buf =
      subst (λ gs. Decodes (d.buf ++ chunk) gs (push d chunk).0.buf) same run.decodes in
    (Decodes-raws decodes, subst (End (push d chunk).0.buf) fine run.ended, Decodes-small decodes)
