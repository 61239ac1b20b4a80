-- ===== src/WebSocket/Decoder/Decodes.antt =====
-- The loop of `WsFrameDecoder::push` in crates/rsproxy-engine/src/proxy/websocket.rs against a
-- relation between a buffer, its frames and what is left.
use rsproxy.Base.{
  ℕ, zero, suc, ◌≤◌, ◌<◌, ◌≡◌, refl, sym, ap, ap₂, ◌∙◌, subst, ◌≢◌, ◌⊎◌, inl, inr, Option, none,
  some, List, [], ◌∷◌, ◌++◌, append_assoc, length, length-drop, drop, take-append-drop,
  drop_append-le, arith, All,
}
use rsproxy.WebSocket.Frame.{
  IoResult, ErrorKind, ok, err, WsFrame, max_frame, parse_ws_frame_prefix,
}
use rsproxy.WebSocket.Prefix.{parse_ws_frame_prefix-append, parse_ws_frame_prefix-err}
use rsproxy.WebSocket.Parsed.{parse_ws_frame_prefix-IsFrame}
use rsproxy.WebSocket.Decoder.{and_frame, push_loop}

-- How the loop ends: out of complete frames, or at an error.
pub data End (buf : List ℕ) : Option ErrorKind → Type 0 where
  incomplete : parse_ws_frame_prefix buf ≡ ok none → End buf none
  failed : {e : ErrorKind} → parse_ws_frame_prefix buf ≡ err e → End buf (some e)

-- The frames at the beginning of a buffer, and what is left.
pub data Decodes : List ℕ → List WsFrame → List ℕ → Type 0 where
  none_left : {buf : List ℕ} → Decodes buf [] buf
  one_more :
      {buf left : List ℕ} {fs : List WsFrame} (f : WsFrame) (used : ℕ)
      → parse_ws_frame_prefix buf ≡ ok (some (f, used))
      → Decodes (drop used buf) fs left
      → Decodes buf (f ∷ fs) left

-- The loop's answer, for how it ended.
abbrev pub answer : Option ErrorKind → List WsFrame → IoResult (List WsFrame)
answer none fs = ok fs
answer (some e) fs = err e

-- A run of the loop over a buffer.
pub record Run (buf : List ℕ) (result : List ℕ × IoResult (List WsFrame)) : Type 0 where
  pub frames : List WsFrame
  pub ending : Option ErrorKind
  pub decodes : Decodes buf frames result.0
  pub ended : End result.0 ending
  pub answered : result.1 ≡ answer ending frames

pub Decodes-append :
    {a left : List ℕ} {fs : List WsFrame} (b : List ℕ)
    → Decodes a fs left
    → Decodes (a ++ b) fs (left ++ b)
Decodes-append b none_left = none_left
Decodes-append {a} {left} b (one_more {fs} f used e d) =
    one_more f used (parse_ws_frame_prefix-append a b f used e) (
      subst (λ l. Decodes l fs (left ++ b))
        (sym (drop_append-le used a b (parse_ws_frame_prefix-IsFrame a f used e).fits))
        (Decodes-append b d))

pub Decodes-trans :
    {a b c : List ℕ} {fs gs : List WsFrame}
    → Decodes a fs b
    → Decodes b gs c
    → Decodes a (fs ++ gs) c
Decodes-trans none_left d' = d'
Decodes-trans (one_more f used e d) d' = one_more f used e (Decodes-trans d d')

abbrev frame_in : WsFrame × ℕ → IoResult (Option (WsFrame × ℕ)) → WsFrame × ℕ
frame_in d (ok (some p)) = p
frame_in d _ = d

-- How the loop goes on from a buffer.
IoResult-cases :
    (r : IoResult (Option (WsFrame × ℕ)))
    → (r ≡ ok none)
      ⊎ ((f : WsFrame) × (used : ℕ) × (r ≡ ok (some (f, used))))
      ⊎ ((e : ErrorKind) × (r ≡ err e))
IoResult-cases (ok none) = inl refl
IoResult-cases (ok (some (f, used))) = inr (inl (f, used, refl))
IoResult-cases (err e) = inr (inr (e, refl))

pub and_frame-answer :
    (f : WsFrame) (e : Option ErrorKind) (fs : List WsFrame)
    → and_frame f (answer e fs) ≡ answer e (f ∷ fs)
and_frame-answer f none fs = refl
and_frame-answer f (some e) fs = refl

-- Enough fuel is one round more than the buffer has bytes.
pub push_loop-Run : (fuel : ℕ) (buf : List ℕ) → length buf < fuel → Run buf (push_loop fuel buf)
unfolding push_loop
push_loop-Run zero buf h = absurd (omega (arith, h))
push_loop-Run (suc fuel) buf h = elim (IoResult-cases (parse_ws_frame_prefix buf)) [
  | inl stop ↦
      rw (stop, push_loop)
        (record {
          frames = [];
          ending = none;
          decodes = none_left;
          ended = incomplete stop;
          answered = refl;
        })
  | inr (inr (e, broken)) ↦
      rw (broken, push_loop)
        (record {
          frames = [];
          ending = some e;
          decodes = none_left;
          ended = failed broken;
          answered = refl;
        })
  | inr (inl (f, used, found)) ↦
      let frame = parse_ws_frame_prefix-IsFrame buf f used found in
      let shorter : length (drop used buf) < fuel =
        omega (arith, h, frame.header, frame.fits, length-drop used buf) in
      let more = push_loop-Run fuel (drop used buf) shorter in
      rw (found, push_loop)
        (record {
          frames = f ∷ more.frames;
          ending = more.ending;
          decodes = one_more f used found more.decodes;
          ended = more.ended;
          answered = ap (and_frame f) more.answered ∙ and_frame-answer f more.ending more.frames;
        })
]

pub End-append :
    {buf : List ℕ} {e : ErrorKind} (more : List ℕ) → End buf (some e) → End (buf ++ more) (some e)
End-append {buf} {e} more (failed h) = failed (parse_ws_frame_prefix-err buf more e h)

End-stops :
    {buf : List ℕ} {e : Option ErrorKind} (f : WsFrame) (used : ℕ)
    → End buf e
    → parse_ws_frame_prefix buf ≢ ok (some (f, used))
End-stops f used (incomplete h) h' = ground (arith, sym h ∙ h')
End-stops f used (failed h) h' = ground (arith, sym h ∙ h')

pub End-unique : {buf : List ℕ} {e e' : Option ErrorKind} → End buf e → End buf e' → e ≡ e'
End-unique (incomplete h) (incomplete h') = refl
End-unique (incomplete h) (failed h') = absurd (ground (arith, sym h ∙ h'))
End-unique (failed h) (incomplete h') = absurd (ground (arith, sym h ∙ h'))
End-unique (failed h) (failed h') = ground (arith, sym h ∙ h')

-- The frames of a buffer are determined.
pub Decodes-unique :
    {a b c : List ℕ} {fs gs : List WsFrame} {e e' : Option ErrorKind}
    → Decodes a fs b
    → End b e
    → Decodes a gs c
    → End c e'
    → (fs ≡ gs) × (b ≡ c) × (e ≡ e')
Decodes-unique none_left h none_left h' = (refl, refl, End-unique h h')
Decodes-unique none_left h (one_more f used e d) h' = absurd (End-stops f used h e)
Decodes-unique (one_more f used e d) h none_left h' = absurd (End-stops f used h' e)
Decodes-unique {a} {c = c} (one_more f used p d) h (one_more {fs = gs} g used' p' d') h' =
    let same = ap (frame_in (f, used)) (sym p ∙ p') in
    let (rest, left, ending) =
      Decodes-unique d h (subst (λ n. Decodes (drop n a) gs c) (sym (ap (λ q. q.1) same)) d') h' in
    (ap₂ (λ (h : WsFrame) t. h ∷ t) (ap (λ q. q.0) same) rest, left, ending)

abbrev pub raws : List WsFrame → List ℕ
raws [] = []
raws (f ∷ fs) = f.raw ++ raws fs

pub Decodes-raws :
    {buf left : List ℕ} {fs : List WsFrame} → Decodes buf fs left → raws fs ++ left ≡ buf
Decodes-raws none_left = refl
Decodes-raws {buf} {left} (one_more {fs} f used e d) =
    append_assoc f.raw (raws fs) left
    ∙ (ap₂ (λ a b. a ++ b) (parse_ws_frame_prefix-IsFrame buf f used e).raw (Decodes-raws d)
        ∙ take-append-drop used buf)

pub Decodes-small :
    {buf left : List ℕ} {fs : List WsFrame}
    → Decodes buf fs left
    → All (λ (f : WsFrame). length f.payload ≤ max_frame) fs
Decodes-small none_left = tt
Decodes-small {buf} (one_more f used e d) =
    ((parse_ws_frame_prefix-IsFrame buf f used e).small, Decodes-small d)
