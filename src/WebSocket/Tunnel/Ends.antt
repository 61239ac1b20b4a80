-- ===== src/WebSocket/Tunnel/Ends.antt =====
-- What the loop of crates/rsproxy-engine/src/proxy/websocket/nonblocking.rs forwards, and how it
-- ends.
use rsproxy.Base.{
  ℕ, ◌≡◌, refl, if◌then◌else◌, subst, Bool, true, false, ◌⊎◌, inl, inr, Bool-cases, List, [], ◌∷◌,
  ◌++◌, append-nil, append_assoc, arith,
}
use rsproxy.Trace.Model.{Buf, FrameRecord, client_to_server, server_to_client}
use rsproxy.Trace.Event.{is_empty}
use rsproxy.WebSocket.Frame.{parse_ws_frame_prefix, IoResult, ErrorKind, ok, err}
use rsproxy.WebSocket.Tunnel.{
  Side, read_side, write_side, new_side, new_tunnel, Tunnel, Answers, close_side, is_over, round,
  run_rounds,
}
use rsproxy.WebSocket.Decoder.Decodes.{incomplete}
use rsproxy.WebSocket.Tunnel.Forwarded.{
  Ok, and_then-Ok, IsForwarded, gets, read_side-IsForwarded, write_side-IsForwarded,
  close_side-IsForwarded,
}

-- Nothing waits, and both directions are closed or both have shown their close frame.
pub record IsDone (t : Tunnel) : Type 0 where
  pub c2s_sent : is_empty t.c2s.pending ≡ true
  pub s2c_sent : is_empty t.s2c.pending ≡ true
  pub ended :
      ((t.c2s.closed ≡ true) × (t.s2c.closed ≡ true))
      ⊎ ((t.c2s.close_seen ≡ true) × (t.s2c.close_seen ≡ true))

is_over-IsDone : (t : Tunnel) → (is_over t ≡ false) ⊎ IsDone t
is_over-IsDone t = elim (Bool-cases (is_over t)) [
  | inr goes ↦ inl goes
  | inl over ↦
      inr (record { c2s_sent = ground arith; s2c_sent = ground arith; ended = ground arith })
]

-- Both directions, and what the last test found.
abbrev Both : List ℕ → List ℕ → Tunnel × Bool → Type 0
Both client upstream (t, over) =
    IsForwarded client t.c2s × IsForwarded upstream t.s2c × ((over ≡ false) ⊎ IsDone t)

round-Both :
    (trace_limit : ℕ) (a : Answers) (t : Tunnel) (client upstream : List ℕ)
    → IsForwarded client t.c2s
    → IsForwarded upstream t.s2c
    → Ok
        (Both (client ++ gets t.c2s a.client_reads) (upstream ++ gets t.s2c a.upstream_reads))
        (round trace_limit a t)
unfolding round
round-Both limit a t client upstream c s =
    let all = client ++ gets t.c2s a.client_reads in
    let all' = upstream ++ gets t.s2c a.upstream_reads in
    and_then-Ok (λ (r : Side × Buf FrameRecord × Bool). IsForwarded all r.0) (Both all all')
      (read_side client_to_server limit a.at_ms a.client_reads (t.c2s, t.frames)) _
      (read_side-IsForwarded client_to_server limit a.at_ms a.client_reads t.c2s t.frames client c)
      (λ read f.
        and_then-Ok (λ (r : Side × Buf FrameRecord × Bool). IsForwarded all' r.0) (Both all all')
          (read_side server_to_client limit a.at_ms a.upstream_reads (t.s2c, read.1)) _
          (read_side-IsForwarded server_to_client limit a.at_ms a.upstream_reads t.s2c read.1
            upstream s)
          (λ read' f'.
            and_then-Ok (IsForwarded all) (Both all all')
              (write_side a.upstream_writes a.upstream_flush read.0) _
              (write_side-IsForwarded a.upstream_writes a.upstream_flush read.0 all f)
              (λ c2s g.
                and_then-Ok (IsForwarded all') (Both all all')
                  (write_side a.client_writes a.client_flush read'.0) _
                  (write_side-IsForwarded a.client_writes a.client_flush read'.0 all' f')
                  (λ s2c g'. (
                    close_side-IsForwarded c2s all g,
                    close_side-IsForwarded s2c all' g',
                    is_over-IsDone
                        (record { c2s = close_side c2s; s2c = close_side s2c; frames = read'.1 }),
                  )))))

-- What a direction reads in the rounds of a run, by what it reads in one.
abbrev pub input : (Tunnel → Answers → List ℕ) → ℕ → List Answers → Tunnel → List ℕ
input get trace_limit [] t = []
input get trace_limit (a ∷ answers) t = get t a ++ (elim (round trace_limit a t) [
  | err e ↦ []
  | ok (t', over) ↦ let more = input get trace_limit answers t' in if over then [] else more
])

abbrev pub from_client : Tunnel → Answers → List ℕ
from_client t a = gets t.c2s a.client_reads

abbrev pub from_upstream : Tunnel → Answers → List ℕ
from_upstream t a = gets t.s2c a.upstream_reads

round-cases :
    (r : IoResult (Tunnel × Bool))
    → ((t : Tunnel) × (over : Bool) × (r ≡ ok (t, over))) ⊎ ((e : ErrorKind) × (r ≡ err e))
round-cases (ok (t, over)) = inl (t, over, refl)
round-cases (err e) = inr (e, refl)

run_rounds-Both :
    (trace_limit : ℕ) (answers : List Answers) (t : Tunnel) (client upstream : List ℕ)
    → IsForwarded client t.c2s
    → IsForwarded upstream t.s2c
    → Ok
        (Both
          (client ++ input from_client trace_limit answers t)
          (upstream ++ input from_upstream trace_limit answers t))
        (run_rounds trace_limit answers t)
unfolding run_rounds
run_rounds-Both limit [] t client upstream c s =
    rw (append-nil client, append-nil upstream) (c, s, inl refl)
run_rounds-Both limit (a ∷ answers) t client upstream c s =
    let one = round-Both limit a t client upstream c s in
    elim (round-cases (round limit a t)) [
      | inr (e, broken) ↦ rw (broken, run_rounds) tt
      | inl (t', over, fine) ↦
          let (c', s', done) =
            subst
              (Ok (
                Both (client ++ gets t.c2s a.client_reads)
                  (upstream ++ gets t.s2c a.upstream_reads)))
              fine one in
          elim (Bool-cases over) [
            | inl last ↦
                rw
                  (
                    fine,
                    last,
                    run_rounds,
                    append-nil (gets t.c2s a.client_reads),
                    append-nil (gets t.s2c a.upstream_reads),
                  )
                  (c', s', subst (λ b. (b ≡ false) ⊎ IsDone t') last done)
            | inr goes ↦
                rw (fine, goes, run_rounds)
                  (rw
                    (
                      ← append_assoc client (gets t.c2s a.client_reads)
                          (input from_client limit answers t'),
                      ← append_assoc upstream (gets t.s2c a.upstream_reads)
                          (input from_upstream limit answers t'),
                    )
                    (run_rounds-Both limit answers t' (client ++ gets t.c2s a.client_reads)
                      (upstream ++ gets t.s2c a.upstream_reads) c' s'))
          ]
    ]

new_side-IsForwarded : IsForwarded [] new_side
unfolding parse_ws_frame_prefix
new_side-IsForwarded = record { rest = []; order = refl; known = inl (refl, incomplete refl) }

-- After any number of rounds that do not fail, each socket was sent, unchanged and in order, a
-- prefix of what the loop has read from the other one. What follows it is what still waits, and then
-- what the decoder holds, which is no whole frame, or, once the direction is closed, bytes that may
-- be lost. If the loop has ended, nothing waits, and both directions are closed or both have shown
-- their close frame.
pub run_rounds-IsForwarded :
    (trace_limit : ℕ) (answers : List Answers) (t : Tunnel) (over : Bool)
    → run_rounds trace_limit answers new_tunnel ≡ ok (t, over)
    → IsForwarded (input from_client trace_limit answers new_tunnel) t.c2s
      × IsForwarded (input from_upstream trace_limit answers new_tunnel) t.s2c
      × ((over ≡ false) ⊎ IsDone t)
run_rounds-IsForwarded limit answers t over h =
    subst
      (Ok (
        Both (input from_client limit answers new_tunnel)
          (input from_upstream limit answers new_tunnel)))
      h (run_rounds-Both limit answers new_tunnel [] [] new_side-IsForwarded new_side-IsForwarded)
