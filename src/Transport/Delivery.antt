-- ===== src/Transport/Delivery.antt =====
-- What the message loop hands over (crates/local-transport/src/server.rs, `worker_loop`).
use mathlib.Core.List.{append_assoc, append-nil}
use dsh_desktop_shell.Transport.RoundTrip.{read_frame_end, read_frame-encode_frame, bytes, IsClean}
use dsh_desktop_shell.Transport.Pauses.{read_frame-append, read_frame_idle}
use dsh_desktop_shell.Transport.Framing.{
  FrameReadError, read_frame, failed, Arrival, encode_frame, IoErrorKind,
}
use dsh_desktop_shell.Transport.Worker.{
  peer_closed, is_timeout_kind, drain_writes, Round, worker_loop,
}
use dsh_desktop_shell.Prelude.{
  ◌-◌, zero, ◌+◌, drop, All, Option, Result, ◌∙◌, sym, ap, ◌<◌, ◌≤◌, ◌++◌, length, ℕ, List, suc,
  ◌≡◌, arith, false, true, some, none, ◌∷◌, [],
}

-- The bytes that a peer writes for these payloads.
abbrev pub encode_all : List (List ℕ) → List ℕ
encode_all [] = []
encode_all (p ∷ ps) = encode_frame p ++ encode_all ps

-- Rounds in which nothing but the stream decides: the timeout can be set, the queue has room, the
-- read deadline is not over, no pending write fails.
abbrev pub AreQuiet : List Round → Type 0
AreQuiet [] = Unit {0}
AreQuiet (r ∷ rs) =
    (r.tick_set ≡ true)
    × (r.enqueued ≡ true)
    × (drain_writes r.writes ≡ none)
    × (r.overdue ≡ false)
    × AreQuiet rs

abbrev pub FitAll : ℕ → List (List ℕ) → Type 0
FitAll max [] = Unit {0}
FitAll max (p ∷ ps) = (length p ≤ max) × (length p < 4294967296) × FitAll max ps

-- The frames up to the close, with no tick.
closing_delivered :
    (max : ℕ) (ps : List (List ℕ)) (rs : List Round) (es : List Arrival) (out : List (List ℕ))
    → length rs ≡ suc (length ps)
    → AreQuiet rs
    → FitAll max ps
    → IsClean es
    → bytes es ≡ encode_all ps
    → worker_loop max rs es out ≡ (out ++ ps, some peer_closed)
unfolding worker_loop
closing_delivered max ps [] es out n q f c e = absurd (omega arith)
closing_delivered max [] (r ∷ rs) es out n q f c e =
    rw (q.0, read_frame_end max es c e)
      (ap (λ (t : List (List ℕ)). (t, some peer_closed)) (sym (append-nil out)))
closing_delivered max (p ∷ ps) (r ∷ rs) es out n q f c e =
    let got = read_frame-encode_frame max p (encode_all ps) es c e f.0 f.1 in
    rw (q.0, got.0, q.1, q.2)
      (closing_delivered max ps rs (read_frame max es).1 (out ++ (p ∷ [])) (omega (arith, n)) q.4
          f.2 got.2 got.1
        ∙ ap (λ (t : List (List ℕ)). (t, some peer_closed)) (append_assoc out (p ∷ []) ps))

-- What comes up to an idle tick: the payloads of whole frames, how their bytes arrive, and the
-- timeout after them.
pub record Burst : Type 0 where
  pub payloads : List (List ℕ)
  pub arrivals : List Arrival
  pub tick : IoErrorKind

abbrev pub IsBurst : ℕ → Burst → Type 0
IsBurst max b =
    FitAll max b.payloads
    × IsClean b.arrivals
    × (bytes b.arrivals ≡ encode_all b.payloads)
    × (is_timeout_kind b.tick ≡ true)

-- The bursts in their order, and then the last frames with no tick after them.
abbrev pub stream : List Burst → List Arrival → List Arrival
stream [] es = es
stream (b ∷ bs) es = b.arrivals ++ (failed b.tick ∷ stream bs es)

abbrev pub written : List Burst → List (List ℕ) → List (List ℕ)
written [] ps = ps
written (b ∷ bs) ps = b.payloads ++ written bs ps

-- A round for each frame, each tick and the close.
abbrev pub rounds : List Burst → List (List ℕ) → ℕ
rounds [] ps = suc (length ps)
rounds (b ∷ bs) ps = suc (length b.payloads) + rounds bs ps

AreQuiet-drop : (n : ℕ) (rs : List Round) → AreQuiet rs → AreQuiet (drop n rs)
AreQuiet-drop zero rs q = q
AreQuiet-drop (suc n) [] q = q
AreQuiet-drop (suc n) (r ∷ rs) q = AreQuiet-drop n rs q.4

length-drop : (n : ℕ) (rs : List Round) → length (drop n rs) ≡ length rs - n
length-drop zero rs = omega arith
length-drop (suc n) [] = omega arith
length-drop (suc n) (r ∷ rs) = omega (arith, length-drop n rs)

-- The frames before a tick are handed over, and the loop goes on behind it.
burst_delivered :
    (max : ℕ) (ps : List (List ℕ)) (rs : List Round) (es next : List Arrival) (k : IoErrorKind)
    (out : List (List ℕ))
    → suc (length ps) ≤ length rs
    → AreQuiet rs
    → FitAll max ps
    → IsClean es
    → bytes es ≡ encode_all ps
    → is_timeout_kind k ≡ true
    → worker_loop max rs (es ++ (failed k ∷ next)) out
      ≡ worker_loop max (drop (suc (length ps)) rs) next (out ++ ps)
unfolding worker_loop
burst_delivered max ps [] es next k out n q f c e t = absurd (omega (arith, n))
burst_delivered max [] (r ∷ rs) es next k out n q f c e t =
    let idle = read_frame_idle max es next k c e in
    rw (q.0, idle, t, q.3, q.2)
      (ap
          (λ (o : Result FrameReadError (Option (List ℕ)) × List Arrival).
            worker_loop max rs (o.1) out)
          idle
        ∙ ap (λ (l : List (List ℕ)). worker_loop max rs next l) (sym (append-nil out)))
burst_delivered max (p ∷ ps) (r ∷ rs) es next k out n q f c e t =
    let got = read_frame-encode_frame max p (encode_all ps) es c e f.0 f.1 in
    let there = read_frame-append max p (encode_all ps) es (failed k ∷ next) c e f.0 f.1 in
    rw (q.0, there, q.1, q.2)
      (ap
          (λ (o : Result FrameReadError (Option (List ℕ)) × List Arrival).
            worker_loop max rs (o.1) (out ++ (p ∷ [])))
          there
        ∙ burst_delivered max ps rs (read_frame max es).1 next k (out ++ (p ∷ []))
            (omega (arith, n)) q.4 f.2 got.2 got.1 t
        ∙ ap (λ (l : List (List ℕ)). worker_loop max (drop (suc (length ps)) rs) next l)
            (append_assoc out (p ∷ []) ps))

-- A peer that writes payloads as frames, with pauses between frames, and closes: the loop hands over
-- exactly these payloads in their order and ends with the peer's close, however the bytes are split
-- into chunks, if reads time out only in the pauses and before the read deadline, each payload is
-- within the limits, every timeout can be set, the queue has room and no pending write fails.
pub worker_delivers :
    (max : ℕ) (bursts : List Burst) (ps : List (List ℕ)) (rs : List Round) (es : List Arrival)
    (out : List (List ℕ))
    → length rs ≡ rounds bursts ps
    → AreQuiet rs
    → All (IsBurst max) bursts
    → FitAll max ps
    → IsClean es
    → bytes es ≡ encode_all ps
    → worker_loop max rs (stream bursts es) out ≡ (out ++ written bursts ps, some peer_closed)
worker_delivers max [] ps rs es out n q b f c e = closing_delivered max ps rs es out n q f c e
worker_delivers max (b ∷ bursts) ps rs es out n q h f c e =
    let (fit, clean, same, tick) = h.0 in
    burst_delivered max b.payloads rs b.arrivals (stream bursts es) b.tick out (omega (arith, n)) q
      fit clean same tick
    ∙ worker_delivers max bursts ps (drop (suc (length b.payloads)) rs) es (out ++ b.payloads)
        (omega (arith, n, length-drop (suc (length b.payloads)) rs))
        (AreQuiet-drop (suc (length b.payloads)) rs q) h.1 f c e
    ∙ ap (λ (t : List (List ℕ)). (t, some peer_closed))
        (append_assoc out b.payloads (written bursts ps))
