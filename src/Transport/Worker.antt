-- ===== src/Transport/Worker.antt =====
-- The message loop of a connection (crates/local-transport/src/server.rs, `worker_loop`).
use dsh_desktop_shell.Transport.Framing.{
  other_kind, io, frame, read_frame, timed_out, would_block, Arrival, IoErrorKind,
}
use dsh_desktop_shell.Prelude.{
  ◌++◌, not, Option, Result, ℕ, List, Bool, if◌then◌else◌, err, ok, false, true, some, none, ◌∷◌,
  [],
}

pub data EndReason : Type 0 where
  peer_closed protocol timeout io_error : EndReason

-- `is_timeout_kind` of error.rs.
abbrev pub is_timeout_kind : IoErrorKind → Bool
is_timeout_kind would_block = true
is_timeout_kind timed_out = true
is_timeout_kind other_kind = false

-- What one round meets: whether the read timeout can be set, whether the receive queue takes a frame,
-- whether the read deadline is over, and what the queued writes give.
pub record Round : Type 0 where
  pub tick_set : Bool
  pub enqueued : Bool
  pub overdue : Bool
  pub writes : List (Result IoErrorKind (Unit {0}))

-- The write queue is drained up to the first failure.
abbrev pub drain_writes : List (Result IoErrorKind (Unit {0})) → Option EndReason
drain_writes [] = none
drain_writes (ok u ∷ ws) = drain_writes ws
drain_writes (err k ∷ ws) = some (if is_timeout_kind k then timeout else io_error)

-- The frames handed over so far, and the end of the loop if it has ended; no more rounds stand for
-- a loop that goes on.
unfoldable pub worker_loop :
    ℕ → List Round → List Arrival → List (List ℕ) → List (List ℕ) × Option EndReason
worker_loop max [] es out = (out, none)
worker_loop max (r ∷ rs) es out =
    if not r.tick_set then (out, some io_error) else elim (read_frame max es).0 [
      | ok none ↦ (out, some peer_closed)
      | ok (some payload) ↦
          if not r.enqueued then (out, some timeout) else elim (drain_writes r.writes) [
            | some end ↦ (out ++ (payload ∷ []), some end)
            | none ↦ worker_loop max rs (read_frame max es).1 (out ++ (payload ∷ []))
          ]
      | err (frame e) ↦ (out, some protocol)
      | err (io k) ↦
          if not (is_timeout_kind k)
          then (out, some io_error)
          else if r.overdue
          then (out, some timeout)
          else elim (drain_writes r.writes) [
            | some end ↦ (out, some end)
            | none ↦ worker_loop max rs (read_frame max es).1 out
          ]
    ]
