-- ===== src/Daemon/Server.antt =====
-- `handle_envelope` (crates/daemon/src/server.rs): the frames of one connection.
use dsh_desktop_shell.Daemon.Invocation.{handle_invocation}
use dsh_desktop_shell.Envelope.Frames.{fits, validate_envelope}
use dsh_desktop_shell.Daemon.Hello.{handle_hello}
use dsh_desktop_shell.Daemon.Terms.{Fresh}
use dsh_desktop_shell.Envelope.Types.{id_max_len, id_min_len, ErrorCode, Envelope, EnvelopeKind}
use dsh_desktop_shell.Daemon.Replies.{refuse, with_replies, Outcome, DaemonServer}
use dsh_desktop_shell.Daemon.Types.{invalid_envelope, replayed_id, SessionState, DaemonApi}
use dsh_desktop_shell.Prelude.{
  text_discrete, does, any, ℕ, Bool, String, if◌then◌else◌, err, ok, false, ◌∷◌, [],
}

abbrev pub has_seen : SessionState → String → Bool
has_seen s id = any (λ seen. does (text_discrete seen id)) s.seen_ids

module _ {Json Output Other : Type 0} (api : DaemonApi Json Output Other) where
  abbrev pub handle_kind :
      EnvelopeKind
      → DaemonServer Json Output Other
      → SessionState
      → Envelope Json
      → ℕ
      → Fresh
      → Outcome Json Output Other
  handle_kind EnvelopeKind.hello d s env connection fresh = handle_hello api d s env fresh
  handle_kind EnvelopeKind.invocation d s env connection fresh =
      handle_invocation api d s env connection fresh
  handle_kind _ d s env connection fresh = (d, s, [])

  -- The frame, whose id is new, after its insertion into `seen_ids`.
  unfoldable pub handle_new :
      DaemonServer Json Output Other
      → SessionState
      → Envelope Json
      → ℕ
      → Fresh
      → Outcome Json Output Other
  handle_new d s env connection fresh = elim (validate_envelope api.json env) [
    | err issues ↦
        if fits id_min_len id_max_len env.id
        then with_replies d (
            refuse s fresh env env.capability env.method ErrorCode.malformed_message
              (api.wording invalid_envelope) false)
        else (d, s, [])
    | ok u ↦ handle_kind env.kind d s env connection fresh
  ]

  unfoldable pub handle_envelope :
      DaemonServer Json Output Other
      → SessionState
      → Envelope Json
      → ℕ
      → Fresh
      → Outcome Json Output Other
  handle_envelope d s env connection fresh =
      if has_seen s env.id
      then with_replies d (
          refuse s fresh env env.capability env.method ErrorCode.malformed_message
            (api.wording replayed_id) false)
      else handle_new d (record s { seen_ids = env.id ∷ s.seen_ids }) env connection fresh
