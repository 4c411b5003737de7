-- ===== src/Daemon/Connection.antt =====
-- `serve_connection` (crates/daemon/src/server.rs): the frames of a connection and its end.
use dsh_desktop_shell.Broker.Types.{disconnect}
use dsh_desktop_shell.Envelope.Frames.{fits}
use dsh_desktop_shell.Broker.Takeover.{revoke_agent_grants}
use dsh_desktop_shell.Daemon.Server.{handle_envelope}
use dsh_desktop_shell.EventRouter.State.{unsubscribe_all}
use dsh_desktop_shell.Daemon.BrowserHost.{release_connection_ownership}
use dsh_desktop_shell.Envelope.Types.{ErrorCode, id_max_len, id_min_len, Envelope}
use dsh_desktop_shell.Daemon.Types.{
  new_session, PeerIdentity, unparseable, Activation, SessionState, Resources, DaemonApi,
}
use dsh_desktop_shell.Daemon.Terms.{Fresh}
use dsh_desktop_shell.Daemon.Replies.{error_result, Outcome, DaemonServer}
use dsh_desktop_shell.Broker.State.{Broker}
use dsh_desktop_shell.Prelude.{String, List, ℕ, Option, if◌then◌else◌, false, some, none, ◌∷◌, []}

-- What arrives: an envelope, or bytes that are none, with the text of their `id` if there is one.
pub data Frame (Json : Type 0) : Type 0 where
  parsed : Envelope Json → Frame Json
  unreadable : Option String → Frame Json

-- The two exits of the loop: the peer is gone at a read, or at the sending of a reply.
pub data Ending : Type 0 where
  disconnected send_failed : Ending

-- A frame, what is new in its handling, and what the broker and the resources are by then, since
-- other connections are served at the same time.
pub record Turn (Json Output Other : Type 0) : Type 0 where
  pub frame : Frame Json
  pub fresh : Fresh
  pub meanwhile : Broker Json × Resources Output Other → Broker Json × Resources Output Other

module _ {Json : Type 0} where
  -- `for activation_id in state.activations.keys()`.
  unfoldable pub revoke_activations : Broker Json → ℕ → List (String × Activation) → Broker Json
  revoke_activations b now [] = b
  revoke_activations b now ((id, a) ∷ activations) =
      revoke_activations (revoke_agent_grants b now id disconnect).0 now activations

module _ {Output Other : Type 0} where
  abbrev pub drop_subscriptions : Resources Output Other → ℕ → Resources Output Other
  drop_subscriptions r connection = record r { events = unsubscribe_all r.events connection }

module _ {Json Output Other : Type 0} where
  -- The teardown. A failed sending returns before the ownership is released and the grants are
  -- revoked.
  unfoldable pub end_connection :
      Ending
      → DaemonServer Json Output Other
      → SessionState
      → ℕ
      → ℕ
      → DaemonServer Json Output Other
  end_connection send_failed d s connection now = record d {
    resources = drop_subscriptions d.resources connection;
  }
  end_connection disconnected d s connection now = record d {
    broker = revoke_activations d.broker now s.activations;
    resources = record (drop_subscriptions d.resources connection) {
      browser = release_connection_ownership d.resources.browser connection;
    };
  }

  abbrev pub at_turn :
      DaemonServer Json Output Other → Turn Json Output Other → DaemonServer Json Output Other
  at_turn d turn =
      let (b, r) = turn.meanwhile (d.broker, d.resources) in record d { broker = b; resources = r }

module _ {Json Output Other : Type 0} (api : DaemonApi Json Output Other) where
  unfoldable pub handle_frame :
      DaemonServer Json Output Other
      → SessionState
      → Frame Json
      → ℕ
      → Fresh
      → Outcome Json Output Other
  handle_frame d s (parsed env) connection fresh = handle_envelope api d s env connection fresh
  handle_frame d s (unreadable none) connection fresh = (d, s, [])
  handle_frame d s (unreadable (some id)) connection fresh =
      if fits id_min_len id_max_len id
      then (let (s', reply) =
            error_result s fresh id id none none ErrorCode.malformed_message
              (api.wording unparseable) false in
          (d, s', reply ∷ []))
      else (d, s, [])

  -- The server and the session after the frames.
  unfoldable pub converse :
      DaemonServer Json Output Other
      → SessionState
      → ℕ
      → List (Turn Json Output Other)
      → DaemonServer Json Output Other × SessionState
  converse d s connection [] = (d, s)
  converse d s connection (turn ∷ turns) =
      let (d', s', replies) = handle_frame (at_turn d turn) s turn.frame connection turn.fresh in
      converse d' s' connection turns

  -- The session that a connection has after some frames, and the server at its next turn.
  abbrev pub session_after :
      DaemonServer Json Output Other
      → Option PeerIdentity
      → ℕ
      → List (Turn Json Output Other)
      → SessionState
  session_after d identity connection turns = (converse d (new_session identity) connection turns).1

  abbrev pub server_after :
      DaemonServer Json Output Other
      → Option PeerIdentity
      → ℕ
      → List (Turn Json Output Other)
      → Turn Json Output Other
      → DaemonServer Json Output Other
  server_after d identity connection turns turn =
      at_turn (converse d (new_session identity) connection turns).0 turn
