-- ===== src/Daemon/Replies.antt =====
-- The server, and its error replies (crates/daemon/src/server.rs).
use dsh_desktop_shell.Browser.Session.{take_chars}
use dsh_desktop_shell.Daemon.Authority.{server_facet, server_component}
use dsh_desktop_shell.Negotiation.Messages.{ProtocolCoordinate, Participant}
use dsh_desktop_shell.Envelope.Types.{
  error_message_max_len, EnvelopeKind, protocol_id, ErrorCode, Envelope,
}
use dsh_desktop_shell.Daemon.Terms.{Fresh}
use dsh_desktop_shell.Daemon.Types.{PeerIdentityPolicy, Resources, SessionState}
use dsh_desktop_shell.Broker.State.{Broker}
use dsh_desktop_shell.Prelude.{u64_suc, Bool, String, List, Option, some, none, ◌∷◌, []}

pub record DaemonServer (Json Output Other : Type 0) : Type 0 where
  pub broker : Broker Json
  pub resources : Resources Output Other
  pub policy : PeerIdentityPolicy
  pub folds_case : Bool

abbrev pub server_participant : Option String → Participant
server_participant activation_id = record {
  component = server_component;
  facet = server_facet;
  activation_id = activation_id;
}

module _ {Json : Type 0} where
  unfoldable pub error_result :
      SessionState
      → Fresh
      → String
      → String
      → Option ProtocolCoordinate
      → Option String
      → ErrorCode
      → String
      → Bool
      → SessionState × Envelope Json
  error_result s fresh correlation_id reply_to capability method code message retryable = (
    record s { next_generation = u64_suc s.next_generation },
    record {
      protocol = protocol_id;
      id = fresh.message_id;
      kind = EnvelopeKind.result;
      reply_to = some reply_to;
      participant = server_participant none;
      timestamp = fresh.timestamp;
      generation = s.next_generation;
      capability = capability;
      method = method;
      payload = none;
      error = some (record {
        code = code;
        message = take_chars error_message_max_len message;
        retryable = retryable;
        correlation_id = correlation_id;
      });
    },
  )

  -- An error Result for the frame that is being handled.
  abbrev pub refuse :
      SessionState
      → Fresh
      → Envelope Json
      → Option ProtocolCoordinate
      → Option String
      → ErrorCode
      → String
      → Bool
      → SessionState × List (Envelope Json)
  refuse s fresh env capability method code message retryable =
      let (s', reply) =
        error_result s fresh env.id env.id capability method code message retryable in
      (s', reply ∷ [])

abbrev pub Outcome : Type 0 → Type 0 → Type 0 → Type 0
Outcome Json Output Other = DaemonServer Json Output Other × SessionState × List (Envelope Json)

module _ {Json Output Other : Type 0} where
  abbrev pub with_replies :
      DaemonServer Json Output Other
      → SessionState × List (Envelope Json)
      → Outcome Json Output Other
  with_replies d (s, replies) = (d, s, replies)
