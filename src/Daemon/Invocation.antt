-- ===== src/Daemon/Invocation.antt =====
-- `handle_invocation` (crates/daemon/src/server.rs).
use dsh_desktop_shell.Daemon.Authority.{is_authority}
use dsh_desktop_shell.Daemon.Catalog.{dispatch_capability}
use dsh_desktop_shell.Negotiation.Messages.{includes_coordinate, ProtocolCoordinate}
use dsh_desktop_shell.Envelope.Types.{ErrorCode, EnvelopeKind, protocol_id, Envelope}
use dsh_desktop_shell.Daemon.Terms.{
  broker_error_mapping, default_scope, coordinate_to_capability, Fresh,
}
use dsh_desktop_shell.Daemon.Replies.{
  server_participant, refuse, with_replies, Outcome, DaemonServer,
}
use dsh_desktop_shell.Broker.State.{enforce_dispatch, Query, Broker}
use dsh_desktop_shell.Daemon.Types.{
  CapabilityContext, refused, relaxed_shell_only, shell_control, method_failed, conflict,
  no_agreement, invalid_payload, capability_not_granted, method_unknown, method_not_found,
  no_activation, Reason, DaemonMethodError, SessionState, Activation, DaemonApi,
}
use dsh_desktop_shell.Prelude.{
  ◌==◌, text_discrete, not, lookup, u64_suc, Bool, List, Result, ℕ, String, Option, if◌then◌else◌,
  err, ok, false, some, none, ◌∷◌, [],
}

abbrev pub query_of : Activation → ProtocolCoordinate → ℕ → Query
query_of a capability now = record {
  capability = coordinate_to_capability capability;
  owner = a.agent_id;
  generation = a.generation;
  scope = default_scope;
  now = now;
}

module _ {Json : Type 0} where
  abbrev pub result_of :
      SessionState
      → Fresh
      → Envelope Json
      → ProtocolCoordinate
      → String
      → String
      → Json
      → Envelope Json
  result_of s fresh env capability method activation_id payload = record {
    protocol = protocol_id;
    id = fresh.message_id;
    kind = EnvelopeKind.result;
    reply_to = some env.id;
    participant = server_participant (some activation_id);
    timestamp = fresh.timestamp;
    generation = s.next_generation;
    capability = some capability;
    method = some method;
    payload = some payload;
    error = none;
  }

  -- The checks of an invocation of an activation; what is refused, with its code.
  unfoldable pub admit_invocation :
      Broker Json
      → Activation
      → ProtocolCoordinate
      → ℕ
      → Result (ErrorCode × Reason × Bool) (Unit {0})
  admit_invocation b a capability now =
      if not (includes_coordinate a.granted capability)
      then err (ErrorCode.unauthorized, capability_not_granted, false)
      else if a.generation == 0
      then if is_authority a.authority shell_control
        then ok tt
        else err (ErrorCode.unauthorized, relaxed_shell_only, false)
      else elim (enforce_dispatch b (query_of a capability now)) [
        | ok u ↦ ok tt
        | err e ↦ let (code, retryable) = broker_error_mapping e in err (code, refused e, retryable)
      ]

  abbrev pub payload_or : Json → Option Json → Json
  payload_or null none = null
  payload_or null (some value) = value

module _ {Json Output Other : Type 0} (api : DaemonApi Json Output Other) where
  -- The reply for what a handler answers.
  unfoldable pub reply_for :
      SessionState
      → Fresh
      → Envelope Json
      → ProtocolCoordinate
      → String
      → String
      → Result DaemonMethodError Json
      → SessionState × List (Envelope Json)
  reply_for s fresh env capability method activation_id (ok payload) = (
    record s { next_generation = u64_suc s.next_generation },
    result_of s fresh env capability method activation_id payload ∷ [],
  )
  reply_for s fresh env capability method activation_id (err (method_not_found c m)) =
      refuse s fresh env (some c) (some m) ErrorCode.unavailable (api.wording method_unknown) false
  reply_for s fresh env capability method activation_id (err (invalid_payload c m message)) =
      refuse s fresh env (some capability) (some method) ErrorCode.malformed_message message false
  reply_for s fresh env capability method activation_id (err (conflict c m message)) =
      refuse s fresh env (some capability) (some method) ErrorCode.conflict message false
  reply_for s fresh env capability method activation_id
        (err (method_failed code message retryable)) =
      refuse s fresh env (some capability) (some method) code message retryable

  abbrev pub context_of : DaemonServer Json Output Other → Fresh → ℕ → CapabilityContext Json
  context_of d fresh connection = record {
    snapshot =
        api.snapshot d.broker d.resources fresh.connections fresh.credentials_issued fresh.clock;
    broker = d.broker;
    connection_id = connection;
    clock = fresh.clock;
  }

  -- The handler of an admitted invocation, and its reply.
  abbrev pub execute :
      DaemonServer Json Output Other
      → SessionState
      → Envelope Json
      → ℕ
      → Fresh
      → ProtocolCoordinate
      → String
      → String
      → Outcome Json Output Other
  execute d s env connection fresh capability method activation_id =
      let (resources, answer) =
        dispatch_capability api capability method d.resources (context_of d fresh connection)
          (payload_or api.null env.payload) in
      with_replies (record d { resources = resources })
        (reply_for s fresh env capability method activation_id answer)

  -- The invocation of a capability and a method, which the validation found.
  unfoldable pub invoke :
      DaemonServer Json Output Other
      → SessionState
      → Envelope Json
      → ℕ
      → Fresh
      → ProtocolCoordinate
      → String
      → Outcome Json Output Other
  invoke d s env connection fresh capability method = elim env.participant.activation_id [
    | none ↦ with_replies d (
        refuse s fresh env (some capability) (some method) ErrorCode.unauthorized
          (api.wording no_activation) false)
    | some activation_id ↦ elim (lookup text_discrete activation_id s.activations) [
      | none ↦ with_replies d (
          refuse s fresh env (some capability) (some method) ErrorCode.unauthorized
            (api.wording no_agreement) false)
      | some a ↦ elim (admit_invocation d.broker a capability fresh.now) [
        | err (code, reason, retryable) ↦
            with_replies d (
              refuse s fresh env (some capability) (some method) code (api.wording reason)
                retryable)
        | ok u ↦ execute d s env connection fresh capability method activation_id
      ]
    ]
  ]

  -- A validated Invocation has a capability and a method (`expect`).
  unfoldable pub handle_invocation :
      DaemonServer Json Output Other
      → SessionState
      → Envelope Json
      → ℕ
      → Fresh
      → Outcome Json Output Other
  handle_invocation d s env connection fresh = elim env.capability [
    | none ↦ (d, s, [])
    | some capability ↦ elim env.method [
      | none ↦ (d, s, [])
      | some method ↦ invoke d s env connection fresh capability method
    ]
  ]
