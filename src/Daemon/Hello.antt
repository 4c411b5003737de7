-- ===== src/Daemon/Hello.antt =====
-- `handle_hello` (crates/daemon/src/server.rs).
use dsh_desktop_shell.Daemon.Authority.{is_mixed, agent_id_of, authority_of}
use dsh_desktop_shell.Negotiation.Messages.{AgreementPayload}
use dsh_desktop_shell.Envelope.Types.{ErrorCode, EnvelopeKind, protocol_id, Envelope}
use dsh_desktop_shell.Daemon.Terms.{negotiate, lease_max_seconds, Terms, Fresh}
use dsh_desktop_shell.Daemon.Replies.{
  refuse, with_replies, server_participant, Outcome, DaemonServer,
}
use dsh_desktop_shell.Daemon.Types.{
  mixed_authority, Activation, ActivationAuthority, SessionState, DaemonApi,
}
use dsh_desktop_shell.Prelude.{
  u64_suc, text_discrete, insert, is_empty, List, Option, if◌then◌else◌, false, some, none, ◌∷◌, [],
}

abbrev pub agreement_payload_of : Fresh → Terms → AgreementPayload
agreement_payload_of fresh terms = record {
  activation_id = fresh.activation_id;
  granted = terms.granted;
  unavailable = terms.unavailable;
  lease_constraints =
      if is_empty terms.granted
      then none
      else some (record { max_seconds = some lease_max_seconds; approval_required = none });
}

module _ {Json : Type 0} where
  abbrev pub activation_of : Fresh → Envelope Json → ActivationAuthority → Terms → Activation
  activation_of fresh env authority terms = record {
    activation_id = fresh.activation_id;
    authority = authority;
    agent_id = agent_id_of env.participant;
    generation = terms.generation;
    granted = terms.granted;
    hello_id = env.id;
  }

  abbrev pub payload_of : {P : Type 0} → (Json → Option P) → Option Json → Option P
  payload_of parse none = none
  payload_of parse (some value) = parse value

module _ {Json Output Other : Type 0} (api : DaemonApi Json Output Other) where
  abbrev pub agreement_of : SessionState → Fresh → Envelope Json → Terms → Envelope Json
  agreement_of s fresh env terms = record {
    protocol = protocol_id;
    id = fresh.message_id;
    kind = EnvelopeKind.agreement;
    reply_to = some env.id;
    participant = server_participant (some fresh.activation_id);
    timestamp = fresh.timestamp;
    generation = s.next_generation;
    capability = none;
    method = none;
    payload = some (api.of_agreement (agreement_payload_of fresh terms));
    error = none;
  }

  -- From the insertion of the activation on.
  abbrev pub agree :
      SessionState
      → Fresh
      → Envelope Json
      → ActivationAuthority
      → Terms
      → SessionState × List (Envelope Json)
  agree s fresh env authority terms = (
    record s {
      activations =
          insert text_discrete fresh.activation_id (activation_of fresh env authority terms)
            s.activations;
      authority = some authority;
      next_generation = u64_suc s.next_generation;
    },
    agreement_of s fresh env terms ∷ [],
  )

  unfoldable pub handle_hello :
      DaemonServer Json Output Other
      → SessionState
      → Envelope Json
      → Fresh
      → Outcome Json Output Other
  handle_hello d s env fresh = elim (payload_of api.json.hello_payload env.payload) [
    | none ↦ (d, s, [])
    | some greeting ↦
        let authority = authority_of d.folds_case d.policy s.identity env.participant in
        if is_mixed s.authority authority
        then with_replies d (
            refuse s fresh env none none ErrorCode.unauthorized (api.wording mixed_authority) false)
        else (let (b, terms) =
              negotiate d.broker fresh (agent_id_of env.participant) authority greeting.supports in
            with_replies (record d { broker = b }) (agree s fresh env authority terms))
  ]
