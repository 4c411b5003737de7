-- ===== src/Envelope/Types.antt =====
-- The envelope and the issues of its validation (crates/daemon/src/envelope.rs). The payload is a
-- JSON value, a type parameter; what serde_json does with it is a record of functions (`JsonApi`).
-- The coordinates, requirements and payloads have the fields of the negotiation's. An issue is its
-- path; the wording of its message is left out.
use dsh_desktop_shell.Negotiation.Messages.{
  ProtocolCoordinate, AgreementPayload, Participant, HelloPayload, UnavailableCapability,
  Requirement,
}
use dsh_desktop_shell.Prelude.{text_discrete, Option, ℕ, String, Bool}

abbrev pub protocol_id : String
protocol_id = "interop.dsh-desktop.local/v1alpha1"

abbrev pub id_min_len : ℕ
id_min_len = 8

abbrev pub id_max_len : ℕ
id_max_len = 128

abbrev pub error_message_max_len : ℕ
error_message_max_len = 512

pub data EnvelopeKind : Type 0 where
  hello agreement invocation result event : EnvelopeKind

pub data ErrorCode : Type 0 where
  unavailable unauthorized unsupported_version not_process_owner user_gesture_required : ErrorCode
  user_denied stale_generation malformed_message conflict timeout safe_stop : ErrorCode

pub record ProtocolError : Type 0 where
  pub code : ErrorCode
  pub message : String
  pub retryable : Bool
  pub correlation_id : String

pub record Envelope (Json : Type 0) : Type 0 where
  pub protocol : String
  pub id : String
  pub kind : EnvelopeKind
  pub reply_to : Option String
  pub participant : Participant
  pub timestamp : String
  pub generation : ℕ
  pub capability : Option ProtocolCoordinate
  pub method : Option String
  pub payload : Option Json
  pub error : Option ProtocolError

pub record JsonApi (Json : Type 0) : Type 0 where
  pub is_object : Json → Bool
  pub hello_payload : Json → Option HelloPayload
  pub agreement_payload : Json → Option AgreementPayload

pub data ValidationIssue : Type 0 where
  at_envelope at_protocol at_id at_component at_facet at_participant_activation_id : ValidationIssue
  at_timestamp at_reply_to at_capability at_method at_error at_error_message : ValidationIssue
  at_correlation_id at_payload at_instance_id at_supports at_requires : ValidationIssue
  at_activation_id at_granted at_unavailable at_max_seconds : ValidationIssue
  at_requirement at_unavailable_item : ℕ → ValidationIssue

unfoldable pub Requirement-discrete : Discrete Requirement
Requirement-discrete = hlevel text_discrete

unfoldable pub UnavailableCapability-discrete : Discrete UnavailableCapability
UnavailableCapability-discrete = hlevel text_discrete
