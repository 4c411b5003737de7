-- ===== src/Envelope/Frames.antt =====
-- The validation of a frame (crates/daemon/src/envelope.rs). Two items are serialized to the same
-- text exactly when they are equal.
use dsh_desktop_shell.Envelope.Formats.{
  is_rfc3339_timestamp, valid_coordinate_kind, valid_method, valid_api_version,
}
use dsh_desktop_shell.Negotiation.Messages.{
  ProtocolCoordinate-discrete, LeaseConstraints, ProtocolCoordinate, HelloPayload, AgreementPayload,
}
use dsh_desktop_shell.Envelope.Types.{
  at_timestamp, at_participant_activation_id, at_max_seconds, at_unavailable, at_requires, at_facet,
  at_component, UnavailableCapability-discrete, Requirement-discrete, event, at_id,
  at_correlation_id, result, at_unavailable_item, at_requirement, at_protocol, at_error_message,
  protocol_id, invocation, id_max_len, error_message_max_len, at_supports, at_method, at_granted,
  agreement, id_min_len, hello, at_reply_to, at_payload, at_instance_id, at_error, at_envelope,
  at_capability, at_activation_id, ValidationIssue, ProtocolError, EnvelopeKind, JsonApi, Envelope,
}
use dsh_desktop_shell.Prelude.{
  map, length, ◌+◌, ◌&&◌, text_discrete, codes, ◌++◌, ltb, leb, is_empty, does, any, not, String,
  Result, ℕ, Option, List, Bool, if◌then◌else◌, err, ok, false, true, some, none, ◌∷◌, [],
}
use Prim.Native.String.{len}

-- `if condition { issues.push(...) }`, and `forbid`.
abbrev pub forbid : Bool → ValidationIssue → List ValidationIssue
forbid true issue = issue ∷ []
forbid false issue = []

abbrev pub expect : Bool → ValidationIssue → List ValidationIssue
expect holds issue = forbid (not holds) issue

abbrev pub fits : ℕ → ℕ → String → Bool
fits low high text = leb low (len text) && leb (len text) high

abbrev pub is_some {ℓ} : {A : Type ℓ} → Option A → Bool
is_some none = false
is_some (some a) = true

module _ {A : Type 0} (dec : Discrete A) where
  unfoldable pub all_unseen : List A → List A → Bool
  all_unseen seen [] = true
  all_unseen seen (x ∷ xs) = not (any (λ y. does (dec y x)) seen) && all_unseen (x ∷ seen) xs

  abbrev pub unique_serialized : List A → Bool
  unique_serialized items = all_unseen [] items

-- What several checks push, in their order.
abbrev pub collect : List (List ValidationIssue) → List ValidationIssue
collect [] = []
collect (issues ∷ []) = issues
collect (issues ∷ more ∷ rest) = issues ++ collect (more ∷ rest)

-- The end of `validate_envelope`.
abbrev pub outcome_of : List ValidationIssue → Result (List ValidationIssue) (Unit {0})
outcome_of issues = if is_empty issues then ok tt else err issues

abbrev pub validate_coordinate : ProtocolCoordinate → ValidationIssue → List ValidationIssue
validate_coordinate c path =
    expect (valid_api_version (codes c.api_version)) path
    ++ expect (valid_coordinate_kind (codes c.kind)) path

unfoldable pub validate_coordinates :
    List ProtocolCoordinate → ValidationIssue → List ValidationIssue
validate_coordinates [] path = []
validate_coordinates (c ∷ cs) path = validate_coordinate c path ++ validate_coordinates cs path

-- The loop over items with their positions, from position `i` on.
unfoldable pub validate_items :
    (ℕ → ValidationIssue) → ℕ → List ProtocolCoordinate → List ValidationIssue
validate_items path i [] = []
validate_items path i (c ∷ cs) = validate_coordinate c (path i) ++ validate_items path (i + 1) cs

abbrev pub validate_hello_payload : HelloPayload → List ValidationIssue
validate_hello_payload p = collect (
    expect (fits 8 128 p.instance_id) at_instance_id
    ∷ validate_coordinates p.supports at_supports
    ∷ expect (unique_serialized ProtocolCoordinate-discrete p.supports) at_supports
    ∷ validate_items at_requirement 0 (map (λ r. r.coordinate) p.requires)
    ∷ expect (unique_serialized Requirement-discrete p.requires) at_requires
    ∷ [])

abbrev pub max_seconds_fits : Option LeaseConstraints → Bool
max_seconds_fits none = true
max_seconds_fits (some c) = elim c.max_seconds [ none ↦ true | some n ↦ leb 1 n ]

abbrev pub validate_agreement_payload : AgreementPayload → List ValidationIssue
validate_agreement_payload p = collect (
    expect (fits 1 128 p.activation_id) at_activation_id
    ∷ validate_coordinates p.granted at_granted
    ∷ expect (unique_serialized ProtocolCoordinate-discrete p.granted) at_granted
    ∷ validate_items at_unavailable_item 0 (map (λ u. u.coordinate) p.unavailable)
    ∷ expect (unique_serialized UnavailableCapability-discrete p.unavailable) at_unavailable
    ∷ expect (max_seconds_fits p.lease_constraints) at_max_seconds
    ∷ [])

-- The issues of a value that must be there and must pass a test.
abbrev pub required {ℓ} :
    {A : Type ℓ} → (A → List ValidationIssue) → ValidationIssue → Option A → List ValidationIssue
required check path none = path ∷ []
required check path (some a) = check a

module _ {Json : Type 0} where
  unfoldable pub validate_reply_to : Envelope Json → List ValidationIssue
  validate_reply_to env =
      required (λ r. expect (fits id_min_len id_max_len r) at_reply_to) at_reply_to env.reply_to

  unfoldable pub validate_capability : Envelope Json → List ValidationIssue
  validate_capability env =
      required (λ c. validate_coordinate c at_capability) at_capability env.capability

  unfoldable pub validate_method : Envelope Json → List ValidationIssue
  validate_method env =
      required (λ m. expect (valid_method (codes m)) at_method) at_method env.method

module _ {Json : Type 0} (api : JsonApi Json) where
  unfoldable pub validate_payload_object : Envelope Json → List ValidationIssue
  validate_payload_object env =
      required (λ p. expect (api.is_object p) at_payload) at_payload env.payload

  -- `parse_payload`, then the checks of the payload.
  abbrev pub parse_payload :
      {P : Type 0}
      → (Json → Option P)
      → (P → List ValidationIssue)
      → Envelope Json
      → List ValidationIssue
  parse_payload parse check env =
      required (λ v. required check at_payload (parse v)) at_payload env.payload

  unfoldable pub validate_hello : Envelope Json → List ValidationIssue
  validate_hello env = collect (
      forbid (is_some env.reply_to) at_reply_to
      ∷ forbid (is_some env.capability) at_capability
      ∷ forbid (is_some env.method) at_method
      ∷ forbid (is_some env.error) at_error
      ∷ parse_payload api.hello_payload validate_hello_payload env
      ∷ [])

  unfoldable pub validate_agreement : Envelope Json → List ValidationIssue
  validate_agreement env = collect (
      forbid (is_some env.capability) at_capability
      ∷ forbid (is_some env.method) at_method
      ∷ forbid (is_some env.error) at_error
      ∷ validate_reply_to env
      ∷ parse_payload api.agreement_payload validate_agreement_payload env
      ∷ [])

  unfoldable pub validate_invocation : Envelope Json → List ValidationIssue
  validate_invocation env = collect (
      forbid (is_some env.reply_to) at_reply_to
      ∷ forbid (is_some env.error) at_error
      ∷ validate_capability env
      ∷ validate_method env
      ∷ validate_payload_object env
      ∷ [])

  unfoldable pub validate_event : Envelope Json → List ValidationIssue
  validate_event env = collect (
      forbid (is_some env.error) at_error
      ∷ validate_capability env
      ∷ validate_method env
      ∷ validate_payload_object env
      ∷ [])

  abbrev pub validate_error : ProtocolError → List ValidationIssue
  validate_error e =
      forbid (ltb error_message_max_len (length (codes e.message))) at_error_message
      ++ expect (fits id_min_len id_max_len e.correlation_id) at_correlation_id

  unfoldable pub validate_outcome : Option Json → Option ProtocolError → List ValidationIssue
  validate_outcome (some p) (some e) = at_envelope ∷ []
  validate_outcome none none = at_envelope ∷ []
  validate_outcome (some p) none = expect (api.is_object p) at_payload
  validate_outcome none (some e) = validate_error e

  unfoldable pub validate_result : Envelope Json → List ValidationIssue
  validate_result env = collect (
      validate_reply_to env
      ∷ validate_capability env
      ∷ validate_method env
      ∷ validate_outcome env.payload env.error
      ∷ [])

  abbrev pub validate_kind : EnvelopeKind → Envelope Json → List ValidationIssue
  validate_kind hello env = validate_hello env
  validate_kind agreement env = validate_agreement env
  validate_kind invocation env = validate_invocation env
  validate_kind result env = validate_result env
  validate_kind event env = validate_event env

  abbrev pub validate_frame : Envelope Json → List ValidationIssue
  validate_frame env = collect (
      expect (does (text_discrete env.protocol protocol_id)) at_protocol
      ∷ expect (fits id_min_len id_max_len env.id) at_id
      ∷ expect (leb 1 (len env.participant.component)) at_component
      ∷ expect (leb 1 (len env.participant.facet)) at_facet
      ∷ (elim env.participant.activation_id [
        | none ↦ []
        | some a ↦ expect (fits 1 128 a) at_participant_activation_id
      ])
      ∷ expect (is_rfc3339_timestamp (codes env.timestamp)) at_timestamp
      ∷ [])

  unfoldable pub validate_envelope : Envelope Json → Result (List ValidationIssue) (Unit {0})
  validate_envelope env = outcome_of (validate_frame env ++ validate_kind env.kind env)
