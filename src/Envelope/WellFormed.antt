-- ===== src/Envelope/WellFormed.antt =====
-- What a validated frame is (crates/daemon/src/envelope.rs).
use dsh_desktop_shell.Envelope.Words.{is_method_char, valid_method_iff, IsWord}
use dsh_desktop_shell.Envelope.Types.{
  at_timestamp, at_max_seconds, at_facet, at_unavailable, at_requires, at_component, at_id,
  UnavailableCapability-discrete, Requirement-discrete, at_unavailable_item, at_requirement,
  at_protocol, at_correlation_id, protocol_id, at_supports, at_participant_activation_id,
  at_granted, at_error_message, at_error, result, invocation, hello, event, at_reply_to, at_payload,
  at_method, at_instance_id, at_capability, at_activation_id, agreement, EnvelopeKind, Envelope,
  ProtocolError, JsonApi,
}
use dsh_desktop_shell.Envelope.Frames.{
  validate_kind, validate_frame, fits, collect, validate_result, validate_reply_to,
  validate_payload_object, validate_outcome, validate_method, validate_invocation,
  validate_hello_payload, validate_hello, validate_event, validate_envelope, validate_capability,
  validate_agreement_payload, validate_agreement, expect, max_seconds_fits,
}
use dsh_desktop_shell.Envelope.Formats.{is_ascii_lowercase, is_rfc3339_timestamp}
use dsh_desktop_shell.Envelope.Checks.{
  expect-of, nonempty_iff, short_iff, IsCoordinate-iff, no_issue_iff, same_iff, required_iff,
  IsAbsent-iff, expect_iff, items_iff, Distinct-iff, coordinates_iff, fits_iff, Distinct, both,
  IsCoordinate, IsAbsent, Holds, Within,
}
use dsh_desktop_shell.Negotiation.Messages.{
  LeaseConstraints, ProtocolCoordinate-discrete, HelloPayload, AgreementPayload,
}
use dsh_desktop_shell.Prelude.{
  ◌≢◌, Option-cases, ◌++◌, ◌∷◌, ok, arith, map, ◌≤◌, ◌↔◌, codes, All, length, Option, String, ◌≡◌,
  true, some, none, [],
}
use Prim.Native.String.{len}

abbrev pub IsHelloPayload : HelloPayload → Type 0
IsHelloPayload p =
    Within 8 128 p.instance_id
    × (All IsCoordinate p.supports
        × (Distinct p.supports
            × (All IsCoordinate (map (λ r. r.coordinate) p.requires) × Distinct p.requires)))

-- A lease lasts a second at least, if it is bounded.
abbrev pub HasTime : Option LeaseConstraints → Type 0
HasTime none = Unit
HasTime (some c) = c.max_seconds ≢ some 0

HasTime-iff :
    (o : Option LeaseConstraints) → (expect (max_seconds_fits o) at_max_seconds ≡ []) ↔ HasTime o
HasTime-iff none = ground arith
HasTime-iff (some c) = ground (arith, Option-cases c.max_seconds)

abbrev pub IsAgreementPayload : AgreementPayload → Type 0
IsAgreementPayload p =
    Within 1 128 p.activation_id
    × (All IsCoordinate p.granted
        × (Distinct p.granted
            × (All IsCoordinate (map (λ u. u.coordinate) p.unavailable)
                × (Distinct p.unavailable × HasTime p.lease_constraints))))

abbrev pub IsError : ProtocolError → Type 0
IsError e = (length (codes e.message) ≤ 512) × Within 8 128 e.correlation_id

-- The value satisfies P if it is there.
abbrev pub WhenThere : (String → Type 0) → Option String → Type 0
WhenThere P none = Unit
WhenThere P (some t) = P t

module _ {Json : Type 0} (api : JsonApi Json) where
  abbrev pub IsObject : Json → Type 0
  IsObject v = api.is_object v ≡ true

  -- A result carries a payload or an error, and not both.
  abbrev pub IsOutcome : Option Json → Option ProtocolError → Type 0
  IsOutcome (some p) none = IsObject p
  IsOutcome none (some e) = IsError e
  IsOutcome none none = ⊥
  IsOutcome (some p) (some e) = ⊥

  abbrev pub IsMethod : String → Type 0
  IsMethod m = IsWord is_ascii_lowercase is_method_char (codes m)

  abbrev pub IsCall : Envelope Json → Type 0
  IsCall env =
      Holds IsCoordinate env.capability × (Holds IsMethod env.method × Holds IsObject env.payload)

  -- The fields that the kind of a frame requires and forbids.
  abbrev pub FitsKind : EnvelopeKind → Envelope Json → Type 0
  FitsKind hello env =
      IsAbsent env.reply_to
      × (IsAbsent env.capability
          × (IsAbsent env.method
              × (IsAbsent env.error
                  × Holds (λ v. Holds IsHelloPayload (api.hello_payload v)) env.payload)))
  FitsKind agreement env =
      IsAbsent env.capability
      × (IsAbsent env.method
          × (IsAbsent env.error
              × (Holds (Within 8 128) env.reply_to
                  × Holds (λ v. Holds IsAgreementPayload (api.agreement_payload v)) env.payload)))
  FitsKind invocation env = IsAbsent env.reply_to × (IsAbsent env.error × IsCall env)
  FitsKind result env =
      Holds (Within 8 128) env.reply_to
      × (Holds IsCoordinate env.capability
          × (Holds IsMethod env.method × IsOutcome env.payload env.error))
  FitsKind event env = IsAbsent env.error × IsCall env

  abbrev pub IsFrame : Envelope Json → Type 0
  IsFrame env =
      (env.protocol ≡ "interop.dsh-desktop.local/v1alpha1")
      × (Within 8 128 env.id
          × ((1 ≤ len env.participant.component)
              × ((1 ≤ len env.participant.facet)
                  × (WhenThere (Within 1 128) env.participant.activation_id
                      × (is_rfc3339_timestamp (codes env.timestamp) ≡ true)))))

  hello_payload_iff : (p : HelloPayload) → (validate_hello_payload p ≡ []) ↔ IsHelloPayload p
  hello_payload_iff p = both (fits_iff 8 128 p.instance_id at_instance_id) (
      both (coordinates_iff p.supports at_supports) (
        both (Distinct-iff ProtocolCoordinate-discrete p.supports at_supports) (
          both (items_iff at_requirement 0 _)
            (Distinct-iff Requirement-discrete p.requires at_requires))))

  agreement_payload_iff :
      (p : AgreementPayload) → (validate_agreement_payload p ≡ []) ↔ IsAgreementPayload p
  agreement_payload_iff p = both (fits_iff 1 128 p.activation_id at_activation_id) (
      both (coordinates_iff p.granted at_granted) (
        both (Distinct-iff ProtocolCoordinate-discrete p.granted at_granted) (
          both (items_iff at_unavailable_item 0 _) (
            both (Distinct-iff UnavailableCapability-discrete p.unavailable at_unavailable)
              (HasTime-iff p.lease_constraints)))))

  method_iff : (env : Envelope Json) → (validate_method env ≡ []) ↔ Holds IsMethod env.method
  unfolding validate_method
  method_iff env =
      required_iff at_method (λ m. expect-of _ at_method (valid_method_iff (codes m))) env.method

  capability_iff :
      (env : Envelope Json) → (validate_capability env ≡ []) ↔ Holds IsCoordinate env.capability
  unfolding validate_capability
  capability_iff env =
      required_iff at_capability (λ c. IsCoordinate-iff c at_capability) env.capability

  reply_to_iff :
      (env : Envelope Json) → (validate_reply_to env ≡ []) ↔ Holds (Within 8 128) env.reply_to
  unfolding validate_reply_to
  reply_to_iff env = required_iff at_reply_to (λ r. fits_iff 8 128 r at_reply_to) env.reply_to

  IsObject-iff :
      (env : Envelope Json) → (validate_payload_object api env ≡ []) ↔ Holds IsObject env.payload
  unfolding validate_payload_object
  IsObject-iff env =
      required_iff at_payload (λ p. expect_iff (api.is_object p) at_payload) env.payload

  IsOutcome-iff :
      (p : Option Json) (e : Option ProtocolError) → (validate_outcome api p e ≡ []) ↔ IsOutcome p e
  unfolding validate_outcome
  IsOutcome-iff (some p) (some e) = ground arith
  IsOutcome-iff none none = ground arith
  IsOutcome-iff (some p) none = expect_iff (api.is_object p) at_payload
  IsOutcome-iff none (some e) =
      both (short_iff 512 (length (codes e.message)) at_error_message)
        (fits_iff 8 128 e.correlation_id at_correlation_id)

  hello_iff : (env : Envelope Json) → (validate_hello api env ≡ []) ↔ FitsKind hello env
  unfolding validate_hello
  hello_iff env = both (IsAbsent-iff env.reply_to at_reply_to) (
      both (IsAbsent-iff env.capability at_capability) (
        both (IsAbsent-iff env.method at_method) (
          both (IsAbsent-iff env.error at_error) (
            required_iff at_payload
              (λ v. required_iff at_payload hello_payload_iff (api.hello_payload v)) env.payload))))

  agreement_iff : (env : Envelope Json) → (validate_agreement api env ≡ []) ↔ FitsKind agreement env
  unfolding validate_agreement
  agreement_iff env = both (IsAbsent-iff env.capability at_capability) (
      both (IsAbsent-iff env.method at_method) (
        both (IsAbsent-iff env.error at_error) (
          both (reply_to_iff env) (
            required_iff at_payload
              (λ v. required_iff at_payload agreement_payload_iff (api.agreement_payload v))
              env.payload))))

  IsCall-iff :
      (env : Envelope Json)
      → (collect
            (validate_capability env ∷ validate_method env ∷ validate_payload_object api env ∷ [])
          ≡ [])
        ↔ IsCall env
  IsCall-iff env = both (capability_iff env) (both (method_iff env) (IsObject-iff env))

  invocation_iff :
      (env : Envelope Json) → (validate_invocation api env ≡ []) ↔ FitsKind invocation env
  unfolding validate_invocation
  invocation_iff env =
      both (IsAbsent-iff env.reply_to at_reply_to)
        (both (IsAbsent-iff env.error at_error) (IsCall-iff env))

  event_iff : (env : Envelope Json) → (validate_event api env ≡ []) ↔ FitsKind event env
  unfolding validate_event
  event_iff env = both (IsAbsent-iff env.error at_error) (IsCall-iff env)

  result_iff : (env : Envelope Json) → (validate_result api env ≡ []) ↔ FitsKind result env
  unfolding validate_result
  result_iff env =
      both (reply_to_iff env)
        (both (capability_iff env) (both (method_iff env) (IsOutcome-iff env.payload env.error)))

  kind_iff :
      (kind : EnvelopeKind) (env : Envelope Json)
      → (validate_kind api kind env ≡ []) ↔ FitsKind kind env
  kind_iff hello env = hello_iff env
  kind_iff agreement env = agreement_iff env
  kind_iff invocation env = invocation_iff env
  kind_iff result env = result_iff env
  kind_iff event env = event_iff env

  activation_id_iff :
      (o : Option String)
      → ((elim o [ none ↦ [] | some a ↦ expect (fits 1 128 a) at_participant_activation_id ]) ≡ [])
        ↔ WhenThere (Within 1 128) o
  activation_id_iff none = ground arith
  activation_id_iff (some a) = fits_iff 1 128 a at_participant_activation_id

  IsFrame-iff : (env : Envelope Json) → (validate_frame api env ≡ []) ↔ IsFrame env
  IsFrame-iff env = both (same_iff env.protocol protocol_id at_protocol) (
      both (fits_iff 8 128 env.id at_id) (
        both (nonempty_iff env.participant.component at_component) (
          both (nonempty_iff env.participant.facet at_facet)
            (both (activation_id_iff env.participant.activation_id) (expect_iff _ at_timestamp)))))

  pub validate_envelope_iff :
      (env : Envelope Json)
      → (validate_envelope api env ≡ ok tt) ↔ (IsFrame env × FitsKind env.kind env)
  unfolding validate_envelope
  validate_envelope_iff env =
      let b = both (IsFrame-iff env) (kind_iff env.kind env) in
      let d = no_issue_iff (validate_frame api env ++ validate_kind api env.kind env) in
      (λ h. b.0 (d.0 h), λ h. d.1 (b.1 h))
