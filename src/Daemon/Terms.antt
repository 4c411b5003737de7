-- ===== src/Daemon/Terms.antt =====
-- The terms of a Hello (crates/daemon/src/server.rs, `handle_hello`): what the catalog and the broker
-- grant.
use dsh_desktop_shell.Broker.Agent.{broker_grant_from_negotiation}
use dsh_desktop_shell.Daemon.Catalog.{catalog_supports}
use dsh_desktop_shell.Envelope.Types.{unauthorized, stale_generation, ErrorCode}
use dsh_desktop_shell.Broker.AgentTypes.{
  broker, AgentGrant, known, AgentBridgeError, AgentNegotiationResult,
}
use dsh_desktop_shell.Negotiation.Messages.{
  policy_denied, UnavailableCapability, ProtocolCoordinate,
}
use dsh_desktop_shell.Daemon.Types.{shell_control, ActivationAuthority}
use dsh_desktop_shell.Broker.Types.{
  scope_mismatch, lease_revoked, lease_expired, not_granted, generation_mismatch, unknown_provider,
  unknown_capability, CapabilityId, Scope, BrokerError,
}
use dsh_desktop_shell.Broker.State.{Broker}
use dsh_desktop_shell.Prelude.{
  is_empty, not, ◌++◌, map, Result, Bool, retain, ℕ, String, List, if◌then◌else◌, err, ok, false,
  true, some, none, [],
}

-- What one call of `handle_envelope` takes from outside: the ids that it makes up, clocks, and the
-- counters of the transport.
pub record Fresh : Type 0 where
  pub activation_id : String
  pub message_id : String
  pub timestamp : String
  pub now : ℕ
  pub grant_clock : ℕ → ℕ
  pub lease_clock : ℕ → ℕ
  pub clock : ℕ → ℕ
  pub connections : ℕ
  pub credentials_issued : ℕ

abbrev pub lease_max_seconds : ℕ
lease_max_seconds = 3600

abbrev pub default_scope : Scope
default_scope = record { session_id = none; workspace = none; domains = []; resources = [] }

abbrev pub coordinate_to_capability : ProtocolCoordinate → CapabilityId
coordinate_to_capability c = record { api_version = c.api_version; kind = c.kind }

unfoldable pub broker_error_mapping : BrokerError → ErrorCode × Bool
broker_error_mapping unknown_capability = (ErrorCode.unavailable, true)
broker_error_mapping unknown_provider = (ErrorCode.unavailable, true)
broker_error_mapping generation_mismatch = (stale_generation, false)
broker_error_mapping BrokerError.conflict = (ErrorCode.conflict, false)
broker_error_mapping not_granted = (unauthorized, false)
broker_error_mapping lease_expired = (unauthorized, false)
broker_error_mapping lease_revoked = (unauthorized, false)
broker_error_mapping scope_mismatch = (unauthorized, false)

abbrev pub denied : List ProtocolCoordinate → List UnavailableCapability
denied cs = map (λ c. record { coordinate = c; reason = policy_denied }) cs

-- What the broker is asked at a Hello.
abbrev pub negotiation_of : String → List ProtocolCoordinate → AgentNegotiationResult
negotiation_of activation_id granted = record {
  activation_id = activation_id;
  agreed = true;
  granted = map coordinate_to_capability granted;
  conformance = known;
  lease_constraints = some (record { max_seconds = lease_max_seconds; approval_required = none });
  scope = default_scope;
}

-- What a Hello gets: the generation, what is granted and what is not.
pub record Terms : Type 0 where
  pub generation : ℕ
  pub granted : List ProtocolCoordinate
  pub unavailable : List UnavailableCapability

abbrev pub deny_all : List ProtocolCoordinate → List UnavailableCapability → Terms
deny_all granted refused = record {
  generation = 0;
  granted = [];
  unavailable = refused ++ denied granted;
}

-- What the answer of the broker makes of the terms: a conflict is relaxed for the Shell only.
unfoldable pub terms_of :
    ActivationAuthority
    → List ProtocolCoordinate
    → List UnavailableCapability
    → Result AgentBridgeError AgentGrant
    → Terms
terms_of authority granted refused (ok grant) = record {
  generation = grant.generation;
  granted = granted;
  unavailable = refused;
}
terms_of shell_control granted refused (err (broker BrokerError.conflict)) = record {
  generation = 0;
  granted = granted;
  unavailable = refused;
}
terms_of authority granted refused (err e) = deny_all granted refused

module _ {Json : Type 0} where
  -- An empty set of grants never reaches the broker.
  unfoldable pub negotiate :
      Broker Json
      → Fresh
      → String
      → ActivationAuthority
      → List ProtocolCoordinate
      → Broker Json × Terms
  negotiate b fresh agent_id authority supports =
      let granted = retain catalog_supports supports in
      let refused = denied (retain (λ c. not (catalog_supports c)) supports) in
      if is_empty granted
      then (b, record { generation = 0; granted = granted; unavailable = refused })
      else (let (b', answer) =
            broker_grant_from_negotiation b fresh.now fresh.grant_clock fresh.lease_clock agent_id
              (negotiation_of fresh.activation_id granted) in
          (b', terms_of authority granted refused answer))
