-- ===== src/Broker/Tests.antt =====
-- The broker's theorems at concrete states (crates/supervisor/src/broker.rs, broker/agent.rs).
use dsh_desktop_shell.Broker.Negotiated.{negotiation_authorises, query_for}
use dsh_desktop_shell.Broker.Scope.{covers}
use dsh_desktop_shell.Broker.Authority.{enforce_dispatch-revoke_agent_grants}
use dsh_desktop_shell.Broker.Replay.{negotiation_replayed_later, negotiation_revoked}
use dsh_desktop_shell.Broker.Takeover.{
  agent_activation_revoked, revoke_held, targets, revoke_target, revoke_targets, agent_generation,
  revoke_agent_grants,
}
use dsh_desktop_shell.Broker.Ops.{Op, negotiates, revokes, run}
use dsh_desktop_shell.Broker.Gate.{
  enforce_dispatch_iff, enforce_valid_lease-classify, Authorised, classify,
}
use dsh_desktop_shell.Broker.Types.{
  Lease-discrete, CapabilityGrant-discrete, CapabilityId-discrete, disconnect, conflict,
  human_takeover, Scope, LeaseRevocation, Lease, CapabilityId, CapabilityGrant,
}
use dsh_desktop_shell.Broker.State.{
  is_expired, is_revoked, matches, verdict, round, visit, scan_leases, lease, grant, with_clock,
  enforce_valid_lease, enforce_dispatch, Query, Broker, AgentActivationState,
}
use dsh_desktop_shell.Broker.Durability.{revocation-run, revocation}
use dsh_desktop_shell.Broker.AgentTypes.{
  AgentGrant, states_of, agent_lease_id, contract_version, known, broker, activation_revoked, admit,
  AgentNegotiationResult, AgentLeaseConstraints,
}
use dsh_desktop_shell.Broker.Agent.{
  each, lease_all, grant_all, issue_leases, issue_grants, register, activation_generation,
  broker_grant_from_negotiation,
}
use dsh_desktop_shell.Prelude.{
  List, inl, lookup, ℕ_discrete, dec_of, text_discrete, ◌≢◌, ◌↔◌, ℕ, String, ◌≡◌, err, ok, arith,
  refl, false, true, some, none, ◌∷◌, [],
}

abbrev any_scope : Scope
any_scope = record { session_id = none; workspace = none; domains = []; resources = [] }

abbrev terminal : CapabilityId
terminal = record { api_version = "terminal.dsh-desktop.local/v1alpha1"; kind = "Terminal" }

abbrev first_activation : AgentNegotiationResult
first_activation = record {
  activation_id = "act-1";
  agreed = true;
  granted = terminal ∷ [];
  conformance = known;
  lease_constraints = some (record { max_seconds = 60; approval_required = none });
  scope = any_scope;
}

abbrev at_100 : ℕ → ℕ
at_100 i = 100

abbrev granted_broker : Broker String
granted_broker =
    (broker_grant_from_negotiation with_clock 100 at_100 at_100 "agent" first_activation).0

abbrev query : Query
query = record {
  capability = terminal;
  owner = "agent";
  generation = 1;
  scope = any_scope;
  now = 200;
}

-- The whole chain runs: the negotiation is granted and the gate passes the agent's dispatch.
granted_passes : enforce_dispatch granted_broker query ≡ ok tt
unfolding broker_grant_from_negotiation with_clock enforce_dispatch admit activation_generation
    register issue_grants issue_leases grant_all lease_all each grant lease contract_version
    agent_lease_id covers enforce_valid_lease scan_leases visit round verdict matches is_revoked
    is_expired CapabilityId-discrete CapabilityGrant-discrete Lease-discrete text_discrete dec_of
    ℕ_discrete
granted_passes = refl

enforce_dispatch_iff_example :
    (enforce_dispatch granted_broker query ≡ ok tt) ↔ Authorised granted_broker query
enforce_dispatch_iff_example = enforce_dispatch_iff granted_broker query

enforce_valid_lease-classify_example :
    enforce_valid_lease granted_broker.leases query ≡ classify granted_broker.leases query
enforce_valid_lease-classify_example = enforce_valid_lease-classify granted_broker.leases query

issued_generation : agent_generation granted_broker "agent" "act-1" ≡ some 1
unfolding broker_grant_from_negotiation with_clock admit activation_generation register issue_grants
    issue_leases grant_all lease_all each grant lease contract_version agent_lease_id covers
    agent_generation CapabilityId-discrete CapabilityGrant-discrete Lease-discrete text_discrete
    dec_of ℕ_discrete
issued_generation = refl

enforce_dispatch-revoke_agent_grants_example :
    enforce_dispatch (revoke_agent_grants granted_broker 150 "act-1" human_takeover).0 query ≢ ok tt
enforce_dispatch-revoke_agent_grants_example =
    enforce_dispatch-revoke_agent_grants granted_broker 150 "agent" "act-1" human_takeover 1 query
      issued_generation refl refl

abbrev taken_over : Broker String
taken_over = (revoke_agent_grants granted_broker 150 "act-1" human_takeover).0

abbrev lease_id : String
lease_id = "agent-agent-act-1-terminal.dsh-desktop.local/v1alpha1-Terminal"

abbrev takeover_record : LeaseRevocation
takeover_record = record { reason = human_takeover; at_unix_ms = 150 }

taken_over_lease : revocation lease_id taken_over.leases ≡ some takeover_record
unfolding broker_grant_from_negotiation with_clock admit activation_generation register issue_grants
    issue_leases grant_all lease_all each grant lease contract_version agent_lease_id covers
    CapabilityId-discrete CapabilityGrant-discrete Lease-discrete text_discrete dec_of ℕ_discrete
    revoke_agent_grants revoke_targets revoke_target targets revoke_held is_revoked
taken_over_lease = refl

revocation-run_example :
    revocation lease_id
      (run taken_over (
        revokes 170 lease_id disconnect
        ∷ negotiates 180 at_100 at_100 "agent" first_activation
        ∷ [])).leases
    ≡ some takeover_record
revocation-run_example =
    revocation-run lease_id takeover_record taken_over
      (revokes 170 lease_id disconnect ∷ negotiates 180 at_100 at_100 "agent" first_activation ∷ [])
      taken_over_lease

taken_over_revoked : agent_activation_revoked taken_over "agent" "act-1" ≡ true
unfolding broker_grant_from_negotiation with_clock admit activation_generation register issue_grants
    issue_leases grant_all lease_all each grant lease contract_version agent_lease_id covers
    CapabilityId-discrete CapabilityGrant-discrete Lease-discrete text_discrete dec_of ℕ_discrete
    revoke_agent_grants revoke_targets revoke_target targets revoke_held is_revoked
    agent_activation_revoked
taken_over_revoked = refl

abbrev constraints : AgentLeaseConstraints
constraints = record { max_seconds = 60; approval_required = none }

first_admitted : admit first_activation ≡ ok constraints
unfolding admit
first_admitted = refl

abbrev second_activation : AgentNegotiationResult
second_activation = record first_activation { activation_id = "act-2" }

abbrev later_calls : List (Op String)
later_calls =
    revokes 170 lease_id disconnect ∷ negotiates 175 at_100 at_100 "agent" second_activation ∷ []

negotiation_revoked_example :
    broker_grant_from_negotiation
      (run taken_over later_calls)
      180
      at_100
      at_100
      "agent"
      first_activation
    ≡ (run taken_over later_calls, err activation_revoked)
negotiation_revoked_example =
    negotiation_revoked taken_over later_calls 180 at_100 at_100 "agent" first_activation
      constraints first_admitted taken_over_revoked

abbrev first_state : AgentActivationState
first_state = record { generation = 1; revoked = false }

abbrev first_grant : CapabilityGrant
first_grant = record {
  capability_id = terminal;
  version = "v1alpha1";
  scope = any_scope;
  owner = "agent";
  generation = 1;
  created_at_unix_ms = 100;
}

registered :
    lookup text_discrete "act-1" (states_of "agent" granted_broker.agent_activations)
    ≡ some first_state
unfolding broker_grant_from_negotiation with_clock admit activation_generation register issue_grants
    issue_leases grant_all lease_all each grant lease contract_version agent_lease_id covers
    CapabilityId-discrete CapabilityGrant-discrete Lease-discrete text_discrete dec_of ℕ_discrete
registered = refl

current : lookup text_discrete "agent" granted_broker.current_activation ≡ some "act-1"
unfolding broker_grant_from_negotiation with_clock admit activation_generation register issue_grants
    issue_leases grant_all lease_all each grant lease contract_version agent_lease_id covers
    CapabilityId-discrete CapabilityGrant-discrete Lease-discrete text_discrete dec_of ℕ_discrete
current = refl

granted : lookup CapabilityId-discrete terminal granted_broker.grants ≡ some first_grant
unfolding broker_grant_from_negotiation with_clock admit activation_generation register issue_grants
    issue_leases grant_all lease_all each grant lease contract_version agent_lease_id covers
    CapabilityId-discrete CapabilityGrant-discrete Lease-discrete text_discrete dec_of ℕ_discrete
granted = refl

negotiation_replayed_later_example :
    broker_grant_from_negotiation granted_broker 101 at_100 at_100 "agent" first_activation
    ≡ (granted_broker, err (broker conflict))
negotiation_replayed_later_example =
    negotiation_replayed_later granted_broker 101 at_100 at_100 "agent" first_activation constraints
      terminal [] first_state first_grant first_admitted refl registered refl current granted refl
      (omega arith)

abbrev spare : Lease
spare = record {
  id = "spare";
  capability_id = terminal;
  owner = "agent";
  generation = 1;
  scope = any_scope;
  expires_at_unix_ms = 150;
  revoked = none;
}

abbrev first_answer : AgentGrant
first_answer = record {
  agent_id = "agent";
  activation_id = "act-1";
  generation = 1;
  capabilities = terminal ∷ [];
  scope = any_scope;
  lease_constraints = some constraints;
  expires_at_unix_ms = 60100;
  granted_at_unix_ms = 100;
}

abbrev fresh_broker : Broker String
fresh_broker = with_clock

first_answered :
    (broker_grant_from_negotiation fresh_broker 100 at_100 at_100 "agent" first_activation).1
    ≡ ok first_answer
unfolding broker_grant_from_negotiation with_clock admit activation_generation register issue_grants
    issue_leases grant_all lease_all each grant lease contract_version agent_lease_id covers
    CapabilityId-discrete CapabilityGrant-discrete Lease-discrete text_discrete dec_of ℕ_discrete
first_answered = refl

negotiation_authorises_example :
    enforce_dispatch
      (broker_grant_from_negotiation fresh_broker 100 at_100 at_100 "agent" first_activation).0
      (query_for "agent" 1 any_scope terminal 60099)
    ≡ ok tt
negotiation_authorises_example =
    negotiation_authorises "agent" first_activation fresh_broker 100 at_100 at_100 first_answer
      terminal 60099 first_answered (inl refl) (omega arith)
