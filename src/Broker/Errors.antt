-- ===== src/Broker/Errors.antt =====
-- The protocol codes of refusals (crates/supervisor/src/broker.rs and broker/agent.rs).
use dsh_desktop_shell.Broker.State.{Query, Broker, enforce_dispatch}
use dsh_desktop_shell.Broker.Gate.{enforce_valid_lease-classify, classify}
use dsh_desktop_shell.Prelude.{
  does, text_discrete, List, lookup, ◌↔◌, String, Bool, ◌≡◌, err, arith, refl, false, true, none,
}
use dsh_desktop_shell.Broker.Types.{
  BrokerError, unknown_capability, unknown_provider, not_granted, lease_expired, lease_revoked,
  scope_mismatch, generation_mismatch, conflict, CapabilityId-discrete, Lease,
}
use dsh_desktop_shell.Broker.AgentTypes.{
  AgentBridgeError, not_negotiated, nothing_granted, no_lease_policy, conformance_not_known,
  activation_revoked, stale_activation, broker,
}

abbrev protocol_code : BrokerError → String
protocol_code unknown_capability = "UNAVAILABLE"
protocol_code unknown_provider = "UNAVAILABLE"
protocol_code not_granted = "UNAUTHORIZED"
protocol_code lease_expired = "UNAUTHORIZED"
protocol_code lease_revoked = "UNAUTHORIZED"
protocol_code scope_mismatch = "UNAUTHORIZED"
protocol_code generation_mismatch = "STALE_GENERATION"
protocol_code conflict = "CONFLICT"

abbrev pub retryable : BrokerError → Bool
retryable unknown_capability = true
retryable unknown_provider = true
retryable not_granted = false
retryable lease_expired = false
retryable lease_revoked = false
retryable scope_mismatch = false
retryable generation_mismatch = false
retryable conflict = false

abbrev agent_protocol_code : AgentBridgeError → String
agent_protocol_code (broker error) = protocol_code error
agent_protocol_code stale_activation = "STALE_GENERATION"
agent_protocol_code conformance_not_known = "UNAVAILABLE"
agent_protocol_code not_negotiated = "UNAUTHORIZED"
agent_protocol_code nothing_granted = "UNAUTHORIZED"
agent_protocol_code no_lease_policy = "UNAUTHORIZED"
agent_protocol_code activation_revoked = "UNAUTHORIZED"

abbrev agent_retryable : AgentBridgeError → Bool
agent_retryable (broker error) = retryable error
agent_retryable conformance_not_known = true
agent_retryable not_negotiated = false
agent_retryable nothing_granted = false
agent_retryable no_lease_policy = false
agent_retryable activation_revoked = false
agent_retryable stale_activation = false

classify_final :
    (ls : List (String × Lease)) (q : Query) (e : BrokerError)
    → classify ls q ≡ err e
    → retryable e ≡ false
unfolding classify
classify_final ls q e h = ground (arith, h)

-- When the gate refuses, the caller may retry exactly if nobody holds a grant of the capability: a
-- refusal for its owner, its generation, its scope or its leases is final.
enforce_dispatch-retryable :
    {Json : Type 0} (b : Broker Json) (q : Query) (e : BrokerError)
    → enforce_dispatch b q ≡ err e
    → (retryable e ≡ true) ↔ (lookup CapabilityId-discrete q.capability b.grants ≡ none)
unfolding enforce_dispatch
enforce_dispatch-retryable b q e h =
    ground (arith, h, enforce_valid_lease-classify b.leases q, classify_final b.leases q e)

-- An error of the bridge may be retried exactly if its protocol code is UNAVAILABLE.
agent_retryable-agent_protocol_code :
    (e : AgentBridgeError)
    → agent_retryable e ≡ does (text_discrete (agent_protocol_code e) "UNAVAILABLE")
unfolding text_discrete
agent_retryable-agent_protocol_code (broker unknown_capability) = refl
agent_retryable-agent_protocol_code (broker unknown_provider) = refl
agent_retryable-agent_protocol_code (broker not_granted) = refl
agent_retryable-agent_protocol_code (broker lease_expired) = refl
agent_retryable-agent_protocol_code (broker lease_revoked) = refl
agent_retryable-agent_protocol_code (broker scope_mismatch) = refl
agent_retryable-agent_protocol_code (broker generation_mismatch) = refl
agent_retryable-agent_protocol_code (broker conflict) = refl
agent_retryable-agent_protocol_code not_negotiated = refl
agent_retryable-agent_protocol_code nothing_granted = refl
agent_retryable-agent_protocol_code no_lease_policy = refl
agent_retryable-agent_protocol_code conformance_not_known = refl
agent_retryable-agent_protocol_code activation_revoked = refl
agent_retryable-agent_protocol_code stale_activation = refl
