-- ===== src/Broker/Ops.antt =====
-- The broker's operations as one data type: a history is a list of calls
-- (crates/supervisor/src/broker.rs, broker/agent.rs).
use dsh_desktop_shell.Prelude.{ℕ, String, List, [], ◌∷◌}
use dsh_desktop_shell.Broker.Types.{CapabilityGrant, Lease, LeaseRevocationReason}
use dsh_desktop_shell.Broker.State.{Broker, Provider, register_provider, grant, lease, revoke}
use dsh_desktop_shell.Broker.AgentTypes.{AgentNegotiationResult}
use dsh_desktop_shell.Broker.Agent.{broker_grant_from_negotiation}
use dsh_desktop_shell.Broker.Takeover.{revoke_agent_grants}

pub data Op (Json : Type 0) : Type 0 where
  registers : Provider Json → Op Json
  grants : ℕ → CapabilityGrant → Op Json
  leases : ℕ → Lease → Op Json
  revokes : ℕ → String → LeaseRevocationReason → Op Json
  negotiates : ℕ → (ℕ → ℕ) → (ℕ → ℕ) → String → AgentNegotiationResult → Op Json
  revokes_agent : ℕ → String → LeaseRevocationReason → Op Json

module _ {Json : Type 0} where
  -- The state after a call, whatever it answers.
  unfoldable pub apply : Broker Json → Op Json → Broker Json
  apply b (registers p) = (register_provider b p).0
  apply b (grants now g) = (grant b now g).0
  apply b (leases now l) = (lease b now l).0
  apply b (revokes now id reason) = revoke b now id reason
  apply b (negotiates now gc lc agent r) = (broker_grant_from_negotiation b now gc lc agent r).0
  apply b (revokes_agent now activation reason) = (revoke_agent_grants b now activation reason).0

  unfoldable pub run : Broker Json → List (Op Json) → Broker Json
  run b [] = b
  run b (o ∷ os) = run (apply b o) os
