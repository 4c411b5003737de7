-- ===== src/Broker/AgentTypes.antt =====
-- The data of the agent authorization bridge and its checks that touch no state
-- (crates/supervisor/src/broker/agent.rs).
use Prim.Native.Char.{code}
use Prim.Native.String.{◌++◌ as str_append}
use dsh_desktop_shell.Prelude.{
  u64_max, ℕ, ◌+◌, ◌*◌, String, Bool, true, false, not, Option, none, some, List, [], text_discrete,
  leb, ◌==◌, if◌then◌else◌, does, is_empty, lookup, Result, ok, ◌>>=◌, ◌>>◌, guard, or_fail,
}
use dsh_desktop_shell.Broker.State.{AgentActivationState}
use dsh_desktop_shell.Broker.Types.{CapabilityId, Scope, CapabilityGrant, Lease, BrokerError}

pub data AgentConformanceState : Type 0 where
  known absent unknown : AgentConformanceState

pub record AgentLeaseConstraints : Type 0 where
  pub max_seconds : ℕ
  pub approval_required : Option Bool

pub record AgentNegotiationResult : Type 0 where
  pub activation_id : String
  pub agreed : Bool
  pub granted : List CapabilityId
  pub conformance : AgentConformanceState
  pub lease_constraints : Option AgentLeaseConstraints
  pub scope : Scope

pub record AgentGrant : Type 0 where
  pub agent_id : String
  pub activation_id : String
  pub generation : ℕ
  pub capabilities : List CapabilityId
  pub scope : Scope
  pub lease_constraints : Option AgentLeaseConstraints
  pub expires_at_unix_ms : ℕ
  pub granted_at_unix_ms : ℕ

pub data AgentBridgeError : Type 0 where
  not_negotiated nothing_granted no_lease_policy conformance_not_known : AgentBridgeError
  activation_revoked stale_activation : AgentBridgeError
  broker : BrokerError → AgentBridgeError

abbrev pub saturating_add : ℕ → ℕ → ℕ
saturating_add a b = if leb (a + b) u64_max then a + b else u64_max

abbrev pub saturating_mul : ℕ → ℕ → ℕ
saturating_mul a b = if leb (a * b) u64_max then a * b else u64_max

-- `rsplit('/').next()`: what follows the last slash, or all of the text.
pub contract_version_from : String → String → String
contract_version_from kept String.[] = kept
contract_version_from kept (String.◌∷◌ c s) =
    contract_version_from (if code c == b'/' then s else kept) s

unfoldable pub contract_version : String → String
unfolding contract_version_from
contract_version s = contract_version_from s s

unfoldable pub agent_lease_id : String → String → CapabilityId → String
agent_lease_id agent_id activation_id c = str_append "agent-" (
    str_append agent_id (
      str_append "-" (
        str_append activation_id
          (str_append "-" (str_append c.api_version (str_append "-" c.kind))))))

-- The checks that come before any state: agreement, conformance, capabilities, lease policy.
unfoldable pub admit : AgentNegotiationResult → Result AgentBridgeError AgentLeaseConstraints
admit r = do
  guard r.agreed not_negotiated
  guard (elim r.conformance [ known ↦ true | absent ↦ false | unknown ↦ false ])
      conformance_not_known
  guard (not (is_empty r.granted)) nothing_granted
  constraints ← or_fail r.lease_constraints no_lease_policy
  guard (not (constraints.max_seconds == 0)) no_lease_policy
  ok constraints

abbrev pub grant_of : String → AgentNegotiationResult → ℕ → ℕ → CapabilityId → CapabilityGrant
grant_of agent_id r generation now c = record {
  capability_id = c;
  version = contract_version c.api_version;
  scope = r.scope;
  owner = agent_id;
  generation = generation;
  created_at_unix_ms = now;
}

abbrev pub lease_of : String → AgentNegotiationResult → ℕ → ℕ → CapabilityId → Lease
lease_of agent_id r generation expires c = record {
  id = agent_lease_id agent_id r.activation_id c;
  capability_id = c;
  owner = agent_id;
  generation = generation;
  scope = r.scope;
  expires_at_unix_ms = expires;
  revoked = none;
}

abbrev pub states_of :
    String
    → List (String × List (String × AgentActivationState))
    → List (String × AgentActivationState)
states_of agent_id m = elim (lookup text_discrete agent_id m) [ none ↦ [] | some s ↦ s ]

abbrev pub counter_of : String → List (String × ℕ) → ℕ
counter_of agent_id m = elim (lookup text_discrete agent_id m) [ none ↦ 0 | some n ↦ n ]

abbrev pub is_current : Option String → String → Bool
is_current none activation_id = false
is_current (some current) activation_id = does (text_discrete current activation_id)
