-- ===== src/Broker/Replay.antt =====
-- The replay of an activation (crates/supervisor/src/broker/agent.rs).
use dsh_desktop_shell.Broker.Invariance.{revoke_targets-keeps, negotiation-keeps, Kept}
use dsh_desktop_shell.Broker.Ops.{
  revokes_agent, negotiates, revokes, leases, grants, registers, run, apply, Op,
}
use dsh_desktop_shell.Broker.AgentTypes.{
  counter_of, states_of, grant_of, broker, activation_revoked, admit, AgentLeaseConstraints,
  AgentNegotiationResult,
}
use dsh_desktop_shell.Broker.Types.{
  LeaseRevocationReason, conflict, CapabilityId, CapabilityId-discrete, CapabilityGrant,
}
use dsh_desktop_shell.Broker.Takeover.{
  targets, revoke_agent_grants, revoke_target, agent_activation_revoked,
}
use dsh_desktop_shell.Broker.State.{
  revoke, register_provider, lease, AgentActivationState, Broker, grant,
}
use dsh_desktop_shell.Broker.Agent.{
  register, each, grant_all, activation_generation, issue_grants, broker_grant_from_negotiation,
}
use dsh_desktop_shell.Prelude.{
  modify, lookup-modify, u64_suc, insert, lookup-insert, none, [], text_discrete, Option-cases,
  List, ◌≢◌, lookup, String, ℕ, ◌≡◌, err, ok, arith, false, true, inr, inl, some, ◌∷◌,
}

-- How an activation is marked as revoked.
abbrev mark : AgentActivationState → AgentActivationState
mark state = record state { revoked = true }

module _ {Json : Type 0} (agent id : String) where
  abbrev pub StaysRevoked : Broker Json → Type 0
  StaysRevoked b = agent_activation_revoked b agent id ≡ true

  register-StaysRevoked :
      (b : Broker Json) (other activation : String)
      → lookup text_discrete activation (states_of other b.agent_activations) ≡ none
      → StaysRevoked b
      → StaysRevoked (register b other activation)
  unfolding register agent_activation_revoked
  register-StaysRevoked b other activation e h = ground (
    arith,
    e,
    h,
    lookup-insert text_discrete other agent
        (insert text_discrete activation
          (record { generation = u64_suc (counter_of other b.next_generation); revoked = false })
          (states_of other b.agent_activations))
        b.agent_activations,
    lookup-insert text_discrete activation id
        (record { generation = u64_suc (counter_of other b.next_generation); revoked = false })
        (states_of other b.agent_activations),
  )

  revoke_target-StaysRevoked :
      (activation : String) (reason : LeaseRevocationReason) (at : ℕ) (b : Broker Json)
      (t : String × ℕ)
      → StaysRevoked b
      → StaysRevoked (revoke_target activation reason at b t)
  unfolding revoke_target agent_activation_revoked
  revoke_target-StaysRevoked activation reason at b (other, g) h =
      elim (Option-cases (lookup text_discrete agent b.agent_activations)) [
        | inl e ↦ absurd (ground (arith, e, h))
        | inr (states, e) ↦ elim (Option-cases (lookup text_discrete id states)) [
          | inl f ↦ absurd (ground (arith, e, f, h))
          | inr (state, f) ↦ ground (
            arith,
            e,
            f,
            h,
            lookup-modify text_discrete other agent (modify text_discrete activation mark)
                b.agent_activations,
            lookup-modify text_discrete activation id mark states,
          )
        ]
      ]

  bridge-Kept : Kept StaysRevoked
  unfolding grant lease agent_activation_revoked
  bridge-Kept = record {
    registers = register-StaysRevoked;
    grants = λ b now g h. ground (arith, h);
    leases = λ b now l h. ground (arith, h);
  }

  apply-StaysRevoked : (b : Broker Json) (o : Op Json) → StaysRevoked b → StaysRevoked (apply b o)
  unfolding apply register_provider revoke revoke_agent_grants agent_activation_revoked
  apply-StaysRevoked b (registers p) h = ground (arith, h)
  apply-StaysRevoked b (grants now g) h = bridge-Kept.grants b now g h
  apply-StaysRevoked b (leases now l) h = bridge-Kept.leases b now l h
  apply-StaysRevoked b (revokes now k reason) h = h
  apply-StaysRevoked b (negotiates now gc lc other n) h =
      negotiation-keeps StaysRevoked bridge-Kept b now gc lc other n h
  apply-StaysRevoked b (revokes_agent now activation reason) h =
      revoke_targets-keeps StaysRevoked activation reason now
        (revoke_target-StaysRevoked activation reason now) b 0
        (targets activation b.agent_activations) h

  run-StaysRevoked :
      (b : Broker Json) (os : List (Op Json)) → StaysRevoked b → StaysRevoked (run b os)
  unfolding run
  run-StaysRevoked b [] h = h
  run-StaysRevoked b (o ∷ os) h = run-StaysRevoked (apply b o) os (apply-StaysRevoked b o h)

-- A negotiation result of a revoked activation.
refused_once :
    {Json : Type 0} (b : Broker Json) (now : ℕ) (grant_clock lease_clock : ℕ → ℕ) (agent : String)
    (r : AgentNegotiationResult) (c : AgentLeaseConstraints)
    → admit r ≡ ok c
    → agent_activation_revoked b agent r.activation_id ≡ true
    → broker_grant_from_negotiation b now grant_clock lease_clock agent r
      ≡ (b, err activation_revoked)
unfolding broker_grant_from_negotiation activation_generation agent_activation_revoked
refused_once b now gc lc agent r c a h =
    elim (Option-cases
      (lookup text_discrete r.activation_id (states_of agent b.agent_activations))) [
        | inl e ↦ absurd (ground (arith, e))
        | inr (state, e) ↦ ground (arith, e)
      ]

-- Once an activation is revoked its negotiation results are refused for good: after every history of
-- broker calls, grants, leases, revocations, negotiations and takeovers, a result of it that is
-- admissible is answered with the activation's revocation and changes nothing.
pub negotiation_revoked :
    {Json : Type 0} (b : Broker Json) (os : List (Op Json)) (now : ℕ)
    (grant_clock lease_clock : ℕ → ℕ) (agent : String) (r : AgentNegotiationResult)
    (c : AgentLeaseConstraints)
    → admit r ≡ ok c
    → agent_activation_revoked b agent r.activation_id ≡ true
    → broker_grant_from_negotiation (run b os) now grant_clock lease_clock agent r
      ≡ (run b os, err activation_revoked)
negotiation_revoked b os now gc lc agent r c a h =
    refused_once (run b os) now gc lc agent r c a (run-StaysRevoked agent r.activation_id b os h)

grant_late :
    {Json : Type 0} (b : Broker Json) (t : ℕ) (g existing : CapabilityGrant)
    → lookup CapabilityId-discrete g.capability_id b.grants ≡ some existing
    → existing.generation ≡ g.generation
    → existing.created_at_unix_ms ≢ g.created_at_unix_ms
    → grant b t g ≡ (b, err conflict)
unfolding grant
grant_late b t g existing held gen late = ground (arith, held)

issue_grants_late :
    {Json : Type 0} (b : Broker Json) (now : ℕ) (grant_clock lease_clock : ℕ → ℕ) (agent : String)
    (r : AgentNegotiationResult) (k : AgentLeaseConstraints) (c : CapabilityId)
    (cs : List CapabilityId) (g : ℕ) (existing : CapabilityGrant)
    → r.granted ≡ c ∷ cs
    → lookup CapabilityId-discrete c b.grants ≡ some existing
    → existing.generation ≡ g
    → existing.created_at_unix_ms ≢ now
    → issue_grants agent r k g now b grant_clock lease_clock ≡ (b, err (broker conflict))
unfolding issue_grants grant_all each
issue_grants_late b now gc lc agent r k c cs g existing gs held gen late =
    ground (arith, gs, grant_late b (gc 0) (grant_of agent r g now c) existing held gen late)

-- The replay of the current activation is refused with a conflict, and changes nothing, whenever
-- its first capability is granted at the activation's generation and the clock no longer shows
-- the grant's creation time.
pub negotiation_replayed_later :
    {Json : Type 0} (b : Broker Json) (now : ℕ) (grant_clock lease_clock : ℕ → ℕ) (agent : String)
    (r : AgentNegotiationResult) (k : AgentLeaseConstraints) (c : CapabilityId)
    (cs : List CapabilityId) (state : AgentActivationState) (existing : CapabilityGrant)
    → admit r ≡ ok k
    → r.granted ≡ c ∷ cs
    → lookup text_discrete r.activation_id (states_of agent b.agent_activations) ≡ some state
    → state.revoked ≡ false
    → lookup text_discrete agent b.current_activation ≡ some r.activation_id
    → lookup CapabilityId-discrete c b.grants ≡ some existing
    → existing.generation ≡ state.generation
    → existing.created_at_unix_ms ≢ now
    → broker_grant_from_negotiation b now grant_clock lease_clock agent r
      ≡ (b, err (broker conflict))
unfolding broker_grant_from_negotiation activation_generation
negotiation_replayed_later b now gc lc agent r k c cs state existing a gs e live cur held gen late =
    ground (
      arith,
      issue_grants_late b now gc lc agent r k c cs state.generation existing gs held gen late,
    )
