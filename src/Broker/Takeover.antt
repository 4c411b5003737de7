-- ===== src/Broker/Takeover.antt =====
-- `revoke_agent_grants` of crates/supervisor/src/broker/agent.rs: human takeover and disconnect.
use dsh_desktop_shell.Prelude.{
  map_values, ℕ, ◌+◌, String, Bool, true, false, not, ◌&&◌, Option, none, some, List, [], ◌∷◌,
  text_discrete, ◌==◌, if◌then◌else◌, does, lookup, remove, modify,
}
use dsh_desktop_shell.Broker.Types.{LeaseRevocationReason, Lease}
use dsh_desktop_shell.Broker.State.{AgentActivationState, Broker, mark_revoked, is_revoked}
use dsh_desktop_shell.Broker.AgentTypes.{states_of, is_current}

-- The agents that hold the activation, each with its generation.
unfoldable pub targets :
    String → List (String × List (String × AgentActivationState)) → List (String × ℕ)
targets activation_id [] = []
targets activation_id ((agent, states) ∷ m) =
    let rest = targets activation_id m in
    elim (lookup text_discrete activation_id states) [
      | none ↦ rest
      | some state ↦ (agent, state.generation) ∷ rest
    ]

abbrev pub is_held : String → ℕ → Lease → Bool
is_held agent generation l =
    does (text_discrete l.owner agent) && (l.generation == generation && not (is_revoked l))

-- The inner loop of `revoke_agent_grants`, and what it counts.
unfoldable pub revoke_held :
    String → ℕ → LeaseRevocationReason → ℕ → List (String × Lease) → List (String × Lease)
revoke_held agent generation reason at =
    map_values text_discrete
      (λ l. if is_held agent generation l then mark_revoked reason at l else l)

unfoldable pub count_held : String → ℕ → List (String × Lease) → ℕ
count_held agent generation [] = 0
count_held agent generation ((k, l) ∷ ls) =
    (if is_held agent generation l then 1 else 0) + count_held agent generation ls

module _ {Json : Type 0} where
  -- One round of the outer loop.
  unfoldable pub revoke_target :
      String → LeaseRevocationReason → ℕ → Broker Json → String × ℕ → Broker Json
  unfolding revoke_held
  revoke_target activation_id reason at b (agent, generation) = record b {
    leases = revoke_held agent generation reason at b.leases;
    agent_activations =
        modify text_discrete agent
          (modify text_discrete activation_id (λ state. record state { revoked = true }))
          b.agent_activations;
    current_activation =
        if is_current (lookup text_discrete agent b.current_activation) activation_id
        then remove text_discrete agent b.current_activation
        else b.current_activation;
  }

  unfoldable pub revoke_targets :
      String → LeaseRevocationReason → ℕ → Broker Json → ℕ → List (String × ℕ) → Broker Json × ℕ
  unfolding revoke_target count_held
  revoke_targets activation_id reason at b revoked [] = (b, revoked)
  revoke_targets activation_id reason at b revoked ((agent, generation) ∷ ts) =
      revoke_targets activation_id reason at
        (revoke_target activation_id reason at b (agent, generation))
        (revoked + count_held agent generation b.leases) ts

  unfoldable pub revoke_agent_grants :
      Broker Json → ℕ → String → LeaseRevocationReason → Broker Json × ℕ
  unfolding revoke_targets targets
  revoke_agent_grants b now activation_id reason =
      revoke_targets activation_id reason now b 0 (targets activation_id b.agent_activations)

  unfoldable pub agent_generation : Broker Json → String → String → Option ℕ
  agent_generation b agent_id activation_id =
      elim (lookup text_discrete activation_id (states_of agent_id b.agent_activations)) [
        | none ↦ none
        | some state ↦ some state.generation
      ]

  unfoldable pub agent_activation_revoked : Broker Json → String → String → Bool
  agent_activation_revoked b agent_id activation_id =
      elim (lookup text_discrete activation_id (states_of agent_id b.agent_activations)) [
        | none ↦ false
        | some state ↦ state.revoked
      ]
