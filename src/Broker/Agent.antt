-- ===== src/Broker/Agent.antt =====
-- The agent authorization bridge (crates/supervisor/src/broker/agent.rs): a negotiation result
-- becomes grants and leases of the broker.
use dsh_desktop_shell.Prelude.{
  u64_suc, ℕ, suc, String, false, none, some, List, [], ◌∷◌, text_discrete, if◌then◌else◌, lookup,
  insert, Result, ok, err,
}
use dsh_desktop_shell.Broker.Types.{CapabilityId, BrokerError}
use dsh_desktop_shell.Broker.State.{Broker, grant, lease}
use dsh_desktop_shell.Broker.AgentTypes.{
  AgentLeaseConstraints, AgentNegotiationResult, AgentGrant, AgentBridgeError, activation_revoked,
  stale_activation, broker, saturating_add, saturating_mul, admit, grant_of, lease_of, states_of,
  counter_of, is_current,
}

module _ {Json : Type 0} where
  -- A new activation: the next generation of its agent, and current.
  unfoldable pub register : Broker Json → String → String → Broker Json
  register b agent_id activation_id =
      let counter = u64_suc (counter_of agent_id b.next_generation) in
      record b {
        agent_activations =
            insert text_discrete agent_id
              (insert text_discrete activation_id (record { generation = counter; revoked = false })
                (states_of agent_id b.agent_activations))
              b.agent_activations;
        current_activation = insert text_discrete agent_id activation_id b.current_activation;
        next_generation = insert text_discrete agent_id counter b.next_generation;
      }

  -- The generation that an activation id gets, with the registers after it.
  unfoldable pub activation_generation :
      Broker Json → String → String → Broker Json × Result AgentBridgeError ℕ
  activation_generation b agent_id activation_id =
      elim (lookup text_discrete activation_id (states_of agent_id b.agent_activations)) [
        | some state ↦
            if state.revoked
            then (b, err activation_revoked)
            else if is_current (lookup text_discrete agent_id b.current_activation) activation_id
            then (b, ok state.generation)
            else (b, err stale_activation)
        | none ↦ (
          register b agent_id activation_id,
          ok (u64_suc (counter_of agent_id b.next_generation)),
        )
      ]

  -- A loop of fallible steps over the capabilities; `clock i` is the time of step i.
  unfoldable pub each :
      (Broker Json → ℕ → CapabilityId → Broker Json × Result BrokerError (Unit {0}))
      → Broker Json
      → (ℕ → ℕ)
      → ℕ
      → List CapabilityId
      → Broker Json × Result BrokerError (Unit {0})
  each step b clock i [] = (b, ok tt)
  each step b clock i (c ∷ cs) =
      let (b', r) = step b (clock i) c in
      elim r [ ok u ↦ each step b' clock (suc i) cs | err e ↦ (b', err e) ]

  unfoldable pub grant_all :
      String
      → AgentNegotiationResult
      → ℕ
      → ℕ
      → Broker Json
      → (ℕ → ℕ)
      → List CapabilityId
      → Broker Json × Result BrokerError (Unit {0})
  unfolding each
  grant_all agent_id r generation now b clock cs =
      each (λ b' t c. grant b' t (grant_of agent_id r generation now c)) b clock 0 cs

  unfoldable pub lease_all :
      String
      → AgentNegotiationResult
      → ℕ
      → ℕ
      → Broker Json
      → (ℕ → ℕ)
      → List CapabilityId
      → Broker Json × Result BrokerError (Unit {0})
  unfolding each
  lease_all agent_id r generation expires b clock cs =
      each (λ b' t c. lease b' t (lease_of agent_id r generation expires c)) b clock 0 cs

  -- From the lease loop to the end of `broker_grant_from_negotiation`.
  unfoldable pub issue_leases :
      String
      → AgentNegotiationResult
      → AgentLeaseConstraints
      → ℕ
      → ℕ
      → Broker Json
      → (ℕ → ℕ)
      → Broker Json × Result AgentBridgeError AgentGrant
  issue_leases agent_id r constraints generation now b lease_clock =
      let expires = saturating_add now (saturating_mul constraints.max_seconds 1000) in
      let (b', leases) = lease_all agent_id r generation expires b lease_clock r.granted in
      elim leases [
        | err e ↦ (b', err (broker e))
        | ok u ↦ (
          b',
          ok (record {
            agent_id = agent_id;
            activation_id = r.activation_id;
            generation = generation;
            capabilities = r.granted;
            scope = r.scope;
            lease_constraints = some constraints;
            expires_at_unix_ms = expires;
            granted_at_unix_ms = now;
          }),
        )
      ]

  -- From the grant loop on.
  unfoldable pub issue_grants :
      String
      → AgentNegotiationResult
      → AgentLeaseConstraints
      → ℕ
      → ℕ
      → Broker Json
      → (ℕ → ℕ)
      → (ℕ → ℕ)
      → Broker Json × Result AgentBridgeError AgentGrant
  issue_grants agent_id r constraints generation now b grant_clock lease_clock =
      let (b', grants) = grant_all agent_id r generation now b grant_clock r.granted in
      elim grants [
        | err e ↦ (b', err (broker e))
        | ok u ↦ issue_leases agent_id r constraints generation now b' lease_clock
      ]

  -- The clock is read first as `now`, then in the grants and in the leases.
  unfoldable pub broker_grant_from_negotiation :
      Broker Json
      → ℕ
      → (ℕ → ℕ)
      → (ℕ → ℕ)
      → String
      → AgentNegotiationResult
      → Broker Json × Result AgentBridgeError AgentGrant
  broker_grant_from_negotiation b now grant_clock lease_clock agent_id r = elim (admit r) [
    | err e ↦ (b, err e)
    | ok constraints ↦
        let (b', issued) = activation_generation b agent_id r.activation_id in
        elim issued [
          | err e ↦ (b', err e)
          | ok generation ↦
              issue_grants agent_id r constraints generation now b' grant_clock lease_clock
        ]
  ]
