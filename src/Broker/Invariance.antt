-- ===== src/Broker/Invariance.antt =====
-- A rule for the composed calls of crates/supervisor/src/broker/agent.rs: what each primitive step
-- keeps, `broker_grant_from_negotiation` and `revoke_agent_grants` keep.
use dsh_desktop_shell.Broker.Takeover.{count_held, revoke_target, revoke_targets}
use dsh_desktop_shell.Broker.AgentTypes.{
  states_of, lease_of, saturating_mul, saturating_add, grant_of, admit, AgentLeaseConstraints,
  AgentNegotiationResult,
}
use dsh_desktop_shell.Prelude.{
  none, ◌≡◌, text_discrete, lookup, Option-cases, Result-cases, ◌+◌, arith, String, ℕ, suc, inl,
  inr, List, [], ◌∷◌, Result,
}
use dsh_desktop_shell.Broker.Types.{
  Lease, CapabilityGrant, LeaseRevocationReason, CapabilityId, BrokerError,
}
use dsh_desktop_shell.Broker.State.{lease, grant, Broker}
use dsh_desktop_shell.Broker.Agent.{
  register, lease_all, grant_all, issue_leases, issue_grants, broker_grant_from_negotiation,
  activation_generation, each,
}

module _ {Json : Type 0} (P : Broker Json → Type 0) where
  pub each-keeps :
      (step : Broker Json → ℕ → CapabilityId → Broker Json × Result BrokerError (Unit {0}))
      → ((b : Broker Json) (t : ℕ) (c : CapabilityId) → P b → P (step b t c).0)
      → (b : Broker Json) (clock : ℕ → ℕ) (i : ℕ) (cs : List CapabilityId) → P b
      → P (each step b clock i cs).0
  unfolding each
  each-keeps step keep b clock i [] h = h
  each-keeps step keep b clock i (c ∷ cs) h = elim (Result-cases (step b (clock i) c).1) [
    | inl (u, e) ↦
        rw (e, each)
          (each-keeps step keep (step b (clock i) c).0 clock (suc i) cs (keep b (clock i) c h))
    | inr (x, e) ↦ rw (e, each) (keep b (clock i) c h)
  ]

module _ {Json : Type 0} (P : Broker Json → Type 0) where
  -- What every step of the bridge has to keep; only an activation that is not known is registered.
  pub record Kept : Type 0 where
    pub registers :
        (b : Broker Json) (agent activation : String)
        → lookup text_discrete activation (states_of agent b.agent_activations) ≡ none
        → P b
        → P (register b agent activation)
    pub grants : (b : Broker Json) (now : ℕ) (g : CapabilityGrant) → P b → P (grant b now g).0
    pub leases : (b : Broker Json) (now : ℕ) (l : Lease) → P b → P (lease b now l).0

module _ {Json : Type 0} (P : Broker Json → Type 0) (k : Kept P) where
  pub activation_generation-keeps :
      (b : Broker Json) (agent activation : String)
      → P b
      → P (activation_generation b agent activation).0
  unfolding activation_generation
  activation_generation-keeps b agent activation h =
      elim (Option-cases (lookup text_discrete activation (states_of agent b.agent_activations))) [
        | inl e ↦ rw (e, activation_generation) (k.registers b agent activation e h)
        | inr (state, e) ↦ ground (arith, e, h)
      ]

  issue_leases-keeps :
      (agent : String) (r : AgentNegotiationResult) (c : AgentLeaseConstraints) (g now : ℕ)
      (b : Broker Json) (clock : ℕ → ℕ)
      → P b
      → P (issue_leases agent r c g now b clock).0
  unfolding issue_leases lease_all
  issue_leases-keeps agent r c g now b clock h =
      let expires = saturating_add now (saturating_mul c.max_seconds 1000) in
      let loop = lease_all agent r g expires b clock r.granted in
      let kept : P loop.0 =
        each-keeps P (λ b' t x. lease b' t (lease_of agent r g expires x))
          (λ b' t x. k.leases b' t (lease_of agent r g expires x)) b clock 0 r.granted h in
      elim (Result-cases loop.1) [
        | inl (u, e) ↦ rw (e, issue_leases) kept
        | inr (x, e) ↦ rw (e, issue_leases) kept
      ]

  issue_grants-keeps :
      (agent : String) (r : AgentNegotiationResult) (c : AgentLeaseConstraints) (g now : ℕ)
      (b : Broker Json) (grant_clock lease_clock : ℕ → ℕ)
      → P b
      → P (issue_grants agent r c g now b grant_clock lease_clock).0
  unfolding issue_grants grant_all
  issue_grants-keeps agent r c g now b gc lc h =
      let loop = grant_all agent r g now b gc r.granted in
      let kept : P loop.0 =
        each-keeps P (λ b' t x. grant b' t (grant_of agent r g now x))
          (λ b' t x. k.grants b' t (grant_of agent r g now x)) b gc 0 r.granted h in
      elim (Result-cases loop.1) [
        | inl (u, e) ↦ rw (e, issue_grants) (issue_leases-keeps agent r c g now loop.0 lc kept)
        | inr (x, e) ↦ rw (e, issue_grants) kept
      ]

  pub negotiation-keeps :
      (b : Broker Json) (now : ℕ) (grant_clock lease_clock : ℕ → ℕ) (agent : String)
      (r : AgentNegotiationResult)
      → P b
      → P (broker_grant_from_negotiation b now grant_clock lease_clock agent r).0
  unfolding broker_grant_from_negotiation
  negotiation-keeps b now gc lc agent r h = elim (Result-cases (admit r)) [
    | inr (x, e) ↦ rw (e, broker_grant_from_negotiation) h
    | inl (c, e) ↦
        let issued = activation_generation b agent r.activation_id in
        let kept : P issued.0 = activation_generation-keeps b agent r.activation_id h in
        rw (e, broker_grant_from_negotiation)
          (elim (Result-cases issued.1) [
            | inr (x, f) ↦ rw (f, broker_grant_from_negotiation) kept
            | inl (g, f) ↦
                rw (f, broker_grant_from_negotiation)
                  (issue_grants-keeps agent r c g now issued.0 gc lc kept)
          ])
  ]

module _ {Json : Type 0} (P : Broker Json → Type 0) (activation : String)
    (reason : LeaseRevocationReason) (at : ℕ) where
  pub revoke_targets-keeps :
      ((b : Broker Json) (t : String × ℕ) → P b → P (revoke_target activation reason at b t))
      → (b : Broker Json) (n : ℕ) (ts : List (String × ℕ)) → P b
      → P (revoke_targets activation reason at b n ts).0
  unfolding revoke_targets
  revoke_targets-keeps keep b n [] h = h
  revoke_targets-keeps keep b n ((agent, g) ∷ ts) h =
      revoke_targets-keeps keep (revoke_target activation reason at b (agent, g))
        (n + count_held agent g b.leases) ts (keep b (agent, g) h)
