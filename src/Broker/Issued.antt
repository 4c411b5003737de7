-- ===== src/Broker/Issued.antt =====
-- What the loops of a negotiation put into the tables (crates/supervisor/src/broker/agent.rs).

use dsh_desktop_shell.Broker.Invariance.{each-keeps}
use dsh_desktop_shell.Broker.Agent.{lease_all, grant_all, each}
use dsh_desktop_shell.Broker.Types.{Lease, CapabilityId-discrete, BrokerError, CapabilityId}
use dsh_desktop_shell.Broker.AgentTypes.{lease_of, agent_lease_id, grant_of, AgentNegotiationResult}
use dsh_desktop_shell.Broker.State.{lease, grant, Broker}
use dsh_desktop_shell.Prelude.{
  subst, Any, List, lookup-insert, text_discrete, lookup, Result, ℕ, String, suc, ◌≡◌, ok, arith,
  inr, inl, some, ◌∷◌, [],
}

module _ {Json : Type 0} (Q : Broker Json → CapabilityId → Type 0)
    (step : Broker Json → ℕ → CapabilityId → Broker Json × Result BrokerError (Unit {0}))
    (made : (b : Broker Json) (t : ℕ) (c : CapabilityId)
      → (step b t c).1 ≡ ok tt
      → Q (step b t c).0 c)
    (kept : (b : Broker Json) (t : ℕ) (c d : CapabilityId)
      → (step b t c).1 ≡ ok tt
      → Q b d
      → Q (step b t c).0 d) where
  each_done :
      (b : Broker Json) (clock : ℕ → ℕ) (i : ℕ) (c : CapabilityId) (cs : List CapabilityId)
      → (each step b clock i (c ∷ cs)).1 ≡ ok tt
      → ((step b (clock i) c).1 ≡ ok tt)
        × ((each step (step b (clock i) c).0 clock (suc i) cs).1 ≡ ok tt)
  unfolding each
  each_done b clock i c cs done = ground (arith, done)

  each_kept :
      (b : Broker Json) (clock : ℕ → ℕ) (i : ℕ) (cs : List CapabilityId) (d : CapabilityId)
      → (each step b clock i cs).1 ≡ ok tt
      → Q b d
      → Q (each step b clock i cs).0 d
  unfolding each
  each_kept b clock i [] d done h = h
  each_kept b clock i (c ∷ cs) d done h =
      let (first, rest) = each_done b clock i c cs done in
      rw (first, each)
        (each_kept (step b (clock i) c).0 clock (suc i) cs d rest (kept b (clock i) c d first h))

  -- A loop of steps that all succeed makes Q for each capability.
  each_made :
      (b : Broker Json) (clock : ℕ → ℕ) (i : ℕ) (cs : List CapabilityId) (d : CapabilityId)
      → (each step b clock i cs).1 ≡ ok tt
      → Any (λ c. c ≡ d) cs
      → Q (each step b clock i cs).0 d
  unfolding each
  each_made b clock i [] d done m = absurd m
  each_made b clock i (c ∷ cs) d done m =
      let (first, rest) = each_done b clock i c cs done in
      rw (first, each)
        (elim m [
          | inl same ↦
              each_kept (step b (clock i) c).0 clock (suc i) cs d rest
                (subst (λ x. Q (step b (clock i) c).0 x) same (made b (clock i) c first))
          | inr later ↦ each_made (step b (clock i) c).0 clock (suc i) cs d rest later
        ])

module _ {Json : Type 0} (b : Broker Json) (now : ℕ) (l : Lease) where
  lease-grants : (lease b now l).0.grants ≡ b.grants
  unfolding lease
  lease-grants = ground arith

  lease_made :
      (lease b now l).1 ≡ ok tt → lookup text_discrete l.id (lease b now l).0.leases ≡ some l
  unfolding lease
  lease_made e = ground (arith, e, lookup-insert text_discrete l.id l.id l b.leases)

  -- A lease never takes the place of another.
  lease_kept :
      (id : String) (x : Lease)
      → lookup text_discrete id b.leases ≡ some x
      → lookup text_discrete id (lease b now l).0.leases ≡ some x
  unfolding lease
  lease_kept id x h = ground (arith, h, lookup-insert text_discrete l.id id l b.leases)

module _ {Json : Type 0} (agent : String) (r : AgentNegotiationResult) (g now : ℕ) where
  abbrev pub Granted : Broker Json → CapabilityId → Type 0
  Granted b c = lookup CapabilityId-discrete c b.grants ≡ some (grant_of agent r g now c)

  grant_made :
      (b : Broker Json) (t : ℕ) (c : CapabilityId)
      → (grant b t (grant_of agent r g now c)).1 ≡ ok tt
      → Granted (grant b t (grant_of agent r g now c)).0 c
  unfolding grant
  grant_made b t c e =
      ground (arith, lookup-insert CapabilityId-discrete c c (grant_of agent r g now c) b.grants)

  grant_kept :
      (b : Broker Json) (t : ℕ) (c d : CapabilityId)
      → (grant b t (grant_of agent r g now c)).1 ≡ ok tt
      → Granted b d
      → Granted (grant b t (grant_of agent r g now c)).0 d
  unfolding grant
  grant_kept b t c d e h =
      ground (arith, lookup-insert CapabilityId-discrete c d (grant_of agent r g now c) b.grants, h)

  abbrev pub Leased : ℕ → Broker Json → CapabilityId → Type 0
  Leased expires b c =
      lookup text_discrete (agent_lease_id agent r.activation_id c) b.leases
      ≡ some (lease_of agent r g expires c)

  pub lease_all-Leased :
      (expires : ℕ) (b : Broker Json) (clock : ℕ → ℕ) (d : CapabilityId)
      → (lease_all agent r g expires b clock r.granted).1 ≡ ok tt
      → Any (λ c. c ≡ d) r.granted
      → Granted b d
      → Granted (lease_all agent r g expires b clock r.granted).0 d
        × Leased expires (lease_all agent r g expires b clock r.granted).0 d
  unfolding lease_all
  lease_all-Leased expires b clock d done m h = (
    each-keeps (λ b'. Granted b' d) (λ b' t c. lease b' t (lease_of agent r g expires c))
        (λ b' t c h'. cc (lease-grants b' t (lease_of agent r g expires c), h')) b clock 0 r.granted
        h,
    each_made (Leased expires) (λ b' t c. lease b' t (lease_of agent r g expires c))
        (λ b' t c. lease_made b' t (lease_of agent r g expires c))
        (λ b' t c d' e.
          lease_kept b' t (lease_of agent r g expires c) (agent_lease_id agent r.activation_id d')
            (lease_of agent r g expires d'))
        b clock 0 r.granted d done m,
  )

  pub grant_all-Granted :
      (b : Broker Json) (clock : ℕ → ℕ) (d : CapabilityId)
      → (grant_all agent r g now b clock r.granted).1 ≡ ok tt
      → Any (λ c. c ≡ d) r.granted
      → Granted (grant_all agent r g now b clock r.granted).0 d
  unfolding grant_all
  grant_all-Granted b clock d done m =
      each_made Granted (λ b' t c. grant b' t (grant_of agent r g now c)) grant_made grant_kept b
        clock 0 r.granted d done m
