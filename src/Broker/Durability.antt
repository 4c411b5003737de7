-- ===== src/Broker/Durability.antt =====
-- A revocation is for good: no call of the broker withdraws or overwrites one
-- (crates/supervisor/src/broker.rs, broker/agent.rs).
use dsh_desktop_shell.Broker.Invariance.{revoke_targets-keeps, negotiation-keeps, Kept}
use dsh_desktop_shell.Prelude.{
  lookup-map_values, map_values, ℕ, String, ◌≡◌, inl, inr, ite, Option, none, some, List, [], ◌∷◌,
  arith, text_discrete, if◌then◌else◌, Option-cases, lookup, lookup-insert, lookup-modify,
}
use dsh_desktop_shell.Broker.Types.{
  LeaseRevocationReason, generation_change, LeaseRevocation, CapabilityGrant, Lease,
  CapabilityId-discrete,
}
use dsh_desktop_shell.Broker.State.{
  Broker, mark_revoked, revoke_for_capability, register_provider, grant, lease, revoke,
}
use dsh_desktop_shell.Broker.Agent.{register}
use dsh_desktop_shell.Broker.Takeover.{
  is_held, revoke_held, revoke_target, revoke_agent_grants, targets,
}
use dsh_desktop_shell.Broker.Ops.{
  Op, registers, grants, leases, revokes, negotiates, revokes_agent, apply, run,
}

abbrev pub Table : Type 0
Table = List (String × Lease)

-- The revocation record of the lease `id`, if it is there and has one.
abbrev pub revocation : String → Table → Option LeaseRevocation
revocation id ls = elim (lookup text_discrete id ls) [ none ↦ none | some l ↦ l.revoked ]

-- A pass over the table that rewrites no revocation record.
abbrev Keeps : (Lease → Lease) → Type 0
Keeps f = (l : Lease) (r : LeaseRevocation) → l.revoked ≡ some r → (f l).revoked ≡ some r

revocation-map_values :
    (f : Lease → Lease) (id : String) (r : LeaseRevocation) (ls : Table)
    → Keeps f
    → revocation id ls ≡ some r
    → revocation id (map_values text_discrete f ls) ≡ some r
revocation-map_values f id r ls keep h = elim (Option-cases (lookup text_discrete id ls)) [
  | inl e ↦ ground (arith, e)
  | inr (l, e) ↦ ground (arith, e, lookup-map_values text_discrete id f ls, keep l r)
]

module _ (id : String) (r : LeaseRevocation) {Json : Type 0} where
  abbrev pub Holds : Broker Json → Type 0
  Holds b = revocation id b.leases ≡ some r

  grant-Holds :
      (b : Broker Json) (now : ℕ) (g : CapabilityGrant) → Holds b → Holds (grant b now g).0
  unfolding grant revoke_for_capability
  grant-Holds b now g h = ground (
    arith,
    revocation-map_values
        (λ l.
          ite (CapabilityId-discrete l.capability_id g.capability_id)
            (mark_revoked generation_change now l) l)
        id r b.leases (λ l r' e. ground arith) h,
  )

  lease-Holds : (b : Broker Json) (now : ℕ) (l : Lease) → Holds b → Holds (lease b now l).0
  unfolding lease
  lease-Holds b now l h = ground (arith, lookup-insert text_discrete l.id id l b.leases)

  revoke-Holds :
      (b : Broker Json) (now : ℕ) (k : String) (reason : LeaseRevocationReason)
      → Holds b
      → Holds (revoke b now k reason)
  unfolding revoke
  revoke-Holds b now k reason h =
      ground (arith, lookup-modify text_discrete k id (mark_revoked reason now) b.leases)

  revoke_target-Holds :
      (activation : String) (reason : LeaseRevocationReason) (at : ℕ) (b : Broker Json)
      (t : String × ℕ)
      → Holds b
      → Holds (revoke_target activation reason at b t)
  unfolding revoke_target revoke_held
  revoke_target-Holds activation reason at b (agent, g) h =
      revocation-map_values (λ l. if is_held agent g l then mark_revoked reason at l else l) id r
        b.leases (λ l r' e. ground arith) h

  bridge-Kept : Kept Holds
  unfolding register
  bridge-Kept = record {
    registers = λ b agent activation e h. h;
    grants = grant-Holds;
    leases = lease-Holds;
  }

  apply-Holds : (b : Broker Json) (o : Op Json) → Holds b → Holds (apply b o)
  unfolding apply register_provider revoke_agent_grants
  apply-Holds b (registers p) h = ground arith
  apply-Holds b (grants now g) h = grant-Holds b now g h
  apply-Holds b (leases now l) h = lease-Holds b now l h
  apply-Holds b (revokes now k reason) h = revoke-Holds b now k reason h
  apply-Holds b (negotiates now gc lc agent n) h =
      negotiation-keeps Holds bridge-Kept b now gc lc agent n h
  apply-Holds b (revokes_agent now activation reason) h =
      revoke_targets-keeps Holds activation reason now (revoke_target-Holds activation reason now) b
        0 (targets activation b.agent_activations) h

  -- A lease that is revoked keeps its first revocation record, reason and time, through every
  -- history of broker calls: grants, leases, revocations, negotiations and takeovers.
  pub revocation-run :
      (b : Broker Json) (os : List (Op Json))
      → revocation id b.leases ≡ some r
      → revocation id (run b os).leases ≡ some r
  unfolding run
  revocation-run b [] h = h
  revocation-run b (o ∷ os) h = revocation-run (apply b o) os (apply-Holds b o h)
