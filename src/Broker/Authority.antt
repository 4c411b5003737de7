-- ===== src/Broker/Authority.antt =====
-- What a takeover takes away, and what a negotiation leaves alone
-- (crates/supervisor/src/broker/agent.rs).
use dsh_desktop_shell.Broker.Invariance.{revoke_targets-keeps}
use dsh_desktop_shell.Broker.Gate.{enforce_dispatch_iff, Admits→is_valid, is_valid}
use dsh_desktop_shell.Broker.AgentTypes.{states_of}
use dsh_desktop_shell.Broker.Types.{Lease, LeaseRevocationReason}
use dsh_desktop_shell.Prelude.{
  refl, [], ◌∙◌, ◌+◌, Any→any, Any-map, true, inr, sym, inl, arith, ◌∷◌, subst, Option-cases, ok,
  ◌≢◌, false, text_discrete, some, any, Any, ◌≡◌, lookup, List, ℕ, String,
}
use dsh_desktop_shell.Broker.Takeover.{
  count_held, is_held, revoke_target, revoke_targets, agent_generation, targets, revoke_held,
  revoke_agent_grants,
}
use dsh_desktop_shell.Broker.State.{
  enforce_dispatch, Query, Broker, is_revoked, AgentActivationState, matches,
}

-- The leases of one owner and generation are all revoked.
abbrev pub Spent : String → ℕ → List (String × Lease) → Type 0
Spent agent g ls = any (λ e. is_held agent g e.1) ls ≡ false

revoke_held-Spent :
    (agent : String) (g : ℕ) (reason : LeaseRevocationReason) (at : ℕ) (ls : List (String × Lease))
    → Spent agent g (revoke_held agent g reason at ls)
unfolding revoke_held is_revoked
revoke_held-Spent agent g reason at [] = refl
revoke_held-Spent agent g reason at ((k, l) ∷ ls) =
    ground (arith, revoke_held-Spent agent g reason at ls)

pub revoke_held-keeps_Spent :
    (agent owner : String) (g n : ℕ) (reason : LeaseRevocationReason) (at : ℕ)
    (ls : List (String × Lease))
    → Spent agent g ls
    → Spent agent g (revoke_held owner n reason at ls)
unfolding revoke_held is_revoked
revoke_held-keeps_Spent agent owner g n reason at [] h = refl
revoke_held-keeps_Spent agent owner g n reason at ((k, l) ∷ ls) h =
    ground (arith, revoke_held-keeps_Spent agent owner g n reason at ls)

Spent-invalid :
    (q : Query) (ls : List (String × Lease))
    → Spent q.owner q.generation ls
    → any (is_valid q) ls ≡ false
unfolding matches is_revoked
Spent-invalid q [] h = refl
Spent-invalid q ((k, l) ∷ ls) h = ground (arith, Spent-invalid q ls)

module _ {Json : Type 0} (activation : String) (reason : LeaseRevocationReason) (at : ℕ) where
  targets-Spent :
      (agent : String) (g : ℕ) (b : Broker Json) (n : ℕ) (ts : List (String × ℕ))
      → Any (λ t. (t.0 ≡ agent) × (t.1 ≡ g)) ts
      → Spent agent g (revoke_targets activation reason at b n ts).0.leases
  unfolding revoke_targets revoke_target
  targets-Spent agent g b n [] h = elim h [ ]
  targets-Spent agent g b n ((x, m) ∷ ts) (inl (e, f)) =
      revoke_targets-keeps (λ b'. Spent agent g b'.leases) activation reason at
        (λ b' t. revoke_held-keeps_Spent agent t.0 g t.1 reason at b'.leases)
        (revoke_target activation reason at b (x, m)) (n + count_held x m b.leases) ts
        (subst (λ y. Spent y g (revoke_held x m reason at b.leases)) e
          (subst (λ y. Spent x y (revoke_held x m reason at b.leases)) f
            (revoke_held-Spent x m reason at b.leases)))
  targets-Spent agent g b n ((x, m) ∷ ts) (inr r) =
      targets-Spent agent g (revoke_target activation reason at b (x, m))
        (n + count_held x m b.leases) ts r

Any-targets :
    (activation agent : String) (state : AgentActivationState)
    (m : List (String × List (String × AgentActivationState)))
    → lookup text_discrete activation (states_of agent m) ≡ some state
    → Any (λ t. (t.0 ≡ agent) × (t.1 ≡ state.generation)) (targets activation m)
unfolding targets
Any-targets activation agent state [] h = cc
Any-targets activation agent state ((x, states) ∷ m) h =
    ground (arith, Any-targets activation agent state m)

pub takeover-Spent :
    {Json : Type 0} (b : Broker Json) (now : ℕ) (agent activation : String)
    (reason : LeaseRevocationReason) (g : ℕ)
    → agent_generation b agent activation ≡ some g
    → Spent agent g (revoke_agent_grants b now activation reason).0.leases
unfolding revoke_agent_grants agent_generation
takeover-Spent b now agent activation reason g h =
    elim (Option-cases (lookup text_discrete activation (states_of agent b.agent_activations))) [
      | inl e ↦ absurd (ground (arith, e))
      | inr (state, e) ↦
          targets-Spent activation reason now agent g b 0 (targets activation b.agent_activations) (
            Any-map (λ t p. (p.0, p.1 ∙ ground (arith, e))) (targets activation b.agent_activations)
              (Any-targets activation agent state b.agent_activations e))
    ]

-- Leases that are spent let no query of their owner and generation pass.
pub enforce_dispatch-Spent :
    {Json : Type 0} (b : Broker Json) (agent : String) (g : ℕ) (q : Query)
    → q.owner ≡ agent
    → q.generation ≡ g
    → Spent agent g b.leases
    → enforce_dispatch b q ≢ ok tt
enforce_dispatch-Spent b agent g q o n h passed =
    let spent : Spent q.owner q.generation b.leases =
      subst (λ x. Spent x q.generation b.leases) (sym o)
        (subst (λ x. Spent agent x b.leases) (sym n) h) in
    let valid : any (is_valid q) b.leases ≡ true = Any→any (is_valid q) b.leases (
      Any-map (λ x. Admits→is_valid q x.0 x.1) b.leases
        ((enforce_dispatch_iff b q).0 passed).leased) in
    cc (valid, Spent-invalid q b.leases spent)

-- After a takeover or a disconnect of an activation that an agent holds, the gate refuses every
-- dispatch of that agent at the activation's generation: whatever the capability, the scope and
-- the time.
pub enforce_dispatch-revoke_agent_grants :
    {Json : Type 0} (b : Broker Json) (now : ℕ) (agent activation : String)
    (reason : LeaseRevocationReason) (g : ℕ) (q : Query)
    → agent_generation b agent activation ≡ some g
    → q.owner ≡ agent
    → q.generation ≡ g
    → enforce_dispatch (revoke_agent_grants b now activation reason).0 q ≢ ok tt
enforce_dispatch-revoke_agent_grants b now agent activation reason g q h o n =
    enforce_dispatch-Spent (revoke_agent_grants b now activation reason).0 agent g q o n
      (takeover-Spent b now agent activation reason g h)
