-- ===== src/Broker/Negotiated.antt =====
-- What an agent can do after a negotiation (crates/supervisor/src/broker/agent.rs).
use dsh_desktop_shell.Broker.Issued.{lease_all-Leased, Leased, grant_all-Granted, Granted}
use dsh_desktop_shell.Broker.Gate.{enforce_dispatch_iff, Admits, Authorised}
use dsh_desktop_shell.Broker.Scope.{contains, covers}
use dsh_desktop_shell.Broker.Agent.{
  activation_generation, issue_leases, issue_grants, broker_grant_from_negotiation, lease_all,
  grant_all,
}
use dsh_desktop_shell.Broker.Types.{Scope, Lease, CapabilityId}
use dsh_desktop_shell.Broker.AgentTypes.{
  saturating_mul, saturating_add, admit, AgentLeaseConstraints, AgentGrant, lease_of,
  agent_lease_id, grant_of, AgentNegotiationResult,
}
use dsh_desktop_shell.Broker.State.{enforce_dispatch, Query, Broker}
use dsh_desktop_shell.Prelude.{
  ap, ◌∙◌, Option-cases, ◌<◌, sym, first_or_later, does_iff, all, subst, Result-cases, Any, List,
  text_discrete, lookup, ℕ, String, ◌≡◌, ok, arith, refl, true, inr, inl, some, ◌∷◌, [],
}

contains-head :
    (xs ys : List String)
    → all (contains xs) ys ≡ true
    → (x : String) → all (contains (x ∷ xs)) ys ≡ true
contains-head xs [] h x = refl
contains-head xs (y ∷ ys) h x = ground (arith, contains-head xs ys (ground (arith, h)) x, h)

contains-all : (xs : List String) → all (contains xs) xs ≡ true
contains-all [] = refl
contains-all (x ∷ xs) =
    ground (arith, contains-head xs xs (contains-all xs) x, does_iff (text_discrete x x))

covers_refl : (s : Scope) → covers s s ≡ true
unfolding covers
covers_refl s = ground (arith, contains-all s.domains, contains-all s.resources)

lookup-Any :
    (P : Lease → Type 0) (id : String) (l : Lease) (m : List (String × Lease))
    → lookup text_discrete id m ≡ some l
    → P l
    → Any (λ e. P e.1) m
lookup-Any P id l [] e p = absurd (cc e)
lookup-Any P id l ((k, x) ∷ m) e p = elim (first_or_later text_discrete id k x m e) [
  | inl same ↦ inl (subst P (sym same) p)
  | inr later ↦ inr (lookup-Any P id l m later p)
]

-- What the negotiation asks the gate for.
abbrev pub query_for : String → ℕ → Scope → CapabilityId → ℕ → Query
query_for agent g scope c now = record {
  capability = c;
  owner = agent;
  generation = g;
  scope = scope;
  now = now;
}

lease_passes :
    {Json : Type 0} (agent : String) (r : AgentNegotiationResult) (g now expires : ℕ)
    (b : Broker Json) (c : CapabilityId) (t : ℕ)
    → Granted agent r g now b c
    → Leased agent r g now expires b c
    → t < expires
    → Authorised b (query_for agent g r.scope c t)
lease_passes agent r g now expires b c t granted leased early = record {
  held = grant_of agent r g now c;
  granted = granted;
  same_owner = refl;
  same_generation = refl;
  in_scope = covers_refl r.scope;
  leased =
      lookup-Any (Admits (query_for agent g r.scope c t)) (agent_lease_id agent r.activation_id c)
        (lease_of agent r g expires c) b.leases leased
        (record {
          same_capability = refl;
          same_owner = refl;
          same_generation = refl;
          in_scope = covers_refl r.scope;
          not_revoked = refl;
          not_expired = early;
        });
}

admit-lease_constraints :
    (r : AgentNegotiationResult) (constraints : AgentLeaseConstraints)
    → admit r ≡ ok constraints
    → r.lease_constraints ≡ some constraints
unfolding admit
admit-lease_constraints r constraints e = ground (arith, e, Option-cases r.lease_constraints)

module _ {Json : Type 0} (agent : String) (r : AgentNegotiationResult) where
  issue_leases-Authorised :
      (constraints : AgentLeaseConstraints) (g now : ℕ) (b : Broker Json) (clock : ℕ → ℕ)
      (answer : AgentGrant) (c : CapabilityId) (t : ℕ)
      → (issue_leases agent r constraints g now b clock).1 ≡ ok answer
      → Any (λ x. x ≡ c) r.granted
      → Granted agent r g now b c
      → t < answer.expires_at_unix_ms
      → Authorised
          (issue_leases agent r constraints g now b clock).0
          (query_for agent answer.generation r.scope c t)
  unfolding issue_leases
  issue_leases-Authorised constraints g now b clock answer c t e m h early =
      let expires = saturating_add now (saturating_mul constraints.max_seconds 1000) in
      let loop = lease_all agent r g expires b clock r.granted in
      elim (Result-cases loop.1) [
        | inr (x, f) ↦ absurd (ground (arith, e, f))
        | inl (u, f) ↦
            let named : g ≡ answer.generation = ground (arith, e, f) in
            let bounded : answer.expires_at_unix_ms ≡ expires = ground (arith, e, f) in
            let (granted, leased) = lease_all-Leased agent r g now expires b clock c f m h in
            rw (f, issue_leases)
              (subst (λ n. Authorised loop.0 (query_for agent n r.scope c t)) named
                (lease_passes agent r g now expires loop.0 c t granted leased
                  (subst (λ x. t < x) bounded early)))
      ]

  issue_grants-Authorised :
      (constraints : AgentLeaseConstraints) (g now : ℕ) (b : Broker Json)
      (grant_clock lease_clock : ℕ → ℕ) (answer : AgentGrant) (c : CapabilityId) (t : ℕ)
      → (issue_grants agent r constraints g now b grant_clock lease_clock).1 ≡ ok answer
      → Any (λ x. x ≡ c) r.granted
      → t < answer.expires_at_unix_ms
      → Authorised
          (issue_grants agent r constraints g now b grant_clock lease_clock).0
          (query_for agent answer.generation r.scope c t)
  unfolding issue_grants
  issue_grants-Authorised constraints g now b grant_clock lease_clock answer c t e m early =
      let loop = grant_all agent r g now b grant_clock r.granted in
      elim (Result-cases loop.1) [
        | inl (u, f) ↦
            rw (f, issue_grants)
              (issue_leases-Authorised constraints g now loop.0 lease_clock answer c t
                (ground (arith, e, f)) m (grant_all-Granted agent r g now b grant_clock c f m)
                early)
        | inr (x, f) ↦ absurd (ground (arith, e, f))
      ]

  -- A negotiation that answers with a grant keeps its word: each capability of the result passes the
  -- gate, for this agent at the granted generation and in the result's scope, at every time before
  -- the expiry that the answer names, as long as nothing else happens to the broker.
  pub negotiation_authorises :
      (b : Broker Json) (now : ℕ) (grant_clock lease_clock : ℕ → ℕ) (answer : AgentGrant)
      (c : CapabilityId) (t : ℕ)
      → (broker_grant_from_negotiation b now grant_clock lease_clock agent r).1 ≡ ok answer
      → Any (λ x. x ≡ c) r.granted
      → t < answer.expires_at_unix_ms
      → enforce_dispatch
          (broker_grant_from_negotiation b now grant_clock lease_clock agent r).0
          (query_for agent answer.generation r.scope c t)
        ≡ ok tt
  unfolding broker_grant_from_negotiation
  negotiation_authorises b now grant_clock lease_clock answer c t e m early =
      elim (Result-cases (admit r)) [
        | inr (x, f) ↦ absurd (ground (arith, e, f))
        | inl (constraints, f) ↦
            let issued = activation_generation b agent r.activation_id in
            elim (Result-cases issued.1) [
              | inr (x, i) ↦ absurd (ground (arith, e, f, i))
              | inl (g, i) ↦
                  rw (f, i, broker_grant_from_negotiation)
                    ((enforce_dispatch_iff _ _).1 (
                      issue_grants-Authorised constraints g now issued.0 grant_clock lease_clock
                        answer c t (ground (arith, e, f, i)) m early))
            ]
      ]

  issue_leases-expires :
      (constraints : AgentLeaseConstraints) (g now : ℕ) (b : Broker Json) (clock : ℕ → ℕ)
      (answer : AgentGrant)
      → (issue_leases agent r constraints g now b clock).1 ≡ ok answer
      → answer.expires_at_unix_ms ≡ saturating_add now (saturating_mul constraints.max_seconds 1000)
  unfolding issue_leases
  issue_leases-expires constraints g now b clock answer e =
      let expires = saturating_add now (saturating_mul constraints.max_seconds 1000) in
      elim (Result-cases (lease_all agent r g expires b clock r.granted).1) [
        | inr (x, f) ↦ absurd (ground (arith, e, f))
        | inl (u, f) ↦ ground (arith, e, f)
      ]

  issue_grants-expires :
      (constraints : AgentLeaseConstraints) (g now : ℕ) (b : Broker Json)
      (grant_clock lease_clock : ℕ → ℕ) (answer : AgentGrant)
      → (issue_grants agent r constraints g now b grant_clock lease_clock).1 ≡ ok answer
      → answer.expires_at_unix_ms ≡ saturating_add now (saturating_mul constraints.max_seconds 1000)
  unfolding issue_grants
  issue_grants-expires constraints g now b grant_clock lease_clock answer e =
      let loop = grant_all agent r g now b grant_clock r.granted in
      elim (Result-cases loop.1) [
        | inr (x, f) ↦ absurd (ground (arith, e, f))
        | inl (u, f) ↦
            issue_leases-expires constraints g now loop.0 lease_clock answer (ground (arith, e, f))
      ]

  -- How long the leases last.
  pub negotiation-expires :
      (b : Broker Json) (now : ℕ) (grant_clock lease_clock : ℕ → ℕ) (answer : AgentGrant)
      (constraints : AgentLeaseConstraints)
      → (broker_grant_from_negotiation b now grant_clock lease_clock agent r).1 ≡ ok answer
      → r.lease_constraints ≡ some constraints
      → answer.expires_at_unix_ms ≡ saturating_add now (saturating_mul constraints.max_seconds 1000)
  unfolding broker_grant_from_negotiation
  negotiation-expires b now grant_clock lease_clock answer constraints e policy =
      elim (Result-cases (admit r)) [
        | inr (x, f) ↦ absurd (ground (arith, e, f))
        | inl (k, f) ↦
            let same : k ≡ constraints = cc (policy, admit-lease_constraints r k f) in
            let issued = activation_generation b agent r.activation_id in
            elim (Result-cases issued.1) [
              | inr (x, i) ↦ absurd (ground (arith, e, f, i))
              | inl (g, i) ↦
                  issue_grants-expires k g now issued.0 grant_clock lease_clock answer
                    (ground (arith, e, f, i))
                  ∙ ap (λ x. saturating_add now (saturating_mul x.max_seconds 1000)) same
            ]
      ]
