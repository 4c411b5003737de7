-- ===== src/Daemon/Teardown.antt =====
-- What the end of a connection takes away (crates/daemon/src/server.rs, browser.rs).
use dsh_desktop_shell.EventRouter.Routing.{
  lookup-retain_owner, unsubscribed, unsubscribe_all_sender, sends_to,
}
use dsh_desktop_shell.Daemon.BrowserHost.{owner, release_connection_ownership}
use dsh_desktop_shell.Daemon.Replies.{DaemonServer}
use dsh_desktop_shell.Daemon.Types.{SessionState, Activation}
use dsh_desktop_shell.Broker.Invariance.{revoke_targets-keeps}
use dsh_desktop_shell.Broker.Types.{disconnect}
use dsh_desktop_shell.Broker.Authority.{
  enforce_dispatch-Spent, takeover-Spent, revoke_held-keeps_Spent, Spent,
}
use dsh_desktop_shell.Broker.State.{enforce_dispatch, Query, AgentActivationState, Broker}
use dsh_desktop_shell.Daemon.Connection.{disconnected, end_connection, revoke_activations}
use dsh_desktop_shell.Broker.Takeover.{
  targets, revoke_target, revoke_agent_grants, agent_generation,
}
use dsh_desktop_shell.Prelude.{
  false, ok, ◌==◌, not, retain, sym, modify, subst, lookup-modify, Option-cases, ◌≢◌, text_discrete,
  lookup, List, ℕ, String, ◌≡◌, arith, refl, true, inr, inl, some, none, ◌∷◌, [],
}

-- How an activation is marked as revoked.
abbrev mark : AgentActivationState → AgentActivationState
mark state = record state { revoked = true }

module _ {Json : Type 0} (agent : String) (g : ℕ) (now : ℕ) where
  -- A revocation leaves the generation of an activation, and the leases that are spent.
  target-agent_generation :
      (id activation : String) (b : Broker Json) (t : String × ℕ)
      → agent_generation b agent id ≡ some g
      → agent_generation (revoke_target activation disconnect now b t) agent id ≡ some g
  unfolding agent_generation revoke_target
  target-agent_generation id activation b (other, n) h =
      elim (Option-cases (lookup text_discrete agent b.agent_activations)) [
        | inl e ↦ absurd (ground (arith, e))
        | inr (states, e) ↦ elim (Option-cases (lookup text_discrete id states)) [
          | inl f ↦ absurd (ground (arith, e, f))
          | inr (state, f) ↦ ground (
            arith,
            lookup-modify text_discrete other agent (modify text_discrete activation mark)
                b.agent_activations,
            lookup-modify text_discrete activation id mark states,
          )
        ]
      ]

  revoke-agent_generation :
      (id activation : String) (b : Broker Json)
      → agent_generation b agent id ≡ some g
      → agent_generation (revoke_agent_grants b now activation disconnect).0 agent id ≡ some g
  unfolding revoke_agent_grants
  revoke-agent_generation id activation b h =
      revoke_targets-keeps (λ b'. agent_generation b' agent id ≡ some g) activation disconnect now
        (target-agent_generation id activation) b 0 (targets activation b.agent_activations) h

  revoke-Spent :
      (activation : String) (b : Broker Json)
      → Spent agent g b.leases
      → Spent agent g (revoke_agent_grants b now activation disconnect).0.leases
  unfolding revoke_agent_grants revoke_target
  revoke-Spent activation b h =
      revoke_targets-keeps (λ b'. Spent agent g b'.leases) activation disconnect now
        (λ b' t. revoke_held-keeps_Spent agent t.0 g t.1 disconnect now b'.leases) b 0
        (targets activation b.agent_activations) h

  activations-Spent :
      (b : Broker Json) (activations : List (String × Activation))
      → Spent agent g b.leases
      → Spent agent g (revoke_activations b now activations).leases
  unfolding revoke_activations
  activations-Spent b [] h = h
  activations-Spent b ((id, a) ∷ activations) h =
      activations-Spent (revoke_agent_grants b now id disconnect).0 activations
        (revoke-Spent id b h)

  revoked-Spent :
      (b : Broker Json) (id : String) (activations : List (String × Activation))
      → lookup text_discrete id activations ≢ none
      → agent_generation b agent id ≡ some g
      → Spent agent g (revoke_activations b now activations).leases
  unfolding revoke_activations
  revoked-Spent b id [] there h = absurd (there refl)
  revoked-Spent b id ((k, a) ∷ activations) there h = elim (text_discrete k id) [
    | yes e ↦ activations-Spent (revoke_agent_grants b now k disconnect).0 activations (
        takeover-Spent b now agent k disconnect g
          (subst (λ x. agent_generation b agent x ≡ some g) (sym e) h))
    | no n ↦
        revoked-Spent (revoke_agent_grants b now k disconnect).0 id activations (ground arith)
          (revoke-agent_generation id k b h)
  ]

module _ {Json Output Other : Type 0} (d : DaemonServer Json Output Other) (s : SessionState)
    (connection now : ℕ) where
  -- When a connection ends because its peer is gone at a read (not at the sending of a reply, where
  -- the code revokes nothing), every activation that the connection negotiated, and that
  -- the broker holds at its generation, is revoked: the gate then refuses every dispatch of its agent
  -- at this generation, whatever the capability, the scope and the time.
  pub end_connection_revokes :
      (id : String) (a : Activation) (q : Query)
      → lookup text_discrete id s.activations ≡ some a
      → agent_generation d.broker a.agent_id id ≡ some a.generation
      → q.owner ≡ a.agent_id
      → q.generation ≡ a.generation
      → enforce_dispatch (end_connection disconnected d s connection now).broker q ≢ ok tt
  unfolding end_connection
  end_connection_revokes id a q found held o n =
      enforce_dispatch-Spent (revoke_activations d.broker now s.activations) a.agent_id a.generation
        q o n
        (revoked-Spent a.agent_id a.generation now d.broker id s.activations (λ e. cc (found, e))
          held)

  spared :
      (id : String) (other : ℕ) (owners : List (String × ℕ))
      → other ≢ connection
      → lookup text_discrete id owners ≡ some other
      → lookup text_discrete id (retain (λ o. not (o.1 == connection)) owners) ≡ some other
  spared id other [] n e = e
  spared id other ((k, o) ∷ owners) n e = ground (arith, spared id other owners n)

  -- When a connection ends because its peer is gone at a read (not at the sending of a reply, where
  -- the code releases no ownership), no browser session is owned by the connection any more, the
  -- router cannot send to it and no session routes events to it, while the sessions of other
  -- connections stay theirs.
  pub end_connection_releases :
      (id other_id : String) (other : ℕ)
      → other ≢ connection
      → owner d.resources.browser other_id ≡ some other
      → (let r = (end_connection disconnected d s connection now).resources in
          (owner r.browser id ≢ some connection)
          × (owner r.browser other_id ≡ some other)
          × (sends_to r.events connection ≡ false)
          × (lookup text_discrete id r.events.sessions ≢ some connection))
  unfolding end_connection release_connection_ownership owner
  end_connection_releases id other_id other n e = (
    lookup-retain_owner connection id d.resources.browser.owners,
    spared other_id other d.resources.browser.owners n e,
    unsubscribe_all_sender d.resources.events connection,
    unsubscribed d.resources.events connection id,
  )
