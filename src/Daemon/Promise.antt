-- ===== src/Daemon/Promise.antt =====
-- What a Hello promises (crates/daemon/src/server.rs): what is agreed can be invoked.
use dsh_desktop_shell.Daemon.Authority.{agent_id_of, authority_of, is_mixed}
use dsh_desktop_shell.Daemon.Hello.{agree, activation_of, payload_of, handle_hello}
use dsh_desktop_shell.Envelope.Types.{Envelope}
use dsh_desktop_shell.Daemon.Replies.{with_replies, DaemonServer}
use dsh_desktop_shell.Broker.Negotiated.{query_for, negotiation-expires, negotiation_authorises}
use dsh_desktop_shell.Broker.Agent.{broker_grant_from_negotiation}
use dsh_desktop_shell.Daemon.Catalog.{catalog_supports}
use dsh_desktop_shell.Daemon.Invocation.{admit_invocation, query_of}
use dsh_desktop_shell.Broker.AgentTypes.{
  saturating_mul, saturating_add, AgentGrant, AgentBridgeError,
}
use dsh_desktop_shell.Daemon.Types.{
  ActivationAuthority-discrete, SessionState, shell_control, DaemonApi, Activation,
  ActivationAuthority,
}
use dsh_desktop_shell.Negotiation.Messages.{
  HelloPayload, ProtocolCoordinate-discrete, UnavailableCapability, includes_coordinate,
  ProtocolCoordinate,
}
use dsh_desktop_shell.Daemon.Terms.{
  default_scope, negotiation_of, denied, lease_max_seconds, terms_of, coordinate_to_capability,
  negotiate, Fresh,
}
use dsh_desktop_shell.Broker.State.{enforce_dispatch, Broker}
use dsh_desktop_shell.Prelude.{
  ℕ_discrete, lookup-insert, insert, text_discrete, lookup, false, some, ◌⊎◌, sym, subst, ◌∙◌,
  is_empty, Bool-cases, not, retain, does_iff, ◌<◌, ap, ◌≢◌, ℕ, map, Result, Any, String, List, ◌≡◌,
  err, ok, arith, refl, true, inr, inl, ◌∷◌, [],
}

module _ (authority : ActivationAuthority) (granted : List ProtocolCoordinate)
    (refused : List UnavailableCapability) where
  -- Terms with a generation are the broker's.
  terms_of-generation :
      (answer : Result AgentBridgeError AgentGrant)
      → (terms_of authority granted refused answer).generation ≢ 0
      → (grant : AgentGrant) × (answer ≡ ok grant)
        × ((terms_of authority granted refused answer).generation ≡ grant.generation)
        × ((terms_of authority granted refused answer).granted ≡ granted)
  unfolding terms_of
  terms_of-generation (ok grant) n = (grant, refl, refl, refl)
  terms_of-generation (err e) n = absurd (ground (arith, n))

includes_coordinate-map :
    (cs : List ProtocolCoordinate) (c : ProtocolCoordinate)
    → includes_coordinate cs c ≡ true
    → Any (λ x. x ≡ coordinate_to_capability c) (map coordinate_to_capability cs)
includes_coordinate-map [] c h = absurd (cc h)
includes_coordinate-map (x ∷ cs) c h = elim (ProtocolCoordinate-discrete x c) [
  | yes p ↦ inl (ap coordinate_to_capability p)
  | no n ↦
      inr (
        includes_coordinate-map cs c
          (ground (arith, does_iff (ProtocolCoordinate-discrete x c), h)))
]

-- The call of the broker at a Hello.
abbrev answered :
    {Json : Type 0}
    → Broker Json
    → Fresh
    → String
    → List ProtocolCoordinate
    → Broker Json × Result AgentBridgeError AgentGrant
answered b fresh agent granted =
    broker_grant_from_negotiation b fresh.now fresh.grant_clock fresh.lease_clock agent
      (negotiation_of fresh.activation_id granted)

module _ {Json : Type 0} (b : Broker Json) (fresh : Fresh) (agent : String)
    (authority : ActivationAuthority) (granted : List ProtocolCoordinate)
    (refused : List UnavailableCapability) (a : Activation) (c : ProtocolCoordinate) (t : ℕ)
    (owned : a.agent_id ≡ agent) (counted : a.generation ≢ 0)
    (early : t < saturating_add fresh.now (saturating_mul lease_max_seconds 1000)) where
  -- The dispatch gate after the broker is asked at a Hello.
  answered-enforce_dispatch :
      includes_coordinate
          (terms_of authority granted refused (answered b fresh agent granted).1).granted
          c
        ≡ true
      → a.generation
        ≡ (terms_of authority granted refused (answered b fresh agent granted).1).generation
      → enforce_dispatch (answered b fresh agent granted).0 (query_of a c t) ≡ ok tt
  answered-enforce_dispatch asked same =
      let (grant, is_ok, generation, kept) =
        terms_of-generation authority granted refused (answered b fresh agent granted).1
          (λ e. counted (same ∙ e)) in
      let result = negotiation_of fresh.activation_id granted in
      let passed =
        negotiation_authorises agent result b fresh.now fresh.grant_clock fresh.lease_clock grant
          (coordinate_to_capability c) t is_ok
          (includes_coordinate-map granted c
            (subst (λ x. includes_coordinate x c ≡ true) kept asked))
          (subst (λ x. t < x)
            (sym (
              negotiation-expires agent result b fresh.now fresh.grant_clock fresh.lease_clock grant
                _ is_ok refl))
            early) in
      subst
        (λ x.
          enforce_dispatch (answered b fresh agent granted).0
            (query_for x a.generation default_scope (coordinate_to_capability c) t)
          ≡ ok tt)
        (sym owned)
        (subst
          (λ y.
            enforce_dispatch (answered b fresh agent granted).0
              (query_for agent y default_scope (coordinate_to_capability c) t)
            ≡ ok tt)
          (sym (same ∙ generation)) passed)

module _ {Json : Type 0} (b : Broker Json) (fresh : Fresh) (agent : String)
    (authority : ActivationAuthority) (supports : List ProtocolCoordinate) where
  -- Nothing is granted but what the catalog supports, and relaxed terms are the Shell's.
  negotiate-enforce_dispatch :
      (a : Activation) (c : ProtocolCoordinate) (t : ℕ)
      → a.agent_id ≡ agent
      → a.generation ≢ 0
      → a.generation ≡ (negotiate b fresh agent authority supports).1.generation
      → includes_coordinate (negotiate b fresh agent authority supports).1.granted c ≡ true
      → t < saturating_add fresh.now (saturating_mul lease_max_seconds 1000)
      → enforce_dispatch (negotiate b fresh agent authority supports).0 (query_of a c t) ≡ ok tt
  unfolding negotiate
  negotiate-enforce_dispatch a c t o n g m early =
      let granted = retain catalog_supports supports in
      let refused = denied (retain (λ x. not (catalog_supports x)) supports) in
      elim (Bool-cases (is_empty granted)) [
        | inl e ↦ absurd (ground (arith, e, g, n))
        | inr e ↦
            let made : negotiate b fresh agent authority supports ≡ (
              (answered b fresh agent granted).0,
              terms_of authority granted refused (answered b fresh agent granted).1,
            ) =
              ground (arith, e) in
            rw (e, negotiate)
              (answered-enforce_dispatch b fresh agent authority granted refused a c t o n early
                (subst (λ x. includes_coordinate x.1.granted c ≡ true) made m)
                (g ∙ ap (λ x. x.1.generation) made))
      ]

admit_invocation-admits :
    {Json : Type 0} (b : Broker Json) (a : Activation) (c : ProtocolCoordinate) (t : ℕ)
    → includes_coordinate a.granted c ≡ true
    → ((a.generation ≡ 0) × (a.authority ≡ shell_control))
      ⊎ ((a.generation ≢ 0) × (enforce_dispatch b (query_of a c t) ≡ ok tt))
    → admit_invocation b a c t ≡ ok tt
unfolding admit_invocation
admit_invocation-admits b a c t m (inl (zeroth, shell)) =
    ground (arith, m, zeroth, does_iff (ActivationAuthority-discrete a.authority shell_control))
admit_invocation-admits b a c t m (inr (n, e)) = ground (arith, m, n, e)

module _ {Json Output Other : Type 0} (api : DaemonApi Json Output Other)
    (d : DaemonServer Json Output Other) (s : SessionState) (env : Envelope Json)
    (fresh : Fresh) where
  hello-agree :
      (greeting : HelloPayload)
      → payload_of api.json.hello_payload env.payload ≡ some greeting
      → is_mixed s.authority (authority_of d.folds_case d.policy s.identity env.participant) ≡ false
      → handle_hello api d s env fresh ≡ (
          let authority = authority_of d.folds_case d.policy s.identity env.participant in
          let (b, terms) =
            negotiate d.broker fresh (agent_id_of env.participant) authority greeting.supports in
          with_replies (record d { broker = b }) (agree api s fresh env authority terms))
  unfolding handle_hello
  hello-agree greeting shaped same = ground (arith, shaped, same)

  -- A Hello keeps its word: when it is answered with an agreement, every capability that its
  -- activation is granted passes the checks of an Invocation, at every time before the lease of an hour
  -- ends, as long as nothing else happens to the broker. This holds of the Shell's relaxed activation
  -- (generation 0) and of every activation with a generation.
  pub hello_keeps_word :
      (greeting : HelloPayload) (a : Activation) (c : ProtocolCoordinate) (t : ℕ)
      → payload_of api.json.hello_payload env.payload ≡ some greeting
      → is_mixed s.authority (authority_of d.folds_case d.policy s.identity env.participant) ≡ false
      → lookup text_discrete fresh.activation_id (handle_hello api d s env fresh).1.activations
        ≡ some a
      → includes_coordinate a.granted c ≡ true
      → (a.generation ≢ 0) ⊎ (a.authority ≡ shell_control)
      → t < saturating_add fresh.now (saturating_mul lease_max_seconds 1000)
      → admit_invocation (handle_hello api d s env fresh).0.broker a c t ≡ ok tt
  hello_keeps_word greeting a c t shaped same found m counted early =
      let authority = authority_of d.folds_case d.policy s.identity env.participant in
      let agent = agent_id_of env.participant in
      let shell_of : a.generation ≡ 0 → a.authority ≡ shell_control =
        λ z. elim counted [ inl n ↦ absurd (n z) | inr shell ↦ shell ] in
      let made =
        activation_of fresh env authority
          (negotiate d.broker fresh agent authority greeting.supports).1 in
      let o = hello-agree greeting shaped same in
      let found' : lookup text_discrete fresh.activation_id
            (insert text_discrete fresh.activation_id made s.activations)
          ≡ some a =
        sym (ap (λ x. lookup text_discrete fresh.activation_id x.1.activations) o) ∙ found in
      let stored : made ≡ a = ground (
        arith,
        lookup-insert text_discrete fresh.activation_id fresh.activation_id made s.activations,
        found',
      ) in
      subst (λ x. admit_invocation x.0.broker a c t ≡ ok tt) (sym o)
        (admit_invocation-admits (negotiate d.broker fresh agent authority greeting.supports).0 a c
          t m
          (elim (ℕ_discrete a.generation 0) [
            | yes zeroth ↦ inl (zeroth, shell_of zeroth)
            | no n ↦ inr (
              n,
              negotiate-enforce_dispatch d.broker fresh agent authority greeting.supports a c t
                  (sym (ap (λ x. x.agent_id) stored)) n (sym (ap (λ x. x.generation) stored))
                  (subst (λ x. includes_coordinate x.granted c ≡ true) (sym stored) m) early,
            )
          ]))
