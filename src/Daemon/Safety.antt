-- ===== src/Daemon/Safety.antt =====
-- Which frames act on the resources, over the history of a connection (crates/daemon/src/server.rs).
use dsh_desktop_shell.Daemon.Connection.{session_after, server_after, Turn}
use dsh_desktop_shell.Daemon.Invocation.{query_of}
use dsh_desktop_shell.Broker.Gate.{Authorised}
use dsh_desktop_shell.Daemon.Hello.{agree}
use dsh_desktop_shell.Daemon.Authority.{agent_id_of, allows}
use dsh_desktop_shell.Daemon.Classes.{Sound, Vouched}
use dsh_desktop_shell.Daemon.Server.{handle_envelope}
use dsh_desktop_shell.Daemon.Admission.{Permitted, Acts}
use dsh_desktop_shell.Broker.State.{Broker}
use dsh_desktop_shell.Daemon.Terms.{negotiate, Terms, Fresh}
use dsh_desktop_shell.Daemon.History.{start-Serves}
use dsh_desktop_shell.Daemon.Catalog.{catalog_supports}
use dsh_desktop_shell.Envelope.Types.{ErrorCode, Envelope}
use dsh_desktop_shell.Negotiation.Messages.{
  ProtocolCoordinate-discrete, includes_coordinate, ProtocolCoordinate,
}
use dsh_desktop_shell.Daemon.Types.{
  PeerIdentityPolicy, shell_control, replayed_id, ActivationAuthority, Activation, PeerIdentity,
  SessionState, DaemonApi,
}
use dsh_desktop_shell.Daemon.Replies.{refuse, with_replies, error_result, Outcome, DaemonServer}
use dsh_desktop_shell.Prelude.{
  does_iff, ◌⊎◌, text_discrete, subst, Bool, lookup, All-lookup, String, ℕ, Option, All, List, ◌≡◌,
  arith, refl, false, true, inr, inl, some, ◌∷◌, [],
}
use dsh_desktop_shell.Daemon.Handling.{
  handle_envelope-cases, Handled, ignored, rejected, agreed, executed,
}

module _ {Json Output Other : Type 0} (api : DaemonApi Json Output Other)
    (d : DaemonServer Json Output Other) (s : SessionState) (env : Envelope Json) (connection : ℕ)
    (fresh : Fresh) where
  refuse_idle :
      (c : Option ProtocolCoordinate) (m : Option String) (code : ErrorCode) (message : String)
      (retryable : Bool)
      → ¬ Acts d (with_replies d (refuse s fresh env c m code message retryable))
  unfolding error_result
  refuse_idle c m code message retryable (inl n) = n refl
  refuse_idle c m code message retryable (inr (inl p)) = cc p.1
  refuse_idle c m code message retryable (inr (inr p)) = p

  agree_idle :
      (b : Broker Json) (authority : ActivationAuthority) (terms : Terms)
      → ¬ Acts d (with_replies (record d { broker = b }) (agree api s fresh env authority terms))
  agree_idle b authority terms (inl n) = n refl
  agree_idle b authority terms (inr (inl p)) = cc p.0
  agree_idle b authority terms (inr (inr p)) = p

  Handled-Permitted :
      (o : Outcome Json Output Other)
      → Handled api d s env connection fresh o
      → Acts d o
      → Permitted d s.activations env fresh.now
  Handled-Permitted o (ignored r e) acts = elim (subst (Acts d) e acts) [
    | inl n ↦ absurd (n refl)
    | inr p ↦ absurd p
  ]
  Handled-Permitted o (rejected c m code message retryable e) acts =
      absurd (refuse_idle c m code message retryable (subst (Acts d) e acts))
  Handled-Permitted o (agreed supports authority e same f) acts =
      let (b, terms) = negotiate d.broker fresh (agent_id_of env.participant) authority supports in
      absurd (agree_idle b authority terms (subst (Acts d) f acts))
  Handled-Permitted o (executed p method m e) acts = p

handle_envelope-Permitted :
    {Json Output Other : Type 0} (api : DaemonApi Json Output Other)
    (d : DaemonServer Json Output Other) (s : SessionState) (env : Envelope Json) (connection : ℕ)
    (fresh : Fresh)
    → Acts d (handle_envelope api d s env connection fresh)
    → Permitted d s.activations env fresh.now
handle_envelope-Permitted api d s env connection fresh acts =
    elim (handle_envelope-cases api d s env connection fresh) [
      | inl (seen, e) ↦ absurd (
          refuse_idle api d s env connection fresh env.capability env.method
            ErrorCode.malformed_message (api.wording replayed_id) false (subst (Acts d) e acts))
      | inr (unseen, handled) ↦
          Handled-Permitted api d (record s { seen_ids = env.id ∷ s.seen_ids }) env connection fresh
            _ handled acts
    ]

-- Why an invocation is let through: it names an activation of the connection that was granted the
-- capability, which is in the catalog; and the peer passes the identity policy, or the broker
-- authorises the activation's agent at its generation.
pub record Entitled {Json Output Other : Type 0} (folds : Bool) (policy : PeerIdentityPolicy)
    (identity : Option PeerIdentity) (d : DaemonServer Json Output Other) (s : SessionState)
    (env : Envelope Json) (now : ℕ) : Type 0 where
  pub id : String
  pub activation : Activation
  pub capability : ProtocolCoordinate
  pub named : env.participant.activation_id ≡ some id
  pub negotiated : lookup text_discrete id s.activations ≡ some activation
  pub asked : env.capability ≡ some capability
  pub granted : includes_coordinate activation.granted capability ≡ true
  pub catalogued : catalog_supports capability ≡ true
  pub class : s.authority ≡ some activation.authority
  pub passed :
      ((activation.authority ≡ shell_control)
        × (activation.generation ≡ 0)
        × (allows folds policy identity ≡ true))
      ⊎ Authorised d.broker (query_of activation capability now)

includes-All :
    (cs : List ProtocolCoordinate) (c : ProtocolCoordinate)
    → All (λ x. catalog_supports x ≡ true) cs
    → includes_coordinate cs c ≡ true
    → catalog_supports c ≡ true
includes-All [] c h e = absurd (cc e)
includes-All (x ∷ cs) c h e = elim (ProtocolCoordinate-discrete x c) [
  | yes p ↦ subst (λ y. catalog_supports y ≡ true) p h.0
  | no n ↦ includes-All cs c h.1 (ground (arith, does_iff (ProtocolCoordinate-discrete x c), e))
]

module _ {Json Output Other : Type 0} (folds : Bool) (policy : PeerIdentityPolicy)
    (identity : Option PeerIdentity) where
  entitled :
      (d : DaemonServer Json Output Other) (s : SessionState) (env : Envelope Json) (now : ℕ)
      → Sound folds policy identity s
      → Permitted d s.activations env now
      → Entitled folds policy identity d s env now
  entitled d s env now h p =
      let v =
        All-lookup text_discrete (Vouched folds policy identity s.authority) p.id p.activation
          s.activations h.vouched p.negotiated in
      record {
        id = p.id;
        activation = p.activation;
        capability = p.capability;
        named = p.named;
        negotiated = p.negotiated;
        asked = p.asked;
        granted = p.granted;
        catalogued = includes-All p.activation.granted p.capability v.offered p.granted;
        class = v.class;
        passed = elim p.passed [
          | inl (relaxed, shell) ↦ elim v.entitled [
            | inl other ↦ absurd (cc (shell, other))
            | inr allowed ↦ inl (shell, relaxed, allowed)
          ]
          | inr authorised ↦ inr authorised
        ];
      }

-- Over every history of a connection, whatever other connections do to the broker and the resources
-- meanwhile, a frame changes the resources or gets a Result without an error only if it is let
-- through: it names a capability of the catalog and an activation of this connection, of the
-- connection's one class, that was granted this capability; and either the activation is a relaxed
-- one of the Shell, whose peer the identity policy lets through, or the dispatch gate of the broker as
-- it is now authorises the activation's agent at the activation's generation.
pub converse-Entitled :
    {Json Output Other : Type 0} (api : DaemonApi Json Output Other)
    (start : DaemonServer Json Output Other) (identity : Option PeerIdentity) (connection : ℕ)
    (turns : List (Turn Json Output Other)) (turn : Turn Json Output Other) (env : Envelope Json)
    → Acts (server_after api start identity connection turns turn) (
        handle_envelope api
          (server_after api start identity connection turns turn)
          (session_after api start identity connection turns)
          env
          connection
          turn.fresh)
    → Entitled start.folds_case start.policy identity
        (server_after api start identity connection turns turn)
        (session_after api start identity connection turns)
        env
        turn.fresh.now
converse-Entitled api start identity connection turns turn env acts =
    let d = server_after api start identity connection turns turn in
    let s = session_after api start identity connection turns in
    entitled start.folds_case start.policy identity d s env turn.fresh.now
      (start-Serves api start identity connection turns).sound
      (handle_envelope-Permitted api d s env connection turn.fresh acts)
