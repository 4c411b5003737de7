-- ===== src/Daemon/Admission.antt =====
-- When a handler runs (crates/daemon/src/server.rs).

use dsh_desktop_shell.Broker.Gate.{enforce_dispatch_iff, Authorised}
use dsh_desktop_shell.Negotiation.Messages.{includes_coordinate, ProtocolCoordinate}
use dsh_desktop_shell.Envelope.Types.{EnvelopeKind, Envelope}
use dsh_desktop_shell.Broker.State.{enforce_dispatch, Broker}
use dsh_desktop_shell.Daemon.Types.{ActivationAuthority-discrete, shell_control, Activation}
use dsh_desktop_shell.Daemon.Replies.{Outcome, DaemonServer}
use dsh_desktop_shell.Daemon.Invocation.{query_of, admit_invocation}
use dsh_desktop_shell.Prelude.{
  List, Result-cases, does_iff, text_discrete, lookup, String, Any, ◌⊎◌, ℕ, ◌≢◌, ◌≡◌, ok, arith,
  true, inr, inl, some, none,
}

module _ {Json Output Other : Type 0} where
  -- A frame acts if it changes the resources or gets a Result without an error.
  abbrev pub Acts : DaemonServer Json Output Other → Outcome Json Output Other → Type 0
  Acts d (d', s', replies) =
      (d'.resources ≢ d.resources)
      ⊎ Any (λ r. (r.kind ≡ EnvelopeKind.result) × (r.error ≡ none)) replies

  -- The activation and the capability of an invocation, and why it is let through: the Shell's relaxed
  -- activation, or the broker.
  pub record Permitted (d : DaemonServer Json Output Other)
      (activations : List (String × Activation)) (env : Envelope Json) (now : ℕ) : Type 0 where
    pub id : String
    pub activation : Activation
    pub capability : ProtocolCoordinate
    pub named : env.participant.activation_id ≡ some id
    pub negotiated : lookup text_discrete id activations ≡ some activation
    pub asked : env.capability ≡ some capability
    pub granted : includes_coordinate activation.granted capability ≡ true
    pub passed :
        ((activation.generation ≡ 0) × (activation.authority ≡ shell_control))
        ⊎ Authorised d.broker (query_of activation capability now)

admit_lem :
    {Json : Type 0} (b : Broker Json) (a : Activation) (c : ProtocolCoordinate) (now : ℕ)
    → admit_invocation b a c now ≡ ok tt
    → (includes_coordinate a.granted c ≡ true)
      × (((a.generation ≡ 0) × (a.authority ≡ shell_control))
          ⊎ (enforce_dispatch b (query_of a c now) ≡ ok tt))
unfolding admit_invocation
admit_lem b a c now h = ground (
  arith,
  does_iff (ActivationAuthority-discrete a.authority shell_control),
  Result-cases (enforce_dispatch b (query_of a c now)),
)

pub permitted :
    {Json Output Other : Type 0} (d : DaemonServer Json Output Other)
    (activations : List (String × Activation)) (env : Envelope Json) (now : ℕ) (id : String)
    (a : Activation) (c : ProtocolCoordinate)
    → env.participant.activation_id ≡ some id
    → lookup text_discrete id activations ≡ some a
    → env.capability ≡ some c
    → admit_invocation d.broker a c now ≡ ok tt
    → Permitted d activations env now
permitted d activations env now id a c named negotiated asked admitted =
    let (granted, passed) = admit_lem d.broker a c now admitted in
    record {
      id = id;
      activation = a;
      capability = c;
      named = named;
      negotiated = negotiated;
      asked = asked;
      granted = granted;
      passed = elim passed [
        | inl shell ↦ inl shell
        | inr e ↦ inr ((enforce_dispatch_iff d.broker (query_of a c now)).0 e)
      ];
    }
