-- ===== src/Daemon/Classes.antt =====
-- The authority class of a connection (crates/daemon/src/server.rs): its activations agree.

use dsh_desktop_shell.Daemon.Hello.{activation_of, agree}
use dsh_desktop_shell.Envelope.Types.{Envelope}
use dsh_desktop_shell.Broker.Agent.{broker_grant_from_negotiation}
use dsh_desktop_shell.Broker.AgentTypes.{AgentGrant, AgentBridgeError}
use dsh_desktop_shell.Daemon.Catalog.{catalog_supports}
use dsh_desktop_shell.Negotiation.Messages.{UnavailableCapability, Participant, ProtocolCoordinate}
use dsh_desktop_shell.Daemon.Types.{
  DaemonApi, ActivationAuthority-discrete, participant, SessionState, Activation, PeerIdentity,
  PeerIdentityPolicy, ActivationAuthority,
}
use dsh_desktop_shell.Broker.State.{Broker}
use dsh_desktop_shell.Daemon.Terms.{Terms, negotiation_of, Fresh, terms_of, negotiate}
use dsh_desktop_shell.Daemon.Authority.{allows, is_mixed, authority_of}
use dsh_desktop_shell.Prelude.{
  ◌∙◌, All-map, text_discrete, All-insert, sym, subst, is_empty, does_iff, Bool-cases, ◌⊎◌, Result,
  retain, String, All, List, Option, Bool, ◌≡◌, err, ok, arith, refl, false, true, inr, inl, some,
  ◌∷◌, [],
}

-- An activation of a connection of class `authority`: the class is its own, the Shell's class is
-- only for a peer that the policy lets through, and no more than the catalog's capabilities are
-- granted.
pub record Vouched (folds : Bool) (policy : PeerIdentityPolicy) (identity : Option PeerIdentity)
    (authority : Option ActivationAuthority) (a : Activation) : Type 0 where
  pub class : authority ≡ some a.authority
  pub entitled : (a.authority ≡ participant) ⊎ (allows folds policy identity ≡ true)
  pub offered : All (λ c. catalog_supports c ≡ true) a.granted

pub record Sound (folds : Bool) (policy : PeerIdentityPolicy) (identity : Option PeerIdentity)
    (s : SessionState) : Type 0 where
  pub same_peer : s.identity ≡ identity
  pub vouched : All (λ e. Vouched folds policy identity s.authority e.1) s.activations

All-retain : {A : Type 0} (p : A → Bool) (xs : List A) → All (λ x. p x ≡ true) (retain p xs)
All-retain p [] = tt
All-retain p (x ∷ xs) = ground (arith, All-retain p xs)

terms_of-granted :
    (authority : ActivationAuthority) (granted : List ProtocolCoordinate)
    (refused : List UnavailableCapability) (answer : Result AgentBridgeError AgentGrant)
    → ((terms_of authority granted refused answer).granted ≡ granted)
      ⊎ ((terms_of authority granted refused answer).granted ≡ [])
unfolding terms_of
terms_of-granted authority granted refused (ok grant) = inl refl
terms_of-granted authority granted refused (err e) = ground arith

subset_offered :
    {xs : List ProtocolCoordinate} (granted : List ProtocolCoordinate)
    → All (λ c. catalog_supports c ≡ true) granted
    → (xs ≡ granted) ⊎ (xs ≡ [])
    → All (λ c. catalog_supports c ≡ true) xs
subset_offered granted all (inl e) =
    subst (λ xs. All (λ c. catalog_supports c ≡ true) xs) (sym e) all
subset_offered granted all (inr e) =
    subst (λ xs. All (λ c. catalog_supports c ≡ true) xs) (sym e) tt

pub negotiate-offered :
    {Json : Type 0} (b : Broker Json) (fresh : Fresh) (agent : String)
    (authority : ActivationAuthority) (supports : List ProtocolCoordinate)
    → All (λ c. catalog_supports c ≡ true) (negotiate b fresh agent authority supports).1.granted
unfolding negotiate
negotiate-offered b fresh agent authority supports =
    let granted = retain catalog_supports supports in
    let all = All-retain catalog_supports supports in
    elim (Bool-cases (is_empty granted)) [
      | inl e ↦ rw (e, negotiate) all
      | inr e ↦
          rw (e, negotiate)
            (subset_offered granted all (
              terms_of-granted authority granted _
                (broker_grant_from_negotiation b fresh.now fresh.grant_clock fresh.lease_clock agent
                  (negotiation_of fresh.activation_id granted)).1))
    ]

entitled_lem :
    (folds : Bool) (policy : PeerIdentityPolicy) (identity : Option PeerIdentity) (p : Participant)
    → (authority_of folds policy identity p ≡ participant) ⊎ (allows folds policy identity ≡ true)
unfolding authority_of
entitled_lem folds policy identity p = ground arith

is_mixed-class :
    (established : Option ActivationAuthority) (authority class : ActivationAuthority)
    → is_mixed established authority ≡ false
    → established ≡ some class
    → ◌≡◌ {A = Option ActivationAuthority} (some authority) (some class)
is_mixed-class established authority class h e =
    ground (arith, does_iff (ActivationAuthority-discrete class authority))

module _ (folds : Bool) (policy : PeerIdentityPolicy) (identity : Option PeerIdentity) where
  class_kept :
      (established : Option ActivationAuthority) (authority : ActivationAuthority)
      → is_mixed established authority ≡ false
      → (e : String × Activation) → Vouched folds policy identity established e.1
      → Vouched folds policy identity (some authority) e.1
  class_kept established authority h e v = record {
    class = is_mixed-class established authority e.1.authority h v.class;
    entitled = v.entitled;
    offered = v.offered;
  }

  module _ {Json Output Other : Type 0} (api : DaemonApi Json Output Other) where
    pub agree-Sound :
        (s : SessionState) (fresh : Fresh) (env : Envelope Json) (authority : ActivationAuthority)
        (terms : Terms)
        → authority ≡ authority_of folds policy s.identity env.participant
        → is_mixed s.authority authority ≡ false
        → All (λ c. catalog_supports c ≡ true) terms.granted
        → Sound folds policy identity s
        → Sound folds policy identity (agree api s fresh env authority terms).0
    agree-Sound s fresh env authority terms e same offered h = record {
      same_peer = h.same_peer;
      vouched =
          All-insert text_discrete (Vouched folds policy identity (some authority))
            fresh.activation_id (activation_of fresh env authority terms) s.activations
            (record {
              class = refl;
              entitled = elim (entitled_lem folds policy s.identity env.participant) [
                | inl p ↦ inl (e ∙ p)
                | inr q ↦ inr (subst (λ i. allows folds policy i ≡ true) h.same_peer q)
              ];
              offered = offered;
            })
            (All-map (class_kept s.authority authority same) s.activations h.vouched);
    }
