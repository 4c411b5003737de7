-- ===== src/Negotiation/Invariant.antt =====
-- What holds of a negotiation session after any calls (crates/adapter-dsh-std/src/negotiate.rs).
use Prim.Native.String.{len}
use dsh_desktop_shell.Negotiation.Session.{
  activation_of, decide, agree, still_proposed, reject, receive_hello, issue_agreement, begin,
  activate, NegotiationSession,
}
use dsh_desktop_shell.Negotiation.Messages.{
  fits_id, proposed, agreed, rejected, all_unique_unavailable, all_unique_coordinates,
  includes_coordinate, ProtocolCoordinate, AgreementDecision, agreement_of, active, RejectionReason,
  HelloMessage, AgreementMessage, Activation, check_decision, NegotiationPhase,
}
use dsh_desktop_shell.Prelude.{
  ◌∙◌, ◌↔◌, ap, ◌⊎◌, Bool-cases, Result-cases, Option-cases, does_iff, all, ◌&&◌, text_discrete,
  is_empty, not, does, List, Bool, String, Option, ◌≡◌, ok, arith, refl, false, true, inr, inl,
  some, none, ◌∷◌, [],
}

pub data Call : Type 0 where
  receives : String → HelloMessage → Call
  issues : String → String → String → AgreementDecision → Call
  activates : String → Call
  rejects : String → RejectionReason → Option String → Call

unfoldable pub apply : NegotiationSession → Call → NegotiationSession
apply s (receives at h) = (receive_hello s at h).0
apply s (issues at then_at fresh d) = (issue_agreement s at then_at fresh d).0
apply s (activates at) = (activate s at).0
apply s (rejects at reason message) = (reject s at reason message).0

unfoldable pub run : NegotiationSession → List Call → NegotiationSession
run s [] = s
run s (c ∷ cs) = run (apply s c) cs

abbrev pub present {ℓ} : {A : Type ℓ} → Option A → Bool
present none = false
present (some a) = true

-- Which records a phase has.
abbrev pub HasAgreement : NegotiationPhase → Option AgreementMessage → Type 0
HasAgreement proposed a = present a ≡ false
HasAgreement agreed a = present a ≡ true
HasAgreement active a = present a ≡ true
HasAgreement rejected a = Unit {0}

abbrev pub is_active : NegotiationPhase → Bool
is_active active = true
is_active _ = false

abbrev pub is_rejected : NegotiationPhase → Bool
is_rejected rejected = true
is_rejected _ = false

-- The agreement keeps to the Hello that it answers.
unfoldable pub answers : Option HelloMessage → Option AgreementMessage → Bool
answers h none = true
answers none (some a) = false
answers (some h) (some a) =
    does (text_discrete a.reply_to h.id)
    && (all (includes_coordinate h.payload.supports) a.payload.granted
        && (all (λ u. not (includes_coordinate a.payload.granted u.coordinate))
              a.payload.unavailable
            && (all_unique_coordinates a.payload.granted
                && all_unique_unavailable a.payload.unavailable)))

abbrev pub is_partial : Option AgreementMessage → Bool
is_partial none = false
is_partial (some a) = not (is_empty a.payload.unavailable)

abbrev pub granted_by : Option AgreementMessage → Option (List ProtocolCoordinate)
granted_by none = none
granted_by (some a) = some a.payload.granted

abbrev pub granted_in : Option Activation → Option (List ProtocolCoordinate)
granted_in none = none
granted_in (some v) = some v.granted

pub record Inv (s : NegotiationSession) : Type 0 where
  pub agreement_present : HasAgreement s.phase s.agreement
  pub activation_present : present s.activation ≡ is_active s.phase
  pub rejection_present : present s.rejection ≡ is_rejected s.phase
  pub answered : answers s.hello s.agreement ≡ true
  pub degraded_exact : s.degraded ≡ is_partial s.agreement
  pub activated_as_agreed : s.phase ≡ active → granted_in s.activation ≡ granted_by s.agreement

begin-Inv : (id : String) → Inv (begin id)
unfolding begin answers
begin-Inv id = ground arith

receive_hello-Inv :
    (s : NegotiationSession) (at : String) (h : HelloMessage) → Inv s → Inv (receive_hello s at h).0
unfolding receive_hello still_proposed answers
receive_hello-Inv s at h v = ground arith

decision_answers :
    (h : HelloMessage) (d : AgreementDecision) (fresh : String)
    → check_decision h d ≡ ok tt
    → answers (some h) (some (agreement_of h d fresh)) ≡ true
unfolding check_decision answers
decision_answers h d fresh e = ground (arith, (does_iff (text_discrete h.id h.id)).1 refl)

agree-Inv :
    (s : NegotiationSession) (at then_at fresh : String) (d : AgreementDecision) (h : HelloMessage)
    → Inv s
    → s.phase ≡ proposed
    → s.hello ≡ some h
    → check_decision h d ≡ ok tt
    → Inv (agree s at then_at d (agreement_of h d fresh))
agree-Inv s at then_at fresh d h v p q e = record {
  agreement_present = refl;
  activation_present = ground (arith, v.activation_present);
  rejection_present = ground (arith, v.rejection_present);
  answered = rw q (decision_answers h d fresh e);
  degraded_exact = ground (arith, v.degraded_exact, v.agreement_present);
  activated_as_agreed = λ x. cc;
}

decide-Inv :
    (s : NegotiationSession) (at then_at fresh : String) (d : AgreementDecision)
    → Inv s
    → s.phase ≡ proposed
    → Inv (decide s at then_at fresh d s.hello).0
unfolding decide
decide-Inv s at then_at fresh d v p = elim (Option-cases s.hello) [
  | inl e ↦ rw (e, decide) v
  | inr (h, e) ↦ elim (Result-cases (check_decision h d)) [
    | inr (x, f) ↦ rw (e, decide) (rw (f, decide) v)
    | inl (u, f) ↦
        rw (e, decide)
          (rw (f, decide)
            (elim (Bool-cases (fits_id (len (agreement_of h d fresh).id))) [
              | inl g ↦ rw g (agree-Inv s at then_at fresh d h v p e f)
              | inr g ↦ rw g v
            ]))
  ]
]

issue_agreement-Inv :
    (s : NegotiationSession) (at then_at fresh : String) (d : AgreementDecision)
    → Inv s
    → Inv (issue_agreement s at then_at fresh d).0
unfolding issue_agreement still_proposed
issue_agreement-Inv s at then_at fresh d v = ground (arith, decide-Inv s at then_at fresh d v)

activate-Inv : (s : NegotiationSession) (at : String) → Inv s → Inv (activate s at).0
unfolding activate
activate-Inv s at v = ground arith

reject-Inv :
    (s : NegotiationSession) (at : String) (reason : RejectionReason) (message : Option String)
    → Inv s
    → Inv (reject s at reason message).0
unfolding reject
reject-Inv s at reason message v = ground arith

activate_outcome :
    (s : NegotiationSession) (at : String)
    → Inv s
    → ((s.phase ≡ agreed) ⊎ (s.phase ≡ active)) ↔ ((v : Activation) × ((activate s at).1 ≡ ok v))
unfolding activate
activate_outcome s at v = (there, back)
  where
    there : (s.phase ≡ agreed) ⊎ (s.phase ≡ active) → (w : Activation) × ((activate s at).1 ≡ ok w)
    there (inl p) = elim (Option-cases s.agreement) [
      | inl e ↦ absurd (ground (arith, v.agreement_present, e))
      | inr (a, e) ↦ (activation_of a at s.degraded, ground (arith, p, e))
    ]
    there (inr p) = elim (Option-cases s.activation) [
      | inl e ↦ absurd (ground (arith, v.activation_present, e))
      | inr (w, e) ↦ (w, ground (arith, p, e))
    ]

    back : (w : Activation) × ((activate s at).1 ≡ ok w) → (s.phase ≡ agreed) ⊎ (s.phase ≡ active)
    back (w, h) = ground arith

apply-Inv : (s : NegotiationSession) (c : Call) → Inv s → Inv (apply s c)
unfolding apply
apply-Inv s (receives at h) v = receive_hello-Inv s at h v
apply-Inv s (issues at then_at fresh d) v = issue_agreement-Inv s at then_at fresh d v
apply-Inv s (activates at) v = activate-Inv s at v
apply-Inv s (rejects at reason message) v = reject-Inv s at reason message v

run-Inv : (s : NegotiationSession) (cs : List Call) → Inv s → Inv (run s cs)
unfolding run
run-Inv s [] v = v
run-Inv s (c ∷ cs) v = run-Inv (apply s c) cs (apply-Inv s c v)

-- After any calls a session has the records that its phase asks for; its agreement answers its
-- Hello, grants only what the Hello supports, grants nothing that it calls unavailable and repeats
-- nothing; the session is degraded exactly when the agreement has an unavailable capability; and an
-- active session's activation grants what the agreement grants.
pub run-begin-Inv : (id : String) (cs : List Call) → Inv (run (begin id) cs)
run-begin-Inv id cs = run-Inv (begin id) cs (begin-Inv id)

apply_final :
    (s : NegotiationSession) (c : Call) → (s.phase ≡ active) ⊎ (s.phase ≡ rejected) → apply s c ≡ s
unfolding apply receive_hello issue_agreement activate reject still_proposed
apply_final s (receives at h) f = ground arith
apply_final s (issues at then_at fresh d) f = ground arith
apply_final s (activates at) f = ground arith
apply_final s (rejects at reason message) f = ground arith

-- An active session and a rejected one are final: no calls change anything of them, so an agreement
-- is never replaced and a rejection is never overcome.
pub run_final :
    (s : NegotiationSession) (cs : List Call)
    → (s.phase ≡ active) ⊎ (s.phase ≡ rejected)
    → run s cs ≡ s
unfolding run
run_final s [] f = refl
run_final s (c ∷ cs) f = ap (λ t. run t cs) (apply_final s c f) ∙ run_final s cs f

-- After any calls from `begin`, `activate` succeeds exactly in an agreed or an active session: its
-- errors about a missing record are never reported.
activate_iff :
    (id at : String) (cs : List Call)
    → let s = run (begin id) cs in
      ((s.phase ≡ agreed) ⊎ (s.phase ≡ active)) ↔ ((v : Activation) × ((activate s at).1 ≡ ok v))
activate_iff id at cs = activate_outcome (run (begin id) cs) at (run-begin-Inv id cs)
