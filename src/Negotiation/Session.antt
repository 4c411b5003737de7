-- ===== src/Negotiation/Session.antt =====
-- The session of one activation and its operations (crates/adapter-dsh-std/src/negotiate.rs). `at`,
-- `then_at` are the clock's readings in a call; errors keep their code, not their message.
use dsh_desktop_shell.Negotiation.Messages.{
  malformed_message, fits_id, check_hello, agreement_of, rejected, conflict, check_decision, agreed,
  active, invalid_state, includes_coordinate, Rejection, NegotiationErrorCode, Activation, proposed,
  RejectionReason, ProtocolCoordinate, NegotiationEvent, HelloMessage, AgreementDecision,
  NegotiationPhase, NegotiationEventKind, AgreementMessage,
}
use dsh_desktop_shell.Prelude.{
  text_discrete, or_fail, map, ite, is_empty, ◌++◌, retain, not, Result, Option, Bool, String, List,
  if◌then◌else◌, err, ok, false, true, some, none, ◌∷◌, [],
}
use Prim.Native.String.{len}

pub record NegotiationSession : Type 0 where
  pub session_id : String
  pub phase : NegotiationPhase
  pub hello : Option HelloMessage
  pub agreement : Option AgreementMessage
  pub activation : Option Activation
  pub rejection : Option Rejection
  pub degraded : Bool
  pub history : List NegotiationEvent

unfoldable pub begin : String → NegotiationSession
begin session_id = record {
  session_id = session_id;
  phase = proposed;
  hello = none;
  agreement = none;
  activation = none;
  rejection = none;
  degraded = false;
  history = [];
}

abbrev pub log : NegotiationEventKind → String → List NegotiationEvent → List NegotiationEvent
log kind at history = history ++ (record { kind = kind; at = at } ∷ [])

-- The phase tests that open `receive_hello` and `issue_agreement`.
unfoldable pub still_proposed : NegotiationPhase → Result NegotiationErrorCode (Unit {0})
still_proposed rejected = err invalid_state
still_proposed proposed = ok tt
still_proposed agreed = err conflict
still_proposed active = err conflict

unfoldable pub store_hello :
    NegotiationSession
    → String
    → HelloMessage
    → Option HelloMessage
    → NegotiationSession × Result NegotiationErrorCode HelloMessage
store_hello s at h (some existing) =
    ite (text_discrete existing.id h.id) (s, ok existing) (s, err conflict)
store_hello s at h none = elim (check_hello h) [
  | err e ↦ (s, err e)
  | ok u ↦
      (record s { hello = some h; history = log NegotiationEventKind.hello at s.history }, ok h)
]

unfoldable pub receive_hello :
    NegotiationSession
    → String
    → HelloMessage
    → NegotiationSession × Result NegotiationErrorCode HelloMessage
unfolding store_hello
receive_hello s at h = elim (still_proposed s.phase) [
  | err e ↦ (s, err e)
  | ok u ↦ store_hello s at h s.hello
]

-- The state once the agreement stands.
abbrev pub agree :
    NegotiationSession → String → String → AgreementDecision → AgreementMessage → NegotiationSession
agree s at then_at d a =
    let partial = not (is_empty d.unavailable) in
    record s {
      agreement = some a;
      phase = agreed;
      degraded = if partial then true else s.degraded;
      history =
          log NegotiationEventKind.agreement then_at
            (if partial then log NegotiationEventKind.degrade at s.history else s.history);
    }

unfoldable pub decide :
    NegotiationSession
    → String
    → String
    → String
    → AgreementDecision
    → Option HelloMessage
    → NegotiationSession × Result NegotiationErrorCode AgreementMessage
decide s at then_at fresh d none = (s, err invalid_state)
decide s at then_at fresh d (some h) = elim (check_decision h d) [
  | err e ↦ (s, err e)
  | ok u ↦
      let a = agreement_of h d fresh in
      if fits_id (len a.id) then (agree s at then_at d a, ok a) else (s, err malformed_message)
]

unfoldable pub issue_agreement :
    NegotiationSession
    → String
    → String
    → String
    → AgreementDecision
    → NegotiationSession × Result NegotiationErrorCode AgreementMessage
unfolding decide
issue_agreement s at then_at fresh d = elim (still_proposed s.phase) [
  | err e ↦ (s, err e)
  | ok u ↦ decide s at then_at fresh d s.hello
]

abbrev pub activation_of : AgreementMessage → String → Bool → Activation
activation_of a at degraded = record {
  activation_id = a.payload.activation_id;
  granted = a.payload.granted;
  unavailable = a.payload.unavailable;
  lease_constraints = a.payload.lease_constraints;
  created_at = at;
  degraded = degraded;
}

abbrev record_activation :
    NegotiationSession
    → String
    → Option AgreementMessage
    → NegotiationSession × Result NegotiationErrorCode Activation
record_activation s at none = (s, err invalid_state)
record_activation s at (some a) =
    let v = activation_of a at s.degraded in
    (
      record s {
        activation = some v;
        phase = active;
        history = log NegotiationEventKind.activation at s.history;
      },
      ok v,
    )

-- `activate` by its phase.
unfoldable pub activate_in :
    NegotiationPhase
    → NegotiationSession
    → String
    → NegotiationSession × Result NegotiationErrorCode Activation
activate_in rejected s at = (s, err invalid_state)
activate_in active s at = (s, or_fail s.activation invalid_state)
activate_in proposed s at = (s, err invalid_state)
activate_in agreed s at = record_activation s at s.agreement

unfoldable pub activate :
    NegotiationSession → String → NegotiationSession × Result NegotiationErrorCode Activation
unfolding activate_in
activate s at = activate_in s.phase s at

abbrev record_rejection :
    NegotiationSession
    → String
    → RejectionReason
    → Option String
    → NegotiationSession × Result NegotiationErrorCode Rejection
record_rejection s at reason message =
    let j : Rejection = record { reason = reason; message = message; at = at } in
    (
      record s {
        phase = rejected;
        rejection = some j;
        history = log NegotiationEventKind.reject at s.history;
      },
      ok j,
    )

-- `reject` by its phase.
unfoldable pub reject_in :
    NegotiationPhase
    → NegotiationSession
    → String
    → RejectionReason
    → Option String
    → NegotiationSession × Result NegotiationErrorCode Rejection
reject_in rejected s at reason message = (s, or_fail s.rejection invalid_state)
reject_in active s at reason message = (s, err conflict)
reject_in proposed s at reason message = record_rejection s at reason message
reject_in agreed s at reason message = record_rejection s at reason message

unfoldable pub reject :
    NegotiationSession
    → String
    → RejectionReason
    → Option String
    → NegotiationSession × Result NegotiationErrorCode Rejection
unfolding reject_in
reject s at reason message = reject_in s.phase s at reason message

-- The required coordinates of the Hello that are not granted.
unfoldable pub unsatisfied_requirements :
    NegotiationSession → List ProtocolCoordinate → List ProtocolCoordinate
unsatisfied_requirements s granted = elim s.hello [
  | none ↦ []
  | some h ↦
      retain (λ c. not (includes_coordinate granted c))
        (map (λ r. r.coordinate) (retain (λ r. r.required) h.payload.requires))
]

unfoldable pub unsatisfied_after_agreement : NegotiationSession → List ProtocolCoordinate
unsatisfied_after_agreement s =
    unsatisfied_requirements s (elim s.agreement [ none ↦ [] | some a ↦ a.payload.granted ])
