-- ===== src/Negotiation/Messages.antt =====
-- The messages of a negotiation and their structural checks
-- (crates/adapter-dsh-std/src/negotiate.rs).
use dsh_desktop_shell.Prelude.{
  ltb, ◌||◌, ◌==◌, ◌&&◌, is_empty, does, all, not, map, leb, guard, any, ℕ, text_discrete, String,
  Result, Option, List, Bool, ◌>>◌, true, some, none, ◌∷◌, [],
}
use Prim.Native.String.{len}

pub data NegotiationPhase : Type 0 where
  proposed agreed active rejected : NegotiationPhase

pub data RejectionReason : Type 0 where
  unavailable unsupported_version policy_denied provider_failed peer_rejected : RejectionReason

pub data NegotiationErrorCode : Type 0 where
  conflict invalid_state malformed_message : NegotiationErrorCode

pub record ProtocolCoordinate : Type 0 where
  pub api_version : String
  pub kind : String

pub record Requirement : Type 0 where
  pub coordinate : ProtocolCoordinate
  pub required : Bool

pub data UnavailableReason : Type 0 where
  unavailable unsupported_version policy_denied provider_failed : UnavailableReason

pub record UnavailableCapability : Type 0 where
  pub coordinate : ProtocolCoordinate
  pub reason : UnavailableReason

pub record LeaseConstraints : Type 0 where
  pub max_seconds : Option ℕ
  pub approval_required : Option Bool

pub record Participant : Type 0 where
  pub component : String
  pub facet : String
  pub activation_id : Option String

pub record HelloPayload : Type 0 where
  pub instance_id : String
  pub supports : List ProtocolCoordinate
  pub requires : List Requirement

pub record HelloMessage : Type 0 where
  pub id : String
  pub generation : ℕ
  pub participant : Participant
  pub payload : HelloPayload

pub record AgreementPayload : Type 0 where
  pub activation_id : String
  pub granted : List ProtocolCoordinate
  pub unavailable : List UnavailableCapability
  pub lease_constraints : Option LeaseConstraints

pub record AgreementMessage : Type 0 where
  pub id : String
  pub reply_to : String
  pub generation : ℕ
  pub participant : Participant
  pub payload : AgreementPayload

pub record Activation : Type 0 where
  pub activation_id : String
  pub granted : List ProtocolCoordinate
  pub unavailable : List UnavailableCapability
  pub lease_constraints : Option LeaseConstraints
  pub created_at : String
  pub degraded : Bool

pub record Rejection : Type 0 where
  pub reason : RejectionReason
  pub message : Option String
  pub at : String

pub data NegotiationEventKind : Type 0 where
  hello agreement activation reject degrade : NegotiationEventKind

-- The event's `detail`, a text for display, is left out.
pub record NegotiationEvent : Type 0 where
  pub kind : NegotiationEventKind
  pub at : String

pub record AgreementDecision : Type 0 where
  pub activation_id : String
  pub granted : List ProtocolCoordinate
  pub unavailable : List UnavailableCapability
  pub lease_constraints : Option LeaseConstraints
  pub id : Option String
  pub generation : Option ℕ
  pub participant : Option Participant

unfoldable pub ProtocolCoordinate-discrete : Discrete ProtocolCoordinate
ProtocolCoordinate-discrete = hlevel text_discrete

abbrev pub includes_coordinate : List ProtocolCoordinate → ProtocolCoordinate → Bool
includes_coordinate list target = any (λ c. does (ProtocolCoordinate-discrete c target)) list

-- `iter().all(|c| seen.insert(c))`.
unfoldable pub all_new : List ProtocolCoordinate → List ProtocolCoordinate → Bool
all_new seen [] = true
all_new seen (c ∷ cs) = not (includes_coordinate seen c) && all_new (c ∷ seen) cs

unfoldable pub all_unique_coordinates : List ProtocolCoordinate → Bool
unfolding all_new
all_unique_coordinates = all_new []

unfoldable pub all_unique_unavailable : List UnavailableCapability → Bool
unfolding all_new
all_unique_unavailable list = all_new [] (map (λ u. u.coordinate) list)

abbrev pub fits_id : ℕ → Bool
fits_id n = leb 8 n && leb n 128

-- The checks of `receive_hello` on the frame.
unfoldable pub check_hello : HelloMessage → Result NegotiationErrorCode (Unit {0})
check_hello h = do
  guard (fits_id (len h.id)) malformed_message
  guard (fits_id (len h.payload.instance_id)) malformed_message
  guard (all_unique_coordinates h.payload.supports) malformed_message
  guard (not (is_empty h.payload.requires && is_empty h.payload.supports)) malformed_message

-- The checks of `issue_agreement` on the decision.
unfoldable pub check_decision :
    HelloMessage → AgreementDecision → Result NegotiationErrorCode (Unit {0})
check_decision h d = do
  guard (all (includes_coordinate h.payload.supports) d.granted) conflict
  guard (all (λ u. not (includes_coordinate d.granted u.coordinate)) d.unavailable) conflict
  guard (not (len d.activation_id == 0 || ltb 128 (len d.activation_id))) malformed_message
  guard (all_unique_coordinates d.granted) malformed_message
  guard (all_unique_unavailable d.unavailable) malformed_message

abbrev get_or {ℓ} : {A : Type ℓ} → Option A → A → A
get_or none a = a
get_or (some x) a = x

-- The agreement that a decision makes; `fresh` is the generated message id.
abbrev pub agreement_of : HelloMessage → AgreementDecision → String → AgreementMessage
agreement_of h d fresh = record {
  id = get_or d.id fresh;
  reply_to = h.id;
  generation = get_or d.generation h.generation;
  participant = get_or d.participant h.participant;
  payload = record {
    activation_id = d.activation_id;
    granted = d.granted;
    unavailable = d.unavailable;
    lease_constraints = d.lease_constraints;
  };
}
