-- ===== src/Negotiation/Tests.antt =====
-- The negotiation's theorems at a concrete exchange (crates/adapter-dsh-std/src/negotiate.rs).
use dsh_desktop_shell.Negotiation.Session.{
  activate, issue_agreement, still_proposed, receive_hello, begin,
}
use dsh_desktop_shell.Negotiation.Messages.{
  ProtocolCoordinate-discrete, all_unique_unavailable, check_decision, all_unique_coordinates,
  check_hello, active, RejectionReason, UnavailableReason, ProtocolCoordinate, Participant,
  HelloMessage, AgreementDecision,
}
use dsh_desktop_shell.Negotiation.Invariant.{
  run_final, activates, issues, run-begin-Inv, rejects, receives, apply, Call, run, Inv,
}
use dsh_desktop_shell.Prelude.{dec_of, text_discrete, List, ◌≡◌, refl, true, inl, none, ◌∷◌, []}

abbrev terminal : ProtocolCoordinate
terminal = record { api_version = "terminal/v1"; kind = "Terminal" }

abbrev browser : ProtocolCoordinate
browser = record { api_version = "browser/v1"; kind = "Browser" }

abbrev peer : Participant
peer = record { component = "peer"; facet = "negotiation"; activation_id = none }

abbrev greeting : HelloMessage
greeting = record {
  id = "hello-0001";
  generation = 3;
  participant = peer;
  payload = record { instance_id = "instance-1"; supports = terminal ∷ []; requires = [] };
}

abbrev decision : AgreementDecision
decision = record {
  activation_id = "act-1";
  granted = terminal ∷ [];
  unavailable = record { coordinate = browser; reason = UnavailableReason.policy_denied } ∷ [];
  lease_constraints = none;
  id = none;
  generation = none;
  participant = none;
}

abbrev exchange : List Call
exchange = receives "t0" greeting ∷ issues "t1" "t2" "msg-12345" decision ∷ activates "t3" ∷ []

exchange_active : (run (begin "s") exchange).phase ≡ active
unfolding run apply begin receive_hello still_proposed check_hello all_unique_coordinates
    issue_agreement check_decision all_unique_unavailable activate ProtocolCoordinate-discrete
    text_discrete dec_of
exchange_active = refl

exchange_degraded : (run (begin "s") exchange).degraded ≡ true
unfolding run apply begin receive_hello still_proposed check_hello all_unique_coordinates
    issue_agreement check_decision all_unique_unavailable activate ProtocolCoordinate-discrete
    text_discrete dec_of
exchange_degraded = refl

run-begin-Inv_example : Inv (run (begin "s") exchange)
run-begin-Inv_example = run-begin-Inv "s" exchange

run_final_example :
    run (run (begin "s") exchange) (rejects "t4" RejectionReason.policy_denied none ∷ [])
    ≡ run (begin "s") exchange
run_final_example =
    run_final (run (begin "s") exchange) (rejects "t4" RejectionReason.policy_denied none ∷ [])
      (inl exchange_active)
