-- ===== src/Daemon/Tests.antt =====
-- The theorems on the daemon's server at concrete connections (crates/daemon/src/server.rs).
use dsh_desktop_shell.Daemon.Events.{build_valid, build}
use dsh_desktop_shell.Envelope.WellFormed.{validate_envelope_iff}
use dsh_desktop_shell.Daemon.Samples.{
  fresh_at, Value, first_connection, ping_frame, greeting, ping_turn, ping_query, owned_host,
  hello_turn, hello_frame, greeted, close_request, agent_activation, values, greeted_once,
  granted_server, empty_server,
}
use dsh_desktop_shell.Daemon.Promise.{hello_keeps_word}
use dsh_desktop_shell.Daemon.Ownership.{browser_method-other}
use dsh_desktop_shell.EventRouter.Routing.{sends_to}
use dsh_desktop_shell.Daemon.Teardown.{end_connection_releases, end_connection_revokes}
use dsh_desktop_shell.Daemon.Entries.{entry_of}
use dsh_desktop_shell.Daemon.Replay.{id_counts_once, IsRefusal}
use dsh_desktop_shell.Daemon.Answers.{call_answered, IsReply}
use dsh_desktop_shell.Browser.Session.{session_id_of}
use dsh_desktop_shell.Daemon.Safety.{converse-Entitled, Entitled}
use dsh_desktop_shell.Daemon.History.{start-Serves, Serves}
use dsh_desktop_shell.Daemon.BrowserHost.{owner}
use dsh_desktop_shell.Broker.Takeover.{agent_generation}
use dsh_desktop_shell.Broker.AgentTypes.{contract_version}
use dsh_desktop_shell.Broker.Types.{Lease-discrete, CapabilityGrant-discrete, CapabilityId-discrete}
use dsh_desktop_shell.Broker.Scope.{covers}
use dsh_desktop_shell.Broker.AgentTypes.{contract_version, agent_lease_id, admit}
use dsh_desktop_shell.Broker.Agent.{
  register, each, lease_all, grant_all, issue_leases, issue_grants, activation_generation,
  broker_grant_from_negotiation,
}
use dsh_desktop_shell.Broker.Agent.{broker_grant_from_negotiation}
use dsh_desktop_shell.Daemon.Authority.{agent_id_of, allows, authority_of}
use dsh_desktop_shell.Daemon.Invocation.{reply_for, admit_invocation, invoke, handle_invocation}
use dsh_desktop_shell.Daemon.Hello.{handle_hello}
use dsh_desktop_shell.Scheduler.Timestamp.{skip_digits}
use dsh_desktop_shell.Envelope.Formats.{
  valid_method, valid_coordinate_kind, strip_stage, rsplit_once, valid_api_version,
  is_rfc3339_timestamp,
}
use dsh_desktop_shell.Envelope.Frames.{
  validate_payload_object, validate_method, validate_capability, validate_invocation,
  validate_items, all_unseen, validate_coordinates, validate_hello, validate_envelope,
}
use dsh_desktop_shell.Daemon.Terms.{terms_of, negotiate}
use dsh_desktop_shell.Daemon.Replies.{error_result}
use dsh_desktop_shell.EventRouter.State.{terminal, spawn}
use dsh_desktop_shell.Daemon.Catalog.{
  browser_capability, catalog_supports, dispatch_capability, system_capability,
}
use dsh_desktop_shell.Daemon.Admission.{Acts}
use dsh_desktop_shell.Negotiation.Messages.{
  Participant, includes_coordinate, ProtocolCoordinate-discrete,
}
use dsh_desktop_shell.Envelope.Types.{Envelope, ErrorCode}
use dsh_desktop_shell.Daemon.Types.{
  output, shell_control, participant, new_session, ActivationAuthority-discrete, off,
}
use dsh_desktop_shell.Daemon.Server.{handle_new, handle_envelope}
use dsh_desktop_shell.Daemon.Connection.{
  disconnected, end_connection, handle_frame, converse, session_after, server_after,
}
use dsh_desktop_shell.Broker.State.{
  revoke_for_capability, is_expired, is_revoked, matches, verdict, round, visit, scan_leases,
  enforce_valid_lease, enforce_dispatch, lease, grant, with_clock,
}
use dsh_desktop_shell.Prelude.{
  String, does, ap, Bool, arith, ◌≢◌, ok, ◌≡◌, lookup, dec_of, text_discrete, refl, false, true,
  inr, inl, some, none, ◌∷◌, [],
}

-- The connection runs: the Participant's Hello gets an activation of the first generation, which the
-- broker holds, and its ping is answered with a result.
connection_runs :
    (lookup text_discrete "act-1" greeted_once.1.activations ≡ some agent_activation)
    × (lookup text_discrete "act-1" (session_after values empty_server none 1 greeted).activations
        ≡ some agent_activation)
    × (agent_generation granted_server.broker "tool-agent" "act-1" ≡ some 1)
    × Acts (server_after values empty_server none 1 greeted ping_turn) (
        handle_envelope values
          (server_after values empty_server none 1 greeted ping_turn)
          (session_after values empty_server none 1 greeted)
          ping_frame
          1
          ping_turn.fresh)
unfolding handle_envelope converse handle_frame handle_new validate_envelope text_discrete
    is_rfc3339_timestamp validate_hello validate_coordinates valid_api_version rsplit_once
    skip_digits strip_stage valid_coordinate_kind all_unseen validate_items handle_hello
    validate_invocation validate_capability validate_method validate_payload_object valid_method
    dec_of handle_invocation invoke admit_invocation negotiate authority_of allows terms_of
    broker_grant_from_negotiation activation_generation issue_grants issue_leases grant_all
    lease_all each grant lease admit enforce_dispatch enforce_valid_lease scan_leases visit round
    verdict matches is_revoked is_expired covers register with_clock spawn dispatch_capability
    reply_for catalog_supports ProtocolCoordinate-discrete CapabilityId-discrete
    CapabilityGrant-discrete Lease-discrete ActivationAuthority-discrete agent_lease_id
    contract_version revoke_for_capability error_result agent_generation
connection_runs = (refl, refl, refl, inr (inl (refl, refl)))

-- A ping of a Participant is answered, and the broker is what lets it through.
converse-Entitled_example :
    Entitled false off none
      (server_after values empty_server none 1 greeted ping_turn)
      (session_after values empty_server none 1 greeted)
      ping_frame
      2000
converse-Entitled_example =
    converse-Entitled values empty_server none 1 greeted ping_turn ping_frame (connection_runs.3)

start-Serves_example :
    Serves false off none
      (converse values empty_server (new_session none) 1 greeted).0
      (session_after values empty_server none 1 greeted)
start-Serves_example = start-Serves values empty_server none 1 greeted

id_counts_once_example :
    (let d = server_after values empty_server none 1 greeted ping_turn in
      let s = session_after values empty_server none 1 greeted in
      let o =
        handle_envelope values d s (record ping_frame { id = "msg-0001" }) 1 ping_turn.fresh in
      (o.0 ≡ d)
      × (o.1.activations ≡ s.activations)
      × IsRefusal ErrorCode.malformed_message "msg-0001" o.2)
id_counts_once_example =
    id_counts_once values empty_server none 1 greeted ping_turn
      (record ping_frame { id = "msg-0001" }) (inl refl)

hello_valid : validate_envelope values.json hello_frame ≡ ok tt
unfolding validate_envelope validate_hello validate_coordinates validate_items all_unseen
    valid_api_version valid_coordinate_kind rsplit_once strip_stage is_rfc3339_timestamp skip_digits
    text_discrete dec_of
hello_valid = refl

call_answered_example :
    (let o =
        handle_envelope values empty_server (new_session none) hello_frame 1 hello_turn.fresh in
      IsReply "msg-0001" 0 o.2 × (o.1.next_generation ≡ 1))
call_answered_example =
    call_answered values empty_server (new_session none) hello_frame 1 hello_turn.fresh hello_valid
      (inl refl)

other_id : session_id_of 5 7 ≢ "brw-1-0"
unfolding session_id_of text_discrete dec_of
other_id e =
    let same : ◌≡◌ {A = Bool} false true = ap (λ t. does (text_discrete t "brw-1-0")) e in cc same

-- Connection 1 asks to close the session of connection 2.
browser_method-other_example :
    entry_of
      (dispatch_capability values browser_capability "browser.close" empty_server.resources
        first_connection close_request).0.browser
      "brw-1-0"
    ≡ entry_of owned_host "brw-1-0"
unfolding owner text_discrete dec_of
browser_method-other_example =
    browser_method-other values "brw-1-0" first_connection 2 (λ e. omega (arith, e)) "browser.close"
      empty_server.resources close_request refl other_id

end_connection_revokes_example :
    enforce_dispatch
      (end_connection disconnected granted_server
        (session_after values empty_server none 1 greeted)
        1
        3000).broker
      ping_query
    ≢ ok tt
end_connection_revokes_example =
    end_connection_revokes granted_server (session_after values empty_server none 1 greeted) 1 3000
      "act-1" agent_activation ping_query (connection_runs.1) (connection_runs.2) refl refl

end_connection_releases_example :
    (let r = (end_connection disconnected empty_server (new_session none) 1 3000).resources in
      (owner r.browser "brw-1-0" ≢ some 1)
      × (owner r.browser "brw-1-0" ≡ some 2)
      × (sends_to r.events 1 ≡ false)
      × (lookup text_discrete "brw-1-0" r.events.sessions ≢ some 1))
unfolding owner text_discrete dec_of
end_connection_releases_example =
    end_connection_releases empty_server (new_session none) 1 3000 "brw-1-0" "brw-1-0" 2
      (λ e. omega (arith, e)) refl

supported : includes_coordinate (system_capability ∷ []) system_capability ≡ true
unfolding ProtocolCoordinate-discrete text_discrete dec_of
supported = refl

hello_keeps_word_example :
    admit_invocation greeted_once.0.broker agent_activation system_capability 5000 ≡ ok tt
unfolding authority_of allows text_discrete dec_of ActivationAuthority-discrete
hello_keeps_word_example =
    hello_keeps_word values empty_server (new_session none) hello_frame hello_turn.fresh greeting
      agent_activation system_capability 5000 refl refl (connection_runs.0) supported
      (inl (λ e. omega (arith, e))) (omega arith)

abbrev shell : Participant
shell = record { component = "dsh-desktop-shell"; facet = "shell"; activation_id = none }

abbrev lookalike : Participant
lookalike = record { component = "dsh-desktop"; facet = "shell-shell"; activation_id = none }

-- A participant that is not the Shell gets the Shell's owner id.
shared_owner :
    (agent_id_of lookalike ≡ agent_id_of shell)
    × (authority_of false off none lookalike ≡ participant)
    × (authority_of false off none shell ≡ shell_control)
unfolding authority_of allows text_discrete dec_of
shared_owner = (refl, refl, refl)

-- The error for a mixed class, whatever its text, is no valid Result.
mixed_reply_invalid :
    (message : String)
    → validate_envelope values.json
        (error_result
          (new_session none)
          hello_turn.fresh
          "msg-0001"
          "msg-0001"
          none
          none
          ErrorCode.unauthorized
          message
          false).1
      ≢ ok tt
unfolding error_result
mixed_reply_invalid message valid = ((validate_envelope_iff values.json _).0 valid).1.1.0

build_valid_example :
    (frame : Envelope Value) × ((build values (fresh_at "out-0001" 1000) (terminal "t" (output tt))
        ≡ some frame)
      × (validate_envelope values.json frame ≡ ok tt))
unfolding is_rfc3339_timestamp skip_digits
build_valid_example =
    build_valid values (fresh_at "out-0001" 1000) (terminal "t" (output tt)) tt
      (omega arith, omega arith) refl (λ id chunk at. refl) (λ id kind at. refl)
