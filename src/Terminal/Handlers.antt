-- ===== src/Terminal/Handlers.antt =====
-- The handlers of `terminal.*` (crates/daemon/src/terminal.rs). Their text encodings are parameters.
use dsh_desktop_shell.EventRouter.State.{subscribe, unsubscribe, Router}
use dsh_desktop_shell.Terminal.Requests.{
  TerminalCloseRequest, valid_session_id, terminal_id, TerminalResizeRequest, TerminalWriteRequest,
  schema_version, TerminalCreateRequest, is_valid_request,
}
use dsh_desktop_shell.Terminal.Registry.{
  state_unavailable, io, write_too_large, invalid_geometry, unknown_session, spawn_unavailable,
  invalid_shell, Os, PtyRegistry, PtyError,
}
use dsh_desktop_shell.Terminal.Host.{
  create_terminal, agent_binding_from, mode_for, TerminalReport, public_report, owner, forget,
  binding, reports, TerminalHost, AgentSessionBinding,
}
use dsh_desktop_shell.Envelope.Types.{
  stale_generation, not_process_owner, unavailable, unauthorized, malformed_message, ErrorCode,
}
use dsh_desktop_shell.Daemon.Types.{method_failed, DaemonMethodError}
use dsh_desktop_shell.Broker.Types.{
  generation_mismatch, unknown_provider, scope_mismatch, lease_revoked, lease_expired, not_granted,
  unknown_capability, BrokerError,
}
use dsh_desktop_shell.Broker.State.{Query, enforce_dispatch, Broker}
use dsh_desktop_shell.Prelude.{
  List, ltb, ◌&&◌, ℕ, or_fail, length, Bool, ◌==◌, String, Result, Option, ◌>>◌, if◌then◌else◌, err,
  ok, false, true, some, none,
}
use dsh_desktop_shell.Terminal.Registry
use Prim.Native.String.{len}
use mathlib.Core.Option

-- The texts that an error can have.
pub data TerminalReason : Type 0 where
  request_shape request_malformed session_unknown owned_elsewhere : TerminalReason
  refused : BrokerError → TerminalReason
  failing : PtyError → TerminalReason

-- What serde_json gives.
pub record TerminalApi (Json : Type 0) : Type 0 where
  pub create_request : Json → Option TerminalCreateRequest
  pub write_request : Json → Option TerminalWriteRequest
  pub resize_request : Json → Option TerminalResizeRequest
  pub close_request : Json → Option TerminalCloseRequest
  pub empty_object : Json
  pub of_report : TerminalReport → Json
  pub of_sessions : List TerminalReport → ℕ → Json
  pub wording : TerminalReason → String

-- What the handlers change.
pub record Terminals (Platform Output : Type 0) : Type 0 where
  pub host : TerminalHost Platform
  pub events : Router Output

-- What they read: the broker with its clock, and the operating system in the call.
pub record TerminalContext (Json Platform : Type 0) : Type 0 where
  pub broker : Broker Json
  pub now : ℕ
  pub os : Os Platform
  pub connection_id : ℕ

abbrev pub query_of : AgentSessionBinding → ℕ → Query
query_of b now = record {
  capability = terminal_id;
  owner = b.agent_id;
  generation = b.generation;
  scope = b.scope;
  now = now;
}

abbrev pub TerminalHandler : Type 0 → Type 0 → Type 0 → Type 0
TerminalHandler Json Platform Output =
    Terminals Platform Output
    → TerminalContext Json Platform
    → Json
    → Terminals Platform Output × Result DaemonMethodError Json

module _ {Json : Type 0} (api : TerminalApi Json) where
  abbrev pub failed : ErrorCode → TerminalReason → Bool → DaemonMethodError
  failed code reason retryable = method_failed code (api.wording reason) retryable

  abbrev pub malformed : DaemonMethodError
  malformed = failed malformed_message request_malformed false

  abbrev pub parse_request : {R : Type 0} → (Json → Option R) → Json → Result DaemonMethodError R
  parse_request parse payload =
      or_fail (parse payload) (failed malformed_message request_shape false)

  unfoldable pub map_pty_error : PtyError → DaemonMethodError
  map_pty_error invalid_shell = failed malformed_message (failing invalid_shell) false
  map_pty_error spawn_unavailable = failed unavailable (failing spawn_unavailable) true
  map_pty_error unknown_session = failed unavailable (failing unknown_session) false
  map_pty_error invalid_geometry = failed malformed_message (failing invalid_geometry) false
  map_pty_error write_too_large = failed malformed_message (failing write_too_large) false
  map_pty_error io = failed unavailable (failing io) true
  map_pty_error state_unavailable = failed unavailable (failing state_unavailable) true

  unfoldable pub map_broker_error : BrokerError → DaemonMethodError
  map_broker_error unknown_capability = failed unauthorized (refused unknown_capability) false
  map_broker_error not_granted = failed unauthorized (refused not_granted) false
  map_broker_error lease_expired = failed unauthorized (refused lease_expired) false
  map_broker_error lease_revoked = failed unauthorized (refused lease_revoked) false
  map_broker_error scope_mismatch = failed unauthorized (refused scope_mismatch) false
  map_broker_error unknown_provider = failed unavailable (refused unknown_provider) true
  map_broker_error generation_mismatch = failed stale_generation (refused generation_mismatch) false
  map_broker_error BrokerError.conflict =
      failed ErrorCode.conflict (refused BrokerError.conflict) false

  module _ {Platform : Type 0} where
    unfoldable pub gate_agent :
        TerminalContext Json Platform → AgentSessionBinding → Result DaemonMethodError (Unit {0})
    gate_agent context b = elim (enforce_dispatch context.broker (query_of b context.now)) [
      | ok u ↦ ok tt
      | err e ↦ err (map_broker_error e)
    ]

    -- The gate of a session or a request that may belong to an agent.
    abbrev pub gate_if_agent :
        TerminalContext Json Platform
        → Option AgentSessionBinding
        → Result DaemonMethodError (Unit {0})
    gate_if_agent context none = ok tt
    gate_if_agent context (some b) = gate_agent context b

    unfoldable pub check_owner :
        TerminalHost Platform
        → TerminalContext Json Platform
        → String
        → Result DaemonMethodError (Unit {0})
    check_owner h context id = elim (owner h id) [
      | none ↦ err (failed unavailable session_unknown false)
      | some key ↦
          if key == context.connection_id
          then ok tt
          else err (failed not_process_owner owned_elsewhere false)
    ]

    -- The two checks that come before each change of a session.
    abbrev pub admit_change :
        TerminalHost Platform
        → TerminalContext Json Platform
        → String
        → Result DaemonMethodError (Unit {0})
    admit_change h context id = do check_owner h context id; gate_if_agent context (binding h id)

    -- Before the close the console is given its own size once more; the answer is ignored.
    abbrev pub flush : PtyRegistry Platform → Os Platform → String → PtyRegistry Platform
    flush r os id = elim (Registry.report r id) [
      | ok report ↦ (Registry.resize r os id report.cols report.rows).0
      | err e ↦ r
    ]

  module _ {Platform Output : Type 0} where
    -- The registry's part of a request, with its error mapped.
    abbrev pub with_registry :
        {A : Type 0}
        → Terminals Platform Output
        → PtyRegistry Platform × Result PtyError A
        → (A → Json)
        → Terminals Platform Output × Result DaemonMethodError Json
    with_registry t (registry, ok a) answer =
        (record t { host = record t.host { registry = registry } }, ok (answer a))
    with_registry t (registry, err e) answer =
        (record t { host = record t.host { registry = registry } }, err (map_pty_error e))

    unfoldable pub handle_create : TerminalHandler Json Platform Output
    handle_create t context payload = elim (parse_request api.create_request payload) [
      | err e ↦ (t, err e)
      | ok request ↦
          if is_valid_request request
          then (let binding = Option.map agent_binding_from request.agent in
              elim (gate_if_agent context binding) [
                | err e ↦ (t, err e)
                | ok u ↦
                    let (host, made) =
                      create_terminal t.host context.os request context.connection_id binding in
                    elim made [
                      | err e ↦ (record t { host = host }, err (map_pty_error e))
                      | ok report ↦ (
                        record {
                          host = host;
                          events = subscribe t.events context.connection_id report.session_id;
                        },
                        ok (api.of_report report),
                      )
                    ]
              ])
          else (t, err malformed)
    ]

    unfoldable pub handle_write : TerminalHandler Json Platform Output
    handle_write t context payload = elim (parse_request api.write_request payload) [
      | err e ↦ (t, err e)
      | ok request ↦
          if request.schema_version == schema_version
            && (valid_session_id request.session_id && ltb 0 (len request.text))
          then elim (admit_change t.host context request.session_id) [
            | err e ↦ (t, err e)
            | ok u ↦
                with_registry t
                  (Registry.write t.host.registry context.os request.session_id request.text)
                  (λ u. api.empty_object)
          ]
          else (t, err malformed)
    ]

    unfoldable pub handle_resize : TerminalHandler Json Platform Output
    handle_resize t context payload = elim (parse_request api.resize_request payload) [
      | err e ↦ (t, err e)
      | ok request ↦
          if request.schema_version == schema_version && valid_session_id request.session_id
          then elim (admit_change t.host context request.session_id) [
            | err e ↦ (t, err e)
            | ok u ↦
                with_registry t
                  (Registry.resize t.host.registry context.os request.session_id request.cols
                    request.rows)
                  (λ report.
                    api.of_report (public_report report (mode_for t.host request.session_id)))
          ]
          else (t, err malformed)
    ]

    abbrev pub close_terminal :
        Terminals Platform Output
        → TerminalContext Json Platform
        → String
        → Terminals Platform Output × Result DaemonMethodError Json
    close_terminal t context id =
        let (registry, shut) = Registry.close (flush t.host.registry context.os id) id in
        let host = record t.host { registry = registry } in
        elim shut [
          | err e ↦ (record t { host = host }, err (map_pty_error e))
          | ok u ↦ (
            record {
              host = forget host id;
              events = unsubscribe t.events context.connection_id id;
            },
            ok api.empty_object,
          )
        ]

    unfoldable pub handle_close : TerminalHandler Json Platform Output
    handle_close t context payload = elim (parse_request api.close_request payload) [
      | err e ↦ (t, err e)
      | ok request ↦
          if request.schema_version == schema_version && valid_session_id request.session_id
          then elim (admit_change t.host context request.session_id) [
            | err e ↦ (t, err e)
            | ok u ↦ close_terminal t context request.session_id
          ]
          else (t, err malformed)
    ]

    unfoldable pub handle_status : TerminalHandler Json Platform Output
    handle_status t context payload =
        let sessions = reports t.host in (t, ok (api.of_sessions sessions (length sessions)))
