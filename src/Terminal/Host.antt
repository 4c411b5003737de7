-- ===== src/Terminal/Host.antt =====
-- The daemon's host of the terminals (crates/daemon/src/terminal.rs, `TerminalHost`). Its locks are
-- never poisoned.
use dsh_desktop_shell.Broker.Types.{Scope}
use dsh_desktop_shell.Terminal.Requests.{
  to_broker_scope, schema_version, TerminalCreateRequest, TerminalAgentIdentity,
}
use dsh_desktop_shell.Terminal.Registry.{PtyError, new_registry, PtyReport, PtyRegistry, Os}
use dsh_desktop_shell.Prelude.{
  text_discrete, insert, Result, remove, map, lookup, length, Option, ℕ, String, List, err, ok,
  some, none, [],
}
use dsh_desktop_shell.Terminal.Registry

pub record AgentSessionBinding : Type 0 where
  pub agent_id : String
  pub activation_id : String
  pub generation : ℕ
  pub scope : Scope

pub record TerminalReport : Type 0 where
  pub schema_version : ℕ
  pub session_id : String
  pub state : String
  pub mode : String
  pub cols : ℕ
  pub rows : ℕ
  pub created_at_unix_ms : ℕ
  pub last_activity_unix_ms : Option ℕ
  pub error : Option String

pub record TerminalHost (Platform : Type 0) : Type 0 where
  pub registry : PtyRegistry Platform
  pub bindings : List (String × AgentSessionBinding)
  pub owners : List (String × ℕ)

abbrev pub public_report : PtyReport → String → TerminalReport
public_report report mode = record {
  schema_version = schema_version;
  session_id = report.session_id;
  state = report.state;
  mode = mode;
  cols = report.cols;
  rows = report.rows;
  created_at_unix_ms = report.created_at_unix_ms;
  last_activity_unix_ms = report.last_activity_unix_ms;
  error = report.error;
}

abbrev pub agent_binding_from : TerminalAgentIdentity → AgentSessionBinding
agent_binding_from identity = record {
  agent_id = identity.agent_id;
  activation_id = identity.activation_id;
  generation = identity.generation;
  scope = to_broker_scope identity.scope;
}

module _ {Platform : Type 0} where
  abbrev pub new_host : TerminalHost Platform
  new_host = record { registry = new_registry; bindings = []; owners = [] }

  -- `record` of the code.
  abbrev pub record_owner :
      TerminalHost Platform → String → ℕ → Option AgentSessionBinding → TerminalHost Platform
  record_owner h id owner binding = record h {
    owners = insert text_discrete id owner h.owners;
    bindings = elim binding [ none ↦ h.bindings | some b ↦ insert text_discrete id b h.bindings ];
  }

  unfoldable pub create_terminal :
      TerminalHost Platform
      → Os Platform
      → TerminalCreateRequest
      → ℕ
      → Option AgentSessionBinding
      → TerminalHost Platform × Result PtyError TerminalReport
  create_terminal h os request owner binding =
      let (registry, made) =
        Registry.create h.registry os request.shell request.cols request.rows request.cwd in
      let h = record h { registry = registry } in
      elim made [
        | err e ↦ (h, err e)
        | ok report ↦
            (record_owner h report.session_id owner binding, ok (public_report report request.mode))
      ]

  abbrev pub forget : TerminalHost Platform → String → TerminalHost Platform
  forget h id = record h {
    bindings = remove text_discrete id h.bindings;
    owners = remove text_discrete id h.owners;
  }

  unfoldable pub owner : TerminalHost Platform → String → Option ℕ
  owner h id = lookup text_discrete id h.owners

  unfoldable pub binding : TerminalHost Platform → String → Option AgentSessionBinding
  binding h id = lookup text_discrete id h.bindings

  unfoldable pub mode_for : TerminalHost Platform → String → String
  mode_for h id = elim (lookup text_discrete id h.bindings) [
    | some b ↦ "agent_automation"
    | none ↦ "human_surface"
  ]

  unfoldable pub session_count : TerminalHost Platform → ℕ
  session_count h = length (Registry.list h.registry)

  unfoldable pub reports : TerminalHost Platform → List TerminalReport
  reports h = map (λ r. public_report r (mode_for h r.session_id)) (Registry.list h.registry)
