-- ===== src/Terminal/Tests.antt =====
-- The theorems on the terminals at concrete calls (crates/daemon/src/terminal.rs).
use dsh_desktop_shell.Daemon.Types.{DaemonMethodError}
use dsh_desktop_shell.Terminal.Live.{FitKey}
use dsh_desktop_shell.Terminal.Gate.{unauthorised_refused, handle, writes, creates, Operation}
use dsh_desktop_shell.Broker.State.{with_clock, enforce_dispatch}
use dsh_desktop_shell.Terminal.Requests.{TerminalWriteRequest, TerminalCreateRequest}
use dsh_desktop_shell.Terminal.Registry.{Session, Os}
use dsh_desktop_shell.Terminal.Host.{new_host, binding, AgentSessionBinding}
use dsh_desktop_shell.Terminal.History.{serve_new-FitKey, serve}
use dsh_desktop_shell.Terminal.Handlers.{Terminals, TerminalContext, TerminalApi}
use dsh_desktop_shell.EventRouter.State.{Router}
use dsh_desktop_shell.Prelude.{
  lookup, dec_of, text_discrete, ◌+◌, Option, List, ◌≡◌, err, ok, refl, false, inr, some, none, ◌∷◌,
  [],
}

-- A JSON value that a request is read from, or an answer.
data Value : Type 0 where
  created : TerminalCreateRequest → Value
  written : TerminalWriteRequest → Value
  nothing : Value

abbrev create_of : Value → Option TerminalCreateRequest
create_of (created request) = some request
create_of _ = none

abbrev write_of : Value → Option TerminalWriteRequest
write_of (written request) = some request
write_of _ = none

abbrev values : TerminalApi Value
values = record {
  create_request = create_of;
  write_request = write_of;
  resize_request = λ v. none;
  close_request = λ v. none;
  empty_object = nothing;
  of_report = λ r. nothing;
  of_sessions = λ rs n. nothing;
  wording = λ r. "";
}

abbrev calm : Os (Unit {0})
calm = record {
  now = λ i. 1000 + i;
  resolve_shell = λ shell. ok "sh";
  spawn = λ path cols rows cwd. some tt;
  write = λ p text. (p, ok tt);
  resize = λ p cols rows. (p, ok tt);
}

abbrev context : TerminalContext Value (Unit {0})
context = record { broker = with_clock; now = 2000; os = calm; connection_id = 1 }

abbrev agent : AgentSessionBinding
agent = record {
  agent_id = "agent";
  activation_id = "act-1";
  generation = 1;
  scope = record { session_id = some "s"; workspace = none; domains = []; resources = [] };
}

abbrev quiet : Router (Unit {0})
quiet = record { next_connection = 2; connections = []; channels = []; sessions = [] }

abbrev live : Session (Unit {0})
live = record {
  id = "pty-1-1";
  cols = 80;
  rows = 24;
  created_at_unix_ms = 1;
  last_activity_unix_ms = none;
  closed = false;
  error = none;
  platform = tt;
}

-- An agent's session of connection 1.
abbrev bound : Terminals (Unit {0}) (Unit {0})
bound = record {
  host = record {
    registry = record { next_id = 2; sessions = ("pty-1-1", live) ∷ [] };
    bindings = ("pty-1-1", agent) ∷ [];
    owners = ("pty-1-1", 1) ∷ [];
  };
  events = quiet;
}

abbrev line : TerminalWriteRequest
line = record { schema_version = 1; session_id = "pty-1-1"; text = "ls" }

abbrev console : TerminalCreateRequest
console = record {
  schema_version = 1;
  mode = "human_surface";
  cols = 80;
  rows = 24;
  shell = none;
  cwd = none;
  agent = none;
}

abbrev calls : List (Operation × (TerminalContext Value (Unit {0}) × Value))
calls =
    (creates, (context, created console))
    ∷ (writes, (context, written (record line { session_id = "pty-1000-1" })))
    ∷ []

unauthorised_refused_example :
    ((handle values writes bound context (written line)).0 ≡ bound)
    × ((e : DaemonMethodError) × ((handle values writes bound context (written line)).1 ≡ err e))
unfolding with_clock binding enforce_dispatch text_discrete dec_of
unauthorised_refused_example =
    unauthorised_refused values context writes bound (written line)
      (line, (refl, inr (agent, (refl, λ e. cc e))))

serve_new-FitKey_example :
    let h = (serve values (record { host = new_host; events = quiet }) calls).host in
    FitKey "pty-1000-1"
      (lookup text_discrete "pty-1000-1" h.registry.sessions)
      (lookup text_discrete "pty-1000-1" h.owners)
      (lookup text_discrete "pty-1000-1" h.bindings)
serve_new-FitKey_example = serve_new-FitKey values quiet calls "pty-1000-1"
