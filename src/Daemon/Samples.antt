-- ===== src/Daemon/Samples.antt =====
-- Concrete connections and frames of the daemon's server (crates/daemon/src/server.rs).

use dsh_desktop_shell.Daemon.Invocation.{query_of}
use dsh_desktop_shell.Daemon.Hello.{handle_hello}
use dsh_desktop_shell.Daemon.Terms.{Fresh}
use dsh_desktop_shell.Daemon.Replies.{DaemonServer}
use dsh_desktop_shell.EventRouter.State.{spawn}
use dsh_desktop_shell.Daemon.Catalog.{system_capability}
use dsh_desktop_shell.Negotiation.Messages.{HelloPayload}
use dsh_desktop_shell.Envelope.Types.{ErrorCode, EnvelopeKind, Envelope}
use dsh_desktop_shell.Daemon.Types.{
  CapabilityContext, SessionState, participant, new_session, Activation, off, method_failed,
  BrowserCloseRequest, Handler, DaemonApi, BrowserHost,
}
use dsh_desktop_shell.Daemon.Connection.{server_after, parsed, Turn}
use dsh_desktop_shell.Broker.State.{Query, with_clock}
use dsh_desktop_shell.Prelude.{ℕ, String, Option, List, err, false, true, some, none, ◌∷◌, []}

-- The JSON values of the examples.
pub data Value : Type 0 where
  empty_object : Value
  greets : HelloPayload → Value
  closes : BrowserCloseRequest → Value

abbrev pub unsupported : Handler Value (Unit {0}) (Unit {0})
unsupported r context payload = (r, err (method_failed ErrorCode.unavailable "not here" false))

abbrev pub greeting_of : Value → Option HelloPayload
greeting_of (greets p) = some p
greeting_of _ = none

abbrev pub close_of : Value → Option BrowserCloseRequest
close_of (closes p) = some p
close_of _ = none

abbrev pub values : DaemonApi Value (Unit {0}) (Unit {0})
values = record {
  json = record {
    is_object = λ v. true;
    hello_payload = greeting_of;
    agreement_payload = λ v. none;
  };
  null = empty_object;
  of_agreement = λ p. empty_object;
  of_report = λ r. empty_object;
  of_browsers = λ rs. empty_object;
  of_sessions = λ rs. empty_object;
  of_output = λ id chunk at. empty_object;
  of_lifecycle = λ id kind at. empty_object;
  pong = λ v. v;
  snapshot = λ b r n k clock. empty_object;
  create_request = λ v. none;
  close_request = close_of;
  navigate_request = λ v. none;
  load_failed_request = λ v. none;
  is_blank = λ t. false;
  wording = λ r. "refused";
  terminal_create = unsupported;
  terminal_write = unsupported;
  terminal_resize = unsupported;
  terminal_close = unsupported;
  terminal_status = unsupported;
  runtime_start = unsupported;
  runtime_status = unsupported;
  runtime_stop = unsupported;
  runtime_restart = unsupported;
  runtime_binding = unsupported;
  scheduler_wake = unsupported;
  scheduler_cancel = unsupported;
}

-- A session of connection 2.
abbrev pub owned_host : BrowserHost
owned_host = record {
  registry = record { next_seq = 7; sessions = []; events = [] };
  owners = ("brw-1-0", 2) ∷ [];
}

abbrev pub empty_server : DaemonServer Value (Unit {0}) (Unit {0})
empty_server = record {
  broker = with_clock;
  resources = record { browser = owned_host; events = spawn; other = tt };
  policy = off;
  folds_case = false;
}

abbrev pub fresh_at : String → ℕ → Fresh
fresh_at message_id now = record {
  activation_id = "act-1";
  message_id = message_id;
  timestamp = "2026-01-01T00:00:00Z";
  now = now;
  grant_clock = λ i. now;
  lease_clock = λ i. now;
  clock = λ i. now;
  connections = 1;
  credentials_issued = 1;
}

abbrev pub greeting : HelloPayload
greeting = record { instance_id = "instance-1"; supports = system_capability ∷ []; requires = [] }

abbrev pub hello_frame : Envelope Value
hello_frame = record {
  protocol = "interop.dsh-desktop.local/v1alpha1";
  id = "msg-0001";
  kind = EnvelopeKind.hello;
  reply_to = none;
  participant = record { component = "tool"; facet = "agent"; activation_id = none };
  timestamp = "2026-01-01T00:00:00Z";
  generation = 1;
  capability = none;
  method = none;
  payload = some (greets greeting);
  error = none;
}

abbrev pub ping_frame : Envelope Value
ping_frame = record hello_frame {
  id = "msg-0002";
  kind = EnvelopeKind.invocation;
  participant = record { component = "tool"; facet = "agent"; activation_id = some "act-1" };
  capability = some system_capability;
  method = some "ping";
  payload = some empty_object;
}

abbrev pub hello_turn : Turn Value (Unit {0}) (Unit {0})
hello_turn = record {
  frame = parsed hello_frame;
  fresh = fresh_at "out-0001" 1000;
  meanwhile = λ r. r;
}

abbrev pub ping_turn : Turn Value (Unit {0}) (Unit {0})
ping_turn = record {
  frame = parsed ping_frame;
  fresh = fresh_at "out-0002" 2000;
  meanwhile = λ r. r;
}

abbrev pub greeted : List (Turn Value (Unit {0}) (Unit {0}))
greeted = hello_turn ∷ []

abbrev pub close_request : Value
close_request = closes (record { schema_version = 1; session_id = "brw-1-0" })

abbrev pub agent_activation : Activation
agent_activation = record {
  activation_id = "act-1";
  authority = participant;
  agent_id = "tool-agent";
  generation = 1;
  granted = system_capability ∷ [];
  hello_id = "msg-0001";
}

abbrev pub granted_server : DaemonServer Value (Unit {0}) (Unit {0})
granted_server = server_after values empty_server none 1 greeted ping_turn

abbrev pub ping_query : Query
ping_query = query_of agent_activation system_capability 2000

-- What the Hello of the examples comes to.
abbrev pub greeted_once :
    DaemonServer Value (Unit {0}) (Unit {0}) × SessionState × List (Envelope Value)
greeted_once = handle_hello values empty_server (new_session none) hello_frame hello_turn.fresh

abbrev pub first_connection : CapabilityContext Value
first_connection = record {
  snapshot = empty_object;
  broker = empty_server.broker;
  connection_id = 1;
  clock = λ i. 5;
}
