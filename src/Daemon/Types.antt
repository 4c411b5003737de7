-- ===== src/Daemon/Types.antt =====
-- The data of the daemon's server (crates/daemon/src/server.rs, capabilities.rs, browser.rs,
-- crates/local-transport/src/peer.rs) and what it does not define itself (`DaemonApi`).
use dsh_desktop_shell.Negotiation.Messages.{AgreementPayload, ProtocolCoordinate}
use dsh_desktop_shell.EventRouter.State.{Router}
use dsh_desktop_shell.Envelope.Types.{ErrorCode, JsonApi}
use dsh_desktop_shell.Browser.Session.{BrowserSession, SessionRegistry}
use dsh_desktop_shell.Broker.Types.{BrokerError}
use dsh_desktop_shell.Broker.State.{Broker}
use dsh_desktop_shell.Prelude.{Bool, Result, ℕ, String, Option, List, none, []}

pub record PeerIdentity : Type 0 where
  pub pid : ℕ
  pub image_path : Option String

-- `off`, or the image path of the Shell that is expected, if one is configured.
pub data PeerIdentityPolicy : Type 0 where
  off : PeerIdentityPolicy
  strict : Option String → PeerIdentityPolicy

pub data ActivationAuthority : Type 0 where
  shell_control participant : ActivationAuthority

unfoldable pub ActivationAuthority-discrete : Discrete ActivationAuthority
ActivationAuthority-discrete = hlevel

pub record Activation : Type 0 where
  pub activation_id : String
  pub authority : ActivationAuthority
  pub agent_id : String
  pub generation : ℕ
  pub granted : List ProtocolCoordinate
  pub hello_id : String

pub record SessionState : Type 0 where
  pub activations : List (String × Activation)
  pub authority : Option ActivationAuthority
  pub identity : Option PeerIdentity
  pub seen_ids : List String
  pub next_generation : ℕ

abbrev pub new_session : Option PeerIdentity → SessionState
new_session identity = record {
  activations = [];
  authority = none;
  identity = identity;
  seen_ids = [];
  next_generation = 0;
}

pub data DaemonMethodError : Type 0 where
  method_not_found : ProtocolCoordinate → String → DaemonMethodError
  invalid_payload conflict : ProtocolCoordinate → String → String → DaemonMethodError
  method_failed : ErrorCode → String → Bool → DaemonMethodError

pub data BrowserLifecycleKind : Type 0 where
  created closed : BrowserLifecycleKind

-- What a routed event carries beside its session: a chunk of terminal output, or a lifecycle event
-- of the browser with its time.
pub data EventContent (Output : Type 0) : Type 0 where
  output : Output → EventContent Output
  lifecycle : BrowserLifecycleKind → ℕ → EventContent Output

-- The session registry and the connection that created each session.
pub record BrowserHost : Type 0 where
  pub registry : SessionRegistry
  pub owners : List (String × ℕ)

-- What the handlers work on; `other` is the state of the terminal host, the runtime host and the
-- scheduler.
pub record Resources (Output Other : Type 0) : Type 0 where
  pub browser : BrowserHost
  pub events : Router (EventContent Output)
  pub other : Other

pub record BrowserCreateRequest : Type 0 where
  pub schema_version : ℕ
  pub mode : String

pub record BrowserCloseRequest : Type 0 where
  pub schema_version : ℕ
  pub session_id : String

pub record BrowserNavigateRequest : Type 0 where
  pub schema_version : ℕ
  pub session_id : String
  pub url : String

pub record BrowserLoadFailedRequest : Type 0 where
  pub schema_version : ℕ
  pub session_id : String
  pub message : String

-- The `mode` of a report is always `human_surface`, and its state is printed.
pub record BrowserReport : Type 0 where
  pub schema_version : ℕ
  pub session : BrowserSession

-- The texts that an error can have.
pub data Reason : Type 0 where
  unparseable replayed_id invalid_envelope mixed_authority no_activation no_agreement : Reason
  capability_not_granted relaxed_shell_only method_unknown : Reason
  refused : BrokerError → Reason
  request_shape request_malformed owned_elsewhere session_unknown session_closed url_rejected :
      Reason
  provider_unavailable : Reason

-- What a handler may need beside the resources and the payload; the broker is only read.
pub record CapabilityContext (Json : Type 0) : Type 0 where
  pub snapshot : Json
  pub broker : Broker Json
  pub connection_id : ℕ
  pub clock : ℕ → ℕ

abbrev pub Handler : Type 0 → Type 0 → Type 0 → Type 0
Handler Json Output Other =
    Resources Output Other
    → CapabilityContext Json
    → Json
    → Resources Output Other × Result DaemonMethodError Json

-- What serde_json and `format!` give, and the handlers of the hosts that are not modelled.
pub record DaemonApi (Json Output Other : Type 0) : Type 0 where
  pub json : JsonApi Json
  pub null : Json
  pub of_agreement : AgreementPayload → Json
  pub of_report : BrowserReport → Json
  pub of_browsers : List BrowserReport → Json
  pub of_sessions : List BrowserReport → Json
  pub of_output : String → Output → ℕ → Json
  pub of_lifecycle : String → BrowserLifecycleKind → ℕ → Json
  pub pong : Json → Json
  pub snapshot : Broker Json → Resources Output Other → ℕ → ℕ → (ℕ → ℕ) → Json
  pub create_request : Json → Option BrowserCreateRequest
  pub close_request : Json → Option BrowserCloseRequest
  pub navigate_request : Json → Option BrowserNavigateRequest
  pub load_failed_request : Json → Option BrowserLoadFailedRequest
  pub is_blank : String → Bool
  pub wording : Reason → String
  pub terminal_create : Handler Json Output Other
  pub terminal_write : Handler Json Output Other
  pub terminal_resize : Handler Json Output Other
  pub terminal_close : Handler Json Output Other
  pub terminal_status : Handler Json Output Other
  pub runtime_start : Handler Json Output Other
  pub runtime_status : Handler Json Output Other
  pub runtime_stop : Handler Json Output Other
  pub runtime_restart : Handler Json Output Other
  pub runtime_binding : Handler Json Output Other
  pub scheduler_wake : Handler Json Output Other
  pub scheduler_cancel : Handler Json Output Other
