-- ===== src/Terminal/Requests.antt =====
-- The requests of the terminal capability and their checks (crates/daemon/src/terminal.rs). The
-- fields of a request are what serde gives for its JSON; missing lists are empty.
use dsh_desktop_shell.Conformance.Formats.{is_ascii_alphanumeric}
use dsh_desktop_shell.Browser.Session.{is_id_code}
use dsh_desktop_shell.Broker.Types.{Scope, CapabilityId}
use dsh_desktop_shell.Prelude.{
  text_discrete, any, all, length, leb, is_empty, does, ◌||◌, ◌==◌, ◌&&◌, not, ltb, codes, ℕ,
  String, Option, List, Bool, if◌then◌else◌, false, true, some, none, ◌∷◌, [],
}
use Prim.Native.String.{len}

abbrev pub schema_version : ℕ
schema_version = 1

abbrev pub terminal_id : CapabilityId
terminal_id = record { api_version = "terminal.dsh-desktop.local/v1alpha1"; kind = "Terminal" }

pub record TerminalAgentScope : Type 0 where
  pub session_id : Option String
  pub workspace : Option String
  pub domains : List String
  pub resources : List String

pub record TerminalAgentIdentity : Type 0 where
  pub agent_id : String
  pub activation_id : String
  pub generation : ℕ
  pub scope : TerminalAgentScope

pub record TerminalCreateRequest : Type 0 where
  pub schema_version : ℕ
  pub mode : String
  pub cols : ℕ
  pub rows : ℕ
  pub shell : Option String
  pub cwd : Option String
  pub agent : Option TerminalAgentIdentity

pub record TerminalWriteRequest : Type 0 where
  pub schema_version : ℕ
  pub session_id : String
  pub text : String

pub record TerminalResizeRequest : Type 0 where
  pub schema_version : ℕ
  pub session_id : String
  pub cols : ℕ
  pub rows : ℕ

pub record TerminalCloseRequest : Type 0 where
  pub schema_version : ℕ
  pub session_id : String

abbrev pub begins_pty : List ℕ → Bool
begins_pty (a ∷ b ∷ c ∷ d ∷ rest) = a == b'p' && (b == b't' && (c == b'y' && d == b'-'))
begins_pty _ = false

unfoldable pub valid_session_id : String → Bool
valid_session_id id = begins_pty (codes id) && (leb (len id) 64 && all is_id_code (codes id))

unfoldable pub valid_agent_token : String → Bool
valid_agent_token value =
    ltb 0 (len value)
    && (leb (len value) 64
        && all (λ c. is_ascii_alphanumeric c || (c == b'-' || c == b'_')) (codes value))

-- The iteration with the set of the items that were seen.
abbrev pub valid_items : List String → List String → Bool
valid_items seen [] = true
valid_items seen (item ∷ items) =
    ltb 0 (len item)
    && (leb (len item) 128
        && (not (any (λ s. does (text_discrete s item)) seen) && valid_items (item ∷ seen) items))

unfoldable pub valid_string_list : List String → Bool
valid_string_list items = not (ltb 16 (length items)) && valid_items [] items

abbrev pub is_some_text : Option String → Bool
is_some_text none = false
is_some_text (some text) = true

abbrev pub absent_or_bounded : Option String → Bool
absent_or_bounded none = true
absent_or_bounded (some text) = ltb 0 (len text) && leb (len text) 128

unfoldable pub is_valid_scope : TerminalAgentScope → Bool
is_valid_scope s =
    (is_some_text s.session_id
      || (is_some_text s.workspace || (not (is_empty s.domains) || not (is_empty s.resources))))
    && (absent_or_bounded s.session_id
        && (absent_or_bounded s.workspace
            && (valid_string_list s.domains && valid_string_list s.resources)))

unfoldable pub is_valid_identity : TerminalAgentIdentity → Bool
is_valid_identity i =
    valid_agent_token i.agent_id
    && (valid_agent_token i.activation_id && (leb 1 i.generation && is_valid_scope i.scope))

-- A human session carries no agent, an agent's session must.
unfoldable pub is_valid_request : TerminalCreateRequest → Bool
is_valid_request r =
    r.schema_version == schema_version
    && (if does (text_discrete r.mode "human_surface")
        then elim r.agent [ none ↦ true | some agent ↦ false ]
        else does (text_discrete r.mode "agent_automation")
          && elim r.agent [ none ↦ false | some agent ↦ is_valid_identity agent ])

abbrev pub to_broker_scope : TerminalAgentScope → Scope
to_broker_scope s = record {
  session_id = s.session_id;
  workspace = s.workspace;
  domains = s.domains;
  resources = s.resources;
}
