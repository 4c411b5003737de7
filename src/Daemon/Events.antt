-- ===== src/Daemon/Events.antt =====
-- The event frames that the daemon pushes (crates/daemon/src/server.rs, `EventEnvelopeTemplate`).
use dsh_desktop_shell.Scheduler.Timestamp.{skip_digits}
use dsh_desktop_shell.Envelope.Words.{valid_method_iff}
use dsh_desktop_shell.Envelope.WellFormed.{validate_envelope_iff}
use dsh_desktop_shell.Envelope.Types.{at_capability}
use dsh_desktop_shell.Daemon.Replies.{server_participant}
use dsh_desktop_shell.Envelope.Frames.{validate_envelope}
use dsh_desktop_shell.Daemon.Catalog.{browser_capability, terminal_capability}
use dsh_desktop_shell.Envelope.Types.{EnvelopeKind, protocol_id, Envelope}
use dsh_desktop_shell.Envelope.Formats.{
  strip_stage, rsplit_once, valid_coordinate_kind, valid_method, valid_api_version,
  is_rfc3339_timestamp,
}
use dsh_desktop_shell.Negotiation.Messages.{ProtocolCoordinate}
use dsh_desktop_shell.Envelope.Checks.{IsCoordinate-iff, IsCoordinate, Within}
use dsh_desktop_shell.Daemon.Terms.{Fresh}
use dsh_desktop_shell.Prelude.{ℕ, codes, Option, String, ◌≡◌, ok, arith, refl, true, some, none}
use dsh_desktop_shell.EventRouter.State.{RouterEvent, terminal, browser}
use dsh_desktop_shell.Daemon.Types.{
  EventContent, DaemonApi, BrowserLifecycleKind, created, closed, output, lifecycle,
}

abbrev pub event_method : BrowserLifecycleKind → String
event_method created = "browser.session-created"
event_method closed = "browser.session-closed"

abbrev pub terminal_output_event : String
terminal_output_event = "terminal.output"

-- What is the same in every frame: no answer, no error, generation 0.
module _ {Json : Type 0} where
  abbrev pub event_frame : Fresh → ProtocolCoordinate → String → Json → Envelope Json
  event_frame fresh capability method payload = record {
    protocol = protocol_id;
    id = fresh.message_id;
    kind = EnvelopeKind.event;
    reply_to = none;
    participant = server_participant none;
    timestamp = fresh.timestamp;
    generation = 0;
    capability = some capability;
    method = some method;
    payload = some payload;
    error = none;
  }

module _ {Json Output Other : Type 0} (api : DaemonApi Json Output Other) where
  -- A terminal's event is a chunk of output, with the time of the frame, and a browser's is a
  -- lifecycle event with its own.
  unfoldable pub build : Fresh → RouterEvent (EventContent Output) → Option (Envelope Json)
  build fresh (terminal id (output chunk)) = some (
      event_frame fresh terminal_capability terminal_output_event
        (api.of_output id chunk (fresh.clock 0)))
  build fresh (browser id (lifecycle kind at)) =
      some (event_frame fresh browser_capability (event_method kind) (api.of_lifecycle id kind at))
  build fresh (terminal id (lifecycle kind at)) = none
  build fresh (browser id (output chunk)) = none

-- In the code the two variants have contents of their own types.
abbrev pub IsOfVariant : {Output : Type 0} → RouterEvent (EventContent Output) → Type 0
IsOfVariant (terminal id (output chunk)) = Unit
IsOfVariant (terminal id (lifecycle kind at)) = ⊥
IsOfVariant (browser id (output chunk)) = ⊥
IsOfVariant (browser id (lifecycle kind at)) = Unit

terminal-IsCoordinate : IsCoordinate terminal_capability
unfolding valid_api_version valid_coordinate_kind rsplit_once strip_stage skip_digits
terminal-IsCoordinate = (IsCoordinate-iff terminal_capability at_capability).0 refl

browser-IsCoordinate : IsCoordinate browser_capability
unfolding valid_api_version valid_coordinate_kind rsplit_once strip_stage skip_digits
browser-IsCoordinate = (IsCoordinate-iff browser_capability at_capability).0 refl

module _ {Json Output Other : Type 0} (api : DaemonApi Json Output Other) where
  event_frame_valid :
      (fresh : Fresh) (c : ProtocolCoordinate) (m : String) (payload : Json)
      → Within 8 128 fresh.message_id
      → is_rfc3339_timestamp (codes fresh.timestamp) ≡ true
      → IsCoordinate c
      → valid_method (codes m) ≡ true
      → api.json.is_object payload ≡ true
      → validate_envelope api.json (event_frame fresh c m payload) ≡ ok tt
  event_frame_valid fresh c m payload named stamped coordinate method shaped =
      (validate_envelope_iff api.json (event_frame fresh c m payload)).1 (
        (refl, (named, (omega arith, (omega arith, (tt, stamped))))),
        (refl, (coordinate, ((valid_method_iff (codes m)).0 method, shaped))),
      )

  event_method_valid :
      (kind : BrowserLifecycleKind) → valid_method (codes (event_method kind)) ≡ true
  unfolding valid_method
  event_method_valid created = refl
  event_method_valid closed = refl

  output_method_valid : valid_method (codes terminal_output_event) ≡ true
  unfolding valid_method
  output_method_valid = refl

  -- Every event whose content is of its variant becomes a frame that passes the validation of
  -- frames, if the id and the timestamp that are made up for it are well formed and the payloads
  -- are JSON objects.
  pub build_valid :
      (fresh : Fresh) (event : RouterEvent (EventContent Output))
      → IsOfVariant event
      → Within 8 128 fresh.message_id
      → is_rfc3339_timestamp (codes fresh.timestamp) ≡ true
      → ((id : String) (chunk : Output) (at : ℕ)
          → api.json.is_object (api.of_output id chunk at) ≡ true)
      → ((id : String) (kind : BrowserLifecycleKind) (at : ℕ)
          → api.json.is_object (api.of_lifecycle id kind at) ≡ true)
      → (frame : Envelope Json) × ((build api fresh event ≡ some frame)
          × (validate_envelope api.json frame ≡ ok tt))
  unfolding build
  build_valid fresh (terminal id (output chunk)) fits named stamped outputs lifecycles = (
    _,
    (
      refl,
      event_frame_valid fresh terminal_capability terminal_output_event
          (api.of_output id chunk (fresh.clock 0)) named stamped terminal-IsCoordinate
          output_method_valid (outputs id chunk (fresh.clock 0)),
    ),
  )
  build_valid fresh (browser id (lifecycle kind at)) fits named stamped outputs lifecycles = (
    _,
    (
      refl,
      event_frame_valid fresh browser_capability (event_method kind) (api.of_lifecycle id kind at)
          named stamped browser-IsCoordinate (event_method_valid kind) (lifecycles id kind at),
    ),
  )
  build_valid fresh (terminal id (lifecycle kind at)) fits named stamped outputs lifecycles =
      absurd fits
  build_valid fresh (browser id (output chunk)) fits named stamped outputs lifecycles = absurd fits
