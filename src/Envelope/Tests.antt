-- ===== src/Envelope/Tests.antt =====
-- The theorems on frames at concrete frames (crates/daemon/src/envelope.rs).

use dsh_desktop_shell.Scheduler.Timestamp.{skip_digits}
use dsh_desktop_shell.Envelope.Formats.{
  strip_stage, rsplit_once, valid_coordinate_kind, valid_api_version, is_rfc3339_timestamp,
}
use dsh_desktop_shell.Negotiation.Messages.{HelloPayload}
use dsh_desktop_shell.Envelope.Types.{
  at_envelope, at_method, at_capability, at_reply_to, at_id, result, hello, JsonApi, Envelope,
}
use dsh_desktop_shell.Envelope.Frames.{
  validate_outcome, validate_method, all_unseen, validate_items, validate_capability,
  validate_reply_to, validate_coordinates, is_some, validate_result, validate_hello,
  validate_envelope,
}
use dsh_desktop_shell.Prelude.{
  dec_of, text_discrete, Option, ◌≡◌, err, ok, refl, some, none, ◌∷◌, [],
}

abbrev greeting : HelloPayload
greeting = record {
  instance_id = "instance-1";
  supports =
      record { api_version = "terminal.dsh-desktop.local/v1alpha1"; kind = "TerminalSession" } ∷ [];
  requires = [];
}

-- A JSON value stands for itself: a greeting, or what is no object.
abbrev objects : JsonApi (Option HelloPayload)
objects = record {
  is_object = λ v. is_some v;
  hello_payload = λ v. v;
  agreement_payload = λ v. none;
}

abbrev hello_frame : Envelope (Option HelloPayload)
hello_frame = record {
  protocol = "interop.dsh-desktop.local/v1alpha1";
  id = "msg-0001";
  kind = hello;
  reply_to = none;
  participant = record { component = "desktop"; facet = "shell"; activation_id = none };
  timestamp = "2026-01-01T00:00:00.123Z";
  generation = 1;
  capability = none;
  method = none;
  payload = some (some greeting);
  error = none;
}

hello_accepted : validate_envelope objects hello_frame ≡ ok tt
unfolding validate_envelope validate_hello validate_coordinates validate_items all_unseen
    valid_api_version valid_coordinate_kind rsplit_once strip_stage is_rfc3339_timestamp skip_digits
    text_discrete dec_of
hello_accepted = refl

-- An id of four letters of two bytes each.
short_id_accepted : validate_envelope objects (record hello_frame { id = "éééé" }) ≡ ok tt
unfolding validate_envelope validate_hello validate_coordinates validate_items all_unseen
    valid_api_version valid_coordinate_kind rsplit_once strip_stage is_rfc3339_timestamp skip_digits
    text_discrete dec_of
short_id_accepted = refl

-- All issues are reported, in the order of the checks.
bare_result :
    validate_envelope objects (record hello_frame { kind = result; id = "short"; payload = none })
    ≡ err (at_id ∷ at_reply_to ∷ at_capability ∷ at_method ∷ at_envelope ∷ [])
unfolding validate_envelope validate_result validate_reply_to validate_capability validate_method
    validate_outcome is_rfc3339_timestamp skip_digits text_discrete dec_of
bare_result = refl
