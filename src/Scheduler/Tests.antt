-- ===== src/Scheduler/Tests.antt =====
-- The scheduler's theorems at concrete entries (crates/daemon/src/scheduler.rs).

use dsh_desktop_shell.Scheduler.RoundTrip.{parse_rfc3339-now_timestamp_like}
use dsh_desktop_shell.Scheduler.Timestamp.{
  signed_offset, skip_digits, instant_of, offset, fraction_digits, wider, fraction, padded, digits,
  parse_rfc3339, now_timestamp_like,
}
use dsh_desktop_shell.Scheduler.Civil.{days_from_civil, civil_from_days}
use dsh_desktop_shell.Scheduler.Firing.{fire_due_done, is_sound, count_due}
use dsh_desktop_shell.Scheduler.Entries.{
  next_round, fire, validate_repeat, user_requested, take_due, validate_wake_request,
  register_entry, fire_due, WakeRequestPayload, Inner,
}
use dsh_desktop_shell.Prelude.{
  codes, ◌≤◌, dec_of, text_discrete, String, ◌≢◌, ℕ, all, ◌≡◌, ok, arith, refl, false, true, some,
  none, [],
}
use text.Mathlib.TextEquality.{eq_iff}

abbrev idle : Inner
idle = record {
  entries = [];
  next_seq = 0;
  shutdown = false;
  registered = 0;
  cancelled = 0;
  fired = 0;
  last_fired = none;
}

abbrev twice : WakeRequestPayload
twice = record {
  wake_id = "wake-0001";
  requested_at = "2026-01-01T00:00:00Z";
  deadline = none;
  reason = user_requested;
  repeat = some (record { interval_ms = 60; count = some 2 });
}

abbrev waiting : Inner
waiting = (register_entry idle twice 1000).0

abbrev clock_at_1005 : ℕ → ℕ
clock_at_1005 i = 1005

abbrev stamps : ℕ → String
stamps i = "2026-01-01T00:00:01Z"

valid : validate_wake_request twice ≡ ok tt
unfolding validate_wake_request validate_repeat
valid = refl

-- One firing leaves the second round, 60 ms after the first.
one_round : count_due 1070 (fire_due 1 1005 clock_at_1005 stamps 0 waiting).entries ≡ 1
unfolding fire_due take_due fire next_round register_entry count_due text_discrete dec_of
one_round = refl

sound_waiting : all is_sound waiting.entries ≡ true
unfolding register_entry text_discrete dec_of
sound_waiting = refl

enough : count_due 1001 waiting.entries ≤ 1
unfolding register_entry count_due text_discrete dec_of
enough = omega arith

fire_due_done_example :
    (count_due 1001 (fire_due 1 1001 clock_at_1005 stamps 0 waiting).entries ≡ 0)
    × (all is_sound (fire_due 1 1001 clock_at_1005 stamps 0 waiting).entries ≡ true)
fire_due_done_example =
    fire_due_done 1 1001 clock_at_1005 stamps 0 waiting (λ j. omega arith) sound_waiting enough

distinct : ◌≢◌ {A = String} "wake-0002" "wake-0001"
distinct = ground (arith, eq_iff "wake-0002" "wake-0001")

abbrev new_year : ℕ
new_year = 1767225600123

parse_rfc3339-now_timestamp_like_example :
    parse_rfc3339 (now_timestamp_like 1767225600123) ≡ some 1767225600123
unfolding civil_from_days
parse_rfc3339-now_timestamp_like_example =
    parse_rfc3339-now_timestamp_like 1767225600123 (omega arith)

printed_new_year : now_timestamp_like new_year ≡ codes "2026-01-01T00:00:00.123Z"
unfolding now_timestamp_like civil_from_days padded wider
printed_new_year = refl

-- A day that the month does not have is taken for a day of the next month.
impossible_date :
    parse_rfc3339 (codes "2026-02-31T00:00:00Z") ≡ parse_rfc3339 (codes "2026-03-03T00:00:00Z")
unfolding parse_rfc3339 digits fraction offset instant_of days_from_civil
impossible_date = refl

offset_date : parse_rfc3339 (codes "2026-01-01T02:00:00.1234+02:00") ≡ some 1767225600123
unfolding parse_rfc3339 digits fraction fraction_digits skip_digits offset signed_offset instant_of
    days_from_civil
offset_date = refl

early_date : parse_rfc3339 (codes "1969-12-31T23:59:59Z") ≡ none
unfolding parse_rfc3339 digits fraction offset instant_of days_from_civil
early_date = refl
