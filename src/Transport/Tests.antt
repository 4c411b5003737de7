-- ===== src/Transport/Tests.antt =====
-- The transport's theorems at concrete streams and tokens (crates/local-transport/src).
use text.Mathlib.TextEquality.{eq_iff}
use dsh_desktop_shell.Transport.RoundTrip.{read_frame-encode_frame, IsClean, bytes}
use dsh_desktop_shell.Transport.OneTime.{
  accepted_once, authenticates, issues, run_calls, try_acquire_bounded,
}
use dsh_desktop_shell.Transport.Delivery.{stream, Burst, worker_delivers}
use dsh_desktop_shell.Transport.Worker.{protocol, peer_closed, worker_loop, Round}
use dsh_desktop_shell.Transport.Server.{
  is_valid_format, authenticate, issue_credential, try_acquire, empty_registry,
}
use dsh_desktop_shell.Transport.Framing.{
  timed_out, interrupted, failed, read_frame, oversized, chunk, Arrival, encode_frame_checked,
  encode_frame,
}
use dsh_desktop_shell.Prelude.{
  ◌≢◌, dec_of, text_discrete, ◌≤◌, String, List, ◌≡◌, err, ok, arith, refl, false, true, some, ◌∷◌,
  [],
}

-- The frame of [7, 8, 9] and the first byte of another, in three chunks.
abbrev split_stream : List Arrival
split_stream =
    chunk (3 ∷ 0 ∷ []) ∷ interrupted ∷ chunk (0 ∷ 0 ∷ 7 ∷ []) ∷ chunk (8 ∷ 9 ∷ 1 ∷ []) ∷ []

read_frame-encode_frame_example :
    ((read_frame 64 split_stream).0 ≡ ok (some (7 ∷ 8 ∷ 9 ∷ [])))
    × (bytes (read_frame 64 split_stream).1 ≡ 1 ∷ [])
    × IsClean (read_frame 64 split_stream).1
unfolding encode_frame
read_frame-encode_frame_example =
    read_frame-encode_frame 64 (7 ∷ 8 ∷ 9 ∷ []) (1 ∷ []) split_stream (refl, (refl, (refl, tt)))
      refl (omega arith) (omega arith)

abbrev quiet : Round
quiet = record { tick_set = true; enqueued = true; overdue = false; writes = [] }

abbrev two_frames : List Arrival
two_frames = chunk (1 ∷ 0 ∷ 0 ∷ 0 ∷ 5 ∷ 2 ∷ []) ∷ chunk (0 ∷ 0 ∷ 0 ∷ 6 ∷ 7 ∷ []) ∷ []

-- The frame of [9], and a pause after it.
abbrev first_burst : Burst
first_burst = record {
  payloads = (9 ∷ []) ∷ [];
  arrivals = chunk (1 ∷ 0 ∷ 0 ∷ 0 ∷ 9 ∷ []) ∷ [];
  tick = timed_out;
}

worker_delivers_example :
    worker_loop 64
      (quiet ∷ quiet ∷ quiet ∷ quiet ∷ quiet ∷ [])
      (stream (first_burst ∷ []) two_frames)
      []
    ≡ ((9 ∷ []) ∷ (5 ∷ []) ∷ (6 ∷ 7 ∷ []) ∷ [], some peer_closed)
unfolding encode_frame
worker_delivers_example =
    worker_delivers 64 (first_burst ∷ []) ((5 ∷ []) ∷ (6 ∷ 7 ∷ []) ∷ [])
      (quiet ∷ quiet ∷ quiet ∷ quiet ∷ quiet ∷ []) two_frames [] refl
      (
        refl,
        refl,
        refl,
        refl,
        (
          refl,
          refl,
          refl,
          refl,
          (refl, refl, refl, refl, (refl, refl, refl, refl, (refl, refl, refl, refl, tt))),
        ),
      )
      (((omega arith, omega arith, tt), (refl, tt), refl, refl), tt) (omega arith)
      (refl, (refl, tt)) refl

-- The frame of a byte, torn after two bytes of its prefix: its rest is read as a prefix.
abbrev torn : List Arrival
torn = chunk (1 ∷ 0 ∷ []) ∷ failed timed_out ∷ chunk (0 ∷ 0 ∷ 5 ∷ []) ∷ []

torn_ends : worker_loop 64 (quiet ∷ quiet ∷ []) torn [] ≡ ([], some protocol)
unfolding worker_loop read_frame
torn_ends = refl

abbrev token : String
token = "lt_00112233445566778899aabbccddeeff"

distinct : "lt_other" ≢ token
distinct = ground (arith, eq_iff "lt_other" token)

accepted_once_example :
    (authenticate
      (run_calls
        (authenticate (run_calls empty_registry (issues token 500 100 ∷ [])) token 200).0
        (issues "lt_other" 900 300 ∷ authenticates token 310 ∷ []))
      token
      320).1
    ≢ ok tt
unfolding empty_registry issue_credential authenticate is_valid_format text_discrete dec_of
accepted_once_example =
    accepted_once token (issues token 500 100 ∷ [])
      (issues "lt_other" 900 300 ∷ authenticates token 310 ∷ []) 200 320 refl (distinct, tt)

try_acquire_bounded_example : (1 ≤ 8) × (8 ≤ 8)
unfolding try_acquire
try_acquire_bounded_example =
    try_acquire_bounded 8 6
      (record { actual = 7; spurious = false }
        ∷ record { actual = 7; spurious = true }
        ∷ record { actual = 7; spurious = false }
        ∷ [])
      8 refl

oversized_refused : encode_frame_checked (1 ∷ 2 ∷ 3 ∷ []) 2 ≡ err (oversized 3 2)
unfolding encode_frame_checked
oversized_refused = refl
