-- ===== src/Transport/Framing.antt =====
-- Length-prefixed frames (crates/local-transport/src/framing.rs). A reader is the list of what its
-- `read` calls meet: bytes, an interruption, or another error.
use dsh_desktop_shell.Prelude.{
  drop, take, leb, is_empty, ◌-◌, ◌==◌, ◌/◌, ◌++◌, ◌*◌, ltb, Option, ◌+◌, ◌%◌, length, Result, ℕ,
  List, if◌then◌else◌, err, ok, some, none, ◌∷◌, [],
}

pub data IoErrorKind : Type 0 where
  would_block timed_out other_kind : IoErrorKind

pub data Arrival : Type 0 where
  chunk : List ℕ → Arrival
  interrupted : Arrival
  failed : IoErrorKind → Arrival

pub data FrameError : Type 0 where
  oversized : ℕ → ℕ → FrameError
  truncated : ℕ → ℕ → FrameError

pub data FrameReadError : Type 0 where
  frame : FrameError → FrameReadError
  io : IoErrorKind → FrameReadError

abbrev pub length_prefix_bytes : ℕ
length_prefix_bytes = 4

abbrev pub max_frame_bytes : ℕ
max_frame_bytes = 65536

-- `(n as u32).to_le_bytes()`.
unfoldable pub le_bytes : ℕ → List ℕ
le_bytes n = n % 256 ∷ n / 256 % 256 ∷ n / 65536 % 256 ∷ n / 16777216 % 256 ∷ []

-- `u32::from_le_bytes`.
unfoldable pub from_le_bytes : List ℕ → ℕ
from_le_bytes [] = 0
from_le_bytes (b ∷ bs) = b + 256 * from_le_bytes bs

unfoldable pub encode_frame : List ℕ → List ℕ
unfolding le_bytes
encode_frame payload = le_bytes (length payload) ++ payload

unfoldable pub encode_frame_checked : List ℕ → ℕ → Result FrameError (List ℕ)
unfolding encode_frame
encode_frame_checked payload max =
    if ltb max (length payload)
    then err (oversized (length payload) max)
    else ok (encode_frame payload)

abbrev pub before_bytes : List ℕ → Result IoErrorKind (List ℕ) → Result IoErrorKind (List ℕ)
before_bytes bs (ok cs) = ok (bs ++ cs)
before_bytes bs (err k) = err k

abbrev pub put_back : List ℕ → List Arrival → List Arrival
put_back [] es = es
put_back (b ∷ bs) es = chunk (b ∷ bs) ∷ es

-- Fill a buffer of `want` bytes, short only at the end of the stream; `Ok(0)` is such an end. The
-- bytes read before an error are lost with the buffer.
unfoldable pub read_some : ℕ → List Arrival → Result IoErrorKind (List ℕ) × List Arrival
read_some want [] = (ok [], [])
read_some want (interrupted ∷ es) =
    let rest = read_some want es in if want == 0 then (ok [], interrupted ∷ es) else rest
read_some want (failed k ∷ es) = if want == 0 then (ok [], failed k ∷ es) else (err k, es)
read_some want (chunk bs ∷ es) =
    let rest = read_some (want - length bs) es in
    if want == 0
    then (ok [], chunk bs ∷ es)
    else if is_empty bs
    then (ok [], es)
    else if leb want (length bs)
    then (ok (take want bs), put_back (drop want bs) es)
    else (before_bytes bs rest.0, rest.1)

-- The payload of a frame whose length has been read.
unfoldable pub read_payload :
    ℕ → List Arrival → Result FrameReadError (Option (List ℕ)) × List Arrival
unfolding read_some
read_payload declared es =
    let (got, es') = read_some declared es in
    elim got [
      | err k ↦ (err (io k), es')
      | ok payload ↦
          if ltb (length payload) declared
          then (err (frame (truncated declared (length payload))), es')
          else (ok (some payload), es')
    ]

unfoldable pub read_frame :
    ℕ → List Arrival → Result FrameReadError (Option (List ℕ)) × List Arrival
unfolding read_payload read_some from_le_bytes
read_frame max es =
    let (got, es') = read_some length_prefix_bytes es in
    elim got [
      | err k ↦ (err (io k), es')
      | ok prefix ↦
          let declared = from_le_bytes prefix in
          if length prefix == 0
          then (ok none, es')
          else if ltb (length prefix) length_prefix_bytes
          then (err (frame (truncated length_prefix_bytes (length prefix))), es')
          else if ltb max declared
          then (err (frame (oversized declared max)), es')
          else read_payload declared es'
    ]
