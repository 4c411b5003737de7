-- ===== src/Scheduler/Timestamp.antt =====
-- RFC 3339 timestamps: the parser and its byte cursor (crates/daemon/src/scheduler.rs,
-- `parse_rfc3339`, `Cursor`, `fire_time`) and the printer (crates/daemon/src/envelope.rs,
-- `now_timestamp_like`). The cursor is the list of the bytes from `pos` on; an instant is a number
-- of milliseconds from the Unix epoch. Whatever is not ASCII is refused, so that code points serve
-- as bytes.
use dsh_desktop_shell.Scheduler.Entries.{invalid_payload, SchedulerError, WakeRequestPayload}
use dsh_desktop_shell.Scheduler.Civil.{
  ◌+ℤ◌, ◌*ℕ◌, ◌-ℤ◌, days_from_civil, civil_from_days, negsuc, pos, ℤ,
}
use dsh_desktop_shell.Prelude.{
  or_fail, ◌-◌, codes, ◌||◌, ◌+◌, ◌&&◌, ◌%◌, ◌==◌, ◌/◌, ◌*◌, leb, Result, ℕ, Option, List, Bool,
  if◌then◌else◌, suc, zero, err, ok, false, true, some, none, ◌∷◌, [],
}

infixl 5 ◌>>=◌ ◌>>◌
abbrev ◌>>=◌ {ℓ κ} : {A : Type ℓ} {B : Type κ} → Option A → (A → Option B) → Option B
none >>= f = none
some a >>= f = f a

abbrev ◌>>◌ {ℓ} : {B : Type ℓ} → Option (Unit {0}) → Option B → Option B
m >> k = m >>= λ _. k

abbrev require : Bool → Option (Unit {0})
require true = some tt
require false = none

abbrev pub is_digit : ℕ → Bool
is_digit b = leb 48 b && leb b 57

-- At most four digits are read, so that a u32 holds the value.
unfoldable pub digits : ℕ → ℕ → List ℕ → Option (ℕ × List ℕ)
digits zero value bytes = some (value, bytes)
digits (suc count) value [] = none
digits (suc count) value (b ∷ bytes) =
    let more = digits count (value * 10 + (b - 48)) bytes in if is_digit b then more else none

abbrev pub eat : ℕ → List ℕ → Option (List ℕ)
eat expected [] = none
eat expected (b ∷ bytes) = if b == expected then some bytes else none

abbrev is_done : List ℕ → Bool
is_done [] = true
is_done (b ∷ bytes) = false

-- The loop over the first three digits of the fraction: `left` of them are still to be read.
unfoldable pub fraction_digits : ℕ → ℕ → ℕ → List ℕ → ℕ × List ℕ
fraction_digits zero scale millis bytes = (millis, bytes)
fraction_digits (suc left) scale millis [] = (millis, [])
fraction_digits (suc left) scale millis (b ∷ bytes) =
    let more = fraction_digits left (scale / 10) (millis + (b - 48) * scale) bytes in
    if is_digit b then more else (millis, b ∷ bytes)

unfoldable pub skip_digits : List ℕ → List ℕ
skip_digits [] = []
skip_digits (b ∷ bytes) = let more = skip_digits bytes in if is_digit b then more else b ∷ bytes

unfoldable pub fraction : List ℕ → ℕ × List ℕ
fraction [] = (0, [])
fraction (b ∷ bytes) =
    let read = fraction_digits 3 100 0 bytes in
    if b == 46 then (read.0, skip_digits read.1) else (0, b ∷ bytes)

unfoldable pub signed_offset : Bool → List ℕ → Option (ℤ × List ℕ)
signed_offset is_negative bytes = do
  h ← digits 2 0 bytes
  bytes ← eat 58 h.1
  m ← digits 2 0 bytes
  require (leb h.0 23 && leb m.0 59)
  let secs = h.0 * 3600 + m.0 * 60
  some (if is_negative then pos 0 -ℤ pos secs else pos secs, m.1)

-- The offset from UTC in seconds: `Z`, `z`, or `+` and `-` with hours and minutes.
unfoldable pub offset : List ℕ → Option (ℤ × List ℕ)
offset [] = none
offset (b ∷ bytes) =
    if b == 90 || b == 122
    then some (pos 0, bytes)
    else if b == 43 || b == 45
    then signed_offset (b == 45) bytes
    else none

-- `u64::try_from`.
abbrev to_u64 : ℤ → Option ℕ
to_u64 (pos n) = some n
to_u64 (negsuc n) = none

-- The ranges of the fields and the instant they name. With a year of four digits the
-- milliseconds fit in an i64, so that `checked_mul` and `checked_add` always succeed.
unfoldable pub instant_of : ℕ → ℕ → ℕ → ℕ → ℕ → ℕ → ℕ → ℤ → Option ℕ
instant_of year month day hour minute second millis offset_secs =
    if leb 1 month
      && leb month 12
      && (leb 1 day && leb day 31)
      && leb hour 23
      && leb minute 59
      && leb second 60
    then (let unix_secs =
          days_from_civil (pos year) month day *ℕ 86400
          +ℤ pos (hour * 3600)
          +ℤ pos (minute * 60)
          +ℤ pos second
          -ℤ offset_secs in
        to_u64 (unix_secs *ℕ 1000 +ℤ pos millis))
    else none

unfoldable pub parse_rfc3339 : List ℕ → Option ℕ
parse_rfc3339 input = do
  year ← digits 4 0 input
  bytes ← eat 45 year.1
  month ← digits 2 0 bytes
  bytes ← eat 45 month.1
  day ← digits 2 0 bytes
  bytes ← eat 84 day.1
  hour ← digits 2 0 bytes
  bytes ← eat 58 hour.1
  minute ← digits 2 0 bytes
  bytes ← eat 58 minute.1
  second ← digits 2 0 bytes
  let read = fraction second.1
  zone ← offset read.1
  require (is_done zone.1)
  instant_of year.0 month.0 day.0 hour.0 minute.0 second.0 read.0 zone.0

unfoldable pub fire_time : WakeRequestPayload → Result SchedulerError ℕ
fire_time request = elim (parse_rfc3339 (codes request.requested_at)) [
  | none ↦ err invalid_payload
  | some requested ↦ elim request.deadline [
    | none ↦ ok requested
    | some deadline ↦ or_fail (parse_rfc3339 (codes deadline)) invalid_payload
  ]
]

-- The decimal digits of what is left of a number beyond its width.
unfoldable pub wider : ℕ → ℕ → List ℕ → List ℕ
wider zero n tail = tail
wider (suc fuel) n tail =
    let more = wider fuel (n / 10) ((48 + n % 10) ∷ tail) in if n == 0 then tail else more

-- `{:0width}`, for a u64.
unfoldable pub padded : ℕ → ℕ → List ℕ → List ℕ
padded zero n tail = wider 20 n tail
padded (suc width) n tail = padded width (n / 10) ((48 + n % 10) ∷ tail)

unfoldable pub now_timestamp_like : ℕ → List ℕ
now_timestamp_like time =
    let secs = time / 1000 in
    let rem = secs % 86400 in
    let (year, month, day) = civil_from_days (secs / 86400) in
    padded 4 year (
      45
      ∷ padded 2 month (
          45
          ∷ padded 2 day (
              84
              ∷ padded 2 (rem / 3600) (
                  58
                  ∷ padded 2 (rem % 3600 / 60)
                      (58 ∷ padded 2 (rem % 60) (46 ∷ padded 3 (time % 1000) (90 ∷ [])))))))
