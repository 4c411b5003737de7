-- ===== src/Envelope/Formats.antt =====
-- The text formats of a frame (crates/daemon/src/envelope.rs), over the characters of the texts.
-- What is not ASCII is refused, so that the numbers of bytes and of characters agree.
use dsh_desktop_shell.Conformance.Formats.{is_ascii_alphanumeric}
use dsh_desktop_shell.Scheduler.Timestamp.{skip_digits, is_digit}
use dsh_desktop_shell.Prelude.{
  drop, ◌+◌, take, ltb, codes, ◌||◌, ◌*◌, ◌&&◌, not, length, leb, is_empty, all, ◌==◌, ◌-◌, Bool, ℕ,
  Option, List, if◌then◌else◌, suc, zero, false, some, none, ◌∷◌, [],
}

abbrev pub is_ascii_lowercase : ℕ → Bool
is_ascii_lowercase c = leb b'a' c && leb c b'z'

abbrev pub is_ascii_uppercase : ℕ → Bool
is_ascii_uppercase c = leb b'A' c && leb c b'Z'

unfoldable pub valid_method : List ℕ → Bool
valid_method [] = false
valid_method (first ∷ rest) =
    is_ascii_lowercase first
    && (not (is_empty rest)
        && all
            (λ c. is_ascii_lowercase c || (is_digit c || (c == b'.' || (c == b'_' || c == b'-'))))
            rest)

unfoldable pub valid_coordinate_kind : List ℕ → Bool
valid_coordinate_kind [] = false
valid_coordinate_kind (first ∷ rest) =
    is_ascii_uppercase first && (not (is_empty rest) && all is_ascii_alphanumeric rest)

-- `str::rsplit_once`: what is before and after the last separator.
unfoldable pub rsplit_once : ℕ → List ℕ → Option (List ℕ × List ℕ)
rsplit_once sep [] = none
rsplit_once sep (c ∷ cs) = elim (rsplit_once sep cs) [
  | some (before, after) ↦ some (c ∷ before, after)
  | none ↦ if c == sep then some ([], cs) else none
]

unfoldable pub strip_stage : List ℕ → List ℕ → Option (List ℕ)
strip_stage [] cs = some cs
strip_stage (p ∷ ps) [] = none
strip_stage (p ∷ ps) (c ∷ cs) = let rest = strip_stage ps cs in if p == c then rest else none

abbrev pub is_stage : Option (List ℕ) → Bool
is_stage none = false
is_stage (some rest) = not (is_empty rest) && all is_digit rest

-- What follows the digits of the version.
abbrev pub is_suffix : List ℕ → Bool
is_suffix suffix =
    is_empty suffix
    || is_stage (elim (strip_stage (codes "alpha") suffix) [
      | some rest ↦ some rest
      | none ↦ strip_stage (codes "beta") suffix
    ])

abbrev pub starts_with_digit : List ℕ → Bool
starts_with_digit [] = false
starts_with_digit (c ∷ cs) = is_digit c

abbrev pub is_version : List ℕ → Bool
is_version [] = false
is_version (c ∷ digits) = c == b'v' && (starts_with_digit digits && is_suffix (skip_digits digits))

abbrev pub is_name : ℕ → Bool
is_name c = is_ascii_lowercase c || (is_digit c || (c == b'.' || c == b'-'))

-- The checks of the two sides of the last slash.
abbrev pub are_sides : Option (List ℕ × List ℕ) → Bool
are_sides none = false
are_sides (some (namespace, version)) =
    not (is_empty namespace) && (all is_name namespace && is_version version)

unfoldable pub valid_api_version : List ℕ → Bool
valid_api_version value = are_sides (rsplit_once b'/' value)

-- `bytes[i]`, where it is in range.
abbrev pub byte_at : List ℕ → ℕ → ℕ
byte_at [] i = 0
byte_at (b ∷ bytes) zero = b
byte_at (b ∷ bytes) (suc i) = byte_at bytes i

-- `bytes[from..from + count].iter().all(is_ascii_digit)`, where it is in range.
abbrev pub digits_at : List ℕ → ℕ → ℕ → Bool
digits_at bytes from count = all is_digit (take count (drop from bytes))

abbrev pub two_at : List ℕ → ℕ → ℕ
two_at bytes i = (byte_at bytes i - b'0') * 10 + (byte_at bytes (i + 1) - b'0')

abbrev pub is_offset : List ℕ → Bool
is_offset bytes =
    length bytes == 6
    && (digits_at bytes 1 2 && byte_at bytes 3 == b':' && digits_at bytes 4 2)
    && (leb (two_at bytes 1) 23 && leb (two_at bytes 4) 59)

abbrev pub is_zone : List ℕ → Bool
is_zone [] = false
is_zone (b ∷ bytes) =
    if b == b'Z' || b == b'z'
    then is_empty bytes
    else (b == b'+' || b == b'-') && is_offset (b ∷ bytes)

-- The fraction, if there is one, and the offset.
abbrev pub is_time_end : List ℕ → Bool
is_time_end [] = false
is_time_end (b ∷ bytes) =
    if b == b'.'
    then starts_with_digit bytes && is_zone (skip_digits bytes)
    else is_zone (b ∷ bytes)

abbrev pub is_date : List ℕ → Bool
is_date bytes =
    (digits_at bytes 0 4
      && byte_at bytes 4 == b'-'
      && digits_at bytes 5 2
      && byte_at bytes 7 == b'-'
      && digits_at bytes 8 2)
    && (leb 1 (two_at bytes 5) && leb (two_at bytes 5) 12)
    && (leb 1 (two_at bytes 8) && leb (two_at bytes 8) 31)

abbrev pub is_time : List ℕ → Bool
is_time bytes =
    ((byte_at bytes 10 == b'T' || byte_at bytes 10 == b't')
      && digits_at bytes 11 2
      && byte_at bytes 13 == b':'
      && digits_at bytes 14 2
      && byte_at bytes 16 == b':'
      && digits_at bytes 17 2)
    && (leb (two_at bytes 11) 23 && leb (two_at bytes 14) 59 && leb (two_at bytes 17) 59)

unfoldable pub is_rfc3339_timestamp : List ℕ → Bool
is_rfc3339_timestamp bytes =
    not (ltb (length bytes) 20) && (is_date bytes && (is_time bytes && is_time_end (drop 19 bytes)))
