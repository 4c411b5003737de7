-- ===== src/Conformance/Formats.antt =====
-- The formats of a declared coordinate (crates/adapter-dsh-std/src/conformance.rs), over the
-- characters of the texts. Where the source counts bytes after a test that all characters are
-- ASCII, or before one, the number of characters gives the same answer.
use dsh_desktop_shell.Transport.Server.{is_ascii_hexdigit}
use dsh_desktop_shell.Prelude.{
  ◌%◌, any, all, length, is_empty, codes, ◌||◌, ◌&&◌, same_codes, not, leb, ◌==◌, Option, Bool, ℕ,
  String, List, if◌then◌else◌, false, some, none, ◌∷◌, [],
}
use Prim.Native.String.{len}

abbrev pub is_ascii_digit : ℕ → Bool
is_ascii_digit c = leb b'0' c && leb c b'9'

abbrev pub is_ascii_alphanumeric : ℕ → Bool
is_ascii_alphanumeric c =
    is_ascii_digit c || ((leb b'a' c && leb c b'z') || (leb b'A' c && leb c b'Z'))

-- `str::split_once`: what is before and after the first separator.
unfoldable pub split_once : ℕ → List ℕ → Option (List ℕ × List ℕ)
split_once sep [] = none
split_once sep (c ∷ cs) =
    let later = split_once sep cs in
    if c == sep
    then some ([], cs)
    else elim later [ none ↦ none | some (before, after) ↦ some (c ∷ before, after) ]

-- `str::split`, which gives at least one piece: the first, and the others.
unfoldable pub split : ℕ → List ℕ → List ℕ × List (List ℕ)
split sep [] = ([], [])
split sep (c ∷ cs) =
    let (piece, pieces) = split sep cs in
    if c == sep then ([], piece ∷ pieces) else (c ∷ piece, pieces)

abbrev pub is_package_segment : List ℕ → Bool
is_package_segment seg =
    not (is_empty seg)
    && all (λ c. is_ascii_alphanumeric c || (c == b'-' || (c == b'_' || c == b'.'))) seg

abbrev pub is_scoped_name : List ℕ → Bool
is_scoped_name rest = elim (split_once b'/' rest) [
  | none ↦ false
  | some (scope, pkg) ↦ is_package_segment scope && is_package_segment pkg
]

abbrev pub is_valid_name : List ℕ → Bool
is_valid_name [] = false
is_valid_name (c ∷ rest) = if c == b'@' then is_scoped_name rest else is_package_segment (c ∷ rest)

abbrev pub is_valid_package_name : String → Bool
is_valid_package_name name = leb (len name) 128 && is_valid_name (codes name)

abbrev pub is_valid_prerelease : List ℕ → Bool
is_valid_prerelease p =
    let (first, others) = split b'.' p in
    not (is_empty p)
    && (not (any is_empty (first ∷ others))
        && all (λ c. is_ascii_alphanumeric c || (c == b'-' || c == b'.')) p)

-- Exactly three pieces, of digits.
abbrev pub is_triple : List ℕ → List (List ℕ) → Bool
is_triple major (minor ∷ patch ∷ []) =
    all is_ascii_digit major && (all is_ascii_digit minor && all is_ascii_digit patch)
is_triple major _ = false

abbrev pub is_valid_core : List ℕ → Bool
is_valid_core core = let (major, others) = split b'.' core in is_triple major others

abbrev pub before_build : List ℕ → List ℕ
before_build v = elim (split_once b'+' v) [ none ↦ v | some (core, build) ↦ core ]

unfoldable pub is_valid_version : List ℕ → Bool
is_valid_version v = elim (split_once b'-' (before_build v)) [
  | none ↦ is_valid_core (before_build v)
  | some (core, prerelease) ↦ is_valid_core core && is_valid_prerelease prerelease
]

unfoldable pub is_valid_commit : List ℕ → Bool
is_valid_commit c = leb 7 (length c) && leb (length c) 40 && all is_ascii_hexdigit c

unfoldable pub is_valid_integrity : List ℕ → Bool
is_valid_integrity i = elim (split_once b'-' i) [
  | none ↦ false
  | some (algo, b64) ↦
      (same_codes algo (codes "sha256")
        || (same_codes algo (codes "sha384") || same_codes algo (codes "sha512")))
      && (not (is_empty b64)
          && (length b64 % 4 == 0
              && all (λ c. is_ascii_alphanumeric c || (c == b'/' || (c == b'+' || c == b'='))) b64))
]
