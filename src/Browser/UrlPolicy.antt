-- ===== src/Browser/UrlPolicy.antt =====
-- The navigation URL policy (crates/browser-provider/src/url_policy.rs), over the characters of a
-- text.

use dsh_desktop_shell.Prelude.{
  same_codes, codes, length, ◌+◌, ltb, leb, is_empty, if◌then◌else◌, ◌&&◌, ◌||◌, ◌==◌, map, any,
  Result, Option, Bool, ℕ, String, List, err, ok, some, none, ◌∷◌, [],
}

pub data UrlError : Type 0 where
  empty unsupported_scheme userinfo_not_allowed too_long : UrlError

abbrev pub max_url_len : ℕ
max_url_len = 2048

abbrev pub to_ascii_lower : ℕ → ℕ
to_ascii_lower c = if leb b'A' c && leb c b'Z' then c + 32 else c

abbrev pub eq_ignore_ascii_case : List ℕ → List ℕ → Bool
eq_ignore_ascii_case xs ys = same_codes (map to_ascii_lower xs) (map to_ascii_lower ys)

-- What follows the separator "://", where the text begins with it.
abbrev pub after_separator : List ℕ → Option (List ℕ)
after_separator (a ∷ b ∷ c ∷ rest) =
    if a == b':' && (b == b'/' && c == b'/') then some rest else none
after_separator _ = none

-- `url.find("://")`, with the parts before and after the first separator.
unfoldable pub split_separator : List ℕ → Option (List ℕ × List ℕ)
split_separator [] = none
split_separator (c ∷ cs) =
    let later = split_separator cs in
    elim (after_separator (c ∷ cs)) [
      | some rest ↦ some ([], rest)
      | none ↦ elim later [ none ↦ none | some (before, rest) ↦ some (c ∷ before, rest) ]
    ]

abbrev pub is_http : List ℕ → Bool
is_http scheme =
    eq_ignore_ascii_case scheme (codes "http") || eq_ignore_ascii_case scheme (codes "https")

unfoldable pub strip_http_scheme : List ℕ → Option (List ℕ)
strip_http_scheme url = elim (split_separator url) [
  | none ↦ none
  | some (scheme, rest) ↦ if is_http scheme then some rest else none
]

abbrev pub ends_authority : ℕ → Bool
ends_authority c = c == b'/' || (c == b'?' || c == b'#')

-- The first piece of `rest.split(['/', '?', '#'])`.
abbrev pub authority : List ℕ → List ℕ
authority [] = []
authority (c ∷ cs) = let rest = authority cs in if ends_authority c then [] else c ∷ rest

unfoldable pub authority_has_userinfo : List ℕ → Bool
authority_has_userinfo rest = any (λ c. c == b'@') (authority rest)

unfoldable pub validate : String → Result UrlError String
validate url =
    if is_empty (codes url)
    then err empty
    else if ltb max_url_len (length (codes url))
    then err too_long
    else elim (strip_http_scheme (codes url)) [
      | none ↦ err unsupported_scheme
      | some rest ↦ if authority_has_userinfo rest then err userinfo_not_allowed else ok url
    ]
