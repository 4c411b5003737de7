-- ===== src/Runtime/Candidate.antt =====
-- The endpoint candidates of a launch (crates/managed-runtime/src/supervisor.rs): `parse_candidate`
-- over the accessors of the `url` crate.
use dsh_desktop_shell.Runtime.State.{is_some}
use dsh_desktop_shell.Runtime.Types.{
  candidate_port_mismatch, candidate_invalid, ManagedRuntimeError, ParsedCandidate, ManagedEndpoint,
}
use dsh_desktop_shell.Browser.UrlPolicy.{authority, split_separator}
use dsh_desktop_shell.Prelude.{
  or_fail, ◌++◌, ltb, ◌||◌, not, guard, all, ◌&&◌, text_discrete, same_codes, ◌==◌, length, leb,
  does, codes, Result, ℕ, decimal_from, String, Option, List, Bool, ◌>>◌, ◌>>=◌, if◌then◌else◌, ok,
  false, true, some, none, ◌∷◌, [],
}
use Prim.Native.String.{len}

-- What the source uses of `url::Url`; a path and a query are read as texts.
pub record UrlApi (Url : Type 0) : Type 0 where
  pub parse : String → Option Url
  pub scheme : Url → String
  pub host_str : Url → Option String
  pub username : Url → String
  pub password : Url → Option String
  pub path : Url → String
  pub fragment : Url → Option String
  pub query : Url → Option String
  pub port : Url → Option ℕ

abbrev pub max_output_line_bytes : ℕ
max_output_line_bytes = 2048

abbrev pub is_text : Option String → String → Bool
is_text none t = false
is_text (some s) t = does (text_discrete s t)

abbrev pub is_token_byte : ℕ → Bool
is_token_byte c =
    (leb b'0' c && leb c b'9')
    || ((leb b'A' c && leb c b'Z') || ((leb b'a' c && leb c b'z') || (c == b'_' || c == b'-')))

-- `strip_prefix`, on the characters.
unfoldable pub strip_prefix : List ℕ → List ℕ → Option (List ℕ)
strip_prefix [] cs = some cs
strip_prefix (p ∷ ps) [] = none
strip_prefix (p ∷ ps) (c ∷ cs) = let rest = strip_prefix ps cs in if p == c then rest else none

unfoldable pub is_token : List ℕ → Bool
is_token cs = length cs == 43 && all is_token_byte cs

-- A query is absent, or `token=` and 43 characters of the URL-safe alphabet.
unfoldable pub accepts_query : Option String → Bool
unfolding strip_prefix is_token
accepts_query none = true
accepts_query (some q) = elim (strip_prefix (codes "token=") (codes q)) [
  | none ↦ false
  | some token ↦ is_token token
]

-- `raw_authority(candidate) == Some("127.0.0.1:{port}")`.
unfoldable pub has_authority : String → ℕ → Bool
unfolding decimal_from split_separator
has_authority candidate port = elim (split_separator (codes candidate)) [
  | none ↦ false
  | some (before, rest) ↦
      same_codes (authority rest) (codes "127.0.0.1:" ++ codes (decimal_from 5 port ""))
]

abbrev pub is_expected : Option ℕ → ℕ → Bool
is_expected none port = true
is_expected (some expected) port = expected == port

abbrev pub loopback_endpoint : ℕ → String → String → ManagedEndpoint
loopback_endpoint port source verification = record {
  scheme = "http";
  host = "127.0.0.1";
  port = port;
  source = source;
  verification = verification;
}

module _ {Url : Type 0} where
  abbrev pub fixed_port_candidate : ℕ → ParsedCandidate Url
  fixed_port_candidate port = record {
    endpoint = loopback_endpoint port "managed_config" "owned_generation_tcp";
    bootstrap_url = none;
  }

  unfoldable pub is_plain_loopback : UrlApi Url → Url → Bool
  is_plain_loopback api url =
      does (text_discrete (api.scheme url) "http")
      && (is_text (api.host_str url) "127.0.0.1"
          && (does (text_discrete (api.username url) "")
              && (not (is_some (api.password url))
                  && (does (text_discrete (api.path url) "/")
                      && not (is_some (api.fragment url))))))

  unfoldable pub parse_candidate :
      UrlApi Url → String → Option ℕ → Result ManagedRuntimeError (ParsedCandidate Url)
  parse_candidate api candidate expected = do
    guard (not (len candidate == 0) && not (ltb max_output_line_bytes (len candidate)))
        candidate_invalid
    url ← or_fail (api.parse candidate) candidate_invalid
    guard (is_plain_loopback api url) candidate_invalid
    guard (accepts_query (api.query url)) candidate_invalid
    port ← or_fail (api.port url) candidate_invalid
    guard (leb 1024 port && has_authority candidate port) candidate_invalid
    guard (is_expected expected port) candidate_port_mismatch
    ok (record {
      endpoint = loopback_endpoint port "managed_process_output" "owned_generation_output_and_tcp";
      bootstrap_url = some url;
    })
