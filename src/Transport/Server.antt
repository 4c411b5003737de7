-- ===== src/Transport/Server.antt =====
-- The server's credentials and its connection limiter (crates/local-transport/src/server.rs,
-- credential.rs and limits.rs).
use dsh_desktop_shell.Prelude.{
  modify, remove, u64_suc, lookup, all, ◌||◌, ◌+◌, retain, ltb, length, codes, ◌==◌, ◌&&◌,
  text_discrete, not, leb, insert, Result, Bool, ℕ, String, List, if◌then◌else◌, err, ok, false,
  true, some, none, ◌∷◌, [],
}

abbrev pub token_hex_chars : ℕ
token_hex_chars = 32

abbrev pub is_ascii_hexdigit : ℕ → Bool
is_ascii_hexdigit c =
    (leb b'0' c && leb c b'9') || ((leb b'a' c && leb c b'f') || (leb b'A' c && leb c b'F'))

-- `strip_prefix(TOKEN_PREFIX)`, then 32 hexadecimal digits.
unfoldable pub is_valid_format : List ℕ → Bool
is_valid_format (a ∷ b ∷ c ∷ rest) =
    (a == b'l' && (b == b't' && c == b'_'))
    && (length rest == token_hex_chars && all is_ascii_hexdigit rest)
is_valid_format _ = false

pub data AuthError : Type 0 where
  invalid replay stale malformed : AuthError

pub record IssuedCredential : Type 0 where
  pub expires_at : ℕ
  pub used : Bool

pub record Registry : Type 0 where
  pub credentials : List (String × IssuedCredential)
  pub credentials_issued : ℕ
  pub credentials_consumed : ℕ

unfoldable pub empty_registry : Registry
empty_registry = record { credentials = []; credentials_issued = 0; credentials_consumed = 0 }

abbrev pub is_kept : ℕ → String × IssuedCredential → Bool
is_kept now e = not e.1.used && ltb now e.1.expires_at

-- `token` is the fresh one of the issuer; used and expired entries are swept first.
unfoldable pub issue_credential : Registry → String → ℕ → ℕ → Registry
issue_credential r token expires_at now = record r {
  credentials =
      insert text_discrete token (record { expires_at = expires_at; used = false })
        (retain (is_kept now) r.credentials);
  credentials_issued = u64_suc r.credentials_issued;
}

unfoldable pub authenticate : Registry → String → ℕ → Registry × Result AuthError (Unit {0})
authenticate r token now =
    if not (is_valid_format (codes token))
    then (r, err malformed)
    else elim (lookup text_discrete token r.credentials) [
      | none ↦ (r, err invalid)
      | some entry ↦
          if leb entry.expires_at now
          then (record r { credentials = remove text_discrete token r.credentials }, err stale)
          else if entry.used
          then (r, err replay)
          else (
            record r {
              credentials =
                  modify text_discrete token (λ e. record e { used = true }) r.credentials;
              credentials_consumed = u64_suc r.credentials_consumed;
            },
            ok tt,
          )
    ]

-- `ConnLimiter::try_acquire`: each attempt meets the counter's value of that moment, and may fail for
-- no reason (`compare_exchange_weak`). The answer is the value written, if one is; no more attempts
-- stand for a loop that goes on.
pub record Attempt : Type 0 where
  pub actual : ℕ
  pub spurious : Bool

pub data Acquired : Type 0 where
  refused : Acquired
  acquired : ℕ → Acquired
  trying : Acquired

unfoldable pub try_acquire : ℕ → ℕ → List Attempt → Acquired
try_acquire max observed [] = if leb max observed then refused else trying
try_acquire max observed (a ∷ later) =
    let rest = try_acquire max a.actual later in
    if leb max observed
    then refused
    else if a.actual == observed && not a.spurious
    then acquired (observed + 1)
    else rest
