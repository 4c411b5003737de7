-- ===== src/Runtime/Binding.antt =====
-- What an accepted endpoint candidate is (crates/managed-runtime/src/supervisor.rs,
-- `parse_candidate`).
use dsh_desktop_shell.Runtime.State.{is_some}
use dsh_desktop_shell.Runtime.Types.{ParsedCandidate}
use dsh_desktop_shell.Runtime.Candidate.{
  is_text, is_expected, is_plain_loopback, parse_candidate, UrlApi, is_token_byte, is_token,
  strip_prefix, has_authority, accepts_query,
}
use dsh_desktop_shell.Browser.UrlPolicy.{
  ends_authority, authority, after_separator, split_separator,
}
use dsh_desktop_shell.Prelude.{
  does, text_discrete, ◌∙◌, does_iff, ◌≤◌, subst, Option, ap, all, length, decimal_from, Bool-cases,
  ◌++◌, same_codes, codes, Option-cases, ℕ, String, List, if◌then◌else◌, ◌≡◌, ok, arith, refl,
  false, true, inr, inl, some, none, ◌∷◌, [],
}

same_codes→≡ : (xs ys : List ℕ) → same_codes xs ys ≡ true → xs ≡ ys
same_codes→≡ [] [] h = refl
same_codes→≡ [] (y ∷ ys) h = cc
same_codes→≡ (x ∷ xs) [] h = cc
same_codes→≡ (x ∷ xs) (y ∷ ys) h = ground (arith, same_codes→≡ xs ys)

after_separator_lem : (cs rest : List ℕ) → after_separator cs ≡ some rest → cs ≡ codes "://" ++ rest
after_separator_lem [] rest h = cc
after_separator_lem (a ∷ []) rest h = cc
after_separator_lem (a ∷ b ∷ []) rest h = cc
after_separator_lem (a ∷ b ∷ c ∷ cs) rest h = ground (arith, h)

split_separator_lem :
    (cs before rest : List ℕ)
    → split_separator cs ≡ some (before, rest)
    → cs ≡ before ++ (codes "://" ++ rest)
unfolding split_separator
split_separator_lem [] before rest h = cc
split_separator_lem (c ∷ cs) before rest h = elim (Option-cases (after_separator (c ∷ cs))) [
  | inr (r, e) ↦ ground (arith, h, e, after_separator_lem (c ∷ cs) r e)
  | inl e ↦ elim (Option-cases (split_separator cs)) [
    | inl f ↦ absurd (ground (arith, h, e, f))
    | inr ((b, r), f) ↦ ground (arith, h, e, f, split_separator_lem cs b r f)
  ]
]

-- What can follow the authority of a URL.
abbrev pub Delimited : List ℕ → Type 0
Delimited [] = Unit {0}
Delimited (c ∷ cs) = ends_authority c ≡ true

abbrev after_authority : List ℕ → List ℕ
after_authority [] = []
after_authority (c ∷ cs) =
    let rest = after_authority cs in if ends_authority c then c ∷ cs else rest

authority_lem :
    (cs : List ℕ) → (cs ≡ authority cs ++ after_authority cs) × Delimited (after_authority cs)
authority_lem [] = (refl, tt)
authority_lem (c ∷ cs) = elim (Bool-cases (ends_authority c)) [
  | inl e ↦ rw e (refl, e)
  | inr e ↦ rw e (ap (λ (t : List ℕ). c ∷ t) (authority_lem cs).0, (authority_lem cs).1)
]

strip_prefix_lem : (ps cs rest : List ℕ) → strip_prefix ps cs ≡ some rest → cs ≡ ps ++ rest
unfolding strip_prefix
strip_prefix_lem [] cs rest h = ground (arith, h)
strip_prefix_lem (p ∷ ps) [] rest h = cc
strip_prefix_lem (p ∷ ps) (c ∷ cs) rest h = ground (arith, h, strip_prefix_lem ps cs rest)

-- The query carries nothing but one token of 43 characters.
pub record TokenQuery (q : String) : Type 0 where
  pub token : List ℕ
  pub text : codes q ≡ codes "token=" ++ token
  pub token_length : length token ≡ 43
  pub alphabet : all is_token_byte token ≡ true

accepts_query-TokenQuery : (q : String) → accepts_query (some q) ≡ true → TokenQuery q
unfolding accepts_query is_token
accepts_query-TokenQuery q h = elim (Option-cases (strip_prefix (codes "token=") (codes q))) [
  | inl e ↦ absurd (ground (arith, h, e))
  | inr (t, e) ↦ record {
    token = t;
    text = strip_prefix_lem (codes "token=") (codes q) t e;
    token_length = ground (arith, h, e);
    alphabet = ground (arith, h, e);
  }
]

-- The text of the candidate names the loopback address and the port literally.
pub record NamesPort (candidate : String) (port : ℕ) : Type 0 where
  pub before : List ℕ
  pub rest : List ℕ
  pub text :
      codes candidate
      ≡ before ++ (codes "://" ++ ((codes "127.0.0.1:" ++ codes (decimal_from 5 port "")) ++ rest))
  pub delimited : Delimited rest

has_authority-NamesPort :
    (candidate : String) (port : ℕ) → has_authority candidate port ≡ true → NamesPort candidate port
unfolding has_authority
has_authority-NamesPort candidate port h = elim (Option-cases (split_separator (codes candidate))) [
  | inl e ↦ absurd (ground (arith, h, e))
  | inr ((b, r), e) ↦
      let named : authority r ≡ codes "127.0.0.1:" ++ codes (decimal_from 5 port "") =
        same_codes→≡ (authority r) _ (ground (arith, h, e)) in
      record {
        before = b;
        rest = after_authority r;
        text =
            split_separator_lem (codes candidate) b r e
            ∙ ap (λ (t : List ℕ). b ++ (codes "://" ++ t))
                ((authority_lem r).0 ∙ ap (λ (t : List ℕ). t ++ after_authority r) named);
        delimited = (authority_lem r).1;
      }
]

is_text_lem : (o : Option String) (t : String) → is_text o t ≡ true → o ≡ some t
is_text_lem none t h = cc
is_text_lem (some s) t h = ap some ((does_iff (text_discrete s t)).0 h)

none_of_is_some {ℓ} : {A : Type ℓ} (o : Option A) → is_some o ≡ false → o ≡ none
none_of_is_some none h = refl
none_of_is_some (some a) h = cc

-- The kept URL is a plain loopback URL, the endpoint has its port, and the text names both.
pub record Sound {Url : Type 0} (api : UrlApi Url) (candidate : String) (expected : Option ℕ)
    (c : ParsedCandidate Url) (url : Url) : Type 0 where
  pub kept : c.bootstrap_url ≡ some url
  pub parsed : api.parse candidate ≡ some url
  pub http : api.scheme url ≡ "http"
  pub loopback : api.host_str url ≡ some "127.0.0.1"
  pub no_user : (api.username url ≡ "") × (api.password url ≡ none)
  pub root : (api.path url ≡ "/") × (api.fragment url ≡ none)
  pub token_query : (q : String) → api.query url ≡ some q → TokenQuery q
  pub port_of_url : api.port url ≡ some c.endpoint.port
  pub host : c.endpoint.host ≡ "127.0.0.1"
  pub unprivileged : 1024 ≤ c.endpoint.port
  pub named : NamesPort candidate c.endpoint.port
  pub as_expected : (port : ℕ) → expected ≡ some port → c.endpoint.port ≡ port

module _ {Url : Type 0} (api : UrlApi Url) (candidate : String) (expected : Option ℕ) where
  -- The checks that an accepted candidate has passed.
  record Passed (c : ParsedCandidate Url) (url : Url) : Type 0 where
    kept : c.bootstrap_url ≡ some url
    parsed : api.parse candidate ≡ some url
    plain : is_plain_loopback api url ≡ true
    query : accepts_query (api.query url) ≡ true
    port_of_url : api.port url ≡ some c.endpoint.port
    host : c.endpoint.host ≡ "127.0.0.1"
    unprivileged : 1024 ≤ c.endpoint.port
    named : has_authority candidate c.endpoint.port ≡ true
    as_expected : is_expected expected c.endpoint.port ≡ true

  parse_candidate-Passed :
      (c : ParsedCandidate Url) (url : Url)
      → api.parse candidate ≡ some url
      → parse_candidate api candidate expected ≡ ok c
      → Passed c url
  unfolding parse_candidate
  parse_candidate-Passed c url e h = elim (Option-cases (api.port url)) [
    | inl f ↦ absurd (ground (arith, h, e, f))
    | inr (port, f) ↦ ground (arith, h, e, f)
  ]

  plain_parts :
      (url : Url)
      → is_plain_loopback api url ≡ true
      → (does (text_discrete (api.scheme url) "http") ≡ true)
        × (is_text (api.host_str url) "127.0.0.1" ≡ true)
        × (does (text_discrete (api.username url) "") ≡ true)
        × (is_some (api.password url) ≡ false)
        × (does (text_discrete (api.path url) "/") ≡ true)
        × (is_some (api.fragment url) ≡ false)
  unfolding is_plain_loopback
  plain_parts url h = ground (arith, h)

  Passed-Sound :
      (c : ParsedCandidate Url) (url : Url) → Passed c url → Sound api candidate expected c url
  Passed-Sound c url v = record {
    kept = v.kept;
    parsed = v.parsed;
    http = (does_iff (text_discrete _ _)).0 (plain_parts url v.plain).0;
    loopback = is_text_lem _ _ (plain_parts url v.plain).1;
    no_user = (
      (does_iff (text_discrete _ _)).0 (plain_parts url v.plain).2,
      none_of_is_some _ (plain_parts url v.plain).3,
    );
    root = (
      (does_iff (text_discrete _ _)).0 (plain_parts url v.plain).4,
      none_of_is_some _ (plain_parts url v.plain).5,
    );
    token_query = λ q e. accepts_query-TokenQuery q (subst (λ o. accepts_query o ≡ true) e v.query);
    port_of_url = v.port_of_url;
    host = v.host;
    unprivileged = v.unprivileged;
    named = has_authority-NamesPort candidate c.endpoint.port v.named;
    as_expected = λ port e. ground (arith, v.as_expected, e);
  }

  -- A candidate that is accepted is the text of a URL that the URL parser accepts, with scheme http,
  -- host 127.0.0.1, path "/", and no user, password or fragment; a query of it is "token=" with 43
  -- URL-safe characters. The endpoint has the URL's port, which is at least 1024, is the expected one
  -- if one is expected, and stands in the text itself right behind "://127.0.0.1:".
  pub parse_candidate-Sound :
      (c : ParsedCandidate Url)
      → parse_candidate api candidate expected ≡ ok c
      → (url : Url) × Sound api candidate expected c url
  unfolding parse_candidate
  parse_candidate-Sound c h = elim (Option-cases (api.parse candidate)) [
    | inl e ↦ absurd (ground (arith, h, e))
    | inr (url, e) ↦ (url, Passed-Sound c url (parse_candidate-Passed c url e h))
  ]
