-- ===== src/Transport/OneTime.antt =====
-- A credential opens one connection, and the limiter keeps its bound
-- (crates/local-transport/src/server.rs).
use dsh_desktop_shell.Transport.Server.{
  is_kept, acquired, Attempt, try_acquire, empty_registry, authenticate, IssuedCredential,
  issue_credential, Registry,
}
use dsh_desktop_shell.Prelude.{
  UniqueKeys-modify, lookup-retain_absent, lookup-remove, UniqueKeys-remove, ◌≤◌, subst,
  lookup-insert, UniqueKeys-retain, retain, lookup-modify, UniqueKeys-insert, ◌≢◌, text_discrete,
  UniqueKeys, Option-cases, Bool, ℕ, lookup, List, String, Option, ◌≡◌, ok, arith, refl, false,
  true, inr, inl, some, none, ◌∷◌, [],
}

pub data RegistryCall : Type 0 where
  issues : String → ℕ → ℕ → RegistryCall
  authenticates : String → ℕ → RegistryCall

abbrev pub apply_call : Registry → RegistryCall → Registry
apply_call r (issues token expires now) = issue_credential r token expires now
apply_call r (authenticates token now) = (authenticate r token now).0

abbrev pub run_calls : Registry → List RegistryCall → Registry
run_calls r [] = r
run_calls r (c ∷ cs) = run_calls (apply_call r c) cs

-- The issuer does not draw this token again: 128 random bits.
abbrev pub IsFresh : String → List RegistryCall → Type 0
IsFresh token [] = Unit {0}
IsFresh token (issues t expires now ∷ cs) = (t ≢ token) × IsFresh token cs
IsFresh token (authenticates t now ∷ cs) = IsFresh token cs

-- The token is not there, or its entry has been used.
abbrev pub is_spent : Option IssuedCredential → Bool
is_spent none = true
is_spent (some e) = e.used

abbrev Table : Type 0
Table = List (String × IssuedCredential)

abbrev Spent : String → Table → Type 0
Spent token m = is_spent (lookup text_discrete token m) ≡ true

retain-Spent :
    (token : String) (p : String × IssuedCredential → Bool) (m : Table)
    → UniqueKeys text_discrete m
    → Spent token m
    → Spent token (retain p m)
retain-Spent token p [] u h = refl
retain-Spent token p ((k, e) ∷ m) u h = elim (text_discrete k token) [
  | yes same ↦
      let gone : lookup text_discrete token m ≡ none =
        subst (λ t. lookup text_discrete t m ≡ none) same u.0 in
      ground (arith, h, same, lookup-retain_absent text_discrete token p m gone)
  | no other ↦ ground (arith, h, other, retain-Spent token p m u.1)
]

apply_call-UniqueKeys :
    (r : Registry) (c : RegistryCall)
    → UniqueKeys text_discrete r.credentials
    → UniqueKeys text_discrete (apply_call r c).credentials
unfolding issue_credential authenticate
apply_call-UniqueKeys r (issues t expires now) u =
    UniqueKeys-insert text_discrete t _ (retain (is_kept now) r.credentials)
      (UniqueKeys-retain text_discrete (is_kept now) r.credentials u)
apply_call-UniqueKeys r (authenticates t now) u = ground (
  arith,
  u,
  UniqueKeys-remove text_discrete t r.credentials,
  UniqueKeys-modify text_discrete t (λ (e : IssuedCredential). record e { used = true })
      r.credentials,
)

run_calls-UniqueKeys :
    (r : Registry) (cs : List RegistryCall)
    → UniqueKeys text_discrete r.credentials
    → UniqueKeys text_discrete (run_calls r cs).credentials
run_calls-UniqueKeys r [] u = u
run_calls-UniqueKeys r (c ∷ cs) u =
    run_calls-UniqueKeys (apply_call r c) cs (apply_call-UniqueKeys r c u)

module _ (token : String) where
  apply_call-Spent :
      (r : Registry) (c : RegistryCall)
      → UniqueKeys text_discrete r.credentials
      → IsFresh token (c ∷ [])
      → Spent token r.credentials
      → Spent token (apply_call r c).credentials
  unfolding issue_credential authenticate
  apply_call-Spent r (issues t expires now) u fresh h = ground (
    arith,
    fresh,
    retain-Spent token (is_kept now) r.credentials u h,
    lookup-insert text_discrete t token (record { expires_at = expires; used = false })
        (retain (is_kept now) r.credentials),
  )
  apply_call-Spent r (authenticates t now) u fresh h = ground (
    arith,
    h,
    lookup-remove text_discrete t token r.credentials,
    lookup-modify text_discrete t token (λ (e : IssuedCredential). record e { used = true })
        r.credentials,
  )

  run_calls-Spent :
      (r : Registry) (cs : List RegistryCall)
      → UniqueKeys text_discrete r.credentials
      → IsFresh token cs
      → Spent token r.credentials
      → Spent token (run_calls r cs).credentials
  run_calls-Spent r [] u fresh h = h
  run_calls-Spent r (issues t expires now ∷ cs) u fresh h =
      run_calls-Spent (issue_credential r t expires now) cs
        (apply_call-UniqueKeys r (issues t expires now) u) fresh.1
        (apply_call-Spent r (issues t expires now) u (fresh.0, tt) h)
  run_calls-Spent r (authenticates t now ∷ cs) u fresh h =
      run_calls-Spent (authenticate r t now).0 cs (apply_call-UniqueKeys r (authenticates t now) u)
        fresh (apply_call-Spent r (authenticates t now) u tt h)

  accepted-Spent :
      (r : Registry) (now : ℕ)
      → (authenticate r token now).1 ≡ ok tt
      → Spent token (authenticate r token now).0.credentials
  unfolding authenticate
  accepted-Spent r now h = elim (Option-cases (lookup text_discrete token r.credentials)) [
    | inl e ↦ absurd (ground (arith, h, e))
    | inr (entry, e) ↦ ground (
      arith,
      h,
      e,
      lookup-modify text_discrete token token (λ (c : IssuedCredential). record c { used = true })
          r.credentials,
    )
  ]

  authenticate-Spent :
      (r : Registry) (now : ℕ) → Spent token r.credentials → (authenticate r token now).1 ≢ ok tt
  unfolding authenticate
  authenticate-Spent r now h k = ground (arith, h, k)

  -- A credential opens one connection: in a registry that any calls have made, once a token has been
  -- accepted it is refused ever after, whatever is issued, swept and presented in between, unless
  -- the issuer draws the same token again.
  pub accepted_once :
      (before after : List RegistryCall) (now later : ℕ)
      → (authenticate (run_calls empty_registry before) token now).1 ≡ ok tt
      → IsFresh token after
      → (authenticate
          (run_calls (authenticate (run_calls empty_registry before) token now).0 after)
          token
          later).1
        ≢ ok tt
  unfolding empty_registry
  accepted_once before after now later h fresh =
      let r = run_calls empty_registry before in
      let u = run_calls-UniqueKeys empty_registry before tt in
      authenticate-Spent _ later (
        run_calls-Spent (authenticate r token now).0 after
          (apply_call-UniqueKeys r (authenticates token now) u) fresh (accepted-Spent r now h))

-- Whatever values the counter takes between its attempts, an acquisition that succeeds writes a value
-- from 1 to the limit.
pub try_acquire_bounded :
    (max observed : ℕ) (attempts : List Attempt) (written : ℕ)
    → try_acquire max observed attempts ≡ acquired written
    → (1 ≤ written) × (written ≤ max)
unfolding try_acquire
try_acquire_bounded max observed [] written h = ground (arith, h)
try_acquire_bounded max observed (a ∷ later) written h =
    ground (arith, h, try_acquire_bounded max a.actual later written)
