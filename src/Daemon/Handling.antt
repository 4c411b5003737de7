-- ===== src/Daemon/Handling.antt =====
-- What a frame comes to (crates/daemon/src/server.rs).
use dsh_desktop_shell.Daemon.Admission.{permitted, Permitted}
use dsh_desktop_shell.Envelope.Frames.{fits, validate_envelope}
use dsh_desktop_shell.Envelope.WellFormed.{
  IsMethod, IsHelloPayload, FitsKind, validate_envelope_iff,
}
use dsh_desktop_shell.Daemon.Server.{has_seen, handle_envelope, handle_kind, handle_new}
use dsh_desktop_shell.Envelope.Checks.{IsCoordinate, Holds}
use dsh_desktop_shell.Negotiation.Messages.{ProtocolCoordinate}
use dsh_desktop_shell.Envelope.Types.{id_min_len, id_max_len, ErrorCode, EnvelopeKind, Envelope}
use dsh_desktop_shell.Daemon.Terms.{Fresh, negotiate}
use dsh_desktop_shell.Daemon.Hello.{payload_of, agree, handle_hello}
use dsh_desktop_shell.Daemon.Authority.{agent_id_of, is_mixed, authority_of}
use dsh_desktop_shell.Daemon.Types.{
  replayed_id, invalid_envelope, no_agreement, no_activation, mixed_authority, ActivationAuthority,
  SessionState, DaemonApi,
}
use dsh_desktop_shell.Daemon.Replies.{refuse, with_replies, Outcome, DaemonServer}
use dsh_desktop_shell.Daemon.Invocation.{handle_invocation, execute, invoke, admit_invocation}
use dsh_desktop_shell.Prelude.{
  ◌∷◌, true, subst, Bool-cases, Bool-cases, List, Result-cases, text_discrete, Bool, lookup, String,
  ◌⊎◌, ℕ, Option-cases, Option, ◌≢◌, ◌≡◌, ok, arith, refl, false, inr, inl, some, none, [],
}

Holds-there {ℓ} : {A : Type ℓ} (P : A → Type 0) (o : Option A) → Holds P o → o ≢ none
Holds-there P none held e = held
Holds-there P (some a) held e = cc e

payload_there :
    {Json Payload : Type 0} (P : Payload → Type 0) (parse : Json → Option Payload) (o : Option Json)
    → Holds (λ v. Holds P (parse v)) o
    → payload_of parse o ≢ none
payload_there P parse none held = absurd held
payload_there P parse (some v) held = Holds-there P (parse v) held

module _ {Json Output Other : Type 0} (api : DaemonApi Json Output Other)
    (d : DaemonServer Json Output Other) (s : SessionState) (env : Envelope Json) (connection : ℕ)
    (fresh : Fresh) where
  -- What a frame comes to, on the session in which its id is recorded.
  pub data Handled (o : Outcome Json Output Other) : Type 0 where
    ignored :
        (validate_envelope api.json env ≢ ok tt)
          ⊎ ((env.kind ≢ EnvelopeKind.hello) × (env.kind ≢ EnvelopeKind.invocation))
        → o ≡ (d, s, [])
        → Handled o
    rejected :
        (c : Option ProtocolCoordinate) (m : Option String) (code : ErrorCode) (message : String)
        (retryable : Bool)
        → o ≡ with_replies d (refuse s fresh env c m code message retryable)
        → Handled o
    agreed :
        (supports : List ProtocolCoordinate) (authority : ActivationAuthority)
        → authority ≡ authority_of d.folds_case d.policy s.identity env.participant
        → is_mixed s.authority authority ≡ false
        → o ≡ (
            let (b, terms) =
              negotiate d.broker fresh (agent_id_of env.participant) authority supports in
            with_replies (record d { broker = b }) (agree api s fresh env authority terms))
        → Handled o
    executed :
        (p : Permitted d s.activations env fresh.now) (method : String)
        → env.method ≡ some method
        → o ≡ execute api d s env connection fresh p.capability method p.id
        → Handled o

  hello-Handled :
      payload_of api.json.hello_payload env.payload ≢ none
      → Handled (handle_hello api d s env fresh)
  unfolding handle_hello
  hello-Handled there = elim (Option-cases (payload_of api.json.hello_payload env.payload)) [
    | inl e ↦ absurd (there e)
    | inr (greeting, e) ↦
        let authority = authority_of d.folds_case d.policy s.identity env.participant in
        elim (Bool-cases (is_mixed s.authority authority)) [
          | inl mixed ↦
              rejected none none ErrorCode.unauthorized (api.wording mixed_authority) false
                (ground arith)
          | inr same ↦ agreed greeting.supports authority refl same (ground arith)
        ]
  ]

  invoke-Handled :
      (c : ProtocolCoordinate) (m : String)
      → env.capability ≡ some c
      → env.method ≡ some m
      → Handled (invoke api d s env connection fresh c m)
  unfolding invoke
  invoke-Handled c m asked called = elim (Option-cases env.participant.activation_id) [
    | inl e ↦
        rejected (some c) (some m) ErrorCode.unauthorized (api.wording no_activation) false
          (ground arith)
    | inr (id, e) ↦ elim (Option-cases (lookup text_discrete id s.activations)) [
      | inl l ↦
          rejected (some c) (some m) ErrorCode.unauthorized (api.wording no_agreement) false
            (ground arith)
      | inr (a, l) ↦ elim (Result-cases (admit_invocation d.broker a c fresh.now)) [
        | inr ((code, reason, retryable), r) ↦
            rejected (some c) (some m) code (api.wording reason) retryable (ground arith)
        | inl (u, r) ↦
            executed (permitted d s.activations env fresh.now id a c e l asked r) m called
              (ground arith)
      ]
    ]
  ]

  invocation-Handled :
      env.capability ≢ none
      → env.method ≢ none
      → Handled (handle_invocation api d s env connection fresh)
  unfolding handle_invocation
  invocation-Handled asked called = elim (Option-cases env.capability) [
    | inl e ↦ absurd (asked e)
    | inr (c, e) ↦ elim (Option-cases env.method) [
      | inl f ↦ absurd (called f)
      | inr (m, f) ↦ subst Handled (ground arith) (invoke-Handled c m e f)
    ]
  ]

  kind-Handled :
      (k : EnvelopeKind)
      → env.kind ≡ k
      → FitsKind api.json k env
      → Handled (handle_kind api k d s env connection fresh)
  kind-Handled EnvelopeKind.hello e fits =
      hello-Handled (payload_there IsHelloPayload api.json.hello_payload env.payload fits.1.1.1.1)
  kind-Handled EnvelopeKind.invocation e fits =
      invocation-Handled (Holds-there IsCoordinate env.capability fits.1.1.0)
        (Holds-there (IsMethod api.json) env.method fits.1.1.1.0)
  kind-Handled EnvelopeKind.agreement e fits = ignored (inr (ground arith)) refl
  kind-Handled EnvelopeKind.result e fits = ignored (inr (ground arith)) refl
  kind-Handled EnvelopeKind.event e fits = ignored (inr (ground arith)) refl

  pub handle_new-Handled : Handled (handle_new api d s env connection fresh)
  unfolding handle_new
  handle_new-Handled = elim (Result-cases (validate_envelope api.json env)) [
    | inl (u, e) ↦
        subst Handled (ground arith)
          (kind-Handled env.kind refl ((validate_envelope_iff api.json env).0 e).1)
    | inr (issues, e) ↦ elim (Bool-cases (fits id_min_len id_max_len env.id)) [
      | inl b ↦
          rejected env.capability env.method ErrorCode.malformed_message
            (api.wording invalid_envelope) false (ground arith)
      | inr b ↦ ignored (inl (ground arith)) (ground arith)
    ]
  ]

-- The frame is answered as a replay, or its id is recorded and it is handled.
pub handle_envelope-cases :
    {Json Output Other : Type 0} (api : DaemonApi Json Output Other)
    (d : DaemonServer Json Output Other) (s : SessionState) (env : Envelope Json) (connection : ℕ)
    (fresh : Fresh)
    → ((has_seen s env.id ≡ true)
        × (handle_envelope api d s env connection fresh
            ≡ with_replies d (
                refuse s fresh env env.capability env.method ErrorCode.malformed_message
                  (api.wording replayed_id)
                  false)))
      ⊎ ((has_seen s env.id ≡ false)
          × Handled api d
              (record s { seen_ids = env.id ∷ s.seen_ids })
              env
              connection
              fresh
              (handle_envelope api d s env connection fresh))
unfolding handle_envelope
handle_envelope-cases api d s env connection fresh = elim (Bool-cases (has_seen s env.id)) [
  | inl e ↦ inl (e, ground arith)
  | inr e ↦ inr (
    e,
    subst (Handled api d (record s { seen_ids = env.id ∷ s.seen_ids }) env connection fresh)
        (ground arith)
        (handle_new-Handled api d (record s { seen_ids = env.id ∷ s.seen_ids }) env connection
          fresh),
  )
]
