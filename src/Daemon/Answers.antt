-- ===== src/Daemon/Answers.antt =====
-- Every call is answered once (crates/daemon/src/server.rs).
use dsh_desktop_shell.Daemon.Catalog.{dispatch_capability}
use dsh_desktop_shell.Daemon.Server.{handle_envelope}
use dsh_desktop_shell.Negotiation.Messages.{ProtocolCoordinate}
use dsh_desktop_shell.Envelope.Frames.{validate_envelope}
use dsh_desktop_shell.Envelope.Types.{EnvelopeKind, Envelope}
use dsh_desktop_shell.Daemon.Terms.{Fresh}
use dsh_desktop_shell.Daemon.Replies.{with_replies, DaemonServer, error_result, Outcome}
use dsh_desktop_shell.Daemon.Invocation.{context_of, payload_or, reply_for}
use dsh_desktop_shell.Daemon.Types.{
  method_failed, invalid_payload, method_not_found, DaemonMethodError, SessionState, DaemonApi,
}
use dsh_desktop_shell.Prelude.{
  sym, subst, ◌⊎◌, Result, u64_suc, List, ℕ, String, ◌≡◌, err, ok, arith, refl, inr, inl, some, ◌∷◌,
  [],
}
use dsh_desktop_shell.Daemon.Handling.{
  handle_envelope-cases, Handled, ignored, rejected, agreed, executed,
}

-- One reply, to the frame of this id, with this generation: an agreement or a result.
abbrev pub IsReply : {Json : Type 0} → String → ℕ → List (Envelope Json) → Type 0
IsReply id generation (reply ∷ []) =
    (reply.reply_to ≡ some id)
    × (reply.generation ≡ generation)
    × ((reply.kind ≡ EnvelopeKind.agreement) ⊎ (reply.kind ≡ EnvelopeKind.result))
IsReply id generation replies = ⊥

-- The frame of this id is answered once, with the session's next generation, which is taken.
abbrev pub Answered :
    {Json Output Other : Type 0} → SessionState → String → Outcome Json Output Other → Type 0
Answered s id o =
    IsReply id s.next_generation o.2 × (o.1.next_generation ≡ u64_suc s.next_generation)

module _ {Json Output Other : Type 0} (api : DaemonApi Json Output Other) where
  reply_for-Answered :
      (d : DaemonServer Json Output Other) (s : SessionState) (fresh : Fresh) (env : Envelope Json)
      (c : ProtocolCoordinate) (m id : String) (answer : Result DaemonMethodError Json)
      → Answered s env.id (with_replies d (reply_for api s fresh env c m id answer))
  unfolding reply_for error_result
  reply_for-Answered d s fresh env c m id (ok payload) = ((refl, refl, inr refl), refl)
  reply_for-Answered d s fresh env c m id (err (method_not_found c' m')) =
      ((refl, refl, inr refl), refl)
  reply_for-Answered d s fresh env c m id (err (invalid_payload c' m' message)) =
      ((refl, refl, inr refl), refl)
  reply_for-Answered d s fresh env c m id (err (DaemonMethodError.conflict c' m' message)) =
      ((refl, refl, inr refl), refl)
  reply_for-Answered d s fresh env c m id (err (method_failed code message retryable)) =
      ((refl, refl, inr refl), refl)

  Handled-Answered :
      (d : DaemonServer Json Output Other) (s : SessionState) (env : Envelope Json) (connection : ℕ)
      (fresh : Fresh) (o : Outcome Json Output Other)
      → validate_envelope api.json env ≡ ok tt
      → (env.kind ≡ EnvelopeKind.hello) ⊎ (env.kind ≡ EnvelopeKind.invocation)
      → Handled api d s env connection fresh o
      → Answered s env.id o
  unfolding error_result
  Handled-Answered d s env connection fresh o valid call (ignored r e) = absurd (ground arith)
  Handled-Answered d s env connection fresh o valid call (rejected c m code message retryable e) =
      subst (Answered s env.id) (sym e) ((refl, refl, inr refl), refl)
  Handled-Answered d s env connection fresh o valid call (agreed supports authority e same f) =
      subst (Answered s env.id) (sym f) ((refl, refl, inl refl), refl)
  Handled-Answered d s env connection fresh o valid call (executed p method m e) =
      let (r, answer) =
        dispatch_capability api p.capability method d.resources (context_of api d fresh connection)
          (payload_or api.null env.payload) in
      subst (Answered s env.id) (sym e) (
        reply_for-Answered (record d { resources = r }) s fresh env p.capability method p.id answer)

  -- A frame that passes the validation and is a Hello or an Invocation gets exactly one reply,
  -- whatever the session, the broker and the resources are, and whatever a handler answers: a result
  -- or an agreement that refers to the frame's id and has the session's next generation, which then
  -- moves on by one (from the largest u64 to 0).
  pub call_answered :
      (d : DaemonServer Json Output Other) (s : SessionState) (env : Envelope Json) (connection : ℕ)
      (fresh : Fresh)
      → validate_envelope api.json env ≡ ok tt
      → (env.kind ≡ EnvelopeKind.hello) ⊎ (env.kind ≡ EnvelopeKind.invocation)
      → (let o = handle_envelope api d s env connection fresh in
          IsReply env.id s.next_generation o.2 × (o.1.next_generation ≡ u64_suc s.next_generation))
  unfolding error_result
  call_answered d s env connection fresh valid call =
      elim (handle_envelope-cases api d s env connection fresh) [
        | inl (seen, e) ↦ subst (Answered s env.id) (sym e) ((refl, refl, inr refl), refl)
        | inr (unseen, handled) ↦
            Handled-Answered d (record s { seen_ids = env.id ∷ s.seen_ids }) env connection fresh _
              valid call handled
      ]
