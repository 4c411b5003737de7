-- ===== src/Daemon/History.antt =====
-- The sessions of a connection over its history (crates/daemon/src/server.rs).
use dsh_desktop_shell.Envelope.Frames.{fits}
use dsh_desktop_shell.Daemon.Server.{handle_envelope}
use dsh_desktop_shell.Daemon.Handling.{executed, agreed, rejected, ignored, Handled}
use dsh_desktop_shell.Daemon.Replies.{Outcome, error_result, DaemonServer}
use dsh_desktop_shell.Daemon.Invocation.{context_of, reply_for}
use dsh_desktop_shell.Envelope.Types.{id_max_len, id_min_len, ErrorCode, Envelope}
use dsh_desktop_shell.Negotiation.Messages.{ProtocolCoordinate}
use dsh_desktop_shell.Daemon.Types.{
  replayed_id, new_session, Resources, method_failed, invalid_payload, method_not_found,
  DaemonMethodError, DaemonApi, SessionState, PeerIdentity, PeerIdentityPolicy,
}
use dsh_desktop_shell.Daemon.Terms.{Fresh, negotiate}
use dsh_desktop_shell.Daemon.Authority.{agent_id_of}
use dsh_desktop_shell.Prelude.{
  u64_suc, ℕ, ◌∙◌, sym, subst, Bool-cases, Result, String, List, Option, Bool, ◌≡◌, err, ok, refl,
  false, inr, inl, some, none, ◌∷◌, [],
}
use dsh_desktop_shell.Daemon.Connection.{
  at_turn, Frame, handle_frame, converse, Turn, parsed, unreadable,
}
use dsh_desktop_shell.Daemon.Invocation.{payload_or}
use dsh_desktop_shell.Daemon.Catalog.{dispatch_capability}
use dsh_desktop_shell.Daemon.Handling.{rejected, handle_envelope-cases, Handled}
use dsh_desktop_shell.Daemon.Classes.{Sound, agree-Sound, negotiate-offered}

-- The server is configured so, and the session is sound for it.
pub record Serves {Json Output Other : Type 0} (folds : Bool) (policy : PeerIdentityPolicy)
    (identity : Option PeerIdentity) (d : DaemonServer Json Output Other) (s : SessionState)
    : Type 0 where
  pub same_folds : d.folds_case ≡ folds
  pub same_policy : d.policy ≡ policy
  pub sound : Sound folds policy identity s

module _ {Json Output Other : Type 0} (api : DaemonApi Json Output Other) where
  pub reply_for-session :
      (s : SessionState) (fresh : Fresh) (env : Envelope Json) (c : ProtocolCoordinate)
      (m id : String) (answer : Result DaemonMethodError Json)
      → (reply_for api s fresh env c m id answer).0
        ≡ record s { next_generation = u64_suc s.next_generation }
  unfolding reply_for error_result
  reply_for-session s fresh env c m id (ok payload) = refl
  reply_for-session s fresh env c m id (err (method_not_found c' m')) = refl
  reply_for-session s fresh env c m id (err (invalid_payload c' m' message)) = refl
  reply_for-session s fresh env c m id (err (DaemonMethodError.conflict c' m' message)) = refl
  reply_for-session s fresh env c m id (err (method_failed code message retryable)) = refl

  module _ (folds : Bool) (policy : PeerIdentityPolicy) (identity : Option PeerIdentity)
      (d : DaemonServer Json Output Other) where
    -- A generation is taken.
    step :
        {s : SessionState}
        → Serves folds policy identity d s
        → Serves folds policy identity d (record s { next_generation = u64_suc s.next_generation })
    step h = record {
      same_folds = h.same_folds;
      same_policy = h.same_policy;
      sound = record { same_peer = h.sound.same_peer; vouched = h.sound.vouched };
    }

    reply-Serves :
        (s : SessionState) (env : Envelope Json) (fresh : Fresh) (c : ProtocolCoordinate)
        (m id : String) (answer : Resources Output Other × Result DaemonMethodError Json)
        → Serves folds policy identity d s
        → Serves folds policy identity
            (record d { resources = answer.0 })
            (reply_for api s fresh env c m id answer.1).0
    reply-Serves s env fresh c m id answer h =
        subst (λ s'. Serves folds policy identity (record d { resources = answer.0 }) s')
          (sym (reply_for-session s fresh env c m id answer.1))
          (record {
            same_folds = h.same_folds;
            same_policy = h.same_policy;
            sound = record { same_peer = h.sound.same_peer; vouched = h.sound.vouched };
          })

    Handled-Serves :
        (s : SessionState) (env : Envelope Json) (connection : ℕ) (fresh : Fresh)
        (o : Outcome Json Output Other)
        → Serves folds policy identity d s
        → Handled api d s env connection fresh o
        → Serves folds policy identity o.0 o.1
    unfolding error_result
    Handled-Serves s env connection fresh o h (ignored r e) =
        subst (λ x. Serves folds policy identity x.0 x.1) (sym e) h
    Handled-Serves s env connection fresh o h (rejected c m code message retryable e) =
        subst (λ x. Serves folds policy identity x.0 x.1) (sym e) (step h)
    Handled-Serves s env connection fresh o h (agreed supports authority e same f) =
        subst (λ x. Serves folds policy identity x.0 x.1) (sym f)
          (record {
            same_folds = h.same_folds;
            same_policy = h.same_policy;
            sound =
                agree-Sound folds policy identity api s fresh env authority
                  (negotiate d.broker fresh (agent_id_of env.participant) authority supports).1
                  (e ∙ cc (h.same_folds, h.same_policy)) same
                  (negotiate-offered d.broker fresh (agent_id_of env.participant) authority
                    supports)
                  h.sound;
          })
    Handled-Serves s env connection fresh o h (executed p method m e) =
        subst (λ x. Serves folds policy identity x.0 x.1) (sym e)
          (reply-Serves s env fresh p.capability method p.id
            (dispatch_capability api p.capability method d.resources
              (context_of api d fresh connection) (payload_or api.null env.payload))
            h)

module _ {Json Output Other : Type 0} (api : DaemonApi Json Output Other) (folds : Bool)
    (policy : PeerIdentityPolicy) (identity : Option PeerIdentity) where
  handle_envelope-Serves :
      (d : DaemonServer Json Output Other) (s : SessionState) (env : Envelope Json) (connection : ℕ)
      (fresh : Fresh)
      → Serves folds policy identity d s
      → (let o = handle_envelope api d s env connection fresh in
          Serves folds policy identity o.0 o.1)
  handle_envelope-Serves d s env connection fresh h =
      elim (handle_envelope-cases api d s env connection fresh) [
        | inl (seen, e) ↦
            subst (λ x. Serves folds policy identity x.0 x.1) (sym e)
              (Handled-Serves api folds policy identity d s env connection fresh _ h (
                rejected env.capability env.method ErrorCode.malformed_message
                  (api.wording replayed_id) false refl))
        | inr (unseen, handled) ↦
            Handled-Serves api folds policy identity d (record s { seen_ids = env.id ∷ s.seen_ids })
              env connection fresh _
              (record {
                same_folds = h.same_folds;
                same_policy = h.same_policy;
                sound = record { same_peer = h.sound.same_peer; vouched = h.sound.vouched };
              })
              handled
      ]

  handle_frame-Serves :
      (d : DaemonServer Json Output Other) (s : SessionState) (frame : Frame Json) (connection : ℕ)
      (fresh : Fresh)
      → Serves folds policy identity d s
      → (let o = handle_frame api d s frame connection fresh in
          Serves folds policy identity o.0 o.1)
  unfolding handle_frame error_result
  handle_frame-Serves d s (parsed env) connection fresh h =
      handle_envelope-Serves d s env connection fresh h
  handle_frame-Serves d s (unreadable none) connection fresh h = h
  handle_frame-Serves d s (unreadable (some id)) connection fresh h =
      elim (Bool-cases (fits id_min_len id_max_len id)) [
        | inl e ↦ rw (e, handle_frame) (step api folds policy identity d h)
        | inr e ↦ rw (e, handle_frame) h
      ]

  converse-Serves :
      (d : DaemonServer Json Output Other) (s : SessionState) (connection : ℕ)
      (turns : List (Turn Json Output Other))
      → Serves folds policy identity d s
      → (let r = converse api d s connection turns in Serves folds policy identity r.0 r.1)
  unfolding converse
  converse-Serves d s connection [] h = h
  converse-Serves d s connection (turn ∷ turns) h =
      let o = handle_frame api (at_turn d turn) s turn.frame connection turn.fresh in
      converse-Serves o.0 o.1 connection turns (
        handle_frame-Serves (at_turn d turn) s turn.frame connection turn.fresh
          (record { same_folds = h.same_folds; same_policy = h.same_policy; sound = h.sound }))

module _ {Json Output Other : Type 0} (api : DaemonApi Json Output Other)
    (d : DaemonServer Json Output Other) (identity : Option PeerIdentity) (connection : ℕ)
    (turns : List (Turn Json Output Other)) where
  -- Over every history of a connection, whatever other connections do meanwhile: the configuration and
  -- the peer's identity stay; all activations of the connection have its one class of authority; this
  -- is the Shell's only if the identity policy lets the peer through; and each activation is granted
  -- capabilities of the daemon's catalog only.
  pub start-Serves :
      (let r = converse api d (new_session identity) connection turns in
        Serves d.folds_case d.policy identity r.0 r.1)
  start-Serves =
      converse-Serves api d.folds_case d.policy identity d (new_session identity) connection turns
        (record {
          same_folds = refl;
          same_policy = refl;
          sound = record { same_peer = refl; vouched = tt };
        })
