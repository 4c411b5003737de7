-- ===== src/Daemon/Replay.antt =====
-- Message ids and replies (crates/daemon/src/server.rs): an id counts once, and a call is answered.
use dsh_desktop_shell.Envelope.Frames.{fits}
use dsh_desktop_shell.Daemon.Connection.{
  session_after, server_after, at_turn, unreadable, parsed, Turn, handle_frame, converse, Frame,
}
use dsh_desktop_shell.Daemon.History.{reply_for-session}
use dsh_desktop_shell.Daemon.Invocation.{context_of, payload_or}
use dsh_desktop_shell.Daemon.Catalog.{dispatch_capability}
use dsh_desktop_shell.Daemon.Server.{handle_envelope, has_seen}
use dsh_desktop_shell.Daemon.Terms.{Fresh}
use dsh_desktop_shell.Envelope.Types.{ProtocolError, id_max_len, id_min_len, ErrorCode, Envelope}
use dsh_desktop_shell.Daemon.Replies.{Outcome, DaemonServer, error_result}
use dsh_desktop_shell.Daemon.Types.{new_session, PeerIdentity, SessionState, DaemonApi}
use dsh_desktop_shell.Prelude.{
  does_iff, Bool-cases, text_discrete, Any, sym, does, subst, any, Option, ◌⊎◌, ℕ, String, List,
  ◌≡◌, arith, refl, true, inr, inl, some, none, ◌∷◌, [],
}
use dsh_desktop_shell.Daemon.Handling.{
  handle_envelope-cases, Handled, ignored, rejected, agreed, executed,
}

-- The frame is an envelope of this id.
abbrev pub Carries : {Json : Type 0} → String → Frame Json → Type 0
Carries id (parsed env) = env.id ≡ id
Carries id (unreadable text) = ⊥

head_or_tail :
    (j : String) (js : List String) (id : String)
    → (any (λ seen. does (text_discrete seen id)) js ≡ true) ⊎ (j ≡ id)
    → any (λ seen. does (text_discrete seen id)) (j ∷ js) ≡ true
head_or_tail j js id h = ground (arith, does_iff (text_discrete j id))

module _ {Json Output Other : Type 0} (api : DaemonApi Json Output Other) where
  Handled-seen :
      (d : DaemonServer Json Output Other) (s : SessionState) (env : Envelope Json) (connection : ℕ)
      (fresh : Fresh) (o : Outcome Json Output Other)
      → Handled api d s env connection fresh o
      → o.1.seen_ids ≡ s.seen_ids
  unfolding error_result
  Handled-seen d s env connection fresh o (ignored r e) = cc e
  Handled-seen d s env connection fresh o (rejected c m code message retryable e) = cc e
  Handled-seen d s env connection fresh o (agreed supports authority e same f) = cc f
  Handled-seen d s env connection fresh o (executed p method m e) =
      let answer =
        (dispatch_capability api p.capability method d.resources (context_of api d fresh connection)
          (payload_or api.null env.payload)).1 in
      cc (e, reply_for-session api s fresh env p.capability method p.id answer)

  handle_envelope-seen :
      (d : DaemonServer Json Output Other) (s : SessionState) (env : Envelope Json) (connection : ℕ)
      (fresh : Fresh) (id : String)
      → (has_seen s id ≡ true) ⊎ (env.id ≡ id)
      → has_seen (handle_envelope api d s env connection fresh).1 id ≡ true
  unfolding error_result
  handle_envelope-seen d s env connection fresh id h =
      elim (handle_envelope-cases api d s env connection fresh) [
        | inl (seen, e) ↦
            subst (λ o. has_seen o.1 id ≡ true) (sym e)
              (elim h [ inl before ↦ before | inr p ↦ subst (λ i. has_seen s i ≡ true) p seen ])
        | inr (unseen, handled) ↦
            subst (λ ids. any (λ seen. does (text_discrete seen id)) ids ≡ true)
              (sym (
                Handled-seen d (record s { seen_ids = env.id ∷ s.seen_ids }) env connection fresh _
                  handled))
              (head_or_tail env.id s.seen_ids id h)
      ]

  handle_frame-seen :
      (d : DaemonServer Json Output Other) (s : SessionState) (frame : Frame Json) (connection : ℕ)
      (fresh : Fresh) (id : String)
      → (has_seen s id ≡ true) ⊎ Carries id frame
      → has_seen (handle_frame api d s frame connection fresh).1 id ≡ true
  unfolding handle_frame error_result
  handle_frame-seen d s (parsed env) connection fresh id h =
      handle_envelope-seen d s env connection fresh id h
  handle_frame-seen d s (unreadable none) connection fresh id (inl seen) = seen
  handle_frame-seen d s (unreadable (some text)) connection fresh id (inl seen) =
      elim (Bool-cases (fits id_min_len id_max_len text)) [
        | inl e ↦ rw (e, handle_frame) seen
        | inr e ↦ rw (e, handle_frame) seen
      ]
  handle_frame-seen d s (unreadable text) connection fresh id (inr never) = absurd never

  converse-seen :
      (d : DaemonServer Json Output Other) (s : SessionState) (connection : ℕ)
      (turns : List (Turn Json Output Other)) (id : String)
      → (has_seen s id ≡ true) ⊎ Any (λ turn. Carries id turn.frame) turns
      → has_seen (converse api d s connection turns).1 id ≡ true
  unfolding converse
  converse-seen d s connection [] id (inl seen) = seen
  converse-seen d s connection [] id (inr never) = absurd never
  converse-seen d s connection (turn ∷ turns) id h =
      let o = handle_frame api (at_turn d turn) s turn.frame connection turn.fresh in
      let first = handle_frame-seen (at_turn d turn) s turn.frame connection turn.fresh id in
      converse-seen o.0 o.1 connection turns id (elim h [
        | inl seen ↦ inl (first (inl seen))
        | inr (inl now) ↦ inl (first (inr now))
        | inr (inr later) ↦ inr later
      ])

abbrev pub code_of : Option ProtocolError → Option ErrorCode
code_of none = none
code_of (some e) = some e.code

-- One error reply to the frame of this id, of this code.
abbrev pub IsRefusal : {Json : Type 0} → ErrorCode → String → List (Envelope Json) → Type 0
IsRefusal code id (reply ∷ []) = (reply.reply_to ≡ some id) × (code_of reply.error ≡ some code)
IsRefusal code id replies = ⊥

module _ {Json Output Other : Type 0} (api : DaemonApi Json Output Other) where
  -- A message id counts once on a connection, over any history: once an envelope of this id has
  -- arrived, another envelope of the id changes neither the broker nor the resources nor the
  -- activations of the connection, and its one reply is the error for a malformed message.
  pub id_counts_once :
      (start : DaemonServer Json Output Other) (identity : Option PeerIdentity) (connection : ℕ)
      (turns : List (Turn Json Output Other)) (turn : Turn Json Output Other) (env : Envelope Json)
      → Any (λ earlier. Carries env.id earlier.frame) turns
      → (let d = server_after api start identity connection turns turn in
          let s = session_after api start identity connection turns in
          let o = handle_envelope api d s env connection turn.fresh in
          (o.0 ≡ d)
          × (o.1.activations ≡ s.activations)
          × IsRefusal ErrorCode.malformed_message env.id o.2)
  unfolding handle_envelope error_result
  id_counts_once start identity connection turns turn env h =
      let s = session_after api start identity connection turns in
      rw
        (
          converse-seen api start (new_session identity) connection turns env.id (inr h),
          handle_envelope,
        )
        (refl, refl, (refl, refl))
