-- ===== src/Daemon/Entries.antt =====
-- What a call of the browser host leaves of another session (crates/daemon/src/browser.rs).
use dsh_desktop_shell.Browser.UrlPolicy.{validate}
use dsh_desktop_shell.Daemon.BrowserHost.{owner, create_session, close_session}
use dsh_desktop_shell.Browser.Session.{
  mark_load_failed, created, session_id_of, BrowserEvent, SessionRegistry, navigate_as,
  live_session, create, close, Session, update, record_navigation,
}
use dsh_desktop_shell.Daemon.Types.{BrowserHost}
use dsh_desktop_shell.Prelude.{
  lookup-remove, remove, lookup-insert_ne, List, lookup-modify, Result-cases, Option-cases,
  text_discrete, lookup, ◌≢◌, ℕ, Option, String, ◌≡◌, arith, refl, inr, inl, none,
}

-- What is stored of a session, and who owns it.
abbrev pub entry_of : BrowserHost → String → Option Session × Option ℕ
entry_of h id = (lookup text_discrete id h.registry.sessions, owner h id)

-- The session that `create` stores.
abbrev created_session : ℕ → SessionRegistry → Session
created_session now r = record {
  id = session_id_of now r.next_seq;
  state = created;
  current_url = none;
  created_at_unix_ms = now;
  last_activity_unix_ms = none;
  error = none;
  snapshot = none;
  title = none;
}

module _ (id : String) where
  update-other :
      (r : SessionRegistry) (k : String) (f : Session → Session)
      (event : Session → Option BrowserEvent)
      → k ≢ id
      → lookup text_discrete id (update r k f event).0.sessions ≡ lookup text_discrete id r.sessions
  unfolding update live_session
  update-other r k f event n = elim (Option-cases (lookup text_discrete k r.sessions)) [
    | inl e ↦ ground (arith, e)
    | inr (x, e) ↦ ground (arith, e, lookup-modify text_discrete k id (λ old. f x) r.sessions)
  ]

  pub record_navigation-other :
      (r : SessionRegistry) (touched occurred : ℕ) (k url : String)
      → k ≢ id
      → lookup text_discrete id (record_navigation r touched occurred k url).0.sessions
        ≡ lookup text_discrete id r.sessions
  unfolding record_navigation navigate_as
  record_navigation-other r touched occurred k url n = elim (Result-cases (validate url)) [
    | inl (u, e) ↦ rw (e, navigate_as) (update-other r k _ _ n)
    | inr (x, e) ↦ rw (e, navigate_as) refl
  ]

  pub mark_load_failed-other :
      (r : SessionRegistry) (touched occurred : ℕ) (k message : String)
      → k ≢ id
      → lookup text_discrete id (mark_load_failed r touched occurred k message).0.sessions
        ≡ lookup text_discrete id r.sessions
  unfolding mark_load_failed
  mark_load_failed-other r touched occurred k message n = update-other r k _ _ n

  close-other :
      (r : SessionRegistry) (touched occurred : ℕ) (k : String)
      → k ≢ id
      → lookup text_discrete id (close r touched occurred k).0.sessions
        ≡ lookup text_discrete id r.sessions
  unfolding close
  close-other r touched occurred k n = update-other r k _ _ n

  lookup_removed :
      (m : List (String × ℕ)) (k : String)
      → k ≢ id
      → lookup text_discrete id (remove text_discrete k m) ≡ lookup text_discrete id m
  lookup_removed m k n = ground (arith, lookup-remove text_discrete k id m)

  pub close_session-other :
      (h : BrowserHost) (touched occurred : ℕ) (k : String)
      → k ≢ id
      → entry_of (close_session h touched occurred k).0 id ≡ entry_of h id
  unfolding close_session owner
  close_session-other h touched occurred k n =
      elim (Result-cases (close h.registry touched occurred k).1) [
        | inl (session, e) ↦
            rw (e, close_session)
              (cc (close-other h.registry touched occurred k n, lookup_removed h.owners k n))
        | inr (x, e) ↦ rw (e, close_session) (cc (close-other h.registry touched occurred k n))
      ]

  pub create_session-other :
      (h : BrowserHost) (now connection : ℕ)
      → session_id_of now h.registry.next_seq ≢ id
      → entry_of (create_session h now connection).0 id ≡ entry_of h id
  unfolding create_session create owner
  create_session-other h now connection n = cc (
    lookup-insert_ne text_discrete (session_id_of now h.registry.next_seq) id connection h.owners n,
    lookup-insert_ne text_discrete (session_id_of now h.registry.next_seq) id
        (created_session now h.registry) h.registry.sessions n,
  )
