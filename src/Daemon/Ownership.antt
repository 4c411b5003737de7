-- ===== src/Daemon/Ownership.antt =====
-- Browser sessions belong to the connection that created them (crates/daemon/src/browser.rs,
-- capabilities.rs).
use dsh_desktop_shell.Negotiation.Messages.{ProtocolCoordinate-discrete}
use dsh_desktop_shell.Prelude.{dec_of}
use dsh_desktop_shell.Daemon.Entries.{
  entry_of, record_navigation-other, mark_load_failed-other, close_session-other,
  create_session-other,
}
use dsh_desktop_shell.Daemon.Catalog.{
  unknown_method, is_method, browser_capability, dispatch_capability, browser_method,
}
use dsh_desktop_shell.Daemon.BrowserHost.{
  handle_status, handle_list, handle_load_failed, handle_create, handle_close, valid_session_id,
  record_session, parse_request, handle_navigate, close_owned, owner, check_owner, create_session,
  close_session,
}
use dsh_desktop_shell.Browser.Session.{
  mark_load_failed, BrowserSession, BrowserError, session_id_of, SessionRegistry, record_navigation,
}
use dsh_desktop_shell.Daemon.Types.{
  CapabilityContext, Handler, DaemonMethodError, Resources, DaemonApi, BrowserHost,
}
use dsh_desktop_shell.Prelude.{
  false, true, if◌then◌else◌, Bool, not, does, ◌&&◌, ◌==◌, err, Bool-cases, Result, sym, subst,
  Result-cases, text_discrete, lookup, ◌≢◌, ℕ, String, ◌≡◌, ok, arith, refl, inr, inl, some,
}

module _ {Json Output Other : Type 0} (api : DaemonApi Json Output Other) (id : String)
    (context : CapabilityContext Json) (other : ℕ) (foreign : other ≢ context.connection_id) where
  check_owner-other :
      (h : BrowserHost) (k : String)
      → owner h id ≡ some other
      → check_owner api h context.connection_id k ≡ ok tt
      → k ≢ id
  unfolding check_owner
  check_owner-other h k held passed same =
      ground (arith, held, subst (λ j. owner h j ≡ some other) (sym same) held, foreign)

  record_session-other :
      (r : Resources Output Other) (o : SessionRegistry × Result BrowserError BrowserSession)
      → lookup text_discrete id o.0.sessions ≡ lookup text_discrete id r.browser.registry.sessions
      → entry_of (record_session api r o).0.browser id ≡ entry_of r.browser id
  unfolding owner
  record_session-other r (registry, ok session) e = cc e
  record_session-other r (registry, err x) e = cc e

  close_owned-other :
      (r : Resources Output Other) (k : String)
      → k ≢ id
      → entry_of (close_owned api r context k).0.browser id ≡ entry_of r.browser id
  close_owned-other r k n =
      let o = close_session r.browser (context.clock 0) (context.clock 1) k in
      let kept = close_session-other id r.browser (context.clock 0) (context.clock 1) k n in
      elim (Result-cases o.1) [
        | inl (report, e) ↦ rw (e, close_owned) kept
        | inr (x, e) ↦ rw (e, close_owned) kept
      ]

  abbrev Kept :
      Resources Output Other → Resources Output Other × Result DaemonMethodError Json → Type 0
  Kept r o = entry_of o.0.browser id ≡ entry_of r.browser id

  module _ (r : Resources Output Other) (held : owner r.browser id ≡ some other) where
    -- What the check of the owner lets through is about another session.
    owned :
        (k : String) (act : Resources Output Other × Result DaemonMethodError Json)
        → (k ≢ id → Kept r act)
        → Kept r (elim (check_owner api r.browser context.connection_id k) [
          | err e ↦ (r, err e)
          | ok u ↦ act
        ])
    owned k act f = elim (Result-cases (check_owner api r.browser context.connection_id k)) [
      | inl (u, e) ↦ rw e (f (check_owner-other r.browser k held e))
      | inr (x, e) ↦ rw e refl
    ]

    handle_navigate-other : (payload : Json) → Kept r (handle_navigate api r context payload)
    unfolding handle_navigate
    handle_navigate-other payload =
        elim (Result-cases (parse_request api api.navigate_request payload)) [
          | inr (x, e) ↦ rw (e, handle_navigate) refl
          | inl (request, e) ↦
              elim (Bool-cases
                (request.schema_version == 1 && valid_session_id request.session_id)) [
                  | inr f ↦ rw (e, f, handle_navigate) refl
                  | inl f ↦
                      rw (e, f, handle_navigate)
                        (owned request.session_id _ λ n.
                          record_session-other r
                            (record_navigation r.browser.registry (context.clock 0)
                              (context.clock 1) request.session_id request.url)
                            (record_navigation-other id r.browser.registry (context.clock 0)
                              (context.clock 1) request.session_id request.url n))
                ]
        ]

    handle_load_failed-other : (payload : Json) → Kept r (handle_load_failed api r context payload)
    unfolding handle_load_failed
    handle_load_failed-other payload =
        elim (Result-cases (parse_request api api.load_failed_request payload)) [
          | inr (x, e) ↦ rw (e, handle_load_failed) refl
          | inl (request, e) ↦
              elim (Bool-cases (
                request.schema_version == 1
                && (valid_session_id request.session_id && not (api.is_blank request.message)))) [
                  | inr f ↦ rw (e, f, handle_load_failed) refl
                  | inl f ↦
                      rw (e, f, handle_load_failed)
                        (owned request.session_id _ λ n.
                          record_session-other r
                            (mark_load_failed r.browser.registry (context.clock 0) (context.clock 1)
                              request.session_id request.message)
                            (mark_load_failed-other id r.browser.registry (context.clock 0)
                              (context.clock 1) request.session_id request.message n))
                ]
        ]

    handle_close-other : (payload : Json) → Kept r (handle_close api r context payload)
    unfolding handle_close
    handle_close-other payload = elim (Result-cases (parse_request api api.close_request payload)) [
      | inr (x, e) ↦ rw (e, handle_close) refl
      | inl (request, e) ↦
          elim (Bool-cases (request.schema_version == 1 && valid_session_id request.session_id)) [
            | inr f ↦ rw (e, f, handle_close) refl
            | inl f ↦
                rw (e, f, handle_close)
                  (owned request.session_id _ (close_owned-other r request.session_id))
          ]
    ]

    handle_create-other :
        (payload : Json)
        → session_id_of (context.clock 0) r.browser.registry.next_seq ≢ id
        → Kept r (handle_create api r context payload)
    unfolding handle_create
    handle_create-other payload n =
        let o = create_session r.browser (context.clock 0) context.connection_id in
        let kept = create_session-other id r.browser (context.clock 0) context.connection_id n in
        elim (Result-cases (parse_request api api.create_request payload)) [
          | inr (x, e) ↦ rw (e, handle_create) refl
          | inl (request, e) ↦
              elim (Bool-cases (
                request.schema_version == 1 && does (text_discrete request.mode "human_surface"))) [
                  | inr f ↦ rw (e, f, handle_create) refl
                  | inl f ↦ elim (Result-cases o.1) [
                    | inl (report, g) ↦ rw (e, f, g, handle_create) kept
                    | inr (x, g) ↦ rw (e, f, g, handle_create) kept
                  ]
                ]
        ]

  either :
      (b : Bool) (x y : Handler Json Output Other) (r : Resources Output Other) (payload : Json)
      → Kept r (x r context payload)
      → Kept r (y r context payload)
      → Kept r ((if b then x else y) r context payload)
  either true x y r payload f g = f
  either false x y r payload f g = g

  browser_method-cases :
      (m : String) (r : Resources Output Other) (payload : Json)
      → owner r.browser id ≡ some other
      → session_id_of (context.clock 0) r.browser.registry.next_seq ≢ id
      → Kept r (browser_method api browser_capability m r context payload)
  unfolding browser_method handle_list handle_status
  browser_method-cases m r payload held n =
      either (is_method m "browser.create") (handle_create api) _ r payload
        (handle_create-other r held payload n)
        (either (is_method m "browser.list") (handle_list api) _ r payload refl (
          either (is_method m "browser.status") (handle_status api) _ r payload refl (
            either (is_method m "browser.close") (handle_close api) _ r payload
              (handle_close-other r held payload)
              (either (is_method m "browser.navigate") (handle_navigate api) _ r payload
                (handle_navigate-other r held payload)
                (either (is_method m "browser.load-failed") (handle_load_failed api)
                  (unknown_method api browser_capability m) r payload
                  (handle_load_failed-other r held payload) refl)))))

  dispatch-browser_method :
      (m : String) (r : Resources Output Other) (payload : Json)
      → dispatch_capability api browser_capability m r context payload
        ≡ browser_method api browser_capability m r context payload
  unfolding dispatch_capability ProtocolCoordinate-discrete text_discrete dec_of
  dispatch-browser_method m r payload = refl

  -- An invocation of the browser's capability leaves a session that another connection owns as it is,
  -- its entry in the registry and its owner, whatever the method and the payload; a creation must
  -- not make up the id of that session anew.
  pub browser_method-other :
      (m : String) (r : Resources Output Other) (payload : Json)
      → owner r.browser id ≡ some other
      → session_id_of (context.clock 0) r.browser.registry.next_seq ≢ id
      → entry_of (dispatch_capability api browser_capability m r context payload).0.browser id
        ≡ entry_of r.browser id
  browser_method-other m r payload held n =
      subst (Kept r) (sym (dispatch-browser_method m r payload))
        (browser_method-cases m r payload held n)
