-- ===== src/Daemon/BrowserHost.antt =====
-- The browser capability of the daemon (crates/daemon/src/browser.rs): who created which session, and
-- the handlers of `browser.*`. `clock i` of the context is the i-th reading of the clock in a call.
use dsh_desktop_shell.EventRouter.State.{subscribe, browser, publish, unsubscribe}
use dsh_desktop_shell.Envelope.Types.{malformed_message, unavailable, not_process_owner, ErrorCode}
use dsh_desktop_shell.Daemon.Types.{
  CapabilityContext, provider_unavailable, url_rejected, created, closed, lifecycle, session_closed,
  request_shape, request_malformed, session_unknown, owned_elsewhere, method_failed, Reason,
  DaemonMethodError, Resources, Handler, BrowserReport, DaemonApi, BrowserHost,
}
use dsh_desktop_shell.Browser.Listing.{list}
use dsh_desktop_shell.Browser.Session.{
  other, closed_session, not_found, invalid_url, get, record_navigation, mark_load_failed,
  is_closed, report, is_id_code, create, close, begins_brw, SessionRegistry, new, BrowserError,
  BrowserSession,
}
use dsh_desktop_shell.Prelude.{
  all, leb, ltb, does, ◌&&◌, text_discrete, remove, or_fail, insert, codes, ◌==◌, not, map, lookup,
  retain, Result, Option, List, Bool, ℕ, String, if◌then◌else◌, err, ok, false, true, some, none,
  [],
}
use Prim.Native.String.{len}

abbrev pub public_report : BrowserSession → BrowserReport
public_report session = record { schema_version = 1; session = session }

-- `^brw-[a-z0-9-]+$`, of at most 64 bytes.
unfoldable pub valid_session_id : String → Bool
valid_session_id id =
    begins_brw (codes id) && (ltb 4 (len id) && (leb (len id) 64 && all is_id_code (codes id)))

unfoldable pub new_host : BrowserHost
new_host = record { registry = new; owners = [] }

unfoldable pub create_session :
    BrowserHost → ℕ → ℕ → BrowserHost × Result BrowserError BrowserReport
create_session h now owner =
    let (registry, made) = create h.registry now in
    elim made [
      | err e ↦ (record h { registry = registry }, err e)
      | ok session ↦ (
        record {
          registry = registry;
          owners = insert text_discrete session.session_id owner h.owners;
        },
        ok (public_report session),
      )
    ]

unfoldable pub close_session :
    BrowserHost → ℕ → ℕ → String → BrowserHost × Result BrowserError BrowserReport
close_session h touched occurred id =
    let (registry, shut) = close h.registry touched occurred id in
    elim shut [
      | err e ↦ (record h { registry = registry }, err e)
      | ok session ↦ (
        record { registry = registry; owners = remove text_discrete id h.owners },
        ok (public_report session),
      )
    ]

unfoldable pub owner : BrowserHost → String → Option ℕ
owner h id = lookup text_discrete id h.owners

unfoldable pub release_connection_ownership : BrowserHost → ℕ → BrowserHost
release_connection_ownership h connection = record h {
  owners = retain (λ o. not (o.1 == connection)) h.owners;
}

-- The live sessions.
unfoldable pub reports : BrowserHost → List BrowserReport
reports h = map public_report (retain (λ s. not (is_closed s.state)) (list h.registry))

module _ {Json Output Other : Type 0} (api : DaemonApi Json Output Other) where
  abbrev pub failed : ErrorCode → Reason → Bool → DaemonMethodError
  failed code reason retryable = method_failed code (api.wording reason) retryable

  unfoldable pub map_browser_error : BrowserError → DaemonMethodError
  map_browser_error not_found = failed unavailable session_unknown false
  map_browser_error closed_session = failed unavailable session_closed false
  map_browser_error (invalid_url e) = failed malformed_message url_rejected false
  map_browser_error other = failed unavailable provider_unavailable true

  abbrev pub parse_request : {R : Type 0} → (Json → Option R) → Json → Result DaemonMethodError R
  parse_request parse payload =
      or_fail (parse payload) (failed malformed_message request_shape false)

  unfoldable pub check_owner : BrowserHost → ℕ → String → Result DaemonMethodError (Unit {0})
  check_owner h connection id = elim (owner h id) [
    | some owner ↦
        if owner == connection then ok tt else err (failed not_process_owner owned_elsewhere false)
    | none ↦ elim (get h.registry id) [
      | ok session ↦ ok tt
      | err e ↦ err (failed unavailable session_unknown false)
    ]
  ]

  abbrev pub put_registry : Resources Output Other → SessionRegistry → Resources Output Other
  put_registry r registry = record r { browser = record r.browser { registry = registry } }

  unfoldable pub handle_create : Handler Json Output Other
  handle_create r context payload = elim (parse_request api.create_request payload) [
    | err e ↦ (r, err e)
    | ok request ↦
        if request.schema_version == 1 && does (text_discrete request.mode "human_surface")
        then (let (host, made) = create_session r.browser (context.clock 0) context.connection_id in
            elim made [
              | err e ↦ (record r { browser = host }, err (map_browser_error e))
              | ok report ↦ (
                record r {
                  browser = host;
                  events =
                      publish (subscribe r.events context.connection_id report.session.session_id)
                        (browser report.session.session_id (lifecycle created (context.clock 1)));
                },
                ok (api.of_report report),
              )
            ])
        else (r, err (failed malformed_message request_malformed false))
  ]

  -- The close itself, after the checks.
  abbrev pub close_owned :
      Resources Output Other
      → CapabilityContext Json
      → String
      → Resources Output Other × Result DaemonMethodError Json
  close_owned r context id =
      let (host, shut) = close_session r.browser (context.clock 0) (context.clock 1) id in
      elim shut [
        | err e ↦ (record r { browser = host }, err (map_browser_error e))
        | ok report ↦ (
          record r {
            browser = host;
            events =
                unsubscribe (publish r.events (browser id (lifecycle closed (context.clock 2))))
                  context.connection_id id;
          },
          ok (api.of_report report),
        )
      ]

  unfoldable pub handle_close : Handler Json Output Other
  handle_close r context payload = elim (parse_request api.close_request payload) [
    | err e ↦ (r, err e)
    | ok request ↦
        if request.schema_version == 1 && valid_session_id request.session_id
        then elim (check_owner r.browser context.connection_id request.session_id) [
          | err e ↦ (r, err e)
          | ok u ↦ close_owned r context request.session_id
        ]
        else (r, err (failed malformed_message request_malformed false))
  ]

  -- A call of the registry that leaves the owners alone.
  abbrev pub record_session :
      Resources Output Other
      → SessionRegistry × Result BrowserError BrowserSession
      → Resources Output Other × Result DaemonMethodError Json
  record_session r (registry, ok session) =
      (put_registry r registry, ok (api.of_report (public_report session)))
  record_session r (registry, err e) = (put_registry r registry, err (map_browser_error e))

  unfoldable pub handle_navigate : Handler Json Output Other
  handle_navigate r context payload = elim (parse_request api.navigate_request payload) [
    | err e ↦ (r, err e)
    | ok request ↦
        if request.schema_version == 1 && valid_session_id request.session_id
        then elim (check_owner r.browser context.connection_id request.session_id) [
          | err e ↦ (r, err e)
          | ok u ↦ record_session r (
              record_navigation r.browser.registry (context.clock 0) (context.clock 1)
                request.session_id request.url)
        ]
        else (r, err (failed malformed_message request_malformed false))
  ]

  unfoldable pub handle_load_failed : Handler Json Output Other
  handle_load_failed r context payload = elim (parse_request api.load_failed_request payload) [
    | err e ↦ (r, err e)
    | ok request ↦
        if request.schema_version == 1
          && (valid_session_id request.session_id && not (api.is_blank request.message))
        then elim (check_owner r.browser context.connection_id request.session_id) [
          | err e ↦ (r, err e)
          | ok u ↦ record_session r (
              mark_load_failed r.browser.registry (context.clock 0) (context.clock 1)
                request.session_id request.message)
        ]
        else (r, err (failed malformed_message request_malformed false))
  ]

  unfoldable pub handle_list : Handler Json Output Other
  handle_list r context payload = (r, ok (api.of_browsers (reports r.browser)))

  unfoldable pub handle_status : Handler Json Output Other
  handle_status r context payload = (r, ok (api.of_sessions (reports r.browser)))
