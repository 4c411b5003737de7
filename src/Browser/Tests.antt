-- ===== src/Browser/Tests.antt =====
-- The browser registry's theorems at concrete calls (crates/browser-provider/src).
use dsh_desktop_shell.Browser.UrlPolicy.{
  userinfo_not_allowed, authority_has_userinfo, split_separator, strip_http_scheme, validate,
}
use dsh_desktop_shell.Browser.Session.{
  live_session, closed_session, update, new, created, closed, close, session_id_of, create,
  SessionRegistry, Session,
}
use dsh_desktop_shell.Browser.Lifecycle.{
  run-closed, marks_load_failed, navigates, run, closes, apply,
}
use dsh_desktop_shell.Prelude.{
  dec_of, text_discrete, lookup, String, ◌≡◌, err, ok, refl, some, none, ◌∷◌, [],
}

abbrev session_9 : SessionRegistry
session_9 = (create new 9).0

id_9 : session_id_of 9 1 ≡ "brw-9-1"
unfolding session_id_of
id_9 = refl

abbrev home : String
home = "HTTPS://example.org/a@b"

home_ok : validate home ≡ ok home
unfolding validate strip_http_scheme split_separator authority_has_userinfo
home_ok = refl

login_refused : validate "http://user@example.org/" ≡ err userinfo_not_allowed
unfolding validate strip_http_scheme split_separator authority_has_userinfo
login_refused = refl

abbrev created_9 : Session
created_9 = record {
  id = "brw-9-1";
  state = created;
  current_url = none;
  created_at_unix_ms = 9;
  last_activity_unix_ms = none;
  error = none;
  snapshot = none;
  title = none;
}

found_9 : lookup text_discrete "brw-9-1" session_9.sessions ≡ some created_9
unfolding create new session_id_of text_discrete dec_of
found_9 = refl

abbrev closed_9 : Session
closed_9 = record created_9 { state = closed; last_activity_unix_ms = some 30 }

abbrev shut_registry : SessionRegistry
shut_registry = (close session_9 30 31 "brw-9-1").0

found_closed : lookup text_discrete "brw-9-1" shut_registry.sessions ≡ some closed_9
unfolding create new session_id_of close update live_session text_discrete dec_of
found_closed = refl

run-closed_example :
    lookup text_discrete "brw-9-1"
      (run shut_registry
        (navigates 40 41 "brw-9-1" home ∷ marks_load_failed 42 43 "brw-9-1" "late" ∷ [])).sessions
    ≡ some closed_9
run-closed_example =
    run-closed "brw-9-1" closed_9 shut_registry
      (navigates 40 41 "brw-9-1" home ∷ marks_load_failed 42 43 "brw-9-1" "late" ∷ []) refl
      found_closed (tt, (tt, tt))

refused : (apply shut_registry (closes 50 51 "brw-9-1")).1 ≡ err closed_session
unfolding apply create new session_id_of close update live_session text_discrete dec_of
refused = refl
