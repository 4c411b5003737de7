-- ===== src/Browser/Lifecycle.antt =====
-- The life of a browser session over any calls of the registry
-- (crates/browser-provider/src/session.rs).
use dsh_desktop_shell.Browser.UrlPolicy.{validate}
use dsh_desktop_shell.Browser.Session.{
  go_to, navigation_changed, ready, report, loading, BrowserSession, close, set_snapshot,
  BrowserEvent, mark_load_failed, live_session, BrowserError, update, set_title, session_id_of,
  navigate_as, mark_ready, closed, record_navigation, attach, SessionState, SessionRegistry,
  Session, navigate, create,
}
use dsh_desktop_shell.Prelude.{
  ◌++◌, subst, ◌∙◌, lookup-insert_ne, Result-cases, List, lookup-modify, Result, Option-cases,
  text_discrete, ◌≢◌, lookup, Option, ℕ, String, ◌≡◌, err, ok, arith, inr, inl, some, none, ◌∷◌, [],
}

pub data Call : Type 0 where
  creates : ℕ → Call
  attaches : String → SessionState → Option String → ℕ → Option ℕ → Option String → Call
  navigates : ℕ → ℕ → String → String → Call
  records_navigation : ℕ → ℕ → String → String → Call
  marks_ready : ℕ → String → Call
  sets_title : ℕ → ℕ → String → String → Call
  marks_load_failed : ℕ → ℕ → String → String → Call
  sets_snapshot : ℕ → String → String → Call
  closes : ℕ → ℕ → String → Call

unfoldable pub apply : SessionRegistry → Call → SessionRegistry × Result BrowserError BrowserSession
unfolding navigate record_navigation mark_ready set_title mark_load_failed set_snapshot close
apply r (creates now) = create r now
apply r (attaches id state url at last failure) = attach r id state url at last failure
apply r (navigates touched occurred id url) = navigate r touched occurred id url
apply r (records_navigation touched occurred id url) = record_navigation r touched occurred id url
apply r (marks_ready touched id) = mark_ready r touched id
apply r (sets_title touched occurred id title) = set_title r touched occurred id title
apply r (marks_load_failed touched occurred id message) =
    mark_load_failed r touched occurred id message
apply r (sets_snapshot touched id text) = set_snapshot r touched id text
apply r (closes touched occurred id) = close r touched occurred id

-- A call that is refused leaves the registry as it was: its sessions, events and sequence.
apply_error_unchanged :
    (r : SessionRegistry) (c : Call) (e : BrowserError) → (apply r c).1 ≡ err e → (apply r c).0 ≡ r
unfolding apply create attach navigate_as update
apply_error_unchanged r (creates now) e h = cc
apply_error_unchanged r (attaches id state url at last failure) e h = ground arith
apply_error_unchanged r (navigates touched occurred id url) e h = ground arith
apply_error_unchanged r (records_navigation touched occurred id url) e h = ground arith
apply_error_unchanged r (marks_ready touched id) e h = ground arith
apply_error_unchanged r (sets_title touched occurred id title) e h = ground arith
apply_error_unchanged r (marks_load_failed touched occurred id message) e h = ground arith
apply_error_unchanged r (sets_snapshot touched id text) e h = ground arith
apply_error_unchanged r (closes touched occurred id) e h = ground arith

-- The id that the call registers, if it is a creation, is another one.
abbrev pub Avoids : String → SessionRegistry → Call → Type 0
Avoids id r (creates now) = session_id_of now r.next_seq ≢ id
Avoids id r _ = Unit {0}

module _ (id : String) (s : Session) (shut : s.state ≡ closed) where
  update-closed :
      (r : SessionRegistry) (k : String) (f : Session → Session)
      (event : Session → Option BrowserEvent)
      → lookup text_discrete id r.sessions ≡ some s
      → lookup text_discrete id (update r k f event).0.sessions ≡ some s
  unfolding update live_session
  update-closed r k f event h = elim (Option-cases (lookup text_discrete k r.sessions)) [
    | inl e ↦ ground (arith, e)
    | inr (x, e) ↦ ground (arith, e, lookup-modify text_discrete k id (λ old. f x) r.sessions)
  ]

  navigate_as-closed :
      (state : SessionState) (r : SessionRegistry) (touched occurred : ℕ) (k url : String)
      → lookup text_discrete id r.sessions ≡ some s
      → lookup text_discrete id (navigate_as state r touched occurred k url).0.sessions ≡ some s
  unfolding navigate_as
  navigate_as-closed state r touched occurred k url h = elim (Result-cases (validate url)) [
    | inl (u, e) ↦ rw (e, navigate_as) (update-closed r k _ _ h)
    | inr (x, e) ↦ rw (e, navigate_as) h
  ]

  apply-closed :
      (r : SessionRegistry) (c : Call)
      → Avoids id r c
      → lookup text_discrete id r.sessions ≡ some s
      → lookup text_discrete id (apply r c).0.sessions ≡ some s
  unfolding apply create attach
  apply-closed r (creates now) other h =
      lookup-insert_ne text_discrete (session_id_of now r.next_seq) id _ r.sessions other ∙ h
  apply-closed r (attaches k state url at last failure) other h =
      elim (Option-cases (lookup text_discrete k r.sessions)) [
        | inr (x, e) ↦ ground (arith, e)
        | inl e ↦ ground (
          arith,
          e,
          lookup-insert_ne text_discrete k id
              (record {
                id = k;
                state = state;
                current_url = url;
                created_at_unix_ms = at;
                last_activity_unix_ms = last;
                error = failure;
                snapshot = none;
                title = none;
              })
              r.sessions (λ p. cc (subst (λ x. lookup text_discrete x r.sessions ≡ none) p e)),
        )
      ]
  apply-closed r (navigates touched occurred k url) other h =
      navigate_as-closed loading r touched occurred k url h
  apply-closed r (records_navigation touched occurred k url) other h =
      navigate_as-closed ready r touched occurred k url h
  apply-closed r (marks_ready touched k) other h = update-closed r k _ _ h
  apply-closed r (sets_title touched occurred k title) other h = update-closed r k _ _ h
  apply-closed r (marks_load_failed touched occurred k message) other h = update-closed r k _ _ h
  apply-closed r (sets_snapshot touched k text) other h = update-closed r k _ _ h
  apply-closed r (closes touched occurred k) other h = update-closed r k _ _ h

unfoldable pub run : SessionRegistry → List Call → SessionRegistry
run r [] = r
run r (c ∷ cs) = run (apply r c).0 cs

abbrev pub AllAvoid : String → SessionRegistry → List Call → Type 0
AllAvoid id r [] = Unit {0}
AllAvoid id r (c ∷ cs) = Avoids id r c × AllAvoid id (apply r c).0 cs

-- A closed session is final: over any calls that do not create a session of its very id, its whole
-- record stays as it was when it was closed.
pub run-closed :
    (id : String) (s : Session) (r : SessionRegistry) (cs : List Call)
    → s.state ≡ closed
    → lookup text_discrete id r.sessions ≡ some s
    → AllAvoid id r cs
    → lookup text_discrete id (run r cs).sessions ≡ some s
unfolding run
run-closed id s r [] shut h a = h
run-closed id s r (c ∷ cs) shut h a =
    run-closed id s (apply r c).0 cs shut (apply-closed id s shut r c a.0 h) a.1

-- A navigation to a URL that the policy accepts, in a session that is there and not closed,
-- succeeds: the session is loading at that URL with its failure and its snapshot cleared, and one
-- `navigation_changed` event with the URL ends the history.
navigate_ok :
    (r : SessionRegistry) (touched occurred : ℕ) (id url u : String) (s : Session)
    → validate url ≡ ok u
    → lookup text_discrete id r.sessions ≡ some s
    → s.state ≢ closed
    → let (r', answer) = navigate r touched occurred id url in
      let s' : Session = record s {
        state = loading;
        current_url = some u;
        error = none;
        snapshot = none;
        last_activity_unix_ms = some touched;
      } in
      (answer ≡ ok (report s'))
      × (lookup text_discrete id r'.sessions ≡ some s')
      × (r'.events
          ≡ r.events
            ++ (record {
              session_id = id;
              kind = navigation_changed;
              occurred_at_unix_ms = occurred;
              url = some u;
              title = none;
            }
                ∷ []))
unfolding navigate navigate_as update live_session
navigate_ok r touched occurred id url u s v h live = (
  ground (arith, v, h),
  ground (
    arith,
    v,
    h,
    lookup-modify text_discrete id id (λ old. go_to loading touched u s) r.sessions,
  ),
  ground (arith, v, h),
)
