-- ===== src/Browser/Session.antt =====
-- The browser session registry (crates/browser-provider/src/session.rs and event.rs). `touched` and
-- `occurred` are the clock's readings in a call. The locks are never poisoned: no holder panics.
use dsh_desktop_shell.Browser.UrlPolicy.{validate, UrlError}
use dsh_desktop_shell.Prelude.{
  decimal_from, codes, all, or_fail, not, ltb, if◌then◌else◌, ◌>>=◌, ◌||◌, insert, ◌+◌, ◌&&◌, ◌%◌,
  text_discrete, lookup, ◌==◌, modify, leb, does, Result, ◌++◌, ℕ, String, Option, List, Bool, suc,
  zero, err, ok, false, true, some, none, ◌∷◌, [],
}
use Prim.Native.String.{◌++◌ as str_append, len}

pub data SessionState : Type 0 where
  created loading ready closed error : SessionState

pub record BrowserSession : Type 0 where
  pub session_id : String
  pub state : SessionState
  pub current_url : Option String
  pub created_at_unix_ms : ℕ
  pub last_activity_unix_ms : Option ℕ
  pub error : Option String

pub data BrowserError : Type 0 where
  not_found : BrowserError
  invalid_url : UrlError → BrowserError
  closed_session other : BrowserError

pub data BrowserEventKind : Type 0 where
  navigation_changed load_failed closed_event title_changed : BrowserEventKind

pub record BrowserEvent : Type 0 where
  pub session_id : String
  pub kind : BrowserEventKind
  pub occurred_at_unix_ms : ℕ
  pub url : Option String
  pub title : Option String

pub record Session : Type 0 where
  pub id : String
  pub state : SessionState
  pub current_url : Option String
  pub created_at_unix_ms : ℕ
  pub last_activity_unix_ms : Option ℕ
  pub error : Option String
  pub snapshot : Option String
  pub title : Option String

pub record SessionRegistry : Type 0 where
  pub next_seq : ℕ
  pub sessions : List (String × Session)
  pub events : List BrowserEvent

abbrev pub max_error_len : ℕ
max_error_len = 256

abbrev pub report : Session → BrowserSession
report s = record {
  session_id = s.id;
  state = s.state;
  current_url = s.current_url;
  created_at_unix_ms = s.created_at_unix_ms;
  last_activity_unix_ms = s.last_activity_unix_ms;
  error = s.error;
}

unfoldable pub new : SessionRegistry
new = record { next_seq = 1; sessions = []; events = [] }

-- `format!("brw-{now}-{seq}")`.
unfoldable pub session_id_of : ℕ → ℕ → String
unfolding decimal_from
session_id_of now seq =
    str_append "brw-"
      (str_append (decimal_from 20 now "") (str_append "-" (decimal_from 20 seq "")))

-- `fetch_add` on the u64 sequence wraps.
unfoldable pub create : SessionRegistry → ℕ → SessionRegistry × Result BrowserError BrowserSession
create r now =
    let id = session_id_of now r.next_seq in
    let session : Session = record {
      id = id;
      state = created;
      current_url = none;
      created_at_unix_ms = now;
      last_activity_unix_ms = none;
      error = none;
      snapshot = none;
      title = none;
    } in
    (
      record r {
        next_seq = (r.next_seq + 1) % 18446744073709551616;
        sessions = insert text_discrete id session r.sessions;
      },
      ok (report session),
    )

abbrev pub is_id_code : ℕ → Bool
is_id_code c = (leb b'a' c && leb c b'z') || ((leb b'0' c && leb c b'9') || c == b'-')

abbrev pub begins_brw : List ℕ → Bool
begins_brw (a ∷ b ∷ c ∷ d ∷ rest) = a == b'b' && (b == b'r' && (c == b'w' && d == b'-'))
begins_brw _ = false

unfoldable pub attach :
    SessionRegistry
    → String
    → SessionState
    → Option String
    → ℕ
    → Option ℕ
    → Option String
    → SessionRegistry × Result BrowserError BrowserSession
attach r id state url created_at last_activity failure =
    if not (begins_brw (codes id)) || (ltb 64 (len id) || not (all is_id_code (codes id)))
    then (r, err other)
    else elim (lookup text_discrete id r.sessions) [
      | some present ↦ (r, err other)
      | none ↦
          let session : Session = record {
            id = id;
            state = state;
            current_url = url;
            created_at_unix_ms = created_at;
            last_activity_unix_ms = last_activity;
            error = failure;
            snapshot = none;
            title = none;
          } in
          (record r { sessions = insert text_discrete id session r.sessions }, ok (report session))
    ]

abbrev pub is_closed : SessionState → Bool
is_closed closed = true
is_closed _ = false

unfoldable pub live_session : SessionRegistry → String → Result BrowserError Session
live_session r id = elim (lookup text_discrete id r.sessions) [
  | none ↦ err not_found
  | some s ↦ if is_closed s.state then err closed_session else ok s
]

abbrev pub touch : ℕ → Session → Session
touch now s = record s { last_activity_unix_ms = some now }

abbrev pub put : SessionRegistry → String → Session → SessionRegistry
put r id s = record r { sessions = modify text_discrete id (λ old. s) r.sessions }

abbrev pub push_event : SessionRegistry → BrowserEvent → SessionRegistry
push_event r e = record r { events = r.events ++ (e ∷ []) }

-- An update of a live session, with the event that goes with it, if any.
unfoldable pub update :
    SessionRegistry
    → String
    → (Session → Session)
    → (Session → Option BrowserEvent)
    → SessionRegistry × Result BrowserError BrowserSession
update r id f event = elim (live_session r id) [
  | err e ↦ (r, err e)
  | ok s ↦ (
    elim (event s) [ none ↦ put r id (f s) | some e ↦ push_event (put r id (f s)) e ],
    ok (report (f s)),
  )
]

abbrev pub event_of : String → BrowserEventKind → ℕ → Option String → Option String → BrowserEvent
event_of id kind occurred url title = record {
  session_id = id;
  kind = kind;
  occurred_at_unix_ms = occurred;
  url = url;
  title = title;
}

-- The body that `navigate` and `record_navigation` share; they differ in the state they set.
abbrev pub go_to : SessionState → ℕ → String → Session → Session
go_to state touched url s =
    touch touched
      (record s { state = state; current_url = some url; error = none; snapshot = none })

unfoldable pub navigate_as :
    SessionState
    → SessionRegistry
    → ℕ
    → ℕ
    → String
    → String
    → SessionRegistry × Result BrowserError BrowserSession
navigate_as state r touched occurred id url = elim (validate url) [
  | err e ↦ (r, err (invalid_url e))
  | ok u ↦
      update r id (go_to state touched u)
        (λ s. some (event_of id navigation_changed occurred (some u) none))
]

unfoldable pub navigate :
    SessionRegistry → ℕ → ℕ → String → String → SessionRegistry × Result BrowserError BrowserSession
unfolding navigate_as
navigate = navigate_as loading

unfoldable pub record_navigation :
    SessionRegistry → ℕ → ℕ → String → String → SessionRegistry × Result BrowserError BrowserSession
unfolding navigate_as
record_navigation = navigate_as ready

abbrev pub settle : ℕ → SessionState → Session → Session
settle touched loading s = touch touched (record s { state = ready; error = none })
settle touched error s = touch touched (record s { state = ready; error = none })
settle touched _ s = s

unfoldable pub mark_ready :
    SessionRegistry → ℕ → String → SessionRegistry × Result BrowserError BrowserSession
mark_ready r touched id = update r id (λ s. settle touched s.state s) (λ s. none)

abbrev has_title : Option String → String → Bool
has_title none title = false
has_title (some t) title = does (text_discrete t title)

unfoldable pub set_title :
    SessionRegistry → ℕ → ℕ → String → String → SessionRegistry × Result BrowserError BrowserSession
set_title r touched occurred id title =
    update r id
      (λ s. if has_title s.title title then s else touch touched (record s { title = some title }))
      (λ s. some (event_of id title_changed occurred none (some title)))

-- `message.chars().take(n).collect()`.
pub take_chars : ℕ → String → String
take_chars zero s = ""
take_chars (suc n) String.[] = ""
take_chars (suc n) (String.◌∷◌ c s) = String.◌∷◌ c (take_chars n s)

unfoldable pub mark_load_failed :
    SessionRegistry → ℕ → ℕ → String → String → SessionRegistry × Result BrowserError BrowserSession
mark_load_failed r touched occurred id message =
    update r id
      (λ s.
        touch touched (record s { state = error; error = some (take_chars max_error_len message) }))
      (λ s. some (event_of id load_failed occurred s.current_url none))

unfoldable pub set_snapshot :
    SessionRegistry → ℕ → String → String → SessionRegistry × Result BrowserError BrowserSession
set_snapshot r touched id text =
    update r id (λ s. touch touched (record s { snapshot = some text })) (λ s. none)

unfoldable pub snapshot_text : SessionRegistry → String → Result BrowserError String
snapshot_text r id = do s ← live_session r id; ok (elim s.snapshot [ none ↦ "" | some text ↦ text ])

unfoldable pub close :
    SessionRegistry → ℕ → ℕ → String → SessionRegistry × Result BrowserError BrowserSession
close r touched occurred id =
    update r id (λ s. touch touched (record s { state = closed }))
      (λ s. some (event_of id closed_event occurred none none))

unfoldable pub get : SessionRegistry → String → Result BrowserError BrowserSession
get r id = do s ← or_fail (lookup text_discrete id r.sessions) not_found; ok (report s)

unfoldable pub drain_events : SessionRegistry → SessionRegistry × List BrowserEvent
drain_events r = (record r { events = [] }, r.events)
