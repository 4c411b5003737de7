-- ===== src/Terminal/Registry.antt =====
-- The PTY registry (crates/terminal-provider/src/lib.rs). What the operating system does in a call,
-- and the clock's readings, are an argument of the call (`Os`); a session's reader thread is left out.
use dsh_desktop_shell.Prelude.{
  ◌&&◌, ◌%◌, lookup, ◌+◌, text_discrete, remove, or_fail, ltb, leb, map, insert, Result, Bool, ℕ,
  decimal_from, String, Option, List, ◌>>=◌, if◌then◌else◌, err, ok, false, some, none, [],
}
use Prim.Native.String.{◌++◌ as str_append, len}

abbrev pub min_cols : ℕ
min_cols = 20

abbrev pub max_cols : ℕ
max_cols = 500

abbrev pub min_rows : ℕ
min_rows = 5

abbrev pub max_rows : ℕ
max_rows = 300

abbrev pub max_write_bytes : ℕ
max_write_bytes = 8192

pub data PtyError : Type 0 where
  invalid_shell spawn_unavailable unknown_session invalid_geometry write_too_large : PtyError
  io state_unavailable : PtyError

pub record PtyReport : Type 0 where
  pub session_id : String
  pub state : String
  pub cols : ℕ
  pub rows : ℕ
  pub created_at_unix_ms : ℕ
  pub last_activity_unix_ms : Option ℕ
  pub error : Option String

-- What the platform's functions answer during one call, and `now i`, the i-th reading of the clock.
pub record Os (Platform : Type 0) : Type 0 where
  pub now : ℕ → ℕ
  pub resolve_shell : Option String → Result PtyError String
  pub spawn : String → ℕ → ℕ → Option String → Option Platform
  pub write : Platform → String → Platform × Result PtyError (Unit {0})
  pub resize : Platform → ℕ → ℕ → Platform × Result PtyError (Unit {0})

pub record Session (Platform : Type 0) : Type 0 where
  pub id : String
  pub cols : ℕ
  pub rows : ℕ
  pub created_at_unix_ms : ℕ
  pub last_activity_unix_ms : Option ℕ
  pub closed : Bool
  pub error : Option String
  pub platform : Platform

pub record PtyRegistry (Platform : Type 0) : Type 0 where
  pub next_id : ℕ
  pub sessions : List (String × Session Platform)

abbrev pub in_bounds : ℕ → ℕ → Bool
in_bounds cols rows =
    (leb min_cols cols && leb cols max_cols) && (leb min_rows rows && leb rows max_rows)

-- `format!("pty-{}-{}", …)`.
unfoldable pub pty_id_of : ℕ → ℕ → String
unfolding decimal_from
pty_id_of now seq =
    str_append "pty-"
      (str_append (decimal_from 20 now "") (str_append "-" (decimal_from 20 seq "")))

module _ {Platform : Type 0} where
  abbrev pub new_registry : PtyRegistry Platform
  new_registry = record { next_id = 1; sessions = [] }

  abbrev pub report_of : Session Platform → PtyReport
  report_of s = record {
    session_id = s.id;
    state = if s.closed then "closed" else "running";
    cols = s.cols;
    rows = s.rows;
    created_at_unix_ms = s.created_at_unix_ms;
    last_activity_unix_ms = s.last_activity_unix_ms;
    error = s.error;
  }

  abbrev pub session : PtyRegistry Platform → String → Result PtyError (Session Platform)
  session r id = or_fail (lookup text_discrete id r.sessions) unknown_session

  abbrev pub put : PtyRegistry Platform → String → Session Platform → PtyRegistry Platform
  put r id s = record r { sessions = insert text_discrete id s r.sessions }

  -- `fetch_add` on the u64 counter wraps; an id that is made is used up also when the spawn fails.
  unfoldable pub create :
      PtyRegistry Platform
      → Os Platform
      → Option String
      → ℕ
      → ℕ
      → Option String
      → PtyRegistry Platform × Result PtyError PtyReport
  create r os shell cols rows cwd =
      if in_bounds cols rows
      then elim (os.resolve_shell shell) [
        | err e ↦ (r, err e)
        | ok path ↦
            let id = pty_id_of (os.now 0) r.next_id in
            let counted = record r { next_id = (r.next_id + 1) % 18446744073709551616 } in
            elim (os.spawn path cols rows cwd) [
              | none ↦ (counted, err spawn_unavailable)
              | some platform ↦
                  let made : Session Platform = record {
                    id = id;
                    cols = cols;
                    rows = rows;
                    created_at_unix_ms = os.now 1;
                    last_activity_unix_ms = none;
                    closed = false;
                    error = none;
                    platform = platform;
                  } in
                  (put counted id made, ok (report_of made))
            ]
      ]
      else (r, err invalid_geometry)

  unfoldable pub write :
      PtyRegistry Platform
      → Os Platform
      → String
      → String
      → PtyRegistry Platform × Result PtyError (Unit {0})
  write r os id text =
      if ltb max_write_bytes (len text) then (r, err write_too_large) else elim (session r id) [
        | err e ↦ (r, err e)
        | ok s ↦
            if s.closed
            then (r, err unknown_session)
            else (let (platform, sent) = os.write s.platform text in
                elim sent [
                  | err e ↦ (put r id (record s { platform = platform }), err e)
                  | ok u ↦ (
                    put r id
                        (record s { platform = platform; last_activity_unix_ms = some (os.now 0) }),
                    ok tt,
                  )
                ])
      ]

  unfoldable pub resize :
      PtyRegistry Platform
      → Os Platform
      → String
      → ℕ
      → ℕ
      → PtyRegistry Platform × Result PtyError PtyReport
  resize r os id cols rows =
      if in_bounds cols rows
      then elim (session r id) [
        | err e ↦ (r, err e)
        | ok s ↦
            if s.closed
            then (r, err unknown_session)
            else (let (platform, sized) = os.resize s.platform cols rows in
                elim sized [
                  | err e ↦ (put r id (record s { platform = platform }), err e)
                  | ok u ↦
                      let t : Session Platform = record s {
                        cols = cols;
                        rows = rows;
                        last_activity_unix_ms = some (os.now 0);
                        platform = platform;
                      } in
                      (put r id t, ok (report_of t))
                ])
      ]
      else (r, err invalid_geometry)

  -- The session that leaves the table is terminated with it.
  unfoldable pub close :
      PtyRegistry Platform → String → PtyRegistry Platform × Result PtyError (Unit {0})
  close r id = elim (session r id) [
    | err e ↦ (r, err e)
    | ok s ↦ (record r { sessions = remove text_discrete id r.sessions }, ok tt)
  ]

  unfoldable pub report : PtyRegistry Platform → String → Result PtyError PtyReport
  report r id = do s ← session r id; ok (report_of s)

  unfoldable pub list : PtyRegistry Platform → List PtyReport
  list r = map (λ s. report_of s.1) r.sessions
