-- ===== src/Terminal/History.antt =====
-- The terminals over any calls (crates/daemon/src/terminal.rs,
-- crates/terminal-provider/src/lib.rs).
use dsh_desktop_shell.EventRouter.State.{Router}
use Prim.Native.String.{len}
use dsh_desktop_shell.Daemon.Types.{DaemonMethodError}
use dsh_desktop_shell.Terminal.Gate.{closes, resizes, writes, creates, Operation, handle}
use dsh_desktop_shell.Terminal.Handlers.{
  malformed, admit_change, gate_if_agent, parse_request, handle_close, handle_resize, with_registry,
  handle_write, handle_create, close_terminal, flush, Terminals, TerminalContext, TerminalApi,
}
use mathlib.Core.Option
use dsh_desktop_shell.Terminal.Live.{
  forget-Sound, record_owner-Sound, put-Sound, FitKey, FitSession, with_sessions, Sound,
}
use dsh_desktop_shell.Terminal.Requests.{valid_session_id, schema_version, TerminalCreateRequest}
use dsh_desktop_shell.Terminal.Host.{
  new_host, public_report, TerminalReport, record_owner, agent_binding_from, forget,
  AgentSessionBinding, create_terminal, TerminalHost,
}
use dsh_desktop_shell.Terminal.Registry.{
  put, PtyError, in_bounds, PtyRegistry, session, Session, Os,
}
use dsh_desktop_shell.Prelude.{
  ltb, ◌&&◌, [], ◌∷◌, ◌==◌, List, sym, ◌%◌, ◌+◌, Option-cases, Result-cases, subst, Result,
  Bool-cases, Bool, text_discrete, lookup, Option, ℕ, String, if◌then◌else◌, ◌≡◌, err, ok, arith,
  refl, false, true, inr, inl, some, none,
}
use dsh_desktop_shell.Terminal.Registry

if_satisfies :
    {C : Type 0} (P : C → Type 0) (b : Bool) (x y : C) → P x → P y → P (if b then x else y)
if_satisfies P true x y p q = p
if_satisfies P false x y p q = q

result_satisfies :
    {E A C : Type 0} (P : C → Type 0) (r : Result E A) (f : E → C) (g : A → C)
    → ((e : E) → r ≡ err e → P (f e))
    → ((a : A) → r ≡ ok a → P (g a))
    → P (elim r as (λ x. C) [ ok a ↦ g a | err e ↦ f e ])
result_satisfies P (ok a) f g p q = q a refl
result_satisfies P (err e) f g p q = p e refl

module _ {Platform : Type 0} where
  good_of :
      {k : String} (live : Option (Session Platform)) (o : Option ℕ)
      (b : Option AgentSessionBinding) (s : Session Platform)
      → live ≡ some s
      → FitKey k live o b
      → FitSession k s
  good_of {k} (some t) (some o) b s e key =
      let same : t ≡ s = ground (arith, e) in subst (λ x. FitSession k x) same key
  good_of (some t) none b s e key = absurd key
  good_of none o b s e key = absurd (cc e)

  abbrev Keeps : {A : Type 0} → TerminalHost Platform → PtyRegistry Platform × A → Type 0
  Keeps h o = Sound (with_sessions h o.0)

module _ {Platform : Type 0} (os : Os Platform) where
  session-FitSession :
      (h : TerminalHost Platform) (id : String) (s : Session Platform)
      → Sound h
      → session h.registry id ≡ ok s
      → (lookup text_discrete id h.registry.sessions ≡ some s) × FitSession id s
  session-FitSession h id s sound e =
      let found : lookup text_discrete id h.registry.sessions ≡ some s = ground (arith, e) in
      (found, good_of _ _ _ s found (sound id))

  write-Sound :
      (h : TerminalHost Platform) (id text : String)
      → Sound h
      → Sound (with_sessions h (Registry.write h.registry os id text).0)
  unfolding Registry.write
  write-Sound h id text sound = if_satisfies (Keeps h) _ _ _ sound (
      result_satisfies (Keeps h) (session h.registry id) _ _ (λ x f. sound)
        (λ s e.
          let (found, good) = session-FitSession h id s sound e in
          if_satisfies (Keeps h) _ _ _ sound (
            result_satisfies (Keeps h) (os.write s.platform text).1 _ _
              (λ x f. put-Sound h id s _ found good sound)
              (λ u f. put-Sound h id s _ found good sound))))

  resize-Sound :
      (h : TerminalHost Platform) (id : String) (cols rows : ℕ)
      → Sound h
      → Sound (with_sessions h (Registry.resize h.registry os id cols rows).0)
  unfolding Registry.resize
  resize-Sound h id cols rows sound = elim (Bool-cases (in_bounds cols rows)) [
    | inl bounded ↦ rw bounded (
        result_satisfies (Keeps h) (session h.registry id) _ _ (λ x f. sound)
          (λ s e.
            let (found, good) = session-FitSession h id s sound e in
            if_satisfies (Keeps h) _ _ _ sound (
              result_satisfies (Keeps h) (os.resize s.platform cols rows).1 _ _
                (λ x f. put-Sound h id s _ found good sound)
                (λ u f. put-Sound h id s _ found (good.0, (good.1.0, bounded)) sound))))
    | inr outside ↦ rw outside sound
  ]

  close-Sound :
      (h : TerminalHost Platform) (id : String)
      → Sound h
      → (u : Unit {0}) → (Registry.close h.registry id).1 ≡ ok u
      → Sound (forget (with_sessions h (Registry.close h.registry id).0) id)
  unfolding Registry.close
  close-Sound h id sound u e = elim (Result-cases (session h.registry id)) [
    | inl (s, found) ↦ rw (found, Registry.close) (forget-Sound h id sound)
    | inr (x, missing) ↦ absurd (ground (arith, e, missing))
  ]

  close_failed :
      (h : TerminalHost Platform) (id : String)
      → Sound h
      → (x : PtyError) → (Registry.close h.registry id).1 ≡ err x
      → Sound (with_sessions h (Registry.close h.registry id).0)
  unfolding Registry.close
  close_failed h id sound x e = elim (Result-cases (session h.registry id)) [
    | inl (s, found) ↦ absurd (ground (arith, e, found))
    | inr (y, missing) ↦ rw (missing, Registry.close) sound
  ]

  create_outside :
      (r : PtyRegistry Platform) (shell cwd : Option String) (cols rows : ℕ)
      → in_bounds cols rows ≡ false
      → Registry.create r os shell cols rows cwd ≡ (r, err Registry.invalid_geometry)
  unfolding Registry.create
  create_outside r shell cwd cols rows outside = rw (outside, Registry.create) refl

  create_unresolved :
      (r : PtyRegistry Platform) (shell cwd : Option String) (cols rows : ℕ) (x : PtyError)
      → in_bounds cols rows ≡ true
      → os.resolve_shell shell ≡ err x
      → Registry.create r os shell cols rows cwd ≡ (r, err x)
  unfolding Registry.create
  create_unresolved r shell cwd cols rows x bounded e = rw (bounded, e, Registry.create) refl

  create_unspawned :
      (r : PtyRegistry Platform) (shell cwd : Option String) (cols rows : ℕ) (path : String)
      → in_bounds cols rows ≡ true
      → os.resolve_shell shell ≡ ok path
      → os.spawn path cols rows cwd ≡ none
      → Registry.create r os shell cols rows cwd ≡ (
        record r { next_id = (r.next_id + 1) % 18446744073709551616 },
        err Registry.spawn_unavailable,
      )
  unfolding Registry.create
  create_unspawned r shell cwd cols rows path bounded e f = rw (bounded, e, f, Registry.create) refl

  abbrev spawned : PtyRegistry Platform → ℕ → ℕ → Platform → Session Platform
  spawned r cols rows platform = record {
    id = Registry.pty_id_of (os.now 0) r.next_id;
    cols = cols;
    rows = rows;
    created_at_unix_ms = os.now 1;
    last_activity_unix_ms = none;
    closed = false;
    error = none;
    platform = platform;
  }

  create_spawned :
      (r : PtyRegistry Platform) (shell cwd : Option String) (cols rows : ℕ) (path : String)
      (platform : Platform)
      → in_bounds cols rows ≡ true
      → os.resolve_shell shell ≡ ok path
      → os.spawn path cols rows cwd ≡ some platform
      → Registry.create r os shell cols rows cwd ≡ (
        put
            (record r { next_id = (r.next_id + 1) % 18446744073709551616 })
            (Registry.pty_id_of (os.now 0) r.next_id)
            (spawned r cols rows platform),
        ok (Registry.report_of (spawned r cols rows platform)),
      )
  unfolding Registry.create
  create_spawned r shell cwd cols rows path platform bounded e f =
      rw (bounded, e, f, Registry.create) refl

  -- What `create_terminal` makes of the registry's answer.
  abbrev after :
      TerminalHost Platform
      → ℕ
      → Option AgentSessionBinding
      → PtyRegistry Platform × Result PtyError Registry.PtyReport
      → TerminalHost Platform
  after h owner b (registry, ok report) =
      record_owner (with_sessions h registry) report.session_id owner b
  after h owner b (registry, err e) = with_sessions h registry

  create_resolved :
      (h : TerminalHost Platform) (shell cwd : Option String) (cols rows owner : ℕ)
      (b : Option AgentSessionBinding)
      → Sound h
      → (path : String) → in_bounds cols rows ≡ true
      → os.resolve_shell shell ≡ ok path
      → Sound (after h owner b (Registry.create h.registry os shell cols rows cwd))
  create_resolved h shell cwd cols rows owner b sound path bounded e =
      elim (Option-cases (os.spawn path cols rows cwd)) [
        | inl f ↦
            subst (λ o. Sound (after h owner b o))
              (sym (create_unspawned h.registry shell cwd cols rows path bounded e f)) sound
        | inr (platform, f) ↦
            subst (λ o. Sound (after h owner b o))
              (sym (create_spawned h.registry shell cwd cols rows path platform bounded e f))
              (record_owner-Sound h ((h.registry.next_id + 1) % 18446744073709551616) _
                (spawned h.registry cols rows platform) owner b (refl, (refl, bounded)) sound)
      ]

  create-Sound :
      (h : TerminalHost Platform) (shell cwd : Option String) (cols rows owner : ℕ)
      (b : Option AgentSessionBinding)
      → Sound h
      → Sound (after h owner b (Registry.create h.registry os shell cols rows cwd))
  create-Sound h shell cwd cols rows owner b sound = elim (Bool-cases (in_bounds cols rows)) [
    | inr outside ↦
        subst (λ o. Sound (after h owner b o))
          (sym (create_outside h.registry shell cwd cols rows outside)) sound
    | inl bounded ↦ elim (Result-cases (os.resolve_shell shell)) [
      | inr (x, e) ↦
          subst (λ o. Sound (after h owner b o))
            (sym (create_unresolved h.registry shell cwd cols rows x bounded e)) sound
      | inl (path, e) ↦ create_resolved h shell cwd cols rows owner b sound path bounded e
    ]
  ]

  answer_keeps :
      (h : TerminalHost Platform) (request : TerminalCreateRequest) (owner : ℕ)
      (b : Option AgentSessionBinding)
      (o : PtyRegistry Platform × Result PtyError Registry.PtyReport)
      → Sound (after h owner b o)
      → Sound
          (elim o.1 as (λ x. TerminalHost Platform × Result PtyError TerminalReport) [
            | ok report ↦ (
              record_owner (with_sessions h o.0) report.session_id owner b,
              ok (public_report report request.mode),
            )
            | err e ↦ (with_sessions h o.0, err e)
          ]).0
  answer_keeps h request owner b (registry, ok report) kept = kept
  answer_keeps h request owner b (registry, err e) kept = kept

  create_terminal-Sound :
      (h : TerminalHost Platform) (request : TerminalCreateRequest) (owner : ℕ)
      (b : Option AgentSessionBinding)
      → Sound h
      → Sound (create_terminal h os request owner b).0
  unfolding create_terminal
  create_terminal-Sound h request owner b sound =
      let made =
        Registry.create h.registry os request.shell request.cols request.rows request.cwd in
      let kept = create-Sound h request.shell request.cwd request.cols request.rows owner b sound in
      answer_keeps h request owner b made kept

module _ {Json Platform : Type 0} (api : TerminalApi Json)
    (context : TerminalContext Json Platform) where
  flush-Sound :
      (h : TerminalHost Platform) (id : String)
      → Sound h
      → Sound (with_sessions h (flush api h.registry context.os id))
  flush-Sound h id sound =
      result_satisfies (λ r. Sound (with_sessions h r)) (Registry.report h.registry id) _ _
        (λ x f. sound) (λ report e. resize-Sound context.os h id report.cols report.rows sound)

module _ {Json Platform Output : Type 0} (api : TerminalApi Json)
    (context : TerminalContext Json Platform) where
  abbrev Leaves : Terminals Platform Output × Result DaemonMethodError Json → Type 0
  Leaves o = Sound o.0.host

  with_registry-Sound :
      {A : Type 0} (t : Terminals Platform Output) (o : PtyRegistry Platform × Result PtyError A)
      (answer : A → Json)
      → Keeps t.host o
      → Leaves (with_registry api t o answer)
  with_registry-Sound t (registry, ok a) answer sound = sound
  with_registry-Sound t (registry, err e) answer sound = sound

  close_terminal-Sound :
      (t : Terminals Platform Output) (id : String)
      → Sound t.host
      → Leaves (close_terminal api t context id)
  close_terminal-Sound t id sound =
      let flushed = with_sessions t.host (flush api t.host.registry context.os id) in
      result_satisfies Leaves (Registry.close flushed.registry id).1 _ _
        (λ x e. close_failed context.os flushed id (flush-Sound api context t.host id sound) x e)
        (λ u e. close-Sound context.os flushed id (flush-Sound api context t.host id sound) u e)

  -- A change of a session, once it is admitted.
  gated-Sound :
      (t : Terminals Platform Output) (valid : Bool) (gate : Result DaemonMethodError (Unit {0}))
      (refused : DaemonMethodError)
      (change : Unit {0} → Terminals Platform Output × Result DaemonMethodError Json)
      → Sound t.host
      → ((u : Unit {0}) → Leaves (change u))
      → Leaves (
          if valid
          then elim gate as (λ x. Terminals Platform Output × Result DaemonMethodError Json) [
            | ok u ↦ change u
            | err e ↦ (t, err e)
          ]
          else (t, err refused))
  gated-Sound t valid gate refused change sound changed =
      if_satisfies Leaves valid _ _
        (result_satisfies Leaves gate _ _ (λ x f. sound) (λ u e. changed u)) sound

  handle-Sound :
      (operation : Operation) (t : Terminals Platform Output) (payload : Json)
      → Sound t.host
      → Leaves (handle api operation t context payload)
  unfolding handle handle_create handle_write handle_resize handle_close
  handle-Sound creates t payload sound =
      result_satisfies Leaves (parse_request api api.create_request payload) _ _ (λ x f. sound)
        (λ request e.
          gated-Sound t _ (gate_if_agent api context (Option.map agent_binding_from request.agent))
            _ _ sound
            (λ u.
              result_satisfies Leaves
                (create_terminal t.host context.os request context.connection_id
                  (Option.map agent_binding_from request.agent)).1
                _ _ (λ x f. create_terminal-Sound context.os t.host request _ _ sound)
                (λ report f. create_terminal-Sound context.os t.host request _ _ sound)))
  handle-Sound writes t payload sound =
      result_satisfies Leaves (parse_request api api.write_request payload) _ _ (λ x f. sound)
        (λ request e.
          gated-Sound t
            (request.schema_version == schema_version
              && (valid_session_id request.session_id && ltb 0 (len request.text)))
            (admit_change api t.host context request.session_id) (malformed api) _ sound
            (λ u.
              with_registry-Sound t
                (Registry.write t.host.registry context.os request.session_id request.text) _
                (write-Sound context.os t.host request.session_id request.text sound)))
  handle-Sound resizes t payload sound =
      result_satisfies Leaves (parse_request api api.resize_request payload) _ _ (λ x f. sound)
        (λ request e.
          gated-Sound t
            (request.schema_version == schema_version && valid_session_id request.session_id)
            (admit_change api t.host context request.session_id) (malformed api) _ sound
            (λ u.
              with_registry-Sound t
                (Registry.resize t.host.registry context.os request.session_id request.cols
                  request.rows)
                _
                (resize-Sound context.os t.host request.session_id request.cols request.rows
                  sound)))
  handle-Sound closes t payload sound =
      result_satisfies Leaves (parse_request api api.close_request payload) _ _ (λ x f. sound)
        (λ request e.
          gated-Sound t
            (request.schema_version == schema_version && valid_session_id request.session_id)
            (admit_change api t.host context request.session_id) (malformed api) _ sound
            (λ u. close_terminal-Sound t request.session_id sound))

module _ {Json Platform Output : Type 0} (api : TerminalApi Json) where
  -- The calls of any connections, each with what it reads.
  unfoldable pub serve :
      Terminals Platform Output
      → List (Operation × (TerminalContext Json Platform × Json))
      → Terminals Platform Output
  serve t [] = t
  serve t ((operation, (context, payload)) ∷ calls) =
      serve (handle api operation t context payload).0 calls

  serve-Sound :
      (t : Terminals Platform Output)
      (calls : List (Operation × (TerminalContext Json Platform × Json)))
      → Sound t.host
      → Sound (serve t calls).host
  unfolding serve
  serve-Sound t [] sound = sound
  serve-Sound t ((operation, (context, payload)) ∷ calls) sound =
      serve-Sound (handle api operation t context payload).0 calls
        (handle-Sound api context operation t payload sound)

  -- After any calls of `terminal.create`, `write`, `resize` and `close` on a new host, a session is
  -- in the registry exactly if it has an owner, and only then it can have an agent's binding; it
  -- stands under its own id, runs, and its geometry is within the bounds of the schema.
  pub serve_new-FitKey :
      (events : Router Output) (calls : List (Operation × (TerminalContext Json Platform × Json)))
      (id : String)
      → let h = (serve (record { host = new_host; events = events }) calls).host in
        FitKey id
          (lookup text_discrete id h.registry.sessions)
          (lookup text_discrete id h.owners)
          (lookup text_discrete id h.bindings)
  serve_new-FitKey events calls =
      serve-Sound (record { host = new_host; events = events }) calls (λ k. tt)
