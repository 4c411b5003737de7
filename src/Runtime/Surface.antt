-- ===== src/Runtime/Surface.antt =====
-- What a surface binding and a stop guarantee (crates/managed-runtime/src/supervisor.rs,
-- `verified_surface_binding`, `stop_managed_environment`, `restart_managed_environment`).
use dsh_desktop_shell.Runtime.Start.{start_with_spec, Answers}
use dsh_desktop_shell.Runtime.Stop.{taken, answered, finish_stop, begin_stop}
use dsh_desktop_shell.Runtime.State.{
  state_or_stopped, is_state, is_environment, record_crash, report, Look, refresh_exit,
}
use dsh_desktop_shell.Runtime.Candidate.{UrlApi}
use dsh_desktop_shell.Runtime.Types.{
  safe_stop, crashed, stopping, starting, unowned, ManagedState, stopped, ManagedRuntimeReport,
  StopDisposition, ManagedEndpoint, healthy, VerifiedSurfaceBinding, Supervisor,
}
use dsh_desktop_shell.Runtime.Sections.{check_restart, bind_surface}
use dsh_desktop_shell.Runtime.Calls.{
  is_released, Target, verified_surface_binding, stop_managed_environment,
}
use dsh_desktop_shell.Prelude.{
  text_discrete, does_iff, ap, Bool-cases, Result-cases, Option-cases, Bool, Option, ◌<◌, ℕ, String,
  ◌≡◌, ok, arith, refl, false, true, inr, inl, some, none,
}

is_environment_lem :
    (own : Option String) (id : String) → is_environment own id ≡ true → own ≡ some id
is_environment_lem none id h = cc
is_environment_lem (some own) id h = ap some ((does_iff (text_discrete own id)).0 h)

is_state_lem :
    (state : Option ManagedState)
    → is_state (state_or_stopped state) healthy ≡ true
    → state ≡ some healthy
is_state_lem none h = cc
is_state_lem (some healthy) h = refl
is_state_lem (some stopped) h = cc
is_state_lem (some starting) h = cc
is_state_lem (some stopping) h = cc
is_state_lem (some crashed) h = cc
is_state_lem (some safe_stop) h = cc

module _ {Url Process : Type 0} where
  -- The supervisor `s` holds the live process of a healthy generation of the environment `id`, and
  -- the binding has this generation's number, endpoint port and private URL.
  pub record Verified (s : Supervisor Url Process) (id : String) (last : Look Process)
      (b : VerifiedSurfaceBinding Url) : Type 0 where
    pub same_generation : s.generation ≡ b.generation
    pub same_environment : s.environment_id ≡ some id
    pub is_healthy : s.state ≡ some healthy
    pub process : Process
    pub retained : s.process ≡ some process
    pub is_live : last.exited process ≡ false
    pub endpoint : ManagedEndpoint
    pub published : s.endpoint ≡ some endpoint
    pub same_port : endpoint.port ≡ b.port
    pub same_url : s.bootstrap_url ≡ some b.bootstrap_url

  bind_surface-Verified :
      (s : Supervisor Url Process) (id : String) (expected : ℕ) (last : Look Process)
      (b : VerifiedSurfaceBinding Url)
      → (bind_surface s id expected last).1 ≡ ok b
      → Verified (bind_surface s id expected last).0 id last b × (b.generation ≡ expected)
  unfolding bind_surface refresh_exit
  bind_surface-Verified s id expected last b h = elim (Option-cases s.process) [
    | inl e ↦ absurd (ground (arith, h, e))
    | inr (p, e) ↦ elim (Option-cases s.endpoint) [
      | inl f ↦ absurd (ground (arith, h, e, f))
      | inr (endpoint, f) ↦ elim (Bool-cases (last.exited p)) [
        | inl dead ↦ absurd (ground (arith, h, e, dead))
        | inr live ↦ (
          record {
            same_generation = ground (arith, h, e, f, live);
            same_environment =
                ground (arith, h, e, f, live, is_environment_lem s.environment_id id);
            is_healthy = ground (arith, h, e, f, live, is_state_lem s.state);
            process = p;
            retained = ground (arith, e, live);
            is_live = live;
            endpoint = endpoint;
            published = ground (arith, e, f, live);
            same_port = ground (arith, h, e, f, live);
            same_url = ground (arith, h, e, f, live);
          },
          ground (arith, h, e, f, live),
        )
      ]
    ]
  ]

  -- A binding is handed out only for the generation that the caller named, which is not 0, and only
  -- while the process of that generation lives, is healthy and has published its endpoint; this also
  -- when an automatic restart has come in between.
  pub verified_surface_binding-Verified :
      (api : UrlApi Url) (t : Target) (expected : ℕ) (look last : Look Process)
      (a : Answers Url Process) (s : Supervisor Url Process) (b : VerifiedSurfaceBinding Url)
      → (verified_surface_binding api t expected look a last s).1 ≡ some (ok b)
      → Verified (verified_surface_binding api t expected look a last s).0 t.id last b
        × (b.generation ≡ expected)
        × (0 < expected)
  unfolding verified_surface_binding
  verified_surface_binding-Verified api t expected look last a s b h =
      elim (Result-cases (check_restart s t.id look).1) [
        | inr (e, f) ↦ absurd (ground (arith, h, f))
        | inl (none, f) ↦
            ground (
              arith,
              h,
              f,
              bind_surface-Verified (check_restart s t.id look).0 t.id expected last b,
            )
        | inl (some spec, f) ↦ ground (
          arith,
          h,
          f,
          bind_surface-Verified (start_with_spec api t.id a spec (check_restart s t.id look).0).0
              t.id expected last b,
        )
      ]

  refresh_exit-generation :
      (look : Look Process) (s : Supervisor Url Process)
      → (refresh_exit look s).generation ≡ s.generation
  unfolding refresh_exit record_crash
  refresh_exit-generation look s = ground arith

  -- What a finished stop leaves and reports.
  pub record Stopped (s : Supervisor Url Process) (g : ℕ) (r : ManagedRuntimeReport) : Type 0 where
    pub is_stopped : s.state ≡ some stopped
    pub no_process : s.process ≡ none
    pub no_endpoint : s.endpoint ≡ none
    pub no_url : s.bootstrap_url ≡ none
    pub no_recovery : s.recovery ≡ none
    pub generation_stays : s.generation ≡ g
    pub reported : r.state ≡ stopped
    pub reported_generation : r.generation ≡ g
    pub reported_unowned : r.process_ownership ≡ unowned

  module _ (s : Supervisor Url Process) (id : String) (g : ℕ) (look : Look Process)
      (observed : Option ℕ) where
    begin_stop_taken_lem :
        (p : Process) (e : Option ManagedEndpoint)
        → (begin_stop s id g look observed).1 ≡ ok (taken p e)
        → ((begin_stop s id g look observed).0.process ≡ none) × (s.generation ≡ g)
    unfolding begin_stop report
    begin_stop_taken_lem p e h = ground (arith, h, refresh_exit-generation look s)

    begin_stop_answered_lem :
        (r : ManagedRuntimeReport)
        → (begin_stop s id g look observed).1 ≡ ok (answered r)
        → Stopped (begin_stop s id g look observed).0 g r × (s.generation ≡ g)
    unfolding begin_stop report
    begin_stop_answered_lem r h = elim (Option-cases (refresh_exit look s).process) [
      | inr (p, e) ↦ absurd (ground (arith, h, e))
      | inl e ↦ ground (arith, h, e, refresh_exit-generation look s)
    ]

  finish_stop_lem :
      (s : Supervisor Url Process) (id : String) (g : ℕ) (d : StopDisposition) (released : Bool)
      (observed : Option ℕ) (r : ManagedRuntimeReport)
      → s.process ≡ none
      → (finish_stop s id g d released observed).1 ≡ ok r
      → Stopped (finish_stop s id g d released observed).0 g r
  unfolding finish_stop report
  finish_stop_lem s id g d released observed r n h = elim (Option-cases observed) [
    | inl e ↦ absurd (ground (arith, h, e))
    | inr (now, e) ↦ ground (arith, h, e, n)
  ]

  -- A stop that answers with a report leaves the environment stopped: no process, endpoint, URL,
  -- instance or recovery record; only its own generation was stopped, and the number stays.
  stop_managed_environment_ok :
      (api : UrlApi Url) (t : Target) (expected : ℕ) (look : Look Process)
      (observed finished_at : Option ℕ) (stopped_with : Process → Option StopDisposition)
      (released : ℕ → Bool) (s : Supervisor Url Process) (r : ManagedRuntimeReport)
      → (stop_managed_environment api t expected look observed stopped_with released finished_at
          s).1
        ≡ ok r
      → Stopped
          (stop_managed_environment api t expected look observed stopped_with released finished_at
            s).0
          expected
          r
        × (s.generation ≡ expected)
  unfolding stop_managed_environment
  stop_managed_environment_ok api t expected look observed finished_at stopped_with released s r h =
      elim (Result-cases (begin_stop s t.id expected look observed).1) [
        | inr (e, f) ↦ absurd (ground (arith, h, f))
        | inl (answered r', f) ↦
            ground (arith, h, f, begin_stop_answered_lem s t.id expected look observed r' f)
        | inl (taken p e, f) ↦ elim (Option-cases (stopped_with p)) [
          | inl k ↦ absurd (ground (arith, h, f, k))
          | inr (d, k) ↦
              let m = begin_stop_taken_lem s t.id expected look observed p e f in
              ground (
                arith,
                h,
                f,
                k,
                m.1,
                finish_stop_lem (begin_stop s t.id expected look observed).0 t.id expected d
                    (is_released e released) finished_at r m.0,
              )
        ]
      ]
