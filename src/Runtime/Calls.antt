-- ===== src/Runtime/Calls.antt =====
-- The calls of the managed runtime, composed of their critical sections
-- (crates/managed-runtime/src/supervisor.rs). Other calls come in between in the waits of a start
-- (`Answers`), and not between the other sections; `Steps` has all interleavings.
use dsh_desktop_shell.Runtime.State.{report, Look}
use dsh_desktop_shell.Runtime.Types.{
  stale_generation, not_managed, VerifiedSurfaceBinding, ManagedRuntimeReport, Supervisor,
  StopDisposition, LaunchSpec, ManagedRuntimeError, ManagedEndpoint,
}
use dsh_desktop_shell.Runtime.Start.{Waited, Answers, start_with_spec}
use dsh_desktop_shell.Runtime.Stop.{
  taken, answered, finish_stop, fail_stop, begin_stop, begin_restart,
}
use dsh_desktop_shell.Runtime.Sections.{bind_surface, prepare_start, check_restart}
use dsh_desktop_shell.Runtime.Candidate.{UrlApi}
use dsh_desktop_shell.Prelude.{
  ◌==◌, not, ℕ, Result, Option, Bool, String, if◌then◌else◌, err, ok, true, some, none,
}

-- What a call reads of the environment it is given.
pub record Target : Type 0 where
  pub id : String
  pub is_managed : Bool
  pub auto_restart_on_crash : Bool
  pub built : Result ManagedRuntimeError LaunchSpec

-- `endpoint.is_none_or(..)`.
abbrev pub is_released : Option ManagedEndpoint → (ℕ → Bool) → Bool
is_released none released = true
is_released (some e) released = released e.port

module _ {Url Process : Type 0} (api : UrlApi Url) (t : Target) where
  unfoldable pub start_managed_environment :
      Look Process
      → Option ℕ
      → Answers Url Process
      → Supervisor Url Process
      → Waited Url Process ManagedRuntimeReport
  start_managed_environment look observed a s = elim t.built [
    | err e ↦ (s, some (err e))
    | ok spec ↦
        let (s', answer) = prepare_start s t.id t.auto_restart_on_crash spec look observed in
        elim answer [ some r ↦ (s', some r) | none ↦ start_with_spec api t.id a spec s' ]
  ]

  unfoldable pub get_managed_runtime_status :
      Look Process
      → Option ℕ
      → Answers Url Process
      → Supervisor Url Process
      → Waited Url Process ManagedRuntimeReport
  get_managed_runtime_status look observed a s =
      if not t.is_managed
      then (s, some (err not_managed))
      else let (s', due) = check_restart s t.id look in
        elim due [
          | err e ↦ (s', some (err e))
          | ok (some spec) ↦ start_with_spec api t.id a spec s'
          | ok none ↦ (s', some (report s' t.id observed))
        ]

  -- The answer of a restart on the way is dropped.
  unfoldable pub verified_surface_binding :
      ℕ
      → Look Process
      → Answers Url Process
      → Look Process
      → Supervisor Url Process
      → Waited Url Process (VerifiedSurfaceBinding Url)
  verified_surface_binding expected look a last s =
      if not t.is_managed
      then (s, some (err not_managed))
      else if expected == 0
      then (s, some (err stale_generation))
      else let (s', due) = check_restart s t.id look in
        elim due [
          | err e ↦ (s', some (err e))
          | ok none ↦ let (s'', b) = bind_surface s' t.id expected last in (s'', some b)
          | ok (some spec) ↦
              let (s₁, restarted) = start_with_spec api t.id a spec s' in
              elim restarted [
                | none ↦ (s₁, none)
                | some r ↦ let (s₂, b) = bind_surface s₁ t.id expected last in (s₂, some b)
              ]
        ]

  -- `stopped_with` is the answer of `process.stop()`, `none` for its error.
  unfoldable pub stop_managed_environment :
      ℕ
      → Look Process
      → Option ℕ
      → (Process → Option StopDisposition)
      → (ℕ → Bool)
      → Option ℕ
      → Supervisor Url Process
      → Supervisor Url Process × Result ManagedRuntimeError ManagedRuntimeReport
  stop_managed_environment expected look observed stopped_with released finished_at s =
      if not t.is_managed
      then (s, err not_managed)
      else let (s', begun) = begin_stop s t.id expected look observed in
        elim begun [
          | err e ↦ (s', err e)
          | ok (answered r) ↦ (s', ok r)
          | ok (taken p e) ↦ elim (stopped_with p) [
            | none ↦ let (s'', e') = fail_stop s' t.id expected in (s'', err e')
            | some d ↦ finish_stop s' t.id expected d (is_released e released) finished_at
          ]
        ]

  -- Whatever comes of stopping the old process, the recipe is started again.
  unfoldable pub restart_managed_environment :
      ℕ
      → Look Process
      → Answers Url Process
      → Supervisor Url Process
      → Waited Url Process ManagedRuntimeReport
  restart_managed_environment expected look a s =
      if not t.is_managed
      then (s, some (err not_managed))
      else let (s', begun) = begin_restart s t.id expected look in
        elim begun [
          | err e ↦ (s', some (err e))
          | ok (process, endpoint, some spec) ↦ start_with_spec api t.id a spec s'
          | ok (process, endpoint, none) ↦ elim t.built [
            | err e ↦ (s', some (err e))
            | ok spec ↦ start_with_spec api t.id a spec s'
          ]
        ]
