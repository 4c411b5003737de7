-- ===== src/Runtime/Stop.antt =====
-- The critical sections of `stop_managed_environment` and `restart_managed_environment`
-- (crates/managed-runtime/src/supervisor.rs).
use dsh_desktop_shell.Runtime.Sections.{is_current}
use dsh_desktop_shell.Runtime.Types.{
  stopping, stop_failed, stale_generation, not_requested, endpoint_still_reachable, conflict,
  crashed, LaunchSpec, ManagedRuntimeError, stopped, ManagedEndpoint, Supervisor, StopDisposition,
  ManagedRuntimeReport,
}
use dsh_desktop_shell.Runtime.State.{is_other, evidence_of, Look, report, refresh_exit}
use dsh_desktop_shell.Prelude.{
  not, ◌||◌, ◌==◌, guard, Result, Bool, ℕ, String, Option, ◌>>◌, ◌>>=◌, if◌then◌else◌, err, ok,
  some, none,
}

-- What the first block of a stop leaves to do: nothing, or to stop the process that it took.
pub data StopStep (Process : Type 0) : Type 0 where
  answered : ManagedRuntimeReport → StopStep Process
  taken : Process → Option ManagedEndpoint → StopStep Process

module _ {Url Process : Type 0} where
  abbrev pub mark_stopped :
      StopDisposition → String → Supervisor Url Process → Supervisor Url Process
  mark_stopped disposition code s = record s {
    state = some stopped;
    instance_id = none;
    endpoint = none;
    bootstrap_url = none;
    stop_disposition = some disposition;
    recovery = none;
    evidence = evidence_of code "info";
  }

  unfoldable pub begin_stop :
      Supervisor Url Process
      → String
      → ℕ
      → Look Process
      → Option ℕ
      → Supervisor Url Process × Result ManagedRuntimeError (StopStep Process)
  unfolding refresh_exit report
  begin_stop s₀ id expected look observed =
      let s = refresh_exit look s₀ in
      if is_other s.environment_id id
      then (s, err conflict)
      else if expected == 0 || not (expected == s.generation)
      then (s, err stale_generation)
      else elim s.process [
        | none ↦
            (let s' = mark_stopped not_requested "MANAGED_ALREADY_STOPPED" s in
              (s', (do r ← report s' id observed; ok (answered r))))
        | some p ↦ (
          record s {
            state = some stopping;
            endpoint = none;
            bootstrap_url = none;
            evidence = evidence_of "MANAGED_STOPPING" "info";
            process = none;
          },
          ok (taken p s.endpoint),
        )
      ]

  -- After `process.stop()` failed.
  unfoldable pub fail_stop :
      Supervisor Url Process → String → ℕ → Supervisor Url Process × ManagedRuntimeError
  fail_stop s id expected = (
    if is_current s id expected
        then record s {
          state = some crashed;
          endpoint = none;
          bootstrap_url = none;
          stop_disposition = some not_requested;
          evidence = evidence_of "MANAGED_STOP_FAILED" "error";
        }
        else s,
    stop_failed,
  )

  -- After `process.stop()` gave a disposition; `released` tells whether the endpoint went away.
  unfoldable pub finish_stop :
      Supervisor Url Process
      → String
      → ℕ
      → StopDisposition
      → Bool
      → Option ℕ
      → Supervisor Url Process × Result ManagedRuntimeError ManagedRuntimeReport
  unfolding report
  finish_stop s id expected disposition released observed =
      if is_current s id expected
      then (let s' = mark_stopped disposition "MANAGED_PROCESS_TREE_STOPPED" s in
          (s', (do r ← report s' id observed; guard released endpoint_still_reachable; ok r)))
      else (s, err stale_generation)

  -- The process to stop and the recipe to start again with.
  unfoldable pub begin_restart :
      Supervisor Url Process
      → String
      → ℕ
      → Look Process
      → Supervisor Url Process
        × Result ManagedRuntimeError (Option Process × Option ManagedEndpoint × Option LaunchSpec)
  unfolding refresh_exit
  begin_restart s₀ id expected look =
      let s = refresh_exit look s₀ in
      if is_other s.environment_id id
      then (s, err conflict)
      else if expected == 0 || not (expected == s.generation)
      then (s, err stale_generation)
      else (
        record s {
          state = some stopping;
          endpoint = none;
          bootstrap_url = none;
          recovery = none;
          evidence = evidence_of "MANAGED_RESTARTING" "info";
          process = none;
        },
        ok (s.process, s.endpoint, s.retained_spec),
      )
