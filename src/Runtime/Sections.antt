-- ===== src/Runtime/Sections.antt =====
-- The critical sections of the supervisor's calls, one function for each block that holds the lock
-- (crates/managed-runtime/src/supervisor.rs).
use dsh_desktop_shell.Runtime.Types.{
  not_requested, starting, state_unavailable, surface_binding_unavailable, stale_generation,
  healthy, conflict, VerifiedSurfaceBinding, ParsedCandidate, ManagedRuntimeError, LaunchSpec,
  Supervisor, ManagedRuntimeReport,
}
use dsh_desktop_shell.Runtime.State.{
  instance_id_of, unix_ms, state_or_stopped, is_state, evidence_of, mark_crashed, is_some, is_other,
  is_environment, Look, report, auto_restart_eligible, refresh_exit, record_crash,
}
use dsh_desktop_shell.Prelude.{
  ◌+◌, or_fail, u64_max, ltb, not, guard, ◌==◌, ◌&&◌, Result, Option, Bool, ℕ, String, ◌>>◌, ◌>>=◌,
  if◌then◌else◌, err, ok, some, none,
}

pub data Launch : Type 0 where
  already : ManagedRuntimeReport → Launch
  launched : ℕ → Launch

module _ {Url Process : Type 0} where
  -- The first block of `start_with_spec`. `launched_at` and `observed` are its two readings of the
  -- clock, `spawn` the answer of `ManagedProcess::spawn`.
  unfoldable pub launch :
      Supervisor Url Process
      → String
      → Look Process
      → Option ℕ
      → Option ℕ
      → Result ManagedRuntimeError Process
      → Supervisor Url Process × Result ManagedRuntimeError Launch
  unfolding refresh_exit report
  launch s₀ id look launched_at observed spawn =
      let s = refresh_exit look s₀ in
      if is_some s.process
      then (
        s,
        if is_environment s.environment_id id
            then (do r ← report s id observed; ok (already r))
            else err conflict,
      )
      else if not (ltb s.generation u64_max)
      then (s, err state_unavailable)
      else elim (unix_ms launched_at) [
        | err e ↦ (s, err e)
        | ok now ↦ elim spawn [
          | err e ↦ (s, err e)
          | ok p ↦ (
            record s {
              environment_id = some id;
              state = some starting;
              generation = s.generation + 1;
              instance_id = some (instance_id_of (s.generation + 1) now);
              endpoint = none;
              bootstrap_url = none;
              stop_disposition = some not_requested;
              evidence = evidence_of "MANAGED_PROCESS_SPAWNED" "info";
              process = some p;
            },
            ok (launched (s.generation + 1)),
          )
        ]
      ]

  abbrev pub is_current : Supervisor Url Process → String → ℕ → Bool
  is_current s id generation = is_environment s.environment_id id && s.generation == generation

  unfoldable pub generation_is_alive :
      Supervisor Url Process → String → ℕ → Look Process → Supervisor Url Process × Bool
  unfolding refresh_exit
  generation_is_alive s₀ id generation look =
      let s = refresh_exit look s₀ in (s, is_current s id generation && is_some s.process)

  -- The process that it takes is stopped afterwards, whatever comes of that.
  unfoldable pub fail_start :
      Supervisor Url Process
      → String
      → ℕ
      → Option ℕ
      → ManagedRuntimeError
      → Supervisor Url Process × ManagedRuntimeError
  unfolding record_crash
  fail_start s id generation clock error =
      if is_current s id generation
      then (
        mark_crashed "MANAGED_READINESS_FAILED"
            (if is_some s.process then record_crash clock s else s),
        error,
      )
      else (s, stale_generation)

  -- The last block of `start_with_spec`.
  unfoldable pub publish :
      Supervisor Url Process
      → String
      → ℕ
      → Look Process
      → Option ℕ
      → ParsedCandidate Url
      → Supervisor Url Process × Result ManagedRuntimeError ManagedRuntimeReport
  unfolding refresh_exit report
  publish s₀ id generation look observed c =
      let s = refresh_exit look s₀ in
      if is_current s id generation && is_some s.process
      then (let s' : Supervisor Url Process = record s {
        state = some healthy;
        endpoint = some c.endpoint;
        bootstrap_url = c.bootstrap_url;
        evidence =
            if is_some c.bootstrap_url
            then evidence_of "MANAGED_ENDPOINT_VERIFIED" "info"
            else evidence_of "MANAGED_ENDPOINT_TCP_VERIFIED" "info";
      } in
          (s', report s' id observed))
      else (s, err stale_generation)

  -- The first block of `start_managed_environment`: `some` answers at once.
  unfoldable pub prepare_start :
      Supervisor Url Process
      → String
      → Bool
      → LaunchSpec
      → Look Process
      → Option ℕ
      → Supervisor Url Process × Option (Result ManagedRuntimeError ManagedRuntimeReport)
  unfolding refresh_exit report
  prepare_start s₀ id auto_restart spec look observed =
      let s = refresh_exit look s₀ in
      if is_some s.process
      then (
        s,
        some (if is_environment s.environment_id id then report s id observed else err conflict),
      )
      else (
        record s {
          auto_restart_on_crash = auto_restart;
          retained_spec = some spec;
          recovery = none;
        },
        none,
      )

  -- The first block of `get_managed_runtime_status` and of `verified_surface_binding`: the recipe to
  -- restart with, if a restart is due.
  unfoldable pub check_restart :
      Supervisor Url Process
      → String
      → Look Process
      → Supervisor Url Process × Result ManagedRuntimeError (Option LaunchSpec)
  unfolding refresh_exit auto_restart_eligible
  check_restart s₀ id look =
      let s = refresh_exit look s₀ in
      if is_other s.environment_id id
      then (s, err conflict)
      else (s, ok (if auto_restart_eligible s then s.retained_spec else none))

  -- The last block of `verified_surface_binding`.
  unfoldable pub bind_surface :
      Supervisor Url Process
      → String
      → ℕ
      → Look Process
      → Supervisor Url Process × Result ManagedRuntimeError (VerifiedSurfaceBinding Url)
  unfolding refresh_exit
  bind_surface s₀ id expected look =
      let s = refresh_exit look s₀ in
      (
        s,
        (do
          guard (s.generation == expected) stale_generation
          guard
              (is_environment s.environment_id id
                && (is_state (state_or_stopped s.state) healthy && is_some s.process))
              surface_binding_unavailable
          endpoint ← or_fail s.endpoint surface_binding_unavailable
          url ← or_fail s.bootstrap_url surface_binding_unavailable
          ok (record { generation = s.generation; port = endpoint.port; bootstrap_url = url })),
      )
