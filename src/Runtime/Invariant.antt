-- ===== src/Runtime/Invariant.antt =====
-- What holds of the supervisor whatever critical sections run, in any order and on any threads
-- (crates/managed-runtime/src/supervisor.rs).
use dsh_desktop_shell.Runtime.Stop.{finish_stop, fail_stop, begin_stop, begin_restart}
use dsh_desktop_shell.Runtime.Sections.{publish, prepare_start, launch, fail_start}
use dsh_desktop_shell.Runtime.Types.{
  StopDisposition, ParsedCandidate, ManagedRuntimeError, LaunchSpec, starting, healthy,
  RecoveryState, Supervisor, ManagedState,
}
use dsh_desktop_shell.Runtime.State.{
  initial, recovery_budget, or_zero, is_state, state_or_stopped, Look, record_crash, is_some,
  refresh_exit, next_recovery,
}
use dsh_desktop_shell.Prelude.{
  Result, String, Option-cases, u64_max, ◌==◌, not, leb, ◌≤◌, ℕ, Bool, Option, ◌≡◌, arith, false,
  true, inr, inl, some, none,
}

-- The recovery record counts at least one crash, and is latched exactly when the budget is used up.
abbrev pub RecoveryInv : Option RecoveryState → Type 0
RecoveryInv none = Unit {0}
RecoveryInv (some r) =
    (1 ≤ r.crash_count)
    × (r.safe_stop ≡ leb recovery_budget r.crash_count)
    × (is_some r.last_crash_at_unix_ms ≡ true)

-- The states in which a process is retained.
abbrev pub is_running : ManagedState → Bool
is_running starting = true
is_running healthy = true
is_running _ = false

pub next_recovery-RecoveryInv :
    (now : ℕ) (r : Option RecoveryState) → RecoveryInv r → RecoveryInv (some (next_recovery now r))
unfolding next_recovery
next_recovery-RecoveryInv now none h = ground arith
next_recovery-RecoveryInv now (some r) h = ground arith

module _ {Url Process : Type 0} where
  -- A process is retained in the states of a running one and in no other; an endpoint is published
  -- exactly in the healthy state, and a bootstrap URL only beside an endpoint.
  pub record Inv (s : Supervisor Url Process) : Type 0 where
    pub process_running : is_some s.process ≡ is_running (state_or_stopped s.state)
    pub endpoint_healthy : is_some s.endpoint ≡ is_state (state_or_stopped s.state) healthy
    pub url_endpoint : is_some s.bootstrap_url ≡ true → is_some s.endpoint ≡ true
    pub launched_environment : is_some s.environment_id ≡ not (s.generation == 0)
    pub generation_bound : s.generation ≤ u64_max
    pub recovery_budgeted : RecoveryInv s.recovery

  -- No process of the generation `g` is retained any more.
  abbrev pub Retired : ℕ → Supervisor Url Process → Type 0
  Retired g s = (g ≤ s.generation) × (g ≡ s.generation → s.process ≡ none)

  pub initial-Inv : Inv (initial {Url = Url} {Process = Process})
  unfolding initial
  initial-Inv = ground arith

  pub refresh_exit-Inv :
      (look : Look Process) (s : Supervisor Url Process) → Inv s → Inv (refresh_exit look s)
  unfolding refresh_exit record_crash
  refresh_exit-Inv look s v = elim (Option-cases s.process) [
    | inl e ↦ rw (e, refresh_exit) v
    | inr (p, e) ↦ ground (arith, e, next_recovery-RecoveryInv (or_zero look.clock) s.recovery)
  ]

  pub refresh_exit-Retired :
      (g : ℕ) (look : Look Process) (s : Supervisor Url Process)
      → Retired g s
      → Retired g (refresh_exit look s)
  unfolding refresh_exit record_crash
  refresh_exit-Retired g look s h = ground arith

  module _ (s₀ : Supervisor Url Process) (look : Look Process) where
    pub launch-Inv :
        (id : String) (at observed : Option ℕ) (spawn : Result ManagedRuntimeError Process)
        → Inv s₀
        → Inv (launch s₀ id look at observed spawn).0
    unfolding launch
    launch-Inv id at observed spawn v = ground (arith, refresh_exit-Inv look s₀)

    pub publish-Inv :
        (id : String) (g : ℕ) (observed : Option ℕ) (c : ParsedCandidate Url)
        → Inv s₀
        → Inv (publish s₀ id g look observed c).0
    unfolding publish
    publish-Inv id g observed c v = ground (arith, refresh_exit-Inv look s₀)

    pub prepare_start-Inv :
        (id : String) (auto : Bool) (spec : LaunchSpec) (observed : Option ℕ)
        → Inv s₀
        → Inv (prepare_start s₀ id auto spec look observed).0
    unfolding prepare_start
    prepare_start-Inv id auto spec observed v = ground (arith, refresh_exit-Inv look s₀)

    pub begin_stop-Inv :
        (id : String) (expected : ℕ) (observed : Option ℕ)
        → Inv s₀
        → Inv (begin_stop s₀ id expected look observed).0
    unfolding begin_stop
    begin_stop-Inv id expected observed v = ground (arith, refresh_exit-Inv look s₀)

    pub begin_restart-Inv :
        (id : String) (expected : ℕ) → Inv s₀ → Inv (begin_restart s₀ id expected look).0
    unfolding begin_restart
    begin_restart-Inv id expected v = ground (arith, refresh_exit-Inv look s₀)

  pub fail_start-Inv :
      (s : Supervisor Url Process) (id : String) (g : ℕ) (clock : Option ℕ)
      (e : ManagedRuntimeError)
      → Inv s
      → Inv (fail_start s id g clock e).0
  unfolding fail_start record_crash
  fail_start-Inv s id g clock e v =
      ground (arith, next_recovery-RecoveryInv (or_zero clock) s.recovery)

  pub fail_stop-Inv :
      (s : Supervisor Url Process) (id : String) (g : ℕ)
      → Retired g s
      → Inv s
      → Inv (fail_stop s id g).0
  unfolding fail_stop
  fail_stop-Inv s id g h v = ground arith

  pub finish_stop-Inv :
      (s : Supervisor Url Process) (id : String) (g : ℕ) (d : StopDisposition) (released : Bool)
      (observed : Option ℕ)
      → Retired g s
      → Inv s
      → Inv (finish_stop s id g d released observed).0
  unfolding finish_stop
  finish_stop-Inv s id g d released observed h v = ground arith
