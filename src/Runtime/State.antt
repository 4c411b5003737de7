-- ===== src/Runtime/State.antt =====
-- The supervisor's own methods (crates/managed-runtime/src/supervisor.rs). What the system answers
-- is an argument: which processes have exited, and the clock (`none` if it fails).
use dsh_desktop_shell.Runtime.Types.{
  failed, verified, stopping, waiting, unowned, healthy, clock_unavailable, starting, owned,
  not_started, not_requested, RuntimeEvidence, stopped, safe_stop, crashed, StopDisposition,
  RecoveryReport, Readiness, ManagedRuntimeError, Supervisor, RecoveryState, ManagedState,
  ManagedRuntimeReport,
}
use dsh_desktop_shell.Prelude.{
  is_empty, ◌||◌, ◌-◌, text_discrete, or_fail, leb, ◌+◌, ◌&&◌, not, ltb, does, Result, List, ℕ,
  decimal_from, String, Option, Bool, ◌>>=◌, if◌then◌else◌, ok, false, true, some, none, ◌∷◌, [],
}
use Prim.Native.String.{◌++◌ as str_append}

abbrev pub recovery_budget : ℕ
recovery_budget = 3

abbrev pub recovery_window : ℕ
recovery_window = 60000

abbrev pub unix_ms : Option ℕ → Result ManagedRuntimeError ℕ
unix_ms clock = or_fail clock clock_unavailable

abbrev pub or_zero : Option ℕ → ℕ
or_zero none = 0
or_zero (some n) = n

abbrev pub evidence_of : String → String → List RuntimeEvidence
evidence_of code severity = record { code = code; severity = severity } ∷ []

abbrev pub first_window : ℕ → RecoveryState
first_window now = record {
  crash_count = 0;
  window_start_unix_ms = now;
  last_crash_at_unix_ms = none;
  safe_stop = false;
}

-- A crash after the window's end opens a new window.
abbrev pub slide : ℕ → RecoveryState → RecoveryState
slide now r =
    if ltb recovery_window (now - r.window_start_unix_ms)
    then record r { crash_count = 0; window_start_unix_ms = now; safe_stop = false }
    else r

abbrev pub count_crash : ℕ → RecoveryState → RecoveryState
count_crash now r = record r {
  crash_count = r.crash_count + 1;
  last_crash_at_unix_ms = some now;
  safe_stop = leb recovery_budget (r.crash_count + 1) || r.safe_stop;
}

unfoldable pub next_recovery : ℕ → Option RecoveryState → RecoveryState
next_recovery now none = count_crash now (slide now (first_window now))
next_recovery now (some r) = count_crash now (slide now r)

abbrev pub is_latched : Option RecoveryState → Bool
is_latched none = false
is_latched (some r) = r.safe_stop

abbrev pub is_environment : Option String → String → Bool
is_environment none id = false
is_environment (some own) id = does (text_discrete own id)

-- `is_some_and(|id| id != environment.id())`.
abbrev pub is_other : Option String → String → Bool
is_other none id = false
is_other (some own) id = not (does (text_discrete own id))

abbrev pub is_some {ℓ} : {A : Type ℓ} → Option A → Bool
is_some none = false
is_some (some a) = true

abbrev pub is_state : ManagedState → ManagedState → Bool
is_state stopped stopped = true
is_state starting starting = true
is_state healthy healthy = true
is_state stopping stopping = true
is_state crashed crashed = true
is_state safe_stop safe_stop = true
is_state _ _ = false

abbrev pub readiness_of : ManagedState → Readiness
readiness_of stopped = not_started
readiness_of starting = waiting
readiness_of stopping = waiting
readiness_of healthy = verified
readiness_of crashed = failed
readiness_of safe_stop = failed

abbrev pub default_evidence : ManagedState → List RuntimeEvidence
default_evidence stopped = evidence_of "MANAGED_STOPPED" "info"
default_evidence starting = evidence_of "MANAGED_STARTING" "info"
default_evidence healthy = evidence_of "MANAGED_ENDPOINT_VERIFIED" "info"
default_evidence stopping = evidence_of "MANAGED_STOPPING" "info"
default_evidence crashed = evidence_of "MANAGED_PROCESS_EXITED" "error"
default_evidence safe_stop = evidence_of "MANAGED_SAFE_STOP" "error"

abbrev pub shows_instance : ManagedState → Bool
shows_instance stopped = false
shows_instance safe_stop = false
shows_instance _ = true

abbrev pub recovery_report : Option RecoveryState → Option RecoveryReport
recovery_report none = none
recovery_report (some r) = some (record {
  crash_count = r.crash_count;
  window_start_unix_ms = r.window_start_unix_ms;
  budget = recovery_budget;
  safe_stop = r.safe_stop;
  last_crash_at_unix_ms = r.last_crash_at_unix_ms;
})

abbrev pub state_or_stopped : Option ManagedState → ManagedState
state_or_stopped none = stopped
state_or_stopped (some state) = state

abbrev pub disposition_or_default : Option StopDisposition → StopDisposition
disposition_or_default none = not_requested
disposition_or_default (some d) = d

-- `format!("managed-{generation}-{launched_at}")`.
unfoldable pub instance_id_of : ℕ → ℕ → String
unfolding decimal_from
instance_id_of generation launched_at =
    str_append "managed-"
      (str_append (decimal_from 20 generation "") (str_append "-" (decimal_from 20 launched_at "")))

pub record Look (Process : Type 0) : Type 0 where
  pub exited : Process → Bool
  pub clock : Option ℕ

module _ {Url Process : Type 0} where
  unfoldable pub initial : Supervisor Url Process
  initial = record {
    environment_id = none;
    state = none;
    generation = 0;
    instance_id = none;
    endpoint = none;
    bootstrap_url = none;
    stop_disposition = none;
    evidence = [];
    process = none;
    retained_spec = none;
    auto_restart_on_crash = false;
    recovery = none;
  }

  unfoldable pub record_crash : Option ℕ → Supervisor Url Process → Supervisor Url Process
  unfolding next_recovery
  record_crash clock s = record s { recovery = some (next_recovery (or_zero clock) s.recovery) }

  -- What `refresh_exit` and `fail_start` write after a crash: the evidence names the cause.
  abbrev pub mark_crashed : String → Supervisor Url Process → Supervisor Url Process
  mark_crashed cause s = record s {
    state = some (if is_latched s.recovery then safe_stop else crashed);
    endpoint = none;
    bootstrap_url = none;
    stop_disposition = some not_requested;
    evidence =
        if is_latched s.recovery
        then evidence_of "MANAGED_SAFE_STOP" "error"
        else evidence_of cause "error";
    process = none;
  }

  unfoldable pub refresh_exit : Look Process → Supervisor Url Process → Supervisor Url Process
  unfolding record_crash
  refresh_exit look s = elim s.process [
    | none ↦ s
    | some p ↦
        if look.exited p
        then mark_crashed "MANAGED_PROCESS_EXITED" (record_crash look.clock s)
        else s
  ]

  unfoldable pub auto_restart_eligible : Supervisor Url Process → Bool
  auto_restart_eligible s =
      is_state (state_or_stopped s.state) crashed
      && (s.auto_restart_on_crash
          && (elim s.recovery [ none ↦ false | some r ↦ not r.safe_stop ]
              && is_some s.retained_spec))

  unfoldable pub report :
      Supervisor Url Process → String → Option ℕ → Result ManagedRuntimeError ManagedRuntimeReport
  report s id clock = do
    observed_at ← unix_ms clock
    ok (record {
      schema_version = 1;
      environment_id = id;
      ownership = "managed";
      state = state_or_stopped s.state;
      generation = s.generation;
      instance_id = if shows_instance (state_or_stopped s.state) then s.instance_id else none;
      process_ownership = if is_some s.process then owned else unowned;
      lifecycle_mutation = "allowed";
      readiness = readiness_of (state_or_stopped s.state);
      endpoint = s.endpoint;
      stop_disposition = disposition_or_default s.stop_disposition;
      recovery = recovery_report s.recovery;
      observed_at_unix_ms = observed_at;
      evidence =
          if is_empty s.evidence then default_evidence (state_or_stopped s.state) else s.evidence;
    })
