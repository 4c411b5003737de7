-- ===== src/Runtime/Types.antt =====
-- The data of the managed runtime (crates/managed-runtime/src/supervisor.rs). The URL and the
-- process handle are types of other libraries.
use dsh_desktop_shell.Prelude.{Bool, ℕ, String, List, Option}

pub data ManagedState : Type 0 where
  stopped starting healthy stopping crashed safe_stop : ManagedState

pub data ProcessOwnership : Type 0 where
  unowned owned : ProcessOwnership

pub data Readiness : Type 0 where
  not_started waiting verified failed : Readiness

pub data StopDisposition : Type 0 where
  not_requested graceful forced : StopDisposition

pub record RecoveryState : Type 0 where
  pub crash_count : ℕ
  pub window_start_unix_ms : ℕ
  pub last_crash_at_unix_ms : Option ℕ
  pub safe_stop : Bool

pub record RecoveryReport : Type 0 where
  pub crash_count : ℕ
  pub window_start_unix_ms : ℕ
  pub budget : ℕ
  pub safe_stop : Bool
  pub last_crash_at_unix_ms : Option ℕ

pub record ManagedEndpoint : Type 0 where
  pub scheme : String
  pub host : String
  pub port : ℕ
  pub source : String
  pub verification : String

-- The message of an evidence is fixed by its code.
pub record RuntimeEvidence : Type 0 where
  pub code : String
  pub severity : String

pub data ManagedRuntimeError : Type 0 where
  not_managed invalid_environment unsupported_source node_override_unsupported : ManagedRuntimeError
  spawn_failed process_tree_failed runtime_unavailable : String → ManagedRuntimeError
  conflict stale_generation candidate_invalid candidate_port_mismatch : ManagedRuntimeError
  process_exited readiness_timeout stop_failed endpoint_still_reachable : ManagedRuntimeError
  surface_binding_unavailable state_unavailable clock_unavailable : ManagedRuntimeError

pub record LaunchSpec : Type 0 where
  pub executable : String
  pub args : List String
  pub cwd : Option String
  pub environment : List (String × String)
  pub expected_port : Option ℕ

pub record ManagedRuntimeReport : Type 0 where
  pub schema_version : ℕ
  pub environment_id : String
  pub ownership : String
  pub state : ManagedState
  pub generation : ℕ
  pub instance_id : Option String
  pub process_ownership : ProcessOwnership
  pub lifecycle_mutation : String
  pub readiness : Readiness
  pub endpoint : Option ManagedEndpoint
  pub stop_disposition : StopDisposition
  pub recovery : Option RecoveryReport
  pub observed_at_unix_ms : ℕ
  pub evidence : List RuntimeEvidence

module _ (Url : Type 0) where
  pub record VerifiedSurfaceBinding : Type 0 where
    pub generation : ℕ
    pub port : ℕ
    pub bootstrap_url : Url

  pub record ParsedCandidate : Type 0 where
    pub endpoint : ManagedEndpoint
    pub bootstrap_url : Option Url

module _ (Url Process : Type 0) where
  pub record Supervisor : Type 0 where
    pub environment_id : Option String
    pub state : Option ManagedState
    pub generation : ℕ
    pub instance_id : Option String
    pub endpoint : Option ManagedEndpoint
    pub bootstrap_url : Option Url
    pub stop_disposition : Option StopDisposition
    pub evidence : List RuntimeEvidence
    pub process : Option Process
    pub retained_spec : Option LaunchSpec
    pub auto_restart_on_crash : Bool
    pub recovery : Option RecoveryState
