-- ===== src/Broker/Types.antt =====
-- The data of crates/supervisor/src/broker.rs: identities, scopes, grants, leases, errors.
use dsh_desktop_shell.Prelude.{ℕ, String, List, Option, ℕ_discrete, text_discrete}

pub record CapabilityId : Type 0 where
  pub api_version : String
  pub kind : String

pub record Scope : Type 0 where
  pub session_id : Option String
  pub workspace : Option String
  pub domains : List String
  pub resources : List String

pub data LeaseRevocationReason : Type 0 where
  disconnect unload expiry human_takeover generation_change : LeaseRevocationReason

pub record LeaseRevocation : Type 0 where
  pub reason : LeaseRevocationReason
  pub at_unix_ms : ℕ

pub record CapabilityGrant : Type 0 where
  pub capability_id : CapabilityId
  pub version : String
  pub scope : Scope
  pub owner : String
  pub generation : ℕ
  pub created_at_unix_ms : ℕ

pub record Lease : Type 0 where
  pub id : String
  pub capability_id : CapabilityId
  pub owner : String
  pub generation : ℕ
  pub scope : Scope
  pub expires_at_unix_ms : ℕ
  pub revoked : Option LeaseRevocation

pub data BrokerError : Type 0 where
  unknown_capability unknown_provider not_granted lease_expired lease_revoked : BrokerError
  scope_mismatch generation_mismatch conflict : BrokerError

unfoldable pub CapabilityId-discrete : Discrete CapabilityId
CapabilityId-discrete = hlevel text_discrete

unfoldable pub CapabilityGrant-discrete : Discrete CapabilityGrant
CapabilityGrant-discrete = hlevel (text_discrete, ℕ_discrete)

unfoldable pub Lease-discrete : Discrete Lease
Lease-discrete = hlevel (text_discrete, ℕ_discrete)
