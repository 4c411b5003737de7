-- ===== src/Broker/State.antt =====
-- The broker's state and its grant, lease and dispatch operations
-- (crates/supervisor/src/broker.rs). `now` is the clock's reading in the call.
use dsh_desktop_shell.Prelude.{
  map_values, ℕ, String, ite, Bool, true, false, ◌&&◌, Option, none, some, List, [], ◌∷◌,
  text_discrete, leb, ◌==◌, if◌then◌else◌, does, lookup, insert, modify, Result, ok, err, ◌>>=◌,
  ◌>>◌, guard, or_fail,
}
use dsh_desktop_shell.Broker.Types.{
  CapabilityId, Scope, LeaseRevocationReason, generation_change, CapabilityGrant, Lease,
  BrokerError, unknown_capability, unknown_provider, not_granted, lease_expired, lease_revoked,
  scope_mismatch, generation_mismatch, conflict, CapabilityId-discrete, CapabilityGrant-discrete,
  Lease-discrete,
}
use dsh_desktop_shell.Broker.Scope.{covers}

pub record Invocation (Json : Type 0) : Type 0 where
  pub capability : CapabilityId
  pub method : String
  pub owner : String
  pub generation : ℕ
  pub scope : Scope
  pub payload : Json

pub record InvocationResult (Json : Type 0) : Type 0 where
  pub payload : Json

pub record Provider (Json : Type 0) : Type 0 where
  pub id : String
  pub capability : CapabilityId
  pub handler : Invocation Json → InvocationResult Json

pub record AgentActivationState : Type 0 where
  pub generation : ℕ
  pub revoked : Bool

-- A map is its entries; their order is one that `values()` may go by.
pub record Broker (Json : Type 0) : Type 0 where
  pub grants : List (CapabilityId × CapabilityGrant)
  pub leases : List (String × Lease)
  pub providers : List (String × Provider Json)
  pub agent_activations : List (String × List (String × AgentActivationState))
  pub current_activation : List (String × String)
  pub next_generation : List (String × ℕ)

unfoldable pub is_revoked : Lease → Bool
is_revoked l = elim l.revoked [ none ↦ false | some r ↦ true ]

unfoldable pub is_expired : Lease → ℕ → Bool
is_expired l now = leb l.expires_at_unix_ms now

-- `if lease.revoked.is_none() { lease.revoked = Some(…) }`
abbrev pub mark_revoked : LeaseRevocationReason → ℕ → Lease → Lease
mark_revoked reason at l = elim l.revoked [
  | none ↦ record l { revoked = some (record { reason = reason; at_unix_ms = at }) }
  | some r ↦ l
]

-- The loop of `revoke_all_for_capability`.
unfoldable pub revoke_for_capability :
    CapabilityId → LeaseRevocationReason → ℕ → List (String × Lease) → List (String × Lease)
revoke_for_capability c reason at =
    map_values text_discrete
      (λ l. ite (CapabilityId-discrete l.capability_id c) (mark_revoked reason at l) l)

-- What a dispatch asks for, and when.
pub record Query : Type 0 where
  pub capability : CapabilityId
  pub owner : String
  pub generation : ℕ
  pub scope : Scope
  pub now : ℕ

-- The flags of the loop in `enforce_valid_lease`.
pub record Seen : Type 0 where
  pub matched : Bool
  pub covering : Bool
  pub revoked : Bool
  pub expired : Bool

unfoldable pub matches : Query → Lease → Bool
matches q l =
    does (CapabilityId-discrete l.capability_id q.capability)
    && (does (text_discrete l.owner q.owner) && l.generation == q.generation)

-- One round of the loop, by its tests: `none` is its `return Ok(())`.
unfoldable pub round : Bool → Bool → Bool → Bool → Seen → Option Seen
round same inside gone over s =
    if same
    then if inside
      then if gone
        then some (record { matched = true; covering = true; revoked = true; expired = s.expired })
        else if over
        then some (record { matched = true; covering = true; revoked = s.revoked; expired = true })
        else none
      else some (record s { matched = true })
    else some s

unfoldable pub visit : Query → Lease → Seen → Option Seen
visit q l s = round (matches q l) (covers l.scope q.scope) (is_revoked l) (is_expired l q.now) s

unfoldable pub verdict : Seen → Result BrokerError (Unit {0})
verdict s =
    if s.revoked
    then err lease_revoked
    else if s.expired
    then err lease_expired
    else if s.covering
    then err scope_mismatch
    else if s.matched
    then err scope_mismatch
    else err not_granted

unfoldable pub scan_leases : Query → List (String × Lease) → Seen → Result BrokerError (Unit {0})
scan_leases q [] s = verdict s
scan_leases q ((k, l) ∷ ls) s = elim (visit q l s) [ none ↦ ok tt | some s' ↦ scan_leases q ls s' ]

abbrev pub nothing_seen : Seen
nothing_seen = record { matched = false; covering = false; revoked = false; expired = false }

unfoldable pub enforce_valid_lease : List (String × Lease) → Query → Result BrokerError (Unit {0})
enforce_valid_lease ls q = scan_leases q ls nothing_seen

module _ {Json : Type 0} where
  unfoldable pub with_clock : Broker Json
  with_clock = record {
    grants = [];
    leases = [];
    providers = [];
    agent_activations = [];
    current_activation = [];
    next_generation = [];
  }

  unfoldable pub register_provider :
      Broker Json → Provider Json → Broker Json × Result BrokerError (Unit {0})
  register_provider b p = elim (lookup text_discrete p.id b.providers) [
    | some other ↦ (b, err conflict)
    | none ↦ (record b { providers = insert text_discrete p.id p b.providers }, ok tt)
  ]

  abbrev put_grant : Broker Json → CapabilityGrant → Broker Json
  put_grant b g = record b { grants = insert CapabilityId-discrete g.capability_id g b.grants }

  unfoldable pub grant :
      Broker Json → ℕ → CapabilityGrant → Broker Json × Result BrokerError (Unit {0})
  unfolding revoke_for_capability
  grant b now g = elim (lookup CapabilityId-discrete g.capability_id b.grants) [
    | none ↦ (put_grant b g, ok tt)
    | some existing ↦
        ite (CapabilityGrant-discrete existing g) (b, ok tt)
          (if existing.generation == g.generation then (b, err conflict) else (
            put_grant
                (record b {
                  leases = revoke_for_capability g.capability_id generation_change now b.leases;
                })
                g,
            ok tt,
          ))
  ]

  abbrev put_lease : Broker Json → Lease → Broker Json × Result BrokerError (Unit {0})
  put_lease b l = elim (lookup text_discrete l.id b.leases) [
    | some existing ↦ ite (Lease-discrete existing l) (b, ok tt) (b, err conflict)
    | none ↦ (record b { leases = insert text_discrete l.id l b.leases }, ok tt)
  ]

  unfoldable pub lease : Broker Json → ℕ → Lease → Broker Json × Result BrokerError (Unit {0})
  lease b now l = elim (lookup CapabilityId-discrete l.capability_id b.grants) [
    | none ↦ (b, err unknown_capability)
    | some g ↦
        ite (text_discrete g.owner l.owner)
          (if g.generation == l.generation
            then if covers g.scope l.scope
              then if leb l.expires_at_unix_ms now then (b, err lease_expired) else put_lease b l
              else (b, err scope_mismatch)
            else (b, err generation_mismatch))
          (b, err not_granted)
  ]

  unfoldable pub revoke : Broker Json → ℕ → String → LeaseRevocationReason → Broker Json
  revoke b now id reason = record b {
    leases = modify text_discrete id (mark_revoked reason now) b.leases;
  }

  unfoldable pub enforce_dispatch : Broker Json → Query → Result BrokerError (Unit {0})
  enforce_dispatch b q = do
    g ← or_fail (lookup CapabilityId-discrete q.capability b.grants) unknown_capability
    guard (does (text_discrete g.owner q.owner)) not_granted
    guard (g.generation == q.generation) generation_mismatch
    guard (covers g.scope q.scope) scope_mismatch
    enforce_valid_lease b.leases q

  unfoldable pub dispatch :
      Broker Json → ℕ → String → Invocation Json → Result BrokerError (InvocationResult Json)
  dispatch b now provider_id i = do
    p ← or_fail (lookup text_discrete provider_id b.providers) unknown_provider
    guard (does (CapabilityId-discrete p.capability i.capability)) unknown_capability
    enforce_dispatch b (record {
      capability = i.capability;
      owner = i.owner;
      generation = i.generation;
      scope = i.scope;
      now = now;
    })
    ok (p.handler i)
