-- ===== src/Broker/Gate.antt =====
-- What the dispatch gate of crates/supervisor/src/broker.rs decides: `enforce_valid_lease` against
-- a reference that does not loop, and `enforce_dispatch` against the conditions of ADR-0014.
use mathlib.Core.List.{Perm}
use mathlib.Core.Logic.{∥∥₁_elim}
use dsh_desktop_shell.Prelude.{
  any→Any, Any-map, ◌↔◌, Option-cases, Any→any, sym, any-perm, ◌∙◌, Any, lookup, ◌<◌, refl, false,
  some, none, inl, inr, String, ◌≡◌, Bool, true, not, ◌&&◌, ◌||◌, List, [], ◌∷◌, arith,
  if◌then◌else◌, any, Result, ok, err,
}
use dsh_desktop_shell.Broker.Types.{
  CapabilityId-discrete, CapabilityGrant, Lease, BrokerError, not_granted, lease_expired,
  lease_revoked, scope_mismatch,
}
use dsh_desktop_shell.Broker.Scope.{covers}
use dsh_desktop_shell.Broker.State.{
  enforce_dispatch, Broker, round, Query, Seen, is_revoked, is_expired, matches, visit, verdict,
  scan_leases, nothing_seen, enforce_valid_lease,
}

abbrev pub is_covering : Query → String × Lease → Bool
is_covering q (k, l) = matches q l && covers l.scope q.scope

abbrev pub is_matched : Query → String × Lease → Bool
is_matched q (k, l) = matches q l

abbrev pub is_covering_revoked : Query → String × Lease → Bool
is_covering_revoked q (k, l) = is_covering q (k, l) && is_revoked l

abbrev pub is_covering_expired : Query → String × Lease → Bool
is_covering_expired q (k, l) = is_covering q (k, l) && (not (is_revoked l) && is_expired l q.now)

abbrev pub is_valid : Query → String × Lease → Bool
is_valid q (k, l) = is_covering q (k, l) && (not (is_revoked l) && not (is_expired l q.now))

-- The answer by what the table holds, in no order.
unfoldable pub classify : List (String × Lease) → Query → Result BrokerError (Unit {0})
classify ls q =
    if any (is_valid q) ls
    then ok tt
    else if any (is_covering_revoked q) ls
    then err lease_revoked
    else if any (is_covering_expired q) ls
    then err lease_expired
    else if any (is_matched q) ls
    then err scope_mismatch
    else err not_granted

abbrev seen_in : Query → List (String × Lease) → Seen → Seen
seen_in q ls s = record {
  matched = s.matched || any (is_matched q) ls;
  covering = s.covering || any (is_covering q) ls;
  revoked = s.revoked || any (is_covering_revoked q) ls;
  expired = s.expired || any (is_covering_expired q) ls;
}

abbrev Agrees : Query → List (String × Lease) → Seen → Type 0
Agrees q ls s =
    scan_leases q ls s ≡ (if any (is_valid q) ls then ok tt else verdict (seen_in q ls s))

abbrev answer : Bool → Bool → Bool → Bool → Bool → Seen → Result BrokerError (Unit {0})
answer valid same inside gone over s =
    if valid
    then ok tt
    else verdict (record {
      matched = s.matched || same;
      covering = s.covering || inside;
      revoked = s.revoked || gone;
      expired = s.expired || over;
    })

-- One round of the loop, by its four tests, when the rest of the loop is known.
round_lem :
    (rest : Seen → Result BrokerError (Unit {0})) (vs ms cs gs os : Bool)
    → ((s : Seen) → rest s ≡ answer vs ms cs gs os s)
    → (m c g o : Bool) (s : Seen)
    → (elim (round m c g o s) [ none ↦ ok tt | some s' ↦ rest s' ])
      ≡ answer
          (((m && c) && (not g && not o)) || vs)
          (m || ms)
          ((m && c) || cs)
          (((m && c) && g) || gs)
          (((m && c) && (not g && o)) || os)
          s
unfolding round verdict
round_lem rest vs ms cs gs os ih false c g o s = ih s
round_lem rest vs ms cs gs os ih true false g o s = ground (arith, ih (record s { matched = true }))
round_lem rest vs ms cs gs os ih true true true o s =
    ground
      (arith, ih (record { matched = true; covering = true; revoked = true; expired = s.expired }))
round_lem rest vs ms cs gs os ih true true false true s =
    ground
      (arith, ih (record { matched = true; covering = true; revoked = s.revoked; expired = true }))
round_lem rest vs ms cs gs os ih true true false false s = refl

scan_leases_lem : (q : Query) (ls : List (String × Lease)) (s : Seen) → Agrees q ls s
unfolding scan_leases visit verdict
scan_leases_lem q [] s = ground arith
scan_leases_lem q ((k, l) ∷ ls) s =
    round_lem (scan_leases q ls) (any (is_valid q) ls) (any (is_matched q) ls)
      (any (is_covering q) ls) (any (is_covering_revoked q) ls) (any (is_covering_expired q) ls)
      (scan_leases_lem q ls) (matches q l) (covers l.scope q.scope) (is_revoked l)
      (is_expired l q.now) s

covering-matched :
    (q : Query) (ls : List (String × Lease))
    → any (is_covering q) ls ≡ true
    → any (is_matched q) ls ≡ true
covering-matched q [] h = h
covering-matched q ((k, l) ∷ ls) h = ground (arith, covering-matched q ls)

-- The loop with its four flags and its early return answers as the reference: a valid covering lease
-- passes; else a covering revoked one, a covering expired one, a matching one, in this order, decide
-- the error; the branch that its comment calls unreachable changes nothing.
pub enforce_valid_lease-classify :
    (ls : List (String × Lease)) (q : Query) → enforce_valid_lease ls q ≡ classify ls q
unfolding enforce_valid_lease classify verdict
enforce_valid_lease-classify ls q =
    ground (arith, scan_leases_lem q ls nothing_seen, covering-matched q ls)

same_result : {x y : Result BrokerError (Unit {0})} → IsProp (x ≡ y)
same_result = (let set : IsSet (Result BrokerError (Unit {0})) = hlevel in set) _ _

-- The gate's answer about the leases does not depend on the order in which `HashMap::values`
-- yields them.
enforce_valid_lease-perm :
    (q : Query) (ls ms : List (String × Lease))
    → Perm ls ms
    → enforce_valid_lease ls q ≡ enforce_valid_lease ms q
unfolding classify
enforce_valid_lease-perm q ls ms = λ h. ∥∥₁_elim h same_result λ d.
    enforce_valid_lease-classify ls q
    ∙ cc (
      any-perm (is_valid q) d,
      any-perm (is_covering_revoked q) d,
      any-perm (is_covering_expired q) d,
      any-perm (is_matched q) d,
    )
    ∙ sym (enforce_valid_lease-classify ms q)

-- A lease that lets the query through.
pub record Admits (q : Query) (l : Lease) : Type 0 where
  pub same_capability : l.capability_id ≡ q.capability
  pub same_owner : l.owner ≡ q.owner
  pub same_generation : l.generation ≡ q.generation
  pub in_scope : covers l.scope q.scope ≡ true
  pub not_revoked : l.revoked ≡ none
  pub not_expired : q.now < l.expires_at_unix_ms

is_valid→Admits : (q : Query) (k : String) (l : Lease) → is_valid q (k, l) ≡ true → Admits q l
unfolding matches is_revoked is_expired
is_valid→Admits q k l h = ground arith

pub Admits→is_valid : (q : Query) (k : String) (l : Lease) → Admits q l → is_valid q (k, l) ≡ true
unfolding matches is_revoked is_expired
Admits→is_valid q k l h = ground arith

-- What ADR-0014 asks of a dispatch.
pub record Authorised {Json : Type 0} (b : Broker Json) (q : Query) : Type 0 where
  pub held : CapabilityGrant
  pub granted : lookup CapabilityId-discrete q.capability b.grants ≡ some held
  pub same_owner : held.owner ≡ q.owner
  pub same_generation : held.generation ≡ q.generation
  pub in_scope : covers held.scope q.scope ≡ true
  pub leased : Any (λ e. Admits q e.1) b.leases

valid_answer :
    (ls : List (String × Lease)) (q : Query)
    → enforce_valid_lease ls q ≡ ok tt
    → any (is_valid q) ls ≡ true
unfolding classify
valid_answer ls q h = ground (arith, enforce_valid_lease-classify ls q)

answer_valid :
    (ls : List (String × Lease)) (q : Query)
    → any (is_valid q) ls ≡ true
    → enforce_valid_lease ls q ≡ ok tt
unfolding classify
answer_valid ls q h = ground (arith, enforce_valid_lease-classify ls q)

module _ {Json : Type 0} (b : Broker Json) (q : Query) where
  passed :
      (g : CapabilityGrant)
      → lookup CapabilityId-discrete q.capability b.grants ≡ some g
      → enforce_dispatch b q ≡ ok tt
      → (g.owner ≡ q.owner)
        × (g.generation ≡ q.generation)
        × (covers g.scope q.scope ≡ true)
        × (enforce_valid_lease b.leases q ≡ ok tt)
  unfolding enforce_dispatch
  passed g e h = ground arith

  authorised : enforce_dispatch b q ≡ ok tt → Authorised b q
  unfolding enforce_dispatch
  authorised h = elim (Option-cases (lookup CapabilityId-discrete q.capability b.grants)) [
    | inl e ↦ absurd (ground arith)
    | inr (g, e) ↦
        let (o, n, s, v) = passed g e h in
        record {
          held = g;
          granted = e;
          same_owner = o;
          same_generation = n;
          in_scope = s;
          leased =
              Any-map (λ x. is_valid→Admits q x.0 x.1) b.leases
                (any→Any (is_valid q) b.leases (valid_answer b.leases q v));
        }
  ]

  passes : Authorised b q → enforce_dispatch b q ≡ ok tt
  unfolding enforce_dispatch
  passes a = ground (
    arith,
    a.granted,
    answer_valid b.leases q (
        Any→any (is_valid q) b.leases (Any-map (λ x. Admits→is_valid q x.0 x.1) b.leases a.leased)),
  )

  -- The gate passes a dispatch exactly when the capability is granted to this owner at this
  -- generation with a covering scope, and some lease of the table matches the query in capability,
  -- owner and generation, covers its scope, is not revoked and has not expired.
  pub enforce_dispatch_iff : (enforce_dispatch b q ≡ ok tt) ↔ Authorised b q
  enforce_dispatch_iff = (authorised, passes)
