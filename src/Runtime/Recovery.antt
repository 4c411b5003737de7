-- ===== src/Runtime/Recovery.antt =====
-- The budget of crashes and automatic restarts (crates/managed-runtime/src/supervisor.rs,
-- `record_crash`, `refresh_exit` and `auto_restart_eligible`).
use dsh_desktop_shell.Runtime.Invariant.{RecoveryInv, Inv}
use dsh_desktop_shell.Runtime.Steps.{Reach-Inv, Reach}
use dsh_desktop_shell.Runtime.Types.{Supervisor, RecoveryState}
use dsh_desktop_shell.Runtime.State.{
  is_some, recovery_window, recovery_budget, next_recovery, auto_restart_eligible,
}
use dsh_desktop_shell.Prelude.{
  subst, Option-cases, ◌+◌, ◌<◌, length, ◌≤◌, leb, All, ◌-◌, List, ℕ, Option, suc, ◌≡◌, arith, refl,
  true, inr, inl, some, none, ◌∷◌, [],
}

-- The recovery record after crashes at the given times.
abbrev pub after_crashes : Option RecoveryState → List ℕ → Option RecoveryState
after_crashes r [] = r
after_crashes r (t ∷ ts) = after_crashes (some (next_recovery t r)) ts

abbrev InWindow : ℕ → ℕ → Type 0
InWindow start t = t - start ≤ recovery_window

module _ (start : ℕ) (t : ℕ) (r : RecoveryState) where
  next_counted :
      r.window_start_unix_ms ≡ start
      → InWindow start t
      → ((next_recovery t (some r)).window_start_unix_ms ≡ start)
        × ((next_recovery t (some r)).crash_count ≡ r.crash_count + 1)
  unfolding next_recovery
  next_counted w h = ground (arith, w, h)

  next_latched :
      r.safe_stop ≡ leb recovery_budget r.crash_count
      → (next_recovery t (some r)).safe_stop
        ≡ leb recovery_budget (next_recovery t (some r)).crash_count
  unfolding next_recovery
  next_latched l = ground (arith, l)

crashes_counted :
    (start : ℕ) (r : RecoveryState) (ts : List ℕ)
    → r.window_start_unix_ms ≡ start
    → r.safe_stop ≡ leb recovery_budget r.crash_count
    → All (InWindow start) ts
    → (r' : RecoveryState) × (after_crashes (some r) ts ≡ some r')
      × (r'.crash_count ≡ r.crash_count + length ts)
      × (r'.safe_stop ≡ leb recovery_budget r'.crash_count)
      × (r'.window_start_unix_ms ≡ start)
crashes_counted start r [] w l h = (r, refl, omega arith, l, w)
crashes_counted start r (t ∷ ts) w l h =
    let (r', e, n, l', w') =
      crashes_counted start (next_recovery t (some r)) ts (next_counted start t r w h.0).0
        (next_latched start t r l) h.1 in
    (r', e, omega (arith, n, (next_counted start t r w h.0).1), l', w')

-- Crashes at any times within a window of the first one are all counted, and automatic restarts are
-- latched off from the third on: neither earlier nor later.
pub window_budget :
    (first : ℕ) (ts : List ℕ)
    → All (InWindow first) ts
    → (r : RecoveryState) × (after_crashes none (first ∷ ts) ≡ some r)
      × (r.crash_count ≡ suc (length ts))
      × (r.safe_stop ≡ leb 3 (suc (length ts)))
unfolding next_recovery
window_budget first ts h =
    let (r, e, n, l, w) =
      crashes_counted first (next_recovery first none) ts (ground arith) (ground arith) h in
    (r, e, ground (arith, n), ground (arith, n, l))

module _ {Url Process : Type 0} where
  bounded :
      (s : Supervisor Url Process) (r : RecoveryState)
      → Inv s
      → s.recovery ≡ some r
      → auto_restart_eligible s ≡ true
      → (1 ≤ r.crash_count)
        × (r.crash_count < recovery_budget)
        × (s.process ≡ none)
        × (is_some s.retained_spec ≡ true)
  unfolding auto_restart_eligible
  bounded s r v e h =
      let budgeted : RecoveryInv (some r) = subst RecoveryInv e v.recovery_budgeted in
      ground (arith, e, h, budgeted, v.process_running)

  -- An automatic restart is due, in a reachable state, only after one or two crashes since the
  -- window began, with no process retained and a recipe to start.
  pub auto_restart_bounded :
      {s : Supervisor Url Process} {gs : List ℕ}
      → Reach s gs
      → auto_restart_eligible s ≡ true
      → (r : RecoveryState) × (s.recovery ≡ some r)
        × (1 ≤ r.crash_count)
        × (r.crash_count < recovery_budget)
        × (s.process ≡ none)
        × (is_some s.retained_spec ≡ true)
  unfolding auto_restart_eligible
  auto_restart_bounded {s} reach h = elim (Option-cases s.recovery) [
    | inl e ↦ absurd (ground (arith, h, e))
    | inr (r, e) ↦ (let b = bounded s r (Reach-Inv reach) e h in (r, e, b.0, b.1, b.2, b.3))
  ]
