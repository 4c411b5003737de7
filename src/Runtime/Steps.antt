-- ===== src/Runtime/Steps.antt =====
-- Every interleaving of the supervisor's critical sections, as a step relation
-- (crates/managed-runtime/src/supervisor.rs).
use dsh_desktop_shell.Runtime.State.{report, initial, Look}
use dsh_desktop_shell.Runtime.Invariant.{
  finish_stop-Inv, fail_stop-Inv, begin_stop-Inv, initial-Inv, begin_restart-Inv, publish-Inv,
  fail_start-Inv, refresh_exit-Retired, refresh_exit-Inv, launch-Inv, Retired, prepare_start-Inv,
  Inv,
}
use dsh_desktop_shell.Runtime.Stop.{
  finish_stop, fail_stop, begin_stop, begin_restart, answered, taken, StopStep,
}
use dsh_desktop_shell.Runtime.Types.{
  ManagedEndpoint, StopDisposition, ParsedCandidate, LaunchSpec, ManagedRuntimeError, Supervisor,
}
use dsh_desktop_shell.Runtime.Sections.{
  publish, fail_start, launch, bind_surface, prepare_start, check_restart, generation_is_alive,
}
use dsh_desktop_shell.Prelude.{
  All-Any, All-map, All, Any, Option, ℕ, List, Bool, String, Result, ◌≡◌, err, ok, arith, refl, ◌∷◌,
  [],
}

module _ (Url Process : Type 0) where
  -- One critical section of any call, with what the system answers in it; the sections of a stop
  -- stand in `Reach` below.
  pub data Section : Type 0 where
    prepares_start : String → Bool → LaunchSpec → Look Process → Option ℕ → Section
    launches :
        String → Look Process → Option ℕ → Option ℕ → Result ManagedRuntimeError Process → Section
    looks : String → ℕ → Look Process → Section
    fails_start : String → ℕ → Option ℕ → ManagedRuntimeError → Section
    publishes : String → ℕ → Look Process → Option ℕ → ParsedCandidate Url → Section
    checks_restart : String → Look Process → Section
    binds_surface : String → ℕ → Look Process → Section
    begins_restart : String → ℕ → Look Process → Section

-- The stops that took a process, by its generation; one that answered at once is over.
abbrev pub add_stop :
    {Process : Type 0} → Result ManagedRuntimeError (StopStep Process) → ℕ → List ℕ → List ℕ
add_stop (ok (taken p e)) g gs = g ∷ gs
add_stop (ok (answered r)) g gs = gs
add_stop (err e) g gs = gs

module _ {Url Process : Type 0} where
  unfoldable pub apply : Supervisor Url Process → Section Url Process → Supervisor Url Process
  apply s (prepares_start id auto spec look observed) =
      (prepare_start s id auto spec look observed).0
  apply s (launches id look at observed spawn) = (launch s id look at observed spawn).0
  apply s (looks id generation look) = (generation_is_alive s id generation look).0
  apply s (fails_start id generation clock error) = (fail_start s id generation clock error).0
  apply s (publishes id generation look observed c) = (publish s id generation look observed c).0
  apply s (checks_restart id look) = (check_restart s id look).0
  apply s (binds_surface id expected look) = (bind_surface s id expected look).0
  apply s (begins_restart id expected look) = (begin_restart s id expected look).0

  -- The states that are reached, with the generations whose stops are in progress. A stop ends only
  -- after it has begun; whatever else runs in between.
  pub data Reach : Supervisor Url Process → List ℕ → Type 0 where
    start : Reach initial []
    runs :
        {s : Supervisor Url Process} {gs : List ℕ}
        → Reach s gs
        → (c : Section Url Process) → Reach (apply s c) gs
    begins_stop :
        {s : Supervisor Url Process} {gs : List ℕ}
        → Reach s gs
        → (id : String) (g : ℕ) (look : Look Process) (observed : Option ℕ)
        → Reach
            (begin_stop s id g look observed).0
            (add_stop (begin_stop s id g look observed).1 g gs)
    fails_stop :
        {s : Supervisor Url Process} {gs : List ℕ}
        → Reach s gs
        → (id : String) (g : ℕ) → Any (λ h. h ≡ g) gs
        → Reach (fail_stop s id g).0 gs
    finishes_stop :
        {s : Supervisor Url Process} {gs : List ℕ}
        → Reach s gs
        → (id : String) (g : ℕ) (d : StopDisposition) (released : Bool) (observed : Option ℕ)
        → Any (λ h. h ≡ g) gs
        → Reach (finish_stop s id g d released observed).0 gs

  apply-Inv : (s : Supervisor Url Process) (c : Section Url Process) → Inv s → Inv (apply s c)
  unfolding apply generation_is_alive check_restart bind_surface
  apply-Inv s (prepares_start id auto spec look observed) v =
      prepare_start-Inv s look id auto spec observed v
  apply-Inv s (launches id look at observed spawn) v = launch-Inv s look id at observed spawn v
  apply-Inv s (looks id generation look) v = refresh_exit-Inv look s v
  apply-Inv s (fails_start id generation clock error) v =
      fail_start-Inv s id generation clock error v
  apply-Inv s (publishes id generation look observed c) v =
      publish-Inv s look id generation observed c v
  apply-Inv s (checks_restart id look) v = ground (arith, refresh_exit-Inv look s)
  apply-Inv s (binds_surface id expected look) v = refresh_exit-Inv look s v
  apply-Inv s (begins_restart id expected look) v = begin_restart-Inv s look id expected v

  apply-Retired :
      (g : ℕ) (s : Supervisor Url Process) (c : Section Url Process)
      → Retired g s
      → Retired g (apply s c)
  unfolding apply generation_is_alive check_restart bind_surface prepare_start launch publish
      fail_start begin_restart
  apply-Retired g s (prepares_start id auto spec look observed) h =
      ground (arith, refresh_exit-Retired g look s)
  apply-Retired g s (launches id look at observed spawn) h =
      ground (arith, refresh_exit-Retired g look s)
  apply-Retired g s (looks id generation look) h = refresh_exit-Retired g look s h
  apply-Retired g s (fails_start id generation clock error) h = ground arith
  apply-Retired g s (publishes id generation look observed c) h =
      ground (arith, refresh_exit-Retired g look s)
  apply-Retired g s (checks_restart id look) h = ground (arith, refresh_exit-Retired g look s)
  apply-Retired g s (binds_surface id expected look) h = refresh_exit-Retired g look s h
  apply-Retired g s (begins_restart id expected look) h =
      ground (arith, refresh_exit-Retired g look s)

  begin_stop-Retired :
      (s : Supervisor Url Process) (id : String) (g h : ℕ) (look : Look Process)
      (observed : Option ℕ)
      → Retired h s
      → Retired h (begin_stop s id g look observed).0
  unfolding begin_stop
  begin_stop-Retired s id g h look observed r = ground (arith, refresh_exit-Retired h look s)

  fail_stop-Retired :
      (s : Supervisor Url Process) (id : String) (g h : ℕ)
      → Retired h s
      → Retired h (fail_stop s id g).0
  unfolding fail_stop
  fail_stop-Retired s id g h r = ground arith

  finish_stop-Retired :
      (s : Supervisor Url Process) (id : String) (g h : ℕ) (d : StopDisposition) (released : Bool)
      (observed : Option ℕ)
      → Retired h s
      → Retired h (finish_stop s id g d released observed).0
  unfolding finish_stop
  finish_stop-Retired s id g h d released observed r = ground arith

  begin_stop_taken :
      (s : Supervisor Url Process) (id : String) (g : ℕ) (look : Look Process) (observed : Option ℕ)
      (p : Process) (e : Option ManagedEndpoint)
      → (begin_stop s id g look observed).1 ≡ ok (taken p e)
      → Retired g (begin_stop s id g look observed).0
  unfolding begin_stop report
  begin_stop_taken s id g look observed p e h = ground (arith, h)

  add_stop-All :
      (s : Supervisor Url Process) (g : ℕ) (gs : List ℕ)
      (answer : Result ManagedRuntimeError (StopStep Process))
      → ((p : Process) (e : Option ManagedEndpoint) → answer ≡ ok (taken p e) → Retired g s)
      → All (λ h. Retired h s) gs
      → All (λ h. Retired h s) (add_stop answer g gs)
  add_stop-All s g gs (ok (taken p e)) t all = (t p e refl, all)
  add_stop-All s g gs (ok (answered r)) t all = all
  add_stop-All s g gs (err e) t all = all

  both_kept :
      {s : Supervisor Url Process} {gs : List ℕ} → Reach s gs → Inv s × All (λ g. Retired g s) gs
  both_kept start = (initial-Inv, tt)
  both_kept (runs {s} {gs} r c) =
      let (v, all) = both_kept r in (apply-Inv s c v, All-map (λ g. apply-Retired g s c) gs all)
  both_kept (begins_stop {s} {gs} r id g look observed) =
      let (v, all) = both_kept r in
      (
        begin_stop-Inv s look id g observed v,
        add_stop-All (begin_stop s id g look observed).0 g gs (begin_stop s id g look observed).1
            (begin_stop_taken s id g look observed)
            (All-map (λ h. begin_stop-Retired s id g h look observed) gs all),
      )
  both_kept (fails_stop {s} {gs} r id g there) =
      let (v, all) = both_kept r in
      (
        fail_stop-Inv s id g (All-Any (λ h. Retired h s) gs all there) v,
        All-map (λ h. fail_stop-Retired s id g h) gs all,
      )
  both_kept (finishes_stop {s} {gs} r id g d released observed there) =
      let (v, all) = both_kept r in
      (
        finish_stop-Inv s id g d released observed (All-Any (λ h. Retired h s) gs all there) v,
        All-map (λ h. finish_stop-Retired s id g h d released observed) gs all,
      )

  -- In every state that critical sections reach in any order, on any number of threads, a process is
  -- retained exactly while the runtime is starting or healthy (and not while it is stopping), an
  -- endpoint is published exactly while it is healthy, and a recovery record is latched exactly when
  -- its budget is used up.
  pub Reach-Inv : {s : Supervisor Url Process} {gs : List ℕ} → Reach s gs → Inv s
  Reach-Inv r = (both_kept r).0
