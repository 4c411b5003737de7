-- ===== src/Runtime/Start.antt =====
-- `start_with_spec` (crates/managed-runtime/src/supervisor.rs): the launch, the waiting for a
-- candidate and for its endpoint, and the publication. Each round of a waiting loop is a `Poll`; a
-- wait whose polls run out is still going on. The lock is free between the blocks: what other calls
-- do to the supervisor there is any function (`before`, `between`).
use dsh_desktop_shell.Runtime.Sections.{
  launched, already, publish, launch, generation_is_alive, fail_start,
}
use dsh_desktop_shell.Runtime.Types.{
  LaunchSpec, ManagedRuntimeReport, readiness_timeout, process_exited, ParsedCandidate,
  ManagedRuntimeError, Supervisor,
}
use dsh_desktop_shell.Runtime.State.{Look}
use dsh_desktop_shell.Runtime.Candidate.{fixed_port_candidate, parse_candidate, UrlApi}
use dsh_desktop_shell.Prelude.{
  not, List, ℕ, Bool, String, Option, Result, if◌then◌else◌, err, ok, some, none, ◌∷◌, [],
}

-- What one round of a loop sees: the processes, what `try_recv` gives, the answer of the HTTP probe,
-- and whether the deadline has passed; and what other calls do before the round, and between its
-- look and its `fail_start`.
pub record Poll (Url Process : Type 0) : Type 0 where
  pub before : Supervisor Url Process → Supervisor Url Process
  pub between : Supervisor Url Process → Supervisor Url Process
  pub look : Look Process
  pub received : Option String
  pub probed : Bool
  pub late : Bool

-- `Result::ok`.
abbrev pub ok_of {ℓ κ} : {E : Type ℓ} {A : Type κ} → Result E A → Option A
ok_of (ok a) = some a
ok_of (err e) = none

-- An answer with the supervisor that it leaves, or no answer yet.
abbrev pub Waited : Type 0 → Type 0 → Type 0 → Type 0
Waited Url Process A = Supervisor Url Process × Option (Result ManagedRuntimeError A)

module _ {Url Process : Type 0} (api : UrlApi Url) (id : String) (g : ℕ) where
  -- `return fail_start(..)`; its clock is that of the same round.
  abbrev pub give_up :
      {A : Type 0} → Supervisor Url Process → Option ℕ → ManagedRuntimeError → Waited Url Process A
  give_up s clock e = let (s', e') = fail_start s id g clock e in (s', some (err e'))

  -- The loop without a configured port.
  unfoldable pub await_marker :
      List (Poll Url Process) → Supervisor Url Process → Waited Url Process (ParsedCandidate Url)
  await_marker [] s = (s, none)
  await_marker (p ∷ ps) s₀ =
      let (s, alive) = generation_is_alive (p.before s₀) id g p.look in
      let rest = await_marker ps s in
      if not alive then give_up (p.between s) p.look.clock process_exited else elim p.received [
        | some value ↦ elim (parse_candidate api value none) [
          | ok c ↦ (s, some (ok c))
          | err e ↦ ((fail_start (p.between s) id g p.look.clock e).0, some (err e))
        ]
        | none ↦ if p.late then give_up (p.between s) p.look.clock readiness_timeout else rest
      ]

  -- The loop with a configured port, until a marker comes or the port answers.
  unfoldable pub await_port :
      ℕ
      → List (Poll Url Process)
      → Supervisor Url Process
      → Waited Url Process (Option (ParsedCandidate Url))
  await_port port [] s = (s, none)
  await_port port (p ∷ ps) s₀ = elim p.received [
    | some value ↦ (p.before s₀, some (ok (ok_of (parse_candidate api value (some port)))))
    | none ↦
        let (s, alive) = generation_is_alive (p.before s₀) id g p.look in
        let rest = await_port port ps s in
        if not alive
        then give_up (p.between s) p.look.clock process_exited
        else if p.probed
        then (s, some (ok none))
        else if p.late
        then give_up (p.between s) p.look.clock readiness_timeout
        else rest
  ]

  -- The marker grace: a round for each poll until the grace is over.
  unfoldable pub await_grace :
      ℕ
      → List (Poll Url Process)
      → Supervisor Url Process
      → Supervisor Url Process × Result ManagedRuntimeError (Option (ParsedCandidate Url))
  await_grace port [] s = (s, ok none)
  await_grace port (p ∷ ps) s₀ =
      let (s, alive) = generation_is_alive (p.before s₀) id g p.look in
      let rest = await_grace port ps s in
      let go_on =
        (if not alive
          then (let (s', e) = fail_start (p.between s) id g p.look.clock process_exited in
              (s', err e))
          else rest) in
      elim p.received [
        | none ↦ go_on
        | some value ↦ elim (parse_candidate api value (some port)) [
          | ok c ↦ (p.before s₀, ok (some c))
          | err e ↦ go_on
        ]
      ]

  -- The confirmation that the candidate's port answers.
  unfoldable pub await_answer :
      List (Poll Url Process) → Supervisor Url Process → Waited Url Process (Unit {0})
  await_answer [] s = (s, none)
  await_answer (p ∷ ps) s₀ =
      let (s, alive) = generation_is_alive (p.before s₀) id g p.look in
      let rest = await_answer ps s in
      if not alive
      then give_up (p.between s) p.look.clock process_exited
      else if p.probed
      then (s, some (ok tt))
      else if p.late
      then give_up (p.between s) p.look.clock readiness_timeout
      else rest

-- What the system answers during one call: to the launch, before the first probe, in the rounds of
-- the three loops, and at the publication; `before_first` and so on are what other calls do there.
pub record Answers (Url Process : Type 0) : Type 0 where
  pub launch_look : Look Process
  pub launched_at : Option ℕ
  pub launch_observed : Option ℕ
  pub spawned : Result ManagedRuntimeError Process
  pub before_first : Supervisor Url Process → Supervisor Url Process
  pub first : Look Process
  pub after_first : Supervisor Url Process → Supervisor Url Process
  pub readiness : List (Poll Url Process)
  pub grace : List (Poll Url Process)
  pub confirmation : List (Poll Url Process)
  pub before_last : Supervisor Url Process → Supervisor Url Process
  pub last : Look Process
  pub published_at : Option ℕ

abbrev pub and_then :
    {Url Process A B : Type 0}
    → Waited Url Process A
    → (Supervisor Url Process → A → Waited Url Process B)
    → Waited Url Process B
and_then (s, none) k = (s, none)
and_then (s, some (err e)) k = (s, some (err e))
and_then (s, some (ok a)) k = k s a

module _ {Url Process : Type 0} (api : UrlApi Url) (id : String) (a : Answers Url Process) where
  -- After a marker, or after the port has answered without one.
  unfoldable pub await_token :
      ℕ
      → ℕ
      → Supervisor Url Process
      → Option (ParsedCandidate Url)
      → Waited Url Process (ParsedCandidate Url)
  unfolding await_grace
  await_token g port s (some c) = (s, some (ok c))
  await_token g port s none =
      let (s', outcome) = await_grace api id g port a.grace s in
      elim outcome [
        | err e ↦ (s', some (err e))
        | ok none ↦ (s', some (ok (fixed_port_candidate port)))
        | ok (some c) ↦ (s', some (ok c))
      ]

  unfoldable pub await_fixed :
      ℕ → ℕ → Supervisor Url Process → Waited Url Process (ParsedCandidate Url)
  unfolding await_port await_token
  await_fixed g port s₀ =
      let (s, alive) = generation_is_alive (a.before_first s₀) id g a.first in
      if not alive
      then give_up api id g (a.after_first s) a.first.clock process_exited
      else and_then (await_port api id g port a.readiness s) (await_token g port)

  unfoldable pub await_candidate :
      ℕ → Option ℕ → Supervisor Url Process → Waited Url Process (ParsedCandidate Url)
  unfolding await_fixed await_marker
  await_candidate g none s = await_marker api id g a.readiness s
  await_candidate g (some port) s = await_fixed g port s

  -- What follows the launch of the generation `g`.
  unfoldable pub finish_start :
      ℕ → Option ℕ → Supervisor Url Process → Waited Url Process ManagedRuntimeReport
  unfolding await_candidate await_answer
  finish_start g expected_port s = and_then (await_candidate g expected_port s) (λ s₁ c.
      and_then (await_answer api id g a.confirmation s₁) (λ s₂ done.
        let (s₃, answer) = publish (a.before_last s₂) id g a.last a.published_at c in
        (s₃, some answer)))

  unfoldable pub start_with_spec :
      LaunchSpec → Supervisor Url Process → Waited Url Process ManagedRuntimeReport
  unfolding launch finish_start
  start_with_spec spec s₀ =
      let (s, started) = launch s₀ id a.launch_look a.launched_at a.launch_observed a.spawned in
      elim started [
        | err e ↦ (s, some (err e))
        | ok (already r) ↦ (s, some (ok r))
        | ok (launched g) ↦ finish_start g spec.expected_port s
      ]
