-- ===== src/Runtime/Deadline.antt =====
-- The waiting loops of a start end (crates/managed-runtime/src/supervisor.rs, `start_with_spec`).
use dsh_desktop_shell.Runtime.Sections.{launched, already, launch, generation_is_alive}
use dsh_desktop_shell.Runtime.State.{is_some}
use dsh_desktop_shell.Runtime.Types.{ParsedCandidate, Supervisor, LaunchSpec}
use dsh_desktop_shell.Runtime.Start.{
  and_then, await_fixed, Poll, start_with_spec, finish_start, await_token, await_port, await_marker,
  await_candidate, await_answer, Waited, Answers,
}
use dsh_desktop_shell.Runtime.Candidate.{UrlApi}
use dsh_desktop_shell.Prelude.{
  Result-cases, Bool-cases, any, Option, ℕ, List, String, ◌≡◌, err, ok, arith, refl, true, inr, inl,
  some, none, ◌∷◌, [],
}

module _ {Url Process : Type 0} (api : UrlApi Url) (id : String) (a : Answers Url Process) where
  -- Some round of a loop comes after the deadline.
  abbrev pub IsLate : List (Poll Url Process) → Type 0
  IsLate ps = any (λ p. p.late) ps ≡ true

  await_marker-answers :
      (g : ℕ) (ps : List (Poll Url Process)) (s : Supervisor Url Process)
      → IsLate ps
      → is_some ((await_marker api id g ps s).1) ≡ true
  unfolding await_marker
  await_marker-answers g [] s h = cc
  await_marker-answers g (p ∷ ps) s h =
      ground (arith, h, await_marker-answers g ps (generation_is_alive (p.before s) id g p.look).0)

  await_port-answers :
      (g port : ℕ) (ps : List (Poll Url Process)) (s : Supervisor Url Process)
      → IsLate ps
      → is_some ((await_port api id g port ps s).1) ≡ true
  unfolding await_port
  await_port-answers g port [] s h = cc
  await_port-answers g port (p ∷ ps) s h =
      ground
        (arith, h, await_port-answers g port ps (generation_is_alive (p.before s) id g p.look).0)

  await_answer-answers :
      (g : ℕ) (ps : List (Poll Url Process)) (s : Supervisor Url Process)
      → IsLate ps
      → is_some ((await_answer api id g ps s).1) ≡ true
  unfolding await_answer
  await_answer-answers g [] s h = cc
  await_answer-answers g (p ∷ ps) s h =
      ground (arith, h, await_answer-answers g ps (generation_is_alive (p.before s) id g p.look).0)

  and_then-answers :
      (A B : Type 0) (w : Waited Url Process A)
      (k : Supervisor Url Process → A → Waited Url Process B)
      → is_some (w.1) ≡ true
      → ((s : Supervisor Url Process) (x : A) → is_some ((k s x).1) ≡ true)
      → is_some ((and_then w k).1) ≡ true
  and_then-answers A B (s, none) k h keep = cc
  and_then-answers A B (s, some (err e)) k h keep = refl
  and_then-answers A B (s, some (ok x)) k h keep = keep s x

  await_token-answers :
      (g port : ℕ) (s : Supervisor Url Process) (found : Option (ParsedCandidate Url))
      → is_some ((await_token api id a g port s found).1) ≡ true
  unfolding await_token
  await_token-answers g port s (some c) = refl
  await_token-answers g port s none = ground arith

  await_candidate-answers :
      (g : ℕ) (port : Option ℕ) (s : Supervisor Url Process)
      → IsLate a.readiness
      → is_some ((await_candidate api id a g port s).1) ≡ true
  unfolding await_candidate await_fixed
  await_candidate-answers g none s h = await_marker-answers g a.readiness s h
  await_candidate-answers g (some port) s h =
      elim (Bool-cases ((generation_is_alive (a.before_first s) id g a.first).1)) [
        | inr dead ↦ rw dead refl
        | inl live ↦ rw live (
            and_then-answers _ _ _ _ (await_port-answers g port a.readiness _ h)
              (await_token-answers g port))
      ]

  finish_start-answers :
      (g : ℕ) (port : Option ℕ) (s : Supervisor Url Process)
      → IsLate a.readiness
      → IsLate a.confirmation
      → is_some ((finish_start api id a g port s).1) ≡ true
  unfolding finish_start
  finish_start-answers g port s h k =
      and_then-answers _ _ _ _ (await_candidate-answers g port s h) (λ s₁ c.
        and_then-answers _ _ _ _ (await_answer-answers g a.confirmation s₁ k) (λ s₂ done. refl))

  -- A start whose waiting loops reach their deadline answers: it never waits on.
  pub start_with_spec_answers :
      (spec : LaunchSpec) (s : Supervisor Url Process)
      → IsLate a.readiness
      → IsLate a.confirmation
      → is_some ((start_with_spec api id a spec s).1) ≡ true
  unfolding start_with_spec
  start_with_spec_answers spec s h k =
      elim (Result-cases (launch s id a.launch_look a.launched_at a.launch_observed a.spawned).1) [
        | inr (e, f) ↦ rw (f, start_with_spec) refl
        | inl (already r, f) ↦ rw (f, start_with_spec) refl
        | inl (launched g, f) ↦
            rw (f, start_with_spec) (finish_start-answers g spec.expected_port _ h k)
      ]
