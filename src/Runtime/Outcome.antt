-- ===== src/Runtime/Outcome.antt =====
-- How a start ends (crates/managed-runtime/src/supervisor.rs, `start_with_spec`).
use dsh_desktop_shell.Runtime.Types.{
  LaunchSpec, ManagedRuntimeReport, readiness_timeout, ParsedCandidate, process_exited,
  ManagedRuntimeError, Supervisor,
}
use dsh_desktop_shell.Runtime.State.{report, record_crash}
use dsh_desktop_shell.Runtime.Start.{
  start_with_spec, await_token, finish_start, await_fixed, await_candidate, await_grace,
  await_answer, and_then, Answers, give_up, await_port, Poll, await_marker, Waited,
}
use dsh_desktop_shell.Runtime.Sections.{
  Launch, launched, launch, publish, is_current, generation_is_alive, fail_start,
}
use dsh_desktop_shell.Runtime.Candidate.{parse_candidate, UrlApi}
use dsh_desktop_shell.Prelude.{
  sym, subst, ap, refl, Result-cases, Option-cases, Bool, Result, Bool-cases, Option, List, ℕ,
  String, ◌≡◌, err, ok, arith, false, true, inr, inl, some, none, ◌∷◌, [],
}

abbrev has_failed : {A : Type 0} → Option (Result ManagedRuntimeError A) → Bool
has_failed (some (err e)) = true
has_failed (some (ok a)) = false
has_failed none = false

module _ {Url Process : Type 0} (api : UrlApi Url) (id : String) (g : ℕ) where
  -- What a waiting loop leaves: if the answer is an error, the generation has no process, or it is
  -- not the current one any more.
  abbrev Left : {A : Type 0} → Waited Url Process A → Type 0
  Left w = has_failed (w.1) ≡ true → is_current (w.0) id g ≡ true → w.0.process ≡ none

  fail_start-Left :
      (s : Supervisor Url Process) (clock : Option ℕ) (e : ManagedRuntimeError)
      → is_current (fail_start s id g clock e).0 id g ≡ true
      → (fail_start s id g clock e).0.process ≡ none
  unfolding fail_start record_crash
  fail_start-Left s clock e h = ground (arith, h)

  give_up-Left :
      (A : Type 0) (s : Supervisor Url Process) (clock : Option ℕ) (e : ManagedRuntimeError)
      → Left {A = A} (give_up api id g s clock e)
  give_up-Left A s clock e f = fail_start-Left s clock e

  await_marker-Left :
      (ps : List (Poll Url Process)) (s : Supervisor Url Process)
      → Left (await_marker api id g ps s)
  unfolding await_marker
  await_marker-Left [] s = λ f. cc
  await_marker-Left (p ∷ ps) s =
      let s' = (generation_is_alive (p.before s) id g p.look).0 in
      elim (Bool-cases (generation_is_alive (p.before s) id g p.look).1) [
        | inr dead ↦
            rw dead (give_up-Left (ParsedCandidate Url) (p.between s') p.look.clock process_exited)
        | inl live ↦ rw live (elim (Option-cases p.received) [
          | inr (value, e) ↦ rw e (elim (Result-cases (parse_candidate api value none)) [
            | inl (c, f) ↦ rw f (λ f. cc)
            | inr (e', f) ↦ rw f (give_up-Left (ParsedCandidate Url) (p.between s') p.look.clock e')
          ])
          | inl e ↦ rw e (elim (Bool-cases p.late) [
            | inl late ↦
                rw late
                  (give_up-Left (ParsedCandidate Url) (p.between s') p.look.clock readiness_timeout)
            | inr early ↦ rw early (await_marker-Left ps s')
          ])
        ])
      ]

  await_port-Left :
      (port : ℕ) (ps : List (Poll Url Process)) (s : Supervisor Url Process)
      → Left (await_port api id g port ps s)
  unfolding await_port
  await_port-Left port [] s = λ f. cc
  await_port-Left port (p ∷ ps) s =
      let s' = (generation_is_alive (p.before s) id g p.look).0 in
      λ f h. ground (
        arith,
        f,
        h,
        give_up-Left (Option (ParsedCandidate Url)) (p.between s') p.look.clock process_exited,
        give_up-Left (Option (ParsedCandidate Url)) (p.between s') p.look.clock readiness_timeout,
        await_port-Left port ps s',
      )

  await_grace-Left :
      (port : ℕ) (ps : List (Poll Url Process)) (s : Supervisor Url Process)
      → Left ((await_grace api id g port ps s).0, some ((await_grace api id g port ps s).1))
  unfolding await_grace
  await_grace-Left port [] s = λ f. cc
  await_grace-Left port (p ∷ ps) s =
      let s' = (generation_is_alive (p.before s) id g p.look).0 in
      λ f h. ground (
        arith,
        f,
        h,
        fail_start-Left (p.between s') p.look.clock process_exited,
        await_grace-Left port ps s',
      )

  await_answer-Left :
      (ps : List (Poll Url Process)) (s : Supervisor Url Process)
      → Left (await_answer api id g ps s)
  unfolding await_answer
  await_answer-Left [] s = λ f. cc
  await_answer-Left (p ∷ ps) s =
      let s' = (generation_is_alive (p.before s) id g p.look).0 in
      λ f h. ground (
        arith,
        f,
        h,
        give_up-Left (Unit {0}) (p.between s') p.look.clock process_exited,
        give_up-Left (Unit {0}) (p.between s') p.look.clock readiness_timeout,
        await_answer-Left ps s',
      )

  and_then-Left :
      (A B : Type 0) (w : Waited Url Process A)
      (k : Supervisor Url Process → A → Waited Url Process B)
      → Left {A = A} w
      → ((s : Supervisor Url Process) (a : A) → Left {A = B} (k s a))
      → Left {A = B} (and_then w k)
  and_then-Left A B (s, none) k l keep = λ f. cc
  and_then-Left A B (s, some (err e)) k l keep = λ f. l refl
  and_then-Left A B (s, some (ok a)) k l keep = keep s a

module _ {Url Process : Type 0} (api : UrlApi Url) (id : String) (a : Answers Url Process) where
  await_token-Left :
      (g port : ℕ) (s : Supervisor Url Process) (found : Option (ParsedCandidate Url))
      → Left api id g (await_token api id a g port s found)
  unfolding await_token
  await_token-Left g port s (some c) = λ f. cc
  await_token-Left g port s none =
      λ f h. ground (arith, f, h, await_grace-Left api id g port a.grace s)

  await_fixed-Left :
      (g port : ℕ) (s : Supervisor Url Process) → Left api id g (await_fixed api id a g port s)
  unfolding await_fixed
  await_fixed-Left g port s =
      let s' = (generation_is_alive (a.before_first s) id g a.first).0 in
      elim (Bool-cases (generation_is_alive (a.before_first s) id g a.first).1) [
        | inr dead ↦ rw dead (
            give_up-Left api id g (ParsedCandidate Url) (a.after_first s') a.first.clock
              process_exited)
        | inl live ↦ rw live (
            and_then-Left api id g (Option (ParsedCandidate Url)) (ParsedCandidate Url) _ _
              (await_port-Left api id g port a.readiness s') (await_token-Left g port))
      ]

  await_candidate-Left :
      (g : ℕ) (port : Option ℕ) (s : Supervisor Url Process)
      → Left api id g (await_candidate api id a g port s)
  unfolding await_candidate
  await_candidate-Left g none s = await_marker-Left api id g a.readiness s
  await_candidate-Left g (some port) s = await_fixed-Left g port s

  publish-Left :
      (g now : ℕ) (s : Supervisor Url Process) (c : ParsedCandidate Url)
      → a.published_at ≡ some now
      → Left api id g (
        (publish s id g a.last a.published_at c).0,
        some ((publish s id g a.last a.published_at c).1),
      )
  unfolding publish report
  publish-Left g now s c t = λ f h. ground (arith, f, h, t)

  finish_start-Left :
      (g now : ℕ) (port : Option ℕ) (s : Supervisor Url Process)
      → a.published_at ≡ some now
      → Left api id g (finish_start api id a g port s)
  unfolding finish_start
  finish_start-Left g now port s t =
      and_then-Left api id g (ParsedCandidate Url) ManagedRuntimeReport _ _
        (await_candidate-Left g port s)
        (λ s₁ c.
          and_then-Left api id g (Unit {0}) ManagedRuntimeReport _ _
            (await_answer-Left api id g a.confirmation s₁)
            (λ s₂ done. publish-Left g now (a.before_last s₂) c t))

  module _ (spec : LaunchSpec) (s : Supervisor Url Process) (g : ℕ) where
    abbrev launching : Supervisor Url Process × Result ManagedRuntimeError Launch
    launching = launch s id a.launch_look a.launched_at a.launch_observed a.spawned

    start_launched :
        launching.1 ≡ ok (launched g)
        → start_with_spec api id a spec s ≡ finish_start api id a g spec.expected_port (launching.0)
    unfolding start_with_spec
    start_launched l = rw (l, start_with_spec) refl

  -- A start that launched a generation and fails, by an exit, a bad marker, a deadline or at the
  -- publication, whatever other calls do between its blocks, leaves no process of that generation:
  -- if the generation is still the current one then no process is retained. (The clock can be read
  -- at the publication.)
  pub start_with_spec_failed :
      (spec : LaunchSpec) (s : Supervisor Url Process) (g now : ℕ) (e : ManagedRuntimeError)
      → a.published_at ≡ some now
      → (launch s id a.launch_look a.launched_at a.launch_observed a.spawned).1 ≡ ok (launched g)
      → (start_with_spec api id a spec s).1 ≡ some (err e)
      → is_current (start_with_spec api id a spec s).0 id g ≡ true
      → (start_with_spec api id a spec s).0.process ≡ none
  start_with_spec_failed spec s g now e t l f h =
      let left = finish_start-Left g now spec.expected_port (launching spec s g).0 t in
      subst (λ w. has_failed (w.1) ≡ true → is_current (w.0) id g ≡ true → w.0.process ≡ none)
        (sym (start_launched spec s g l)) left (ap has_failed f) h
