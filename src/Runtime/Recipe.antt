-- ===== src/Runtime/Recipe.antt =====
-- Which recipe a restart uses (crates/managed-runtime/src/supervisor.rs, `start_managed_environment`
-- and `restart_managed_environment`).
use dsh_desktop_shell.Runtime.Types.{ManagedRuntimeError, LaunchSpec, Supervisor}
use dsh_desktop_shell.Runtime.State.{Look, refresh_exit}
use dsh_desktop_shell.Runtime.Stop.{begin_restart}
use dsh_desktop_shell.Runtime.Sections.{launch, prepare_start}
use dsh_desktop_shell.Runtime.Start.{start_with_spec, Answers}
use dsh_desktop_shell.Runtime.Calls.{start_managed_environment, Target}
use dsh_desktop_shell.Runtime.Candidate.{UrlApi}
use dsh_desktop_shell.Prelude.{
  text_discrete, does_iff, ◌≢◌, ℕ, Option, String, ◌≡◌, err, ok, arith, some, none,
}

module _ {Url Process : Type 0} (api : UrlApi Url) (t : Target) (a : Answers Url Process) where
  -- A start of an environment whose process cannot be spawned, while the supervisor still has the
  -- generation of another, stopped environment: from then on a restart of that other environment
  -- starts with the recipe of the one that failed, under the other's id.
  pub failed_start_swaps_recipe :
      (s : Supervisor Url Process) (own : String) (spec : LaunchSpec) (e : ManagedRuntimeError)
      (look look' : Look Process) (observed : Option ℕ)
      → s.process ≡ none
      → s.environment_id ≡ some own
      → s.generation ≢ 0
      → t.built ≡ ok spec
      → a.spawned ≡ err e
      → (begin_restart
          (start_managed_environment api t look observed a s).0
          own
          s.generation
          look').1
        ≡ ok (none, s.endpoint, some spec)
  unfolding start_managed_environment start_with_spec prepare_start launch begin_restart
      refresh_exit
  failed_start_swaps_recipe s own spec e look look' observed p o g b f =
      ground (arith, p, o, g, b, f, does_iff (text_discrete own own))
