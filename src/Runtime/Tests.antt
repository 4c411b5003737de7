-- ===== src/Runtime/Tests.antt =====
-- The supervisor's theorems at concrete calls (crates/managed-runtime/src/supervisor.rs). URLs are
-- their texts and processes are numbers.
use dsh_desktop_shell.Runtime.Surface.{verified_surface_binding-Verified, Verified}
use dsh_desktop_shell.Runtime.Recipe.{failed_start_swaps_recipe}
use dsh_desktop_shell.Runtime.Stop.{begin_restart}
use dsh_desktop_shell.Runtime.Outcome.{start_with_spec_failed}
use dsh_desktop_shell.Browser.UrlPolicy.{split_separator}
use dsh_desktop_shell.Runtime.Deadline.{start_with_spec_answers}
use dsh_desktop_shell.Runtime.Sections.{
  bind_surface, check_restart, publish, generation_is_alive, prepare_start, launch,
}
use dsh_desktop_shell.Runtime.Recovery.{auto_restart_bounded, window_budget, after_crashes}
use dsh_desktop_shell.Runtime.Binding.{parse_candidate-Sound, Sound}
use dsh_desktop_shell.Runtime.Types.{
  not_started, unowned, spawn_failed, graceful, stopped, ManagedRuntimeError,
  VerifiedSurfaceBinding, ManagedRuntimeReport, stale_generation, healthy, Supervisor,
  RecoveryState, ParsedCandidate, LaunchSpec,
}
use dsh_desktop_shell.Runtime.Steps.{
  looks, prepares_start, start, runs, Reach-Inv, launches, apply, Section,
}
use dsh_desktop_shell.Runtime.State.{
  evidence_of, recovery_budget, auto_restart_eligible, next_recovery, record_crash, report,
  refresh_exit, initial, Look, is_some,
}
use dsh_desktop_shell.Runtime.Start.{
  await_answer, await_marker, await_candidate, Poll, finish_start, start_with_spec, Answers,
}
use dsh_desktop_shell.Runtime.Invariant.{Inv}
use dsh_desktop_shell.Runtime.Candidate.{
  strip_prefix, is_token, has_authority, accepts_query, loopback_endpoint, is_plain_loopback,
  parse_candidate, UrlApi,
}
use dsh_desktop_shell.Runtime.Calls.{
  verified_surface_binding, stop_managed_environment, start_managed_environment, Target,
}
use dsh_desktop_shell.Prelude.{
  ◌<◌, ◌≤◌, err, Result, decimal_from, dec_of, text_discrete, Bool, does, Option, ℕ, String,
  if◌then◌else◌, ◌≡◌, ok, arith, refl, false, true, some, none, ◌∷◌, [],
}

-- A parser of one URL.
abbrev bootstrap : String
bootstrap = "http://127.0.0.1:4100/?token=abcdefghijklmnopqrstuvwxyz0123456789ABCDEFG"

abbrev api : UrlApi String
api = record {
  parse = λ t. if does (text_discrete t bootstrap) then some t else none;
  scheme = λ u. "http";
  host_str = λ u. some "127.0.0.1";
  username = λ u. "";
  password = λ u. none;
  path = λ u. "/";
  fragment = λ u. none;
  query = λ u. some "token=abcdefghijklmnopqrstuvwxyz0123456789ABCDEFG";
  port = λ u. some 4100;
}

abbrev candidate : ParsedCandidate String
candidate = record {
  endpoint = loopback_endpoint 4100 "managed_process_output" "owned_generation_output_and_tcp";
  bootstrap_url = some bootstrap;
}

bootstrap_accepted : parse_candidate api bootstrap (some 4100) ≡ ok candidate
unfolding parse_candidate is_plain_loopback accepts_query has_authority is_token text_discrete
    dec_of strip_prefix split_separator decimal_from
bootstrap_accepted = refl

parse_candidate-Sound_example : (url : String) × Sound api bootstrap (some 4100) candidate url
parse_candidate-Sound_example =
    parse_candidate-Sound api bootstrap (some 4100) candidate bootstrap_accepted

abbrev alive_at : ℕ → Look ℕ
alive_at now = record { exited = λ p. false; clock = some now }

abbrev dead_at : ℕ → Look ℕ
dead_at now = record { exited = λ p. true; clock = some now }

abbrev spec : LaunchSpec
spec = record {
  executable = "dsh";
  args = "web" ∷ [];
  cwd = none;
  environment = [];
  expected_port = none;
}

abbrev poll_of : ℕ → Option String → Bool → Bool → Poll String ℕ
poll_of now received probed late = record {
  before = λ s. s;
  between = λ s. s;
  look = alive_at now;
  received = received;
  probed = probed;
  late = late;
}

abbrev answers : Answers String ℕ
answers = record {
  launch_look = alive_at 10;
  launched_at = some 10;
  launch_observed = some 10;
  spawned = ok 7;
  before_first = λ s. s;
  first = alive_at 11;
  after_first = λ s. s;
  readiness = poll_of 12 none false false ∷ poll_of 13 (some bootstrap) false true ∷ [];
  grace = [];
  confirmation = poll_of 14 none true true ∷ [];
  before_last = λ s. s;
  last = alive_at 15;
  published_at = some 16;
}

-- The same start, whose process exits before it answers.
abbrev exiting : Answers String ℕ
exiting = record answers { last = dead_at 15 }

abbrev home : Target
home = record { id = "home"; is_managed = true; auto_restart_on_crash = true; built = ok spec }

abbrev started : Supervisor String ℕ
started = (start_managed_environment api home (alive_at 9) (some 9) answers initial).0

healthy_after_start : started.state ≡ some healthy
unfolding start_managed_environment prepare_start start_with_spec launch finish_start
    await_candidate await_marker await_answer generation_is_alive publish refresh_exit report
    initial parse_candidate is_plain_loopback accepts_query has_authority is_token text_discrete
    dec_of strip_prefix split_separator decimal_from
healthy_after_start = refl

start_with_spec_answers_example :
    is_some ((start_with_spec api "home" answers spec initial).1) ≡ true
start_with_spec_answers_example = start_with_spec_answers api "home" answers spec initial refl refl

start_with_spec_failed_example : (start_with_spec api "home" exiting spec initial).0.process ≡ none
unfolding start_with_spec launch finish_start await_candidate await_marker await_answer
    generation_is_alive publish refresh_exit report initial parse_candidate is_plain_loopback
    accepts_query has_authority is_token text_discrete dec_of strip_prefix split_separator
    decimal_from record_crash next_recovery
start_with_spec_failed_example =
    start_with_spec_failed api "home" exiting spec initial 1 16 stale_generation refl refl refl refl

-- The same start, while another call has started a generation of its own.
abbrev superseded : Answers String ℕ
superseded = record answers { before_last = λ s. record s { generation = 2; process = some 8 } }

-- It is told so, and leaves the other generation's process alone.
superseded_start :
    ((start_with_spec api "home" superseded spec initial).1 ≡ some (err stale_generation))
    × ((start_with_spec api "home" superseded spec initial).0.process ≡ some 8)
unfolding start_with_spec launch finish_start await_candidate await_marker await_answer
    generation_is_alive publish refresh_exit report initial parse_candidate is_plain_loopback
    accepts_query has_authority is_token text_discrete dec_of strip_prefix split_separator
    decimal_from record_crash next_recovery
superseded_start = (refl, refl)

abbrev launch_home : Section String ℕ
launch_home = launches "home" (alive_at 10) (some 10) (some 10) (ok 7)

Reach-Inv_example : Inv (apply initial launch_home)
Reach-Inv_example = Reach-Inv (runs start launch_home)

-- A launch with automatic restarts whose process has exited.
abbrev crash_home : Supervisor String ℕ
crash_home =
    apply
      (apply (apply initial (prepares_start "home" true spec (alive_at 9) (some 9))) launch_home)
      (looks "home" 1 (dead_at 20))

auto_restart_bounded_example :
    (r : RecoveryState) × (crash_home.recovery ≡ some r)
    × (1 ≤ r.crash_count)
    × (r.crash_count < recovery_budget)
    × (crash_home.process ≡ none)
    × (is_some crash_home.retained_spec ≡ true)
unfolding apply initial prepare_start launch generation_is_alive refresh_exit record_crash
    next_recovery auto_restart_eligible
auto_restart_bounded_example =
    auto_restart_bounded
      (runs (runs (runs start (prepares_start "home" true spec (alive_at 9) (some 9))) launch_home)
        (looks "home" 1 (dead_at 20)))
      refl

abbrev home_binding : VerifiedSurfaceBinding String
home_binding = record { generation = 1; port = 4100; bootstrap_url = bootstrap }

verified_surface_binding-Verified_example :
    Verified
      (verified_surface_binding api home 1 (alive_at 30) answers (alive_at 31) started).0
      "home"
      (alive_at 31)
      home_binding
    × (◌≡◌ {A = ℕ} 1 1)
    × (0 < 1)
unfolding start_managed_environment prepare_start start_with_spec launch finish_start
    await_candidate await_marker await_answer generation_is_alive publish refresh_exit report
    initial parse_candidate is_plain_loopback accepts_query has_authority is_token text_discrete
    dec_of strip_prefix split_separator decimal_from verified_surface_binding check_restart
    bind_surface auto_restart_eligible
verified_surface_binding-Verified_example =
    verified_surface_binding-Verified api home 1 (alive_at 30) (alive_at 31) answers started
      home_binding refl

abbrev stop_home : Supervisor String ℕ × Result ManagedRuntimeError ManagedRuntimeReport
stop_home =
    stop_managed_environment api home 1 (alive_at 40) (some 40) (λ p. some graceful) (λ port. true)
      (some 41) started

abbrev stop_report : ManagedRuntimeReport
stop_report = record {
  schema_version = 1;
  environment_id = "home";
  ownership = "managed";
  state = stopped;
  generation = 1;
  instance_id = none;
  process_ownership = unowned;
  lifecycle_mutation = "allowed";
  readiness = not_started;
  endpoint = none;
  stop_disposition = graceful;
  recovery = none;
  observed_at_unix_ms = 41;
  evidence = evidence_of "MANAGED_PROCESS_TREE_STOPPED" "info";
}

-- The environment "work" cannot be spawned, after "home" has crashed.
abbrev work : Target
work = record home { id = "work"; built = ok (record spec { executable = "other" }) }

failed_start_swaps_recipe_example :
    (begin_restart
      (start_managed_environment api work
        (alive_at 50)
        (some 50)
        (record answers { spawned = err (spawn_failed "no such file") })
        crash_home).0
      "home"
      1
      (alive_at 60)).1
    ≡ ok (none, none, some (record spec { executable = "other" }))
unfolding apply initial prepare_start launch generation_is_alive refresh_exit record_crash
    next_recovery text_discrete dec_of
failed_start_swaps_recipe_example =
    failed_start_swaps_recipe api work
      (record answers { spawned = err (spawn_failed "no such file") }) crash_home "home"
      (record spec { executable = "other" }) (spawn_failed "no such file") (alive_at 50)
      (alive_at 60) (some 50) refl refl (omega arith) refl refl

window_budget_example :
    (r : RecoveryState) × (after_crashes none (5000 ∷ 6000 ∷ 65000 ∷ []) ≡ some r)
    × (r.crash_count ≡ 3)
    × (r.safe_stop ≡ true)
window_budget_example = window_budget 5000 (6000 ∷ 65000 ∷ []) (omega arith)
