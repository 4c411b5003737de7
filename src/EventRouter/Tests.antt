-- ===== src/EventRouter/Tests.antt =====
-- The event router's theorems on a router of two connections (crates/daemon/src/events.rs).
use dsh_desktop_shell.EventRouter.Refinement.{spawn_refines}
use dsh_desktop_shell.EventRouter.View.{
  start, run_view, run, Op, Matches, registers, subscribes, publishes, receives, tears_down,
}
use dsh_desktop_shell.EventRouter.State.{
  RouterEvent, Router, terminal, browser, spawn, register, subscribe, unsubscribe, publish, receive,
  session_id,
}
use dsh_desktop_shell.Prelude.{List, ℕ_discrete, text_discrete, ℕ, ◌≡◌, refl, some, ◌∷◌, []}

-- Connections 1 and 2; the session "t" is of connection 1.
abbrev two_connections : Router ℕ
two_connections = let r = register spawn in let r = register (r.0) in subscribe (r.0) 1 "t"

abbrev output : RouterEvent ℕ
output = terminal "t" 7

-- A close from another connection does not take the subscription away.
unsubscribe_other : (unsubscribe two_connections 2 "t").sessions ≡ ("t", 1) ∷ []
unfolding spawn register subscribe unsubscribe text_discrete ℕ_discrete
unsubscribe_other = refl

receive_published : (receive (publish two_connections output) 1).1 ≡ some output
unfolding spawn register subscribe publish receive text_discrete ℕ_discrete
receive_published = refl

session_of_browser : session_id {Content = ℕ} (browser "b" 0) ≡ "b"
session_of_browser = refl

abbrev some_calls : List (Op ℕ)
some_calls =
    registers ∷ registers ∷ subscribes 1 "t" ∷ publishes output ∷ tears_down 1 ∷ receives 1 ∷ []

spawn_refines_example :
    Matches (run spawn some_calls).0 (run_view start some_calls).0
    × ((run spawn some_calls).1 ≡ (run_view start some_calls).1)
spawn_refines_example = spawn_refines some_calls
