-- ===== src/Terminal/Gate.antt =====
-- Who may work on a terminal (crates/daemon/src/terminal.rs).
use mathlib.Core.Option
use dsh_desktop_shell.Terminal.Requests.{
  TerminalCloseRequest, TerminalResizeRequest, TerminalWriteRequest, TerminalAgentIdentity,
  TerminalCreateRequest,
}
use dsh_desktop_shell.Daemon.Types.{DaemonMethodError}
use dsh_desktop_shell.Broker.State.{enforce_dispatch}
use dsh_desktop_shell.Terminal.Host.{
  binding, agent_binding_from, owner, TerminalHost, AgentSessionBinding,
}
use dsh_desktop_shell.Terminal.Handlers.{
  gate_if_agent, malformed, check_owner, Terminals, handle_close, map_broker_error, handle_resize,
  query_of, handle_write, admit_change, handle_create, gate_agent, TerminalHandler, TerminalContext,
  TerminalApi,
}
use dsh_desktop_shell.Prelude.{
  Result, Bool, ◌⊎◌, ◌≢◌, Result-cases, String, if◌then◌else◌, ◌≡◌, err, ok, arith, refl, false,
  true, inr, inl, some,
}

pub data Operation : Type 0 where
  creates writes resizes closes : Operation

module _ {Json Platform Output : Type 0} (api : TerminalApi Json) where
  unfoldable pub handle : Operation → TerminalHandler Json Platform Output
  handle creates = handle_create api
  handle writes = handle_write api
  handle resizes = handle_resize api
  handle closes = handle_close api

module _ {Json Platform : Type 0} (context : TerminalContext Json Platform) where
  -- The broker does not let the agent pass.
  abbrev pub Blocked : AgentSessionBinding → Type 0
  Blocked b = enforce_dispatch context.broker (query_of b context.now) ≢ ok tt

  -- Another connection owns the session, or none, or it is an agent's that is blocked.
  abbrev pub Closed : TerminalHost Platform → String → Type 0
  Closed h id =
      (owner h id ≢ some context.connection_id)
      ⊎ ((b : AgentSessionBinding) × ((binding h id ≡ some b) × Blocked b))

  abbrev pub Barred : TerminalApi Json → Operation → TerminalHost Platform → Json → Type 0
  Barred api creates h payload =
      (request : TerminalCreateRequest) × ((identity : TerminalAgentIdentity) × ((api.create_request
              payload
            ≡ some request)
          × ((request.agent ≡ some identity) × Blocked (agent_binding_from identity))))
  Barred api writes h payload =
      (request : TerminalWriteRequest) × ((api.write_request payload ≡ some request)
        × Closed h request.session_id)
  Barred api resizes h payload =
      (request : TerminalResizeRequest) × ((api.resize_request payload ≡ some request)
        × Closed h request.session_id)
  Barred api closes h payload =
      (request : TerminalCloseRequest) × ((api.close_request payload ≡ some request)
        × Closed h request.session_id)

module _ {Json Platform : Type 0} (api : TerminalApi Json)
    (context : TerminalContext Json Platform) where
  gate_agent-Blocked :
      (b : AgentSessionBinding)
      → Blocked context b
      → (e : DaemonMethodError) × (gate_agent api context b ≡ err e)
  unfolding gate_agent
  gate_agent-Blocked b blocked =
      elim (Result-cases (enforce_dispatch context.broker (query_of b context.now))) [
        | inl (u, e) ↦ absurd (blocked e)
        | inr (x, e) ↦ (map_broker_error api x, ground (arith, e))
      ]

  check_owner_passed :
      (h : TerminalHost Platform) (id : String) (u : Unit {0})
      → check_owner api h context id ≡ ok u
      → owner h id ≡ some context.connection_id
  unfolding check_owner
  check_owner_passed h id u e = ground (arith, e)

  admit_change-Closed :
      (h : TerminalHost Platform) (id : String)
      → Closed context h id
      → (e : DaemonMethodError) × (admit_change api h context id ≡ err e)
  admit_change-Closed h id closed = elim (Result-cases (check_owner api h context id)) [
    | inr (x, e) ↦ (x, rw e refl)
    | inl (u, e) ↦ elim closed [
      | inl foreign ↦ absurd (foreign (check_owner_passed h id u e))
      | inr (b, (bound, blocked)) ↦
          let (x, gated) = gate_agent-Blocked b blocked in (x, rw (e, bound) gated)
    ]
  ]

  abbrev Declined :
      {Output : Type 0}
      → Terminals Platform Output
      → Terminals Platform Output × Result DaemonMethodError Json
      → Type 0
  Declined t o = (o.0 ≡ t) × ((e : DaemonMethodError) × (o.1 ≡ err e))

  -- The shape that the handlers share: a check of the request, and a gate before the change.
  gated_refused :
      {Output : Type 0} (t : Terminals Platform Output) (valid : Bool)
      (gate : Result DaemonMethodError (Unit {0})) (x : DaemonMethodError)
      (change : Unit {0} → Terminals Platform Output × Result DaemonMethodError Json)
      → gate ≡ err x
      → Declined t (
          if valid
          then elim gate [ err e ↦ (t, err e) | ok u ↦ change u ]
          else (t, err (malformed api)))
  gated_refused t true gate x change e = rw e (refl, (x, refl))
  gated_refused t false gate x change e = (refl, (malformed api, refl))

  -- A create, write, resize or close is answered with an error and changes neither the terminals
  -- nor the routes of their events, if the agent of the request, or of the session that it names,
  -- does not pass the broker's gate, or if its connection does not own that session.
  pub unauthorised_refused :
      {Output : Type 0} (operation : Operation) (t : Terminals Platform Output) (payload : Json)
      → Barred context api operation t.host payload
      → ((handle api operation t context payload).0 ≡ t)
        × ((e : DaemonMethodError) × ((handle api operation t context payload).1 ≡ err e))
  unfolding handle handle_create handle_write handle_resize handle_close
  unauthorised_refused creates t payload (request, (identity, (parsed, (agent, blocked)))) =
      let (x, gated) = gate_agent-Blocked (agent_binding_from identity) blocked in
      let refused : gate_if_agent api context (Option.map agent_binding_from request.agent)
          ≡ err x =
        rw agent gated in
      rw (parsed, handle, handle_create) (gated_refused t _ _ x _ refused)
  unauthorised_refused writes t payload (request, (parsed, closed)) =
      let (x, refused) = admit_change-Closed t.host request.session_id closed in
      rw (parsed, handle, handle_write) (gated_refused t _ _ x _ refused)
  unauthorised_refused resizes t payload (request, (parsed, closed)) =
      let (x, refused) = admit_change-Closed t.host request.session_id closed in
      rw (parsed, handle, handle_resize) (gated_refused t _ _ x _ refused)
  unauthorised_refused closes t payload (request, (parsed, closed)) =
      let (x, refused) = admit_change-Closed t.host request.session_id closed in
      rw (parsed, handle, handle_close) (gated_refused t _ _ x _ refused)
