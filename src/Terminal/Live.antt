-- ===== src/Terminal/Live.antt =====
-- The bookkeeping of the terminals (crates/daemon/src/terminal.rs,
-- crates/terminal-provider/src/lib.rs).
use dsh_desktop_shell.Terminal.Registry.{put, in_bounds, Session, PtyRegistry}
use dsh_desktop_shell.Terminal.Host.{record_owner, AgentSessionBinding, forget, TerminalHost}
use dsh_desktop_shell.Prelude.{
  subst, lookup-remove, lookup-insert, ite, text_discrete, remove, ℕ, lookup, Option, String, ◌≡◌,
  false, true, some, none,
}

module _ {Platform : Type 0} where
  -- A session under its key: it runs, within the bounds of the schema.
  abbrev pub FitSession : String → Session Platform → Type 0
  FitSession k s = (s.id ≡ k) × ((s.closed ≡ false) × (in_bounds s.cols s.rows ≡ true))

  -- Of a key: its session, its owner and its agent's binding.
  abbrev pub FitKey :
      String → Option (Session Platform) → Option ℕ → Option AgentSessionBinding → Type 0
  FitKey k (some s) (some owner) b = FitSession k s
  FitKey k (some s) none b = ⊥
  FitKey k none (some owner) b = ⊥
  FitKey k none none (some b) = ⊥
  FitKey k none none none = Unit

  abbrev pub Sound : TerminalHost Platform → Type 0
  Sound h =
      (k : String)
      → FitKey k (lookup text_discrete k h.registry.sessions) (lookup text_discrete k h.owners)
          (lookup text_discrete k h.bindings)

  abbrev pub with_sessions : TerminalHost Platform → PtyRegistry Platform → TerminalHost Platform
  with_sessions h registry = record h { registry = registry }

  put_key :
      {id k : String} {s : Session Platform} (t : Session Platform) (d : Dec (id ≡ k))
      (live : Option (Session Platform)) (owner : Option ℕ) (b : Option AgentSessionBinding)
      → (id ≡ k → live ≡ some s)
      → FitSession id t
      → FitKey k live owner b
      → FitKey k (ite d (some t) live) owner b
  put_key t (yes e) (some s) (some o) b found good key = subst (λ j. FitSession j t) e good
  put_key t (yes e) (some s) none b found good key = key
  put_key t (yes e) none owner b found good key = absurd (cc (found e))
  put_key t (no n) live owner b found good key = key

  pub put-Sound :
      (h : TerminalHost Platform) (id : String) (s t : Session Platform)
      → lookup text_discrete id h.registry.sessions ≡ some s
      → FitSession id t
      → Sound h
      → Sound (with_sessions h (put h.registry id t))
  put-Sound h id s t found good sound k =
      rw (lookup-insert text_discrete id k t h.registry.sessions) (
        put_key t (text_discrete id k) _ _ _
          (λ e. subst (λ j. lookup text_discrete j h.registry.sessions ≡ some s) e found) good
          (sound k))

  made_key :
      {id k : String} (s : Session Platform) (o : ℕ) (d : Dec (id ≡ k))
      (live : Option (Session Platform)) (owner : Option ℕ) (b : Option AgentSessionBinding)
      → FitSession id s
      → FitKey k live owner b
      → FitKey k (ite d (some s) live) (ite d (some o) owner) b
  made_key s o (yes e) live owner b good key = subst (λ j. FitSession j s) e good
  made_key s o (no n) live owner b good key = key

  bound_key :
      {id k : String} (s : Session Platform) (o : ℕ) (a : AgentSessionBinding) (d : Dec (id ≡ k))
      (live : Option (Session Platform)) (owner : Option ℕ) (b : Option AgentSessionBinding)
      → FitSession id s
      → FitKey k live owner b
      → FitKey k (ite d (some s) live) (ite d (some o) owner) (ite d (some a) b)
  bound_key s o a (yes e) live owner b good key = subst (λ j. FitSession j s) e good
  bound_key s o a (no n) live owner b good key = key

  pub record_owner-Sound :
      (h : TerminalHost Platform) (n : ℕ) (id : String) (s : Session Platform) (owner : ℕ)
      (b : Option AgentSessionBinding)
      → FitSession id s
      → Sound h
      → Sound
          (record_owner (with_sessions h (put (record h.registry { next_id = n }) id s)) id owner b)
  record_owner-Sound h n id s owner none good sound k =
      rw
        (
          lookup-insert text_discrete id k s h.registry.sessions,
          lookup-insert text_discrete id k owner h.owners,
        )
        (made_key s owner (text_discrete id k) _ _ _ good (sound k))
  record_owner-Sound h n id s owner (some b) good sound k =
      rw
        (
          lookup-insert text_discrete id k s h.registry.sessions,
          lookup-insert text_discrete id k owner h.owners,
          lookup-insert text_discrete id k b h.bindings,
        )
        (bound_key s owner b (text_discrete id k) _ _ _ good (sound k))

  forgotten_key :
      {id k : String} (d : Dec (id ≡ k)) (live : Option (Session Platform)) (owner : Option ℕ)
      (b : Option AgentSessionBinding)
      → FitKey k live owner b
      → FitKey k (ite d none live) (ite d none owner) (ite d none b)
  forgotten_key (yes e) live owner b key = tt
  forgotten_key (no n) live owner b key = key

  pub forget-Sound :
      (h : TerminalHost Platform) (id : String)
      → Sound h
      → Sound (
          forget
            (with_sessions h
              (record h.registry { sessions = remove text_discrete id h.registry.sessions }))
            id)
  forget-Sound h id sound k =
      rw
        (
          lookup-remove text_discrete id k h.registry.sessions,
          lookup-remove text_discrete id k h.owners,
          lookup-remove text_discrete id k h.bindings,
        )
        (forgotten_key (text_discrete id k) _ _ _ (sound k))
