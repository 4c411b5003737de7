-- ===== src/EventRouter/Refinement.antt =====
-- The event router implements its promise (crates/daemon/src/events.rs).
use mathlib.Core.Option
use dsh_desktop_shell.EventRouter.State.{
  spawn, try_send, receive, session_id, is_owner, RouterEvent, Router, unsubscribe_all, unsubscribe,
  subscribe, register, publish,
}
use dsh_desktop_shell.Prelude.{
  false, true, subst, ◌&&◌, none, length-take, Bool, zero, suc, ltb, if◌then◌else◌, ◌++◌, take, ◌≤◌,
  some, length, modify, sym, ite, Option, lookup-retain_absent, retain, UniqueKeys, ◌∙◌,
  lookup-modify, List, ℕ_discrete, lookup-remove, ◌==◌, UniqueKeys-remove, not, lookup-insert,
  u64_suc, text_discrete, lookup, UniqueKeys-insert, Bool-cases, ap, UniqueKeys-retain, String,
  Option-cases, ℕ, ◌≡◌, arith, refl, inr, inl, ◌∷◌, [],
}
use dsh_desktop_shell.EventRouter.View.{
  offer, oldest_of, start, rest_of, run_view, Op, run, apply, drop_owner, Matches, View, apply_view,
  registers, subscribes, unsubscribes, publishes, receives, tears_down,
}

lookup-retain_owners :
    (key : ℕ) (id : String) (m : List (String × ℕ))
    → UniqueKeys text_discrete m
    → lookup text_discrete id (retain (λ s. not (s.1 == key)) m)
      ≡ drop_owner key (lookup text_discrete id m)
lookup-retain_owners key id [] u = refl
lookup-retain_owners key id ((k, owner) ∷ m) u = ground (
  arith,
  u.0,
  lookup-retain_absent text_discrete k (λ s. not (s.1 == key)) m u.0,
  lookup-retain_owners key id m u.1,
)

module _ {Content : Type 0} where
  subscribe-Matches :
      (r : Router Content) (v : View Content) (key : ℕ) (id : String)
      → Matches r v
      → Matches (subscribe r key id) (apply_view v (subscribes key id)).0
  unfolding subscribe apply_view
  subscribe-Matches r v key id m = record {
    unique = UniqueKeys-insert text_discrete id key r.sessions m.unique;
    same_next = m.same_next;
    same_subscriber =
        λ i. ground (arith, lookup-insert text_discrete id i key r.sessions, m.same_subscriber i);
    same_sender = m.same_sender;
    same_queue = m.same_queue;
    bounded = m.bounded;
  }

  abbrev Bounded : Option (List (RouterEvent Content)) → Type 0
  Bounded held = (q : List (RouterEvent Content)) → held ≡ some q → length q ≤ 256

  opened-Bounded :
      {P : Type 0} (d : Dec P) (held : Option (List (RouterEvent Content)))
      → Bounded held
      → Bounded (ite d (some []) held)
  opened-Bounded (yes p) held b q e = ground (arith, e)
  opened-Bounded (no n) held b q e = b q e

  length-take_le : (n : ℕ) (queue : List (RouterEvent Content)) → length (take n queue) ≤ n
  length-take_le n queue = omega (arith, length-take n queue)

  offer-Bounded :
      (x : RouterEvent Content) (held : Option (List (RouterEvent Content)))
      → Bounded (offer x held)
  offer-Bounded x none q e = cc
  offer-Bounded x (some p) q e =
      let same : take 256 (p ++ (x ∷ [])) ≡ q = ground (arith, e) in
      subst (λ l. length l ≤ 256) same (length-take_le 256 (p ++ (x ∷ [])))

  published-Bounded :
      (b : Bool) (x : RouterEvent Content) (held : Option (List (RouterEvent Content)))
      → Bounded held
      → Bounded (if b then offer x held else held)
  published-Bounded true x held h = offer-Bounded x held
  published-Bounded false x held h = h

  taken-Bounded :
      {P : Type 0} (d : Dec P) (held : Option (List (RouterEvent Content)))
      → Bounded held
      → Bounded (ite d (rest_of held) held)
  taken-Bounded (yes p) none b q e = cc
  taken-Bounded (yes p) (some []) b q e = b q e
  taken-Bounded (yes p) (some (x ∷ rest)) b q e = ground (arith, e, b (x ∷ rest) refl)
  taken-Bounded (no n) held b q e = b q e

  register-Matches :
      (r : Router Content) (v : View Content)
      → Matches r v
      → Matches (register r).0 (apply_view v registers).0
  unfolding register apply_view
  register-Matches r v m = record {
    unique = m.unique;
    same_next = ap u64_suc m.same_next;
    same_subscriber = m.same_subscriber;
    same_sender = λ k. ground (
      arith,
      lookup-insert ℕ_discrete (u64_suc r.next_connection) k tt r.connections,
      ap u64_suc m.same_next,
      m.same_sender k,
    );
    same_queue = λ k. ground (
      arith,
      lookup-insert ℕ_discrete (u64_suc r.next_connection) k [] r.channels,
      ap u64_suc m.same_next,
      m.same_queue k,
    );
    bounded = λ k. opened-Bounded (ℕ_discrete (u64_suc v.next) k) (v.queue k) (m.bounded k);
  }

  unsubscribe-Matches :
      (r : Router Content) (v : View Content) (key : ℕ) (id : String)
      → Matches r v
      → Matches (unsubscribe r key id) (apply_view v (unsubscribes key id)).0
  unfolding unsubscribe apply_view
  unsubscribe-Matches r v key id m =
      elim (Bool-cases (is_owner (lookup text_discrete id r.sessions) key)) [
        | inl e ↦
            rw (e, unsubscribe)
              (record {
                unique = UniqueKeys-remove text_discrete id r.sessions m.unique;
                same_next = m.same_next;
                same_subscriber = λ i. ground (
                  arith,
                  lookup-remove text_discrete id i r.sessions,
                  m.same_subscriber i,
                  m.same_subscriber id,
                  e,
                );
                same_sender = m.same_sender;
                same_queue = m.same_queue;
                bounded = m.bounded;
              })
        | inr e ↦
            rw (e, unsubscribe)
              (record {
                unique = m.unique;
                same_next = m.same_next;
                same_subscriber = λ i. ground (arith, m.same_subscriber i, m.same_subscriber id, e);
                same_sender = m.same_sender;
                same_queue = m.same_queue;
                bounded = m.bounded;
              })
      ]

  -- A queue that is no longer than its bound is cut by it only if it is full.
  take-nil : (n : ℕ) → take {A = RouterEvent Content} n [] ≡ []
  take-nil zero = refl
  take-nil (suc n) = refl

  take-append :
      (n : ℕ) (queue : List (RouterEvent Content)) (e : RouterEvent Content)
      → length queue ≤ n
      → take n (queue ++ (e ∷ [])) ≡ (if ltb (length queue) n then queue ++ (e ∷ []) else queue)
  take-append zero [] e h = refl
  take-append (suc n) [] e h = ground (arith, take-nil n)
  take-append zero (x ∷ queue) e h = absurd (omega (arith, h))
  take-append (suc n) (x ∷ queue) e h = ground (arith, h, take-append n queue e)

  -- The queues change and nothing else does.
  requeued :
      (r : Router Content) (v : View Content) (channels : List (ℕ × List (RouterEvent Content)))
      (queue : ℕ → Option (List (RouterEvent Content)))
      → Matches r v
      → ((k : ℕ) → lookup ℕ_discrete k channels ≡ queue k)
      → ((k : ℕ) (q : List (RouterEvent Content)) → queue k ≡ some q → length q ≤ 256)
      → Matches (record r { channels = channels }) (record v { queue = queue })
  requeued r v channels queue m e b = record {
    unique = m.unique;
    same_next = m.same_next;
    same_subscriber = m.same_subscriber;
    same_sender = m.same_sender;
    same_queue = e;
    bounded = b;
  }

  offer-try_send :
      (e : RouterEvent Content) (held : Option (List (RouterEvent Content)))
      → Bounded held
      → offer e held ≡ Option.map (try_send e) held
  offer-try_send e none b = refl
  offer-try_send e (some queue) b = ap some (take-append 256 queue e (b queue refl))

  publish-Matches :
      (r : Router Content) (v : View Content) (e : RouterEvent Content)
      → Matches r v
      → Matches (publish r e) (apply_view v (publishes e)).0
  unfolding publish apply_view
  publish-Matches r v e m =
      let offered : ℕ → Option (List (RouterEvent Content)) = λ k.
        if is_owner (v.subscriber (session_id e)) k && v.sending k
        then offer e (v.queue k)
        else v.queue k in
      let kept : (k : ℕ) → Bounded (offered k) =
        λ k. published-Bounded _ e (v.queue k) (m.bounded k) in
      let named = m.same_subscriber (session_id e) in
      elim (Option-cases (lookup text_discrete (session_id e) r.sessions)) [
        | inl f ↦
            rw (f, publish)
              (requeued r v r.channels offered m (λ k. ground (arith, named, f, m.same_queue k))
                kept)
        | inr (owner, f) ↦ elim (Option-cases (lookup ℕ_discrete owner r.connections)) [
          | inl n ↦
              rw (f, n, publish)
                (requeued r v r.channels offered m
                  (λ k.
                    ground
                      (arith, named, f, n, m.same_sender owner, m.same_sender k, m.same_queue k))
                  kept)
          | inr (sender, n) ↦
              rw (f, n, publish)
                (requeued r v (modify ℕ_discrete owner (try_send e) r.channels) offered m
                  (λ k. ground (
                    arith,
                    lookup-modify ℕ_discrete owner k (try_send e) r.channels,
                    named,
                    f,
                    n,
                    m.same_sender owner,
                    m.same_sender k,
                    m.same_queue k,
                    offer-try_send e (v.queue k) (m.bounded k),
                  ))
                  kept)
        ]
      ]

  unsubscribe_all-Matches :
      (r : Router Content) (v : View Content) (key : ℕ)
      → Matches r v
      → Matches (unsubscribe_all r key) (apply_view v (tears_down key)).0
  unfolding unsubscribe_all apply_view
  unsubscribe_all-Matches r v key m = record {
    unique = UniqueKeys-retain text_discrete (λ s. not (s.1 == key)) r.sessions m.unique;
    same_next = m.same_next;
    same_subscriber = λ i.
        lookup-retain_owners key i r.sessions m.unique ∙ ap (drop_owner key) (m.same_subscriber i);
    same_sender =
        λ k. ground (arith, lookup-remove ℕ_discrete key k r.connections, m.same_sender k);
    same_queue = m.same_queue;
    bounded = m.bounded;
  }

  receive-Matches :
      (r : Router Content) (v : View Content) (key : ℕ)
      → Matches r v
      → Matches (receive r key).0 (apply_view v (receives key)).0
        × ((receive r key).1 ≡ (apply_view v (receives key)).1)
  unfolding receive apply_view
  receive-Matches r v key m =
      let taken : ℕ → Option (List (RouterEvent Content)) =
        λ k. ite (ℕ_discrete key k) (rest_of (v.queue k)) (v.queue k) in
      let same = m.same_queue key in
      elim (Option-cases (lookup ℕ_discrete key r.channels)) [
        | inl f ↦
            rw (f, receive)
              (
                requeued r v r.channels taken m (λ k. ground (arith, f, same, m.same_queue k))
                    (λ k. taken-Bounded (ℕ_discrete key k) (v.queue k) (m.bounded k)),
                ap oldest_of (sym f ∙ same),
              )
        | inr ([], f) ↦
            rw (f, receive)
              (
                requeued r v r.channels taken m (λ k. ground (arith, f, same, m.same_queue k))
                    (λ k. taken-Bounded (ℕ_discrete key k) (v.queue k) (m.bounded k)),
                ap oldest_of (sym f ∙ same),
              )
        | inr (e ∷ queue, f) ↦
            rw (f, receive)
              (
                requeued r v (modify ℕ_discrete key (λ old. queue) r.channels) taken m
                    (λ k. ground (
                      arith,
                      f,
                      same,
                      m.same_queue k,
                      lookup-modify ℕ_discrete key k (λ old. queue) r.channels,
                    ))
                    (λ k. taken-Bounded (ℕ_discrete key k) (v.queue k) (m.bounded k)),
                ap oldest_of (sym f ∙ same),
              )
      ]

  apply-Matches :
      (r : Router Content) (v : View Content) (op : Op Content)
      → Matches r v
      → Matches (apply r op).0 (apply_view v op).0 × ((apply r op).1 ≡ (apply_view v op).1)
  unfolding apply apply_view
  apply-Matches r v registers m = (register-Matches r v m, refl)
  apply-Matches r v (subscribes key id) m = (subscribe-Matches r v key id m, refl)
  apply-Matches r v (unsubscribes key id) m = (unsubscribe-Matches r v key id m, refl)
  apply-Matches r v (publishes e) m = (publish-Matches r v e m, refl)
  apply-Matches r v (receives key) m = receive-Matches r v key m
  apply-Matches r v (tears_down key) m = (unsubscribe_all-Matches r v key m, refl)

  run-Matches :
      (r : Router Content) (v : View Content) (ops : List (Op Content))
      → Matches r v
      → Matches (run r ops).0 (run_view v ops).0 × ((run r ops).1 ≡ (run_view v ops).1)
  unfolding run run_view
  run-Matches r v [] m = (m, refl)
  run-Matches r v (op ∷ ops) m =
      let (next, same) = apply-Matches r v op m in
      let (last, rest) = run-Matches (apply r op).0 (apply_view v op).0 ops next in
      (last, cc (same, rest))

  -- From its start on and over every sequence of calls, whatever the connections do in between, the
  -- router implements the promise in which sessions have a subscriber or none and queues keep at most
  -- their first 256 events, also after a teardown: after the calls every session has the promised
  -- subscriber, the router can send to the promised connections, every subscriber has the promised
  -- queue, of at most 256 events, and each `recv_timeout` handed out the promised event.
  pub spawn_refines :
      (ops : List (Op Content))
      → Matches (run spawn ops).0 (run_view start ops).0
        × ((run spawn ops).1 ≡ (run_view start ops).1)
  unfolding spawn
  spawn_refines ops = run-Matches spawn start ops (record {
    unique = tt;
    same_next = refl;
    same_subscriber = λ id. refl;
    same_sender = λ key. refl;
    same_queue = λ key. refl;
    bounded = λ key queue e. cc;
  })
