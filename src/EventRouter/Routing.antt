-- ===== src/EventRouter/Routing.antt =====
-- Where events go (crates/daemon/src/events.rs).
use dsh_desktop_shell.EventRouter.State.{
  try_send, event_queue_capacity, session_id, RouterEvent, unsubscribe_all, publish, Router,
}
use dsh_desktop_shell.Prelude.{
  true, false, Bool, lookup-remove, ◌++◌, lookup-modify, ◌==◌, length, Option-cases, ◌≢◌, not, ltb,
  retain, ℕ_discrete, text_discrete, lookup, List, String, Option, ℕ, if◌then◌else◌, ◌≡◌, arith,
  refl, inr, inl, some, none, ◌∷◌, [],
}

module _ {Content : Type 0} where
  -- What a subscriber can still receive.
  abbrev pub queue_of : Router Content → ℕ → Option (List (RouterEvent Content))
  queue_of r' key = lookup ℕ_discrete key r'.channels

  -- Whether the router can send to a connection.
  abbrev pub sends_to : Router Content → ℕ → Bool
  sends_to r' key = elim (lookup ℕ_discrete key r'.connections) [ none ↦ false | some s ↦ true ]

-- The entries of a connection are dropped.
pub lookup-retain_owner :
    (key : ℕ) (id : String) (m : List (String × ℕ))
    → lookup text_discrete id (retain (λ s. not (s.1 == key)) m) ≢ some key
lookup-retain_owner key id [] h = cc
lookup-retain_owner key id ((k, owner) ∷ m) h = ground (arith, lookup-retain_owner key id m)

module _ {Content : Type 0} (r : Router Content) where
  -- An event reaches no queue but that of the connection that subscribed to its session: every other
  -- connection's queue, and all subscriptions, are as before.
  publish_isolated :
      (e : RouterEvent Content) (other : ℕ)
      → lookup text_discrete (session_id e) r.sessions ≢ some other
      → (queue_of (publish r e) other ≡ queue_of r other) × ((publish r e).sessions ≡ r.sessions)
  unfolding publish
  publish_isolated e other h =
      elim (Option-cases (lookup text_discrete (session_id e) r.sessions)) [
        | inl f ↦ rw (f, publish) (refl, refl)
        | inr (key, f) ↦ elim (Option-cases (lookup ℕ_discrete key r.connections)) [
          | inl n ↦ rw (f, n, publish) (refl, refl)
          | inr (s, n) ↦
              rw (f, n, publish)
                (
                  ground (arith, f, lookup-modify ℕ_discrete key other (try_send e) r.channels),
                  refl,
                )
        ]
      ]

  -- An event of a subscribed session is appended to its connection's queue, unless the queue is full,
  -- in which case the event is dropped and the queue stays.
  publish_delivers :
      (e : RouterEvent Content) (key : ℕ) (queue : List (RouterEvent Content))
      → lookup text_discrete (session_id e) r.sessions ≡ some key
      → lookup ℕ_discrete key r.connections ≡ some tt
      → queue_of r key ≡ some queue
      → queue_of (publish r e) key
        ≡ some (if ltb (length queue) event_queue_capacity then queue ++ (e ∷ []) else queue)
  unfolding publish
  publish_delivers e key queue f n g =
      rw (f, n, publish)
        (ground (arith, f, g, lookup-modify ℕ_discrete key key (try_send e) r.channels))

  pub unsubscribe_all_sender : (key : ℕ) → sends_to (unsubscribe_all r key) key ≡ false
  unfolding unsubscribe_all
  unsubscribe_all_sender key = ground (arith, lookup-remove ℕ_discrete key key r.connections)

  pub unsubscribed :
      (key : ℕ) (id : String) → lookup text_discrete id (unsubscribe_all r key).sessions ≢ some key
  unfolding unsubscribe_all
  unsubscribed key id = lookup-retain_owner key id r.sessions

module _ {Content : Type 0} (r : Router Content) where
  -- After the teardown of a connection it has no sender, no session is subscribed to it, and no event
  -- published afterwards changes what its subscriber can still receive.
  unsubscribe_all_final :
      (key : ℕ) (e : RouterEvent Content)
      → (sends_to (unsubscribe_all r key) key ≡ false)
        × (lookup text_discrete (session_id e) (unsubscribe_all r key).sessions ≢ some key)
        × (queue_of (publish (unsubscribe_all r key) e) key ≡ queue_of r key)
  unfolding unsubscribe_all
  unsubscribe_all_final key e = (
    unsubscribe_all_sender r key,
    unsubscribed r key (session_id e),
    (publish_isolated (unsubscribe_all r key) e key (unsubscribed r key (session_id e))).0,
  )
