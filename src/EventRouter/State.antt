-- ===== src/EventRouter/State.antt =====
-- The router's state and operations (crates/daemon/src/events.rs). An event is the id of its session
-- and its content. `connections` has the senders of the router; what a connection's channel holds for
-- its subscriber, oldest first, stands under the same key in `channels`, also after the sender is
-- dropped.
use dsh_desktop_shell.Prelude.{
  ◌++◌, not, ◌==◌, retain, modify, length, ℕ_discrete, u64_suc, text_discrete, remove, ltb, insert,
  Bool, ℕ, lookup, String, Option, List, if◌then◌else◌, false, some, none, ◌∷◌, [],
}

abbrev pub event_queue_capacity : ℕ
event_queue_capacity = 256

module _ (Content : Type 0) where
  pub data RouterEvent : Type 0 where
    terminal : String → Content → RouterEvent
    browser : String → Content → RouterEvent

  pub record Router : Type 0 where
    pub next_connection : ℕ
    pub sessions : List (String × ℕ)
    pub connections : List (ℕ × Unit {0})
    pub channels : List (ℕ × List RouterEvent)

abbrev pub is_owner : Option ℕ → ℕ → Bool
is_owner none key = false
is_owner (some owner) key = owner == key

module _ {Content : Type 0} where
  abbrev pub session_id : RouterEvent Content → String
  session_id (terminal id content) = id
  session_id (browser id content) = id

  unfoldable pub spawn : Router Content
  spawn = record { next_connection = 0; sessions = []; connections = []; channels = [] }

  -- The key of a new connection; its channel is empty.
  unfoldable pub register : Router Content → Router Content × ℕ
  register r =
      let key = u64_suc r.next_connection in
      (
        record r {
          next_connection = key;
          connections = insert ℕ_discrete key tt r.connections;
          channels = insert ℕ_discrete key [] r.channels;
        },
        key,
      )

  unfoldable pub subscribe : Router Content → ℕ → String → Router Content
  subscribe r key id = record r { sessions = insert text_discrete id key r.sessions }

  unfoldable pub unsubscribe : Router Content → ℕ → String → Router Content
  unsubscribe r key id =
      if is_owner (lookup text_discrete id r.sessions) key
      then record r { sessions = remove text_discrete id r.sessions }
      else r

  -- `try_send` on a bounded queue: a full one drops the event.
  abbrev pub try_send :
      RouterEvent Content → List (RouterEvent Content) → List (RouterEvent Content)
  try_send e queue = if ltb (length queue) event_queue_capacity then queue ++ (e ∷ []) else queue

  unfoldable pub publish : Router Content → RouterEvent Content → Router Content
  publish r e = elim (lookup text_discrete (session_id e) r.sessions) [
    | none ↦ r
    | some key ↦ elim (lookup ℕ_discrete key r.connections) [
      | none ↦ r
      | some sender ↦ record r { channels = modify ℕ_discrete key (try_send e) r.channels }
    ]
  ]

  -- `recv_timeout` of a subscriber: the oldest event of its channel, if there is one; a dropped
  -- sender does not take away what the channel holds.
  unfoldable pub receive : Router Content → ℕ → Router Content × Option (RouterEvent Content)
  receive r key = elim (lookup ℕ_discrete key r.channels) [
    | none ↦ (r, none)
    | some [] ↦ (r, none)
    | some (e ∷ queue) ↦
        (record r { channels = modify ℕ_discrete key (λ old. queue) r.channels }, some e)
  ]

  -- The teardown of a connection: its sender is dropped, its channel stays with the subscriber.
  unfoldable pub unsubscribe_all : Router Content → ℕ → Router Content
  unsubscribe_all r key = record r {
    connections = remove ℕ_discrete key r.connections;
    sessions = retain (λ s. not (s.1 == key)) r.sessions;
  }
