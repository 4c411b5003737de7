-- ===== src/EventRouter/View.antt =====
-- What the event router promises (crates/daemon/src/events.rs): each session has a subscriber or
-- none, each connection can be sent to or not, and each subscriber has a bounded queue or none.
use dsh_desktop_shell.EventRouter.Routing.{sends_to, queue_of}
use dsh_desktop_shell.EventRouter.State.{
  unsubscribe_all, receive, session_id, publish, unsubscribe, subscribe, register, is_owner,
  RouterEvent, Router,
}
use dsh_desktop_shell.Prelude.{
  ◌≤◌, ◌++◌, ◌&&◌, length, true, take, false, Bool, ℕ_discrete, lookup, text_discrete, ite, u64_suc,
  UniqueKeys, String, List, ℕ, Option, if◌then◌else◌, ◌≡◌, some, none, ◌∷◌, [],
}

-- The calls that the daemon makes of the router.
pub data Op (Content : Type 0) : Type 0 where
  registers : Op Content
  subscribes unsubscribes : ℕ → String → Op Content
  publishes : RouterEvent Content → Op Content
  receives tears_down : ℕ → Op Content

-- The promise, with no tables: three functions.
pub record View (Content : Type 0) : Type 0 where
  pub next : ℕ
  pub subscriber : String → Option ℕ
  pub sending : ℕ → Bool
  pub queue : ℕ → Option (List (RouterEvent Content))

abbrev pub drop_owner : ℕ → Option ℕ → Option ℕ
drop_owner key o = if is_owner o key then none else o

module _ {Content : Type 0} where
  -- A call of the router, and the event that it hands out, if it does.
  unfoldable pub apply : Router Content → Op Content → Router Content × Option (RouterEvent Content)
  apply r registers = ((register r).0, none)
  apply r (subscribes key id) = (subscribe r key id, none)
  apply r (unsubscribes key id) = (unsubscribe r key id, none)
  apply r (publishes e) = (publish r e, none)
  apply r (receives key) = receive r key
  apply r (tears_down key) = (unsubscribe_all r key, none)

  -- A full queue keeps what it has: the first 256 events.
  abbrev pub offer :
      RouterEvent Content
      → Option (List (RouterEvent Content))
      → Option (List (RouterEvent Content))
  offer e none = none
  offer e (some queue) = some (take 256 (queue ++ (e ∷ [])))

  abbrev pub rest_of : Option (List (RouterEvent Content)) → Option (List (RouterEvent Content))
  rest_of none = none
  rest_of (some []) = some []
  rest_of (some (e ∷ queue)) = some queue

  abbrev pub oldest_of : Option (List (RouterEvent Content)) → Option (RouterEvent Content)
  oldest_of none = none
  oldest_of (some []) = none
  oldest_of (some (e ∷ queue)) = some e

  unfoldable pub apply_view :
      View Content → Op Content → View Content × Option (RouterEvent Content)
  apply_view v registers = (
    record v {
      next = u64_suc v.next;
      sending = λ k. ite (ℕ_discrete (u64_suc v.next) k) true (v.sending k);
      queue = λ k. ite (ℕ_discrete (u64_suc v.next) k) (some []) (v.queue k);
    },
    none,
  )
  apply_view v (subscribes key id) =
      (record v { subscriber = λ i. ite (text_discrete id i) (some key) (v.subscriber i) }, none)
  apply_view v (unsubscribes key id) = (
    record v {
      subscriber = λ i. ite (text_discrete id i) (drop_owner key (v.subscriber i)) (v.subscriber i);
    },
    none,
  )
  apply_view v (publishes e) = (
    record v {
      queue = λ k.
          if is_owner (v.subscriber (session_id e)) k && v.sending k
          then offer e (v.queue k)
          else v.queue k;
    },
    none,
  )
  apply_view v (receives key) = (
    record v { queue = λ k. ite (ℕ_discrete key k) (rest_of (v.queue k)) (v.queue k) },
    oldest_of (v.queue key),
  )
  apply_view v (tears_down key) = (
    record v {
      subscriber = λ i. drop_owner key (v.subscriber i);
      sending = λ k. ite (ℕ_discrete key k) false (v.sending k);
    },
    none,
  )

  -- A sequence of calls, and what each of them hands out.
  unfoldable pub run :
      Router Content → List (Op Content) → Router Content × List (Option (RouterEvent Content))
  run r [] = (r, [])
  run r (op ∷ ops) = let (r', e) = apply r op in let (last, es) = run r' ops in (last, e ∷ es)

  unfoldable pub run_view :
      View Content → List (Op Content) → View Content × List (Option (RouterEvent Content))
  run_view v [] = (v, [])
  run_view v (op ∷ ops) =
      let (v', e) = apply_view v op in let (last, es) = run_view v' ops in (last, e ∷ es)

  abbrev pub start : View Content
  start = record { next = 0; subscriber = λ id. none; sending = λ key. false; queue = λ key. none }

  -- The router and the view tell the same.
  pub record Matches (r : Router Content) (v : View Content) : Type 0 where
    pub unique : UniqueKeys text_discrete r.sessions
    pub same_next : r.next_connection ≡ v.next
    pub same_subscriber : (id : String) → lookup text_discrete id r.sessions ≡ v.subscriber id
    pub same_sender : (key : ℕ) → sends_to r key ≡ v.sending key
    pub same_queue : (key : ℕ) → queue_of r key ≡ v.queue key
    pub bounded :
        (key : ℕ) (queue : List (RouterEvent Content))
        → v.queue key ≡ some queue
        → length queue ≤ 256
