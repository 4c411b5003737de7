-- ===== src/Scheduler/Entries.antt =====
-- The scheduler's state and its operations (crates/daemon/src/scheduler.rs): the checks of a
-- request, the locked parts of `register` and `cancel`, and the worker's firing pass.
use dsh_desktop_shell.Prelude.{
  ltb, ◌-◌, text_discrete, not, length, ◌==◌, ◌++◌, ◌&&◌, u64_pred, retain, does, ◌+◌, u64_suc, leb,
  guard, any, Bool, ℕ, String, Result, Option, List, ◌>>◌, if◌then◌else◌, suc, zero, err, ok, false,
  some, none, ◌∷◌, [],
}
use Prim.Native.String.{len}

pub data WakeReason : Type 0 where
  scheduled_due recovery_retry user_requested : WakeReason

pub record WakeRepeat : Type 0 where
  pub interval_ms : ℕ
  pub count : Option ℕ

pub record WakeRequestPayload : Type 0 where
  pub wake_id : String
  pub requested_at : String
  pub deadline : Option String
  pub reason : WakeReason
  pub repeat : Option WakeRepeat

pub record Entry : Type 0 where
  pub seq : ℕ
  pub wake_id : String
  pub fire_at : ℕ
  pub reason : WakeReason
  pub requested_at : String
  pub deadline : Option String
  pub repeat : Option WakeRepeat
  pub fires_left : Option ℕ

pub record FiredWake : Type 0 where
  pub wake_id : String
  pub reason : WakeReason
  pub requested_at : String
  pub deadline : Option String
  pub fired_at : String

pub record Inner : Type 0 where
  pub entries : List Entry
  pub next_seq : ℕ
  pub shutdown : Bool
  pub registered : ℕ
  pub cancelled : ℕ
  pub fired : ℕ
  pub last_fired : Option FiredWake

pub data SchedulerError : Type 0 where
  invalid_payload conflict : SchedulerError

abbrev pub wake_id_min_len : ℕ
wake_id_min_len = 8

abbrev pub wake_id_max_len : ℕ
wake_id_max_len = 128

abbrev pub min_interval_ms : ℕ
min_interval_ms = 50

abbrev pub max_interval_ms : ℕ
max_interval_ms = 86400000

abbrev pub fits_wake_id : String → Bool
fits_wake_id id = leb wake_id_min_len (len id) && leb (len id) wake_id_max_len

abbrev pub is_zero : Option ℕ → Bool
is_zero none = false
is_zero (some n) = n == 0

unfoldable pub validate_repeat : Option WakeRepeat → Result SchedulerError (Unit {0})
validate_repeat none = ok tt
validate_repeat (some repeat) = do
  guard (leb min_interval_ms repeat.interval_ms && leb repeat.interval_ms max_interval_ms)
      invalid_payload
  guard (not (is_zero repeat.count)) invalid_payload

unfoldable pub validate_wake_request : WakeRequestPayload → Result SchedulerError (Unit {0})
validate_wake_request request = do
  guard (fits_wake_id request.wake_id) invalid_payload
  validate_repeat request.repeat

abbrev pub has_id : String → Entry → Bool
has_id id e = does (text_discrete e.wake_id id)

abbrev pub count_of : Option WakeRepeat → Option ℕ
count_of none = none
count_of (some r) = r.count

abbrev pub entry_of : ℕ → WakeRequestPayload → ℕ → Entry
entry_of seq request fire_at = record {
  seq = seq;
  wake_id = request.wake_id;
  fire_at = fire_at;
  reason = request.reason;
  requested_at = request.requested_at;
  deadline = request.deadline;
  repeat = request.repeat;
  fires_left = count_of request.repeat;
}

-- The part of `register` under the lock; the answer has the number of pending wakes.
unfoldable pub register_entry : Inner → WakeRequestPayload → ℕ → Inner × Result SchedulerError ℕ
register_entry inner request fire_at =
    if any (has_id request.wake_id) inner.entries
    then (inner, err conflict)
    else let entries = inner.entries ++ (entry_of inner.next_seq request fire_at ∷ []) in
      (
        record inner {
          next_seq = u64_suc inner.next_seq;
          entries = entries;
          registered = u64_suc inner.registered;
        },
        ok (length entries),
      )

-- `cancel` after its payload is read: whether a wake was removed, and how many are pending.
unfoldable pub cancel : Inner → String → Inner × Result SchedulerError (Bool × ℕ)
cancel inner wake_id =
    let entries = retain (λ e. not (has_id wake_id e)) inner.entries in
    let removed = length inner.entries - length entries in
    if fits_wake_id wake_id
    then (
      record inner {
        entries = entries;
        cancelled = if ltb 0 removed then u64_suc inner.cancelled else inner.cancelled;
      },
      ok (ltb 0 removed, length entries),
    )
    else (inner, err invalid_payload)

abbrev pub fired_wake : Entry → String → FiredWake
fired_wake e stamp = record {
  wake_id = e.wake_id;
  reason = e.reason;
  requested_at = e.requested_at;
  deadline = e.deadline;
  fired_at = stamp;
}

-- What is left of an entry that has fired at `now`: nothing, or its next round.
unfoldable pub next_round : Entry → ℕ → Option WakeRepeat → Option ℕ → List Entry
next_round e now none left = []
next_round e now (some r) none = record e { fire_at = now + r.interval_ms; fires_left = none } ∷ []
next_round e now (some r) (some left) =
    if u64_pred left == 0
    then []
    else record e { fire_at = now + r.interval_ms; fires_left = some (u64_pred left) } ∷ []

unfoldable pub fire : Inner → ℕ → String → Entry → Inner
unfolding next_round
fire inner now stamp e = record inner {
  fired = u64_suc inner.fired;
  last_fired = some (fired_wake e stamp);
  entries = inner.entries ++ next_round e now e.repeat e.fires_left;
}

-- `position` and `remove`: the first due entry and the others.
unfoldable pub take_due : ℕ → List Entry → Option (Entry × List Entry)
take_due now [] = none
take_due now (e ∷ es) =
    let later = take_due now es in
    if leb e.fire_at now
    then some (e, es)
    else elim later [ none ↦ none | some (d, rest) ↦ some (d, e ∷ rest) ]

-- The `while let` of `worker_loop`; `clock i` and `stamp i` are the readings in firing i.
unfoldable pub fire_due : ℕ → ℕ → (ℕ → ℕ) → (ℕ → String) → ℕ → Inner → Inner
fire_due zero now clock stamp i inner = inner
fire_due (suc fuel) now clock stamp i inner = elim (take_due now inner.entries) [
  | none ↦ inner
  | some (e, rest) ↦
      fire_due fuel now clock stamp (suc i)
        (fire (record inner { entries = rest }) (clock i) (stamp i) e)
]
