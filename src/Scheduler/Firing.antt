-- ===== src/Scheduler/Firing.antt =====
-- What the scheduler keeps, and that a firing pass ends (crates/daemon/src/scheduler.rs).
use dsh_desktop_shell.Scheduler.Entries.{
  has_id, fits_wake_id, cancel, entry_of, is_zero, count_of, WakeRequestPayload, validate_repeat,
  validate_wake_request, Inner, register_entry, fire_due, fire, min_interval_ms, WakeRepeat,
  take_due, next_round, Entry,
}
use dsh_desktop_shell.Prelude.{
  ◌≢◌, ◌||◌, ◌∙◌, not, all-append, retain, String, any, Option-cases, ◌+◌, ◌++◌, ◌&&◌, ltb, all,
  ◌≤◌, leb, List, Bool, ℕ, Option, if◌then◌else◌, suc, zero, ◌≡◌, ok, arith, refl, false, true, inr,
  inl, some, none, ◌∷◌, [],
}

-- An interval within the bounds, and a bounded repeat with rounds left.
abbrev pub repeats_soundly : Option WakeRepeat → Bool
repeats_soundly none = true
repeats_soundly (some r) = leb min_interval_ms r.interval_ms

abbrev pub has_rounds : Option ℕ → Bool
has_rounds none = true
has_rounds (some n) = ltb 0 n && ltb n 18446744073709551616

abbrev pub is_sound : Entry → Bool
is_sound e = repeats_soundly e.repeat && has_rounds e.fires_left

abbrev pub due : ℕ → Entry → ℕ
due now e = if leb e.fire_at now then 1 else 0

unfoldable pub count_due : ℕ → List Entry → ℕ
count_due now [] = 0
count_due now (e ∷ es) = due now e + count_due now es

count_due-append :
    (now : ℕ) (xs ys : List Entry) → count_due now (xs ++ ys) ≡ count_due now xs + count_due now ys
unfolding count_due
count_due-append now [] ys = omega arith
count_due-append now (x ∷ xs) ys = omega (arith, count_due-append now xs ys)

take_due-none : (now : ℕ) (es : List Entry) → take_due now es ≡ none → count_due now es ≡ 0
unfolding take_due count_due
take_due-none now [] h = refl
take_due-none now (e ∷ es) h = ground (arith, take_due-none now es)

-- The entry that is taken was there, and one due entry fewer is left.
take_due-some :
    (now : ℕ) (es : List Entry) (e : Entry) (rest : List Entry)
    → take_due now es ≡ some (e, rest)
    → (count_due now es ≡ suc (count_due now rest))
      × (all is_sound es ≡ (is_sound e && all is_sound rest))
unfolding take_due count_due
take_due-some now [] e rest h = absurd (ground (arith, h))
take_due-some now (x ∷ es) e rest h = elim (Option-cases (take_due now es)) [
  | inl f ↦ ground (arith, f)
  | inr ((d, ds), f) ↦ ground (arith, f, take_due-some now es d ds f)
]

next_round-later :
    (e : Entry) (now at : ℕ)
    → now ≤ at
    → is_sound e ≡ true
    → (count_due now (next_round e at e.repeat e.fires_left) ≡ 0)
      × (all is_sound (next_round e at e.repeat e.fires_left) ≡ true)
unfolding next_round count_due
next_round-later e now at h s = ground arith

fire_later :
    (inner : Inner) (e : Entry) (now at : ℕ) (stamp : String)
    → now ≤ at
    → is_sound e ≡ true
    → all is_sound inner.entries ≡ true
    → (count_due now (fire inner at stamp e).entries ≡ count_due now inner.entries)
      × (all is_sound (fire inner at stamp e).entries ≡ true)
unfolding fire
fire_later inner e now at stamp h s a =
    let again = next_round e at e.repeat e.fires_left in
    let (none_due, sound) = next_round-later e now at h s in
    (
      omega (arith, count_due-append now inner.entries again, none_due),
      all-append is_sound inner.entries again ∙ ground (arith, a, sound),
    )

-- A firing pass ends: with a clock that does not run backwards, sound entries and as much fuel as
-- there are due entries, no entry is due after the pass, so the loop has run to its own end, and the
-- entries left are sound. A repeat that fires is due again only later.
pub fire_due_done :
    (fuel now : ℕ) (clock : ℕ → ℕ) (stamp : ℕ → String) (i : ℕ) (inner : Inner)
    → ((j : ℕ) → now ≤ clock j)
    → all is_sound inner.entries ≡ true
    → count_due now inner.entries ≤ fuel
    → (count_due now (fire_due fuel now clock stamp i inner).entries ≡ 0)
      × (all is_sound (fire_due fuel now clock stamp i inner).entries ≡ true)
unfolding fire_due
fire_due_done zero now clock stamp i inner later a f = (omega arith, a)
fire_due_done (suc fuel) now clock stamp i inner later a f =
    elim (Option-cases (take_due now inner.entries)) [
      | inl e ↦ rw (e, fire_due) (take_due-none now inner.entries e, a)
      | inr ((d, rest), e) ↦
          let (fewer, kept) = take_due-some now inner.entries d rest e in
          let both : (is_sound d ≡ true) × (all is_sound rest ≡ true) = ground (arith, kept, a) in
          let (same, sound) =
            fire_later (record inner { entries = rest }) d now (clock i) (stamp i) (later i) both.0
              both.1 in
          rw (e, fire_due)
            (fire_due_done fuel now clock stamp (suc i)
              (fire (record inner { entries = rest }) (clock i) (stamp i) d) later sound
              (omega (arith, fewer, same)))
    ]

-- A registration whose request is valid, with a repeat count that is a u64 if it has one, leaves
-- sound entries sound, whether it is accepted or a conflict.
register_entry_sound :
    (inner : Inner) (request : WakeRequestPayload) (fire_at : ℕ)
    → validate_wake_request request ≡ ok tt
    → has_rounds (count_of request.repeat) || is_zero (count_of request.repeat) ≡ true
    → all is_sound inner.entries ≡ true
    → all is_sound (register_entry inner request fire_at).0.entries ≡ true
unfolding register_entry validate_wake_request validate_repeat
register_entry_sound inner request fire_at v u a =
    ground (arith, all-append is_sound inner.entries (entry_of inner.next_seq request fire_at ∷ []))

any-retain_rest : (p : Entry → Bool) (es : List Entry) → any p (retain (λ e. not (p e)) es) ≡ false
any-retain_rest p [] = refl
any-retain_rest p (e ∷ es) = ground (arith, any-retain_rest p es)

any-retain_other :
    (p q : Entry → Bool) (es : List Entry)
    → ((e : Entry) → q e ≡ true → p e ≡ false)
    → any q (retain (λ e. not (p e)) es) ≡ any q es
any-retain_other p q [] h = refl
any-retain_other p q (e ∷ es) h = ground (arith, any-retain_other p q es h, h e)

-- After a cancellation with an id of acceptable length no entry has that id, and every other id is
-- scheduled exactly if it was before.
cancel_removes :
    (inner : Inner) (id other : String)
    → fits_wake_id id ≡ true
    → other ≢ id
    → (any (has_id id) (cancel inner id).0.entries ≡ false)
      × (any (has_id other) (cancel inner id).0.entries ≡ any (has_id other) inner.entries)
unfolding cancel
cancel_removes inner id other f ne = (
  rw f (any-retain_rest (has_id id) inner.entries),
  rw f (any-retain_other (has_id id) (has_id other) inner.entries (λ e h. ground (arith, h))),
)
