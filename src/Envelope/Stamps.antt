-- ===== src/Envelope/Stamps.antt =====
-- The printer of timestamps and the check of a frame's timestamp (crates/daemon/src/envelope.rs).
use dsh_desktop_shell.Scheduler.Calendar.{days_from_civil-civil_from_days}
use dsh_desktop_shell.Scheduler.Civil.{civil_from_days}
use dsh_desktop_shell.Scheduler.RoundTrip.{printed, at_most}
use dsh_desktop_shell.Envelope.Formats.{is_rfc3339_timestamp, is_time, is_date, is_time_end}
use dsh_desktop_shell.Scheduler.Timestamp.{now_timestamp_like, is_digit, wider, skip_digits, padded}
use dsh_desktop_shell.Prelude.{
  ◌*◌, ◌-◌, ◌%◌, ◌/◌, ◌≤◌, ◌+◌, ◌<◌, List, ℕ, ◌≡◌, arith, refl, true, ◌∷◌, [],
}

padded_two :
    (n : ℕ) (tail : List ℕ) → n < 100 → padded 2 n tail ≡ (48 + n / 10) ∷ (48 + n % 10) ∷ tail
unfolding padded wider
padded_two n tail h = ground arith

padded_three :
    (n : ℕ) (tail : List ℕ)
    → n < 1000
    → padded 3 n tail ≡ (48 + n / 100) ∷ (48 + n / 10 % 10) ∷ (48 + n % 10) ∷ tail
unfolding padded wider
padded_three n tail h = ground arith

padded_four :
    (n : ℕ) (tail : List ℕ)
    → n < 10000
    → padded 4 n tail
      ≡ (48 + n / 1000) ∷ (48 + n / 100 % 10) ∷ (48 + n / 10 % 10) ∷ (48 + n % 10) ∷ tail
unfolding padded wider
padded_four n tail h = ground arith

is_digit_lem : (d : ℕ) → d < 10 → is_digit (48 + d) ≡ true
is_digit_lem d h = ground arith

two_lem : (n : ℕ) → (48 + n / 10 - 48) * 10 + (48 + n % 10 - 48) ≡ n
two_lem n = omega arith

end_lem :
    (n : ℕ)
    → n < 1000
    → is_time_end (46 ∷ (48 + n / 100) ∷ (48 + n / 10 % 10) ∷ (48 + n % 10) ∷ 90 ∷ []) ≡ true
unfolding skip_digits
end_lem n h = ground arith

date_lem :
    (y m d : ℕ) (tail : List ℕ)
    → y < 10000
    → 1 ≤ m
    → m ≤ 12
    → 1 ≤ d
    → d ≤ 31
    → is_date (
        (48 + y / 1000)
        ∷ (48 + y / 100 % 10)
        ∷ (48 + y / 10 % 10)
        ∷ (48 + y % 10)
        ∷ 45
        ∷ (48 + m / 10)
        ∷ (48 + m % 10)
        ∷ 45
        ∷ (48 + d / 10)
        ∷ (48 + d % 10)
        ∷ tail)
      ≡ true
date_lem y m d tail h m1 m2 d1 d2 =
    rw
      (
        is_digit_lem (y / 1000) (omega (arith, h)),
        is_digit_lem (y / 100 % 10) (omega arith),
        is_digit_lem (y / 10 % 10) (omega arith),
        is_digit_lem (y % 10) (omega arith),
        is_digit_lem (m / 10) (omega (arith, m2)),
        is_digit_lem (m % 10) (omega arith),
        is_digit_lem (d / 10) (omega (arith, d2)),
        is_digit_lem (d % 10) (omega arith),
        two_lem m,
        two_lem d,
        at_most 1 m m1,
        at_most m 12 m2,
        at_most 1 d d1,
        at_most d 31 d2,
      )
      refl

time_lem :
    (a b c d e f g h i j t n s : ℕ) (tail : List ℕ)
    → t ≤ 23
    → n ≤ 59
    → s ≤ 59
    → is_time (
        a
        ∷ b
        ∷ c
        ∷ d
        ∷ e
        ∷ f
        ∷ g
        ∷ h
        ∷ i
        ∷ j
        ∷ 84
        ∷ (48 + t / 10)
        ∷ (48 + t % 10)
        ∷ 58
        ∷ (48 + n / 10)
        ∷ (48 + n % 10)
        ∷ 58
        ∷ (48 + s / 10)
        ∷ (48 + s % 10)
        ∷ tail)
      ≡ true
time_lem a b c d e f g h i j t n s tail ht hn hs =
    rw
      (
        is_digit_lem (t / 10) (omega (arith, ht)),
        is_digit_lem (t % 10) (omega arith),
        is_digit_lem (n / 10) (omega (arith, hn)),
        is_digit_lem (n % 10) (omega arith),
        is_digit_lem (s / 10) (omega (arith, hs)),
        is_digit_lem (s % 10) (omega arith),
        two_lem t,
        two_lem n,
        two_lem s,
        at_most t 23 ht,
        at_most n 59 hn,
        at_most s 59 hs,
      )
      refl

printed_lem :
    (y m d t n s k : ℕ)
    → y < 10000
    → 1 ≤ m
    → m ≤ 12
    → 1 ≤ d
    → d ≤ 31
    → t ≤ 23
    → n ≤ 59
    → s ≤ 59
    → k < 1000
    → is_rfc3339_timestamp (printed y m d t n s k) ≡ true
unfolding is_rfc3339_timestamp printed
printed_lem y m d t n s k hy m1 m2 d1 d2 ht hn hs hk =
    rw
      (
        padded_four y _ hy,
        padded_two m _ (omega (arith, m2)),
        padded_two d _ (omega (arith, d2)),
        padded_two t _ (omega (arith, ht)),
        padded_two n _ (omega (arith, hn)),
        padded_two s _ (omega (arith, hs)),
        padded_three k _ hk,
        date_lem y m d _ hy m1 m2 d1 d2,
        time_lem _ _ _ _ _ _ _ _ _ _ t n s _ ht hn hs,
        end_lem k hk,
      )
      refl

-- The timestamp that is printed for an instant before the year 10000 passes the check of a frame.
is_rfc3339_timestamp-now_timestamp_like :
    (time : ℕ)
    → (civil_from_days (time / 1000 / 86400)).0 ≤ 9999
    → is_rfc3339_timestamp (now_timestamp_like time) ≡ true
unfolding now_timestamp_like printed
is_rfc3339_timestamp-now_timestamp_like time k =
    let rem : ℕ = time / 1000 % 86400 in
    let (date, m, m', d, d') = days_from_civil-civil_from_days (time / 1000 / 86400) in
    let (year, month, day) = civil_from_days (time / 1000 / 86400) in
    printed_lem year month day (rem / 3600) (rem % 3600 / 60) (rem % 60) (time % 1000)
      (omega (arith, k)) m m' d d' (omega arith) (omega arith) (omega arith) (omega arith)
