-- ===== src/Scheduler/RoundTrip.antt =====
-- What the timestamp parser reads back from the printer (crates/daemon/src/scheduler.rs,
-- crates/daemon/src/envelope.rs).
use dsh_desktop_shell.Scheduler.Calendar.{days_from_civil-civil_from_days}
use dsh_desktop_shell.Scheduler.Civil.{civil_from_days, ◌-ℤ◌, ◌+ℤ◌, ◌*ℕ◌, pos, days_from_civil}
use dsh_desktop_shell.Scheduler.Timestamp.{
  offset, now_timestamp_like, parse_rfc3339, wider, skip_digits, padded, fraction_digits,
  instant_of, fraction, digits,
}
use dsh_desktop_shell.Prelude.{
  ap, ◌∙◌, ◌%◌, ◌/◌, leb, ◌+◌, ◌*◌, ◌≤◌, ◌<◌, List, ℕ, ◌≡◌, arith, refl, true, some, ◌∷◌, [],
}

two_digits : (n : ℕ) (tail : List ℕ) → n < 100 → digits 2 0 (padded 2 n tail) ≡ some (n, tail)
unfolding digits padded wider
two_digits n tail h = ground arith

four_digits : (n : ℕ) (tail : List ℕ) → n < 10000 → digits 4 0 (padded 4 n tail) ≡ some (n, tail)
unfolding digits padded wider
four_digits n tail h = ground arith

three_digits : (n : ℕ) → n < 1000 → fraction (46 ∷ padded 3 n (90 ∷ [])) ≡ (n, 90 ∷ [])
unfolding fraction fraction_digits skip_digits padded wider
three_digits n h = ground arith

seconds_lem :
    (days hours minutes second : ℕ)
    → pos days *ℕ 86400 +ℤ pos hours +ℤ pos minutes +ℤ pos second -ℤ pos 0
      ≡ pos (days * 86400 + hours + minutes + second)
seconds_lem days hours minutes second = ground arith

millis_lem : (secs millis : ℕ) → pos secs *ℕ 1000 +ℤ pos millis ≡ pos (secs * 1000 + millis)
millis_lem secs millis = ground arith

pub at_most : (n bound : ℕ) → n ≤ bound → leb n bound ≡ true
at_most n bound h = ground arith

instant_lem :
    (year month day hour minute second millis days : ℕ)
    → days_from_civil (pos year) month day ≡ pos days
    → 1 ≤ month
    → month ≤ 12
    → 1 ≤ day
    → day ≤ 31
    → hour ≤ 23
    → minute ≤ 59
    → second ≤ 59
    → instant_of year month day hour minute second millis (pos 0)
      ≡ some ((days * 86400 + hour * 3600 + minute * 60 + second) * 1000 + millis)
unfolding instant_of
instant_lem year month day hour minute second millis days e m m' d d' h h' h'' =
    rw
      (
        at_most 1 month m,
        at_most month 12 m',
        at_most 1 day d,
        at_most day 31 d',
        at_most hour 23 h,
        at_most minute 59 h',
        at_most second 60 (omega (arith, h'')),
        e,
        seconds_lem days (hour * 3600) (minute * 60) second,
        millis_lem (days * 86400 + hour * 3600 + minute * 60 + second) millis,
      )
      refl

unfoldable pub printed : ℕ → ℕ → ℕ → ℕ → ℕ → ℕ → ℕ → List ℕ
printed year month day hour minute second millis = padded 4 year (
    45
    ∷ padded 2 month (
        45
        ∷ padded 2 day (
            84
            ∷ padded 2 hour
                (58 ∷ padded 2 minute (58 ∷ padded 2 second (46 ∷ padded 3 millis (90 ∷ [])))))))

fields_lem :
    (year month day hour minute second millis : ℕ)
    → year < 10000
    → month < 100
    → day < 100
    → hour < 100
    → minute < 100
    → second < 100
    → millis < 1000
    → parse_rfc3339 (printed year month day hour minute second millis)
      ≡ instant_of year month day hour minute second millis (pos 0)
unfolding parse_rfc3339 offset printed
fields_lem year month day hour minute second millis y m d h n s k =
    rw
      (
        four_digits year _ y,
        two_digits month _ m,
        two_digits day _ d,
        two_digits hour _ h,
        two_digits minute _ n,
        two_digits second _ s,
        three_digits millis k,
      )
      refl

time_sum :
    (time : ℕ)
    → let secs = time / 1000 in
      let rem = secs % 86400 in
      (secs / 86400 * 86400 + rem / 3600 * 3600 + rem % 3600 / 60 * 60 + rem % 60) * 1000
        + time % 1000
      ≡ time
time_sum time = omega arith

-- What the printer writes for an instant before the year 10000 is parsed to that instant.
pub parse_rfc3339-now_timestamp_like :
    (time : ℕ)
    → (civil_from_days (time / 1000 / 86400)).0 ≤ 9999
    → parse_rfc3339 (now_timestamp_like time) ≡ some time
unfolding now_timestamp_like printed
parse_rfc3339-now_timestamp_like time k =
    let days : ℕ = time / 1000 / 86400 in
    let rem : ℕ = time / 1000 % 86400 in
    let (date, m, m', d, d') = days_from_civil-civil_from_days days in
    let (year, month, day) = civil_from_days days in
    fields_lem year month day (rem / 3600) (rem % 3600 / 60) (rem % 60) (time % 1000)
      (omega (arith, k)) (omega (arith, m')) (omega (arith, d')) (omega arith) (omega arith)
      (omega arith) (omega arith)
    ∙ instant_lem year month day (rem / 3600) (rem % 3600 / 60) (rem % 60) (time % 1000) days date m
        m' d d' (omega arith) (omega arith) (omega arith)
    ∙ ap some (time_sum time)
