-- ===== src/Scheduler/Calendar.antt =====
-- The day numbers of civil dates (crates/daemon/src/scheduler.rs, crates/daemon/src/envelope.rs).
use dsh_desktop_shell.Scheduler.Civil.{
  ◌+ℤ◌, ◌*ℕ◌, pos_part, era_of, ℤ, doy_of, ◌-ℤ◌, civil_from_days, pos, days_from_civil, day_of_year,
  year_of_doe,
}
use dsh_desktop_shell.Prelude.{
  sym, subst, ap, refl, ◌∙◌, inr, inl, Bool-cases, ltb, leb, if◌then◌else◌, ◌≡◌, ◌-◌, ◌/◌, ◌+◌, ◌*◌,
  ◌≤◌, ◌<◌, ℕ, arith,
}

-- The year of a day in its era of 400 years.
doe_bounds :
    (doe : ℕ)
    → doe < 146097
    → let yoe = year_of_doe doe in
      (yoe ≤ 399)
      × (365 * yoe + yoe / 4 - yoe / 100 ≤ doe)
      × (doe ≤ 365 * yoe + yoe / 4 - yoe / 100 + 365)
doe_bounds doe h = omega arith

abbrev mp_of : ℕ → ℕ
mp_of doy = (5 * doy + 2) / 153

abbrev month_of : ℕ → ℕ
month_of doy = if ltb (mp_of doy) 10 then mp_of doy + 3 else mp_of doy - 9

abbrev day_of : ℕ → ℕ
day_of doy = doy - (153 * mp_of doy + 2) / 5 + 1

-- A month of the year that begins in March, and the day in it.
month_lem :
    (doy : ℕ)
    → doy ≤ 365
    → (1 ≤ month_of doy)
      × (month_of doy ≤ 12)
      × (1 ≤ day_of doy)
      × (day_of doy ≤ 31)
      × (day_of_year (month_of doy) (day_of doy) ≡ doy)
month_lem doy h = ground arith

pos-pred : (n : ℕ) → pos (n + 1) -ℤ pos 1 ≡ pos n
pos-pred n = ground arith

-- The sums of `days_from_civil`, for a year counted from March.
march_days : ℤ → ℕ → ℤ
march_days y doy =
    let era = era_of y in
    let year_of_era = pos_part (y -ℤ era *ℕ 400) in
    era *ℕ 146097
    +ℤ pos (year_of_era * 365 + year_of_era / 4 - year_of_era / 100 + doy)
    -ℤ pos 719468

march_lem :
    (era yoe doy : ℕ)
    → yoe ≤ 399
    → 719468 ≤ era * 146097 + (yoe * 365 + yoe / 4 - yoe / 100 + doy)
    → march_days (pos (yoe + era * 400)) doy
      ≡ pos (era * 146097 + (yoe * 365 + yoe / 4 - yoe / 100 + doy) - 719468)
unfolding march_days
march_lem era yoe doy h k = ground arith

days-march :
    (y : ℕ) (month day : ℕ)
    → days_from_civil (pos (if leb month 2 then y + 1 else y)) month day
      ≡ march_days (pos y) (day_of_year month day)
unfolding days_from_civil march_days
days-march y month day = elim (Bool-cases (leb month 2)) [
  | inl e ↦ rw (e, pos-pred y) refl
  | inr e ↦ rw e refl
]

-- The day number of a date whose year, counted from March, is `yoe` in the era `era`.
days_lem :
    (era yoe month day : ℕ)
    → yoe ≤ 399
    → 719468 ≤ era * 146097 + (yoe * 365 + yoe / 4 - yoe / 100 + day_of_year month day)
    → let year = yoe + era * 400 in
      days_from_civil (pos (if leb month 2 then year + 1 else year)) month day
      ≡ pos (era * 146097 + (yoe * 365 + yoe / 4 - yoe / 100 + day_of_year month day) - 719468)
days_lem era yoe month day h k =
    days-march (yoe + era * 400) month day ∙ march_lem era yoe (day_of_year month day) h k

whole_lem :
    (yoe doe : ℕ)
    → 365 * yoe + yoe / 4 - yoe / 100 ≤ doe
    → yoe * 365 + yoe / 4 - yoe / 100 + (doe - (365 * yoe + yoe / 4 - yoe / 100)) ≡ doe
whole_lem yoe doe h = omega arith

-- The day number of the date that a day of an era is split into.
split_lem :
    (era doe : ℕ)
    → doe < 146097
    → 719468 ≤ era * 146097 + doe
    → let yoe = year_of_doe doe in
      let month = month_of (doy_of doe) in
      days_from_civil
        (pos (if leb month 2 then yoe + era * 400 + 1 else yoe + era * 400))
        month
        (day_of (doy_of doe))
      ≡ pos (era * 146097 + doe - 719468)
split_lem era doe h k =
    let b = doe_bounds doe h in
    let m = month_lem (doy_of doe) (omega (arith, b.1, b.2)) in
    let yoe : ℕ = year_of_doe doe in
    let whole = ap (λ d. yoe * 365 + yoe / 4 - yoe / 100 + d) m.4 ∙ whole_lem yoe doe b.1 in
    days_lem era yoe (month_of (doy_of doe)) (day_of (doy_of doe)) b.0
      (subst (λ d. 719468 ≤ era * 146097 + d) (sym whole) k)
    ∙ ap (λ d. pos (era * 146097 + d - 719468)) whole

-- What `civil_from_days` gives for a day from 1970 on: a month and a day in their ranges, and a date
-- whose day number is that day.
pub days_from_civil-civil_from_days :
    (days : ℕ)
    → let (year, month, day) = civil_from_days days in
      (days_from_civil (pos year) month day ≡ pos days)
      × (1 ≤ month)
      × (month ≤ 12)
      × (1 ≤ day)
      × (day ≤ 31)
unfolding civil_from_days
days_from_civil-civil_from_days days =
    let z : ℕ = days + 719468 in
    let era : ℕ = z / 146097 in
    let doe : ℕ = z - era * 146097 in
    let b = doe_bounds doe (omega arith) in
    let m = month_lem (doy_of doe) (omega (arith, b.1, b.2)) in
    let n : era * 146097 + doe - 719468 ≡ days = omega arith in
    (split_lem era doe (omega arith) (omega arith) ∙ ap pos n, m.0, m.1, m.2, m.3)
