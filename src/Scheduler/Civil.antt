-- ===== src/Scheduler/Civil.antt =====
-- Day numbers and civil dates (crates/daemon/src/scheduler.rs, `days_from_civil`, and
-- crates/daemon/src/envelope.rs, `civil_from_days`).
use dsh_desktop_shell.Prelude.{◌%◌, ltb, ◌-◌, ◌*◌, leb, ◌/◌, ◌+◌, ℕ, if◌then◌else◌, suc}

-- An i64; `negsuc n` is -(n + 1).
pub data ℤ : Type 0 where
  pos : ℕ → ℤ
  negsuc : ℕ → ℤ

abbrev pub pos_part : ℤ → ℕ
pos_part (pos n) = n
pos_part (negsuc n) = 0

abbrev pub neg_part : ℤ → ℕ
neg_part (pos n) = 0
neg_part (negsuc n) = suc n

-- a - b.
abbrev pub difference : ℕ → ℕ → ℤ
difference a b = if leb b a then pos (a - b) else negsuc (b - a - 1)

infixl 65 ◌+ℤ◌ ◌-ℤ◌
abbrev pub ◌+ℤ◌ : ℤ → ℤ → ℤ
a +ℤ b = difference (pos_part a + pos_part b) (neg_part a + neg_part b)

abbrev pub ◌-ℤ◌ : ℤ → ℤ → ℤ
a -ℤ b = difference (pos_part a + neg_part b) (neg_part a + pos_part b)

infixl 70 ◌*ℕ◌
abbrev pub ◌*ℕ◌ : ℤ → ℕ → ℤ
a *ℕ n = difference (pos_part a * n) (neg_part a * n)

-- `if y >= 0 { y } else { y - 399 } / 400`, where `/` truncates.
abbrev pub era_of : ℤ → ℤ
era_of (pos y) = pos (y / 400)
era_of (negsuc n) = negsuc (n / 400)

abbrev pub day_of_year : ℕ → ℕ → ℕ
day_of_year month day = (153 * ((month + 9) % 12) + 2) / 5 + day - 1

-- The year of an era is never negative, and `day` is positive where this is called.
unfoldable pub days_from_civil : ℤ → ℕ → ℕ → ℤ
days_from_civil year month day =
    let y = (if leb month 2 then year -ℤ pos 1 else year) in
    let era = era_of y in
    let year_of_era = pos_part (y -ℤ era *ℕ 400) in
    let day_of_era =
      year_of_era * 365 + year_of_era / 4 - year_of_era / 100 + day_of_year month day in
    era *ℕ 146097 +ℤ pos day_of_era -ℤ pos 719468

abbrev pub year_of_doe : ℕ → ℕ
year_of_doe doe = (doe - doe / 1460 + doe / 36524 - doe / 146096) / 365

abbrev pub doy_of : ℕ → ℕ
doy_of doe = let yoe = year_of_doe doe in doe - (365 * yoe + yoe / 4 - yoe / 100)

-- For a day from 1970 on, so that nothing is negative.
unfoldable pub civil_from_days : ℕ → ℕ × ℕ × ℕ
civil_from_days days =
    let z = days + 719468 in
    let era = z / 146097 in
    let doe = z - era * 146097 in
    let year = year_of_doe doe + era * 400 in
    let doy = doy_of doe in
    let mp = (5 * doy + 2) / 153 in
    let day = doy - (153 * mp + 2) / 5 + 1 in
    let month = (if ltb mp 10 then mp + 3 else mp - 9) in
    ((if leb month 2 then year + 1 else year), month, day)
