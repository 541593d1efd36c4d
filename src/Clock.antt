-- ===== src/Clock.antt =====
-- `civil_from_days` of src/clock.rs: days since 1970-01-01 to a date of the proleptic Gregorian
-- calendar, also before the epoch. The sum may leave the range of an `i64` and then wraps around; what
-- follows does not leave it, and no difference is negative in the source.
pub mod Civil
use git_lex.Base.{ℕ, zero, suc, ◌+◌, ◌-◌, ◌*◌, ◌/◌, ◌%◌, Bool, true, false, leb, ltb, if◌then◌else◌}

pub data ℤ : Type 0 where
  pos : ℕ → ℤ
  negsuc : ℕ → ℤ

infixl 60 ◌+ℤ◌
abbrev pub ◌+ℤ◌ : ℤ → ℤ → ℤ
pos a +ℤ pos b = pos (a + b)
pos a +ℤ negsuc b = if ltb b a then pos (a - b - 1) else negsuc (b - a)
negsuc a +ℤ pos b = if ltb a b then pos (b - a - 1) else negsuc (a - b)
negsuc a +ℤ negsuc b = negsuc (a + b + 1)

-- `z * n` for a natural number `n + 1`
abbrev pub times_suc : ℤ → ℕ → ℤ
times_suc (pos a) n = pos (a * (n + 1))
times_suc (negsuc a) n = negsuc (a * (n + 1) + n)

-- `div_euclid` and `rem_euclid` by a positive number
abbrev pub div_euclid : ℤ → ℕ → ℤ
div_euclid (pos a) n = pos (a / n)
div_euclid (negsuc a) n = negsuc (a / n)

abbrev pub rem_euclid : ℤ → ℕ → ℕ
rem_euclid (pos a) n = a % n
rem_euclid (negsuc a) n = n - 1 - a % n

-- An `i64` that wraps around, as a release build adds.
abbrev pub wrap_i64 : ℤ → ℤ
wrap_i64 (pos a) =
    let low = a % 18446744073709551616 in
    if ltb low 9223372036854775808 then pos low else negsuc (18446744073709551615 - low)
wrap_i64 (negsuc a) =
    let low = a % 18446744073709551616 in
    if ltb low 9223372036854775808 then negsuc low else pos (18446744073709551615 - low)

abbrev pub year_of_era : ℕ → ℕ
year_of_era doe = (doe - doe / 1460 + doe / 36524 - doe / 146096) / 365

abbrev pub day_of_year : ℕ → ℕ
day_of_year doe = let yoe = year_of_era doe in doe - (365 * yoe + yoe / 4 - yoe / 100)

abbrev pub march_month : ℕ → ℕ
march_month doy = (5 * doy + 2) / 153

abbrev pub month_of : ℕ → ℕ
month_of mp = if ltb mp 10 then mp + 3 else mp - 9

abbrev pub day_of : ℕ → ℕ
day_of doy = doy - (153 * march_month doy + 2) / 5 + 1

-- `i64::from(m <= 2)`
abbrev pub early : ℕ → ℕ
early m = if leb m 2 then 1 else 0

unfoldable pub civil_from_days : ℤ → ℤ × ℕ × ℕ
civil_from_days days =
    let z = wrap_i64 (days +ℤ pos 719468) in
    let era = div_euclid z 146097 in
    let doe = rem_euclid z 146097 in
    let doy = day_of_year doe in
    let m = month_of (march_month doy) in
    (pos (year_of_era doe) +ℤ times_suc era 399 +ℤ pos (early m), m, day_of doy)
