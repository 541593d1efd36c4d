-- ===== src/Clock/Civil.antt =====
-- The year, month and day that `civil_from_days` gives, against the Gregorian calendar.
use git_lex.Base.{
  ltb, true, refl, ℕ, ◌+◌, ◌-◌, ◌*◌, ◌/◌, ◌%◌, ◌≤◌, ◌<◌, ◌≡◌, refl, ap, ◌∙◌, Bool, true, false, ltb,
  ◌==◌, ◌&&◌, ◌||◌, not, arith, if◌then◌else◌, Bool-cases, inl, inr, ==_iff,
}
use git_lex.Clock.{
  wrap_i64, ℤ, pos, negsuc, ◌+ℤ◌, times_suc, div_euclid, rem_euclid, year_of_era, day_of_year,
  march_month, month_of, day_of, early, civil_from_days,
}

-- The Gregorian rule, for a year counted within an era of 400 years.
abbrev pub is_leap : ℕ → Bool
is_leap y = y % 4 == 0 && (not (y % 100 == 0) || y % 400 == 0)

abbrev pub days_in_month : ℕ → ℕ → ℕ
days_in_month y m =
    if m == 2
    then (if is_leap y then 29 else 28)
    else if m == 4 || (m == 6 || (m == 9 || m == 11))
    then 30
    else 31

-- The days of an era before a date: whole years from March on, whole months, days.
abbrev pub days_before : ℕ → ℕ → ℕ → ℕ
days_before yoe m d =
    365 * yoe + yoe / 4 - yoe / 100 + (153 * (if ltb 2 m then m - 3 else m + 9) + 2) / 5 + (d - 1)

years-le :
    (doe : ℕ)
    → doe < 146097
    → 365 * year_of_era doe + year_of_era doe / 4 - year_of_era doe / 100 ≤ doe
years-le doe h = omega arith

day_of_year-lt : (doe : ℕ) → doe < 146097 → day_of_year doe < 366
day_of_year-lt doe h = omega arith

year_of_era-lt : (doe : ℕ) → doe < 146097 → year_of_era doe < 400
year_of_era-lt doe h = omega arith

-- Only a leap year has a day 365, its 29th of February.
last_day-leap :
    (doe : ℕ) → doe < 146097 → day_of_year doe ≡ 365 → is_leap (year_of_era doe + 1) ≡ true
last_day-leap doe h e = ground arith

month_of-bounds :
    (doy : ℕ) → doy < 366 → (1 ≤ month_of (march_month doy)) × (month_of (march_month doy) ≤ 12)
month_of-bounds doy h = ground arith

day_of-lower : (doy : ℕ) → 1 ≤ day_of doy
day_of-lower doy = omega arith

-- In the middle of the year the month alone bounds the day.
day_of-upper : (doy y : ℕ) → doy < 365 → day_of doy ≤ days_in_month y (month_of (march_month doy))
day_of-upper doy y h = ground arith

day_of-last : (y : ℕ) → is_leap y ≡ true → day_of 365 ≤ days_in_month y (month_of (march_month 365))
day_of-last y h = ground arith

within_year :
    (doy : ℕ)
    → doy < 366
    → (153
              * (if ltb 2 (month_of (march_month doy))
                  then month_of (march_month doy) - 3
                  else month_of (march_month doy) + 9)
            + 2)
          / 5
        + (day_of doy - 1)
      ≡ doy
within_year doy h = ground arith

days_before-doe :
    (doe : ℕ)
    → doe < 146097
    → days_before
        (year_of_era doe)
        (month_of (march_month (day_of_year doe)))
        (day_of (day_of_year doe))
      ≡ doe
days_before-doe doe h =
    let yoe = year_of_era doe in
    joined (365 * yoe + yoe / 4 - yoe / 100) _ _ (day_of_year doe) doe
      (within_year (day_of_year doe) (day_of_year-lt doe h)) (years-le doe h) refl
  where
    joined : (x a b doy doe : ℕ) → a + b ≡ doy → x ≤ doe → doy ≡ doe - x → x + a + b ≡ doe
    joined x a b doy doe e l f = omega (arith, e, l, f)

rem_euclid-lt : (z : ℤ) → rem_euclid z 146097 < 146097
rem_euclid-lt (pos a) = omega arith
rem_euclid-lt (negsuc a) = omega arith

euclid : (z : ℤ) → times_suc (div_euclid z 146097) 146096 +ℤ pos (rem_euclid z 146097) ≡ z
euclid (pos a) = ap pos (omega arith)
euclid (negsuc a) =
    below (a / 146097 * 146097 + 146096) (146096 - a % 146097) a (omega arith) (omega arith)
  where
    below :
        (p q n : ℕ)
        → q ≤ p
        → p - q ≡ n
        → (if ltb p q then pos (q - p - 1) else negsuc (p - q)) ≡ negsuc n
    below p q n l e = elim (Bool-cases (ltb p q)) [
      | inl f ↦ absurd (contradiction p q l f)
      | inr f ↦ rw f (ap negsuc e)
    ]
      where
        contradiction : (p q : ℕ) → q ≤ p → ltb p q ≡ true → ⊥
        contradiction p q l f = ground arith

day-fits :
    (doe : ℕ)
    → doe < 146097
    → day_of (day_of_year doe)
      ≤ days_in_month
          (year_of_era doe + early (month_of (march_month (day_of_year doe))))
          (month_of (march_month (day_of_year doe)))
day-fits doe h =
    fits (day_of_year doe) (year_of_era doe) (day_of_year-lt doe h) (last_day-leap doe h)
  where
    fits :
        (doy yoe : ℕ)
        → doy < 366
        → (doy ≡ 365 → is_leap (yoe + 1) ≡ true)
        → day_of doy
          ≤ days_in_month (yoe + early (month_of (march_month doy))) (month_of (march_month doy))
    fits doy yoe l k = elim (Bool-cases (doy == 365)) [
      | inl e ↦ let last = (==_iff doy 365).0 e in rw last (day_of-last (yoe + 1) (k last))
      | inr e ↦ day_of-upper doy (yoe + early (month_of (march_month doy))) (not_last doy l e)
    ]
      where
        not_last : (doy : ℕ) → doy < 366 → (doy == 365) ≡ false → doy < 365
        not_last doy l e = ground arith

abbrev pub IsI64 : ℤ → Type 0
IsI64 (pos a) = a < 9223372036854775808
IsI64 (negsuc a) = a < 9223372036854775808

-- The days that the source can move to its own epoch without an overflow.
abbrev pub Fits : ℤ → Type 0
Fits days = IsI64 days × IsI64 (days +ℤ pos 719468)

wrap_i64-IsI64 : (z : ℤ) → IsI64 z → wrap_i64 z ≡ z
wrap_i64-IsI64 (pos a) h = rw (low, ltb-true a h) refl
  where
    low : a % 18446744073709551616 ≡ a
    low = omega (arith, h)

    ltb-true : (a : ℕ) → a < 9223372036854775808 → ltb a 9223372036854775808 ≡ true
    ltb-true a h = ground arith
wrap_i64-IsI64 (negsuc a) h = rw (low, ltb-true a h) refl
  where
    low : a % 18446744073709551616 ≡ a
    low = omega (arith, h)

    ltb-true : (a : ℕ) → a < 9223372036854775808 → ltb a 9223372036854775808 ≡ true
    ltb-true a h = ground arith

-- For every `i64` but the last 719468: the date of a day, before or after the epoch, is one of the Gregorian calendar and stands for that
-- day: the month is one of 12, the day is at least 1 and no more than the month has in that year, and
-- the days of the whole eras and of the years, months and days within the era before the date are as
-- many as there are from the first of March of the year 0 to that day.
pub civil_from_days-IsDate :
    (days : ℤ)
    → Fits days
    → (era : ℤ) × (yoe : ℕ) × (yoe < 400)
      × ((civil_from_days days).0
          ≡ pos yoe +ℤ times_suc era 399 +ℤ pos (early (civil_from_days days).1))
      × (1 ≤ (civil_from_days days).1)
      × ((civil_from_days days).1 ≤ 12)
      × (1 ≤ (civil_from_days days).2)
      × ((civil_from_days days).2
          ≤ days_in_month (yoe + early (civil_from_days days).1) (civil_from_days days).1)
      × (times_suc era 146096
            +ℤ pos (days_before yoe (civil_from_days days).1 (civil_from_days days).2)
          ≡ days +ℤ pos 719468)
unfolding civil_from_days
civil_from_days-IsDate days (_, fits) =
    let z = wrap_i64 (days +ℤ pos 719468) in
    let doe = rem_euclid z 146097 in
    let h = rem_euclid-lt z in
    let (low, high) = month_of-bounds (day_of_year doe) (day_of_year-lt doe h) in
    (
      div_euclid z 146097,
      year_of_era doe,
      year_of_era-lt doe h,
      refl,
      low,
      high,
      day_of-lower (day_of_year doe),
      day-fits doe h,
      ap (λ n. times_suc (div_euclid z 146097) 146096 +ℤ pos n) (days_before-doe doe h)
          ∙ euclid z
          ∙ wrap_i64-IsI64 (days +ℤ pos 719468) fits,
    )
