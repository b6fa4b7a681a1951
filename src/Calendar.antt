-- ===== src/Calendar.antt =====
-- The part of JavaScript's `Date` that the services use: a time value is the number of
-- milliseconds since 1 January 1970, and the local time zone is UTC. The names and equations are
-- those of the ECMAScript specification (`DayFromYear`, `YearFromTime`, `MakeDay`).
pub mod Fields
pub mod Shifts
use somegram_backend.Prelude.{
  ℕ, zero, suc, ◌+◌, ◌-◌, ◌*◌, ◌/◌, ◌%◌, Bool, true, false, not, ◌&&◌, ◌||◌, ltb, ◌==◌,
  if◌then◌else◌,
}

abbrev pub ms_per_day : ℕ
ms_per_day = 86_400_000

unfoldable pub day : ℕ → ℕ
day t = t / ms_per_day

unfoldable pub time_within_day : ℕ → ℕ
time_within_day t = t % ms_per_day

-- The days before the first of January of the year `1970 + y`.
unfoldable pub day_from_year : ℕ → ℕ
day_from_year y = 365 * y + ((y + 1) / 4 + (y + 369) / 400) - (y + 69) / 100

-- Whether the year `1970 + y` is a leap year.
unfoldable pub is_leap : ℕ → Bool
is_leap y = (y + 1970) % 4 == 0 && (not ((y + 1970) % 100 == 0) || (y + 1970) % 400 == 0)

unfoldable pub leap_days : ℕ → ℕ
leap_days y = if is_leap y then 1 else 0

-- The last year that begins on or before a day, searched upwards from year `y`.
unfoldable pub year_search : ℕ → ℕ → ℕ → ℕ
year_search zero y d = y
year_search (suc fuel) y d =
    let later = year_search fuel (y + 1) d in if ltb d (day_from_year (y + 1)) then y else later

-- `getFullYear() - 1970`. A year has 365 days or more, which bounds the search.
unfoldable pub year : ℕ → ℕ
year t = year_search (day t / 365 + 1) 0 (day t)

-- The days of a year before the month `m`, counted from 0, with `l` leap days.
unfoldable pub month_start : ℕ → ℕ → ℕ
month_start l m =
    if m == 0
    then 0
    else if m == 1
    then 31
    else if m == 2
    then 59 + l
    else if m == 3
    then 90 + l
    else if m == 4
    then 120 + l
    else if m == 5
    then 151 + l
    else if m == 6
    then 181 + l
    else if m == 7
    then 212 + l
    else if m == 8
    then 243 + l
    else if m == 9
    then 273 + l
    else if m == 10
    then 304 + l
    else 334 + l

-- The month in which the day `d` of a year lies.
unfoldable pub month_search : ℕ → ℕ → ℕ
month_search l d =
    if ltb d 31
    then 0
    else if ltb d (59 + l)
    then 1
    else if ltb d (90 + l)
    then 2
    else if ltb d (120 + l)
    then 3
    else if ltb d (151 + l)
    then 4
    else if ltb d (181 + l)
    then 5
    else if ltb d (212 + l)
    then 6
    else if ltb d (243 + l)
    then 7
    else if ltb d (273 + l)
    then 8
    else if ltb d (304 + l)
    then 9
    else if ltb d (334 + l)
    then 10
    else 11

unfoldable pub day_within_year : ℕ → ℕ
day_within_year t = day t - day_from_year (year t)

-- `getMonth()`
unfoldable pub month : ℕ → ℕ
month t = month_search (leap_days (year t)) (day_within_year t)

-- `getDate()`
unfoldable pub date : ℕ → ℕ
date t = day_within_year t - month_start (leap_days (year t)) (month t) + 1

-- `MakeDay` and `MakeDate`: a month past December belongs to a later year.
unfoldable pub make_day : ℕ → ℕ → ℕ → ℕ
make_day y m d =
    let y' = y + m / 12 in day_from_year y' + month_start (leap_days y') (m % 12) + d - 1

unfoldable pub make_date : ℕ → ℕ → ℕ
make_date d within = d * ms_per_day + within

-- `setDate(d)` and `setMonth(m)`
unfoldable pub set_date : ℕ → ℕ → ℕ
set_date t d = make_date (make_day (year t) (month t) d) (time_within_day t)

unfoldable pub set_month : ℕ → ℕ → ℕ
set_month t m = make_date (make_day (year t) m (date t)) (time_within_day t)

-- The length of the month `m` with `l` leap days, and of the month in which `t` lies.
unfoldable pub length_of_month : ℕ → ℕ → ℕ
length_of_month l m =
    if m == 1 then 28 + l else if m == 3 || m == 5 || m == 8 || m == 10 then 30 else 31

unfoldable pub month_length : ℕ → ℕ
month_length t = length_of_month (leap_days (year t)) (month t)
