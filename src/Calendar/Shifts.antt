-- ===== src/Calendar/Shifts.antt =====
-- `setDate` and `setMonth` applied to a field of the same date plus some amount.
use somegram_backend.Prelude.{
  ℕ, ◌+◌, ◌-◌, ◌*◌, ◌≤◌, ◌/◌, ◌%◌, ◌<◌, ◌≡◌, ◌∙◌, refl, inl, inr, arith, ◌==◌, Bool-cases, ==→eq,
}
use native.Mathlib.Nat.{add-zero}
use somegram_backend.Calendar.{
  ms_per_day, day, time_within_day, day_from_year, leap_days, year, month_start, day_within_year,
  month, date, make_day, make_date, set_date, set_month, month_length, length_of_month,
}
use somegram_backend.Calendar.Fields.{
  day_from_year-suc, leap_days-le, year_bounds, month_search_bounds,
}

month_bounds :
    (t : ℕ) → (month t < 12) × (month_start (leap_days (year t)) (month t) ≤ day_within_year t)
unfolding month
month_bounds t =
    month_search_bounds (leap_days (year t)) (day_within_year t) (leap_days-le (year t))

-- The fields of a time value add up to its day.
date_located :
    (t : ℕ)
    → (1 ≤ date t)
      × (day t + 1 ≡ day_from_year (year t) + month_start (leap_days (year t)) (month t) + date t)
unfolding date day_within_year
date_located t =
    let b = month_bounds t in let y = year_bounds t in (omega arith, omega (arith, b.1))

make_day_within :
    (y m d : ℕ) → m < 12 → make_day y m d ≡ day_from_year y + month_start (leap_days y) m + d - 1
unfolding make_day
make_day_within y m d h =
    let e : m / 12 ≡ 0 = omega arith in let f : m % 12 ≡ m = omega arith in rw (e, f) (rw add-zero)

-- The month after December is January of the next year.
make_day_rolled : (y d : ℕ) → make_day y 12 d ≡ day_from_year (y + 1) + d - 1
unfolding make_day month_start
make_day_rolled y d = omega arith

-- The months of a year follow one another.
month_start-suc : (l m : ℕ) → m < 11 → month_start l (m + 1) ≡ month_start l m + length_of_month l m
unfolding month_start length_of_month
month_start-suc l m h = ground arith

make_date_split : (t k : ℕ) → make_date (day t + k) (time_within_day t) ≡ t + k * ms_per_day
unfolding make_date day time_within_day
make_date_split t k = omega arith

-- Moving the day of the month by `k` moves the time by `k` days.
pub set_date-add : (t k : ℕ) → set_date t (date t + k) ≡ t + k * ms_per_day
unfolding set_date
set_date-add t k =
    let (first, located) = date_located t in
    let e : make_day (year t) (month t) (date t + k) ≡ day t + k =
      make_day_within (year t) (month t) (date t + k) (month_bounds t).0 ∙ omega arith in
    rw e (make_date_split t k)

december_start : (l : ℕ) → month_start l 11 ≡ 334 + l
unfolding month_start
december_start l = refl

december_length : (l : ℕ) → length_of_month l 11 ≡ 31
unfolding length_of_month
december_length l = refl

make_day_next_month :
    (y m d n : ℕ)
    → m < 12
    → 1 ≤ d
    → n + 1 ≡ day_from_year y + month_start (leap_days y) m + d
    → make_day y (m + 1) d ≡ n + length_of_month (leap_days y) m
make_day_next_month y m d n h pos e = elim (Bool-cases (m == 11)) [
  | inl last ↦ rw (==→eq m 11 last) (
      make_day_rolled y d
      ∙ omega (
        arith,
        day_from_year-suc y,
        december_start (leap_days y),
        december_length (leap_days y),
        rw (==→eq m 11 last) at e,
      ))
  | inr early ↦
      let below : m < 11 = ground arith in
      make_day_within y (m + 1) d (omega arith)
      ∙ omega (arith, month_start-suc (leap_days y) m below)
]

-- The same day of the next month, counted on past its end: the time moves by the
-- length of the month in which it lies.
pub set_month-add_one : (t : ℕ) → set_month t (month t + 1) ≡ t + month_length t * ms_per_day
unfolding set_month month_length
set_month-add_one t =
    let (first, located) = date_located t in
    rw (make_day_next_month (year t) (month t) (date t) (day t) (month_bounds t).0 first located)
      (make_date_split t (month_length t))

pub month_length_bounds : (t : ℕ) → (28 ≤ month_length t) × (month_length t ≤ 31)
unfolding month_length length_of_month
month_length_bounds t = ground (arith, leap_days-le (year t))
