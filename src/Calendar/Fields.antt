-- ===== src/Calendar/Fields.antt =====
-- The fields that are computed from a time value locate its day.
use somegram_backend.Prelude.{ℕ, zero, suc, ◌+◌, ◌*◌, ◌/◌, ◌≤◌, ◌<◌, ◌≡◌, refl, arith}
use somegram_backend.Calendar.{
  day, day_from_year, is_leap, leap_days, year_search, year, month_start, month_search,
}

-- A year has 365 days, and a leap year one more.
pub day_from_year-suc : (y : ℕ) → day_from_year (y + 1) ≡ day_from_year y + 365 + leap_days y
unfolding day_from_year leap_days is_leap
day_from_year-suc y = ground arith

pub leap_days-le : (y : ℕ) → leap_days y ≤ 1
unfolding leap_days
leap_days-le y = ground arith

-- The search ends at the year that holds the day.
year_search_bounds :
    (fuel y d : ℕ)
    → day_from_year y ≤ d
    → d < day_from_year y + 365 * fuel
    → (day_from_year (year_search fuel y d) ≤ d) × (d < day_from_year (year_search fuel y d + 1))
unfolding year_search
year_search_bounds zero y d le lt = absurd (omega arith)
year_search_bounds (suc fuel) y d le lt =
    ground (arith, year_search_bounds fuel (y + 1) d, day_from_year-suc y)

day_from_year_zero_eq : day_from_year 0 ≡ 0
unfolding day_from_year
day_from_year_zero_eq = refl

pub year_bounds : (t : ℕ) → (day_from_year (year t) ≤ day t) × (day t < day_from_year (year t + 1))
unfolding year
year_bounds t =
    year_search_bounds (day t / 365 + 1) 0 (day t) (rw day_from_year_zero_eq (omega arith))
      (rw day_from_year_zero_eq (omega arith))

pub month_search_bounds :
    (l d : ℕ) → l ≤ 1 → (month_search l d < 12) × (month_start l (month_search l d) ≤ d)
unfolding month_search month_start
month_search_bounds l d h = ground arith
