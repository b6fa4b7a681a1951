-- ===== src/Payments/Records/Period.antt =====
-- How long a payment lasts: `handleDateEnd` against the calendar.
use somegram_backend.Prelude.{ℕ, ◌+◌, ◌*◌, ◌≤◌, ◌≡◌, refl, ap, ◌≢◌, arith}
use somegram_backend.Effects.{ok, pure}
use somegram_backend.Calendar.{ms_per_day, month_length}
use somegram_backend.Calendar.Shifts.{set_date-add, set_month-add_one, month_length_bounds}
use somegram_backend.Payments.Types.{SubscriptionType, monthly, day, weekly, other_plan}
use somegram_backend.Payments.World.{Env, World, new_date}
use somegram_backend.Payments.Service.{handle_date_end}
use somegram_backend.Payments.Database.Frames.{Holds, pure_holds}
use somegram_backend.Payments.Records.{Always}

-- The days of a period that begins at `t`: one, seven, or the length of the month of `t`.
abbrev pub period_days : SubscriptionType → ℕ → ℕ
period_days day t = 1
period_days weekly t = 7
period_days monthly t = month_length t
period_days other_plan t = 0

module _ (E : Env) where
  -- For the three plans that are sold, a payment made at `t` lasts for the days of its period, a
  -- day, a week or the length of the month of `t`, to the millisecond; nothing in the world
  -- changes, and the period is between 1 and 31 days.
  pub handle_date_end_lem :
      (type : SubscriptionType) (t : ℕ) (w : World E)
      → type ≢ other_plan
      → (handle_date_end E t type w ≡ (ok (t + period_days type t * ms_per_day), w))
        × (1 ≤ period_days type t)
        × (period_days type t ≤ 31)
  unfolding handle_date_end pure
  handle_date_end_lem day t w sold =
      (ap (λ z. (ok z, w)) (set_date-add t 1), omega arith, omega arith)
  handle_date_end_lem weekly t w sold =
      (ap (λ z. (ok z, w)) (set_date-add t 7), omega arith, omega arith)
  handle_date_end_lem monthly t w sold =
      let (low, high) = month_length_bounds t in
      (ap (λ z. (ok z, w)) (set_month-add_one t), omega (arith, low), high)
  handle_date_end_lem other_plan t w sold = absurd (sold refl)

  -- What the end of a period that is paid at `t` is. For a plan of another name it is a reading of
  -- the clock.
  abbrev pub IsEnd : ℕ → SubscriptionType → ℕ → Type 0
  IsEnd t other_plan end = (n : ℕ) × (end ≡ E.clock n)
  IsEnd t type end = end ≡ t + period_days type t * ms_per_day

  other_plan_holds :
      (t : ℕ) (w : World E)
      → Holds Always (λ end v. IsEnd t other_plan end × (v.db ≡ w.db)) (new_date {E = E} w)
  unfolding new_date
  other_plan_holds t w = (tt, ((w.reads, refl), refl))

  pub handle_date_end_holds :
      (type : SubscriptionType) (t : ℕ) (w : World E)
      → Holds Always (λ end v. IsEnd t type end × (v.db ≡ w.db)) (handle_date_end E t type w)
  unfolding handle_date_end
  handle_date_end_holds day t w = pure_holds Always _ _ w tt (set_date-add t 1, refl)
  handle_date_end_holds weekly t w = pure_holds Always _ _ w tt (set_date-add t 7, refl)
  handle_date_end_holds monthly t w = pure_holds Always _ _ w tt (set_month-add_one t, refl)
  handle_date_end_holds other_plan t w = other_plan_holds t w
