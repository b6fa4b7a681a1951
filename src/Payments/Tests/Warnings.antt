-- ===== src/Payments/Tests/Warnings.antt =====
-- What the jobs gather from lists of subscriptions.
use somegram_backend.Prelude.{◌↔◌, ◌≡◌, refl, some, true, List, [], ◌∷◌, Occurs}
use somegram_backend.Effects.{ok, ◌>>=◌, pure, attempt}
use somegram_backend.Calendar
use somegram_backend.Payments.Types.{
  PaymentSystem, active, expires_after_7_days, create_notifications, CreateNotificationInputDto,
}
use somegram_backend.Payments.Service.{
  all_notices, notices, note, diff_in_days, send_notices, notify_all,
  check_and_notify_subscription_end,
}
use somegram_backend.Payments.SubscriptionEntity.{Subscription}
use somegram_backend.Payments.Adapters.Stripe.{time_value}
use somegram_backend.Payments.World.{World, query, new_date, emit}
use somegram_backend.Payments.Repository.{get_active_subscriptions}
use somegram_backend.Payments.Jobs.Notices.{IsFor, with_notices, notify-Sends}
use somegram_backend.Payments.Database.Table.{env, collect, row_of}
use somegram_backend.Payments.Tests.{subscription, world_of}

-- A subscription a week before its end, and the warning that the job sends.
abbrev ending : Subscription
ending = record (subscription PaymentSystem.stripe active true) {
  end_date_of_subscription = some 1_700_604_800_000;
}

abbrev a_week_before : World env
a_week_before = world_of ending

warns : check_and_notify_subscription_end env a_week_before ≡ (
  ok tt,
  record a_week_before {
    outbox =
        create_notifications (record { user_id = 3; message = expires_after_7_days } ∷ []) ∷ [];
    reads = 1;
  },
)
unfolding ◌>>=◌ pure attempt query new_date emit get_active_subscriptions send_notices notify_all
    all_notices notices note diff_in_days Calendar.day time_value collect row_of
    check_and_notify_subscription_end
warns = refl

notify-Sends_example :
    (ns : List CreateNotificationInputDto) × ((n : CreateNotificationInputDto)
      → Occurs n ns ↔ IsFor (env.clock 0) (ending ∷ []) n)
    × (check_and_notify_subscription_end env a_week_before
        ≡ (ok tt, record a_week_before { outbox = with_notices ns []; reads = 1 }))
unfolding collect
notify-Sends_example = notify-Sends a_week_before (ending ∷ []) refl
