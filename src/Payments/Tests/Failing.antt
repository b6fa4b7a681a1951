-- ===== src/Payments/Tests/Failing.antt =====
-- The methods that write one row, for a user and a subscription.
use somegram_backend.Payments.Handlers.PayPal.{
  subscription_suspended_handle, subscription_cancel_handle,
}
use somegram_backend.Payments.Commands.{disable_auto_renewal, enable_auto_renewal, update_username}
use somegram_backend.Payments.Database.Table.{env}
use somegram_backend.Payments.Records.Atomic.{IsAtomic, single_writes-IsAtomic}

single_writes-IsAtomic_example :
    IsAtomic (disable_auto_renewal env 3)
    × IsAtomic (enable_auto_renewal env 3)
    × IsAtomic (update_username env 3 "other")
    × IsAtomic (subscription_suspended_handle env 90)
    × IsAtomic (subscription_cancel_handle env 90)
single_writes-IsAtomic_example = single_writes-IsAtomic {E = env} 3 90 "other"
