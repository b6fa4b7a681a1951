-- ===== src/Payments/Jobs/Sweeping.antt =====
-- The loop of the job that ends subscriptions, against a description of what it gathers.
use somegram_backend.Prelude.{
  ℕ, ◌≡◌, ◌⊎◌, Bool, true, false, ◌&&◌, List, [], ◌∷◌, Option, if◌then◌else◌,
}
use somegram_backend.Payments.Types.{PaymentSystem, canceled, is_suspended, SubscriptionInfo}
use somegram_backend.Payments.SubscriptionEntity.{Subscription}
use somegram_backend.Payments.World.{Env, World}
use somegram_backend.Payments.Service.{should_cancel_paypal_subscription, Sweep, info}

-- Whether a subscription of a payment system is ended at `date`: PayPal's waits for its hour.
abbrev pub is_over : PaymentSystem → ℕ → Subscription → Bool
is_over PaymentSystem.paypal date s = should_cancel_paypal_subscription s date
is_over _ date s = true

-- Whether it also has to be cancelled at PayPal.
abbrev pub is_left_at_paypal : PaymentSystem → ℕ → Subscription → Bool
is_left_at_paypal PaymentSystem.paypal date s =
    should_cancel_paypal_subscription s date && is_suspended s.status
is_left_at_paypal _ date s = false

abbrev pub infos : ℕ → List Subscription → List SubscriptionInfo
infos date [] = []
infos date (s ∷ l) =
    let rest = infos date l in if is_over s.payment_system date s then info s ∷ rest else rest

abbrev pub left_ids : ℕ → List Subscription → List (Option ℕ)
left_ids date [] = []
left_ids date (s ∷ l) =
    let rest = left_ids date l in
    if is_left_at_paypal s.payment_system date s then s.payment_system_sub_id ∷ rest else rest

-- The row that is written for `s`: cancelled if it is over, and else as it was.
abbrev pub IsRowFor : PaymentSystem → ℕ → Subscription → Subscription → Type 0
IsRowFor p date s t =
    ((is_over p date s ≡ true) × (t.id ≡ s.id) × (t.status ≡ canceled) × (t.auto_renewal ≡ false))
    ⊎ ((is_over p date s ≡ false) × (t ≡ s))

abbrev pub AreRowsFor : ℕ → List Subscription → List Subscription → Type 0
AreRowsFor date [] [] = Unit {0}
AreRowsFor date (s ∷ l) (t ∷ m) = IsRowFor s.payment_system date s t × AreRowsFor date l m
AreRowsFor date _ _ = ⊥

module _ {E : Env} where
  -- What one round adds to what the later rounds have gathered.
  abbrev Adds : PaymentSystem → ℕ → Subscription → (Sweep → Sweep) → World E → Type 0
  Adds p date s f v =
      (r : Sweep)
      → ((f r).gateway_data
          ≡ (if is_over p date s then info s ∷ r.gateway_data else r.gateway_data))
        × ((f r).suspended_ids ≡ (
            if is_left_at_paypal p date s
            then s.payment_system_sub_id ∷ r.suspended_ids
            else r.suspended_ids))
        × ((t : Subscription) × ((f r).subscriptions ≡ t ∷ r.subscriptions) × IsRowFor p date s t)

  -- What is gathered from a list.
  abbrev pub Gathered : ℕ → List Subscription → Sweep → World E → Type 0
  Gathered date l r v =
      (r.gateway_data ≡ infos date l)
      × (r.suspended_ids ≡ left_ids date l)
      × AreRowsFor date l r.subscriptions
