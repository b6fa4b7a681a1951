-- ===== src/Payments/Jobs/Notices.antt =====
-- The job that warns users of the end of their subscriptions.
use somegram_backend.Prelude.{
  suc, ◌+◌, ◌-◌, ◌/◌, Option, none, some, arith, ℕ, ◌≡◌, refl, sym, ap, ◌∙◌, subst, ◌⊎◌, ◌↔◌, inl,
  inr, Bool, true, false, List, [], ◌∷◌, ◌++◌, ◌==◌, if◌then◌else◌, ==→eq, eq→==, Occurs,
  Occurs-append, Occurs-left, Occurs-right,
}
use somegram_backend.Effects.{ok, continue, recover, attempt, ◌>>=◌, pure}
use somegram_backend.Calendar
use somegram_backend.Calendar.{ms_per_day}
use somegram_backend.Payments.Adapters.Stripe.{time_value}
use somegram_backend.Payments.World.{Env, World, answer, query, emit, new_date}
use somegram_backend.Payments.Repository.{is_current_row, or_null, get_active_subscriptions}
use somegram_backend.Payments.Types.{
  Message, create_notifications, CreateNotificationInputDto, Text, expires_after_7_days,
  payment_after_1_day, expires_after_1_day, activated_until,
}
use somegram_backend.Payments.SubscriptionEntity.{Subscription}
use somegram_backend.Payments.Service.{
  diff_in_days, note, notices, all_notices, send_notices, notify_all,
  check_and_notify_subscription_end,
}

-- The subscription ends on the day that comes `days` after that of `date`.
abbrev pub EndsIn : ℕ → ℕ → Subscription → Type 0
EndsIn days date s =
    (end : ℕ) × (s.end_date_of_subscription ≡ some end)
    × (end / ms_per_day ≡ date / ms_per_day + days)

-- The warnings that a subscription is due at `date`: a week before its end; and a day before it,
-- with one of the payment if it renews.
abbrev pub IsDue : ℕ → Subscription → Text → Type 0
IsDue date s expires_after_7_days = EndsIn 7 date s
IsDue date s payment_after_1_day = EndsIn 1 date s × (s.auto_renewal ≡ true)
IsDue date s expires_after_1_day = EndsIn 1 date s
IsDue date s (activated_until d m y) = ⊥

-- The whole days that the code counts, where there are any.
EndsIn-diff :
    (days date : ℕ) (s : Subscription) → EndsIn (suc days) date s → diff_in_days s date ≡ suc days
unfolding diff_in_days Calendar.day time_value
EndsIn-diff days date s (end, is_end, e) = rw is_end (omega (arith, e))

diff-EndsIn :
    (days date : ℕ) (s : Subscription) → diff_in_days s date ≡ suc days → EndsIn (suc days) date s
unfolding diff_in_days Calendar.day time_value
diff-EndsIn days date s e = on_end s.end_date_of_subscription refl e
  where
    on_end :
        (o : Option ℕ)
        → s.end_date_of_subscription ≡ o
        → time_value o / ms_per_day - date / ms_per_day ≡ suc days
        → EndsIn (suc days) date s
    on_end none q e = absurd (omega (arith, e))
    on_end (some end) q e = (end, q, omega (arith, e))

-- A warning for one of the subscriptions.
abbrev pub IsFor : ℕ → List Subscription → CreateNotificationInputDto → Type 0
IsFor date l n = (s : Subscription) × Occurs s l × (n.user_id ≡ s.user_id) × IsDue date s n.message

-- One warning that is pushed under a condition.
one_if :
    {A : Type 0} (b : Bool) (a x : A) → Occurs a (if b then x ∷ [] else []) → (b ≡ true) × (a ≡ x)
one_if true a x (inl e) = (refl, e)
one_if true a x (inr h) = absurd h
one_if false a x h = absurd h

two_if :
    {A : Type 0} (b c : Bool) (a x y : A)
    → Occurs a (if b then (if c then x ∷ [] else []) ++ y ∷ [] else [])
    → (b ≡ true) × (((c ≡ true) × (a ≡ x)) ⊎ (a ≡ y))
two_if true true a x y (inl e) = (refl, inl (refl, e))
two_if true true a x y (inr (inl e)) = (refl, inr e)
two_if true true a x y (inr (inr h)) = absurd h
two_if true false a x y (inl e) = (refl, inr e)
two_if true false a x y (inr h) = absurd h
two_if false c a x y h = absurd h

module _ (date : ℕ) (s : Subscription) where
  abbrev IsOfSub : CreateNotificationInputDto → Type 0
  IsOfSub n = (n.user_id ≡ s.user_id) × IsDue date s n.message

  notices_due : (n : CreateNotificationInputDto) → Occurs n (notices date s) → IsOfSub n
  unfolding notices note
  notices_due n h = elim (Occurs-append n _ _ h) [
    | inl week ↦
        let (seven, e) = one_if (diff_in_days s date == 7) n (note s expires_after_7_days) week in
        subst IsOfSub (sym e) (refl, diff-EndsIn 6 date s (==→eq _ 7 seven))
    | inr day ↦
        let (one, either) =
          two_if (diff_in_days s date == 1) s.auto_renewal n (note s payment_after_1_day)
            (note s expires_after_1_day) day in
        elim either [
          | inl (renews, e) ↦
              subst IsOfSub (sym e) (refl, (diff-EndsIn 0 date s (==→eq _ 1 one), renews))
          | inr e ↦ subst IsOfSub (sym e) (refl, diff-EndsIn 0 date s (==→eq _ 1 one))
        ]
  ]

  due_notices : (text : Text) → IsDue date s text → Occurs (note s text) (notices date s)
  unfolding notices note
  due_notices expires_after_7_days h = rw (eq→== _ 7 (EndsIn-diff 6 date s h)) (inl refl)
  due_notices payment_after_1_day (h, renews) =
      Occurs-right _ (if diff_in_days s date == 7 then _ ∷ [] else []) _
        (rw (eq→== _ 1 (EndsIn-diff 0 date s h), renews) (inl refl))
  due_notices expires_after_1_day h =
      Occurs-right _ (if diff_in_days s date == 7 then _ ∷ [] else []) _ (
        rw (eq→== _ 1 (EndsIn-diff 0 date s h))
          (Occurs-right _ (if s.auto_renewal then _ ∷ [] else []) _ (inl refl)))
  due_notices (activated_until d m y) h = absurd h

all_notices_due :
    (date : ℕ) (l : List Subscription) (n : CreateNotificationInputDto)
    → Occurs n (all_notices date l)
    → IsFor date l n
unfolding all_notices
all_notices_due date [] n h = absurd h
all_notices_due date (s ∷ l) n h = elim (Occurs-append n (notices date s) _ h) [
  | inl own ↦ let (user, due) = notices_due date s n own in (s, inl refl, user, due)
  | inr other ↦
      let (t, there, user, due) = all_notices_due date l n other in (t, inr there, user, due)
]

due_all_notices :
    (date : ℕ) (l : List Subscription) (n : CreateNotificationInputDto)
    → IsFor date l n
    → Occurs n (all_notices date l)
unfolding all_notices note
due_all_notices date [] n (s, h, user, due) = absurd h
due_all_notices date (t ∷ l) n (s, inl same, user, due) = Occurs-left n (notices date t) _ (
    subst (λ u. Occurs (record { user_id = u; message = n.message }) (notices date t))
      (sym (user ∙ ap (λ r. r.user_id) same))
      (due_notices date t n.message (subst (λ r. IsDue date r n.message) same due)))
due_all_notices date (t ∷ l) n (s, inr there, user, due) =
    Occurs-right n (notices date t) _ (due_all_notices date l n (s, there, user, due))

-- The outbox after the notices, which are one message if there are any.
abbrev pub with_notices : List CreateNotificationInputDto → List Message → List Message
with_notices [] sent = sent
with_notices (n ∷ ns) sent = create_notifications (n ∷ ns) ∷ sent

module _ {E : Env} where
  send_notices_lem :
      (ns : List CreateNotificationInputDto) (w : World E)
      → send_notices E ns w ≡ (ok tt, record w { outbox = with_notices ns w.outbox })
  unfolding send_notices pure emit
  send_notices_lem [] w = refl
  send_notices_lem (n ∷ ns) w = refl

  notify_all_lem :
      (date : ℕ) (l : List Subscription) (w : World E)
      → notify_all E date (or_null l) w
        ≡ (ok tt, record w { outbox = with_notices (all_notices date l) w.outbox })
  unfolding notify_all all_notices pure
  notify_all_lem date [] w = refl
  notify_all_lem date (s ∷ l) w = send_notices_lem (all_notices date (s ∷ l)) w

  -- The job reads the current subscriptions and ends. It has sent one message if a warning was due
  -- for one of them at the clock's reading, and else none; in the message are just the warnings that
  -- were due: a week before the end of a subscription, or a day before it, then with a second one
  -- of the coming payment if the subscription renews. The tables are as before.
  pub notify-Sends :
      (w : World E) (l : List Subscription)
      → E.find_many is_current_row w.db ≡ some l
      → (ns : List CreateNotificationInputDto) × ((n : CreateNotificationInputDto)
          → Occurs n ns ↔ IsFor (E.clock w.reads) l n)
        × (check_and_notify_subscription_end E w
            ≡ (ok tt, record w { outbox = with_notices ns w.outbox; reads = w.reads + 1 }))
  unfolding check_and_notify_subscription_end get_active_subscriptions attempt ◌>>=◌ query new_date
      pure
  notify-Sends w l read =
      let date = E.clock w.reads in
      (
        all_notices date l,
        λ n. (all_notices_due date l n, due_all_notices date l n),
        ap
              (λ o.
                recover
                  (continue
                    (continue (answer o (record w { reads = w.reads + 1 })) (λ l. pure (or_null l)))
                    (notify_all E date))
                  tt)
              read
            ∙ ap (λ r. recover r tt) (notify_all_lem date l (record w { reads = w.reads + 1 })),
      )
