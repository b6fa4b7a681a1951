-- ===== src/Payments/Records/Invoices.antt =====
-- What the Stripe handlers for a paid and an unpaid invoice have recorded when they answer success.
use somegram_backend.Prelude.{ℕ, ◌*◌, ◌≡◌, refl, ap, ◌∙◌, true, ◌∷◌, Option, none, some, ◌⊎◌}
use somegram_backend.Effects.{◌>>=◌, ok, attempt}
use somegram_backend.Outcome.{succeed, fail}
use somegram_backend.Payments.Types.{
  TransactionStatuses, payment_succeeded, payment_failed, send_subscription_info,
  create_notification_with_delay,
}
use somegram_backend.Payments.SubscriptionEntity.{Subscription}
use somegram_backend.Payments.TransactionEntity.{PaymentTransaction, create}
use somegram_backend.Payments.World.{Env, World, Service, required}
use somegram_backend.Payments.Repository.{has_id, get_subscription_by_id}
use somegram_backend.Payments.Service.{info, convert_to_dd_mm_yy}
use somegram_backend.Payments.Answers.{Answer, found}
use somegram_backend.Payments.Handlers.Stripe.{
  InvoiceLine, Invoice, with_period, generate_data_transaction, line_transaction, first_line,
  subscription_type_of, settle_failed, invoice_payment_failed_handle,
}
use somegram_backend.Payments.Database.{DbLaws}
use somegram_backend.Payments.Database.Frames.{Holds, pure_holds}
use somegram_backend.Payments.Records.Lookups.{lookup_records}
use somegram_backend.Payments.Records.{Always, OnSuccess, emit_then}
use somegram_backend.Payments.Records.Writes.{update_records, save_records}

module _ {E : Env} (L : DbLaws E) where
  -- A value that the method needs.
  pub required_then :
      {A B : Type 0} (P : E.Db → Type 0) (Q : B → World E → Type 0) (o : Option A)
      (f : A → Service E B) (w : World E)
      → P w.db
      → ((a : A) → o ≡ some a → Holds P Q (f a w))
      → Holds P Q ((required o >>= f) w)
  unfolding ◌>>=◌ required
  required_then P Q none f w h k = h
  required_then P Q (some a) f w h k = k a refl

  -- The handlers read the subscription by its own id.
  pub by_id_records :
      (next : Subscription → Service E Answer) (Q : Subscription → World E → Type 0) (id : ℕ)
      (w : World E)
      → ((s : Subscription) → L.row w.db s.id ≡ some s → Holds Always (OnSuccess (Q s)) (next s w))
      → let m = attempt (get_subscription_by_id E id >>= found E next) fail in
        (m w).0 ≡ ok (succeed none)
        → (s : Subscription) × (L.row w.db s.id ≡ some s) × (has_id id s ≡ true) × Q s (m w).1
  unfolding get_subscription_by_id
  by_id_records next Q id w h e =
      let (s, (here, own), q) = lookup_records L (has_id id) next Q w h e in (s, here, own, q)

  -- The transaction of an invoice line for the dates of a row.
  abbrev pub IsOfLine :
      TransactionStatuses → ℕ → InvoiceLine → Subscription → PaymentTransaction → Type 0
  IsOfLine status price line r t =
      (t.status ≡ status)
      × (t.price ≡ price)
      × (t.sub_id ≡ r.id)
      × (t.subscription_type ≡ subscription_type_of line.interval)
      × (t.date_of_payment ≡ r.date_of_payment)
      × (t.end_date_of_subscription ≡ r.end_date_of_subscription)

  -- After a paid invoice: the row has the dates of the period of the first line, in milliseconds,
  -- the gateway is told and asked for a notification, and a transaction is recorded if the amount
  -- is not 0.
  pub record Paid (invoice : Invoice) (s : Subscription) (before v : World E) : Type 0 where
    line : InvoiceLine
    first : first_line invoice.lines ≡ some line
    row : Subscription
    there : L.row v.db s.id ≡ some row
    starts : row.date_of_payment ≡ some (line.period_start * 1000)
    ends : row.end_date_of_subscription ≡ some (line.period_end * 1000)
    same_status : row.status ≡ s.status
    payments :
        ((line.amount ≡ 0) × (L.payments v.db ≡ L.payments before.db))
        ⊎ ((t : PaymentTransaction) × (L.payments v.db ≡ t ∷ L.payments before.db)
            × IsOfLine payment_succeeded line.amount line row t)
    told :
        v.outbox
        ≡ create_notification_with_delay
            (record { user_id = s.user_id; message = convert_to_dd_mm_yy (line.period_end * 1000) })
          ∷ send_subscription_info (info row)
          ∷ before.outbox

  -- After an unpaid invoice: the row has the dates of the invoice, a failed transaction of a
  -- hundred times the amount of the first line is recorded, and the gateway is told.
  pub record Unpaid (invoice : Invoice) (s : Subscription) (before v : World E) : Type 0 where
    line : InvoiceLine
    first : first_line invoice.lines ≡ some line
    row : Subscription
    there : L.row v.db s.id ≡ some row
    starts : row.date_of_payment ≡ some (invoice.period_start * 1000)
    ends : row.end_date_of_subscription ≡ some (invoice.period_end * 1000)
    same_status : row.status ≡ s.status
    transaction : PaymentTransaction
    recorded : L.payments v.db ≡ transaction ∷ L.payments before.db
    of_line : IsOfLine payment_failed (line.amount * 100) line row transaction
    told : v.outbox ≡ send_subscription_info (info row) ∷ before.outbox

  settle_failed_records :
      (invoice : Invoice) (s : Subscription) (w : World E)
      → Holds Always (OnSuccess (Unpaid invoice s w)) (settle_failed E invoice s w)
  unfolding settle_failed with_period line_transaction generate_data_transaction create
  settle_failed_records invoice s w =
      let Q = OnSuccess (Unpaid invoice s w) in
      update_records L Q _ _ w λ d there same. required_then Always Q _ _ _ tt λ line first.
        save_records L Q _ _ _ λ i d₂ rows new. emit_then Always Q _ _ _ (
          pure_holds Always Q _ _ tt λ _. record {
            line = line;
            first = first;
            row = _;
            there = rows s.id ∙ there;
            starts = refl;
            ends = refl;
            same_status = refl;
            transaction = _;
            recorded =
                new
                ∙ ap
                    (λ l.
                      create (
                        line_transaction payment_failed (line.amount * 100)
                          (with_period s invoice.period_start invoice.period_end) line)
                      ∷ l)
                    same;
            of_line = (refl, refl, refl, refl, refl, refl);
            told = refl;
          })

  abbrev PaidLine : Subscription → InvoiceLine → E.Db → E.Db → Type 0
  PaidLine r line d d' =
      ((line.amount ≡ 0) × (L.payments d' ≡ L.payments d))
      ⊎ ((t : PaymentTransaction) × (L.payments d' ≡ t ∷ L.payments d)
          × IsOfLine payment_succeeded line.amount line r t)

  -- The rows and the messages are the same, and the line is recorded.
  abbrev IsRecorded : Subscription → InvoiceLine → World E → Unit {0} → World E → Type 0
  IsRecorded r line w a v =
      ((j : ℕ) → L.row v.db j ≡ L.row w.db j) × (v.outbox ≡ w.outbox) × PaidLine r line w.db v.db

  -- When the handler of an unpaid Stripe invoice answers success, the invoice has a first line and
  -- the subscription of its id is in the table; the row has the dates of the invoice and keeps its
  -- status, a failed transaction of the same dates is added whose price is a hundred times the
  -- amount of the line, and the gateway is told of the dates.
  pub invoice_payment_failed_handle-Unpaid :
      (invoice : Invoice) (w : World E)
      → (invoice_payment_failed_handle E invoice w).0 ≡ ok (succeed none)
      → (s : Subscription) × (L.row w.db s.id ≡ some s)
        × (has_id invoice.sub_id s ≡ true)
        × Unpaid invoice s w (invoice_payment_failed_handle E invoice w).1
  unfolding invoice_payment_failed_handle
  invoice_payment_failed_handle-Unpaid invoice w e =
      by_id_records (settle_failed E invoice) (λ s v. Unpaid invoice s w v) invoice.sub_id w
        (λ s here. settle_failed_records invoice s w) e
