-- ===== src/Payments/Database/Table/Laws.antt =====
-- The table in memory as an instance of `DbLaws`.
use somegram_backend.Prelude.{ℕ, ◌<◌, ◌≡◌, refl, sym, ap, subst, false, some, arith, All}
use mathlib.Core.Option.{some-injective}
use somegram_backend.Payments.SubscriptionEntity.{Subscription}
use somegram_backend.Payments.Database.{DbLaws}
use somegram_backend.Payments.Database.Table.{Table, row_of, add_payment, env}
use somegram_backend.Payments.Database.Table.Search.{
  row_of-some, search_found, search_missing, collect_found,
}
use somegram_backend.Payments.Database.Table.Updates.{
  update_cell-some, update_cell-row, add_row-eq, add_row-row,
}

-- The table answers and changes as the services rely on.
pub laws : DbLaws env
unfolding env add_payment row_of
laws = record {
  row = row_of;
  payments = λ d. d.payments;
  row_id = λ d i s e. sym (ap (λ r. r.id) (row_of-some d i s e).1);
  find_first_found = λ p d s e. search_found p d d.size s (omega arith) (some-injective _ _ e);
  find_first_missing = λ p d e i s here.
      let (bound, same) = row_of-some d i s here in
      subst (λ r. p r ≡ false) same (search_missing p d d.size (some-injective _ _ e) i bound);
  find_many_found =
      λ p d l e. subst (All _) (some-injective _ _ e) (collect_found p d d.size (omega arith));
  update_row = update_cell-row;
  update_payments = λ i f d d' e. sym (ap (λ t. t.payments) (update_cell-some i f d d' e).1);
  create_row = add_row-row;
  create_payments = λ f i d d' e. sym (ap (λ t. t.payments) (add_row-eq f i d d' e).1);
  transaction_row = λ t i d d' e j. ap (λ x. row_of x.1 j) (sym (some-injective _ _ e));
  transaction_payments = λ t i d d' e. ap (λ x. x.1.payments) (sym (some-injective _ _ e));
}

-- Every row of the table has an id below its size, and `row_of` reads it.
pub laws-row-lt :
    (d : Table) (i : ℕ) (s : Subscription)
    → laws.row d i ≡ some s
    → (i < d.size) × (row_of d i ≡ some s)
unfolding laws env
laws-row-lt d i s e = ((row_of-some d i s e).0, e)

pub laws-row-eq : (d : Table) (i : ℕ) → laws.row d i ≡ row_of d i
unfolding laws env
laws-row-eq d i = refl
