-- ===== src/CustomerPayment/Tests.antt =====
-- Tests of settlements: a customer has a sale of 100 paise with 40 on credit, and has paid 10 of them.
use ayphen_retail_pos.Common.{ℕ, ◌+◌, ◌≤◌, ◌≡◌, ◌⊎◌, refl, true, false, none, some, [], ◌∷◌}
use ayphen_retail_pos.Ledger.{MutationContext, create, Books, post_customer_payment}
use ayphen_retail_pos.StoreDb.{
  PaymentAccountRow, CustomerRow, SaleRow, SalePaymentRow, cash, completed, Db, done, rejected,
  target_over_settled, business_rule,
}
use ayphen_retail_pos.Refund.{sale_credit, prior_credit_note}
use ayphen_retail_pos.CustomerPayment.{
  CreatePayment, CustomerPaymentRow, PaymentAllocationRow, sale_target, SettlementDb,
  payment_schema, find_customer, find_account, check_sales, prior_allocated, check_allocations,
  allocation_rows, check_payment_columns, write_payment, settle, apply,
}
use ayphen_retail_pos.CustomerPayment.Covered.{apply-IsCovered}
use ayphen_retail_pos.CustomerPayment.Collected.{IsCollected, apply-IsCollected}

abbrev ctx : MutationContext
ctx = record { store_id = 1; user_id = 2; device_id = 3 }

abbrev till : PaymentAccountRow
till = record { id = 20; guuid = 21; store_fk = 1; is_active = true; deleted = false }

abbrev buyer : CustomerRow
buyer = record {
  id = 40;
  guuid = 41;
  store_fk = 1;
  credit_limit = none;
  override_credit_limit = none;
  deleted = false;
}

abbrev sale : SaleRow
sale = record {
  id = 30;
  store_fk = 1;
  guuid = 31;
  customer_fk = some 40;
  total_paise = 100;
  invoice_no = (7, 1);
  status = completed;
}

abbrev on_account : SalePaymentRow
on_account = record {
  id = 33;
  sale_fk = 30;
  account_fk = none;
  tender = cash;
  amount_paise = 40;
  on_credit = true;
}

abbrev books : Books
books = record {
  account_transactions = [];
  customer_ledger_events = [];
  opening_balances = [];
  next_id = 60;
}

abbrev earlier : PaymentAllocationRow
earlier = record {
  id = 51;
  store_fk = 1;
  payment_fk = 50;
  target_type = sale_target;
  target_fk = 30;
  applied_paise = 10;
}

abbrev with_books : Books → Db
with_books b = record {
  products = [];
  payment_accounts = till ∷ [];
  customers = buyer ∷ [];
  stores = [];
  sales = sale ∷ [];
  sale_lines = [];
  sale_payments = on_account ∷ [];
  refunds = [];
  refund_lines = [];
  books = b;
}

abbrev start : SettlementDb
start = record { db = with_books books; customer_payments = []; payment_allocations = earlier ∷ [] }

abbrev pays : ℕ → ℕ → CreatePayment
pays first second = record {
  guuid = 70;
  customer_guuid = 41;
  account_guuid = 21;
  allocations =
      record { sale_guuid = 31; applied_paise = first }
      ∷ record { sale_guuid = 31; applied_paise = second }
      ∷ [];
}

abbrev paid : CustomerPaymentRow
paid = record {
  id = 60;
  guuid = 70;
  store_fk = 1;
  customer_fk = 40;
  account_fk = 20;
  amount_paise = 30;
}

abbrev part : ℕ → ℕ → PaymentAllocationRow
part id amount = record {
  id = id;
  store_fk = 1;
  payment_fk = 60;
  target_type = sale_target;
  target_fk = 30;
  applied_paise = amount;
}

abbrev end : SettlementDb
end = record {
  db = with_books (post_customer_payment 40 20 30 60 ctx (record books { next_id = 63 }));
  customer_payments = paid ∷ [];
  payment_allocations = earlier ∷ part 61 25 ∷ part 62 5 ∷ [];
}

settled_in_full : apply create (some (pays 25 5)) ctx start ≡ done (paid, end)
unfolding apply payment_schema settle find_customer find_account check_sales check_allocations
    prior_allocated sale_credit prior_credit_note write_payment check_payment_columns
    allocation_rows
settled_in_full = refl

-- The two allocations count together: one paisa more is too much.
over_settled :
    apply create (some (pays 25 6)) ctx start ≡ rejected target_over_settled business_rule
unfolding apply payment_schema settle find_customer find_account check_sales check_allocations
    prior_allocated sale_credit prior_credit_note
over_settled = refl

apply-IsCovered_example :
    (prior_allocated end.payment_allocations 30 ≡ prior_allocated start.payment_allocations 30)
    ⊎ (prior_allocated end.payment_allocations 30 + prior_credit_note [] [] 30
        ≤ sale_credit (on_account ∷ []) 30)
apply-IsCovered_example = apply-IsCovered create (some (pays 25 5)) ctx start settled_in_full 30

apply-IsCollected_example : IsCollected ctx paid start end
apply-IsCollected_example = apply-IsCollected create (some (pays 25 5)) ctx start settled_in_full
