-- ===== src/History/Tests.antt =====
-- A day of a store: a sale of 100 paise with 40 on credit, a refund of a quarter of it, and a settlement
-- of what is left of the credit.
use ayphen_retail_pos.Common.{ℕ, ◌+◌, ◌*◌, ◌/◌, refl, true, false, none, some, [], ◌∷◌}
use ayphen_retail_pos.Ledger.{
  MutationContext, create, post_sale_payment, post_credit_sale, post_refund,
  post_refund_credit_note, post_customer_payment,
}
use ayphen_retail_pos.Ledger.Balance.{owed, settled}
use ayphen_retail_pos.StoreDb.{SaleRow, RefundRow, Db, cash, other, completed, Exec, done}
use ayphen_retail_pos.Sale
use ayphen_retail_pos.Sale.{
  CreateSale, check_products, check_accounts, resolve_customer, check_totals, sale_total,
  line_schema, line_value, write_sale, allocate_invoice, payment_rows, line_rows, post_payments,
  post_credit, is_storable, fits_line,
}
use ayphen_retail_pos.Sale.Credit.{credit_limit_paise, credit_exceeded, passes_limit}
use ayphen_retail_pos.Refund
use ayphen_retail_pos.Refund.{
  CreateRefund, resolve_sale, resolve_account, check_lines, prior_qty, prior_amount, compute_values,
  line_target, cumulative_target, check_cap, prior_refunded, write_refund, split_refund,
  sale_credit, prior_credit_note, post_cash, post_note, refund_line_rows, set_status,
}
use ayphen_retail_pos.Refund.Nearest.{nearest, nearest-IsProrate}
use ayphen_retail_pos.CustomerPayment
use ayphen_retail_pos.CustomerPayment.{
  CreatePayment, CustomerPaymentRow, SettlementDb, find_customer, find_account, check_sales,
  check_allocations, prior_allocated, settle, write_payment, check_payment_columns, allocation_rows,
}
use ayphen_retail_pos.History.{
  sells, refunds, collects, Reachable, start_of_day, then_step, IsOpening,
}
use ayphen_retail_pos.History.Sound.{IsSound}
use ayphen_retail_pos.History.Reached.{Reachable-IsSound}

abbrev exact : ℕ → ℕ → ℕ
exact qty price = (qty * price + 500) / 1000

abbrev ctx : MutationContext
ctx = record { store_id = 1; user_id = 2; device_id = 3 }

abbrev opening : SettlementDb
opening = record {
  db = record {
    products = record { id = 10; guuid = 11; store_fk = 1; deleted = false } ∷ [];
    payment_accounts =
        record { id = 20; guuid = 21; store_fk = 1; is_active = true; deleted = false } ∷ [];
    customers =
        record {
          id = 40;
          guuid = 41;
          store_fk = 1;
          credit_limit = none;
          override_credit_limit = none;
          deleted = false;
        }
        ∷ [];
    stores = record { id = 1; invoice_counter = 0; invoice_prefix = some 7 } ∷ [];
    sales = [];
    sale_lines = [];
    sale_payments = [];
    refunds = [];
    refund_lines = [];
    books = record {
      account_transactions = [];
      customer_ledger_events = [];
      opening_balances = [];
      next_id = 60;
    };
  };
  customer_payments = [];
  payment_allocations = [];
}

abbrev cart : CreateSale
cart = record {
  guuid = 31;
  customer_guuid = some 41;
  lines =
      record { product_guuid = 11; qty = 4000; unit_price_paise = 25; discount_paise = none } ∷ [];
  payments =
      record { account_guuid = some 21; tender = cash; amount_paise = 60; on_credit = false }
      ∷ record { account_guuid = none; tender = other; amount_paise = 40; on_credit = true }
      ∷ [];
}

abbrev value_of {ℓ} : {A : Type ℓ} → A → Exec A → A
value_of a (done b) = b
value_of a _ = a

abbrev no_sale : SaleRow
no_sale = record {
  id = 0;
  store_fk = 0;
  guuid = 0;
  customer_fk = none;
  total_paise = 0;
  invoice_no = (0, 0);
  status = completed;
}

abbrev no_refund : RefundRow
no_refund = record {
  id = 0;
  guuid = 0;
  store_fk = 0;
  sale_fk = 0;
  account_fk = 0;
  amount_paise = 0;
}

abbrev no_payment : CustomerPaymentRow
no_payment = record {
  id = 0;
  guuid = 0;
  store_fk = 0;
  customer_fk = 0;
  account_fk = 0;
  amount_paise = 0;
}

abbrev sold : SaleRow × Db
sold = value_of (no_sale, opening.db) (Sale.apply exact create (some cart) ctx opening.db)

abbrev after_sale : SettlementDb
after_sale = record opening { db = sold.1 }

-- The database gave the line the id and the guuid 61.
abbrev returns : CreateRefund
returns = record {
  guuid = 70;
  sale_guuid = 31;
  account_guuid = 21;
  lines = record { sale_line_guuid = 61; qty = 1000000000 } ∷ [];
}

abbrev given_back : RefundRow × Db
given_back = value_of (no_refund, sold.1) (Refund.apply nearest create (some returns) ctx sold.1)

abbrev after_refund : SettlementDb
after_refund = record after_sale { db = given_back.1 }

abbrev pays : CreatePayment
pays = record {
  guuid = 80;
  customer_guuid = 41;
  account_guuid = 21;
  allocations = record { sale_guuid = 31; applied_paise = 30 } ∷ [];
}

abbrev collected : CustomerPaymentRow × SettlementDb
collected =
    value_of (no_payment, after_refund) (CustomerPayment.apply create (some pays) ctx after_refund)

day : Reachable exact nearest opening collected.1
unfolding Sale.apply Sale.create_schema line_schema Sale.payment_schema Sale.apply_create
    check_products check_accounts resolve_customer check_totals sale_total line_value write_sale
    allocate_invoice payment_rows line_rows post_payments post_sale_payment post_credit
    credit_exceeded passes_limit owed settled credit_limit_paise post_credit_sale Sale.check_columns
    is_storable fits_line Refund.apply Refund.create_schema Refund.apply_create resolve_sale
    resolve_account check_lines prior_qty prior_amount compute_values line_target cumulative_target
    nearest check_cap prior_refunded write_refund Refund.check_columns split_refund sale_credit
    prior_credit_note post_cash post_note post_refund post_refund_credit_note refund_line_rows
    set_status CustomerPayment.apply CustomerPayment.payment_schema settle find_customer
    find_account check_sales check_allocations prior_allocated write_payment check_payment_columns
    allocation_rows post_customer_payment
day =
    then_step
      (then_step (then_step start_of_day (sells opening create (some cart) ctx sold.0 sold.1 refl))
        (refunds after_sale create (some returns) ctx given_back.0 given_back.1 refl))
      (collects after_refund collected.1 create (some pays) ctx collected.0 refl)

opening-IsOpening : IsOpening opening
opening-IsOpening = record {
  no_sales = refl;
  no_lines = refl;
  no_payments = refl;
  no_refunds = refl;
  no_refund_lines = refl;
  no_events = refl;
  no_allocations = refl;
}

Reachable-IsSound_example : IsSound nearest collected.1
Reachable-IsSound_example =
    Reachable-IsSound exact nearest opening collected.1 nearest-IsProrate opening-IsOpening day
