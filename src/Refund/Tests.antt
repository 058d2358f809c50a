-- ===== src/Refund/Tests.antt =====
-- Tests of refunds: a sale of three units for 100 paise, 40 of them on credit, of which one unit has
-- been refunded.
use ayphen_retail_pos.Common.{
  ℕ, refl, Bool, true, false, some, none, [], ◌∷◌, if◌then◌else◌, sum_by, ◌+◌, ◌≤◌, ◌<◌, ◌≡◌, arith,
}
use ayphen_retail_pos.Ledger.{
  MutationContext, create, LedgerEvent, credit_note, refund_source, post_refund,
  post_refund_credit_note,
}
use ayphen_retail_pos.Ledger.Balance.{account_out}
use ayphen_retail_pos.StoreDb.{
  PaymentAccountRow, SaleRow, SaleLineRow, SalePaymentRow, RefundRow, RefundLineRow, cash,
  completed, refunded, Db, done, rejected, refund_exceeds_sale, business_rule,
}
use ayphen_retail_pos.Refund.{
  CreateRefund, create_schema, resolve_sale, resolve_account, check_lines, prior_qty, prior_amount,
  prior_refunded, sale_credit, prior_credit_note, refund_line_rows, check_columns, set_status,
  post_cash, post_note, check_cap, line_target, cumulative_target, to_numeric, compute_values,
  split_refund, write_refund, apply_create, apply,
}
use ayphen_retail_pos.Refund.Nearest.{nearest, nearest-IsProrate}
use ayphen_retail_pos.Refund.Money.{IsSettled}
use ayphen_retail_pos.Refund.Paid.{apply-IsSettled, apply-IsPaid}

abbrev ctx : MutationContext
ctx = record { store_id = 1; user_id = 2; device_id = 3 }

abbrev till : PaymentAccountRow
till = record { id = 20; guuid = 21; store_fk = 1; is_active = true; deleted = false }

abbrev sale : SaleRow
sale = record {
  id = 30;
  store_fk = 1;
  guuid = 31;
  customer_fk = some 40;
  total_paise = 100;
  invoice_no = (7, 1);
  status = completed;
}

abbrev line : SaleLineRow
line = record {
  id = 32;
  guuid = 33;
  sale_fk = 30;
  product_fk = some 5;
  qty = 3000;
  unit_price_paise = 34;
  discount_paise = 2;
  line_total_paise = 100;
}

-- The tenders of the sale: 60 paid into the till, and 40 on credit.
abbrev tender : ℕ → ℕ → Bool → SalePaymentRow
tender id amount credit = record {
  id = id;
  sale_fk = 30;
  account_fk = if credit then none else some 20;
  tender = cash;
  amount_paise = amount;
  on_credit = credit;
}

abbrev earlier : RefundRow
earlier = record {
  id = 50;
  guuid = 51;
  store_fk = 1;
  sale_fk = 30;
  account_fk = 20;
  amount_paise = 33;
}

abbrev earlier_line : RefundLineRow
earlier_line = record { id = 52; refund_fk = 50; sale_line_fk = 32; qty = 1000; amount_paise = 33 }

abbrev earlier_note : LedgerEvent
earlier_note = record {
  store_fk = 1;
  customer_fk = 40;
  kind = credit_note;
  amount_paise = 13;
  source_type = refund_source;
  source_fk = 50;
  flagged = false;
  created_by = 2;
}

abbrev shop : Db
shop = record {
  products = [];
  payment_accounts = till ∷ [];
  customers = [];
  stores = [];
  sales = sale ∷ [];
  sale_lines = line ∷ [];
  sale_payments = tender 34 60 false ∷ tender 35 40 true ∷ [];
  refunds = earlier ∷ [];
  refund_lines = earlier_line ∷ [];
  books = record {
    account_transactions = [];
    customer_ledger_events = earlier_note ∷ [];
    opening_balances = [];
    next_id = 60;
  };
}

abbrev take_back : ℕ → CreateRefund
take_back qty = record {
  guuid = 70;
  sale_guuid = 31;
  account_guuid = 21;
  lines = record { sale_line_guuid = 33; qty = qty } ∷ [];
}

abbrev paid_back : RefundRow
paid_back = record {
  id = 60;
  guuid = 70;
  store_fk = 1;
  sale_fk = 30;
  account_fk = 20;
  amount_paise = 67;
}

-- The shop after the other two units are back: nothing of the 100 paise is left behind.
abbrev later : Db
later = record shop {
  sales = record sale { status = refunded } ∷ [];
  refunds = earlier ∷ paid_back ∷ [];
  refund_lines =
      earlier_line
      ∷ record { id = 61; refund_fk = 60; sale_line_fk = 32; qty = 2000; amount_paise = 67 }
      ∷ [];
  books =
      post_refund_credit_note 40 27 60 ctx
        (post_refund 20 40 60 ctx (record (shop.books) { next_id = 62 }));
}

rest_returned :
    apply nearest create (some (take_back 2000000000)) ctx shop ≡ done (paid_back, later)
unfolding apply create_schema apply_create resolve_sale resolve_account check_lines prior_qty
    prior_amount compute_values line_target cumulative_target nearest check_cap prior_refunded
    write_refund check_columns split_refund sale_credit prior_credit_note post_cash post_note
    refund_line_rows set_status
rest_returned = refl

-- A quantity off thousandths is paid for as it is and stored as its column rounds it.
half_stored : to_numeric 500500000 ≡ 501
half_stored = refl

too_much :
    apply nearest create (some (take_back 2000000002)) ctx shop
    ≡ rejected refund_exceeds_sale business_rule
unfolding apply create_schema apply_create resolve_sale resolve_account check_lines prior_qty
    prior_amount compute_values line_target cumulative_target nearest
too_much = refl

shop-IsSettled : IsSettled nearest sale shop
unfolding prior_refunded prior_credit_note cumulative_target sale_credit nearest
shop-IsSettled = record {
  capped = ground arith;
  noted = refl;
  fresh = (ground arith, tt);
  older = (ground arith, tt);
}

credit_covered : sale_credit shop.sale_payments 30 ≤ 100
unfolding sale_credit
credit_covered = ground arith

some_total : 0 < 100
some_total = ground arith

apply-IsSettled_example : IsSettled nearest sale later
apply-IsSettled_example =
    apply-IsSettled nearest nearest-IsProrate create (some (take_back 2000000000)) ctx shop
      paid_back later rest_returned sale some_total credit_covered ((λ _. refl), tt) shop-IsSettled

apply-IsPaid_example :
    (given noted : ℕ) × (given + noted ≡ 67)
    × (account_out 20 later.books.account_transactions
        ≡ account_out 20 shop.books.account_transactions + given)
    × (prior_credit_note later.books.customer_ledger_events later.refunds 30
        ≡ prior_credit_note shop.books.customer_ledger_events shop.refunds 30 + noted)
    × (sum_by (λ (l : RefundLineRow). l.amount_paise) later.refund_lines
        ≡ sum_by (λ (l : RefundLineRow). l.amount_paise) shop.refund_lines + 67)
apply-IsPaid_example =
    apply-IsPaid nearest nearest-IsProrate create (some (take_back 2000000000)) ctx shop paid_back
      later rest_returned sale some_total credit_covered ((λ _. refl), tt) shop-IsSettled refl
