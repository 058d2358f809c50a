-- ===== src/Sale/Tests.antt =====
-- Runs of the sale handler (apps/backend/src/sync/push/handlers/sale.handler.ts) on one shop, with
-- `gross` rounding exactly, and the theorems at that shop.
use ayphen_retail_pos.Common.{
  ℕ, ◌+◌, ◌*◌, ◌/◌, ◌≡◌, ◌≢◌, refl, subst, true, false, none, some, [], ◌∷◌, arith, some_injective,
}
use ayphen_retail_pos.Ledger.{create, update, MutationContext}
use ayphen_retail_pos.StoreDb.{
  SaleRow, Db, cash, other, completed, validation_failed, validation, Exec, done, rejected, thrown,
}
use ayphen_retail_pos.Ledger.{post_sale_payment, post_credit_sale}
use ayphen_retail_pos.Ledger.Balance.{owed, settled}
use ayphen_retail_pos.Sale.{
  check_columns, is_storable, fits_line, CreateSale, apply, create_schema, line_schema,
  payment_schema, apply_create, check_products, check_accounts, resolve_customer, check_totals,
  sale_total, line_value, write_sale, allocate_invoice, payment_rows, line_rows, post_payments,
  post_credit,
}
use ayphen_retail_pos.Sale.Credit.{credit_limit_paise, credit_exceeded, passes_limit}
use ayphen_retail_pos.Sale.Conservation.{IsBooked, apply-IsBooked}
use ayphen_retail_pos.Sale.Invoice.{counter, IsNumbered, apply-IsNumbered}
use ayphen_retail_pos.Sale.Accepted.{credit_portion, values}
use ayphen_retail_pos.Sale.Total.{IsSafeBalance}
use ayphen_retail_pos.Sale.NeverThrows.{apply-ne-thrown}

-- Rounding to the nearest paisa, for a quantity in thousandths.
abbrev exact : ℕ → ℕ → ℕ
exact qty price = (qty * price + 500) / 1000

abbrev ctx : MutationContext
ctx = record { store_id = 7; user_id = 1; device_id = 2 }

abbrev shop : Db
shop = record {
  products =
      record { id = 100; guuid = 10; store_fk = 7; deleted = false }
      ∷ record { id = 101; guuid = 11; store_fk = 7; deleted = false }
      ∷ [];
  payment_accounts =
      record { id = 200; guuid = 20; store_fk = 7; is_active = true; deleted = false }
      ∷ record { id = 201; guuid = 21; store_fk = 7; is_active = false; deleted = false }
      ∷ [];
  customers =
      record {
        id = 300;
        guuid = 30;
        store_fk = 7;
        credit_limit = some (b'5' ∷ b'.' ∷ b'5' ∷ []);
        override_credit_limit = none;
        deleted = false;
      }
      ∷ [];
  stores = record { id = 7; invoice_counter = 41; invoice_prefix = some 1 } ∷ [];
  sales =
      record {
        id = 400;
        store_fk = 7;
        guuid = 40;
        customer_fk = none;
        total_paise = 100;
        invoice_no = (1, 41);
        status = completed;
      }
      ∷ [];
  sale_lines = [];
  sale_payments = [];
  refunds = [];
  refund_lines = [];
  books = record {
    account_transactions = [];
    customer_ledger_events = [];
    opening_balances = [];
    next_id = 1000;
  };
}

-- 1.5 kg at 399 and 2 pieces at 250 less 100: 599 + 400, of which 600 are sold on credit.
abbrev cart : CreateSale
cart = record {
  guuid = 41;
  customer_guuid = some 30;
  lines =
      record { product_guuid = 10; qty = 1500; unit_price_paise = 399; discount_paise = none }
      ∷ record { product_guuid = 11; qty = 2000; unit_price_paise = 250; discount_paise = some 100 }
      ∷ [];
  payments =
      record { account_guuid = some 20; tender = cash; amount_paise = 399; on_credit = false }
      ∷ record { account_guuid = none; tender = other; amount_paise = 600; on_credit = true }
      ∷ [];
}

abbrev value_of : Exec (SaleRow × Db) → SaleRow × Db
value_of (done p) = p
value_of _ = (
  record {
    id = 0;
    store_fk = 0;
    guuid = 0;
    customer_fk = none;
    total_paise = 0;
    invoice_no = (0, 0);
    status = completed;
  },
  shop,
)

abbrev sold : SaleRow × Db
sold = value_of (apply exact create (some cart) ctx shop)

limits :
    (credit_limit_paise (some (b'5' ∷ b'.' ∷ b'5' ∷ [])) ≡ 550)
    × (credit_limit_paise (some (b' ' ∷ b'1' ∷ b'2' ∷ b'.' ∷ b'3' ∷ b'4' ∷ b' ' ∷ [])) ≡ 1234)
    × (credit_limit_paise (some (b'-' ∷ b'5' ∷ [])) ≡ 0)
    × (credit_limit_paise (some (b'5' ∷ b'.' ∷ [])) ≡ 0)
    × (credit_limit_paise none ≡ 0)
unfolding credit_limit_paise
limits = (refl, refl, refl, refl, refl)

apply-IsBooked_example : IsBooked ctx shop sold.0 sold.1
unfolding apply create_schema line_schema payment_schema apply_create check_products check_accounts
    resolve_customer check_totals sale_total line_value write_sale allocate_invoice payment_rows
    line_rows post_payments post_sale_payment post_credit credit_exceeded passes_limit owed settled
    credit_limit_paise post_credit_sale check_columns is_storable fits_line
apply-IsBooked_example = apply-IsBooked exact create (some cart) ctx shop refl

apply-IsNumbered_example :
    IsNumbered sold.1.stores sold.1.sales
    × (sold.0.invoice_no.1 ≡ counter ctx.store_id shop.stores + 1)
unfolding apply create_schema line_schema payment_schema apply_create check_products check_accounts
    resolve_customer check_totals sale_total line_value write_sale allocate_invoice payment_rows
    line_rows post_payments post_sale_payment post_credit credit_exceeded passes_limit owed settled
    credit_limit_paise post_credit_sale check_columns is_storable fits_line
apply-IsNumbered_example =
    apply-IsNumbered exact create (some cart) ctx shop refl
      (record { below = (omega arith, tt); distinct = (tt, tt) })

safe : (d : CreateSale) → cart ≡ d → IsSafeBalance 7 (credit_portion d) shop.books
unfolding owed settled
safe d e =
    subst (λ x. IsSafeBalance 7 (credit_portion x) shop.books) e (λ c. (omega arith, omega arith))

storable : (d : CreateSale) → cart ≡ d → is_storable d (values exact ctx d shop) shop.sales ≡ true
unfolding is_storable fits_line line_value
storable d e = subst (λ x. is_storable x (values exact ctx x shop) shop.sales ≡ true) e refl

accepted :
    (d : CreateSale)
    → some cart ≡ some d
    → IsSafeBalance 7 (credit_portion d) shop.books
      × (is_storable d (values exact ctx d shop) shop.sales ≡ true)
accepted d e = (safe d (some_injective e), storable d (some_injective e))

apply-ne-thrown_example : apply exact create (some cart) ctx shop ≢ thrown
apply-ne-thrown_example =
    apply-ne-thrown exact ctx shop (record { store = _; prefix = 1; found = refl; prefixed = refl })
      create (some cart) accepted

append_only : apply exact update (some cart) ctx shop ≡ rejected validation_failed validation
unfolding apply
append_only = refl
