-- ===== src/Sale/Conservation.antt =====
-- The money of an accepted sale (apps/backend/src/sync/push/handlers/sale.handler.ts): what its
-- tenders and its credit portion post to the two books of
-- apps/backend/src/ledger/account-posting.service.ts.
pub mod Posted
unfoldable pub use Posted.*
use ayphen_retail_pos.Common.{
  max_safe_integer, ℕ, suc, ◌+◌, ◌≤◌, ◌<◌, ◌≡◌, refl, sym, ap, subst, ◌∙◌, Bool, not, Option, none,
  some, List, [], ◌∷◌, ◌++◌, inl, inr, ltb, if◌then◌else◌, length, filter, sum_by, All, arith,
  Bool-cases, Option-cases,
}
use mathlib.Core.List.{append-nil, append_assoc}
use ayphen_retail_pos.Ledger.{
  MutationAction, MutationContext, Books, AccountTransaction, LedgerEvent, credit, credit_sale,
  sale_reason, sale_source, post_sale_payment, post_credit_sale,
}
use ayphen_retail_pos.StoreDb.{PaymentAccountRow, CustomerRow, SaleRow, SalePaymentRow, Db, done}
use ayphen_retail_pos.Sale.{
  CreateSale, Payment, on_credit, amount, payment_rows, post_payments, post_credit,
  allocate_invoice, check_totals, sale_total, apply,
}
use ayphen_retail_pos.Sale.Credit.{credit_exceeded}
use ayphen_retail_pos.Sale.Accepted.{
  done-injective, >>=-eq-done, credit_portion, selected_accounts, apply-Accepted,
  write_sale-Written, values,
}

-- The allocation of a number writes nothing but the counter.
pub allocate_invoice-books :
    (ctx : MutationContext) (db : Db) {invoice : ℕ × ℕ} {db' : Db}
    → allocate_invoice ctx db ≡ done (invoice, db')
    → (db'.books ≡ db.books) × (db'.sales ≡ db.sales)
unfolding allocate_invoice
allocate_invoice-books ctx db h = ground arith

-- Every paisa of an accepted sale is booked once: the payload's total, which the sale's row
-- carries and the sale lines add up to, is what the new rows of the account book put into accounts
-- plus what the new rows of the customers' book put on credit, and both books keep their old rows.
pub record IsBooked (ctx : MutationContext) (db : Db) (sale : SaleRow) (db' : Db) : Type 0 where
  pub transactions : List AccountTransaction
  pub events : List LedgerEvent
  pub account_book : db'.books.account_transactions ≡ db.books.account_transactions ++ transactions
  pub customer_book : db'.books.customer_ledger_events ≡ db.books.customer_ledger_events ++ events
  pub in_accounts : All (IsSaleCredit ctx) transactions
  pub on_credit_sale : All (IsCreditSale ctx sale.id) events
  pub booked : sum_by posted transactions + sum_by event_amount events ≡ sale.total_paise

pub check_totals_eq :
    (gross : ℕ → ℕ → ℕ) (total payments : ℕ)
    → check_totals gross total payments ≡ done tt
    → (payments ≡ total) × (0 < total) × (total ≤ max_safe_integer)
unfolding check_totals
check_totals_eq gross total payments h = ground arith

-- An accepted sale books its whole total once, on the accounts and on the customer's credit.
pub apply-IsBooked :
    (gross : ℕ → ℕ → ℕ) (a : MutationAction) (payload : Option CreateSale) (ctx : MutationContext)
    (db : Db) {sale : SaleRow} {db' : Db}
    → apply gross a payload ctx db ≡ done (sale, db')
    → IsBooked ctx db sale db'
unfolding sale_total
apply-IsBooked gross a payload ctx db {sale} {db'} h =
    let (d, _, accepted) = apply-Accepted gross ctx a payload db h in
    let w = write_sale-Written gross ctx d accepted.customer db accepted.written in
    let id = w.numbered.books.next_id in
    let accounts = selected_accounts ctx d db in
    let n = suc id + length (values gross ctx d db) in
    let rows = payment_rows id n accounts d.payments in
    let tenders = post_payments_lem rows ctx _ w.posted in
    let on_account =
      post_credit_lem (credit_portion d) id accepted.customer ctx w.tendered w.portion in
    let same = allocate_invoice-books ctx db w.allocated in
    record {
      transactions = tender_postings ctx rows;
      events = on_account.1.0;
      account_book =
          ap (λ b. b.account_transactions) w.books_eq
          ∙ on_account.0
          ∙ tenders.0
          ∙ ap (λ b. b.account_transactions ++ tender_postings ctx rows) same.0;
      customer_book =
          ap (λ b. b.customer_ledger_events) w.books_eq
          ∙ on_account.1.1
          ∙ ap (λ es. es ++ on_account.1.0) (tenders.1 ∙ ap (λ b. b.customer_ledger_events) same.0);
      in_accounts = tender_postings-IsSaleCredit rows ctx;
      on_credit_sale =
          subst (λ k. All (IsCreditSale ctx k) on_account.1.0) (sym (ap (λ r. r.id) w.sale_eq))
            on_account.1.2;
      booked = omega (
        arith,
        on_account.1.3,
        sum-tender_postings rows ctx _ w.posted,
        tendered-payment_rows d.payments id n accounts,
        (check_totals_eq gross _ _ accepted.totals).0,
        ap (λ r. r.total_paise) w.sale_eq,
      );
    }
