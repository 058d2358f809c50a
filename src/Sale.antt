-- ===== src/Sale.antt =====
-- The sale handler of apps/backend/src/sync/push/handlers/sale.handler.ts: the payload's schema,
-- and `apply` in the stages of the source. `gross` is `Math.round(qty * unit_price)` on doubles, a
-- parameter of the model, for a quantity in thousandths.
pub mod Writes
pub mod Lookups
pub mod Credit
pub mod Accepted
pub mod Conservation
pub mod Invoice
pub mod Total
pub mod NeverThrows
mod Tests
unfoldable pub use Writes.*
unfoldable pub use Lookups.*
use ayphen_retail_pos.Common.{
  max_safe_integer, is_safe_integer, ℕ, suc, ◌+◌, ◌-◌, Bool, true, false, ◌&&◌, ◌||◌, not, Option,
  none, some, List, [], ◌∷◌, ◌++◌, map, ltb, leb, ◌==◌, if◌then◌else◌, or_default, is_some, length,
  filter, all, any, sum_by, member,
}
use ayphen_retail_pos.Ledger.{
  MutationAction, create, MutationContext, Books, post_sale_payment, post_credit_sale,
}
use ayphen_retail_pos.StoreDb.{
  ProductRow, PaymentAccountRow, CustomerRow, StoreRow, SaleRow, SaleLineRow, SalePaymentRow,
  Tender, completed, Db, ErrorCode, validation_failed, account_inactive, customer_not_found,
  payment_mismatch, validation, business_rule, Exec, done, rejected, thrown, ◌>>=◌, ◌>>◌,
}
use Credit.{credit_exceeded}

module _ (gross : ℕ → ℕ → ℕ) where
  -- `lineSchema` with the checks of the outer `superRefine` on the line
  unfoldable pub line_schema : Line → Bool
  line_schema l =
      ltb 0 l.qty
      && is_safe_integer l.qty
      && is_safe_integer l.unit_price_paise
      && is_safe_integer (or_default l.discount_paise 0)
      && is_safe_integer (gross l.qty l.unit_price_paise)
      && leb (or_default l.discount_paise 0) (gross l.qty l.unit_price_paise)

  -- `createSchema`
  unfoldable pub create_schema : CreateSale → Bool
  create_schema d =
      ltb 0 (length d.lines)
      && ltb 0 (length d.payments)
      && all line_schema d.lines
      && all payment_schema d.payments
      && leb (length (filter on_credit d.payments)) 1
      && (leb (length (filter on_credit d.payments)) 0 || is_some d.customer_guuid)

  unfoldable pub line_value : List ProductRow → Line → LineValue
  line_value products l = record {
    product_fk = elim (map_get (λ (p : ProductRow). p.guuid) l.product_guuid products) [
      | none ↦ none
      | some p ↦ some p.id
    ];
    qty = l.qty;
    unit_price_paise = l.unit_price_paise;
    discount_paise = or_default l.discount_paise 0;
    line_total_paise = gross l.qty l.unit_price_paise - or_default l.discount_paise 0;
  }

  -- `lineValues.reduce`
  unfoldable pub sale_total : List ProductRow → List Line → ℕ
  sale_total products ls =
      sum_by (λ (v : LineValue). v.line_total_paise) (map (line_value products) ls)

  unfoldable pub check_totals : ℕ → ℕ → Exec (Unit {0})
  check_totals total payments =
      if not (is_safe_integer total)
      then rejected validation_failed validation
      else if leb total 0
      then rejected validation_failed validation
      else if not (is_safe_integer payments) || not (payments == total)
      then rejected payment_mismatch validation
      else done tt

  -- The writes of an accepted sale: header, lines, tenders, postings.
  unfoldable pub write_sale :
      MutationContext
      → CreateSale
      → List LineValue
      → List PaymentAccountRow
      → Option CustomerRow
      → Db
      → Exec (SaleRow × Db)
  write_sale ctx d values accounts customer db = do
    check_columns d values db.sales
    (invoice, db₁) ← allocate_invoice ctx db
    let id = db₁.books.next_id
    let sale : SaleRow = record {
      id = id;
      store_fk = ctx.store_id;
      guuid = d.guuid;
      customer_fk = elim customer [ none ↦ none | some c ↦ some c.id ];
      total_paise = sum_by (λ (v : LineValue). v.line_total_paise) values;
      invoice_no = invoice;
      status = completed;
    }
    let lines = line_rows id (suc id) values
    let tenders = payment_rows id (suc id + length values) accounts d.payments
    let books₁ = record (db₁.books) { next_id = suc id + length values + length d.payments }
    books₂ ← post_payments tenders ctx books₁
    books₃ ← post_credit (sum_by amount (filter on_credit d.payments)) customer id ctx books₂
    done (
      sale,
      record db₁ {
        sales = db₁.sales ++ sale ∷ [];
        sale_lines = db₁.sale_lines ++ lines;
        sale_payments = db₁.sale_payments ++ tenders;
        books = books₃;
      },
    )

  -- The create path, after the payload has been parsed.
  unfoldable pub apply_create : MutationContext → CreateSale → Db → Exec (SaleRow × Db)
  apply_create ctx d db =
      let product_guuids = unique (map (λ (l : Line). l.product_guuid) d.lines) in
      let account_ids = unique (account_guuids d.payments) in
      let products =
        filter
          (λ (p : ProductRow).
            (p.store_fk == ctx.store_id && member p.guuid product_guuids) && not p.deleted)
          db.products in
      let accounts =
        filter
          (λ (a : PaymentAccountRow).
            (a.store_fk == ctx.store_id && member a.guuid account_ids) && not a.deleted)
          db.payment_accounts in
      do
        check_products product_guuids products
        check_accounts account_ids accounts
        customer ← resolve_customer d.customer_guuid ctx.store_id db.customers
        check_totals (sale_total products d.lines) (sum_by amount d.payments)
        write_sale ctx d (map (line_value products) d.lines) accounts customer db

  -- `apply`: `none` is a payload that is not of the schema's shape.
  unfoldable pub apply :
      MutationAction → Option CreateSale → MutationContext → Db → Exec (SaleRow × Db)
  apply create payload ctx db = elim payload [
    | none ↦ rejected validation_failed validation
    | some d ↦
        if create_schema d then apply_create ctx d db else rejected validation_failed validation
  ]
  apply _ payload ctx db = rejected validation_failed validation
