-- ===== src/Refund/Prior.antt =====
-- The payload of a refund, its lookups and what earlier refunds gave, of
-- apps/backend/src/sync/push/handlers/refund.handler.ts.
use ayphen_retail_pos.Common.{
  ℕ, ◌+◌, ◌/◌, Bool, true, false, ◌&&◌, not, Option, none, some, List, [], ◌∷◌, ltb, ◌==◌,
  if◌then◌else◌, find, filter, all, any, sum_by, length,
}
use ayphen_retail_pos.Ledger.{MutationContext, LedgerKind, credit_note, LedgerEvent}
use ayphen_retail_pos.StoreDb.{
  PaymentAccountRow, SaleRow, SaleLineRow, SalePaymentRow, RefundRow, RefundLineRow, Db,
  validation_failed, account_inactive, sale_not_found, sale_line_not_found, validation,
  business_rule, Exec, done, rejected,
}
use ayphen_retail_pos.Sale.{map_get}

-- The unit of a quantity in a request is 1e-9, the tolerance of the handler's comparisons; a column
-- `numeric(12, 3)` holds thousandths, and rounds what it is given, a half up.
abbrev pub per_thousandth : ℕ
per_thousandth = 1000000

abbrev pub to_numeric : ℕ → ℕ
to_numeric qty = (qty + 500000) / 1000000

pub record RefundLine : Type 0 where
  pub sale_line_guuid : ℕ
  pub qty : ℕ

pub record CreateRefund : Type 0 where
  pub guuid : ℕ
  pub sale_guuid : ℕ
  pub account_guuid : ℕ
  pub lines : List RefundLine

-- `createSchema`
unfoldable pub create_schema : CreateRefund → Bool
create_schema d = ltb 0 (length d.lines) && all (λ (l : RefundLine). ltb 0 l.qty) d.lines

-- The sale and the account of the payload.
unfoldable pub resolve_sale : MutationContext → CreateRefund → Db → Exec SaleRow
resolve_sale ctx d db =
    elim (find (λ (s : SaleRow). s.guuid == d.sale_guuid && s.store_fk == ctx.store_id) db.sales) [
      | none ↦ rejected sale_not_found business_rule
      | some s ↦ done s
    ]

unfoldable pub resolve_account : MutationContext → CreateRefund → Db → Exec PaymentAccountRow
resolve_account ctx d db =
    elim (find
      (λ (a : PaymentAccountRow).
        (a.guuid == d.account_guuid && a.store_fk == ctx.store_id) && not a.deleted)
      db.payment_accounts) [
        | none ↦ rejected validation_failed validation
        | some a ↦ if a.is_active then done a else rejected account_inactive business_rule
      ]

abbrev pub line_by_guuid : ℕ → List SaleLineRow → Option SaleLineRow
line_by_guuid g rows = map_get (λ (l : SaleLineRow). l.guuid) g rows

-- The lines that the refund names are on the sale.
unfoldable pub check_lines : ℕ → List ℕ → List SaleLineRow → Exec (Unit {0})
check_lines sale [] rows = done tt
check_lines sale (g ∷ gs) rows = elim (line_by_guuid g rows) [
  | none ↦ rejected sale_line_not_found business_rule
  | some l ↦
      if l.sale_fk == sale
      then check_lines sale gs rows
      else rejected sale_line_not_found business_rule
]

-- What earlier refunds gave on a line, and on a sale.
unfoldable pub prior_qty : List RefundLineRow → ℕ → ℕ
prior_qty rows line =
    sum_by (λ (r : RefundLineRow). r.qty)
      (filter (λ (r : RefundLineRow). r.sale_line_fk == line) rows)

unfoldable pub prior_amount : List RefundLineRow → ℕ → ℕ
prior_amount rows line =
    sum_by (λ (r : RefundLineRow). r.amount_paise)
      (filter (λ (r : RefundLineRow). r.sale_line_fk == line) rows)

unfoldable pub prior_refunded : List RefundRow → ℕ → ℕ
prior_refunded rows sale =
    sum_by (λ (r : RefundRow). r.amount_paise) (filter (λ (r : RefundRow). r.sale_fk == sale) rows)

-- How much of the sale was on credit, and how much of that refunds have reversed.
unfoldable pub sale_credit : List SalePaymentRow → ℕ → ℕ
sale_credit rows sale =
    sum_by (λ (p : SalePaymentRow). p.amount_paise)
      (filter (λ (p : SalePaymentRow). p.sale_fk == sale && p.on_credit) rows)

abbrev pub is_credit_note : LedgerKind → Bool
is_credit_note credit_note = true
is_credit_note _ = false

unfoldable pub prior_credit_note : List LedgerEvent → List RefundRow → ℕ → ℕ
prior_credit_note events refunds sale =
    sum_by (λ (e : LedgerEvent). e.amount_paise)
      (filter
        (λ (e : LedgerEvent).
          is_credit_note e.kind
          && any (λ (r : RefundRow). r.id == e.source_fk && r.sale_fk == sale) refunds)
        events)
