-- ===== src/Sale/Writes.antt =====
-- What an accepted sale writes, of apps/backend/src/sync/push/handlers/sale.handler.ts: the
-- invoice number, the rows, the postings, and the checks of the columns.
use ayphen_retail_pos.Common.{
  ℕ, suc, ◌+◌, Bool, true, false, ◌&&◌, not, Option, none, some, List, [], ◌∷◌, ltb, leb, ◌==◌,
  if◌then◌else◌, all, any, sum_by,
}
use ayphen_retail_pos.Ledger.{MutationContext, Books, post_sale_payment, post_credit_sale}
use ayphen_retail_pos.StoreDb.{
  PaymentAccountRow, CustomerRow, StoreRow, SaleRow, SaleLineRow, SalePaymentRow, Db, Exec, done,
  thrown, ◌>>=◌,
}
use ayphen_retail_pos.Sale.Lookups.{Payment, CreateSale, LineValue, map_get}
use ayphen_retail_pos.Sale.Credit.{credit_exceeded}

-- `UPDATE stores SET invoice_counter = invoice_counter + 1 WHERE id = store`
abbrev pub bump_counter : ℕ → List StoreRow → List StoreRow
bump_counter store [] = []
bump_counter store (s ∷ ss) =
    (if s.id == store then record s { invoice_counter = s.invoice_counter + 1 } else s)
    ∷ bump_counter store ss

abbrev pub find_store : ℕ → List StoreRow → Option StoreRow
find_store store [] = none
find_store store (s ∷ ss) = if s.id == store then some s else find_store store ss

-- The bump and what it returns; a missing store or prefix throws.
unfoldable pub allocate_invoice : MutationContext → Db → Exec ((ℕ × ℕ) × Db)
allocate_invoice ctx db =
    let stores' = bump_counter ctx.store_id db.stores in
    elim (find_store ctx.store_id stores') [
      | none ↦ thrown
      | some s ↦ elim s.invoice_prefix [
        | none ↦ thrown
        | some prefix ↦ done ((prefix, s.invoice_counter), record db { stores = stores' })
      ]
    ]

-- The postings of the tenders that are not on credit.
unfoldable pub post_payments : List SalePaymentRow → MutationContext → Books → Exec Books
post_payments [] ctx b = done b
post_payments (p ∷ ps) ctx b = elim p.on_credit [
  | true ↦ post_payments ps ctx b
  | false ↦ elim p.account_fk [
    | none ↦ thrown
    | some account ↦ post_payments ps ctx (post_sale_payment account p.amount_paise p.id ctx b)
  ]
]

-- The rows of `sale_payments`, each with an id of its own.
unfoldable pub payment_rows : ℕ → ℕ → List PaymentAccountRow → List Payment → List SalePaymentRow
payment_rows sale n accounts [] = []
payment_rows sale n accounts (p ∷ ps) =
    record {
      id = n;
      sale_fk = sale;
      account_fk = if p.on_credit then none else elim p.account_guuid [
        | none ↦ none
        | some g ↦ elim (map_get (λ (a : PaymentAccountRow). a.guuid) g accounts) [
          | none ↦ none
          | some a ↦ some a.id
        ]
      ];
      tender = p.tender;
      amount_paise = p.amount_paise;
      on_credit = p.on_credit;
    }
    ∷ payment_rows sale (suc n) accounts ps

unfoldable pub line_rows : ℕ → ℕ → List LineValue → List SaleLineRow
line_rows sale n [] = []
line_rows sale n (v ∷ vs) =
    record {
      id = n;
      guuid = n;
      sale_fk = sale;
      product_fk = v.product_fk;
      qty = v.qty;
      unit_price_paise = v.unit_price_paise;
      discount_paise = v.discount_paise;
      line_total_paise = v.line_total_paise;
    }
    ∷ line_rows sale (suc n) vs

-- The credit portion of the sale moves the customer's book, flagged when it passes the limit.
unfoldable pub post_credit : ℕ → Option CustomerRow → ℕ → MutationContext → Books → Exec Books
post_credit portion customer sale ctx b = elim (ltb 0 portion) [
  | false ↦ done b
  | true ↦ elim customer [
    | none ↦ thrown
    | some c ↦ do
      exceeded ← credit_exceeded ctx.store_id c portion b
      done (post_credit_sale c.id portion sale exceeded ctx b)
  ]
]

-- The columns' bounds: `integer` for money, `numeric(12, 3)` for a quantity in thousandths.
abbrev pub max_int4 : ℕ
max_int4 = 2147483647

unfoldable pub fits_line : LineValue → Bool
fits_line v =
    ltb v.qty 1000000000000
    && leb v.unit_price_paise max_int4
    && leb v.discount_paise max_int4
    && leb v.line_total_paise max_int4

-- The rows of a sale can be inserted: its amounts fit their columns and its guuid is new.
unfoldable pub is_storable : CreateSale → List LineValue → List SaleRow → Bool
is_storable d values sales =
    leb (sum_by (λ (v : LineValue). v.line_total_paise) values) max_int4
    && all fits_line values
    && all (λ (p : Payment). leb p.amount_paise max_int4) d.payments
    && not (any (λ (s : SaleRow). s.guuid == d.guuid) sales)

-- The database's own checks on the inserts: a violation throws.
unfoldable pub check_columns : CreateSale → List LineValue → List SaleRow → Exec (Unit {0})
check_columns d values sales = if is_storable d values sales then done tt else thrown
