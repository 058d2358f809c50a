-- ===== src/Refund.antt =====
-- The refund handler of apps/backend/src/sync/push/handlers/refund.handler.ts, in the stages of
-- `apply`. A quantity of a request is in units of 1e-9 and a stored one in thousandths, to which the column
-- rounds it; sums and comparisons are exact. `prorate a b t` is `Math.round((a / b) * t)` on doubles,
-- a parameter. An amount is signed in the source: where a
-- target is below what was given, `deficit` holds by how much; such a line fails its column's check.
pub mod Prior
pub mod Accepted
pub mod Values
pub mod Lines
pub mod Notes
pub mod Money
pub mod Settled
pub mod Paid
pub mod Nearest
mod Tests
unfoldable pub use Prior.*
use ayphen_retail_pos.Common.{
  ℕ, suc, ◌+◌, ◌*◌, ◌-◌, Bool, true, false, ◌&&◌, not, Option, none, some, List, [], ◌∷◌, ◌++◌, map,
  ltb, leb, ◌==◌, if◌then◌else◌, find, filter, all, any, sum_by, member, length,
}
use ayphen_retail_pos.Ledger.{
  MutationAction, create, MutationContext, LedgerKind, credit_note, LedgerEvent, Books, post_refund,
  post_refund_credit_note,
}
use ayphen_retail_pos.StoreDb.{
  PaymentAccountRow, SaleRow, SaleLineRow, SalePaymentRow, RefundRow, RefundLineRow, SaleStatus,
  refunded, partially_refunded, Db, validation_failed, account_inactive, sale_not_found,
  sale_line_not_found, refund_exceeds_sale, validation, business_rule, Exec, done, rejected, thrown,
  ◌>>=◌, ◌>>◌,
}
use ayphen_retail_pos.Sale.{max_int4, unique, map_get}

-- An element of `values`, and the two running maps.
pub record RefundValue : Type 0 where
  pub sale_line_fk : ℕ
  pub qty : ℕ
  pub amount_paise : ℕ
  pub deficit : ℕ

pub record Running : Type 0 where
  pub qty_of : ℕ → ℕ
  pub amount_of : ℕ → ℕ

abbrev pub set_at : (ℕ → ℕ) → ℕ → ℕ → ℕ → ℕ
set_at f k v a = if a == k then v else f a

-- The rows of `refund_lines`, each with an id of its own.
unfoldable pub refund_line_rows : ℕ → ℕ → List RefundValue → List RefundLineRow
refund_line_rows refund n [] = []
refund_line_rows refund n (v ∷ vs) =
    record {
      id = n;
      refund_fk = refund;
      sale_line_fk = v.sale_line_fk;
      qty = to_numeric v.qty;
      amount_paise = v.amount_paise;
    }
    ∷ refund_line_rows refund (suc n) vs

abbrev pub amount_of_value : RefundValue → ℕ
amount_of_value v = v.amount_paise

abbrev pub deficit_of_value : RefundValue → ℕ
deficit_of_value v = v.deficit

-- The checks of the two tables: positive quantities and amounts that fit, and a new guuid. A violation throws.
unfoldable pub check_columns : CreateRefund → ℕ → List RefundValue → Db → Exec (Unit {0})
check_columns d amount values db =
    if ltb 0 amount
      && leb amount max_int4
      && all (λ (v : RefundValue). ltb 0 v.amount_paise && leb v.amount_paise max_int4) values
      && all (λ (v : RefundValue). ltb 0 (to_numeric v.qty)) values
      && not (any (λ (r : RefundRow). r.guuid == d.guuid) db.refunds)
    then done tt
    else thrown

unfoldable pub set_status : ℕ → SaleStatus → List SaleRow → List SaleRow
set_status sale status [] = []
set_status sale status (s ∷ ss) =
    (if s.id == sale then record s { status = status } else s) ∷ set_status sale status ss

unfoldable pub post_cash : ℕ → ℕ → ℕ → MutationContext → Books → Books
post_cash account amount refund ctx b =
    if ltb 0 amount then post_refund account amount refund ctx b else b

-- The column of the customer is not null.
unfoldable pub post_note : Option ℕ → ℕ → ℕ → MutationContext → Books → Exec Books
post_note customer amount refund ctx b = elim (ltb 0 amount) [
  | false ↦ done b
  | true ↦ elim customer [
    | none ↦ thrown
    | some c ↦ done (post_refund_credit_note c amount refund ctx b)
  ]
]

-- The split of a refund: `creditPortionOfRefund` and `cashPortionOfRefund`, each where it is positive.
pub record Split : Type 0 where
  pub credit_portion : ℕ
  pub cash_portion : ℕ

-- The cap on the sale, in signed arithmetic.
unfoldable pub check_cap : SaleRow → List RefundValue → Db → Exec (Unit {0})
check_cap sale values db =
    if ltb (sale.total_paise + sum_by deficit_of_value values)
      (prior_refunded db.refunds sale.id + sum_by amount_of_value values)
    then rejected refund_exceeds_sale business_rule
    else done tt

module _ (prorate : ℕ → ℕ → ℕ → ℕ) where
  -- `cumulativeTarget` of a line, for a quantity in units of 1e-9 of a line sold in thousandths
  unfoldable pub line_target : ℕ → ℕ → ℕ → ℕ
  line_target qty original total =
      if leb (original * per_thousandth) (qty + 1)
      then total
      else prorate qty (original * per_thousandth) total

  -- `creditCumulativeTarget`, on whole paise
  unfoldable pub cumulative_target : ℕ → ℕ → ℕ → ℕ
  cumulative_target given whole total = if leb whole given then total else prorate given whole total

  -- The loop over the lines.
  unfoldable pub compute_values :
      List RefundLine → List SaleLineRow → Running → Exec (List RefundValue)
  compute_values [] rows run = done []
  compute_values (l ∷ ls) rows run = elim (line_by_guuid l.sale_line_guuid rows) [
    | none ↦ thrown
    | some original ↦
        (let qty = run.qty_of original.id + l.qty in
          let target = line_target qty original.qty original.line_total_paise in
          let given = run.amount_of original.id in
          let value : RefundValue = record {
            sale_line_fk = original.id;
            qty = l.qty;
            amount_paise = target - given;
            deficit = given - target;
          } in
          let rest = compute_values ls rows (record {
            qty_of = set_at run.qty_of original.id qty;
            amount_of = set_at run.amount_of original.id target;
          }) in
          if ltb (original.qty * per_thousandth + 1) qty
          then rejected refund_exceeds_sale business_rule
          else rest >>= λ vs. done (value ∷ vs))
  ]

  unfoldable pub split_refund : ℕ → ℕ → ℕ → ℕ → ℕ → Split
  split_refund amount refunded_total sale_total credit prior_note =
      let target = cumulative_target refunded_total sale_total credit in
      if ltb 0 credit
      then record {
        credit_portion = target - prior_note;
        cash_portion = amount + prior_note - target;
      }
      else record { credit_portion = 0; cash_portion = amount }

  -- The writes of an accepted refund: header, lines, postings, the sale's status.
  unfoldable pub write_refund :
      MutationContext
      → CreateRefund
      → SaleRow
      → PaymentAccountRow
      → List RefundValue
      → Db
      → Exec (RefundRow × Db)
  write_refund ctx d sale account values db =
      let amount = sum_by amount_of_value values in
      let total = prior_refunded db.refunds sale.id + amount in
      let parts =
        split_refund amount total sale.total_paise (sale_credit db.sale_payments sale.id)
          (prior_credit_note db.books.customer_ledger_events db.refunds sale.id) in
      let id = db.books.next_id in
      let refund : RefundRow = record {
        id = id;
        guuid = d.guuid;
        store_fk = ctx.store_id;
        sale_fk = sale.id;
        account_fk = account.id;
        amount_paise = amount;
      } in
      let books₁ = record (db.books) { next_id = suc id + length values } in
      do
        check_columns d amount values db
        books₂ ←
            post_note sale.customer_fk parts.credit_portion id ctx
              (post_cash account.id parts.cash_portion id ctx books₁)
        done (
          refund,
          record db {
            refunds = db.refunds ++ refund ∷ [];
            refund_lines = db.refund_lines ++ refund_line_rows id (suc id) values;
            sales =
                set_status sale.id
                  (if leb sale.total_paise total then refunded else partially_refunded) db.sales;
            books = books₂;
          },
        )

  -- The create path, after the payload has been parsed.
  unfoldable pub apply_create : MutationContext → CreateRefund → Db → Exec (RefundRow × Db)
  apply_create ctx d db =
      let guuids = unique (map (λ (l : RefundLine). l.sale_line_guuid) d.lines) in
      let originals = filter (λ (l : SaleLineRow). member l.guuid guuids) db.sale_lines in
      do
        sale ← resolve_sale ctx d db
        account ← resolve_account ctx d db
        check_lines sale.id guuids originals
        values ← compute_values d.lines originals (record {
          qty_of = λ line. prior_qty db.refund_lines line * per_thousandth;
          amount_of = prior_amount db.refund_lines;
        })
        check_cap sale values db
        write_refund ctx d sale account values db

  -- `apply`: `none` is a payload that is not of the schema's shape.
  unfoldable pub apply :
      MutationAction → Option CreateRefund → MutationContext → Db → Exec (RefundRow × Db)
  apply create payload ctx db = elim payload [
    | none ↦ rejected validation_failed validation
    | some d ↦
        if create_schema d then apply_create ctx d db else rejected validation_failed validation
  ]
  apply _ payload ctx db = rejected validation_failed validation
