-- ===== src/Refund/Lines.antt =====
-- What refunds give on a line of a sale (apps/backend/src/sync/push/handlers/refund.handler.ts).
use ayphen_retail_pos.Common.{
  ℕ, ◌*◌, none, some, ◌+◌, ◌≤◌, ◌≡◌, ◌⊎◌, Option, List, ◌==◌, filter, sum_by, All,
}
use ayphen_retail_pos.StoreDb.{SaleLineRow, RefundLineRow}
use ayphen_retail_pos.Refund.{
  per_thousandth, to_numeric, RefundLine, CreateRefund, prior_qty, prior_amount, RefundValue,
  Running, amount_of_value, line_target,
}
use ayphen_retail_pos.Refund.Values.{IsPositive}

-- The sums of the new lines.
abbrev qty_on : ℕ → List RefundValue → ℕ
qty_on line vs =
    sum_by (λ (v : RefundValue). v.qty) (filter (λ (v : RefundValue). v.sale_line_fk == line) vs)

abbrev amount_on : ℕ → List RefundValue → ℕ
amount_on line vs = sum_by amount_of_value (filter (λ (v : RefundValue). v.sale_line_fk == line) vs)

-- A whole number of thousandths, which the column stores as it is.
abbrev pub IsWhole : ℕ → Type 0
IsWhole qty = (w : ℕ) × (qty ≡ w * per_thousandth)

abbrev stored_on : ℕ → List RefundValue → ℕ
stored_on line vs =
    sum_by (λ (v : RefundValue). to_numeric v.qty)
      (filter (λ (v : RefundValue). v.sale_line_fk == line) vs)

-- Refunds on a line return no more than was sold, and what they gave is the target of what they
-- returned: the roundings leave nothing behind.
abbrev pub IsRefunded : (ℕ → ℕ → ℕ → ℕ) → SaleLineRow → List RefundLineRow → Type 0
IsRefunded prorate l rows =
    (prior_qty rows l.id ≤ l.qty)
    × (((prior_qty rows l.id ≡ 0) × (prior_amount rows l.id ≡ 0))
        ⊎ (prior_amount rows l.id
            ≡ line_target prorate (prior_qty rows l.id * per_thousandth) l.qty l.line_total_paise))

-- A line is known by its id.
abbrev pub IsKeyed : SaleLineRow → List SaleLineRow → Type 0
IsKeyed l rows = All (λ (x : SaleLineRow). x.id ≡ l.id → x ≡ l) rows

module _ (prorate : ℕ → ℕ → ℕ → ℕ) (l : SaleLineRow) where
  abbrev target : ℕ → ℕ
  target qty = line_target prorate qty l.qty l.line_total_paise

  -- What the loop adds to a line that starts with a quantity and an amount.
  record IsStacked (qty amount qty_added amount_added : ℕ) : Type 0 where
    within : qty ≤ l.qty * per_thousandth → qty + qty_added ≤ l.qty * per_thousandth
    settled :
        ((qty_added ≡ 0) × (amount_added ≡ 0)) ⊎ (amount + amount_added ≡ target (qty + qty_added))

  abbrev Stacks : Running → List RefundValue → Type 0
  Stacks run vs =
      IsStacked (run.qty_of l.id) (run.amount_of l.id) (qty_on l.id vs) (amount_on l.id vs)

  -- Whole quantities so far on every line.
  abbrev IsWholeRun : Running → Type 0
  IsWholeRun run = (line : ℕ) → IsWhole (run.qty_of line)

  abbrev Returns : Running → List RefundValue → Type 0
  Returns run vs =
      IsWholeRun run
      → All IsPositive vs
      → Stacks run vs × All (λ (v : RefundValue). IsWhole v.qty) vs

-- The quantities of the payload are whole thousandths.
abbrev pub AreWhole : Option CreateRefund → Type 0
AreWhole payload = elim payload [
  | none ↦ Unit {0}
  | some d ↦ All (λ (x : RefundLine). IsWhole x.qty) d.lines
]
