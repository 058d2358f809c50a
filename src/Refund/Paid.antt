-- ===== src/Refund/Paid.antt =====
-- What an accepted refund leaves in the books and on its sale (apps/backend/src/sync/push/handlers/
-- refund.handler.ts).
use ayphen_retail_pos.Common.{
  ℕ, suc, ◌+◌, ◌≤◌, ◌<◌, ◌≡◌, sym, ap, subst, ◌∙◌, true, Option, ◌==◌, ==_refl, if◌then◌else◌,
  sum_by,
}
use ayphen_retail_pos.Ledger.{MutationAction, MutationContext}
use ayphen_retail_pos.Ledger.Balance.{account_out}
use ayphen_retail_pos.StoreDb.{SaleRow, RefundRow, RefundLineRow, Db, done}
use ayphen_retail_pos.Refund.{CreateRefund, sale_credit, prior_credit_note, apply}
use ayphen_retail_pos.Refund.Accepted.{apply-Accepted, portions}
use ayphen_retail_pos.Refund.Money.{IsProrate, IsSettled, IsKeyedSale, refund_line_rows-amount}
use ayphen_retail_pos.Refund.Settled.{
  IsSettled-after, portions_exact, same_sale, cashed_lem, noted, notes_after, refund_amount,
}

module _ (prorate : ℕ → ℕ → ℕ → ℕ) (laws : IsProrate prorate) (action : MutationAction)
    (payload : Option CreateRefund) (ctx : MutationContext) (db : Db) (r : RefundRow) (db' : Db)
    (h : apply prorate action payload ctx db ≡ done (r, db')) (s : SaleRow)
    (positive : 0 < s.total_paise) (covered : sale_credit db.sale_payments s.id ≤ s.total_paise)
    (keyed : IsKeyedSale s db.sales) (before : IsSettled prorate s db) where
  -- For a sale with its id its own, a positive total and no more credit than that, an accepted refund of
  -- any sale keeps the refunds of the sale at or below its total and its credit notes at their share.
  pub apply-IsSettled : IsSettled prorate s db'
  apply-IsSettled =
      IsSettled-after prorate ctx db r db' (apply-Accepted prorate action payload ctx db h) s
        before.fresh before.older laws positive covered keyed before

  -- What a refund of such a sale gives in cash and in credit is its amount: the cash leaves its account,
  -- the credit is a note on the customer's book, and its lines come to the amount.
  pub apply-IsPaid :
      r.sale_fk ≡ s.id
      → (cash note : ℕ) × (cash + note ≡ r.amount_paise)
        × (account_out r.account_fk db'.books.account_transactions
            ≡ account_out r.account_fk db.books.account_transactions + cash)
        × (prior_credit_note db'.books.customer_ledger_events db'.refunds s.id
            ≡ prior_credit_note db.books.customer_ledger_events db.refunds s.id + note)
        × (sum_by (λ (l : RefundLineRow). l.amount_paise) db'.refund_lines
            ≡ sum_by (λ (l : RefundLineRow). l.amount_paise) db.refund_lines + r.amount_paise)
  apply-IsPaid own =
      let a = apply-Accepted prorate action payload ctx db h in
      let same = same_sale prorate ctx db r db' a s before.fresh before.older keyed own in
      let parts = portions prorate a.sale a.values db in
      let amount_eq = refund_amount prorate ctx db r db' a s before.fresh before.older in
      let exact =
        portions_exact prorate ctx db r db' a s before.fresh before.older laws positive covered
          before same in
      let account_eq : r.account_fk ≡ a.account.id = ap (λ x. x.account_fk) a.refund_eq in
      (
        parts.cash_portion,
        parts.credit_portion,
        exact.0 ∙ sym amount_eq,
        subst
            (λ n.
              account_out n db'.books.account_transactions
              ≡ account_out n db.books.account_transactions + parts.cash_portion)
            (sym account_eq)
            (ap (account_out a.account.id)
                (noted prorate ctx db r db' a s before.fresh before.older).transactions
              ∙ (cashed_lem prorate ctx db r db' a s before.fresh before.older).0),
        notes_after prorate ctx db r db' a s before.fresh before.older
            ∙ ap
                (λ b.
                  prior_credit_note db.books.customer_ledger_events db.refunds s.id
                  + (if b then parts.credit_portion else 0))
                (subst (λ n. (r.sale_fk == n) ≡ true) own (==_refl r.sale_fk)),
        ap (sum_by (λ (l : RefundLineRow). l.amount_paise)) a.lines_eq
            ∙ refund_line_rows-amount db.refund_lines db.books.next_id (suc db.books.next_id)
                a.values
            ∙ ap (λ n. sum_by (λ (l : RefundLineRow). l.amount_paise) db.refund_lines + n)
                (sym amount_eq),
      )
