-- ===== src/CustomerPayment/Collected.antt =====
-- The money of an accepted payment (apps/backend/src/sync/push/handlers/customer-payment.handler.ts).
use ayphen_retail_pos.Common.{
  ℕ, suc, ◌+◌, ◌≡◌, sym, ap, subst, ◌∙◌, inl, inr, Option, List, [], ◌∷◌, ◌++◌, ==_refl, sum_by,
  length, arith, Option-cases,
}
use ayphen_retail_pos.Ledger.{MutationAction, MutationContext, Books, post_customer_payment}
use ayphen_retail_pos.Ledger.Effects.{pays_debt, effects, effects_of, run, run_all, run_all-Moved}
use ayphen_retail_pos.Ledger.Balance.{account_in, account_out, owed, settled}
use ayphen_retail_pos.StoreDb.{SaleRow, done}
use ayphen_retail_pos.Sale.Accepted.{done-injective, >>=-eq-done}
use ayphen_retail_pos.CustomerPayment.{
  Allocation, CreatePayment, CustomerPaymentRow, PaymentAllocationRow, SettlementDb, sale_by_guuid,
  allocation_rows, amount_of, apply,
}
use ayphen_retail_pos.CustomerPayment.Covered.{apply-Accepted_payment}

abbrev pub allocated : List PaymentAllocationRow → ℕ
allocated rows = sum_by (λ (r : PaymentAllocationRow). r.applied_paise) rows

allocated-allocation_rows :
    (store payment : ℕ) (sales : List SaleRow) (n : ℕ) (allocations : List Allocation)
    (rows : List PaymentAllocationRow)
    → allocation_rows store payment sales n allocations ≡ done rows
    → allocated rows ≡ sum_by (λ (a : Allocation). a.applied_paise) allocations
unfolding allocation_rows
allocated-allocation_rows store payment sales n [] rows h = sym (ap allocated (done-injective h))
allocated-allocation_rows store payment sales n (a ∷ rest) rows h =
    elim (Option-cases (sale_by_guuid a.sale_guuid sales)) [
      | inl missing ↦ cc (rw (missing, allocation_rows) at h)
      | inr (s, found) ↦
          let (others, made, whole) =
            >>=-eq-done (allocation_rows store payment sales (suc n) rest) _
              (rw (found, allocation_rows) at h) in
          sym (ap allocated (done-injective whole))
          ∙ ap (λ x. a.applied_paise + x)
              (allocated-allocation_rows store payment sales (suc n) rest others made)
    ]

-- What the posting of a payment does to the account and the customer.
record Posts (ctx : MutationContext) (customer account amount : ℕ) (b b' : Books) : Type 0 where
  money_in_eq :
      account_in account b'.account_transactions
      ≡ account_in account b.account_transactions + amount
  money_out_eq :
      account_out account b'.account_transactions ≡ account_out account b.account_transactions
  settled_eq :
      settled ctx.store_id customer b'.customer_ledger_events
      ≡ settled ctx.store_id customer b.customer_ledger_events + amount
  owed_eq :
      owed ctx.store_id customer b'.customer_ledger_events
      ≡ owed ctx.store_id customer b.customer_ledger_events

post_customer_payment-Posts :
    (ctx : MutationContext) (customer account amount id : ℕ) (b : Books)
    → Posts ctx customer account amount b (post_customer_payment customer account amount id ctx b)
unfolding run_all run effects effects_of
post_customer_payment-Posts ctx customer account amount id b =
    let m = run_all-Moved ctx account customer (pays_debt customer account amount id ∷ []) b in
    record {
      money_in_eq = (rw (==_refl account) at (m.money_in_eq)) ∙ omega arith;
      money_out_eq = m.money_out_eq ∙ omega arith;
      settled_eq = (rw (==_refl customer) at (m.settled_eq)) ∙ omega arith;
      owed_eq = m.owed_eq ∙ omega arith;
    }

-- What a payment of an amount does to the account and the customer that it names.
pub record IsCollected (ctx : MutationContext) (p : CustomerPaymentRow) (st st' : SettlementDb)
    : Type 0 where
  pub rows : List PaymentAllocationRow
  pub allocations_eq : st'.payment_allocations ≡ st.payment_allocations ++ rows
  pub amount_eq : p.amount_paise ≡ allocated rows
  pub money_in_eq :
      account_in p.account_fk st'.db.books.account_transactions
      ≡ account_in p.account_fk st.db.books.account_transactions + p.amount_paise
  pub money_out_eq :
      account_out p.account_fk st'.db.books.account_transactions
      ≡ account_out p.account_fk st.db.books.account_transactions
  pub settled_eq :
      settled ctx.store_id p.customer_fk st'.db.books.customer_ledger_events
      ≡ settled ctx.store_id p.customer_fk st.db.books.customer_ledger_events + p.amount_paise
  pub owed_eq :
      owed ctx.store_id p.customer_fk st'.db.books.customer_ledger_events
      ≡ owed ctx.store_id p.customer_fk st.db.books.customer_ledger_events

-- An accepted payment is collected once, for what it settles: its amount is what its new allocations
-- add up to, its account takes the amount in, and its customer has settled it; nothing goes out of the
-- account, and the customer buys nothing more on credit.
pub apply-IsCollected :
    (action : MutationAction) (payload : Option CreatePayment) (ctx : MutationContext)
    (st : SettlementDb) {p : CustomerPaymentRow} {st' : SettlementDb}
    → apply action payload ctx st ≡ done (p, st')
    → IsCollected ctx p st st'
apply-IsCollected action payload ctx st {p = p} {st' = st'} h =
    let a = apply-Accepted_payment action payload ctx st h in
    let before : Books = record (st.db.books) {
      next_id = suc st.db.books.next_id + length ((a.data_of).allocations);
    } in
    let money =
      subst (Posts ctx (a.customer).id (a.account).id (amount_of (a.data_of)) before)
        (sym (a.books_eq))
        (post_customer_payment-Posts ctx (a.customer).id (a.account).id (amount_of (a.data_of))
          st.db.books.next_id before) in
    subst (λ q. IsCollected ctx q st st') (sym (a.payment_eq))
      (record {
        rows = a.rows;
        allocations_eq = a.allocations_eq;
        amount_eq = sym (
            allocated-allocation_rows ctx.store_id st.db.books.next_id _ _ _ (a.rows)
              (a.rows_found));
        money_in_eq = money.money_in_eq;
        money_out_eq = money.money_out_eq;
        settled_eq = money.settled_eq;
        owed_eq = money.owed_eq;
      })
