-- ===== src/CustomerPayment/Covered.antt =====
-- What an accepted payment has passed and written, and the cap of its sales
-- (apps/backend/src/sync/push/handlers/customer-payment.handler.ts).
use ayphen_retail_pos.Common.{
  ℕ, suc, ◌+◌, ◌≤◌, ◌≡◌, sym, ap, subst, ◌∙◌, ◌⊎◌, inl, inr, true, false, ◌&&◌, Option, none, some,
  List, [], ◌∷◌, ◌++◌, ltb, ◌==◌, ==→eq, length, arith, Bool-cases, Option-cases,
}
use ayphen_retail_pos.Ledger.{
  MutationAction, create, update, delete, MutationContext, post_customer_payment,
}
use ayphen_retail_pos.StoreDb.{CustomerRow, PaymentAccountRow, SaleRow, Db, done}
use ayphen_retail_pos.Sale.Accepted.{done-injective, >>=-eq-done}
use ayphen_retail_pos.Refund.{sale_credit, prior_credit_note, set_at}
use ayphen_retail_pos.CustomerPayment.{
  Allocation, CreatePayment, CustomerPaymentRow, PaymentAllocationRow, is_sale_target, sale_target,
  SettlementDb, payment_schema, find_customer, find_account, sale_by_guuid, check_sales,
  prior_allocated, check_allocations, allocation_rows, amount_of, target_sales,
  check_payment_columns, write_payment, settle, apply,
}

pub record Accepted (ctx : MutationContext) (st : SettlementDb) (p : CustomerPaymentRow)
    (st' : SettlementDb) : Type 0 where
  pub data_of : CreatePayment
  pub customer : CustomerRow
  pub account : PaymentAccountRow
  pub rows : List PaymentAllocationRow
  pub within :
      check_allocations st.db
        (target_sales ctx data_of st.db)
        data_of.allocations
        (prior_allocated st.payment_allocations)
      ≡ done tt
  pub rows_found :
      allocation_rows ctx.store_id st.db.books.next_id
        (target_sales ctx data_of st.db)
        (suc st.db.books.next_id)
        data_of.allocations
      ≡ done rows
  pub payment_eq : p ≡ record {
    id = st.db.books.next_id;
    guuid = data_of.guuid;
    store_fk = ctx.store_id;
    customer_fk = customer.id;
    account_fk = account.id;
    amount_paise = amount_of data_of;
  }
  pub allocations_eq : st'.payment_allocations ≡ st.payment_allocations ++ rows
  pub books_eq :
      st'.db.books
      ≡ post_customer_payment customer.id account.id
          (amount_of data_of)
          st.db.books.next_id
          ctx
          (record (st.db.books) { next_id = suc st.db.books.next_id + length data_of.allocations })
  pub db_eq : st'.db ≡ record (st.db) { books = st'.db.books }

settle-Accepted :
    (ctx : MutationContext) (d : CreatePayment) (st : SettlementDb) {p : CustomerPaymentRow}
    {st' : SettlementDb}
    → settle ctx d st ≡ done (p, st')
    → Accepted ctx st p st'
unfolding settle write_payment
settle-Accepted ctx d st h =
    let (customer, _, h₁) = >>=-eq-done (find_customer ctx d st.db) _ h in
    let (account, _, h₂) = >>=-eq-done (find_account ctx d st.db) _ h₁ in
    let (_, _, h₃) = >>=-eq-done (check_sales customer.id _ _) _ h₂ in
    let (_, within, h₄) = >>=-eq-done (check_allocations st.db _ _ _) _ h₃ in
    let (_, _, h₅) = >>=-eq-done (check_payment_columns d _) _ h₄ in
    let (rows, rows_found, h₆) = >>=-eq-done (allocation_rows ctx.store_id _ _ _ _) _ h₅ in
    let e = done-injective h₆ in
    record {
      data_of = d;
      customer = customer;
      account = account;
      rows = rows;
      within = within;
      rows_found = rows_found;
      payment_eq = sym (ap (λ r. r.0) e);
      allocations_eq = sym (ap (λ r. r.1.payment_allocations) e);
      books_eq = sym (ap (λ r. r.1.db.books) e);
      db_eq =
          sym (ap (λ r. r.1.db) e)
          ∙ ap (λ b. record (st.db) { books = b }) (ap (λ r. r.1.db.books) e);
    }

pub apply-Accepted_payment :
    (action : MutationAction) (payload : Option CreatePayment) (ctx : MutationContext)
    (st : SettlementDb) {p : CustomerPaymentRow} {st' : SettlementDb}
    → apply action payload ctx st ≡ done (p, st')
    → Accepted ctx st p st'
unfolding apply
apply-Accepted_payment create none ctx st h = cc h
apply-Accepted_payment create (some d) ctx st h = elim (Bool-cases (payment_schema d)) [
  | inl valid ↦ settle-Accepted ctx d st (rw valid at h)
  | inr invalid ↦ cc (rw invalid at h)
]
apply-Accepted_payment update payload ctx st h = cc h
apply-Accepted_payment delete payload ctx st h = cc h

prior_allocated-append :
    (xs ys : List PaymentAllocationRow) (sale : ℕ)
    → prior_allocated (xs ++ ys) sale ≡ prior_allocated xs sale + prior_allocated ys sale
unfolding prior_allocated
prior_allocated-append [] ys sale = omega arith
prior_allocated-append (x ∷ xs) ys sale =
    let rest = prior_allocated-append xs ys sale in
    elim (Bool-cases (is_sale_target x.target_type && x.target_fk == sale)) [
      | inl counted ↦ rw counted (ground (arith, rest))
      | inr other ↦ rw other rest
    ]

-- A sale that gets nothing, or that stays within what is left of its credit.
abbrev pub IsWithin : Db → ℕ → ℕ → ℕ → Type 0
IsWithin db sale before given =
    (given ≡ 0)
    ⊎ (before + given + prior_credit_note db.books.customer_ledger_events db.refunds sale
        ≤ sale_credit db.sale_payments sale)

together :
    (before applied notes credit given : ℕ)
    → before + applied + notes ≤ credit
    → (given ≡ 0) ⊎ (before + applied + given + notes ≤ credit)
    → before + (applied + given) + notes ≤ credit
together before applied notes credit given fits (inl nothing) = ground (arith, fits, nothing)
together before applied notes credit given fits (inr more) = ground (arith, more)

module _ (db : Db) (sales : List SaleRow) (store payment : ℕ) where
  with_row :
      (s : SaleRow) (applied n : ℕ) (others : List PaymentAllocationRow) (running : ℕ → ℕ)
      (sale : ℕ)
      → running s.id + applied + prior_credit_note db.books.customer_ledger_events db.refunds s.id
        ≤ sale_credit db.sale_payments s.id
      → IsWithin db sale
          (set_at running s.id (running s.id + applied) sale)
          (prior_allocated others sale)
      → IsWithin db sale (running sale) (
          prior_allocated
            (record {
              id = n;
              store_fk = store;
              payment_fk = payment;
              target_type = sale_target;
              target_fk = s.id;
              applied_paise = applied;
            }
              ∷ others)
            sale)
  unfolding prior_allocated
  with_row s applied n others running sale fits rest = elim (Bool-cases (s.id == sale)) [
    | inr other ↦
        let apart : (sale == s.id) ≡ false = ground (arith, other) in rw other (rw apart at rest)
    | inl same ↦
        let asked : (sale == s.id) ≡ true = ground (arith, same) in
        rw same (
          inr (
            together (running sale) applied
              (prior_credit_note db.books.customer_ledger_events db.refunds sale)
              (sale_credit db.sale_payments sale) (prior_allocated others sale)
              (subst
                (λ k.
                  running k
                    + applied
                    + prior_credit_note db.books.customer_ledger_events db.refunds k
                  ≤ sale_credit db.sale_payments k)
                (==→eq s.id sale same) fits)
              (subst (λ k. IsWithin db sale (running k + applied) (prior_allocated others sale))
                (==→eq s.id sale same) (rw asked at rest))))
  ]

  check_allocations-IsWithin :
      (allocations : List Allocation) (running : ℕ → ℕ) (n : ℕ) (rows : List PaymentAllocationRow)
      → check_allocations db sales allocations running ≡ done tt
      → allocation_rows store payment sales n allocations ≡ done rows
      → (sale : ℕ) → IsWithin db sale (running sale) (prior_allocated rows sale)
  unfolding check_allocations allocation_rows prior_allocated
  check_allocations-IsWithin [] running n rows h made sale =
      inl (sym (ap (λ rs. prior_allocated rs sale) (done-injective made)))
  check_allocations-IsWithin (a ∷ rest) running n rows h made sale =
      elim (Option-cases (sale_by_guuid a.sale_guuid sales)) [
        | inl missing ↦ cc (rw (missing, check_allocations) at h)
        | inr (s, found) ↦
            let h' = rw (found, check_allocations) at h in
            let (others, made', whole) =
              >>=-eq-done (allocation_rows store payment sales (suc n) rest) _
                (rw (found, allocation_rows) at made) in
            let total = running s.id + a.applied_paise in
            elim (Bool-cases (
              ltb (sale_credit db.sale_payments s.id)
                (total + prior_credit_note db.books.customer_ledger_events db.refunds s.id))) [
                  | inl over ↦ cc (rw over at h')
                  | inr fits ↦
                      subst (λ rs. IsWithin db sale (running sale) (prior_allocated rs sale))
                        (done-injective whole)
                        (with_row s a.applied_paise n others running sale (ground (arith, fits)) (
                          check_allocations-IsWithin rest (set_at running s.id total) (suc n) others
                            (rw fits at h') made' sale))
                ]
      ]

-- No sale is settled beyond its credit: an accepted payment either allocates nothing to a sale, or
-- leaves all that its payments have been allocated, with the credit notes of its refunds, within the part
-- of the sale that was on credit. Two allocations of one payment to the same sale count together.
pub apply-IsCovered :
    (action : MutationAction) (payload : Option CreatePayment) (ctx : MutationContext)
    (st : SettlementDb) {p : CustomerPaymentRow} {st' : SettlementDb}
    → apply action payload ctx st ≡ done (p, st')
    → (sale : ℕ)
    → (prior_allocated st'.payment_allocations sale ≡ prior_allocated st.payment_allocations sale)
      ⊎ (prior_allocated st'.payment_allocations sale
            + prior_credit_note st.db.books.customer_ledger_events st.db.refunds sale
          ≤ sale_credit st.db.sale_payments sale)
apply-IsCovered action payload ctx st {st' = st'} h sale =
    let a = apply-Accepted_payment action payload ctx st h in
    let sum =
      ap (λ rs. prior_allocated rs sale) (a.allocations_eq)
      ∙ prior_allocated-append st.payment_allocations (a.rows) sale in
    elim (check_allocations-IsWithin st.db _ _ _ _ (prior_allocated st.payment_allocations) _
      (a.rows) (a.within) (a.rows_found) sale) [
        | inl nothing ↦ inl (ground (arith, sum, nothing))
        | inr fits ↦ inr (ground (arith, sum, fits))
      ]
