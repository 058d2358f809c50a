-- ===== src/History/Collects.antt =====
-- A settlement keeps a store's database sound
-- (apps/backend/src/sync/push/handlers/customer-payment.handler.ts).
use ayphen_retail_pos.Common.{
  ℕ, suc, ◌≤◌, ◌<◌, ◌≡◌, refl, sym, ap, subst, ◌∙◌, Option, inl, inr, List, [], ◌∷◌, ◌++◌, All,
  arith, Option-cases,
}
use ayphen_retail_pos.Ledger.{MutationAction, MutationContext, LedgerEvent, post_customer_payment}
use ayphen_retail_pos.StoreDb.{SaleRow, SaleLineRow, done}
use ayphen_retail_pos.Sale.Accepted.{done-injective, >>=-eq-done}
use ayphen_retail_pos.Refund.{prior_credit_note}
use ayphen_retail_pos.Refund.Values.{filter-All, map_get-All}
use ayphen_retail_pos.CustomerPayment.{
  CreatePayment, CustomerPaymentRow, SettlementDb, Allocation, PaymentAllocationRow,
  allocation_rows, sale_by_guuid, target_sales, apply,
}
use ayphen_retail_pos.CustomerPayment.Covered.{Accepted, apply-Accepted_payment, apply-IsCovered}
use ayphen_retail_pos.History.Rows.{Below, All-map, All-Below, append-Below}
use ayphen_retail_pos.History.Sound.{
  IsSound, IsSoundSale, IsGiven, IsGiven-grows, IsPlain, sale_ids, prior_credit_note-append,
  IsFresh-append,
}

allocation_rows-targets :
    (store payment : ℕ) (sales : List SaleRow) (m n : ℕ) (allocations : List Allocation)
    (rows : List PaymentAllocationRow)
    → Below (λ (s : SaleRow). s.id) m sales
    → allocation_rows store payment sales n allocations ≡ done rows
    → Below (λ (r : PaymentAllocationRow). r.target_fk) m rows
unfolding allocation_rows
allocation_rows-targets store payment sales m n [] rows known h =
    subst (Below (λ (r : PaymentAllocationRow). r.target_fk) m) (done-injective h) tt
allocation_rows-targets store payment sales m n (a ∷ rest) rows known h =
    elim (Option-cases (sale_by_guuid a.sale_guuid sales)) [
      | inl missing ↦ cc (rw (missing, allocation_rows) at h)
      | inr (s, found) ↦
          (let (others, made, whole) =
              >>=-eq-done (allocation_rows store payment sales (suc n) rest) _
                (rw (found, allocation_rows) at h) in
            subst (Below (λ (r : PaymentAllocationRow). r.target_fk) m) (done-injective whole) (
              map_get-All (λ (x : SaleRow). x.id < m) _ a.sale_guuid sales s known found,
              allocation_rows-targets store payment sales m (suc n) rest others known made,
            ))
    ]

module _ (prorate : ℕ → ℕ → ℕ → ℕ) (action : MutationAction) (payload : Option CreatePayment)
    (ctx : MutationContext) (st st' : SettlementDb) (p : CustomerPaymentRow)
    (h : apply action payload ctx st ≡ done (p, st')) (sound : IsSound prorate st) where
  abbrev a : Accepted ctx st p st'
  a = apply-Accepted_payment action payload ctx st h

  abbrev next_id : ℕ
  next_id = st.db.books.next_id

  abbrev after : SettlementDb
  after = record {
    db = record (st.db) { books = st'.db.books };
    customer_payments = st'.customer_payments;
    payment_allocations = st'.payment_allocations;
  }

  events_lem :
      (events : List LedgerEvent) × (st'.db.books.customer_ledger_events
        ≡ st.db.books.customer_ledger_events ++ events)
      × All (IsPlain next_id) events
  unfolding post_customer_payment
  events_lem = (_, ap (λ b. b.customer_ledger_events) a.books_eq, ((refl, refl), tt))

  grows : suc next_id ≤ st'.db.books.next_id
  unfolding post_customer_payment
  grows = omega (arith, ap (λ b. b.next_id) a.books_eq)

  notes_of :
      (k : ℕ)
      → prior_credit_note st'.db.books.customer_ledger_events st.db.refunds k
        ≡ prior_credit_note st.db.books.customer_ledger_events st.db.refunds k
  notes_of k =
      let (events, same, none_of) = events_lem in
      ap (λ es. prior_credit_note es st.db.refunds k) same
      ∙ prior_credit_note-append st.db.books.customer_ledger_events events st.db.refunds next_id k
          none_of

  sale_after : (s : SaleRow) → IsSoundSale prorate st s → IsSoundSale prorate after s
  sale_after s k = record {
    id_given = omega (arith, k.id_given, grows);
    positive = k.positive;
    covered = k.covered;
    capped = k.capped;
    noted = notes_of s.id ∙ k.noted;
    settled = elim (apply-IsCovered action payload ctx st h s.id) [
      | inl untouched ↦ omega (arith, untouched, k.settled)
      | inr within ↦ omega (arith, within)
    ];
  }

  IsGiven-after : IsGiven st'.db.books.next_id after
  IsGiven-after =
      let le : next_id ≤ st'.db.books.next_id = omega (arith, grows) in
      let (events, same, none_of) = events_lem in
      let known = IsGiven-grows next_id st'.db.books.next_id st le sound.given in
      record {
        fresh = subst (Below (λ (e : LedgerEvent). e.source_fk) st'.db.books.next_id) (sym same) (
            IsFresh-append st.db.books.customer_ledger_events events next_id st'.db.books.next_id
              next_id le (omega (arith, grows)) sound.given.fresh none_of);
        refund_ids = known.refund_ids;
        refund_sales = known.refund_sales;
        refund_lines = known.refund_lines;
        payment_sales = known.payment_sales;
        targets =
            subst (Below (λ (x : PaymentAllocationRow). x.target_fk) st'.db.books.next_id)
              (sym a.allocations_eq)
              (append-Below (λ (x : PaymentAllocationRow). x.target_fk) next_id st'.db.books.next_id
                st.payment_allocations a.rows le sound.given.targets
                (allocation_rows-targets ctx.store_id next_id (target_sales ctx a.data_of st.db)
                  st'.db.books.next_id (suc next_id) a.data_of.allocations a.rows
                  (All-Below (λ (x : SaleRow). x.id) next_id st'.db.books.next_id
                    (target_sales ctx a.data_of st.db) le
                    (filter-All (λ (x : SaleRow). x.id < next_id) _ st.db.sales
                      (sale_ids prorate st sound)))
                  a.rows_found));
      }

  after-IsSound : IsSound prorate after
  after-IsSound = record {
    numbered = sound.numbered;
    sales =
        All-map (IsSoundSale prorate st) (IsSoundSale prorate after) st.db.sales sale_after
          sound.sales;
    line_ids =
        All-Below (λ (l : SaleLineRow). l.id) next_id st'.db.books.next_id st.db.sale_lines
          (omega (arith, grows)) sound.line_ids;
    keyed = sound.keyed;
    keyed_lines = sound.keyed_lines;
    given = IsGiven-after;
  }

  pub collects-IsSound : IsSound prorate st'
  collects-IsSound =
      subst
        (λ d. IsSound prorate (record {
          db = d;
          customer_payments = st'.customer_payments;
          payment_allocations = st'.payment_allocations;
        }))
        (sym a.db_eq) after-IsSound
