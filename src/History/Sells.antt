-- ===== src/History/Sells.antt =====
-- A sale keeps a store's database sound (apps/backend/src/sync/push/handlers/sale.handler.ts).
use ayphen_retail_pos.Common.{
  ℕ, suc, ◌+◌, ◌≤◌, ◌<◌, ◌≡◌, refl, sym, ap, subst, ◌∙◌, false, Option, List, [], ◌∷◌, ◌++◌, leb,
  All, All-append, arith,
}
use ayphen_retail_pos.Ledger.{MutationAction, MutationContext}
use ayphen_retail_pos.StoreDb.{
  SaleRow, SaleLineRow, SalePaymentRow, RefundRow, RefundLineRow, Db, done,
}
use ayphen_retail_pos.Sale.{CreateSale, line_rows, apply}
use ayphen_retail_pos.Sale.Invoice.{IsNumbered, apply-IsNumbered}
use ayphen_retail_pos.Refund.{sale_credit, prior_refunded, prior_credit_note, cumulative_target}
use ayphen_retail_pos.Refund.Notes.{IsFresh}
use ayphen_retail_pos.Refund.Lines.{IsKeyed}
use ayphen_retail_pos.Refund.Money.{IsProrate, IsKeyedSale, share}
use ayphen_retail_pos.CustomerPayment.{SettlementDb, prior_allocated}
use ayphen_retail_pos.History.Rows.{Below, All-map, append-Below, append-Knows}
use ayphen_retail_pos.History.Sound.{
  IsSound, IsSoundSale, IsGiven, IsGiven-grows, sale_ids, prior_refunded-new, sale_credit-new,
  prior_allocated-new, prior_credit_note-new, prior_credit_note-append, IsFresh-append,
  sale_credit-append,
}
use ayphen_retail_pos.History.Sold.{Sold, IsAmong, line_rows-ids, line_rows-Knows, apply-Sold}

share-nothing :
    (prorate : ℕ → ℕ → ℕ → ℕ)
    → IsProrate prorate
    → (total credit : ℕ) → 0 < total
    → cumulative_target prorate 0 total credit ≡ 0
unfolding cumulative_target
share-nothing prorate laws total credit positive =
    let part : leb total 0 ≡ false = ground (arith, positive) in
    rw part (laws.zero_given total credit positive)

module _ (prorate : ℕ → ℕ → ℕ → ℕ) (st : SettlementDb) (sale : SaleRow) (db' : Db)
    (sold : Sold st.db sale db') (sound : IsSound prorate st) where
  abbrev after : SettlementDb
  after = record st { db = db' }

  abbrev next_id : ℕ
  next_id = st.db.books.next_id

  id-lt-next : sale.id < db'.books.next_id
  id-lt-next = omega (arith, sold.next)

  grows : next_id ≤ db'.books.next_id
  grows = omega (arith, sold.next, sold.id_eq)

  credit_of :
      (k : ℕ)
      → sale_credit db'.sale_payments k
        ≡ sale_credit st.db.sale_payments k + sale_credit sold.tenders k
  credit_of k =
      ap (λ ps. sale_credit ps k) sold.payments_eq
      ∙ sale_credit-append st.db.sale_payments sold.tenders k

  notes_of :
      (k : ℕ)
      → prior_credit_note db'.books.customer_ledger_events db'.refunds k
        ≡ prior_credit_note st.db.books.customer_ledger_events st.db.refunds k
  notes_of k =
      ap (λ es. prior_credit_note es db'.refunds k) sold.events_eq
      ∙ ap (λ rs. prior_credit_note (st.db.books.customer_ledger_events ++ sold.events) rs k)
          sold.refunds_eq
      ∙ prior_credit_note-append st.db.books.customer_ledger_events sold.events st.db.refunds
          sale.id k sold.no_notes

  refunded_of : (k : ℕ) → prior_refunded db'.refunds k ≡ prior_refunded st.db.refunds k
  refunded_of k = ap (λ rs. prior_refunded rs k) sold.refunds_eq

  old_sale : (s : SaleRow) → IsSoundSale prorate st s → IsSoundSale prorate after s
  old_sale s h =
      let same : sale_credit db'.sale_payments s.id ≡ sale_credit st.db.sale_payments s.id =
        omega
          (arith, credit_of s.id, sold.of_others s.id (omega (arith, h.id_given, sold.id_eq))) in
      record {
        id_given = omega (arith, h.id_given, grows);
        positive = h.positive;
        covered = omega (arith, same, h.covered);
        capped = omega (arith, refunded_of s.id, h.capped);
        noted =
            notes_of s.id
            ∙ h.noted
            ∙ ap (λ given. share prorate s st.db given) (sym (refunded_of s.id))
            ∙ ap (λ c. cumulative_target prorate (prior_refunded db'.refunds s.id) s.total_paise c)
                (sym same);
        settled = omega (arith, same, h.settled);
      }

  new_sale : IsProrate prorate → IsSoundSale prorate after sale
  new_sale laws =
      let given : prior_refunded db'.refunds sale.id ≡ 0 =
        refunded_of sale.id
        ∙ subst (λ k. prior_refunded st.db.refunds k ≡ 0) (sym sold.id_eq)
            (prior_refunded-new next_id st.db.refunds sound.given.refund_sales) in
      let no_credit : sale_credit st.db.sale_payments sale.id ≡ 0 =
        subst (λ k. sale_credit st.db.sale_payments k ≡ 0) (sym sold.id_eq)
          (sale_credit-new next_id st.db.sale_payments sound.given.payment_sales) in
      let no_notes : prior_credit_note st.db.books.customer_ledger_events st.db.refunds sale.id
          ≡ 0 =
        subst (λ k. prior_credit_note st.db.books.customer_ledger_events st.db.refunds k ≡ 0)
          (sym sold.id_eq)
          (prior_credit_note-new next_id st.db.books.customer_ledger_events st.db.refunds
            sound.given.refund_sales) in
      let unsettled : prior_allocated st.payment_allocations sale.id ≡ 0 =
        subst (λ k. prior_allocated st.payment_allocations k ≡ 0) (sym sold.id_eq)
          (prior_allocated-new next_id st.payment_allocations sound.given.targets) in
      record {
        id_given = id-lt-next;
        positive = sold.positive;
        covered = omega (arith, credit_of sale.id, no_credit, sold.covered);
        capped = omega (arith, given);
        noted =
            notes_of sale.id
            ∙ no_notes
            ∙ sym (
                ap (λ g. share prorate sale db' g) given
                ∙ share-nothing prorate laws sale.total_paise
                    (sale_credit db'.sale_payments sale.id) sold.positive);
        settled = omega (arith, unsettled);
      }

  abbrev new_lines : List SaleLineRow
  new_lines = line_rows sale.id (suc sale.id) sold.values_of

  lines_above : All (λ (l : SaleLineRow). next_id ≤ l.id) new_lines
  lines_above =
      All-map (IsAmong (suc sale.id) sold.values_of) (λ (l : SaleLineRow). next_id ≤ l.id) new_lines
        (λ l h. omega (arith, h.0, sold.id_eq)) (line_rows-ids sold.values_of sale.id (suc sale.id))

  IsSoundSale-after : IsProrate prorate → All (IsSoundSale prorate after) db'.sales
  IsSoundSale-after laws = subst (All (IsSoundSale prorate after)) (sym sold.sales_eq) (
      All-append (IsSoundSale prorate after) st.db.sales (sale ∷ [])
        (All-map (IsSoundSale prorate st) (IsSoundSale prorate after) st.db.sales old_sale
          sound.sales)
        (new_sale laws, tt))

  line_ids-after : Below (λ (l : SaleLineRow). l.id) db'.books.next_id db'.sale_lines
  line_ids-after = subst (Below (λ (l : SaleLineRow). l.id) db'.books.next_id) (sym sold.lines_eq) (
      append-Below (λ (l : SaleLineRow). l.id) next_id db'.books.next_id st.db.sale_lines new_lines
        grows sound.line_ids
        (All-map (IsAmong (suc sale.id) sold.values_of)
          (λ (l : SaleLineRow). l.id < db'.books.next_id) new_lines
          (λ l h. omega (arith, h.1, sold.next))
          (line_rows-ids sold.values_of sale.id (suc sale.id))))

  IsKeyedSale-after : All (λ (s : SaleRow). IsKeyedSale s db'.sales) db'.sales
  IsKeyedSale-after =
      subst (λ rows. All (λ (s : SaleRow). IsKeyedSale s rows) rows) (sym sold.sales_eq)
        (append-Knows (λ (s : SaleRow). s.id) next_id st.db.sales (sale ∷ [])
          (sale_ids prorate st sound) (omega (arith, sold.id_eq), tt) sound.keyed
          (((λ _. refl), tt), tt))

  IsKeyed-after : All (λ (l : SaleLineRow). IsKeyed l db'.sale_lines) db'.sale_lines
  IsKeyed-after =
      subst (λ rows. All (λ (l : SaleLineRow). IsKeyed l rows) rows) (sym sold.lines_eq)
        (append-Knows (λ (l : SaleLineRow). l.id) next_id st.db.sale_lines new_lines sound.line_ids
          lines_above sound.keyed_lines (line_rows-Knows sold.values_of sale.id (suc sale.id)))

  IsGiven-after : IsGiven db'.books.next_id after
  IsGiven-after =
      let known = IsGiven-grows next_id db'.books.next_id st grows sound.given in
      record {
        fresh = subst (IsFresh db'.books.next_id) (sym sold.events_eq) (
            IsFresh-append st.db.books.customer_ledger_events sold.events next_id db'.books.next_id
              sale.id grows id-lt-next sound.given.fresh sold.no_notes);
        refund_ids =
            subst (Below (λ (r : RefundRow). r.id) db'.books.next_id) (sym sold.refunds_eq)
              known.refund_ids;
        refund_sales =
            subst (Below (λ (r : RefundRow). r.sale_fk) db'.books.next_id) (sym sold.refunds_eq)
              known.refund_sales;
        refund_lines =
            subst (Below (λ (r : RefundLineRow). r.sale_line_fk) db'.books.next_id)
              (sym sold.refund_lines_eq) known.refund_lines;
        payment_sales =
            subst (Below (λ (p : SalePaymentRow). p.sale_fk) db'.books.next_id)
              (sym sold.payments_eq)
              (append-Below (λ (p : SalePaymentRow). p.sale_fk) next_id db'.books.next_id
                st.db.sale_payments sold.tenders grows sound.given.payment_sales
                (sold.tender_sales db'.books.next_id id-lt-next));
        targets = known.targets;
      }

  Sold-IsSound : IsProrate prorate → IsNumbered db'.stores db'.sales → IsSound prorate after
  Sold-IsSound laws numbered = record {
    numbered = numbered;
    sales = IsSoundSale-after laws;
    line_ids = line_ids-after;
    keyed = IsKeyedSale-after;
    keyed_lines = IsKeyed-after;
    given = IsGiven-after;
  }

pub sells-IsSound :
    (gross : ℕ → ℕ → ℕ) (prorate : ℕ → ℕ → ℕ → ℕ) (action : MutationAction)
    (payload : Option CreateSale) (ctx : MutationContext) (st : SettlementDb) (sale : SaleRow)
    (db' : Db)
    → IsProrate prorate
    → apply gross action payload ctx st.db ≡ done (sale, db')
    → IsSound prorate st
    → IsSound prorate (record st { db = db' })
sells-IsSound gross prorate action payload ctx st sale db' laws h sound =
    Sold-IsSound prorate st sale db' (apply-Sold gross action payload ctx st.db sale db' h) sound
      laws ((apply-IsNumbered gross action payload ctx st.db h sound.numbered).0)
