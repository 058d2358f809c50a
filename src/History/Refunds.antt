-- ===== src/History/Refunds.antt =====
-- A refund keeps a store's database sound (apps/backend/src/sync/push/handlers/refund.handler.ts).
use ayphen_retail_pos.Common.{
  ℕ, suc, ◌+◌, ◌≤◌, ◌<◌, ◌≡◌, sym, ap, subst, Option, List, [], ◌∷◌, leb, length, All, arith,
  if◌then◌else◌,
}
use ayphen_retail_pos.Ledger.{MutationAction, MutationContext}
use ayphen_retail_pos.StoreDb.{
  SaleRow, SaleLineRow, SalePaymentRow, SaleStatus, refunded, partially_refunded, RefundRow,
  RefundLineRow, Db, done,
}
use ayphen_retail_pos.Sale.Invoice.{IsNumbered}
use ayphen_retail_pos.Refund.{CreateRefund, RefundValue, refund_line_rows, sale_credit, apply}
use ayphen_retail_pos.Refund.Values.{filter-All, compute_values-rule}
use ayphen_retail_pos.Refund.Accepted.{
  Accepted, apply-Accepted, originals_of, prior_run, total_refunded,
}
use ayphen_retail_pos.Refund.Lines.{IsKeyed}
use ayphen_retail_pos.Refund.Money.{IsProrate, IsKeyedSale, resolve_sale-All}
use ayphen_retail_pos.Refund.Settled.{next_after, refund_sale, IsFresh-after, older_after}
use ayphen_retail_pos.Refund.Paid.{apply-IsSettled}
use ayphen_retail_pos.CustomerPayment.{SettlementDb}
use ayphen_retail_pos.History.Rows.{Below, All-map, All-Below, All-both, append-Below}
use ayphen_retail_pos.History.Sound.{IsSound, IsSoundSale, IsGiven, IsGiven-grows, sale_ids}
use ayphen_retail_pos.History.Status.{
  updated-rule, set_status-All, set_status-keyed, set_status-IsNumbered,
}

refund_line_rows-lines :
    (m refund n : ℕ) (vs : List RefundValue)
    → Below (λ (v : RefundValue). v.sale_line_fk) m vs
    → Below (λ (l : RefundLineRow). l.sale_line_fk) m (refund_line_rows refund n vs)
unfolding refund_line_rows
refund_line_rows-lines m refund n [] h = tt
refund_line_rows-lines m refund n (v ∷ vs) h = (h.0, refund_line_rows-lines m refund (suc n) vs h.1)

module _ (prorate : ℕ → ℕ → ℕ → ℕ) (laws : IsProrate prorate) (action : MutationAction)
    (payload : Option CreateRefund) (ctx : MutationContext) (st : SettlementDb) (r : RefundRow)
    (db' : Db) (h : apply prorate action payload ctx st.db ≡ done (r, db'))
    (sound : IsSound prorate st) where
  abbrev a : Accepted prorate ctx st.db r db'
  a = apply-Accepted prorate action payload ctx st.db h

  abbrev next_id : ℕ
  next_id = st.db.books.next_id

  abbrev after : SettlementDb
  after = record st { db = db' }

  next_lem : db'.books.next_id ≡ suc next_id + length a.values
  next_lem = next_after prorate ctx st.db r db' a a.sale sound.given.fresh sound.given.refund_ids

  grows : next_id ≤ db'.books.next_id
  grows = omega (arith, next_lem)

  target-lt : a.sale.id < next_id
  target-lt =
      resolve_sale-All (λ (s : SaleRow). s.id < next_id) ctx a.data_of st.db a.sale
        (sale_ids prorate st sound) a.sale_found

  values-lt : Below (λ (v : RefundValue). v.sale_line_fk) next_id a.values
  values-lt =
      compute_values-rule prorate (originals_of a.data_of st.db)
        (λ (o : SaleLineRow). o.id < next_id)
        (λ run vs. Below (λ (v : RefundValue). v.sale_line_fk) next_id vs)
        (filter-All _ _ st.db.sale_lines sound.line_ids) (λ run. tt)
        (λ run o q vs known rest. (known, rest)) a.data_of.lines (prior_run st.db) a.values
        a.computed

  sale_after :
      (s : SaleRow)
      → IsSoundSale prorate st s × IsKeyedSale s st.db.sales
      → IsSoundSale prorate after s
  sale_after s (k, keyed) =
      let same : sale_credit db'.sale_payments s.id ≡ sale_credit st.db.sale_payments s.id =
        ap (λ ps. sale_credit ps s.id) a.payments_eq in
      let now =
        apply-IsSettled prorate laws action payload ctx st.db r db' h s k.positive k.covered keyed
          (record {
            capped = k.capped;
            noted = k.noted;
            fresh = sound.given.fresh;
            older = sound.given.refund_ids;
          }) in
      record {
        id_given = omega (arith, k.id_given, grows);
        positive = k.positive;
        covered = omega (arith, same, k.covered);
        capped = now.capped;
        noted = now.noted;
        settled = omega (arith, same, k.settled);
      }

  restated :
      (s : SaleRow) (status : SaleStatus)
      → IsSoundSale prorate after s
      → IsSoundSale prorate after (record s { status = status })
  restated s status k = record {
    id_given = k.id_given;
    positive = k.positive;
    covered = k.covered;
    capped = k.capped;
    noted = k.noted;
    settled = k.settled;
  }

  abbrev status : SaleStatus
  status =
      if leb a.sale.total_paise (total_refunded a.sale a.values st.db)
      then refunded
      else partially_refunded

  IsSoundSale-after : All (IsSoundSale prorate after) db'.sales
  IsSoundSale-after = subst (All (IsSoundSale prorate after)) (sym a.sales_eq) (
      set_status-All a.sale.id status (IsSoundSale prorate after) st.db.sales
        (λ s k. updated-rule a.sale.id status (IsSoundSale prorate after) s k (restated s status k))
        (All-map (λ (s : SaleRow). IsSoundSale prorate st s × IsKeyedSale s st.db.sales)
          (IsSoundSale prorate after) st.db.sales sale_after
          (All-both (IsSoundSale prorate st) (λ (s : SaleRow). IsKeyedSale s st.db.sales)
            st.db.sales sound.sales sound.keyed)))

  sale_given : r.sale_fk < db'.books.next_id
  sale_given = omega (
    arith,
    refund_sale prorate ctx st.db r db' a a.sale sound.given.fresh sound.given.refund_ids,
    target-lt,
    grows,
  )

  IsGiven-after : IsGiven db'.books.next_id after
  IsGiven-after =
      let known = IsGiven-grows next_id db'.books.next_id st grows sound.given in
      record {
        fresh =
            IsFresh-after prorate ctx st.db r db' a a.sale sound.given.fresh sound.given.refund_ids;
        refund_ids =
            older_after prorate ctx st.db r db' a a.sale sound.given.fresh sound.given.refund_ids;
        refund_sales =
            subst (Below (λ (x : RefundRow). x.sale_fk) db'.books.next_id) (sym a.refunds_eq) (
              append-Below (λ (x : RefundRow). x.sale_fk) next_id db'.books.next_id st.db.refunds
                (r ∷ []) grows sound.given.refund_sales (sale_given, tt));
        refund_lines =
            subst (Below (λ (l : RefundLineRow). l.sale_line_fk) db'.books.next_id) (sym a.lines_eq)
              (append-Below (λ (l : RefundLineRow). l.sale_line_fk) next_id db'.books.next_id
                st.db.refund_lines (refund_line_rows next_id (suc next_id) a.values) grows
                sound.given.refund_lines
                (All-Below (λ (l : RefundLineRow). l.sale_line_fk) next_id db'.books.next_id
                  (refund_line_rows next_id (suc next_id) a.values) grows
                  (refund_line_rows-lines next_id next_id (suc next_id) a.values values-lt)));
        payment_sales =
            subst (Below (λ (p : SalePaymentRow). p.sale_fk) db'.books.next_id) (sym a.payments_eq)
              known.payment_sales;
        targets = known.targets;
      }

  pub refunds-IsSound : IsSound prorate after
  refunds-IsSound = record {
    numbered = subst (IsNumbered db'.stores) (sym a.sales_eq) (
        set_status-IsNumbered a.sale.id status db'.stores st.db.sales
          (subst (λ stores. IsNumbered stores st.db.sales) (sym a.stores_eq) sound.numbered));
    sales = IsSoundSale-after;
    line_ids = subst (Below (λ (l : SaleLineRow). l.id) db'.books.next_id) (sym a.sale_lines_eq) (
        All-Below (λ (l : SaleLineRow). l.id) next_id db'.books.next_id st.db.sale_lines grows
          sound.line_ids);
    keyed =
        subst (λ rows. All (λ (s : SaleRow). IsKeyedSale s rows) rows) (sym a.sales_eq)
          (set_status-keyed a.sale.id status st.db.sales st.db.sales sound.keyed);
    keyed_lines =
        subst (λ rows. All (λ (l : SaleLineRow). IsKeyed l rows) rows) (sym a.sale_lines_eq)
          sound.keyed_lines;
    given = IsGiven-after;
  }
