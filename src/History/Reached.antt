-- ===== src/History/Reached.antt =====
-- What holds of every database that the handlers of apps/backend/src/sync/push/handlers reach.
use ayphen_retail_pos.Common.{ℕ, sym, subst, All}
use ayphen_retail_pos.StoreDb.{SaleRow, SaleLineRow, SalePaymentRow, RefundRow, RefundLineRow}
use ayphen_retail_pos.Sale.Invoice.{IsNumbered}
use ayphen_retail_pos.Refund.Money.{IsProrate, IsKeyedSale}
use ayphen_retail_pos.Refund.Lines.{IsKeyed}
use ayphen_retail_pos.Refund.Notes.{IsFresh}
use ayphen_retail_pos.CustomerPayment.{SettlementDb, PaymentAllocationRow}
use ayphen_retail_pos.History.{
  Step, sells, refunds, collects, Reachable, start_of_day, then_step, IsOpening,
}
use ayphen_retail_pos.History.Rows.{Below}
use ayphen_retail_pos.History.Sound.{IsSound, IsSoundSale}
use ayphen_retail_pos.History.Sells.{sells-IsSound}
use ayphen_retail_pos.History.Refunds.{refunds-IsSound}
use ayphen_retail_pos.History.Collects.{collects-IsSound}

module _ (gross : ℕ → ℕ → ℕ) (prorate : ℕ → ℕ → ℕ → ℕ) where
  opening-IsSound : (st : SettlementDb) → IsOpening st → IsSound prorate st
  opening-IsSound st h = record {
    numbered =
        subst (IsNumbered st.db.stores) (sym h.no_sales) (record { below = tt; distinct = tt });
    sales = subst (All (IsSoundSale prorate st)) (sym h.no_sales) tt;
    line_ids = subst (Below (λ (l : SaleLineRow). l.id) st.db.books.next_id) (sym h.no_lines) tt;
    keyed = subst (λ rows. All (λ (s : SaleRow). IsKeyedSale s rows) rows) (sym h.no_sales) tt;
    keyed_lines =
        subst (λ rows. All (λ (l : SaleLineRow). IsKeyed l rows) rows) (sym h.no_lines) tt;
    given = record {
      fresh = subst (IsFresh st.db.books.next_id) (sym h.no_events) tt;
      refund_ids =
          subst (Below (λ (r : RefundRow). r.id) st.db.books.next_id) (sym h.no_refunds) tt;
      refund_sales =
          subst (Below (λ (r : RefundRow). r.sale_fk) st.db.books.next_id) (sym h.no_refunds) tt;
      refund_lines =
          subst (Below (λ (r : RefundLineRow). r.sale_line_fk) st.db.books.next_id)
            (sym h.no_refund_lines) tt;
      payment_sales =
          subst (Below (λ (p : SalePaymentRow). p.sale_fk) st.db.books.next_id) (sym h.no_payments)
            tt;
      targets =
          subst (Below (λ (a : PaymentAllocationRow). a.target_fk) st.db.books.next_id)
            (sym h.no_allocations) tt;
    };
  }

  Step-IsSound :
      {st st' : SettlementDb}
      → IsProrate prorate
      → Step gross prorate st st'
      → IsSound prorate st
      → IsSound prorate st'
  Step-IsSound laws (sells st action payload ctx sale db' h) sound =
      sells-IsSound gross prorate action payload ctx st sale db' laws h sound
  Step-IsSound laws (refunds st action payload ctx r db' h) sound =
      refunds-IsSound prorate laws action payload ctx st r db' h sound
  Step-IsSound laws (collects st st' action payload ctx p h) sound =
      collects-IsSound prorate action payload ctx st st' p h sound

  -- Every database that sales, refunds and settlements reach from a store that has sold nothing is
  -- sound, where the quotient is rounded by a function with the laws of rounding: the sales of a store
  -- have numbers of their own up to its counter; of each sale no more than its total is on credit or
  -- has been refunded, its credit notes are at the share of what has been refunded, and no more than
  -- its credit has been settled; and rows refer to ids that have been given out, by which sales and
  -- lines are known.
  pub Reachable-IsSound :
      (start st : SettlementDb)
      → IsProrate prorate
      → IsOpening start
      → Reachable gross prorate start st
      → IsSound prorate st
  Reachable-IsSound start st laws opening start_of_day = opening-IsSound start opening
  Reachable-IsSound start st laws opening (then_step {st = before} r step) =
      Step-IsSound laws step (Reachable-IsSound start before laws opening r)
