-- ===== src/History.antt =====
-- The life of a store's database: the handlers of apps/backend/src/sync/push/handlers that move money run
-- one after another, each in a transaction of its own, and only what they accept is written.
pub mod Rows
pub mod Sound
pub mod Sold
pub mod Sells
pub mod Status
pub mod Refunds
pub mod Collects
pub mod Reached
pub mod Returned
mod Tests
use ayphen_retail_pos.Common.{ℕ, ◌≡◌, Option, List, []}
use ayphen_retail_pos.Ledger.{MutationAction, MutationContext}
use ayphen_retail_pos.StoreDb.{SaleRow, RefundRow, Db, done}
use ayphen_retail_pos.Sale
use ayphen_retail_pos.Sale.{CreateSale}
use ayphen_retail_pos.Refund
use ayphen_retail_pos.Refund.{CreateRefund}
use ayphen_retail_pos.CustomerPayment
use ayphen_retail_pos.CustomerPayment.{CreatePayment, CustomerPaymentRow, SettlementDb}

module _ (gross : ℕ → ℕ → ℕ) (prorate : ℕ → ℕ → ℕ → ℕ) where
  -- A mutation that a handler accepts.
  pub data Step : SettlementDb → SettlementDb → Type 0 where
    sells :
        (st : SettlementDb) (action : MutationAction) (payload : Option CreateSale)
        (ctx : MutationContext) (sale : SaleRow) (db' : Db)
        → Sale.apply gross action payload ctx st.db ≡ done (sale, db')
        → Step st (record st { db = db' })
    refunds :
        (st : SettlementDb) (action : MutationAction) (payload : Option CreateRefund)
        (ctx : MutationContext) (refund : RefundRow) (db' : Db)
        → Refund.apply prorate action payload ctx st.db ≡ done (refund, db')
        → Step st (record st { db = db' })
    collects :
        (st st' : SettlementDb) (action : MutationAction) (payload : Option CreatePayment)
        (ctx : MutationContext) (payment : CustomerPaymentRow)
        → CustomerPayment.apply action payload ctx st ≡ done (payment, st')
        → Step st st'

  pub data Reachable (start : SettlementDb) : SettlementDb → Type 0 where
    start_of_day : Reachable start start
    then_step : {st st' : SettlementDb} → Reachable start st → Step st st' → Reachable start st'

-- A store that has sold nothing yet, with any products, customers, accounts and counters.
pub record IsOpening (st : SettlementDb) : Type 0 where
  pub no_sales : st.db.sales ≡ []
  pub no_lines : st.db.sale_lines ≡ []
  pub no_payments : st.db.sale_payments ≡ []
  pub no_refunds : st.db.refunds ≡ []
  pub no_refund_lines : st.db.refund_lines ≡ []
  pub no_events : st.db.books.customer_ledger_events ≡ []
  pub no_allocations : st.payment_allocations ≡ []
