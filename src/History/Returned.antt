-- ===== src/History/Returned.antt =====
-- What is returned of the lines of sales, over the life of a store's database
-- (apps/backend/src/sync/push/handlers).
use ayphen_retail_pos.Common.{ℕ, All}
use ayphen_retail_pos.StoreDb.{SaleLineRow, Db}
use ayphen_retail_pos.Refund.Lines.{IsRefunded, AreWhole}
use ayphen_retail_pos.CustomerPayment.{SettlementDb}
use ayphen_retail_pos.History.{Step, sells, refunds, collects, Reachable, start_of_day, then_step}
use ayphen_retail_pos.History.Sold.{Sold}

module _ (gross : ℕ → ℕ → ℕ) (prorate : ℕ → ℕ → ℕ → ℕ) where
  -- The refunds of a history are in whole thousandths.
  abbrev IsWholeStep : {st st' : SettlementDb} → Step gross prorate st st' → Type 0
  IsWholeStep (sells st action payload ctx sale db' h) = Unit {0}
  IsWholeStep (refunds st action payload ctx r db' h) = AreWhole payload
  IsWholeStep (collects st st' action payload ctx p h) = Unit {0}

  abbrev pub AreWholeSteps : {start st : SettlementDb} → Reachable gross prorate start st → Type 0
  AreWholeSteps start_of_day = Unit {0}
  AreWholeSteps (then_step r step) = IsWholeStep step × AreWholeSteps r

  -- Every line has been returned within what was sold, on target.
  abbrev pub IsReturned : Db → Type 0
  IsReturned db = All (λ (l : SaleLineRow). IsRefunded prorate l db.refund_lines) db.sale_lines
