-- ===== src/Ledger/Tests.antt =====
-- Tests of the postings.
use ayphen_retail_pos.Common.{◌≡◌, refl, false, List, [], ◌∷◌}
use ayphen_retail_pos.Ledger.{
  MutationContext, payout, CashMovementRow, Books, cash_movement_direction, post_cash_movement,
  post_sale_payment, post_credit_sale, post_customer_payment,
}
use ayphen_retail_pos.Ledger.Balance.{account_in}
use ayphen_retail_pos.Ledger.Effects.{
  Posting, moves, pays_sale, sells_on_credit, pays_debt, run, run_all, effects_of, Moved,
  run_all-Moved,
}

abbrev ctx : MutationContext
ctx = record { store_id = 7; user_id = 1; device_id = 2 }

abbrev books : Books
books = record {
  account_transactions = [];
  customer_ledger_events = [];
  opening_balances = [];
  next_id = 1;
}

abbrev till : CashMovementRow
till = record { id = 9; store_fk = 7; account_fk = 3; type = payout; amount_paise = 40 }

abbrev day : List Posting
day = pays_sale 3 500 1 ∷ sells_on_credit 8 200 2 false ∷ pays_debt 8 3 150 3 ∷ moves till ∷ []

taken_in : account_in 3 (run_all ctx day books).account_transactions ≡ 650
unfolding account_in run_all run post_sale_payment post_credit_sale post_customer_payment
    post_cash_movement cash_movement_direction
taken_in = refl

run_all-Moved_example : Moved 7 3 8 (effects_of day) books (run_all ctx day books)
run_all-Moved_example = run_all-Moved ctx 3 8 day books
