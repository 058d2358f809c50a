-- ===== src/Ledger/Effects/Postings.antt =====
-- The postings of apps/backend/src/ledger/account-posting.service.ts and the effects that
-- docs/prd/accounts-and-ledger.md gives them.
use ayphen_retail_pos.Common.{ℕ, Bool, List, [], ◌∷◌, ◌++◌, ◌==◌, if◌then◌else◌}
use ayphen_retail_pos.Ledger.{
  MutationContext, CashMovementType, payin, payout, drop, tip, CashMovementRow, Books,
  post_cash_movement, record_opening_balance, post_sale_payment, post_refund,
  post_refund_credit_note, post_credit_sale, post_customer_payment, post_supplier_payment,
}

-- A call of the service.
pub data Posting : Type 0 where
  moves : CashMovementRow → Posting
  opens : ℕ → ℕ → ℕ → ℕ → Posting
  pays_sale refunds notes_credit pays_supplier : ℕ → ℕ → ℕ → Posting
  sells_on_credit : ℕ → ℕ → ℕ → Bool → Posting
  pays_debt : ℕ → ℕ → ℕ → ℕ → Posting

unfoldable pub run : MutationContext → Posting → Books → Books
run ctx (moves m) = post_cash_movement m ctx
run ctx (opens store account amount user) = record_opening_balance store account amount user
run ctx (pays_sale account amount id) = post_sale_payment account amount id ctx
run ctx (refunds account amount id) = post_refund account amount id ctx
run ctx (notes_credit customer amount id) = post_refund_credit_note customer amount id ctx
run ctx (pays_supplier account amount id) = post_supplier_payment account amount id ctx
run ctx (sells_on_credit customer amount id flagged) =
    post_credit_sale customer amount id flagged ctx
run ctx (pays_debt customer account amount id) =
    post_customer_payment customer account amount id ctx

unfoldable pub run_all : MutationContext → List Posting → Books → Books
run_all ctx [] b = b
run_all ctx (p ∷ ps) b = run_all ctx ps (run ctx p b)

pub data Effect : Type 0 where
  money_into money_out_of owes settles : ℕ → ℕ → Effect

unfoldable pub movement_effect : CashMovementType → ℕ → ℕ → Effect
movement_effect payin account amount = money_into account amount
movement_effect tip account amount = money_into account amount
movement_effect payout account amount = money_out_of account amount
movement_effect drop account amount = money_out_of account amount

unfoldable pub effects : Posting → List Effect
effects (moves m) = movement_effect m.type m.account_fk m.amount_paise ∷ []
effects (opens store account amount user) = money_into account amount ∷ []
effects (pays_sale account amount id) = money_into account amount ∷ []
effects (refunds account amount id) = money_out_of account amount ∷ []
effects (notes_credit customer amount id) = settles customer amount ∷ []
effects (pays_supplier account amount id) = money_out_of account amount ∷ []
effects (sells_on_credit customer amount id flagged) = owes customer amount ∷ []
effects (pays_debt customer account amount id) =
    settles customer amount ∷ money_into account amount ∷ []

unfoldable pub effects_of : List Posting → List Effect
effects_of [] = []
effects_of (p ∷ ps) = effects p ++ effects_of ps

abbrev pub for_key : ℕ → ℕ → ℕ → ℕ
for_key key k amount = if k == key then amount else 0

abbrev pub into : ℕ → Effect → ℕ
into account (money_into a amount) = for_key account a amount
into account _ = 0

abbrev pub out_of : ℕ → Effect → ℕ
out_of account (money_out_of a amount) = for_key account a amount
out_of account _ = 0

abbrev pub debt : ℕ → Effect → ℕ
debt customer (owes c amount) = for_key customer c amount
debt customer _ = 0

abbrev pub settlement : ℕ → Effect → ℕ
settlement customer (settles c amount) = for_key customer c amount
settlement customer _ = 0
