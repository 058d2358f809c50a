-- ===== src/Ledger/Balance.antt =====
-- What the two books add up to: the money that an account has taken in and given out, and what a
-- customer has bought on credit and settled. The reads of sale.handler.ts and the balances that
-- docs/prd/accounts-and-ledger.md derives from the books.
use ayphen_retail_pos.Common.{ℕ, Bool, true, false, ◌&&◌, not, List, if◌then◌else◌, ◌==◌, sum_by}
use ayphen_retail_pos.Ledger.{
  AccountTransaction, LedgerEvent, Direction, credit, debit, LedgerKind, credit_sale,
}

abbrev pub is_credit : Direction → Bool
is_credit credit = true
is_credit debit = false

abbrev pub is_credit_sale : LedgerKind → Bool
is_credit_sale credit_sale = true
is_credit_sale _ = false

-- What one posting adds to the money in, or the money out, of an account.
abbrev pub money_in : ℕ → AccountTransaction → ℕ
money_in account t = if t.account_fk == account && is_credit t.direction then t.amount_paise else 0

abbrev pub money_out : ℕ → AccountTransaction → ℕ
money_out account t =
    if t.account_fk == account && not (is_credit t.direction) then t.amount_paise else 0

-- What one event adds to what a customer of the store has bought on credit, or has settled.
abbrev pub owed_by : ℕ → ℕ → LedgerEvent → ℕ
owed_by store customer e =
    if (e.store_fk == store && e.customer_fk == customer) && is_credit_sale e.kind
    then e.amount_paise
    else 0

abbrev pub settled_by : ℕ → ℕ → LedgerEvent → ℕ
settled_by store customer e =
    if (e.store_fk == store && e.customer_fk == customer) && not (is_credit_sale e.kind)
    then e.amount_paise
    else 0

-- The two sums of the outstanding balance: credit sales, and payments with credit notes.
unfoldable pub owed : ℕ → ℕ → List LedgerEvent → ℕ
owed store customer es = sum_by (owed_by store customer) es

unfoldable pub settled : ℕ → ℕ → List LedgerEvent → ℕ
settled store customer es = sum_by (settled_by store customer) es

unfoldable pub account_in : ℕ → List AccountTransaction → ℕ
account_in account ts = sum_by (money_in account) ts

unfoldable pub account_out : ℕ → List AccountTransaction → ℕ
account_out account ts = sum_by (money_out account) ts
