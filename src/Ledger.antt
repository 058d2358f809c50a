-- ===== src/Ledger.antt =====
-- The money tables of the store database and the postings of
-- apps/backend/src/ledger/account-posting.service.ts. Rows are records of the columns that the
-- code reads or writes; an id is a number, since ids are only compared; a table is a list in
-- insertion order; `next_id` stands for the ids that the database generates.
pub mod Balance
pub mod Effects
mod Tests
use ayphen_retail_pos.Common.{
  ℕ, suc, ◌+◌, Bool, true, false, Option, none, some, List, [], ◌∷◌, ◌++◌,
}

pub data MutationAction : Type 0 where
  create update delete : MutationAction

pub record MutationContext : Type 0 where
  pub store_id : ℕ
  pub user_id : ℕ
  pub device_id : ℕ

pub data CashMovementType : Type 0 where
  payin payout drop tip : CashMovementType

pub data Direction : Type 0 where
  credit debit : Direction

pub data Reason : Type 0 where
  movement : CashMovementType → Reason
  opening_balance sale_reason refund_reason credit_payment vendor_payment : Reason

pub data SourceType : Type 0 where
  cash_movement opening sale_source refund_source customer_payment supplier_payment : SourceType

pub data LedgerKind : Type 0 where
  credit_sale payment credit_note : LedgerKind

pub record AccountTransaction : Type 0 where
  pub store_fk : ℕ
  pub account_fk : ℕ
  pub direction : Direction
  pub amount_paise : ℕ
  pub reason : Reason
  pub source_type : SourceType
  pub source_fk : ℕ
  pub created_by : ℕ
  pub device_fk : Option ℕ

pub record LedgerEvent : Type 0 where
  pub store_fk : ℕ
  pub customer_fk : ℕ
  pub kind : LedgerKind
  pub amount_paise : ℕ
  pub source_type : SourceType
  pub source_fk : ℕ
  pub flagged : Bool
  pub created_by : ℕ

pub record OpeningBalance : Type 0 where
  pub id : ℕ
  pub store_fk : ℕ
  pub account_fk : ℕ
  pub amount_paise : ℕ
  pub created_by : ℕ

-- The two books that a posting writes, and the opening balances.
pub record Books : Type 0 where
  pub account_transactions : List AccountTransaction
  pub customer_ledger_events : List LedgerEvent
  pub opening_balances : List OpeningBalance
  pub next_id : ℕ

-- `cash_movements.type` → the direction that it posts
unfoldable pub cash_movement_direction : CashMovementType → Direction
cash_movement_direction payin = credit
cash_movement_direction tip = credit
cash_movement_direction payout = debit
cash_movement_direction drop = debit

pub insert_transaction : AccountTransaction → Books → Books
insert_transaction t b = record b { account_transactions = b.account_transactions ++ t ∷ [] }

pub insert_event : LedgerEvent → Books → Books
insert_event e b = record b { customer_ledger_events = b.customer_ledger_events ++ e ∷ [] }

pub record CashMovementRow : Type 0 where
  pub id : ℕ
  pub store_fk : ℕ
  pub account_fk : ℕ
  pub type : CashMovementType
  pub amount_paise : ℕ

unfoldable pub post_cash_movement : CashMovementRow → MutationContext → Books → Books
unfolding insert_transaction
post_cash_movement m ctx = insert_transaction (record {
  store_fk = m.store_fk;
  account_fk = m.account_fk;
  direction = cash_movement_direction m.type;
  amount_paise = m.amount_paise;
  reason = movement m.type;
  source_type = cash_movement;
  source_fk = m.id;
  created_by = ctx.user_id;
  device_fk = some ctx.device_id;
})

-- The event and its posting are written together.
unfoldable pub record_opening_balance : ℕ → ℕ → ℕ → ℕ → Books → Books
unfolding insert_transaction
record_opening_balance store account amount user b =
    insert_transaction
      (record {
        store_fk = store;
        account_fk = account;
        direction = credit;
        amount_paise = amount;
        reason = opening_balance;
        source_type = opening;
        source_fk = b.next_id;
        created_by = user;
        device_fk = none;
      })
      (record b {
        opening_balances =
            b.opening_balances
            ++ record {
              id = b.next_id;
              store_fk = store;
              account_fk = account;
              amount_paise = amount;
              created_by = user;
            }
              ∷ [];
        next_id = suc b.next_id;
      })

unfoldable pub post_sale_payment : ℕ → ℕ → ℕ → MutationContext → Books → Books
unfolding insert_transaction
post_sale_payment account amount sale_payment ctx = insert_transaction (record {
  store_fk = ctx.store_id;
  account_fk = account;
  direction = credit;
  amount_paise = amount;
  reason = sale_reason;
  source_type = sale_source;
  source_fk = sale_payment;
  created_by = ctx.user_id;
  device_fk = some ctx.device_id;
})

-- The cash portion of a refund.
unfoldable pub post_refund : ℕ → ℕ → ℕ → MutationContext → Books → Books
unfolding insert_transaction
post_refund account amount refund ctx = insert_transaction (record {
  store_fk = ctx.store_id;
  account_fk = account;
  direction = debit;
  amount_paise = amount;
  reason = refund_reason;
  source_type = refund_source;
  source_fk = refund;
  created_by = ctx.user_id;
  device_fk = some ctx.device_id;
})

-- The credit portion of a refund: the customer owes less, no account moves.
unfoldable pub post_refund_credit_note : ℕ → ℕ → ℕ → MutationContext → Books → Books
unfolding insert_event
post_refund_credit_note customer amount refund ctx = insert_event (record {
  store_fk = ctx.store_id;
  customer_fk = customer;
  kind = credit_note;
  amount_paise = amount;
  source_type = refund_source;
  source_fk = refund;
  flagged = false;
  created_by = ctx.user_id;
})

-- A credit sale moves only the customer's book.
unfoldable pub post_credit_sale : ℕ → ℕ → ℕ → Bool → MutationContext → Books → Books
unfolding insert_event
post_credit_sale customer amount sale flagged ctx = insert_event (record {
  store_fk = ctx.store_id;
  customer_fk = customer;
  kind = credit_sale;
  amount_paise = amount;
  source_type = sale_source;
  source_fk = sale;
  flagged = flagged;
  created_by = ctx.user_id;
})

-- A settlement moves both books in one transaction.
unfoldable pub post_customer_payment : ℕ → ℕ → ℕ → ℕ → MutationContext → Books → Books
unfolding insert_event insert_transaction
post_customer_payment customer account amount customer_payment_id ctx b =
    insert_transaction
      (record {
        store_fk = ctx.store_id;
        account_fk = account;
        direction = credit;
        amount_paise = amount;
        reason = credit_payment;
        source_type = customer_payment;
        source_fk = customer_payment_id;
        created_by = ctx.user_id;
        device_fk = some ctx.device_id;
      })
      (insert_event
        (record {
          store_fk = ctx.store_id;
          customer_fk = customer;
          kind = payment;
          amount_paise = amount;
          source_type = customer_payment;
          source_fk = customer_payment_id;
          flagged = false;
          created_by = ctx.user_id;
        })
        b)

unfoldable pub post_supplier_payment : ℕ → ℕ → ℕ → MutationContext → Books → Books
unfolding insert_transaction
post_supplier_payment account amount supplier_payment_id ctx = insert_transaction (record {
  store_fk = ctx.store_id;
  account_fk = account;
  direction = debit;
  amount_paise = amount;
  reason = vendor_payment;
  source_type = supplier_payment;
  source_fk = supplier_payment_id;
  created_by = ctx.user_id;
  device_fk = some ctx.device_id;
})
