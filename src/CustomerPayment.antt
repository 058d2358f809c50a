-- ===== src/CustomerPayment.antt =====
-- The settlement handler of apps/backend/src/sync/push/handlers/customer-payment.handler.ts: a customer
-- pays for credit sales, each by an allocation. The tables that only it touches stand beside those of
-- StoreDb; a target of type `bill` is one of the suppliers' handlers.
pub mod Covered
pub mod Collected
mod Tests
use ayphen_retail_pos.Common.{
  ℕ, suc, ◌+◌, Bool, true, false, ◌&&◌, not, Option, none, some, List, [], ◌∷◌, ◌++◌, map, ltb, leb,
  ◌==◌, if◌then◌else◌, find, filter, all, any, sum_by, length, member, is_safe_integer,
}
use ayphen_retail_pos.Ledger.{MutationAction, create, MutationContext, Books, post_customer_payment}
use ayphen_retail_pos.StoreDb.{
  PaymentAccountRow, CustomerRow, SaleRow, Db, validation_failed, account_inactive,
  customer_not_found, sale_not_found, target_over_settled, validation, business_rule, Exec, done,
  rejected, thrown, ◌>>=◌, ◌>>◌,
}
use ayphen_retail_pos.Sale.{max_int4, unique, map_get}
use ayphen_retail_pos.Refund.{sale_credit, prior_credit_note, set_at}

pub record Allocation : Type 0 where
  pub sale_guuid : ℕ
  pub applied_paise : ℕ

pub record CreatePayment : Type 0 where
  pub guuid : ℕ
  pub customer_guuid : ℕ
  pub account_guuid : ℕ
  pub allocations : List Allocation

pub record CustomerPaymentRow : Type 0 where
  pub id : ℕ
  pub guuid : ℕ
  pub store_fk : ℕ
  pub customer_fk : ℕ
  pub account_fk : ℕ
  pub amount_paise : ℕ

pub data TargetType : Type 0 where
  sale_target bill_target : TargetType

pub record PaymentAllocationRow : Type 0 where
  pub id : ℕ
  pub store_fk : ℕ
  pub payment_fk : ℕ
  pub target_type : TargetType
  pub target_fk : ℕ
  pub applied_paise : ℕ

pub record SettlementDb : Type 0 where
  pub db : Db
  pub customer_payments : List CustomerPaymentRow
  pub payment_allocations : List PaymentAllocationRow

-- `createSchema`
unfoldable pub payment_schema : CreatePayment → Bool
payment_schema d =
    ltb 0 (length d.allocations)
    && all (λ (a : Allocation). ltb 0 a.applied_paise && is_safe_integer a.applied_paise)
        d.allocations

unfoldable pub find_customer : MutationContext → CreatePayment → Db → Exec CustomerRow
find_customer ctx d db =
    elim (find
      (λ (c : CustomerRow).
        (c.guuid == d.customer_guuid && c.store_fk == ctx.store_id) && not c.deleted)
      db.customers) [ none ↦ rejected customer_not_found business_rule | some c ↦ done c ]

unfoldable pub find_account : MutationContext → CreatePayment → Db → Exec PaymentAccountRow
find_account ctx d db =
    elim (find
      (λ (a : PaymentAccountRow).
        (a.guuid == d.account_guuid && a.store_fk == ctx.store_id) && not a.deleted)
      db.payment_accounts) [
        | none ↦ rejected validation_failed validation
        | some a ↦ if a.is_active then done a else rejected account_inactive business_rule
      ]

abbrev pub sale_by_guuid : ℕ → List SaleRow → Option SaleRow
sale_by_guuid g rows = map_get (λ (s : SaleRow). s.guuid) g rows

abbrev pub is_of_customer : ℕ → SaleRow → Bool
is_of_customer customer s = elim s.customer_fk [ none ↦ false | some c ↦ c == customer ]

-- Each target sale is this customer's.
unfoldable pub check_sales : ℕ → List ℕ → List SaleRow → Exec (Unit {0})
check_sales customer [] rows = done tt
check_sales customer (g ∷ gs) rows = elim (sale_by_guuid g rows) [
  | none ↦ rejected sale_not_found business_rule
  | some s ↦
      if is_of_customer customer s
      then check_sales customer gs rows
      else rejected sale_not_found business_rule
]

abbrev pub is_sale_target : TargetType → Bool
is_sale_target sale_target = true
is_sale_target bill_target = false

-- `priorAllocatedMap`
unfoldable pub prior_allocated : List PaymentAllocationRow → ℕ → ℕ
prior_allocated rows sale =
    sum_by (λ (r : PaymentAllocationRow). r.applied_paise)
      (filter (λ (r : PaymentAllocationRow). is_sale_target r.target_type && r.target_fk == sale)
        rows)

-- The loop with `runningAllocatedMap`; the cap is in signed arithmetic.
unfoldable pub check_allocations : Db → List SaleRow → List Allocation → (ℕ → ℕ) → Exec (Unit {0})
check_allocations db rows [] running = done tt
check_allocations db rows (a ∷ rest) running = elim (sale_by_guuid a.sale_guuid rows) [
  | none ↦ thrown
  | some s ↦
      (let total = running s.id + a.applied_paise in
        let others = check_allocations db rows rest (set_at running s.id total) in
        if ltb (sale_credit db.sale_payments s.id)
          (total + prior_credit_note db.books.customer_ledger_events db.refunds s.id)
        then rejected target_over_settled business_rule
        else others)
]

-- The rows of `payment_allocations`, each with an id of its own.
unfoldable pub allocation_rows :
    ℕ → ℕ → List SaleRow → ℕ → List Allocation → Exec (List PaymentAllocationRow)
allocation_rows store payment rows n [] = done []
allocation_rows store payment rows n (a ∷ rest) = elim (sale_by_guuid a.sale_guuid rows) [
  | none ↦ thrown
  | some s ↦ allocation_rows store payment rows (suc n) rest >>= λ others. done (
      record {
        id = n;
        store_fk = store;
        payment_fk = payment;
        target_type = sale_target;
        target_fk = s.id;
        applied_paise = a.applied_paise;
      }
      ∷ others)
]

abbrev pub amount_of : CreatePayment → ℕ
amount_of d = sum_by (λ (a : Allocation). a.applied_paise) d.allocations

-- The checks of the two tables: amounts that fit, and a new guuid. A violation throws.
unfoldable pub check_payment_columns : CreatePayment → List CustomerPaymentRow → Exec (Unit {0})
check_payment_columns d rows =
    if (ltb 0 (amount_of d) && leb (amount_of d) max_int4)
      && not (any (λ (r : CustomerPaymentRow). r.guuid == d.guuid) rows)
    then done tt
    else thrown

abbrev pub target_sales : MutationContext → CreatePayment → Db → List SaleRow
target_sales ctx d db =
    let guuids = unique (map (λ (a : Allocation). a.sale_guuid) d.allocations) in
    filter (λ (s : SaleRow). member s.guuid guuids && s.store_fk == ctx.store_id) db.sales

unfoldable pub write_payment :
    MutationContext
    → CreatePayment
    → CustomerRow
    → PaymentAccountRow
    → SettlementDb
    → Exec (CustomerPaymentRow × SettlementDb)
write_payment ctx d customer account st =
    let id = st.db.books.next_id in
    let payment : CustomerPaymentRow = record {
      id = id;
      guuid = d.guuid;
      store_fk = ctx.store_id;
      customer_fk = customer.id;
      account_fk = account.id;
      amount_paise = amount_of d;
    } in
    let books = record (st.db.books) { next_id = suc id + length d.allocations } in
    do
      check_payment_columns d st.customer_payments
      rows ← allocation_rows ctx.store_id id (target_sales ctx d st.db) (suc id) d.allocations
      done (
        payment,
        record {
          db = record (st.db) {
            books = post_customer_payment customer.id account.id (amount_of d) id ctx books;
          };
          customer_payments = st.customer_payments ++ payment ∷ [];
          payment_allocations = st.payment_allocations ++ rows;
        },
      )

-- The create path, after the payload has been parsed.
unfoldable pub settle :
    MutationContext → CreatePayment → SettlementDb → Exec (CustomerPaymentRow × SettlementDb)
settle ctx d st = do
  customer ← find_customer ctx d st.db
  account ← find_account ctx d st.db
  check_sales customer.id (unique (map (λ (a : Allocation). a.sale_guuid) d.allocations))
      (target_sales ctx d st.db)
  check_allocations st.db (target_sales ctx d st.db) d.allocations
      (prior_allocated st.payment_allocations)
  write_payment ctx d customer account st

-- `apply`: `none` is a payload that is not of the schema's shape.
unfoldable pub apply :
    MutationAction
    → Option CreatePayment
    → MutationContext
    → SettlementDb
    → Exec (CustomerPaymentRow × SettlementDb)
apply create payload ctx st = elim payload [
  | none ↦ rejected validation_failed validation
  | some d ↦ if payment_schema d then settle ctx d st else rejected validation_failed validation
]
apply _ payload ctx st = rejected validation_failed validation
