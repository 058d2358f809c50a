-- ===== src/Ledger/Effects.antt =====
-- What each posting of apps/backend/src/ledger/account-posting.service.ts means for the balances, by the
-- table of docs/prd/accounts-and-ledger.md: money into an account, money out of one, a debt of a
-- customer, a settlement.
pub mod Postings
unfoldable pub use Postings.*
use ayphen_retail_pos.Common.{
  ℕ, ◌+◌, ◌≡◌, refl, ap, ◌∙◌, Bool, true, false, ◌&&◌, not, List, [], ◌∷◌, ◌++◌, ◌==◌,
  if◌then◌else◌, sum_by, sum_by-append, arith, ==_refl,
}
use ayphen_retail_pos.Ledger.{
  MutationContext, credit, debit, CashMovementType, payin, payout, drop, tip, CashMovementRow,
  AccountTransaction, LedgerEvent, Books, cash_movement_direction, insert_transaction, insert_event,
  post_cash_movement, record_opening_balance, post_sale_payment, post_refund,
  post_refund_credit_note, post_credit_sale, post_customer_payment, post_supplier_payment,
}
use ayphen_retail_pos.Ledger.Balance.{
  is_credit, is_credit_sale, money_in, money_out, owed_by, settled_by, owed, settled, account_in,
  account_out,
}

-- The balances of an account and of a customer move by the effects.
pub record Moved (store account customer : ℕ) (es : List Effect) (b b' : Books) : Type 0 where
  pub money_in_eq :
      account_in account b'.account_transactions
      ≡ account_in account b.account_transactions + sum_by (into account) es
  pub money_out_eq :
      account_out account b'.account_transactions
      ≡ account_out account b.account_transactions + sum_by (out_of account) es
  pub owed_eq :
      owed store customer b'.customer_ledger_events
      ≡ owed store customer b.customer_ledger_events + sum_by (debt customer) es
  pub settled_eq :
      settled store customer b'.customer_ledger_events
      ≡ settled store customer b.customer_ledger_events + sum_by (settlement customer) es

sum-last :
    {A : Type 0} (f : A → ℕ) (xs : List A) (x : A) → sum_by f (xs ++ x ∷ []) ≡ sum_by f xs + f x
sum-last f xs x = omega (arith, sum_by-append f xs (x ∷ []))

with_true : (c : Bool) (n : ℕ) → (if c && true then n else 0) ≡ (if c then n else 0)
with_true true n = refl
with_true false n = refl

with_false : (c : Bool) (n : ℕ) → (if c && false then n else 0) ≡ 0
with_false true n = refl
with_false false n = refl

-- One more row adds its share, and an empty share adds nothing.
sum-step :
    {A : Type 0} (f : A → ℕ) (xs : List A) (x : A) (n : ℕ)
    → f x ≡ n
    → sum_by f (xs ++ x ∷ []) ≡ sum_by f xs + (n + 0)
sum-step f xs x n e = omega (arith, sum-last f xs x, e)

sum-same :
    {A : Type 0} (f : A → ℕ) (xs : List A) (x : A)
    → f x ≡ 0
    → sum_by f (xs ++ x ∷ []) ≡ sum_by f xs + 0
sum-same f xs x e = omega (arith, sum-last f xs x, e)

module _ (store account customer : ℕ) where
  credit-Moved :
      (t : AccountTransaction) (b : Books)
      → t.direction ≡ credit
      → Moved store account customer
          (money_into t.account_fk t.amount_paise ∷ [])
          b
          (insert_transaction t b)
  unfolding account_in account_out insert_transaction
  credit-Moved t b e = record {
    money_in_eq = sum-step (money_in account) b.account_transactions t _ (
        ap (λ d. if t.account_fk == account && is_credit d then t.amount_paise else 0) e
        ∙ with_true (t.account_fk == account) t.amount_paise);
    money_out_eq = sum-same (money_out account) b.account_transactions t (
        ap (λ d. if t.account_fk == account && not (is_credit d) then t.amount_paise else 0) e
        ∙ with_false (t.account_fk == account) t.amount_paise);
    owed_eq = omega arith;
    settled_eq = omega arith;
  }

  debit-Moved :
      (t : AccountTransaction) (b : Books)
      → t.direction ≡ debit
      → Moved store account customer
          (money_out_of t.account_fk t.amount_paise ∷ [])
          b
          (insert_transaction t b)
  unfolding account_in account_out insert_transaction
  debit-Moved t b e = record {
    money_in_eq = sum-same (money_in account) b.account_transactions t (
        ap (λ d. if t.account_fk == account && is_credit d then t.amount_paise else 0) e
        ∙ with_false (t.account_fk == account) t.amount_paise);
    money_out_eq = sum-step (money_out account) b.account_transactions t _ (
        ap (λ d. if t.account_fk == account && not (is_credit d) then t.amount_paise else 0) e
        ∙ with_true (t.account_fk == account) t.amount_paise);
    owed_eq = omega arith;
    settled_eq = omega arith;
  }

  -- The test of an event of this store.
  of_store :
      (c k : Bool) (e : LedgerEvent)
      → e.store_fk ≡ store
      → (if (e.store_fk == store && c) && k then e.amount_paise else 0)
        ≡ (if c && k then e.amount_paise else 0)
  of_store c k e h = rw (h, ==_refl store) refl

  sale-Moved :
      (e : LedgerEvent) (b : Books)
      → e.store_fk ≡ store
      → is_credit_sale e.kind ≡ true
      → Moved store account customer (owes e.customer_fk e.amount_paise ∷ []) b (insert_event e b)
  unfolding owed settled insert_event
  sale-Moved e b here kind = record {
    money_in_eq = omega arith;
    money_out_eq = omega arith;
    owed_eq = sum-step (owed_by store customer) b.customer_ledger_events e _ (
        of_store (e.customer_fk == customer) (is_credit_sale e.kind) e here
        ∙ ap (λ k. if (e.customer_fk == customer) && k then e.amount_paise else 0) kind
        ∙ with_true (e.customer_fk == customer) e.amount_paise);
    settled_eq = sum-same (settled_by store customer) b.customer_ledger_events e (
        of_store (e.customer_fk == customer) (not (is_credit_sale e.kind)) e here
        ∙ ap (λ k. if (e.customer_fk == customer) && not k then e.amount_paise else 0) kind
        ∙ with_false (e.customer_fk == customer) e.amount_paise);
  }

  settle-Moved :
      (e : LedgerEvent) (b : Books)
      → e.store_fk ≡ store
      → is_credit_sale e.kind ≡ false
      → Moved store account customer
          (settles e.customer_fk e.amount_paise ∷ [])
          b
          (insert_event e b)
  unfolding owed settled insert_event
  settle-Moved e b here kind = record {
    money_in_eq = omega arith;
    money_out_eq = omega arith;
    owed_eq = sum-same (owed_by store customer) b.customer_ledger_events e (
        of_store (e.customer_fk == customer) (is_credit_sale e.kind) e here
        ∙ ap (λ k. if (e.customer_fk == customer) && k then e.amount_paise else 0) kind
        ∙ with_false (e.customer_fk == customer) e.amount_paise);
    settled_eq = sum-step (settled_by store customer) b.customer_ledger_events e _ (
        of_store (e.customer_fk == customer) (not (is_credit_sale e.kind)) e here
        ∙ ap (λ k. if (e.customer_fk == customer) && not k then e.amount_paise else 0) kind
        ∙ with_true (e.customer_fk == customer) e.amount_paise);
  }

  Moved-append :
      (es fs : List Effect) (a b c : Books)
      → Moved store account customer es a b
      → Moved store account customer fs b c
      → Moved store account customer (es ++ fs) a c
  Moved-append es fs a b c p q = record {
    money_in_eq = omega (arith, p.money_in_eq, q.money_in_eq, sum_by-append (into account) es fs);
    money_out_eq =
        omega (arith, p.money_out_eq, q.money_out_eq, sum_by-append (out_of account) es fs);
    owed_eq = omega (arith, p.owed_eq, q.owed_eq, sum_by-append (debt customer) es fs);
    settled_eq =
        omega (arith, p.settled_eq, q.settled_eq, sum_by-append (settlement customer) es fs);
  }

  movement-Moved :
      (type : CashMovementType) (t : AccountTransaction) (b : Books)
      → t.direction ≡ cash_movement_direction type
      → Moved store account customer
          (movement_effect type t.account_fk t.amount_paise ∷ [])
          b
          (insert_transaction t b)
  unfolding cash_movement_direction movement_effect
  movement-Moved payin t b e = credit-Moved t b e
  movement-Moved tip t b e = credit-Moved t b e
  movement-Moved payout t b e = debit-Moved t b e
  movement-Moved drop t b e = debit-Moved t b e

run-Moved :
    (ctx : MutationContext) (account customer : ℕ) (p : Posting) (b : Books)
    → Moved ctx.store_id account customer (effects p) b (run ctx p b)
unfolding run effects post_cash_movement record_opening_balance post_sale_payment post_refund
    post_refund_credit_note post_credit_sale post_customer_payment post_supplier_payment
run-Moved ctx a c (moves m) b = movement-Moved ctx.store_id a c m.type _ b refl
run-Moved ctx a c (opens store account amount user) b =
    let k = credit-Moved ctx.store_id a c _ b refl in
    record {
      money_in_eq = k.money_in_eq;
      money_out_eq = k.money_out_eq;
      owed_eq = k.owed_eq;
      settled_eq = k.settled_eq;
    }
run-Moved ctx a c (pays_sale account amount id) b = credit-Moved ctx.store_id a c _ b refl
run-Moved ctx a c (refunds account amount id) b = debit-Moved ctx.store_id a c _ b refl
run-Moved ctx a c (notes_credit customer amount id) b = settle-Moved ctx.store_id a c _ b refl refl
run-Moved ctx a c (pays_supplier account amount id) b = debit-Moved ctx.store_id a c _ b refl
run-Moved ctx a c (sells_on_credit customer amount id flagged) b =
    sale-Moved ctx.store_id a c _ b refl refl
run-Moved ctx a c (pays_debt customer account amount id) b =
    Moved-append ctx.store_id a c (settles customer amount ∷ []) (money_into account amount ∷ []) b
      _ _ (settle-Moved ctx.store_id a c _ b refl refl) (credit-Moved ctx.store_id a c _ _ refl)

-- Whatever is posted, in whatever order, the money in and out of every account and the debts and
-- settlements of every customer of the store move by the effects of the postings and nothing else.
pub run_all-Moved :
    (ctx : MutationContext) (account customer : ℕ) (ps : List Posting) (b : Books)
    → Moved ctx.store_id account customer (effects_of ps) b (run_all ctx ps b)
unfolding run_all effects_of
run_all-Moved ctx a c [] b = record {
  money_in_eq = omega arith;
  money_out_eq = omega arith;
  owed_eq = omega arith;
  settled_eq = omega arith;
}
run_all-Moved ctx a c (p ∷ ps) b =
    Moved-append ctx.store_id a c (effects p) (effects_of ps) b (run ctx p b) _
      (run-Moved ctx a c p b) (run_all-Moved ctx a c ps (run ctx p b))
