-- ===== src/Sale/Conservation/Posted.antt =====
-- What the tenders and the credit portion of a sale post
-- (apps/backend/src/sync/push/handlers/sale.handler.ts).
use ayphen_retail_pos.Common.{
  ℕ, suc, ◌+◌, ◌≡◌, refl, sym, ap, ◌∙◌, Bool, not, Option, none, some, List, [], ◌∷◌, ◌++◌, inl,
  inr, ltb, if◌then◌else◌, filter, sum_by, All, arith, Bool-cases, Option-cases,
}
use mathlib.Core.List.{append-nil, append_assoc}
use ayphen_retail_pos.Ledger.{
  MutationContext, Books, AccountTransaction, LedgerEvent, credit, credit_sale, sale_reason,
  sale_source, post_sale_payment, post_credit_sale,
}
use ayphen_retail_pos.StoreDb.{PaymentAccountRow, CustomerRow, SalePaymentRow, done}
use ayphen_retail_pos.Sale.{Payment, on_credit, amount, payment_rows, post_payments, post_credit}
use ayphen_retail_pos.Sale.Credit.{credit_exceeded}
use ayphen_retail_pos.Sale.Accepted.{done-injective, >>=-eq-done}

abbrev pub posted : AccountTransaction → ℕ
posted t = t.amount_paise

abbrev pub event_amount : LedgerEvent → ℕ
event_amount e = e.amount_paise

abbrev tender_amount : SalePaymentRow → ℕ
tender_amount p = p.amount_paise

-- Money into an account, for a sale of the store.
abbrev pub IsSaleCredit : MutationContext → AccountTransaction → Type 0
IsSaleCredit ctx t = (t.direction ≡ credit) × (t.store_fk ≡ ctx.store_id)

-- The posting of one tender, as the ledger's rules say it: money into the tender's account.
abbrev tender_posting : MutationContext → ℕ → SalePaymentRow → AccountTransaction
tender_posting ctx account p = record {
  store_fk = ctx.store_id;
  account_fk = account;
  direction = credit;
  amount_paise = p.amount_paise;
  reason = sale_reason;
  source_type = sale_source;
  source_fk = p.id;
  created_by = ctx.user_id;
  device_fk = some ctx.device_id;
}

pub tender_postings : MutationContext → List SalePaymentRow → List AccountTransaction
tender_postings ctx [] = []
tender_postings ctx (p ∷ ps) = if p.on_credit then tender_postings ctx ps else elim p.account_fk [
  | none ↦ tender_postings ctx ps
  | some account ↦ tender_posting ctx account p ∷ tender_postings ctx ps
]

pub post_payments_lem :
    (ps : List SalePaymentRow) (ctx : MutationContext) (b : Books) {b' : Books}
    → post_payments ps ctx b ≡ done b'
    → (b'.account_transactions ≡ b.account_transactions ++ tender_postings ctx ps)
      × (b'.customer_ledger_events ≡ b.customer_ledger_events)
unfolding post_payments tender_postings post_sale_payment
post_payments_lem [] ctx b h =
    let e = done-injective h in
    (
      sym (ap (λ r. r.account_transactions) e) ∙ sym (append-nil b.account_transactions),
      sym (ap (λ r. r.customer_ledger_events) e),
    )
post_payments_lem (p ∷ ps) ctx b {b'} h = elim (Bool-cases p.on_credit) [
  | inl e ↦ rw e (post_payments_lem ps ctx b (rw (e, post_payments) at h))
  | inr e ↦ elim (Option-cases p.account_fk) [
    | inl f ↦ cc (rw (e, f) at h)
    | inr (account, f) ↦
        let posted_one = post_sale_payment account p.amount_paise p.id ctx b in
        let ih = post_payments_lem ps ctx posted_one (rw (e, f, post_payments) at h) in
        rw (e, f)
          (
            ih.0
                ∙ append_assoc b.account_transactions (tender_posting ctx account p ∷ [])
                    (tender_postings ctx ps),
            ih.1,
          )
  ]
]

-- The tenders that are not on credit.
abbrev pub tendered : List SalePaymentRow → ℕ
tendered ps = sum_by tender_amount (filter (λ (p : SalePaymentRow). not p.on_credit) ps)

-- If the postings do not throw, every tender that is not on credit is posted in full.
pub sum-tender_postings :
    (ps : List SalePaymentRow) (ctx : MutationContext) (b : Books) {b' : Books}
    → post_payments ps ctx b ≡ done b'
    → sum_by posted (tender_postings ctx ps) ≡ tendered ps
unfolding post_payments tender_postings
sum-tender_postings [] ctx b h = refl
sum-tender_postings (p ∷ ps) ctx b {b'} h = elim (Bool-cases p.on_credit) [
  | inl e ↦ rw e (sum-tender_postings ps ctx b (rw (e, post_payments) at h))
  | inr e ↦ elim (Option-cases p.account_fk) [
    | inl f ↦ cc (rw (e, f) at h)
    | inr (account, f) ↦
        let posted_one = post_sale_payment account p.amount_paise p.id ctx b in
        rw (e, f)
          (ap (λ n. p.amount_paise + n)
            (sum-tender_postings ps ctx posted_one (rw (e, f, post_payments) at h)))
  ]
]

pub tender_postings-IsSaleCredit :
    (ps : List SalePaymentRow) (ctx : MutationContext)
    → All (IsSaleCredit ctx) (tender_postings ctx ps)
unfolding tender_postings
tender_postings-IsSaleCredit [] ctx = tt
tender_postings-IsSaleCredit (p ∷ ps) ctx = ground (arith, tender_postings-IsSaleCredit ps ctx)

-- The rows of the tenders carry the amounts of the payload.
pub tendered-payment_rows :
    (ps : List Payment) (sale n : ℕ) (accounts : List PaymentAccountRow)
    → tendered (payment_rows sale n accounts ps) + sum_by amount (filter on_credit ps)
      ≡ sum_by amount ps
unfolding payment_rows
tendered-payment_rows [] sale n accounts = refl
tendered-payment_rows (p ∷ ps) sale n accounts =
    ground (arith, tendered-payment_rows ps sale (suc n) accounts)

-- A credit sale of the store, traced to its sale.
abbrev pub IsCreditSale : MutationContext → ℕ → LedgerEvent → Type 0
IsCreditSale ctx sale e =
    (e.kind ≡ credit_sale) × (e.store_fk ≡ ctx.store_id) × (e.source_fk ≡ sale)

abbrev credit_event : MutationContext → ℕ → ℕ → ℕ → Bool → LedgerEvent
credit_event ctx customer portion sale exceeded = record {
  store_fk = ctx.store_id;
  customer_fk = customer;
  kind = credit_sale;
  amount_paise = portion;
  source_type = sale_source;
  source_fk = sale;
  flagged = exceeded;
  created_by = ctx.user_id;
}

-- What the credit portion appends to the customer's book.
abbrev Credits : MutationContext → ℕ → ℕ → Books → Books → Type 0
Credits ctx portion sale b b' =
    (b'.account_transactions ≡ b.account_transactions)
    × ((events : List LedgerEvent) × (b'.customer_ledger_events
          ≡ b.customer_ledger_events ++ events)
        × All (IsCreditSale ctx sale) events
        × (sum_by event_amount events ≡ portion))

-- The credit portion appends one event of its amount, or nothing when it is zero.
pub post_credit_lem :
    (portion sale : ℕ) (customer : Option CustomerRow) (ctx : MutationContext) (b : Books)
    {b' : Books}
    → post_credit portion customer sale ctx b ≡ done b'
    → Credits ctx portion sale b b'
unfolding post_credit post_credit_sale
post_credit_lem portion sale customer ctx b {b'} h = elim (Bool-cases (ltb 0 portion)) [
  | inr zero_portion ↦
      let e = done-injective (rw (zero_portion, post_credit) at h) in
      (
        sym (ap (λ r. r.account_transactions) e),
        ([], sym (ap (λ r. r.customer_ledger_events) e) ∙ sym (append-nil _), tt, ground arith),
      )
  | inl positive ↦ elim (Option-cases customer) [
    | inl unknown ↦ cc (rw (positive, unknown, post_credit) at h)
    | inr (c, known) ↦
        let (exceeded, _, written) =
          >>=-eq-done (credit_exceeded ctx.store_id c portion b) _
            (rw (positive, known, post_credit) at h) in
        let e = done-injective written in
        (
          sym (ap (λ r. r.account_transactions) e),
          (
            credit_event ctx c.id portion sale exceeded ∷ [],
            sym (ap (λ r. r.customer_ledger_events) e),
            ((refl, refl, refl), tt),
            omega arith,
          ),
        )
  ]
]
