-- ===== src/Sale/Total.antt =====
-- The throws of the sale handler after its checks
-- (apps/backend/src/sync/push/handlers/sale.handler.ts).
use ayphen_retail_pos.Common.{
  max_safe_integer, ℕ, suc, ◌+◌, ◌≤◌, ◌<◌, ◌≡◌, refl, ◌∙◌, true, false, not, Option, none, some,
  List, [], ◌∷◌, inl, inr, ltb, ◌==◌, ltb→lt, &&-true, is_some, length, filter, all, member, sum_by,
  arith, Bool-cases, Option-cases,
}
use ayphen_retail_pos.Ledger.{MutationContext, Books, post_sale_payment, post_credit_sale}
use ayphen_retail_pos.Ledger.Balance.{owed, settled}
use ayphen_retail_pos.StoreDb.{PaymentAccountRow, CustomerRow, done}
use ayphen_retail_pos.Sale.{
  CreateSale, Payment, on_credit, amount, unique, map_get, account_guuids, check_accounts,
  resolve_customer, post_payments, payment_rows, post_credit, payment_schema, create_schema,
}
use ayphen_retail_pos.Sale.Credit.{passes_limit, credit_exceeded}
use ayphen_retail_pos.Sale.Accepted.{credit_portion}

abbrev pub account_of : ℕ → List PaymentAccountRow → Option PaymentAccountRow
account_of g rows = map_get (λ (a : PaymentAccountRow). a.guuid) g rows

-- Every account that the loop has passed is among the rows.
pub check_accounts-known :
    (g : ℕ) (gs : List ℕ) (rows : List PaymentAccountRow)
    → check_accounts gs rows ≡ done tt
    → member g gs ≡ true
    → is_some (account_of g rows) ≡ true
unfolding check_accounts
check_accounts-known g [] rows h m = cc
check_accounts-known g (x ∷ gs) rows h m = elim (Option-cases (account_of x rows)) [
  | inl unknown ↦ cc (rw (unknown, check_accounts) at h)
  | inr (a, known) ↦ elim (Bool-cases a.is_active) [
    | inr inactive ↦ cc (rw (known, inactive, check_accounts) at h)
    | inl active ↦
        let rest = check_accounts-known g gs rows (rw (known, active, check_accounts) at h) in
        ground (arith, rest, known)
  ]
]

member-filter_ne :
    (g x : ℕ) (ys : List ℕ)
    → (g == x) ≡ false
    → member g ys ≡ true
    → member g (filter (λ y. not (y == x)) ys) ≡ true
member-filter_ne g x [] ne m = m
member-filter_ne g x (y ∷ ys) ne m = ground (arith, member-filter_ne g x ys ne)

pub member-unique : (g : ℕ) (xs : List ℕ) → member g xs ≡ true → member g (unique xs) ≡ true
member-unique g [] m = m
member-unique g (x ∷ xs) m = elim (Bool-cases (g == x)) [
  | inl same ↦ rw same
  | inr other ↦
      rw other (member-filter_ne g x (unique xs) other (member-unique g xs (rw other at m)))
]

-- The accounts that the payments name are all among the rows.
abbrev pub Knows : List PaymentAccountRow → List ℕ → Type 0
Knows rows gs = (g : ℕ) → member g gs ≡ true → is_some (account_of g rows) ≡ true

member-account_guuids :
    (p : Payment) (ps : List Payment) (g : ℕ)
    → member g (account_guuids ps) ≡ true
    → member g (account_guuids (p ∷ ps)) ≡ true
member-account_guuids p ps g m = elim (Option-cases p.account_guuid) [
  | inl e ↦ rw e m
  | inr (a, e) ↦ rw e (ground (arith, m))
]

-- A tender that is not on credit has an account, and the account is known.
tender_account :
    (p : Payment) (ps : List Payment) (rows : List PaymentAccountRow)
    → p.on_credit ≡ false
    → payment_schema p ≡ true
    → Knows rows (account_guuids (p ∷ ps))
    → (g : ℕ) × (a : PaymentAccountRow) × (p.account_guuid ≡ some g) × (account_of g rows ≡ some a)
unfolding payment_schema
tender_account p ps rows e s k = elim (Option-cases p.account_guuid) [
  | inl gone ↦ absurd (ground (arith, s, e, gone))
  | inr (g, f) ↦ elim (Option-cases (account_of g rows)) [
    | inl unknown ↦ absurd (ground (arith, k g (rw f (ground arith)), unknown))
    | inr (a, known) ↦ (g, a, f, known)
  ]
]

-- One step of the postings: a tender on credit is passed over, any other is posted.
post_payments-on_credit :
    (p : Payment) (ps : List Payment) (sale n : ℕ) (rows : List PaymentAccountRow)
    (ctx : MutationContext) (b : Books)
    → p.on_credit ≡ true
    → post_payments (payment_rows sale n rows (p ∷ ps)) ctx b
      ≡ post_payments (payment_rows sale (suc n) rows ps) ctx b
unfolding post_payments payment_rows
post_payments-on_credit p ps sale n rows ctx b e = rw (e, post_payments)

post_payments-on_account :
    (p : Payment) (ps : List Payment) (sale n g : ℕ) (a : PaymentAccountRow)
    (rows : List PaymentAccountRow) (ctx : MutationContext) (b : Books)
    → p.on_credit ≡ false
    → p.account_guuid ≡ some g
    → account_of g rows ≡ some a
    → post_payments (payment_rows sale n rows (p ∷ ps)) ctx b
      ≡ post_payments
          (payment_rows sale (suc n) rows ps)
          ctx
          (post_sale_payment a.id p.amount_paise n ctx b)
unfolding post_payments payment_rows
post_payments-on_account p ps sale n g a rows ctx b e f known = ground (arith, e, f, known)

-- With a valid schema and known accounts no tender is left without an account.
pub post_payments_total :
    (ps : List Payment) (sale n : ℕ) (rows : List PaymentAccountRow) (ctx : MutationContext)
    (b : Books)
    → all payment_schema ps ≡ true
    → Knows rows (account_guuids ps)
    → (b' : Books) × (post_payments (payment_rows sale n rows ps) ctx b ≡ done b')
      × (b'.customer_ledger_events ≡ b.customer_ledger_events)
unfolding post_sale_payment
post_payments_total [] sale n rows ctx b s k = (b, unfold post_payments payment_rows in refl, refl)
post_payments_total (p ∷ ps) sale n rows ctx b s k =
    let (valid, valid_rest) = &&-true (payment_schema p) _ s in
    let k_rest : Knows rows (account_guuids ps) = λ g m. k g (member-account_guuids p ps g m) in
    elim (Bool-cases p.on_credit) [
      | inl e ↦
          let (b', eq, same) = post_payments_total ps sale (suc n) rows ctx b valid_rest k_rest in
          (b', post_payments-on_credit p ps sale n rows ctx b e ∙ eq, same)
      | inr e ↦
          let (g, a, named, known) = tender_account p ps rows e valid k in
          let posted = post_sale_payment a.id p.amount_paise n ctx b in
          let (b', eq, same) =
            post_payments_total ps sale (suc n) rows ctx posted valid_rest k_rest in
          (b', post_payments-on_account p ps sale n g a rows ctx b e named known ∙ eq, same)
    ]

-- The balance of every customer of the store stays a safe integer with the credit of the payload.
abbrev pub IsSafeBalance : ℕ → ℕ → Books → Type 0
IsSafeBalance store portion b =
    (c : ℕ)
    → (owed store c b.customer_ledger_events + portion ≤ max_safe_integer)
      × (settled store c b.customer_ledger_events ≤ max_safe_integer)

credit_exceeded_total :
    (store portion : ℕ) (c : CustomerRow) (b : Books)
    → IsSafeBalance store portion b
    → credit_exceeded store c portion b
      ≡ done (
          passes_limit c
            (owed store c.id b.customer_ledger_events)
            (settled store c.id b.customer_ledger_events)
            portion)
unfolding credit_exceeded
credit_exceeded_total store portion c b safe = ground (arith, safe c.id)

sum-empty : (ps : List Payment) → length ps ≤ 0 → sum_by amount ps ≡ 0
sum-empty [] h = refl
sum-empty (p ∷ ps) h = elim h [ ]

resolve_customer-some :
    (g store : ℕ) (rows : List CustomerRow) (customer : Option CustomerRow)
    → resolve_customer (some g) store rows ≡ done customer
    → (c : CustomerRow) × (customer ≡ some c)
unfolding resolve_customer
resolve_customer-some g store rows none h = absurd (ground (arith, h))
resolve_customer-some g store rows (some c) h = (c, refl)

-- A credit portion has a customer, by the schema and the lookup.
pub credit_customer :
    (d : CreateSale) (gross : ℕ → ℕ → ℕ) (store : ℕ) (rows : List CustomerRow)
    (customer : Option CustomerRow)
    → create_schema gross d ≡ true
    → resolve_customer d.customer_guuid store rows ≡ done customer
    → 0 < credit_portion d
    → (c : CustomerRow) × (customer ≡ some c)
unfolding create_schema resolve_customer
credit_customer d gross store rows customer s r pos = elim (Option-cases d.customer_guuid) [
  | inl unnamed ↦ absurd (ground (arith, s, unnamed, sum-empty (filter on_credit d.payments)))
  | inr (g, named) ↦ resolve_customer-some g store rows customer (rw named at r)
]

pub post_credit_total :
    (portion sale : ℕ) (customer : Option CustomerRow) (ctx : MutationContext) (b : Books)
    → (0 < portion → (c : CustomerRow) × (customer ≡ some c))
    → IsSafeBalance ctx.store_id portion b
    → (b' : Books) × (post_credit portion customer sale ctx b ≡ done b')
unfolding post_credit
post_credit_total portion sale customer ctx b known safe = elim (Bool-cases (ltb 0 portion)) [
  | inr zero_portion ↦ (b, rw (zero_portion, post_credit))
  | inl positive ↦
      let (c, known_c) = known (ltb→lt 0 portion positive) in
      (
        post_credit_sale c.id portion sale
            (passes_limit c (owed ctx.store_id c.id b.customer_ledger_events)
              (settled ctx.store_id c.id b.customer_ledger_events) portion)
            ctx b,
        rw (positive, post_credit)
            (rw (known_c, post_credit) (rw (credit_exceeded_total ctx.store_id portion c b safe))),
      )
]
