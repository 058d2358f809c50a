-- ===== src/Sale/NeverThrows.antt =====
-- The throws of `apply` of the sale handler as a whole
-- (apps/backend/src/sync/push/handlers/sale.handler.ts).
use ayphen_retail_pos.Common.{
  ℕ, suc, ◌+◌, ◌≡◌, ◌≢◌, refl, sym, ap, ◌∙◌, true, Option, none, some, List, [], ◌∷◌, inl, inr,
  ◌==◌, length, all, arith, Bool-cases,
}
use ayphen_retail_pos.Ledger.{MutationAction, create, update, delete, MutationContext, Books}
use ayphen_retail_pos.StoreDb.{
  SaleRow, ProductRow, PaymentAccountRow, CustomerRow, StoreRow, Db, Exec, done, thrown, rejected,
  ◌>>=◌,
}
use ayphen_retail_pos.Sale.{
  LineValue, is_storable, check_columns, CreateSale, account_guuids, unique, check_products,
  check_accounts, resolve_customer, allocate_invoice, post_payments, post_credit, payment_schema,
  create_schema, check_totals, write_sale, apply_create, apply, find_store, bump_counter,
}
use ayphen_retail_pos.Sale.Accepted.{done-injective, credit_portion, selected_accounts, values}
use ayphen_retail_pos.Sale.Conservation.{allocate_invoice-books}
use ayphen_retail_pos.Sale.Total.{
  IsSafeBalance, check_accounts-known, member-unique, post_payments_total, post_credit_total,
  credit_customer,
}

>>=-ne-thrown {ℓ κ} :
    {A : Type ℓ} {B : Type κ} (m : Exec A) (f : A → Exec B)
    → m ≢ thrown
    → ((a : A) → m ≡ done a → f a ≢ thrown)
    → (m >>= f) ≢ thrown
>>=-ne-thrown (done a) f h k = k a refl
>>=-ne-thrown (rejected c t) f h k = λ e. cc
>>=-ne-thrown thrown f h k = absurd (h refl)

check_products-ne-thrown : (gs : List ℕ) (rows : List ProductRow) → check_products gs rows ≢ thrown
unfolding check_products
check_products-ne-thrown [] rows = λ e. cc
check_products-ne-thrown (g ∷ gs) rows = ground (arith, check_products-ne-thrown gs rows)

check_accounts-ne-thrown :
    (gs : List ℕ) (rows : List PaymentAccountRow) → check_accounts gs rows ≢ thrown
unfolding check_accounts
check_accounts-ne-thrown [] rows = λ e. cc
check_accounts-ne-thrown (g ∷ gs) rows = ground (arith, check_accounts-ne-thrown gs rows)

resolve_customer-ne-thrown :
    (g : Option ℕ) (store : ℕ) (rows : List CustomerRow) → resolve_customer g store rows ≢ thrown
unfolding resolve_customer
resolve_customer-ne-thrown none store rows = λ e. cc
resolve_customer-ne-thrown (some g) store rows = ground arith

check_totals-ne-thrown :
    (gross : ℕ → ℕ → ℕ) (total payments : ℕ) → check_totals gross total payments ≢ thrown
unfolding check_totals
check_totals-ne-thrown gross total payments = ground arith

find_store-bump :
    (k : ℕ) (ss : List StoreRow) {s : StoreRow}
    → find_store k ss ≡ some s
    → find_store k (bump_counter k ss) ≡ some (record s { invoice_counter = s.invoice_counter + 1 })
find_store-bump k [] h = cc
find_store-bump k (t ∷ ss) {s} h = elim (Bool-cases (t.id == k)) [
  | inl same ↦ ground (arith, h, same)
  | inr other ↦ ground (arith, find_store-bump k ss {s = s} (rw other at h), other)
]

-- A store that has a number to give.
pub record HasInvoices (ctx : MutationContext) (db : Db) : Type 0 where
  pub store : StoreRow
  pub prefix : ℕ
  pub found : find_store ctx.store_id db.stores ≡ some store
  pub prefixed : store.invoice_prefix ≡ some prefix

allocate_invoice_total :
    (ctx : MutationContext) (db : Db) (i : HasInvoices ctx db)
    → allocate_invoice ctx db
      ≡ done (
        (i.prefix, i.store.invoice_counter + 1),
        record db { stores = bump_counter ctx.store_id db.stores },
      )
unfolding allocate_invoice
allocate_invoice_total ctx db i =
    ground (arith, find_store-bump ctx.store_id db.stores {s = i.store} i.found)

schema_payments :
    (gross : ℕ → ℕ → ℕ) (d : CreateSale)
    → create_schema gross d ≡ true
    → all payment_schema d.payments ≡ true
unfolding create_schema
schema_payments gross d s = ground (arith, s)

-- The balances are read from the customers' book alone.
IsSafeBalance-events :
    (store portion : ℕ) (b c : Books)
    → b.customer_ledger_events ≡ c.customer_ledger_events
    → IsSafeBalance store portion c
    → IsSafeBalance store portion b
IsSafeBalance-events store portion b c e safe = λ k. rw e (safe k)

check_columns-ne-thrown :
    (d : CreateSale) (values : List LineValue) (sales : List SaleRow)
    → is_storable d values sales ≡ true
    → check_columns d values sales ≢ thrown
unfolding check_columns
check_columns-ne-thrown d values sales fits = rw (fits, check_columns) (λ e. cc e)

module _ (gross : ℕ → ℕ → ℕ) (ctx : MutationContext) (db : Db) (i : HasInvoices ctx db) where
  -- The writes go through once the checks have.
  write_sale-ne-thrown :
      (d : CreateSale) (customer : Option CustomerRow)
      → create_schema gross d ≡ true
      → check_accounts (unique (account_guuids d.payments)) (selected_accounts ctx d db) ≡ done tt
      → resolve_customer d.customer_guuid ctx.store_id db.customers ≡ done customer
      → IsSafeBalance ctx.store_id (credit_portion d) db.books
      → is_storable d (values gross ctx d db) db.sales ≡ true
      → write_sale gross ctx d (values gross ctx d db) (selected_accounts ctx d db) customer db
        ≢ thrown
  unfolding write_sale
  write_sale-ne-thrown d customer s known resolved safe fits =
      >>=-ne-thrown (check_columns d (values gross ctx d db) db.sales) _
        (check_columns-ne-thrown d (values gross ctx d db) db.sales fits)
        λ _ _.
          >>=-ne-thrown (allocate_invoice ctx db) _ (λ e. cc (allocate_invoice_total ctx db i))
            λ p eq.
              let base = record (p.1.books) {
                next_id =
                    suc p.1.books.next_id + length (values gross ctx d db) + length d.payments;
              } in
              let (b₂, posted, same) =
                post_payments_total d.payments p.1.books.next_id _ (selected_accounts ctx d db) ctx
                  base (schema_payments gross d s)
                  (λ g m. check_accounts-known g _ _ known (member-unique g _ m)) in
              >>=-ne-thrown (post_payments _ ctx base) _ (λ e. cc posted)
                λ b posted_b.
                  let events =
                    ap (λ r. r.customer_ledger_events) (done-injective (sym posted_b ∙ posted))
                    ∙ same
                    ∙ ap (λ r. r.customer_ledger_events) (allocate_invoice-books ctx db eq).0 in
                  let (b₃, credited) =
                    post_credit_total (credit_portion d) p.1.books.next_id customer ctx b
                      (credit_customer d gross ctx.store_id db.customers customer s resolved)
                      (IsSafeBalance-events ctx.store_id (credit_portion d) b db.books events
                        safe) in
                  >>=-ne-thrown (post_credit _ customer _ ctx b) _ (λ e. cc credited) (λ _ _ e. cc)

  apply_create-ne-thrown :
      (d : CreateSale)
      → create_schema gross d ≡ true
      → IsSafeBalance ctx.store_id (credit_portion d) db.books
      → is_storable d (values gross ctx d db) db.sales ≡ true
      → apply_create gross ctx d db ≢ thrown
  unfolding apply_create
  apply_create-ne-thrown d s safe fits =
      >>=-ne-thrown (check_products _ _) _ (check_products-ne-thrown _ _) λ _ _.
        >>=-ne-thrown (check_accounts _ _) _ (check_accounts-ne-thrown _ _) λ _ known.
          >>=-ne-thrown (resolve_customer _ _ _) _ (resolve_customer-ne-thrown _ _ _) λ c resolved.
            >>=-ne-thrown (check_totals gross _ _) _ (check_totals-ne-thrown gross _ _)
              λ _ _. write_sale-ne-thrown d c s known resolved safe fits

  -- For a store with invoice numbers, a payload whose amounts fit their columns and whose guuid is new,
  -- and balances that stay safe integers with the credit of the payload, the handler never throws:
  -- it accepts the sale or names why it rejects it.
  pub apply-ne-thrown :
      (a : MutationAction) (payload : Option CreateSale)
      → ((d : CreateSale)
          → payload ≡ some d
          → IsSafeBalance ctx.store_id (credit_portion d) db.books
            × (is_storable d (values gross ctx d db) db.sales ≡ true))
      → apply gross a payload ctx db ≢ thrown
  unfolding apply
  apply-ne-thrown create none safe = λ e. cc
  apply-ne-thrown create (some d) safe = elim (Bool-cases (create_schema gross d)) [
    | inl valid ↦ rw valid (apply_create-ne-thrown d valid (safe d refl).0 (safe d refl).1)
    | inr invalid ↦ rw invalid (λ e. cc)
  ]
  apply-ne-thrown update payload safe = λ e. cc
  apply-ne-thrown delete payload safe = λ e. cc
