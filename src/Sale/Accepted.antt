-- ===== src/Sale/Accepted.antt =====
-- What an accepted sale went through: the stages of `apply` of the sale handler
-- (apps/backend/src/sync/push/handlers/sale.handler.ts), read back from its success.
use ayphen_retail_pos.Common.{
  ℕ, suc, ◌+◌, ◌≡◌, refl, sym, ap, ◌∙◌, true, ◌&&◌, not, Option, none, some, List, [], ◌∷◌, ◌++◌,
  map, inl, inr, ◌==◌, length, filter, member, sum_by, Bool-cases,
}
use ayphen_retail_pos.Ledger.{MutationAction, create, update, delete, MutationContext, Books}
use ayphen_retail_pos.StoreDb.{
  ProductRow, PaymentAccountRow, CustomerRow, SaleRow, completed, Db, Exec, done, rejected, thrown,
  ◌>>=◌,
}
use ayphen_retail_pos.Sale.{
  check_columns, CreateSale, Line, LineValue, on_credit, amount, unique, account_guuids,
  check_products, check_accounts, resolve_customer, allocate_invoice, post_payments, payment_rows,
  line_rows, post_credit, create_schema, line_value, sale_total, check_totals, write_sale,
  apply_create, apply,
}

pub >>=-eq-done {ℓ κ} :
    {A : Type ℓ} {B : Type κ} (m : Exec A) (f : A → Exec B) {b : B}
    → (m >>= f) ≡ done b
    → (a : A) × (m ≡ done a) × (f a ≡ done b)
>>=-eq-done (done a) f h = (a, refl, h)
>>=-eq-done (rejected c t) f h = cc
>>=-eq-done thrown f h = cc

value_of {ℓ} : {A : Type ℓ} → A → Exec A → A
value_of a (done b) = b
value_of a _ = a

pub done-injective {ℓ} : {A : Type ℓ} {a b : A} → done a ≡ done b → a ≡ b
unfolding value_of
done-injective {a} h = ap (value_of a) h

-- The selects of the handler.
abbrev pub selected_products : MutationContext → CreateSale → Db → List ProductRow
selected_products ctx d db =
    filter
      (λ (p : ProductRow).
        (p.store_fk == ctx.store_id
          && member p.guuid (unique (map (λ (l : Line). l.product_guuid) d.lines)))
        && not p.deleted)
      db.products

abbrev pub selected_accounts : MutationContext → CreateSale → Db → List PaymentAccountRow
selected_accounts ctx d db =
    filter
      (λ (a : PaymentAccountRow).
        (a.store_fk == ctx.store_id && member a.guuid (unique (account_guuids d.payments)))
        && not a.deleted)
      db.payment_accounts

abbrev pub credit_portion : CreateSale → ℕ
credit_portion d = sum_by amount (filter on_credit d.payments)

module _ (gross : ℕ → ℕ → ℕ) (ctx : MutationContext) where
  abbrev pub values : CreateSale → Db → List LineValue
  values d db = map (line_value gross (selected_products ctx d db)) d.lines

  pub record Accepted (d : CreateSale) (db : Db) (sale : SaleRow) (db' : Db) : Type 0 where
    pub customer : Option CustomerRow
    pub schema : create_schema gross d ≡ true
    pub accounts_known :
        check_accounts (unique (account_guuids d.payments)) (selected_accounts ctx d db) ≡ done tt
    pub resolved : resolve_customer d.customer_guuid ctx.store_id db.customers ≡ done customer
    pub totals :
        check_totals gross
          (sale_total gross (selected_products ctx d db) d.lines)
          (sum_by amount d.payments)
        ≡ done tt
    pub written :
        write_sale gross ctx d (values d db) (selected_accounts ctx d db) customer db
        ≡ done (sale, db')

  apply_create-Accepted :
      (d : CreateSale) (db : Db) {sale : SaleRow} {db' : Db}
      → create_schema gross d ≡ true
      → apply_create gross ctx d db ≡ done (sale, db')
      → Accepted d db sale db'
  unfolding apply_create
  apply_create-Accepted d db s h =
      let (_, _, h₁) = >>=-eq-done (check_products _ _) _ h in
      let (_, accounts, h₂) = >>=-eq-done (check_accounts _ _) _ h₁ in
      let (c, resolved, h₃) = >>=-eq-done (resolve_customer d.customer_guuid _ _) _ h₂ in
      let (_, totals, h₄) = >>=-eq-done (check_totals gross _ _) _ h₃ in
      record {
        customer = c;
        schema = s;
        accounts_known = accounts;
        resolved = resolved;
        totals = totals;
        written = h₄;
      }

  pub apply-Accepted :
      (a : MutationAction) (payload : Option CreateSale) (db : Db) {sale : SaleRow} {db' : Db}
      → apply gross a payload ctx db ≡ done (sale, db')
      → (d : CreateSale) × (payload ≡ some d) × Accepted d db sale db'
  unfolding apply
  apply-Accepted create none db h = cc
  apply-Accepted create (some d) db h = elim (Bool-cases (create_schema gross d)) [
    | inl valid ↦ (d, refl, apply_create-Accepted d db valid (rw valid at h))
    | inr invalid ↦ cc (rw invalid at h)
  ]
  apply-Accepted update payload db h = cc
  apply-Accepted delete payload db h = cc

  -- The parts of the writes.
  pub record Written (d : CreateSale) (customer : Option CustomerRow) (db : Db) (sale : SaleRow)
      (db' : Db) : Type 0 where
    pub invoice : ℕ × ℕ
    pub numbered : Db
    pub tendered : Books
    pub credited : Books
    pub allocated : allocate_invoice ctx db ≡ done (invoice, numbered)
    pub posted :
        post_payments
          (payment_rows numbered.books.next_id
            (suc numbered.books.next_id + length (values d db))
            (selected_accounts ctx d db)
            d.payments)
          ctx
          (record (numbered.books) {
            next_id = suc numbered.books.next_id + length (values d db) + length d.payments;
          })
        ≡ done tendered
    pub portion :
        post_credit (credit_portion d) customer numbered.books.next_id ctx tendered ≡ done credited
    pub sale_eq : sale ≡ record {
      id = numbered.books.next_id;
      store_fk = ctx.store_id;
      guuid = d.guuid;
      customer_fk = elim customer [ none ↦ none | some c ↦ some c.id ];
      total_paise = sum_by (λ (v : LineValue). v.line_total_paise) (values d db);
      invoice_no = invoice;
      status = completed;
    }
    pub stores_eq : db'.stores ≡ numbered.stores
    pub sales_eq : db'.sales ≡ numbered.sales ++ sale ∷ []
    pub lines_eq :
        db'.sale_lines
        ≡ numbered.sale_lines
          ++ line_rows numbered.books.next_id (suc numbered.books.next_id) (values d db)
    pub payments_eq :
        db'.sale_payments
        ≡ numbered.sale_payments
          ++ payment_rows numbered.books.next_id
              (suc numbered.books.next_id + length (values d db))
              (selected_accounts ctx d db)
              d.payments
    pub books_eq : db'.books ≡ credited
    pub refunds_eq : db'.refunds ≡ numbered.refunds
    pub refund_lines_eq : db'.refund_lines ≡ numbered.refund_lines

  pub write_sale-Written :
      (d : CreateSale) (customer : Option CustomerRow) (db : Db) {sale : SaleRow} {db' : Db}
      → write_sale gross ctx d (values d db) (selected_accounts ctx d db) customer db
        ≡ done (sale, db')
      → Written d customer db sale db'
  unfolding write_sale
  write_sale-Written d customer db h =
      let (stored, fits, h₀) = >>=-eq-done (check_columns d (values d db) db.sales) _ h in
      let (p, allocated, h₁) = >>=-eq-done (allocate_invoice ctx db) _ h₀ in
      let (t, posted, h₂) = >>=-eq-done (post_payments _ ctx _) _ h₁ in
      let (c, portion, h₃) = >>=-eq-done (post_credit _ customer _ ctx t) _ h₂ in
      let e = done-injective h₃ in
      record {
        invoice = p.0;
        numbered = p.1;
        tendered = t;
        credited = c;
        allocated = allocated;
        posted = posted;
        portion = portion;
        sale_eq = sym (ap (λ r. r.0) e);
        stores_eq = sym (ap (λ r. r.1.stores) e);
        sales_eq = sym (ap (λ r. r.1.sales) e) ∙ ap (λ s. (p.1).sales ++ s ∷ []) (ap (λ r. r.0) e);
        lines_eq = sym (ap (λ r. r.1.sale_lines) e);
        payments_eq = sym (ap (λ r. r.1.sale_payments) e);
        books_eq = sym (ap (λ r. r.1.books) e);
        refunds_eq = sym (ap (λ r. r.1.refunds) e);
        refund_lines_eq = sym (ap (λ r. r.1.refund_lines) e);
      }
