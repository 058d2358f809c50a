-- ===== src/Refund/Accepted.antt =====
-- What an accepted refund has passed and written (apps/backend/src/sync/push/handlers/
-- refund.handler.ts).
use ayphen_retail_pos.Common.{
  ℕ, suc, ◌+◌, ◌*◌, ◌≡◌, refl, sym, ap, ◌∙◌, inl, inr, Option, none, some, List, [], ◌∷◌, ◌++◌, map,
  leb, if◌then◌else◌, filter, sum_by, member, length, Bool-cases,
}
use ayphen_retail_pos.Ledger.{MutationAction, create, update, delete, MutationContext, Books}
use ayphen_retail_pos.StoreDb.{
  PaymentAccountRow, SaleRow, SaleLineRow, RefundRow, refunded, partially_refunded, Db, done,
}
use ayphen_retail_pos.Sale.{unique}
use ayphen_retail_pos.Sale.Accepted.{done-injective, >>=-eq-done}
use ayphen_retail_pos.Refund.{
  per_thousandth, RefundLine, CreateRefund, create_schema, resolve_sale, resolve_account,
  check_lines, prior_qty, prior_amount, prior_refunded, sale_credit, prior_credit_note, RefundValue,
  Running, refund_line_rows, amount_of_value, check_columns, set_status, post_cash, post_note,
  Split, compute_values, split_refund, write_refund, check_cap, apply_create, apply,
}

abbrev pub originals_of : CreateRefund → Db → List SaleLineRow
originals_of d db =
    filter
      (λ (l : SaleLineRow).
        member l.guuid (unique (map (λ (r : RefundLine). r.sale_line_guuid) d.lines)))
      db.sale_lines

abbrev pub prior_run : Db → Running
prior_run db = record {
  qty_of = λ line. prior_qty db.refund_lines line * per_thousandth;
  amount_of = prior_amount db.refund_lines;
}

-- What the refund comes to, and what the sale has been refunded with it.
abbrev pub total_refunded : SaleRow → List RefundValue → Db → ℕ
total_refunded sale values db = prior_refunded db.refunds sale.id + sum_by amount_of_value values

module _ (prorate : ℕ → ℕ → ℕ → ℕ) where
  abbrev pub portions : SaleRow → List RefundValue → Db → Split
  portions sale values db =
      split_refund prorate (sum_by amount_of_value values)
        (prior_refunded db.refunds sale.id + sum_by amount_of_value values) sale.total_paise
        (sale_credit db.sale_payments sale.id)
        (prior_credit_note db.books.customer_ledger_events db.refunds sale.id)

  pub record Accepted (ctx : MutationContext) (db : Db) (r : RefundRow) (db' : Db) : Type 0 where
    pub data_of : CreateRefund
    pub sale : SaleRow
    pub account : PaymentAccountRow
    pub values : List RefundValue
    pub books : Books
    pub sale_found : resolve_sale ctx data_of db ≡ done sale
    pub account_found : resolve_account ctx data_of db ≡ done account
    pub computed :
        compute_values prorate data_of.lines (originals_of data_of db) (prior_run db) ≡ done values
    pub capped : check_cap sale values db ≡ done tt
    pub storable : check_columns data_of (sum_by amount_of_value values) values db ≡ done tt
    pub posted :
        post_note sale.customer_fk (portions sale values db).credit_portion db.books.next_id ctx (
          post_cash account.id
            (portions sale values db).cash_portion
            db.books.next_id
            ctx
            (record (db.books) { next_id = suc db.books.next_id + length values }))
        ≡ done books
    pub refund_eq : r ≡ record {
      id = db.books.next_id;
      guuid = data_of.guuid;
      store_fk = ctx.store_id;
      sale_fk = sale.id;
      account_fk = account.id;
      amount_paise = sum_by amount_of_value values;
    }
    pub refunds_eq : db'.refunds ≡ db.refunds ++ r ∷ []
    pub lines_eq :
        db'.refund_lines
        ≡ db.refund_lines ++ refund_line_rows db.books.next_id (suc db.books.next_id) values
    pub sales_eq :
        db'.sales
        ≡ set_status sale.id
            (if leb sale.total_paise (total_refunded sale values db)
              then refunded
              else partially_refunded)
            db.sales
    pub books_eq : db'.books ≡ books
    pub payments_eq : db'.sale_payments ≡ db.sale_payments
    pub sale_lines_eq : db'.sale_lines ≡ db.sale_lines
    pub stores_eq : db'.stores ≡ db.stores

  apply_create-Accepted :
      (ctx : MutationContext) (d : CreateRefund) (db : Db) {r : RefundRow} {db' : Db}
      → apply_create prorate ctx d db ≡ done (r, db')
      → (a : Accepted ctx db r db') × (d ≡ a.data_of)
  unfolding apply_create write_refund
  apply_create-Accepted ctx d db h =
      let (sale, sale_found, h₁) = >>=-eq-done (resolve_sale ctx d db) _ h in
      let (account, account_found, h₂) = >>=-eq-done (resolve_account ctx d db) _ h₁ in
      let (_, _, h₃) = >>=-eq-done (check_lines sale.id _ _) _ h₂ in
      let (values, computed, h₄) = >>=-eq-done (compute_values prorate d.lines _ _) _ h₃ in
      let (_, capped, h₅) = >>=-eq-done (check_cap sale values db) _ h₄ in
      let (_, storable, h₆) = >>=-eq-done (check_columns d _ values db) _ h₅ in
      let (books, posted, h₇) = >>=-eq-done (post_note _ _ _ ctx _) _ h₆ in
      let e = done-injective h₇ in
      (
        record {
          data_of = d;
          sale = sale;
          account = account;
          values = values;
          books = books;
          sale_found = sale_found;
          account_found = account_found;
          computed = computed;
          capped = capped;
          storable = storable;
          posted = posted;
          refund_eq = sym (ap (λ r. r.0) e);
          refunds_eq =
              sym (ap (λ r. r.1.refunds) e) ∙ ap (λ x. db.refunds ++ x ∷ []) (ap (λ r. r.0) e);
          lines_eq = sym (ap (λ r. r.1.refund_lines) e);
          sales_eq = sym (ap (λ r. r.1.sales) e);
          books_eq = sym (ap (λ r. r.1.books) e);
          payments_eq = sym (ap (λ r. r.1.sale_payments) e);
          sale_lines_eq = sym (ap (λ r. r.1.sale_lines) e);
          stores_eq = sym (ap (λ r. r.1.stores) e);
        },
        refl,
      )

  pub apply-Accepted_payload :
      (action : MutationAction) (payload : Option CreateRefund) (ctx : MutationContext) (db : Db)
      {r : RefundRow} {db' : Db}
      → apply prorate action payload ctx db ≡ done (r, db')
      → (a : Accepted ctx db r db') × (payload ≡ some a.data_of)
  unfolding apply
  apply-Accepted_payload create none ctx db h = cc h
  apply-Accepted_payload create (some d) ctx db h = elim (Bool-cases (create_schema d)) [
    | inl valid ↦ let (a, e) = apply_create-Accepted ctx d db (rw valid at h) in (a, ap some e)
    | inr invalid ↦ cc (rw invalid at h)
  ]
  apply-Accepted_payload update payload ctx db h = cc h
  apply-Accepted_payload delete payload ctx db h = cc h

  pub apply-Accepted :
      (action : MutationAction) (payload : Option CreateRefund) (ctx : MutationContext) (db : Db)
      {r : RefundRow} {db' : Db}
      → apply prorate action payload ctx db ≡ done (r, db')
      → Accepted ctx db r db'
  apply-Accepted action payload ctx db h = (apply-Accepted_payload action payload ctx db h).0
