-- ===== src/History/Sold.antt =====
-- What an accepted sale writes (apps/backend/src/sync/push/handlers/sale.handler.ts).
use ayphen_retail_pos.Common.{
  ℕ, suc, ◌+◌, ◌≤◌, ◌<◌, ◌≡◌, refl, sym, ap, subst, ◌∙◌, Option, inl, inr, List, [], ◌∷◌, ◌++◌, ltb,
  length, filter, sum_by, All, arith, Bool-cases, Option-cases,
}
use ayphen_retail_pos.Ledger.{
  MutationAction, MutationContext, Books, LedgerEvent, post_sale_payment, post_credit_sale,
}
use ayphen_retail_pos.StoreDb.{
  PaymentAccountRow, CustomerRow, SaleRow, SaleLineRow, SalePaymentRow, Db, done,
}
use ayphen_retail_pos.Sale.{
  CreateSale, Payment, LineValue, on_credit, amount, allocate_invoice, line_rows, payment_rows,
  post_payments, post_credit, sale_total, apply,
}
use ayphen_retail_pos.Sale.Credit.{credit_exceeded}
use ayphen_retail_pos.Sale.Accepted.{
  done-injective, >>=-eq-done, values, credit_portion, selected_accounts, apply-Accepted,
  write_sale-Written,
}
use ayphen_retail_pos.Sale.Conservation.{
  post_payments_lem, post_credit_lem, check_totals_eq, IsCreditSale,
}
use ayphen_retail_pos.Refund.{sale_credit, is_credit_note}
use ayphen_retail_pos.History.Rows.{Below, Knows, All-map, append-Knows}
use ayphen_retail_pos.History.Sound.{IsPlain}

post_payments-next_id :
    (ps : List SalePaymentRow) (ctx : MutationContext) (b : Books) {b' : Books}
    → post_payments ps ctx b ≡ done b'
    → b'.next_id ≡ b.next_id
unfolding post_payments post_sale_payment
post_payments-next_id [] ctx b h = sym (ap (λ r. r.next_id) (done-injective h))
post_payments-next_id (p ∷ ps) ctx b h = elim (Bool-cases p.on_credit) [
  | inl e ↦ post_payments-next_id ps ctx b (rw (e, post_payments) at h)
  | inr e ↦ elim (Option-cases p.account_fk) [
    | inl f ↦ cc (rw (e, f) at h)
    | inr (account, f) ↦
        post_payments-next_id ps ctx (post_sale_payment account p.amount_paise p.id ctx b)
          (rw (e, f, post_payments) at h)
  ]
]

post_credit-next_id :
    (portion sale : ℕ) (customer : Option CustomerRow) (ctx : MutationContext) (b : Books)
    {b' : Books}
    → post_credit portion customer sale ctx b ≡ done b'
    → b'.next_id ≡ b.next_id
unfolding post_credit post_credit_sale
post_credit-next_id portion sale customer ctx b h = elim (Bool-cases (ltb 0 portion)) [
  | inr nothing ↦ sym (ap (λ r. r.next_id) (done-injective (rw (nothing, post_credit) at h)))
  | inl positive ↦ elim (Option-cases customer) [
    | inl unknown ↦ cc (rw (positive, unknown, post_credit) at h)
    | inr (c, known) ↦
        let (exceeded, _, written) =
          >>=-eq-done (credit_exceeded ctx.store_id c portion b) _
            (rw (positive, known, post_credit) at h) in
        sym (ap (λ r. r.next_id) (done-injective written))
  ]
]

-- The allocation of a number changes the counters alone.
allocate_invoice-others :
    (ctx : MutationContext) (db : Db) {invoice : ℕ × ℕ} {db' : Db}
    → allocate_invoice ctx db ≡ done (invoice, db')
    → db' ≡ record db { stores = db'.stores }
unfolding allocate_invoice
allocate_invoice-others ctx db h = ground arith

sale_credit-payment_rows :
    (ps : List Payment) (sale n : ℕ) (accounts : List PaymentAccountRow)
    → sale_credit (payment_rows sale n accounts ps) sale ≡ sum_by amount (filter on_credit ps)
unfolding sale_credit payment_rows
sale_credit-payment_rows [] sale n accounts = refl
sale_credit-payment_rows (p ∷ ps) sale n accounts =
    ground (arith, sale_credit-payment_rows ps sale (suc n) accounts)

sale_credit-other :
    (ps : List Payment) (sale other n : ℕ) (accounts : List PaymentAccountRow)
    → other < sale
    → sale_credit (payment_rows sale n accounts ps) other ≡ 0
unfolding sale_credit payment_rows
sale_credit-other [] sale other n accounts h = refl
sale_credit-other (p ∷ ps) sale other n accounts h =
    ground (arith, h, sale_credit-other ps sale other (suc n) accounts h)

credit-le-all : (ps : List Payment) → sum_by amount (filter on_credit ps) ≤ sum_by amount ps
credit-le-all [] = omega arith
credit-le-all (p ∷ ps) = ground (arith, credit-le-all ps)

payment_rows-sale :
    (ps : List Payment) (sale n m : ℕ) (accounts : List PaymentAccountRow)
    → sale < m
    → Below (λ (p : SalePaymentRow). p.sale_fk) m (payment_rows sale n accounts ps)
unfolding payment_rows
payment_rows-sale [] sale n m accounts h = tt
payment_rows-sale (p ∷ ps) sale n m accounts h = (h, payment_rows-sale ps sale (suc n) m accounts h)

-- The lines of a sale take the ids that follow.
abbrev pub IsAmong : ℕ → List LineValue → SaleLineRow → Type 0
IsAmong n vs l = (n ≤ l.id) × (l.id < n + length vs)

pub line_rows-ids : (vs : List LineValue) (sale n : ℕ) → All (IsAmong n vs) (line_rows sale n vs)
unfolding line_rows
line_rows-ids [] sale n = tt
line_rows-ids (v ∷ vs) sale n = (
  (omega arith, omega arith),
  All-map (IsAmong (suc n) vs) (IsAmong n (v ∷ vs)) (line_rows sale (suc n) vs)
      (λ l h. (omega (arith, h.0), omega (arith, h.1))) (line_rows-ids vs sale (suc n)),
)

pub line_rows-Knows :
    (vs : List LineValue) (sale n : ℕ)
    → All (Knows (λ (l : SaleLineRow). l.id) (line_rows sale n vs)) (line_rows sale n vs)
unfolding line_rows
line_rows-Knows [] sale n = tt
line_rows-Knows (v ∷ vs) sale n =
    let rest = line_rows sale (suc n) vs in
    let above =
      All-map (IsAmong (suc n) vs) (λ (l : SaleLineRow). suc n ≤ l.id) rest (λ l h. h.0)
        (line_rows-ids vs sale (suc n)) in
    append-Knows (λ (l : SaleLineRow). l.id) (suc n) (_ ∷ []) rest (omega arith, tt) above
      (((λ _. refl), tt), tt) (line_rows-Knows vs sale (suc n))

pub record Sold (db : Db) (sale : SaleRow) (db' : Db) : Type 0 where
  pub tenders : List SalePaymentRow
  pub values_of : List LineValue
  pub events : List LedgerEvent
  pub id_eq : sale.id ≡ db.books.next_id
  pub positive : 0 < sale.total_paise
  pub covered : sale_credit tenders sale.id ≤ sale.total_paise
  pub of_others : (other : ℕ) → other < sale.id → sale_credit tenders other ≡ 0
  pub tender_sales : (m : ℕ) → sale.id < m → Below (λ (p : SalePaymentRow). p.sale_fk) m tenders
  pub sales_eq : db'.sales ≡ db.sales ++ sale ∷ []
  pub lines_eq : db'.sale_lines ≡ db.sale_lines ++ line_rows sale.id (suc sale.id) values_of
  pub payments_eq : db'.sale_payments ≡ db.sale_payments ++ tenders
  pub refunds_eq : db'.refunds ≡ db.refunds
  pub refund_lines_eq : db'.refund_lines ≡ db.refund_lines
  pub events_eq : db'.books.customer_ledger_events ≡ db.books.customer_ledger_events ++ events
  pub no_notes : All (IsPlain sale.id) events
  pub next : suc sale.id + length values_of ≤ db'.books.next_id

pub apply-Sold :
    (gross : ℕ → ℕ → ℕ) (action : MutationAction) (payload : Option CreateSale)
    (ctx : MutationContext) (db : Db) (sale : SaleRow) (db' : Db)
    → apply gross action payload ctx db ≡ done (sale, db')
    → Sold db sale db'
unfolding sale_total
apply-Sold gross action payload ctx db sale db' h =
    let (d, _, a) = apply-Accepted gross ctx action payload db h in
    let w = write_sale-Written gross ctx d a.customer db a.written in
    let same = allocate_invoice-others ctx db w.allocated in
    let vs = values gross ctx d db in
    let id = w.numbered.books.next_id in
    let accounts = selected_accounts ctx d db in
    let rows = payment_rows id (suc id + length vs) accounts d.payments in
    let totals = check_totals_eq gross _ _ a.totals in
    let id_of : sale.id ≡ id = ap (λ s. s.id) w.sale_eq in
    let total_of : sale.total_paise ≡ sum_by (λ (v : LineValue). v.line_total_paise) vs =
      ap (λ s. s.total_paise) w.sale_eq in
    let posted = post_payments_lem rows ctx _ w.posted in
    let credited = post_credit_lem (credit_portion d) id a.customer ctx w.tendered w.portion in
    record {
      tenders = rows;
      values_of = vs;
      events = credited.1.0;
      id_eq = id_of ∙ ap (λ x. x.books.next_id) same;
      positive = omega (arith, total_of, totals.1);
      covered = omega (
        arith,
        total_of,
        totals.0,
        credit-le-all d.payments,
        subst (λ k. sale_credit rows k ≡ credit_portion d) (sym id_of)
            (sale_credit-payment_rows d.payments id (suc id + length vs) accounts),
      );
      of_others = λ other lt.
          sale_credit-other d.payments id other (suc id + length vs) accounts
            (subst (λ k. other < k) id_of lt);
      tender_sales = λ m lt.
          payment_rows-sale d.payments id (suc id + length vs) m accounts
            (subst (λ k. k < m) id_of lt);
      sales_eq = w.sales_eq ∙ ap (λ x. x.sales ++ sale ∷ []) same;
      lines_eq =
          w.lines_eq
          ∙ ap (λ x. x.sale_lines ++ line_rows id (suc id) vs) same
          ∙ ap (λ k. db.sale_lines ++ line_rows k (suc k) vs) (sym id_of);
      payments_eq = w.payments_eq ∙ ap (λ x. x.sale_payments ++ rows) same;
      refunds_eq = w.refunds_eq ∙ ap (λ x. x.refunds) same;
      refund_lines_eq = w.refund_lines_eq ∙ ap (λ x. x.refund_lines) same;
      events_eq =
          ap (λ b. b.customer_ledger_events) w.books_eq
          ∙ credited.1.1
          ∙ ap (λ es. es ++ credited.1.0)
              (posted.1 ∙ ap (λ x. x.books.customer_ledger_events) same);
      no_notes =
          All-map (IsCreditSale ctx id) (IsPlain sale.id) (credited.1.0)
            (λ e k. (ap is_credit_note k.0, k.2 ∙ sym id_of)) (credited.1.2);
      next = omega (
        arith,
        ap (λ b. b.next_id) w.books_eq,
        post_credit-next_id _ id a.customer ctx w.tendered w.portion,
        post_payments-next_id rows ctx _ w.posted,
        id_of,
      );
    }
