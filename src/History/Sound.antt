-- ===== src/History/Sound.antt =====
-- What holds of a store's database between mutations (apps/backend/src/sync/push/handlers).
use ayphen_retail_pos.Common.{
  ℕ, ◌+◌, ◌≤◌, ◌<◌, ◌≡◌, refl, false, ◌&&◌, List, [], ◌∷◌, ◌++◌, ◌==◌, any, All, arith,
}
use ayphen_retail_pos.Ledger.{LedgerEvent}
use ayphen_retail_pos.StoreDb.{SaleRow, SaleLineRow, SalePaymentRow, RefundRow, RefundLineRow}
use ayphen_retail_pos.Sale.Invoice.{IsNumbered}
use ayphen_retail_pos.Refund.{
  prior_refunded, prior_qty, prior_amount, sale_credit, prior_credit_note, is_credit_note,
}
use ayphen_retail_pos.Refund.Notes.{IsFresh}
use ayphen_retail_pos.Refund.Lines.{IsKeyed}
use ayphen_retail_pos.Refund.Money.{share, IsKeyedSale}
use ayphen_retail_pos.History.Rows.{Below, All-map, All-Below, append-Below}
use ayphen_retail_pos.CustomerPayment.{PaymentAllocationRow, SettlementDb, prior_allocated}

-- The ids that the rows refer to have been given out.
pub record IsGiven (n : ℕ) (st : SettlementDb) : Type 0 where
  pub fresh : IsFresh n st.db.books.customer_ledger_events
  pub refund_ids : Below (λ (r : RefundRow). r.id) n st.db.refunds
  pub refund_sales : Below (λ (r : RefundRow). r.sale_fk) n st.db.refunds
  pub refund_lines : Below (λ (l : RefundLineRow). l.sale_line_fk) n st.db.refund_lines
  pub payment_sales : Below (λ (p : SalePaymentRow). p.sale_fk) n st.db.sale_payments
  pub targets : Below (λ (a : PaymentAllocationRow). a.target_fk) n st.payment_allocations

pub IsGiven-grows : (n m : ℕ) (st : SettlementDb) → n ≤ m → IsGiven n st → IsGiven m st
IsGiven-grows n m st le h = record {
  fresh =
      All-Below (λ (e : LedgerEvent). e.source_fk) n m st.db.books.customer_ledger_events le
        h.fresh;
  refund_ids = All-Below (λ (r : RefundRow). r.id) n m st.db.refunds le h.refund_ids;
  refund_sales = All-Below (λ (r : RefundRow). r.sale_fk) n m st.db.refunds le h.refund_sales;
  refund_lines =
      All-Below (λ (l : RefundLineRow). l.sale_line_fk) n m st.db.refund_lines le h.refund_lines;
  payment_sales =
      All-Below (λ (p : SalePaymentRow). p.sale_fk) n m st.db.sale_payments le h.payment_sales;
  targets =
      All-Below (λ (a : PaymentAllocationRow). a.target_fk) n m st.payment_allocations le h.targets;
}

module _ (prorate : ℕ → ℕ → ℕ → ℕ) where
  -- The money of one sale: it is worth something, no more than all of it is on credit and no more has
  -- been refunded, its credit notes are at the share of what has been refunded, and no more than its
  -- credit has been settled.
  pub record IsSoundSale (st : SettlementDb) (s : SaleRow) : Type 0 where
    pub id_given : s.id < st.db.books.next_id
    pub positive : 0 < s.total_paise
    pub covered : sale_credit st.db.sale_payments s.id ≤ s.total_paise
    pub capped : prior_refunded st.db.refunds s.id ≤ s.total_paise
    pub noted :
        prior_credit_note st.db.books.customer_ledger_events st.db.refunds s.id
        ≡ share prorate s st.db (prior_refunded st.db.refunds s.id)
    pub settled : prior_allocated st.payment_allocations s.id ≤ sale_credit st.db.sale_payments s.id

  pub record IsSound (st : SettlementDb) : Type 0 where
    pub numbered : IsNumbered st.db.stores st.db.sales
    pub sales : All (IsSoundSale st) st.db.sales
    pub line_ids : Below (λ (l : SaleLineRow). l.id) st.db.books.next_id st.db.sale_lines
    -- A sale and a line are known by their ids.
    pub keyed : All (λ (s : SaleRow). IsKeyedSale s st.db.sales) st.db.sales
    pub keyed_lines : All (λ (l : SaleLineRow). IsKeyed l st.db.sale_lines) st.db.sale_lines
    pub given : IsGiven st.db.books.next_id st

  pub sale_ids :
      (st : SettlementDb)
      → IsSound st
      → Below (λ (s : SaleRow). s.id) st.db.books.next_id st.db.sales
  sale_ids st sound =
      All-map (IsSoundSale st) (λ (s : SaleRow). s.id < st.db.books.next_id) st.db.sales
        (λ s k. k.id_given) sound.sales

-- An id that has not been given out has nothing to its name.
module _ (n : ℕ) where
  pub prior_refunded-new :
      (rows : List RefundRow)
      → Below (λ (r : RefundRow). r.sale_fk) n rows
      → prior_refunded rows n ≡ 0
  unfolding prior_refunded
  prior_refunded-new [] h = refl
  prior_refunded-new (r ∷ rs) h = ground (arith, h.0, prior_refunded-new rs h.1)

  pub sale_credit-new :
      (rows : List SalePaymentRow)
      → Below (λ (p : SalePaymentRow). p.sale_fk) n rows
      → sale_credit rows n ≡ 0
  unfolding sale_credit
  sale_credit-new [] h = refl
  sale_credit-new (p ∷ ps) h = ground (arith, h.0, sale_credit-new ps h.1)

  pub prior_allocated-new :
      (rows : List PaymentAllocationRow)
      → Below (λ (a : PaymentAllocationRow). a.target_fk) n rows
      → prior_allocated rows n ≡ 0
  unfolding prior_allocated
  prior_allocated-new [] h = refl
  prior_allocated-new (a ∷ rest) h = ground (arith, h.0, prior_allocated-new rest h.1)

  not_named :
      (id : ℕ) (rows : List RefundRow)
      → Below (λ (r : RefundRow). r.sale_fk) n rows
      → any (λ (r : RefundRow). r.id == id && r.sale_fk == n) rows ≡ false
  not_named id [] h = refl
  not_named id (r ∷ rs) h = ground (arith, h.0, not_named id rs h.1)

  pub prior_credit_note-new :
      (events : List LedgerEvent) (rows : List RefundRow)
      → Below (λ (r : RefundRow). r.sale_fk) n rows
      → prior_credit_note events rows n ≡ 0
  unfolding prior_credit_note
  prior_credit_note-new [] rows h = refl
  prior_credit_note-new (e ∷ es) rows h =
      rw (not_named e.source_fk rows h) (ground (arith, prior_credit_note-new es rows h))

  pub prior_qty-new :
      (rows : List RefundLineRow)
      → Below (λ (l : RefundLineRow). l.sale_line_fk) n rows
      → (prior_qty rows n ≡ 0) × (prior_amount rows n ≡ 0)
  unfolding prior_qty prior_amount
  prior_qty-new [] h = (refl, refl)
  prior_qty-new (l ∷ ls) h = let rest = prior_qty-new ls h.1 in ground (arith, h.0, rest.0, rest.1)

-- An event that is no credit note, of one source.
abbrev pub IsPlain : ℕ → LedgerEvent → Type 0
IsPlain source e = (is_credit_note e.kind ≡ false) × (e.source_fk ≡ source)

-- Events that are no credit notes count for no sale.
pub prior_credit_note-append :
    (events others : List LedgerEvent) (rows : List RefundRow) (source sale : ℕ)
    → All (IsPlain source) others
    → prior_credit_note (events ++ others) rows sale ≡ prior_credit_note events rows sale
unfolding prior_credit_note
prior_credit_note-append [] [] rows source sale h = refl
prior_credit_note-append [] (e ∷ es) rows source sale h =
    rw h.0.0 (prior_credit_note-append [] es rows source sale h.1)
prior_credit_note-append (e ∷ es) others rows source sale h =
    ground (arith, prior_credit_note-append es others rows source sale h)

pub IsFresh-append :
    (events others : List LedgerEvent) (n m source : ℕ)
    → n ≤ m
    → source < m
    → IsFresh n events
    → All (IsPlain source) others
    → IsFresh m (events ++ others)
IsFresh-append events others n m source le lt h plain =
    append-Below (λ (e : LedgerEvent). e.source_fk) n m events others le h
      (All-map (IsPlain source) (λ (e : LedgerEvent). e.source_fk < m) others
        (λ e k. omega (arith, k.1, lt)) plain)

pub sale_credit-append :
    (xs ys : List SalePaymentRow) (sale : ℕ)
    → sale_credit (xs ++ ys) sale ≡ sale_credit xs sale + sale_credit ys sale
unfolding sale_credit
sale_credit-append [] ys sale = omega arith
sale_credit-append (x ∷ xs) ys sale = ground (arith, sale_credit-append xs ys sale)
