-- ===== src/Sale/Invoice.antt =====
-- Invoice numbers of accepted sales: the counter of the store row that the sale handler bumps
-- (apps/backend/src/sync/push/handlers/sale.handler.ts).
use ayphen_retail_pos.Common.{
  ℕ, ◌+◌, ◌≤◌, ◌≡◌, ◌≢◌, sym, ap, subst, ◌∙◌, Option, none, some, List, [], ◌∷◌, ◌++◌, inl, inr,
  All, All-append, arith, Option-cases,
}
use mathlib.Core.Path.{subst₂}
use ayphen_retail_pos.Ledger.{MutationAction, MutationContext}
use ayphen_retail_pos.StoreDb.{StoreRow, SaleRow, Db, done}
use ayphen_retail_pos.Sale.{CreateSale, allocate_invoice, apply, bump_counter, find_store}
use ayphen_retail_pos.Sale.Accepted.{apply-Accepted, write_sale-Written}

abbrev pub counter : ℕ → List StoreRow → ℕ
counter store ss = elim (find_store store ss) [ none ↦ 0 | some s ↦ s.invoice_counter ]

counter-bump_ge : (j k : ℕ) (ss : List StoreRow) → counter j ss ≤ counter j (bump_counter k ss)
counter-bump_ge j k [] = omega arith
counter-bump_ge j k (s ∷ ss) = ground (arith, counter-bump_ge j k ss)

counter-bump_self :
    (k : ℕ) (ss : List StoreRow) (s : StoreRow)
    → find_store k (bump_counter k ss) ≡ some s
    → s.invoice_counter ≡ counter k ss + 1
counter-bump_self k [] t h = cc
counter-bump_self k (s ∷ ss) t h = ground (arith, counter-bump_self k ss t)

-- The number is one above the counter, and is the counter afterwards.
allocate_invoice_lem :
    (ctx : MutationContext) (db : Db) {invoice : ℕ × ℕ} {db' : Db}
    → allocate_invoice ctx db ≡ done (invoice, db')
    → (invoice.1 ≡ counter ctx.store_id db.stores + 1)
      × (counter ctx.store_id db'.stores ≡ invoice.1)
      × (db'.stores ≡ bump_counter ctx.store_id db.stores)
      × (db'.sales ≡ db.sales)
unfolding allocate_invoice
allocate_invoice_lem ctx db h =
    elim (Option-cases (find_store ctx.store_id (bump_counter ctx.store_id db.stores))) [
      | inl gone ↦ ground arith
      | inr (s, found) ↦ ground (arith, counter-bump_self ctx.store_id db.stores s)
    ]

-- No sale of a store has a number above its counter.
abbrev pub IsBelow : List StoreRow → SaleRow → Type 0
IsBelow stores s = s.invoice_no.1 ≤ counter s.store_fk stores

abbrev Differs : SaleRow → SaleRow → Type 0
Differs s t = s.store_fk ≡ t.store_fk → s.invoice_no.1 ≢ t.invoice_no.1

-- The sales of a store have numbers of their own.
abbrev pub IsDistinct : List SaleRow → Type 0
IsDistinct [] = Unit
IsDistinct (s ∷ ss) = All (λ t. Differs s t) ss × IsDistinct ss

pub record IsNumbered (stores : List StoreRow) (sales : List SaleRow) : Type 0 where
  pub below : All (IsBelow stores) sales
  pub distinct : IsDistinct sales

All-map :
    (P Q : SaleRow → Type 0) (ss : List SaleRow) → ((s : SaleRow) → P s → Q s) → All P ss → All Q ss
All-map P Q [] f h = h
All-map P Q (s ∷ ss) f h = (f s h.0, All-map P Q ss f h.1)

IsDistinct-snoc :
    (ss : List SaleRow) (s : SaleRow)
    → IsDistinct ss
    → All (λ t. Differs t s) ss
    → IsDistinct (ss ++ s ∷ [])
IsDistinct-snoc [] s h k = (tt, tt)
IsDistinct-snoc (t ∷ ss) s h k =
    (All-append (Differs t) ss (s ∷ []) h.0 (k.0, tt), IsDistinct-snoc ss s h.1 k.1)

-- A sale with the bumped number of its store joins the others.
IsNumbered-snoc :
    (k : ℕ) (stores : List StoreRow) (sales : List SaleRow) (s : SaleRow)
    → s.store_fk ≡ k
    → s.invoice_no.1 ≡ counter k stores + 1
    → counter k (bump_counter k stores) ≡ s.invoice_no.1
    → IsNumbered stores sales
    → IsNumbered (bump_counter k stores) (sales ++ s ∷ [])
IsNumbered-snoc k stores sales s mine number now v = record {
  below =
      All-append (IsBelow (bump_counter k stores)) sales (s ∷ [])
        (All-map (IsBelow stores) (IsBelow (bump_counter k stores)) sales
          (λ t b. omega (arith, counter-bump_ge t.store_fk k stores, b)) v.below)
        (rw mine (omega arith), tt);
  distinct = IsDistinct-snoc sales s v.distinct (
      All-map (IsBelow stores) (λ t. Differs t s) sales
        (λ t b same eq.
          omega (arith, number, eq, subst (λ j. t.invoice_no.1 ≤ counter j stores) (same ∙ mine) b))
        v.below);
}

-- Accepting a sale gives it the number above the store's counter, and keeps the sales of each store
-- apart and at or below their counter.
pub apply-IsNumbered :
    (gross : ℕ → ℕ → ℕ) (a : MutationAction) (payload : Option CreateSale) (ctx : MutationContext)
    (db : Db) {sale : SaleRow} {db' : Db}
    → apply gross a payload ctx db ≡ done (sale, db')
    → IsNumbered db.stores db.sales
    → IsNumbered db'.stores db'.sales × (sale.invoice_no.1 ≡ counter ctx.store_id db.stores + 1)
apply-IsNumbered gross a payload ctx db {sale} {db'} h v =
    let (d, _, accepted) = apply-Accepted gross ctx a payload db h in
    let w = write_sale-Written gross ctx d accepted.customer db accepted.written in
    let (number, now, bumped, same) = allocate_invoice_lem ctx db w.allocated in
    let invoice = ap (λ r. r.invoice_no.1) w.sale_eq in
    let numbered =
      IsNumbered-snoc ctx.store_id db.stores db.sales sale (ap (λ r. r.store_fk) w.sale_eq)
        (invoice ∙ number) (ap (counter ctx.store_id) (sym bumped) ∙ now ∙ sym invoice) v in
    (
      subst₂ IsNumbered (sym (w.stores_eq ∙ bumped))
          (sym (w.sales_eq ∙ ap (λ l. l ++ sale ∷ []) same)) numbered,
      invoice ∙ number,
    )
