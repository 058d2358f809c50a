-- ===== src/History/Status.antt =====
-- The new status of a refunded sale (apps/backend/src/sync/push/handlers/refund.handler.ts).
use ayphen_retail_pos.Common.{
  ℕ, ◌≡◌, refl, sym, ap, ◌∙◌, inl, inr, List, [], ◌∷◌, ◌==◌, All, Bool-cases, if◌then◌else◌,
}
use ayphen_retail_pos.StoreDb.{SaleRow, SaleStatus, StoreRow}
use ayphen_retail_pos.Sale.Invoice.{IsNumbered, IsBelow, IsDistinct}
use ayphen_retail_pos.Refund.{set_status}
use ayphen_retail_pos.Refund.Money.{IsKeyedSale}

-- The status of a row: nothing else of the sales changes.
module _ (sale : ℕ) (status : SaleStatus) where
  abbrev pub updated : SaleRow → SaleRow
  updated s = if s.id == sale then record s { status = status } else s

  pub updated-rule :
      (P : SaleRow → Type 0) (s : SaleRow) → P s → P (record s { status = status }) → P (updated s)
  updated-rule P s h k = elim (Bool-cases (s.id == sale)) [
    | inl hit ↦ rw hit k
    | inr miss ↦ rw miss h
  ]

  pub set_status-All :
      (P : SaleRow → Type 0) (ss : List SaleRow)
      → ((s : SaleRow) → P s → P (updated s))
      → All P ss
      → All P (set_status sale status ss)
  unfolding set_status
  set_status-All P [] f h = tt
  set_status-All P (s ∷ ss) f h = (f s h.0, set_status-All P ss f h.1)

  id-updated : (s : SaleRow) → (updated s).id ≡ s.id
  id-updated s = updated-rule (λ x. x.id ≡ s.id) s refl refl

  keyed-updated :
      (s x : SaleRow)
      → (x.id ≡ s.id → x ≡ s)
      → (updated x).id ≡ (updated s).id
      → updated x ≡ updated s
  keyed-updated s x h e = ap updated (h (sym (id-updated x) ∙ e ∙ id-updated s))

  set_status-IsKeyedSale :
      (s : SaleRow) (rows : List SaleRow)
      → IsKeyedSale s rows
      → IsKeyedSale (updated s) (set_status sale status rows)
  unfolding set_status
  set_status-IsKeyedSale s [] h = tt
  set_status-IsKeyedSale s (x ∷ xs) h = (keyed-updated s x h.0, set_status-IsKeyedSale s xs h.1)

  pub set_status-keyed :
      (rows ss : List SaleRow)
      → All (λ s. IsKeyedSale s rows) ss
      → All (λ s. IsKeyedSale s (set_status sale status rows)) (set_status sale status ss)
  unfolding set_status
  set_status-keyed rows [] h = tt
  set_status-keyed rows (s ∷ ss) h =
      (set_status-IsKeyedSale s rows h.0, set_status-keyed rows ss h.1)

  abbrev Differs : SaleRow → SaleRow → Type 0
  Differs s t = s.store_fk ≡ t.store_fk → s.invoice_no.1 ≡ t.invoice_no.1 → ⊥

  set_status-IsDistinct :
      (ss : List SaleRow) → IsDistinct ss → IsDistinct (set_status sale status ss)
  unfolding set_status
  set_status-IsDistinct [] h = tt
  set_status-IsDistinct (s ∷ ss) h = (
    updated-rule (λ x. All (Differs x) (set_status sale status ss)) s (others s h.0) (others s h.0),
    set_status-IsDistinct ss h.1,
  )
    where
      others : (x : SaleRow) → All (Differs x) ss → All (Differs x) (set_status sale status ss)
      others x k = set_status-All (Differs x) ss (λ t d. updated-rule (Differs x) t d d) k

  pub set_status-IsNumbered :
      (stores : List StoreRow) (ss : List SaleRow)
      → IsNumbered stores ss
      → IsNumbered stores (set_status sale status ss)
  set_status-IsNumbered stores ss h = record {
    below = set_status-All (IsBelow stores) ss (λ s k. updated-rule (IsBelow stores) s k k) h.below;
    distinct = set_status-IsDistinct ss h.distinct;
  }
