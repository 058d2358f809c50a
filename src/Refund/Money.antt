-- ===== src/Refund/Money.antt =====
-- The money of an accepted refund (apps/backend/src/sync/push/handlers/refund.handler.ts): its split
-- between the customer's credit and the account, and what refunds of a sale add up to.
use ayphen_retail_pos.Common.{
  ℕ, suc, ◌+◌, ◌-◌, ◌≤◌, ◌<◌, ◌≡◌, refl, ap, subst, ◌∙◌, Bool, true, ◌&&◌, inl, inr, some, List, [],
  ◌∷◌, ◌++◌, ltb, leb, ◌==◌, find, sum_by, All, arith, Bool-cases, Option-cases, some_injective,
}
use ayphen_retail_pos.Ledger.{MutationContext}
use ayphen_retail_pos.StoreDb.{SaleRow, RefundRow, RefundLineRow, Db, done}
use ayphen_retail_pos.Sale.Accepted.{done-injective}
use ayphen_retail_pos.Refund.{
  CreateRefund, resolve_sale, prior_refunded, sale_credit, prior_credit_note, RefundValue,
  amount_of_value, refund_line_rows, cumulative_target, split_refund,
}
use ayphen_retail_pos.Refund.Notes.{IsFresh}

-- The laws of the quotient rounded to the nearest integer.
pub record IsProrate (prorate : ℕ → ℕ → ℕ → ℕ) : Type 0 where
  pub zero_given : (b t : ℕ) → 0 < b → prorate 0 b t ≡ 0
  pub all_given : (b t : ℕ) → 0 < b → prorate b b t ≡ t
  pub monotone : (a a' b t : ℕ) → a ≤ a' → prorate a b t ≤ prorate a' b t
  pub no_faster : (a a' b t : ℕ) → a ≤ a' → t ≤ b → prorate a' b t ≤ prorate a b t + (a' - a)

-- The credit share of a sale that has been refunded by an amount.
abbrev pub share : (ℕ → ℕ → ℕ → ℕ) → SaleRow → Db → ℕ → ℕ
share prorate s db given =
    cumulative_target prorate given s.total_paise (sale_credit db.sale_payments s.id)

-- The refunds of a sale: no more than its total, with the credit notes at their share. The ids of the
-- refunds and of the events' sources have been given out.
pub record IsSettled (prorate : ℕ → ℕ → ℕ → ℕ) (s : SaleRow) (db : Db) : Type 0 where
  pub capped : prior_refunded db.refunds s.id ≤ s.total_paise
  pub noted :
      prior_credit_note db.books.customer_ledger_events db.refunds s.id
      ≡ share prorate s db (prior_refunded db.refunds s.id)
  pub fresh : IsFresh db.books.next_id db.books.customer_ledger_events
  pub older : All (λ (r : RefundRow). r.id < db.books.next_id) db.refunds

module _ (prorate : ℕ → ℕ → ℕ → ℕ) (laws : IsProrate prorate) where
  share_mono :
      (total credit given more : ℕ)
      → 0 < total
      → credit ≤ total
      → given + more ≤ total
      → cumulative_target prorate given total credit
        ≤ cumulative_target prorate (given + more) total credit
  unfolding cumulative_target
  share_mono total credit given more positive covered capped = elim (Bool-cases (leb total given)) [
    | inl full ↦
        rw full (
          let same : leb total (given + more) ≡ true = ground (arith, full) in
          rw same (omega arith))
    | inr part ↦ rw part (elim (Bool-cases (leb total (given + more))) [
      | inl full ↦ rw full (
          let all_of : given + more ≡ total = ground (arith, full) in
          let most = laws.monotone given total total credit (omega arith) in
          omega (arith, most, laws.all_given total credit positive))
      | inr still ↦ rw still (laws.monotone given (given + more) total credit (omega arith))
    ])
  ]

  share-no_faster :
      (total credit given more : ℕ)
      → 0 < total
      → credit ≤ total
      → given + more ≤ total
      → cumulative_target prorate (given + more) total credit
        ≤ cumulative_target prorate given total credit + more
  unfolding cumulative_target
  share-no_faster total credit given more positive covered capped =
      elim (Bool-cases (leb total given)) [
        | inl full ↦ rw full (
            let same : leb total (given + more) ≡ true = ground (arith, full) in
            rw same (omega arith))
        | inr part ↦ rw part (elim (Bool-cases (leb total (given + more))) [
          | inl full ↦ rw full (
              let all_of : given + more ≡ total = ground (arith, full) in
              let most = laws.no_faster given total total credit (omega arith) covered in
              omega (arith, most, laws.all_given total credit positive))
          | inr still ↦ rw still (
              let most = laws.no_faster given (given + more) total credit (omega arith) covered in
              omega (arith, most))
        ])
      ]

  pub share-le :
      (total credit given : ℕ)
      → 0 < total
      → given ≤ total
      → cumulative_target prorate given total credit ≤ credit
  unfolding cumulative_target
  share-le total credit given positive capped = elim (Bool-cases (leb total given)) [
    | inl full ↦ rw full (omega arith)
    | inr part ↦ rw part (
        let most = laws.monotone given total total credit capped in
        omega (arith, most, laws.all_given total credit positive))
  ]

  -- The two portions, when the notes so far are at their share.
  pub split_refund-exact :
      (total credit given more note : ℕ)
      → 0 < total
      → credit ≤ total
      → given + more ≤ total
      → note ≡ cumulative_target prorate given total credit
      → let parts = split_refund prorate more (given + more) total credit note in
        (parts.cash_portion + parts.credit_portion ≡ more)
        × (note + parts.credit_portion ≡ cumulative_target prorate (given + more) total credit)
  unfolding split_refund
  split_refund-exact total credit given more note positive covered capped at_share =
      let up = share_mono total credit given more positive covered capped in
      let slow = share-no_faster total credit given more positive covered capped in
      elim (Bool-cases (ltb 0 credit)) [
        | inl some_credit ↦ rw some_credit (omega (arith, up, slow), omega (arith, up, slow))
        | inr no_credit ↦ rw no_credit (
            let none_left : credit ≡ 0 = ground (arith, no_credit) in
            (
              omega arith,
              omega (
                arith,
                none_left,
                share-le total credit given positive (omega arith),
                share-le total credit (given + more) positive capped,
              ),
            ))
      ]

find-All :
    (P : SaleRow → Type 0) (p : SaleRow → Bool) (xs : List SaleRow) (a : SaleRow)
    → All P xs
    → find p xs ≡ some a
    → P a
find-All P p [] a h e = cc e
find-All P p (x ∷ xs) a h e = elim (Bool-cases (p x)) [
  | inl hit ↦ subst P (some_injective (rw hit at e)) h.0
  | inr miss ↦ find-All P p xs a h.1 (rw miss at e)
]

-- A sale is known by its id.
abbrev pub IsKeyedSale : SaleRow → List SaleRow → Type 0
IsKeyedSale s rows = All (λ (x : SaleRow). x.id ≡ s.id → x ≡ s) rows

pub resolve_sale-All :
    (P : SaleRow → Type 0) (ctx : MutationContext) (d : CreateRefund) (db : Db) (a : SaleRow)
    → All P db.sales
    → resolve_sale ctx d db ≡ done a
    → P a
unfolding resolve_sale
resolve_sale-All P ctx d db a h e =
    elim (Option-cases
      (find (λ (s : SaleRow). s.guuid == d.sale_guuid && s.store_fk == ctx.store_id) db.sales)) [
        | inl missing ↦ cc (rw (missing, resolve_sale) at e)
        | inr (x, found) ↦
            find-All P _ db.sales a h
              (found ∙ ap some (done-injective (rw (found, resolve_sale) at e)))
      ]

pub refund_line_rows-amount :
    (rows : List RefundLineRow) (refund n : ℕ) (vs : List RefundValue)
    → sum_by (λ (l : RefundLineRow). l.amount_paise) (rows ++ refund_line_rows refund n vs)
      ≡ sum_by (λ (l : RefundLineRow). l.amount_paise) rows + sum_by amount_of_value vs
unfolding refund_line_rows
refund_line_rows-amount [] refund n [] = refl
refund_line_rows-amount [] refund n (v ∷ vs) =
    omega (arith, refund_line_rows-amount [] refund (suc n) vs)
refund_line_rows-amount (r ∷ rs) refund n vs = omega (arith, refund_line_rows-amount rs refund n vs)
