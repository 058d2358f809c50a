-- ===== src/Refund/Notes.antt =====
-- The credit notes of a sale's refunds, as apps/backend/src/sync/push/handlers/refund.handler.ts sums
-- them from the customer's book, and the two postings of a refund.
use ayphen_retail_pos.Common.{
  ℕ, suc, ◌+◌, ◌<◌, ◌≡◌, refl, sym, ap, subst, ◌∙◌, Bool, false, ◌&&◌, ◌||◌, inl, inr, Option, List,
  [], ◌∷◌, ◌++◌, ltb, ◌==◌, ==_refl, if◌then◌else◌, filter, any, sum_by, All, All-append, arith,
  Bool-cases, Option-cases,
}
use ayphen_retail_pos.Ledger.{
  MutationContext, LedgerEvent, AccountTransaction, Books, credit_note, post_refund,
  post_refund_credit_note,
}
use ayphen_retail_pos.Ledger.Balance.{money_out, account_out}
use ayphen_retail_pos.StoreDb.{RefundRow, done}
use ayphen_retail_pos.Sale.Accepted.{done-injective}
use ayphen_retail_pos.Refund.{
  prior_refunded, prior_credit_note, is_credit_note, post_cash, post_note,
}

any-append :
    {A : Type 0} (p : A → Bool) (xs : List A) (x : A) → any p (xs ++ x ∷ []) ≡ (any p xs || p x)
any-append p [] x = ground arith
any-append p (y ∷ ys) x = ground (arith, any-append p ys x)

pub prior_refunded-append :
    (rows : List RefundRow) (r : RefundRow) (sale : ℕ)
    → prior_refunded (rows ++ r ∷ []) sale
      ≡ prior_refunded rows sale + (if r.sale_fk == sale then r.amount_paise else 0)
unfolding prior_refunded
prior_refunded-append [] r sale = ground arith
prior_refunded-append (x ∷ xs) r sale = ground (arith, prior_refunded-append xs r sale)

-- The sources of the events are ids that the database has given out.
abbrev pub IsFresh : ℕ → List LedgerEvent → Type 0
IsFresh n events = All (λ (e : LedgerEvent). e.source_fk < n) events

-- A refund with a new id counts for no earlier event.
pub prior_credit_note-refund :
    (events : List LedgerEvent) (rows : List RefundRow) (r : RefundRow) (sale : ℕ)
    → IsFresh r.id events
    → prior_credit_note events (rows ++ r ∷ []) sale ≡ prior_credit_note events rows sale
unfolding prior_credit_note
prior_credit_note-refund [] rows r sale fresh = refl
prior_credit_note-refund (e ∷ es) rows r sale fresh =
    let same : any (λ (x : RefundRow). x.id == e.source_fk && x.sale_fk == sale) (rows ++ r ∷ [])
        ≡ any (λ (x : RefundRow). x.id == e.source_fk && x.sale_fk == sale) rows =
      any-append (λ (x : RefundRow). x.id == e.source_fk && x.sale_fk == sale) rows r
      ∙ ground (arith, fresh.0) in
    rw same (ground (arith, prior_credit_note-refund es rows r sale fresh.1))

sum_by-filter-append :
    {A : Type 0} (f : A → ℕ) (p : A → Bool) (xs : List A) (x : A)
    → sum_by f (filter p (xs ++ x ∷ [])) ≡ sum_by f (filter p xs) + (if p x then f x else 0)
sum_by-filter-append f p [] x = ground arith
sum_by-filter-append f p (y ∷ ys) x = ground (arith, sum_by-filter-append f p ys x)

-- Whether a refund of the sale has the id.
abbrev names : ℕ → ℕ → RefundRow → Bool
names id sale x = x.id == id && x.sale_fk == sale

older-names :
    (rows : List RefundRow) (id sale : ℕ)
    → All (λ (x : RefundRow). x.id < id) rows
    → any (names id sale) rows ≡ false
older-names [] id sale h = refl
older-names (x ∷ xs) id sale h = ground (arith, h.0, older-names xs id sale h.1)

new-names :
    (rows : List RefundRow) (r : RefundRow) (id sale : ℕ)
    → id ≡ r.id
    → All (λ (x : RefundRow). x.id < r.id) rows
    → any (names id sale) (rows ++ r ∷ []) ≡ (r.sale_fk == sale)
new-names rows r id sale e older =
    subst (λ n. any (names n sale) (rows ++ r ∷ []) ≡ (r.sale_fk == sale)) (sym e)
      (any-append (names r.id sale) rows r ∙ ground (arith, older-names rows r.id sale older))

pub prior_credit_note-event :
    (events : List LedgerEvent) (e : LedgerEvent) (rows : List RefundRow) (r : RefundRow) (sale : ℕ)
    → e.kind ≡ credit_note
    → e.source_fk ≡ r.id
    → IsFresh r.id events
    → All (λ (x : RefundRow). x.id < r.id) rows
    → prior_credit_note (events ++ e ∷ []) (rows ++ r ∷ []) sale
      ≡ prior_credit_note (events) rows sale + (if r.sale_fk == sale then e.amount_paise else 0)
unfolding prior_credit_note
prior_credit_note-event events e rows r sale kind source fresh older =
    sum_by-filter-append (λ (x : LedgerEvent). x.amount_paise)
      (λ (x : LedgerEvent). is_credit_note x.kind && any (names x.source_fk sale) (rows ++ r ∷ []))
      events e
    ∙ ap
        (λ n.
          n
          + (if is_credit_note e.kind && any (names e.source_fk sale) (rows ++ r ∷ [])
              then e.amount_paise
              else 0))
        (unfold prior_credit_note in prior_credit_note-refund events rows r sale fresh)
    ∙ ap (λ b. prior_credit_note events rows sale + (if b then e.amount_paise else 0))
        (ap (λ k. is_credit_note k && any (names e.source_fk sale) (rows ++ r ∷ [])) kind
          ∙ new-names rows r e.source_fk sale source older)

account_out-append :
    (account : ℕ) (ts : List AccountTransaction) (t : AccountTransaction)
    → account_out account (ts ++ t ∷ []) ≡ account_out account ts + money_out account t
unfolding account_out
account_out-append account [] t = ground arith
account_out-append account (x ∷ xs) t = omega (arith, account_out-append account xs t)

-- The cash portion leaves the account, and moves nothing else.
pub post_cash_lem :
    (account amount refund : ℕ) (ctx : MutationContext) (b : Books)
    → (account_out account (post_cash account amount refund ctx b).account_transactions
        ≡ account_out account b.account_transactions + amount)
      × ((post_cash account amount refund ctx b).customer_ledger_events ≡ b.customer_ledger_events)
      × ((post_cash account amount refund ctx b).next_id ≡ b.next_id)
unfolding post_cash post_refund
post_cash_lem account amount refund ctx b = elim (Bool-cases (ltb 0 amount)) [
  | inl some_cash ↦ rw some_cash (
    account_out-append account b.account_transactions _
        ∙ ap (λ n. account_out account b.account_transactions + n) (rw (==_refl account) refl),
    refl,
    refl,
  )
  | inr no_cash ↦ rw no_cash (ground (arith, no_cash), refl, refl)
]

weaken-IsFresh : (n : ℕ) (events : List LedgerEvent) → IsFresh n events → IsFresh (suc n) events
weaken-IsFresh n [] h = tt
weaken-IsFresh n (e ∷ es) h = (ground (arith, h.0), weaken-IsFresh n es h.1)

-- What the posting of a refund's credit portion does to the books.
pub record IsNoted (amount : ℕ) (r : RefundRow) (rows : List RefundRow) (sale : ℕ) (b b' : Books)
    : Type 0 where
  pub transactions : b'.account_transactions ≡ b.account_transactions
  pub next : b'.next_id ≡ b.next_id
  pub notes :
      prior_credit_note b'.customer_ledger_events (rows ++ r ∷ []) sale
      ≡ prior_credit_note b.customer_ledger_events rows sale
        + (if r.sale_fk == sale then amount else 0)
  pub fresh : IsFresh (suc r.id) b'.customer_ledger_events

-- The credit portion is an event of the refund, if there is any.
pub post_note-IsNoted :
    (customer : Option ℕ) (amount : ℕ) (r : RefundRow) (ctx : MutationContext) (b b' : Books)
    (rows : List RefundRow) (sale : ℕ)
    → post_note customer amount r.id ctx b ≡ done b'
    → IsFresh r.id b.customer_ledger_events
    → All (λ (x : RefundRow). x.id < r.id) rows
    → IsNoted amount r rows sale b b'
unfolding post_note post_refund_credit_note
post_note-IsNoted customer amount r ctx b b' rows sale h fresh older =
    elim (Bool-cases (ltb 0 amount)) [
      | inr no_note ↦
          subst (IsNoted amount r rows sale b) (done-injective (rw (no_note, post_note) at h))
            (unchanged (ground (arith, no_note)))
      | inl some_note ↦ elim (Option-cases customer) [
        | inl nobody ↦ cc (rw (nobody, post_note) at (rw (some_note, post_note) at h))
        | inr (c, known) ↦
            subst (IsNoted amount r rows sale b)
              (done-injective (rw (known, post_note) at (rw (some_note, post_note) at h))) (noted c)
      ]
    ]
  where
    unchanged : amount ≡ 0 → IsNoted amount r rows sale b b
    unchanged nothing = record {
      transactions = refl;
      next = refl;
      notes =
          prior_credit_note-refund b.customer_ledger_events rows r sale fresh
          ∙ ground (arith, nothing);
      fresh = weaken-IsFresh r.id b.customer_ledger_events fresh;
    }

    noted : (c : ℕ) → IsNoted amount r rows sale b (post_refund_credit_note c amount r.id ctx b)
    noted c = record {
      transactions = refl;
      next = refl;
      notes = prior_credit_note-event b.customer_ledger_events _ rows r sale refl refl fresh older;
      fresh =
          All-append (λ (e : LedgerEvent). e.source_fk < suc r.id) b.customer_ledger_events _
            (weaken-IsFresh r.id b.customer_ledger_events fresh) (ground arith, tt);
    }
