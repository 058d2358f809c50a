-- ===== src/Refund/Settled.antt =====
-- An accepted refund and the sale that it is of (apps/backend/src/sync/push/handlers/
-- refund.handler.ts).
use ayphen_retail_pos.Common.{
  ℕ, suc, ◌+◌, ◌≤◌, ◌<◌, ◌≡◌, refl, sym, ap, subst, ◌∙◌, Bool, true, false, inl, inr, List, [], ◌∷◌,
  ltb, ◌==◌, ==→eq, if◌then◌else◌, sum_by, length, All, All-append, arith, Bool-cases,
}
use ayphen_retail_pos.Ledger.{MutationContext, Books, LedgerEvent}
use ayphen_retail_pos.Ledger.Balance.{account_out}
use ayphen_retail_pos.StoreDb.{
  SaleRow, RefundRow, Db, done, rejected, Exec, refund_exceeds_sale, business_rule,
}
use ayphen_retail_pos.Refund.{
  prior_refunded, sale_credit, prior_credit_note, RefundValue, amount_of_value, deficit_of_value,
  check_cap, cumulative_target, post_cash, post_note,
}
use ayphen_retail_pos.Refund.Values.{stored-IsPositive, no_deficit}
use ayphen_retail_pos.Refund.Accepted.{Accepted, total_refunded, portions, originals_of, prior_run}
use ayphen_retail_pos.Refund.Notes.{
  IsFresh, prior_refunded-append, post_cash_lem, IsNoted, post_note-IsNoted,
}
use ayphen_retail_pos.Refund.Money.{
  IsProrate, share, IsSettled, split_refund-exact, IsKeyedSale, resolve_sale-All,
}

check_cap-le :
    (sale : SaleRow) (vs : List RefundValue) (db : Db)
    → check_cap sale vs db ≡ done tt
    → sum_by deficit_of_value vs ≡ 0
    → total_refunded sale vs db ≤ sale.total_paise
unfolding check_cap
check_cap-le sale vs db h none_short = split _ refl h
  where
    split :
        (c : Bool)
        → ltb
            (sale.total_paise + sum_by deficit_of_value vs)
            (prior_refunded db.refunds sale.id + sum_by amount_of_value vs)
          ≡ c
        → (let r : Exec (Unit {0}) =
              if c then rejected refund_exceeds_sale business_rule else done tt in
            r)
          ≡ done tt
        → total_refunded sale vs db ≤ sale.total_paise
    split true e run = cc run
    split false e run = ground (arith, e, none_short)

older-IsFresh : (n m : ℕ) (events : List LedgerEvent) → n ≤ m → IsFresh n events → IsFresh m events
older-IsFresh n m [] le h = tt
older-IsFresh n m (e ∷ es) le h = (ground (arith, h.0, le), older-IsFresh n m es le h.1)

older_refunds :
    (n m : ℕ) (rows : List RefundRow)
    → n ≤ m
    → All (λ (r : RefundRow). r.id < n) rows
    → All (λ (r : RefundRow). r.id < m) rows
older_refunds n m [] le h = tt
older_refunds n m (r ∷ rs) le h = (ground (arith, h.0, le), older_refunds n m rs le h.1)

module _ (prorate : ℕ → ℕ → ℕ → ℕ) (ctx : MutationContext) (db : Db) (r : RefundRow) (db' : Db)
    (a : Accepted prorate ctx db r db') (s : SaleRow)
    (fresh : IsFresh db.books.next_id db.books.customer_ledger_events)
    (older : All (λ (x : RefundRow). x.id < db.books.next_id) db.refunds) where
  abbrev pub amount : ℕ
  amount = sum_by amount_of_value a.values

  abbrev pub cash : ℕ
  cash = (portions prorate a.sale a.values db).cash_portion

  abbrev pub note : ℕ
  note = (portions prorate a.sale a.values db).credit_portion

  pub refund_id : r.id ≡ db.books.next_id
  refund_id = ap (λ x. x.id) a.refund_eq

  pub refund_amount : r.amount_paise ≡ amount
  refund_amount = ap (λ x. x.amount_paise) a.refund_eq

  pub refund_sale : r.sale_fk ≡ a.sale.id
  refund_sale = ap (λ x. x.sale_fk) a.refund_eq

  abbrev pub numbered : Books
  numbered = record (db.books) { next_id = suc db.books.next_id + length a.values }

  abbrev pub cashed : Books
  cashed = post_cash a.account.id cash db.books.next_id ctx numbered

  pub cashed_lem :
      (account_out a.account.id cashed.account_transactions
        ≡ account_out a.account.id db.books.account_transactions + cash)
      × (cashed.customer_ledger_events ≡ db.books.customer_ledger_events)
      × (cashed.next_id ≡ suc db.books.next_id + length a.values)
  cashed_lem = post_cash_lem a.account.id cash db.books.next_id ctx numbered

  pub noted : IsNoted note r db.refunds s.id cashed db'.books
  noted =
      post_note-IsNoted a.sale.customer_fk note r ctx cashed db'.books db.refunds s.id
        (subst (λ n. post_note a.sale.customer_fk note n ctx cashed ≡ done db'.books)
          (sym refund_id) (a.posted ∙ ap done (sym a.books_eq)))
        (subst (λ n. IsFresh n cashed.customer_ledger_events) (sym refund_id)
          (subst (IsFresh db.books.next_id) (sym (cashed_lem.1)) fresh))
        (subst (λ n. All (λ (x : RefundRow). x.id < n) db.refunds) (sym refund_id) older)

  pub notes_after :
      prior_credit_note db'.books.customer_ledger_events db'.refunds s.id
      ≡ prior_credit_note db.books.customer_ledger_events db.refunds s.id
        + (if r.sale_fk == s.id then note else 0)
  notes_after =
      ap (λ rows. prior_credit_note db'.books.customer_ledger_events rows s.id) a.refunds_eq
      ∙ noted.notes
      ∙ ap (λ es. prior_credit_note es db.refunds s.id + (if r.sale_fk == s.id then note else 0))
          (cashed_lem.1)

  refunded_after :
      prior_refunded db'.refunds s.id
      ≡ prior_refunded db.refunds s.id + (if r.sale_fk == s.id then r.amount_paise else 0)
  refunded_after =
      ap (λ rows. prior_refunded rows s.id) a.refunds_eq ∙ prior_refunded-append db.refunds r s.id

  pub next_after : db'.books.next_id ≡ suc db.books.next_id + length a.values
  next_after = noted.next ∙ cashed_lem.2

  id-lt-next : suc r.id ≤ db'.books.next_id
  id-lt-next = omega (arith, refund_id, next_after)

  pub IsFresh-after : IsFresh db'.books.next_id db'.books.customer_ledger_events
  IsFresh-after =
      older-IsFresh (suc r.id) db'.books.next_id db'.books.customer_ledger_events id-lt-next
        noted.fresh

  pub older_after : All (λ (x : RefundRow). x.id < db'.books.next_id) db'.refunds
  older_after =
      let grows : db.books.next_id ≤ db'.books.next_id = omega (arith, next_after) in
      subst (All (λ (x : RefundRow). x.id < db'.books.next_id)) (sym a.refunds_eq) (
        All-append (λ (x : RefundRow). x.id < db'.books.next_id) db.refunds (r ∷ [])
          (older_refunds db.books.next_id db'.books.next_id db.refunds grows older)
          (id-lt-next, tt))

  share_after : (given : ℕ) → share prorate s db' given ≡ share prorate s db given
  share_after given =
      ap (λ rows. cumulative_target prorate given s.total_paise (sale_credit rows s.id))
        a.payments_eq

  sale_capped : a.sale ≡ s → prior_refunded db.refunds s.id + amount ≤ s.total_paise
  sale_capped e =
      subst (λ (x : SaleRow). prior_refunded db.refunds x.id + amount ≤ x.total_paise) e
        (check_cap-le a.sale a.values db a.capped (
          no_deficit prorate a.data_of.lines (originals_of a.data_of db) (prior_run db) a.values
            a.computed (stored-IsPositive a.data_of amount a.values db a.storable)))

  pub same_sale : IsKeyedSale s db.sales → r.sale_fk ≡ s.id → a.sale ≡ s
  same_sale keyed e =
      resolve_sale-All (λ (x : SaleRow). x.id ≡ s.id → x ≡ s) ctx a.data_of db a.sale keyed
        a.sale_found (sym refund_sale ∙ e)

  -- The portions of the refund, when it is of the sale.
  pub portions_exact :
      IsProrate prorate
      → 0 < s.total_paise
      → sale_credit db.sale_payments s.id ≤ s.total_paise
      → IsSettled prorate s db
      → a.sale ≡ s
      → (cash + note ≡ amount)
        × (prior_credit_note db.books.customer_ledger_events db.refunds s.id + note
            ≡ share prorate s db (prior_refunded db.refunds s.id + amount))
  portions_exact laws positive covered before e =
      let exact =
        split_refund-exact prorate laws s.total_paise (sale_credit db.sale_payments s.id)
          (prior_refunded db.refunds s.id) amount
          (prior_credit_note db.books.customer_ledger_events db.refunds s.id) positive covered
          (sale_capped e) before.noted in
      let cash_eq : cash ≡ (portions prorate s a.values db).cash_portion =
        ap (λ x. (portions prorate x a.values db).cash_portion) e in
      let note_eq : note ≡ (portions prorate s a.values db).credit_portion =
        ap (λ x. (portions prorate x a.values db).credit_portion) e in
      (
        omega (arith, cash_eq, note_eq, exact.0),
        ap (λ n. prior_credit_note db.books.customer_ledger_events db.refunds s.id + n) note_eq
            ∙ exact.1,
      )

  pub IsSettled-after :
      IsProrate prorate
      → 0 < s.total_paise
      → sale_credit db.sale_payments s.id ≤ s.total_paise
      → IsKeyedSale s db.sales
      → IsSettled prorate s db
      → IsSettled prorate s db'
  IsSettled-after laws positive covered keyed before = elim (Bool-cases (r.sale_fk == s.id)) [
    | inr other ↦ record {
      capped = ground (arith, before.capped, same_refunded other);
      noted =
          notes_after
          ∙ ap (λ b. old_notes + (if b then note else 0)) other
          ∙ omega arith
          ∙ before.noted
          ∙ ap (share prorate s db) (sym (same_refunded other))
          ∙ sym (share_after _);
      fresh = IsFresh-after;
      older = older_after;
    }
    | inl own ↦
        (let e = same_sale keyed (==→eq r.sale_fk s.id own) in
          let total : prior_refunded db'.refunds s.id ≡ prior_refunded db.refunds s.id + amount =
            refunded_after
            ∙ ap (λ b. prior_refunded db.refunds s.id + (if b then r.amount_paise else 0)) own
            ∙ ap (λ n. prior_refunded db.refunds s.id + n) refund_amount in
          record {
            capped = ground (arith, total, sale_capped e);
            noted =
                notes_after
                ∙ ap (λ b. old_notes + (if b then note else 0)) own
                ∙ (portions_exact laws positive covered before e).1
                ∙ ap (share prorate s db) (sym total)
                ∙ sym (share_after _);
            fresh = IsFresh-after;
            older = older_after;
          })
  ]
    where
      old_notes : ℕ
      old_notes = prior_credit_note db.books.customer_ledger_events db.refunds s.id

      same_refunded :
          (r.sale_fk == s.id) ≡ false
          → prior_refunded db'.refunds s.id ≡ prior_refunded db.refunds s.id
      same_refunded other =
          refunded_after
          ∙ ap (λ b. prior_refunded db.refunds s.id + (if b then r.amount_paise else 0)) other
          ∙ omega arith
