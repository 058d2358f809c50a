-- ===== src/Refund/Values.antt =====
-- The loop over the lines of a refund (apps/backend/src/sync/push/handlers/refund.handler.ts): a rule
-- for what holds of its values.
use ayphen_retail_pos.Common.{
  ℕ, ◌+◌, ◌*◌, ◌-◌, ◌≤◌, ◌<◌, ◌≡◌, refl, subst, ◌∙◌, Bool, true, false, ◌&&◌, inl, inr, some, List,
  [], ◌∷◌, leb, ltb, ◌==◌, if◌then◌else◌, all, sum_by, All, arith, Bool-cases, Option-cases,
  some_injective,
}
pub use ayphen_retail_pos.Common.{filter-All}
use ayphen_retail_pos.StoreDb.{SaleLineRow, Db, done, thrown, Exec}
use ayphen_retail_pos.Sale.{map_get, max_int4}
use ayphen_retail_pos.Sale.Accepted.{done-injective, >>=-eq-done}
use ayphen_retail_pos.Refund.{
  per_thousandth, RefundLine, CreateRefund, line_by_guuid, RefundValue, Running, set_at,
  deficit_of_value, check_columns, line_target, compute_values,
}

pub map_get-All :
    {A : Type 0} (P : A → Type 0) (key : A → ℕ) (k : ℕ) (xs : List A) (a : A)
    → All P xs
    → map_get key k xs ≡ some a
    → P a
map_get-All P key k [] a h e = cc e
map_get-All P key k (x ∷ xs) a h e = elim (Option-cases (map_get key k xs)) [
  | inr (y, later) ↦ map_get-All P key k xs a h.1 (later ∙ (rw later at e))
  | inl last ↦ elim (Bool-cases (key x == k)) [
    | inl hit ↦ subst P (some_injective (rw hit at (rw last at e))) h.0
    | inr miss ↦ cc (rw miss at (rw last at e))
  ]
]

abbrev pub IsPositive : RefundValue → Type 0
IsPositive v = 0 < v.amount_paise

everything : {A : Type 0} (xs : List A) → All (λ _. Unit {0}) xs
everything [] = tt
everything (x ∷ xs) = (tt, everything xs)

module _ (prorate : ℕ → ℕ → ℕ → ℕ) where
  -- The running maps and the value of one turn, on a line of the sale.
  abbrev pub after : Running → SaleLineRow → ℕ → Running
  after run o q = record {
    qty_of = set_at run.qty_of o.id (run.qty_of o.id + q);
    amount_of =
        set_at run.amount_of o.id
          (line_target prorate (run.qty_of o.id + q) o.qty o.line_total_paise);
  }

  abbrev pub value_of : Running → SaleLineRow → ℕ → RefundValue
  value_of run o q =
      let target = line_target prorate (run.qty_of o.id + q) o.qty o.line_total_paise in
      record {
        sale_line_fk = o.id;
        qty = q;
        amount_paise = target - run.amount_of o.id;
        deficit = run.amount_of o.id - target;
      }

  -- What holds of no value, and is kept by a turn on a line `o` that the rows have, holds of the values.
  -- `Q` is known of the quantities of the request.
  pub compute_values-rule_of :
      (rows : List SaleLineRow) (K : SaleLineRow → Type 0) (Q : ℕ → Type 0)
      (P : Running → List RefundValue → Type 0)
      → All K rows
      → ((run : Running) → P run [])
      → ((run : Running) (o : SaleLineRow) (q : ℕ) (vs : List RefundValue)
          → K o
          → Q q
          → run.qty_of o.id + q ≤ o.qty * per_thousandth + 1
          → P (after run o q) vs
          → P run (value_of run o q ∷ vs))
      → (ls : List RefundLine) (run : Running) (vs : List RefundValue)
      → All (λ (l : RefundLine). Q l.qty) ls
      → compute_values prorate ls rows run ≡ done vs
      → P run vs
  unfolding compute_values
  compute_values-rule_of rows K Q P known base turn [] run vs asked h =
      subst (P run) (done-injective h) (base run)
  compute_values-rule_of rows K Q P known base turn (r ∷ rs) run vs asked h =
      elim (Option-cases (line_by_guuid r.sale_line_guuid rows)) [
        | inl missing ↦ cc (rw (missing, compute_values) at h)
        | inr (o, found) ↦
            elim (Bool-cases (ltb (o.qty * per_thousandth + 1) (run.qty_of o.id + r.qty))) [
              | inl over ↦ cc (rw over at (rw (found, compute_values) at h))
              | inr fits ↦
                  (let (ws, rest, e) =
                      >>=-eq-done (compute_values prorate rs rows (after run o r.qty)) _
                        (rw fits at (rw (found, compute_values) at h)) in
                    subst (P run) (done-injective e) (
                      turn run o r.qty ws (map_get-All K _ r.sale_line_guuid rows o known found)
                        asked.0 (ground (arith, fits))
                        (compute_values-rule_of rows K Q P known base turn rs (after run o r.qty) ws
                          asked.1 rest)))
            ]
      ]

  pub compute_values-rule :
      (rows : List SaleLineRow) (K : SaleLineRow → Type 0) (P : Running → List RefundValue → Type 0)
      → All K rows
      → ((run : Running) → P run [])
      → ((run : Running) (o : SaleLineRow) (q : ℕ) (vs : List RefundValue)
          → K o
          → P (after run o q) vs
          → P run (value_of run o q ∷ vs))
      → (ls : List RefundLine) (run : Running) (vs : List RefundValue)
      → compute_values prorate ls rows run ≡ done vs
      → P run vs
  compute_values-rule rows K P known base turn ls run vs h =
      compute_values-rule_of rows K (λ _. Unit {0}) P known base
        (λ r o q ws key asked fits rest. turn r o q ws key rest) ls run vs (everything ls) h

  -- A value with a positive amount has no deficit.
  pub no_deficit :
      (ls : List RefundLine) (rows : List SaleLineRow) (run : Running) (vs : List RefundValue)
      → compute_values prorate ls rows run ≡ done vs
      → All IsPositive vs
      → sum_by deficit_of_value vs ≡ 0
  no_deficit ls rows run vs h =
      compute_values-rule rows (λ _. Unit {0})
        (λ r ws. All IsPositive ws → sum_by deficit_of_value ws ≡ 0) (everything rows) (λ r p. refl)
        (λ r o q ws key rec p. omega (arith, p.0, rec p.1)) ls run vs h

abbrev pub checked : Bool → Exec (Unit {0})
checked c = if c then done tt else thrown

pub checked-true : (c : Bool) → checked c ≡ done tt → c ≡ true
checked-true true h = refl
checked-true false h = cc h

pub stored-IsPositive :
    (d : CreateRefund) (amount : ℕ) (vs : List RefundValue) (db : Db)
    → check_columns d amount vs db ≡ done tt
    → All IsPositive vs
unfolding check_columns
stored-IsPositive d amount vs db h = each vs (ground (arith, checked-true _ h))
  where
    each :
        (ws : List RefundValue)
        → all (λ (v : RefundValue). ltb 0 v.amount_paise && leb v.amount_paise max_int4) ws ≡ true
        → All IsPositive ws
    each [] e = tt
    each (w ∷ ws) e = (ground (arith, e), each ws (ground (arith, e)))
