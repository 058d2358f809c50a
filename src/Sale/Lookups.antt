-- ===== src/Sale/Lookups.antt =====
-- The payload of a sale and the lookups that check it, of
-- apps/backend/src/sync/push/handlers/sale.handler.ts.
use ayphen_retail_pos.Common.{
  is_safe_integer, ℕ, Bool, true, false, ◌&&◌, not, Option, none, some, List, [], ◌∷◌, ltb, ◌==◌,
  if◌then◌else◌, is_some, filter,
}
use ayphen_retail_pos.StoreDb.{
  ProductRow, PaymentAccountRow, CustomerRow, Tender, validation_failed, account_inactive,
  customer_not_found, validation, business_rule, Exec, done, rejected,
}

pub record Line : Type 0 where
  pub product_guuid : ℕ
  pub qty : ℕ
  pub unit_price_paise : ℕ
  pub discount_paise : Option ℕ

pub record Payment : Type 0 where
  pub account_guuid : Option ℕ
  pub tender : Tender
  pub amount_paise : ℕ
  pub on_credit : Bool

pub record CreateSale : Type 0 where
  pub guuid : ℕ
  pub customer_guuid : Option ℕ
  pub lines : List Line
  pub payments : List Payment

pub record LineValue : Type 0 where
  pub product_fk : Option ℕ
  pub qty : ℕ
  pub unit_price_paise : ℕ
  pub discount_paise : ℕ
  pub line_total_paise : ℕ

-- `paymentSchema`: a positive amount, and an account exactly when it is not on credit
unfoldable pub payment_schema : Payment → Bool
payment_schema p =
    ltb 0 p.amount_paise
    && is_safe_integer p.amount_paise
    && (if p.on_credit then not (is_some p.account_guuid) else is_some p.account_guuid)

abbrev pub on_credit : Payment → Bool
on_credit p = p.on_credit

abbrev pub amount : Payment → ℕ
amount p = p.amount_paise

-- `[...new Set(xs)]`
abbrev pub unique : List ℕ → List ℕ
unique [] = []
unique (x ∷ xs) = x ∷ filter (λ y. not (y == x)) (unique xs)

-- `new Map(rows.map((r) => [r.guuid, r])).get(guuid)`: the last row of a guuid is the one kept.
abbrev pub map_get : {A : Type 0} → (A → ℕ) → ℕ → List A → Option A
map_get key k [] = none
map_get key k (x ∷ xs) = elim (map_get key k xs) [
  | some y ↦ some y
  | none ↦ if key x == k then some x else none
]

-- The two loops that reject an unknown or inactive target.
unfoldable pub check_products : List ℕ → List ProductRow → Exec (Unit {0})
check_products [] rows = done tt
check_products (g ∷ gs) rows = elim (map_get (λ (p : ProductRow). p.guuid) g rows) [
  | none ↦ rejected validation_failed validation
  | some _ ↦ check_products gs rows
]

unfoldable pub check_accounts : List ℕ → List PaymentAccountRow → Exec (Unit {0})
check_accounts [] rows = done tt
check_accounts (g ∷ gs) rows = elim (map_get (λ (a : PaymentAccountRow). a.guuid) g rows) [
  | none ↦ rejected validation_failed validation
  | some a ↦ elim a.is_active [
    | true ↦ check_accounts gs rows
    | false ↦ rejected account_inactive business_rule
  ]
]

abbrev pub account_guuids : List Payment → List ℕ
account_guuids [] = []
account_guuids (p ∷ ps) = elim p.account_guuid [
  | none ↦ account_guuids ps
  | some g ↦ g ∷ account_guuids ps
]

abbrev pub head : List CustomerRow → Option CustomerRow
head [] = none
head (c ∷ _) = some c

unfoldable pub resolve_customer : Option ℕ → ℕ → List CustomerRow → Exec (Option CustomerRow)
resolve_customer none store rows = done none
resolve_customer (some g) store rows =
    elim (head
      (filter (λ (c : CustomerRow). c.store_fk == store && c.guuid == g && not c.deleted) rows)) [
        | none ↦ rejected customer_not_found business_rule
        | some c ↦ done (some c)
      ]
