-- ===== src/StoreDb.antt =====
-- The tables of one store database that the sale and refund handlers read and write
-- (apps/backend/src/db/schema.ts, the columns in use), and the outcome of a handler
-- (HandlerOutcome of apps/backend/src/sync/push/mutation.types.ts). Quantities are thousandths.
use ayphen_retail_pos.Common.{ℕ, Bool, Option, List}
use ayphen_retail_pos.Ledger.{Books}

pub record ProductRow : Type 0 where
  pub id : ℕ
  pub guuid : ℕ
  pub store_fk : ℕ
  pub deleted : Bool

pub record PaymentAccountRow : Type 0 where
  pub id : ℕ
  pub guuid : ℕ
  pub store_fk : ℕ
  pub is_active : Bool
  pub deleted : Bool

-- `credit_limit` is the text of a NUMERIC(12,2), as character codes.
pub record CustomerRow : Type 0 where
  pub id : ℕ
  pub guuid : ℕ
  pub store_fk : ℕ
  pub credit_limit : Option (List ℕ)
  pub override_credit_limit : Option Bool
  pub deleted : Bool

pub record StoreRow : Type 0 where
  pub id : ℕ
  pub invoice_counter : ℕ
  pub invoice_prefix : Option ℕ

pub data Tender : Type 0 where
  cash card upi wallet other : Tender

pub data SaleStatus : Type 0 where
  completed partially_refunded refunded : SaleStatus

-- The invoice number `PREFIX-counter` is the pair of its parts.
pub record SaleRow : Type 0 where
  pub id : ℕ
  pub store_fk : ℕ
  pub guuid : ℕ
  pub customer_fk : Option ℕ
  pub total_paise : ℕ
  pub invoice_no : ℕ × ℕ
  pub status : SaleStatus

pub record SaleLineRow : Type 0 where
  pub id : ℕ
  pub guuid : ℕ
  pub sale_fk : ℕ
  pub product_fk : Option ℕ
  pub qty : ℕ
  pub unit_price_paise : ℕ
  pub discount_paise : ℕ
  pub line_total_paise : ℕ

pub record SalePaymentRow : Type 0 where
  pub id : ℕ
  pub sale_fk : ℕ
  pub account_fk : Option ℕ
  pub tender : Tender
  pub amount_paise : ℕ
  pub on_credit : Bool

pub record RefundRow : Type 0 where
  pub id : ℕ
  pub guuid : ℕ
  pub store_fk : ℕ
  pub sale_fk : ℕ
  pub account_fk : ℕ
  pub amount_paise : ℕ

pub record RefundLineRow : Type 0 where
  pub id : ℕ
  pub refund_fk : ℕ
  pub sale_line_fk : ℕ
  pub qty : ℕ
  pub amount_paise : ℕ

pub record Db : Type 0 where
  pub products : List ProductRow
  pub payment_accounts : List PaymentAccountRow
  pub customers : List CustomerRow
  pub stores : List StoreRow
  pub sales : List SaleRow
  pub sale_lines : List SaleLineRow
  pub sale_payments : List SalePaymentRow
  pub refunds : List RefundRow
  pub refund_lines : List RefundLineRow
  pub books : Books

pub data ErrorCode : Type 0 where
  validation_failed account_inactive customer_not_found payment_mismatch : ErrorCode
  sale_not_found sale_line_not_found refund_exceeds_sale target_over_settled : ErrorCode

pub data ConflictType : Type 0 where
  validation business_rule : ConflictType

-- What a run of a handler ends in: a value, a rejection, or a thrown error. The last two roll the
-- transaction back, so they carry no database.
pub data Exec {ℓ} (A : Type ℓ) : Type ℓ where
  done : A → Exec A
  rejected : ErrorCode → ConflictType → Exec A
  thrown : Exec A

infixl 5 ◌>>=◌ ◌>>◌
abbrev pub ◌>>=◌ {ℓ κ} : {A : Type ℓ} {B : Type κ} → Exec A → (A → Exec B) → Exec B
done a >>= f = f a
rejected c t >>= f = rejected c t
thrown >>= f = thrown

abbrev pub ◌>>◌ {ℓ κ} : {A : Type ℓ} {B : Type κ} → Exec A → Exec B → Exec B
m >> k = m >>= λ _. k
