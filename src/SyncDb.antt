-- ===== src/SyncDb.antt =====
-- The device's sync database (apps/mobile/src/core/sync/db/schema.ts, the columns in use) and the
-- appliers, the interface of appliers/applier.types.ts by which the engine writes the local
-- tables. `T` is the state of the local tables; guuids, ids, entity types and texts are numbers,
-- since they are only compared or stored; a time is in milliseconds; JSON text is the value that it
-- was written from.
use ayphen_retail_pos.Common.{
  ℕ, ◌≡◌, refl, ap, ◌⊎◌, inl, inr, Option, none, some, List, [], ◌∷◌, ◌==◌, if◌then◌else◌,
}

-- A pulled row: `guuid` is `none` where the wire value is no string; `content` is the rest.
pub record WireRow : Type 0 where
  pub guuid : Option ℕ
  pub id : Option ℕ
  pub row_version : ℕ
  pub content : ℕ

pub data Action : Type 0 where
  create update delete : Action

pub data QueueStatus : Type 0 where
  pending inflight applied rejected conflict dead : QueueStatus

-- `pending_mutations`
pub record QueueRow : Type 0 where
  pub mutation_id : ℕ
  pub store_id : ℕ
  pub entity_type : ℕ
  pub entity_guuid : ℕ
  pub action : Action
  pub payload : ℕ
  pub expected_row_version : Option ℕ
  pub client_modified_at : ℕ
  pub parent_guuid : Option ℕ
  pub priority : ℕ
  pub pre_image : Option WireRow
  pub server_row : Option WireRow
  pub status : QueueStatus
  pub attempts : ℕ
  pub error_code : Option ℕ
  pub error_message : Option ℕ
  pub first_failure_at : Option ℕ
  pub last_failure_at : Option ℕ
  pub created_at : ℕ

pub data Operation : Type 0 where
  upsert remove : Operation

-- `typeof row.guuid === 'string' ? row.guuid : String(row.id ?? 'unknown')`
pub data RowKey : Type 0 where
  by_guuid by_id : ℕ → RowKey
  unknown : RowKey

-- `failed_applies`
pub record FailedApply : Type 0 where
  pub id : ℕ
  pub store_id : ℕ
  pub entity_type : ℕ
  pub entity_guuid : RowKey
  pub operation : Operation
  pub row : WireRow
  pub attempts : ℕ
  pub last_attempt_at : ℕ

pub record SyncDb (T : Type 0) : Type 0 where
  pub tables : T
  pub queue : List QueueRow
  pub failed : List FailedApply
  pub next_failed_id : ℕ
  pub cursors : List (ℕ × ℕ)

-- A statement that throws changes nothing.
pub data Result {ℓ} (A : Type ℓ) : Type ℓ where
  ok : A → Result A
  throws : Result A

infixl 5 ◌>>=◌
abbrev pub ◌>>=◌ {ℓ κ} : {A : Type ℓ} {B : Type κ} → Result A → (A → Result B) → Result B
ok a >>= f = f a
throws >>= f = throws

pub Result-cases {ℓ} : {A : Type ℓ} (r : Result A) → (r ≡ throws) ⊎ ((a : A) × (r ≡ ok a))
Result-cases (ok a) = inr (a, refl)
Result-cases throws = inl refl

value_or {ℓ} : {A : Type ℓ} → A → Result A → A
value_or a (ok b) = b
value_or a throws = a

pub ok-injective {ℓ} : {A : Type ℓ} {a b : A} → ok a ≡ ok b → a ≡ b
unfolding value_or
ok-injective {a} h = ap (value_or a) h

-- `SyncApplier`: each call takes the store and works on the local tables.
pub record SyncApplier (T : Type 0) : Type 0 where
  pub upsert_all : ℕ → List WireRow → T → Result T
  pub apply_deletes : ℕ → List ℕ → T → Result T
  pub delete_all_for_store : ℕ → T → Result T

-- `ApplierLookup`
pub record ApplierLookup (T : Type 0) : Type 0 where
  pub get : ℕ → Option (SyncApplier T)
  pub entity_types : List ℕ

-- `syncCursorRepository`
abbrev pub get_cursor : ℕ → List (ℕ × ℕ) → Option ℕ
get_cursor store [] = none
get_cursor store ((s, token) ∷ cs) = if s == store then some token else get_cursor store cs

abbrev pub set_cursor : ℕ → ℕ → List (ℕ × ℕ) → List (ℕ × ℕ)
set_cursor store token [] = (store, token) ∷ []
set_cursor store token ((s, t) ∷ cs) =
    if s == store then (s, token) ∷ cs else (s, t) ∷ set_cursor store token cs

abbrev pub clear_cursor : ℕ → List (ℕ × ℕ) → List (ℕ × ℕ)
clear_cursor store [] = []
clear_cursor store ((s, t) ∷ cs) =
    if s == store then clear_cursor store cs else (s, t) ∷ clear_cursor store cs
